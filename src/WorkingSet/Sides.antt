-- ===== src/WorkingSet/Sides.antt =====
-- One side of a working set, variables or constraints, seen through functions: which entries are
-- active, where each stands in the set, and what stands at each position.
use mathlib.Core.Bool.{false≢true}
use mathlib.Core.Option.{some-injective}
use sleqp.Base.{
  ℕ, ◌+◌, ◌≤◌, ◌<◌, ◌≡◌, ◌∙◌, sym, ap, Bool, true, false, Option, some, arith, ◌==◌, Bool-cases,
  is_some, inl, inr, count_below, count_below_step, count_below-lt, ◌≢◌,
}

-- Positions `lo` to `hi` of the set hold the `n` entries of the side that are active, the entry
-- `j` under the number `off + j`.
pub record Side (n lo hi off : ℕ) (active : ℕ → Bool) (idx : ℕ → Option ℕ) (cont : ℕ → ℕ)
    : Type 0 where
  pub set_iff_active : (j : ℕ) → j < n → is_some (idx j) ≡ active j
  pub index_in :
      (j p : ℕ)
      → j < n
      → idx j ≡ some p
      → (active j ≡ true) × (lo ≤ p) × (p < hi) × (cont p ≡ off + j)
  pub content_in :
      (k : ℕ) → lo ≤ k → k < hi → (j : ℕ) × (j < n) × (cont k ≡ off + j) × (idx j ≡ some k)
  pub counted : count_below n active + lo ≡ hi

-- An empty side holds wherever it starts.
pub Side-move :
    (n lo hi lo' hi' off : ℕ) (active : ℕ → Bool) (idx : ℕ → Option ℕ) (cont cont' : ℕ → ℕ)
    → Side n lo hi off active idx cont
    → hi ≡ lo
    → hi' ≡ lo'
    → Side n lo' hi' off active idx cont'
Side-move n lo hi lo' hi' off active idx cont cont' s e e' = record {
  set_iff_active = s.set_iff_active;
  index_in = λ j p h q. absurd (omega (arith, s.index_in j p h q));
  content_in = λ k a b. absurd (omega arith);
  counted = omega (arith, s.counted);
}

-- A write behind the side leaves it as it is.
pub Side-frame :
    (n lo hi off : ℕ) (active : ℕ → Bool) (idx : ℕ → Option ℕ) (cont cont' : ℕ → ℕ)
    → Side n lo hi off active idx cont
    → ((k : ℕ) → k < hi → cont' k ≡ cont k)
    → Side n lo hi off active idx cont'
Side-frame n lo hi off active idx cont cont' s same = record {
  set_iff_active = s.set_iff_active;
  index_in = λ j p h e. let (a, l, u, c) = s.index_in j p h e in (a, l, u, same p u ∙ c);
  content_in = λ k a b. let (j, jn, c, i) = s.content_in k a b in (j, jn, same k b ∙ c, i);
  counted = s.counted;
}

module _ (n lo hi off i : ℕ) (active active' : ℕ → Bool) (idx idx' : ℕ → Option ℕ)
    (cont cont' : ℕ → ℕ) (s : Side n lo hi off active idx cont) (in_range : i < n)
    (was_off : active i ≡ false) (now_on : active' i ≡ true) (now_at : idx' i ≡ some hi)
    (now_cont : cont' hi ≡ off + i) (active_ne : (j : ℕ) → i ≢ j → active' j ≡ active j)
    (idx_ne : (j : ℕ) → i ≢ j → idx' j ≡ idx j) (cont_ne : (k : ℕ) → k < hi → cont' k ≡ cont k)
    (hi' : ℕ) (up : hi' ≡ hi + 1) where
  -- Adding an inactive entry at the end extends the side by one position.
  pub Side-add : Side n lo hi' off active' idx' cont'
  Side-add = record {
    set_iff_active = λ j h. elim (Bool-cases (i == j)) [
      | inl q ↦ let same : i ≡ j = ground arith in rw (← same) (ap is_some now_at ∙ sym now_on)
      | inr q ↦
          let ne : i ≢ j = ground arith in
          ap is_some (idx_ne j ne) ∙ s.set_iff_active j h ∙ sym (active_ne j ne)
    ];
    index_in = λ j p h e. elim (Bool-cases (i == j)) [
      | inl q ↦
          let same : i ≡ j = ground arith in
          let at : some hi ≡ some p = sym now_at ∙ ap idx' same ∙ e in
          let top : hi ≡ p = some-injective _ _ at in
          (
            ap active' (sym same) ∙ now_on,
            omega (arith, s.counted),
            omega arith,
            ap cont' (sym top) ∙ now_cont ∙ ap (λ x. off + x) same,
          )
      | inr q ↦
          let ne : i ≢ j = ground arith in
          let (a, l, u, c) = s.index_in j p h (sym (idx_ne j ne) ∙ e) in
          (active_ne j ne ∙ a, l, omega arith, cont_ne p u ∙ c)
    ];
    content_in = λ k a b. elim (Bool-cases (k == hi)) [
      | inl q ↦
          let same : k ≡ hi = ground arith in
          (i, in_range, ap cont' same ∙ now_cont, now_at ∙ ap some (sym same))
      | inr q ↦
          let lt : k < hi = ground arith in
          let (j, jn, c, at) = s.content_in k a lt in
          let ne : i ≢ j = λ e. false≢true (sym was_off ∙ ap active e ∙ (s.index_in j k jn at).0) in
          (j, jn, cont_ne k lt ∙ c, idx_ne j ne ∙ at)
    ];
    counted = omega (
      arith,
      s.counted,
      count_below_step n i active active' in_range was_off now_on
          (λ k lt q. sym (active_ne k (ground arith))),
    );
  }

-- A side with an inactive entry has room for it.
pub Side-room :
    (n lo hi off i : ℕ) (active : ℕ → Bool) (idx : ℕ → Option ℕ) (cont : ℕ → ℕ)
    → Side n lo hi off active idx cont
    → i < n
    → active i ≡ false
    → hi < lo + n
Side-room n lo hi off i active idx cont s h e =
    omega (arith, s.counted, count_below-lt n i active h e)
