-- ===== src/Vec/Raw.antt =====
-- `set_from_raw` and `is_valid` of vec.c.
use sleqp.Base.{
  ℕ, zero, suc, ◌+◌, ◌-◌, ◌≤◌, ◌<◌, ◌≡◌, ◌≢◌, ◌↔◌, inl, inr, refl, ap, sym, subst, ◌∙◌, Bool, true,
  false, not, ◌&&◌, Option, none, List, [], ◌∷◌, arith, ltb, ◌==◌, if◌then◌else◌, length, ok, ◌>>=◌,
  Bool-cases, if_of_false, ltb_zero,
}
use sleqp.Double.{Double, is_zero}
use sleqp.Vec.{
  Entries, Vec, nnz, at, resize, clear, reserve, is_valid, increasing, behind_last, push_nonzero,
  set_from_raw, count_nonzero, push,
}
use sleqp.Vec.Entries.{InRange, IsValid, InRange-weaken, at_above, emptied}
use sleqp.Vec.Emit.{kept, Emitted, emit}

pub unless :
    {A B : Type 0} (b : Bool) (p q : A) (k : A → B)
    → k (if not b then p else q) ≡ k (if b then q else p)
unless true p q k = refl
unless false p q k = refl

module _ {R : Type 0} where
  increasing_iff :
      (a n i : ℕ) (x : R) (es : Entries R)
      → a ≤ i
      → (increasing ((i, x) ∷ es) && behind_last n ((i, x) ∷ es) ≡ true) ↔ InRange a n ((i, x) ∷ es)
  unfolding increasing
  increasing_iff a n i x [] le = (λ h. (le, ground arith, ground arith), λ h. ground arith)
  increasing_iff a n i x ((j, y) ∷ es) le = (
    λ h.
        let lt : i < j = ground arith in
        let rest : increasing ((j, y) ∷ es) && behind_last n ((j, y) ∷ es) ≡ true = ground arith in
        let r = (increasing_iff (suc i) n j y es lt).0 rest in (le, omega (arith, r), r),
    λ h. let r = (increasing_iff (suc i) n j y es h.2.0).1 h.2 in ground (arith, r),
  )

  in_order_iff :
      (n : ℕ) (es : Entries R) → (increasing es && behind_last n es ≡ true) ↔ InRange 0 n es
  unfolding increasing
  in_order_iff n [] = (λ h. omega arith, λ h. refl)
  in_order_iff n ((i, x) ∷ es) = increasing_iff 0 n i x es (omega arith)

  -- `is_valid` answers `true` exactly for the vectors whose indices increase strictly, lie below the
  -- dimension, and are no more than the room.
  pub is_valid_iff : (v : Vec R) → (is_valid v ≡ true) ↔ IsValid v
  unfolding is_valid
  is_valid_iff v = elim (Bool-cases (ltb v.nnz_max (nnz v))) [
    | inl over ↦ (λ h. absurd (ground arith), λ h. absurd (ground (arith, h.fits)))
    | inr fits ↦
        let order = in_order_iff v.dim v.entries in
        rw fits (λ h. record { in_range = order.0 h; fits = ground arith }, λ h. order.1 h.in_range)
  ]

module _ {R : Type 0} ⦃d : Double R⦄ where
  open d use {nought}

  -- The value that a dense vector leaves at an index.
  abbrev pub kept_at : R → List R → ℕ → Option R
  kept_at eps [] j = none
  kept_at eps (x ∷ xs) zero = kept eps x
  kept_at eps (x ∷ xs) (suc j) = kept_at eps xs j

  pub record Stored (eps : R) (b n : ℕ) (xs : List R) (v : Vec R) (out : Entries R) : Type 0 where
    pub runs : push_nonzero eps b xs v ≡ ok (record v { entries = out })
    pub in_range : InRange 0 n out
    pub count : length out ≤ nnz v + count_nonzero eps xs
    pub found : (j : ℕ) → at j out ≡ (if ltb j b then at j v.entries else kept_at eps xs (j - b))

  kept_at_pos :
      (eps x : R) (xs : List R) (k : ℕ) → k ≢ 0 → kept_at eps (x ∷ xs) k ≡ kept_at eps xs (k - 1)
  kept_at_pos eps x xs zero h = absurd (h refl)
  kept_at_pos eps x xs (suc k) h = ap (kept_at eps xs) (omega arith)

  found_next :
      (eps : R) (b j : ℕ) (x : R) (xs : List R) (old es out : Entries R)
      → at j es ≡ (if b == j then kept eps x else at j old)
      → at j out ≡ (if ltb j (b + 1) then at j es else kept_at eps xs (j - (b + 1)))
      → at j out ≡ (if ltb j b then at j old else kept_at eps (x ∷ xs) (j - b))
  found_next eps b j x xs old es out here rest = elim (Bool-cases (b == j)) [
    | inl e ↦
        let zero_gap : j - b ≡ 0 = ground arith in
        let now : kept_at eps (x ∷ xs) (j - b) ≡ kept eps x = ap (kept_at eps (x ∷ xs)) zero_gap in
        ground (arith, now)
    | inr ne ↦
        let gap : j - (b + 1) ≡ j - b - 1 = omega arith in
        ground (arith, kept_at_pos eps x xs (j - b), ap (kept_at eps xs) gap)
  ]

  room_next :
      (eps : R) (b : ℕ) (x : R) (xs : List R) (v : Vec R) (es : Entries R)
      → Emitted eps v b x es
      → nnz v + count_nonzero eps (x ∷ xs) ≤ v.nnz_max
      → length es + count_nonzero eps xs ≤ v.nnz_max
  room_next eps b x xs v es em room = ground (arith, em.short)

  pub push_nonzero_lem :
      (eps : R) (b n : ℕ) (xs : List R) (v : Vec R)
      → b + length xs ≡ n
      → v.dim ≡ n
      → InRange 0 b v.entries
      → nnz v + count_nonzero eps xs ≤ v.nnz_max
      → (out : Entries R) × Stored eps b n xs v out
  unfolding push_nonzero
  push_nonzero_lem eps b n [] v e dim hv room = (
    v.entries,
    record {
      runs = refl;
      in_range = InRange-weaken 0 0 b n v.entries (omega arith) (omega arith) hv;
      count = omega arith;
      found = λ j. ground (arith, at_above 0 b v.entries j hv);
    },
  )
  push_nonzero_lem eps b n (x ∷ xs) v e dim hv room =
      let (es, em) = emit eps v b b x hv (omega arith) (omega arith) (λ z. ground arith) in
      let (out, rest) =
        push_nonzero_lem eps (b + 1) n xs (record v { entries = es }) (omega arith) dim
          (subst (λ k. InRange 0 k es) (omega arith) em.below)
          (room_next eps b x xs v es em room) in
      (
        out,
        record {
          runs =
              unless (is_zero x eps) (push v b x) (ok v) (λ o. o >>= push_nonzero eps (b + 1) xs)
              ∙ ap (λ o. o >>= push_nonzero eps (b + 1) xs) em.runs
              ∙ rest.runs;
          in_range = rest.in_range;
          count = ground (arith, em.short, rest.count);
          found = λ j. found_next eps b j x xs v.entries es out (em.found j) (rest.found j);
        },
      )

  -- `set_from_raw` returns, whatever the vector held; the result is valid, has the length of the
  -- array for its dimension, and keeps the values that are not zero up to `eps`.
  pub set_from_raw_lem :
      (v : Vec R) (values : List R) (eps : R)
      → (out : Vec R) × (set_from_raw v values eps ≡ ok out)
        × IsValid out
        × (out.dim ≡ length values)
        × ((j : ℕ) → at j out.entries ≡ kept_at eps values j)
  unfolding set_from_raw
  set_from_raw_lem v values eps =
      let start : Vec R = reserve (resize (clear v) (length values)) (count_nonzero eps values) in
      let (none_yet, dim, room) = emptied v (length values) (count_nonzero eps values) in
      let count : nnz start ≡ 0 = ap length none_yet in
      let (out, stored) =
        push_nonzero_lem eps 0 (length values) values start (omega arith) dim
          (subst (InRange 0 0) (sym none_yet) (omega arith)) (omega arith) in
      (
        record start { entries = out },
        stored.runs,
        record {
          in_range = subst (λ n. InRange 0 n out) (sym dim) stored.in_range;
          fits = omega (arith, stored.count);
        },
        dim,
        λ j.
            stored.found j
            ∙ if_of_false (ltb j 0) (at j start.entries) (kept_at eps values (j - 0)) (ltb_zero j)
            ∙ ap (kept_at eps values) (omega arith),
      )
