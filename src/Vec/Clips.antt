-- ===== src/Vec/Clips.antt =====
-- `sleqp_vec_is_boxed` against the bounds of the dense vectors.
use sleqp.Base.{
  ℕ, zero, suc, ◌+◌, ◌≤◌, ◌<◌, ◌≡◌, refl, sym, subst, ◌∙◌, Bool, true, false, ◌&&◌, ◌||◌, Option,
  none, some, [], ◌∷◌, arith, ltb, ◌==◌, if◌then◌else◌, is_some, length, Outcome, ok, Bool-cases,
  inl, inr, ◌⊎◌, ◌↔◌,
}
use sleqp.Double.{Double}
use sleqp.Vec.{Entries, Vec, nnz, at, or_nought}
use sleqp.Vec.Entries.{InRange, IsValid}
use sleqp.Vec.Merge.{is_nil, head_index, head_value, advance, smaller, boxed_loop, is_boxed}
use sleqp.Vec.Heads.{ThreeRounds, three_rounds, ThreeRounds-shorter}

module _ {R : Type 0} ⦃d : Double R⦄ where
  open d use {nought, lt}

  -- `x_val < lb_val || x_val > ub_val`, where a missing entry is 0.
  abbrev pub outside : Option R → Option R → Option R → Bool
  outside x lb ub = lt (or_nought x) (or_nought lb) || lt (or_nought ub) (or_nought x)

  -- No index from `b` on where some vector has an entry is outside.
  abbrev Inside : ℕ → Entries R → Entries R → Entries R → Type 0
  Inside b xs ls us =
      (j : ℕ)
      → b ≤ j
      → (is_some (at j xs) ≡ true) ⊎ (is_some (at j ls) ≡ true) ⊎ (is_some (at j us) ≡ true)
      → outside (at j xs) (at j ls) (at j us) ≡ false

  -- What the loop returns: `true` if all is inside, and `false` only at an index that is outside.
  data Boxed (b : ℕ) (xs ls us : Entries R) : Outcome Bool → Type 0 where
    inside : Inside b xs ls us → Boxed b xs ls us (ok true)
    beyond :
        (j : ℕ) → b ≤ j → outside (at j xs) (at j ls) (at j us) ≡ true → Boxed b xs ls us (ok false)

  inside_step :
      (b n i j : ℕ) (xs ls us : Entries R)
      → ThreeRounds b n i xs ls us
      → outside (at i xs) (at i ls) (at i us) ≡ false
      → (is_some (at j xs) ≡ true) ⊎ (is_some (at j ls) ≡ true) ⊎ (is_some (at j us) ≡ true)
      → (suc i ≤ j
          → (is_some (at j (advance i xs)) ≡ true)
            ⊎ (is_some (at j (advance i ls)) ≡ true)
            ⊎ (is_some (at j (advance i us)) ≡ true)
          → outside (at j (advance i xs)) (at j (advance i ls)) (at j (advance i us)) ≡ false)
      → outside (at j xs) (at j ls) (at j us) ≡ false
  inside_step b n i j xs ls us r here found later = elim (Bool-cases (i == j)) [
    | inl e ↦ let same : i ≡ j = ground arith in rw (← same) here
    | inr ne ↦ elim (Bool-cases (ltb i j)) [
      | inl lt ↦
          let behind : i < j = ground arith in
          let later' =
            rw
              (
                r.of_first.same_behind j behind,
                r.of_second.same_behind j behind,
                r.of_third.same_behind j behind,
              )
              at (later behind) in
          later' found
      | inr not_lt ↦ absurd (
          ground
            (arith, r.of_first.none_before j, r.of_second.none_before j, r.of_third.none_before j))
    ]
  ]

  Boxed-step :
      (b n i : ℕ) (xs ls us : Entries R) (o : Outcome Bool)
      → ThreeRounds b n i xs ls us
      → outside (at i xs) (at i ls) (at i us) ≡ false
      → Boxed (suc i) (advance i xs) (advance i ls) (advance i us) o
      → Boxed b xs ls us o
  Boxed-step b n i xs ls us o r here (inside h) =
      inside (λ j le found. inside_step b n i j xs ls us r here found (h j))
  Boxed-step b n i xs ls us o r here (beyond j le h) = beyond j (omega (arith, r.index_ge)) (
      rw
        (
          ← r.of_first.same_behind j le,
          ← r.of_second.same_behind j le,
          ← r.of_third.same_behind j le,
        )
        h)

  boxed_loop_step :
      (fuel s i : ℕ) (xs ls us : Entries R)
      → is_nil xs && is_nil ls && is_nil us ≡ false
      → smaller (smaller (head_index s xs) (head_index s ls)) (head_index s us) ≡ i
      → boxed_loop (suc fuel) s xs ls us ≡ (
          if outside (head_value i xs) (head_value i ls) (head_value i us)
          then ok false
          else boxed_loop fuel s (advance i xs) (advance i ls) (advance i us))
  unfolding boxed_loop
  boxed_loop_step fuel s i xs ls us more at_i = rw (more, boxed_loop) (rw at_i)

  Boxed-stop :
      (fuel b s : ℕ) (xs ls us : Entries R)
      → is_nil xs && is_nil ls && is_nil us ≡ true
      → Boxed b xs ls us (boxed_loop (suc fuel) s xs ls us)
  unfolding boxed_loop
  Boxed-stop fuel b s [] [] [] e = inside (λ j le found. absurd (ground arith))
  Boxed-stop fuel b s [] [] (z ∷ us) e = absurd (ground arith)
  Boxed-stop fuel b s [] (y ∷ ls) us e = absurd (ground arith)
  Boxed-stop fuel b s (x ∷ xs) ls us e = absurd (ground arith)

  Boxed-round :
      (fuel b n s i : ℕ) (xs ls us : Entries R)
      → ThreeRounds b n i xs ls us
      → is_nil xs && is_nil ls && is_nil us ≡ false
      → smaller (smaller (head_index s xs) (head_index s ls)) (head_index s us) ≡ i
      → Boxed
          (suc i)
          (advance i xs)
          (advance i ls)
          (advance i us)
          (boxed_loop fuel s (advance i xs) (advance i ls) (advance i us))
      → Boxed b xs ls us (boxed_loop (suc fuel) s xs ls us)
  Boxed-round fuel b n s i xs ls us r more at_i rest =
      rw
        (
          boxed_loop_step fuel s i xs ls us more at_i,
          r.of_first.value_at,
          r.of_second.value_at,
          r.of_third.value_at,
        )
        (elim (Bool-cases (outside (at i xs) (at i ls) (at i us))) [
          | inl out ↦ rw out (beyond i r.index_ge out)
          | inr within ↦ rw within (Boxed-step b n i xs ls us _ r within rest)
        ])

  boxed_loop_lem :
      (fuel b n s : ℕ) (xs ls us : Entries R)
      → InRange b n xs
      → InRange b n ls
      → InRange b n us
      → n ≤ s
      → length xs + length ls + length us < fuel
      → Boxed b xs ls us (boxed_loop fuel s xs ls us)
  boxed_loop_lem zero b n s xs ls us hx hl hu le enough = absurd (omega arith)
  boxed_loop_lem (suc fuel) b n s xs ls us hx hl hu le enough =
      elim (Bool-cases (is_nil xs && is_nil ls && is_nil us)) [
        | inl done ↦ Boxed-stop fuel b s xs ls us done
        | inr more ↦
            let i = smaller (smaller (head_index s xs) (head_index s ls)) (head_index s us) in
            let r = three_rounds b n s xs ls us hx hl hu le more in
            let shorter = ThreeRounds-shorter b n i xs ls us r in
            let rest =
              boxed_loop_lem fuel (suc i) n s (advance i xs) (advance i ls) (advance i us)
                r.of_first.rest_in r.of_second.rest_in r.of_third.rest_in le (omega arith) in
            Boxed-round fuel b n s i xs ls us r more refl rest
      ]

  -- What the theorems below rely on of a `double`: 0 is not below itself.
  module _ (zero_not_lt : lt nought nought ≡ false) where
    Boxed-iff :
        (xs ls us : Entries R) (o : Outcome Bool)
        → Boxed 0 xs ls us o
        → (r : Bool) × (o ≡ ok r)
          × ((r ≡ true) ↔ ((j : ℕ) → outside (at j xs) (at j ls) (at j us) ≡ false))
    Boxed-iff xs ls us o (inside h) = (
      true,
      refl,
      (λ e j. all_inside (at j xs) (at j ls) (at j us) (h j (omega arith)), λ all. refl),
    )
      where
        all_inside :
            (x lb ub : Option R)
            → ((is_some x ≡ true) ⊎ (is_some lb ≡ true) ⊎ (is_some ub ≡ true)
                → outside x lb ub ≡ false)
            → outside x lb ub ≡ false
        all_inside none none none k = ground arith
        all_inside none none (some u) k = k (inr (inr refl))
        all_inside none (some l) ub k = k (inr (inl refl))
        all_inside (some x) lb ub k = k (inl refl)
    Boxed-iff xs ls us o (beyond j le h) =
        (false, refl, (λ e. absurd (ground arith), λ all. sym (all j) ∙ h))

    -- For valid vectors of one dimension `is_boxed` returns, and its answer is `true` exactly when
    -- no entry of the dense vector is below its lower or above its upper bound.
    pub is_boxed_iff :
        (x lb ub : Vec R)
        → IsValid x
        → IsValid lb
        → IsValid ub
        → lb.dim ≡ x.dim
        → ub.dim ≡ x.dim
        → (r : Bool) × (is_boxed x lb ub ≡ ok r)
          × ((r ≡ true)
              ↔ ((j : ℕ) → outside (at j x.entries) (at j lb.entries) (at j ub.entries) ≡ false))
    unfolding is_boxed
    is_boxed_iff x lb ub hx hl hu el eu =
        let loop =
          boxed_loop_lem (suc (nnz x + nnz lb + nnz ub)) 0 x.dim (x.dim + 1) x.entries lb.entries
            ub.entries hx.in_range (subst (λ n. InRange 0 n lb.entries) el hl.in_range)
            (subst (λ n. InRange 0 n ub.entries) eu hu.in_range) (omega arith) (omega arith) in
        let (r, runs, iff) = Boxed-iff x.entries lb.entries ub.entries _ loop in
        let same_l : (lb.dim == x.dim) ≡ true = ground arith in
        let same_u : (ub.dim == x.dim) ≡ true = ground arith in (r, rw (same_l, same_u) runs, iff)
