-- ===== src/Vec/Equals.antt =====
-- `sleqp_vec_eq` against the comparison of the dense vectors.
use sleqp.Base.{
  ℕ, zero, suc, ◌+◌, ◌≤◌, ◌<◌, ◌≡◌, refl, sym, subst, ◌∙◌, Bool, true, false, not, ◌&&◌, Option,
  none, some, [], ◌∷◌, arith, ltb, ◌==◌, if◌then◌else◌, is_some, length, Outcome, ok, Bool-cases,
  inl, inr, ◌⊎◌, ◌↔◌,
}
use sleqp.Double.{Double, is_eq}
use sleqp.Vec.{Entries, Vec, nnz, at, or_nought}
use sleqp.Vec.Entries.{InRange, IsValid}
use sleqp.Vec.Merge.{is_nil, head_index, head_value, advance, smaller, eq_loop, eq}
use sleqp.Vec.Heads.{TwoRounds, two_rounds, TwoRounds-shorter}

module _ {R : Type 0} ⦃d : Double R⦄ (eps : R) where
  open d use {nought}

  -- The values at an index are equal up to `eps`. A missing entry is 0, and where neither vector has
  -- one nothing is compared.
  abbrev pub agree : Option R → Option R → Bool
  agree none none = true
  agree none (some y) = is_eq nought y eps
  agree (some x) y = is_eq x (or_nought y) eps

  agree_of_some :
      (a b : Option R)
      → (is_some a ≡ true) ⊎ (is_some b ≡ true)
      → agree a b ≡ is_eq (or_nought a) (or_nought b) eps
  agree_of_some none none h = absurd (ground arith)
  agree_of_some none (some y) h = refl
  agree_of_some (some x) b h = refl

  -- The answer of the loop from index `b` on.
  data Compared (b : ℕ) (xs ys : Entries R) : Outcome Bool → Type 0 where
    equal : ((j : ℕ) → b ≤ j → agree (at j xs) (at j ys) ≡ true) → Compared b xs ys (ok true)
    different : (j : ℕ) → b ≤ j → agree (at j xs) (at j ys) ≡ false → Compared b xs ys (ok false)

  equal_step :
      (b n i j : ℕ) (xs ys : Entries R)
      → TwoRounds b n i xs ys
      → agree (at i xs) (at i ys) ≡ true
      → (suc i ≤ j → agree (at j (advance i xs)) (at j (advance i ys)) ≡ true)
      → agree (at j xs) (at j ys) ≡ true
  equal_step b n i j xs ys r here later = elim (Bool-cases (i == j)) [
    | inl e ↦ let same : i ≡ j = ground arith in rw (← same) here
    | inr ne ↦ elim (Bool-cases (ltb i j)) [
      | inl lt ↦
          let behind : i < j = ground arith in
          rw (r.of_first.same_behind j behind, r.of_second.same_behind j behind) at (later behind)
      | inr not_lt ↦
          let before : j < i = ground arith in
          rw (r.of_first.none_before j before, r.of_second.none_before j before)
    ]
  ]

  -- Nothing before `i` is read again.
  different_step :
      (b n i j : ℕ) (xs ys : Entries R)
      → TwoRounds b n i xs ys
      → suc i ≤ j
      → agree (at j (advance i xs)) (at j (advance i ys)) ≡ false
      → agree (at j xs) (at j ys) ≡ false
  different_step b n i j xs ys r behind h =
      rw (r.of_first.same_behind j behind, r.of_second.same_behind j behind) at h

  Compared-step :
      (b n i : ℕ) (xs ys : Entries R) (o : Outcome Bool)
      → TwoRounds b n i xs ys
      → agree (at i xs) (at i ys) ≡ true
      → Compared (suc i) (advance i xs) (advance i ys) o
      → Compared b xs ys o
  Compared-step b n i xs ys o r here (equal h) =
      equal (λ j le. equal_step b n i j xs ys r here (h j))
  Compared-step b n i xs ys o r here (different j le h) =
      different j (omega (arith, r.index_ge)) (different_step b n i j xs ys r le h)

  Compared-stop :
      (fuel b s t : ℕ) (xs ys : Entries R)
      → is_nil xs && is_nil ys ≡ true
      → Compared b xs ys (eq_loop (suc fuel) eps s t xs ys)
  unfolding eq_loop
  Compared-stop fuel b s t [] [] e = equal (λ j le. refl)
  Compared-stop fuel b s t [] (y ∷ ys) e = absurd (ground arith)
  Compared-stop fuel b s t (x ∷ xs) ys e = absurd (ground arith)

  eq_loop_step :
      (fuel s t i : ℕ) (xs ys : Entries R)
      → is_nil xs && is_nil ys ≡ false
      → smaller (head_index s xs) (head_index t ys) ≡ i
      → eq_loop (suc fuel) eps s t xs ys ≡ (
          if not (is_eq (or_nought (head_value i xs)) (or_nought (head_value i ys)) eps)
          then ok false
          else eq_loop fuel eps s t (advance i xs) (advance i ys))
  unfolding eq_loop
  eq_loop_step fuel s t i xs ys more at_i = rw (more, eq_loop) (rw at_i)

  Compared-round :
      (fuel b n s t i : ℕ) (xs ys : Entries R)
      → TwoRounds b n i xs ys
      → is_nil xs && is_nil ys ≡ false
      → smaller (head_index s xs) (head_index t ys) ≡ i
      → Compared
          (suc i)
          (advance i xs)
          (advance i ys)
          (eq_loop fuel eps s t (advance i xs) (advance i ys))
      → Compared b xs ys (eq_loop (suc fuel) eps s t xs ys)
  Compared-round fuel b n s t i xs ys r more at_i rest =
      let compared : agree (at i xs) (at i ys)
          ≡ is_eq (or_nought (at i xs)) (or_nought (at i ys)) eps =
        agree_of_some (at i xs) (at i ys) r.progress in
      rw (eq_loop_step fuel s t i xs ys more at_i, r.of_first.value_at, r.of_second.value_at)
        (elim (Bool-cases (is_eq (or_nought (at i xs)) (or_nought (at i ys)) eps)) [
          | inl same ↦ rw same (Compared-step b n i xs ys _ r (compared ∙ same) rest)
          | inr differ ↦ rw differ (different i r.index_ge (compared ∙ differ))
        ])

  eq_loop_lem :
      (fuel b n s t : ℕ) (xs ys : Entries R)
      → InRange b n xs
      → InRange b n ys
      → n ≤ s
      → n ≤ t
      → length xs + length ys < fuel
      → Compared b xs ys (eq_loop fuel eps s t xs ys)
  eq_loop_lem zero b n s t xs ys hx hy ls lt enough = absurd (omega arith)
  eq_loop_lem (suc fuel) b n s t xs ys hx hy ls lt enough =
      elim (Bool-cases (is_nil xs && is_nil ys)) [
        | inl done ↦ Compared-stop fuel b s t xs ys done
        | inr more ↦
            let i = smaller (head_index s xs) (head_index t ys) in
            let r = two_rounds b n s t xs ys hx hy ls lt more in
            let shorter = TwoRounds-shorter b n i xs ys r in
            let rest =
              eq_loop_lem fuel (suc i) n s t (advance i xs) (advance i ys) r.of_first.rest_in
                r.of_second.rest_in ls lt (omega arith) in
            Compared-round fuel b n s t i xs ys r more refl rest
      ]

  Compared-iff :
      (xs ys : Entries R) (o : Outcome Bool)
      → Compared 0 xs ys o
      → (r : Bool) × (o ≡ ok r) × ((r ≡ true) ↔ ((j : ℕ) → agree (at j xs) (at j ys) ≡ true))
  Compared-iff xs ys o (equal h) = (true, refl, (λ e j. h j (omega arith), λ all. refl))
  Compared-iff xs ys o (different j le h) =
      (false, refl, (λ e. absurd (ground arith), λ all. sym h ∙ all j))

  -- For valid vectors of one dimension `eq` returns, and its answer is `true` exactly when the values
  -- at every index where one of them has an entry are equal up to `eps`.
  pub eq-agree :
      (first second : Vec R)
      → IsValid first
      → IsValid second
      → first.dim ≡ second.dim
      → (r : Bool) × (eq first second eps ≡ ok r)
        × ((r ≡ true) ↔ ((j : ℕ) → agree (at j first.entries) (at j second.entries) ≡ true))
  unfolding eq
  eq-agree first second hx hy e =
      let test : (first.dim == second.dim) ≡ true = ground arith in
      let loop =
        eq_loop_lem (suc (nnz first + nnz second)) 0 first.dim (first.dim + 1) (second.dim + 1)
          first.entries second.entries hx.in_range
          (subst (λ n. InRange 0 n second.entries) (sym e) hy.in_range) (omega arith) (omega arith)
          (omega arith) in
      let (r, runs, iff) = Compared-iff first.entries second.entries _ loop in
      (r, rw test runs, iff)
