-- ===== src/StepWindow/RefLoop.antt =====
-- The reference step of step_rule_window.c.
use sleqp.Base.{
  ℕ, zero, suc, ◌+◌, ◌-◌, ◌≤◌, ◌<◌, ◌≡◌, refl, ap, sym, subst, ◌∙◌, true, false, arith, ltb, ◌==◌,
  Outcome, ok, fault, ◌>>=◌, Bool-cases, inl, inr,
}
use sleqp.Base.Int.{ℤ, pos}
use sleqp.Double.{Double}
use sleqp.StepWindow.{
  StepRule, data_index, data_end, int_max, round_count, ref_loop, compute_ref_index,
}
use sleqp.StepWindow.Indices.{
  before, increment-pos, increment-int_max, round_count-before, data_begin-before,
}

module _ {R : Type 0} (r : StepRule R) where
  -- The merit value of a step in the window.
  abbrev pub merit : ℕ → R
  merit i = r.exact_merit_values (data_index r (pos i))

module _ {R : Type 0} ⦃d : Double R⦄ (r : StepRule R) (next : ℕ) where
  open d use {nought, inf, neg, plus, minus, over, lt}

  -- The step is in the window.
  abbrev pub InWindow : ℕ → Type 0
  InWindow i = (next ≤ i + r.len) × (i < next)

  -- `<` is transitive and irreflexive, and the merit values in the window are above -inf.
  pub record Ordered : Type 0 where
    pub irreflexive : (a : R) → lt a a ≡ false
    pub transitive : (a b c : R) → lt a b ≡ true → lt a c ≡ false → lt b c ≡ false
    pub finite : (i : ℕ) → InWindow i → lt (neg inf) (merit r i) ≡ true

  -- No step of the window has a larger merit value.
  pub record IsReference (ref : ℕ) : Type 0 where
    pub inside : InWindow ref
    pub largest : (i : ℕ) → InWindow i → lt (merit r ref) (merit r i) ≡ false

  ref_loop_raise :
      (rounds i : ℕ) (max_index : ℤ) (top : R)
      → i < int_max
      → lt top (merit r i) ≡ true
      → ref_loop r (suc rounds) (pos i) max_index top
        ≡ ref_loop r rounds (pos (suc i)) (pos i) (merit r i)
  unfolding ref_loop
  ref_loop_raise rounds i max_index top small e =
      rw (e, ref_loop)
        (ap (λ o. o >>= λ k. ref_loop r rounds k (pos i) (merit r i)) (increment-pos i small))

  ref_loop_keep :
      (rounds i : ℕ) (max_index : ℤ) (top : R)
      → i < int_max
      → lt top (merit r i) ≡ false
      → ref_loop r (suc rounds) (pos i) max_index top
        ≡ ref_loop r rounds (pos (suc i)) max_index top
  unfolding ref_loop
  ref_loop_keep rounds i max_index top small e =
      rw (e, ref_loop)
        (ap (λ o. o >>= λ k. ref_loop r rounds k max_index top) (increment-pos i small))

  -- The round at INT_MAX.
  ref_loop_last : (max_index : ℤ) (top : R) → ref_loop r 1 (pos int_max) max_index top ≡ fault
  unfolding ref_loop
  ref_loop_last max_index top = elim (Bool-cases (lt top (merit r int_max))) [
    | inl more ↦
        rw (more, ref_loop)
          (ap (λ o. o >>= λ k. ref_loop r 0 k (pos int_max) (merit r int_max)) increment-int_max)
    | inr no_more ↦
        rw (no_more, ref_loop) (ap (λ o. o >>= λ k. ref_loop r 0 k max_index top) increment-int_max)
  ]

  -- A loop up to INT_MAX does not end.
  ref_loop-int_max :
      (rounds i : ℕ) (max_index : ℤ) (top : R)
      → i + rounds ≡ int_max
      → ref_loop r (suc rounds) (pos i) max_index top ≡ fault
  ref_loop-int_max zero i max_index top e =
      let q : i ≡ int_max = omega arith in
      ap (λ k. ref_loop r 1 (pos k) max_index top) q ∙ ref_loop_last max_index top
  ref_loop-int_max (suc rounds) i max_index top e = elim (Bool-cases (lt top (merit r i))) [
    | inl more ↦
        ref_loop_raise (suc rounds) i max_index top (omega arith) more
        ∙ ref_loop-int_max rounds (suc i) (pos i) (merit r i) (omega arith)
    | inr no_more ↦
        ref_loop_keep (suc rounds) i max_index top (omega arith) no_more
        ∙ ref_loop-int_max rounds (suc i) max_index top (omega arith)
  ]

  -- The loop has found a reference step.
  Finds : Outcome ℤ → Type 0
  Finds call = (ref : ℕ) × (call ≡ ok (pos ref)) × IsReference ref

  ref_loop_lem :
      (rounds i max_index : ℕ)
      → Ordered
      → next ≤ int_max
      → i + rounds ≡ next
      → next ≤ max_index + r.len
      → max_index < i
      → ((j : ℕ) → next ≤ j + r.len → j < i → lt (merit r max_index) (merit r j) ≡ false)
      → Finds (ref_loop r rounds (pos i) (pos max_index) (merit r max_index))
  unfolding ref_loop Finds
  ref_loop_lem zero i max_index o small e le below seen = (
    max_index,
    refl,
    record { inside = (le, omega arith); largest = λ j w. seen j w.0 (omega (arith, w.1)) },
  )
  ref_loop_lem (suc rounds) i max_index o small e le below seen =
      elim (Bool-cases (lt (merit r max_index) (merit r i))) [
        | inl more ↦
            let step =
              ref_loop_raise rounds i (pos max_index) (merit r max_index) (omega arith) more in
            subst Finds (sym step) (
              ref_loop_lem rounds (suc i) i o small (omega arith) (omega arith) (omega arith)
                (λ j w l. elim (Bool-cases (j == i)) [
                  | inl here ↦
                      let q : i ≡ j = ground arith in
                      subst (λ k. lt (merit r i) (merit r k) ≡ false) q (o.irreflexive (merit r i))
                  | inr earlier ↦
                      o.transitive (merit r max_index) (merit r i) (merit r j) more
                        (seen j w (ground arith))
                ]))
        | inr no_more ↦
            let step =
              ref_loop_keep rounds i (pos max_index) (merit r max_index) (omega arith) no_more in
            subst Finds (sym step) (
              ref_loop_lem rounds (suc i) max_index o small (omega arith) le (omega arith) (λ j w l.
                elim (Bool-cases (j == i)) [
                  | inl here ↦
                      let q : i ≡ j = ground arith in
                      subst (λ k. lt (merit r max_index) (merit r k) ≡ false) q no_more
                  | inr earlier ↦ seen j w (ground arith)
                ]))
      ]

  -- The loop of a window that is not empty begins with its first step.
  ref_loop_start :
      (rounds : ℕ)
      → Ordered
      → next ≤ int_max
      → r.len ≡ suc rounds
      → r.len ≤ next
      → Finds (ref_loop r (suc rounds) (pos (next - r.len)) (pos 0) (neg inf))
  ref_loop_start rounds o small e le =
      let first = next - r.len in
      let step =
        ref_loop_raise rounds first (pos 0) (neg inf) (omega arith)
          (o.finite first (omega arith, omega arith)) in
      subst Finds (sym step) (
        ref_loop_lem rounds (suc first) first o small (omega arith) (omega arith) (omega arith)
          (λ j w l.
            let q : first ≡ j = omega arith in
            subst (λ k. lt (merit r first) (merit r k) ≡ false) q (o.irreflexive (merit r first))))

  -- The bounds of the loop.
  compute_ref_index-ref_loop :
      0 < r.len
      → r.len ≤ next
      → r.curr ≡ before next
      → compute_ref_index r ≡ ref_loop r (suc (r.len - 1)) (pos (next - r.len)) (pos 0) (neg inf)
  unfolding compute_ref_index
  compute_ref_index-ref_loop some_step le e =
      let test : ltb 0 r.len ≡ true = ground arith in
      let q : next - (next - r.len) ≡ suc (r.len - 1) = omega arith in
      let count : round_count (pos (next - r.len)) (data_end r) ≡ suc (r.len - 1) =
        ap (round_count (pos (next - r.len))) e
        ∙ round_count-before (next - r.len) next (omega arith)
        ∙ q in
      rw (test, data_begin-before r next e le)
        (ap (λ k. ref_loop r k (pos (next - r.len)) (pos 0) (neg inf)) count)

  -- `compute_ref_index` of a window that is not empty returns a step of the window than which no step
  -- of the window has a larger merit value, if `<` is an order and the values are above -inf.
  pub compute_ref_index_lem :
      0 < r.len
      → r.len ≤ next
      → r.curr ≡ before next
      → next ≤ int_max
      → Ordered
      → (ref : ℕ) × (compute_ref_index r ≡ ok (pos ref)) × IsReference ref
  unfolding Finds
  compute_ref_index_lem some_step le e small o =
      let (ref, runs, is_ref) = ref_loop_start (r.len - 1) o small (omega arith) le in
      (ref, compute_ref_index-ref_loop some_step le e ∙ runs, is_ref)

  -- With `curr` at INT_MAX its loop overflows.
  pub compute_ref_index-int_max :
      0 < r.len
      → r.len ≤ next
      → r.curr ≡ before next
      → next ≡ suc int_max
      → compute_ref_index r ≡ fault
  compute_ref_index-int_max some_step le e full =
      compute_ref_index-ref_loop some_step le e
      ∙ ref_loop-int_max (r.len - 1) (next - r.len) (pos 0) (neg inf) (omega arith)
