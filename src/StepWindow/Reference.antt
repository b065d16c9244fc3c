-- ===== src/StepWindow/Reference.antt =====
-- The historic reduction ratio of step_rule_window.c.
use sleqp.Base.{
  ℕ, zero, suc, ◌+◌, ◌-◌, ◌≤◌, ◌<◌, ◌≡◌, refl, ap, ◌∙◌, true, false, arith, leb, ◌==◌,
  if◌then◌else◌, Outcome, ok, fault, ◌>>=◌, ◌>>◌, check, Bool-cases, inl, inr, ◌⊎◌, if_of_false,
}
use sleqp.Base.Int.{ℤ, pos, leb_ℤ}
use sleqp.Double.{Double}
use sleqp.StepWindow.{
  StepRule, data_index, data_begin, data_end, int_max, round_count, compute_ref_index, sum_loop,
  compute_historic_reduction_ratio,
}
use sleqp.StepWindow.Indices.{before, increment-pos, round_count-before, data_begin-before}
use sleqp.StepWindow.RefLoop.{
  merit, Ordered, IsReference, compute_ref_index_lem, compute_ref_index-int_max,
}

module _ {R : Type 0} ⦃d : Double R⦄ (r : StepRule R) where
  open d use {nought, minus, over, plus, lt}

  -- The sum of the model reductions of the steps from `i` on, added to a value.
  abbrev pub reductions_from : (count i : ℕ) → R → R
  reductions_from zero i sum = sum
  reductions_from (suc count) i sum =
      reductions_from count (suc i) (plus sum (r.model_reductions (data_index r (pos i))))

  sum_loop_lem :
      (count i : ℕ) (sum : R)
      → i + count ≤ int_max
      → sum_loop r count (pos i) sum ≡ ok (reductions_from count i sum)
  unfolding sum_loop
  sum_loop_lem zero i sum le = refl
  sum_loop_lem (suc count) i sum le =
      let more = plus sum (r.model_reductions (data_index r (pos i))) in
      ap (λ o. o >>= λ k. sum_loop r count k more) (increment-pos i (omega arith))
      ∙ sum_loop_lem count (suc i) more (omega arith)

module _ {R : Type 0} ⦃d : Double R⦄ (r : StepRule R) (next : ℕ) where
  open d use {nought, minus, over, plus, lt}

  -- The historic reduction ratio is that of the step alone, if the largest merit value of the window
  -- is below the new one, and else that of all steps since the reference step.
  abbrev pub ratio_from : (ref : ℕ) (iterate_merit trial_exact_merit model_reduction : R) → R
  ratio_from ref iterate_merit trial_exact_merit model_reduction =
      if lt (merit r ref) trial_exact_merit
      then over (minus iterate_merit trial_exact_merit) model_reduction
      else over (minus (merit r ref) trial_exact_merit)
          (plus (reductions_from r (next - ref) ref nought) model_reduction)

  -- What comes after the reference step.
  abbrev with_ref : (iterate_merit trial_exact_merit model_reduction : R) → ℤ → Outcome R
  with_ref iterate_merit trial_exact_merit model_reduction ref =
      let ref_merit = r.exact_merit_values (data_index r ref) in
      if lt ref_merit trial_exact_merit
      then ok (over (minus iterate_merit trial_exact_merit) model_reduction)
      else check (leb_ℤ (data_begin r) ref)
        >> (check (leb_ℤ ref (data_end r))
            >> (sum_loop r (round_count ref (data_end r)) ref nought >>= λ sum.
                ok (over (minus ref_merit trial_exact_merit) (plus sum model_reduction))))

  le-before : (i n : ℕ) → i < n → leb_ℤ (pos i) (before n) ≡ true
  le-before i zero lt = absurd (omega arith)
  le-before i (suc n) lt = ground arith

  with_ref-ok :
      (ref : ℕ) (iterate_merit trial_exact_merit model_reduction : R)
      → IsReference r next ref
      → r.len ≤ next
      → r.curr ≡ before next
      → next ≤ int_max
      → with_ref iterate_merit trial_exact_merit model_reduction (pos ref)
        ≡ ok (ratio_from ref iterate_merit trial_exact_merit model_reduction)
  with_ref-ok ref iterate_merit trial_exact_merit model_reduction is_ref le e small =
      let q : ref + (next - ref) ≡ next = omega (arith, is_ref.inside) in
      let t : leb_ℤ (pos (next - r.len)) (pos ref) ≡ true = ground (arith, is_ref.inside) in
      let t' : leb_ℤ (pos ref) r.curr ≡ true =
        ap (leb_ℤ (pos ref)) e ∙ le-before ref next is_ref.inside.1 in
      let count : round_count (pos ref) r.curr ≡ next - ref =
        ap (round_count (pos ref)) e ∙ round_count-before ref next (omega arith) in
      let sums : sum_loop r (next - ref) (pos ref) nought
          ≡ ok (reductions_from r (next - ref) ref nought) =
        sum_loop_lem r (next - ref) ref nought (omega arith) in
      elim (Bool-cases (lt (merit r ref) trial_exact_merit)) [
        | inl below ↦ rw below refl
        | inr not_below ↦ rw (not_below, data_begin-before r next e le, t, t', count, sums) refl
      ]

  -- A window that is not empty leads there.
  historic-with_ref :
      (iterate_merit trial_exact_merit model_reduction : R) (call : Outcome ℤ)
      → (r.len == 0) ≡ false
      → compute_ref_index r ≡ call
      → compute_historic_reduction_ratio r iterate_merit trial_exact_merit model_reduction
        ≡ (call >>= with_ref iterate_merit trial_exact_merit model_reduction)
  unfolding compute_historic_reduction_ratio
  historic-with_ref iterate_merit trial_exact_merit model_reduction call filled runs =
      if_of_false (r.len == 0) _ _ filled
      ∙ ap (λ o. o >>= with_ref iterate_merit trial_exact_merit model_reduction) runs

  -- If `<` is an order, the merit values are above -inf and the length is at most the number of the
  -- accepted steps, `compute_historic_reduction_ratio` returns, and no assertion fails, unless the window
  -- is not empty and `curr` is INT_MAX, where the loop counter overflows. For an empty window it gives
  -- the ratio of the step alone, and else the one from a step of the window than which none has a
  -- larger merit value.
  pub compute_historic_reduction_ratio_lem :
      (iterate_merit trial_exact_merit model_reduction : R)
      → r.len ≤ next
      → r.curr ≡ before next
      → next ≤ suc int_max
      → Ordered r next
      → ((r.len ≡ 0)
          × (compute_historic_reduction_ratio r iterate_merit trial_exact_merit model_reduction
              ≡ ok (over (minus iterate_merit trial_exact_merit) model_reduction)))
        ⊎ (((ref : ℕ) × IsReference r next ref
              × (compute_historic_reduction_ratio r iterate_merit trial_exact_merit model_reduction
                  ≡ ok (ratio_from ref iterate_merit trial_exact_merit model_reduction)))
            ⊎ ((0 < r.len)
                × (r.curr ≡ pos int_max)
                × (compute_historic_reduction_ratio r iterate_merit trial_exact_merit
                      model_reduction
                    ≡ fault)))
  unfolding compute_historic_reduction_ratio
  compute_historic_reduction_ratio_lem iterate_merit trial_exact_merit model_reduction le e fits o =
      elim (Bool-cases (r.len == 0)) [
        | inl empty ↦ inl (ground arith, rw empty refl)
        | inr filled ↦ elim (Bool-cases (leb next int_max)) [
          | inl small ↦
              let small' : next ≤ int_max = ground arith in
              let (ref, runs, is_ref) = compute_ref_index_lem r next (ground arith) le e small' o in
              inr (
                inl (
                  ref,
                  is_ref,
                  historic-with_ref iterate_merit trial_exact_merit model_reduction (ok (pos ref))
                        filled runs
                      ∙ with_ref-ok ref iterate_merit trial_exact_merit model_reduction is_ref le e
                          small',
                ))
          | inr large ↦
              let q : next ≡ suc int_max = ground arith in
              inr (
                inr (
                  ground arith,
                  e ∙ ap before q,
                  historic-with_ref iterate_merit trial_exact_merit model_reduction fault filled
                      (compute_ref_index-int_max r next (ground arith) le e q),
                ))
        ]
      ]
