-- ===== src/StepWindow.antt =====
-- src/main/step/step_rule_window.c: accepting steps by comparison with a window of past merit values.
pub mod Indices
pub mod Ring
pub mod RefLoop
pub mod Reference
mod Tests
use Prim.Native.Nat.{◌%◌}
use sleqp.Base.{
  ℕ, zero, suc, ◌+◌, ◌-◌, Bool, true, false, ltb, leb, ◌==◌, if◌then◌else◌, write, Outcome, ok,
  fault, ◌>>=◌, ◌>>◌, check,
}
use sleqp.Base.Int.{ℤ, pos, negsuc, pos_part, ◌+ℤ◌, ◌-ℤ◌, leb_ℤ}
use sleqp.Double.{Double, fmax}

-- INT_MAX, the largest `int` of 32 bits.
abbrev pub int_max : ℕ
int_max = 2147483647

-- `i + 1` and `++i` for an `int`, which is undefined at INT_MAX.
pub increment : ℤ → Outcome ℤ
increment i = if leb_ℤ (pos int_max) i then fault else ok (i +ℤ pos 1)

-- The number of rounds of `for (int i = begin; i <= end; ++i)`.
pub round_count : (begin end : ℤ) → ℕ
round_count begin end = pos_part (end -ℤ begin +ℤ pos 1)

-- `StepRule`. The arrays have `num` positions.
pub record StepRule (R : Type 0) : Type 0 where
  pub num : ℕ
  pub len : ℕ
  pub curr : ℤ
  pub exact_merit_values : ℕ → R
  pub model_reductions : ℕ → R

module _ {R : Type 0} where
  -- The remainder in C has the sign of the index: that of a negative index is 0 or negative.
  pub data_index : StepRule R → ℤ → ℕ
  data_index r (pos index) = if r.len == 0 then 0 else index % r.num
  data_index r (negsuc n) =
      let remainder = suc n % r.num in
      if r.len == 0 then 0 else if ltb 0 remainder then r.num - remainder else 0

  pub data_begin : StepRule R → ℤ
  data_begin r = r.curr -ℤ pos r.len +ℤ pos 1

  abbrev pub data_end : StepRule R → ℤ
  data_end r = r.curr

  pub add_accepted_step : StepRule R → (iterate_merit model_reduction : R) → Outcome (StepRule R)
  unfolding data_index increment
  add_accepted_step r iterate_merit model_reduction =
      if r.num == 0
      then ok r
      else increment (data_end r) >>= λ next. increment r.curr >>= λ curr. ok (record r {
        exact_merit_values = write r.exact_merit_values (data_index r next) iterate_merit;
        model_reductions = write r.model_reductions (data_index r next) model_reduction;
        len = if ltb r.len r.num then suc r.len else r.len;
        curr = curr;
      })

  -- `step_rule_window_reset`.
  pub reset : StepRule R → StepRule R
  reset r = record r { curr = negsuc 0; len = 0 }

  -- `sleqp_step_rule_window_create`; the arrays hold what the allocator left in them.
  pub create : (window_size : ℕ) (merits reductions : ℕ → R) → StepRule R
  create window_size merits reductions = record {
    num = window_size;
    len = 0;
    curr = negsuc 0;
    exact_merit_values = merits;
    model_reductions = reductions;
  }

module _ {R : Type 0} ⦃d : Double R⦄ where
  open d use {nought, one, inf, neg, plus, minus, over, lt, le, same}

  -- The loop of `compute_ref_index`, from index `i` on.
  pub ref_loop : StepRule R → (rounds : ℕ) (i max_index : ℤ) → R → Outcome ℤ
  unfolding data_index increment
  ref_loop r zero i max_index top = ok max_index
  ref_loop r (suc rounds) i max_index top =
      let value = r.exact_merit_values (data_index r i) in
      elim (lt top value) [
        | true ↦ increment i >>= λ next. ref_loop r rounds next i value
        | false ↦ increment i >>= λ next. ref_loop r rounds next max_index top
      ]

  pub compute_ref_index : StepRule R → Outcome ℤ
  unfolding ref_loop data_begin round_count
  compute_ref_index r = do
    let begin = data_begin r
    check (ltb 0 r.len)
    ref_loop r (round_count begin (data_end r)) begin (pos 0) (neg inf)

  -- model_reduction_sum += model_reductions[…];
  pub sum_loop : StepRule R → (rounds : ℕ) → ℤ → R → Outcome R
  unfolding data_index increment
  sum_loop r zero i sum = ok sum
  sum_loop r (suc rounds) i sum = increment i >>= λ next.
      sum_loop r rounds next (plus sum (r.model_reductions (data_index r i)))

  pub compute_historic_reduction_ratio :
      StepRule R → (iterate_merit trial_exact_merit model_reduction : R) → Outcome R
  unfolding compute_ref_index sum_loop data_index data_begin round_count
  compute_historic_reduction_ratio r iterate_merit trial_exact_merit model_reduction =
      let current = over (minus iterate_merit trial_exact_merit) model_reduction in
      if r.len == 0
      then ok current
      else compute_ref_index r >>= λ ref.
          let ref_merit = r.exact_merit_values (data_index r ref) in
          if lt ref_merit trial_exact_merit
          then ok current
          else check (leb_ℤ (data_begin r) ref)
            >> (check (leb_ℤ ref (data_end r))
                >> (sum_loop r (round_count ref (data_end r)) ref nought >>= λ sum.
                    ok (over (minus ref_merit trial_exact_merit) (plus sum model_reduction))))

  -- `step_rule_window_apply`: whether the step is accepted, the reduction ratio, and the new state.
  -- `accepted_reduction` is the setting of that name.
  pub apply :
      (accepted_reduction : R)
      → StepRule R
      → (iterate_merit trial_exact_merit trial_model_merit : R) → Outcome (Bool × R × StepRule R)
  unfolding compute_historic_reduction_ratio add_accepted_step
  apply accepted_reduction r iterate_merit trial_exact_merit trial_model_merit = do
    let exact_reduction = minus iterate_merit trial_exact_merit
    let model_reduction = minus iterate_merit trial_model_merit
    let current =
        if same exact_reduction model_reduction then one else over exact_reduction model_reduction
    historic ← compute_historic_reduction_ratio r iterate_merit trial_exact_merit model_reduction
    let ratio = fmax current historic
    let accept = le accepted_reduction ratio
    next ← if accept then add_accepted_step r iterate_merit model_reduction else ok r
    ok (accept, ratio, next)
