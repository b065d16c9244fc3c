-- ===== src/Feas/Tests.antt =====
-- The theorems on violations at concrete inputs, over the integers.
use sleqp.Base.{ℕ, zero, suc, ◌<◌, ◌≡◌, refl, true, some, none, [], ◌∷◌, arith, select, ok}
use sleqp.Base.Int.{ℤ, pos, negsuc}
use sleqp.Double.{int_double}
use sleqp.Vec.{Vec, at, or_nought}
use sleqp.Vec.Entries.{IsValid}
use sleqp.WorkingSet.{WorkingSet, inactive, active_upper}
use sleqp.Feas.{
  violation_values, violated_cons_multipliers, feasibility_residuals, max_violation,
  total_violation, violated_constraints,
}
use sleqp.Feas.Values.{
  violation_at, multiplier_at, residual_at, skipped, violation_values_lem,
  violated_cons_multipliers_lem, feasibility_residuals_lem, OneSided,
}
use sleqp.Feas.Folds.{folded, raised, added, is_violated, violations_lem, violated_constraints_lem}

-- (0, 5, -3)
abbrev values : Vec ℤ
values = record { entries = (1, pos 5) ∷ (2, negsuc 2) ∷ []; dim = 3; nnz_max = 2 }

-- (-1, 0, -1) and (1, 2, 0)
abbrev lbs : Vec ℤ
lbs = record { entries = (0, negsuc 0) ∷ (2, negsuc 0) ∷ []; dim = 3; nnz_max = 2 }

abbrev ubs : Vec ℤ
ubs = record { entries = (0, pos 1) ∷ (1, pos 2) ∷ []; dim = 3; nnz_max = 2 }

-- A vector with leftovers in it.
abbrev leftovers : Vec ℤ
leftovers = record { entries = (0, pos 9) ∷ []; dim = 3; nnz_max = 1 }

values-IsValid : IsValid values
values-IsValid = record { in_range = ground arith; fits = omega arith }

lbs-IsValid : IsValid lbs
lbs-IsValid = record { in_range = ground arith; fits = omega arith }

ubs-IsValid : IsValid ubs
ubs-IsValid = record { in_range = ground arith; fits = omega arith }

-- The third constraint is in the working set.
abbrev third : WorkingSet
third = record {
  refcount = 1;
  problem = record { num_vars = 0; num_cons = 3 };
  variable_states = [];
  constraint_states = inactive ∷ inactive ∷ active_upper ∷ [];
  num_variables = 0;
  num_constraints = 3;
  max_set_size = 0;
  num_active_constraints = 1;
  num_active_variables = 0;
  variable_indices = [];
  constraint_indices = none ∷ none ∷ some 0 ∷ [];
  content_indices = 2 ∷ [];
}

violation_values_lem_example :
    (out : Vec ℤ) × (violation_values 3 lbs ubs values leftovers ≡ ok out)
    × IsValid out
    × (out.dim ≡ 3)
    × ((i : ℕ)
        → i < 3
        → at i out.entries
          ≡ violation_at (at i values.entries) (at i lbs.entries) (at i ubs.entries))
violation_values_lem_example =
    violation_values_lem 3 lbs ubs values leftovers refl values-IsValid lbs-IsValid ubs-IsValid refl
      refl refl

violated_cons_multipliers_lem_example :
    (out : Vec ℤ) × (violated_cons_multipliers 3 lbs ubs values leftovers (some third) ≡ ok out)
    × IsValid out
    × (out.dim ≡ 3)
    × ((i : ℕ)
        → i < 3
        → at i out.entries
          ≡ multiplier_at
              (skipped (some third) i)
              (at i values.entries)
              (at i lbs.entries)
              (at i ubs.entries))
violated_cons_multipliers_lem_example =
    violated_cons_multipliers_lem 3 lbs ubs values leftovers (some third) refl values-IsValid
      lbs-IsValid ubs-IsValid refl refl refl refl (omega arith)

values-OneSided : OneSided values lbs ubs
values-OneSided zero lt = refl
values-OneSided (suc zero) lt = refl
values-OneSided (suc (suc zero)) lt = refl
values-OneSided (suc (suc (suc i))) lt = absurd (omega arith)

feasibility_residuals_lem_example :
    (out : Vec ℤ) × (feasibility_residuals 3 lbs ubs values leftovers none true ≡ ok out)
    × IsValid out
    × (out.dim ≡ 3)
    × ((i : ℕ)
        → i < 3
        → at i out.entries
          ≡ residual_at
              (skipped none i)
              true
              (at i values.entries)
              (at i lbs.entries)
              (at i ubs.entries))
feasibility_residuals_lem_example =
    feasibility_residuals_lem 3 lbs ubs values leftovers none true refl values-OneSided
      values-IsValid lbs-IsValid ubs-IsValid refl refl refl (omega arith)

violations_lem_example :
    (max_violation 3 lbs ubs values
      ≡ ok (folded raised values.entries lbs.entries ubs.entries 3 0 (pos 0)))
    × (total_violation 3 lbs ubs values
        ≡ ok (folded added values.entries lbs.entries ubs.entries 3 0 (pos 0)))
violations_lem_example =
    violations_lem 3 lbs ubs values refl values-IsValid lbs-IsValid ubs-IsValid refl refl refl

-- The largest violation is 3, the sum of them is 5.
largest : folded raised values.entries lbs.entries ubs.entries 3 0 (pos 0) ≡ pos 3
largest = refl

sum_of_all : folded added values.entries lbs.entries ubs.entries 3 0 (pos 0) ≡ pos 5
sum_of_all = refl

violated_constraints_lem_example :
    violated_constraints lbs ubs values
    ≡ ok (
        select
          (λ i.
            is_violated
              (or_nought (at i values.entries))
              (or_nought (at i lbs.entries))
              (or_nought (at i ubs.entries)))
          0
          3)
violated_constraints_lem_example =
    violated_constraints_lem lbs ubs values refl values-IsValid lbs-IsValid ubs-IsValid refl refl
