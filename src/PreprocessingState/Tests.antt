-- ===== src/PreprocessingState/Tests.antt =====
-- The theorems on preprocessing states at concrete inputs, over the integers.
use sleqp.Base.{true, ℕ, get_or, arith, zero, suc, ◌≡◌, refl, List, [], ◌∷◌, length, ok}
use sleqp.Base.Int.{ℤ, pos, negsuc}
use sleqp.Double.{int_double, is_finite_value}
use sleqp.PreprocessingState.{
  PreprocessingState, Problem, VariableState, ConstraintState, var_bound_fixed, var_forcing_fixed,
  var_unchanged, cons_redundant, cons_unchanged, lower_bound, bound_redundant_lower, allocated,
  create, flush, fix_variable_to_bounds, add_variable_bound_requirement, remove_linear_constraint,
}
use sleqp.PreprocessingState.Forcing.{add_forcing_constraint}
use sleqp.PreprocessingState.Forcing.Rounds.{finite_or_unused}
use sleqp.PreprocessingState.Forcing.Accepted.{CanForce, IsForced, add_forcing_constraint_lem}
use sleqp.Vec.Entries.{InRange}
use sleqp.PreprocessingState.Invariant.{IsValid, reset-IsValid_state}
use sleqp.PreprocessingState.History.{
  Operation, force, remove, fix, relax_var, run, apply, created-flush,
}

-- 2 x0 - x2 and x1.
abbrev problem : Problem ℤ
problem = record {
  num_vars = 4;
  num_lin_cons = 3;
  linear_coeffs = ((0, pos 2) ∷ []) ∷ ((1, pos 1) ∷ []) ∷ ((0, negsuc 0) ∷ []) ∷ [] ∷ [];
}

abbrev some_var : VariableState ℤ
some_var = record { state = var_bound_fixed; value = pos 8 }

abbrev some_cons : ConstraintState
some_cons = record { state = cons_redundant; bound = 5 }

abbrev vars : List (VariableState ℤ)
vars = some_var ∷ some_var ∷ some_var ∷ some_var ∷ []

abbrev cons : List ConstraintState
cons = some_cons ∷ some_cons ∷ some_cons ∷ []

abbrev operations : List (Operation ℤ)
operations =
    fix 3 (pos 7)
    ∷ force 0 lower_bound (pos 0 ∷ pos 0 ∷ pos 0 ∷ pos 0 ∷ []) (pos 4 ∷ pos 5 ∷ pos 6 ∷ pos 7 ∷ [])
    ∷ relax_var 1 bound_redundant_lower
    ∷ remove 2
    ∷ []

abbrev fresh : PreprocessingState ℤ
fresh = create problem vars cons [] []

abbrev done : PreprocessingState ℤ
done = record {
  refcount = 1;
  original_problem = problem;
  converted_bounds = [];
  converted_room = 3;
  forcing_constraints =
      record {
        constraint = 0;
        variables = 0 ∷ 2 ∷ [];
        factors = pos 2 ∷ negsuc 0 ∷ [];
        state = lower_bound;
      }
      ∷ [];
  forcing_room = 3;
  num_redundant_constraints = 2;
  var_states =
      record { state = var_forcing_fixed; value = pos 4 }
      ∷ record { state = var_unchanged; value = pos 0 }
      ∷ record { state = var_forcing_fixed; value = pos 0 }
      ∷ record { state = var_bound_fixed; value = pos 7 }
      ∷ [];
  cons_states =
      record { state = cons_redundant; bound = 0 }
      ∷ record { state = cons_unchanged; bound = 0 }
      ∷ record { state = cons_redundant; bound = 0 }
      ∷ [];
  var_bound_states = [];
  cons_bound_states = [];
  num_fixed_vars = 3;
  fixed_var_indices = [];
  fixed_var_values = [];
  num_removed_cons = 0;
  removed_cons_indices = [];
  num_removed_var_bounds = 1;
  num_removed_cons_bounds = 0;
}

run-fresh : run fresh operations ≡ ok done
unfolding create fix_variable_to_bounds add_forcing_constraint add_variable_bound_requirement
    remove_linear_constraint is_finite_value
run-fresh = refl

created-flush_example :
    (out : PreprocessingState ℤ) × (flush done ≡ ok out)
    × (out.fixed_var_indices ≡ 0 ∷ 2 ∷ 3 ∷ [])
    × (out.fixed_var_values ≡ pos 4 ∷ pos 0 ∷ pos 7 ∷ [])
    × (out.removed_cons_indices ≡ 0 ∷ 2 ∷ [])
    × (length out.fixed_var_indices ≡ out.num_fixed_vars)
    × (length out.removed_cons_indices ≡ out.num_removed_cons)
created-flush_example = created-flush problem vars cons [] [] operations done refl refl run-fresh

fresh-IsValid : IsValid fresh
unfolding create
fresh-IsValid = (reset-IsValid_state (allocated problem vars cons [] []) refl refl).0

-- Variable 3 is fixed.
abbrev fixed_one : PreprocessingState ℤ
fixed_one = record fresh {
  num_fixed_vars = 1;
  var_states =
      record { state = var_unchanged; value = pos 0 }
      ∷ record { state = var_unchanged; value = pos 0 }
      ∷ record { state = var_unchanged; value = pos 0 }
      ∷ record { state = var_bound_fixed; value = pos 7 }
      ∷ [];
}

apply-fixed_one : apply fresh (fix 3 (pos 7)) ≡ ok fixed_one
unfolding create fix_variable_to_bounds
apply-fixed_one = refl

columns-InRange : (col : ℕ) → InRange 0 3 (get_or problem.linear_coeffs col [])
columns-InRange zero = ground arith
columns-InRange (suc zero) = ground arith
columns-InRange (suc (suc zero)) = ground arith
columns-InRange (suc (suc (suc zero))) = omega arith
columns-InRange (suc (suc (suc (suc col)))) = omega arith

abbrev lower : List ℤ
lower = pos 0 ∷ pos 0 ∷ pos 0 ∷ pos 0 ∷ []

abbrev upper : List ℤ
upper = pos 4 ∷ pos 5 ∷ pos 6 ∷ pos 7 ∷ []

finite_values : (k : ℕ) → finite_or_unused lower_bound lower upper 0 fresh k ≡ true
unfolding create is_finite_value
finite_values zero = refl
finite_values (suc zero) = refl
finite_values (suc (suc zero)) = refl
finite_values (suc (suc (suc zero))) = refl
finite_values (suc (suc (suc (suc col)))) = refl

fresh-CanForce : CanForce lower_bound lower upper 0 fresh
unfolding create
fresh-CanForce = record {
  columns = λ col. columns-InRange col;
  vars_size = refl;
  cons_size = refl;
  is_constraint = omega arith;
  one_sided = refl;
  is_open = refl;
  finite = finite_values;
  room = omega arith;
}

add_forcing_constraint_lem_example :
    (out : PreprocessingState ℤ) × (add_forcing_constraint fresh 0 lower_bound lower upper ≡ ok out)
    × IsForced lower_bound lower upper 0 fresh out
add_forcing_constraint_lem_example =
    add_forcing_constraint_lem lower_bound lower upper 0 fresh fresh-CanForce
