-- ===== src/PreprocessingState.antt =====
-- src/main/preprocessor/preprocessing_state.c and .h: what the preprocessor has found out about the
-- variables and the linear constraints of a problem.
pub mod Forcing
pub mod Invariant
pub mod Flush
pub mod History
mod Tests
use sleqp.Base.{
  ℕ, zero, suc, ◌+◌, Bool, true, false, ◌&&◌, not, Option, none, some, List, [], ◌∷◌, ◌++◌, ltb,
  leb, ◌==◌, if◌then◌else◌, length, get_or, set, fill, Outcome, ok, fault, ◌>>=◌, ◌>>◌, check,
}
use sleqp.Double.{Double}
use sleqp.Vec.{Entries}

-- `SleqpBoundState`.
pub data BoundState : Type 0 where
  lower_bound upper_bound both_bounds : BoundState

pub record ConvertedBound (R : Type 0) : Type 0 where
  pub constraint : ℕ
  pub variable : ℕ
  pub factor : R
  pub var_lb : R
  pub var_ub : R
  pub state : BoundState

-- `num_variables` is the length of the two lists.
pub record ForcingConstraint (R : Type 0) : Type 0 where
  pub constraint : ℕ
  pub variables : List ℕ
  pub factors : List R
  pub state : BoundState

-- SLEQP_VAR_UNCHANGED and so on. SLEQP_VAR_FIXED is the mask of the last two.
pub data VarStatus : Type 0 where
  var_unchanged var_bound_fixed var_forcing_fixed : VarStatus

pub record VariableState (R : Type 0) : Type 0 where
  pub state : VarStatus
  pub value : R

-- SLEQP_CONS_UNCHANGED and so on.
pub data ConsStatus : Type 0 where
  cons_unchanged cons_redundant cons_boundconverted cons_forcing : ConsStatus

pub record ConstraintState : Type 0 where
  pub state : ConsStatus
  pub bound : ℕ

-- `SleqpBoundRequirementState`, the flags of a bound.
pub data BoundRequirement : Type 0 where
  bound_required bound_redundant_lower bound_redundant_upper bound_redundant : BoundRequirement

-- `|` on the flags.
abbrev pub join : BoundRequirement → BoundRequirement → BoundRequirement
join bound_required b = b
join bound_redundant_lower bound_required = bound_redundant_lower
join bound_redundant_lower bound_redundant_lower = bound_redundant_lower
join bound_redundant_lower bound_redundant_upper = bound_redundant
join bound_redundant_lower bound_redundant = bound_redundant
join bound_redundant_upper bound_required = bound_redundant_upper
join bound_redundant_upper bound_redundant_lower = bound_redundant
join bound_redundant_upper bound_redundant_upper = bound_redundant_upper
join bound_redundant_upper bound_redundant = bound_redundant
join bound_redundant b = bound_redundant

-- What the component reads of a problem. A column of the linear coefficients is the list of its
-- rows with their values.
pub record Problem (R : Type 0) : Type 0 where
  pub num_vars : ℕ
  pub num_lin_cons : ℕ
  pub linear_coeffs : List (Entries R)

-- `struct SleqpPreprocessingState`. Of the arrays `converted_bounds` and `forcing_constraints` the
-- live part is kept, with the allocated length beside it.
pub record PreprocessingState (R : Type 0) : Type 0 where
  pub refcount : ℕ
  pub original_problem : Problem R
  pub converted_bounds : List (ConvertedBound R)
  pub converted_room : ℕ
  pub forcing_constraints : List (ForcingConstraint R)
  pub forcing_room : ℕ
  pub num_redundant_constraints : ℕ
  pub var_states : List (VariableState R)
  pub cons_states : List ConstraintState
  pub var_bound_states : List BoundRequirement
  pub cons_bound_states : List BoundRequirement
  pub num_fixed_vars : ℕ
  pub fixed_var_indices : List ℕ
  pub fixed_var_values : List R
  pub num_removed_cons : ℕ
  pub removed_cons_indices : List ℕ
  pub num_removed_var_bounds : ℕ
  pub num_removed_cons_bounds : ℕ

abbrev pub is_unchanged : VarStatus → Bool
is_unchanged var_unchanged = true
is_unchanged var_bound_fixed = false
is_unchanged var_forcing_fixed = false

-- `state & SLEQP_VAR_FIXED`.
abbrev pub is_fixed : VarStatus → Bool
is_fixed var_unchanged = false
is_fixed var_bound_fixed = true
is_fixed var_forcing_fixed = true

abbrev pub is_cons_unchanged : ConsStatus → Bool
is_cons_unchanged cons_unchanged = true
is_cons_unchanged cons_redundant = false
is_cons_unchanged cons_boundconverted = false
is_cons_unchanged cons_forcing = false

abbrev pub unchanged_cons : ConstraintState
unchanged_cons = record { state = cons_unchanged; bound = 0 }

abbrev pub is_required : BoundRequirement → Bool
is_required bound_required = true
is_required bound_redundant_lower = false
is_required bound_redundant_upper = false
is_required bound_redundant = false

abbrev pub num_vars : {R : Type 0} → PreprocessingState R → ℕ
num_vars s = s.original_problem.num_vars

abbrev pub num_linear : {R : Type 0} → PreprocessingState R → ℕ
num_linear s = s.original_problem.num_lin_cons

module _ {R : Type 0} ⦃d : Double R⦄ where
  open d use {nought}

  abbrev pub unchanged_var : VariableState R
  unchanged_var = record { state = var_unchanged; value = nought }

  -- The entry of the array at an index, with a default past the end.
  abbrev pub var_state : PreprocessingState R → ℕ → VariableState R
  var_state s j = get_or s.var_states j unchanged_var

  abbrev pub cons_state : PreprocessingState R → ℕ → ConstraintState
  cons_state s i = get_or s.cons_states i unchanged_cons

  pub reset : PreprocessingState R → PreprocessingState R
  reset s = record s {
    var_states = fill (num_vars s) unchanged_var s.var_states;
    var_bound_states = fill (num_vars s) bound_required s.var_bound_states;
    cons_states = fill (num_linear s) unchanged_cons s.cons_states;
    cons_bound_states = fill (num_linear s) bound_required s.cons_bound_states;
    converted_bounds = [];
    num_redundant_constraints = 0;
    num_fixed_vars = 0;
    num_removed_cons = 0;
    num_removed_var_bounds = 0;
    num_removed_cons_bounds = 0;
  }

  -- What `create` hands to `reset`: the four arrays of states are as the allocator left them.
  abbrev pub allocated :
      Problem R
      → List (VariableState R)
      → List ConstraintState
      → List BoundRequirement
      → List BoundRequirement
      → PreprocessingState R
  allocated problem var_states cons_states var_bound_states cons_bound_states = record {
    refcount = 1;
    original_problem = problem;
    converted_bounds = [];
    converted_room = problem.num_lin_cons;
    forcing_constraints = [];
    forcing_room = problem.num_lin_cons;
    num_redundant_constraints = 0;
    var_states = var_states;
    cons_states = cons_states;
    var_bound_states = var_bound_states;
    cons_bound_states = cons_bound_states;
    num_fixed_vars = 0;
    fixed_var_indices = [];
    fixed_var_values = [];
    num_removed_cons = 0;
    removed_cons_indices = [];
    num_removed_var_bounds = 0;
    num_removed_cons_bounds = 0;
  }

  pub create :
      Problem R
      → List (VariableState R)
      → List ConstraintState
      → List BoundRequirement
      → List BoundRequirement
      → PreprocessingState R
  unfolding reset
  create problem var_states cons_states var_bound_states cons_bound_states =
      reset (allocated problem var_states cons_states var_bound_states cons_bound_states)

  pub convert_linear_constraint_to_bound :
      PreprocessingState R → ℕ → ℕ → R → R → R → BoundState → Outcome (PreprocessingState R)
  convert_linear_constraint_to_bound s constraint variable factor var_lb var_ub bound_state = do
    check (ltb constraint (num_linear s))
    check (ltb variable (num_vars s))
    check (is_unchanged (var_state s variable).state)
    check (is_cons_unchanged (cons_state s constraint).state)
    check (ltb (length s.converted_bounds) s.converted_room)
    ok (record s {
      converted_bounds =
          s.converted_bounds
          ++ (record {
            constraint = constraint;
            variable = variable;
            factor = factor;
            var_lb = var_lb;
            var_ub = var_ub;
            state = bound_state;
          }
              ∷ []);
      cons_states =
          set s.cons_states constraint
            (record { state = cons_boundconverted; bound = length s.converted_bounds });
    })

  pub remove_linear_constraint : PreprocessingState R → ℕ → Outcome (PreprocessingState R)
  remove_linear_constraint s constraint = do
    check (ltb constraint (num_linear s))
    check (is_cons_unchanged (cons_state s constraint).state)
    ok (record s {
      cons_states =
          set s.cons_states constraint
            (record (cons_state s constraint) { state = cons_redundant });
      cons_bound_states = set s.cons_bound_states constraint bound_redundant;
      num_redundant_constraints = s.num_redundant_constraints + 1;
    })

  pub fix_variable_to_bounds : PreprocessingState R → ℕ → R → Outcome (PreprocessingState R)
  fix_variable_to_bounds s variable value = do
    check (ltb variable (num_vars s))
    check (is_unchanged (var_state s variable).state)
    ok (record s {
      var_states = set s.var_states variable (record { state = var_bound_fixed; value = value });
      num_fixed_vars = s.num_fixed_vars + 1;
    })

  -- The two functions have no assertion: the caller's index is in the array.
  pub add_variable_bound_requirement :
      PreprocessingState R → ℕ → BoundRequirement → PreprocessingState R
  add_variable_bound_requirement s j requirement =
      let old = get_or s.var_bound_states j bound_required in
      record s {
        num_removed_var_bounds = s.num_removed_var_bounds + (if is_required old then 1 else 0);
        var_bound_states = set s.var_bound_states j (join old requirement);
      }

  pub add_linear_constraint_bound_requirement :
      PreprocessingState R → ℕ → BoundRequirement → PreprocessingState R
  add_linear_constraint_bound_requirement s i requirement =
      let old = get_or s.cons_bound_states i bound_required in
      record s {
        num_removed_cons_bounds = s.num_removed_cons_bounds + (if is_required old then 1 else 0);
        cons_bound_states = set s.cons_bound_states i (join old requirement);
      }

  abbrev pub num_removed_linear_constraints : PreprocessingState R → ℕ
  num_removed_linear_constraints s = s.num_redundant_constraints + length s.converted_bounds

  -- The loop of `create_fixed_variables` from variable `j` on, with what is written so far.
  pub fixed_from :
      PreprocessingState R → (rounds j : ℕ) → List ℕ → List R → Outcome (List ℕ × List R)
  fixed_from s zero j indices values = ok (indices, values)
  fixed_from s (suc rounds) j indices values =
      let v = var_state s j in
      elim (is_unchanged v.state) [
        | true ↦ fixed_from s rounds (j + 1) indices values
        | false ↦
            check (is_fixed v.state)
            >> (check (ltb (length indices) s.num_fixed_vars)
                >> fixed_from s rounds (j + 1) (indices ++ (j ∷ [])) (values ++ (v.value ∷ [])))
      ]

  pub create_fixed_variables : PreprocessingState R → Outcome (PreprocessingState R)
  unfolding fixed_from
  create_fixed_variables s = do
    written ← fixed_from s (num_vars s) 0 [] []
    check (length written.0 == s.num_fixed_vars)
    ok (record s { fixed_var_indices = written.0; fixed_var_values = written.1 })

  -- The loop of `create_removed_linear_constraints`, likewise.
  pub removed_from : PreprocessingState R → (rounds i : ℕ) → List ℕ → Outcome (List ℕ)
  removed_from s zero i indices = ok indices
  removed_from s (suc rounds) i indices = elim (is_cons_unchanged (cons_state s i).state) [
    | true ↦ removed_from s rounds (i + 1) indices
    | false ↦
        check (ltb (length indices) (num_removed_linear_constraints s))
        >> removed_from s rounds (i + 1) (indices ++ (i ∷ []))
  ]

  pub create_removed_linear_constraints : PreprocessingState R → Outcome (PreprocessingState R)
  unfolding removed_from
  create_removed_linear_constraints s = do
    indices ← removed_from s (num_linear s) 0 []
    check (length indices == num_removed_linear_constraints s)
    ok (record s {
      num_removed_cons = num_removed_linear_constraints s;
      removed_cons_indices = indices;
    })

  -- The array of converted bounds is cut to its live part.
  pub flush : PreprocessingState R → Outcome (PreprocessingState R)
  unfolding create_fixed_variables create_removed_linear_constraints
  flush s = do
    fixed ← create_fixed_variables s
    removed ← create_removed_linear_constraints fixed
    ok (record removed { converted_room = length removed.converted_bounds })
