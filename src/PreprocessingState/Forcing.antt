-- ===== src/PreprocessingState/Forcing.antt =====
-- `sleqp_preprocessing_state_add_forcing_constraint` of preprocessing_state.c.
pub mod Kept
pub mod Columns
pub mod Rounds
pub mod FixLoop
pub mod Accepted
use sleqp.Base.{
  ℕ, zero, suc, ◌+◌, Bool, true, false, ◌&&◌, not, xor, List, [], ◌∷◌, ◌++◌, ltb, leb, ◌==◌,
  if◌then◌else◌, length, get_or, set, Outcome, ok, fault, ◌>>=◌, ◌>>◌, check,
}
use sleqp.Double.{Double, is_finite_value}
use sleqp.Vec.{Entries}
use sleqp.PreprocessingState.{
  BoundState, lower_bound, upper_bound, both_bounds, PreprocessingState, Problem, ForcingConstraint,
  var_forcing_fixed, is_unchanged, is_cons_unchanged, var_state, cons_state, num_vars, num_linear,
  remove_linear_constraint,
}

abbrev pub is_lower : BoundState → Bool
is_lower lower_bound = true
is_lower upper_bound = false
is_lower both_bounds = false

abbrev pub is_both : BoundState → Bool
is_both lower_bound = false
is_both upper_bound = false
is_both both_bounds = true

-- Where the loop stands: the state, and what is written of the two arrays.
pub record Building (R : Type 0) : Type 0 where
  pub at_state : PreprocessingState R
  pub variables : List ℕ
  pub factors : List R

module _ {R : Type 0} ⦃d : Double R⦄ where
  open d use {nought, lt, same}

  abbrev pub column : PreprocessingState R → ℕ → Entries R
  column s col = get_or s.original_problem.linear_coeffs col []

  -- The first loop over one column.
  pub count_column : ℕ → Entries R → ℕ → ℕ
  count_column constraint [] num_coeffs = num_coeffs
  count_column constraint ((row, value) ∷ es) num_coeffs = elim (ltb row constraint) [
    | true ↦ count_column constraint es num_coeffs
    | false ↦ elim (ltb constraint row) [
      | true ↦ num_coeffs
      | false ↦ elim (same value nought) [
        | true ↦ count_column constraint es num_coeffs
        | false ↦ count_column constraint es (num_coeffs + 1)
      ]
    ]
  ]

  -- All columns from `col` on.
  pub count_coeffs : PreprocessingState R → ℕ → (rounds col : ℕ) → ℕ → ℕ
  unfolding count_column
  count_coeffs s constraint zero col num_coeffs = num_coeffs
  count_coeffs s constraint (suc rounds) col num_coeffs =
      count_coeffs s constraint rounds (col + 1) (count_column constraint (column s col) num_coeffs)

  -- The value that the variable is fixed to.
  abbrev pub fixed_value : BoundState → List R → List R → ℕ → R → R
  fixed_value bound_state var_lb var_ub col coeff_value =
      if xor (lt nought coeff_value) (is_lower bound_state)
      then get_or var_lb col nought
      else get_or var_ub col nought

  abbrev pub fix_forced : PreprocessingState R → ℕ → R → PreprocessingState R
  fix_forced s col value = record s {
    num_fixed_vars = s.num_fixed_vars + (if is_unchanged (var_state s col).state then 1 else 0);
    var_states = set s.var_states col (record { state = var_forcing_fixed; value = value });
  }

  -- The body of the second loop at a coefficient that is not zero. `num_coeffs` is the length of the
  -- two arrays.
  pub fix_coeff : BoundState → List R → List R → ℕ → ℕ → R → Building R → Outcome (Building R)
  fix_coeff bound_state var_lb var_ub num_coeffs col coeff_value b = do
    check (ltb (length b.variables) num_coeffs)
    let value = fixed_value bound_state var_lb var_ub col coeff_value
    check (is_finite_value value)
    ok (record {
      at_state = fix_forced b.at_state col value;
      variables = b.variables ++ (col ∷ []);
      factors = b.factors ++ (coeff_value ∷ []);
    })

  -- The second loop over one column. `body` is the code for a coefficient that is not zero.
  pub fix_column :
      ℕ → (R → Building R → Outcome (Building R)) → Entries R → Building R → Outcome (Building R)
  fix_column constraint body [] b = ok b
  fix_column constraint body ((row, value) ∷ es) b = elim (ltb row constraint) [
    | true ↦ fix_column constraint body es b
    | false ↦ elim (ltb constraint row) [
      | true ↦ ok b
      | false ↦ elim (same value nought) [
        | true ↦ ok b
        | false ↦ body value b >>= fix_column constraint body es
      ]
    ]
  ]

  pub fix_coeffs :
      BoundState
      → List R
      → List R
      → (num_coeffs constraint rounds col : ℕ) → Building R
      → Outcome (Building R)
  unfolding fix_column fix_coeff
  fix_coeffs bound_state var_lb var_ub num_coeffs constraint zero col b = ok b
  fix_coeffs bound_state var_lb var_ub num_coeffs constraint (suc rounds) col b =
      fix_column constraint (fix_coeff bound_state var_lb var_ub num_coeffs col)
        (column b.at_state col) b
      >>= fix_coeffs bound_state var_lb var_ub num_coeffs constraint rounds (col + 1)

  -- The part behind the removal of the constraint.
  pub build_forcing :
      ℕ → BoundState → List R → List R → ℕ → PreprocessingState R → Outcome (PreprocessingState R)
  unfolding fix_coeffs
  build_forcing constraint bound_state var_lb var_ub num_coeffs s = do
    check (ltb (length s.forcing_constraints) s.forcing_room)
    b ←
        fix_coeffs bound_state var_lb var_ub num_coeffs constraint (num_vars s) 0
          (record { at_state = s; variables = []; factors = [] })
    ok (record (b.at_state) {
      forcing_constraints =
          b.at_state.forcing_constraints
          ++ (record {
            constraint = constraint;
            variables = b.variables;
            factors = b.factors;
            state = bound_state;
          }
              ∷ []);
    })

  unfoldable pub add_forcing_constraint :
      PreprocessingState R → ℕ → BoundState → List R → List R → Outcome (PreprocessingState R)
  unfolding count_coeffs build_forcing
  add_forcing_constraint s constraint bound_state var_lb var_ub = do
    check (ltb constraint (num_linear s))
    check (not (is_both bound_state))
    check (is_cons_unchanged (cons_state s constraint).state)
    let num_coeffs = count_coeffs s constraint (num_vars s) 0 0
    removed ← remove_linear_constraint s constraint
    elim (num_coeffs == 0) [
      | true ↦ ok removed
      | false ↦ build_forcing constraint bound_state var_lb var_ub num_coeffs removed
    ]
