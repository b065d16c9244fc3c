-- ===== src/PreprocessingState/History.antt =====
-- Sequences of operations on a new preprocessing state.
use sleqp.Base.{
  ℕ, ◌≡◌, subst, List, [], ◌∷◌, map, length, Outcome, ok, ◌>>=◌, >>=-eq-ok, ok-injective, select,
}
use sleqp.Double.{Double}
use sleqp.PreprocessingState.{
  PreprocessingState, Problem, BoundState, BoundRequirement, ConstraintState, VariableState,
  num_vars, num_linear, allocated, create, convert_linear_constraint_to_bound,
  remove_linear_constraint, fix_variable_to_bounds, add_variable_bound_requirement,
  add_linear_constraint_bound_requirement, flush,
}
use sleqp.PreprocessingState.Forcing.{add_forcing_constraint}
use sleqp.PreprocessingState.Forcing.Kept.{add_forcing_constraint-IsValid}
use sleqp.PreprocessingState.Invariant.{
  IsValid, fixed_at, removed_at, reset-IsValid_state, remove_linear_constraint-IsValid,
  fix_variable_to_bounds-IsValid, convert-IsValid,
}
use sleqp.PreprocessingState.Flush.{flush_lem, value_of}

-- The calls that the preprocessor makes between creation and `flush`.
pub data Operation (R : Type 0) : Type 0 where
  convert : ℕ → ℕ → R → R → R → BoundState → Operation R
  force : ℕ → BoundState → List R → List R → Operation R
  remove : ℕ → Operation R
  fix : ℕ → R → Operation R
  relax_var relax_cons : ℕ → BoundRequirement → Operation R

module _ {R : Type 0} ⦃d : Double R⦄ where
  abbrev pub apply : PreprocessingState R → Operation R → Outcome (PreprocessingState R)
  apply s (convert i j factor lb ub b) = convert_linear_constraint_to_bound s i j factor lb ub b
  apply s (force i b lbs ubs) = add_forcing_constraint s i b lbs ubs
  apply s (remove i) = remove_linear_constraint s i
  apply s (fix j value) = fix_variable_to_bounds s j value
  apply s (relax_var j req) = ok (add_variable_bound_requirement s j req)
  apply s (relax_cons i req) = ok (add_linear_constraint_bound_requirement s i req)

  abbrev pub run : PreprocessingState R → List (Operation R) → Outcome (PreprocessingState R)
  run s [] = ok s
  run s (o ∷ os) = apply s o >>= λ next. run next os

  relax_var-IsValid :
      (s : PreprocessingState R) (j : ℕ) (req : BoundRequirement)
      → IsValid s
      → IsValid (add_variable_bound_requirement s j req)
  unfolding add_variable_bound_requirement
  relax_var-IsValid s j req h = record {
    vars_size = h.vars_size;
    cons_size = h.cons_size;
    fixed = h.fixed;
    redundant = h.redundant;
    converted = h.converted;
    settled = h.settled;
  }

  relax_cons-IsValid :
      (s : PreprocessingState R) (i : ℕ) (req : BoundRequirement)
      → IsValid s
      → IsValid (add_linear_constraint_bound_requirement s i req)
  unfolding add_linear_constraint_bound_requirement
  relax_cons-IsValid s i req h = record {
    vars_size = h.vars_size;
    cons_size = h.cons_size;
    fixed = h.fixed;
    redundant = h.redundant;
    converted = h.converted;
    settled = h.settled;
  }

  -- Every operation that returns keeps the counters of a valid state in agreement with its states.
  pub apply-IsValid :
      (s s' : PreprocessingState R) (o : Operation R) → IsValid s → apply s o ≡ ok s' → IsValid s'
  apply-IsValid s s' (convert i j factor lb ub b) h e = convert-IsValid s s' i j factor lb ub b h e
  apply-IsValid s s' (force i b lbs ubs) h e = add_forcing_constraint-IsValid s s' i b lbs ubs h e
  apply-IsValid s s' (remove i) h e = remove_linear_constraint-IsValid s s' i h e
  apply-IsValid s s' (fix j value) h e = fix_variable_to_bounds-IsValid s s' j value h e
  apply-IsValid s s' (relax_var j req) h e =
      subst IsValid (ok-injective e) (relax_var-IsValid s j req h)
  apply-IsValid s s' (relax_cons i req) h e =
      subst IsValid (ok-injective e) (relax_cons-IsValid s i req h)

  run-IsValid :
      (s s' : PreprocessingState R) (os : List (Operation R))
      → IsValid s
      → run s os ≡ ok s'
      → IsValid s'
  run-IsValid s s' [] h e = subst IsValid (ok-injective e) h
  run-IsValid s s' (o ∷ os) h e =
      let (next, first, rest) = >>=-eq-ok (apply s o) (λ n. run n os) e in
      run-IsValid next s' os (apply-IsValid s next o h first) rest

  create-IsValid_state :
      (p : Problem R) (vars : List (VariableState R)) (cons : List ConstraintState)
      (var_bounds cons_bounds : List BoundRequirement)
      → length vars ≡ p.num_vars
      → length cons ≡ p.num_lin_cons
      → IsValid (create p vars cons var_bounds cons_bounds)
  unfolding create
  create-IsValid_state p vars cons var_bounds cons_bounds hv hc =
      (reset-IsValid_state (allocated p vars cons var_bounds cons_bounds) hv hc).0

  -- After any sequence of operations on a new state that returns, whatever the allocated memory held,
  -- `flush` returns as well: its assertions on the counters hold. It lists the fixed variables with
  -- their values and the removed linear constraints, both in increasing order.
  pub created-flush :
      (p : Problem R) (vars : List (VariableState R)) (cons : List ConstraintState)
      (var_bounds cons_bounds : List BoundRequirement) (os : List (Operation R))
      (s : PreprocessingState R)
      → length vars ≡ p.num_vars
      → length cons ≡ p.num_lin_cons
      → run (create p vars cons var_bounds cons_bounds) os ≡ ok s
      → (out : PreprocessingState R) × (flush s ≡ ok out)
        × (out.fixed_var_indices ≡ select (fixed_at s) 0 (num_vars s))
        × (out.fixed_var_values ≡ map (value_of s) (select (fixed_at s) 0 (num_vars s)))
        × (out.removed_cons_indices ≡ select (removed_at s) 0 (num_linear s))
        × (length out.fixed_var_indices ≡ out.num_fixed_vars)
        × (length out.removed_cons_indices ≡ out.num_removed_cons)
  created-flush p vars cons var_bounds cons_bounds os s hv hc e = flush_lem s (
      run-IsValid (create p vars cons var_bounds cons_bounds) s os
        (create-IsValid_state p vars cons var_bounds cons_bounds hv hc) e)
