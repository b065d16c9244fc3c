-- ===== src/PreprocessingState/Forcing/Accepted.antt =====
-- When `add_forcing_constraint` returns, and what it leaves.
use sleqp.Base.{
  ℕ, ◌+◌, ◌<◌, ◌≡◌, map, select-none, inl, inr, refl, ap, ◌∙◌, true, false, ◌&&◌, List, [], ◌∷◌,
  ◌++◌, arith, ltb, leb, ◌==◌, if◌then◌else◌, length, get_or, get_or-set_self, set, ok, Bool-cases,
  select,
}
use sleqp.Double.{Double}
use sleqp.Vec.{or_nought}
use sleqp.PreprocessingState.{
  PreprocessingState, BoundState, ForcingConstraint, is_cons_unchanged, unchanged_cons,
  bound_redundant, var_state, cons_state, cons_redundant, num_vars, num_linear,
  remove_linear_constraint,
}
use sleqp.PreprocessingState.Forcing.{
  Building, is_both, count_coeffs, build_forcing, add_forcing_constraint,
}
use sleqp.PreprocessingState.Forcing.Columns.{AreColumns, nonzero_at, count_coeffs_lem}
use sleqp.PreprocessingState.Forcing.Rounds.{coeff, forced, after, finite_or_unused}
use sleqp.PreprocessingState.Forcing.FixLoop.{fix_coeffs_lem}

module _ {R : Type 0} ⦃d : Double R⦄ (bound_state : BoundState) (var_lb var_ub : List R)
    (c : ℕ) where
  open d use {nought, same}

  -- What a call of `add_forcing_constraint` needs.
  pub record CanForce (s : PreprocessingState R) : Type 0 where
    pub columns : AreColumns s
    pub vars_size : length s.var_states ≡ num_vars s
    pub cons_size : length s.cons_states ≡ num_linear s
    pub is_constraint : c < num_linear s
    pub one_sided : is_both bound_state ≡ false
    pub is_open : is_cons_unchanged (cons_state s c).state ≡ true
    pub finite : (k : ℕ) → finite_or_unused bound_state var_lb var_ub c s k ≡ true
    pub room : length s.forcing_constraints < s.forcing_room

  -- The variables of the constraint.
  abbrev pub support : PreprocessingState R → List ℕ
  support s = select (nonzero_at s c) 0 (num_vars s)

  -- The forcing constraints after bound_state var_lb var_ub c the call.
  abbrev pub with_forcing : PreprocessingState R → List (ForcingConstraint R)
  with_forcing s =
      if length (support s) == 0
      then s.forcing_constraints
      else s.forcing_constraints
        ++ (record {
          constraint = c;
          variables = support s;
          factors = map (λ k. or_nought (coeff bound_state var_lb var_ub c s k)) (support s);
          state = bound_state;
        }
            ∷ [])

  -- The state after bound_state var_lb var_ub c the removal of the constraint.
  abbrev removed_state : PreprocessingState R → PreprocessingState R
  removed_state s = record s {
    cons_states = set s.cons_states c (record (cons_state s c) { state = cons_redundant });
    cons_bound_states = set s.cons_bound_states c bound_redundant;
    num_redundant_constraints = s.num_redundant_constraints + 1;
  }

  removed_state_runs :
      (s : PreprocessingState R) → CanForce s → remove_linear_constraint s c ≡ ok (removed_state s)
  unfolding remove_linear_constraint
  removed_state_runs s h =
      let below : ltb c (num_linear s) ≡ true = ground (arith, h.is_constraint) in
      rw (below, h.is_open)

  -- What the call leaves.
  pub record IsForced (s out : PreprocessingState R) : Type 0 where
    pub vars :
        (k : ℕ)
        → var_state out k ≡ (
            if ltb k (num_vars s) && nonzero_at s c k
            then forced bound_state var_lb var_ub c s k
            else var_state s k)
    pub redundant : (cons_state out c).state ≡ cons_redundant
    pub forcing : out.forcing_constraints ≡ with_forcing s

  cons_state-removed :
      (s : PreprocessingState R)
      → CanForce s
      → (cons_state (removed_state s) c).state ≡ cons_redundant
  cons_state-removed s h =
      ap (λ q. q.state)
        (get_or-set_self s.cons_states c _ _ (omega (arith, h.is_constraint, h.cons_size)))

  whole_range :
      (s t : PreprocessingState R) (k : ℕ)
      → after bound_state var_lb var_ub c s t 0 (num_vars s) k ≡ (
          if ltb k (num_vars s) && nonzero_at s c k
          then forced bound_state var_lb var_ub c s k
          else var_state t k)
  whole_range s t k =
      let from : leb 0 k ≡ true = ground arith in
      let below : ltb k (0 + num_vars s) ≡ ltb k (num_vars s) = ground arith in rw (from, below)

  -- Nothing to fix.
  empty_support :
      (s : PreprocessingState R) (k : ℕ)
      → length (support s) ≡ 0
      → var_state s k ≡ (
          if ltb k (num_vars s) && nonzero_at s c k
          then forced bound_state var_lb var_ub c s k
          else var_state s k)
  empty_support s k e = elim (Bool-cases (ltb k (num_vars s))) [
    | inl below ↦
        let unused : nonzero_at s c k ≡ false =
          select-none (nonzero_at s c) 0 (num_vars s) k e (omega arith) (ground arith) in
        rw (below, unused)
    | inr behind ↦ rw behind
  ]

  build_forcing_lem :
      (s : PreprocessingState R)
      → CanForce s
      → (length (support s) == 0) ≡ false
      → (out : PreprocessingState R) × (build_forcing c bound_state var_lb var_ub
            (length (support s))
            (removed_state s)
          ≡ ok out)
        × IsForced s out
  unfolding build_forcing
  build_forcing_lem s h some_coeff =
      let start : Building R = record {
        at_state = removed_state s;
        variables = [];
        factors = [];
      } in
      let space : ltb (length s.forcing_constraints) s.forcing_room ≡ true =
        ground (arith, h.room) in
      let (b, runs, f) =
        fix_coeffs_lem bound_state var_lb var_ub c s (length (support s)) (num_vars s) 0 start
          h.columns h.finite refl (omega (arith, h.vars_size)) (omega arith) in
      (
        record (b.at_state) {
          forcing_constraints =
              b.at_state.forcing_constraints
              ++ (record {
                constraint = c;
                variables = b.variables;
                factors = b.factors;
                state = bound_state;
              }
                  ∷ []);
        },
        rw (space, runs),
        record {
          vars = λ k. f.states k ∙ whole_range s (removed_state s) k;
          redundant = ap (λ xs. (get_or xs c unchanged_cons).state) f.cons ∙ cons_state-removed s h;
          forcing = rw (some_coeff, f.forcing, f.variables, f.factors);
        },
      )

  -- On a state of the right size, with a matrix whose columns have increasing rows,
  -- `add_forcing_constraint` returns for a linear constraint that is unchanged, where the values that
  -- it fixes variables to are finite and there is room for the constraint: the arrays that the first
  -- loop counts are just filled by the second. The variables with a nonzero coefficient are fixed to
  -- the bounds that force the constraint and no other variable changes; the constraint is redundant;
  -- and it is recorded with its variables and factors, unless it has none.
  pub add_forcing_constraint_lem :
      (s : PreprocessingState R)
      → CanForce s
      → (out : PreprocessingState R) × (add_forcing_constraint s c bound_state var_lb var_ub
          ≡ ok out)
        × IsForced s out
  unfolding add_forcing_constraint
  add_forcing_constraint_lem s h =
      let below : ltb c (num_linear s) ≡ true = ground (arith, h.is_constraint) in
      let counted : count_coeffs s c (num_vars s) 0 0 ≡ length (support s) =
        count_coeffs_lem s c (num_vars s) 0 0 h.columns ∙ omega arith in
      elim (Bool-cases (length (support s) == 0)) [
        | inl no_coeff ↦ (
          removed_state s,
          rw (below, h.one_sided, h.is_open, removed_state_runs s h, counted, no_coeff),
          record {
            vars = λ k. empty_support s k (ground arith);
            redundant = cons_state-removed s h;
            forcing = rw no_coeff;
          },
        )
        | inr some_coeff ↦
            let (out, runs, forced_out) = build_forcing_lem s h some_coeff in
            (
              out,
              rw (below, h.one_sided, h.is_open, removed_state_runs s h, counted, some_coeff)
                  (ap (λ n. build_forcing c bound_state var_lb var_ub n (removed_state s)) counted
                    ∙ runs),
              forced_out,
            )
      ]
