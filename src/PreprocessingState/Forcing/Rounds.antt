-- ===== src/PreprocessingState/Forcing/Rounds.antt =====
-- One round of the second loop of `add_forcing_constraint`, over a column of the matrix.
use sleqp.Base.{
  ℕ, suc, ◌+◌, ◌<◌, ◌≡◌, map, inl, inr, refl, ap, sym, ◌∙◌, Bool, true, false, ◌&&◌, ◌||◌, not,
  Option, none, some, List, [], ◌∷◌, ◌++◌, arith, ltb, leb, ◌==◌, if◌then◌else◌, length, get_or,
  get_or-set_self, get_or-set_ne, set, Outcome, ok, Bool-cases, select,
}
use sleqp.Double.{Double, is_finite_value}
use sleqp.Vec.{at, or_nought}
use sleqp.PreprocessingState.{
  PreprocessingState, BoundState, VariableState, var_forcing_fixed, unchanged_var, var_state,
}
use sleqp.PreprocessingState.Forcing.{
  Building, column, fix_coeff, fix_column, fixed_value, fix_forced,
}
use sleqp.PreprocessingState.Forcing.Columns.{
  AreColumns, is_nonzero, nonzero_at, fix_one, fix_column_lem,
}

module _ {R : Type 0} ⦃d : Double R⦄ (bound_state : BoundState) (var_lb var_ub : List R)
    (c : ℕ) where
  open d use {nought, same}

  -- The coefficient of the constraint at a variable, and the value that it fixes the variable to.
  abbrev pub coeff : PreprocessingState R → ℕ → Option R
  coeff s col = at c (column s col)

  abbrev pub forced : PreprocessingState R → ℕ → VariableState R
  forced s col = record {
    state = var_forcing_fixed;
    value = fixed_value bound_state var_lb var_ub col (or_nought (coeff s col));
  }

  -- What becomes of a variable between `col` and `col + rounds`.
  abbrev pub after : PreprocessingState R → PreprocessingState R → ℕ → ℕ → ℕ → VariableState R
  after p s col rounds k =
      if leb col k && ltb k (col + rounds) && nonzero_at p c k then forced p k else var_state s k

  -- The outcome of the loop from `col` on, where `p` has the problem.
  pub record Fixed (p : PreprocessingState R) (col rounds : ℕ) (b b' : Building R) : Type 0 where
    pub variables : b'.variables ≡ b.variables ++ select (nonzero_at p c) col rounds
    pub factors :
        b'.factors
        ≡ b.factors ++ map (λ k. or_nought (coeff p k)) (select (nonzero_at p c) col rounds)
    pub states : (k : ℕ) → var_state b'.at_state k ≡ after p b.at_state col rounds k
    pub size : length b'.at_state.var_states ≡ length b.at_state.var_states
    pub problem : b'.at_state.original_problem ≡ b.at_state.original_problem
    pub cons : b'.at_state.cons_states ≡ b.at_state.cons_states
    pub forcing : b'.at_state.forcing_constraints ≡ b.at_state.forcing_constraints

  -- A value that the loop asserts to be finite is.
  abbrev pub finite_or_unused : PreprocessingState R → ℕ → Bool
  finite_or_unused p col =
      not (nonzero_at p c col)
      || is_finite_value (fixed_value bound_state var_lb var_ub col (or_nought (coeff p col)))

  pub fix_one_skip :
      (body : R → Building R → Outcome (Building R)) (o : Option R) (b : Building R)
      → is_nonzero o ≡ false
      → fix_one body o b ≡ ok b
  fix_one_skip body none b e = refl
  fix_one_skip body (some v) b e = ground arith

  pub fix_one_take :
      (body : R → Building R → Outcome (Building R)) (o : Option R) (b : Building R)
      → is_nonzero o ≡ true
      → fix_one body o b ≡ body (or_nought o) b
  fix_one_take body none b e = absurd (ground arith)
  fix_one_take body (some v) b e = ground arith

  abbrev pub fixed_building : PreprocessingState R → ℕ → Building R → Building R
  fixed_building p col b = record {
    at_state =
        fix_forced b.at_state col
          (fixed_value bound_state var_lb var_ub col (or_nought (coeff p col)));
    variables = b.variables ++ (col ∷ []);
    factors = b.factors ++ (or_nought (coeff p col) ∷ []);
  }

  pub one_column :
      (p : PreprocessingState R) (num_coeffs col : ℕ) (b : Building R)
      → AreColumns p
      → b.at_state.original_problem ≡ p.original_problem
      → fix_column c (fix_coeff bound_state var_lb var_ub num_coeffs col) (column b.at_state col) b
        ≡ fix_one (fix_coeff bound_state var_lb var_ub num_coeffs col) (coeff p col) b
  one_column p num_coeffs col b columns same_problem =
      let body = fix_coeff bound_state var_lb var_ub num_coeffs col in
      ap (λ q. fix_column c body (get_or q.linear_coeffs col []) b) same_problem
      ∙ fix_column_lem 0 p.original_problem.num_lin_cons c body (column p col) b (columns col)

  pub after_skip :
      (p s : PreprocessingState R) (col rounds k : ℕ)
      → nonzero_at p c col ≡ false
      → after p s (col + 1) rounds k ≡ after p s col (suc rounds) k
  after_skip p s col rounds k none_there = elim (Bool-cases (k == col)) [
    | inl here ↦
        let e : k ≡ col = ground arith in
        let unused : nonzero_at p c k ≡ false = ap (nonzero_at p c) e ∙ none_there in
        rw unused (ground arith)
    | inr not_here ↦ ground arith
  ]

  pub after_take :
      (p s t : PreprocessingState R) (col rounds k : ℕ)
      → nonzero_at p c col ≡ true
      → var_state t k ≡ (if k == col then forced p col else var_state s k)
      → after p t (col + 1) rounds k ≡ after p s col (suc rounds) k
  after_take p s t col rounds k some_there now = elim (Bool-cases (k == col)) [
    | inl here ↦
        let e : k ≡ col = ground arith in
        let used : nonzero_at p c k ≡ true = ap (nonzero_at p c) e ∙ some_there in
        let before : leb (col + 1) k ≡ false = ground arith in
        let from : leb col k ≡ true = ground arith in
        let below : ltb k (col + suc rounds) ≡ true = ground arith in
        let value : var_state t k ≡ forced p k =
          now ∙ ap (λ q. if q then forced p col else var_state s k) here ∙ ap (forced p) (sym e) in
        rw (before, from, below, used) value
    | inr not_here ↦
        let value : var_state t k ≡ var_state s k =
          now ∙ ap (λ q. if q then forced p col else var_state s k) not_here in
        let from : leb (col + 1) k ≡ leb col k = ground arith in
        let below : ltb k (col + 1 + rounds) ≡ ltb k (col + suc rounds) = ground arith in
        rw (value, from, below)
  ]

  pub var_state-fixed_building :
      (p : PreprocessingState R) (col k : ℕ) (b : Building R)
      → col < length b.at_state.var_states
      → var_state (fixed_building p col b).at_state k
        ≡ (if k == col then forced p col else var_state b.at_state k)
  var_state-fixed_building p col k b lt = elim (Bool-cases (k == col)) [
    | inl here ↦
        let e : k ≡ col = ground arith in
        ap (get_or (set b.at_state.var_states col (forced p col)) k) refl
        ∙ ap (λ q. get_or (set b.at_state.var_states col (forced p col)) q unchanged_var) e
        ∙ get_or-set_self b.at_state.var_states col (forced p col) unchanged_var lt
        ∙ sym (ap (λ q. if q then forced p col else var_state b.at_state k) here)
    | inr not_here ↦
        get_or-set_ne b.at_state.var_states col k (forced p col) unchanged_var
          (λ q. absurd (ground arith))
        ∙ sym (ap (λ q. if q then forced p col else var_state b.at_state k) not_here)
  ]

  pub fix_coeff_runs :
      (p : PreprocessingState R) (num_coeffs col : ℕ) (b : Building R)
      → length b.variables < num_coeffs
      → nonzero_at p c col ≡ true
      → finite_or_unused p col ≡ true
      → fix_coeff bound_state var_lb var_ub num_coeffs col (or_nought (coeff p col)) b
        ≡ ok (fixed_building p col b)
  unfolding fix_coeff
  fix_coeff_runs p num_coeffs col b room used fin =
      let space : ltb (length b.variables) num_coeffs ≡ true = ground arith in
      let finite : is_finite_value
            (fixed_value bound_state var_lb var_ub col (or_nought (coeff p col)))
          ≡ true =
        rw used at fin in
      rw (space, finite)
