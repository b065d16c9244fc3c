-- ===== src/PreprocessingState/Forcing/FixLoop.antt =====
-- The second loop of `add_forcing_constraint`.
use sleqp.Base.{
  ℕ, zero, suc, ◌+◌, ◌≤◌, ◌≡◌, inl, inr, refl, ap, sym, ◌∙◌, true, false, ◌&&◌, List, [], ◌∷◌,
  append_nil, append_assoc, arith, ltb, leb, length, length-append, length-set, ok, ◌>>=◌,
  Bool-cases, select,
}
use sleqp.Double.{Double}
use sleqp.PreprocessingState.{PreprocessingState, BoundState, var_state}
use sleqp.PreprocessingState.Forcing.{Building, column, fix_coeff, fix_column, fix_coeffs}
use sleqp.PreprocessingState.Forcing.Columns.{AreColumns, nonzero_at, fix_one}
use sleqp.PreprocessingState.Forcing.Rounds.{
  coeff, after, Fixed, finite_or_unused, fix_one_skip, fix_one_take, fixed_building, one_column,
  after_skip, after_take, var_state-fixed_building, fix_coeff_runs,
}

module _ {R : Type 0} ⦃d : Double R⦄ (bound_state : BoundState) (var_lb var_ub : List R)
    (c : ℕ) where
  open d use {nought, same}

  no_rounds :
      (p s : PreprocessingState R) (col k : ℕ)
      → var_state s k ≡ after bound_state var_lb var_ub c p s col 0 k
  no_rounds p s col k =
      let outside : leb col k && ltb k (col + 0) ≡ false = ground arith in
      elim (Bool-cases (leb col k)) [
        | inl from ↦ let below : ltb k (col + 0) ≡ false = ground arith in rw (from, below)
        | inr before ↦ rw before
      ]

  fixed_building-problem :
      (p : PreprocessingState R) (col : ℕ) (b : Building R)
      → (fixed_building bound_state var_lb var_ub c p col b).at_state.original_problem
        ≡ b.at_state.original_problem
  fixed_building-problem p col b = refl

  fixed_building-size :
      (p : PreprocessingState R) (col : ℕ) (b : Building R)
      → length (fixed_building bound_state var_lb var_ub c p col b).at_state.var_states
        ≡ length b.at_state.var_states
  fixed_building-size p col b = length-set b.at_state.var_states col _

  fixed_building-length :
      (p : PreprocessingState R) (col : ℕ) (b : Building R)
      → length (fixed_building bound_state var_lb var_ub c p col b).variables
        ≡ length b.variables + 1
  fixed_building-length p col b = length-append b.variables (col ∷ [])

  taken :
      (p : PreprocessingState R) (num_coeffs rounds col : ℕ) (b : Building R)
      → nonzero_at p c col ≡ true
      → fix_column c (fix_coeff bound_state var_lb var_ub num_coeffs col) (column b.at_state col) b
        ≡ ok (fixed_building bound_state var_lb var_ub c p col b)
      → col + suc rounds ≤ length b.at_state.var_states
      → (b' : Building R) × (fix_coeffs bound_state var_lb var_ub num_coeffs c rounds
            (col + 1)
            (fixed_building bound_state var_lb var_ub c p col b)
          ≡ ok b')
        × Fixed bound_state var_lb var_ub c p
            (col + 1)
            rounds
            (fixed_building bound_state var_lb var_ub c p col b)
            b'
      → (b' : Building R) × ((fix_column c
              (fix_coeff bound_state var_lb var_ub num_coeffs col)
              (column b.at_state col)
              b
            >>= fix_coeffs bound_state var_lb var_ub num_coeffs c rounds (col + 1))
          ≡ ok b')
        × Fixed bound_state var_lb var_ub c p col (suc rounds) b b'
  taken p num_coeffs rounds col b used first size (b', runs, f) = (
    b',
    ap (λ o. o >>= fix_coeffs bound_state var_lb var_ub num_coeffs c rounds (col + 1)) first ∙ runs,
    record {
      variables = rw used (f.variables ∙ append_assoc b.variables (col ∷ []) _);
      factors = rw used (f.factors ∙ append_assoc b.factors _ _);
      states = λ k.
          f.states k
          ∙ after_take bound_state var_lb var_ub c p b.at_state
              (fixed_building bound_state var_lb var_ub c p col b).at_state col rounds k used
              (var_state-fixed_building bound_state var_lb var_ub c p col k b (omega arith));
      size = f.size ∙ length-set b.at_state.var_states col _;
      problem = f.problem;
      cons = f.cons;
      forcing = f.forcing;
    },
  )

  pub fix_coeffs_lem :
      (p : PreprocessingState R) (num_coeffs rounds col : ℕ) (b : Building R)
      → AreColumns p
      → ((k : ℕ) → finite_or_unused bound_state var_lb var_ub c p k ≡ true)
      → b.at_state.original_problem ≡ p.original_problem
      → col + rounds ≤ length b.at_state.var_states
      → length b.variables + length (select (nonzero_at p c) col rounds) ≤ num_coeffs
      → (b' : Building R) × (fix_coeffs bound_state var_lb var_ub num_coeffs c rounds col b ≡ ok b')
        × Fixed bound_state var_lb var_ub c p col rounds b b'
  unfolding fix_coeffs
  fix_coeffs_lem p num_coeffs zero col b columns fin same_problem size room = (
    b,
    refl,
    record {
      variables = sym (append_nil b.variables);
      factors = sym (append_nil b.factors);
      states = λ k. no_rounds p b.at_state col k;
      size = refl;
      problem = refl;
      cons = refl;
      forcing = refl;
    },
  )
  fix_coeffs_lem p num_coeffs (suc rounds) col b columns fin same_problem size room =
      let body = fix_coeff bound_state var_lb var_ub num_coeffs col in
      let loop = fix_coeffs bound_state var_lb var_ub num_coeffs c rounds (col + 1) in
      let here = one_column bound_state var_lb var_ub c p num_coeffs col b columns same_problem in
      elim (Bool-cases (nonzero_at p c col)) [
        | inr unused ↦
            let room' = rw unused at room in
            let (b', runs, f) =
              fix_coeffs_lem p num_coeffs rounds (col + 1) b columns fin same_problem (omega arith)
                room' in
            (
              b',
              ap (λ o. o >>= loop)
                    (here
                      ∙ fix_one_skip bound_state var_lb var_ub c body
                          (coeff bound_state var_lb var_ub c p col) b unused)
                  ∙ runs,
              record {
                variables = rw unused f.variables;
                factors = rw unused f.factors;
                states = λ k.
                    f.states k
                    ∙ after_skip bound_state var_lb var_ub c p b.at_state col rounds k unused;
                size = f.size;
                problem = f.problem;
                cons = f.cons;
                forcing = f.forcing;
              },
            )
        | inl used ↦
            let room' = rw used at room in
            let b1 = fixed_building bound_state var_lb var_ub c p col b in
            let first : fix_one body (coeff bound_state var_lb var_ub c p col) b ≡ ok b1 =
              fix_one_take bound_state var_lb var_ub c body
                (coeff bound_state var_lb var_ub c p col) b used
              ∙ fix_coeff_runs bound_state var_lb var_ub c p num_coeffs col b (omega arith) used
                  (fin col) in
            taken p num_coeffs rounds col b used (here ∙ first) size (
              fix_coeffs_lem p num_coeffs rounds (col + 1) b1 columns fin
                (fixed_building-problem p col b ∙ same_problem)
                (omega (arith, fixed_building-size p col b))
                (omega (arith, fixed_building-length p col b)))
      ]
