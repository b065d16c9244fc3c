-- ===== src/PreprocessingState/Forcing/Kept.antt =====
-- `add_forcing_constraint` and the counters of a preprocessing state.
use sleqp.Base.{
  ℕ, zero, suc, ◌+◌, ◌≤◌, ◌<◌, ◌≡◌, inl, inr, refl, sym, subst, true, false, not, List, [], ◌∷◌,
  arith, ltb, ◌==◌, length, Outcome, ok, Bool-cases, >>=-eq-ok, >>-eq-ok, ok-injective,
}
use sleqp.Double.{Double}
use sleqp.Vec.{Entries}
use sleqp.PreprocessingState.{
  PreprocessingState, Problem, BoundState, ForcingConstraint, is_cons_unchanged, cons_state,
  num_vars, num_linear, remove_linear_constraint,
}
use sleqp.PreprocessingState.Forcing.{
  Building, is_both, column, count_coeffs, fix_coeff, fix_column, fix_coeffs, build_forcing,
  add_forcing_constraint,
}
use sleqp.PreprocessingState.Invariant.{IsValid, with_var-IsValid, remove_linear_constraint-IsValid}

module _ {R : Type 0} ⦃d : Double R⦄ where
  open d use {nought, lt, same}

  -- What the loops keep: the state is valid, for the same problem.
  abbrev Keeps : Problem R → Building R → Type 0
  Keeps p b = IsValid b.at_state × (b.at_state.original_problem ≡ p)

  -- A forcing constraint is appended to a list that no counter reads.
  with_forcing-IsValid :
      (s : PreprocessingState R) (more : List (ForcingConstraint R))
      → IsValid s
      → IsValid (record s { forcing_constraints = more })
  with_forcing-IsValid s more h = record {
    vars_size = h.vars_size;
    cons_size = h.cons_size;
    fixed = h.fixed;
    redundant = h.redundant;
    converted = h.converted;
    settled = h.settled;
  }

  fix_coeff-Keeps :
      (bound_state : BoundState) (var_lb var_ub : List R) (num_coeffs col : ℕ) (v : R)
      (p : Problem R) (b b' : Building R)
      → col < p.num_vars
      → Keeps p b
      → fix_coeff bound_state var_lb var_ub num_coeffs col v b ≡ ok b'
      → Keeps p b'
  unfolding fix_coeff
  fix_coeff-Keeps bound_state var_lb var_ub num_coeffs col v p b b' lt (h, same_problem) e =
      let (_, r1) = >>-eq-ok _ _ e in
      let (_, runs) = >>-eq-ok _ _ r1 in
      let here : col < num_vars b.at_state = subst (λ q. col < q.num_vars) (sym same_problem) lt in
      subst (Keeps p) (ok-injective runs)
        (with_var-IsValid b.at_state col _ h here refl, same_problem)

  fix_column-Keeps :
      (constraint : ℕ) (body : R → Building R → Outcome (Building R)) (p : Problem R)
      (es : Entries R) (b b' : Building R)
      → ((v : R) (c c' : Building R) → Keeps p c → body v c ≡ ok c' → Keeps p c')
      → Keeps p b
      → fix_column constraint body es b ≡ ok b'
      → Keeps p b'
  unfolding fix_column
  fix_column-Keeps constraint body p [] b b' step k e = subst (Keeps p) (ok-injective e) k
  fix_column-Keeps constraint body p ((row, v) ∷ es) b b' step k e =
      elim (Bool-cases (ltb row constraint)) [
        | inl before ↦
            fix_column-Keeps constraint body p es b b' step k (rw (before, fix_column) at e)
        | inr not_before ↦ elim (Bool-cases (ltb constraint row)) [
          | inl behind ↦ subst (Keeps p) (ok-injective (rw (not_before, behind, fix_column) at e)) k
          | inr here ↦ elim (Bool-cases (same v nought)) [
            | inl zero_coeff ↦
                subst (Keeps p) (ok-injective (rw (not_before, here, zero_coeff, fix_column) at e))
                  k
            | inr coeff ↦
                let (c, first, rest) =
                  >>=-eq-ok (body v b) (fix_column constraint body es)
                    (rw (not_before, here, coeff, fix_column) at e) in
                fix_column-Keeps constraint body p es c b' step (step v b c k first) rest
          ]
        ]
      ]

  fix_coeffs-Keeps :
      (bound_state : BoundState) (var_lb var_ub : List R) (num_coeffs constraint rounds col : ℕ)
      (p : Problem R) (b b' : Building R)
      → col + rounds ≤ p.num_vars
      → Keeps p b
      → fix_coeffs bound_state var_lb var_ub num_coeffs constraint rounds col b ≡ ok b'
      → Keeps p b'
  unfolding fix_coeffs
  fix_coeffs-Keeps bound_state var_lb var_ub num_coeffs constraint zero col p b b' le k e =
      subst (Keeps p) (ok-injective e) k
  fix_coeffs-Keeps bound_state var_lb var_ub num_coeffs constraint (suc rounds) col p b b' le k e =
      let body = fix_coeff bound_state var_lb var_ub num_coeffs col in
      let (c, first, rest) =
        >>=-eq-ok (fix_column constraint body (column b.at_state col) b)
          (fix_coeffs bound_state var_lb var_ub num_coeffs constraint rounds (col + 1)) e in
      let k' =
        fix_column-Keeps constraint body p (column b.at_state col) b c
          (λ v x x' kx ex.
            fix_coeff-Keeps bound_state var_lb var_ub num_coeffs col v p x x' (omega arith) kx ex)
          k first in
      fix_coeffs-Keeps bound_state var_lb var_ub num_coeffs constraint rounds (col + 1) p c b'
        (omega arith) k' rest

  build_forcing-IsValid :
      (s s' : PreprocessingState R) (constraint : ℕ) (bound_state : BoundState)
      (var_lb var_ub : List R) (num_coeffs : ℕ)
      → IsValid s
      → build_forcing constraint bound_state var_lb var_ub num_coeffs s ≡ ok s'
      → IsValid s'
  unfolding build_forcing
  build_forcing-IsValid s s' constraint bound_state var_lb var_ub num_coeffs h e =
      let (_, r1) = >>-eq-ok (ltb (length s.forcing_constraints) s.forcing_room) _ e in
      let start : Building R = record { at_state = s; variables = []; factors = [] } in
      let (b, built, r2) =
        >>=-eq-ok (fix_coeffs bound_state var_lb var_ub num_coeffs constraint (num_vars s) 0 start)
          _ r1 in
      let (valid, _) =
        fix_coeffs-Keeps bound_state var_lb var_ub num_coeffs constraint (num_vars s) 0
          s.original_problem start b (omega arith) (h, refl) built in
      subst IsValid (ok-injective r2) (with_forcing-IsValid b.at_state _ valid)

  forced_or_not :
      (s s' : PreprocessingState R) (constraint : ℕ) (bound_state : BoundState)
      (var_lb var_ub : List R) (num_coeffs : ℕ)
      → IsValid s
      → (elim (num_coeffs == 0) [
        | true ↦ ok s
        | false ↦ build_forcing constraint bound_state var_lb var_ub num_coeffs s
      ])
        ≡ ok s'
      → IsValid s'
  forced_or_not s s' constraint bound_state var_lb var_ub num_coeffs h e =
      elim (Bool-cases (num_coeffs == 0)) [
        | inl none_there ↦ subst IsValid (ok-injective (rw none_there at e)) h
        | inr some_there ↦
            build_forcing-IsValid s s' constraint bound_state var_lb var_ub num_coeffs h
              (rw some_there at e)
      ]

  pub add_forcing_constraint-IsValid :
      (s s' : PreprocessingState R) (constraint : ℕ) (bound_state : BoundState)
      (var_lb var_ub : List R)
      → IsValid s
      → add_forcing_constraint s constraint bound_state var_lb var_ub ≡ ok s'
      → IsValid s'
  unfolding add_forcing_constraint
  add_forcing_constraint-IsValid s s' constraint bound_state var_lb var_ub h e =
      let (_, r1) = >>-eq-ok (ltb constraint (num_linear s)) _ e in
      let (_, r2) = >>-eq-ok (not (is_both bound_state)) _ r1 in
      let (_, r3) = >>-eq-ok (is_cons_unchanged (cons_state s constraint).state) _ r2 in
      let (removed, first, r4) = >>=-eq-ok (remove_linear_constraint s constraint) _ r3 in
      forced_or_not removed s' constraint bound_state var_lb var_ub
        (count_coeffs s constraint (num_vars s) 0 0)
        (remove_linear_constraint-IsValid s removed constraint h first) r4
