-- ===== src/PreprocessingState/Invariant.antt =====
-- The counters of a preprocessing state against its states, for the operations of
-- preprocessing_state.c but add_forcing_constraint.
use sleqp.Base.{
  ℕ, ◌+◌, ◌<◌, ◌≡◌, inl, inr, refl, ap, sym, ◌∙◌, subst, Bool, true, false, ◌||◌, not, List, [],
  ◌∷◌, ◌++◌, arith, ltb, ◌==◌, if◌then◌else◌, length, length-append, length-set, length-fill,
  get_or, get_or-set_self, get_or-set_ne, get_or-fill_all, set, count_below, count_below_none,
  count-set-true, count-set-false, ok, Bool-cases, >>-eq-ok, ltb→lt, ok-injective,
}
use sleqp.Double.{Double}
use sleqp.PreprocessingState.{
  PreprocessingState, BoundState, BoundRequirement, ConsStatus, cons_unchanged, cons_redundant,
  cons_boundconverted, cons_forcing, ConvertedBound, ConstraintState, VariableState,
  var_bound_fixed, is_unchanged, is_cons_unchanged, unchanged_cons, unchanged_var, var_state,
  cons_state, num_vars, num_linear, num_removed_linear_constraints, reset,
  convert_linear_constraint_to_bound, remove_linear_constraint, fix_variable_to_bounds,
}

abbrev pub is_redundant : ConsStatus → Bool
is_redundant cons_unchanged = false
is_redundant cons_redundant = true
is_redundant cons_boundconverted = false
is_redundant cons_forcing = false

abbrev pub is_converted : ConsStatus → Bool
is_converted cons_unchanged = false
is_converted cons_redundant = false
is_converted cons_boundconverted = true
is_converted cons_forcing = false

-- A constraint that is unchanged is counted nowhere.
uncounted :
    (c : ConstraintState)
    → is_cons_unchanged c.state ≡ true
    → (is_redundant c.state ≡ false) × (is_converted c.state ≡ false)
uncounted c e = ground arith

flip : (b : Bool) → ◌≡◌ {A = ℕ} (if b then 1 else 0) (if not b then 0 else 1)
flip true = refl
flip false = refl

module _ {R : Type 0} ⦃d : Double R⦄ where
  abbrev pub fixed_at : PreprocessingState R → ℕ → Bool
  fixed_at s j = not (is_unchanged (var_state s j).state)

  abbrev pub redundant_at : PreprocessingState R → ℕ → Bool
  redundant_at s i = is_redundant (cons_state s i).state

  abbrev pub converted_at : PreprocessingState R → ℕ → Bool
  converted_at s i = is_converted (cons_state s i).state

  abbrev pub removed_at : PreprocessingState R → ℕ → Bool
  removed_at s i = not (is_cons_unchanged (cons_state s i).state)

  -- Every counter is the number of the variables or constraints that it counts. SLEQP_CONS_FORCING is
  -- no state of a constraint: a forcing constraint is redundant.
  pub record IsValid (s : PreprocessingState R) : Type 0 where
    pub vars_size : length s.var_states ≡ num_vars s
    pub cons_size : length s.cons_states ≡ num_linear s
    pub fixed : s.num_fixed_vars ≡ count_below (num_vars s) (fixed_at s)
    pub redundant : s.num_redundant_constraints ≡ count_below (num_linear s) (redundant_at s)
    pub converted : length s.converted_bounds ≡ count_below (num_linear s) (converted_at s)
    pub settled : (i : ℕ) → removed_at s i ≡ (redundant_at s i || converted_at s i)

  -- One more variable is fixed, or a fixed one again.
  pub with_var-IsValid :
      (s : PreprocessingState R) (j : ℕ) (v : VariableState R)
      → IsValid s
      → j < num_vars s
      → is_unchanged v.state ≡ false
      → IsValid (record s {
        num_fixed_vars = s.num_fixed_vars + (if is_unchanged (var_state s j).state then 1 else 0);
        var_states = set s.var_states j v;
      })
  with_var-IsValid s j v h lt fixes =
      let count =
        count-set-true (λ x. not (is_unchanged x.state)) unchanged_var s.var_states (num_vars s) j v
          h.vars_size lt (ap not fixes) in
      record {
        vars_size = length-set s.var_states j v ∙ h.vars_size;
        cons_size = h.cons_size;
        fixed =
            ap (λ n. n + (if is_unchanged (var_state s j).state then 1 else 0)) h.fixed
            ∙ ap (λ n. count_below (num_vars s) (fixed_at s) + n)
                (flip (is_unchanged (var_state s j).state))
            ∙ sym count;
        redundant = h.redundant;
        converted = h.converted;
        settled = h.settled;
      }

  -- One more constraint is removed.
  removed_settled :
      (s : PreprocessingState R) (i k : ℕ) (c : ConstraintState)
      → IsValid s
      → i < num_linear s
      → not (is_cons_unchanged c.state) ≡ (is_redundant c.state || is_converted c.state)
      → (let new = (get_or (set s.cons_states i c) k unchanged_cons).state in
          not (is_cons_unchanged new) ≡ (is_redundant new || is_converted new))
  removed_settled s i k c h lt e = elim (Bool-cases (k == i)) [
    | inl here ↦
        let e' : k ≡ i = ground arith in
        let now : get_or (set s.cons_states i c) k unchanged_cons ≡ c =
          ap (λ n. get_or (set s.cons_states i c) n unchanged_cons) e'
          ∙ get_or-set_self s.cons_states i c unchanged_cons (omega (arith, h.cons_size)) in
        rw now e
    | inr there ↦
        rw (get_or-set_ne s.cons_states i k c unchanged_cons (λ q. absurd (ground arith)))
          (h.settled k)
  ]

  pub with_redundant-IsValid :
      (s : PreprocessingState R) (i : ℕ) (c : ConstraintState) (bounds : List BoundRequirement)
      → IsValid s
      → i < num_linear s
      → is_cons_unchanged (cons_state s i).state ≡ true
      → c.state ≡ cons_redundant
      → IsValid (record s {
        cons_states = set s.cons_states i c;
        cons_bound_states = bounds;
        num_redundant_constraints = s.num_redundant_constraints + 1;
      })
  with_redundant-IsValid s i c bounds h lt before now =
      let (not_redundant, not_converted) = uncounted (cons_state s i) before in
      let count =
        count-set-true (λ x. is_redundant x.state) unchanged_cons s.cons_states (num_linear s) i c
          h.cons_size lt (ap is_redundant now) in
      let same =
        count-set-false (λ x. is_converted x.state) unchanged_cons s.cons_states (num_linear s) i c
          h.cons_size lt (ap is_converted now) not_converted in
      record {
        vars_size = h.vars_size;
        cons_size = length-set s.cons_states i c ∙ h.cons_size;
        fixed = h.fixed;
        redundant =
            ap (λ n. n + 1) h.redundant
            ∙ ap (λ b. count_below (num_linear s) (redundant_at s) + (if b then 0 else 1))
                (sym not_redundant)
            ∙ sym count;
        converted = h.converted ∙ sym same;
        settled = λ k. removed_settled s i k c h lt (rw now);
      }

  pub with_converted-IsValid :
      (s : PreprocessingState R) (i : ℕ) (c : ConstraintState) (b : ConvertedBound R)
      → IsValid s
      → i < num_linear s
      → is_cons_unchanged (cons_state s i).state ≡ true
      → c.state ≡ cons_boundconverted
      → IsValid (record s {
        cons_states = set s.cons_states i c;
        converted_bounds = s.converted_bounds ++ (b ∷ []);
      })
  with_converted-IsValid s i c b h lt before now =
      let (not_redundant, not_converted) = uncounted (cons_state s i) before in
      let count =
        count-set-true (λ x. is_converted x.state) unchanged_cons s.cons_states (num_linear s) i c
          h.cons_size lt (ap is_converted now) in
      let same =
        count-set-false (λ x. is_redundant x.state) unchanged_cons s.cons_states (num_linear s) i c
          h.cons_size lt (ap is_redundant now) not_redundant in
      record {
        vars_size = h.vars_size;
        cons_size = length-set s.cons_states i c ∙ h.cons_size;
        fixed = h.fixed;
        redundant = h.redundant ∙ sym same;
        converted =
            length-append s.converted_bounds (b ∷ [])
            ∙ ap (λ n. n + 1) h.converted
            ∙ ap (λ q. count_below (num_linear s) (converted_at s) + (if q then 0 else 1))
                (sym not_converted)
            ∙ sym count;
        settled = λ k. removed_settled s i k c h lt (rw now);
      }

  -- `reset` leaves a valid state where nothing is fixed and nothing is removed, whatever the arrays
  -- held, if they have the lengths of the problem.
  pub reset-IsValid_state :
      (s : PreprocessingState R)
      → length s.var_states ≡ num_vars s
      → length s.cons_states ≡ num_linear s
      → IsValid (reset s)
        × ((reset s).num_fixed_vars ≡ 0)
        × (num_removed_linear_constraints (reset s) ≡ 0)
  unfolding reset
  reset-IsValid_state s vars cons = (
    record {
      vars_size = length-fill (num_vars s) unchanged_var s.var_states ∙ vars;
      cons_size = length-fill (num_linear s) unchanged_cons s.cons_states ∙ cons;
      fixed = sym (
          count_below_none (num_vars s) _
            (λ k lt. rw (get_or-fill_all (num_vars s) unchanged_var s.var_states k vars)));
      redundant = sym (
          count_below_none (num_linear s) _
            (λ k lt. rw (get_or-fill_all (num_linear s) unchanged_cons s.cons_states k cons)));
      converted = sym (
          count_below_none (num_linear s) _
            (λ k lt. rw (get_or-fill_all (num_linear s) unchanged_cons s.cons_states k cons)));
      settled = λ k. rw (get_or-fill_all (num_linear s) unchanged_cons s.cons_states k cons);
    },
    refl,
    refl,
  )

  pub fix_variable_to_bounds-IsValid :
      (s s' : PreprocessingState R) (variable : ℕ) (value : R)
      → IsValid s
      → fix_variable_to_bounds s variable value ≡ ok s'
      → IsValid s'
  unfolding fix_variable_to_bounds
  fix_variable_to_bounds-IsValid s s' variable value h e =
      elim (Bool-cases (ltb variable (num_vars s))) [
        | inl lt ↦ elim (Bool-cases (is_unchanged (var_state s variable).state)) [
          | inl before ↦
              let runs = rw (lt, before) at e in
              let next =
                with_var-IsValid s variable (record { state = var_bound_fixed; value = value }) h
                  (ground arith) refl in
              subst IsValid (ok-injective runs) (rw before at next)
          | inr not_before ↦ absurd (ground arith)
        ]
        | inr not_lt ↦ absurd (ground arith)
      ]

  pub remove_linear_constraint-IsValid :
      (s s' : PreprocessingState R) (constraint : ℕ)
      → IsValid s
      → remove_linear_constraint s constraint ≡ ok s'
      → IsValid s'
  unfolding remove_linear_constraint
  remove_linear_constraint-IsValid s s' constraint h e =
      elim (Bool-cases (ltb constraint (num_linear s))) [
        | inl lt ↦ elim (Bool-cases (is_cons_unchanged (cons_state s constraint).state)) [
          | inl before ↦
              let runs = rw (lt, before) at e in
              subst IsValid (ok-injective runs)
                (with_redundant-IsValid s constraint _ _ h (ground arith) before refl)
          | inr not_before ↦ absurd (ground arith)
        ]
        | inr not_lt ↦ absurd (ground arith)
      ]

  pub convert-IsValid :
      (s s' : PreprocessingState R) (constraint variable : ℕ) (factor var_lb var_ub : R)
      (bound_state : BoundState)
      → IsValid s
      → convert_linear_constraint_to_bound s constraint variable factor var_lb var_ub bound_state
        ≡ ok s'
      → IsValid s'
  unfolding convert_linear_constraint_to_bound
  convert-IsValid s s' constraint variable factor var_lb var_ub bound_state h e =
      let (lt, r1) = >>-eq-ok _ _ e in
      let (_, r2) = >>-eq-ok _ _ r1 in
      let (_, r3) = >>-eq-ok _ _ r2 in
      let (before, r4) = >>-eq-ok _ _ r3 in
      let (_, runs) = >>-eq-ok _ _ r4 in
      subst IsValid (ok-injective runs)
        (with_converted-IsValid s constraint _ _ h (ltb→lt _ _ lt) before refl)
