-- ===== src/WorkingSet/Duals.antt =====
-- `supports_range` of working_set.c: the signs of dual variables against the states.
use sleqp.Base.{
  ℕ, suc, ◌≡◌, ◌↔◌, refl, Bool, true, false, not, Option, none, some, List, [], ◌∷◌, arith, ◌==◌,
  if◌then◌else◌, get_or, Outcome, ok, ◌>>◌, raise_if, failed_assertion, Bool-cases, inl, inr,
}
use sleqp.Double.{Double}
use sleqp.Vec.{Entries, Vec, at}
use sleqp.Vec.Entries.{InRange, IsValid, at_below}
use sleqp.WorkingSet.{WorkingSet, ActiveState, inactive, active_lower, active_upper, active_both}

module _ {R : Type 0} ⦃d : Double R⦄ where
  open d use {nought, lt, same}

  -- One round: `false` where the loop returns early.
  abbrev pub agrees : ActiveState → R → Bool
  agrees inactive v = same v nought
  agrees active_lower v = not (lt nought v)
  agrees active_upper v = not (lt v nought)
  agrees active_both v = true

  pub supports_range : Entries R → List ActiveState → Bool
  supports_range [] states = true
  supports_range ((i, v) ∷ dual) states =
      let rest = supports_range dual states in
      if not (agrees (get_or states i inactive) v) then false else rest

  -- `sleqp_assert` raises where it fails.
  pub supports_cons_dual : WorkingSet → Vec R → Outcome Bool
  unfolding supports_range
  supports_cons_dual ws dual = do
    raise_if (not (dual.dim == ws.problem.num_cons)) failed_assertion
    ok (supports_range dual.entries ws.constraint_states)

  pub supports_vars_dual : WorkingSet → Vec R → Outcome Bool
  unfolding supports_range
  supports_vars_dual ws dual = do
    raise_if (not (dual.dim == ws.problem.num_vars)) failed_assertion
    ok (supports_range dual.entries ws.variable_states)

  -- A dual variable that is not stored agrees with every state.
  abbrev pub agrees_at : ActiveState → Option R → Bool
  agrees_at s none = true
  agrees_at s (some v) = agrees s v

  -- Below the first entry nothing is stored.
  tail_agrees :
      (a n i j : ℕ) (v : R) (dual : Entries R) (s : ActiveState)
      → InRange (suc i) n dual
      → agrees_at s (at j ((i, v) ∷ dual)) ≡ true
      → agrees_at s (at j dual) ≡ true
  tail_agrees a n i j v dual s h e = elim (Bool-cases (i == j)) [
    | inl same_index ↦
        let none_there : at j dual ≡ none = at_below (suc i) n dual j h (ground arith) in
        rw none_there
    | inr other ↦ ground arith
  ]

  whole_agrees :
      (i j : ℕ) (v : R) (dual : Entries R) (states : List ActiveState)
      → agrees (get_or states i inactive) v ≡ true
      → agrees_at (get_or states j inactive) (at j dual) ≡ true
      → agrees_at (get_or states j inactive) (at j ((i, v) ∷ dual)) ≡ true
  whole_agrees i j v dual states here rest = elim (Bool-cases (i == j)) [
    | inl same_index ↦ let e : i ≡ j = ground arith in rw (same_index, ← e) here
    | inr other ↦ rw other rest
  ]

  supports_range_iff :
      (a n : ℕ) (dual : Entries R) (states : List ActiveState)
      → InRange a n dual
      → (supports_range dual states ≡ true)
        ↔ ((j : ℕ) → agrees_at (get_or states j inactive) (at j dual) ≡ true)
  unfolding supports_range
  supports_range_iff a n [] states h = (λ e j. refl, λ all. refl)
  supports_range_iff a n ((i, v) ∷ dual) states h = (
    λ e j.
        whole_agrees i j v dual states (ground arith)
          ((supports_range_iff (suc i) n dual states h.2).0 (ground arith) j),
    λ all.
        let rest : supports_range dual states ≡ true =
          (supports_range_iff (suc i) n dual states h.2).1
            (λ j. tail_agrees a n i j v dual (get_or states j inactive) h.2 (all j)) in
        let here : agrees (get_or states i inactive) v ≡ true = ground (arith, all i) in
        rw (here, rest),
  )

  -- `supports_vars_dual` returns for a valid dual vector of the right dimension, and answers `true`
  -- exactly when every stored dual variable has the sign that the state of its variable asks for:
  -- none where both bounds are active, not positive at a lower bound, not negative at an upper bound,
  -- and zero at an inactive variable.
  pub supports_vars_dual_iff :
      (ws : WorkingSet) (dual : Vec R)
      → IsValid dual
      → dual.dim ≡ ws.problem.num_vars
      → (r : Bool) × (supports_vars_dual ws dual ≡ ok r)
        × ((r ≡ true) ↔ (
            (j : ℕ) → agrees_at (get_or ws.variable_states j inactive) (at j dual.entries) ≡ true))
  unfolding supports_vars_dual
  supports_vars_dual_iff ws dual h e =
      let test : (dual.dim == ws.problem.num_vars) ≡ true = ground arith in
      (
        supports_range dual.entries ws.variable_states,
        rw test,
        supports_range_iff 0 dual.dim dual.entries ws.variable_states h.in_range,
      )
