-- ===== src/WorkingSet/Orderly.antt =====
-- The sequences of calls that fill a working set.
use sleqp.Base.{
  ℕ, ◌<◌, ◌≡◌, refl, ap, ◌∙◌, Bool, true, false, not, xor, ◌&&◌, ◌||◌, List, [], ◌∷◌, arith, ltb,
  ◌==◌, if◌then◌else◌, length, get_or, get_or-set_self, get_or-set_ne, set, get_or-fill_all, ok,
  Bool-cases, inl, inr,
}
use sleqp.WorkingSet.{
  WorkingSet, ActiveState, inactive, is_active, Problem, Storage, create, reset, add, var_active,
  cons_active,
}
use sleqp.WorkingSet.Invariant.{IsValid, IsAllocated, create-IsValid}
use sleqp.WorkingSet.Moves.{
  CanAddVar, CanAddCons, with_var, with_cons, add_var_runs, add_cons_runs, with_var-IsValid,
  with_cons-IsValid,
}
use sleqp.WorkingSet.History.{Addition, run}

-- Whether an earlier call added the variable, or the constraint, of that index.
abbrev pub has : List Addition → Bool → ℕ → Bool
has [] constraint i = false
has (a ∷ earlier) constraint i =
    (not (xor a.constraint constraint) && (a.index == i)) || has earlier constraint i

abbrev pub no_constraint : List Addition → Bool
no_constraint [] = true
no_constraint (a ∷ earlier) = not a.constraint && no_constraint earlier

-- Calls for `num_vars` variables and `num_cons` constraints, after the earlier ones: every index is in
-- range and new, every state is active, and no variable comes behind a constraint.
abbrev pub orderly : (num_vars num_cons : ℕ) → (earlier calls : List Addition) → Bool
orderly num_vars num_cons earlier [] = true
orderly num_vars num_cons earlier (a ∷ calls) =
    (if a.constraint then ltb a.index num_cons else ltb a.index num_vars && no_constraint earlier)
    && is_active a.state
    && not (has earlier a.constraint a.index)
    && orderly num_vars num_cons (a ∷ earlier) calls

-- The set holds what the earlier calls added.
record Holds (ws : WorkingSet) (num_vars num_cons : ℕ) (earlier : List Addition) : Type 0 where
  valid : IsValid ws
  same_vars : ws.num_variables ≡ num_vars
  same_cons : ws.num_constraints ≡ num_cons
  vars : (j : ℕ) → var_active ws j ≡ has earlier false j
  cons : (i : ℕ) → cons_active ws i ≡ has earlier true i
  empty : no_constraint earlier ≡ true → ws.num_active_constraints ≡ 0

active_at :
    (xs : List ActiveState) (index j : ℕ) (state : ActiveState)
    → index < length xs
    → is_active state ≡ true
    → is_active (get_or (set xs index state) j inactive)
      ≡ ((index == j) || is_active (get_or xs j inactive))
active_at xs index j state lt on = elim (Bool-cases (index == j)) [
  | inl here ↦
      let e : j ≡ index = ground arith in
      rw here (
        ap (λ k. is_active (get_or (set xs index state) k inactive)) e
        ∙ ap is_active (get_or-set_self xs index state inactive lt)
        ∙ on)
  | inr there ↦
      rw there (ap is_active (get_or-set_ne xs index j state inactive (λ q. absurd (ground arith))))
]

hold_var :
    (ws : WorkingSet) (num_vars num_cons : ℕ) (earlier : List Addition) (index : ℕ)
    (state : ActiveState)
    → Holds ws num_vars num_cons earlier
    → CanAddVar ws index state
    → Holds
        (with_var ws index state)
        num_vars
        num_cons
        (record { index = index; constraint = false; state = state } ∷ earlier)
hold_var ws num_vars num_cons earlier index state h c = record {
  valid = with_var-IsValid ws index state h.valid c;
  same_vars = h.same_vars;
  same_cons = h.same_cons;
  vars = λ j.
      active_at ws.variable_states index j state
        (omega (arith, c.in_range, h.valid.sized.vars_states)) c.now_on
      ∙ ap (λ b. (index == j) || b) (h.vars j);
  cons = h.cons;
  empty = λ e. c.no_cons;
}

hold_cons :
    (ws : WorkingSet) (num_vars num_cons : ℕ) (earlier : List Addition) (index : ℕ)
    (state : ActiveState)
    → Holds ws num_vars num_cons earlier
    → CanAddCons ws index state
    → Holds
        (with_cons ws index state)
        num_vars
        num_cons
        (record { index = index; constraint = true; state = state } ∷ earlier)
hold_cons ws num_vars num_cons earlier index state h c = record {
  valid = with_cons-IsValid ws index state h.valid c;
  same_vars = h.same_vars;
  same_cons = h.same_cons;
  vars = h.vars;
  cons = λ i.
      active_at ws.constraint_states index i state
        (omega (arith, c.in_range, h.valid.sized.cons_states)) c.now_on
      ∙ ap (λ b. (index == i) || b) (h.cons i);
  empty = λ e. absurd (ground arith);
}

and-left : (b c : Bool) → b && c ≡ true → b ≡ true
and-left b c e = ground arith

not-true : (b : Bool) → not b ≡ true → b ≡ false
not-true b e = ground arith

and-right : (b c : Bool) → b && c ≡ true → c ≡ true
and-right b c e = ground arith

-- One orderly call.
orderly_add :
    (ws : WorkingSet) (num_vars num_cons : ℕ) (earlier : List Addition) (index : ℕ)
    (constraint : Bool) (state : ActiveState)
    → Holds ws num_vars num_cons earlier
    → (if constraint then ltb index num_cons else ltb index num_vars && no_constraint earlier)
      ≡ true
    → is_active state ≡ true
    → has earlier constraint index ≡ false
    → (next : WorkingSet) × (add ws index constraint state ≡ ok next)
      × Holds next num_vars num_cons
          (record { index = index; constraint = constraint; state = state } ∷ earlier)
unfolding add
orderly_add ws num_vars num_cons earlier index true state h place on new =
    let can : CanAddCons ws index state = record {
      in_range = ground (arith, h.same_cons);
      was_off = h.cons index ∙ new;
      now_on = on;
    } in
    (
      with_cons ws index state,
      add_cons_runs ws index state h.valid.sized can,
      hold_cons ws num_vars num_cons earlier index state h can,
    )
orderly_add ws num_vars num_cons earlier index false state h place on new =
    let (below, first) : (ltb index num_vars ≡ true) × (no_constraint earlier ≡ true) =
      ground arith in
    let can : CanAddVar ws index state = record {
      in_range = ground (arith, h.same_vars);
      no_cons = h.empty first;
      was_off = h.vars index ∙ new;
      now_on = on;
    } in
    (
      with_var ws index state,
      add_var_runs ws index state h.valid.sized can,
      hold_var ws num_vars num_cons earlier index state h can,
    )

orderly-run :
    (num_vars num_cons : ℕ) (calls earlier : List Addition) (ws : WorkingSet)
    → Holds ws num_vars num_cons earlier
    → orderly num_vars num_cons earlier calls ≡ true
    → (out : WorkingSet) × (run ws calls ≡ ok out)
unfolding run
orderly-run num_vars num_cons [] earlier ws h e = (ws, refl)
orderly-run num_vars num_cons (a ∷ calls) earlier ws h e =
    let in_place =
      if a.constraint
      then ltb a.index num_cons
      else ltb a.index num_vars && no_constraint earlier in
    let on = is_active a.state in
    let fresh = not (has earlier a.constraint a.index) in
    let rest_ok = orderly num_vars num_cons (a ∷ earlier) calls in
    let here : in_place && on && fresh ≡ true = and-left (in_place && on && fresh) rest_ok e in
    let later : rest_ok ≡ true = and-right (in_place && on && fresh) rest_ok e in
    let two : in_place && on ≡ true = and-left (in_place && on) fresh here in
    let new : has earlier a.constraint a.index ≡ false =
      not-true _ (and-right (in_place && on) fresh here) in
    let (next, runs, holds) =
      orderly_add ws num_vars num_cons earlier a.index a.constraint a.state h
        (and-left in_place on two) (and-right in_place on two) new in
    let (out, rest) = orderly-run num_vars num_cons calls (a ∷ earlier) next holds later in
    (out, rw runs rest)

-- Orderly calls on a new working set return, whatever the allocated memory held: every index is in
-- range and given once, every state is active, and no variable comes behind a constraint.
pub created-orderly :
    (p : Problem) (s : Storage) (calls : List Addition)
    → IsAllocated p s
    → orderly p.num_vars p.num_cons [] calls ≡ true
    → (out : WorkingSet) × (run (create p s) calls ≡ ok out)
unfolding create reset
created-orderly p s calls alloc e =
    orderly-run p.num_vars p.num_cons calls [] (create p s)
      (record {
        valid = (create-IsValid p s alloc).0;
        same_vars = refl;
        same_cons = refl;
        vars = λ j. ap is_active (get_or-fill_all p.num_vars inactive s.states_of_vars j alloc.0);
        cons = λ i. ap is_active (get_or-fill_all p.num_cons inactive s.states_of_cons i alloc.1);
        empty = λ q. refl;
      })
      e
