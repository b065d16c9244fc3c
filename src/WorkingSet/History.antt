-- ===== src/WorkingSet/History.antt =====
-- A working set against the list of the calls that filled it.
use sleqp.Base.{
  ℕ, ◌+◌, ◌≤◌, ◌≡◌, refl, ap, sym, ok-ne-fault, zero, suc, length-map, ◌∙◌, Bool, true, false, List,
  [], ◌∷◌, ◌++◌, map, arith, length, Outcome, ok, ◌>>=◌, >>=-eq-ok, ok-injective, if◌then◌else◌,
  length-append,
}
use mathlib.Core.Path.{subst, ap₂}
use mathlib.Core.List.{append_assoc, append-nil}
use sleqp.WorkingSet.{WorkingSet, ActiveState, Problem, Storage, add, size, content, create}
use sleqp.WorkingSet.Invariant.{
  IsValid, IsAllocated, members, prefix, create-IsValid, create-num_variables,
}
use sleqp.WorkingSet.Moves.{
  add_var_needs, add_cons_needs, with_var, with_cons, with_var-IsValid, with_cons-IsValid,
  members-with_var, members-with_cons,
}
use sleqp.WorkingSet.Checks.{valid}
use sleqp.WorkingSet.Accepts.{valid_lem}

-- One call of `sleqp_working_set_add`.
pub record Addition : Type 0 where
  pub index : ℕ
  pub constraint : Bool
  pub state : ActiveState

unfoldable pub run : WorkingSet → List Addition → Outcome WorkingSet
run ws [] = ok ws
run ws (a ∷ more) = add ws a.index a.constraint a.state >>= λ next. run next more

-- The number under which an addition to a set of `n` variables is kept.
abbrev pub number : ℕ → Addition → ℕ
number n a = if a.constraint then n + a.index else a.index

record Added (ws next : WorkingSet) (n : ℕ) : Type 0 where
  valid_next : IsValid next
  members_next : members next ≡ members ws ++ (n ∷ [])
  same_problem : next.problem ≡ ws.problem
  same_vars : next.num_variables ≡ ws.num_variables

add-Added :
    (ws : WorkingSet) (index : ℕ) (constraint : Bool) (state : ActiveState) (next : WorkingSet)
    → IsValid ws
    → add ws index constraint state ≡ ok next
    → Added ws next (if constraint then ws.num_variables + index else index)
unfolding add
add-Added ws index true state next v e =
    let (can, runs) = add_cons_needs ws index state v.sized (λ f. ok-ne-fault (sym e ∙ f)) in
    let same : with_cons ws index state ≡ next = ok-injective (sym runs ∙ e) in
    subst (λ w. Added ws w (ws.num_variables + index)) same
      (record {
        valid_next = with_cons-IsValid ws index state v can;
        members_next = members-with_cons ws index state v can;
        same_problem = refl;
        same_vars = refl;
      })
add-Added ws index false state next v e =
    let (can, runs) = add_var_needs ws index state v.sized (λ f. ok-ne-fault (sym e ∙ f)) in
    let same : with_var ws index state ≡ next = ok-injective (sym runs ∙ e) in
    subst (λ w. Added ws w index) same
      (record {
        valid_next = with_var-IsValid ws index state v can;
        members_next = members-with_var ws index state v can;
        same_problem = refl;
        same_vars = refl;
      })

-- Any sequence of calls that returns keeps a valid set valid, and appends to its members the
-- numbers of the calls, in their order.
pub run-members :
    (ws : WorkingSet) (adds : List Addition) (ws' : WorkingSet)
    → IsValid ws
    → run ws adds ≡ ok ws'
    → IsValid ws'
      × (members ws' ≡ members ws ++ map (number ws.num_variables) adds)
      × (ws'.num_variables ≡ ws.num_variables)
unfolding run
run-members ws [] ws' v e =
    let same : ws ≡ ws' = ok-injective e in
    (
      subst IsValid same v,
      rw (append-nil, same),
      ap (λ (w : WorkingSet). w.num_variables) (sym same),
    )
run-members ws (a ∷ more) ws' v e =
    let (next, first, rest) =
      >>=-eq-ok (add ws a.index a.constraint a.state) (λ next. run next more) e in
    let step = add-Added ws a.index a.constraint a.state next v first in
    let (v', mem, vars) = run-members next more ws' step.valid_next rest in
    (
      v',
      mem
          ∙ ap₂ (λ xs n. xs ++ map (number n) more) step.members_next step.same_vars
          ∙ append_assoc (members ws) (number ws.num_variables a ∷ [])
              (map (number ws.num_variables) more),
      vars ∙ step.same_vars,
    )

length-prefix : (cont : ℕ → ℕ) (n : ℕ) → length (prefix cont n) ≡ n
length-prefix cont zero = refl
length-prefix cont (suc n) =
    omega (arith, length-append (prefix cont n) (cont n ∷ []), length-prefix cont n)

-- A working set that was created and then filled by any calls that return holds just the numbers of
-- those calls, in their order; and it passes `sleqp_working_set_valid`, if the calls are no more than
-- the variables.
pub created_run_valid :
    (p : Problem) (s : Storage) (adds : List Addition) (ws : WorkingSet)
    → IsAllocated p s
    → run (create p s) adds ≡ ok ws
    → length adds ≤ p.num_vars
    → (members ws ≡ map (number p.num_vars) adds) × (valid ws ≡ ok true)
created_run_valid p s adds ws h e few =
    let (v, start) = create-IsValid p s h in
    let (v', mem, vars) = run-members (create p s) adds ws v e in
    let vars' : ws.num_variables ≡ p.num_vars = vars ∙ create-num_variables p s in
    let holds : members ws ≡ map (number p.num_vars) adds =
      mem ∙ ap₂ (λ xs n. xs ++ map (number n) adds) start (create-num_variables p s) in
    let count : size ws ≡ length adds =
      sym (length-prefix (content ws) (size ws))
      ∙ ap length holds
      ∙ length-map (number p.num_vars) adds in
    (holds, valid_lem ws v' (omega arith))
