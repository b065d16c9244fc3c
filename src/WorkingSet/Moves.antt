-- ===== src/WorkingSet/Moves.antt =====
-- `sleqp_working_set_add_var` and `sleqp_working_set_add_cons` on the invariant.
use mathlib.Core.Path.{ap₂}
use sleqp.Base.{
  ℕ, suc, ◌+◌, ◌≤◌, ◌<◌, ◌≡◌, ◌≢◌, refl, ap, ◌∙◌, true, false, Option, none, some, List, [], ◌∷◌,
  ◌++◌, arith, length, get_or, set, length-set, get_or-set_self, get_or-set_ne, ok, fault,
  count_below-le,
}
use sleqp.WorkingSet.{
  WorkingSet, ActiveState, inactive, is_active, var_active, cons_active, var_at, cons_at, content,
  size, add_var, add_cons,
}
use sleqp.WorkingSet.Sides.{Side-add, Side-move, Side-frame, Side-room}
use sleqp.WorkingSet.Invariant.{IsValid, IsSized, prefix, prefix_congr, members}

-- What the assertions of `add_var` ask for.
pub record CanAddVar (ws : WorkingSet) (index : ℕ) (state : ActiveState) : Type 0 where
  pub in_range : index < ws.num_variables
  pub no_cons : ws.num_active_constraints ≡ 0
  pub was_off : var_active ws index ≡ false
  pub now_on : is_active state ≡ true

-- The working set after `add_var`.
abbrev pub with_var : WorkingSet → ℕ → ActiveState → WorkingSet
with_var ws index state = record ws {
  variable_indices = set ws.variable_indices index (some ws.num_active_variables);
  num_active_variables = ws.num_active_variables + 1;
  content_indices = set ws.content_indices (size ws) index;
  variable_states = set ws.variable_states index state;
}

pub add_var_runs :
    (ws : WorkingSet) (index : ℕ) (state : ActiveState)
    → IsSized ws
    → CanAddVar ws index state
    → add_var ws index state ≡ ok (with_var ws index state)
unfolding add_var
add_var_runs ws index state s c = ground arith

-- A read at the position just written, under another name of that position.
get_or-set_at :
    (xs : List ℕ) (i j v w : ℕ) → i ≡ j → j < length xs → v ≡ w → get_or (set xs i v) j 0 ≡ w
get_or-set_at xs i j v w e h q =
    ap (λ k. get_or (set xs k v) j 0) e ∙ get_or-set_self xs j v 0 h ∙ q

pub with_var-IsValid :
    (ws : WorkingSet) (index : ℕ) (state : ActiveState)
    → IsValid ws
    → CanAddVar ws index state
    → IsValid (with_var ws index state)
with_var-IsValid ws index state v c = record {
  sized = omega (
    arith,
    length-set ws.variable_states index state,
    length-set {A = Option ℕ} ws.variable_indices index (some ws.num_active_variables),
    length-set ws.content_indices (size ws) index,
    v.sized,
  );
  vars =
      let nv = ws.num_active_variables in
      let room : nv < 0 + ws.num_variables =
        Side-room ws.num_variables 0 nv 0 index _ _ _ v.vars c.in_range c.was_off in
      Side-add ws.num_variables 0 nv 0 index _ _ _ _ _ _ v.vars c.in_range c.was_off
        (ap is_active (get_or-set_self ws.variable_states index state inactive (omega arith))
          ∙ c.now_on)
        (get_or-set_self ws.variable_indices index (some nv) none (omega arith))
        (get_or-set_at ws.content_indices (size ws) nv index (0 + index) (omega arith) (omega arith)
          (omega arith))
        (λ j ne. ap is_active (get_or-set_ne ws.variable_states index j state inactive ne))
        (λ j ne. get_or-set_ne ws.variable_indices index j (some nv) none ne)
        (λ k lt. get_or-set_ne ws.content_indices (size ws) k index 0 (omega arith)) (nv + 1) refl;
  cons =
      Side-move ws.num_constraints _ _ _ _ ws.num_variables _ _ _ _ v.cons (omega arith)
        (omega arith);
}

-- What the assertions of `add_cons` ask for.
pub record CanAddCons (ws : WorkingSet) (index : ℕ) (state : ActiveState) : Type 0 where
  pub in_range : index < ws.num_constraints
  pub was_off : cons_active ws index ≡ false
  pub now_on : is_active state ≡ true

abbrev pub with_cons : WorkingSet → ℕ → ActiveState → WorkingSet
with_cons ws index state = record ws {
  constraint_indices =
      set ws.constraint_indices index (some (ws.num_active_variables + ws.num_active_constraints));
  num_active_constraints = ws.num_active_constraints + 1;
  content_indices = set ws.content_indices (size ws) (ws.num_variables + index);
  constraint_states = set ws.constraint_states index state;
}

pub add_cons_runs :
    (ws : WorkingSet) (index : ℕ) (state : ActiveState)
    → IsSized ws
    → CanAddCons ws index state
    → add_cons ws index state ≡ ok (with_cons ws index state)
unfolding add_cons
add_cons_runs ws index state s c = ground arith

pub with_cons-IsValid :
    (ws : WorkingSet) (index : ℕ) (state : ActiveState)
    → IsValid ws
    → CanAddCons ws index state
    → IsValid (with_cons ws index state)
with_cons-IsValid ws index state v c =
    let nv = ws.num_active_variables in
    let at = nv + ws.num_active_constraints in
    let room : at < nv + ws.num_constraints =
      Side-room ws.num_constraints nv at ws.num_variables index _ _ _ v.cons c.in_range c.was_off in
    let few : nv ≤ ws.num_variables =
      omega (arith, v.vars.counted, count_below-le ws.num_variables (var_active ws)) in
    record {
      sized = omega (
        arith,
        length-set ws.constraint_states index state,
        length-set {A = Option ℕ} ws.constraint_indices index (some at),
        length-set ws.content_indices (size ws) (ws.num_variables + index),
        v.sized,
      );
      vars = Side-frame ws.num_variables 0 nv 0 _ _ _ _ v.vars (λ k lt.
          get_or-set_ne ws.content_indices (size ws) k (ws.num_variables + index) 0 (omega arith));
      cons =
          Side-add ws.num_constraints nv at ws.num_variables index _ _ _ _ _ _ v.cons c.in_range
            c.was_off
            (ap is_active (get_or-set_self ws.constraint_states index state inactive (omega arith))
              ∙ c.now_on)
            (get_or-set_self ws.constraint_indices index (some at) none (omega arith))
            (get_or-set_at ws.content_indices (size ws) at (ws.num_variables + index) _
              (omega arith) (omega arith) refl)
            (λ j ne. ap is_active (get_or-set_ne ws.constraint_states index j state inactive ne))
            (λ j ne. get_or-set_ne ws.constraint_indices index j (some at) none ne)
            (λ k lt.
              get_or-set_ne ws.content_indices (size ws) k (ws.num_variables + index) 0
                (omega arith))
            _ (omega arith);
    }

-- A write at the end of the members appends.
members-append :
    (ws : WorkingSet) (k x : ℕ)
    → k ≡ suc (size ws)
    → size ws < length ws.content_indices
    → prefix (λ l. get_or (set ws.content_indices (size ws) x) l 0) k ≡ members ws ++ (x ∷ [])
members-append ws k x e h =
    let xs = ws.content_indices in
    let n = size ws in
    let cont : ℕ → ℕ = λ l. get_or (set xs n x) l 0 in
    let old : prefix cont n ≡ members ws =
      prefix_congr cont (content ws) n (λ l lt. get_or-set_ne xs n l x 0 (omega arith)) in
    ap (prefix cont) e ∙ ap₂ (λ ys y. ys ++ (y ∷ [])) old (get_or-set_self xs n x 0 h)

vars-le : (ws : WorkingSet) → IsValid ws → ws.num_active_variables ≤ ws.num_variables
vars-le ws v = omega (arith, v.vars.counted, count_below-le ws.num_variables (var_active ws))

pub members-with_var :
    (ws : WorkingSet) (index : ℕ) (state : ActiveState)
    → IsValid ws
    → CanAddVar ws index state
    → members (with_var ws index state) ≡ members ws ++ (index ∷ [])
members-with_var ws index state v c =
    let nv = ws.num_active_variables in
    let room : nv < 0 + ws.num_variables =
      Side-room ws.num_variables 0 nv 0 index _ _ _ v.vars c.in_range c.was_off in
    members-append ws (size (with_var ws index state)) index (omega arith) (omega arith)

pub members-with_cons :
    (ws : WorkingSet) (index : ℕ) (state : ActiveState)
    → IsValid ws
    → CanAddCons ws index state
    → members (with_cons ws index state) ≡ members ws ++ ((ws.num_variables + index) ∷ [])
members-with_cons ws index state v c =
    let nv = ws.num_active_variables in
    let top = nv + ws.num_active_constraints in
    let room : top < nv + ws.num_constraints =
      Side-room ws.num_constraints nv top ws.num_variables index _ _ _ v.cons c.in_range
        c.was_off in
    let few : nv ≤ ws.num_variables = vars-le ws v in
    members-append ws (size (with_cons ws index state)) (ws.num_variables + index) (omega arith)
      (omega arith)

-- On a valid set, where the assertions of `add_var` hold, the call returns, keeps the set valid,
-- appends the variable behind the members, and records that position and the state.
pub add_var_lem :
    (ws : WorkingSet) (index : ℕ) (state : ActiveState)
    → IsValid ws
    → CanAddVar ws index state
    → (ws' : WorkingSet) × (add_var ws index state ≡ ok ws')
      × IsValid ws'
      × (members ws' ≡ members ws ++ (index ∷ []))
      × (var_at ws' index ≡ some (size ws))
      × (get_or ws'.variable_states index inactive ≡ state)
add_var_lem ws index state v c =
    let nv = ws.num_active_variables in
    let at : some nv ≡ some (size ws) = ap some (omega arith) in
    (
      with_var ws index state,
      add_var_runs ws index state v.sized c,
      with_var-IsValid ws index state v c,
      members-with_var ws index state v c,
      get_or-set_self ws.variable_indices index (some nv) none (omega arith) ∙ at,
      get_or-set_self ws.variable_states index state inactive (omega arith),
    )

-- On a valid set, where the assertions of `add_cons` hold, the call returns, keeps the set valid,
-- appends the number of the constraint, counted behind all variables, to the members, and records
-- that position and the state.
pub add_cons_lem :
    (ws : WorkingSet) (index : ℕ) (state : ActiveState)
    → IsValid ws
    → CanAddCons ws index state
    → (ws' : WorkingSet) × (add_cons ws index state ≡ ok ws')
      × IsValid ws'
      × (members ws' ≡ members ws ++ ((ws.num_variables + index) ∷ []))
      × (cons_at ws' index ≡ some (size ws))
      × (get_or ws'.constraint_states index inactive ≡ state)
add_cons_lem ws index state v c =
    let nv = ws.num_active_variables in
    let top = nv + ws.num_active_constraints in
    let at : some top ≡ some (size ws) = ap some (omega arith) in
    (
      with_cons ws index state,
      add_cons_runs ws index state v.sized c,
      with_cons-IsValid ws index state v c,
      members-with_cons ws index state v c,
      get_or-set_self ws.constraint_indices index (some top) none (omega arith) ∙ at,
      get_or-set_self ws.constraint_states index state inactive (omega arith),
    )

-- A call of `add_var` that does not stop at an assertion met all of them, and returns: its
-- SLEQP_INTERNAL_ERROR for a variable behind constraints is never raised.
pub add_var_needs :
    (ws : WorkingSet) (index : ℕ) (state : ActiveState)
    → IsSized ws
    → add_var ws index state ≢ fault
    → CanAddVar ws index state × (add_var ws index state ≡ ok (with_var ws index state))
unfolding add_var
add_var_needs ws index state s h = ground arith

-- A call of `add_cons` that does not stop at an assertion met all of them, and returns.
pub add_cons_needs :
    (ws : WorkingSet) (index : ℕ) (state : ActiveState)
    → IsSized ws
    → add_cons ws index state ≢ fault
    → CanAddCons ws index state × (add_cons ws index state ≡ ok (with_cons ws index state))
unfolding add_cons
add_cons_needs ws index state s h = ground arith
