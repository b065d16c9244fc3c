-- ===== src/WorkingSet.antt =====
-- src/main/working_set.c: the active set of variables and linearised constraints.
pub mod Sides
pub mod Checks
pub mod Invariant
pub mod Moves
pub mod Accepts
pub mod History
pub mod Orderly
pub mod Copies
pub mod Duals
mod Tests
use sleqp.Base.{
  ℕ, zero, suc, ◌+◌, ◌-◌, Bool, true, false, ◌&&◌, not, Option, none, some, List, [], ◌∷◌, ltb, leb,
  ◌==◌, xor, if◌then◌else◌, get_or, set, fill, copy_into, all_below, count_below, Outcome, ok,
  raise, fault, timeout, ErrorType, internal_error, ◌>>=◌, ◌>>◌, check, raise_if,
}

-- `SLEQP_ACTIVE_STATE`.
pub data ActiveState : Type 0 where
  inactive active_lower active_upper active_both : ActiveState

-- What this component reads of a `SleqpProblem`.
pub record Problem : Type 0 where
  pub num_vars : ℕ
  pub num_cons : ℕ

-- `struct SleqpWorkingSet`. SLEQP_NONE in an index array is `none`.
pub record WorkingSet : Type 0 where
  pub refcount : ℕ
  pub problem : Problem
  pub variable_states : List ActiveState
  pub constraint_states : List ActiveState
  pub num_variables : ℕ
  pub num_constraints : ℕ
  pub max_set_size : ℕ
  pub num_active_constraints : ℕ
  pub num_active_variables : ℕ
  pub variable_indices : List (Option ℕ)
  pub constraint_indices : List (Option ℕ)
  pub content_indices : List ℕ

abbrev pub is_active : ActiveState → Bool
is_active inactive = false
is_active active_lower = true
is_active active_upper = true
is_active active_both = true

-- The entry of each array at an index. The model reads a default past the end.
abbrev pub var_active : WorkingSet → ℕ → Bool
var_active ws j = is_active (get_or ws.variable_states j inactive)

abbrev pub cons_active : WorkingSet → ℕ → Bool
cons_active ws i = is_active (get_or ws.constraint_states i inactive)

abbrev pub var_at : WorkingSet → ℕ → Option ℕ
var_at ws j = get_or ws.variable_indices j none

abbrev pub cons_at : WorkingSet → ℕ → Option ℕ
cons_at ws i = get_or ws.constraint_indices i none

-- `sleqp_working_set_content`.
abbrev pub content : WorkingSet → ℕ → ℕ
content ws k = get_or ws.content_indices k 0

-- `sleqp_working_set_size`.
abbrev pub size : WorkingSet → ℕ
size ws = ws.num_active_constraints + ws.num_active_variables

-- `sleqp_working_set_var_state` and `sleqp_working_set_cons_state`.
pub var_state : WorkingSet → ℕ → Outcome ActiveState
var_state ws j = do check (ltb j ws.num_variables); ok (get_or ws.variable_states j inactive)

unfoldable pub cons_state : WorkingSet → ℕ → Outcome ActiveState
cons_state ws i = do check (ltb i ws.num_constraints); ok (get_or ws.constraint_states i inactive)

-- `sleqp_working_set_var_index` and `sleqp_working_set_cons_index`.
pub var_index : WorkingSet → ℕ → Outcome (Option ℕ)
var_index ws j = do check (ltb j ws.num_variables); ok (var_at ws j)

pub cons_index : WorkingSet → ℕ → Outcome (Option ℕ)
cons_index ws i = do check (ltb i ws.num_constraints); ok (cons_at ws i)

pub reset : WorkingSet → WorkingSet
reset ws = record ws {
  variable_states = fill ws.num_variables inactive ws.variable_states;
  variable_indices = fill ws.num_variables none ws.variable_indices;
  constraint_states = fill ws.num_constraints inactive ws.constraint_states;
  constraint_indices = fill ws.num_constraints none ws.constraint_indices;
  num_active_constraints = 0;
  num_active_variables = 0;
}

-- The five arrays that the allocator hands out, with contents that nothing fixes.
pub record Storage : Type 0 where
  pub states_of_vars : List ActiveState
  pub states_of_cons : List ActiveState
  pub indices_of_vars : List (Option ℕ)
  pub indices_of_cons : List (Option ℕ)
  pub contents : List ℕ

pub create : Problem → Storage → WorkingSet
unfolding reset
create p s = reset (record {
  refcount = 1;
  problem = p;
  variable_states = s.states_of_vars;
  constraint_states = s.states_of_cons;
  num_variables = p.num_vars;
  num_constraints = p.num_cons;
  max_set_size = p.num_vars + p.num_cons;
  num_active_constraints = 0;
  num_active_variables = 0;
  variable_indices = s.indices_of_vars;
  constraint_indices = s.indices_of_cons;
  content_indices = s.contents;
})

pub add_var : WorkingSet → ℕ → ActiveState → Outcome WorkingSet
unfolding var_state
add_var ws index state = do
  check (ltb index ws.problem.num_vars)
  check (ws.num_active_constraints == 0)
  old ← var_state ws index
  check (not (is_active old))
  check (is_active state)
  raise_if (not (ws.num_active_constraints == 0)) internal_error
  ok (record ws {
    variable_indices = set ws.variable_indices index (some ws.num_active_variables);
    num_active_variables = ws.num_active_variables + 1;
    content_indices = set ws.content_indices (size ws) index;
    variable_states = set ws.variable_states index state;
  })

pub add_cons : WorkingSet → ℕ → ActiveState → Outcome WorkingSet
unfolding cons_state
add_cons ws index state = do
  check (ltb index ws.problem.num_cons)
  old ← cons_state ws index
  check (not (is_active old))
  check (is_active state)
  ok (record ws {
    constraint_indices =
        set ws.constraint_indices index
          (some (ws.num_active_variables + ws.num_active_constraints));
    num_active_constraints = ws.num_active_constraints + 1;
    content_indices = set ws.content_indices (size ws) (ws.num_variables + index);
    constraint_states = set ws.constraint_states index state;
  })

-- `sleqp_working_set_add`.
pub add : WorkingSet → ℕ → Bool → ActiveState → Outcome WorkingSet
add ws index constraint state =
    if constraint then add_cons ws index state else add_var ws index state

-- `sleqp_working_set_eq`.
abbrev pub same_index : Option ℕ → Option ℕ → Bool
same_index none none = true
same_index none (some q) = false
same_index (some p) none = false
same_index (some p) (some q) = p == q

pub eq : WorkingSet → WorkingSet → Outcome Bool
eq a b = do
  check (a.num_constraints == b.num_constraints)
  check (a.num_variables == b.num_variables)
  ok (
      all_below a.num_variables (λ j. same_index (var_at a j) (var_at b j))
      && all_below a.num_constraints (λ i. same_index (cons_at a i) (cons_at b i)))

pub copy : WorkingSet → WorkingSet → Outcome WorkingSet
copy source target = do
  check (source.problem.num_vars == target.problem.num_vars)
  check (source.problem.num_cons == target.problem.num_cons)
  check (source.max_set_size == target.max_set_size)
  let nv = source.problem.num_vars
  let nc = source.problem.num_cons
  ok (record target {
    variable_states = copy_into nv source.variable_states target.variable_states;
    constraint_states = copy_into nc source.constraint_states target.constraint_states;
    num_variables = source.num_variables;
    num_constraints = source.num_constraints;
    max_set_size = source.max_set_size;
    num_active_constraints = source.num_active_constraints;
    num_active_variables = source.num_active_variables;
    variable_indices = copy_into nv source.variable_indices target.variable_indices;
    constraint_indices = copy_into nc source.constraint_indices target.constraint_indices;
    content_indices = copy_into source.max_set_size source.content_indices target.content_indices;
  })
