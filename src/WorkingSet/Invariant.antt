-- ===== src/WorkingSet/Invariant.antt =====
-- The representation invariant of `struct SleqpWorkingSet`, and the operations that start it.
use sleqp.Base.{
  ℕ, ◌+◌, ◌<◌, ◌≡◌, refl, Bool, false, Option, none, List, [], ◌∷◌, ◌++◌, zero, suc, arith, length,
  length-fill, get_or-fill, count_below_none, ap,
}
use sleqp.WorkingSet.{
  WorkingSet, Problem, Storage, inactive, is_active, var_active, cons_active, var_at, cons_at,
  content, size, reset, create,
}
use sleqp.WorkingSet.Sides.{Side}

-- The arrays have the lengths that `create` asks for.
pub record IsSized (ws : WorkingSet) : Type 0 where
  pub same_vars : ws.num_variables ≡ ws.problem.num_vars
  pub same_cons : ws.num_constraints ≡ ws.problem.num_cons
  pub max_size : ws.max_set_size ≡ ws.num_variables + ws.num_constraints
  pub vars_states : length ws.variable_states ≡ ws.num_variables
  pub cons_states : length ws.constraint_states ≡ ws.num_constraints
  pub vars_indices : length ws.variable_indices ≡ ws.num_variables
  pub cons_indices : length ws.constraint_indices ≡ ws.num_constraints
  pub contents_size : length ws.content_indices ≡ ws.max_set_size

-- The positions of the set hold the active variables, and behind them the active constraints.
pub record IsValid (ws : WorkingSet) : Type 0 where
  pub sized : IsSized ws
  pub vars :
      Side ws.num_variables 0 ws.num_active_variables 0 (var_active ws) (var_at ws) (content ws)
  pub cons :
      Side ws.num_constraints ws.num_active_variables
        (ws.num_active_variables + ws.num_active_constraints)
        ws.num_variables
        (cons_active ws)
        (cons_at ws)
        (content ws)

-- cont 0, …, cont (n - 1).
abbrev pub prefix : (ℕ → ℕ) → ℕ → List ℕ
prefix cont zero = []
prefix cont (suc n) = prefix cont n ++ (cont n ∷ [])

pub prefix_congr :
    (cont cont' : ℕ → ℕ) (n : ℕ)
    → ((k : ℕ) → k < n → cont k ≡ cont' k)
    → prefix cont n ≡ prefix cont' n
prefix_congr cont cont' zero h = refl
prefix_congr cont cont' (suc n) h =
    rw (prefix_congr cont cont' n (λ k lt. h k (omega arith)), h n (omega arith))

-- The numbers that the set holds, in order: `j` for a variable, `num_variables + i` for a
-- constraint.
abbrev pub members : WorkingSet → List ℕ
members ws = prefix (content ws) (size ws)

-- Where nothing is active and no index is set, the side is empty.
empty_Side :
    (n lo off : ℕ) (active : ℕ → Bool) (idx : ℕ → Option ℕ) (cont : ℕ → ℕ)
    → ((j : ℕ) → j < n → active j ≡ false)
    → ((j : ℕ) → j < n → idx j ≡ none)
    → Side n lo lo off active idx cont
empty_Side n lo off active idx cont all_off unset = record {
  set_iff_active = λ j h. ground (arith, unset j h, all_off j h);
  index_in = λ j p h e. absurd (ground (arith, unset j h));
  content_in = λ k a b. absurd (omega arith);
  counted = omega (arith, count_below_none n active all_off);
}

-- `reset` empties the set, whatever the arrays held.
pub reset-IsValid : (ws : WorkingSet) → IsSized ws → IsValid (reset ws) × (members (reset ws) ≡ [])
unfolding reset
reset-IsValid ws s = (
  record {
    sized = omega (
      arith,
      length-fill ws.num_variables inactive ws.variable_states,
      length-fill ws.num_constraints inactive ws.constraint_states,
      length-fill {A = Option ℕ} ws.num_variables none ws.variable_indices,
      length-fill {A = Option ℕ} ws.num_constraints none ws.constraint_indices,
    );
    vars =
        empty_Side _ _ _ _ _ _
          (λ j h.
            ap is_active
              (get_or-fill ws.num_variables inactive ws.variable_states j inactive h (omega arith)))
          (λ j h. get_or-fill ws.num_variables none ws.variable_indices j none h (omega arith));
    cons =
        empty_Side _ _ _ _ _ _
          (λ j h. ap is_active (
            get_or-fill ws.num_constraints inactive ws.constraint_states j inactive h
              (omega arith)))
          (λ j h. get_or-fill ws.num_constraints none ws.constraint_indices j none h (omega arith));
  },
  refl,
)

-- The allocator returned arrays of the lengths that `create` asked for.
abbrev pub IsAllocated : Problem → Storage → Type 0
IsAllocated p s =
    (length s.states_of_vars ≡ p.num_vars)
    × (length s.states_of_cons ≡ p.num_cons)
    × (length s.indices_of_vars ≡ p.num_vars)
    × (length s.indices_of_cons ≡ p.num_cons)
    × (length s.contents ≡ p.num_vars + p.num_cons)

abbrev raw : Problem → Storage → WorkingSet
raw p s = record {
  refcount = 1;
  problem = p;
  variable_states = s.states_of_vars;
  constraint_states = s.states_of_cons;
  num_variables = p.num_vars;
  num_constraints = p.num_cons;
  max_set_size = p.num_vars + p.num_cons;
  num_active_constraints = 0;
  num_active_variables = 0;
  variable_indices = s.indices_of_vars;
  constraint_indices = s.indices_of_cons;
  content_indices = s.contents;
}

-- A new set is valid and empty, whatever the allocated memory held.
pub create-IsValid :
    (p : Problem) (s : Storage)
    → IsAllocated p s
    → IsValid (create p s) × (members (create p s) ≡ [])
unfolding create
create-IsValid p s h = reset-IsValid (raw p s) (omega arith)

pub create-num_variables : (p : Problem) (s : Storage) → (create p s).num_variables ≡ p.num_vars
unfolding create
create-num_variables p s = refl
