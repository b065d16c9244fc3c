-- ===== src/WorkingSet/Tests.antt =====
-- The theorems on working sets at concrete inputs.
use sleqp.Base.{true, ◌≡◌, refl, true, false, none, some, List, [], ◌∷◌, arith, ok, fault, ◌≢◌}
use sleqp.Base.Int.{ℤ, pos, negsuc}
use sleqp.Double.{int_double}
use sleqp.Vec.{Vec}
use sleqp.WorkingSet.{
  WorkingSet, inactive, active_lower, active_upper, active_both, Problem, Storage, create, add,
  add_var, add_cons,
}
use sleqp.WorkingSet.Invariant.{IsValid, members, create-IsValid}
use sleqp.WorkingSet.History.{Addition, run, run-members, created_run_valid}
use sleqp.WorkingSet.Orderly.{created-orderly}
use sleqp.WorkingSet.Checks.{valid}

abbrev problem : Problem
problem = record { num_vars = 3; num_cons = 2 }

-- Memory with leftovers in it.
abbrev storage : Storage
storage = record {
  states_of_vars = active_both ∷ inactive ∷ active_lower ∷ [];
  states_of_cons = active_lower ∷ active_lower ∷ [];
  indices_of_vars = some 7 ∷ none ∷ some 1 ∷ [];
  indices_of_cons = none ∷ some 9 ∷ [];
  contents = 4 ∷ 4 ∷ 4 ∷ 4 ∷ 4 ∷ [];
}

abbrev adds : List Addition
adds =
    record { index = 2; constraint = false; state = active_upper }
    ∷ record { index = 0; constraint = false; state = active_lower }
    ∷ record { index = 1; constraint = true; state = active_both }
    ∷ []

abbrev filled : WorkingSet
filled = record {
  refcount = 1;
  problem = problem;
  variable_states = active_lower ∷ inactive ∷ active_upper ∷ [];
  constraint_states = inactive ∷ active_both ∷ [];
  num_variables = 3;
  num_constraints = 2;
  max_set_size = 5;
  num_active_constraints = 1;
  num_active_variables = 2;
  variable_indices = some 1 ∷ none ∷ some 0 ∷ [];
  constraint_indices = none ∷ some 2 ∷ [];
  content_indices = 2 ∷ 0 ∷ 4 ∷ 4 ∷ 4 ∷ [];
}

run-create : run (create problem storage) adds ≡ ok filled
unfolding run add add_var add_cons create
run-create = refl

created_run_valid_example : (members filled ≡ 2 ∷ 0 ∷ 4 ∷ []) × (valid filled ≡ ok true)
created_run_valid_example =
    created_run_valid problem storage adds filled (omega arith) run-create (omega arith)

created-IsValid : IsValid (create problem storage) × (members (create problem storage) ≡ [])
created-IsValid = create-IsValid problem storage (omega arith)

filled-IsValid : IsValid filled
filled-IsValid = (run-members (create problem storage) adds filled created-IsValid.0 run-create).0

-- The set with the first addition only.
abbrev started : WorkingSet
started = record filled {
  variable_states = inactive ∷ inactive ∷ active_upper ∷ [];
  constraint_states = inactive ∷ inactive ∷ [];
  num_active_constraints = 0;
  num_active_variables = 1;
  variable_indices = none ∷ none ∷ some 0 ∷ [];
  constraint_indices = none ∷ none ∷ [];
  content_indices = 2 ∷ 4 ∷ 4 ∷ 4 ∷ 4 ∷ [];
}

abbrev first_add : List Addition
first_add = record { index = 2; constraint = false; state = active_upper } ∷ []

run-first_add : run (create problem storage) first_add ≡ ok started
unfolding run add add_var add_cons create
run-first_add = refl

run-members_example :
    IsValid started
    × (members started ≡ 2 ∷ [])
    × (started.num_variables ≡ (create problem storage).num_variables)
unfolding create
run-members_example =
    run-members (create problem storage) first_add started created-IsValid.0 run-first_add

-- With a constraint in the set no variable can be added.
add_var_behind_cons : add_var filled 1 active_lower ≡ fault
unfolding add_var
add_var_behind_cons = refl

runs_started : add_var started 1 active_both ≢ fault
unfolding add_var
runs_started h = cc

-- Negative at the lower bound of variable 0, and nothing at the inactive variable 1.
abbrev dual : Vec ℤ
dual = record { entries = (0, negsuc 2) ∷ (2, pos 4) ∷ []; dim = 3; nnz_max = 2 }

created-orderly_example : (out : WorkingSet) × (run (create problem storage) adds ≡ ok out)
created-orderly_example = created-orderly problem storage adds (omega arith) refl
