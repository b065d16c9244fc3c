-- ===== src/Lib.antt =====
-- The data structures below the SLEQP solver: sparse vectors and matrices, working sets, Hessian structures,
-- the state of the preprocessor and the window of accepted steps.
--
-- SLEQP solves nonlinear programs by sequential linear and quadratic subproblems. Its iterates, steps
-- and dual variables are sparse vectors (src/main/sparse/vec.c). The linear subproblem picks an active set
-- of variables and constraints, which is kept as a working set (src/main/working_set.c); the equality
-- constrained subproblem is posed on it. The blocks of the Hessian that quasi-Newton methods update
-- are given by a structure (src/main/hess_struct.c). Before the solver starts, the preprocessor fixes
-- variables and removes linear constraints, and keeps track of that in a state; afterwards it puts the fixed
-- values back. A step rule decides on trial points from the steps it accepted before. Callbacks of the user are
-- kept by a handler (src/main/callback_handler.c).
--
-- Files:
--   Base          numbers, lists and counted loops; `Outcome` is how a call ends (src/main/pub_types.h:
--                 SLEQP_RETCODE and SLEQP_ERROR_TYPE, and `assert`)
--   Double        what the code does with a `double`, and src/main/cmp.h and src/main/cmp.c
--   Vec           src/main/sparse/vec.c: the operations on one vector. Vec/Merge has the loops over two or
--                 three vectors: eq, dot, add_scaled, is_boxed, clip. Vec/Heads and Vec/Emit are lemmas
--                 on one round of such a loop. Vec/Sums, Dots, Clips, Clipping (with Tolerance and ClipLoop), Shapes, Raw,
--                 RoundTrip, Fills, Finite, Equals
--                 and Removal are
--                 about the operations.
--   Mat           src/main/sparse/mat.c: matrices stored column by column, how they are built, resized and
--                 stacked. Mat/Columns says when a matrix is well formed, Mat/Building is about push_col
--                 and push, Mat/Stack about vstack, Mat/Resizing about resize and pop_col, Mat/Removal
--                 is remove_rows, remove_cols and remove_entries, Mat/Products is at, col, mult_vec and
--                 mult_vec_trans, Mat/Transpose is trans, and Mat/Checks is is_valid, copy, eq, is_lower,
--                 is_finite and scale.
--   WorkingSet    src/main/working_set.c: create, reset, add_var, add_cons, add, eq, copy.
--                 WorkingSet/Checks is sleqp_working_set_valid, WorkingSet/Duals is supports_range,
--                 WorkingSet/Invariant says what a set is, WorkingSet/Moves is about one addition,
--                 WorkingSet/History about any sequence of them, and
--                 WorkingSet/Orderly about the sequences that return.
--   HessStruct    src/main/hess_struct.c: create, push_block, clear, block_range, lin_range, copy.
--   Feas          src/main/feas.c: how far the values of the constraints are beyond their bounds. The loop
--                 over values and bounds is `walk`; Feas/Walk and Feas/Pushed are about it, Feas/Values
--                 and Feas/Folds about the functions.
--   PreprocessingState
--                 src/main/preprocessor/preprocessing_state.c and .h: what the preprocessor found out about
--                 variables and linear constraints. PreprocessingState/Forcing is add_forcing_constraint,
--                 with Forcing/Accepted about when it returns and what it does,
--                 /Invariant says that the counters agree with the states, /Flush is about flush, and
--                 /History about any sequence of operations.
--   Preprocessing src/main/preprocessor/preprocessing.c: merging entries back into a vector.
--                 Preprocessing/Merged says what the loop of merge_entries pushes, Preprocessing/Restored is
--                 about that function and about sleqp_vec_remove_entries before it, and
--                 Preprocessing/Widened about add_zero_entries.
--   FixedVarFunc  src/main/preprocessor/fixed_var_func.c: the blocks of the Hessian when variables are fixed.
--                 FixedVarFunc/Counts is about the inner loop, /Moved and /Loop about the outer one.
--   StepWindow    src/main/step/step_rule_window.c: accepting steps by a window of past merit values.
--                 StepWindow/Indices is about `curr`, StepWindow/Ring about the arrays, StepWindow/RefLoop
--                 about the reference step and StepWindow/Reference about the historic reduction ratio.
--   CallbackHandler
--                 src/main/callback_handler.c: registration and removal of the callbacks of an event.
--
-- A C struct is a record, and an operation takes the old state and returns the new one. An array is a
-- list of its allocated length; of the arrays of a vector only the live part is kept, as the code never
-- reads the rest. The arrays of a matrix are functions from positions, as sleqp_mat_trans writes them out of
-- order; their lengths are nnz_max and num_cols + 1, which the assertions of the code guard.
-- So are the arrays of StepWindow, where `data_index` stays below their length. Memory from the allocator is a parameter, so nothing is known of its contents.
-- `int` is a natural number where the indices and counters that the operations take are not negative
-- and at most the length of an allocated array, so they cannot overflow; the sizes that an operation asks for
-- are taken to fit an `int`. The `curr` of StepWindow is bounded by no array: it is an integer,
-- and so are the indices made from it; an increment beyond INT_MAX, which is undefined in C, is a fault.
-- `double` is a parameter R with the operations of the record Double; a theorem names what it needs of
-- them, and most need nothing. The tests run over the integers.
--
-- The loops of Vec/Merge and Feas run on fuel: every round passes over at least one entry, so one more than the
-- number of all entries is enough.
-- All other loops are structural.
--
-- Assertions are modelled as failing calls, as in a build with assertions. Not modelled: the printers,
-- reference counts and the release of memory; failing allocations; the numerical parts of the solver,
-- which rest on third-party solvers.
pub mod Base
pub mod CallbackHandler
pub mod Double
pub mod Feas
pub mod FixedVarFunc
pub mod HessStruct
pub mod Mat
pub mod Preprocessing
pub mod PreprocessingState
pub mod StepWindow
pub mod Vec
pub mod WorkingSet
