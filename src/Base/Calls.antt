-- ===== src/Base/Calls.antt =====
-- How a call can end: `SLEQP_RETCODE` with the error type of `sleqp_raise`, and a failed `assert`.
use mathlib.Core.Path.{◌≡◌, refl}
use mathlib.Core.Logic.{◌≢◌}
use mathlib.Core.Bool.{Bool, true, false}

-- `SLEQP_ERROR_TYPE`.
pub data ErrorType : Type 0 where
  failed_assertion nomem internal_error func_eval_error : ErrorType
  callback_error math_error invalid_deriv illegal_argument : ErrorType

-- `ok` is SLEQP_OKAY with what the call leaves behind, `raise` is SLEQP_ERROR, `abort_time` is
-- SLEQP_ABORT_TIME, `fault` is an assertion that fails, an access behind an array or an `int` that
-- overflows, and `timeout` marks a loop that ran out of the model's fuel.
pub data Outcome {ℓ} (A : Type ℓ) : Type ℓ where
  ok : A → Outcome A
  raise : ErrorType → Outcome A
  abort_time : Outcome A
  fault : Outcome A
  timeout : Outcome A

-- `assert(b)`.
abbrev pub check : Bool → Outcome (Unit {0})
check true = ok tt
check false = fault

-- `if (b) sleqp_raise(e, …)`.
abbrev pub raise_if : Bool → ErrorType → Outcome (Unit {0})
raise_if false e = ok tt
raise_if true e = raise e

-- `SLEQP_CALL`: anything but SLEQP_OKAY is passed on.
infixl 5 ◌>>=◌
abbrev pub ◌>>=◌ {κ ℓ} :
    {State : Type κ} {Next : Type ℓ} → Outcome State → (State → Outcome Next) → Outcome Next
timeout >>= next = timeout
fault >>= next = fault
abort_time >>= next = abort_time
raise e >>= next = raise e
ok state >>= next = next state

infixl 5 ◌>>◌
abbrev pub ◌>>◌ {ℓ} :
    {State : Type ℓ} (test : Outcome (Unit {0})) (next : Outcome State) → Outcome State
test >> next = test >>= λ passed. next

pub ok-injective {ℓ} : {State : Type ℓ} {s t : State} → ok s ≡ ok t → s ≡ t
ok-injective h = cc

-- A chain that returns has returned from its first call.
pub >>=-eq-ok {κ ℓ} :
    {State : Type κ} {Next : Type ℓ} (call : Outcome State) (next : State → Outcome Next)
    {result : Next}
    → (call >>= next) ≡ ok result
    → (s : State) × (call ≡ ok s) × (next s ≡ ok result)
>>=-eq-ok timeout next h = cc
>>=-eq-ok fault next h = cc
>>=-eq-ok abort_time next h = cc
>>=-eq-ok (raise e) next h = cc
>>=-eq-ok (ok s) next h = (s, refl, h)

-- Likewise with an assertion.
pub >>-eq-ok {ℓ} :
    {State : Type ℓ} (test : Bool) (next : Outcome State) {s : State}
    → (check test >> next) ≡ ok s
    → (test ≡ true) × (next ≡ ok s)
>>-eq-ok false next h = cc
>>-eq-ok true next h = (refl, h)

pub ok-ne-fault {ℓ} : {State : Type ℓ} {s : State} → ok s ≢ fault
ok-ne-fault h = cc
