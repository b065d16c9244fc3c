-- ===== src/CallbackHandler.antt =====
-- src/main/callback_handler.c: the callbacks that are registered for an event.
pub mod Bags
mod Tests
use sleqp.Base.{
  ℕ, zero, suc, ◌+◌, ◌-◌, ◌*◌, Bool, true, false, ◌&&◌, ◌||◌, not, Option, none, some, List, [],
  ◌∷◌, ◌++◌, ltb, leb, ◌==◌, if◌then◌else◌, length, get_or, set, Outcome, ok, raise, ◌>>=◌, ◌>>◌,
  check, raise_if, illegal_argument,
}

-- The two pointers are numbers, and NULL is 0.
pub record Callback : Type 0 where
  pub callback : ℕ
  pub callback_data : ℕ

abbrev pub null_callback : Callback
null_callback = record { callback = 0; callback_data = 0 }

-- `struct SleqpCallbackHandler`. The list is the allocated array.
pub record CallbackHandler : Type 0 where
  pub refcount : ℕ
  pub size : ℕ
  pub capacity : ℕ
  pub callbacks : List Callback

abbrev pub callback_at : CallbackHandler → ℕ → Callback
callback_at h pos = get_or h.callbacks pos null_callback

pub create : CallbackHandler
create = record { refcount = 1; size = 0; capacity = 0; callbacks = [] }

pub get : CallbackHandler → ℕ → Outcome Callback
get h pos = do raise_if (leb h.size pos) illegal_argument; ok (callback_at h pos)

-- SLEQP_MAX(1, 2 * capacity).
abbrev pub next_capacity : CallbackHandler → ℕ
next_capacity h = if ltb (2 * h.capacity) 1 then 1 else 2 * h.capacity

-- `memory` is what `realloc` puts behind the old array.
pub reserve : CallbackHandler → List Callback → Outcome CallbackHandler
reserve h memory = if ltb h.size h.capacity then ok h else do
  check (ltb h.size (next_capacity h))
  ok (record h { callbacks = h.callbacks ++ memory; capacity = next_capacity h })

pub add : CallbackHandler → List Callback → Callback → Outcome CallbackHandler
unfolding reserve
add h memory cb = do
  roomy ← reserve h memory
  ok (record roomy { callbacks = set roomy.callbacks roomy.size cb; size = roomy.size + 1 })

abbrev pub same : Callback → Callback → Bool
same a b = (a.callback == b.callback) && (a.callback_data == b.callback_data)

-- The loop of `remove` from `pos` on: the position where it breaks.
pub find : CallbackHandler → Callback → (rounds pos : ℕ) → Option ℕ
find h cb zero pos = none
find h cb (suc rounds) pos =
    let rest = find h cb rounds (pos + 1) in if same (callback_at h pos) cb then some pos else rest

-- The part of `remove` behind the loop.
pub take_out : CallbackHandler → ℕ → CallbackHandler
take_out h pos =
    let last = h.size - 1 in
    let moved =
      if not (pos == last) then set h.callbacks pos (callback_at h last) else h.callbacks in
    record h { size = last; callbacks = set moved last null_callback }

pub remove : CallbackHandler → Callback → Outcome CallbackHandler
unfolding find take_out
remove h cb = elim (find h cb h.size 0) [
  | none ↦ raise illegal_argument
  | some pos ↦ ok (take_out h pos)
]
