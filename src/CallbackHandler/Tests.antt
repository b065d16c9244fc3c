-- ===== src/CallbackHandler/Tests.antt =====
-- The theorems on callback handlers at concrete inputs.
use sleqp.Base.{
  ℕ, ◌+◌, ◌≡◌, ◌⊎◌, refl, false, ◌&&◌, List, [], ◌∷◌, arith, ltb, one_if, ok, raise,
  illegal_argument,
}
use sleqp.CallbackHandler.{add, Callback, null_callback, CallbackHandler, callback_at, same, remove}
use sleqp.CallbackHandler.Bags.{live-add, IsValid, live, times, remove_lem}

abbrev first : Callback
first = record { callback = 7; callback_data = 1 }

abbrev second : Callback
second = record { callback = 7; callback_data = 2 }

-- A full handler, where `first` is registered twice.
abbrev full : CallbackHandler
full = record {
  refcount = 1;
  size = 4;
  capacity = 4;
  callbacks = first ∷ second ∷ first ∷ second ∷ [];
}

full-IsValid : IsValid full
full-IsValid = record { fits = omega arith; allocated = refl }

abbrev memory : List Callback
memory = null_callback ∷ first ∷ null_callback ∷ null_callback ∷ []

live-add_example :
    (out : CallbackHandler) × (add full memory first ≡ ok out)
    × IsValid out
    × (live out ≡ first ∷ second ∷ first ∷ second ∷ first ∷ [])
live-add_example = live-add full memory first full-IsValid refl

remove_lem_example :
    ((out : CallbackHandler) × (remove full first ≡ ok out)
      × IsValid out
      × ((x : Callback) → times x (live full) ≡ times x (live out) + one_if (same first x)))
    ⊎ ((remove full first ≡ raise illegal_argument)
        × ((k : ℕ) → ltb k 4 && same (callback_at full k) first ≡ false))
remove_lem_example = remove_lem full first full-IsValid

-- The last callback takes the place of the first.
remove-first :
    remove full first
    ≡ ok (record full { size = 3; callbacks = second ∷ second ∷ first ∷ null_callback ∷ [] })
unfolding remove
remove-first = refl

remove-missing : remove full null_callback ≡ raise illegal_argument
unfolding remove
remove-missing = refl
