-- ===== src/CallbackHandler/Bags.antt =====
-- The handler as a bag of callbacks.
use sleqp.Base.{
  ℕ, zero, suc, ◌+◌, ◌-◌, ◌≤◌, ◌<◌, ◌≡◌, ◌⊎◌, inl, inr, refl, ap, sym, ◌∙◌, Bool, true, false, ◌&&◌,
  not, Option, none, some, List, [], ◌∷◌, ◌++◌, arith, ltb, leb, ◌==◌, if◌then◌else◌, one_if,
  length, length-append, length-set, get_or, set, take, take-snoc, take-set, ok, raise,
  illegal_argument, Bool-cases,
}
use sleqp.CallbackHandler.{
  Callback, null_callback, CallbackHandler, callback_at, get, next_capacity, reserve, add, same,
  find, take_out, remove,
}

-- The array has the length of the capacity, and room for the callbacks.
pub record IsValid (h : CallbackHandler) : Type 0 where
  pub fits : h.size ≤ h.capacity
  pub allocated : length h.callbacks ≡ h.capacity

-- The registered callbacks.
abbrev pub live : CallbackHandler → List Callback
live h = take h.size h.callbacks

-- How often a callback is registered.
abbrev pub times : Callback → List Callback → ℕ
times cb [] = 0
times cb (x ∷ xs) = one_if (same x cb) + times cb xs

take-append : (n : ℕ) (xs ys : List Callback) → n ≤ length xs → take n (xs ++ ys) ≡ take n xs
take-append zero xs ys h = refl
take-append (suc n) [] ys h = absurd (omega arith)
take-append (suc n) (x ∷ xs) ys h = ap (λ zs. x ∷ zs) (take-append n xs ys (omega arith))

take-set_behind :
    (n k : ℕ) (xs : List Callback) (v : Callback) → n ≤ k → take n (set xs k v) ≡ take n xs
take-set_behind zero k xs v h = refl
take-set_behind (suc n) k [] v h = refl
take-set_behind (suc n) zero (x ∷ xs) v h = absurd (omega arith)
take-set_behind (suc n) (suc k) (x ∷ xs) v h =
    ap (λ zs. x ∷ zs) (take-set_behind n k xs v (omega arith))

times-snoc :
    (cb x : Callback) (xs : List Callback)
    → times cb (xs ++ (x ∷ [])) ≡ times cb xs + one_if (same x cb)
times-snoc cb x [] = omega arith
times-snoc cb x (y ∷ ys) = omega (arith, times-snoc cb x ys)

-- A write exchanges one callback for another.
times-set :
    (cb v : Callback) (n k : ℕ) (xs : List Callback)
    → k < n
    → k < length xs
    → times cb (take n (set xs k v)) + one_if (same (get_or xs k null_callback) cb)
      ≡ times cb (take n xs) + one_if (same v cb)
times-set cb v zero k xs lt room = absurd (omega arith)
times-set cb v (suc n) k [] lt room = absurd (omega arith)
times-set cb v (suc n) zero (x ∷ xs) lt room = omega arith
times-set cb v (suc n) (suc k) (x ∷ xs) lt room =
    omega (arith, times-set cb v n k xs (omega arith) (omega arith))

reserved :
    (h : CallbackHandler) (memory : List Callback)
    → IsValid h
    → length memory ≡ next_capacity h - h.capacity
    → (out : CallbackHandler) × (reserve h memory ≡ ok out)
      × IsValid out
      × (out.size ≡ h.size)
      × (h.size < out.capacity)
      × (live out ≡ live h)
unfolding reserve
reserved h memory v new = elim (Bool-cases (ltb h.size h.capacity)) [
  | inl room ↦ (h, rw room, v, refl, ground arith, refl)
  | inr full ↦
      let enough : h.size < next_capacity h = ground (arith, v.fits) in
      let test : ltb h.size (next_capacity h) ≡ true = ground arith in
      let grows : h.capacity ≤ next_capacity h = ground arith in
      (
        record h { callbacks = h.callbacks ++ memory; capacity = next_capacity h },
        rw (full, test),
        record {
          fits = omega arith;
          allocated = length-append h.callbacks memory ∙ omega (arith, v.allocated, new);
        },
        refl,
        enough,
        take-append h.size h.callbacks memory (omega (arith, v.fits, v.allocated)),
      )
]

-- `add` to a valid handler returns, growing the array where it is full, keeps the handler valid, and
-- appends the callback to those that are registered. `memory` is what `realloc` puts behind the array.
pub live-add :
    (h : CallbackHandler) (memory : List Callback) (cb : Callback)
    → IsValid h
    → length memory ≡ next_capacity h - h.capacity
    → (out : CallbackHandler) × (add h memory cb ≡ ok out)
      × IsValid out
      × (live out ≡ live h ++ (cb ∷ []))
unfolding add
live-add h memory cb v new =
    let (r, runs, valid, same_size, room, kept) = reserved h memory v new in
    let space : r.size < length r.callbacks = omega (arith, valid.allocated, same_size) in
    let step : r.size + 1 ≡ suc r.size = omega arith in
    (
      record r { callbacks = set r.callbacks r.size cb; size = r.size + 1 },
      rw runs,
      record {
        fits = omega (arith, same_size);
        allocated = length-set r.callbacks r.size cb ∙ valid.allocated;
      },
      ap (λ n. take n (set r.callbacks r.size cb)) step
          ∙ take-set r.size r.callbacks cb space
          ∙ ap (λ xs. xs ++ (cb ∷ [])) kept,
    )

-- What the loop of `remove` finds.
data Search (h : CallbackHandler) (cb : Callback) (pos rounds : ℕ) : Option ℕ → Type 0 where
  found :
      (p : ℕ)
      → p < pos + rounds
      → same (callback_at h p) cb ≡ true
      → Search h cb pos rounds (some p)
  missing :
      ((k : ℕ) → leb pos k && ltb k (pos + rounds) && same (callback_at h k) cb ≡ false)
      → Search h cb pos rounds none

find_lem :
    (h : CallbackHandler) (cb : Callback) (rounds pos : ℕ)
    → Search h cb pos rounds (find h cb rounds pos)
unfolding find
find_lem h cb zero pos = missing (λ k. ground arith)
find_lem h cb (suc rounds) pos = elim (Bool-cases (same (callback_at h pos) cb)) [
  | inl here ↦ rw here (found pos (omega arith) here)
  | inr not_here ↦
      rw not_here (later (find h cb rounds (pos + 1)) (find_lem h cb rounds (pos + 1)) not_here)
]
  where
    later :
        (o : Option ℕ)
        → Search h cb (pos + 1) rounds o
        → same (callback_at h pos) cb ≡ false
        → Search h cb pos (suc rounds) o
    later o (found p lt e) differs = found p (omega arith) e
    later o (missing none_there) differs = missing (λ k. elim (Bool-cases (k == pos)) [
      | inl here ↦
          let e : k ≡ pos = ground arith in
          let unlike : same (callback_at h k) cb ≡ false =
            ap (λ q. same (callback_at h q) cb) e ∙ differs in
          ground arith
      | inr behind ↦
          let from : leb pos k ≡ leb (pos + 1) k = ground arith in
          let below : ltb k (pos + suc rounds) ≡ ltb k (pos + 1 + rounds) = ground arith in
          rw (from, below) (none_there k)
    ])

same_trans : (a b x : Callback) → same a b ≡ true → same a x ≡ same b x
same_trans a b x e = ground arith

take_out-IsValid : (h : CallbackHandler) (pos : ℕ) → IsValid h → IsValid (take_out h pos)
unfolding take_out
take_out-IsValid h pos v = record {
  fits = omega (arith, v.fits);
  allocated = sized (not (pos == h.size - 1));
}
  where
    sized :
        (b : Bool)
        → length (
            set
              (if b then set h.callbacks pos (callback_at h (h.size - 1)) else h.callbacks)
              (h.size - 1)
              null_callback)
          ≡ h.capacity
    sized true =
        length-set _ (h.size - 1) null_callback ∙ length-set h.callbacks pos _ ∙ v.allocated
    sized false = length-set h.callbacks (h.size - 1) null_callback ∙ v.allocated

-- What is left behind the removal at a position.
times-take_out :
    (h : CallbackHandler) (pos : ℕ) (x : Callback)
    → IsValid h
    → pos < h.size
    → times x (live h) ≡ times x (live (take_out h pos)) + one_if (same (callback_at h pos) x)
unfolding take_out
times-take_out h pos x v lt =
    let last = h.size - 1 in
    let n : suc last ≡ h.size = omega arith in
    let whole : times x (live h)
        ≡ times x (take last h.callbacks) + one_if (same (callback_at h last) x) =
      ap (λ k. times x (take k h.callbacks)) (sym n)
      ∙ ap (times x) (take-snoc last h.callbacks null_callback (omega (arith, v.fits, v.allocated)))
      ∙ times-snoc x (callback_at h last) (take last h.callbacks) in
    elim (Bool-cases (pos == last)) [
      | inl at_end ↦
          let e : pos ≡ last = ground arith in
          let gone = take-set_behind last last h.callbacks null_callback (omega arith) in
          rw (at_end, gone)
            (whole
              ∙ ap (λ k. times x (take last h.callbacks) + one_if (same (callback_at h k) x))
                  (sym e))
      | inr inside ↦
          let moved = set h.callbacks pos (callback_at h last) in
          let gone = take-set_behind last last moved null_callback (omega arith) in
          let swap =
            times-set x (callback_at h last) last pos h.callbacks (ground arith)
              (omega (arith, v.fits, v.allocated)) in
          rw (inside, gone) (omega (arith, whole, swap))
    ]

-- On a valid handler `remove` either takes out the callback: the handler stays valid, and every
-- callback is registered as often as before, but for the removed one, which is registered once less.
-- Or no registered callback is the given one, and SLEQP_ILLEGAL_ARGUMENT is raised.
pub remove_lem :
    (h : CallbackHandler) (cb : Callback)
    → IsValid h
    → ((out : CallbackHandler) × (remove h cb ≡ ok out)
        × IsValid out
        × ((x : Callback) → times x (live h) ≡ times x (live out) + one_if (same cb x)))
      ⊎ ((remove h cb ≡ raise illegal_argument)
          × ((k : ℕ) → ltb k h.size && same (callback_at h k) cb ≡ false))
unfolding remove
remove_lem h cb v = outcome (find h cb h.size 0) (find_lem h cb h.size 0)
  where
    outcome :
        (o : Option ℕ)
        → Search h cb 0 h.size o
        → ((out : CallbackHandler) × ((elim o [
          | none ↦ raise illegal_argument
          | some pos ↦ ok (take_out h pos)
        ])
              ≡ ok out)
            × IsValid out
            × ((x : Callback) → times x (live h) ≡ times x (live out) + one_if (same cb x)))
          ⊎ (((elim o [ none ↦ raise illegal_argument | some pos ↦ ok (take_out h pos) ])
                ≡ raise illegal_argument)
              × ((k : ℕ) → ltb k h.size && same (callback_at h k) cb ≡ false))
    outcome o (found p lt e) = inl (
      take_out h p,
      refl,
      take_out-IsValid h p v,
      λ x.
          times-take_out h p x v (omega arith)
          ∙ ap (λ b. times x (live (take_out h p)) + one_if b)
              (same_trans (callback_at h p) cb x e),
    )
    outcome o (missing none_there) = inr (
      refl,
      λ k.
          let from : leb 0 k ≡ true = ground arith in
          let below : ltb k (0 + h.size) ≡ ltb k h.size = ground arith in
          let here = none_there k in rw (from, below) at here,
    )

-- `get` returns the registered callback at a position below the size, and otherwise raises
-- SLEQP_ILLEGAL_ARGUMENT.
pub get_lem :
    (h : CallbackHandler) (pos : ℕ)
    → get h pos
      ≡ (if ltb pos h.size then ok (get_or (live h) pos null_callback) else raise illegal_argument)
unfolding get
get_lem h pos = elim (Bool-cases (ltb pos h.size)) [
  | inl below ↦
      let room : leb h.size pos ≡ false = ground arith in
      rw (below, room) (ap ok (sym (get_or-take h.size pos h.callbacks (ground arith))))
  | inr behind ↦ let full : leb h.size pos ≡ true = ground arith in rw (behind, full)
]
  where
    get_or-take :
        (n k : ℕ) (xs : List Callback)
        → k < n
        → get_or (take n xs) k null_callback ≡ get_or xs k null_callback
    get_or-take zero k xs lt = absurd (omega arith)
    get_or-take (suc n) k [] lt = refl
    get_or-take (suc n) zero (x ∷ xs) lt = refl
    get_or-take (suc n) (suc k) (x ∷ xs) lt = get_or-take n k xs (omega arith)
