-- ===== src/Base/Lists.antt =====
-- C arrays as lists with native indices, under the library's names.
use Prim.Native.Nat.{ℕ, zero, suc, ◌+◌, ◌≤◌, ◌<◌}
use mathlib.Core.Path.{◌≡◌, refl, ap, ap₂}
use mathlib.Core.Logic.{◌≢◌}
use mathlib.Core.List.{List, [], ◌∷◌, ◌++◌, map}
use mathlib.Core.Option.{Option, none, some}
use native.Mathlib.Omega.{arith}

module _ {ℓ} {A : Type ℓ} where
  abbrev pub length : List A → ℕ
  length [] = 0
  length (_ ∷ xs) = suc (length xs)

  abbrev pub get_elem? : List A → ℕ → Option A
  get_elem? [] _ = none
  get_elem? (x ∷ _) zero = some x
  get_elem? (_ ∷ xs) (suc i) = get_elem? xs i

  abbrev pub get_or : List A → ℕ → A → A
  get_or [] _ d = d
  get_or (x ∷ _) zero _ = x
  get_or (_ ∷ xs) (suc i) d = get_or xs i d

  -- A write out of bounds changes nothing.
  abbrev pub set : List A → ℕ → A → List A
  set [] _ _ = []
  set (_ ∷ xs) zero v = v ∷ xs
  set (x ∷ xs) (suc i) v = x ∷ set xs i v

  abbrev pub take : ℕ → List A → List A
  take zero _ = []
  take (suc n) [] = []
  take (suc n) (x ∷ xs) = x ∷ take n xs

  abbrev pub replicate : ℕ → A → List A
  replicate zero a = []
  replicate (suc n) a = a ∷ replicate n a

pub append_nil : {A : Type 0} (xs : List A) → xs ++ [] ≡ xs
append_nil [] = refl
append_nil (x ∷ xs) = ap (λ ys. x ∷ ys) (append_nil xs)

pub append_assoc : {A : Type 0} (xs ys zs : List A) → (xs ++ ys) ++ zs ≡ xs ++ (ys ++ zs)
append_assoc [] ys zs = refl
append_assoc (x ∷ xs) ys zs = ap (λ ws. x ∷ ws) (append_assoc xs ys zs)

module _ {ℓ} {A : Type ℓ} where
  pub length-append : (xs ys : List A) → length (xs ++ ys) ≡ length xs + length ys
  length-append [] ys = omega arith
  length-append (x ∷ xs) ys = omega (arith, length-append xs ys)

  pub length-set : (xs : List A) (i : ℕ) (v : A) → length (set xs i v) ≡ length xs
  length-set [] i v = refl
  length-set (x ∷ xs) zero v = refl
  length-set (x ∷ xs) (suc i) v = ap suc (length-set xs i v)

  pub length-replicate : (n : ℕ) (a : A) → length (replicate n a) ≡ n
  length-replicate zero a = refl
  length-replicate (suc n) a = ap suc (length-replicate n a)

  pub get_or-set_self :
      (xs : List A) (i : ℕ) (v d : A) → i < length xs → get_or (set xs i v) i d ≡ v
  get_or-set_self [] i v d h = absurd (omega arith)
  get_or-set_self (x ∷ xs) zero v d h = refl
  get_or-set_self (x ∷ xs) (suc i) v d h = get_or-set_self xs i v d (omega arith)

  pub get_or-set_ne :
      (xs : List A) (i j : ℕ) (v d : A) → i ≢ j → get_or (set xs i v) j d ≡ get_or xs j d
  get_or-set_ne [] i j v d h = refl
  get_or-set_ne (x ∷ xs) zero zero v d h = absurd (h refl)
  get_or-set_ne (x ∷ xs) zero (suc j) v d h = refl
  get_or-set_ne (x ∷ xs) (suc i) zero v d h = refl
  get_or-set_ne (x ∷ xs) (suc i) (suc j) v d h = get_or-set_ne xs i j v d (λ e. h (ap suc e))

  pub get_or-replicate : (n i : ℕ) (a d : A) → i < n → get_or (replicate n a) i d ≡ a
  get_or-replicate zero i a d h = absurd (omega arith)
  get_or-replicate (suc n) zero a d h = refl
  get_or-replicate (suc n) (suc i) a d h = get_or-replicate n i a d (omega arith)

module _ {ℓ} {A : Type ℓ} where
  pub take-snoc :
      (n : ℕ) (xs : List A) (d : A)
      → n < length xs
      → take (suc n) xs ≡ take n xs ++ (get_or xs n d ∷ [])
  take-snoc n [] d h = absurd (omega arith)
  take-snoc zero (x ∷ xs) d h = refl
  take-snoc (suc n) (x ∷ xs) d h = ap (λ ys. x ∷ ys) (take-snoc n xs d (omega arith))

  pub take-set :
      (n : ℕ) (xs : List A) (v : A)
      → n < length xs
      → take (suc n) (set xs n v) ≡ take n xs ++ (v ∷ [])
  take-set n [] v h = absurd (omega arith)
  take-set zero (x ∷ xs) v h = refl
  take-set (suc n) (x ∷ xs) v h = ap (λ ys. x ∷ ys) (take-set n xs v (omega arith))

module _ {ℓ} {A : Type ℓ} where
  -- for (j = 0; j < n; ++j) xs[j] = a;
  abbrev pub fill : ℕ → A → List A → List A
  fill zero a xs = xs
  fill (suc n) a [] = []
  fill (suc n) a (x ∷ xs) = a ∷ fill n a xs

  -- for (j = 0; j < n; ++j) target[j] = source[j];
  abbrev pub copy_into : ℕ → List A → List A → List A
  copy_into zero source target = target
  copy_into (suc n) [] target = target
  copy_into (suc n) (x ∷ xs) [] = []
  copy_into (suc n) (x ∷ xs) (y ∷ ys) = x ∷ copy_into n xs ys

  pub length-fill : (n : ℕ) (a : A) (xs : List A) → length (fill n a xs) ≡ length xs
  length-fill zero a xs = refl
  length-fill (suc n) a [] = refl
  length-fill (suc n) a (x ∷ xs) = ap suc (length-fill n a xs)

  pub get_or-fill :
      (n : ℕ) (a : A) (xs : List A) (j : ℕ) (d : A)
      → j < n
      → n ≤ length xs
      → get_or (fill n a xs) j d ≡ a
  get_or-fill zero a xs j d h l = absurd (omega arith)
  get_or-fill (suc n) a [] j d h l = absurd (omega arith)
  get_or-fill (suc n) a (x ∷ xs) zero d h l = refl
  get_or-fill (suc n) a (x ∷ xs) (suc j) d h l = get_or-fill n a xs j d (omega arith) (omega arith)

  pub get_or-fill_all :
      (n : ℕ) (a : A) (xs : List A) (j : ℕ) → length xs ≡ n → get_or (fill n a xs) j a ≡ a
  get_or-fill_all zero a [] j l = refl
  get_or-fill_all zero a (x ∷ xs) j l = absurd (omega arith)
  get_or-fill_all (suc n) a [] j l = absurd (omega arith)
  get_or-fill_all (suc n) a (x ∷ xs) zero l = refl
  get_or-fill_all (suc n) a (x ∷ xs) (suc j) l = get_or-fill_all n a xs j (omega arith)

  pub copy_into_whole :
      (n : ℕ) (xs ys : List A) → length xs ≡ n → length ys ≡ n → copy_into n xs ys ≡ xs
  copy_into_whole zero [] [] h l = refl
  copy_into_whole zero [] (y ∷ ys) h l = absurd (omega arith)
  copy_into_whole zero (x ∷ xs) ys h l = absurd (omega arith)
  copy_into_whole (suc n) [] ys h l = absurd (omega arith)
  copy_into_whole (suc n) (x ∷ xs) [] h l = absurd (omega arith)
  copy_into_whole (suc n) (x ∷ xs) (y ∷ ys) h l =
      ap (λ zs. x ∷ zs) (copy_into_whole n xs ys (omega arith) (omega arith))

pub length-map {ℓ κ} :
    {A : Type ℓ} {B : Type κ} (f : A → B) (xs : List A) → length (map f xs) ≡ length xs
length-map f [] = refl
length-map f (x ∷ xs) = ap suc (length-map f xs)

-- Two arrays of one length with the same entries are one.
pub get_or_ext {ℓ} :
    {A : Type ℓ} (d : A) (n : ℕ) (xs ys : List A)
    → length xs ≡ n
    → length ys ≡ n
    → ((j : ℕ) → j < n → get_or xs j d ≡ get_or ys j d)
    → xs ≡ ys
get_or_ext d zero [] [] hx hy h = refl
get_or_ext d zero [] (y ∷ ys) hx hy h = absurd (omega arith)
get_or_ext d zero (x ∷ xs) ys hx hy h = absurd (omega arith)
get_or_ext d (suc n) [] ys hx hy h = absurd (omega arith)
get_or_ext d (suc n) (x ∷ xs) [] hx hy h = absurd (omega arith)
get_or_ext d (suc n) (x ∷ xs) (y ∷ ys) hx hy h =
    ap₂ ◌∷◌ (h 0 (omega arith))
      (get_or_ext d n xs ys (omega arith) (omega arith) (λ j lt. h (suc j) (omega arith)))
