-- ===== src/Vec/Merge.antt =====
-- The loops of vec.c that walk two or three vectors at once, in the order of their indices.
use sleqp.Base.{
  ℕ, zero, suc, ◌+◌, Bool, true, false, ◌&&◌, ◌||◌, not, Option, none, some, [], ◌∷◌, ltb, ◌==◌,
  if◌then◌else◌, Outcome, ok, timeout, ◌>>=◌, ◌>>◌, check,
}
use sleqp.Double.{Double, fmin, fmax, is_zero, is_eq}
use sleqp.Vec.{Entries, Vec, nnz, push, clear, reserve, resize, or_nought}

-- SLEQP_MIN and SLEQP_MAX on `int`.
abbrev pub smaller : ℕ → ℕ → ℕ
smaller a b = if ltb a b then a else b

abbrev pub larger : ℕ → ℕ → ℕ
larger a b = if ltb b a then a else b

module _ {R : Type 0} where
  abbrev pub is_nil : Entries R → Bool
  is_nil [] = true
  is_nil (e ∷ es) = false

  -- `valid ? indices[k] : sentinel`.
  abbrev pub head_index : ℕ → Entries R → ℕ
  head_index sentinel [] = sentinel
  head_index sentinel ((i, x) ∷ es) = i

  -- The value at the current position, if its index is the combined one.
  abbrev pub head_value : ℕ → Entries R → Option R
  head_value i [] = none
  head_value i ((k, x) ∷ es) = if k == i then some x else none

  -- `if (valid) ++k;`
  abbrev pub advance : ℕ → Entries R → Entries R
  advance i [] = []
  advance i ((k, x) ∷ es) = if k == i then es else (k, x) ∷ es

module _ {R : Type 0} ⦃d : Double R⦄ where
  open d use {nought, one, plus, times, lt}

  -- The loop of `sleqp_vec_eq`.
  unfoldable pub eq_loop : ℕ → R → ℕ → ℕ → Entries R → Entries R → Outcome Bool
  eq_loop zero eps s t xs ys = timeout
  eq_loop (suc fuel) eps s t xs ys = elim (is_nil xs && is_nil ys) [
    | true ↦ ok true
    | false ↦
        let i = smaller (head_index s xs) (head_index t ys) in
        let rest = eq_loop fuel eps s t (advance i xs) (advance i ys) in
        if not (is_eq (or_nought (head_value i xs)) (or_nought (head_value i ys)) eps)
        then ok false
        else rest
  ]

  unfoldable pub eq : Vec R → Vec R → R → Outcome Bool
  unfolding eq_loop
  eq first second eps = do
    check (first.dim == second.dim)
    eq_loop (suc (nnz first + nnz second)) eps (first.dim + 1) (second.dim + 1) first.entries
        second.entries

  -- The loop of `sleqp_vec_dot`.
  unfoldable pub dot_loop : R → Entries R → Entries R → R
  dot_loop product [] ys = product
  dot_loop product (e ∷ xs) [] = product
  dot_loop product ((i, x) ∷ xs) ((j, y) ∷ ys) = elim (i == j) [
    | true ↦ dot_loop (plus product (times x y)) xs ys
    | false ↦ elim (ltb i j) [
      | true ↦ dot_loop product xs ((j, y) ∷ ys)
      | false ↦ dot_loop product ((i, x) ∷ xs) ys
    ]
  ]

  unfoldable pub dot : Vec R → Vec R → Outcome R
  unfolding dot_loop
  dot first second = do
    check (first.dim == second.dim)
    ok (dot_loop nought first.entries second.entries)

  -- `if (valid) value += factor * data[k];`
  abbrev pub add_term : R → R → Option R → R
  add_term value factor none = value
  add_term value factor (some x) = plus value (times factor x)

  abbrev pub weighted : R → R → Option R → Option R → R
  weighted f g a b = add_term (add_term nought f a) g b

  -- `if (is_zero(value)) continue; push(…)`.
  abbrev pub push_unless_zero : R → Vec R → ℕ → R → Outcome (Vec R)
  push_unless_zero eps v i value = if is_zero value eps then ok v else push v i value

  -- The loop of `sleqp_vec_add_scaled`.
  unfoldable pub add_loop : ℕ → R → R → R → ℕ → ℕ → Entries R → Entries R → Vec R → Outcome (Vec R)
  add_loop zero f g eps s t xs ys v = timeout
  add_loop (suc fuel) f g eps s t xs ys v = elim (is_nil xs && is_nil ys) [
    | true ↦ ok v
    | false ↦
        let i = smaller (head_index s xs) (head_index t ys) in
        push_unless_zero eps v i (weighted f g (head_value i xs) (head_value i ys))
        >>= add_loop fuel f g eps s t (advance i xs) (advance i ys)
  ]

  unfoldable pub add_scaled : Vec R → Vec R → R → R → R → Vec R → Outcome (Vec R)
  unfolding add_loop clear resize reserve
  add_scaled first second f g eps result = do
    check (first.dim == second.dim)
    add_loop (suc (nnz first + nnz second)) f g eps (first.dim + 1) (second.dim + 1) first.entries
        second.entries (reserve (resize (clear result) first.dim) (nnz first + nnz second))

  unfoldable pub add : Vec R → Vec R → R → Vec R → Outcome (Vec R)
  unfolding add_scaled
  add first second eps result = add_scaled first second one one eps result

  -- The loop of `sleqp_vec_is_boxed`.
  unfoldable pub boxed_loop : ℕ → ℕ → Entries R → Entries R → Entries R → Outcome Bool
  boxed_loop zero s xs ls us = timeout
  boxed_loop (suc fuel) s xs ls us = elim (is_nil xs && is_nil ls && is_nil us) [
    | true ↦ ok true
    | false ↦
        let i = smaller (smaller (head_index s xs) (head_index s ls)) (head_index s us) in
        let x = or_nought (head_value i xs) in
        let lb = or_nought (head_value i ls) in
        let ub = or_nought (head_value i us) in
        let rest = boxed_loop fuel s (advance i xs) (advance i ls) (advance i us) in
        if lt x lb || lt ub x then ok false else rest
  ]

  unfoldable pub is_boxed : Vec R → Vec R → Vec R → Outcome Bool
  unfolding boxed_loop
  is_boxed x lb ub = do
    check (lb.dim == x.dim)
    check (ub.dim == x.dim)
    boxed_loop (suc (nnz x + nnz lb + nnz ub)) (x.dim + 1) x.entries lb.entries ub.entries

  abbrev pub clip_value : Option R → Option R → Option R → R
  clip_value x lb ub = fmax (fmin (or_nought x) (or_nought ub)) (or_nought lb)

  -- The loop of `sleqp_vec_clip`.
  unfoldable pub clip_loop : ℕ → R → ℕ → Entries R → Entries R → Entries R → Vec R → Outcome (Vec R)
  clip_loop zero eps s xs ls us v = timeout
  clip_loop (suc fuel) eps s xs ls us v = elim (is_nil xs && is_nil ls && is_nil us) [
    | true ↦ ok v
    | false ↦
        let i = smaller (smaller (head_index s ls) (head_index s us)) (head_index s xs) in
        push_unless_zero eps v i (clip_value (head_value i xs) (head_value i ls) (head_value i us))
        >>= clip_loop fuel eps s (advance i xs) (advance i ls) (advance i us)
  ]

  -- The room that `clip` reserves.
  abbrev pub clip_room : Vec R → Vec R → Vec R → ℕ
  clip_room x lb ub = smaller (larger (nnz lb) (nnz x) + larger (nnz ub) (nnz x)) x.dim

  unfoldable pub clip : Vec R → Vec R → Vec R → R → Vec R → Outcome (Vec R)
  unfolding clip_loop is_boxed clear reserve
  clip x lb ub eps xclip = do
    check (lb.dim == x.dim)
    check (ub.dim == x.dim)
    check (xclip.dim == x.dim)
    clipped ←
        clip_loop (suc (nnz x + nnz lb + nnz ub)) eps (x.dim + 1) x.entries lb.entries ub.entries
          (reserve (clear xclip) (clip_room x lb ub))
    boxed ← is_boxed clipped lb ub
    check boxed
    ok clipped
