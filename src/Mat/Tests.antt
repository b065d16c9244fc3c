-- ===== src/Mat/Tests.antt =====
-- The theorems on matrices at concrete inputs, over the integers.
use sleqp.Base.{
  ℕ, zero, suc, ◌≤◌, ◌<◌, ◌≡◌, ◌↔◌, ◌⊎◌, refl, true, false, [], ◌∷◌, arith, get_or, length, Outcome,
  ok, all_below,
}
use sleqp.Base.Int.{ℤ, pos}
use sleqp.Double.{int_double, is_zero, is_eq}
use sleqp.Vec.{Entries, Vec, at}
use sleqp.Vec.Entries as E
use sleqp.Vec.Entries.{InRange}
use sleqp.Mat.{Mat, column, vstack, push_vec, resize}
use sleqp.Mat.Columns.{IsValid}
use sleqp.Mat.Building.{Filling}
use sleqp.Mat.Stack.{stacked, vstack_lem}
use sleqp.Mat.Resizing.{resized_column, resize_mat}
use sleqp.Mat.Removal.{remove_cols, remove_entries}
use sleqp.Mat.Removal.Whole.{IsLeft, remove_entries_mat, remove_cols-remove_entries}
use sleqp.Mat.Products.{read_col}
use sleqp.Mat.Products.RoundTrip.{read_col-push_vec}
use sleqp.Mat.Checks.{is_valid, eq}
use sleqp.Mat.Checks.Order.{IsColumn, is_valid_mat_iff}
use sleqp.Mat.Checks.Equals.{close, eq-close}
use sleqp.Mat.Transpose.{trans}
use sleqp.Mat.Transpose.Whole.{trans_lem}

-- A matrix with two columns.
abbrev two_cols : (num_rows : ℕ) → (c1 c2 : ℕ) → Entries ℤ → Mat ℤ
two_cols num_rows c1 c2 entries = record {
  num_rows = num_rows;
  num_cols = 2;
  nnz = c2;
  nnz_max = length entries;
  cols = λ c. get_or (0 ∷ c1 ∷ c2 ∷ []) c 0;
  store = λ i. get_or entries i (9, pos 9);
}

two_cols-IsValid :
    (num_rows c1 c2 : ℕ) (entries : Entries ℤ)
    → let m = two_cols num_rows c1 c2 entries in
      c1 ≤ c2
      → c2 ≤ length entries
      → InRange 0 num_rows (column m 0)
      → InRange 0 num_rows (column m 1)
      → IsValid m
two_cols-IsValid num_rows c1 c2 entries le le' h0 h1 = record {
  start = refl;
  steps = λ c lt.
      elim c
          as (λ k.
            k < 2
            → (two_cols num_rows c1 c2 entries).cols k
              ≤ (two_cols num_rows c1 c2 entries).cols (suc k)) [
                | zero ↦ λ l. omega arith
                | suc k ↦ λ l.
                    elim k
                        as (λ k.
                          suc k < 2
                          → (two_cols num_rows c1 c2 entries).cols (suc k)
                            ≤ (two_cols num_rows c1 c2 entries).cols (suc (suc k))) [
                              | zero ↦ λ l. le
                              | suc k ↦ λ l. absurd (omega arith)
                            ]
                      l
              ]
        lt;
  in_range = λ c lt.
      elim c as (λ k. k < 2 → InRange 0 num_rows (column (two_cols num_rows c1 c2 entries) k)) [
        | zero ↦ λ l. h0
        | suc k ↦ λ l.
            elim k
                as (λ k.
                  suc k < 2
                  → InRange 0 num_rows (column (two_cols num_rows c1 c2 entries) (suc k))) [
                    | zero ↦ λ l. h1
                    | suc k ↦ λ l. absurd (omega arith)
                  ]
              l
      ]
        lt;
  whole = refl;
  fits = le';
}

-- The rows (1, 0), (0, 3), (2, 0).
abbrev upper : Mat ℤ
upper = two_cols 3 2 3 ((0, pos 1) ∷ (2, pos 2) ∷ (1, pos 3) ∷ [])

-- The row (0, 4).
abbrev lower : Mat ℤ
lower = two_cols 1 0 1 ((0, pos 4) ∷ [])

-- A matrix with leftovers in it.
abbrev leftovers : (num_rows : ℕ) → Mat ℤ
leftovers num_rows = two_cols num_rows 1 1 ((0, pos 7) ∷ [])

upper-IsValid : IsValid upper
upper-IsValid =
    two_cols-IsValid 3 2 3 ((0, pos 1) ∷ (2, pos 2) ∷ (1, pos 3) ∷ []) (omega arith) (omega arith)
      (ground arith) (ground arith)

lower-IsValid : IsValid lower
lower-IsValid =
    two_cols-IsValid 1 0 1 ((0, pos 4) ∷ []) (omega arith) (omega arith) (ground arith)
      (ground arith)

vstack_lem_example :
    (out : Mat ℤ) × (vstack upper lower (leftovers 1) ≡ ok out)
    × IsValid out
    × (out.num_rows ≡ 4)
    × (out.num_cols ≡ 2)
    × ((c : ℕ) → c < 2 → column out c ≡ stacked upper lower c)
vstack_lem_example =
    vstack_lem upper lower (leftovers 1) upper-IsValid lower-IsValid refl refl (omega arith)

remove_entries_mat_example :
    (out : Mat ℤ) × (remove_entries upper
        (record {
          num_rows = 2;
          num_cols = 1;
          nnz = 0;
          nnz_max = 0;
          cols = λ c. 0;
          store = λ i. (0, pos 0);
        })
        (1 ∷ [])
        (1 ∷ [])
      ≡ ok out)
    × IsLeft upper (1 ∷ []) (1 ∷ []) out
remove_entries_mat_example =
    remove_entries_mat upper
      (record {
        num_rows = 2;
        num_cols = 1;
        nnz = 0;
        nnz_max = 0;
        cols = λ c. 0;
        store = λ i. (0, pos 0);
      })
      (1 ∷ []) (1 ∷ []) upper-IsValid (omega arith, omega arith, omega arith)
      (omega arith, omega arith, omega arith) refl refl

remove_cols-remove_entries_example :
    remove_cols upper (leftovers 3) [] ≡ remove_entries upper (leftovers 3) [] []
remove_cols-remove_entries_example = remove_cols-remove_entries upper (leftovers 3) []

-- (5, 6)
abbrev weights : Vec ℤ
weights = record { entries = (0, pos 5) ∷ (1, pos 6) ∷ []; dim = 2; nnz_max = 2 }

-- (1, 0, 2)
abbrev tall : Vec ℤ
tall = record { entries = (0, pos 1) ∷ (2, pos 2) ∷ []; dim = 3; nnz_max = 2 }

tall-IsValid : E.IsValid tall
tall-IsValid = record { in_range = ground arith; fits = omega arith }

-- The upper part with its second column begun.
abbrev begun : Mat ℤ
begun = record {
  num_rows = 3;
  num_cols = 2;
  nnz = 1;
  nnz_max = 4;
  cols = λ c. get_or (0 ∷ 1 ∷ 1 ∷ []) c 0;
  store = λ i. (0, pos 1);
}

begun-Filling : Filling 1 (column begun) [] begun
begun-Filling = record {
  start = refl;
  steps = λ j lt.
      elim j as (λ k. k < 2 → begun.cols k ≤ begun.cols (suc k)) [
        | zero ↦ λ l. omega arith
        | suc k ↦ λ l.
            elim k as (λ k. suc k < 2 → begun.cols (suc k) ≤ begun.cols (suc (suc k))) [
              | zero ↦ λ m. omega arith
              | suc k ↦ λ m. absurd (omega arith)
            ]
              l
      ]
        lt;
  last = refl;
  there = λ j lt. refl;
  current = refl;
}

read_col-push_vec_example :
    (m' : Mat ℤ) × (out : Vec ℤ) × (push_vec begun 1 tall ≡ ok m')
    × (read_col m' 1 tall ≡ ok out)
    × ((i : ℕ) → at i out.entries ≡ at i tall.entries)
    × ((j : ℕ) → j < 1 → column m' j ≡ column begun j)
read_col-push_vec_example =
    read_col-push_vec begun 1 tall tall (column begun) (omega arith) tall-IsValid refl refl
      (omega arith) begun-Filling

trans_lem_example :
    (out : Mat ℤ) × (trans upper (leftovers 5) (λ i. 3) ≡ ok out)
    × IsValid out
    × (out.num_rows ≡ 2)
    × (out.num_cols ≡ 3)
    × ((r c : ℕ) → r < 3 → c < 2 → at c (column out r) ≡ at r (column upper c))
trans_lem_example = trans_lem upper (leftovers 5) (λ i. 3) upper-IsValid

is_valid_mat_iff_example : (is_valid upper ≡ true) ↔ (
    (upper.nnz ≤ upper.nnz_max)
    × ((upper.nnz ≡ 0) ⊎ (((c : ℕ) → c < 2 → IsColumn upper c) × (upper.cols 2 ≡ upper.nnz))))
is_valid_mat_iff_example = is_valid_mat_iff upper

upper_is_upper : eq upper upper (pos 0) ≡ ok true
unfolding eq all_below is_eq
upper_is_upper = refl

eq-close_example : close (pos 0) (at 2 (column upper 0)) (at 2 (column upper 0)) ≡ true
eq-close_example =
    eq-close (pos 0) upper upper upper-IsValid upper-IsValid upper_is_upper 0 2 (omega arith)

resize_mat_example :
    IsValid (resize upper 4 5)
    × ((resize upper 4 5).num_cols ≡ 5)
    × ((c : ℕ) → c < 5 → column (resize upper 4 5) c ≡ resized_column upper c)
resize_mat_example = resize_mat upper 4 5 upper-IsValid (omega arith)

-- An entry that is zero in front of one that both matrices have: `eq` compares the latter with zero.
eq_misses_zero :
    eq (two_cols 3 2 2 ((0, pos 0) ∷ (1, pos 5) ∷ [])) (two_cols 3 1 1 ((1, pos 5) ∷ [])) (pos 0)
    ≡ ok true
unfolding eq all_below is_eq is_zero
eq_misses_zero = refl

eq_misses :
    eq (two_cols 3 1 1 ((1, pos 5) ∷ [])) (two_cols 3 2 2 ((0, pos 0) ∷ (1, pos 5) ∷ [])) (pos 0)
    ≡ ok false
unfolding eq all_below is_eq is_zero
eq_misses = refl

-- The number of entries of a stacked matrix, whose array held more columns than it gets.
abbrev nnz_of : Outcome (Mat ℤ) → ℕ
nnz_of (ok m) = m.nnz
nnz_of o = 0

abbrev narrow : Mat ℤ
narrow = record {
  num_rows = 1;
  num_cols = 1;
  nnz = 1;
  nnz_max = 1;
  cols = λ c. get_or (0 ∷ 1 ∷ []) c 0;
  store = λ i. (0, pos 4);
}

stacked_behind_leftovers :
    nnz_of (vstack narrow narrow (two_cols 2 1 1 ((0, pos 7) ∷ (0, pos 7) ∷ (0, pos 7) ∷ []))) ≡ 3
unfolding vstack
stacked_behind_leftovers = refl
