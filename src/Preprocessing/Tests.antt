-- ===== src/Preprocessing/Tests.antt =====
-- The theorems on merging at concrete inputs, over the integers.
use sleqp.Base.{ℕ, ◌≡◌, refl, [], ◌∷◌, arith, if◌then◌else◌, is_some, ok, none, ◌-◌}
use sleqp.Base.Int.{ℤ, pos}
use sleqp.Vec.{Entries, Vec, at, remove_entries}
use sleqp.Vec.Entries.{IsValid}
use sleqp.Vec.Removal.{contains, count_lower}
use sleqp.Preprocessing.{merge_entries, add_zero_entries}
use sleqp.Preprocessing.Merged.{restored_at}
use sleqp.Preprocessing.Widened.{add_zero_entries_lem}
use sleqp.Preprocessing.Restored.{indices, merge_entries_lem, merge_entries-remove_entries}

-- (0, 3, 4)
abbrev small : Vec ℤ
small = record { entries = (1, pos 3) ∷ (2, pos 4) ∷ []; dim = 3; nnz_max = 2 }

-- (0, 7, 3, 4, 8)
abbrev fixed : Entries ℤ
fixed = (1, pos 7) ∷ (4, pos 8) ∷ []

abbrev large : Vec ℤ
large = record {
  entries = (1, pos 5) ∷ (2, pos 3) ∷ (3, pos 4) ∷ (4, pos 6) ∷ [];
  dim = 5;
  nnz_max = 4;
}

merge_entries_lem_example :
    (out : Vec ℤ) × (merge_entries small large fixed ≡ ok out)
    × IsValid out
    × (out.dim ≡ 5)
    × ((j : ℕ) → at j out.entries ≡ restored_at small.entries 0 fixed j)
merge_entries_lem_example =
    merge_entries_lem small large fixed (record { in_range = ground arith; fits = omega arith })
      (ground arith) refl

merge_entries-remove_entries_example :
    (reduced : Vec ℤ) × (out : Vec ℤ) × (remove_entries large small (indices fixed) ≡ ok reduced)
    × (merge_entries reduced large fixed ≡ ok out)
    × IsValid out
    × ((j : ℕ)
        → at j out.entries ≡ (if is_some (at j fixed) then at j fixed else at j large.entries))
merge_entries-remove_entries_example =
    merge_entries-remove_entries large small large fixed
      (record { in_range = ground arith; fits = omega arith }) (ground arith) refl refl

add_zero_entries_lem_example :
    (out : Vec ℤ) × (add_zero_entries small large (1 ∷ 4 ∷ []) ≡ ok out)
    × IsValid out
    × (out.dim ≡ 5)
    × ((j : ℕ)
        → at j out.entries ≡ (
            if contains (1 ∷ 4 ∷ []) j
            then none
            else at (j - count_lower (1 ∷ 4 ∷ []) j) small.entries))
add_zero_entries_lem_example =
    add_zero_entries_lem small large (1 ∷ 4 ∷ [])
      (record { in_range = ground arith; fits = omega arith }) (ground arith) refl
