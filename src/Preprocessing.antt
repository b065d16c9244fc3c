-- ===== src/Preprocessing.antt =====
-- src/main/preprocessor/preprocessing.c: putting removed entries back into a vector.
pub mod Merged
pub mod Restored
pub mod Widened
mod Tests
use sleqp.Base.{
  ℕ, suc, ◌+◌, true, false, List, [], ◌∷◌, leb, ◌==◌, length, Outcome, ok, ◌>>=◌, ◌>>◌, check,
}
use sleqp.Vec.{Entries, Vec, nnz, push, clear, reserve}

module _ {R : Type 0} where
  -- The loops of `merge_entries`, at `entry_indices[k_f..)` and `entry_values[k_f..)`, with
  -- `offset` = `k_f`. Behind the last entry the second loop pushes what is left.
  pub merge_loop : Entries R → (offset : ℕ) → Entries R → Vec R → Outcome (Vec R)
  merge_loop [] offset [] v = ok v
  merge_loop [] offset ((i_f, y) ∷ fs) v = push v i_f y >>= merge_loop [] (suc offset) fs
  merge_loop ((i_v, x) ∷ es) offset [] v = push v (i_v + offset) x >>= merge_loop es offset []
  merge_loop ((i_v, x) ∷ es) offset ((i_f, y) ∷ fs) v = elim (leb i_f (i_v + offset)) [
    | true ↦ push v i_f y >>= merge_loop ((i_v, x) ∷ es) (suc offset) fs
    | false ↦ push v (i_v + offset) x >>= merge_loop es offset ((i_f, y) ∷ fs)
  ]

  -- `sleqp_preprocessing_merge_entries`, with the indices and values as one list.
  pub merge_entries : Vec R → Vec R → Entries R → Outcome (Vec R)
  unfolding merge_loop clear reserve
  merge_entries source target fixed = do
    let emptied = clear target
    check ((source.dim + length fixed) == emptied.dim)
    merge_loop source.entries 0 fixed (reserve emptied (nnz source + length fixed))

  -- The loop of `add_zero_entries`, at `entry_indices[k_f..)`, with `offset` = `k_f`.
  pub zero_loop : Entries R → (offset : ℕ) → List ℕ → Vec R → Outcome (Vec R)
  zero_loop [] offset is v = ok v
  zero_loop ((i, x) ∷ es) offset [] v = push v (i + offset) x >>= zero_loop es offset []
  zero_loop ((i, x) ∷ es) offset (f ∷ is) v = elim (leb f (i + offset)) [
    | true ↦ zero_loop ((i, x) ∷ es) (suc offset) is v
    | false ↦ push v (i + offset) x >>= zero_loop es offset (f ∷ is)
  ]

  -- `sleqp_preprocessing_add_zero_entries`.
  pub add_zero_entries : Vec R → Vec R → List ℕ → Outcome (Vec R)
  unfolding zero_loop clear reserve
  add_zero_entries source target is =
      zero_loop source.entries 0 is (reserve (clear target) (nnz source))
