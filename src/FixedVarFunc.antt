-- ===== src/FixedVarFunc.antt =====
-- src/main/preprocessor/fixed_var_func.c: the block structure of a function with fixed variables.
pub mod Counts
pub mod Moved
pub mod Loop
mod Tests
use sleqp.Base.{
  ℕ, zero, suc, ◌+◌, ◌-◌, true, false, List, [], ◌∷◌, ◌==◌, if◌then◌else◌, Outcome, ok, ◌>>=◌,
}
use sleqp.HessStruct.{HessStruct, clear, block_range, push_block}

-- The loop over the indices of a block, from `j` on: the fixed indices behind `fixed_pos` and
-- `next_offset` at its end.
pub count_fixed : (rounds j : ℕ) → List ℕ → (next_offset : ℕ) → List ℕ × ℕ
count_fixed zero j fs next_offset = (fs, next_offset)
count_fixed (suc rounds) j [] next_offset = count_fixed rounds (suc j) [] next_offset
count_fixed (suc rounds) j (f ∷ fs) next_offset = elim (f == j) [
  | true ↦ count_fixed rounds (suc j) fs (suc next_offset)
  | false ↦ count_fixed rounds (suc j) (f ∷ fs) next_offset
]

-- The loop of `create_fixed_var_hess_struct`, from a block on.
pub shrink_blocks :
    HessStruct → (rounds block : ℕ) → List ℕ → (offset : ℕ) → HessStruct → Outcome HessStruct
unfolding count_fixed
shrink_blocks source zero block fs offset target = ok target
shrink_blocks source (suc rounds) block fs offset target = do
  range ← block_range source block
  let left = count_fixed (range.1 - range.0) range.0 fs offset
  let target_end = range.1 - left.1
  next ← if range.0 - offset == target_end then ok target else push_block target target_end
  shrink_blocks source rounds (block + 1) left.0 left.1 next

-- `create_fixed_var_hess_struct`.
pub create_fixed_var_hess_struct : HessStruct → HessStruct → List ℕ → Outcome HessStruct
unfolding shrink_blocks clear
create_fixed_var_hess_struct source target fixed_indices =
    shrink_blocks source source.num_blocks 0 fixed_indices 0 (clear target)
