-- ===== src/HessStruct.antt =====
-- src/main/hess_struct.c: the block structure of the Hessian of the Lagrangian.
pub mod Blocks
pub mod Copies
mod Tests
use sleqp.Base.{
  ℕ, zero, suc, ◌+◌, ◌-◌, Bool, true, false, ◌&&◌, not, List, [], ◌∷◌, ltb, leb, ◌==◌,
  if◌then◌else◌, length, get_or, set, Outcome, ok, ◌>>=◌, ◌>>◌, check, raise_if, illegal_argument,
}

-- `struct SleqpHessStruct`. The array has one entry for each dimension that it was created with;
-- its entries behind `num_blocks` are not initialised. Block indices are not negative.
pub record HessStruct : Type 0 where
  pub refcount : ℕ
  pub block_ends : List ℕ
  pub num_blocks : ℕ
  pub dimension : ℕ

-- The end of a block, where the array has it.
abbrev pub end_at : HessStruct → ℕ → ℕ
end_at h block = get_or h.block_ends block 0

-- A write behind the array is a fault.
pub push_block : HessStruct → ℕ → Outcome HessStruct
push_block h end = do
  raise_if (ltb h.dimension end) illegal_argument
  raise_if (leb h.dimension h.num_blocks) illegal_argument
  raise_if (ltb 0 h.num_blocks && leb end (end_at h (h.num_blocks - 1))) illegal_argument
  check (ltb h.num_blocks (length h.block_ends))
  ok (record h { block_ends = set h.block_ends h.num_blocks end; num_blocks = h.num_blocks + 1 })

-- `memory` is the array that the allocator hands out.
pub create : List ℕ → ℕ → Bool → Outcome HessStruct
unfolding push_block
create memory dimension empty =
    let h : HessStruct = record {
      refcount = 1;
      block_ends = memory;
      num_blocks = 0;
      dimension = dimension;
    } in
    if not empty && ltb 0 dimension then push_block h dimension else ok h

unfoldable pub clear : HessStruct → HessStruct
clear h = record h { num_blocks = 0 }

-- The begin and the end of a block. A read behind the array is a fault.
pub block_range : HessStruct → ℕ → Outcome (ℕ × ℕ)
block_range h block = do
  raise_if (ltb h.num_blocks block) illegal_argument
  check (ltb block (length h.block_ends))
  ok (if ltb 0 block then end_at h (block - 1) else 0, end_at h block)

pub lin_range : HessStruct → ℕ × ℕ
lin_range h = (if h.num_blocks == 0 then 0 else end_at h (h.num_blocks - 1), h.dimension)

-- The loop of `copy`, from a block on, with the number of rounds that are left.
pub copy_blocks : HessStruct → (rounds block : ℕ) → HessStruct → Outcome HessStruct
unfolding block_range push_block
copy_blocks source zero block target = ok target
copy_blocks source (suc rounds) block target = do
  range ← block_range source block
  target' ← push_block target range.1
  copy_blocks source rounds (block + 1) target'

pub copy : HessStruct → HessStruct → Outcome HessStruct
unfolding copy_blocks clear
copy source target =
    copy_blocks source source.num_blocks 0 (clear (record target { dimension = source.dimension }))
