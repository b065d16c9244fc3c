-- ===== src/HessStruct/Tests.antt =====
-- The theorems on Hessian structures at concrete inputs.
use sleqp.Base.{
  ℕ, zero, suc, ◌≤◌, ◌<◌, ◌≡◌, ◌↔◌, ◌⊎◌, refl, [], ◌∷◌, arith, ok, raise, illegal_argument,
}
use sleqp.HessStruct.{HessStruct, push_block, lin_range, copy, end_at}
use sleqp.HessStruct.Blocks.{IsValid, InBlock, blocks_partition}
use sleqp.HessStruct.Copies.{ends, copy-ends}

-- [0, 2), [2, 3), and the linear range [3, 5).
abbrev blocks : HessStruct
blocks = record { refcount = 1; block_ends = 2 ∷ 3 ∷ 9 ∷ 9 ∷ 9 ∷ []; num_blocks = 2; dimension = 5 }

abbrev other : HessStruct
other = record { refcount = 2; block_ends = 4 ∷ 0 ∷ 0 ∷ 0 ∷ 0 ∷ []; num_blocks = 1; dimension = 5 }

blocks-IsValid : IsValid blocks
blocks-IsValid = record {
  few = omega arith;
  room = refl;
  increasing = λ k lt. rises k lt;
  bounded = λ k lt. bounds k lt;
}
  where
    rises : (k : ℕ) → suc k < 2 → end_at blocks k < end_at blocks (suc k)
    rises zero lt = omega arith
    rises (suc k) lt = absurd (omega arith)

    bounds : (k : ℕ) → k < 2 → end_at blocks k ≤ 5
    bounds zero lt = omega arith
    bounds (suc zero) lt = omega arith
    bounds (suc (suc k)) lt = absurd (omega arith)

-- A block cannot end where the last one ended.
push_block_again : push_block blocks 3 ≡ raise illegal_argument
unfolding push_block
push_block_again = refl

blocks_partition_example :
    ((3 ≤ 2) × ((c : ℕ) → ¬ InBlock blocks c 2))
    ⊎ ((2 < 3) × ((b : ℕ) × ((c : ℕ) → InBlock blocks c 2 ↔ (c ≡ b))))
unfolding lin_range
blocks_partition_example = blocks_partition blocks 2 blocks-IsValid

copy-ends_example :
    (out : HessStruct) × (copy blocks other ≡ ok out)
    × IsValid out
    × (out.dimension ≡ 5)
    × (out.num_blocks ≡ 2)
    × (ends out.num_blocks out ≡ 2 ∷ 3 ∷ [])
    × (out.refcount ≡ 2)
copy-ends_example = copy-ends blocks other blocks-IsValid refl
