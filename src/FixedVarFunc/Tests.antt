-- ===== src/FixedVarFunc/Tests.antt =====
-- The theorem on block structures at a concrete input.
use sleqp.Base.{ℕ, zero, suc, ◌<◌, ◌≤◌, ◌≡◌, refl, [], ◌∷◌, arith, ok}
use sleqp.HessStruct.{HessStruct, end_at}
use sleqp.HessStruct.Blocks.{IsValid}
use sleqp.HessStruct.Copies.{ends}
use sleqp.FixedVarFunc.{create_fixed_var_hess_struct}
use sleqp.FixedVarFunc.Moved.{moved_ends}
use sleqp.FixedVarFunc.Loop.{create_fixed_var_hess_struct_lem}

-- The blocks [0, 2), [2, 3) and [3, 4) of five variables.
abbrev blocks : HessStruct
blocks = record { refcount = 1; block_ends = 2 ∷ 3 ∷ 4 ∷ 9 ∷ 9 ∷ []; num_blocks = 3; dimension = 5 }

-- A structure of three variables, with leftovers in it.
abbrev reduced : HessStruct
reduced = record { refcount = 1; block_ends = 3 ∷ 8 ∷ 7 ∷ []; num_blocks = 1; dimension = 3 }

blocks-IsValid : IsValid blocks
blocks-IsValid = record { few = omega arith; room = refl; increasing = rising; bounded = bounds }
  where
    rising : (k : ℕ) → suc k < 3 → end_at blocks k < end_at blocks (suc k)
    rising zero lt = omega arith
    rising (suc zero) lt = omega arith
    rising (suc (suc k)) lt = absurd (omega arith)

    bounds : (k : ℕ) → k < 3 → end_at blocks k ≤ 5
    bounds zero lt = omega arith
    bounds (suc zero) lt = omega arith
    bounds (suc (suc zero)) lt = omega arith
    bounds (suc (suc (suc k))) lt = absurd (omega arith)

create_fixed_var_hess_struct_lem_example :
    (out : HessStruct) × (create_fixed_var_hess_struct blocks reduced (0 ∷ 2 ∷ []) ≡ ok out)
    × IsValid out
    × (out.dimension ≡ 3)
    × (ends out.num_blocks out ≡ moved_ends blocks (0 ∷ 2 ∷ []) 3 0)
create_fixed_var_hess_struct_lem_example =
    create_fixed_var_hess_struct_lem blocks reduced (0 ∷ 2 ∷ []) blocks-IsValid (ground arith) refl
      refl

-- The second block is gone, and the others have one variable each.
two_blocks : moved_ends blocks (0 ∷ 2 ∷ []) 3 0 ≡ 1 ∷ 2 ∷ []
two_blocks = refl
