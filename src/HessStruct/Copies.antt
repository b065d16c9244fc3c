-- ===== src/HessStruct/Copies.antt =====
-- `sleqp_hess_struct_copy`.
use sleqp.Base.{
  ℕ, zero, suc, ◌+◌, ◌-◌, ◌<◌, ◌≡◌, refl, ap, sym, ◌∙◌, true, List, [], ◌∷◌, ◌++◌, arith, length,
  set, take, take-snoc, take-set, ok, Bool-cases, inl, inr, subst, ◌==◌, get_or-set_self,
}
use sleqp.HessStruct.{HessStruct, end_at, clear, copy_blocks, copy}
use sleqp.HessStruct.Blocks.{IsValid, with_block, can_push, push_block_lem, block_range_lem}

-- The ends of the first blocks.
abbrev pub ends : ℕ → HessStruct → List ℕ
ends n h = take n h.block_ends

-- The target of the loop of `copy` before the round for `block`.
record IsPartial (source : HessStruct) (block : ℕ) (target : HessStruct) : Type 0 where
  valid : IsValid target
  same_dim : target.dimension ≡ source.dimension
  reached : target.num_blocks ≡ block
  same_ends : ends block target ≡ ends block source
  last : 0 < block → end_at target (block - 1) ≡ end_at source (block - 1)

can_push_next :
    (source target : HessStruct) (block : ℕ)
    → IsValid source
    → IsPartial source block target
    → block < source.num_blocks
    → can_push target (end_at source block) ≡ true
can_push_next source target block v p lt = elim (Bool-cases (block == 0)) [
  | inl first ↦ ground (arith, v.bounded block lt, v.few, p.same_dim, p.reached)
  | inr later ↦
      let prev : suc (block - 1) ≡ block = ground arith in
      let rise : end_at source (block - 1) < end_at source block =
        subst (λ k. end_at source (block - 1) < end_at source k) prev
          (v.increasing (block - 1) (omega arith)) in
      let tail : end_at target (target.num_blocks - 1) ≡ end_at source (block - 1) =
        ap (λ n. end_at target (n - 1)) p.reached ∙ p.last (omega arith) in
      ground (arith, v.bounded block lt, v.few, p.same_dim, p.reached)
]

next-IsPartial :
    (source target : HessStruct) (block : ℕ)
    → IsValid source
    → IsPartial source block target
    → block < source.num_blocks
    → IsValid (with_block target (end_at source block))
    → IsPartial source (block + 1) (with_block target (end_at source block))
next-IsPartial source target block v p lt valid =
    let e = end_at source block in
    let step : block + 1 ≡ suc block = omega arith in
    let written : with_block target e
        ≡ record target { block_ends = set target.block_ends block e; num_blocks = block + 1 } =
      ap (λ n. record target { block_ends = set target.block_ends n e; num_blocks = n + 1 })
        p.reached in
    let room : block < length target.block_ends = omega (arith, p.valid.room, p.same_dim, v.few) in
    let back : block + 1 - 1 ≡ block = omega arith in
    let taken : take (suc block) (set target.block_ends block e)
        ≡ take (suc block) source.block_ends =
      take-set block target.block_ends e room
      ∙ ap (λ xs. xs ++ (e ∷ [])) p.same_ends
      ∙ sym (take-snoc block source.block_ends 0 (omega (arith, v.room, v.few))) in
    let new_end : end_at (with_block target e) block ≡ e =
      ap (λ h. end_at h block) written ∙ get_or-set_self target.block_ends block e 0 room in
    record {
      valid = valid;
      same_dim = p.same_dim;
      reached = ap (λ n. n + 1) p.reached;
      same_ends =
          ap (λ h. ends (block + 1) h) written
          ∙ ap (λ n. take n (set target.block_ends block e)) step
          ∙ taken
          ∙ ap (λ n. take n source.block_ends) (sym step);
      last = λ some_block.
          ap (end_at (with_block target e)) back ∙ new_end ∙ ap (end_at source) (sym back);
    }

copy_blocks_lem :
    (source : HessStruct) (rounds block : ℕ) (target : HessStruct)
    → IsValid source
    → IsPartial source block target
    → block + rounds ≡ source.num_blocks
    → (out : HessStruct) × (copy_blocks source rounds block target ≡ ok out)
      × IsPartial source source.num_blocks out
      × (out.refcount ≡ target.refcount)
unfolding copy_blocks
copy_blocks_lem source zero block target v p e =
    (target, refl, subst (λ n. IsPartial source n target) (omega arith) p, refl)
copy_blocks_lem source (suc rounds) block target v p e =
    let lt : block < source.num_blocks = omega arith in
    let range = block_range_lem source block v lt in
    let can = can_push_next source target block v p lt in
    elim (push_block_lem target (end_at source block) p.valid) [
      | inl (_, runs, valid) ↦
          let (out, rest, whole, refs) =
            copy_blocks_lem source rounds (block + 1) (with_block target (end_at source block)) v
              (next-IsPartial source target block v p lt valid) (omega arith) in
          (out, rw (range, runs) rest, whole, refs)
      | inr (cannot, _) ↦ absurd (ground arith)
    ]

-- `copy` of a valid structure into one whose array was allocated for the same dimension returns,
-- whatever the target held: the target is valid, keeps its reference count, and has the dimension,
-- the number and the ends of the blocks of the source.
pub copy-ends :
    (source target : HessStruct)
    → IsValid source
    → length target.block_ends ≡ source.dimension
    → (out : HessStruct) × (copy source target ≡ ok out)
      × IsValid out
      × (out.dimension ≡ source.dimension)
      × (out.num_blocks ≡ source.num_blocks)
      × (ends out.num_blocks out ≡ ends source.num_blocks source)
      × (out.refcount ≡ target.refcount)
unfolding copy clear
copy-ends source target v room =
    let start : HessStruct = clear (record target { dimension = source.dimension }) in
    let (out, runs, whole, refs) =
      copy_blocks_lem source source.num_blocks 0 start v
        (record {
          valid = record {
            few = omega arith;
            room = room;
            increasing = λ k lt. absurd (omega arith);
            bounded = λ k lt. absurd (omega arith);
          };
          same_dim = refl;
          reached = refl;
          same_ends = refl;
          last = λ some_block. absurd (omega arith);
        })
        (omega arith) in
    (
      out,
      runs,
      whole.valid,
      whole.same_dim,
      whole.reached,
      ap (λ n. ends n out) whole.reached ∙ whole.same_ends,
      refs,
    )
