-- ===== src/FixedVarFunc/Moved.antt =====
-- `create_fixed_var_hess_struct` against the blocks counted directly.
use sleqp.Base.{
  ℕ, zero, suc, ◌+◌, ◌-◌, ◌≤◌, ◌<◌, ◌≡◌, ap, subst, ◌∙◌, true, false, List, [], ◌∷◌, ◌++◌, arith,
  ltb, ◌==◌, if◌then◌else◌, length, set, take, take-set, Bool-cases, inl, inr, get_or-set_self,
}
use sleqp.HessStruct.{HessStruct, end_at}
use sleqp.HessStruct.Blocks.{IsValid, with_block, can_push, begin_at, covered}
use sleqp.HessStruct.Copies.{ends}
use sleqp.Vec.Removal.{IsIncreasing, count_lower}
use sleqp.FixedVarFunc.{count_fixed}
use sleqp.FixedVarFunc.Counts.{
  count_lower_slack, count_lower_all, count_lower_zero, count_fixed_lem,
}

-- An index, moved down by the number of fixed indices below it.
abbrev pub moved : List ℕ → ℕ → ℕ
moved fs i = i - count_lower fs i

-- The moved ends of the blocks from `block` on that keep an index.
abbrev pub moved_ends : HessStruct → List ℕ → (rounds block : ℕ) → List ℕ
moved_ends h fs zero block = []
moved_ends h fs (suc rounds) block =
    let rest = moved_ends h fs rounds (block + 1) in
    if moved fs (begin_at h block) == moved fs (end_at h block)
    then rest
    else moved fs (end_at h block) ∷ rest

begin_at-le :
    (h : HessStruct) (block : ℕ)
    → IsValid h
    → block < h.num_blocks
    → begin_at h block ≤ end_at h block
begin_at-le h block v lt = elim (Bool-cases (ltb 0 block)) [
  | inl later ↦
      let prev : suc (block - 1) ≡ block = ground arith in
      let rise : end_at h (block - 1) < end_at h block =
        subst (λ k. end_at h (block - 1) < end_at h k) prev
          (v.increasing (block - 1) (omega arith)) in
      rw later (omega (arith, rise))
  | inr first ↦ rw first (omega arith)
]

-- The loop before the round for `block`.
pub record Stage (source : HessStruct) (fs : List ℕ) (target : HessStruct) (block : ℕ)
    (rest : List ℕ) (offset : ℕ) : Type 0 where
  pub valid : IsValid target
  pub counted : offset ≡ count_lower fs (begin_at source block)
  pub increasing : IsIncreasing (begin_at source block) source.dimension rest
  pub later : (k : ℕ) → begin_at source block ≤ k → count_lower fs k ≡ offset + count_lower rest k
  pub reached : covered target ≡ moved fs (begin_at source block)
  pub small : target.num_blocks ≤ covered target
  pub dims : target.dimension + length fs ≡ source.dimension

-- The counts at the end of a block, from those at its begin.
pub record Round (source : HessStruct) (fs : List ℕ) (block : ℕ) (left : List ℕ × ℕ) : Type 0 where
  pub counted : left.1 ≡ count_lower fs (end_at source block)
  pub increasing : IsIncreasing (end_at source block) source.dimension left.0
  pub later : (k : ℕ) → end_at source block ≤ k → count_lower fs k ≡ left.1 + count_lower left.0 k

pub round_lem :
    (source : HessStruct) (fs : List ℕ) (target : HessStruct) (block : ℕ) (rest : List ℕ)
    (offset : ℕ)
    → IsValid source
    → block < source.num_blocks
    → Stage source fs target block rest offset
    → Round source fs block (
        count_fixed
          (end_at source block - begin_at source block)
          (begin_at source block)
          rest
          offset)
round_lem source fs target block rest offset v lt s =
    let b = begin_at source block in
    let e = end_at source block in
    let le : b ≤ e = begin_at-le source block v lt in
    let c =
      count_fixed_lem (e - b) b e source.dimension rest offset s.increasing (omega (arith, le))
        (v.bounded block lt) in
    record {
      counted = omega (arith, c.total, s.later e le);
      increasing = c.increasing;
      later = λ k l. omega (arith, c.total, s.later k (omega (arith, le)), c.later k l);
    }

moved_mono : (fs : List ℕ) (n b e : ℕ) → IsIncreasing 0 n fs → b ≤ e → moved fs b ≤ moved fs e
moved_mono fs n b e h le =
    let slack = count_lower_slack 0 n fs b e h le in
    let low = count_lower_slack 0 n fs 0 b h (omega arith) in
    omega (arith, slack, low, count_lower_zero 0 n fs h)

moved-le : (fs : List ℕ) (n e : ℕ) → IsIncreasing 0 n fs → e ≤ n → moved fs e + length fs ≤ n
moved-le fs n e h le =
    let slack = count_lower_slack 0 n fs e n h le in
    let low = count_lower_slack 0 n fs 0 e h (omega arith) in
    omega (arith, slack, low, count_lower_zero 0 n fs h, count_lower_all 0 n fs n h (omega arith))

-- A block that keeps an index ends behind those that were pushed.
pub rises :
    (source : HessStruct) (fs : List ℕ) (target : HessStruct) (block : ℕ) (rest : List ℕ)
    (offset : ℕ)
    → IsValid source
    → IsIncreasing 0 source.dimension fs
    → block < source.num_blocks
    → Stage source fs target block rest offset
    → (moved fs (begin_at source block) == moved fs (end_at source block)) ≡ false
    → covered target < moved fs (end_at source block)
rises source fs target block rest offset v inc lt s ne =
    let b = begin_at source block in
    let e = end_at source block in
    let mono : moved fs b ≤ moved fs e =
      moved_mono fs source.dimension b e inc (begin_at-le source block v lt) in
    let r = s.reached in
    let strict : moved fs b < moved fs e = ground arith in omega (arith, r, strict)

-- It can be pushed.
pub can_push-moved :
    (source : HessStruct) (fs : List ℕ) (target : HessStruct) (block : ℕ) (rest : List ℕ)
    (offset : ℕ)
    → IsValid source
    → IsIncreasing 0 source.dimension fs
    → block < source.num_blocks
    → Stage source fs target block rest offset
    → covered target < moved fs (end_at source block)
    → can_push target (moved fs (end_at source block)) ≡ true
can_push-moved source fs target block rest offset v inc lt s less =
    let te = moved fs (end_at source block) in
    let low : te + length fs ≤ source.dimension =
      moved-le fs source.dimension (end_at source block) inc (v.bounded block lt) in
    let fits : te ≤ target.dimension = omega (arith, s.dims, low) in
    let few : target.num_blocks < target.dimension = omega (arith, s.small) in ground arith

-- The ends after a push.
pub ends-with_block :
    (h : HessStruct) (end : ℕ)
    → IsValid h
    → h.num_blocks < h.dimension
    → ends (h.num_blocks + 1) (with_block h end) ≡ ends h.num_blocks h ++ (end ∷ [])
ends-with_block h end v lt =
    let step : h.num_blocks + 1 ≡ suc h.num_blocks = omega arith in
    ap (λ n. take n (set h.block_ends h.num_blocks end)) step
    ∙ take-set h.num_blocks h.block_ends end (omega (arith, v.room))

pub covered-with_block :
    (h : HessStruct) (end : ℕ)
    → IsValid h
    → h.num_blocks < h.dimension
    → covered (with_block h end) ≡ end
covered-with_block h end v lt =
    let t : (h.num_blocks + 1 == 0) ≡ false = ground arith in
    let back : h.num_blocks + 1 - 1 ≡ h.num_blocks = omega arith in
    rw t (
      ap (end_at (with_block h end)) back
      ∙ get_or-set_self h.block_ends h.num_blocks end 0 (omega (arith, v.room)))
