-- ===== src/FixedVarFunc/Loop.antt =====
-- The loop of `create_fixed_var_hess_struct`.
use sleqp.Base.{
  ℕ, zero, suc, ◌+◌, ◌-◌, ◌≤◌, ◌<◌, ◌≡◌, refl, ap, sym, subst, ◌∙◌, List, [], ◌∷◌, ◌++◌, arith,
  ◌==◌, if◌then◌else◌, length, Outcome, ok, ◌>>=◌, Bool-cases, inl, inr,
}
use sleqp.HessStruct.{HessStruct, end_at, clear, push_block}
use sleqp.HessStruct.Blocks.{
  IsValid, with_block, push_block_lem, block_range_lem, begin_at, begin_at-suc, covered,
}
use sleqp.HessStruct.Copies.{ends}
use sleqp.Vec.Removal.{IsIncreasing, count_lower}
use sleqp.FixedVarFunc.{count_fixed, shrink_blocks, create_fixed_var_hess_struct}
use sleqp.FixedVarFunc.Counts.{count_lower_zero}
use sleqp.FixedVarFunc.Moved.{
  moved, moved_ends, Stage, Round, round_lem, rises, can_push-moved, ends-with_block,
  covered-with_block,
}

-- One round, with the counts written out.
shrink_step :
    (source : HessStruct) (fs : List ℕ) (target : HessStruct) (rounds block : ℕ) (rest : List ℕ)
    (offset : ℕ) (left : List ℕ × ℕ)
    → IsValid source
    → block < source.num_blocks
    → count_fixed (end_at source block - begin_at source block) (begin_at source block) rest offset
      ≡ left
    → offset ≡ count_lower fs (begin_at source block)
    → left.1 ≡ count_lower fs (end_at source block)
    → shrink_blocks source (suc rounds) block rest offset target ≡ (
        (if moved fs (begin_at source block) == moved fs (end_at source block)
          then ok target
          else push_block target (moved fs (end_at source block)))
        >>= λ next. shrink_blocks source rounds (block + 1) left.0 left.1 next)
unfolding shrink_blocks
shrink_step source fs target rounds block rest offset left v lt counts at_begin at_end =
    rw (block_range_lem source block v lt, counts, sym at_begin, sym at_end) refl

-- What the loop makes of a target.
record Shrunk (source : HessStruct) (fs : List ℕ) (target : HessStruct) (rounds block : ℕ)
    (call : Outcome HessStruct) : Type 0 where
  out : HessStruct
  runs : call ≡ ok out
  valid : IsValid out
  same_dim : out.dimension ≡ target.dimension
  new_ends :
      ends out.num_blocks out ≡ ends target.num_blocks target ++ moved_ends source fs rounds block

append_nothing : (xs : List ℕ) → xs ++ [] ≡ xs
append_nothing [] = refl
append_nothing (x ∷ xs) = ap (λ ys. x ∷ ys) (append_nothing xs)

append_step : (xs : List ℕ) (x : ℕ) (ys : List ℕ) → (xs ++ (x ∷ [])) ++ ys ≡ xs ++ (x ∷ ys)
append_step [] x ys = refl
append_step (z ∷ xs) x ys = ap (λ zs. z ∷ zs) (append_step xs x ys)

next_Stage :
    (source : HessStruct) (fs : List ℕ) (target next : HessStruct) (block : ℕ) (rest : List ℕ)
    (offset : ℕ) (left : List ℕ × ℕ)
    → Stage source fs target block rest offset
    → Round source fs block left
    → IsValid next
    → next.dimension ≡ target.dimension
    → covered next ≡ moved fs (end_at source block)
    → next.num_blocks ≤ covered next
    → Stage source fs next (block + 1) left.0 left.1
next_Stage source fs target next block rest offset left s c valid dim reached small =
    let q : block + 1 ≡ suc block = omega arith in
    let to_end : end_at source block ≡ begin_at source (block + 1) =
      sym (ap (begin_at source) q ∙ begin_at-suc source block) in
    record {
      valid = valid;
      counted = subst (λ k. left.1 ≡ count_lower fs k) to_end c.counted;
      increasing = subst (λ k. IsIncreasing k source.dimension left.0) to_end c.increasing;
      later = λ k l. c.later k (omega (arith, to_end));
      reached = subst (λ k. covered next ≡ moved fs k) to_end reached;
      small = small;
      dims = omega (arith, s.dims);
    }

shrink_blocks_lem :
    (source : HessStruct) (fs : List ℕ) (rounds block : ℕ) (rest : List ℕ) (offset : ℕ)
    (target : HessStruct)
    → IsValid source
    → IsIncreasing 0 source.dimension fs
    → Stage source fs target block rest offset
    → block + rounds ≡ source.num_blocks
    → Shrunk source fs target rounds block (shrink_blocks source rounds block rest offset target)
unfolding shrink_blocks
shrink_blocks_lem source fs zero block rest offset target v inc s q = record {
  out = target;
  runs = refl;
  valid = s.valid;
  same_dim = refl;
  new_ends = sym (append_nothing (ends target.num_blocks target));
}
shrink_blocks_lem source fs (suc rounds) block rest offset target v inc s q =
    let b = begin_at source block in
    let e = end_at source block in
    let te = moved fs e in
    let lt : block < source.num_blocks = omega arith in
    let left = count_fixed (e - b) b rest offset in
    let c = round_lem source fs target block rest offset v lt s in
    let step =
      shrink_step source fs target rounds block rest offset left v lt refl s.counted c.counted in
    elim (Bool-cases (moved fs b == te)) [
      | inl empty ↦
          let same : moved fs b ≡ te = ground arith in
          let ih =
            shrink_blocks_lem source fs rounds (block + 1) left.0 left.1 target v inc
              (next_Stage source fs target target block rest offset left s c s.valid refl
                (s.reached ∙ same) s.small)
              (omega arith) in
          record {
            out = ih.out;
            runs = step ∙ rw empty ih.runs;
            valid = ih.valid;
            same_dim = ih.same_dim;
            new_ends = rw empty ih.new_ends;
          }
      | inr filled ↦
          let less = rises source fs target block rest offset v inc lt s filled in
          let can = can_push-moved source fs target block rest offset v inc lt s less in
          let few : target.num_blocks < target.dimension = ground arith in
          elim (push_block_lem target te s.valid) [
            | inl (_, pushes, valid) ↦
                let next = with_block target te in
                let top : covered next ≡ te = covered-with_block target te s.valid few in
                let ih =
                  shrink_blocks_lem source fs rounds (block + 1) left.0 left.1 next v inc
                    (next_Stage source fs target next block rest offset left s c valid refl top
                      (omega (arith, top, s.small, less)))
                    (omega arith) in
                let more = moved_ends source fs rounds (block + 1) in
                let joined : (ends target.num_blocks target ++ (te ∷ [])) ++ more
                    ≡ ends target.num_blocks target ++ moved_ends source fs (suc rounds) block =
                  rw filled (append_step (ends target.num_blocks target) te more) in
                record {
                  out = ih.out;
                  runs = step ∙ rw (filled, pushes) ih.runs;
                  valid = ih.valid;
                  same_dim = ih.same_dim;
                  new_ends =
                      ih.new_ends
                      ∙ ap (λ xs. xs ++ moved_ends source fs rounds (block + 1))
                          (ends-with_block target te s.valid few)
                      ∙ joined;
                }
            | inr (cannot, _) ↦ absurd (ground arith)
          ]
    ]

-- `create_fixed_var_hess_struct` of a valid structure, strictly increasing fixed indices in its
-- dimension, and a target whose dimension is what is left and whose array was allocated for it,
-- returns, whatever the target held. The target is valid, and its blocks are those of the source that
-- keep an index, in their order, each end moved down by the number of fixed indices below it.
pub create_fixed_var_hess_struct_lem :
    (source target : HessStruct) (fixed_indices : List ℕ)
    → IsValid source
    → IsIncreasing 0 source.dimension fixed_indices
    → target.dimension + length fixed_indices ≡ source.dimension
    → length target.block_ends ≡ target.dimension
    → (out : HessStruct) × (create_fixed_var_hess_struct source target fixed_indices ≡ ok out)
      × IsValid out
      × (out.dimension ≡ target.dimension)
      × (ends out.num_blocks out ≡ moved_ends source fixed_indices source.num_blocks 0)
unfolding create_fixed_var_hess_struct clear
create_fixed_var_hess_struct_lem source target fixed_indices v inc dims room =
    let none_yet = count_lower_zero 0 source.dimension fixed_indices inc in
    let done =
      shrink_blocks_lem source fixed_indices source.num_blocks 0 fixed_indices 0 (clear target) v
        inc
        (record {
          valid = record {
            few = omega arith;
            room = room;
            increasing = λ k lt. absurd (omega arith);
            bounded = λ k lt. absurd (omega arith);
          };
          counted = sym none_yet;
          increasing = inc;
          later = λ k l. omega arith;
          reached = omega (arith, none_yet);
          small = omega arith;
          dims = dims;
        })
        (omega arith) in
    (done.out, done.runs, done.valid, done.same_dim, done.new_ends)
