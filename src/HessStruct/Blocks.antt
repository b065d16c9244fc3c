-- ===== src/HessStruct/Blocks.antt =====
-- The blocks of a structure and their ranges: `push_block`, `block_range` and `lin_range`.
use sleqp.Base.{
  ℕ, zero, suc, ◌+◌, ◌-◌, ◌≤◌, ◌<◌, ◌≡◌, ◌↔◌, inl, inr, ap, sym, ◌∙◌, Bool, true, false, ◌&&◌,
  arith, ltb, leb, ◌==◌, if◌then◌else◌, length, length-set, get_or-set_self, get_or-set_ne, set, ok,
  raise, illegal_argument, Bool-cases, ◌⊎◌, ◌||◌, ok-injective, subst, if_of_true,
}
use sleqp.HessStruct.{HessStruct, end_at, push_block, block_range, lin_range}

-- The ends increase strictly and lie in the dimension, and the array has room for all blocks.
pub record IsValid (h : HessStruct) : Type 0 where
  pub few : h.num_blocks ≤ h.dimension
  pub room : length h.block_ends ≡ h.dimension
  pub increasing : (k : ℕ) → suc k < h.num_blocks → end_at h k < end_at h (suc k)
  pub bounded : (k : ℕ) → k < h.num_blocks → end_at h k ≤ h.dimension

-- The first index behind the blocks.
abbrev pub covered : HessStruct → ℕ
covered h = if h.num_blocks == 0 then 0 else end_at h (h.num_blocks - 1)

-- The structure with one more block.
abbrev pub with_block : HessStruct → ℕ → HessStruct
with_block h end = record h {
  block_ends = set h.block_ends h.num_blocks end;
  num_blocks = h.num_blocks + 1;
}

with_block-same :
    (h : HessStruct) (end k : ℕ) → k < h.num_blocks → end_at (with_block h end) k ≡ end_at h k
with_block-same h end k lt = get_or-set_ne h.block_ends h.num_blocks k end 0 (λ e. omega arith)

with_block-IsValid :
    (h : HessStruct) (end : ℕ)
    → IsValid h
    → end ≤ h.dimension
    → h.num_blocks < h.dimension
    → (0 < h.num_blocks → end_at h (h.num_blocks - 1) < end)
    → IsValid (with_block h end)
with_block-IsValid h end v le lt behind =
    let last : end_at (with_block h end) h.num_blocks ≡ end =
      get_or-set_self h.block_ends h.num_blocks end 0 (omega (arith, v.room)) in
    record {
      few = omega arith;
      room = length-set h.block_ends h.num_blocks end ∙ v.room;
      increasing = λ k l. elim (Bool-cases (suc k == h.num_blocks)) [
        | inl e ↦
            let e' : suc k ≡ h.num_blocks = ground arith in
            let prev : k ≡ h.num_blocks - 1 = omega arith in
            let b : end_at h k < end = rw prev (behind (omega arith)) in
            rw (with_block-same h end k (omega arith), e', last) b
        | inr ne ↦
            let l' : suc k < h.num_blocks = ground arith in
            rw (with_block-same h end k (omega arith), with_block-same h end (suc k) l')
              (v.increasing k l')
      ];
      bounded = λ k l. elim (Bool-cases (k == h.num_blocks)) [
        | inl e ↦ let e' : k ≡ h.num_blocks = ground arith in rw (e', last) le
        | inr ne ↦
            let l' : k < h.num_blocks = ground arith in
            rw (with_block-same h end k l') (v.bounded k l')
      ];
    }

-- There is an index left, and the end lies in the dimension and behind the last end, if there is one.
abbrev pub can_push : HessStruct → ℕ → Bool
can_push h end =
    leb end h.dimension
    && ltb h.num_blocks h.dimension
    && (h.num_blocks == 0 || ltb (end_at h (h.num_blocks - 1)) end)

-- On a valid structure `push_block` returns where the end is behind the last one and in the
-- dimension, and there is room: it appends the end and keeps the structure valid. In all other
-- cases it raises SLEQP_ILLEGAL_ARGUMENT.
pub push_block_lem :
    (h : HessStruct) (end : ℕ)
    → IsValid h
    → ((can_push h end ≡ true)
        × (push_block h end ≡ ok (with_block h end))
        × IsValid (with_block h end))
      ⊎ ((can_push h end ≡ false) × (push_block h end ≡ raise illegal_argument))
unfolding push_block
push_block_lem h end v = elim (Bool-cases (can_push h end)) [
  | inl can ↦
      let runs : push_block h end ≡ ok (with_block h end) = ground (arith, v.room) in
      inl (
        can,
        runs,
        with_block-IsValid h end v (ground arith) (ground arith) (λ some_block. ground arith),
      )
  | inr cannot ↦ inr (cannot, ground arith)
]

-- Later blocks end later.
end_at_mono :
    (h : HessStruct) (a b : ℕ) → IsValid h → a < b → b < h.num_blocks → end_at h a < end_at h b
end_at_mono h a zero v lt le = absurd (omega arith)
end_at_mono h a (suc b) v lt le = elim (Bool-cases (a == b)) [
  | inl e ↦ let e' : a ≡ b = ground arith in rw e' (v.increasing b le)
  | inr ne ↦ omega (arith, end_at_mono h a b v (ground arith) (omega arith), v.increasing b le)
]

-- `block_range` returns for the block, and the index lies in it.
pub record InBlock (h : HessStruct) (block j : ℕ) : Type 0 where
  pub is_block : block < h.num_blocks
  pub range : ℕ × ℕ
  pub runs : block_range h block ≡ ok range
  pub begin_le : range.0 ≤ j
  pub lt_end : j < range.1

abbrev pub begin_at : HessStruct → ℕ → ℕ
begin_at h block = if ltb 0 block then end_at h (block - 1) else 0

pub begin_at-suc : (h : HessStruct) (m : ℕ) → begin_at h (suc m) ≡ end_at h m
begin_at-suc h m =
    if_of_true (ltb 0 (suc m)) (end_at h (suc m - 1)) 0 (ground arith) ∙ ap (end_at h) (omega arith)

pub block_range_lem :
    (h : HessStruct) (block : ℕ)
    → IsValid h
    → block < h.num_blocks
    → block_range h block ≡ ok (begin_at h block, end_at h block)
unfolding block_range
block_range_lem h block v lt = ground (arith, v.room, v.few)

in_range :
    (h : HessStruct) (block j : ℕ)
    → IsValid h
    → InBlock h block j
    → (begin_at h block ≤ j) × (j < end_at h block)
in_range h block j v i =
    let e : (begin_at h block, end_at h block) ≡ i.range =
      ok-injective (sym (block_range_lem h block v i.is_block) ∙ i.runs) in
    let b : begin_at h block ≡ i.range.0 = ap (λ p. p.0) e in
    let c : end_at h block ≡ i.range.1 = ap (λ p. p.1) e in
    (omega (arith, i.begin_le), omega (arith, i.lt_end))

-- No index lies in a block and in a later one.
ordered : (h : HessStruct) (a b j : ℕ) → IsValid h → InBlock h a j → InBlock h b j → ¬ (a < b)
ordered h a (suc b) j v ia ib lt =
    let (begins, _) = in_range h (suc b) j v ib in
    let (_, ends) = in_range h a j v ia in
    let begins' : end_at h b ≤ j = subst (λ k. k ≤ j) (begin_at-suc h b) begins in
    elim (Bool-cases (a == b)) [
      | inl e ↦
          let e' : a ≡ b = ground arith in
          let ends' : j < end_at h b = rw (← e') ends in omega arith
      | inr ne ↦ omega (arith, end_at_mono h a b v (ground arith) (omega (arith, ib.is_block)))
    ]
ordered h a zero j v ia ib lt = omega arith

-- The block of an index below the end of a block.
find_block :
    (h : HessStruct) (m j : ℕ)
    → IsValid h
    → m < h.num_blocks
    → j < end_at h m
    → (b : ℕ) × InBlock h b j
find_block h zero j v lt below = (
  0,
  record {
    is_block = lt;
    range = (0, end_at h 0);
    runs = block_range_lem h 0 v lt;
    begin_le = omega arith;
    lt_end = below;
  },
)
find_block h (suc m) j v lt below = elim (Bool-cases (ltb j (end_at h m))) [
  | inl before ↦ find_block h m j v (omega arith) (ground arith)
  | inr after ↦ (
    suc m,
    record {
      is_block = lt;
      range = (end_at h m, end_at h (suc m));
      runs = block_range_lem h (suc m) v lt ∙ ap (λ k. ok (k, end_at h (suc m))) (begin_at-suc h m);
      begin_le = ground arith;
      lt_end = below;
    },
  )
]

-- The blocks and the linear range of a valid structure partition the indices: an index is either
-- in the linear range and in no block, or before it and in exactly one block.
pub blocks_partition :
    (h : HessStruct) (j : ℕ)
    → IsValid h
    → (((lin_range h).0 ≤ j) × ((c : ℕ) → ¬ InBlock h c j))
      ⊎ ((j < (lin_range h).0) × ((b : ℕ) × ((c : ℕ) → InBlock h c j ↔ (c ≡ b))))
unfolding lin_range
blocks_partition h j v = elim (Bool-cases (ltb j (covered h))) [
  | inl before ↦
      let lt : j < covered h = ground arith in
      let (some_block, below) : (0 < h.num_blocks) × (j < end_at h (h.num_blocks - 1)) =
        ground arith in
      let (b, here) = find_block h (h.num_blocks - 1) j v (omega arith) below in
      inr (
        lt,
        (
          b,
          λ c. (
            λ i.
                let le = ordered h c b j v i here in
                let ge = ordered h b c j v here i in omega arith,
            λ e. subst (λ k. InBlock h k j) (sym e) here,
          ),
        ),
      )
  | inr after ↦ inl (
    ground arith,
    λ c i.
        let (_, ends) = in_range h c j v i in
        elim (Bool-cases (c == h.num_blocks - 1)) [
          | inl e ↦
              let e' : c ≡ h.num_blocks - 1 = ground arith in
              let ends' : j < end_at h (h.num_blocks - 1) = rw (← e') ends in
              ground (arith, i.is_block)
          | inr ne ↦
              let later =
                end_at_mono h c (h.num_blocks - 1) v (ground (arith, i.is_block))
                  (omega (arith, i.is_block)) in
              ground (arith, i.is_block)
        ],
  )
]
