-- ===== src/Vec/Renumber.antt =====
-- What `remove_entries` of vec.c leaves at an index.
use sleqp.Base.{
  ℕ, suc, ◌+◌, ◌-◌, ◌≤◌, ◌<◌, ◌≡◌, refl, ap, subst, true, false, List, [], ◌∷◌, arith, ltb, ◌==◌,
  Bool-cases, inl, inr, ==_refl,
}
use sleqp.Vec.{Entries, at}
use sleqp.Vec.Entries.{InRange}
use sleqp.Vec.Removal.{IsIncreasing, contains, count_lower, renumber, count_lower_below}

-- No more removed indices lie between two indices than fit.
count_lower-le :
    (a n : ℕ) (rs : List ℕ) (i j : ℕ)
    → IsIncreasing a n rs
    → i < a
    → i < j
    → count_lower rs j + i < j
count_lower-le a n [] i j h le lt = omega arith
count_lower-le a n (r ∷ rs) i j h le lt = elim (Bool-cases (ltb r j)) [
  | inl before ↦
      let rest = count_lower-le (suc r) n rs r j h.2 (omega arith) (ground arith) in
      rw before (omega (arith, rest, h.0))
  | inr behind ↦
      let nothing = count_lower_below (suc r) n rs j h.2 (ground arith) in
      rw behind (omega (arith, nothing))
]

count_lower_self : (a n : ℕ) (rs : List ℕ) (j : ℕ) → IsIncreasing a n rs → count_lower rs j ≤ j
count_lower_self a n [] j h = omega arith
count_lower_self a n (r ∷ rs) j h = elim (Bool-cases (ltb r j)) [
  | inl before ↦
      let rest = count_lower-le (suc r) n rs r j h.2 (omega arith) (ground arith) in
      rw before (omega (arith, rest))
  | inr behind ↦
      let nothing = count_lower_below (suc r) n rs j h.2 (ground arith) in
      rw behind (omega (arith, nothing))
]

-- Removed indices in front of one that is kept leave room for it.
count_lower_gap :
    (a n : ℕ) (rs : List ℕ) (i j : ℕ)
    → IsIncreasing a n rs
    → contains rs i ≡ false
    → i < j
    → count_lower rs j + i < count_lower rs i + j
count_lower_gap a n [] i j h c lt = omega arith
count_lower_gap a n (r ∷ rs) i j h c lt = elim (Bool-cases (ltb i r)) [
  | inl behind ↦
      let few = count_lower-le r n (r ∷ rs) i j (omega arith, h.1, h.2) (ground arith) lt in
      omega (arith, few)
  | inr in_front ↦
      let rest = count_lower_gap (suc r) n rs i j h.2 (ground arith) lt in
      let t : ltb r i ≡ true = ground arith in
      let t' : ltb r j ≡ true = ground arith in rw (t, t') (omega (arith, rest))
]

differ : (rs : List ℕ) (i j : ℕ) → contains rs i ≡ true → contains rs j ≡ false → (i == j) ≡ false
differ rs i j h k = elim (Bool-cases (i == j)) [
  | inl e ↦
      let q : i ≡ j = ground arith in
      let same : contains rs i ≡ contains rs j = ap (contains rs) q in absurd (ground arith)
  | inr ne ↦ ne
]

module _ {R : Type 0} where
  -- Renumbering keeps what is at an index that is not removed.
  pub at-renumber :
      (a n b m : ℕ) (rs : List ℕ) (es : Entries R) (j : ℕ)
      → IsIncreasing a n rs
      → InRange b m es
      → contains rs j ≡ false
      → at (j - (0 + count_lower rs j)) (renumber 0 rs es) ≡ at j es
  at-renumber a n b m rs [] j h k c = refl
  at-renumber a n b m rs ((i, x) ∷ es) j h k c =
      let rest = at-renumber a n (suc i) m rs es j h k.2 c in
      elim (Bool-cases (contains rs i)) [
        | inl removed ↦
            let apart : (i == j) ≡ false = differ rs i j removed c in rw (removed, apart) rest
        | inr kept ↦ elim (Bool-cases (i == j)) [
          | inl here ↦
              let q : i ≡ j = ground arith in
              let t : (i - (0 + count_lower rs i) == j - (0 + count_lower rs j)) ≡ true =
                subst (λ k. (i - (0 + count_lower rs i) == k - (0 + count_lower rs k)) ≡ true) q
                  (==_refl (i - (0 + count_lower rs i))) in
              rw (kept, here, t) refl
          | inr other ↦
              let low_i = count_lower_self a n rs i h in
              let low_j = count_lower_self a n rs j h in
              let t : (i - (0 + count_lower rs i) == j - (0 + count_lower rs j)) ≡ false =
                elim (Bool-cases (ltb i j)) [
                  | inl before ↦
                      let gap = count_lower_gap a n rs i j h kept (ground arith) in ground arith
                  | inr behind ↦
                      let gap = count_lower_gap a n rs j i h c (ground arith) in ground arith
                ] in
              rw (kept, other, t) rest
        ]
      ]
