-- ===== src/FixedVarFunc/Counts.antt =====
-- Counting fixed indices block by block.
use sleqp.Base.{
  ℕ, zero, suc, ◌+◌, ◌≤◌, ◌≡◌, refl, true, false, List, [], ◌∷◌, arith, ltb, ◌==◌, length,
  Bool-cases, subst, sym, inl, inr,
}
use sleqp.Vec.Removal.{IsIncreasing, count_lower, count_lower_below}
use sleqp.FixedVarFunc.{count_fixed}

-- No more fixed indices lie between two indices than there are indices.
pub count_lower_slack :
    (a n : ℕ) (rs : List ℕ) (i j : ℕ)
    → IsIncreasing a n rs
    → i ≤ j
    → count_lower rs j + i ≤ count_lower rs i + j
count_lower_slack a n [] i j h le = omega arith
count_lower_slack a n (r ∷ rs) i j h le = elim (Bool-cases (ltb r i)) [
  | inl low ↦
      let rest = count_lower_slack (suc r) n rs i j h.2 le in
      let t : ltb r j ≡ true = ground arith in rw (low, t) (omega (arith, rest))
  | inr high ↦ elim (Bool-cases (ltb r j)) [
    | inl between ↦
        let rest = count_lower_slack (suc r) n rs (suc r) j h.2 (ground arith) in
        let nothing = count_lower_below (suc r) n rs (suc r) h.2 (omega arith) in
        rw (high, between) (ground (arith, rest, nothing))
    | inr behind ↦
        let nothing = count_lower_below (suc r) n rs j h.2 (ground arith) in
        rw (high, behind) (omega (arith, nothing))
  ]
]

pub count_lower_all :
    (a n : ℕ) (rs : List ℕ) (i : ℕ) → IsIncreasing a n rs → n ≤ i → count_lower rs i ≡ length rs
count_lower_all a n [] i h le = refl
count_lower_all a n (r ∷ rs) i h le =
    let t : ltb r i ≡ true = ground (arith, h.1) in
    let rest = count_lower_all (suc r) n rs i h.2 le in rw (t, rest) (omega arith)

pub count_lower_zero : (a n : ℕ) (rs : List ℕ) → IsIncreasing a n rs → count_lower rs 0 ≡ 0
count_lower_zero a n rs h = count_lower_below a n rs 0 h (omega arith)

-- What the loop over the indices from `j` up to `e` has found.
pub record Counted (rs : List ℕ) (e n before : ℕ) (left : List ℕ × ℕ) : Type 0 where
  pub total : left.1 ≡ before + count_lower rs e
  pub increasing : IsIncreasing e n left.0
  pub later : (k : ℕ) → e ≤ k → count_lower rs k ≡ count_lower rs e + count_lower left.0 k

count_fixed_hit :
    (rounds j f : ℕ) (fs : List ℕ) (before : ℕ)
    → (f == j) ≡ true
    → count_fixed (suc rounds) j (f ∷ fs) before ≡ count_fixed rounds (suc j) fs (suc before)
unfolding count_fixed
count_fixed_hit rounds j f fs before e = rw (e, count_fixed)

count_fixed_miss :
    (rounds j f : ℕ) (fs : List ℕ) (before : ℕ)
    → (f == j) ≡ false
    → count_fixed (suc rounds) j (f ∷ fs) before ≡ count_fixed rounds (suc j) (f ∷ fs) before
unfolding count_fixed
count_fixed_miss rounds j f fs before e = rw (e, count_fixed)

pub count_fixed_lem :
    (rounds j e n : ℕ) (rs : List ℕ) (before : ℕ)
    → IsIncreasing j n rs
    → j + rounds ≡ e
    → e ≤ n
    → Counted rs e n before (count_fixed rounds j rs before)
unfolding count_fixed
count_fixed_lem zero j e n rs before h q le =
    let q' : j ≡ e = omega arith in
    let nothing = count_lower_below j n rs e h (omega arith) in
    record {
      total = omega (arith, nothing);
      increasing = subst (λ k. IsIncreasing k n rs) q' h;
      later = λ k l. omega (arith, nothing);
    }
count_fixed_lem (suc rounds) j e n [] before h q le =
    count_fixed_lem rounds (suc j) e n [] before (omega arith) (omega arith) le
count_fixed_lem (suc rounds) j e n (r ∷ rs) before h q le = elim (Bool-cases (r == j)) [
  | inl here ↦
      let q' : r ≡ j = ground arith in
      let c =
        count_fixed_lem rounds (suc j) e n rs (suc before)
          (subst (λ k. IsIncreasing (suc k) n rs) q' h.2) (omega arith) le in
      let t : ltb r e ≡ true = ground arith in
      subst (Counted (r ∷ rs) e n before) (sym (count_fixed_hit rounds j r rs before here))
        (record {
          total = rw t (omega (arith, c.total));
          increasing = c.increasing;
          later = λ k l.
              let t' : ltb r k ≡ true = ground arith in rw (t, t') (omega (arith, c.later k l));
        })
  | inr other ↦
      let c =
        count_fixed_lem rounds (suc j) e n (r ∷ rs) before (ground (arith, h.0), h.1, h.2)
          (omega arith) le in
      subst (Counted (r ∷ rs) e n before) (sym (count_fixed_miss rounds j r rs before other)) c
]
