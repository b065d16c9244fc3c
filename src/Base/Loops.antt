-- ===== src/Base/Loops.antt =====
-- Counted loops over indices: a search that stops at the first failure, and a counter.
use Prim.Native.Nat.{ℕ, zero, suc, ◌+◌, ◌≤◌, ◌<◌}
use mathlib.Core.Path.{◌≡◌, refl, ap, ◌∙◌}
use mathlib.Core.Bool.{Bool, true, false, ◌&&◌, ◌||◌}
use native.Mathlib.Omega.{arith}
use mathlib.Core.Logic.{inl, inr}
use mathlib.Core.List.{List, [], ◌∷◌}
use sleqp.Base.Lists.{length}
use sleqp.Base.Tests.{if◌then◌else◌, ◌==◌, Bool-cases}

-- for (k = 0; k < n; ++k) if (!test(k)) return false; return true;
-- The rounds are taken from the last to the first, which no test can tell.
unfoldable pub all_below : ℕ → (ℕ → Bool) → Bool
all_below zero test = true
all_below (suc n) test = test n && all_below n test

pub all_below_intro :
    (n : ℕ) (test : ℕ → Bool) → ((k : ℕ) → k < n → test k ≡ true) → all_below n test ≡ true
unfolding all_below
all_below_intro zero test h = refl
all_below_intro (suc n) test h =
    ground (arith, h n, all_below_intro n test (λ k lt. h k (omega arith)))

pub all_below_elim :
    (n : ℕ) (test : ℕ → Bool) (k : ℕ) → all_below n test ≡ true → k < n → test k ≡ true
unfolding all_below
all_below_elim zero test k h lt = absurd (omega arith)
all_below_elim (suc n) test k h lt = ground (arith, all_below_elim n test k)

-- for (k = 0; k < n; ++k) if (test(k)) ++count;
unfoldable pub count_below : ℕ → (ℕ → Bool) → ℕ
count_below zero test = 0
count_below (suc n) test = (if test n then 1 else 0) + count_below n test

pub count_below_congr :
    (n : ℕ) (p q : ℕ → Bool) → ((k : ℕ) → k < n → p k ≡ q k) → count_below n p ≡ count_below n q
unfolding count_below
count_below_congr zero p q h = refl
count_below_congr (suc n) p q h =
    ground (arith, h n, count_below_congr n p q (λ k lt. h k (omega arith)))

pub count_below_none :
    (n : ℕ) (p : ℕ → Bool) → ((k : ℕ) → k < n → p k ≡ false) → count_below n p ≡ 0
unfolding count_below
count_below_none zero p h = refl
count_below_none (suc n) p h = ground (arith, h n, count_below_none n p (λ k lt. h k (omega arith)))

pub count_below-le : (n : ℕ) (p : ℕ → Bool) → count_below n p ≤ n
unfolding count_below
count_below-le zero p = omega arith
count_below-le (suc n) p = ground (arith, count_below-le n p)

-- Turning one test from false to true adds one to the count.
pub count_below_step :
    (n i : ℕ) (p q : ℕ → Bool)
    → i < n
    → p i ≡ false
    → q i ≡ true
    → ((k : ℕ) → k < n → (k == i) ≡ false → p k ≡ q k)
    → count_below n q ≡ count_below n p + 1
unfolding count_below
count_below_step zero i p q lt hp hq h = absurd (omega arith)
count_below_step (suc n) i p q lt hp hq h = elim (Bool-cases (i == n)) [
  | inl e ↦
      let same : i ≡ n = ground arith in
      let pn : p n ≡ false = rw (← same) hp in
      let qn : q n ≡ true = rw (← same) hq in
      let rest : count_below n p ≡ count_below n q =
        count_below_congr n p q (λ k l. h k (omega arith) (ground arith)) in
      rw (pn, qn) (omega arith)
  | inr ne ↦
      let here : p n ≡ q n = h n (omega arith) (ground arith) in
      let rest : count_below n q ≡ count_below n p + 1 =
        count_below_step n i p q (ground arith) hp hq (λ k l e. h k (omega arith) e) in
      rw here (omega arith)
]

pub count_below-lt : (n i : ℕ) (p : ℕ → Bool) → i < n → p i ≡ false → count_below n p < n
unfolding count_below
count_below-lt zero i p lt e = absurd (omega arith)
count_below-lt (suc n) i p lt e = elim (Bool-cases (i == n)) [
  | inl q ↦
      let same : i ≡ n = ground arith in
      let pn : p n ≡ false = rw (← same) e in rw pn (omega (arith, count_below-le n p))
  | inr ne ↦ ground (arith, count_below-lt n i p)
]

abbrev pub one_if : Bool → ℕ
one_if b = if b then 1 else 0

-- The indices from `j` on that pass a test, in increasing order.
abbrev pub select : (ℕ → Bool) → (j rounds : ℕ) → List ℕ
select test j zero = []
select test j (suc rounds) =
    let rest = select test (j + 1) rounds in if test j then j ∷ rest else rest

-- The last round of a selection, which `count_below` takes first.
length-select_snoc :
    (test : ℕ → Bool) (j rounds : ℕ)
    → length (select test j (suc rounds))
      ≡ (if test (j + rounds) then 1 else 0) + length (select test j rounds)
length-select_snoc test j zero =
    let e : j + 0 ≡ j = omega arith in
    elim (Bool-cases (test j)) [ inl t ↦ rw (e, t) (omega arith) | inr t ↦ rw (e, t) (omega arith) ]
length-select_snoc test j (suc rounds) =
    let e : j + 1 + rounds ≡ j + suc rounds = omega arith in
    let ih = length-select_snoc test (j + 1) rounds in
    let last : one_if (test (j + 1 + rounds)) ≡ one_if (test (j + suc rounds)) =
      ap (λ k. one_if (test k)) e in
    elim (Bool-cases (test j)) [
      | inl t ↦ rw t (omega (arith, ih, last))
      | inr t ↦ rw t (omega (arith, ih, last))
    ]

pub length-select : (test : ℕ → Bool) (n : ℕ) → length (select test 0 n) ≡ count_below n test
unfolding count_below
length-select test zero = refl
length-select test (suc n) =
    let e : 0 + n ≡ n = omega arith in
    let last : one_if (test (0 + n)) ≡ one_if (test n) = ap (λ k. one_if (test k)) e in
    omega (arith, length-select_snoc test 0 n, last, length-select test n)

pub count_below-or :
    (n : ℕ) (p q : ℕ → Bool)
    → ((k : ℕ) → p k && q k ≡ false)
    → count_below n (λ k. p k || q k) ≡ count_below n p + count_below n q
unfolding count_below
count_below-or zero p q h = refl
count_below-or (suc n) p q h = ground (arith, h n, count_below-or n p q h)

pub select-none :
    (test : ℕ → Bool) (j rounds k : ℕ)
    → length (select test j rounds) ≡ 0
    → j ≤ k
    → k < j + rounds
    → test k ≡ false
select-none test j zero k e le lt = absurd (omega arith)
select-none test j (suc rounds) k e le lt = elim (Bool-cases (test j)) [
  | inl t ↦ let e' = rw t at e in absurd (omega arith)
  | inr t ↦
      let e' = rw t at e in
      elim (Bool-cases (j == k)) [
        | inl here ↦ let q : k ≡ j = ground arith in ap test q ∙ t
        | inr behind ↦ select-none test (j + 1) rounds k e' (ground arith) (omega arith)
      ]
]
