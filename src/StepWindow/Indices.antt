-- ===== src/StepWindow/Indices.antt =====
-- The `int` indices of step_rule_window.c as natural numbers.
use sleqp.Base.{
  ℕ, zero, suc, ◌+◌, ◌-◌, ◌≤◌, ◌<◌, ◌≡◌, refl, ap, ◌∙◌, arith, leb, ok, fault, true, false,
  Bool-cases, inl, inr,
}
use sleqp.Base.Int.{ℤ, pos, negsuc, pos_part, ◌+ℤ◌, ◌-ℤ◌, sub_ℕ}
use sleqp.StepWindow.{StepRule, int_max, increment, round_count, data_begin}

-- n - 1: the `curr` of a rule that has accepted `n` steps since its reset.
abbrev pub before : ℕ → ℤ
before zero = negsuc 0
before (suc n) = pos n

-- a - b for b ≤ a.
sub_ℕ-le : (a b : ℕ) → b ≤ a → sub_ℕ a b ≡ pos (a - b)
sub_ℕ-le a b le = let t : leb b a ≡ true = ground arith in rw t refl

pub increment-pos : (n : ℕ) → n < int_max → increment (pos n) ≡ ok (pos (suc n))
unfolding increment
increment-pos n lt =
    let t : leb (int_max + 0) (n + 0) ≡ false = ground arith in
    let q : n + 1 - (0 + 0) ≡ suc n = omega arith in
    rw t (ap ok (sub_ℕ-le (n + 1) (0 + 0) (omega arith) ∙ ap pos q))

pub increment-before : (n : ℕ) → n ≤ int_max → increment (before n) ≡ ok (pos n)
unfolding increment
increment-before zero le = refl
increment-before (suc n) le = increment-pos n (omega arith)

-- At INT_MAX the increment is undefined.
pub increment-int_max : increment (pos int_max) ≡ fault
unfolding increment
increment-int_max = refl

-- a - b for the next larger b.
sub_ℕ_next : (a b : ℕ) → b ≡ suc a → sub_ℕ a b ≡ negsuc 0
sub_ℕ_next a b e =
    let t : leb b a ≡ false = ground arith in
    let q : b - a - 1 ≡ 0 = omega arith in rw t (ap negsuc q)

-- (a - 1) - b + 1
before_minus : (a b : ℕ) → b ≤ a → before a -ℤ pos b +ℤ pos 1 ≡ pos (a - b)
before_minus zero zero le = refl
before_minus zero (suc b) le = absurd (omega arith)
before_minus (suc n) b le = elim (Bool-cases (leb b n)) [
  | inl inside ↦
      let h : b ≤ n = ground arith in
      let q : n + 0 - (0 + b) + 1 - (0 + 0) ≡ suc n - b = omega arith in
      ap (λ k. k +ℤ pos 1) (sub_ℕ-le (n + 0) (0 + b) (omega arith))
      ∙ sub_ℕ-le (n + 0 - (0 + b) + 1) (0 + 0) (omega arith)
      ∙ ap pos q
  | inr outside ↦
      let h : n < b = ground arith in
      let q : 0 ≡ suc n - b = omega arith in
      ap (λ k. k +ℤ pos 1) (sub_ℕ_next (n + 0) (0 + b) (omega arith)) ∙ ap pos q
]

pub round_count-before : (i n : ℕ) → i ≤ n → round_count (pos i) (before n) ≡ n - i
unfolding round_count
round_count-before i n le = ap pos_part (before_minus n i le)

module _ {R : Type 0} where
  pub data_begin-before :
      (r : StepRule R) (next : ℕ)
      → r.curr ≡ before next
      → r.len ≤ next
      → data_begin r ≡ pos (next - r.len)
  unfolding data_begin
  data_begin-before r next e le = ap (λ k. k -ℤ pos r.len +ℤ pos 1) e ∙ before_minus next r.len le
