-- ===== src/Vec/Tolerance.antt =====
-- One round of the loop of `sleqp_vec_clip`: what it stores, and what is used of `double` values next to 0.
use sleqp.Base.{
  ℕ, suc, ◌+◌, ◌≤◌, ◌<◌, ◌≡◌, ◌⊎◌, inl, inr, ap, sym, ◌∙◌, Bool, true, false, Option, none, some,
  arith, ltb, ◌==◌, if◌then◌else◌, is_some, length, Outcome, ok, Bool-cases, if_of_true,
  if_of_false,
}
use sleqp.Double.{Double, is_zero}
use sleqp.Vec.{Entries, Vec, at, or_nought}
use sleqp.Vec.Entries.{InRange, at_above}
use sleqp.Vec.Merge.{head_value, advance, clip_value}
use sleqp.Vec.Heads.{ThreeRounds}
use sleqp.Vec.Emit.{kept}

module _ {R : Type 0} ⦃d : Double R⦄ (eps : R) where
  open d use {nought, lt, le}

  -- What is used of the order of `double` values next to 0, and of a tolerance that is not negative.
  pub record IsTolerant : Type 0 where
    pub zero_not_lt : lt nought nought ≡ false
    pub lt_asymm : (x : R) → lt x nought ≡ true → lt nought x ≡ false
    pub zero_is_zero : is_zero nought eps ≡ true
    pub le_zero : (x : R) → le x nought ≡ true → lt x nought ≡ false → is_zero x eps ≡ true

  abbrev pub bit : Bool → ℕ
  bit true = 1
  bit false = 0

  -- How many of the three have an entry.
  abbrev pub present : Option R → Option R → Option R → ℕ
  present l u x = bit (is_some l) + bit (is_some u) + bit (is_some x)

  -- A value is stored only where at least two of the three vectors have an entry.
  pub two_present :
      IsTolerant
      → (l u x : Option R) → le (or_nought l) (or_nought u) ≡ true
      → is_zero (clip_value x l u) eps ≡ false
      → 2 ≤ present l u x
  two_present t none none none b z = ground (arith, t.zero_is_zero, t.zero_not_lt)
  two_present t none none (some x) b z = ground (arith, t.zero_is_zero, t.zero_not_lt, t.lt_asymm x)
  two_present t none (some u) none b z = ground (arith, t.zero_is_zero, t.zero_not_lt, t.lt_asymm u)
  two_present t none (some u) (some x) b z = omega arith
  two_present t (some l) none none b z = ground (arith, t.zero_is_zero, t.zero_not_lt, t.le_zero l)
  two_present t (some l) none (some x) b z = omega arith
  two_present t (some l) (some u) none b z = omega arith
  two_present t (some l) (some u) (some x) b z = omega arith

  -- What the result has at an index.
  abbrev pub clip_at : Option R → Option R → Option R → Option R
  clip_at none none none = none
  clip_at none none (some x) = kept eps (clip_value (some x) none none)
  clip_at none (some u) x = kept eps (clip_value x none (some u))
  clip_at (some l) u x = kept eps (clip_value x (some l) u)

  clip_at_of_some :
      (l u x : Option R)
      → (is_some l ≡ true) ⊎ (is_some u ≡ true) ⊎ (is_some x ≡ true)
      → clip_at l u x ≡ kept eps (clip_value x l u)
  clip_at_of_some l u x h = ground arith

  pub record Clipped (v : Vec R) (b n : ℕ) (ls us xs : Entries R) (o : Outcome (Vec R))
      (out : Entries R) : Type 0 where
    pub runs : o ≡ ok (record v { entries = out })
    pub in_range : InRange 0 n out
    pub fits : length out ≤ v.nnz_max
    pub found :
        (j : ℕ)
        → at j out ≡ (if ltb j b then at j v.entries else clip_at (at j ls) (at j us) (at j xs))

  -- At the other indices nothing changes in the round.
  found_elsewhere :
      (b n i j : ℕ) (ls us xs old es out : Entries R)
      → InRange 0 b old
      → ThreeRounds b n i ls us xs
      → (i == j) ≡ false
      → at j es ≡ at j old
      → at j out ≡ (
          if ltb j (suc i)
          then at j es
          else clip_at (at j (advance i ls)) (at j (advance i us)) (at j (advance i xs)))
      → at j out ≡ (if ltb j b then at j old else clip_at (at j ls) (at j us) (at j xs))
  found_elsewhere b n i j ls us xs old es out hv r ne kept_old behind =
      let later = clip_at (at j (advance i ls)) (at j (advance i us)) (at j (advance i xs)) in
      let now = clip_at (at j ls) (at j us) (at j xs) in
      elim (Bool-cases (ltb i j)) [
        | inl lt ↦
            let i_lt : i < j = ground arith in
            let same : later ≡ now = rw (
              r.of_first.same_behind j i_lt,
              r.of_second.same_behind j i_lt,
              r.of_third.same_behind j i_lt,
            ) in
            behind
            ∙ if_of_false (ltb j (suc i)) (at j es) later (ground arith)
            ∙ same
            ∙ sym (if_of_false (ltb j b) (at j old) now (ground (arith, r.index_ge)))
        | inr not_lt ↦
            let j_lt : j < i = ground arith in
            let gone : now ≡ none = rw (
              r.of_first.none_before j j_lt,
              r.of_second.none_before j j_lt,
              r.of_third.none_before j j_lt,
            ) in
            let old_now : at j old ≡ (if ltb j b then at j old else now) =
              elim (Bool-cases (ltb j b)) [
                | inl before ↦ sym (if_of_true (ltb j b) (at j old) now before)
                | inr after ↦
                    at_above 0 b old j hv (ground arith)
                    ∙ sym gone
                    ∙ sym (if_of_false (ltb j b) (at j old) now after)
              ] in
            behind ∙ if_of_true (ltb j (suc i)) (at j es) later (ground arith) ∙ kept_old ∙ old_now
      ]

  pub found_step :
      (b n i j : ℕ) (ls us xs old es out : Entries R)
      → InRange 0 b old
      → ThreeRounds b n i ls us xs
      → at j es ≡ (
          if i == j
          then kept eps (clip_value (head_value i xs) (head_value i ls) (head_value i us))
          else at j old)
      → at j out ≡ (
          if ltb j (suc i)
          then at j es
          else clip_at (at j (advance i ls)) (at j (advance i us)) (at j (advance i xs)))
      → at j out ≡ (if ltb j b then at j old else clip_at (at j ls) (at j us) (at j xs))
  found_step b n i j ls us xs old es out hv r here behind = elim (Bool-cases (i == j)) [
    | inl e ↦
        let same : i ≡ j = ground arith in
        let clips : clip_at (at i ls) (at i us) (at i xs)
            ≡ kept eps (clip_value (at i xs) (at i ls) (at i us)) =
          clip_at_of_some (at i ls) (at i us) (at i xs) r.progress in
        let value = kept eps (clip_value (head_value i xs) (head_value i ls) (head_value i us)) in
        let values : value ≡ kept eps (clip_value (at i xs) (at i ls) (at i us)) =
          rw (r.of_first.value_at, r.of_second.value_at, r.of_third.value_at) in
        let not_before : ltb j b ≡ false = ground (arith, r.index_ge) in
        let now : ltb j (suc i) ≡ true = ground arith in
        behind
        ∙ if_of_true (ltb j (suc i)) (at j es)
            (clip_at (at j (advance i ls)) (at j (advance i us)) (at j (advance i xs))) now
        ∙ here
        ∙ if_of_true (i == j) value (at j old) e
        ∙ values
        ∙ sym clips
        ∙ ap (λ k. clip_at (at k ls) (at k us) (at k xs)) same
        ∙ sym (if_of_false (ltb j b) (at j old) (clip_at (at j ls) (at j us) (at j xs)) not_before)
    | inr ne ↦
        let value = kept eps (clip_value (head_value i xs) (head_value i ls) (head_value i us)) in
        let kept_old : at j es ≡ at j old = here ∙ if_of_false (i == j) value (at j old) ne in
        found_elsewhere b n i j ls us xs old es out hv r ne kept_old behind
  ]
