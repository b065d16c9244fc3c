-- ===== src/Preprocessing/Merged.antt =====
-- The loop of `merge_entries` against the merged list of entries.
use sleqp.Base.{
  ℕ, suc, ◌+◌, ◌-◌, ◌≤◌, ◌<◌, ◌≡◌, refl, ap, sym, subst, ◌∙◌, true, false, Option, none, some, [],
  ◌∷◌, arith, ltb, leb, ◌==◌, if◌then◌else◌, is_some, length, Bool-cases, inl, inr,
}
use sleqp.Vec.{Entries, at}
use sleqp.Vec.Entries.{InRange, InRange-le, at_below}

module _ {R : Type 0} where
  -- The entries of `es`, moved behind the fixed ones in front of them, among the fixed ones.
  unfoldable pub merged : Entries R → (offset : ℕ) → Entries R → Entries R
  merged [] offset fs = fs
  merged ((i, x) ∷ es) offset [] = (i + offset, x) ∷ merged es offset []
  merged ((i, x) ∷ es) offset ((f, y) ∷ fs) = elim (leb f (i + offset)) [
    | true ↦ (f, y) ∷ merged ((i, x) ∷ es) (suc offset) fs
    | false ↦ (i + offset, x) ∷ merged es offset ((f, y) ∷ fs)
  ]

  -- The number of fixed entries in front of an index.
  abbrev pub lower_count : Entries R → ℕ → ℕ
  lower_count [] j = 0
  lower_count ((f, y) ∷ fs) j = (if ltb f j then 1 else 0) + lower_count fs j

  lower_count_below :
      (a n : ℕ) (fs : Entries R) (j : ℕ) → InRange a n fs → j ≤ a → lower_count fs j ≡ 0
  lower_count_below a n [] j h le = refl
  lower_count_below a n ((f, y) ∷ fs) j h le = ground (arith, lower_count_below (suc f) n fs j h.2)

  lower_count-le :
      (a n : ℕ) (fs : Entries R) (j : ℕ) → InRange a n fs → a ≤ j → lower_count fs j + a ≤ j
  lower_count-le a n [] j h le = omega arith
  lower_count-le a n ((f, y) ∷ fs) j h le = elim (Bool-cases (ltb f j)) [
    | inl before ↦
        let rest = lower_count-le (suc f) n fs j h.2 (ground arith) in
        rw before (omega (arith, rest, h.0))
    | inr behind ↦
        let nothing = lower_count_below (suc f) n fs j h.2 (ground arith) in
        rw behind (omega (arith, nothing))
  ]

  merged_fixed :
      (i offset f : ℕ) (x y : R) (es fs : Entries R)
      → f ≤ i + offset
      → merged ((i, x) ∷ es) offset ((f, y) ∷ fs) ≡ (f, y) ∷ merged ((i, x) ∷ es) (suc offset) fs
  unfolding merged
  merged_fixed i offset f x y es fs le =
      let t : leb f (i + offset) ≡ true = ground arith in rw (t, merged)

  merged_moved :
      (i offset f : ℕ) (x y : R) (es fs : Entries R)
      → i + offset < f
      → merged ((i, x) ∷ es) offset ((f, y) ∷ fs) ≡ (i + offset, x) ∷ merged es offset ((f, y) ∷ fs)
  unfolding merged
  merged_moved i offset f x y es fs lt =
      let t : leb f (i + offset) ≡ false = ground arith in rw (t, merged)

  pub InRange-merged :
      (es : Entries R) (offset b c n d : ℕ) (fs : Entries R)
      → InRange c n es
      → InRange b d fs
      → b ≡ c + offset
      → n + offset + length fs ≤ d
      → InRange b d (merged es offset fs)
  unfolding merged
  InRange-merged [] offset b c n d fs h k e le = k
  InRange-merged ((i, x) ∷ es) offset b c n d [] h k e le =
      let rest = InRange-le (suc i) n es h.2 in
      (
        omega (arith, h.0),
        omega (arith, h.1),
        InRange-merged es offset (suc (i + offset)) (suc i) n d [] h.2 (omega arith) (omega arith)
            le,
      )
  InRange-merged ((i, x) ∷ es) offset b c n d ((f, y) ∷ fs) h k e le =
      elim (Bool-cases (leb f (i + offset))) [
        | inl fixed ↦ subst (InRange b d) (sym (merged_fixed i offset f x y es fs (ground arith))) (
          k.0,
          k.1,
          InRange-merged ((i, x) ∷ es) (suc offset) (suc f) (f - offset) n d fs
              (ground arith, h.1, h.2) k.2 (omega (arith, k.0)) (omega arith),
        )
        | inr moved ↦ subst (InRange b d) (sym (merged_moved i offset f x y es fs (ground arith))) (
          omega (arith, h.0),
          omega (arith, h.1),
          InRange-merged es offset (suc (i + offset)) (suc i) n d ((f, y) ∷ fs) h.2
              (ground arith, k.1, k.2) (omega arith) le,
        )
      ]

  -- What a vector has at an index that is fixed, and at one that is not.
  abbrev pub restored_at : (es : Entries R) (offset : ℕ) (fs : Entries R) → ℕ → Option R
  restored_at es offset fs j =
      if is_some (at j fs) then at j fs else at (j - (offset + lower_count fs j)) es

  fixed_or_none : (o : Option R) → (if is_some o then o else none) ≡ o
  fixed_or_none none = refl
  fixed_or_none (some x) = refl

  -- A fixed entry comes first.
  at_fixed :
      (i offset f d : ℕ) (x y : R) (es fs : Entries R) (j : ℕ)
      → f ≤ i + offset
      → (0 ≤ f) × (f < d) × InRange (suc f) d fs
      → offset ≤ j
      → InRange (suc f) d (merged ((i, x) ∷ es) (suc offset) fs)
      → (j - offset < suc i → at (j - offset) es ≡ none)
      → (suc f ≤ j
          → at j (merged ((i, x) ∷ es) (suc offset) fs)
            ≡ restored_at ((i, x) ∷ es) (suc offset) fs j)
      → at j ((f, y) ∷ merged ((i, x) ∷ es) (suc offset) fs)
        ≡ restored_at ((i, x) ∷ es) offset ((f, y) ∷ fs) j
  at_fixed i offset f d x y es fs j le k lo rest before later = elim (Bool-cases (f == j)) [
    | inl here ↦ rw here refl
    | inr other ↦ elim (Bool-cases (ltb f j)) [
      | inl behind ↦
          let one_more : lower_count ((f, y) ∷ fs) j ≡ 1 + lower_count fs j = rw behind refl in
          let place : j - (suc offset + lower_count fs j)
              ≡ j - (offset + lower_count ((f, y) ∷ fs) j) =
            omega (arith, one_more) in
          rw other (
            later (ground arith)
            ∙ ap (λ p. if is_some (at j fs) then at j fs else at p ((i, x) ∷ es)) place)
      | inr front ↦
          let lt : j < f = ground arith in
          let nothing : at j fs ≡ none = at_below (suc f) d fs j k.2 (omega arith) in
          let none_lower : lower_count fs j ≡ 0 =
            lower_count_below (suc f) d fs j k.2 (omega arith) in
          let none_more : lower_count ((f, y) ∷ fs) j ≡ lower_count fs j = rw front (omega arith) in
          let place : j - (offset + lower_count ((f, y) ∷ fs) j) ≡ j - offset =
            omega (arith, none_more) in
          let apart : (i == j - offset) ≡ false = ground arith in
          let gone : at (j - offset) ((i, x) ∷ es) ≡ none = rw apart (before (omega arith)) in
          rw (other, nothing)
            (at_below (suc f) d (merged ((i, x) ∷ es) (suc offset) fs) j rest (omega arith)
              ∙ sym (ap (λ p. at p ((i, x) ∷ es)) place ∙ gone))
    ]
  ]

  -- An entry of the vector comes first.
  at_moved :
      (i offset d : ℕ) (x : R) (es fs : Entries R) (j : ℕ)
      → InRange (suc (i + offset)) d fs
      → InRange (suc (i + offset)) d (merged es offset fs)
      → (j - offset < suc i → at (j - offset) es ≡ none)
      → offset ≤ j
      → (suc (i + offset) ≤ j → at j (merged es offset fs) ≡ restored_at es offset fs j)
      → at j ((i + offset, x) ∷ merged es offset fs) ≡ restored_at ((i, x) ∷ es) offset fs j
  at_moved i offset d x es fs j k rest before lo later =
      elim (Bool-cases (ltb j (suc (i + offset)))) [
        | inl front ↦
            let lt : j < suc (i + offset) = ground arith in
            let nothing : at j fs ≡ none = at_below (suc (i + offset)) d fs j k lt in
            let none_lower : lower_count fs j ≡ 0 =
              lower_count_below (suc (i + offset)) d fs j k (omega arith) in
            let place : j - (offset + lower_count fs j) ≡ j - offset = omega arith in
            let missing : at j (merged es offset fs) ≡ none =
              at_below (suc (i + offset)) d (merged es offset fs) j rest lt in
            let gone : at (j - offset) es ≡ none = before (omega arith) in
            elim (Bool-cases (i + offset == j)) [
              | inl e ↦
                  let t : (i == j - offset) ≡ true = ground arith in
                  let here : at (j - offset) ((i, x) ∷ es) ≡ some x = rw t refl in
                  rw (nothing, e) (sym (ap (λ p. at p ((i, x) ∷ es)) place ∙ here))
              | inr ne ↦
                  let t : (i == j - offset) ≡ false = ground arith in
                  let gone' : at (j - offset) ((i, x) ∷ es) ≡ none = rw t gone in
                  rw (nothing, ne) (missing ∙ sym (ap (λ p. at p ((i, x) ∷ es)) place ∙ gone'))
            ]
        | inr behind ↦
            let le : suc (i + offset) ≤ j = ground arith in
            let few = lower_count-le (suc (i + offset)) d fs j k le in
            let t : (i + offset == j) ≡ false = ground arith in
            let t' : (i == j - (offset + lower_count fs j)) ≡ false = ground arith in
            rw (t, t') (later le)
      ]

  -- The merged list has the fixed entries, and between them those of the vector.
  pub at-merged :
      (es : Entries R) (offset b c n d : ℕ) (fs : Entries R) (j : ℕ)
      → InRange c n es
      → InRange b d fs
      → b ≡ c + offset
      → n + offset + length fs ≤ d
      → b ≤ j
      → at j (merged es offset fs) ≡ restored_at es offset fs j
  unfolding merged
  at-merged [] offset b c n d fs j h k e le lj = sym (fixed_or_none (at j fs))
  at-merged ((i, x) ∷ es) offset b c n d [] j h k e le lj =
      elim (Bool-cases (ltb j (suc (i + offset)))) [
        | inl front ↦
            let rest =
              InRange-merged es offset (suc (i + offset)) (suc i) n d [] h.2
                (omega (arith, InRange-le (suc i) n es h.2)) (omega arith) le in
            ground (
              arith,
              at_below (suc (i + offset)) d (merged es offset []) j rest,
              at_below (suc i) n es (j - (offset + 0)) h.2,
            )
        | inr behind ↦
            let t : (i + offset == j) ≡ false = ground arith in
            let t' : (i == j - (offset + 0)) ≡ false = ground arith in
            rw (t, t')
              (at-merged es offset (suc (i + offset)) (suc i) n d [] j h.2
                (omega (arith, InRange-le (suc i) n es h.2)) (omega arith) le (ground arith))
      ]
  at-merged ((i, x) ∷ es) offset b c n d ((f, y) ∷ fs) j h k e le lj =
      elim (Bool-cases (leb f (i + offset))) [
        | inl fixed ↦
            let f_le : f ≤ i + offset = ground arith in
            let rest_in : InRange (f - offset) n ((i, x) ∷ es) = (omega arith, h.1, h.2) in
            let rest =
              InRange-merged ((i, x) ∷ es) (suc offset) (suc f) (f - offset) n d fs rest_in k.2
                (omega (arith, k.0)) (omega arith) in
            ap (at j) (merged_fixed i offset f x y es fs f_le)
            ∙ at_fixed i offset f d x y es fs j f_le (omega arith, k.1, k.2) (omega (arith, h.0))
                rest (at_below (suc i) n es (j - offset) h.2)
                (λ later.
                  at-merged ((i, x) ∷ es) (suc offset) (suc f) (f - offset) n d fs j rest_in k.2
                    (omega (arith, k.0)) (omega arith) later)
        | inr moved ↦
            let f_gt : i + offset < f = ground arith in
            let k' : InRange (suc (i + offset)) d ((f, y) ∷ fs) = (f_gt, k.1, k.2) in
            let rest =
              InRange-merged es offset (suc (i + offset)) (suc i) n d ((f, y) ∷ fs) h.2 k'
                (omega arith) le in
            ap (at j) (merged_moved i offset f x y es fs f_gt)
            ∙ at_moved i offset d x es ((f, y) ∷ fs) j k' rest
                (at_below (suc i) n es (j - offset) h.2) (omega (arith, h.0))
                (λ later.
                  at-merged es offset (suc (i + offset)) (suc i) n d ((f, y) ∷ fs) j h.2 k'
                    (omega arith) le later)
      ]
