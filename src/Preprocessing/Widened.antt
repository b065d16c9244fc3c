-- ===== src/Preprocessing/Widened.antt =====
-- `add_zero_entries` through the merged list: fixed entries are entries without a value.
use sleqp.Base.{
  ℕ, suc, ◌+◌, ◌-◌, ◌≤◌, ◌≡◌, refl, ap, sym, subst, ◌∙◌, Option, none, some, List, [], ◌∷◌, ◌++◌,
  arith, ltb, leb, ◌==◌, if◌then◌else◌, is_some, length, ok, ◌>>=◌, Bool-cases, inl, inr,
}
use sleqp.Vec.{Entries, Vec, nnz, at, push, clear, reserve}
use sleqp.Vec.Entries.{InRange, IsValid, InRange-weaken, at_below}
use sleqp.Vec.Removal.{IsIncreasing, contains, count_lower}
use sleqp.Preprocessing.{zero_loop, add_zero_entries}
use sleqp.Preprocessing.Merged.{merged, lower_count, restored_at, InRange-merged, at-merged}
use sleqp.Preprocessing.Restored.{push_list, push_list_lem}

module _ {R : Type 0} where
  abbrev join : Option (Option R) → Option R
  join none = none
  join (some o) = o

module _ (R : Type 0) where
  -- The indices as entries without a value.
  abbrev blanks : List ℕ → Entries (Option R)
  blanks [] = []
  blanks (i ∷ is) = (i, none) ∷ blanks is

  InRange-blanks : (a n : ℕ) (is : List ℕ) → IsIncreasing a n is → InRange a n (blanks is)
  InRange-blanks a n [] h = h
  InRange-blanks a n (i ∷ is) h = (h.0, h.1, InRange-blanks (suc i) n is h.2)

  is_some-blanks : (is : List ℕ) (j : ℕ) → is_some (at j (blanks is)) ≡ contains is j
  is_some-blanks [] j = refl
  is_some-blanks (i ∷ is) j = elim (Bool-cases (i == j)) [
    | inl here ↦ rw here refl
    | inr other ↦ rw other (is_some-blanks is j)
  ]

  join-blanks : (is : List ℕ) (j : ℕ) → join (at j (blanks is)) ≡ none
  join-blanks [] j = refl
  join-blanks (i ∷ is) j = elim (Bool-cases (i == j)) [
    | inl here ↦ rw here refl
    | inr other ↦ rw other (join-blanks is j)
  ]

  lower_count-blanks : (is : List ℕ) (j : ℕ) → lower_count (blanks is) j ≡ count_lower is j
  lower_count-blanks [] j = refl
  lower_count-blanks (i ∷ is) j = ap (λ k. (if ltb i j then 1 else 0) + k) (lower_count-blanks is j)

  length-blanks : (is : List ℕ) → length (blanks is) ≡ length is
  length-blanks [] = refl
  length-blanks (i ∷ is) = ap suc (length-blanks is)

module _ {R : Type 0} where
  abbrev with_values : Entries R → Entries (Option R)
  with_values [] = []
  with_values ((i, x) ∷ es) = (i, some x) ∷ with_values es

  -- The entries with a value.
  abbrev compact : Entries (Option R) → Entries R
  compact [] = []
  compact ((i, none) ∷ es) = compact es
  compact ((i, some x) ∷ es) = (i, x) ∷ compact es

  InRange-with_values : (a n : ℕ) (es : Entries R) → InRange a n es → InRange a n (with_values es)
  InRange-with_values a n [] h = h
  InRange-with_values a n ((i, x) ∷ es) h = (h.0, h.1, InRange-with_values (suc i) n es h.2)

  InRange-compact : (a n : ℕ) (es : Entries (Option R)) → InRange a n es → InRange a n (compact es)
  InRange-compact a n [] h = h
  InRange-compact a n ((i, none) ∷ es) h =
      InRange-weaken (suc i) a n n (compact es) (omega (arith, h.0)) (omega arith)
        (InRange-compact (suc i) n es h.2)
  InRange-compact a n ((i, some x) ∷ es) h = (h.0, h.1, InRange-compact (suc i) n es h.2)

  length-compact :
      (es : Entries R) (offset : ℕ) (is : List ℕ)
      → length (compact (merged (with_values es) offset (blanks R is))) ≡ length es
  unfolding merged
  length-compact [] offset [] = refl
  length-compact [] offset (f ∷ is) = length-compact [] offset is
  length-compact ((i, x) ∷ es) offset [] = ap suc (length-compact es offset [])
  length-compact ((i, x) ∷ es) offset (f ∷ is) = elim (Bool-cases (leb f (i + offset))) [
    | inl fixed ↦ rw (fixed, merged) (length-compact ((i, x) ∷ es) (suc offset) is)
    | inr moved ↦ rw (moved, merged) (ap suc (length-compact es offset (f ∷ is)))
  ]

  at-compact :
      (a n : ℕ) (es : Entries (Option R)) (j : ℕ)
      → InRange a n es
      → at j (compact es) ≡ join (at j es)
  at-compact a n [] j h = refl
  at-compact a n ((i, none) ∷ es) j h = elim (Bool-cases (i == j)) [
    | inl here ↦
        rw here
          (at_below (suc i) n (compact es) j (InRange-compact (suc i) n es h.2) (ground arith))
    | inr other ↦ rw other (at-compact (suc i) n es j h.2)
  ]
  at-compact a n ((i, some x) ∷ es) j h = elim (Bool-cases (i == j)) [
    | inl here ↦ rw here refl
    | inr other ↦ rw other (at-compact (suc i) n es j h.2)
  ]

  join-with_values : (es : Entries R) (j : ℕ) → join (at j (with_values es)) ≡ at j es
  join-with_values [] j = refl
  join-with_values ((i, x) ∷ es) j = elim (Bool-cases (i == j)) [
    | inl here ↦ rw here refl
    | inr other ↦ rw other (join-with_values es j)
  ]

  zero_loop-push_list :
      (es : Entries R) (offset : ℕ) (is : List ℕ) (v : Vec R)
      → zero_loop es offset is v
        ≡ push_list (compact (merged (with_values es) offset (blanks R is))) v
  unfolding zero_loop push_list merged
  zero_loop-push_list [] offset [] v = refl
  zero_loop-push_list [] offset (f ∷ is) v = zero_loop-push_list [] offset is v
  zero_loop-push_list ((i, x) ∷ es) offset [] v =
      ap (λ k. push v (i + offset) x >>= k) (λ t s. zero_loop-push_list es offset [] s t)
  zero_loop-push_list ((i, x) ∷ es) offset (f ∷ is) v = elim (Bool-cases (leb f (i + offset))) [
    | inl fixed ↦
        rw (fixed, zero_loop, merged) (zero_loop-push_list ((i, x) ∷ es) (suc offset) is v)
    | inr moved ↦
        rw (moved, zero_loop, merged)
          (ap (λ k. push v (i + offset) x >>= k)
            (λ t s. zero_loop-push_list es offset (f ∷ is) s t))
  ]

  join-restored :
      (es : Entries R) (is : List ℕ) (j : ℕ)
      → join (restored_at (with_values es) 0 (blanks R is) j)
        ≡ (if contains is j then none else at (j - count_lower is j) es)
  join-restored es is j = elim (Bool-cases (contains is j)) [
    | inl fixed ↦ rw (is_some-blanks R is j, fixed) (join-blanks R is j)
    | inr free ↦
        let place : j - (0 + count_lower is j) ≡ j - count_lower is j = omega arith in
        rw (is_some-blanks R is j, free, lower_count-blanks R is j)
          (join-with_values es (j - (0 + count_lower is j)) ∙ ap (λ k. at k es) place)
  ]

  -- `add_zero_entries` of a valid vector and increasing indices of the target, whose dimension is that
  -- of both, returns, whatever the target held. The target is valid, has no entry at these indices,
  -- and between them the entries of the vector, in their order.
  pub add_zero_entries_lem :
      (source target : Vec R) (is : List ℕ)
      → IsValid source
      → IsIncreasing 0 target.dim is
      → source.dim + length is ≡ target.dim
      → (out : Vec R) × (add_zero_entries source target is ≡ ok out)
        × IsValid out
        × (out.dim ≡ target.dim)
        × ((j : ℕ)
            → at j out.entries
              ≡ (if contains is j then none else at (j - count_lower is j) source.entries))
  unfolding add_zero_entries clear reserve
  add_zero_entries_lem source target is h k e =
      let d = target.dim in
      let es = source.entries in
      let start : Vec R = reserve (clear target) (nnz source) in
      let none_yet : start.entries ≡ [] = ground arith in
      let dim : start.dim ≡ d = ground arith in
      let room : nnz source ≤ start.nnz_max = ground arith in
      let count : nnz start ≡ 0 = ap length none_yet in
      let values = InRange-with_values 0 source.dim es h.in_range in
      let fixed = InRange-blanks R 0 d is k in
      let whole : source.dim + 0 + length (blanks R is) ≤ d = omega (arith, length-blanks R is) in
      let both =
        InRange-merged (with_values es) 0 0 0 source.dim d (blanks R is) values fixed (omega arith)
          whole in
      let all = compact (merged (with_values es) 0 (blanks R is)) in
      let (runs, fine) =
        push_list_lem all 0 d start
          (InRange-compact 0 d (merged (with_values es) 0 (blanks R is)) both)
          (subst (InRange 0 0) (sym none_yet) (omega arith)) dim
          (omega (arith, length-compact es 0 is)) in
      let same : start.entries ++ all ≡ all = ap (λ ys. ys ++ all) none_yet in
      (
        record start { entries = start.entries ++ all },
        zero_loop-push_list es 0 is start ∙ runs,
        record {
          in_range = subst (λ n. InRange 0 n (start.entries ++ all)) (sym dim) fine;
          fits = omega (arith, ap length same, length-compact es 0 is);
        },
        dim,
        λ j.
            ap (at j) same
            ∙ at-compact 0 d (merged (with_values es) 0 (blanks R is)) j both
            ∙ ap join (
                at-merged (with_values es) 0 0 0 source.dim d (blanks R is) j values fixed
                  (omega arith) whole (omega arith))
            ∙ join-restored es is j,
      )
