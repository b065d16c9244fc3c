-- ===== src/Vec/Fills.antt =====
-- `fill` and `scale` of vec.c.
use sleqp.Base.{
  ℕ, zero, suc, ◌+◌, ◌≤◌, ◌≡◌, inl, inr, refl, ap, sym, ◌∙◌, subst, true, ◌&&◌, not, Option, none,
  some, [], ◌∷◌, arith, ltb, leb, if◌then◌else◌, length, Bool-cases,
}
use sleqp.Double.{Double}
use sleqp.Vec.{Entries, Vec, at, from_index, fill, scale, scale_all, clear, reserve}
use sleqp.Vec.Entries.{InRange, IsValid}

module _ {R : Type 0} ⦃d : Double R⦄ where
  open d use {nought, one, times, same}

  from_index_lem :
      (value : R) (i n : ℕ)
      → InRange i (i + n) (from_index value i n) × (length (from_index value i n) ≡ n)
  from_index_lem value i zero = (omega arith, refl)
  from_index_lem value i (suc n) =
      let (in_range, count) = from_index_lem value (i + 1) n in
      let below : InRange (suc i) (i + suc n) (from_index value (i + 1) n) =
        subst (λ k. InRange (suc i) k (from_index value (i + 1) n)) (omega arith)
          (subst (λ k. InRange k (i + 1 + n) (from_index value (i + 1) n)) (omega arith)
            in_range) in
      ((omega arith, omega arith, below), ap suc count)

  at-from_index :
      (value : R) (i n j : ℕ)
      → at j (from_index value i n) ≡ (if leb i j && ltb j (i + n) then some value else none)
  at-from_index value i zero j = ground arith
  at-from_index value i (suc n) j = ground (arith, at-from_index value (i + 1) n j)

  reserve_room : (v : Vec R) (m : ℕ) → ((reserve v m).dim ≡ v.dim) × (m ≤ (reserve v m).nnz_max)
  unfolding reserve
  reserve_room v m = ground arith

  -- `fill` of any vector is valid, and has the value at every index below the dimension, or no entry
  -- where the value is 0. The dimension is kept.
  pub fill_lem :
      (v : Vec R) (value : R)
      → IsValid (fill v value)
        × ((fill v value).dim ≡ v.dim)
        × ((j : ℕ)
            → at j (fill v value).entries
              ≡ (if not (same value nought) && ltb j v.dim then some value else none))
  unfolding fill clear
  fill_lem v value = elim (Bool-cases (same value nought)) [
    | inl zero_value ↦
        rw zero_value (record { in_range = omega arith; fits = omega arith }, refl, λ j. refl)
    | inr other ↦
        let (in_range, count) = from_index_lem value 0 v.dim in
        let (dim, room) = reserve_room v v.dim in
        rw other (
          record {
            in_range =
                subst (λ n. InRange 0 n (from_index value 0 v.dim)) (sym dim)
                  (subst (λ n. InRange 0 n (from_index value 0 v.dim)) (omega arith) in_range);
            fits = omega (arith, count);
          },
          dim,
          λ j.
              let from : leb 0 j ≡ true = ground arith in
              let below : ltb j (0 + v.dim) ≡ ltb j v.dim = ground arith in
              at-from_index value 0 v.dim j ∙ rw (from, below),
        )
  ]

  -- The value at an index, scaled.
  abbrev pub scaled : R → Option R → Option R
  scaled factor none = none
  scaled factor (some x) = some (times x factor)

  scale_all_lem :
      (a n : ℕ) (factor : R) (es : Entries R) (j : ℕ)
      → InRange a n es
      → InRange a n (scale_all factor es)
        × (at j (scale_all factor es) ≡ scaled factor (at j es))
        × (length (scale_all factor es) ≡ length es)
  scale_all_lem a n factor [] j h = (h, refl, refl)
  scale_all_lem a n factor ((i, x) ∷ es) j (le, lt, h) =
      let (in_range, found, count) = scale_all_lem (suc i) n factor es j h in
      ((le, lt, in_range), ground (arith, found), ap suc count)

  -- `scale` of a valid vector is valid and keeps the dimension. It has no entry for the factor 0, the
  -- same entries for the factor 1, and otherwise every entry multiplied by the factor.
  pub scale_lem :
      (v : Vec R) (factor : R) (j : ℕ)
      → IsValid v
      → IsValid (scale v factor)
        × ((scale v factor).dim ≡ v.dim)
        × (at j (scale v factor).entries ≡ (
            if same factor nought
            then none
            else if same factor one
            then at j v.entries
            else scaled factor (at j v.entries)))
  unfolding scale clear
  scale_lem v factor j h = elim (Bool-cases (same factor nought)) [
    | inl zero_factor ↦
        rw zero_factor (record { in_range = omega arith; fits = omega arith }, refl, refl)
    | inr other ↦ elim (Bool-cases (same factor one)) [
      | inl one_factor ↦ rw (other, one_factor) (h, refl, refl)
      | inr general ↦
          let (in_range, found, count) = scale_all_lem 0 v.dim factor v.entries j h.in_range in
          rw (other, general)
            (record { in_range = in_range; fits = omega (arith, count, h.fits) }, refl, found)
    ]
  ]
