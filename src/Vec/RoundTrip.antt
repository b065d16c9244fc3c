-- ===== src/Vec/RoundTrip.antt =====
-- `to_raw` of vec.c, and the way from a dense vector to a sparse one and back.
use sleqp.Base.{
  ℕ, zero, suc, ◌≡◌, inl, inr, refl, ap, sym, ◌∙◌, Option, none, some, List, [], ◌∷◌, map, arith,
  ◌==◌, if◌then◌else◌, length, length-set, length-map, length-replicate, get_or, get_or_ext,
  get_or-set_self, get_or-set_ne, set, replicate, ok, Bool-cases,
}
use sleqp.Double.{Double, is_zero}
use sleqp.Vec.{Entries, Vec, at, or_nought, value_at, write_all, to_raw, set_from_raw}
use sleqp.Vec.Entries.{InRange, IsValid, at_below}
use sleqp.Vec.Raw.{kept_at, set_from_raw_lem}

module _ {R : Type 0} ⦃d : Double R⦄ where
  open d use {nought}

  -- An entry, or what was there before.
  abbrev written : Option R → R → R
  written none old = old
  written (some x) old = x

  length-write_all :
      (es : Entries R) (values : List R) → length (write_all es values) ≡ length values
  length-write_all [] values = refl
  length-write_all ((i, x) ∷ es) values =
      length-write_all es (set values i x) ∙ length-set values i x

  get_or-write_all :
      (a n : ℕ) (es : Entries R) (values : List R) (j : ℕ)
      → InRange a n es
      → length values ≡ n
      → get_or (write_all es values) j nought ≡ written (at j es) (get_or values j nought)
  get_or-write_all a n [] values j h size = refl
  get_or-write_all a n ((i, x) ∷ es) values j (le, lt, h) size =
      let rest =
        get_or-write_all (suc i) n es (set values i x) j h (length-set values i x ∙ size) in
      elim (Bool-cases (i == j)) [
        | inl here ↦
            let e : i ≡ j = ground arith in
            let gone : at j es ≡ none = at_below (suc i) n es j h (ground arith) in
            let now : get_or (set values i x) j nought ≡ x =
              ap (λ k. get_or (set values i x) k nought) (sym e)
              ∙ get_or-set_self values i x nought (omega arith) in
            rest ∙ rw (here, gone) now
        | inr there ↦
            rest ∙ rw (there, get_or-set_ne values i j x nought (λ q. absurd (ground arith)))
      ]

  -- `to_raw` of a valid vector writes its dimension of values, and at each index the value that the
  -- vector has there.
  pub to_raw_lem :
      (v : Vec R) (j : ℕ)
      → IsValid v
      → (length (to_raw v) ≡ v.dim) × (get_or (to_raw v) j nought ≡ value_at v j)
  unfolding to_raw
  to_raw_lem v j h = (
    length-write_all v.entries (replicate v.dim nought) ∙ length-replicate v.dim nought,
    get_or-write_all 0 v.dim v.entries (replicate v.dim nought) j h.in_range
          (length-replicate v.dim nought)
        ∙ ap (written (at j v.entries)) (zeros v.dim j)
        ∙ same_value (at j v.entries),
  )
    where
      zeros : (n k : ℕ) → get_or (replicate n nought) k nought ≡ nought
      zeros zero k = refl
      zeros (suc n) zero = refl
      zeros (suc n) (suc k) = zeros n k

      same_value : (o : Option R) → written o nought ≡ or_nought o
      same_value none = refl
      same_value (some x) = refl

  -- A value, with 0 for what is zero up to `eps`.
  abbrev pub rounded : R → R → R
  rounded eps x = if is_zero x eps then nought else x

  rounded_at :
      (eps : R) (values : List R) (j : ℕ)
      → or_nought (kept_at eps values j) ≡ get_or (map (rounded eps) values) j nought
  rounded_at eps [] j = refl
  rounded_at eps (x ∷ xs) zero = elim (Bool-cases (is_zero x eps)) [ inl z ↦ rw z | inr z ↦ rw z ]
  rounded_at eps (x ∷ xs) (suc j) = rounded_at eps xs j

  -- Storing a dense vector and writing it back gives its values, with 0 for those that are zero up to
  -- `eps`, whatever the sparse vector held before.
  pub to_raw-set_from_raw :
      (v : Vec R) (values : List R) (eps : R)
      → (out : Vec R) × (set_from_raw v values eps ≡ ok out)
        × (to_raw out ≡ map (rounded eps) values)
  to_raw-set_from_raw v values eps =
      let (out, runs, valid, dim, found) = set_from_raw_lem v values eps in
      let size : length (map (rounded eps) values) ≡ length values =
        length-map (rounded eps) values in
      (
        out,
        runs,
        get_or_ext nought (length values) (to_raw out) (map (rounded eps) values)
            ((to_raw_lem out 0 valid).0 ∙ dim) size
            (λ j lt. (to_raw_lem out j valid).1 ∙ ap or_nought (found j) ∙ rounded_at eps values j),
      )
