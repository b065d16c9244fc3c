-- ===== src/Vec/Finite.antt =====
-- `is_finite` of vec.c.
use sleqp.Base.{ℕ, ◌≡◌, refl, ap, ◌∙◌, Bool, true, ◌&&◌, ◌||◌, not, [], ◌∷◌, ◌++◌}
use sleqp.Double.{Double}
use sleqp.Vec.{Entries, Vec, finite_from, is_finite}

module _ {R : Type 0} ⦃d : Double R⦄ where
  open d use {is_nan, is_inf}

  -- No entry is NaN or infinite.
  abbrev pub all_finite : Entries R → Bool
  all_finite [] = true
  all_finite ((i, x) ∷ es) = not (is_nan x || is_inf x) && all_finite es

  finite_from-snoc :
      (es : Entries R) (i : ℕ) (x : R) → finite_from (es ++ ((i, x) ∷ [])) ≡ all_finite es
  unfolding finite_from
  finite_from-snoc [] i x = refl
  finite_from-snoc ((k, y) ∷ []) i x = refl
  finite_from-snoc ((k, y) ∷ e ∷ es) i x =
      ap (λ b. not (is_nan y || is_inf y) && b) (finite_from-snoc (e ∷ es) i x)

  -- `is_finite` of a vector with at least one entry tests all entries but the last: its answer does
  -- not depend on the last value.
  pub is_finite-snoc :
      (v : Vec R) (es : Entries R) (i : ℕ) (x : R)
      → v.entries ≡ es ++ ((i, x) ∷ [])
      → is_finite v ≡ all_finite es
  unfolding is_finite
  is_finite-snoc v es i x e = ap finite_from e ∙ finite_from-snoc es i x
