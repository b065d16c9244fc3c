-- ===== src/PreprocessingState/Forcing/Columns.antt =====
-- The loops of `add_forcing_constraint` over one column whose rows increase.
use sleqp.Base.{
  ℕ, zero, suc, ◌+◌, ◌<◌, ◌≡◌, inl, inr, refl, ◌∙◌, Bool, false, not, Option, none, some, [], ◌∷◌,
  arith, ◌==◌, if◌then◌else◌, length, Outcome, ok, raise, fault, abort_time, timeout, ◌>>=◌,
  Bool-cases, select,
}
use sleqp.Double.{Double}
use sleqp.Vec.{Entries, at}
use sleqp.Vec.Entries.{InRange, at_below}
use sleqp.PreprocessingState.{PreprocessingState}
use sleqp.PreprocessingState.Forcing.{Building, column, count_column, count_coeffs, fix_column}

>>=-ok : {A : Type 0} (call : Outcome A) → (call >>= ok) ≡ call
>>=-ok (ok a) = refl
>>=-ok (raise e) = refl
>>=-ok fault = refl
>>=-ok abort_time = refl
>>=-ok timeout = refl

>>=-congr :
    {A B : Type 0} (call : Outcome A) (f g : A → Outcome B)
    → ((a : A) → f a ≡ g a)
    → (call >>= f) ≡ (call >>= g)
>>=-congr (ok a) f g h = h a
>>=-congr (raise e) f g h = refl
>>=-congr fault f g h = refl
>>=-congr abort_time f g h = refl
>>=-congr timeout f g h = refl

module _ {R : Type 0} ⦃d : Double R⦄ where
  open d use {nought, same}

  -- A coefficient that the constraint has.
  abbrev pub is_nonzero : Option R → Bool
  is_nonzero none = false
  is_nonzero (some v) = not (same v nought)

  count_column_lem :
      (a n c : ℕ) (es : Entries R) (k : ℕ)
      → InRange a n es
      → count_column c es k ≡ k + (if is_nonzero (at c es) then 1 else 0)
  unfolding count_column
  count_column_lem a n c [] k h = omega arith
  count_column_lem a n c ((row, v) ∷ es) k h = ground (
    arith,
    at_below (suc row) n es c h.2,
    count_column_lem (suc row) n c es k h.2,
    count_column_lem (suc row) n c es (k + 1) h.2,
  )

  -- What the second loop does with the coefficient.
  abbrev pub fix_one :
      (R → Building R → Outcome (Building R)) → Option R → Building R → Outcome (Building R)
  fix_one body none b = ok b
  fix_one body (some v) b = if same v nought then ok b else body v b

  fix_column_none :
      (a n c : ℕ) (body : R → Building R → Outcome (Building R)) (es : Entries R) (b : Building R)
      → InRange a n es
      → c < a
      → fix_column c body es b ≡ ok b
  unfolding fix_column
  fix_column_none a n c body [] b h lt = refl
  fix_column_none a n c body ((row, v) ∷ es) b h lt = ground arith

  pub fix_column_lem :
      (a n c : ℕ) (body : R → Building R → Outcome (Building R)) (es : Entries R) (b : Building R)
      → InRange a n es
      → fix_column c body es b ≡ fix_one body (at c es) b
  unfolding fix_column
  fix_column_lem a n c body [] b h = refl
  fix_column_lem a n c body ((row, v) ∷ es) b h = elim (Bool-cases (row == c)) [
    | inl here ↦
        let rest : (body v b >>= fix_column c body es) ≡ body v b =
          >>=-congr (body v b) (fix_column c body es) ok
            (λ b'. fix_column_none (suc row) n c body es b' h.2 (ground arith))
          ∙ >>=-ok (body v b) in
        ground (arith, rest)
    | inr not_here ↦
        ground (arith, fix_column_lem (suc row) n c body es b h.2, at_below (suc row) n es c h.2)
  ]

  -- The columns of the coefficients have increasing rows.
  abbrev pub AreColumns : PreprocessingState R → Type 0
  AreColumns s = (col : ℕ) → InRange 0 s.original_problem.num_lin_cons (column s col)

  abbrev pub nonzero_at : PreprocessingState R → ℕ → ℕ → Bool
  nonzero_at s c col = is_nonzero (at c (column s col))

  pub count_coeffs_lem :
      (s : PreprocessingState R) (c rounds col k : ℕ)
      → AreColumns s
      → count_coeffs s c rounds col k ≡ k + length (select (nonzero_at s c) col rounds)
  unfolding count_coeffs
  count_coeffs_lem s c zero col k h = omega arith
  count_coeffs_lem s c (suc rounds) col k h =
      let ih = count_coeffs_lem s c rounds (col + 1) (count_column c (column s col) k) h in
      let one = count_column_lem 0 s.original_problem.num_lin_cons c (column s col) k (h col) in
      elim (Bool-cases (nonzero_at s c col)) [
        | inl some_coeff ↦
            let one' = rw some_coeff at one in rw some_coeff (ih ∙ omega (arith, one'))
        | inr no_coeff ↦ let one' = rw no_coeff at one in rw no_coeff (ih ∙ omega (arith, one'))
      ]
