-- ===== src/Base/Counts.antt =====
-- How a write changes the number of entries of an array that pass a test.
use Prim.Native.Nat.{ℕ, ◌+◌, ◌<◌}
use mathlib.Core.Path.{◌≡◌, ap, sym, ◌∙◌}
use mathlib.Core.Logic.{inl, inr}
use mathlib.Core.Bool.{Bool, true, false}
use mathlib.Core.List.{List}
use native.Mathlib.Omega.{arith}
use sleqp.Base.Tests.{◌==◌, if◌then◌else◌, Bool-cases}
use sleqp.Base.Lists.{length, get_or, set, get_or-set_self, get_or-set_ne}
use sleqp.Base.Loops.{count_below, count_below_congr, count_below_step}

module _ {ℓ} {A : Type ℓ} (test : A → Bool) (d : A) where
  abbrev pub passes : List A → ℕ → Bool
  passes xs k = test (get_or xs k d)

  elsewhere :
      (xs : List A) (j k : ℕ) (v : A) → (k == j) ≡ false → passes xs k ≡ passes (set xs j v) k
  elsewhere xs j k v ne = sym (ap test (get_or-set_ne xs j k v d (λ e. absurd (ground arith))))

  pub count-set-true :
      (xs : List A) (n j : ℕ) (v : A)
      → length xs ≡ n
      → j < n
      → test v ≡ true
      → count_below n (passes (set xs j v))
        ≡ count_below n (passes xs) + (if passes xs j then 0 else 1)
  count-set-true xs n j v size lt t =
      let now : passes (set xs j v) j ≡ true =
        ap test (get_or-set_self xs j v d (omega arith)) ∙ t in
      elim (Bool-cases (passes xs j)) [
        | inl before ↦
            let same : count_below n (passes (set xs j v)) ≡ count_below n (passes xs) =
              count_below_congr n (passes (set xs j v)) (passes xs) (λ k l.
                elim (Bool-cases (k == j)) [
                  | inl e ↦
                      let e' : k ≡ j = ground arith in
                      ap (passes (set xs j v)) e' ∙ now ∙ sym before ∙ ap (passes xs) (sym e')
                  | inr ne ↦ sym (elsewhere xs j k v ne)
                ]) in
            rw before (omega (arith, same))
        | inr before ↦
            let more =
              count_below_step n j (passes xs) (passes (set xs j v)) lt before now
                (λ k l ne. elsewhere xs j k v ne) in
            rw before more
      ]

  pub count-set-false :
      (xs : List A) (n j : ℕ) (v : A)
      → length xs ≡ n
      → j < n
      → test v ≡ false
      → passes xs j ≡ false
      → count_below n (passes (set xs j v)) ≡ count_below n (passes xs)
  count-set-false xs n j v size lt t before =
      let now : passes (set xs j v) j ≡ false =
        ap test (get_or-set_self xs j v d (omega arith)) ∙ t in
      count_below_congr n (passes (set xs j v)) (passes xs) (λ k l. elim (Bool-cases (k == j)) [
        | inl e ↦
            let e' : k ≡ j = ground arith in
            ap (passes (set xs j v)) e' ∙ now ∙ sym before ∙ ap (passes xs) (sym e')
        | inr ne ↦ sym (elsewhere xs j k v ne)
      ])
