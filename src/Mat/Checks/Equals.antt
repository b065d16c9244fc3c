-- ===== src/Mat/Checks/Equals.antt =====
-- `eq` of mat.c.
use sleqp.Base.{
  ℕ, suc, ◌<◌, ◌≡◌, refl, ap, sym, subst, ◌∙◌, Bool, true, false, ◌&&◌, ◌||◌, Option, none, some,
  [], ◌∷◌, arith, ◌==◌, all_below_elim, ok, >>-eq-ok, ok-injective, Bool-cases, inl, inr,
}
use sleqp.Double.{Double, is_eq, is_zero}
use sleqp.Vec.{Entries, at}
use sleqp.Vec.Entries.{InRange, at_below}
use sleqp.Mat.{Mat, column}
use sleqp.Mat.Columns.{IsValid}
use sleqp.Mat.Checks.{eq_column, eq}

module _ {R : Type 0} ⦃d : Double R⦄ (eps : R) where
  -- Two values at one place are equal up to `eps`, or both zero up to `eps`; a missing entry is zero.
  abbrev pub close : Option R → Option R → Bool
  close none none = true
  close none (some y) = is_zero y eps
  close (some x) none = is_zero x eps
  close (some x) (some y) = is_eq x y eps || (is_zero x eps && is_zero y eps)

  skip_first :
      (x : R) (b : Option R) → is_zero x eps ≡ true → close none b ≡ true → close (some x) b ≡ true
  skip_first x none z h = z
  skip_first x (some y) z h = ground arith

  eq_column-close :
      (a b n : ℕ) (xs ys : Entries R)
      → InRange a n xs
      → InRange b n ys
      → eq_column eps xs ys ≡ true
      → (i : ℕ) → close (at i xs) (at i ys) ≡ true
  unfolding eq_column
  eq_column-close a b n [] [] hx hy h i = refl
  eq_column-close a b n [] ((s, y) ∷ ys) hx hy h i = elim (Bool-cases (is_zero y eps)) [
    | inl z ↦
        let h' : eq_column eps [] ys ≡ true = rw (z, eq_column) at h in
        elim (Bool-cases (s == i)) [
          | inl e ↦ rw e z
          | inr ne ↦ rw ne (eq_column-close a (suc s) n [] ys hx hy.2 h' i)
        ]
    | inr nz ↦ let h' : false ≡ true = rw (nz, eq_column) at h in absurd (ground arith)
  ]
  eq_column-close a b n ((r, x) ∷ xs) [] hx hy h i = elim (Bool-cases (is_zero x eps)) [
    | inl z ↦
        let h' : eq_column eps xs [] ≡ true = rw (z, eq_column) at h in
        elim (Bool-cases (r == i)) [
          | inl e ↦ rw e z
          | inr ne ↦ rw ne (eq_column-close (suc r) b n xs [] hx.2 hy h' i)
        ]
    | inr nz ↦ let h' : false ≡ true = rw (nz, eq_column) at h in absurd (ground arith)
  ]
  eq_column-close a b n ((r, x) ∷ xs) ((s, y) ∷ ys) hx hy h i = elim (Bool-cases (r == s)) [
    | inl here ↦ elim (Bool-cases (is_eq x y eps)) [
      | inl same ↦
          let h' : eq_column eps xs ys ≡ true = rw (here, same, eq_column) at h in
          let rest = eq_column-close (suc r) (suc s) n xs ys hx.2 hy.2 h' i in
          let q : r ≡ s = ground arith in
          elim (Bool-cases (r == i)) [
            | inl e ↦ let e' : (s == i) ≡ true = ground arith in rw (e, e', same) refl
            | inr ne ↦ let ne' : (s == i) ≡ false = ground arith in rw (ne, ne') rest
          ]
      | inr differ ↦
          let h' : false ≡ true = rw (here, differ, eq_column) at h in absurd (ground arith)
    ]
    | inr apart ↦ elim (Bool-cases (is_zero x eps)) [
      | inl z ↦
          let h' : eq_column eps xs ((s, y) ∷ ys) ≡ true = rw (apart, z, eq_column) at h in
          let rest = eq_column-close (suc r) b n xs ((s, y) ∷ ys) hx.2 hy h' i in
          elim (Bool-cases (r == i)) [
            | inl e ↦
                let q : r ≡ i = ground arith in
                let missing : at i xs ≡ none = at_below (suc r) n xs i hx.2 (omega arith) in
                rw e (
                  skip_first x (at i ((s, y) ∷ ys)) z
                    (sym (ap (λ o. close o (at i ((s, y) ∷ ys))) missing) ∙ rest))
            | inr ne ↦ rw ne rest
          ]
      | inr nz ↦ let h' : false ≡ true = rw (apart, nz, eq_column) at h in absurd (ground arith)
    ]
  ]

  -- `eq` never accepts matrices that differ: where it answers `true` for two valid matrices, the
  -- values at every place are equal up to `eps`, or both zero up to `eps`.
  pub eq-close :
      (first second : Mat R)
      → IsValid first
      → IsValid second
      → eq first second eps ≡ ok true
      → (c i : ℕ) → c < first.num_cols
      → close (at i (column first c)) (at i (column second c)) ≡ true
  unfolding eq
  eq-close first second v w h c i lt =
      let (row_test, h1) = >>-eq-ok (first.num_rows == second.num_rows) _ h in
      let (col_test, h2) = >>-eq-ok (first.num_cols == second.num_cols) _ h1 in
      let test : ℕ → Bool = λ col. eq_column eps (column first col) (column second col) in
      let rows : second.num_rows ≡ first.num_rows = ground arith in
      let lt' : c < second.num_cols = ground arith in
      eq_column-close 0 0 first.num_rows (column first c) (column second c) (v.in_range c lt)
        (subst (λ n. InRange 0 n (column second c)) rows (w.in_range c lt'))
        (all_below_elim first.num_cols test c (ok-injective h2) lt) i
