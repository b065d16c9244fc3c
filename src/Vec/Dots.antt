-- ===== src/Vec/Dots.antt =====
-- `sleqp_vec_dot` against the loop over all indices.
use sleqp.Base.{
  ℕ, zero, suc, ◌+◌, ◌≤◌, ◌≡◌, refl, ap, subst, sym, ◌∙◌, true, Option, none, some, [], ◌∷◌, arith,
  ◌==◌, ok,
}
use sleqp.Double.{Double}
use sleqp.Vec.{Entries, Vec, at}
use sleqp.Vec.Entries.{InRange, IsValid, at_below}
use sleqp.Vec.Merge.{dot_loop, dot, advance}
use sleqp.Vec.Heads.{round, head_ge}

module _ {R : Type 0} ⦃d : Double R⦄ where
  open d use {nought, plus, times}

  -- `sum += x * y`, where both have an entry.
  abbrev pub add_product : R → Option R → Option R → R
  add_product sum none b = sum
  add_product sum (some x) none = sum
  add_product sum (some x) (some y) = plus sum (times x y)

  -- The loop over the indices from `i` on, `rounds` of them, of two vectors read by `at`.
  abbrev pub dense_dot : (ℕ → Option R) → (ℕ → Option R) → ℕ → ℕ → R → R
  dense_dot a b zero i sum = sum
  dense_dot a b (suc rounds) i sum = dense_dot a b rounds (suc i) (add_product sum (a i) (b i))

  pub dense_dot_congr :
      (a a' b b' : ℕ → Option R) (rounds i : ℕ) (sum : R)
      → ((j : ℕ) → i ≤ j → a j ≡ a' j)
      → ((j : ℕ) → i ≤ j → b j ≡ b' j)
      → dense_dot a b rounds i sum ≡ dense_dot a' b' rounds i sum
  dense_dot_congr a a' b b' zero i sum ha hb = refl
  dense_dot_congr a a' b b' (suc rounds) i sum ha hb =
      rw (ha i (omega arith), hb i (omega arith))
        (dense_dot_congr a a' b b' rounds (suc i) _ (λ j h. ha j (omega arith))
          (λ j h. hb j (omega arith)))

  pub dot_loop_nil : (xs : Entries R) (sum : R) → dot_loop sum xs [] ≡ sum
  unfolding dot_loop
  dot_loop_nil [] sum = refl
  dot_loop_nil (x ∷ xs) sum = refl

  -- The loop passes over the index `b`, where nothing lies before it.
  dot_loop_round :
      (b n : ℕ) (xs ys : Entries R) (sum : R)
      → InRange b n xs
      → InRange b n ys
      → dot_loop sum xs ys
        ≡ dot_loop (add_product sum (at b xs) (at b ys)) (advance b xs) (advance b ys)
  unfolding dot_loop
  dot_loop_round b n [] ys sum hx hy = refl
  dot_loop_round b n ((i, x) ∷ xs) [] sum hx hy =
      elim (at b ((i, x) ∷ xs))
        as (λ o. sum ≡ dot_loop (add_product sum o none) (advance b ((i, x) ∷ xs)) []) [
          | none ↦ sym (dot_loop_nil (advance b ((i, x) ∷ xs)) sum)
          | some v ↦ sym (dot_loop_nil (advance b ((i, x) ∷ xs)) sum)
        ]
  dot_loop_round b n ((i, x) ∷ xs) ((j, y) ∷ ys) sum hx hy =
      ground (arith, at_below (suc i) n xs b hx.2, at_below (suc j) n ys b hy.2)

  pub dot_loop_lem :
      (rounds b n : ℕ) (xs ys : Entries R) (sum : R)
      → b + rounds ≡ n
      → InRange b n xs
      → InRange b n ys
      → dot_loop sum xs ys ≡ dense_dot (λ j. at j xs) (λ j. at j ys) rounds b sum
  unfolding dot_loop
  dot_loop_lem zero b n [] ys sum e hx hy = refl
  dot_loop_lem zero b n (x ∷ xs) ys sum e hx hy = absurd (omega arith)
  dot_loop_lem (suc rounds) b n xs ys sum e hx hy =
      let rx = round b n n b xs hx (omega arith) (head_ge b n n xs hx (omega arith)) in
      let ry = round b n n b ys hy (omega arith) (head_ge b n n ys hy (omega arith)) in
      dot_loop_round b n xs ys sum hx hy
      ∙ dot_loop_lem rounds (suc b) n (advance b xs) (advance b ys)
          (add_product sum (at b xs) (at b ys)) (omega arith) rx.rest_in ry.rest_in
      ∙ dense_dot_congr _ _ _ _ rounds (suc b) _ (λ j h. rx.same_behind j h)
          (λ j h. ry.same_behind j h)

  -- `dot` of two valid vectors of one dimension is the sum, in the order of the indices, of the
  -- products where both have an entry.
  pub dot_lem :
      (first second : Vec R)
      → IsValid first
      → IsValid second
      → first.dim ≡ second.dim
      → dot first second
        ≡ ok (dense_dot (λ j. at j first.entries) (λ j. at j second.entries) first.dim 0 nought)
  unfolding dot
  dot_lem first second hx hy e =
      let test : (first.dim == second.dim) ≡ true = ground arith in
      rw test (
        ap ok (
          dot_loop_lem first.dim 0 first.dim first.entries second.entries nought (omega arith)
            hx.in_range (subst (λ n. InRange 0 n second.entries) (sym e) hy.in_range)))
