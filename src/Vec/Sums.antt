-- ===== src/Vec/Sums.antt =====
-- `sleqp_vec_add_scaled` against the sum of the dense vectors.
use sleqp.Base.{
  subst, ltb_zero, ℕ, zero, suc, ◌+◌, ◌≤◌, ◌<◌, ◌≡◌, refl, ap, sym, ◌∙◌, true, false, ◌&&◌, Option,
  none, some, [], ◌∷◌, arith, ltb, ◌==◌, if◌then◌else◌, is_some, length, Outcome, ok, ◌>>=◌,
  Bool-cases, inl, inr, ◌⊎◌,
}
use sleqp.Double.{Double}
use sleqp.Vec.{Entries, Vec, nnz, at, resize, clear, reserve}
use sleqp.Vec.Entries.{InRange, IsValid, InRange-weaken, at_above, emptied}
use sleqp.Vec.Merge.{
  is_nil, head_index, head_value, advance, smaller, weighted, add_loop, add_scaled,
  push_unless_zero,
}
use sleqp.Vec.Heads.{TwoRounds, two_rounds, TwoRounds-shorter}
use sleqp.Vec.Emit.{kept, emit}

module _ {R : Type 0} ⦃d : Double R⦄ (f g eps : R) where
  -- What the sum has at an index, from what the two vectors have there.
  abbrev pub sum_at : Option R → Option R → Option R
  sum_at none none = none
  sum_at none (some y) = kept eps (weighted f g none (some y))
  sum_at (some x) b = kept eps (weighted f g (some x) b)

  -- The loop from index `b` on, for vectors of dimension `n`.
  record Summed (v : Vec R) (b n : ℕ) (xs ys : Entries R) (o : Outcome (Vec R)) (out : Entries R)
      : Type 0 where
    runs : o ≡ ok (record v { entries = out })
    in_range : InRange 0 n out
    fits : length out ≤ v.nnz_max
    found : (j : ℕ) → at j out ≡ (if ltb j b then at j v.entries else sum_at (at j xs) (at j ys))

  sum_at_of_some :
      (a b : Option R)
      → (is_some a ≡ true) ⊎ (is_some b ≡ true)
      → sum_at a b ≡ kept eps (weighted f g a b)
  sum_at_of_some a b h = ground arith

  -- One round carries what is found in the result from behind `i` to behind `b`.
  found_step :
      (b n i j : ℕ) (xs ys old es out : Entries R)
      → InRange 0 b old
      → TwoRounds b n i xs ys
      → at j es
        ≡ (if i == j then kept eps (weighted f g (head_value i xs) (head_value i ys)) else at j old)
      → at j out
        ≡ (if ltb j (suc i) then at j es else sum_at (at j (advance i xs)) (at j (advance i ys)))
      → at j out ≡ (if ltb j b then at j old else sum_at (at j xs) (at j ys))
  found_step b n i j xs ys old es out hv r here behind = elim (Bool-cases (i == j)) [
    | inl e ↦
        let same : i ≡ j = ground arith in
        let sums : sum_at (at i xs) (at i ys) ≡ kept eps (weighted f g (at i xs) (at i ys)) =
          sum_at_of_some (at i xs) (at i ys) r.progress in
        ground (
          arith,
          sums,
          ap (λ k. at k xs) same,
          ap (λ k. at k ys) same,
          r.of_first.value_at,
          r.of_second.value_at,
          r.index_ge,
        )
    | inr ne ↦ ground (
      arith,
      at_above 0 b old j hv,
      r.of_first.none_before j,
      r.of_second.none_before j,
      r.of_first.same_behind j,
      r.of_second.same_behind j,
    )
  ]

  stopped :
      (fuel b n s t : ℕ) (xs ys : Entries R) (v : Vec R)
      → InRange b n xs
      → InRange 0 b v.entries
      → nnz v ≤ v.nnz_max
      → is_nil xs && is_nil ys ≡ true
      → Summed v b n xs ys (add_loop (suc fuel) f g eps s t xs ys v) v.entries
  unfolding add_loop
  stopped fuel b n s t [] [] v hx hv room done = record {
    runs = refl;
    in_range = InRange-weaken 0 0 b n v.entries (omega arith) hx hv;
    fits = room;
    found = λ j. ground (arith, at_above 0 b v.entries j hv);
  }
  stopped fuel b n s t [] (y ∷ ys) v hx hv room done = absurd (ground arith)
  stopped fuel b n s t (x ∷ xs) ys v hx hv room done = absurd (ground arith)

  add_loop_step :
      (fuel s t i : ℕ) (xs ys : Entries R) (v : Vec R)
      → is_nil xs && is_nil ys ≡ false
      → smaller (head_index s xs) (head_index t ys) ≡ i
      → add_loop (suc fuel) f g eps s t xs ys v ≡ (
          push_unless_zero eps v i (weighted f g (head_value i xs) (head_value i ys))
          >>= add_loop fuel f g eps s t (advance i xs) (advance i ys))
  unfolding add_loop
  add_loop_step fuel s t i xs ys v more at_i = rw (more, add_loop) (rw at_i)

  -- What the loop does from `b` on is known of every vector with less fuel.
  abbrev Known : ℕ → Type 0
  Known fuel =
      (b n s t : ℕ) (xs ys : Entries R) (v : Vec R)
      → InRange b n xs
      → InRange b n ys
      → InRange 0 b v.entries
      → v.dim ≡ n
      → n ≤ s
      → n ≤ t
      → length xs + length ys < fuel
      → nnz v + length xs + length ys ≤ v.nnz_max
      → (out : Entries R) × Summed v b n xs ys (add_loop fuel f g eps s t xs ys v) out

  continued :
      (fuel b n s t : ℕ) (xs ys : Entries R) (v : Vec R)
      → InRange b n xs
      → InRange b n ys
      → InRange 0 b v.entries
      → v.dim ≡ n
      → n ≤ s
      → n ≤ t
      → length xs + length ys < suc fuel
      → nnz v + length xs + length ys ≤ v.nnz_max
      → is_nil xs && is_nil ys ≡ false
      → Known fuel
      → (out : Entries R) × Summed v b n xs ys (add_loop (suc fuel) f g eps s t xs ys v) out
  continued fuel b n s t xs ys v hx hy hv e ls lt enough room more known =
      round_on (smaller (head_index s xs) (head_index t ys))
        (two_rounds b n s t xs ys hx hy ls lt more) refl
    where
      round_on :
          (i : ℕ)
          → TwoRounds b n i xs ys
          → smaller (head_index s xs) (head_index t ys) ≡ i
          → (out : Entries R) × Summed v b n xs ys (add_loop (suc fuel) f g eps s t xs ys v) out
      round_on i r at_i =
          let shorter : length (advance i xs) + length (advance i ys) < length xs + length ys =
            TwoRounds-shorter b n i xs ys r in
          let (es, em) =
            emit eps v b i (weighted f g (head_value i xs) (head_value i ys)) hv r.index_ge
              (omega (arith, r.index_lt)) (λ z. omega arith) in
          let longer : length es ≤ nnz v + 1 = ground (arith, em.short) in
          let (out, rest) =
            known (suc i) n s t (advance i xs) (advance i ys) (record v { entries = es })
              r.of_first.rest_in r.of_second.rest_in em.below e ls lt (omega arith) (omega arith) in
          (
            out,
            record {
              runs =
                  add_loop_step fuel s t i xs ys v more at_i
                  ∙ ap (λ o. o >>= add_loop fuel f g eps s t (advance i xs) (advance i ys)) em.runs
                  ∙ rest.runs;
              in_range = rest.in_range;
              fits = rest.fits;
              found =
                  λ j. found_step b n i j xs ys v.entries es out hv r (em.found j) (rest.found j);
            },
          )

  add_loop_lem :
      (fuel b n s t : ℕ) (xs ys : Entries R) (v : Vec R)
      → InRange b n xs
      → InRange b n ys
      → InRange 0 b v.entries
      → v.dim ≡ n
      → n ≤ s
      → n ≤ t
      → length xs + length ys < fuel
      → nnz v + length xs + length ys ≤ v.nnz_max
      → (out : Entries R) × Summed v b n xs ys (add_loop fuel f g eps s t xs ys v) out
  add_loop_lem zero b n s t xs ys v hx hy hv e ls lt enough room = absurd (omega arith)
  add_loop_lem (suc fuel) b n s t xs ys v hx hy hv e ls lt enough room =
      elim (Bool-cases (is_nil xs && is_nil ys)) [
        | inl done ↦ (v.entries, stopped fuel b n s t xs ys v hx hv (omega arith) done)
        | inr more ↦
            continued fuel b n s t xs ys v hx hy hv e ls lt enough room more (add_loop_lem fuel)
      ]

  -- For valid vectors of one dimension `add_scaled` returns, whatever the result held before; the
  -- result is valid, and has at each index the weighted sum of the two values there, or no entry
  -- where neither vector has one or where the sum is zero up to `eps`.
  pub add_scaled_lem :
      (first second result : Vec R)
      → IsValid first
      → IsValid second
      → first.dim ≡ second.dim
      → (out : Vec R) × (add_scaled first second f g eps result ≡ ok out)
        × IsValid out
        × (out.dim ≡ first.dim)
        × ((j : ℕ) → at j out.entries ≡ sum_at (at j first.entries) (at j second.entries))
  unfolding add_scaled
  add_scaled_lem first second result hx hy e =
      let start : Vec R = reserve (resize (clear result) first.dim) (nnz first + nnz second) in
      let test : (first.dim == second.dim) ≡ true = ground arith in
      let (none_yet, same_dim, room) = emptied result first.dim (nnz first + nnz second) in
      let below : InRange 0 0 start.entries = rw none_yet (omega arith) in
      let count : nnz start ≡ 0 = ap length none_yet in
      let (out, sum) =
        add_loop_lem (suc (nnz first + nnz second)) 0 first.dim (first.dim + 1) (second.dim + 1)
          first.entries second.entries start hx.in_range
          (subst (λ n. InRange 0 n second.entries) (sym e) hy.in_range) below same_dim (omega arith)
          (omega arith) (omega arith) (omega arith) in
      (
        record start { entries = out },
        rw test sum.runs,
        record {
          in_range = subst (λ n. InRange 0 n out) (sym same_dim) sum.in_range;
          fits = sum.fits;
        },
        same_dim,
        λ j.
            sum.found j
            ∙ ap
                (λ b.
                  if b
                  then at j start.entries
                  else sum_at (at j first.entries) (at j second.entries))
                (ltb_zero j),
      )
