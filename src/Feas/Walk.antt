-- ===== src/Feas/Walk.antt =====
-- The loop of feas.c against the loop over all indices.
use sleqp.Base.{
  ℕ, zero, suc, ◌+◌, ◌≤◌, ◌<◌, ◌≡◌, refl, ap, sym, subst, ◌∙◌, Bool, true, false, ◌&&◌, ◌||◌,
  Option, [], ◌∷◌, arith, ◌==◌, if◌then◌else◌, is_some, length, Outcome, ok, ◌>>=◌, Bool-cases, inl,
  inr, ◌⊎◌,
}
use sleqp.Double.{Double}
use sleqp.Vec.{Entries, Vec, nnz, at, or_nought}
use sleqp.Vec.Entries.{InRange, IsValid}
use sleqp.Vec.Merge.{is_nil, head_index, head_value, advance, smaller}
use sleqp.Vec.Heads.{three_rounds, ThreeRounds-shorter}
use sleqp.Feas.{walk, walk_all}

module _ {R : Type 0} where
  -- Whether one of the vectors has an entry.
  abbrev pub visited : Option R → Option R → Option R → Bool
  visited c lb ub = is_some c || is_some lb || is_some ub

  -- Behind the index `b` nothing is at it.
  InRange-later :
      (b n s : ℕ) (es : Entries R)
      → InRange b n es
      → b < n
      → b < head_index s es
      → InRange (suc b) n es
  InRange-later b n s [] h lt later = lt
  InRange-later b n s ((i, x) ∷ es) h lt later = (later, h.1, h.2)

module _ {R : Type 0} ⦃d : Double R⦄ {S : Type 0} (step : ℕ → R → R → R → S → Outcome S) where
  open d use {nought}

  -- One index of the loop over all of them.
  abbrev pub turn : ℕ → Option R → Option R → Option R → S → Outcome S
  turn i c lb ub state =
      if visited c lb ub then step i (or_nought c) (or_nought lb) (or_nought ub) state else ok state

  -- The loop over the indices from `i` on, `rounds` of them.
  unfoldable pub dense : (cs ls us : Entries R) (rounds i : ℕ) → S → Outcome S
  dense cs ls us zero i state = ok state
  dense cs ls us (suc rounds) i state =
      turn i (at i cs) (at i ls) (at i us) state >>= dense cs ls us rounds (suc i)

  dense_congr :
      (cs ls us cs' ls' us' : Entries R) (rounds i : ℕ) (state : S)
      → ((j : ℕ) → i ≤ j → at j cs ≡ at j cs')
      → ((j : ℕ) → i ≤ j → at j ls ≡ at j ls')
      → ((j : ℕ) → i ≤ j → at j us ≡ at j us')
      → dense cs ls us rounds i state ≡ dense cs' ls' us' rounds i state
  unfolding dense
  dense_congr cs ls us cs' ls' us' zero i state hc hl hu = refl
  dense_congr cs ls us cs' ls' us' (suc rounds) i state hc hl hu =
      rw (hc i (omega arith), hl i (omega arith), hu i (omega arith))
        (ap (λ k. turn i (at i cs') (at i ls') (at i us') state >>= k)
          (λ t s.
            dense_congr cs ls us cs' ls' us' rounds (suc i) s (λ j le. hc j (omega arith))
              (λ j le. hl j (omega arith)) (λ j le. hu j (omega arith)) t))

  dense_empty : (rounds i : ℕ) (state : S) → dense [] [] [] rounds i state ≡ ok state
  unfolding dense
  dense_empty zero i state = refl
  dense_empty (suc rounds) i state = dense_empty rounds (suc i) state

  walk_done :
      (fuel s rounds b : ℕ) (cs ls us : Entries R) (state : S)
      → is_nil cs && is_nil ls && is_nil us ≡ true
      → walk (suc fuel) step s cs ls us state ≡ dense cs ls us rounds b state
  unfolding walk
  walk_done fuel s rounds b [] [] [] state e = sym (dense_empty rounds b state)
  walk_done fuel s rounds b [] [] (u ∷ us) state e = absurd (ground arith)
  walk_done fuel s rounds b [] (l ∷ ls) us state e = absurd (ground arith)
  walk_done fuel s rounds b (c ∷ cs) ls us state e = absurd (ground arith)

  walk_step :
      (fuel s i : ℕ) (cs ls us : Entries R) (state : S)
      → is_nil cs && is_nil ls && is_nil us ≡ false
      → smaller (smaller (head_index s cs) (head_index s ls)) (head_index s us) ≡ i
      → walk (suc fuel) step s cs ls us state ≡ (
          step i
            (or_nought (head_value i cs))
            (or_nought (head_value i ls))
            (or_nought (head_value i us))
            state
          >>= walk fuel step s (advance i cs) (advance i ls) (advance i us))
  unfolding walk
  walk_step fuel s i cs ls us state more at_i = rw (more, walk) (rw at_i)

  visited_of :
      (c lb ub : Option R)
      → (is_some c ≡ true) ⊎ (is_some lb ≡ true) ⊎ (is_some ub ≡ true)
      → visited c lb ub ≡ true
  visited_of c lb ub h = ground arith

  pub walk-dense :
      (rounds fuel b n s : ℕ) (cs ls us : Entries R) (state : S)
      → b + rounds ≡ n
      → InRange b n cs
      → InRange b n ls
      → InRange b n us
      → n ≤ s
      → length cs + length ls + length us < fuel
      → walk fuel step s cs ls us state ≡ dense cs ls us rounds b state
  unfolding dense
  walk-dense rounds zero b n s cs ls us state e hc hl hu le enough = absurd (omega arith)
  walk-dense zero (suc fuel) b n s cs ls us state e hc hl hu le enough =
      elim (Bool-cases (is_nil cs && is_nil ls && is_nil us)) [
        | inl done ↦ walk_done fuel s 0 b cs ls us state done
        | inr more ↦
            let r = three_rounds b n s cs ls us hc hl hu le more in
            absurd (omega (arith, r.index_ge, r.index_lt))
      ]
  walk-dense (suc rounds) (suc fuel) b n s cs ls us state e hc hl hu le enough =
      elim (Bool-cases (is_nil cs && is_nil ls && is_nil us)) [
        | inl done ↦ walk_done fuel s (suc rounds) b cs ls us state done
        | inr more ↦
            let i = smaller (smaller (head_index s cs) (head_index s ls)) (head_index s us) in
            let r = three_rounds b n s cs ls us hc hl hu le more in
            let shorter = ThreeRounds-shorter b n i cs ls us r in
            elim (Bool-cases (i == b)) [
              | inl here ↦
                  let q : i ≡ b = ground arith in
                  let found = visited_of (at i cs) (at i ls) (at i us) r.progress in
                  let later = λ (t : S).
                    walk-dense rounds fuel (suc i) n s (advance i cs) (advance i ls) (advance i us)
                      t (omega arith) r.of_first.rest_in r.of_second.rest_in r.of_third.rest_in le
                      (omega arith)
                    ∙ dense_congr (advance i cs) (advance i ls) (advance i us) cs ls us rounds
                        (suc i) t (λ j l. r.of_first.same_behind j l)
                        (λ j l. r.of_second.same_behind j l) (λ j l. r.of_third.same_behind j l) in
                  walk_step fuel s i cs ls us state more refl
                  ∙ rw (r.of_first.value_at, r.of_second.value_at, r.of_third.value_at)
                      (ap
                        (λ k.
                          step i (or_nought (at i cs)) (or_nought (at i ls)) (or_nought (at i us))
                            state
                          >>= k)
                        (λ t s'. later s' t))
                  ∙ subst
                      (λ k.
                        (step i (or_nought (at i cs)) (or_nought (at i ls)) (or_nought (at i us))
                            state
                          >>= dense cs ls us rounds (suc i))
                        ≡ (turn k (at k cs) (at k ls) (at k us) state
                            >>= dense cs ls us rounds (suc k)))
                      q (rw found refl)
              | inr behind ↦
                  let lt : b < i = ground (arith, r.index_ge) in
                  let nothing : visited (at b cs) (at b ls) (at b us) ≡ false =
                    rw
                      (
                        r.of_first.none_before b lt,
                        r.of_second.none_before b lt,
                        r.of_third.none_before b lt,
                      )
                      refl in
                  let rest =
                    walk-dense rounds (suc fuel) (suc b) n s cs ls us state (omega arith)
                      (InRange-later b n s cs hc (omega arith) (ground arith))
                      (InRange-later b n s ls hl (omega arith) (ground arith))
                      (InRange-later b n s us hu (omega arith) (ground arith)) le enough in
                  rest ∙ rw nothing refl
            ]
      ]

  -- The whole loop, over valid vectors of one dimension.
  pub walk_all-dense :
      (c lb ub : Vec R) (state : S)
      → IsValid c
      → IsValid lb
      → IsValid ub
      → c.dim ≡ lb.dim
      → c.dim ≡ ub.dim
      → walk_all step c lb ub state ≡ dense c.entries lb.entries ub.entries c.dim 0 state
  unfolding walk_all
  walk_all-dense c lb ub state hc hl hu el eu =
      walk-dense c.dim (suc (nnz c + nnz lb + nnz ub)) 0 c.dim (c.dim + 1) c.entries lb.entries
        ub.entries state (omega arith) hc.in_range
        (subst (λ n. InRange 0 n lb.entries) (sym el) hl.in_range)
        (subst (λ n. InRange 0 n ub.entries) (sym eu) hu.in_range) (omega arith) (omega arith)
