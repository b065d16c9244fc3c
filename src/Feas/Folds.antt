-- ===== src/Feas/Folds.antt =====
-- `violated_constraints`, `max_violation` and `total_violation` of feas.c.
use sleqp.Base.{
  ℕ, zero, suc, ◌+◌, ◌≡◌, refl, ap, sym, subst, ◌∙◌, Bool, true, false, ◌||◌, List, [], ◌∷◌, ◌++◌,
  arith, ◌==◌, if◌then◌else◌, select, append_nil, append_assoc, Outcome, ok, Bool-cases, inl, inr,
}
use sleqp.Double.{Double, fmax}
use sleqp.Vec.{Entries, Vec, nnz, at, or_nought}
use sleqp.Vec.Entries.{InRange, IsValid}
use sleqp.Feas.{
  upper, lower, by_bound, add_violated, violated_constraints, raise_max, max_violation,
  add_violation, total_violation,
}
use sleqp.Feas.Walk.{visited, dense, walk-dense, walk_all-dense}
use sleqp.Feas.Values.{ZeroFits, not_visited}

module _ {R : Type 0} ⦃d : Double R⦄ {S : Type 0} (f : R → R → R → S → S) where
  open d use {nought}

  -- The loop over all indices, with 0 for a missing entry.
  abbrev pub folded : (cs ls us : Entries R) (rounds i : ℕ) → S → S
  folded cs ls us zero i state = state
  folded cs ls us (suc rounds) i state =
      folded cs ls us rounds (suc i)
        (f (or_nought (at i cs)) (or_nought (at i ls)) (or_nought (at i us)) state)

  -- A body that leaves the state as it is at three zeros may as well run at every index.
  dense-folded :
      (step : ℕ → R → R → R → S → Outcome S) (cs ls us : Entries R) (rounds i : ℕ) (state : S)
      → ((i : ℕ) (c lb ub : R) (s : S) → step i c lb ub s ≡ ok (f c lb ub s))
      → ((s : S) → f nought nought nought s ≡ s)
      → dense step cs ls us rounds i state ≡ ok (folded cs ls us rounds i state)
  unfolding dense
  dense-folded step cs ls us zero i state runs idle = refl
  dense-folded step cs ls us (suc rounds) i state runs idle =
      elim (Bool-cases (visited (at i cs) (at i ls) (at i us))) [
        | inl found ↦
            rw
              (
                found,
                runs i (or_nought (at i cs)) (or_nought (at i ls)) (or_nought (at i us)) state,
              )
              (dense-folded step cs ls us rounds (suc i)
                (f (or_nought (at i cs)) (or_nought (at i ls)) (or_nought (at i us)) state) runs
                idle)
        | inr nothing ↦
            let (ec, el, eu) = not_visited (at i cs) (at i ls) (at i us) nothing in
            let same : f (or_nought (at i cs)) (or_nought (at i ls)) (or_nought (at i us)) state
                ≡ state =
              rw (ec, el, eu) (idle state) in
            rw nothing (
              dense-folded step cs ls us rounds (suc i) state runs idle
              ∙ ap (λ s. ok (folded cs ls us rounds (suc i) s)) (sym same))
      ]

module _ {R : Type 0} ⦃d : Double R⦄ where
  open d use {nought, plus, lt}

  abbrev pub raised : R → R → R → R → R
  raised c lb ub top = by_bound c lb ub (fmax (upper c ub) top) (fmax (lower c lb) top) top

  abbrev pub added : R → R → R → R → R
  added c lb ub total = by_bound c lb ub (plus total (upper c ub)) (plus total (lower c lb)) total

  -- `max_violation` and `total_violation` of valid vectors return what the loops over all the
  -- constraints compute, with 0 for every missing value and bound: the largest violation and the sum
  -- of all, if 0 fits between 0 and 0.
  pub violations_lem :
      (num_cons : ℕ) (lb ub c : Vec R)
      → ZeroFits R
      → IsValid c
      → IsValid lb
      → IsValid ub
      → c.dim ≡ num_cons
      → c.dim ≡ lb.dim
      → c.dim ≡ ub.dim
      → (max_violation num_cons lb ub c
          ≡ ok (folded raised c.entries lb.entries ub.entries num_cons 0 nought))
        × (total_violation num_cons lb ub c
            ≡ ok (folded added c.entries lb.entries ub.entries num_cons 0 nought))
  unfolding max_violation total_violation raise_max add_violation
  violations_lem num_cons lb ub c z hc hl hu en el eu =
      let t1 : (c.dim == num_cons) ≡ true = ground arith in
      let t2 : (c.dim == lb.dim) ≡ true = ground arith in
      let t3 : (c.dim == ub.dim) ≡ true = ground arith in
      (
        rw (t1, t2, t3)
            (walk_all-dense raise_max c lb ub nought hc hl hu el eu
              ∙ dense-folded raised raise_max c.entries lb.entries ub.entries c.dim 0 nought
                  (λ i x l u s. refl) (λ s. rw z refl)
              ∙ ap (λ n. ok (folded raised c.entries lb.entries ub.entries n 0 nought)) en),
        rw (t1, t2, t3)
            (walk_all-dense add_violation c lb ub nought hc hl hu el eu
              ∙ dense-folded added add_violation c.entries lb.entries ub.entries c.dim 0 nought
                  (λ i x l u s. refl) (λ s. rw z refl)
              ∙ ap (λ n. ok (folded added c.entries lb.entries ub.entries n 0 nought)) en),
      )

  -- The value is beyond a bound.
  abbrev pub is_violated : R → R → R → Bool
  is_violated c lb ub = lt nought (upper c ub) || lt nought (lower c lb)

  abbrev violated_at : Entries R → Entries R → Entries R → ℕ → Bool
  violated_at cs ls us i =
      is_violated (or_nought (at i cs)) (or_nought (at i ls)) (or_nought (at i us))

  add_violated_lem :
      (i : ℕ) (lb ub c : R) (found : List ℕ)
      → add_violated i lb ub c found ≡ ok (if is_violated c lb ub then found ++ (i ∷ []) else found)
  unfolding add_violated
  add_violated_lem i lb ub c found = elim (Bool-cases (lt nought (upper c ub))) [
    | inl above ↦ rw above refl
    | inr not_above ↦ rw not_above refl
  ]

  dense-select :
      (cs ls us : Entries R) (rounds i : ℕ) (found : List ℕ)
      → ZeroFits R
      → dense add_violated ls us cs rounds i found
        ≡ ok (found ++ select (violated_at cs ls us) i rounds)
  unfolding dense
  dense-select cs ls us zero i found z = ap ok (sym (append_nil found))
  dense-select cs ls us (suc rounds) i found z =
      let e : suc i ≡ i + 1 = omega arith in
      let test = violated_at cs ls us in
      let rest = λ (l : List ℕ).
        dense-select cs ls us rounds (suc i) l z ∙ ap (λ k. ok (l ++ select test k rounds)) e in
      elim (Bool-cases (visited (at i ls) (at i us) (at i cs))) [
        | inl seen ↦ elim (Bool-cases (test i)) [
          | inl out_of_bounds ↦
              rw
                (
                  seen,
                  add_violated_lem i (or_nought (at i ls)) (or_nought (at i us))
                      (or_nought (at i cs)) found,
                  out_of_bounds,
                )
                (rest (found ++ (i ∷ []))
                  ∙ ap ok (append_assoc found (i ∷ []) (select test (i + 1) rounds)))
          | inr within ↦
              rw
                (
                  seen,
                  add_violated_lem i (or_nought (at i ls)) (or_nought (at i us))
                      (or_nought (at i cs)) found,
                  within,
                )
                (rest found)
        ]
        | inr nothing ↦
            let (el, eu, ec) = not_visited (at i ls) (at i us) (at i cs) nothing in
            let within : test i ≡ false = rw (ec, el, eu, z) refl in
            rw (nothing, within) (rest found)
      ]

  -- `violated_constraints` of valid vectors lists, in increasing order, exactly the constraints whose
  -- values are beyond a bound, if 0 fits between 0 and 0.
  pub violated_constraints_lem :
      (lb ub c : Vec R)
      → ZeroFits R
      → IsValid c
      → IsValid lb
      → IsValid ub
      → c.dim ≡ lb.dim
      → c.dim ≡ ub.dim
      → violated_constraints lb ub c
        ≡ ok (
            select
              (λ i.
                is_violated
                  (or_nought (at i c.entries))
                  (or_nought (at i lb.entries))
                  (or_nought (at i ub.entries)))
              0
              c.dim)
  unfolding violated_constraints
  violated_constraints_lem lb ub c z hc hl hu el eu =
      walk-dense add_violated c.dim (suc (nnz lb + nnz ub + nnz c)) 0 c.dim (c.dim + 1) lb.entries
        ub.entries c.entries [] (omega arith)
        (subst (λ n. InRange 0 n lb.entries) (sym el) hl.in_range)
        (subst (λ n. InRange 0 n ub.entries) (sym eu) hu.in_range) hc.in_range (omega arith)
        (omega arith)
      ∙ dense-select c.entries lb.entries ub.entries c.dim 0 [] z
