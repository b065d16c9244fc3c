-- ===== src/Feas/Values.antt =====
-- What the functions of feas.c compute, index by index.
use sleqp.Base.{
  ℕ, ◌+◌, ◌≤◌, ◌<◌, ◌≡◌, refl, Bool, true, false, not, ◌||◌, Option, none, some, [], arith, ltb,
  ◌==◌, if◌then◌else◌, ok, Bool-cases, inl, inr,
}
use sleqp.Double.{Double}
use sleqp.Vec.{Vec, nnz, at, or_nought, clear, reserve, resize}
use sleqp.Vec.Entries.{IsValid, emptied}
use sleqp.Vec.Merge.{smaller}
use sleqp.WorkingSet.{WorkingSet, cons_state, cons_active}
use sleqp.Feas.{
  upper, lower, by_bound, skips, multiplier, violated_cons_multipliers, max_size, violation_value,
  violation_values, residual_of, residual, feasibility_residuals,
}
use sleqp.Feas.Walk.{visited}
use sleqp.Feas.Pushed.{walk_all_pushed}

-- Whether the optional working set has the constraint.
abbrev pub skipped : Option WorkingSet → ℕ → Bool
skipped none i = false
skipped (some ws) i = cons_active ws i

-- The optional working set knows the constraints.
abbrev pub Covers : Option WorkingSet → ℕ → Type 0
Covers none n = 0 ≤ n
Covers (some ws) n = n ≤ ws.num_constraints

skips_lem :
    (ws : Option WorkingSet) (n i : ℕ) → Covers ws n → i < n → skips ws i ≡ ok (skipped ws i)
unfolding skips cons_state
skips_lem none n i h lt = refl
skips_lem (some ws) n i h lt =
    let test : ltb i ws.num_constraints ≡ true = ground arith in rw test refl

smaller_room : (a n room k : ℕ) → smaller a n ≤ room → k ≤ n → k ≤ a → k ≤ room
smaller_room a n room k h le le' = ground arith

module _ (R : Type 0) ⦃d : Double R⦄ where
  open d use {nought, lt, same}

  -- 0 is not beyond the bounds 0 and 0.
  abbrev pub ZeroFits : Type 0
  ZeroFits = lt nought (upper nought nought) ≡ false

  -- The residual of 0 between 0 and 0 is 0.
  abbrev pub ZeroResidual : Bool → Type 0
  ZeroResidual signed_residuals =
      same (residual_of signed_residuals (upper nought nought) (lower nought nought)) nought ≡ true

module _ {R : Type 0} where
  pub not_visited :
      (c lb ub : Option R) → visited c lb ub ≡ false → (c ≡ none) × (lb ≡ none) × (ub ≡ none)
  not_visited none none none h = (refl, refl, refl)
  not_visited none none (some z) h = absurd (ground arith)
  not_visited none (some y) ub h = absurd (ground arith)
  not_visited (some x) lb ub h = absurd (ground arith)

module _ {R : Type 0} ⦃d : Double R⦄ where
  open d use {nought, one, neg, plus, minus, lt, same}

  -- The value and the bounds at an index; a missing entry is 0.
  abbrev pub bounds_at : {A : Type 0} → Option R → Option R → Option R → A → A → A → A
  bounds_at c lb ub above below inside =
      by_bound (or_nought c) (or_nought lb) (or_nought ub) above below inside

  -- Nothing is violated where there is no entry.
  bounds_at_none :
      {A : Type 0} (c lb ub : Option R) (above below inside : A)
      → ZeroFits R
      → visited c lb ub ≡ false
      → bounds_at c lb ub above below inside ≡ inside
  bounds_at_none c lb ub above below inside z h =
      let (ec, el, eu) = not_visited c lb ub h in rw (ec, el, eu, z) refl

  abbrev pub violation_at : Option R → Option R → Option R → Option R
  violation_at c lb ub =
      bounds_at c lb ub (some (minus (or_nought c) (or_nought ub)))
        (some (minus (or_nought c) (or_nought lb))) none

  -- `violation_values` of valid vectors returns a valid vector, whatever the target held, that has
  -- at every index the distance to the bound that is violated, if 0 fits between 0 and 0.
  pub violation_values_lem :
      (num_cons : ℕ) (lb ub c violation : Vec R)
      → ZeroFits R
      → IsValid c
      → IsValid lb
      → IsValid ub
      → c.dim ≡ num_cons
      → c.dim ≡ lb.dim
      → c.dim ≡ ub.dim
      → (out : Vec R) × (violation_values num_cons lb ub c violation ≡ ok out)
        × IsValid out
        × (out.dim ≡ c.dim)
        × ((i : ℕ)
            → i < c.dim
            → at i out.entries ≡ violation_at (at i c.entries) (at i lb.entries) (at i ub.entries))
  unfolding violation_values violation_value
  violation_values_lem num_cons lb ub c violation z hc hl hu en el eu =
      let t1 : (c.dim == num_cons) ≡ true = ground arith in
      let t2 : (c.dim == lb.dim) ≡ true = ground arith in
      let t3 : (c.dim == ub.dim) ≡ true = ground arith in
      let m = max_size num_cons lb ub c in
      let start : Vec R = reserve (resize (clear violation) c.dim) m in
      let (none_yet, dim, room) = emptied violation c.dim m in
      let (out, runs, fine, dim', found) =
        walk_all_pushed violation_value c lb ub start
          (λ i. violation_at (at i c.entries) (at i lb.entries) (at i ub.entries)) hc hl hu el eu
          (record {
            answers = λ i lt e. refl;
            otherwise = λ i lt e.
                bounds_at_none (at i c.entries) (at i lb.entries) (at i ub.entries) _ _ _ z e;
          })
          none_yet dim
          (λ k le le'.
            smaller_room (nnz lb + nnz ub + nnz c) num_cons start.nnz_max k room (omega arith)
              le') in
      (out, rw (t1, t2, t3) runs, fine, dim', found)

  abbrev pub multiplier_at : Bool → Option R → Option R → Option R → Option R
  multiplier_at skip c lb ub =
      if skip then none else bounds_at c lb ub (some one) (some (neg one)) none

  none_if : (skip : Bool) (o : Option R) → o ≡ none → (if skip then none else o) ≡ none
  none_if true o e = refl
  none_if false o e = e

  -- `violated_cons_multipliers` of valid vectors returns a valid vector, whatever the target held,
  -- that has at every index 1 above the upper and -1 below the lower bound, where the working set,
  -- if there is one, does not have the constraint, if 0 fits between 0 and 0.
  pub violated_cons_multipliers_lem :
      (num_cons : ℕ) (lb ub c multipliers : Vec R) (ws : Option WorkingSet)
      → ZeroFits R
      → IsValid c
      → IsValid lb
      → IsValid ub
      → c.dim ≡ num_cons
      → c.dim ≡ lb.dim
      → c.dim ≡ ub.dim
      → multipliers.dim ≡ c.dim
      → Covers ws num_cons
      → (out : Vec R) × (violated_cons_multipliers num_cons lb ub c multipliers ws ≡ ok out)
        × IsValid out
        × (out.dim ≡ c.dim)
        × ((i : ℕ)
            → i < c.dim
            → at i out.entries
              ≡ multiplier_at (skipped ws i) (at i c.entries) (at i lb.entries) (at i ub.entries))
  unfolding violated_cons_multipliers multiplier clear reserve
  violated_cons_multipliers_lem num_cons lb ub c multipliers ws z hc hl hu en el eu em cover =
      let t1 : (lb.dim == c.dim) ≡ true = ground arith in
      let t2 : (ub.dim == c.dim) ≡ true = ground arith in
      let start : Vec R = reserve (clear multipliers) num_cons in
      let none_yet : start.entries ≡ [] = ground arith in
      let dim : start.dim ≡ c.dim = ground arith in
      let room : num_cons ≤ start.nnz_max = ground arith in
      let t3 : (start.dim == c.dim) ≡ true = ground arith in
      let (out, runs, fine, dim', found) =
        walk_all_pushed (multiplier ws) c lb ub start
          (λ i. multiplier_at (skipped ws i) (at i c.entries) (at i lb.entries) (at i ub.entries))
          hc hl hu el eu
          (record {
            answers = λ i lt e. rw (skips_lem ws num_cons i cover (omega arith)) refl;
            otherwise = λ i lt e.
                none_if (skipped ws i) _
                  (bounds_at_none (at i c.entries) (at i lb.entries) (at i ub.entries) _ _ _ z e);
          })
          none_yet dim (λ k le le'. omega arith) in
      (out, rw (t1, t2, t3) runs, fine, dim', found)

  abbrev pub residual_at : Bool → Bool → Option R → Option R → Option R → Option R
  residual_at skip signed_residuals c lb ub =
      let r =
        residual_of signed_residuals (upper (or_nought c) (or_nought ub))
          (lower (or_nought c) (or_nought lb)) in
      if skip then none else if not (same r nought) then some r else none

  -- No value is beyond both its bounds.
  abbrev pub OneSided : Vec R → Vec R → Vec R → Type 0
  OneSided c lb ub =
      (i : ℕ)
      → i < c.dim
      → same (upper (or_nought (at i c.entries)) (or_nought (at i ub.entries))) nought
          || same (lower (or_nought (at i c.entries)) (or_nought (at i lb.entries))) nought
        ≡ true

  residual_at-none :
      (skip signed_residuals : Bool) (c lb ub : Option R)
      → ZeroResidual R signed_residuals
      → visited c lb ub ≡ false
      → residual_at skip signed_residuals c lb ub ≡ none
  residual_at-none skip signed_residuals c lb ub z h =
      let (ec, el, eu) = not_visited c lb ub h in rw (ec, el, eu) (none_if skip _ (rw z refl))

  residual_answers :
      (ws : Option WorkingSet) (signed_residuals : Bool) (n i : ℕ) (c lb ub : Option R)
      → Covers ws n
      → i < n
      → same (upper (or_nought c) (or_nought ub)) nought
          || same (lower (or_nought c) (or_nought lb)) nought
        ≡ true
      → residual ws signed_residuals i (or_nought c) (or_nought lb) (or_nought ub)
        ≡ ok (residual_at (skipped ws i) signed_residuals c lb ub)
  unfolding residual
  residual_answers ws signed_residuals n i c lb ub cover lt h = elim (Bool-cases (skipped ws i)) [
    | inl skip ↦ rw (skips_lem ws n i cover lt, skip) refl
    | inr keep ↦ rw (skips_lem ws n i cover lt, keep, h) refl
  ]

  -- `feasibility_residuals` of valid vectors, none of whose values is beyond both bounds, returns a
  -- valid vector, whatever the target held, that has at every index the residual, if it is not 0 and
  -- the working set, if there is one, does not have the constraint; the residual of 0 is to be 0.
  pub feasibility_residuals_lem :
      (num_cons : ℕ) (lb ub c residuals : Vec R) (ws : Option WorkingSet) (signed_residuals : Bool)
      → ZeroResidual R signed_residuals
      → OneSided c lb ub
      → IsValid c
      → IsValid lb
      → IsValid ub
      → c.dim ≡ num_cons
      → c.dim ≡ lb.dim
      → c.dim ≡ ub.dim
      → Covers ws num_cons
      → (out : Vec R) × (feasibility_residuals num_cons lb ub c residuals ws signed_residuals
          ≡ ok out)
        × IsValid out
        × (out.dim ≡ c.dim)
        × ((i : ℕ)
            → i < c.dim
            → at i out.entries
              ≡ residual_at
                  (skipped ws i)
                  signed_residuals
                  (at i c.entries)
                  (at i lb.entries)
                  (at i ub.entries))
  unfolding feasibility_residuals
  feasibility_residuals_lem num_cons lb ub c residuals ws signed_residuals z o hc hl hu en el eu
        cover =
      let t1 : (c.dim == num_cons) ≡ true = ground arith in
      let t2 : (c.dim == lb.dim) ≡ true = ground arith in
      let t3 : (c.dim == ub.dim) ≡ true = ground arith in
      let m = max_size num_cons lb ub c in
      let start : Vec R = reserve (resize (clear residuals) c.dim) m in
      let (none_yet, dim, room) = emptied residuals c.dim m in
      let (out, runs, fine, dim', found) =
        walk_all_pushed (residual ws signed_residuals) c lb ub start
          (λ i.
            residual_at (skipped ws i) signed_residuals (at i c.entries) (at i lb.entries)
              (at i ub.entries))
          hc hl hu el eu
          (record {
            answers = λ i lt e.
                residual_answers ws signed_residuals num_cons i (at i c.entries) (at i lb.entries)
                  (at i ub.entries) cover (omega arith) (o i lt);
            otherwise = λ i lt e.
                residual_at-none (skipped ws i) signed_residuals (at i c.entries) (at i lb.entries)
                  (at i ub.entries) z e;
          })
          none_yet dim
          (λ k le le'.
            smaller_room (nnz lb + nnz ub + nnz c) num_cons start.nnz_max k room (omega arith)
              le') in
      (out, rw (t1, t2, t3) runs, fine, dim', found)
