-- ===== src/StepWindow/Ring.antt =====
-- The arrays of step_rule_window.c as a window on the accepted steps.
use Prim.Native.Nat.{◌%◌, ◌/◌, ◌*◌}
use native.Mathlib.Nat.{mod-add-div', zero-mod, mul-le-mul_right}
use sleqp.Base.{
  ℕ, zero, suc, ◌+◌, ◌≤◌, ◌<◌, ◌≡◌, refl, ap, sym, subst, ◌∙◌, true, false, List, [], ◌∷◌, arith,
  ltb, ◌==◌, if◌then◌else◌, write, length, get_or, Bool-cases, inl, inr, ==_refl, Outcome, ok,
  fault, ◌>>=◌, ◌⊎◌,
}
use sleqp.Base.Int.{pos}
use sleqp.StepWindow.{StepRule, data_index, int_max, increment, add_accepted_step, reset}
use sleqp.StepWindow.Indices.{before, increment-before, increment-int_max}

-- Different indices that are less than `p` apart have different positions.
position_ne : (i k p : ℕ) → i < k → k < i + p → (i % p == k % p) ≡ false
position_ne i k p lt near = elim (Bool-cases (i % p == k % p)) [
  | inl e ↦
      let q : i % p ≡ k % p = ground arith in
      elim (Bool-cases (ltb (i / p) (k / p))) [
        | inl more ↦
            let up : suc (i / p) * p ≤ k / p * p = mul-le-mul_right p (ground arith) in
            absurd (omega (arith, mod-add-div' i p, mod-add-div' k p))
        | inr no_more ↦
            let down : k / p * p ≤ i / p * p = mul-le-mul_right p (ground arith) in
            absurd (omega (arith, mod-add-div' i p, mod-add-div' k p))
      ]
  | inr ne ↦ ne
]

module _ {R : Type 0} where
  -- The window has the last accepted steps, as many as there are or as fit, each with its merit value
  -- and its model reduction.
  pub record Holds (r : StepRule R) (next : ℕ) (history : ℕ → R × R) : Type 0 where
    pub index : r.curr ≡ before next
    pub size : r.len ≡ (if ltb next r.num then next else r.num)
    pub merits :
        (i : ℕ)
        → i < next
        → next ≤ i + r.len
        → r.exact_merit_values (data_index r (pos i)) ≡ (history i).0
    pub reductions :
        (i : ℕ)
        → i < next
        → next ≤ i + r.len
        → r.model_reductions (data_index r (pos i)) ≡ (history i).1

  -- The steps in the order they are accepted.
  pub run : StepRule R → List (R × R) → Outcome (StepRule R)
  unfolding add_accepted_step
  run r [] = ok r
  run r ((merit, reduction) ∷ steps) =
      add_accepted_step r merit reduction >>= λ next. run next steps

  reset-Holds : (r : StepRule R) (history : ℕ → R × R) → Holds (reset r) 0 history
  unfolding reset data_index
  reset-Holds r history = record {
    index = refl;
    size = ground arith;
    merits = λ i lt. absurd (omega arith);
    reductions = λ i lt. absurd (omega arith);
  }

  -- What a write at the next position leaves at the positions of the window.
  written :
      (p next len i : ℕ) (values : ℕ → R) (x : R)
      → 0 < p
      → len ≤ p
      → i < suc next
      → suc next ≤ i + p
      → write values (next % p) x (i % p) ≡ (if i == next then x else values (i % p))
  written p next len i values x some_room fits lt near = elim (Bool-cases (i == next)) [
    | inl here ↦
        let q : i ≡ next = ground arith in
        let t : (i % p == next % p) ≡ true =
          subst (λ k. (i % p == k % p) ≡ true) q (==_refl (i % p)) in
        rw (here, t) refl
    | inr earlier ↦
        let t : (i % p == next % p) ≡ false = position_ne i next p (ground arith) (omega arith) in
        rw (earlier, t) refl
  ]

  -- In an empty window the next position is the first.
  first_place :
      (r : StepRule R) (next : ℕ) (history : ℕ → R × R)
      → 0 < r.num
      → Holds r next history
      → data_index r (pos next) ≡ next % r.num
  unfolding data_index
  first_place r next history lt h = elim (Bool-cases (r.len == 0)) [
    | inl empty ↦
        let z : next ≡ 0 = ground (arith, h.size) in rw empty (rw z (sym (zero-mod r.num)))
    | inr filled ↦ rw filled refl
  ]

  old_place :
      (r : StepRule R) (i : ℕ)
      → (r.len == 0) ≡ false
      → (values : ℕ → R) → values (i % r.num) ≡ values (data_index r (pos i))
  unfolding data_index
  old_place r i filled values = rw filled refl

  -- The rule after one more accepted step.
  added : (r : StepRule R) (next : ℕ) (merit reduction : R) → StepRule R
  unfolding data_index
  added r next merit reduction = record r {
    exact_merit_values = write r.exact_merit_values (data_index r (pos next)) merit;
    model_reductions = write r.model_reductions (data_index r (pos next)) reduction;
    len = if ltb r.len r.num then suc r.len else r.len;
    curr = pos next;
  }

  add-added :
      (r : StepRule R) (next : ℕ) (merit reduction : R)
      → 0 < r.num
      → next ≤ int_max
      → r.curr ≡ before next
      → add_accepted_step r merit reduction ≡ ok (added r next merit reduction)
  unfolding add_accepted_step added
  add-added r next merit reduction lt le e =
      let t : (r.num == 0) ≡ false = ground arith in
      let up : increment r.curr ≡ ok (pos next) = ap increment e ∙ increment-before next le in
      rw (t, up) refl

  -- At INT_MAX no step can be added.
  add-int_max :
      (r : StepRule R) (merit reduction : R)
      → 0 < r.num
      → r.curr ≡ pos int_max
      → add_accepted_step r merit reduction ≡ fault
  unfolding add_accepted_step
  add-int_max r merit reduction lt e =
      let t : (r.num == 0) ≡ false = ground arith in
      let up : increment r.curr ≡ fault = ap increment e ∙ increment-int_max in rw (t, up) refl

  -- One accepted step is put behind those that are there.
  add-Holds :
      (r : StepRule R) (next : ℕ) (history : ℕ → R × R) (merit reduction : R)
      → 0 < r.num
      → Holds r next history
      → Holds (added r next merit reduction) (suc next) (write history next (merit, reduction))
  unfolding added data_index
  add-Holds r next history merit reduction some_room h =
      let len' = if ltb r.len r.num then suc r.len else r.len in
      let size' : len' ≡ (if ltb (suc next) r.num then suc next else r.num) =
        ground (arith, h.size) in
      let not_empty : (len' == 0) ≡ false = ground (arith, h.size) in
      let place : data_index r (pos next) ≡ next % r.num = first_place r next history some_room h in
      record {
        index = refl;
        size = size';
        merits = λ i lt near. rw not_empty (
            ap (λ k. write r.exact_merit_values k merit (i % r.num)) place
            ∙ written r.num next r.len i r.exact_merit_values merit some_room
                (ground (arith, h.size)) lt (ground (arith, size'))
            ∙ elim (Bool-cases (i == next)) [
              | inl here ↦ rw here refl
              | inr earlier ↦ rw earlier (
                  old_place r i (ground (arith, h.size)) r.exact_merit_values
                  ∙ h.merits i (ground arith) (ground (arith, h.size, size')))
            ]);
        reductions = λ i lt near. rw not_empty (
            ap (λ k. write r.model_reductions k reduction (i % r.num)) place
            ∙ written r.num next r.len i r.model_reductions reduction some_room
                (ground (arith, h.size)) lt (ground (arith, size'))
            ∙ elim (Bool-cases (i == next)) [
              | inl here ↦ rw here refl
              | inr earlier ↦ rw earlier (
                  old_place r i (ground (arith, h.size)) r.model_reductions
                  ∙ h.reductions i (ground arith) (ground (arith, h.size, size')))
            ]);
      }

  -- A history with more steps from an index on.
  extend : (ℕ → R × R) → ℕ → List (R × R) → ℕ → R × R
  extend history k [] = history
  extend history k (step ∷ steps) = extend (write history k step) (suc k) steps

  run-Holds :
      (steps : List (R × R)) (r : StepRule R) (next : ℕ) (history : ℕ → R × R)
      → 0 < r.num
      → Holds r next history
      → next + length steps ≤ suc int_max
      → (s : StepRule R) × (run r steps ≡ ok s)
        × Holds s (next + length steps) (extend history next steps)
        × (s.num ≡ r.num)
  unfolding run extend added
  run-Holds [] r next history some_room h le =
      let q : next ≡ next + 0 = omega arith in (r, refl, subst (λ k. Holds r k history) q h, refl)
  run-Holds ((merit, reduction) ∷ steps) r next history some_room h le =
      let one_more = added r next merit reduction in
      let adds = add-added r next merit reduction some_room (omega arith) h.index in
      let (s, runs, held, num) =
        run-Holds steps one_more (suc next) (write history next (merit, reduction)) some_room
          (add-Holds r next history merit reduction some_room h) (omega arith) in
      let q : suc next + length steps ≡ next + suc (length steps) = omega arith in
      (
        s,
        ap (λ o. o >>= λ t. run t steps) adds ∙ runs,
        subst (λ k. Holds s k (extend (write history next (merit, reduction)) (suc next) steps)) q
            held,
        num,
      )

  -- Beyond INT_MAX the index overflows.
  run-int_max :
      (steps : List (R × R)) (r : StepRule R) (next : ℕ)
      → 0 < r.num
      → r.curr ≡ before next
      → next ≤ suc int_max
      → suc int_max < next + length steps
      → run r steps ≡ fault
  unfolding run added
  run-int_max [] r next some_room e le lt = absurd (omega arith)
  run-int_max ((merit, reduction) ∷ steps) r next some_room e le lt =
      elim (Bool-cases (ltb int_max next)) [
        | inl full ↦
            let q : next ≡ suc int_max = ground arith in
            ap (λ o. o >>= λ t. run t steps)
              (add-int_max r merit reduction some_room (e ∙ ap before q))
        | inr room ↦
            ap (λ o. o >>= λ t. run t steps)
              (add-added r next merit reduction some_room (ground arith) e)
            ∙ run-int_max steps (added r next merit reduction) (suc next) some_room refl
                (ground arith) (omega arith)
      ]

  extend_before :
      (steps : List (R × R)) (history : ℕ → R × R) (k i : ℕ)
      → i < k
      → extend history k steps i ≡ history i
  unfolding extend
  extend_before [] history k i lt = refl
  extend_before (step ∷ steps) history k i lt =
      let t : (i == k) ≡ false = ground arith in
      extend_before steps (write history k step) (suc k) i (omega arith) ∙ rw t refl

  extend_at :
      (steps : List (R × R)) (history : ℕ → R × R) (k i : ℕ) (d : R × R)
      → i < length steps
      → extend history k steps (k + i) ≡ get_or steps i d
  unfolding extend
  extend_at [] history k i d lt = absurd (omega arith)
  extend_at (step ∷ steps) history k zero d lt =
      let e : k + 0 ≡ k = omega arith in
      let t : (k == k) ≡ true = ground arith in
      ap (extend (write history k step) (suc k) steps) e
      ∙ extend_before steps (write history k step) (suc k) k (omega arith)
      ∙ rw t refl
  extend_at (step ∷ steps) history k (suc i) d lt =
      let e : k + suc i ≡ suc k + i = omega arith in
      ap (extend (write history k step) (suc k) steps) e
      ∙ extend_at steps (write history k step) (suc k) i d (omega arith)

  -- After a sequence of accepted steps from a reset on, a rule whose window is not empty holds
  -- exactly the last of them, as many as there are or as fit: at the position of the step with number
  -- `i` stand its merit value and its model reduction. If and only if there are more than 2 ^ 31 steps,
  -- the sequence does not return, since `curr` overflows.
  pub reset-run :
      (r : StepRule R) (steps : List (R × R)) (d : R × R)
      → 0 < r.num
      → ((suc int_max < length steps) × (run (reset r) steps ≡ fault))
        ⊎ ((s : StepRule R) × (length steps ≤ suc int_max)
            × (run (reset r) steps ≡ ok s)
            × (s.curr ≡ before (length steps))
            × (s.len ≡ (if ltb (length steps) r.num then length steps else r.num))
            × ((i : ℕ)
                → i < length steps
                → length steps ≤ i + s.len
                → (s.exact_merit_values (data_index s (pos i)) ≡ (get_or steps i d).0)
                  × (s.model_reductions (data_index s (pos i)) ≡ (get_or steps i d).1)))
  unfolding reset
  reset-run r steps d some_room = elim (Bool-cases (ltb (suc int_max) (length steps))) [
    | inl many ↦
        let more : suc int_max < length steps = ground arith in
        inl (more, run-int_max steps (reset r) 0 some_room refl (omega arith) (omega arith))
    | inr few ↦
        let le : length steps ≤ suc int_max = ground arith in
        let (s, runs, held, num) =
          run-Holds steps (reset r) 0 (λ i. d) some_room (reset-Holds r (λ i. d)) (omega arith) in
        let count : 0 + length steps ≡ length steps = omega arith in
        let h : Holds s (length steps) (extend (λ i. d) 0 steps) =
          subst (λ k. Holds s k (extend (λ i. d) 0 steps)) count held in
        inr (
          s,
          le,
          runs,
          h.index,
          subst (λ k. s.len ≡ (if ltb (length steps) k then length steps else k)) num h.size,
          λ i lt near.
              let same : extend (λ j. d) 0 steps i ≡ get_or steps i d =
                let e : i ≡ 0 + i = omega arith in
                ap (extend (λ j. d) 0 steps) e ∙ extend_at steps (λ j. d) 0 i d lt in
              (
                h.merits i lt near ∙ ap (λ p. p.0) same,
                h.reductions i lt near ∙ ap (λ p. p.1) same,
              ),
        )
  ]
