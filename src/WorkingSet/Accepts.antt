-- ===== src/WorkingSet/Accepts.antt =====
-- `sleqp_working_set_valid` against the invariant.
use mathlib.Core.Option.{none-ne-some, some-injective}
use sleqp.Base.{
  ℕ, ◌+◌, ◌-◌, ◌≤◌, ◌<◌, ◌≡◌, ◌≢◌, ◌⊎◌, ap, sym, ◌∙◌, Bool, true, not, Option, some, arith, ltb,
  ◌==◌, xor, all_below, all_below_intro, count_below, count_below_congr, is_some, lt→ltb, ==_refl,
  ok, Option-cases, Bool-cases, inl, inr,
}
use sleqp.WorkingSet.{WorkingSet, var_active, cons_active, var_at, cons_at, content, size}
use sleqp.WorkingSet.Sides.{Side}
use sleqp.WorkingSet.Invariant.{IsValid}
use sleqp.WorkingSet.Checks.{is_index, index_ok, indices_ok, counts_match, content_ok, valid}

module _ (n lo hi off : ℕ) (active : ℕ → Bool) (idx : ℕ → Option ℕ) (cont : ℕ → ℕ)
    (s : Side n lo hi off active idx cont) where
  -- Two entries hold the same position only if they are one.
  same_position :
      (j k p : ℕ) → j < n → k < n → idx j ≡ some p → not (xor (j == k) (is_index p (idx k))) ≡ true
  same_position j k p hj hk e =
      let at_j : cont p ≡ off + j = (s.index_in j p hj e).3 in
      elim (Option-cases (idx k)) [
        | inl none_k ↦
            let ne : j ≢ k = λ q. none-ne-some _ (sym none_k ∙ ap idx (sym q) ∙ e) in
            rw none_k (ground arith)
        | inr (q, at_k) ↦
            let at : cont q ≡ off + k = (s.index_in k q hk at_k).3 in
            rw at_k (elim (Bool-cases (p == q)) [
              | inl pq ↦
                  let same : p ≡ q = ground arith in
                  let jk : j ≡ k = omega (arith, ap cont same) in ground arith
              | inr pq ↦
                  let ne : j ≢ k = λ jk.
                    let pq' : p ≡ q = some-injective _ _ (sym e ∙ ap idx jk ∙ at_k) in
                    absurd (ground arith) in
                  ground arith
            ])
      ]

  index_ok_of_Side : (bound j : ℕ) → hi ≤ bound → j < n → index_ok n bound idx j ≡ true
  unfolding index_ok
  index_ok_of_Side bound j h hj = elim (Option-cases (idx j)) [
    | inl e ↦ rw (e, index_ok)
    | inr (p, e) ↦
        let (on, low, high, at) = s.index_in j p hj e in
        let in_bound : ltb p bound ≡ true = lt→ltb _ _ (omega arith) in
        rw (e, index_ok, in_bound, all_below_intro n _ (λ k hk. same_position j k p hj hk e))
  ]

  indices_ok_of_Side :
      (bound count : ℕ) → hi ≤ bound → count + lo ≡ hi → indices_ok n bound count idx ≡ true
  unfolding indices_ok
  indices_ok_of_Side bound count h e =
      let all : all_below n (index_ok n bound idx) ≡ true =
        all_below_intro n _ (λ j hj. index_ok_of_Side bound j h hj) in
      let counted : count_below n (λ j. is_some (idx j)) ≡ count_below n active =
        count_below_congr n _ _ s.set_iff_active in
      let total : count_below n active ≡ count = omega (arith, s.counted) in
      rw (all, counted, total) (==_refl count)

module _ (ws : WorkingSet) (v : IsValid ws) where
  -- The two kinds of members.
  abbrev IsVar : ℕ → ℕ → Type 0
  IsVar k x = (x < ws.num_variables) × (var_at ws x ≡ some k) × (var_active ws x ≡ true)

  abbrev IsCons : ℕ → ℕ → Type 0
  IsCons k x =
      (ws.num_variables ≤ x)
      × (x < ws.num_variables + ws.num_constraints)
      × (cons_at ws (x - ws.num_variables) ≡ some k)
      × (cons_active ws (x - ws.num_variables) ≡ true)

  pub content-place : (k : ℕ) → k < size ws → IsVar k (content ws k) ⊎ IsCons k (content ws k)
  content-place k h = elim (Bool-cases (ltb k ws.num_active_variables)) [
    | inl e ↦
        let (j, jn, c, at) = v.vars.content_in k (omega arith) (ground arith) in
        let e' : content ws k ≡ j = omega arith in
        inl (rw e' (jn, at, (v.vars.index_in j k jn at).0))
    | inr e ↦
        let (i, i_lt, c, at) = v.cons.content_in k (ground arith) (omega arith) in
        let back : content ws k - ws.num_variables ≡ i = omega arith in
        inr (omega arith, omega arith, rw back at, rw back (v.cons.index_in i k i_lt at).0)
  ]

  content-injective : (k l : ℕ) → k < size ws → l < size ws → content ws l ≡ content ws k → l ≡ k
  content-injective k l hk hl e = elim (content-place k hk) [
    | inl a ↦ elim (content-place l hl) [
      | inl b ↦ some-injective _ _ (sym b.1 ∙ ap (var_at ws) e ∙ a.1)
      | inr b ↦ absurd (omega arith)
    ]
    | inr a ↦ elim (content-place l hl) [
      | inl b ↦ absurd (omega arith)
      | inr b ↦ some-injective _ _ (sym b.2 ∙ ap (λ x. cons_at ws (x - ws.num_variables)) e ∙ a.2)
    ]
  ]

  content_ok_lem : (k : ℕ) → k < size ws → content_ok ws k ≡ true
  unfolding content_ok
  content_ok_lem k h =
      let alone : all_below (size ws) (λ l. not (xor (l == k) (content ws l == content ws k)))
          ≡ true =
        all_below_intro (size ws) _ (λ l hl. elim (Bool-cases (l == k)) [
          | inl e ↦
              let same : l ≡ k = ground arith in
              let cont_eq : content ws l ≡ content ws k = ap (content ws) same in ground arith
          | inr e ↦
              let ne : content ws l ≢ content ws k =
                λ q. let same : l ≡ k = content-injective k l h hl q in absurd (ground arith) in
              ground arith
        ]) in
      elim (content-place k h) [
        | inl a ↦
            let x_lt : content ws k < ws.problem.num_vars = omega (arith, v.sized.same_vars) in
            ground (arith, a.2, alone)
        | inr a ↦
            let x_le : ws.problem.num_vars ≤ content ws k = omega (arith, v.sized.same_vars) in
            let x_lt : content ws k < ws.problem.num_vars + ws.problem.num_cons =
              omega (arith, v.sized.same_vars, v.sized.same_cons) in
            let on : cons_active ws (content ws k - ws.problem.num_vars) ≡ true =
              rw (← v.sized.same_vars) a.3 in
            ground (arith, on, alone)
      ]

  counts_match_lem : counts_match ws ≡ true
  unfolding counts_match
  counts_match_lem =
      let vars : count_below ws.problem.num_vars (var_active ws) ≡ ws.num_active_variables =
        rw (← v.sized.same_vars) (omega (arith, v.vars.counted)) in
      let cons : count_below ws.problem.num_cons (cons_active ws) ≡ ws.num_active_constraints =
        rw (← v.sized.same_cons) (omega (arith, v.cons.counted)) in
      ground arith

  -- A valid set passes `sleqp_working_set_valid`, as far as its size passes the assertion there.
  pub valid_lem : size ws ≤ ws.num_variables → valid ws ≡ ok true
  unfolding valid
  valid_lem h =
      let vars_ok : indices_ok ws.problem.num_vars ws.num_active_variables ws.num_active_variables
            (var_at ws)
          ≡ true =
        rw (← v.sized.same_vars) (
          indices_ok_of_Side ws.num_variables 0 ws.num_active_variables 0 _ _ _ v.vars
            ws.num_active_variables ws.num_active_variables (omega arith) (omega arith)) in
      let cons_ok : indices_ok ws.problem.num_cons (size ws) ws.num_active_constraints (cons_at ws)
          ≡ true =
        rw (← v.sized.same_cons) (
          indices_ok_of_Side ws.num_constraints ws.num_active_variables _ ws.num_variables _ _ _
            v.cons (size ws) ws.num_active_constraints (omega arith) (omega arith)) in
      let contents = all_below_intro (size ws) (content_ok ws) content_ok_lem in
      let counts = counts_match_lem in
      let small : size ws ≤ ws.problem.num_vars = omega (arith, v.sized.same_vars) in
      ground (arith, vars_ok, cons_ok, contents, counts)
