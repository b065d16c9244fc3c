-- ===== src/PreprocessingState/Flush.antt =====
-- `sleqp_preprocessing_state_flush`: the lists of the fixed variables and the removed constraints.
use sleqp.Base.{
  ℕ, zero, suc, ◌+◌, ◌≤◌, ◌<◌, ◌≡◌, inl, inr, refl, ap, ap₂, sym, ◌∙◌, true, false, ◌&&◌, List, [],
  ◌∷◌, ◌++◌, map, arith, ltb, ◌==◌, length, length-append, count_below_congr, count_below-or,
  select, length-select, append_nil, append_assoc, ok, Bool-cases,
}
use sleqp.Double.{Double}
use sleqp.PreprocessingState.{
  PreprocessingState, ConstraintState, is_unchanged, is_fixed, is_cons_unchanged, var_state,
  cons_state, num_vars, num_linear, num_removed_linear_constraints, fixed_from,
  create_fixed_variables, removed_from, create_removed_linear_constraints, flush,
}
use sleqp.PreprocessingState.Invariant.{
  IsValid, fixed_at, removed_at, redundant_at, converted_at, is_redundant, is_converted,
}

redundant_or_converted :
    (c : ConstraintState) → is_redundant c.state && is_converted c.state ≡ false
redundant_or_converted c = ground arith

module _ {R : Type 0} ⦃d : Double R⦄ where
  abbrev pub value_of : PreprocessingState R → ℕ → R
  value_of s j = (var_state s j).value

  fixed_from_skip :
      (s : PreprocessingState R) (rounds j : ℕ) (indices : List ℕ) (values : List R)
      → is_unchanged (var_state s j).state ≡ true
      → fixed_from s (suc rounds) j indices values ≡ fixed_from s rounds (j + 1) indices values
  unfolding fixed_from
  fixed_from_skip s rounds j indices values same = rw (same, fixed_from)

  fixed_from_take :
      (s : PreprocessingState R) (rounds j : ℕ) (indices : List ℕ) (values : List R)
      → is_unchanged (var_state s j).state ≡ false
      → length indices < s.num_fixed_vars
      → fixed_from s (suc rounds) j indices values
        ≡ fixed_from s rounds (j + 1) (indices ++ (j ∷ [])) (values ++ (value_of s j ∷ []))
  unfolding fixed_from
  fixed_from_take s rounds j indices values changed room =
      let fixes : is_fixed (var_state s j).state ≡ true = ground arith in
      let space : ltb (length indices) s.num_fixed_vars ≡ true = ground arith in
      rw (changed, fixed_from) (rw (fixes, space))

  fixed_from_lem :
      (s : PreprocessingState R) (rounds j : ℕ) (indices : List ℕ) (values : List R)
      → length indices + length (select (fixed_at s) j rounds) ≤ s.num_fixed_vars
      → fixed_from s rounds j indices values
        ≡ ok (
          indices ++ select (fixed_at s) j rounds,
          values ++ map (value_of s) (select (fixed_at s) j rounds),
        )
  unfolding fixed_from
  fixed_from_lem s zero j indices values room =
      ap₂ (λ xs ys. ok (xs, ys)) (sym (append_nil indices)) (sym (append_nil values))
  fixed_from_lem s (suc rounds) j indices values room =
      elim (Bool-cases (is_unchanged (var_state s j).state)) [
        | inl same ↦
            let room' = rw same at room in
            rw same (
              fixed_from_skip s rounds j indices values same
              ∙ fixed_from_lem s rounds (j + 1) indices values room')
        | inr changed ↦
            let room' = rw changed at room in
            let rest =
              fixed_from_lem s rounds (j + 1) (indices ++ (j ∷ [])) (values ++ (value_of s j ∷ []))
                (omega (arith, length-append indices (j ∷ []))) in
            rw changed (
              fixed_from_take s rounds j indices values changed (omega arith)
              ∙ rest
              ∙ ap₂ (λ xs ys. ok (xs, ys)) (append_assoc indices _ _) (append_assoc values _ _))
      ]

  removed_from_skip :
      (s : PreprocessingState R) (rounds i : ℕ) (indices : List ℕ)
      → is_cons_unchanged (cons_state s i).state ≡ true
      → removed_from s (suc rounds) i indices ≡ removed_from s rounds (i + 1) indices
  unfolding removed_from
  removed_from_skip s rounds i indices same = rw (same, removed_from)

  removed_from_take :
      (s : PreprocessingState R) (rounds i : ℕ) (indices : List ℕ)
      → is_cons_unchanged (cons_state s i).state ≡ false
      → length indices < num_removed_linear_constraints s
      → removed_from s (suc rounds) i indices ≡ removed_from s rounds (i + 1) (indices ++ (i ∷ []))
  unfolding removed_from
  removed_from_take s rounds i indices changed room =
      let space : ltb (length indices) (num_removed_linear_constraints s) ≡ true = ground arith in
      rw (changed, removed_from) (rw space)

  removed_from_lem :
      (s : PreprocessingState R) (rounds i : ℕ) (indices : List ℕ)
      → length indices + length (select (removed_at s) i rounds) ≤ num_removed_linear_constraints s
      → removed_from s rounds i indices ≡ ok (indices ++ select (removed_at s) i rounds)
  unfolding removed_from
  removed_from_lem s zero i indices room = ap ok (sym (append_nil indices))
  removed_from_lem s (suc rounds) i indices room =
      elim (Bool-cases (is_cons_unchanged (cons_state s i).state)) [
        | inl same ↦
            let room' = rw same at room in
            rw same (
              removed_from_skip s rounds i indices same
              ∙ removed_from_lem s rounds (i + 1) indices room')
        | inr changed ↦
            let room' = rw changed at room in
            let rest =
              removed_from_lem s rounds (i + 1) (indices ++ (i ∷ []))
                (omega (arith, length-append indices (i ∷ []))) in
            rw changed (
              removed_from_take s rounds i indices changed (omega arith)
              ∙ rest
              ∙ ap ok (append_assoc indices _ _))
      ]

  -- The counters of removed constraints add up.
  removed-count :
      (s : PreprocessingState R)
      → IsValid s
      → length (select (removed_at s) 0 (num_linear s)) ≡ num_removed_linear_constraints s
  removed-count s h =
      length-select (removed_at s) (num_linear s)
      ∙ count_below_congr (num_linear s) (removed_at s) _ (λ k lt. h.settled k)
      ∙ count_below-or (num_linear s) (redundant_at s) (converted_at s)
          (λ k. redundant_or_converted (cons_state s k))
      ∙ ap₂ ◌+◌ (sym h.redundant) (sym h.converted)

  -- On a valid state `flush` returns: its assertions hold. It lists the fixed variables in increasing
  -- order with their values, and the removed linear constraints in increasing order, and each list
  -- has the length that the counter says.
  pub flush_lem :
      (s : PreprocessingState R)
      → IsValid s
      → (out : PreprocessingState R) × (flush s ≡ ok out)
        × (out.fixed_var_indices ≡ select (fixed_at s) 0 (num_vars s))
        × (out.fixed_var_values ≡ map (value_of s) (select (fixed_at s) 0 (num_vars s)))
        × (out.removed_cons_indices ≡ select (removed_at s) 0 (num_linear s))
        × (length out.fixed_var_indices ≡ out.num_fixed_vars)
        × (length out.removed_cons_indices ≡ out.num_removed_cons)
  unfolding flush create_fixed_variables create_removed_linear_constraints
  flush_lem s h =
      let fixed = select (fixed_at s) 0 (num_vars s) in
      let removed = select (removed_at s) 0 (num_linear s) in
      let fixed_count : length fixed ≡ s.num_fixed_vars =
        length-select (fixed_at s) (num_vars s) ∙ sym h.fixed in
      let removed_count : length removed ≡ num_removed_linear_constraints s = removed-count s h in
      let first : PreprocessingState R = record s {
        fixed_var_indices = fixed;
        fixed_var_values = map (value_of s) fixed;
      } in
      let one = fixed_from_lem s (num_vars s) 0 [] [] (omega (arith, fixed_count)) in
      let two : removed_from first (num_linear s) 0 [] ≡ ok removed =
        removed_from_lem first (num_linear s) 0 [] (omega (arith, removed_count)) in
      let test_one : (length fixed == s.num_fixed_vars) ≡ true = ground arith in
      let test_two : (length removed == num_removed_linear_constraints s) ≡ true = ground arith in
      (
        record first {
          num_removed_cons = num_removed_linear_constraints s;
          removed_cons_indices = removed;
          converted_room = length s.converted_bounds;
        },
        rw (one, test_one, two, test_two),
        refl,
        refl,
        refl,
        fixed_count,
        removed_count,
      )
