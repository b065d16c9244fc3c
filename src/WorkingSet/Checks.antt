-- ===== src/WorkingSet/Checks.antt =====
-- `sleqp_working_set_valid`, block by block.
use sleqp.Base.{
  ℕ, ◌+◌, ◌-◌, Bool, true, false, ◌&&◌, not, Option, none, some, ltb, leb, ◌==◌, xor, if◌then◌else◌,
  all_below, count_below, is_some, Outcome, ok, ◌>>◌, check,
}
use sleqp.WorkingSet.{WorkingSet, var_active, cons_active, var_at, cons_at, content, size}

-- The first block: the counters agree with the states.
unfoldable pub counts_match : WorkingSet → Bool
counts_match ws =
    (count_below ws.problem.num_vars (var_active ws) == ws.num_active_variables)
    && (count_below ws.problem.num_cons (cons_active ws) == ws.num_active_constraints)

-- `k_idx == j_idx` for an index `j_idx` that is not SLEQP_NONE.
abbrev pub is_index : ℕ → Option ℕ → Bool
is_index p none = false
is_index p (some q) = p == q

-- One round of the loop over an index array: in range, and held by no other entry.
unfoldable pub index_ok : (n bound : ℕ) (idx : ℕ → Option ℕ) → ℕ → Bool
index_ok n bound idx j = elim (idx j) [
  | none ↦ true
  | some p ↦ ltb p bound && all_below n (λ k. not (xor (j == k) (is_index p (idx k))))
]

-- The second and the third block: an index array below `bound` with `active` entries.
unfoldable pub indices_ok : (n bound active : ℕ) (idx : ℕ → Option ℕ) → Bool
indices_ok n bound active idx =
    all_below n (index_ok n bound idx) && (count_below n (λ j. is_some (idx j)) == active)

-- One round of the loop over the contents.
unfoldable pub content_ok : WorkingSet → ℕ → Bool
content_ok ws k =
    let nv = ws.problem.num_vars in
    let k_idx = content ws k in
    ltb k_idx (nv + ws.problem.num_cons)
    && (if ltb k_idx nv then var_active ws k_idx else cons_active ws (k_idx - nv))
    && all_below (size ws) (λ l. not (xor (l == k) (content ws l == k_idx)))

unfoldable pub valid : WorkingSet → Outcome Bool
valid ws = do
  check (leb ws.num_active_variables (size ws))
  check (leb ws.num_active_constraints (size ws))
  check (leb (size ws) ws.problem.num_vars)
  ok (
      counts_match ws
      && indices_ok ws.problem.num_vars ws.num_active_variables ws.num_active_variables (var_at ws)
      && indices_ok ws.problem.num_cons (size ws) ws.num_active_constraints (cons_at ws)
      && all_below (size ws) (content_ok ws))
