-- ===== src/Feas.antt =====
-- src/main/feas.c: how far the values of the constraints are beyond their bounds.
pub mod Walk
pub mod Pushed
pub mod Values
pub mod Folds
mod Tests
use sleqp.Base.{
  ℕ, zero, suc, ◌+◌, Bool, true, false, not, ◌&&◌, ◌||◌, Option, none, some, List, [], ◌∷◌, ◌++◌,
  ◌==◌, if◌then◌else◌, Outcome, ok, timeout, ◌>>=◌, ◌>>◌, check,
}
use sleqp.Double.{Double, fmax}
use sleqp.Vec.{Entries, Vec, nnz, push, clear, reserve, resize, or_nought}
use sleqp.Vec.Merge.{is_nil, head_index, head_value, advance, smaller}
use sleqp.WorkingSet.{WorkingSet, is_active, cons_state}

-- `working_set && sleqp_working_set_cons_state(working_set, idx) != SLEQP_INACTIVE`.
pub skips : Option WorkingSet → ℕ → Outcome Bool
skips none i = ok false
skips (some ws) i = do state ← cons_state ws i; ok (is_active state)

module _ {R : Type 0} where
  abbrev pub push_some : Vec R → ℕ → Option R → Outcome (Vec R)
  push_some v i none = ok v
  push_some v i (some x) = push v i x

module _ {R : Type 0} ⦃d : Double R⦄ where
  open d use {nought, one, neg, plus, minus, lt, same}

  -- The loop that walks the values and their bounds, in the order of the indices. `step` is its body.
  pub walk :
      {S : Type 0}
      → (fuel : ℕ) (step : ℕ → R → R → R → S → Outcome S) (sentinel : ℕ) → Entries R
      → Entries R
      → Entries R
      → S
      → Outcome S
  walk zero step s cs ls us state = timeout
  walk (suc fuel) step s cs ls us state = elim (is_nil cs && is_nil ls && is_nil us) [
    | true ↦ ok state
    | false ↦
        let i = smaller (smaller (head_index s cs) (head_index s ls)) (head_index s us) in
        step i (or_nought (head_value i cs)) (or_nought (head_value i ls))
          (or_nought (head_value i us)) state
        >>= walk fuel step s (advance i cs) (advance i ls) (advance i us)
  ]

  -- The loop over vectors of one dimension, with fuel for all their entries.
  pub walk_all :
      {S : Type 0} → (step : ℕ → R → R → R → S → Outcome S) → Vec R → Vec R → Vec R → S → Outcome S
  unfolding walk
  walk_all step c lb ub state =
      walk (suc (nnz c + nnz lb + nnz ub)) step (c.dim + 1) c.entries lb.entries ub.entries state

  abbrev pub upper : R → R → R
  upper c ub = fmax (minus c ub) nought

  abbrev pub lower : R → R → R
  lower c lb = fmax (minus lb c) nought

  -- One of the values, by the bound that is violated.
  abbrev pub by_bound : {A : Type 0} → R → R → R → A → A → A → A
  by_bound c lb ub above below inside =
      if lt nought (upper c ub) then above else if lt nought (lower c lb) then below else inside

  -- The bodies that push at most one value.
  pub push_step : (ℕ → R → R → R → Outcome (Option R)) → ℕ → R → R → R → Vec R → Outcome (Vec R)
  push_step emit i c lb ub v = emit i c lb ub >>= push_some v i

  pub multiplier : Option WorkingSet → ℕ → R → R → R → Outcome (Option R)
  unfolding skips
  multiplier working_set i c lb ub = do
    skip ← skips working_set i
    ok (if skip then none else by_bound c lb ub (some one) (some (neg one)) none)

  pub violated_cons_multipliers :
      (num_cons : ℕ) (lb ub : Vec R) → Vec R → Vec R → Option WorkingSet → Outcome (Vec R)
  unfolding walk_all push_step multiplier clear reserve
  violated_cons_multipliers num_cons lb ub cons_vals multipliers working_set = do
    let emptied = reserve (clear multipliers) num_cons
    check (lb.dim == cons_vals.dim)
    check (ub.dim == cons_vals.dim)
    check (emptied.dim == cons_vals.dim)
    walk_all (push_step (multiplier working_set)) cons_vals lb ub emptied

  -- The list holds the first `num_violated_constraints` positions of the array.
  pub add_violated : ℕ → R → R → R → List ℕ → Outcome (List ℕ)
  add_violated i lb ub c found = ok (by_bound c lb ub (found ++ (i ∷ [])) (found ++ (i ∷ [])) found)

  -- This loop takes the smaller index of the bounds first.
  pub violated_constraints : (lb ub cons_val : Vec R) → Outcome (List ℕ)
  unfolding walk add_violated
  violated_constraints lb ub c =
      walk (suc (nnz lb + nnz ub + nnz c)) add_violated (c.dim + 1) lb.entries ub.entries c.entries
        []

  -- The room that the vectors of results get.
  abbrev pub max_size : ℕ → Vec R → Vec R → Vec R → ℕ
  max_size num_cons lb ub c = smaller (nnz lb + nnz ub + nnz c) num_cons

  pub violation_value : ℕ → R → R → R → Outcome (Option R)
  violation_value i c lb ub = ok (by_bound c lb ub (some (minus c ub)) (some (minus c lb)) none)

  pub violation_values : (num_cons : ℕ) (lb ub : Vec R) → Vec R → Vec R → Outcome (Vec R)
  unfolding walk_all push_step violation_value clear resize reserve
  violation_values num_cons lb ub c violation = do
    check (c.dim == num_cons)
    check (c.dim == lb.dim)
    check (c.dim == ub.dim)
    walk_all (push_step violation_value) c lb ub
        (reserve (resize (clear violation) c.dim) (max_size num_cons lb ub c))

  abbrev pub residual_of : Bool → R → R → R
  residual_of signed_residuals u l =
      if signed_residuals then (if not (same u nought) then u else neg l) else fmax l u

  pub residual : Option WorkingSet → Bool → ℕ → R → R → R → Outcome (Option R)
  unfolding skips
  residual working_set signed_residuals i c lb ub = do
    skip ← skips working_set i
    if skip
        then ok none
        else check (same (upper c ub) nought || same (lower c lb) nought)
          >> (let r = residual_of signed_residuals (upper c ub) (lower c lb) in
              ok (if not (same r nought) then some r else none))

  pub feasibility_residuals :
      (num_cons : ℕ) (lb ub : Vec R) → Vec R → Vec R → Option WorkingSet → Bool → Outcome (Vec R)
  unfolding walk_all push_step residual clear resize reserve
  feasibility_residuals num_cons lb ub c residuals working_set signed_residuals = do
    check (c.dim == num_cons)
    check (c.dim == lb.dim)
    check (c.dim == ub.dim)
    walk_all (push_step (residual working_set signed_residuals)) c lb ub
        (reserve (resize (clear residuals) c.dim) (max_size num_cons lb ub c))

  pub raise_max : ℕ → R → R → R → R → Outcome R
  raise_max i c lb ub top =
      ok (by_bound c lb ub (fmax (upper c ub) top) (fmax (lower c lb) top) top)

  pub max_violation : (num_cons : ℕ) (lb ub : Vec R) → Vec R → Outcome R
  unfolding walk_all raise_max
  max_violation num_cons lb ub c = do
    check (c.dim == num_cons)
    check (c.dim == lb.dim)
    check (c.dim == ub.dim)
    walk_all raise_max c lb ub nought

  pub add_violation : ℕ → R → R → R → R → Outcome R
  add_violation i c lb ub total =
      ok (by_bound c lb ub (plus total (upper c ub)) (plus total (lower c lb)) total)

  pub total_violation : (num_cons : ℕ) (lb ub : Vec R) → Vec R → Outcome R
  unfolding walk_all add_violation
  total_violation num_cons lb ub c = do
    check (c.dim == num_cons)
    check (c.dim == lb.dim)
    check (c.dim == ub.dim)
    walk_all add_violation c lb ub nought
