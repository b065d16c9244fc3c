-- ===== src/WorkingSet/Copies.antt =====
-- `sleqp_working_set_copy` and `sleqp_working_set_eq`.
use mathlib.Core.Path.{subst}
use sleqp.Base.{
  ℕ, ◌≡◌, ◌↔◌, refl, true, Option, none, arith, all_below, all_below_intro, all_below_elim, ok,
  get_or, copy_into_whole, length, List, get_or_ext,
}
use sleqp.WorkingSet.{WorkingSet, same_index, var_at, cons_at, eq, copy}
use sleqp.WorkingSet.Invariant.{IsSized}

-- Two sets that `copy` may be called on: their problems have the same dimensions.
pub record IsCompatible (a b : WorkingSet) : Type 0 where
  pub same_num_vars : a.problem.num_vars ≡ b.problem.num_vars
  pub same_num_cons : a.problem.num_cons ≡ b.problem.num_cons

-- `copy` returns, and leaves in the target all of the source but its reference count and problem.
pub copy_lem :
    (source target : WorkingSet)
    → IsSized source
    → IsSized target
    → IsCompatible source target
    → copy source target
      ≡ ok (record source { refcount = target.refcount; problem = target.problem })
unfolding copy
copy_lem source target s t c =
    let n : source.num_variables ≡ source.problem.num_vars = s.same_vars in
    ground (
      arith,
      copy_into_whole source.problem.num_vars source.variable_states target.variable_states,
      copy_into_whole source.problem.num_cons source.constraint_states target.constraint_states,
      copy_into_whole source.problem.num_vars source.variable_indices target.variable_indices,
      copy_into_whole source.problem.num_cons source.constraint_indices target.constraint_indices,
      copy_into_whole source.max_set_size source.content_indices target.content_indices,
    )

same_index_iff : (x y : Option ℕ) → (same_index x y ≡ true) ↔ (x ≡ y)
same_index_iff x y = ground arith

all_same_index :
    (n : ℕ) (xs ys : List (Option ℕ))
    → length xs ≡ n
    → length ys ≡ n
    → all_below n (λ j. same_index (get_or xs j none) (get_or ys j none)) ≡ true
    → xs ≡ ys
all_same_index n xs ys hx hy h = get_or_ext none n xs ys hx hy λ j lt.
    (same_index_iff (get_or xs j none) (get_or ys j none)).0
      (all_below_elim n (λ j. same_index (get_or xs j none) (get_or ys j none)) j h lt)

same_index_refl :
    (n : ℕ) (xs : List (Option ℕ))
    → all_below n (λ j. same_index (get_or xs j none) (get_or xs j none)) ≡ true
same_index_refl n xs =
    all_below_intro n (λ j. same_index (get_or xs j none) (get_or xs j none))
      λ j lt. (same_index_iff (get_or xs j none) (get_or xs j none)).1 refl

-- Two sets of the same dimensions are `eq` exactly when every variable and every constraint stands
-- at the same position in both, or in neither.
pub eq_iff :
    (a b : WorkingSet)
    → IsSized a
    → IsSized b
    → a.num_variables ≡ b.num_variables
    → a.num_constraints ≡ b.num_constraints
    → (eq a b ≡ ok true)
      ↔ ((a.variable_indices ≡ b.variable_indices) × (a.constraint_indices ≡ b.constraint_indices))
unfolding eq
eq_iff a b s t hv hc = (
  λ e.
      let vars : all_below a.num_variables (λ j. same_index (var_at a j) (var_at b j)) ≡ true =
        ground arith in
      let cons : all_below a.num_constraints (λ i. same_index (cons_at a i) (cons_at b i)) ≡ true =
        ground arith in
      (
        all_same_index a.num_variables _ _ (omega arith) (omega arith) vars,
        all_same_index a.num_constraints _ _ (omega arith) (omega arith) cons,
      ),
  λ (vs, cs).
      let vars : all_below a.num_variables (λ j. same_index (var_at a j) (var_at b j)) ≡ true =
        subst
          (λ ys. all_below a.num_variables (λ j. same_index (var_at a j) (get_or ys j none)) ≡ true)
          vs (same_index_refl a.num_variables a.variable_indices) in
      let cons : all_below a.num_constraints (λ i. same_index (cons_at a i) (cons_at b i)) ≡ true =
        subst
          (λ ys.
            all_below a.num_constraints (λ j. same_index (cons_at a j) (get_or ys j none)) ≡ true)
          cs (same_index_refl a.num_constraints a.constraint_indices) in
      ground arith,
)
