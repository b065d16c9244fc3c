-- ===== src/Preprocessing/Restored.antt =====
-- `merge_entries` as a whole, and after `remove_entries` of vec.c.
use sleqp.Base.{
  ℕ, suc, ◌+◌, ◌-◌, ◌≤◌, ◌≡◌, refl, ap, sym, subst, ◌∙◌, true, false, List, [], ◌∷◌, ◌++◌, arith,
  ltb, leb, ◌==◌, if◌then◌else◌, is_some, length, length-append, Outcome, ok, ◌>>=◌, Bool-cases,
  inl, inr,
}
use sleqp.Vec.{Entries, Vec, nnz, at, push, clear, reserve, remove_entries}
use sleqp.Vec.Entries.{InRange, IsValid, InRange-weaken, InRange-snoc, push_lem}
use sleqp.Vec.Removal.{IsIncreasing, contains, count_lower, renumber, remove_entries_lem}
use sleqp.Vec.Renumber.{at-renumber}
use sleqp.Preprocessing.{merge_loop, merge_entries}
use sleqp.Preprocessing.Merged.{merged, lower_count, restored_at, InRange-merged, at-merged}

module _ {R : Type 0} where
  -- Push all entries, in their order.
  unfoldable pub push_list : Entries R → Vec R → Outcome (Vec R)
  push_list [] v = ok v
  push_list ((i, x) ∷ es) v = push v i x >>= push_list es

  append_nothing : (es : Entries R) → es ++ [] ≡ es
  append_nothing [] = refl
  append_nothing (e ∷ es) = ap (λ ys. e ∷ ys) (append_nothing es)

  append_step :
      (es : Entries R) (i : ℕ) (x : R) (more : Entries R)
      → (es ++ ((i, x) ∷ [])) ++ more ≡ es ++ ((i, x) ∷ more)
  append_step [] i x more = refl
  append_step (e ∷ es) i x more = ap (λ ys. e ∷ ys) (append_step es i x more)

  pub push_list_lem :
      (es : Entries R) (b d : ℕ) (v : Vec R)
      → InRange b d es
      → InRange 0 b v.entries
      → v.dim ≡ d
      → nnz v + length es ≤ v.nnz_max
      → (push_list es v ≡ ok (record v { entries = v.entries ++ es }))
        × InRange 0 d (v.entries ++ es)
  unfolding push_list
  push_list_lem [] b d v h k e room = (
    ap (λ ys. ok (record v { entries = ys })) (sym (append_nothing v.entries)),
    subst (InRange 0 d) (sym (append_nothing v.entries))
        (InRange-weaken 0 0 b d v.entries (omega arith) h k),
  )
  push_list_lem ((i, x) ∷ es) b d v h k e room =
      let w : Vec R = record v { entries = v.entries ++ ((i, x) ∷ []) } in
      let runs : push v i x ≡ ok w = push_lem v b i x k h.0 (omega (arith, h.1)) (omega arith) in
      let (rest, fine) =
        push_list_lem es (suc i) d w h.2 (InRange-snoc 0 b v.entries i x k h.0) e
          (omega (arith, length-append v.entries ((i, x) ∷ []))) in
      (
        ap (λ o. o >>= push_list es) runs
            ∙ rest
            ∙ ap (λ ys. ok (record v { entries = ys })) (append_step v.entries i x es),
        subst (InRange 0 d) (append_step v.entries i x es) fine,
      )

  merge_loop-push_list :
      (es : Entries R) (offset : ℕ) (fs : Entries R) (v : Vec R)
      → merge_loop es offset fs v ≡ push_list (merged es offset fs) v
  unfolding merge_loop push_list merged
  merge_loop-push_list [] offset [] v = refl
  merge_loop-push_list [] offset ((f, y) ∷ fs) v =
      ap (λ k. push v f y >>= k) (λ i s. merge_loop-push_list [] (suc offset) fs s i)
  merge_loop-push_list ((i, x) ∷ es) offset [] v =
      ap (λ k. push v (i + offset) x >>= k) (λ t s. merge_loop-push_list es offset [] s t)
  merge_loop-push_list ((i, x) ∷ es) offset ((f, y) ∷ fs) v =
      elim (Bool-cases (leb f (i + offset))) [
        | inl fixed ↦
            rw (fixed, merge_loop, merged)
              (ap (λ k. push v f y >>= k)
                (λ t s. merge_loop-push_list ((i, x) ∷ es) (suc offset) fs s t))
        | inr moved ↦
            rw (moved, merge_loop, merged)
              (ap (λ k. push v (i + offset) x >>= k)
                (λ t s. merge_loop-push_list es offset ((f, y) ∷ fs) s t))
      ]

  length-merged :
      (es : Entries R) (offset : ℕ) (fs : Entries R)
      → length (merged es offset fs) ≡ length es + length fs
  unfolding merged
  length-merged [] offset fs = omega arith
  length-merged ((i, x) ∷ es) offset [] = omega (arith, length-merged es offset [])
  length-merged ((i, x) ∷ es) offset ((f, y) ∷ fs) = elim (Bool-cases (leb f (i + offset))) [
    | inl fixed ↦
        let rest = length-merged ((i, x) ∷ es) (suc offset) fs in
        rw (fixed, merged) (omega (arith, rest))
    | inr moved ↦
        let rest = length-merged es offset ((f, y) ∷ fs) in rw (moved, merged) (omega (arith, rest))
  ]

  -- `merge_entries` of a valid vector and values for increasing indices of the target, whose
  -- dimension is that of both, returns, whatever the target held. The target is valid, has the values
  -- at their indices, and between them the entries of the vector, in their order.
  pub merge_entries_lem :
      (source target : Vec R) (fixed : Entries R)
      → IsValid source
      → InRange 0 target.dim fixed
      → source.dim + length fixed ≡ target.dim
      → (out : Vec R) × (merge_entries source target fixed ≡ ok out)
        × IsValid out
        × (out.dim ≡ target.dim)
        × ((j : ℕ) → at j out.entries ≡ restored_at source.entries 0 fixed j)
  unfolding merge_entries clear reserve
  merge_entries_lem source target fixed h k e =
      let d = target.dim in
      let es = source.entries in
      let start : Vec R = reserve (clear target) (nnz source + length fixed) in
      let test : (source.dim + length fixed == d) ≡ true = ground arith in
      let none_yet : start.entries ≡ [] = ground arith in
      let dim : start.dim ≡ d = ground arith in
      let room : nnz source + length fixed ≤ start.nnz_max = ground arith in
      let count : nnz start ≡ 0 = ap length none_yet in
      let range =
        InRange-merged es 0 0 0 source.dim d fixed h.in_range k (omega arith) (omega arith) in
      let (runs, fine) =
        push_list_lem (merged es 0 fixed) 0 d start range
          (subst (InRange 0 0) (sym none_yet) (omega arith)) dim
          (omega (arith, length-merged es 0 fixed)) in
      let all : start.entries ++ merged es 0 fixed ≡ merged es 0 fixed =
        ap (λ ys. ys ++ merged es 0 fixed) none_yet in
      (
        record start { entries = start.entries ++ merged es 0 fixed },
        rw test (merge_loop-push_list es 0 fixed start ∙ runs),
        record {
          in_range = subst (λ n. InRange 0 n (start.entries ++ merged es 0 fixed)) (sym dim) fine;
          fits = omega (arith, ap length all, length-merged es 0 fixed);
        },
        dim,
        λ j.
            ap (at j) all
            ∙ at-merged es 0 0 0 source.dim d fixed j h.in_range k (omega arith) (omega arith)
                (omega arith),
      )

  abbrev pub indices : Entries R → List ℕ
  indices [] = []
  indices ((i, x) ∷ es) = i ∷ indices es

  indices-IsIncreasing : (a n : ℕ) (fs : Entries R) → InRange a n fs → IsIncreasing a n (indices fs)
  indices-IsIncreasing a n [] h = h
  indices-IsIncreasing a n ((f, y) ∷ fs) h = (h.0, h.1, indices-IsIncreasing (suc f) n fs h.2)

  length-indices : (fs : Entries R) → length (indices fs) ≡ length fs
  length-indices [] = refl
  length-indices (f ∷ fs) = ap suc (length-indices fs)

  contains-indices : (fs : Entries R) (j : ℕ) → contains (indices fs) j ≡ is_some (at j fs)
  contains-indices [] j = refl
  contains-indices ((f, y) ∷ fs) j = elim (Bool-cases (f == j)) [
    | inl here ↦ rw here refl
    | inr other ↦ rw other (contains-indices fs j)
  ]

  count_lower-indices : (fs : Entries R) (j : ℕ) → count_lower (indices fs) j ≡ lower_count fs j
  count_lower-indices [] j = refl
  count_lower-indices ((f, y) ∷ fs) j =
      ap (λ k. (if ltb f j then 1 else 0) + k) (count_lower-indices fs j)

  -- Removing the entries at fixed indices with `remove_entries` of vec.c and merging values for them
  -- back in gives, whatever the targets held, a valid vector that has these values at the fixed
  -- indices and the entries of the original vector at all others.
  pub merge_entries-remove_entries :
      (source reduced target : Vec R) (fixed : Entries R)
      → IsValid source
      → InRange 0 source.dim fixed
      → source.dim ≡ reduced.dim + length fixed
      → target.dim ≡ source.dim
      → (small : Vec R) × (out : Vec R) × (remove_entries source reduced (indices fixed) ≡ ok small)
        × (merge_entries small target fixed ≡ ok out)
        × IsValid out
        × ((j : ℕ)
            → at j out.entries ≡ (if is_some (at j fixed) then at j fixed else at j source.entries))
  merge_entries-remove_entries source reduced target fixed h k e e' =
      let inc = indices-IsIncreasing 0 source.dim fixed k in
      let (small, removes, fine, dim, entries) =
        remove_entries_lem source reduced (indices fixed) h inc
          (omega (arith, length-indices fixed)) in
      let (out, merges, fine', dim', found) =
        merge_entries_lem small target fixed fine (subst (λ n. InRange 0 n fixed) (sym e') k)
          (omega arith) in
      (
        small,
        out,
        removes,
        merges,
        fine',
        λ j. found j ∙ elim (Bool-cases (is_some (at j fixed))) [
          | inl is_fixed ↦ rw is_fixed refl
          | inr free ↦
              let kept : contains (indices fixed) j ≡ false = contains-indices fixed j ∙ free in
              rw free (
                ap (λ ys. at (j - (0 + lower_count fixed j)) ys) entries
                ∙ ap (λ c. at (j - (0 + c)) (renumber 0 (indices fixed) source.entries))
                    (sym (count_lower-indices fixed j))
                ∙ at-renumber 0 source.dim 0 source.dim (indices fixed) source.entries j inc
                    h.in_range kept)
        ],
      )
