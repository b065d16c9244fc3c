-- ===== src/Vec/Removal.antt =====
-- `remove_entries` of vec.c.
use sleqp.Base.{
  ℕ, suc, ◌+◌, ◌-◌, ◌≤◌, ◌<◌, ◌≡◌, inl, inr, refl, ap, sym, subst, ◌∙◌, Bool, true, false, ◌||◌,
  List, [], ◌∷◌, ◌++◌, arith, ltb, leb, ◌==◌, if◌then◌else◌, length, length-append, Outcome, ok,
  Bool-cases,
}
use sleqp.Vec.{Entries, Vec, nnz, push, clear, reserve, remove_loop, remove_entries}
use sleqp.Vec.Entries.{InRange, IsValid, InRange-weaken, InRange-snoc, push_lem}

-- Indices that increase strictly, from `a` on and below `b`.
abbrev pub IsIncreasing : ℕ → ℕ → List ℕ → Type 0
IsIncreasing a b [] = a ≤ b
IsIncreasing a b (r ∷ rs) = (a ≤ r) × (r < b) × IsIncreasing (suc r) b rs

abbrev pub contains : List ℕ → ℕ → Bool
contains [] i = false
contains (r ∷ rs) i = (r == i) || contains rs i

-- The number of entries below an index.
abbrev pub count_lower : List ℕ → ℕ → ℕ
count_lower [] i = 0
count_lower (r ∷ rs) i = (if ltb r i then 1 else 0) + count_lower rs i

pub length-le_gap : (a b : ℕ) (rs : List ℕ) → IsIncreasing a b rs → length rs + a ≤ b
length-le_gap a b [] h = omega arith
length-le_gap a b (r ∷ rs) h = omega (arith, length-le_gap (suc r) b rs h.2)

pub contains_below :
    (a b : ℕ) (rs : List ℕ) (i : ℕ) → IsIncreasing a b rs → i < a → contains rs i ≡ false
contains_below a b [] i h lt = refl
contains_below a b (r ∷ rs) i h lt = ground (arith, contains_below (suc r) b rs i h.2)

pub count_lower_below :
    (a b : ℕ) (rs : List ℕ) (i : ℕ) → IsIncreasing a b rs → i ≤ a → count_lower rs i ≡ 0
count_lower_below a b [] i h le = refl
count_lower_below a b (r ∷ rs) i h le = ground (arith, count_lower_below (suc r) b rs i h.2)

module _ {R : Type 0} where
  -- The entries that are not removed, each moved down by `offset` and by the removed indices below it.
  abbrev pub renumber : ℕ → List ℕ → Entries R → Entries R
  renumber offset rs [] = []
  renumber offset rs ((i, x) ∷ es) =
      let rest = renumber offset rs es in
      if contains rs i then rest else (i - (offset + count_lower rs i), x) ∷ rest

  -- An index that is passed over moves all that follow.
  pub renumber_pass :
      (offset r n : ℕ) (rs : List ℕ) (es : Entries R)
      → InRange (suc r) n es
      → renumber (offset + 1) rs es ≡ renumber offset (r ∷ rs) es
  renumber_pass offset r n rs [] h = refl
  renumber_pass offset r n rs ((i, x) ∷ es) (le, lt, h) =
      let other : (r == i) ≡ false = ground arith in
      let lower : ltb r i ≡ true = ground arith in
      let moved : i - (offset + 1 + count_lower rs i) ≡ i - (offset + (1 + count_lower rs i)) =
        omega arith in
      let rest =
        renumber_pass offset r n rs es
          (InRange-weaken (suc i) (suc r) n n es (omega arith) (omega arith) h) in
      rw (other, lower, moved, rest)

  -- Where the loop stands: `b` is behind what is pushed, and `c` at what is to come.
  record Standing (offset b c n : ℕ) (rs : List ℕ) (es : Entries R) (v : Vec R) : Type 0 where
    pushed : InRange 0 b v.entries
    coming : InRange c n es
    removing : IsIncreasing c n rs
    behind : b + offset ≤ c
    below : b ≤ v.dim
    dims : v.dim + offset + length rs ≡ n
    room : nnz v + length es ≤ v.nnz_max

  record Removed (v : Vec R) (more : Entries R) (o : Outcome (Vec R)) : Type 0 where
    runs : o ≡ ok (record v { entries = v.entries ++ more })
    in_range : InRange 0 v.dim (v.entries ++ more)
    fits : length (v.entries ++ more) ≤ v.nnz_max

  loop_pass :
      (i : ℕ) (x : R) (es : Entries R) (offset r : ℕ) (rs : List ℕ) (v : Vec R)
      → r < i
      → remove_loop ((i, x) ∷ es) offset (r ∷ rs) v ≡ remove_loop ((i, x) ∷ es) (offset + 1) rs v
  unfolding remove_loop
  loop_pass i x es offset r rs v lt = let t : ltb r i ≡ true = ground arith in rw (t, remove_loop)

  loop_skip :
      (i : ℕ) (x : R) (es : Entries R) (offset : ℕ) (rs : List ℕ) (v : Vec R)
      → remove_loop ((i, x) ∷ es) offset (i ∷ rs) v ≡ remove_loop es offset (i ∷ rs) v
  unfolding remove_loop
  loop_skip i x es offset rs v =
      let t : ltb i i ≡ false = ground arith in
      let u : (i == i) ≡ true = ground arith in rw (t, u, remove_loop)

  loop_push :
      (i n : ℕ) (x : R) (es : Entries R) (offset : ℕ) (rs : List ℕ) (v w : Vec R)
      → IsIncreasing (suc i) n rs
      → offset ≤ i
      → push v (i - offset) x ≡ ok w
      → remove_loop ((i, x) ∷ es) offset rs v ≡ remove_loop es offset rs w
  unfolding remove_loop
  loop_push i n x es offset [] v w h le e = let t : leb offset i ≡ true = ground arith in rw (t, e)
  loop_push i n x es offset (r ∷ rs) v w h le e =
      let t : leb offset i ≡ true = ground arith in
      let not_before : ltb r i ≡ false = ground arith in
      let not_here : (r == i) ≡ false = ground arith in
      rw (not_before, not_here, remove_loop) (rw (t, e))

  append_nil_entries : (xs : Entries R) → xs ++ [] ≡ xs
  append_nil_entries [] = refl
  append_nil_entries (x ∷ xs) = ap (λ ys. x ∷ ys) (append_nil_entries xs)

  append_assoc_entries : (xs ys zs : Entries R) → (xs ++ ys) ++ zs ≡ xs ++ (ys ++ zs)
  append_assoc_entries [] ys zs = refl
  append_assoc_entries (x ∷ xs) ys zs = ap (λ ws. x ∷ ws) (append_assoc_entries xs ys zs)

  -- The entry is pushed, behind all removed indices below it.
  pushed_step :
      (i n : ℕ) (x : R) (es : Entries R) (offset b c : ℕ) (rs : List ℕ) (v : Vec R)
      → Standing offset b c n rs ((i, x) ∷ es) v
      → IsIncreasing (suc i) n rs
      → (let w : Vec R = record v { entries = v.entries ++ ((i - offset, x) ∷ []) } in
          Standing offset (suc (i - offset)) (suc i) n rs es w
          → Removed w (renumber offset rs es) (remove_loop es offset rs w))
      → Removed v (renumber offset rs ((i, x) ∷ es)) (remove_loop ((i, x) ∷ es) offset rs v)
  pushed_step i n x es offset b c rs v s h known =
      let w : Vec R = record v { entries = v.entries ++ ((i - offset, x) ∷ []) } in
      let le : c ≤ i = s.coming.0 in
      let gap = length-le_gap (suc i) n rs h in
      let runs : push v (i - offset) x ≡ ok w =
        push_lem v b (i - offset) x s.pushed (omega (arith, s.behind))
          (omega (arith, s.dims, s.behind)) (omega (arith, s.room)) in
      let rest = known (record {
        pushed = InRange-snoc 0 b v.entries (i - offset) x s.pushed (omega (arith, s.behind));
        coming = s.coming.2;
        removing = h;
        behind = omega (arith, s.behind);
        below = omega (arith, s.dims, s.behind);
        dims = s.dims;
        room = omega (arith, s.room, length-append v.entries ((i - offset, x) ∷ []));
      }) in
      let kept : contains rs i ≡ false = contains_below (suc i) n rs i h (omega arith) in
      let place : i - (offset + count_lower rs i) ≡ i - offset =
        omega (arith, count_lower_below (suc i) n rs i h (omega arith)) in
      let more : w.entries ++ renumber offset rs es
          ≡ v.entries ++ renumber offset rs ((i, x) ∷ es) =
        append_assoc_entries v.entries ((i - offset, x) ∷ []) (renumber offset rs es)
        ∙ sym (rw (kept, place)) in
      record {
        runs =
            loop_push i n x es offset rs v w h (omega (arith, s.behind)) runs
            ∙ rest.runs
            ∙ ap (λ ys. ok (record v { entries = ys })) more;
        in_range = subst (InRange 0 v.dim) more rest.in_range;
        fits = subst (λ ys. length ys ≤ v.nnz_max) more rest.fits;
      }

  remove_loop_lem :
      (es : Entries R) (offset b c n : ℕ) (rs : List ℕ) (v : Vec R)
      → Standing offset b c n rs es v
      → Removed v (renumber offset rs es) (remove_loop es offset rs v)
  unfolding remove_loop
  remove_loop_lem [] offset b c n rs v s =
      let same : v.entries ≡ v.entries ++ [] = sym (append_nil_entries v.entries) in
      record {
        runs = ap (λ ys. ok (record v { entries = ys })) same;
        in_range =
            subst (InRange 0 v.dim) same
              (InRange-weaken 0 0 b v.dim v.entries (omega arith) s.below s.pushed);
        fits = subst (λ ys. length ys ≤ v.nnz_max) same (omega (arith, s.room));
      }
  remove_loop_lem ((i, x) ∷ es) offset b c n [] v s =
      pushed_step i n x es offset b c [] v s (omega (arith, s.coming))
        (remove_loop_lem es offset _ _ n [] _)
  remove_loop_lem ((i, x) ∷ es) offset b c n (r ∷ rs) v s = elim (Bool-cases (ltb r i)) [
    | inl before ↦
        let lt : r < i = ground arith in
        let all_behind : InRange (suc r) n ((i, x) ∷ es) = (omega arith, s.coming.1, s.coming.2) in
        let ih = remove_loop_lem ((i, x) ∷ es) (offset + 1) b (suc r) n rs v (record {
          pushed = s.pushed;
          coming = all_behind;
          removing = s.removing.2;
          behind = omega (arith, s.behind, s.removing.0);
          below = s.below;
          dims = omega (arith, s.dims);
          room = s.room;
        }) in
        subst (λ m. Removed v m (remove_loop ((i, x) ∷ es) offset (r ∷ rs) v))
          (renumber_pass offset r n rs ((i, x) ∷ es) all_behind)
          (subst (Removed v (renumber (offset + 1) rs ((i, x) ∷ es)))
            (sym (loop_pass i x es offset r rs v lt)) ih)
    | inr not_before ↦ elim (Bool-cases (r == i)) [
      | inl here ↦
          let e : r ≡ i = ground arith in
          let ih = remove_loop_lem es offset b c n (r ∷ rs) v (record {
            pushed = s.pushed;
            coming =
                InRange-weaken (suc i) c n n es (omega (arith, s.coming.0)) (omega arith)
                  s.coming.2;
            removing = s.removing;
            behind = s.behind;
            below = s.below;
            dims = s.dims;
            room = omega (arith, s.room);
          }) in
          let gone : renumber offset (r ∷ rs) es ≡ renumber offset (r ∷ rs) ((i, x) ∷ es) =
            rw here in
          let skip : remove_loop ((i, x) ∷ es) offset (r ∷ rs) v
              ≡ remove_loop es offset (r ∷ rs) v =
            subst
              (λ q. remove_loop ((i, x) ∷ es) offset (q ∷ rs) v ≡ remove_loop es offset (q ∷ rs) v)
              (sym e) (loop_skip i x es offset rs v) in
          subst (λ m. Removed v m (remove_loop ((i, x) ∷ es) offset (r ∷ rs) v)) gone
            (subst (Removed v (renumber offset (r ∷ rs) es)) (sym skip) ih)
      | inr behind ↦
          pushed_step i n x es offset b c (r ∷ rs) v s (ground arith, s.removing.1, s.removing.2)
            (remove_loop_lem es offset _ _ n (r ∷ rs) _)
    ]
  ]

  cleared_for :
      (v : Vec R) (m : ℕ)
      → (let w = reserve (clear v) m in (w.entries ≡ []) × (w.dim ≡ v.dim) × (m ≤ w.nnz_max))
  unfolding reserve clear
  cleared_for v m = ground arith

  -- `remove_entries` of a valid vector, for indices that increase strictly and lie in it, and a target
  -- with the dimension that is left, returns, whatever the target held. The target is valid, and has
  -- the entries that are not removed in their order, each moved down by the number of the removed
  -- indices below it.
  pub remove_entries_lem :
      (source target : Vec R) (removed : List ℕ)
      → IsValid source
      → IsIncreasing 0 source.dim removed
      → source.dim ≡ target.dim + length removed
      → (out : Vec R) × (remove_entries source target removed ≡ ok out)
        × IsValid out
        × (out.dim ≡ target.dim)
        × (out.entries ≡ renumber 0 removed source.entries)
  unfolding remove_entries
  remove_entries_lem source target removed h inc e =
      let start : Vec R = reserve (clear target) (nnz source) in
      let (none_yet, dim, room) = cleared_for target (nnz source) in
      let count : nnz start ≡ 0 = ap length none_yet in
      let test : (source.dim == target.dim + length removed) ≡ true = ground arith in
      let loop = remove_loop_lem source.entries 0 0 0 source.dim removed start (record {
        pushed = subst (InRange 0 0) (sym none_yet) (omega arith);
        coming = h.in_range;
        removing = inc;
        behind = omega arith;
        below = omega arith;
        dims = omega arith;
        room = omega arith;
      }) in
      (
        record start { entries = start.entries ++ renumber 0 removed source.entries },
        rw test loop.runs,
        record { in_range = loop.in_range; fits = loop.fits },
        dim,
        ap (λ ys. ys ++ renumber 0 removed source.entries) none_yet,
      )
