-- ===== src/Vec/Shapes.antt =====
-- `copy`, `concat` and `resize` of vec.c.
use sleqp.Base.{
  ℕ, suc, ◌+◌, ◌-◌, ◌≤◌, ◌<◌, ◌≡◌, inl, inr, refl, ap, sym, subst, ◌∙◌, true, false, Option, none,
  [], ◌∷◌, ◌++◌, arith, ltb, leb, ◌==◌, if◌then◌else◌, length, length-append, ok, Bool-cases,
  if_of_false, ltb_zero,
}
use sleqp.Vec.{Entries, Vec, nnz, at, push_all, copy, concat, trim, resize, clear, reserve, push}
use sleqp.Vec.Entries.{
  InRange, IsValid, InRange-weaken, InRange-snoc, at_below, at_above, at-snoc, push_lem,
}

module _ {R : Type 0} where
  -- Entries moved by an offset.
  abbrev pub at_shifted : ℕ → ℕ → Entries R → Option R
  at_shifted off j es = if ltb j off then none else at (j - off) es

  -- What `push_all` leaves in a vector whose entries lie below `b`.
  record Pushed (off b n : ℕ) (es : Entries R) (v : Vec R) (out : Entries R) : Type 0 where
    runs : push_all off es v ≡ ok (record v { entries = out })
    in_range : InRange 0 (n + off) out
    count : length out ≡ nnz v + length es
    found : (j : ℕ) → at j out ≡ (if ltb j (b + off) then at j v.entries else at_shifted off j es)

  push_found :
      (off b n i j : ℕ) (x : R) (es old out : Entries R)
      → InRange (suc i) n es
      → b ≤ i
      → InRange 0 (b + off) old
      → at j out
        ≡ (if ltb j (suc i + off) then at j (old ++ ((i + off, x) ∷ [])) else at_shifted off j es)
      → at j out ≡ (if ltb j (b + off) then at j old else at_shifted off j ((i, x) ∷ es))
  push_found off b n i j x es old out he le hv f = ground (
    arith,
    f,
    at-snoc 0 (b + off) old (i + off) x j hv,
    at_above 0 (b + off) old j hv,
    at_below (suc i) n es (j - off) he,
  )

  push_all_lem :
      (off b n : ℕ) (es : Entries R) (v : Vec R)
      → InRange b n es
      → InRange 0 (b + off) v.entries
      → n + off ≤ v.dim
      → nnz v + length es ≤ v.nnz_max
      → (out : Entries R) × Pushed off b n es v out
  unfolding push_all
  push_all_lem off b n [] v he hv dim room = (
    v.entries,
    record {
      runs = refl;
      in_range = InRange-weaken 0 0 (b + off) (n + off) v.entries (omega arith) (omega arith) hv;
      count = omega arith;
      found = λ j. ground (arith, at_above 0 (b + off) v.entries j hv);
    },
  )
  push_all_lem off b n ((i, x) ∷ es) v (le, lt, he) hv dim room =
      let more = v.entries ++ ((i + off, x) ∷ []) in
      let runs : push v (i + off) x ≡ ok (record v { entries = more }) =
        push_lem v (b + off) (i + off) x hv (omega arith) (omega arith) (omega arith) in
      let next : InRange 0 (suc i + off) more =
        InRange-weaken 0 0 (suc (i + off)) (suc i + off) more (omega arith) (omega arith)
          (InRange-snoc 0 (b + off) v.entries (i + off) x hv (omega arith)) in
      let count : length more ≡ nnz v + 1 =
        omega (arith, length-append v.entries ((i + off, x) ∷ [])) in
      let (out, rest) =
        push_all_lem off (suc i) n es (record v { entries = more }) he next dim (omega arith) in
      (
        out,
        record {
          runs = rw runs rest.runs;
          in_range = rest.in_range;
          count = omega (arith, rest.count);
          found = λ j. push_found off b n i j x es v.entries out he le hv (rest.found j);
        },
      )

  cleared :
      (v : Vec R) (m : ℕ)
      → let w = clear (reserve v m) in (w.entries ≡ []) × (w.dim ≡ v.dim) × (m ≤ w.nnz_max)
  unfolding clear reserve
  cleared v m = ground arith

  copied :
      (j : ℕ) (es old : Entries R)
      → (if ltb j (0 + 0) then at j old else at_shifted 0 j es) ≡ at j es
  copied j es old =
      if_of_false (ltb j (0 + 0)) (at j old) (at_shifted 0 j es) (ltb_zero j)
      ∙ if_of_false (ltb j 0) none (at (j - 0) es) (ltb_zero j)
      ∙ ap (λ k. at k es) (omega arith)

  -- `copy` of a valid vector into one of its dimension returns, whatever the target held; the target
  -- is valid and has the entries of the source at every index.
  pub at-copy :
      (source target : Vec R)
      → IsValid source
      → source.dim ≡ target.dim
      → (out : Vec R) × (copy source target ≡ ok out)
        × IsValid out
        × (out.dim ≡ source.dim)
        × ((j : ℕ) → at j out.entries ≡ at j source.entries)
  unfolding copy
  at-copy source target h e =
      let start : Vec R = clear (reserve target (nnz source)) in
      let (none_yet, dim, room) = cleared target (nnz source) in
      let test : (source.dim == target.dim) ≡ true = ground arith in
      let (out, pushed) =
        push_all_lem 0 0 source.dim source.entries start h.in_range
          (subst (InRange 0 (0 + 0)) (sym none_yet) (omega arith)) (omega arith)
          (omega (arith, ap length none_yet, h.fits)) in
      (
        record start { entries = out },
        rw test pushed.runs,
        record {
          in_range =
              InRange-weaken 0 0 (source.dim + 0) start.dim out (omega arith) (omega arith)
                pushed.in_range;
          fits = omega (arith, pushed.count, ap length none_yet);
        },
        dim ∙ sym e,
        λ j. pushed.found j ∙ copied j source.entries start.entries,
      )

  emptied_first :
      (v : Vec R) (n m : ℕ)
      → let w = resize (reserve (clear v) m) n in (w.entries ≡ []) × (w.dim ≡ n) × (m ≤ w.nnz_max)
  unfolding clear reserve resize
  emptied_first v n m = ground arith

  joined :
      (n j : ℕ) (xs ys half : Entries R)
      → at j half ≡ at j xs
      → (if ltb j (0 + n) then at j half else at_shifted n j ys)
        ≡ (if ltb j n then at j xs else at (j - n) ys)
  joined n j xs ys half h = ground arith

  -- `concat` of two valid vectors returns, whatever the result held; the result is valid, has the sum
  -- of the dimensions, and holds the second vector behind the first.
  pub at-concat :
      (first second result : Vec R)
      → IsValid first
      → IsValid second
      → (out : Vec R) × (concat first second result ≡ ok out)
        × IsValid out
        × (out.dim ≡ first.dim + second.dim)
        × ((j : ℕ)
            → at j out.entries
              ≡ (if ltb j first.dim then at j first.entries else at (j - first.dim) second.entries))
  unfolding concat
  at-concat first second result hx hy =
      let n = first.dim in
      let start : Vec R =
        resize (reserve (clear result) (nnz first + nnz second)) (n + second.dim) in
      let (none_yet, dim, room) = emptied_first result (n + second.dim) (nnz first + nnz second) in
      let count : nnz start ≡ 0 = ap length none_yet in
      let (half, one) =
        push_all_lem 0 0 n first.entries start hx.in_range
          (subst (InRange 0 (0 + 0)) (sym none_yet) (omega arith)) (omega arith) (omega arith) in
      let half_in : InRange 0 (0 + n) half =
        InRange-weaken 0 0 (n + 0) (0 + n) half (omega arith) (omega arith) one.in_range in
      let (out, two) =
        push_all_lem n 0 second.dim second.entries (record start { entries = half }) hy.in_range
          half_in (omega arith) (omega (arith, one.count)) in
      (
        record start { entries = out },
        rw one.runs two.runs,
        record {
          in_range =
              InRange-weaken 0 0 (second.dim + n) start.dim out (omega arith) (omega arith)
                two.in_range;
          fits = omega (arith, one.count, two.count);
        },
        dim,
        λ j.
            two.found j
            ∙ joined n j first.entries second.entries half
                (one.found j ∙ copied j first.entries start.entries),
      )

  trim_all : (m a n : ℕ) (es : Entries R) → m ≤ a → InRange a n es → trim m es ≡ []
  unfolding trim
  trim_all m a n [] le h = refl
  trim_all m a n ((i, x) ∷ es) le (ai, lt, h) =
      rw (trim_all m (suc i) n es (omega arith) h) (ground arith)

  trim_keep :
      (m i : ℕ) (x : R) (es : Entries R)
      → leb m i ≡ false
      → trim m ((i, x) ∷ es) ≡ (i, x) ∷ trim m es
  unfolding trim
  trim_keep m i x es e =
      elim (trim m es)
        as (λ t.
          (elim t [ [] ↦ if leb m i then [] else (i, x) ∷ [] | e ∷ more ↦ (i, x) ∷ e ∷ more ])
          ≡ (i, x) ∷ t) [ [] ↦ rw e | e' ∷ more ↦ refl ]

  all_above :
      (j a n i m : ℕ) (x : R) (es : Entries R)
      → a ≤ i
      → i < n
      → InRange (suc i) n es
      → m ≤ i
      → none ≡ (if ltb j m then at j ((i, x) ∷ es) else none)
  all_above j a n i m x es ai lt h le = ground (arith, at_below (suc i) n es j h)

  -- The entries below a dimension are a prefix of entries in range.
  trim_lem :
      (a n m : ℕ) (es : Entries R)
      → a ≤ m
      → InRange a n es
      → InRange a m (trim m es)
        × ((j : ℕ) → at j (trim m es) ≡ (if ltb j m then at j es else none))
        × (length (trim m es) ≤ length es)
  unfolding trim
  trim_lem a n m [] le h = (le, λ j. ground arith, omega arith)
  trim_lem a n m ((i, x) ∷ es) le (ai, lt, h) = elim (Bool-cases (leb m i)) [
    | inl past ↦
        let gone : trim m ((i, x) ∷ es) ≡ [] =
          trim_all m i n ((i, x) ∷ es) (ground arith) (omega arith, lt, h) in
        rw gone (le, λ j. all_above j a n i m x es ai lt h (ground arith), omega arith)
    | inr before ↦
        let (in_range, found, short) = trim_lem (suc i) n m es (ground arith) h in
        let here : trim m ((i, x) ∷ es) ≡ (i, x) ∷ trim m es = trim_keep m i x es before in
        rw here ((ai, ground arith, in_range), λ j. ground (arith, found j), omega arith)
  ]

  -- `resize` of a valid vector is valid, and keeps the entries below the new dimension.
  pub at-resize :
      (v : Vec R) (m : ℕ)
      → IsValid v
      → IsValid (resize v m)
        × ((resize v m).dim ≡ m)
        × ((j : ℕ) → at j (resize v m).entries ≡ (if ltb j m then at j v.entries else none))
  unfolding resize
  at-resize v m h = elim (Bool-cases (ltb m v.dim)) [
    | inl smaller ↦
        let (in_range, found, short) = trim_lem 0 v.dim m v.entries (omega arith) h.in_range in
        rw smaller (record { in_range = in_range; fits = omega (arith, h.fits) }, refl, found)
    | inr larger ↦
        let le : v.dim ≤ m = ground arith in
        rw larger (
          record {
            in_range = InRange-weaken 0 0 v.dim m v.entries (omega arith) le h.in_range;
            fits = h.fits;
          },
          refl,
          λ j. ground (arith, at_above 0 v.dim v.entries j h.in_range),
        )
  ]
