-- ===== src/Feas/Pushed.antt =====
-- The loops of feas.c that push at most one value at an index.
use sleqp.Base.{
  ℕ, zero, suc, ◌+◌, ◌≤◌, ◌<◌, ◌≡◌, refl, ap, sym, subst, ◌∙◌, true, false, Option, none, some, [],
  ◌∷◌, ◌++◌, arith, ltb, ◌==◌, if◌then◌else◌, is_some, length, length-append, Outcome, ok, ◌>>=◌,
  Bool-cases, inl, inr,
}
use sleqp.Double.{Double}
use sleqp.Vec.{Entries, Vec, nnz, at, or_nought}
use sleqp.Vec.Entries.{
  InRange, IsValid, InRange-weaken, InRange-snoc, at-snoc, at_above, at_below, push_lem,
}
use sleqp.Feas.{push_some, push_step, walk_all}
use sleqp.Feas.Walk.{visited, turn, dense, walk_all-dense}

one_at_most : {A : Type 0} (o : Option A) → (if is_some o then 1 else 0) ≤ 1
one_at_most none = omega arith
one_at_most (some x) = omega arith

room_for :
    {A : Type 0} (o : Option A) (n room : ℕ)
    → n + 1 ≤ room
    → n + (if is_some o then 1 else 0) ≤ room
room_for o n room h = omega (arith, one_at_most o)

module _ {R : Type 0} where
  -- What `push_some` leaves behind.
  record Grows (v : Vec R) (i : ℕ) (value : Option R) (es : Entries R) : Type 0 where
    runs : push_some v i value ≡ ok (record v { entries = es })
    below : InRange 0 (suc i) es
    found : (j : ℕ) → at j es ≡ (if i == j then value else at j v.entries)
    short : length es ≤ nnz v + (if is_some value then 1 else 0)

  push_some_lem :
      (v : Vec R) (i : ℕ) (value : Option R)
      → InRange 0 i v.entries
      → i < v.dim
      → nnz v + (if is_some value then 1 else 0) ≤ v.nnz_max
      → (es : Entries R) × Grows v i value es
  push_some_lem v i none h lt room = (
    v.entries,
    record {
      runs = refl;
      below = InRange-weaken 0 0 i (suc i) v.entries (omega arith) (omega arith) h;
      found = λ j. ground (arith, at_above 0 i v.entries j h);
      short = omega arith;
    },
  )
  push_some_lem v i (some x) h lt room = (
    v.entries ++ ((i, x) ∷ []),
    record {
      runs = push_lem v i i x h (omega arith) lt (omega arith);
      below = InRange-snoc 0 i v.entries i x h (omega arith);
      found = λ j. at-snoc 0 i v.entries i x j h (omega arith);
      short = omega (arith, length-append v.entries ((i, x) ∷ []));
    },
  )

  -- The number of indices where one of the vectors has an entry.
  visits : (cs ls us : Entries R) (rounds i : ℕ) → ℕ
  visits cs ls us zero i = 0
  visits cs ls us (suc rounds) i =
      (if visited (at i cs) (at i ls) (at i us) then 1 else 0) + visits cs ls us rounds (suc i)

  visits-le : (cs ls us : Entries R) (rounds i : ℕ) → visits cs ls us rounds i ≤ rounds
  unfolding visits
  visits-le cs ls us zero i = omega arith
  visits-le cs ls us (suc rounds) i = ground (arith, visits-le cs ls us rounds (suc i))

  hits : (es : Entries R) (rounds i : ℕ) → ℕ
  hits es zero i = 0
  hits es (suc rounds) i = (if is_some (at i es) then 1 else 0) + hits es rounds (suc i)

  hits_congr :
      (es es' : Entries R) (rounds i : ℕ)
      → ((j : ℕ) → i ≤ j → at j es ≡ at j es')
      → hits es rounds i ≡ hits es' rounds i
  unfolding hits
  hits_congr es es' zero i h = refl
  hits_congr es es' (suc rounds) i h =
      let rest = hits_congr es es' rounds (suc i) (λ j le. h j (omega arith)) in
      rw (h i (omega arith)) (omega (arith, rest))

  hits-nil : (es : Entries R) (rounds i : ℕ) → es ≡ [] → hits es rounds i ≡ 0
  unfolding hits
  hits-nil es zero i e = refl
  hits-nil es (suc rounds) i e = rw (ap (at i) e) (omega (arith, hits-nil es rounds (suc i) e))

  hits-le : (rounds b n : ℕ) (es : Entries R) → InRange b n es → hits es rounds b ≤ length es
  unfolding hits
  hits-le zero b n es h = omega arith
  hits-le (suc rounds) b n [] h = omega (arith, hits-nil [] rounds (suc b) refl)
  hits-le (suc rounds) b n ((k, x) ∷ es) h = elim (Bool-cases (k == b)) [
    | inl here ↦
        let q : k ≡ b = ground arith in
        let tail : InRange (suc b) n es = subst (λ a. InRange (suc a) n es) q h.2 in
        let rest = hits-le rounds (suc b) n es tail in
        let same =
          hits_congr ((k, x) ∷ es) es rounds (suc b)
            (λ j le. let t : (k == j) ≡ false = ground arith in rw t refl) in
        rw here (omega (arith, rest, same))
    | inr behind ↦
        let missing : at b es ≡ none = at_below (suc k) n es b h.2 (omega (arith, h.0)) in
        let rest = hits-le rounds (suc b) n ((k, x) ∷ es) (ground arith, h.1, h.2) in
        rw (behind, missing) (omega (arith, rest))
  ]

  visits-hits :
      (cs ls us : Entries R) (rounds i : ℕ)
      → visits cs ls us rounds i ≤ hits cs rounds i + hits ls rounds i + hits us rounds i
  unfolding visits hits
  visits-hits cs ls us zero i = omega arith
  visits-hits cs ls us (suc rounds) i = ground (arith, visits-hits cs ls us rounds (suc i))

module _ {R : Type 0} ⦃d : Double R⦄ (emit : ℕ → R → R → R → Outcome (Option R)) where
  -- What the body answers, index by index. Nothing is pushed where no vector has an entry.
  pub record Answers (cs ls us : Entries R) (n : ℕ) (spec : ℕ → Option R) : Type 0 where
    pub answers :
        (i : ℕ)
        → i < n
        → visited (at i cs) (at i ls) (at i us) ≡ true
        → emit i (or_nought (at i cs)) (or_nought (at i ls)) (or_nought (at i us)) ≡ ok (spec i)
    pub otherwise : (i : ℕ) → i < n → visited (at i cs) (at i ls) (at i us) ≡ false → spec i ≡ none

  record Pushed (cs ls us : Entries R) (rounds i n : ℕ) (spec : ℕ → Option R) (v : Vec R)
      (out : Entries R) : Type 0 where
    runs : dense (push_step emit) cs ls us rounds i v ≡ ok (record v { entries = out })
    in_range : InRange 0 n out
    short : length out ≤ nnz v + visits cs ls us rounds i
    found : (j : ℕ) → j < n → at j out ≡ (if ltb j i then at j v.entries else spec j)

  -- One index: what is pushed there.
  turn_lem :
      (cs ls us : Entries R) (n i : ℕ) (spec : ℕ → Option R) (v : Vec R)
      → Answers cs ls us n spec
      → i < n
      → v.dim ≡ n
      → InRange 0 i v.entries
      → nnz v + (if visited (at i cs) (at i ls) (at i us) then 1 else 0) ≤ v.nnz_max
      → (es : Entries R) × (turn (push_step emit) i (at i cs) (at i ls) (at i us) v
          ≡ ok (record v { entries = es }))
        × InRange 0 (suc i) es
        × ((j : ℕ) → at j es ≡ (if i == j then spec i else at j v.entries))
        × (length es ≤ nnz v + (if visited (at i cs) (at i ls) (at i us) then 1 else 0))
  unfolding push_step
  turn_lem cs ls us n i spec v a lt dim h room =
      elim (Bool-cases (visited (at i cs) (at i ls) (at i us))) [
        | inl yes_entry ↦
            let one_more : nnz v + 1 ≤ v.nnz_max = let k = rw yes_entry at room in k in
            let (es, g) =
              push_some_lem v i (spec i) h (omega arith)
                (room_for (spec i) (nnz v) v.nnz_max one_more) in
            let at_most = one_at_most (spec i) in
            (
              es,
              rw (yes_entry, a.answers i lt yes_entry) g.runs,
              g.below,
              g.found,
              rw yes_entry (omega (arith, g.short, at_most)),
            )
        | inr no_entry ↦
            let nothing = a.otherwise i lt no_entry in
            (
              v.entries,
              rw no_entry refl,
              InRange-weaken 0 0 i (suc i) v.entries (omega arith) (omega arith) h,
              λ j. rw nothing (ground (arith, at_above 0 i v.entries j h)),
              omega arith,
            )
      ]

  dense-Pushed :
      (cs ls us : Entries R) (rounds i n : ℕ) (spec : ℕ → Option R) (v : Vec R)
      → Answers cs ls us n spec
      → i + rounds ≡ n
      → v.dim ≡ n
      → InRange 0 i v.entries
      → nnz v + visits cs ls us rounds i ≤ v.nnz_max
      → (out : Entries R) × Pushed cs ls us rounds i n spec v out
  unfolding dense visits
  dense-Pushed cs ls us zero i n spec v a e dim h room = (
    v.entries,
    record {
      runs = refl;
      in_range = InRange-weaken 0 0 i n v.entries (omega arith) (omega arith) h;
      short = omega arith;
      found = λ j lt. let t : ltb j i ≡ true = ground arith in rw t refl;
    },
  )
  dense-Pushed cs ls us (suc rounds) i n spec v a e dim h room =
      let (es, runs, below, found, short) =
        turn_lem cs ls us n i spec v a (omega arith) dim h (omega arith) in
      let (out, p) =
        dense-Pushed cs ls us rounds (suc i) n spec (record v { entries = es }) a (omega arith) dim
          below (omega (arith, short)) in
      (
        out,
        record {
          runs = ap (λ o. o >>= dense (push_step emit) cs ls us rounds (suc i)) runs ∙ p.runs;
          in_range = p.in_range;
          short = omega (arith, p.short, short);
          found = λ j lt. p.found j lt ∙ elim (Bool-cases (i == j)) [
            | inl here ↦
                let q : i ≡ j = ground arith in
                let t : ltb j (suc i) ≡ true = ground arith in
                let t' : ltb j i ≡ false = ground arith in
                rw (t, t') (found j ∙ rw here (ap spec q))
            | inr other ↦ elim (Bool-cases (ltb j i)) [
              | inl before ↦
                  let t : ltb j (suc i) ≡ true = ground arith in
                  rw (t, before) (found j ∙ rw other refl)
              | inr behind ↦ let t : ltb j (suc i) ≡ false = ground arith in rw (t, behind) refl
            ]
          ];
        },
      )

  -- The whole loop on an emptied vector with room for all indices, or for all entries.
  pub walk_all_pushed :
      (c lb ub v : Vec R) (spec : ℕ → Option R)
      → IsValid c
      → IsValid lb
      → IsValid ub
      → c.dim ≡ lb.dim
      → c.dim ≡ ub.dim
      → Answers c.entries lb.entries ub.entries c.dim spec
      → v.entries ≡ []
      → v.dim ≡ c.dim
      → ((k : ℕ) → k ≤ c.dim → k ≤ nnz lb + nnz ub + nnz c → k ≤ v.nnz_max)
      → (out : Vec R) × (walk_all (push_step emit) c lb ub v ≡ ok out)
        × IsValid out
        × (out.dim ≡ c.dim)
        × ((i : ℕ) → i < c.dim → at i out.entries ≡ spec i)
  walk_all_pushed c lb ub v spec hc hl hu el eu a empty dim room =
      let cs = c.entries in
      let ls = lb.entries in
      let us = ub.entries in
      let n = c.dim in
      let none_yet : nnz v ≡ 0 = ap length empty in
      let few = visits-le cs ls us n 0 in
      let fits = room (visits cs ls us n 0) few (
        omega (
          arith,
          visits-hits cs ls us n 0,
          hits-le n 0 n cs hc.in_range,
          hits-le n 0 lb.dim ls hl.in_range,
          hits-le n 0 ub.dim us hu.in_range,
        )) in
      let (out, p) =
        dense-Pushed cs ls us n 0 n spec v a (omega arith) dim
          (subst (InRange 0 0) (sym empty) (omega arith)) (omega arith) in
      (
        record v { entries = out },
        walk_all-dense (push_step emit) c lb ub v hc hl hu el eu ∙ p.runs,
        record {
          in_range = subst (λ k. InRange 0 k out) (sym dim) p.in_range;
          fits = omega (arith, p.short);
        },
        dim,
        λ i lt. let t : ltb i 0 ≡ false = ground arith in p.found i lt ∙ rw t refl,
      )
