-- ===== src/Vec/ClipLoop.antt =====
-- The loop of `sleqp_vec_clip`, and the room that it takes.
use sleqp.Base.{
  ℕ, zero, suc, ◌+◌, ◌*◌, ◌≤◌, ◌<◌, ◌≡◌, inl, inr, refl, ap, sym, subst, ◌∙◌, Bool, true, false,
  ◌&&◌, [], ◌∷◌, arith, if◌then◌else◌, length, ◌>>=◌, Bool-cases,
}
use sleqp.Double.{Double, is_zero}
use sleqp.Vec.{Entries, Vec, nnz, at, or_nought}
use sleqp.Vec.Entries.{InRange, InRange-weaken, at_above, length-le}
use sleqp.Vec.Merge.{
  is_nil, head_index, head_value, advance, smaller, clip_value, clip_loop, push_unless_zero,
}
use sleqp.Vec.Heads.{ThreeRounds, three_rounds, ThreeRounds-shorter}
use sleqp.Vec.Emit.{Emitted, emit}
use sleqp.Vec.Tolerance.{IsTolerant, present, two_present, Clipped, found_step}

rotate : (x l u : Bool) → x && l && u ≡ false → l && u && x ≡ false
rotate x l u h = ground arith

module _ {R : Type 0} ⦃d : Double R⦄ (eps : R) where
  open d use {nought, lt, le}

  abbrev pub Bounds : ℕ → Entries R → Entries R → Type 0
  Bounds b ls us = (j : ℕ) → b ≤ j → le (or_nought (at j ls)) (or_nought (at j us)) ≡ true

  -- The state of the loop at index `b`, for vectors of dimension `n` and a reserved room of `a`.
  pub record Ready (a b n s : ℕ) (ls us xs : Entries R) (v : Vec R) : Type 0 where
    pub lower_in : InRange b n ls
    pub upper_in : InRange b n us
    pub x_in : InRange b n xs
    pub below : InRange 0 b v.entries
    pub same_dim : v.dim ≡ n
    pub sentinel : n ≤ s
    pub bounds : Bounds b ls us
    pub room : 2 * nnz v + (length ls + length us + length xs) ≤ 2 * a
    pub reserved : smaller a n ≤ v.nnz_max

  stopped :
      (a fuel b n s : ℕ) (ls us xs : Entries R) (v : Vec R)
      → Ready a b n s ls us xs v
      → nnz v ≤ v.nnz_max
      → is_nil xs && is_nil ls && is_nil us ≡ true
      → Clipped eps v b n ls us xs (clip_loop (suc fuel) eps s xs ls us v) v.entries
  unfolding clip_loop
  stopped a fuel b n s [] [] [] v r fits done = record {
    runs = refl;
    in_range = InRange-weaken 0 0 b n v.entries (omega arith) r.lower_in r.below;
    fits = fits;
    found = λ j. ground (arith, at_above 0 b v.entries j r.below);
  }
  stopped a fuel b n s (l ∷ ls) us xs v r fits done = absurd (ground arith)
  stopped a fuel b n s [] (u ∷ us) xs v r fits done = absurd (ground arith)
  stopped a fuel b n s [] [] (x ∷ xs) v r fits done = absurd (ground arith)

  clip_loop_step :
      (fuel s i : ℕ) (ls us xs : Entries R) (v : Vec R)
      → is_nil xs && is_nil ls && is_nil us ≡ false
      → smaller (smaller (head_index s ls) (head_index s us)) (head_index s xs) ≡ i
      → clip_loop (suc fuel) eps s xs ls us v ≡ (
          push_unless_zero eps v i
            (clip_value (head_value i xs) (head_value i ls) (head_value i us))
          >>= clip_loop fuel eps s (advance i xs) (advance i ls) (advance i us))
  unfolding clip_loop
  clip_loop_step fuel s i ls us xs v more at_i = rw (more, clip_loop) (rw at_i)

  -- There is room for a value that is to be stored.
  room_left :
      (a b n s i : ℕ) (ls us xs : Entries R) (v : Vec R)
      → IsTolerant eps
      → Ready a b n s ls us xs v
      → ThreeRounds b n i ls us xs
      → is_zero (clip_value (head_value i xs) (head_value i ls) (head_value i us)) eps ≡ false
      → nnz v < v.nnz_max
  room_left a b n s i ls us xs v t rd r z =
      let z' : is_zero (clip_value (at i xs) (at i ls) (at i us)) eps ≡ false =
        rw (← r.of_first.value_at, ← r.of_second.value_at, ← r.of_third.value_at) z in
      let two : 2 ≤ present eps (at i ls) (at i us) (at i xs) =
        two_present eps t (at i ls) (at i us) (at i xs) (rd.bounds i r.index_ge) z' in
      let few : nnz v + 0 ≤ b = length-le 0 b v.entries rd.below in
      let many : nnz v < a =
        ground (arith, rd.room, r.of_first.count, r.of_second.count, r.of_third.count) in
      ground (arith, rd.reserved, r.index_ge, r.index_lt)

  -- A round that stores a value passes over two entries.
  round_room :
      (a b n s i : ℕ) (ls us xs es : Entries R) (v : Vec R)
      → IsTolerant eps
      → Ready a b n s ls us xs v
      → ThreeRounds b n i ls us xs
      → Emitted eps v i (clip_value (head_value i xs) (head_value i ls) (head_value i us)) es
      → 2 * length es + (length (advance i ls) + length (advance i us) + length (advance i xs))
        ≤ 2 * a
  round_room a b n s i ls us xs es v t rd r em =
      let value = clip_value (head_value i xs) (head_value i ls) (head_value i us) in
      let value' = clip_value (at i xs) (at i ls) (at i us) in
      let same : value ≡ value' =
        rw (r.of_first.value_at, r.of_second.value_at, r.of_third.value_at) in
      elim (Bool-cases (is_zero value eps)) [
        | inl z ↦
            let short : length es ≤ nnz v + 0 =
              subst (λ q. length es ≤ nnz v + (if q then 0 else 1)) z em.short in
            omega (arith, rd.room, ThreeRounds-shorter b n i ls us xs r)
        | inr nz ↦
            let short : length es ≤ nnz v + 1 =
              subst (λ q. length es ≤ nnz v + (if q then 0 else 1)) nz em.short in
            let two : 2 ≤ present eps (at i ls) (at i us) (at i xs) =
              two_present eps t (at i ls) (at i us) (at i xs) (rd.bounds i r.index_ge)
                (ap (λ y. is_zero y eps) (sym same) ∙ nz) in
            ground (arith, rd.room, r.of_first.count, r.of_second.count, r.of_third.count)
      ]

  -- What the loop does with less fuel is known.
  abbrev Known : ℕ → ℕ → Type 0
  Known a fuel =
      (b n s : ℕ) (ls us xs : Entries R) (v : Vec R)
      → IsTolerant eps
      → Ready a b n s ls us xs v
      → nnz v ≤ v.nnz_max
      → length ls + length us + length xs < fuel
      → (out : Entries R) × Clipped eps v b n ls us xs (clip_loop fuel eps s xs ls us v) out

  next_Ready :
      (a b n s i : ℕ) (ls us xs es : Entries R) (v : Vec R)
      → IsTolerant eps
      → Ready a b n s ls us xs v
      → ThreeRounds b n i ls us xs
      → Emitted eps v i (clip_value (head_value i xs) (head_value i ls) (head_value i us)) es
      → Ready a (suc i) n s (advance i ls) (advance i us) (advance i xs) (record v { entries = es })
  next_Ready a b n s i ls us xs es v t rd r em = record {
    lower_in = r.of_first.rest_in;
    upper_in = r.of_second.rest_in;
    x_in = r.of_third.rest_in;
    below = em.below;
    same_dim = rd.same_dim;
    sentinel = rd.sentinel;
    bounds = λ j h.
        rw (r.of_first.same_behind j h, r.of_second.same_behind j h)
          (rd.bounds j (omega (arith, r.index_ge)));
    room = round_room a b n s i ls us xs es v t rd r em;
    reserved = rd.reserved;
  }

  still_fits :
      (v : Vec R) (i : ℕ) (value : R) (es : Entries R)
      → Emitted eps v i value es
      → nnz v ≤ v.nnz_max
      → (is_zero value eps ≡ false → nnz v < v.nnz_max)
      → length es ≤ v.nnz_max
  still_fits v i value es em fits room = elim (Bool-cases (is_zero value eps)) [
    | inl z ↦ ground (arith, em.short)
    | inr nz ↦ ground (arith, em.short, room nz)
  ]

  clip_round :
      (a fuel b n s i : ℕ) (ls us xs : Entries R) (v : Vec R)
      → IsTolerant eps
      → Ready a b n s ls us xs v
      → nnz v ≤ v.nnz_max
      → length ls + length us + length xs < suc fuel
      → ThreeRounds b n i ls us xs
      → is_nil xs && is_nil ls && is_nil us ≡ false
      → smaller (smaller (head_index s ls) (head_index s us)) (head_index s xs) ≡ i
      → Known a fuel
      → (out : Entries R) × Clipped eps v b n ls us xs (clip_loop (suc fuel) eps s xs ls us v) out
  clip_round a fuel b n s i ls us xs v t rd fits enough r more at_i known =
      let value = clip_value (head_value i xs) (head_value i ls) (head_value i us) in
      let (es, em) =
        emit eps v b i value rd.below r.index_ge (omega (arith, r.index_lt, rd.same_dim))
          (λ z. room_left a b n s i ls us xs v t rd r z) in
      let (out, rest) =
        known (suc i) n s (advance i ls) (advance i us) (advance i xs) (record v { entries = es }) t
          (next_Ready a b n s i ls us xs es v t rd r em)
          (still_fits v i value es em fits (λ z. room_left a b n s i ls us xs v t rd r z))
          (omega (arith, ThreeRounds-shorter b n i ls us xs r)) in
      (
        out,
        record {
          runs =
              clip_loop_step fuel s i ls us xs v more at_i
              ∙ ap (λ o. o >>= clip_loop fuel eps s (advance i xs) (advance i ls) (advance i us))
                  em.runs
              ∙ rest.runs;
          in_range = rest.in_range;
          fits = rest.fits;
          found = λ j.
              found_step eps b n i j ls us xs v.entries es out rd.below r (em.found j)
                (rest.found j);
        },
      )

  pub clip_loop_lem :
      (a fuel b n s : ℕ) (ls us xs : Entries R) (v : Vec R)
      → IsTolerant eps
      → Ready a b n s ls us xs v
      → nnz v ≤ v.nnz_max
      → length ls + length us + length xs < fuel
      → (out : Entries R) × Clipped eps v b n ls us xs (clip_loop fuel eps s xs ls us v) out
  clip_loop_lem a zero b n s ls us xs v t rd fits enough = absurd (omega arith)
  clip_loop_lem a (suc fuel) b n s ls us xs v t rd fits enough =
      elim (Bool-cases (is_nil xs && is_nil ls && is_nil us)) [
        | inl done ↦ (v.entries, stopped a fuel b n s ls us xs v rd fits done)
        | inr more ↦
            let i = smaller (smaller (head_index s ls) (head_index s us)) (head_index s xs) in
            let r =
              three_rounds b n s ls us xs rd.lower_in rd.upper_in rd.x_in rd.sentinel
                (rotate (is_nil xs) (is_nil ls) (is_nil us) more) in
            clip_round a fuel b n s i ls us xs v t rd fits enough r more refl (clip_loop_lem a fuel)
      ]
