-- ===== src/Vec/Heads.antt =====
-- One round of a merge loop, on one of its vectors: the entry at the combined index is read and
-- passed over.
use sleqp.Base.{
  ℕ, suc, ◌+◌, ◌≤◌, ◌<◌, ◌≡◌, refl, true, false, Option, none, [], ◌∷◌, arith, if◌then◌else◌,
  is_some, length, ◌&&◌, ◌⊎◌,
}
use sleqp.Vec.{Entries, at}
use sleqp.Vec.Entries.{InRange, at_below, InRange-weaken}
use sleqp.Vec.Merge.{is_nil, head_index, head_value, advance, smaller}

smaller_le : (a c : ℕ) → (smaller a c ≤ a) × (smaller a c ≤ c)
smaller_le a c = ground arith

-- What a round needs to know of one vector, whose entries were in range from `b` on: `rest` is in
-- range behind `i`, agrees with it behind `i`, and is shorter if there was an entry at `i`.
pub record Round {R : Type 0} (d i : ℕ) (es rest : Entries R) (value : Option R) : Type 0 where
  pub value_at : value ≡ at i es
  pub rest_in : InRange (suc i) d rest
  pub same_behind : (j : ℕ) → i < j → at j rest ≡ at j es
  pub none_before : (j : ℕ) → j < i → at j es ≡ none
  pub count : length rest + (if is_some (at i es) then 1 else 0) ≡ length es

module _ {R : Type 0} where
  pub round :
      (b d s i : ℕ) (es : Entries R)
      → InRange b d es
      → i < d
      → i ≤ head_index s es
      → Round d i es (advance i es) (head_value i es)
  round b d s i [] h lt le = record {
    value_at = refl;
    rest_in = omega arith;
    same_behind = λ j l. refl;
    none_before = λ j l. refl;
    count = omega arith;
  }
  round b d s i ((k, x) ∷ es) h lt le = record {
    value_at = ground (arith, at_below (suc k) d es i h.2);
    rest_in = ground (arith, InRange-weaken (suc k) (suc k) d d es);
    same_behind = λ j l. ground arith;
    none_before = λ j l. ground (arith, at_below (suc k) d es j h.2);
    count = ground (arith, at_below (suc k) d es i h.2);
  }

  -- A vector that is not at its end is at an index in range.
  pub head_in :
      (b d s : ℕ) (es : Entries R)
      → InRange b d es
      → is_nil es ≡ false
      → (b ≤ head_index s es) × (head_index s es < d) × (is_some (at (head_index s es) es) ≡ true)
  head_in b d s [] h e = cc
  head_in b d s ((i, x) ∷ es) h e = ground arith

  pub head_ge : (b d s : ℕ) (es : Entries R) → InRange b d es → d ≤ s → b ≤ head_index s es
  head_ge b d s [] h le = omega arith
  head_ge b d s ((i, x) ∷ es) h le = h.0

  module _ (b n s t : ℕ) (xs ys : Entries R) (hx : InRange b n xs) (hy : InRange b n ys)
      (ls : n ≤ s) (lt : n ≤ t) where
    smaller_ge : b ≤ smaller (head_index s xs) (head_index t ys)
    smaller_ge = ground (arith, head_ge b n s xs hx ls, head_ge b n t ys hy lt)

  -- The combined index is in range, and one of the vectors has an entry there.
  smaller_lt :
      (b n s t : ℕ) (xs ys : Entries R)
      → InRange b n xs
      → InRange b n ys
      → n ≤ s
      → n ≤ t
      → is_nil xs && is_nil ys ≡ false
      → let i = smaller (head_index s xs) (head_index t ys) in
        (i < n) × ((is_some (at i xs) ≡ true) ⊎ (is_some (at i ys) ≡ true))
  smaller_lt b n s t [] [] hx hy ls lt more = absurd (ground arith)
  smaller_lt b n s t [] ((j, y) ∷ ys) hx hy ls lt more = ground arith
  smaller_lt b n s t ((i, x) ∷ xs) [] hx hy ls lt more = ground arith
  smaller_lt b n s t ((i, x) ∷ xs) ((j, y) ∷ ys) hx hy ls lt more = ground arith

  -- A round of a loop over two vectors, at the combined index.
  pub record TwoRounds (b n i : ℕ) (xs ys : Entries R) : Type 0 where
    pub index_ge : b ≤ i
    pub index_lt : i < n
    pub of_first : Round n i xs (advance i xs) (head_value i xs)
    pub of_second : Round n i ys (advance i ys) (head_value i ys)
    pub progress : (is_some (at i xs) ≡ true) ⊎ (is_some (at i ys) ≡ true)

  pub two_rounds :
      (b n s t : ℕ) (xs ys : Entries R)
      → InRange b n xs
      → InRange b n ys
      → n ≤ s
      → n ≤ t
      → is_nil xs && is_nil ys ≡ false
      → TwoRounds b n (smaller (head_index s xs) (head_index t ys)) xs ys
  two_rounds b n s t xs ys hx hy ls lt more =
      let i = smaller (head_index s xs) (head_index t ys) in
      let (i_lt, found) = smaller_lt b n s t xs ys hx hy ls lt more in
      record {
        index_ge = smaller_ge b n s t xs ys hx hy ls lt;
        index_lt = i_lt;
        of_first = round b n s i xs hx i_lt (smaller_le (head_index s xs) (head_index t ys)).0;
        of_second = round b n t i ys hy i_lt (smaller_le (head_index s xs) (head_index t ys)).1;
        progress = found;
      }

  -- A round passes over an entry.
  pub TwoRounds-shorter :
      (b n i : ℕ) (xs ys : Entries R)
      → TwoRounds b n i xs ys
      → length (advance i xs) + length (advance i ys) < length xs + length ys
  TwoRounds-shorter b n i xs ys r = ground (arith, r.of_first.count, r.of_second.count, r.progress)

  -- A round of a loop over three vectors of one dimension.
  pub record ThreeRounds (b n i : ℕ) (xs ys zs : Entries R) : Type 0 where
    pub index_ge : b ≤ i
    pub index_lt : i < n
    pub of_first : Round n i xs (advance i xs) (head_value i xs)
    pub of_second : Round n i ys (advance i ys) (head_value i ys)
    pub of_third : Round n i zs (advance i zs) (head_value i zs)
    pub progress :
        (is_some (at i xs) ≡ true) ⊎ (is_some (at i ys) ≡ true) ⊎ (is_some (at i zs) ≡ true)

  smallest_lt :
      (b n s : ℕ) (xs ys zs : Entries R)
      → InRange b n xs
      → InRange b n ys
      → InRange b n zs
      → n ≤ s
      → is_nil xs && is_nil ys && is_nil zs ≡ false
      → let i = smaller (smaller (head_index s xs) (head_index s ys)) (head_index s zs) in
        (i < n)
        × ((is_some (at i xs) ≡ true) ⊎ (is_some (at i ys) ≡ true) ⊎ (is_some (at i zs) ≡ true))
  smallest_lt b n s [] [] [] hx hy hz ls more = absurd (ground arith)
  smallest_lt b n s [] [] (z ∷ zs) hx hy hz ls more = ground arith
  smallest_lt b n s [] (y ∷ ys) [] hx hy hz ls more = ground arith
  smallest_lt b n s [] (y ∷ ys) (z ∷ zs) hx hy hz ls more = ground arith
  smallest_lt b n s (x ∷ xs) [] [] hx hy hz ls more = ground arith
  smallest_lt b n s (x ∷ xs) [] (z ∷ zs) hx hy hz ls more = ground arith
  smallest_lt b n s (x ∷ xs) (y ∷ ys) [] hx hy hz ls more = ground arith
  smallest_lt b n s (x ∷ xs) (y ∷ ys) (z ∷ zs) hx hy hz ls more = ground arith

  pub three_rounds :
      (b n s : ℕ) (xs ys zs : Entries R)
      → InRange b n xs
      → InRange b n ys
      → InRange b n zs
      → n ≤ s
      → is_nil xs && is_nil ys && is_nil zs ≡ false
      → ThreeRounds b n
          (smaller (smaller (head_index s xs) (head_index s ys)) (head_index s zs))
          xs
          ys
          zs
  three_rounds b n s xs ys zs hx hy hz ls more =
      let a = head_index s xs in
      let c = head_index s ys in
      let e = head_index s zs in
      let i = smaller (smaller a c) e in
      let (i_lt, found) = smallest_lt b n s xs ys zs hx hy hz ls more in
      let (low, top) = smaller_le (smaller a c) e in
      let (le_a, le_c) = smaller_le a c in
      record {
        index_ge =
            ground (arith, head_ge b n s xs hx ls, head_ge b n s ys hy ls, head_ge b n s zs hz ls);
        index_lt = i_lt;
        of_first = round b n s i xs hx i_lt (omega arith);
        of_second = round b n s i ys hy i_lt (omega arith);
        of_third = round b n s i zs hz i_lt (omega arith);
        progress = found;
      }

  pub ThreeRounds-shorter :
      (b n i : ℕ) (xs ys zs : Entries R)
      → ThreeRounds b n i xs ys zs
      → length (advance i xs) + length (advance i ys) + length (advance i zs)
        < length xs + length ys + length zs
  ThreeRounds-shorter b n i xs ys zs r =
      ground (arith, r.of_first.count, r.of_second.count, r.of_third.count, r.progress)
