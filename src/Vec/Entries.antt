-- ===== src/Vec/Entries.antt =====
-- Entries with strictly increasing indices: what `at` finds in them, and how `push` extends them.
use sleqp.Base.{
  ℕ, suc, ◌+◌, ◌≤◌, ◌<◌, ◌≡◌, refl, true, none, some, [], ◌∷◌, ◌++◌, arith, ◌==◌, if◌then◌else◌,
  length, lt→ltb, ok,
}
use sleqp.Vec.{Entries, Vec, nnz, at, behind_last, push, reserve, resize, clear}

module _ {R : Type 0} where
  -- The indices increase strictly, from `a` on and below `b`.
  abbrev pub InRange : ℕ → ℕ → Entries R → Type 0
  InRange a b [] = a ≤ b
  InRange a b ((i, x) ∷ es) = (a ≤ i) × (i < b) × InRange (suc i) b es

  -- What `sleqp_vec_is_valid` asks for.
  pub record IsValid (v : Vec R) : Type 0 where
    pub in_range : InRange 0 v.dim v.entries
    pub fits : nnz v ≤ v.nnz_max

  pub InRange-le : (a b : ℕ) (es : Entries R) → InRange a b es → a ≤ b
  InRange-le a b [] h = h
  InRange-le a b ((i, x) ∷ es) h = omega (arith, InRange-le (suc i) b es h.2)

  pub InRange-weaken :
      (a a' b b' : ℕ) (es : Entries R) → a' ≤ a → b ≤ b' → InRange a b es → InRange a' b' es
  InRange-weaken a a' b b' [] l u h = omega arith
  InRange-weaken a a' b b' ((i, x) ∷ es) l u h =
      (omega arith, omega arith, InRange-weaken (suc i) (suc i) b b' es (omega arith) u h.2)

  pub length-le : (a b : ℕ) (es : Entries R) → InRange a b es → length es + a ≤ b
  length-le a b [] h = omega arith
  length-le a b ((i, x) ∷ es) h = omega (arith, length-le (suc i) b es h.2)

  pub at_below : (a b : ℕ) (es : Entries R) (j : ℕ) → InRange a b es → j < a → at j es ≡ none
  at_below a b [] j h lt = refl
  at_below a b ((i, x) ∷ es) j h lt = ground (arith, at_below (suc i) b es j h.2)

  pub at_above : (a b : ℕ) (es : Entries R) (j : ℕ) → InRange a b es → b ≤ j → at j es ≡ none
  at_above a b [] j h le = refl
  at_above a b ((i, x) ∷ es) j h le = ground (arith, at_above (suc i) b es j h.2)

  pub InRange-snoc :
      (a b : ℕ) (es : Entries R) (i : ℕ) (x : R)
      → InRange a b es
      → b ≤ i
      → InRange a (suc i) (es ++ ((i, x) ∷ []))
  InRange-snoc a b [] i x h le = (omega arith, omega arith, omega arith)
  InRange-snoc a b ((k, y) ∷ es) i x h le = (h.0, omega arith, InRange-snoc (suc k) b es i x h.2 le)

  pub at-snoc :
      (a b : ℕ) (es : Entries R) (i : ℕ) (x : R) (j : ℕ)
      → InRange a b es
      → b ≤ i
      → at j (es ++ ((i, x) ∷ [])) ≡ (if i == j then some x else at j es)
  at-snoc a b [] i x j h le = refl
  at-snoc a b ((k, y) ∷ es) i x j h le = ground (arith, at-snoc (suc k) b es i x j h.2)

  behind_last_of_InRange :
      (a b : ℕ) (es : Entries R) (i : ℕ) → InRange a b es → b ≤ i → behind_last i es ≡ true
  behind_last_of_InRange a b [] i h le = refl
  behind_last_of_InRange a b ((k, y) ∷ []) i h le = lt→ltb _ _ (omega arith)
  behind_last_of_InRange a b ((k, y) ∷ e ∷ es) i h le =
      behind_last_of_InRange (suc k) b (e ∷ es) i h.2 le

  -- Behind all indices, below the dimension and with room left, `push` appends.
  pub push_lem :
      (v : Vec R) (b i : ℕ) (x : R)
      → InRange 0 b v.entries
      → b ≤ i
      → i < v.dim
      → nnz v < v.nnz_max
      → push v i x ≡ ok (record v { entries = v.entries ++ ((i, x) ∷ []) })
  unfolding push
  push_lem v b i x h le lt room = ground (arith, behind_last_of_InRange 0 b v.entries i h le)

  -- The empty vector of dimension `n` with room for `m` entries, from any vector.
  pub emptied :
      (v : Vec R) (n m : ℕ)
      → let w = reserve (resize (clear v) n) m in (w.entries ≡ []) × (w.dim ≡ n) × (m ≤ w.nnz_max)
  unfolding reserve resize clear
  emptied v n m = ground arith
