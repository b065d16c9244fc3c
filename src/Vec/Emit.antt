-- ===== src/Vec/Emit.antt =====
-- `if (is_zero(value)) continue; push(…)`, behind the entries that are there.
use sleqp.Base.{
  ℕ, suc, ◌+◌, ◌≤◌, ◌<◌, ◌≡◌, false, Option, none, some, [], ◌∷◌, ◌++◌, arith, ◌==◌, if◌then◌else◌,
  length, length-append, ok, Bool-cases, inl, inr,
}
use sleqp.Double.{Double, is_zero}
use sleqp.Vec.{Entries, Vec, nnz, at}
use sleqp.Vec.Entries.{InRange, InRange-snoc, InRange-weaken, at-snoc, at_above, push_lem}
use sleqp.Vec.Merge.{push_unless_zero}

module _ {R : Type 0} ⦃d : Double R⦄ where
  -- What the value leaves at its index.
  abbrev pub kept : R → R → Option R
  kept eps value = if is_zero value eps then none else some value

module _ {R : Type 0} ⦃d : Double R⦄ (eps : R) where
  -- The outcome of the call on `v`, at index `i`.
  pub record Emitted (v : Vec R) (i : ℕ) (value : R) (es : Entries R) : Type 0 where
    pub runs : push_unless_zero eps v i value ≡ ok (record v { entries = es })
    pub below : InRange 0 (suc i) es
    pub found : (j : ℕ) → at j es ≡ (if i == j then kept eps value else at j v.entries)
    pub short : length es ≤ nnz v + (if is_zero value eps then 0 else 1)

  pub emit :
      (v : Vec R) (b i : ℕ) (value : R)
      → InRange 0 b v.entries
      → b ≤ i
      → i < v.dim
      → (is_zero value eps ≡ false → nnz v < v.nnz_max)
      → (es : Entries R) × Emitted v i value es
  emit v b i value h le lt room = elim (Bool-cases (is_zero value eps)) [
    | inl z ↦ (
      v.entries,
      record {
        runs = rw z;
        below = InRange-weaken 0 0 b (suc i) v.entries (omega arith) (omega arith) h;
        found = λ j. ground (arith, at_above 0 b v.entries j h);
        short = rw z (omega arith);
      },
    )
    | inr nz ↦ (
      v.entries ++ ((i, value) ∷ []),
      record {
        runs = rw nz (push_lem v b i value h le lt (room nz));
        below = InRange-snoc 0 b v.entries i value h le;
        found = λ j. rw nz (at-snoc 0 b v.entries i value j h le);
        short = rw nz (omega (arith, length-append v.entries ((i, value) ∷ [])));
      },
    )
  ]
