-- ===== src/Base/Arrays.antt =====
-- C arrays as functions from positions.
use Prim.Native.Nat.{ℕ}
use sleqp.Base.Tests.{ltb, ◌==◌, if◌then◌else◌}

-- An array, position by position, and a write to it. What a fresh array holds is not determined.
abbrev pub write {ℓ} : {A : Type ℓ} → (ℕ → A) → ℕ → A → ℕ → A
write array k value = λ i. if i == k then value else array i

-- for (i = 0; i < n; ++i) target[i] = source[i];
abbrev pub overlay {ℓ} : {A : Type ℓ} → ℕ → (ℕ → A) → (ℕ → A) → ℕ → A
overlay n source target = λ i. if ltb i n then source i else target i
