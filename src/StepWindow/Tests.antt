-- ===== src/StepWindow/Tests.antt =====
-- The theorems on the window at concrete inputs, over the integers.
use sleqp.Base.{
  ℕ, zero, suc, ◌+◌, ◌≤◌, ◌<◌, ◌≡◌, refl, true, false, List, [], ◌∷◌, arith, ok, ltb, if◌then◌else◌,
  length, get_or, ◌⊎◌, fault,
}
use sleqp.Base.Int.{ℤ, pos, negsuc, ltb_ℤ}
use sleqp.Double.{int_double}
use sleqp.StepWindow.{
  StepRule, data_index, int_max, reset, compute_ref_index, compute_historic_reduction_ratio,
}
use sleqp.StepWindow.Ring.{run, reset-run}
use sleqp.StepWindow.Indices.{before}
use sleqp.StepWindow.RefLoop.{Ordered, IsReference}
use sleqp.StepWindow.Reference.{ratio_from, compute_historic_reduction_ratio_lem}

-- Two positions, with leftovers in them.
abbrev fresh : StepRule ℤ
fresh = record {
  num = 2;
  len = 0;
  curr = negsuc 0;
  exact_merit_values = λ i. pos 7;
  model_reductions = λ i. pos 8;
}

abbrev steps : List (ℤ × ℤ)
steps = (pos 40, pos 1) ∷ (pos 30, pos 10) ∷ (pos 20, pos 5) ∷ []

reset-run_example :
    ((suc int_max < length steps) × (run (reset fresh) steps ≡ fault))
    ⊎ ((s : StepRule ℤ) × (length steps ≤ suc int_max)
        × (run (reset fresh) steps ≡ ok s)
        × (s.curr ≡ before (length steps))
        × (s.len ≡ (if ltb (length steps) 2 then length steps else 2))
        × ((i : ℕ)
            → i < length steps
            → length steps ≤ i + s.len
            → (s.exact_merit_values (data_index s (pos i)) ≡ (get_or steps i (pos 0, pos 0)).0)
              × (s.model_reductions (data_index s (pos i)) ≡ (get_or steps i (pos 0, pos 0)).1)))
reset-run_example = reset-run fresh steps (pos 0, pos 0) (omega arith)

abbrev merits : ℕ → ℤ
merits zero = pos 20
merits (suc i) = pos 30

abbrev reductions : ℕ → ℤ
reductions zero = pos 5
reductions (suc i) = pos 10

-- The window after these steps: those of number 1 and 2.
abbrev full : StepRule ℤ
full = record {
  num = 2;
  len = 2;
  curr = pos 2;
  exact_merit_values = merits;
  model_reductions = reductions;
}

lt_irreflexive : (a : ℤ) → ltb_ℤ a a ≡ false
lt_irreflexive (pos n) = ground arith
lt_irreflexive (negsuc n) = ground arith

lt_transitive : (a b c : ℤ) → ltb_ℤ a b ≡ true → ltb_ℤ a c ≡ false → ltb_ℤ b c ≡ false
lt_transitive (pos a) (pos b) (pos c) e f = ground arith
lt_transitive (pos a) (pos b) (negsuc c) e f = ground arith
lt_transitive (pos a) (negsuc b) (pos c) e f = ground arith
lt_transitive (pos a) (negsuc b) (negsuc c) e f = ground arith
lt_transitive (negsuc a) (pos b) (pos c) e f = ground arith
lt_transitive (negsuc a) (pos b) (negsuc c) e f = ground arith
lt_transitive (negsuc a) (negsuc b) (pos c) e f = ground arith
lt_transitive (negsuc a) (negsuc b) (negsuc c) e f = ground arith

merits_finite : (i : ℕ) → ltb_ℤ (negsuc 999999) (merits i) ≡ true
merits_finite zero = refl
merits_finite (suc i) = refl

full-Ordered : Ordered full 3
full-Ordered = record {
  irreflexive = lt_irreflexive;
  transitive = lt_transitive;
  finite = λ i w. merits_finite (data_index full (pos i));
}

compute_historic_reduction_ratio_lem_example :
    ((full.len ≡ 0)
      × (compute_historic_reduction_ratio full (pos 20) (pos 10) (pos 5) ≡ ok (pos 2)))
    ⊎ (((ref : ℕ) × IsReference full 3 ref
          × (compute_historic_reduction_ratio full (pos 20) (pos 10) (pos 5)
              ≡ ok (ratio_from full 3 ref (pos 20) (pos 10) (pos 5))))
        ⊎ ((0 < full.len)
            × (full.curr ≡ pos int_max)
            × (compute_historic_reduction_ratio full (pos 20) (pos 10) (pos 5) ≡ fault)))
compute_historic_reduction_ratio_lem_example =
    compute_historic_reduction_ratio_lem full 3 (pos 20) (pos 10) (pos 5) (omega arith) refl
      (omega arith) full-Ordered

-- The reference step is that of number 1: (30 - 10) / (10 + 5 + 5).
from_reference : compute_historic_reduction_ratio full (pos 20) (pos 10) (pos 5) ≡ ok (pos 1)
unfolding compute_historic_reduction_ratio
from_reference = refl

refers : compute_ref_index full ≡ ok (pos 1)
unfolding compute_ref_index
refers = refl

-- Of -1 and -2 the positions are 1 and 0.
negative_index : (data_index full (negsuc 0) ≡ 1) × (data_index full (negsuc 1) ≡ 0)
unfolding data_index
negative_index = (refl, refl)
