-- ===== src/Vec/Tests.antt =====
-- The theorems on sparse vectors at concrete inputs, over the integers.
use sleqp.Base.{true, ℕ, ◌≡◌, ◌↔◌, refl, Bool, true, false, [], ◌∷◌, arith, ok, fault, ◌⊎◌}
use sleqp.Base.Int.{ℤ, pos, negsuc, leb_ℤ}
use sleqp.Double.{int_double, is_zero}
use sleqp.Vec.{create, remove_entries, is_finite, to_raw, Vec, at, set_from_raw, or_nought}
use sleqp.Vec.Entries.{IsValid}
use sleqp.Vec.Merge.{eq, add_scaled, dot, is_boxed, clip}
use sleqp.Vec.Sums.{add_scaled_lem, sum_at}
use sleqp.Vec.RoundTrip.{to_raw-set_from_raw}
use sleqp.Vec.Finite.{all_finite, is_finite-snoc}
use sleqp.Vec.Equals.{agree, eq-agree}
use sleqp.Vec.Removal.{remove_entries_lem}
use sleqp.Vec.Dots.{dot_lem, dense_dot}
use sleqp.Vec.Clips.{outside, is_boxed_iff}
use sleqp.Vec.Tolerance.{IsTolerant}
use sleqp.Vec.Clipping.{CanClip, IsClipped, AllInside, clip_lem, clip_drops_bound}
use sleqp.Vec.Raw.{set_from_raw_lem, kept_at}

-- (0, 3, 0, -2, 0)
abbrev left : Vec ℤ
left = record { entries = (1, pos 3) ∷ (3, negsuc 1) ∷ []; dim = 5; nnz_max = 2 }

-- (1, -3, 0, 4, 0)
abbrev right : Vec ℤ
right = record { entries = (0, pos 1) ∷ (1, negsuc 2) ∷ (3, pos 4) ∷ []; dim = 5; nnz_max = 4 }

-- A vector with leftovers in it.
abbrev target : Vec ℤ
target = record { entries = (4, pos 9) ∷ []; dim = 5; nnz_max = 1 }

left-IsValid : IsValid left
left-IsValid = record { in_range = ground arith; fits = omega arith }

right-IsValid : IsValid right
right-IsValid = record { in_range = ground arith; fits = omega arith }

add_scaled_lem_example :
    (out : Vec ℤ) × (add_scaled left right (pos 1) (pos 1) (pos 0) target ≡ ok out)
    × IsValid out
    × (out.dim ≡ 5)
    × ((j : ℕ)
        → at j out.entries
          ≡ sum_at (pos 1) (pos 1) (pos 0) (at j left.entries) (at j right.entries))
add_scaled_lem_example =
    add_scaled_lem (pos 1) (pos 1) (pos 0) left right target left-IsValid right-IsValid refl

dot_lem_example :
    dot left right ≡ ok (dense_dot (λ j. at j left.entries) (λ j. at j right.entries) 5 0 (pos 0))
dot_lem_example = dot_lem left right left-IsValid right-IsValid refl

-- The product is -17.
dot_value : dot left right ≡ ok (negsuc 16)
unfolding dot
dot_value = refl

is_boxed_iff_example :
    (r : Bool) × (is_boxed left target right ≡ ok r)
    × ((r ≡ true) ↔ (
        (j : ℕ) → outside (at j left.entries) (at j target.entries) (at j right.entries) ≡ false))
is_boxed_iff_example =
    is_boxed_iff refl left target right left-IsValid
      (record { in_range = ground arith; fits = omega arith }) right-IsValid refl refl

-- The tolerance 1.
tolerant : IsTolerant (pos 1)
unfolding is_zero
tolerant = record {
  zero_not_lt = refl;
  lt_asymm = λ x h. ground arith;
  zero_is_zero = refl;
  le_zero = λ x h k. ground arith;
}

-- (5, 0, -5, 0, 0) in [-3, 3] x [2, 4] x ...
abbrev point : Vec ℤ
point = record { entries = (0, pos 5) ∷ (2, negsuc 4) ∷ []; dim = 5; nnz_max = 2 }

abbrev lower : Vec ℤ
lower = record { entries = (0, negsuc 2) ∷ (1, pos 2) ∷ (2, negsuc 2) ∷ []; dim = 5; nnz_max = 3 }

abbrev upper : Vec ℤ
upper = record { entries = (0, pos 3) ∷ (1, pos 4) ∷ []; dim = 5; nnz_max = 3 }

abbrev small_lower : Vec ℤ
small_lower = record { entries = (1, pos 1) ∷ []; dim = 5; nnz_max = 3 }

lower-le : (j : ℕ) → leb_ℤ (or_nought (at j lower.entries)) (or_nought (at j upper.entries)) ≡ true
lower-le j = ground arith

can_clip : CanClip (pos 1) point lower upper target
can_clip = record {
  x_valid = record { in_range = ground arith; fits = omega arith };
  lb_valid = record { in_range = ground arith; fits = omega arith };
  ub_valid = record { in_range = ground arith; fits = omega arith };
  lb_dim = refl;
  ub_dim = refl;
  xclip_dim = refl;
  in_order = λ j. ground arith;
}

CanClip-small : CanClip (pos 1) point small_lower upper target
CanClip-small = record {
  x_valid = can_clip.x_valid;
  lb_valid = record { in_range = ground arith; fits = omega arith };
  ub_valid = can_clip.ub_valid;
  lb_dim = refl;
  ub_dim = refl;
  xclip_dim = refl;
  in_order = λ j. ground arith;
}

clip_lem_example :
    (out : Vec ℤ) × IsClipped (pos 1) point lower upper out
    × (((clip point lower upper (pos 1) target ≡ ok out) × AllInside (pos 1) out lower upper)
        ⊎ ((clip point lower upper (pos 1) target ≡ fault) × ¬ (AllInside (pos 1) out lower upper)))
clip_lem_example = clip_lem (pos 1) point lower upper target tolerant can_clip

clip_drops_bound_example : clip point small_lower upper (pos 1) target ≡ fault
unfolding is_zero
clip_drops_bound_example =
    clip_drops_bound (pos 1) point small_lower upper target 1 tolerant CanClip-small refl refl

set_from_raw_lem_example :
    (out : Vec ℤ) × (set_from_raw target (pos 0 ∷ pos 3 ∷ pos 0 ∷ negsuc 1 ∷ []) (pos 0) ≡ ok out)
    × IsValid out
    × (out.dim ≡ 4)
    × ((j : ℕ) → at j out.entries ≡ kept_at (pos 0) (pos 0 ∷ pos 3 ∷ pos 0 ∷ negsuc 1 ∷ []) j)
set_from_raw_lem_example = set_from_raw_lem target (pos 0 ∷ pos 3 ∷ pos 0 ∷ negsuc 1 ∷ []) (pos 0)

to_raw-set_from_raw_example :
    (out : Vec ℤ) × (set_from_raw target (pos 1 ∷ pos 3 ∷ negsuc 1 ∷ []) (pos 1) ≡ ok out)
    × (to_raw out ≡ pos 0 ∷ pos 3 ∷ negsuc 1 ∷ [])
unfolding is_zero
to_raw-set_from_raw_example = to_raw-set_from_raw target (pos 1 ∷ pos 3 ∷ negsuc 1 ∷ []) (pos 1)

is_finite-snoc_example : is_finite left ≡ all_finite ((1, pos 3) ∷ [])
is_finite-snoc_example = is_finite-snoc left ((1, pos 3) ∷ []) 3 (negsuc 1) refl

eq-agree_example :
    (r : Bool) × (eq left right (pos 0) ≡ ok r)
    × ((r ≡ true) ↔ ((j : ℕ) → agree (pos 0) (at j left.entries) (at j right.entries) ≡ true))
eq-agree_example = eq-agree (pos 0) left right left-IsValid right-IsValid refl

-- Without the indices 1 and 2, the entries 0 and 3 are left.
remove_entries_lem_example :
    (out : Vec ℤ) × (remove_entries right (create 3 0) (1 ∷ 2 ∷ []) ≡ ok out)
    × IsValid out
    × (out.dim ≡ 3)
    × (out.entries ≡ (0, pos 1) ∷ (1, pos 4) ∷ [])
unfolding create
remove_entries_lem_example =
    remove_entries_lem right (create 3 0) (1 ∷ 2 ∷ []) right-IsValid (ground arith) refl
