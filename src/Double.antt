-- ===== src/Double.antt =====
-- What the code does with a `double`, as an interface, and src/main/cmp.h and src/main/cmp.c over it.
use sleqp.Base.{not, Bool, false, if◌then◌else◌}
use sleqp.Base.Int.{ℤ, pos, ◌+ℤ◌, ◌-ℤ◌, ◌*ℤ◌, ◌/ℤ◌, ltb_ℤ, leb_ℤ, eqb_ℤ}

-- The constants 0. and 1., the constant `inf` of cmp.c, C's arithmetic and comparisons, and `isnan` and `isinf` of math.h.
pub record Double (R : Type 0) : Type 0 where
  pub nought : R
  pub one : R
  pub inf : R
  pub neg : R → R
  pub plus : R → R → R
  pub minus : R → R → R
  pub times : R → R → R
  pub over : R → R → R
  pub lt : R → R → Bool
  pub le : R → R → Bool
  pub same : R → R → Bool
  pub is_nan : R → Bool
  pub is_inf : R → Bool

module _ {R : Type 0} ⦃d : Double R⦄ where
  open d use {nought, one, inf, neg, plus, minus, over, lt, le, is_nan}

  -- SLEQP_MAX, SLEQP_MIN and SLEQP_ABS.
  abbrev pub fmax : R → R → R
  fmax a b = if lt b a then a else b

  abbrev pub fmin : R → R → R
  fmin a b = if lt a b then a else b

  abbrev pub fabs : R → R
  fabs a = if lt nought a then a else neg a

  pub rel_diff : R → R → R
  rel_diff x y = over (minus x y) (fmax (fmax (fabs x) (fabs y)) one)

  unfoldable pub is_eq : R → R → R → Bool
  unfolding rel_diff
  is_eq x y eps = le (fabs (rel_diff x y)) eps

  pub is_lt : R → R → R → Bool
  unfolding rel_diff
  is_lt x y eps = lt (rel_diff x y) (neg eps)

  pub is_gt : R → R → R → Bool
  unfolding rel_diff
  is_gt x y eps = lt eps (rel_diff x y)

  pub is_leq : R → R → R → Bool
  unfolding rel_diff
  is_leq x y eps = le (rel_diff x y) eps

  pub is_geq : R → R → R → Bool
  unfolding rel_diff
  is_geq x y eps = le (neg eps) (rel_diff x y)

  -- `sleqp_is_infinite` and `sleqp_is_finite`. The constant 2. is 1. + 1.
  pub is_infinite : R → Bool
  is_infinite value = if is_nan value then false else le (over inf (plus one one)) value

  unfoldable pub is_finite_value : R → Bool
  unfolding is_infinite
  is_finite_value value = not (is_infinite (fabs value))

  unfoldable pub is_zero : R → R → Bool
  is_zero x eps = le (fabs x) eps

-- The interface can be met: the integers.
instance abbrev pub int_double : Double ℤ
int_double = record {
  nought = pos 0;
  one = pos 1;
  inf = pos 1000000;
  neg = λ x. pos 0 -ℤ x;
  plus = ◌+ℤ◌;
  minus = ◌-ℤ◌;
  times = ◌*ℤ◌;
  over = ◌/ℤ◌;
  lt = ltb_ℤ;
  le = leb_ℤ;
  same = eqb_ℤ;
  is_nan = λ x. false;
  is_inf = λ x. false;
}
