-- ===== src/Vec/Clipping.antt =====
-- `sleqp_vec_clip`: what it stores, that it has room for it, and when its last assertion holds.
use sleqp.Base.{
  ℕ, suc, ◌+◌, ◌≤◌, ◌≡◌, ◌⊎◌, inl, inr, refl, ap, sym, subst, ◌∙◌, true, false, Option, none, some,
  [], arith, ltb, ◌==◌, length, ok, fault, check, ◌>>=◌, ◌>>◌, Bool-cases, ltb_zero, if_of_false,
}
use sleqp.Double.{Double, is_zero}
use sleqp.Vec.{Vec, nnz, at, or_nought, clear, reserve}
use sleqp.Vec.Entries.{InRange, IsValid}
use sleqp.Vec.Merge.{larger, clip_value, clip_room, clip, is_boxed}
use sleqp.Vec.Clips.{outside, is_boxed_iff}
use sleqp.Vec.Tolerance.{IsTolerant, clip_at}
use sleqp.Vec.ClipLoop.{clip_loop_lem}

module _ {R : Type 0} ⦃d : Double R⦄ (eps : R) where
  open d use {nought, lt, le}

  -- A valid vector with the value clipped to the bounds at each index, or no entry where that is zero
  -- up to `eps`.
  pub record IsClipped (x lb ub out : Vec R) : Type 0 where
    pub valid : IsValid out
    pub same_dim : out.dim ≡ x.dim
    pub found :
        (j : ℕ)
        → at j out.entries ≡ clip_at eps (at j lb.entries) (at j ub.entries) (at j x.entries)

  -- The operands of `clip`.
  pub record CanClip (x lb ub xclip : Vec R) : Type 0 where
    pub x_valid : IsValid x
    pub lb_valid : IsValid lb
    pub ub_valid : IsValid ub
    pub lb_dim : lb.dim ≡ x.dim
    pub ub_dim : ub.dim ≡ x.dim
    pub xclip_dim : xclip.dim ≡ x.dim
    pub in_order : (j : ℕ) → le (or_nought (at j lb.entries)) (or_nought (at j ub.entries)) ≡ true

  pub cleared_with_room :
      (v : Vec R) (m : ℕ)
      → let w = reserve (clear v) m in (w.entries ≡ []) × (w.dim ≡ v.dim) × (m ≤ w.nnz_max)
  unfolding reserve clear
  cleared_with_room v m = ground arith

  clip_runs :
      (x lb ub xclip : Vec R)
      → IsTolerant eps
      → CanClip x lb ub xclip
      → (out : Vec R) × IsClipped x lb ub out
        × (clip x lb ub eps xclip ≡ (is_boxed out lb ub >>= λ boxed. check boxed >> ok out))
  unfolding clip
  clip_runs x lb ub xclip t c =
      let room = clip_room x lb ub in
      let start : Vec R = reserve (clear xclip) room in
      let (none_yet, dim_kept, reserved) = cleared_with_room xclip room in
      let count : nnz start ≡ 0 = ap length none_yet in
      let dims : start.dim ≡ x.dim = dim_kept ∙ c.xclip_dim in
      let (out, loop) =
        clip_loop_lem eps (larger (nnz lb) (nnz x) + larger (nnz ub) (nnz x))
          (suc (nnz x + nnz lb + nnz ub)) 0 x.dim (x.dim + 1) lb.entries ub.entries x.entries start
          t
          (record {
            lower_in = subst (λ n. InRange 0 n lb.entries) c.lb_dim c.lb_valid.in_range;
            upper_in = subst (λ n. InRange 0 n ub.entries) c.ub_dim c.ub_valid.in_range;
            x_in = c.x_valid.in_range;
            below = rw none_yet (omega arith);
            same_dim = dims;
            sentinel = omega arith;
            bounds = λ j h. c.in_order j;
            room = rw count (ground arith);
            reserved = reserved;
          })
          (omega arith) (omega arith) in
      let lb_test : (lb.dim == x.dim) ≡ true = ground (arith, c.lb_dim) in
      let ub_test : (ub.dim == x.dim) ≡ true = ground (arith, c.ub_dim) in
      let xclip_test : (xclip.dim == x.dim) ≡ true = ground (arith, c.xclip_dim) in
      (
        record start { entries = out },
        record {
          valid = record {
            in_range = subst (λ n. InRange 0 n out) (sym dims) loop.in_range;
            fits = loop.fits;
          };
          same_dim = dims;
          found = λ j.
              loop.found j
              ∙ if_of_false (ltb j 0) (at j start.entries)
                  (clip_at eps (at j lb.entries) (at j ub.entries) (at j x.entries)) (ltb_zero j);
        },
        rw (lb_test, ub_test, xclip_test, loop.runs),
      )

  abbrev pub AllInside : Vec R → Vec R → Vec R → Type 0
  AllInside x lb ub = (j : ℕ) → outside (at j x.entries) (at j lb.entries) (at j ub.entries) ≡ false

  -- Where bounds are in order, `clip` stores in valid vectors of one dimension the values clipped to
  -- the bounds, without those that are zero up to `eps`, and it never lacks room. It returns if the
  -- stored vector lies in the bounds, and otherwise stops at its last assertion.
  pub clip_lem :
      (x lb ub xclip : Vec R)
      → IsTolerant eps
      → CanClip x lb ub xclip
      → (out : Vec R) × IsClipped x lb ub out
        × (((clip x lb ub eps xclip ≡ ok out) × AllInside out lb ub)
            ⊎ ((clip x lb ub eps xclip ≡ fault) × ¬ (AllInside out lb ub)))
  clip_lem x lb ub xclip t c =
      let (out, clipped, runs) = clip_runs x lb ub xclip t c in
      let (r, boxed, iff) =
        is_boxed_iff t.zero_not_lt out lb ub clipped.valid c.lb_valid c.ub_valid
          (c.lb_dim ∙ sym clipped.same_dim) (c.ub_dim ∙ sym clipped.same_dim) in
      (
        out,
        clipped,
        elim (Bool-cases r) [
          | inl in_box ↦ inl (runs ∙ rw (boxed, in_box), iff.0 in_box)
          | inr not_in ↦ inr (runs ∙ rw (boxed, not_in), λ all. absurd (ground (arith, iff.1 all)))
        ],
      )

  -- If at some index the lower bound is positive and the clipped value is zero up to `eps`, then
  -- `clip` drops the value and stops at its own assertion that the result is boxed.
  pub clip_drops_bound :
      (x lb ub xclip : Vec R) (j : ℕ)
      → IsTolerant eps
      → CanClip x lb ub xclip
      → lt nought (or_nought (at j lb.entries)) ≡ true
      → is_zero (clip_value (at j x.entries) (at j lb.entries) (at j ub.entries)) eps ≡ true
      → clip x lb ub eps xclip ≡ fault
  clip_drops_bound x lb ub xclip j t c positive small =
      let (out, clipped, outcome) = clip_lem x lb ub xclip t c in
      let gone : at j out.entries ≡ none =
        clipped.found j ∙ dropped (at j lb.entries) (at j ub.entries) (at j x.entries) small in
      let out_j : outside (at j out.entries) (at j lb.entries) (at j ub.entries) ≡ true =
        rw (gone, positive) in
      elim outcome [
        | inl (runs, all) ↦ absurd (ground (arith, all j))
        | inr (fails, some_out) ↦ fails
      ]
    where
      dropped :
          (l u y : Option R) → is_zero (clip_value y l u) eps ≡ true → clip_at eps l u y ≡ none
      dropped none none none z = refl
      dropped none none (some y) z = rw z
      dropped none (some u) y z = rw z
      dropped (some l) u y z = rw z
