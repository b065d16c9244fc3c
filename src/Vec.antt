-- ===== src/Vec.antt =====
-- src/main/sparse/vec.c: sparse vectors, and the operations on one vector.
pub mod Entries
pub mod Merge
pub mod Heads
pub mod Emit
pub mod Sums
pub mod Dots
pub mod Clips
pub mod Tolerance
pub mod ClipLoop
pub mod Clipping
pub mod Shapes
pub mod Raw
pub mod RoundTrip
pub mod Fills
pub mod Finite
pub mod Equals
pub mod Removal
pub mod Renumber
mod Tests
use sleqp.Base.{
  ℕ, zero, suc, ◌+◌, ◌-◌, Bool, true, false, ◌&&◌, ◌||◌, not, Option, none, some, List, [], ◌∷◌,
  ◌++◌, ltb, leb, ◌==◌, if◌then◌else◌, length, set, replicate, Outcome, ok, raise, fault, timeout,
  ◌>>=◌, ◌>>◌, check,
}
use sleqp.Double.{Double, fmax, fabs, is_zero}

-- The live part of the arrays `indices` and `data`, position by position.
abbrev pub Entries : Type 0 → Type 0
Entries R = List (ℕ × R)

-- `SleqpVec`. `nnz` is the number of entries. What the arrays hold behind `nnz` is never read.
pub record Vec (R : Type 0) : Type 0 where
  pub entries : Entries R
  pub dim : ℕ
  pub nnz_max : ℕ

module _ {R : Type 0} where
  abbrev pub nnz : Vec R → ℕ
  nnz v = length v.entries

  pub create : ℕ → ℕ → Vec R
  create dim nnz_max = record { entries = []; dim = dim; nnz_max = nnz_max }

  pub create_empty : ℕ → Vec R
  unfolding create
  create_empty dim = create dim 0

  pub create_full : ℕ → Vec R
  unfolding create
  create_full dim = create dim dim

  -- `idx > indices[nnz - 1]`, if there is an entry.
  abbrev pub behind_last : ℕ → Entries R → Bool
  behind_last idx [] = true
  behind_last idx ((i, x) ∷ []) = ltb i idx
  behind_last idx (e ∷ e' ∷ es) = behind_last idx (e' ∷ es)

  unfoldable pub push : Vec R → ℕ → R → Outcome (Vec R)
  push v idx value = do
    check (ltb (nnz v) v.nnz_max)
    check (ltb idx v.dim)
    check (behind_last idx v.entries)
    ok (record v { entries = v.entries ++ ((idx, value) ∷ []) })

  unfoldable pub clear : Vec R → Vec R
  clear v = record v { entries = [] }

  unfoldable pub reserve : Vec R → ℕ → Vec R
  reserve v nnz_max = if leb nnz_max v.nnz_max then v else record v { nnz_max = nnz_max }

  -- while (nnz > 0 && indices[nnz - 1] >= dim) --nnz;
  pub trim : ℕ → Entries R → Entries R
  trim dim [] = []
  trim dim ((i, x) ∷ es) = elim (trim dim es) [
    | [] ↦ if leb dim i then [] else (i, x) ∷ []
    | e ∷ more ↦ (i, x) ∷ e ∷ more
  ]

  unfoldable pub resize : Vec R → ℕ → Vec R
  unfolding trim
  resize v dim =
      if ltb dim v.dim
      then record v { entries = trim dim v.entries; dim = dim }
      else record v { dim = dim }

  -- The loops of `copy` and `concat`: push all the entries, each moved by `offset`.
  unfoldable pub push_all : ℕ → Entries R → Vec R → Outcome (Vec R)
  unfolding push
  push_all offset [] v = ok v
  push_all offset ((i, x) ∷ es) v = push v (i + offset) x >>= push_all offset es

  unfoldable pub copy : Vec R → Vec R → Outcome (Vec R)
  unfolding push_all reserve clear
  copy source target = do
    check (source.dim == target.dim)
    push_all 0 source.entries (clear (reserve target (nnz source)))

  pub concat : Vec R → Vec R → Vec R → Outcome (Vec R)
  unfolding push_all reserve clear resize
  concat first second result = do
    let emptied = reserve (clear result) (nnz first + nnz second)
    half ← push_all 0 first.entries (resize emptied (first.dim + second.dim))
    push_all first.dim second.entries half

  -- The loop of `sleqp_vec_at`: the value at the first entry with that index.
  abbrev pub at : ℕ → Entries R → Option R
  at j [] = none
  at j ((i, x) ∷ es) = if i == j then some x else at j es

  -- `sleqp_vec_at`.
  pub entry_at : Vec R → ℕ → Outcome (Option R)
  entry_at v j = do check (ltb j v.dim); ok (at j v.entries)

  -- The loop of `remove_entries`, at `entry_indices[k_f..num_entries)` with `offset` = `k_f`.
  pub remove_loop : Entries R → ℕ → List ℕ → Vec R → Outcome (Vec R)
  unfolding push
  remove_loop [] offset removed v = ok v
  remove_loop ((i, x) ∷ es) offset [] v = do
    check (leb offset i)
    next ← push v (i - offset) x
    remove_loop es offset [] next
  remove_loop ((i, x) ∷ es) offset (r ∷ rs) v = elim (ltb r i) [
    | true ↦ remove_loop ((i, x) ∷ es) (offset + 1) rs v
    | false ↦ elim (r == i) [
      | true ↦ remove_loop es offset (r ∷ rs) v
      | false ↦
          check (leb offset i)
          >> (push v (i - offset) x >>= λ next. remove_loop es offset (r ∷ rs) next)
    ]
  ]

  pub remove_entries : Vec R → Vec R → List ℕ → Outcome (Vec R)
  unfolding remove_loop clear reserve
  remove_entries source target removed = do
    check (source.dim == target.dim + length removed)
    remove_loop source.entries 0 removed (reserve (clear target) (nnz source))

  -- The entries are checked in the order of their positions.
  pub increasing : Entries R → Bool
  increasing [] = true
  increasing ((i, x) ∷ []) = true
  increasing ((i, x) ∷ (j, y) ∷ es) = not (leb j i) && increasing ((j, y) ∷ es)

  pub is_valid : Vec R → Bool
  unfolding increasing
  is_valid v =
      if ltb v.nnz_max (nnz v) then false else increasing v.entries && behind_last v.dim v.entries

module _ {R : Type 0} ⦃d : Double R⦄ where
  open d use {nought, one, plus, times, lt, same, is_nan, is_inf}

  -- `ptr ? (*ptr) : 0.`
  abbrev pub or_nought : Option R → R
  or_nought none = nought
  or_nought (some x) = x

  abbrev pub value_at : Vec R → ℕ → R
  value_at v j = or_nought (at j v.entries)

  -- `sleqp_vec_value_at`.
  pub read_value : Vec R → ℕ → Outcome R
  unfolding entry_at
  read_value v j = do value ← entry_at v j; ok (or_nought value)

  abbrev pub count_nonzero : R → List R → ℕ
  count_nonzero eps [] = 0
  count_nonzero eps (x ∷ xs) = (if not (is_zero x eps) then 1 else 0) + count_nonzero eps xs

  -- The second loop of `set_from_raw`, from index `i` on.
  unfoldable pub push_nonzero : R → ℕ → List R → Vec R → Outcome (Vec R)
  push_nonzero eps i [] v = ok v
  push_nonzero eps i (x ∷ xs) v =
      (if not (is_zero x eps) then push v i x else ok v) >>= push_nonzero eps (i + 1) xs

  -- The list holds the `dim` values.
  pub set_from_raw : Vec R → List R → R → Outcome (Vec R)
  unfolding push_nonzero clear resize reserve
  set_from_raw v values eps =
      push_nonzero eps 0 values
        (reserve (resize (clear v) (length values)) (count_nonzero eps values))

  abbrev pub write_all : Entries R → List R → List R
  write_all [] values = values
  write_all ((i, x) ∷ es) values = write_all es (set values i x)

  pub to_raw : Vec R → List R
  to_raw v = write_all v.entries (replicate v.dim nought)

  abbrev pub scale_all : R → Entries R → Entries R
  scale_all factor [] = []
  scale_all factor ((i, x) ∷ es) = (i, times x factor) ∷ scale_all factor es

  pub scale : Vec R → R → Vec R
  unfolding clear
  scale v factor =
      if same factor nought
      then clear v
      else if same factor one
      then v
      else record v { entries = scale_all factor v.entries }

  abbrev pub from_index : R → ℕ → ℕ → Entries R
  from_index value i zero = []
  from_index value i (suc n) = (i, value) ∷ from_index value (i + 1) n

  pub fill : Vec R → R → Vec R
  unfolding clear reserve
  fill v value =
      if same value nought
      then clear v
      else record (reserve v v.dim) { entries = from_index value 0 v.dim }

  pub one_norm_from : R → Entries R → R
  one_norm_from sum [] = sum
  one_norm_from sum ((i, x) ∷ es) = one_norm_from (plus sum (fabs x)) es

  pub one_norm : Vec R → R
  unfolding one_norm_from
  one_norm v = one_norm_from nought v.entries

  pub norm_sq_from : R → Entries R → R
  norm_sq_from sum [] = sum
  norm_sq_from sum ((i, x) ∷ es) = norm_sq_from (plus sum (times x x)) es

  pub norm_sq : Vec R → R
  unfolding norm_sq_from
  norm_sq v = norm_sq_from nought v.entries

  -- `sqrt` is that of math.h.
  pub norm : (R → R) → Vec R → R
  unfolding norm_sq
  norm sqrt v = sqrt (norm_sq v)

  pub inf_norm_from : R → Entries R → R
  inf_norm_from top [] = top
  inf_norm_from top ((i, x) ∷ es) = inf_norm_from (fmax (fabs x) top) es

  pub inf_norm : Vec R → R
  unfolding inf_norm_from
  inf_norm v = inf_norm_from nought v.entries

  -- The loop of `is_finite` stops before the last entry.
  pub finite_from : Entries R → Bool
  finite_from [] = true
  finite_from (e ∷ []) = true
  finite_from ((i, x) ∷ e ∷ es) = not (is_nan x || is_inf x) && finite_from (e ∷ es)

  pub is_finite : Vec R → Bool
  unfolding finite_from
  is_finite v = finite_from v.entries
