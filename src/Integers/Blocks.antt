-- ===== src/Integers/Blocks.antt =====
-- Block numbers of src/integers.rs: a column read row by row, the rows within bounds, and the
-- statistic of a row group.
use sqd_query_engine.Prelude.{
  lift, get_elem?-map, ℕ, ◌^◌, ◌≤◌, ◌<◌, Bool, true, false, ◌&&◌, ◌⊎◌, inl, inr, Option, none, some,
  List, [], ◌∷◌, map, ltb, leb, if◌then◌else◌, any, ◌≡◌, arith, refl, length, get_elem?, replicate,
  range_from, zero, suc, ap, subst,
}
use sqd_query_engine.Prelude.Int.{ℤ}
use sqd_query_engine.Prelude.Words.{as_unsigned}
use sqd_query_engine.Error.{Result, ok, err, engine}
use sqd_query_engine.Error.ErrorKind.{malformed_chunk_data}
use sqd_query_engine.Arrow.{DataType, Column}
use sqd_query_engine.Integers.{width_of, block_number, block_number_at}
use sqd_query_engine.Integers.Keys.{Width, w8, bits_of, Width-width_of}

-- The rows of a column: `0..len`.
abbrev pub rows_of : Column → List ℕ
rows_of column = range_from 0 column.len

-- `BlockNumbers`: the width that the column was resolved at, and the column.
pub record BlockNumbers : Type 0 where
  pub bits : ℕ
  pub column : Column

-- `BlockNumbers::resolve`: `null_count` counts the rows that are null.
unfoldable pub resolve : Column → Result BlockNumbers
unfolding width_of
resolve column = elim (width_of column.data_type) [
  | none ↦ err (engine malformed_chunk_data)
  | some (bits, signed) ↦
      if any column.is_null (rows_of column)
      then err (engine malformed_chunk_data)
      else ok (record { bits = bits; column = column })
]

-- `BlockNumbers::at`
unfoldable pub at : BlockNumbers → ℕ → ℕ
unfolding block_number
at numbers row = block_number numbers.bits (numbers.column.int_value row)

-- The kernels of Arrow that `within` calls, over the values of an array, `none` for a null: by
-- its documentation a comparison is made row by row, and a null row's answer is null.
pub record Kernels : Type 0 where
  pub gt_eq : List (Option ℕ) → ℕ → List (Option Bool)
  pub lt_eq : List (Option ℕ) → ℕ → List (Option Bool)
  pub and : List (Option Bool) → List (Option Bool) → List (Option Bool)

abbrev pub both : Option Bool → Option Bool → Option Bool
both (some a) (some b) = some (a && b)
both _ _ = none

pub record IsRowwise (k : Kernels) : Type 0 where
  pub gt_eq_rows :
      (values : List (Option ℕ)) (n i : ℕ)
      → get_elem? (k.gt_eq values n) i ≡ lift (lift (λ v. leb n v)) (get_elem? values i)
  pub lt_eq_rows :
      (values : List (Option ℕ)) (n i : ℕ)
      → get_elem? (k.lt_eq values n) i ≡ lift (lift (λ v. leb v n)) (get_elem? values i)
  pub and_rows :
      (a b : List (Option Bool)) (i : ℕ) (x y : Option Bool)
      → get_elem? a i ≡ some x
      → get_elem? b i ≡ some y
      → get_elem? (k.and a b) i ≡ some (both x y)

-- `T::Native::try_from` of a bound, for a native of `bits` bits; the error is `none`.
abbrev narrow : ℕ → ℕ → Option ℕ
narrow bits n = if ltb n (2 ^ bits) then some n else none

-- the lower bound of `within`: a bound of 0 is dropped
abbrev lower_bound : Option ℕ → Option ℕ
lower_bound none = none
lower_bound (some from) = if ltb 0 from then some from else none

module _ (k : Kernels) (bits : ℕ) (values : List (Option ℕ)) where
  abbrev joined : Option (List (Option Bool)) → Option (List (Option Bool)) → List (Option Bool)
  joined (some low) (some high) = k.and low high
  joined (some bound) none = bound
  joined none (some bound) = bound
  joined none none = map (lift (λ _. true)) values

  abbrev upper_answers : Option ℕ → Option (List (Option Bool))
  upper_answers none = none
  upper_answers (some to) = lift (k.lt_eq values) (narrow bits to)

  -- Rows at least `from` and at most `to`. `new_set` with the values' nulls is the last case.
  unfoldable pub within : Option ℕ → Option ℕ → List (Option Bool)
  within from to = elim (lower_bound from) [
    | none ↦ joined none (upper_answers to)
    | some from ↦ elim (narrow bits from) [
      | none ↦ replicate (length values) (some false)
      | some low ↦ joined (some (k.gt_eq values low)) (upper_answers to)
    ]
  ]

-- A bound on both sides, by its meaning.
abbrev pub at_least : Option ℕ → ℕ → Bool
at_least none v = true
at_least (some from) v = leb from v

abbrev pub at_most : Option ℕ → ℕ → Bool
at_most none v = true
at_most (some to) v = leb v to

get_elem?-replicate {ℓ κ} :
    {A : Type ℓ} {B : Type κ} (a : A) (xs : List B) (i : ℕ) (b : B)
    → get_elem? xs i ≡ some b
    → get_elem? (replicate (length xs) a) i ≡ some a
get_elem?-replicate a [] i b h = absurd (ground arith)
get_elem?-replicate a (x ∷ xs) zero b h = refl
get_elem?-replicate a (x ∷ xs) (suc i) b h = get_elem?-replicate a xs i b h

module _ (k : Kernels) (rowwise : IsRowwise k) (bits : ℕ) (values : List (Option ℕ)) (i : ℕ) where
  all_pass :
      get_elem? (map (lift {B = Bool} (λ (_ : ℕ). true)) values) i
      ≡ lift (lift (λ _. true)) (get_elem? values i)
  all_pass = get_elem?-map (lift (λ _. true)) values i

  -- The answer at a row that holds a value is whether the value lies within the bounds, also
  -- where a bound is beyond the column's width.
  pub within-rows :
      (from to : Option ℕ) (v : ℕ)
      → get_elem? values i ≡ some (some v)
      → v < 2 ^ bits
      → get_elem? (within k bits values from to) i ≡ some (some (at_least from v && at_most to v))
  unfolding within
  within-rows none none v h fits = ground (arith, all_pass)
  within-rows none (some to) v h fits = ground (arith, all_pass, rowwise.lt_eq_rows values to i)
  within-rows (some from) none v h fits = ground (
    arith,
    all_pass,
    get_elem?-replicate (some false) values i (some v) h,
    rowwise.gt_eq_rows values from i,
  )
  within-rows (some from) (some to) v h fits = ground (
    arith,
    all_pass,
    get_elem?-replicate (some false) values i (some v) h,
    rowwise.gt_eq_rows values from i,
    rowwise.lt_eq_rows values to i,
    rowwise.and_rows (k.gt_eq values from) (k.lt_eq values to) i (some (leb from v))
        (some (leb v to)),
  )

  -- A null row's answer is null, unless the lower bound is beyond the column's width.
  pub within-null :
      (from to : Option ℕ)
      → get_elem? values i ≡ some none
      → ((n : ℕ) → from ≡ some n → n < 2 ^ bits)
      → get_elem? (within k bits values from to) i ≡ some none
  unfolding within
  within-null none none h low = ground (arith, all_pass)
  within-null none (some to) h low = ground (arith, all_pass, rowwise.lt_eq_rows values to i)
  within-null (some from) none h low =
      ground (arith, low from refl, all_pass, rowwise.gt_eq_rows values from i)
  within-null (some from) (some to) h low = ground (
    arith,
    low from refl,
    all_pass,
    rowwise.gt_eq_rows values from i,
    rowwise.lt_eq_rows values to i,
    rowwise.and_rows (k.gt_eq values from) (k.lt_eq values to) i none none,
    rowwise.and_rows (k.gt_eq values from) (k.lt_eq values to) i none (some true),
  )

-- What parquet states of a value in a row group's statistics: it has no integer narrower than 32
-- bits, and keeps the low `physical` bits of the value.
abbrev pub KeepsBits : ℕ → ℤ → ℤ → Type 0
KeepsBits physical value stat = as_unsigned physical stat ≡ as_unsigned physical value

-- A statistic is widened by the rule that a value is: whatever physical width (32 or 64 bits, at
-- least the column's) and sign the statistic of a value was stored at, the block number read from
-- it is the one read from the value.
pub block_number_at-block_number :
    (t : DataType) (b : ℕ) (s : Bool) (physical : ℕ) (value stat : ℤ)
    → width_of t ≡ some (b, s)
    → (physical ≡ 32) ⊎ (physical ≡ 64)
    → b ≤ physical
    → KeepsBits physical value stat
    → block_number_at t stat ≡ some (block_number b value)
unfolding block_number_at block_number
block_number_at-block_number t b s physical value stat ht hp hb same =
    let (w, e) = Width-width_of t ht in
    rw (ht, block_number_at, e)
      (ap some (narrowed w physical value stat hp (subst (λ n. n ≤ physical) e hb) same))
  where
    narrowed :
        (w : Width) (physical : ℕ) (value stat : ℤ)
        → (physical ≡ 32) ⊎ (physical ≡ 64)
        → bits_of w ≤ physical
        → KeepsBits physical value stat
        → as_unsigned (bits_of w) stat ≡ as_unsigned (bits_of w) value
    narrowed w8 physical value stat (inl p) h same = ground arith
    narrowed w8 physical value stat (inr p) h same = ground arith
    narrowed _ physical value stat (inl p) h same = ground arith
    narrowed _ physical value stat (inr p) h same = ground arith
