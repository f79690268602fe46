-- ===== src/RowOrder/Stored.antt =====
-- The sort keys of src/output/row_order.rs: integers at their stored types, as one word a row, or as
-- bytes. A path is the elements that a row's span of the offsets holds.
use Prim.Native.Nat.{compare, Ordering}
use sqd_query_engine.Prelude.{
  ℕ, zero, suc, ◌+◌, ◌-◌, ◌*◌, ◌/◌, ◌%◌, ◌^◌, Bool, true, false, ◌&&◌, Option, none, some, List, [],
  ◌∷◌, ◌++◌, map, ◌==◌, if◌then◌else◌, bit_or, bit_xor, get_or, take, drop, length, range_from, ltb,
}
use sqd_query_engine.Prelude.Bits.{◌<<<◌}
use sqd_query_engine.Prelude.Words.{as_unsigned}
use sqd_query_engine.Prelude.Int.{ℤ}
use sqd_query_engine.Arrow.{Column, DataType}
use sqd_query_engine.Integers.{width_of}
use sqd_query_engine.RowOrder.Compare.{then_with, cmp_ℤ, cmp_slices, first_difference}

-- Rows of integers, `bits` wide.
pub record StoredInts : Type 0 where
  pub bits : ℕ
  pub signed : Bool
  pub len : ℕ
  pub values : ℕ → ℤ

-- The offsets of a list and its elements.
pub record StoredPaths : Type 0 where
  pub bits : ℕ
  pub signed : Bool
  pub rows : ℕ
  pub path : ℕ → List ℤ

unfoldable pub resolve_ints : Column → Option StoredInts
resolve_ints column = elim (width_of column.data_type) [
  | none ↦ none
  | some (b, s) ↦
      some (record { bits = b; signed = s; len = column.len; values = column.int_value })
]

-- `StoredInts::resolve` of a list's elements, with the list's offsets.
unfoldable pub resolve_paths : Column → DataType → Option StoredPaths
resolve_paths column t = elim (width_of t) [
  | none ↦ none
  | some (b, s) ↦
      some (record { bits = b; signed = s; rows = column.len; path = column.list_value })
]

-- `width`, in bytes
abbrev pub width : ℕ → ℕ
width bits = bits / 8

-- An element at its stored width, sign bit flipped.
unfoldable pub word : ℕ → Bool → ℤ → ℕ
word bits signed value = bit_xor (as_unsigned bits value) (if signed then 2 ^ (bits - 1) else 0)

-- `to_be_bytes` of a word of `n` bytes
unfoldable pub to_be_bytes : ℕ → ℕ → List ℕ
to_be_bytes zero w = []
to_be_bytes (suc n) w = (w / 256 ^ n % 256) ∷ to_be_bytes n (w % 256 ^ n)

unfoldable pub pack : ℕ → Bool → List ℤ → List ℕ
unfolding word to_be_bytes
pack bits signed [] = []
pack bits signed (v ∷ vs) = to_be_bytes (width bits) (word bits signed v) ++ pack bits signed vs

-- `compare_one`; values of one type compare natively, which is by value.
abbrev pub compare_one : StoredInts → ℕ → StoredInts → ℕ → Ordering
compare_one x a y b = cmp_ℤ (x.values a) (y.values b)

-- `StoredInts::compare` of the paths of two rows.
unfoldable pub compare_paths : StoredPaths → ℕ → StoredPaths → ℕ → Ordering
unfolding cmp_slices first_difference
compare_paths x a y b =
    if x.bits == y.bits && (if x.signed then y.signed else (if y.signed then false else true))
    then cmp_slices cmp_ℤ (x.path a) (y.path b)
    else then_with (first_difference cmp_ℤ (x.path a) (y.path b))
        (compare (length (x.path a)) (length (y.path b)))

pub record TypedKeys : Type 0 where
  pub fixed : List StoredInts
  pub path : Option StoredPaths

pub record PackedKeys : Type 0 where
  pub ends : List ℕ
  pub bytes : List ℕ

-- `PackedKeys::key`
unfoldable pub key : PackedKeys → ℕ → List ℕ
key k row =
    let start = if row == 0 then 0 else get_or k.ends (row - 1) 0 in
    take (get_or k.ends row 0 - start) (drop start k.bytes)

pub data SortKeys : Type 0 where
  words : List (List ℕ) → SortKeys
  typed : List TypedKeys → SortKeys
  packed : List PackedKeys → SortKeys

unfoldable pub compare_fixed : List StoredInts → ℕ → List StoredInts → ℕ → Ordering
compare_fixed [] a ys b = Ordering.eq
compare_fixed (x ∷ xs) a [] b = Ordering.eq
compare_fixed (x ∷ xs) a (y ∷ ys) b = then_with (compare_one x a y b) (compare_fixed xs a ys b)

unfoldable pub compare_tails : Option StoredPaths → ℕ → Option StoredPaths → ℕ → Ordering
unfolding compare_paths
compare_tails (some x) a (some y) b = compare_paths x a y b
compare_tails (some x) a none b = Ordering.eq
compare_tails none a y b = Ordering.eq

abbrev pub no_keys : TypedKeys
no_keys = record { fixed = []; path = none }

-- `SortKeys::compare`
unfoldable pub compare_keys : SortKeys → ℕ × ℕ → ℕ × ℕ → Ordering
unfolding compare_fixed compare_tails key cmp_slices
compare_keys (words keys) (ba, ra) (bb, rb) =
    compare (get_or (get_or keys ba []) ra 0) (get_or (get_or keys bb []) rb 0)
compare_keys (typed keys) (ba, ra) (bb, rb) =
    let a = get_or keys ba no_keys in
    let b = get_or keys bb no_keys in
    then_with (compare_fixed a.fixed ra b.fixed rb) (compare_tails a.path ra b.path rb)
compare_keys (packed keys) (ba, ra) (bb, rb) =
    cmp_slices compare (key (get_or keys ba (record { ends = []; bytes = [] })) ra)
      (key (get_or keys bb (record { ends = []; bytes = [] })) rb)

-- `u64::checked_shl`
abbrev pub checked_shl : ℕ → ℕ → Option ℕ
checked_shl w s = if ltb s 64 then some ((w <<< s) % 2 ^ 64) else none

abbrev pub unwrap_or : Option ℕ → ℕ → ℕ
unwrap_or none d = d
unwrap_or (some w) d = w

-- The fold of `word_keys` over the columns.
unfoldable pub fold_word : ℕ → List StoredInts → ℕ → ℕ
unfolding word
fold_word acc [] row = acc
fold_word acc (c ∷ cs) row =
    let shifted = unwrap_or (checked_shl acc (width c.bits * 8)) 0 in
    fold_word (bit_or shifted (word c.bits c.signed (c.values row))) cs row

abbrev pub sum_widths : List StoredInts → ℕ
sum_widths [] = 0
sum_widths (c ∷ cs) = width c.bits + sum_widths cs

abbrev pub first_len : List StoredInts → ℕ → ℕ
first_len [] d = d
first_len (c ∷ cs) d = c.len

unfoldable pub word_keys : TypedKeys → Option (List ℕ)
unfolding fold_word
word_keys keys = elim (keys.path) [
  | some _ ↦ none
  | none ↦
      if ltb 64 (sum_widths keys.fixed * 8)
      then none
      else some (map (fold_word 0 keys.fixed) (range_from 0 (first_len keys.fixed 0)))
]

-- The bytes of a row's fixed columns, and of its path.
unfoldable pub fixed_bytes : List StoredInts → ℕ → List ℕ
unfolding pack
fixed_bytes [] row = []
fixed_bytes (c ∷ cs) row = pack c.bits c.signed (c.values row ∷ []) ++ fixed_bytes cs row

unfoldable pub path_bytes : Option StoredPaths → ℕ → List ℕ
unfolding pack
path_bytes none row = []
path_bytes (some p) row = pack p.bits p.signed (p.path row)

unfoldable pub path_size : Option StoredPaths → ℕ → ℕ
path_size none row = 0
path_size (some p) row = length (p.path row) * width p.bits

abbrev pub path_rows : Option StoredPaths → ℕ
path_rows none = 0
path_rows (some p) = p.rows

-- The loop over `ends`, with the bytes before a row.
unfoldable pub ends_from : TypedKeys → ℕ → List ℕ → List ℕ
unfolding path_size
ends_from keys total [] = []
ends_from keys total (row ∷ rows) =
    let total' = total + sum_widths keys.fixed + path_size keys.path row in
    total' ∷ ends_from keys total' rows

-- The loop that fills the bytes: each row fills those after the row before it.
unfoldable pub bytes_of : TypedKeys → List ℕ → List ℕ
unfolding fixed_bytes path_bytes
bytes_of keys [] = []
bytes_of keys (row ∷ rows) =
    fixed_bytes keys.fixed row ++ path_bytes keys.path row ++ bytes_of keys rows

unfoldable pub packed_keys : TypedKeys → PackedKeys
unfolding ends_from bytes_of
packed_keys keys =
    let rows = range_from 0 (first_len keys.fixed (path_rows keys.path)) in
    record { ends = ends_from keys 0 rows; bytes = bytes_of keys rows }
