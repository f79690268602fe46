-- ===== src/RowOrder.antt =====
-- src/output/row_order.rs: the order of a table's rows within a block, by their keys and then by
-- file order, and the keys that are prepared for it.
pub mod Compare
pub mod Stored
pub mod Biased
pub mod Words
pub mod Bytes
pub mod Packed
pub mod Pairs
pub mod Resolved
pub mod Typed
pub mod Traverse
pub mod Forms
pub mod Prepared
pub mod Sorted
mod Tests
use Prim.Native.Nat.{compare, Ordering}
use Prim.Native.String.{String}
use sqd_query_engine.Prelude.{
  to_list, ℕ, zero, suc, ◌+◌, ◌*◌, Bool, true, false, not, ◌&&◌, Option, none, some, List, [], ◌∷◌,
  map, if◌then◌else◌, get_or, drop, all, any, range_from, length, leb, max,
}
use native.Mathlib.Decide.{ℕ_discrete}
use sqd_query_engine.Prelude.Int.{ℤ}
use sqd_query_engine.Arrow.{element_type, Column, DataType, RecordBatch, column_by_name}
use sqd_query_engine.Integers.{width_of, is_integer}
use sqd_query_engine.Join.Semi.{is_text}
use sqd_query_engine.Predicate.Order.{sort}
use sqd_query_engine.Weight.{TableDescription, push_unique}
use sqd_query_engine.RowOrder.Compare.{then_with, is_lt, cmp_ℤ, cmp_option, cmp_slices}
use sqd_query_engine.RowOrder.Stored.{
  StoredInts, StoredPaths, resolve_ints, resolve_paths, compare_paths, TypedKeys, SortKeys, words,
  typed, packed, compare_keys, word_keys, packed_keys,
}

-- `row_key` of src/output/projection.rs
unfoldable pub row_key : TableDescription → List String
unfolding push_unique
row_key desc =
    push_unique (push_unique (desc.block_number_column ∷ []) desc.item_order_keys)
      (to_list desc.address_column)

unfoldable pub build_full_sort_columns : TableDescription → List String
unfolding row_key
build_full_sort_columns desc = drop 1 (row_key desc)

-- A list has its elements, where they are integers.
pub data TypedSortColumn : Type 0 where
  int text : Column → TypedSortColumn
  list : Option StoredPaths → TypedSortColumn

unfoldable pub resolve_sort_column : Column → Option TypedSortColumn
unfolding is_integer is_text element_type resolve_paths
resolve_sort_column column =
    if is_integer column.data_type
    then some (int column)
    else (if is_text column.data_type
        then some (text column)
        else elim (element_type column.data_type) [
          | none ↦ none
          | some t ↦ some (list (resolve_paths column t))
        ])

-- A null text has no value.
unfoldable pub text_at : Column → ℕ → Option (List ℕ)
text_at column row = if column.is_null row then none else some (column.text_value row)

unfoldable pub cmp_rows : TypedSortColumn → ℕ → TypedSortColumn → ℕ → Ordering
unfolding cmp_slices text_at compare_paths
cmp_rows (int a) row_a (int b) row_b = cmp_ℤ (a.int_value row_a) (b.int_value row_b)
cmp_rows (text a) row_a (text b) row_b =
    cmp_option (cmp_slices compare) (text_at a row_a) (text_at b row_b)
cmp_rows (list (some a)) row_a (list (some b)) row_b = compare_paths a row_a b row_b
cmp_rows _ row_a _ row_b = Ordering.eq

-- The column by column comparison, over the columns that both batches have.
unfoldable pub compare_resolved :
    List (Option TypedSortColumn) → ℕ → List (Option TypedSortColumn) → ℕ → Ordering
unfolding cmp_rows
compare_resolved (some x ∷ xs) a (some y ∷ ys) b =
    then_with (cmp_rows x a y b) (compare_resolved xs a ys b)
compare_resolved (some x ∷ xs) a (none ∷ ys) b = compare_resolved xs a ys b
compare_resolved (none ∷ xs) a (y ∷ ys) b = compare_resolved xs a ys b
compare_resolved (x ∷ xs) a [] b = Ordering.eq
compare_resolved [] a ys b = Ordering.eq

unfoldable pub resolve_batch : List String → RecordBatch → List (Option TypedSortColumn)
unfolding column_by_name resolve_sort_column
resolve_batch [] batch = []
resolve_batch (name ∷ names) batch =
    (elim (column_by_name batch name) [ none ↦ none | some column ↦ resolve_sort_column column ])
    ∷ resolve_batch names batch

unfoldable pub resolve_sort_columns :
    List RecordBatch → List String → List (List (Option TypedSortColumn))
unfolding resolve_batch
resolve_sort_columns batches names = map (resolve_batch names) batches

-- `collect::<Option<_>>()`
abbrev pub traverse : {A B : Type 0} → (A → Option B) → List A → Option (List B)
traverse f [] = some []
traverse f (x ∷ xs) = elim (f x) [
  | none ↦ none
  | some y ↦ elim (traverse f xs) [ none ↦ none | some ys ↦ some (y ∷ ys) ]
]

abbrev pub split_last : {A : Type 0} → List A → Option (List A × A)
split_last [] = none
split_last (x ∷ xs) = elim (split_last xs) [
  | none ↦ some ([], x)
  | some (leading, last) ↦ some (x ∷ leading, last)
]

abbrev pub with_path : Option (List StoredInts) → Option StoredPaths → Option TypedKeys
with_path none path = none
with_path (some fixed) path = some (record { fixed = fixed; path = path })

abbrev pub at_end : Option StoredPaths → Option (List StoredInts) → Option TypedKeys
at_end none leading = none
at_end (some path) leading = with_path leading (some path)

-- All columns are fixed, or all but a last one that is a list.
abbrev pub keys_at :
    Option DataType
    → (DataType → Option StoredPaths)
    → Option (List StoredInts)
    → Option (List StoredInts)
    → Option TypedKeys
keys_at none paths all leading = with_path all none
keys_at (some t) paths all leading = at_end (paths t) leading

unfoldable pub typed_keys : List Column → Option TypedKeys
unfolding element_type resolve_ints resolve_paths
typed_keys columns = elim (split_last columns) [
  | none ↦ none
  | some (leading, last) ↦
      keys_at (element_type last.data_type) (resolve_paths last) (traverse resolve_ints columns)
        (traverse resolve_ints leading)
]

abbrev packed_depth : ℕ
packed_depth = 8

abbrev sum_lengths : List (List ℤ) → ℕ
sum_lengths [] = 0
sum_lengths (p ∷ ps) = length p + sum_lengths ps

-- Paths of a batch that are deep on average.
unfoldable pub is_deep : TypedKeys → Bool
is_deep keys = elim (keys.path) [
  | none ↦ false
  | some p ↦ leb (packed_depth * max p.rows 1) (sum_lengths (map p.path (range_from 0 p.rows)))
]

unfoldable pub DataType-discrete : Discrete DataType
DataType-discrete = hlevel ℕ_discrete

unfoldable pub same_type : DataType → DataType → Bool
unfolding DataType-discrete
same_type s t = elim (DataType-discrete s t) [ yes _ ↦ true | no _ ↦ false ]

-- The types of a batch's columns against those of the first.
unfoldable pub same_types : List DataType → List Column → Bool
unfolding same_type
same_types [] columns = true
same_types (t ∷ types) [] = true
same_types (t ∷ types) (c ∷ columns) = same_type c.data_type t && same_types types columns

unfoldable pub choose_form : List TypedKeys → SortKeys
unfolding word_keys is_deep packed_keys
choose_form keys = elim (traverse word_keys keys) [
  | some ws ↦ words ws
  | none ↦ if any is_deep keys then packed (map packed_keys keys) else typed keys
]

unfoldable pub keys_of : List RecordBatch → List String → List DataType → Option SortKeys
unfolding column_by_name same_types typed_keys choose_form
keys_of batches names types =
    elim (traverse (λ batch. traverse (column_by_name batch) names) batches) [
      | none ↦ none
      | some columns ↦
          if not (all (same_types types) columns)
          then none
          else elim (traverse typed_keys columns) [
            | none ↦ none
            | some keys ↦ some (choose_form keys)
          ]
    ]

unfoldable pub row_sort_keys : List RecordBatch → List String → Option SortKeys
unfolding keys_of
row_sort_keys [] names = none
row_sort_keys (first ∷ rest) [] = none
row_sort_keys (first ∷ rest) (name ∷ names) =
    elim (traverse (column_by_name first) (name ∷ names)) [
      | none ↦ none
      | some columns ↦
          keys_of (first ∷ rest) (name ∷ names) (map (λ (c : Column). c.data_type) columns)
    ]

abbrev pub file_order : ℕ × ℕ → ℕ × ℕ → Ordering
file_order (batch_a, row_a) (batch_b, row_b) =
    then_with (compare batch_a batch_b) (compare row_a row_b)

-- Rows sorted by an order, then by file order.
unfoldable pub sort_by : (ℕ × ℕ → ℕ × ℕ → Ordering) → List (ℕ × ℕ) → List (ℕ × ℕ)
unfolding sort
sort_by cmp rows = sort (λ a b. is_lt (then_with (cmp a b) (file_order a b))) rows

unfoldable pub compare_at :
    List (List (Option TypedSortColumn))
    → ℕ × ℕ
    → List (List (Option TypedSortColumn))
    → ℕ × ℕ
    → Ordering
unfolding compare_resolved
compare_at resolved (batch_a, row_a) other (batch_b, row_b) =
    compare_resolved (get_or resolved batch_a []) row_a (get_or other batch_b []) row_b

-- Whether the first batch has sort columns.
abbrev pub has_sort_cols : List (List (Option TypedSortColumn)) → Bool
has_sort_cols [] = false
has_sort_cols ([] ∷ resolved) = false
has_sort_cols ((c ∷ cs) ∷ resolved) = true

-- `sort_rows_by_order_keys_indexed`
unfoldable pub sort_rows :
    List (ℕ × ℕ) → List (List (Option TypedSortColumn)) → Option SortKeys → List (ℕ × ℕ)
unfolding sort_by compare_keys compare_at
sort_rows rows resolved (some keys) = sort_by (compare_keys keys) rows
sort_rows rows resolved none =
    if has_sort_cols resolved
    then sort_by (λ a b. compare_at resolved a resolved b) rows
    else sort_by (λ a b. Ordering.eq) rows

pub record RowOrder : Type 0 where
  pub columns : List String
  pub resolved : List (List (Option TypedSortColumn))
  pub keys : Option SortKeys

-- `RowOrder::new`
unfoldable pub row_order : List RecordBatch → TableDescription → RowOrder
unfolding build_full_sort_columns resolve_sort_columns row_sort_keys
row_order batches table =
    let columns = build_full_sort_columns table in
    record {
      columns = columns;
      resolved = resolve_sort_columns batches columns;
      keys = row_sort_keys batches columns;
    }

-- `RowOrder::is_keyed`
unfoldable pub is_keyed : RowOrder → Bool
is_keyed order = elim (order.columns) [ [] ↦ false | c ∷ cs ↦ true ]

-- `RowOrder::sort`
unfoldable pub sort_order : RowOrder → List (ℕ × ℕ) → List (ℕ × ℕ)
unfolding sort_rows
sort_order order rows = sort_rows rows order.resolved order.keys

-- `RowOrder::compare`
unfoldable pub compare_orders : RowOrder → ℕ × ℕ → RowOrder → ℕ × ℕ → Ordering
unfolding compare_at
compare_orders order a other b = compare_at order.resolved a other.resolved b

-- `orders_rows`, of an empty array of the type
unfoldable pub orders_rows : DataType → Bool
unfolding is_integer is_text element_type
orders_rows t =
    if is_integer t
    then true
    else (if is_text t then true else elim (element_type t) [ none ↦ false | some _ ↦ true ])
