-- ===== src/Predicate/Row.antt =====
-- Filters on rows of src/scan/predicate.rs: column filters that all hold, and groups of which one
-- holds.
use Prim.Native.String.{String, compare}
use Prim.Native.Nat.{Ordering}
use sqd_query_engine.Prelude.{
  ℕ, Bool, true, false, ◌&&◌, ◌||◌, not, List, [], ◌∷◌, ◌++◌, map, if◌then◌else◌, any, all, keep,
  Option, none, some, get_elem?,
}
use sqd_query_engine.Predicate.Mask.{BooleanArray, Mask, masked, unsupported, and, or_all, and_all}
use sqd_query_engine.Predicate.Scalar.{ScalarValue, StatRange}
use sqd_query_engine.Predicate.Value.{FilterList}
use sqd_query_engine.Predicate.Column.{
  Array, Libraries, ArrayPredicate, on_value, never, list_contains_any, equal, in_list,
  bloom_filter, u32_set, string_set, evaluate,
}
use sqd_query_engine.Predicate.Skip.{can_skip}

pub record ColumnPredicate : Type 0 where
  pub column : String
  pub predicate : ArrayPredicate

pub record RowPredicate : Type 0 where
  pub columns : List ColumnPredicate
  pub alternatives : List (List ColumnPredicate)

-- `RecordBatch`, with dictionaries and lists among its columns.
pub record Batch : Type 0 where
  pub num_rows : ℕ
  pub column_by_name : String → Option Array

abbrev pub string_eq : String → String → Bool
string_eq a b = elim (compare a b) [ Ordering.eq ↦ true | _ ↦ false ]

-- `ColumnStats`
abbrev pub ColumnStats : Type 0
ColumnStats = String → Option StatRange

abbrev pub is_none {ℓ} : {A : Type ℓ} → Option A → Bool
is_none none = true
is_none (some _) = false

abbrev pub is_nil {ℓ} : {A : Type ℓ} → List A → Bool
is_nil [] = true
is_nil (_ ∷ _) = false

-- `RowPredicate::new`
unfoldable pub of_columns : List ColumnPredicate → RowPredicate
of_columns columns = record { columns = columns; alternatives = [] }

unfoldable pub with_alternatives : List ColumnPredicate → List (List ColumnPredicate) → RowPredicate
with_alternatives columns alternatives = record { columns = columns; alternatives = alternatives }

unfoldable pub matches_every_row : RowPredicate → Bool
matches_every_row p = is_nil p.columns && is_nil p.alternatives

abbrev pub flatten {ℓ} : {A : Type ℓ} → List (List A) → List A
flatten [] = []
flatten (xs ∷ rest) = xs ++ flatten rest

unfoldable pub column_predicates : RowPredicate → List ColumnPredicate
column_predicates p = p.columns ++ flatten p.alternatives

unfoldable pub required_columns : RowPredicate → List String
unfolding column_predicates
required_columns p = map (λ c. c.column) (column_predicates p)

-- An error of either leaves the function.
unfoldable pub and_masks : Mask → Mask → Mask
unfolding and
and_masks (unsupported e) b = unsupported e
and_masks (masked a) (unsupported e) = unsupported e
and_masks (masked a) (masked b) = masked (and a b)

module _ (lib : Libraries) where
  -- The masks of the columns that the batch has.
  unfoldable pub column_masks : List ColumnPredicate → Batch → List Mask
  unfolding evaluate
  column_masks [] batch = []
  column_masks (c ∷ columns) batch = elim (batch.column_by_name (c.column)) [
    | none ↦ column_masks columns batch
    | some array ↦ evaluate lib c.predicate array ∷ column_masks columns batch
  ]

  unfoldable pub evaluate_all : List ColumnPredicate → Batch → Mask
  unfolding column_masks and_all
  evaluate_all columns batch = and_all batch.num_rows (column_masks columns batch)

  -- `RowPredicate::evaluate`
  unfoldable pub evaluate_row : RowPredicate → Batch → Mask
  unfolding evaluate_all or_all and_masks
  evaluate_row p batch =
      if is_nil p.alternatives
      then evaluate_all p.columns batch
      else and_masks (evaluate_all p.columns batch)
          (or_all batch.num_rows (map (λ group. evaluate_all group batch) p.alternatives))

  unfoldable pub or_row_predicates : List RowPredicate → Batch → Mask
  unfolding evaluate_row or_all
  or_row_predicates predicates batch =
      or_all batch.num_rows (map (λ p. evaluate_row p batch) predicates)

unfoldable pub any_can_skip : List ColumnPredicate → ColumnStats → Bool
unfolding can_skip
any_can_skip columns stats_fn =
    any (λ c. elim (stats_fn c.column) [ none ↦ false | some stats ↦ can_skip c.predicate stats ])
      columns

unfoldable pub can_skip_row_group : RowPredicate → ColumnStats → Bool
unfolding any_can_skip
can_skip_row_group p stats_fn =
    any_can_skip p.columns stats_fn
    || (not (is_nil p.alternatives) && all (λ group. any_can_skip group stats_fn) p.alternatives)

unfoldable pub unproven : (ColumnPredicate → Bool) → List ColumnPredicate → List ColumnPredicate
unproven proven group = keep (λ c. not (proven c)) group

unfoldable pub without_proven : RowPredicate → (ColumnPredicate → Bool) → Option RowPredicate
unfolding column_predicates unproven with_alternatives
without_proven p proven =
    if any proven (column_predicates p)
    then (let alternatives = map (unproven proven) p.alternatives in
        some (
          with_alternatives (unproven proven p.columns)
            (if any is_nil alternatives then [] else alternatives)))
    else none

-- The masks that items pick out, combined; `none` where an item has no mask, and the code panics.
unfoldable pub picked : List BooleanArray → List ℕ → Option (List Mask)
picked masks [] = some []
picked masks (item ∷ items) = elim (get_elem? masks item) [
  | none ↦ none
  | some mask ↦ elim (picked masks items) [ none ↦ none | some rest ↦ some (masked mask ∷ rest) ]
]

unfoldable pub or_masks : List BooleanArray → List ℕ → ℕ → Option Mask
unfolding picked or_all
or_masks masks items len = elim (picked masks items) [
  | none ↦ none
  | some chosen ↦ some (or_all len chosen)
]

unfoldable pub col_never : String → ColumnPredicate
col_never column = record { column = column; predicate = never }

unfoldable pub col_eq : String → ScalarValue → ColumnPredicate
col_eq column value = record { column = column; predicate = on_value (equal value) }

unfoldable pub col_in_list : String → FilterList → ColumnPredicate
col_in_list column values = record { column = column; predicate = on_value (in_list values) }

unfoldable pub col_list_contains_any_u32 : String → List ℕ → ColumnPredicate
col_list_contains_any_u32 column values = record {
  column = column;
  predicate = list_contains_any (u32_set values);
}

unfoldable pub col_list_contains_any_string : String → List (List ℕ) → ColumnPredicate
col_list_contains_any_string column values = record {
  column = column;
  predicate = list_contains_any (string_set values);
}

unfoldable pub col_bloom : String → List (List ℕ) → ℕ → ℕ → ColumnPredicate
col_bloom column needles num_bytes num_hashes = record {
  column = column;
  predicate =
      on_value (
        bloom_filter
          (record { needles = needles; num_bytes = num_bytes; num_hashes = num_hashes }));
}
