-- ===== src/Scanner.antt =====
-- src/scan/scanner.rs: what the statistics of a row group leave of a request's filters. A table is
-- the statistics and the types that its footer states, and a relation's keys are the blocks they hold.
pub mod Stats
pub mod Checked
pub mod Prepared
pub mod Dropped
mod Tests
use Prim.Native.String.{String, compare}
use Prim.Native.Nat.{Ordering}
use sqd_query_engine.Prelude.{
  ℕ, Bool, true, false, ◌&&◌, ◌||◌, not, List, [], ◌∷◌, ◌++◌, map, if◌then◌else◌, any, all, keep,
  Option, none, some, get_or, get_elem?, length, range_from, ltb, leb, ◌==◌,
}
use sqd_query_engine.Prelude.Int.{ℤ, pos}
use sqd_query_engine.Arrow.{DataType, Column}
use sqd_query_engine.Integers.{block_number_at}
use sqd_query_engine.Predicate.Order.{partition_point_by}
use sqd_query_engine.Predicate.Scalar.{StatRange, stat_range}
use sqd_query_engine.Predicate.Column.{ArrayPredicate}
use sqd_query_engine.Predicate.Skip.{matches_every_value}
use sqd_query_engine.Predicate.Row.{
  string_eq, ColumnPredicate, RowPredicate, column_predicates, can_skip_row_group, without_proven,
  of_columns, is_nil, flatten,
}
use sqd_query_engine.Scanner.Stats.{
  ParquetTable, block_bounds, GroupStats, read_stats, range, proves, int32, int64, float, double,
  byte_array, boolean, fixed_len_byte_array,
}

-- `KeyFilter` of src/scan/keys.rs, as the choice of row groups reads it: the blocks of its keys.
pub record KeyFilter : Type 0 where
  pub block_number_column : String
  pub sorted_blocks : List ℕ

unfoldable pub has_block_within : KeyFilter → ℕ → ℕ → Bool
unfolding partition_point_by
has_block_within keys low high =
    let first = partition_point_by (λ block. ltb block low) keys.sorted_blocks in
    elim (get_elem? keys.sorted_blocks first) [ none ↦ false | some block ↦ leb block high ]

pub record ScanRequest : Type 0 where
  pub predicates : List RowPredicate
  pub from_block : Option ℕ
  pub to_block : Option ℕ
  pub block_number_column : Option String
  pub key_filter : Option KeyFilter

pub record PreparedRowGroup : Type 0 where
  pub index : ℕ
  pub active_items : List ℕ
  pub narrowed : List (ℕ × RowPredicate)

-- `request.predicates[item]`; the items are indices into it.
unfoldable pub predicate_at : List RowPredicate → ℕ → RowPredicate
predicate_at predicates item = get_or predicates item (of_columns [])

unfoldable pub active : List RowPredicate → GroupStats → List ℕ
unfolding predicate_at range
active predicates stats =
    keep (λ item. not (can_skip_row_group (predicate_at predicates item) (range stats)))
      (range_from 0 (length predicates))

unfoldable pub narrow : List RowPredicate → GroupStats → List ℕ → List (ℕ × RowPredicate)
unfolding predicate_at proves
narrow predicates stats [] = []
narrow predicates stats (item ∷ items) =
    elim (without_proven (predicate_at predicates item) (proves stats)) [
      | none ↦ narrow predicates stats items
      | some left ↦ (item, left) ∷ narrow predicates stats items
    ]

-- Whether the bounds of a group's blocks leave none between two blocks.
unfoldable pub blocks_outside : Option ℕ → Option ℕ → Option (ℕ × ℕ) → Bool
blocks_outside from to none = false
blocks_outside from to (some (low, high)) =
    elim from [ none ↦ false | some f ↦ ltb high f ]
    || elim to [ none ↦ false | some t ↦ ltb t low ]

unfoldable pub keys_elsewhere : Option KeyFilter → (String → Option (ℕ × ℕ)) → Bool
unfolding has_block_within
keys_elsewhere none bounds = false
keys_elsewhere (some keys) bounds = elim (bounds keys.block_number_column) [
  | none ↦ false
  | some (low, high) ↦ not (has_block_within keys low high)
]

-- The three tests that leave a row group out: by its blocks, by a relation's blocks, by the items.
unfoldable pub out_of_blocks : ParquetTable → ScanRequest → ℕ → Bool
unfolding block_bounds blocks_outside
out_of_blocks table request index =
    blocks_outside request.from_block request.to_block (elim (request.block_number_column) [
      | none ↦ none
      | some column ↦ block_bounds table index column
    ])

unfoldable pub out_of_keys : ParquetTable → ScanRequest → ℕ → Bool
unfolding block_bounds keys_elsewhere
out_of_keys table request index = keys_elsewhere request.key_filter (block_bounds table index)

unfoldable pub out_of_items : List RowPredicate → GroupStats → Bool
unfolding active
out_of_items predicates stats = not (is_nil predicates) && is_nil (active predicates stats)

unfoldable pub prepared : List RowPredicate → GroupStats → ℕ → PreparedRowGroup
unfolding active narrow
prepared predicates stats index = record {
  index = index;
  active_items = active predicates stats;
  narrowed = narrow predicates stats (active predicates stats);
}

unfoldable pub prepare_row_group : ParquetTable → ScanRequest → ℕ → Option PreparedRowGroup
unfolding out_of_blocks out_of_keys read_stats out_of_items prepared
prepare_row_group table request index =
    let stats = read_stats table index request.predicates in
    if out_of_blocks table request index
    then none
    else if out_of_keys table request index
    then none
    else if out_of_items request.predicates stats
    then none
    else some (prepared request.predicates stats index)

-- `PreparedRowGroup::items`, with what `narrowed` has left to give.
unfoldable pub items_after :
    List RowPredicate → List ℕ → List (ℕ × RowPredicate) → List RowPredicate
unfolding predicate_at
items_after predicates [] narrowed = []
items_after predicates (item ∷ items) [] =
    predicate_at predicates item ∷ items_after predicates items []
items_after predicates (item ∷ items) ((n, left) ∷ narrowed) =
    let taken = items_after predicates items narrowed in
    let passed = items_after predicates items ((n, left) ∷ narrowed) in
    if n == item then left ∷ taken else predicate_at predicates item ∷ passed

unfoldable pub items_of : List RowPredicate → PreparedRowGroup → List RowPredicate
unfolding items_after
items_of predicates group = items_after predicates group.active_items group.narrowed

unfoldable pub select_from : ParquetTable → ScanRequest → List ℕ → List PreparedRowGroup
unfolding prepare_row_group
select_from table request [] = []
select_from table request (index ∷ indices) = elim (prepare_row_group table request index) [
  | none ↦ select_from table request indices
  | some group ↦ group ∷ select_from table request indices
]

unfoldable pub select_row_groups : ParquetTable → ScanRequest → List PreparedRowGroup
unfolding select_from
select_row_groups table request = select_from table request (range_from 0 table.num_row_groups)
