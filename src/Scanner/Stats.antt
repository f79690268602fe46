-- ===== src/Scanner/Stats.antt =====
-- src/scan/scanner.rs: the statistics of a row group, as its footer states them.
use Prim.Native.String.{String}
use sqd_query_engine.Prelude.{
  ℕ, Bool, true, false, ◌&&◌, not, List, [], ◌∷◌, ◌++◌, map, if◌then◌else◌, all, Option, none, some,
  length, leb, ◌==◌,
}
use sqd_query_engine.Prelude.Int.{ℤ, pos}
use sqd_query_engine.Arrow.{DataType, Column}
use sqd_query_engine.Integers.{block_number_at}
use sqd_query_engine.Predicate.Scalar.{StatRange, stat_range}
use sqd_query_engine.Predicate.Column.{ArrayPredicate}
use sqd_query_engine.Predicate.Skip.{matches_every_value}
use sqd_query_engine.Predicate.Row.{
  string_eq, ColumnPredicate, RowPredicate, column_predicates, flatten,
}

-- `StatValue` of src/scan/chunk.rs; the bytes are those of a text, or not.
pub data StatValue : Type 0 where
  int32 int64 : ℤ → StatValue
  float double : ℕ → StatValue
  byte_array : Bool → List ℕ → StatValue
  boolean : Bool → StatValue
  fixed_len_byte_array : List ℕ → StatValue

pub record ColumnStatistics : Type 0 where
  pub null_count : Option ℕ
  pub least : Option StatValue
  pub greatest : Option StatValue

-- `ParquetTable`: the statistics of a group's column, and the stored types.
pub record ParquetTable : Type 0 where
  pub num_row_groups : ℕ
  pub column_stats : ℕ → String → Option ColumnStatistics
  pub stored_type : String → Option DataType

unfoldable pub stat_scalar : StatValue → Option ℤ
stat_scalar (int32 v) = some v
stat_scalar (int64 v) = some v
stat_scalar _ = none

-- An array of one value.
abbrev pub single : DataType → ℤ → List ℕ → Bool → Column
single data_type int_value bytes bool_value = record {
  data_type = data_type;
  len = 1;
  is_null = λ _. false;
  int_value = λ _. int_value;
  text_value = λ _. bytes;
  bool_value = λ _. bool_value;
  bytes_value = λ _. bytes;
  list_value = λ _. [];
}

unfoldable pub stat_value_to_array : StatValue → Column
stat_value_to_array (boolean v) = single DataType.boolean (pos 0) [] v
stat_value_to_array (int32 v) = single DataType.int32 v [] false
stat_value_to_array (int64 v) = single DataType.int64 v [] false
stat_value_to_array (float _) = single (DataType.other 0) (pos 0) [] false
stat_value_to_array (double _) = single (DataType.other 1) (pos 0) [] false
stat_value_to_array (byte_array true v) = single DataType.utf8 (pos 0) v false
stat_value_to_array (byte_array false v) = single DataType.binary (pos 0) v false
stat_value_to_array (fixed_len_byte_array v) =
    single (DataType.fixed_size_binary (length v)) (pos 0) v false

unfoldable pub block_bounds : ParquetTable → ℕ → String → Option (ℕ × ℕ)
unfolding stat_scalar
block_bounds table group column = elim (table.stored_type column) [
  | none ↦ none
  | some width ↦ elim (table.column_stats group column) [
    | none ↦ none
    | some stats ↦ elim (bound width stats.least) [
      | none ↦ none
      | some low ↦ elim (bound width stats.greatest) [
        | none ↦ none
        | some high ↦ if leb low high then some (low, high) else none
      ]
    ]
  ]
]
  where
    bound : DataType → Option StatValue → Option ℕ
    bound width none = none
    bound width (some v) = elim (stat_scalar v) [ none ↦ none | some n ↦ block_number_at width n ]

pub record ColumnSummary : Type 0 where
  pub column : String
  pub range : Option StatRange
  pub null_free : Bool

abbrev pub GroupStats : Type 0
GroupStats = List ColumnSummary

-- The range of the statistics, read at the stored type.
unfoldable pub summary_range :
    Option DataType → Option StatValue → Option StatValue → Option StatRange
unfolding stat_value_to_array
summary_range (some stored) (some low) (some high) =
    stat_range stored (stat_value_to_array low) (stat_value_to_array high)
summary_range _ _ _ = none

unfoldable pub has_no_null : Option ℕ → Bool
has_no_null none = false
has_no_null (some n) = n == 0

unfoldable pub column_summary : ParquetTable → ℕ → String → ColumnSummary
unfolding summary_range has_no_null
column_summary table group column = elim (table.column_stats group column) [
  | none ↦ record { column = column; range = none; null_free = false }
  | some stats ↦ record {
    column = column;
    range = summary_range (table.stored_type column) stats.least stats.greatest;
    null_free = has_no_null stats.null_count;
  }
]

-- The loop of `GroupStats::read`: each column once.
unfoldable pub read_columns : ParquetTable → ℕ → GroupStats → List ColumnPredicate → GroupStats
unfolding column_summary
read_columns table group read [] = read
read_columns table group read (p ∷ rest) =
    read_columns table group
      (if all (λ s. not (string_eq (s.column) (p.column))) read
        then read ++ column_summary table group p.column ∷ []
        else read)
      rest

unfoldable pub read_stats : ParquetTable → ℕ → List RowPredicate → GroupStats
unfolding read_columns
read_stats table group predicates =
    read_columns table group [] (flatten (map column_predicates predicates))

unfoldable pub find_summary : GroupStats → String → Option ColumnSummary
find_summary [] column = none
find_summary (s ∷ stats) column =
    let rest = find_summary stats column in if string_eq (s.column) column then some s else rest

-- `GroupStats::range`
unfoldable pub range_of : Option ColumnSummary → Option StatRange
range_of none = none
range_of (some s) = s.range

unfoldable pub range : GroupStats → String → Option StatRange
unfolding find_summary range_of
range stats column = range_of (find_summary stats column)

-- `GroupStats::proves`
unfoldable pub proved_by : ArrayPredicate → Option ColumnSummary → Bool
unfolding matches_every_value
proved_by predicate none = false
proved_by predicate (some s) = elim (s.range) [
  | none ↦ false
  | some r ↦ s.null_free && matches_every_value predicate r
]

unfoldable pub proves : GroupStats → ColumnPredicate → Bool
unfolding find_summary proved_by
proves stats c = proved_by c.predicate (find_summary stats c.column)
