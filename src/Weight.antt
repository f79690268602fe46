-- ===== src/Weight.antt =====
-- src/output/weight.rs: what rows weigh, and what the blocks of a table's rows add up to. A map from
-- blocks to weights is a function, `none` where it has no entry.
pub mod Sums
pub mod Repeated
mod Tests
use Prim.Native.String.{String, compare}
use Prim.Native.Nat.{Ordering}
use sqd_query_engine.Prelude.{
  to_list, ℕ, zero, suc, Bool, true, false, ◌&&◌, ◌||◌, not, Option, none, some, List, [], ◌∷◌,
  ◌++◌, ◌==◌, if◌then◌else◌, any, length, range_from,
}
use sqd_query_engine.Prelude.Int.{ℤ, pos, negsuc}
use sqd_query_engine.Prelude.Words.{saturating_add}
use sqd_query_engine.Arrow.{Column, RecordBatch, column_by_name}
use sqd_query_engine.Error.{Result, ok, err}
use sqd_query_engine.Integers.{is_integer}
use sqd_query_engine.Integers.Blocks.{BlockNumbers, resolve, at}
use sqd_query_engine.Selection.{weight_of}
use sqd_query_engine.Predicate.Row.{string_eq}

abbrev pub default_row_weight : ℕ
default_row_weight = 32

-- `WeightSource` and the fields of a column's description, of crates/metadata/src/types.rs.
pub data WeightSource : Type 0 where
  size_column : String → WeightSource
  fixed_weight : ℕ → WeightSource

pub record ColumnDescription : Type 0 where
  pub system : Bool
  pub weight : Option WeightSource

-- `TableDescription`, as far as it weighs rows, with the variant column of its output.
pub record TableDescription : Type 0 where
  pub declared_weight_key : Option (List String)
  pub block_number_column : String
  pub item_order_keys : List String
  pub address_column : Option String
  pub variant_column : Option String
  pub columns : String → Option ColumnDescription

-- The columns a row is charged for in any case.
unfoldable pub weight_key : TableDescription → List String
weight_key desc = elim (desc.declared_weight_key) [
  | some declared ↦ declared
  | none ↦
      desc.block_number_column ∷ desc.item_order_keys
      ++ to_list desc.address_column
      ++ to_list desc.variant_column
]

pub record RowWeight : Type 0 where
  pub fixed : ℕ
  pub columns : List String

-- `push_unique`
unfoldable pub push_unique : List String → List String → List String
push_unique charged [] = charged
push_unique charged (name ∷ names) =
    push_unique (if any (λ c. string_eq c name) charged then charged else charged ++ name ∷ [])
      names

-- One column charged.
unfoldable pub charge : RowWeight → Option WeightSource → RowWeight
charge weight (some (size_column size)) = record weight { columns = weight.columns ++ size ∷ [] }
charge weight (some (fixed_weight fixed)) = record weight {
  fixed = saturating_add weight.fixed fixed;
}
charge weight none = record weight { fixed = saturating_add weight.fixed default_row_weight }

unfoldable pub charge_all : RowWeight → List String → TableDescription → RowWeight
unfolding charge
charge_all weight [] desc = weight
charge_all weight (column ∷ columns) desc =
    charge_all
      (elim (desc.columns column) [
        | none ↦ weight
        | some declared ↦ if declared.system then weight else charge weight declared.weight
      ])
      columns desc

-- `RowWeight::of_columns`
unfoldable pub columns_weight : List String → TableDescription → RowWeight
unfolding charge_all
columns_weight columns desc = charge_all (record { fixed = 0; columns = [] }) columns desc

-- `RowWeight::of`
unfoldable pub row_weight : List String → TableDescription → RowWeight
unfolding weight_key push_unique columns_weight
row_weight rendered desc =
    columns_weight (push_unique (push_unique [] (weight_key desc)) rendered) desc

-- The size columns that the batch has, at an integer type.
unfoldable pub weight_columns : RecordBatch → List String → List Column
weight_columns batch [] = []
weight_columns batch (name ∷ names) =
    let rest = weight_columns batch names in
    elim (column_by_name batch name) [
      | none ↦ rest
      | some column ↦ if is_integer column.data_type then column ∷ rest else rest
    ]

-- `try_into().unwrap_or(0)`: a column's value is below `2 ^ 64`.
unfoldable pub size_of : ℤ → ℕ
size_of (pos n) = n
size_of (negsuc n) = 0

unfoldable pub weight_at : Column → ℕ → ℕ
unfolding size_of
weight_at column row = if column.is_null row then 0 else size_of (column.int_value row)

-- The loop over the size columns, with the weight so far.
unfoldable pub weigh_row : ℕ → List Column → ℕ → ℕ
unfolding weight_at
weigh_row weight [] row = weight
weigh_row weight (column ∷ columns) row =
    weigh_row (saturating_add weight (weight_at column row)) columns row

abbrev pub Weights : Type 0
Weights = ℕ → Option ℕ

-- `*entry = entry.saturating_add(weight)`
unfoldable pub add_weight : Weights → ℕ → ℕ → Weights
add_weight weights block weight =
    λ b. if b == block then some (saturating_add (weight_of weights block) weight) else weights b

-- Rows and their weights, added to their blocks: the rows from one on.
unfoldable pub add_rows : BlockNumbers → ℕ → List Column → List ℕ → Weights → Weights
unfolding weigh_row add_weight
add_rows numbers fixed columns [] weights = weights
add_rows numbers fixed columns (row ∷ rows) weights =
    add_rows numbers fixed columns rows
      (add_weight weights (at numbers row) (weigh_row fixed columns row))

-- A batch without a readable column of block numbers weighs nothing.
unfoldable pub readable : RecordBatch → String → Option BlockNumbers
readable batch bn_column = elim (column_by_name batch bn_column) [
  | none ↦ none
  | some column ↦ elim (resolve column) [ err _ ↦ none | ok numbers ↦ some numbers ]
]

unfoldable pub accumulate_block_weights : List RecordBatch → String → RowWeight → Weights → Weights
unfolding readable weight_columns add_rows
accumulate_block_weights [] bn_column weight weights = weights
accumulate_block_weights (batch ∷ batches) bn_column weight weights =
    accumulate_block_weights batches bn_column weight (elim (readable batch bn_column) [
      | none ↦ weights
      | some numbers ↦
          add_rows numbers weight.fixed (weight_columns batch weight.columns)
            (range_from 0 batch.num_rows) weights
    ])

-- Deduplication: `K` is what identifies a row, and `same_key` its equality; a set is the list of its
-- members.
module _ {K : Type 0} (same_key : K → K → Bool) where
  -- A row that the set does not hold yet is added to its block.
  unfoldable pub admit : K × ℕ × ℕ → List K × Weights → List K × Weights
  unfolding add_weight
  admit (key, block, weight) s =
      if any (same_key key) s.0 then s else (key ∷ s.0, add_weight s.1 block weight)

  -- The rows of `accumulate_rows`, where `key` of a row and its block is what `is_new` inserts.
  unfoldable pub admit_rows :
      (ℕ → ℕ → K) → BlockNumbers → ℕ → List Column → List ℕ → List K × Weights → List K × Weights
  unfolding admit weigh_row
  admit_rows key numbers fixed columns [] s = s
  admit_rows key numbers fixed columns (row ∷ rows) s =
      admit_rows key numbers fixed columns rows
        (admit (key row (at numbers row), at numbers row, weigh_row fixed columns row) s)

  unfoldable pub accumulate_rows :
      RowWeight → RecordBatch → String → (ℕ → ℕ → K) → List K × Weights → List K × Weights
  unfolding readable weight_columns admit_rows
  accumulate_rows weight batch bn_column key s = elim (readable batch bn_column) [
    | none ↦ s
    | some numbers ↦
        admit_rows key numbers weight.fixed (weight_columns batch weight.columns)
          (range_from 0 batch.num_rows) s
  ]

  -- The loop of `accumulate_dedup_contributions` over the batches of all sources.
  unfoldable pub accumulate_dedup :
      List (RowWeight × RecordBatch × (ℕ → ℕ → K)) → String → List K × Weights → List K × Weights
  unfolding accumulate_rows
  accumulate_dedup [] bn_column s = s
  accumulate_dedup ((weight, batch, key) ∷ batches) bn_column s =
      accumulate_dedup batches bn_column (accumulate_rows weight batch bn_column key s)
