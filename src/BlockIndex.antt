-- ===== src/BlockIndex.antt =====
-- src/output/block_index.rs: where each block of a page sits in it, and the rows of each block.
pub mod Positions
pub mod Range
pub mod Counted
pub mod Placed
pub mod Visited
pub mod Sorted
pub mod Built
mod Tests
use Prim.Native.String.{String}
use sqd_query_engine.Prelude.{
  to_list, ℕ, zero, suc, ◌+◌, ◌-◌, ◌*◌, ◌%◌, ◌^◌, min, max, Bool, true, false, Option, none, some,
  List, [], ◌∷◌, ◌++◌, map, leb, ◌==◌, if◌then◌else◌, length, get_elem?, get_or, set, take, drop,
  replicate, range_from, any,
}
use sqd_query_engine.Prelude.Words.{checked_sub}
use sqd_query_engine.Arrow.{Column, RecordBatch, column_by_name}
use sqd_query_engine.Error.{Result, ok, err, Error, ◌>>=◌}
use sqd_query_engine.Error.Error.{engine}
use sqd_query_engine.Error.ErrorKind.{unsupported_key_type}
use sqd_query_engine.Integers.{width_of, block_number}

-- `(batch, row, block number)`
abbrev pub Visit : Type 0
Visit = ℕ × ℕ × ℕ

abbrev pub block_of : Visit → ℕ
block_of (batch, row, block) = block

unfoldable pub batch_visits : ℕ → Column → ℕ → List ℕ → List Visit
unfolding block_number
batch_visits at column bits [] = []
batch_visits at column bits (row ∷ rows) =
    (at, row, block_number bits (column.int_value row)) ∷ batch_visits at column bits rows

-- What `for_each_block_number` visits, in order, from the batch at an index on. A batch without the
-- column is skipped; a column that is not of integers is an error.
unfoldable pub visits : ℕ → List RecordBatch → String → Result (List Visit)
unfolding batch_visits width_of column_by_name
visits at [] bn_column = ok []
visits at (batch ∷ batches) bn_column =
    let rest = visits (suc at) batches bn_column in
    elim (column_by_name batch bn_column) [
      | none ↦ rest
      | some column ↦ elim (width_of column.data_type) [
        | none ↦ err (engine unsupported_key_type)
        | some (bits, _) ↦
            rest >>= λ later. ok (batch_visits at column bits (range_from 0 column.len) ++ later)
      ]
    ]

-- `min_block.map_or(bn, |m| m.min(bn))`, and the same for the maximum.
unfoldable pub widen : Option ℕ × Option ℕ → ℕ → Option ℕ × Option ℕ
widen (none, none) block = (some block, some block)
widen (none, some high) block = (some block, some (max high block))
widen (some low, none) block = (some (min low block), some block)
widen (some low, some high) block = (some (min low block), some (max high block))

unfoldable pub widen_all : Option ℕ × Option ℕ → List Visit → Option ℕ × Option ℕ
unfolding widen
widen_all range [] = range
widen_all range (v ∷ vs) = widen_all (widen range (block_of v)) vs

unfoldable pub compute_block_range : List RecordBatch → String → Result (Option ℕ × Option ℕ)
unfolding visits widen_all
compute_block_range batches bn_column =
    visits 0 batches bn_column >>= λ vs. ok (widen_all (none, none) vs)

-- A set is the list of its members.
unfoldable pub insert : List ℕ → ℕ → List ℕ
insert numbers block = if any (λ n. n == block) numbers then numbers else numbers ++ block ∷ []

unfoldable pub insert_all : List ℕ → List ℕ → List ℕ
unfolding insert
insert_all numbers [] = numbers
insert_all numbers (block ∷ blocks) = insert_all (insert numbers block) blocks

unfoldable pub collect_block_numbers : List RecordBatch → String → List ℕ → Result (List ℕ)
unfolding visits insert_all
collect_block_numbers batches bn_column numbers =
    visits 0 batches bn_column >>= λ vs. ok (insert_all numbers (map block_of vs))

unfoldable pub collect_boundary_blocks : List RecordBatch → String → List ℕ → Result (List ℕ)
unfolding compute_block_range insert_all
collect_boundary_blocks batches bn_column numbers =
    compute_block_range batches bn_column >>= λ (low, high).
    ok (insert_all (insert_all numbers (to_list low)) (to_list high))

pub record BlockPositions : Type 0 where
  pub blocks : List ℕ
  pub dense : Option (List ℕ)

abbrev pub last_or : ℕ → List ℕ → ℕ
last_or first [] = first
last_or first (block ∷ blocks) = last_or block blocks

-- How many block numbers the page spans.
unfoldable pub span_of : List ℕ → ℕ
span_of [] = 0
span_of (first ∷ rest) = last_or first rest - first + 1

-- The loop over the page's blocks: `position as u32 + 1` in the slot of each. The sum is a u32, which
-- a build without overflow checks wraps.
unfoldable pub fill : List ℕ → ℕ → ℕ → List ℕ → List ℕ
fill dense first position [] = dense
fill dense first position (block ∷ blocks) =
    fill (set dense (block - first) ((position % 2 ^ 32 + 1) % 2 ^ 32)) first (suc position) blocks

abbrev pub first_or : ℕ → List ℕ → ℕ
first_or default [] = default
first_or default (block ∷ blocks) = block

-- `BlockPositions::new`
unfoldable pub block_positions : List ℕ → BlockPositions
unfolding span_of fill
block_positions blocks =
    let span = span_of blocks in
    let slots = max (length blocks * 4) (2 ^ 16) in
    record {
      blocks = blocks;
      dense =
          if leb span slots
          then some (fill (replicate span 0) (first_or 0 blocks) 0 blocks)
          else none;
    }

-- `binary_search(&block).ok()`: in an ascending list it finds the one place where the block is.
unfoldable pub search : ℕ → List ℕ → Option ℕ
search block [] = none
search block (b ∷ blocks) =
    let rest = search block blocks in
    if b == block then some 0 else elim rest [ none ↦ none | some i ↦ some (suc i) ]

unfoldable pub dense_position : List ℕ → List ℕ → ℕ → Option ℕ
dense_position [] dense block = none
dense_position (first ∷ rest) dense block = elim (checked_sub block first) [
  | none ↦ none
  | some slot ↦ elim (get_elem? dense slot) [ none ↦ none | some position ↦ checked_sub position 1 ]
]

unfoldable pub position : BlockPositions → ℕ → Option ℕ
unfolding search dense_position
position positions block = elim positions.dense [
  | some dense ↦ dense_position positions.blocks dense block
  | none ↦ search block positions.blocks
]

pub record BlockIndex : Type 0 where
  pub starts : List ℕ
  pub rows : List (ℕ × ℕ)

-- The rows of each block, counted into the slot after the block's.
unfoldable pub count_rows : BlockPositions → List ℕ → List Visit → List ℕ
unfolding position
count_rows positions starts [] = starts
count_rows positions starts (v ∷ vs) = elim (position positions (block_of v)) [
  | none ↦ count_rows positions starts vs
  | some at ↦ count_rows positions (set starts (at + 1) (get_or starts (at + 1) 0 + 1)) vs
]

-- Each slot added to the sum of those before it.
unfoldable pub sum_up : ℕ → List ℕ → List ℕ
sum_up before [] = []
sum_up before (n ∷ ns) = (before + n) ∷ sum_up (before + n) ns

unfoldable pub place_rows : BlockPositions → List ℕ → List (ℕ × ℕ) → List Visit → List (ℕ × ℕ)
unfolding position
place_rows positions next rows [] = rows
place_rows positions next rows ((batch, row, block) ∷ vs) = elim (position positions block) [
  | none ↦ place_rows positions next rows vs
  | some at ↦
      place_rows positions (set next at (get_or next at 0 + 1))
        (set rows (get_or next at 0) (batch, row)) vs
]

-- `BlockIndex::build`
unfoldable pub build : List RecordBatch → String → BlockPositions → Result BlockIndex
unfolding visits count_rows sum_up place_rows
build batches bn_column positions = visits 0 batches bn_column >>= λ vs.
    let blocks = length positions.blocks in
    let starts = sum_up 0 (count_rows positions (replicate (blocks + 1) 0) vs) in
    let rows = place_rows positions starts (replicate (get_or starts blocks 0) (0, 0)) vs in
    ok (record { starts = starts; rows = rows })

-- `BlockIndex::rows`
unfoldable pub rows_at : BlockIndex → ℕ → List (ℕ × ℕ)
rows_at index at =
    let start = get_or index.starts at 0 in
    take (get_or index.starts (at + 1) 0 - start) (drop start index.rows)
