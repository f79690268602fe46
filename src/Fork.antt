-- ===== src/Fork.antt =====
-- src/output/fork.rs: whether a chunk's block before `from_block` is the one that the client
-- expects. The plan, the table's description and the scanner are read through the records below.
pub mod Answer
pub mod Check
mod Tests
use Prim.Native.String.{String}
use sqd_query_engine.Prelude.{
  ℕ, ◌-◌, Bool, true, false, ◌&&◌, not, Option, none, some, List, [], ◌∷◌, ◌++◌, any, leb, ltb,
  if◌then◌else◌,
}
use sqd_query_engine.Prelude.Words.{saturating_sub, checked_sub}
use sqd_query_engine.Arrow.{Column, RecordBatch, column_by_name}
use sqd_query_engine.Error.{
  Result, ok, err, Error, ◌>>=◌, ◌>>◌, ensure, BlockRef, UnexpectedBaseBlock,
}
use sqd_query_engine.Error.Error.{engine, fork}
use sqd_query_engine.Error.ErrorKind.{table_not_found, column_not_found, malformed_chunk_data}
use sqd_query_engine.Integers.{width_of, block_number}
use sqd_query_engine.Integers.Blocks.{BlockNumbers, resolve, at}
use sqd_query_engine.Join.{same, rows_of}
use sqd_query_engine.Join.Semi.{is_text}

-- What the check reads of a plan: the request's first block and the hash that the client sent.
pub record ForkPlan : Type 0 where
  pub from_block : ℕ
  pub parent_block_hash : Option (List ℕ)
  pub block_table : String

-- What it reads of the block table's description.
pub record BlockTable : Type 0 where
  pub block_number_column : String
  pub parent_hash_column : Option String
  pub parent_number_column : Option String

-- The request it makes: `parent_below` is the predicate that the parent's number is at most that.
pub record ScanRequest : Type 0 where
  pub columns : List String
  pub from_block : Option ℕ
  pub to_block : Option ℕ
  pub block_number_column : Option String
  pub parent_below : Option (String × ℕ)

-- `ChunkReader`: a table's schema says which columns it has.
pub record ChunkReader : Type 0 where
  pub has_table : String → Bool
  pub table_schema : String → Option (String → Bool)
  pub scan : String → ScanRequest → Result (List RecordBatch)

abbrev pub fork_window : ℕ
fork_window = 100

unfoldable pub has_column : ChunkReader → String → String → Bool
has_column chunk table column = elim (chunk.table_schema table) [
  | none ↦ false
  | some schema ↦ schema column
]

-- The parent-number column, where the chunk carries it.
unfoldable pub carried : ChunkReader → String → Option String → Option String
unfolding has_column
carried chunk table none = none
carried chunk table (some column) = if has_column chunk table column then some column else none

-- The request's upper bound is on the parent's number where there is a column for it, and on the
-- block's own otherwise.
unfoldable pub window_request : ForkPlan → BlockTable → String → Option String → ScanRequest
window_request plan table hash_column none = record {
  columns = table.block_number_column ∷ hash_column ∷ [];
  from_block = some (saturating_sub plan.from_block fork_window);
  to_block = some plan.from_block;
  block_number_column = some table.block_number_column;
  parent_below = none;
}
window_request plan table hash_column (some number_column) = elim (checked_sub plan.from_block 1) [
  | none ↦ record {
    columns = table.block_number_column ∷ hash_column ∷ number_column ∷ [];
    from_block = some (saturating_sub plan.from_block fork_window);
    to_block = some plan.from_block;
    block_number_column = some table.block_number_column;
    parent_below = none;
  }
  | some newest ↦ record {
    columns = table.block_number_column ∷ hash_column ∷ number_column ∷ [];
    from_block = some (saturating_sub plan.from_block fork_window);
    to_block = none;
    block_number_column = some table.block_number_column;
    parent_below = some (number_column, newest);
  }
]

-- The refs read so far, and the answering row's own number and ref.
pub record Refs : Type 0 where
  pub refs : List BlockRef
  pub answer : Option (ℕ × BlockRef)

-- `answer.as_ref().is_none_or(|(block, _)| row_block < *block)`
unfoldable pub lower_than_answer : ℕ → Option (ℕ × BlockRef) → Bool
lower_than_answer row_block none = true
lower_than_answer row_block (some (block, _)) = ltb row_block block

-- A row that says what precedes it.
unfoldable pub push_ref : ℕ → Refs → ℕ → BlockRef → Refs
unfolding lower_than_answer
push_ref from_block state row_block block_ref = record {
  refs = state.refs ++ block_ref ∷ [];
  answer =
      if leb from_block row_block && lower_than_answer row_block state.answer
      then some (row_block, block_ref)
      else state.answer;
}

-- The number of the block that a row is about: `none` where the row is passed over.
unfoldable pub parent_number : Option Column → ℕ → ℕ → Option ℕ
unfolding width_of block_number
parent_number none row row_block = some (saturating_sub row_block 1)
parent_number (some column) row row_block =
    if column.is_null row then none else elim (width_of column.data_type) [
      | none ↦ none
      | some (bits, _) ↦ some (block_number bits (column.int_value row))
    ]

-- A null hash reads as the empty one.
unfoldable pub hash_at : Column → ℕ → List ℕ
hash_at hashes row = if hashes.is_null row then [] else hashes.text_value row

unfoldable pub read_rows : ℕ → BlockNumbers → Column → Option Column → List ℕ → Refs → Refs
unfolding parent_number push_ref hash_at
read_rows from_block numbers hashes parents [] state = state
read_rows from_block numbers hashes parents (row ∷ rows) state =
    let row_block = at numbers row in
    elim (parent_number parents row row_block) [
      | none ↦ read_rows from_block numbers hashes parents rows state
      | some number ↦ read_rows from_block numbers hashes parents rows (
          push_ref from_block state row_block
            (record { number = number; hash = hash_at hashes row }))
    ]

abbrev pub column_of : RecordBatch → Option String → Option Column
column_of batch none = none
column_of batch (some name) = column_by_name batch name

-- A batch without the block or the hash column is passed over.
unfoldable pub read_batch :
    ForkPlan → BlockTable → String → Option String → RecordBatch → Refs → Result Refs
unfolding column_by_name read_rows is_text resolve
read_batch plan table hash_column number_column batch state =
    elim (column_by_name batch table.block_number_column) [
      | none ↦ ok state
      | some blocks ↦ elim (column_by_name batch hash_column) [
        | none ↦ ok state
        | some hashes ↦
            ensure (is_text hashes.data_type) malformed_chunk_data
            >> (resolve blocks >>= λ numbers. ok (
                read_rows plan.from_block numbers hashes (column_of batch number_column)
                  (rows_of batch) state))
      ]
    ]

unfoldable pub read_batches :
    ForkPlan → BlockTable → String → Option String → List RecordBatch → Refs → Result Refs
unfolding read_batch
read_batches plan table hash_column number_column [] state = ok state
read_batches plan table hash_column number_column (batch ∷ batches) state =
    read_batch plan table hash_column number_column batch state >>= λ state'.
    read_batches plan table hash_column number_column batches state'

-- `sort_by_key(|r| r.number)`, which is stable
unfoldable pub insert_ref : BlockRef → List BlockRef → List BlockRef
insert_ref r [] = r ∷ []
insert_ref r (s ∷ refs) =
    let rest = insert_ref r refs in if leb r.number s.number then r ∷ s ∷ refs else s ∷ rest

unfoldable pub sort_refs : List BlockRef → List BlockRef
unfolding insert_ref
sort_refs [] = []
sort_refs (r ∷ refs) = insert_ref r (sort_refs refs)

abbrev pub ref_of : Option (ℕ × BlockRef) → Option BlockRef
ref_of none = none
ref_of (some (_, block_ref)) = some block_ref

unfoldable pub read_prev_blocks :
    ForkPlan → BlockTable → String → ChunkReader → Result (List BlockRef × Option BlockRef)
unfolding window_request carried has_column read_batches sort_refs
read_prev_blocks plan table hash_column chunk =
    let number_column = carried chunk plan.block_table table.parent_number_column in
    chunk.scan plan.block_table (window_request plan table hash_column number_column) >>= λ batches.
    if not (has_column chunk plan.block_table hash_column)
    then (ensure (not (any (λ batch. ltb 0 batch.num_rows) batches)) column_not_found
        >> ok ([], none))
    else (read_batches plan table hash_column number_column batches
          (record { refs = []; answer = none })
        >>= λ state. ok (sort_refs state.refs, ref_of state.answer))

-- `metadata.table(&plan.block_table)` is the second argument.
unfoldable pub check_parent_block : ForkPlan → Option BlockTable → ChunkReader → Result (Unit {0})
unfolding read_prev_blocks
check_parent_block plan described chunk = elim plan.parent_block_hash [
  | none ↦ ok tt
  | some expected_hash ↦ elim described [
    | none ↦ ok tt
    | some table ↦ elim table.parent_hash_column [
      | none ↦ ok tt
      | some hash_column ↦
          ensure (chunk.has_table plan.block_table) table_not_found
          >> (read_prev_blocks plan table hash_column chunk >>= λ (refs, answer). elim answer [
            | none ↦ ok tt
            | some parent ↦
                if same parent.hash expected_hash
                then ok tt
                else err (fork (record { expected_hash = expected_hash; prev_blocks = refs }))
          ])
    ]
  ]
]
