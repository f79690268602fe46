-- ===== src/Join.antt =====
-- src/join/mod.rs: what both kinds of join share, a selection of rows as masks; and the bytes of
-- the keys that rows are joined on.
pub mod Semi
pub mod Hierarchical
pub mod Matching
mod Tests
use sqd_query_engine.Prelude.{
  ℕ, zero, suc, ◌/◌, ◌%◌, Bool, true, false, ◌&&◌, List, [], ◌∷◌, map, ◌==◌, if◌then◌else◌,
  replicate,
}
use Prim.Native.String.{String}
use sqd_query_engine.Prelude.{Option, none, some, range_from}
use sqd_query_engine.Arrow.{RecordBatch}
use sqd_query_engine.Error.{Result, ok_or, collect, ◌>>=◌}
use sqd_query_engine.Error.ErrorKind.{column_not_found}

-- `BooleanArray::true_count`
abbrev pub true_count : List Bool → ℕ
true_count [] = 0
true_count (true ∷ mask) = suc (true_count mask)
true_count (false ∷ mask) = true_count mask

-- `arrow::compute::filter_record_batch` is the first argument.
unfoldable pub keep_matching :
    (RecordBatch → List Bool → Result RecordBatch)
    → List RecordBatch
    → List (List Bool)
    → Result (List RecordBatch)
keep_matching filter [] masks = Result.ok []
keep_matching filter (batch ∷ batches) [] = Result.ok []
keep_matching filter (batch ∷ batches) (mask ∷ masks) =
    let count = true_count mask in
    let rest = keep_matching filter batches masks in
    if count == 0
    then rest
    else if count == batch.num_rows
    then (rest >>= λ kept. Result.ok (batch ∷ kept))
    else (filter batch mask >>= λ filtered. rest >>= λ kept. Result.ok (filtered ∷ kept))

unfoldable pub no_rows : List RecordBatch → List (List Bool)
no_rows batches = map (λ batch. replicate batch.num_rows false) batches

-- The rows of a batch, in order.
abbrev pub rows_of : RecordBatch → List ℕ
rows_of batch = range_from 0 batch.num_rows

-- Equality of byte strings, and of addresses.
abbrev pub same : List ℕ → List ℕ → Bool
same [] [] = true
same [] (y ∷ ys) = false
same (x ∷ xs) [] = false
same (x ∷ xs) (y ∷ ys) = x == y && same xs ys

-- `resolve_key_indices`, `resolve_indices`
unfoldable pub resolve_indices : RecordBatch → List String → Result (List ℕ)
resolve_indices batch names = collect (λ name. ok_or (batch.index_of name) column_not_found) names
