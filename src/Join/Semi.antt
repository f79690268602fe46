-- ===== src/Join/Semi.antt =====
-- src/join/semi_join.rs: the rows of the probe side whose key some row of the build side has.
pub mod Encoded
pub mod Keys
pub mod Masks
use sqd_query_engine.Prelude.Words.{to_le_bytes}
use Prim.Native.String.{String}
use sqd_query_engine.Prelude.{
  ℕ, ◌^◌, ◌%◌, Bool, true, false, ◌||◌, Option, none, some, List, [], ◌∷◌, ◌++◌, map, if◌then◌else◌,
  length, any, range_from,
}
use sqd_query_engine.Prelude.Int.{ℤ}
use sqd_query_engine.Arrow.{DataType, Column, RecordBatch}
use sqd_query_engine.Arrow.DataType.{utf8, large_utf8, utf8_view, boolean, fixed_size_binary, list}
use sqd_query_engine.Error.{Result, ok, err, Error, ◌>>=◌, collect}
use sqd_query_engine.Error.Error.{engine}
use sqd_query_engine.Error.ErrorKind.{unsupported_key_type}
use sqd_query_engine.Integers.{is_integer, stored_key}
use sqd_query_engine.Selection.{is_empty}
use sqd_query_engine.Join.{same, no_rows, keep_matching, rows_of, resolve_indices}

-- `is_text` of src/text.rs
unfoldable pub is_text : DataType → Bool
is_text utf8 = true
is_text large_utf8 = true
is_text utf8_view = true
is_text _ = false

-- How a key column is read; the number is the column's index.
pub data TypedExtractor : Type 0 where
  int text bool fixed_binary int_list : ℕ → TypedExtractor

unfoldable pub col_idx : TypedExtractor → ℕ
col_idx (int i) = i
col_idx (text i) = i
col_idx (bool i) = i
col_idx (fixed_binary i) = i
col_idx (int_list i) = i

-- The types that are neither integers nor text.
unfoldable pub other_extractor : DataType → ℕ → Result TypedExtractor
other_extractor boolean i = ok (bool i)
other_extractor (fixed_size_binary _) i = ok (fixed_binary i)
other_extractor (list item) i =
    if is_integer item then ok (int_list i) else err (engine unsupported_key_type)
other_extractor _ i = err (engine unsupported_key_type)

-- `TypedExtractor::new`
unfoldable pub typed_extractor : RecordBatch → ℕ → Result TypedExtractor
typed_extractor batch i =
    let data_type = (batch.column i).data_type in
    if is_integer data_type
    then ok (int i)
    else if is_text data_type
    then ok (text i)
    else other_extractor data_type i

-- The elements of a list, each eight bytes wide.
unfoldable pub word_bytes : List ℕ → List ℕ
word_bytes [] = []
word_bytes (n ∷ ns) = to_le_bytes 8 n ++ word_bytes ns

-- The bytes that a column's value at a row adds to a key.
unfoldable pub written : TypedExtractor → Column → ℕ → List ℕ
written (int _) column row = to_le_bytes 8 (stored_key (column.int_value row))
written (text _) column row =
    let s = column.text_value row in to_le_bytes 4 (length s % 2 ^ 32) ++ s
written (bool _) column row = (if column.bool_value row then 1 else 0) ∷ []
written (fixed_binary _) column row = column.bytes_value row
written (int_list _) column row =
    let values = column.list_value row in
    to_le_bytes 4 (length values % 2 ^ 32) ++ word_bytes (map stored_key values)

-- `none` where the value is null.
unfoldable pub append : TypedExtractor → RecordBatch → ℕ → Option (List ℕ)
unfolding written col_idx
append extractor batch row =
    let column = batch.column (col_idx extractor) in
    if column.is_null row then none else some (written extractor column row)

-- The composite key of a row: `none` where a column is null.
unfoldable pub write_key : RecordBatch → ℕ → List TypedExtractor → Option (List ℕ)
unfolding append
write_key batch row [] = some []
write_key batch row (extractor ∷ rest) = elim (append extractor batch row) [
  | none ↦ none
  | some bytes ↦ elim (write_key batch row rest) [ none ↦ none | some key ↦ some (bytes ++ key) ]
]

-- The extractors of a batch's key columns.
unfoldable pub extractors_of : RecordBatch → List String → Result (List TypedExtractor)
extractors_of batch names =
    resolve_indices batch names >>= λ indices. collect (typed_extractor batch) indices

-- The keys of some rows; those with a null are left out.
unfoldable pub insert_keys : RecordBatch → List TypedExtractor → List ℕ → List (List ℕ)
insert_keys batch extractors [] = []
insert_keys batch extractors (row ∷ rows) = elim (write_key batch row extractors) [
  | none ↦ insert_keys batch extractors rows
  | some key ↦ key ∷ insert_keys batch extractors rows
]

-- The set of keys, as the list of its members.
unfoldable pub build_key_set : List RecordBatch → List String → Result (List (List ℕ))
build_key_set [] names = ok []
build_key_set (batch ∷ batches) names =
    let rest = build_key_set batches names in
    extractors_of batch names >>= λ extractors.
    rest >>= λ keys. ok (insert_keys batch extractors (rows_of batch) ++ keys)

-- Whether a row of the probe side matches.
unfoldable pub matches : List (List ℕ) → RecordBatch → List TypedExtractor → ℕ → Bool
matches key_set batch extractors row = elim (write_key batch row extractors) [
  | none ↦ false
  | some key ↦ any (same key) key_set
]

unfoldable pub probe_mask : List (List ℕ) → List String → RecordBatch → Result (List Bool)
probe_mask key_set names batch = extractors_of batch names >>= λ extractors.
    ok (map (matches key_set batch extractors) (rows_of batch))

unfoldable pub semi_join_masks :
    List RecordBatch → List String → List RecordBatch → List String → Result (List (List Bool))
semi_join_masks build_batches build_key probe_batches probe_key =
    if is_empty build_batches || is_empty probe_batches
    then ok (no_rows probe_batches)
    else (build_key_set build_batches build_key >>= λ key_set.
        if is_empty key_set
        then ok (no_rows probe_batches)
        else collect (probe_mask key_set probe_key) probe_batches)

unfoldable pub semi_join :
    (RecordBatch → List Bool → Result RecordBatch)
    → List RecordBatch
    → List String
    → List RecordBatch
    → List String
    → Result (List RecordBatch)
unfolding semi_join_masks
semi_join filter build_batches build_key probe_batches probe_key =
    semi_join_masks build_batches build_key probe_batches probe_key >>= λ masks.
    keep_matching filter probe_batches masks

-- The same with the sides swapped: build from the input, probe on the lookup side.
unfoldable pub lookup_join :
    (RecordBatch → List Bool → Result RecordBatch)
    → List RecordBatch
    → List String
    → List RecordBatch
    → List String
    → Result (List RecordBatch)
unfolding semi_join
lookup_join filter input_batches input_key lookup_batches lookup_key =
    semi_join filter input_batches input_key lookup_batches lookup_key

unfoldable pub lookup_join_masks :
    List RecordBatch → List String → List RecordBatch → List String → Result (List (List Bool))
unfolding semi_join_masks
lookup_join_masks input_batches input_key lookup_batches lookup_key =
    semi_join_masks input_batches input_key lookup_batches lookup_key
