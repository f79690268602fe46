-- ===== src/Join/Hierarchical.antt =====
-- src/join/hierarchical.rs: the rows whose address extends, or is extended by, the address of a
-- source row of the same group.
pub mod Prefix
pub mod Index
pub mod Masks
use sqd_query_engine.Prelude.Words.{to_le_bytes}
use Prim.Native.String.{String}
use sqd_query_engine.Prelude.{
  ℕ, ◌^◌, ◌%◌, Bool, true, false, ◌&&◌, ◌||◌, Option, none, some, List, [], ◌∷◌, ◌++◌, map,
  if◌then◌else◌, length, any, take, leb, ltb,
}
use sqd_query_engine.Arrow.{element_type, DataType, Column, RecordBatch}
use sqd_query_engine.Arrow.DataType.{list}
use sqd_query_engine.Error.{Result, ok, err, Error, ◌>>=◌, ok_or, collect}
use sqd_query_engine.Error.Error.{engine}
use sqd_query_engine.Error.ErrorKind.{unsupported_key_type, column_not_found}
use sqd_query_engine.Integers.{width_of, is_integer, stored_key, block_number}
use sqd_query_engine.Selection.{is_empty}
use sqd_query_engine.Join.{same, no_rows, keep_matching, rows_of, resolve_indices}

-- An address: each element read unsigned at its own width, and cut to 32 bits.
unfoldable pub extract_address : Column → ℕ → List ℕ
unfolding element_type width_of block_number
extract_address column row =
    if column.is_null row then [] else elim (element_type column.data_type) [
      | none ↦ []
      | some item ↦ elim (width_of item) [
        | none ↦ []
        | some (bits, _) ↦ map (λ v. block_number bits v % 2 ^ 32) (column.list_value row)
      ]
    ]

-- The key of a row's group: `none` where a column is null.
unfoldable pub make_group_key : RecordBatch → ℕ → List ℕ → Result (Option (List ℕ))
make_group_key batch row [] = ok (some [])
make_group_key batch row (i ∷ rest) =
    let column = batch.column i in
    let key = make_group_key batch row rest in
    if is_integer column.data_type
    then (if column.is_null row
        then ok none
        else (key >>= λ more. ok (elim more [
          | none ↦ none
          | some bytes ↦ some (to_le_bytes 8 (stored_key (column.int_value row)) ++ bytes)
        ])))
    else err (engine unsupported_key_type)

-- The address column of a batch.
unfoldable pub address_column : RecordBatch → String → Result Column
address_column batch name = ok_or (batch.index_of name) column_not_found >>= λ i.
    elim (element_type (batch.column i).data_type) [
      | none ↦ err (engine unsupported_key_type)
      | some _ ↦ ok (batch.column i)
    ]

-- `HashMap<GroupKey, Vec<Vec<u32>>>`: each key once, beside the addresses pushed under it.
abbrev pub SourceAddresses : Type 0
SourceAddresses = List (List ℕ × List (List ℕ))

-- `entry(key).or_default().push(address)`
unfoldable pub push_address : SourceAddresses → List ℕ → List ℕ → SourceAddresses
push_address [] key address = (key, address ∷ []) ∷ []
push_address ((k, addresses) ∷ rest) key address =
    let more = push_address rest key address in
    if same k key then (k, addresses ++ address ∷ []) ∷ rest else (k, addresses) ∷ more

-- `get(key)`
unfoldable pub addresses_at : SourceAddresses → List ℕ → Option (List (List ℕ))
addresses_at [] key = none
addresses_at ((k, addresses) ∷ rest) key =
    let more = addresses_at rest key in if same k key then some addresses else more

-- The rows of a source batch, indexed: null addresses and ungroupable rows are left out.
unfoldable pub index_rows :
    RecordBatch → List ℕ → Column → List ℕ → SourceAddresses → Result SourceAddresses
index_rows batch key_indices column [] index = ok index
index_rows batch key_indices column (row ∷ rows) index =
    if column.is_null row
    then index_rows batch key_indices column rows index
    else (make_group_key batch row key_indices >>= λ key. elim key [
      | none ↦ index_rows batch key_indices column rows index
      | some bytes ↦
          index_rows batch key_indices column rows
            (push_address index bytes (extract_address column row))
    ])

unfoldable pub index_sources :
    List RecordBatch → List String → String → SourceAddresses → Result SourceAddresses
index_sources [] keys address index = ok index
index_sources (batch ∷ batches) keys address index = resolve_indices batch keys >>= λ key_indices.
    address_column batch address >>= λ column.
    index_rows batch key_indices column (rows_of batch) index >>= λ index'.
    index_sources batches keys address index'

-- Whether a target row is one of the answer: `related` tests its address against a source's.
unfoldable pub probe_row :
    (List ℕ → List ℕ → Bool) → SourceAddresses → RecordBatch → List ℕ → Column → ℕ → Result Bool
probe_row related index batch key_indices column row =
    if column.is_null row
    then ok false
    else (make_group_key batch row key_indices >>= λ key. ok (elim key [
      | none ↦ false
      | some bytes ↦ elim (addresses_at index bytes) [
        | none ↦ false
        | some addresses ↦ any (related (extract_address column row)) addresses
      ]
    ]))

unfoldable pub probe_batch :
    (List ℕ → List ℕ → Bool)
    → SourceAddresses
    → List String
    → String
    → RecordBatch
    → Result (List Bool)
probe_batch related index keys address batch = resolve_indices batch keys >>= λ key_indices.
    address_column batch address >>= λ column.
    collect (probe_row related index batch key_indices column) (rows_of batch)

-- What `children_masks` and `parents_masks` share: all but the test of two addresses.
unfoldable pub address_masks :
    (List ℕ → List ℕ → Bool)
    → List RecordBatch
    → List RecordBatch
    → List String
    → String
    → String
    → Result (List (List Bool))
address_masks related source_batches target_batches keys source_address target_address =
    if is_empty source_batches || is_empty target_batches
    then ok (no_rows target_batches)
    else (index_sources source_batches keys source_address [] >>= λ index.
        collect (probe_batch related index keys target_address) target_batches)

-- The test of `children_masks`.
unfoldable pub is_child : Bool → List ℕ → List ℕ → Bool
is_child inclusive target parent =
    (if inclusive then leb (length parent) (length target) else ltb (length parent) (length target))
    && same (take (length parent) target) parent

-- The test of `parents_masks`.
unfoldable pub is_parent : Bool → List ℕ → List ℕ → Bool
is_parent inclusive target child =
    (if inclusive then leb (length target) (length child) else ltb (length target) (length child))
    && same (take (length target) child) target

unfoldable pub children_masks :
    List RecordBatch
    → List RecordBatch
    → List String
    → String
    → String
    → Bool
    → Result (List (List Bool))
unfolding address_masks is_child
children_masks source_batches target_batches keys source_address target_address inclusive =
    address_masks (is_child inclusive) source_batches target_batches keys source_address
      target_address

unfoldable pub parents_masks :
    List RecordBatch
    → List RecordBatch
    → List String
    → String
    → String
    → Bool
    → Result (List (List Bool))
unfolding address_masks is_parent
parents_masks source_batches target_batches keys source_address target_address inclusive =
    address_masks (is_parent inclusive) source_batches target_batches keys source_address
      target_address

unfoldable pub find_children :
    (RecordBatch → List Bool → Result RecordBatch)
    → List RecordBatch
    → List RecordBatch
    → List String
    → String
    → String
    → Bool
    → Result (List RecordBatch)
unfolding children_masks
find_children filter source_batches target_batches keys source_address target_address inclusive =
    children_masks source_batches target_batches keys source_address target_address inclusive
    >>= λ masks. keep_matching filter target_batches masks

unfoldable pub find_parents :
    (RecordBatch → List Bool → Result RecordBatch)
    → List RecordBatch
    → List RecordBatch
    → List String
    → String
    → String
    → Bool
    → Result (List RecordBatch)
unfolding parents_masks
find_parents filter source_batches target_batches keys source_address target_address inclusive =
    parents_masks source_batches target_batches keys source_address target_address inclusive
    >>= λ masks. keep_matching filter target_batches masks
