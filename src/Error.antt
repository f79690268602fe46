-- ===== src/Error.antt =====
-- src/error.rs: the kinds of errors, an error on its way out of the engine, and its kind; with
-- `anyhow::Result` as a monad. The text of a message is not part of the contract and is left out.
use Prim.Native.String.{String}
use sqd_query_engine.Prelude.{ℕ, Bool, true, false, Option, none, some, List, [], ◌∷◌}

pub data ErrorKind : Type 0 where
  malformed_request unknown_dataset unknown_table unknown_filter : ErrorKind
  unknown_field_group unknown_field invalid_block_range invalid_block_number : ErrorKind
  too_many_item_requests too_many_bloom_values conflicting_filters invalid_hex : ErrorKind
  discriminator_too_long invalid_filter_value unknown_set invalid_set : ErrorKind
  set_canary_mismatch set_field_not_selected request_too_large : ErrorKind
  unsupported_request_field table_not_found column_not_found unexpected_base_block : ErrorKind
  unsupported_key_type malformed_chunk_data : ErrorKind

-- The wire spelling.
unfoldable pub as_str : ErrorKind → String
as_str malformed_request = "MalformedRequest"
as_str unknown_dataset = "UnknownDataset"
as_str unknown_table = "UnknownTable"
as_str unknown_filter = "UnknownFilter"
as_str unknown_field_group = "UnknownFieldGroup"
as_str unknown_field = "UnknownField"
as_str invalid_block_range = "InvalidBlockRange"
as_str invalid_block_number = "InvalidBlockNumber"
as_str too_many_item_requests = "TooManyItemRequests"
as_str too_many_bloom_values = "TooManyBloomValues"
as_str conflicting_filters = "ConflictingFilters"
as_str invalid_hex = "InvalidHex"
as_str discriminator_too_long = "DiscriminatorTooLong"
as_str invalid_filter_value = "InvalidFilterValue"
as_str unknown_set = "UnknownSet"
as_str invalid_set = "InvalidSet"
as_str set_canary_mismatch = "SetCanaryMismatch"
as_str set_field_not_selected = "SetFieldNotSelected"
as_str request_too_large = "RequestTooLarge"
as_str unsupported_request_field = "UnsupportedRequestField"
as_str table_not_found = "TableNotFound"
as_str column_not_found = "ColumnNotFound"
as_str unexpected_base_block = "UnexpectedBaseBlock"
as_str unsupported_key_type = "UnsupportedKeyType"
as_str malformed_chunk_data = "MalformedChunkData"

-- Whether the kind is raised before any chunk data is read.
unfoldable pub is_validation : ErrorKind → Bool
is_validation table_not_found = false
is_validation column_not_found = false
is_validation unexpected_base_block = false
is_validation unsupported_key_type = false
is_validation malformed_chunk_data = false
is_validation _ = true

-- `BlockRef` of src/output/fork.rs; a hash is its bytes.
pub record BlockRef : Type 0 where
  pub number : ℕ
  pub hash : List ℕ

-- `UnexpectedBaseBlock` of src/output/fork.rs.
pub record UnexpectedBaseBlock : Type 0 where
  pub expected_hash : List ℕ
  pub prev_blocks : List BlockRef

-- `anyhow::Error`: one of the two types that `error_kind` tells apart, or any other.
pub data Error : Type 0 where
  engine : ErrorKind → Error
  fork : UnexpectedBaseBlock → Error
  unkinded : Error

unfoldable pub error_kind : Error → Option ErrorKind
error_kind (engine kind) = some kind
error_kind (fork _) = some unexpected_base_block
error_kind unkinded = none

pub data Result {ℓ} (A : Type ℓ) : Type ℓ where
  ok : A → Result A
  err : Error → Result A

-- `?`: an error leaves the function, and a value goes on.
infixl 5 ◌>>=◌
abbrev pub ◌>>=◌ {ℓ κ} : {A : Type ℓ} {B : Type κ} → Result A → (A → Result B) → Result B
◌>>=◌ (ok value) next = next value
◌>>=◌ (err why) next = err why

-- `engine_ensure!`
abbrev pub ensure : Bool → ErrorKind → Result (Unit {0})
ensure true kind = ok tt
ensure false kind = err (engine kind)

-- `Option::ok_or_else`
abbrev pub ok_or {ℓ} : {A : Type ℓ} → Option A → ErrorKind → Result A
ok_or (some a) kind = ok a
ok_or none kind = err (engine kind)

-- `map` of a fallible step over an iterator, collected into a `Result`: the first error stops it.
abbrev pub collect {ℓ κ} : {A : Type ℓ} {B : Type κ} → (A → Result B) → List A → Result (List B)
collect f [] = ok []
collect f (x ∷ xs) = f x >>= λ y. collect f xs >>= λ ys. ok (y ∷ ys)

-- A check before the rest of a function.
infixl 5 ◌>>◌
abbrev pub ◌>>◌ {κ} : {B : Type κ} → Result (Unit {0}) → Result B → Result B
◌>>◌ (ok _) rest = rest
◌>>◌ (err why) rest = err why
