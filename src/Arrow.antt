-- ===== src/Arrow.antt =====
-- What the engine reads of Arrow, which is not part of the repository: an array is the values of
-- the accessors that the code calls, and a batch names its columns. What the code relies on stands in
-- the hypotheses of the theorems.
use Prim.Native.String.{String}
use sqd_query_engine.Prelude.{ℕ, Bool, Option, none, some, List}
use sqd_query_engine.Prelude.Int.{ℤ}

-- `arrow::datatypes::DataType`, as far as the code tells its variants apart.
pub data DataType : Type 0 where
  uint64 uint32 uint16 uint8 int64 int32 int16 int8 : DataType
  utf8 large_utf8 utf8_view boolean binary large_binary : DataType
  fixed_size_binary : ℕ → DataType
  list large_list dictionary : DataType → DataType
  other : ℕ → DataType

-- The element type of `GenericListArray<i32>`.
unfoldable pub element_type : DataType → Option DataType
element_type (list item) = some item
element_type _ = none

-- `&dyn Array`: what each accessor answers at a row, where the array has the type for it. A slot
-- holds a value also where the row is null.
pub record Column : Type 0 where
  pub data_type : DataType
  pub len : ℕ
  pub is_null : ℕ → Bool
  pub int_value : ℕ → ℤ
  pub text_value : ℕ → List ℕ
  pub bool_value : ℕ → Bool
  pub bytes_value : ℕ → List ℕ
  pub list_value : ℕ → List ℤ

-- `RecordBatch`; a name that the schema lacks has no index.
pub record RecordBatch : Type 0 where
  pub num_rows : ℕ
  pub index_of : String → Option ℕ
  pub column : ℕ → Column

unfoldable pub column_by_name : RecordBatch → String → Option Column
column_by_name batch name = elim (batch.index_of name) [
  | none ↦ none
  | some i ↦ some (batch.column i)
]
