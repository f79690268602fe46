-- ===== src/Predicate/Value.antt =====
-- The filters of src/scan/predicate.rs on the values of one column: a list, a bloom filter, sets,
-- and a range. The hashes and the rendering of bytes as hex are libraries' and stand as parameters.
use sqd_query_engine.Prelude.{
  ℕ, Bool, true, false, not, Option, none, some, List, [], ◌∷◌, ◌==◌, if◌then◌else◌, any,
}
use sqd_query_engine.Arrow.{DataType, Column}
use sqd_query_engine.Arrow.DataType.{binary, large_binary, fixed_size_binary}
use sqd_query_engine.Integers.{is_integer, stored_key, declared_value, IntValues, stored_keys}
use sqd_query_engine.Join.{same}
use sqd_query_engine.Join.Semi.{is_text}
use sqd_query_engine.Predicate.Mask.{
  BooleanArray, Mask, Expected, mask_nullable, mask_definite, constant, or_unsupported,
}
use sqd_query_engine.Predicate.Mask.Expected.{
  a_boolean, a_string, an_integer, a_list_of_strings, a_list_of_integers, a_list_of_byte_strings,
  a_filter_list, a_text_threshold, a_range_threshold, an_integer_threshold,
}
use sqd_query_engine.Predicate.Scalar.{
  ScalarValue, boolean, text, as_ints, below, above, within, reinterpreted, Threshold, threshold,
  at_threshold, text_at_threshold,
}

-- The values of `InListPredicate`, typed by the catalog's declared type.
pub data FilterList : Type 0 where
  strings : List (List ℕ) → FilterList
  integers : IntValues → FilterList
  byte_strings : List (List ℕ) → FilterList
  other_list : FilterList

-- `is_some_and` of a test by a list of bytes
unfoldable pub lists : List (List ℕ) → List ℕ → Bool
lists values value = any (λ v. same v value) values

unfoldable pub lists_key : List ℕ → ℕ → Bool
lists_key keys key = any (λ k. k == key) keys

unfoldable pub is_binary : DataType → Bool
is_binary binary = true
is_binary large_binary = true
is_binary (fixed_size_binary _) = true
is_binary _ = false

unfoldable pub is_boolean : DataType → Bool
is_boolean DataType.boolean = true
is_boolean _ = false

unfoldable pub in_list_int : Column → List ℕ → Option BooleanArray
unfolding lists_key mask_nullable
in_list_int c keys =
    if is_integer c.data_type
    then some (mask_nullable c (λ i. lists_key keys (stored_key (c.int_value i))))
    else none

unfoldable pub in_list_text : Column → List (List ℕ) → Option BooleanArray
unfolding lists mask_nullable
in_list_text c values =
    if is_text c.data_type
    then some (mask_nullable c (λ i. lists values (c.text_value i)))
    else none

unfoldable pub in_list_bytes : Column → List (List ℕ) → Option BooleanArray
unfolding lists mask_definite
in_list_bytes c values =
    if is_binary c.data_type
    then some (mask_definite c (λ i. lists values (c.bytes_value i)))
    else none

-- The keys at the stored width, or why the column has none.
unfoldable pub in_ints : Column → IntValues → Expected → Mask
unfolding in_list_int
in_ints c values expected = elim (stored_keys values c.data_type) [
  | none ↦ or_unsupported none expected c.data_type
  | some keys ↦ or_unsupported (in_list_int c keys) expected c.data_type
]

-- `EqPredicate::evaluate`, past the dictionary.
unfoldable pub equal_mask : Column → ScalarValue → Mask
unfolding in_list_int in_list_text in_ints
equal_mask c (boolean v) =
    if is_boolean c.data_type
    then Mask.masked (mask_nullable c (λ i. if v then c.bool_value i else not (c.bool_value i)))
    else or_unsupported (in_list_int c ((if v then 1 else 0) ∷ [])) a_boolean c.data_type
equal_mask c (text v) = or_unsupported (in_list_text c (v ∷ [])) a_string c.data_type
equal_mask c value = elim (as_ints value) [
  | none ↦ or_unsupported none an_integer c.data_type
  | some values ↦ in_ints c values an_integer
]

-- `InListPredicate::evaluate`, past the dictionary.
unfoldable pub in_list_mask : Column → FilterList → Mask
unfolding in_list_text in_ints in_list_bytes
in_list_mask c (strings values) =
    or_unsupported (in_list_text c values) a_list_of_strings c.data_type
in_list_mask c (integers values) = in_ints c values a_list_of_integers
in_list_mask c (byte_strings values) =
    or_unsupported (in_list_bytes c values) a_list_of_byte_strings c.data_type
in_list_mask c other_list = or_unsupported none a_filter_list c.data_type

-- The arms of `compare_int`: `CompareStored` and `CompareDeclared` run over the rows.
unfoldable pub threshold_mask : Column → Option Threshold → Bool → Option BooleanArray
unfolding mask_nullable constant at_threshold
threshold_mask c none gte = none
threshold_mask c (some below) gte = some (constant c gte)
threshold_mask c (some above) gte = some (constant c (not gte))
threshold_mask c (some (within limit)) gte =
    some (mask_nullable c (λ i. at_threshold gte (c.int_value i) limit))
threshold_mask c (some (reinterpreted limit bits declared_signed)) gte = some (
    mask_nullable c
      (λ i. at_threshold gte (declared_value (c.int_value i) bits declared_signed) limit))

unfoldable pub compare_int : Column → IntValues → Bool → Option BooleanArray
unfolding threshold threshold_mask
compare_int c values gte =
    if is_integer c.data_type then threshold_mask c (threshold values c.data_type) gte else none

unfoldable pub compare_text : Column → List ℕ → Bool → Option BooleanArray
unfolding mask_nullable text_at_threshold
compare_text c limit gte =
    if is_text c.data_type
    then some (mask_nullable c (λ i. text_at_threshold gte (c.text_value i) limit))
    else none

-- `compare`
unfoldable pub compare_mask : Column → ScalarValue → Bool → Mask
unfolding compare_int compare_text as_ints
compare_mask c (text v) gte = or_unsupported (compare_text c v gte) a_text_threshold c.data_type
compare_mask c (boolean _) gte = or_unsupported none a_range_threshold c.data_type
compare_mask c value gte = elim (as_ints value) [
  | none ↦ or_unsupported none an_integer_threshold c.data_type
  | some values ↦ or_unsupported (compare_int c values gte) an_integer_threshold c.data_type
]
