-- ===== src/Predicate/Column.antt =====
-- Filters on one column of src/scan/predicate.rs, on plain arrays, dictionaries and lists: the masks.
use sqd_query_engine.Prelude.{
  ℕ, ◌-◌, ◌^◌, Bool, true, false, ◌&&◌, not, List, [], ◌∷◌, map, if◌then◌else◌, any, length,
  range_from, get_elem?, Option, none, some, ltb,
}
use sqd_query_engine.Prelude.Int.{ℤ, pos, negsuc}
use sqd_query_engine.Arrow.{element_type, DataType, Column}
use sqd_query_engine.Integers.{is_integer}
use sqd_query_engine.Join.Semi.{is_text}
use sqd_query_engine.Predicate.Mask.{
  BooleanArray, Mask, masked, unsupported, Expected, all_rows, or_all, or_unsupported,
}
use sqd_query_engine.Predicate.Mask.Expected.{a_list_of_integers, a_list_of_strings}
use sqd_query_engine.Predicate.Scalar.{ScalarValue, boolean, text}
use sqd_query_engine.Predicate.Value.{
  FilterList, strings, integers, byte_strings, other_list, lists, lists_key, equal_mask,
  in_list_mask, compare_mask,
}
use sqd_query_engine.Predicate.Bloom.{BloomFilterPredicate, bloom_mask}
use sqd_query_engine.Predicate.InSet.{InSetPredicate, in_set_mask}

-- `&dyn Array`: a plain array; the values of a dictionary and the key of each row; or the
-- elements of a list, at 64-bit offsets or not, with the first and the last of each row.
pub data Array : Type 0 where
  plain : Column → Array
  dictionary : Array → List (Option ℕ) → Array
  list_array : Bool → Column → List (Option (ℕ × ℕ)) → Array

unfoldable pub array_len : Array → ℕ
array_len (plain c) = c.len
array_len (dictionary values keys) = length keys
array_len (list_array large elements rows) = length rows

unfoldable pub array_type : Array → DataType
array_type (plain c) = c.data_type
array_type (dictionary values keys) = DataType.dictionary (array_type values)
array_type (list_array true elements rows) = DataType.large_list elements.data_type
array_type (list_array false elements rows) = DataType.list elements.data_type

-- The hashes and the rendering that libraries give.
pub record Libraries : Type 0 where
  pub xxh3 : ℕ → List ℕ → ℕ
  pub xxh3_64 : List ℕ → ℕ
  pub hex_encode : List ℕ → List ℕ

-- The predicates that compare a column's values.
pub data ValuePredicate : Type 0 where
  equal : ScalarValue → ValuePredicate
  in_list : FilterList → ValuePredicate
  bloom_filter : BloomFilterPredicate → ValuePredicate
  in_set : InSetPredicate → ValuePredicate
  range_gte range_lte : ScalarValue → ValuePredicate

-- `ListContainsAnyPredicate`, which has one of the two sets.
pub data ElementSet : Type 0 where
  u32_set : List ℕ → ElementSet
  string_set : List (List ℕ) → ElementSet

-- `dyn ArrayPredicate`, and the parts of an `AnyOfPredicate`.
mutual
  pub data ArrayPredicate : Type 0 where
    on_value : ValuePredicate → ArrayPredicate
    list_contains_any : ElementSet → ArrayPredicate
    never : ArrayPredicate
    any_of : Parts → ArrayPredicate

  pub data Parts : Type 0 where
    no_parts : Parts
    part : ArrayPredicate → Parts → Parts

-- `through_dictionary` of the mask of its values: a null key and a null value are false. A
-- dictionary's keys index its values.
unfoldable pub taken : BooleanArray → Option ℕ → Option Bool
taken mask none = some false
taken mask (some key) = elim (get_elem? mask key) [
  | none ↦ some false
  | some answer ↦ elim answer [ none ↦ some false | some b ↦ some b ]
]

unfoldable pub through_dictionary : Mask → List (Option ℕ) → Mask
unfolding taken
through_dictionary (masked mask) keys = masked (map (taken mask) keys)
through_dictionary (unsupported e) keys = unsupported e

-- `u32::try_from(v).is_ok_and(|v| set.contains(&v))`
unfoldable pub has_u32 : List ℕ → ℤ → Bool
unfolding lists_key
has_u32 ids (pos n) = ltb n (2 ^ 32) && lists_key ids n
has_u32 ids (negsuc n) = false

unfoldable pub expected : ElementSet → Expected
expected (u32_set _) = a_list_of_integers
expected (string_set _) = a_list_of_strings

-- Whether the element at a place is one of the set.
unfoldable pub element_listed : ElementSet → Column → ℕ → Bool
unfolding has_u32 lists
element_listed (u32_set ids) elements j =
    not (elements.is_null j) && has_u32 ids (elements.int_value j)
element_listed (string_set values) elements j =
    not (elements.is_null j) && lists values (elements.text_value j)

unfoldable pub reads_elements : ElementSet → DataType → Bool
reads_elements (u32_set _) element_type = is_integer element_type
reads_elements (string_set _) element_type = is_text element_type

unfoldable pub list_answer : ElementSet → Column → Option (ℕ × ℕ) → Option Bool
unfolding element_listed
list_answer wanted elements none = some false
list_answer wanted elements (some (first, end)) =
    some (any (element_listed wanted elements) (range_from first (end - first)))

-- `ListContainsAnyPredicate::evaluate` and `evaluate_list`
unfoldable pub evaluate_list : ElementSet → Array → Mask
unfolding list_answer reads_elements expected array_type
evaluate_list wanted (list_array large elements rows) =
    or_unsupported
      (if reads_elements wanted elements.data_type
        then some (map (list_answer wanted elements) rows)
        else none)
      (expected wanted) (array_type (list_array large elements rows))
evaluate_list wanted (plain c) = or_unsupported none (expected wanted) c.data_type
evaluate_list wanted (dictionary values keys) =
    or_unsupported none (expected wanted) (array_type (dictionary values keys))

-- What a predicate on values expects, for the message on a list.
unfoldable pub expected_value : ValuePredicate → Expected
expected_value (equal (boolean _)) = Expected.a_boolean
expected_value (equal (text _)) = Expected.a_string
expected_value (equal _) = Expected.an_integer
expected_value (in_list (strings _)) = Expected.a_list_of_strings
expected_value (in_list (integers _)) = Expected.a_list_of_integers
expected_value (in_list (byte_strings _)) = Expected.a_list_of_byte_strings
expected_value (in_list other_list) = Expected.a_filter_list
expected_value (bloom_filter _) = Expected.a_bloom_filter
expected_value (in_set _) = Expected.a_set
expected_value (range_gte (text _)) = Expected.a_text_threshold
expected_value (range_gte (boolean _)) = Expected.a_range_threshold
expected_value (range_gte _) = Expected.an_integer_threshold
expected_value (range_lte (text _)) = Expected.a_text_threshold
expected_value (range_lte (boolean _)) = Expected.a_range_threshold
expected_value (range_lte _) = Expected.an_integer_threshold

module _ (lib : Libraries) where
  unfoldable pub value_mask : ValuePredicate → Column → Mask
  unfolding equal_mask in_list_mask bloom_mask in_set_mask compare_mask
  value_mask (equal value) c = equal_mask c value
  value_mask (in_list values) c = in_list_mask c values
  value_mask (bloom_filter predicate) c = bloom_mask lib.xxh3 c predicate
  value_mask (in_set predicate) c = in_set_mask lib.xxh3_64 lib.hex_encode c predicate
  value_mask (range_gte limit) c = compare_mask c limit true
  value_mask (range_lte limit) c = compare_mask c limit false

  unfoldable pub evaluate_value : ValuePredicate → Array → Mask
  unfolding value_mask through_dictionary expected_value array_type
  evaluate_value p (plain c) = value_mask p c
  evaluate_value p (dictionary values keys) = through_dictionary (evaluate_value p values) keys
  evaluate_value p (list_array large elements rows) =
      or_unsupported none (expected_value p) (array_type (list_array large elements rows))

  -- `ArrayPredicate::evaluate`
  unfoldable mutual
    unfolding evaluate_value evaluate_list

    pub evaluate : ArrayPredicate → Array → Mask
    evaluate (on_value p) a = evaluate_value p a
    evaluate (list_contains_any wanted) a = evaluate_list wanted a
    evaluate never a = masked (all_rows (array_len a) false)
    evaluate (any_of parts) a = or_all (array_len a) (part_masks parts a)

    pub part_masks : Parts → Array → List Mask
    part_masks no_parts a = []
    part_masks (part p parts) a = evaluate p a ∷ part_masks parts a
