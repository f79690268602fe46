-- ===== src/Predicate/Scalar.antt =====
-- Scalars, statistics and thresholds of src/scan/predicate.rs.
use sqd_query_engine.Prelude.{
  ℕ, ◌-◌, ◌^◌, Bool, true, false, ◌||◌, not, Option, none, some, List, [], ◌∷◌, ◌==◌, if◌then◌else◌,
  any, all,
}
use sqd_query_engine.Prelude.Int.{ℤ, pos, leb_ℤ, ltb_ℤ}
use sqd_query_engine.Prelude.Words.{as_signed, neg_ℕ}
use sqd_query_engine.Arrow.{DataType, Column, utf8}
use sqd_query_engine.Integers.{
  width_of, is_integer, stored_key, declared_value, IntValues, unsigned, signed, is_signed,
  stored_keys,
}
use sqd_query_engine.Predicate.Order.{ltb_bytes}

-- A string is its bytes.
pub data ScalarValue : Type 0 where
  boolean : Bool → ScalarValue
  uint8 uint16 uint32 uint64 : ℕ → ScalarValue
  int16 int64 : ℤ → ScalarValue
  text : List ℕ → ScalarValue

unfoldable pub as_ints : ScalarValue → Option IntValues
as_ints (boolean _) = none
as_ints (uint8 v) = some (unsigned (v ∷ []))
as_ints (uint16 v) = some (unsigned (v ∷ []))
as_ints (uint32 v) = some (unsigned (v ∷ []))
as_ints (uint64 v) = some (unsigned (v ∷ []))
as_ints (int16 v) = some (signed (v ∷ []))
as_ints (int64 v) = some (signed (v ∷ []))
as_ints (text _) = none

-- `(min, max)` of a row group's column, in the value space of the stored type.
pub data StatRange : Type 0 where
  ints : DataType → ℤ → ℤ → StatRange
  texts : List ℕ → List ℕ → StatRange

unfoldable pub stat_int : Column → DataType → Option ℤ
stat_int stat stored = elim (width_of stored) [
  | none ↦ none
  | some (bits, stored_signed) ↦
      if is_integer stat.data_type
      then (if stat.len == 0
          then none
          else some (declared_value (stat.int_value 0) bits stored_signed))
      else none
]

-- Whether the array is a `StringArray`.
unfoldable pub is_utf8 : DataType → Bool
is_utf8 utf8 = true
is_utf8 _ = false

unfoldable pub stat_text : Column → Option (List ℕ)
stat_text stat =
    if is_utf8 stat.data_type
    then (if stat.len == 0 then none else some (stat.text_value 0))
    else none

-- `StatRange::new`
unfoldable pub stat_range : DataType → Column → Column → Option StatRange
stat_range stored low high =
    if is_integer stored
    then elim (stat_int low stored) [
      | none ↦ none
      | some a ↦ elim (stat_int high stored) [ none ↦ none | some b ↦ some (ints stored a b) ]
    ]
    else elim (stat_text low) [
      | none ↦ none
      | some a ↦ elim (stat_text high) [ none ↦ none | some b ↦ some (texts a b) ]
    ]

-- `key as i64 as i128`, or `key as i128`
unfoldable pub key_value : ℕ → Bool → ℤ
key_value key key_signed = if key_signed then as_signed 64 key else pos key

unfoldable pub keys_outside : List ℕ → DataType → ℤ → ℤ → Option Bool
unfolding key_value
keys_outside keys stored low high = elim (width_of stored) [
  | none ↦ none
  | some (bits, stored_signed) ↦ some (
      all
        (λ key. ltb_ℤ (key_value key stored_signed) low || ltb_ℤ high (key_value key stored_signed))
        keys)
]

unfoldable pub ints_outside : IntValues → DataType → ℤ → ℤ → Option Bool
unfolding keys_outside
ints_outside values stored low high = elim (stored_keys values stored) [
  | none ↦ none
  | some keys ↦ keys_outside keys stored low high
]

unfoldable pub ints_hold : IntValues → DataType → ℤ → Option Bool
ints_hold values stored value = elim (stored_keys values stored) [
  | none ↦ none
  | some keys ↦ some (any (λ listed. listed == stored_key value) keys)
]

pub data Threshold : Type 0 where
  below above : Threshold
  within : ℤ → Threshold
  reinterpreted : ℤ → ℕ → Bool → Threshold

-- `v[0]`; a threshold has one value, and of none the code would panic.
unfoldable pub first_value : IntValues → ℤ
first_value (unsigned []) = pos 0
first_value (unsigned (v ∷ _)) = pos v
first_value (signed []) = pos 0
first_value (signed (v ∷ _)) = v

-- The least and the greatest value of a width.
unfoldable pub least : ℕ → Bool → ℤ
least bits true = neg_ℕ (2 ^ (bits - 1))
least bits false = pos 0

unfoldable pub greatest : ℕ → Bool → ℤ
greatest bits true = pos (2 ^ (bits - 1) - 1)
greatest bits false = pos (2 ^ bits - 1)

unfoldable pub same_sign : Bool → Bool → Bool
same_sign true b = b
same_sign false b = not b

-- `Threshold::new`
unfoldable pub threshold : IntValues → DataType → Option Threshold
unfolding first_value same_sign
threshold values stored = elim (width_of stored) [
  | none ↦ none
  | some (bits, stored_signed) ↦ some (
      let value = first_value values in
      if same_sign (is_signed values) stored_signed
      then (if ltb_ℤ value (least bits stored_signed)
          then below
          else if ltb_ℤ (greatest bits stored_signed) value
          then above
          else within value)
      else reinterpreted value bits (is_signed values))
]

-- Whether a threshold at the stored width lies past one end of `[low, high]`.
unfoldable pub past : Threshold → ℤ → ℤ → Bool → Bool
past below low high gte = not gte
past above low high gte = gte
past (within value) low high gte = if gte then ltb_ℤ high value else ltb_ℤ value low
past (reinterpreted _ _ _) low high gte = false

unfoldable pub past_or_not : Option Threshold → ℤ → ℤ → Bool → Bool
unfolding past
past_or_not none low high gte = false
past_or_not (some t) low high gte = past t low high gte

unfoldable pub ints_past : Option IntValues → DataType → ℤ → ℤ → Bool → Bool
unfolding past_or_not
ints_past none stored low high gte = false
ints_past (some values) stored low high gte = past_or_not (threshold values stored) low high gte

unfoldable pub range_outside : ScalarValue → StatRange → Bool → Bool
unfolding as_ints ints_past
range_outside (text v) (texts low high) gte = if gte then ltb_bytes high v else ltb_bytes v low
range_outside (text v) (ints stored low high) gte = false
range_outside (boolean _) stats gte = false
range_outside value (texts low high) gte = false
range_outside value (ints stored low high) gte = ints_past (as_ints value) stored low high gte

-- `value >= threshold` or `value <= threshold`
unfoldable pub at_threshold : Bool → ℤ → ℤ → Bool
at_threshold gte value limit = if gte then leb_ℤ limit value else leb_ℤ value limit

unfoldable pub text_at_threshold : Bool → List ℕ → List ℕ → Bool
text_at_threshold gte value limit =
    if gte then not (ltb_bytes value limit) else not (ltb_bytes limit value)
