-- ===== src/Predicate/Skip.antt =====
-- What the statistics of a row group prove of a column's filter in src/scan/predicate.rs. A cache of
-- sorted values is computed anew here.
use sqd_query_engine.Prelude.{Bool, true, false, ◌&&◌, ◌||◌, List, map, Option, none, some}
use sqd_query_engine.Prelude.Int.{ℤ, ltb_ℤ, eqb_ℤ}
use sqd_query_engine.Arrow.{DataType}
use sqd_query_engine.Integers.{width_of, stored_key, IntValues, stored_keys}
use sqd_query_engine.Join.{same}
use sqd_query_engine.Predicate.Order.{ltb_bytes, sort, none_within}
use sqd_query_engine.Predicate.Scalar.{
  ScalarValue, boolean, text, as_ints, StatRange, ints, texts, key_value, ints_outside, ints_hold,
  range_outside,
}
use sqd_query_engine.Predicate.Value.{FilterList, strings, integers, lists, lists_key}
use sqd_query_engine.Predicate.Column.{
  ValuePredicate, equal, in_list, bloom_filter, in_set, range_gte, range_lte, ArrayPredicate,
  on_value, list_contains_any, never, any_of, Parts, no_parts, part,
}

-- `EqPredicate::can_skip`
unfoldable pub equal_can_skip : ScalarValue → StatRange → Bool
unfolding as_ints ints_outside
equal_can_skip (text v) (texts low high) = ltb_bytes v low || ltb_bytes high v
equal_can_skip (text v) (ints stored low high) = false
equal_can_skip (boolean _) stats = false
equal_can_skip value (texts low high) = false
equal_can_skip value (ints stored low high) = elim (as_ints value) [
  | none ↦ false
  | some values ↦ elim (ints_outside values stored low high) [ none ↦ false | some b ↦ b ]
]

-- `sorted_values_at`, of the keys at the stored width.
unfoldable pub sorted_values_at : IntValues → DataType → Option (List ℤ)
unfolding key_value sort
sorted_values_at values stored = elim (width_of stored) [
  | none ↦ none
  | some (bits, stored_signed) ↦ elim (stored_keys values stored) [
    | none ↦ none
    | some keys ↦ some (sort ltb_ℤ (map (λ key. key_value key stored_signed) keys))
  ]
]

-- `InListPredicate::can_skip`; the text sorted here are the values, not their positions.
unfoldable pub in_list_can_skip : FilterList → StatRange → Bool
unfolding sort none_within sorted_values_at
in_list_can_skip (strings values) (texts low high) =
    none_within (λ v. ltb_bytes v low) (λ v. ltb_bytes high v) (sort ltb_bytes values)
in_list_can_skip (integers values) (ints stored low high) = elim (sorted_values_at values stored) [
  | none ↦ false
  | some sorted ↦ none_within (λ v. ltb_ℤ v low) (λ v. ltb_ℤ high v) sorted
]
in_list_can_skip _ stats = false

unfoldable pub value_can_skip : ValuePredicate → StatRange → Bool
unfolding equal_can_skip in_list_can_skip range_outside
value_can_skip (equal value) stats = equal_can_skip value stats
value_can_skip (in_list values) stats = in_list_can_skip values stats
value_can_skip (bloom_filter _) stats = false
value_can_skip (in_set _) stats = false
value_can_skip (range_gte limit) stats = range_outside limit stats true
value_can_skip (range_lte limit) stats = range_outside limit stats false

-- `ArrayPredicate::can_skip`
unfoldable mutual
  unfolding value_can_skip

  pub can_skip : ArrayPredicate → StatRange → Bool
  can_skip (on_value p) stats = value_can_skip p stats
  can_skip (list_contains_any _) stats = false
  can_skip never stats = true
  can_skip (any_of parts) stats = all_can_skip parts stats

  pub all_can_skip : Parts → StatRange → Bool
  all_can_skip no_parts stats = true
  all_can_skip (part p parts) stats = can_skip p stats && all_can_skip parts stats

-- `EqPredicate::matches_every_value`
unfoldable pub equal_matches : ScalarValue → StatRange → Bool
unfolding as_ints ints_hold
equal_matches (text v) (texts low high) = same low high && same v low
equal_matches (text v) (ints stored low high) = false
equal_matches (boolean _) stats = false
equal_matches value (texts low high) = false
equal_matches value (ints stored low high) = elim (as_ints value) [
  | none ↦ false
  | some values ↦ eqb_ℤ low high && elim (ints_hold values stored low) [ none ↦ false | some b ↦ b ]
]

-- `InListPredicate::matches_every_value`
unfoldable pub in_list_matches : FilterList → StatRange → Bool
unfolding lists lists_key
in_list_matches (strings values) (texts low high) = same low high && lists values low
in_list_matches (integers values) (ints stored low high) =
    eqb_ℤ low high && elim (stored_keys values stored) [
      | none ↦ false
      | some keys ↦ lists_key keys (stored_key low)
    ]
in_list_matches _ stats = false

-- `ArrayPredicate::matches_every_value`
unfoldable mutual
  unfolding equal_matches in_list_matches

  pub matches_every_value : ArrayPredicate → StatRange → Bool
  matches_every_value (on_value (equal value)) stats = equal_matches value stats
  matches_every_value (on_value (in_list values)) stats = in_list_matches values stats
  matches_every_value (any_of parts) stats = any_matches_every_value parts stats
  matches_every_value _ stats = false

  pub any_matches_every_value : Parts → StatRange → Bool
  any_matches_every_value no_parts stats = false
  any_matches_every_value (part p parts) stats =
      matches_every_value p stats || any_matches_every_value parts stats
