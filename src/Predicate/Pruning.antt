-- ===== src/Predicate/Pruning.antt =====
-- No filter of src/scan/predicate.rs skips a row group that has a row it keeps.
use sqd_query_engine.Prelude.{
  ℕ, zero, suc, Bool, true, false, List, [], ◌∷◌, map, any, get_elem?, Option, none, some, ◌≡◌,
  arith, refl, ◌∙◌, &&_iff,
}
use sqd_query_engine.Arrow.{Column}
use sqd_query_engine.Predicate.Mask.{
  BooleanArray, Mask, masked, unsupported, or_unsupported, kept, keeps, answers_true,
}
use sqd_query_engine.Predicate.Kept.{keeps-or_all, kept-all_rows}
use sqd_query_engine.Predicate.Scalar.{
  ScalarValue, boolean, uint8, uint16, uint32, uint64, int16, int64, text, as_ints, StatRange, ints,
  texts, ints_past, range_outside,
}
use sqd_query_engine.Predicate.Value.{
  FilterList, strings, integers, byte_strings, other_list, equal_mask, in_list_mask, compare_mask,
}
use sqd_query_engine.Predicate.Column.{
  Array, plain, dictionary, list_array, array_len, Libraries, ValuePredicate, equal, in_list,
  bloom_filter, in_set, range_gte, range_lte, ArrayPredicate, on_value, list_contains_any, never,
  any_of, Parts, no_parts, part, through_dictionary, taken, value_mask, evaluate_value, evaluate,
  part_masks,
}
use sqd_query_engine.Predicate.Skip.{
  equal_can_skip, in_list_can_skip, value_can_skip, can_skip, all_can_skip,
}
use sqd_query_engine.Predicate.Pruned.{
  equal_ints-none, in_list_ints-none, equal_text-none, in_list_text-none, range_text-none,
  range_ints-none,
}
use sqd_query_engine.Predicate.Outside.{Holds, Within}

module _ (lib : Libraries) (c : Column) (i : ℕ) where
  -- `EqPredicate`
  equal-none :
      (v : ScalarValue) (stats : StatRange)
      → equal_can_skip v stats ≡ true
      → (c.is_null i ≡ false → Holds stats c i)
      → keeps (equal_mask c v) i ≡ false
  unfolding equal_mask equal_can_skip as_ints
  equal-none (boolean v) stats skip inside = absurd (ground arith)
  equal-none (text v) (texts low high) skip inside = equal_text-none c i v low high skip inside
  equal-none (text v) (ints stored low high) skip inside = absurd (ground arith)
  equal-none (uint8 v) (ints stored low high) skip inside =
      equal_ints-none c i _ stored low high skip inside
  equal-none (uint16 v) (ints stored low high) skip inside =
      equal_ints-none c i _ stored low high skip inside
  equal-none (uint32 v) (ints stored low high) skip inside =
      equal_ints-none c i _ stored low high skip inside
  equal-none (uint64 v) (ints stored low high) skip inside =
      equal_ints-none c i _ stored low high skip inside
  equal-none (int16 v) (ints stored low high) skip inside =
      equal_ints-none c i _ stored low high skip inside
  equal-none (int64 v) (ints stored low high) skip inside =
      equal_ints-none c i _ stored low high skip inside
  equal-none (uint8 v) (texts low high) skip inside = absurd (ground arith)
  equal-none (uint16 v) (texts low high) skip inside = absurd (ground arith)
  equal-none (uint32 v) (texts low high) skip inside = absurd (ground arith)
  equal-none (uint64 v) (texts low high) skip inside = absurd (ground arith)
  equal-none (int16 v) (texts low high) skip inside = absurd (ground arith)
  equal-none (int64 v) (texts low high) skip inside = absurd (ground arith)

  -- `InListPredicate`
  in_list-none :
      (values : FilterList) (stats : StatRange)
      → in_list_can_skip values stats ≡ true
      → (c.is_null i ≡ false → Holds stats c i)
      → keeps (in_list_mask c values) i ≡ false
  unfolding in_list_mask in_list_can_skip
  in_list-none (strings values) (texts low high) skip inside =
      in_list_text-none c i values low high skip inside
  in_list-none (integers values) (ints stored low high) skip inside =
      in_list_ints-none c i values stored low high skip inside
  in_list-none (strings values) (ints stored low high) skip inside = absurd (ground arith)
  in_list-none (integers values) (texts low high) skip inside = absurd (ground arith)
  in_list-none (byte_strings values) stats skip inside = absurd (ground arith)
  in_list-none other_list stats skip inside = absurd (ground arith)

  -- The two ranges.
  range-none :
      (gte : Bool) (v : ScalarValue) (stats : StatRange)
      → range_outside v stats gte ≡ true
      → (c.is_null i ≡ false → Holds stats c i)
      → keeps (compare_mask c v gte) i ≡ false
  unfolding compare_mask range_outside as_ints ints_past
  range-none gte (boolean v) stats skip inside = absurd (ground arith)
  range-none gte (text v) (texts low high) skip inside =
      range_text-none c i gte v low high skip inside
  range-none gte (text v) (ints stored low high) skip inside = absurd (ground arith)
  range-none gte (uint8 v) (ints stored low high) skip inside =
      range_ints-none c i gte _ stored low high skip inside
  range-none gte (uint16 v) (ints stored low high) skip inside =
      range_ints-none c i gte _ stored low high skip inside
  range-none gte (uint32 v) (ints stored low high) skip inside =
      range_ints-none c i gte _ stored low high skip inside
  range-none gte (uint64 v) (ints stored low high) skip inside =
      range_ints-none c i gte _ stored low high skip inside
  range-none gte (int16 v) (ints stored low high) skip inside =
      range_ints-none c i gte _ stored low high skip inside
  range-none gte (int64 v) (ints stored low high) skip inside =
      range_ints-none c i gte _ stored low high skip inside
  range-none gte (uint8 v) (texts low high) skip inside = absurd (ground arith)
  range-none gte (uint16 v) (texts low high) skip inside = absurd (ground arith)
  range-none gte (uint32 v) (texts low high) skip inside = absurd (ground arith)
  range-none gte (uint64 v) (texts low high) skip inside = absurd (ground arith)
  range-none gte (int16 v) (texts low high) skip inside = absurd (ground arith)
  range-none gte (int64 v) (texts low high) skip inside = absurd (ground arith)

  plain-none :
      (p : ValuePredicate) (stats : StatRange)
      → value_can_skip p stats ≡ true
      → (c.is_null i ≡ false → Holds stats c i)
      → keeps (value_mask lib p c) i ≡ false
  unfolding value_mask value_can_skip
  plain-none (equal v) stats skip inside = equal-none v stats skip inside
  plain-none (in_list values) stats skip inside = in_list-none values stats skip inside
  plain-none (bloom_filter _) stats skip inside = absurd (ground arith)
  plain-none (in_set _) stats skip inside = absurd (ground arith)
  plain-none (range_gte v) stats skip inside = range-none true v stats skip inside
  plain-none (range_lte v) stats skip inside = range-none false v stats skip inside

-- What a row's key takes of a dictionary's mask.
abbrev pub kept_at_key : BooleanArray → Option (Option ℕ) → Bool
kept_at_key mask (some (some key)) = kept mask key
kept_at_key mask _ = false

answers_true-taken :
    (answer : Option (Option Bool))
    → answers_true (
        some (elim answer [
          | none ↦ some false
          | some answer ↦ elim answer [ none ↦ some false | some b ↦ some b ]
        ]))
      ≡ answers_true answer
answers_true-taken none = refl
answers_true-taken (some none) = refl
answers_true-taken (some (some true)) = refl
answers_true-taken (some (some false)) = refl

pub kept-taken :
    (mask : BooleanArray) (keys : List (Option ℕ)) (i : ℕ)
    → kept (map (taken mask) keys) i ≡ kept_at_key mask (get_elem? keys i)
unfolding taken
kept-taken mask [] i = refl
kept-taken mask (none ∷ keys) zero = refl
kept-taken mask (some key ∷ keys) zero = answers_true-taken (get_elem? mask key)
kept-taken mask (key ∷ keys) (suc i) = kept-taken mask keys i

kept_at_key-none :
    (mask : BooleanArray) (key : Option (Option ℕ))
    → ((k : ℕ) → key ≡ some (some k) → kept mask k ≡ false)
    → kept_at_key mask key ≡ false
kept_at_key-none mask none h = refl
kept_at_key-none mask (some none) h = refl
kept_at_key-none mask (some (some k)) h = h k refl

keeps-through_dictionary :
    (mask : Mask) (keys : List (Option ℕ)) (i : ℕ)
    → ((k : ℕ) → get_elem? keys i ≡ some (some k) → keeps mask k ≡ false)
    → keeps (through_dictionary mask keys) i ≡ false
unfolding through_dictionary
keeps-through_dictionary (masked m) keys i h =
    kept-taken m keys i ∙ kept_at_key-none m (get_elem? keys i) h
keeps-through_dictionary (unsupported e) keys i h = refl

value-none :
    (lib : Libraries) (p : ValuePredicate) (stats : StatRange) (a : Array) (i : ℕ)
    → value_can_skip p stats ≡ true
    → Within stats a i
    → keeps (evaluate_value lib p a) i ≡ false
unfolding evaluate_value or_unsupported
value-none lib p stats (plain c) i skip inside = plain-none lib c i p stats skip inside
value-none lib p stats (dictionary values keys) i skip inside =
    keeps-through_dictionary (evaluate_value lib p values) keys i
      (λ k e. value-none lib p stats values k skip (inside k e))
value-none lib p stats (list_array large elements rows) i skip inside = refl

mutual
  unfolding evaluate part_masks can_skip all_can_skip

  skipped-none :
      (lib : Libraries) (p : ArrayPredicate) (stats : StatRange) (a : Array) (i : ℕ)
      → can_skip p stats ≡ true
      → Within stats a i
      → keeps (evaluate lib p a) i ≡ false
  skipped-none lib (on_value p) stats a i skip inside = value-none lib p stats a i skip inside
  skipped-none lib (list_contains_any wanted) stats a i skip inside = absurd (ground arith)
  skipped-none lib never stats a i skip inside = kept-all_rows (array_len a) i false ∙ ground arith
  skipped-none lib (any_of parts) stats a i skip inside =
      keeps-or_all (array_len a) i (part_masks lib parts a)
        (all_can_skip-part_masks lib parts stats a i skip inside)

  all_can_skip-part_masks :
      (lib : Libraries) (parts : Parts) (stats : StatRange) (a : Array) (i : ℕ)
      → all_can_skip parts stats ≡ true
      → Within stats a i
      → any (λ x. keeps x i) (part_masks lib parts a) ≡ false
  all_can_skip-part_masks lib no_parts stats a i skip inside = refl
  all_can_skip-part_masks lib (part p parts) stats a i skip inside =
      let both = (&&_iff (can_skip p stats) (all_can_skip parts stats)).0 skip in
      rw
        (
          skipped-none lib p stats a i both.0 inside,
          all_can_skip-part_masks lib parts stats a i both.1 inside,
        )
        refl

-- A filter whose statistics say that a row group can be skipped keeps no row of the group, on
-- plain columns, dictionaries and lists: for every filter on a column and every row whose value,
-- where it has one, is of the stored type and lies inside the statistics, the row's answer is
-- not true.
pub can_skip-evaluate :
    (lib : Libraries) (p : ArrayPredicate) (stats : StatRange) (a : Array) (i : ℕ)
    → can_skip p stats ≡ true
    → Within stats a i
    → keeps (evaluate lib p a) i ≡ false
can_skip-evaluate lib p stats a i skip inside = skipped-none lib p stats a i skip inside
