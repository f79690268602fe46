-- ===== src/Predicate/Matched.antt =====
-- What src/scan/predicate.rs takes as matched by statistics: the filter keeps every row that has a
-- value.
use sqd_query_engine.Prelude.{
  ℕ, Bool, true, false, ◌||◌, List, any, all, get_elem?, Option, some, ◌≡◌, arith, refl, sym, ◌∙◌,
  ap, Bool-cases, inl, inr, &&_iff,
}
use sqd_query_engine.Predicate.Mask.{
  BooleanArray, Mask, masked, unsupported, or_unsupported, or_all, kept, keeps,
}
use sqd_query_engine.Predicate.Kept.{kept-or_all, is_masked, is_masked-or_all, masked-cases}
use sqd_query_engine.Predicate.Scalar.{ScalarValue, StatRange}
use sqd_query_engine.Predicate.Value.{FilterList}
use sqd_query_engine.Predicate.Column.{
  Array, plain, dictionary, list_array, array_len, Libraries, ValuePredicate, equal, in_list,
  bloom_filter, in_set, range_gte, range_lte, ArrayPredicate, on_value, list_contains_any, never,
  any_of, Parts, no_parts, part, through_dictionary, value_mask, evaluate_value, evaluate,
  part_masks,
}
use sqd_query_engine.Predicate.Skip.{
  equal_matches, in_list_matches, matches_every_value, any_matches_every_value,
}
use sqd_query_engine.Predicate.Pruning.{kept-taken, kept_at_key}
use sqd_query_engine.Predicate.Held.{HasValue, equal-kept, in_list-kept}

-- The filters on values that are said to match.
data Matching (stats : StatRange) : ValuePredicate → Type 0 where
  by_equal : {v : ScalarValue} → equal_matches v stats ≡ true → Matching stats (equal v)
  by_list :
      {values : FilterList} → in_list_matches values stats ≡ true → Matching stats (in_list values)

through_dictionary-kept :
    (mask : Mask) (keys : List (Option ℕ)) (i k : ℕ) (m : BooleanArray)
    → get_elem? keys i ≡ some (some k)
    → ((mv : BooleanArray) → mask ≡ masked mv → kept mv k ≡ true)
    → through_dictionary mask keys ≡ masked m
    → kept m i ≡ true
unfolding through_dictionary
through_dictionary-kept (unsupported e) keys i k m ek h em = absurd (ground arith)
through_dictionary-kept (masked mv) keys i k m ek h em =
    sym (ap (λ x. keeps x i) em) ∙ kept-taken mv keys i ∙ ap (kept_at_key mv) ek ∙ h mv refl

all_masked :
    (n : ℕ) (masks : List Mask) (m : BooleanArray)
    → or_all n masks ≡ masked m
    → all is_masked masks ≡ true
all_masked n masks m e = sym (is_masked-or_all n masks) ∙ ap is_masked e

rest : (a b : Bool) → a ≡ false → (a || b) ≡ true → b ≡ true
rest a b e h = ground arith

value-kept :
    (lib : Libraries) (p : ValuePredicate) (stats : StatRange) (a : Array) (i : ℕ)
    (m : BooleanArray)
    → Matching stats p
    → HasValue stats a i
    → evaluate_value lib p a ≡ masked m
    → kept m i ≡ true
unfolding evaluate_value value_mask or_unsupported
value-kept lib (equal v) stats (plain c) i m (by_equal e) h em =
    sym (ap (λ x. keeps x i) em) ∙ equal-kept c i h.0 h.1 v stats e h.2
value-kept lib (in_list values) stats (plain c) i m (by_list e) h em =
    sym (ap (λ x. keeps x i) em) ∙ in_list-kept c i h.0 h.1 values stats e h.2
value-kept lib (bloom_filter _) stats a i m matching h em = elim matching [ ]
value-kept lib (in_set _) stats a i m matching h em = elim matching [ ]
value-kept lib (range_gte _) stats a i m matching h em = elim matching [ ]
value-kept lib (range_lte _) stats a i m matching h em = elim matching [ ]
value-kept lib p stats (list_array large elements rows) i m matching h em = absurd (ground arith)
value-kept lib p stats (dictionary values keys) i m matching (k, ek, h) em =
    through_dictionary-kept (evaluate_value lib p values) keys i k m ek
      (λ mv ev. value-kept lib p stats values k mv matching h ev) em

mutual
  unfolding evaluate part_masks matches_every_value any_matches_every_value

  matched-kept :
      (lib : Libraries) (p : ArrayPredicate) (stats : StatRange) (a : Array) (i : ℕ)
      (m : BooleanArray)
      → matches_every_value p stats ≡ true
      → HasValue stats a i
      → evaluate lib p a ≡ masked m
      → kept m i ≡ true
  matched-kept lib (on_value (equal v)) stats a i m e h em =
      value-kept lib (equal v) stats a i m (by_equal e) h em
  matched-kept lib (on_value (in_list values)) stats a i m e h em =
      value-kept lib (in_list values) stats a i m (by_list e) h em
  matched-kept lib (on_value (bloom_filter _)) stats a i m e h em = absurd (ground arith)
  matched-kept lib (on_value (in_set _)) stats a i m e h em = absurd (ground arith)
  matched-kept lib (on_value (range_gte _)) stats a i m e h em = absurd (ground arith)
  matched-kept lib (on_value (range_lte _)) stats a i m e h em = absurd (ground arith)
  matched-kept lib (list_contains_any _) stats a i m e h em = absurd (ground arith)
  matched-kept lib never stats a i m e h em = absurd (ground arith)
  matched-kept lib (any_of parts) stats a i m e h em =
      kept-or_all (array_len a) i (part_masks lib parts a) m em
      ∙ parts-kept lib parts stats a i e h (all_masked _ _ m em)

  parts-kept :
      (lib : Libraries) (parts : Parts) (stats : StatRange) (a : Array) (i : ℕ)
      → any_matches_every_value parts stats ≡ true
      → HasValue stats a i
      → all is_masked (part_masks lib parts a) ≡ true
      → any (λ x. keeps x i) (part_masks lib parts a) ≡ true
  parts-kept lib no_parts stats a i e h read = absurd (ground arith)
  parts-kept lib (part p parts) stats a i e h read =
      let both = (&&_iff _ _).0 read in
      let (m, em) = masked-cases (evaluate lib p a) both.0 in
      elim (Bool-cases (matches_every_value p stats)) [
        | inl here ↦ rw (ap (λ x. keeps x i) em ∙ matched-kept lib p stats a i m here h em) refl
        | inr later ↦ ground (arith, parts-kept lib parts stats a i (rest _ _ later e) h both.1)
      ]

-- A filter that the statistics of a row group match answers true for every row that has a value:
-- for every filter on a column, where the column is stored at a type that it answers for and the
-- row's value is of the stored type and lies inside the statistics.
pub matches_every_value-evaluate :
    (lib : Libraries) (p : ArrayPredicate) (stats : StatRange) (a : Array) (i : ℕ)
    (m : BooleanArray)
    → matches_every_value p stats ≡ true
    → HasValue stats a i
    → evaluate lib p a ≡ masked m
    → kept m i ≡ true
matches_every_value-evaluate lib p stats a i m e h em = matched-kept lib p stats a i m e h em
