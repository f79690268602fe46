-- ===== src/Predicate/Tests.antt =====
-- Runs of src/scan/predicate.rs on small columns, and the theorems applied to them.
use sqd_query_engine.Prelude.{
  some-inj, ℕ, Option, ◌++◌, Bool, true, false, List, [], ◌∷◌, map, get_or, any, none, some, ◌≡◌,
  ◌≢◌, ◌||◌, ◌∙◌, refl, sym, ap, subst, arith, ◌==◌, All, range_from,
}
use sqd_query_engine.Prelude.Int.{pos}
use sqd_query_engine.Arrow.{DataType, Column}
use sqd_query_engine.Integers.{
  unsigned, signed, width_of, is_integer, stored_keys, stored_key, fits_unsigned,
}
use sqd_query_engine.Predicate.Mask.{
  BooleanArray, masked, or_kleene, mask_nullable, or_unsupported, kept, keeps,
}
use sqd_query_engine.Predicate.Scalar.{StatRange, ints}
use sqd_query_engine.Predicate.Value.{
  FilterList, strings, byte_strings, other_list, integers, lists_key,
}
use sqd_query_engine.Predicate.Bloom.{BloomFilterPredicate}
use sqd_query_engine.Predicate.Bloom
use sqd_query_engine.Predicate.Column.{
  Array, plain, dictionary, Libraries, ArrayPredicate, on_value, in_list, never, evaluate,
}
use sqd_query_engine.Predicate.Skip.{can_skip, matches_every_value, in_list_matches}
use sqd_query_engine.Predicate.Row.{
  ColumnPredicate, RowPredicate, Batch, evaluate_row, can_skip_row_group, column_predicates,
  without_proven,
}
use sqd_query_engine.Predicate.Outside.{Within, Holds}
use sqd_query_engine.Predicate.Pruning.{can_skip-evaluate}
use sqd_query_engine.Predicate.Matched.{matches_every_value-evaluate}
use sqd_query_engine.Predicate.Rows.{evaluate_row-row_holds, can_skip_row_group-evaluate_row}
use sqd_query_engine.Predicate.Groups.{Described, column_keeps, row_holds}
use sqd_query_engine.Predicate.Proven.{KeepsProven, without_proven-evaluate_row}
use sqd_query_engine.Predicate.Verdicts.{verdicts-lookups, verdict_of}
use sqd_query_engine.Predicate.Members.{bloom-rows, member_row}
use sqd_query_engine.Predicate.Admitted.{Covers}
use sqd_query_engine.Predicate.Union.{listed_union, listed_values}
use sqd_query_engine.Predicate.United.{listed_union-row_holds}
use sqd_query_engine.Join.Semi.Masks.{any-append}
use sqd_query_engine.Predicate.Listed.{bind-some}
use sqd_query_engine.Predicate.InSet.{verdicts}

abbrev hash_none : ℕ → List ℕ → ℕ
hash_none seed bytes = seed

abbrev libraries : Libraries
libraries = record { xxh3 = hash_none; xxh3_64 = λ _. 0; hex_encode = λ bytes. bytes }

-- Three rows of a `UInt16` column: 10, null, 200.
abbrev numbers : Column
numbers = record {
  data_type = DataType.uint16;
  len = 3;
  is_null = λ i. i == 1;
  int_value = λ i. pos (get_or (10 ∷ 0 ∷ 200 ∷ []) i 0);
  text_value = λ _. [];
  bool_value = λ _. false;
  bytes_value = λ i. get_or ((1 ∷ []) ∷ [] ∷ (3 ∷ 4 ∷ []) ∷ []) i [];
  list_value = λ _. [];
}

-- The numbers by the keys of four rows, one of them null.
abbrev numbered : Array
numbered = dictionary (plain numbers) (some 2 ∷ none ∷ some 1 ∷ some 0 ∷ [])

abbrev listed : List ℕ → ArrayPredicate
listed values = on_value (in_list (integers (unsigned values)))

abbrev bounds : StatRange
bounds = ints DataType.uint16 (pos 10) (pos 200)

abbrev outside : ArrayPredicate
outside = listed (5 ∷ 300 ∷ [])

skips : can_skip outside bounds ≡ true
unfolding can_skip width_of stored_keys fits_unsigned
skips = refl

numbered-Within : Within bounds numbered 3
numbered-Within k e = inside k (ground (arith, e))
  where
    inside : (k : ℕ) → k ≡ 0 → numbers.is_null k ≡ false → Holds bounds numbers k
    inside k z present =
        subst (λ j. Holds bounds numbers j) (sym z)
          (refl, (16, false, unfold width_of in refl, (omega arith, omega arith)), refl, refl)

-- A list outside the bounds of a column, which is stored as a dictionary.
can_skip-evaluate_example : keeps (evaluate libraries outside numbered) 3 ≡ false
can_skip-evaluate_example =
    can_skip-evaluate libraries outside bounds numbered 3 skips numbered-Within

-- One value everywhere in the group.
abbrev tens : Column
tens = record {
  data_type = DataType.uint16;
  len = 2;
  is_null = λ _. false;
  int_value = λ _. pos 10;
  text_value = λ _. [];
  bool_value = λ _. false;
  bytes_value = λ _. [];
  list_value = λ _. [];
}

abbrev all_ten : StatRange
all_ten = ints DataType.uint16 (pos 10) (pos 10)

ten_matches : matches_every_value (listed (10 ∷ [])) all_ten ≡ true
unfolding matches_every_value in_list_matches width_of stored_keys fits_unsigned lists_key
    stored_key
ten_matches = refl

tens-mask : evaluate libraries (listed (10 ∷ [])) (plain tens) ≡ masked (some true ∷ some true ∷ [])
unfolding evaluate width_of is_integer stored_keys fits_unsigned lists_key stored_key mask_nullable
    or_unsupported
tens-mask = refl

tens-Holds : Holds all_ten tens 1
tens-Holds = (refl, (16, false, unfold width_of in refl, (omega arith, omega arith)), refl, refl)

matches_every_value-evaluate_example : kept (some true ∷ some true ∷ []) 1 ≡ true
matches_every_value-evaluate_example =
    matches_every_value-evaluate libraries (listed (10 ∷ [])) all_ten (plain tens) 1
      (some true ∷ some true ∷ []) ten_matches (omega arith, refl, tens-Holds) tens-mask

-- Every name is the one column of the batch.
abbrev tens_batch : Batch
tens_batch = record { num_rows = 2; column_by_name = λ _. some (plain tens) }

abbrev on_ten : ColumnPredicate
on_ten = record { column = "n"; predicate = listed (10 ∷ []) }

abbrev on_five : ColumnPredicate
on_five = record { column = "n"; predicate = listed (5 ∷ []) }

-- Of the alternatives, the second holds.
abbrev ten_or_five : RowPredicate
ten_or_five = record { columns = on_ten ∷ []; alternatives = (on_five ∷ []) ∷ (on_ten ∷ []) ∷ [] }

ten_or_five-mask :
    evaluate_row libraries ten_or_five tens_batch ≡ masked (some true ∷ some true ∷ [])
unfolding evaluate_row evaluate width_of is_integer stored_keys fits_unsigned lists_key stored_key
    mask_nullable or_unsupported or_kleene
ten_or_five-mask = refl

evaluate_row-row_holds_example :
    kept (some true ∷ some true ∷ []) 0 ≡ row_holds libraries tens_batch 0 ten_or_five
evaluate_row-row_holds_example =
    evaluate_row-row_holds libraries ten_or_five tens_batch 0 (some true ∷ some true ∷ [])
      (omega arith) ten_or_five-mask

-- No alternative can hold.
abbrev five : RowPredicate
five = record { columns = on_ten ∷ []; alternatives = (on_five ∷ []) ∷ [] }

five_skipped : can_skip_row_group five (λ _. some all_ten) ≡ true
unfolding can_skip_row_group can_skip width_of stored_keys fits_unsigned
five_skipped = refl

five-Described : Described libraries tens_batch 1 (λ _. some all_ten)
five-Described name stats e =
    (plain tens, refl, subst (λ s. Within s (plain tens) 1) (some-inj e) (λ _. tens-Holds))
  where
    some-inj : {a b : StatRange} → some a ≡ some b → a ≡ b
    some-inj h = cc h

can_skip_row_group-evaluate_row_example : keeps (evaluate_row libraries five tens_batch) 1 ≡ false
can_skip_row_group-evaluate_row_example =
    can_skip_row_group-evaluate_row libraries five (λ _. some all_ten) tens_batch 1 five_skipped
      five-Described (omega arith)

abbrev is_proven : ColumnPredicate → Bool
is_proven c = matches_every_value c.predicate all_ten

-- The list of 10 is proved, and with it the second alternative.
proven_left :
    without_proven ten_or_five is_proven ≡ some (record { columns = []; alternatives = [] })
unfolding without_proven matches_every_value in_list_matches width_of stored_keys fits_unsigned
    lists_key stored_key
proven_left = refl

ten-kept : column_keeps libraries tens_batch 1 on_ten ≡ true
ten-kept = rw tens-mask

five_unproven : is_proven on_five ≡ false
unfolding matches_every_value in_list_matches width_of stored_keys fits_unsigned lists_key
    stored_key
five_unproven = refl

proven-kept : All (KeepsProven libraries tens_batch is_proven 1) (column_predicates ten_or_five)
unfolding column_predicates
proven-kept = (λ _. ten-kept, (λ e. absurd (not_five (sym five_unproven ∙ e)), (λ _. ten-kept, tt)))
  where
    not_five : false ≢ true
    not_five h = ground arith

without_proven-evaluate_row_example :
    (rest : BooleanArray) × (evaluate_row libraries
        (record { columns = []; alternatives = [] })
        tens_batch
      ≡ masked rest)
    × (kept rest 1 ≡ kept (some true ∷ some true ∷ []) 1)
without_proven-evaluate_row_example =
    without_proven-evaluate_row libraries ten_or_five (record { columns = []; alternatives = [] })
      is_proven tens_batch 1 (some true ∷ some true ∷ []) proven_left proven-kept (omega arith)
      ten_or_five-mask

abbrev is_one : List ℕ → Bool
is_one value = any (λ b. b == 1) value

verdicts-lookups_example :
    verdicts is_one (some (1 ∷ []) ∷ some (1 ∷ []) ∷ none ∷ some (2 ∷ []) ∷ [])
    ≡ map (verdict_of is_one) (some (1 ∷ []) ∷ some (1 ∷ []) ∷ none ∷ some (2 ∷ []) ∷ [])
verdicts-lookups_example =
    verdicts-lookups is_one (some (1 ∷ []) ∷ some (1 ∷ []) ∷ none ∷ some (2 ∷ []) ∷ [])

-- Filters of one byte, none and two bytes.
abbrev two_needles : BloomFilterPredicate
two_needles = record { needles = (7 ∷ []) ∷ (9 ∷ []) ∷ []; num_bytes = 1; num_hashes = 3 }

bloom-rows_example :
    Bloom.check_rows hash_none two_needles numbers Bloom.no_masks (range_from 0 3)
    ≡ map (member_row hash_none two_needles numbers) (range_from 0 3)
bloom-rows_example = bloom-rows hash_none two_needles numbers (range_from 0 3)

-- A filter that nothing passes skips no row group that has no statistics.
never_read :
    can_skip_row_group
      (record { columns = record { column = "n"; predicate = never } ∷ []; alternatives = [] })
      (λ _. none)
    ≡ false
unfolding can_skip_row_group
never_read = refl

-- `concat` of lists of unsigned numbers.
abbrev numbers_of : FilterList → Option (List ℕ)
numbers_of (integers (unsigned xs)) = some xs
numbers_of _ = none

abbrev gather : List FilterList → Option (List ℕ)
gather [] = some []
gather (part ∷ parts) = elim (numbers_of part) [
  | none ↦ none
  | some xs ↦ elim (gather parts) [ none ↦ none | some ys ↦ some (xs ++ ys) ]
]

abbrev joined : List FilterList → Option FilterList
joined parts = elim (gather parts) [ none ↦ none | some xs ↦ some (integers (unsigned xs)) ]

numbers_of-Covers :
    (part : FilterList) (xs all_xs : List ℕ)
    → numbers_of part ≡ some xs
    → ((f : ℕ → Bool) → any f xs ≡ true → any f all_xs ≡ true)
    → Covers (integers (unsigned all_xs)) part
numbers_of-Covers (integers (unsigned ys)) xs all_xs e h =
    λ f has. h f (sym (ap (any f) (some-inj e)) ∙ has)
numbers_of-Covers (integers (signed ys)) xs all_xs e h = absurd (ground arith)
numbers_of-Covers (strings ys) xs all_xs e h = absurd (ground arith)
numbers_of-Covers (byte_strings ys) xs all_xs e h = absurd (ground arith)
numbers_of-Covers other_list xs all_xs e h = absurd (ground arith)

gather-Covers :
    (parts : List FilterList) (zs all_xs : List ℕ)
    → gather parts ≡ some zs
    → ((f : ℕ → Bool) → any f zs ≡ true → any f all_xs ≡ true)
    → All (Covers (integers (unsigned all_xs))) parts
gather-Covers [] zs all_xs e h = tt
gather-Covers (part ∷ parts) zs all_xs e h =
    let (xs, ex, rest) = bind-some (numbers_of part) _ e in
    let (ys, ey, last) = bind-some (gather parts) _ rest in
    let in_all : (f : ℕ → Bool) → (any f xs || any f ys) ≡ true → any f all_xs ≡ true =
      λ f has. h f (ap (any f) (sym (some-inj last)) ∙ any-append f xs ys ∙ has) in
    (
      numbers_of-Covers part xs all_xs ex (λ f has. in_all f (rw has refl)),
      gather-Covers parts ys all_xs ey (λ f has. in_all f (or_right (any f xs) (any f ys) has)),
    )
  where
    or_right : (a b : Bool) → b ≡ true → (a || b) ≡ true
    or_right a b h = ground arith

joined-Covers :
    (parts : List FilterList) (whole : FilterList)
    → joined parts ≡ some whole
    → All (Covers whole) parts
joined-Covers parts whole e =
    let (xs, ex, last) = bind-some (gather parts) _ e in
    subst (λ w. All (Covers w) parts) (some-inj last) (gather-Covers parts xs xs ex (λ f has. has))

abbrev two_items : List RowPredicate
two_items =
    record { columns = on_five ∷ []; alternatives = [] }
    ∷ record { columns = on_ten ∷ []; alternatives = [] }
    ∷ []

abbrev both_listed : RowPredicate
both_listed = record {
  columns = record { column = "n"; predicate = listed (5 ∷ 10 ∷ []) } ∷ [];
  alternatives = [];
}

two_items-union : listed_union joined two_items ≡ some both_listed
unfolding listed_union listed_values
two_items-union = refl

listed_union-row_holds_example : row_holds libraries tens_batch 1 both_listed ≡ true
listed_union-row_holds_example =
    listed_union-row_holds joined joined-Covers libraries two_items both_listed tens_batch 1
      two_items-union item_holds
  where
    item_holds : any (row_holds libraries tens_batch 1) two_items ≡ true
    item_holds = rw tens-mask (ground arith)
