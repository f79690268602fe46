-- ===== src/Scanner/Tests.antt =====
-- Runs of src/scan/scanner.rs on a table of one row group, and the theorems applied to it.
use Prim.Native.String.{String}
use sqd_query_engine.Prelude.{
  some-inj, ℕ, ◌≤◌, Bool, true, false, ◌&&◌, ◌||◌, List, [], ◌∷◌, any, none, some, ◌≡◌, refl, sym,
  ◌∙◌, ap, subst, arith, if◌then◌else◌,
}
use sqd_query_engine.Prelude.Int.{pos}
use sqd_query_engine.Arrow.{DataType, Column}
use sqd_query_engine.Integers.{
  unsigned, width_of, is_integer, stored_keys, fits_unsigned, stored_key, declared_value,
  block_number_at,
}
use sqd_query_engine.Predicate.Mask.{BooleanArray, masked, mask_nullable, or_unsupported}
use sqd_query_engine.Predicate.Scalar.{StatRange, ints, stat_range, stat_int}
use sqd_query_engine.Predicate.Value.{integers, lists_key}
use sqd_query_engine.Predicate.Column.{plain, Libraries, on_value, in_list, evaluate}
use sqd_query_engine.Predicate.Skip.{can_skip, matches_every_value, in_list_matches}
use sqd_query_engine.Predicate.Outside.{Within, Holds}
use sqd_query_engine.Predicate.Held.{HasValue}
use sqd_query_engine.Predicate.Row.{
  ColumnPredicate, RowPredicate, Batch, column_predicates, string_eq, without_proven,
  can_skip_row_group, is_nil,
}
use sqd_query_engine.Predicate.Groups.{row_holds}
use sqd_query_engine.Scanner.{ScanRequest, prepare_row_group, items_of, PreparedRowGroup}
use sqd_query_engine.Scanner.Stats.{
  ParquetTable, StatValue, ColumnSummary, read_stats, find_summary, block_bounds,
}
use sqd_query_engine.Scanner.Prepared.{prepare_row_group-row_holds}
use sqd_query_engine.Scanner.Checked.{AreTrue, Answers}
use sqd_query_engine.Scanner.Dropped.{prepare_row_group-left_out, in_window, in_keys}

abbrev libraries : Libraries
libraries = record { xxh3 = λ seed _. seed; xxh3_64 = λ _. 0; hex_encode = λ bytes. bytes }

-- Two rows of a `UInt16` column, both 10.
abbrev tens : Column
tens = record {
  data_type = DataType.uint16;
  len = 2;
  is_null = λ _. false;
  int_value = λ _. pos 10;
  text_value = λ _. [];
  bool_value = λ _. false;
  bytes_value = λ _. [];
  list_value = λ _. [];
}

abbrev batch : Batch
batch = record { num_rows = 2; column_by_name = λ _. some (plain tens) }

abbrev listing : List ℕ → ColumnPredicate
listing values = record {
  column = "n";
  predicate = on_value (in_list (integers (unsigned values)));
}

-- A request for 5, and one for 10.
abbrev requested : List RowPredicate
requested =
    record { columns = listing (5 ∷ []) ∷ []; alternatives = [] }
    ∷ record { columns = listing (10 ∷ []) ∷ []; alternatives = [] }
    ∷ []

abbrev one_group : ParquetTable
one_group = record {
  num_row_groups = 1;
  column_stats = λ _ _. some (record {
    null_count = some 0;
    least = some (StatValue.int32 (pos 10));
    greatest = some (StatValue.int32 (pos 10));
  });
  stored_type = λ _. some DataType.uint16;
}

abbrev from_block : ℕ → ScanRequest
from_block from = record {
  predicates = requested;
  from_block = some from;
  to_block = none;
  block_number_column = some "n";
  key_filter = none;
}

abbrev tens_summary : ColumnSummary
tens_summary = record {
  column = "n";
  range = some (ints DataType.uint16 (pos 10) (pos 10));
  null_free = true;
}

group_read : read_stats one_group 0 requested ≡ tens_summary ∷ []
unfolding read_stats column_predicates stat_range is_integer width_of declared_value stored_key
    stat_int
group_read = refl

abbrev ten : StatRange
ten = ints DataType.uint16 (pos 10) (pos 10)

tens-Holds : Holds ten tens 1
tens-Holds = (refl, (16, false, unfold width_of in refl, (omega arith, omega arith)), refl, refl)

summary_true : AreTrue libraries batch 1 (tens_summary ∷ [])
unfolding find_summary
summary_true name s r e er = (
  plain tens,
  refl,
  subst (λ r. Within r (plain tens) 1) is_ten (λ _. tens-Holds),
  (λ _. subst (λ r. HasValue r (plain tens) 1) is_ten (omega arith, refl, tens-Holds)),
)
  where
    the_summary : (b : Bool) → (if b then some tens_summary else none) ≡ some s → tens_summary ≡ s
    the_summary true e = some-inj e
    the_summary false e = absurd (ground arith)

    is_ten : ten ≡ r
    is_ten =
        some-inj (ap (λ (s : ColumnSummary). s.range) (the_summary (string_eq "n" name) e) ∙ er)

group_true : AreTrue libraries batch 1 (read_stats one_group 0 requested)
group_true = subst (AreTrue libraries batch 1) (sym group_read) summary_true

answer :
    (values : List ℕ)
    → (m : BooleanArray) × (evaluate libraries
          (on_value (in_list (integers (unsigned values))))
          (plain tens)
        ≡ masked m)
unfolding evaluate width_of is_integer stored_keys mask_nullable or_unsupported
answer values = (_, refl)

answers :
    (values : List ℕ)
    → Answers libraries batch 1 (read_stats one_group 0 requested) (listing values)
answers values a e =
    subst
      (λ a.
        (m : BooleanArray) × (evaluate libraries (on_value (in_list (integers (unsigned values)))) a
          ≡ masked m))
      (some-inj e) (answer values)

-- The request for 5 is left out, and of that for 10 nothing is left to check.
abbrev left_of_two : PreparedRowGroup
left_of_two = record {
  index = 0;
  active_items = 1 ∷ [];
  narrowed = (1, record { columns = []; alternatives = [] }) ∷ [];
}

prepared_two : prepare_row_group one_group (from_block 7) 0 ≡ some left_of_two
unfolding prepare_row_group block_bounds block_number_at column_predicates stat_range stat_int
    is_integer width_of declared_value stored_key can_skip_row_group can_skip stored_keys
    fits_unsigned without_proven matches_every_value in_list_matches lists_key
prepared_two = refl

prepare_row_group-row_holds_example :
    any (row_holds libraries batch 1) (items_of requested left_of_two)
    ≡ any (row_holds libraries batch 1) requested
prepare_row_group-row_holds_example =
    prepare_row_group-row_holds libraries one_group (from_block 7) 0 left_of_two batch 1
      prepared_two group_true
      (unfold column_predicates in ((answers (5 ∷ []), tt), ((answers (10 ∷ []), tt), tt)))

-- The group ends before the request begins.
left_out : prepare_row_group one_group (from_block 11) 0 ≡ none
unfolding prepare_row_group block_bounds block_number_at width_of
left_out = refl

group_bounds :
    (column : String) (low high : ℕ)
    → block_bounds one_group 0 column ≡ some (low, high)
    → (low ≤ 10) × (10 ≤ high)
unfolding block_bounds block_number_at width_of
group_bounds column low high e = ground (arith, e)

prepare_row_group-left_out_example :
    (in_window one_group (from_block 11) 0 (λ _. 10) (some "n")
      && (in_keys one_group (from_block 11) 0 (λ _. 10) none
          && (is_nil requested || any (row_holds libraries batch 1) requested)))
    ≡ false
prepare_row_group-left_out_example =
    prepare_row_group-left_out libraries one_group (from_block 11) 0 (λ _. 10) batch 1 left_out tt
      group_bounds group_true
