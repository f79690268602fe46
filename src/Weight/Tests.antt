-- ===== src/Weight/Tests.antt =====
-- src/output/weight.rs at concrete rows.
use sqd_query_engine.Prelude.{
  ℕ, ◌+◌, inl, inr, Bool, true, false, none, some, List, [], ◌∷◌, ◌==◌, ==_iff, ◌++◌, if◌then◌else◌,
  get_or, ◌≡◌, refl, arith,
}
use sqd_query_engine.Prelude.Int.{pos}
use sqd_query_engine.Arrow.{Column, RecordBatch, column_by_name, uint64}
use sqd_query_engine.Integers.{is_integer, width_of}
use sqd_query_engine.Integers.Blocks.{resolve, at}
use sqd_query_engine.Predicate.Row.{string_eq}
use sqd_query_engine.Selection.{weight_of}
use sqd_query_engine.Weight.{
  RowWeight, Weights, accumulate_dedup, size_of, weight_at, weight_columns, readable,
  accumulate_block_weights,
}
use sqd_query_engine.Weight.Repeated.{accumulate_dedup_repeated}
use sqd_query_engine.Weight.Sums.{accumulate_block_weights-part_of}

abbrev numbers : List ℕ → List Bool → Column
numbers values nulls = record {
  data_type = uint64;
  len = 3;
  is_null = λ row. get_or nulls row false;
  int_value = λ row. pos (get_or values row 0);
  text_value = λ row. [];
  bool_value = λ row. false;
  bytes_value = λ row. [];
  list_value = λ row. [];
}

-- Rows of the blocks 5, 7 and 5, the last one without a size.
abbrev batch : RecordBatch
batch = record {
  num_rows = 3;
  index_of = λ name. if string_eq name "block_number" then some 0 else some 1;
  column = λ i.
      if i == 0
      then numbers (5 ∷ 7 ∷ 5 ∷ []) []
      else numbers (100 ∷ 200 ∷ 300 ∷ []) (false ∷ false ∷ true ∷ []);
}

abbrev weight : RowWeight
weight = record { fixed = 32; columns = "input_size" ∷ [] }

abbrev no_weights : Weights
no_weights = λ b. none

accumulate_block_weights-part_of_example :
    weight_of (accumulate_block_weights (batch ∷ []) "block_number" weight no_weights) 5 ≡ 164
unfolding readable weight_columns column_by_name is_integer width_of resolve at weight_at size_of
accumulate_block_weights-part_of_example =
    accumulate_block_weights-part_of (batch ∷ []) "block_number" weight no_weights 5 (omega arith)
      (λ b. omega arith)

-- A batch, and the first two rows of it; rows are identified by their positions.
abbrev short_batch : RecordBatch
short_batch = record batch { num_rows = 2 }

abbrev contribution : ℕ → RecordBatch → RowWeight × RecordBatch × (ℕ → ℕ → ℕ)
contribution first rows = (weight, rows, λ row block. first + row)

accumulate_dedup_repeated_example :
    let xs = contribution 0 batch ∷ contribution 10 short_batch ∷ [] in
    let ys =
      contribution 10 short_batch ∷ contribution 0 batch ∷ contribution 10 short_batch ∷ [] in
    accumulate_dedup ◌==◌ (xs ++ ys) "block_number" ([], no_weights)
    ≡ accumulate_dedup ◌==◌ xs "block_number" ([], no_weights)
accumulate_dedup_repeated_example =
    accumulate_dedup_repeated ◌==◌ (λ k. (==_iff k k).1 refl)
      (contribution 0 batch ∷ contribution 10 short_batch ∷ [])
      (contribution 10 short_batch ∷ contribution 0 batch ∷ contribution 10 short_batch ∷ [])
      "block_number" ([], no_weights) (inr (inl refl), (inl refl, (inr (inl refl), tt)))
