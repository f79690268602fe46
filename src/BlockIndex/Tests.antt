-- ===== src/BlockIndex/Tests.antt =====
-- Tests of src/output/block_index.rs, and its theorems at a small page.
use sqd_query_engine.Prelude.{
  ℕ, ◌^◌, false, Option, none, some, List, [], ◌∷◌, map, get_or, get_elem?, length, ◌≡◌, arith,
  refl,
}
use sqd_query_engine.Prelude.Int.{pos}
use sqd_query_engine.Arrow.{RecordBatch, column_by_name}
use sqd_query_engine.Arrow.DataType.{uint64, utf8}
use sqd_query_engine.Error.{ok, ◌>>=◌}
use sqd_query_engine.Integers.{width_of, block_number}
use sqd_query_engine.BlockIndex.{
  visits, batch_visits, compute_block_range, block_positions, span_of, fill, search, dense_position,
  position, build, count_rows, sum_up, place_rows, rows_at,
}
use sqd_query_engine.BlockIndex.Positions.{position-search}
use sqd_query_engine.BlockIndex.Visited.{rows_of_block}
use sqd_query_engine.BlockIndex.{BlockIndex}
use sqd_query_engine.BlockIndex.Sorted.{build-rows_of_block}
use sqd_query_engine.BlockIndex.Built.{Decided, build-Decided}
use sqd_query_engine.BlockIndex.Range.{IsRange, compute_block_range-IsRange}

abbrev batch : List ℕ → RecordBatch
batch blocks = record {
  num_rows = length blocks;
  index_of = λ name. some 0;
  column = λ i. record {
    data_type = uint64;
    len = length blocks;
    is_null = λ row. false;
    int_value = λ row. pos (get_or blocks row 0);
    text_value = λ row. [];
    bool_value = λ row. false;
    bytes_value = λ row. [];
    list_value = λ row. [];
  };
}

abbrev two_batches : List RecordBatch
two_batches = batch (7 ∷ 5 ∷ 6 ∷ []) ∷ batch (5 ∷ 9 ∷ []) ∷ []

-- A sparse page is searched.
sparse_page :
    map (position (block_positions (0 ∷ 7 ∷ 2 ^ 40 ∷ []))) (0 ∷ 8 ∷ 7 ∷ 2 ^ 40 ∷ [])
    ≡ some 0 ∷ none ∷ some 1 ∷ some 2 ∷ []
unfolding position block_positions span_of fill search dense_position
sparse_page = refl

position-search_example :
    position (block_positions (10 ∷ 11 ∷ 13 ∷ [])) 13 ≡ search 13 (10 ∷ 11 ∷ 13 ∷ [])
position-search_example =
    position-search (10 ∷ 11 ∷ 13 ∷ []) 13
      ((omega arith, (omega arith, tt)), ((omega arith, tt), (tt, tt))) (omega arith)

compute_block_range-IsRange_example :
    (range : Option ℕ × Option ℕ) × (compute_block_range two_batches "number" ≡ ok range)
    × IsRange range ((0, 0, 7) ∷ (0, 1, 5) ∷ (0, 2, 6) ∷ (1, 0, 5) ∷ (1, 1, 9) ∷ [])
unfolding visits batch_visits column_by_name width_of block_number
compute_block_range-IsRange_example =
    compute_block_range-IsRange two_batches "number"
      ((0, 0, 7) ∷ (0, 1, 5) ∷ (0, 2, 6) ∷ (1, 0, 5) ∷ (1, 1, 9) ∷ []) refl

-- Each block's rows in file order; the row of block 9 is left out.
rows_of_a_page :
    (build two_batches "number" (block_positions (5 ∷ 6 ∷ 8 ∷ [])) >>= λ index.
    ok (map (rows_at index) (0 ∷ 1 ∷ 2 ∷ [])))
    ≡ ok (((0, 1) ∷ (1, 0) ∷ []) ∷ ((0, 2) ∷ []) ∷ [] ∷ [])
unfolding build visits batch_visits column_by_name width_of block_number count_rows sum_up
    place_rows rows_at position block_positions span_of fill search dense_position
rows_of_a_page = refl

build-rows_of_block_example :
    (index : BlockIndex) × (build two_batches "number" (block_positions (5 ∷ 6 ∷ 8 ∷ []))
      ≡ ok index)
    × ((p block : ℕ)
        → get_elem? (5 ∷ 6 ∷ 8 ∷ []) p ≡ some block
        → rows_at index p
          ≡ rows_of_block block ((0, 0, 7) ∷ (0, 1, 5) ∷ (0, 2, 6) ∷ (1, 0, 5) ∷ (1, 1, 9) ∷ []))
unfolding visits batch_visits column_by_name width_of block_number
build-rows_of_block_example =
    build-rows_of_block (5 ∷ 6 ∷ 8 ∷ []) two_batches "number"
      ((0, 0, 7) ∷ (0, 1, 5) ∷ (0, 2, 6) ∷ (1, 0, 5) ∷ (1, 1, 9) ∷ [])
      ((omega arith, (omega arith, tt)), ((omega arith, tt), (tt, tt))) (omega arith) refl

-- The second batch has text in the column.
abbrev mixed_batches : List RecordBatch
mixed_batches =
    batch (7 ∷ [])
    ∷ record (batch (8 ∷ [])) {
      column = λ i. record ((batch (8 ∷ [])).column i) { data_type = utf8 };
    }
    ∷ []

build-Decided_example :
    Decided "number" mixed_batches (build mixed_batches "number" (block_positions (7 ∷ 8 ∷ [])))
    × Decided "number" mixed_batches (compute_block_range mixed_batches "number")
build-Decided_example = build-Decided mixed_batches "number" (block_positions (7 ∷ 8 ∷ []))
