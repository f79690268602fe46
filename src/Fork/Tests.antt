-- ===== src/Fork/Tests.antt =====
-- Tests of src/output/fork.rs, and its theorems at a chunk of three blocks.
use text.Mathlib.Text as Text
use sqd_query_engine.Prelude.{
  ◌==◌, Bool, true, false, Option, none, some, [], ◌∷◌, map, if◌then◌else◌, get_or, All, ◌≡◌, refl,
}
use sqd_query_engine.Prelude.Int.{pos}
use sqd_query_engine.Arrow.{Column, RecordBatch, column_by_name}
use sqd_query_engine.Arrow.DataType.{uint64, utf8}
use sqd_query_engine.Error.{ok}
use sqd_query_engine.Integers.{width_of}
use sqd_query_engine.Integers.Blocks.{resolve}
use sqd_query_engine.Join.Semi.{is_text}
use sqd_query_engine.Fork.{
  ForkPlan, BlockTable, ChunkReader, has_column, carried, sort_refs, check_parent_block,
}
use sqd_query_engine.Fork.Answer.{Statement, IsAnswer, Readable, all_statements}
use sqd_query_engine.Fork.Check.{IsSorted, verdict, check_parent_block-verdict}

-- Blocks 7, 8 and 9; the parent of each has the hash of one byte.
abbrev numbers_column : Column
numbers_column = record {
  data_type = uint64;
  len = 3;
  is_null = λ row. false;
  int_value = λ row. pos (get_or (7 ∷ 8 ∷ 9 ∷ []) row 0);
  text_value = λ row. get_or (60 ∷ 70 ∷ 80 ∷ []) row 0 ∷ [];
  bool_value = λ row. false;
  bytes_value = λ row. [];
  list_value = λ row. [];
}

abbrev hashes_column : Column
hashes_column = record numbers_column { data_type = utf8 }

abbrev three_blocks : RecordBatch
three_blocks = record {
  num_rows = 3;
  index_of = λ name. if Text.◌==◌ name "number" then some 0 else some 1;
  column = λ i. if i == 0 then numbers_column else hashes_column;
}

abbrev chunk_of : Bool → ChunkReader
chunk_of carries = record {
  has_table = λ table. true;
  table_schema = λ table. some (λ column. carries);
  scan = λ table request. ok (three_blocks ∷ []);
}

abbrev from_eight : ForkPlan
from_eight = record { from_block = 8; parent_block_hash = some (71 ∷ []); block_table = "blocks" }

abbrev block_table : BlockTable
block_table = record {
  block_number_column = "number";
  parent_hash_column = some "parent_hash";
  parent_number_column = none;
}

three_blocks-Readable : All (Readable block_table "parent_hash") (three_blocks ∷ [])
unfolding column_by_name is_text resolve width_of
three_blocks-Readable = (
  record {
    blocks = numbers_column;
    hashes = hashes_column;
    numbers = record { bits = 64; column = numbers_column };
    has_blocks = refl;
    has_hashes = refl;
    text = refl;
    whole = refl;
  },
  tt,
)

check_parent_block-verdict_example :
    let rows =
      all_statements block_table "parent_hash" none (three_blocks ∷ []) three_blocks-Readable in
    (answer : Option Statement) × IsAnswer 8 rows answer
    × IsSorted (sort_refs (map (λ s. s.1) rows))
    × (check_parent_block from_eight (some block_table) (chunk_of true)
        ≡ verdict answer (71 ∷ []) (sort_refs (map (λ s. s.1) rows)))
unfolding has_column carried
check_parent_block-verdict_example =
    check_parent_block-verdict from_eight block_table (chunk_of true) (71 ∷ []) "parent_hash"
      (three_blocks ∷ []) refl refl refl refl refl three_blocks-Readable
