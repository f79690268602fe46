-- ===== src/Join/Tests.antt =====
-- Tests of src/join, and its theorems at small batches.
use Prim.Native.String.{String}
use text.Mathlib.Text as Text
use sqd_query_engine.Prelude.{
  ℕ, ◌<◌, All, ◌==◌, Bool, true, false, some, List, [], ◌∷◌, map, if◌then◌else◌, get_or, length,
  ◌≡◌, ◌↔◌, arith, refl, ==_refl,
}
use sqd_query_engine.Prelude.Int.{pos}
use sqd_query_engine.Arrow.{element_type, Column, RecordBatch}
use sqd_query_engine.Arrow.DataType.{uint64, uint32, utf8, list}
use sqd_query_engine.Integers.{is_integer, width_of, stored_key}
use sqd_query_engine.Error.{Result, ok, err, unkinded}
use sqd_query_engine.Join.{resolve_indices, same, rows_of, keep_matching, true_count}
use sqd_query_engine.Join.Matching.{rows_in, trues_in, keep_matching-rows_in}
use sqd_query_engine.Join.Semi.{
  TypedExtractor, typed_extractor, extractors_of, is_text, semi_join_masks, build_key_set,
  insert_keys, probe_mask, matches, write_key, append, written, col_idx,
}
use sqd_query_engine.Join.Semi.Encoded.{Alike, AllAlike, values_of}
use sqd_query_engine.Join.Semi.Keys.{write_key-values_of}
use sqd_query_engine.Join.Semi.Masks.{Resolves, joined, semi_join_masks-joined}
use sqd_query_engine.Join.Hierarchical.{
  is_child, is_parent, children_masks, parents_masks, address_column,
}
use sqd_query_engine.Join.Hierarchical.Prefix.{Extends, is_child_iff}
use sqd_query_engine.Join.Hierarchical.Index.{Layout}
use sqd_query_engine.Join.Hierarchical.Masks.{nested, children_masks-nested}

-- A batch of a block number, a text and an address for each row; row 2 of each column is null.
abbrev blocks_column : List ℕ → Column
blocks_column blocks = record {
  data_type = uint64;
  len = length blocks;
  is_null = λ row. row == 2;
  int_value = λ row. pos (get_or blocks row 0);
  text_value = λ row. get_or blocks row 0 ∷ [];
  bool_value = λ row. false;
  bytes_value = λ row. [];
  list_value = λ row. pos 0 ∷ pos (get_or blocks row 0) ∷ [];
}

abbrev batch_of : List ℕ → RecordBatch
batch_of blocks = record {
  num_rows = length blocks;
  index_of = λ name.
      if Text.◌==◌ name "number" then some 0 else if Text.◌==◌ name "hash" then some 1 else some 2;
  column = λ i.
      if i == 0
      then blocks_column blocks
      else if i == 1
      then record (blocks_column blocks) { data_type = utf8 }
      else record (blocks_column blocks) { data_type = list uint32 };
}

abbrev key_names : List String
key_names = "number" ∷ "hash" ∷ []

abbrev key_extractors : List TypedExtractor
key_extractors = TypedExtractor.int 0 ∷ TypedExtractor.text 1 ∷ []

batch_of-Resolves : (blocks : List ℕ) → Resolves (batch_of blocks) key_names
unfolding extractors_of resolve_indices typed_extractor is_integer width_of is_text
batch_of-Resolves blocks = (key_extractors, refl)

-- The last row is left out for its null.
joined_rows :
    semi_join_masks
      (batch_of (7 ∷ 8 ∷ []) ∷ [])
      key_names
      (batch_of (8 ∷ 9 ∷ 7 ∷ []) ∷ [])
      key_names
    ≡ ok ((true ∷ false ∷ false ∷ []) ∷ [])
unfolding semi_join_masks build_key_set insert_keys probe_mask matches extractors_of resolve_indices
    typed_extractor is_integer width_of is_text write_key append written col_idx stored_key
joined_rows = refl

semi_join_masks-joined_example :
    semi_join_masks
      (batch_of (7 ∷ 8 ∷ []) ∷ [])
      key_names
      (batch_of (8 ∷ 9 ∷ 7 ∷ []) ∷ [])
      key_names
    ≡ ok (
        map
          (λ batch.
            map (joined (batch_of (7 ∷ 8 ∷ []) ∷ []) key_names batch key_names) (rows_of batch))
          (batch_of (8 ∷ 9 ∷ 7 ∷ []) ∷ []))
semi_join_masks-joined_example =
    semi_join_masks-joined (batch_of (7 ∷ 8 ∷ []) ∷ []) key_names (batch_of (8 ∷ 9 ∷ 7 ∷ []) ∷ [])
      key_names (batch_of-Resolves (7 ∷ 8 ∷ []), tt) (batch_of-Resolves (8 ∷ 9 ∷ 7 ∷ []), tt)

-- The first row of each batch has block 7.
write_key-values_of_example :
    let bytes : List ℕ = 7 ∷ 0 ∷ 0 ∷ 0 ∷ 0 ∷ 0 ∷ 0 ∷ 0 ∷ 1 ∷ 0 ∷ 0 ∷ 0 ∷ 7 ∷ [] in
    (same bytes bytes ≡ true) ↔ (
      values_of (batch_of (7 ∷ [])) 0 key_extractors
      ≡ values_of (batch_of (8 ∷ 7 ∷ [])) 1 key_extractors)
unfolding write_key append written col_idx stored_key
write_key-values_of_example =
    let bytes : List ℕ = 7 ∷ 0 ∷ 0 ∷ 0 ∷ 0 ∷ 0 ∷ 0 ∷ 0 ∷ 1 ∷ 0 ∷ 0 ∷ 0 ∷ 7 ∷ [] in
    write_key-values_of (batch_of (7 ∷ [])) (batch_of (8 ∷ 7 ∷ [])) 0 1 key_extractors
      key_extractors bytes bytes refl refl
      (AllAlike.both_alike
        (Alike.word_alike false (omega arith, omega arith) (omega arith, omega arith))
        (AllAlike.both_alike (Alike.string_alike (omega arith) (omega arith)) AllAlike.none_left))

is_child_iff_example :
    (is_child false (0 ∷ 1 ∷ []) (0 ∷ []) ≡ true) ↔ Extends false (0 ∷ []) (0 ∷ 1 ∷ [])
is_child_iff_example = is_child_iff false (0 ∷ 1 ∷ []) (0 ∷ [])

batch_of-Layout : (blocks : List ℕ) → Layout (batch_of blocks) ("number" ∷ []) "address"
unfolding resolve_indices address_column is_integer width_of element_type
batch_of-Layout blocks = record {
  key_indices = 0 ∷ [];
  column = record (blocks_column blocks) { data_type = list uint32 };
  resolved = refl;
  integers = (refl, tt);
  found = refl;
}

children_masks-nested_example :
    let sources = batch_of (5 ∷ 6 ∷ []) ∷ [] in
    let targets = batch_of (6 ∷ 7 ∷ []) ∷ [] in
    (children_masks sources targets ("number" ∷ []) "address" "address" true
      ≡ ok (nested (is_child true) sources targets ("number" ∷ []) "address" "address"))
    × (parents_masks sources targets ("number" ∷ []) "address" "address" true
        ≡ ok (nested (is_parent true) sources targets ("number" ∷ []) "address" "address"))
children_masks-nested_example =
    children_masks-nested (batch_of (5 ∷ 6 ∷ []) ∷ []) (batch_of (6 ∷ 7 ∷ []) ∷ []) ("number" ∷ [])
      "address" "address" true (batch_of-Layout (5 ∷ 6 ∷ []), tt) (batch_of-Layout (6 ∷ 7 ∷ []), tt)

-- A filter that keeps as many rows as a mask of the batch's length selects, and refuses any other.
abbrev cut_rows : RecordBatch → List Bool → Result RecordBatch
cut_rows batch mask =
    if length mask == batch.num_rows
    then ok (record batch { num_rows = true_count mask })
    else err unkinded

keep_matching-rows_in_example :
    (kept : List RecordBatch) × (keep_matching cut_rows
        (batch_of (5 ∷ 6 ∷ []) ∷ batch_of (7 ∷ []) ∷ [])
        ((true ∷ false ∷ []) ∷ (false ∷ []) ∷ [])
      ≡ ok kept)
    × (rows_in kept ≡ trues_in ((true ∷ false ∷ []) ∷ (false ∷ []) ∷ []))
    × All (λ batch. 0 < batch.num_rows) kept
keep_matching-rows_in_example =
    keep_matching-rows_in cut_rows (batch_of (5 ∷ 6 ∷ []) ∷ batch_of (7 ∷ []) ∷ [])
      ((true ∷ false ∷ []) ∷ (false ∷ []) ∷ [])
      (λ batch mask wide.
        (record batch { num_rows = true_count mask }, rw (wide, ==_refl batch.num_rows) refl, refl))
      (refl, (refl, tt))
