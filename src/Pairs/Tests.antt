-- ===== src/Pairs/Tests.antt =====
-- Tests of src/scan/pairs.rs, and its theorems at small sets.
use sqd_query_engine.Prelude.{
  ◌+◌, ◌*◌, ◌≤◌, ◌^◌, true, false, some, List, [], ◌∷◌, map, any, length, ◌≡◌, arith, refl,
}
use sqd_query_engine.Pairs.{
  Pair, DensePairs, join_group, chunk_by_first, total_width, group_width, fill_slots, fill_bits,
  dense_bytes, build, dense_contains, insert_pair, sort_pairs, same_pair, dedup, pair_set,
  set_contains,
}
use sqd_query_engine.Pairs.Dense.{build_bytes}
use sqd_query_engine.Pairs.Hashed.{set_contains-any}

abbrev window : List Pair
window = (5, 1) ∷ (5, 3) ∷ (6, 2) ∷ (6, 70) ∷ []

abbrev dense_window : DensePairs
dense_window = record {
  first = 5;
  slots = record { start = 0; low = 1; width = 3 } ∷ record { start = 3; low = 2; width = 69 } ∷ [];
  bits = 13 ∷ 128 ∷ [];
  len = 4;
}

window_is_dense : build window ≡ some dense_window
unfolding build chunk_by_first join_group total_width group_width dense_bytes fill_slots fill_bits
window_is_dense = refl

members :
    map
      (λ (p : Pair). dense_contains dense_window p.0 p.1)
      ((5, 1) ∷ (5, 2) ∷ (6, 70) ∷ (6, 71) ∷ (4, 1) ∷ (7, 1) ∷ [])
    ≡ some true ∷ some false ∷ some true ∷ some false ∷ some false ∷ some false ∷ []
unfolding dense_contains
members = refl

build_bytes_example :
    (length dense_window.slots * 24 + length dense_window.bits * 8 ≤ length window * 16)
    × (dense_window.len ≡ length window)
build_bytes_example = build_bytes window dense_window window_is_dense (omega arith)

set_contains-any_example :
    set_contains (pair_set ((2 ^ 20, 4) ∷ (0, 3) ∷ [])) 0 3
    ≡ some (any (same_pair (0, 3)) ((2 ^ 20, 4) ∷ (0, 3) ∷ []))
unfolding build sort_pairs insert_pair dedup
set_contains-any_example =
    set_contains-any ((2 ^ 20, 4) ∷ (0, 3) ∷ []) 0 3 (omega arith, (omega arith, tt)) (omega arith)
      refl
