-- ===== src/Sets/Tests.antt =====
-- Tests of src/sets.rs, and its theorems at a small structure.
use sqd_query_engine.Prelude.{
  ℕ, ◌+◌, ◌*◌, ◌<◌, none, some, List, [], ◌∷◌, ◌++◌, ◌≡◌, arith, refl, if◌then◌else◌, replicate,
  length, get_or,
}
use sqd_query_engine.Sets.{
  Fuse8, from_bytes, from_le_bytes, is_power_of_two, is_sound, contains, hash_of, index_0, index_1,
  index_2,
}
use sqd_query_engine.Sets.Bounds.{agrees, contains-total}
use sqd_query_engine.Sets.Wire.{header_of, from_bytes-header_of}

-- A hash for the tests.
abbrev sum_hash : List ℕ → ℕ
sum_hash [] = 0xcbf29ce484222325
sum_hash (b ∷ bs) = b + 31 * sum_hash bs

-- L = 4, M = 3, N = 8 and sixteen fingerprints.
abbrev small : Fuse8
small = record {
  seed = 7;
  segment_length = 4;
  segment_mask = 3;
  segment_count_length = 8;
  fingerprints = replicate 16 0;
  digest = sum_hash (header_of 7 4 3 8 ++ replicate 16 0);
}

accepted : from_bytes sum_hash (header_of 7 4 3 8 ++ replicate 16 0) ≡ some small
unfolding from_bytes from_le_bytes is_sound is_power_of_two
accepted = refl

-- Each condition of soundness, broken alone.
refused :
    (from_bytes sum_hash (header_of 7 3 2 9 ++ replicate 15 0) ≡ none)
    × (from_bytes sum_hash (header_of 7 4 7 8 ++ replicate 16 0) ≡ none)
    × (from_bytes sum_hash (header_of 7 4 3 0 ++ replicate 8 0) ≡ none)
    × (from_bytes sum_hash (header_of 7 4 3 6 ++ replicate 14 0) ≡ none)
    × (from_bytes sum_hash (header_of 7 4 3 8 ++ replicate 15 0) ≡ none)
unfolding from_bytes from_le_bytes is_sound is_power_of_two
refused = (refl, refl, refl, refl, refl)

contains-total_example :
    let hash = hash_of sum_hash small (1 ∷ 2 ∷ []) in
    let at = λ (i : ℕ). get_or small.fingerprints i 0 in
    (index_0 small hash < length small.fingerprints)
    × (index_1 small hash < length small.fingerprints)
    × (index_2 small hash < length small.fingerprints)
    × (contains sum_hash small (1 ∷ 2 ∷ [])
        ≡ some (
            agrees hash
              (at (index_0 small hash))
              (at (index_1 small hash))
              (at (index_2 small hash))))
contains-total_example =
    contains-total sum_hash (header_of 7 4 3 8 ++ replicate 16 0) small (1 ∷ 2 ∷ []) accepted

from_bytes-header_of_example :
    from_bytes sum_hash (header_of 7 4 3 8 ++ replicate 16 0)
    ≡ (if is_sound 4 3 8 16 then some small else none)
from_bytes-header_of_example =
    from_bytes-header_of sum_hash 7 4 3 8 (replicate 16 0) (omega arith) (omega arith) (omega arith)
      (omega arith)
