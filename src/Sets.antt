-- ===== src/Sets.antt =====
-- The binary fuse filter of src/sets.rs: the structure that bytes hold, and the lookup in it. The
-- hash `xxh3_64` is a library's and stands as a parameter. An index out of bounds is `none`,
-- where the code would panic.
pub mod Bounds
pub mod Wire
mod Tests
use sqd_query_engine.Prelude.{
  ℕ, zero, suc, ◌+◌, ◌-◌, ◌*◌, ◌/◌, ◌%◌, ◌^◌, Bool, ◌&&◌, Option, none, some, List, [], ◌∷◌, ◌==◌,
  ltb, leb, if◌then◌else◌, any, length, get_elem?, take, drop, range_from, bit_and, bit_xor,
}
use sqd_query_engine.Prelude.Bits.{◌>>>◌}

pub record Fuse8 : Type 0 where
  pub seed : ℕ
  pub segment_length : ℕ
  pub segment_mask : ℕ
  pub segment_count_length : ℕ
  pub fingerprints : List ℕ
  pub digest : ℕ

abbrev pub header_bytes : ℕ
header_bytes = 20

abbrev pub max_segment_length : ℕ
max_segment_length = 2 ^ 18

-- `from_le_bytes` over the bytes of a word
unfoldable pub from_le_bytes : List ℕ → ℕ
from_le_bytes [] = 0
from_le_bytes (b ∷ bs) = b + 256 * from_le_bytes bs

-- `u64::is_power_of_two`
unfoldable pub is_power_of_two : ℕ → Bool
is_power_of_two n = any (λ k. n == 2 ^ k) (range_from 0 64)

-- Whether a header's lookups stay within `count` fingerprints.
unfoldable pub is_sound : ℕ → ℕ → ℕ → ℕ → Bool
is_sound len mask count_length count =
    is_power_of_two len
    && (leb len max_segment_length
        && (mask == len - 1
            && (ltb 0 count_length
                && (count_length % len == 0 && leb (count_length + 2 * len) count))))

module _ (xxh3_64 : List ℕ → ℕ) where
  -- The structure, or `none` where the code says why not.
  unfoldable pub from_bytes : List ℕ → Option Fuse8
  from_bytes bytes =
      if ltb (length bytes) header_bytes
      then none
      else (let header = take header_bytes bytes in
          let fingerprints = drop header_bytes bytes in
          let word = λ (at : ℕ). from_le_bytes (take 4 (drop at header)) in
          let seed = from_le_bytes (take 8 header) in
          if is_sound (word 8) (word 12) (word 16) (length fingerprints)
          then some (record {
            seed = seed;
            segment_length = word 8;
            segment_mask = word 12;
            segment_count_length = word 16;
            fingerprints = fingerprints;
            digest = xxh3_64 bytes;
          })
          else none)

-- MurmurHash3's 64-bit finaliser.
unfoldable pub mix : ℕ → ℕ
mix x =
    let a = bit_xor x (x >>> 33) in
    let b = a * 0xff51afd7ed558ccd % 2 ^ 64 in
    let c = bit_xor b (b >>> 33) in let d = c * 0xc4ceb9fe1a85ec53 % 2 ^ 64 in bit_xor d (d >>> 33)

-- The three places that a hash looks at.
unfoldable pub index_0 : Fuse8 → ℕ → ℕ
index_0 f hash = hash * f.segment_count_length / 2 ^ 64

unfoldable pub index_1 : Fuse8 → ℕ → ℕ
index_1 f hash = bit_xor (index_0 f hash + f.segment_length) (bit_and (hash >>> 18) f.segment_mask)

unfoldable pub index_2 : Fuse8 → ℕ → ℕ
index_2 f hash = bit_xor (index_0 f hash + 2 * f.segment_length) (bit_and hash f.segment_mask)

module _ (xxh3_64 : List ℕ → ℕ) where
  unfoldable pub hash_of : Fuse8 → List ℕ → ℕ
  hash_of f value = mix ((xxh3_64 value + f.seed) % 2 ^ 64)

  unfoldable pub contains : Fuse8 → List ℕ → Option Bool
  contains f value =
      let hash = hash_of f value in
      let fingerprint = bit_xor hash (hash >>> 32) % 2 ^ 8 in
      elim (get_elem? f.fingerprints (index_0 f hash)) [
        | none ↦ none
        | some a ↦ elim (get_elem? f.fingerprints (index_1 f hash)) [
          | none ↦ none
          | some b ↦ elim (get_elem? f.fingerprints (index_2 f hash)) [
            | none ↦ none
            | some c ↦ some (bit_xor (bit_xor (bit_xor fingerprint a) b) c == 0)
          ]
        ]
      ]
