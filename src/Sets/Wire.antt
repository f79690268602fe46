-- ===== src/Sets/Wire.antt =====
-- The wire form of a structure, and that `from_bytes` reads it back.
use sqd_query_engine.Prelude.Words.{to_le_bytes}
use sqd_query_engine.Prelude.{
  ℕ, ◌^◌, ◌<◌, none, some, List, ◌++◌, if◌then◌else◌, length, ◌≡◌, arith,
}
use sqd_query_engine.Sets.{is_sound, from_bytes, from_le_bytes}

-- The header that a client writes: the seed, then `L`, `M` and `N`, all little-endian.
abbrev pub header_of : ℕ → ℕ → ℕ → ℕ → List ℕ
header_of seed len mask count_length =
    to_le_bytes 8 seed ++ (to_le_bytes 4 len ++ (to_le_bytes 4 mask ++ to_le_bytes 4 count_length))

from_le_bytes-to_le_bytes_4 : (w : ℕ) → w < 2 ^ 32 → from_le_bytes (to_le_bytes 4 w) ≡ w
unfolding from_le_bytes
from_le_bytes-to_le_bytes_4 w h = omega arith

from_le_bytes-to_le_bytes_8 : (w : ℕ) → w < 2 ^ 64 → from_le_bytes (to_le_bytes 8 w) ≡ w
unfolding from_le_bytes
from_le_bytes-to_le_bytes_8 w h = omega arith

-- Reading what a client writes: the bytes of a header of words of their widths, followed by any
-- fingerprints, are accepted exactly when the header is sound over them, and then hold the
-- header's words and the fingerprints.
pub from_bytes-header_of :
    (xxh3_64 : List ℕ → ℕ) (seed len mask count_length : ℕ) (fingerprints : List ℕ)
    → seed < 2 ^ 64
    → len < 2 ^ 32
    → mask < 2 ^ 32
    → count_length < 2 ^ 32
    → from_bytes xxh3_64 (header_of seed len mask count_length ++ fingerprints) ≡ (
        if is_sound len mask count_length (length fingerprints)
        then some (record {
          seed = seed;
          segment_length = len;
          segment_mask = mask;
          segment_count_length = count_length;
          fingerprints = fingerprints;
          digest = xxh3_64 (header_of seed len mask count_length ++ fingerprints);
        })
        else none)
unfolding from_bytes
from_bytes-header_of xxh3_64 seed len mask count_length fingerprints hs hl hm hc =
    rw
      (
        from_le_bytes-to_le_bytes_8 seed hs,
        from_le_bytes-to_le_bytes_4 len hl,
        from_le_bytes-to_le_bytes_4 mask hm,
        from_le_bytes-to_le_bytes_4 count_length hc,
      )
      (ground arith)
