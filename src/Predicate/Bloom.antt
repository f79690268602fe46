-- ===== src/Predicate/Bloom.antt =====
-- Bloom filters of src/scan/predicate.rs. The seeded hash XXH3 is a library's and stands as a
-- parameter, of its seed and of the bytes written to it.
use sqd_query_engine.Prelude.{
  ℕ, ◌-◌, ◌*◌, ◌/◌, ◌%◌, ◌^◌, Bool, false, List, [], ◌∷◌, ◌++◌, map, ◌==◌, if◌then◌else◌, any,
  length, get_or, set, range_from, replicate, bit_and, bit_or, none, some,
}
use sqd_query_engine.Arrow.{Column}
use sqd_query_engine.Predicate.Mask.{BooleanArray, Mask, or_unsupported}
use sqd_query_engine.Predicate.Mask.Expected.{a_bloom_filter}
use sqd_query_engine.Predicate.Value.{is_binary}

pub record BloomFilterPredicate : Type 0 where
  pub needles : List (List ℕ)
  pub num_bytes : ℕ
  pub num_hashes : ℕ

-- The masks of a width, kept from row to row.
pub record NeedleMasks : Type 0 where
  pub width : ℕ
  pub masks : List (List ℕ)

-- `NeedleMasks::new`
unfoldable pub no_masks : NeedleMasks
no_masks = record { width = 0; masks = [] }

-- `mask[bit / 8] |= 1 << (bit % 8)`
unfoldable pub set_bit : List ℕ → ℕ → List ℕ
set_bit mask bit = set mask (bit / 8) (bit_or (get_or mask (bit / 8) 0) (2 ^ (bit % 8)))

-- `missing | (bits & !stored)` over the bytes
unfoldable pub missing : ℕ → List ℕ → List ℕ → ℕ
missing so_far [] filter = so_far
missing so_far (b ∷ bs) [] = so_far
missing so_far (b ∷ bs) (stored ∷ filter) =
    missing (bit_or so_far (bit_and b (255 - stored))) bs filter

module _ (xxh3 : ℕ → List ℕ → ℕ) where
  -- The caller has a filter of some bits.
  unfoldable pub bloom_bit : List ℕ → ℕ → ℕ → ℕ
  bloom_bit value n num_bits = xxh3 n (value ++ 255 ∷ []) % num_bits

  unfoldable pub set_bits : List ℕ → List ℕ → ℕ → List ℕ → List ℕ
  unfolding bloom_bit set_bit
  set_bits needle [] num_bits mask = mask
  set_bits needle (n ∷ ns) num_bits mask =
      set_bits needle ns num_bits (set_bit mask (bloom_bit needle n num_bits))

  -- The body of the `map` in `build_masks`.
  unfoldable pub needle_mask : ℕ → ℕ → List ℕ → List ℕ
  unfolding set_bits
  needle_mask num_hashes width needle =
      set_bits needle (range_from 0 num_hashes) (width * 8) (replicate width 0)

  unfoldable pub build_masks : BloomFilterPredicate → ℕ → NeedleMasks
  unfolding needle_mask
  build_masks predicate width = record {
    width = width;
    masks = map (needle_mask predicate.num_hashes width) predicate.needles;
  }

  -- Whether any needle might be in the filter, and the masks kept.
  unfoldable pub any_member : BloomFilterPredicate → NeedleMasks → List ℕ → Bool × NeedleMasks
  unfolding build_masks missing
  any_member predicate state filter =
      if length filter == 0
      then (false, state)
      else (let built =
            if length filter == state.width then state else build_masks predicate (length filter) in
          (any (λ mask. missing 0 mask filter == 0) built.masks, built))

  -- The rows from one on; a null row's answer is false, and no lookup is made for it.
  unfoldable pub check_rows : BloomFilterPredicate → Column → NeedleMasks → List ℕ → BooleanArray
  unfolding any_member
  check_rows predicate c state [] = []
  check_rows predicate c state (i ∷ rows) =
      let step = any_member predicate state (c.bytes_value i) in
      let after_null = check_rows predicate c state rows in
      let after = check_rows predicate c step.1 rows in
      if c.is_null i then some false ∷ after_null else some step.0 ∷ after

  -- `BloomFilterPredicate::evaluate`, past the dictionary.
  unfoldable pub bloom_mask : Column → BloomFilterPredicate → Mask
  unfolding check_rows no_masks
  bloom_mask c predicate =
      or_unsupported
        (if is_binary c.data_type
          then some (check_rows predicate c no_masks (range_from 0 c.len))
          else none)
        a_bloom_filter c.data_type
