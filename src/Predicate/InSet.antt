-- ===== src/Predicate/InSet.antt =====
-- Filters by sets of src/scan/predicate.rs: the text that the response renders for a value is
-- looked up in the sets.
use sqd_query_engine.Prelude.{
  ℕ, ◌-◌, Bool, true, false, List, [], ◌∷◌, map, if◌then◌else◌, any, length, take, drop, range_from,
  Option, none, some,
}
use sqd_query_engine.Arrow.{DataType, Column}
use sqd_query_engine.Arrow.DataType.{binary, fixed_size_binary}
use sqd_query_engine.Join.{same}
use sqd_query_engine.Join.Semi.{is_text}
use sqd_query_engine.Sets
use sqd_query_engine.Sets.{Fuse8}
use sqd_query_engine.Encoder.{encode_hex_bytes, encode_base58_bytes}
use sqd_query_engine.Predicate.Mask.{BooleanArray, Mask, or_unsupported}
use sqd_query_engine.Predicate.Mask.Expected.{a_set}

-- How the response renders a column: the two kinds that bytes are looked up by, and the others.
pub data JsonEncoding : Type 0 where
  hex_bytes base58 other_encoding : JsonEncoding

pub record InSetPredicate : Type 0 where
  pub sets : List Fuse8
  pub encoding : Option JsonEncoding

-- `FixedSizeBinaryArray` and `BinaryArray`
unfoldable pub is_rendered : DataType → Bool
is_rendered binary = true
is_rendered (fixed_size_binary _) = true
is_rendered _ = false

-- The verdicts of the rows from one on, after a value and its verdict.
unfoldable pub verdicts_after :
    (List ℕ → Bool) → Option (List ℕ × Bool) → List (Option (List ℕ)) → List Bool
verdicts_after passes previous [] = []
verdicts_after passes previous (none ∷ values) = false ∷ verdicts_after passes previous values
verdicts_after passes none (some value ∷ values) =
    passes value ∷ verdicts_after passes (some (value, passes value)) values
verdicts_after passes (some (last, verdict)) (some value ∷ values) =
    let same_value = verdicts_after passes (some (last, verdict)) values in
    let other_value = verdicts_after passes (some (value, passes value)) values in
    if same value last then verdict ∷ same_value else passes value ∷ other_value

unfoldable pub verdicts : (List ℕ → Bool) → List (Option (List ℕ)) → List Bool
unfolding verdicts_after
verdicts passes values = verdicts_after passes none values

-- `BooleanArray::new(verdicts, nulls)`
unfoldable pub with_nulls : List (Option (List ℕ)) → List Bool → BooleanArray
with_nulls (some _ ∷ values) (verdict ∷ rest) = some verdict ∷ with_nulls values rest
with_nulls (none ∷ values) (verdict ∷ rest) = none ∷ with_nulls values rest
with_nulls _ _ = []

-- Without the quotes.
unfoldable pub unquoted : List ℕ → List ℕ
unquoted text = drop 1 (take (length text - 1) text)

abbrev pub values_of : Column → (ℕ → List ℕ) → List (Option (List ℕ))
values_of c value = map (λ i. if c.is_null i then none else some (value i)) (range_from 0 c.len)

module _ (xxh3_64 : List ℕ → ℕ) (hex_encode : List ℕ → List ℕ) where
  -- A set's lookups stay in bounds, so that each of them answers.
  unfoldable pub in_sets : List Fuse8 → List ℕ → Bool
  in_sets sets text =
      any (λ set. elim (Sets.contains xxh3_64 set text) [ none ↦ false | some b ↦ b ]) sets

  -- The renderer that the encoding names.
  unfoldable pub renderer : Option JsonEncoding → Option (List ℕ → List ℕ)
  unfolding encode_hex_bytes encode_base58_bytes
  renderer (some hex_bytes) = some (λ bytes. encode_hex_bytes hex_encode bytes [])
  renderer (some base58) = some (λ bytes. encode_base58_bytes bytes [])
  renderer _ = none

  -- `InSetPredicate::evaluate`, past the dictionary.
  unfoldable pub in_set_mask : Column → InSetPredicate → Mask
  unfolding in_sets verdicts with_nulls renderer unquoted
  in_set_mask c predicate =
      if is_text c.data_type
      then (let values = values_of c (c.text_value) in
          Mask.masked (with_nulls values (verdicts (in_sets predicate.sets) values)))
      else elim (renderer predicate.encoding) [
        | none ↦ or_unsupported none a_set c.data_type
        | some render ↦
            let values = values_of c (c.bytes_value) in
            let passes = λ (bytes : List ℕ). in_sets predicate.sets (unquoted (render bytes)) in
            or_unsupported
              (if is_rendered c.data_type
                then some (with_nulls values (verdicts passes values))
                else none)
              a_set c.data_type
      ]
