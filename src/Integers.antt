-- ===== src/Integers.antt =====
-- src/integers.rs: integer columns at every physical width, block numbers, join keys, and the
-- values of a filter narrowed to the width that a column is stored at.
pub mod Keys
pub mod Filter
pub mod Blocks
mod Tests
use sqd_query_engine.Prelude.{
  ℕ, ◌-◌, ◌^◌, ◌%◌, Bool, true, false, ◌||◌, ◌&&◌, Option, none, some, List, map, ◌==◌,
  if◌then◌else◌, keep, bit_and,
}
use sqd_query_engine.Prelude.Int.{ℤ, pos, leb_ℤ, ltb_ℤ}
use sqd_query_engine.Prelude.Bits.{◌<<<◌, ◌>>>◌}
use sqd_query_engine.Prelude.Words.{as_unsigned, as_signed, neg_ℕ, shift_right}
use sqd_query_engine.Arrow.{DataType}
use sqd_query_engine.Arrow.DataType.{uint64, uint32, uint16, uint8, int64, int32, int16, int8}

-- The width in bits and the signedness of an integer type: the list `for_each_int_type`.
unfoldable pub width_of : DataType → Option (ℕ × Bool)
width_of uint64 = some (64, false)
width_of uint32 = some (32, false)
width_of uint16 = some (16, false)
width_of uint8 = some (8, false)
width_of int64 = some (64, true)
width_of int32 = some (32, true)
width_of int16 = some (16, true)
width_of int8 = some (8, true)
width_of _ = none

unfoldable pub is_integer : DataType → Bool
unfolding width_of
is_integer t = elim (width_of t) [ none ↦ false | some _ ↦ true ]

-- `value as i64 as u64`
unfoldable pub stored_key : ℤ → ℕ
stored_key v = as_unsigned 64 (as_signed 64 (as_unsigned 64 v))

-- `IntColumn::block_number`: the value of a column `bits` wide, read unsigned.
unfoldable pub block_number : ℕ → ℤ → ℕ
block_number bits v = as_unsigned bits v

-- `block_number_at`: `stat as $native as $unsigned` keeps the column's bits of the statistic.
unfoldable pub block_number_at : DataType → ℤ → Option ℕ
unfolding width_of
block_number_at t stat = elim (width_of t) [
  | none ↦ none
  | some (bits, signed) ↦ some (as_unsigned bits stat)
]

unfoldable pub fits_unsigned : ℕ → ℕ → Bool
fits_unsigned value bits = bits == 64 || value >>> bits == 0

unfoldable pub fits_signed : ℤ → ℕ → Bool
fits_signed value bits =
    if bits == 64
    then true
    else (let half = 2 ^ (bits - 1) in leb_ℤ (neg_ℕ half) value && ltb_ℤ value (pos half))

unfoldable pub sign_extend : ℕ → ℕ → ℕ
sign_extend bits_value bits =
    let shift = 64 - bits in
    as_unsigned 64 (shift_right (as_signed 64 ((bits_value <<< shift) % 2 ^ 64)) shift)

unfoldable pub zero_extend : ℕ → ℕ → ℕ
zero_extend bits_value bits = if bits == 64 then bits_value else bit_and bits_value (2 ^ bits - 1)

unfoldable pub declared_value : ℤ → ℕ → Bool → ℤ
unfolding stored_key sign_extend zero_extend
declared_value stored bits declared_signed =
    let key = stored_key stored in
    if declared_signed then as_signed 64 (sign_extend key bits) else pos (zero_extend key bits)

pub data IntValues : Type 0 where
  unsigned : List ℕ → IntValues
  signed : List ℤ → IntValues

unfoldable pub is_signed : IntValues → Bool
is_signed (unsigned _) = false
is_signed (signed _) = true

-- The keys of the values that fit a column `bits` wide, in order.
unfoldable pub narrowed_keys : IntValues → ℕ → Bool → List ℕ
unfolding fits_unsigned fits_signed sign_extend zero_extend
narrowed_keys (unsigned values) bits stored_signed =
    map (λ v. if stored_signed then sign_extend v bits else v)
      (keep (λ v. fits_unsigned v bits) values)
narrowed_keys (signed values) bits stored_signed =
    map (λ v. if stored_signed then as_unsigned 64 v else zero_extend (as_unsigned 64 v) bits)
      (keep (λ v. fits_signed v bits) values)

unfoldable pub stored_keys : IntValues → DataType → Option (List ℕ)
unfolding width_of narrowed_keys
stored_keys values stored = elim (width_of stored) [
  | none ↦ none
  | some (bits, stored_signed) ↦ some (narrowed_keys values bits stored_signed)
]
