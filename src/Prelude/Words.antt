-- ===== src/Prelude/Words.antt =====
-- Rust's fixed-width integers: an unsigned word is the number below `2 ^ bits` that it holds, a
-- signed one the integer; the casts between them, and the saturating, checked and wrapping
-- operations on `u64`.
use Prim.Native.Nat.{ℕ, zero, suc, ◌+◌, ◌-◌, ◌*◌, ◌/◌, ◌%◌, ◌^◌, min}
use mathlib.Core.Bool.{Bool, true, false}
use mathlib.Core.List.{List, [], ◌∷◌}
use mathlib.Core.Option.{Option, none, some}
use sqd_query_engine.Prelude.Tests.{ltb, leb, if◌then◌else◌}
use sqd_query_engine.Prelude.Int.{ℤ, pos, negsuc, ◌≤ℤ◌, ◌<ℤ◌}
use sqd_query_engine.Prelude.Bits.{◌>>>◌}

abbrev pub u64_mod : ℕ
u64_mod = 2 ^ 64

abbrev pub u64_max : ℕ
u64_max = 2 ^ 64 - 1

-- `v as u<bits>`
abbrev pub as_unsigned : ℕ → ℤ → ℕ
as_unsigned bits (pos n) = n % 2 ^ bits
as_unsigned bits (negsuc n) = 2 ^ bits - 1 - n % 2 ^ bits

-- `w as i<bits>`, of a `u<bits>`
abbrev pub as_signed : ℕ → ℕ → ℤ
as_signed bits w = if ltb w (2 ^ (bits - 1)) then pos w else negsuc (2 ^ bits - 1 - w)

-- -n
abbrev pub neg_ℕ : ℕ → ℤ
neg_ℕ zero = pos 0
neg_ℕ (suc n) = negsuc n

-- `>>` of a signed word, which rounds down
abbrev pub shift_right : ℤ → ℕ → ℤ
shift_right (pos n) k = pos (n >>> k)
shift_right (negsuc n) k = negsuc (n >>> k)

-- The integers that a word of `bits` bits holds.
abbrev pub Fits : ℕ → Bool → ℤ → Type 0
Fits bits true v = (neg_ℕ (2 ^ (bits - 1)) ≤ℤ v) × (v <ℤ pos (2 ^ (bits - 1)))
Fits bits false v = (pos 0 ≤ℤ v) × (v <ℤ pos (2 ^ bits))

abbrev pub saturating_add : ℕ → ℕ → ℕ
saturating_add a b = min (a + b) u64_max

abbrev pub saturating_mul : ℕ → ℕ → ℕ
saturating_mul a b = min (a * b) u64_max

-- on ℕ this is `-`
abbrev pub saturating_sub : ℕ → ℕ → ℕ
saturating_sub a b = a - b

abbrev pub checked_add : ℕ → ℕ → Option ℕ
checked_add a b = if ltb (a + b) u64_mod then some (a + b) else none

abbrev pub checked_sub : ℕ → ℕ → Option ℕ
checked_sub a b = if leb b a then some (a - b) else none

abbrev pub wrapping_sub : ℕ → ℕ → ℕ
wrapping_sub a b = (a + u64_mod - b) % u64_mod

abbrev pub div_ceil : ℕ → ℕ → ℕ
div_ceil a b = (a + (b - 1)) / b

-- `to_le_bytes` of a word of `n` bytes
abbrev pub to_le_bytes : ℕ → ℕ → List ℕ
to_le_bytes zero w = []
to_le_bytes (suc n) w = w % 256 ∷ to_le_bytes n (w / 256)
