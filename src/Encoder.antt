-- ===== src/Encoder.antt =====
-- src/output/encoder.rs: how bytes render as text, quoted: in hex, and in base 58.
pub mod Base58
mod Tests
use sqd_query_engine.Prelude.{
  ℕ, zero, suc, ◌+◌, ◌*◌, ◌/◌, ◌%◌, ◌^◌, Bool, true, false, List, [], ◌∷◌, ◌++◌, map, ◌==◌,
  replicate, get_or, if◌then◌else◌,
}

abbrev pub quote : ℕ
quote = 34

-- The characters of "123456789ABCDEFGHJKLMNPQRSTUVWXYZabcdefghijkmnopqrstuvwxyz".
unfoldable pub base58_alphabet : List ℕ
base58_alphabet =
    49 ∷ 50 ∷ 51 ∷ 52 ∷ 53 ∷ 54 ∷ 55 ∷ 56 ∷ 57 ∷ 65 ∷ 66 ∷ 67 ∷ 68 ∷ 69 ∷ 70 ∷ 71 ∷ 72 ∷ 74 ∷ 75
    ∷ 76 ∷ 77 ∷ 78 ∷ 80 ∷ 81 ∷ 82 ∷ 83 ∷ 84 ∷ 85 ∷ 86 ∷ 87 ∷ 88 ∷ 89 ∷ 90 ∷ 97 ∷ 98 ∷ 99 ∷ 100 ∷ 101
    ∷ 102 ∷ 103 ∷ 104 ∷ 105 ∷ 106 ∷ 107 ∷ 109 ∷ 110 ∷ 111 ∷ 112 ∷ 113 ∷ 114 ∷ 115 ∷ 116 ∷ 117 ∷ 118
    ∷ 119 ∷ 120 ∷ 121 ∷ 122 ∷ []

-- The zero bytes in front, and the bytes after them.
unfoldable pub leading_zeros : List ℕ → ℕ
leading_zeros [] = 0
leading_zeros (b ∷ bs) = let rest = leading_zeros bs in if b == 0 then suc rest else 0

unfoldable pub after_zeros : List ℕ → List ℕ
after_zeros [] = []
after_zeros (b ∷ bs) = let rest = after_zeros bs in if b == 0 then rest else b ∷ bs

-- `while carry > 0`; of the steps, one per division.
unfoldable pub push_carry : ℕ → ℕ → List ℕ
push_carry zero carry = []
push_carry (suc steps) carry =
    let rest = push_carry steps (carry / 58) in if carry == 0 then [] else carry % 58 ∷ rest

-- `for digit in digits.iter_mut()`, and the carry pushed after it.
unfoldable pub add_byte : List ℕ → ℕ → List ℕ
unfolding push_carry
add_byte [] carry = push_carry carry carry
add_byte (digit ∷ digits) carry =
    (carry + digit * 2 ^ 8) % 58 ∷ add_byte digits ((carry + digit * 2 ^ 8) / 58)

-- The digits, the lowest first.
unfoldable pub base58_digits : List ℕ → List ℕ → List ℕ
unfolding add_byte
base58_digits digits [] = digits
base58_digits digits (byte ∷ bytes) = base58_digits (add_byte digits byte) bytes

unfoldable pub reversed : List ℕ → List ℕ → List ℕ
reversed [] done = done
reversed (x ∷ xs) done = reversed xs (x ∷ done)

unfoldable pub encode_base58_bytes : List ℕ → List ℕ → List ℕ
unfolding base58_digits leading_zeros after_zeros reversed base58_alphabet
encode_base58_bytes bytes buf =
    buf
    ++ quote ∷ replicate (leading_zeros bytes) 49
    ++ map (λ d. get_or base58_alphabet d 0) (reversed (base58_digits [] (after_zeros bytes)) [])
    ++ quote ∷ []

-- `faster_hex::hex_encode` is the first argument.
unfoldable pub encode_hex_bytes : (List ℕ → List ℕ) → List ℕ → List ℕ → List ℕ
encode_hex_bytes hex_encode bytes buf = buf ++ quote ∷ 48 ∷ 120 ∷ hex_encode bytes ++ quote ∷ []
