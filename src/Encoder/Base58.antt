-- ===== src/Encoder/Base58.antt =====
-- The digits of src/output/encoder.rs in base 58: the number that the bytes are, in the order that
-- they are read.
use sqd_query_engine.Prelude.{
  ℕ, zero, suc, ◌+◌, ◌*◌, ◌/◌, ◌^◌, ◌≤◌, ◌<◌, List, [], ◌∷◌, ◌==◌, All, ◌≡◌, refl, arith,
  Bool-cases, inl, inr, ==_iff,
}
use sqd_query_engine.Encoder.{push_carry, add_byte, base58_digits}

-- The number that digits stand for, the lowest digit first.
abbrev pub of_digits : List ℕ → ℕ
of_digits [] = 0
of_digits (d ∷ ds) = d + 58 * of_digits ds

-- The number that bytes stand for, the highest first, after the number of those before them.
abbrev pub of_bytes : ℕ → List ℕ → ℕ
of_bytes number [] = number
of_bytes number (b ∷ bs) = of_bytes (number * 256 + b) bs

of_digits-push_carry :
    (steps carry : ℕ) → carry ≤ steps → of_digits (push_carry steps carry) ≡ carry
unfolding push_carry
of_digits-push_carry zero carry h = omega arith
of_digits-push_carry (suc steps) carry h = elim (Bool-cases (carry == 0)) [
  | inl e ↦ rw e (omega (arith, (==_iff carry 0).0 e))
  | inr e ↦ rw e (omega (arith, of_digits-push_carry steps (carry / 58) (ground arith)))
]

of_digits-add_byte :
    (digits : List ℕ) (carry : ℕ)
    → of_digits (add_byte digits carry) ≡ of_digits digits * 256 + carry
unfolding add_byte
of_digits-add_byte [] carry = omega (arith, of_digits-push_carry carry carry (omega arith))
of_digits-add_byte (d ∷ ds) carry = omega (arith, of_digits-add_byte ds ((carry + d * 2 ^ 8) / 58))

pub of_digits-base58_digits :
    (bytes digits : List ℕ)
    → of_digits (base58_digits digits bytes) ≡ of_bytes (of_digits digits) bytes
unfolding base58_digits
of_digits-base58_digits [] digits = refl
of_digits-base58_digits (b ∷ bs) digits =
    rw (of_digits-base58_digits bs (add_byte digits b), of_digits-add_byte digits b)

-- Every digit is below 58.
abbrev pub AreDigits : List ℕ → Type 0
AreDigits digits = All (λ d. d < 58) digits

push_carry-AreDigits : (steps carry : ℕ) → AreDigits (push_carry steps carry)
unfolding push_carry
push_carry-AreDigits zero carry = tt
push_carry-AreDigits (suc steps) carry = elim (Bool-cases (carry == 0)) [
  | inl e ↦ rw e tt
  | inr e ↦ rw e (omega arith, push_carry-AreDigits steps (carry / 58))
]

add_byte-AreDigits : (digits : List ℕ) (carry : ℕ) → AreDigits (add_byte digits carry)
unfolding add_byte
add_byte-AreDigits [] carry = push_carry-AreDigits carry carry
add_byte-AreDigits (d ∷ ds) carry = (omega arith, add_byte-AreDigits ds ((carry + d * 2 ^ 8) / 58))

pub base58_digits-AreDigits :
    (bytes digits : List ℕ) → AreDigits digits → AreDigits (base58_digits digits bytes)
unfolding base58_digits
base58_digits-AreDigits [] digits h = h
base58_digits-AreDigits (b ∷ bs) digits h =
    base58_digits-AreDigits bs (add_byte digits b) (add_byte-AreDigits digits b)

-- The digits of bytes in base 58 are digits, and stand for the number that the bytes are, the first
-- byte the highest: for all bytes.
pub base58_digits-number :
    (bytes : List ℕ)
    → (of_digits (base58_digits [] bytes) ≡ of_bytes 0 bytes) × AreDigits (base58_digits [] bytes)
base58_digits-number bytes = (of_digits-base58_digits bytes [], base58_digits-AreDigits bytes [] tt)
