-- ===== src/Encoder/Tests.antt =====
-- Runs of src/output/encoder.rs, and the theorems applied to them.
use sqd_query_engine.Prelude.{[], ◌∷◌, ◌≡◌, refl}
use sqd_query_engine.Encoder.{base58_digits, encode_base58_bytes, quote}
use sqd_query_engine.Encoder.Base58.{of_digits, of_bytes, AreDigits, base58_digits-number}

-- Two bytes, 58 * 58 + 5.
base58_digits-number_example :
    (of_digits (base58_digits [] (13 ∷ 41 ∷ [])) ≡ of_bytes 0 (13 ∷ 41 ∷ []))
    × AreDigits (base58_digits [] (13 ∷ 41 ∷ []))
base58_digits-number_example = base58_digits-number (13 ∷ 41 ∷ [])

-- A zero byte renders as "1".
zero_byte : encode_base58_bytes (0 ∷ 58 ∷ []) [] ≡ quote ∷ 49 ∷ 50 ∷ 49 ∷ quote ∷ []
unfolding encode_base58_bytes
zero_byte = refl
