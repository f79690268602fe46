-- ===== src/Integers/Keys.antt =====
-- The keys of src/integers.rs: what each narrowing computes, at each width.
use sqd_query_engine.Prelude.{
  ℕ, ◌^◌, ◌%◌, ◌<◌, Bool, true, false, ◌&&◌, some, ◌==◌, if◌then◌else◌, ◌≡◌, arith,
}
use sqd_query_engine.Prelude.Int.{ℤ, pos, eqb_ℤ}
use sqd_query_engine.Prelude.Bits.{bit_and-mask}
use sqd_query_engine.Prelude.Words.{as_unsigned, as_signed, Fits}
use sqd_query_engine.Integers.{
  is_integer, width_of, stored_key, sign_extend, zero_extend, fits_unsigned, fits_signed,
  declared_value,
}
use sqd_query_engine.Arrow.{DataType}
use sqd_query_engine.Arrow.DataType.{uint64, uint32, uint16, uint8, int64, int32, int16, int8}

-- The widths of `width_of`.
pub data Width : Type 0 where
  w8 w16 w32 w64 : Width

abbrev pub bits_of : Width → ℕ
bits_of w8 = 8
bits_of w16 = 16
bits_of w32 = 32
bits_of w64 = 64

pub Width-width_of :
    (t : DataType) {b : ℕ} {s : Bool} → width_of t ≡ some (b, s) → (w : Width) × (b ≡ bits_of w)
unfolding width_of
Width-width_of uint64 h = (w64, ground arith)
Width-width_of uint32 h = (w32, ground arith)
Width-width_of uint16 h = (w16, ground arith)
Width-width_of uint8 h = (w8, ground arith)
Width-width_of int64 h = (w64, ground arith)
Width-width_of int32 h = (w32, ground arith)
Width-width_of int16 h = (w16, ground arith)
Width-width_of int8 h = (w8, ground arith)
Width-width_of _ h = absurd (ground arith)

pub is_integer-width : (t : DataType) {p : ℕ × Bool} → width_of t ≡ some p → is_integer t ≡ true
unfolding is_integer
is_integer-width t e = rw (e, is_integer)

pub stored_key_lem : (v : ℤ) → stored_key v ≡ as_unsigned 64 v
unfolding stored_key
stored_key_lem v = ground arith

pub sign_extend_lem :
    (w : Width) (x : ℕ)
    → x < 2 ^ 64
    → sign_extend x (bits_of w) ≡ as_unsigned 64 (as_signed (bits_of w) (x % 2 ^ bits_of w))
unfolding sign_extend
sign_extend_lem w8 x h = ground arith
sign_extend_lem _ x h = ground arith

pub zero_extend_lem :
    (w : Width) (x : ℕ) → x < 2 ^ 64 → zero_extend x (bits_of w) ≡ x % 2 ^ bits_of w
unfolding zero_extend
zero_extend_lem w8 x h = bit_and-mask 8 x
zero_extend_lem w16 x h = bit_and-mask 16 x
zero_extend_lem w32 x h = bit_and-mask 32 x
zero_extend_lem w64 x h = ground arith

as_unsigned-lt : (v : ℤ) → as_unsigned 64 v < 2 ^ 64
as_unsigned-lt v = ground arith

pub declared_value_unsigned :
    (w : Width) (x : ℤ) → declared_value x (bits_of w) false ≡ pos (as_unsigned (bits_of w) x)
unfolding declared_value
declared_value_unsigned w x =
    rw (stored_key_lem x, zero_extend_lem w (as_unsigned 64 x) (as_unsigned-lt x)) (low w x)
  where
    low :
        (w : Width) (x : ℤ)
        → pos (as_unsigned 64 x % 2 ^ bits_of w) ≡ pos (as_unsigned (bits_of w) x)
    low w8 x = ground arith
    low _ x = ground arith

pub declared_value_signed :
    (w : Width) (x : ℤ)
    → declared_value x (bits_of w) true ≡ as_signed (bits_of w) (as_unsigned (bits_of w) x)
unfolding declared_value
declared_value_signed w x =
    rw (stored_key_lem x, sign_extend_lem w (as_unsigned 64 x) (as_unsigned-lt x)) (low w x)
  where
    low :
        (w : Width) (x : ℤ)
        → as_signed 64 (as_unsigned 64 (as_signed (bits_of w) (as_unsigned 64 x % 2 ^ bits_of w)))
          ≡ as_signed (bits_of w) (as_unsigned (bits_of w) x)
    low w8 x = ground arith
    low _ x = ground arith

-- The key of one unsigned filter value is a stored value's key exactly when that stored value is
-- declared to be the filter's.
pub unsigned_key_agrees :
    (w : Width) (s : Bool) (v : ℕ) (x : ℤ)
    → v < 2 ^ 64
    → Fits (bits_of w) s x
    → (fits_unsigned v (bits_of w) && (if s then sign_extend v (bits_of w) else v) == stored_key x)
      ≡ eqb_ℤ (pos v) (declared_value x (bits_of w) false)
unsigned_key_agrees w s v x hv hx =
    rw (declared_value_unsigned w x, stored_key_lem x, sign_extend_lem w v hv) (low w s v x hv hx)
  where
    low :
        (w : Width) (s : Bool) (v : ℕ) (x : ℤ)
        → v < 2 ^ 64
        → Fits (bits_of w) s x
        → (fits_unsigned v (bits_of w)
            && (if s then as_unsigned 64 (as_signed (bits_of w) (v % 2 ^ bits_of w)) else v)
              == as_unsigned 64 x)
          ≡ eqb_ℤ (pos v) (pos (as_unsigned (bits_of w) x))
    low w8 true v x hv hx = unfold fits_unsigned in ground arith
    low _ _ v x hv hx = unfold fits_unsigned in ground arith

pub signed_key_agrees :
    (w : Width) (s : Bool) (v x : ℤ)
    → Fits 64 true v
    → Fits (bits_of w) s x
    → (fits_signed v (bits_of w)
        && (if s then as_unsigned 64 v else zero_extend (as_unsigned 64 v) (bits_of w))
          == stored_key x)
      ≡ eqb_ℤ v (declared_value x (bits_of w) true)
signed_key_agrees w s v x hv hx =
    rw
      (
        declared_value_signed w x,
        stored_key_lem x,
        zero_extend_lem w (as_unsigned 64 v) (as_unsigned-lt v),
      )
      (low w s v x hv hx)
  where
    low :
        (w : Width) (s : Bool) (v x : ℤ)
        → Fits 64 true v
        → Fits (bits_of w) s x
        → (fits_signed v (bits_of w)
            && (if s then as_unsigned 64 v else as_unsigned 64 v % 2 ^ bits_of w)
              == as_unsigned 64 x)
          ≡ eqb_ℤ v (as_signed (bits_of w) (as_unsigned (bits_of w) x))
    low w8 true v x hv hx = unfold fits_signed in ground arith
    low _ _ v x hv hx = unfold fits_signed in ground arith
