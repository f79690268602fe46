-- ===== src/RowOrder/Biased.antt =====
-- src/output/row_order.rs: the words of values, with a signed one's highest bit flipped, order as the
-- values do, as numbers and as big-endian bytes.
use Prim.Native.Nat.{compare}
use sqd_query_engine.Prelude.{
  ℕ, zero, suc, ◌+◌, ◌-◌, ◌*◌, ◌/◌, ◌%◌, ◌^◌, ◌<◌, ◌≤◌, Bool, true, false, List, [], ◌∷◌, ◌++◌, ◌≡◌,
  refl, ap, ◌∙◌, if◌then◌else◌, arith,
}
use native.Mathlib.Nat.{one-le-pow, mod-add-div, pow-suc}
use sqd_query_engine.Prelude.Bits.{bit_xor-zero, bit_xor-high}
use sqd_query_engine.Prelude.Int.{ℤ, pos, negsuc}
use sqd_query_engine.Prelude.Words.{as_unsigned, Fits}
use sqd_query_engine.Integers.Keys.{Width, w8, w16, w32, w64, bits_of}
use sqd_query_engine.RowOrder.Compare.{
  then_with, cmp_ℤ, cmp_slices, compare_digits, then_with_assoc,
}
use sqd_query_engine.RowOrder.Stored.{word, to_be_bytes, pack, width}

-- A value above the least one that its type holds.
biased : ℕ → Bool → ℤ → ℕ
biased bits signed (pos n) = n + (if signed then 2 ^ (bits - 1) else 0)
biased bits signed (negsuc n) = 2 ^ (bits - 1) - suc n

word-biased :
    (w : Width) (s : Bool) (v : ℤ)
    → Fits (bits_of w) s v
    → word (bits_of w) s v ≡ biased (bits_of w) s v
unfolding word biased
word-biased w8 false v h = bit_xor-zero _ ∙ ground arith
word-biased w16 false v h = bit_xor-zero _ ∙ ground arith
word-biased w32 false v h = bit_xor-zero _ ∙ ground arith
word-biased w64 false v h = bit_xor-zero _ ∙ ground arith
word-biased w8 true v h = ground (arith, bit_xor-high 7 (as_unsigned 8 v))
word-biased w16 true v h = ground (arith, bit_xor-high 15 (as_unsigned 16 v))
word-biased w32 true v h = ground (arith, bit_xor-high 31 (as_unsigned 32 v))
word-biased w64 true v h = ground (arith, bit_xor-high 63 (as_unsigned 64 v))

pub word-lt :
    (w : Width) (s : Bool) (v : ℤ) → Fits (bits_of w) s v → word (bits_of w) s v < 2 ^ bits_of w
word-lt w s v h = rw (word-biased w s v h) (low w s v h)
  where
    low :
        (w : Width) (s : Bool) (v : ℤ)
        → Fits (bits_of w) s v
        → biased (bits_of w) s v < 2 ^ bits_of w
    low w8 s v h = unfold biased in ground arith
    low _ s v h = unfold biased in ground arith

pub compare-word :
    (w : Width) (s : Bool) (x y : ℤ)
    → Fits (bits_of w) s x
    → Fits (bits_of w) s y
    → compare (word (bits_of w) s x) (word (bits_of w) s y) ≡ cmp_ℤ x y
compare-word w s x y hx hy = rw (word-biased w s x hx, word-biased w s y hy) (low w s x y hx hy)
  where
    low :
        (w : Width) (s : Bool) (x y : ℤ)
        → Fits (bits_of w) s x
        → Fits (bits_of w) s y
        → compare (biased (bits_of w) s x) (biased (bits_of w) s y) ≡ cmp_ℤ x y
    low w8 s x y hx hy = unfold biased in ground arith
    low _ s x y hx hy = unfold biased in ground arith

cmp_slices-to_be_bytes :
    (n a b : ℕ) (xs ys : List ℕ)
    → a < 256 ^ n
    → b < 256 ^ n
    → cmp_slices compare (to_be_bytes n a ++ xs) (to_be_bytes n b ++ ys)
      ≡ then_with (compare a b) (cmp_slices compare xs ys)
unfolding to_be_bytes cmp_slices
cmp_slices-to_be_bytes zero a b xs ys ha hb = ground arith
cmp_slices-to_be_bytes (suc n) a b xs ys ha hb =
    rw
      (
        digit a ha,
        digit b hb,
        cmp_slices-to_be_bytes n (a % 256 ^ n) (b % 256 ^ n) xs ys (mod_lt a) (mod_lt b),
        ← then_with_assoc (compare (a / 256 ^ n) (b / 256 ^ n))
            (compare (a % 256 ^ n) (b % 256 ^ n)) (cmp_slices compare xs ys),
        ← compare_digits (256 ^ n) (a / 256 ^ n) (b / 256 ^ n) (a % 256 ^ n) (b % 256 ^ n)
            (mod_lt a) (mod_lt b),
        digits_lem a,
        digits_lem b,
      )
      refl
  where
    positive : 1 ≤ 256 ^ n
    positive = one-le-pow n 256 (omega arith)

    mod_lt : (x : ℕ) → x % 256 ^ n < 256 ^ n
    mod_lt x = grind (arith, positive)

    digits_lem : (x : ℕ) → x / 256 ^ n * 256 ^ n + x % 256 ^ n ≡ x
    digits_lem x = omega (arith, mod-add-div x (256 ^ n))

    below : (x : ℕ) → x < 256 ^ suc n → x / 256 ^ n < 256
    below x h = grind (arith, positive, pow-suc 256 n, digits_lem x)

    digit : (x : ℕ) → x < 256 ^ suc n → x / 256 ^ n % 256 ≡ x / 256 ^ n
    digit x h = omega (arith, below x h)

pow-width : (w : Width) → 256 ^ width (bits_of w) ≡ 2 ^ bits_of w
pow-width w8 = omega arith
pow-width _ = omega arith

abbrev pub AllFit : ℕ → Bool → List ℤ → Type 0
AllFit bits signed [] = Unit
AllFit bits signed (v ∷ vs) = Fits bits signed v × AllFit bits signed vs

-- The bytes of a value order it ahead of what follows.
pub cmp_slices-word :
    (w : Width) (s : Bool) (x y : ℤ) (xs ys : List ℕ)
    → Fits (bits_of w) s x
    → Fits (bits_of w) s y
    → cmp_slices compare
        (to_be_bytes (width (bits_of w)) (word (bits_of w) s x) ++ xs)
        (to_be_bytes (width (bits_of w)) (word (bits_of w) s y) ++ ys)
      ≡ then_with (cmp_ℤ x y) (cmp_slices compare xs ys)
cmp_slices-word w s x y xs ys hx hy =
    cmp_slices-to_be_bytes (width (bits_of w)) (word (bits_of w) s x) (word (bits_of w) s y) xs ys
      (omega (arith, word-lt w s x hx, pow-width w)) (omega (arith, word-lt w s y hy, pow-width w))
    ∙ ap (λ o. then_with o (cmp_slices compare xs ys)) (compare-word w s x y hx hy)

-- The bytes of two paths of one type order as the paths do.
pub cmp_slices-pack :
    (w : Width) (s : Bool) (xs ys : List ℤ)
    → AllFit (bits_of w) s xs
    → AllFit (bits_of w) s ys
    → cmp_slices compare (pack (bits_of w) s xs) (pack (bits_of w) s ys) ≡ cmp_slices cmp_ℤ xs ys
unfolding pack cmp_slices
cmp_slices-pack w s [] [] hx hy = refl
cmp_slices-pack w8 s [] (y ∷ ys) hx hy = unfold to_be_bytes in refl
cmp_slices-pack w16 s [] (y ∷ ys) hx hy = unfold to_be_bytes in refl
cmp_slices-pack w32 s [] (y ∷ ys) hx hy = unfold to_be_bytes in refl
cmp_slices-pack w64 s [] (y ∷ ys) hx hy = unfold to_be_bytes in refl
cmp_slices-pack w8 s (x ∷ xs) [] hx hy = unfold to_be_bytes in refl
cmp_slices-pack w16 s (x ∷ xs) [] hx hy = unfold to_be_bytes in refl
cmp_slices-pack w32 s (x ∷ xs) [] hx hy = unfold to_be_bytes in refl
cmp_slices-pack w64 s (x ∷ xs) [] hx hy = unfold to_be_bytes in refl
cmp_slices-pack w s (x ∷ xs) (y ∷ ys) hx hy =
    cmp_slices-word w s x y (pack (bits_of w) s xs) (pack (bits_of w) s ys) hx.0 hy.0
    ∙ ap (then_with (cmp_ℤ x y)) (cmp_slices-pack w s xs ys hx.1 hy.1)
