-- ===== src/RowOrder/Words.antt =====
-- src/output/row_order.rs: keys that fit one word order as their columns do.
use Prim.Native.Nat.{compare}
use sqd_query_engine.Prelude.{
  ℕ, zero, suc, ◌+◌, ◌*◌, ◌-◌, ◌%◌, ◌^◌, ◌<◌, ◌≤◌, Bool, List, [], ◌∷◌, ◌≡◌, refl, ap, sym, subst,
  ◌∙◌, bit_or, arith,
}
use native.Mathlib.Nat.{one-le-pow}
use sqd_query_engine.Prelude.Bits.{bit_or-low, two_pow-suc}
use sqd_query_engine.Prelude.Int.{ℤ}
use sqd_query_engine.Prelude.Words.{Fits}
use sqd_query_engine.Integers.Keys.{Width, w8, w16, w32, w64, bits_of}
use sqd_query_engine.RowOrder.Compare.{
  then_with, cmp_ℤ, compare_digits, then_with_assoc, then_with-eq,
}
use sqd_query_engine.RowOrder.Stored.{
  StoredInts, word, width, checked_shl, unwrap_or, compare_one, fold_word, sum_widths,
  compare_fixed,
}
use sqd_query_engine.RowOrder.Biased.{word-lt, compare-word}

-- A value of each row, at one integer type.
pub record SameInts (x : StoredInts) (a : ℕ) (y : StoredInts) (b : ℕ) : Type 0 where
  pub wide : (w : Width) × (x.bits ≡ bits_of w)
  pub same_bits : y.bits ≡ x.bits
  pub same_sign : y.signed ≡ x.signed
  pub left_fits : Fits x.bits x.signed (x.values a)
  pub right_fits : Fits x.bits x.signed (y.values b)

abbrev pub AllSame : List StoredInts → ℕ → List StoredInts → ℕ → Type 0
AllSame [] a [] b = Unit
AllSame [] a (y ∷ ys) b = ⊥
AllSame (x ∷ xs) a [] b = ⊥
AllSame (x ∷ xs) a (y ∷ ys) b = SameInts x a y b × AllSame xs a ys b

two_pow-add : (k b : ℕ) → 2 ^ (k + b) ≡ 2 ^ k * 2 ^ b
two_pow-add k zero = let e : k + 0 ≡ k = omega arith in rw e (omega arith)
two_pow-add k (suc b) =
    let e : k + suc b ≡ suc (k + b) = omega arith in
    rw (e, two_pow-suc (k + b), two_pow-suc b, two_pow-add k b) (grind arith)

two_pow_mono : (k m : ℕ) → k ≤ m → 2 ^ k ≤ 2 ^ m
two_pow_mono k m h =
    let e : m ≡ k + (m - k) = omega arith in
    rw (e, two_pow-add k (m - k)) (grind (arith, one-le-pow (m - k) 2 (omega arith)))

-- A word is shifted past a value, and the value put below it.
shifted_word :
    (w : Width) (acc k v : ℕ)
    → acc < 2 ^ k
    → k + bits_of w ≤ 64
    → v < 2 ^ bits_of w
    → bit_or (unwrap_or (checked_shl acc (width (bits_of w) * 8)) 0) v ≡ acc * 2 ^ bits_of w + v
shifted_word w8 acc k v ha hk hv =
    rw (cut (omega (arith, two_pow_mono k 56 (omega arith)))) (bit_or-low 8 acc v hv)
  where
    cut : acc < 2 ^ 56 → acc * 2 ^ 8 % 2 ^ 64 ≡ acc * 2 ^ 8
    cut h = omega arith
shifted_word w16 acc k v ha hk hv =
    rw (cut (omega (arith, two_pow_mono k 48 (omega arith)))) (bit_or-low 16 acc v hv)
  where
    cut : acc < 2 ^ 48 → acc * 2 ^ 16 % 2 ^ 64 ≡ acc * 2 ^ 16
    cut h = omega arith
shifted_word w32 acc k v ha hk hv =
    rw (cut (omega (arith, two_pow_mono k 32 (omega arith)))) (bit_or-low 32 acc v hv)
  where
    cut : acc < 2 ^ 32 → acc * 2 ^ 32 % 2 ^ 64 ≡ acc * 2 ^ 32
    cut h = omega arith
shifted_word w64 acc k v ha hk hv =
    let e : acc ≡ 0 = omega (arith, two_pow_mono k 0 (omega arith)) in rw e (bit_or-low 64 0 v hv)

bits-width : (w : Width) → width (bits_of w) * 8 ≡ bits_of w
bits-width w8 = omega arith
bits-width _ = omega arith

below_shifted : (k b acc v : ℕ) → acc < 2 ^ k → v < 2 ^ b → acc * 2 ^ b + v < 2 ^ (k + b)
below_shifted k b acc v ha hv = rw (two_pow-add k b) (grind arith)

-- One column more: the words compare by the words so far, then by the column's values.
compare_shifted :
    (x : StoredInts) (a : ℕ) (y : StoredInts) (b k p q : ℕ)
    → SameInts x a y b
    → p < 2 ^ k
    → q < 2 ^ k
    → k + width x.bits * 8 ≤ 64
    → (p' : ℕ) × (q' : ℕ) × (bit_or
          (unwrap_or (checked_shl p (width x.bits * 8)) 0)
          (word x.bits x.signed (x.values a))
        ≡ p')
      × (bit_or (unwrap_or (checked_shl q (width y.bits * 8)) 0) (word y.bits y.signed (y.values b))
          ≡ q')
      × (p' < 2 ^ (k + width x.bits * 8))
      × (q' < 2 ^ (k + width x.bits * 8))
      × (compare p' q' ≡ then_with (compare p q) (compare_one x a y b))
compare_shifted x a y b k p q same hp hq fits =
    rw (same.same_bits, same.same_sign)
      (at_width x.bits x.signed (x.values a) (y.values b) same.wide same.left_fits same.right_fits
        fits)
  where
    at_width :
        (bits : ℕ) (s : Bool) (u v : ℤ)
        → (w : Width) × (bits ≡ bits_of w)
        → Fits bits s u
        → Fits bits s v
        → k + width bits * 8 ≤ 64
        → (p' : ℕ) × (q' : ℕ) × (bit_or
              (unwrap_or (checked_shl p (width bits * 8)) 0)
              (word bits s u)
            ≡ p')
          × (bit_or (unwrap_or (checked_shl q (width bits * 8)) 0) (word bits s v) ≡ q')
          × (p' < 2 ^ (k + width bits * 8))
          × (q' < 2 ^ (k + width bits * 8))
          × (compare p' q' ≡ then_with (compare p q) (cmp_ℤ u v))
    at_width bits s u v (w, e) hu hv fits =
        let hu' : Fits (bits_of w) s u = subst (λ n. Fits n s u) e hu in
        let hv' : Fits (bits_of w) s v = subst (λ n. Fits n s v) e hv in
        let fits' : k + width (bits_of w) * 8 ≤ 64 = subst (λ n. k + width n * 8 ≤ 64) e fits in
        let below : k + bits_of w ≤ 64 = omega (arith, bits-width w) in
        rw
          (
            e,
            shifted_word w p k (word (bits_of w) s u) hp below (word-lt w s u hu'),
            shifted_word w q k (word (bits_of w) s v) hq below (word-lt w s v hv'),
            bits-width w,
          )
          (
            p * 2 ^ bits_of w + word (bits_of w) s u,
            q * 2 ^ bits_of w + word (bits_of w) s v,
            refl,
            refl,
            below_shifted k (bits_of w) p (word (bits_of w) s u) hp (word-lt w s u hu'),
            below_shifted k (bits_of w) q (word (bits_of w) s v) hq (word-lt w s v hv'),
            compare_digits (2 ^ bits_of w) p q (word (bits_of w) s u) (word (bits_of w) s v)
                  (word-lt w s u hu') (word-lt w s v hv')
                ∙ ap (then_with (compare p q)) (compare-word w s u v hu' hv'),
          )

compare-fold_word :
    (xs : List StoredInts) (a : ℕ) (ys : List StoredInts) (b k p q : ℕ)
    → AllSame xs a ys b
    → p < 2 ^ k
    → q < 2 ^ k
    → k + sum_widths xs * 8 ≤ 64
    → compare (fold_word p xs a) (fold_word q ys b)
      ≡ then_with (compare p q) (compare_fixed xs a ys b)
unfolding fold_word compare_fixed
compare-fold_word [] a [] b k p q same hp hq fits = sym (then_with-eq (compare p q))
compare-fold_word [] a (y ∷ ys) b k p q same hp hq fits = elim same [ ]
compare-fold_word (x ∷ xs) a [] b k p q same hp hq fits = elim same [ ]
compare-fold_word (x ∷ xs) a (y ∷ ys) b k p q same hp hq fits =
    let (p', q', ep, eq', lp, lq, c) = compare_shifted x a y b k p q same.0 hp hq (omega arith) in
    rw (ep, eq')
      (compare-fold_word xs a ys b (k + width x.bits * 8) p' q' same.1 lp lq (omega arith)
        ∙ ap (λ o. then_with o (compare_fixed xs a ys b)) c
        ∙ then_with_assoc (compare p q) (compare_one x a y b) (compare_fixed xs a ys b))

-- Words of columns of the same types, at most 64 bits together, order as their values do.
pub compare-word_keys :
    (xs : List StoredInts) (a : ℕ) (ys : List StoredInts) (b : ℕ)
    → AllSame xs a ys b
    → sum_widths xs * 8 ≤ 64
    → compare (fold_word 0 xs a) (fold_word 0 ys b) ≡ compare_fixed xs a ys b
compare-word_keys xs a ys b same fits =
    compare-fold_word xs a ys b 0 0 0 same (omega arith) (omega arith) (omega arith)
