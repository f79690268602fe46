-- ===== src/Prelude/Bits.antt =====
-- `&`, `|` and `^` on numbers: the law of the lowest digit, and what masks do at every width.
use Prim.Native.Nat.{
  ℕ, zero, suc, ◌+◌, ◌-◌, ◌*◌, ◌/◌, ◌%◌, ◌^◌, ◌≤◌, ◌<◌, min, max, bit_and, bit_or, bit_xor, digits,
  bitwise, differ, bit_and-bitwise, bit_or-bitwise, bit_xor-bitwise,
}
use mathlib.Core.Path.{◌≡◌, refl, ap, ◌∙◌}
use native.Mathlib.Nat.{pow-suc, one-le-pow, div-div-eq-div-mul, mod-add-div}
use native.Mathlib.Omega.{arith}

-- Each native operation stands for `bitwise z f`, a recursion on the digits of its first argument,
-- with as many steps as that argument; `z` is the operation on 0, and `f` the one on a digit.
module _ (z : ℕ → ℕ) (f : ℕ → ℕ → ℕ) (at_zero : (y : ℕ) → z y ≡ z (y / 2) * 2 + f 0 (y % 2)) where
  -- More steps than the number has digits change nothing.
  spare_steps :
      (x y have need : ℕ) → (x ≤ have) × (x ≤ need) → digits z f have x y ≡ digits z f need x y
  spare_steps zero y zero zero h = refl
  spare_steps zero y zero (suc need) h = refl
  spare_steps zero y (suc have) zero h = refl
  spare_steps zero y (suc have) (suc need) h = refl
  spare_steps (suc x) y zero need h = absurd (omega arith)
  spare_steps (suc x) y (suc have) zero h = absurd (omega arith)
  spare_steps (suc x) y (suc have) (suc need) h =
      rw (spare_steps (suc x / 2) (y / 2) have need (omega arith))

  lowest_digit : (x y : ℕ) → bitwise z f x y ≡ bitwise z f (x / 2) (y / 2) * 2 + f (x % 2) (y % 2)
  lowest_digit zero y = at_zero y
  lowest_digit (suc x) y = rw (spare_steps (suc x / 2) (y / 2) x (suc x / 2) (omega arith)) refl

pub bit_and_step : (a b : ℕ) → bit_and a b ≡ bit_and (a / 2) (b / 2) * 2 + min (a % 2) (b % 2)
bit_and_step a b = simp bit_and-bitwise (lowest_digit (λ _. 0) min (λ y. omega arith) a b)

pub bit_or_step : (a b : ℕ) → bit_or a b ≡ bit_or (a / 2) (b / 2) * 2 + max (a % 2) (b % 2)
bit_or_step a b = simp bit_or-bitwise (lowest_digit (λ y. y) max (λ y. omega arith) a b)

pub bit_xor_step : (a b : ℕ) → bit_xor a b ≡ bit_xor (a / 2) (b / 2) * 2 + differ (a % 2) (b % 2)
bit_xor_step a b = simp bit_xor-bitwise (lowest_digit (λ y. y) differ (λ y. omega arith) a b)

-- `x >> k` and `x << k` before it is cut to a width.
infixl 75 ◌<<<◌ ◌>>>◌
abbrev pub ◌<<<◌ : ℕ → ℕ → ℕ
x <<< k = x * 2 ^ k

abbrev pub ◌>>>◌ : ℕ → ℕ → ℕ
x >>> k = x / 2 ^ k

-- Bit `k` of `x`, as 0 or 1.
abbrev pub bit : ℕ → ℕ → ℕ
bit x k = x / 2 ^ k % 2

pub two_pow_pos : (k : ℕ) → 1 ≤ 2 ^ k
two_pow_pos k = one-le-pow k 2 (omega arith)

pub two_pow-suc : (k : ℕ) → 2 ^ suc k ≡ 2 * 2 ^ k
two_pow-suc k = omega (arith, pow-suc 2 k)

pub div_two_pow_suc : (a k : ℕ) → a / 2 ^ suc k ≡ a / 2 / 2 ^ k
div_two_pow_suc a k = rw (two_pow-suc k, div-div-eq-div-mul a 2 (2 ^ k))

mod_two_pow_suc : (a k : ℕ) → a % 2 ^ suc k ≡ 2 * (a / 2 % 2 ^ k) + a % 2
mod_two_pow_suc a k = omega (
  arith,
  mod-add-div a (2 ^ suc k),
  mod-add-div (a / 2) (2 ^ k),
  div_two_pow_suc a k,
  ap (λ (t : ℕ). t * (a / 2 / 2 ^ k)) (two_pow-suc k),
  ap (λ (t : ℕ). 2 ^ suc k * t) (div_two_pow_suc a k),
)

half_mask : (k : ℕ) → (2 ^ suc k - 1) / 2 ≡ 2 ^ k - 1
half_mask k = omega (arith, two_pow-suc k, two_pow_pos k)

pub bit-bit_or : (k a b : ℕ) → bit (bit_or a b) k ≡ max (bit a k) (bit b k)
bit-bit_or zero a b = omega (arith, bit_or_step a b)
bit-bit_or (suc k) a b =
    rw (div_two_pow_suc (bit_or a b) k, div_two_pow_suc a k, div_two_pow_suc b k, halved)
      (bit-bit_or k (a / 2) (b / 2))
  where
    halved : bit_or a b / 2 ≡ bit_or (a / 2) (b / 2)
    halved = omega (arith, bit_or_step a b)

-- Masking does not exceed the mask.
masked_by_steps : (steps a b : ℕ) → a ≤ steps → bit_and a b ≤ b
masked_by_steps steps zero b h = omega (arith, bit_and-bitwise 0 b)
masked_by_steps zero (suc a) b h = absurd (omega arith)
masked_by_steps (suc steps) (suc a) b h =
    omega (arith, bit_and_step (suc a) b, masked_by_steps steps (suc a / 2) (b / 2) (omega arith))

pub bit_and-le_right : (a b : ℕ) → bit_and a b ≤ b
bit_and-le_right a b = masked_by_steps a a b (omega arith)

-- A mask of `k` ones leaves the remainder by `2 ^ k`.
pub bit_and-mask : (k a : ℕ) → bit_and a (2 ^ k - 1) ≡ a % 2 ^ k
bit_and-mask zero a = omega (arith, bit_and-le_right a 0)
bit_and-mask (suc k) a =
    rw (bit_and_step a (2 ^ suc k - 1), half_mask k, bit_and-mask k (a / 2), mod_two_pow_suc a k)
      (omega (arith, two_pow-suc k, two_pow_pos k))

pub bit_and-one : (a : ℕ) → bit_and a 1 ≡ a % 2
bit_and-one a = bit_and-mask 1 a

differ-zero : (x : ℕ) → differ x 0 ≡ x
differ-zero zero = refl
differ-zero (suc x) = refl

differ-le_one : (x y : ℕ) → x ≤ 1 → y ≤ 1 → differ x y ≤ 1
differ-le_one zero y p q = q
differ-le_one (suc x) zero p q = p
differ-le_one (suc zero) (suc zero) p q = omega arith
differ-le_one (suc zero) (suc (suc y)) p q = absurd (omega arith)
differ-le_one (suc (suc x)) (suc y) p q = absurd (omega arith)

pub bit_xor-half : (a b : ℕ) → bit_xor a b / 2 ≡ bit_xor (a / 2) (b / 2)
bit_xor-half a b =
    omega (arith, bit_xor_step a b, differ-le_one (a % 2) (b % 2) (omega arith) (omega arith))

bit_xor-zero_fuel : (n a : ℕ) → a ≤ n → bit_xor a 0 ≡ a
bit_xor-zero_fuel n zero h = refl
bit_xor-zero_fuel zero (suc a) h = absurd (omega arith)
bit_xor-zero_fuel (suc n) (suc a) h = omega (
  arith,
  bit_xor_step (suc a) 0,
  differ-zero (suc a % 2),
  bit_xor-zero_fuel n (suc a / 2) (omega arith),
)

-- `^` with a number below `2 ^ k` stays in the same block of `2 ^ k` numbers.
pub bit_xor-div : (k a r : ℕ) → r < 2 ^ k → bit_xor a r / 2 ^ k ≡ a / 2 ^ k
bit_xor-div zero a zero h = rw (bit_xor-zero_fuel a a (omega arith))
bit_xor-div zero a (suc r) h = absurd (omega arith)
bit_xor-div (suc k) a r h =
    rw (div_two_pow_suc (bit_xor a r) k, div_two_pow_suc a k, bit_xor-half a r)
      (bit_xor-div k (a / 2) (r / 2) (omega (arith, two_pow-suc k)))

pub bit_xor-zero : (a : ℕ) → bit_xor a 0 ≡ a
bit_xor-zero a = bit_xor-zero_fuel a a (omega arith)

bit_or-zero_fuel : (n a : ℕ) → a ≤ n → bit_or a 0 ≡ a
bit_or-zero_fuel n zero h = refl
bit_or-zero_fuel zero (suc a) h = absurd (omega arith)
bit_or-zero_fuel (suc n) (suc a) h =
    omega (arith, bit_or_step (suc a) 0, bit_or-zero_fuel n (suc a / 2) (omega arith))

-- `|` of a number shifted by `k` bits with one below `2 ^ k`.
pub bit_or-low : (k a x : ℕ) → x < 2 ^ k → bit_or (a * 2 ^ k) x ≡ a * 2 ^ k + x
bit_or-low zero a zero h = rw (bit_or-zero_fuel (a * 1) (a * 1) (omega arith)) (omega arith)
bit_or-low zero a (suc x) h = absurd (omega arith)
bit_or-low (suc k) a x h =
    rw (bit_or_step (a * 2 ^ suc k) x, halved, even)
      (rw (bit_or-low k a (x / 2) (omega (arith, two_pow-suc k))) (omega (arith, doubled)))
  where
    doubled : a * 2 ^ suc k ≡ 2 * (a * 2 ^ k)
    doubled = rw (two_pow-suc k) (grind arith)

    halved : a * 2 ^ suc k / 2 ≡ a * 2 ^ k
    halved = omega (arith, doubled)

    even : a * 2 ^ suc k % 2 ≡ 0
    even = omega (arith, doubled)

-- `^` with a word's highest bit flips it.
pub bit_xor-high :
    (k w : ℕ)
    → w < 2 ^ suc k
    → (w < 2 ^ k → bit_xor w (2 ^ k) ≡ w + 2 ^ k) × (2 ^ k ≤ w → bit_xor w (2 ^ k) + 2 ^ k ≡ w)
bit_xor-high zero zero h = omega arith
bit_xor-high zero (suc zero) h = omega arith
bit_xor-high zero (suc (suc w)) h = absurd (omega arith)
bit_xor-high (suc k) w h = (
  λ low.
      step
      ∙ omega
          (arith, (bit_xor-high k (w / 2) below).0 (omega (arith, two_pow-suc k)), two_pow-suc k),
  λ high.
      omega (
        arith,
        step,
        (bit_xor-high k (w / 2) below).1 (omega (arith, two_pow-suc k)),
        two_pow-suc k,
      ),
)
  where
    below : w / 2 < 2 ^ suc k
    below = omega (arith, two_pow-suc (suc k))

    half : 2 ^ suc k / 2 ≡ 2 ^ k
    half = omega (arith, two_pow-suc k)

    even : 2 ^ suc k % 2 ≡ 0
    even = omega (arith, two_pow-suc k)

    step : bit_xor w (2 ^ suc k) ≡ bit_xor (w / 2) (2 ^ k) * 2 + w % 2
    step = rw (bit_xor_step w (2 ^ suc k), half, even, differ-zero (w % 2)) refl
