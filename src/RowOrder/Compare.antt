-- ===== src/RowOrder/Compare.antt =====
-- `std::cmp::Ordering` as the keys of src/output/row_order.rs use it.
use Prim.Native.Nat.{compare, Ordering}
use sqd_query_engine.Prelude.{
  ℕ, ◌+◌, ◌*◌, ◌<◌, ◌≤◌, Bool, true, false, Option, none, some, List, [], ◌∷◌, length, ◌≡◌, refl,
  arith,
}
use native.Mathlib.Decide.{dec_lt}
use sqd_query_engine.Prelude.Int.{ℤ, pos_part, neg_part}

abbrev pub is_lt : Ordering → Bool
is_lt Ordering.lt = true
is_lt Ordering.eq = false
is_lt Ordering.gt = false

-- `Ordering::then`; a loop that returns the first order that is not equal
abbrev pub then_with : Ordering → Ordering → Ordering
then_with Ordering.lt o = Ordering.lt
then_with Ordering.eq o = o
then_with Ordering.gt o = Ordering.gt

abbrev pub cmp_ℤ : ℤ → ℤ → Ordering
cmp_ℤ a b = compare (pos_part a + neg_part b) (pos_part b + neg_part a)

module _ {A : Type 0} (cmp : A → A → Ordering) where
  -- `Ord` of `Option`
  abbrev pub cmp_option : Option A → Option A → Ordering
  cmp_option none none = Ordering.eq
  cmp_option none (some b) = Ordering.lt
  cmp_option (some a) none = Ordering.gt
  cmp_option (some a) (some b) = cmp a b

  -- `Ord` of slices
  unfoldable pub cmp_slices : List A → List A → Ordering
  cmp_slices [] [] = Ordering.eq
  cmp_slices [] (y ∷ ys) = Ordering.lt
  cmp_slices (x ∷ xs) [] = Ordering.gt
  cmp_slices (x ∷ xs) (y ∷ ys) = then_with (cmp x y) (cmp_slices xs ys)

  -- The first pair that differs, of two slices zipped.
  unfoldable pub first_difference : List A → List A → Ordering
  first_difference [] ys = Ordering.eq
  first_difference (x ∷ xs) [] = Ordering.eq
  first_difference (x ∷ xs) (y ∷ ys) = then_with (cmp x y) (first_difference xs ys)

  pub first_difference-cmp_slices :
      (xs ys : List A)
      → then_with (first_difference xs ys) (compare (length xs) (length ys)) ≡ cmp_slices xs ys
  unfolding first_difference cmp_slices
  first_difference-cmp_slices [] [] = ground arith
  first_difference-cmp_slices [] (y ∷ ys) = ground arith
  first_difference-cmp_slices (x ∷ xs) [] = ground arith
  first_difference-cmp_slices (x ∷ xs) (y ∷ ys) = ground (arith, first_difference-cmp_slices xs ys)

pub then_with_assoc : (a b c : Ordering) → then_with (then_with a b) c ≡ then_with a (then_with b c)
then_with_assoc Ordering.lt b c = refl
then_with_assoc Ordering.eq b c = refl
then_with_assoc Ordering.gt b c = refl

pub then_with-eq : (a : Ordering) → then_with a Ordering.eq ≡ a
then_with-eq Ordering.lt = refl
then_with-eq Ordering.eq = refl
then_with-eq Ordering.gt = refl

mul_gap : (q a b : ℕ) → a < b → a * q + q ≤ b * q
mul_gap q a b h = grind arith

-- Numbers compare by their leading digits, then by their last ones.
pub compare_digits :
    (q a b x y : ℕ)
    → x < q
    → y < q
    → compare (a * q + x) (b * q + y) ≡ then_with (compare a b) (compare x y)
compare_digits q a b x y hx hy = elim (dec_lt a b) [
  | yes below ↦ ground (arith, mul_gap q a b below)
  | no not_below ↦ elim (dec_lt b a) [
    | yes above ↦ ground (arith, mul_gap q b a above)
    | no not_above ↦ let e : a ≡ b = omega arith in rw e (ground arith)
  ]
]
