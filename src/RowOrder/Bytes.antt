-- ===== src/RowOrder/Bytes.antt =====
-- src/output/row_order.rs: the bytes of a row's columns order rows as the columns do.
use Prim.Native.Nat.{compare}
use sqd_query_engine.Prelude.{
  ℕ, Bool, true, false, ◌&&◌, Option, none, some, List, [], ◌∷◌, ◌++◌, length, ◌==◌, if◌then◌else◌,
  ◌≡◌, refl, ap, sym, subst, ◌∙◌,
}
use mathlib.Core.List.{append_assoc}
use sqd_query_engine.Prelude.Int.{ℤ}
use sqd_query_engine.Prelude.Words.{Fits}
use sqd_query_engine.Integers.Keys.{Width, bits_of}
use sqd_query_engine.RowOrder.Compare.{
  then_with, cmp_ℤ, cmp_slices, first_difference, first_difference-cmp_slices, then_with_assoc,
}
use sqd_query_engine.RowOrder.Stored.{
  StoredInts, StoredPaths, word, width, to_be_bytes, pack, compare_one, compare_fixed,
  compare_paths, compare_tails, fixed_bytes, path_bytes,
}
use sqd_query_engine.RowOrder.Biased.{AllFit, cmp_slices-word, cmp_slices-pack}
use sqd_query_engine.RowOrder.Words.{AllSame}

-- The paths of two rows, at one integer type.
pub record SamePaths (x : StoredPaths) (a : ℕ) (y : StoredPaths) (b : ℕ) : Type 0 where
  pub wide : (w : Width) × (x.bits ≡ bits_of w)
  pub same_bits : y.bits ≡ x.bits
  pub same_sign : y.signed ≡ x.signed
  pub left_fits : AllFit x.bits x.signed (x.path a)
  pub right_fits : AllFit x.bits x.signed (y.path b)

abbrev pub SameTails : Option StoredPaths → ℕ → Option StoredPaths → ℕ → Type 0
SameTails none a none b = Unit
SameTails none a (some y) b = ⊥
SameTails (some x) a none b = ⊥
SameTails (some x) a (some y) b = SamePaths x a y b

-- Paths compare element by element, then by length, at one type and at two.
pub compare_paths_lem :
    (x : StoredPaths) (a : ℕ) (y : StoredPaths) (b : ℕ)
    → compare_paths x a y b ≡ cmp_slices cmp_ℤ (x.path a) (y.path b)
unfolding compare_paths
compare_paths_lem x a y b =
    either (x.bits == y.bits && (if x.signed then y.signed else (if y.signed then false else true)))
  where
    either :
        (same : Bool)
        → (if same
            then cmp_slices cmp_ℤ (x.path a) (y.path b)
            else then_with
                (first_difference cmp_ℤ (x.path a) (y.path b))
                (compare (length (x.path a)) (length (y.path b))))
          ≡ cmp_slices cmp_ℤ (x.path a) (y.path b)
    either true = refl
    either false = first_difference-cmp_slices cmp_ℤ (x.path a) (y.path b)

pub compare-path_bytes :
    (x : Option StoredPaths) (a : ℕ) (y : Option StoredPaths) (b : ℕ)
    → SameTails x a y b
    → cmp_slices compare (path_bytes x a) (path_bytes y b) ≡ compare_tails x a y b
unfolding path_bytes compare_tails cmp_slices
compare-path_bytes none a none b same = refl
compare-path_bytes none a (some y) b same = elim same [ ]
compare-path_bytes (some x) a none b same = elim same [ ]
compare-path_bytes (some x) a (some y) b same = packs ∙ sym (compare_paths_lem x a y b)
  where
    at_width :
        (bits : ℕ) (s : Bool) (us vs : List ℤ)
        → (w : Width) × (bits ≡ bits_of w)
        → AllFit bits s us
        → AllFit bits s vs
        → cmp_slices compare (pack bits s us) (pack bits s vs) ≡ cmp_slices cmp_ℤ us vs
    at_width bits s us vs (w, e) hu hv = rw e (
        cmp_slices-pack w s us vs (subst (λ n. AllFit n s us) e hu)
          (subst (λ n. AllFit n s vs) e hv))

    packs :
        cmp_slices compare (pack x.bits x.signed (x.path a)) (pack y.bits y.signed (y.path b))
        ≡ cmp_slices cmp_ℤ (x.path a) (y.path b)
    packs =
        rw (same.same_bits, same.same_sign)
          (at_width x.bits x.signed (x.path a) (y.path b) same.wide same.left_fits same.right_fits)

-- The bytes of the fixed columns order rows ahead of what follows.
pub compare-fixed_bytes :
    (xs : List StoredInts) (a : ℕ) (ys : List StoredInts) (b : ℕ) (us vs : List ℕ)
    → AllSame xs a ys b
    → cmp_slices compare (fixed_bytes xs a ++ us) (fixed_bytes ys b ++ vs)
      ≡ then_with (compare_fixed xs a ys b) (cmp_slices compare us vs)
unfolding fixed_bytes compare_fixed pack
compare-fixed_bytes [] a [] b us vs same = refl
compare-fixed_bytes [] a (y ∷ ys) b us vs same = elim same [ ]
compare-fixed_bytes (x ∷ xs) a [] b us vs same = elim same [ ]
compare-fixed_bytes (x ∷ xs) a (y ∷ ys) b us vs same =
    rw (same.0.same_bits, same.0.same_sign)
      (simp append_assoc (
        at_width x.bits x.signed (x.values a) (y.values b) same.0.wide same.0.left_fits
          same.0.right_fits))
    ∙ ap (then_with (compare_one x a y b)) (compare-fixed_bytes xs a ys b us vs same.1)
    ∙ sym
        (then_with_assoc (compare_one x a y b) (compare_fixed xs a ys b) (cmp_slices compare us vs))
  where
    at_width :
        (bits : ℕ) (s : Bool) (u v : ℤ)
        → (w : Width) × (bits ≡ bits_of w)
        → Fits bits s u
        → Fits bits s v
        → cmp_slices compare
            (to_be_bytes (width bits) (word bits s u) ++ (fixed_bytes xs a ++ us))
            (to_be_bytes (width bits) (word bits s v) ++ (fixed_bytes ys b ++ vs))
          ≡ then_with
              (cmp_ℤ u v)
              (cmp_slices compare (fixed_bytes xs a ++ us) (fixed_bytes ys b ++ vs))
    at_width bits s u v (w, e) hu hv = rw e (
        cmp_slices-word w s u v (fixed_bytes xs a ++ us) (fixed_bytes ys b ++ vs)
          (subst (λ n. Fits n s u) e hu) (subst (λ n. Fits n s v) e hv))
