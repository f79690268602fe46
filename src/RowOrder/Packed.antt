-- ===== src/RowOrder/Packed.antt =====
-- src/output/row_order.rs: keys written out as bytes order as their columns do.
use Prim.Native.Nat.{compare}
use sqd_query_engine.Prelude.{
  ℕ, zero, suc, ◌+◌, ◌*◌, ◌-◌, ◌<◌, ◌≤◌, Bool, Bool-cases, inl, inr, Option, none, some, List, [],
  ◌∷◌, ◌++◌, take, drop, length, get_or, range_from, length-append, ap₂, ◌%◌, ◌^◌, ◌==◌,
  if◌then◌else◌, ◌≡◌, refl, ap, ◌∙◌, arith,
}
use sqd_query_engine.Prelude.Int.{ℤ}
use sqd_query_engine.RowOrder.Compare.{then_with, cmp_slices}
use sqd_query_engine.RowOrder.Stored.{
  StoredInts, StoredPaths, TypedKeys, word, width, to_be_bytes, pack, key, sum_widths, first_len,
  path_rows, compare_fixed, compare_tails, fixed_bytes, path_bytes, path_size, ends_from, bytes_of,
  packed_keys,
}
use sqd_query_engine.RowOrder.Words.{AllSame}
use sqd_query_engine.RowOrder.Bytes.{SameTails, compare-path_bytes, compare-fixed_bytes}

length-to_be_bytes : (n w : ℕ) → length (to_be_bytes n w) ≡ n
unfolding to_be_bytes
length-to_be_bytes zero w = refl
length-to_be_bytes (suc n) w = ap suc (length-to_be_bytes n (w % 256 ^ n))

length-pack : (bits : ℕ) (s : Bool) (vs : List ℤ) → length (pack bits s vs) ≡ length vs * width bits
unfolding pack
length-pack bits s [] = omega arith
length-pack bits s (v ∷ vs) =
    length-append (to_be_bytes (width bits) (word bits s v)) (pack bits s vs)
    ∙ rw (length-to_be_bytes (width bits) (word bits s v), length-pack bits s vs) (grind arith)

length-fixed_bytes : (xs : List StoredInts) (row : ℕ) → length (fixed_bytes xs row) ≡ sum_widths xs
unfolding fixed_bytes
length-fixed_bytes [] row = refl
length-fixed_bytes (x ∷ xs) row =
    length-append (pack x.bits x.signed (x.values row ∷ [])) (fixed_bytes xs row)
    ∙ rw (length-pack x.bits x.signed (x.values row ∷ []), length-fixed_bytes xs row) (omega arith)

length-path_bytes : (p : Option StoredPaths) (row : ℕ) → length (path_bytes p row) ≡ path_size p row
unfolding path_bytes path_size
length-path_bytes none row = refl
length-path_bytes (some p) row = length-pack p.bits p.signed (p.path row)

module _ {A : Type 0} where
  take-length-append : (xs ys : List A) → take (length xs) (xs ++ ys) ≡ xs
  take-length-append [] ys = refl
  take-length-append (x ∷ xs) ys = ap (◌∷◌ x) (take-length-append xs ys)

  drop-length-append : (xs ys : List A) (k : ℕ) → drop (length xs + k) (xs ++ ys) ≡ drop k ys
  drop-length-append [] ys k = let e : 0 + k ≡ k = omega arith in rw e refl
  drop-length-append (x ∷ xs) ys k =
      let e : suc (length xs) + k ≡ suc (length xs + k) = omega arith in
      rw e (drop-length-append xs ys k)

row_bytes : TypedKeys → ℕ → List ℕ
row_bytes keys row = fixed_bytes keys.fixed row ++ path_bytes keys.path row

length-row_bytes :
    (keys : TypedKeys) (row : ℕ)
    → length (row_bytes keys row) ≡ sum_widths keys.fixed + path_size keys.path row
unfolding row_bytes
length-row_bytes keys row =
    length-append (fixed_bytes keys.fixed row) (path_bytes keys.path row)
    ∙ ap₂ ◌+◌ (length-fixed_bytes keys.fixed row) (length-path_bytes keys.path row)

ends_from-le :
    (keys : TypedKeys) (total lo n i : ℕ)
    → i < n
    → total ≤ get_or (ends_from keys total (range_from lo n)) i 0
unfolding ends_from
ends_from-le keys total lo zero i h = absurd (omega arith)
ends_from-le keys total lo (suc n) zero h = omega arith
ends_from-le keys total lo (suc n) (suc i) h = omega (
  arith,
  ends_from-le keys (total + sum_widths keys.fixed + path_size keys.path lo) (suc lo) n i
      (omega arith),
)

abbrev start_of : ℕ → List ℕ → ℕ → ℕ
start_of total ends i = if i == 0 then total else get_or ends (i - 1) 0

start_of-suc :
    (total next : ℕ) (ends : List ℕ) (i : ℕ)
    → start_of total (next ∷ ends) (suc i) ≡ start_of next ends i
start_of-suc total next ends zero = refl
start_of-suc total next ends (suc i) = ground arith

start_of-le :
    (keys : TypedKeys) (total lo n i : ℕ)
    → i < n
    → total ≤ start_of total (ends_from keys total (range_from lo n)) i
start_of-le keys total lo n i h = elim (Bool-cases (i == 0)) [
  | inl e ↦ rw e (omega arith)
  | inr e ↦ rw e (ends_from-le keys total lo n (i - 1) (omega arith))
]

-- The bytes between a row's ends are those written for it.
slice-ends :
    (keys : TypedKeys) (total lo n i : ℕ)
    → i < n
    → let ends = ends_from keys total (range_from lo n) in
      take
        (get_or ends i 0 - start_of total ends i)
        (drop (start_of total ends i - total) (bytes_of keys (range_from lo n)))
      ≡ row_bytes keys (lo + i)
unfolding ends_from bytes_of row_bytes
slice-ends keys total lo zero i h = absurd (omega arith)
slice-ends keys total lo (suc n) zero h =
    let r = row_bytes keys lo in
    let size : total + sum_widths keys.fixed + path_size keys.path lo - total ≡ length r =
      omega (arith, length-row_bytes keys lo) in
    let none_before : total - total ≡ 0 = omega arith in
    let at : lo + 0 ≡ lo = omega arith in
    rw (size, none_before, at) (take-length-append r (bytes_of keys (range_from (suc lo) n)))
slice-ends keys total lo (suc n) (suc i) h =
    let r = row_bytes keys lo in
    let next = total + sum_widths keys.fixed + path_size keys.path lo in
    let ends = ends_from keys next (range_from (suc lo) n) in
    let before : start_of next ends i - total ≡ length r + (start_of next ends i - next) =
      omega (arith, length-row_bytes keys lo, start_of-le keys next (suc lo) n i (omega arith)) in
    let at : lo + suc i ≡ suc lo + i = omega arith in
    rw
      (
        start_of-suc total next ends i,
        before,
        drop-length-append r (bytes_of keys (range_from (suc lo) n)) (start_of next ends i - next),
        at,
      )
      (slice-ends keys next (suc lo) n i (omega arith))

-- The key of a row of packed keys is the bytes of its columns and of its path.
key-packed_keys :
    (keys : TypedKeys) (row : ℕ)
    → row < first_len keys.fixed (path_rows keys.path)
    → key (packed_keys keys) row ≡ row_bytes keys row
unfolding key packed_keys
key-packed_keys keys row h =
    let n = first_len keys.fixed (path_rows keys.path) in
    let ends = ends_from keys 0 (range_from 0 n) in
    let start = start_of 0 ends row in
    let at_start : start ≡ start - 0 = omega arith in
    let at_row : 0 + row ≡ row = omega arith in
    ap (λ k. take (get_or ends row 0 - start) (drop k (bytes_of keys (range_from 0 n)))) at_start
    ∙ slice-ends keys 0 0 n row h
    ∙ ap (row_bytes keys) at_row

-- Packed keys of columns and paths of the same types order as their values do.
pub compare-packed_keys :
    (x : TypedKeys) (a : ℕ) (y : TypedKeys) (b : ℕ)
    → AllSame x.fixed a y.fixed b
    → SameTails x.path a y.path b
    → a < first_len x.fixed (path_rows x.path)
    → b < first_len y.fixed (path_rows y.path)
    → cmp_slices compare (key (packed_keys x) a) (key (packed_keys y) b)
      ≡ then_with (compare_fixed x.fixed a y.fixed b) (compare_tails x.path a y.path b)
unfolding row_bytes
compare-packed_keys x a y b same tails ha hb =
    rw (key-packed_keys x a ha, key-packed_keys y b hb)
      (compare-fixed_bytes x.fixed a y.fixed b (path_bytes x.path a) (path_bytes y.path b) same)
    ∙ ap (then_with (compare_fixed x.fixed a y.fixed b))
        (compare-path_bytes x.path a y.path b tails)
