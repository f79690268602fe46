-- ===== src/RowOrder/Pairs.antt =====
-- src/output/row_order.rs: what a column is resolved to as a key, against the column.
use sqd_query_engine.Prelude.{
  some-inj, ℕ, ◌<◌, Bool, false, Option, none, some, List, [], ◌∷◌, ◌≡◌, refl, ap, sym, subst, ◌∙◌,
}
use sqd_query_engine.Prelude.Words.{Fits}
use sqd_query_engine.Arrow.{element_type, Column, DataType}
use sqd_query_engine.Integers.{width_of, is_integer}
use sqd_query_engine.Integers.Keys.{is_integer-width, Width-width_of}
use sqd_query_engine.Join.Semi.{is_text}
use sqd_query_engine.RowOrder.Compare.{then_with, then_with-eq}
use sqd_query_engine.RowOrder.Stored.{
  StoredInts, StoredPaths, resolve_ints, resolve_paths, compare_one, compare_paths,
}
use sqd_query_engine.RowOrder.Biased.{AllFit}
use sqd_query_engine.RowOrder.Words.{SameInts}
use sqd_query_engine.RowOrder.Bytes.{SamePaths}
use sqd_query_engine.RowOrder.{
  TypedSortColumn, int, list, resolve_sort_column, cmp_rows, compare_resolved,
}

-- A row of a column, with the values of its stored type.
pub record IsStoredAt (c : Column) (row : ℕ) : Type 0 where
  pub in_range : row < c.len
  pub int_fits :
      (bits : ℕ) (s : Bool) → width_of c.data_type ≡ some (bits, s) → Fits bits s (c.int_value row)
  pub list_fits :
      (t : DataType) (bits : ℕ) (s : Bool)
      → element_type c.data_type ≡ some t
      → width_of t ≡ some (bits, s)
      → AllFit bits s (c.list_value row)

abbrev ints_of : Column → ℕ → Bool → StoredInts
ints_of c b s = record { bits = b; signed = s; len = c.len; values = c.int_value }

abbrev paths_of : Column → ℕ → Bool → StoredPaths
paths_of c b s = record { bits = b; signed = s; rows = c.len; path = c.list_value }

resolve_ints-some :
    (c : Column) (x : StoredInts)
    → resolve_ints c ≡ some x
    → (b : ℕ) × (s : Bool) × (width_of c.data_type ≡ some (b, s)) × (ints_of c b s ≡ x)
unfolding resolve_ints
resolve_ints-some c x h = by_width (width_of c.data_type) refl h
  where
    by_width :
        (o : Option (ℕ × Bool))
        → width_of c.data_type ≡ o
        → (elim o [ none ↦ none | some (b, s) ↦ some (ints_of c b s) ]) ≡ some x
        → (b : ℕ) × (s : Bool) × (width_of c.data_type ≡ some (b, s)) × (ints_of c b s ≡ x)
    by_width none e h = absurd (cc)
    by_width (some (b, s)) e h = (b, s, e, some-inj h)

resolve_paths-some :
    (c : Column) (t : DataType) (x : StoredPaths)
    → resolve_paths c t ≡ some x
    → (b : ℕ) × (s : Bool) × (width_of t ≡ some (b, s)) × (paths_of c b s ≡ x)
unfolding resolve_paths
resolve_paths-some c t x h = by_width (width_of t) refl h
  where
    by_width :
        (o : Option (ℕ × Bool))
        → width_of t ≡ o
        → (elim o [ none ↦ none | some (b, s) ↦ some (paths_of c b s) ]) ≡ some x
        → (b : ℕ) × (s : Bool) × (width_of t ≡ some (b, s)) × (paths_of c b s ≡ x)
    by_width none e h = absurd (cc)
    by_width (some (b, s)) e h = (b, s, e, some-inj h)

resolve_sort_column-int :
    (c : Column) {p : ℕ × Bool}
    → width_of c.data_type ≡ some p
    → resolve_sort_column c ≡ some (int c)
unfolding resolve_sort_column
resolve_sort_column-int c e = rw (is_integer-width c.data_type e, resolve_sort_column) refl

resolve_ints-at :
    (c : Column) (b : ℕ) (s : Bool)
    → width_of c.data_type ≡ some (b, s)
    → resolve_ints c ≡ some (ints_of c b s)
unfolding resolve_ints
resolve_ints-at c b s e = rw (e, resolve_ints) refl

resolve_paths-at :
    (c : Column) (t : DataType) (b : ℕ) (s : Bool)
    → width_of t ≡ some (b, s)
    → resolve_paths c t ≡ some (paths_of c b s)
unfolding resolve_paths
resolve_paths-at c t b s e = rw (e, resolve_paths) refl

abbrev pub IntPair : Column → ℕ → Column → ℕ → StoredInts → StoredInts → Type 0
IntPair c a d b x y =
    SameInts x a y b
    × (a < x.len)
    × (b < y.len)
    × ((cs ds : List (Option TypedSortColumn))
        → compare_resolved (resolve_sort_column c ∷ cs) a (resolve_sort_column d ∷ ds) b
          ≡ then_with (compare_one x a y b) (compare_resolved cs a ds b))

-- Two integer columns of one type: their rows' values, and the order of these.
pub int_pair :
    (c d : Column) (a b : ℕ) (x y : StoredInts)
    → c.data_type ≡ d.data_type
    → IsStoredAt c a
    → IsStoredAt d b
    → resolve_ints c ≡ some x
    → resolve_ints d ≡ some y
    → IntPair c a d b x y
unfolding compare_resolved cmp_rows
int_pair c d a b x y same hc hd hx hy =
    let (bits, s, e, ex) = resolve_ints-some c x hx in
    let e' : width_of d.data_type ≡ some (bits, s) = ap width_of (sym same) ∙ e in
    let ey : ints_of d bits s ≡ y = some-inj (sym (resolve_ints-at d bits s e') ∙ hy) in
    subst (λ z. IntPair c a d b z y) ex
      (subst (λ z. IntPair c a d b (ints_of c bits s) z) ey
        (
          record {
            wide = Width-width_of c.data_type e;
            same_bits = refl;
            same_sign = refl;
            left_fits = hc.int_fits bits s e;
            right_fits = hd.int_fits bits s e';
          },
          hc.in_range,
          hd.in_range,
          λ cs ds. rw (resolve_sort_column-int c e, resolve_sort_column-int d e') refl,
        ))

abbrev pub PathPair : Column → ℕ → Column → ℕ → StoredPaths → StoredPaths → Type 0
PathPair c a d b x y =
    SamePaths x a y b
    × (a < x.rows)
    × (b < y.rows)
    × (compare_resolved (resolve_sort_column c ∷ []) a (resolve_sort_column d ∷ []) b
        ≡ compare_paths x a y b)

element_type-plain :
    (u t : DataType) → element_type u ≡ some t → (is_integer u ≡ false) × (is_text u ≡ false)
unfolding element_type is_integer is_text width_of
element_type-plain (DataType.list v) t h = (refl, refl)
element_type-plain _ t h = absurd (cc h)

resolve_sort_column-list :
    (c : Column) (t : DataType) (b : ℕ) (s : Bool)
    → element_type c.data_type ≡ some t
    → width_of t ≡ some (b, s)
    → resolve_sort_column c ≡ some (list (some (paths_of c b s)))
unfolding resolve_sort_column
resolve_sort_column-list c t b s et e =
    let (no_integer, no_text) = element_type-plain c.data_type t et in
    rw (no_integer, no_text, et, resolve_paths-at c t b s e) refl

pub path_pair :
    (c d : Column) (t : DataType) (a b : ℕ) (x y : StoredPaths)
    → c.data_type ≡ d.data_type
    → element_type c.data_type ≡ some t
    → IsStoredAt c a
    → IsStoredAt d b
    → resolve_paths c t ≡ some x
    → resolve_paths d t ≡ some y
    → PathPair c a d b x y
unfolding compare_resolved cmp_rows
path_pair c d t a b x y same et hc hd hx hy =
    let (bits, s, e, ex) = resolve_paths-some c t x hx in
    let et' : element_type d.data_type ≡ some t = ap element_type (sym same) ∙ et in
    let ey : paths_of d bits s ≡ y = some-inj (sym (resolve_paths-at d t bits s e) ∙ hy) in
    subst (λ z. PathPair c a d b z y) ex
      (subst (λ z. PathPair c a d b (paths_of c bits s) z) ey
        (
          record {
            wide = Width-width_of t e;
            same_bits = refl;
            same_sign = refl;
            left_fits = hc.list_fits t bits s et e;
            right_fits = hd.list_fits t bits s et' e;
          },
          hc.in_range,
          hd.in_range,
          rw (resolve_sort_column-list c t bits s et e, resolve_sort_column-list d t bits s et' e)
              (then_with-eq (compare_paths (paths_of c bits s) a (paths_of d bits s) b)),
        ))
