-- ===== src/RowOrder/Resolved.antt =====
-- src/output/row_order.rs: what the keys of a batch's columns are made of.
use Prim.Native.Nat.{Ordering}
use sqd_query_engine.Prelude.{
  some-inj, ℕ, ◌<◌, Option, none, some, List, [], ◌∷◌, ◌≡◌, refl, ap, sym, ◌∙◌, inl, inr, ◌⊎◌,
}
use sqd_query_engine.Arrow.{element_type, Column, DataType}
use sqd_query_engine.RowOrder.Compare.{then_with}
use sqd_query_engine.RowOrder.Stored.{
  StoredInts, StoredPaths, TypedKeys, resolve_ints, resolve_paths, compare_fixed, compare_tails,
  first_len, path_rows,
}
use sqd_query_engine.RowOrder.Words.{AllSame}
use sqd_query_engine.RowOrder.Bytes.{SameTails}
use sqd_query_engine.RowOrder.{typed_keys, traverse, split_last, with_path, at_end, keys_at}

-- What two rows' keys say, `o` being the order by their columns.
pub record Agrees (x : TypedKeys) (a : ℕ) (y : TypedKeys) (b : ℕ) (o : Ordering) : Type 0 where
  pub same_fixed : AllSame x.fixed a y.fixed b
  pub same_tails : SameTails x.path a y.path b
  pub left_row : a < first_len x.fixed (path_rows x.path)
  pub right_row : b < first_len y.fixed (path_rows y.path)
  pub by_keys : o ≡ then_with (compare_fixed x.fixed a y.fixed b) (compare_tails x.path a y.path b)

abbrev put : StoredInts → Option TypedKeys → Option TypedKeys
put x none = none
put x (some k) = some (record { fixed = x ∷ k.fixed; path = k.path })

abbrev put_all : Option StoredInts → Option TypedKeys → Option TypedKeys
put_all none k = none
put_all (some x) k = put x k

abbrev put_ints : Option StoredInts → Option (List StoredInts) → Option (List StoredInts)
put_ints none xs = none
put_ints (some x) xs = elim xs [ none ↦ none | some ys ↦ some (x ∷ ys) ]

keys_at-put :
    (et : Option DataType) (paths : DataType → Option StoredPaths) (x : Option StoredInts)
    (xs leading : Option (List StoredInts))
    → keys_at et paths (put_ints x xs) (put_ints x leading)
      ≡ put_all x (keys_at et paths xs leading)
keys_at-put none paths none xs leading = refl
keys_at-put none paths (some x) none leading = refl
keys_at-put none paths (some x) (some ys) leading = refl
keys_at-put (some t) paths x xs leading = at_path (paths t) x leading
  where
    at_path :
        (p : Option StoredPaths) (x : Option StoredInts) (leading : Option (List StoredInts))
        → at_end p (put_ints x leading) ≡ put_all x (at_end p leading)
    at_path none none leading = refl
    at_path none (some x) leading = refl
    at_path (some p) none leading = refl
    at_path (some p) (some x) none = refl
    at_path (some p) (some x) (some ys) = refl

typed_keys_lem :
    (columns leading : List Column) (last : Column)
    → split_last columns ≡ some (leading, last)
    → typed_keys columns
      ≡ keys_at
          (element_type last.data_type)
          (resolve_paths last)
          (traverse resolve_ints columns)
          (traverse resolve_ints leading)
unfolding typed_keys
typed_keys_lem columns leading last e = rw (typed_keys, e) refl

traverse-cons :
    (c : Column) (cs : List Column)
    → traverse resolve_ints (c ∷ cs) ≡ put_ints (resolve_ints c) (traverse resolve_ints cs)
traverse-cons c cs = by_first (resolve_ints c)
  where
    by_first :
        (o : Option StoredInts)
        → (elim o as (λ _. Option (List StoredInts)) [
          | none ↦ none
          | some x ↦ elim (traverse resolve_ints cs) [ none ↦ none | some xs ↦ some (x ∷ xs) ]
        ])
          ≡ put_ints o (traverse resolve_ints cs)
    by_first none = refl
    by_first (some x) = refl

-- The keys of one column more.
typed_keys-cons :
    (c d : Column) (cs : List Column)
    → typed_keys (c ∷ d ∷ cs) ≡ put_all (resolve_ints c) (typed_keys (d ∷ cs))
typed_keys-cons c d cs =
    let (leading, last, e) = ends (split_last cs) in
    typed_keys_lem (c ∷ d ∷ cs) (c ∷ leading) last (rw e refl)
    ∙ rw (traverse-cons c (d ∷ cs), traverse-cons c leading)
        (keys_at-put (element_type last.data_type) (resolve_paths last) (resolve_ints c)
          (traverse resolve_ints (d ∷ cs)) (traverse resolve_ints leading))
    ∙ ap (put_all (resolve_ints c)) (sym (typed_keys_lem (d ∷ cs) leading last e))
  where
    ends :
        (o : Option (List Column × Column))
        → (leading : List Column) × (last : Column) × ((elim o
              as (λ _. Option (List Column × Column)) [
                | none ↦ some ([], d)
                | some (leading, last) ↦ some (d ∷ leading, last)
              ])
            ≡ some (leading, last))
    ends none = ([], d, refl)
    ends (some (leading, last)) = (d ∷ leading, last, refl)

pub typed_keys-cons_some :
    (c d : Column) (cs : List Column) (x : TypedKeys)
    → typed_keys (c ∷ d ∷ cs) ≡ some x
    → (i : StoredInts) × (k : TypedKeys) × (resolve_ints c ≡ some i)
      × (typed_keys (d ∷ cs) ≡ some k)
      × (record { fixed = i ∷ k.fixed; path = k.path } ≡ x)
typed_keys-cons_some c d cs x h =
    by_parts (resolve_ints c) (typed_keys (d ∷ cs)) refl refl (sym (typed_keys-cons c d cs) ∙ h)
  where
    by_parts :
        (o : Option StoredInts) (p : Option TypedKeys)
        → resolve_ints c ≡ o
        → typed_keys (d ∷ cs) ≡ p
        → put_all o p ≡ some x
        → (i : StoredInts) × (k : TypedKeys) × (resolve_ints c ≡ some i)
          × (typed_keys (d ∷ cs) ≡ some k)
          × (record { fixed = i ∷ k.fixed; path = k.path } ≡ x)
    by_parts none p eo ep e = absurd (cc)
    by_parts (some i) none eo ep e = absurd (cc)
    by_parts (some i) (some k) eo ep e = (i, k, eo, ep, some-inj e)

pub typed_keys-one_some :
    (c : Column) (x : TypedKeys)
    → typed_keys (c ∷ []) ≡ some x
    → ((element_type c.data_type ≡ none)
        × ((i : StoredInts) × (resolve_ints c ≡ some i)
            × (record { fixed = i ∷ []; path = none } ≡ x)))
      ⊎ ((t : DataType) × (p : StoredPaths) × (element_type c.data_type ≡ some t)
          × (resolve_paths c t ≡ some p)
          × (record { fixed = []; path = some p } ≡ x))
typed_keys-one_some c x h =
    by_type (element_type c.data_type) refl (sym (typed_keys_lem (c ∷ []) [] c refl) ∙ h)
  where
    by_ints :
        (o : Option StoredInts)
        → resolve_ints c ≡ o
        → with_path (put_ints o (some [])) none ≡ some x
        → (i : StoredInts) × (resolve_ints c ≡ some i)
          × (record { fixed = i ∷ []; path = none } ≡ x)
    by_ints none eo e = absurd (cc)
    by_ints (some i) eo e = (i, eo, some-inj e)

    by_paths :
        (t : DataType) (o : Option StoredPaths)
        → resolve_paths c t ≡ o
        → at_end o (some []) ≡ some x
        → (p : StoredPaths) × (resolve_paths c t ≡ some p)
          × (record { fixed = []; path = some p } ≡ x)
    by_paths t none eo e = absurd (cc)
    by_paths t (some p) eo e = (p, eo, some-inj e)

    by_type :
        (et : Option DataType)
        → element_type c.data_type ≡ et
        → keys_at et (resolve_paths c) (traverse resolve_ints (c ∷ [])) (some []) ≡ some x
        → ((element_type c.data_type ≡ none)
            × ((i : StoredInts) × (resolve_ints c ≡ some i)
                × (record { fixed = i ∷ []; path = none } ≡ x)))
          ⊎ ((t : DataType) × (p : StoredPaths) × (element_type c.data_type ≡ some t)
              × (resolve_paths c t ≡ some p)
              × (record { fixed = []; path = some p } ≡ x))
    by_type none ee e = inl (
      ee,
      by_ints (resolve_ints c) refl (ap (λ o. with_path o none) (sym (traverse-cons c [])) ∙ e),
    )
    by_type (some t) ee e =
        let (p, ep, ex) = by_paths t (resolve_paths c t) refl e in inr (t, p, ee, ep, ex)
