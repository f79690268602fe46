-- ===== src/RowOrder/Forms.antt =====
-- src/output/row_order.rs: keys as words, as bytes and at their stored types, against the columns.
use Prim.Native.Nat.{compare, Ordering}
use sqd_query_engine.Prelude.{
  some-inj, ℕ, zero, suc, ◌+◌, ◌*◌, ◌<◌, ◌≤◌, Bool, true, false, Bool-cases, Option, none, some,
  List, [], map, if◌then◌else◌, ltb, get_elem?, get_or, range_from, any, ◌≡◌, refl, ap, ap₂, sym,
  subst, ◌∙◌, inl, inr, arith,
}
use sqd_query_engine.RowOrder.Compare.{then_with, then_with-eq, cmp_slices}
use sqd_query_engine.RowOrder.Stored.{
  StoredPaths, TypedKeys, SortKeys, words, typed, packed, key, compare_fixed, compare_tails,
  compare_keys, fold_word, sum_widths, first_len, path_rows, word_keys, packed_keys, no_keys,
}
use sqd_query_engine.RowOrder.Words.{compare-word_keys}
use sqd_query_engine.RowOrder.Packed.{compare-packed_keys}
use sqd_query_engine.RowOrder.Resolved.{Agrees}
use sqd_query_engine.RowOrder.{traverse, is_deep, choose_form}
use sqd_query_engine.RowOrder.Traverse.{get_elem?-get_or, get_elem?-map-some, traverse-get_elem?}

get_or-range :
    (f : ℕ → ℕ) (lo n i d : ℕ) → i < n → get_or (map f (range_from lo n)) i d ≡ f (lo + i)
get_or-range f lo zero i d h = absurd (omega arith)
get_or-range f lo (suc n) zero d h = let e : lo + 0 ≡ lo = omega arith in rw e refl
get_or-range f lo (suc n) (suc i) d h =
    let e : lo + suc i ≡ suc lo + i = omega arith in
    get_or-range f (suc lo) n i d (omega arith) ∙ rw e refl

word_keys-some :
    (k : TypedKeys) (ws : List ℕ)
    → word_keys k ≡ some ws
    → (k.path ≡ none)
      × (sum_widths k.fixed * 8 ≤ 64)
      × (map (fold_word 0 k.fixed) (range_from 0 (first_len k.fixed 0)) ≡ ws)
unfolding word_keys
word_keys-some k ws h = by_path (k.path) refl h
  where
    whole : List ℕ
    whole = map (fold_word 0 k.fixed) (range_from 0 (first_len k.fixed 0))

    by_path :
        (o : Option StoredPaths)
        → k.path ≡ o
        → (elim o as (λ _. Option (List ℕ)) [
          | some _ ↦ none
          | none ↦ if ltb 64 (sum_widths k.fixed * 8) then none else some whole
        ])
          ≡ some ws
        → (k.path ≡ none) × (sum_widths k.fixed * 8 ≤ 64) × (whole ≡ ws)
    by_path (some p) e h = absurd (cc)
    by_path none e h = elim (Bool-cases (ltb 64 (sum_widths k.fixed * 8))) [
      | inl wide ↦ absurd (cc (rw wide at h))
      | inr fits ↦ (e, ground arith, some-inj (rw fits at h))
    ]

-- The word of a row.
word-at :
    (k : TypedKeys) (ws : List ℕ) (row : ℕ)
    → word_keys k ≡ some ws
    → row < first_len k.fixed (path_rows k.path)
    → get_or ws row 0 ≡ fold_word 0 k.fixed row
word-at k ws row h inside =
    let (no_path, fits, e) = word_keys-some k ws h in
    let inside' : row < first_len k.fixed 0 =
      subst (λ p. row < first_len k.fixed (path_rows p)) no_path inside in
    let at_row : 0 + row ≡ row = omega arith in
    ap (λ l. get_or l row 0) (sym e)
    ∙ get_or-range (fold_word 0 k.fixed) 0 (first_len k.fixed 0) row 0 inside'
    ∙ ap (fold_word 0 k.fixed) at_row

compare_tails-none :
    (x : Option StoredPaths) (a : ℕ) (y : Option StoredPaths) (b : ℕ)
    → x ≡ none
    → compare_tails x a y b ≡ Ordering.eq
compare_tails-none x a y b e = rw e (unfold compare_tails in refl)

-- The three forms of keys compare as the columns do.
pub choose_form-order :
    (keys : List TypedKeys) (ba ra bb rb : ℕ) (x y : TypedKeys) (o : Ordering)
    → get_elem? keys ba ≡ some x
    → get_elem? keys bb ≡ some y
    → Agrees x ra y rb o
    → compare_keys (choose_form keys) (ba, ra) (bb, rb) ≡ o
unfolding choose_form compare_keys
choose_form-order keys ba ra bb rb x y o ex ey agrees =
    by_words (traverse word_keys keys) refl ∙ sym agrees.by_keys
  where
    by_deep :
        (deep : Bool)
        → compare_keys
            (if deep then packed (map packed_keys keys) else typed keys)
            (ba, ra)
            (bb, rb)
          ≡ then_with (compare_fixed x.fixed ra y.fixed rb) (compare_tails x.path ra y.path rb)
    by_deep true =
        let px =
          get_elem?-get_or (map packed_keys keys) ba (packed_keys x)
            (record { ends = []; bytes = [] }) (get_elem?-map-some packed_keys keys ba x ex) in
        let py =
          get_elem?-get_or (map packed_keys keys) bb (packed_keys y)
            (record { ends = []; bytes = [] }) (get_elem?-map-some packed_keys keys bb y ey) in
        ap₂ (λ p q. cmp_slices compare (key p ra) (key q rb)) px py
        ∙ compare-packed_keys x ra y rb agrees.same_fixed agrees.same_tails agrees.left_row
            agrees.right_row
    by_deep false =
        ap₂
          (λ (p q : TypedKeys).
            then_with (compare_fixed p.fixed ra q.fixed rb) (compare_tails p.path ra q.path rb))
          (get_elem?-get_or keys ba x no_keys ex) (get_elem?-get_or keys bb y no_keys ey)

    by_words :
        (o : Option (List (List ℕ)))
        → traverse word_keys keys ≡ o
        → compare_keys
            (elim o as (λ _. SortKeys) [
              | some ws ↦ words ws
              | none ↦ if any is_deep keys then packed (map packed_keys keys) else typed keys
            ])
            (ba, ra)
            (bb, rb)
          ≡ then_with (compare_fixed x.fixed ra y.fixed rb) (compare_tails x.path ra y.path rb)
    by_words none e = by_deep (any is_deep keys)
    by_words (some ws) e =
        let (wx, ewx, atx) = traverse-get_elem? word_keys keys ws ba x e ex in
        let (wy, ewy, aty) = traverse-get_elem? word_keys keys ws bb y e ey in
        let (no_path, fits, _) = word_keys-some x wx ewx in
        ap₂ (λ p q. compare (get_or p ra 0) (get_or q rb 0)) (get_elem?-get_or ws ba wx [] atx)
          (get_elem?-get_or ws bb wy [] aty)
        ∙ ap₂ compare (word-at x wx ra ewx agrees.left_row) (word-at y wy rb ewy agrees.right_row)
        ∙ compare-word_keys x.fixed ra y.fixed rb agrees.same_fixed fits
        ∙ sym (then_with-eq (compare_fixed x.fixed ra y.fixed rb))
        ∙ ap (then_with (compare_fixed x.fixed ra y.fixed rb))
            (sym (compare_tails-none x.path ra y.path rb no_path))
