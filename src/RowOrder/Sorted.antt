-- ===== src/RowOrder/Sorted.antt =====
-- src/output/row_order.rs: rows sorted by the keys that are prepared for them.
use Prim.Native.Nat.{Ordering}
use Prim.Native.String.{String}
use sqd_query_engine.Prelude.{
  ℕ, zero, suc, Bool, true, false, Bool-cases, Option, none, some, List, [], ◌∷◌, map,
  if◌then◌else◌, get_or, All, ◌≡◌, refl, ap, sym, ◌∙◌, inl, inr,
}
use sqd_query_engine.Arrow.{RecordBatch}
use sqd_query_engine.Predicate.Order.{sort, insert_sorted}
use sqd_query_engine.Weight.{TableDescription}
use sqd_query_engine.RowOrder.Compare.{then_with, is_lt}
use sqd_query_engine.RowOrder.Stored.{SortKeys, compare_keys}
use sqd_query_engine.RowOrder.{
  compare_resolved, resolve_batch, resolve_sort_columns, row_sort_keys, file_order, sort_by,
  compare_at, has_sort_cols, sort_rows, row_order, sort_order, compare_orders,
  build_full_sort_columns,
}
use sqd_query_engine.RowOrder.Prepared.{IsRow, row_sort_keys-order}

-- Sorting by two tests that agree on the elements.
module _ {A : Type 0} (P : A → Type 0) (lt lt' : A → A → Bool)
    (same : (a b : A) → P a → P b → lt a b ≡ lt' a b) where
  insert_sorted-All : (x : A) (ys : List A) → P x → All P ys → All P (insert_sorted lt x ys)
  unfolding insert_sorted
  insert_sorted-All x [] hx h = (hx, tt)
  insert_sorted-All x (y ∷ ys) hx h = elim (Bool-cases (lt y x)) [
    | inl below ↦ rw below (h.0, insert_sorted-All x ys hx h.1)
    | inr above ↦ rw above (hx, (h.0, h.1))
  ]

  sort-All : (xs : List A) → All P xs → All P (sort lt xs)
  unfolding sort
  sort-All [] h = tt
  sort-All (x ∷ xs) h = insert_sorted-All x (sort lt xs) h.0 (sort-All xs h.1)

  insert_sorted_same :
      (x : A) (ys : List A) → P x → All P ys → insert_sorted lt x ys ≡ insert_sorted lt' x ys
  unfolding insert_sorted
  insert_sorted_same x [] hx h = refl
  insert_sorted_same x (y ∷ ys) hx h = rw (same y x h.0 hx, insert_sorted_same x ys hx h.1) refl

  sort_same : (xs : List A) → All P xs → sort lt xs ≡ sort lt' xs
  unfolding sort
  sort_same [] h = refl
  sort_same (x ∷ xs) h =
      insert_sorted_same x (sort lt xs) h.0 (sort-All xs h.1)
      ∙ ap (insert_sorted lt' x) (sort_same xs h.1)

sort_by_same :
    (P : ℕ × ℕ → Type 0) (cmp cmp' : ℕ × ℕ → ℕ × ℕ → Ordering)
    → ((a b : ℕ × ℕ) → P a → P b → cmp a b ≡ cmp' a b)
    → (rows : List (ℕ × ℕ)) → All P rows
    → sort_by cmp rows ≡ sort_by cmp' rows
unfolding sort_by
sort_by_same P cmp cmp' same rows h =
    sort_same P (λ a b. is_lt (then_with (cmp a b) (file_order a b)))
      (λ a b. is_lt (then_with (cmp' a b) (file_order a b)))
      (λ a b ha hb. ap (λ o. is_lt (then_with o (file_order a b))) (same a b ha hb)) rows h

no_columns :
    (batches : List RecordBatch) (i : ℕ) → get_or (map (resolve_batch []) batches) i [] ≡ []
unfolding resolve_batch
no_columns [] i = refl
no_columns (batch ∷ batches) zero = refl
no_columns (batch ∷ batches) (suc i) = no_columns batches i

-- Without sort columns, all rows are alike.
unkeyed :
    (batches : List RecordBatch) (names : List String) (a b : ℕ × ℕ)
    → has_sort_cols (resolve_sort_columns batches names) ≡ false
    → compare_at (resolve_sort_columns batches names) a (resolve_sort_columns batches names) b
      ≡ Ordering.eq
unfolding compare_at resolve_sort_columns compare_resolved resolve_batch
unkeyed [] names a b h = refl
unkeyed (batch ∷ batches) [] (ba, ra) (bb, rb) h = rw (no_columns (batch ∷ batches) ba) refl
unkeyed (batch ∷ batches) (name ∷ names) a b h = absurd (cc)

by_resolved : List RecordBatch → List String → ℕ × ℕ → ℕ × ℕ → Ordering
by_resolved batches names a b =
    compare_at (resolve_sort_columns batches names) a (resolve_sort_columns batches names) b

sort_rows-by_resolved :
    (batches : List RecordBatch) (names : List String) (rows : List (ℕ × ℕ))
    → All (IsRow batches) rows
    → sort_rows rows (resolve_sort_columns batches names) (row_sort_keys batches names)
      ≡ sort_by (by_resolved batches names) rows
unfolding sort_rows by_resolved
sort_rows-by_resolved batches names rows h = by_keys (row_sort_keys batches names) refl
  where
    by_flag :
        (flag : Bool)
        → has_sort_cols (resolve_sort_columns batches names) ≡ flag
        → (if flag
            then sort_by (by_resolved batches names) rows
            else sort_by (λ a b. Ordering.eq) rows)
          ≡ sort_by (by_resolved batches names) rows
    by_flag true e = refl
    by_flag false e =
        sort_by_same (IsRow batches) (λ a b. Ordering.eq) (by_resolved batches names)
          (λ a b _ _. sym (unkeyed batches names a b e)) rows h

    by_keys :
        (k : Option SortKeys)
        → row_sort_keys batches names ≡ k
        → sort_rows rows (resolve_sort_columns batches names) k
          ≡ sort_by (by_resolved batches names) rows
    by_keys none e = by_flag (has_sort_cols (resolve_sort_columns batches names)) refl
    by_keys (some k) e =
        sort_by_same (IsRow batches) (compare_keys k) (by_resolved batches names)
          (λ a b. row_sort_keys-order batches names k a b e) rows h

-- Rows sorted by the keys prepared for them, as words, as bytes or at their stored types, or without
-- any, are the rows sorted by the comparison column by column and then by file order: for every list
-- of batches, table and rows of the batches, where the columns hold the rows and values of the types
-- that they are stored at.
pub sort_order-compare_orders :
    (batches : List RecordBatch) (table : TableDescription) (rows : List (ℕ × ℕ))
    → All (IsRow batches) rows
    → sort_order (row_order batches table) rows
      ≡ sort_by (λ a b. compare_orders (row_order batches table) a (row_order batches table) b) rows
unfolding sort_order row_order compare_orders
sort_order-compare_orders batches table rows h =
    unfold by_resolved in sort_rows-by_resolved batches (build_full_sort_columns table) rows h
