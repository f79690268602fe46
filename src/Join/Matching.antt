-- ===== src/Join/Matching.antt =====
-- `keep_matching`: what is kept of the batches.
use sqd_query_engine.Prelude.{
  ℕ, ◌+◌, ◌<◌, Bool, List, [], ◌∷◌, ◌==◌, length, All, ◌≡◌, arith, refl, Bool-cases, inl, inr,
}
use sqd_query_engine.Arrow.{RecordBatch}
use sqd_query_engine.Error.{Result, ok}
use sqd_query_engine.Join.{keep_matching, true_count}

abbrev pub rows_in : List RecordBatch → ℕ
rows_in [] = 0
rows_in (batch ∷ batches) = batch.num_rows + rows_in batches

abbrev pub trues_in : List (List Bool) → ℕ
trues_in [] = 0
trues_in (mask ∷ masks) = true_count mask + trues_in masks

-- Each batch beside a mask that is as long as the batch has rows.
abbrev pub Masked : List RecordBatch → List (List Bool) → Type 0
Masked [] [] = Unit
Masked [] (mask ∷ masks) = ⊥
Masked (batch ∷ batches) [] = ⊥
Masked (batch ∷ batches) (mask ∷ masks) = (length mask ≡ batch.num_rows) × Masked batches masks

-- As documented, a batch filtered by a mask as long as the batch has the rows that the mask selects.
abbrev pub FiltersRows : (RecordBatch → List Bool → Result RecordBatch) → Type 0
FiltersRows filter =
    (batch : RecordBatch) (mask : List Bool)
    → length mask ≡ batch.num_rows
    → (kept : RecordBatch) × (filter batch mask ≡ ok kept) × (kept.num_rows ≡ true_count mask)

-- Over a filter that keeps what a mask of a batch's length selects, with one such mask for each
-- batch, the batches kept have as many rows together as the masks select, and none of them is empty.
pub keep_matching-rows_in :
    (filter : RecordBatch → List Bool → Result RecordBatch) (batches : List RecordBatch)
    (masks : List (List Bool))
    → FiltersRows filter
    → Masked batches masks
    → (kept : List RecordBatch) × (keep_matching filter batches masks ≡ ok kept)
      × (rows_in kept ≡ trues_in masks)
      × All (λ batch. 0 < batch.num_rows) kept
unfolding keep_matching
keep_matching-rows_in filter [] [] filters masked = ([], refl, refl, tt)
keep_matching-rows_in filter [] (mask ∷ masks) filters masked = absurd masked
keep_matching-rows_in filter (batch ∷ batches) [] filters masked = absurd masked
keep_matching-rows_in filter (batch ∷ batches) (mask ∷ masks) filters (wide, masked) =
    let (kept, done, rows, full) = keep_matching-rows_in filter batches masks filters masked in
    let (cut, filtered, left) = filters batch mask wide in
    elim (Bool-cases (true_count mask == 0)) [
      | inl empty ↦ (kept, rw (empty, done) refl, ground arith, full)
      | inr some_rows ↦ elim (Bool-cases (true_count mask == batch.num_rows)) [
        | inl whole ↦
            (batch ∷ kept, rw (some_rows, whole, done) refl, ground arith, (ground arith, full))
        | inr part ↦ (
          cut ∷ kept,
          rw (some_rows, part, filtered, done) refl,
          ground arith,
          (ground arith, full),
        )
      ]
    ]
