-- ===== src/Fork/Check.antt =====
-- What `check_parent_block` answers, whatever the rows of the window.
use Prim.Native.String.{String}
use sqd_query_engine.Prelude.{
  ℕ, ◌≤◌, true, Option, none, some, List, [], ◌∷◌, map, if◌then◌else◌, All, All-imp, inl, inr, ◌≡◌,
  arith, refl, le→leb, lt→leb_false, le_or_lt,
}
use sqd_query_engine.Arrow.{RecordBatch}
use sqd_query_engine.Error.{Result, ok, err, BlockRef}
use sqd_query_engine.Error.Error.{fork}
use sqd_query_engine.Join.{same}
use sqd_query_engine.Fork.{
  ForkPlan, BlockTable, ChunkReader, Refs, has_column, carried, window_request, insert_ref,
  sort_refs, ref_of, read_prev_blocks, check_parent_block,
}
use sqd_query_engine.Fork.Answer.{
  Statement, IsAnswer, Readable, all_statements, push_all, push_all-IsAnswer, push_all-refs,
  read_batches-push_all,
}

-- By ascending number.
abbrev pub IsSorted : List BlockRef → Type 0
IsSorted [] = Unit
IsSorted (r ∷ refs) = All (λ s. r.number ≤ s.number) refs × IsSorted refs

All-insert_ref :
    (n : ℕ) (r : BlockRef) (refs : List BlockRef)
    → n ≤ r.number
    → All (λ s. n ≤ s.number) refs
    → All (λ s. n ≤ s.number) (insert_ref r refs)
unfolding insert_ref
All-insert_ref n r [] le h = (le, tt)
All-insert_ref n r (s ∷ refs) le h = elim (le_or_lt r.number s.number) [
  | inl first ↦ rw (le→leb r.number s.number first) (le, h)
  | inr later ↦ rw (lt→leb_false r.number s.number later) (h.0, All-insert_ref n r refs le h.1)
]

insert_ref-IsSorted :
    (r : BlockRef) (refs : List BlockRef) → IsSorted refs → IsSorted (insert_ref r refs)
unfolding insert_ref
insert_ref-IsSorted r [] h = (tt, tt)
insert_ref-IsSorted r (s ∷ refs) h = elim (le_or_lt r.number s.number) [
  | inl first ↦
      rw (le→leb r.number s.number first) ((first, All-imp (λ t le. omega arith) refs h.0), h)
  | inr later ↦
      rw (lt→leb_false r.number s.number later)
        (All-insert_ref s.number r refs (omega arith) h.0, insert_ref-IsSorted r refs h.1)
]

sort_refs-IsSorted : (refs : List BlockRef) → IsSorted (sort_refs refs)
unfolding sort_refs
sort_refs-IsSorted [] = tt
sort_refs-IsSorted (r ∷ refs) = insert_ref-IsSorted r (sort_refs refs) (sort_refs-IsSorted refs)

-- The answer to a client that expects a hash: none of the rows answers, or the hash of the one
-- that does is compared with it.
abbrev pub verdict : Option Statement → List ℕ → List BlockRef → Result (Unit {0})
verdict none expected refs = ok tt
verdict (some (block, parent)) expected refs =
    if same parent.hash expected
    then ok tt
    else err (fork (record { expected_hash = expected; prev_blocks = refs }))

-- Over a chunk that has the block table with its hash column, and whose window scans to batches
-- with whole columns, the check returns the verdict on the row that answers: the lowest block at
-- or after `from_block` of those that say what precedes them, and it accepts where there is no
-- such row; the pairs that a refusal carries are what those rows say, by ascending number.
pub check_parent_block-verdict :
    (plan : ForkPlan) (table : BlockTable) (chunk : ChunkReader) (expected : List ℕ)
    (hash_column : String) (batches : List RecordBatch)
    → plan.parent_block_hash ≡ some expected
    → table.parent_hash_column ≡ some hash_column
    → chunk.has_table plan.block_table ≡ true
    → has_column chunk plan.block_table hash_column ≡ true
    → (let number_column = carried chunk plan.block_table table.parent_number_column in
        chunk.scan plan.block_table (window_request plan table hash_column number_column)
        ≡ ok batches)
    → (readable : All (Readable table hash_column) batches)
    → let number_column = carried chunk plan.block_table table.parent_number_column in
      let rows = all_statements table hash_column number_column batches readable in
      (answer : Option Statement) × IsAnswer plan.from_block rows answer
      × IsSorted (sort_refs (map (λ s. s.1) rows))
      × (check_parent_block plan (some table) chunk
          ≡ verdict answer expected (sort_refs (map (λ s. s.1) rows)))
unfolding check_parent_block read_prev_blocks
check_parent_block-verdict plan table chunk expected hash_column batches sent declared present
      carries scanned readable =
    let number_column = carried chunk plan.block_table table.parent_number_column in
    let rows = all_statements table hash_column number_column batches readable in
    let start : Refs = record { refs = []; answer = none } in
    let state = push_all plan.from_block start rows in
    (
      state.answer,
      push_all-IsAnswer plan.from_block [] start rows tt,
      sort_refs-IsSorted (map (λ s. s.1) rows),
      rw
          (
            sent,
            declared,
            present,
            scanned,
            carries,
            read_batches-push_all plan table hash_column number_column batches readable start,
            push_all-refs plan.from_block start rows,
          )
          (judged state.answer (sort_refs (map (λ s. s.1) rows))),
    )
  where
    judged :
        (answer : Option Statement) (refs : List BlockRef)
        → (elim (ref_of answer) as (λ _. Result (Unit {0})) [
          | none ↦ ok tt
          | some parent ↦
              if same parent.hash expected
              then ok tt
              else err (fork (record { expected_hash = expected; prev_blocks = refs }))
        ])
          ≡ verdict answer expected refs
    judged none refs = refl
    judged (some (block, parent)) refs = refl
