-- ===== src/Predicate/Proven.antt =====
-- The column filters that statistics prove for every row need no evaluation: `without_proven` of
-- src/scan/predicate.rs.
use sqd_query_engine.Prelude.{
  ℕ, ◌<◌, Bool, true, false, ◌&&◌, not, List, [], ◌∷◌, ◌++◌, map, if◌then◌else◌, any, all, All,
  keep, some, ◌≡◌, arith, refl, sym, ◌∙◌, ap, ap₂, Bool-cases, inl, inr, &&_iff,
}
use sqd_query_engine.Predicate.Mask.{BooleanArray, masked, kept}
use sqd_query_engine.Predicate.Kept.{is_masked, masked-cases}
use sqd_query_engine.Predicate.Column.{Libraries}
use sqd_query_engine.Predicate.Row.{
  ColumnPredicate, RowPredicate, Batch, is_nil, evaluate_row, unproven, without_proven,
  with_alternatives, column_predicates, flatten,
}
use sqd_query_engine.Predicate.Rows.{evaluate_row-row_holds}
use sqd_query_engine.Predicate.Groups.{column_keeps, row_holds}
use sqd_query_engine.Predicate.LeftOut.{
  column_reads, is_masked-evaluate_row, all-unproven, all-subset, groups_left, all-groups_left,
  any-groups_left, any-holds, is_nil-groups_left,
}

module _ (lib : Libraries) (batch : Batch) (proven : ColumnPredicate → Bool) where
  -- The groups that `without_proven` leaves.
  abbrev left : List (List ColumnPredicate) → List (List ColumnPredicate)
  left groups =
      let groups_left = map (unproven proven) groups in
      if any is_nil groups_left then [] else groups_left

  without_proven-answers :
      (columns : List ColumnPredicate) (groups : List (List ColumnPredicate))
      → is_masked (evaluate_row lib (with_alternatives columns groups) batch) ≡ true
      → is_masked
          (evaluate_row lib (with_alternatives (unproven proven columns) (left groups)) batch)
        ≡ true
  unfolding unproven
  without_proven-answers columns groups e =
      is_masked-evaluate_row lib batch (keep (λ c. not (proven c)) columns) (left groups)
      ∙ ap₂ (λ a b. a && b) (all-subset (column_reads lib batch) proven columns both.0)
          (reads (any is_nil (groups_left (column_reads lib batch) proven groups)))
    where
      both :
          (all (column_reads lib batch) columns ≡ true)
          × (all (all (column_reads lib batch)) groups ≡ true)
      both = (&&_iff _ _).0 (sym (is_masked-evaluate_row lib batch columns groups) ∙ e)

      reads :
          (dropped : Bool)
          → all
              (all (column_reads lib batch))
              (if dropped then [] else map (keep (λ c. not (proven c))) groups)
            ≡ true
      reads true = refl
      reads false = all-groups_left (column_reads lib batch) proven groups both.1

  -- The row is one that the proved filters keep.
  abbrev pub KeepsProven : ℕ → ColumnPredicate → Type 0
  KeepsProven i c = proven c ≡ true → column_keeps lib batch i c ≡ true

  without_proven-holds :
      (i : ℕ) (columns : List ColumnPredicate) (groups : List (List ColumnPredicate))
      → All (KeepsProven i) columns
      → All (All (KeepsProven i)) groups
      → row_holds lib batch i (with_alternatives (unproven proven columns) (left groups))
        ≡ row_holds lib batch i (with_alternatives columns groups)
  unfolding unproven with_alternatives
  without_proven-holds i columns groups h hg =
      ap₂ (λ a b. a && b) (all-unproven (column_keeps lib batch i) proven columns h)
        (elim (Bool-cases (any is_nil (map (keep (λ c. not (proven c))) groups))) [
          | inl e ↦ rw (e, any-holds (column_keeps lib batch i) proven groups hg e) (ground arith)
          | inr e ↦
              rw
                (
                  e,
                  is_nil-groups_left (column_keeps lib batch i) proven groups,
                  any-groups_left (column_keeps lib batch i) proven groups hg,
                )
                refl
        ])

All-of_append {ℓ κ} :
    {A : Type ℓ} (P : A → Type κ) (xs ys : List A) → All P (xs ++ ys) → All P xs × All P ys
All-of_append P [] ys h = (tt, h)
All-of_append P (x ∷ xs) ys h = let rest = All-of_append P xs ys h.1 in ((h.0, rest.0), rest.1)

All-of_flatten {ℓ κ} :
    {A : Type ℓ} (P : A → Type κ) (groups : List (List A))
    → All P (flatten groups)
    → All (All P) groups
All-of_flatten P [] h = tt
All-of_flatten P (g ∷ groups) h =
    let both = All-of_append P g (flatten groups) h in (both.0, All-of_flatten P groups both.1)

without_proven-left :
    (lib : Libraries) (batch : Batch) (p left_over : RowPredicate) (proven : ColumnPredicate → Bool)
    → without_proven p proven ≡ some left_over
    → left_over
      ≡ with_alternatives (unproven proven p.columns) (left lib batch proven p.alternatives)
unfolding without_proven
without_proven-left lib batch p left_over proven e =
    elim (Bool-cases (any proven (column_predicates p))) [
      | inl some_proven ↦ cc (e, some_proven)
      | inr none_proven ↦ absurd (ground (arith, e, none_proven))
    ]

pub without_proven-row_holds :
    (lib : Libraries) (p left_over : RowPredicate) (proven : ColumnPredicate → Bool) (batch : Batch)
    (i : ℕ)
    → without_proven p proven ≡ some left_over
    → All (KeepsProven lib batch proven i) (column_predicates p)
    → row_holds lib batch i left_over ≡ row_holds lib batch i p
without_proven-row_holds lib p left_over proven batch i e h =
    let held =
      All-of_append (KeepsProven lib batch proven i) p.columns (flatten p.alternatives)
        (unfold column_predicates in h) in
    ap (row_holds lib batch i) (without_proven-left lib batch p left_over proven e)
    ∙ without_proven-holds lib batch proven i p.columns p.alternatives held.0
        (All-of_flatten (KeepsProven lib batch proven i) p.alternatives held.1)
    ∙ (unfold with_alternatives in refl)

-- A row filter without the column filters that are proved to hold answers wherever the whole
-- filter does, and keeps the same rows: for every batch that the filter answers for, and every row
-- that each of its column filters said to be proved keeps.
pub without_proven-evaluate_row :
    (lib : Libraries) (p left_over : RowPredicate) (proven : ColumnPredicate → Bool) (batch : Batch)
    (i : ℕ) (m : BooleanArray)
    → without_proven p proven ≡ some left_over
    → All (KeepsProven lib batch proven i) (column_predicates p)
    → i < batch.num_rows
    → evaluate_row lib p batch ≡ masked m
    → (rest : BooleanArray) × (evaluate_row lib left_over batch ≡ masked rest)
      × (kept rest i ≡ kept m i)
without_proven-evaluate_row lib p left_over proven batch i m e h hi em =
    let is_left = without_proven-left lib batch p left_over proven e in
    let (rest, er) = masked-cases (evaluate_row lib left_over batch) (
      ap (λ q. is_masked (evaluate_row lib q batch)) is_left
      ∙ without_proven-answers lib batch proven p.columns p.alternatives
          (unfold with_alternatives in ap is_masked em)) in
    (
      rest,
      er,
      evaluate_row-row_holds lib left_over batch i rest hi er
          ∙ without_proven-row_holds lib p left_over proven batch i e h
          ∙ sym (evaluate_row-row_holds lib p batch i m hi em),
    )
