-- ===== src/Predicate/Rows.antt =====
-- Which rows a filter of src/scan/predicate.rs keeps: the conjunction and the disjunction that it
-- stands for, what it prunes, and what it need not evaluate.
use sqd_query_engine.Prelude.{
  ℕ, ◌<◌, true, false, any, all, ◌≡◌, arith, refl, sym, ◌∙◌, Bool-cases, &&_iff, ◌⊎◌, inl, inr,
}
use sqd_query_engine.Predicate.Mask.{BooleanArray, masked, kept, keeps}
use sqd_query_engine.Predicate.Column.{Libraries}
use sqd_query_engine.Predicate.Row.{
  RowPredicate, Batch, ColumnStats, is_nil, evaluate_row, any_can_skip, can_skip_row_group,
  with_alternatives,
}
use sqd_query_engine.Predicate.Groups.{
  false_of_not, not_first, column_keeps, row_holds, row_holds-alternatives, Described,
  any_can_skip-columns, skipped_groups, skipped_row,
}

-- A row filter keeps exactly the rows that all of its column filters keep and, where it has
-- alternatives, that all the filters of one alternative keep; a filter on a column that the batch
-- lacks keeps every row. It is stated of every row of a batch that the filter answers for.
pub evaluate_row-row_holds :
    (lib : Libraries) (p : RowPredicate) (batch : Batch) (i : ℕ) (m : BooleanArray)
    → i < batch.num_rows
    → evaluate_row lib p batch ≡ masked m
    → kept m i ≡ row_holds lib batch i p
evaluate_row-row_holds lib p batch i m h e =
    row_holds-alternatives lib batch i p.columns p.alternatives m h (unfold with_alternatives in e)

-- What the statistics of a skipped row group say: the columns do not all hold, or no alternative.
abbrev CannotHold : Libraries → Batch → ℕ → RowPredicate → Type 0
CannotHold lib batch i p =
    (all (column_keeps lib batch i) p.columns ≡ false)
    ⊎ ((is_nil p.alternatives ≡ false)
        × (any (all (column_keeps lib batch i)) p.alternatives ≡ false))

can_skip_row_group-CannotHold :
    (lib : Libraries) (p : RowPredicate) (stats_fn : ColumnStats) (batch : Batch) (i : ℕ)
    → can_skip_row_group p stats_fn ≡ true
    → Described lib batch i stats_fn
    → CannotHold lib batch i p
unfolding can_skip_row_group
can_skip_row_group-CannotHold lib p stats_fn batch i skip described =
    elim (Bool-cases (any_can_skip p.columns stats_fn)) [
      | inl e ↦ inl (any_can_skip-columns lib batch i p.columns stats_fn described e)
      | inr e ↦
          let groups =
            (&&_iff _ _).0 (not_first (any_can_skip p.columns stats_fn) _ (λ t. sym e ∙ t) skip) in
          inr (
            false_of_not (is_nil p.alternatives) groups.0,
            skipped_groups lib batch i p.alternatives stats_fn described groups.1,
          )
    ]

pub can_skip_row_group-row_holds :
    (lib : Libraries) (p : RowPredicate) (stats_fn : ColumnStats) (batch : Batch) (i : ℕ)
    → can_skip_row_group p stats_fn ≡ true
    → Described lib batch i stats_fn
    → row_holds lib batch i p ≡ false
can_skip_row_group-row_holds lib p stats_fn batch i skip described =
    elim (can_skip_row_group-CannotHold lib p stats_fn batch i skip described) [
      | inl e ↦ rw e refl
      | inr (some_given, e) ↦ rw (some_given, e) (ground arith)
    ]

-- A row group that a row filter's statistics skip has no row that the filter keeps: for every row
-- whose values, where it has them, are of their stored types and lie inside the statistics of
-- their columns, all of which the batch has.
pub can_skip_row_group-evaluate_row :
    (lib : Libraries) (p : RowPredicate) (stats_fn : ColumnStats) (batch : Batch) (i : ℕ)
    → can_skip_row_group p stats_fn ≡ true
    → Described lib batch i stats_fn
    → i < batch.num_rows
    → keeps (evaluate_row lib p batch) i ≡ false
can_skip_row_group-evaluate_row lib p stats_fn batch i skip described h =
    skipped_row lib batch i p h
      (can_skip_row_group-CannotHold lib p stats_fn batch i skip described)
