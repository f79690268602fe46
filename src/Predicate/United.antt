-- ===== src/Predicate/United.antt =====
-- The union of the lists of several items of src/scan/predicate.rs admits every row that one of
-- the items matches.
use Prim.Native.String.{String}
use sqd_query_engine.Prelude.{
  some-inj, ℕ, true, ◌&&◌, ◌||◌, List, [], ◌∷◌, any, all, Option, none, some, ◌≡◌, refl, arith, ap,
  sym, ◌∙◌, Bool-cases, inl, inr, All,
}
use sqd_query_engine.Predicate.Mask.{keeps}
use sqd_query_engine.Predicate.Value.{FilterList}
use sqd_query_engine.Predicate.Column.{Array, Libraries, on_value, in_list, evaluate}
use sqd_query_engine.Predicate.Row.{
  ColumnPredicate, RowPredicate, Batch, of_columns, with_alternatives, col_in_list,
}
use sqd_query_engine.Predicate.Groups.{column_keeps, row_holds}
use sqd_query_engine.Predicate.Admitted.{Covers, evaluate_value-Covers}
use sqd_query_engine.Predicate.Union.{choose, demand, merge, union_groups, of_groups, listed_union}
use sqd_query_engine.Predicate.Chosen.{list_keeps, entry_keeps, merge-keeps, choose-keeps}
use sqd_query_engine.Predicate.Listed.{bind-some, either}

module _ (concat : List FilterList → Option FilterList)
    (covers : (parts : List FilterList) (whole : FilterList)
      → concat parts ≡ some whole
      → All (Covers whole) parts)
    (lib : Libraries) (batch : Batch) (i : ℕ) where
  list_keeps-Covers :
      (column : String) (whole fewer : FilterList)
      → Covers whole fewer
      → list_keeps lib batch i column fewer ≡ true
      → list_keeps lib batch i column whole ≡ true
  unfolding evaluate
  list_keeps-Covers column whole fewer h e = by_column (batch.column_by_name column) e
    where
      by_column :
          (o : Option Array)
          → (elim o [ none ↦ true | some a ↦ keeps (evaluate lib (on_value (in_list fewer)) a) i ])
            ≡ true
          → (elim o [ none ↦ true | some a ↦ keeps (evaluate lib (on_value (in_list whole)) a) i ])
            ≡ true
      by_column none e = refl
      by_column (some a) e = evaluate_value-Covers lib whole fewer a i h e

  some_part-keeps :
      (column : String) (whole : FilterList) (parts : List FilterList)
      → All (Covers whole) parts
      → any (list_keeps lib batch i column) parts ≡ true
      → list_keeps lib batch i column whole ≡ true
  some_part-keeps column whole [] h e = absurd (ground arith)
  some_part-keeps column whole (part ∷ parts) h e =
      elim (Bool-cases (list_keeps lib batch i column part)) [
        | inl here ↦ list_keeps-Covers column whole part h.0 here
        | inr not_here ↦
            some_part-keeps column whole parts h.1
              (sym (ap (λ t. t || any (list_keeps lib batch i column) parts) not_here) ∙ e)
      ]

  union_groups-keeps :
      (unions : List (String × List FilterList)) (groups : List (List ColumnPredicate))
      → union_groups concat unions ≡ some groups
      → any (entry_keeps lib batch i) unions ≡ true
      → any (all (column_keeps lib batch i)) groups ≡ true
  unfolding union_groups col_in_list
  union_groups-keeps [] groups e h = absurd (ground arith)
  union_groups-keeps ((column, parts) ∷ unions) groups e h =
      let (whole, ew, rest) = bind-some (concat parts) _ e in
      let (more, em, last) = bind-some (union_groups concat unions) _ rest in
      ap (any (all (column_keeps lib batch i))) (sym (some-inj last))
      ∙ either (entry_keeps lib batch i (column, parts)) (any (entry_keeps lib batch i) unions)
          (list_keeps lib batch i column whole && true) (any (all (column_keeps lib batch i)) more)
          (λ here. rw (some_part-keeps column whole parts (covers parts whole ew) here) refl)
          (union_groups-keeps unions more em) h

  of_groups-keeps :
      (groups : List (List ColumnPredicate))
      → any (all (column_keeps lib batch i)) groups ≡ true
      → row_holds lib batch i (of_groups groups) ≡ true
  unfolding of_groups of_columns with_alternatives
  of_groups-keeps [] h = absurd (ground arith)
  of_groups-keeps (g ∷ []) h = ground (arith, h)
  of_groups-keeps (g ∷ g' ∷ groups) h = h

-- The union of the lists of several items, where there is one, admits every row that an item admits:
-- for every batch and row, where Arrow joins lists to one of the same type that has the values of
-- each of them.
pub listed_union-row_holds :
    (concat : List FilterList → Option FilterList)
    → ((parts : List FilterList) (whole : FilterList)
        → concat parts ≡ some whole
        → All (Covers whole) parts)
    → (lib : Libraries) (items : List RowPredicate) (union : RowPredicate) (batch : Batch) (i : ℕ)
    → listed_union concat items ≡ some union
    → any (row_holds lib batch i) items ≡ true
    → row_holds lib batch i union ≡ true
unfolding listed_union
listed_union-row_holds concat covers lib items union batch i e h =
    let (chosen, ec, rest) = bind-some (choose (demand items) items) _ e in
    let (unions, eu, rest') = bind-some (merge [] chosen) _ rest in
    let (groups, eg, last) = bind-some (union_groups concat unions) _ rest' in
    ap (row_holds lib batch i) (sym (some-inj last))
    ∙ of_groups-keeps concat covers lib batch i groups (
        union_groups-keeps concat covers lib batch i unions groups eg (
          merge-keeps lib batch i [] unions chosen eu
            (choose-keeps lib batch i (demand items) items chosen ec h)))
