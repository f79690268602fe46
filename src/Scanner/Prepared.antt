-- ===== src/Scanner/Prepared.antt =====
-- Which rows the items of src/scan/scanner.rs keep: to leave out what the statistics of a row group
-- decide changes no answer.
use sqd_query_engine.Prelude.{
  any-map, ℕ, zero, suc, ◌<◌, Bool, true, false, ◌||◌, not, List, [], ◌∷◌, map, if◌then◌else◌, any,
  keep, none, some, length, range_from, ◌≡◌, refl, arith, ap, sym, ◌∙◌, All,
}
use sqd_query_engine.Predicate.Column.{Libraries}
use sqd_query_engine.Predicate.Row.{RowPredicate, Batch, column_predicates, of_columns}
use sqd_query_engine.Predicate.Rows.{can_skip_row_group-row_holds}
use sqd_query_engine.Predicate.Groups.{row_holds}
use sqd_query_engine.Scanner.{
  PreparedRowGroup, predicate_at, active, narrow, items_after, items_of, ScanRequest,
  prepare_row_group, prepared, out_of_blocks, out_of_keys, out_of_items,
}
use sqd_query_engine.Scanner.Stats.{GroupStats, range, ParquetTable, read_stats}
use sqd_query_engine.Scanner.Checked.{
  Ascends, checked, items_after-narrow, AreTrue, Answers, Described-range, checked-row_holds,
}

any-keep :
    (f q : ℕ → Bool) (xs : List ℕ)
    → ((x : ℕ) → q x ≡ false → f x ≡ false)
    → any f (keep q xs) ≡ any f xs
any-keep f q [] h = refl
any-keep f q (x ∷ xs) h = split (q x) refl (any-keep f q xs h)
  where
    split :
        (b : Bool)
        → q x ≡ b
        → any f (keep q xs) ≡ any f xs
        → any f (elim b [ true ↦ x ∷ keep q xs | false ↦ keep q xs ]) ≡ (f x || any f xs)
    split true e rest = ap (λ t. f x || t) rest
    split false e rest = rest ∙ sym (ap (λ t. t || any f xs) (h x e))

any-range_suc :
    (f : ℕ → Bool) (lo n : ℕ)
    → any f (range_from (suc lo) n) ≡ any (λ x. f (suc x)) (range_from lo n)
any-range_suc f lo zero = refl
any-range_suc f lo (suc n) = ap (λ t. f (suc lo) || t) (any-range_suc f (suc lo) n)

any-predicate_at :
    (f : RowPredicate → Bool) (predicates : List RowPredicate)
    → any (λ item. f (predicate_at predicates item)) (range_from 0 (length predicates))
      ≡ any f predicates
unfolding predicate_at
any-predicate_at f [] = refl
any-predicate_at f (p ∷ predicates) =
    ap (λ t. f p || t) (any-range_suc _ 0 (length predicates) ∙ any-predicate_at f predicates)

keep-above :
    (q : ℕ → Bool) (low lo n : ℕ) → low < lo → All (λ x. low < x) (keep q (range_from lo n))
keep-above q low lo zero h = tt
keep-above q low lo (suc n) h = split (q lo) (keep-above q low (suc lo) n (omega arith))
  where
    split :
        (b : Bool)
        → All (λ x. low < x) (keep q (range_from (suc lo) n))
        → All
            (λ x. low < x)
            (elim b [
              | true ↦ lo ∷ keep q (range_from (suc lo) n)
              | false ↦ keep q (range_from (suc lo) n)
            ])
    split true rest = (h, rest)
    split false rest = rest

keep-Ascends : (q : ℕ → Bool) (lo n : ℕ) → Ascends (keep q (range_from lo n))
keep-Ascends q lo zero = tt
keep-Ascends q lo (suc n) = split (q lo) (keep-Ascends q (suc lo) n)
  where
    split :
        (b : Bool)
        → Ascends (keep q (range_from (suc lo) n))
        → Ascends (elim b [
          | true ↦ lo ∷ keep q (range_from (suc lo) n)
          | false ↦ keep q (range_from (suc lo) n)
        ])
    split true rest = (keep-above q lo (suc lo) n (omega arith), rest)
    split false rest = rest

predicate_at-All :
    (P : RowPredicate → Type 0) (predicates : List RowPredicate) (item : ℕ)
    → P (of_columns [])
    → All P predicates
    → P (predicate_at predicates item)
unfolding predicate_at
predicate_at-All P [] item d h = d
predicate_at-All P (p ∷ predicates) zero d h = h.0
predicate_at-All P (p ∷ predicates) (suc item) d h = predicate_at-All P predicates item d h.1

module _ (lib : Libraries) (batch : Batch) (i : ℕ) (predicates : List RowPredicate)
    (stats : GroupStats) (h : AreTrue lib batch i stats) where
  pub active-row_holds :
      any (λ item. row_holds lib batch i (predicate_at predicates item)) (active predicates stats)
      ≡ any (row_holds lib batch i) predicates
  unfolding active
  active-row_holds =
      any-keep _ _ (range_from 0 (length predicates)) (λ item skipped.
        can_skip_row_group-row_holds lib (predicate_at predicates item) (range stats) batch i
          (not_false _ skipped) (Described-range lib batch i stats h))
      ∙ any-predicate_at (row_holds lib batch i) predicates
    where
      not_false : (b : Bool) → not b ≡ false → b ≡ true
      not_false true e = refl
      not_false false e = absurd (ground arith)

module _ (lib : Libraries) (batch : Batch) (i : ℕ) (predicates : List RowPredicate)
    (stats : GroupStats) (h : AreTrue lib batch i stats)
    (answers : All (λ p. All (Answers lib batch i stats) (column_predicates p)) predicates) where
  checked_items :
      (items : List ℕ)
      → any (row_holds lib batch i) (map (checked predicates stats) items)
        ≡ any (λ item. row_holds lib batch i (predicate_at predicates item)) items
  checked_items items = any-map (row_holds lib batch i) (checked predicates stats) _ items (λ item.
      checked-row_holds lib batch i stats (predicate_at predicates item) h (
        predicate_at-All (λ p. All (Answers lib batch i stats) (column_predicates p)) predicates
          item (unfold column_predicates of_columns in tt) answers))

  narrowed_items :
      any (row_holds lib batch i) (
        items_after predicates
          (active predicates stats)
          (narrow predicates stats (active predicates stats)))
      ≡ any (row_holds lib batch i) predicates
  narrowed_items =
      ap (any (row_holds lib batch i))
        (items_after-narrow predicates stats (active predicates stats) active-Ascends)
      ∙ checked_items (active predicates stats)
      ∙ active-row_holds lib batch i predicates stats h
    where
      active-Ascends : Ascends (active predicates stats)
      active-Ascends = unfold active in keep-Ascends _ 0 (length predicates)

not_left_out :
    (by_blocks by_keys by_items : Bool) {x y : PreparedRowGroup}
    → (if by_blocks then none else if by_keys then none else if by_items then none else some x)
      ≡ some y
    → x ≡ y
not_left_out true by_keys by_items e = absurd (ground arith)
not_left_out false true by_items e = absurd (ground arith)
not_left_out false false true e = absurd (ground arith)
not_left_out false false false e = cc e

pub prepare_row_group-items :
    (table : ParquetTable) (request : ScanRequest) (index : ℕ) (group : PreparedRowGroup)
    → prepare_row_group table request index ≡ some group
    → items_of request.predicates group
      ≡ items_after request.predicates
          (active request.predicates (read_stats table index request.predicates))
          (narrow request.predicates
            (read_stats table index request.predicates)
            (active request.predicates (read_stats table index request.predicates)))
unfolding prepare_row_group items_of prepared
prepare_row_group-items table request index group e = sym (
    ap (items_of request.predicates) (
      not_left_out (out_of_blocks table request index) (out_of_keys table request index)
        (out_of_items request.predicates (read_stats table index request.predicates)) e))

-- The items that a row group is prepared with keep a row exactly where the request's filters do: for
-- every table, request and row group that is read, and every row of the group, where the statistics
-- of the columns are true of the row and every filter reads the type its column is stored at.
pub prepare_row_group-row_holds :
    (lib : Libraries) (table : ParquetTable) (request : ScanRequest) (index : ℕ)
    (group : PreparedRowGroup) (batch : Batch) (i : ℕ)
    → prepare_row_group table request index ≡ some group
    → AreTrue lib batch i (read_stats table index request.predicates)
    → All
        (λ p.
          All
            (Answers lib batch i (read_stats table index request.predicates))
            (column_predicates p))
        request.predicates
    → any (row_holds lib batch i) (items_of request.predicates group)
      ≡ any (row_holds lib batch i) request.predicates
prepare_row_group-row_holds lib table request index group batch i e h answers =
    ap (any (row_holds lib batch i)) (prepare_row_group-items table request index group e)
    ∙ narrowed_items lib batch i request.predicates (read_stats table index request.predicates) h
        answers
