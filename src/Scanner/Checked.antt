-- ===== src/Scanner/Checked.antt =====
-- src/scan/scanner.rs: the filters left to check in a row group.
use Prim.Native.String.{String}
use sqd_query_engine.Prelude.{
  ℕ, ◌<◌, true, false, ◌&&◌, List, [], ◌∷◌, map, Option, none, some, ==_refl, ◌≡◌, refl, arith, ap,
  sym, ◌∙◌, All, All-imp, Option-cases, inl, inr, &&_iff,
}
use sqd_query_engine.Predicate.Mask.{BooleanArray, masked, keeps}
use sqd_query_engine.Predicate.Scalar.{StatRange}
use sqd_query_engine.Predicate.Skip.{matches_every_value}
use sqd_query_engine.Predicate.Column.{Array, Libraries, evaluate}
use sqd_query_engine.Predicate.Outside.{Within}
use sqd_query_engine.Predicate.Matched.{matches_every_value-evaluate}
use sqd_query_engine.Predicate.Held.{HasValue}
use sqd_query_engine.Predicate.Row.{
  ColumnPredicate, RowPredicate, Batch, column_predicates, without_proven,
}
use sqd_query_engine.Predicate.Groups.{row_holds, column_keeps, Described}
use sqd_query_engine.Predicate.Proven.{KeepsProven, without_proven-row_holds}
use sqd_query_engine.Scanner.{predicate_at, narrow, items_after}
use sqd_query_engine.Scanner.Stats.{
  ColumnSummary, GroupStats, find_summary, range, range_of, proves, proved_by,
}

abbrev pub Ascends : List ℕ → Type 0
Ascends [] = Unit
Ascends (item ∷ items) = All (λ next. item < next) items × Ascends items

-- What is left of an item, or the item.
abbrev pub or_left : RowPredicate → Option RowPredicate → RowPredicate
or_left p none = p
or_left p (some left) = left

-- The items merge with what is left of them: each item as `narrowed` has it, or as it is.
module _ (predicates : List RowPredicate) (stats : GroupStats) where
  -- An item as the row group checks it.
  abbrev pub checked : ℕ → RowPredicate
  checked item =
      or_left (predicate_at predicates item)
        (without_proven (predicate_at predicates item) (proves stats))

  narrow-above :
      (low : ℕ) (items : List ℕ)
      → All (λ item. low < item) items
      → All (λ n. low < n.0) (narrow predicates stats items)
  unfolding narrow
  narrow-above low [] h = tt
  narrow-above low (item ∷ items) h =
      elim (Option-cases (without_proven (predicate_at predicates item) (proves stats))) [
        | inl e ↦ rw (narrow, e) (narrow-above low items h.1)
        | inr (left, e) ↦ rw (narrow, e) (h.0, narrow-above low items h.1)
      ]

  -- An item below all that `narrowed` has left is as it is.
  items_after-below :
      (item : ℕ) (items : List ℕ) (narrowed : List (ℕ × RowPredicate))
      → All (λ n. item < n.0) narrowed
      → items_after predicates (item ∷ items) narrowed
        ≡ predicate_at predicates item ∷ items_after predicates items narrowed
  unfolding items_after
  items_after-below item items [] h = refl
  items_after-below item items ((n, left) ∷ narrowed) h = ground (arith, h.0)

  items_after-head :
      (item : ℕ) (left : RowPredicate) (items : List ℕ) (narrowed : List (ℕ × RowPredicate))
      → items_after predicates (item ∷ items) ((item, left) ∷ narrowed)
        ≡ left ∷ items_after predicates items narrowed
  unfolding items_after
  items_after-head item left items narrowed = rw (items_after, ==_refl item) refl

  pub items_after-narrow :
      (items : List ℕ)
      → Ascends items
      → items_after predicates items (narrow predicates stats items) ≡ map checked items
  unfolding narrow
  items_after-narrow [] h = unfold items_after in refl
  items_after-narrow (item ∷ items) h =
      elim (Option-cases (without_proven (predicate_at predicates item) (proves stats))) [
        | inl e ↦
            rw (narrow, e)
              (items_after-below item items (narrow predicates stats items)
                  (narrow-above item items h.0)
                ∙ ap (λ rest. predicate_at predicates item ∷ rest) (items_after-narrow items h.1))
        | inr (left, e) ↦
            rw (narrow, e)
              (items_after-head item left items (narrow predicates stats items)
                ∙ ap (λ rest. left ∷ rest) (items_after-narrow items h.1))
      ]

module _ (lib : Libraries) (batch : Batch) (i : ℕ) (stats : GroupStats) where
  -- The statistics that were read are true of the row.
  abbrev pub AreTrue : Type 0
  AreTrue =
      (name : String) (s : ColumnSummary) (r : StatRange)
      → find_summary stats name ≡ some s
      → s.range ≡ some r
      → (a : Array) × (batch.column_by_name name ≡ some a)
        × Within r a i
        × (s.null_free ≡ true → HasValue r a i)

  -- Every column filter reads the type its column is stored at.
  abbrev pub Answers : ColumnPredicate → Type 0
  Answers c =
      (a : Array)
      → batch.column_by_name c.column ≡ some a
      → (m : BooleanArray) × (evaluate lib c.predicate a ≡ masked m)

  pub Described-range : AreTrue → Described lib batch i (range stats)
  unfolding range range_of
  Described-range h name r e = found (find_summary stats name) refl e
    where
      found :
          (o : Option ColumnSummary)
          → find_summary stats name ≡ o
          → range_of o ≡ some r
          → (a : Array) × (batch.column_by_name name ≡ some a) × Within r a i
      found none eo e = absurd (ground arith)
      found (some s) eo e = let (a, ea, inside, has) = h name s r eo e in (a, ea, inside)

  proves-KeepsProven :
      (c : ColumnPredicate) → AreTrue → Answers c → KeepsProven lib batch (proves stats) i c
  unfolding proves proved_by
  proves-KeepsProven c h answers e = found (find_summary stats c.column) refl e
    where
      known :
          (s : ColumnSummary) (r : StatRange)
          → find_summary stats c.column ≡ some s
          → s.range ≡ some r
          → (s.null_free && matches_every_value c.predicate r) ≡ true
          → column_keeps lib batch i c ≡ true
      known s r eo er e =
          let both = (&&_iff s.null_free (matches_every_value c.predicate r)).0 e in
          let (a, ea, inside, has) = h c.column s r eo er in
          let (m, em) = answers a ea in
          ap (λ o. elim o [ none ↦ true | some array ↦ keeps (evaluate lib c.predicate array) i ])
            ea
          ∙ ap (λ x. keeps x i) em
          ∙ matches_every_value-evaluate lib c.predicate r a i m both.1 (has both.0) em

      found :
          (o : Option ColumnSummary)
          → find_summary stats c.column ≡ o
          → proved_by c.predicate o ≡ true
          → column_keeps lib batch i c ≡ true
      found none eo e = absurd (ground arith)
      found (some s) eo e = elim (Option-cases s.range) [
        | inl none_given ↦ absurd (ground (arith, e, none_given))
        | inr (r, er) ↦ known s r eo er (
            sym (
              ap
                (λ o. elim o [
                  | none ↦ false
                  | some r ↦ s.null_free && matches_every_value c.predicate r
                ])
                er)
            ∙ e)
      ]

  -- An item without what is proved, or as it is, keeps the same rows.
  pub checked-row_holds :
      (p : RowPredicate)
      → AreTrue
      → All Answers (column_predicates p)
      → row_holds lib batch i (or_left p (without_proven p (proves stats)))
        ≡ row_holds lib batch i p
  checked-row_holds p h answers = elim (Option-cases (without_proven p (proves stats))) [
    | inl e ↦ ap (λ o. row_holds lib batch i (or_left p o)) e
    | inr (left, e) ↦
        ap (λ o. row_holds lib batch i (or_left p o)) e
        ∙ without_proven-row_holds lib p left (proves stats) batch i e
            (All-imp (λ c. proves-KeepsProven c h) (column_predicates p) answers)
  ]
