-- ===== src/Predicate/Chosen.antt =====
-- The lists that `listed_union` of src/scan/predicate.rs chooses: one of them keeps every row that
-- one of the items keeps.
use Prim.Native.String.{String}
use sqd_query_engine.Prelude.{
  some-inj, ℕ, Bool, true, false, ◌||◌, List, [], ◌∷◌, if◌then◌else◌, any, all, Option, none, some,
  ltb, ◌≡◌, refl, arith, ap, sym, ◌∙◌, Bool-cases, inl, inr, &&_iff,
}
use sqd_query_engine.Join.Semi.Masks.{any-append}
use sqd_query_engine.Predicate.Mask.{keeps}
use sqd_query_engine.Predicate.Value.{FilterList}
use sqd_query_engine.Predicate.Column.{Libraries, on_value, in_list, evaluate}
use sqd_query_engine.Predicate.Row.{ColumnPredicate, RowPredicate, Batch, string_eq, is_nil}
use sqd_query_engine.Predicate.Groups.{column_keeps, row_holds}
use sqd_query_engine.Predicate.Union.{
  listed_values, is_listed, prefer, most_demanded, choose_groups, choose_item, choose, add_list,
  merge,
}
use sqd_query_engine.Predicate.Listed.{bind-some, string_eq→eq, listed_values-in_list, either}

module _ (lib : Libraries) (batch : Batch) (i : ℕ) where
  -- Whether a list on a column keeps the row.
  abbrev pub list_keeps : String → FilterList → Bool
  list_keeps column values = elim (batch.column_by_name column) [
    | none ↦ true
    | some a ↦ keeps (evaluate lib (on_value (in_list values)) a) i
  ]

  -- Whether one of the lists of a column does.
  abbrev pub entry_keeps : String × List FilterList → Bool
  entry_keeps entry = any (list_keeps entry.0) entry.1

  column_keeps-listed :
      (c : ColumnPredicate) (values : FilterList)
      → listed_values c.predicate ≡ some values
      → column_keeps lib batch i c ≡ list_keeps c.column values
  column_keeps-listed c values e =
      ap
        (λ p. elim (batch.column_by_name c.column) [
          | none ↦ true
          | some a ↦ keeps (evaluate lib p a) i
        ])
        (listed_values-in_list c.predicate values e)

  add_list-keeps :
      (unions : List (String × List FilterList)) (column : String) (values : FilterList)
      → any entry_keeps (add_list unions column values)
        ≡ (any entry_keeps unions || list_keeps column values)
  unfolding add_list
  add_list-keeps [] column values = ground arith
  add_list-keeps ((c, lists) ∷ unions) column values = elim (Bool-cases (string_eq c column)) [
    | inl e ↦ rw e (
        ap (λ t. t || any entry_keeps unions)
          (any-append (list_keeps c) lists (values ∷ [])
            ∙ ap (λ n. entry_keeps (c, lists) || (list_keeps n values || false))
                (string_eq→eq c column e))
        ∙ swap (entry_keeps (c, lists)) (list_keeps column values) (any entry_keeps unions))
    | inr e ↦ rw e (
        ap (λ t. entry_keeps (c, lists) || t) (add_list-keeps unions column values)
        ∙ assoc (entry_keeps (c, lists)) (any entry_keeps unions) (list_keeps column values))
  ]
    where
      swap : (a b c : Bool) → ((a || (b || false)) || c) ≡ ((a || c) || b)
      swap a b c = ground arith

      assoc : (a b c : Bool) → (a || (b || c)) ≡ ((a || b) || c)
      assoc a b c = ground arith

  pub merge-keeps :
      (unions merged : List (String × List FilterList)) (chosen : List ColumnPredicate)
      → merge unions chosen ≡ some merged
      → (any entry_keeps unions || any (column_keeps lib batch i) chosen) ≡ true
      → any entry_keeps merged ≡ true
  unfolding merge
  merge-keeps unions merged [] e h =
      ap (any entry_keeps) (sym (some-inj e)) ∙ (sym (no_more (any entry_keeps unions)) ∙ h)
    where
      no_more : (b : Bool) → (b || false) ≡ b
      no_more b = ground arith
  merge-keeps unions merged (c ∷ chosen) e h =
      let (values, ev, rest) = bind-some (listed_values c.predicate) _ e in
      merge-keeps (add_list unions c.column values) merged chosen rest (
        ap (λ t. t || any (column_keeps lib batch i) chosen)
          (add_list-keeps unions c.column values
            ∙ ap (λ t. any entry_keeps unions || t) (sym (column_keeps-listed c values ev)))
        ∙ assoc (any entry_keeps unions) (column_keeps lib batch i c)
            (any (column_keeps lib batch i) chosen)
        ∙ h)
    where
      assoc : (a b c : Bool) → ((a || b) || c) ≡ (a || (b || c))
      assoc a b c = ground arith

  prefer-keeps :
      (wanted : String → ℕ) (c : ColumnPredicate) (best : Option ColumnPredicate)
      → column_keeps lib batch i c ≡ true
      → ((b : ColumnPredicate) → best ≡ some b → column_keeps lib batch i b ≡ true)
      → column_keeps lib batch i (prefer wanted c best) ≡ true
  unfolding prefer
  prefer-keeps wanted c none h k = h
  prefer-keeps wanted c (some b) h k = elim (Bool-cases (ltb (wanted b.column) (wanted c.column))) [
    | inl e ↦ rw e h
    | inr e ↦ rw e (k b refl)
  ]

  most_demanded-keeps :
      (wanted : String → ℕ) (group : List ColumnPredicate) (c : ColumnPredicate)
      → most_demanded wanted group ≡ some c
      → all (column_keeps lib batch i) group ≡ true
      → column_keeps lib batch i c ≡ true
  unfolding most_demanded
  most_demanded-keeps wanted [] c e h = absurd (ground arith)
  most_demanded-keeps wanted (d ∷ group) c e h =
      let both = (&&_iff (column_keeps lib batch i d) (all (column_keeps lib batch i) group)).0 h in
      by_listed (is_listed d) both.0 (λ b eb. most_demanded-keeps wanted group b eb both.1) e
    where
      by_listed :
          (listed : Bool)
          → column_keeps lib batch i d ≡ true
          → ((b : ColumnPredicate)
              → most_demanded wanted group ≡ some b
              → column_keeps lib batch i b ≡ true)
          → (if listed
              then some (prefer wanted d (most_demanded wanted group))
              else most_demanded wanted group)
            ≡ some c
          → column_keeps lib batch i c ≡ true
      by_listed true hd rest e =
          ap (column_keeps lib batch i) (sym (some-inj e))
          ∙ prefer-keeps wanted d (most_demanded wanted group) hd rest
      by_listed false hd rest e = rest c e

  choose_groups-keeps :
      (wanted : String → ℕ) (groups : List (List ColumnPredicate)) (chosen : List ColumnPredicate)
      → choose_groups wanted groups ≡ some chosen
      → any (all (column_keeps lib batch i)) groups ≡ true
      → any (column_keeps lib batch i) chosen ≡ true
  unfolding choose_groups
  choose_groups-keeps wanted [] chosen e h = absurd (ground arith)
  choose_groups-keeps wanted (g ∷ groups) chosen e h =
      let (c, ec, rest) = bind-some (most_demanded wanted g) _ e in
      let (more, em, last) = bind-some (choose_groups wanted groups) _ rest in
      ap (any (column_keeps lib batch i)) (sym (some-inj last))
      ∙ either (all (column_keeps lib batch i) g) (any (all (column_keeps lib batch i)) groups)
          (column_keeps lib batch i c) (any (column_keeps lib batch i) more)
          (most_demanded-keeps wanted g c ec) (choose_groups-keeps wanted groups more em) h

  choose_item-keeps :
      (wanted : String → ℕ) (item : RowPredicate) (chosen : List ColumnPredicate)
      → choose_item wanted item ≡ some chosen
      → row_holds lib batch i item ≡ true
      → any (column_keeps lib batch i) chosen ≡ true
  unfolding choose_item
  choose_item-keeps wanted item chosen e h = by_required (most_demanded wanted item.columns) refl e
    where
      both :
          (all (column_keeps lib batch i) item.columns ≡ true)
          × ((is_nil item.alternatives || any (all (column_keeps lib batch i)) item.alternatives)
              ≡ true)
      both = (&&_iff _ _).0 h

      by_groups :
          (none_given : Bool)
          → (none_given || any (all (column_keeps lib batch i)) item.alternatives) ≡ true
          → (if none_given then none else choose_groups wanted item.alternatives) ≡ some chosen
          → any (column_keeps lib batch i) chosen ≡ true
      by_groups true h e = absurd (ground arith)
      by_groups false h e = choose_groups-keeps wanted item.alternatives chosen e h

      by_required :
          (o : Option ColumnPredicate)
          → most_demanded wanted item.columns ≡ o
          → (elim o [
            | some required ↦ some (required ∷ [])
            | none ↦
                if is_nil item.alternatives then none else choose_groups wanted item.alternatives
          ])
            ≡ some chosen
          → any (column_keeps lib batch i) chosen ≡ true
      by_required none eo e = by_groups (is_nil item.alternatives) both.1 e
      by_required (some c) eo e =
          ap (any (column_keeps lib batch i)) (sym (some-inj e))
          ∙ rw (most_demanded-keeps wanted item.columns c eo both.0) refl

  pub choose-keeps :
      (wanted : String → ℕ) (items : List RowPredicate) (chosen : List ColumnPredicate)
      → choose wanted items ≡ some chosen
      → any (row_holds lib batch i) items ≡ true
      → any (column_keeps lib batch i) chosen ≡ true
  unfolding choose
  choose-keeps wanted [] chosen e h = absurd (ground arith)
  choose-keeps wanted (item ∷ items) chosen e h =
      let (first, ef, rest) = bind-some (choose_item wanted item) _ e in
      let (more, em, last) = bind-some (choose wanted items) _ rest in
      ap (any (column_keeps lib batch i)) (sym (some-inj last))
      ∙ any-append (column_keeps lib batch i) first more
      ∙ either (row_holds lib batch i item) (any (row_holds lib batch i) items)
          (any (column_keeps lib batch i) first) (any (column_keeps lib batch i) more)
          (choose_item-keeps wanted item first ef) (choose-keeps wanted items more em) h
