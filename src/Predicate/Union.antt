-- ===== src/Predicate/Union.antt =====
-- `listed_union` of src/scan/predicate.rs: one list per column of every value that some item lists
-- there. `arrow::compute::concat` of the lists is a parameter.
use Prim.Native.String.{String}
use sqd_query_engine.Prelude.{
  ℕ, suc, ◌+◌, Bool, true, false, ◌&&◌, List, [], ◌∷◌, ◌++◌, if◌then◌else◌, Option, none, some, ltb,
}
use sqd_query_engine.Predicate.Value.{FilterList}
use sqd_query_engine.Predicate.Column.{ArrayPredicate, on_value, in_list}
use sqd_query_engine.Predicate.Row.{
  ColumnPredicate, RowPredicate, string_eq, is_nil, of_columns, with_alternatives, col_in_list,
}

-- `InListPredicate` alone overrides it.
unfoldable pub listed_values : ArrayPredicate → Option FilterList
listed_values (on_value (in_list values)) = some values
listed_values _ = none

unfoldable pub is_listed : ColumnPredicate → Bool
unfolding listed_values
is_listed c = elim (listed_values c.predicate) [ none ↦ false | some _ ↦ true ]

-- The lists that one item requires on a column, and that all items do: `demand`.
unfoldable pub count_listed : List ColumnPredicate → String → ℕ
unfolding is_listed
count_listed [] column = 0
count_listed (c ∷ columns) column =
    let rest = count_listed columns column in
    if is_listed c && string_eq (c.column) column then suc rest else rest

unfoldable pub demand : List RowPredicate → String → ℕ
unfolding count_listed
demand [] column = 0
demand (item ∷ items) column = count_listed item.columns column + demand items column

-- The last of those with the most demand, as `max_by_key` gives it.
unfoldable pub prefer : (String → ℕ) → ColumnPredicate → Option ColumnPredicate → ColumnPredicate
prefer wanted c none = c
prefer wanted c (some best) = if ltb (wanted best.column) (wanted c.column) then c else best

unfoldable pub most_demanded : (String → ℕ) → List ColumnPredicate → Option ColumnPredicate
unfolding is_listed prefer
most_demanded wanted [] = none
most_demanded wanted (c ∷ predicates) =
    let rest = most_demanded wanted predicates in
    if is_listed c then some (prefer wanted c rest) else rest

-- One from each group, or `none` where a group has none.
unfoldable pub choose_groups :
    (String → ℕ) → List (List ColumnPredicate) → Option (List ColumnPredicate)
unfolding most_demanded
choose_groups wanted [] = some []
choose_groups wanted (group ∷ groups) = elim (most_demanded wanted group) [
  | none ↦ none
  | some c ↦ elim (choose_groups wanted groups) [ none ↦ none | some rest ↦ some (c ∷ rest) ]
]

unfoldable pub choose_item : (String → ℕ) → RowPredicate → Option (List ColumnPredicate)
unfolding most_demanded choose_groups
choose_item wanted item = elim (most_demanded wanted item.columns) [
  | some required ↦ some (required ∷ [])
  | none ↦ if is_nil item.alternatives then none else choose_groups wanted item.alternatives
]

unfoldable pub choose : (String → ℕ) → List RowPredicate → Option (List ColumnPredicate)
unfolding choose_item
choose wanted [] = some []
choose wanted (item ∷ items) = elim (choose_item wanted item) [
  | none ↦ none
  | some chosen ↦ elim (choose wanted items) [ none ↦ none | some rest ↦ some (chosen ++ rest) ]
]

-- A list put with the others of its column.
unfoldable pub add_list :
    List (String × List FilterList) → String → FilterList → List (String × List FilterList)
add_list [] column values = (column, values ∷ []) ∷ []
add_list ((c, lists) ∷ unions) column values =
    let rest = add_list unions column values in
    if string_eq c column then (c, lists ++ values ∷ []) ∷ unions else (c, lists) ∷ rest

unfoldable pub merge :
    List (String × List FilterList)
    → List ColumnPredicate
    → Option (List (String × List FilterList))
unfolding listed_values add_list
merge unions [] = some unions
merge unions (c ∷ chosen) = elim (listed_values c.predicate) [
  | none ↦ none
  | some values ↦ merge (add_list unions c.column values) chosen
]

module _ (concat : List FilterList → Option FilterList) where
  unfoldable pub union_groups :
      List (String × List FilterList) → Option (List (List ColumnPredicate))
  unfolding col_in_list
  union_groups [] = some []
  union_groups ((column, lists) ∷ unions) = elim (concat lists) [
    | none ↦ none
    | some values ↦ elim (union_groups unions) [
      | none ↦ none
      | some groups ↦ some ((col_in_list column values ∷ []) ∷ groups)
    ]
  ]

-- Of one group, its columns; of others, alternatives.
unfoldable pub of_groups : List (List ColumnPredicate) → RowPredicate
unfolding of_columns with_alternatives
of_groups (group ∷ []) = of_columns group
of_groups groups = with_alternatives [] groups

module _ (concat : List FilterList → Option FilterList) where
  unfoldable pub listed_union : List RowPredicate → Option RowPredicate
  unfolding demand choose merge union_groups of_groups
  listed_union items = elim (choose (demand items) items) [
    | none ↦ none
    | some chosen ↦ elim (merge [] chosen) [
      | none ↦ none
      | some unions ↦ elim (union_groups concat unions) [
        | none ↦ none
        | some groups ↦ some (of_groups groups)
      ]
    ]
  ]
