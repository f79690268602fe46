-- ===== src/Scanner/Dropped.antt =====
-- The row groups that src/scan/scanner.rs leaves out have no row that the scan asks for.
use Prim.Native.String.{String}
use sqd_query_engine.Prelude.{
  ℕ, ◌≤◌, Bool, true, false, ◌&&◌, ◌||◌, not, List, [], ◌∷◌, if◌then◌else◌, any, all, Option, none,
  some, get_elem?, ltb, leb, ◌==◌, ==_iff, ◌≡◌, refl, arith, ap, ap₂, sym, ◌∙◌, Bool-cases, inl,
  inr, &&_iff,
}
use sqd_query_engine.Predicate.Order.{partition_point_by, none_within}
use sqd_query_engine.Predicate.Search.{IsOrder, IsSorted, none_within-sorted}
use sqd_query_engine.Predicate.Column.{Libraries}
use sqd_query_engine.Predicate.Row.{RowPredicate, Batch, is_nil}
use sqd_query_engine.Predicate.Groups.{row_holds}
use sqd_query_engine.Scanner.{
  ScanRequest, KeyFilter, blocks_outside, has_block_within, keys_elsewhere, active, predicate_at,
  PreparedRowGroup, prepare_row_group, prepared, out_of_blocks, out_of_keys, out_of_items,
}
use sqd_query_engine.Scanner.Stats.{ParquetTable, block_bounds, read_stats, GroupStats}
use sqd_query_engine.Scanner.Prepared.{active-row_holds}
use sqd_query_engine.Scanner.Checked.{AreTrue}

pub ltb-IsOrder : IsOrder ℕ ltb
ltb-IsOrder = (λ a b c h k. ground arith, λ a b h. ground arith)

one_inside :
    (low high block : ℕ) (bs : List ℕ)
    → low ≤ block
    → block ≤ high
    → any (λ k. k == block) bs ≡ true
    → all (λ b. ltb b low || ltb high b) bs ≡ false
one_inside low high block [] hl hh h = absurd (ground arith)
one_inside low high block (b ∷ bs) hl hh h = elim (Bool-cases (b == block)) [
  | inl e ↦ ground (arith, (==_iff b block).0 e, hl, hh)
  | inr e ↦ ground (arith, one_inside low high block bs hl hh, h, e)
]

-- A block between two bounds is found among a relation's, which are sorted.
has_block_within-any :
    (keys : KeyFilter) (low high block : ℕ)
    → IsSorted ltb ltb-IsOrder keys.sorted_blocks
    → low ≤ block
    → block ≤ high
    → any (λ k. k == block) keys.sorted_blocks ≡ true
    → has_block_within keys low high ≡ true
unfolding has_block_within none_within
has_block_within-any keys low high block is_sorted hl hh h =
    same_search
      (get_elem? keys.sorted_blocks (partition_point_by (λ b. ltb b low) keys.sorted_blocks))
    ∙ ap not (
        none_within-sorted ltb ltb-IsOrder low high keys.sorted_blocks is_sorted
        ∙ one_inside low high block keys.sorted_blocks hl hh h)
  where
    same_search :
        (o : Option ℕ)
        → (elim o [ none ↦ false | some b ↦ leb b high ])
          ≡ not (elim o [ none ↦ true | some b ↦ ltb high b ])
    same_search none = refl
    same_search (some b) = ground arith

module _ (table : ParquetTable) (request : ScanRequest) (index : ℕ) (block : String → ℕ) where
  -- The blocks of the row lie inside the bounds that the footer states of its columns.
  abbrev pub AreBounds : Type 0
  AreBounds =
      (column : String) (low high : ℕ)
      → block_bounds table index column ≡ some (low, high)
      → (low ≤ block column) × (block column ≤ high)

  abbrev pub from_on : Option ℕ → ℕ → Bool
  from_on none b = true
  from_on (some from) b = leb from b

  abbrev pub up_to : Option ℕ → ℕ → Bool
  up_to none b = true
  up_to (some to) b = leb b to

  -- The request asks for the row's block.
  abbrev pub in_window : Option String → Bool
  in_window none = true
  in_window (some column) =
      from_on request.from_block (block column) && up_to request.to_block (block column)

  -- The relation has a key in the row's block.
  abbrev pub in_keys : Option KeyFilter → Bool
  in_keys none = true
  in_keys (some keys) = any (λ k. k == block keys.block_number_column) keys.sorted_blocks

  abbrev pub AreSorted : Option KeyFilter → Type 0
  AreSorted none = Unit
  AreSorted (some keys) = IsSorted ltb ltb-IsOrder keys.sorted_blocks

  outside_window :
      (column : String) (from to : Option ℕ) (bounds : Option (ℕ × ℕ))
      → ((low high : ℕ) → bounds ≡ some (low, high) → (low ≤ block column) × (block column ≤ high))
      → blocks_outside from to bounds ≡ true
      → (from_on from (block column) && up_to to (block column)) ≡ false
  unfolding blocks_outside
  outside_window column from to none h e = absurd (ground arith)
  outside_window column none none (some (low, high)) h e = absurd (ground arith)
  outside_window column none (some t) (some (low, high)) h e = ground (arith, h low high refl)
  outside_window column (some f) none (some (low, high)) h e = ground (arith, h low high refl)
  outside_window column (some f) (some t) (some (low, high)) h e = ground (arith, h low high refl)

  out_of_blocks-in_window :
      (column : Option String)
      → AreBounds
      → blocks_outside request.from_block request.to_block
          (elim column [ none ↦ none | some c ↦ block_bounds table index c ])
        ≡ true
      → in_window column ≡ false
  out_of_blocks-in_window none h e = absurd (unfold blocks_outside in ground arith)
  out_of_blocks-in_window (some column) h e =
      outside_window column request.from_block request.to_block (block_bounds table index column)
        (h column) e

  keys_elsewhere-in_keys :
      (keys : Option KeyFilter)
      → AreSorted keys
      → AreBounds
      → keys_elsewhere keys (block_bounds table index) ≡ true
      → in_keys keys ≡ false
  unfolding keys_elsewhere
  keys_elsewhere-in_keys none s h e = absurd (ground arith)
  keys_elsewhere-in_keys (some keys) s h e =
      found (block_bounds table index keys.block_number_column) refl e
    where
      found :
          (o : Option (ℕ × ℕ))
          → block_bounds table index keys.block_number_column ≡ o
          → (elim o [ none ↦ false | some (low, high) ↦ not (has_block_within keys low high) ])
            ≡ true
          → in_keys (some keys) ≡ false
      found none eo e = absurd (ground arith)
      found (some (low, high)) eo e = elim (Bool-cases (in_keys (some keys))) [
        | inl has_key ↦
            let inside = h keys.block_number_column low high eo in
            absurd (
              ground (
                arith,
                has_block_within-any keys low high (block keys.block_number_column) s inside.0
                    inside.1 has_key,
                e,
              ))
        | inr e ↦ e
      ]

out_of_items-false :
    (lib : Libraries) (batch : Batch) (i : ℕ) (predicates : List RowPredicate) (stats : GroupStats)
    → AreTrue lib batch i stats
    → out_of_items predicates stats ≡ true
    → (is_nil predicates || any (row_holds lib batch i) predicates) ≡ false
unfolding out_of_items
out_of_items-false lib batch i predicates stats h e =
    let both = (&&_iff (not (is_nil predicates)) (is_nil (active predicates stats))).0 e in
    ap₂ (λ a b. a || b) (none_given (is_nil predicates) both.0)
      (sym (active-row_holds lib batch i predicates stats h)
        ∙ no_item (active predicates stats) both.1)
  where
    none_given : (b : Bool) → not b ≡ true → b ≡ false
    none_given true e = absurd (ground arith)
    none_given false e = refl

    no_item :
        (items : List ℕ)
        → is_nil items ≡ true
        → any (λ item. row_holds lib batch i (predicate_at predicates item)) items ≡ false
    no_item [] e = refl
    no_item (item ∷ items) e = absurd (ground arith)

decide :
    (by_blocks by_keys by_items window keys held : Bool) (x : PreparedRowGroup)
    → (by_blocks ≡ true → window ≡ false)
    → (by_keys ≡ true → keys ≡ false)
    → (by_items ≡ true → held ≡ false)
    → (if by_blocks then none else if by_keys then none else if by_items then none else some x)
      ≡ none
    → (window && (keys && held)) ≡ false
decide true by_keys by_items window keys held x hw hk hh e = rw (hw refl) refl
decide false true by_items window keys held x hw hk hh e = rw (hk refl) (ground arith)
decide false false true window keys held x hw hk hh e = rw (hh refl) (ground arith)
decide false false false window keys held x hw hk hh e = absurd (ground arith)

-- A row group that is left out has no row that the scan asks for: for every table, request and row
-- group that is not read, no row of the group is at a block that the request asks for, has a block
-- of the relation's keys, and is kept by one of the request's filters, if it has any. The
-- relation's blocks are sorted, the bounds of the group's blocks that the footer states hold for
-- the row, and the statistics of the columns are true of it.
pub prepare_row_group-left_out :
    (lib : Libraries) (table : ParquetTable) (request : ScanRequest) (index : ℕ)
    (block : String → ℕ) (batch : Batch) (i : ℕ)
    → prepare_row_group table request index ≡ none
    → AreSorted table request index block request.key_filter
    → AreBounds table request index block
    → AreTrue lib batch i (read_stats table index request.predicates)
    → (in_window table request index block request.block_number_column
        && (in_keys table request index block request.key_filter
            && (is_nil request.predicates || any (row_holds lib batch i) request.predicates)))
      ≡ false
unfolding prepare_row_group
prepare_row_group-left_out lib table request index block batch i e s h stats_true =
    decide (out_of_blocks table request index) (out_of_keys table request index)
      (out_of_items request.predicates stats) _ _ _ (prepared request.predicates stats index)
      (λ b.
        unfold out_of_blocks in
        out_of_blocks-in_window table request index block request.block_number_column h b)
      (λ k.
        unfold out_of_keys in
        keys_elsewhere-in_keys table request index block request.key_filter s h k)
      (λ t. out_of_items-false lib batch i request.predicates stats stats_true t) e
  where
    stats : GroupStats
    stats = read_stats table index request.predicates
