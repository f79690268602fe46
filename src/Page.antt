-- ===== src/Page.antt =====
-- src/execution/page.rs: where each range of a page's read ends, and the loop that reads complete
-- ranges and weighs their blocks until the budget is spent or the request ends. What the plan, the
-- options and the footers say is the record `Execution`; what reads the rows of a range is the
-- interface `Reader`.
pub mod Bounds
pub mod Ranges
pub mod Loop
pub mod Ends
pub mod Selected
mod Tests
use sqd_query_engine.Prelude.{
  ℕ, zero, suc, ◌+◌, ◌-◌, ◌*◌, min, max, Bool, true, false, ◌&&◌, ◌||◌, not, Option, none, some,
  List, [], ◌∷◌, leb, ltb, ◌==◌, if◌then◌else◌, length, get_elem?,
}
use sqd_query_engine.Prelude.Words.{u64_max, saturating_sub, checked_add, div_ceil}
use sqd_query_engine.Error.{Result, ok, err, ◌>>=◌}
use sqd_query_engine.Selection
use sqd_query_engine.Selection.{BlockSelection, is_empty, extend}

pub record Execution : Type 0 where
  pub from_block : ℕ
  pub to_block : Option ℕ
  pub weight_budget : ℕ
  pub range_reads : Bool
  -- `selection.is_some()`: payloads are read after the selection
  pub defers : Bool
  -- some item of some table matches every row
  pub unfiltered : Bool
  pub selection_fits : Bool
  pub initial_range_end : Result (Option ℕ)
  pub next_range_end : ℕ → Option ℕ

abbrev pub unfiltered_span : ℕ
unfiltered_span = 16

abbrev pub selective_span : ℕ
selective_span = 1024

-- `partition_point(|b| b < bound)` of an ascending list
unfoldable pub partition_point : ℕ → List ℕ → ℕ
partition_point bound [] = 0
partition_point bound (b ∷ bs) =
    let rest = partition_point bound bs in if ltb b bound then suc rest else 0

-- A `usize` is 64 bits wide.
unfoldable pub headers_budget_holds : ℕ → ℕ → ℕ → ℕ
headers_budget_holds budget weight headers_read =
    if weight == 0
    then u64_max
    else min (div_ceil (saturating_sub budget weight * headers_read) weight) u64_max

unfoldable pub selection_span : Execution → BlockSelection → ℕ → ℕ → Option ℕ
selection_span execution selection headers_read headers_left =
    if not execution.defers
    then none
    else if execution.unfiltered && headers_read == 0
    then some unfiltered_span
    else (let holds =
          headers_budget_holds execution.weight_budget selection.cumulative headers_read in
        if execution.unfiltered && leb holds selective_span
        then some (max holds unfiltered_span)
        else if ltb selective_span headers_left && execution.selection_fits
        then none
        else some selective_span)

-- The hint cut at the last header of the selection's span.
unfoldable pub cut_to_span : Option ℕ → Option ℕ → Option ℕ
cut_to_span hint none = hint
cut_to_span none (some end) = some end
cut_to_span (some hint) (some end) = some (min hint end)

-- `hint.filter(|&end| request_end.is_none_or(|last| end < last))`
unfoldable pub drop_covering : Option ℕ → Option ℕ → Option ℕ
drop_covering none request_end = none
drop_covering (some end) none = some end
drop_covering (some end) (some last) = if ltb end last then some end else none

-- The last block of a range, and whether the range reaches the end of the request.
unfoldable pub bound_range : Option ℕ → Option ℕ → ℕ → Option ℕ → Option ℕ × Bool
bound_range none request_end from_block to_block = (to_block, true)
bound_range (some hint) none from_block to_block = (some (max hint from_block), false)
bound_range (some hint) (some end) from_block to_block =
    let last = min (max hint from_block) end in (some last, last == end)

-- The header number `span - 1` after the first one that is not read yet.
unfoldable pub span_end : Option ℕ → List ℕ → ℕ → Option ℕ
span_end none header_numbers first = none
span_end (some span) header_numbers first = get_elem? header_numbers (first + span - 1)

unfoldable pub range_end :
    Execution → BlockSelection → ℕ → Bool → List ℕ → Option ℕ → Result (Option ℕ × Bool)
range_end execution selection from_block first_range header_numbers request_end =
    (if execution.range_reads
      then (if first_range
          then execution.initial_range_end
          else ok (execution.next_range_end from_block))
      else ok none)
    >>= λ hint.
        let first = partition_point from_block header_numbers in
        let span = selection_span execution selection first (length header_numbers - first) in
        let hint' =
          drop_covering (cut_to_span hint (span_end span header_numbers first)) request_end in
        ok (bound_range hint' request_end from_block execution.to_block)

-- What reads a range: the scan of its tables, its headers, the blocks that a page can hold, what
-- each weighs, and the rows kept of it.
pub record Reader : Type 1 where
  pub Outputs : Type 0
  pub Headers : Type 0
  pub Tables : Type 0
  pub scan_tables : ℕ → Option ℕ → Result Outputs
  pub range_headers : Bool → ℕ → Option ℕ → Result Headers
  pub range_blocks : Outputs → Headers → ℕ → Option ℕ → Result (List ℕ)
  pub weigh : Outputs → Headers → List ℕ → Result (ℕ → Option ℕ)
  pub retain : Outputs → List ℕ → Result Outputs
  pub append : Tables → Outputs → Result Tables
  pub no_tables : Tables

module _ (reader : Reader) where
  open reader use {
    Outputs, Headers, Tables, scan_tables, range_headers, range_blocks, weigh, retain, append,
    no_tables,
  }

  -- The headers that a page holds as well are those read before the loop, which it does not change.
  pub record Page : Type 0 where
    pub blocks : List ℕ
    pub weights : List ℕ
    pub tables : Tables
    pub read_through : Option ℕ

  -- The selection after a range, and whether the budget is exceeded.
  unfoldable pub weigh_range :
      BlockSelection → Outputs → Headers → List ℕ → Result (BlockSelection × Bool)
  weigh_range selection outputs headers blocks =
      if is_empty blocks
      then ok (selection, false)
      else (weigh outputs headers blocks >>= λ weights. ok (extend selection blocks weights))

  -- One round of the loop: the range's end, whether it is the last, and the state after it.
  unfoldable pub read_range :
      Execution
      → List ℕ
      → Option ℕ
      → ℕ
      → Bool
      → BlockSelection
      → Tables
      → Result (Option ℕ × Bool × BlockSelection × Bool × Tables)
  read_range execution header_numbers request_end from_block first_range selection tables = do
    (to_block, last_range) ←
        range_end execution selection from_block first_range header_numbers request_end
    outputs ← scan_tables from_block to_block
    headers ← range_headers (first_range && last_range) from_block to_block
    blocks ← range_blocks outputs headers from_block to_block
    (selection', exhausted) ← weigh_range selection outputs headers blocks
    outputs' ← (if execution.defers then retain outputs selection'.blocks else ok outputs)
    tables' ← append tables outputs'
    ok (to_block, last_range, selection', exhausted, tables')

  -- The page of a selection, or `none` where no block was selected.
  unfoldable pub finish : BlockSelection → Tables → Option ℕ → Option Page
  finish selection tables read_through =
      if is_empty selection.blocks
      then none
      else some (record {
        blocks = selection.blocks;
        weights = selection.weights;
        tables = tables;
        read_through = read_through;
      })

  abbrev pub next_block : Option ℕ → Option ℕ
  next_block none = none
  next_block (some end) = checked_add end 1

  -- The loop, with fuel: `none` where the fuel runs out.
  unfoldable pub read_ranges :
      Execution
      → List ℕ
      → Option ℕ
      → ℕ
      → ℕ
      → Bool
      → BlockSelection
      → Tables
      → Option (Result (Option Page))
  read_ranges execution header_numbers request_end zero from_block first_range selection tables =
      none
  read_ranges execution header_numbers request_end (suc fuel) from_block first_range selection
        tables =
      elim (read_range execution header_numbers request_end from_block first_range selection
        tables) [
          | err why ↦ some (err why)
          | ok (to_block, last_range, selection', exhausted, tables') ↦
              elim (exhausted || last_range) [
                | true ↦ some (
                    ok (
                      finish selection' tables'
                        (if exhausted && not last_range then to_block else none)))
                | false ↦ elim (next_block to_block) [
                  | none ↦ some (ok (finish selection' tables' none))
                  | some next ↦
                      read_ranges execution header_numbers request_end fuel next false selection'
                        tables'
                ]
              ]
        ]

  -- `select_page`, once the headers are read: their last block is the largest boundary block.
  abbrev pub request_end_of : Option ℕ → Option ℕ → Option ℕ
  request_end_of to_block none = to_block
  request_end_of none (some last) = some last
  request_end_of (some end) (some last) = some (min end last)

  unfoldable pub select_page : ℕ → Execution → List ℕ → Option ℕ → Option (Result (Option Page))
  unfolding read_ranges
  select_page fuel execution headers last_header =
      let header_numbers = if execution.defers then headers else [] in
      read_ranges execution header_numbers (request_end_of execution.to_block last_header) fuel
        execution.from_block true (Selection.new execution.weight_budget) no_tables
