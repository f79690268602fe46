-- ===== src/Page/Selected.antt =====
-- The page that page selection returns, however the request is cut into ranges.
use sqd_query_engine.Prelude.{
  ℕ, ◌+◌, ◌≤◌, ◌<◌, true, Option, none, some, List, [], ◌∷◌, if◌then◌else◌, ◌≡◌, arith, refl, ap,
  ◌∙◌, map, All,
}
use sqd_query_engine.Prelude.Words.{u64_max}
use sqd_query_engine.Error.{ok}
use sqd_query_engine.Selection.{BlockSelection, new, is_empty, weight_of, extend}
use sqd_query_engine.Selection.Prefix.{page, extend-page}
use sqd_query_engine.Selection.Ranges.{extend-weights}
use sqd_query_engine.Page.{Execution, Reader, Page, finish, request_end_of, select_page}
use sqd_query_engine.Page.Ranges.{from_on, IsAscending}
use sqd_query_engine.Page.Loop.{Serves, read_ranges-Returns}

-- The page that some blocks of these weights make up, or none.
abbrev pub page_of :
    (reader : Reader) → (ℕ → Option ℕ) → List ℕ → reader.Tables → Option ℕ → Option (Page reader)
page_of reader v [] t through = none
page_of reader v (b ∷ bs) t through = some (record {
  blocks = b ∷ bs;
  weights = map (weight_of v) (b ∷ bs);
  tables = t;
  read_through = through;
})

finish-page_of :
    (reader : Reader) (v : ℕ → Option ℕ) (s : BlockSelection) (t : reader.Tables)
    (through : Option ℕ)
    → s.weights ≡ map (weight_of v) s.blocks
    → finish reader s t through ≡ page_of reader v s.blocks t through
unfolding finish
finish-page_of reader v s t through h = by_blocks s.blocks s.weights h
  where
    by_blocks :
        (bs ws : List ℕ)
        → ws ≡ map (weight_of v) bs
        → (if is_empty bs
            then none
            else some (
                let p : Page reader = record {
                  blocks = bs;
                  weights = ws;
                  tables = t;
                  read_through = through;
                } in
                p))
          ≡ page_of reader v bs t through
    by_blocks [] ws e = refl
    by_blocks (b ∷ bs) ws e = rw e

-- Page selection does not depend on how the request is read: over a reader that fails nowhere, whose
-- ranges hold those of some ascending blocks that lie in them, each of one weight whichever range it
-- is read in, none of them behind the request's end, with a first hint that can be read and the budget
-- and the request's end below the largest word, the loop ends within as many rounds as the request
-- has block numbers, whatever the hints, the spans and the footers say; and it returns the page of
-- those blocks from `from_block` on: the longest run of the first ones within the budget, or the
-- first alone, each beside its weight, and none where there are none.
pub select_page-page :
    (reader : Reader) (blocks : List ℕ) (v : ℕ → Option ℕ) (execution : Execution)
    (headers : List ℕ) (last_header r fuel : ℕ) (hint : Option ℕ)
    → Serves reader blocks v
    → execution.initial_range_end ≡ ok hint
    → request_end_of reader execution.to_block (some last_header) ≡ some r
    → r < u64_max
    → execution.weight_budget < u64_max
    → IsAscending blocks
    → All (λ b. b ≤ r) blocks
    → r < execution.from_block + fuel
    → 1 ≤ fuel
    → (t : reader.Tables) × (through : Option ℕ) × (select_page reader fuel execution headers
          (some last_header)
        ≡ some (
            ok (
              page_of reader v
                (page v execution.weight_budget (from_on execution.from_block blocks))
                t
                through)))
unfolding select_page
select_page-page reader blocks v execution headers last_header r fuel hint serves hinted end word
      budget ascending reached enough some_fuel =
    let start = new execution.weight_budget in
    let chosen = from_on execution.from_block blocks in
    let (t, through, e) =
      read_ranges-Returns reader blocks v serves execution
        (if execution.defers then headers else []) r hint hinted word ascending reached
        (before_plan_end execution.to_block end) fuel execution.from_block true start
        reader.no_tables enough some_fuel in
    (
      t,
      through,
      rw end (
          rw e (
            ap (λ p. some (ok p))
              (finish-page_of reader v (extend start chosen v).0 t through
                  (extend-weights start chosen v (unfold new in refl))
                ∙ ap (λ bs. page_of reader v bs t through)
                    ((extend-page v execution.weight_budget chosen budget).0)))),
    )
  where
    before_plan_end :
        (to : Option ℕ)
        → request_end_of reader to (some last_header) ≡ some r
        → (end : ℕ) → to ≡ some end
        → r ≤ end
    before_plan_end none e end q = absurd (ground arith)
    before_plan_end (some plan_end) e end q = ground arith
