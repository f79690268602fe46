-- ===== src/Page/Loop.antt =====
-- The loop of page selection: over a reader that serves a request's blocks, it ends, with the
-- selection over all blocks from its first one on.
use sqd_query_engine.Prelude.{
  ℕ, zero, suc, ◌+◌, ◌≤◌, ◌<◌, ◌^◌, Bool, true, false, ◌&&◌, Option, none, some, List, [], ◌∷◌,
  if◌then◌else◌, ◌≡◌, arith, refl, ap, ◌∙◌, inl, inr, Bool-cases, All, All-imp, le→leb, lt→ltb,
}
use sqd_query_engine.Prelude.Words.{u64_max}
use sqd_query_engine.Error.{Result, ok}
use sqd_query_engine.Selection.{BlockSelection, extend}
use sqd_query_engine.Selection.Ranges.{WeighAlike, extend_ext, extend-append}
use sqd_query_engine.Page.{
  Execution, Reader, Page, range_end, weigh_range, read_range, finish, read_ranges, next_block,
}
use sqd_query_engine.Page.Bounds.{RangeEnds, range_end-RangeEnds}
use sqd_query_engine.Page.Ranges.{
  within_end, in_range, from_on, IsAscending, from_on-split, in_range_all,
}

WeighAlike-refl : (v : ℕ → Option ℕ) (bs : List ℕ) → WeighAlike v v bs
WeighAlike-refl v [] = tt
WeighAlike-refl v (b ∷ bs) = (refl, WeighAlike-refl v bs)

module _ (reader : Reader) (blocks : List ℕ) (v : ℕ → Option ℕ) where
  open reader use {
    Outputs, Headers, Tables, scan_tables, range_headers, range_blocks, weigh, retain, append,
    no_tables,
  }

  -- A reader of a chunk whose request has these blocks: it fails nowhere; the blocks that it finds in
  -- what it read of a range are those of the request that lie in the range; and by what it read of a
  -- range, each of the range's blocks has its weight, whichever range that is.
  pub record Serves : Type 0 where
    pub scans : (from : ℕ) (to : Option ℕ) → (o : Outputs) × (scan_tables from to ≡ ok o)
    pub heads :
        (whole : Bool) (from : ℕ) (to : Option ℕ)
        → (h : Headers) × (range_headers whole from to ≡ ok h)
    pub holds :
        (whole : Bool) (from : ℕ) (to : Option ℕ) (o : Outputs) (h : Headers)
        → scan_tables from to ≡ ok o
        → range_headers whole from to ≡ ok h
        → range_blocks o h from to ≡ ok (in_range from to blocks)
    pub weighs :
        (whole : Bool) (from : ℕ) (to : Option ℕ) (o : Outputs) (h : Headers)
        → scan_tables from to ≡ ok o
        → range_headers whole from to ≡ ok h
        → (u : ℕ → Option ℕ) × (weigh o h (in_range from to blocks) ≡ ok u)
          × WeighAlike u v (in_range from to blocks)
    pub retains :
        (from : ℕ) (to : Option ℕ) (o : Outputs)
        → scan_tables from to ≡ ok o
        → (bs : List ℕ) → (o' : Outputs) × (retain o bs ≡ ok o')
    pub appends : (t : Tables) (o : Outputs) → (t' : Tables) × (append t o ≡ ok t')

  module _ (serves : Serves) where
    weigh_range_lem :
        (s : BlockSelection) (o : Outputs) (h : Headers) (bs : List ℕ)
        → ((u : ℕ → Option ℕ) × (weigh o h bs ≡ ok u) × WeighAlike u v bs)
        → weigh_range reader s o h bs ≡ ok (extend s bs v)
    unfolding weigh_range
    weigh_range_lem s o h [] weighed = unfold extend in refl
    weigh_range_lem s o h (b ∷ bs) (u, e, same) = rw e (ap ok (extend_ext u v s (b ∷ bs) same))

    -- One round reads the blocks of its range, whatever the range.
    read_range_lem :
        (execution : Execution) (header_numbers : List ℕ) (request_end : Option ℕ) (from : ℕ)
        (first : Bool) (s : BlockSelection) (t : Tables) (to : Option ℕ) (last : Bool)
        → range_end execution s from first header_numbers request_end ≡ ok (to, last)
        → (t' : Tables) × (read_range reader execution header_numbers request_end from first s t
            ≡ ok (
              to,
              last,
              (extend s (in_range from to blocks) v).0,
              (extend s (in_range from to blocks) v).1,
              t',
            ))
    unfolding read_range
    read_range_lem execution header_numbers request_end from first s t to last e =
        let (o, scanned) = serves.scans from to in
        let (h, headed) = serves.heads (first && last) from to in
        let found = serves.holds (first && last) from to o h scanned headed in
        let weighed =
          weigh_range_lem s o h (in_range from to blocks)
            (serves.weighs (first && last) from to o h scanned headed) in
        let (o', kept) =
          retained execution.defers o scanned (extend s (in_range from to blocks) v).0.blocks in
        let (t', appended) = serves.appends t o' in
        (t', rw (e, scanned, headed, found, weighed, kept, appended) refl)
      where
        retained :
            (defers : Bool) (o : Outputs)
            → scan_tables from to ≡ ok o
            → (bs : List ℕ) → (o' : Outputs) × ((if defers then retain o bs else ok o) ≡ ok o')
        retained true o scanned bs = serves.retains from to o scanned bs
        retained false o scanned bs = (o, refl)

    range_end-total :
        (execution : Execution) (s : BlockSelection) (from : ℕ) (first : Bool)
        (header_numbers : List ℕ) (request_end hint : Option ℕ)
        → execution.initial_range_end ≡ ok hint
        → (range : Option ℕ × Bool) × (range_end execution s from first header_numbers request_end
            ≡ ok range)
    unfolding range_end
    range_end-total execution s from first header_numbers request_end hint e =
        elim (Bool-cases execution.range_reads) [
          | inl reads ↦ elim (Bool-cases first) [
            | inl yes_first ↦ rw (reads, yes_first, e) (_, refl)
            | inr later ↦ rw (reads, later) (_, refl)
          ]
          | inr whole ↦ rw whole (_, refl)
        ]

    module _ (execution : Execution) (header_numbers : List ℕ) (r : ℕ) (hint : Option ℕ)
        (hinted : execution.initial_range_end ≡ ok hint) (word : r < u64_max)
        (ascending : IsAscending blocks) (reached : All (λ b. b ≤ r) blocks)
        (beyond : (end : ℕ) → execution.to_block ≡ some end → r ≤ end) where
      next_word : (end : ℕ) → end + 1 < 2 ^ 64 → next_block reader (some end) ≡ some (end + 1)
      next_word end h = rw (lt→ltb (end + 1) (2 ^ 64) h)

      -- The loop from a block on returns a page of the selection over all blocks from there on.
      abbrev Returns : Option (Result (Option (Page reader))) → ℕ → BlockSelection → Type 0
      Returns result from s =
          (t : Tables) × (through : Option ℕ) × (result
            ≡ some (ok (finish reader (extend s (from_on from blocks) v).0 t through)))

      -- The last range: what is left is read whole.
      last_round :
          (fuel from : ℕ) (first : Bool) (s : BlockSelection) (t t' : Tables) (to : Option ℕ)
          → read_range reader execution header_numbers (some r) from first s t
            ≡ ok (
              to,
              true,
              (extend s (in_range from to blocks) v).0,
              (extend s (in_range from to blocks) v).1,
              t',
            )
          → in_range from to blocks ≡ from_on from blocks
          → Returns
              (read_ranges reader execution header_numbers (some r) (suc fuel) from first s t)
              from
              s
      unfolding read_ranges
      last_round fuel from first s t t' to round whole =
          elim (Bool-cases (extend s (in_range from to blocks) v).1) [
            | inl over ↦ (t', none, rw (round, read_ranges, over, over, whole) refl)
            | inr within ↦ (t', none, rw (round, read_ranges, within, within, whole) refl)
          ]

      -- A range before the last: the selection goes on behind it, or ends in it.
      middle_round :
          (fuel from : ℕ) (first : Bool) (s : BlockSelection) (t t' : Tables) (end : ℕ)
          → read_range reader execution header_numbers (some r) from first s t
            ≡ ok (
              some end,
              false,
              (extend s (in_range from (some end) blocks) v).0,
              (extend s (in_range from (some end) blocks) v).1,
              t',
            )
          → from ≤ end
          → end < r
          → (let s' = (extend s (in_range from (some end) blocks) v).0 in
              Returns
                (read_ranges reader execution header_numbers (some r) fuel (end + 1) false s' t')
                (end + 1)
                s')
          → Returns
              (read_ranges reader execution header_numbers (some r) (suc fuel) from first s t)
              from
              s
      unfolding read_ranges
      middle_round fuel from first s t t' end round le lt (t'', through, ih) =
          let early = in_range from (some end) blocks in
          let late = from_on (end + 1) blocks in
          let all_alike = λ (bs : List ℕ). WeighAlike-refl v bs in
          let split = from_on-split from end blocks ascending le in
          let joined = extend-append s early late v v v (all_alike early) (all_alike late) in
          elim (Bool-cases (extend s early v).1) [
            | inl over ↦ (t', some end, rw (round, read_ranges, over, split, joined, over) refl)
            | inr within ↦ (
              t'',
              through,
              rw (round, read_ranges, within, next_word end (omega arith), split, joined, within)
                  ih,
            )
          ]

      within_last :
          {to : Option ℕ}
          → ((end : ℕ) → to ≡ some end → r ≤ end)
          → (bs : List ℕ) → All (λ b. b ≤ r) bs
          → All (λ b. within_end to b ≡ true) bs
      within_last {to = none} h bs all = All-imp (λ b _. refl) bs all
      within_last {to = some end} h bs all =
          All-imp (λ b le. le→leb b end (omega (arith, h end refl))) bs all

      rounds :
          (fuel from : ℕ) (first : Bool) (s : BlockSelection) (t : Tables) (range : Option ℕ × Bool)
          → range_end execution s from first header_numbers (some r) ≡ ok range
          → RangeEnds execution from (some r) range
          → ((end : ℕ)
              → from ≤ end
              → end < r
              → (s' : BlockSelection) (t' : Tables)
              → Returns
                  (read_ranges reader execution header_numbers (some r) fuel (end + 1) false s' t')
                  (end + 1)
                  s')
          → Returns
              (read_ranges reader execution header_numbers (some r) (suc fuel) from first s t)
              from
              s
      rounds fuel from first s t range ends (inl planned) recur =
          let (t', round) =
            read_range_lem execution header_numbers (some r) from first s t execution.to_block true
              (ends ∙ ap ok planned) in
          last_round fuel from first s t t' execution.to_block round
            (in_range_all from execution.to_block blocks (within_last beyond blocks reached))
      rounds fuel from first s t range ends (inr (inl (last, e, at_end))) recur =
          let (t', round) =
            read_range_lem execution header_numbers (some r) from first s t (some last) true
              (ends ∙ ap ok at_end) in
          last_round fuel from first s t t' (some last) round (
            in_range_all from (some last) blocks
              (within_last {to = some last} (λ end q. ground arith) blocks reached))
      rounds fuel from first s t range ends (inr (inr (end, before, le, lt))) recur =
          let (t', round) =
            read_range_lem execution header_numbers (some r) from first s t (some end) false
              (ends ∙ ap ok before) in
          middle_round fuel from first s t t' end round le lt (recur end le lt _ t')

      -- Enough fuel is one round for each block number up to the end of the request.
      pub read_ranges-Returns :
          (fuel from : ℕ) (first : Bool) (s : BlockSelection) (t : Tables)
          → r < from + fuel
          → 1 ≤ fuel
          → Returns
              (read_ranges reader execution header_numbers (some r) fuel from first s t)
              from
              s
      read_ranges-Returns zero from first s t enough some_fuel = absurd (omega arith)
      read_ranges-Returns (suc fuel) from first s t enough some_fuel =
          let (range, ends) =
            range_end-total execution s from first header_numbers (some r) hint hinted in
          let recur =
            λ (end : ℕ) (le : from ≤ end) (lt : end < r) (s' : BlockSelection) (t' : Tables).
              read_ranges-Returns fuel (end + 1) false s' t' (omega arith) (omega arith) in
          rounds fuel from first s t range ends
            (range_end-RangeEnds execution s from first header_numbers (some r) range ends) recur
