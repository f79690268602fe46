-- ===== src/Page/Ends.antt =====
-- The loop of page selection ends, whatever it reads and also where a step fails.
use sqd_query_engine.Prelude.{
  ℕ, zero, suc, ◌+◌, ◌≤◌, ◌<◌, ◌^◌, Bool, true, false, ◌||◌, ◌&&◌, not, Option, none, some, List,
  [], if◌then◌else◌, ltb, ltb→lt, ◌≡◌, arith, refl, ap, sym, ◌∙◌, inl, inr, Bool-cases, some-inj,
  subst,
}
use sqd_query_engine.Error.{Result, ok, err, ◌>>=◌}
use sqd_query_engine.Selection.{BlockSelection, new}
use sqd_query_engine.Page.{
  Execution, Reader, Page, range_end, weigh_range, read_range, finish, read_ranges, next_block,
  request_end_of, select_page,
}
use sqd_query_engine.Page.Bounds.{IsBefore, RangeEnds, range_end-RangeEnds}

-- A step that answers has passed the step before it.
passed :
    {A B : Type 0} (first_step : Result A) (next_step : A → Result B) {answer : B}
    → (first_step >>= next_step) ≡ ok answer
    → (value : A) × (first_step ≡ ok value) × (next_step value ≡ ok answer)
passed (err why) next_step h = absurd (cc)
passed (ok value) next_step h = (value, refl, h)

ok-inj : {A : Type 0} {a b : A} → ok a ≡ ok b → a ≡ b
ok-inj h = cc h

module _ (reader : Reader) (execution : Execution) (header_numbers : List ℕ)
    (request_end : Option ℕ) where
  open reader use {Tables}

  -- The range of a round that fails nowhere.
  read_range-range_end :
      (from : ℕ) (first : Bool) (s s' : BlockSelection) (t t' : Tables) (to : Option ℕ)
      (last exhausted : Bool)
      → read_range reader execution header_numbers request_end from first s t
        ≡ ok (to, last, s', exhausted, t')
      → range_end execution s from first header_numbers request_end ≡ ok (to, last)
  unfolding read_range
  read_range-range_end from first s s' t t' to last exhausted h =
      let ((to', last'), range, h1) =
        passed (range_end execution s from first header_numbers request_end) _ h in
      let (outputs, scanned, h2) = passed (reader.scan_tables from to') _ h1 in
      let (headers, headed, h3) = passed (reader.range_headers (first && last') from to') _ h2 in
      let (blocks, found, h4) = passed (reader.range_blocks outputs headers from to') _ h3 in
      let (weighed, e, h5) = passed (weigh_range reader s outputs headers blocks) _ h4 in
      let (outputs', kept, h6) =
        passed (if execution.defers then reader.retain outputs weighed.0.blocks else ok outputs) _
          h5 in
      let (tables, appended, h7) = passed (reader.append t outputs') _ h6 in
      range
      ∙ ap (λ (p : Option ℕ × Bool × BlockSelection × Bool × Tables). ok (p.0, p.1)) (ok-inj h7)

  -- No range that is not the last ends at `limit` or behind it.
  abbrev IsLimit : ℕ → Type 0
  IsLimit limit = (end : ℕ) → IsBefore end request_end → end + 1 < 2 ^ 64 → end + 1 < limit

  range_not_last :
      {from : ℕ} (end : ℕ)
      → RangeEnds execution from request_end (some end, false)
      → (from ≤ end) × IsBefore end request_end
  range_not_last end (inl planned) = absurd (cc (ap (λ (p : Option ℕ × Bool). p.1) planned))
  range_not_last end (inr (inl (last, e, at_end))) =
      absurd (cc (ap (λ (p : Option ℕ × Bool). p.1) at_end))
  range_not_last {from} end (inr (inr (end', e, le, before))) =
      let same : end' ≡ end = sym (some-inj (ap (λ (p : Option ℕ × Bool). p.0) e)) in
      subst (λ n. (from ≤ n) × IsBefore n request_end) same (le, before)

  Ends : Option (Result (Option (Page reader))) → Type 0
  Ends o = (result : Result (Option (Page reader))) × (o ≡ some result)

  read_ranges-Ends :
      (fuel from limit : ℕ) (first : Bool) (s : BlockSelection) (t : Tables)
      → IsLimit limit
      → limit ≤ from + fuel
      → 1 ≤ fuel
      → Ends (read_ranges reader execution header_numbers request_end fuel from first s t)
  unfolding read_ranges Ends
  read_ranges-Ends zero from limit first s t stops enough some_fuel = absurd (omega arith)
  read_ranges-Ends (suc fuel) from limit first s t stops enough some_fuel =
      by_round (read_range reader execution header_numbers request_end from first s t) refl
        (λ next s' t' hn hf. read_ranges-Ends fuel next limit false s' t' stops hn hf)
    where
      by_range :
          (to : Option ℕ) (s' : BlockSelection) (t' : Tables)
          → RangeEnds execution from request_end (to, false)
          → ((next : ℕ) (s' : BlockSelection) (t' : Tables)
              → limit ≤ next + fuel
              → 1 ≤ fuel
              → Ends
                  (read_ranges reader execution header_numbers request_end fuel next false s' t'))
          → Ends (elim (next_block reader to) [
            | none ↦ some (ok (finish reader s' t' none))
            | some next ↦
                read_ranges reader execution header_numbers request_end fuel next false s' t'
          ])
      by_range none s' t' ends recur = (ok (finish reader s' t' none), refl)
      by_range (some end) s' t' ends recur = elim (Bool-cases (ltb (end + 1) (2 ^ 64))) [
        | inr full ↦ rw full (ok (finish reader s' t' none), refl)
        | inl word ↦
            let (from_le, before) = range_not_last end ends in
            let limited = stops end before (ltb→lt (end + 1) (2 ^ 64) word) in
            rw word (recur (end + 1) s' t' (omega arith) (omega arith))
      ]

      by_round :
          (r : Result (Option ℕ × Bool × BlockSelection × Bool × Tables))
          → read_range reader execution header_numbers request_end from first s t ≡ r
          → ((next : ℕ) (s' : BlockSelection) (t' : Tables)
              → limit ≤ next + fuel
              → 1 ≤ fuel
              → Ends
                  (read_ranges reader execution header_numbers request_end fuel next false s' t'))
          → Ends (elim r [
            | err why ↦ some (err why)
            | ok (to, last, s', exhausted, t') ↦ elim (exhausted || last) [
              | true ↦ some (ok (finish reader s' t' (if exhausted && not last then to else none)))
              | false ↦ elim (next_block reader to) [
                | none ↦ some (ok (finish reader s' t' none))
                | some next ↦
                    read_ranges reader execution header_numbers request_end fuel next false s' t'
              ]
            ]
          ])
      by_round (err why) e recur = (err why, refl)
      by_round (ok (to, last, s', true, t')) e recur = (_, refl)
      by_round (ok (to, true, s', false, t')) e recur = (_, refl)
      by_round (ok (to, false, s', false, t')) e recur =
          by_range to s' t'
            (range_end-RangeEnds execution s from first header_numbers request_end (to, false)
              (read_range-range_end from first s s' t t' to false false e))
            recur

-- The block numbers of a request end before `limit`, or of any request where no end is known.
abbrev pub EndsBefore : Option ℕ → ℕ → Type 0
EndsBefore none limit = 2 ^ 64 ≤ limit
EndsBefore (some last) limit = last < limit

-- Page selection ends, over every reader, also one that fails at any step, and for every plan, hint
-- and footer: with at least one round, and one for each block number from the request's first to its
-- end, or to the largest word where no end is known, it returns a page, no page or an error.
pub select_page-ends :
    (reader : Reader) (execution : Execution) (headers : List ℕ) (last_header : Option ℕ)
    (fuel limit : ℕ)
    → EndsBefore (request_end_of reader execution.to_block last_header) limit
    → limit ≤ execution.from_block + fuel
    → 1 ≤ fuel
    → (result : Result (Option (Page reader))) × (select_page reader fuel execution headers
          last_header
        ≡ some result)
unfolding select_page Ends
select_page-ends reader execution headers last_header fuel limit beyond enough some_fuel =
    read_ranges-Ends reader execution (if execution.defers then headers else [])
      (request_end_of reader execution.to_block last_header) fuel execution.from_block limit true
      (new execution.weight_budget) reader.no_tables
      (stops (request_end_of reader execution.to_block last_header) beyond) enough some_fuel
  where
    stops :
        (request_end : Option ℕ)
        → EndsBefore request_end limit
        → (end : ℕ) → IsBefore end request_end
        → end + 1 < 2 ^ 64
        → end + 1 < limit
    stops none beyond end before word = omega arith
    stops (some last) beyond end before word = omega arith
