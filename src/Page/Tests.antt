-- ===== src/Page/Tests.antt =====
-- Tests of src/execution/page.rs, and its theorems at a reader of three blocks.
use sqd_query_engine.Prelude.{
  ℕ, ◌+◌, ◌*◌, ◌-◌, ◌<◌, ◌≤◌, Bool, true, false, ◌&&◌, leb, ◌==◌, if◌then◌else◌, any, keep, subst,
  Option, none, some, List, [], ◌∷◌, ◌++◌, ◌≡◌, arith, refl, sym,
}
use sqd_query_engine.Error.{Result, ok, err, unkinded}
use sqd_query_engine.Page.{
  Execution, Reader, Page, select_page, bound_range, drop_covering, cut_to_span, span_end,
  selection_span, headers_budget_holds, range_end,
}
use sqd_query_engine.Page.Bounds.{RangeEnds, range_end-RangeEnds, headers_budget_holds_bounds}
use sqd_query_engine.Page.Ranges.{within_end, in_range, from_on}
use sqd_query_engine.Page.Loop.{Serves}
use sqd_query_engine.Selection.Ranges.{WeighAlike}
use sqd_query_engine.Page.Ends.{select_page-ends}
use sqd_query_engine.Page.Selected.{page_of, select_page-page}
use sqd_query_engine.Selection.{new}
use sqd_query_engine.Selection.Prefix.{page}

abbrev three_blocks : List ℕ
three_blocks = 3 ∷ 5 ∷ 9 ∷ []

abbrev ten_each : ℕ → Option ℕ
ten_each b = some 10

-- The rows of the blocks, and what each weighs.
abbrev four_rows : List (ℕ × ℕ)
four_rows = (3, 6) ∷ (3, 2) ∷ (5, 8) ∷ (9, 8) ∷ []

abbrev row_weight : List (ℕ × ℕ) → ℕ → ℕ
row_weight [] b = 0
row_weight ((c, w) ∷ rows) b = (if c == b then w else 0) + row_weight rows b

-- A block weighs what its rows do, and its header, which weighs two.
abbrev weights_of : List (ℕ × ℕ) → List ℕ → ℕ → Option ℕ
weights_of rows headers b = some ((if any (λ c. c == b) headers then 2 else 0) + row_weight rows b)

-- A range's rows and headers are those that lie in it.
abbrev reader_of_blocks : Reader
reader_of_blocks = record {
  Outputs = List (ℕ × ℕ);
  Headers = List ℕ;
  Tables = List (ℕ × ℕ);
  scan_tables = λ from to. ok (keep (λ row. leb from row.0 && within_end to row.0) four_rows);
  range_headers = λ whole from to. ok (in_range from to three_blocks);
  range_blocks = λ o h from to. ok h;
  weigh = λ o h bs. ok (weights_of o h);
  retain = λ o bs. ok (keep (λ row. any (λ b. b == row.0) bs) o);
  append = λ t o. ok (t ++ o);
  no_tables = [];
}

-- Which of the three blocks lie in a range.
abbrev chosen : Bool → Bool → Bool → ℕ → Bool
chosen a b c n = if n == 3 then a else if n == 5 then b else c

weights_of-chosen :
    (a b c : Bool)
    → WeighAlike
        (weights_of (keep (λ row. chosen a b c row.0) four_rows) (keep (chosen a b c) three_blocks))
        ten_each
        (keep (chosen a b c) three_blocks)
weights_of-chosen true true true = (refl, (refl, (refl, tt)))
weights_of-chosen true true false = (refl, (refl, tt))
weights_of-chosen true false true = (refl, (refl, tt))
weights_of-chosen true false false = (refl, tt)
weights_of-chosen false true true = (refl, (refl, tt))
weights_of-chosen false true false = (refl, tt)
weights_of-chosen false false true = (refl, tt)
weights_of-chosen false false false = tt

reader_of_blocks-Serves : Serves reader_of_blocks three_blocks ten_each
reader_of_blocks-Serves = record {
  scans = λ from to. (_, refl);
  heads = λ whole from to. (_, refl);
  holds = λ whole from to o h scanned headed. sym headed;
  weighs = λ whole from to o h scanned headed.
      let rows : keep (λ row. leb from row.0 && within_end to row.0) four_rows ≡ o = cc scanned in
      let headers : in_range from to three_blocks ≡ h = cc headed in
      let lies = λ (b : ℕ). leb from b && within_end to b in
      (
        weights_of o h,
        refl,
        subst (λ rs. WeighAlike (weights_of rs h) ten_each (in_range from to three_blocks)) rows
            (subst
              (λ hs.
                WeighAlike (weights_of (keep (λ row. lies row.0) four_rows) hs) ten_each
                  (in_range from to three_blocks))
              headers (weights_of-chosen (lies 3) (lies 5) (lies 9))),
      );
  retains = λ from to o scanned bs. (_, refl);
  appends = λ t o. (t ++ o, refl);
}

-- Two blocks fit; ranges end at block 4, then two blocks after each range's first.
abbrev two_fit : Execution
two_fit = record {
  from_block = 3;
  to_block = none;
  weight_budget = 25;
  range_reads = true;
  defers = false;
  unfiltered = false;
  selection_fits = true;
  initial_range_end = ok (some 4);
  next_range_end = λ b. some (b + 2);
}

select_page-page_example :
    (t : List (ℕ × ℕ)) × (through : Option ℕ) × (select_page reader_of_blocks 20 two_fit [] (some 9)
      ≡ some (
          ok (
            page_of reader_of_blocks ten_each
              (page ten_each 25 (from_on 3 three_blocks))
              t
              through)))
select_page-page_example =
    select_page-page reader_of_blocks three_blocks ten_each two_fit [] 9 9 20 (some 4)
      reader_of_blocks-Serves refl refl (omega arith) (omega arith)
      ((omega arith, (omega arith, tt)), ((omega arith, tt), (tt, tt)))
      (omega arith, (omega arith, (omega arith, tt))) (omega arith) (omega arith)

range_end-RangeEnds_example : RangeEnds two_fit 5 (some 9) (some 7, false)
unfolding bound_range drop_covering cut_to_span span_end selection_span
range_end-RangeEnds_example =
    range_end-RangeEnds two_fit (new 25) 5 false [] (some 9) (some 7, false)
      (unfold range_end in refl)

headers_budget_holds_bounds_example :
    let holds = headers_budget_holds 100 30 7 in
    ((100 - 30) * 7 ≤ holds * 30) × (holds * 30 < (100 - 30) * 7 + 30)
headers_budget_holds_bounds_example =
    headers_budget_holds_bounds 100 30 7 (omega arith) (unfold headers_budget_holds in omega arith)

-- A reader whose scans fail.
abbrev failing_reader : Reader
failing_reader = record reader_of_blocks { scan_tables = λ from to. err unkinded }

select_page-ends_example :
    (result : Result (Option (Page failing_reader))) × (select_page failing_reader 7 two_fit []
        (some 9)
      ≡ some result)
select_page-ends_example =
    select_page-ends failing_reader two_fit [] (some 9) 7 10 (omega arith) (omega arith)
      (omega arith)
