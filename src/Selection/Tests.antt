-- ===== src/Selection/Tests.antt =====
-- Tests of src/output/weight.rs, and its theorems at concrete weights.
use sqd_query_engine.Prelude.{
  ℕ, ◌*◌, ◌≤◌, false, Option, none, some, List, [], ◌∷◌, ◌++◌, map, not, if◌then◌else◌, ◌≡◌, ◌⊎◌,
  arith, refl,
}
use sqd_query_engine.Selection.{new, extend, offer, weight_of, weight_range_end}
use sqd_query_engine.Selection.Prefix.{
  page, all_fit, total, Stops, extend-page, extend-within_budget,
}
use sqd_query_engine.Selection.Ranges.{
  CrossesAt, extend-append, extend-weights, weight_range_end-extend,
}

abbrev tenfold : ℕ → Option ℕ
tenfold b = some (b * 10)

abbrev offered : List ℕ
offered = 1 ∷ 2 ∷ 3 ∷ []

-- The first block is kept though it exceeds the budget.
first_block_kept : (extend (new 5) offered tenfold).0.blocks ≡ 1 ∷ []
unfolding extend offer new
first_block_kept = refl

extend-page_example :
    ((extend (new 30) offered tenfold).0.blocks ≡ page tenfold 30 offered)
    × ((extend (new 30) offered tenfold).1 ≡ not (all_fit tenfold 30 0 offered))
extend-page_example = extend-page tenfold 30 offered (omega arith)

extend-within_budget_example :
    let kept = (extend (new 30) offered tenfold).0.blocks in
    ((total tenfold 30 kept ≤ 30)
      ⊎ ((first : ℕ) × (after : List ℕ) × (offered ≡ first ∷ after) × (kept ≡ first ∷ [])))
    × ((rest : List ℕ) × (offered ≡ kept ++ rest) × Stops tenfold 30 (total tenfold 30 kept) rest)
extend-within_budget_example = extend-within_budget tenfold 30 offered (omega arith)

extend-append_example : extend (new 30) (1 ∷ 2 ∷ 3 ∷ 4 ∷ []) tenfold ≡ (
    if (extend (new 30) (1 ∷ 2 ∷ []) tenfold).1
    then extend (new 30) (1 ∷ 2 ∷ []) tenfold
    else extend (extend (new 30) (1 ∷ 2 ∷ []) tenfold).0 (3 ∷ 4 ∷ []) tenfold)
extend-append_example =
    extend-append (new 30) (1 ∷ 2 ∷ []) (3 ∷ 4 ∷ []) tenfold tenfold tenfold (refl, (refl, tt))
      (refl, (refl, tt))

extend-weights_example :
    let s = (extend (new 30) offered tenfold).0 in s.weights ≡ map (weight_of tenfold) s.blocks
extend-weights_example = extend-weights (new 30) offered tenfold (unfold new in refl)

weight_range_end-extend_example :
    ((weight_range_end 25 ((1, 10) ∷ (2, 20) ∷ []) ≡ none)
      × ((extend (new 25) (1 ∷ 2 ∷ []) tenfold).1 ≡ false))
    ⊎ ((b : ℕ) × (weight_range_end 25 ((1, 10) ∷ (2, 20) ∷ []) ≡ some b)
        × CrossesAt (new 25) tenfold (1 ∷ 2 ∷ []) b)
weight_range_end-extend_example =
    weight_range_end-extend 25 ((1, 10) ∷ (2, 20) ∷ []) tenfold (refl, (refl, tt))
