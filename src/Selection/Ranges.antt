-- ===== src/Selection/Ranges.antt =====
-- A page selected range by range is the page selected at once.
use sqd_query_engine.Prelude.{
  ℕ, true, false, Option, none, some, List, [], ◌∷◌, ◌++◌, ltb, if◌then◌else◌, ◌⊎◌, ◌≡◌, arith,
  refl, All, map, Bool-cases, inl, inr, ap, ◌∙◌,
}
use mathlib.Core.List.{map-append}
use sqd_query_engine.Prelude.Words.{saturating_add}
use sqd_query_engine.Selection.{
  BlockSelection, new, weight_of, offer, extend, crossing, weight_range_end,
}

-- Two weight maps weigh some blocks alike.
abbrev pub WeighAlike : (ℕ → Option ℕ) → (ℕ → Option ℕ) → List ℕ → Type 0
WeighAlike u v blocks = All (λ b. weight_of u b ≡ weight_of v b) blocks

pub extend_ext :
    (u v : ℕ → Option ℕ) (s : BlockSelection) (blocks : List ℕ)
    → WeighAlike u v blocks
    → extend s blocks u ≡ extend s blocks v
unfolding extend
extend_ext u v s [] h = refl
extend_ext u v s (block ∷ rest) h =
    rw (h.0, extend_ext u v (offer s block (weight_of v block)) rest h.1)

extend-append_same :
    (s : BlockSelection) (xs ys : List ℕ) (v : ℕ → Option ℕ)
    → extend s (xs ++ ys) v
      ≡ (if (extend s xs v).1 then extend s xs v else extend (extend s xs v).0 ys v)
unfolding extend
extend-append_same s [] ys v = refl
extend-append_same s (block ∷ rest) ys v =
    let s' = offer s block (weight_of v block) in
    elim (Bool-cases (ltb s'.budget s'.cumulative)) [
      | inl over ↦ rw over
      | inr within ↦ rw within (extend-append_same s' rest ys v)
    ]

-- Selecting from two ranges one after the other, each with weights of its own, is selecting from
-- both at once, unless the first exceeds the budget, which ends the selection.
pub extend-append :
    (s : BlockSelection) (xs ys : List ℕ) (u u' v : ℕ → Option ℕ)
    → WeighAlike u v xs
    → WeighAlike u' v ys
    → extend s (xs ++ ys) v
      ≡ (if (extend s xs u).1 then extend s xs u else extend (extend s xs u).0 ys u')
extend-append s xs ys u u' v hu hu' =
    rw (extend_ext u v s xs hu, extend_ext u' v (extend s xs v).0 ys hu')
      (extend-append_same s xs ys v)

offer-weights :
    (s : BlockSelection) (block weight : ℕ)
    → ((offer s block weight).blocks ≡ s.blocks ++ block ∷ [])
        × ((offer s block weight).weights ≡ s.weights ++ weight ∷ [])
      ⊎ ((offer s block weight).blocks ≡ s.blocks) × ((offer s block weight).weights ≡ s.weights)
unfolding offer
offer-weights s block weight = ground arith

-- Where every block of a selection stands beside its weight, so it does after more blocks are
-- offered.
pub extend-weights :
    (s : BlockSelection) (blocks : List ℕ) (v : ℕ → Option ℕ)
    → s.weights ≡ map (weight_of v) s.blocks
    → let s' = (extend s blocks v).0 in s'.weights ≡ map (weight_of v) s'.blocks
unfolding extend
extend-weights s [] v h = h
extend-weights s (block ∷ rest) v h =
    let s' = offer s block (weight_of v block) in
    elim (Bool-cases (ltb s'.budget s'.cumulative)) [
      | inl over ↦ rw over kept
      | inr within ↦ rw within (extend-weights s' rest v kept)
    ]
  where
    kept :
        (offer s block (weight_of v block)).weights
        ≡ map (weight_of v) (offer s block (weight_of v block)).blocks
    kept = elim (offer-weights s block (weight_of v block)) [
      | inl (blocks, weights) ↦ rw (blocks, weights, map-append, h)
      | inr (blocks, weights) ↦ rw (blocks, weights) h
    ]

-- The blocks of a narrow scan, each beside its weight.
abbrev pub blocks_of : List (ℕ × ℕ) → List ℕ
blocks_of [] = []
blocks_of ((block, _) ∷ rest) = block ∷ blocks_of rest

-- The selection's weights are those of the scan.
abbrev pub Weighs : (ℕ → Option ℕ) → List (ℕ × ℕ) → Type 0
Weighs v pairs = All (λ p. weight_of v p.0 ≡ p.1) pairs

-- A selection stops within the scanned blocks exactly where a block crosses the budget.
pub record CrossesAt (s : BlockSelection) (v : ℕ → Option ℕ) (blocks : List ℕ) (b : ℕ)
    : Type 0 where
  pub before : List ℕ
  pub after : List ℕ
  pub split : blocks ≡ before ++ b ∷ after
  pub not_yet : (extend s before v).1 ≡ false
  pub exceeded : (extend s (before ++ b ∷ []) v).1 ≡ true

crosses_later :
    (s : BlockSelection) (v : ℕ → Option ℕ) (block : ℕ) (blocks : List ℕ) (b : ℕ)
    → let s' = offer s block (weight_of v block) in
      ltb s'.budget s'.cumulative ≡ false
      → CrossesAt s' v blocks b
      → CrossesAt s v (block ∷ blocks) b
unfolding extend
crosses_later s v block blocks b within c = record {
  before = block ∷ c.before;
  after = c.after;
  split = ap (λ t. block ∷ t) c.split;
  not_yet = rw within c.not_yet;
  exceeded = rw within c.exceeded;
}

offer_sums :
    (s : BlockSelection) (block weight : ℕ)
    → ((offer s block weight).budget ≡ s.budget)
      × ((offer s block weight).cumulative ≡ saturating_add s.cumulative weight)
unfolding offer
offer_sums s block weight = ground arith

crossing_from :
    (budget cumulative : ℕ) (s : BlockSelection) (pairs : List (ℕ × ℕ)) (v : ℕ → Option ℕ)
    → s.budget ≡ budget
    → s.cumulative ≡ cumulative
    → Weighs v pairs
    → ((crossing budget cumulative pairs ≡ none) × ((extend s (blocks_of pairs) v).1 ≡ false))
      ⊎ ((b : ℕ) × (crossing budget cumulative pairs ≡ some b) × CrossesAt s v (blocks_of pairs) b)
unfolding crossing extend
crossing_from budget cumulative s [] v hb hc h = inl (refl, refl)
crossing_from budget cumulative s ((block, weight) ∷ rest) v hb hc h =
    let s' = offer s block (weight_of v block) in
    let total = saturating_add cumulative weight in
    let (same, sum) = offer_sums s block (weight_of v block) in
    let hb' : s'.budget ≡ budget = same ∙ hb in
    let hc' : s'.cumulative ≡ total = rw (sum, h.0, hc) in
    elim (Bool-cases (ltb budget total)) [
      | inl over ↦
          let over' : ltb s'.budget s'.cumulative ≡ true = rw (hb', hc') over in
          inr (
            block,
            rw over,
            record {
              before = [];
              after = blocks_of rest;
              split = refl;
              not_yet = refl;
              exceeded = rw over';
            },
          )
      | inr within ↦
          let within' : ltb s'.budget s'.cumulative ≡ false = rw (hb', hc') within in
          elim (crossing_from budget total s' rest v hb' hc' h.1) [
            | inl (never, ended) ↦ inl (rw within never, rw within' ended)
            | inr (b, crossed, at) ↦
                inr (b, rw within crossed, crosses_later s v block (blocks_of rest) b within' at)
          ]
    ]

-- The loop over a narrow scan names the block at which exact selection over the same weights
-- first exceeds the budget, and names none where it never does.
pub weight_range_end-extend :
    (budget : ℕ) (pairs : List (ℕ × ℕ)) (v : ℕ → Option ℕ)
    → Weighs v pairs
    → ((weight_range_end budget pairs ≡ none)
        × ((extend (new budget) (blocks_of pairs) v).1 ≡ false))
      ⊎ ((b : ℕ) × (weight_range_end budget pairs ≡ some b)
          × CrossesAt (new budget) v (blocks_of pairs) b)
unfolding weight_range_end new
weight_range_end-extend budget pairs v h = crossing_from budget 0 (new budget) pairs v refl refl h
