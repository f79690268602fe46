-- ===== src/Selection/Prefix.antt =====
-- `BlockSelection::extend` against the page it has to select: the longest run of the first blocks
-- whose weight is within the budget, and the first block alone where that run is empty.
use sqd_query_engine.Prelude.{
  ℕ, ◌+◌, ◌≤◌, ◌<◌, Bool, true, false, Option, List, [], ◌∷◌, ◌++◌, leb, le→leb, le→ltb_false,
  lt→ltb, lt→leb_false, le_or_lt, inl, inr, if◌then◌else◌, ◌≡◌, arith, refl, ap, subst, ◌⊎◌, ◌∙◌,
  sym, take, not,
}
use native.Mathlib.Nat.{add_assoc}
use mathlib.Core.List.{append_assoc, append-nil}
use sqd_query_engine.Prelude.Words.{saturating_add, u64_max}
use sqd_query_engine.Selection.{BlockSelection, new, is_empty, weight_of, offer, extend}

module _ (weights : ℕ → Option ℕ) (budget : ℕ) where
  abbrev w : ℕ → ℕ
  w block = weight_of weights block

  -- The longest run of the first blocks that fits the budget with what is spent.
  abbrev pub fitting : ℕ → List ℕ → List ℕ
  fitting spent [] = []
  fitting spent (block ∷ rest) =
      if leb (spent + w block) budget then block ∷ fitting (spent + w block) rest else []

  -- Whether all blocks fit.
  abbrev pub all_fit : ℕ → List ℕ → Bool
  all_fit spent [] = true
  all_fit spent (block ∷ rest) =
      if leb (spent + w block) budget then all_fit (spent + w block) rest else false

  abbrev pub at_least_one : List ℕ → List ℕ → List ℕ
  at_least_one blocks [] = take 1 blocks
  at_least_one blocks (first ∷ rest) = first ∷ rest

  abbrev pub page : List ℕ → List ℕ
  page blocks = at_least_one blocks (fitting 0 blocks)

  abbrev pub total : List ℕ → ℕ
  total [] = 0
  total (block ∷ rest) = w block + total rest

  -- A block that fits is kept.
  offer_kept :
      (s : BlockSelection) (block : ℕ)
      → s.budget ≡ budget
      → budget < u64_max
      → s.cumulative + w block ≤ budget
      → offer s block (w block) ≡ record s {
        cumulative = s.cumulative + w block;
        blocks = s.blocks ++ block ∷ [];
        weights = s.weights ++ w block ∷ [];
      }
  unfolding offer
  offer_kept s block hb hm fits = ground arith

  -- A block that does not fit is dropped, unless it is the first.
  offer_over :
      (s : BlockSelection) (block : ℕ)
      → s.budget ≡ budget
      → budget < u64_max
      → budget < s.cumulative + w block
      → (budget < (offer s block (w block)).cumulative)
        × ((offer s block (w block)).budget ≡ budget)
        × ((offer s block (w block)).blocks
            ≡ (if is_empty s.blocks then s.blocks ++ block ∷ [] else s.blocks))
  unfolding offer
  offer_over s block hb hm over = ground arith

  is_empty-append : (xs : List ℕ) (x : ℕ) → is_empty (xs ++ x ∷ []) ≡ false
  is_empty-append [] x = refl
  is_empty-append (y ∷ xs) x = refl

  -- From a selection that has blocks and has not exceeded its budget.
  extend-fitting :
      (s : BlockSelection) (blocks : List ℕ)
      → s.budget ≡ budget
      → budget < u64_max
      → s.cumulative ≤ budget
      → is_empty s.blocks ≡ false
      → ((extend s blocks weights).0.blocks ≡ s.blocks ++ fitting s.cumulative blocks)
        × ((extend s blocks weights).1 ≡ not (all_fit s.cumulative blocks))
  unfolding extend
  extend-fitting s [] hb hm hc he = (sym (append-nil s.blocks), refl)
  extend-fitting s (block ∷ rest) hb hm hc he = elim (le_or_lt (s.cumulative + w block) budget) [
    | inl fits ↦
        let s' : BlockSelection = record s {
          cumulative = s.cumulative + w block;
          blocks = s.blocks ++ block ∷ [];
          weights = s.weights ++ w block ∷ [];
        } in
        let (blocks, done) = extend-fitting s' rest hb hm fits (is_empty-append s.blocks block) in
        rw
          (
            offer_kept s block hb hm fits,
            le→leb (s.cumulative + w block) budget fits,
            le→ltb_false s.budget (s.cumulative + w block) (omega arith),
          )
          (blocks ∙ append_assoc s.blocks (block ∷ []) (fitting s'.cumulative rest), done)
    | inr over ↦
        let (past, same, blocks) = offer_over s block hb hm over in
        rw
          (
            lt→ltb (offer s block (w block)).budget (offer s block (w block)).cumulative
                (omega arith),
            lt→leb_false (s.cumulative + w block) budget over,
          )
          (rw (blocks, he) (sym (append-nil s.blocks)), refl)
  ]

  -- Selecting from nothing gives the page: with a budget below the largest word, the blocks kept
  -- are the longest run of the first blocks whose weights sum to at most the budget, or the first
  -- block alone where that run is empty; and the budget is reported as exceeded exactly where
  -- some block does not fit.
  pub extend-page :
      (blocks : List ℕ)
      → budget < u64_max
      → ((extend (new budget) blocks weights).0.blocks ≡ page blocks)
        × ((extend (new budget) blocks weights).1 ≡ not (all_fit 0 blocks))
  unfolding extend new offer
  extend-page [] hm = (refl, refl)
  extend-page (block ∷ rest) hm = elim (le_or_lt (0 + w block) budget) [
    | inl fits ↦
        let s : BlockSelection = record {
          budget = budget;
          cumulative = 0 + w block;
          blocks = block ∷ [];
          weights = w block ∷ [];
        } in
        let exact : saturating_add 0 (w block) ≡ 0 + w block = omega arith in
        rw (exact, le→leb (0 + w block) budget fits, le→ltb_false budget (0 + w block) fits)
          (extend-fitting s rest refl hm fits refl)
    | inr over ↦
        rw
          (
            lt→ltb budget (saturating_add 0 (w block)) (omega arith),
            lt→leb_false (0 + w block) budget over,
          )
          (refl, refl)
  ]

  -- What the page promises: the weights of its blocks sum to at most the budget, or it is one block.
  fitting-le :
      (spent : ℕ) (blocks : List ℕ) → spent ≤ budget → spent + total (fitting spent blocks) ≤ budget
  fitting-le spent [] h = omega arith
  fitting-le spent (block ∷ rest) h = elim (le_or_lt (spent + w block) budget) [
    | inl fits ↦
        rw (le→leb (spent + w block) budget fits)
          (omega (arith, fitting-le (spent + w block) rest fits))
    | inr over ↦ rw (lt→leb_false (spent + w block) budget over) (omega arith)
  ]

  -- What is left is empty, or begins with a block that does not fit beside `spent`.
  abbrev pub Stops : ℕ → List ℕ → Type 0
  Stops spent rest =
      (rest ≡ [])
      ⊎ ((block : ℕ) × (after : List ℕ) × (rest ≡ block ∷ after) × (budget < spent + w block))

  -- The blocks are those that fit and a rest, which is empty or begins with one that does not fit.
  pub fitting-maximal :
      (spent : ℕ) (blocks : List ℕ)
      → (rest : List ℕ) × (blocks ≡ fitting spent blocks ++ rest)
        × Stops (spent + total (fitting spent blocks)) rest
  fitting-maximal spent [] = ([], refl, inl refl)
  fitting-maximal spent (block ∷ rest) = elim (le_or_lt (spent + w block) budget) [
    | inl fits ↦
        let (after, split, stop) = fitting-maximal (spent + w block) rest in
        rw (le→leb (spent + w block) budget fits) (
          after,
          ap (λ t. block ∷ t) split,
          subst (λ n. Stops n after)
              (add_assoc spent (w block) (total (fitting (spent + w block) rest))) stop,
        )
    | inr over ↦
        rw (lt→leb_false (spent + w block) budget over)
          (block ∷ rest, refl, inr (block, rest, refl, omega arith))
  ]

  past_first : {spent : ℕ} (rest : List ℕ) → budget < spent → Stops spent rest
  past_first [] over = inl refl
  past_first (block ∷ rest) over = inr (block, rest, refl, omega arith)

  -- With a budget below the largest word, the weights of the blocks of a page sum to at most the budget, or the page is the first block
  -- alone; and where the page ends before the offered blocks do, the next block would exceed the
  -- budget.
  pub extend-within_budget :
      (blocks : List ℕ)
      → budget < u64_max
      → let kept = (extend (new budget) blocks weights).0.blocks in
        ((total kept ≤ budget)
          ⊎ ((first : ℕ) × (after : List ℕ) × (blocks ≡ first ∷ after) × (kept ≡ first ∷ [])))
        × ((rest : List ℕ) × (blocks ≡ kept ++ rest) × Stops (total kept) rest)
  extend-within_budget blocks hm = rw ((extend-page blocks hm).0) (page_within_budget blocks)
    where
      page_within_budget :
          (blocks : List ℕ)
          → ((total (page blocks) ≤ budget)
              ⊎ ((first : ℕ) × (after : List ℕ) × (blocks ≡ first ∷ after)
                  × (page blocks ≡ first ∷ [])))
            × ((rest : List ℕ) × (blocks ≡ page blocks ++ rest) × Stops (total (page blocks)) rest)
      page_within_budget [] = (inl (omega arith), ([], refl, inl refl))
      page_within_budget (block ∷ rest) = elim (le_or_lt (0 + w block) budget) [
        | inl fits ↦
            let (after, split, stop) = fitting-maximal (0 + w block) rest in
            rw (le→leb (0 + w block) budget fits) (
              inl (omega (arith, fitting-le (0 + w block) rest fits)),
              (after, ap (λ t. block ∷ t) split, subst (λ n. Stops n after) (omega arith) stop),
            )
        | inr over ↦
            rw (lt→leb_false (0 + w block) budget over)
              (inr (block, rest, refl, refl), (rest, refl, past_first rest (omega arith)))
      ]
