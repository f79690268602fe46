-- ===== src/Selection.antt =====
-- `BlockSelection` of src/output/weight.rs: the weighted prefix of the blocks that a page holds,
-- taken range by range; and the end of the first range that is read for it.
pub mod Prefix
pub mod Ranges
mod Tests
use sqd_query_engine.Prelude.{
  ℕ, ◌+◌, Bool, true, false, ◌||◌, Option, none, some, List, [], ◌∷◌, ◌++◌, leb, ltb, if◌then◌else◌,
}
use sqd_query_engine.Prelude.Words.{saturating_add}

pub record BlockSelection : Type 0 where
  pub budget : ℕ
  pub cumulative : ℕ
  pub blocks : List ℕ
  pub weights : List ℕ

unfoldable pub new : ℕ → BlockSelection
new budget = record { budget = budget; cumulative = 0; blocks = []; weights = [] }

abbrev pub is_empty {ℓ} : {A : Type ℓ} → List A → Bool
is_empty [] = true
is_empty (_ ∷ _) = false

-- `weights.get(&block).copied().unwrap_or(0)`
abbrev pub weight_of : (ℕ → Option ℕ) → ℕ → ℕ
weight_of weights block = elim (weights block) [ none ↦ 0 | some weight ↦ weight ]

-- One block offered: the selection with its weight added, and with the block where it is kept.
unfoldable pub offer : BlockSelection → ℕ → ℕ → BlockSelection
offer s block weight =
    let cumulative = saturating_add s.cumulative weight in
    if is_empty s.blocks || leb cumulative s.budget
    then record s {
      cumulative = cumulative;
      blocks = s.blocks ++ block ∷ [];
      weights = s.weights ++ weight ∷ [];
    }
    else record s { cumulative = cumulative }

-- The selection after a range of blocks, and whether the budget is exceeded.
unfoldable pub extend : BlockSelection → List ℕ → (ℕ → Option ℕ) → BlockSelection × Bool
extend s [] weights = (s, false)
extend s (block ∷ rest) weights =
    let s' = offer s block (weight_of weights block) in
    let more = extend s' rest weights in if ltb s'.budget s'.cumulative then (s', true) else more

-- `into_blocks`
unfoldable pub into_blocks : BlockSelection → List ℕ × List ℕ
into_blocks s = (s.blocks, s.weights)

-- The loop of `weight_range_end`, over the blocks of a narrow scan and what each weighs, by
-- ascending block: the first block that takes the sum over the budget.
unfoldable pub crossing : ℕ → ℕ → List (ℕ × ℕ) → Option ℕ
crossing budget cumulative [] = none
crossing budget cumulative ((block, weight) ∷ rest) =
    let total = saturating_add cumulative weight in
    let more = crossing budget total rest in if ltb budget total then some block else more

unfoldable pub weight_range_end : ℕ → List (ℕ × ℕ) → Option ℕ
unfolding crossing
weight_range_end budget blocks = crossing budget 0 blocks
