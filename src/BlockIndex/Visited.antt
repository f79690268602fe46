-- ===== src/BlockIndex/Visited.antt =====
-- The rows that were visited with a block's number, beside those of the block's place on the page.
use sqd_query_engine.Prelude.{
  ℕ, zero, suc, ◌<◌, true, false, some, List, [], ◌∷◌, ◌==◌, if◌then◌else◌, get_elem?, All, ◌≡◌,
  arith, refl, sym, ap, ◌∙◌, inl, inr, Bool-cases, Option-cases, ==_iff, ==_refl, subst,
}
use sqd_query_engine.Page.Ranges.{IsAscending}
use sqd_query_engine.BlockIndex.{Visit, BlockPositions, position, search}
use sqd_query_engine.BlockIndex.Counted.{
  Place, rows_of_position, rows-out, rows-hit, rows-miss, apart,
}

-- The rows visited with a block's number, in the order of their visits.
unfoldable pub rows_of_block : ℕ → List Visit → List Place
rows_of_block block [] = []
rows_of_block block ((batch, row, number) ∷ vs) =
    let rest = rows_of_block block vs in if number == block then (batch, row) ∷ rest else rest

All-get_elem? :
    (P : ℕ → Type 0) (bs : List ℕ) (p : ℕ) {b : ℕ} → All P bs → get_elem? bs p ≡ some b → P b
All-get_elem? P [] p h e = absurd (ground arith)
All-get_elem? P (b ∷ bs) zero h e = let same : b ≡ _ = cc e in subst P same h.0
All-get_elem? P (b ∷ bs) (suc p) h e = All-get_elem? P bs p h.1 e

-- A search finds the block that stands at a place of an ascending list there.
pub search-get_elem? :
    (bs : List ℕ) (p block : ℕ)
    → IsAscending bs
    → get_elem? bs p ≡ some block
    → search block bs ≡ some p
unfolding search
search-get_elem? [] p block asc e = absurd (ground arith)
search-get_elem? (b ∷ bs) zero block asc e =
    let same : b ≡ block = cc e in rw (same, ==_refl block) refl
search-get_elem? (b ∷ bs) (suc p) block asc e =
    let before : b < block = All-get_elem? (λ c. b < c) bs p asc.0 e in
    let differ : (b == block) ≡ false = ground arith in
    rw (differ, search-get_elem? bs p block asc.1 e) refl

-- What a search finds at a place stands there.
get_elem?-search :
    (bs : List ℕ) (block at : ℕ) → search block bs ≡ some at → get_elem? bs at ≡ some block
unfolding search
get_elem?-search [] block at e = absurd (ground arith)
get_elem?-search (b ∷ bs) block at e = elim (Bool-cases (b == block)) [
  | inl equal ↦ first equal
  | inr differ ↦ elim (Option-cases (search block bs)) [
    | inl never ↦ absurd (ground arith)
    | inr (i, found) ↦ later i differ found (get_elem?-search bs block i found)
  ]
]
  where
    first : (b == block) ≡ true → get_elem? (b ∷ bs) at ≡ some block
    first equal =
        let zero_at : 0 ≡ at = ground arith in
        subst (λ k. get_elem? (b ∷ bs) k ≡ some block) zero_at (ap some ((==_iff b block).0 equal))

    later :
        (i : ℕ)
        → (b == block) ≡ false
        → search block bs ≡ some i
        → get_elem? bs i ≡ some block
        → get_elem? (b ∷ bs) at ≡ some block
    later i differ found stands =
        let suc_at : suc i ≡ at = ground arith in
        subst (λ k. get_elem? (b ∷ bs) k ≡ some block) suc_at stands

module _ (positions : BlockPositions) (blocks : List ℕ) (ascending : IsAscending blocks)
    (placed : (block : ℕ) → position positions block ≡ search block blocks) where
  -- The rows of a place are those of the block that stands there.
  pub rows_of_position-rows_of_block :
      (p block : ℕ)
      → get_elem? blocks p ≡ some block
      → (vs : List Visit) → rows_of_position positions p vs ≡ rows_of_block block vs
  unfolding rows_of_position rows_of_block
  rows_of_position-rows_of_block p block found [] = refl
  rows_of_position-rows_of_block p block found ((batch, row, number) ∷ vs) =
      let ih = rows_of_position-rows_of_block p block found vs in
      elim (Bool-cases (number == block)) [
        | inl equal ↦
            let here : position positions number ≡ some p =
              placed number
              ∙ ap (λ b. search b blocks) ((==_iff number block).0 equal)
              ∙ search-get_elem? blocks p block ascending found in
            rows-hit positions p batch row number vs here
            ∙ rw equal (ap (λ rows. (batch, row) ∷ rows) ih)
        | inr differ ↦ elim (Option-cases (position positions number)) [
          | inl out ↦ rows-out positions p batch row number vs out ∙ rw differ ih
          | inr (at, here) ↦ elim (Bool-cases (at == p)) [
            | inl same ↦ absurd (apart positions number block differ (agree number at here same))
            | inr other ↦ rows-miss positions p at batch row number vs here other ∙ rw differ ih
          ]
        ]
      ]
    where
      agree :
          (number at : ℕ) → position positions number ≡ some at → (at == p) ≡ true → number ≡ block
      agree number at here same =
          let stands : get_elem? blocks at ≡ some number =
            get_elem?-search blocks number at (sym (placed number) ∙ here) in
          let both : some number ≡ some block =
            sym stands ∙ ap (get_elem? blocks) ((==_iff at p).0 same) ∙ found in
          cc both
