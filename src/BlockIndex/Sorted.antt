-- ===== src/BlockIndex/Sorted.antt =====
-- The index of a page's rows: the run of each block is its rows in the order of the file.
use Prim.Native.String.{String}
use sqd_query_engine.Prelude.{
  ℕ, zero, suc, ◌+◌, ◌-◌, ◌^◌, ◌≤◌, ◌<◌, Option, none, some, List, [], ◌∷◌, ◌++◌, ◌==◌,
  if◌then◌else◌, length, get_elem?, get_or, set, take, drop, replicate, ◌≡◌, arith, refl, sym, ap,
  ap₂, ◌∙◌, inl, inr, Bool-cases, Option-cases, ==_iff, le_or_lt, length-replicate,
  get_or-replicate, subst,
}
use mathlib.Core.List.{append_assoc, append-nil}
use sqd_query_engine.Arrow.{RecordBatch}
use sqd_query_engine.Error.{ok}
use sqd_query_engine.Page.Ranges.{IsAscending}
use sqd_query_engine.BlockIndex.{
  Visit, BlockPositions, block_positions, position, search, BlockIndex, visits, count_rows, sum_up,
  place_rows, rows_at, build,
}
use sqd_query_engine.BlockIndex.Positions.{position-search}
use sqd_query_engine.BlockIndex.Visited.{
  rows_of_block, search-get_elem?, rows_of_position-rows_of_block,
}
use sqd_query_engine.BlockIndex.Counted.{
  Place, nowhere, rows_of_position, rows-out, rows-hit, rows-miss, Within,
  count_rows-rows_of_position, get_or-sum_up, length-sum_up, get_or-drop, length-drop, take_run,
}
use sqd_query_engine.BlockIndex.Placed.{Placing, one_more, one_more-hit, one_more-miss, place_step}

module _ (positions : BlockPositions) (n : ℕ) (st : ℕ → ℕ) (inside : Within positions n)
    (ordered : (p q : ℕ) → p < q → q ≤ n → st (suc p) ≤ st q) where
  one_more-rows :
      (got : ℕ → List Place) (batch row block at p : ℕ) (vs : List Visit)
      → position positions block ≡ some at
      → one_more positions n st inside ordered got at (batch, row) p
          ++ rows_of_position positions p vs
        ≡ got p ++ rows_of_position positions p ((batch, row, block) ∷ vs)
  one_more-rows got batch row block at p vs here = elim (Bool-cases (at == p)) [
    | inl equal ↦
        ap (λ zs. zs ++ rows_of_position positions p vs)
          (one_more-hit positions n st inside ordered got at p (batch, row) equal)
        ∙ append_assoc (got p) ((batch, row) ∷ []) (rows_of_position positions p vs)
        ∙ ap (λ zs. got p ++ zs)
            (sym (rows-hit positions p batch row block vs (here ∙ ap some ((==_iff at p).0 equal))))
    | inr differ ↦
        ap₂ (λ ys zs. ys ++ zs)
          (one_more-miss positions n st inside ordered got at p (batch, row) differ)
          (sym (rows-miss positions p at batch row block vs here differ))
  ]

  -- After the loop, the run of each position begins with the rows got and those to come.
  place_rows-rows_of_position :
      (vs : List Visit) (next : List ℕ) (rows : List Place) (got : ℕ → List Place)
      → Placing positions n st inside ordered next rows got vs
      → (length (place_rows positions next rows vs) ≡ st n)
        × ((p i : ℕ)
            → p < n
            → i < length (got p ++ rows_of_position positions p vs)
            → get_or (place_rows positions next rows vs) (st p + i) nowhere
              ≡ get_or (got p ++ rows_of_position positions p vs) i nowhere)
  unfolding place_rows rows_of_position
  place_rows-rows_of_position [] next rows got inv = (
    inv.full,
    λ p i lt less.
        subst (λ zs. i < length zs → get_or rows (st p + i) nowhere ≡ get_or zs i nowhere)
          (sym (append-nil (got p))) (inv.placed p i lt) less,
  )
  place_rows-rows_of_position ((batch, row, block) ∷ vs) next rows got inv =
      elim (Option-cases (position positions block)) [
        | inl out ↦
            let same = λ (p : ℕ). rows-out positions p batch row block vs out in
            let (whole, runs) = place_rows-rows_of_position vs next rows got (record {
              wide = inv.wide;
              full = inv.full;
              nexts = inv.nexts;
              placed = inv.placed;
              room = λ p lt.
                  ap (λ zs. st p + (length (got p) + length zs)) (sym (same p)) ∙ inv.room p lt;
            }) in
            rw (place_rows, out)
              (
                whole,
                λ p i lt less.
                    subst
                      (λ zs.
                        i < length (got p ++ zs)
                        → get_or (place_rows positions next rows vs) (st p + i) nowhere
                          ≡ get_or (got p ++ zs) i nowhere)
                      (sym (same p)) (runs p i lt) less,
              )
        | inr (at, here) ↦
            let free = get_or next at 0 in
            let (whole, runs) =
              place_rows-rows_of_position vs (set next at (free + 1)) (set rows free (batch, row))
                (one_more positions n st inside ordered got at (batch, row))
                (place_step positions n st inside ordered next rows got vs batch row block at here
                  inv) in
            rw (place_rows, here)
              (
                whole,
                λ p i lt less.
                    subst
                      (λ zs.
                        i < length zs
                        → get_or
                            (place_rows positions (set next at (free + 1))
                              (set rows free (batch, row)) vs)
                            (st p + i) nowhere
                          ≡ get_or zs i nowhere)
                      (one_more-rows got batch row block at p vs here) (runs p i lt) less,
              )
      ]

module _ (positions : BlockPositions) (vs : List Visit)
    (inside : Within positions (length positions.blocks)) where
  abbrev n : ℕ
  n = length positions.blocks

  abbrev counts : List ℕ
  counts = count_rows positions (replicate (n + 1) 0) vs

  abbrev starts : List ℕ
  starts = sum_up 0 counts

  abbrev st : ℕ → ℕ
  st p = get_or starts p 0

  counted :
      (length counts ≡ n + 1)
      × (get_or counts 0 0 ≡ get_or (replicate (n + 1) 0) 0 0)
      × ((p : ℕ)
          → p < n
          → get_or counts (p + 1) 0
            ≡ get_or (replicate (n + 1) 0) (p + 1) 0 + length (rows_of_position positions p vs))
  counted =
      count_rows-rows_of_position positions (replicate (n + 1) 0) vs n inside
        (length-replicate (n + 1) 0)

  next_start : (p : ℕ) → p < n → st (suc p) ≡ st p + length (rows_of_position positions p vs)
  next_start p lt =
      let one : p + 1 ≡ suc p = omega arith in
      let count = counted.2 p lt in
      let zeros = get_or-replicate {A = ℕ} (n + 1) (p + 1) 0 in
      let moved = ap (λ i. get_or counts i 0) one in
      let sum = get_or-sum_up 0 counts p (omega (arith, counted.0)) in
      omega (arith, count, zeros, moved, sum)

  ordered : (p q : ℕ) → p < q → q ≤ n → st (suc p) ≤ st q
  ordered p zero lt le = absurd (omega arith)
  ordered p (suc q) lt le = elim (le_or_lt q p) [
    | inl last ↦ let same : p ≡ q = omega arith in omega (arith, ap (λ i. st (suc i)) same)
    | inr earlier ↦ omega (arith, ordered p q earlier (omega arith), next_start q (omega arith))
  ]

  start : Placing positions n st inside ordered starts (replicate (st n) nowhere) (λ p. []) vs
  start = record {
    wide = length-sum_up 0 counts ∙ counted.0;
    full = length-replicate (st n) nowhere;
    nexts = λ p lt. omega arith;
    placed = λ p i lt less. absurd (omega arith);
    room = λ p lt. omega (arith, next_start p lt);
  }

  abbrev index : BlockIndex
  index = record {
    starts = starts;
    rows = place_rows positions starts (replicate (st n) (0, 0)) vs;
  }

  rows_at-rows_of_position : (p : ℕ) → p < n → rows_at index p ≡ rows_of_position positions p vs
  unfolding rows_at
  rows_at-rows_of_position p lt =
      let (whole, runs) =
        place_rows-rows_of_position positions n st inside ordered vs starts
          (replicate (st n) nowhere) (λ p. []) start in
      let ys = rows_of_position positions p vs in
      let one : p + 1 ≡ suc p = omega arith in
      let width : get_or starts (p + 1) 0 - st p ≡ length ys =
        omega (arith, ap st one, next_start p lt) in
      let within = ordered p n lt (omega arith) in
      ap (λ k. take k (drop (st p) index.rows)) width
      ∙ take_run (drop (st p) index.rows) ys
          (omega (arith, length-drop index.rows (st p), whole, next_start p lt, within))
          (λ i less. get_or-drop index.rows (st p) i ∙ runs p i lt less)

search-lt : (block at : ℕ) (blocks : List ℕ) → search block blocks ≡ some at → at < length blocks
unfolding search
search-lt block at [] e = absurd (ground arith)
search-lt block at (b ∷ blocks) e = elim (Bool-cases (b == block)) [
  | inl equal ↦
      let first : some 0 ≡ some at =
        subst
          (λ t.
            (if t then some 0 else elim (search block blocks) as (λ _. Option ℕ) [
              | none ↦ none
              | some i ↦ some (suc i)
            ])
            ≡ some at)
          equal e in
      let zero_at : 0 ≡ at = cc first in omega arith
  | inr differ ↦
      let later : elim (search block blocks) as (λ _. Option ℕ) [
        | none ↦ none
        | some i ↦ some (suc i)
      ]
          ≡ some at =
        subst
          (λ t.
            (if t then some 0 else elim (search block blocks) as (λ _. Option ℕ) [
              | none ↦ none
              | some i ↦ some (suc i)
            ])
            ≡ some at)
          differ e in
      elim (Option-cases (search block blocks)) [
        | inl never ↦ absurd (ground (arith, later, never))
        | inr (i, found) ↦
            let step : some (suc i) ≡ some at =
              subst
                (λ o. elim o as (λ _. Option ℕ) [ none ↦ none | some i ↦ some (suc i) ] ≡ some at)
                found later in
            let suc_at : suc i ≡ at = cc step in omega (arith, search-lt block i blocks found)
      ]
]

-- The index of a page of ascending blocks, fewer than 2^32 of them, over batches whose block-number
-- columns can be read, is built; and the rows at the place of each of the page's blocks are those
-- that were visited with that block's number, in the order of the file.
pub build-rows_of_block :
    (blocks : List ℕ) (batches : List RecordBatch) (bn_column : String) (vs : List Visit)
    → IsAscending blocks
    → length blocks < 2 ^ 32
    → visits 0 batches bn_column ≡ ok vs
    → (index : BlockIndex) × (build batches bn_column (block_positions blocks) ≡ ok index)
      × ((p block : ℕ) → get_elem? blocks p ≡ some block → rows_at index p ≡ rows_of_block block vs)
unfolding build block_positions
build-rows_of_block blocks batches bn_column vs asc small read =
    let positions = block_positions blocks in
    let placed = λ (block : ℕ). position-search blocks block asc small in
    let inside : Within positions (length blocks) =
      λ block at e. search-lt block at blocks (sym (placed block) ∙ e) in
    (
      index positions vs inside,
      rw read refl,
      λ p block found.
          rows_at-rows_of_position positions vs inside p
            (search-lt block p blocks (search-get_elem? blocks p block asc found))
          ∙ rows_of_position-rows_of_block positions blocks asc placed p block found vs,
    )
