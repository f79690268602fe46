-- ===== src/Weight/Sums.antt =====
-- What src/output/weight.rs adds up to: a block weighs the sum of its rows' weights, as far as a word
-- holds it, in whatever order they are added.
use Prim.Native.String.{String}
use sqd_query_engine.Prelude.{
  ℕ, ◌+◌, ◌≤◌, Option, none, some, List, [], ◌∷◌, ◌++◌, map, min, ◌==◌, if◌then◌else◌, range_from,
  ◌≡◌, refl, arith, ap, sym, ◌∙◌, Bool-cases, inl, inr, ==_iff,
}
use sqd_query_engine.Prelude.Words.{u64_max}
use sqd_query_engine.Arrow.{Column, RecordBatch}
use sqd_query_engine.Integers.Blocks.{BlockNumbers, at}
use sqd_query_engine.Selection.{weight_of}
use sqd_query_engine.Weight.{
  RowWeight, weight_columns, weight_at, weigh_row, Weights, add_weight, add_rows, readable,
  accumulate_block_weights,
}

-- The sum of a row's sizes.
abbrev pub sizes : List Column → ℕ → ℕ
sizes [] row = 0
sizes (column ∷ columns) row = weight_at column row + sizes columns row

abbrev pub capped : ℕ → ℕ
capped n = min n u64_max

-- A row's weight: its fixed part and its sizes.
abbrev pub row_total : ℕ → List Column → ℕ → ℕ
row_total fixed columns row = capped (fixed + sizes columns row)

-- A block's part of rows, given by their blocks and weights.
abbrev pub part_of : ℕ → List (ℕ × ℕ) → ℕ
part_of b [] = 0
part_of b ((block, weight) ∷ rows) = (if b == block then weight else 0) + part_of b rows

part_of-append : (b : ℕ) (xs ys : List (ℕ × ℕ)) → part_of b (xs ++ ys) ≡ part_of b xs + part_of b ys
part_of-append b [] ys = omega arith
part_of-append b (x ∷ xs) ys = omega (arith, part_of-append b xs ys)

-- The rows of a batch, by their blocks and weights; of a batch without readable blocks, none.
abbrev pub batch_rows : RowWeight → RecordBatch → Option BlockNumbers → List (ℕ × ℕ)
batch_rows weight batch none = []
batch_rows weight batch (some numbers) =
    map (λ row. (at numbers row, row_total weight.fixed (weight_columns batch weight.columns) row))
      (range_from 0 batch.num_rows)

abbrev pub weighed_rows : RowWeight → String → List RecordBatch → List (ℕ × ℕ)
weighed_rows weight bn_column [] = []
weighed_rows weight bn_column (batch ∷ batches) =
    batch_rows weight batch (readable batch bn_column) ++ weighed_rows weight bn_column batches

pub weigh_row-total :
    (weight : ℕ) (columns : List Column) (row : ℕ)
    → weight ≤ u64_max
    → weigh_row weight columns row ≡ row_total weight columns row
unfolding weigh_row
weigh_row-total weight [] row h = omega arith
weigh_row-total weight (column ∷ columns) row h =
    weigh_row-total (capped (weight + weight_at column row)) columns row (omega arith)
    ∙ regroup weight (weight_at column row) (sizes columns row)
  where
    regroup : (a b c : ℕ) → capped (capped (a + b) + c) ≡ capped (a + (b + c))
    regroup a b c = omega arith

-- No block weighs more than a word holds.
abbrev pub AreCapped : Weights → Type 0
AreCapped weights = (b : ℕ) → weight_of weights b ≤ u64_max

pub add_weight-part :
    (weights : Weights) (block weight b : ℕ)
    → AreCapped weights
    → weight_of (add_weight weights block weight) b
      ≡ capped (weight_of weights b + (if b == block then weight else 0))
unfolding add_weight
add_weight-part weights block weight b h = elim (Bool-cases (b == block)) [
  | inl e ↦
      rw (weight_of, add_weight, e) refl
      ∙ ap (λ n. capped (weight_of weights n + weight)) (sym ((==_iff b block).0 e))
      ∙ rw e refl
  | inr e ↦ rw (weight_of, add_weight, e) (omega (arith, h b))
]

pub add_weight-AreCapped :
    (weights : Weights) (block weight : ℕ)
    → AreCapped weights
    → AreCapped (add_weight weights block weight)
add_weight-AreCapped weights block weight h b =
    rw (add_weight-part weights block weight b h) (omega arith)

add_rows-part :
    (numbers : BlockNumbers) (fixed : ℕ) (columns : List Column) (rows : List ℕ) (weights : Weights)
    (b : ℕ)
    → fixed ≤ u64_max
    → AreCapped weights
    → (weight_of (add_rows numbers fixed columns rows weights) b
        ≡ capped (
            weight_of weights b
            + part_of b (map (λ row. (at numbers row, row_total fixed columns row)) rows)))
unfolding add_rows
add_rows-part numbers fixed columns [] weights b hf h = omega (arith, h b)
add_rows-part numbers fixed columns (row ∷ rows) weights b hf h =
    let added = add_weight weights (at numbers row) (weigh_row fixed columns row) in
    add_rows-part numbers fixed columns rows added b hf
      (add_weight-AreCapped weights (at numbers row) (weigh_row fixed columns row) h)
    ∙ rw
        (
          add_weight-part weights (at numbers row) (weigh_row fixed columns row) b h,
          weigh_row-total fixed columns row hf,
        )
        (regroup (weight_of weights b) _ _)
  where
    regroup : (a b c : ℕ) → capped (capped (a + b) + c) ≡ capped (a + (b + c))
    regroup a b c = omega arith

add_rows-AreCapped :
    (numbers : BlockNumbers) (fixed : ℕ) (columns : List Column) (rows : List ℕ) (weights : Weights)
    → AreCapped weights
    → AreCapped (add_rows numbers fixed columns rows weights)
unfolding add_rows
add_rows-AreCapped numbers fixed columns [] weights h = h
add_rows-AreCapped numbers fixed columns (row ∷ rows) weights h =
    add_rows-AreCapped numbers fixed columns rows
      (add_weight weights (at numbers row) (weigh_row fixed columns row))
      (add_weight-AreCapped weights (at numbers row) (weigh_row fixed columns row) h)

-- Over any batches, and from any weights within a word, with a fixed part within a word: a block's
-- weight grows by the sum of the weights of its own rows, as far as a word holds it, a row's weight being
-- its fixed part and its sizes, as far as a word holds them; batches without readable blocks add nothing.
pub accumulate_block_weights-part_of :
    (batches : List RecordBatch) (bn_column : String) (weight : RowWeight) (weights : Weights)
    (b : ℕ)
    → weight.fixed ≤ u64_max
    → AreCapped weights
    → (weight_of (accumulate_block_weights batches bn_column weight weights) b
        ≡ capped (weight_of weights b + part_of b (weighed_rows weight bn_column batches)))
unfolding accumulate_block_weights
accumulate_block_weights-part_of [] bn_column weight weights b hf h = omega (arith, h b)
accumulate_block_weights-part_of (batch ∷ batches) bn_column weight weights b hf h =
    by_blocks (λ ws. accumulate_block_weights-part_of batches bn_column weight ws b hf)
      (readable batch bn_column)
  where
    columns : List Column
    columns = weight_columns batch weight.columns

    regroup : (a b c : ℕ) → capped (capped (a + b) + c) ≡ capped (a + (b + c))
    regroup a b c = omega arith

    by_blocks :
        ((ws : Weights)
          → AreCapped ws
          → (weight_of (accumulate_block_weights batches bn_column weight ws) b
              ≡ capped (weight_of ws b + part_of b (weighed_rows weight bn_column batches))))
        → (blocks : Option BlockNumbers)
        → (weight_of
              (accumulate_block_weights batches bn_column weight (elim blocks [
                | none ↦ weights
                | some numbers ↦
                    add_rows numbers weight.fixed columns (range_from 0 batch.num_rows) weights
              ]))
              b
            ≡ capped (
                weight_of weights b
                + part_of b
                    (batch_rows weight batch blocks ++ weighed_rows weight bn_column batches)))
    by_blocks rest none = rest weights h
    by_blocks rest (some numbers) =
        rest (add_rows numbers weight.fixed columns (range_from 0 batch.num_rows) weights)
          (add_rows-AreCapped numbers weight.fixed columns (range_from 0 batch.num_rows) weights h)
        ∙ rw
            (
              add_rows-part numbers weight.fixed columns (range_from 0 batch.num_rows) weights b hf
                  h,
              part_of-append b (batch_rows weight batch (some numbers))
                  (weighed_rows weight bn_column batches),
            )
            (regroup (weight_of weights b) _ _)
