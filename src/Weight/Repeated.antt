-- ===== src/Weight/Repeated.antt =====
-- src/output/weight.rs: rows that several sources hold are weighed once.
use Prim.Native.String.{String}
use sqd_query_engine.Prelude.{
  ℕ, Bool, true, Option, none, some, List, [], ◌∷◌, ◌++◌, map, any, range_from, ◌≡◌, refl, ap, sym,
  subst, ◌∙◌, Bool-cases, inl, inr, All, ◌⊎◌, ◌↔◌,
}
use sqd_query_engine.Arrow.{Column, RecordBatch}
use sqd_query_engine.Integers.Blocks.{BlockNumbers, at}
use sqd_query_engine.Weight.{
  RowWeight, weight_columns, weigh_row, Weights, readable, admit, admit_rows, accumulate_rows,
  accumulate_dedup,
}

module _ {K : Type 0} (same_key : K → K → Bool) where
  abbrev Seen : K → List K × Weights → Type 0
  Seen key s = any (same_key key) s.0 ≡ true

  admit_all : List (K × ℕ × ℕ) → List K × Weights → List K × Weights
  admit_all [] s = s
  admit_all (row ∷ rows) s = admit_all rows (admit same_key row s)

  AllSeen : List (K × ℕ × ℕ) → List K × Weights → Type 0
  AllSeen [] s = Unit
  AllSeen (row ∷ rows) s = Seen row.0 s × AllSeen rows s

  admit-Seen :
      (row : K × ℕ × ℕ) (s : List K × Weights)
      → ((k : K) → same_key k k ≡ true)
      → Seen row.0 (admit same_key row s)
  unfolding admit
  admit-Seen row s self = elim (Bool-cases (any (same_key row.0) s.0)) [
    | inl e ↦ rw e e
    | inr e ↦ rw (e, self row.0) refl
  ]

  admit_keeps :
      (row : K × ℕ × ℕ) (s : List K × Weights) (k : K) → Seen k s → Seen k (admit same_key row s)
  unfolding admit
  admit_keeps row s k h = elim (Bool-cases (any (same_key row.0) s.0)) [
    | inl e ↦ rw e h
    | inr e ↦ rw e (elim (Bool-cases (same_key k row.0)) [ inl f ↦ rw f refl | inr f ↦ rw f h ])
  ]

  admit_same : (row : K × ℕ × ℕ) (s : List K × Weights) → Seen row.0 s → admit same_key row s ≡ s
  unfolding admit
  admit_same row s h = rw h refl

  admit_all_keeps :
      (rows : List (K × ℕ × ℕ)) (s : List K × Weights) (k : K)
      → Seen k s
      → Seen k (admit_all rows s)
  unfolding admit_all
  admit_all_keeps [] s k h = h
  admit_all_keeps (row ∷ rows) s k h =
      admit_all_keeps rows (admit same_key row s) k (admit_keeps row s k h)

  admit_all-AllSeen :
      (rows : List (K × ℕ × ℕ)) (s : List K × Weights)
      → ((k : K) → same_key k k ≡ true)
      → AllSeen rows (admit_all rows s)
  unfolding admit_all AllSeen
  admit_all-AllSeen [] s self = tt
  admit_all-AllSeen (row ∷ rows) s self = (
    admit_all_keeps rows (admit same_key row s) row.0 (admit-Seen row s self),
    admit_all-AllSeen rows (admit same_key row s) self,
  )

  admit_all_same :
      (rows : List (K × ℕ × ℕ)) (s : List K × Weights) → AllSeen rows s → admit_all rows s ≡ s
  unfolding admit_all AllSeen
  admit_all_same [] s h = refl
  admit_all_same (row ∷ rows) s h =
      ap (admit_all rows) (admit_same row s h.0) ∙ admit_all_same rows s h.1

  admit_all-append :
      (xs ys : List (K × ℕ × ℕ)) (s : List K × Weights)
      → admit_all (xs ++ ys) s ≡ admit_all ys (admit_all xs s)
  unfolding admit_all
  admit_all-append [] ys s = refl
  admit_all-append (x ∷ xs) ys s = admit_all-append xs ys (admit same_key x s)

  -- The rows of a batch, and of the batches of all sources.
  keyed_rows : RowWeight → RecordBatch → (ℕ → ℕ → K) → Option BlockNumbers → List (K × ℕ × ℕ)
  keyed_rows weight batch key none = []
  keyed_rows weight batch key (some numbers) =
      map
        (λ row. (
          key row (at numbers row),
          at numbers row,
          weigh_row weight.fixed (weight_columns batch weight.columns) row,
        ))
        (range_from 0 batch.num_rows)

  all_keyed : List (RowWeight × RecordBatch × (ℕ → ℕ → K)) → String → List (K × ℕ × ℕ)
  all_keyed [] bn_column = []
  all_keyed ((weight, batch, key) ∷ batches) bn_column =
      keyed_rows weight batch key (readable batch bn_column) ++ all_keyed batches bn_column

  admit_rows-admit_all :
      (key : ℕ → ℕ → K) (numbers : BlockNumbers) (fixed : ℕ) (columns : List Column) (rows : List ℕ)
      (s : List K × Weights)
      → (admit_rows same_key key numbers fixed columns rows s
          ≡ admit_all
              (map
                (λ row. (key row (at numbers row), at numbers row, weigh_row fixed columns row))
                rows)
              s)
  unfolding admit_rows admit_all
  admit_rows-admit_all key numbers fixed columns [] s = refl
  admit_rows-admit_all key numbers fixed columns (row ∷ rows) s =
      admit_rows-admit_all key numbers fixed columns rows
        (admit same_key (key row (at numbers row), at numbers row, weigh_row fixed columns row) s)

  accumulate_rows-admit_all :
      (weight : RowWeight) (batch : RecordBatch) (bn_column : String) (key : ℕ → ℕ → K)
      (s : List K × Weights)
      → (accumulate_rows same_key weight batch bn_column key s
          ≡ admit_all (keyed_rows weight batch key (readable batch bn_column)) s)
  unfolding accumulate_rows keyed_rows admit_all
  accumulate_rows-admit_all weight batch bn_column key s = by_blocks (readable batch bn_column)
    where
      columns : List Column
      columns = weight_columns batch weight.columns

      by_blocks :
          (blocks : Option BlockNumbers)
          → (elim blocks [
            | none ↦ s
            | some numbers ↦
                admit_rows same_key key numbers weight.fixed columns (range_from 0 batch.num_rows) s
          ])
            ≡ admit_all (keyed_rows weight batch key blocks) s
      by_blocks none = refl
      by_blocks (some numbers) =
          admit_rows-admit_all key numbers weight.fixed columns (range_from 0 batch.num_rows) s

  accumulate_dedup-admit_all :
      (batches : List (RowWeight × RecordBatch × (ℕ → ℕ → K))) (bn_column : String)
      (s : List K × Weights)
      → accumulate_dedup same_key batches bn_column s ≡ admit_all (all_keyed batches bn_column) s
  unfolding accumulate_dedup all_keyed admit_all
  accumulate_dedup-admit_all [] bn_column s = refl
  accumulate_dedup-admit_all ((weight, batch, key) ∷ batches) bn_column s =
      accumulate_dedup-admit_all batches bn_column
        (accumulate_rows same_key weight batch bn_column key s)
      ∙ ap (admit_all (all_keyed batches bn_column))
          (accumulate_rows-admit_all weight batch bn_column key s)
      ∙ sym (
          admit_all-append (keyed_rows weight batch key (readable batch bn_column))
            (all_keyed batches bn_column) s)

  accumulate_dedup-append :
      (xs ys : List (RowWeight × RecordBatch × (ℕ → ℕ → K))) (bn_column : String)
      (s : List K × Weights)
      → (accumulate_dedup same_key (xs ++ ys) bn_column s
          ≡ accumulate_dedup same_key ys bn_column (accumulate_dedup same_key xs bn_column s))
  unfolding accumulate_dedup
  accumulate_dedup-append [] ys bn_column s = refl
  accumulate_dedup-append ((weight, batch, key) ∷ xs) ys bn_column s =
      accumulate_dedup-append xs ys bn_column
        (accumulate_rows same_key weight batch bn_column key s)

  -- A batch of the sources: its row weight, its columns, and what identifies each of its rows.
  abbrev Listed :
      RowWeight × RecordBatch × (ℕ → ℕ → K) → List (RowWeight × RecordBatch × (ℕ → ℕ → K)) → Type 0
  Listed y [] = ⊥
  Listed y (x ∷ xs) = (y ≡ x) ⊎ Listed y xs

  AllSeen-append :
      (xs ys : List (K × ℕ × ℕ)) (s : List K × Weights)
      → AllSeen (xs ++ ys) s ↔ (AllSeen xs s × AllSeen ys s)
  unfolding AllSeen
  AllSeen-append [] ys s = (λ h. (tt, h), λ h. h.1)
  AllSeen-append (x ∷ xs) ys s =
      let (split, join) = AllSeen-append xs ys s in
      (
        λ h. let (first, second) = split h.1 in ((h.0, first), second),
        λ h. (h.0.0, join (h.0.1, h.1)),
      )

  batch_rows : RowWeight × RecordBatch × (ℕ → ℕ → K) → String → List (K × ℕ × ℕ)
  batch_rows (weight, batch, key) bn_column = keyed_rows weight batch key (readable batch bn_column)

  -- What is seen of all batches is seen of each.
  Listed-AllSeen :
      (y : RowWeight × RecordBatch × (ℕ → ℕ → K))
      (xs : List (RowWeight × RecordBatch × (ℕ → ℕ → K))) (bn_column : String)
      (s : List K × Weights)
      → Listed y xs
      → AllSeen (all_keyed xs bn_column) s
      → AllSeen (batch_rows y bn_column) s
  unfolding all_keyed batch_rows
  Listed-AllSeen y [] bn_column s listed seen = absurd listed
  Listed-AllSeen y ((weight, batch, key) ∷ xs) bn_column s (inl e) seen =
      subst (λ x. AllSeen (batch_rows x bn_column) s) (sym e)
        ((AllSeen-append (keyed_rows weight batch key (readable batch bn_column))
            (all_keyed xs bn_column) s).0
          seen).0
  Listed-AllSeen y ((weight, batch, key) ∷ xs) bn_column s (inr later) seen =
      Listed-AllSeen y xs bn_column s later
        ((AllSeen-append (keyed_rows weight batch key (readable batch bn_column))
            (all_keyed xs bn_column) s).0
          seen).1

  AllSeen-all_keyed :
      (ys xs : List (RowWeight × RecordBatch × (ℕ → ℕ → K))) (bn_column : String)
      (s : List K × Weights)
      → All (λ y. Listed y xs) ys
      → AllSeen (all_keyed xs bn_column) s
      → AllSeen (all_keyed ys bn_column) s
  unfolding all_keyed batch_rows
  AllSeen-all_keyed [] xs bn_column s listed seen = unfold AllSeen in tt
  AllSeen-all_keyed ((weight, batch, key) ∷ ys) xs bn_column s listed seen =
      (AllSeen-append (keyed_rows weight batch key (readable batch bn_column))
          (all_keyed ys bn_column) s).1
        (
          Listed-AllSeen (weight, batch, key) xs bn_column s listed.0 seen,
          AllSeen-all_keyed ys xs bn_column s listed.1 seen,
        )

  -- Where every key equals itself: batches each of which is listed before already, with the same
  -- keys and the same weights of its rows, add nothing, in whatever order they come and however
  -- often: neither to the keys seen nor to the weights of blocks.
  pub accumulate_dedup_repeated :
      ((k : K) → same_key k k ≡ true)
      → (xs ys : List (RowWeight × RecordBatch × (ℕ → ℕ → K))) (bn_column : String)
        (s : List K × Weights)
      → All (λ y. Listed y xs) ys
      → (accumulate_dedup same_key (xs ++ ys) bn_column s
          ≡ accumulate_dedup same_key xs bn_column s)
  accumulate_dedup_repeated self xs ys bn_column s listed =
      let whole = accumulate_dedup same_key xs bn_column s in
      let seen : AllSeen (all_keyed xs bn_column) whole =
        subst (AllSeen (all_keyed xs bn_column)) (sym (accumulate_dedup-admit_all xs bn_column s))
          (admit_all-AllSeen (all_keyed xs bn_column) s self) in
      accumulate_dedup-append xs ys bn_column s
      ∙ accumulate_dedup-admit_all ys bn_column whole
      ∙ admit_all_same (all_keyed ys bn_column) whole
          (AllSeen-all_keyed ys xs bn_column whole listed seen)
