-- ===== src/Fork/Answer.antt =====
-- The row that answers a client: the lowest block at or after `from_block` of the rows read.
use Prim.Native.String.{String}
use sqd_query_engine.Prelude.{
  ℕ, ◌≤◌, ◌<◌, true, ◌&&◌, Option, none, some, List, [], ◌∷◌, ◌++◌, map, leb, ltb, if◌then◌else◌,
  All, All-append, All-imp, ◌⊎◌, inl, inr, ◌≡◌, arith, refl, sym, ap, ◌∙◌, subst, Option-cases,
  Bool-cases, le_or_lt, lt→leb_false, le→leb,
}
use mathlib.Core.List.{append_assoc, append-nil}
use sqd_query_engine.Arrow.{Column, RecordBatch, column_by_name}
use sqd_query_engine.Error.{ok, BlockRef}
use sqd_query_engine.Integers.Blocks.{BlockNumbers, resolve, at}
use sqd_query_engine.Join.{rows_of}
use sqd_query_engine.Join.Semi.{is_text}
use sqd_query_engine.Fork.{
  ForkPlan, BlockTable, Refs, lower_than_answer, push_ref, parent_number, hash_at, read_rows,
  column_of, read_batch, read_batches,
}

-- A row's number and what it says of the block before it.
abbrev pub Statement : Type 0
Statement = ℕ × BlockRef

abbrev pub Among : Statement → List Statement → Type 0
Among x [] = ⊥
Among x (y ∷ ys) = (x ≡ y) ⊎ Among x ys

-- None of the rows is at or after a block; or the row is, and none of these is lower.
abbrev pub IsAnswer : ℕ → List Statement → Option Statement → Type 0
IsAnswer from_block rows none = All (λ s. s.0 < from_block) rows
IsAnswer from_block rows (some row) =
    Among row rows × (from_block ≤ row.0) × All (λ s. from_block ≤ s.0 → row.0 ≤ s.0) rows

-- What the rows of a batch say, in order.
abbrev pub statements : BlockNumbers → Column → Option Column → List ℕ → List Statement
statements numbers hashes parents [] = []
statements numbers hashes parents (row ∷ rows) = elim (parent_number parents row (at numbers row)) [
  | none ↦ statements numbers hashes parents rows
  | some number ↦
      (at numbers row, record { number = number; hash = hash_at hashes row })
      ∷ statements numbers hashes parents rows
]

abbrev pub push_all : ℕ → Refs → List Statement → Refs
push_all from_block state [] = state
push_all from_block state (s ∷ rest) = push_all from_block (push_ref from_block state s.0 s.1) rest

push_all-append :
    (from_block : ℕ) (state : Refs) (xs ys : List Statement)
    → push_all from_block state (xs ++ ys) ≡ push_all from_block (push_all from_block state xs) ys
push_all-append from_block state [] ys = refl
push_all-append from_block state (x ∷ xs) ys =
    push_all-append from_block (push_ref from_block state x.0 x.1) xs ys

read_rows-push_all :
    (from_block : ℕ) (numbers : BlockNumbers) (hashes : Column) (parents : Option Column)
    (rows : List ℕ) (state : Refs)
    → read_rows from_block numbers hashes parents rows state
      ≡ push_all from_block state (statements numbers hashes parents rows)
unfolding read_rows
read_rows-push_all from_block numbers hashes parents [] state = refl
read_rows-push_all from_block numbers hashes parents (row ∷ rows) state =
    elim (Option-cases (parent_number parents row (at numbers row))) [
      | inl over ↦
          rw (read_rows, statements, over)
            (read_rows-push_all from_block numbers hashes parents rows state)
      | inr (number, said) ↦
          rw (read_rows, statements, said)
            (read_rows-push_all from_block numbers hashes parents rows (
              push_ref from_block state (at numbers row)
                (record { number = number; hash = hash_at hashes row })))
    ]

Among-last : (xs : List Statement) (x : Statement) → Among x (xs ++ x ∷ [])
Among-last [] x = inl refl
Among-last (y ∷ xs) x = inr (Among-last xs x)

Among-append : (xs ys : List Statement) (x : Statement) → Among x xs → Among x (xs ++ ys)
Among-append [] ys x h = absurd h
Among-append (y ∷ xs) ys x (inl e) = inl e
Among-append (y ∷ xs) ys x (inr h) = inr (Among-append xs ys x h)

-- One more row keeps the answer right.
push_ref-IsAnswer :
    (from_block : ℕ) (rows : List Statement) (state : Refs) (s : Statement)
    → IsAnswer from_block rows state.answer
    → IsAnswer from_block (rows ++ s ∷ []) (push_ref from_block state s.0 s.1).answer
unfolding push_ref lower_than_answer
push_ref-IsAnswer from_block rows state s h = by_answer state.answer h
  where
    by_answer :
        (answer : Option Statement)
        → IsAnswer from_block rows answer
        → IsAnswer from_block
            (rows ++ s ∷ [])
            (if leb from_block s.0 && lower_than_answer s.0 answer then some s else answer)
    by_answer none h = elim (le_or_lt from_block s.0) [
      | inl reaches ↦ rw (le→leb from_block s.0 reaches) (
        Among-last rows s,
        reaches,
        All-append (λ t. from_block ≤ t.0 → s.0 ≤ t.0) rows (s ∷ [])
            (All-imp (λ t lt le. omega arith) rows h) (λ le. omega arith, tt),
      )
      | inr before ↦
          rw (lt→leb_false from_block s.0 before)
            (All-append (λ t. t.0 < from_block) rows (s ∷ []) h (before, tt))
    ]
    by_answer (some (block, block_ref)) h =
        elim (Bool-cases (leb from_block s.0 && ltb s.0 block)) [
          | inl lower ↦
              let reaches : from_block ≤ s.0 = ground arith in
              let under : s.0 < block = ground arith in
              rw lower (
                Among-last rows s,
                reaches,
                All-append (λ t. from_block ≤ t.0 → s.0 ≤ t.0) rows (s ∷ [])
                    (All-imp (λ t least le. omega (arith, least le)) rows h.2)
                    (λ le. omega arith, tt),
              )
          | inr higher ↦
              let least : from_block ≤ s.0 → block ≤ s.0 = λ le. ground arith in
              rw higher (
                Among-append rows (s ∷ []) (block, block_ref) h.0,
                h.1,
                All-append (λ t. from_block ≤ t.0 → block ≤ t.0) rows (s ∷ []) h.2 (least, tt),
              )
        ]

pub push_all-IsAnswer :
    (from_block : ℕ) (done : List Statement) (state : Refs) (rows : List Statement)
    → IsAnswer from_block done state.answer
    → IsAnswer from_block (done ++ rows) (push_all from_block state rows).answer
push_all-IsAnswer from_block done state [] h =
    subst (λ xs. IsAnswer from_block xs state.answer) (sym (append-nil done)) h
push_all-IsAnswer from_block done state (s ∷ rows) h =
    subst (λ xs. IsAnswer from_block xs (push_all from_block state (s ∷ rows)).answer)
      (append_assoc done (s ∷ []) rows)
      (push_all-IsAnswer from_block (done ++ s ∷ []) (push_ref from_block state s.0 s.1) rows
        (push_ref-IsAnswer from_block done state s h))

pub push_all-refs :
    (from_block : ℕ) (state : Refs) (rows : List Statement)
    → (push_all from_block state rows).refs ≡ state.refs ++ map (λ s. s.1) rows
unfolding push_ref
push_all-refs from_block state [] = sym (append-nil state.refs)
push_all-refs from_block state (s ∷ rows) =
    push_all-refs from_block (push_ref from_block state s.0 s.1) rows
    ∙ append_assoc state.refs (s.1 ∷ []) (map (λ t. t.1) rows)

-- A batch with a whole block-number column and a hash column of text.
pub record Readable (table : BlockTable) (hash_column : String) (batch : RecordBatch) : Type 0 where
  pub blocks : Column
  pub hashes : Column
  pub numbers : BlockNumbers
  pub has_blocks : column_by_name batch table.block_number_column ≡ some blocks
  pub has_hashes : column_by_name batch hash_column ≡ some hashes
  pub text : is_text hashes.data_type ≡ true
  pub whole : resolve blocks ≡ ok numbers

-- What the rows of all batches say, in order.
abbrev pub all_statements :
    (table : BlockTable) (hash_column : String) (number_column : Option String)
    (batches : List RecordBatch)
    → All (Readable table hash_column) batches
    → List Statement
all_statements table hash_column number_column [] readable = []
all_statements table hash_column number_column (batch ∷ batches) readable =
    statements readable.0.numbers readable.0.hashes (column_of batch number_column) (rows_of batch)
    ++ all_statements table hash_column number_column batches readable.1

pub read_batches-push_all :
    (plan : ForkPlan) (table : BlockTable) (hash_column : String) (number_column : Option String)
    (batches : List RecordBatch) (readable : All (Readable table hash_column) batches)
    (state : Refs)
    → read_batches plan table hash_column number_column batches state
      ≡ ok (
          push_all plan.from_block state
            (all_statements table hash_column number_column batches readable))
unfolding read_batches read_batch
read_batches-push_all plan table hash_column number_column [] readable state = refl
read_batches-push_all plan table hash_column number_column (batch ∷ batches) readable state =
    let r = readable.0 in
    let here = statements r.numbers r.hashes (column_of batch number_column) (rows_of batch) in
    rw (read_batch, r.has_blocks, r.has_hashes, r.text, r.whole)
      (ap (λ st. read_batches plan table hash_column number_column batches st)
          (read_rows-push_all plan.from_block r.numbers r.hashes (column_of batch number_column)
            (rows_of batch) state)
        ∙ read_batches-push_all plan table hash_column number_column batches readable.1
            (push_all plan.from_block state here)
        ∙ ap ok (
            sym (
              push_all-append plan.from_block state here
                (all_statements table hash_column number_column batches readable.1))))
