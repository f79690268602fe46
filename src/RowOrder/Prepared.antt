-- ===== src/RowOrder/Prepared.antt =====
-- src/output/row_order.rs: the keys that are prepared of batches, against the columns.
use Prim.Native.String.{String}
use sqd_query_engine.Prelude.{
  some-inj, ℕ, Bool, true, false, not, &&_iff, Bool-cases, Option, none, some, List, [], ◌∷◌, map,
  if◌then◌else◌, length, length-map, get_elem?, get_or, all, ◌≡◌, refl, ap, ap₂, sym, subst, ◌∙◌,
  inl, inr, arith,
}
use sqd_query_engine.Arrow.{Column, DataType, RecordBatch, column_by_name}
use sqd_query_engine.RowOrder.Stored.{TypedKeys, SortKeys, compare_keys}
use sqd_query_engine.RowOrder.Pairs.{IsStoredAt}
use sqd_query_engine.RowOrder.Typed.{AllStored, SameData, by_columns, typed_keys-Agrees}
use sqd_query_engine.RowOrder.Resolved.{Agrees}
use sqd_query_engine.RowOrder.{
  resolve_sort_column, compare_resolved, resolve_batch, resolve_sort_columns, traverse, typed_keys,
  same_type, same_types, DataType-discrete, choose_form, keys_of, row_sort_keys, compare_at,
}
use sqd_query_engine.RowOrder.Traverse.{
  get_elem?-get_or, get_elem?-map-some, all-get_elem?, traverse-cons_some, traverse-get_elem?,
  length-traverse,
}
use sqd_query_engine.RowOrder.Forms.{choose_form-order}

-- A row of a batch, whose columns hold the row and values of their types.
abbrev pub IsRow : List RecordBatch → ℕ × ℕ → Type 0
IsRow batches (at, row) =
    (batch : RecordBatch) × (get_elem? batches at ≡ some batch)
    × ((name : String) (c : Column) → column_by_name batch name ≡ some c → IsStoredAt c row)

traverse-AllStored :
    (batch : RecordBatch) (names : List String) (cs : List Column) (row : ℕ)
    → traverse (column_by_name batch) names ≡ some cs
    → ((name : String) (c : Column) → column_by_name batch name ≡ some c → IsStoredAt c row)
    → AllStored cs row
traverse-AllStored batch [] cs row h stored = subst (λ l. AllStored l row) (some-inj h) tt
traverse-AllStored batch (name ∷ names) cs row h stored =
    let (c, rest, ec, er, e) = traverse-cons_some (column_by_name batch) name names cs h in
    subst (λ l. AllStored l row) e
      (stored name c ec, traverse-AllStored batch names rest row er stored)

resolve_batch-map :
    (batch : RecordBatch) (names : List String) (cs : List Column)
    → traverse (column_by_name batch) names ≡ some cs
    → resolve_batch names batch ≡ map resolve_sort_column cs
unfolding resolve_batch
resolve_batch-map batch [] cs h = ap (map resolve_sort_column) (some-inj h)
resolve_batch-map batch (name ∷ names) cs h =
    let (c, rest, ec, er, e) = traverse-cons_some (column_by_name batch) name names cs h in
    rw ec (ap (◌∷◌ (resolve_sort_column c)) (resolve_batch-map batch names rest er))
    ∙ ap (map resolve_sort_column) e

same_type-eq : (s t : DataType) → same_type s t ≡ true → s ≡ t
unfolding same_type
same_type-eq s t h = by_decision (DataType-discrete s t) h
  where
    by_decision :
        (d : Dec (s ≡ t)) → (elim d as (λ _. Bool) [ yes _ ↦ true | no _ ↦ false ]) ≡ true → s ≡ t
    by_decision (yes e) h = e
    by_decision (no n) h = absurd (cc)

same_types-SameData :
    (types : List DataType) (cs ds : List Column)
    → length types ≡ length cs
    → length types ≡ length ds
    → same_types types cs ≡ true
    → same_types types ds ≡ true
    → SameData cs ds
unfolding same_types
same_types-SameData [] [] [] lc ld hc hd = tt
same_types-SameData [] [] (d ∷ ds) lc ld hc hd = absurd (omega arith)
same_types-SameData [] (c ∷ cs) ds lc ld hc hd = absurd (omega arith)
same_types-SameData (t ∷ types) [] ds lc ld hc hd = absurd (omega arith)
same_types-SameData (t ∷ types) (c ∷ cs) [] lc ld hc hd = absurd (omega arith)
same_types-SameData (t ∷ types) (c ∷ cs) (d ∷ ds) lc ld hc hd =
    let (ct, hc') = (&&_iff (same_type c.data_type t) (same_types types cs)).0 hc in
    let (dt, hd') = (&&_iff (same_type d.data_type t) (same_types types ds)).0 hd in
    (
      same_type-eq c.data_type t ct ∙ sym (same_type-eq d.data_type t dt),
      same_types-SameData types cs ds (omega arith) (omega arith) hc' hd',
    )

typed_keys-nil : typed_keys [] ≡ none
unfolding typed_keys
typed_keys-nil = refl

columns_Agree :
    (cs ds : List Column) (a b : ℕ) (x y : TypedKeys)
    → SameData cs ds
    → AllStored cs a
    → AllStored ds b
    → typed_keys cs ≡ some x
    → typed_keys ds ≡ some y
    → Agrees x a y b (by_columns cs a ds b)
columns_Agree [] ds a b x y same hc hd hx hy = absurd (cc typed_keys-nil)
columns_Agree (c ∷ cs) [] a b x y same hc hd hx hy = elim same [ ]
columns_Agree (c ∷ cs) (d ∷ ds) a b x y same hc hd hx hy =
    typed_keys-Agrees c cs d ds a b x y same hc hd hx hy

keys_of-some :
    (batches : List RecordBatch) (names : List String) (types : List DataType) (k : SortKeys)
    → keys_of batches names types ≡ some k
    → (columns : List (List Column)) × (keys : List TypedKeys) × (traverse
          (λ batch. traverse (column_by_name batch) names)
          batches
        ≡ some columns)
      × (all (same_types types) columns ≡ true)
      × (traverse typed_keys columns ≡ some keys)
      × (choose_form keys ≡ k)
unfolding keys_of
keys_of-some batches names types k h =
    by_columns_of (traverse (λ batch. traverse (column_by_name batch) names) batches) refl h
  where
    by_keys :
        (columns : List (List Column)) (o : Option (List TypedKeys))
        → traverse typed_keys columns ≡ o
        → (elim o as (λ _. Option SortKeys) [ none ↦ none | some keys ↦ some (choose_form keys) ])
          ≡ some k
        → (keys : List TypedKeys) × (traverse typed_keys columns ≡ some keys)
          × (choose_form keys ≡ k)
    by_keys columns none e h = absurd (cc)
    by_keys columns (some keys) e h = (keys, e, some-inj h)

    by_columns_of :
        (o : Option (List (List Column)))
        → traverse (λ batch. traverse (column_by_name batch) names) batches ≡ o
        → (elim o as (λ _. Option SortKeys) [
          | none ↦ none
          | some columns ↦
              if not (all (same_types types) columns)
              then none
              else elim (traverse typed_keys columns) [
                | none ↦ none
                | some keys ↦ some (choose_form keys)
              ]
        ])
          ≡ some k
        → (columns : List (List Column)) × (keys : List TypedKeys) × (traverse
              (λ batch. traverse (column_by_name batch) names)
              batches
            ≡ some columns)
          × (all (same_types types) columns ≡ true)
          × (traverse typed_keys columns ≡ some keys)
          × (choose_form keys ≡ k)
    by_columns_of none e h = absurd (cc)
    by_columns_of (some columns) e h = elim (Bool-cases (all (same_types types) columns)) [
      | inl same ↦
          let (keys, ek, ec) = by_keys columns (traverse typed_keys columns) refl (rw same at h) in
          (columns, keys, e, same, ek, ec)
      | inr differ ↦ absurd (cc (rw differ at h))
    ]

row_sort_keys-some :
    (batches : List RecordBatch) (names : List String) (k : SortKeys)
    → row_sort_keys batches names ≡ some k
    → (types : List DataType) × (length types ≡ length names)
      × (keys_of batches names types ≡ some k)
unfolding row_sort_keys
row_sort_keys-some [] names k h = absurd (cc)
row_sort_keys-some (first ∷ rest) [] k h = absurd (cc)
row_sort_keys-some (first ∷ rest) (name ∷ names) k h =
    by_first (traverse (column_by_name first) (name ∷ names)) refl h
  where
    by_first :
        (o : Option (List Column))
        → traverse (column_by_name first) (name ∷ names) ≡ o
        → (elim o as (λ _. Option SortKeys) [
          | none ↦ none
          | some columns ↦
              keys_of (first ∷ rest) (name ∷ names) (map (λ (c : Column). c.data_type) columns)
        ])
          ≡ some k
        → (types : List DataType) × (length types ≡ length (name ∷ names))
          × (keys_of (first ∷ rest) (name ∷ names) types ≡ some k)
    by_first none e h = absurd (cc)
    by_first (some columns) e h = (
      map (λ (c : Column). c.data_type) columns,
      length-map (λ (c : Column). c.data_type) columns
          ∙ length-traverse (column_by_name first) (name ∷ names) columns e,
      h,
    )

-- Two rows compare by the keys that were prepared as they do column by column.
pub row_sort_keys-order :
    (batches : List RecordBatch) (names : List String) (k : SortKeys) (a b : ℕ × ℕ)
    → row_sort_keys batches names ≡ some k
    → IsRow batches a
    → IsRow batches b
    → compare_keys k a b
      ≡ compare_at (resolve_sort_columns batches names) a (resolve_sort_columns batches names) b
unfolding compare_at resolve_sort_columns
row_sort_keys-order batches names k (ba, ra) (bb, rb) h (batch_a, ea, sa) (batch_b, eb, sb) =
    let columns_at = λ (batch : RecordBatch). traverse (column_by_name batch) names in
    let (types, sized, hk) = row_sort_keys-some batches names k h in
    let (columns, keys, ec, same, ek, form) = keys_of-some batches names types k hk in
    let (cs, ecs, at_cs) = traverse-get_elem? columns_at batches columns ba batch_a ec ea in
    let (ds, eds, at_ds) = traverse-get_elem? columns_at batches columns bb batch_b ec eb in
    let (x, ex, at_x) = traverse-get_elem? typed_keys columns keys ba cs ek at_cs in
    let (y, ey, at_y) = traverse-get_elem? typed_keys columns keys bb ds ek at_ds in
    let same_data : SameData cs ds =
      same_types-SameData types cs ds
        (sized ∙ sym (length-traverse (column_by_name batch_a) names cs ecs))
        (sized ∙ sym (length-traverse (column_by_name batch_b) names ds eds))
        (all-get_elem? (same_types types) columns ba cs same at_cs)
        (all-get_elem? (same_types types) columns bb ds same at_ds) in
    ap (λ z. compare_keys z (ba, ra) (bb, rb)) (sym form)
    ∙ choose_form-order keys ba ra bb rb x y (by_columns cs ra ds rb) at_x at_y (
        columns_Agree cs ds ra rb x y same_data (traverse-AllStored batch_a names cs ra ecs sa)
          (traverse-AllStored batch_b names ds rb eds sb) ex ey)
    ∙ sym (
        ap₂ (λ p q. compare_resolved p ra q rb) (resolved_at ba batch_a cs ea ecs)
          (resolved_at bb batch_b ds eb eds))
  where
    resolved_at :
        (i : ℕ) (batch : RecordBatch) (cs : List Column)
        → get_elem? batches i ≡ some batch
        → traverse (column_by_name batch) names ≡ some cs
        → get_or (map (resolve_batch names) batches) i [] ≡ map resolve_sort_column cs
    resolved_at i batch cs e ecs =
        get_elem?-get_or (map (resolve_batch names) batches) i (resolve_batch names batch) []
          (get_elem?-map-some (resolve_batch names) batches i batch e)
        ∙ resolve_batch-map batch names cs ecs
