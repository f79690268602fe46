-- ===== src/BlockIndex/Built.antt =====
-- When the index of a page's rows is built, and when it is refused.
use Prim.Native.String.{String}
use sqd_query_engine.Prelude.{
  ℕ, suc, true, Bool, false, none, some, List, [], ◌∷◌, All, ◌⊎◌, inl, inr, ◌≡◌, arith, refl, ◌∙◌,
  ◌↔◌, Option-cases, range_from, ◌++◌,
}
use sqd_query_engine.Arrow.{Column, RecordBatch, column_by_name}
use sqd_query_engine.Error.{Result, ok, err, ◌>>=◌}
use sqd_query_engine.Error.Error.{engine}
use sqd_query_engine.Error.ErrorKind.{unsupported_key_type}
use sqd_query_engine.Integers.{width_of, is_integer}
use sqd_query_engine.BlockIndex.{BlockPositions, visits, batch_visits, build, compute_block_range}

-- A batch that has the column has integers in it.
abbrev pub HasNumbers : String → RecordBatch → Type 0
HasNumbers bn_column batch = elim (column_by_name batch bn_column) as (λ _. Type 0) [
  | none ↦ Unit
  | some column ↦ is_integer column.data_type ≡ true
]

-- Either the columns can be read and a result is returned, or they cannot and it is refused.
abbrev pub Decided {ℓ} : {A : Type ℓ} → String → List RecordBatch → Result A → Type ℓ
Decided {A = A} bn_column batches result =
    (All (HasNumbers bn_column) batches × (a : A) × (result ≡ ok a))
    ⊎ ((¬ All (HasNumbers bn_column) batches) × (result ≡ err (engine unsupported_key_type)))

lacks-HasNumbers :
    (bn_column : String) (batch : RecordBatch)
    → column_by_name batch bn_column ≡ none
    → HasNumbers bn_column batch
lacks-HasNumbers bn_column batch lacks = rw (HasNumbers, lacks) tt

has-HasNumbers :
    (bn_column : String) (batch : RecordBatch) (column : Column) (whole : Bool)
    → column_by_name batch bn_column ≡ some column
    → is_integer column.data_type ≡ whole
    → HasNumbers bn_column batch ↔ (whole ≡ true)
has-HasNumbers bn_column batch column whole has e = rw (HasNumbers, has, e) (λ h. h, λ h. h)

visits-Decided :
    (at : ℕ) (batches : List RecordBatch) (bn_column : String)
    → Decided bn_column batches (visits at batches bn_column)
unfolding visits is_integer
visits-Decided at [] bn_column = inl (tt, [], refl)
visits-Decided at (batch ∷ batches) bn_column =
    let rest = visits-Decided (suc at) batches bn_column in
    elim (Option-cases (column_by_name batch bn_column)) [
      | inl lacks ↦
          let here = lacks-HasNumbers bn_column batch lacks in
          let same : visits at (batch ∷ batches) bn_column ≡ visits (suc at) batches bn_column =
            rw (visits, lacks) refl in
          elim rest [
            | inl (all, vs, e) ↦ inl ((here, all), vs, same ∙ e)
            | inr (fails, e) ↦ inr (λ h. fails h.1, same ∙ e)
          ]
      | inr (column, has) ↦ elim (Option-cases (width_of column.data_type)) [
        | inl none_wide ↦
            let holds =
              has-HasNumbers bn_column batch column false has (rw (is_integer, none_wide) refl) in
            inr (λ h. false_true (holds.0 h.0), rw (visits, has, none_wide) refl)
        | inr (wide, found) ↦
            let holds =
              has-HasNumbers bn_column batch column true has (rw (is_integer, found) refl) in
            elim rest [
              | inl (all, vs, e) ↦ inl (
                (holds.1 refl, all),
                batch_visits at column wide.0 (range_from 0 column.len) ++ vs,
                rw (visits, has, found, e) refl,
              )
              | inr (fails, e) ↦ inr (λ h. fails h.1, rw (visits, has, found, e) refl)
            ]
      ]
    ]
  where
    false_true : ¬ (false ≡ true)
    false_true h = ground arith

Decided-then {ℓ κ} :
    {A : Type ℓ} {B : Type κ} (bn_column : String) (batches : List RecordBatch) (result : Result A)
    (f : A → B)
    → Decided bn_column batches result
    → Decided bn_column batches (result >>= λ a. ok (f a))
Decided-then bn_column batches result f (inl (all, a, e)) = inl (all, f a, rw e refl)
Decided-then bn_column batches result f (inr (fails, e)) = inr (fails, rw e refl)

-- The index of a page's rows and the range of its blocks are computed where every batch that has the
-- column holds integers in it; where one does not, both are refused, as a key type that is not
-- supported, whatever the batches before it hold.
pub build-Decided :
    (batches : List RecordBatch) (bn_column : String) (positions : BlockPositions)
    → Decided bn_column batches (build batches bn_column positions)
      × Decided bn_column batches (compute_block_range batches bn_column)
unfolding build compute_block_range
build-Decided batches bn_column positions =
    let read = visits-Decided 0 batches bn_column in
    (
      Decided-then bn_column batches (visits 0 batches bn_column) _ read,
      Decided-then bn_column batches (visits 0 batches bn_column) _ read,
    )
