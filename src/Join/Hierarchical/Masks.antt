-- ===== src/Join/Hierarchical/Masks.antt =====
-- The masks of a hierarchical join against a nested loop over the rows of both sides.
use Prim.Native.String.{String}
use sqd_query_engine.Prelude.{
  ℕ, Bool, false, Option, none, some, List, [], ◌∷◌, map, All, ◌≡◌, refl, sym, ap, ap₂,
  Option-cases, Bool-cases, inl, inr,
}
use sqd_query_engine.Arrow.{RecordBatch}
use sqd_query_engine.Error.{ok}
use sqd_query_engine.Join.{no_rows, rows_of}
use sqd_query_engine.Join.Semi.Masks.{collect-map, map-replicate}
use sqd_query_engine.Join.Hierarchical.{
  SourceAddresses, extract_address, addresses_at, probe_row, probe_batch, address_masks,
  children_masks, parents_masks, is_child, is_parent,
}
use sqd_query_engine.Join.Hierarchical.Index.{
  Layout, group_key, place_of, some_source, answers, any_at, make_group_key-group_key,
  place_of-place, index_sources-some_source,
}

module _ (related : List ℕ → List ℕ → Bool) where
  module _ (source_batches : List RecordBatch) (keys : List String) (source_address : String)
      (index : SourceAddresses)
      (indexed : (key target : List ℕ)
        → any_at related index key target
          ≡ some_source related source_batches keys source_address key target) where
    probe_row-answers :
        (batch : RecordBatch) (target_address : String) (layout : Layout batch keys target_address)
        (row : ℕ)
        → probe_row related index batch layout.key_indices layout.column row
          ≡ ok (
              answers related source_batches keys source_address
                (place_of batch keys target_address row))
    unfolding probe_row any_at
    probe_row-answers batch target_address layout row =
        let grouped =
          make_group_key-group_key related batch row layout.key_indices layout.integers in
        rw (place_of-place related batch keys target_address layout row)
          (elim (Bool-cases (layout.column.is_null row)) [
            | inl null ↦ rw null refl
            | inr held ↦ elim (Option-cases (group_key batch row layout.key_indices)) [
              | inl never ↦ rw (held, grouped, never) refl
              | inr (key, known) ↦
                  rw (held, grouped, known)
                    (ap ok (indexed key (extract_address layout.column row)))
            ]
          ])

    probe_batch-answers :
        (target_address : String) (batch : RecordBatch)
        → Layout batch keys target_address
        → probe_batch related index keys target_address batch
          ≡ ok (
              map
                (λ row.
                  answers related source_batches keys source_address
                    (place_of batch keys target_address row))
                (rows_of batch))
    unfolding probe_batch
    probe_batch-answers target_address batch layout =
        rw (layout.resolved, layout.found)
          (collect-map (λ row. Unit {0})
            (probe_row related index batch layout.key_indices layout.column)
            (λ row.
              answers related source_batches keys source_address
                (place_of batch keys target_address row))
            (λ row _. probe_row-answers batch target_address layout row) (rows_of batch)
            (all_rows (rows_of batch)))
      where
        all_rows : (rows : List ℕ) → All (λ row. Unit {0}) rows
        all_rows [] = tt
        all_rows (row ∷ rows) = (tt, all_rows rows)

  no_sources :
      (keys : List String) (source_address target_address : String) (batches : List RecordBatch)
      → no_rows batches
        ≡ map
            (λ batch.
              map
                (λ row.
                  answers related [] keys source_address (place_of batch keys target_address row))
                (rows_of batch))
            batches
  unfolding no_rows
  no_sources keys source_address target_address [] = refl
  no_sources keys source_address target_address (batch ∷ batches) =
      ap₂ (λ x y. x ∷ y)
        (sym (
          map-replicate
            (λ row. answers related [] keys source_address (place_of batch keys target_address row))
            false (λ row. never (place_of batch keys target_address row)) 0 batch.num_rows))
        (no_sources keys source_address target_address batches)
    where
      never : (p : Option (List ℕ × List ℕ)) → answers related [] keys source_address p ≡ false
      never none = refl
      never (some _) = refl

  -- The answer of each target row, whatever the test of two addresses.
  address_masks-answers :
      (source_batches target_batches : List RecordBatch) (keys : List String)
      (source_address target_address : String)
      → All (λ b. Layout b keys source_address) source_batches
      → All (λ b. Layout b keys target_address) target_batches
      → address_masks related source_batches target_batches keys source_address target_address
        ≡ ok (
            map
              (λ batch.
                map
                  (λ row.
                    answers related source_batches keys source_address
                      (place_of batch keys target_address row))
                  (rows_of batch))
              target_batches)
  unfolding address_masks
  address_masks-answers [] targets keys source_address target_address hs ht =
      ap ok (no_sources keys source_address target_address targets)
  address_masks-answers (s ∷ ss) [] keys source_address target_address hs ht =
      unfold no_rows in refl
  address_masks-answers (s ∷ ss) (t ∷ ts) keys source_address target_address hs ht =
      let (index, read, indexed) =
        index_sources-some_source related (s ∷ ss) keys source_address hs [] in
      rw read (
        collect-map (λ b. Layout b keys target_address)
          (probe_batch related index keys target_address)
          (λ batch.
            map
              (λ row.
                answers related (s ∷ ss) keys source_address
                  (place_of batch keys target_address row))
              (rows_of batch))
          (probe_batch-answers (s ∷ ss) keys source_address index
            (λ key target. (unfold any_at addresses_at in indexed key target)) target_address)
          (t ∷ ts) ht)

-- The masks by a nested loop over target and source rows.
abbrev pub nested :
    (List ℕ → List ℕ → Bool)
    → List RecordBatch
    → List RecordBatch
    → List String
    → String
    → String
    → List (List Bool)
nested related sources targets keys source_address target_address =
    map
      (λ batch.
        map
          (λ row.
            answers related sources keys source_address (place_of batch keys target_address row))
          (rows_of batch))
      targets

-- Where both sides have their columns, the searches for children and for parents return; and the
-- mask of each target batch says of each row whether some source row of the same group has an
-- address that passes the test, rows without a group or an address left out on both sides: the
-- same as a nested loop without an index.
pub children_masks-nested :
    (sources targets : List RecordBatch) (keys : List String)
    (source_address target_address : String) (inclusive : Bool)
    → All (λ b. Layout b keys source_address) sources
    → All (λ b. Layout b keys target_address) targets
    → (children_masks sources targets keys source_address target_address inclusive
        ≡ ok (nested (is_child inclusive) sources targets keys source_address target_address))
      × (parents_masks sources targets keys source_address target_address inclusive
          ≡ ok (nested (is_parent inclusive) sources targets keys source_address target_address))
unfolding children_masks parents_masks
children_masks-nested sources targets keys source_address target_address inclusive hs ht = (
  address_masks-answers (is_child inclusive) sources targets keys source_address target_address hs
      ht,
  address_masks-answers (is_parent inclusive) sources targets keys source_address target_address hs
      ht,
)
