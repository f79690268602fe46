-- ===== src/Join/Hierarchical/Index.antt =====
-- The masks of a hierarchical join against a nested loop over the rows of both sides.
use sqd_query_engine.Prelude.Words.{to_le_bytes}
use Prim.Native.String.{String}
use sqd_query_engine.Prelude.{
  ℕ, Bool, true, false, ◌&&◌, ◌||◌, Option, none, some, List, [], ◌∷◌, ◌++◌, if◌then◌else◌, any,
  All, ◌≡◌, arith, refl, sym, ap, ap₂, ◌∙◌, Option-cases, Bool-cases, Bool_ext, inl, inr,
}
use sqd_query_engine.Arrow.{Column, RecordBatch}
use sqd_query_engine.Error.{ok, err}
use sqd_query_engine.Integers.{is_integer, stored_key}
use sqd_query_engine.Join.{same, rows_of, resolve_indices}
use sqd_query_engine.Join.Semi.Keys.{same_iff}
use sqd_query_engine.Join.Semi.Masks.{any-append}
use sqd_query_engine.Join.Hierarchical.{
  SourceAddresses, extract_address, make_group_key, address_column, push_address, addresses_at,
  index_rows, index_sources,
}

-- The group columns of a batch are there and hold integers, and its address column is a list.
pub record Layout (batch : RecordBatch) (keys : List String) (address : String) : Type 0 where
  pub key_indices : List ℕ
  pub column : Column
  pub resolved : resolve_indices batch keys ≡ ok key_indices
  pub integers : All (λ i. is_integer (batch.column i).data_type ≡ true) key_indices
  pub found : address_column batch address ≡ ok column

-- The key of a row's group, where none of its columns is null.
abbrev pub group_key : RecordBatch → ℕ → List ℕ → Option (List ℕ)
group_key batch row [] = some []
group_key batch row (i ∷ rest) =
    let column = batch.column i in
    if column.is_null row then none else elim (group_key batch row rest) [
      | none ↦ none
      | some bytes ↦ some (to_le_bytes 8 (stored_key (column.int_value row)) ++ bytes)
    ]

-- The group and the address of a row that has both.
abbrev pub place : RecordBatch → List ℕ → Column → ℕ → Option (List ℕ × List ℕ)
place batch key_indices column row =
    if column.is_null row then none else elim (group_key batch row key_indices) [
      | none ↦ none
      | some key ↦ some (key, extract_address column row)
    ]

abbrev pub place_of : RecordBatch → List String → String → ℕ → Option (List ℕ × List ℕ)
place_of batch keys address row = elim (resolve_indices batch keys) [
  | err _ ↦ none
  | ok key_indices ↦ elim (address_column batch address) [
    | err _ ↦ none
    | ok column ↦ place batch key_indices column row
  ]
]

module _ (related : List ℕ → List ℕ → Bool) where
  -- Whether a source row is in a group and has a related address.
  abbrev pub relates : List ℕ → List ℕ → Option (List ℕ × List ℕ) → Bool
  relates key target none = false
  relates key target (some (k, source)) = same k key && related target source

  abbrev pub some_source : List RecordBatch → List String → String → List ℕ → List ℕ → Bool
  some_source batches keys address key target =
      any
        (λ batch. any (λ row. relates key target (place_of batch keys address row)) (rows_of batch))
        batches

  -- Whether a target row has a source row of its group that is related to it.
  abbrev pub answers : List RecordBatch → List String → String → Option (List ℕ × List ℕ) → Bool
  answers batches keys address none = false
  answers batches keys address (some (key, target)) = some_source batches keys address key target

  -- Whether the index has a related address under a key.
  unfoldable pub any_at : SourceAddresses → List ℕ → List ℕ → Bool
  any_at index key target = elim (addresses_at index key) [
    | none ↦ false
    | some addresses ↦ any (related target) addresses
  ]

  same_trans : (k l key : List ℕ) → same k l ≡ true → same k key ≡ same l key
  same_trans k l key h = ap (λ x. same x key) ((same_iff k l).0 h)

  same_apart : (l k key : List ℕ) → same l k ≡ false → same l key ≡ true → same k key ≡ false
  same_apart l k key apart equal =
      sym (ap (λ x. same k x) ((same_iff l key).0 equal)) ∙ swapped ∙ apart
    where
      swapped : same k l ≡ same l k
      swapped = Bool_ext (same k l) (same l k) (
        λ h. (same_iff l k).1 (sym ((same_iff k l).0 h)),
        λ h. (same_iff k l).1 (sym ((same_iff l k).0 h)),
      )

  any_at-push_address :
      (index : SourceAddresses) (k source key target : List ℕ)
      → any_at (push_address index k source) key target
        ≡ (any_at index key target || (same k key && related target source))
  unfolding any_at push_address addresses_at
  any_at-push_address [] k source key target = ground arith
  any_at-push_address ((l, addresses) ∷ rest) k source key target =
      let ih = any_at-push_address rest k source key target in
      elim (Bool-cases (same l k)) [
        | inl equal ↦ elim (Bool-cases (same l key)) [
          | inl here ↦
              let too : same k key ≡ true = sym (same_trans l k key equal) ∙ here in
              rw (equal, any_at, here, too)
                (any-append (related target) addresses (source ∷ [])
                  ∙ last (any (related target) addresses) (related target source))
          | inr other ↦
              let neither : same k key ≡ false = sym (same_trans l k key equal) ∙ other in
              rw (equal, any_at, other, neither) (or_false (any_at rest key target))
        ]
        | inr differ ↦ elim (Bool-cases (same l key)) [
          | inl here ↦
              rw (differ, any_at, here, same_apart l k key differ here)
                (or_false (any (related target) addresses))
          | inr other ↦ rw (differ, any_at, other) ih
        ]
      ]
    where
      last : (a b : Bool) → (a || (b || false)) ≡ (a || (true && b))
      last a b = ground arith

      or_false : (a : Bool) → a ≡ (a || false)
      or_false a = ground arith

  or_assoc : (a b c : Bool) → ((a || b) || c) ≡ (a || (b || c))
  or_assoc a b c = ground arith

  pub make_group_key-group_key :
      (batch : RecordBatch) (row : ℕ) (is : List ℕ)
      → All (λ i. is_integer (batch.column i).data_type ≡ true) is
      → make_group_key batch row is ≡ ok (group_key batch row is)
  unfolding make_group_key
  make_group_key-group_key batch row [] h = refl
  make_group_key-group_key batch row (i ∷ is) h = elim (Bool-cases ((batch.column i).is_null row)) [
    | inl null ↦ rw (h.0, null) refl
    | inr held ↦ rw (h.0, held, make_group_key-group_key batch row is h.1) refl
  ]

  -- After some rows of a batch, the index has what it had and what the rows relate.
  index_rows-relates :
      (batch : RecordBatch) (is : List ℕ) (column : Column)
      → All (λ i. is_integer (batch.column i).data_type ≡ true) is
      → (rows : List ℕ) (index : SourceAddresses)
      → (index' : SourceAddresses) × (index_rows batch is column rows index ≡ ok index')
        × ((key target : List ℕ)
            → any_at index' key target ≡ (
                any_at index key target
                || any (λ row. relates key target (place batch is column row)) rows))
  unfolding index_rows
  index_rows-relates batch is column h [] index = (index, refl, λ key target. ground arith)
  index_rows-relates batch is column h (row ∷ rows) index =
      let grouped = make_group_key-group_key batch row is h in
      elim (Bool-cases (column.is_null row)) [
        | inl null ↦ rw null (index_rows-relates batch is column h rows index)
        | inr held ↦ elim (Option-cases (group_key batch row is)) [
          | inl never ↦ rw (held, grouped, never) (index_rows-relates batch is column h rows index)
          | inr (key', known) ↦
              let source = extract_address column row in
              let (index', done, related_to) =
                index_rows-relates batch is column h rows (push_address index key' source) in
              (
                index',
                rw (held, grouped, known) done,
                λ key target.
                    rw (held, known)
                      (related_to key target
                        ∙ rw (any_at-push_address index key' source key target) (
                            or_assoc (any_at index key target)
                              (same key' key && related target source)
                              (any (λ row. relates key target (place batch is column row)) rows))),
              )
        ]
      ]

  any_ext : (f g : ℕ → Bool) → ((i : ℕ) → f i ≡ g i) → (is : List ℕ) → any f is ≡ any g is
  any_ext f g h [] = refl
  any_ext f g h (i ∷ is) = ap₂ (λ a b. a || b) (h i) (any_ext f g h is)

  pub place_of-place :
      (batch : RecordBatch) (keys : List String) (address : String)
      (layout : Layout batch keys address) (row : ℕ)
      → place_of batch keys address row ≡ place batch layout.key_indices layout.column row
  place_of-place batch keys address layout row = rw (place_of, layout.resolved, layout.found) refl

  pub index_sources-some_source :
      (batches : List RecordBatch) (keys : List String) (address : String)
      → All (λ b. Layout b keys address) batches
      → (index : SourceAddresses)
      → (index' : SourceAddresses) × (index_sources batches keys address index ≡ ok index')
        × ((key target : List ℕ)
            → any_at index' key target
              ≡ (any_at index key target || some_source batches keys address key target))
  unfolding index_sources
  index_sources-some_source [] keys address h index = (index, refl, λ key target. ground arith)
  index_sources-some_source (batch ∷ batches) keys address h index =
      let layout = h.0 in
      let (middle, read, one) =
        index_rows-relates batch layout.key_indices layout.column layout.integers (rows_of batch)
          index in
      let (index', rest, all) = index_sources-some_source batches keys address h.1 middle in
      (
        index',
        rw (layout.resolved, layout.found, read) rest,
        λ key target.
            all key target
            ∙ ap (λ x. x || some_source batches keys address key target) (one key target)
            ∙ or_assoc (any_at index key target)
                (any (λ row. relates key target (place batch layout.key_indices layout.column row))
                  (rows_of batch))
                (some_source batches keys address key target)
            ∙ ap
                (λ x. any_at index key target || (x || some_source batches keys address key target))
                (any_ext
                  (λ row. relates key target (place batch layout.key_indices layout.column row))
                  (λ row. relates key target (place_of batch keys address row))
                  (λ row.
                    ap (relates key target) (sym (place_of-place batch keys address layout row)))
                  (rows_of batch)),
      )
