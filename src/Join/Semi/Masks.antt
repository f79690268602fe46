-- ===== src/Join/Semi/Masks.antt =====
-- The masks of a semi-join against a nested loop over the rows of both sides.
use Prim.Native.String.{String}
use sqd_query_engine.Prelude.{
  ℕ, zero, suc, Bool, false, ◌||◌, Option, none, some, List, [], ◌∷◌, ◌++◌, map, if◌then◌else◌, any,
  All, replicate, range_from, ◌≡◌, arith, refl, sym, ap, ap₂, ◌∙◌, Option-cases, inl, inr,
}
use sqd_query_engine.Arrow.{RecordBatch}
use sqd_query_engine.Error.{Result, ok, err, collect}
use sqd_query_engine.Selection.{is_empty}
use sqd_query_engine.Join.{same, no_rows, rows_of}
use sqd_query_engine.Join.Semi.{
  TypedExtractor, write_key, extractors_of, insert_keys, build_key_set, matches, probe_mask,
  semi_join_masks,
}

-- The key columns of a batch are there, at types that keys can be made of.
abbrev pub Resolves : RecordBatch → List String → Type 0
Resolves batch names = (es : List TypedExtractor) × (extractors_of batch names ≡ ok es)

-- The key of a row, where it has one.
abbrev pub key_of : RecordBatch → List String → ℕ → Option (List ℕ)
key_of batch names row = elim (extractors_of batch names) [
  | err _ ↦ none
  | ok es ↦ write_key batch row es
]

abbrev pub has : List ℕ → Option (List ℕ) → Bool
has key none = false
has key (some key') = same key key'

-- Whether some row of some batch has a key.
abbrev pub some_row_has : List ℕ → List RecordBatch → List String → Bool
some_row_has key batches names =
    any (λ batch. any (λ row. has key (key_of batch names row)) (rows_of batch)) batches

-- Whether a probe row has a key that some row of the build side has.
abbrev pub joined : List RecordBatch → List String → RecordBatch → List String → ℕ → Bool
joined build_batches build_key batch probe_key row = elim (key_of batch probe_key row) [
  | none ↦ false
  | some key ↦ some_row_has key build_batches build_key
]

pub any-append {ℓ} :
    {A : Type ℓ} (p : A → Bool) (xs ys : List A) → any p (xs ++ ys) ≡ (any p xs || any p ys)
any-append p [] ys = refl
any-append p (x ∷ xs) ys = ground (arith, any-append p xs ys)

pub map_ext {ℓ κ} :
    {A : Type ℓ} {B : Type κ} (f g : A → B)
    → ((x : A) → f x ≡ g x)
    → (xs : List A) → map f xs ≡ map g xs
map_ext f g h [] = refl
map_ext f g h (x ∷ xs) = ap₂ (λ a b. a ∷ b) (h x) (map_ext f g h xs)

pub collect-map {ℓ κ μ} :
    {A : Type ℓ} {B : Type κ} (P : A → Type μ) (f : A → Result B) (g : A → B)
    → ((x : A) → P x → f x ≡ ok (g x))
    → (xs : List A) → All P xs
    → collect f xs ≡ ok (map g xs)
collect-map P f g h [] all = refl
collect-map P f g h (x ∷ xs) all = rw (h x all.0, collect-map P f g h xs all.1) refl

any-insert_keys :
    (key : List ℕ) (batch : RecordBatch) (es : List TypedExtractor) (rows : List ℕ)
    → any (same key) (insert_keys batch es rows)
      ≡ any (λ row. has key (write_key batch row es)) rows
unfolding insert_keys
any-insert_keys key batch es [] = refl
any-insert_keys key batch es (row ∷ rows) = elim (Option-cases (write_key batch row es)) [
  | inl null ↦ rw (insert_keys, null) (any-insert_keys key batch es rows)
  | inr (k, found) ↦
      rw (insert_keys, found) (ap (λ b. same key k || b) (any-insert_keys key batch es rows))
]

-- The key set has a key exactly where some row of the build side has it.
build_key_set-some_row_has :
    (batches : List RecordBatch) (names : List String)
    → All (λ b. Resolves b names) batches
    → (keys : List (List ℕ)) × (build_key_set batches names ≡ ok keys)
      × ((key : List ℕ) → any (same key) keys ≡ some_row_has key batches names)
unfolding build_key_set
build_key_set-some_row_has [] names h = ([], refl, λ key. refl)
build_key_set-some_row_has (batch ∷ batches) names h =
    let (es, resolved) = h.0 in
    let (keys, built, members) = build_key_set-some_row_has batches names h.1 in
    (
      insert_keys batch es (rows_of batch) ++ keys,
      rw (resolved, built) refl,
      λ key.
          rw (some_row_has, key_of, resolved)
            (any-append (same key) (insert_keys batch es (rows_of batch)) keys
              ∙ ap₂ (λ a b. a || b) (any-insert_keys key batch es (rows_of batch)) (members key)),
    )

probe_mask-joined :
    (build_batches : List RecordBatch) (build_key : List String) (keys : List (List ℕ))
    → ((key : List ℕ) → any (same key) keys ≡ some_row_has key build_batches build_key)
    → (probe_key : List String) (batch : RecordBatch) → Resolves batch probe_key
    → probe_mask keys probe_key batch
      ≡ ok (map (joined build_batches build_key batch probe_key) (rows_of batch))
unfolding probe_mask matches
probe_mask-joined build_batches build_key keys members probe_key batch (es, resolved) =
    rw resolved (
      ap ok (
        map_ext (matches keys batch es) (joined build_batches build_key batch probe_key) agree
          (rows_of batch)))
  where
    agree :
        (row : ℕ) → matches keys batch es row ≡ joined build_batches build_key batch probe_key row
    agree row =
        rw (joined, key_of, resolved)
          (elim (Option-cases (write_key batch row es)) [
            | inl null ↦ rw (matches, null) refl
            | inr (key, found) ↦ rw (matches, found) (members key)
          ])

pub map-replicate {ℓ} :
    {B : Type ℓ} (f : ℕ → B) (b : B)
    → ((i : ℕ) → f i ≡ b)
    → (lo n : ℕ) → map f (range_from lo n) ≡ replicate n b
map-replicate f b h lo zero = refl
map-replicate f b h lo (suc n) = ap₂ (λ x y. x ∷ y) (h lo) (map-replicate f b h (suc lo) n)

-- Where no key is on the build side, no row is joined.
nothing_joined :
    (build_batches : List RecordBatch) (build_key : List String)
    → ((key : List ℕ) → some_row_has key build_batches build_key ≡ false)
    → (probe_key : List String) (probe_batches : List RecordBatch)
    → no_rows probe_batches
      ≡ map
          (λ batch. map (joined build_batches build_key batch probe_key) (rows_of batch))
          probe_batches
unfolding no_rows
nothing_joined build_batches build_key empty probe_key [] = refl
nothing_joined build_batches build_key empty probe_key (batch ∷ batches) =
    ap₂ (λ x y. x ∷ y)
      (sym (
        map-replicate (joined build_batches build_key batch probe_key) false none_matches 0
          batch.num_rows))
      (nothing_joined build_batches build_key empty probe_key batches)
  where
    none_matches : (row : ℕ) → joined build_batches build_key batch probe_key row ≡ false
    none_matches row = elim (Option-cases (key_of batch probe_key row)) [
      | inl null ↦ rw (joined, null) refl
      | inr (key, found) ↦ rw (joined, found) (empty key)
    ]

-- Where the key columns of both sides can be read, a semi-join returns; and the mask of each
-- probe batch says of each row whether it has a key, without a null, that some row of the build
-- side has: the same as a nested loop, also where it returns early.
pub semi_join_masks-joined :
    (build_batches : List RecordBatch) (build_key : List String) (probe_batches : List RecordBatch)
    (probe_key : List String)
    → All (λ b. Resolves b build_key) build_batches
    → All (λ b. Resolves b probe_key) probe_batches
    → semi_join_masks build_batches build_key probe_batches probe_key
      ≡ ok (
          map
            (λ batch. map (joined build_batches build_key batch probe_key) (rows_of batch))
            probe_batches)
unfolding semi_join_masks
semi_join_masks-joined [] build_key probe_batches probe_key hb hp =
    ap ok (nothing_joined [] build_key (λ key. refl) probe_key probe_batches)
semi_join_masks-joined (b ∷ bs) build_key [] probe_key hb hp = unfold no_rows in refl
semi_join_masks-joined (b ∷ bs) build_key (p ∷ ps) probe_key hb hp =
    let (keys, built, members) = build_key_set-some_row_has (b ∷ bs) build_key hb in
    rw built (by_keys keys members)
  where
    by_keys :
        (keys : List (List ℕ))
        → ((key : List ℕ) → any (same key) keys ≡ some_row_has key (b ∷ bs) build_key)
        → (if is_empty keys
            then ok (no_rows (p ∷ ps))
            else collect (probe_mask keys probe_key) (p ∷ ps))
          ≡ ok (
              map
                (λ batch. map (joined (b ∷ bs) build_key batch probe_key) (rows_of batch))
                (p ∷ ps))
    by_keys [] members =
        ap ok (nothing_joined (b ∷ bs) build_key (λ key. sym (members key)) probe_key (p ∷ ps))
    by_keys (k ∷ keys) members =
        collect-map (λ batch. Resolves batch probe_key) (probe_mask (k ∷ keys) probe_key)
          (λ batch. map (joined (b ∷ bs) build_key batch probe_key) (rows_of batch))
          (probe_mask-joined (b ∷ bs) build_key (k ∷ keys) members probe_key) (p ∷ ps) hp
