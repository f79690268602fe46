-- ===== src/Predicate/LeftOut.antt =====
-- src/scan/predicate.rs: groups of filters without those that are proved.
use sqd_query_engine.Prelude.{
  all-map, Bool, true, false, ◌&&◌, ◌||◌, not, List, [], ◌∷◌, map, any, all, All, keep, Option,
  none, some, ◌≡◌, arith, refl, sym, ◌∙◌, ap, ap₂, Bool-cases, inl, inr, &&_iff,
}
use sqd_query_engine.Predicate.Mask.{or_all}
use sqd_query_engine.Predicate.Kept.{is_masked, is_masked-and_all, is_masked-or_all}
use sqd_query_engine.Predicate.Column.{Array, Libraries, evaluate}
use sqd_query_engine.Predicate.Row.{
  ColumnPredicate, Batch, is_nil, column_masks, evaluate_all, evaluate_row, with_alternatives,
}
use sqd_query_engine.Predicate.Groups.{is_masked-and_masks}

module _ (lib : Libraries) (batch : Batch) where
  -- Whether the batch's column has a type that the filter reads.
  abbrev pub column_reads : ColumnPredicate → Bool
  column_reads c = elim (batch.column_by_name c.column) [
    | none ↦ true
    | some array ↦ is_masked (evaluate lib c.predicate array)
  ]

  all-column_reads :
      (columns : List ColumnPredicate)
      → all is_masked (column_masks lib columns batch) ≡ all column_reads columns
  unfolding column_masks
  all-column_reads [] = refl
  all-column_reads (c ∷ columns) = step (all-column_reads columns) (batch.column_by_name c.column)
    where
      step :
          all is_masked (column_masks lib columns batch) ≡ all column_reads columns
          → (o : Option Array)
          → all is_masked (elim o [
            | none ↦ column_masks lib columns batch
            | some array ↦ evaluate lib c.predicate array ∷ column_masks lib columns batch
          ])
            ≡ (elim o [ none ↦ true | some array ↦ is_masked (evaluate lib c.predicate array) ]
                && all column_reads columns)
      step rest none = rest
      step rest (some array) = ap (λ t. is_masked (evaluate lib c.predicate array) && t) rest

  is_masked-evaluate_all :
      (columns : List ColumnPredicate)
      → is_masked (evaluate_all lib columns batch) ≡ all column_reads columns
  unfolding evaluate_all
  is_masked-evaluate_all columns =
      is_masked-and_all batch.num_rows (column_masks lib columns batch) ∙ all-column_reads columns

  -- The filter answers where it reads every column.
  pub is_masked-evaluate_row :
      (columns : List ColumnPredicate) (groups : List (List ColumnPredicate))
      → is_masked (evaluate_row lib (with_alternatives columns groups) batch)
        ≡ (all column_reads columns && all (all column_reads) groups)
  unfolding evaluate_row with_alternatives
  is_masked-evaluate_row columns [] = is_masked-evaluate_all columns ∙ ground arith
  is_masked-evaluate_row columns (g ∷ groups) =
      is_masked-and_masks (evaluate_all lib columns batch)
        (or_all batch.num_rows (map (λ group. evaluate_all lib group batch) (g ∷ groups)))
      ∙ ap₂ (λ a b. a && b) (is_masked-evaluate_all columns)
          (is_masked-or_all batch.num_rows
              (map (λ group. evaluate_all lib group batch) (g ∷ groups))
            ∙ all-map is_masked (λ group. evaluate_all lib group batch) (all column_reads)
                (g ∷ groups) is_masked-evaluate_all)

-- To leave out filters that hold changes no conjunction.
module _ {A : Type 0} (holds left_out : A → Bool) where
  -- One that is left out holds.
  abbrev AreHeld : A → Type 0
  AreHeld x = left_out x ≡ true → holds x ≡ true

  kept_first :
      (x : A) (xs : List A)
      → left_out x ≡ false
      → keep (λ x. not (left_out x)) (x ∷ xs) ≡ x ∷ keep (λ x. not (left_out x)) xs
  kept_first x xs e = split (left_out x) e
    where
      split :
          (b : Bool)
          → b ≡ false
          → (elim (not b) [
            | true ↦ x ∷ keep (λ x. not (left_out x)) xs
            | false ↦ keep (λ x. not (left_out x)) xs
          ])
            ≡ x ∷ keep (λ x. not (left_out x)) xs
      split true e = absurd (ground arith)
      split false e = refl

  left_out_first :
      (x : A) (xs : List A)
      → left_out x ≡ true
      → keep (λ x. not (left_out x)) (x ∷ xs) ≡ keep (λ x. not (left_out x)) xs
  left_out_first x xs e = split (left_out x) e
    where
      split :
          (b : Bool)
          → b ≡ true
          → (elim (not b) [
            | true ↦ x ∷ keep (λ x. not (left_out x)) xs
            | false ↦ keep (λ x. not (left_out x)) xs
          ])
            ≡ keep (λ x. not (left_out x)) xs
      split true e = refl
      split false e = absurd (ground arith)

  pub all-unproven :
      (xs : List A) → All AreHeld xs → all holds (keep (λ x. not (left_out x)) xs) ≡ all holds xs
  all-unproven [] h = refl
  all-unproven (x ∷ xs) h = elim (Bool-cases (left_out x)) [
    | inl e ↦ rw (left_out_first x xs e, h.0 e) (all-unproven xs h.1)
    | inr e ↦ rw (kept_first x xs e) (ap (λ t. holds x && t) (all-unproven xs h.1))
  ]

  pub all-subset :
      (xs : List A) → all holds xs ≡ true → all holds (keep (λ x. not (left_out x)) xs) ≡ true
  all-subset [] e = refl
  all-subset (x ∷ xs) e =
      let both = (&&_iff (holds x) (all holds xs)).0 e in
      elim (Bool-cases (left_out x)) [
        | inl e ↦ rw (left_out_first x xs e) (all-subset xs both.1)
        | inr e ↦ rw (kept_first x xs e, both.0) (all-subset xs both.1)
      ]

  abbrev pub groups_left : List (List A) → List (List A)
  groups_left groups = map (keep (λ x. not (left_out x))) groups

  pub all-groups_left :
      (groups : List (List A))
      → all (all holds) groups ≡ true
      → all (all holds) (groups_left groups) ≡ true
  all-groups_left [] e = refl
  all-groups_left (g ∷ groups) e =
      let both = (&&_iff (all holds g) (all (all holds) groups)).0 e in
      rw (all-subset g both.0, all-groups_left groups both.1) refl

  pub any-groups_left :
      (groups : List (List A))
      → All (All AreHeld) groups
      → any (all holds) (groups_left groups) ≡ any (all holds) groups
  any-groups_left [] h = refl
  any-groups_left (g ∷ groups) h =
      ap₂ (λ a b. a || b) (all-unproven g h.0) (any-groups_left groups h.1)

  -- A group with every filter left out holds.
  pub any-holds :
      (groups : List (List A))
      → All (All AreHeld) groups
      → any is_nil (groups_left groups) ≡ true
      → any (all holds) groups ≡ true
  any-holds [] h e = absurd (ground arith)
  any-holds (g ∷ groups) h e = elim (Bool-cases (is_nil (keep (λ x. not (left_out x)) g))) [
    | inl none_left ↦ rw (sym (all-unproven g h.0) ∙ all-nil _ none_left) refl
    | inr some_left ↦ ground (
      arith,
      any-holds groups h.1 (sym (ap (λ t. t || any is_nil (groups_left groups)) some_left) ∙ e),
    )
  ]
    where
      all-nil : (xs : List A) → is_nil xs ≡ true → all holds xs ≡ true
      all-nil [] e = refl
      all-nil (x ∷ xs) e = absurd (ground arith)

  pub is_nil-groups_left : (groups : List (List A)) → is_nil (groups_left groups) ≡ is_nil groups
  is_nil-groups_left [] = refl
  is_nil-groups_left (g ∷ groups) = refl
