-- ===== src/Predicate/Search.antt =====
-- The search of src/scan/predicate.rs in a sorted list of a filter's values: it finds whether one
-- of them lies between two bounds.
use sqd_query_engine.Prelude.{
  ℕ, Bool, true, false, ◌&&◌, ◌||◌, List, [], ◌∷◌, all, All, All-imp, ◌≡◌, arith, refl, sym, ◌∙◌,
  Bool-cases, inl, inr,
}
use sqd_query_engine.Prelude.Int.{ℤ, ltb_ℤ}
use sqd_query_engine.Predicate.Order.{
  insert_sorted, sort, partition_point_by, none_within, ltb_bytes, ltb_bytes-le_right,
  ltb_ℤ-le_right,
}

-- What the search needs of an order: below what is at most `b` is below `b`, and not both ways.
abbrev pub IsOrder : (A : Type 0) → (A → A → Bool) → Type 0
IsOrder A lt =
    ((a b c : A) → lt a b ≡ true → lt c b ≡ false → lt a c ≡ true)
    × ((a b : A) → lt a b ≡ true → lt b a ≡ false)

module _ {A : Type 0} (lt : A → A → Bool) (order : IsOrder A lt) where
  abbrev pub IsSorted : List A → Type 0
  IsSorted [] = Unit
  IsSorted (x ∷ xs) = All (λ y. lt y x ≡ false) xs × IsSorted xs

  All-insert_sorted :
      (P : A → Type 0) (x : A) (ys : List A) → P x → All P ys → All P (insert_sorted lt x ys)
  unfolding insert_sorted
  All-insert_sorted P x [] hx h = (hx, tt)
  All-insert_sorted P x (y ∷ ys) hx h = elim (Bool-cases (lt y x)) [
    | inl below ↦ rw below (h.0, All-insert_sorted P x ys hx h.1)
    | inr above ↦ rw above (hx, (h.0, h.1))
  ]

  insert_sorted-IsSorted : (x : A) (ys : List A) → IsSorted ys → IsSorted (insert_sorted lt x ys)
  unfolding insert_sorted
  insert_sorted-IsSorted x [] h = (tt, tt)
  insert_sorted-IsSorted x (y ∷ ys) h = elim (Bool-cases (lt y x)) [
    | inl below ↦ rw below (
      All-insert_sorted (λ z. lt z y ≡ false) x ys (order.1 y x below) h.0,
      insert_sorted-IsSorted x ys h.1,
    )
    | inr above ↦ rw above ((above, All-imp (λ z not_below. at_least z above not_below) ys h.0), h)
  ]
    where
      at_least : (z : A) → lt y x ≡ false → lt z y ≡ false → lt z x ≡ false
      at_least z above not_below = elim (Bool-cases (lt z x)) [
        | inl below ↦ absurd (ground (arith, order.0 z x y below above))
        | inr e ↦ e
      ]

  sort-IsSorted : (xs : List A) → IsSorted (sort lt xs)
  unfolding sort
  sort-IsSorted [] = tt
  sort-IsSorted (x ∷ xs) = insert_sorted-IsSorted x (sort lt xs) (sort-IsSorted xs)

  all-insert_sorted :
      (p : A → Bool) (x : A) (ys : List A) → all p (insert_sorted lt x ys) ≡ (p x && all p ys)
  unfolding insert_sorted
  all-insert_sorted p x [] = refl
  all-insert_sorted p x (y ∷ ys) = ground (arith, all-insert_sorted p x ys)

  all-sort : (p : A → Bool) (xs : List A) → all p (sort lt xs) ≡ all p xs
  unfolding sort
  all-sort p [] = refl
  all-sort p (x ∷ xs) = rw (all-insert_sorted p x (sort lt xs), all-sort p xs)

  all-true : (p : A → Bool) (xs : List A) → All (λ x. p x ≡ true) xs → all p xs ≡ true
  all-true p [] h = refl
  all-true p (x ∷ xs) h = rw (h.0, all-true p xs h.1)

  pub none_within-sorted :
      (low high : A) (xs : List A)
      → IsSorted xs
      → none_within (λ v. lt v low) (λ v. lt high v) xs ≡ all (λ v. lt v low || lt high v) xs
  unfolding none_within partition_point_by
  none_within-sorted low high [] h = refl
  none_within-sorted low high (x ∷ xs) h = elim (Bool-cases (lt x low)) [
    | inl below ↦ rw (none_within, below) (none_within-sorted low high xs h.1)
    | inr at_least ↦ elim (Bool-cases (lt high x)) [
      | inl above ↦
          rw (none_within, at_least, above, sym (all-true _ xs (All-imp (rest above) xs h.0)))
      | inr within ↦ rw (none_within, at_least, within)
    ]
  ]
    where
      rest : lt high x ≡ true → (y : A) → lt y x ≡ false → (lt y low || lt high y) ≡ true
      rest above y e = ground (arith, order.0 high x y above e)

  -- Of a sorted list, the search finds whether every value lies outside the two bounds.
  pub none_within-sort :
      (low high : A) (xs : List A)
      → none_within (λ v. lt v low) (λ v. lt high v) (sort lt xs)
        ≡ all (λ v. lt v low || lt high v) xs
  none_within-sort low high xs =
      none_within-sorted low high (sort lt xs) (sort-IsSorted xs)
      ∙ all-sort (λ v. lt v low || lt high v) xs

ltb_bytes-asymm : (a b : List ℕ) → ltb_bytes a b ≡ true → ltb_bytes b a ≡ false
unfolding ltb_bytes
ltb_bytes-asymm [] [] h = refl
ltb_bytes-asymm [] (b ∷ bs) h = refl
ltb_bytes-asymm (a ∷ as') [] h = absurd (ground arith)
ltb_bytes-asymm (a ∷ as') (b ∷ bs) h = ground (arith, ltb_bytes-asymm as' bs)

pub ltb_bytes-IsOrder : IsOrder (List ℕ) ltb_bytes
ltb_bytes-IsOrder = (ltb_bytes-le_right, ltb_bytes-asymm)

ltb_ℤ-asymm : (a b : ℤ) → ltb_ℤ a b ≡ true → ltb_ℤ b a ≡ false
ltb_ℤ-asymm a b h = ground arith

pub ltb_ℤ-IsOrder : IsOrder ℤ ltb_ℤ
ltb_ℤ-IsOrder = (ltb_ℤ-le_right, ltb_ℤ-asymm)
