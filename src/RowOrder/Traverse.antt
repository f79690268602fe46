-- ===== src/RowOrder/Traverse.antt =====
-- Lists whose elements all answer, as `collect::<Option<_>>()` of src/output/row_order.rs has them.
use sqd_query_engine.Prelude.{
  get_elem?-map, lift, some-inj, ℕ, zero, suc, Bool, true, &&_iff, Option, none, some, List, [],
  ◌∷◌, map, length, get_elem?, get_or, all, ◌≡◌, refl, ap, sym, ◌∙◌,
}
use sqd_query_engine.RowOrder.{traverse}

module _ {A : Type 0} where
  pub get_elem?-get_or :
      (xs : List A) (i : ℕ) (x d : A) → get_elem? xs i ≡ some x → get_or xs i d ≡ x
  get_elem?-get_or [] i x d h = absurd (cc)
  get_elem?-get_or (y ∷ xs) zero x d h = some-inj h
  get_elem?-get_or (y ∷ xs) (suc i) x d h = get_elem?-get_or xs i x d h

  pub get_elem?-map-some :
      {B : Type 0} (f : A → B) (xs : List A) (i : ℕ) (x : A)
      → get_elem? xs i ≡ some x
      → get_elem? (map f xs) i ≡ some (f x)
  get_elem?-map-some f xs i x h = get_elem?-map f xs i ∙ ap (lift f) h

  pub all-get_elem? :
      (p : A → Bool) (xs : List A) (i : ℕ) (x : A)
      → all p xs ≡ true
      → get_elem? xs i ≡ some x
      → p x ≡ true
  all-get_elem? p [] i x h e = absurd (cc)
  all-get_elem? p (y ∷ xs) zero x h e = ap p (sym (some-inj e)) ∙ ((&&_iff (p y) (all p xs)).0 h).0
  all-get_elem? p (y ∷ xs) (suc i) x h e =
      all-get_elem? p xs i x ((&&_iff (p y) (all p xs)).0 h).1 e

  -- All elements answer where the list does.
  pub traverse-cons_some :
      {B : Type 0} (f : A → Option B) (x : A) (xs : List A) (ys : List B)
      → traverse f (x ∷ xs) ≡ some ys
      → (y : B) × (zs : List B) × (f x ≡ some y) × (traverse f xs ≡ some zs) × (y ∷ zs ≡ ys)
  traverse-cons_some {B} f x xs ys h = by_parts (f x) (traverse f xs) refl refl h
    where
      by_parts :
          (o : Option B) (os : Option (List B))
          → f x ≡ o
          → traverse f xs ≡ os
          → (elim o as (λ _. Option (List B)) [
            | none ↦ none
            | some y ↦ elim os [ none ↦ none | some zs ↦ some (y ∷ zs) ]
          ])
            ≡ some ys
          → (y : B) × (zs : List B) × (f x ≡ some y) × (traverse f xs ≡ some zs) × (y ∷ zs ≡ ys)
      by_parts none os eo es e = absurd (cc)
      by_parts (some y) none eo es e = absurd (cc)
      by_parts (some y) (some zs) eo es e = (y, zs, eo, es, some-inj e)

  pub traverse-get_elem? :
      {B : Type 0} (f : A → Option B) (xs : List A) (ys : List B) (i : ℕ) (x : A)
      → traverse f xs ≡ some ys
      → get_elem? xs i ≡ some x
      → (y : B) × (f x ≡ some y) × (get_elem? ys i ≡ some y)
  traverse-get_elem? f [] ys i x h e = absurd (cc)
  traverse-get_elem? f (z ∷ xs) ys zero x h e =
      let (y, zs, ey, es, eys) = traverse-cons_some f z xs ys h in
      (y, ap f (sym (some-inj e)) ∙ ey, ap (λ l. get_elem? l 0) (sym eys))
  traverse-get_elem? f (z ∷ xs) ys (suc i) x h e =
      let (y, zs, ey, es, eys) = traverse-cons_some f z xs ys h in
      let (w, ew, at) = traverse-get_elem? f xs zs i x es e in
      (w, ew, ap (λ l. get_elem? l (suc i)) (sym eys) ∙ at)

  pub length-traverse :
      {B : Type 0} (f : A → Option B) (xs : List A) (ys : List B)
      → traverse f xs ≡ some ys
      → length ys ≡ length xs
  length-traverse f [] ys h = ap length (sym (some-inj h))
  length-traverse f (x ∷ xs) ys h =
      let (y, zs, ey, es, eys) = traverse-cons_some f x xs ys h in
      ap length (sym eys) ∙ ap suc (length-traverse f xs zs es)
