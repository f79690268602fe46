-- ===== src/Predicate/Kept.antt =====
-- Which rows the masks of src/scan/predicate.rs keep: each combination of masks, row by row.
use sqd_query_engine.Prelude.{
  ℕ, zero, suc, ◌<◌, Bool, true, false, ◌&&◌, ◌||◌, Option, none, some, List, [], ◌∷◌, map,
  if◌then◌else◌, range_from, any, all, ◌≡◌, arith, refl, ltb, sym, ◌∙◌, ◌+◌, not, ap,
}
use sqd_query_engine.Arrow.{Column}
use sqd_query_engine.Predicate.Mask.{
  BooleanArray, Mask, masked, unsupported, all_rows, mask_nullable, mask_definite, and_row, or_row,
  and, or_kleene, fold_masks, and_all, or_all, answers_true, kept, keeps,
}

pub kept-and : (a b : BooleanArray) (i : ℕ) → kept (and a b) i ≡ (kept a i && kept b i)
unfolding and and_row
kept-and [] b i = refl
kept-and (a ∷ as') [] i = ground arith
kept-and (some x ∷ as') (some y ∷ bs) zero = ground arith
kept-and (none ∷ as') (y ∷ bs) zero = refl
kept-and (some x ∷ as') (none ∷ bs) zero = ground arith
kept-and (a ∷ as') (b ∷ bs) (suc i) = kept-and as' bs i

pub kept-or_kleene : (a b : BooleanArray) (i : ℕ) → kept (or_kleene a b) i ≡ (kept a i || kept b i)
unfolding or_kleene or_row
kept-or_kleene [] b i = refl
kept-or_kleene (a ∷ as') [] i = ground arith
kept-or_kleene (some true ∷ as') (y ∷ bs) zero = refl
kept-or_kleene (some false ∷ as') (y ∷ bs) zero = refl
kept-or_kleene (none ∷ as') (some true ∷ bs) zero = refl
kept-or_kleene (none ∷ as') (some false ∷ bs) zero = refl
kept-or_kleene (none ∷ as') (none ∷ bs) zero = refl
kept-or_kleene (a ∷ as') (b ∷ bs) (suc i) = kept-or_kleene as' bs i

pub kept-all_rows : (n i : ℕ) (b : Bool) → kept (all_rows n b) i ≡ (ltb i n && b)
unfolding all_rows
kept-all_rows zero i b = ground arith
kept-all_rows (suc n) zero true = ground arith
kept-all_rows (suc n) zero false = ground arith
kept-all_rows (suc n) (suc i) b = kept-all_rows n i b ∙ ground arith

pub masked-inj : {a b : BooleanArray} → masked a ≡ masked b → a ≡ b
masked-inj h = cc h

zero_add : (n : ℕ) → 0 + n ≡ n
zero_add n = omega arith

-- A mask that a test gives row by row keeps the rows that the test does.
pub kept-map :
    (f : ℕ → Option Bool) (lo n i : ℕ)
    → kept (map f (range_from lo n)) i ≡ (ltb i n && answers_true (some (f (lo + i))))
kept-map f lo zero i = ground arith
kept-map f lo (suc n) zero = ground arith
kept-map f lo (suc n) (suc i) = rw (kept-map f (suc lo) n i, shift) (ground arith)
  where
    shift : suc lo + i ≡ lo + suc i
    shift = omega arith

kept-rows :
    (f : ℕ → Option Bool) (n i : ℕ)
    → kept (map f (range_from 0 n)) i ≡ (ltb i n && answers_true (some (f i)))
kept-rows f n i = rw (kept-map f 0 n i, zero_add i)

answers_true-nullable :
    (null value : Bool)
    → answers_true (some (if null then none else some value)) ≡ (not null && value)
answers_true-nullable true value = refl
answers_true-nullable false true = refl
answers_true-nullable false false = refl

answers_true-definite :
    (null value : Bool)
    → answers_true (some (if null then some false else some value)) ≡ (not null && value)
answers_true-definite true value = refl
answers_true-definite false true = refl
answers_true-definite false false = refl

pub kept-mask_nullable :
    (c : Column) (f : ℕ → Bool) (i : ℕ)
    → kept (mask_nullable c f) i ≡ (ltb i c.len && (not (c.is_null i) && f i))
unfolding mask_nullable
kept-mask_nullable c f i =
    rw (kept-rows (λ i. if c.is_null i then none else some (f i)) c.len i)
      (ap (λ t. ltb i c.len && t) (answers_true-nullable (c.is_null i) (f i)))

pub kept-mask_definite :
    (c : Column) (f : ℕ → Bool) (i : ℕ)
    → kept (mask_definite c f) i ≡ (ltb i c.len && (not (c.is_null i) && f i))
unfolding mask_definite
kept-mask_definite c f i =
    rw (kept-rows (λ i. if c.is_null i then some false else some (f i)) c.len i)
      (ap (λ t. ltb i c.len && t) (answers_true-definite (c.is_null i) (f i)))

module _ (i : ℕ) where
  -- What the loop has kept so far.
  abbrev so_far : Option BooleanArray → Bool → Bool
  so_far none empty = empty
  so_far (some m) empty = kept m i

  fold-or :
      (default : BooleanArray) (masks : List Mask) (prev : Option BooleanArray) (m : BooleanArray)
      → kept default i ≡ false
      → fold_masks or_kleene default masks prev ≡ masked m
      → kept m i ≡ (so_far prev false || any (λ x. keeps x i) masks)
  unfolding fold_masks
  fold-or default [] none m hd e = rw (sym (masked-inj e), hd) refl
  fold-or default [] (some p) m hd e = rw (sym (masked-inj e)) (ground arith)
  fold-or default (unsupported u ∷ rest) prev m hd e = absurd (ground arith)
  fold-or default (masked a ∷ rest) none m hd e = fold-or default rest (some a) m hd e
  fold-or default (masked a ∷ rest) (some p) m hd e =
      ground (arith, fold-or default rest (some (or_kleene p a)) m hd e, kept-or_kleene p a i)

  fold-and :
      (default : BooleanArray) (masks : List Mask) (prev : Option BooleanArray)
      → kept default i ≡ true
      → keeps (fold_masks and default masks prev) i
        ≡ (so_far prev true && all (λ x. keeps x i) masks)
  unfolding fold_masks
  fold-and default [] none hd = hd
  fold-and default [] (some p) hd = ground arith
  fold-and default (unsupported u ∷ rest) none hd = refl
  fold-and default (unsupported u ∷ rest) (some p) hd = ground arith
  fold-and default (masked a ∷ rest) none hd = fold-and default rest (some a) hd
  fold-and default (masked a ∷ rest) (some p) hd =
      ground (arith, fold-and default rest (some (and p a)) hd, kept-and p a i)

-- The loop with `or_kleene` keeps a row that one of the masks keeps.
pub kept-or_all :
    (n i : ℕ) (masks : List Mask) (m : BooleanArray)
    → or_all n masks ≡ masked m
    → kept m i ≡ any (λ x. keeps x i) masks
unfolding or_all
kept-or_all n i masks m e =
    fold-or i (all_rows n false) masks none m (rw (kept-all_rows n i false) (ground arith)) e

-- The loop with `and` keeps a row that all the masks keep.
pub keeps-and_all :
    (n i : ℕ) (masks : List Mask) → i < n → keeps (and_all n masks) i ≡ all (λ x. keeps x i) masks
unfolding and_all
keeps-and_all n i masks h =
    fold-and i (all_rows n true) masks none (rw (kept-all_rows n i true) (ground arith))

-- The loops give a mask where every mask is one.
abbrev pub is_masked : Mask → Bool
is_masked (masked _) = true
is_masked (unsupported _) = false

pub is_masked-fold_masks :
    (op : BooleanArray → BooleanArray → BooleanArray) (default : BooleanArray) (masks : List Mask)
    (prev : Option BooleanArray)
    → is_masked (fold_masks op default masks prev) ≡ all is_masked masks
unfolding fold_masks
is_masked-fold_masks op default [] none = refl
is_masked-fold_masks op default [] (some p) = refl
is_masked-fold_masks op default (unsupported u ∷ rest) prev = refl
is_masked-fold_masks op default (masked a ∷ rest) none =
    is_masked-fold_masks op default rest (some a)
is_masked-fold_masks op default (masked a ∷ rest) (some p) =
    is_masked-fold_masks op default rest (some (op p a))

pub keeps-or_all :
    (n i : ℕ) (masks : List Mask)
    → any (λ x. keeps x i) masks ≡ false
    → keeps (or_all n masks) i ≡ false
keeps-or_all n i masks h = go (or_all n masks) refl
  where
    go : (mask : Mask) → or_all n masks ≡ mask → keeps mask i ≡ false
    go (masked m) e = kept-or_all n i masks m e ∙ h
    go (unsupported u) e = refl

pub is_masked-or_all :
    (n : ℕ) (masks : List Mask) → is_masked (or_all n masks) ≡ all is_masked masks
unfolding or_all
is_masked-or_all n masks = is_masked-fold_masks or_kleene (all_rows n false) masks none

pub is_masked-and_all :
    (n : ℕ) (masks : List Mask) → is_masked (and_all n masks) ≡ all is_masked masks
unfolding and_all
is_masked-and_all n masks = is_masked-fold_masks and (all_rows n true) masks none

pub masked-cases : (mask : Mask) → is_masked mask ≡ true → (m : BooleanArray) × (mask ≡ masked m)
masked-cases (masked m) h = (m, refl)
masked-cases (unsupported e) h = absurd (ground arith)
