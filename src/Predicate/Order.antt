-- ===== src/Predicate/Order.antt =====
-- Orders that src/scan/predicate.rs compares values in: text in byte order, integers by value; and
-- the search in a sorted list, with the sort of Rust's library as an insertion sort.
use sqd_query_engine.Prelude.{
  ℕ, suc, Bool, true, false, ◌&&◌, ◌||◌, none, some, List, [], ◌∷◌, if◌then◌else◌, get_elem?, ◌≡◌,
  arith, refl, ltb, ◌==◌,
}
use sqd_query_engine.Join.{same}
use sqd_query_engine.Prelude.Int.{ℤ, ltb_ℤ}

-- `str` and `[u8]` compare byte by byte, and a prefix comes first.
unfoldable pub ltb_bytes : List ℕ → List ℕ → Bool
ltb_bytes [] [] = false
ltb_bytes [] (b ∷ bs) = true
ltb_bytes (a ∷ as') [] = false
ltb_bytes (a ∷ as') (b ∷ bs) = ltb a b || (a == b && ltb_bytes as' bs)

-- Below what is at most `b` is below `b`.
pub ltb_bytes-le_right :
    (a b c : List ℕ) → ltb_bytes a b ≡ true → ltb_bytes c b ≡ false → ltb_bytes a c ≡ true
unfolding ltb_bytes
ltb_bytes-le_right a [] [] h k = h
ltb_bytes-le_right [] [] (c ∷ cs) h k = refl
ltb_bytes-le_right (a ∷ as') [] (c ∷ cs) h k = absurd (ground arith)
ltb_bytes-le_right a (b ∷ bs) [] h k = absurd (ground arith)
ltb_bytes-le_right [] (b ∷ bs) (c ∷ cs) h k = refl
ltb_bytes-le_right (a ∷ as') (b ∷ bs) (c ∷ cs) h k = ground (arith, ltb_bytes-le_right as' bs cs)

pub ltb_bytes-le_left :
    (a b c : List ℕ) → ltb_bytes b c ≡ true → ltb_bytes b a ≡ false → ltb_bytes a c ≡ true
unfolding ltb_bytes
ltb_bytes-le_left [] [] c h k = h
ltb_bytes-le_left (a ∷ as') [] c h k = absurd (ground arith)
ltb_bytes-le_left [] (b ∷ bs) [] h k = absurd (ground arith)
ltb_bytes-le_left [] (b ∷ bs) (c ∷ cs) h k = refl
ltb_bytes-le_left (a ∷ as') (b ∷ bs) [] h k = absurd (ground arith)
ltb_bytes-le_left (a ∷ as') (b ∷ bs) (c ∷ cs) h k = ground (arith, ltb_bytes-le_left as' bs cs)

pub ltb_bytes_antisymm :
    (a b : List ℕ) → ltb_bytes a b ≡ false → ltb_bytes b a ≡ false → same a b ≡ true
unfolding ltb_bytes
ltb_bytes_antisymm [] [] h k = refl
ltb_bytes_antisymm [] (b ∷ bs) h k = absurd (ground arith)
ltb_bytes_antisymm (a ∷ as') [] h k = absurd (ground arith)
ltb_bytes_antisymm (a ∷ as') (b ∷ bs) h k = ground (arith, ltb_bytes_antisymm as' bs)

pub ltb_ℤ-le_right : (a b c : ℤ) → ltb_ℤ a b ≡ true → ltb_ℤ c b ≡ false → ltb_ℤ a c ≡ true
ltb_ℤ-le_right a b c h k = ground arith

module _ {A : Type 0} (lt : A → A → Bool) where
  unfoldable pub insert_sorted : A → List A → List A
  insert_sorted x [] = x ∷ []
  insert_sorted x (y ∷ ys) =
      let rest = insert_sorted x ys in if lt y x then y ∷ rest else x ∷ y ∷ ys

  -- `sort_unstable`
  unfoldable pub sort : List A → List A
  unfolding insert_sorted
  sort [] = []
  sort (x ∷ xs) = insert_sorted x (sort xs)

-- `partition_point` of a list whose prefix passes the test.
unfoldable pub partition_point_by {ℓ} : {A : Type ℓ} → (A → Bool) → List A → ℕ
partition_point_by p [] = 0
partition_point_by p (x ∷ xs) = let rest = partition_point_by p xs in if p x then suc rest else 0

-- The least value at or above `low` is above `high`, or there is none.
unfoldable pub none_within {ℓ} : {A : Type ℓ} → (A → Bool) → (A → Bool) → List A → Bool
unfolding partition_point_by
none_within below above sorted = elim (get_elem? sorted (partition_point_by below sorted)) [
  | none ↦ true
  | some p ↦ above p
]
