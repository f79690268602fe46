-- ===== src/BlockIndex/Range.antt =====
-- The least and the largest block number of some batches.
use Prim.Native.String.{String}
use sqd_query_engine.Prelude.{
  ℕ, ◌≤◌, min, max, Option, none, some, List, [], ◌∷◌, All, ◌≡◌, arith, refl, ◌⊎◌, inl, inr,
  le_or_lt,
}
use sqd_query_engine.Arrow.{RecordBatch}
use sqd_query_engine.Error.{ok}
use sqd_query_engine.BlockIndex.{Visit, block_of, visits, widen, widen_all, compute_block_range}

abbrev pub Holds : ℕ → List Visit → Type 0
Holds n [] = ⊥
Holds n (v ∷ vs) = (n ≡ block_of v) ⊎ Holds n vs

-- No row and no range; or two block numbers that rows hold, with those of all rows between them.
abbrev pub IsRange : Option ℕ × Option ℕ → List Visit → Type 0
IsRange (none, none) vs = vs ≡ []
IsRange (some low, some high) vs =
    Holds low vs × Holds high vs × All (λ v. (low ≤ block_of v) × (block_of v ≤ high)) vs
IsRange _ vs = ⊥

-- A range so far, and the rows to come.
widen_all-Holds :
    (low high : ℕ) (vs : List Visit)
    → (l : ℕ) × (h : ℕ) × (widen_all (some low, some high) vs ≡ (some l, some h))
      × ((l ≡ low) ⊎ Holds l vs)
      × ((h ≡ high) ⊎ Holds h vs)
      × (l ≤ low)
      × (high ≤ h)
      × All (λ v. (l ≤ block_of v) × (block_of v ≤ h)) vs
unfolding widen_all widen
widen_all-Holds low high [] = (low, high, refl, inl refl, inl refl, omega arith, omega arith, tt)
widen_all-Holds low high (v ∷ vs) =
    let (l, h, e, from_low, from_high, below, above, all) =
      widen_all-Holds (min low (block_of v)) (max high (block_of v)) vs in
    (
      l,
      h,
      e,
      least l from_low,
      largest h from_high,
      omega arith,
      omega arith,
      ((omega arith, omega arith), all),
    )
  where
    least :
        (l : ℕ)
        → (l ≡ min low (block_of v)) ⊎ Holds l vs
        → (l ≡ low) ⊎ ((l ≡ block_of v) ⊎ Holds l vs)
    least l (inr later) = inr (inr later)
    least l (inl e) = elim (le_or_lt low (block_of v)) [
      | inl le ↦ inl (omega arith)
      | inr lt ↦ inr (inl (omega arith))
    ]

    largest :
        (h : ℕ)
        → (h ≡ max high (block_of v)) ⊎ Holds h vs
        → (h ≡ high) ⊎ ((h ≡ block_of v) ⊎ Holds h vs)
    largest h (inr later) = inr (inr later)
    largest h (inl e) = elim (le_or_lt (block_of v) high) [
      | inl le ↦ inl (omega arith)
      | inr lt ↦ inr (inl (omega arith))
    ]

-- Where the block-number columns of the batches can be read, their range is none where they have no
-- row; and otherwise two block numbers that rows hold, with the block of every row between them.
pub compute_block_range-IsRange :
    (batches : List RecordBatch) (bn_column : String) (vs : List Visit)
    → visits 0 batches bn_column ≡ ok vs
    → (range : Option ℕ × Option ℕ) × (compute_block_range batches bn_column ≡ ok range)
      × IsRange range vs
unfolding compute_block_range widen_all widen
compute_block_range-IsRange batches bn_column [] e = ((none, none), rw e refl, refl)
compute_block_range-IsRange batches bn_column (v ∷ vs) e =
    let (l, h, widened, from_low, from_high, below, above, all) =
      widen_all-Holds (block_of v) (block_of v) vs in
    (
      (some l, some h),
      rw (e, widened) refl,
      (from_low, from_high, ((omega arith, omega arith), all)),
    )
