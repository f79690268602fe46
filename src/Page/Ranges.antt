-- ===== src/Page/Ranges.antt =====
-- The blocks of a request that lie in a range, and how an ascending list splits at a range's end.
use sqd_query_engine.Prelude.{
  ℕ, ◌+◌, ◌≤◌, ◌<◌, Bool, true, ◌&&◌, Option, none, some, List, [], ◌∷◌, ◌++◌, leb, ◌≡◌, arith,
  refl, inl, inr, All, All-imp, keep, le_or_lt,
}

abbrev pub within_end : Option ℕ → ℕ → Bool
within_end none b = true
within_end (some end) b = leb b end

-- The blocks of a range, and those from a block on.
abbrev pub in_range : ℕ → Option ℕ → List ℕ → List ℕ
in_range from to blocks = keep (λ b. leb from b && within_end to b) blocks

abbrev pub from_on : ℕ → List ℕ → List ℕ
from_on from blocks = keep (λ b. leb from b) blocks

abbrev pub IsAscending : List ℕ → Type 0
IsAscending [] = Unit
IsAscending (b ∷ bs) = All (λ c. b < c) bs × IsAscending bs

in_range_past :
    (from end : ℕ) (bs : List ℕ) → All (λ c. end < c) bs → in_range from (some end) bs ≡ []
in_range_past from end [] h = refl
in_range_past from end (b ∷ bs) h = ground (arith, in_range_past from end bs h.1)

-- An ascending list splits at a range's end.
pub from_on-split :
    (from end : ℕ) (bs : List ℕ)
    → IsAscending bs
    → from ≤ end
    → from_on from bs ≡ in_range from (some end) bs ++ from_on (end + 1) bs
from_on-split from end [] h le = refl
from_on-split from end (b ∷ bs) h le = elim (le_or_lt b end) [
  | inl early ↦ ground (arith, from_on-split from end bs h.1 le)
  | inr late ↦ ground (
    arith,
    from_on-split from end bs h.1 le,
    in_range_past from end bs (All-imp (λ c (lt : b < c). omega arith) bs h.0),
  )
]

pub in_range_all :
    (from : ℕ) (to : Option ℕ) (bs : List ℕ)
    → All (λ b. within_end to b ≡ true) bs
    → in_range from to bs ≡ from_on from bs
in_range_all from to [] h = refl
in_range_all from to (b ∷ bs) h = ground (arith, in_range_all from to bs h.1)
