-- ===== src/BlockIndex/Positions.antt =====
-- The position of a block is the same on a dense page as on one that is searched.
use sqd_query_engine.Prelude.{
  ℕ, suc, ◌+◌, ◌-◌, ◌*◌, ◌%◌, ◌^◌, ◌≤◌, ◌<◌, max, Bool, true, false, Option, none, some, List, [],
  ◌∷◌, leb, ◌==◌, length, get_or, set, replicate, All, All-imp, ◌≡◌, ◌≢◌, arith, refl, sym, ap, ◌∙◌,
  inl, inr, Bool-cases, ==_iff, le_or_lt, le→leb, lt→leb_false, get_or-set_self, get_or-set_ne,
  length-set, length-replicate, get_or-replicate, get_elem?-eq-some, get_elem?-eq-none,
}
use sqd_query_engine.Prelude.Words.{checked_sub}
use sqd_query_engine.Page.Ranges.{IsAscending}
use sqd_query_engine.BlockIndex.{
  last_or, span_of, fill, block_positions, search, dense_position, position,
}

search-past : (block : ℕ) (bs : List ℕ) → All (λ c. block < c) bs → search block bs ≡ none
unfolding search
search-past block [] h = refl
search-past block (b ∷ bs) h = ground (arith, search-past block bs h.1)

search-before : (block : ℕ) (bs : List ℕ) → All (λ c. c < block) bs → search block bs ≡ none
unfolding search
search-before block [] h = refl
search-before block (b ∷ bs) h = ground (arith, search-before block bs h.1)

-- What a slot holds of a position.
abbrev slot_of : ℕ → Option ℕ → ℕ → ℕ
slot_of at none default = default
slot_of at (some i) default = at + i + 1

-- A slot holds the position of its block, counted from one, and is as it was where the page lacks it.
fill-search :
    (dense : List ℕ) (first at : ℕ) (bs : List ℕ) (s : ℕ)
    → IsAscending bs
    → All (λ b. (first ≤ b) × (b - first < length dense)) bs
    → at + length bs < 2 ^ 32
    → (length (fill dense first at bs) ≡ length dense)
      × (get_or (fill dense first at bs) s 0
          ≡ slot_of at (search (first + s) bs) (get_or dense s 0))
unfolding fill search
fill-search dense first at [] s asc inside small = (refl, refl)
fill-search dense first at (b ∷ bs) s asc inside small =
    let dense' = set dense (b - first) ((at % 2 ^ 32 + 1) % 2 ^ 32) in
    let same_length : length dense' ≡ length dense =
      length-set dense (b - first) ((at % 2 ^ 32 + 1) % 2 ^ 32) in
    let (kept, ih) =
      fill-search dense' first (suc at) bs s asc.1
        (All-imp (λ c h. (h.0, omega (arith, h.1, same_length))) bs inside.1) (omega arith) in
    let exact : (at % 2 ^ 32 + 1) % 2 ^ 32 ≡ at + 0 + 1 = omega arith in
    (
      kept ∙ same_length,
      elim (Bool-cases (b == first + s)) [
        | inl equal ↦
            let here : b ≡ first + s = (==_iff b (first + s)).0 equal in
            let slot : b - first ≡ s = omega arith in
            let past : search (first + s) bs ≡ none =
              search-past (first + s) bs (All-imp (λ c lt. omega arith) bs asc.0) in
            let written : get_or dense' s 0 ≡ at + 0 + 1 =
              ap (λ i. get_or dense' i 0) (sym slot)
              ∙ get_or-set_self dense (b - first) ((at % 2 ^ 32 + 1) % 2 ^ 32) 0 inside.0.1
              ∙ exact in
            ih ∙ rw (equal, past) written
        | inr differ ↦
            let apart : b - first ≢ s = λ e.
              differs (b == first + s) differ
                ((==_iff b (first + s)).1 (omega (arith, inside.0.0))) in
            ih
            ∙ rw differ (
                later (search (first + s) bs)
                  (get_or-set_ne dense (b - first) s ((at % 2 ^ 32 + 1) % 2 ^ 32) 0 apart))
      ],
    )
  where
    differs : (t : Bool) → t ≡ false → t ≡ true → ⊥
    differs t f e = ground arith

    later :
        {n m : ℕ} (found : Option ℕ)
        → n ≡ m
        → slot_of (suc at) found n
          ≡ slot_of at (elim found as (λ _. Option ℕ) [ none ↦ none | some i ↦ some (suc i) ]) m
    later none e = e
    later (some i) e = omega arith

last_or-le :
    (first : ℕ) (bs : List ℕ)
    → IsAscending (first ∷ bs)
    → All (λ b. b ≤ last_or first bs) (first ∷ bs)
last_or-le first [] h = (omega arith, tt)
last_or-le first (b ∷ bs) h = let rest = last_or-le b bs h.1 in (omega (arith, h.0.0, rest.0), rest)

abbrev dense_of : ℕ → List ℕ → List ℕ
dense_of first rest = fill (replicate (span_of (first ∷ rest)) 0) first 0 (first ∷ rest)

checked_sub-slot_of : (found : Option ℕ) → checked_sub (slot_of 0 found 0) 1 ≡ found
checked_sub-slot_of none = refl
checked_sub-slot_of (some i) = ground arith

dense_position-search :
    (first : ℕ) (rest : List ℕ) (block : ℕ)
    → IsAscending (first ∷ rest)
    → length (first ∷ rest) < 2 ^ 32
    → dense_position (first ∷ rest) (dense_of first rest) block ≡ search block (first ∷ rest)
unfolding dense_position span_of
dense_position-search first rest block asc small = elim (le_or_lt first block) [
  | inl from_first ↦
      let s = block - first in
      let back : first + s ≡ block = omega arith in
      let (kept, filled) =
        fill-search (replicate span 0) first 0 (first ∷ rest) s asc inside (omega arith) in
      let width : length (dense_of first rest) ≡ span = kept ∙ length-replicate {A = ℕ} span 0 in
      let holds : get_or (dense_of first rest) s 0 ≡ slot_of 0 (search block (first ∷ rest)) 0 =
        filled
        ∙ ap (λ d. slot_of 0 (search (first + s) (first ∷ rest)) d) (get_or-replicate span s 0)
        ∙ ap (λ b. slot_of 0 (search b (first ∷ rest)) 0) back in
      elim (le_or_lt (length (dense_of first rest)) s) [
        | inr within ↦
            rw
              (
                dense_position,
                le→leb first block from_first,
                get_elem?-eq-some (dense_of first rest) s 0 within,
                holds,
              )
              (checked_sub-slot_of (search block (first ∷ rest)))
        | inl past ↦
            let beyond : last_or first rest < block = omega arith in
            rw
              (
                dense_position,
                le→leb first block from_first,
                get_elem?-eq-none (dense_of first rest) s past,
                search-before block (first ∷ rest)
                    (All-imp (λ c le. omega arith) (first ∷ rest) (last_or-le first rest asc)),
              )
              refl
      ]
  | inr before ↦
      rw
        (
          dense_position,
          lt→leb_false first block before,
          search-past block (first ∷ rest) (before, All-imp (λ c lt. omega arith) rest asc.0),
        )
        refl
]
  where
    span : ℕ
    span = span_of (first ∷ rest)

    inside : All (λ b. (first ≤ b) × (b - first < length (replicate {A = ℕ} span 0))) (first ∷ rest)
    inside =
        let ends = last_or-le first rest asc in
        (
          (omega arith, omega (arith, length-replicate {A = ℕ} span 0, ends.0)),
          zip_all rest asc.0 ends.1,
        )
      where
        zip_all :
            (bs : List ℕ)
            → All (λ b. first < b) bs
            → All (λ b. b ≤ last_or first rest) bs
            → All (λ b. (first ≤ b) × (b - first < length (replicate {A = ℕ} span 0))) bs
        zip_all [] l h = tt
        zip_all (b ∷ bs) l h =
            ((omega arith, omega (arith, length-replicate {A = ℕ} span 0)), zip_all bs l.1 h.1)

-- On a page of ascending blocks, fewer than 2^32 of them, the position of a block is the place
-- where a search finds it, and none where the page lacks it, whether the page is dense or not.
pub position-search :
    (blocks : List ℕ) (block : ℕ)
    → IsAscending blocks
    → length blocks < 2 ^ 32
    → position (block_positions blocks) block ≡ search block blocks
unfolding position block_positions
position-search [] block asc small = ground arith
position-search (first ∷ rest) block asc small =
    elim (Bool-cases (leb (span_of (first ∷ rest)) (max (length (first ∷ rest) * 4) (2 ^ 16)))) [
      | inl dense ↦ rw dense (dense_position-search first rest block asc small)
      | inr sparse ↦ rw sparse refl
    ]
