-- ===== src/BlockIndex/Placed.antt =====
-- The placing of a page's rows: what each step of the loop keeps.
use sqd_query_engine.Prelude.{
  ℕ, zero, suc, ◌+◌, ◌≤◌, ◌<◌, true, false, some, List, [], ◌∷◌, ◌++◌, ◌==◌, if◌then◌else◌, length,
  length-append, get_or, set, ◌≡◌, ◌≢◌, arith, refl, sym, ap, ◌∙◌, inl, inr, Bool-cases, ==_iff,
  le_or_lt, get_or-set_self, get_or-set_ne, length-set, subst,
}
use sqd_query_engine.BlockIndex.{Visit, BlockPositions, position}
use sqd_query_engine.BlockIndex.Counted.{
  Place, nowhere, rows_of_position, rows-hit, rows-miss, apart, Within,
}

get_or-append_left :
    (xs ys : List Place) (i : ℕ) → i < length xs → get_or (xs ++ ys) i nowhere ≡ get_or xs i nowhere
get_or-append_left [] ys i h = absurd (omega arith)
get_or-append_left (x ∷ xs) ys zero h = refl
get_or-append_left (x ∷ xs) ys (suc i) h = get_or-append_left xs ys i (omega arith)

get_or-append_last : (xs : List Place) (y : Place) → get_or (xs ++ y ∷ []) (length xs) nowhere ≡ y
get_or-append_last [] y = refl
get_or-append_last (x ∷ xs) y = get_or-append_last xs y

module _ (positions : BlockPositions) (n : ℕ) (st : ℕ → ℕ) (inside : Within positions n)
    (ordered : (p q : ℕ) → p < q → q ≤ n → st (suc p) ≤ st q) where
  -- What the loop keeps: the next place of each position, behind the rows it has got, which stand in
  -- its run; and the run has room for those to come.
  pub record Placing (next : List ℕ) (rows : List Place) (got : ℕ → List Place) (vs : List Visit)
      : Type 0 where
    pub wide : length next ≡ n + 1
    pub full : length rows ≡ st n
    pub nexts : (p : ℕ) → p < n → get_or next p 0 ≡ st p + length (got p)
    pub placed :
        (p i : ℕ)
        → p < n
        → i < length (got p)
        → get_or rows (st p + i) nowhere ≡ get_or (got p) i nowhere
    pub room :
        (p : ℕ)
        → p < n
        → st p + (length (got p) + length (rows_of_position positions p vs)) ≡ st (suc p)

  -- The rows got, with one more at a position.
  pub one_more : (ℕ → List Place) → ℕ → Place → ℕ → List Place
  one_more got at x p = if at == p then got p ++ x ∷ [] else got p

  pub one_more-hit :
      (got : ℕ → List Place) (at p : ℕ) (x : Place)
      → (at == p) ≡ true
      → one_more got at x p ≡ got p ++ x ∷ []
  unfolding one_more
  one_more-hit got at p x e = rw (one_more, e) refl

  pub one_more-miss :
      (got : ℕ → List Place) (at p : ℕ) (x : Place)
      → (at == p) ≡ false
      → one_more got at x p ≡ got p
  unfolding one_more
  one_more-miss got at p x e = rw (one_more, e) refl

  module _ (next : List ℕ) (rows : List Place) (got : ℕ → List Place) (vs : List Visit)
      (batch row block at : ℕ) (here : position positions block ≡ some at)
      (inv : Placing next rows got ((batch, row, block) ∷ vs)) where
    abbrev x : Place
    x = (batch, row)

    abbrev free : ℕ
    free = get_or next at 0

    -- The free place lies in the run of its position.
    free-lt : (free ≡ st at + length (got at)) × (free < st (suc at)) × (free < length rows)
    free-lt =
        let at_inside = inside block at here in
        let behind = inv.nexts at at_inside in
        let room = inv.room at at_inside in
        let hit = ap length (rows-hit positions at batch row block vs here) in
        let last = ordered at n at_inside (omega arith) in
        (behind, omega (arith, hit, behind, room), omega (arith, hit, behind, room, last, inv.full))

    next_at : get_or (set next at (free + 1)) at 0 ≡ st at + length (got at ++ x ∷ [])
    next_at =
        get_or-set_self next at (free + 1) 0 (omega (arith, inv.wide, inside block at here))
        ∙ omega (arith, free-lt.0, length-append (got at) (x ∷ []))

    placed_at :
        (i : ℕ)
        → i < length (got at ++ x ∷ [])
        → get_or (set rows free x) (st at + i) nowhere ≡ get_or (got at ++ x ∷ []) i nowhere
    placed_at i less = elim (le_or_lt (length (got at)) i) [
      | inr early ↦
          get_or-set_ne rows free (st at + i) x nowhere (λ e. omega (arith, free-lt.0, e))
          ∙ inv.placed at i (inside block at here) early
          ∙ sym (get_or-append_left (got at) (x ∷ []) i early)
      | inl late ↦
          let last : i ≡ length (got at) = omega (arith, length-append (got at) (x ∷ [])) in
          let spot : st at + i ≡ free = omega (arith, free-lt.0) in
          ap (λ j. get_or (set rows free x) j nowhere) spot
          ∙ get_or-set_self rows free x nowhere free-lt.2
          ∙ sym (get_or-append_last (got at) x)
          ∙ ap (λ j. get_or (got at ++ x ∷ []) j nowhere) (sym last)
    ]

    placed_elsewhere :
        (p : ℕ)
        → p < n
        → at ≢ p
        → (i : ℕ) → i < length (got p)
        → get_or (set rows free x) (st p + i) nowhere ≡ get_or (got p) i nowhere
    placed_elsewhere p lt ne i less =
        get_or-set_ne rows free (st p + i) x nowhere outside ∙ inv.placed p i lt less
      where
        outside : free ≢ st p + i
        outside e = elim (le_or_lt p at) [
          | inr later ↦ omega (arith, free-lt.0, free-lt.1, ordered at p later (omega arith), e)
          | inl earlier ↦ elim (le_or_lt at p) [
            | inl both ↦ ne (omega arith)
            | inr before ↦ omega (
              arith,
              free-lt.0,
              inv.room p lt,
              ordered p at before (omega (arith, inside block at here)),
              e,
            )
          ]
        ]

    pub place_step : Placing (set next at (free + 1)) (set rows free x) (one_more got at x) vs
    place_step = record {
      wide = length-set next at (free + 1) ∙ inv.wide;
      full = length-set rows free x ∙ inv.full;
      nexts = λ p lt. elim (Bool-cases (at == p)) [
        | inl equal ↦
            subst (λ zs. get_or (set next at (free + 1)) p 0 ≡ st p + length zs)
              (sym (one_more-hit got at p x equal))
              (subst (λ q. get_or (set next at (free + 1)) q 0 ≡ st q + length (got q ++ x ∷ []))
                ((==_iff at p).0 equal) next_at)
        | inr differ ↦
            get_or-set_ne next at p (free + 1) 0 (apart positions at p differ)
            ∙ inv.nexts p lt
            ∙ ap (λ zs. st p + length zs) (sym (one_more-miss got at p x differ))
      ];
      placed = λ p i lt less. elim (Bool-cases (at == p)) [
        | inl equal ↦
            subst
              (λ zs.
                (j : ℕ)
                → j < length zs
                → get_or (set rows free x) (st p + j) nowhere ≡ get_or zs j nowhere)
              (sym (one_more-hit got at p x equal))
              (subst
                (λ q.
                  (j : ℕ)
                  → j < length (got q ++ x ∷ [])
                  → get_or (set rows free x) (st q + j) nowhere
                    ≡ get_or (got q ++ x ∷ []) j nowhere)
                ((==_iff at p).0 equal) placed_at)
              i less
        | inr differ ↦
            subst
              (λ zs.
                (j : ℕ)
                → j < length zs
                → get_or (set rows free x) (st p + j) nowhere ≡ get_or zs j nowhere)
              (sym (one_more-miss got at p x differ))
              (placed_elsewhere p lt (apart positions at p differ)) i less
      ];
      room = λ p lt. elim (Bool-cases (at == p)) [
        | inl equal ↦
            let hit =
              ap length (
                rows-hit positions p batch row block vs (here ∙ ap some ((==_iff at p).0 equal))) in
            let more = ap length (one_more-hit got at p x equal) in
            omega (arith, hit, more, length-append (got p) (x ∷ []), inv.room p lt)
        | inr differ ↦
            let miss = ap length (rows-miss positions p at batch row block vs here differ) in
            let same = ap length (one_more-miss got at p x differ) in
            omega (arith, miss, same, inv.room p lt)
      ];
    }
