-- ===== src/BlockIndex/Counted.antt =====
-- The counting of a page's rows: how many each block has, and where each run starts.
use sqd_query_engine.Prelude.{
  ℕ, zero, suc, ◌+◌, ◌-◌, ◌≤◌, ◌<◌, Bool, true, false, none, some, List, [], ◌∷◌, ◌==◌,
  if◌then◌else◌, length, get_or, set, take, drop, ◌≡◌, ◌≢◌, arith, refl, sym, ap, ap₂, ◌∙◌, inl,
  inr, Bool-cases, Option-cases, ==_iff, ==_refl, get_or-set_self, get_or-set_ne, length-set,
}
use sqd_query_engine.BlockIndex.{Visit, BlockPositions, position, count_rows, sum_up}

abbrev pub Place : Type 0
Place = ℕ × ℕ

abbrev pub nowhere : Place
nowhere = (0, 0)

module _ (positions : BlockPositions) where
  -- The rows of a position's block, in the order of their visits.
  unfoldable pub rows_of_position : ℕ → List Visit → List Place
  rows_of_position p [] = []
  rows_of_position p ((batch, row, block) ∷ vs) = elim (position positions block) [
    | none ↦ rows_of_position p vs
    | some at ↦ if at == p then (batch, row) ∷ rows_of_position p vs else rows_of_position p vs
  ]

  pub rows-out :
      (p batch row block : ℕ) (vs : List Visit)
      → position positions block ≡ none
      → rows_of_position p ((batch, row, block) ∷ vs) ≡ rows_of_position p vs
  unfolding rows_of_position
  rows-out p batch row block vs e = rw (rows_of_position, e) refl

  pub rows-hit :
      (p batch row block : ℕ) (vs : List Visit)
      → position positions block ≡ some p
      → rows_of_position p ((batch, row, block) ∷ vs) ≡ (batch, row) ∷ rows_of_position p vs
  unfolding rows_of_position
  rows-hit p batch row block vs e = rw (rows_of_position, e, ==_refl p) refl

  pub rows-miss :
      (p at batch row block : ℕ) (vs : List Visit)
      → position positions block ≡ some at
      → (at == p) ≡ false
      → rows_of_position p ((batch, row, block) ∷ vs) ≡ rows_of_position p vs
  unfolding rows_of_position
  rows-miss p at batch row block vs e f = rw (rows_of_position, e, f) refl

  pub apart : (a b : ℕ) → (a == b) ≡ false → a ≢ b
  apart a b f e = differs (a == b) f ((==_iff a b).1 e)
    where
      differs : (t : Bool) → t ≡ false → t ≡ true → ⊥
      differs t p q = ground arith

  -- Every block of the page has a position on it.
  abbrev pub Within : ℕ → Type 0
  Within n = (block at : ℕ) → position positions block ≡ some at → at < n

  -- Each slot after the first counts the rows of a position.
  pub count_rows-rows_of_position :
      (starts : List ℕ) (vs : List Visit) (n : ℕ)
      → Within n
      → length starts ≡ n + 1
      → (length (count_rows positions starts vs) ≡ n + 1)
        × (get_or (count_rows positions starts vs) 0 0 ≡ get_or starts 0 0)
        × ((p : ℕ)
            → p < n
            → get_or (count_rows positions starts vs) (p + 1) 0
              ≡ get_or starts (p + 1) 0 + length (rows_of_position p vs))
  unfolding count_rows rows_of_position
  count_rows-rows_of_position starts [] n inside wide = (wide, refl, λ p lt. omega arith)
  count_rows-rows_of_position starts ((batch, row, block) ∷ vs) n inside wide =
      elim (Option-cases (position positions block)) [
        | inl out ↦
            let (w, z, each) = count_rows-rows_of_position starts vs n inside wide in
            rw (count_rows, out)
              (
                w,
                z,
                λ p lt.
                    each p lt
                    ∙ ap (λ r. get_or starts (p + 1) 0 + length r)
                        (sym (rows-out p batch row block vs out)),
              )
        | inr (at, here) ↦
            let more = get_or starts (at + 1) 0 + 1 in
            let (w, z, each) =
              count_rows-rows_of_position (set starts (at + 1) more) vs n inside
                (length-set starts (at + 1) more ∙ wide) in
            rw (count_rows, here)
              (
                w,
                z ∙ get_or-set_ne starts (at + 1) 0 more 0 (λ e. omega arith),
                λ p lt. each p lt ∙ counted at here p lt,
              )
      ]
    where
      counted :
          (at : ℕ)
          → position positions block ≡ some at
          → (p : ℕ) → p < n
          → get_or (set starts (at + 1) (get_or starts (at + 1) 0 + 1)) (p + 1) 0
              + length (rows_of_position p vs)
            ≡ get_or starts (p + 1) 0 + length (rows_of_position p ((batch, row, block) ∷ vs))
      counted at here p lt =
          let more = get_or starts (at + 1) 0 + 1 in
          elim (Bool-cases (at == p)) [
            | inl equal ↦
                let same : at ≡ p = (==_iff at p).0 equal in
                let hit = ap length (rows-hit p batch row block vs (here ∙ ap some same)) in
                let self : get_or (set starts (at + 1) more) (p + 1) 0 ≡ more =
                  ap (λ i. get_or (set starts (at + 1) more) (i + 1) 0) (sym same)
                  ∙ get_or-set_self starts (at + 1) more 0 (omega arith) in
                let old : get_or starts (at + 1) 0 ≡ get_or starts (p + 1) 0 =
                  ap (λ i. get_or starts (i + 1) 0) same in
                omega (arith, hit, self, old)
            | inr differ ↦
                let miss = ap length (rows-miss p at batch row block vs here differ) in
                let ne = apart at p differ in
                let kept = get_or-set_ne starts (at + 1) (p + 1) more 0 (λ e. ne (omega arith)) in
                omega (arith, miss, kept)
          ]

-- Each sum is the one before it and its own number.
pub get_or-sum_up :
    (before : ℕ) (ns : List ℕ) (i : ℕ)
    → suc i < length ns
    → get_or (sum_up before ns) (suc i) 0 ≡ get_or (sum_up before ns) i 0 + get_or ns (suc i) 0
unfolding sum_up
get_or-sum_up before [] i h = absurd (omega arith)
get_or-sum_up before (n ∷ []) i h = absurd (omega arith)
get_or-sum_up before (n ∷ m ∷ ns) zero h = refl
get_or-sum_up before (n ∷ m ∷ ns) (suc i) h = get_or-sum_up (before + n) (m ∷ ns) i (omega arith)

pub length-sum_up : (before : ℕ) (ns : List ℕ) → length (sum_up before ns) ≡ length ns
unfolding sum_up
length-sum_up before [] = refl
length-sum_up before (n ∷ ns) = ap suc (length-sum_up (before + n) ns)

pub get_or-drop :
    (rows : List Place) (start i : ℕ)
    → get_or (drop start rows) i nowhere ≡ get_or rows (start + i) nowhere
get_or-drop rows zero i = ap (λ j. get_or rows j nowhere) (omega arith)
get_or-drop [] (suc start) i = refl
get_or-drop (r ∷ rows) (suc start) i =
    let e : suc start + i ≡ suc (start + i) = omega arith in
    get_or-drop rows start i ∙ sym (ap (λ j. get_or (r ∷ rows) j nowhere) e)

pub length-drop : (rows : List Place) (start : ℕ) → length (drop start rows) ≡ length rows - start
length-drop rows zero = omega arith
length-drop [] (suc start) = omega arith
length-drop (r ∷ rows) (suc start) = omega (arith, length-drop rows start)

-- A list that begins with the entries of another, cut to its length.
pub take_run :
    (rows ys : List Place)
    → length ys ≤ length rows
    → ((i : ℕ) → i < length ys → get_or rows i nowhere ≡ get_or ys i nowhere)
    → take (length ys) rows ≡ ys
take_run rows [] fits same = refl
take_run [] (y ∷ ys) fits same = absurd (omega arith)
take_run (r ∷ rows) (y ∷ ys) fits same =
    ap₂ (λ a b. a ∷ b) (same 0 (omega arith))
      (take_run rows ys (omega arith) (λ i lt. same (suc i) (omega arith)))
