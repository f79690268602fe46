-- ===== src/Pairs/Hashed.antt =====
-- Membership in a hashed set of pairs.
use sqd_query_engine.Prelude.{
  ℕ, zero, suc, ◌+◌, ◌*◌, ◌/◌, ◌^◌, ◌≤◌, ◌<◌, bit_or, Bool, ◌||◌, ◌&&◌, none, some, List, [], ◌∷◌,
  map, ltb, leb, ◌==◌, if◌then◌else◌, any, All, ◌≡◌, arith, refl, sym, ap, ap₂, ◌∙◌, inl, inr,
  Bool-cases, Bool_ext, ==_iff, &&_iff,
}
use sqd_query_engine.Prelude.Bits.{bit_or_step, two_pow-suc}
use sqd_query_engine.Pairs.{
  Pair, pack16, build, insert_pair, sort_pairs, same_pair, dedup, pair_set, set_contains,
}

bit_or-zero : (n a : ℕ) → a ≤ n → bit_or a 0 ≡ a
bit_or-zero n zero h = refl
bit_or-zero zero (suc a) h = absurd (omega arith)
bit_or-zero (suc n) (suc a) h =
    omega (arith, bit_or_step (suc a) 0, bit_or-zero n (suc a / 2) (omega arith))

-- Digits below a shift and those above it do not meet.
bit_or-add : (k a b : ℕ) → b < 2 ^ k → bit_or (a * 2 ^ k) b ≡ a * 2 ^ k + b
bit_or-add zero a zero h = bit_or-zero (a * 2 ^ 0) (a * 2 ^ 0) (omega arith) ∙ omega arith
bit_or-add zero a (suc b) h = absurd (omega arith)
bit_or-add (suc k) a b h =
    let even : a * 2 ^ suc k ≡ 2 * (a * 2 ^ k) = ap (λ t. a * t) (two_pow-suc k) ∙ twice (2 ^ k) in
    let high : a * 2 ^ suc k / 2 ≡ a * 2 ^ k = omega arith in
    let halves : bit_or (a * 2 ^ suc k / 2) (b / 2) ≡ a * 2 ^ k + b / 2 =
      ap (λ t. bit_or t (b / 2)) high ∙ bit_or-add k a (b / 2) (omega (arith, two_pow-suc k)) in
    omega (arith, bit_or_step (a * 2 ^ suc k) b)
  where
    twice : (t : ℕ) → a * (2 * t) ≡ 2 * (a * t)
    twice t = omega arith

pack16-injective :
    (a b c d : ℕ) → b < 2 ^ 64 → d < 2 ^ 64 → pack16 a b ≡ pack16 c d → (a ≡ c) × (b ≡ d)
unfolding pack16
pack16-injective a b c d hb hd e =
    let left : bit_or (a * 2 ^ 64) b ≡ a * 2 ^ 64 + b = bit_or-add 64 a b hb in
    let right : bit_or (c * 2 ^ 64) d ≡ c * 2 ^ 64 + d = bit_or-add 64 c d hd in
    let sums : a * 2 ^ 64 + b ≡ c * 2 ^ 64 + d = sym left ∙ e ∙ right in (omega arith, omega arith)

pack16-same_pair :
    (a b : ℕ) (p : Pair)
    → b < 2 ^ 64
    → p.1 < 2 ^ 64
    → (pack16 p.0 p.1 == pack16 a b) ≡ same_pair (a, b) p
pack16-same_pair a b p hb hp = Bool_ext (pack16 p.0 p.1 == pack16 a b) (same_pair (a, b) p) (
  λ h.
      (let (e, f) =
          pack16-injective p.0 p.1 a b hp hb ((==_iff (pack16 p.0 p.1) (pack16 a b)).0 h) in
        (&&_iff (a == p.0) (b == p.1)).1 ((==_iff a p.0).1 (sym e), (==_iff b p.1).1 (sym f))),
  λ h.
      (let (e, f) = (&&_iff (a == p.0) (b == p.1)).0 h in
        (==_iff (pack16 p.0 p.1) (pack16 a b)).1
          (ap₂ pack16 (sym ((==_iff a p.0).0 e)) (sym ((==_iff b p.1).0 f)))),
)

-- Sorting and dropping duplicates keep what a set of pairs has.
any-insert_pair :
    (f : Pair → Bool) (p : Pair) (pairs : List Pair)
    → any f (insert_pair p pairs) ≡ (f p || any f pairs)
unfolding insert_pair
any-insert_pair f p [] = refl
any-insert_pair f p (q ∷ pairs) = elim (Bool-cases (ltb p.0 q.0 || (p.0 == q.0 && leb p.1 q.1))) [
  | inl first ↦ rw first refl
  | inr later ↦
      rw later (ap (λ x. f q || x) (any-insert_pair f p pairs) ∙ swap (f q) (f p) (any f pairs))
]
  where
    swap : (a b c : Bool) → (a || (b || c)) ≡ (b || (a || c))
    swap a b c = ground arith

any-sort_pairs : (f : Pair → Bool) (pairs : List Pair) → any f (sort_pairs pairs) ≡ any f pairs
unfolding sort_pairs
any-sort_pairs f [] = refl
any-sort_pairs f (p ∷ pairs) =
    any-insert_pair f p (sort_pairs pairs) ∙ ap (λ x. f p || x) (any-sort_pairs f pairs)

any-dedup :
    (a b : ℕ) (pairs : List Pair)
    → any (same_pair (a, b)) (dedup pairs) ≡ any (same_pair (a, b)) pairs
unfolding dedup
any-dedup a b [] = refl
any-dedup a b (p ∷ pairs) = by_rest (dedup pairs) (any-dedup a b pairs)
  where
    twice : (x y : Bool) → (x || y) ≡ (x || (x || y))
    twice x y = ground arith

    by_rest :
        (rest : List Pair)
        → any (same_pair (a, b)) rest ≡ any (same_pair (a, b)) pairs
        → any (same_pair (a, b)) (elim rest as (λ _. List Pair) [
          | [] ↦ p ∷ []
          | q ∷ rest' ↦ if same_pair p q then q ∷ rest' else p ∷ q ∷ rest'
        ])
          ≡ (same_pair (a, b) p || any (same_pair (a, b)) pairs)
    by_rest [] e = ap (λ x. same_pair (a, b) p || x) e
    by_rest (q ∷ rest) e = elim (Bool-cases (same_pair p q)) [
      | inr apart ↦ rw apart (ap (λ x. same_pair (a, b) p || x) e)
      | inl equal ↦
          let (firsts, seconds) = (&&_iff (p.0 == q.0) (p.1 == q.1)).0 equal in
          let alike : same_pair (a, b) p ≡ same_pair (a, b) q =
            ap₂ (λ x y. a == x && b == y) ((==_iff p.0 q.0).0 firsts)
              ((==_iff p.1 q.1).0 seconds) in
          rw equal (
            twice (same_pair (a, b) q) (any (same_pair (a, b)) rest)
            ∙ ap₂ (λ x y. x || y) (sym alike) e)
    ]

-- The second components are words.
abbrev pub Words : List Pair → Type 0
Words pairs = All (λ p. p.1 < 2 ^ 64) pairs

Words-insert_pair :
    (p : Pair) (pairs : List Pair) → p.1 < 2 ^ 64 → Words pairs → Words (insert_pair p pairs)
unfolding insert_pair
Words-insert_pair p [] h hs = (h, tt)
Words-insert_pair p (q ∷ pairs) h hs =
    elim (Bool-cases (ltb p.0 q.0 || (p.0 == q.0 && leb p.1 q.1))) [
      | inl first ↦ rw first (h, hs)
      | inr later ↦ rw later (hs.0, Words-insert_pair p pairs h hs.1)
    ]

Words-sort_pairs : (pairs : List Pair) → Words pairs → Words (sort_pairs pairs)
unfolding sort_pairs
Words-sort_pairs [] hs = tt
Words-sort_pairs (p ∷ pairs) hs =
    Words-insert_pair p (sort_pairs pairs) hs.0 (Words-sort_pairs pairs hs.1)

Words-dedup : (pairs : List Pair) → Words pairs → Words (dedup pairs)
unfolding dedup
Words-dedup [] hs = tt
Words-dedup (p ∷ pairs) hs = by_rest (dedup pairs) (Words-dedup pairs hs.1)
  where
    by_rest :
        (rest : List Pair)
        → Words rest
        → Words (elim rest as (λ _. List Pair) [
          | [] ↦ p ∷ []
          | q ∷ rest' ↦ if same_pair p q then q ∷ rest' else p ∷ q ∷ rest'
        ])
    by_rest [] e = (hs.0, tt)
    by_rest (q ∷ rest) e = elim (Bool-cases (same_pair p q)) [
      | inl equal ↦ rw equal e
      | inr apart ↦ rw apart (hs.0, e)
    ]

any-pack16 :
    (a b : ℕ) (pairs : List Pair)
    → b < 2 ^ 64
    → Words pairs
    → any (λ key. key == pack16 a b) (map (λ p. pack16 p.0 p.1) pairs)
      ≡ any (same_pair (a, b)) pairs
any-pack16 a b [] h hs = refl
any-pack16 a b (p ∷ pairs) h hs =
    ap₂ (λ x y. x || y) (pack16-same_pair a b p h hs.0) (any-pack16 a b pairs h hs.1)

-- A set that is too sparse for bitmaps has a pair of words exactly where it was made from it.
pub set_contains-any :
    (pairs : List Pair) (a b : ℕ)
    → Words pairs
    → b < 2 ^ 64
    → build (dedup (sort_pairs pairs)) ≡ none
    → set_contains (pair_set pairs) a b ≡ some (any (same_pair (a, b)) pairs)
unfolding set_contains pair_set
set_contains-any pairs a b words word sparse =
    let unique = dedup (sort_pairs pairs) in
    rw (set_contains, pair_set, sparse)
      (ap some (
        any-pack16 a b unique word (Words-dedup (sort_pairs pairs) (Words-sort_pairs pairs words))
        ∙ any-dedup a b (sort_pairs pairs)
        ∙ any-sort_pairs (same_pair (a, b)) pairs))
