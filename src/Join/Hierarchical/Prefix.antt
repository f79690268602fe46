-- ===== src/Join/Hierarchical/Prefix.antt =====
-- The tests of two addresses: one extends the other.
use sqd_query_engine.Prelude.{
  ℕ, zero, suc, ◌+◌, ◌≤◌, Bool, true, false, ◌&&◌, List, [], ◌∷◌, ◌++◌, if◌then◌else◌, length,
  length-append, take, drop, leb, ltb, ◌≡◌, arith, refl, ap, ◌∙◌, ◌↔◌, &&_iff, leb→le, ltb→lt,
  le→leb, lt→ltb,
}
use sqd_query_engine.Join.{same}
use sqd_query_engine.Join.Semi.Keys.{same_iff}
use sqd_query_engine.Join.Hierarchical.{is_child, is_parent}

-- A target extends a parent by some elements, by at least one where it may not be the parent.
abbrev pub Extends : Bool → List ℕ → List ℕ → Type 0
Extends inclusive parent target =
    (rest : List ℕ) × (target ≡ parent ++ rest) × ((if inclusive then 0 else 1) ≤ length rest)

take-append : (p rest : List ℕ) → take (length p) (p ++ rest) ≡ p
take-append [] rest = refl
take-append (x ∷ p) rest = ap (λ t. x ∷ t) (take-append p rest)

take-drop : (n : ℕ) (t : List ℕ) → t ≡ take n t ++ drop n t
take-drop zero t = refl
take-drop (suc n) [] = refl
take-drop (suc n) (x ∷ t) = ap (λ u. x ∷ u) (take-drop n t)

deep_enough : (inclusive : Bool) (n m : ℕ) → Bool
deep_enough inclusive n m = if inclusive then leb n m else ltb n m

deep_enough_iff :
    (inclusive : Bool) (n m : ℕ)
    → (deep_enough inclusive n m ≡ true) ↔ ((if inclusive then 0 else 1) + n ≤ m)
unfolding deep_enough
deep_enough_iff true n m = (λ h. omega (arith, leb→le n m h), λ h. le→leb n m (omega arith))
deep_enough_iff false n m = (λ h. omega (arith, ltb→lt n m h), λ h. lt→ltb n m (omega arith))

prefix_iff :
    (inclusive : Bool) (target parent : List ℕ)
    → ((deep_enough inclusive (length parent) (length target)
          && same (take (length parent) target) parent)
        ≡ true)
      ↔ Extends inclusive parent target
prefix_iff inclusive target parent = (only_if, if_extends)
  where
    deep : Bool
    deep = deep_enough inclusive (length parent) (length target)

    only_if :
        (deep && same (take (length parent) target) parent) ≡ true → Extends inclusive parent target
    only_if h =
        let (d, s) = (&&_iff deep (same (take (length parent) target) parent)).0 h in
        let cut = (same_iff (take (length parent) target) parent).0 s in
        let rest = drop (length parent) target in
        let e : target ≡ parent ++ rest =
          take-drop (length parent) target ∙ ap (λ p. p ++ rest) cut in
        let long = (deep_enough_iff inclusive (length parent) (length target)).0 d in
        let lengths : length target ≡ length parent + length rest =
          ap length e ∙ length-append parent rest in
        (rest, e, omega arith)

    if_extends :
        Extends inclusive parent target → (deep && same (take (length parent) target) parent) ≡ true
    if_extends (rest, e, long) =
        let lengths : length target ≡ length parent + length rest =
          ap length e ∙ length-append parent rest in
        (&&_iff deep (same (take (length parent) target) parent)).1 (
          (deep_enough_iff inclusive (length parent) (length target)).1 (omega arith),
          (same_iff (take (length parent) target) parent).1
              (ap (take (length parent)) e ∙ take-append parent rest),
        )

-- A target row is a child of a source address exactly where its address is the source's and some
-- more elements: at least one more where the test is strict.
pub is_child_iff :
    (inclusive : Bool) (target parent : List ℕ)
    → (is_child inclusive target parent ≡ true) ↔ Extends inclusive parent target
unfolding is_child deep_enough
is_child_iff = prefix_iff

-- A target row is a parent of a source address exactly where the source's is a child of it.
pub is_parent_iff :
    (inclusive : Bool) (target child : List ℕ)
    → (is_parent inclusive target child ≡ true) ↔ Extends inclusive target child
unfolding is_parent deep_enough
is_parent_iff inclusive target child = prefix_iff inclusive child target
