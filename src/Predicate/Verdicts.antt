-- ===== src/Predicate/Verdicts.antt =====
-- The cache of the last verdict in src/scan/predicate.rs: the rows get the verdicts of a lookup each.
use sqd_query_engine.Prelude.{
  ℕ, Bool, false, List, [], ◌∷◌, map, Option, none, some, ◌≡◌, refl, ap, ap₂, sym, ◌∙◌, Bool-cases,
  inl, inr,
}
use sqd_query_engine.Join.{same}
use sqd_query_engine.Join.Semi.Keys.{same_iff}
use sqd_query_engine.Predicate.InSet.{verdicts, verdicts_after}

-- The verdict of a row by a lookup of its own.
abbrev pub verdict_of : (List ℕ → Bool) → Option (List ℕ) → Bool
verdict_of passes none = false
verdict_of passes (some value) = passes value

module _ (passes : List ℕ → Bool) where
  -- The cached verdict is the cached value's.
  abbrev IsVerdict : Option (List ℕ × Bool) → Type 0
  IsVerdict none = Unit
  IsVerdict (some (value, verdict)) = verdict ≡ passes value

  verdicts_after-lookups :
      (previous : Option (List ℕ × Bool)) (values : List (Option (List ℕ)))
      → IsVerdict previous
      → verdicts_after passes previous values ≡ map (verdict_of passes) values
  unfolding verdicts_after
  verdicts_after-lookups previous [] h = refl
  verdicts_after-lookups previous (none ∷ values) h =
      ap (λ rest. false ∷ rest) (verdicts_after-lookups previous values h)
  verdicts_after-lookups none (some value ∷ values) h =
      ap (λ rest. passes value ∷ rest)
        (verdicts_after-lookups (some (value, passes value)) values refl)
  verdicts_after-lookups (some (last, verdict)) (some value ∷ values) h =
      elim (Bool-cases (same value last)) [
        | inl e ↦ rw e (
            ap₂ (λ v rest. v ∷ rest) (h ∙ ap passes (sym ((same_iff value last).0 e)))
              (verdicts_after-lookups (some (last, verdict)) values h))
        | inr e ↦ rw e (
            ap (λ rest. passes value ∷ rest)
              (verdicts_after-lookups (some (value, passes value)) values refl))
      ]

-- A value equal to the one looked up last takes its verdict, and yet every row gets the verdict of
-- a lookup of its own value, and a null row false: for every lookup and every column of values.
pub verdicts-lookups :
    (passes : List ℕ → Bool) (values : List (Option (List ℕ)))
    → verdicts passes values ≡ map (verdict_of passes) values
unfolding verdicts
verdicts-lookups passes values = verdicts_after-lookups passes none values tt
