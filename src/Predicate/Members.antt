-- ===== src/Predicate/Members.antt =====
-- The bloom filters of src/scan/predicate.rs: the masks kept between rows change
-- no answer.
use sqd_query_engine.Prelude.{
  ℕ, Bool, false, List, [], ◌∷◌, map, ◌==◌, if◌then◌else◌, any, length, Option, some, ◌≡◌, ◌≢◌,
  refl, arith, ap, ap₂, sym, ◌∙◌, Bool-cases, inl, inr, ==_iff,
}
use sqd_query_engine.Arrow.{Column}
use sqd_query_engine.Predicate.Bloom.{
  BloomFilterPredicate, NeedleMasks, no_masks, missing, needle_mask, build_masks, any_member,
  check_rows,
}

module _ (xxh3 : ℕ → List ℕ → ℕ) (predicate : BloomFilterPredicate) where
  -- Whether some needle may be in a filter, by masks built for it.
  abbrev pub is_member : List ℕ → Bool
  is_member filter =
      if length filter == 0
      then false
      else any (λ mask. missing 0 mask filter == 0)
          (map (needle_mask xxh3 predicate.num_hashes (length filter)) predicate.needles)

  -- The masks kept are those of their width, if it has any bytes.
  abbrev IsBuilt : NeedleMasks → Type 0
  IsBuilt state =
      state.width ≢ 0
      → state.masks ≡ map (needle_mask xxh3 predicate.num_hashes state.width) predicate.needles

  any_member-IsBuilt :
      (state : NeedleMasks) (filter : List ℕ)
      → IsBuilt state
      → ((any_member xxh3 predicate state filter).0 ≡ is_member filter)
        × IsBuilt (any_member xxh3 predicate state filter).1
  unfolding any_member
  any_member-IsBuilt state filter h = elim (Bool-cases (length filter == 0)) [
    | inl e ↦ rw (any_member, e) (refl, h)
    | inr e ↦ elim (Bool-cases (length filter == state.width)) [
      | inl same_width ↦
          let width_eq = (==_iff (length filter) state.width).0 same_width in
          let nonzero : state.width ≢ 0 = λ z. ground (arith, e, width_eq, z) in
          rw (any_member, e, same_width)
            (
              ap (any (λ mask. missing 0 mask filter == 0)) (
                  h nonzero
                  ∙ ap (λ w. map (needle_mask xxh3 predicate.num_hashes w) predicate.needles)
                      (sym width_eq)),
              h,
            )
      | inr other_width ↦ rw (any_member, e, other_width) (unfold build_masks in (refl, λ _. refl))
    ]
  ]

  -- A row's answer, by masks built for it.
  abbrev pub member_row : Column → ℕ → Option Bool
  member_row c i = if c.is_null i then some false else some (is_member (c.bytes_value i))

  check_rows-is_member :
      (c : Column) (state : NeedleMasks) (rows : List ℕ)
      → IsBuilt state
      → check_rows xxh3 predicate c state rows ≡ map (member_row c) rows
  unfolding check_rows
  check_rows-is_member c state [] h = refl
  check_rows-is_member c state (i ∷ rows) h =
      let step = any_member-IsBuilt state (c.bytes_value i) h in
      elim (Bool-cases (c.is_null i)) [
        | inl e ↦
            rw (check_rows, e) (ap (λ t. some false ∷ t) (check_rows-is_member c state rows h))
        | inr e ↦
            rw (check_rows, e)
              (ap₂ (λ b t. some b ∷ t) step.0
                (check_rows-is_member c (any_member xxh3 predicate state (c.bytes_value i)).1 rows
                  step.1))
      ]

-- The masks kept from row to row change no answer: over every column, each row is checked as by
-- masks built for its own filter's width, whatever the widths of the filters before it, and a null
-- row's answer is false.
pub bloom-rows :
    (xxh3 : ℕ → List ℕ → ℕ) (predicate : BloomFilterPredicate) (c : Column) (rows : List ℕ)
    → check_rows xxh3 predicate c no_masks rows ≡ map (member_row xxh3 predicate c) rows
unfolding no_masks
bloom-rows xxh3 predicate c rows =
    check_rows-is_member xxh3 predicate c no_masks rows (λ nonzero. absurd (nonzero refl))
