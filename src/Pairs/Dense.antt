-- ===== src/Pairs/Dense.antt =====
-- The size of a dense set, and membership in a hashed one.
use sqd_query_engine.Prelude.{
  some-inj, ℕ, ◌+◌, ◌-◌, ◌*◌, ◌^◌, ◌≤◌, ◌<◌, false, some, List, [], ◌∷◌, ltb, leb, length, set,
  replicate, length-set, length-replicate, ◌≡◌, arith, refl, sym, ◌∙◌, inl, inr, Bool-cases,
  Option-cases,
}
use sqd_query_engine.Prelude.Words.{div_ceil, saturating_mul}
use sqd_query_engine.Pairs.{
  Pair, Slot, no_slot, DensePairs, chunk_by_first, total_width, group_width, checked_width,
  fill_slots, fill_bits, dense_bytes, build, last_of,
}

length-fill_slots :
    (first start : ℕ) (groups : List (List Pair)) (slots : List Slot)
    → length (fill_slots first start groups slots) ≡ length slots
unfolding fill_slots
length-fill_slots first start [] slots = refl
length-fill_slots first start ([] ∷ groups) slots = length-fill_slots first start groups slots
length-fill_slots first start ((p ∷ group) ∷ groups) slots =
    let width = checked_width (group_width (p ∷ group)) in
    let slot : Slot = record { start = start; low = p.1; width = width } in
    length-fill_slots first (start + width) groups (set slots (p.0 - first) slot)
    ∙ length-set slots (p.0 - first) slot

length-fill_bits :
    (first : ℕ) (slots : List Slot) (pairs : List Pair) (bits : List ℕ)
    → length (fill_bits first slots pairs bits) ≡ length bits
unfolding fill_bits
length-fill_bits first slots [] bits = refl
length-fill_bits first slots ((a, b) ∷ pairs) bits =
    length-fill_bits first slots pairs _ ∙ length-set bits _ _

not_ltb : (a b : ℕ) → ltb a b ≡ false → b ≤ a
not_ltb a b h = ground arith

-- A set that is built dense takes no more bytes, three words a slot and one word of bits, than the
-- keys of its pairs would, sixteen bytes a pair, where those are fewer than 2^64 - 1.
pub build_bytes :
    (pairs : List Pair) (d : DensePairs)
    → build pairs ≡ some d
    → length pairs * 16 < 2 ^ 64 - 1
    → (length d.slots * 24 + length d.bits * 8 ≤ length pairs * 16) × (d.len ≡ length pairs)
unfolding build dense_bytes
build_bytes [] d h small = rw (sym (some-inj h)) (omega arith, refl)
build_bytes (p ∷ pairs) d h small =
    let span = (last_of p pairs).0 - p.0 + 1 in
    let groups = chunk_by_first (p ∷ pairs) in
    elim (Bool-cases (leb (2 ^ 16) ((last_of p pairs).0 - p.0))) [
      | inl wide ↦ absurd (ground arith)
      | inr narrow ↦ elim (Option-cases (total_width 0 groups)) [
        | inl over ↦ absurd (ground arith)
        | inr (total, summed) ↦
            elim (Bool-cases
              (ltb (saturating_mul (length (p ∷ pairs)) 16) (dense_bytes span total))) [
                | inl sparse ↦ absurd (ground arith)
                | inr dense ↦
                    let slots = fill_slots p.0 0 groups (replicate span no_slot) in
                    let words = div_ceil total 64 in
                    let made : DensePairs = record {
                      first = p.0;
                      slots = slots;
                      bits = fill_bits p.0 slots (p ∷ pairs) (replicate words 0);
                      len = length (p ∷ pairs);
                    } in
                    let returned : build (p ∷ pairs) ≡ some made =
                      rw (narrow, summed, dense) refl in
                    let n_slots : length made.slots ≡ span =
                      length-fill_slots p.0 0 groups (replicate span no_slot)
                      ∙ length-replicate span no_slot in
                    let n_words : length made.bits ≡ words =
                      length-fill_bits p.0 slots (p ∷ pairs) (replicate words 0)
                      ∙ length-replicate words 0 in
                    let fits =
                      not_ltb (saturating_mul (length (p ∷ pairs)) 16) (dense_bytes span total)
                        dense in
                    rw (sym (some-inj (sym returned ∙ h))) (omega arith, refl)
              ]
      ]
    ]
