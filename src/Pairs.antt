-- ===== src/Pairs.antt =====
-- src/scan/pairs.rs: sets of two-integer join keys, as bitmaps where they are dense enough.
pub mod Dense
pub mod Hashed
mod Tests
use sqd_query_engine.Prelude.{
  ℕ, zero, suc, ◌+◌, ◌-◌, ◌*◌, ◌/◌, ◌%◌, ◌^◌, bit_or, bit_and, Bool, true, false, ◌||◌, ◌&&◌, not,
  Option, none, some, List, [], ◌∷◌, ◌++◌, map, ltb, leb, ◌==◌, if◌then◌else◌, length, get_elem?,
  get_or, set, replicate, any,
}
use sqd_query_engine.Prelude.Bits.{◌<<<◌, ◌>>>◌}
use sqd_query_engine.Prelude.Words.{
  checked_add, saturating_add, saturating_mul, wrapping_sub, div_ceil,
}
use sqd_query_engine.Selection.{is_empty}

abbrev pub Pair : Type 0
Pair = ℕ × ℕ

unfoldable pub pack16 : ℕ → ℕ → ℕ
pack16 a b = bit_or (a <<< 64) b

-- Where a first component's bitmap starts, the second component its first bit stands for, and how
-- many bits it has.
pub record Slot : Type 0 where
  pub start : ℕ
  pub low : ℕ
  pub width : ℕ

abbrev pub no_slot : Slot
no_slot = record { start = 0; low = 0; width = 0 }

abbrev pub max_slots : ℕ
max_slots = 2 ^ 16

abbrev pub key_bytes : ℕ
key_bytes = 16

-- `size_of::<Slot>()`: three words
abbrev pub slot_size : ℕ
slot_size = 24

pub record DensePairs : Type 0 where
  pub first : ℕ
  pub slots : List Slot
  pub bits : List ℕ
  pub len : ℕ

pub data PairSet : Type 0 where
  dense : DensePairs → PairSet
  hashed : List ℕ → PairSet

-- A pair joins the group before it where it has the first component of that group's first pair.
unfoldable pub join_group : Pair → List (List Pair) → List (List Pair)
join_group p [] = (p ∷ []) ∷ []
join_group p ([] ∷ groups) = (p ∷ []) ∷ groups
join_group p ((q ∷ group) ∷ groups) =
    if p.0 == q.0 then (p ∷ q ∷ group) ∷ groups else (p ∷ []) ∷ (q ∷ group) ∷ groups

-- `chunk_by(|x, y| x.0 == y.0)`
unfoldable pub chunk_by_first : List Pair → List (List Pair)
unfolding join_group
chunk_by_first [] = []
chunk_by_first (p ∷ pairs) = join_group p (chunk_by_first pairs)

abbrev pub last_of : Pair → List Pair → Pair
last_of p [] = p
last_of p (q ∷ pairs) = last_of q pairs

-- The closure `width`; no group is empty.
unfoldable pub group_width : List Pair → Option ℕ
group_width [] = none
group_width (p ∷ group) = checked_add ((last_of p group).1 - p.1) 1

-- `total` after all groups: `none` where a sum overflows.
unfoldable pub total_width : ℕ → List (List Pair) → Option ℕ
unfolding group_width
total_width total [] = some total
total_width total (group ∷ groups) = elim (group_width group) [
  | none ↦ none
  | some width ↦ elim (checked_add total width) [
    | none ↦ none
    | some total' ↦ total_width total' groups
  ]
]

-- `expect("checked above")`
abbrev pub checked_width : Option ℕ → ℕ
checked_width none = 0
checked_width (some width) = width

-- One slot for each group, one behind another.
unfoldable pub fill_slots : ℕ → ℕ → List (List Pair) → List Slot → List Slot
unfolding group_width
fill_slots first start [] slots = slots
fill_slots first start ([] ∷ groups) slots = fill_slots first start groups slots
fill_slots first start ((p ∷ group) ∷ groups) slots =
    let width = checked_width (group_width (p ∷ group)) in
    fill_slots first (start + width) groups
      (set slots (p.0 - first) (record { start = start; low = p.1; width = width }))

unfoldable pub fill_bits : ℕ → List Slot → List Pair → List ℕ → List ℕ
fill_bits first slots [] bits = bits
fill_bits first slots ((a, b) ∷ pairs) bits =
    let slot = get_or slots (a - first) no_slot in
    let bit = slot.start + (b - slot.low) in
    let at = bit >>> 6 in
    fill_bits first slots pairs (set bits at (bit_or (get_or bits at 0) (1 <<< bit_and bit 63)))

-- The bytes of bitmaps of so many slots and bits.
unfoldable pub dense_bytes : ℕ → ℕ → ℕ
dense_bytes span total =
    saturating_add (saturating_mul span slot_size) (saturating_mul (div_ceil total 64) 8)

-- `DensePairs::build`, of sorted pairs without duplicates.
unfoldable pub build : List Pair → Option DensePairs
unfolding chunk_by_first total_width dense_bytes fill_slots fill_bits
build [] = some (record { first = 0; slots = []; bits = []; len = 0 })
build (p ∷ pairs) =
    let first = p.0 in
    let last = (last_of p pairs).0 in
    if leb max_slots (last - first)
    then none
    else (let span = last - first + 1 in
        let groups = chunk_by_first (p ∷ pairs) in
        elim (total_width 0 groups) [
          | none ↦ none
          | some total ↦
              if ltb (saturating_mul (length (p ∷ pairs)) key_bytes) (dense_bytes span total)
              then none
              else (let slots = fill_slots first 0 groups (replicate span no_slot) in
                  some (record {
                    first = first;
                    slots = slots;
                    bits = fill_bits first slots (p ∷ pairs) (replicate (div_ceil total 64) 0);
                    len = length (p ∷ pairs);
                  }))
        ])

-- `DensePairs::contains`; `none` where the code would index past the bitmap.
unfoldable pub dense_contains : DensePairs → ℕ → ℕ → Option Bool
dense_contains d a b = elim (get_elem? d.slots (wrapping_sub a d.first)) [
  | none ↦ some false
  | some slot ↦
      let offset = wrapping_sub b slot.low in
      if leb slot.width offset
      then some false
      else (let bit = slot.start + offset in
          elim (get_elem? d.bits (bit >>> 6)) [
            | none ↦ none
            | some word ↦ some (bit_and (word >>> bit_and bit 63) 1 == 1)
          ])
]

-- Pairs by their first component, then by their second.
unfoldable pub insert_pair : Pair → List Pair → List Pair
insert_pair p [] = p ∷ []
insert_pair p (q ∷ pairs) =
    let rest = insert_pair p pairs in
    if ltb p.0 q.0 || (p.0 == q.0 && leb p.1 q.1) then p ∷ q ∷ pairs else q ∷ rest

-- `sort_unstable`
unfoldable pub sort_pairs : List Pair → List Pair
unfolding insert_pair
sort_pairs [] = []
sort_pairs (p ∷ pairs) = insert_pair p (sort_pairs pairs)

abbrev pub same_pair : Pair → Pair → Bool
same_pair p q = p.0 == q.0 && p.1 == q.1

-- `dedup`: of equal pairs that stand together, one is left.
unfoldable pub dedup : List Pair → List Pair
dedup [] = []
dedup (p ∷ pairs) = elim (dedup pairs) [
  | [] ↦ p ∷ []
  | q ∷ rest ↦ if same_pair p q then q ∷ rest else p ∷ q ∷ rest
]

-- `PairSet::new`
unfoldable pub pair_set : List Pair → PairSet
unfolding build sort_pairs dedup pack16
pair_set pairs =
    let unique = dedup (sort_pairs pairs) in
    elim (build unique) [ some d ↦ dense d | none ↦ hashed (map (λ p. pack16 p.0 p.1) unique) ]

-- `PairSet::is_empty`
unfoldable pub set_is_empty : PairSet → Bool
set_is_empty (dense d) = d.len == 0
set_is_empty (hashed set) = is_empty set

-- `PairSet::contains`
unfoldable pub set_contains : PairSet → ℕ → ℕ → Option Bool
unfolding dense_contains pack16
set_contains (dense d) a b = dense_contains d a b
set_contains (hashed set) a b = some (any (λ key. key == pack16 a b) set)
