-- ===== src/Predicate/Outside.antt =====
-- src/scan/predicate.rs: keys of lists that lie outside the statistics of a row group.
use sqd_query_engine.Prelude.{
  all-map, ℕ, Bool, true, false, ◌||◌, List, [], ◌∷◌, map, if◌then◌else◌, all, get_elem?, some, ◌≡◌,
  arith, refl, ◌∙◌, ap, subst, Bool-cases, inl, inr, ◌==◌, ==_iff,
}
use sqd_query_engine.Prelude.Int.{ℤ, pos, ltb_ℤ}
use sqd_query_engine.Prelude.Words.{Fits, as_unsigned, as_signed}
use sqd_query_engine.Arrow.{DataType, Column}
use sqd_query_engine.Integers.{width_of, stored_key, IntValues, stored_keys}
use sqd_query_engine.Integers.Keys.{Width, bits_of, stored_key_lem}
use sqd_query_engine.Join.{same}
use sqd_query_engine.Join.Semi.{is_text}
use sqd_query_engine.Join.Semi.Keys.{same_iff}
use sqd_query_engine.Predicate.Order.{ltb_bytes}
use sqd_query_engine.Predicate.Search.{none_within-sort, ltb_ℤ-IsOrder}
use sqd_query_engine.Predicate.Scalar.{
  StatRange, ints, texts, key_value, keys_outside, ints_outside,
}
use sqd_query_engine.Predicate.Value.{integers, lists, lists_key}
use sqd_query_engine.Predicate.Column.{Array, plain, dictionary, list_array}
use sqd_query_engine.Predicate.Skip.{in_list_can_skip, sorted_values_at}

-- A value of the stored type, inside the statistics.
abbrev pub Holds : StatRange → Column → ℕ → Type 0
Holds (ints stored low high) c i =
    (c.data_type ≡ stored)
    × ((bits : ℕ) × (signed : Bool) × (width_of stored ≡ some (bits, signed))
        × Fits bits signed (c.int_value i))
    × (ltb_ℤ (c.int_value i) low ≡ false)
    × (ltb_ℤ high (c.int_value i) ≡ false)
Holds (texts low high) c i =
    (is_text c.data_type ≡ true)
    × (ltb_bytes (c.text_value i) low ≡ false)
    × (ltb_bytes high (c.text_value i) ≡ false)

-- The statistics of a row group hold for a row: its value, where it has one, lies inside them. Of a
-- list there are no statistics.
abbrev pub Within : StatRange → Array → ℕ → Type 0
Within stats (plain c) i = c.is_null i ≡ false → Holds stats c i
Within stats (dictionary values keys) i =
    (k : ℕ) → get_elem? keys i ≡ some (some k) → Within stats values k
Within stats (list_array large elements rows) i = Unit

key_value-stored_key :
    (w : Width) (s : Bool) (x : ℤ) → Fits (bits_of w) s x → key_value (stored_key x) s ≡ x
unfolding key_value
key_value-stored_key w s x h = rw (stored_key_lem x) (low w s x h)
  where
    low :
        (w : Width) (s : Bool) (x : ℤ)
        → Fits (bits_of w) s x
        → (if s then as_signed 64 (as_unsigned 64 x) else pos (as_unsigned 64 x)) ≡ x
    low _ true x h = ground arith
    low _ _ x h = ground arith

-- Values outside the bounds do not list one inside them.
pub lists-outside :
    (low high value : List ℕ) (values : List (List ℕ))
    → ltb_bytes value low ≡ false
    → ltb_bytes high value ≡ false
    → all (λ v. ltb_bytes v low || ltb_bytes high v) values ≡ true
    → lists values value ≡ false
unfolding lists
lists-outside low high value [] hl hh h = refl
lists-outside low high value (v ∷ values) hl hh h = elim (Bool-cases (same v value)) [
  | inl e ↦
      let same_value : v ≡ value = (same_iff v value).0 e in
      absurd (ground (arith, ap (λ t. ltb_bytes t low) same_value, ap (ltb_bytes high) same_value))
  | inr e ↦ rw e (lists-outside low high value values hl hh (ground arith))
]

pub lists_key-outside :
    (bits : ℕ) (s : Bool) (w : Width) (low high x : ℤ) (keys : List ℕ)
    → bits ≡ bits_of w
    → Fits bits s x
    → ltb_ℤ x low ≡ false
    → ltb_ℤ high x ≡ false
    → all (λ key. ltb_ℤ (key_value key s) low || ltb_ℤ high (key_value key s)) keys ≡ true
    → lists_key keys (stored_key x) ≡ false
unfolding lists_key
lists_key-outside bits s w low high x [] eb hx hl hh h = refl
lists_key-outside bits s w low high x (k ∷ keys) eb hx hl hh h =
    elim (Bool-cases (k == stored_key x)) [
      | inl e ↦
          let is_x : key_value k s ≡ x =
            ap (λ t. key_value t s) ((==_iff k (stored_key x)).0 e)
            ∙ key_value-stored_key w s x (subst (λ n. Fits n s x) eb hx) in
          absurd (ground (arith, ap (λ t. ltb_ℤ t low) is_x, ap (ltb_ℤ high) is_x))
      | inr e ↦ rw e (lists_key-outside bits s w low high x keys eb hx hl hh (ground arith))
    ]

keys_outside-some :
    (keys : List ℕ) (stored : DataType) (low high : ℤ) (bits : ℕ) (s : Bool)
    → width_of stored ≡ some (bits, s)
    → keys_outside keys stored low high
      ≡ some (all (λ key. ltb_ℤ (key_value key s) low || ltb_ℤ high (key_value key s)) keys)
unfolding keys_outside
keys_outside-some keys stored low high bits s h = rw (keys_outside, h)

pub ints_outside-some :
    (values : IntValues) (stored : DataType) (low high : ℤ) (keys : List ℕ) (bits : ℕ) (s : Bool)
    → stored_keys values stored ≡ some keys
    → width_of stored ≡ some (bits, s)
    → ints_outside values stored low high
      ≡ some (all (λ key. ltb_ℤ (key_value key s) low || ltb_ℤ high (key_value key s)) keys)
unfolding ints_outside
ints_outside-some values stored low high keys bits s hk ht =
    rw (ints_outside, hk) (keys_outside-some keys stored low high bits s ht)

pub in_list_can_skip-ints :
    (values : IntValues) (stored : DataType) (low high : ℤ) (keys : List ℕ) (bits : ℕ) (s : Bool)
    → stored_keys values stored ≡ some keys
    → width_of stored ≡ some (bits, s)
    → in_list_can_skip (integers values) (ints stored low high)
      ≡ all (λ key. ltb_ℤ (key_value key s) low || ltb_ℤ high (key_value key s)) keys
unfolding in_list_can_skip sorted_values_at
in_list_can_skip-ints values stored low high keys bits s hk ht =
    rw (in_list_can_skip, sorted_values_at, ht, hk)
      (none_within-sort ltb_ℤ ltb_ℤ-IsOrder low high (map (λ key. key_value key s) keys)
        ∙ all-map _ (λ key. key_value key s) _ keys (λ _. refl))
