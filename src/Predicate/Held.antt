-- ===== src/Predicate/Held.antt =====
-- src/scan/predicate.rs: values that the statistics of a row group hold, through each kind of mask.
use sqd_query_engine.Integers.Keys.{is_integer-width}
use sqd_query_engine.Prelude.{
  ℕ, ◌<◌, Bool, true, false, ◌&&◌, ◌||◌, List, [], ◌∷◌, if◌then◌else◌, get_elem?, lt→ltb, Option,
  none, some, ◌≡◌, ◌≢◌, arith, refl, sym, ◌∙◌, ap, Option-cases, inl, inr, &&_iff,
}
use sqd_query_engine.Prelude.Int.{ℤ, pos, negsuc, ltb_ℤ, eqb_ℤ}
use sqd_query_engine.Arrow.{DataType, Column}
use sqd_query_engine.Integers.{is_integer, stored_key, IntValues, stored_keys}
use sqd_query_engine.Join.{same}
use sqd_query_engine.Join.Semi.{is_text}
use sqd_query_engine.Join.Semi.Keys.{same_iff}
use sqd_query_engine.Predicate.Order.{ltb_bytes, ltb_bytes_antisymm}
use sqd_query_engine.Predicate.Mask.{Expected, mask_nullable, or_unsupported, keeps}
use sqd_query_engine.Predicate.Kept.{kept-mask_nullable}
use sqd_query_engine.Predicate.Scalar.{
  ScalarValue, boolean, uint8, uint16, uint32, uint64, int16, int64, text, as_ints, StatRange, ints,
  texts, ints_hold,
}
use sqd_query_engine.Predicate.Value.{
  FilterList, strings, integers, byte_strings, other_list, lists, lists_key, in_list_int,
  in_list_text, in_ints, equal_mask, in_list_mask,
}
use sqd_query_engine.Predicate.Column.{Array, plain, dictionary, list_array}
use sqd_query_engine.Predicate.Skip.{equal_matches, in_list_matches}
use sqd_query_engine.Predicate.Outside.{Holds}

-- The row has a value, of the stored type and inside the statistics.
abbrev pub HasValue : StatRange → Array → ℕ → Type 0
HasValue stats (plain c) i = (i < c.len) × (c.is_null i ≡ false) × Holds stats c i
HasValue stats (dictionary values keys) i =
    (k : ℕ) × (get_elem? keys i ≡ some (some k)) × HasValue stats values k
HasValue stats (list_array large elements rows) i = Unit

eqb_ℤ→eq : (a b : ℤ) → eqb_ℤ a b ≡ true → a ≡ b
eqb_ℤ→eq (pos a) (pos b) h = ground arith
eqb_ℤ→eq (pos a) (negsuc b) h = absurd (ground arith)
eqb_ℤ→eq (negsuc a) (pos b) h = absurd (ground arith)
eqb_ℤ→eq (negsuc a) (negsuc b) h = ground arith

-- Between two equal bounds there is one value.
the_value :
    (low high x : ℤ) → eqb_ℤ low high ≡ true → ltb_ℤ x low ≡ false → ltb_ℤ high x ≡ false → low ≡ x
the_value low high x e hl hh =
    eqb_ℤ→eq low x (squeezed low x hl (ap (λ t. ltb_ℤ t x) (eqb_ℤ→eq low high e) ∙ hh))
  where
    squeezed : (a b : ℤ) → ltb_ℤ b a ≡ false → ltb_ℤ a b ≡ false → eqb_ℤ a b ≡ true
    squeezed (pos a) (pos b) h k = ground arith
    squeezed (pos a) (negsuc b) h k = absurd (ground arith)
    squeezed (negsuc a) (pos b) h k = absurd (ground arith)
    squeezed (negsuc a) (negsuc b) h k = ground arith

the_text :
    (low high t : List ℕ)
    → same low high ≡ true
    → ltb_bytes t low ≡ false
    → ltb_bytes high t ≡ false
    → low ≡ t
the_text low high t e hl hh =
    (same_iff low t).0
      (ltb_bytes_antisymm low t (ap (λ u. ltb_bytes u t) ((same_iff low high).0 e) ∙ hh) hl)

or_false : (b : Bool) → (b || false) ≡ b
or_false true = refl
or_false false = refl

never_both : (b : Bool) → (b && false) ≢ true
never_both b h = ground arith

-- Whether keys, if there are any, list one.
held : Option (List ℕ) → ℕ → Bool
held none key = false
held (some keys) key = lists_key keys key

ints_hold-held :
    (values : IntValues) (stored : DataType) (value : ℤ)
    → (elim (ints_hold values stored value) [ none ↦ false | some b ↦ b ])
      ≡ held (stored_keys values stored) (stored_key value)
unfolding ints_hold held lists_key
ints_hold-held values stored value = elim (Option-cases (stored_keys values stored)) [
  | inl e ↦ rw (ints_hold, held, e) refl
  | inr (keys, e) ↦ rw (ints_hold, held, e) refl
]

module _ (c : Column) (i : ℕ) (inside : i < c.len) (present : c.is_null i ≡ false) where
  typed_mask-kept :
      (typed : Bool) (f : ℕ → Bool) (expected : Expected)
      → typed ≡ true
      → f i ≡ true
      → keeps
          (or_unsupported (if typed then some (mask_nullable c f) else none) expected c.data_type)
          i
        ≡ true
  unfolding or_unsupported
  typed_mask-kept true f expected ht hf =
      rw (kept-mask_nullable c f i, present, hf, lt→ltb i c.len inside) refl
  typed_mask-kept false f expected ht hf = absurd (ground arith)

  text-kept :
      (values : List (List ℕ)) (low high : List ℕ) (expected : Expected)
      → (same low high && lists values low) ≡ true
      → Holds (texts low high) c i
      → keeps (or_unsupported (in_list_text c values) expected c.data_type) i ≡ true
  unfolding in_list_text
  text-kept values low high expected e h =
      let both = (&&_iff (same low high) (lists values low)).0 e in
      typed_mask-kept (is_text c.data_type) _ expected h.0
        (ap (lists values) (sym (the_text low high (c.text_value i) both.0 h.1 h.2)) ∙ both.1)

  ints-kept :
      (values : IntValues) (keys : List ℕ) (stored : DataType) (low high : ℤ) (expected : Expected)
      → stored_keys values stored ≡ some keys
      → (eqb_ℤ low high && lists_key keys (stored_key low)) ≡ true
      → Holds (ints stored low high) c i
      → keeps (in_ints c values expected) i ≡ true
  unfolding in_ints in_list_int
  ints-kept values keys stored low high expected ek e h =
      let both = (&&_iff (eqb_ℤ low high) (lists_key keys (stored_key low))).0 e in
      let (bits, s, ht, hx) = h.1 in
      rw (in_ints, ap (stored_keys values) h.0 ∙ ek)
        (typed_mask-kept (is_integer c.data_type) _ expected
          (ap is_integer h.0 ∙ is_integer-width stored ht)
          (ap (λ x. lists_key keys (stored_key x))
              (sym (the_value low high (c.int_value i) both.0 h.2 h.3))
            ∙ both.1))

  equal_ints-kept :
      (values : IntValues) (stored : DataType) (low high : ℤ)
      → (eqb_ℤ low high && elim (ints_hold values stored low) [ none ↦ false | some b ↦ b ]) ≡ true
      → Holds (ints stored low high) c i
      → keeps (in_ints c values Expected.an_integer) i ≡ true
  unfolding held
  equal_ints-kept values stored low high e h = elim (Option-cases (stored_keys values stored)) [
    | inl none_kept ↦ absurd (
        never_both (eqb_ℤ low high) (
          sym (
            ap (λ b. eqb_ℤ low high && b)
              (ints_hold-held values stored low ∙ ap (λ o. held o (stored_key low)) none_kept))
          ∙ e))
    | inr (keys, ek) ↦
        ints-kept values keys stored low high Expected.an_integer ek
          (sym (
              ap (λ b. eqb_ℤ low high && b)
                (ints_hold-held values stored low ∙ ap (λ o. held o (stored_key low)) ek))
            ∙ e)
          h
  ]

  pub equal-kept :
      (v : ScalarValue) (stats : StatRange)
      → equal_matches v stats ≡ true
      → Holds stats c i
      → keeps (equal_mask c v) i ≡ true
  unfolding equal_mask equal_matches as_ints
  equal-kept (boolean v) stats e h = absurd (ground arith)
  equal-kept (text v) (texts low high) e h =
      text-kept (v ∷ []) low high Expected.a_string
        (unfold lists in ap (λ t. same low high && t) (or_false (same v low)) ∙ e) h
  equal-kept (text v) (ints stored low high) e h = absurd (ground arith)
  equal-kept (uint8 v) (ints stored low high) e h = equal_ints-kept _ stored low high e h
  equal-kept (uint16 v) (ints stored low high) e h = equal_ints-kept _ stored low high e h
  equal-kept (uint32 v) (ints stored low high) e h = equal_ints-kept _ stored low high e h
  equal-kept (uint64 v) (ints stored low high) e h = equal_ints-kept _ stored low high e h
  equal-kept (int16 v) (ints stored low high) e h = equal_ints-kept _ stored low high e h
  equal-kept (int64 v) (ints stored low high) e h = equal_ints-kept _ stored low high e h
  equal-kept (uint8 v) (texts low high) e h = absurd (ground arith)
  equal-kept (uint16 v) (texts low high) e h = absurd (ground arith)
  equal-kept (uint32 v) (texts low high) e h = absurd (ground arith)
  equal-kept (uint64 v) (texts low high) e h = absurd (ground arith)
  equal-kept (int16 v) (texts low high) e h = absurd (ground arith)
  equal-kept (int64 v) (texts low high) e h = absurd (ground arith)

  pub in_list-kept :
      (values : FilterList) (stats : StatRange)
      → in_list_matches values stats ≡ true
      → Holds stats c i
      → keeps (in_list_mask c values) i ≡ true
  unfolding in_list_mask in_list_matches
  in_list-kept (strings values) (texts low high) e h =
      text-kept values low high Expected.a_list_of_strings e h
  in_list-kept (integers values) (ints stored low high) e h =
      elim (Option-cases (stored_keys values stored)) [
        | inl none_kept ↦ absurd (ground (arith, e, none_kept))
        | inr (keys, ek) ↦
            ints-kept values keys stored low high Expected.a_list_of_integers ek
              (sym (
                  ap
                    (λ o.
                      eqb_ℤ low high
                      && elim o [ none ↦ false | some keys ↦ lists_key keys (stored_key low) ])
                    ek)
                ∙ e)
              h
      ]
  in_list-kept (strings values) (ints stored low high) e h = absurd (ground arith)
  in_list-kept (integers values) (texts low high) e h = absurd (ground arith)
  in_list-kept (byte_strings values) stats e h = absurd (ground arith)
  in_list-kept other_list stats e h = absurd (ground arith)
