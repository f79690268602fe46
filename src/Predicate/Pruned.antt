-- ===== src/Predicate/Pruned.antt =====
-- What src/scan/predicate.rs prunes by statistics: a row group that it skips has no row that the
-- filter keeps.
use sqd_query_engine.Prelude.{
  ℕ, Bool, true, false, ◌||◌, List, [], ◌∷◌, if◌then◌else◌, all, Option, none, some, ◌≡◌, arith,
  refl, sym, ◌∙◌, ap, subst, Bool-cases, Option-cases, inl, inr,
}
use sqd_query_engine.Prelude.Int.{ℤ, ltb_ℤ}
use sqd_query_engine.Arrow.{DataType, Column}
use sqd_query_engine.Integers.{width_of, is_integer, IntValues, stored_keys}
use sqd_query_engine.Integers.Keys.{Width-width_of}
use sqd_query_engine.Join.Semi.{is_text}
use sqd_query_engine.Predicate.Order.{ltb_bytes, ltb_bytes-le_left, ltb_bytes-le_right}
use sqd_query_engine.Predicate.Search.{none_within-sort, ltb_bytes-IsOrder}
use sqd_query_engine.Predicate.Mask.{Expected, mask_nullable, or_unsupported, kept, keeps, constant}
use sqd_query_engine.Predicate.Kept.{kept-mask_nullable}
use sqd_query_engine.Predicate.Scalar.{
  text, ints, texts, key_value, ints_outside, Threshold, below, above, within, reinterpreted,
  threshold, past, past_or_not, at_threshold, text_at_threshold,
}
use sqd_query_engine.Predicate.Value.{
  strings, integers, in_list_int, in_list_text, in_ints, equal_mask, in_list_mask, threshold_mask,
  compare_int, compare_text, compare_mask,
}
use sqd_query_engine.Predicate.Skip.{in_list_can_skip}
use sqd_query_engine.Predicate.Outside.{
  Holds, lists-outside, lists_key-outside, ints_outside-some, in_list_can_skip-ints,
}

module _ (c : Column) (i : ℕ) where
  -- A test that no present value passes keeps no row.
  mask_nullable-none :
      (f : ℕ → Bool) → (c.is_null i ≡ false → f i ≡ false) → kept (mask_nullable c f) i ≡ false
  mask_nullable-none f h = rw (kept-mask_nullable c f i) (elim (Bool-cases (c.is_null i)) [
    | inl e ↦ rw e (ground arith)
    | inr e ↦ rw (e, h e) (ground arith)
  ])

  typed_mask-none :
      (typed : Bool) (f : ℕ → Bool) (expected : Expected)
      → (c.is_null i ≡ false → f i ≡ false)
      → keeps
          (or_unsupported (if typed then some (mask_nullable c f) else none) expected c.data_type)
          i
        ≡ false
  unfolding or_unsupported
  typed_mask-none true f expected h = mask_nullable-none f h
  typed_mask-none false f expected h = refl

  -- Keys that all lie outside the bounds keep no row inside them.
  keys-none :
      (stored : DataType) (low high : ℤ) (keys : List ℕ) (expected : Expected)
      → (c.is_null i ≡ false → Holds (ints stored low high) c i)
      → (c.data_type ≡ stored
          → (bits : ℕ) (s : Bool) → width_of stored ≡ some (bits, s)
          → all (λ key. ltb_ℤ (key_value key s) low || ltb_ℤ high (key_value key s)) keys ≡ true)
      → keeps (or_unsupported (in_list_int c keys) expected c.data_type) i ≡ false
  unfolding in_list_int
  keys-none stored low high keys expected inside skip =
      typed_mask-none (is_integer c.data_type) _ expected (λ present.
        let h = inside present in
        let (bits, s, ht, hx) = h.1 in
        let (w, eb) = Width-width_of stored ht in
        lists_key-outside bits s w low high (c.int_value i) keys eb hx h.2 h.3 (skip h.0 bits s ht))

  in_ints-none :
      (values : IntValues) (stored : DataType) (low high : ℤ) (expected : Expected)
      → (c.is_null i ≡ false → Holds (ints stored low high) c i)
      → ((keys : List ℕ)
          → stored_keys values stored ≡ some keys
          → (bits : ℕ) (s : Bool) → width_of stored ≡ some (bits, s)
          → all (λ key. ltb_ℤ (key_value key s) low || ltb_ℤ high (key_value key s)) keys ≡ true)
      → keeps (in_ints c values expected) i ≡ false
  unfolding in_ints or_unsupported
  in_ints-none values stored low high expected inside skip =
      elim (Option-cases (stored_keys values c.data_type)) [
        | inl e ↦ rw (in_ints, e) refl
        | inr (keys, e) ↦
            rw (in_ints, e)
              (unfold or_unsupported in
                keys-none stored low high keys expected inside
                  (λ same_type. skip keys (ap (stored_keys values) (sym same_type) ∙ e)))
      ]

  pub equal_ints-none :
      (values : IntValues) (stored : DataType) (low high : ℤ)
      → (elim (ints_outside values stored low high) [ none ↦ false | some b ↦ b ]) ≡ true
      → (c.is_null i ≡ false → Holds (ints stored low high) c i)
      → keeps (in_ints c values Expected.an_integer) i ≡ false
  equal_ints-none values stored low high skip inside =
      in_ints-none values stored low high Expected.an_integer inside (λ keys ek bits s ht.
        sym (
          ap (λ o. elim o [ none ↦ false | some b ↦ b ])
            (ints_outside-some values stored low high keys bits s ek ht))
        ∙ skip)

  pub in_list_ints-none :
      (values : IntValues) (stored : DataType) (low high : ℤ)
      → in_list_can_skip (integers values) (ints stored low high) ≡ true
      → (c.is_null i ≡ false → Holds (ints stored low high) c i)
      → keeps (in_ints c values Expected.a_list_of_integers) i ≡ false
  in_list_ints-none values stored low high skip inside =
      in_ints-none values stored low high Expected.a_list_of_integers inside (λ keys ek bits s ht.
        sym (in_list_can_skip-ints values stored low high keys bits s ek ht) ∙ skip)

  pub equal_text-none :
      (v low high : List ℕ)
      → (ltb_bytes v low || ltb_bytes high v) ≡ true
      → (c.is_null i ≡ false → Holds (texts low high) c i)
      → keeps (equal_mask c (text v)) i ≡ false
  unfolding equal_mask in_list_text
  equal_text-none v low high skip inside =
      typed_mask-none (is_text c.data_type) _ Expected.a_string (λ present.
        let h = inside present in
        lists-outside low high (c.text_value i) (v ∷ []) h.1 h.2 (ground arith))

  pub in_list_text-none :
      (values : List (List ℕ)) (low high : List ℕ)
      → in_list_can_skip (strings values) (texts low high) ≡ true
      → (c.is_null i ≡ false → Holds (texts low high) c i)
      → keeps (in_list_mask c (strings values)) i ≡ false
  unfolding in_list_mask in_list_text in_list_can_skip
  in_list_text-none values low high skip inside =
      typed_mask-none (is_text c.data_type) _ Expected.a_list_of_strings (λ present.
        let h = inside present in
        lists-outside low high (c.text_value i) values h.1 h.2
          (sym (none_within-sort ltb_bytes ltb_bytes-IsOrder low high values) ∙ skip))

  pub range_text-none :
      (gte : Bool) (v low high : List ℕ)
      → (if gte then ltb_bytes high v else ltb_bytes v low) ≡ true
      → (c.is_null i ≡ false → Holds (texts low high) c i)
      → keeps (compare_mask c (text v) gte) i ≡ false
  unfolding compare_mask compare_text text_at_threshold
  range_text-none true v low high skip inside =
      typed_mask-none (is_text c.data_type) _ Expected.a_text_threshold (λ present.
        let h = inside present in rw (ltb_bytes-le_left (c.text_value i) high v skip h.2))
  range_text-none false v low high skip inside =
      typed_mask-none (is_text c.data_type) _ Expected.a_text_threshold (λ present.
        let h = inside present in rw (ltb_bytes-le_right v low (c.text_value i) skip h.1))

  no_type :
      (typed : Bool)
      → keeps
          (or_unsupported (if typed then none else none) Expected.an_integer_threshold c.data_type)
          i
        ≡ false
  unfolding or_unsupported
  no_type true = refl
  no_type false = refl

  -- A threshold past the statistics keeps no row inside them.
  threshold-none :
      (gte : Bool) (t : Option Threshold) (stored : DataType) (low high : ℤ)
      → (c.is_null i ≡ false → past_or_not t low high gte ≡ true)
      → (c.is_null i ≡ false → Holds (ints stored low high) c i)
      → keeps
          (or_unsupported
            (if is_integer c.data_type then threshold_mask c t gte else none)
            Expected.an_integer_threshold
            c.data_type)
          i
        ≡ false
  unfolding threshold_mask past_or_not past at_threshold
  threshold-none gte none stored low high skip inside = no_type (is_integer c.data_type)
  threshold-none gte (some below) stored low high skip inside =
      unfold constant in
      typed_mask-none (is_integer c.data_type) _ Expected.an_integer_threshold
        (λ present. ground (arith, skip present))
  threshold-none gte (some above) stored low high skip inside =
      unfold constant in
      typed_mask-none (is_integer c.data_type) _ Expected.an_integer_threshold
        (λ present. ground (arith, skip present))
  threshold-none gte (some (within limit)) stored low high skip inside =
      typed_mask-none (is_integer c.data_type) _ Expected.an_integer_threshold
        (λ present. let h = inside present in ground (arith, h.2, h.3, skip present))
  threshold-none gte (some (reinterpreted limit bits s)) stored low high skip inside =
      typed_mask-none (is_integer c.data_type) _ Expected.an_integer_threshold
        (λ present. absurd (ground (arith, skip present)))

  pub range_ints-none :
      (gte : Bool) (values : IntValues) (stored : DataType) (low high : ℤ)
      → past_or_not (threshold values stored) low high gte ≡ true
      → (c.is_null i ≡ false → Holds (ints stored low high) c i)
      → keeps
          (or_unsupported (compare_int c values gte) Expected.an_integer_threshold c.data_type)
          i
        ≡ false
  unfolding compare_int
  range_ints-none gte values stored low high skip inside =
      threshold-none gte (threshold values c.data_type) stored low high
        (λ present.
          subst (λ u. past_or_not (threshold values u) low high gte ≡ true) (sym (inside present).0)
            skip)
        inside
