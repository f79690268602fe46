-- ===== src/Predicate/Admitted.antt =====
-- The filter that src/scan/predicate.rs makes of the lists of several items: it keeps every row that
-- one of the items keeps.
use sqd_query_engine.Prelude.{
  ℕ, Bool, true, false, ◌&&◌, List, [], ◌∷◌, map, if◌then◌else◌, any, keep, Option, none, some,
  get_elem?, ◌≡◌, refl, arith, sym, ◌∙◌,
}
use sqd_query_engine.Prelude.Int.{ℤ}
use sqd_query_engine.Join.Semi.{is_text}
use sqd_query_engine.Arrow.{Column}
use sqd_query_engine.Integers.{
  width_of, is_integer, stored_key, IntValues, unsigned, signed, stored_keys, narrowed_keys,
}
use sqd_query_engine.Predicate.Mask.{
  Mask, masked, unsupported, Expected, mask_nullable, mask_definite, or_unsupported, keeps,
}
use sqd_query_engine.Predicate.Kept.{kept-mask_nullable, kept-mask_definite}
use sqd_query_engine.Predicate.Value.{
  FilterList, strings, integers, byte_strings, other_list, lists, lists_key, is_binary, in_list_int,
  in_list_text, in_list_bytes, in_ints, in_list_mask,
}
use sqd_query_engine.Predicate.Column.{
  Array, plain, dictionary, list_array, Libraries, in_list, through_dictionary, value_mask,
  evaluate_value,
}
use sqd_query_engine.Predicate.Pruning.{kept-taken, kept_at_key}

-- The values of one list are among those of another, of its type.
abbrev pub Covers : FilterList → FilterList → Type 0
Covers (strings more) (strings fewer) = (f : List ℕ → Bool) → any f fewer ≡ true → any f more ≡ true
Covers (integers (unsigned more)) (integers (unsigned fewer)) =
    (f : ℕ → Bool) → any f fewer ≡ true → any f more ≡ true
Covers (integers (signed more)) (integers (signed fewer)) =
    (f : ℤ → Bool) → any f fewer ≡ true → any f more ≡ true
Covers (byte_strings more) (byte_strings fewer) =
    (f : List ℕ → Bool) → any f fewer ≡ true → any f more ≡ true
Covers _ _ = ⊥

any-map-keep {ℓ} :
    {A : Type ℓ} (p : ℕ → Bool) (f : A → ℕ) (q : A → Bool) (xs : List A)
    → any p (map f (keep q xs)) ≡ any (λ x. q x && p (f x)) xs
any-map-keep p f q [] = refl
any-map-keep p f q (x ∷ xs) = ground (arith, any-map-keep p f q xs)

narrowed_keys-Covers :
    (more fewer : IntValues) (bits : ℕ) (s : Bool) (key : ℕ)
    → Covers (integers more) (integers fewer)
    → lists_key (narrowed_keys fewer bits s) key ≡ true
    → lists_key (narrowed_keys more bits s) key ≡ true
unfolding lists_key narrowed_keys
narrowed_keys-Covers (unsigned more) (unsigned fewer) bits s key h e =
    any-map-keep _ _ _ more ∙ h _ (sym (any-map-keep _ _ _ fewer) ∙ e)
narrowed_keys-Covers (signed more) (signed fewer) bits s key h e =
    any-map-keep _ _ _ more ∙ h _ (sym (any-map-keep _ _ _ fewer) ∙ e)
narrowed_keys-Covers (unsigned more) (signed fewer) bits s key h e = absurd h
narrowed_keys-Covers (signed more) (unsigned fewer) bits s key h e = absurd h

module _ (c : Column) (i : ℕ) where
  implied :
      (a b x y : Bool) → (x ≡ true → y ≡ true) → (a && (b && x)) ≡ true → (a && (b && y)) ≡ true
  implied true true x y h e = h e
  implied true false x y h e = e
  implied false b x y h e = e

  nullable_implied :
      (typed : Bool) (f g : ℕ → Bool) (expected : Expected)
      → (f i ≡ true → g i ≡ true)
      → keeps
          (or_unsupported (if typed then some (mask_nullable c f) else none) expected c.data_type)
          i
        ≡ true
      → keeps
          (or_unsupported (if typed then some (mask_nullable c g) else none) expected c.data_type)
          i
        ≡ true
  unfolding or_unsupported
  nullable_implied true f g expected h e =
      kept-mask_nullable c g i ∙ implied _ _ (f i) (g i) h (sym (kept-mask_nullable c f i) ∙ e)
  nullable_implied false f g expected h e = e

  definite_implied :
      (typed : Bool) (f g : ℕ → Bool) (expected : Expected)
      → (f i ≡ true → g i ≡ true)
      → keeps
          (or_unsupported (if typed then some (mask_definite c f) else none) expected c.data_type)
          i
        ≡ true
      → keeps
          (or_unsupported (if typed then some (mask_definite c g) else none) expected c.data_type)
          i
        ≡ true
  unfolding or_unsupported
  definite_implied true f g expected h e =
      kept-mask_definite c g i ∙ implied _ _ (f i) (g i) h (sym (kept-mask_definite c f i) ∙ e)
  definite_implied false f g expected h e = e

  in_ints-Covers :
      (more fewer : IntValues) (expected : Expected)
      → Covers (integers more) (integers fewer)
      → keeps (in_ints c fewer expected) i ≡ true
      → keeps (in_ints c more expected) i ≡ true
  unfolding in_ints in_list_int stored_keys
  in_ints-Covers more fewer expected h e = by_width (width_of c.data_type) e
    where
      at_keys : IntValues → Option (ℕ × Bool) → Mask
      at_keys values width =
          let keys : Option (List ℕ) = elim width [
            | none ↦ none
            | some (bits, s) ↦ some (narrowed_keys values bits s)
          ] in
          elim keys [
            | none ↦ or_unsupported none expected c.data_type
            | some keys ↦ or_unsupported (in_list_int c keys) expected c.data_type
          ]

      by_width :
          (width : Option (ℕ × Bool))
          → keeps (at_keys fewer width) i ≡ true
          → keeps (at_keys more width) i ≡ true
      by_width none e = e
      by_width (some (bits, s)) e =
          nullable_implied (is_integer c.data_type) _ _ expected
            (narrowed_keys-Covers more fewer bits s (stored_key (c.int_value i)) h) e

  in_list_mask-Covers :
      (more fewer : FilterList)
      → Covers more fewer
      → keeps (in_list_mask c fewer) i ≡ true
      → keeps (in_list_mask c more) i ≡ true
  unfolding in_list_mask in_list_text in_list_bytes lists
  in_list_mask-Covers (strings more) (strings fewer) h e =
      nullable_implied (is_text c.data_type) _ _ Expected.a_list_of_strings (h _) e
  in_list_mask-Covers (byte_strings more) (byte_strings fewer) h e =
      definite_implied (is_binary c.data_type) _ _ Expected.a_list_of_byte_strings (h _) e
  in_list_mask-Covers (integers more) (integers fewer) h e =
      in_ints-Covers more fewer Expected.a_list_of_integers h e
  in_list_mask-Covers (strings more) (integers fewer) h e = absurd h
  in_list_mask-Covers (strings more) (byte_strings fewer) h e = absurd h
  in_list_mask-Covers (strings more) other_list h e = absurd h
  in_list_mask-Covers (byte_strings more) (integers fewer) h e = absurd h
  in_list_mask-Covers (byte_strings more) (strings fewer) h e = absurd h
  in_list_mask-Covers (byte_strings more) other_list h e = absurd h
  in_list_mask-Covers (integers (unsigned more)) (strings fewer) h e = absurd h
  in_list_mask-Covers (integers (signed more)) (strings fewer) h e = absurd h
  in_list_mask-Covers (integers (unsigned more)) (byte_strings fewer) h e = absurd h
  in_list_mask-Covers (integers (signed more)) (byte_strings fewer) h e = absurd h
  in_list_mask-Covers (integers (unsigned more)) other_list h e = absurd h
  in_list_mask-Covers (integers (signed more)) other_list h e = absurd h
  in_list_mask-Covers other_list fewer h e = absurd h

-- Whether a mask keeps the row that a key names.
abbrev keeps_key : Mask → Option (Option ℕ) → Bool
keeps_key mask (some (some k)) = keeps mask k
keeps_key mask _ = false

keeps-through_dictionary :
    (mask : Mask) (keys : List (Option ℕ)) (i : ℕ)
    → keeps (through_dictionary mask keys) i ≡ keeps_key mask (get_elem? keys i)
unfolding through_dictionary
keeps-through_dictionary (masked m) keys i = kept-taken m keys i ∙ by_key (get_elem? keys i)
  where
    by_key : (key : Option (Option ℕ)) → kept_at_key m key ≡ keeps_key (masked m) key
    by_key none = refl
    by_key (some none) = refl
    by_key (some (some k)) = refl
keeps-through_dictionary (unsupported e) keys i = by_key (get_elem? keys i)
  where
    by_key : (key : Option (Option ℕ)) → false ≡ keeps_key (unsupported e) key
    by_key none = refl
    by_key (some none) = refl
    by_key (some (some k)) = refl

pub evaluate_value-Covers :
    (lib : Libraries) (more fewer : FilterList) (a : Array) (i : ℕ)
    → Covers more fewer
    → keeps (evaluate_value lib (in_list fewer) a) i ≡ true
    → keeps (evaluate_value lib (in_list more) a) i ≡ true
unfolding evaluate_value value_mask or_unsupported
evaluate_value-Covers lib more fewer (plain c) i h e = in_list_mask-Covers c i more fewer h e
evaluate_value-Covers lib more fewer (list_array large elements rows) i h e = absurd (ground arith)
evaluate_value-Covers lib more fewer (dictionary values keys) i h e =
    keeps-through_dictionary (evaluate_value lib (in_list more) values) keys i
    ∙ by_key (get_elem? keys i) (λ k. evaluate_value-Covers lib more fewer values k h)
        (sym (keeps-through_dictionary (evaluate_value lib (in_list fewer) values) keys i) ∙ e)
  where
    by_key :
        (key : Option (Option ℕ))
        → ((k : ℕ)
            → keeps (evaluate_value lib (in_list fewer) values) k ≡ true
            → keeps (evaluate_value lib (in_list more) values) k ≡ true)
        → keeps_key (evaluate_value lib (in_list fewer) values) key ≡ true
        → keeps_key (evaluate_value lib (in_list more) values) key ≡ true
    by_key none h e = e
    by_key (some none) h e = e
    by_key (some (some k)) h e = h k e
