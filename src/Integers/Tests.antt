-- ===== src/Integers/Tests.antt =====
-- Tests of src/integers.rs, and its theorems at concrete columns.
use sqd_query_engine.Prelude.{
  lift, get_elem?-map, ℕ, Bool, true, false, Option, none, some, List, [], ◌∷◌, map, leb, ◌&&◌, any,
  ◌==◌, ◌≡◌, arith, refl, inl, get_elem?,
}
use sqd_query_engine.Prelude.Int.{pos, negsuc}
use sqd_query_engine.Arrow.DataType.{uint16, int16}
use sqd_query_engine.Integers.{
  signed, stored_key, stored_keys, declared_value, is_signed, block_number, block_number_at,
  width_of,
}
use sqd_query_engine.Integers.Filter.{holds_value, stored_keys-declared_value}
use sqd_query_engine.Integers.Blocks.{
  Kernels, IsRowwise, both, within, within-rows, at_least, at_most, block_number_at-block_number,
}

-- An `int16` stored as `UInt16` holds -1 as 65535.
minus_one : declared_value (pos 65535) 16 true ≡ negsuc 0
unfolding declared_value
minus_one = refl

-- Block 40000 in a signed column of sixteen bits.
sign_extended : block_number_at int16 (negsuc 25535) ≡ some 40000
unfolding block_number_at
sign_extended = refl

stored_keys-declared_value_example :
    (keys : List ℕ) × (stored_keys (signed (negsuc 0 ∷ pos 70000 ∷ [])) uint16 ≡ some keys)
    × (any (λ k. k == stored_key (pos 65535)) keys
        ≡ holds_value
            (signed (negsuc 0 ∷ pos 70000 ∷ []))
            (declared_value (pos 65535) 16 (is_signed (signed (negsuc 0 ∷ pos 70000 ∷ [])))))
stored_keys-declared_value_example =
    stored_keys-declared_value (signed (negsuc 0 ∷ pos 70000 ∷ [])) uint16 16 false (pos 65535)
      (unfold width_of in refl) (omega arith) (omega arith)

block_number_at-block_number_example :
    block_number_at int16 (negsuc 25535) ≡ some (block_number 16 (negsuc 25535))
block_number_at-block_number_example =
    block_number_at-block_number int16 16 true 32 (negsuc 25535) (negsuc 25535)
      (unfold width_of in refl) (inl refl) (omega arith) refl

-- Kernels that compare row by row.
zip_both : List (Option Bool) → List (Option Bool) → List (Option Bool)
zip_both [] b = []
zip_both (x ∷ a) [] = []
zip_both (x ∷ a) (y ∷ b) = both x y ∷ zip_both a b

abbrev kernels : Kernels
kernels = record {
  gt_eq = λ values n. map (lift (λ v. leb n v)) values;
  lt_eq = λ values n. map (lift (λ v. leb v n)) values;
  and = zip_both;
}

get_elem?-zip_both :
    (a b : List (Option Bool)) (i : ℕ) (x y : Option Bool)
    → get_elem? a i ≡ some x
    → get_elem? b i ≡ some y
    → get_elem? (zip_both a b) i ≡ some (both x y)
unfolding zip_both
get_elem?-zip_both [] b i x y p q = absurd (ground arith)
get_elem?-zip_both (u ∷ a) [] i x y p q = absurd (ground arith)
get_elem?-zip_both (u ∷ a) (v ∷ b) ℕ.zero x y p q = ground arith
get_elem?-zip_both (u ∷ a) (v ∷ b) (ℕ.suc i) x y p q = get_elem?-zip_both a b i x y p q

kernels-IsRowwise : IsRowwise kernels
kernels-IsRowwise = record {
  gt_eq_rows = λ values n. get_elem?-map (lift (λ v. leb n v)) values;
  lt_eq_rows = λ values n. get_elem?-map (lift (λ v. leb v n)) values;
  and_rows = get_elem?-zip_both;
}

within-rows_example :
    get_elem? (within kernels 8 (some 3 ∷ none ∷ some 200 ∷ []) (some 5) (some 1000)) 2
    ≡ some (some (at_least (some 5) 200 && at_most (some 1000) 200))
within-rows_example =
    within-rows kernels kernels-IsRowwise 8 (some 3 ∷ none ∷ some 200 ∷ []) 2 (some 5) (some 1000)
      200 refl (omega arith)

-- A lower bound beyond the width answers `false` at a null row, not null.
null_row_beyond_width :
    get_elem? (within kernels 8 (none ∷ []) (some 256) none) 0 ≡ some (some false)
unfolding within
null_row_beyond_width = refl
