-- ===== src/Integers/Filter.antt =====
-- A filter on an integer column by its keys answers as a comparison with the declared value.
use sqd_query_engine.Prelude.{
  ℕ, ◌^◌, ◌<◌, Bool, true, ◌&&◌, some, List, [], ◌∷◌, map, ◌==◌, keep, any, All, ◌≡◌, arith, refl,
  subst,
}
use sqd_query_engine.Prelude.Int.{ℤ, pos, eqb_ℤ}
use sqd_query_engine.Prelude.Words.{Fits}
use sqd_query_engine.Integers.{
  width_of, stored_key, declared_value, IntValues, unsigned, signed, is_signed, narrowed_keys,
  stored_keys,
}
use sqd_query_engine.Integers.Keys.{
  Width, bits_of, Width-width_of, unsigned_key_agrees, signed_key_agrees,
}
use sqd_query_engine.Arrow.{DataType}

-- The filter's values lie in the type that holds them.
abbrev pub AreWords : IntValues → Type 0
AreWords (unsigned values) = All (λ v. v < 2 ^ 64) values
AreWords (signed values) = All (λ v. Fits 64 true v) values

-- The filter by its meaning: a declared value is one of the values.
abbrev pub holds_value : IntValues → ℤ → Bool
holds_value (unsigned values) d = any (λ v. eqb_ℤ (pos v) d) values
holds_value (signed values) d = any (λ v. eqb_ℤ v d) values

any-map-keep {ℓ} :
    {A : Type ℓ} (p : ℕ → Bool) (f : A → ℕ) (q r : A → Bool) (P : A → Type 0)
    → ((v : A) → P v → (q v && p (f v)) ≡ r v)
    → (xs : List A) → All P xs
    → any p (map f (keep q xs)) ≡ any r xs
any-map-keep p f q r P same [] h = refl
any-map-keep p f q r P same (x ∷ xs) h =
    ground (arith, same x h.0, any-map-keep p f q r P same xs h.1)

module _ (w : Width) (s : Bool) (x : ℤ) (fits : Fits (bits_of w) s x) where
  narrowed_keys_lem :
      (values : IntValues)
      → AreWords values
      → any (λ k. k == stored_key x) (narrowed_keys values (bits_of w) s)
        ≡ holds_value values (declared_value x (bits_of w) (is_signed values))
  unfolding narrowed_keys is_signed
  narrowed_keys_lem (unsigned values) h =
      any-map-keep _ _ _ _ (λ v. v < 2 ^ 64) (λ v hv. unsigned_key_agrees w s v x hv fits) values h
  narrowed_keys_lem (signed values) h =
      any-map-keep _ _ _ _ (λ v. Fits 64 true v) (λ v hv. signed_key_agrees w s v x hv fits) values
        h

-- Equality by key is equality of declared values, at every stored type: for a type of `b` bits
-- and every value `x` that fits it, the keys of the filter are computed, and they contain the key
-- of `x` exactly when the value that the catalog's signedness gives `x` is one of the filter's.
pub stored_keys-declared_value :
    (values : IntValues) (t : DataType) (b : ℕ) (s : Bool) (x : ℤ)
    → width_of t ≡ some (b, s)
    → AreWords values
    → Fits b s x
    → (keys : List ℕ) × (stored_keys values t ≡ some keys)
      × (any (λ k. k == stored_key x) keys
          ≡ holds_value values (declared_value x b (is_signed values)))
unfolding stored_keys
stored_keys-declared_value values t b s x ht hv hx =
    let (w, e) = Width-width_of t ht in
    (
      narrowed_keys values b s,
      rw (ht, stored_keys),
      rw e (narrowed_keys_lem w s x (subst (λ n. Fits n s x) e hx) values hv),
    )
