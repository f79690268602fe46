-- ===== src/Sets/Bounds.antt =====
-- A lookup never reads past the fingerprints of a structure that `from_bytes` accepted.
use sqd_query_engine.Prelude.{
  ℕ, zero, suc, ◌+◌, ◌-◌, ◌*◌, ◌/◌, ◌%◌, ◌^◌, ◌≤◌, ◌<◌, Bool, true, false, some, List, ◌==◌, ==_iff,
  any, length, get_elem?-eq-some, get_or, range_from, bit_and, bit_xor, ◌≡◌, arith, refl,
}
use native.Mathlib.Nat.{div-lt_iff_lt-mul, mod-add-div'}
use sqd_query_engine.Prelude.Bits.{two_pow_pos, ◌>>>◌, bit_and-le_right, bit_xor-div}
use sqd_query_engine.Sets.{
  Fuse8, is_power_of_two, is_sound, from_bytes, mix, index_0, index_1, index_2, hash_of, contains,
}

-- What soundness says of a structure.
pub record IsSound (f : Fuse8) : Type 0 where
  pub exponent : ℕ
  pub power : f.segment_length ≡ 2 ^ exponent
  pub mask : f.segment_mask ≡ f.segment_length - 1
  pub segments : ℕ
  pub multiple : f.segment_count_length ≡ segments * f.segment_length
  pub some_segment : 1 ≤ segments
  pub enough : f.segment_count_length + 2 * f.segment_length ≤ length f.fingerprints

power_of_two_from :
    (n lo k : ℕ) → any (λ e. n == 2 ^ e) (range_from lo k) ≡ true → (e : ℕ) × (n ≡ 2 ^ e)
power_of_two_from n lo zero h = absurd (ground arith)
power_of_two_from n lo (suc k) h =
    elim (n == 2 ^ lo) as (λ b. (n == 2 ^ lo) ≡ b → (e : ℕ) × (n ≡ 2 ^ e)) [
      | true ↦ λ p. (lo, (==_iff n (2 ^ lo)).0 p)
      | false ↦ λ p. power_of_two_from n (suc lo) k (ground arith)
    ]
      refl

-- `^` with a number below a block's size stays below any bound that is a number of blocks.
xor-lt-blocks : (e c x r : ℕ) → x < c * 2 ^ e → r < 2 ^ e → bit_xor x r < c * 2 ^ e
xor-lt-blocks e c x r hx hr = (div-lt_iff_lt-mul {k = 2 ^ e} (omega (arith, two_pow_pos e))).0 (
    rw (bit_xor-div e x r hr) ((div-lt_iff_lt-mul {k = 2 ^ e} (omega (arith, two_pow_pos e))).1 hx))

bit_xor-lt : (k a b : ℕ) → a < 2 ^ k → b < 2 ^ k → bit_xor a b < 2 ^ k
bit_xor-lt k a b ha hb = omega (arith, xor-lt-blocks k 1 a b (omega arith) hb)

mix-lt : (x : ℕ) → x < 2 ^ 64 → mix x < 2 ^ 64
unfolding mix
mix-lt x h =
    let stays = λ (y : ℕ) (hy : y < 2 ^ 64). bit_xor-lt 64 y (y >>> 33) hy (omega arith) in
    stays _ (omega arith)

is_sound-parts :
    (len mask cl count : ℕ)
    → is_sound len mask cl count ≡ true
    → (is_power_of_two len ≡ true)
      × (mask ≡ len - 1)
      × (0 < cl)
      × (cl % len ≡ 0)
      × (cl + 2 * len ≤ count)
unfolding is_sound
is_sound-parts len mask cl count h = ground arith

segment_positive : (n len : ℕ) → 0 < n → n % len ≡ 0 → 1 ≤ n / len
segment_positive n zero positive multiple = absurd (omega arith)
segment_positive n (suc len) positive multiple = grind (arith, mod-add-div' n (suc len))

module _ (xxh3_64 : List ℕ → ℕ) where
  accepted :
      (bytes : List ℕ) (f : Fuse8)
      → from_bytes xxh3_64 bytes ≡ some f
      → is_sound f.segment_length f.segment_mask f.segment_count_length (length f.fingerprints)
        ≡ true
  accepted bytes f h = unfold from_bytes in ground arith

  -- What `from_bytes` accepts is sound.
  pub from_bytes-IsSound :
      (bytes : List ℕ) (f : Fuse8) → from_bytes xxh3_64 bytes ≡ some f → IsSound f
  from_bytes-IsSound bytes f h =
      let (two, mask, positive, multiple, enough) = is_sound-parts _ _ _ _ (accepted bytes f h) in
      let (e, power) = power_of_two_from f.segment_length 0 64 (unfold is_power_of_two in two) in
      record {
        exponent = e;
        power = power;
        mask = mask;
        segments = f.segment_count_length / f.segment_length;
        multiple = omega (arith, mod-add-div' f.segment_count_length f.segment_length);
        some_segment = segment_positive f.segment_count_length f.segment_length positive multiple;
        enough = enough;
      }

hash_of-lt : (xxh3_64 : List ℕ → ℕ) (f : Fuse8) (value : List ℕ) → hash_of xxh3_64 f value < 2 ^ 64
unfolding hash_of
hash_of-lt xxh3_64 f value = mix-lt _ (omega arith)

module _ (f : Fuse8) (sound : IsSound f) (hash : ℕ) (word : hash < 2 ^ 64) where
  index_0-lt : index_0 f hash < f.segment_count_length
  unfolding index_0
  index_0-lt =
      (div-lt_iff_lt-mul {k = 2 ^ 64} (omega arith)).1
        (grind (arith, sound.multiple, sound.some_segment, sound.power, two_pow_pos sound.exponent))

  masked-lt : (x : ℕ) → bit_and x f.segment_mask < 2 ^ sound.exponent
  masked-lt x = omega (
    arith,
    bit_and-le_right x f.segment_mask,
    two_pow_pos sound.exponent,
    sound.mask,
    sound.power,
  )

  index_1-lt : index_1 f hash < f.segment_count_length + f.segment_length
  unfolding index_1
  index_1-lt =
      let e = sound.exponent in
      let count : f.segment_count_length ≡ sound.segments * 2 ^ e =
        rw (sound.multiple, sound.power) in
      omega (
        arith,
        xor-lt-blocks e (sound.segments + 1) (index_0 f hash + f.segment_length)
            (bit_and (hash >>> 18) f.segment_mask) (omega (arith, index_0-lt, count, sound.power))
            (masked-lt (hash >>> 18)),
        count,
        sound.power,
      )

  index_2-lt : index_2 f hash < f.segment_count_length + 2 * f.segment_length
  unfolding index_2
  index_2-lt =
      let e = sound.exponent in
      let count : f.segment_count_length ≡ sound.segments * 2 ^ e =
        rw (sound.multiple, sound.power) in
      omega (
        arith,
        xor-lt-blocks e (sound.segments + 2) (index_0 f hash + 2 * f.segment_length)
            (bit_and hash f.segment_mask) (omega (arith, index_0-lt, count, sound.power))
            (masked-lt hash),
        count,
        sound.power,
      )

-- The test of a hash against three fingerprints.
abbrev pub agrees : ℕ → ℕ → ℕ → ℕ → Bool
agrees hash a b c = bit_xor (bit_xor (bit_xor (bit_xor hash (hash >>> 32) % 2 ^ 8) a) b) c == 0

-- Whatever the bytes of a structure that `from_bytes` accepts and whatever the value looked up, the
-- three reads are within the fingerprints, and the lookup answers by the bytes that stand there.
pub contains-total :
    (xxh3_64 : List ℕ → ℕ) (bytes : List ℕ) (f : Fuse8) (value : List ℕ)
    → from_bytes xxh3_64 bytes ≡ some f
    → let hash = hash_of xxh3_64 f value in
      let at = λ (i : ℕ). get_or f.fingerprints i 0 in
      (index_0 f hash < length f.fingerprints)
      × (index_1 f hash < length f.fingerprints)
      × (index_2 f hash < length f.fingerprints)
      × (contains xxh3_64 f value
          ≡ some (agrees hash (at (index_0 f hash)) (at (index_1 f hash)) (at (index_2 f hash))))
unfolding contains hash_of
contains-total xxh3_64 bytes f value h =
    let sound = from_bytes-IsSound xxh3_64 bytes f h in
    let hash = hash_of xxh3_64 f value in
    let word = hash_of-lt xxh3_64 f value in
    let in_0 : index_0 f hash < length f.fingerprints =
      omega (arith, index_0-lt f sound hash word, sound.enough) in
    let in_1 : index_1 f hash < length f.fingerprints =
      omega (arith, index_1-lt f sound hash word, sound.enough) in
    let in_2 : index_2 f hash < length f.fingerprints =
      omega (arith, index_2-lt f sound hash word, sound.enough) in
    (in_0, in_1, in_2, answer xxh3_64 f value in_0 in_1 in_2)
  where
    answer :
        (xxh3_64 : List ℕ → ℕ) (f : Fuse8) (value : List ℕ)
        → let hash = hash_of xxh3_64 f value in
          let at = λ (i : ℕ). get_or f.fingerprints i 0 in
          index_0 f hash < length f.fingerprints
          → index_1 f hash < length f.fingerprints
          → index_2 f hash < length f.fingerprints
          → contains xxh3_64 f value
            ≡ some (agrees hash (at (index_0 f hash)) (at (index_1 f hash)) (at (index_2 f hash)))
    answer xxh3_64 f value in_0 in_1 in_2 =
        let hash = hash_of xxh3_64 f value in
        rw
          (
            contains,
            get_elem?-eq-some f.fingerprints (index_0 f hash) 0 in_0,
            get_elem?-eq-some f.fingerprints (index_1 f hash) 0 in_1,
            get_elem?-eq-some f.fingerprints (index_2 f hash) 0 in_2,
          )
          refl
