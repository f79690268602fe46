-- ===== src/Join/Semi/Encoded.antt =====
-- The values of composite keys and their encodings, which differ where the values do.
use sqd_query_engine.Prelude.Words.{to_le_bytes, as_unsigned, Fits}
use sqd_query_engine.Prelude.Int.{ℤ}
use sqd_query_engine.Prelude.{
  ℕ, zero, suc, ◌/◌, ◌%◌, ◌^◌, ◌<◌, Bool, true, false, List, [], ◌∷◌, ◌++◌, map, if◌then◌else◌,
  length, length-map, ◌≡◌, arith, refl, sym, ap, ap₂, ◌∙◌, All,
}
use sqd_query_engine.Arrow.{Column, RecordBatch}
use sqd_query_engine.Integers.{stored_key}
use sqd_query_engine.Integers.Keys.{stored_key_lem}
use sqd_query_engine.Join.Semi.{TypedExtractor, col_idx, word_bytes}
use sqd_query_engine.Join.Semi.TypedExtractor.{int, text, bool, fixed_binary, int_list}

-- What a key column holds at a row.
pub data KeyValue : Type 0 where
  word : ℤ → KeyValue
  string : List ℕ → KeyValue
  flag : Bool → KeyValue
  bytes : List ℕ → KeyValue
  words : List ℤ → KeyValue

abbrev pub value_of : TypedExtractor → Column → ℕ → KeyValue
value_of (int _) column row = word (column.int_value row)
value_of (text _) column row = string (column.text_value row)
value_of (bool _) column row = flag (column.bool_value row)
value_of (fixed_binary _) column row = bytes (column.bytes_value row)
value_of (int_list _) column row = words (column.list_value row)

-- The values of a row's key columns.
abbrev pub values_of : RecordBatch → ℕ → List TypedExtractor → List KeyValue
values_of batch row [] = []
values_of batch row (e ∷ es) = value_of e (batch.column (col_idx e)) row ∷ values_of batch row es

unfoldable pub encode : KeyValue → List ℕ
encode (word v) = to_le_bytes 8 (stored_key v)
encode (string s) = to_le_bytes 4 (length s % 2 ^ 32) ++ s
encode (flag b) = (if b then 1 else 0) ∷ []
encode (bytes s) = s
encode (words vs) = to_le_bytes 4 (length vs % 2 ^ 32) ++ word_bytes (map stored_key vs)

-- Two values of one kind that fit it: integers of at most 64 bits that are both signed or both
-- unsigned, byte strings of one length, and no more than 2^32 - 1 bytes of text or elements of a list.
pub data Alike : KeyValue → KeyValue → Type 0 where
  word_alike :
      {v u : ℤ} (signed : Bool) → Fits 64 signed v → Fits 64 signed u → Alike (word v) (word u)
  string_alike :
      {s t : List ℕ} → length s < 2 ^ 32 → length t < 2 ^ 32 → Alike (string s) (string t)
  flag_alike : {a b : Bool} → Alike (flag a) (flag b)
  bytes_alike : {s t : List ℕ} → length s ≡ length t → Alike (bytes s) (bytes t)
  words_alike :
      {vs us : List ℤ} (signed : Bool)
      → length vs < 2 ^ 32
      → length us < 2 ^ 32
      → All (Fits 64 signed) vs
      → All (Fits 64 signed) us
      → Alike (words vs) (words us)

pub data AllAlike : List KeyValue → List KeyValue → Type 0 where
  none_left : AllAlike [] []
  both_alike :
      {v u : KeyValue} {vs us : List KeyValue}
      → Alike v u
      → AllAlike vs us
      → AllAlike (v ∷ vs) (u ∷ us)

head-injective {ℓ} : {A : Type ℓ} {x y : A} {xs ys : List A} → x ∷ xs ≡ y ∷ ys → x ≡ y
head-injective h = cc h

tail-injective {ℓ} : {A : Type ℓ} {x y : A} {xs ys : List A} → x ∷ xs ≡ y ∷ ys → xs ≡ ys
tail-injective h = cc h

-- The words that some bytes hold.
FitsBytes : ℕ → ℕ → Type 0
FitsBytes zero n = n ≡ 0
FitsBytes (suc size) n = FitsBytes size (n / 256)

to_le_bytes-injective :
    (size n m : ℕ) (xs ys : List ℕ)
    → FitsBytes size n
    → FitsBytes size m
    → to_le_bytes size n ++ xs ≡ to_le_bytes size m ++ ys
    → (n ≡ m) × (xs ≡ ys)
unfolding FitsBytes
to_le_bytes-injective zero n m xs ys hn hm h = (hn ∙ sym hm, h)
to_le_bytes-injective (suc size) n m xs ys hn hm h =
    let (high, rest) =
      to_le_bytes-injective size (n / 256) (m / 256) xs ys hn hm (tail-injective h) in
    let low : n % 256 ≡ m % 256 = head-injective h in (omega arith, rest)

append-injective :
    (xs ys vs us : List ℕ) → length xs ≡ length ys → xs ++ vs ≡ ys ++ us → (xs ≡ ys) × (vs ≡ us)
append-injective [] [] vs us e h = (refl, h)
append-injective [] (y ∷ ys) vs us e h = absurd (omega arith)
append-injective (x ∷ xs) [] vs us e h = absurd (omega arith)
append-injective (x ∷ xs) (y ∷ ys) vs us e h =
    let (tails, rest) = append-injective xs ys vs us (omega arith) (tail-injective h) in
    (ap₂ (λ a b. a ∷ b) (head-injective h) tails, rest)

word-FitsBytes : (n : ℕ) → n < 2 ^ 64 → FitsBytes 8 n
unfolding FitsBytes
word-FitsBytes n h = omega arith

length-FitsBytes : (n : ℕ) → FitsBytes 4 (n % 2 ^ 32)
unfolding FitsBytes
length-FitsBytes n = omega arith

word_bytes-injective :
    (ns ms xs ys : List ℕ)
    → length ns ≡ length ms
    → All (λ n. n < 2 ^ 64) ns
    → All (λ n. n < 2 ^ 64) ms
    → word_bytes ns ++ xs ≡ word_bytes ms ++ ys
    → (ns ≡ ms) × (xs ≡ ys)
unfolding word_bytes
word_bytes-injective [] [] xs ys e hn hm h = (refl, h)
word_bytes-injective [] (m ∷ ms) xs ys e hn hm h = absurd (omega arith)
word_bytes-injective (n ∷ ns) [] xs ys e hn hm h = absurd (omega arith)
word_bytes-injective (n ∷ ns) (m ∷ ms) xs ys e hn hm h =
    let (first, rest) =
      to_le_bytes-injective 8 n m (word_bytes ns ++ xs) (word_bytes ms ++ ys)
        (word-FitsBytes n hn.0) (word-FitsBytes m hm.0) h in
    let (more, end) = word_bytes-injective ns ms xs ys (omega arith) hn.1 hm.1 rest in
    (ap₂ (λ a b. a ∷ b) first more, end)

as_unsigned-injective :
    (signed : Bool) (v u : ℤ)
    → Fits 64 signed v
    → Fits 64 signed u
    → as_unsigned 64 v ≡ as_unsigned 64 u
    → v ≡ u
as_unsigned-injective true v u hv hu e = ground arith
as_unsigned-injective false v u hv hu e = ground arith

-- The stored key of an integer tells it apart from the others of its signedness.
stored_key-injective :
    (signed : Bool) (v u : ℤ)
    → Fits 64 signed v
    → Fits 64 signed u
    → stored_key v ≡ stored_key u
    → v ≡ u
stored_key-injective signed v u hv hu e =
    as_unsigned-injective signed v u hv hu (sym (stored_key_lem v) ∙ e ∙ stored_key_lem u)

stored_keys-injective :
    (signed : Bool) (vs us : List ℤ)
    → All (Fits 64 signed) vs
    → All (Fits 64 signed) us
    → map stored_key vs ≡ map stored_key us
    → vs ≡ us
stored_keys-injective signed [] [] hv hu e = refl
stored_keys-injective signed [] (u ∷ us) hv hu e = absurd (no_cons e)
  where
    no_cons : {x : ℕ} {xs : List ℕ} → ¬ ([] ≡ x ∷ xs)
    no_cons h = ground arith
stored_keys-injective signed (v ∷ vs) [] hv hu e = absurd (no_nil e)
  where
    no_nil : {x : ℕ} {xs : List ℕ} → ¬ (x ∷ xs ≡ [])
    no_nil h = ground arith
stored_keys-injective signed (v ∷ vs) (u ∷ us) hv hu e =
    ap₂ (λ a b. a ∷ b) (stored_key-injective signed v u hv.0 hu.0 (head-injective e))
      (stored_keys-injective signed vs us hv.1 hu.1 (tail-injective e))

stored_key-lt : (v : ℤ) → stored_key v < 2 ^ 64
stored_key-lt v = rw (stored_key_lem v) (small v)
  where
    small : (v : ℤ) → as_unsigned 64 v < 2 ^ 64
    small v = ground arith

stored_keys-lt : (vs : List ℤ) → All (λ n. n < 2 ^ 64) (map stored_key vs)
stored_keys-lt [] = tt
stored_keys-lt (v ∷ vs) = (stored_key-lt v, stored_keys-lt vs)

encode-injective :
    {v u : KeyValue} (xs ys : List ℕ)
    → Alike v u
    → encode v ++ xs ≡ encode u ++ ys
    → (v ≡ u) × (xs ≡ ys)
unfolding encode
encode-injective xs ys (word_alike {v = v} {u = u} signed hv hu) e =
    let (same_word, rest) =
      to_le_bytes-injective 8 (stored_key v) (stored_key u) xs ys
        (word-FitsBytes (stored_key v) (stored_key-lt v))
        (word-FitsBytes (stored_key u) (stored_key-lt u)) e in
    (ap word (stored_key-injective signed v u hv hu same_word), rest)
encode-injective xs ys (string_alike {s = s} {t = t} hs ht) e =
    let (lengths, rest) =
      to_le_bytes-injective 4 (length s % 2 ^ 32) (length t % 2 ^ 32) (s ++ xs) (t ++ ys)
        (length-FitsBytes (length s)) (length-FitsBytes (length t)) e in
    let (text_same, end) = append-injective s t xs ys (omega arith) rest in
    (ap string text_same, end)
encode-injective xs ys (flag_alike {a = true} {b = true}) e = (refl, tail-injective e)
encode-injective xs ys (flag_alike {a = true} {b = false}) e =
    absurd (omega (arith, head-injective e))
encode-injective xs ys (flag_alike {a = false} {b = true}) e =
    absurd (omega (arith, head-injective e))
encode-injective xs ys (flag_alike {a = false} {b = false}) e = (refl, tail-injective e)
encode-injective xs ys (bytes_alike {s = s} {t = t} h) e =
    let (bytes_same, end) = append-injective s t xs ys h e in (ap bytes bytes_same, end)
encode-injective xs ys (words_alike {vs = vs} {us = us} signed hv hu fv fu) e =
    let ns = map stored_key vs in
    let ms = map stored_key us in
    let (lengths, rest) =
      to_le_bytes-injective 4 (length vs % 2 ^ 32) (length us % 2 ^ 32) (word_bytes ns ++ xs)
        (word_bytes ms ++ ys) (length-FitsBytes (length vs)) (length-FitsBytes (length us)) e in
    let wide : length vs ≡ length us = omega arith in
    let (words_same, end) =
      word_bytes-injective ns ms xs ys
        (length-map stored_key vs ∙ wide ∙ sym (length-map stored_key us)) (stored_keys-lt vs)
        (stored_keys-lt us) rest in
    (ap words (stored_keys-injective signed vs us fv fu words_same), end)

unfoldable pub encode_all : List KeyValue → List ℕ
encode_all [] = []
encode_all (v ∷ vs) = encode v ++ encode_all vs

pub encode_all-injective :
    {vs us : List KeyValue} → AllAlike vs us → encode_all vs ≡ encode_all us → vs ≡ us
unfolding encode_all
encode_all-injective none_left e = refl
encode_all-injective (both_alike {vs = vs} {us = us} h hs) e =
    let (first, rest) = encode-injective (encode_all vs) (encode_all us) h e in
    ap₂ (λ a b. a ∷ b) first (encode_all-injective hs rest)
