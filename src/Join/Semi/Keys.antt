-- ===== src/Join/Semi/Keys.antt =====
-- Composite keys: their bytes tell apart the values that they are written from.
use sqd_query_engine.Prelude.{
  ℕ, true, some, List, [], ◌∷◌, ◌++◌, Bool-cases, Option-cases, inl, inr, ◌≡◌, arith, refl, sym, ap,
  ap₂, ◌∙◌, ◌↔◌,
}
use sqd_query_engine.Arrow.{Column, RecordBatch}
use sqd_query_engine.Join.{same}
use sqd_query_engine.Join.Semi.{TypedExtractor, col_idx, written, append, write_key}
use sqd_query_engine.Join.Semi.TypedExtractor.{int, text, bool, fixed_binary, int_list}
use sqd_query_engine.Join.Semi.Encoded.{
  AllAlike, value_of, values_of, encode, encode_all, encode_all-injective,
}

-- What is written is the encoding of what the column holds.
written-encode :
    (e : TypedExtractor) (column : Column) (row : ℕ)
    → written e column row ≡ encode (value_of e column row)
unfolding written encode
written-encode (int _) column row = refl
written-encode (text _) column row = refl
written-encode (bool _) column row = refl
written-encode (fixed_binary _) column row = refl
written-encode (int_list _) column row = refl

write_key-encode_all :
    (batch : RecordBatch) (row : ℕ) (es : List TypedExtractor) (key : List ℕ)
    → write_key batch row es ≡ some key
    → key ≡ encode_all (values_of batch row es)
unfolding write_key append encode_all
write_key-encode_all batch row [] key h = ground arith
write_key-encode_all batch row (e ∷ es) key h =
    let column = batch.column (col_idx e) in
    elim (Bool-cases (column.is_null row)) [
      | inl null ↦ absurd (ground arith)
      | inr held ↦ elim (Option-cases (write_key batch row es)) [
        | inl never ↦ absurd (ground arith)
        | inr (rest, found) ↦
            let whole : written e column row ++ rest ≡ key = ground arith in
            sym whole
            ∙ ap₂ (λ x y. x ++ y) (written-encode e column row)
                (write_key-encode_all batch row es rest found)
      ]
    ]

pub same_iff : (xs ys : List ℕ) → (same xs ys ≡ true) ↔ (xs ≡ ys)
same_iff [] [] = (λ _. refl, λ _. refl)
same_iff [] (y ∷ ys) = ground arith
same_iff (x ∷ xs) [] = ground arith
same_iff (x ∷ xs) (y ∷ ys) = ground (arith, same_iff xs ys)

-- Two rows with a key, each column of one beside a column of the other that holds a value of the
-- same kind there (integers of at most 64 bits, both signed or both unsigned; byte strings of one
-- length; texts and lists of fewer than 2^32 bytes or elements; flags): their keys are the same
-- exactly where the columns hold the same values. The bytes of one column never run into the next.
pub write_key-values_of :
    (b c : RecordBatch) (i j : ℕ) (es fs : List TypedExtractor) (key key' : List ℕ)
    → write_key b i es ≡ some key
    → write_key c j fs ≡ some key'
    → AllAlike (values_of b i es) (values_of c j fs)
    → (same key key' ≡ true) ↔ (values_of b i es ≡ values_of c j fs)
write_key-values_of b c i j es fs key key' hb hc alike =
    let eb = write_key-encode_all b i es key hb in
    let ec = write_key-encode_all c j fs key' hc in
    (
      λ t. encode_all-injective alike (sym eb ∙ (same_iff key key').0 t ∙ ec),
      λ e. (same_iff key key').1 (eb ∙ ap encode_all e ∙ sym ec),
    )
