-- ===== src/Prepare/Tiers/Ids/RoundTrip.antt =====
-- The IDs that `write_documents` writes are those that `read_id_set` reads.
use leann_cpp.Prelude.{
  eq_list-false, ℕ, zero, suc, ◌≡◌, refl, sym, ap, ◌∙◌, Bool, true, false, not, ◌&&◌, List, [], ◌∷◌,
  ◌++◌, append_assoc, append-nil, arith, all, All, All-take, take, All-append, all-append, eq_list,
  eq_list_self, ltb, ◌==◌, ok,
}
use leann_cpp.Bytes.{Bytes, Text}
use leann_cpp.Bytes.Utf8.{encode-append, encode_char, encode, IsScalar, decode-encode}
use leann_cpp.GroundTruth.Print.{to_decimal}
use leann_cpp.GroundTruth.Print.Decimal.{is_digit, to_decimal_digits}
use leann_cpp.Prepare.{byte_lines}
use leann_cpp.Prepare.Select.{Row, Chosen, is_in, has_duplicates}
use leann_cpp.Prepare.Tiers.{Tiers, TierStats, id_line, joined, write_documents}
use leann_cpp.Prepare.Tiers.Written.{id_lines, write_documents_lem}
use leann_cpp.Prepare.Tiers.Ids.{universal, without_end, split_tab, read_id, read_ids, read_id_set}

-- No tab and no line end.
abbrev pub is_tsv_safe : ℕ → Bool
is_tsv_safe c = not (c == 9) && (not (c == 10) && not (c == 13))

is_plain : ℕ → Bool
is_plain c = ltb c 0x80 && is_tsv_safe c

abbrev id_text : ℕ → List Text → Text
id_text position [] = []
id_text position (id ∷ ids) = id_line position id ++ 10 ∷ id_text (suc position) ids

abbrev is_line_char : ℕ → Bool
is_line_char c = not (c == 10) && not (c == 13)

universal-line :
    (s rest : Text)
    → all is_line_char s ≡ true
    → universal false (s ++ 10 ∷ rest) ≡ s ++ 10 ∷ universal false rest
universal-line [] rest h = refl
universal-line (c ∷ s) rest h =
    let a : (c == 13) ≡ false = ground arith in
    let b : (c == 10) ≡ false = ground arith in
    let k : all is_line_char s ≡ true = ground arith in
    rw (a, b) (ap (λ (t : Text). c ∷ t) (universal-line s rest k))

byte_lines-line :
    (s rest : Text)
    → all is_line_char s ≡ true
    → byte_lines (s ++ 10 ∷ rest) ≡ (s ++ 10 ∷ []) ∷ byte_lines rest
unfolding byte_lines
byte_lines-line [] rest h = refl
byte_lines-line (c ∷ s) rest h =
    let b : (c == 10) ≡ false = ground arith in
    let k : all is_line_char s ≡ true = ground arith in rw (b, byte_lines-line s rest k) refl

byte_lines_nil : byte_lines [] ≡ []
unfolding byte_lines
byte_lines_nil = refl

without_end-line : (s : Text) → all is_line_char s ≡ true → without_end (s ++ 10 ∷ []) ≡ s
without_end-line [] h = refl
without_end-line (c ∷ s) h =
    let b : (c == 10) ≡ false = ground arith in
    let k : all is_line_char s ≡ true = ground arith in
    rw b (ap (λ (t : Text). c ∷ t) (without_end-line s k))

split_tab-safe : (s : Text) → all is_tsv_safe s ≡ true → split_tab s ≡ s ∷ []
split_tab-safe [] h = refl
split_tab-safe (c ∷ s) h =
    let b : (c == 9) ≡ false = ground arith in
    let k : all is_tsv_safe s ≡ true = ground arith in rw (b, split_tab-safe s k) refl

split_tab-line :
    (s t : Text)
    → all is_tsv_safe s ≡ true
    → all is_tsv_safe t ≡ true
    → split_tab (s ++ 9 ∷ t) ≡ s ∷ t ∷ []
split_tab-line [] t h k = rw (split_tab-safe t k) refl
split_tab-line (c ∷ s) t h k =
    let b : (c == 9) ≡ false = ground arith in
    let h' : all is_tsv_safe s ≡ true = ground arith in rw (b, split_tab-line s t h' k) refl

encode_nil : encode [] ≡ []
unfolding encode
encode_nil = refl

newline : (t : Text) → encode (10 ∷ t) ≡ 10 ∷ encode t
unfolding encode encode_char
newline t = refl

encode-line : (s t : Text) → encode (s ++ 10 ∷ t) ≡ encode s ++ 10 ∷ encode t
encode-line s t = encode-append s (10 ∷ t) ∙ ap (λ (b : Bytes). encode s ++ b) (newline t)

-- IDs as `identifier` lets them through.
abbrev pub IsId : Text → Type 0
IsId id = (all is_tsv_safe id ≡ true) × All IsScalar id

digits_safe : (s : Text) → all is_digit s ≡ true → all is_tsv_safe s ≡ true
digits_safe [] h = refl
digits_safe (c ∷ s) h =
    let k : all is_digit s ≡ true = ground arith in
    let a : is_tsv_safe c ≡ true = ground arith in rw (a, digits_safe s k) refl

digits-IsScalar : (s : Text) → all is_digit s ≡ true → All IsScalar s
digits-IsScalar [] h = tt
digits-IsScalar (c ∷ s) h =
    let k : all is_digit s ≡ true = ground arith in (ground arith, digits-IsScalar s k)

safe_line_chars : (s : Text) → all is_tsv_safe s ≡ true → all is_line_char s ≡ true
safe_line_chars [] h = refl
safe_line_chars (c ∷ s) h =
    let k : all is_tsv_safe s ≡ true = ground arith in
    let a : is_line_char c ≡ true = ground arith in rw (a, safe_line_chars s k) refl

position_safe : (n : ℕ) → all is_tsv_safe (to_decimal n) ≡ true
position_safe n = digits_safe (to_decimal n) (to_decimal_digits n)

id_line_chars : (n : ℕ) (id : Text) → IsId id → all is_line_char (id_line n id) ≡ true
id_line_chars n id (h, k) =
    let a = safe_line_chars (to_decimal n) (position_safe n) in
    let b = safe_line_chars id h in rw (all-append is_line_char (to_decimal n) (9 ∷ id), a, b) refl

read_id-line : (n : ℕ) (id : Text) → IsId id → read_id n (split_tab (id_line n id)) ≡ ok id
unfolding read_id
read_id-line n id (h, k) =
    rw (split_tab-line (to_decimal n) id (position_safe n) h, eq_list_self (to_decimal n)) refl

-- An ID that stands behind others is none of them.
is_in-before :
    (seen : List Text) (id : Text) (ids : List Text)
    → has_duplicates (seen ++ id ∷ ids) ≡ false
    → is_in id seen ≡ false
is_in-before [] id ids h = refl
is_in-before (s ∷ seen) id ids h =
    let a : is_in s (seen ++ id ∷ ids) ≡ false = ground arith in
    let b : has_duplicates (seen ++ id ∷ ids) ≡ false = ground arith in
    rw (eq_list-false s id (apart seen a), is_in-before seen id ids b) refl
  where
    apart : (seen : List Text) → is_in s (seen ++ id ∷ ids) ≡ false → eq_list s id ≡ false
    apart [] h = ground arith
    apart (x ∷ seen) h = let k : is_in s (seen ++ id ∷ ids) ≡ false = ground arith in apart seen k

read_ids-lines :
    (n : ℕ) (ids seen : List Text)
    → All IsId ids
    → has_duplicates (seen ++ ids) ≡ false
    → read_ids n (byte_lines (universal false (id_text n ids))) seen ≡ ok (seen ++ ids)
unfolding read_ids
read_ids-lines n [] seen h k = rw byte_lines_nil (ap ok (sym (append-nil seen)))
read_ids-lines n (id ∷ ids) seen (h, hs) k =
    let c = id_line_chars n id h in
    let later = universal false (id_text (suc n) ids) in
    let again : has_duplicates ((seen ++ id ∷ []) ++ ids) ≡ false =
      rw (append_assoc seen (id ∷ []) ids) k in
    rw
      (
        universal-line (id_line n id) (id_text (suc n) ids) c,
        byte_lines-line (id_line n id) later c,
        without_end-line (id_line n id) c,
        read_id-line n id h,
        is_in-before seen id ids k,
        read_ids-lines (suc n) ids (seen ++ id ∷ []) hs again,
        append_assoc seen (id ∷ []) ids,
      )
      refl

id_text-IsScalar : (n : ℕ) (ids : List Text) → All IsId ids → All IsScalar (id_text n ids)
id_text-IsScalar n [] h = tt
id_text-IsScalar n (id ∷ ids) ((a, b), h) =
    All-append IsScalar (id_line n id) (10 ∷ id_text (suc n) ids)
      (All-append IsScalar (to_decimal n) (9 ∷ id) (digits-IsScalar _ (to_decimal_digits n))
        (refl, b))
      (refl, id_text-IsScalar (suc n) ids h)

-- read_id_set returns the IDs of a file that has a line for each of some distinct IDs of characters
-- other than tabs and line ends, in their order.
pub read_id_set-id_text :
    (ids : List Text)
    → All IsId ids
    → has_duplicates ids ≡ false
    → read_id_set (encode (id_text 0 ids)) ≡ ok ids
unfolding read_id_set
read_id_set-id_text ids h k =
    rw (decode-encode (id_text 0 ids) (id_text-IsScalar 0 ids h), read_id_set)
      (read_ids-lines 0 ids [] h k)

abbrev pub ids_of_rows : List Row → List Text
ids_of_rows [] = []
ids_of_rows (r ∷ rows) = r.corpus_id ∷ ids_of_rows rows

id_lines-id_text :
    (n : ℕ) (rows : List Row) → id_lines n rows ≡ encode (id_text n (ids_of_rows rows))
id_lines-id_text n [] = sym encode_nil
id_lines-id_text n (r ∷ rows) =
    ap (λ (t : Bytes). encode (id_line n r.corpus_id) ++ 10 ∷ t) (id_lines-id_text (suc n) rows)
    ∙ sym (encode-line (id_line n r.corpus_id) (id_text (suc n) (ids_of_rows rows)))

take-has_duplicates :
    (n : ℕ) (ts : List Text) → has_duplicates ts ≡ false → has_duplicates (take n ts) ≡ false
take-has_duplicates zero ts h = refl
take-has_duplicates (suc n) [] h = refl
take-has_duplicates (suc n) (t ∷ ts) h =
    let a : is_in t ts ≡ false = ground arith in
    let b : has_duplicates ts ≡ false = ground arith in
    rw (take-is_in n t ts a, take-has_duplicates n ts b) refl
  where
    take-is_in :
        (n : ℕ) (t : Text) (ts : List Text) → is_in t ts ≡ false → is_in t (take n ts) ≡ false
    take-is_in zero t ts h = refl
    take-is_in (suc n) t [] h = refl
    take-is_in (suc n) t (u ∷ ts) h =
        let a : eq_list t u ≡ false = ground arith in
        let b : is_in t ts ≡ false = ground arith in rw (a, take-is_in n t ts b) refl

pub take-ids_of_rows :
    (n : ℕ) (rows : List Row) → ids_of_rows (take n rows) ≡ take n (ids_of_rows rows)
take-ids_of_rows zero rows = refl
take-ids_of_rows (suc n) [] = refl
take-ids_of_rows (suc n) (r ∷ rows) =
    ap (λ (l : List Text). r.corpus_id ∷ l) (take-ids_of_rows n rows)

module _ (small_count large_count : ℕ) where
  -- If the selected rows have distinct IDs of characters other than tabs and line ends, read_id_set
  -- returns from the files that write_documents wrote the IDs of the rows, and of the first
  -- small_count of them, in their order.
  pub read_id_set-write_documents :
      (selected : List Chosen) (corpus : List Row) (t : Tiers) (small_stats large_stats : TierStats)
      → let ids = ids_of_rows (joined selected corpus) in
        All IsId ids
        → has_duplicates ids ≡ false
        → write_documents small_count large_count selected corpus ≡ ok (t, small_stats, large_stats)
        → (read_id_set t.large.ids.contents ≡ ok ids)
          × (read_id_set t.small.ids.contents ≡ ok (take small_count ids))
  read_id_set-write_documents selected corpus t ss ls a d h =
      let rows = joined selected corpus in
      let ids = ids_of_rows rows in
      let (large, small) = write_documents_lem small_count large_count selected corpus t ss ls h in
      (
        rw (large.2, id_lines-id_text 0 rows) (read_id_set-id_text ids a d),
        rw (small.2, id_lines-id_text 0 (take small_count rows), take-ids_of_rows small_count rows)
            (read_id_set-id_text (take small_count ids) (All-take IsId small_count ids a)
              (take-has_duplicates small_count ids d)),
      )
