-- ===== src/GroundTruth/Print/RoundTrip.antt =====
-- What is written is read back.
use leann_cpp.Prelude.{
  ℕ, ◌^◌, ◌<◌, ◌≡◌, refl, ◌∙◌, ap, true, false, ◌||◌, Option, none, some, List, [], ◌∷◌, ◌++◌,
  append_assoc, map, arith, length, length-map, all, All, all-append, ltb, leb, ◌==◌, ==_self, ok,
  String,
}
use leann_cpp.Bytes.{Text}
use leann_cpp.Platform.{Digest}
use leann_cpp.Cache.Read.{sha256_hex}
use leann_cpp.Lines.{file_lines}
use leann_cpp.GroundTruth.Words.{Digits, pos}
use leann_cpp.GroundTruth.{
  magic, Dimensions, some_out, dedup, at_least_zeros, uint32_row, differs, to_ints, read_dimensions,
  read_row, read_rows, read_ground_truth,
}
use leann_cpp.GroundTruth.Laws.{AreDistinct, IsRow, Wants, AreDimensions}
use leann_cpp.GroundTruth.Print.{
  to_decimal, join, header_line, row_line, end_lines, header_bytes, rows_bytes, truth_bytes,
}
use leann_cpp.GroundTruth.Print.Decimal.{
  is_digit, to_decimal_digits, to_decimal_nonempty, to_int-to_decimal,
}
use leann_cpp.GroundTruth.Print.Split.{
  is_visible, IsWord, is_plain, IsLine, split-join, file_lines-end_lines,
}

digits_visible : (s : Text) → all is_digit s ≡ true → all is_visible s ≡ true
digits_visible [] h = refl
digits_visible (c ∷ s) h = ground (arith, digits_visible s)

to_decimal-IsWord : (n : ℕ) → IsWord (to_decimal n)
to_decimal-IsWord n = (to_decimal_nonempty n, digits_visible (to_decimal n) (to_decimal_digits n))

decimals-IsWord : (ids : List ℕ) → All IsWord (map to_decimal ids)
decimals-IsWord [] = tt
decimals-IsWord (i ∷ is) = (to_decimal-IsWord i, decimals-IsWord is)

visible_plain : (s : Text) → all is_visible s ≡ true → all is_plain s ≡ true
visible_plain [] h = refl
visible_plain (c ∷ s) h = ground (arith, visible_plain s)

join-plain : (ws : List Text) → All IsWord ws → all is_plain (join ws) ≡ true
join-plain [] h = refl
join-plain (w ∷ []) ((p, h), k) = visible_plain w h
join-plain (w ∷ v ∷ ws) ((p, h), k) =
    all-append is_plain w (b' ' ∷ join (v ∷ ws))
    ∙ ground (arith, visible_plain w h, join-plain (v ∷ ws) k)

join-IsLine : (w : Text) (ws : List Text) → All IsWord (w ∷ ws) → IsLine (join (w ∷ ws))
join-IsLine w [] h = (h.0.0, join-plain (w ∷ []) h)
join-IsLine w (v ∷ ws) h = (longer w (b' ' ∷ join (v ∷ ws)) h.0.0, join-plain (w ∷ v ∷ ws) h)
  where
    longer : (s t : Text) → 0 < length s → 0 < length (s ++ t)
    longer [] t h = absurd (omega arith)
    longer (c ∷ s) t h = omega arith

header-IsWord :
    (d : Dimensions)
    → All IsWord (magic ∷ map to_decimal (d.query_count ∷ d.top_k ∷ d.corpus_count ∷ []))
header-IsWord d =
    ((omega arith, refl), decimals-IsWord (d.query_count ∷ d.top_k ∷ d.corpus_count ∷ []))

pub header_line-IsLine : (d : Dimensions) → IsLine (header_line d)
unfolding header_line
header_line-IsLine d =
    join-IsLine magic (map to_decimal (d.query_count ∷ d.top_k ∷ d.corpus_count ∷ []))
      (header-IsWord d)

pub row_line-IsLine : (ids : List ℕ) → 0 < length ids → IsLine (row_line ids)
unfolding row_line
row_line-IsLine [] h = absurd (omega arith)
row_line-IsLine (i ∷ is) h =
    join-IsLine (to_decimal i) (map to_decimal is) (decimals-IsWord (i ∷ is))

at_least_zeros-pos : (ids : List ℕ) → at_least_zeros (map pos ids) ≡ ids
at_least_zeros-pos [] = refl
at_least_zeros-pos (i ∷ is) = ap (λ (l : List ℕ). i ∷ l) (at_least_zeros-pos is)

some_out-pos :
    (count : ℕ) (ids : List ℕ) → All (λ i. i < count) ids → some_out count (map pos ids) ≡ false
some_out-pos count [] h = refl
some_out-pos count (i ∷ is) (p, h) = ground (arith, some_out-pos count is h)

dedup_distinct : (l : List ℕ) → AreDistinct l → dedup l ≡ l
dedup_distinct [] h = refl
dedup_distinct (x ∷ l) (m, h) = rw m (ap (λ (r : List ℕ). x ∷ r) (dedup_distinct l h))

uint32_row_lem : (l : List ℕ) → All (λ i. i < 2 ^ 32) l → uint32_row l ≡ ok l
uint32_row_lem [] h = refl
uint32_row_lem (i ∷ is) (p, h) =
    let small : leb (2 ^ 32) i ≡ false = ground arith in rw small (rw (uint32_row_lem is h) refl)

wanted_lem : (wanted : Option ℕ) (n : ℕ) → Wants wanted n → differs wanted n ≡ false
wanted_lem none n h = refl
wanted_lem (some w) n h = ground arith

module _ (U : Digits) where
  to_ints-decimals :
      (message : String) (ids : List ℕ) → to_ints U message (map to_decimal ids) ≡ ok (map pos ids)
  to_ints-decimals message [] = refl
  to_ints-decimals message (i ∷ is) =
      rw (to_int-to_decimal U i) (rw (to_ints-decimals message is) refl)

  read_dimensions-header_line :
      (d : Dimensions) → AreDimensions d → read_dimensions U (header_line d) ≡ ok d
  unfolding read_dimensions header_line
  read_dimensions-header_line d (p, q, r) =
      let fit : (d.query_count == 0 || (d.top_k == 0 || ltb d.corpus_count d.top_k)) ≡ false =
        ground arith in
      rw (split-join _ (header-IsWord d)) (
        rw
          (to_ints-decimals "non-integer ground-truth header"
            (d.query_count ∷ d.top_k ∷ d.corpus_count ∷ []))
          (rw fit refl))

  read_row-row_line :
      (d : Dimensions) (ids : List ℕ) → IsRow d ids → read_row U d (row_line ids) ≡ ok ids
  unfolding read_row row_line
  read_row-row_line d ids (n, inside, distinct, small) = rw (split-join _ (decimals-IsWord ids)) (
      rw (length-map ids to_decimal, n, ==_self d.top_k)
        (rw (to_ints-decimals "non-integer ID" ids) (
          rw (some_out-pos d.corpus_count ids inside) (
            rw (at_least_zeros-pos ids) (
              rw (dedup_distinct ids distinct)
                (rw (n, ==_self d.top_k) (uint32_row_lem ids small)))))))

  read_rows-row_lines :
      (d : Dimensions) (rows : List (List ℕ))
      → All (IsRow d) rows
      → read_rows U d (map row_line rows) ≡ ok rows
  read_rows-row_lines d [] h = refl
  read_rows-row_lines d (ids ∷ rows) (p, h) =
      rw (read_row-row_line d ids p) (rw (read_rows-row_lines d rows h) refl)

rows-IsLine :
    (d : Dimensions) (rows : List (List ℕ))
    → 0 < d.top_k
    → All (IsRow d) rows
    → All IsLine (map row_line rows)
rows-IsLine d [] p h = tt
rows-IsLine d (ids ∷ rows) p (r, h) =
    (row_line-IsLine ids (omega (arith, r.0)), rows-IsLine d rows p h)

end_lines-header :
    (d : Dimensions) (rows : List (List ℕ))
    → truth_bytes d rows ≡ end_lines (header_line d ∷ map row_line rows)
unfolding truth_bytes header_bytes rows_bytes
end_lines-header d rows = append_assoc (header_line d) (10 ∷ []) (end_lines (map row_line rows))

-- The lines of a file that was written so.
pub file_lines-truth_bytes :
    (d : Dimensions) (rows : List (List ℕ))
    → 0 < d.top_k
    → All (IsRow d) rows
    → file_lines (truth_bytes d rows) ≡ ok (header_line d ∷ map row_line rows)
file_lines-truth_bytes d rows p h =
    ap file_lines (end_lines-header d rows)
    ∙ file_lines-end_lines (header_line d ∷ map row_line rows)
        (header_line-IsLine d, rows-IsLine d rows p h)

-- A file of rows that fit their dimensions, one for each query, is read back as these rows, whatever
-- the caller expects that the dimensions meet.
pub read_ground_truth-truth_bytes :
    (U : Digits) (D : Digest) (d : Dimensions) (rows : List (List ℕ))
    (expected_queries expected_k expected_corpus : Option ℕ)
    → AreDimensions d
    → length rows ≡ d.query_count
    → All (IsRow d) rows
    → Wants expected_queries d.query_count
    → Wants expected_k d.top_k
    → Wants expected_corpus d.corpus_count
    → read_ground_truth U D (truth_bytes d rows) expected_queries expected_k expected_corpus
      ≡ ok (
        rows,
        record {
          dimensions = d;
          size_bytes = length (truth_bytes d rows);
          sha256 = sha256_hex D (truth_bytes d rows);
        },
      )
unfolding read_ground_truth
read_ground_truth-truth_bytes U D d rows eq ek ec v n h wq wk wc =
    rw (file_lines-truth_bytes d rows v.1 h) (
      rw (read_dimensions-header_line U d v) (
        rw (length-map rows row_line, n, ==_self d.query_count)
          (rw (read_rows-row_lines U d rows h)
            (rw (wanted_lem eq _ wq, wanted_lem ek _ wk, wanted_lem ec _ wc) refl))))
