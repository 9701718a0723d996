-- ===== src/GroundTruth/Laws.antt =====
-- What a ground truth is that `read_ground_truth` accepts.
use leann_cpp.Prelude.{
  ok-injective, ℕ, suc, ◌^◌, ◌≤◌, ◌<◌, ◌≡◌, refl, sym, ap, subst, ◌∙◌, false, ◌||◌, not, Option,
  none, some, List, [], ◌∷◌, arith, length, All, ltb, leb, ◌==◌, String, Bool-cases, inl, inr, ok,
  value_error, overflow_error, >>=-eq-ok, raise_if-eq-ok,
}
use leann_cpp.Bytes.{Bytes, Text}
use leann_cpp.Lines.{file_lines}
use leann_cpp.Platform.{Digest}
use leann_cpp.GroundTruth.Words.{Digits, ℤ, pos, negsuc, split, to_int}
use leann_cpp.GroundTruth.{
  Dimensions, Metadata, some_out, mem, dedup, at_least_zeros, uint32_row, to_ints, or_raise,
  has_magic, dimensions_of, tail, read_dimensions, read_row, read_rows, differs, first_line,
  read_ground_truth,
}

abbrev pub AreDistinct : List ℕ → Type 0
AreDistinct [] = Unit
AreDistinct (x ∷ l) = (mem x l ≡ false) × AreDistinct l

-- A row has `top_k` distinct rows of the corpus, which fit uint32.
abbrev pub IsRow : Dimensions → List ℕ → Type 0
IsRow d row =
    (length row ≡ d.top_k)
    × All (λ i. i < d.corpus_count) row
    × AreDistinct row
    × All (λ i. i < 2 ^ 32) row

-- What the caller expected, if anything.
abbrev pub Wants : Option ℕ → ℕ → Type 0
Wants none n = Unit
Wants (some w) n = w ≡ n

length-dedup_le : (l : List ℕ) → length (dedup l) ≤ length l
length-dedup_le [] = omega arith
length-dedup_le (x ∷ l) = ground (arith, length-dedup_le l)

AreDistinct-of_dedup : (l : List ℕ) → length (dedup l) ≡ length l → AreDistinct l
AreDistinct-of_dedup [] h = tt
AreDistinct-of_dedup (x ∷ l) h = elim (Bool-cases (mem x l)) [
  | inl m ↦
      let e : length (dedup l) ≡ suc (length l) = rw m at h in
      absurd (omega (arith, e, length-dedup_le l))
  | inr m ↦
      let e : suc (length (dedup l)) ≡ suc (length l) = rw m at h in
      (m, AreDistinct-of_dedup l (omega (arith, e)))
]

All-in_range :
    (count : ℕ) (is : List ℤ) → some_out count is ≡ false → All (λ i. i < count) (at_least_zeros is)
All-in_range count [] h = tt
All-in_range count (pos n ∷ is) h = (ground arith, All-in_range count is (ground arith))
All-in_range count (negsuc n ∷ is) h = absurd (ground arith)

uint32_row-eq-ok : (l row : List ℕ) → uint32_row l ≡ ok row → (row ≡ l) × All (λ i. i < 2 ^ 32) l
uint32_row-eq-ok [] row h = (sym (ok-injective [] row h), tt)
uint32_row-eq-ok (i ∷ is) row h =
    let (small, h1) =
      raise_if-eq-ok (leb (2 ^ 32) i) (overflow_error "Python integer out of bounds for uint32") _
        h in
    let (rest, e, h2) = >>=-eq-ok (uint32_row is) _ h1 in
    let (same, k) = uint32_row-eq-ok is rest e in
    (sym (ok-injective _ _ h2) ∙ ap (λ r. i ∷ r) same, (ground arith, k))

wants : (wanted : Option ℕ) (n : ℕ) → differs wanted n ≡ false → Wants wanted n
wants none n h = tt
wants (some w) n h = ground arith

abbrev pub AreDimensions : Dimensions → Type 0
AreDimensions d = (0 < d.query_count) × (0 < d.top_k) × (d.top_k ≤ d.corpus_count)

abbrev IsTruth : Option ℕ → Option ℕ → Option ℕ → List (List ℕ) × Metadata → Type 0
IsTruth eq ek ec (truth, metadata) =
    let d = metadata.dimensions in
    AreDimensions d
    × (length truth ≡ d.query_count)
    × All (IsRow d) truth
    × Wants eq d.query_count
    × Wants ek d.top_k
    × Wants ec d.corpus_count

module _ (U : Digits) where
  length-to_ints :
      (message : String) (ws : List Text) (is : List ℤ)
      → to_ints U message ws ≡ ok is
      → length (at_least_zeros is) ≡ length ws
  length-to_ints message [] is h = rw (← ok-injective [] is h) refl
  length-to_ints message (w ∷ ws) is h =
      let (i, e, h1) = >>=-eq-ok (or_raise message (to_int U w)) _ h in
      let (js, e1, h2) = >>=-eq-ok (to_ints U message ws) _ h1 in
      rw (← ok-injective _ _ h2) (ap suc (length-to_ints message ws js e1))

  read_row-eq-ok :
      (d : Dimensions) (line : Text) (row : List ℕ) → read_row U d line ≡ ok row → IsRow d row
  unfolding read_row
  read_row-eq-ok d line row h =
      let (l, h1) =
        raise_if-eq-ok (not (length (split line) == d.top_k))
          (value_error "row does not have k IDs") _ h in
      let (is, e, h2) = >>=-eq-ok (to_ints U "non-integer ID" (split line)) _ h1 in
      let (inside, h3) =
        raise_if-eq-ok (some_out d.corpus_count is) (value_error "out-of-range ID") _ h2 in
      let (distinct, h4) =
        raise_if-eq-ok (not (length (dedup (at_least_zeros is)) == d.top_k))
          (value_error "duplicate ID") _ h3 in
      let (same, small) = uint32_row-eq-ok (at_least_zeros is) row h4 in
      let long : length (split line) ≡ d.top_k = ground arith in
      let many : length (dedup (at_least_zeros is)) ≡ d.top_k = ground arith in
      let n : length (at_least_zeros is) ≡ d.top_k = length-to_ints _ _ is e ∙ long in
      rw same
        (n, All-in_range d.corpus_count is inside, AreDistinct-of_dedup _ (many ∙ sym n), small)

  read_rows-eq-ok :
      (d : Dimensions) (lines : List Text) (rows : List (List ℕ))
      → read_rows U d lines ≡ ok rows
      → (length rows ≡ length lines) × All (IsRow d) rows
  read_rows-eq-ok d [] rows h = rw (← ok-injective [] rows h) (refl, tt)
  read_rows-eq-ok d (line ∷ lines) rows h =
      let (row, e, h1) = >>=-eq-ok (read_row U d line) _ h in
      let (rest, e1, h2) = >>=-eq-ok (read_rows U d lines) _ h1 in
      let (l, k) = read_rows-eq-ok d lines rest e1 in
      rw (← ok-injective _ _ h2) (ap suc l, (read_row-eq-ok d line row e, k))

  read_dimensions-eq-ok :
      (line : Text) (d : Dimensions) → read_dimensions U line ≡ ok d → AreDimensions d
  unfolding read_dimensions
  read_dimensions-eq-ok line d h =
      let header = split line in
      let (l, h1) =
        raise_if-eq-ok (not (length header == 4) || not (has_magic header))
          (value_error "invalid ground-truth header") _ h in
      let (numbers, e, h2) =
        >>=-eq-ok (to_ints U "non-integer ground-truth header" (tail header)) _ h1 in
      let f = dimensions_of numbers in
      let (fit, h3) =
        raise_if-eq-ok (f.query_count == 0 || (f.top_k == 0 || ltb f.corpus_count f.top_k))
          (value_error "invalid ground-truth dimensions") _ h2 in
      rw (← ok-injective f d h3) (ground arith, ground arith, ground arith)

  -- A ground truth that is accepted has positive numbers of queries and of IDs per query, no more of
  -- these than the corpus has rows, those that the caller expects if it does; a row for each query;
  -- and in each row as many IDs as it says, distinct, of the corpus and within uint32.
  pub read_ground_truth_sound :
      (D : Digest) (file : Bytes) (expected_queries expected_k expected_corpus : Option ℕ)
      (truth : List (List ℕ)) (metadata : Metadata)
      → read_ground_truth U D file expected_queries expected_k expected_corpus
        ≡ ok (truth, metadata)
      → let d = metadata.dimensions in
        AreDimensions d
        × (length truth ≡ d.query_count)
        × All (IsRow d) truth
        × Wants expected_queries d.query_count
        × Wants expected_k d.top_k
        × Wants expected_corpus d.corpus_count
  unfolding read_ground_truth
  read_ground_truth_sound D file eq ek ec truth metadata h =
      let (lines, e, h1) = >>=-eq-ok (file_lines file) _ h in
      let (parts, e1, h2) = >>=-eq-ok (first_line lines) _ h1 in
      let (d, e2, h3) = >>=-eq-ok (read_dimensions U parts.0) _ h2 in
      let (l, h4) =
        raise_if-eq-ok (not (length parts.1 == d.query_count))
          (value_error "ground-truth row count mismatch") _ h3 in
      let (rows, e3, h5) = >>=-eq-ok (read_rows U d parts.1) _ h4 in
      let (q, h6) =
        raise_if-eq-ok (differs eq d.query_count) (value_error "ground-truth query count mismatch")
          _ h5 in
      let (k, h7) =
        raise_if-eq-ok (differs ek d.top_k) (value_error "ground-truth top-k mismatch") _ h6 in
      let (n, h8) =
        raise_if-eq-ok (differs ec d.corpus_count)
          (value_error "ground-truth corpus count mismatch") _ h7 in
      let (many, each) = read_rows-eq-ok d parts.1 rows e3 in
      let long : length parts.1 ≡ d.query_count = ground arith in
      subst (IsTruth eq ek ec) (ok-injective _ _ h8) (
        read_dimensions-eq-ok parts.0 d e2,
        many ∙ long,
        each,
        wants eq _ q,
        wants ek _ k,
        wants ec _ n,
      )
