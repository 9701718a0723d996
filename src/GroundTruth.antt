-- ===== src/GroundTruth.antt =====
-- `read_ground_truth` of scripts/benchmark_cache.py.
pub mod Words
pub mod Laws
pub mod Print
use leann_cpp.Prelude.{
  ℕ, zero, suc, ◌+◌, ◌^◌, Bool, true, false, ◌||◌, not, Option, none, some, List, [], ◌∷◌, length,
  eq_list, ltb, leb, ◌==◌, if◌then◌else◌, String, Result, ok, err, value_error, overflow_error,
  ◌>>=◌, ◌>>◌, raise_if,
}
use leann_cpp.Bytes.{Bytes, Text}
use leann_cpp.Lines.{file_lines}
use leann_cpp.Platform.{Digest}
use leann_cpp.Cache.Read.{sha256_hex}
use leann_cpp.GroundTruth.Words.{Digits, ℤ, pos, negsuc, split, to_int}

abbrev pub magic : Text
magic = b'L' ∷ b'E' ∷ b'A' ∷ b'N' ∷ b'N' ∷ b'_' ∷ b'G' ∷ b'T' ∷ b'1' ∷ []

pub record Dimensions : Type 0 where
  pub query_count : ℕ
  pub top_k : ℕ
  pub corpus_count : ℕ

pub record Metadata : Type 0 where
  pub dimensions : Dimensions
  pub size_bytes : ℕ
  pub sha256 : Text

-- A negative number and 0 are refused alike, where this is used.
abbrev pub at_least_zero : ℤ → ℕ
at_least_zero (pos n) = n
at_least_zero (negsuc n) = 0

abbrev pub is_out : ℕ → ℤ → Bool
is_out count (pos n) = leb count n
is_out count (negsuc n) = true

abbrev pub some_out : ℕ → List ℤ → Bool
some_out count [] = false
some_out count (i ∷ is) = is_out count i || some_out count is

abbrev pub mem : ℕ → List ℕ → Bool
mem x [] = false
mem x (y ∷ l) = x == y || mem x l

-- `set(identifiers)`
abbrev pub dedup : List ℕ → List ℕ
dedup [] = []
dedup (x ∷ l) = let rest = dedup l in if mem x l then rest else x ∷ rest

abbrev pub at_least_zeros : List ℤ → List ℕ
at_least_zeros [] = []
at_least_zeros (i ∷ is) = at_least_zero i ∷ at_least_zeros is

-- `truth[row_index] = identifiers`, where an element is a uint32.
abbrev pub uint32_row : List ℕ → Result (List ℕ)
uint32_row [] = ok []
uint32_row (i ∷ is) = do
  raise_if (leb (2 ^ 32) i) (overflow_error "Python integer out of bounds for uint32")
  rest ← uint32_row is
  ok (i ∷ rest)

abbrev pub or_raise {ℓ} : {A : Type ℓ} → String → Option A → Result A
or_raise message none = err (value_error message)
or_raise message (some a) = ok a

abbrev pub has_magic : List Text → Bool
has_magic [] = false
has_magic (w ∷ ws) = eq_list w magic

abbrev pub dimensions_of : List ℤ → Dimensions
dimensions_of (q ∷ k ∷ n ∷ []) = record {
  query_count = at_least_zero q;
  top_k = at_least_zero k;
  corpus_count = at_least_zero n;
}
dimensions_of _ = record { query_count = 0; top_k = 0; corpus_count = 0 }

abbrev pub tail : List Text → List Text
tail [] = []
tail (w ∷ ws) = ws

abbrev pub differs : Option ℕ → ℕ → Bool
differs none observed = false
differs (some wanted) observed = not (wanted == observed)

abbrev pub first_line : List Text → Result (Text × List Text)
first_line [] = err (value_error "empty ground-truth file")
first_line (line ∷ lines) = ok (line, lines)

module _ (U : Digits) where
  -- `int(field)` for each field
  abbrev pub to_ints : String → List Text → Result (List ℤ)
  to_ints message [] = ok []
  to_ints message (w ∷ ws) = do
    i ← or_raise message (to_int U w)
    is ← to_ints message ws
    ok (i ∷ is)

  unfoldable pub read_dimensions : Text → Result Dimensions
  read_dimensions line = do
    let header = split line
    raise_if (not (length header == 4) || not (has_magic header))
        (value_error "invalid ground-truth header")
    numbers ← to_ints "non-integer ground-truth header" (tail header)
    let d = dimensions_of numbers
    raise_if (d.query_count == 0 || (d.top_k == 0 || ltb d.corpus_count d.top_k))
        (value_error "invalid ground-truth dimensions")
    ok d

  unfoldable pub read_row : Dimensions → Text → Result (List ℕ)
  read_row d line = do
    let fields = split line
    raise_if (not (length fields == d.top_k)) (value_error "row does not have k IDs")
    identifiers ← to_ints "non-integer ID" fields
    raise_if (some_out d.corpus_count identifiers) (value_error "out-of-range ID")
    raise_if (not (length (dedup (at_least_zeros identifiers)) == d.top_k))
        (value_error "duplicate ID")
    uint32_row (at_least_zeros identifiers)

  abbrev pub read_rows : Dimensions → List Text → Result (List (List ℕ))
  read_rows d [] = ok []
  read_rows d (line ∷ lines) = do row ← read_row d line; rows ← read_rows d lines; ok (row ∷ rows)

  unfoldable pub read_ground_truth :
      Digest → Bytes → Option ℕ → Option ℕ → Option ℕ → Result (List (List ℕ) × Metadata)
  read_ground_truth D file expected_queries expected_k expected_corpus = do
    lines ← file_lines file
    (header, body) ← first_line lines
    d ← read_dimensions header
    raise_if (not (length body == d.query_count)) (value_error "ground-truth row count mismatch")
    truth ← read_rows d body
    raise_if (differs expected_queries d.query_count)
        (value_error "ground-truth query count mismatch")
    raise_if (differs expected_k d.top_k) (value_error "ground-truth top-k mismatch")
    raise_if (differs expected_corpus d.corpus_count)
        (value_error "ground-truth corpus count mismatch")
    ok (truth, record { dimensions = d; size_bytes = length file; sha256 = sha256_hex D file })
