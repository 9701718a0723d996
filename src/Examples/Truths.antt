-- ===== src/Examples/Truths.antt =====
-- A ground truth of two queries.
use leann_cpp.Prelude.{ℕ, ◌≡◌, refl, none, some, List, [], ◌∷◌, ◌++◌, length, All, ok, err}
use leann_cpp.Bytes.{Bytes}
use leann_cpp.Bytes.Utf8.{decode}
use leann_cpp.Bytes.Hex.{hex}
use leann_cpp.Lines.{file_lines, iter_nonempty_lines}
use leann_cpp.GroundTruth.Words.{split}
use leann_cpp.GroundTruth.{Metadata, magic, read_dimensions, read_row, read_ground_truth}
use leann_cpp.GroundTruth.Laws.{AreDimensions, IsRow, Wants, read_ground_truth_sound}
use leann_cpp.Examples.Instances.{toy_digest, digits}

abbrev file : Bytes
file =
    magic
    ++ b' ' ∷ b'2' ∷ b' ' ∷ b'2' ∷ b' ' ∷ b'+' ∷ b'1' ∷ b'_' ∷ b'2' ∷ 10 ∷ b'1' ∷ b'1' ∷ b' ' ∷ b'0'
      ∷ 10 ∷ b'5' ∷ b' ' ∷ b'4' ∷ 10 ∷ []

all_reads : Unit {0}
unfolding read_ground_truth read_dimensions read_row split file_lines iter_nonempty_lines decode hex
all_reads = tt

-- What is read.
abbrev nothing : List (List ℕ) × Metadata
nothing = (
  [],
  record {
    dimensions = record { query_count = 0; top_k = 0; corpus_count = 0 };
    size_bytes = 0;
    sha256 = [];
  },
)

found : List (List ℕ) × Metadata
unfolding all_reads
found = elim (read_ground_truth digits toy_digest file none (some 2) (some 12)) [
  | ok truth ↦ truth
  | err e ↦ nothing
]

rows_found : found.0 ≡ (11 ∷ 0 ∷ []) ∷ (5 ∷ 4 ∷ []) ∷ []
unfolding all_reads found
rows_found = refl

read_found : read_ground_truth digits toy_digest file none (some 2) (some 12) ≡ ok found
unfolding all_reads found
read_found = refl

read_ground_truth_sound_example :
    let d = found.1.dimensions in
    AreDimensions d
    × (length found.0 ≡ d.query_count)
    × All (IsRow d) found.0
    × Wants none d.query_count
    × Wants (some 2) d.top_k
    × Wants (some 12) d.corpus_count
read_ground_truth_sound_example =
    read_ground_truth_sound digits toy_digest file none (some 2) (some 12) found.0 found.1
      read_found
