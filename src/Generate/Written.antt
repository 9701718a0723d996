-- ===== src/Generate/Written.antt =====
-- What the partial file holds after some queries, and the blocks of rows that are appended to it.
use leann_cpp.Prelude.{
  ℕ, zero, suc, ◌+◌, ◌^◌, ◌≤◌, ◌<◌, ◌≡◌, refl, ◌∙◌, ap, sym, some, List, [], ◌∷◌, ◌++◌,
  append_assoc, append-nil, arith, length, length-map, All, eq_list_self, ==_self, ok,
}
use leann_cpp.Bytes.{Bytes}
use leann_cpp.Platform.{Digest}
use leann_cpp.Cache.Read.{sha256_hex}
use leann_cpp.TopK.{NumPy}
use leann_cpp.TopK.Blocks.{exact_topk_block_lem}
use leann_cpp.GroundTruth.{Metadata}
use leann_cpp.GroundTruth.Words.{Digits}
use leann_cpp.GroundTruth.Laws.{IsRow, AreDimensions}
use leann_cpp.GroundTruth.Print.{header_line, header_bytes, row_line, rows_bytes, truth_bytes}
use leann_cpp.GroundTruth.Print.RoundTrip.{file_lines-truth_bytes, read_ground_truth-truth_bytes}
use leann_cpp.Generate.{Job, block_answers, check_lines, read_truth}
use leann_cpp.Generate.Answers.{answer, answer-IsRow}

-- The inputs that the checks let through, with a corpus whose IDs fit uint32.
pub record IsJob (job : Job) : Type 0 where
  pub sizes : AreDimensions job.dimensions
  pub small : job.dimensions.corpus_count ≤ 2 ^ 32
  pub query_block : 0 < job.query_block_rows
  pub corpus_block : 0 < job.corpus_block_rows

module _ (job : Job) where
  open job use {dimensions, score}

  -- The rows of the queries from `begin` on.
  abbrev pub answers : ℕ → ℕ → List (List ℕ)
  answers begin zero = []
  answers begin (suc count) = answer dimensions (score begin) ∷ answers (suc begin) count

  -- The partial file after `completed` queries; after all of them it is the ground truth.
  unfoldable pub written : ℕ → Bytes
  written completed = truth_bytes dimensions (answers 0 completed)

  pub written_zero : written 0 ≡ header_bytes dimensions
  unfolding written truth_bytes rows_bytes
  written_zero = append-nil (header_bytes dimensions)

  answers-append :
      (begin a b : ℕ) → answers begin a ++ answers (begin + a) b ≡ answers begin (a + b)
  answers-append begin zero b =
      let e : begin + 0 ≡ begin = omega arith in let f : 0 + b ≡ b = omega arith in rw (e, f) refl
  answers-append begin (suc a) b =
      let e : begin + suc a ≡ suc begin + a = omega arith in
      let f : suc a + b ≡ suc (a + b) = omega arith in
      rw (e, f)
        (ap (λ (l : List (List ℕ)). answer dimensions (score begin) ∷ l)
          (answers-append (suc begin) a b))

  rows_bytes-append :
      (xs ys : List (List ℕ)) → rows_bytes (xs ++ ys) ≡ rows_bytes xs ++ rows_bytes ys
  unfolding rows_bytes
  rows_bytes-append [] ys = refl
  rows_bytes-append (x ∷ xs) ys =
      ap (λ (t : Bytes). row_line x ++ 10 ∷ t) (rows_bytes-append xs ys)
      ∙ sym (append_assoc (row_line x) (10 ∷ rows_bytes xs) (rows_bytes ys))

  pub written-append : (a b : ℕ) → written a ++ rows_bytes (answers a b) ≡ written (a + b)
  unfolding written truth_bytes
  written-append a b =
      let e : 0 + a ≡ a = omega arith in
      append_assoc (header_bytes dimensions) (rows_bytes (answers 0 a)) (rows_bytes (answers a b))
      ∙ ap (λ (t : Bytes). header_bytes dimensions ++ t)
          (sym (rows_bytes-append (answers 0 a) (answers a b))
            ∙ ap rows_bytes
                (ap (λ (m : ℕ). answers 0 a ++ answers m b) (sym e) ∙ answers-append 0 a b))

  length-answers : (begin count : ℕ) → length (answers begin count) ≡ count
  length-answers begin zero = refl
  length-answers begin (suc count) = ap suc (length-answers (suc begin) count)

  module _ (fit : IsJob job) where
    answers-IsRow : (begin count : ℕ) → All (IsRow dimensions) (answers begin count)
    answers-IsRow begin zero = tt
    answers-IsRow begin (suc count) =
        (answer-IsRow dimensions (score begin) fit.sizes fit.small, answers-IsRow (suc begin) count)

    module _ (D : Digest) (U : Digits) (N : NumPy) where
      pub block_answers_lem :
          (begin count : ℕ) → block_answers D U N job begin count ≡ ok (answers begin count)
      unfolding answer
      block_answers_lem begin zero = refl
      block_answers_lem begin (suc count) =
          rw
            (exact_topk_block_lem N (score begin) dimensions.corpus_count dimensions.top_k
              job.corpus_block_rows fit.sizes.1 fit.corpus_block fit.small)
            (rw (block_answers_lem (suc begin) count) refl)

      pub check_lines-written :
          (completed : ℕ) → check_lines D U N job completed (written completed) ≡ ok tt
      unfolding written
      check_lines-written completed =
          rw
            (file_lines-truth_bytes dimensions (answers 0 completed) fit.sizes.1
              (answers-IsRow 0 completed))
            (rw
              (
                length-map (answers 0 completed) row_line,
                length-answers 0 completed,
                ==_self completed,
                eq_list_self (header_line dimensions),
              )
              refl)

      -- What the sidecar says of the ground truth.
      abbrev pub truth_metadata : Metadata
      truth_metadata = record {
        dimensions = dimensions;
        size_bytes = length (written dimensions.query_count);
        sha256 = sha256_hex D (written dimensions.query_count);
      }

      pub read_truth-written :
          read_truth D U N job (written dimensions.query_count)
          ≡ ok (answers 0 dimensions.query_count, truth_metadata)
      unfolding written
      read_truth-written =
          read_ground_truth-truth_bytes U D dimensions (answers 0 dimensions.query_count)
            (some dimensions.query_count) (some dimensions.top_k) (some dimensions.corpus_count)
            fit.sizes (length-answers 0 dimensions.query_count)
            (answers-IsRow 0 dimensions.query_count) refl refl refl
