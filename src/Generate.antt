-- ===== src/Generate.antt =====
-- `generate_ground_truth` of scripts/run_large_scale_benchmark.py from the point where its inputs
-- are checked (Generate/Inputs has the part before): the partial file, the checkpoint, the output
-- and the sidecar, each of them as a call leaves it behind when it is stopped at any point. JSON
-- files are those of the right shape, and are replaced whole or not at all; an appended payload may
-- be cut off anywhere.

pub mod Answers
pub mod Written
pub mod Phases
pub mod Calls
pub mod Reach
pub mod Inputs
use leann_cpp.Prelude.{
  ℕ, zero, suc, ◌+◌, ◌-◌, min, Bool, true, false, ◌&&◌, ◌||◌, not, Option, none, some, List, [],
  ◌∷◌, ◌++◌, map, length, take, all, eq_list, ltb, leb, ◌==◌, if◌then◌else◌, String, Result, ok,
  err, Error, value_error, runtime_error, ◌>>=◌, ◌>>◌, raise_if,
}
use leann_cpp.Bytes.{Bytes, Text}
use leann_cpp.Lines.{file_lines}
use leann_cpp.Platform.{Digest}
use leann_cpp.Writes.{Run, stopped, after_states, and_then, growing}
use leann_cpp.Cache.Read.{sha256_hex}
use leann_cpp.TopK.{NumPy, exact_topk_block}
use leann_cpp.GroundTruth.{Dimensions, Metadata, read_ground_truth, first_line}
use leann_cpp.GroundTruth.Words.{Digits, is_space}
use leann_cpp.GroundTruth.Print.{header_line, header_bytes, rows_bytes}

pub data Status : Type 0 where
  running ready other : Status

pub record Checkpoint : Type 0 where
  pub input_hash : Text
  pub created_at : Option Text
  pub status : Status
  pub completed_queries : ℕ
  pub committed_length_bytes : Option ℕ
  pub committed_prefix_sha256 : Option Text
  -- An older name of the field above.
  pub partial_sha256 : Option Text
  pub ground_truth_sha256 : Option Text

-- What the sidecar declares, beside the inputs.
pub record Declared : Type 0 where
  pub input_hash : Text
  pub generation_started_at : Text
  pub created_at : Text
  pub ground_truth : Metadata
  pub recovered : Bool

pub record Files : Type 0 where
  pub output : Option Bytes
  pub sidecar : Option Declared
  pub partial : Option Bytes
  pub checkpoint : Option Checkpoint

-- The inputs after their checks. A score is that of a query and a row of the corpus.
pub record Job : Type 0 where
  pub dimensions : Dimensions
  pub query_block_rows : ℕ
  pub corpus_block_rows : ℕ
  pub input_hash : Text
  pub score : ℕ → ℕ → ℕ

abbrev pub is_blank : Text → Bool
is_blank s = all is_space s

-- `checkpoint_created_at`
abbrev pub checkpoint_created_at : Option Text → Result Text
checkpoint_created_at created_at = elim created_at [
  | none ↦ err (runtime_error "checkpoint predates durable start-time recording")
  | some created ↦
      if is_blank created
      then err (runtime_error "checkpoint predates durable start-time recording")
      else ok created
]

abbrev pub is_ready : Status → Bool
is_ready ready = true
is_ready _ = false

abbrev pub is_text : Option Text → Text → Bool
is_text none t = false
is_text (some s) t = eq_list s t

-- `state.get("committed_prefix_sha256", state.get("partial_sha256"))`
abbrev pub committed_sha : Checkpoint → Option Text
committed_sha c = elim c.committed_prefix_sha256 [ none ↦ c.partial_sha256 | some s ↦ some s ]

abbrev pub committed_length : Checkpoint → Bytes → ℕ
committed_length c partial = elim c.committed_length_bytes [ none ↦ length partial | some n ↦ n ]

module _ (D : Digest) (U : Digits) (N : NumPy) (job : Job) where
  open job use {dimensions, query_block_rows, corpus_block_rows, input_hash, score}

  abbrev pub read_truth : Bytes → Result (List (List ℕ) × Metadata)
  read_truth file =
      read_ground_truth U D file (some dimensions.query_count) (some dimensions.top_k)
        (some dimensions.corpus_count)

  abbrev pub running_checkpoint : Text → ℕ → Bytes → Checkpoint
  running_checkpoint started completed partial = record {
    input_hash = input_hash;
    created_at = some started;
    status = running;
    completed_queries = completed;
    committed_length_bytes = some (length partial);
    committed_prefix_sha256 = some (sha256_hex D partial);
    partial_sha256 = none;
    ground_truth_sha256 = none;
  }

  abbrev pub ready_checkpoint : Text → ℕ → Bytes → Checkpoint
  ready_checkpoint started completed partial =
      record (running_checkpoint started completed partial) {
        status = ready;
        ground_truth_sha256 = some (sha256_hex D partial);
      }

  -- The files with another partial file and checkpoint, and after the partial file has become the
  -- output.
  abbrev pub unpublished : Files → Bytes → Option Checkpoint → Files
  unpublished found partial checkpoint = record found {
    partial = some partial;
    checkpoint = checkpoint;
  }

  abbrev pub published : Files → Bytes → Option Checkpoint → Files
  published found output checkpoint = record found {
    output = some output;
    partial = none;
    checkpoint = checkpoint;
  }

  abbrev pub declare : Bool → Text → Text → Metadata → Declared
  declare recovered started now truth = record {
    input_hash = input_hash;
    generation_started_at = started;
    created_at = now;
    ground_truth = truth;
    recovered = recovered;
  }

  -- The answers to `count` queries from `begin` on.
  abbrev pub block_answers : ℕ → ℕ → Result (List (List ℕ))
  block_answers begin zero = ok []
  block_answers begin (suc count) = do
    ids ←
        exact_topk_block N (score begin) dimensions.corpus_count dimensions.top_k corpus_block_rows
    rest ← block_answers (suc begin) count
    ok (ids ∷ rest)

  -- From the last row to the removed checkpoint. `found` is what the call found.
  unfoldable pub publish : Files → Text → Text → ℕ → Bytes → Run Files Declared
  publish found now started completed partial = and_then (read_truth partial) (λ (rows, truth).
      let checkpoint = some (ready_checkpoint started completed partial) in
      let declared = declare false started now truth in
      let done = published found partial checkpoint in
      record {
        states =
            unpublished found partial checkpoint
            ∷ done
            ∷ record done { sidecar = some declared }
            ∷ record done { sidecar = some declared; checkpoint = none }
            ∷ [];
        result = ok declared;
      })

  -- `for begin in range(completed, …)`; `left` queries are not answered yet, and fuel bounds the
  -- blocks. The checkpoint stays while a payload is appended.
  unfoldable pub generate_from :
      Files → ℕ → Text → Text → ℕ → ℕ → Bytes → Checkpoint → Run Files Declared
  generate_from found fuel now started completed zero partial checkpoint =
      publish found now started completed partial
  generate_from found zero now started completed (suc left) partial checkpoint =
      publish found now started completed partial
  generate_from found (suc fuel) now started completed (suc left) partial checkpoint =
      let count = min query_block_rows (suc left) in
      and_then (block_answers completed count) (λ rows.
        let partial' = partial ++ rows_bytes rows in
        let checkpoint' = running_checkpoint started (completed + count) partial' in
        after_states
          (map (λ p. unpublished found p (some checkpoint)) (growing partial (rows_bytes rows))
            ++ unpublished found partial' (some checkpoint') ∷ [])
          (generate_from found fuel now started (completed + count) (suc left - count) partial'
            checkpoint'))

  abbrev pub generate_rest : Files → Text → Text → ℕ → Bytes → Checkpoint → Run Files Declared
  generate_rest found now started completed partial checkpoint =
      and_then (raise_if (query_block_rows == 0) (value_error "range() arg 3 must not be zero"))
        (λ u.
          generate_from found dimensions.query_count now started completed
            (dimensions.query_count - completed) partial checkpoint)

  -- The checks on the lines of the part that is kept.
  abbrev pub check_lines : ℕ → Bytes → Result (Unit {0})
  check_lines completed kept = do
    lines ← file_lines kept
    raise_if
        (elim lines [
          | [] ↦ true
          | line ∷ rest ↦
              not (length rest == completed) || not (eq_list line (header_line dimensions))
        ])
        (runtime_error "ground-truth partial row count/header mismatch")

  -- A call that finds a partial file and its checkpoint goes on behind the committed part.
  unfoldable pub resume : Files → Text → Bytes → Checkpoint → Run Files Declared
  resume found now partial c =
      let kept = take (committed_length c partial) partial in
      and_then
        (do
          raise_if (not (eq_list c.input_hash input_hash))
              (runtime_error "ground-truth checkpoint belongs to different inputs")
          started ← checkpoint_created_at c.created_at
          raise_if (ltb (length partial) (committed_length c partial))
              (runtime_error "ground-truth partial is shorter than its committed checkpoint")
          raise_if (not (is_text (committed_sha c) (sha256_hex D kept)))
              (runtime_error "ground-truth committed-prefix checksum mismatch")
          ok started)
        (λ started.
          after_states
            (if ltb (committed_length c partial) (length partial)
              then unpublished found kept (some c) ∷ []
              else [])
            (and_then (check_lines c.completed_queries kept)
              (λ u. generate_rest found now started c.completed_queries kept c)))

  -- A call that finds nothing.
  unfoldable pub begin : Files → Text → Run Files Declared
  begin found now =
      let header = header_bytes dimensions in
      let checkpoint = running_checkpoint now 0 header in
      after_states
        (map (λ p. unpublished found p none) ([] ∷ growing [] header)
          ++ unpublished found header (some checkpoint) ∷ [])
        (generate_rest found now now 0 header checkpoint)

  -- A call that finds the output and its sidecar.
  unfoldable pub reuse : Bytes → Declared → Run Files Declared
  reuse output declared =
      and_then
        (do
          truth ← read_truth output
          raise_if (not (eq_list declared.input_hash input_hash))
              (value_error "existing ground truth belongs to different inputs")
          raise_if (not (eq_list declared.ground_truth.sha256 (sha256_hex D output)))
              (value_error "existing ground-truth SHA-256 mismatch"))
        (λ u. record { states = []; result = ok declared })

  -- A call that finds the output without its sidecar.
  unfoldable pub recover : Text → Files → Bytes → Option Checkpoint → Run Files Declared
  recover now files output none =
      stopped (value_error "existing ground truth has no provenance sidecar/checkpoint")
  recover now files output (some c) =
      and_then
        (do
          raise_if
              (not (is_ready c.status)
                || (not (eq_list c.input_hash input_hash)
                    || not (is_text c.ground_truth_sha256 (sha256_hex D output))))
              (value_error "ground-truth publication checkpoint mismatch")
          (rows, truth) ← read_truth output
          started ← checkpoint_created_at c.created_at
          ok (declare true started now truth))
        (λ declared. record {
          states =
              record files { sidecar = some declared }
              ∷ record files { sidecar = some declared; checkpoint = none }
              ∷ [];
          result = ok declared;
        })

  abbrev pub resume_or_begin : Files → Text → Option Bytes → Option Checkpoint → Run Files Declared
  resume_or_begin found now none none = begin found now
  resume_or_begin found now (some partial) (some c) = resume found now partial c
  resume_or_begin found now _ _ =
      stopped (runtime_error "ground-truth checkpoint and partial must coexist")

  abbrev pub dispatch : Files → Text → Option Bytes → Option Declared → Run Files Declared
  dispatch found now (some output) (some declared) = reuse output declared
  dispatch found now (some output) none = recover now found output found.checkpoint
  dispatch found now none sidecar = resume_or_begin found now found.partial found.checkpoint

  -- The call at the time `now`, by what it finds.
  unfoldable pub generate : Text → Files → Run Files Declared
  generate now found = dispatch found now found.output found.sidecar
