-- ===== src/Generate/Phases.antt =====
-- The states that calls with the same inputs leave behind, and what one call does with each.
use leann_cpp.Prelude.{
  ℕ, zero, suc, ◌+◌, ◌-◌, ◌≤◌, ◌<◌, ◌≡◌, refl, ◌∙◌, ap, sym, min, Bool, false, Option, none, some,
  List, [], ◌∷◌, ◌++◌, append_assoc, append-nil, map, arith, All, All-append, last_or,
  last_or-append, ok,
}
use leann_cpp.Bytes.{Bytes, Text}
use leann_cpp.Platform.{Digest}
use leann_cpp.Cache.Read.{sha256_hex}
use leann_cpp.TopK.{NumPy}
use leann_cpp.GroundTruth.Words.{Digits}
use leann_cpp.GroundTruth.Print.{rows_bytes}
use leann_cpp.Writes.{Run, growing, after_states, and_then}
use leann_cpp.Generate.{
  Job, Files, Checkpoint, Status, running, ready, is_blank, running_checkpoint, ready_checkpoint,
  unpublished, declare, publish, generate_from, Declared,
}
use leann_cpp.Generate.Written.{
  IsJob, written, answers, written-append, block_answers_lem, truth_metadata, read_truth-written,
}

-- What stands in the directory, by how far the calls have come. `torn` is the partial file before
-- its first checkpoint; in `partial` some bytes may stand behind the committed part.
pub data Phase : Type 0 where
  fresh : Phase
  torn : Bytes → Phase
  partial : ℕ → Bytes → Text → Status → Option Text → Phase
  output_only : Text → Phase
  finished : Bool → Text → Text → Option Checkpoint → Phase

module _ (D : Digest) (U : Digits) (N : NumPy) (job : Job) (fit : IsJob job) where
  open job use {dimensions}

  abbrev pub checkpoint_of : Text → ℕ → Status → Option Text → Checkpoint
  checkpoint_of started completed status sha =
      record (running_checkpoint D U N job started completed (written job completed)) {
        status = status;
        ground_truth_sha256 = sha;
      }

  abbrev pub truth_file : Bytes
  truth_file = written job dimensions.query_count

  abbrev pub files_of : Phase → Files
  files_of fresh = record { output = none; sidecar = none; partial = none; checkpoint = none }
  files_of (torn p) = record { output = none; sidecar = none; partial = some p; checkpoint = none }
  files_of (partial completed junk started status sha) = record {
    output = none;
    sidecar = none;
    partial = some (written job completed ++ junk);
    checkpoint = some (checkpoint_of started completed status sha);
  }
  files_of (output_only started) = record {
    output = some truth_file;
    sidecar = none;
    partial = none;
    checkpoint = some (ready_checkpoint D U N job started dimensions.query_count truth_file);
  }
  files_of (finished recovered started now checkpoint) = record {
    output = some truth_file;
    sidecar = some (declare D U N job recovered started now (truth_metadata job fit D U N));
    partial = none;
    checkpoint = checkpoint;
  }

  abbrev pub IsPhase : Phase → Type 0
  IsPhase fresh = Unit
  IsPhase (torn p) = Unit
  IsPhase (partial completed junk started status sha) =
      (completed ≤ dimensions.query_count) × (is_blank started ≡ false)
  IsPhase (output_only started) = is_blank started ≡ false
  IsPhase (finished recovered started now checkpoint) = Unit

  -- One of these states.
  abbrev pub IsGood : Files → Type 0
  IsGood files = (p : Phase) × (files ≡ files_of p) × IsPhase p

  -- A run whose states are all good, and that returns and leaves behind the finished ground truth.
  abbrev pub Completes : Run Files Declared → Type 0
  Completes run =
      All IsGood run.states
      × (recovered : Bool) × (started : Text) × (now : Text) × (run.result
          ≡ ok (declare D U N job recovered started now (truth_metadata job fit D U N)))
      × ((o : Option Files)
          → last_or o run.states ≡ some (files_of (finished recovered started now none)))

  pub Completes-after_states :
      (states : List Files) (run : Run Files Declared)
      → All IsGood states
      → Completes run
      → Completes (after_states states run)
  unfolding after_states
  Completes-after_states states run h (good, recovered, started, now, e, l) = (
    All-append IsGood states run.states h good,
    recovered,
    started,
    now,
    e,
    λ o. last_or-append o states run.states ∙ l (last_or o states),
  )

  -- What a call finds before the output stands.
  abbrev pub before_output : Option Bytes → Option Checkpoint → Files
  before_output p c = record { output = none; sidecar = none; partial = p; checkpoint = c }

  growing-IsGood :
      (p0 : Option Bytes) (c0 : Option Checkpoint) (completed : ℕ) (junk : Bytes) (started : Text)
      (status : Status) (sha : Option Text) (payload : Bytes)
      → completed ≤ dimensions.query_count
      → is_blank started ≡ false
      → All IsGood (
          map
            (λ p.
              unpublished D U N job
                (before_output p0 c0)
                p
                (some (checkpoint_of started completed status sha)))
            (growing (written job completed ++ junk) payload))
  growing-IsGood p0 c0 completed junk started status sha [] h k = tt
  growing-IsGood p0 c0 completed junk started status sha (b ∷ payload) h k =
      let e : (written job completed ++ junk) ++ b ∷ []
          ≡ written job completed ++ (junk ++ b ∷ []) =
        append_assoc (written job completed) junk (b ∷ []) in
      rw e (
        (partial completed (junk ++ b ∷ []) started status sha, refl, (h, k)),
        growing-IsGood p0 c0 completed (junk ++ b ∷ []) started status sha payload h k,
      )

  pub growing_committed :
      (p0 : Option Bytes) (c0 : Option Checkpoint) (completed : ℕ) (started : Text)
      (status : Status) (sha : Option Text) (payload : Bytes)
      → completed ≤ dimensions.query_count
      → is_blank started ≡ false
      → All IsGood (
          map
            (λ p.
              unpublished D U N job
                (before_output p0 c0)
                p
                (some (checkpoint_of started completed status sha)))
            (growing (written job completed) payload))
  growing_committed p0 c0 completed started status sha payload h k =
      rw (append-nil (written job completed)) at
        (growing-IsGood p0 c0 completed [] started status sha payload h k)

  pub torn-IsGood :
      (p0 : Option Bytes) (c0 : Option Checkpoint) (ps : List Bytes)
      → All IsGood (map (λ p. unpublished D U N job (before_output p0 c0) p none) ps)
  torn-IsGood p0 c0 [] = tt
  torn-IsGood p0 c0 (p ∷ ps) = ((torn p, refl, tt), torn-IsGood p0 c0 ps)

  -- Nothing behind the committed part.
  pub committed-IsGood :
      (completed : ℕ) (started : Text) (status : Status) (sha : Option Text)
      → completed ≤ dimensions.query_count
      → is_blank started ≡ false
      → IsGood (record {
        output = none;
        sidecar = none;
        partial = some (written job completed);
        checkpoint = some (checkpoint_of started completed status sha);
      })
  committed-IsGood completed started status sha h k = (
    partial completed [] started status sha,
    ap (λ (t : Bytes). before_output (some t) (some (checkpoint_of started completed status sha)))
        (sym (append-nil (written job completed))),
    (h, k),
  )

  publish-Completes :
      (p0 : Option Bytes) (c0 : Option Checkpoint) (now started : Text)
      → is_blank started ≡ false
      → Completes
          (publish D U N job (before_output p0 c0) now started dimensions.query_count truth_file)
  unfolding publish and_then
  publish-Completes p0 c0 now started k =
      let last = some (ready_checkpoint D U N job started dimensions.query_count truth_file) in
      rw (read_truth-written job fit D U N) (
        (
          committed-IsGood dimensions.query_count started ready (some (sha256_hex D truth_file))
              (omega arith) k,
          (
            (output_only started, refl, k),
            (
              (finished false started now last, refl, tt),
              ((finished false started now none, refl, tt), tt),
            ),
          ),
        ),
        false,
        started,
        now,
        refl,
        λ o. refl,
      )

  pub generate_from-Completes :
      (p0 : Option Bytes) (c0 : Option Checkpoint) (fuel : ℕ) (now started : Text)
      (completed left : ℕ) (status : Status) (sha : Option Text)
      → left ≤ fuel
      → completed + left ≡ dimensions.query_count
      → is_blank started ≡ false
      → Completes (
          generate_from D U N job
            (before_output p0 c0)
            fuel
            now
            started
            completed
            left
            (written job completed)
            (checkpoint_of started completed status sha))
  unfolding generate_from and_then
  generate_from-Completes p0 c0 fuel now started completed zero status sha h e k =
      let q : completed ≡ dimensions.query_count = omega (arith, e) in
      rw q (publish-Completes p0 c0 now started k)
  generate_from-Completes p0 c0 zero now started completed (suc left) status sha h e k =
      absurd (omega (arith, h))
  generate_from-Completes p0 c0 (suc fuel) now started completed (suc left) status sha h e k =
      let count = min job.query_block_rows (suc left) in
      let positive : 0 < count = omega (arith, fit.query_block) in
      let within : completed + count ≤ dimensions.query_count = omega (arith, e) in
      let ih =
        generate_from-Completes p0 c0 fuel now started (completed + count) (suc left - count)
          running none (omega (arith, h, positive)) (omega (arith, e)) k in
      rw (block_answers_lem job fit D U N completed count) (
        rw (written-append job completed count) (
          Completes-after_states _ _
            (All-append IsGood _ _
              (growing_committed p0 c0 completed started status sha
                (rows_bytes (answers job completed count)) (omega arith) k)
              (committed-IsGood (completed + count) started running none within k, tt))
            ih))
