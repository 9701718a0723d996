-- ===== src/Generate/Calls.antt =====
-- What one call does with the files of each phase.
use leann_cpp.Prelude.{
  ℕ, ◌-◌, ◌≤◌, ◌≡◌, refl, Bool, true, false, Option, none, some, [], ◌∷◌, ◌++◌, map, arith, length,
  length-append, take-append, All, All-append, eq_list_self, ltb, ◌==◌, if◌then◌else◌, ok,
  runtime_error,
}
use leann_cpp.Bytes.{Bytes, Text}
use leann_cpp.Platform.{Digest}
use leann_cpp.Cache.Read.{sha256_hex}
use leann_cpp.TopK.{NumPy}
use leann_cpp.GroundTruth.Words.{Digits}
use leann_cpp.Writes.{Run, growing, stopped, and_then}
use leann_cpp.Generate.{
  Job, Files, Checkpoint, Status, running, is_blank, ready_checkpoint, unpublished, declare,
  generate_rest, resume, begin, reuse, recover, generate, Declared,
}
use leann_cpp.Generate.Written.{
  IsJob, written, written_zero, check_lines-written, truth_metadata, read_truth-written,
}
use leann_cpp.Generate.Phases.{
  Phase, fresh, torn, partial, output_only, finished, checkpoint_of, truth_file, files_of, IsPhase,
  IsGood, Completes, Completes-after_states, before_output, torn-IsGood, committed-IsGood,
  generate_from-Completes,
}

module _ (D : Digest) (U : Digits) (N : NumPy) (job : Job) (fit : IsJob job) where
  open job use {dimensions, input_hash}

  generate_rest-Completes :
      (p0 : Option Bytes) (c0 : Option Checkpoint) (now started : Text) (completed : ℕ)
      (status : Status) (sha : Option Text)
      → completed ≤ dimensions.query_count
      → is_blank started ≡ false
      → Completes D U N job fit (
          generate_rest D U N job
            (before_output D U N job fit p0 c0)
            now
            started
            completed
            (written job completed)
            (checkpoint_of D U N job fit started completed status sha))
  unfolding and_then
  generate_rest-Completes p0 c0 now started completed status sha h k =
      let positive : (job.query_block_rows == 0) ≡ false = ground (arith, fit.query_block) in
      rw positive (
        generate_from-Completes D U N job fit p0 c0 dimensions.query_count now started completed
          (dimensions.query_count - completed) status sha (omega arith) (omega arith) k)

  begin-Completes :
      (now : Text)
      → is_blank now ≡ false
      → Completes D U N job fit (begin D U N job (before_output D U N job fit none none) now)
  unfolding begin
  begin-Completes now k =
      let found = before_output D U N job fit none none in
      let growth =
        map (λ p. unpublished D U N job found p none) ([] ∷ growing [] (written job 0)) in
      let checkpoint = checkpoint_of D U N job fit now 0 running none in
      let committed = unpublished D U N job found (written job 0) (some checkpoint) ∷ [] in
      rw (← written_zero job) (
        Completes-after_states D U N job fit (growth ++ committed)
          (generate_rest D U N job found now now 0 (written job 0) checkpoint)
          (All-append (IsGood D U N job fit) growth committed
            (torn-IsGood D U N job fit none none ([] ∷ growing [] (written job 0)))
            (committed-IsGood D U N job fit 0 now running none (omega arith) k, tt))
          (generate_rest-Completes none none now now 0 running none (omega arith) k))

  if-IsGood :
      (b : Bool) (f : Files)
      → IsGood D U N job fit f
      → All (IsGood D U N job fit) (if b then f ∷ [] else [])
  if-IsGood true f h = (h, tt)
  if-IsGood false f h = tt

  resume-Completes :
      (now : Text) (completed : ℕ) (junk : Bytes) (started : Text) (status : Status)
      (sha : Option Text)
      → completed ≤ dimensions.query_count
      → is_blank started ≡ false
      → let p = written job completed ++ junk in
        let c = checkpoint_of D U N job fit started completed status sha in
        Completes D U N job fit
          (resume D U N job (before_output D U N job fit (some p) (some c)) now p c)
  unfolding resume and_then
  resume-Completes now completed junk started status sha h k =
      let p = written job completed ++ junk in
      let c = checkpoint_of D U N job fit started completed status sha in
      let long : ltb (length p) (length (written job completed)) ≡ false =
        ground (arith, length-append (written job completed) junk) in
      rw (take-append (length (written job completed)) (written job completed) junk refl) (
        rw (eq_list_self input_hash) (
          rw k (
            rw long (
              rw (eq_list_self (sha256_hex D (written job completed))) (
                Completes-after_states D U N job fit _ _
                  (if-IsGood (ltb (length (written job completed)) (length p)) _
                    (committed-IsGood D U N job fit completed started status sha h k))
                  (rw (check_lines-written job fit D U N completed) (
                    generate_rest-Completes (some p) (some c) now started completed status sha h
                      k)))))))

  recover-Completes :
      (now started : Text)
      → is_blank started ≡ false
      → let files = files_of D U N job fit (output_only started) in
        Completes D U N job fit
          (recover D U N job now files (truth_file D U N job fit) files.checkpoint)
  unfolding recover and_then
  recover-Completes now started k =
      let last =
        ready_checkpoint D U N job started dimensions.query_count (truth_file D U N job fit) in
      rw (eq_list_self input_hash) (
        rw (eq_list_self (sha256_hex D (truth_file D U N job fit))) (
          rw (read_truth-written job fit D U N) (
            rw k (
              (
                (finished true started now (some last), refl, tt),
                ((finished true started now none, refl, tt), tt),
              ),
              true,
              started,
              now,
              refl,
              λ o. refl,
            ))))

  reuse_lem :
      (recovered : Bool) (started now : Text)
      → let d = declare D U N job recovered started now (truth_metadata job fit D U N) in
        reuse D U N job (truth_file D U N job fit) d ≡ record { states = []; result = ok d }
  unfolding reuse and_then
  reuse_lem recovered started now = rw (read_truth-written job fit D U N) (
      rw (eq_list_self input_hash)
        (rw (eq_list_self (sha256_hex D (truth_file D U N job fit))) refl))

  -- A finished ground truth is returned, a torn start is refused, and every other phase is completed.
  abbrev pub Outcome : Phase → Run Files Declared → Type 0
  Outcome (torn p) run =
      run ≡ stopped (runtime_error "ground-truth checkpoint and partial must coexist")
  Outcome (finished recovered started now checkpoint) run = run ≡ record {
    states = [];
    result = ok (declare D U N job recovered started now (truth_metadata job fit D U N));
  }
  Outcome fresh run = Completes D U N job fit run
  Outcome (partial completed junk started status sha) run = Completes D U N job fit run
  Outcome (output_only started) run = Completes D U N job fit run

  pub generate-Outcome :
      (now : Text) (p : Phase)
      → is_blank now ≡ false
      → IsPhase D U N job fit p
      → Outcome p (generate D U N job now (files_of D U N job fit p))
  unfolding generate
  generate-Outcome now fresh k h = begin-Completes now k
  generate-Outcome now (torn p) k h = refl
  generate-Outcome now (partial completed junk started status sha) k (h, b) =
      resume-Completes now completed junk started status sha h b
  generate-Outcome now (output_only started) k h = recover-Completes now started h
  generate-Outcome now (finished recovered started at checkpoint) k h =
      reuse_lem recovered started at
