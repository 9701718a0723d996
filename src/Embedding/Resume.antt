-- ===== src/Embedding/Resume.antt =====
-- How a call goes on with a partial file.
use leann_cpp.Prelude.{
  ℕ, ◌+◌, ◌*◌, ◌≤◌, ◌≡◌, refl, ap, sym, ◌∙◌, Bool, true, false, Option, List, [], ◌∷◌, ◌++◌,
  append_assoc, length, length-append, take, drop, take-append, drop-append, All, arith,
  ok-injective, ok, ltb, eq_list_self, if◌then◌else◌,
}
use leann_cpp.Bytes.{Bytes, Text}
use leann_cpp.Cache.Read.{sha256_hex}
use leann_cpp.Cache.Write.{matrix_bytes}
use leann_cpp.Cache.Write.Rows.{length-matrix_bytes}
use leann_cpp.Generate.{is_blank}
use leann_cpp.Embedding.{Status, Checkpoint, Files, Setting}
use leann_cpp.Embedding.Plan.{Call, Plan}
use leann_cpp.Embedding.Generate.{resume, check_checkpoint, committed_size}
use leann_cpp.Embedding.Rows.{IsFit, AreRows, HasDimension}
use leann_cpp.Embedding.Phases.{
  plan_at, file_of, checkpoint_of, bare, IsGood, Outcome, and_then-Outcome, after_states-Outcome,
  committed-IsGood,
}
use leann_cpp.Embedding.Calls.{Answers}
use leann_cpp.Embedding.Starts.{write_rest-Outcome}

module _ (S : Setting) (p : Plan S) (w : ℕ) (fit : IsFit S p w) (c : Call S)
    (same_dimension : HasDimension S p w c) where
  open S use {Value, digest, floats}
  open p use {arguments, source}

  if-IsGood :
      (b : Bool) (f : Files Value)
      → IsGood S p w fit f
      → All (IsGood S p w fit) (if b then f ∷ [] else [])
  if-IsGood true f h = (h, tt)
  if-IsGood false f h = tt

  -- What the checks on a checkpoint find in a partial file.
  module _ (now started : Text) (rows : List (List floats.Scalar)) (junk : Bytes) (status : Status)
      (sha : Option Text) (good : AreRows S p w rows) (k : is_blank started ≡ false) where
    length-file_of :
        length (file_of S p w fit rows)
        ≡ committed_size S (checkpoint_of S p w fit rows started status sha)
    length-file_of =
        length-append fit.header (matrix_bytes digest floats rows)
        ∙ ap (λ (n : ℕ). length fit.header + n) (length-matrix_bytes digest floats w rows good.0)

    long_enough :
        ltb
          (length (file_of S p w fit rows ++ junk))
          (committed_size S (checkpoint_of S p w fit rows started status sha))
        ≡ false
    long_enough = ground (arith, length-append (file_of S p w fit rows) junk, length-file_of)

    check_checkpoint-partial :
        check_checkpoint S
          (plan_at S p w fit now now)
          (file_of S p w fit rows ++ junk)
          (checkpoint_of S p w fit rows started status sha)
        ≡ ok started
    unfolding check_checkpoint
    check_checkpoint-partial =
        let mb = matrix_bytes digest floats rows in
        let payload =
          take-append (length rows * w * 4) mb junk
            (length-matrix_bytes digest floats w rows good.0) in
        let behind : drop (length fit.header) (file_of S p w fit rows ++ junk) ≡ mb ++ junk =
          ap (λ (b : Bytes). drop (length fit.header) b) (append_assoc fit.header mb junk)
          ∙ drop-append (length fit.header) fit.header (mb ++ junk) refl in
        let kept = drop-append (length fit.header) fit.header mb refl in
        rw (eq_list_self p.input_hash) (
          rw k
            (rw long_enough (rw (behind, payload, kept, eq_list_self (sha256_hex digest mb)) refl)))

    pub resume-Outcome :
        (b0 : Option Bytes) (c0 : Option Checkpoint) (o : Option (Files Value))
        → length rows ≤ source.nonempty_lines
        → Outcome S p w fit (Answers S p w fit c) o (
            resume S
              (bare S p w fit b0 c0)
              c
              (plan_at S p w fit now now)
              (file_of S p w fit rows ++ junk)
              (checkpoint_of S p w fit rows started status sha))
    unfolding resume
    resume-Outcome b0 c0 o within =
        let b = file_of S p w fit rows in
        let c' = checkpoint_of S p w fit rows started status sha in
        let cut : take (committed_size S c') (b ++ junk) ≡ b =
          take-append (committed_size S c') b junk length-file_of in
        and_then-Outcome S p w fit (Answers S p w fit c) o _ _
          (λ a. (started, check_checkpoint-partial))
          (λ started' e.
            let same : started ≡ started' = ok-injective _ _ (sym check_checkpoint-partial ∙ e) in
            rw (← same, cut)
              (after_states-Outcome S p w fit (Answers S p w fit c) o _ _
                (if-IsGood (ltb (committed_size S c') (length (b ++ junk))) _
                  (committed-IsGood S p w fit rows started status sha (good, within, k)))
                (write_rest-Outcome S p w fit c same_dimension b0 c0 now started rows status sha _
                  good within k)))
