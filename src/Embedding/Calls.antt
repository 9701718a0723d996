-- ===== src/Embedding/Calls.antt =====
-- What one call of `generate_cache` does from each of the phases.
use leann_cpp.Prelude.{
  ℕ, ◌+◌, ◌≤◌, ◌≡◌, ◌≢◌, ◌⊎◌, refl, false, not, ◌==◌, ==_self, Option, none, some, List, [], ◌∷◌,
  ◌++◌, length, length-append, All, All-append, arith, Result, ok,
}
use leann_cpp.Bytes.{Bytes, Text}
use leann_cpp.Cache.Matrix.{Matrix}
use leann_cpp.Cache.Read.{sha256_hex}
use leann_cpp.Cache.Write.{matrix_bytes}
use leann_cpp.Generate.{is_blank}
use leann_cpp.Embedding.{Status, running, ready_to_publish, Checkpoint, Declared, Files, Setting}
use leann_cpp.Embedding.Plan.{Call, Plan, published, declare, declared_run}
use leann_cpp.Embedding.Generate.{publish, write_batches, request}
use leann_cpp.Embedding.Safety.{IsCacheOf, accept_cache-IsCacheOf}
use leann_cpp.Embedding.Rows.{
  IsFit, AreRows, AreRows-append, HasDimension, committed-append, accept_cache-committed, Conforms,
}
use leann_cpp.Embedding.Phases.{
  cache_only, finished, header_size, plan_at, file_of, checkpoint_of, bare, files_of, AreWhole,
  IsGood, Outcome, and_then-Outcome, after_states-Outcome, committed-IsGood,
  growing_committed-IsGood,
}

module _ (S : Setting) (p : Plan S) (w : ℕ) (fit : IsFit S p w) where
  open S use {Value, digest, floats}
  open p use {arguments, source}

  -- The sidecar is written and the checkpoint removed.
  pub declared_run-Outcome :
      (Answered : Type 0) (o : Option (Files Value)) (found : Files Value)
      (rows : List (List floats.Scalar)) (declared : Declared Value)
      → found.cache ≡ some (file_of S p w fit rows)
      → found.partial ≡ none
      → AreWhole S p w fit rows
      → Conforms S p w fit (file_of S p w fit rows) declared
      → IsCacheOf S arguments.source_path (file_of S p w fit rows)
      → Outcome S p w fit Answered o (declared_run S found declared)
  unfolding Outcome
  declared_run-Outcome A o found rows declared e n whole conforms good =
      rw (e, n)
        (
          (
            (finished rows declared found.checkpoint, refl, (whole, conforms)),
            ((finished rows declared none, refl, (whole, conforms)), tt),
          ),
          λ answered. (
            declared,
            files_of S p w fit (finished rows declared none),
            refl,
            refl,
            (file_of S p w fit rows, refl, refl, refl, good),
          ),
        )

  publish-Outcome :
      (Answered : Type 0) (b0 : Option Bytes) (c0 : Option Checkpoint) (now started : Text)
      (rows : List (List floats.Scalar)) (o : Option (Files Value))
      → AreWhole S p w fit rows
      → is_blank started ≡ false
      → Outcome S p w fit Answered o (
          publish S
            (bare S p w fit b0 c0)
            (plan_at S p w fit now started)
            w
            (header_size S p w fit)
            (length rows)
            (file_of S p w fit rows))
  unfolding publish
  publish-Outcome A b0 c0 now started rows o whole k =
      let b = file_of S p w fit rows in
      let sha = some (sha256_hex digest b) in
      let (metadata, (accepted, named, bound)) =
        accept_cache-committed S p w fit rows whole.0 whole.1 in
      let counted : not (length rows == source.nonempty_lines) ≡ false =
        rw (whole.1, ==_self source.nonempty_lines) refl in
      and_then-Outcome S p w fit A o _ _ (λ a. (metadata, rw counted accepted))
        (λ m e.
          after_states-Outcome S p w fit A o _ _
            (
              committed-IsGood S p w fit rows started ready_to_publish sha
                  (whole.0, omega (arith, whole.1), k),
              ((cache_only rows started, refl, (whole, k)), tt),
            )
            (and_then-Outcome S p w fit A _ _ _ (λ a. (metadata, accepted))
              (λ again e'.
                declared_run-Outcome A _
                  (published S (bare S p w fit b0 c0) b
                    (some (checkpoint_of S p w fit rows started ready_to_publish sha)))
                  rows (declare S (plan_at S p w fit now started) (header_size S p w fit) b again)
                  refl refl whole (refl, refl, refl, refl, refl, refl)
                  (accept_cache-IsCacheOf S arguments.source_path b again e'))))

  -- The endpoint answers every batch that is not larger than the batch size, if it is asked for the
  -- dimension that it has, or for none.
  abbrev pub Answers : Call S → Type 0
  Answers c =
      (d : Option ℕ)
      → (d ≡ none) ⊎ (d ≡ some w)
      → (texts : List Text) → (texts ≢ []) × (length texts ≤ arguments.batch_size)
      → (m : Matrix floats.Scalar) × (request S c d texts ≡ ok m)

  module _ (c : Call S) (same_dimension : HasDimension S p w c) where
    -- A batch, with what was computed for it.
    abbrev pub Batch : Type 0
    Batch = List Text × Result (Matrix floats.Scalar)

    abbrev pub IsEmbedded : Batch → Type 0
    IsEmbedded (texts, result) =
        ((m : Matrix floats.Scalar)
          → result ≡ ok m
          → (length m.rows ≡ length texts) × AreRows S p w m.rows)
        × (Answers c → (m : Matrix floats.Scalar) × (result ≡ ok m))

    abbrev pub count_texts : List Batch → ℕ
    count_texts [] = 0
    count_texts ((texts, result) ∷ batches) = length texts + count_texts batches

    pub write_batches-Outcome :
        (b0 : Option Bytes) (c0 : Option Checkpoint) (now started : Text) (batches : List Batch)
        (rows : List (List floats.Scalar)) (status : Status) (sha : Option Text)
        (o : Option (Files Value))
        → AreRows S p w rows
        → length rows + count_texts batches ≡ source.nonempty_lines
        → All IsEmbedded batches
        → is_blank started ≡ false
        → Outcome S p w fit (Answers c) o (
            write_batches S
              (bare S p w fit b0 c0)
              (plan_at S p w fit now started)
              w
              (header_size S p w fit)
              (length rows)
              (file_of S p w fit rows)
              (checkpoint_of S p w fit rows started status sha)
              batches)
    unfolding write_batches
    write_batches-Outcome b0 c0 now started [] rows status sha o good counted embedded k =
        publish-Outcome (Answers c) b0 c0 now started rows o (good, omega (arith, counted)) k
    write_batches-Outcome b0 c0 now started ((texts, result) ∷ batches) rows status sha o good
          counted ((shape, answered), embedded) k =
        and_then-Outcome S p w fit (Answers c) o _ _ answered (λ m e.
          let (long, fits) = shape m e in
          let rows' = rows ++ m.rows in
          let good' = AreRows-append S p w rows m.rows good fits in
          let longer = length-append rows m.rows in
          let total : length rows' + count_texts batches ≡ source.nonempty_lines =
            omega (arith, counted, long, longer) in
          let count : length rows + length texts ≡ length rows' = omega (arith, long, longer) in
          let within : length rows ≤ source.nonempty_lines = omega (arith, counted) in
          let within' : length rows' ≤ source.nonempty_lines = omega (arith, total) in
          rw (count, committed-append S p w fit rows m.rows)
            (after_states-Outcome S p w fit (Answers c) o _ _
              (All-append (IsGood S p w fit) _ _
                (growing_committed-IsGood S p w fit b0 c0 rows started status sha
                  (matrix_bytes digest floats m.rows) (good, within, k))
                (committed-IsGood S p w fit rows' started running none (good', within', k), tt))
              (write_batches-Outcome b0 c0 now started batches rows' running none _ good' total
                embedded k)))
