-- ===== src/Embedding/Phases.antt =====
-- The files that calls of `generate_cache` with the same inputs leave behind, and how a run from there
-- ends.
use leann_cpp.Prelude.{
  ℕ, ◌≤◌, ◌≡◌, refl, ap, sym, subst, ◌∙◌, false, Option, none, some, List, [], ◌∷◌, ◌++◌,
  append_assoc, append-nil, map, length, All, All-append, Result, ok, err, last_or, last_or-append,
}
use leann_cpp.Bytes.{Bytes, Text}
use leann_cpp.Writes.{Run, after_states, and_then, growing}
use leann_cpp.Cache.Read.{sha256_hex}
use leann_cpp.Generate.{is_blank}
use leann_cpp.Embedding.{Status, ready_to_publish, Checkpoint, Declared, Files, Setting}
use leann_cpp.Embedding.Plan.{Plan, running_checkpoint, unpublished}
use leann_cpp.Embedding.Safety.{IsCacheOf}
use leann_cpp.Embedding.Rows.{IsFit, AreRows, committed, Conforms}

-- `torn` is the partial file before its first checkpoint; in `partial` some bytes may stand behind the
-- committed rows.
pub data Phase (R V : Type 0) : Type 0 where
  fresh : Phase R V
  torn : Bytes → Phase R V
  partial : List R → Bytes → Text → Status → Option Text → Phase R V
  cache_only : List R → Text → Phase R V
  finished : List R → Declared V → Option Checkpoint → Phase R V

module _ (S : Setting) (p : Plan S) (w : ℕ) (fit : IsFit S p w) where
  open S use {Value, digest, floats}
  open p use {arguments, source}

  abbrev pub header_size : ℕ
  header_size = length fit.header

  -- The inputs of a call at another time, for a generation that was started then.
  abbrev pub plan_at : Text → Text → Plan S
  plan_at now started = record p { now = now; started = started }

  abbrev pub file_of : List (List floats.Scalar) → Bytes
  file_of rows = committed S p w fit rows

  abbrev pub checkpoint_of : List (List floats.Scalar) → Text → Status → Option Text → Checkpoint
  checkpoint_of rows started status sha =
      record (running_checkpoint S (plan_at started started) w header_size (length rows)
        (file_of rows)) { status = status; cache_sha256 = sha }

  -- The files of a call that finds no cache.
  abbrev pub bare : Option Bytes → Option Checkpoint → Files Value
  bare b c = record { cache = none; sidecar = none; partial = b; checkpoint = c }

  abbrev pub files_of : Phase (List floats.Scalar) Value → Files Value
  files_of fresh = bare none none
  files_of (torn b) = bare (some b) none
  files_of (partial rows junk started status sha) =
      bare (some (file_of rows ++ junk)) (some (checkpoint_of rows started status sha))
  files_of (cache_only rows started) = record {
    cache = some (file_of rows);
    sidecar = none;
    partial = none;
    checkpoint =
        some
          (checkpoint_of rows started ready_to_publish (some (sha256_hex digest (file_of rows))));
  }
  files_of (finished rows declared checkpoint) = record {
    cache = some (file_of rows);
    sidecar = some declared;
    partial = none;
    checkpoint = checkpoint;
  }

  abbrev pub AreWhole : List (List floats.Scalar) → Type 0
  AreWhole rows = AreRows S p w rows × (length rows ≡ source.nonempty_lines)

  abbrev pub IsPhase : Phase (List floats.Scalar) Value → Type 0
  IsPhase fresh = Unit
  IsPhase (torn b) = Unit
  IsPhase (partial rows junk started status sha) =
      AreRows S p w rows × (length rows ≤ source.nonempty_lines) × (is_blank started ≡ false)
  IsPhase (cache_only rows started) = AreWhole rows × (is_blank started ≡ false)
  IsPhase (finished rows declared checkpoint) =
      AreWhole rows × Conforms S p w fit (file_of rows) declared

  -- One of these states.
  abbrev pub IsGood : Files Value → Type 0
  IsGood f = (ph : Phase (List floats.Scalar) Value) × (f ≡ files_of ph) × IsPhase ph

  -- The cache stands whole, with the sidecar that is returned, and no partial file.
  abbrev pub IsDone : Files Value → Declared Value → Type 0
  IsDone g declared =
      (b : Bytes) × (g.cache ≡ some b)
      × (g.sidecar ≡ some declared)
      × (g.partial ≡ none)
      × IsCacheOf S arguments.source_path b

  -- A run that begins with the files in `o`. If the endpoint answers, it finishes.
  unfoldable pub Outcome :
      Type 0 → Option (Files Value) → Run (Files Value) (Declared Value) → Type 0
  Outcome Answered o r =
      All IsGood r.states
      × (Answered
          → (declared : Declared Value) × (g : Files Value) × (r.result ≡ ok declared)
            × (last_or o r.states ≡ some g)
            × IsDone g declared)

  module _ (Answered : Type 0) where
    pub and_then-Outcome :
        {B : Type 0} (o : Option (Files Value)) (b : Result B)
        (next : B → Run (Files Value) (Declared Value))
        → (Answered → (value : B) × (b ≡ ok value))
        → ((value : B) → b ≡ ok value → Outcome Answered o (next value))
        → Outcome Answered o (and_then b next)
    unfolding and_then Outcome
    and_then-Outcome o (err e) next h k = (tt, λ a. absurd (cc (h a).1))
    and_then-Outcome o (ok value) next h k = k value refl

    pub after_states-Outcome :
        (o : Option (Files Value)) (states : List (Files Value))
        (r : Run (Files Value) (Declared Value))
        → All IsGood states
        → Outcome Answered (last_or o states) r
        → Outcome Answered o (after_states states r)
    unfolding after_states Outcome
    after_states-Outcome o states r h (k, ends) = (
      All-append IsGood states r.states h k,
      λ a.
          let (declared, g, e, last, done) = ends a in
          (declared, g, e, last_or-append o states r.states ∙ last, done),
    )

  pub torn-IsGood :
      (b0 : Option Bytes) (c0 : Option Checkpoint) (bs : List Bytes)
      → All IsGood (map (λ b. unpublished S (bare b0 c0) b none) bs)
  torn-IsGood b0 c0 [] = tt
  torn-IsGood b0 c0 (b ∷ bs) = ((torn b, refl, tt), torn-IsGood b0 c0 bs)

  pub committed-IsGood :
      (rows : List (List floats.Scalar)) (started : Text) (status : Status) (sha : Option Text)
      → IsPhase (partial rows [] started status sha)
      → IsGood (bare (some (file_of rows)) (some (checkpoint_of rows started status sha)))
  committed-IsGood rows started status sha h = (
    partial rows [] started status sha,
    ap (λ (b : Bytes). bare (some b) (some (checkpoint_of rows started status sha)))
        (sym (append-nil (file_of rows))),
    h,
  )

  growing-IsGood :
      (b0 : Option Bytes) (c0 : Option Checkpoint) (rows : List (List floats.Scalar)) (junk : Bytes)
      (started : Text) (status : Status) (sha : Option Text) (payload : Bytes)
      → IsPhase (partial rows junk started status sha)
      → All IsGood (
          map
            (λ b. unpublished S (bare b0 c0) b (some (checkpoint_of rows started status sha)))
            (growing (file_of rows ++ junk) payload))
  growing-IsGood b0 c0 rows junk started status sha [] h = tt
  growing-IsGood b0 c0 rows junk started status sha (x ∷ payload) h =
      rw (append_assoc (file_of rows) junk (x ∷ [])) (
        (partial rows (junk ++ x ∷ []) started status sha, refl, h),
        growing-IsGood b0 c0 rows (junk ++ x ∷ []) started status sha payload h,
      )

  pub growing_committed-IsGood :
      (b0 : Option Bytes) (c0 : Option Checkpoint) (rows : List (List floats.Scalar))
      (started : Text) (status : Status) (sha : Option Text) (payload : Bytes)
      → IsPhase (partial rows [] started status sha)
      → All IsGood (
          map
            (λ b. unpublished S (bare b0 c0) b (some (checkpoint_of rows started status sha)))
            (growing (file_of rows) payload))
  growing_committed-IsGood b0 c0 rows started status sha payload h =
      subst
        (λ (b : Bytes). All IsGood (
          map (λ b. unpublished S (bare b0 c0) b (some (checkpoint_of rows started status sha)))
            (growing b payload)))
        (append-nil (file_of rows)) (growing-IsGood b0 c0 rows [] started status sha payload h)
