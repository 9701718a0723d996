-- ===== src/Embedding/Finishes.antt =====
-- Calls of `generate_cache` with the same inputs for an endpoint of one dimension, any of which may be
-- stopped after any write, and a call that runs to its end.
use leann_cpp.Prelude.{
  ℕ, ◌≡◌, refl, ap, sym, subst, ◌∙◌, Bool, true, false, Option, none, some, List, [], ◌∷◌, ◌++◌,
  take, All, ok, last_or, eq_list_self, ok-injective, runtime_error,
}
use leann_cpp.Bytes.{Bytes, Text}
use leann_cpp.Writes.{Run, stopped, after_states, and_then, Step, call, Reach, Reach-All}
use leann_cpp.Cache.Read.{Metadata, sha256_hex}
use leann_cpp.Generate.{is_blank}
use leann_cpp.Generate.Inputs.{read_file}
use leann_cpp.Embedding.{Checkpoint, Declared, Files, Setting}
use leann_cpp.Embedding.Existing.{
  check_existing, recovered, declare_existing, validate_existing_cache,
}
use leann_cpp.Embedding.Plan.{Call, Plan, stable_of, read_inputs}
use leann_cpp.Embedding.Generate.{begin, begin_known, generate_planned, generate_cache}
use leann_cpp.Embedding.Safety.{no_files, accept_cache-IsCacheOf}
use leann_cpp.Embedding.Rows.{
  IsFit, read_inputs-eq-ok, HasDimension, accept_cache-committed, IsAccepted, Conforms,
  check_sidecar-Conforms,
}
use leann_cpp.Embedding.Phases.{
  Phase, fresh, torn, partial, cache_only, finished, plan_at, file_of, checkpoint_of, files_of,
  AreWhole, IsPhase, IsGood, IsDone, Outcome, and_then-Outcome,
}
use leann_cpp.Embedding.Calls.{Answers, declared_run-Outcome}
use leann_cpp.Embedding.Starts.{begin-Outcome}
use leann_cpp.Embedding.Resume.{resume-Outcome}

-- A partial file without a checkpoint.
abbrev pub is_torn : {V : Type 0} → Files V → Bool
is_torn f = elim f.partial [
  | none ↦ false
  | some b ↦ elim f.checkpoint [ none ↦ true | some c ↦ false ]
]

module _ (S : Setting) (p : Plan S) (w : ℕ) (fit : IsFit S p w) where
  open S use {Value, canonical_hash, digest, floats, disk}
  open p use {arguments, source}

  -- The inputs are read alike at any time.
  read_inputs-at : (now : Text) → read_inputs S arguments now ≡ ok (plan_at S p w fit now now)
  unfolding read_inputs
  read_inputs-at now =
      let (identified, filled, b, there, lines, sha, hashed) =
        read_inputs-eq-ok S p w fit.planned in
      let base : Text → Plan S = λ t. record {
        arguments = arguments;
        source = source;
        lines = p.lines;
        input_hash = canonical_hash (stable_of S arguments source sha);
        now = t;
        started = t;
        prefix_seed = none;
      } in
      let computed : (t : Text) → read_inputs S arguments t ≡ ok (base t) =
        λ t. rw identified (rw filled (rw hashed (rw (there, read_file) (rw lines refl)))) in
      let same : base p.now ≡ p = ok-injective _ _ (sym (computed p.now) ∙ fit.planned) in
      computed now ∙ ap (λ (q : Plan S). ok (record q { now = now; started = now })) same

  module _ (Answered : Type 0) (found : Files Value) (now : Text) (rows : List (List floats.Scalar))
      (whole : AreWhole S p w fit rows) where
    check_existing-file_of :
        (metadata : Metadata)
        → IsAccepted S p w fit (file_of S p w fit rows) metadata
        → check_existing S arguments (file_of S p w fit rows) ≡ ok metadata
    unfolding check_existing
    check_existing-file_of metadata (accepted, named, bound) =
        rw accepted (rw (named, eq_list_self arguments.fingerprint) refl)

    existing-Outcome :
        (o : Option (Files Value))
        → ((metadata : Metadata)
            → IsAccepted S p w fit (file_of S p w fit rows) metadata
            → Outcome S p w fit Answered o (
                declare_existing S arguments p.input_hash now found
                  (file_of S p w fit rows)
                  metadata
                  found.sidecar
                  found.checkpoint))
        → Outcome S p w fit Answered o
            (validate_existing_cache S arguments p.input_hash now found (file_of S p w fit rows))
    unfolding validate_existing_cache
    existing-Outcome o h =
        let (metadata, accepted) = accept_cache-committed S p w fit rows whole.0 whole.1 in
        let checked = check_existing-file_of metadata accepted in
        and_then-Outcome S p w fit Answered o _ _ (λ a. (metadata, checked))
          (λ m e.
            let same : metadata ≡ m = ok-injective _ _ (sym checked ∙ e) in
            h m (subst (IsAccepted S p w fit (file_of S p w fit rows)) same accepted))

  cache_only-Outcome :
      (Answered : Type 0) (now : Text) (rows : List (List floats.Scalar)) (started : Text)
      (o : Option (Files Value))
      → AreWhole S p w fit rows
      → Outcome S p w fit Answered o (
          validate_existing_cache S arguments p.input_hash now
            (files_of S p w fit (cache_only rows started))
            (file_of S p w fit rows))
  unfolding declare_existing recovered and_then
  cache_only-Outcome A now rows started o whole =
      let found = files_of S p w fit (cache_only rows started) in
      let b = file_of S p w fit rows in
      existing-Outcome A found now rows whole o (λ metadata (accepted, named, bound).
        let identified = (read_inputs-eq-ok S p w fit.planned).0 in
        rw (eq_list_self p.input_hash, eq_list_self (sha256_hex digest b), identified)
          (declared_run-Outcome S p w fit A o found rows _ refl refl whole
            (refl, refl, refl, refl, refl, refl)
            (accept_cache-IsCacheOf S arguments.source_path b metadata accepted)))

  finished-Outcome :
      (Answered : Type 0) (now : Text) (rows : List (List floats.Scalar))
      (declared : Declared Value) (checkpoint : Option Checkpoint)
      → AreWhole S p w fit rows
      → Conforms S p w fit (file_of S p w fit rows) declared
      → let found = files_of S p w fit (finished rows declared checkpoint) in
        Outcome S p w fit Answered
          (some found)
          (validate_existing_cache S arguments p.input_hash now found (file_of S p w fit rows))
  unfolding declare_existing Outcome and_then
  finished-Outcome A now rows declared checkpoint whole conforms =
      let found = files_of S p w fit (finished rows declared checkpoint) in
      let b = file_of S p w fit rows in
      existing-Outcome A found now rows whole (some found) (λ metadata (accepted, named, bound).
        rw (check_sidecar-Conforms S p w fit b metadata declared bound conforms) (
          tt,
          λ a. (
            declared,
            found,
            refl,
            refl,
            (
              b,
              refl,
              refl,
              refl,
              accept_cache-IsCacheOf S arguments.source_path b metadata accepted,
            ),
          ),
        ))

  -- A call of this generation.
  pub record Request : Type 0 where
    pub call : Call S
    pub same_dimension : HasDimension S p w call
    pub not_blank : is_blank call.now ≡ false

  unfoldable pub run : Request → Files Value → Run (Files Value) (Declared Value)
  run r found = generate_cache S arguments r.call found

  -- A call from one of these states, but for a partial file without a checkpoint.
  planned-Outcome :
      (r : Request) (ph : Phase (List floats.Scalar) Value)
      → IsPhase S p w fit ph
      → is_torn (files_of S p w fit ph) ≡ false
      → Outcome S p w fit (Answers S p w fit r.call) (some (files_of S p w fit ph)) (
          generate_planned S
            (files_of S p w fit ph)
            r.call
            (plan_at S p w fit r.call.now r.call.now)
            (files_of S p w fit ph).cache)
  unfolding generate_planned
  planned-Outcome r fresh h t =
      begin-Outcome S p w fit r.call r.same_dimension r.call.now _ r.not_blank
  planned-Outcome r (torn b) h t = cc
  planned-Outcome r (partial rows junk started status sha) (good, within, k) t =
      resume-Outcome S p w fit r.call r.same_dimension r.call.now started rows junk status sha good
        k (some (file_of S p w fit rows ++ junk))
        (some (checkpoint_of S p w fit rows started status sha)) _ within
  planned-Outcome r (cache_only rows started) (whole, k) t =
      cache_only-Outcome (Answers S p w fit r.call) r.call.now rows started _ whole
  planned-Outcome r (finished rows declared checkpoint) (whole, conforms) t =
      finished-Outcome (Answers S p w fit r.call) r.call.now rows declared checkpoint whole conforms

  run-Outcome :
      (r : Request) (ph : Phase (List floats.Scalar) Value)
      → IsPhase S p w fit ph
      → is_torn (files_of S p w fit ph) ≡ false
      → Outcome S p w fit
          (Answers S p w fit r.call)
          (some (files_of S p w fit ph))
          (run r (files_of S p w fit ph))
  unfolding run generate_cache and_then
  run-Outcome r ph h t = rw (read_inputs-at r.call.now) (planned-Outcome r ph h t)

  run-torn :
      (r : Request) (b : Bytes)
      → run r (files_of S p w fit (torn b))
        ≡ stopped (runtime_error "cache checkpoint and partial file must exist together")
  unfolding run generate_cache and_then generate_planned
  run-torn r b = rw (read_inputs-at r.call.now) refl

  phase-IsGood :
      (r : Request) (ph : Phase (List floats.Scalar) Value)
      → IsPhase S p w fit ph
      → All (IsGood S p w fit) (run r (files_of S p w fit ph)).states
  unfolding Outcome
  phase-IsGood r (torn b) h = rw (run-torn r b) tt
  phase-IsGood r fresh h = (run-Outcome r fresh h refl).0
  phase-IsGood r (partial rows junk started status sha) h =
      (run-Outcome r (partial rows junk started status sha) h refl).0
  phase-IsGood r (cache_only rows started) h = (run-Outcome r (cache_only rows started) h refl).0
  phase-IsGood r (finished rows declared checkpoint) h =
      (run-Outcome r (finished rows declared checkpoint) h refl).0

  Reach-IsGood : {f : Files Value} → Reach run no_files f → IsGood S p w fit f
  Reach-IsGood =
      Reach-All run (IsGood S p w fit)
        (λ r f (ph, e, h).
          subst (λ (g : Files Value). All (IsGood S p w fit) (run r g).states) (sym e)
            (phase-IsGood r ph h))
        (fresh, refl, tt)

  Finishes : Request → Files Value → Type 0
  Finishes r f =
      (declared : Declared Value) × (g : Files Value) × ((run r f).result ≡ ok declared)
      × (last_or (some f) (run r f).states ≡ some g)
      × IsDone S p w fit g declared

  -- For inputs that can be read, without a prefix cache, with a positive batch size and a header for
  -- the endpoint's dimension, which is the requested one if one is requested: from whatever calls
  -- left, each stopped after any of its writes or by an error of the endpoint or not, as long as a
  -- partial file has its checkpoint, a call that the endpoint answers runs to its end and returns, and
  -- then a cache of the source stands, with the sidecar that is returned, and no partial file.
  pub generate_cache-finishes :
      {f : Files Value} (r : Request)
      → Reach run no_files f
      → is_torn f ≡ false
      → Answers S p w fit r.call
      → (declared : Declared Value) × (g : Files Value) × ((run r f).result ≡ ok declared)
        × (last_or (some f) (run r f).states ≡ some g)
        × IsDone S p w fit g declared
  unfolding Outcome Finishes
  generate_cache-finishes {f} r reached t answers =
      let (ph, e, h) = Reach-IsGood reached in
      subst (Finishes r) (sym e) ((run-Outcome r ph h (ap is_torn (sym e) ∙ t)).1 answers)

  -- A first call that is told the dimension creates the partial file first.
  first_write :
      (r : Request)
      → arguments.dimension ≡ some w
      → (rest : List (Files Value)) × ((run r no_files).states
          ≡ files_of S p w fit (torn []) ∷ rest)
  unfolding run generate_cache and_then after_states generate_planned begin_known
  first_write r d = rw (read_inputs-at r.call.now) (
      subst (λ (x : Option Text). Begun x arguments.dimension) (sym fit.no_prefix)
        (subst (λ (x : Option ℕ). Begun none x) (sym d) (rw fit.headed (_, refl))))
    where
      Begun : Option Text → Option ℕ → Type 0
      Begun prefix x =
          (rest : List (Files Value)) × ((begin S no_files r.call
              (plan_at S p w fit r.call.now r.call.now) prefix x).states
            ≡ files_of S p w fit (torn []) ∷ rest)

  -- A first call that is told the dimension and is stopped right after it created the partial file
  -- leaves that file without a checkpoint, and every later call raises and writes nothing.
  pub generate_cache-torn :
      Request
      → arguments.dimension ≡ some w
      → (f : Files Value) × Step run no_files f
        × (is_torn f ≡ true)
        × ((r : Request)
            → run r f
              ≡ stopped (runtime_error "cache checkpoint and partial file must exist together"))
  generate_cache-torn r d =
      let (rest, e) = first_write r d in
      (
        files_of S p w fit (torn []),
        call r 1 (sym (ap (λ (l : List (Files Value)). last_or (some no_files) (take 1 l)) e)),
        refl,
        λ later. run-torn later [],
      )
