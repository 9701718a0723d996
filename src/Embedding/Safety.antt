-- ===== src/Embedding/Safety.antt =====
-- What the files of a call of `generate_cache` that finds no cache are after each write, whatever the
-- endpoint answers.
use leann_cpp.Prelude.{
  ℕ, ◌+◌, ◌≡◌, ◌∙◌, refl, ap, sym, Bool, true, false, last_or, last_or-append, if◌then◌else◌, not,
  ◌==◌, ltb, Option, none, some, List, [], ◌∷◌, ◌++◌, map, length, All, All-append, Result, Error,
  ok, err, runtime_error, >>=-eq-ok, raise_if-eq-ok, ok-injective,
}
use leann_cpp.Bytes.{Bytes, Text}
use leann_cpp.Writes.{Run, stopped, after_states, and_then, growing}
use leann_cpp.Cache.Matrix.{Matrix}
use leann_cpp.Cache.Read.{
  Metadata, Identity, source_identity, sha256_hex, read_cache, validate_cache_source,
}
use leann_cpp.Cache.Read.Laws.{read_cache_sound}
use leann_cpp.Cache.Read.Source.{validate_cache_source-eq-ok}
use leann_cpp.Embedding.{Checkpoint, Declared, Files, Setting}
use leann_cpp.Embedding.Existing.{accept_cache}
use leann_cpp.Embedding.Plan.{
  Call, Plan, ready_checkpoint, unpublished, published, declare, declared_run,
}
use leann_cpp.Embedding.Generate.{
  publish, write_batches, start_partial, committed_size, begin_known, begin_unknown, begin_seeded,
  begin, resume, resume_or_begin,
}

abbrev pub no_files : {V : Type 0} → Files V
no_files = record { cache = none; sidecar = none; partial = none; checkpoint = none }

module _ (S : Setting) (source_path : Text) where
  open S use {Value, digest, floats, disk}

  -- A file that `read_cache` reads, bound to the source and with a row for each of its lines.
  abbrev pub IsCacheOf : Bytes → Type 0
  IsCacheOf file =
      (m : Matrix floats.Scalar) × (metadata : Metadata) × (identity : Identity) × (read_cache
          floats digest file
        ≡ ok (m, metadata))
      × (validate_cache_source digest disk metadata source_path none true ≡ ok identity)
      × (source_identity digest disk source_path ≡ ok identity)
      × (length m.rows ≡ identity.nonempty_lines)

  pub accept_cache-IsCacheOf :
      (file : Bytes) (metadata : Metadata)
      → accept_cache S source_path file ≡ ok metadata
      → IsCacheOf file
  unfolding accept_cache
  accept_cache-IsCacheOf file metadata h =
      let ((m, found), e1, h1) = >>=-eq-ok (read_cache floats digest file) _ h in
      let (identity, e2, h2) =
        >>=-eq-ok (validate_cache_source digest disk found source_path none true) _ h1 in
      let (at_source, counted) =
        validate_cache_source-eq-ok digest disk found source_path true identity e2 in
      let (fit, filled, wide, rows, square, size, long) =
        read_cache_sound file [] floats digest m found e1 in
      (m, found, identity, e1, e2, at_source, rows ∙ counted)

  -- The cache and the sidecar that stand there.
  abbrev pub AreSound : Option Bytes → Option (Declared Value) → Type 0
  AreSound none sidecar = sidecar ≡ none
  AreSound (some file) none = IsCacheOf file
  AreSound (some file) (some declared) =
      IsCacheOf file × (declared.cache_sha256 ≡ some (sha256_hex digest file))

  abbrev pub IsSound : Files Value → Type 0
  IsSound f = AreSound f.cache f.sidecar

  -- The cache stands, with this sidecar, which has its SHA-256.
  abbrev pub IsDeclared : Files Value → Declared Value → Type 0
  IsDeclared g declared =
      (file : Bytes) × (g.cache ≡ some file)
      × (g.sidecar ≡ some declared)
      × IsCacheOf file
      × (declared.cache_sha256 ≡ some (sha256_hex digest file))

  -- What holds of a run that begins with the files in `o`.
  abbrev pub Ends : Option (Files Value) → Run (Files Value) (Declared Value) → Type 0
  Ends o r =
      (declared : Declared Value)
      → r.result ≡ ok declared
      → (g : Files Value) × (last_or o r.states ≡ some g) × IsDeclared g declared

  unfoldable pub Keeps : Option (Files Value) → Run (Files Value) (Declared Value) → Type 0
  Keeps o r = All IsSound r.states × Ends o r

  pub stopped-Keeps : (o : Option (Files Value)) (e : Error) → Keeps o (stopped e)
  unfolding Keeps
  stopped-Keeps o e = (tt, λ declared h. cc)

  pub and_then-Keeps :
      {B : Type 0} (o : Option (Files Value)) (b : Result B)
      (next : B → Run (Files Value) (Declared Value))
      → ((value : B) → b ≡ ok value → Keeps o (next value))
      → Keeps o (and_then b next)
  unfolding and_then
  and_then-Keeps o (err e) next h = stopped-Keeps o e
  and_then-Keeps o (ok value) next h = h value refl

  after_states-Keeps :
      (o : Option (Files Value)) (states : List (Files Value))
      (r : Run (Files Value) (Declared Value))
      → All IsSound states
      → Keeps (last_or o states) r
      → Keeps o (after_states states r)
  unfolding Keeps after_states
  after_states-Keeps o states r h (k, ends) = (
    All-append IsSound states r.states h k,
    λ declared e.
        let (g, last, d) = ends declared e in (g, last_or-append o states r.states ∙ last, d),
  )

  -- The end of a call: the sidecar of the cache that stands.
  pub declared_run-Keeps :
      (o : Option (Files Value)) (found : Files Value) (file : Bytes) (declared : Declared Value)
      → found.cache ≡ some file
      → declared.cache_sha256 ≡ some (sha256_hex digest file)
      → IsCacheOf file
      → Keeps o (declared_run S found declared)
  unfolding Keeps
  declared_run-Keeps o found file declared e sha good = (
    (rw e (good, sha), (rw e (good, sha), tt)),
    λ d same.
        let s : declared ≡ d = ok-injective _ _ same in
        (
          record found { sidecar = some declared; checkpoint = none },
          refl,
          (file, e, ap some s, good, ap (λ (d : Declared Value). d.cache_sha256) (sym s) ∙ sha),
        ),
  )

  module _ (found : Files Value) (bare : (found.cache ≡ none) × (found.sidecar ≡ none)) where
    unpublished-IsSound : (b : Bytes) (c : Option Checkpoint) → IsSound (unpublished S found b c)
    unpublished-IsSound b c = rw (bare.0, bare.1) refl

    All-unpublished :
        (c : Option Checkpoint) (bs : List Bytes)
        → All IsSound (map (λ b. unpublished S found b c) bs)
    All-unpublished c [] = tt
    All-unpublished c (b ∷ bs) = (unpublished-IsSound b c, All-unpublished c bs)

    grown-IsSound :
        (c : Option Checkpoint) (bs : List Bytes) (b : Bytes) (c' : Option Checkpoint)
        → All IsSound (map (λ b. unpublished S found b c) bs ++ unpublished S found b c' ∷ [])
    grown-IsSound c bs b c' =
        All-append IsSound (map (λ b. unpublished S found b c) bs) (unpublished S found b c' ∷ [])
          (All-unpublished c bs) (unpublished-IsSound b c', tt)

    module _ (p : Plan S) (for_source : p.arguments.source_path ≡ source_path) where
      publish-Keeps :
          (o : Option (Files Value)) (dimension header_size completed : ℕ) (partial : Bytes)
          → Keeps o (publish S found p dimension header_size completed partial)
      unfolding publish
      publish-Keeps o w size completed partial = and_then-Keeps o _ _ (λ metadata h.
          let (counted, accepted) =
            raise_if-eq-ok (not (completed == p.source.nonempty_lines))
              (runtime_error "cache generation ended before all source rows") _ h in
          let good : IsCacheOf partial =
            accept_cache-IsCacheOf partial metadata
              (ap (λ (path : Text). accept_cache S path partial) (sym for_source) ∙ accepted) in
          let c = some (ready_checkpoint S p w size completed partial) in
          let sound : IsSound (published S found partial c) = rw bare.1 good in
          after_states-Keeps o _ _ (unpublished-IsSound partial c, (sound, tt))
            (and_then-Keeps _ _ _ (λ again e.
              declared_run-Keeps _ (published S found partial c) partial
                (declare S p size partial again) refl refl good)))

      write_batches-Keeps :
          (dimension header_size completed : ℕ) (partial : Bytes) (c : Checkpoint)
          (batches : List (List Text × Result (Matrix floats.Scalar))) (o : Option (Files Value))
          → Keeps o (write_batches S found p dimension header_size completed partial c batches)
      unfolding write_batches
      write_batches-Keeps w size completed partial c [] o = publish-Keeps o w size completed partial
      write_batches-Keeps w size completed partial c ((texts, embedded) ∷ batches) o =
          and_then-Keeps o embedded _ (λ matrix h.
            after_states-Keeps o _ _ (grown-IsSound _ _ _ _)
              (write_batches-Keeps w size (completed + length texts) _ _ batches _))

      start_partial-Keeps :
          (o : Option (Files Value)) (partial : Bytes) (c : Checkpoint)
          (rest : Run (Files Value) (Declared Value))
          → ((o' : Option (Files Value)) → Keeps o' rest)
          → Keeps o (start_partial S found partial c rest)
      start_partial-Keeps o partial c rest h =
          after_states-Keeps o
            (map (λ b. unpublished S found b none) ([] ∷ growing [] partial)
              ++ unpublished S found partial (some c) ∷ [])
            rest (grown-IsSound none ([] ∷ growing [] partial) partial (some c)) (h _)

      module _ (c : Call S) where
        begin_known-Keeps :
            (o : Option (Files Value)) (dimension : ℕ) → Keeps o (begin_known S found c p dimension)
        unfolding begin_known
        begin_known-Keeps o w = and_then-Keeps o _ _ (λ header h.
            start_partial-Keeps o header _ _ (write_batches-Keeps w (length header) 0 header _ _))

        begin_unknown-Keeps :
            (o : Option (Files Value)) (batches : List (List Text))
            → Keeps o (begin_unknown S found c p batches)
        unfolding begin_unknown
        begin_unknown-Keeps o [] = stopped-Keeps o _
        begin_unknown-Keeps o (texts ∷ batches) = and_then-Keeps o _ _ (λ matrix h.
            and_then-Keeps o _ _ (λ header h'.
              start_partial-Keeps o header _ _
                (write_batches-Keeps matrix.width (length header) 0 header _ _)))

  pub bare_of :
      (f : Files Value) → f.cache ≡ none → IsSound f → (f.cache ≡ none) × (f.sidecar ≡ none)
  bare_of f h s = (h, (rw h at s))

  module _ (found : Files Value) (bare : (found.cache ≡ none) × (found.sidecar ≡ none)) (p : Plan S)
      (for_source : p.arguments.source_path ≡ source_path) (c : Call S) where
    begin_seeded-Keeps :
        (o : Option (Files Value)) (path : Text) → Keeps o (begin_seeded S found c p path)
    unfolding begin_seeded
    begin_seeded-Keeps o path = and_then-Keeps o _ _ (λ (seed, (metadata, (header, partial))) h.
        let p' : Plan S = record p { prefix_seed = some seed } in
        start_partial-Keeps found bare p' for_source o partial _ _ (
          write_batches-Keeps found bare p' for_source metadata.dimensions (length header)
            metadata.count partial _ _))

    begin-Keeps :
        (o : Option (Files Value)) (path : Option Text) (dimension : Option ℕ)
        → Keeps o (begin S found c p path dimension)
    begin-Keeps o (some path) dimension = begin_seeded-Keeps o path
    begin-Keeps o none (some w) = begin_known-Keeps found bare p for_source c o w
    begin-Keeps o none none = begin_unknown-Keeps found bare p for_source c o _

    truncated-IsSound :
        (b : Bytes) (s : Checkpoint) (longer : Bool)
        → All IsSound (if longer then unpublished S found b (some s) ∷ [] else [])
    truncated-IsSound b s true = (unpublished-IsSound found bare b (some s), tt)
    truncated-IsSound b s false = tt

    resume-Keeps :
        (o : Option (Files Value)) (partial : Bytes) (s : Checkpoint)
        → Keeps o (resume S found c p partial s)
    unfolding resume
    resume-Keeps o partial s = and_then-Keeps o _ _ (λ started h.
        let p' : Plan S = record p { started = started; prefix_seed = s.prefix_seed } in
        after_states-Keeps o _ _ (truncated-IsSound _ _ (ltb (committed_size S s) (length partial)))
          (write_batches-Keeps found bare p' for_source s.dimension s.header_size s.completed_rows _
            _ _ _))

    pub resume_or_begin-Keeps :
        (o : Option (Files Value)) (partial : Option Bytes) (s : Option Checkpoint)
        → Keeps o (resume_or_begin S found c p partial s)
    resume_or_begin-Keeps o none none = begin-Keeps o _ _
    resume_or_begin-Keeps o (some partial) (some s) = resume-Keeps o partial s
    resume_or_begin-Keeps o (some partial) none = stopped-Keeps o _
    resume_or_begin-Keeps o none (some s) = stopped-Keeps o _
