-- ===== src/Embedding/Generate.antt =====
-- `generate_cache`. An appended payload may be cut off anywhere. The digest of the payload, which the
-- code keeps up to date block by block, is computed from the payload, and every time that a call
-- reads is the time `now` of the call. The answers of a call to a batch are given.
use leann_cpp.Prelude.{
  ℕ, ◌+◌, ◌*◌, ◌||◌, not, Option, none, some, List, [], ◌∷◌, ◌++◌, map, length, take, drop, eq_list,
  ltb, leb, ◌==◌, if◌then◌else◌, Result, ok, err, value_error, runtime_error, os_error, ◌>>=◌, ◌>>◌,
  raise_if,
}
use leann_cpp.Bytes.{Bytes, Text}
use leann_cpp.Writes.{Run, stopped, after_states, and_then, growing}
use leann_cpp.Cache.Matrix.{Matrix}
use leann_cpp.Cache.Header.{cache_v2_header}
use leann_cpp.Cache.Read.{Metadata, SourceBinding, sha256_hex, read_cache, is_v2}
use leann_cpp.Cache.Write.{matrix_bytes}
use leann_cpp.Generate.{is_text, checkpoint_created_at}
use leann_cpp.Generate.Inputs.{read_file}
use leann_cpp.Embedding.{
  cache_meta_schema, corpus_role, Arguments, PrefixSeed, Checkpoint, Declared, Files, Setting,
}
use leann_cpp.Embedding.Batches.{iter_batches, iter_embedded_batches}
use leann_cpp.Embedding.Client.{differs_from, embed}
use leann_cpp.Embedding.Existing.{model_sha256, accept_cache, validate_existing_cache}
use leann_cpp.Embedding.Plan.{
  Call, Plan, read_inputs, running_checkpoint, ready_checkpoint, declare, unpublished, published,
  declared_run,
}

module _ (S : Setting) where
  open S use {Value, canonical_hash, digest, floats, disk, sidecars}

  -- From the last row on. The cache is read once more after it has been renamed.
  unfoldable pub publish :
      Files Value → Plan S → ℕ → ℕ → ℕ → Bytes → Run (Files Value) (Declared Value)
  publish found p dimension header_size completed partial =
      let checkpoint = some (ready_checkpoint S p dimension header_size completed partial) in
      and_then
        (do
          raise_if (not (completed == p.source.nonempty_lines))
              (runtime_error "cache generation ended before all source rows")
          accept_cache S p.arguments.source_path partial)
        (λ metadata.
          after_states
            (unpublished S found partial checkpoint ∷ published S found partial checkpoint ∷ [])
            (and_then (accept_cache S p.arguments.source_path partial) (λ again.
              declared_run S (published S found partial checkpoint)
                (declare S p header_size partial again))))

  -- The loop over the embedded batches. The checkpoint stays while a payload is appended.
  unfoldable pub write_batches :
      Files Value
      → Plan S
      → ℕ
      → ℕ
      → ℕ
      → Bytes
      → Checkpoint
      → List (List Text × Result (Matrix floats.Scalar))
      → Run (Files Value) (Declared Value)
  write_batches found p dimension header_size completed partial checkpoint [] =
      publish found p dimension header_size completed partial
  write_batches found p dimension header_size completed partial checkpoint
        ((texts, embedded) ∷ batches) =
      and_then embedded (λ matrix.
        let payload = matrix_bytes digest floats matrix.rows in
        let checkpoint' =
          running_checkpoint S p dimension header_size (completed + length texts)
            (partial ++ payload) in
        after_states
          (map (λ b. unpublished S found b (some checkpoint)) (growing partial payload)
            ++ unpublished S found (partial ++ payload) (some checkpoint') ∷ [])
          (write_batches found p dimension header_size (completed + length texts)
            (partial ++ payload) checkpoint' batches))

  abbrev pub request : Call S → Option ℕ → List Text → Result (Matrix floats.Scalar)
  request c dimension texts = embed floats (c.answers texts) c.retries texts dimension

  -- The rows from `completed` on, with a known dimension.
  abbrev pub write_rest :
      Files Value
      → Call S
      → Plan S
      → ℕ
      → ℕ
      → ℕ
      → Bytes
      → Checkpoint
      → Run (Files Value) (Declared Value)
  write_rest found c p dimension header_size completed partial checkpoint =
      write_batches found p dimension header_size completed partial checkpoint (
        iter_embedded_batches (request c (some dimension)) p.arguments.concurrency
          (iter_batches p.lines completed p.arguments.batch_size))

  abbrev pub header_of : Plan S → ℕ → Result Bytes
  header_of p dimension =
      cache_v2_header dimension p.source.nonempty_lines p.arguments.fingerprint p.source.size_bytes
        p.source.sha256

  -- A new partial file grows up to `partial`, and then its checkpoint is written.
  abbrev pub start_partial :
      Files Value
      → Bytes
      → Checkpoint
      → Run (Files Value) (Declared Value)
      → Run (Files Value) (Declared Value)
  start_partial found partial checkpoint rest =
      after_states
        (map (λ b. unpublished S found b none) ([] ∷ growing [] partial)
          ++ unpublished S found partial (some checkpoint) ∷ [])
        rest

  -- A call that finds nothing and is told the dimension.
  unfoldable pub begin_known :
      Files Value → Call S → Plan S → ℕ → Run (Files Value) (Declared Value)
  begin_known found c p dimension = and_then (header_of p dimension) (λ header.
      let checkpoint = running_checkpoint S p dimension (length header) 0 header in
      start_partial found header checkpoint
        (write_rest found c p dimension (length header) 0 header checkpoint))

  -- The first response shows the dimension; the batches after it are embedded one by one.
  unfoldable pub begin_unknown :
      Files Value → Call S → Plan S → List (List Text) → Run (Files Value) (Declared Value)
  begin_unknown found c p [] =
      stopped (runtime_error "cache generation ended before all source rows")
  begin_unknown found c p (texts ∷ batches) = and_then (request c none texts) (λ matrix.
      and_then (header_of p matrix.width) (λ header.
        let checkpoint = running_checkpoint S p matrix.width (length header) 0 header in
        start_partial found header checkpoint (
          write_batches found p matrix.width (length header) 0 header checkpoint (
            (texts, ok matrix) ∷ iter_embedded_batches (request c (some matrix.width)) 1 batches))))

  unfoldable pub check_prefix_cache : Plan S → Text → Bytes → Result Metadata
  check_prefix_cache p path file = do
    (vectors, metadata) ← read_cache floats digest file
    raise_if (not (is_v2 metadata.binding)) (value_error "--prefix-cache must use LEANNBC2")
    raise_if (leb p.source.nonempty_lines metadata.count)
        (value_error "--prefix-cache must be smaller than the target corpus")
    raise_if (not (eq_list metadata.fingerprint p.arguments.fingerprint))
        (value_error "--prefix-cache fingerprint mismatch")
    raise_if (differs_from floats p.arguments.dimension metadata.dimensions)
        (value_error "--prefix-cache dimension mismatch")
    ok metadata

  abbrev pub prefix_sidecar : Text → Result (Declared Value)
  prefix_sidecar path = elim (sidecars path) [
    | none ↦ err (os_error "FileNotFoundError")
    | some declared ↦ ok declared
  ]

  abbrev pub binding_of : Metadata → Result SourceBinding
  binding_of metadata = elim metadata.binding [
    | none ↦ err (value_error "--prefix-cache must use LEANNBC2")
    | some binding ↦ ok binding
  ]

  -- The sidecar of the prefix cache, and that the prefix cache's source begins the source.
  unfoldable pub check_prefix_source : Plan S → Text → Bytes → Metadata → Result PrefixSeed
  check_prefix_source p path file metadata = do
    declared ← prefix_sidecar path
    raise_if
        (not (is_text declared.schema cache_meta_schema)
          || (not (is_text declared.role corpus_role)
              || (not (is_text (model_sha256 declared.model) p.arguments.model.sha256)
                  || not (is_text declared.cache_sha256 (sha256_hex digest file)))))
        (value_error "--prefix-cache provenance mismatch")
    binding ← binding_of metadata
    source_file ← read_file disk p.arguments.source_path
    raise_if
        (leb p.source.size_bytes binding.source_size_bytes
          || not (
              eq_list (sha256_hex digest (take binding.source_size_bytes source_file))
                binding.source_sha256))
        (value_error "--prefix-cache source bytes are not an exact prefix of target source")
    ok (record {
      cache = path;
      cache_sha256 = sha256_hex digest file;
      rows = metadata.count;
      source_prefix_size_bytes = binding.source_size_bytes;
      source_prefix_sha256 = binding.source_sha256;
    })

  abbrev pub vectors_of : Metadata → Bytes → Bytes
  vectors_of metadata file = take metadata.vector_bytes (drop metadata.vector_offset file)

  -- The seed, the dimension and size of the header, and the partial file that begins with the
  -- vectors of the prefix cache.
  unfoldable pub seed_from : Plan S → Text → Result (PrefixSeed × (Metadata × (Bytes × Bytes)))
  seed_from p path = do
    file ← read_file disk path
    metadata ← check_prefix_cache p path file
    seed ← check_prefix_source p path file metadata
    header ← header_of p metadata.dimensions
    ok (seed, (metadata, (header, header ++ vectors_of metadata file)))

  -- A call that finds nothing and is given a prefix cache.
  unfoldable pub begin_seeded :
      Files Value → Call S → Plan S → Text → Run (Files Value) (Declared Value)
  begin_seeded found c p path =
      and_then (seed_from p path) (λ (seed, (metadata, (header, partial))).
        let p' : Plan S = record p { prefix_seed = some seed } in
        let checkpoint =
          running_checkpoint S p' metadata.dimensions (length header) metadata.count partial in
        start_partial found partial checkpoint (
          write_rest found c p' metadata.dimensions (length header) metadata.count partial
            checkpoint))

  abbrev pub begin :
      Files Value → Call S → Plan S → Option Text → Option ℕ → Run (Files Value) (Declared Value)
  begin found c p (some path) dimension = begin_seeded found c p path
  begin found c p none (some dimension) = begin_known found c p dimension
  begin found c p none none =
      begin_unknown found c p (iter_batches p.lines 0 p.arguments.batch_size)

  abbrev pub committed_size : Checkpoint → ℕ
  committed_size s = s.header_size + s.completed_rows * s.dimension * 4

  -- The checks on a checkpoint and the partial file that it is of.
  unfoldable pub check_checkpoint : Plan S → Bytes → Checkpoint → Result Text
  check_checkpoint p partial s = do
    raise_if (not (eq_list s.input_hash p.input_hash))
        (runtime_error "cache checkpoint belongs to different inputs")
    started ← checkpoint_created_at s.created_at
    raise_if (ltb (length partial) (committed_size s))
        (runtime_error "partial cache is shorter than its checkpoint")
    raise_if
        (not (
          eq_list
            (sha256_hex digest
              (take (s.completed_rows * s.dimension * 4) (drop s.header_size partial)))
            s.payload_sha256))
        (runtime_error "partial cache payload checksum mismatch")
    ok started

  -- A call that finds a partial file and its checkpoint goes on behind the committed rows.
  unfoldable pub resume :
      Files Value → Call S → Plan S → Bytes → Checkpoint → Run (Files Value) (Declared Value)
  resume found c p partial s = and_then (check_checkpoint p partial s) (λ started.
      let kept = take (committed_size s) partial in
      let p' : Plan S = record p { started = started; prefix_seed = s.prefix_seed } in
      after_states
        (if ltb (committed_size s) (length partial)
          then unpublished S found kept (some s) ∷ []
          else [])
        (write_rest found c p' s.dimension s.header_size s.completed_rows kept s))

  abbrev pub resume_or_begin :
      Files Value
      → Call S
      → Plan S
      → Option Bytes
      → Option Checkpoint
      → Run (Files Value) (Declared Value)
  resume_or_begin found c p none none =
      begin found c p p.arguments.prefix_cache p.arguments.dimension
  resume_or_begin found c p (some partial) (some s) = resume found c p partial s
  resume_or_begin found c p _ _ =
      stopped (runtime_error "cache checkpoint and partial file must exist together")

  unfoldable pub generate_planned :
      Files Value → Call S → Plan S → Option Bytes → Run (Files Value) (Declared Value)
  generate_planned found c p (some file) =
      validate_existing_cache S p.arguments p.input_hash p.now found file
  generate_planned found c p none = resume_or_begin found c p found.partial found.checkpoint

  -- The call, by what it finds.
  unfoldable pub generate_cache :
      Arguments Value → Call S → Files Value → Run (Files Value) (Declared Value)
  generate_cache a c found =
      and_then (read_inputs S a c.now) (λ p. generate_planned found c p found.cache)
