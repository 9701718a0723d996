-- ===== src/Embedding/Plan.antt =====
-- What `generate_cache` knows once it has read its inputs, and the files, checkpoints and sidecar that
-- it writes.
use leann_cpp.Prelude.{
  ℕ, Option, none, some, List, [], ◌∷◌, drop, ◌==◌, Result, ok, value_error, ◌>>=◌, ◌>>◌, raise_if,
}
use leann_cpp.Bytes.{Bytes, Text}
use leann_cpp.Lines.{file_lines}
use leann_cpp.Writes.{Run}
use leann_cpp.Cache.Read.{Metadata, Identity, source_identity, sha256_hex}
use leann_cpp.Generate.Inputs.{read_file}
use leann_cpp.Embedding.{
  cache_meta_schema, Arguments, Stable, PrefixSeed, running, ready_to_publish, Checkpoint, Declared,
  Files, Setting,
}
use leann_cpp.Embedding.Client.{Attempt}

module _ (S : Setting) where
  open S use {Value, canonical_hash, digest, floats, disk, sidecars}

  -- A call: its time, and what comes of the attempts to embed a batch, of which the client makes one
  -- more than `retries`.
  pub record Call : Type 0 where
    pub now : Text
    pub retries : ℕ
    pub answers : List Text → ℕ → Attempt floats

  -- What is known once the inputs are read. `started` is the time at which the first call started.
  pub record Plan : Type 0 where
    pub arguments : Arguments Value
    pub source : Identity
    pub lines : List Text
    pub input_hash : Text
    pub now : Text
    pub started : Text
    pub prefix_seed : Option PrefixSeed

  abbrev pub hash_of_prefix : Option Text → Result (Option Text)
  hash_of_prefix none = ok none
  hash_of_prefix (some path) = do file ← read_file disk path; ok (some (sha256_hex digest file))

  abbrev pub stable_of : Arguments Value → Identity → Option Text → Stable Value
  stable_of a source prefix_sha = record {
    source = source;
    cache_path = a.cache_path;
    fingerprint = a.fingerprint;
    model = a.model;
    role = a.role;
    bindings = a.bindings;
    embedding_endpoint = a.embedding_endpoint;
    batch_size = a.batch_size;
    requested_dimension = a.dimension;
    prefix_cache_sha256 = prefix_sha;
  }

  -- The inputs, up to their hash.
  unfoldable pub read_inputs : Arguments Value → Text → Result Plan
  read_inputs a now = do
    source ← source_identity digest disk a.source_path
    raise_if (source.nonempty_lines == 0) (value_error "no non-empty input lines")
    prefix_sha ← hash_of_prefix a.prefix_cache
    file ← read_file disk a.source_path
    lines ← file_lines file
    ok (record {
      arguments = a;
      source = source;
      lines = lines;
      input_hash = canonical_hash (stable_of a source prefix_sha);
      now = now;
      started = now;
      prefix_seed = none;
    })

  abbrev pub running_checkpoint : Plan → ℕ → ℕ → ℕ → Bytes → Checkpoint
  running_checkpoint p dimension header_size completed partial = record {
    input_hash = p.input_hash;
    created_at = some p.started;
    status = running;
    dimension = dimension;
    header_size = header_size;
    completed_rows = completed;
    payload_sha256 = sha256_hex digest (drop header_size partial);
    prefix_seed = p.prefix_seed;
    cache_sha256 = none;
  }

  abbrev pub ready_checkpoint : Plan → ℕ → ℕ → ℕ → Bytes → Checkpoint
  ready_checkpoint p dimension header_size completed partial =
      record (running_checkpoint p dimension header_size completed partial) {
        status = ready_to_publish;
        cache_sha256 = some (sha256_hex digest partial);
      }

  abbrev pub declare : Plan → ℕ → Bytes → Metadata → Declared Value
  declare p header_size file metadata = record {
    schema = some cache_meta_schema;
    created_at = p.now;
    role = some p.arguments.role;
    cache = some metadata;
    cache_sha256 = some (sha256_hex digest file);
    source = some p.source;
    model = some p.arguments.model;
    bindings = some p.arguments.bindings;
    generation = some (record {
      started_at = p.started;
      endpoint = p.arguments.embedding_endpoint;
      batch_size = p.arguments.batch_size;
      request_concurrency = p.arguments.concurrency;
      payload_sha256 = sha256_hex digest (drop header_size file);
      prefix_seed = p.prefix_seed;
    });
  }

  -- The files with another partial file and checkpoint, and after the partial file has become the
  -- cache.
  abbrev pub unpublished : Files Value → Bytes → Option Checkpoint → Files Value
  unpublished found partial checkpoint = record found {
    partial = some partial;
    checkpoint = checkpoint;
  }

  abbrev pub published : Files Value → Bytes → Option Checkpoint → Files Value
  published found file checkpoint = record found {
    cache = some file;
    partial = none;
    checkpoint = checkpoint;
  }

  -- The sidecar is written and the checkpoint removed.
  abbrev pub declared_run : Files Value → Declared Value → Run (Files Value) (Declared Value)
  declared_run found declared = record {
    states =
        record found { sidecar = some declared }
        ∷ record found { sidecar = some declared; checkpoint = none }
        ∷ [];
    result = ok declared;
  }
