-- ===== src/Embedding.antt =====
-- The embedding caches of scripts/run_large_scale_benchmark.py: the files that `generate_cache` reads
-- and writes, and `_validate_existing_cache`. JSON files are those of the right shape, and are
-- replaced whole or not at all.
pub mod Batches
pub mod Client
pub mod Existing
pub mod Plan
pub mod Generate
pub mod Rows
pub mod Safety
pub mod Reach
pub mod Phases
pub mod Calls
pub mod Starts
pub mod Resume
pub mod Finishes
use leann_cpp.Prelude.{ℕ, Bool, Option, ◌∷◌, []}
use leann_cpp.Bytes.{Bytes, Text}
use leann_cpp.Platform.{Digest, Float32, Disk}
use leann_cpp.Cache.Read.{Metadata, Identity}

abbrev pub cache_meta_schema : Text
cache_meta_schema =
    b'l' ∷ b'e' ∷ b'a' ∷ b'n' ∷ b'n' ∷ b'-' ∷ b's' ∷ b'h' ∷ b'a' ∷ b'r' ∷ b'e' ∷ b'd' ∷ b'-' ∷ b'e'
    ∷ b'm' ∷ b'b' ∷ b'e' ∷ b'd' ∷ b'd' ∷ b'i' ∷ b'n' ∷ b'g' ∷ b'-' ∷ b'c' ∷ b'a' ∷ b'c' ∷ b'h'
    ∷ b'e' ∷ b'-' ∷ b'v' ∷ b'1' ∷ []

abbrev pub corpus_role : Text
corpus_role = b'c' ∷ b'o' ∷ b'r' ∷ b'p' ∷ b'u' ∷ b's' ∷ []

-- What is used of a model's identity.
pub record Model : Type 0 where
  pub sha256 : Text

-- The arguments of a call, with the URL of its client.
pub record Arguments (V : Type 0) : Type 0 where
  pub source_path : Text
  pub cache_path : Text
  pub embedding_endpoint : Text
  pub fingerprint : Text
  pub model : Model
  pub role : Text
  pub batch_size : ℕ
  pub dimension : Option ℕ
  pub bindings : V
  pub prefix_cache : Option Text
  pub concurrency : ℕ

-- What a checkpoint keeps a hash of.
pub record Stable (V : Type 0) : Type 0 where
  pub source : Identity
  pub cache_path : Text
  pub fingerprint : Text
  pub model : Model
  pub role : Text
  pub bindings : V
  pub embedding_endpoint : Text
  pub batch_size : ℕ
  pub requested_dimension : Option ℕ
  pub prefix_cache_sha256 : Option Text

pub record PrefixSeed : Type 0 where
  pub cache : Text
  pub cache_sha256 : Text
  pub rows : ℕ
  pub source_prefix_size_bytes : ℕ
  pub source_prefix_sha256 : Text

pub data Status : Type 0 where
  running ready_to_publish other : Status

pub record Checkpoint : Type 0 where
  pub input_hash : Text
  pub created_at : Option Text
  pub status : Status
  pub dimension : ℕ
  pub header_size : ℕ
  pub completed_rows : ℕ
  pub payload_sha256 : Text
  pub prefix_seed : Option PrefixSeed
  pub cache_sha256 : Option Text

pub record Provenance : Type 0 where
  pub started_at : Text
  pub endpoint : Text
  pub batch_size : ℕ
  pub request_concurrency : ℕ
  pub payload_sha256 : Text
  pub prefix_seed : Option PrefixSeed

-- A sidecar, of which a key may be missing. One that was recovered from a checkpoint has no
-- `generation`.
pub record Declared (V : Type 0) : Type 0 where
  pub schema : Option Text
  pub created_at : Text
  pub role : Option Text
  pub cache : Option Metadata
  pub cache_sha256 : Option Text
  pub source : Option Identity
  pub model : Option Model
  pub bindings : Option V
  pub generation : Option Provenance

pub record Files (V : Type 0) : Type 0 where
  pub cache : Option Bytes
  pub sidecar : Option (Declared V)
  pub partial : Option Bytes
  pub checkpoint : Option Checkpoint

-- What a call depends on beside its arguments and its own files. The sources and a prefix cache
-- stand on a disk that the call does not write.
pub record Setting : Type 1 where
  -- The JSON values of bindings, with their equality.
  pub Value : Type 0
  pub same : Value → Value → Bool
  pub canonical_hash : Stable Value → Text
  pub digest : Digest
  pub floats : Float32
  pub disk : Disk
  -- The sidecars of caches that stand on the disk.
  pub sidecars : Text → Option (Declared Value)
