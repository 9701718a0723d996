-- ===== src/Embedding/Existing.antt =====
-- `_validate_existing_cache`: a call that finds the cache.
use leann_cpp.Prelude.{
  Bool, true, false, not, Option, none, some, [], ◌∷◌, eq_list, Result, ok, value_error, ◌>>=◌,
  ◌>>◌, raise_if,
}
use leann_cpp.Bytes.{Bytes, Text}
use leann_cpp.Writes.{Run, stopped, and_then}
use leann_cpp.Cache.Read.{
  Metadata, Identity, source_identity, sha256_hex, read_cache, validate_cache_source,
}
use leann_cpp.Generate.{is_text}
use leann_cpp.Embedding.{
  cache_meta_schema, Model, Arguments, Status, ready_to_publish, Checkpoint, Declared, Files,
  Setting,
}

abbrev pub is_ready_to_publish : Status → Bool
is_ready_to_publish ready_to_publish = true
is_ready_to_publish _ = false

abbrev pub model_sha256 : Option Model → Option Text
model_sha256 none = none
model_sha256 (some model) = some model.sha256

abbrev pub source_sha256 : Option Identity → Option Text
source_sha256 none = none
source_sha256 (some source) = some source.sha256

module _ (S : Setting) where
  open S use {Value, same, digest, floats, disk}

  abbrev pub are_bindings : Option Value → Value → Bool
  are_bindings none bindings = false
  are_bindings (some declared) bindings = same declared bindings

  -- The SHA-256 of the source in the metadata of a cache, which version 2 has.
  abbrev pub is_source_of : Option Identity → Metadata → Bool
  is_source_of source metadata = elim metadata.binding [
    | none ↦ false
    | some binding ↦ is_text (source_sha256 source) binding.source_sha256
  ]

  -- `read_cache`, and `validate_cache_source` with integrity required.
  unfoldable pub accept_cache : Text → Bytes → Result Metadata
  accept_cache source_path file = do
    (vectors, metadata) ← read_cache floats digest file
    identity ← validate_cache_source digest disk metadata source_path none true
    ok metadata

  unfoldable pub check_existing : Arguments Value → Bytes → Result Metadata
  check_existing a file = do
    metadata ← accept_cache a.source_path file
    raise_if (not (eq_list metadata.fingerprint a.fingerprint))
        (value_error "native fingerprint mismatch")
    ok metadata

  unfoldable pub check_sidecar :
      Arguments Value → Bytes → Metadata → Declared Value → Result (Unit {0})
  check_sidecar a file metadata declared = do
    raise_if (not (is_text declared.schema cache_meta_schema))
        (value_error "unknown cache sidecar schema")
    raise_if (not (is_text declared.role a.role)) (value_error "cache role mismatch")
    raise_if (not (is_text (model_sha256 declared.model) a.model.sha256))
        (value_error "model identity sidecar mismatch")
    raise_if (not (are_bindings declared.bindings a.bindings))
        (value_error "cache bindings mismatch")
    raise_if (not (is_text declared.cache_sha256 (sha256_hex digest file)))
        (value_error "cache sidecar SHA-256 mismatch")
    raise_if (not (is_source_of declared.source metadata))
        (value_error "cache sidecar source mismatch")

  -- The sidecar that is written again from a checkpoint.
  unfoldable pub recovered :
      Arguments Value → Text → Text → Bytes → Metadata → Checkpoint → Result (Declared Value)
  recovered a input_hash now file metadata c = do
    raise_if (not (is_ready_to_publish c.status))
        (value_error "incomplete cache provenance checkpoint")
    raise_if (not (eq_list c.input_hash input_hash))
        (value_error "publication checkpoint input mismatch")
    raise_if (not (is_text c.cache_sha256 (sha256_hex digest file)))
        (value_error "publication checkpoint checksum mismatch")
    source ← source_identity digest disk a.source_path
    ok (record {
      schema = some cache_meta_schema;
      created_at = now;
      role = some a.role;
      cache = some metadata;
      cache_sha256 = some (sha256_hex digest file);
      source = some source;
      model = some a.model;
      bindings = some a.bindings;
      generation = none;
    })

  -- The files after each write, and the declaration that is returned, by whether a sidecar and a
  -- checkpoint stand there.
  unfoldable pub declare_existing :
      Arguments Value
      → Text
      → Text
      → Files Value
      → Bytes
      → Metadata
      → Option (Declared Value)
      → Option Checkpoint
      → Run (Files Value) (Declared Value)
  declare_existing a input_hash now found file metadata (some declared) checkpoint =
      and_then (check_sidecar a file metadata declared)
        (λ u. record { states = []; result = ok declared })
  declare_existing a input_hash now found file metadata none none =
      stopped (value_error "complete cache has no provenance sidecar")
  declare_existing a input_hash now found file metadata none (some c) =
      and_then (recovered a input_hash now file metadata c) (λ declared. record {
        states =
            record found { sidecar = some declared }
            ∷ record found { sidecar = some declared; checkpoint = none }
            ∷ [];
        result = ok declared;
      })

  unfoldable pub validate_existing_cache :
      Arguments Value → Text → Text → Files Value → Bytes → Run (Files Value) (Declared Value)
  validate_existing_cache a input_hash now found file =
      and_then (check_existing a file) (λ metadata.
        declare_existing a input_hash now found file metadata found.sidecar found.checkpoint)
