-- ===== src/CachedServer.antt =====
-- scripts/cached_embedding_server.py but for its counters: the checks of `main` on the documents, the
-- cache and the sidecar, the table from texts to rows, and the answers of the handler.
pub mod Laws
use leann_cpp.Prelude.{
  ℕ, zero, suc, Bool, true, false, ◌&&◌, ◌||◌, not, Option, none, some, List, [], ◌∷◌, ◌++◌, length,
  get_elem?, eq_list, ltb, leb, ◌==◌, if◌then◌else◌, Result, ok, err, value_error, key_error, ◌>>=◌,
  ◌>>◌, raise_if,
}
use leann_cpp.Bytes.{Bytes, Text}
use leann_cpp.Lines.{file_lines}
use leann_cpp.Platform.{Digest, Float32, Disk}
use leann_cpp.Cache.Matrix.{Matrix}
use leann_cpp.Cache.Read.{Metadata, Identity, sha256_hex, is_v2, read_cache, validate_cache_source}
use leann_cpp.Metrics.Cached.{CachedMetrics, request, response, new_cached, snapshot}
use leann_cpp.Metrics.{Metrics}
use leann_cpp.Generate.{is_text}
use leann_cpp.Generate.Inputs.{read_file}
use leann_cpp.Embedding.{cache_meta_schema, corpus_role, Declared}
use leann_cpp.Embedding.Existing.{source_sha256}

abbrev pub Table : Type 0
Table = List (Text × ℕ)

abbrev pub lookup_row : Text → Table → Option ℕ
lookup_row text [] = none
lookup_row text ((t, row) ∷ table) =
    let rest = lookup_row text table in if eq_list t text then some row else rest

abbrev pub same_sha : Option Text → Option Text → Bool
same_sha none none = true
same_sha (some a) (some b) = eq_list a b
same_sha _ _ = false

-- What arrives at the handler. A body that is not JSON, is no object, or has another "input" than a
-- string or a list of strings raises ValueError.
pub data Arrival : Type 0 where
  gets_metrics gets_other posts_reset posts_other posts_bad_size posts_bad_body : Arrival
  posts_texts : List Text → Arrival

pub data Reply (A : Type 0) : Type 0 where
  embeddings : List (ℕ × List A) → Reply A
  metrics_reply : Metrics → Reply A
  error_reply : ℕ → Reply A

-- The vectors of a cache, and the equality of two float32 numbers.
module _ (F : Float32) (same : F.Scalar → F.Scalar → Bool) where
  open F use {Scalar}

  -- `np.array_equal`
  abbrev pub array_equal : List Scalar → List Scalar → Bool
  array_equal [] [] = true
  array_equal (x ∷ xs) (y ∷ ys) = same x y && array_equal xs ys
  array_equal _ _ = false

  abbrev pub equal_rows : Option (List Scalar) → Option (List Scalar) → Bool
  equal_rows (some xs) (some ys) = array_equal xs ys
  equal_rows _ _ = false

  -- The loop over the documents from the given row on.
  unfoldable pub text_to_row : List (List Scalar) → ℕ → List Text → Table → Result Table
  text_to_row vectors row [] table = ok table
  text_to_row vectors row (text ∷ documents) table = elim (lookup_row text table) [
    | none ↦ text_to_row vectors (suc row) documents ((text, row) ∷ table)
    | some previous ↦ do
      raise_if (not (equal_rows (get_elem? vectors previous) (get_elem? vectors row)))
          (value_error "duplicate corpus text maps to different cached vectors")
      text_to_row vectors (suc row) documents table
  ]

  module _ (D : Digest) (disk : Disk) (V : Type 0) where
    unfoldable pub check_source : Metadata → Text → ℕ → Bool → Result (Unit {0})
    check_source metadata documents_path count allow_v1 =
        if is_v2 metadata.binding
        then (validate_cache_source D disk metadata documents_path (some count) true >>= λ i. ok tt)
        else raise_if (not allow_v1) (value_error "legacy V1 cache requires explicit --allow-v1")

    abbrev pub bound_sha : Metadata → Option Text
    bound_sha metadata = elim metadata.binding [ none ↦ none | some b ↦ some b.source_sha256 ]

    unfoldable pub check_provenance : Metadata → Text → Option (Declared V) → Result (Unit {0})
    check_provenance metadata cache_sha none =
        raise_if (is_v2 metadata.binding)
          (value_error "integrity-bound cache requires a provenance sidecar")
    check_provenance metadata cache_sha (some declared) = do
      raise_if
          (not (is_text declared.schema cache_meta_schema)
            || not (is_text declared.role corpus_role))
          (value_error "cache provenance sidecar schema/role mismatch")
      raise_if (not (is_text declared.cache_sha256 cache_sha))
          (value_error "cache provenance sidecar SHA-256 mismatch")
      raise_if (not (same_sha (source_sha256 declared.source) (bound_sha metadata)))
          (value_error "cache provenance sidecar source mismatch")

    -- The checks of `main`, up to the table.
    unfoldable pub load_server :
        Text → Text → Option (Declared V) → Bool → Result (List Text × (Matrix Scalar × Table))
    load_server documents_path cache_path sidecar allow_v1 = do
      documents_file ← read_file disk documents_path
      documents ← file_lines documents_file
      cache_file ← read_file disk cache_path
      (vectors, metadata) ← read_cache F D cache_file
      check_source metadata documents_path (length documents) allow_v1
      raise_if (not (length documents == length vectors.rows))
          (value_error "Document/cache mismatch")
      check_provenance metadata (sha256_hex D cache_file) sidecar
      table ← text_to_row vectors.rows 0 documents []
      ok (documents, (vectors, table))

  -- `vectors[text_to_row[text]]` with the index of each text.
  unfoldable pub embed_texts :
      List (List Scalar) → Table → ℕ → List Text → Result (List (ℕ × List Scalar))
  embed_texts vectors table index [] = ok []
  embed_texts vectors table index (text ∷ texts) = elim (lookup_row text table) [
    | none ↦ err (key_error "Unknown corpus text")
    | some row ↦ elim (get_elem? vectors row) [
      | none ↦ err (key_error "IndexError")
      | some vector ↦ do
        rest ← embed_texts vectors table (suc index) texts
        ok ((index, vector) ∷ rest)
    ]
  ]

  abbrev pub refuse : ℕ → CachedMetrics → CachedMetrics × Reply Scalar
  refuse status m = (response status m, error_reply status)

  -- `do_GET` and `do_POST`
  unfoldable pub handle :
      List (List Scalar) → Table → Arrival → CachedMetrics → CachedMetrics × Reply Scalar
  handle vectors table gets_metrics m = (m, metrics_reply (snapshot m))
  handle vectors table gets_other m = refuse 404 m
  handle vectors table posts_reset m = (new_cached, metrics_reply (snapshot m))
  handle vectors table posts_other m = refuse 404 m
  handle vectors table posts_bad_size m = refuse 413 m
  handle vectors table posts_bad_body m = refuse 400 m
  handle vectors table (posts_texts texts) m = elim (embed_texts vectors table 0 texts) [
    | ok rows ↦ (response 200 (request (length texts) m), embeddings rows)
    | err e ↦ refuse 400 (request (length texts) m)
  ]
