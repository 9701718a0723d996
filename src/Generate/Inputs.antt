-- ===== src/Generate/Inputs.antt =====
-- The checks on the inputs of `generate_ground_truth`, and the whole function.
pub mod Checked
use leann_cpp.Prelude.{
  ℕ, zero, suc, ◌+◌, ◌^◌, ◌≤◌, ◌<◌, ◌≡◌, refl, ◌∙◌, ap, sym, subst, Bool, true, false, not, ◌||◌,
  Option, none, some, List, [], ◌∷◌, arith, length, eq_list, ltb, ◌==◌, if◌then◌else◌, last_or,
  Result, ok, err, Error, value_error, os_error, raise_if, ◌>>=◌, ◌>>◌, >>=-eq-ok, raise_if-eq-ok,
}
use leann_cpp.Bytes.{Bytes, Text}
use leann_cpp.Platform.{Digest, Float32, Disk}
use leann_cpp.Cache.Matrix.{Matrix}
use leann_cpp.Cache.Read.{
  Metadata, Identity, sha256_hex, source_identity, read_cache, validate_cache_source,
}
use leann_cpp.Cache.Read.Laws.{read_cache_sound}
use leann_cpp.TopK.{NumPy}
use leann_cpp.GroundTruth.{Dimensions}
use leann_cpp.GroundTruth.Laws.{AreDimensions}
use leann_cpp.GroundTruth.Words.{Digits}
use leann_cpp.Writes.{Run, and_then}
use leann_cpp.Generate.{Job, Files, is_blank, generate, Declared}
use leann_cpp.Generate.Written.{IsJob}

-- What the sidecar of a cache says that is used here.
pub record Sidecar : Type 0 where
  pub model_sha256 : Text
  pub corpus_cache_sha256 : Option Text

-- The inputs that the ground truth depends on, of which the checkpoint keeps a hash.
pub record Stable : Type 0 where
  pub corpus_cache_sha256 : Text
  pub query_cache_sha256 : Text
  pub corpus_source_sha256 : Text
  pub query_source_sha256 : Text
  pub model_sha256 : Text
  pub query_count : ℕ
  pub corpus_count : ℕ
  pub dimensions : ℕ
  pub top_k : ℕ
  pub query_block_rows : ℕ
  pub corpus_block_rows : ℕ

-- The arguments of the call but for the output.
pub record Arguments : Type 0 where
  pub corpus_cache : Text
  pub query_cache : Text
  pub documents : Text
  pub queries : Text
  pub top_k : ℕ
  pub query_block_rows : ℕ
  pub corpus_block_rows : ℕ

abbrev pub read_file : Disk → Text → Result Bytes
read_file disk path = elim (disk path) [
  | none ↦ err (os_error "FileNotFoundError")
  | some file ↦ ok file
]

abbrev pub load_sidecar : (Text → Option Sidecar) → Text → Result Sidecar
load_sidecar sidecars path = elim (sidecars path) [
  | none ↦ err (os_error "FileNotFoundError")
  | some sidecar ↦ ok sidecar
]

abbrev pub is_bound : Option Text → Text → Bool
is_bound none sha = false
is_bound (some bound) sha = eq_list bound sha

-- The caches with what is known of them, and the model that their sidecars name.
pub record Inputs (A : Type 0) : Type 0 where
  pub corpus : Matrix A
  pub queries : Matrix A
  pub stable : Stable

-- What is read before the checks.
pub record Caches (A : Type 0) : Type 0 where
  pub corpus : Matrix A
  pub queries : Matrix A
  pub corpus_meta : Metadata
  pub query_meta : Metadata
  pub corpus_source : Identity
  pub query_source : Identity
  pub corpus_cache_sha : Text
  pub query_cache_sha : Text

-- `canonical_hash` of the stable inputs, and the places of the products `queries @ corpus.T` in the
-- order of float32.
module _ (D : Digest) (F : Float32) (disk : Disk) (sidecars : Text → Option Sidecar)
    (canonical_hash : Stable → Text) (scores : Matrix F.Scalar → Matrix F.Scalar → ℕ → ℕ → ℕ) where
  open F use {Scalar}

  -- The two caches, with the identities of the files that they hold the rows of.
  unfoldable pub load_caches : Arguments → Result (Caches Scalar)
  load_caches a = do
    corpus_file ← read_file disk a.corpus_cache
    (corpus, corpus_meta) ← read_cache F D corpus_file
    query_file ← read_file disk a.query_cache
    (queries, query_meta) ← read_cache F D query_file
    corpus_source ← validate_cache_source D disk corpus_meta a.documents none true
    query_source ← validate_cache_source D disk query_meta a.queries none true
    ok (record {
      corpus = corpus;
      queries = queries;
      corpus_meta = corpus_meta;
      query_meta = query_meta;
      corpus_source = corpus_source;
      query_source = query_source;
      corpus_cache_sha = sha256_hex D corpus_file;
      query_cache_sha = sha256_hex D query_file;
    })

  unfoldable pub check_pair : Arguments → Caches Scalar → Result (Unit {0})
  check_pair a c = do
    raise_if (not (c.corpus.width == c.queries.width))
        (value_error "corpus/query vector dimensions differ")
    raise_if (not (eq_list c.corpus_meta.fingerprint c.query_meta.fingerprint))
        (value_error "corpus/query native fingerprints differ")
    raise_if (a.top_k == 0 || ltb (length c.corpus.rows) a.top_k)
        (value_error "top-k must be in [1, corpus count]")

  -- The model that both sidecars name.
  unfoldable pub check_sidecars : Arguments → Caches Scalar → Result Text
  check_sidecars a c = do
    corpus_sidecar ← load_sidecar sidecars a.corpus_cache
    query_sidecar ← load_sidecar sidecars a.query_cache
    raise_if (not (eq_list corpus_sidecar.model_sha256 query_sidecar.model_sha256))
        (value_error "corpus/query model identity hashes differ")
    raise_if (not (is_bound query_sidecar.corpus_cache_sha256 c.corpus_cache_sha))
        (value_error "query vectors are not bound to this corpus cache")
    ok corpus_sidecar.model_sha256

  abbrev pub inputs_of : Arguments → Caches Scalar → Text → Inputs Scalar
  inputs_of a c model_sha256 = record {
    corpus = c.corpus;
    queries = c.queries;
    stable = record {
      corpus_cache_sha256 = c.corpus_cache_sha;
      query_cache_sha256 = c.query_cache_sha;
      corpus_source_sha256 = c.corpus_source.sha256;
      query_source_sha256 = c.query_source.sha256;
      model_sha256 = model_sha256;
      query_count = length c.queries.rows;
      corpus_count = length c.corpus.rows;
      dimensions = c.corpus.width;
      top_k = a.top_k;
      query_block_rows = a.query_block_rows;
      corpus_block_rows = a.corpus_block_rows;
    };
  }

  unfoldable pub check_inputs : Arguments → Result (Inputs Scalar)
  check_inputs a = do
    c ← load_caches a
    u ← check_pair a c
    model_sha256 ← check_sidecars a c
    ok (inputs_of a c model_sha256)

  abbrev pub job_of : Inputs Scalar → Job
  job_of i = record {
    dimensions = record {
      query_count = i.stable.query_count;
      top_k = i.stable.top_k;
      corpus_count = i.stable.corpus_count;
    };
    query_block_rows = i.stable.query_block_rows;
    corpus_block_rows = i.stable.corpus_block_rows;
    input_hash = canonical_hash i.stable;
    score = scores i.queries i.corpus;
  }

  unfoldable pub generate_ground_truth :
      Digits → NumPy → Arguments → Text → Files → Run Files Declared
  generate_ground_truth U N a now found =
      and_then (check_inputs a) (λ i. generate D U N (job_of i) now found)
