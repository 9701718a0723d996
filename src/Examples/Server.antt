-- ===== src/Examples/Server.antt =====
-- A cached embedding server that starts and answers.
use leann_cpp.Prelude.{
  ◌≡◌, refl, Bool, true, false, ◌&&◌, ◌||◌, not, none, some, List, [], ◌∷◌, ℕ, eq_list,
  if◌then◌else◌, ok,
}
use leann_cpp.Bytes.{Text}
use leann_cpp.Bytes.Struct.{from_le_bytes}
use leann_cpp.Platform.{Disk}
use leann_cpp.Cache.Matrix.{Matrix}
use leann_cpp.Cache.Header.{read_part, unpack_v2, read_header, read_fixed}
use leann_cpp.Cache.Read.{sha256_hex, read_row, read_rows, read_cache, validate_cache_source}
use leann_cpp.Metrics.Cached.{new_cached, request, response}
use leann_cpp.Embedding.{cache_meta_schema, corpus_role, Declared}
use leann_cpp.CachedServer.{
  Table, check_source, check_provenance, text_to_row, load_server, posts_texts, handle, embeddings,
}
use leann_cpp.CachedServer.Laws.{AnswersTexts, load_server-AnswersTexts}
use leann_cpp.Examples.Instances.{toy_digest, toy_floats}
use leann_cpp.Examples.Caches.{two_lines, source_path, written, all_steps}

abbrev cache_path : Text
cache_path = b'c' ∷ []

disk : Disk
disk path =
    if eq_list path source_path
    then some two_lines
    else (if eq_list path cache_path then some written else none)

sidecar : Declared (Unit {0})
sidecar = record {
  schema = some cache_meta_schema;
  created_at = [];
  role = some corpus_role;
  cache = none;
  cache_sha256 = some (sha256_hex toy_digest written);
  source =
      some
        (record { size_bytes = 5; sha256 = sha256_hex toy_digest two_lines; nonempty_lines = 2 });
  model = none;
  bindings = none;
  generation = none;
}

abbrev same : Bool → Bool → Bool
same x y = (x && y) || (not x && not y)

abbrev documents : List Text
documents = (b'a' ∷ []) ∷ (b'b' ∷ []) ∷ []

abbrev vectors : Matrix Bool
vectors = record { width = 2; rows = (true ∷ false ∷ []) ∷ (true ∷ true ∷ []) ∷ [] }

abbrev table : Table
table = (b'b' ∷ [], 1) ∷ (b'a' ∷ [], 0) ∷ []

starts :
    load_server toy_floats same toy_digest disk
      (Unit {0})
      source_path
      cache_path
      (some sidecar)
      false
    ≡ ok (documents, (vectors, table))
unfolding load_server check_source check_provenance text_to_row disk sidecar written all_steps
    read_cache read_header read_fixed read_part unpack_v2 from_le_bytes read_row read_rows
    validate_cache_source
starts = refl

abbrev asked : List Text
asked = (b'b' ∷ []) ∷ (b'a' ∷ []) ∷ []

load_server-AnswersTexts_example :
    (rows : List (ℕ × List Bool)) × (handle toy_floats same vectors.rows table
        (posts_texts asked)
        new_cached
      ≡ (response 200 (request 2 new_cached), embeddings rows))
    × AnswersTexts toy_floats same vectors.rows documents table 0 asked rows
load_server-AnswersTexts_example =
    load_server-AnswersTexts toy_floats same toy_digest disk (Unit {0}) source_path cache_path
      (some sidecar) false documents vectors table asked new_cached starts
      ((1, refl), ((0, refl), tt))
