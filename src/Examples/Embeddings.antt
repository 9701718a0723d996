-- ===== src/Examples/Embeddings.antt =====
-- Batches, a client that tries again, and an embedding cache that is generated, stopped and resumed.
use leann_cpp.Prelude.{
  ◌+◌, ◌*◌, ℕ, zero, suc, ◌<◌, ◌≤◌, ◌≡◌, refl, arith, Bool, true, false, Option, none, some, List,
  [], ◌∷◌, length, take, last_or, ok, err,
}
use leann_cpp.Bytes.{Bytes, Text}
use leann_cpp.Bytes.Struct.{pack_field, le_bytes, from_le_bytes}
use leann_cpp.Bytes.Hex.{hex, from_hex}
use leann_cpp.Bytes.Utf8.{decode, encode, encode_text}
use leann_cpp.Lines.{file_lines, iter_nonempty_lines, count_nonempty_lines}
use leann_cpp.Writes.{call, Reach, here, next, and_then, after_states}
use leann_cpp.GroundTruth.Words.{pos}
use leann_cpp.Cache.Matrix.{Matrix, validate_vector_matrix, normalize_vectors}
use leann_cpp.Cache.Header.{read_part, unpack_v2, read_header, read_fixed, cache_v2_header, pack_v2}
use leann_cpp.Cache.Read.{
  read_row, read_rows, read_cache, source_identity, sha256_hex, validate_cache_source,
}
use leann_cpp.Cache.Write.{row_bytes, matrix_bytes}
use leann_cpp.Embedding.{Declared, Files, Setting}
use leann_cpp.Embedding.Batches.{
  batches_from, iter_batches, concat, AreBatches, iter_embedded_batches, ahead, one_by_one,
  iter_batches_lem, iter_embedded_batches_lem,
}
use leann_cpp.Embedding.Client.{
  Item, Attempt, response, http_error, network_error, index_of, collect, rows_from, as_matrix,
  read_response, attempts, embed,
}
use leann_cpp.Embedding.Client.Laws.{IsEmbedding}
use leann_cpp.Embedding.Client.Retries.{IsRetried, embed-IsEmbedding}
use leann_cpp.Embedding.Existing.{
  accept_cache, check_existing, check_sidecar, recovered, declare_existing, validate_existing_cache,
}
use leann_cpp.Embedding.Plan.{read_inputs}
use leann_cpp.Embedding.Generate.{
  publish, write_batches, begin_unknown, begin_known, check_checkpoint, resume, generate_planned,
  generate_cache,
}
use leann_cpp.Embedding.Safety.{no_files, IsCacheOf, IsDeclared}
use leann_cpp.Embedding.Reach.{Request, run, Reach-cache, run-IsDeclared}
use leann_cpp.Examples.Instances.{toy_digest, toy_floats}
use leann_cpp.Examples.Caches.{source_path, disk, name}

abbrev a : Text
a = b'a' ∷ []

abbrev b : Text
b = b'b' ∷ []

iter_batches_lem_example :
    (concat (iter_batches (a ∷ b ∷ a ∷ b ∷ []) 1 2) ≡ b ∷ a ∷ b ∷ [])
    × AreBatches 2 (iter_batches (a ∷ b ∷ a ∷ b ∷ []) 1 2)
iter_batches_lem_example = iter_batches_lem (a ∷ b ∷ a ∷ b ∷ []) 1 2 (omega arith)

iter_batches_test : iter_batches (a ∷ b ∷ a ∷ b ∷ []) 1 2 ≡ (b ∷ a ∷ []) ∷ (b ∷ []) ∷ []
unfolding iter_batches batches_from
iter_batches_test = refl

abbrev count : List Text → ℕ
count texts = length texts

iter_embedded_batches_lem_example :
    iter_embedded_batches count 2 ((a ∷ []) ∷ (b ∷ a ∷ []) ∷ (b ∷ []) ∷ [])
    ≡ one_by_one count ((a ∷ []) ∷ (b ∷ a ∷ []) ∷ (b ∷ []) ∷ [])
iter_embedded_batches_lem_example =
    iter_embedded_batches_lem count 2 ((a ∷ []) ∷ (b ∷ a ∷ []) ∷ (b ∷ []) ∷ [])

-- A response that answers the texts in their order, behind a failure of the network and an error 503.
abbrev pub items_from : ℕ → List Text → List (Item toy_floats)
items_from i [] = []
items_from i (t ∷ texts) =
    record { index = some (pos i); embedding = some (true ∷ false ∷ []) } ∷ items_from (suc i) texts

abbrev answer : List Text → ℕ → Attempt toy_floats
answer texts zero = network_error
answer texts (suc zero) = http_error 503
answer texts (suc (suc n)) = response (some (items_from 0 texts))

abbrev two_rows : Matrix Bool
two_rows = record { width = 2; rows = (true ∷ false ∷ []) ∷ (true ∷ false ∷ []) ∷ [] }

embedded : embed toy_floats (answer (a ∷ b ∷ [])) 3 (a ∷ b ∷ []) (some 2) ≡ ok two_rows
unfolding embed attempts read_response collect index_of rows_from as_matrix normalize_vectors
    validate_vector_matrix
embedded = refl

embed-IsEmbedding_example :
    (n : ℕ) × (n ≤ 3)
    × ((i : ℕ) → i < n → IsRetried toy_floats (answer (a ∷ b ∷ []) i))
    × (items : List (Item toy_floats)) × (answer (a ∷ b ∷ []) n ≡ response (some items))
    × IsEmbedding toy_floats 2 (some 2) items two_rows
embed-IsEmbedding_example =
    embed-IsEmbedding toy_floats (answer (a ∷ b ∷ [])) 3 (a ∷ b ∷ []) (some 2) two_rows embedded

abbrev pub setting : Setting
setting = record {
  Value = Unit {0};
  same = λ x y. true;
  canonical_hash = λ s. b'h' ∷ [];
  digest = toy_digest;
  floats = toy_floats;
  disk = disk;
  sidecars = λ path. none;
}

abbrev request : Request setting source_path
request = record {
  arguments = record {
    source_path = source_path;
    cache_path = b'c' ∷ [];
    embedding_endpoint = b'u' ∷ [];
    fingerprint = name;
    model = record { sha256 = b's' ∷ [] };
    role = b'r' ∷ [];
    batch_size = 1;
    dimension = none;
    bindings = tt;
    prefix_cache = none;
    concurrency = 2;
  };
  call = record { now = b'n' ∷ []; retries = 2; answers = answer };
  for_source = refl;
}

all_writes : Unit {0}
unfolding run generate_cache generate_planned read_inputs begin_unknown begin_known resume
    check_checkpoint write_batches publish accept_cache validate_existing_cache check_existing
    declare_existing check_sidecar recovered and_then after_states embed attempts read_response
    collect index_of rows_from as_matrix normalize_vectors validate_vector_matrix matrix_bytes
    row_bytes source_identity count_nonempty_lines file_lines iter_nonempty_lines decode encode_text
    encode hex from_hex cache_v2_header pack_v2 pack_field le_bytes read_cache read_header
    read_fixed read_part unpack_v2 from_le_bytes read_row read_rows validate_cache_source
    iter_batches batches_from iter_embedded_batches ahead
all_writes = tt

-- What a call leaves that is stopped after `n` of its writes.
abbrev left_by : ℕ → Files (Unit {0}) → Files (Unit {0})
left_by n found =
    elim (last_or (some found) (take n (run setting source_path request found).states)) [
      | some f ↦ f
      | none ↦ found
    ]

-- Stopped inside the second row.
stopped_inside : Files (Unit {0})
stopped_inside = left_by 84 no_files

inside_reached : Reach (run setting source_path) no_files stopped_inside
unfolding all_writes stopped_inside
inside_reached = next here (call request 84 refl)

-- The next call runs to its end.
finished : Files (Unit {0})
finished = left_by 20 stopped_inside

finished_reached : Reach (run setting source_path) no_files finished
unfolding all_writes finished stopped_inside
finished_reached = next inside_reached (call request 20 refl)

file : Bytes
file = elim finished.cache [ some f ↦ f | none ↦ [] ]

file_stands : finished.cache ≡ some file
unfolding all_writes finished stopped_inside file
file_stands = refl

file_test : (stopped_inside.cache ≡ none) × (length file ≡ 67 + 2 * 2 * 4)
unfolding all_writes finished stopped_inside file
file_test = (refl, refl)

Reach-cache_example :
    IsCacheOf setting source_path file
    × ((declared : Declared (Unit {0}))
        → finished.sidecar ≡ some declared
        → declared.cache_sha256 ≡ some (sha256_hex toy_digest file))
Reach-cache_example = Reach-cache setting source_path file finished_reached file_stands

-- What the call returns that goes on behind the first row.
returned : Option (Declared (Unit {0}))
returned = elim (run setting source_path request stopped_inside).result [
  | ok d ↦ some d
  | err e ↦ none
]

abbrev declared_or : Option (Declared (Unit {0})) → Declared (Unit {0})
declared_or (some d) = d
declared_or none = record {
  schema = none;
  created_at = [];
  role = none;
  cache = none;
  cache_sha256 = none;
  source = none;
  model = none;
  bindings = none;
  generation = none;
}

returns : (run setting source_path request stopped_inside).result ≡ ok (declared_or returned)
unfolding all_writes returned stopped_inside
returns = refl

run-IsDeclared_example :
    (g : Files (Unit {0})) × (last_or
        (some stopped_inside)
        (run setting source_path request stopped_inside).states
      ≡ some g)
    × IsDeclared setting source_path g (declared_or returned)
run-IsDeclared_example =
    run-IsDeclared setting source_path request (declared_or returned) inside_reached returns
