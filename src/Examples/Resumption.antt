-- ===== src/Examples/Resumption.antt =====
-- An embedding cache whose generation is stopped inside a row, and a call that finishes it.
use leann_cpp.Prelude.{
  ℕ, zero, suc, ◌≡◌, inl, inr, refl, arith, Bool, true, false, none, some, List, [], ◌∷◌, length,
  take, last_or, Result, ok-injective, ap, sym, not, ok, err, ◌==◌, value_error, runtime_error,
  raise_if-eq-ok,
}
use leann_cpp.Bytes.{Bytes, Text}
use leann_cpp.Bytes.Struct.{pack_field, le_bytes, from_le_bytes}
use leann_cpp.Bytes.Hex.{hex, from_hex}
use leann_cpp.Bytes.Utf8.{decode, encode, encode_text}
use leann_cpp.Lines.{file_lines, iter_nonempty_lines, count_nonempty_lines}
use leann_cpp.Writes.{stopped, Step, call, Reach, here, next, and_then, after_states}
use leann_cpp.Cache.Matrix.{Matrix, validate_vector_matrix, normalize_vectors}
use leann_cpp.Cache.Header.{read_part, unpack_v2, read_header, read_fixed, cache_v2_header, pack_v2}
use leann_cpp.Cache.Read.{read_row, read_rows, read_cache, source_identity, validate_cache_source}
use leann_cpp.Cache.Write.{row_bytes, matrix_bytes}
use leann_cpp.Embedding.{Arguments, Declared, Files}
use leann_cpp.Embedding.Batches.{batches_from, iter_batches, iter_embedded_batches, ahead}
use leann_cpp.Embedding.Client.{
  Attempt, response, http_error, network_error, index_of, collect, rows_from, as_matrix,
  read_response, attempts, embed,
}
use leann_cpp.Embedding.Existing.{accept_cache}
use leann_cpp.Embedding.Plan.{Call, Plan, read_inputs}
use leann_cpp.Embedding.Generate.{
  publish, write_batches, begin_unknown, check_checkpoint, resume, generate_planned, generate_cache,
  header_of,
}
use leann_cpp.Embedding.Safety.{no_files}
use leann_cpp.Embedding.Rows.{IsFit, HasDimension}
use leann_cpp.Embedding.Phases.{IsDone}
use leann_cpp.Embedding.Calls.{Answers}
use leann_cpp.Embedding.Finishes.{
  is_torn, Request, run, generate_cache-finishes, generate_cache-torn,
}
use leann_cpp.Examples.Instances.{toy_floats}
use leann_cpp.Examples.Caches.{source_path, name}
use leann_cpp.Examples.Embeddings.{setting, items_from}

-- Batches of one text are answered at the second attempt.
abbrev answer : List Text → ℕ → Attempt toy_floats
answer (t ∷ []) zero = http_error 503
answer (t ∷ []) (suc n) = response (some (items_from 0 (t ∷ [])))
answer _ n = network_error

abbrev arguments : Arguments (Unit {0})
arguments = record {
  source_path = source_path;
  cache_path = b'c' ∷ [];
  embedding_endpoint = b'u' ∷ [];
  fingerprint = name;
  model = record { sha256 = b's' ∷ [] };
  role = b'r' ∷ [];
  batch_size = 1;
  dimension = none;
  bindings = tt;
  prefix_cache = none;
  concurrency = 2;
}

abbrev client : Call setting
client = record { now = b'n' ∷ []; retries = 2; answers = answer }

all_writes : Unit {0}
unfolding run generate_cache generate_planned read_inputs begin_unknown resume check_checkpoint
    write_batches publish accept_cache and_then after_states embed attempts read_response collect
    index_of rows_from as_matrix normalize_vectors validate_vector_matrix matrix_bytes row_bytes
    source_identity count_nonempty_lines file_lines iter_nonempty_lines decode encode_text encode
    hex from_hex cache_v2_header pack_v2 pack_field le_bytes read_cache read_header read_fixed
    read_part unpack_v2 from_le_bytes read_row read_rows validate_cache_source iter_batches
    batches_from iter_embedded_batches ahead
all_writes = tt

-- The inputs as they are read.
plan : Plan setting
plan = elim (read_inputs setting arguments client.now) [
  | ok p ↦ p
  | err e ↦ record {
    arguments = arguments;
    source = record { size_bytes = 0; sha256 = []; nonempty_lines = 0 };
    lines = [];
    input_hash = [];
    now = [];
    started = [];
    prefix_seed = none;
  }
]

header : Bytes
header = elim (header_of setting plan 2) [ ok b ↦ b | err e ↦ [] ]

fit : IsFit setting plan 2
unfolding all_writes plan header
fit = record {
  planned = refl;
  header = header;
  headed = refl;
  dimension = inl refl;
  no_prefix = refl;
  batch = omega arith;
  bindings = refl;
}

abbrev one_row : Matrix Bool
one_row = record { width = 2; rows = (true ∷ false ∷ []) ∷ [] }

of_ok : (m : Matrix Bool) → ◌≡◌ {A = Result (Matrix Bool)} (ok one_row) (ok m) → m.width ≡ 2
of_ok m h = ap (λ (k : Matrix Bool). k.width) (sym (ok-injective one_row m h))

has_dimension : HasDimension setting plan 2 client
unfolding all_writes
has_dimension d [] m h = cc
has_dimension none (t ∷ []) m h = of_ok m h
has_dimension (some d) (t ∷ []) m h =
    let (same, h') =
      raise_if-eq-ok (not (2 == d)) (value_error "embedding dimension changed") (ok one_row) h in
    of_ok m h'
has_dimension d (t ∷ u ∷ l) m h =
    let (some_texts, h') =
      raise_if-eq-ok (length (t ∷ u ∷ l) == 0)
        (value_error "cannot request an empty embedding batch") _ h in
    cc h'

answers : Answers setting plan 2 fit client
unfolding all_writes plan
answers d (inl e) [] (filled, k) = absurd (filled refl)
answers d (inr e) [] (filled, k) = absurd (filled refl)
answers d (inl e) (t ∷ []) k = (one_row, rw e refl)
answers d (inr e) (t ∷ []) k = (one_row, rw e refl)
answers d e (t ∷ u ∷ l) (filled, k) = absurd (omega (arith, k))

abbrev asked : Request setting plan 2 fit
asked = record { call = client; same_dimension = has_dimension; not_blank = refl }

-- What a call leaves that is stopped after 84 of its writes, inside the second row.
stopped_inside : Files (Unit {0})
stopped_inside =
    elim (last_or (some no_files) (take 84 (run setting plan 2 fit asked no_files).states)) [
      | some f ↦ f
      | none ↦ no_files
    ]

inside_reached : Reach (run setting plan 2 fit) no_files stopped_inside
unfolding all_writes stopped_inside plan
inside_reached = next here (call asked 84 refl)

not_torn : is_torn stopped_inside ≡ false
unfolding all_writes stopped_inside plan
not_torn = refl

generate_cache-finishes_example :
    (declared : Declared (Unit {0})) × (g : Files (Unit {0})) × ((run setting plan 2 fit asked
        stopped_inside).result
      ≡ ok declared)
    × (last_or (some stopped_inside) (run setting plan 2 fit asked stopped_inside).states ≡ some g)
    × IsDone setting plan 2 fit g declared
generate_cache-finishes_example =
    generate_cache-finishes setting plan 2 fit asked inside_reached not_torn answers

-- The same inputs with the dimension asked for.
told : Plan setting
told = elim (read_inputs setting (record arguments { dimension = some 2 }) client.now) [
  | ok p ↦ p
  | err e ↦ record plan { arguments = record arguments { dimension = some 2 } }
]

fit_told : IsFit setting told 2
unfolding all_writes told plan header
fit_told = record {
  planned = refl;
  header = header;
  headed = refl;
  dimension = inr refl;
  no_prefix = refl;
  batch = omega arith;
  bindings = refl;
}

dimension_told : told.arguments.dimension ≡ some 2
unfolding all_writes told
dimension_told = refl

abbrev first : Request setting told 2 fit_told
first = record { call = client; same_dimension = has_dimension; not_blank = refl }

generate_cache-torn_example :
    (f : Files (Unit {0})) × Step (run setting told 2 fit_told) no_files f
    × (is_torn f ≡ true)
    × ((r : Request setting told 2 fit_told)
        → run setting told 2 fit_told r f
          ≡ stopped (runtime_error "cache checkpoint and partial file must exist together"))
generate_cache-torn_example = generate_cache-torn setting told 2 fit_told first dimension_told
