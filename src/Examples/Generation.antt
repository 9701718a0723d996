-- ===== src/Examples/Generation.antt =====
-- The generation of a ground truth, stopped and resumed.
use leann_cpp.Prelude.{
  ℕ, ◌+◌, ◌≤◌, ◌≡◌, refl, arith, Bool, false, Option, none, some, List, [], ◌∷◌, length, eq_list,
  if◌then◌else◌, last_or, take, ok, err, runtime_error,
}
use leann_cpp.Bytes.{Bytes, Text}
use leann_cpp.Bytes.Hex.{hex}
use leann_cpp.Bytes.Utf8.{decode}
use leann_cpp.Lines.{file_lines, iter_nonempty_lines}
use leann_cpp.TopK.{select_topk, exact_topk_block}
use leann_cpp.TopK.Order.{sort}
use leann_cpp.GroundTruth.Words.{split}
use leann_cpp.Platform.{Disk}
use leann_cpp.Cache.Matrix.{Matrix}
use leann_cpp.Cache.Read.{Identity, source_identity, sha256_hex, validate_cache_source}
use leann_cpp.GroundTruth.{read_dimensions, read_row, read_ground_truth}
use leann_cpp.GroundTruth.Print.{
  truth_bytes, header_bytes, header_line, to_decimal, rows_bytes, row_line,
}
use leann_cpp.GroundTruth.Print.RoundTrip.{read_ground_truth-truth_bytes}
use leann_cpp.Writes.{stopped, and_then, after_states}
use leann_cpp.Generate.{Job, Files, Declared, generate, begin, resume, generate_from, publish}
use leann_cpp.Generate.Written.{IsJob, answers, truth_metadata}
use leann_cpp.Generate.Reach.{
  no_files, is_torn, call, Reach, here, next, Reach-output, generate-finishes, with_partial,
  generate-torn,
}
use leann_cpp.Generate.Inputs.{
  Sidecar, Stable, Arguments, Inputs, load_caches, check_pair, check_sidecars, check_inputs, job_of,
  generate_ground_truth,
}
use leann_cpp.Generate.Inputs.Checked.{generate_ground_truth_lem}
use leann_cpp.Examples.Instances.{toy_digest, toy_floats, toy_numpy, digits}
use leann_cpp.Examples.Caches.{two_lines, source_path, written, all_reads}

abbrev job : Job
job = record {
  dimensions = record { query_count = 2; top_k = 1; corpus_count = 3 };
  query_block_rows = 1;
  corpus_block_rows = 2;
  input_hash = b'h' ∷ [];
  score = λ q d. q + d;
}

fit : IsJob job
fit = record {
  sizes = (omega arith, omega arith, omega arith);
  small = omega arith;
  query_block = omega arith;
  corpus_block = omega arith;
}

abbrev noon : Text
noon = b'n' ∷ []

abbrev rows : List (List ℕ)
rows = (2 ∷ []) ∷ (0 ∷ []) ∷ []

read_ground_truth-truth_bytes_example :
    read_ground_truth digits toy_digest (truth_bytes job.dimensions rows) (some 2) none none
    ≡ ok (
      rows,
      record {
        dimensions = job.dimensions;
        size_bytes = length (truth_bytes job.dimensions rows);
        sha256 = sha256_hex toy_digest (truth_bytes job.dimensions rows);
      },
    )
read_ground_truth-truth_bytes_example =
    read_ground_truth-truth_bytes digits toy_digest job.dimensions rows (some 2) none none fit.sizes
      refl
      (
        (refl, (omega arith, tt), (refl, tt), (omega arith, tt)),
        ((refl, (omega arith, tt), (refl, tt), (omega arith, tt)), tt),
      )
      refl tt tt

all_calls : Unit {0}
unfolding generate begin and_then after_states resume generate_from publish header_bytes header_line
    to_decimal rows_bytes row_line truth_bytes exact_topk_block select_topk sort hex file_lines
    iter_nonempty_lines decode read_ground_truth read_dimensions read_row split
all_calls = tt

-- What a call leaves that is stopped after `n` of its writes.
abbrev left_by : ℕ → Files → Files
left_by n found =
    elim (last_or (some found)
      (take n (generate toy_digest digits toy_numpy job noon found).states)) [
        | some f ↦ f
        | none ↦ found
      ]

-- Stopped inside the first row.
partly_done : Files
partly_done = left_by 19 no_files

partly_done_reached : Reach toy_digest digits toy_numpy job no_files partly_done
unfolding all_calls partly_done
partly_done_reached = next here (call noon 19 refl refl)

-- The next call runs to its end.
done : Files
done = left_by 40 partly_done

done_reached : Reach toy_digest digits toy_numpy job no_files done
unfolding all_calls done partly_done
done_reached = next partly_done_reached (call noon 40 refl refl)

truth : Bytes
truth = truth_bytes job.dimensions ((2 ∷ []) ∷ (2 ∷ []) ∷ [])

output_done : done.output ≡ some truth
unfolding all_calls done partly_done truth
output_done = refl

Reach-output_example : truth ≡ truth_bytes job.dimensions (answers job 0 2)
Reach-output_example =
    Reach-output toy_digest digits toy_numpy job fit truth done_reached output_done

not_torn : is_torn partly_done ≡ false
unfolding all_calls partly_done
not_torn = refl

generate-finishes_example :
    let run = generate toy_digest digits toy_numpy job noon partly_done in
    (d : Declared) × (g : Files) × (run.result ≡ ok d)
    × (last_or (some partly_done) run.states ≡ some g)
    × (g.output ≡ some (truth_bytes job.dimensions (answers job 0 2)))
    × (g.sidecar ≡ some d)
    × (g.partial ≡ none)
    × (d.ground_truth ≡ truth_metadata job fit toy_digest digits toy_numpy)
generate-finishes_example =
    generate-finishes toy_digest digits toy_numpy job fit noon partly_done_reached not_torn refl

sixteen : 16 ≤ length (header_bytes job.dimensions)
unfolding all_calls
sixteen = omega arith

generate-torn_example :
    let left =
      with_partial toy_digest digits toy_numpy job (take 16 (header_bytes job.dimensions)) in
    (last_or
        (some no_files)
        (take 17 (generate toy_digest digits toy_numpy job noon no_files).states)
      ≡ some left)
    × ((now : Text)
        → generate toy_digest digits toy_numpy job now left
          ≡ stopped (runtime_error "ground-truth checkpoint and partial must coexist"))
generate-torn_example = generate-torn toy_digest digits toy_numpy job noon 16 sixteen

-- A cache that is both that of the corpus and that of the queries.
abbrev disk : Disk
disk path = if eq_list path source_path then some two_lines else some written

abbrev sidecars : Text → Option Sidecar
sidecars path =
    some (record { model_sha256 = []; corpus_cache_sha256 = some (sha256_hex toy_digest written) })

abbrev arguments : Arguments
arguments = record {
  corpus_cache = b'c' ∷ [];
  query_cache = b'c' ∷ [];
  documents = source_path;
  queries = source_path;
  top_k = 1;
  query_block_rows = 1;
  corpus_block_rows = 1;
}

abbrev toy_hash : Stable → Text
toy_hash stable = []

abbrev toy_scores : Matrix Bool → Matrix Bool → ℕ → ℕ → ℕ
toy_scores queries corpus q d = q + d

abbrev no_inputs : Inputs Bool
no_inputs = record {
  corpus = record { width = 0; rows = [] };
  queries = record { width = 0; rows = [] };
  stable = record {
    corpus_cache_sha256 = [];
    query_cache_sha256 = [];
    corpus_source_sha256 = [];
    query_source_sha256 = [];
    model_sha256 = [];
    query_count = 0;
    corpus_count = 0;
    dimensions = 0;
    top_k = 0;
    query_block_rows = 0;
    corpus_block_rows = 0;
  };
}

inputs : Inputs Bool
unfolding all_reads check_inputs load_caches check_pair check_sidecars validate_cache_source
inputs = elim (check_inputs toy_digest toy_floats disk sidecars toy_hash toy_scores arguments) [
  | ok i ↦ i
  | err e ↦ no_inputs
]

inputs_ok :
    check_inputs toy_digest toy_floats disk sidecars toy_hash toy_scores arguments ≡ ok inputs
unfolding all_reads check_inputs load_caches check_pair check_sidecars validate_cache_source inputs
    written
inputs_ok = refl

two_rows : inputs.stable.corpus_count ≡ 2
unfolding all_reads check_inputs load_caches check_pair check_sidecars validate_cache_source inputs
    written
two_rows = refl

generate_ground_truth_example :
    let run =
      generate_ground_truth toy_digest toy_floats disk sidecars toy_hash toy_scores digits toy_numpy
        arguments noon no_files in
    let job = job_of toy_digest toy_floats disk sidecars toy_hash toy_scores inputs in
    (d : Declared) × (g : Files) × (queries : Identity) × (run.result ≡ ok d)
    × (last_or (some no_files) run.states ≡ some g)
    × (source_identity toy_digest disk source_path ≡ ok queries)
    × (g.output ≡ some (truth_bytes job.dimensions (answers job 0 queries.nonempty_lines)))
    × (g.sidecar ≡ some d)
    × (g.partial ≡ none)
generate_ground_truth_example =
    generate_ground_truth_lem toy_digest toy_floats disk sidecars toy_hash toy_scores digits
      toy_numpy arguments noon inputs inputs_ok (omega (arith, two_rows)) (omega arith)
      (omega arith) here refl refl
