-- ===== src/Lib.antt =====
-- Verification of the benchmark scripts of leann.cpp (scripts/*.py).
--
-- The scripts measure the native program at scale: they embed a corpus into a cache file, compute
-- exact ground truth, run the native stages and collect the results. This library models the
-- parts whose correctness the numbers rest on, and the theorems listed at the end say in what
-- sense they are right. A number is a natural number; Python integers do not overflow, so no
-- bound is needed where they only grow. An error is a value of `Error` with the text of the
-- exception, without the interpolated parts.
--
-- - Prelude: Boolean tests, lists over native numbers, `Result` for code that raises.
-- - Bytes: what the scripts use of the standard library: `struct` little-endian fields,
--   `bytes.hex` and `bytes.fromhex`, UTF-8. `Bytes.Utf8.decode` is the strict decoder,
--   Bytes/Utf8/Ignore the one that leaves out what is ill-formed, and Bytes/Utf8/Cut what that
--   makes of text that is cut off.
-- - Lines: `iter_nonempty_lines` and `count_nonempty_lines` of scripts/benchmark_cache.py, and in
--   Lines/Native the `read_lines` of app/main.cpp that the script is meant to match.
-- - Platform: what is not code of this repository, as records of operations with the documented
--   laws that the scripts rely on: SHA-256, the float32 operations of NumPy, and a disk from
--   paths to contents.
-- - Cache: scripts/benchmark_cache.py. Cache/Header has `cache_v2_header` and the header part of
--   `read_cache`; Cache/Matrix `validate_vector_matrix` and `normalize_vectors`; Cache/Read
--   `read_cache`, `source_identity` and `validate_cache_source`; Cache/Write `write_cache_v2`,
--   where the temporary file and its `os.replace` are one step. The Laws, Rows, Source, Whole and
--   RoundTrip modules below them hold the proofs.
-- - TopK: `_select_topk` and `exact_topk_block` of scripts/run_large_scale_benchmark.py for one
--   query. TopK/Order has the specification, an insertion sort cut off at k; TopK/Merge,
--   TopK/Threshold, TopK/Select and TopK/Blocks the proofs. A score is its place in the order of
--   the float32 numbers; IDs are what `np.arange` gives as uint32, which is the row numbers as
--   long as they fit. The loop over blocks runs on fuel, the number of corpus rows, which is
--   enough since each block has a row.
-- - Stage: `run_repeated_stage` of scripts/run_large_scale_benchmark.py. A call returns the
--   states it publishes in order; Stage/Own has the states that calls leave behind, Stage/Loop
--   and Stage/Success one call, Stage/Reach sequences of calls that may be stopped between any
--   two writes. The loop of a kind is by recursion on what is missing.
-- - Metrics: `Metrics` of scripts/openai_embedding_proxy.py, with the histories of its calls in
--   Metrics/Laws, and in Metrics/Cached the `Metrics` of scripts/cached_embedding_server.py.
-- - GroundTruth: `read_ground_truth` of scripts/benchmark_cache.py; GroundTruth/Words has
--   `str.split` and `int`, for any table of the decimal digits of Unicode.
-- - GroundTruth/Print: the lines that `generate_ground_truth` prints, and that
--   `read_ground_truth` reads them back.
-- - Generate: `generate_ground_truth` of scripts/run_large_scale_benchmark.py, from the point
--   where its inputs are checked; Generate/Inputs has the checks and the whole function. A call
--   returns the files after each of its writes. Generate/Phases has the files that calls leave
--   behind, Generate/Calls what one call does from each of them, Generate/Reach sequences of
--   calls that are stopped at any point. The loop over blocks runs on fuel, the number of
--   queries, which is enough since each block answers a query.
-- - Writes: calls that write files one after the other and may be stopped after any write.
-- - Embedding: the embedding caches of scripts/run_large_scale_benchmark.py. Embedding/Batches
--   has `_iter_batches` and `_iter_embedded_batches`; Embedding/Client `EmbeddingClient.embed`,
--   where what comes of each attempt is given; Embedding/Existing `_validate_existing_cache`;
--   Embedding/Plan and Embedding/Generate `generate_cache`. A call returns the files after each
--   of its writes; the source and a prefix cache stand on a disk that it does not write.
--   Embedding/Safety has what holds of the files of one call, Embedding/Reach sequences of calls
--   that are stopped at any point. For calls with the same inputs Embedding/Rows has the rows
--   that a partial file holds, Embedding/Phases the files that calls leave behind,
--   Embedding/Calls, Embedding/Starts, Embedding/Resume and Embedding/Finishes what one call does
--   from each of them. A client answers two equal batches of a call alike.
-- - CachedServer: scripts/cached_embedding_server.py but for its counters: the checks of `main`,
--   the table from texts to rows, and the handler.
-- - Prepare: scripts/prepare_beir_nq_scale.py. Prepare itself has `verify_prefix`; Prepare/Texts
--   `clean_line`, `truncate_utf8`, `document_text`, `query_text` and `identifier`;
--   Prepare/Queries `parse_queries`, `parse_qrels` and `select_queries`; Prepare/Select
--   `select_documents`, on the rows of the table of the corpus in the order of its index;
--   Prepare/Tiers `TrackedBinaryWriter` and `write_documents`, with `read_id_set` in
--   Prepare/Tiers/Ids; Prepare/QueryFiles `write_queries_and_qrels`; Prepare/Outputs the checks
--   of `prepare` on the tiers; Prepare/Publish `publish_directory`. JSON and the conversion of
--   scores are parameters.
-- - Sample: `evenly_spaced_indices` of scripts/validate_embedding_parity.py.
-- - Examples: concrete instances of Platform, the theorems at concrete inputs, and tests.
--
-- Not modelled: the download and the archive of NQ, the orchestration, endpoint attestation and
-- parity, the collector, the native program but for its line reader, command lines, subprocesses
-- and HTTP.
pub mod Prelude
pub mod Bytes
pub mod Lines
pub mod Platform
pub mod Cache
pub mod TopK
pub mod GroundTruth
pub mod Writes
pub mod Generate
pub mod Embedding
pub mod Prepare
pub mod Sample
pub mod Metrics
pub mod CachedServer
pub mod Stage
pub mod Examples
