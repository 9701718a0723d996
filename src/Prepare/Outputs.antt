-- ===== src/Prepare/Outputs.antt =====
-- The checks that `prepare` of scripts/prepare_beir_nq_scale.py makes on the files of both tiers and
-- on what is counted of them. A rate is zero exactly when the rows that it counts are none.
pub mod Laws
use leann_cpp.Prelude.{
  ℕ, Bool, true, false, not, ◌&&◌, ◌||◌, List, [], ◌∷◌, length, ltb, ◌==◌, Result, ok,
  runtime_error, ◌>>=◌, ◌>>◌, raise_if,
}
use leann_cpp.Bytes.{Text}
use leann_cpp.Prepare.{verify_prefix}
use leann_cpp.Prepare.Select.{is_in}
use leann_cpp.Prepare.Tiers.{Tiers, TierStats}
use leann_cpp.Prepare.Tiers.Ids.{read_id_set}
use leann_cpp.Prepare.Queries.{Floats, Qrel}

-- `<=` on sets
abbrev pub is_subset : List Text → List Text → Bool
is_subset [] set = true
is_subset (t ∷ ts) set = is_in t set && is_subset ts set

-- The IDs of the small and of the large tier.
unfoldable pub check_nesting : ℕ → ℕ → Tiers → Result (List Text × List Text)
check_nesting small_count large_count t = do
  verify_prefix t.small.documents.contents t.large.documents.contents
  verify_prefix t.small.ids.contents t.large.ids.contents
  small_ids ← read_id_set t.small.ids.contents
  large_ids ← read_id_set t.large.ids.contents
  raise_if (not (length small_ids == small_count) || not (length large_ids == large_count))
      (runtime_error "output ID cardinality does not match requested tiers")
  raise_if (not (is_subset small_ids large_ids))
      (runtime_error "100K document IDs are not nested in 1M document IDs")
  ok (small_ids, large_ids)

module _ (F : Floats) where
  open F use {Score, is_positive}

  -- Whether a positive judgment of a selected query is of a document outside the small tier.
  abbrev pub some_uncovered : List Text → List Text → List (Qrel Score) → Bool
  some_uncovered selected small_ids [] = false
  some_uncovered selected small_ids (q ∷ qrels) =
      (is_in q.query_id selected && (is_positive q.score && not (is_in q.corpus_id small_ids)))
      || some_uncovered selected small_ids qrels

  unfoldable pub check_coverage :
      List Text → List (Qrel Score) → List Text → List Text → Result (Unit {0})
  check_coverage selected qrels positive_ids small_ids = do
    raise_if (not (is_subset positive_ids small_ids))
        (runtime_error "100K tier does not cover every selected positive qrel")
    raise_if (some_uncovered selected small_ids qrels)
        (runtime_error "100K tier does not cover every positive qrel judgment")

abbrev pub check_tier : ℕ → TierStats → Result (Unit {0})
check_tier max_document_bytes s = do
  raise_if (ltb max_document_bytes s.sums.maximum_prepared_bytes)
      (runtime_error "contains a prepared document over the limit")
  raise_if (not (s.duplicate_rows == 0))
      (runtime_error "published tiers require exactly zero duplicate rows")

unfoldable pub check_tiers : ℕ → TierStats → TierStats → Result (Unit {0})
check_tiers max_document_bytes small large = do
  check_tier max_document_bytes small
  check_tier max_document_bytes large
