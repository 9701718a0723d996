-- ===== src/Prepare/Outputs/Laws.antt =====
-- The files that `write_documents` writes are nested, as `prepare` checks.
use leann_cpp.Prelude.{
  ℕ, zero, suc, ◌<◌, ◌≡◌, refl, sym, ap, ◌∙◌, true, false, List, [], ◌∷◌, length, take, arith,
  ==_self, eq_list_self, All, ok,
}
use leann_cpp.Bytes.{Text}
use leann_cpp.Prepare.Select.{Row, Chosen, is_in, has_duplicates}
use leann_cpp.Prepare.Tiers.{Tiers, TierStats, joined, write_documents}
use leann_cpp.Prepare.Tiers.Written.{write_documents_lem}
use leann_cpp.Prepare.Tiers.Prefix.{write_documents-verify_prefix}
use leann_cpp.Prepare.Tiers.Ids.RoundTrip.{
  IsId, ids_of_rows, take-ids_of_rows, read_id_set-write_documents,
}
use leann_cpp.Prepare.Outputs.{is_subset, check_nesting}

length-ids_of_rows : (rows : List Row) → length (ids_of_rows rows) ≡ length rows
length-ids_of_rows [] = refl
length-ids_of_rows (r ∷ rows) = ap suc (length-ids_of_rows rows)

is_subset-∷ :
    (ts set : List Text) (t : Text) → is_subset ts set ≡ true → is_subset ts (t ∷ set) ≡ true
is_subset-∷ [] set t h = refl
is_subset-∷ (u ∷ ts) set t h =
    let a : is_in u set ≡ true = ground arith in
    let b : is_subset ts set ≡ true = ground arith in let c = is_subset-∷ ts set t b in ground arith

take-is_subset : (n : ℕ) (ts : List Text) → is_subset (take n ts) ts ≡ true
take-is_subset zero ts = refl
take-is_subset (suc n) [] = refl
take-is_subset (suc n) (t ∷ ts) =
    rw (eq_list_self t) (is_subset-∷ (take n ts) ts t (take-is_subset n ts))

module _ (small_count large_count : ℕ) where
  -- If the selected rows have distinct IDs of characters other than tabs and line ends, and the small
  -- tier is not empty, the files that write_documents wrote pass the checks of prepare that the small
  -- tier is nested in the large one, which yield the IDs of both.
  pub check_nesting-write_documents :
      (selected : List Chosen) (corpus : List Row) (t : Tiers) (small_stats large_stats : TierStats)
      → let ids = ids_of_rows (joined selected corpus) in
        All IsId ids
        → has_duplicates ids ≡ false
        → 0 < small_count
        → write_documents small_count large_count selected corpus ≡ ok (t, small_stats, large_stats)
        → check_nesting small_count large_count t ≡ ok (take small_count ids, ids)
  unfolding check_nesting
  check_nesting-write_documents selected corpus t ss ls a d p h =
      let rows = joined selected corpus in
      let ids = ids_of_rows rows in
      let (large, small) = write_documents_lem small_count large_count selected corpus t ss ls h in
      let (v, w) =
        write_documents-verify_prefix small_count large_count selected corpus t ss ls p h in
      let (l, s) =
        read_id_set-write_documents small_count large_count selected corpus t ss ls a d h in
      let m : length ids ≡ large_count = length-ids_of_rows rows ∙ large.0 in
      let n : length (take small_count ids) ≡ small_count =
        ap length (sym (take-ids_of_rows small_count rows))
        ∙ (length-ids_of_rows (take small_count rows) ∙ small.0) in
      rw
        (v, w, s, l, n, m, ==_self small_count, ==_self large_count, take-is_subset small_count ids)
        refl
