-- ===== src/TopK/Blocks.antt =====
-- The loop over corpus blocks returns the exact top-k, whatever the size of the blocks.
use leann_cpp.Prelude.{
  ℕ, zero, suc, ◌+◌, ◌-◌, ◌^◌, ◌≤◌, ◌<◌, min, ◌≡◌, ◌≢◌, refl, ◌∙◌, sym, ap, true, false, List, [],
  ◌∷◌, ◌++◌, map, arith, length, take, drop, All, ◌==◌, ==_iff, take-append-drop, length-drop,
  length-map, take-of_length, ok, Bool-cases, inl, inr,
}
use mathlib.Core.List.{Perm}
use native.Mathlib.Nat.{le_refl}
use leann_cpp.TopK.{
  Entry, NumPy, numbers, block_entries, minimum, candidates, select_topk, entries, topk_from,
  exact_topk_block,
}
use leann_cpp.TopK.Order.{sort, topk}
use leann_cpp.TopK.Merge.{topk-append}
use leann_cpp.TopK.Threshold.{count_if, length-keep, threshold_counts, count_if-perm}
use leann_cpp.TopK.Select.{length-sort, is_above, is_level, lexsort-sort, take-candidates}

abbrev scores : List Entry → List ℕ
scores row = map (λ e. e.score) row

count_all : (l : List ℕ) → count_if (λ x. true) l ≡ length l
count_all [] = refl
count_all (x ∷ l) = omega (arith, count_all l)

perm-length : (p xs : List ℕ) → Perm p xs → length p ≡ length xs
perm-length p xs h = sym (count_all p) ∙ count_if-perm (λ x. true) p xs h ∙ count_all xs

topk-nil : (k : ℕ) → topk k [] ≡ []
unfolding topk
topk-nil zero = refl
topk-nil (suc k) = refl

module _ (N : NumPy) where
  open N use {arange, arange_lem, partition, lexsort, partition_lem}

  -- The cut of the row by a partition keeps enough, and not too many, entries.
  take-candidates_partition :
      (k : ℕ) (row : List Entry) (p : List ℕ)
      → 0 < k
      → k ≤ length row
      → Perm p (scores row)
      → length p ≡ length row
      → All (λ a. All (λ b. a ≤ b) (drop (length row - k) p)) (take (length row - k) p)
      → take k (lexsort (candidates N k row (minimum (drop (length row - k) p))))
        ≡ take k (sort row)
  take-candidates_partition k row p pos le perm same ordered =
      let cut = length row - k in
      let t = minimum (drop cut p) in
      let long : length (drop cut p) ≡ k = omega (arith, length-drop cut p) in
      let filled : drop cut p ≢ [] = λ e. absurd (omega (arith, ap length e)) in
      let (few, many) =
        threshold_counts (take cut p) (drop cut p) (scores row) filled
          (rw (take-append-drop cut p) perm) ordered in
      let strict = length-keep (λ x. is_above t (record { score = x; id = 0 })) row in
      let ties = length-keep (λ x. is_level t (record { score = x; id = 0 })) row in
      take-candidates N t row k (omega (arith, few, strict, long))
        (omega (arith, many, strict, ties, long))

  -- One row: the selection by threshold returns the first `top_k` entries of the sorted row.
  pub select_topk_lem :
      (top_k : ℕ) (row : List Entry) → 0 < top_k → select_topk N top_k row ≡ ok (topk top_k row)
  unfolding select_topk topk
  select_topk_lem top_k row pos = elim (Bool-cases (min top_k (length row) == length row)) [
    | inl whole ↦
        let e : min top_k (length row) ≡ length row = (==_iff _ _).0 whole in
        rw whole (
          ap ok (
            rw e (
              ap (take (length row)) (lexsort-sort N row)
              ∙ take-of_length (length row) (sort row) (omega (arith, length-sort row))
              ∙ sym (take-of_length top_k (sort row) (omega (arith, length-sort row, e))))))
    | inr part ↦
        let e : min top_k (length row) ≡ top_k = ground arith in
        let le : top_k ≤ length row = omega arith in
        let (p, found, perm, ordered) =
          partition_lem (scores row) (length row - top_k)
            (omega (arith, length-map row (λ x. x.score))) in
        let same = perm-length p (scores row) perm ∙ length-map row (λ x. x.score) in
        rw part
          (rw (e, found) (ap ok (take-candidates_partition top_k row p pos le perm same ordered)))
  ]

  entries-append :
      (score : ℕ → ℕ) (m n begin : ℕ)
      → entries score begin (m + n) ≡ entries score begin m ++ entries score (begin + m) n
  entries-append score zero n begin =
      let a : 0 + n ≡ n = omega arith in let b : begin + 0 ≡ begin = omega arith in rw (a, b)
  entries-append score (suc m) n begin =
      let a : suc m + n ≡ suc (m + n) = omega arith in
      let b : suc begin + m ≡ begin + suc m = omega arith in
      rw a (
        ap (λ r. record { score = score begin; id = begin } ∷ r)
          (entries-append score m n (suc begin)
            ∙ ap (λ (k : ℕ). entries score (suc begin) m ++ entries score k n) b))

  block_entries-numbers :
      (score : ℕ → ℕ) (begin count : ℕ)
      → block_entries score begin (numbers begin count) ≡ entries score begin count
  block_entries-numbers score begin zero = refl
  block_entries-numbers score begin (suc count) =
      ap (λ (l : List Entry). record { score = score begin; id = begin } ∷ l)
        (block_entries-numbers score (suc begin) count)

  arange_rows :
      (begin rows : ℕ)
      → begin + rows ≤ 2 ^ 32
      → arange begin (begin + rows) ≡ ok (numbers begin rows)
  arange_rows begin rows h =
      let e : begin + rows - begin ≡ rows = omega arith in
      arange_lem begin (begin + rows) h ∙ ap (λ (k : ℕ). ok (numbers begin k)) e

  topk_from_lem :
      (fuel : ℕ) (score : ℕ → ℕ) (top_k block_rows begin left : ℕ)
      → 0 < top_k
      → 0 < block_rows
      → left ≤ fuel
      → begin + left ≤ 2 ^ 32
      → topk_from N fuel score top_k block_rows begin left (topk top_k (entries score 0 begin))
        ≡ ok (topk top_k (entries score 0 (begin + left)))
  unfolding topk_from
  topk_from_lem fuel score k block begin zero pk pb h small =
      let e : begin + 0 ≡ begin = omega arith in rw e
  topk_from_lem zero score k block begin (suc left) pk pb h small = absurd (omega arith)
  topk_from_lem (suc fuel) score k block begin (suc left) pk pb h small =
      let rows = min block (suc left) in
      let here = entries score begin rows in
      rw
        (
          arange_rows begin rows (omega (arith, small)),
          block_entries-numbers score begin rows,
          select_topk_lem k here pk,
          select_topk_lem k (topk k (entries score 0 begin) ++ topk k here) pk,
          topk-append k (entries score 0 begin) here,
          joined score begin rows,
          topk_from_lem fuel score k block (begin + rows) (suc left - rows) pk pb (omega arith)
              (omega (arith, small)),
        )
        (let last : begin + rows + (suc left - rows) ≡ begin + suc left = omega arith in rw last)
    where
      joined : (s : ℕ → ℕ) (b n : ℕ) → entries s 0 b ++ entries s b n ≡ entries s 0 (b + n)
      joined s b n =
          let e : 0 + b ≡ b = omega arith in
          sym (entries-append s b n 0 ∙ ap (λ (m : ℕ). entries s 0 b ++ entries s m n) e)

  -- With positive `top_k` and block size, and a corpus of at most 2^32 rows, whose numbers fit the
  -- uint32 of the IDs, the loop over corpus blocks returns the IDs of the first
  -- `top_k` entries of the whole corpus, sorted by score descending and ID ascending on ties: the
  -- size of the blocks makes no difference.
  pub exact_topk_block_lem :
      (score : ℕ → ℕ) (corpus_rows top_k block_rows : ℕ)
      → 0 < top_k
      → 0 < block_rows
      → corpus_rows ≤ 2 ^ 32
      → exact_topk_block N score corpus_rows top_k block_rows
        ≡ ok (map (λ e. e.id) (topk top_k (entries score 0 corpus_rows)))
  unfolding exact_topk_block
  exact_topk_block_lem score n k block pk pb small =
      let off : (block == 0) ≡ false = ground arith in
      let e : 0 + n ≡ n = omega arith in
      rw (
        off,
        start k,
        topk_from_lem n score k block 0 n pk pb (le_refl n) (omega (arith, small)),
        e,
      )
    where
      start : (m : ℕ) → ◌≡◌ {A = List Entry} [] (topk m (entries score 0 0))
      start m = sym (topk-nil m)
