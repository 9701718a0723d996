-- ===== src/Examples/Selection.antt =====
-- The selection of the best documents of a row and of a corpus.
use leann_cpp.Prelude.{ℕ, ◌≡◌, refl, List, [], ◌∷◌, arith, map, ◌==◌, if◌then◌else◌, ok}
use leann_cpp.TopK.{Entry, entries, select_topk, exact_topk_block}
use leann_cpp.TopK.Order.{sort, topk}
use leann_cpp.TopK.Blocks.{select_topk_lem, exact_topk_block_lem}
use leann_cpp.Examples.Instances.{toy_numpy}

abbrev scores : ℕ → ℕ
scores i = if i == 3 then 9 else (if i == 0 then 1 else (if i == 4 then 1 else 5))

abbrev row : List Entry
row = entries scores 0 6

select_topk_example : select_topk toy_numpy 3 row ≡ ok (topk 3 row)
select_topk_example = select_topk_lem toy_numpy 3 row (omega arith)

exact_topk_block_example :
    exact_topk_block toy_numpy scores 6 3 2 ≡ ok (map (λ e. e.id) (topk 3 (entries scores 0 6)))
exact_topk_block_example =
    exact_topk_block_lem toy_numpy scores 6 3 2 (omega arith) (omega arith) (omega arith)

ties_by_id : exact_topk_block toy_numpy scores 6 3 2 ≡ ok (3 ∷ 1 ∷ 2 ∷ [])
unfolding exact_topk_block select_topk sort
ties_by_id = refl
