-- ===== src/TopK.antt =====
-- The exact top-k of scripts/run_large_scale_benchmark.py: `_select_topk` for one row of scores,
-- and `exact_topk_block` for one query. A score stands for a float32 by its place in the order of
-- the float32 numbers other than NaN, where -0.0 and 0.0 share a place; the scripts let no NaN in.
pub mod Order
pub mod Merge
pub mod Threshold
pub mod Select
pub mod Blocks
use leann_cpp.Prelude.{
  ℕ, zero, suc, ◌+◌, ◌-◌, ◌≤◌, ◌<◌, ◌^◌, min, ◌≡◌, Bool, true, false, ◌&&◌, ◌||◌, List, [], ◌∷◌,
  ◌++◌, map, length, take, drop, All, ltb, leb, ◌==◌, if◌then◌else◌, Result, raise_if, value_error,
  ◌>>◌, ok, err, ◌>>=◌, ◌>>◌,
}
use mathlib.Core.List.{Perm}

pub record Entry : Type 0 where
  pub score : ℕ
  pub id : ℕ

-- Whether `x` may stand before `y`: the higher score first, and of equal scores the lower ID.
abbrev pub before : Entry → Entry → Bool
before x y = ltb y.score x.score || (x.score == y.score && leb x.id y.id)

abbrev pub IsSorted : List Entry → Type 0
IsSorted [] = Unit
IsSorted (x ∷ []) = Unit
IsSorted (x ∷ y ∷ l) = (before x y ≡ true) × IsSorted (y ∷ l)

abbrev pub IsSortedById : List Entry → Type 0
IsSortedById [] = Unit
IsSortedById (x ∷ []) = Unit
IsSortedById (x ∷ y ∷ l) = (x.id ≤ y.id) × IsSortedById (y ∷ l)

-- The numbers from `start` on.
abbrev pub numbers : ℕ → ℕ → List ℕ
numbers start zero = []
numbers start (suc count) = start ∷ numbers (suc start) count

-- What the code uses of NumPy. `partition` is the row gathered by `argpartition`: a permutation
-- whose first `kth` values are at most each of the others. `lexsort` and `argsort` are the
-- candidates gathered by those calls.
pub record NumPy : Type 0 where
  -- `np.arange(start, stop, dtype=np.uint32)`, of which nothing is known when a number does not fit.
  pub arange : ℕ → ℕ → Result (List ℕ)
  pub partition : List ℕ → ℕ → Result (List ℕ)
  pub lexsort : List Entry → List Entry
  pub argsort : List Entry → List Entry
  pub arange_lem :
      (start stop : ℕ) → stop ≤ 2 ^ 32 → arange start stop ≡ ok (numbers start (stop - start))
  pub partition_lem :
      (xs : List ℕ) (kth : ℕ)
      → kth < length xs
      → (p : List ℕ) × (partition xs kth ≡ ok p)
        × Perm p xs
        × All (λ a. All (λ b. a ≤ b) (drop kth p)) (take kth p)
  pub lexsort-IsSorted : (l : List Entry) → IsSorted (lexsort l)
  pub lexsort-perm : (l : List Entry) → Perm (lexsort l) l
  pub argsort-IsSortedById : (l : List Entry) → IsSortedById (argsort l)
  pub argsort-perm : (l : List Entry) → Perm (argsort l) l

abbrev pub keep : (Entry → Bool) → List Entry → List Entry
keep p [] = []
keep p (x ∷ l) = let rest = keep p l in if p x then x ∷ rest else rest

-- `np.min` of an array that is not empty
abbrev pub minimum : List ℕ → ℕ
minimum [] = 0
minimum (x ∷ []) = x
minimum (x ∷ y ∷ l) = min x (minimum (y ∷ l))

-- The corpus rows from `begin` on, with their scores against one query and their numbers as IDs.
abbrev pub entries : (ℕ → ℕ) → ℕ → ℕ → List Entry
entries score begin zero = []
entries score begin (suc count) =
    record { score = score begin; id = begin } ∷ entries score (suc begin) count

-- The scores of a block that begins with this row, with the IDs that `arange` gave.
abbrev pub block_entries : (ℕ → ℕ) → ℕ → List ℕ → List Entry
block_entries score row [] = []
block_entries score row (id ∷ ids) =
    record { score = score row; id = id } ∷ block_entries score (suc row) ids

module _ (N : NumPy) where
  open N use {arange, partition, lexsort, argsort}

  -- The candidates above the threshold, and as many of those at it as are needed, by ID.
  unfoldable pub candidates : ℕ → List Entry → ℕ → List Entry
  candidates taken row threshold =
      let strict = keep (λ e. ltb threshold e.score) row in
      let ties = keep (λ e. e.score == threshold) row in
      strict ++ take (taken - length strict) (argsort ties)

  unfoldable pub select_topk : ℕ → List Entry → Result (List Entry)
  unfolding candidates
  select_topk top_k row =
      let taken = min top_k (length row) in
      if taken == length row then ok (take taken (lexsort row)) else (do
        provisional ← partition (map (λ e. e.score) row) (length row - taken)
        let threshold = minimum (drop (length row - taken) provisional)
        ok (take taken (lexsort (candidates taken row threshold))))

  -- The loop over the corpus blocks. `rows` of the corpus are left; fuel bounds the rounds.
  unfoldable pub topk_from : ℕ → (ℕ → ℕ) → ℕ → ℕ → ℕ → ℕ → List Entry → Result (List Entry)
  topk_from fuel score top_k block_rows begin zero best = ok best
  topk_from zero score top_k block_rows begin (suc left) best = ok best
  topk_from (suc fuel) score top_k block_rows begin (suc left) best = do
    let rows = min block_rows (suc left)
    ids ← arange begin (begin + rows)
    local ← select_topk top_k (block_entries score begin ids)
    best' ← select_topk top_k (best ++ local)
    topk_from fuel score top_k block_rows (begin + rows) (suc left - rows) best'

  unfoldable pub exact_topk_block : (ℕ → ℕ) → ℕ → ℕ → ℕ → Result (List ℕ)
  unfolding topk_from
  exact_topk_block score corpus_rows top_k block_rows = do
    raise_if (block_rows == 0) (value_error "range() arg 3 must not be zero")
    best ← topk_from corpus_rows score top_k block_rows 0 corpus_rows []
    ok (map (λ e. e.id) best)
