-- ===== src/Generate/Answers.antt =====
-- The rows of a ground truth: the answers that `exact_topk_block` gives, and that they fit.
use leann_cpp.Prelude.{
  ℕ, zero, suc, ◌+◌, ◌^◌, ◌≤◌, ◌<◌, ◌≡◌, refl, ◌∙◌, ap, false, ◌||◌, List, [], ◌∷◌, map, arith,
  length, length-map, length-take, take, All, All-take, ◌==◌, Bool-cases, inl, inr,
}
use leann_cpp.TopK.{Entry, entries, before}
use leann_cpp.TopK.Order.{insert, insert_here, insert_later, insert_nil, sort, topk}
use leann_cpp.TopK.Select.{length-sort}
use leann_cpp.GroundTruth.{Dimensions, mem}
use leann_cpp.GroundTruth.Laws.{AreDistinct, IsRow, AreDimensions}

abbrev pub ids_of : List Entry → List ℕ
ids_of l = map (λ e. e.id) l

mem-insert :
    (x : ℕ) (e : Entry) (l : List Entry)
    → mem x (ids_of (insert e l)) ≡ (x == e.id || mem x (ids_of l))
mem-insert x e [] = rw insert_nil refl
mem-insert x e (y ∷ l) = elim (Bool-cases (before e y)) [
  | inl h ↦ rw (insert_here e y l h) refl
  | inr h ↦ rw (insert_later e y l h) (ground (arith, mem-insert x e l))
]

insert-AreDistinct :
    (e : Entry) (l : List Entry)
    → mem e.id (ids_of l) ≡ false
    → AreDistinct (ids_of l)
    → AreDistinct (ids_of (insert e l))
insert-AreDistinct e [] h d = rw insert_nil (refl, tt)
insert-AreDistinct e (y ∷ l) h (m, d) = elim (Bool-cases (before e y)) [
  | inl b ↦ rw (insert_here e y l b) (h, (m, d))
  | inr b ↦
      rw (insert_later e y l b)
        (mem-insert y.id e l ∙ ground arith, insert-AreDistinct e l (ground arith) d)
]

mem-sort : (x : ℕ) (l : List Entry) → mem x (ids_of (sort l)) ≡ mem x (ids_of l)
unfolding sort
mem-sort x [] = refl
mem-sort x (e ∷ l) = mem-insert x e (sort l) ∙ ap (λ b. x == e.id || b) (mem-sort x l)

sort-AreDistinct : (l : List Entry) → AreDistinct (ids_of l) → AreDistinct (ids_of (sort l))
unfolding sort
sort-AreDistinct [] d = tt
sort-AreDistinct (e ∷ l) (m, d) =
    insert-AreDistinct e (sort l) (mem-sort e.id l ∙ m) (sort-AreDistinct l d)

module _ (n : ℕ) where
  insert-below :
      (e : Entry) (l : List Entry)
      → e.id < n
      → All (λ i. i < n) (ids_of l)
      → All (λ i. i < n) (ids_of (insert e l))
  insert-below e [] h k = rw insert_nil (h, tt)
  insert-below e (y ∷ l) h (p, k) = elim (Bool-cases (before e y)) [
    | inl b ↦ rw (insert_here e y l b) (h, (p, k))
    | inr b ↦ rw (insert_later e y l b) (p, insert-below e l h k)
  ]

  sort-below : (l : List Entry) → All (λ i. i < n) (ids_of l) → All (λ i. i < n) (ids_of (sort l))
  unfolding sort
  sort-below [] h = tt
  sort-below (e ∷ l) (p, h) = insert-below e (sort l) p (sort-below l h)

  entries-below :
      (s : ℕ → ℕ) (b count : ℕ) → b + count ≤ n → All (λ i. i < n) (ids_of (entries s b count))
  entries-below s b zero h = tt
  entries-below s b (suc count) h = (omega arith, entries-below s (suc b) count (omega arith))

mem-entries : (s : ℕ → ℕ) (x b count : ℕ) → x < b → mem x (ids_of (entries s b count)) ≡ false
mem-entries s x b zero h = refl
mem-entries s x b (suc count) h = ground (arith, mem-entries s x (suc b) count (omega arith))

entries-AreDistinct : (s : ℕ → ℕ) (b count : ℕ) → AreDistinct (ids_of (entries s b count))
entries-AreDistinct s b zero = tt
entries-AreDistinct s b (suc count) =
    (mem-entries s b (suc b) count (omega arith), entries-AreDistinct s (suc b) count)

length-entries : (s : ℕ → ℕ) (b count : ℕ) → length (entries s b count) ≡ count
length-entries s b zero = refl
length-entries s b (suc count) = ap suc (length-entries s (suc b) count)

mem-take : (x k : ℕ) (l : List ℕ) → mem x l ≡ false → mem x (take k l) ≡ false
mem-take x zero l h = refl
mem-take x (suc k) [] h = refl
mem-take x (suc k) (y ∷ l) h = ground (arith, mem-take x k l)

take-AreDistinct : (k : ℕ) (l : List ℕ) → AreDistinct l → AreDistinct (take k l)
take-AreDistinct zero l d = tt
take-AreDistinct (suc k) [] d = tt
take-AreDistinct (suc k) (x ∷ l) (m, d) = (mem-take x k l m, take-AreDistinct k l d)

map-take : (k : ℕ) (l : List Entry) → ids_of (take k l) ≡ take k (ids_of l)
map-take zero l = refl
map-take (suc k) [] = refl
map-take (suc k) (e ∷ l) = ap (λ (t : List ℕ). e.id ∷ t) (map-take k l)

-- The IDs of the best entries of the whole corpus.
unfoldable pub answer : Dimensions → (ℕ → ℕ) → List ℕ
answer d score = ids_of (topk d.top_k (entries score 0 d.corpus_count))

All-below : (n m : ℕ) (l : List ℕ) → n ≤ m → All (λ i. i < n) l → All (λ i. i < m) l
All-below n m [] h k = tt
All-below n m (x ∷ l) h (p, k) = (omega arith, All-below n m l h k)

-- As long as the IDs of the corpus fit uint32.
pub answer-IsRow :
    (d : Dimensions) (score : ℕ → ℕ)
    → AreDimensions d
    → d.corpus_count ≤ 2 ^ 32
    → IsRow d (answer d score)
unfolding answer topk
answer-IsRow d score (q, k, n) small =
    let all = entries score 0 d.corpus_count in
    let e = map-take d.top_k (sort all) in
    let below =
      All-take (λ i. i < d.corpus_count) d.top_k _
        (sort-below d.corpus_count all
          (entries-below d.corpus_count score 0 d.corpus_count (omega arith))) in
    (
      omega (
        arith,
        length-map (take d.top_k (sort all)) (λ e. e.id),
        length-take d.top_k (sort all),
        length-sort all,
        length-entries score 0 d.corpus_count,
      ),
      rw e below,
      rw e (
          take-AreDistinct d.top_k _
            (sort-AreDistinct all (entries-AreDistinct score 0 d.corpus_count))),
      rw e (All-below d.corpus_count (2 ^ 32) _ small below),
    )
