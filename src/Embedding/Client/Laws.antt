-- ===== src/Embedding/Client/Laws.antt =====
-- What a response is read as.
use leann_cpp.Prelude.{
  ok-injective, ℕ, zero, suc, ◌≡◌, ◌⊎◌, inl, inr, refl, ap, subst, ◌∙◌, true, false, not, ◌||◌,
  Option, none, some, List, [], ◌∷◌, map, length, length-map, All, arith, leb, ◌==◌, Bool-cases,
  Option-cases, Result, ok, err, Error, value_error, >>=-eq-ok, raise_if-eq-ok,
}
use leann_cpp.GroundTruth.Words.{ℤ, pos, negsuc}
use leann_cpp.Platform.{Float32}
use leann_cpp.Cache.Matrix.{Matrix, normalize_vectors, scale, validate_vector_matrix}
use leann_cpp.Cache.Matrix.Laws.{normalize_vectors-eq-ok}
use leann_cpp.Embedding.Client.{
  Item, ByIndex, lookup_index, has_index, index_of, collect, rows_from, all_of_length, as_matrix,
  differs_from, read_response,
}

module _ (F : Float32) where
  open F use {Scalar}

  -- One of the items has this index and this embedding.
  abbrev pub Answers : List (Item F) → ℕ → List Scalar → Type 0
  Answers [] i row = ⊥
  Answers (item ∷ items) i row =
      ((item.index ≡ some (pos i)) × (item.embedding ≡ some row)) ⊎ Answers items i row

  -- Rows from the index `i` on.
  abbrev pub AnswersFrom : List (Item F) → ℕ → List (List Scalar) → Type 0
  AnswersFrom items i [] = Unit
  AnswersFrom items i (row ∷ rows) = Answers items i row × AnswersFrom items (suc i) rows

  -- What is found under an index comes from an item, or was there before.
  Found : List (Item F) → ByIndex F → ByIndex F → Type 0
  Found items before by_index =
      (i : ℕ) (row : List Scalar)
      → lookup_index F i by_index ≡ some (some row)
      → Answers items i row ⊎ (lookup_index F i before ≡ some (some row))

  index_of-eq-ok :
      (count : ℕ) (by_index : ByIndex F) (o : Option ℤ) (i : ℕ)
      → index_of F count by_index o ≡ ok i
      → o ≡ some (pos i)
  unfolding index_of
  index_of-eq-ok count by_index none i h = cc
  index_of-eq-ok count by_index (some (negsuc n)) i h = cc
  index_of-eq-ok count by_index (some (pos j)) i h =
      let (t, h1) =
        raise_if-eq-ok (has_index F j by_index || leb count j)
          (value_error "embedding response indices are not a permutation") _ h in
      ap (λ (k : ℕ). some (pos k)) (ok-injective _ _ h1)

  collect-Found :
      (count : ℕ) (items : List (Item F)) (before out : ByIndex F)
      → collect F count items before ≡ ok out
      → Found items before out
  unfolding collect Found
  collect-Found count [] before out h i row e = inr (rw (ok-injective _ _ h) e)
  collect-Found count (item ∷ items) before out h i row e =
      let (j, e1, h1) = >>=-eq-ok (index_of F count before item.index) _ h in
      elim (collect-Found count items ((j, item.embedding) ∷ before) out h1 i row e) [
        | inl after ↦ inl (inr after)
        | inr now ↦ here j (index_of-eq-ok count before item.index j e1) now (Bool-cases (j == i))
      ]
    where
      here :
          (j : ℕ)
          → item.index ≡ some (pos j)
          → lookup_index F i ((j, item.embedding) ∷ before) ≡ some (some row)
          → ((j == i) ≡ true) ⊎ ((j == i) ≡ false)
          → Answers (item ∷ items) i row ⊎ (lookup_index F i before ≡ some (some row))
      here j k now (inl same) =
          let now' : some item.embedding ≡ some (some row) = rw (same, lookup_index) at now in
          let e : j ≡ i = ground arith in inl (inl (k ∙ ap (λ (n : ℕ). some (pos n)) e, cc))
      here j k now (inr other) = inr (rw (other, lookup_index) at now)

  rows_from-eq-ok :
      (items : List (Item F)) (by_index : ByIndex F) (i left : ℕ) (rows : List (List Scalar))
      → Found items [] by_index
      → rows_from F i left by_index ≡ ok rows
      → (length rows ≡ left) × AnswersFrom items i rows
  unfolding rows_from Found
  rows_from-eq-ok items by_index i zero rows f h =
      subst (λ (r : List (List Scalar)). (length r ≡ 0) × AnswersFrom items i r)
        (ok-injective _ _ h) (refl, tt)
  rows_from-eq-ok items by_index i (suc left) rows f h =
      elim (Option-cases (lookup_index F i by_index)) [
        | inl missing ↦ absurd (no_rows (rw (missing, rows_from) at h))
        | inr (none, empty) ↦ absurd (no_rows (rw (empty, rows_from) at h))
        | inr (some row, found) ↦
            let (rest, e, h1) =
              >>=-eq-ok (rows_from F (suc i) left by_index) _ (rw (found, rows_from) at h) in
            let (l, a) = rows_from-eq-ok items by_index (suc i) left rest f e in
            subst (λ (r : List (List Scalar)). (length r ≡ suc left) × AnswersFrom items i r)
              (ok-injective _ _ h1) (ap suc l, (answer row (f i row found), a))
      ]
    where
      no_rows : {e : Error} → ◌≡◌ {A = Result (List (List Scalar))} (err e) (ok rows) → ⊥
      no_rows h = cc

      answer :
          (row : List Scalar)
          → Answers items i row ⊎ (lookup_index F i [] ≡ some (some row))
          → Answers items i row
      answer row (inl a) = a
      answer row (inr e) = cc

  -- Every row has the matrix's width.
  rows_of_length :
      (width : ℕ) (rows : List (List Scalar))
      → all_of_length F width rows ≡ true
      → All (λ row. length row ≡ width) rows
  rows_of_length width [] h = tt
  rows_of_length width (row ∷ rows) h = (ground arith, rows_of_length width rows (ground arith))

  as_matrix-eq-ok :
      (rows : List (List Scalar)) (m : Matrix Scalar)
      → as_matrix F rows ≡ ok m
      → (m.rows ≡ rows) × All (λ row. length row ≡ m.width) m.rows
  unfolding as_matrix
  as_matrix-eq-ok [] m h =
      subst (λ (k : Matrix Scalar). (k.rows ≡ []) × All (λ row. length row ≡ k.width) k.rows)
        (ok-injective _ _ h) (refl, tt)
  as_matrix-eq-ok (row ∷ rows) m h =
      let (t, h1) =
        raise_if-eq-ok (not (all_of_length F (length row) rows)) (value_error "inhomogeneous shape")
          _ h in
      subst (λ (k : Matrix Scalar). (k.rows ≡ row ∷ rows) × All (λ r. length r ≡ k.width) k.rows)
        (ok-injective _ _ h1) (refl, (refl, rows_of_length (length row) rows (ground arith)))

  length-scale :
      (width : ℕ) (rows : List (List Scalar))
      → All (λ row. length row ≡ width) rows
      → All (λ row. length row ≡ width) (map (scale F) rows)
  length-scale width [] h = tt
  length-scale width (row ∷ rows) (e, h) = (length-map row _ ∙ e, length-scale width rows h)

  -- Unit vectors of the dimension that was expected, for the texts in their order.
  abbrev pub IsEmbedding : ℕ → Option ℕ → List (Item F) → Matrix Scalar → Type 0
  IsEmbedding count expected items m =
      (length m.rows ≡ count)
      × All (λ row. length row ≡ m.width) m.rows
      × (validate_vector_matrix F true 8192 m ≡ ok tt)
      × (differs_from F expected m.width ≡ false)
      × (raw : List (List Scalar)) × (m.rows ≡ map (scale F) raw)
      × AnswersFrom items 0 raw

  pub read_response-IsEmbedding :
      (count : ℕ) (expected : Option ℕ) (items : List (Item F)) (m : Matrix Scalar)
      → read_response F count expected (some items) ≡ ok m
      → IsEmbedding count expected items m
  unfolding read_response Found
  read_response-IsEmbedding count expected items m h =
      let (c, h1) =
        raise_if-eq-ok (not (length items == count))
          (value_error "embedding endpoint returned the wrong row count") _ h in
      let (by_index, e2, h2) = >>=-eq-ok (collect F count items []) _ h1 in
      let (rows, e3, h3) = >>=-eq-ok (rows_from F 0 count by_index) _ h2 in
      let (raw, e4, h4) = >>=-eq-ok (as_matrix F rows) _ h3 in
      let (matrix, e5, h5) = >>=-eq-ok (normalize_vectors F raw) _ h4 in
      let (d, h6) =
        raise_if-eq-ok (differs_from F expected matrix.width)
          (value_error "embedding dimension changed") _ h5 in
      let (same, valid) = normalize_vectors-eq-ok F raw matrix e5 in
      let (l, a) =
        rows_from-eq-ok items by_index 0 count rows (collect-Found count items [] by_index e2) e3 in
      let (r, w) = as_matrix-eq-ok rows raw e4 in
      let rows_same : matrix.rows ≡ map (scale F) rows =
        ap (λ (k : Matrix Scalar). k.rows) same ∙ ap (map (scale F)) r in
      subst (IsEmbedding count expected items) (ok-injective _ _ h6) (
        ap length rows_same ∙ (length-map rows _ ∙ l),
        rw same (length-scale raw.width raw.rows w),
        valid,
        d,
        rows,
        rows_same,
        a,
      )
