-- ===== src/Embedding/Client.antt =====
-- `EmbeddingClient.embed` of scripts/run_large_scale_benchmark.py. What comes of each attempt is
-- given: the payload of a response, an HTTP error, or a failure of the network.
pub mod Laws
pub mod Retries
use leann_cpp.Prelude.{
  ℕ, zero, suc, ◌+◌, Bool, true, false, not, ◌&&◌, ◌||◌, Option, none, some, List, [], ◌∷◌, length,
  ltb, leb, ◌==◌, if◌then◌else◌, Result, ok, err, Error, value_error, runtime_error, ◌>>=◌, ◌>>◌,
  raise_if,
}
use leann_cpp.Bytes.{Text}
use leann_cpp.GroundTruth.Words.{ℤ, pos, negsuc}
use leann_cpp.Platform.{Float32}
use leann_cpp.Cache.Matrix.{Matrix, normalize_vectors}

module _ (F : Float32) where
  open F use {Scalar}

  -- An item of `data`: its "index", if that is an integer, and its "embedding", if that is a list of
  -- numbers.
  pub record Item : Type 0 where
    pub index : Option ℤ
    pub embedding : Option (List Scalar)

  -- `items` is the list under "data", if there is one; an item that is no object has no index.
  pub data Attempt : Type 0 where
    response : Option (List Item) → Attempt
    http_error : ℕ → Attempt
    network_error : Attempt

  abbrev pub ByIndex : Type 0
  ByIndex = List (ℕ × Option (List Scalar))

  abbrev pub lookup_index : ℕ → ByIndex → Option (Option (List Scalar))
  lookup_index i [] = none
  lookup_index i ((j, e) ∷ by_index) =
      let rest = lookup_index i by_index in if j == i then some e else rest

  abbrev pub has_index : ℕ → ByIndex → Bool
  has_index i by_index = elim (lookup_index i by_index) [ none ↦ false | some e ↦ true ]

  unfoldable pub index_of : ℕ → ByIndex → Option ℤ → Result ℕ
  index_of count by_index none = err (value_error "embedding response has an invalid index")
  index_of count by_index (some (negsuc n)) =
      err (value_error "embedding response indices are not a permutation")
  index_of count by_index (some (pos i)) = do
    raise_if (has_index i by_index || leb count i)
        (value_error "embedding response indices are not a permutation")
    ok i

  unfoldable pub collect : ℕ → List Item → ByIndex → Result ByIndex
  collect count [] by_index = ok by_index
  collect count (item ∷ items) by_index = do
    i ← index_of count by_index item.index
    collect count items ((i, item.embedding) ∷ by_index)

  -- `by_index[index] for index in range(…)`, of which each has to be there and be a vector; the
  -- indices left to take begin with `i`.
  unfoldable pub rows_from : ℕ → ℕ → ByIndex → Result (List (List Scalar))
  rows_from i zero by_index = ok []
  rows_from i (suc left) by_index = elim (lookup_index i by_index) [
    | none ↦ err (value_error "embedding response indices are incomplete")
    | some none ↦ err (value_error "embedding response must be a non-empty rank-2 matrix")
    | some (some row) ↦ do rows ← rows_from (suc i) left by_index; ok (row ∷ rows)
  ]

  abbrev pub all_of_length : ℕ → List (List Scalar) → Bool
  all_of_length width [] = true
  all_of_length width (row ∷ rows) = length row == width && all_of_length width rows

  -- `np.asarray(rows, dtype=np.float32)`, which refuses rows of several lengths.
  unfoldable pub as_matrix : List (List Scalar) → Result (Matrix Scalar)
  as_matrix [] = ok (record { width = 0; rows = [] })
  as_matrix (row ∷ rows) = do
    raise_if (not (all_of_length (length row) rows)) (value_error "inhomogeneous shape")
    ok (record { width = length row; rows = row ∷ rows })

  abbrev pub differs_from : Option ℕ → ℕ → Bool
  differs_from none width = false
  differs_from (some d) width = not (width == d)

  -- A payload with a list of as many items as texts that were sent.
  unfoldable pub read_response : ℕ → Option ℕ → Option (List Item) → Result (Matrix Scalar)
  read_response count expected_dimension none =
      err (value_error "embedding endpoint returned the wrong row count")
  read_response count expected_dimension (some items) = do
    raise_if (not (length items == count))
        (value_error "embedding endpoint returned the wrong row count")
    by_index ← collect count items []
    rows ← rows_from 0 count by_index
    raw ← as_matrix rows
    matrix ← normalize_vectors F raw
    raise_if (differs_from expected_dimension matrix.width)
        (value_error "embedding dimension changed")
    ok matrix

  abbrev pub is_retryable : ℕ → Bool
  is_retryable code = code == 429 || (leb 500 code && ltb code 600)

  -- `for attempt in range(self.retries + 1)`, with this many retries left; attempts have numbers.
  unfoldable pub attempts : (ℕ → Attempt) → ℕ → Option ℕ → ℕ → ℕ → Result (Matrix Scalar)
  attempts answer count expected attempt zero = elim (answer attempt) [
    | response payload ↦ read_response count expected payload
    | http_error code ↦ err (runtime_error "embedding HTTP error")
    | network_error ↦ err (runtime_error "embedding request failed")
  ]
  attempts answer count expected attempt (suc left) = elim (answer attempt) [
    | response payload ↦ read_response count expected payload
    | http_error code ↦ elim (is_retryable code) [
      | true ↦ attempts answer count expected (suc attempt) left
      | false ↦ err (runtime_error "embedding HTTP error")
    ]
    | network_error ↦ attempts answer count expected (suc attempt) left
  ]

  unfoldable pub embed : (ℕ → Attempt) → ℕ → List Text → Option ℕ → Result (Matrix Scalar)
  embed answer retries texts expected_dimension = do
    raise_if (length texts == 0) (value_error "cannot request an empty embedding batch")
    attempts answer (length texts) expected_dimension 0 retries
