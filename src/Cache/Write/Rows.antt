-- ===== src/Cache/Write/Rows.antt =====
-- The bytes of a matrix, and the matrix read from them.
use leann_cpp.Prelude.{
  ℕ, ◌*◌, ◌≡◌, refl, ◌∙◌, ap, List, [], ◌∷◌, ◌++◌, append_assoc, map, arith, length, All,
  length-append, take-append, drop-append,
}
use leann_cpp.Bytes.{Bytes}
use leann_cpp.Platform.{Digest, Float32}
use leann_cpp.Cache.Read.{read_row, read_rows}
use leann_cpp.Cache.Write.{row_bytes, matrix_bytes}

module _ (D : Digest) (F : Float32) where
  open F use {
    Scalar, is_finite, is_tiny, norm, to_bytes, of_bytes, length-to_bytes, of_bytes-to_bytes,
  }

  pub length-row_bytes : (row : List Scalar) → length (row_bytes D F row) ≡ length row * 4
  unfolding row_bytes
  length-row_bytes [] = refl
  length-row_bytes (x ∷ xs) =
      omega (
        arith,
        length-append (to_bytes x) (row_bytes D F xs),
        length-to_bytes x,
        length-row_bytes xs,
      )

  pub read_row-row_bytes :
      (row : List Scalar) (rest : Bytes) → read_row F (length row) (row_bytes D F row ++ rest) ≡ row
  unfolding read_row row_bytes
  read_row-row_bytes [] rest = refl
  read_row-row_bytes (x ∷ xs) rest = rw (
    append_assoc (to_bytes x) (row_bytes D F xs) rest,
    take-append 4 (to_bytes x) (row_bytes D F xs ++ rest) (length-to_bytes x),
    drop-append 4 (to_bytes x) (row_bytes D F xs ++ rest) (length-to_bytes x),
    of_bytes-to_bytes x,
    read_row-row_bytes xs rest,
  )

  pub read_rows-matrix_bytes :
      (w : ℕ) (rows : List (List Scalar))
      → All (λ row. length row ≡ w) rows
      → read_rows F (length rows) w (matrix_bytes D F rows) ≡ rows
  unfolding read_rows matrix_bytes
  read_rows-matrix_bytes w [] h = refl
  read_rows-matrix_bytes w (row ∷ rows) (e, h) =
      rw
        (
          ← e,
          read_row-row_bytes row (matrix_bytes D F rows),
          drop-append (length row * 4) (row_bytes D F row) (matrix_bytes D F rows)
              (length-row_bytes row),
        )
        (ap (λ r. row ∷ r) (read_rows-matrix_bytes (length row) rows (rw e h)))

  pub length-matrix_bytes :
      (w : ℕ) (rows : List (List Scalar))
      → All (λ row. length row ≡ w) rows
      → length (matrix_bytes D F rows) ≡ length rows * w * 4
  unfolding matrix_bytes
  length-matrix_bytes w [] h = omega arith
  length-matrix_bytes w (row ∷ rows) (e, h) =
      let q : length row * 4 ≡ w * 4 = ap (λ (k : ℕ). k * 4) e in
      omega (
        arith,
        length-append (row_bytes D F row) (matrix_bytes D F rows),
        length-row_bytes row,
        q,
        length-matrix_bytes w rows h,
      )

  pub All-map-length :
      (w : ℕ) (f : List Scalar → List Scalar) (rows : List (List Scalar))
      → ((row : List Scalar) → length (f row) ≡ length row)
      → All (λ row. length row ≡ w) rows
      → All (λ row. length row ≡ w) (map f rows)
  All-map-length w f [] keep h = tt
  All-map-length w f (row ∷ rows) keep (e, h) = (keep row ∙ e, All-map-length w f rows keep h)
