-- ===== src/Cache/Matrix.antt =====
-- `validate_vector_matrix` and `normalize_vectors`. A matrix is its list of rows and its width.
pub mod Laws
use leann_cpp.Prelude.{
  ℕ, zero, suc, Bool, true, false, ◌&&◌, ◌||◌, not, List, [], ◌∷◌, map, length, all, take, drop,
  ◌==◌, if◌then◌else◌, Result, ok, err, Error, value_error, ◌>>=◌, ◌>>◌, raise_if,
}
use leann_cpp.Platform.{Float32}

pub record Matrix (A : Type 0) : Type 0 where
  pub width : ℕ
  pub rows : List (List A)

module _ (F : Float32) where
  open F use {Scalar, is_finite, norm, is_tiny, is_off_unit, divide}

  -- The three tests on one block of rows.
  pub check_block : Bool → List (List Scalar) → Result (Unit {0})
  check_block require_unit block = do
    raise_if (not (all (all is_finite) block)) (value_error "NaN or infinity in rows")
    raise_if (not (all (λ row. not (is_tiny (norm row))) block)) (value_error "zero-length vector")
    raise_if (require_unit && not (all (λ row. not (is_off_unit (norm row))) block))
        (value_error "vectors are not normalized")

  -- `for begin in range(0, rows, block_rows)`; fuel is the number of rows.
  pub check_blocks : ℕ → Bool → ℕ → List (List Scalar) → Result (Unit {0})
  check_blocks fuel require_unit block_rows [] = ok tt
  check_blocks zero require_unit block_rows (row ∷ rows) = ok tt
  check_blocks (suc fuel) require_unit block_rows (row ∷ rows) = do
    check_block require_unit (take block_rows (row ∷ rows))
    check_blocks fuel require_unit block_rows (drop block_rows (row ∷ rows))

  unfoldable pub validate_vector_matrix : Bool → ℕ → Matrix Scalar → Result (Unit {0})
  unfolding check_block check_blocks
  validate_vector_matrix require_unit block_rows m = do
    raise_if (length m.rows == 0 || m.width == 0) (value_error "expected a non-empty rank-2 matrix")
    raise_if (block_rows == 0) (value_error "block_rows must be positive")
    check_blocks (length m.rows) require_unit block_rows m.rows

  abbrev pub scale : List Scalar → List Scalar
  scale row = map (λ x. divide x (norm row)) row

  unfoldable pub normalize_vectors : Matrix Scalar → Result (Matrix Scalar)
  normalize_vectors m = do
    raise_if (length m.rows == 0 || m.width == 0)
        (value_error "embedding response must be a non-empty rank-2 matrix")
    raise_if (not (all (all is_finite) m.rows))
        (value_error "embedding response contains NaN or infinity")
    raise_if (not (all (λ row. not (is_tiny (norm row))) m.rows))
        (value_error "embedding response contains a zero-length vector")
    let matrix = record m { rows = map scale m.rows }
    validate_vector_matrix true 8192 matrix
    ok matrix
