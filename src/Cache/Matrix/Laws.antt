-- ===== src/Cache/Matrix/Laws.antt =====
-- What a validated matrix is, whatever the size of the blocks.
use leann_cpp.Prelude.{
  map, value_error, >>=-eq-ok, raise_if-eq-ok, ok-injective, subst, ℕ, zero, suc, ◌≡◌, ◌↔◌, refl,
  Bool, true, ◌&&◌, ◌||◌, not, List, [], ◌∷◌, arith, length, all, take, drop, all-append,
  take-append-drop, length-drop, ok, err, Result, ◌≢◌, ◌>>=◌, ◌≤◌, ◌<◌, ◌==◌,
}
use native.Mathlib.Nat.{le_refl}
use leann_cpp.Platform.{Float32}
use leann_cpp.Cache.Matrix.{
  Matrix, check_block, check_blocks, validate_vector_matrix, scale, normalize_vectors,
}

both :
    (r s : Result (Unit {0})) (a b : Bool)
    → (r ≡ ok tt) ↔ (a ≡ true)
    → (s ≡ ok tt) ↔ (b ≡ true)
    → ((r >>= λ _. s) ≡ ok tt) ↔ ((a && b) ≡ true)
both (ok t) s a b h k = ground arith
both (err e) s a b h k = ground arith

length-ne-zero {ℓ} : {A : Type ℓ} (xs : List A) → ((length xs == 0) ≡ true) ↔ (xs ≡ [])
length-ne-zero [] = ground arith
length-ne-zero (x ∷ xs) = ground arith

module _ (F : Float32) where
  open F use {Scalar, is_finite, norm, is_tiny, is_off_unit}

  -- A row may be stored: it is finite, has a length, and is a unit vector if that is asked for.
  pub row_fits : Bool → List Scalar → Bool
  row_fits require_unit row =
      all is_finite row
      && (not (is_tiny (norm row)) && (not require_unit || not (is_off_unit (norm row))))

  abbrev fits_all : Bool → List (List Scalar) → Bool
  fits_all require_unit rows =
      all (all is_finite) rows
      && (all (λ row. not (is_tiny (norm row))) rows
          && (not require_unit || all (λ row. not (is_off_unit (norm row))) rows))

  fits_all-row_fits :
      (u : Bool) (rows : List (List Scalar)) → fits_all u rows ≡ all (row_fits u) rows
  unfolding row_fits
  fits_all-row_fits u [] = ground arith
  fits_all-row_fits u (row ∷ rows) = ground (arith, fits_all-row_fits u rows)

  check_block_iff :
      (u : Bool) (rows : List (List Scalar))
      → (check_block F u rows ≡ ok tt) ↔ (all (row_fits u) rows ≡ true)
  unfolding check_block
  check_block_iff u rows = rw (← fits_all-row_fits u rows) (ground arith)

  all_fits-take-drop :
      (u : Bool) (k : ℕ) (rows : List (List Scalar))
      → all (row_fits u) rows ≡ (all (row_fits u) (take k rows) && all (row_fits u) (drop k rows))
  all_fits-take-drop u k rows =
      rw (← all-append (row_fits u) (take k rows) (drop k rows), take-append-drop k rows)

  check_blocks_iff :
      (u : Bool) (k fuel : ℕ) (rows : List (List Scalar))
      → 0 < k
      → length rows ≤ fuel
      → (check_blocks F fuel u k rows ≡ ok tt) ↔ (all (row_fits u) rows ≡ true)
  unfolding check_blocks
  check_blocks_iff u k fuel [] h le = (λ e. refl, λ e. refl)
  check_blocks_iff u k zero (row ∷ rows) h le = absurd (omega arith)
  check_blocks_iff u k (suc fuel) (row ∷ rows) h le =
      let ih =
        check_blocks_iff u k fuel (drop k (row ∷ rows)) h
          (omega (arith, length-drop k (row ∷ rows))) in
      rw (all_fits-take-drop u k (row ∷ rows)) (
        both (check_block F u (take k (row ∷ rows))) _ _ _ (check_block_iff u (take k (row ∷ rows)))
          ih)

  -- A matrix is accepted exactly if it is not empty and each of its rows fits; the size of the
  -- blocks makes no difference.
  pub validate_vector_matrix_iff :
      (u : Bool) (block_rows : ℕ) (m : Matrix Scalar)
      → 0 < block_rows
      → (validate_vector_matrix F u block_rows m ≡ ok tt)
        ↔ ((m.rows ≢ []) × (m.width ≢ 0) × (all (row_fits u) m.rows ≡ true))
  unfolding validate_vector_matrix
  validate_vector_matrix_iff u k m h =
      ground
        (arith, check_blocks_iff u k (length m.rows) m.rows h (le_refl _), length-ne-zero m.rows)

  -- What `normalize_vectors` returns are the rows scaled, and they have passed the check.
  pub normalize_vectors-eq-ok :
      (m n : Matrix Scalar)
      → normalize_vectors F m ≡ ok n
      → (n ≡ record m { rows = map (scale F) m.rows })
        × (validate_vector_matrix F true 8192 n ≡ ok tt)
  unfolding normalize_vectors
  normalize_vectors-eq-ok m n h =
      let scaled : Matrix Scalar = record m { rows = map (scale F) m.rows } in
      let (c1, h1) =
        raise_if-eq-ok (length m.rows == 0 || m.width == 0)
          (value_error "embedding response must be a non-empty rank-2 matrix") _ h in
      let (c2, h2) =
        raise_if-eq-ok (not (all (all is_finite) m.rows))
          (value_error "embedding response contains NaN or infinity") _ h1 in
      let (c3, h3) =
        raise_if-eq-ok (not (all (λ row. not (is_tiny (norm row))) m.rows))
          (value_error "embedding response contains a zero-length vector") _ h2 in
      let (u, valid, h4) = >>=-eq-ok (validate_vector_matrix F true 8192 scaled) _ h3 in
      subst (λ (k : Matrix Scalar). (k ≡ scaled) × (validate_vector_matrix F true 8192 k ≡ ok tt))
        (ok-injective scaled n h4) (refl, valid)
