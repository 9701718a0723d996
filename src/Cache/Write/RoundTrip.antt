-- ===== src/Cache/Write/RoundTrip.antt =====
-- A cache that the writer produced is read back: the same vectors, bound to the same source.
use leann_cpp.Prelude.{
  ◌≡◌, ◌∙◌, refl, ap, true, not, none, ◌++◌, arith, length, length-map, ◌==◌, ok, value_error,
  >>=-eq-ok, raise_if-eq-ok,
}
use leann_cpp.Bytes.{Bytes, Text}
use leann_cpp.Platform.{Digest, Float32, Disk}
use leann_cpp.Cache.Matrix.{Matrix, normalize_vectors, scale, validate_vector_matrix}
use leann_cpp.Cache.Matrix.Laws.{normalize_vectors-eq-ok}
use leann_cpp.Cache.Header.{cache_v2_header}
use leann_cpp.Cache.Header.Laws.{cache_v2_header-IsHeader}
use leann_cpp.Cache.Read.{
  sha256_hex, Metadata, Identity, source_identity, read_cache, validate_cache_source,
}
use leann_cpp.Cache.Write.{write_cache_v2, replace, matrix_bytes, cache_v2_bytes}
use leann_cpp.Cache.Write.Whole.{IsRectangular, file, read_cache-file, validate_cache_source-found}
use leann_cpp.Cache.Write.Rows.{All-map-length}

module _ (D : Digest) (F : Float32) where
  open F use {
    Scalar, is_finite, is_tiny, norm, to_bytes, of_bytes, length-to_bytes, of_bytes-to_bytes,
  }

  -- What `normalize_vectors` returns has passed the check of a unit matrix, and kept its shape.
  normalize_vectors-valid :
      (m n : Matrix Scalar)
      → normalize_vectors F m ≡ ok n
      → IsRectangular D F m
      → (validate_vector_matrix F true 8192 n ≡ ok tt) × IsRectangular D F n
  normalize_vectors-valid m n h r =
      let (same, valid) = normalize_vectors-eq-ok F m n h in
      (valid, rw same (All-map-length D F m.width (scale F) m.rows (λ row. length-map row _) r))

  -- The parts of a successful write.
  record Written (disk : Disk) (vectors : Matrix Scalar) (fingerprint source_path : Text)
      (file : Bytes) : Type 0 where
    normalized : Matrix Scalar
    identity : Identity
    header : Bytes
    normal : normalize_vectors F vectors ≡ ok normalized
    identified : source_identity D disk source_path ≡ ok identity
    counted : length normalized.rows ≡ identity.nonempty_lines
    headed :
        cache_v2_header normalized.width
          (length normalized.rows)
          fingerprint
          identity.size_bytes
          identity.sha256
        ≡ ok header
    bytes : file ≡ header ++ matrix_bytes D F normalized.rows

  cache_v2_bytes-Written :
      (disk : Disk) (vectors : Matrix Scalar) (fingerprint source_path : Text) (file : Bytes)
      → cache_v2_bytes D F disk vectors fingerprint source_path ≡ ok file
      → Written disk vectors fingerprint source_path file
  unfolding cache_v2_bytes
  cache_v2_bytes-Written disk vectors fingerprint source_path file h =
      let (m, normal, h1) = >>=-eq-ok (normalize_vectors F vectors) _ h in
      let (identity, identified, h2) = >>=-eq-ok (source_identity D disk source_path) _ h1 in
      let (c, h3) =
        raise_if-eq-ok (not (length m.rows == identity.nonempty_lines))
          (value_error "vector/source count mismatch") _ h2 in
      let (header, headed, h4) =
        >>=-eq-ok
          (cache_v2_header m.width (length m.rows) fingerprint identity.size_bytes identity.sha256)
          _ h3 in
      record {
        normalized = m;
        identity = identity;
        header = header;
        normal = normal;
        identified = identified;
        counted = ground arith;
        headed = headed;
        bytes = cc h4;
      }

  write_cache_v2_lem :
      (disk : Disk) (path : Text) (vectors : Matrix Scalar) (fingerprint source_path : Text)
      (file : Bytes) (m : Matrix Scalar) (metadata : Metadata)
      → cache_v2_bytes D F disk vectors fingerprint source_path ≡ ok file
      → read_cache F D file ≡ ok (m, metadata)
      → write_cache_v2 D F disk path vectors fingerprint source_path
        ≡ (replace disk path file, ok (metadata, sha256_hex D file))
  unfolding write_cache_v2
  write_cache_v2_lem disk path vectors fingerprint source_path file m metadata h read =
      rw (h, write_cache_v2) (rw read)

  -- If the write does not raise before the file is published, the new file stands at its path
  -- whole, the call returns its metadata and SHA-256, and a reader gets back the normalized
  -- vectors, one for each non-empty line of the source, with metadata that
  -- `validate_cache_source` accepts with integrity required. The matrix has to be rectangular.
  pub write_cache_v2-read_cache :
      (disk : Disk) (path : Text) (vectors : Matrix Scalar) (fingerprint source_path : Text)
      (file : Bytes)
      → IsRectangular D F vectors
      → cache_v2_bytes D F disk vectors fingerprint source_path ≡ ok file
      → (m : Matrix Scalar) × (metadata : Metadata) × (identity : Identity) × (write_cache_v2 D F
            disk path vectors fingerprint source_path
          ≡ (replace disk path file, ok (metadata, sha256_hex D file)))
        × (normalize_vectors F vectors ≡ ok m)
        × (read_cache F D file ≡ ok (m, metadata))
        × (length m.rows ≡ identity.nonempty_lines)
        × (validate_cache_source D disk metadata source_path none true ≡ ok identity)
  write_cache_v2-read_cache disk path vectors fingerprint source_path file r h =
      let w = cache_v2_bytes-Written disk vectors fingerprint source_path file h in
      let (valid, square) = normalize_vectors-valid vectors w.normalized w.normal r in
      let is_header = cache_v2_header-IsHeader _ _ _ _ _ _ w.headed in
      let read =
        ap (λ (b : Bytes). read_cache F D b) w.bytes
        ∙ read_cache-file D F w.normalized fingerprint w.identity.size_bytes w.identity.sha256
            w.header is_header valid square in
      (
        w.normalized,
        _,
        w.identity,
        write_cache_v2_lem disk path vectors fingerprint source_path file _ _ h read,
        w.normal,
        read,
        w.counted,
        validate_cache_source-found D F w.normalized fingerprint w.identity.size_bytes
            w.identity.sha256 w.header is_header valid square disk source_path w.identity
            w.identified w.counted refl refl,
      )
