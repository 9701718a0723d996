-- ===== src/Cache/Write/Whole.antt =====
-- A header with the bytes of a matrix behind it is a cache, which is read back.
use leann_cpp.Prelude.{
  ℕ, ◌+◌, ◌*◌, ◌≡◌, true, none, some, [], ◌++◌, arith, length, All, length-append, eq_list_self,
  ==_self, ok, >>=-eq-ok, Option-cases, inl, inr, ==_iff,
}
use leann_cpp.Bytes.{Bytes, Text}
use leann_cpp.Bytes.Hex.{hex, from_hex, from_hex-hex}
use leann_cpp.Lines.{count_nonempty_lines}
use leann_cpp.Platform.{Digest, Float32, Disk}
use leann_cpp.Cache.Matrix.{Matrix, validate_vector_matrix}
use leann_cpp.Cache.Header.{Header, read_header}
use leann_cpp.Cache.Header.Laws.{IsHeader, header_read, read_header-IsHeader, length-IsHeader}
use leann_cpp.Cache.Read.{
  Identity, source_identity, read_cache, memmap, is_v2, metadata_of, validate_cache_source,
}
use leann_cpp.Cache.Write.{matrix_bytes}
use leann_cpp.Cache.Write.Rows.{read_rows-matrix_bytes, length-matrix_bytes}

module _ (D : Digest) (F : Float32) where
  open F use {Scalar}

  -- Every row has the matrix's width.
  abbrev pub IsRectangular : Matrix Scalar → Type 0
  IsRectangular m = All (λ row. length row ≡ m.width) m.rows

  -- The SHA-256 of an identity is that of the file, in hexadecimal.
  pub source_identity-sha256 :
      (disk : Disk) (path : Text) (identity : Identity)
      → source_identity D disk path ≡ ok identity
      → (file : Bytes) × (identity.sha256 ≡ hex (D.sha256 file))
  unfolding source_identity
  source_identity-sha256 disk path identity h = elim (Option-cases (disk path)) [
    | inl gone ↦ absurd (cc (rw (gone, source_identity) at h))
    | inr (file, found) ↦
        let (k, counted, done) =
          >>=-eq-ok (count_nonempty_lines file) _ (rw (found, source_identity) at h) in
        (file, cc (done))
  ]

  pub hex-from_hex :
      (file digest : Bytes) (sha : Text)
      → sha ≡ hex (D.sha256 file)
      → from_hex sha ≡ some digest
      → hex digest ≡ sha
  hex-from_hex file digest sha e h = cc (from_hex-hex (D.sha256 file) (D.sha256-IsByte file))

  read_cache_lem :
      (file : Bytes) (h : Header) (m : Matrix Scalar)
      → read_header file ≡ ok h
      → length file ≡ h.vector_offset + h.fixed.count * h.fixed.dimension * 4
      → memmap F h ≡ m
      → validate_vector_matrix F (is_v2 h.fixed.binding) 8192 m ≡ ok tt
      → read_cache F D file ≡ ok (m, metadata_of F D file h)
  unfolding read_cache
  read_cache_lem file h m read long mapped valid = rw (read, mapped, (==_iff _ _).1 long, valid)

  module _ (m : Matrix Scalar) (fingerprint : Text) (size : ℕ) (sha header : Bytes)
      (is_header : IsHeader m.width (length m.rows) fingerprint size sha header)
      (valid : validate_vector_matrix F true 8192 m ≡ ok tt) (r : IsRectangular m) where
    abbrev pub file : Bytes
    file = header ++ matrix_bytes D F m.rows

    -- The header of the file, as the reader returns it.
    abbrev pub found : Header
    found =
        header_read m.width (length m.rows) fingerprint size sha header is_header
          (matrix_bytes D F m.rows)

    read_header-file : read_header file ≡ ok found
    read_header-file =
        read_header-IsHeader m.width (length m.rows) fingerprint size sha header is_header
          (matrix_bytes D F m.rows)

    memmap-found : memmap F found ≡ m
    memmap-found = rw (read_rows-matrix_bytes D F m.width m.rows r)

    length-file : length file ≡ found.vector_offset + found.fixed.count * found.fixed.dimension * 4
    length-file = omega (
      arith,
      length-append header (matrix_bytes D F m.rows),
      length-matrix_bytes D F m.width m.rows r,
      length-IsHeader m.width (length m.rows) fingerprint size sha header is_header [],
    )

    pub read_cache-file : read_cache F D file ≡ ok (m, metadata_of F D file found)
    read_cache-file = read_cache_lem file found m read_header-file length-file memmap-found valid

    pub validate_cache_source-found :
        (disk : Disk) (source_path : Text) (identity : Identity)
        → source_identity D disk source_path ≡ ok identity
        → length m.rows ≡ identity.nonempty_lines
        → size ≡ identity.size_bytes
        → sha ≡ identity.sha256
        → validate_cache_source D disk (metadata_of F D file found) source_path none true
          ≡ ok identity
    unfolding validate_cache_source
    validate_cache_source-found disk source_path identity identified counted sized digested =
        let (source, e) = source_identity-sha256 disk source_path identity identified in
        rw (
          identified,
          counted,
          ==_self identity.nonempty_lines,
          sized,
          ==_self identity.size_bytes,
          hex-from_hex source is_header.digest identity.sha256 e (rw digested at is_header.digits),
          eq_list_self identity.sha256,
        )
