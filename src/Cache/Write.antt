-- ===== src/Cache/Write.antt =====
-- `write_cache_v2`. The temporary file and its `os.replace` are one step of the disk: a reader sees
-- the old file or the whole new one.
pub mod Rows
pub mod Whole
pub mod RoundTrip
use leann_cpp.Prelude.{
  ℕ, Bool, not, Option, none, some, List, [], ◌∷◌, ◌++◌, length, eq_list, ◌==◌, if◌then◌else◌,
  Result, ok, err, value_error, ◌>>=◌, ◌>>◌, raise_if,
}
use leann_cpp.Bytes.{Bytes, Text}
use leann_cpp.Platform.{Digest, Float32, Disk}
use leann_cpp.Cache.Matrix.{Matrix, normalize_vectors}
use leann_cpp.Cache.Header.{cache_v2_header}
use leann_cpp.Cache.Read.{Metadata, Identity, source_identity, sha256_hex, read_cache}

-- The disk after `os.replace(temporary, path)`.
abbrev pub replace : Disk → Text → Bytes → Disk
replace disk path file other = if eq_list other path then some file else disk other

module _ (D : Digest) (F : Float32) where
  open F use {Scalar, to_bytes}

  unfoldable pub row_bytes : List Scalar → Bytes
  row_bytes [] = []
  row_bytes (x ∷ xs) = to_bytes x ++ row_bytes xs

  -- `normalized.tobytes(order="C")`
  unfoldable pub matrix_bytes : List (List Scalar) → Bytes
  unfolding row_bytes
  matrix_bytes [] = []
  matrix_bytes (row ∷ rows) = row_bytes row ++ matrix_bytes rows

  -- The bytes that are written, or the error that keeps the disk as it was.
  unfoldable pub cache_v2_bytes : Disk → Matrix Scalar → Text → Text → Result Bytes
  cache_v2_bytes disk vectors fingerprint source_path = do
    normalized ← normalize_vectors F vectors
    identity ← source_identity D disk source_path
    raise_if (not (length normalized.rows == identity.nonempty_lines))
        (value_error "vector/source count mismatch")
    header ←
        cache_v2_header normalized.width (length normalized.rows) fingerprint identity.size_bytes
          identity.sha256
    ok (header ++ matrix_bytes normalized.rows)

  -- The metadata comes with the SHA-256 of the file.
  unfoldable pub write_cache_v2 :
      Disk → Text → Matrix Scalar → Text → Text → Disk × Result (Metadata × Text)
  write_cache_v2 disk path vectors fingerprint source_path =
      elim (cache_v2_bytes disk vectors fingerprint source_path) [
        | err e ↦ (disk, err e)
        | ok file ↦ (
          replace disk path file,
          (do (_, metadata) ← read_cache F D file; ok (metadata, sha256_hex D file)),
        )
      ]
