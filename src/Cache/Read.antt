-- ===== src/Cache/Read.antt =====
-- `read_cache`, `source_identity` and `validate_cache_source`.
pub mod Laws
pub mod Source
use leann_cpp.Prelude.{
  ℕ, zero, suc, ◌+◌, ◌*◌, Bool, true, false, ◌||◌, not, Option, none, some, List, [], ◌∷◌, length,
  take, drop, eq_list, ◌==◌, if◌then◌else◌, Result, ok, err, value_error, os_error, ◌>>=◌, ◌>>◌,
  raise_if,
}
use leann_cpp.Bytes.{Bytes, Text}
use leann_cpp.Bytes.Hex.{hex}
use leann_cpp.Lines.{count_nonempty_lines}
use leann_cpp.Platform.{Digest, Float32, Disk}
use leann_cpp.Cache.Matrix.{Matrix, validate_vector_matrix}
use leann_cpp.Cache.Header.{Binding, Fixed, Header, read_header}

-- What version 2 says of its source, with the digest in hexadecimal.
pub record SourceBinding : Type 0 where
  pub source_size_bytes : ℕ
  pub source_sha256 : Text

-- `binding` is present exactly in version 2.
pub record Metadata : Type 0 where
  pub count : ℕ
  pub dimensions : ℕ
  pub fingerprint : Text
  pub fingerprint_sha256 : Text
  pub vector_offset : ℕ
  pub vector_bytes : ℕ
  pub size_bytes : ℕ
  pub binding : Option SourceBinding

pub record Identity : Type 0 where
  pub size_bytes : ℕ
  pub sha256 : Text
  pub nonempty_lines : ℕ

abbrev pub hex_binding : Option Binding → Option SourceBinding
hex_binding none = none
hex_binding (some b) =
    some (record { source_size_bytes = b.source_size; source_sha256 = hex b.source_sha256 })

abbrev pub is_v2 {ℓ} : {A : Type ℓ} → Option A → Bool
is_v2 none = false
is_v2 (some b) = true

module _ (D : Digest) where
  -- `sha256_file(path)`
  abbrev pub sha256_hex : Bytes → Text
  sha256_hex file = hex (D.sha256 file)

  unfoldable pub source_identity : Disk → Text → Result Identity
  source_identity disk path = elim (disk path) [
    | none ↦ err (os_error "FileNotFoundError")
    | some file ↦ do
      lines ← count_nonempty_lines file
      ok (record { size_bytes = length file; sha256 = sha256_hex file; nonempty_lines = lines })
  ]

module _ (F : Float32) where
  open F use {Scalar, of_bytes}

  unfoldable pub read_row : ℕ → Bytes → List Scalar
  read_row zero bytes = []
  read_row (suc width) bytes = of_bytes (take 4 bytes) ∷ read_row width (drop 4 bytes)

  -- `np.memmap(…, shape=(count, dimension))`
  unfoldable pub read_rows : ℕ → ℕ → Bytes → List (List Scalar)
  unfolding read_row
  read_rows zero width bytes = []
  read_rows (suc count) width bytes =
      read_row width bytes ∷ read_rows count width (drop (width * 4) bytes)

  abbrev pub memmap : Header → Matrix Scalar
  memmap h = record {
    width = h.fixed.dimension;
    rows = read_rows h.fixed.count h.fixed.dimension h.payload;
  }

  module _ (D : Digest) where
    abbrev pub metadata_of : Bytes → Header → Metadata
    metadata_of file h = record {
      count = h.fixed.count;
      dimensions = h.fixed.dimension;
      fingerprint = h.fingerprint;
      fingerprint_sha256 = sha256_hex D h.fingerprint_raw;
      vector_offset = h.vector_offset;
      vector_bytes = h.fixed.count * h.fixed.dimension * 4;
      size_bytes = length file;
      binding = hex_binding h.fixed.binding;
    }

    -- `read_cache(path)`, with the keyword arguments at their defaults: the vectors of version 2
    -- have to be unit vectors.
    unfoldable pub read_cache : Bytes → Result (Matrix Scalar × Metadata)
    read_cache file = do
      h ← read_header file
      raise_if (not (length file == h.vector_offset + h.fixed.count * h.fixed.dimension * 4))
          (value_error "cache length mismatch")
      validate_vector_matrix F (is_v2 h.fixed.binding) 8192 (memmap h)
      ok (memmap h, metadata_of file h)

abbrev check_binding : Bool → Option SourceBinding → Identity → Result (Unit {0})
check_binding require_integrity (some b) identity = do
  raise_if (not (b.source_size_bytes == identity.size_bytes))
      (value_error "V2 cache/source byte-size mismatch")
  raise_if (not (eq_list b.source_sha256 identity.sha256))
      (value_error "V2 cache/source SHA-256 mismatch")
check_binding require_integrity none identity =
    raise_if require_integrity (value_error "legacy V1 cache is not bound to the source file")

abbrev expected_or : Option ℕ → ℕ → ℕ
expected_or none n = n
expected_or (some k) n = k

unfoldable pub validate_cache_source :
    Digest → Disk → Metadata → Text → Option ℕ → Bool → Result Identity
validate_cache_source D disk metadata path expected_count require_integrity = do
  identity ← source_identity D disk path
  raise_if (not (metadata.count == expected_or expected_count identity.nonempty_lines))
      (value_error "cache/source count mismatch")
  check_binding require_integrity metadata.binding identity
  ok identity
