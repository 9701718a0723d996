-- ===== src/Cache/Header.antt =====
-- `cache_v2_header` and the part of `read_cache` that reads the fixed fields and the fingerprint.
pub mod Laws
use leann_cpp.Prelude.{
  ℕ, zero, suc, ◌+◌, ◌*◌, Bool, true, false, ◌||◌, not, Option, none, some, List, [], ◌∷◌, ◌++◌,
  length, take, drop, eq_list, ltb, leb, ◌==◌, if◌then◌else◌, String, Result, ok, err, Error,
  value_error, ◌>>=◌, ◌>>◌, raise_if,
}
use leann_cpp.Bytes.{Bytes, Text}
use leann_cpp.Bytes.Struct.{from_le_bytes, pack_field}
use leann_cpp.Bytes.Hex.{from_hex}
use leann_cpp.Bytes.Utf8.{encode_text, decode}

abbrev pub magic_v1 : Bytes
magic_v1 = b'L' ∷ b'E' ∷ b'A' ∷ b'N' ∷ b'N' ∷ b'B' ∷ b'C' ∷ b'1' ∷ []

abbrev pub magic_v2 : Bytes
magic_v2 = b'L' ∷ b'E' ∷ b'A' ∷ b'N' ∷ b'N' ∷ b'B' ∷ b'C' ∷ b'2' ∷ []

abbrev pub max_fingerprint_bytes : ℕ
max_fingerprint_bytes = 16 * 1024 * 1024

-- The size and the raw SHA-256 of the source file, which only version 2 records.
pub record Binding : Type 0 where
  pub source_size : ℕ
  pub source_sha256 : Bytes

pub record Fixed : Type 0 where
  pub dimension : ℕ
  pub count : ℕ
  pub fingerprint_size : ℕ
  pub binding : Option Binding

-- The field of `width` bytes at an offset.
abbrev pub field_at : ℕ → ℕ → Bytes → ℕ
field_at offset width fixed = from_le_bytes (take width (drop offset fixed))

-- `V1_FIXED.unpack` and `V2_FIXED.unpack`
unfoldable pub unpack_v1 : Bytes → Fixed
unpack_v1 fixed = record {
  dimension = field_at 8 4 fixed;
  count = field_at 12 8 fixed;
  fingerprint_size = field_at 20 4 fixed;
  binding = none;
}

unfoldable pub unpack_v2 : Bytes → Fixed
unpack_v2 fixed = record {
  dimension = field_at 8 4 fixed;
  count = field_at 12 8 fixed;
  fingerprint_size = field_at 20 4 fixed;
  binding =
      some (record { source_size = field_at 24 8 fixed; source_sha256 = take 32 (drop 32 fixed) });
}

-- Reads `size` bytes, unpacks them, and leaves the rest of the file.
unfoldable pub read_part : ℕ → String → (Bytes → Fixed) → Bytes → Result (Fixed × Bytes)
read_part size message unpack file = do
  raise_if (not (length (take size file) == size)) (value_error message)
  ok (unpack (take size file), drop size file)

-- The magic selects the layout.
unfoldable pub read_fixed : Bytes → Result (Fixed × Bytes)
read_fixed file =
    if eq_list (take 8 file) magic_v1
    then read_part 24 "truncated V1 cache header" unpack_v1 file
    else if eq_list (take 8 file) magic_v2
    then read_part 64 "truncated V2 cache header" unpack_v2 file
    else err (value_error "unexpected cache magic")

abbrev pub decode_fingerprint : Bytes → Result Text
decode_fingerprint raw = elim (decode raw) [
  | none ↦ err (value_error "cache fingerprint is not UTF-8")
  | some text ↦ ok text
]

pub record Header : Type 0 where
  pub fixed : Fixed
  pub fingerprint_raw : Bytes
  pub fingerprint : Text
  -- What follows the header, and how many bytes the header took (`source.tell()`).
  pub payload : Bytes
  pub vector_offset : ℕ

abbrev pub fixed_size : Fixed → ℕ
fixed_size f = elim f.binding [ none ↦ 24 | some b ↦ 64 ]

unfoldable pub read_header : Bytes → Result Header
read_header file = do
  (fixed, rest) ← read_fixed file
  raise_if (fixed.dimension == 0 || fixed.count == 0)
      (value_error "cache dimension/count must be positive")
  raise_if (ltb max_fingerprint_bytes fixed.fingerprint_size)
      (value_error "unreasonable fingerprint length")
  raise_if (not (length (take fixed.fingerprint_size rest) == fixed.fingerprint_size))
      (value_error "truncated cache fingerprint")
  fingerprint ← decode_fingerprint (take fixed.fingerprint_size rest)
  ok (record {
    fixed = fixed;
    fingerprint_raw = take fixed.fingerprint_size rest;
    fingerprint = fingerprint;
    payload = drop fixed.fingerprint_size rest;
    vector_offset = fixed_size fixed + fixed.fingerprint_size;
  })

abbrev from_hex_text : Text → Result Bytes
from_hex_text text = elim (from_hex text) [
  | none ↦ err (value_error "source_sha256 is not hexadecimal")
  | some digest ↦ ok digest
]

-- `V2_FIXED.pack(…)`: `struct.error` if a number does not fit its field.
unfoldable pub pack_v2 : ℕ → ℕ → ℕ → ℕ → Bytes → Result Bytes
pack_v2 dimension count fingerprint_size source_size digest = do
  d ← pack_field 4 dimension
  n ← pack_field 8 count
  f ← pack_field 4 fingerprint_size
  s ← pack_field 8 source_size
  ok (magic_v2 ++ (d ++ (n ++ (f ++ (s ++ digest)))))

-- Sizes and counts are natural numbers here, so a test for a negative one has no counterpart.
unfoldable pub cache_v2_header : ℕ → ℕ → Text → ℕ → Text → Result Bytes
unfolding pack_v2 pack_field
cache_v2_header dimension count fingerprint source_size_bytes source_sha256 = do
  fingerprint_raw ← encode_text fingerprint
  raise_if
      (dimension == 0
        || (count == 0
            || (length fingerprint_raw == 0 || ltb max_fingerprint_bytes (length fingerprint_raw))))
      (value_error "invalid V2 cache header values")
  digest ← from_hex_text source_sha256
  raise_if (not (length digest == 32)) (value_error "invalid V2 source identity")
  fixed ← pack_v2 dimension count (length fingerprint_raw) source_size_bytes digest
  ok (fixed ++ fingerprint_raw)
