-- ===== src/Examples/Caches.antt =====
-- A cache is written and read, and line files are read both ways.
use leann_cpp.Prelude.{
  ◌+◌, ◌*◌, ◌≡◌, ◌≢◌, ◌↔◌, refl, Bool, true, false, none, some, [], ◌∷◌, ◌++◌, arith, length, all,
  All, eq_list, if◌then◌else◌, ok, err, value_error,
}
use leann_cpp.Bytes.{Bytes, Text}
use leann_cpp.Bytes.Struct.{le_bytes, from_le_bytes, pack_field}
use leann_cpp.Bytes.Hex.{hex, from_hex}
use leann_cpp.Bytes.Utf8.{encode, encode_text, decode}
use leann_cpp.Lines.{iter_nonempty_lines, file_lines, count_nonempty_lines}
use leann_cpp.Lines.Native.{native_lines, no_lone_cr, iter_nonempty_lines-native_iff}
use leann_cpp.Platform.{Disk}
use leann_cpp.Cache.Matrix.{Matrix, validate_vector_matrix, normalize_vectors}
use leann_cpp.Cache.Matrix.Laws.{row_fits, validate_vector_matrix_iff}
use leann_cpp.Cache.Header.{read_part, unpack_v2, read_header, read_fixed, cache_v2_header, pack_v2}
use leann_cpp.Cache.Read.{
  Metadata, Identity, is_v2, read_row, read_rows, read_cache, source_identity, sha256_hex,
  validate_cache_source,
}
use leann_cpp.Cache.Read.Laws.{read_cache-append, read_cache_sound}
use leann_cpp.Cache.Write.{row_bytes, matrix_bytes, cache_v2_bytes, write_cache_v2, replace}
use leann_cpp.Cache.Write.RoundTrip.{write_cache_v2-read_cache}
use leann_cpp.Examples.Instances.{toy_digest, toy_floats}

-- "a", "b" with a carriage return behind the first.
abbrev pub two_lines : Text
two_lines = b'a' ∷ 13 ∷ 10 ∷ b'b' ∷ 10 ∷ []

lone : Text
lone = b'a' ∷ 13 ∷ b'b' ∷ []

lone_differs :
    (iter_nonempty_lines lone ≡ (b'a' ∷ []) ∷ (b'b' ∷ []) ∷ []) × (native_lines lone ≡ lone ∷ [])
unfolding iter_nonempty_lines native_lines lone
lone_differs = (refl, refl)

iter_nonempty_lines-native_example :
    (iter_nonempty_lines two_lines ≡ native_lines two_lines) ↔ (no_lone_cr two_lines ≡ true)
iter_nonempty_lines-native_example = iter_nonempty_lines-native_iff two_lines

abbrev pub unit_rows : Matrix Bool
unit_rows = record { width = 2; rows = (true ∷ false ∷ []) ∷ (true ∷ true ∷ []) ∷ [] }

validate_vector_matrix_example : (validate_vector_matrix toy_floats true 1 unit_rows ≡ ok tt) ↔ (
    (unit_rows.rows ≢ [])
    × (unit_rows.width ≢ 0)
    × (all (row_fits toy_floats true) unit_rows.rows ≡ true))
validate_vector_matrix_example =
    validate_vector_matrix_iff toy_floats true 1 unit_rows (omega arith)

abbrev pub source_path : Text
source_path = b'd' ∷ []

abbrev cache_path : Text
cache_path = b'c' ∷ []

abbrev pub disk : Disk
disk path = if eq_list path source_path then some two_lines else none

abbrev pub name : Text
name = b'm' ∷ 0xe9 ∷ []

unfoldable pub all_steps : Unit {0}
unfolding cache_v2_bytes matrix_bytes row_bytes normalize_vectors validate_vector_matrix
    source_identity count_nonempty_lines file_lines iter_nonempty_lines decode encode_text encode
    hex from_hex cache_v2_header pack_v2 pack_field le_bytes
all_steps = tt

unfoldable pub written : Bytes
unfolding all_steps
written = elim (cache_v2_bytes toy_digest toy_floats disk unit_rows name source_path) [
  | ok file ↦ file
  | err e ↦ []
]

written_ok : cache_v2_bytes toy_digest toy_floats disk unit_rows name source_path ≡ ok written
unfolding all_steps written
written_ok = refl

write_cache_v2_example :
    (m : Matrix Bool) × (metadata : Metadata) × (identity : Identity) × (write_cache_v2 toy_digest
        toy_floats disk cache_path unit_rows name source_path
      ≡ (replace disk cache_path written, ok (metadata, sha256_hex toy_digest written)))
    × (normalize_vectors toy_floats unit_rows ≡ ok m)
    × (read_cache toy_floats toy_digest written ≡ ok (m, metadata))
    × (length m.rows ≡ identity.nonempty_lines)
    × (validate_cache_source toy_digest disk metadata source_path none true ≡ ok identity)
write_cache_v2_example =
    write_cache_v2-read_cache toy_digest toy_floats disk cache_path unit_rows name source_path
      written (refl, (refl, tt)) written_ok

unfoldable pub all_reads : Unit {0}
unfolding all_steps read_header read_fixed read_part unpack_v2 from_le_bytes read_cache read_rows
    read_row
all_reads = tt

abbrev no_metadata : Metadata
no_metadata = record {
  count = 0;
  dimensions = 0;
  fingerprint = [];
  fingerprint_sha256 = [];
  vector_offset = 0;
  vector_bytes = 0;
  size_bytes = 0;
  binding = none;
}

read_back : Matrix Bool × Metadata
unfolding all_reads written
read_back = elim (read_cache toy_floats toy_digest written) [
  | ok found ↦ found
  | err e ↦ (unit_rows, no_metadata)
]

read_ok : read_cache toy_floats toy_digest written ≡ ok read_back
unfolding all_reads written read_back
read_ok = refl

read_cache-append_example :
    read_cache toy_floats toy_digest (written ++ 0 ∷ []) ≡ err (value_error "cache length mismatch")
read_cache-append_example =
    read_cache-append written (0 ∷ []) toy_floats toy_digest read_back.0 read_back.1 read_ok
      (ground arith)

read_cache_sound_example :
    (all (row_fits toy_floats (is_v2 read_back.1.binding)) read_back.0.rows ≡ true)
    × (read_back.0.rows ≢ [])
    × (read_back.0.width ≡ read_back.1.dimensions)
    × (length read_back.0.rows ≡ read_back.1.count)
    × (All (λ row. length row ≡ read_back.0.width) read_back.0.rows)
    × (read_back.1.size_bytes ≡ length written)
    × (length written ≡ read_back.1.vector_offset + read_back.1.count * read_back.1.dimensions * 4)
read_cache_sound_example =
    read_cache_sound written [] toy_floats toy_digest read_back.0 read_back.1 read_ok
