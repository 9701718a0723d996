-- ===== src/Cache/Header/Laws.antt =====
-- The header that `cache_v2_header` writes is read back as it was meant.
use leann_cpp.Prelude.{
  value_error, ◌||◌, not, ℕ, ◌+◌, ◌^◌, ◌<◌, ◌≡◌, refl, ◌∙◌, ap, false, some, ◌++◌, append_assoc,
  arith, length, take, drop, length-append, take-append, take-append_le, drop-append,
  drop-append_add, ltb, ◌==◌, ok, >>=-eq-ok, raise_if-eq-ok, Bool-cases, inl, inr, ltb→lt,
  take-of_length, ==_self,
}
use leann_cpp.Bytes.{Bytes, Text}
use leann_cpp.Bytes.Struct.{le_bytes, pack_field, length-le_bytes, from_le_bytes-le_bytes}
use leann_cpp.Bytes.Hex.{from_hex}
use leann_cpp.Bytes.Utf8.{encode_text, decode-encode_text, decode}
use leann_cpp.Cache.Header.{
  decode_fingerprint, magic_v2, max_fingerprint_bytes, Fixed, field_at, unpack_v2, read_fixed,
  read_part, Header, read_header, from_hex_text, pack_v2, cache_v2_header,
}

field_skip :
    (n k m w : ℕ) (xs ys : Bytes)
    → length xs ≡ n
    → n + k ≡ m
    → field_at m w (xs ++ ys) ≡ field_at k w ys
field_skip n k m w xs ys h e = rw (drop-append_add n k m xs ys h e)

field_here : (w v : ℕ) (ys : Bytes) → v < 256 ^ w → field_at 0 w (le_bytes w v ++ ys) ≡ v
field_here w v ys h =
    rw (take-append w (le_bytes w v) ys (length-le_bytes w v)) (from_le_bytes-le_bytes w v h)

pack_field-eq-ok :
    (w v : ℕ) (bs : Bytes) → pack_field w v ≡ ok bs → (v < 256 ^ w) × (bs ≡ le_bytes w v)
unfolding pack_field
pack_field-eq-ok w v bs h = elim (Bool-cases (ltb v (256 ^ w))) [
  | inl t ↦ (ltb→lt _ _ t, cc (rw t at h))
  | inr f ↦ absurd (cc (rw f at h))
]

-- The fixed part that is written, field by field.
abbrev pub layout : ℕ → ℕ → ℕ → ℕ → Bytes → Bytes
layout d n f s digest =
    magic_v2 ++ (le_bytes 4 d ++ (le_bytes 8 n ++ (le_bytes 4 f ++ (le_bytes 8 s ++ digest))))

abbrev pub unpacked : ℕ → ℕ → ℕ → ℕ → Bytes → Fixed
unpacked d n f s digest = record {
  dimension = d;
  count = n;
  fingerprint_size = f;
  binding = some (record { source_size = s; source_sha256 = digest });
}

pub record Fits (d n f s : ℕ) (digest : Bytes) : Type 0 where
  dimension : d < 256 ^ 4
  count : n < 256 ^ 8
  size : f < 256 ^ 4
  source : s < 256 ^ 8
  digest_length : length digest ≡ 32

-- A fixed part of version 2 is taken whole, whatever stands behind it.
read_fixed_v2 :
    (fixed rest : Bytes)
    → length fixed ≡ 64
    → take 8 fixed ≡ magic_v2
    → read_fixed (fixed ++ rest) ≡ ok (unpack_v2 fixed, rest)
unfolding read_fixed read_part
read_fixed_v2 fixed rest h m = rw (
  take-append_le 8 fixed rest (omega (arith, h)),
  take-append 64 fixed rest h,
  drop-append 64 fixed rest h,
  m,
  h,
)

module _ (d n f s : ℕ) (digest : Bytes) (fits : Fits d n f s digest) where
  unpack_v2-layout : unpack_v2 (layout d n f s digest) ≡ unpacked d n f s digest
  unfolding unpack_v2
  unpack_v2-layout = rw (at_dimension, at_count, at_size, at_source, at_digest)
    where
      len4 : (v : ℕ) → length (le_bytes 4 v) ≡ 4
      len4 v = length-le_bytes 4 v

      len8 : (v : ℕ) → length (le_bytes 8 v) ≡ 8
      len8 v = length-le_bytes 8 v

      at_dimension : field_at 8 4 (layout d n f s digest) ≡ d
      at_dimension = field_here 4 d _ fits.dimension

      at_count : field_at 12 8 (layout d n f s digest) ≡ n
      at_count = field_skip 4 0 4 8 (le_bytes 4 d) _ (len4 d) refl ∙ field_here 8 n _ fits.count

      at_size : field_at 20 4 (layout d n f s digest) ≡ f
      at_size =
          field_skip 4 8 12 4 (le_bytes 4 d) _ (len4 d) refl
          ∙ field_skip 8 0 8 4 (le_bytes 8 n) _ (len8 n) refl
          ∙ field_here 4 f _ fits.size

      at_source : field_at 24 8 (layout d n f s digest) ≡ s
      at_source =
          field_skip 4 12 16 8 (le_bytes 4 d) _ (len4 d) refl
          ∙ field_skip 8 4 12 8 (le_bytes 8 n) _ (len8 n) refl
          ∙ field_skip 4 0 4 8 (le_bytes 4 f) _ (len4 f) refl
          ∙ field_here 8 s _ fits.source

      at_digest : take 32 (drop 32 (layout d n f s digest)) ≡ digest
      at_digest =
          ap (take 32) (
            drop-append_add 4 20 24 (le_bytes 4 d) _ (len4 d) refl
            ∙ drop-append_add 8 12 20 (le_bytes 8 n) _ (len8 n) refl
            ∙ drop-append_add 4 8 12 (le_bytes 4 f) _ (len4 f) refl
            ∙ drop-append_add 8 0 8 (le_bytes 8 s) _ (len8 s) refl)
          ∙ take-of_length 32 digest (omega (arith, fits.digest_length))

  length-layout : length (layout d n f s digest) ≡ 64
  length-layout = omega (
    arith,
    length-append (le_bytes 4 d) (le_bytes 8 n ++ (le_bytes 4 f ++ (le_bytes 8 s ++ digest))),
    length-append (le_bytes 8 n) (le_bytes 4 f ++ (le_bytes 8 s ++ digest)),
    length-append (le_bytes 4 f) (le_bytes 8 s ++ digest),
    length-append (le_bytes 8 s) digest,
    length-le_bytes 4 d,
    length-le_bytes 8 n,
    length-le_bytes 4 f,
    length-le_bytes 8 s,
    fits.digest_length,
  )

  read_fixed-layout :
      (rest : Bytes)
      → read_fixed (layout d n f s digest ++ rest) ≡ ok (unpacked d n f s digest, rest)
  read_fixed-layout rest =
      read_fixed_v2 (layout d n f s digest) rest length-layout refl
      ∙ ap (λ (u : Fixed). ok (u, rest)) unpack_v2-layout

pack_v2-eq-ok :
    (d n f s : ℕ) (digest bs : Bytes)
    → length digest ≡ 32
    → pack_v2 d n f s digest ≡ ok bs
    → Fits d n f s digest × (bs ≡ layout d n f s digest)
unfolding pack_v2
pack_v2-eq-ok d n f s digest bs g h =
    let (b1, p1, h1) = >>=-eq-ok (pack_field 4 d) _ h in
    let (b2, p2, h2) = >>=-eq-ok (pack_field 8 n) _ h1 in
    let (b3, p3, h3) = >>=-eq-ok (pack_field 4 f) _ h2 in
    let (b4, p4, h4) = >>=-eq-ok (pack_field 8 s) _ h3 in
    let (c1, e1) = pack_field-eq-ok 4 d b1 p1 in
    let (c2, e2) = pack_field-eq-ok 8 n b2 p2 in
    let (c3, e3) = pack_field-eq-ok 4 f b3 p3 in
    let (c4, e4) = pack_field-eq-ok 8 s b4 p4 in
    (
      record { dimension = c1; count = c2; size = c3; source = c4; digest_length = g },
      cc (h4, e1, e2, e3, e4),
    )

from_hex_text-eq-ok :
    (t : Text) (digest : Bytes) → from_hex_text t ≡ ok digest → from_hex t ≡ some digest
from_hex_text-eq-ok t digest h = ground arith

decode_fingerprint_lem :
    (raw : Bytes) (text : Text) → decode raw ≡ some text → decode_fingerprint raw ≡ ok text
decode_fingerprint_lem raw text h = ground arith

-- What a successful `cache_v2_header` has established, and the bytes that it returned.
pub record IsHeader (d n : ℕ) (fingerprint : Text) (s : ℕ) (sha header : Bytes) : Type 0 where
  pub raw : Bytes
  pub digest : Bytes
  pub encoded : encode_text fingerprint ≡ ok raw
  pub digits : from_hex sha ≡ some digest
  pub positive_dimension : (d == 0) ≡ false
  pub positive_count : (n == 0) ≡ false
  pub small : ltb max_fingerprint_bytes (length raw) ≡ false
  pub fits : Fits d n (length raw) s digest
  pub bytes : header ≡ layout d n (length raw) s digest ++ raw

pub cache_v2_header-IsHeader :
    (d n : ℕ) (fingerprint : Text) (s : ℕ) (sha header : Bytes)
    → cache_v2_header d n fingerprint s sha ≡ ok header
    → IsHeader d n fingerprint s sha header
unfolding cache_v2_header
cache_v2_header-IsHeader d n fingerprint s sha header h =
    let (raw, encoded, h1) = >>=-eq-ok (encode_text fingerprint) _ h in
    let (values, h2) =
      raise_if-eq-ok
        (d == 0 || (n == 0 || (length raw == 0 || ltb max_fingerprint_bytes (length raw))))
        (value_error "invalid V2 cache header values") _ h1 in
    let (digest, digits, h3) = >>=-eq-ok (from_hex_text sha) _ h2 in
    let (long, h4) =
      raise_if-eq-ok (not (length digest == 32)) (value_error "invalid V2 source identity") _ h3 in
    let (fixed, packed, h5) = >>=-eq-ok (pack_v2 d n (length raw) s digest) _ h4 in
    let (fits, same) = pack_v2-eq-ok d n (length raw) s digest fixed (ground arith) packed in
    record {
      raw = raw;
      digest = digest;
      encoded = encoded;
      digits = from_hex_text-eq-ok sha digest digits;
      positive_dimension = ground arith;
      positive_count = ground arith;
      small = ground arith;
      fits = fits;
      bytes = cc (h5, same);
    }

module _ (d n : ℕ) (fingerprint : Text) (s : ℕ) (sha header : Bytes)
    (h : IsHeader d n fingerprint s sha header) (payload : Bytes) where
  -- The header as the reader returns it.
  abbrev pub header_read : Header
  header_read = record {
    fixed = unpacked d n (length h.raw) s h.digest;
    fingerprint_raw = h.raw;
    fingerprint = fingerprint;
    payload = payload;
    vector_offset = 64 + length h.raw;
  }

  -- The written header, with any payload behind it, is read back field by field.
  pub read_header-IsHeader : read_header (header ++ payload) ≡ ok header_read
  unfolding read_header
  read_header-IsHeader = rw (
    h.bytes,
    append_assoc (layout d n (length h.raw) s h.digest) h.raw payload,
    read_fixed-layout d n (length h.raw) s h.digest h.fits (h.raw ++ payload),
    h.positive_dimension,
    h.positive_count,
    h.small,
    take-append (length h.raw) h.raw payload refl,
    drop-append (length h.raw) h.raw payload refl,
    ==_self (length h.raw),
    decode_fingerprint_lem h.raw fingerprint (decode-encode_text fingerprint h.raw h.encoded),
  )

  pub length-IsHeader : length header ≡ 64 + length h.raw
  length-IsHeader =
      ap length h.bytes
      ∙ length-append (layout d n (length h.raw) s h.digest) h.raw
      ∙ ap (λ (k : ℕ). k + length h.raw) (length-layout d n (length h.raw) s h.digest h.fits)
