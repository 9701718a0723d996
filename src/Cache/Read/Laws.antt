-- ===== src/Cache/Read/Laws.antt =====
-- The reader takes a whole file: no cache that it accepts is a proper part of another.
use leann_cpp.Prelude.{
  All, String, ℕ, zero, suc, ◌+◌, ◌*◌, ◌≤◌, ◌<◌, ◌≢◌, all, ◌≡◌, refl, ap, true, false, ◌||◌, not,
  Option, none, some, List, [], ◌∷◌, ◌++◌, arith, length, take, drop, length-append, length-take,
  take-append_le, drop-append_le, eq_list, ltb, ◌==◌, Result, ok, err, value_error, >>=-eq-ok,
  raise_if-eq-ok, Bool-cases, inl, inr,
}
use leann_cpp.Bytes.{Bytes}
use leann_cpp.Platform.{Digest, Float32}
use leann_cpp.Cache.Matrix.{Matrix, validate_vector_matrix}
use leann_cpp.Cache.Matrix.Laws.{row_fits, validate_vector_matrix_iff}
use leann_cpp.Cache.Header.{
  Binding, magic_v1, magic_v2, max_fingerprint_bytes, Fixed, Header, read_part, read_fixed,
  unpack_v1, unpack_v2, read_header, decode_fingerprint,
}
use leann_cpp.Cache.Read.{
  Metadata, read_cache, memmap, metadata_of, is_v2, hex_binding, read_rows, read_row,
}

positive {ℓ} : {A : Type ℓ} (xs : List A) → xs ≢ [] → 0 < length xs
positive [] h = absurd (h refl)
positive (x ∷ xs) h = omega arith

of_not-false : (a b : ℕ) → not (a == b) ≡ false → a ≡ b
of_not-false a b h = ground arith

longer_ne : (total a b c : ℕ) → total ≡ a + b → 0 < b → a ≡ c → (total == c) ≡ false
longer_ne total a b c h p e = ground arith

ok_fst {ℓ κ} :
    {A : Type ℓ} {B : Type κ} (a a' : A) (b b' : B)
    → ◌≡◌ {A = Result (A × B)} (ok (a, b)) (ok (a', b'))
    → a ≡ a'
ok_fst a a' b b' h = cc

ok_snd {ℓ κ} :
    {A : Type ℓ} {B : Type κ} (a a' : A) (b b' : B)
    → ◌≡◌ {A = Result (A × B)} (ok (a, b)) (ok (a', b'))
    → b ≡ b'
ok_snd a a' b b' h = cc

is_v2-hex_binding : (b : Option Binding) → is_v2 (hex_binding b) ≡ is_v2 b
is_v2-hex_binding none = refl
is_v2-hex_binding (some b) = refl

module _ (F : Float32) where
  length-read_rows : (n w : ℕ) (payload : Bytes) → length (read_rows F n w payload) ≡ n
  unfolding read_rows
  length-read_rows zero w payload = refl
  length-read_rows (suc n) w payload = ap suc (length-read_rows n w (drop (w * 4) payload))

  length-read_row : (w : ℕ) (payload : Bytes) → length (read_row F w payload) ≡ w
  unfolding read_row
  length-read_row zero payload = refl
  length-read_row (suc w) payload = ap suc (length-read_row w (drop 4 payload))

  All-read_rows :
      (n w : ℕ) (payload : Bytes) → All (λ row. length row ≡ w) (read_rows F n w payload)
  unfolding read_rows
  All-read_rows zero w payload = tt
  All-read_rows (suc n) w payload =
      (length-read_row w payload, All-read_rows n w (drop (w * 4) payload))

read_part-length :
    (size : ℕ) (message : String) (unpack : Bytes → Fixed) (file : Bytes) {r : Fixed × Bytes}
    → read_part size message unpack file ≡ ok r
    → size ≤ length file
unfolding read_part
read_part-length size message unpack file h =
    let (long, _) =
      raise_if-eq-ok (not (length (take size file) == size)) (value_error message) _ h in
    ground (arith, length-take size file)

read_part-append :
    (size : ℕ) (message : String) (unpack : Bytes → Fixed) (file extra : Bytes) (fixed : Fixed)
    (rest : Bytes)
    → read_part size message unpack file ≡ ok (fixed, rest)
    → read_part size message unpack (file ++ extra) ≡ ok (fixed, rest ++ extra)
unfolding read_part
read_part-append size message unpack file extra fixed rest h =
    let long = read_part-length size message unpack file h in
    let (t, e) = raise_if-eq-ok (not (length (take size file) == size)) (value_error message) _ h in
    rw (take-append_le size file extra long, drop-append_le size file extra long, t) (cc e)

read_fixed-append :
    (file extra : Bytes) (fixed : Fixed) (rest : Bytes)
    → read_fixed file ≡ ok (fixed, rest)
    → read_fixed (file ++ extra) ≡ ok (fixed, rest ++ extra)
unfolding read_fixed
read_fixed-append file extra fixed rest h = elim (Bool-cases (eq_list (take 8 file) magic_v1)) [
  | inl one ↦
      let h' : read_part 24 "truncated V1 cache header" unpack_v1 file ≡ ok (fixed, rest) =
        rw one at h in
      let long = read_part-length 24 _ unpack_v1 file h' in
      rw (take-append_le 8 file extra (omega arith), one)
        (read_part-append 24 _ unpack_v1 file extra fixed rest h')
  | inr other ↦ elim (Bool-cases (eq_list (take 8 file) magic_v2)) [
    | inl two ↦
        let h' : read_part 64 "truncated V2 cache header" unpack_v2 file ≡ ok (fixed, rest) =
          rw (other, two) at h in
        let long = read_part-length 64 _ unpack_v2 file h' in
        rw (take-append_le 8 file extra (omega arith), other, two)
          (read_part-append 64 _ unpack_v2 file extra fixed rest h')
    | inr bad ↦ absurd (cc (rw (other, bad) at h))
  ]
]

module _ (file extra : Bytes) where
  read_header-append :
      (h : Header)
      → read_header file ≡ ok h
      → read_header (file ++ extra) ≡ ok (record h { payload = h.payload ++ extra })
  unfolding read_header
  read_header-append h e =
      let ((fixed, rest), read, e1) = >>=-eq-ok (read_fixed file) _ e in
      let (t1, e2) =
        raise_if-eq-ok (fixed.dimension == 0 || fixed.count == 0)
          (value_error "cache dimension/count must be positive") _ e1 in
      let (t2, e3) =
        raise_if-eq-ok (ltb max_fingerprint_bytes fixed.fingerprint_size)
          (value_error "unreasonable fingerprint length") _ e2 in
      let (t3, e4) =
        raise_if-eq-ok (not (length (take fixed.fingerprint_size rest) == fixed.fingerprint_size))
          (value_error "truncated cache fingerprint") _ e3 in
      let (text, decoded, e5) =
        >>=-eq-ok (decode_fingerprint (take fixed.fingerprint_size rest)) _ e4 in
      let long : fixed.fingerprint_size ≤ length rest =
        ground (arith, length-take fixed.fingerprint_size rest) in
      rw
        (
          read_fixed-append file extra fixed rest read,
          t1,
          t2,
          take-append_le fixed.fingerprint_size rest extra long,
          t3,
          decoded,
          drop-append_le fixed.fingerprint_size rest extra long,
        )
        (cc e5)

  module _ (F : Float32) (D : Digest) where
    record Accepted (m : Matrix F.Scalar) (metadata : Metadata) : Type 0 where
      header : Header
      read : read_header file ≡ ok header
      long : length file ≡ header.vector_offset + header.fixed.count * header.fixed.dimension * 4
      valid : validate_vector_matrix F (is_v2 header.fixed.binding) 8192 (memmap F header) ≡ ok tt
      matrix : memmap F header ≡ m
      described : metadata_of F D file header ≡ metadata

    read_cache-Accepted :
        (m : Matrix F.Scalar) (metadata : Metadata)
        → read_cache F D file ≡ ok (m, metadata)
        → Accepted m metadata
    unfolding read_cache
    read_cache-Accepted m metadata e =
        let (h, read, e1) = >>=-eq-ok (read_header file) _ e in
        let (t, e2) =
          raise_if-eq-ok
            (not (length file == h.vector_offset + h.fixed.count * h.fixed.dimension * 4))
            (value_error "cache length mismatch") _ e1 in
        let (u, valid, e3) =
          >>=-eq-ok (validate_vector_matrix F (is_v2 h.fixed.binding) 8192 (memmap F h)) _ e2 in
        record {
          header = h;
          read = read;
          long = of_not-false _ _ t;
          valid = valid;
          matrix = ok_fst _ _ _ _ e3;
          described = ok_snd _ _ _ _ e3;
        }

    -- The reader refuses an accepted cache with anything appended to it, and so it accepts no
    -- proper prefix of a cache that it accepts.
    pub read_cache-append :
        (m : Matrix F.Scalar) (metadata : Metadata)
        → read_cache F D file ≡ ok (m, metadata)
        → extra ≢ []
        → read_cache F D (file ++ extra) ≡ err (value_error "cache length mismatch")
    unfolding read_cache
    read_cache-append m metadata e more =
        let a = read_cache-Accepted m metadata e in
        let h = a.header in
        rw (
          read_header-append h a.read,
          longer_ne (length (file ++ extra)) (length file) (length extra) _
              (length-append file extra) (positive extra more) a.long,
        )

    -- What the reader returns: a matrix whose rows all fit, as many as the header says and of its
    -- width, and in version 2 unit vectors; and the file is exactly as long as they need.
    pub read_cache_sound :
        (m : Matrix F.Scalar) (metadata : Metadata)
        → read_cache F D file ≡ ok (m, metadata)
        → (all (row_fits F (is_v2 metadata.binding)) m.rows ≡ true)
          × (m.rows ≢ [])
          × (m.width ≡ metadata.dimensions)
          × (length m.rows ≡ metadata.count)
          × (All (λ row. length row ≡ m.width) m.rows)
          × (metadata.size_bytes ≡ length file)
          × (length file ≡ metadata.vector_offset + metadata.count * metadata.dimensions * 4)
    read_cache_sound m metadata e =
        let a = read_cache-Accepted m metadata e in
        let h = a.header in
        let (filled, wide, fit) =
          (validate_vector_matrix_iff F (is_v2 h.fixed.binding) 8192 (memmap F h) (omega arith)).0
            a.valid in
        rw (← a.described, ← a.matrix)
          (
            rw (is_v2-hex_binding h.fixed.binding) fit,
            filled,
            refl,
            length-read_rows F h.fixed.count h.fixed.dimension h.payload,
            All-read_rows F h.fixed.count h.fixed.dimension h.payload,
            refl,
            a.long,
          )
