-- ===== src/Embedding/Rows.antt =====
-- The rows that a client returns, and the partial file that holds them.
use leann_cpp.Prelude.{
  ℕ, ◌<◌, ◌≡◌, ◌≢◌, ◌⊎◌, inl, inr, refl, ap, sym, subst, ◌∙◌, true, false, ◌==◌, Option, none, some,
  List, [], ◌∷◌, ◌++◌, append_assoc, length, All, All-append, all, all-append, arith, ok,
  value_error, >>=-eq-ok, raise_if-eq-ok, ok-injective, Option-cases, eq_list_self,
}
use leann_cpp.Bytes.{Bytes, Text}
use leann_cpp.Lines.{file_lines, count_nonempty_lines}
use leann_cpp.Cache.Matrix.{Matrix}
use leann_cpp.Cache.Matrix.Laws.{row_fits, validate_vector_matrix_iff}
use leann_cpp.Cache.Header.Laws.{IsHeader, cache_v2_header-IsHeader}
use leann_cpp.Cache.Read.{Metadata, Identity, metadata_of, sha256_hex, source_identity}
use leann_cpp.Cache.Write.{matrix_bytes, row_bytes}
use leann_cpp.Cache.Write.Whole.{
  source_identity-sha256, hex-from_hex, found, read_cache-file, validate_cache_source-found,
}
use leann_cpp.Generate.Inputs.{read_file}
use leann_cpp.Embedding.{cache_meta_schema, Declared, Setting}
use leann_cpp.Embedding.Existing.{accept_cache, check_sidecar, is_source_of}
use leann_cpp.Embedding.Client.Retries.{embed-IsEmbedding}
use leann_cpp.Embedding.Plan.{Call, Plan, hash_of_prefix, read_inputs}
use leann_cpp.Embedding.Generate.{header_of, request}

not_empty : {A : Type 0} (xs : List A) (n : ℕ) → length xs ≡ n → (n == 0) ≡ false → xs ≢ []
not_empty [] n e h = absurd (ground arith)
not_empty (x ∷ xs) n e h = λ same. cc

positive : (n : ℕ) → (n == 0) ≡ false → n ≢ 0
positive n h = ground arith

module _ (S : Setting) (p : Plan S) (w : ℕ) where
  open S use {Value, same, digest, floats, disk}
  open p use {arguments, source}

  -- Inputs that are read, without a prefix cache, and a header for the dimension `w`, which is not
  -- asked for or is that of the endpoint.
  pub record IsFit : Type 0 where
    pub planned : read_inputs S arguments p.now ≡ ok p
    pub header : Bytes
    pub headed : header_of S p w ≡ ok header
    pub dimension : (arguments.dimension ≡ none) ⊎ (arguments.dimension ≡ some w)
    pub no_prefix : arguments.prefix_cache ≡ none
    pub batch : 0 < arguments.batch_size
    pub bindings : same arguments.bindings arguments.bindings ≡ true

  -- What the inputs say, once they are read.
  pub read_inputs-eq-ok :
      read_inputs S arguments p.now ≡ ok p
      → (source_identity digest disk arguments.source_path ≡ ok source)
        × ((source.nonempty_lines == 0) ≡ false)
        × (file_b : Bytes) × (disk arguments.source_path ≡ some file_b)
        × (file_lines file_b ≡ ok p.lines)
        × (sha : Option Text) × (hash_of_prefix S arguments.prefix_cache ≡ ok sha)
  unfolding read_inputs
  read_inputs-eq-ok h =
      let (found_source, e1, h1) =
        >>=-eq-ok (source_identity digest disk arguments.source_path) _ h in
      let (t2, h2) =
        raise_if-eq-ok (found_source.nonempty_lines == 0) (value_error "no non-empty input lines") _
          h1 in
      let (sha, e3, h3) = >>=-eq-ok (hash_of_prefix S arguments.prefix_cache) _ h2 in
      let (b, e4, h4) = >>=-eq-ok (read_file disk arguments.source_path) _ h3 in
      let (lines, e5, h5) = >>=-eq-ok (file_lines b) _ h4 in
      let q = ok-injective _ p h5 in
      let es : found_source ≡ source = ap (λ (k : Plan S). k.source) q in
      let el : lines ≡ p.lines = ap (λ (k : Plan S). k.lines) q in
      (
        e1 ∙ ap (λ (i : Identity). ok i) es,
        ap (λ (i : Identity). i.nonempty_lines == 0) (sym es) ∙ t2,
        b,
        read_file-eq-ok b e4,
        e5 ∙ ap (λ (l : List Text). ok l) el,
        sha,
        e3,
      )
    where
      read_file-eq-ok :
          (b : Bytes)
          → read_file disk arguments.source_path ≡ ok b
          → disk arguments.source_path ≡ some b
      read_file-eq-ok b h = elim (Option-cases (disk arguments.source_path)) [
        | inl gone ↦ absurd (cc (rw (gone, read_file) at h))
        | inr (b', there) ↦ let e : b' ≡ b = cc (rw (there, read_file) at h) in there ∙ ap some e
      ]

  -- The lines that are read are those that were counted.
  pub length-lines : read_inputs S arguments p.now ≡ ok p → length p.lines ≡ source.nonempty_lines
  unfolding source_identity count_nonempty_lines
  length-lines h =
      let (e, t, b, there, lines, sha, hashed) = read_inputs-eq-ok h in
      let e' = rw (there, source_identity, lines, count_nonempty_lines) at e in
      ap (λ (i : Identity). i.nonempty_lines) (ok-injective _ source e')

  -- Rows of this dimension that may be stored.
  abbrev pub AreRows : List (List floats.Scalar) → Type 0
  AreRows rows = All (λ row. length row ≡ w) rows × (all (row_fits floats true) rows ≡ true)

  pub AreRows-append :
      (xs ys : List (List floats.Scalar)) → AreRows xs → AreRows ys → AreRows (xs ++ ys)
  AreRows-append xs ys (a, b) (c, d) =
      (All-append _ xs ys a c, all-append (row_fits floats true) xs ys ∙ rw (b, d) refl)

  -- Every answer has this dimension.
  abbrev pub HasDimension : Call S → Type 0
  HasDimension c =
      (d : Option ℕ) (texts : List Text) (m : Matrix floats.Scalar)
      → request S c d texts ≡ ok m
      → m.width ≡ w

  pub request-AreRows :
      (c : Call S) (d : Option ℕ) (texts : List Text) (m : Matrix floats.Scalar)
      → HasDimension c
      → request S c d texts ≡ ok m
      → (length m.rows ≡ length texts) × AreRows m.rows
  request-AreRows c d texts m h e =
      let (n, le, before, items, answered, (counted, square, valid, r4, r5, r6, r7)) =
        embed-IsEmbedding floats (c.answers texts) c.retries texts d m e in
      let (filled, wide, fit) =
        (validate_vector_matrix_iff floats true 8192 m (omega arith)).0 valid in
      (counted, (subst (λ (k : ℕ). All (λ row. length row ≡ k) m.rows) (h d texts m e) square, fit))

  module _ (fit : IsFit) where
    -- The partial file that holds these rows.
    abbrev pub committed : List (List floats.Scalar) → Bytes
    committed rows = fit.header ++ matrix_bytes digest floats rows

    matrix_bytes-append :
        (xs ys : List (List floats.Scalar))
        → matrix_bytes digest floats (xs ++ ys)
          ≡ matrix_bytes digest floats xs ++ matrix_bytes digest floats ys
    unfolding matrix_bytes
    matrix_bytes-append [] ys = refl
    matrix_bytes-append (x ∷ xs) ys =
        ap (λ (t : Bytes). row_bytes digest floats x ++ t) (matrix_bytes-append xs ys)
        ∙ sym (
            append_assoc (row_bytes digest floats x) (matrix_bytes digest floats xs)
              (matrix_bytes digest floats ys))

    pub committed-append :
        (xs ys : List (List floats.Scalar))
        → committed xs ++ matrix_bytes digest floats ys ≡ committed (xs ++ ys)
    committed-append xs ys =
        append_assoc fit.header (matrix_bytes digest floats xs) (matrix_bytes digest floats ys)
        ∙ ap (λ (t : Bytes). fit.header ++ t) (sym (matrix_bytes-append xs ys))

    -- What the metadata of the whole cache say of the inputs.
    abbrev pub IsAccepted : Bytes → Metadata → Type 0
    IsAccepted b metadata =
        (accept_cache S arguments.source_path b ≡ ok metadata)
        × (metadata.fingerprint ≡ arguments.fingerprint)
        × (is_source_of S (some source) metadata ≡ true)

    pub accept_cache-committed :
        (rows : List (List floats.Scalar))
        → AreRows rows
        → length rows ≡ source.nonempty_lines
        → (metadata : Metadata) × IsAccepted (committed rows) metadata
    unfolding accept_cache
    accept_cache-committed rows good counted =
        let inputs = read_inputs-eq-ok fit.planned in
        let identified = inputs.0 in
        let filled = inputs.1 in
        let n = source.nonempty_lines in
        let whole : IsHeader w n arguments.fingerprint source.size_bytes source.sha256 fit.header =
          cache_v2_header-IsHeader _ _ _ _ _ _ fit.headed in
        let is_header : IsHeader w (length rows) arguments.fingerprint source.size_bytes
            source.sha256 fit.header =
          subst
            (λ (k : ℕ).
              IsHeader w k arguments.fingerprint source.size_bytes source.sha256 fit.header)
            (sym counted) whole in
        let m : Matrix floats.Scalar = record { width = w; rows = rows } in
        let valid =
          (validate_vector_matrix_iff floats true 8192 m (omega arith)).1
            (not_empty rows n counted filled, positive w whole.positive_dimension, good.1) in
        let read =
          read_cache-file digest floats m arguments.fingerprint source.size_bytes source.sha256
            fit.header is_header valid good.0 in
        let bound =
          validate_cache_source-found digest floats m arguments.fingerprint source.size_bytes
            source.sha256 fit.header is_header valid good.0 disk arguments.source_path source
            identified counted refl refl in
        let (source_file, e) =
          source_identity-sha256 digest floats disk arguments.source_path source identified in
        let digits =
          hex-from_hex digest floats source_file is_header.digest source.sha256 e
            is_header.digits in
        (
          metadata_of floats digest (committed rows) (
              found digest floats m arguments.fingerprint source.size_bytes source.sha256 fit.header
                is_header valid good.0),
          (rw (read, bound) refl, refl, rw digits (eq_list_self source.sha256)),
        )

    -- A sidecar of this cache for these inputs.
    abbrev pub Conforms : Bytes → Declared Value → Type 0
    Conforms b declared =
        (declared.schema ≡ some cache_meta_schema)
        × (declared.role ≡ some arguments.role)
        × (declared.model ≡ some arguments.model)
        × (declared.bindings ≡ some arguments.bindings)
        × (declared.cache_sha256 ≡ some (sha256_hex digest b))
        × (declared.source ≡ some source)

    pub check_sidecar-Conforms :
        (b : Bytes) (metadata : Metadata) (declared : Declared Value)
        → is_source_of S (some source) metadata ≡ true
        → Conforms b declared
        → check_sidecar S arguments b metadata declared ≡ ok tt
    unfolding check_sidecar
    check_sidecar-Conforms b metadata declared h (schema, role, model, bindings, sha, from) =
        rw schema (
          rw (role, eq_list_self arguments.role)
            (rw (model, eq_list_self arguments.model.sha256)
              (rw (bindings, fit.bindings)
                (rw (sha, eq_list_self (sha256_hex digest b)) (rw (from, h) refl)))))
