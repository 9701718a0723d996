-- ===== src/CachedServer/Laws.antt =====
-- What a server that has started answers.
use leann_cpp.Prelude.{
  of_not, ℕ, zero, suc, ◌+◌, ◌<◌, ◌≡◌, ◌⊎◌, inl, inr, refl, ap, sym, subst, ◌∙◌, Bool, true, false,
  not, Option, some, List, [], ◌∷◌, length, get_elem?, All, eq_list, eq_list_self, eq_of_eq_list,
  Bool-cases, Option-cases, ok, value_error, >>=-eq-ok, raise_if-eq-ok, ok-injective, arith, ◌==◌,
  ==_iff,
}
use leann_cpp.Bytes.{Text}
use leann_cpp.Platform.{Float32, Digest, Disk}
use leann_cpp.Lines.{file_lines}
use leann_cpp.Cache.Matrix.{Matrix}
use leann_cpp.Cache.Read.{sha256_hex, read_cache}
use leann_cpp.Generate.Inputs.{read_file}
use leann_cpp.Embedding.{Declared}
use leann_cpp.Metrics.Cached.{CachedMetrics, request, response}
use leann_cpp.CachedServer.{
  Table, lookup_row, equal_rows, text_to_row, embed_texts, check_source, check_provenance,
  load_server, embeddings, posts_texts, handle,
}

module _ {A : Type 0} where
  get_elem?-below : (xs : List A) (i : ℕ) (x : A) → get_elem? xs i ≡ some x → i < length xs
  get_elem?-below [] i x h = cc
  get_elem?-below (y ∷ xs) zero x h = omega arith
  get_elem?-below (y ∷ xs) (suc i) x h = omega (arith, get_elem?-below xs i x h)

  below-get_elem? : (xs : List A) (i : ℕ) → i < length xs → (x : A) × (get_elem? xs i ≡ some x)
  below-get_elem? [] i h = absurd (omega arith)
  below-get_elem? (y ∷ xs) zero h = (y, refl)
  below-get_elem? (y ∷ xs) (suc i) h = below-get_elem? xs i (omega arith)

lookup_row-∷ :
    (text t : Text) (row : ℕ) (table : Table)
    → eq_list t text ≡ false
    → lookup_row text ((t, row) ∷ table) ≡ lookup_row text table
lookup_row-∷ text t row table h = rw h refl

module _ (F : Float32) (same : F.Scalar → F.Scalar → Bool) (vectors : List (List F.Scalar)) where
  open F use {Scalar}

  -- The row is the given one, or equal to it.
  abbrev pub IsRowOf : ℕ → ℕ → Type 0
  IsRowOf first row =
      (first ≡ row) ⊎ (equal_rows F same (get_elem? vectors first) (get_elem? vectors row) ≡ true)

  -- What is in a table stays there.
  text_to_row-kept :
      (row : ℕ) (documents : List Text) (table out : Table) (text : Text) (first : ℕ)
      → text_to_row F same vectors row documents table ≡ ok out
      → lookup_row text table ≡ some first
      → lookup_row text out ≡ some first
  unfolding text_to_row
  text_to_row-kept row [] table out text first h e = rw (← ok-injective _ _ h) e
  text_to_row-kept row (d ∷ documents) table out text first h e =
      elim (Option-cases (lookup_row d table)) [
        | inl new ↦
            let h' = rw (new, text_to_row) at h in
            text_to_row-kept (suc row) documents ((d, row) ∷ table) out text first h'
              (elim (Bool-cases (eq_list d text)) [
                | inl e' ↦
                    let s : d ≡ text = eq_of_eq_list d text e' in
                    absurd (cc (ap (λ (t : Text). lookup_row t table) s))
                | inr n ↦ lookup_row-∷ text d row table n ∙ e
              ])
        | inr (previous, old) ↦
            let h' = rw (old, text_to_row) at h in
            let (t, h'') = raise_if-eq-ok _ _ _ h' in
            text_to_row-kept (suc row) documents table out text first h'' e
      ]

  -- Each document is in the table, with an equal row.
  text_to_row-IsRowOf :
      (row : ℕ) (documents : List Text) (table out : Table) (i : ℕ) (text : Text)
      → text_to_row F same vectors row documents table ≡ ok out
      → get_elem? documents i ≡ some text
      → (first : ℕ) × (lookup_row text out ≡ some first) × IsRowOf first (row + i)
  unfolding text_to_row
  text_to_row-IsRowOf row [] table out i text h e = cc
  text_to_row-IsRowOf row (d ∷ documents) table out zero text h e =
      let s : d ≡ text = cc e in
      let at_row : row + 0 ≡ row = omega arith in
      elim (Option-cases (lookup_row d table)) [
        | inl new ↦
            let h' = rw (new, text_to_row) at h in
            let found : lookup_row text ((d, row) ∷ table) ≡ some row =
              rw (← s, eq_list_self d) refl in
            (
              row,
              text_to_row-kept (suc row) documents ((d, row) ∷ table) out text row h' found,
              inl (sym at_row),
            )
        | inr (previous, old) ↦
            let h' = rw (old, text_to_row) at h in
            let (t, h'') = raise_if-eq-ok _ _ _ h' in
            (
              previous,
              text_to_row-kept (suc row) documents table out text previous h''
                  (ap (λ (x : Text). lookup_row x table) (sym s) ∙ old),
              inr (rw at_row (of_not _ t)),
            )
      ]
  text_to_row-IsRowOf row (d ∷ documents) table out (suc i) text h e =
      let at_row : suc row + i ≡ row + suc i = omega arith in
      elim (Option-cases (lookup_row d table)) [
        | inl new ↦
            let h' = rw (new, text_to_row) at h in
            rw (← at_row)
              (text_to_row-IsRowOf (suc row) documents ((d, row) ∷ table) out i text h' e)
        | inr (previous, old) ↦
            let h' = rw (old, text_to_row) at h in
            let (t, h'') = raise_if-eq-ok _ _ _ h' in
            rw (← at_row) (text_to_row-IsRowOf (suc row) documents table out i text h'' e)
      ]

  -- A row in the table was there before, or is that of a document.
  text_to_row-below :
      (row : ℕ) (documents : List Text) (table out : Table) (text : Text) (first : ℕ)
      → text_to_row F same vectors row documents table ≡ ok out
      → lookup_row text out ≡ some first
      → (lookup_row text table ≡ some first) ⊎ (first < row + length documents)
  unfolding text_to_row
  text_to_row-below row [] table out text first h e = inl (rw (ok-injective _ _ h) e)
  text_to_row-below row (d ∷ documents) table out text first h e =
      elim (Option-cases (lookup_row d table)) [
        | inl new ↦
            let h' = rw (new, text_to_row) at h in
            later (text_to_row-below (suc row) documents ((d, row) ∷ table) out text first h' e)
        | inr (previous, old) ↦
            let h' = rw (old, text_to_row) at h in
            let (t, h'') =
              raise_if-eq-ok
                (not (equal_rows F same (get_elem? vectors previous) (get_elem? vectors row)))
                (value_error "duplicate corpus text maps to different cached vectors")
                (text_to_row F same vectors (suc row) documents table) h' in
            elim (text_to_row-below (suc row) documents table out text first h'' e) [
              | inl before ↦ inl before
              | inr below ↦ inr (omega arith)
            ]
      ]
    where
      later :
          (lookup_row text ((d, row) ∷ table) ≡ some first) ⊎ (first < suc row + length documents)
          → (lookup_row text table ≡ some first) ⊎ (first < row + length (d ∷ documents))
      later (inr below) = inr (omega arith)
      later (inl now) = elim (Bool-cases (eq_list d text)) [
        | inl e' ↦ let s : row ≡ first = cc (rw e' at now) in inr (omega arith)
        | inr n ↦ inl (sym (lookup_row-∷ text d row table n) ∙ now)
      ]

  module _ (documents : List Text) (table : Table) where
    abbrev pub IsLine : Text → Type 0
    IsLine text = (i : ℕ) × (get_elem? documents i ≡ some text)

    -- Each text has its index, and a vector that is the row of each line with this text, or equal to
    -- it.
    abbrev pub AnswersTexts : ℕ → List Text → List (ℕ × List Scalar) → Type 0
    AnswersTexts index [] [] = Unit
    AnswersTexts index (text ∷ texts) ((j, vector) ∷ rows) =
        (j ≡ index)
        × ((i : ℕ)
            → get_elem? documents i ≡ some text
            → (get_elem? vectors i ≡ some vector)
              ⊎ (equal_rows F same (some vector) (get_elem? vectors i) ≡ true))
        × AnswersTexts (suc index) texts rows
    AnswersTexts index _ _ = ⊥

    embed_texts-AnswersTexts :
        (index : ℕ) (texts : List Text)
        → text_to_row F same vectors 0 documents [] ≡ ok table
        → length documents ≡ length vectors
        → All IsLine texts
        → (rows : List (ℕ × List Scalar)) × (embed_texts F same vectors table index texts ≡ ok rows)
          × AnswersTexts index texts rows
    unfolding embed_texts
    embed_texts-AnswersTexts index [] built sized lines = ([], refl, tt)
    embed_texts-AnswersTexts index (text ∷ texts) built sized ((line, there), lines) =
        let (rows, e, answers) = embed_texts-AnswersTexts (suc index) texts built sized lines in
        let (first, found, equal) =
          text_to_row-IsRowOf 0 documents [] table line text built there in
        let below : first < length vectors =
          elim (text_to_row-below 0 documents [] table text first built found) [
            | inl before ↦ absurd (cc before)
            | inr below ↦ omega (arith, below, sized)
          ] in
        let (vector, row) = below-get_elem? vectors first below in
        (
          (index, vector) ∷ rows,
          rw (found, row, e, embed_texts) refl,
          (
            refl,
            λ i at.
                equal_row vector first row found i
                  (text_to_row-IsRowOf 0 documents [] table i text built at),
            answers,
          ),
        )
      where
        equal_row :
            (vector : List Scalar) (first : ℕ)
            → get_elem? vectors first ≡ some vector
            → lookup_row text table ≡ some first
            → (i : ℕ) → (other : ℕ) × (lookup_row text table ≡ some other) × IsRowOf other (0 + i)
            → (get_elem? vectors i ≡ some vector)
              ⊎ (equal_rows F same (some vector) (get_elem? vectors i) ≡ true)
        equal_row vector first row found i (other, also, equal) =
            let e : other ≡ first = cc (sym also ∙ found) in
            let at_i : 0 + i ≡ i = omega arith in
            elim (subst (λ (k : ℕ). IsRowOf other k) at_i equal) [
              | inl is ↦ inl (ap (λ (k : ℕ). get_elem? vectors k) (sym is ∙ e) ∙ row)
              | inr eq ↦ inr (rw (← row, ← e) eq)
            ]

    handle-AnswersTexts :
        (texts : List Text) (m : CachedMetrics)
        → text_to_row F same vectors 0 documents [] ≡ ok table
        → length documents ≡ length vectors
        → All IsLine texts
        → (rows : List (ℕ × List Scalar)) × (handle F same vectors table (posts_texts texts) m
            ≡ (response 200 (request (length texts) m), embeddings rows))
          × AnswersTexts 0 texts rows
    unfolding handle
    handle-AnswersTexts texts m built sized lines =
        let (rows, e, answers) = embed_texts-AnswersTexts 0 texts built sized lines in
        (rows, rw (e, handle) refl, answers)

-- What `main` has checked before the server starts.
load_server-eq-ok :
    (F : Float32) (same : F.Scalar → F.Scalar → Bool) (D : Digest) (disk : Disk) (V : Type 0)
    (documents_path cache_path : Text) (sidecar : Option (Declared V)) (allow_v1 : Bool)
    (documents : List Text) (vectors : Matrix F.Scalar) (table : Table)
    → load_server F same D disk V documents_path cache_path sidecar allow_v1
      ≡ ok (documents, (vectors, table))
    → (length documents ≡ length vectors.rows)
      × (text_to_row F same vectors.rows 0 documents [] ≡ ok table)
unfolding load_server
load_server-eq-ok F same D disk V documents_path cache_path sidecar allow_v1 documents vectors table
      h =
    let (b1, e1, h1) = >>=-eq-ok (read_file disk documents_path) _ h in
    let (lines, e2, h2) = >>=-eq-ok (file_lines b1) _ h1 in
    let (b2, e3, h3) = >>=-eq-ok (read_file disk cache_path) _ h2 in
    let ((m, metadata), e4, h4) = >>=-eq-ok (read_cache F D b2) _ h3 in
    let (u5, e5, h5) =
      >>=-eq-ok (check_source F same D disk V metadata documents_path (length lines) allow_v1) _
        h4 in
    let (t6, h6) =
      raise_if-eq-ok (not (length lines == length m.rows)) (value_error "Document/cache mismatch") _
        h5 in
    let (u7, e7, h7) =
      >>=-eq-ok (check_provenance F same D disk V metadata (sha256_hex D b2) sidecar) _ h6 in
    let (t, e8, h8) = >>=-eq-ok (text_to_row F same m.rows 0 lines []) _ h7 in
    let whole : ◌≡◌ {A = List Text × (Matrix F.Scalar × Table)} (lines, (m, t))
        (documents, (vectors, table)) =
      ok-injective _ _ h8 in
    subst
      (λ (s : List Text × (Matrix F.Scalar × Table)).
        (length s.0 ≡ length s.1.0.rows) × (text_to_row F same s.1.0.rows 0 s.0 [] ≡ ok s.1.1))
      whole ((==_iff _ _).0 (of_not _ t6), e8)

-- A server that has started answers a request for texts that are lines of its documents with status
-- 200 and, for each text in its order, a vector that is the row of each line with this text or equal
-- to it; the request and the response are counted.
pub load_server-AnswersTexts :
    (F : Float32) (same : F.Scalar → F.Scalar → Bool) (D : Digest) (disk : Disk) (V : Type 0)
    (documents_path cache_path : Text) (sidecar : Option (Declared V)) (allow_v1 : Bool)
    (documents : List Text) (vectors : Matrix F.Scalar) (table : Table) (texts : List Text)
    (m : CachedMetrics)
    → load_server F same D disk V documents_path cache_path sidecar allow_v1
      ≡ ok (documents, (vectors, table))
    → All (IsLine F same vectors.rows documents table) texts
    → (rows : List (ℕ × List F.Scalar)) × (handle F same vectors.rows table (posts_texts texts) m
        ≡ (response 200 (request (length texts) m), embeddings rows))
      × AnswersTexts F same vectors.rows documents table 0 texts rows
load_server-AnswersTexts F same D disk V documents_path cache_path sidecar allow_v1 documents
      vectors table texts m h lines =
    let (sized, built) =
      load_server-eq-ok F same D disk V documents_path cache_path sidecar allow_v1 documents vectors
        table h in
    handle-AnswersTexts F same vectors.rows documents table texts m built sized lines
