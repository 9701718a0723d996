-- ===== src/Prepare/Texts/Laws.antt =====
-- Prepared texts are lines, and keep within their byte budget.
use leann_cpp.Prelude.{
  of_not, ok-injective, ℕ, zero, suc, ◌+◌, ◌≤◌, ◌<◌, ◌≡◌, inl, inr, refl, sym, ap, subst, ◌∙◌, Bool,
  true, false, not, ◌&&◌, ◌||◌, List, [], ◌∷◌, ◌++◌, arith, length, length-append, take, all,
  all-append, All, leb, ltb, ◌==◌, if◌then◌else◌, Bool-cases, leb→le, ok, runtime_error, >>=-eq-ok,
  raise_if-eq-ok,
}
use leann_cpp.Bytes.{Bytes, Text}
use leann_cpp.Bytes.Utf8.{
  IsScalar, encode-append, encode, encode_char, encode_text, encode_text-eq-ok,
  encode_text-IsScalar,
}
use leann_cpp.Bytes.Utf8.Ignore.{decode_ignore}
use leann_cpp.Bytes.Utf8.Cut.{fit, decode_ignore-take, fit-greatest}
use leann_cpp.GroundTruth.Words.{is_space, split, starts_word, cons_word}
use leann_cpp.GroundTruth.Print.{join}
use leann_cpp.Prepare.Texts.{
  Value, str, null, other, JsonRecord, PreparedDocument, document_prefix, without_nul, clean_line,
  is_empty, rstrip, cut_text, truncate_utf8, get_or, starts_with, content_of, document_text,
}

-- A space, or what is no white space.
abbrev pub is_clean : ℕ → Bool
is_clean c = c == 32 || not (is_space c)

split_clean : (s : Text) → All (λ w. all is_clean w ≡ true) (split s)
unfolding split
split_clean [] = tt
split_clean (c ∷ s) = elim (Bool-cases (is_space c)) [
  | inl e ↦ rw e (split_clean s)
  | inr e ↦ rw e (cons_clean (starts_word s) c (split s) (clean c e) (split_clean s))
]
  where
    clean : (c : ℕ) → is_space c ≡ false → is_clean c ≡ true
    clean c e = elim (Bool-cases (c == 32)) [ inl a ↦ rw a refl | inr a ↦ rw (a, e) refl ]

    cons_clean :
        (b : Bool) (c : ℕ) (ws : List Text)
        → is_clean c ≡ true
        → All (λ w. all is_clean w ≡ true) ws
        → All (λ w. all is_clean w ≡ true) (cons_word b c ws)
    cons_clean true c (w ∷ ws) e (h, hs) = (rw (e, h) refl, hs)
    cons_clean true c [] e h = (rw e refl, tt)
    cons_clean false c ws e h = (rw e refl, h)

join_clean : (ws : List Text) → All (λ w. all is_clean w ≡ true) ws → all is_clean (join ws) ≡ true
join_clean [] h = refl
join_clean (w ∷ []) (h, hs) = h
join_clean (w ∷ v ∷ ws) (h, hs) =
    rw (all-append is_clean w (b' ' ∷ join (v ∷ ws)), h, join_clean (v ∷ ws) hs) refl

clean_line_clean : (v : Value) (s : Text) → clean_line v ≡ ok s → all is_clean s ≡ true
unfolding clean_line
clean_line_clean null s h = rw (← ok-injective _ _ h) refl
clean_line_clean other s h = cc
clean_line_clean (str value) s h =
    rw (← ok-injective _ _ h)
      (join_clean (split (without_nul value)) (split_clean (without_nul value)))

content_of_clean :
    (title text : Text)
    → all is_clean title ≡ true
    → all is_clean text ≡ true
    → all is_clean (content_of title text) ≡ true
content_of_clean [] text h k = k
content_of_clean (c ∷ title) [] h k = h
content_of_clean (c ∷ title) (d ∷ text) h k =
    all-append is_clean (c ∷ title) (b'.' ∷ b' ' ∷ d ∷ text) ∙ rw (h, k) refl

rstrip_clean : (s : Text) → all is_clean s ≡ true → all is_clean (rstrip s) ≡ true
rstrip_clean [] h = refl
rstrip_clean (c ∷ s) h =
    let a : is_clean c ≡ true = ground arith in
    let b : all is_clean s ≡ true = ground arith in
    elim (Bool-cases (is_space c && is_empty (rstrip s))) [
      | inl e ↦ rw e refl
      | inr e ↦ rw (e, a, rstrip_clean s b) refl
    ]

take_clean : (n : ℕ) (s : Text) → all is_clean s ≡ true → all is_clean (take n s) ≡ true
take_clean zero s h = refl
take_clean (suc n) [] h = refl
take_clean (suc n) (c ∷ s) h =
    let a : is_clean c ≡ true = ground arith in
    let b : all is_clean s ≡ true = ground arith in rw (a, take_clean n s b) refl

-- What truncate_utf8 makes of a text: the text, if it is within the budget; otherwise the longest
-- beginning that is, without white space at its end.
abbrev pub IsCut : Text → ℕ → Text × Bool → Type 0
IsCut value max_bytes (cut, false) = (cut ≡ value) × (length (encode value) ≤ max_bytes)
IsCut value max_bytes (cut, true) =
    (cut ≡ rstrip (take (fit max_bytes value) value))
    × (max_bytes < length (encode value))
    × (length (encode cut) ≤ max_bytes)
    × ((k : ℕ)
        → k ≤ length value
        → length (encode (take k value)) ≤ max_bytes
        → k ≤ fit max_bytes value)

cut_text-IsCut :
    (value : Text) (max_bytes : ℕ) (encoded : Bytes) (out : Text × Bool)
    → All IsScalar value
    → encoded ≡ encode value
    → max_bytes < length encoded
    → cut_text max_bytes encoded ≡ ok out
    → IsCut value max_bytes out
unfolding cut_text
cut_text-IsCut value max_bytes encoded out scalar same long h =
    let cut = rstrip (decode_ignore (take max_bytes encoded)) in
    let (h1, r1) =
      raise_if-eq-ok (is_empty cut) (runtime_error "document byte budget removed all prepared text")
        _ h in
    let (again, e, r2) = >>=-eq-ok (encode_text cut) _ r1 in
    let (h3, r3) =
      raise_if-eq-ok (ltb max_bytes (length again))
        (runtime_error "UTF-8 truncation exceeded its byte budget") _ r2 in
    let bound : length again ≤ max_bytes = ground arith in
    let longest : cut ≡ rstrip (take (fit max_bytes value) value) = ap rstrip (
      ap (λ (b : Bytes). decode_ignore (take max_bytes b)) same
      ∙ decode_ignore-take max_bytes value scalar) in
    subst (IsCut value max_bytes) (ok-injective _ _ r3) (
      longest,
      omega (arith, long, ap length same),
      omega (arith, bound, ap length (encode_text-eq-ok cut again e)),
      λ k h l. fit-greatest max_bytes k value h l,
    )

truncated-IsCut :
    (value : Text) (max_bytes : ℕ) (encoded : Bytes) (out : Text × Bool)
    → All IsScalar value
    → encoded ≡ encode value
    → (if leb (length encoded) max_bytes then ok (value, false) else cut_text max_bytes encoded)
      ≡ ok out
    → IsCut value max_bytes out
truncated-IsCut value max_bytes encoded out scalar same h =
    elim (Bool-cases (leb (length encoded) max_bytes)) [
      | inl b ↦
          let k = rw b at h in
          subst (IsCut value max_bytes) (ok-injective _ _ k)
            (refl, omega (arith, leb→le _ _ b, ap length same))
      | inr b ↦
          let k = rw b at h in
          let long : max_bytes < length encoded = ground arith in
          cut_text-IsCut value max_bytes encoded out scalar same long k
    ]

-- truncate_utf8 returns a text within the budget as it is, and otherwise its longest beginning
-- within the budget, in bytes of UTF-8, without the white space at its end; it never cuts a
-- character, and what it returns has at most as many bytes as the budget.
pub truncate_utf8-IsCut :
    (value : Text) (max_bytes : ℕ) (out : Text × Bool)
    → truncate_utf8 value max_bytes ≡ ok out
    → IsCut value max_bytes out
unfolding truncate_utf8
truncate_utf8-IsCut value max_bytes out h =
    let (encoded, e, h1) = >>=-eq-ok (encode_text value) _ h in
    truncated-IsCut value max_bytes encoded out (encode_text-IsScalar value encoded e)
      (encode_text-eq-ok value encoded e) h1

cut_clean :
    (value : Text) (max_bytes : ℕ) (out : Text × Bool)
    → all is_clean value ≡ true
    → IsCut value max_bytes out
    → (all is_clean out.0 ≡ true)
      × (length (encode out.0) ≤ max_bytes)
      × (out.1 ≡ ltb max_bytes (length (encode value)))
cut_clean value max_bytes (cut, false) h (same, short) = rw same (h, short, ground arith)
cut_clean value max_bytes (cut, true) h (same, long, short, longest) = (
  rw same
      (rstrip_clean (take (fit max_bytes value) value) (take_clean (fit max_bytes value) value h)),
  short,
  ground arith,
)

length-encode-prefix : length (encode document_prefix) ≡ length document_prefix
unfolding encode encode_char
length-encode-prefix = refl

abbrev pub IsPrepared : ℕ → PreparedDocument → Type 0
IsPrepared max_bytes d =
    (all is_clean d.prepared ≡ true)
    × (length (encode d.prepared) ≤ max_bytes)
    × (starts_with document_prefix d.prepared ≡ true)
    × (d.truncated ≡ ltb max_bytes d.original_prepared_bytes)
    × (d.raw_text_bytes + length document_prefix ≡ d.original_prepared_bytes)

-- A document that document_text prepares is one line: it has no white space but spaces. It begins
-- with the prefix and has at most max_document_bytes bytes; it is marked as truncated exactly when it
-- had more before, and the bytes that are recorded for it differ by those of the prefix.
pub document_text-IsPrepared :
    (entry : JsonRecord) (max_bytes : ℕ) (d : PreparedDocument)
    → document_text entry max_bytes ≡ ok d
    → IsPrepared max_bytes d
unfolding document_text
document_text-IsPrepared entry max_bytes d h =
    let (title, e1, h1) = >>=-eq-ok (clean_line (get_or (str []) entry.title)) _ h in
    let (text, e2, h2) = >>=-eq-ok (clean_line (get_or (str []) entry.text)) _ h1 in
    let content = content_of title text in
    let original = document_prefix ++ content in
    let (h3, r3) =
      raise_if-eq-ok (is_empty content) (runtime_error "corpus document has no usable text") _ h2 in
    let (cut, e4, r4) = >>=-eq-ok (truncate_utf8 original max_bytes) _ r3 in
    let (h5, r5) =
      raise_if-eq-ok (not (starts_with document_prefix cut.0))
        (runtime_error "document byte budget is too small to preserve the Nomic prefix") _ r4 in
    let (raw, e6, r6) = >>=-eq-ok (encode_text content) _ r5 in
    let (encoded, e7, r7) = >>=-eq-ok (encode_text original) _ r6 in
    let clean : all is_clean content ≡ true =
      content_of_clean title text (clean_line_clean _ title e1) (clean_line_clean _ text e2) in
    let (a, b, c) =
      cut_clean original max_bytes cut (all-append is_clean document_prefix content ∙ clean)
        (truncate_utf8-IsCut original max_bytes cut e4) in
    let same = encode_text-eq-ok original encoded e7 in
    let flag : cut.1 ≡ ltb max_bytes (length encoded) =
      c ∙ ap (λ (t : Bytes). ltb max_bytes (length t)) (sym same) in
    let prefixed : length raw + length document_prefix ≡ length encoded = omega (
      arith,
      ap length same,
      ap length (encode-append document_prefix content),
      length-append (encode document_prefix) (encode content),
      length-encode-prefix,
      ap length (encode_text-eq-ok content raw e6),
    ) in
    let begins : starts_with document_prefix cut.0 ≡ true = of_not _ h5 in
    subst (IsPrepared max_bytes) (ok-injective _ _ r7) (a, b, begins, flag, prefixed)
