-- ===== src/Prepare/Texts.antt =====
-- `clean_line`, `truncate_utf8`, `document_text`, `query_text` and `identifier` of
-- scripts/prepare_beir_nq_scale.py. A JSON value is a text, null or another.
pub mod Laws
use leann_cpp.Prelude.{
  ℕ, Bool, true, false, not, ◌&&◌, ◌||◌, Option, none, some, List, [], ◌∷◌, ◌++◌, map, length, take,
  eq_list, leb, ltb, ◌==◌, if◌then◌else◌, Result, ok, err, runtime_error, ◌>>=◌, ◌>>◌, raise_if,
  Error, value_error,
}
use leann_cpp.Bytes.{Bytes, Text}
use leann_cpp.Bytes.Utf8.{encode_text}
use leann_cpp.Bytes.Utf8.Ignore.{decode_ignore}
use leann_cpp.GroundTruth.Words.{is_space, split}
use leann_cpp.GroundTruth.Print.{join}

pub data Value : Type 0 where
  str : Text → Value
  null other : Value

-- A line of a JSON file; `id` is `str` of its "_id".
pub record JsonRecord : Type 0 where
  pub id : Option Text
  pub title : Option Value
  pub text : Option Value

pub record PreparedDocument : Type 0 where
  pub prepared : Text
  pub raw_text_bytes : ℕ
  pub original_prepared_bytes : ℕ
  pub truncated : Bool

abbrev pub document_prefix : Text
document_prefix =
    b's' ∷ b'e' ∷ b'a' ∷ b'r' ∷ b'c' ∷ b'h' ∷ b'_' ∷ b'd' ∷ b'o' ∷ b'c' ∷ b'u' ∷ b'm' ∷ b'e' ∷ b'n'
    ∷ b't' ∷ b':' ∷ b' ' ∷ []

abbrev pub query_prefix : Text
query_prefix =
    b's' ∷ b'e' ∷ b'a' ∷ b'r' ∷ b'c' ∷ b'h' ∷ b'_' ∷ b'q' ∷ b'u' ∷ b'e' ∷ b'r' ∷ b'y' ∷ b':' ∷ b' '
    ∷ []

-- `value.replace("\x00", " ")`
abbrev pub without_nul : Text → Text
without_nul [] = []
without_nul (c ∷ s) = (if c == 0 then 32 else c) ∷ without_nul s

unfoldable pub clean_line : Value → Result Text
clean_line null = ok []
clean_line other = err (runtime_error "must be a string")
clean_line (str value) = ok (join (split (without_nul value)))

abbrev pub is_empty : Text → Bool
is_empty [] = true
is_empty (c ∷ s) = false

-- `str.rstrip()`
abbrev pub rstrip : Text → Text
rstrip [] = []
rstrip (c ∷ s) = let rest = rstrip s in if is_space c && is_empty rest then [] else c ∷ rest

-- `encoded[:max_bytes].decode("utf-8", errors="ignore").rstrip()` with its checks.
unfoldable pub cut_text : ℕ → Bytes → Result (Text × Bool)
cut_text max_bytes encoded = do
  let truncated = rstrip (decode_ignore (take max_bytes encoded))
  raise_if (is_empty truncated) (runtime_error "document byte budget removed all prepared text")
  again ← encode_text truncated
  raise_if (ltb max_bytes (length again))
      (runtime_error "UTF-8 truncation exceeded its byte budget")
  ok (truncated, true)

unfoldable pub truncate_utf8 : Text → ℕ → Result (Text × Bool)
truncate_utf8 value max_bytes = do
  encoded ← encode_text value
  (if leb (length encoded) max_bytes then ok (value, false) else cut_text max_bytes encoded)

-- `record.get(key, default)`
abbrev pub get_or : Value → Option Value → Value
get_or default none = default
get_or default (some v) = v

abbrev pub starts_with : Text → Text → Bool
starts_with [] s = true
starts_with (c ∷ start) [] = false
starts_with (c ∷ start) (d ∷ s) = c == d && starts_with start s

-- `f"{title}. {text}" if title and text else title or text`
abbrev pub content_of : Text → Text → Text
content_of [] text = text
content_of (c ∷ title) [] = c ∷ title
content_of (c ∷ title) (d ∷ text) = (c ∷ title) ++ b'.' ∷ b' ' ∷ d ∷ text

unfoldable pub document_text : JsonRecord → ℕ → Result PreparedDocument
document_text entry max_document_bytes = do
  title ← clean_line (get_or (str []) entry.title)
  text ← clean_line (get_or (str []) entry.text)
  let content = content_of title text
  raise_if (is_empty content) (runtime_error "corpus document has no usable text")
  let original = document_prefix ++ content
  (prepared, truncated) ← truncate_utf8 original max_document_bytes
  raise_if (not (starts_with document_prefix prepared))
      (runtime_error "document byte budget is too small to preserve the Nomic prefix")
  raw ← encode_text content
  encoded ← encode_text original
  ok (record {
    prepared = prepared;
    raw_text_bytes = length raw;
    original_prepared_bytes = length encoded;
    truncated = truncated;
  })

unfoldable pub query_text : JsonRecord → Result (Text × ℕ)
query_text entry = do
  text ← clean_line (get_or null entry.text)
  raise_if (is_empty text) (runtime_error "query has no usable text")
  raw ← encode_text text
  ok (query_prefix ++ text, length raw)

abbrev pub has_char : ℕ → Text → Bool
has_char c [] = false
has_char c (d ∷ s) = c == d || has_char c s

unfoldable pub identifier : JsonRecord → Result Text
identifier entry = elim entry.id [
  | none ↦ err (runtime_error "line is missing _id")
  | some id ↦ do
    raise_if (is_empty id) (runtime_error "line has an empty _id")
    raise_if (has_char 9 id || (has_char 10 id || has_char 13 id))
        (runtime_error "ID is not TSV-safe")
    ok id
]
