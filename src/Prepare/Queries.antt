-- ===== src/Prepare/Queries.antt =====
-- `parse_queries`, `parse_qrels` and `select_queries` of scripts/prepare_beir_nq_scale.py. A dictionary is the list of its entries in the order in which
-- their keys were added, a set the list of what was added to it.
pub mod Laws
pub mod Ranks
use leann_cpp.Prelude.{
  ℕ, zero, suc, ◌+◌, ◌-◌, Bool, true, false, not, ◌&&◌, ◌||◌, Option, none, some, List, [], ◌∷◌,
  ◌++◌, length, take, eq_list, ltb, ◌==◌, if◌then◌else◌, Result, ok, err, runtime_error, key_error,
  ◌>>=◌, ◌>>◌, raise_if,
}
use leann_cpp.Bytes.{Bytes, Text}
use leann_cpp.Bytes.Utf8.{encode, encode_text, decode}
use leann_cpp.Platform.{Digest}
use leann_cpp.Cache.Read.{sha256_hex}
use leann_cpp.Prepare.{byte_lines, read_line, after_line}
use leann_cpp.Prepare.Select.{is_in}
use leann_cpp.Prepare.Texts.{JsonRecord, is_empty, has_char, identifier, query_text}
use leann_cpp.Prepare.Tiers.{Writer, new_writer, write_line, id_line, count_distinct}
use leann_cpp.Prepare.Tiers.Ids.{split_tab}

pub record SourceFileStats : Type 0 where
  pub bytes : ℕ
  pub lines : ℕ
  pub sha256 : Text

abbrev pub source_stats : Digest → Bytes → SourceFileStats
source_stats D file = record {
  bytes = length file;
  lines = length (byte_lines file);
  sha256 = sha256_hex D file;
}

-- What `json.loads` makes of a line.
pub data Loaded : Type 0 where
  invalid not_object : Loaded
  object : JsonRecord → Loaded

-- `not raw.strip()`
abbrev pub is_blank_byte : ℕ → Bool
is_blank_byte c = c == 32 || (c == 9 || (c == 10 || (c == 11 || (c == 12 || c == 13))))

abbrev pub is_blank_line : Bytes → Bool
is_blank_line [] = true
is_blank_line (c ∷ s) = is_blank_byte c && is_blank_line s

abbrev pub load_object : (Bytes → Loaded) → Bytes → Result JsonRecord
load_object json_loads raw = elim (json_loads raw) [
  | invalid ↦ err (runtime_error "invalid queries.jsonl line")
  | not_object ↦ err (runtime_error "queries.jsonl line is not an object")
  | object entry ↦ ok entry
]

abbrev pub find {ℓ} : {A : Type ℓ} → Text → List (Text × A) → Option A
find key [] = none
find key ((k, a) ∷ entries) = let rest = find key entries in if eq_list k key then some a else rest

abbrev pub has_key {ℓ} : {A : Type ℓ} → Text → List (Text × A) → Bool
has_key key entries = elim (find key entries) [ none ↦ false | some a ↦ true ]

abbrev pub keys {ℓ} : {A : Type ℓ} → List (Text × A) → List Text
keys [] = []
keys ((k, a) ∷ entries) = k ∷ keys entries

abbrev pub QueryTexts : Type 0
QueryTexts = List (Text × (Text × ℕ))

unfoldable pub parse_query_lines : (Bytes → Loaded) → List Bytes → QueryTexts → Result QueryTexts
parse_query_lines json_loads [] queries = ok queries
parse_query_lines json_loads (raw ∷ lines) queries = do
  raise_if (is_blank_line raw) (runtime_error "blank queries.jsonl line")
  entry ← load_object json_loads raw
  query_id ← identifier entry
  raise_if (has_key query_id queries) (runtime_error "duplicate query ID")
  prepared ← query_text entry
  parse_query_lines json_loads lines (queries ++ (query_id, prepared) ∷ [])

unfoldable pub parse_queries :
    Digest → (Bytes → Loaded) → Bytes → Result (QueryTexts × SourceFileStats)
parse_queries D json_loads file = do
  queries ← parse_query_lines json_loads (byte_lines file) []
  raise_if (length queries == 0) (runtime_error "queries.jsonl is empty")
  ok (queries, source_stats D file)

-- `float` of a text, and what is asked of its result.
pub record Floats : Type 1 where
  pub Score : Type 0
  pub to_float : Text → Option Score
  pub is_finite : Score → Bool
  pub is_positive : Score → Bool

pub record Qrel (S : Type 0) : Type 0 where
  pub query_id : Text
  pub corpus_id : Text
  pub score_text : Text
  pub score : S

abbrev pub Positives : Type 0
Positives = List (Text × List Text)

-- `set.add`
abbrev pub add_to_set : Text → List Text → List Text
add_to_set t set = if is_in t set then set else set ++ t ∷ []

-- `positives.setdefault(query_id, set()).add(corpus_id)`
abbrev pub add_positive : Text → Text → Positives → Positives
add_positive query_id corpus_id [] = (query_id, corpus_id ∷ []) ∷ []
add_positive query_id corpus_id ((k, set) ∷ positives) =
    let rest = add_positive query_id corpus_id positives in
    if eq_list k query_id then (k, add_to_set corpus_id set) ∷ positives else (k, set) ∷ rest

-- `str.rstrip("\r\n")`
abbrev pub rstrip_ends : Text → Text
rstrip_ends [] = []
rstrip_ends (c ∷ s) =
    let rest = rstrip_ends s in if (c == 10 || c == 13) && is_empty rest then [] else c ∷ rest

abbrev pub decode_fields : Bytes → Result (List Text)
decode_fields raw = elim (decode raw) [
  | none ↦ err (runtime_error "test qrels line is not UTF-8")
  | some line ↦ ok (split_tab (rstrip_ends line))
]

abbrev pub three_fields : List Text → Result (Text × Text × Text)
three_fields (a ∷ b ∷ c ∷ []) = do
  raise_if (is_empty a || (is_empty b || is_empty c))
      (runtime_error "test qrels line must have three non-empty fields")
  ok (a, b, c)
three_fields _ = err (runtime_error "test qrels line must have three non-empty fields")

abbrev pub has_bad_char : Text → Bool
has_bad_char t = has_char 9 t || (has_char 10 t || has_char 13 t)

module _ (F : Floats) where
  open F use {Score, to_float, is_finite, is_positive}

  abbrev pub parse_score : Text → Result Score
  parse_score t = elim (to_float t) [
    | none ↦ err (runtime_error "invalid qrel score")
    | some score ↦ do
      raise_if (not (is_finite score)) (runtime_error "non-finite qrel score")
      ok score
  ]

  unfoldable pub parse_qrel : Bytes → Result (Qrel Score)
  parse_qrel raw = do
    fields ← decode_fields raw
    (query_id, corpus_id, score_text) ← three_fields fields
    raise_if (has_bad_char query_id || has_bad_char corpus_id) (runtime_error "invalid qrel ID")
    score ← parse_score score_text
    ok (record {
      query_id = query_id;
      corpus_id = corpus_id;
      score_text = score_text;
      score = score;
    })

  -- `pair in seen_pairs`
  abbrev pub has_pair : Text → Text → List (Qrel Score) → Bool
  has_pair query_id corpus_id [] = false
  has_pair query_id corpus_id (q ∷ qrels) =
      (eq_list q.query_id query_id && eq_list q.corpus_id corpus_id)
      || has_pair query_id corpus_id qrels

  abbrev pub note_positive : Qrel Score → Positives → Positives
  note_positive q positives =
      if is_positive q.score then add_positive q.query_id q.corpus_id positives else positives

  unfoldable pub parse_qrel_lines :
      List Bytes → List (Qrel Score) → Positives → Result (List (Qrel Score) × Positives)
  parse_qrel_lines [] qrels positives = ok (qrels, positives)
  parse_qrel_lines (raw ∷ lines) qrels positives = do
    q ← parse_qrel raw
    raise_if (has_pair q.query_id q.corpus_id qrels) (runtime_error "duplicate qrel pair")
    parse_qrel_lines lines (qrels ++ q ∷ []) (note_positive q positives)

  unfoldable pub parse_qrels :
      Digest → Bytes → Result (List (Qrel Score) × Positives × SourceFileStats)
  parse_qrels D file = do
    let header_raw = read_line (byte_lines file)
    raise_if (length header_raw == 0) (runtime_error "test qrels file is empty")
    header ← decode_fields header_raw
    raise_if (not (length header == 3))
        (runtime_error "test qrels header must contain exactly three columns")
    (qrels, positives) ← parse_qrel_lines (after_line (byte_lines file)) [] []
    raise_if (length positives == 0) (runtime_error "test qrels contain no positive judgments")
    ok (qrels, positives, source_stats D file)

-- Python's `<=` on texts and on bytes.
abbrev pub lex_le : List ℕ → List ℕ → Bool
lex_le [] t = true
lex_le (c ∷ s) [] = false
lex_le (c ∷ s) (d ∷ t) = ltb c d || (c == d && lex_le s t)

module _ (D : Digest) (seed : Text) where
  abbrev pub rank_hash : Text → Bytes
  rank_hash value = D.sha256 (encode (seed ++ value))

  -- `(rank_hash(seed, value), value)`
  abbrev pub ranks_before : Text → Text → Bool
  ranks_before a b =
      if eq_list (rank_hash a) (rank_hash b) then lex_le a b else lex_le (rank_hash a) (rank_hash b)

  abbrev pub insert_ranked : Text → List Text → List Text
  insert_ranked a [] = a ∷ []
  insert_ranked a (b ∷ pool) =
      let rest = insert_ranked a pool in if ranks_before a b then a ∷ b ∷ pool else b ∷ rest

  abbrev pub sort_ranked : List Text → List Text
  sort_ranked [] = []
  sort_ranked (a ∷ pool) = insert_ranked a (sort_ranked pool)

  -- `set(positives) - set(queries)`
  abbrev pub some_missing : List Text → QueryTexts → Bool
  some_missing [] queries = false
  some_missing (k ∷ ks) queries = not (has_key k queries) || some_missing ks queries

  unfoldable pub select_queries : QueryTexts → Positives → ℕ → Result (List Text)
  select_queries queries positives count = do
    raise_if (some_missing (keys positives) queries)
        (runtime_error "positive-qrel query IDs are absent from queries.jsonl")
    raise_if (ltb (length (keys positives)) count)
        (runtime_error "too few test queries have positive qrels")
    ok (take count (sort_ranked (keys positives)))
