-- ===== src/Prepare/QueryFiles.antt =====
-- `write_queries_and_qrels` of scripts/prepare_beir_nq_scale.py.
use leann_cpp.Prelude.{
  ℕ, suc, ◌+◌, Bool, ◌&&◌, ◌||◌, Option, none, some, List, [], ◌∷◌, ◌++◌, length, eq_list, ltb,
  ◌==◌, if◌then◌else◌, Result, ok, err, key_error, ◌>>=◌,
}
use leann_cpp.Bytes.{Bytes, Text}
use leann_cpp.Bytes.Utf8.{encode_text}
use leann_cpp.Platform.{Digest}
use leann_cpp.Prepare.Select.{is_in}
use leann_cpp.Prepare.Tiers.{Writer, new_writer, write_line, id_line, count_distinct}
use leann_cpp.Prepare.Queries.{QueryTexts, find, Floats, Qrel, lex_le}

-- The place of an ID in the list, as `query_position` has it.
abbrev pub position_from : ℕ → Text → List Text → Option ℕ
position_from n t [] = none
position_from n t (u ∷ ids) =
    let rest = position_from (suc n) t ids in if eq_list u t then some n else rest

abbrev pub position_or : ℕ → Option ℕ → ℕ
position_or n none = n
position_or n (some m) = m

pub record QueryStats : Type 0 where
  pub queries : ℕ
  pub raw_query_bytes : ℕ
  pub prepared_query_bytes : ℕ
  pub unique_prepared_texts : ℕ
  pub qrel_rows : ℕ
  pub positive_qrel_rows : ℕ

-- The files of the queries, with what is summed up over them.
pub record QueryFiles : Type 0 where
  pub queries : Writer
  pub query_ids : Writer
  pub qrels : Writer
  pub raw_query_bytes : ℕ
  pub prepared_query_bytes : ℕ
  pub query_digests : List Bytes
  pub positive_judgments : ℕ

abbrev pub new_query_files : QueryFiles
new_query_files = record {
  queries = new_writer;
  query_ids = new_writer;
  qrels = new_writer;
  raw_query_bytes = 0;
  prepared_query_bytes = 0;
  query_digests = [];
  positive_judgments = 0;
}

abbrev pub qrels_header : Text
qrels_header =
    b'q' ∷ b'u' ∷ b'e' ∷ b'r' ∷ b'y' ∷ b'-' ∷ b'i' ∷ b'd' ∷ 9 ∷ b'c' ∷ b'o' ∷ b'r' ∷ b'p' ∷ b'u'
    ∷ b's' ∷ b'-' ∷ b'i' ∷ b'd' ∷ 9 ∷ b's' ∷ b'c' ∷ b'o' ∷ b'r' ∷ b'e' ∷ []

-- `for position, query_id in enumerate(selected_query_ids)`
unfoldable pub write_query_lines :
    Digest → QueryTexts → ℕ → List Text → QueryFiles → Result QueryFiles
write_query_lines D queries position [] f = ok f
write_query_lines D queries position (query_id ∷ ids) f = elim (find query_id queries) [
  | none ↦ err (key_error "query_id")
  | some (prepared, raw_bytes) ↦ do
    texts ← write_line prepared f.queries
    places ← write_line (id_line position query_id) f.query_ids
    encoded ← encode_text prepared
    write_query_lines D queries (suc position) ids (record f {
      queries = texts;
      query_ids = places;
      raw_query_bytes = f.raw_query_bytes + raw_bytes;
      prepared_query_bytes = f.prepared_query_bytes + length encoded;
      query_digests = f.query_digests ++ D.sha256 encoded ∷ [];
    })
]

module _ (F : Floats) (selected_query_ids : List Text) where
  open F use {Score, is_positive}

  abbrev pub selected_qrels : List (Qrel Score) → List (Qrel Score)
  selected_qrels [] = []
  selected_qrels (q ∷ qrels) =
      let rest = selected_qrels qrels in
      if is_in q.query_id selected_query_ids then q ∷ rest else rest

  abbrev pub position_of : Qrel Score → ℕ
  position_of q = position_or 0 (position_from 0 q.query_id selected_query_ids)

  -- `(query_position[qrel.query_id], qrel.corpus_id, qrel.score_text)`
  abbrev pub qrel_before : Qrel Score → Qrel Score → Bool
  qrel_before a b =
      ltb (position_of a) (position_of b)
      || (position_of a == position_of b
          && (if eq_list a.corpus_id b.corpus_id
              then lex_le a.score_text b.score_text
              else lex_le a.corpus_id b.corpus_id))

  abbrev pub insert_qrel : Qrel Score → List (Qrel Score) → List (Qrel Score)
  insert_qrel a [] = a ∷ []
  insert_qrel a (b ∷ qrels) =
      let rest = insert_qrel a qrels in if qrel_before a b then a ∷ b ∷ qrels else b ∷ rest

  abbrev pub sort_qrels : List (Qrel Score) → List (Qrel Score)
  sort_qrels [] = []
  sort_qrels (q ∷ qrels) = insert_qrel q (sort_qrels qrels)

  abbrev pub qrel_line : Qrel Score → Text
  qrel_line q = q.query_id ++ 9 ∷ (q.corpus_id ++ 9 ∷ q.score_text)

  unfoldable pub write_qrel_lines : List (Qrel Score) → QueryFiles → Result QueryFiles
  write_qrel_lines [] f = ok f
  write_qrel_lines (q ∷ qrels) f = do
    written ← write_line (qrel_line q) f.qrels
    write_qrel_lines qrels (record f {
      qrels = written;
      positive_judgments = f.positive_judgments + (if is_positive q.score then 1 else 0);
    })

  unfoldable pub write_queries_and_qrels :
      Digest → QueryTexts → List (Qrel Score) → Result (QueryFiles × QueryStats)
  write_queries_and_qrels D queries qrels = do
    let chosen = sort_qrels (selected_qrels qrels)
    f ← write_query_lines D queries 0 selected_query_ids new_query_files
    header ← write_line qrels_header f.qrels
    g ← write_qrel_lines chosen (record f { qrels = header })
    ok (
      g,
      record {
        queries = length selected_query_ids;
        raw_query_bytes = g.raw_query_bytes;
        prepared_query_bytes = g.prepared_query_bytes;
        unique_prepared_texts = count_distinct g.query_digests;
        qrel_rows = length chosen;
        positive_qrel_rows = g.positive_judgments;
      },
    )
