-- ===== src/Examples/Nq.antt =====
-- Tiers of two and of three documents, texts, queries and judgments.
use leann_cpp.Prelude.{
  last_or, All, ℕ, ◌≤◌, ◌≡◌, ◌↔◌, refl, arith, Bool, true, false, none, some, List, [], ◌∷◌, ◌++◌,
  length, take, ok, err,
}
use leann_cpp.Bytes.{Bytes, Text}
use leann_cpp.Bytes.Utf8.{lead, encode, encode_char, encode_text, decode}
use leann_cpp.Bytes.Utf8.Ignore.{decode_ignore, ignore_from}
use leann_cpp.GroundTruth.Words.{split}
use leann_cpp.GroundTruth.Print.{to_decimal}
use leann_cpp.Prepare.{byte_lines}
use leann_cpp.Prepare.Select.{Row, Selection, select_documents, fill}
use leann_cpp.Prepare.Select.Laws.{Conditions, IsSelection, select_documents_iff}
use leann_cpp.Prepare.Tiers.{
  Tiers, TierStats, new_tier, joined, write_line, write_row, write_rows, write_documents,
}
use leann_cpp.Prepare.Tiers.Written.{AreTiers, write_documents_lem}
use leann_cpp.Prepare.Outputs.{check_nesting}
use leann_cpp.Prepare.Outputs.Laws.{check_nesting-write_documents}
use leann_cpp.Prepare.Publish.{
  Places, Outcomes, absent, directory, publish_directory, IsKept, Ends, publish_directory_lem,
}
use leann_cpp.Prepare.Tiers.Ids.{read_id_set}
use leann_cpp.Prepare.Tiers.Ids.RoundTrip.{ids_of_rows, read_id_set-write_documents}
use leann_cpp.Prepare.Texts.{
  JsonRecord, PreparedDocument, str, document_text, clean_line, truncate_utf8, cut_text,
}
use leann_cpp.Prepare.Texts.Laws.{IsCut, IsPrepared, truncate_utf8-IsCut, document_text-IsPrepared}
use mathlib.Core.List.{Perm}
use leann_cpp.Prepare.Queries.{
  QueryTexts, keys, has_key, select_queries, Floats, Qrel, Positives, SourceFileStats, parse_qrels,
  parse_qrel_lines, parse_qrel,
}
use leann_cpp.Prepare.Queries.Ranks.{IsRanked, select_queries_lem}
use leann_cpp.Prepare.Queries.Laws.{in_positives, is_judged, parse_qrels_sound}
use leann_cpp.Examples.Instances.{toy_digest}

abbrev row : Text → Bool → Row
row id positive = record {
  corpus_id = id;
  text_sha256 = id;
  prepared_text = b'=' ∷ id;
  raw_text_bytes = 1;
  original_prepared_bytes = 2;
  prepared_bytes = 2;
  truncated = false;
  is_positive = positive;
}

abbrev corpus : List Row
corpus =
    row (b'a' ∷ []) false
    ∷ row (b'b' ∷ []) true
    ∷ row (b'c' ∷ []) false
    ∷ row (b'd' ∷ []) false
    ∷ []

select_documents_example :
    let result = select_documents 2 3 corpus 1 in
    (((s : Selection) × (result ≡ ok s)) ↔ Conditions 2 3 corpus)
    × ((s : Selection) → result ≡ ok s → IsSelection 2 3 corpus s)
select_documents_example = select_documents_iff 2 3 corpus 1 (omega arith) refl

abbrev nothing : Selection
nothing = record {
  selected = [];
  used_text_hashes = [];
  selected_small = 0;
  selected_large = 0;
  skipped_text_duplicates = 0;
}

selection : Selection
unfolding select_documents fill
selection = elim (select_documents 2 3 corpus 1) [ ok s ↦ s | err e ↦ nothing ]

selected_ids :
    ids_of_rows (joined selection.selected corpus) ≡ (b'a' ∷ []) ∷ (b'b' ∷ []) ∷ (b'c' ∷ []) ∷ []
unfolding selection select_documents fill
selected_ids = refl

abbrev nothing_written : Tiers × TierStats × TierStats
nothing_written =
    let sums = new_tier.sums in
    let stats : TierStats = record {
      documents = 0;
      sums = sums;
      truncated_bytes_removed = 0;
      unique_prepared_texts = 0;
      duplicate_rows = 0;
    } in
    (record { small = new_tier; large = new_tier }, stats, stats)

all_writes : Unit {0}
unfolding select_documents fill selection write_documents write_rows write_row write_line
    encode_text encode encode_char to_decimal
all_writes = tt

written : Tiers × TierStats × TierStats
unfolding all_writes
written = elim (write_documents 2 3 selection.selected corpus) [
  | ok t ↦ t
  | err e ↦ nothing_written
]

written_ok : write_documents 2 3 selection.selected corpus ≡ ok (written.0, written.1, written.2)
unfolding all_writes written
written_ok = refl

write_documents_example : AreTiers 2 3 (joined selection.selected corpus) written.0
write_documents_example =
    write_documents_lem 2 3 selection.selected corpus written.0 written.1 written.2 written_ok

read_id_set_example :
    (read_id_set written.0.large.ids.contents ≡ ok (ids_of_rows (joined selection.selected corpus)))
    × (read_id_set written.0.small.ids.contents
        ≡ ok (take 2 (ids_of_rows (joined selection.selected corpus))))
unfolding selection select_documents fill
read_id_set_example =
    read_id_set-write_documents 2 3 selection.selected corpus written.0 written.1 written.2
      ((refl, (refl, tt)), ((refl, (refl, tt)), ((refl, (refl, tt)), tt))) refl written_ok

check_nesting_example :
    check_nesting 2 3 written.0
    ≡ ok (
      take 2 (ids_of_rows (joined selection.selected corpus)),
      ids_of_rows (joined selection.selected corpus),
    )
unfolding selection select_documents fill
check_nesting_example =
    check_nesting-write_documents 2 3 selection.selected corpus written.0 written.1 written.2
      ((refl, (refl, tt)), ((refl, (refl, tt)), ((refl, (refl, tt)), tt))) refl (omega arith)
      written_ok

abbrev places : Places
places = record { staged = directory (1 ∷ []); output = directory (2 ∷ []); backup = absent }

-- Neither the staged directory nor the previous one can be renamed to the output.
abbrev stuck : Outcomes
stuck = record { moved = true; published = false; restored = false; remains = none }

publish_directory_example :
    let run = publish_directory stuck places in
    All (IsKept places) run.states × Ends stuck places run.result (last_or (some places) run.states)
publish_directory_example = publish_directory_lem stuck places refl

output_lost :
    (publish_directory stuck places).states
    ≡ record { staged = directory (1 ∷ []); output = absent; backup = directory (2 ∷ []) } ∷ []
unfolding publish_directory
output_lost = refl

-- "é " in a budget of two bytes.
abbrev cafe : Text
cafe = 0xe9 ∷ 0x20 ∷ 0xe9 ∷ []

all_texts : Unit {0}
unfolding truncate_utf8 cut_text decode_ignore ignore_from lead encode_text encode encode_char
    clean_line split document_text
all_texts = tt

cut_ok : truncate_utf8 cafe 4 ≡ ok (0xe9 ∷ [], true)
unfolding all_texts
cut_ok = refl

truncate_utf8_example : IsCut cafe 4 (0xe9 ∷ [], true)
truncate_utf8_example = truncate_utf8-IsCut cafe 4 (0xe9 ∷ [], true) cut_ok

abbrev entry : JsonRecord
entry = record {
  id = some (b'a' ∷ []);
  title = some (str (b't' ∷ []));
  text = some (str (0xe9 ∷ 10 ∷ b'u' ∷ []));
}

abbrev no_document : PreparedDocument
no_document = record {
  prepared = [];
  raw_text_bytes = 0;
  original_prepared_bytes = 0;
  truncated = false;
}

document : PreparedDocument
unfolding all_texts
document = elim (document_text entry 22) [ ok d ↦ d | err e ↦ no_document ]

document_ok : document_text entry 22 ≡ ok document
unfolding all_texts document
document_ok = refl

document_text_example : IsPrepared 22 document
document_text_example = document_text-IsPrepared entry 22 document document_ok

abbrev toy_scores : Floats
toy_scores = record {
  Score = ℕ;
  to_float = λ t. elim t [ [] ↦ none | ◌∷◌ c s ↦ some c ];
  is_finite = λ x. true;
  is_positive = λ x. true;
}

abbrev qrels_file : Bytes
qrels_file =
    b'q' ∷ 9 ∷ b'c' ∷ 9 ∷ b's' ∷ 10 ∷ b'x' ∷ 9 ∷ b'a' ∷ 9 ∷ b'1' ∷ 10 ∷ b'y' ∷ 9 ∷ b'b' ∷ 9 ∷ b'1'
    ∷ 10 ∷ []

all_qrels : Unit {0}
unfolding parse_qrels parse_qrel_lines parse_qrel byte_lines decode
all_qrels = tt

abbrev no_qrels : List (Qrel ℕ) × Positives × SourceFileStats
no_qrels = ([], [], record { bytes = 0; lines = 0; sha256 = [] })

judged : List (Qrel ℕ) × Positives × SourceFileStats
unfolding all_qrels
judged = elim (parse_qrels toy_scores toy_digest qrels_file) [ ok q ↦ q | err e ↦ no_qrels ]

judged_ok : parse_qrels toy_scores toy_digest qrels_file ≡ ok (judged.0, judged.1, judged.2)
unfolding all_qrels judged
judged_ok = refl

parse_qrels_sound_example :
    (1 ≤ length judged.1)
    × ((query_id corpus_id : Text)
        → in_positives query_id corpus_id judged.1
          ≡ is_judged toy_scores query_id corpus_id judged.0)
parse_qrels_sound_example =
    parse_qrels_sound toy_scores toy_digest qrels_file judged.0 judged.1 judged.2 judged_ok

abbrev two_queries : QueryTexts
two_queries = (b'x' ∷ [], (b'1' ∷ [], 1)) ∷ (b'y' ∷ [], (b'2' ∷ [], 1)) ∷ []

abbrev two_positives : Positives
two_positives = (b'y' ∷ [], (b'a' ∷ []) ∷ []) ∷ (b'x' ∷ [], (b'b' ∷ []) ∷ []) ∷ []

abbrev one_query : List Text
one_query = (b'x' ∷ []) ∷ []

selected_query : select_queries toy_digest [] two_queries two_positives 1 ≡ ok one_query
unfolding select_queries encode encode_char
selected_query = refl

select_queries_example :
    (rest : List Text) × (length one_query ≡ 1)
    × Perm (one_query ++ rest) (keys two_positives)
    × IsRanked toy_digest [] (one_query ++ rest)
    × All (λ k. has_key k two_queries ≡ true) (keys two_positives)
select_queries_example =
    select_queries_lem toy_digest [] two_queries two_positives 1 one_query selected_query
