-- ===== src/Prepare/Tiers.antt =====
-- `TrackedBinaryWriter`, `write_documents` and `read_id_set` of scripts/prepare_beir_nq_scale.py, and
-- the checks that `prepare` makes on the files of both tiers. A file is what has been written to it.
pub mod Written
pub mod Prefix
pub mod Ids
use leann_cpp.Prelude.{
  ℕ, zero, suc, ◌+◌, ◌-◌, max, Bool, true, false, not, ◌||◌, Option, none, some, List, [], ◌∷◌,
  ◌++◌, length, eq_list, ltb, leb, ◌==◌, if◌then◌else◌, Result, ok, err, runtime_error,
  decode_error, ◌>>=◌, ◌>>◌, raise_if,
}
use leann_cpp.Bytes.{Bytes, Text}
use leann_cpp.Bytes.Utf8.{encode_text, decode}
use leann_cpp.Lines.{cons_head}
use leann_cpp.Platform.{Digest}
use leann_cpp.Cache.Read.{sha256_hex}
use leann_cpp.GroundTruth.Print.{to_decimal}
use leann_cpp.Prepare.{byte_lines, verify_prefix}
use leann_cpp.Prepare.Select.{Row, Chosen, Selection, is_in, texts}

pub record Writer : Type 0 where
  pub contents : Bytes
  pub bytes : ℕ
  pub lines : ℕ

abbrev pub new_writer : Writer
new_writer = record { contents = []; bytes = 0; lines = 0 }

abbrev pub append_line : Bytes → Writer → Writer
append_line encoded w = record {
  contents = w.contents ++ encoded ++ 10 ∷ [];
  bytes = w.bytes + length (encoded ++ 10 ∷ []);
  lines = w.lines + 1;
}

unfoldable pub write_line : Text → Writer → Result Writer
write_line value w = do encoded ← encode_text value; ok (append_line encoded w)

pub record FileStats : Type 0 where
  pub bytes : ℕ
  pub lines : ℕ
  pub sha256 : Text

abbrev pub close : Digest → Writer → FileStats
close D w = record { bytes = w.bytes; lines = w.lines; sha256 = sha256_hex D w.contents }

-- What is summed up over the documents of a tier.
pub record Sums : Type 0 where
  pub raw_bytes : ℕ
  pub original_prepared_bytes : ℕ
  pub prepared_bytes : ℕ
  pub truncated_documents : ℕ
  pub maximum_prepared_bytes : ℕ

pub record Tier : Type 0 where
  pub documents : Writer
  pub ids : Writer
  pub sums : Sums

abbrev pub new_tier : Tier
new_tier = record {
  documents = new_writer;
  ids = new_writer;
  sums = record {
    raw_bytes = 0;
    original_prepared_bytes = 0;
    prepared_bytes = 0;
    truncated_documents = 0;
    maximum_prepared_bytes = 0;
  };
}

abbrev pub add_row : Row → Sums → Sums
add_row r s = record {
  raw_bytes = s.raw_bytes + r.raw_text_bytes;
  original_prepared_bytes = s.original_prepared_bytes + r.original_prepared_bytes;
  prepared_bytes = s.prepared_bytes + r.prepared_bytes;
  truncated_documents = s.truncated_documents + (if r.truncated then 1 else 0);
  maximum_prepared_bytes = max s.maximum_prepared_bytes r.prepared_bytes;
}

-- `f"{position}\t{corpus_id}"`
abbrev pub id_line : ℕ → Text → Text
id_line position corpus_id = to_decimal position ++ 9 ∷ corpus_id

unfoldable pub write_row : ℕ → Row → Tier → Result Tier
write_row position r t = do
  documents ← write_line r.prepared_text t.documents
  ids ← write_line (id_line position r.corpus_id) t.ids
  ok (record { documents = documents; ids = ids; sums = add_row r t.sums })

-- `SELECT … FROM selected JOIN corpus … ORDER BY tier, rank_hash, corpus_id`
abbrev pub is_chosen : Text → ℕ → List Chosen → Bool
is_chosen corpus_id tier [] = false
is_chosen corpus_id tier (c ∷ selected) =
    let rest = is_chosen corpus_id tier selected in
    if eq_list c.corpus_id corpus_id then c.tier == tier || rest else rest

abbrev pub rows_of_tier : ℕ → List Chosen → List Row → List Row
rows_of_tier tier selected [] = []
rows_of_tier tier selected (r ∷ corpus) =
    let rest = rows_of_tier tier selected corpus in
    if is_chosen r.corpus_id tier selected then r ∷ rest else rest

abbrev pub joined : List Chosen → List Row → List Row
joined selected corpus = rows_of_tier 0 selected corpus ++ rows_of_tier 1 selected corpus

-- `COUNT(DISTINCT text_sha256)`
abbrev pub count_distinct : List Bytes → ℕ
count_distinct [] = 0
count_distinct (t ∷ ts) = let rest = count_distinct ts in if is_in t ts then rest else suc rest

pub record TierStats : Type 0 where
  pub documents : ℕ
  pub sums : Sums
  pub truncated_bytes_removed : ℕ
  pub unique_prepared_texts : ℕ
  pub duplicate_rows : ℕ

-- The floating-point rate is left out.
abbrev pub tier_stats : ℕ → Sums → ℕ → TierStats
tier_stats count sums unique = record {
  documents = count;
  sums = sums;
  truncated_bytes_removed = sums.original_prepared_bytes - sums.prepared_bytes;
  unique_prepared_texts = unique;
  duplicate_rows = count - unique;
}

pub record Tiers : Type 0 where
  pub small : Tier
  pub large : Tier

module _ (small_count large_count : ℕ) where
  abbrev pub write_small : ℕ → Row → Tier → Result Tier
  write_small position r t = if ltb position small_count then write_row position r t else ok t

  -- `for position, … in enumerate(rows)`
  unfoldable pub write_rows : ℕ → List Row → Tiers → Result Tiers
  write_rows position [] t = ok t
  write_rows position (r ∷ rows) t = do
    raise_if (leb large_count position)
        (runtime_error "selected corpus unexpectedly exceeds large tier")
    encoded ← encode_text r.prepared_text
    raise_if (not (length encoded == r.prepared_bytes))
        (runtime_error "prepared-byte accounting mismatch")
    large ← write_row position r t.large
    small ← write_small position r t.small
    write_rows (suc position) rows (record { small = small; large = large })

  -- Both tiers, with what is said of them in the manifest.
  unfoldable pub write_documents : List Chosen → List Row → Result (Tiers × TierStats × TierStats)
  write_documents selected corpus = do
    t ← write_rows 0 (joined selected corpus) (record { small = new_tier; large = new_tier })
    raise_if (not (t.large.documents.lines == large_count))
        (runtime_error "wrote another number of large-tier documents")
    raise_if (not (t.small.documents.lines == small_count))
        (runtime_error "wrote another number of small-tier documents")
    ok (
      t,
      tier_stats small_count t.small.sums (count_distinct (texts (rows_of_tier 0 selected corpus))),
      tier_stats large_count t.large.sums (count_distinct (texts (joined selected corpus))),
    )
