-- ===== src/Prepare/Select.antt =====
-- `select_documents` of scripts/prepare_beir_nq_scale.py: which rows of the corpus make up the small
-- and the large tier. A table is given by its rows in the order of its index on (rank_hash,
-- corpus_id), which is the order that the queries ask for; a transaction that is rolled back leaves
-- no table, as an error does here, and the batches of one transaction are its rows.
pub mod Laws
use leann_cpp.Prelude.{
  ℕ, ◌+◌, Bool, true, false, not, ◌||◌, List, [], ◌∷◌, ◌++◌, map, length, eq_list, ltb, ◌==◌,
  if◌then◌else◌, Result, ok, runtime_error, ◌>>=◌, ◌>>◌, raise_if,
}
use leann_cpp.Bytes.{Bytes, Text}

-- A row of `corpus`.
pub record Row : Type 0 where
  pub corpus_id : Text
  pub text_sha256 : Bytes
  pub prepared_text : Text
  pub raw_text_bytes : ℕ
  pub original_prepared_bytes : ℕ
  pub prepared_bytes : ℕ
  pub truncated : Bool
  pub is_positive : Bool

-- A row of `selected`.
pub record Chosen : Type 0 where
  pub corpus_id : Text
  pub tier : ℕ
  pub forced : Bool

pub record Selection : Type 0 where
  pub selected : List Chosen
  pub used_text_hashes : List Bytes
  pub selected_small : ℕ
  pub selected_large : ℕ
  pub skipped_text_duplicates : ℕ

abbrev pub is_in : Bytes → List Bytes → Bool
is_in t [] = false
is_in t (u ∷ used) = eq_list t u || is_in t used

-- `WHERE is_positive = …`
abbrev pub where_positive : Bool → List Row → List Row
where_positive wanted [] = []
where_positive true (r ∷ rows) =
    let rest = where_positive true rows in if r.is_positive then r ∷ rest else rest
where_positive false (r ∷ rows) =
    let rest = where_positive false rows in if r.is_positive then rest else r ∷ rest

abbrev pub texts : List Row → List Bytes
texts [] = []
texts (r ∷ rows) = r.text_sha256 ∷ texts rows

-- Whether `positive_ids_by_text` has a group of more than one row.
abbrev pub has_duplicates : List Bytes → Bool
has_duplicates [] = false
has_duplicates (t ∷ ts) = is_in t ts || has_duplicates ts

abbrev pub forced_rows : List Row → List Chosen
forced_rows [] = []
forced_rows (r ∷ rows) =
    record { corpus_id = r.corpus_id; tier = 0; forced = true } ∷ forced_rows rows

-- The positive rows are in the small tier.
abbrev pub forced_selection : List Row → Selection
forced_selection positives = record {
  selected = forced_rows positives;
  used_text_hashes = texts positives;
  selected_small = length positives;
  selected_large = length positives;
  skipped_text_duplicates = 0;
}

module _ (small_count large_count : ℕ) where
  abbrev pub tier_of : ℕ → ℕ
  tier_of selected_small = if ltb selected_small small_count then 0 else 1

  abbrev pub skip : Selection → Selection
  skip s = record s { skipped_text_duplicates = s.skipped_text_duplicates + 1 }

  abbrev pub choose : Row → Selection → Selection
  choose r s = record s {
    selected =
        s.selected
        ++ record { corpus_id = r.corpus_id; tier = tier_of s.selected_small; forced = false } ∷ [];
    used_text_hashes = r.text_sha256 ∷ s.used_text_hashes;
    selected_small =
        if ltb s.selected_small small_count then s.selected_small + 1 else s.selected_small;
    selected_large = s.selected_large + 1;
  }

  -- `for corpus_id, text_sha256 in candidates`
  unfoldable pub fill : List Row → Selection → Selection
  fill [] s = s
  fill (r ∷ rows) s = elim (is_in r.text_sha256 s.used_text_hashes) [
    | true ↦ fill rows (skip s)
    | false ↦ elim (s.selected_large + 1 == large_count) [
      | true ↦ choose r s
      | false ↦ fill rows (choose r s)
    ]
  ]

  unfoldable pub select_documents : List Row → ℕ → Result Selection
  select_documents corpus positive_count = do
    raise_if (ltb small_count positive_count)
        (runtime_error "positive documents do not fit in the nested tier")
    raise_if (ltb (length corpus) large_count) (runtime_error "corpus has too few documents")
    raise_if (has_duplicates (texts (where_positive true corpus)))
        (runtime_error "selected positive-qrel document rows reuse prepared text")
    let s = fill (where_positive false corpus) (forced_selection (where_positive true corpus))
    raise_if (not (s.selected_small == small_count) || not (s.selected_large == large_count))
        (runtime_error "not enough unique prepared documents to satisfy requested tiers")
    raise_if (not (length s.used_text_hashes == s.selected_large))
        (runtime_error "selected corpus contains retained prepared-text duplicates")
    ok s
