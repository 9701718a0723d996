-- ===== src/Prepare/Select/Laws.antt =====
-- What the tiers are made of.
use leann_cpp.Prelude.{
  ok-injective, ℕ, zero, suc, ◌+◌, ◌-◌, ◌≤◌, ◌<◌, min, ◌≡◌, ◌↔◌, refl, sym, ap, ◌∙◌, true, false,
  not, ◌||◌, List, [], ◌∷◌, ◌++◌, append_assoc, append-nil, arith, length, length-take, subst, take,
  ltb, ◌==◌, ==_self, Bool-cases, inl, inr, ok, runtime_error, raise_if-eq-ok,
}
use leann_cpp.Bytes.{Bytes}
use leann_cpp.Prepare.Select.{
  Row, Chosen, Selection, is_in, where_positive, texts, has_duplicates, forced_rows,
  forced_selection, tier_of, skip, choose, fill, select_documents,
}

-- The rows whose text neither is in use nor stands earlier.
abbrev pub fresh : List Bytes → List Row → List Row
fresh used [] = []
fresh used (r ∷ rows) = elim (is_in r.text_sha256 used) [
  | true ↦ fresh used rows
  | false ↦ r ∷ fresh (r.text_sha256 ∷ used) rows
]

fresh_used :
    (used : List Bytes) (r : Row) (rows : List Row)
    → is_in r.text_sha256 used ≡ true
    → fresh used (r ∷ rows) ≡ fresh used rows
fresh_used used r rows h = rw (h, fresh) refl

fresh_new :
    (used : List Bytes) (r : Row) (rows : List Row)
    → is_in r.text_sha256 used ≡ false
    → fresh used (r ∷ rows) ≡ r ∷ fresh (r.text_sha256 ∷ used) rows
fresh_new used r rows h = rw (h, fresh) refl

length-texts : (rows : List Row) → length (texts rows) ≡ length rows
length-texts [] = refl
length-texts (r ∷ rows) = ap suc (length-texts rows)

module _ (small_count large_count : ℕ) where
  -- Rows that are chosen one after the other behind `n` others.
  abbrev pub chosen : ℕ → List Row → List Chosen
  chosen n [] = []
  chosen n (r ∷ rows) =
      record { corpus_id = r.corpus_id; tier = tier_of small_count large_count n; forced = false }
      ∷ chosen (suc n) rows

  -- With room for `n` more rows.
  abbrev Fills : ℕ → List Row → Selection → Selection → Type 0
  Fills n rows s t =
      let more = take n (fresh s.used_text_hashes rows) in
      (t.selected ≡ s.selected ++ chosen s.selected_large more)
      × (t.selected_large ≡ s.selected_large + length more)
      × (t.selected_small ≡ min small_count t.selected_large)
      × (length t.used_text_hashes ≡ length s.used_text_hashes + length more)

  fill_used :
      (r : Row) (rows : List Row) (s : Selection)
      → is_in r.text_sha256 s.used_text_hashes ≡ true
      → fill small_count large_count (r ∷ rows) s
        ≡ fill small_count large_count rows (skip small_count large_count s)
  unfolding fill
  fill_used r rows s h = rw (h, fill) refl

  fill_last :
      (r : Row) (rows : List Row) (s : Selection)
      → is_in r.text_sha256 s.used_text_hashes ≡ false
      → (s.selected_large + 1 == large_count) ≡ true
      → fill small_count large_count (r ∷ rows) s ≡ choose small_count large_count r s
  unfolding fill
  fill_last r rows s h e = rw (h, e, fill) refl

  fill_more :
      (r : Row) (rows : List Row) (s : Selection)
      → is_in r.text_sha256 s.used_text_hashes ≡ false
      → (s.selected_large + 1 == large_count) ≡ false
      → fill small_count large_count (r ∷ rows) s
        ≡ fill small_count large_count rows (choose small_count large_count r s)
  unfolding fill
  fill_more r rows s h e = rw (h, e, fill) refl

  tier_of-min :
      (n : ℕ)
      → tier_of small_count large_count (min small_count n) ≡ tier_of small_count large_count n
  tier_of-min n = ground arith

  small_of_choose :
      (r : Row) (s : Selection)
      → s.selected_small ≡ min small_count s.selected_large
      → (choose small_count large_count r s).selected_small ≡ min small_count (s.selected_large + 1)
  small_of_choose r s m = ground arith

  choose-Fills :
      (n : ℕ) (r : Row) (rows : List Row) (s t : Selection)
      → is_in r.text_sha256 s.used_text_hashes ≡ false
      → Fills n rows (choose small_count large_count r s) t
      → s.selected_small ≡ min small_count s.selected_large
      → Fills (suc n) (r ∷ rows) s t
  choose-Fills n r rows s t h (a, b, c, d) m = rw (fresh_new s.used_text_hashes r rows h) (
    a
        ∙ append_assoc s.selected _ _
        ∙ ap (λ (l : List Chosen). s.selected ++ l)
            (entry (take n (fresh (r.text_sha256 ∷ s.used_text_hashes) rows))),
    omega (arith, b),
    c,
    omega (arith, d),
  )
    where
      entry :
          (more : List Row)
          → record {
            corpus_id = r.corpus_id;
            tier = tier_of small_count large_count s.selected_small;
            forced = false;
          }
              ∷ chosen (s.selected_large + 1) more
            ≡ record {
              corpus_id = r.corpus_id;
              tier = tier_of small_count large_count s.selected_large;
              forced = false;
            }
              ∷ chosen (suc s.selected_large) more
      entry more =
          let e : s.selected_large + 1 ≡ suc s.selected_large = omega arith in
          rw (m, tier_of-min s.selected_large, e) refl

  fill-Fills :
      (n : ℕ) (rows : List Row) (s : Selection)
      → s.selected_large + suc n ≡ large_count
      → s.selected_small ≡ min small_count s.selected_large
      → Fills (suc n) rows s (fill small_count large_count rows s)
  unfolding fill
  fill-Fills n [] s l m = (sym (append-nil _), omega arith, m, omega arith)
  fill-Fills zero (r ∷ rows) s l m = elim (Bool-cases (is_in r.text_sha256 s.used_text_hashes)) [
    | inl h ↦
        rw (fill_used r rows s h, fresh_used s.used_text_hashes r rows h)
          (fill-Fills zero rows (skip small_count large_count s) l m)
    | inr h ↦ rw (fill_last r rows s h (ground arith)) (
        choose-Fills zero r rows s (choose small_count large_count r s) h
          (sym (append-nil _), omega arith, small_of_choose r s m, omega arith) m)
  ]
  fill-Fills (suc n) (r ∷ rows) s l m = elim (Bool-cases (is_in r.text_sha256 s.used_text_hashes)) [
    | inl h ↦
        rw (fill_used r rows s h, fresh_used s.used_text_hashes r rows h)
          (fill-Fills (suc n) rows (skip small_count large_count s) l m)
    | inr h ↦ rw (fill_more r rows s h (ground arith)) (
        choose-Fills (suc n) r rows s
          (fill small_count large_count rows (choose small_count large_count r s)) h
          (fill-Fills n rows (choose small_count large_count r s) (omega arith)
            (small_of_choose r s m))
          m)
  ]

  -- There is room for the positive rows, and there are enough rows with texts of their own.
  abbrev pub Conditions : List Row → Type 0
  Conditions corpus =
      let positives = where_positive true corpus in
      (length positives ≤ small_count)
      × (large_count ≤ length corpus)
      × (has_duplicates (texts positives) ≡ false)
      × (large_count
          ≤ length positives + length (fresh (texts positives) (where_positive false corpus)))

  -- The positive rows in the small tier, then rows with new texts in the order of their rank, in the
  -- small tier until it is full and then in the large one.
  abbrev pub IsSelection : List Row → Selection → Type 0
  IsSelection corpus s =
      let positives = where_positive true corpus in
      let more =
        take (large_count - length positives)
          (fresh (texts positives) (where_positive false corpus)) in
      (s.selected ≡ forced_rows positives ++ chosen (length positives) more)
      × (s.selected_small ≡ small_count)
      × (s.selected_large ≡ large_count)
      × (length s.used_text_hashes ≡ large_count)

  -- The loop, on tiers that have more rows than there are positive ones.
  fill_positives :
      (corpus : List Row)
      → small_count < large_count
      → length (where_positive true corpus) ≤ small_count
      → let positives = where_positive true corpus in
        let more =
          take
            (large_count - length positives)
            (fresh (texts positives) (where_positive false corpus)) in
        let s =
          fill small_count large_count (where_positive false corpus) (forced_selection positives) in
        (s.selected ≡ forced_rows positives ++ chosen (length positives) more)
        × (s.selected_large ≡ length positives + length more)
        × (s.selected_small ≡ min small_count s.selected_large)
        × (length s.used_text_hashes ≡ s.selected_large)
  fill_positives corpus l p =
      let positives = where_positive true corpus in
      let n = large_count - length positives - 1 in
      let e : large_count - length positives ≡ suc n = omega arith in
      let (a, b, c, d) =
        fill-Fills n (where_positive false corpus) (forced_selection positives) (omega arith)
          (omega arith) in
      rw e (a, b, c, omega (arith, b, d, length-texts positives))

  select_documents-eq-ok :
      (corpus : List Row) (positive_count : ℕ) (s : Selection)
      → small_count < large_count
      → length (where_positive true corpus) ≡ positive_count
      → select_documents small_count large_count corpus positive_count ≡ ok s
      → Conditions corpus × IsSelection corpus s
  unfolding select_documents
  select_documents-eq-ok corpus positive_count s l p h =
      let positives = where_positive true corpus in
      let t =
        fill small_count large_count (where_positive false corpus) (forced_selection positives) in
      let (h1, r1) =
        raise_if-eq-ok (ltb small_count positive_count)
          (runtime_error "positive documents do not fit in the nested tier") _ h in
      let (h2, r2) =
        raise_if-eq-ok (ltb (length corpus) large_count)
          (runtime_error "corpus has too few documents") _ r1 in
      let (h3, r3) =
        raise_if-eq-ok (has_duplicates (texts positives))
          (runtime_error "selected positive-qrel document rows reuse prepared text") _ r2 in
      let (h4, r4) =
        raise_if-eq-ok
          (not (t.selected_small == small_count) || not (t.selected_large == large_count))
          (runtime_error "not enough unique prepared documents to satisfy requested tiers") _ r3 in
      let (h5, r5) =
        raise_if-eq-ok (not (length t.used_text_hashes == t.selected_large))
          (runtime_error "selected corpus contains retained prepared-text duplicates") _ r4 in
      let fits : length positives ≤ small_count = ground arith in
      let (a, b, c, d) = fill_positives corpus l fits in
      let large : t.selected_large ≡ large_count = ground arith in
      let small : t.selected_small ≡ small_count = ground arith in
      let same : t ≡ s = ok-injective _ _ r5 in
      (
        (fits, ground arith, h3, enough t.selected_large fits b large),
        subst (IsSelection corpus) same (a, small, large, d ∙ large),
      )
    where
      enough :
          let positives = where_positive true corpus in
          let new = fresh (texts positives) (where_positive false corpus) in
          (n : ℕ)
          → length positives ≤ small_count
          → n ≡ length positives + length (take (large_count - length positives) new)
          → n ≡ large_count
          → large_count ≤ length positives + length new
      enough n fits b large =
          let positives = where_positive true corpus in
          let new = fresh (texts positives) (where_positive false corpus) in
          omega (arith, fits, b, large, length-take (large_count - length positives) new)

  select_documents-of_Conditions :
      (corpus : List Row) (positive_count : ℕ)
      → small_count < large_count
      → length (where_positive true corpus) ≡ positive_count
      → Conditions corpus
      → (s : Selection) × (select_documents small_count large_count corpus positive_count ≡ ok s)
  unfolding select_documents
  select_documents-of_Conditions corpus positive_count l p (h1, h2, h3, h4) =
      let positives = where_positive true corpus in
      let new = fresh (texts positives) (where_positive false corpus) in
      let s =
        fill small_count large_count (where_positive false corpus) (forced_selection positives) in
      let (a, b, c, d) = fill_positives corpus l h1 in
      let large : s.selected_large ≡ large_count =
        omega (arith, b, h1, h4, l, length-take (large_count - length positives) new) in
      let small : s.selected_small ≡ small_count = omega (arith, c, large, l) in
      let e1 : ltb small_count positive_count ≡ false = ground arith in
      let e2 : ltb (length corpus) large_count ≡ false = ground arith in
      (s, rw (e1, e2, h3, small, d, large, ==_self small_count, ==_self large_count) refl)

  -- For tiers of which the large one is larger and the number of positive rows: select_documents
  -- returns exactly when the positive rows fit the small tier and have distinct texts, and there are
  -- enough rows with new texts; then the selection is the positive rows, in the small tier, and the
  -- first others with new texts by rank, in the small tier until it is full and then in the large
  -- one, with the sizes asked for and a text for each row.
  pub select_documents_iff :
      (corpus : List Row) (positive_count : ℕ)
      → small_count < large_count
      → length (where_positive true corpus) ≡ positive_count
      → let result = select_documents small_count large_count corpus positive_count in
        (((s : Selection) × (result ≡ ok s)) ↔ Conditions corpus)
        × ((s : Selection) → result ≡ ok s → IsSelection corpus s)
  select_documents_iff corpus n l p = (
    (
      λ (s, e). (select_documents-eq-ok corpus n s l p e).0,
      select_documents-of_Conditions corpus n l p,
    ),
    λ s e. (select_documents-eq-ok corpus n s l p e).1,
  )
