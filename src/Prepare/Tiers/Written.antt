-- ===== src/Prepare/Tiers/Written.antt =====
-- What `write_documents` writes.
use leann_cpp.Prelude.{
  ok-injective, ℕ, zero, suc, ◌+◌, ◌-◌, ◌≤◌, ◌≡◌, refl, sym, ap, subst, ◌∙◌, not, List, [], ◌∷◌,
  ◌++◌, append_assoc, append-nil, arith, length, length-append, All, All-take, take, ltb, leb, ◌==◌,
  Bool-cases, inl, inr, ok, runtime_error, >>=-eq-ok, raise_if-eq-ok,
}
use leann_cpp.Bytes.{Bytes, Text}
use leann_cpp.Bytes.Utf8.{encode, encode_text, encode_text-eq-ok}
use leann_cpp.Prepare.Select.{Row, Chosen}
use leann_cpp.Prepare.Tiers.{
  Writer, append_line, write_line, Tier, Tiers, TierStats, new_tier, add_row, id_line, write_row,
  joined, write_small, write_rows, write_documents,
}

abbrev pub with_row : ℕ → Row → Tier → Tier
with_row position r t = record {
  documents = append_line (encode r.prepared_text) t.documents;
  ids = append_line (encode (id_line position r.corpus_id)) t.ids;
  sums = add_row r t.sums;
}

-- A tier with some rows, of which the first stands at `position`.
abbrev pub with_rows : ℕ → List Row → Tier → Tier
with_rows position [] t = t
with_rows position (r ∷ rows) t = with_rows (suc position) rows (with_row position r t)

write_line-eq-ok :
    (value : Text) (w out : Writer)
    → write_line value w ≡ ok out
    → out ≡ append_line (encode value) w
unfolding write_line
write_line-eq-ok value w out h =
    let (encoded, e, h1) = >>=-eq-ok (encode_text value) _ h in
    sym (ok-injective _ _ h1)
    ∙ ap (λ (b : Bytes). append_line b w) (encode_text-eq-ok value encoded e)

write_row-eq-ok :
    (position : ℕ) (r : Row) (t out : Tier)
    → write_row position r t ≡ ok out
    → out ≡ with_row position r t
unfolding write_row
write_row-eq-ok position r t out h =
    let (d, e1, h1) = >>=-eq-ok (write_line r.prepared_text t.documents) _ h in
    let (i, e2, h2) = >>=-eq-ok (write_line (id_line position r.corpus_id) t.ids) _ h1 in
    let f1 = write_line-eq-ok r.prepared_text t.documents d e1 in
    let f2 = write_line-eq-ok (id_line position r.corpus_id) t.ids i e2 in
    sym (ok-injective _ _ h2) ∙ rw (f1, f2) refl

with_nil : (n position : ℕ) (t : Tier) → t ≡ with_rows position (take n []) t
with_nil zero position t = refl
with_nil (suc n) position t = refl

-- The table has the length of each text.
abbrev HasItsLength : Row → Type 0
HasItsLength r = length (encode r.prepared_text) ≡ r.prepared_bytes

its_length :
    (r : Row) (encoded : Bytes)
    → encode_text r.prepared_text ≡ ok encoded
    → length encoded ≡ r.prepared_bytes
    → HasItsLength r
its_length r encoded e l = ap length (sym (encode_text-eq-ok r.prepared_text encoded e)) ∙ l

-- The files of a tier.
abbrev pub document_lines : List Row → Bytes
document_lines [] = []
document_lines (r ∷ rows) = encode r.prepared_text ++ 10 ∷ document_lines rows

abbrev pub id_lines : ℕ → List Row → Bytes
id_lines position [] = []
id_lines position (r ∷ rows) =
    encode (id_line position r.corpus_id) ++ 10 ∷ id_lines (suc position) rows

append_snoc : (a b c : Bytes) → ((a ++ b) ++ 10 ∷ []) ++ c ≡ a ++ (b ++ 10 ∷ c)
append_snoc a b c = append_assoc (a ++ b) (10 ∷ []) c ∙ append_assoc a b (10 ∷ c)

with_rows-documents :
    (position : ℕ) (rows : List Row) (t : Tier)
    → (with_rows position rows t).documents.contents ≡ t.documents.contents ++ document_lines rows
with_rows-documents position [] t = sym (append-nil _)
with_rows-documents position (r ∷ rows) t =
    with_rows-documents (suc position) rows (with_row position r t)
    ∙ append_snoc t.documents.contents (encode r.prepared_text) (document_lines rows)

with_rows-ids :
    (position : ℕ) (rows : List Row) (t : Tier)
    → (with_rows position rows t).ids.contents ≡ t.ids.contents ++ id_lines position rows
with_rows-ids position [] t = sym (append-nil _)
with_rows-ids position (r ∷ rows) t =
    with_rows-ids (suc position) rows (with_row position r t)
    ∙ append_snoc t.ids.contents (encode (id_line position r.corpus_id))
        (id_lines (suc position) rows)

-- Lines are counted, and the bytes of the documents are those in the table with their line ends.
with_rows-counts :
    (position : ℕ) (rows : List Row) (t : Tier)
    → All HasItsLength rows
    → let out = with_rows position rows t in
      (out.documents.lines ≡ t.documents.lines + length rows)
      × (out.ids.lines ≡ t.ids.lines + length rows)
      × (out.documents.bytes + t.sums.prepared_bytes
          ≡ t.documents.bytes + out.sums.prepared_bytes + length rows)
      × (t.sums.maximum_prepared_bytes ≤ out.sums.maximum_prepared_bytes)
      × All (λ r. r.prepared_bytes ≤ out.sums.maximum_prepared_bytes) rows
with_rows-counts position [] t h = (omega arith, omega arith, omega arith, omega arith, tt)
with_rows-counts position (r ∷ rows) t (h, hs) =
    let (a, b, c, d, e) = with_rows-counts (suc position) rows (with_row position r t) hs in
    let l = length-append (encode r.prepared_text) (10 ∷ []) in
    (
      omega (arith, a),
      omega (arith, b),
      omega (arith, c, l, h),
      omega (arith, d),
      (omega (arith, d), e),
    )

-- The files of a tier of `count` rows, and how they are counted.
abbrev pub IsTier : ℕ → List Row → Tier → Type 0
IsTier count rows t =
    (length rows ≡ count)
    × (t.documents.contents ≡ document_lines rows)
    × (t.ids.contents ≡ id_lines 0 rows)
    × (t.documents.bytes ≡ t.sums.prepared_bytes + count)
    × All (λ r. r.prepared_bytes ≤ t.sums.maximum_prepared_bytes) rows

with_rows-IsTier :
    (rows : List Row)
    → All HasItsLength rows
    → IsTier (with_rows 0 rows new_tier).documents.lines rows (with_rows 0 rows new_tier)
with_rows-IsTier rows h =
    let (l1, l2, l3, l4, l5) = with_rows-counts 0 rows new_tier h in
    (
      omega (arith, l1),
      with_rows-documents 0 rows new_tier,
      with_rows-ids 0 rows new_tier,
      omega (arith, l3, l1),
      l5,
    )

tier_lem :
    (count : ℕ) (rows : List Row) (t : Tier)
    → t ≡ with_rows 0 rows new_tier
    → All HasItsLength rows
    → t.documents.lines ≡ count
    → IsTier count rows t
tier_lem count rows t e h l =
    subst (λ (n : ℕ). IsTier n rows t) l
      (subst (λ (u : Tier). IsTier u.documents.lines rows u) (sym e) (with_rows-IsTier rows h))

module _ (small_count large_count : ℕ) where
  write_small-eq-ok :
      (position : ℕ) (r : Row) (rows : List Row) (t out : Tier)
      → write_small small_count large_count position r t ≡ ok out
      → with_rows (suc position) (take (small_count - suc position) rows) out
        ≡ with_rows position (take (small_count - position) (r ∷ rows)) t
  write_small-eq-ok position r rows t out h = elim (Bool-cases (ltb position small_count)) [
    | inl p ↦
        let e : small_count - position ≡ suc (small_count - suc position) = ground arith in
        let k = rw p at h in
        rw e (
          ap (λ (u : Tier). with_rows (suc position) (take (small_count - suc position) rows) u)
            (write_row-eq-ok position r t out k))
    | inr p ↦
        let e : small_count - position ≡ 0 = ground arith in
        let f : small_count - suc position ≡ 0 = omega (arith, e) in
        let k = rw p at h in rw (e, f) (sym (ok-injective _ _ k))
  ]

  write_rows-eq-ok :
      (position : ℕ) (rows : List Row) (t out : Tiers)
      → write_rows small_count large_count position rows t ≡ ok out
      → (out.large ≡ with_rows position rows t.large)
        × (out.small ≡ with_rows position (take (small_count - position) rows) t.small)
        × All HasItsLength rows
  unfolding write_rows
  write_rows-eq-ok position [] t out h =
      let same = ok-injective _ _ h in
      (
        ap (λ (u : Tiers). u.large) (sym same),
        ap (λ (u : Tiers). u.small) (sym same) ∙ with_nil (small_count - position) position t.small,
        tt,
      )
  write_rows-eq-ok position (r ∷ rows) t out h =
      let (h0, r0) =
        raise_if-eq-ok (leb large_count position)
          (runtime_error "selected corpus unexpectedly exceeds large tier") _ h in
      let (encoded, e1, r1) = >>=-eq-ok (encode_text r.prepared_text) _ r0 in
      let (h2, r2) =
        raise_if-eq-ok (not (length encoded == r.prepared_bytes))
          (runtime_error "prepared-byte accounting mismatch") _ r1 in
      let (large, e3, r3) = >>=-eq-ok (write_row position r t.large) _ r2 in
      let (small, e4, r4) =
        >>=-eq-ok (write_small small_count large_count position r t.small) _ r3 in
      let (a, b, c) =
        write_rows-eq-ok (suc position) rows (record { small = small; large = large }) out r4 in
      (
        a
            ∙ ap (λ (u : Tier). with_rows (suc position) rows u)
                (write_row-eq-ok position r t.large large e3),
        b ∙ write_small-eq-ok position r rows t.small small e4,
        (its_length r encoded e1 (ground arith), c),
      )

  abbrev pub AreTiers : List Row → Tiers → Type 0
  AreTiers rows t =
      IsTier large_count rows t.large × IsTier small_count (take small_count rows) t.small

  -- If write_documents returns, the selected rows are as many as the large tier asks for, and each
  -- file has a line for each of them, or for each of the first small_count: the text, or the
  -- position and the ID. The documents' bytes are those that the table gives them, with one for each
  -- line end, and none has more than the maximum that is recorded.
  pub write_documents_lem :
      (selected : List Chosen) (corpus : List Row) (t : Tiers) (small_stats large_stats : TierStats)
      → write_documents small_count large_count selected corpus ≡ ok (t, small_stats, large_stats)
      → AreTiers (joined selected corpus) t
  unfolding write_documents
  write_documents_lem selected corpus t ss ls h =
      let rows = joined selected corpus in
      let start : Tiers = record { small = new_tier; large = new_tier } in
      let (u, e1, h1) = >>=-eq-ok (write_rows small_count large_count 0 rows start) _ h in
      let (l, h2) =
        raise_if-eq-ok (not (u.large.documents.lines == large_count))
          (runtime_error "wrote another number of large-tier documents") _ h1 in
      let (s, h3) =
        raise_if-eq-ok (not (u.small.documents.lines == small_count))
          (runtime_error "wrote another number of small-tier documents") _ h2 in
      let same : u ≡ t = ap (λ (x : Tiers × TierStats × TierStats). x.0) (ok-injective _ _ h3) in
      let (a, b, c) = write_rows-eq-ok 0 rows start u e1 in
      let z : small_count - 0 ≡ small_count = omega arith in
      let b' : u.small ≡ with_rows 0 (take small_count rows) new_tier =
        b ∙ ap (λ (n : ℕ). with_rows 0 (take n rows) new_tier) z in
      subst (AreTiers rows) same (
        tier_lem large_count rows u.large a c (ground arith),
        tier_lem small_count (take small_count rows) u.small b'
            (All-take HasItsLength small_count rows c) (ground arith),
      )
