-- ===== src/Prepare/Tiers/Prefix.antt =====
-- The small tier is the beginning of the large one.
use leann_cpp.Prelude.{
  ℕ, suc, ◌<◌, ◌≡◌, refl, sym, ap, ◌∙◌, true, List, [], ◌∷◌, ◌++◌, append_assoc, arith, length,
  take, drop, take-append-drop, ok,
}
use leann_cpp.Bytes.{Bytes}
use leann_cpp.Bytes.Utf8.{encode}
use leann_cpp.Prepare.{verify_prefix}
use leann_cpp.Prepare.Laws.{ends_line, verify_prefix_iff}
use leann_cpp.Prepare.Select.{Row, Chosen}
use leann_cpp.Prepare.Tiers.{Tiers, TierStats, id_line, joined, write_documents}
use leann_cpp.Prepare.Tiers.Written.{document_lines, id_lines, write_documents_lem}

document_lines-append :
    (xs ys : List Row) → document_lines (xs ++ ys) ≡ document_lines xs ++ document_lines ys
document_lines-append [] ys = refl
document_lines-append (x ∷ xs) ys =
    ap (λ (t : Bytes). encode x.prepared_text ++ 10 ∷ t) (document_lines-append xs ys)
    ∙ sym (append_assoc (encode x.prepared_text) (10 ∷ document_lines xs) (document_lines ys))

id_lines-append :
    (position : ℕ) (xs ys : List Row)
    → (rest : Bytes) × (id_lines position (xs ++ ys) ≡ id_lines position xs ++ rest)
id_lines-append position [] ys = (id_lines position ys, refl)
id_lines-append position (x ∷ xs) ys =
    let (rest, e) = id_lines-append (suc position) xs ys in
    let line = encode (id_line position x.corpus_id) in
    (
      rest,
      ap (λ (t : Bytes). line ++ 10 ∷ t) e
          ∙ sym (append_assoc line (10 ∷ id_lines (suc position) xs) rest),
    )

ends_line-append : (a b : Bytes) → ends_line b ≡ true → ends_line (a ++ 10 ∷ b) ≡ true
ends_line-append [] [] h = refl
ends_line-append [] (x ∷ b) h = h
ends_line-append (x ∷ []) b h = ends_line-append [] b h
ends_line-append (x ∷ y ∷ a) b h = ends_line-append (y ∷ a) b h

ends_line-line : (a : Bytes) → ends_line (a ++ 10 ∷ []) ≡ true
ends_line-line [] = refl
ends_line-line (x ∷ []) = refl
ends_line-line (x ∷ y ∷ a) = ends_line-line (y ∷ a)

ends_line-documents : (rows : List Row) → 0 < length rows → ends_line (document_lines rows) ≡ true
ends_line-documents [] h = absurd (omega arith)
ends_line-documents (r ∷ []) h = ends_line-line (encode r.prepared_text)
ends_line-documents (r ∷ s ∷ rows) h =
    ends_line-append (encode r.prepared_text) (document_lines (s ∷ rows))
      (ends_line-documents (s ∷ rows) (omega arith))

ends_line-ids :
    (position : ℕ) (rows : List Row) → 0 < length rows → ends_line (id_lines position rows) ≡ true
ends_line-ids position [] h = absurd (omega arith)
ends_line-ids position (r ∷ []) h = ends_line-line (encode (id_line position r.corpus_id))
ends_line-ids position (r ∷ s ∷ rows) h =
    ends_line-append (encode (id_line position r.corpus_id)) (id_lines (suc position) (s ∷ rows))
      (ends_line-ids (suc position) (s ∷ rows) (omega arith))

module _ (small_count large_count : ℕ) where
  -- What write_documents wrote of the small tier passes verify_prefix against the large tier.
  pub write_documents-verify_prefix :
      (selected : List Chosen) (corpus : List Row) (t : Tiers) (small_stats large_stats : TierStats)
      → 0 < small_count
      → write_documents small_count large_count selected corpus ≡ ok (t, small_stats, large_stats)
      → (verify_prefix t.small.documents.contents t.large.documents.contents ≡ ok tt)
        × (verify_prefix t.small.ids.contents t.large.ids.contents ≡ ok tt)
  write_documents-verify_prefix selected corpus t ss ls p h =
      let rows = joined selected corpus in
      let (large, small) = write_documents_lem small_count large_count selected corpus t ss ls h in
      let cut = take-append-drop small_count rows in
      let some_rows : 0 < length (take small_count rows) = omega (arith, small.0, p) in
      (
        rw (small.1, large.1)
            ((verify_prefix_iff _ _ (ends_line-documents _ some_rows)).1 (
              document_lines (drop small_count rows),
              ap document_lines (sym cut)
                  ∙ document_lines-append (take small_count rows) (drop small_count rows),
            )),
        (let (rest, e) = id_lines-append 0 (take small_count rows) (drop small_count rows) in
            rw (small.2, large.2)
              ((verify_prefix_iff _ _ (ends_line-ids 0 _ some_rows)).1
                (rest, ap (id_lines 0) (sym cut) ∙ e))),
      )
