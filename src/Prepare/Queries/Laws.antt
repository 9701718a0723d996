-- ===== src/Prepare/Queries/Laws.antt =====
-- What `parse_qrels` and `select_queries` return.
use leann_cpp.Prelude.{
  eq_list-false, ok-injective, suc, ◌≤◌, ◌≡◌, refl, sym, ap, subst, ◌∙◌, Bool, true, false, not,
  ◌&&◌, ◌||◌, Bool-cases, inl, inr, Option, none, some, List, [], ◌∷◌, ◌++◌, length, arith, eq_list,
  eq_of_eq_list, ◌==◌, ok, runtime_error, >>=-eq-ok, raise_if-eq-ok,
}
use leann_cpp.Bytes.{Bytes, Text}
use leann_cpp.Platform.{Digest}
use leann_cpp.Prepare.{byte_lines, read_line, after_line}
use leann_cpp.Prepare.Select.{is_in}
use leann_cpp.Prepare.Queries.{
  find, Floats, Qrel, Positives, SourceFileStats, add_to_set, add_positive, decode_fields,
  parse_qrel, has_pair, note_positive, parse_qrel_lines, parse_qrels, insert_ranked, sort_ranked,
  ranks_before,
}

-- `corpus_id in positives.get(query_id, set())`
abbrev pub in_set : Text → Option (List Text) → Bool
in_set corpus_id none = false
in_set corpus_id (some set) = is_in corpus_id set

abbrev pub in_positives : Text → Text → Positives → Bool
in_positives query_id corpus_id positives = in_set corpus_id (find query_id positives)

is_in-append :
    (t u : Text) (set : List Text) → is_in t (set ++ u ∷ []) ≡ (eq_list t u || is_in t set)
is_in-append t u [] = refl
is_in-append t u (x ∷ set) = ground (arith, is_in-append t u set)

add_to_set_lem :
    (t u : Text) (set : List Text) → is_in t (add_to_set u set) ≡ (eq_list t u || is_in t set)
add_to_set_lem t u set = elim (Bool-cases (is_in u set)) [
  | inl e ↦ rw e (known t e)
  | inr e ↦ rw e (is_in-append t u set)
]
  where
    known : (t : Text) → is_in u set ≡ true → is_in t set ≡ (eq_list t u || is_in t set)
    known t e = elim (Bool-cases (eq_list t u)) [
      | inl same ↦ rw (same, eq_of_eq_list t u same) e
      | inr other ↦ rw other refl
    ]

in_positives_here :
    (q c k : Text) (set : List Text) (positives : Positives)
    → eq_list k q ≡ true
    → in_positives q c ((k, set) ∷ positives) ≡ is_in c set
in_positives_here q c k set positives e = rw (e, find) refl

in_positives_later :
    (q c k : Text) (set : List Text) (positives : Positives)
    → eq_list k q ≡ false
    → in_positives q c ((k, set) ∷ positives) ≡ in_positives q c positives
in_positives_later q c k set positives e = rw (e, find) refl

add_positive_here :
    (q c k : Text) (set : List Text) (positives : Positives)
    → eq_list k q ≡ true
    → add_positive q c ((k, set) ∷ positives) ≡ (k, add_to_set c set) ∷ positives
add_positive_here q c k set positives e = rw (e, add_positive) refl

add_positive_later :
    (q c k : Text) (set : List Text) (positives : Positives)
    → eq_list k q ≡ false
    → add_positive q c ((k, set) ∷ positives) ≡ (k, set) ∷ add_positive q c positives
add_positive_later q c k set positives e = rw (e, add_positive) refl

add_positive_lem :
    (q c q' c' : Text) (positives : Positives)
    → in_positives q c (add_positive q' c' positives)
      ≡ ((eq_list q' q && eq_list c c') || in_positives q c positives)
add_positive_lem q c q' c' [] = elim (Bool-cases (eq_list q' q)) [
  | inl e ↦ in_positives_here q c q' (c' ∷ []) [] e ∙ rw e refl
  | inr e ↦ in_positives_later q c q' (c' ∷ []) [] e ∙ rw e refl
]
add_positive_lem q c q' c' ((k, set) ∷ positives) = elim (Bool-cases (eq_list k q')) [
  | inl same ↦
      let e = eq_of_eq_list k q' same in
      rw (add_positive_here q' c' k set positives same) (elim (Bool-cases (eq_list k q)) [
        | inl here ↦
            let h : eq_list q' q ≡ true = rw (← e) here in
            rw
              (
                in_positives_here q c k (add_to_set c' set) positives here,
                in_positives_here q c k set positives here,
                h,
              )
              (add_to_set_lem c c' set)
        | inr there ↦
            let h : eq_list q' q ≡ false = rw (← e) there in
            rw
              (
                in_positives_later q c k (add_to_set c' set) positives there,
                in_positives_later q c k set positives there,
                h,
              )
              refl
      ])
  | inr other ↦
      rw (add_positive_later q' c' k set positives other) (elim (Bool-cases (eq_list k q)) [
        | inl here ↦
            let e = eq_of_eq_list k q here in
            let h : eq_list q' q ≡ false = rw (← e) (eq_list-false k q' other) in
            rw
              (
                in_positives_here q c k set (add_positive q' c' positives) here,
                in_positives_here q c k set positives here,
                h,
              )
              refl
        | inr there ↦
            rw
              (
                in_positives_later q c k set (add_positive q' c' positives) there,
                in_positives_later q c k set positives there,
              )
              (add_positive_lem q c q' c' positives)
      ])
]

module _ (F : Floats) where
  open F use {Score, is_positive}

  -- Whether a judgment of this query and this document has a positive score.
  abbrev pub is_judged : Text → Text → List (Qrel Score) → Bool
  is_judged query_id corpus_id [] = false
  is_judged query_id corpus_id (q ∷ qrels) =
      (is_positive q.score && (eq_list q.query_id query_id && eq_list corpus_id q.corpus_id))
      || is_judged query_id corpus_id qrels

  is_judged-append :
      (query_id corpus_id : Text) (qrels : List (Qrel Score)) (q : Qrel Score)
      → is_judged query_id corpus_id (qrels ++ q ∷ []) ≡ (
          (is_positive q.score && (eq_list q.query_id query_id && eq_list corpus_id q.corpus_id))
          || is_judged query_id corpus_id qrels)
  is_judged-append query_id corpus_id [] q = refl
  is_judged-append query_id corpus_id (x ∷ qrels) q =
      ground (arith, is_judged-append query_id corpus_id qrels q)

  note_positive_lem :
      (query_id corpus_id : Text) (q : Qrel Score) (positives : Positives)
      → in_positives query_id corpus_id (note_positive F q positives) ≡ (
          (is_positive q.score && (eq_list q.query_id query_id && eq_list corpus_id q.corpus_id))
          || in_positives query_id corpus_id positives)
  note_positive_lem query_id corpus_id q positives = elim (Bool-cases (is_positive q.score)) [
    | inl e ↦ rw e (add_positive_lem query_id corpus_id q.query_id q.corpus_id positives)
    | inr e ↦ rw e refl
  ]

  -- No pair of a query and a document is judged twice.
  abbrev pub has_twice : List (Qrel Score) → Bool
  has_twice [] = false
  has_twice (q ∷ qrels) = has_pair F q.query_id q.corpus_id qrels || has_twice qrels

  Agrees : List (Qrel Score) → Positives → Type 0
  Agrees qrels positives =
      (query_id corpus_id : Text)
      → in_positives query_id corpus_id positives ≡ is_judged query_id corpus_id qrels

  parse_qrel_lines-Agrees :
      (lines : List Bytes) (qrels : List (Qrel Score)) (positives : Positives)
      (out : List (Qrel Score) × Positives)
      → Agrees qrels positives
      → parse_qrel_lines F lines qrels positives ≡ ok out
      → Agrees out.0 out.1
  unfolding parse_qrel_lines Agrees
  parse_qrel_lines-Agrees [] qrels positives out a h =
      subst (λ (o : List (Qrel Score) × Positives). Agrees o.0 o.1) (ok-injective _ _ h) a
  parse_qrel_lines-Agrees (raw ∷ lines) qrels positives out a h =
      let (q, e, h1) = >>=-eq-ok (parse_qrel F raw) _ h in
      let (fresh, h2) =
        raise_if-eq-ok (has_pair F q.query_id q.corpus_id qrels)
          (runtime_error "duplicate qrel pair") _ h1 in
      parse_qrel_lines-Agrees lines (qrels ++ q ∷ []) (note_positive F q positives) out
        (λ query_id corpus_id.
          note_positive_lem query_id corpus_id q positives
          ∙ ap
              (λ (b : Bool).
                (is_positive q.score
                  && (eq_list q.query_id query_id && eq_list corpus_id q.corpus_id))
                || b)
              (a query_id corpus_id)
          ∙ sym (is_judged-append query_id corpus_id qrels q))
        h2

  -- If parse_qrels returns, there are positive judgments, and a document is in the set of a query
  -- exactly when one of the judgments names both and has a positive score.
  pub parse_qrels_sound :
      (D : Digest) (file : Bytes) (qrels : List (Qrel Score)) (positives : Positives)
      (stats : SourceFileStats)
      → parse_qrels F D file ≡ ok (qrels, positives, stats)
      → (1 ≤ length positives)
        × ((query_id corpus_id : Text)
            → in_positives query_id corpus_id positives ≡ is_judged query_id corpus_id qrels)
  unfolding parse_qrels Agrees
  parse_qrels_sound D file qrels positives stats h =
      let header_raw = read_line (byte_lines file) in
      let (h1, r1) =
        raise_if-eq-ok (length header_raw == 0) (runtime_error "test qrels file is empty") _ h in
      let (header, e2, r2) = >>=-eq-ok (decode_fields header_raw) _ r1 in
      let (h3, r3) =
        raise_if-eq-ok (not (length header == 3))
          (runtime_error "test qrels header must contain exactly three columns") _ r2 in
      let (out, e4, r4) =
        >>=-eq-ok (parse_qrel_lines F (after_line (byte_lines file)) [] []) _ r3 in
      let (h5, r5) =
        raise_if-eq-ok (length out.1 == 0)
          (runtime_error "test qrels contain no positive judgments") _ r4 in
      let agrees =
        parse_qrel_lines-Agrees (after_line (byte_lines file)) [] [] out (λ q c. refl) e4 in
      let one : 1 ≤ length out.1 = ground arith in
      let IsSound : List (Qrel Score) × Positives × SourceFileStats → Type 0 =
        λ o. (1 ≤ length o.1) × Agrees o.0 o.1 in
      subst IsSound (ok-injective _ _ r5) (one, agrees)

module _ (D : Digest) (seed : Text) where
  length-insert_ranked :
      (a : Text) (pool : List Text) → length (insert_ranked D seed a pool) ≡ suc (length pool)
  length-insert_ranked a [] = refl
  length-insert_ranked a (b ∷ pool) = elim (Bool-cases (ranks_before D seed a b)) [
    | inl e ↦ rw e refl
    | inr e ↦ rw e (ap suc (length-insert_ranked a pool))
  ]

  pub length-sort_ranked : (pool : List Text) → length (sort_ranked D seed pool) ≡ length pool
  length-sort_ranked [] = refl
  length-sort_ranked (a ∷ pool) =
      length-insert_ranked a (sort_ranked D seed pool) ∙ ap suc (length-sort_ranked pool)
