-- ===== src/Prepare/Queries/Ranks.antt =====
-- The queries that `select_queries` takes: the first of those with positive judgments, by rank.
use leann_cpp.Prelude.{
  ok-injective, ℕ, ◌≤◌, ◌≡◌, ◌⊎◌, refl, subst, Bool, true, false, not, ◌||◌, Bool-cases, inl, inr,
  List, [], ◌∷◌, ◌++◌, length, length-take, drop, take-append-drop, arith, All, eq_list,
  eq_of_eq_list, eq_list_self, eq_list-false, ltb, if◌then◌else◌, ok, runtime_error, raise_if-eq-ok,
}
use mathlib.Core.List.{Perm}
use mathlib.Core.List.Perm
use leann_cpp.Bytes.{Bytes, Text}
use leann_cpp.Platform.{Digest}
use leann_cpp.Prepare.Queries.Laws.{length-sort_ranked}
use leann_cpp.Prepare.Queries.{
  has_key, keys, QueryTexts, Positives, lex_le, rank_hash, ranks_before, insert_ranked, sort_ranked,
  some_missing, select_queries,
}

lex_le-total : (s t : List ℕ) → lex_le s t ≡ false → lex_le t s ≡ true
lex_le-total [] t h = cc
lex_le-total (c ∷ s) [] h = refl
lex_le-total (c ∷ s) (d ∷ t) h = ground (arith, lex_le-total s t)

none_missing : (known more : Bool) → (not known || more) ≡ false → (known ≡ true) × (more ≡ false)
none_missing true more h = (refl, h)
none_missing false more h = cc

module _ (D : Digest) (seed : Text) where
  ranks_before-total :
      (a b : Text) → ranks_before D seed a b ≡ false → ranks_before D seed b a ≡ true
  ranks_before-total a b h = total (rank_hash D seed a) (rank_hash D seed b) (Bool-cases _) h
    where
      total :
          (x y : Bytes)
          → (eq_list x y ≡ true) ⊎ (eq_list x y ≡ false)
          → (if eq_list x y then lex_le a b else lex_le x y) ≡ false
          → (if eq_list y x then lex_le b a else lex_le y x) ≡ true
      total x y (inl e) h =
          let same = eq_of_eq_list x y e in
          let back : eq_list y x ≡ true = rw same (eq_list_self y) in
          let k = rw e at h in rw back (lex_le-total a b k)
      total x y (inr e) h = let k = rw e at h in rw (eq_list-false x y e) (lex_le-total x y k)

  -- Each comes before the next.
  abbrev pub IsRanked : List Text → Type 0
  IsRanked [] = Unit
  IsRanked (a ∷ []) = Unit
  IsRanked (a ∷ b ∷ pool) = (ranks_before D seed a b ≡ true) × IsRanked (b ∷ pool)

  insert_ranked-perm : (a : Text) (pool : List Text) → Perm (insert_ranked D seed a pool) (a ∷ pool)
  insert_ranked-perm a [] = Perm.rfl
  insert_ranked-perm a (b ∷ pool) = elim (Bool-cases (ranks_before D seed a b)) [
    | inl h ↦ rw h Perm.rfl
    | inr h ↦ rw h (Perm.trans (Perm.cons b (insert_ranked-perm a pool)) (Perm.swap a b pool))
  ]

  sort_ranked-perm : (pool : List Text) → Perm (sort_ranked D seed pool) pool
  sort_ranked-perm [] = Perm.rfl
  sort_ranked-perm (a ∷ pool) =
      Perm.trans (insert_ranked-perm a (sort_ranked D seed pool))
        (Perm.cons a (sort_ranked-perm pool))

  insert_ranked-IsRanked :
      (a : Text) (pool : List Text) → IsRanked pool → IsRanked (insert_ranked D seed a pool)
  insert_ranked-IsRanked a [] h = tt
  insert_ranked-IsRanked a (b ∷ pool) h = elim (Bool-cases (ranks_before D seed a b)) [
    | inl e ↦ rw e (e, h)
    | inr e ↦ rw e (behind b a pool (ranks_before-total a b e) h)
  ]
    where
      behind :
          (b a : Text) (pool : List Text)
          → ranks_before D seed b a ≡ true
          → IsRanked (b ∷ pool)
          → IsRanked (b ∷ insert_ranked D seed a pool)
      behind b a [] e h = (e, tt)
      behind b a (c ∷ pool) e (k, h) = elim (Bool-cases (ranks_before D seed a c)) [
        | inl f ↦ rw f (e, (f, h))
        | inr f ↦ rw f (k, behind c a pool (ranks_before-total a c f) h)
      ]

  sort_ranked-IsRanked : (pool : List Text) → IsRanked (sort_ranked D seed pool)
  sort_ranked-IsRanked [] = tt
  sort_ranked-IsRanked (a ∷ pool) =
      insert_ranked-IsRanked a (sort_ranked D seed pool) (sort_ranked-IsRanked pool)

  keys-known :
      (ks : List Text) (queries : QueryTexts)
      → some_missing D seed ks queries ≡ false
      → All (λ k. has_key k queries ≡ true) ks
  keys-known [] queries h = tt
  keys-known (k ∷ ks) queries h =
      let (a, b) = none_missing (has_key k queries) (some_missing D seed ks queries) h in
      (a, keys-known ks queries b)

  -- If select_queries returns, the queries with positive judgments are all in the file of queries; the
  -- selected ones are as many as asked for, and with some others in order of their rank they are all
  -- the queries with positive judgments, each before the next by the hash, and by the ID where hashes
  -- are equal.
  pub select_queries_lem :
      (queries : QueryTexts) (positives : Positives) (count : ℕ) (ids : List Text)
      → select_queries D seed queries positives count ≡ ok ids
      → (rest : List Text) × (length ids ≡ count)
        × Perm (ids ++ rest) (keys positives)
        × IsRanked (ids ++ rest)
        × All (λ k. has_key k queries ≡ true) (keys positives)
  unfolding select_queries
  select_queries_lem queries positives count ids h =
      let pool = sort_ranked D seed (keys positives) in
      let (h1, r1) =
        raise_if-eq-ok (some_missing D seed (keys positives) queries)
          (runtime_error "positive-qrel query IDs are absent from queries.jsonl") _ h in
      let (h2, r2) =
        raise_if-eq-ok (ltb (length (keys positives)) count)
          (runtime_error "too few test queries have positive qrels") _ r1 in
      let same = ok-injective _ _ r2 in
      let cut = take-append-drop count pool in
      let enough : count ≤ length (keys positives) = ground arith in
      subst
        (λ (l : List Text).
          (rest : List Text) × (length l ≡ count)
          × Perm (l ++ rest) (keys positives)
          × IsRanked (l ++ rest)
          × All (λ k. has_key k queries ≡ true) (keys positives))
        same
        (
          drop count pool,
          omega (arith, length-take count pool, length-sort_ranked D seed (keys positives), enough),
          rw cut (sort_ranked-perm (keys positives)),
          rw cut (sort_ranked-IsRanked (keys positives)),
          keys-known (keys positives) queries h1,
        )
