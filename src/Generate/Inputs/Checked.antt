-- ===== src/Generate/Inputs/Checked.antt =====
-- What the checks let through, and the whole function from such inputs.
use leann_cpp.Prelude.{
  ok-injective, ℕ, ◌^◌, ◌≤◌, ◌<◌, ◌≡◌, ◌≢◌, refl, ◌∙◌, ap, subst, Bool, true, false, not, ◌||◌,
  Option, none, some, List, [], ◌∷◌, arith, length, eq_list, ltb, ◌==◌, last_or, ok, Error,
  value_error, raise_if, >>=-eq-ok, raise_if-eq-ok,
}
use leann_cpp.Bytes.{Text}
use leann_cpp.Platform.{Digest, Float32, Disk}
use leann_cpp.Cache.Matrix.{Matrix}
use leann_cpp.Cache.Read.{Identity, source_identity, read_cache, validate_cache_source}
use leann_cpp.Cache.Read.Laws.{read_cache_sound}
use leann_cpp.Cache.Read.Source.{validate_cache_source-eq-ok}
use leann_cpp.TopK.{NumPy}
use leann_cpp.GroundTruth.Words.{Digits}
use leann_cpp.Writes.{and_then}
use leann_cpp.Generate.{Files, Declared, is_blank}
use leann_cpp.Generate.Written.{IsJob, answers}
use leann_cpp.Generate.Reach.{no_files, Reach, is_torn, generate-finishes}
use leann_cpp.GroundTruth.Print.{truth_bytes}
use leann_cpp.Generate.Inputs.{
  Sidecar, Stable, Arguments, Inputs, Caches, load_caches, check_pair, check_sidecars, read_file,
  check_inputs, job_of, generate_ground_truth,
}

positive_length {ℓ} : {A : Type ℓ} (xs : List A) → xs ≢ [] → 0 < length xs
positive_length [] h = absurd (h refl)
positive_length (x ∷ xs) h = omega arith

raise_if_ok : (t : Bool) (e : Error) → raise_if t e ≡ ok tt → t ≡ false
raise_if_ok true e h = cc
raise_if_ok false e h = refl

module _ (D : Digest) (F : Float32) (disk : Disk) (sidecars : Text → Option Sidecar)
    (canonical_hash : Stable → Text) (scores : Matrix F.Scalar → Matrix F.Scalar → ℕ → ℕ → ℕ) where
  open F use {Scalar}

  -- There is an answer to give to each query: the sizes fit, and there are as many queries and rows
  -- of the corpus as their files have non-empty lines.
  pub record AreChecked (a : Arguments) (s : Stable) : Type 0 where
    pub documents : Identity
    pub queries : Identity
    pub documents_read : source_identity D disk a.documents ≡ ok documents
    pub queries_read : source_identity D disk a.queries ≡ ok queries
    pub corpus_lines : s.corpus_count ≡ documents.nonempty_lines
    pub query_lines : s.query_count ≡ queries.nonempty_lines
    pub some_queries : 0 < s.query_count
    pub some_results : 0 < s.top_k
    pub enough : s.top_k ≤ s.corpus_count
    pub query_block : s.query_block_rows ≡ a.query_block_rows
    pub corpus_block : s.corpus_block_rows ≡ a.corpus_block_rows

  -- What is known of the caches that were read.
  AreRead : Arguments → Caches Scalar → Type 0
  AreRead a c =
      (source_identity D disk a.documents ≡ ok c.corpus_source)
      × (source_identity D disk a.queries ≡ ok c.query_source)
      × (length c.corpus.rows ≡ c.corpus_source.nonempty_lines)
      × (length c.queries.rows ≡ c.query_source.nonempty_lines)
      × (0 < length c.queries.rows)

  load_caches-eq-ok :
      (a : Arguments) (c : Caches Scalar)
      → load_caches D F disk sidecars canonical_hash scores a ≡ ok c
      → AreRead a c
  unfolding load_caches AreRead
  load_caches-eq-ok a c h =
      let (cf, e1, h1) = >>=-eq-ok (read_file disk a.corpus_cache) _ h in
      let (corpus, e2, h2) = >>=-eq-ok (read_cache F D cf) _ h1 in
      let (qf, e3, h3) = >>=-eq-ok (read_file disk a.query_cache) _ h2 in
      let (queries, e4, h4) = >>=-eq-ok (read_cache F D qf) _ h3 in
      let (cs, e5, h5) =
        >>=-eq-ok (validate_cache_source D disk corpus.1 a.documents none true) _ h4 in
      let (qs, e6, h6) =
        >>=-eq-ok (validate_cache_source D disk queries.1 a.queries none true) _ h5 in
      let (cid, ccount) = validate_cache_source-eq-ok D disk corpus.1 a.documents true cs e5 in
      let (qid, qcount) = validate_cache_source-eq-ok D disk queries.1 a.queries true qs e6 in
      let csound = read_cache_sound cf [] F D corpus.0 corpus.1 e2 in
      let qsound = read_cache_sound qf [] F D queries.0 queries.1 e4 in
      subst (AreRead a) (ok-injective _ _ h6)
        (cid, qid, csound.3 ∙ ccount, qsound.3 ∙ qcount, positive_length queries.0.rows qsound.1)

  check_pair-eq-ok :
      (a : Arguments) (c : Caches Scalar)
      → check_pair D F disk sidecars canonical_hash scores a c ≡ ok tt
      → (0 < a.top_k) × (a.top_k ≤ length c.corpus.rows)
  unfolding check_pair
  check_pair-eq-ok a c h =
      let (t1, h1) =
        raise_if-eq-ok (not (c.corpus.width == c.queries.width))
          (value_error "corpus/query vector dimensions differ") _ h in
      let (t2, h2) =
        raise_if-eq-ok (not (eq_list c.corpus_meta.fingerprint c.query_meta.fingerprint))
          (value_error "corpus/query native fingerprints differ") _ h1 in
      let t3 =
        raise_if_ok (a.top_k == 0 || ltb (length c.corpus.rows) a.top_k)
          (value_error "top-k must be in [1, corpus count]") h2 in
      (ground arith, ground arith)

  pub check_inputs-eq-ok :
      (a : Arguments) (i : Inputs Scalar)
      → check_inputs D F disk sidecars canonical_hash scores a ≡ ok i
      → AreChecked a i.stable
  unfolding check_inputs AreRead
  check_inputs-eq-ok a i h =
      let (c, e1, h1) = >>=-eq-ok (load_caches D F disk sidecars canonical_hash scores a) _ h in
      let (u, e2, h2) = >>=-eq-ok (check_pair D F disk sidecars canonical_hash scores a c) _ h1 in
      let (model, e3, h3) =
        >>=-eq-ok (check_sidecars D F disk sidecars canonical_hash scores a c) _ h2 in
      let (cid, qid, ccount, qcount, some_queries) = load_caches-eq-ok a c e1 in
      let (some_results, enough) = check_pair-eq-ok a c e2 in
      subst (λ (j : Inputs Scalar). AreChecked a j.stable) (ok-injective _ _ h3)
        (record {
          documents = c.corpus_source;
          queries = c.query_source;
          documents_read = cid;
          queries_read = qid;
          corpus_lines = ccount;
          query_lines = qcount;
          some_queries = some_queries;
          some_results = some_results;
          enough = enough;
          query_block = refl;
          corpus_block = refl;
        })

  checked-IsJob :
      (a : Arguments) (i : Inputs Scalar)
      → AreChecked a i.stable
      → i.stable.corpus_count ≤ 2 ^ 32
      → 0 < a.query_block_rows
      → 0 < a.corpus_block_rows
      → IsJob (job_of D F disk sidecars canonical_hash scores i)
  checked-IsJob a i c small q b = record {
    sizes = (c.some_queries, c.some_results, c.enough);
    small = small;
    query_block = omega (arith, c.query_block);
    corpus_block = omega (arith, c.corpus_block);
  }

  -- With inputs that pass the checks, a corpus whose IDs fit uint32 and positive block sizes, a call
  -- that runs to its end from whatever stopped calls left, as long as a partial file has its
  -- checkpoint, returns, and then the output has a row for each non-empty line of the queries: the
  -- IDs of its best rows of the corpus.
  pub generate_ground_truth_lem :
      (U : Digits) (N : NumPy) (a : Arguments) (now : Text) (i : Inputs Scalar) {f : Files}
      → check_inputs D F disk sidecars canonical_hash scores a ≡ ok i
      → i.stable.corpus_count ≤ 2 ^ 32
      → 0 < a.query_block_rows
      → 0 < a.corpus_block_rows
      → let job = job_of D F disk sidecars canonical_hash scores i in
        Reach D U N job no_files f
        → is_torn f ≡ false
        → is_blank now ≡ false
        → let run = generate_ground_truth D F disk sidecars canonical_hash scores U N a now f in
          (d : Declared) × (g : Files) × (queries : Identity) × (run.result ≡ ok d)
          × (last_or (some f) run.states ≡ some g)
          × (source_identity D disk a.queries ≡ ok queries)
          × (g.output ≡ some (truth_bytes job.dimensions (answers job 0 queries.nonempty_lines)))
          × (g.sidecar ≡ some d)
          × (g.partial ≡ none)
  unfolding generate_ground_truth and_then
  generate_ground_truth_lem U N a now i h small q b r t k =
      let c = check_inputs-eq-ok a i h in
      let fit = checked-IsJob a i c small q b in
      let job = job_of D F disk sidecars canonical_hash scores i in
      let (d, g, e, l, o, s, p, m) = generate-finishes D U N job fit now r t k in
      rw h (
        d,
        g,
        c.queries,
        e,
        l,
        c.queries_read,
        o ∙ ap (λ (n : ℕ). some (truth_bytes job.dimensions (answers job 0 n))) c.query_lines,
        s,
        p,
      )
