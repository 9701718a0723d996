-- ===== src/Embedding/Reach.antt =====
-- Calls of `generate_cache` one after the other, any of which may be stopped after any write, and
-- `_validate_existing_cache`.
use leann_cpp.Prelude.{
  of_not, ◌≡◌, ◌∙◌, refl, ap, sym, true, not, ◌==◌, last_or, Option, none, some, [], eq_list,
  eq_of_eq_list, ok, value_error, >>=-eq-ok, raise_if-eq-ok, ok-injective,
}
use leann_cpp.Bytes.{Bytes, Text}
use leann_cpp.Lines.{file_lines}
use leann_cpp.Writes.{Run, Reach, Reach-All}
use leann_cpp.Cache.Read.{Metadata, source_identity, sha256_hex}
use leann_cpp.Generate.{is_text}
use leann_cpp.Generate.Inputs.{read_file}
use leann_cpp.Embedding.{cache_meta_schema, Arguments, Checkpoint, Declared, Files, Setting}
use leann_cpp.Embedding.Existing.{
  is_ready_to_publish, model_sha256, are_bindings, accept_cache, check_existing, check_sidecar,
  recovered, declare_existing, validate_existing_cache,
}
use leann_cpp.Embedding.Plan.{Call, Plan, hash_of_prefix, read_inputs}
use leann_cpp.Embedding.Generate.{generate_planned, generate_cache}
use leann_cpp.Embedding.Safety.{
  no_files, IsCacheOf, accept_cache-IsCacheOf, AreSound, IsSound, IsDeclared, Keeps, stopped-Keeps,
  and_then-Keeps, declared_run-Keeps, bare_of, resume_or_begin-Keeps,
}

is_text-eq : (o : Option Text) (t : Text) → is_text o t ≡ true → o ≡ some t
is_text-eq none t h = cc
is_text-eq (some s) t h = ap some (eq_of_eq_list s t h)

module _ (S : Setting) (source_path : Text) where
  open S use {Value, digest, floats, disk}

  -- A call that finds the cache writes nothing but the sidecar that it recovers.
  module _ (found : Files Value) (file : Bytes) (stands : found.cache ≡ some file)
      (a : Arguments Value) (for_source : a.source_path ≡ source_path) (input_hash now : Text) where
    recovered-cache_sha256 :
        (metadata : Metadata) (c : Checkpoint) (declared : Declared Value)
        → recovered S a input_hash now file metadata c ≡ ok declared
        → declared.cache_sha256 ≡ some (sha256_hex digest file)
    unfolding recovered
    recovered-cache_sha256 metadata c declared h =
        let (t1, h1) =
          raise_if-eq-ok (not (is_ready_to_publish c.status))
            (value_error "incomplete cache provenance checkpoint") _ h in
        let (t2, h2) =
          raise_if-eq-ok (not (eq_list c.input_hash input_hash))
            (value_error "publication checkpoint input mismatch") _ h1 in
        let (t3, h3) =
          raise_if-eq-ok (not (is_text c.cache_sha256 (sha256_hex digest file)))
            (value_error "publication checkpoint checksum mismatch") _ h2 in
        let (source, e, h4) = >>=-eq-ok (source_identity digest disk a.source_path) _ h3 in
        ap (λ (d : Declared Value). d.cache_sha256) (sym (ok-injective _ declared h4))

    check_sidecar-cache_sha256 :
        (metadata : Metadata) (declared : Declared Value)
        → check_sidecar S a file metadata declared ≡ ok tt
        → declared.cache_sha256 ≡ some (sha256_hex digest file)
    unfolding check_sidecar
    check_sidecar-cache_sha256 metadata declared h =
        let (t1, h1) =
          raise_if-eq-ok (not (is_text declared.schema cache_meta_schema))
            (value_error "unknown cache sidecar schema") _ h in
        let (t2, h2) =
          raise_if-eq-ok (not (is_text declared.role a.role)) (value_error "cache role mismatch") _
            h1 in
        let (t3, h3) =
          raise_if-eq-ok (not (is_text (model_sha256 declared.model) a.model.sha256))
            (value_error "model identity sidecar mismatch") _ h2 in
        let (t4, h4) =
          raise_if-eq-ok (not (are_bindings S declared.bindings a.bindings))
            (value_error "cache bindings mismatch") _ h3 in
        let (t5, h5) =
          raise_if-eq-ok (not (is_text declared.cache_sha256 (sha256_hex digest file)))
            (value_error "cache sidecar SHA-256 mismatch") _ h4 in
        is_text-eq _ _ (of_not _ t5)

    reused-Keeps :
        (declared : Declared Value)
        → found.sidecar ≡ some declared
        → declared.cache_sha256 ≡ some (sha256_hex digest file)
        → IsCacheOf S source_path file
        → Keeps S source_path (some found) (record { states = []; result = ok declared })
    unfolding Keeps
    reused-Keeps declared e sha good = (
      tt,
      λ d same.
          let s : declared ≡ d = ok-injective _ _ same in
          (
            found,
            refl,
            (
              file,
              stands,
              e ∙ ap some s,
              good,
              ap (λ (k : Declared Value). k.cache_sha256) (sym s) ∙ sha,
            ),
          ),
    )

    declare_existing-Keeps :
        (metadata : Metadata) (sidecar : Option (Declared Value)) (checkpoint : Option Checkpoint)
        → found.sidecar ≡ sidecar
        → IsCacheOf S source_path file
        → Keeps S source_path
            (some found)
            (declare_existing S a input_hash now found file metadata sidecar checkpoint)
    unfolding declare_existing
    declare_existing-Keeps metadata (some declared) checkpoint e good =
        and_then-Keeps S source_path _ _ _
          (λ u h. reused-Keeps declared e (check_sidecar-cache_sha256 metadata declared h) good)
    declare_existing-Keeps metadata none none e good = stopped-Keeps S source_path _ _
    declare_existing-Keeps metadata none (some c) e good =
        and_then-Keeps S source_path _ _ _ (λ declared h.
          declared_run-Keeps S source_path (some found) found file declared stands
            (recovered-cache_sha256 metadata c declared h) good)

    check_existing-IsCacheOf :
        (metadata : Metadata) → check_existing S a file ≡ ok metadata → IsCacheOf S source_path file
    unfolding check_existing
    check_existing-IsCacheOf metadata h =
        let (m, accepted, h1) = >>=-eq-ok (accept_cache S a.source_path file) _ h in
        accept_cache-IsCacheOf S source_path file m
          (ap (λ (path : Text). accept_cache S path file) (sym for_source) ∙ accepted)

    validate_existing_cache-Keeps :
        Keeps S source_path (some found) (validate_existing_cache S a input_hash now found file)
    unfolding validate_existing_cache
    validate_existing_cache-Keeps = and_then-Keeps S source_path _ _ _ (λ metadata h.
        declare_existing-Keeps metadata found.sidecar found.checkpoint refl
          (check_existing-IsCacheOf metadata h))

  read_inputs-arguments :
      (a : Arguments Value) (now : Text) (p : Plan S) → read_inputs S a now ≡ ok p → p.arguments ≡ a
  unfolding read_inputs
  read_inputs-arguments a now p h =
      let (source, e1, h1) = >>=-eq-ok (source_identity digest disk a.source_path) _ h in
      let (t2, h2) =
        raise_if-eq-ok (source.nonempty_lines == 0) (value_error "no non-empty input lines") _ h1 in
      let (sha, e3, h3) = >>=-eq-ok (hash_of_prefix S a.prefix_cache) _ h2 in
      let (file, e4, h4) = >>=-eq-ok (read_file disk a.source_path) _ h3 in
      let (lines, e5, h5) = >>=-eq-ok (file_lines file) _ h4 in
      ap (λ (q : Plan S). q.arguments) (sym (ok-injective _ p h5))

  -- The arguments of calls for the cache of this source.
  pub record Request : Type 0 where
    pub arguments : Arguments Value
    pub call : Call S
    pub for_source : arguments.source_path ≡ source_path

  unfoldable pub run : Request → Files Value → Run (Files Value) (Declared Value)
  run r found = generate_cache S r.arguments r.call found

  generate_planned-Keeps :
      (found : Files Value) (c : Call S) (p : Plan S) (cache : Option Bytes)
      → p.arguments.source_path ≡ source_path
      → found.cache ≡ cache
      → IsSound S source_path found
      → Keeps S source_path (some found) (generate_planned S found c p cache)
  unfolding generate_planned
  generate_planned-Keeps found c p (some file) for_source e sound =
      validate_existing_cache-Keeps found file e p.arguments for_source p.input_hash p.now
  generate_planned-Keeps found c p none for_source e sound =
      resume_or_begin-Keeps S source_path found (bare_of S source_path found e sound) p for_source c
        (some found) found.partial found.checkpoint

  run-Keeps :
      (r : Request) (found : Files Value)
      → IsSound S source_path found
      → Keeps S source_path (some found) (run r found)
  unfolding run generate_cache
  run-Keeps r found sound = and_then-Keeps S source_path _ _ _ (λ p h.
      generate_planned-Keeps found r.call p found.cache
        (ap (λ (a : Arguments Value). a.source_path)
            (read_inputs-arguments r.arguments r.call.now p h)
          ∙ r.for_source)
        refl sound)

  Reach-IsSound : {f : Files Value} → Reach run no_files f → IsSound S source_path f
  unfolding Keeps
  Reach-IsSound = Reach-All run (IsSound S source_path) (λ r f sound. (run-Keeps r f sound).0) refl

  -- Whatever calls for the source were made from nothing on, with whatever arguments and answers of
  -- the endpoint, and wherever they were stopped: a cache that stands is read by `read_cache` and
  -- accepted by `validate_cache_source` with integrity required, and so has a row for each non-empty
  -- line; if a sidecar stands as well, it has the SHA-256 of the cache.
  pub Reach-cache :
      {f : Files Value} (file : Bytes)
      → Reach run no_files f
      → f.cache ≡ some file
      → IsCacheOf S source_path file
        × ((declared : Declared Value)
            → f.sidecar ≡ some declared
            → declared.cache_sha256 ≡ some (sha256_hex digest file))
  Reach-cache {f} file r stands = of_sound f.sidecar (rw stands at (Reach-IsSound r))
    where
      of_sound :
          (sidecar : Option (Declared Value))
          → AreSound S source_path (some file) sidecar
          → IsCacheOf S source_path file
            × ((declared : Declared Value)
                → sidecar ≡ some declared
                → declared.cache_sha256 ≡ some (sha256_hex digest file))
      of_sound none good = (good, λ declared e. cc)
      of_sound (some d) (good, sha) =
          (good, λ declared e. let same : d ≡ declared = cc e in rw (← same) sha)

  -- A call that returns, from whatever stopped calls left, returns the sidecar that stands when it has
  -- ended, beside a cache of the source whose SHA-256 it has.
  pub run-IsDeclared :
      {f : Files Value} (r : Request) (declared : Declared Value)
      → Reach run no_files f
      → (run r f).result ≡ ok declared
      → (g : Files Value) × (last_or (some f) (run r f).states ≡ some g)
        × IsDeclared S source_path g declared
  unfolding Keeps
  run-IsDeclared {f} r declared reached returned =
      (run-Keeps r f (Reach-IsSound reached)).1 declared returned
