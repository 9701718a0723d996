-- ===== src/Cache/Read/Source.antt =====
-- What `validate_cache_source` lets through.
use leann_cpp.Prelude.{
  ◌≡◌, ◌∙◌, ap, Bool, not, none, arith, ◌==◌, ok, value_error, >>=-eq-ok, raise_if-eq-ok,
}
use leann_cpp.Bytes.{Text}
use leann_cpp.Platform.{Digest, Disk}
use leann_cpp.Cache.Read.{Metadata, Identity, source_identity, check_binding, validate_cache_source}

-- The identity is that of the source, and the cache has a row for each of its non-empty lines.
pub validate_cache_source-eq-ok :
    (D : Digest) (disk : Disk) (metadata : Metadata) (path : Text) (require_integrity : Bool)
    (identity : Identity)
    → validate_cache_source D disk metadata path none require_integrity ≡ ok identity
    → (source_identity D disk path ≡ ok identity) × (metadata.count ≡ identity.nonempty_lines)
unfolding validate_cache_source
validate_cache_source-eq-ok D disk metadata path require_integrity identity h =
    let (i, e, h1) = >>=-eq-ok (source_identity D disk path) _ h in
    let (counted, h2) =
      raise_if-eq-ok (not (metadata.count == i.nonempty_lines))
        (value_error "cache/source count mismatch") _ h1 in
    let (u, bound, h3) = >>=-eq-ok (check_binding require_integrity metadata.binding i) _ h2 in
    let same : i ≡ identity = cc h3 in
    let count : metadata.count ≡ i.nonempty_lines = ground arith in
    (e ∙ ap (λ (j : Identity). ok j) same, count ∙ ap (λ (j : Identity). j.nonempty_lines) same)
