-- ===== src/Metrics/Cached.antt =====
-- `Metrics` of scripts/cached_embedding_server.py, which stands in for the proxy of
-- scripts/openai_embedding_proxy.py and reports itself as the upstream.
use leann_cpp.Prelude.{ℕ, ◌+◌, ◌≡◌, refl, sym, ap, ◌∙◌, arith, List, [], ◌∷◌}
use leann_cpp.Metrics.{
  Counts, bump, sum_values, one_if, is_error, Metrics, new_metrics, upstream_finished, Call, adds,
  finishes, starts, resets, serve,
}
use leann_cpp.Metrics.Laws.{sum_values-bump}

pub record CachedMetrics : Type 0 where
  pub requests : ℕ
  pub inputs : ℕ
  pub http_errors : ℕ
  pub status_counts : Counts

abbrev pub new_cached : CachedMetrics
new_cached = record { requests = 0; inputs = 0; http_errors = 0; status_counts = [] }

abbrev pub request : ℕ → CachedMetrics → CachedMetrics
request inputs m = record m { requests = m.requests + 1; inputs = m.inputs + inputs }

abbrev pub response : ℕ → CachedMetrics → CachedMetrics
response status m = record m {
  status_counts = bump status m.status_counts;
  http_errors = m.http_errors + one_if (is_error status);
}

-- `_snapshot`, which has the keys of the proxy's.
abbrev pub snapshot : CachedMetrics → Metrics
snapshot m = record {
  requests = m.requests;
  inputs = m.inputs;
  upstream_requests = m.requests;
  upstream_responses = sum_values m.status_counts;
  http_errors = m.http_errors;
  network_errors = 0;
  status_counts = m.status_counts;
}

pub data CachedCall : Type 0 where
  asks answers : ℕ → CachedCall
  clears : CachedCall

-- The counters after all the calls, and the snapshots that the resets returned.
abbrev pub serve_cached : List CachedCall → CachedMetrics → CachedMetrics × List Metrics
serve_cached [] m = (m, [])
serve_cached (asks inputs ∷ cs) m = serve_cached cs (request inputs m)
serve_cached (answers status ∷ cs) m = serve_cached cs (response status m)
serve_cached (clears ∷ cs) m =
    let rest = serve_cached cs new_cached in (rest.0, snapshot m ∷ rest.1)

-- What a proxy is called for in its place.
abbrev pub as_proxy : List CachedCall → List Call
as_proxy [] = []
as_proxy (asks inputs ∷ cs) = adds inputs ∷ starts ∷ as_proxy cs
as_proxy (answers status ∷ cs) = finishes status ∷ as_proxy cs
as_proxy (clears ∷ cs) = resets ∷ as_proxy cs

snapshot-response :
    (status : ℕ) (m : CachedMetrics)
    → snapshot (response status m) ≡ upstream_finished status (snapshot m)
snapshot-response status m =
    let e : sum_values (bump status m.status_counts) ≡ sum_values m.status_counts + 1 =
      omega (arith, sum_values-bump status m.status_counts) in
    rw e refl

serve_cached_from :
    (cs : List CachedCall) (m : CachedMetrics)
    → serve (as_proxy cs) (snapshot m) ≡ (snapshot (serve_cached cs m).0, (serve_cached cs m).1)
serve_cached_from [] m = refl
serve_cached_from (asks inputs ∷ cs) m = serve_cached_from cs (request inputs m)
serve_cached_from (answers status ∷ cs) m =
    ap (serve (as_proxy cs)) (sym (snapshot-response status m))
    ∙ serve_cached_from cs (response status m)
serve_cached_from (clears ∷ cs) m =
    ap (λ (r : Metrics × List Metrics). (r.0, snapshot m ∷ r.1)) (serve_cached_from cs new_cached)

-- The cached server reports, at each reset and at the end, what a proxy would that counted a request
-- to the upstream for each request and a response of the upstream for each response.
pub serve_cached-serve :
    (cs : List CachedCall)
    → let after = serve_cached cs new_cached in
      serve (as_proxy cs) new_metrics ≡ (snapshot after.0, after.1)
serve_cached-serve cs = serve_cached_from cs new_cached
