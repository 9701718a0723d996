-- ===== src/Examples/Counters.antt =====
-- Counters of the proxy and of the cached server.
use leann_cpp.Prelude.{ℕ, ◌≡◌, List, [], ◌∷◌, All}
use leann_cpp.Metrics.{new_metrics, Call, adds, finishes, starts, fails, resets, get, serve}
use leann_cpp.Metrics.Laws.{total, tally, has_status, serve-total, IsConsistent, serve-IsConsistent}
use leann_cpp.Metrics.Cached.{
  CachedCall, asks, answers, clears, serve_cached, as_proxy, new_cached, snapshot,
  serve_cached-serve,
}

-- Two requests whose threads meet, a reset between, and a failure.
abbrev calls : List Call
calls =
    adds 3 ∷ starts ∷ adds 2 ∷ finishes 200 ∷ resets ∷ starts ∷ finishes 503 ∷ starts ∷ fails ∷ []

serve-total_example :
    (total (λ m. m.requests) (serve calls new_metrics) ≡ 2)
    × (total (λ m. m.inputs) (serve calls new_metrics) ≡ 5)
    × (total (λ m. m.upstream_requests) (serve calls new_metrics) ≡ 3)
    × (total (λ m. m.upstream_responses) (serve calls new_metrics) ≡ 2)
    × (total (λ m. m.http_errors) (serve calls new_metrics) ≡ 1)
    × (total (λ m. m.network_errors) (serve calls new_metrics) ≡ 1)
    × ((status : ℕ)
        → total (λ m. get status m.status_counts) (serve calls new_metrics)
          ≡ tally (has_status status) calls)
serve-total_example = serve-total calls

serve-IsConsistent_example :
    IsConsistent (serve calls new_metrics).0 × All IsConsistent (serve calls new_metrics).1
serve-IsConsistent_example = serve-IsConsistent calls

abbrev cached_calls : List CachedCall
cached_calls = asks 4 ∷ answers 200 ∷ answers 404 ∷ clears ∷ asks 1 ∷ []

serve_cached-serve_example :
    serve (as_proxy cached_calls) new_metrics
    ≡ (snapshot (serve_cached cached_calls new_cached).0, (serve_cached cached_calls new_cached).1)
serve_cached-serve_example = serve_cached-serve cached_calls
