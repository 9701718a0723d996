-- ===== src/Metrics.antt =====
-- The counters of scripts/openai_embedding_proxy.py (`Metrics`) and of
-- scripts/cached_embedding_server.py (`Cached.Metrics`). Every method holds the lock from its first
-- to its last statement, so what the threads of the server do to the counters is a sequence of
-- calls, in whatever order the threads come to them. The texts that a snapshot also has and the
-- order of its keys are left out.
pub mod Cached
pub mod Laws
use leann_cpp.Prelude.{
  ℕ, suc, ◌+◌, Bool, List, [], ◌∷◌, leb, ◌==◌, if◌then◌else◌, Option, none, some,
}

-- `status_counts`, with the status as a number in place of its decimal text.
abbrev pub Counts : Type 0
Counts = List (ℕ × ℕ)

-- `counts.get(status, 0)`
abbrev pub get : ℕ → Counts → ℕ
get status [] = 0
get status ((key, value) ∷ counts) =
    let rest = get status counts in if key == status then value else rest

-- `counts[status] = counts.get(status, 0) + 1`
abbrev pub bump : ℕ → Counts → Counts
bump status [] = (status, 1) ∷ []
bump status ((key, value) ∷ counts) =
    let rest = bump status counts in
    if key == status then (key, suc value) ∷ counts else (key, value) ∷ rest

abbrev pub sum_values : Counts → ℕ
sum_values [] = 0
sum_values ((key, value) ∷ counts) = value + sum_values counts

abbrev pub one_if : Bool → ℕ
one_if b = if b then 1 else 0

abbrev pub is_error : ℕ → Bool
is_error status = leb 400 status

pub record Metrics : Type 0 where
  pub requests : ℕ
  pub inputs : ℕ
  pub upstream_requests : ℕ
  pub upstream_responses : ℕ
  pub http_errors : ℕ
  pub network_errors : ℕ
  pub status_counts : Counts

abbrev pub new_metrics : Metrics
new_metrics = record {
  requests = 0;
  inputs = 0;
  upstream_requests = 0;
  upstream_responses = 0;
  http_errors = 0;
  network_errors = 0;
  status_counts = [];
}

abbrev pub add : ℕ → Metrics → Metrics
add inputs m = record m { requests = m.requests + 1; inputs = m.inputs + inputs }

abbrev pub upstream_started : Metrics → Metrics
upstream_started m = record m { upstream_requests = m.upstream_requests + 1 }

abbrev pub upstream_finished : ℕ → Metrics → Metrics
upstream_finished status m = record m {
  upstream_responses = m.upstream_responses + 1;
  status_counts = bump status m.status_counts;
  http_errors = m.http_errors + one_if (is_error status);
}

abbrev pub network_failed : Metrics → Metrics
network_failed m = record m { network_errors = m.network_errors + 1 }

-- The snapshot and the new state.
abbrev pub reset : Metrics → Metrics × Metrics
reset m = (m, new_metrics)

-- One call of a method. A snapshot by itself changes nothing.
pub data Call : Type 0 where
  adds finishes : ℕ → Call
  starts fails reads resets : Call

-- The counters after a call, and what it returns of those that it clears.
abbrev pub call : Call → Metrics → Metrics × Option Metrics
call (adds inputs) m = (add inputs m, none)
call (finishes status) m = (upstream_finished status m, none)
call starts m = (upstream_started m, none)
call fails m = (network_failed m, none)
call reads m = (m, none)
call resets m = ((reset m).1, some (reset m).0)

abbrev pub collect : Option Metrics → List Metrics → List Metrics
collect none ms = ms
collect (some m) ms = m ∷ ms

-- The counters after all the calls, and the snapshots that the resets returned.
abbrev pub serve : List Call → Metrics → Metrics × List Metrics
serve [] m = (m, [])
serve (c ∷ cs) m = let rest = serve cs (call c m).0 in (rest.0, collect (call c m).1 rest.1)
