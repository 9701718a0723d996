-- ===== src/Metrics/Laws.antt =====
-- Resets and the order of the threads neither lose an event nor count one twice.
use leann_cpp.Prelude.{
  ℕ, suc, ◌+◌, ◌≡◌, refl, ap, ◌∙◌, Bool, false, List, [], ◌∷◌, arith, All, ◌==◌, if◌then◌else◌,
  Option, none, some, Bool-cases, inl, inr, ==_iff, ◌||◌,
}
use leann_cpp.Metrics.{
  Counts, get, bump, sum_values, one_if, is_error, Metrics, new_metrics, Call, adds, finishes,
  starts, fails, reads, resets, call, collect, serve,
}

-- What the resets returned of a counter, and what stands in it now.
abbrev pub sum_of : (Metrics → ℕ) → List Metrics → ℕ
sum_of f [] = 0
sum_of f (m ∷ ms) = f m + sum_of f ms

abbrev pub total : (Metrics → ℕ) → Metrics × List Metrics → ℕ
total f (m, ms) = f m + sum_of f ms

-- The calls by what they are worth.
abbrev pub tally : (Call → ℕ) → List Call → ℕ
tally w [] = 0
tally w (c ∷ cs) = w c + tally w cs

abbrev pub is_adds : Call → ℕ
is_adds (adds n) = 1
is_adds _ = 0

abbrev pub inputs_of : Call → ℕ
inputs_of (adds n) = n
inputs_of _ = 0

abbrev pub is_starts : Call → ℕ
is_starts starts = 1
is_starts _ = 0

abbrev pub is_finishes : Call → ℕ
is_finishes (finishes status) = 1
is_finishes _ = 0

abbrev pub is_error_response : Call → ℕ
is_error_response (finishes status) = one_if (is_error status)
is_error_response _ = 0

abbrev pub is_fails : Call → ℕ
is_fails fails = 1
is_fails _ = 0

abbrev pub has_status : ℕ → Call → ℕ
has_status status (finishes other) = one_if (other == status)
has_status status _ = 0

get-bump :
    (status other : ℕ) (counts : Counts)
    → get status (bump other counts) ≡ get status counts + one_if (other == status)
get-bump status other [] = ground arith
get-bump status other ((key, value) ∷ counts) = ground (arith, get-bump status other counts)

pub sum_values-bump :
    (status : ℕ) (counts : Counts) → sum_values (bump status counts) ≡ suc (sum_values counts)
sum_values-bump status [] = omega arith
sum_values-bump status ((key, value) ∷ counts) = ground (arith, sum_values-bump status counts)

-- A counter that each call moves by what the call is worth, and that starts at 0.
module _ (f : Metrics → ℕ) (w : Call → ℕ) where
  abbrev Moves : Type 0
  Moves = (c : Call) (m : Metrics) → f (call c m).0 + sum_of f (collect (call c m).1 []) ≡ f m + w c

  total-collect :
      (o : Option Metrics) (n : Metrics) (ms : List Metrics)
      → total f (n, collect o ms) ≡ sum_of f (collect o []) + total f (n, ms)
  total-collect none n ms = omega arith
  total-collect (some m) n ms = omega arith

  total-serve : Moves → (cs : List Call) (m : Metrics) → total f (serve cs m) ≡ f m + tally w cs
  total-serve h [] m = omega arith
  total-serve h (c ∷ cs) m =
      let rest = serve cs (call c m).0 in
      omega (arith, total-collect (call c m).1 rest.0 rest.1, total-serve h cs (call c m).0, h c m)

  total-new_metrics :
      Moves → f new_metrics ≡ 0 → (cs : List Call) → total f (serve cs new_metrics) ≡ tally w cs
  total-new_metrics h z cs = omega (arith, z, total-serve h cs new_metrics)

-- Whatever the order of the calls and wherever the resets stand among them, what the resets
-- returned of each counter, with what stands in it now, is the number of the events it counts:
-- requests and their inputs, requests to the upstream, its responses, those with an error status,
-- those with each status, and failures of the network.
pub serve-total :
    (cs : List Call)
    → let after = serve cs new_metrics in
      (total (λ m. m.requests) after ≡ tally is_adds cs)
      × (total (λ m. m.inputs) after ≡ tally inputs_of cs)
      × (total (λ m. m.upstream_requests) after ≡ tally is_starts cs)
      × (total (λ m. m.upstream_responses) after ≡ tally is_finishes cs)
      × (total (λ m. m.http_errors) after ≡ tally is_error_response cs)
      × (total (λ m. m.network_errors) after ≡ tally is_fails cs)
      × ((status : ℕ)
          → total (λ m. get status m.status_counts) after ≡ tally (has_status status) cs)
serve-total cs = (
  total-new_metrics (λ m. m.requests) is_adds (λ c m. grind arith) refl cs,
  total-new_metrics (λ m. m.inputs) inputs_of (λ c m. grind arith) refl cs,
  total-new_metrics (λ m. m.upstream_requests) is_starts (λ c m. grind arith) refl cs,
  total-new_metrics (λ m. m.upstream_responses) is_finishes (λ c m. grind arith) refl cs,
  total-new_metrics (λ m. m.http_errors) is_error_response (λ c m. grind arith) refl cs,
  total-new_metrics (λ m. m.network_errors) is_fails (λ c m. grind arith) refl cs,
  λ status.
      total-new_metrics (λ m. get status m.status_counts) (has_status status)
        (λ c m. grind (arith, get-bump)) refl cs,
)

-- The keys of a dictionary are distinct.
abbrev pub has_key : ℕ → Counts → Bool
has_key status [] = false
has_key status ((key, value) ∷ counts) = key == status || has_key status counts

abbrev pub AreDistinct : Counts → Type 0
AreDistinct [] = Unit
AreDistinct ((key, value) ∷ counts) = (has_key key counts ≡ false) × AreDistinct counts

abbrev pub sum_errors : Counts → ℕ
sum_errors [] = 0
sum_errors ((key, value) ∷ counts) = (if is_error key then value else 0) + sum_errors counts

abbrev pub IsConsistent : Metrics → Type 0
IsConsistent m =
    (sum_values m.status_counts ≡ m.upstream_responses)
    × (sum_errors m.status_counts ≡ m.http_errors)
    × AreDistinct m.status_counts

sum_errors-bump :
    (status : ℕ) (counts : Counts)
    → sum_errors (bump status counts) ≡ sum_errors counts + one_if (is_error status)
sum_errors-bump status [] = ground arith
sum_errors-bump status ((key, value) ∷ counts) = elim (Bool-cases (key == status)) [
  | inl h ↦ let e = (==_iff key status).0 h in rw (h, e) (ground arith)
  | inr h ↦ rw h (omega (arith, sum_errors-bump status counts))
]

has_key-bump :
    (key status : ℕ) (counts : Counts)
    → has_key key counts ≡ false
    → (status == key) ≡ false
    → has_key key (bump status counts) ≡ false
has_key-bump key status [] h n = ground arith
has_key-bump key status ((other, value) ∷ counts) h n =
    ground (arith, has_key-bump key status counts)

bump-AreDistinct :
    (status : ℕ) (counts : Counts) → AreDistinct counts → AreDistinct (bump status counts)
bump-AreDistinct status [] d = (refl, tt)
bump-AreDistinct status ((key, value) ∷ counts) (h, d) = elim (Bool-cases (key == status)) [
  | inl e ↦ rw e (h, d)
  | inr e ↦ rw e (has_key-bump key status counts h (ground arith), bump-AreDistinct status counts d)
]

call-IsConsistent : (c : Call) (m : Metrics) → IsConsistent m → IsConsistent (call c m).0
call-IsConsistent (adds n) m h = h
call-IsConsistent (finishes status) m (a, b, d) = (
  omega (arith, a, sum_values-bump status m.status_counts),
  sum_errors-bump status m.status_counts ∙ ap (λ n. n + one_if (is_error status)) b,
  bump-AreDistinct status m.status_counts d,
)
call-IsConsistent starts m h = h
call-IsConsistent fails m h = h
call-IsConsistent reads m h = h
call-IsConsistent resets m h = (refl, refl, tt)

All-collect :
    (P : Metrics → Type 0) (c : Call) (m : Metrics) (ms : List Metrics)
    → P m
    → All P ms
    → All P (collect (call c m).1 ms)
All-collect P (adds n) m ms p h = h
All-collect P (finishes status) m ms p h = h
All-collect P starts m ms p h = h
All-collect P fails m ms p h = h
All-collect P reads m ms p h = h
All-collect P resets m ms p h = (p, h)

serve_from :
    (cs : List Call) (m : Metrics)
    → IsConsistent m
    → IsConsistent (serve cs m).0 × All IsConsistent (serve cs m).1
serve_from [] m h = (h, tt)
serve_from (c ∷ cs) m h =
    let (now, before) = serve_from cs (call c m).0 (call-IsConsistent c m h) in
    (now, All-collect IsConsistent c m _ h before)

-- After any calls the counters, and the snapshots that resets returned, are consistent: the values
-- of the status counts add up to the responses of the upstream, those of statuses from 400 on to the
-- errors, and no status stands twice.
pub serve-IsConsistent :
    (cs : List Call)
    → IsConsistent (serve cs new_metrics).0 × All IsConsistent (serve cs new_metrics).1
serve-IsConsistent cs = serve_from cs new_metrics (refl, refl, tt)
