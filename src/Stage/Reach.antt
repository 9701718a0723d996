-- ===== src/Stage/Reach.antt =====
-- Calls with the same arguments, one after the other, any of which may be stopped after any of its
-- writes; and what the last of them finds.
use leann_cpp.Prelude.{
  last_or, ℕ, ◌+◌, ◌≡◌, refl, subst, Bool, true, false, List, [], ◌∷◌, length, take, All, All-take,
  if◌then◌else◌, Bool-cases, inl, inr, Result, ok, err, runtime_error, Option, none, some, ==_self,
}
use leann_cpp.Stage.{
  Env, warmup, measurement, complete, Outcome, State, Config, Run, is_complete, check_state,
  new_state, reuse, run_stage, run_repeated_stage, without_run, missing, checked, check_arguments,
  from_disk, last_artifacts, is_recorded,
}
use leann_cpp.Stage.Own.{IsOwn, new_state-IsOwn, check_state-IsOwn}
use leann_cpp.Stage.Loop.{
  Extends, Extends-refl, Extends-trans, Kept, Ends, Done, run_stage-Kept, succeeds,
}
use leann_cpp.Stage.Success.{run_stage-succeeds}

module _ (E : Env) (c : Config E) where
  open E use {Snapshot, protocol}

  -- A call that is stopped after `n` of its writes, or runs to its end.
  pub data Step (d e : Option (State E)) : Type 0 where
    call :
        (world : ℕ → Outcome E) (current : Snapshot) (n : ℕ)
        → e ≡ last_or d (take n (run_repeated_stage E world current c d).writes)
        → Step d e

  pub data Reach (d : Option (State E)) : Option (State E) → Type 0 where
    here : Reach d d
    next : {e f : Option (State E)} → Reach d e → Step e f → Reach d f

  abbrev pub Fits : Option (State E) → Type 0
  Fits none = Unit
  Fits (some s) = IsOwn E c s

  abbrev pub Keeps : Option (State E) → Option (State E) → Type 0
  Keeps none e = Unit
  Keeps (some s) e = (t : State E) × (e ≡ some t) × Extends E s t

  -- The state from which a call works on.
  abbrev begun : Option (State E) → State E
  begun none = new_state E c
  begun (some s) = s

  begun-IsOwn : (d : Option (State E)) → Fits d → IsOwn E c (begun d)
  begun-IsOwn none h = new_state-IsOwn E c
  begun-IsOwn (some s) h = h

  -- A call publishes nothing, or it works on from the state it found.
  module _ (P : List (State E) → Type 0) (nothing : P []) where
    checked-writes :
        (r : Result (Unit {0})) (run : Run E) → P run.writes → P (checked E r run).writes
    checked-writes (err e) run w = nothing
    checked-writes (ok u) run w = w

    if-writes :
        (b : Bool) (r : Result (State E)) (run : Run E)
        → P run.writes
        → P (if b then without_run E r else run).writes
    if-writes true r run w = nothing
    if-writes false r run w = w

    from_disk-writes :
        (world : ℕ → Outcome E) (current : Snapshot) (d : Option (State E))
        → P (run_stage E world c (begun d)).writes
        → P (from_disk E world current c d).writes
    unfolding from_disk
    from_disk-writes world current none w = w
    from_disk-writes world current (some s) w =
        checked-writes (check_state E c s) _ (if-writes (is_complete E s.status) _ _ w)

    run_repeated_stage-writes :
        (world : ℕ → Outcome E) (current : Snapshot) (d : Option (State E))
        → P (run_stage E world c (begun d)).writes
        → P (run_repeated_stage E world current c d).writes
    unfolding run_repeated_stage
    run_repeated_stage-writes world current d w =
        checked-writes (check_arguments E c) _ (from_disk-writes world current d w)

  last_or-All :
      (P : Option (State E) → Type 0) (d : Option (State E)) (l : List (State E))
      → P d
      → All (λ s. P (some s)) l
      → P (last_or d l)
  last_or-All P d [] p h = p
  last_or-All P d (s ∷ l) p (q, h) = last_or-All P (some s) l q h

  Keeps-refl : (d : Option (State E)) → Keeps d d
  Keeps-refl none = tt
  Keeps-refl (some s) = (s, refl, Extends-refl E s)

  Keeps-trans : (d e f : Option (State E)) → Keeps d e → Keeps e f → Keeps d f
  Keeps-trans none e f h k = tt
  Keeps-trans (some s) e f (t, p, x) k =
      let (u, q, y) = subst (λ o. Keeps o f) p k in (u, q, Extends-trans E s t u x y)

  Keeps-some : (d : Option (State E)) (s : State E) → Extends E (begun d) s → Keeps d (some s)
  Keeps-some none s x = tt
  Keeps-some (some t) s x = (s, refl, x)

  Kept-Keeps :
      (d : Option (State E)) (l : List (State E))
      → All (Kept E c (begun d)) l
      → All (λ s. Fits (some s) × Keeps d (some s)) l
  Kept-Keeps d [] h = tt
  Kept-Keeps d (s ∷ l) ((own, x), h) = ((own, Keeps-some d s x), Kept-Keeps d l h)

  Step-Keeps : (d e : Option (State E)) → Fits d → Step d e → Fits e × Keeps d e
  Step-Keeps d e f (call world current n eq) =
      let own = begun-IsOwn d f in
      let ks = (run_stage-Kept E c (begun d) world (begun d) (own, Extends-refl E (begun d))).0 in
      let all_kept = run_repeated_stage-writes (All (Kept E c (begun d))) tt world current d ks in
      rw eq (
        last_or-All (λ o. Fits o × Keeps d o) d _ (f, Keeps-refl d)
          (Kept-Keeps d _ (All-take (Kept E c (begun d)) n _ all_kept)))

  -- What any number of calls with the same arguments, each stopped after any of its writes or not,
  -- leave behind is a state of the stage, and it keeps every observation and every failed attempt
  -- of the state before them.
  pub Reach-Keeps : {d e : Option (State E)} → Fits d → Reach d e → Fits e × Keeps d e
  Reach-Keeps f here = (f, Keeps-refl _)
  Reach-Keeps f (next r st) =
      let (g, k) = Reach-Keeps f r in let (h, m) = Step-Keeps _ _ g st in (h, Keeps-trans _ _ _ k m)

  abbrev pub is_done : Option (State E) → Bool
  is_done none = false
  is_done (some s) = is_complete E s.status

  -- How many commands are left to run.
  abbrev pub remaining : Option (State E) → ℕ
  remaining d = missing E warmup c (begun d) + missing E measurement c (begun d)

  runs_on :
      (world : ℕ → Outcome E) (current : Snapshot) (d : Option (State E))
      → check_arguments E c ≡ ok tt
      → Fits d
      → is_done d ≡ false
      → run_repeated_stage E world current c d ≡ run_stage E world c (begun d)
  unfolding run_repeated_stage from_disk
  runs_on world current none a f h = rw a refl
  runs_on world current (some s) a f h = rw a (rw (check_state-IsOwn E c s f) (rw h refl))

  -- Once the commands succeed, a call resumes from whatever earlier calls left, runs exactly the
  -- commands that are missing, and returns a complete state that it published last, with as many
  -- warmups and measurements as asked for, which are numbered from 0 and begin with those found.
  pub run_repeated_stage-resumes :
      (world : ℕ → Outcome E) (current : Snapshot) (d : Option (State E))
      → check_arguments E c ≡ ok tt
      → Reach none d
      → is_done d ≡ false
      → ((t : ℕ) → succeeds E (world t) ≡ true)
      → let run = run_repeated_stage E world current c d in
        (s : State E) × (run.result ≡ ok s)
        × (last_or d run.writes ≡ some s)
        × (run.commands ≡ remaining d)
        × IsOwn E c s
        × (s.status ≡ complete)
        × (length s.warmups ≡ c.warmups)
        × (length s.measurements ≡ c.repetitions)
        × Keeps d (some s)
  run_repeated_stage-resumes world current d a r h good =
      let f = (Reach-Keeps tt r).0 in
      let own = begun-IsOwn d f in
      let (s, e, n, l) = run_stage-succeeds E world c (begun d) d good in
      let ends = (run_stage-Kept E c (begun d) world (begun d) (own, Extends-refl E (begun d))).1 in
      let ((k, x), done, ws, ms) = subst (Ends E c (begun d) (Done E c (begun d))) e ends in
      rw (runs_on world current d a f h) (s, e, l, n, k, done, ws, ms, Keeps-some d s x)

  -- A complete stage runs nothing and publishes nothing. Its state is returned if the artifacts are
  -- those recorded with the last measurement, and refused otherwise.
  pub run_repeated_stage-reuses :
      (world : ℕ → Outcome E) (current : Snapshot) (s : State E)
      → check_arguments E c ≡ ok tt
      → Reach none (some s)
      → is_complete E s.status ≡ true
      → run_repeated_stage E world current c (some s)
        ≡ without_run E (
            if is_recorded E current (last_artifacts E s.measurements)
            then ok s
            else err (runtime_error "completed-stage artifacts changed; refuse stale reuse"))
  unfolding run_repeated_stage from_disk reuse
  run_repeated_stage-reuses world current s a r h =
      let f = (Reach-Keeps tt r).0 in
      let (ws, ms) = f.full h in
      rw (a, check_state-IsOwn E c s f, h, ws, ms, ==_self c.warmups, ==_self c.repetitions)
        (elim (Bool-cases (is_recorded E current (last_artifacts E s.measurements))) [
          | inl y ↦ rw y refl
          | inr y ↦ rw y refl
        ])
