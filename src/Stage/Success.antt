-- ===== src/Stage/Success.antt =====
-- A call whose commands all succeed.
use leann_cpp.Prelude.{
  last_or, last_or-append, ℕ, zero, suc, ◌+◌, ◌≡◌, refl, ap, ◌∙◌, true, List, [], ◌∷◌, ◌++◌, arith,
  length, ok, Option, some,
}
use leann_cpp.Stage.{
  Env, Kind, warmup, measurement, complete, Observation, Outcome, returned, raised, State, Config,
  Run, add, observe, attempt, run_kind, missing, run_stage,
}
use leann_cpp.Stage.Loop.{succeeds}

module _ (E : Env) where
  abbrev others : Kind → State E → List (Observation E)
  others warmup s = s.measurements
  others measurement s = s.warmups

  others-add :
      (kind : Kind) (o : Observation E) (s : State E) → others kind (add E kind o s) ≡ others kind s
  others-add warmup o s = refl
  others-add measurement o s = refl

  -- The call ran `n` commands, and returned with a state that the other kind's list is left in.
  abbrev Went : Kind → ℕ → State E → Run E → Type 0
  Went kind n s run =
      (t : State E) × (run.result ≡ ok t) × (run.commands ≡ n) × (others kind t ≡ others kind s)

  attempt-succeeds :
      (kind : Kind) (n : ℕ) (s : State E) (outcome : Outcome E) (next : State E → Run E)
      → succeeds E outcome ≡ true
      → ((o : Observation E) → Went kind n (add E kind o s) (next (add E kind o s)))
      → Went kind (suc n) s (attempt E kind s outcome next)
  attempt-succeeds kind n s (raised e) next h f = ground arith
  attempt-succeeds kind n s (returned code a m) next h f =
      let o = observe E kind s code a m in
      let (t, r, e, k) = f o in rw h (t, r, ap suc e, k ∙ others-add kind o s)

  run_kind-succeeds :
      (world : ℕ → Outcome E)
      → ((t : ℕ) → succeeds E (world t) ≡ true)
      → (kind : Kind) (left time : ℕ) (s : State E)
      → Went kind left s (run_kind E world kind left time s)
  unfolding run_kind
  run_kind-succeeds world h kind zero time s = (s, refl, refl, refl)
  run_kind-succeeds world h kind (suc left) time s =
      attempt-succeeds kind left s (world time) (run_kind E world kind left (suc time)) (h time)
        λ o. run_kind-succeeds world h kind left (suc time) (add E kind o s)

  -- The state that is returned is the one that was published last.
  pub run_stage-succeeds :
      (world : ℕ → Outcome E) (c : Config E) (s : State E) (d : Option (State E))
      → ((t : ℕ) → succeeds E (world t) ≡ true)
      → (t : State E) × ((run_stage E world c s).result ≡ ok t)
        × ((run_stage E world c s).commands ≡ missing E warmup c s + missing E measurement c s)
        × (last_or d (run_stage E world c s).writes ≡ some t)
  unfolding run_stage
  run_stage-succeeds world c s d h =
      let first = run_kind E world warmup (missing E warmup c s) 0 s in
      let (s1, r, n, k) = run_kind-succeeds world h warmup (missing E warmup c s) 0 s in
      let second =
        run_kind E world measurement (missing E measurement c s1) (missing E warmup c s) s1 in
      let (s2, r2, n2, k2) =
        run_kind-succeeds world h measurement (missing E measurement c s1) (missing E warmup c s)
          s1 in
      rw r (
        rw r2 (
          record s2 { status = complete },
          refl,
          omega (arith, n, n2, ap length k),
          last_or-append d first.writes (second.writes ++ record s2 { status = complete } ∷ [])
              ∙ last_or-append (last_or d first.writes) second.writes
                  (record s2 { status = complete } ∷ []),
        ))
