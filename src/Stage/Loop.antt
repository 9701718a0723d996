-- ===== src/Stage/Loop.antt =====
-- What one call publishes and returns: each published state keeps what the first one recorded.
use leann_cpp.Prelude.{
  ℕ, zero, suc, ◌+◌, ◌<◌, ◌≡◌, refl, sym, ap, ◌∙◌, Bool, true, false, List, [], ◌∷◌, ◌++◌,
  append_assoc, append-nil, arith, length, length-append, All, All-append, Bool-cases, Result, ok,
  err, inl, inr,
}
use leann_cpp.Stage.{
  Env, Kind, warmup, measurement, failed, complete, ExitCode, is_zero, Observation, Outcome,
  returned, raised, State, Config, Run, observations, wanted, add, fail, observe, attempt, run_kind,
  after, missing, finish, run_stage,
}
use leann_cpp.Stage.Own.{IsOwn, Ready, add-IsOwn, status-IsOwn}

abbrev pub Prefix {ℓ} : {A : Type ℓ} → List A → List A → Type ℓ
Prefix {A = A} xs ys = (zs : List A) × (ys ≡ xs ++ zs)

pub Prefix-refl {ℓ} : {A : Type ℓ} (xs : List A) → Prefix xs xs
Prefix-refl xs = ([], sym (append-nil xs))

pub Prefix-append {ℓ} : {A : Type ℓ} (xs ys zs : List A) → Prefix xs ys → Prefix xs (ys ++ zs)
Prefix-append xs ys zs (t, e) = (t ++ zs, ap (λ l. l ++ zs) e ∙ append_assoc xs t zs)

pub Prefix-trans {ℓ} : {A : Type ℓ} (xs ys zs : List A) → Prefix xs ys → Prefix ys zs → Prefix xs zs
Prefix-trans xs ys zs p (t, e) = rw e (Prefix-append xs ys t p)

module _ (E : Env) where
  open E use {Snapshot, Measured}

  -- No recorded observation and no failed attempt is lost.
  abbrev pub Extends : State E → State E → Type 0
  Extends s t =
      Prefix s.warmups t.warmups
      × Prefix s.measurements t.measurements
      × Prefix s.failed_attempts t.failed_attempts

  pub Extends-refl : (s : State E) → Extends s s
  Extends-refl s =
      (Prefix-refl s.warmups, Prefix-refl s.measurements, Prefix-refl s.failed_attempts)

  pub Extends-trans : (s t u : State E) → Extends s t → Extends t u → Extends s u
  Extends-trans s t u (a, b, c) (d, e, f) =
      (Prefix-trans _ _ _ a d, Prefix-trans _ _ _ b e, Prefix-trans _ _ _ c f)

  abbrev pub succeeds : Outcome E → Bool
  succeeds (raised e) = false
  succeeds (returned code a m) = is_zero code

  module _ (c : Config E) (first : State E) where
    abbrev pub Kept : State E → Type 0
    Kept s = IsOwn E c s × Extends first s

    add-Kept :
        (kind : Kind) (s : State E) (code : ExitCode) (a : Snapshot) (m : Measured)
        → Kept s
        → Ready E kind c s
        → length (observations E kind s) < wanted E kind c
        → is_zero code ≡ true
        → Kept (add E kind (observe E kind s code a m) s)
    add-Kept warmup s code a m (own, (p, q, r)) ready more z =
        (add-IsOwn E c warmup s code a m own ready more z, (Prefix-append _ _ _ p, q, r))
    add-Kept measurement s code a m (own, (p, q, r)) ready more z =
        (add-IsOwn E c measurement s code a m own ready more z, (p, Prefix-append _ _ _ q, r))

    fail-Kept : (s : State E) (o : Observation E) → Kept s → Kept (fail E o s)
    fail-Kept s o (own, (p, q, r)) =
        (status-IsOwn E c s failed _ own refl (λ h. ground arith), (p, q, Prefix-append _ _ _ r))

    Ready-add :
        (kind : Kind) (o : Observation E) (s : State E)
        → Ready E kind c s
        → Ready E kind c (add E kind o s)
    Ready-add warmup o s r = tt
    Ready-add measurement o s r = r

    length-add :
        (kind : Kind) (o : Observation E) (s : State E)
        → length (observations E kind (add E kind o s)) ≡ suc (length (observations E kind s))
    length-add warmup o s = omega (arith, length-append s.warmups (o ∷ []))
    length-add measurement o s = omega (arith, length-append s.measurements (o ∷ []))

    -- What is so after a loop that returned.
    abbrev pub Filled : Kind → State E → Type 0
    Filled kind s = Kept s × Ready E kind c s × (length (observations E kind s) ≡ wanted E kind c)

    abbrev pub Ends : (State E → Type 0) → Result (State E) → Type 0
    Ends P (ok s) = P s
    Ends P (err e) = Unit

    attempt-Kept :
        (kind : Kind) (s : State E) (outcome : Outcome E) (next : State E → Run E)
        → Kept s
        → Ready E kind c s
        → length (observations E kind s) < wanted E kind c
        → ((o : Observation E)
            → Kept (add E kind o s)
            → Ready E kind c (add E kind o s)
            → All Kept (next (add E kind o s)).writes
              × Ends (Filled kind) (next (add E kind o s)).result)
        → All Kept (attempt E kind s outcome next).writes
          × Ends (Filled kind) (attempt E kind s outcome next).result
    attempt-Kept kind s (raised x) next k r e f = (tt, tt)
    attempt-Kept kind s (returned code a m) next k r e f = elim (Bool-cases (is_zero code)) [
      | inl z ↦
          let o = observe E kind s code a m in
          let added = add-Kept kind s code a m k r e z in
          let (ws, end) = f o added (Ready-add kind o s r) in rw z ((added, ws), end)
      | inr z ↦ rw z ((fail-Kept s _ k, tt), tt)
    ]

    pub run_kind-Kept :
        (world : ℕ → Outcome E) (kind : Kind) (left time : ℕ) (s : State E)
        → Kept s
        → Ready E kind c s
        → left + length (observations E kind s) ≡ wanted E kind c
        → All Kept (run_kind E world kind left time s).writes
          × Ends (Filled kind) (run_kind E world kind left time s).result
    unfolding run_kind
    run_kind-Kept world kind zero time s k r e = (tt, (k, r, omega (arith, e)))
    run_kind-Kept world kind (suc left) time s k r e =
        attempt-Kept kind s (world time) (run_kind E world kind left (suc time)) k r
          (omega (arith, e))
          λ o next ready.
            run_kind-Kept world kind left (suc time) (add E kind o s) next ready
              (omega (arith, e, length-add kind o s))

    after-Kept :
        (P Q : State E → Type 0) (writes : List (State E)) (n : ℕ) (r : Result (State E))
        (next : State E → Run E)
        → All Kept writes
        → Ends P r
        → ((s : State E) → P s → All Kept (next s).writes × Ends Q (next s).result)
        → All Kept (after E writes n r next).writes × Ends Q (after E writes n r next).result
    after-Kept P Q writes n (err e) next k p f = (k, tt)
    after-Kept P Q writes n (ok s) next k p f =
        let (ks, q) = f s p in (All-append Kept writes (next s).writes k ks, q)

    abbrev pub Done : State E → Type 0
    Done s =
        Kept s
        × (s.status ≡ complete)
        × (length s.warmups ≡ c.warmups)
        × (length s.measurements ≡ c.repetitions)

    finish-Kept :
        (s : State E)
        → Filled measurement s
        → All Kept (finish E s).writes × Ends Done (finish E s).result
    finish-Kept s ((own, more), ready, e) =
        let kept : Kept (record s { status = complete }) =
          (status-IsOwn E c s complete s.failed_attempts own refl (λ h. (ready, e)), more) in
        ((kept, tt), (kept, refl, ready, e))

    missing_lem :
        (kind : Kind) (s : State E)
        → IsOwn E c s
        → missing E kind c s + length (observations E kind s) ≡ wanted E kind c
    missing_lem kind s own = omega (arith, own.bound kind)

    pub run_stage-Kept :
        (world : ℕ → Outcome E) (s : State E)
        → Kept s
        → All Kept (run_stage E world c s).writes × Ends Done (run_stage E world c s).result
    unfolding run_stage
    run_stage-Kept world s k =
        let (ws, end) =
          run_kind-Kept world warmup (missing E warmup c s) 0 s k tt (missing_lem warmup s k.0) in
        after-Kept (Filled warmup) Done _ _ _ _ ws end (λ s1 (k1, r, e).
          let (ws1, end1) =
            run_kind-Kept world measurement (missing E measurement c s1) (missing E warmup c s) s1
              k1 e (missing_lem measurement s1 k1.0) in
          after-Kept (Filled measurement) Done _ _ _ _ ws1 end1 finish-Kept)
