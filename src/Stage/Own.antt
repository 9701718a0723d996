-- ===== src/Stage/Own.antt =====
-- The states that calls with the same arguments leave behind, and what each change keeps.
use leann_cpp.Prelude.{
  ℕ, suc, ◌+◌, ◌≤◌, ◌<◌, ◌≡◌, refl, ◌∙◌, Bool, true, false, List, [], ◌∷◌, ◌++◌, arith, length, all,
  length-append, all-append, eq_list_self, ltb, ok,
}
use leann_cpp.Stage.{
  Env, Kind, warmup, measurement, Status, ExitCode, is_zero, Observation, State, Config,
  observations, wanted, stage_schema, stage_inputs, is_kind, is_known, is_complete, numbered,
  check_state, new_state, add, observe,
}

module _ (E : Env) where
  open E use {Payload, Snapshot, Measured, canonical_hash, same_payload, same_payload-self}

  abbrev pub passed : List (Observation E) → Bool
  passed os = all (λ o. is_zero o.exit_code) os

  -- The observations of each kind are numbered from 0, no more than wanted and of successful
  -- commands, and measurements come after the last warmup.
  pub record IsOwn (c : Config E) (s : State E) : Type 0 where
    pub schema : s.schema ≡ stage_schema E
    pub name : s.name ≡ c.name
    pub inputs : same_payload s.inputs (stage_inputs E c) ≡ true
    pub hash : s.input_hash ≡ canonical_hash (stage_inputs E c)
    pub known : is_known E s.status ≡ true
    pub bound : (kind : Kind) → length (observations E kind s) ≤ wanted E kind c
    pub ordered : 0 < length s.measurements → length s.warmups ≡ c.warmups
    pub in_order : (kind : Kind) → numbered E kind 0 (observations E kind s) ≡ true
    pub good : (kind : Kind) → passed (observations E kind s) ≡ true
    pub full :
        is_complete E s.status ≡ true
        → (length s.warmups ≡ c.warmups) × (length s.measurements ≡ c.repetitions)

  each_kind : (P : Kind → Type 0) → P warmup → P measurement → (kind : Kind) → P kind
  each_kind P w m warmup = w
  each_kind P w m measurement = m

  is_kind_self : (kind : Kind) → is_kind E kind kind ≡ true
  is_kind_self warmup = refl
  is_kind_self measurement = refl

  numbered-append :
      (kind : Kind) (n m : ℕ) (os : List (Observation E)) (o : Observation E)
      → numbered E kind n os ≡ true
      → is_kind E o.kind kind ≡ true
      → o.ordinal ≡ m
      → m ≡ n + length os
      → numbered E kind n (os ++ o ∷ []) ≡ true
  numbered-append kind n m [] o h k e f = ground arith
  numbered-append kind n m (p ∷ os) o h k e f =
      ground (arith, numbered-append kind (suc n) m os o _ k e (omega (arith, f)))

  pub new_state-IsOwn : (c : Config E) → IsOwn c (new_state E c)
  new_state-IsOwn c = record {
    schema = refl;
    name = refl;
    inputs = same_payload-self (stage_inputs E c);
    hash = refl;
    known = refl;
    bound = each_kind _ (omega arith) (omega arith);
    ordered = λ h. omega arith;
    in_order = each_kind _ (refl) (refl);
    good = each_kind _ (refl) (refl);
    full = λ h. ground arith;
  }

  -- What has to hold before the loop of a kind.
  abbrev pub Ready : Kind → Config E → State E → Type 0
  Ready warmup c s = Unit
  Ready measurement c s = length s.warmups ≡ c.warmups

  passed-append :
      (os : List (Observation E)) (o : Observation E)
      → passed os ≡ true
      → is_zero o.exit_code ≡ true
      → passed (os ++ o ∷ []) ≡ true
  passed-append os o h k = all-append (λ o. is_zero o.exit_code) os (o ∷ []) ∙ ground arith

  pub add-IsOwn :
      (c : Config E) (kind : Kind) (s : State E) (code : ExitCode) (a : Snapshot) (m : Measured)
      → IsOwn c s
      → Ready kind c s
      → length (observations E kind s) < wanted E kind c
      → is_zero code ≡ true
      → IsOwn c (add E kind (observe E kind s code a m) s)
  add-IsOwn c warmup s code a m own ready more z = record {
    schema = own.schema;
    name = own.name;
    inputs = own.inputs;
    hash = own.hash;
    known = refl;
    bound =
        each_kind _ (omega (arith, length-append s.warmups (observe E warmup s code a m ∷ [])))
          (own.bound measurement);
    ordered = λ h. omega (arith, own.ordered h);
    in_order =
        each_kind _
          (numbered-append warmup 0 _ s.warmups _ (own.in_order warmup) refl refl (omega arith))
          (own.in_order measurement);
    good = each_kind _ (passed-append s.warmups _ (own.good warmup) z) (own.good measurement);
    full = λ h. ground arith;
  }
  add-IsOwn c measurement s code a m own ready more z = record {
    schema = own.schema;
    name = own.name;
    inputs = own.inputs;
    hash = own.hash;
    known = refl;
    bound =
        each_kind _ (own.bound warmup)
          (omega (arith, length-append s.measurements (observe E measurement s code a m ∷ [])));
    ordered = λ h. ready;
    in_order = each_kind _ (own.in_order warmup) (
        numbered-append measurement 0 _ s.measurements _ (own.in_order measurement) refl refl
          (omega arith));
    good = each_kind _ (own.good warmup) (passed-append s.measurements _ (own.good measurement) z);
    full = λ h. ground arith;
  }

  -- Another status and other failed attempts do not matter, as long as a complete state is full.
  pub status-IsOwn :
      (c : Config E) (s : State E) (status : Status) (os : List (Observation E))
      → IsOwn c s
      → is_known E status ≡ true
      → (is_complete E status ≡ true
          → (length s.warmups ≡ c.warmups) × (length s.measurements ≡ c.repetitions))
      → IsOwn c (record s { status = status; failed_attempts = os })
  status-IsOwn c s status os own known full = record {
    schema = own.schema;
    name = own.name;
    inputs = own.inputs;
    hash = own.hash;
    known = known;
    bound = each_kind _ (own.bound warmup) (own.bound measurement);
    ordered = own.ordered;
    in_order = each_kind _ (own.in_order warmup) (own.in_order measurement);
    good = each_kind _ (own.good warmup) (own.good measurement);
    full = full;
  }

  pub check_state-IsOwn : (c : Config E) (s : State E) → IsOwn c s → check_state E c s ≡ ok tt
  unfolding check_state
  check_state-IsOwn c s own =
      let w = own.bound warmup in
      let m = own.bound measurement in
      let small : ltb c.warmups (length s.warmups) ≡ false = ground arith in
      let few : ltb c.repetitions (length s.measurements) ≡ false = ground arith in
      rw
        (
          own.schema,
          own.name,
          own.inputs,
          own.hash,
          eq_list_self c.name,
          eq_list_self (canonical_hash (stage_inputs E c)),
          own.known,
          small,
          few,
          own.in_order warmup,
          own.in_order measurement,
        )
        refl
