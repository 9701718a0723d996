-- ===== src/Stage.antt =====
-- `run_repeated_stage` of scripts/run_large_scale_benchmark.py: the warmups and measurements of a
-- stage, with a state file that is published after each of them and from which a later run
-- resumes. The run returns the states it publishes, in order; `atomic_write_json` publishes a state
-- whole or not at all. The time stamps are left out.

pub mod Own
pub mod Loop
pub mod Success
pub mod Reach
use leann_cpp.Prelude.{
  ℕ, zero, suc, ◌+◌, ◌-◌, Bool, true, false, ◌&&◌, ◌||◌, not, Option, none, some, List, [], ◌∷◌,
  ◌++◌, ◌≡◌, length, eq_list, ltb, ◌==◌, if◌then◌else◌, Result, ok, err, Error, value_error,
  runtime_error, ◌>>=◌, ◌>>◌, raise_if,
}
use leann_cpp.Bytes.{Text}

pub data Kind : Type 0 where
  warmup measurement : Kind

pub data Status : Type 0 where
  running failed complete unknown : Status

-- A process exits with a code or is killed by a signal, a negative `returncode`.
pub data ExitCode : Type 0 where
  exited killed : ℕ → ExitCode

abbrev pub is_zero : ExitCode → Bool
is_zero (exited n) = n == 0
is_zero (killed n) = false

pub record Protocol : Type 0 where
  pub warmups : ℕ
  pub repetitions : ℕ

-- What the caller and the other functions provide: the dictionary of inputs with its key
-- `execution_protocol`, `canonical_hash`, and the equality tests of dictionaries and snapshots.
pub record Env : Type 1 where
  pub Payload : Type 0
  pub Snapshot : Type 0
  pub Measured : Type 0
  pub protocol : Payload → Option Protocol
  pub with_protocol : Payload → Protocol → Payload
  pub canonical_hash : Payload → Text
  pub same_payload : Payload → Payload → Bool
  pub same_snapshot : Snapshot → Snapshot → Bool
  pub same_payload-self : (p : Payload) → same_payload p p ≡ true

module _ (E : Env) where
  open E use {
    Payload, Snapshot, Measured, protocol, with_protocol, canonical_hash, same_payload,
    same_snapshot,
  }

  pub record Observation : Type 0 where
    pub kind : Kind
    pub ordinal : ℕ
    pub exit_code : ExitCode
    pub artifacts : Snapshot
    pub measured : Measured

  -- How a command and the reading of what it left end.
  pub data Outcome : Type 0 where
    returned : ExitCode → Snapshot → Measured → Outcome
    raised : Error → Outcome

  pub record State : Type 0 where
    pub schema : Text
    pub name : Text
    pub inputs : Payload
    pub input_hash : Text
    pub status : Status
    pub warmups : List Observation
    pub measurements : List Observation
    pub failed_attempts : List Observation

  -- The arguments of the call.
  pub record Config : Type 0 where
    pub name : Text
    pub payload : Payload
    pub warmups : ℕ
    pub repetitions : ℕ

  -- The states published, the commands run, and how the call ends.
  pub record Run : Type 0 where
    pub writes : List State
    pub commands : ℕ
    pub result : Result State

  abbrev pub observations : Kind → State → List Observation
  observations warmup s = s.warmups
  observations measurement s = s.measurements

  abbrev pub wanted : Kind → Config → ℕ
  wanted warmup c = c.warmups
  wanted measurement c = c.repetitions

  abbrev pub stage_schema : Text
  stage_schema =
      b'l' ∷ b'e' ∷ b'a' ∷ b'n' ∷ b'n' ∷ b'-' ∷ b'c' ∷ b'o' ∷ b'm' ∷ b'm' ∷ b'a' ∷ b'n' ∷ b'd'
      ∷ b'-' ∷ b's' ∷ b't' ∷ b'a' ∷ b'g' ∷ b'e' ∷ b'-' ∷ b'v' ∷ b'1' ∷ []

  abbrev pub protocol_of : Config → Protocol
  protocol_of c = record { warmups = c.warmups; repetitions = c.repetitions }

  abbrev pub stage_inputs : Config → Payload
  stage_inputs c = with_protocol c.payload (protocol_of c)

  abbrev pub disagrees : Option Protocol → Protocol → Bool
  disagrees none p = false
  disagrees (some q) p = not (q.warmups == p.warmups && q.repetitions == p.repetitions)

  abbrev pub is_kind : Kind → Kind → Bool
  is_kind warmup warmup = true
  is_kind measurement measurement = true
  is_kind _ _ = false

  abbrev pub is_known : Status → Bool
  is_known unknown = false
  is_known _ = true

  abbrev pub is_complete : Status → Bool
  is_complete complete = true
  is_complete _ = false

  -- `for ordinal, observation in enumerate(observations)`
  abbrev pub numbered : Kind → ℕ → List Observation → Bool
  numbered kind n [] = true
  numbered kind n (o ∷ os) = (is_kind o.kind kind && o.ordinal == n) && numbered kind (suc n) os

  abbrev pub check_kind : Config → Kind → State → Result (Unit {0})
  check_kind c kind s = do
    raise_if (ltb (wanted kind c) (length (observations kind s)))
        (runtime_error "checkpoint contains more than requested")
    raise_if (not (numbered kind 0 (observations kind s)))
        (runtime_error "observation identity mismatch")

  -- The checks on a state file that is found.
  unfoldable pub check_state : Config → State → Result (Unit {0})
  check_state c s = do
    raise_if
        (not (
          eq_list s.schema stage_schema
          && (eq_list s.name c.name && same_payload s.inputs (stage_inputs c))))
        (runtime_error "existing stage state identity mismatch")
    raise_if (not (eq_list s.input_hash (canonical_hash (stage_inputs c))))
        (runtime_error "existing stage state belongs to different inputs")
    raise_if (not (is_known s.status)) (runtime_error "existing stage status is invalid")
    check_kind c warmup s
    check_kind c measurement s

  abbrev pub last_artifacts : List Observation → Option Snapshot
  last_artifacts [] = none
  last_artifacts (o ∷ []) = some o.artifacts
  last_artifacts (o ∷ p ∷ os) = last_artifacts (p ∷ os)

  abbrev pub is_recorded : Snapshot → Option Snapshot → Bool
  is_recorded current none = false
  is_recorded current (some recorded) = same_snapshot current recorded

  -- A complete stage runs nothing again.
  unfoldable pub reuse : Config → Snapshot → State → Result State
  reuse c current s = do
    raise_if (not (length s.warmups == c.warmups && length s.measurements == c.repetitions))
        (runtime_error "completed stage has incomplete observation counts")
    raise_if (not (is_recorded current (last_artifacts s.measurements)))
        (runtime_error "completed-stage artifacts changed; refuse stale reuse")
    ok s

  abbrev pub new_state : Config → State
  new_state c = record {
    schema = stage_schema;
    name = c.name;
    inputs = stage_inputs c;
    input_hash = canonical_hash (stage_inputs c);
    status = running;
    warmups = [];
    measurements = [];
    failed_attempts = [];
  }

  -- `state[kind].append(observation)` and the status
  abbrev pub add : Kind → Observation → State → State
  add warmup o s = record s { status = running; warmups = s.warmups ++ o ∷ [] }
  add measurement o s = record s { status = running; measurements = s.measurements ++ o ∷ [] }

  abbrev pub fail : Observation → State → State
  fail o s = record s { status = failed; failed_attempts = s.failed_attempts ++ o ∷ [] }

  abbrev pub observe : Kind → State → ExitCode → Snapshot → Measured → Observation
  observe kind s code artifacts measured = record {
    kind = kind;
    ordinal = length (observations kind s);
    exit_code = code;
    artifacts = artifacts;
    measured = measured;
  }

  abbrev pub published : State → Run → Run
  published s run = record run { writes = s ∷ run.writes; commands = suc run.commands }

  -- What an observation does to the state, by whether the command succeeded; `next` is the rest of
  -- the loop.
  abbrev pub conclude : Kind → Observation → State → Bool → (State → Run) → Run
  conclude kind o s false next = record {
    writes = fail o s ∷ [];
    commands = 1;
    result = err (runtime_error "failed with exit");
  }
  conclude kind o s true next = published (add kind o s) (next (add kind o s))

  abbrev pub attempt : Kind → State → Outcome → (State → Run) → Run
  attempt kind s (raised e) next = record { writes = []; commands = 1; result = err e }
  attempt kind s (returned code artifacts measured) next =
      conclude kind (observe kind s code artifacts measured) s (is_zero code) next

  -- The `while` loop of one kind; `left` is what is missing to the wanted number. The world says
  -- how each command of the call ends, by its place in the call.
  unfoldable pub run_kind : (ℕ → Outcome) → Kind → ℕ → ℕ → State → Run
  run_kind world kind zero time s = record { writes = []; commands = 0; result = ok s }
  run_kind world kind (suc left) time s =
      attempt kind s (world time) (run_kind world kind left (suc time))

  -- What follows runs only if the first part returned.
  abbrev pub after : List State → ℕ → Result State → (State → Run) → Run
  after writes commands (err e) next = record {
    writes = writes;
    commands = commands;
    result = err e;
  }
  after writes commands (ok s) next = record {
    writes = writes ++ (next s).writes;
    commands = commands + (next s).commands;
    result = (next s).result;
  }

  abbrev pub and_then : Run → (State → Run) → Run
  and_then run next = after run.writes run.commands run.result next

  abbrev pub missing : Kind → Config → State → ℕ
  missing kind c s = wanted kind c - length (observations kind s)

  abbrev pub finish : State → Run
  finish s =
      let done = record s { status = complete } in
      record { writes = done ∷ []; commands = 0; result = ok done }

  unfoldable pub run_stage : (ℕ → Outcome) → Config → State → Run
  run_stage world c s = and_then (run_kind world warmup (missing warmup c s) 0 s) (λ s1.
      and_then (run_kind world measurement (missing measurement c s1) (missing warmup c s) s1)
        finish)

  abbrev pub without_run : Result State → Run
  without_run r = record { writes = []; commands = 0; result = r }

  -- A check that raises keeps the rest from running.
  abbrev pub checked : Result (Unit {0}) → Run → Run
  checked (err e) run = without_run (err e)
  checked (ok u) run = run

  unfoldable pub check_arguments : Config → Result (Unit {0})
  check_arguments c = do
    raise_if (c.repetitions == 0)
        (value_error "warmups must be non-negative and repetitions positive")
    raise_if (disagrees (protocol c.payload) (protocol_of c))
        (value_error "input execution protocol disagrees with requested counts")

  -- `current` is `snapshot_files(artifact_factory())` at the start of the call.
  unfoldable pub from_disk : (ℕ → Outcome) → Snapshot → Config → Option State → Run
  from_disk world current c none = run_stage world c (new_state c)
  from_disk world current c (some s) =
      checked (check_state c s)
        (if is_complete s.status then without_run (reuse c current s) else run_stage world c s)

  unfoldable pub run_repeated_stage : (ℕ → Outcome) → Snapshot → Config → Option State → Run
  run_repeated_stage world current c disk =
      checked (check_arguments c) (from_disk world current c disk)
