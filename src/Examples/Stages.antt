-- ===== src/Examples/Stages.antt =====
-- A stage of one warmup and two measurements: the first call is stopped after two writes, the
-- second ends with a failed command, the third completes the stage, and the fourth reuses it.
use leann_cpp.Prelude.{
  last_or, ℕ, ◌≡◌, refl, true, false, Option, none, some, [], ◌∷◌, length, take, ◌==◌, ==_self,
  if◌then◌else◌, ok, err, runtime_error,
}
use leann_cpp.Stage.{
  Env, complete, exited, Outcome, returned, State, Config, new_state, run_kind, run_stage,
  from_disk, check_state, check_arguments, run_repeated_stage, is_complete, is_recorded,
  last_artifacts, without_run,
}
use leann_cpp.Stage.Own.{IsOwn}
use leann_cpp.Stage.Reach.{
  call, Reach, Fits, Keeps, Reach-Keeps, is_done, remaining, run_repeated_stage-resumes,
  run_repeated_stage-reuses,
}

abbrev toy_env : Env
toy_env = record {
  Payload = ℕ;
  Snapshot = ℕ;
  Measured = Unit;
  protocol = λ p. none;
  with_protocol = λ p q. p;
  canonical_hash = λ p. p ∷ [];
  same_payload = ◌==◌;
  same_snapshot = ◌==◌;
  same_payload-self = ==_self;
}

abbrev config : Config toy_env
config = record { name = b'q' ∷ []; payload = 4; warmups = 1; repetitions = 2 }

abbrev working : ℕ → Outcome toy_env
working t = returned (exited 0) 7 tt

abbrev broken : ℕ → Outcome toy_env
broken t = returned (exited 3) 7 tt

abbrev after_first : Option (State toy_env)
after_first = last_or none (take 2 (run_repeated_stage toy_env working 7 config none).writes)

abbrev after_second : Option (State toy_env)
after_second =
    last_or after_first (take 1 (run_repeated_stage toy_env broken 7 config after_first).writes)

reached : Reach toy_env config none after_second
reached = Reach.next (Reach.next Reach.here (call working 7 2 refl)) (call broken 7 1 refl)

Reach-Keeps_example : Fits toy_env config after_second × Keeps toy_env config none after_second
Reach-Keeps_example = Reach-Keeps toy_env config tt reached

all_stages : Unit {0}
unfolding run_repeated_stage from_disk run_stage run_kind check_state check_arguments
all_stages = tt

not_done : is_done toy_env config after_second ≡ false
unfolding all_stages
not_done = refl

arguments : check_arguments toy_env config ≡ ok tt
unfolding all_stages
arguments = refl

run_repeated_stage-resumes_example :
    let run = run_repeated_stage toy_env working 7 config after_second in
    (s : State toy_env) × (run.result ≡ ok s)
    × (last_or after_second run.writes ≡ some s)
    × (run.commands ≡ remaining toy_env config after_second)
    × IsOwn toy_env config s
    × (s.status ≡ complete)
    × (length s.warmups ≡ 1)
    × (length s.measurements ≡ 2)
    × Keeps toy_env config after_second (some s)
run_repeated_stage-resumes_example =
    run_repeated_stage-resumes toy_env config working 7 after_second arguments reached not_done
      (λ t. refl)

one_command_is_left : (run_repeated_stage toy_env working 7 config after_second).commands ≡ 1
unfolding all_stages
one_command_is_left = refl

final : State toy_env
unfolding all_stages
final = elim (run_repeated_stage toy_env working 7 config after_second).result [
  | ok s ↦ s
  | err e ↦ new_state toy_env config
]

reached_final : Reach toy_env config none (some final)
unfolding all_stages final
reached_final = Reach.next reached (call working 7 9 refl)

final_complete : is_complete toy_env final.status ≡ true
unfolding all_stages final
final_complete = refl

run_repeated_stage-reuses_example :
    run_repeated_stage toy_env broken 8 config (some final)
    ≡ without_run toy_env (
        if is_recorded toy_env 8 (last_artifacts toy_env final.measurements)
        then ok final
        else err (runtime_error "completed-stage artifacts changed; refuse stale reuse"))
run_repeated_stage-reuses_example =
    run_repeated_stage-reuses toy_env config broken 8 final arguments reached_final final_complete
