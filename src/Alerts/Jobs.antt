-- ===== src/Alerts/Jobs.antt =====
-- `begin_job` and `finish_job` of `AlertStore` in src/aios/alerts.py. Which processes are alive
-- is a parameter (`_pid_is_alive` asks the operating system).
use Prim.Native.String.{◌++◌ as str_append}
use alpha_agent.Base.{
  ℕ, ◌&&◌, Bool, true, false, none, some, List, [], ◌∷◌, ◌++◌, map, String, str_eq, leb, ◌==◌,
  first, exists, update, select, sort_by,
}
use alpha_agent.Json.{Json, Fields, obj, end}
use alpha_agent.Alerts.Schema.{JobRun, JobState, running, success, failed, interrupted}
use alpha_agent.Alerts.Payload.{payload_json}
use alpha_agent.Alerts.Ledger.{
  Tx, ◌>>=◌, ◌>>◌, pure, raise_if, gets, modify, or_raise, fresh_id, integrity, bad_pid,
  already_running, job_missing,
}
use alpha_agent.Alerts.Checks.{check_text}

abbrev pub is_running : JobState → Bool
is_running running = true
is_running _ = false

abbrev pub is_running_job : String → JobRun → Bool
is_running_job name j = str_eq j.job_name name && is_running j.state

abbrev pub is_running_run : String → JobRun → Bool
is_running_run i j = str_eq j.run_id i && is_running j.state

abbrev pub interrupt : ℕ → JobRun → JobRun
interrupt timestamp j = record j {
  state = interrupted;
  finished_at = some timestamp;
  detail = "A later startup found that this run never completed.";
}

-- The owner of a run is alive: the same boot, and the process exists.
abbrev pub is_owned : (ℕ → Bool) → String → JobRun → Bool
is_owned pid_is_alive boot_id j = str_eq j.owner_boot_id boot_id && pid_is_alive j.owner_pid

-- The loop over the running rows: a live owner refuses the start, any other run is interrupted.
unfoldable pub interrupt_runs : (ℕ → Bool) → String → ℕ → List JobRun → Tx (Unit {0})
interrupt_runs alive boot_id timestamp [] = pure tt
interrupt_runs alive boot_id timestamp (j ∷ js) =
    raise_if (is_owned alive boot_id j) already_running
    >> (modify (λ l. record l {
      job_runs = update (is_running_run j.run_id) (interrupt timestamp) l.job_runs;
    })
        >> interrupt_runs alive boot_id timestamp js)

unfoldable pub insert_job : JobRun → Tx JobRun
insert_job j = do
  raise_if (← gets (λ l. exists (λ (k : JobRun). str_eq k.run_id j.run_id) l.job_runs)) integrity
  modify (λ l. record l { job_runs = l.job_runs ++ j ∷ [] })
  pure j

-- `begin_job`, with the run and the identifiers of the runs that it interrupted.
unfoldable pub begin_job :
    (ℕ → String)
    → (pid_is_alive : ℕ → Bool)
    → (job_name target_session : String) (pid : ℕ) (boot_id : String) (timestamp : ℕ)
    → Tx (JobRun × List String)
unfolding check_text interrupt_runs insert_job
begin_job u alive job_name target_session pid boot_id timestamp = do
  check_text job_name
  check_text target_session
  raise_if (pid == 0) bad_pid
  check_text boot_id
  run_id ← fresh_id u (str_append "job-")
  rows ← gets (λ l.
      sort_by (λ a b. leb b.started_at a.started_at) (select (is_running_job job_name) l.job_runs))
  interrupt_runs alive boot_id timestamp rows
  run ← insert_job record {
    run_id = run_id;
    job_name = job_name;
    state = running;
    target_session = target_session;
    started_at = timestamp;
    finished_at = none;
    owner_pid = pid;
    owner_boot_id = boot_id;
    detail = "The local workflow is in progress.";
    payload = obj end;
  }
  pure (run, map (λ j. j.run_id) rows)

-- `state not in {"success", "failed"}` is refused by the type of the outcome.
pub data JobOutcome : Type 0 where
  succeeded_outcome failed_outcome : JobOutcome

abbrev pub outcome_state : JobOutcome → JobState
outcome_state succeeded_outcome = success
outcome_state failed_outcome = failed

abbrev pub finish : JobOutcome → String → Json → ℕ → JobRun → JobRun
finish outcome detail payload timestamp j = record j {
  state = outcome_state outcome;
  finished_at = some timestamp;
  detail = detail;
  payload = payload;
}

-- `finish_job`
unfoldable pub finish_job :
    (run_id : String) (outcome : JobOutcome) (detail : String) (payload : Fields) (timestamp : ℕ)
    → Tx JobRun
unfolding check_text payload_json
finish_job run_id outcome detail payload timestamp = do
  check_text run_id
  check_text detail
  let done = finish outcome detail (payload_json (obj payload)) timestamp
  found ← gets (λ l. first (is_running_run run_id) l.job_runs)
  modify (λ l. record l { job_runs = update (is_running_run run_id) done l.job_runs })
  j ← or_raise found job_missing
  pure (done j)
