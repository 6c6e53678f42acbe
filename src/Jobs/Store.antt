-- ===== src/Jobs/Store.antt =====
-- pkgs/media-repair/internal/jobs/store.go: observing a job, planning it and its repair attempts.
-- Each operation is a body, which runs on the transaction's database, and the transaction.
use nix.Base.{
  ℕ, String, Bool, true, not, ◌&&◌, ◌||◌, none, str_eq, inc64, Result, ok, err, ◌>>=◌, ◌>>◌, reject,
  if◌then◌else◌,
}
use nix.Jobs.Model.{
  Error, not_found, conflict, Job, Attempt, Raw, raw_present, State, active, is_imported,
  is_removed, is_ready, is_no_action,
}
use nix.Jobs.Database.{Gorm, transaction, no_value}
use nix.Jobs.History.{observe_planning, restore_planning, modify_and_remember}

-- The row that `Observe` creates for a queue entry it has not seen.
abbrev pub new_job : Job → Job
new_job seen = record seen {
  id = 0;
  state = State.observed;
  stable_since = seen.updated_at;
  in_queue = true;
}

abbrev pub refreshed : Job → Job → Job
refreshed job seen = record job {
  title = seen.title;
  updated_at = seen.updated_at;
  in_queue = true;
  collection_error = seen.collection_error;
}

-- What `Observe` resets when the planning inputs changed.
abbrev pub reset_planning : Job → Job → Job
reset_planning job seen = record job {
  plan = none;
  state = State.observed;
  reason = seen.planning_change;
  stable_since = seen.updated_at;
  retry_at = 0;
  planning_attempts = 0;
}

abbrev pub take_evidence : Bool → Job → Job → Job
take_evidence changed job seen =
    if not (is_ready job.state) || (changed || str_eq seen.planning_fingerprint "")
    then record job { source_fingerprint = seen.source_fingerprint; evidence = seen.evidence }
    else job

-- The attempt that `Start` creates, and the job that it saves.
abbrev pub started : ℕ → ℕ → Raw → ℕ → Attempt
started id number plan at = record {
  job_id = id;
  number = number;
  state = State.running;
  plan = plan;
  output_path = "";
  import_request = none;
  history_id_before = 0;
  command_id = 0;
  import_started_at = 0;
  import_terminal_at = 0;
  import_receipt = none;
  reason = "";
  started_at = at;
  updated_at = at;
}

abbrev pub set_running : Job → ℕ → Job
set_running job at = record job { state = State.running; reason = ""; updated_at = at }

-- The columns that `UpdateAttempt` copies to the stored attempt, and to its job.
abbrev pub merge_attempt : Attempt → Attempt → Attempt
merge_attempt previous attempt = record previous {
  state = attempt.state;
  reason = attempt.reason;
  updated_at = attempt.updated_at;
  output_path = attempt.output_path;
  import_receipt = attempt.import_receipt;
  import_request = attempt.import_request;
  history_id_before = attempt.history_id_before;
  command_id = attempt.command_id;
  import_started_at = attempt.import_started_at;
  import_terminal_at = attempt.import_terminal_at;
}

abbrev pub follow_attempt : Job → Attempt → Job
follow_attempt job attempt = record job {
  state = attempt.state;
  reason = attempt.reason;
  updated_at = attempt.updated_at;
}

-- `previous.Number + 1`, where no previous attempt reads as number 0.
abbrev pub next_number : Result Error Attempt → Result Error ℕ
next_number (ok previous) = ok (inc64 previous.number)
next_number (err not_found) = ok (inc64 0)
next_number (err e) = err e

-- The guard of `SetPlan`, then the plan.
unfoldable pub decide_plan : String → Raw → String → ℕ → Job → Result Error Job
decide_plan fingerprint plan guidance at job = do
  reject
      (not (str_eq job.source_fingerprint fingerprint)
        || (active job.state || (is_imported job.state || is_removed job.state)))
      conflict
  ok (record job {
    plan = plan;
    guidance = guidance;
    updated_at = at;
    state = State.ready;
    reason = "";
  })

module _ (g : Gorm) where
  open g use {
    Db, first_job, first_by_identity, save_job, create_job, first_attempt, last_attempt,
    create_attempt, save_attempt, find_jobs,
  }

  -- The part of `Observe` under `if changed && ...`.
  unfoldable pub replan : Db → Bool → Job → Job → Result Error Job
  replan s changed job seen =
      if changed && (not (is_imported job.state) && not (is_removed job.state))
      then restore_planning g s (reset_planning job seen)
      else ok job

  abbrev pub assess_inputs : Db → Job → Job → Result Error (Job × Db)
  assess_inputs s job seen = do
    (changed, first, t) ← observe_planning g s job seen
    next ← replan t changed first seen
    ok (take_evidence changed next seen, t)

  -- The part of `Observe` under `if !active(job.State) && observed.Evidence != nil`.
  unfoldable pub assess : Db → Job → Job → Result Error (Job × Db)
  unfolding replan
  assess s job seen =
      if not (active job.state) && raw_present seen.evidence
      then assess_inputs s job seen
      else ok (job, s)

  abbrev pub save_returning : Db → Job → Result Error (Job × Db)
  save_returning s job = do t ← save_job s job; ok (job, t)

  unfoldable pub observe_known : Db → Job → Job → Result Error (Job × Db)
  unfolding assess
  observe_known s job seen = do
    (next, t) ← assess s (refreshed job seen) seen
    save_returning t next

  unfoldable pub observe_new : Db → Job → Result Error (Job × Db)
  observe_new s seen = do
    (id, t) ← create_job s (new_job seen)
    ok (record (new_job seen) { id = id }, t)

  abbrev pub observe_found : Db → Job → Result Error Job → Result Error (Job × Db)
  observe_found s seen (ok job) = observe_known s job seen
  observe_found s seen (err not_found) = observe_new s seen
  observe_found s seen (err e) = err e

  unfoldable pub observe_body : Db → Job → Result Error (Job × Db)
  unfolding observe_known observe_new
  observe_body s seen =
      observe_found s seen (first_by_identity s seen.service seen.queue_id seen.download_id)

  unfoldable pub observe : Db → Job → Result Error Job × Db
  unfolding observe_body
  observe s seen = transaction g s (observe_body s seen)

  unfoldable pub set_plan : Db → ℕ → String → Raw → String → ℕ → Result Error (Unit {0}) × Db
  set_plan s id fingerprint plan guidance at =
      transaction g s
        (no_value g (modify_and_remember g s id (decide_plan fingerprint plan guidance at)))

  unfoldable pub start_body : Db → ℕ → ℕ → Result Error (Attempt × Db)
  start_body s id at = do
    job ← first_job s id
    reject (not (is_ready job.state) || not (is_no_action job.pending_action)) conflict
    number ← next_number (last_attempt s id)
    let attempt = started id number job.plan at
    t ← create_attempt s attempt
    u ← save_job t (set_running job at)
    ok (attempt, u)

  unfoldable pub start : Db → ℕ → ℕ → Result Error Attempt × Db
  unfolding start_body
  start s id at = transaction g s (start_body s id at)

  unfoldable pub update_attempt_body : Db → Attempt → Result Error (Unit {0} × Db)
  update_attempt_body s attempt = do
    previous ← first_attempt s attempt.job_id attempt.number
    reject (not (active previous.state)) conflict
    t ← save_attempt s (merge_attempt previous attempt)
    job ← first_job t attempt.job_id
    u ← save_job t (follow_attempt job attempt)
    ok (tt, u)

  unfoldable pub update_attempt : Db → Attempt → Result Error (Unit {0}) × Db
  unfolding update_attempt_body
  update_attempt s attempt = transaction g s (update_attempt_body s attempt)
