-- ===== src/Jobs/Planning.antt =====
-- pkgs/media-repair/internal/jobs/planning.go: operator requests, planning answers, removal and the
-- reconciliation of jobs with the download queue.
pub mod Rebinding
use nix.Base.{
  ℕ, ◌+◌, ◌*◌, String, Bool, true, false, not, ◌&&◌, ◌||◌, Option, some, none, List, [], ◌∷◌, map,
  ◌==◌, str_eq, inc64, get_elem?, Result, ok, err, ◌>>=◌, ◌>>◌, reject, if◌then◌else◌,
}
use nix.Jobs.Model.{
  Error, conflict, other, Service, Job, Action, State, active, same_state, is_imported, is_removed,
  is_ready, is_blocked, is_running, is_importing, is_reconsider, is_delete, is_no_action, minute,
}
use nix.Jobs.Queue.{QueueKey, queue_key, match_queue}
use nix.Jobs.Database.{Gorm, transaction, modify_job, no_value}
use nix.Jobs.History.{modify_and_remember}

-- The job that the user saw is not the one that is stored.
abbrev pub stale : Option Job → Job → Bool
stale none job = false
stale (some expected) job =
    not (job.revision == expected.revision)
    || (not (str_eq job.source_fingerprint expected.source_fingerprint)
        || (not (same_state job.state expected.state)
            || (not job.in_queue
                || (not (is_no_action job.pending_action)
                    || not (str_eq job.collection_error "")))))

abbrev pub requested : Job → Action → String → ℕ → ℕ → Job
requested job action guidance tolerance at =
    let pending = record job {
      revision = inc64 job.revision;
      pending_action = action;
      reason = "";
      retry_at = 0;
      updated_at = at;
    } in
    if is_reconsider action
    then record pending {
      guidance = guidance;
      runtime_tolerance_ms = tolerance;
      planning_attempts = 0;
      state = State.observed;
    }
    else pending

-- What `FinishPlanning` takes from the planned copy.
abbrev pub answered : Job → Job → Job
answered job planned =
    let next = record job {
      plan = planned.plan;
      state = planned.state;
      reason = planned.reason;
      retry_at = planned.retry_at;
      planning_attempts = planned.planning_attempts;
      updated_at = planned.updated_at;
    } in
    if is_ready planned.state || is_blocked planned.state
    then record next { pending_action = Action.no_action }
    else next

-- What `FinishRemoval` writes; the failure is given by its text.
abbrev pub after_removal : Job → Option String → ℕ → Job
after_removal job none at = record job {
  updated_at = at;
  state = State.removed;
  in_queue = false;
  pending_action = Action.no_action;
  reason = "queue tracking removed; media retained";
}
after_removal job (some failure) at = record job {
  updated_at = at;
  state = State.blocked;
  reason = failure;
  retry_at = at + 5 * minute;
}

abbrev pub rebound : Job → QueueKey → Job
rebound job key =
    let next = record job { queue_id = key.queue_id; in_queue = true } in
    if is_removed job.state
    then record next { state = State.blocked; reason = "queue entry is present again" }
    else next

abbrev pub departed : Job → ℕ → Job
departed job at =
    let next = record job { in_queue = false; updated_at = at } in
    if not (active job.state) && not (is_imported job.state)
    then record next {
      state = State.removed;
      reason = "no longer in the queue";
      pending_action = Action.no_action;
    }
    else next

abbrev pub unchanged_entry : Job → QueueKey → Bool
unchanged_entry job key =
    (job.queue_id == key.queue_id) && (job.in_queue && not (is_removed job.state))

-- `owner != index`, where the source compares with the -1 of no match.
abbrev pub owned_by : Option ℕ → ℕ → Bool
owned_by none index = false
owned_by (some owner) index = owner == index

-- A round of `ReconcileQueue` for a job that `MatchQueue` found at an index, which the source reads
-- without a test, and for one that it did not find.
abbrev pub rebind : List QueueKey → ℕ → Job → Option QueueKey → Result Error (Option Job)
rebind previous index job none = err (other "index out of range")
rebind previous index job (some key) = do
  owner ← match_queue key previous
  ok (
      if not (owned_by owner index) || unchanged_entry job key
      then none
      else some (rebound job key))

abbrev pub follow_queue :
    List QueueKey → List QueueKey → ℕ → ℕ → Job → Option ℕ → Result Error (Option Job)
follow_queue present previous at index job (some k) =
    rebind previous index job (get_elem? present k)
follow_queue present previous at index job none =
    ok (if job.in_queue then some (departed job at) else none)

-- One round of `ReconcileQueue`: the job's new row, or `none` where it is left as it is.
unfoldable pub reconciled : List QueueKey → List QueueKey → ℕ → ℕ → Job → Result Error (Option Job)
reconciled present previous at index job = do
  matched ← match_queue (queue_key job) present
  follow_queue present previous at index job matched

-- The guards of `requestAction` after the comparison with what the user saw, then the request.
unfoldable pub admit_action : Action → String → ℕ → ℕ → Job → Result Error Job
admit_action action guidance tolerance at job = do
  reject
      (active job.state
        || (is_removed job.state || (not (is_reconsider action) && not (is_delete action))))
      conflict
  reject (is_reconsider action && is_imported job.state) conflict
  ok (requested job action guidance tolerance at)

unfoldable pub decide_action : Action → String → ℕ → ℕ → Option Job → Job → Result Error Job
decide_action action guidance tolerance at expected job = do
  reject (stale expected job) conflict
  admit_action action guidance tolerance at job

-- The guards of `FinishPlanning`, then the answer.
unfoldable pub decide_answer : Job → Job → Result Error Job
decide_answer planned job = do
  reject
      (not (job.revision == planned.revision)
        || (not (str_eq job.source_fingerprint planned.source_fingerprint)
            || (active job.state || (is_removed job.state || is_imported job.state))))
      conflict
  ok (answered job planned)

-- The guard of `FinishRemoval`, then its result.
unfoldable pub decide_removal : Job → Option String → ℕ → Job → Result Error Job
decide_removal asked failure at job = do
  reject (not (job.revision == asked.revision) || not (is_delete job.pending_action)) conflict
  ok (after_removal job failure at)

-- The guard of `StartRemoval`, then the new state.
unfoldable pub decide_removing : ℕ → Job → Result Error Job
decide_removing at job = do
  reject (not (is_delete job.pending_action) || (is_running job.state || is_importing job.state))
      conflict
  ok (record job { state = State.removing; updated_at = at })

module _ (g : Gorm) where
  open g use {Db, first_job, save_job, find_jobs}

  unfoldable pub request_action : Db → ℕ → Action → String → ℕ → ℕ → Result Error (Unit {0}) × Db
  request_action s id action guidance tolerance at =
      transaction g s
        (no_value g (modify_job g s id (decide_action action guidance tolerance at none)))

  unfoldable pub request_reconsideration : Db → Job → String → ℕ → ℕ → Result Error (Unit {0}) × Db
  request_reconsideration s expected guidance tolerance at = transaction g s (
      no_value g (
        modify_job g s expected.id
          (decide_action Action.reconsider guidance tolerance at (some expected))))

  unfoldable pub finish_planning : Db → Job → Result Error (Unit {0}) × Db
  finish_planning s planned =
      transaction g s (no_value g (modify_and_remember g s planned.id (decide_answer planned)))

  unfoldable pub finish_removal : Db → Job → Option String → ℕ → Result Error (Unit {0}) × Db
  finish_removal s asked failure at =
      transaction g s (no_value g (modify_job g s asked.id (decide_removal asked failure at)))

  unfoldable pub start_removal : Db → ℕ → ℕ → Result Error Job × Db
  start_removal s id at = transaction g s (modify_job g s id (decide_removing at))

  abbrev pub save_if_changed : Db → Option Job → Result Error Db
  save_if_changed s none = ok s
  save_if_changed s (some job) = save_job s job

  unfoldable pub reconcile_jobs :
      List QueueKey → List QueueKey → ℕ → ℕ → List Job → Db → Result Error Db
  unfolding reconciled
  reconcile_jobs present previous at index [] s = ok s
  reconcile_jobs present previous at index (job ∷ rest) s = do
    change ← reconciled present previous at index job
    t ← save_if_changed s change
    reconcile_jobs present previous at (index + 1) rest t

  unfoldable pub reconcile_queue_body :
      Db → Service → List QueueKey → ℕ → Result Error (Unit {0} × Db)
  unfolding reconcile_jobs
  reconcile_queue_body s service present at = do
    jobs ← find_jobs s service
    t ← reconcile_jobs present (map queue_key jobs) at 0 jobs s
    ok (tt, t)

  unfoldable pub reconcile_queue : Db → Service → List QueueKey → ℕ → Result Error (Unit {0}) × Db
  unfolding reconcile_queue_body
  reconcile_queue s service present at = transaction g s (reconcile_queue_body s service present at)
