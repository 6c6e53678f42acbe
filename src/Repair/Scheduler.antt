-- ===== src/Repair/Scheduler.antt =====
-- pkgs/media-repair/internal/repair/scheduler.go: the passes of the scheduler. The clock, the service and
-- the switch that disables repairs are `Outside`. Logging is left out, and so is the context's
-- cancellation.
use nix.Base.{
  ℕ, zero, suc, ◌*◌, ◌+◌, String, Bool, true, false, not, ◌&&◌, ◌||◌, Option, none, some, List, [],
  ◌∷◌, ltb, str_eq, str_append, min, inc64, Result, ok, err, if◌then◌else◌,
}
use nix.Jobs.Model.{
  Error, joined, is_conflict, error_text, Job, Action, State, Service, raw_nonempty, is_running,
  is_importing, is_observed, is_ready, is_removed, is_delete, is_no_action, minute, hour,
}
use nix.Jobs.Database.{Gorm}
use nix.Jobs.Queue.{QueueKey, queue_key, same_key}
use nix.Jobs.Store as Store
use nix.Jobs.Planning.{
  reconcile_queue, request_action, start_removal, finish_removal, finish_planning,
}
use nix.Repair.World.{
  Outside, World, Exec, Decision, ◌>>=◌, ◌>>◌, pure, give, outcome, on_db, reading, outside, asking,
  join_errors,
}
use nix.Repair.Engine.{run, error_of}

-- The loop of `planningDelay`, from `count` on; a count below `attempt` is one more doubling.
unfoldable pub doubled : ℕ → ℕ → ℕ
doubled zero delay = delay
doubled (suc more) delay =
    let rest = doubled more (delay * 2) in if ltb delay (6 * hour) then rest else delay

unfoldable pub planning_delay : ℕ → ℕ
unfolding doubled
planning_delay zero = min (5 * minute) (6 * hour)
planning_delay (suc more) = min (doubled more (5 * minute)) (6 * hour)

-- The job that `plan` hands to `FinishPlanning`.
abbrev pub judged : Job → Result Error Decision → Job
judged job (err e) = record job {
  reason = str_append "planning: " (error_text e);
  retry_at = job.updated_at + planning_delay job.planning_attempts;
}
judged job (ok decision) = record job {
  plan = decision.content;
  reason = decision.reason;
  state = if decision.repair then State.ready else State.blocked;
}

abbrev pub attempted : Job → ℕ → Job
attempted job at = record job { planning_attempts = inc64 job.planning_attempts; updated_at = at }

-- `eligible[key]`
unfoldable pub is_eligible : List QueueKey → QueueKey → Bool
is_eligible [] key = false
is_eligible (k ∷ keys) key = same_key k key || is_eligible keys key

-- One job of `requestCompletedRemovals` that the loop passes over.
abbrev pub is_passed_over : List QueueKey → Job → Bool
is_passed_over complete job =
    not (is_eligible complete (queue_key job))
    || (not (is_no_action job.pending_action) || is_removed job.state)

abbrev pub unless_conflict {ℓ} : {A : Type ℓ} → Result Error A → Result Error (Unit {0})
unless_conflict (ok a) = ok tt
unless_conflict (err e) = if is_conflict e then ok tt else err e

-- The failures of a pass, joined in the order in which they came.
abbrev pub join_failure :
    Result Error (Unit {0}) → Result Error (Unit {0}) → Result Error (Unit {0})
join_failure (ok _) rest = rest
join_failure (err e) (ok _) = err e
join_failure (err e) (err f) = err (joined e f)

module _ (g : Gorm) (o : Outside) (name : Service) where
  unfoldable pub plan : Job → Exec (World g o) (Unit {0})
  unfolding finish_planning
  plan job = do
    decision ← outcome (outside (λ e. o.plan e job))
    at ← asking o.now
    stored ← outcome (on_db (λ s. finish_planning g s (judged (attempted job at) decision)))
    give (join_errors (error_of decision) stored)

  -- `Store.List`; `find_jobs` stands for the query with and without its order by identifier.
  abbrev pub list : Exec (World g o) (List Job)
  list = reading (λ s. g.find_jobs s name)

  -- The loop of `observe` over the jobs observed.
  unfoldable pub store_observed : List Job → Exec (World g o) (Unit {0})
  store_observed [] = pure tt
  store_observed (job ∷ rest) = do
    at ← asking o.now
    current ← on_db (λ s. Store.observe g s (record job { service = name; updated_at = at }))
    store_observed rest

  unfoldable pub request_removals : List QueueKey → List Job → Exec (World g o) (Unit {0})
  request_removals complete [] = pure tt
  request_removals complete (job ∷ rest) =
      let later = request_removals complete rest in
      if is_passed_over complete job then later else (do
        at ← asking o.now
        asked ← outcome (on_db (λ s. request_action g s job.id Action.delete "" 0 at))
        give (unless_conflict asked)
        later)

  abbrev pub nonempty_keys : List QueueKey → Bool
  nonempty_keys [] = false
  nonempty_keys (k ∷ ks) = true

  unfoldable pub request_completed_removals : List QueueKey → Exec (World g o) (Unit {0})
  unfolding request_removals
  request_completed_removals complete = do
    disabled ← outside o.disabled
    if disabled || not (nonempty_keys complete)
        then pure tt
        else (do listed ← list; request_removals complete listed)

  unfoldable pub observe : Exec (World g o) (Unit {0})
  unfolding store_observed request_completed_removals
  observe = do
    previous ← list
    observed ← outside (λ e. o.observe e previous)
    at ← asking o.now
    on_db (λ s. reconcile_queue g s name observed.queue at)
    store_observed observed.jobs
    request_completed_removals observed.complete

  -- The last test of `advanceJob`, in which `Service.Ready` is only asked if the rest holds.
  unfoldable pub repair_if_ready : Job → Bool → Exec (World g o) (Unit {0})
  repair_if_ready job disabled =
      if is_ready job.state && (str_eq job.collection_error "" && not disabled)
      then (do ready ← asking (λ e. o.is_ready e job); if ready then run g o job.id else pure tt)
      else pure tt

  -- `advanceJob`, once the job's retry time has come.
  unfoldable pub advance_due : Job → Bool → Exec (World g o) (Unit {0})
  unfolding plan repair_if_ready
  advance_due job disabled =
      if is_delete job.pending_action
      then pure tt
      else if is_observed job.state && (str_eq job.collection_error "" && raw_nonempty job.evidence)
      then plan job
      else repair_if_ready job disabled

  -- `advanceJob` on a job that is not under repair.
  unfoldable pub advance_idle : Job → Bool → Exec (World g o) (Unit {0})
  unfolding advance_due
  advance_idle job disabled =
      if not job.in_queue
      then pure tt
      else (do at ← asking o.now; if ltb at job.retry_at then pure tt else advance_due job disabled)

  unfoldable pub advance_job : Job → Bool → Exec (World g o) (Unit {0})
  unfolding advance_idle
  advance_job job disabled =
      if is_importing job.state || is_running job.state
      then run g o job.id
      else advance_idle job disabled

  unfoldable pub advance_jobs : List Job → Bool → Exec (World g o) (Unit {0})
  unfolding advance_job
  advance_jobs [] disabled = pure tt
  advance_jobs (job ∷ rest) disabled = do
    moved ← outcome (advance_job job disabled)
    others ← outcome (advance_jobs rest disabled)
    give (join_failure (unless_conflict moved) others)

  unfoldable pub advance : Exec (World g o) (Unit {0})
  unfolding advance_jobs
  advance = do listed ← list; disabled ← outside o.disabled; advance_jobs listed disabled

  abbrev pub failure_text {ℓ} : {A : Type ℓ} → Result Error A → Option String
  failure_text (ok a) = none
  failure_text (err e) = some (error_text e)

  -- The removal of one job, which `StartRemoval` handed back.
  unfoldable pub remove_job : Job → Exec (World g o) (Unit {0})
  remove_job requested = do
    removed ← outcome (outside (λ e. o.remove e requested))
    at ← asking o.now
    stored ← outcome (on_db (λ s. finish_removal g s requested (failure_text removed) at))
    give (join_errors (error_of removed) stored)

  -- What the loop does with the answer of `StartRemoval`, where `rest` goes on from the failures so
  -- far: a conflict skips the job, and another error ends the pass with that error alone.
  unfoldable pub after_start :
      Result Error (Unit {0})
      → Result Error Job
      → (Result Error (Unit {0}) → Exec (World g o) (Unit {0}))
      → Exec (World g o) (Unit {0})
  unfolding remove_job
  after_start failures (err e) rest = if is_conflict e then rest failures else give (err e)
  after_start failures (ok requested) rest = do
    removed ← outcome (remove_job requested)
    rest (join_failure failures removed)

  -- The clock is read only for a job whose removal is requested.
  unfoldable pub remove_jobs : List Job → Result Error (Unit {0}) → Exec (World g o) (Unit {0})
  unfolding after_start
  remove_jobs [] failures = give failures
  remove_jobs (job ∷ rest) failures =
      let later : Result Error (Unit {0}) → Exec (World g o) (Unit {0}) = remove_jobs rest in
      if not (is_delete job.pending_action) then later failures else (do
        now ← asking o.now
        if ltb now job.retry_at then later failures else (do
          at ← asking o.now
          requested ← outcome (on_db (λ s. start_removal g s job.id at))
          after_start failures requested later))

  unfoldable pub remove_requested : Exec (World g o) (Unit {0})
  unfolding remove_jobs
  remove_requested = do listed ← list; remove_jobs listed (ok tt)
