-- ===== src/Jobs/History.antt =====
-- pkgs/media-repair/internal/jobs/planning_history.go: remembering and recalling planning results.
use nix.Base.{
  ℕ, String, Bool, not, ◌&&◌, ◌||◌, ltb, str_eq, Result, ok, err, ◌>>=◌, >>=-eq-ok, ◌≡◌, arith,
  if◌then◌else◌,
}
use nix.Jobs.Model.{Error, not_found, Job, PlanningResult, raw_nonempty, State, is_observed}
use nix.Jobs.Database.{Gorm}

abbrev pub planning_result : Job → PlanningResult
planning_result job = record {
  job_id = job.id;
  fingerprint = job.planning_fingerprint;
  revision = job.revision;
  complete = not (is_observed job.state);
  attempts = job.planning_attempts;
  retry_at = job.retry_at;
  reason = job.reason;
  plan = job.plan;
}

abbrev pub already_planned : String
already_planned = "these inputs were already planned; request reconsideration to try again"

-- The job after `restorePlanning` found a result.
abbrev pub restored : Job → PlanningResult → Job
restored job result =
    let recalled = record job {
      planning_attempts = result.attempts;
      retry_at = result.retry_at;
      reason = result.reason;
    } in
    if result.complete
    then record recalled { state = State.blocked; reason = already_planned; plan = result.plan }
    else recalled

-- What the lookup of a remembered result makes of the job.
abbrev pub recall : Job → Result Error PlanningResult → Result Error Job
recall job (ok result) = ok (restored job result)
recall job (err not_found) = ok job
recall job (err e) = err e

module _ (g : Gorm) where
  open g use {Db, first_result, upsert_result}

  unfoldable pub remember_planning : Db → Job → Result Error Db
  remember_planning s job =
      if str_eq job.planning_fingerprint "" then ok s else upsert_result s (planning_result job)

  -- An operation that also remembers the job's planning result.
  abbrev pub modify_and_remember : Db → ℕ → (Job → Result Error Job) → Result Error (Job × Db)
  modify_and_remember s id decide = do
    job ← g.first_job s id
    next ← decide job
    t ← remember_planning s next
    u ← g.save_job t next
    ok (next, u)

  pub modify_and_remember-eq-ok :
      (s : Db) (id : ℕ) (decide : Job → Result Error Job) {next : Job} {u : Db}
      → modify_and_remember s id decide ≡ ok (next, u)
      → (job : Job) × (t : Db) × (g.first_job s id ≡ ok job)
        × (decide job ≡ ok next)
        × (remember_planning s next ≡ ok t)
        × (g.save_job t next ≡ ok u)
  modify_and_remember-eq-ok s id decide h =
      let (job, got, h1) = >>=-eq-ok (g.first_job s id) _ h in
      let (next, decided, h2) = >>=-eq-ok (decide job) _ h1 in
      let (t, kept, h3) = >>=-eq-ok (remember_planning s next) _ h2 in
      let (u, saved, h4) = >>=-eq-ok (g.save_job t next) _ h3 in
      (job, t, got, ground arith, ground arith, ground arith)

  -- The first assignment of a planning fingerprint, from stored evidence.
  abbrev pub bootstrap : Job → Job → Job
  bootstrap job observed = record job {
    planning_fingerprint =
        if str_eq observed.previous_planning_fingerprint ""
        then observed.planning_fingerprint
        else observed.previous_planning_fingerprint;
  }

  abbrev pub bootstrap_memory : Db → Job → Result Error Db
  bootstrap_memory s job =
      if not (is_observed job.state) || ltb 0 job.planning_attempts
      then remember_planning s job
      else ok s

  abbrev pub review_memory : Db → Job → Result Error Db
  review_memory s job =
      if not (is_observed job.state) && raw_nonempty job.plan then remember_planning s job else ok s

  abbrev pub adopt : Job → Job → Db → Result Error (Bool × Job × Db)
  adopt job observed t = ok (
    not (str_eq job.planning_fingerprint observed.planning_fingerprint),
    record job { planning_fingerprint = observed.planning_fingerprint },
    t,
  )

  -- `observePlanning` where the job had no planning fingerprint, and where it had one.
  abbrev pub observe_first : Db → Job → Job → Result Error (Bool × Job × Db)
  observe_first s job observed = do
    t ← bootstrap_memory s job
    u ← review_memory t job
    adopt job observed u

  abbrev pub observe_again : Db → Job → Job → Result Error (Bool × Job × Db)
  observe_again s job observed = do t ← review_memory s job; adopt job observed t

  unfoldable pub observe_planning : Db → Job → Job → Result Error (Bool × Job × Db)
  unfolding remember_planning
  observe_planning s job observed =
      if str_eq observed.planning_fingerprint ""
      then ok (not (str_eq job.source_fingerprint observed.source_fingerprint), job, s)
      else if str_eq job.planning_fingerprint ""
      then observe_first s (bootstrap job observed) observed
      else observe_again s job observed

  unfoldable pub restore_planning : Db → Job → Result Error Job
  restore_planning s job =
      if str_eq job.planning_fingerprint ""
      then ok job
      else recall job (first_result s job.id job.planning_fingerprint job.revision)
