-- ===== src/Jobs/Tests.antt =====
-- The theorems on the job store at concrete databases (pkgs/media-repair/internal/jobs).
use nix.Jobs.History.{observe_planning, restore_planning}
use nix.Jobs.Planning.Rebinding.{after, reconciled-distinct}
use nix.Jobs.Remembering.{observe-already_planned}
use nix.Jobs.ReadyPlans.{observe-ready}
use nix.Jobs.Planning.{
  start_removal, finish_planning, request_action, reconciled, decide_action, admit_action,
}
use nix.Base.{
  ℕ, ◌≡◌, ◌≢◌, ap, refl, none, some, ok, err, List, [], ◌∷◌, arith, true, get_elem?, Result,
  if◌then◌else◌, Option, str_eq, Result, Option,
}
use nix.Jobs.Model.{
  Error, Job, State, Service, Action, is_ready, PlanningResult, PlanningResult, is_ready,
}
use nix.Jobs.Memory.{Memory, memory, no_rows}
use nix.Jobs.Memory.Laws.{memory_laws}
use nix.Jobs.Queue.{QueueKey, match_queue, queue_key, scan_queue}
use nix.Jobs.Queue.Match.{
  match_queue_lem, match_queue-in_range, exact_index, download_indices, only, prefer, Follows,
}
use nix.Jobs.Consistency.{IsConsistent, FewAttempts}
use nix.Jobs.Consistency.History.{Call, after_calls, after_calls-IsConsistent}
use nix.Jobs.Exclusion.{start-excludes, request_action-invalidates}
use nix.Jobs.Store.{
  start, started, observe, observe_body, observe_known, assess, observe, observe_body,
  observe_known, assess,
}

abbrev ready_job : Job
ready_job = record {
  id = 1;
  service = Service.radarr;
  queue_id = 7;
  download_id = "abc";
  title = "film";
  source_fingerprint = "s1";
  planning_fingerprint = "p1";
  previous_planning_fingerprint = "";
  planning_change = "";
  stable_since = 1;
  evidence = some "{}";
  collection_error = "";
  plan = some "plan";
  guidance = "";
  runtime_tolerance_ms = 0;
  retry_at = 0;
  planning_attempts = 1;
  pending_action = Action.no_action;
  revision = 3;
  in_queue = true;
  state = State.ready;
  reason = "";
  updated_at = 1;
}

abbrev one_job : Memory
one_job = record no_rows { top = 1; jobs = λ i. some ready_job }

one_job-IsConsistent : IsConsistent memory one_job
one_job-IsConsistent = record {
  jobs_repaired = λ id row repairing. absurd (ground (arith, row, repairing));
  attempts_owned = λ id n row repairing. absurd (ground (arith, row));
  attempts_kept = λ id n row. absurd (ground (arith, row));
  attempts_numbered = λ id n row. absurd (ground (arith, row));
  removals_wait = λ id row repairing. absurd (ground (arith, row, repairing));
}

one_job-FewAttempts : (id : ℕ) → FewAttempts memory one_job id
one_job-FewAttempts id n a row = absurd (ground (arith, row))

abbrev two_calls : List Call
two_calls = Call.began 1 10 ∷ Call.observed ready_job ∷ []

after_calls-IsConsistent_example : IsConsistent memory (after_calls memory one_job two_calls)
after_calls-IsConsistent_example =
    after_calls-IsConsistent memory memory_laws one_job two_calls (one_job-FewAttempts 1, (tt, tt))
      one_job-IsConsistent

abbrev rows : List QueueKey
rows =
    record { queue_id = 5; download_id = "x" } ∷ record { queue_id = 9; download_id = "abc" } ∷ []

match_queue_lem_example :
    match_queue (queue_key ready_job) rows
    ≡ prefer
        (exact_index (queue_key ready_job) rows 0)
        (only (download_indices (queue_key ready_job) rows 0))
match_queue_lem_example = match_queue_lem (queue_key ready_job) rows

match_queue-in_range_example :
    (c : QueueKey) × (get_elem? rows 1 ≡ some c) × Follows (queue_key ready_job) c
unfolding match_queue scan_queue
match_queue-in_range_example = match_queue-in_range (queue_key ready_job) rows 1 refl

start-excludes_example :
    ((e : Error) × (start memory (start memory one_job 1 10).1 1 20
        ≡ (err e, (start memory one_job 1 10).1)))
    × ((e : Error) × (start_removal memory (start memory one_job 1 10).1 1 20
          ≡ (err e, (start memory one_job 1 10).1)))
    × ((e : Error) × (finish_planning memory (start memory one_job 1 10).1 ready_job
          ≡ (err e, (start memory one_job 1 10).1)))
unfolding start
start-excludes_example =
    start-excludes memory memory_laws one_job 1 10 20 ready_job
      {attempt = started 1 1 (some "plan") 10} {t = (start memory one_job 1 10).1} refl refl

request_action-invalidates_example :
    (e : Error) × (finish_planning memory
        (request_action memory one_job 1 Action.reconsider "again" 0 10).1
        ready_job
      ≡ (err e, (request_action memory one_job 1 Action.reconsider "again" 0 10).1))
unfolding request_action decide_action admit_action
request_action-invalidates_example =
    request_action-invalidates memory memory_laws one_job Action.reconsider "again" 0 10 ready_job
      ready_job {t = (request_action memory one_job 1 Action.reconsider "again" 0 10).1} refl refl
      (omega arith) refl

abbrev value : Result Error Job → Job
value (ok job) = job
value (err e) = ready_job

observe-ready_example :
    (is_ready ready_job.state ≡ true)
    × ((value (observe memory one_job ready_job).0).plan ≡ ready_job.plan)
unfolding observe observe_body observe_known assess observe_planning restore_planning
observe-ready_example =
    observe-ready memory one_job ready_job ready_job (value (observe memory one_job ready_job).0)
      {t = (observe memory one_job ready_job).1} refl refl refl

abbrev new_inputs : Job
new_inputs = record ready_job { planning_fingerprint = "p2"; planning_change = "file changed" }

abbrev remembered : PlanningResult
remembered = record {
  job_id = 1;
  fingerprint = "p2";
  revision = 3;
  complete = true;
  attempts = 2;
  retry_at = 0;
  reason = "no safe repair";
  plan = some "old plan";
}

abbrev one_result : Memory
one_result = record one_job { results = λ i f r. if str_eq f "p2" then some remembered else none }

observe-already_planned_example :
    ((value (observe memory one_result new_inputs).0).state ≡ State.blocked)
    × ((value (observe memory one_result new_inputs).0).plan ≡ some "old plan")
unfolding observe observe_body observe_known assess observe_planning restore_planning
observe-already_planned_example =
    observe-already_planned memory memory_laws one_result ready_job new_inputs
      (value (observe memory one_result new_inputs).0) remembered
      {t = (observe memory one_result new_inputs).1}
      (record { idle = refl; live = refl; collected = refl; fingerprinted = refl; known = refl })
      refl refl refl refl refl

abbrev value_of : Result Error (Option Job) → Job
value_of (ok (some job)) = job
value_of _ = ready_job

abbrev moved_rows : List QueueKey
moved_rows = record { queue_id = 8; download_id = "abc" } ∷ []

abbrev bound_job : Job
bound_job = record ready_job { queue_id = 8 }

abbrev second_job : Job
second_job = record ready_job { id = 2; queue_id = 8 }

-- Two jobs of the same download, one of them bound to the row that is there.
abbrev two_jobs : List Job
two_jobs = ready_job ∷ second_job ∷ []

-- Both jobs lead to the row that is there, which is the second's.
reconciled-distinct_example : queue_key (after ready_job none) ≢ queue_key (after second_job none)
unfolding reconciled match_queue scan_queue
reconciled-distinct_example =
    reconciled-distinct two_jobs moved_rows 9 0 1 ready_job second_job {x = none} {y = none} refl
      refl (λ h. ground (arith, h)) (λ h. ground (arith, ap (λ k. k.queue_id) h)) refl refl
