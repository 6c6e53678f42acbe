-- ===== src/Repair/Tests.antt =====
-- The theorems on the repair engine and the scheduler at concrete worlds (internal/repair).
use nix.Base.{ℕ, ◌≡◌, refl, some, ok, [], arith, true, false, min, ◌*◌, ◌^◌, ◌+◌}
use nix.Jobs.Model.{Job, State, Service, Action, minute, hour}
use nix.Jobs.Memory.{Memory, memory, no_rows}
use nix.Jobs.Memory.Laws.{memory_laws}
use nix.Jobs.Consistency.{FewAttempts}
use nix.Jobs.Model.{Error}
use nix.Jobs.Queue.{queue_key, match_queue, scan_queue}
use nix.Repair.Removal.{
  Entry, QueueRemover, entry_key, selected, remove_tracking, remove_entry, confirm_removed,
  eligible, is_present,
}
use nix.Repair.Removing.{IsRemoved, remove_tracking-IsRemoved}
use nix.Base.{List, ◌∷◌, Bool, false, Option, Result, map, if◌then◌else◌}
use nix.Repair.World.{Outside, World}
use nix.Repair.Engine.{run}
use nix.Repair.Once.{IsSafe, run-IsSafe, run-resumes}
use nix.Repair.Disabled.{advance_job-disabled}
use nix.Repair.Scheduler.{advance_job, planning_delay}
use nix.Repair.Delays.{planning_delay_lem}

abbrev ready_job : Job
ready_job = record {
  id = 1;
  service = Service.radarr;
  queue_id = 7;
  download_id = "abc";
  title = "film";
  source_fingerprint = "s1";
  planning_fingerprint = "p1";
  previous_planning_fingerprint = "";
  planning_change = "";
  stable_since = 1;
  evidence = some "{}";
  collection_error = "";
  plan = some "plan";
  guidance = "";
  runtime_tolerance_ms = 0;
  retry_at = 0;
  planning_attempts = 1;
  pending_action = Action.no_action;
  revision = 3;
  in_queue = true;
  state = State.ready;
  reason = "";
  updated_at = 1;
}

-- A clock that ticks, a repair that works and a service that takes every import.
abbrev helpful : Outside
helpful = record {
  Env = ℕ;
  now = λ e. (e, e + 1);
  repair = λ e job attempt.
      (ok (record { output_path = "/out"; request = some "{}"; history_id_before = 5 }), e);
  submit = λ e request. (ok 77, e);
  check_import = λ e attempt. (ok (record { receipt = some "done"; failure = "" }), e);
  observe = λ e jobs. (ok (record { jobs = []; queue = []; complete = [] }), e);
  plan = λ e job. (ok (record { content = some "plan"; repair = true; reason = "" }), e);
  is_ready = λ e job. (true, e);
  remove = λ e job. (ok tt, e);
  disabled = λ e. (ok false, e);
}

abbrev world : Memory → World memory helpful
world s = record { db = s; env = 100; submissions = [] }

abbrev one_job : Memory
one_job = record no_rows { top = 1; jobs = λ i. some ready_job }

abbrev busy_job : Job
busy_job = record ready_job { state = State.importing }

abbrev one_busy : Memory
one_busy = record no_rows { top = 1; jobs = λ i. some busy_job }

one_job-FewAttempts : (id : ℕ) → FewAttempts memory one_job id
one_job-FewAttempts id n a row = absurd (ground (arith, row))

run-IsSafe_example : IsSafe (run memory helpful 1 (world one_job)).1
run-IsSafe_example =
    run-IsSafe memory memory_laws helpful 1 (world one_job) (one_job-FewAttempts 1)
      (record { once = tt; known = tt; intended = tt })

run-resumes_example : (run memory helpful 1 (world one_busy)).1.submissions ≡ []
run-resumes_example = run-resumes memory memory_laws helpful 1 (world one_busy) busy_job refl refl

advance_job-disabled_example :
    (advance_job memory helpful Service.radarr ready_job true (world one_job)).1.submissions ≡ []
advance_job-disabled_example =
    advance_job-disabled memory memory_laws helpful Service.radarr ready_job (world one_job) refl

planning_delay_lem_example : planning_delay 4 ≡ min (5 * minute * 2 ^ 3) (6 * hour)
planning_delay_lem_example = planning_delay_lem 3

abbrev entry : Entry
entry = record {
  queue_id = 7;
  download_id = "abc";
  subject_id = 3;
  status = "completed";
  tracked_download_status = "warning";
}

-- A queue with one entry until it is removed; the environment says whether it was.
abbrev one_entry : QueueRemover
one_entry = record {
  Env = Bool;
  removal_queue = λ e. (ok (if e then [] else entry ∷ []), e);
  finalize_queue = λ e id. (ok tt, true);
}

remove_tracking-IsRemoved_example :
    (entries : List Entry) × (index : Option ℕ) × (◌≡◌ {A = Result Error (List Entry)}
      (ok (entry ∷ []))
      (ok entries))
    × (match_queue (queue_key ready_job) (map entry_key entries) ≡ ok index)
    × ((chosen : Entry)
        → selected one_entry (λ s. s) entries index ≡ some chosen
        → IsRemoved one_entry (λ s. s) ready_job chosen false)
unfolding remove_tracking remove_entry confirm_removed eligible is_present match_queue scan_queue
remove_tracking-IsRemoved_example =
    remove_tracking-IsRemoved one_entry (λ s. s) ready_job false refl
