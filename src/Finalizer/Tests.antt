-- ===== src/Finalizer/Tests.antt =====
-- The theorems on the finalizer at a concrete queue (internal/queuefinalize/finalizer.go).
use nix.Base.{
  ℕ, ◌≡◌, refl, some, none, ok, List, [], ◌∷◌, String, Bool, Result, ◌+◌, ◌≤◌, length, All,
  if◌then◌else◌, str_eq, ◌==◌,
}
use nix.Durable.{Disk, Json}
use nix.Durable.Memory.{
  memory_disk, memory_disk-DiskLaws, memory_json, memory_json-JsonLaws, no_files,
}
use nix.Repair.Removal.{Entry}
use nix.Finalizer.{
  FinalizerError, Record, Platform, complete, prepare, prepared_record, State, validate, same_entry,
}
use nix.Finalizer.Run.{Service, World, Outcome, run, finalize, judged, by_id, all_eligible}
use nix.Finalizer.Guarded.{IsGuarded}
use nix.Finalizer.Guarded.Passes.{run-IsGuarded}
use nix.Finalizer.Bounds.{run-removals_le}
use nix.Finalizer.Outcomes.{IsTrue, finalize-IsTrue}
use nix.Finalizer.Ended.{Calls}
use nix.Finalizer.Completing.{IsCompleted, complete-IsCompleted}

abbrev radarr : Platform
radarr = record { service = "radarr"; trim = λ s. s; print = λ n. if n == 7 then "7" else "0" }

abbrev film : Entry
film = record {
  queue_id = 7;
  download_id = "abc";
  subject_id = 3;
  status = "completed";
  tracked_download_status = "warning";
}

abbrev files : Disk FinalizerError
files = memory_disk FinalizerError Record

abbrev texts : Json FinalizerError Record Record
texts = memory_json FinalizerError Record

abbrev no_names : files.Fs → Result FinalizerError (List (String × Bool))
no_names s = ok []

-- A queue that shows the film, and a clock that ticks.
abbrev service : Service
service = record {
  Env = ℕ;
  read_queue = λ e. (ok (film ∷ []), e);
  remove = λ e id. (ok tt, e);
  now = λ e. (e, e + 1);
}

abbrev world : World radarr files texts no_names service
world = record { fs = no_files FinalizerError Record; env = 10; removals = [] }

run-IsGuarded_example :
    All
      (IsGuarded radarr files
        (memory_disk-DiskLaws FinalizerError Record)
        texts
        (memory_json-JsonLaws FinalizerError Record)
        no_names
        service
        (film ∷ [])
        (film ∷ []))
      (run radarr files texts no_names service (film ∷ []) 1 world).world.removals
run-IsGuarded_example =
    run-IsGuarded radarr files (memory_disk-DiskLaws FinalizerError Record) texts
      (memory_json-JsonLaws FinalizerError Record) no_names service (film ∷ []) 1 world (film ∷ [])
      refl refl

run-removals_le_example :
    length (run radarr files texts no_names service (film ∷ []) 1 world).world.removals ≤ 1
run-removals_le_example = run-removals_le radarr files texts no_names service (film ∷ []) 1 world

finalize-IsTrue_example :
    (o : Outcome) × ((finalize radarr files texts no_names service film world).0 ≡ ok o)
    × IsTrue radarr files texts no_names service film (film ∷ []) o
    × Calls radarr files texts no_names service film.queue_id o []
        (finalize radarr files texts no_names service film world).1.removals
unfolding run by_id all_eligible judged validate
finalize-IsTrue_example =
    finalize-IsTrue radarr files texts no_names service film world (film ∷ []) refl refl refl

abbrev prepared : files.Fs
prepared name = if str_eq name "queue-7.json" then some (prepared_record radarr film 5) else none

abbrev completed : files.Fs
completed name =
    if str_eq name "queue-7.json"
    then some (record (prepared_record radarr film 5) { state = State.completed; updated_at = 9 })
    else prepared name

complete-IsCompleted_example :
    IsCompleted radarr files
      (memory_disk-DiskLaws FinalizerError Record)
      texts
      (memory_json-JsonLaws FinalizerError Record)
      no_names
      completed
      film
    × (complete radarr files texts no_names completed film 12 ≡ ok completed)
    × (prepare radarr files texts no_names completed film 12 ≡ ok completed)
unfolding complete validate same_entry
complete-IsCompleted_example =
    complete-IsCompleted radarr files (memory_disk-DiskLaws FinalizerError Record) texts
      (memory_json-JsonLaws FinalizerError Record) no_names prepared film 9 12 tt {t = completed}
      refl refl refl
