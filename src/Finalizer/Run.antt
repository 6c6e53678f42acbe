-- ===== src/Finalizer/Run.antt =====
-- pkgs/media-repair/internal/queuefinalize/finalizer.go: a pass of the finalizer over the candidates. The
-- service and the clock are a parameter, whose state is `Env`. The calls that remove an entry are kept
-- beside that state, the latest first, each with the files at that moment.
use nix.Base.{
  ℕ, suc, String, Bool, true, not, ◌&&◌, ◌||◌, Option, none, some, List, [], ◌∷◌, ltb, ◌==◌,
  is_none, Result, ok, err, ◌>>◌, reject, if◌then◌else◌,
}
use nix.Durable.{Disk, Json}
use nix.Repair.Removal.{Entry, eligible}
use nix.Finalizer.{
  FinalizerError, Record, Platform, is_prepared, same_entry, sort, prepare, complete, list_records,
  not_configured, ineligible, invalid_queue, duplicate_id, no_outcome,
}

pub record Service : Type 1 where
  pub Env : Type 0
  pub read_queue : Env → Result FinalizerError (List Entry) × Env
  pub remove : Env → ℕ → Result FinalizerError (Unit {0}) × Env
  pub now : Env → ℕ × Env

pub data Outcome : Type 0 where
  finalized already_absent identity_changed : Outcome

pub record Report : Type 0 where
  pub finalized : ℕ
  pub reconciled : ℕ

abbrev pub nothing : Report
nothing = record { finalized = 0; reconciled = 0 }

abbrev pub Outcomes : Type 0
Outcomes = List (ℕ × Outcome)

abbrev pub lookup_outcome : ℕ → Outcomes → Option Outcome
lookup_outcome id [] = none
lookup_outcome id ((key, o) ∷ rest) = if key == id then some o else lookup_outcome id rest

-- `byID`
abbrev pub lookup : ℕ → List Entry → Option Entry
lookup id [] = none
lookup id (entry ∷ rest) = if entry.queue_id == id then some entry else lookup id rest

unfoldable pub by_id : List Entry → List Entry → Result FinalizerError (List Entry)
by_id seen [] = ok seen
by_id seen (entry ∷ rest) =
    let others = by_id (entry ∷ seen) rest in
    do
      reject (entry.queue_id == 0) invalid_queue
      reject (not (is_none (lookup entry.queue_id seen))) (duplicate_id entry.queue_id)
      others

unfoldable pub all_eligible : (String → String) → List Entry → Bool
all_eligible trim [] = true
all_eligible trim (entry ∷ rest) = eligible trim entry && all_eligible trim rest

module _ (p : Platform) (d : Disk FinalizerError) (json : Json FinalizerError Record d.Bytes)
    (read_dir : d.Fs → Result FinalizerError (List (String × Bool))) (v : Service) where
  pub record World : Type 0 where
    pub fs : d.Fs
    pub env : v.Env
    pub removals : List (ℕ × d.Fs)

  -- What a pass returns: a report, the outcomes and maybe an error.
  pub record Pass : Type 0 where
    pub report : Report
    pub outcomes : Outcomes
    pub problem : Option FinalizerError
    pub world : World

  abbrev pub fails : World → FinalizerError → Pass
  fails w e = record { report = nothing; outcomes = []; problem = some e; world = w }

  -- A call that returns an error only, and the next one if it succeeded.
  abbrev pub Done : Type 0
  Done = Result FinalizerError (Unit {0}) × World

  abbrev pub after : Done → (World → Done) → Done
  after (err e, w) next = (err e, w)
  after (ok u, w) next = next w

  -- A store operation at the clock's time.
  abbrev pub saved : World → Result FinalizerError d.Fs → Done
  saved w (err e) = (err e, w)
  saved w (ok t) = (ok tt, record w { fs = t })

  abbrev pub stored : (d.Fs → ℕ → Result FinalizerError d.Fs) → World → Done
  stored operation w =
      let (at, env) = v.now w.env in saved (record w { env = env }) (operation w.fs at)

  -- `run`: the prepared records whose entry has left the queue.
  abbrev pub reconciled_as : Pass → Done → Pass
  reconciled_as pass (err e, w) = record pass { problem = some e; world = w }
  reconciled_as pass (ok u, w) = record pass {
    report = record pass.report { reconciled = suc pass.report.reconciled };
    world = w;
  }

  unfoldable pub reconcile_one : List Entry → Record → Pass → Pass
  unfolding complete
  reconcile_one current r pass =
      if not (is_prepared r.state) || not (is_none (lookup r.entry.queue_id current))
      then pass
      else reconciled_as pass (stored (λ s at. complete p d json read_dir s r.entry at) pass.world)

  unfoldable pub reconcile : List Entry → List Record → Pass → Pass
  unfolding reconcile_one
  reconcile current [] pass = pass
  reconcile current (r ∷ rest) pass =
      let others = reconcile current rest (reconcile_one current r pass) in
      if not (is_none pass.problem) then pass else others

  -- `run`: what to do with a candidate, where `finalized` stands for its removal.
  unfoldable pub judged : Entry → Option Entry → Outcome
  unfolding same_entry eligible
  judged candidate none = already_absent
  judged candidate (some observed) =
      if not (same_entry observed candidate) || not (eligible p.trim observed)
      then identity_changed
      else Outcome.finalized

  abbrev pub remove_call : ℕ → World → Done
  remove_call id w =
      let (answer, env) = v.remove w.env id in
      (answer, record w { env = env; removals = (id, w.fs) ∷ w.removals })

  unfoldable pub remove_recorded : Entry → World → Done
  unfolding prepare complete
  remove_recorded candidate w =
      after
        (after (stored (λ s at. prepare p d json read_dir s candidate at) w)
          (remove_call candidate.queue_id))
        (stored (λ s at. complete p d json read_dir s candidate at))

  abbrev pub finalized_as : Entry → Pass → Done → Pass
  finalized_as candidate pass (err e, w) = record pass { problem = some e; world = w }
  finalized_as candidate pass (ok u, w) = record pass {
    report = record pass.report { finalized = suc pass.report.finalized };
    outcomes = (candidate.queue_id, Outcome.finalized) ∷ pass.outcomes;
    world = w;
  }

  unfoldable pub finish_judged : Entry → Outcome → Pass → Pass
  unfolding remove_recorded
  finish_judged candidate Outcome.finalized pass =
      finalized_as candidate pass (remove_recorded candidate pass.world)
  finish_judged candidate o pass = record pass {
    outcomes = (candidate.queue_id, o) ∷ pass.outcomes;
  }

  unfoldable pub finish_one : List Entry → Entry → Pass → Pass
  unfolding finish_judged judged
  finish_one current candidate pass =
      finish_judged candidate (judged candidate (lookup candidate.queue_id current)) pass

  unfoldable pub finish_all : List Entry → ℕ → List Entry → Pass → Pass
  unfolding finish_one
  finish_all current limit [] pass = pass
  finish_all current limit (candidate ∷ rest) pass =
      let others = finish_all current limit rest (finish_one current candidate pass) in
      if not (is_none pass.problem) || not (ltb pass.report.finalized limit) then pass else others

  -- `run`
  unfoldable pub finish_candidates : List Entry → ℕ → List Entry → Pass → Pass
  unfolding finish_all sort
  finish_candidates current limit candidates pass =
      if not (is_none pass.problem)
      then pass
      else finish_all current limit (sort (λ e. e.queue_id) candidates) pass

  unfoldable pub run_listed :
      List Entry → ℕ → List Entry → Result FinalizerError (List Record) → World → Pass
  unfolding reconcile finish_candidates
  run_listed current limit candidates (err e) w = fails w e
  run_listed current limit candidates (ok records) w = finish_candidates current limit candidates (
      reconcile current records
        (record { report = nothing; outcomes = []; problem = none; world = w }))

  unfoldable pub run_current : Result FinalizerError (List Entry) → ℕ → List Entry → World → Pass
  unfolding run_listed list_records by_id
  run_current (err e) limit candidates w = fails w e
  run_current (ok entries) limit candidates w = elim (by_id [] entries) [
    | err e ↦ fails w e
    | ok current ↦ run_listed current limit candidates (list_records p d json read_dir w.fs) w
  ]

  unfoldable pub run : List Entry → ℕ → World → Pass
  unfolding run_current all_eligible
  run candidates limit w =
      if limit == 0
      then fails w not_configured
      else if not (all_eligible p.trim candidates)
      then fails w ineligible
      else (let (entries, env) = v.read_queue w.env in
          run_current entries limit candidates (record w { env = env }))

  -- `Run`, which tests the candidates before `run` does, and `Finalize`
  unfoldable pub run_all : List Entry → ℕ → World → (Report × Option FinalizerError) × World
  unfolding run
  run_all candidates limit w =
      if limit == 0
      then ((nothing, some not_configured), w)
      else if not (all_eligible p.trim candidates)
      then ((nothing, some ineligible), w)
      else (let pass = run candidates limit w in ((pass.report, pass.problem), pass.world))

  abbrev pub outcome_of : Option Outcome → Result FinalizerError Outcome
  outcome_of none = err no_outcome
  outcome_of (some o) = ok o

  unfoldable pub answered : ℕ → Pass → Result FinalizerError Outcome
  answered id pass = elim pass.problem [
    | some e ↦ err e
    | none ↦ outcome_of (lookup_outcome id pass.outcomes)
  ]

  unfoldable pub finalize : Entry → World → Result FinalizerError Outcome × World
  unfolding run eligible answered
  finalize candidate w =
      if not (eligible p.trim candidate)
      then (err ineligible, w)
      else (let pass = run (candidate ∷ []) 1 w in (answered candidate.queue_id pass, pass.world))
