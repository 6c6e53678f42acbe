-- ===== src/Jobs/Consistency/History.antt =====
-- Any sequence of calls of the job store of pkgs/media-repair/internal/jobs, as its clients make them.
use nix.Base.{ℕ, ◌≡◌, [], ◌∷◌, List, String, Option, false}
use nix.Jobs.Model.{Job, Attempt, Action, Raw, Service}
use nix.Jobs.Queue.{QueueKey}
use nix.Jobs.Database.{Gorm, GormLaws}
use nix.Jobs.Store.{observe, set_plan, start, update_attempt}
use nix.Jobs.Planning.{
  request_action, request_reconsideration, finish_planning, finish_removal, start_removal,
  reconcile_queue,
}
use nix.Jobs.Consistency.{is_repairing, IsConsistent, FewAttempts, IsStored}
use nix.Jobs.Consistency.Operations.{
  request_action-IsConsistent, request_reconsideration-IsConsistent, finish_planning-IsConsistent,
  finish_removal-IsConsistent, start_removal-IsConsistent, set_plan-IsConsistent,
}
use nix.Jobs.Consistency.Observing.{observe-IsConsistent}
use nix.Jobs.Consistency.Repairs.{start-IsConsistent, update_attempt-IsConsistent}
use nix.Jobs.Consistency.Reconciling.{reconcile_queue-IsConsistent}

-- A call of a method of `Store` that writes.
pub data Call : Type 0 where
  observed : Job → Call
  planned_by_hand : ℕ → String → Raw → String → ℕ → Call
  began : ℕ → ℕ → Call
  attempted : Attempt → Call
  asked : ℕ → Action → String → ℕ → ℕ → Call
  reconsidered : Job → String → ℕ → ℕ → Call
  planned : Job → Call
  removal_began : ℕ → ℕ → Call
  removal_ended : Job → Option String → ℕ → Call
  reconciled : Service → List QueueKey → ℕ → Call

module _ (g : Gorm) where
  open g use {Db}

  unfoldable pub after_call : Db → Call → Db
  after_call s (observed job) = (observe g s job).1
  after_call s (planned_by_hand id fingerprint plan guidance at) =
      (set_plan g s id fingerprint plan guidance at).1
  after_call s (began id at) = (start g s id at).1
  after_call s (attempted attempt) = (update_attempt g s attempt).1
  after_call s (asked id action guidance tolerance at) =
      (request_action g s id action guidance tolerance at).1
  after_call s (reconsidered expected guidance tolerance at) =
      (request_reconsideration g s expected guidance tolerance at).1
  after_call s (planned job) = (finish_planning g s job).1
  after_call s (removal_began id at) = (start_removal g s id at).1
  after_call s (removal_ended job failure at) = (finish_removal g s job failure at).1
  after_call s (reconciled service present at) = (reconcile_queue g s service present at).1

  unfoldable pub after_calls : Db → List Call → Db
  unfolding after_call
  after_calls s [] = s
  after_calls s (call ∷ calls) = after_calls (after_call s call) calls

  -- What the clients keep to: a planning answer puts no job under repair, an attempt handed over was
  -- stored before and removes nothing, and a job's attempts do not exhaust their counter.
  abbrev pub IsClient : Db → Call → Type 0
  IsClient s (attempted attempt) = IsStored attempt
  IsClient s (planned job) = is_repairing job.state ≡ false
  IsClient s (began id at) = FewAttempts g s id
  IsClient s _ = Unit

  abbrev pub AreClients : Db → List Call → Type 0
  AreClients s [] = Unit
  AreClients s (call ∷ calls) = IsClient s call × AreClients (after_call s call) calls

module _ (g : Gorm) (laws : GormLaws g) where
  open g use {Db}

  after_call-IsConsistent :
      (s : Db) (call : Call)
      → IsClient g s call
      → IsConsistent g s
      → IsConsistent g (after_call g s call)
  unfolding after_call
  after_call-IsConsistent s (observed job) k c = observe-IsConsistent g laws s job c
  after_call-IsConsistent s (planned_by_hand id fingerprint plan guidance at) k c =
      set_plan-IsConsistent g laws s c id fingerprint plan guidance at
  after_call-IsConsistent s (began id at) k c = start-IsConsistent g laws s id at k c
  after_call-IsConsistent s (attempted attempt) k c =
      update_attempt-IsConsistent g laws s attempt k c
  after_call-IsConsistent s (asked id action guidance tolerance at) k c =
      request_action-IsConsistent g laws s c id action guidance tolerance at
  after_call-IsConsistent s (reconsidered expected guidance tolerance at) k c =
      request_reconsideration-IsConsistent g laws s c expected guidance tolerance at
  after_call-IsConsistent s (planned job) k c = finish_planning-IsConsistent g laws s c job k
  after_call-IsConsistent s (removal_began id at) k c = start_removal-IsConsistent g laws s c id at
  after_call-IsConsistent s (removal_ended job failure at) k c =
      finish_removal-IsConsistent g laws s c job failure at
  after_call-IsConsistent s (reconciled service present at) k c =
      reconcile_queue-IsConsistent g laws s service present at c

  -- Where a database call answers as `GormLaws` says: after any calls of the job store, successful
  -- or not, from a database where jobs and attempts agree, they agree: a job that is running or
  -- importing has an attempt in that same state, an attempt that is running or importing is its
  -- job's latest and its job is in the same state, no attempt is removing or has number 0, and a
  -- job whose removal is pending is not under repair. The clients hand over planning answers that
  -- put no job under repair and attempts that were stored, and a repair begins only while the job's
  -- attempts are fewer than a 64-bit number counts.
  pub after_calls-IsConsistent :
      (s : Db) (calls : List Call)
      → AreClients g s calls
      → IsConsistent g s
      → IsConsistent g (after_calls g s calls)
  unfolding after_calls
  after_calls-IsConsistent s [] k c = c
  after_calls-IsConsistent s (call ∷ calls) k c =
      after_calls-IsConsistent (after_call g s call) calls k.1
        (after_call-IsConsistent s call k.0 c)
