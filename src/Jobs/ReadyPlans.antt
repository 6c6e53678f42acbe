-- ===== src/Jobs/ReadyPlans.antt =====
-- The jobs that are ready after an observation (`Observe` of internal/jobs/store.go).
use nix.Base.{
  ◌≡◌, ok, err, refl, true, false, >>=-eq-ok, Bool-cases, Result, ◌∙◌, Bool, not, str_eq, arith,
  ◌&&◌, inl, inr, subst,
}
use nix.Jobs.Model.{
  Job, Error, PlanningResult, is_ready, active, is_imported, is_removed, raw_present,
}
use nix.Jobs.Database.{Gorm, transaction-eq-ok}
use nix.Jobs.History.{
  bootstrap, bootstrap_memory, review_memory, adopt, observe_first, observe_again, observe_planning,
  restore_planning, recall,
}
use nix.Jobs.Store.{
  observe, observe_known, assess, assess_inputs, replan, refreshed, reset_planning, take_evidence,
}

-- A job that is ready afterwards was ready before, with the same plan.
record IsUnpromoted (job next : Job) : Type 0 where
  ready_before : is_ready next.state ≡ true → is_ready job.state ≡ true
  same_plan : is_ready next.state ≡ true → next.plan ≡ job.plan

IsUnpromoted-trans : {a b c : Job} → IsUnpromoted a b → IsUnpromoted b c → IsUnpromoted a c
IsUnpromoted-trans p q = record {
  ready_before = λ r. p.ready_before (q.ready_before r);
  same_plan = λ r. q.same_plan r ∙ p.same_plan (q.ready_before r);
}

take_evidence-IsUnpromoted :
    (changed : Bool) (job seen : Job) → IsUnpromoted job (take_evidence changed job seen)
take_evidence-IsUnpromoted changed job seen = ground arith

recall-IsUnpromoted :
    (job next : Job) (r : Result Error PlanningResult)
    → recall job r ≡ ok next
    → is_ready job.state ≡ false
    → is_ready next.state ≡ false
recall-IsUnpromoted job next (ok p) h idle = ground arith
recall-IsUnpromoted job next (err Error.not_found) h idle = ground arith
recall-IsUnpromoted job next (err _) h idle = ground arith

module _ (g : Gorm) where
  open g use {Db, first_by_identity, save_job, first_result}

  pub observe_known-eq-ok :
      (s : Db) (job seen after : Job) {t : Db}
      → observe_known g s job seen ≡ ok (after, t)
      → (u : Db) × (assess g s (refreshed job seen) seen ≡ ok (after, u))
  unfolding observe_known
  observe_known-eq-ok s job seen after h =
      let ((next, u), assessed, h1) = >>=-eq-ok (assess g s (refreshed job seen) seen) _ h in
      let (v, saved, h2) = >>=-eq-ok (save_job u next) _ h1 in (u, ground arith)

  restore_planning-idle :
      (s : Db) (job next : Job)
      → restore_planning g s job ≡ ok next
      → is_ready job.state ≡ false
      → is_ready next.state ≡ false
  unfolding restore_planning
  restore_planning-idle s job next h idle = elim (Bool-cases (str_eq job.planning_fingerprint "")) [
    | inl e ↦ ground arith
    | inr e ↦
        recall-IsUnpromoted job next (first_result s job.id job.planning_fingerprint job.revision)
          (ground arith) idle
  ]

  replan-IsUnpromoted :
      (s : Db) (changed : Bool) (job seen next : Job)
      → replan g s changed job seen ≡ ok next
      → IsUnpromoted job next
  unfolding replan
  replan-IsUnpromoted s changed job seen next h =
      elim (Bool-cases (changed && (not (is_imported job.state) && not (is_removed job.state)))) [
        | inl e ↦
            let idle = restore_planning-idle s (reset_planning job seen) next (ground arith) refl in
            ground arith
        | inr e ↦ ground arith
      ]

  observe_again-IsUnpromoted :
      (s : Db) (job seen next : Job) {changed : Bool} {t : Db}
      → observe_again g s job seen ≡ ok (changed, next, t)
      → IsUnpromoted job next
  observe_again-IsUnpromoted s job seen next h =
      let (u, reviewed, h1) = >>=-eq-ok (review_memory g s job) (adopt g job seen) h in ground arith

  observe_planning-IsUnpromoted :
      (s : Db) (job seen next : Job) {changed : Bool} {t : Db}
      → observe_planning g s job seen ≡ ok (changed, next, t)
      → IsUnpromoted job next
  unfolding observe_planning
  observe_planning-IsUnpromoted s job seen next {changed} {t} h =
      elim (Bool-cases (str_eq seen.planning_fingerprint "")) [
        | inl e ↦ ground arith
        | inr e ↦ elim (Bool-cases (str_eq job.planning_fingerprint "")) [
          | inl f ↦
              let first : observe_first g s (bootstrap g job seen) seen ≡ ok (changed, next, t) =
                ground arith in
              let (u, booted, h1) =
                >>=-eq-ok (bootstrap_memory g s (bootstrap g job seen)) _ first in
              let again = observe_again-IsUnpromoted u (bootstrap g job seen) seen next h1 in
              record { ready_before = again.ready_before; same_plan = again.same_plan }
          | inr f ↦
              observe_again-IsUnpromoted s job seen next {changed = changed} {t = t} (ground arith)
        ]
      ]

  assess-IsUnpromoted :
      (s : Db) (job seen next : Job) {t : Db}
      → assess g s job seen ≡ ok (next, t)
      → IsUnpromoted job next
  unfolding assess
  assess-IsUnpromoted s job seen next {t} h =
      elim (Bool-cases (not (active job.state) && raw_present seen.evidence)) [
        | inl e ↦
            let inputs : assess_inputs g s job seen ≡ ok (next, t) = ground arith in
            let ((changed, first, u), planned, h1) =
              >>=-eq-ok (observe_planning g s job seen) _ inputs in
            let (mid, replanned, h2) = >>=-eq-ok (replan g u changed first seen) _ h1 in
            let same : take_evidence changed mid seen ≡ next = ground arith in
            IsUnpromoted-trans
              (observe_planning-IsUnpromoted s job seen first {changed = changed} {t = u} planned)
              (IsUnpromoted-trans (replan-IsUnpromoted u changed first seen mid replanned) (
                subst (λ n. IsUnpromoted mid n) same (take_evidence-IsUnpromoted changed mid seen)))
        | inr e ↦ ground arith
      ]

  -- A known job that is ready after an observation was ready before it, and has the plan that it
  -- had: what is remembered about the observed inputs is never put up for execution.
  pub observe-ready :
      (s : Db) (job seen after : Job) {t : Db}
      → first_by_identity s seen.service seen.queue_id seen.download_id ≡ ok job
      → observe g s seen ≡ (ok after, t)
      → is_ready after.state ≡ true
      → (is_ready job.state ≡ true) × (after.plan ≡ job.plan)
  unfolding observe
  observe-ready s job seen after {t} found h ready =
      let body = transaction-eq-ok g s _ h in
      let known : observe_known g s job seen ≡ ok (after, t) = rw found at body in
      let (u, assessed) = observe_known-eq-ok s job seen after known in
      let kept = assess-IsUnpromoted s (refreshed job seen) seen after assessed in
      (kept.ready_before ready, kept.same_plan ready)
