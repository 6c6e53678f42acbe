-- ===== src/Jobs/Remembering.antt =====
-- What an observation does to a job's plan (`Observe` of internal/jobs/store.go and
-- internal/jobs/planning_history.go).
use nix.Jobs.ReadyPlans.{observe_known-eq-ok}
use nix.Base.{
  ℕ, ◌≡◌, some, ok, err, refl, true, false, str_eq, Result, String, Bool, Bool-cases, if◌then◌else◌,
  not, inl, arith, inr, ◌&&◌, ap, ◌∙◌, eq_iff, >>=-eq-ok,
}
use nix.Jobs.Model.{Job, Error, PlanningResult, active, is_imported, is_removed, raw_present, State}
use nix.Jobs.Database.{Gorm, GormLaws, transaction-eq-ok}
use nix.Jobs.History.{
  remember_planning, planning_result, review_memory, adopt, observe_again, observe_planning,
  restore_planning, recall,
}
use nix.Jobs.Store.{
  observe, observe_known, assess, assess_inputs, replan, refreshed, reset_planning, take_evidence,
}

str_eq-swap : (a b : String) → str_eq a b ≡ false → str_eq b a ≡ false
str_eq-swap a b h = ground (arith, eq_iff a b, eq_iff b a)

take_evidence-state :
    (changed : Bool) (job seen : Job) → (take_evidence changed job seen).state ≡ job.state
take_evidence-state changed job seen = ground arith

take_evidence-plan :
    (changed : Bool) (job seen : Job) → (take_evidence changed job seen).plan ≡ job.plan
take_evidence-plan changed job seen = ground arith

module _ (g : Gorm) (laws : GormLaws g) where
  open g use {Db, job_row, result_row, first_by_identity, save_job, first_result}

  -- Remembering a result leaves those of other inputs.
  remember_planning-results :
      (s : Db) (job : Job) {t : Db} (id : ℕ) (f : String) (r : ℕ)
      → remember_planning g s job ≡ ok t
      → str_eq f job.planning_fingerprint ≡ false
      → result_row t id f r ≡ result_row s id f r
  unfolding remember_planning
  remember_planning-results s job {t} id f r h other =
      elim (Bool-cases (str_eq job.planning_fingerprint "")) [
        | inl e ↦ ground arith
        | inr e ↦
            ground
              (arith, laws.upsert_result_lem s (planning_result job) {t = t} (ground arith) id f r)
      ]

  review_memory-results :
      (test : Bool) (s : Db) (job : Job) {t : Db} (id : ℕ) (f : String) (r : ℕ)
      → (if test then remember_planning g s job else ok s) ≡ ok t
      → str_eq f job.planning_fingerprint ≡ false
      → result_row t id f r ≡ result_row s id f r
  review_memory-results true s job id f r h other = remember_planning-results s job id f r h other
  review_memory-results false s job id f r h other = ground arith

  -- The lookup of a complete result.
  recall_complete :
      (s : Db) (job next : Job) (p : PlanningResult) (r : Result Error PlanningResult)
      → first_result s job.id job.planning_fingerprint job.revision ≡ r
      → result_row s job.id job.planning_fingerprint job.revision ≡ some p
      → p.complete ≡ true
      → recall job r ≡ ok next
      → (next.state ≡ State.blocked)
        × (next.plan ≡ p.plan)
        × (next.planning_fingerprint ≡ job.planning_fingerprint)
  recall_complete s job next p (ok q) e row done h =
      let same : q ≡ p =
        ground (arith, laws.first_result_lem s job.id job.planning_fingerprint job.revision e) in
      let full : q.complete ≡ true = ap (λ (x : PlanningResult). x.complete) same ∙ done in
      let plans : q.plan ≡ p.plan = ap (λ (x : PlanningResult). x.plan) same in ground arith
  recall_complete s job next p (err Error.not_found) e row done h =
      cc (laws.first_result-none s job.id job.planning_fingerprint job.revision e)
  recall_complete s job next p (err _) e row done h = cc

  -- The inputs of an observed job: it is not active, and its evidence was collected under a known
  -- planning fingerprint.
  pub record IsAssessable (job seen : Job) : Type 0 where
    pub idle : active job.state ≡ false
    pub live : not (is_imported job.state) && not (is_removed job.state) ≡ true
    pub collected : raw_present seen.evidence ≡ true
    pub fingerprinted : str_eq seen.planning_fingerprint "" ≡ false
    pub known : str_eq job.planning_fingerprint "" ≡ false

  -- `observePlanning` of a job whose inputs have another fingerprint.
  observe_planning-changed :
      (s : Db) (job seen : Job) {changed : Bool} {first : Job} {u : Db}
      → IsAssessable job seen
      → str_eq job.planning_fingerprint seen.planning_fingerprint ≡ false
      → observe_planning g s job seen ≡ ok (changed, first, u)
      → (changed ≡ true)
        × (first ≡ record job { planning_fingerprint = seen.planning_fingerprint })
        × (review_memory g s job ≡ ok u)
  unfolding observe_planning
  observe_planning-changed s job seen {changed} {first} {u} k other h =
      let again : observe_again g s job seen ≡ ok (changed, first, u) =
        ground (arith, k.known, k.fingerprinted) in
      let (v, reviewed, h1) = >>=-eq-ok (review_memory g s job) (adopt g job seen) again in
      (ground arith, ground arith, ground arith)

  replan-already_planned :
      (u : Db) (job seen next : Job) (p : PlanningResult)
      → IsAssessable job seen
      → result_row u job.id seen.planning_fingerprint job.revision ≡ some p
      → p.complete ≡ true
      → replan g u true (record job { planning_fingerprint = seen.planning_fingerprint }) seen
        ≡ ok next
      → (next.state ≡ State.blocked) × (next.plan ≡ p.plan)
  unfolding replan restore_planning
  replan-already_planned u job seen next p k row done h =
      let looked : recall
            (reset_planning (record job { planning_fingerprint = seen.planning_fingerprint }) seen)
            (first_result u job.id seen.planning_fingerprint job.revision)
          ≡ ok next =
        ground (arith, k.live, k.fingerprinted) in
      let found =
        recall_complete u
          (reset_planning (record job { planning_fingerprint = seen.planning_fingerprint }) seen)
          next p (first_result u job.id seen.planning_fingerprint job.revision) refl row done
          looked in
      (found.0, found.1)

  assess_inputs-already_planned :
      (s : Db) (job seen after : Job) (p : PlanningResult) {t : Db}
      → IsAssessable job seen
      → str_eq job.planning_fingerprint seen.planning_fingerprint ≡ false
      → result_row s job.id seen.planning_fingerprint job.revision ≡ some p
      → p.complete ≡ true
      → assess_inputs g s job seen ≡ ok (after, t)
      → (after.state ≡ State.blocked) × (after.plan ≡ p.plan)
  assess_inputs-already_planned s job seen after p k other row done h =
      let ((changed, first, u), planned, h1) = >>=-eq-ok (observe_planning g s job seen) _ h in
      let (is_changed, is_first, reviewed) =
        observe_planning-changed s job seen {changed = changed} {first = first} k other planned in
      let (next, replanned, h2) = >>=-eq-ok (replan g u changed first seen) _ h1 in
      let kept =
        review_memory-results _ s job job.id seen.planning_fingerprint job.revision reviewed
          (str_eq-swap job.planning_fingerprint seen.planning_fingerprint other) in
      let (is_blocked, is_plan) =
        replan-already_planned u job seen next p k (kept ∙ row) done
          (rw (is_changed, is_first) at replanned) in
      let same : after ≡ take_evidence changed next seen = ground arith in
      (
        ap (λ (j : Job). j.state) same ∙ (take_evidence-state changed next seen ∙ is_blocked),
        ap (λ (j : Job). j.plan) same ∙ (take_evidence-plan changed next seen ∙ is_plan),
      )

  assess-assessable :
      (s : Db) (job seen : Job) {r : Result Error (Job × Db)}
      → IsAssessable job seen
      → assess g s job seen ≡ r
      → assess_inputs g s job seen ≡ r
  unfolding assess
  assess-assessable s job seen k h = ground (arith, k.idle, k.collected)

  -- Where a database call answers as `GormLaws` says: when an observation of a job that is not
  -- active, imported or removed brings evidence under a known planning fingerprint that differs
  -- from the job's known one, and a complete result is stored for the new inputs at the job's
  -- revision, a successful `Observe` returns the job blocked, with the remembered plan.
  pub observe-already_planned :
      (s : Db) (job seen after : Job) (p : PlanningResult) {t : Db}
      → IsAssessable job seen
      → first_by_identity s seen.service seen.queue_id seen.download_id ≡ ok job
      → str_eq job.planning_fingerprint seen.planning_fingerprint ≡ false
      → result_row s job.id seen.planning_fingerprint job.revision ≡ some p
      → p.complete ≡ true
      → observe g s seen ≡ (ok after, t)
      → (after.state ≡ State.blocked) × (after.plan ≡ p.plan)
  unfolding observe
  observe-already_planned s job seen after p {t} k found changed row done h =
      let body = transaction-eq-ok g s _ h in
      let known : observe_known g s job seen ≡ ok (after, t) = rw found at body in
      let (u, assessed) = observe_known-eq-ok g s job seen after known in
      let inputs : assess_inputs g s (refreshed job seen) seen ≡ ok (after, u) =
        assess-assessable s (refreshed job seen) seen
          (record {
            idle = k.idle;
            live = k.live;
            collected = k.collected;
            fingerprinted = k.fingerprinted;
            known = k.known;
          })
          assessed in
      assess_inputs-already_planned s (refreshed job seen) seen after p
        (record {
          idle = k.idle;
          live = k.live;
          collected = k.collected;
          fingerprinted = k.fingerprinted;
          known = k.known;
        })
        changed row done inputs
