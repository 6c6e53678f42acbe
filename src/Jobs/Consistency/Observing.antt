-- ===== src/Jobs/Consistency/Observing.antt =====
-- `Observe` of internal/jobs/store.go, for the agreement of jobs and attempts.
use nix.Base.{
  ℕ, ◌≡◌, Bool, ok, if◌then◌else◌, arith, Bool-cases, str_eq, subst, inl, inr, >>=-eq-ok, true,
  false, Result, ◌∙◌, ◌&&◌, not, err, true, false, ◌⊎◌, refl, ap, some,
}
use nix.Jobs.Model.{Error, Job, PlanningResult, is_imported, is_removed, active, raw_present}
use nix.Jobs.Database.{Gorm, GormLaws, transaction-keeps}
use nix.Jobs.History.{
  remember_planning, observe_planning, restore_planning, recall, bootstrap_memory, review_memory,
  observe_first, observe_again, adopt, bootstrap,
}
use nix.Jobs.Store.{
  observe, observe_known, observe_new, assess, replan, refreshed, reset_planning, take_evidence,
  observe_found, assess_inputs, new_job,
}
use nix.Jobs.Consistency.{is_repairing, IsConsistent}
use nix.Jobs.Consistency.Writes.{
  save_job-IsConsistent, touch_job-IsConsistent, create_job-IsConsistent,
}
use nix.Jobs.Consistency.Operations.{remember_planning-jobs, remember_planning-IsConsistent}

take_evidence-id : (changed : Bool) (job seen : Job) → (take_evidence changed job seen).id ≡ job.id
take_evidence-id changed job seen = ground arith

take_evidence-pending :
    (changed : Bool) (job seen : Job)
    → (take_evidence changed job seen).pending_action ≡ job.pending_action
take_evidence-pending changed job seen = ground arith

take_evidence-repairing :
    (changed : Bool) (job seen : Job)
    → is_repairing (take_evidence changed job seen).state ≡ is_repairing job.state
take_evidence-repairing changed job seen = ground arith

module _ (g : Gorm) (laws : GormLaws g) where
  open g use {Db, job_row, first_by_identity, save_job, create_job, first_result}

  -- A step that writes no job.
  record IsQuiet (s t : Db) : Type 0 where
    rows : (i : ℕ) → job_row t i ≡ job_row s i
    keeps : IsConsistent g s → IsConsistent g t

  IsQuiet-refl : (s : Db) {t : Db} → ◌≡◌ {A = Result Error Db} (ok s) (ok t) → IsQuiet s t
  IsQuiet-refl s {t} e =
      let same : s ≡ t = ground arith in
      record { rows = λ i. rw (← same); keeps = λ c. subst (λ u. IsConsistent g u) same c }

  remember_planning-IsQuiet :
      (s : Db) (job : Job) {t : Db} → remember_planning g s job ≡ ok t → IsQuiet s t
  remember_planning-IsQuiet s job h = record {
    rows = remember_planning-jobs g laws s job h;
    keeps = remember_planning-IsConsistent g laws s job h;
  }

  -- Remembering under a test.
  memory-IsQuiet :
      (test : Bool) (s : Db) (job : Job) {t : Db}
      → (if test then remember_planning g s job else ok s) ≡ ok t
      → IsQuiet s t
  memory-IsQuiet true s job h = remember_planning-IsQuiet s job h
  memory-IsQuiet false s job h = IsQuiet-refl s h

  -- What `observePlanning` leaves of the job.
  record IsSameJob (job next : Job) : Type 0 where
    id : next.id ≡ job.id
    state : next.state ≡ job.state
    pending : next.pending_action ≡ job.pending_action

  IsQuiet-trans : {s t u : Db} → IsQuiet s t → IsQuiet t u → IsQuiet s u
  IsQuiet-trans p q = record { rows = λ i. q.rows i ∙ p.rows i; keeps = λ c. q.keeps (p.keeps c) }

  adopt_lem :
      (job seen : Job) (s : Db) {changed : Bool} {next : Job} {t : Db}
      → adopt g job seen s ≡ ok (changed, next, t)
      → IsSameJob job next × (s ≡ t)
  adopt_lem job seen s h =
      (record { id = ground arith; state = ground arith; pending = ground arith }, ground arith)

  observe_again_lem :
      (s : Db) (job seen : Job) {changed : Bool} {next : Job} {t : Db}
      → observe_again g s job seen ≡ ok (changed, next, t)
      → IsSameJob job next × IsQuiet s t
  observe_again_lem s job seen h =
      let (u, reviewed, h1) = >>=-eq-ok (review_memory g s job) (adopt g job seen) h in
      let (same, now) = adopt_lem job seen u h1 in
      (same, subst (λ v. IsQuiet s v) now (memory-IsQuiet _ s job reviewed))

  observe_first_lem :
      (s : Db) (job seen : Job) {changed : Bool} {next : Job} {t : Db}
      → observe_first g s job seen ≡ ok (changed, next, t)
      → IsSameJob job next × IsQuiet s t
  observe_first_lem s job seen h =
      let (u, booted, h1) = >>=-eq-ok (bootstrap_memory g s job) _ h in
      let (same, quiet) = observe_again_lem u job seen h1 in
      (same, IsQuiet-trans (memory-IsQuiet _ s job booted) quiet)

  observe_planning_lem :
      (s : Db) (job seen : Job) {changed : Bool} {next : Job} {t : Db}
      → observe_planning g s job seen ≡ ok (changed, next, t)
      → IsSameJob job next × IsQuiet s t
  unfolding observe_planning
  observe_planning_lem s job seen {changed} {next} h =
      elim (Bool-cases (str_eq seen.planning_fingerprint "")) [
        | inl e ↦ (
          record { id = ground arith; state = ground arith; pending = ground arith },
          IsQuiet-refl s (ground arith),
        )
        | inr e ↦ elim (Bool-cases (str_eq job.planning_fingerprint "")) [
          | inl f ↦
              let (same, quiet) =
                observe_first_lem s (bootstrap g job seen) seen {changed = changed} {next = next}
                  (ground arith) in
              (record { id = same.id; state = same.state; pending = same.pending }, quiet)
          | inr f ↦ observe_again_lem s job seen {changed = changed} {next = next} (ground arith)
        ]
      ]

  -- What a new planning round leaves of a job that is not under repair.
  record IsReplanned (job next : Job) : Type 0 where
    id : next.id ≡ job.id
    rests : is_repairing job.state ≡ false → is_repairing next.state ≡ false
    pending : next.pending_action ≡ job.pending_action

  recall_lem :
      (job next : Job) (r : Result Error PlanningResult)
      → recall job r ≡ ok next
      → is_repairing job.state ≡ false
      → IsReplanned job next
  recall_lem job next (ok result) h rest = record {
    id = ground arith;
    rests = λ _. ground arith;
    pending = ground arith;
  }
  recall_lem job next (err Error.not_found) h rest = record {
    id = ground arith;
    rests = λ _. ground arith;
    pending = ground arith;
  }
  recall_lem job next (err e) h rest = record {
    id = ground arith;
    rests = λ _. ground arith;
    pending = ground arith;
  }

  restore_planning_lem :
      (s : Db) (job : Job) {next : Job}
      → restore_planning g s job ≡ ok next
      → is_repairing job.state ≡ false
      → IsReplanned job next
  unfolding restore_planning
  restore_planning_lem s job {next} h rest =
      elim (Bool-cases (str_eq job.planning_fingerprint "")) [
        | inl e ↦ record { id = ground arith; rests = λ r. ground arith; pending = ground arith }
        | inr e ↦
            recall_lem job next (first_result s job.id job.planning_fingerprint job.revision)
              (ground arith) rest
      ]

  replan_lem :
      (s : Db) (changed : Bool) (job seen : Job) {next : Job}
      → replan g s changed job seen ≡ ok next
      → IsReplanned job next
  unfolding replan
  replan_lem s changed job seen {next} h =
      elim (Bool-cases (changed && (not (is_imported job.state) && not (is_removed job.state)))) [
        | inl e ↦
            let r =
              restore_planning_lem s (reset_planning job seen) {next = next} (ground arith) refl in
            record { id = r.id; rests = λ _. r.rests refl; pending = r.pending }
        | inr e ↦ record { id = ground arith; rests = λ r. ground arith; pending = ground arith }
      ]

  -- What an observation leaves of a job: under repair it stays in its state.
  record IsAssessed (job next : Job) : Type 0 where
    id : next.id ≡ job.id
    pending : next.pending_action ≡ job.pending_action
    keeps :
        (next.state ≡ job.state)
        ⊎ ((is_repairing job.state ≡ false) × (is_repairing next.state ≡ false))

  assess_inputs_lem :
      (s : Db) (job seen : Job) {next : Job} {t : Db}
      → assess_inputs g s job seen ≡ ok (next, t)
      → is_repairing job.state ≡ false
      → IsAssessed job next × IsQuiet s t
  assess_inputs_lem s job seen {next} {t} h rest =
      let ((changed, first, u), planned, h1) = >>=-eq-ok (observe_planning g s job seen) _ h in
      let (same, quiet) = observe_planning_lem s job seen {changed = changed} planned in
      let (mid, replanned, h2) = >>=-eq-ok (replan g u changed first seen) _ h1 in
      let r = replan_lem u changed first seen replanned in
      let taken : next ≡ take_evidence changed mid seen = ground arith in
      let now : u ≡ t = ground arith in
      (
        record {
          id =
              ap (λ (j : Job). j.id) taken ∙ (take_evidence-id changed mid seen ∙ (r.id ∙ same.id));
          pending =
              ap (λ (j : Job). j.pending_action) taken
              ∙ (take_evidence-pending changed mid seen ∙ (r.pending ∙ same.pending));
          keeps = inr (
            rest,
            ap (λ (j : Job). is_repairing j.state) taken
                ∙ (take_evidence-repairing changed mid seen
                    ∙ r.rests (ap is_repairing same.state ∙ rest)),
          );
        },
        subst (λ v. IsQuiet s v) now quiet,
      )

  assess_lem :
      (s : Db) (job seen : Job) {next : Job} {t : Db}
      → assess g s job seen ≡ ok (next, t)
      → IsAssessed job next × IsQuiet s t
  unfolding assess
  assess_lem s job seen {next} {t} h =
      elim (Bool-cases (not (active job.state) && raw_present seen.evidence)) [
        | inl e ↦ assess_inputs_lem s job seen {next = next} {t = t} (ground arith) (ground arith)
        | inr e ↦ (
          record { id = ground arith; pending = ground arith; keeps = inl (ground arith) },
          IsQuiet-refl s (ground arith),
        )
      ]

  observe_known-IsConsistent :
      (s : Db) (job seen next : Job) (t : Db)
      → job_row s job.id ≡ some job
      → observe_known g s job seen ≡ ok (next, t)
      → IsConsistent g s
      → IsConsistent g t
  unfolding observe_known
  observe_known-IsConsistent s job seen next t row h c =
      let ((after, u), assessed, h1) = >>=-eq-ok (assess g s (refreshed job seen) seen) _ h in
      let (kept, quiet) = assess_lem s (refreshed job seen) seen {next = after} {t = u} assessed in
      let (v, saved, h2) = >>=-eq-ok (save_job u after) _ h1 in
      let now : v ≡ t = ground arith in
      let current : job_row u after.id ≡ some job =
        quiet.rows after.id ∙ (ap (job_row s) kept.id ∙ row) in
      subst (λ w. IsConsistent g w) now
        (elim kept.keeps [
          | inl same ↦
              touch_job-IsConsistent g laws u job after saved current same kept.pending
                (quiet.keeps c)
          | inr (before, rests) ↦
              save_job-IsConsistent g laws u job after saved current before rests (quiet.keeps c)
        ])

  observe_new-IsConsistent :
      (s : Db) (seen next : Job) (t : Db)
      → observe_new g s seen ≡ ok (next, t)
      → IsConsistent g s
      → IsConsistent g t
  unfolding observe_new
  observe_new-IsConsistent s seen next t h c =
      let ((id, u), made, h1) = >>=-eq-ok (create_job s (new_job seen)) _ h in
      let now : u ≡ t = ground arith in
      subst (λ w. IsConsistent g w) now
        (create_job-IsConsistent g laws s (new_job seen) made refl c)

  observe_found-IsConsistent :
      (s : Db) (seen next : Job) (t : Db) (r : Result Error Job)
      → first_by_identity s seen.service seen.queue_id seen.download_id ≡ r
      → observe_found g s seen r ≡ ok (next, t)
      → IsConsistent g s
      → IsConsistent g t
  observe_found-IsConsistent s seen next t (ok job) e h c =
      observe_known-IsConsistent s job seen next t
        (laws.first_by_identity_lem s seen.service seen.queue_id seen.download_id e) h c
  observe_found-IsConsistent s seen next t (err Error.not_found) e h c =
      observe_new-IsConsistent s seen next t h c
  observe_found-IsConsistent s seen next t (err _) e h c = cc

  pub observe-IsConsistent :
      (s : Db) (seen : Job) → IsConsistent g s → IsConsistent g (observe g s seen).1
  unfolding observe
  observe-IsConsistent s seen c =
      transaction-keeps g (IsConsistent g) s _
        (λ next t h. observe_found-IsConsistent s seen next t _ refl h c) c
