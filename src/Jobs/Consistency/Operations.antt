-- ===== src/Jobs/Consistency/Operations.antt =====
-- The operations of internal/jobs/store.go and planning.go that write a job only, for the agreement of
-- jobs and attempts.
use nix.Base.{
  ℕ, ◌≡◌, false, Option, arith, String, Result, ok, ap, some, Bool-cases, str_eq, ◌∙◌, inl, true,
  subst, inr, reject-eq-ok, none,
}
use nix.Jobs.Model.{Error, Job, Action, Raw, conflict}
use nix.Jobs.Database.{
  Gorm, GormLaws, transaction-keeps, modify_job, modify_job-eq-ok, no_value-eq-ok, transaction,
  no_value,
}
use nix.Jobs.History.{
  remember_planning, planning_result, modify_and_remember, modify_and_remember-eq-ok,
}
use nix.Jobs.Store.{set_plan, decide_plan}
use nix.Jobs.Planning.{
  request_action, request_reconsideration, finish_planning, start_removal, finish_removal, stale,
  decide_action, decide_answer, decide_removing, decide_removal, admit_action,
}
use nix.Jobs.Consistency.{is_repairing, IsConsistent, is_delete}
use nix.Jobs.Consistency.Writes.{save_job-IsConsistent, upsert_result-IsConsistent}

module _ (g : Gorm) (laws : GormLaws g) where
  open g use {Db, job_row, first_job, save_job}

  first_job-row :
      (s : Db) (id : ℕ) {job : Job} → first_job s id ≡ ok job → job_row s job.id ≡ some job
  first_job-row s id h =
      let row = laws.first_job_lem s id h in ap (job_row s) (laws.job_row-id s id row) ∙ row

  -- A remembered result changes no job.
  pub remember_planning-jobs :
      (s : Db) (job : Job) {t : Db}
      → remember_planning g s job ≡ ok t
      → (i : ℕ) → job_row t i ≡ job_row s i
  unfolding remember_planning
  remember_planning-jobs s job h i = elim (Bool-cases (str_eq job.planning_fingerprint "")) [
    | inl e ↦ ground arith
    | inr e ↦ (laws.upsert_result-jobs s (planning_result job) (ground arith)).jobs i
  ]

  pub remember_planning-IsConsistent :
      (s : Db) (job : Job) {t : Db}
      → remember_planning g s job ≡ ok t
      → IsConsistent g s
      → IsConsistent g t
  unfolding remember_planning
  remember_planning-IsConsistent s job {t} h c =
      elim (Bool-cases (str_eq job.planning_fingerprint "")) [
        | inl e ↦ subst (λ u. IsConsistent g u) (ground arith) c
        | inr e ↦ upsert_result-IsConsistent g laws s (planning_result job) (ground arith) c
      ]

  -- A decision that takes a job which is not under repair to another one.
  abbrev Rests : (Job → Result Error Job) → Type 0
  Rests decide =
      (job next : Job)
      → decide job ≡ ok next
      → (is_repairing job.state ≡ true → is_delete job.pending_action ≡ false)
      → (next.id ≡ job.id) × (is_repairing job.state ≡ false) × (is_repairing next.state ≡ false)

  modify_job-IsConsistent :
      (s : Db) (id : ℕ) (decide : Job → Result Error Job) (next : Job) (t : Db)
      → Rests decide
      → modify_job g s id decide ≡ ok (next, t)
      → IsConsistent g s
      → IsConsistent g t
  modify_job-IsConsistent s id decide next t rests h c =
      let (job, got, decided, saved) = modify_job-eq-ok g s id decide h in
      let (same, before, after) =
        rests job next decided (c.removals_wait id (laws.first_job_lem s id got)) in
      save_job-IsConsistent g laws s job next saved (ap (job_row s) same ∙ first_job-row s id got)
        before after c

  modify_and_remember-IsConsistent :
      (s : Db) (id : ℕ) (decide : Job → Result Error Job) (next : Job) (t : Db)
      → Rests decide
      → modify_and_remember g s id decide ≡ ok (next, t)
      → IsConsistent g s
      → IsConsistent g t
  modify_and_remember-IsConsistent s id decide next t rests h c =
      let (job, u, got, decided, kept, saved) = modify_and_remember-eq-ok g s id decide h in
      let (same, before, after) =
        rests job next decided (c.removals_wait id (laws.first_job_lem s id got)) in
      save_job-IsConsistent g laws u job next saved
        (remember_planning-jobs s next kept next.id
          ∙ (ap (job_row s) same ∙ first_job-row s id got))
        before after (remember_planning-IsConsistent s next kept c)

  admit_action-Rests :
      (wanted : Action) (guidance : String) (tolerance at : ℕ)
      → Rests (admit_action wanted guidance tolerance at)
  unfolding admit_action
  admit_action-Rests wanted guidance tolerance at job next h w = ground arith

  decide_action-Rests :
      (wanted : Action) (guidance : String) (tolerance at : ℕ) (expected : Option Job)
      → Rests (decide_action wanted guidance tolerance at expected)
  unfolding decide_action
  decide_action-Rests wanted guidance tolerance at expected job next h =
      admit_action-Rests wanted guidance tolerance at job next
        (reject-eq-ok (stale expected job) conflict (admit_action wanted guidance tolerance at job)
          h).1

  decide_answer-Rests :
      (planned : Job) → is_repairing planned.state ≡ false → Rests (decide_answer planned)
  unfolding decide_answer
  decide_answer-Rests planned quiet job next h w = ground arith

  decide_removal-Rests :
      (asked : Job) (failure : Option String) (at : ℕ) → Rests (decide_removal asked failure at)
  unfolding decide_removal
  decide_removal-Rests asked failure at job next h w = ground arith

  decide_removing-Rests : (at : ℕ) → Rests (decide_removing at)
  unfolding decide_removing
  decide_removing-Rests at job next h w = ground arith

  decide_plan-Rests :
      (fingerprint : String) (plan : Raw) (guidance : String) (at : ℕ)
      → Rests (decide_plan fingerprint plan guidance at)
  unfolding decide_plan
  decide_plan-Rests fingerprint plan guidance at job next h w = ground arith

  module _ (s : Db) (c : IsConsistent g s) where
    -- A transaction of one of the two shapes, with its value or without.
    modified-IsConsistent :
        (id : ℕ) (decide : Job → Result Error Job)
        → Rests decide
        → IsConsistent g (transaction g s (no_value g (modify_job g s id decide))).1
    modified-IsConsistent id decide rests =
        transaction-keeps g (IsConsistent g) s _
          (λ v t h.
            let (next, body) = no_value-eq-ok g _ h in
            modify_job-IsConsistent s id decide next t rests body c)
          c

    remembered-IsConsistent :
        (id : ℕ) (decide : Job → Result Error Job)
        → Rests decide
        → IsConsistent g (transaction g s (no_value g (modify_and_remember g s id decide))).1
    remembered-IsConsistent id decide rests =
        transaction-keeps g (IsConsistent g) s _
          (λ v t h.
            let (next, body) = no_value-eq-ok g _ h in
            modify_and_remember-IsConsistent s id decide next t rests body c)
          c

    pub request_action-IsConsistent :
        (id : ℕ) (wanted : Action) (guidance : String) (tolerance at : ℕ)
        → IsConsistent g (request_action g s id wanted guidance tolerance at).1
    unfolding request_action
    request_action-IsConsistent id wanted guidance tolerance at =
        modified-IsConsistent id _ (decide_action-Rests wanted guidance tolerance at none)

    pub request_reconsideration-IsConsistent :
        (expected : Job) (guidance : String) (tolerance at : ℕ)
        → IsConsistent g (request_reconsideration g s expected guidance tolerance at).1
    unfolding request_reconsideration
    request_reconsideration-IsConsistent expected guidance tolerance at =
        modified-IsConsistent expected.id _
          (decide_action-Rests Action.reconsider guidance tolerance at (some expected))

    pub finish_planning-IsConsistent :
        (planned : Job)
        → is_repairing planned.state ≡ false
        → IsConsistent g (finish_planning g s planned).1
    unfolding finish_planning
    finish_planning-IsConsistent planned quiet =
        remembered-IsConsistent planned.id _ (decide_answer-Rests planned quiet)

    pub finish_removal-IsConsistent :
        (asked : Job) (failure : Option String) (at : ℕ)
        → IsConsistent g (finish_removal g s asked failure at).1
    unfolding finish_removal
    finish_removal-IsConsistent asked failure at =
        modified-IsConsistent asked.id _ (decide_removal-Rests asked failure at)

    pub start_removal-IsConsistent : (id at : ℕ) → IsConsistent g (start_removal g s id at).1
    unfolding start_removal
    start_removal-IsConsistent id at =
        transaction-keeps g (IsConsistent g) s _
          (λ next t h. modify_job-IsConsistent s id _ next t (decide_removing-Rests at) h c) c

    pub set_plan-IsConsistent :
        (id : ℕ) (fingerprint : String) (plan : Raw) (guidance : String) (at : ℕ)
        → IsConsistent g (set_plan g s id fingerprint plan guidance at).1
    unfolding set_plan
    set_plan-IsConsistent id fingerprint plan guidance at =
        remembered-IsConsistent id _ (decide_plan-Rests fingerprint plan guidance at)
