-- ===== src/Jobs/Exclusion.antt =====
-- What excludes what among the operations of pkgs/media-repair/internal/jobs: repairs, removals and
-- planning answers of one job.
use nix.Base.{
  ℕ, ◌≡◌, some, ok, err, Result, arith, inl, false, ◌⊎◌, inr, refl, ap, ◌∙◌, String, inc64, ◌+◌,
  none, ◌<◌, ◌^◌,
}
use nix.Jobs.Model.{Job, Error, Attempt, Action, conflict, persisted, is_ready}
use nix.Jobs.Database.{
  Gorm, GormLaws, modify_job, transaction-eq-ok, no_value-eq-ok, modify_job-eq-ok,
}
use nix.Jobs.History.{modify_and_remember}
use nix.Jobs.Store.{start, start_body, set_running}
use nix.Jobs.Planning.{
  start_removal, request_action, finish_planning, decide_removing, decide_answer, admit_action,
  decide_action, requested,
}
use nix.Jobs.Consistency.Repairs.{start_body-eq-ok}

-- What a request that passed its guards makes of the job.
requested_lem :
    (wanted : Action) (guidance : String) (tolerance at : ℕ) (job next : Job)
    → decide_action wanted guidance tolerance at none job ≡ ok next
    → next ≡ requested job wanted guidance tolerance at
unfolding decide_action admit_action
requested_lem wanted guidance tolerance at job next h = ground arith

requested-id :
    (job : Job) (wanted : Action) (guidance : String) (tolerance at : ℕ)
    → (requested job wanted guidance tolerance at).id ≡ job.id
requested-id job wanted guidance tolerance at = ground arith

requested-revision :
    (job : Job) (wanted : Action) (guidance : String) (tolerance at : ℕ)
    → (requested job wanted guidance tolerance at).revision ≡ inc64 job.revision
requested-revision job wanted guidance tolerance at = ground arith

module _ (g : Gorm) (laws : GormLaws g) where
  open g use {Db, job_row, first_job, save_job, last_attempt}

  -- What is read of a job is its row.
  read_row :
      (s : Db) (id : ℕ) (job : Job) (r : Result Error Job)
      → first_job s id ≡ r
      → job_row s id ≡ some job
      → (r ≡ ok job) ⊎ ((e : Error) × (r ≡ err e))
  read_row s id job (ok j) e row = inl (ground (arith, laws.first_job_lem s id e))
  read_row s id job (err x) e row = inr (x, refl)

  modify_job-refused :
      (s : Db) (id : ℕ) (job : Job) (decide : Job → Result Error Job)
      → job_row s id ≡ some job
      → decide job ≡ err conflict
      → (e : Error) × (modify_job g s id decide ≡ err e)
  modify_job-refused s id job decide row refuse =
      elim (read_row s id job (first_job s id) refl row) [
        | inl got ↦ (conflict, rw got (rw refuse))
        | inr (e, failed) ↦ (e, rw failed)
      ]

  modify_and_remember-refused :
      (s : Db) (id : ℕ) (job : Job) (decide : Job → Result Error Job)
      → job_row s id ≡ some job
      → decide job ≡ err conflict
      → (e : Error) × (modify_and_remember g s id decide ≡ err e)
  modify_and_remember-refused s id job decide row refuse =
      elim (read_row s id job (first_job s id) refl row) [
        | inl got ↦ (conflict, rw got (rw refuse))
        | inr (e, failed) ↦ (e, rw failed)
      ]

  start-refused :
      (s : Db) (id at : ℕ) (job : Job)
      → job_row s id ≡ some job
      → is_ready job.state ≡ false
      → (e : Error) × (start g s id at ≡ (err e, s))
  unfolding start start_body
  start-refused s id at job row refuse = elim (read_row s id job (first_job s id) refl row) [
    | inl got ↦ (conflict, rw got (rw refuse))
    | inr (e, failed) ↦ (e, rw failed)
  ]

  -- The row of a job whose repair began.
  started_row :
      (s : Db) (id at : ℕ) {attempt : Attempt} {t : Db}
      → start g s id at ≡ (ok attempt, t)
      → (job : Job) × (job_row s id ≡ some job)
        × (job_row t id ≡ some (persisted (set_running job at)))
  unfolding start
  started_row s id at h =
      let (job, number, u, got, _, _, made, saved, _) =
        start_body-eq-ok g laws s id at (transaction-eq-ok g s _ h) in
      let row = laws.first_job_lem s id got in
      let named = laws.job_row-id s id row in
      let pos = laws.job_row-pos s id row in
      (job, row, ground (arith, laws.save_job_lem u (set_running job at) saved (rw named pos) id))

  -- Where a database call answers as `GormLaws` says: once `Start` succeeded on a job, a second
  -- `Start` and `StartRemoval` of the job, and `FinishPlanning` with any answer for it, each fail
  -- and leave the database as it is.
  pub start-excludes :
      (s : Db) (id at later : ℕ) (planned : Job) {attempt : Attempt} {t : Db}
      → start g s id at ≡ (ok attempt, t)
      → planned.id ≡ id
      → ((e : Error) × (start g t id later ≡ (err e, t)))
        × ((e : Error) × (start_removal g t id later ≡ (err e, t)))
        × ((e : Error) × (finish_planning g t planned ≡ (err e, t)))
  unfolding start_removal finish_planning decide_removing decide_answer
  start-excludes s id at later planned {t = t} h named =
      let (job, before, row) = started_row s id at h in
      let (e, refuse) =
        modify_job-refused t id (persisted (set_running job at)) (decide_removing later) row
          (ground arith) in
      let (f, no_answer) =
        modify_and_remember-refused t planned.id (persisted (set_running job at))
          (decide_answer planned) (ap (job_row t) named ∙ row) (ground arith) in
      (
        start-refused t id later (persisted (set_running job at)) row refl,
        (e, rw refuse),
        (f, rw no_answer),
      )

  -- Where a database call answers as `GormLaws` says: an operator's request that `RequestAction`
  -- accepted invalidates a planning answer that carries the revision the job had before, where that
  -- revision is not the largest 64-bit number: `FinishPlanning` of the answer fails and changes
  -- nothing.
  pub request_action-invalidates :
      (s : Db) (wanted : Action) (guidance : String) (tolerance at : ℕ) (job planned : Job) {t : Db}
      → job_row s planned.id ≡ some job
      → job.revision ≡ planned.revision
      → job.revision + 1 < 2 ^ 64
      → request_action g s planned.id wanted guidance tolerance at ≡ (ok tt, t)
      → (e : Error) × (finish_planning g t planned ≡ (err e, t))
  unfolding request_action finish_planning decide_answer
  request_action-invalidates s wanted guidance tolerance at job planned {t = t} row same small h =
      let body = transaction-eq-ok g s _ h in
      let (next, modified) = no_value-eq-ok g _ body in
      let (read, got, decided, saved) = modify_job-eq-ok g s planned.id _ modified in
      let is_read : read ≡ job = ground (arith, laws.first_job_lem s planned.id got) in
      let is_next : next ≡ requested job wanted guidance tolerance at =
        requested_lem wanted guidance tolerance at job next (rw is_read at decided) in
      let named : next.id ≡ planned.id =
        ap (λ (j : Job). j.id) is_next
        ∙ (requested-id job wanted guidance tolerance at ∙ laws.job_row-id s planned.id row) in
      let pos = laws.job_row-pos s planned.id row in
      let now : job_row t planned.id ≡ some (persisted next) =
        ground (arith, laws.save_job_lem s next saved (rw named pos) planned.id) in
      let newer = requested-revision job wanted guidance tolerance at in
      let (f, refuse) =
        modify_and_remember-refused t planned.id (persisted next) (decide_answer planned) now
          (ground (arith, newer, is_next)) in
      (f, rw refuse)
