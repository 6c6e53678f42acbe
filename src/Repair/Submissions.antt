-- ===== src/Repair/Submissions.antt =====
-- The parts of the repair engine around its one submission, and what a stored attempt's row says
-- (internal/repair/engine.go).
use nix.Jobs.Consistency.Repairs.{update_attempt_body-eq-ok}
use nix.Base.{ℕ, ◌≡◌, refl, ok, err, String, Result, ◌<◌, Option, some, arith}
use nix.Jobs.Model.{Error, Attempt, State}
use nix.Jobs.Database.{Gorm, GormLaws, transaction-eq-ok}
use nix.Jobs.Store.{update_attempt, merge_attempt, follow_attempt}
use nix.Repair.World.{Outside, on_db, ImportStatus}
use nix.Repair.Quiet.{IsQuiet, quiet_rules, update_attempt-Grows, IsQuiet-on_db}
use nix.Repair.Engine.{
  finish, reconcile, judge, after_submission, resume, resume_repair, record_answer,
}

module _ (g : Gorm) (laws : GormLaws g) (o : Outside) where
  update-IsQuiet :
      (attempt : Attempt) → IsQuiet (on_db {g = g} {o = o} (λ s. update_attempt g s attempt))
  update-IsQuiet attempt = IsQuiet-on_db _ (λ s. update_attempt-Grows g laws s attempt)

  ruleset engine_rules = (quiet_rules, update-IsQuiet)

  pub finish-IsQuiet :
      (attempt : Attempt) (state : State) (reason : String)
      → IsQuiet (finish g o attempt state reason)
  unfolding finish
  finish-IsQuiet attempt state reason = search engine_rules depth 16

  judge-IsQuiet :
      (attempt : Attempt) (r : Result Error ImportStatus) → IsQuiet (judge g o attempt r)
  unfolding judge
  judge-IsQuiet attempt (err e) = search engine_rules depth 16
  judge-IsQuiet attempt (ok status) = search engine_rules depth 16

  reconcile-IsQuiet : (attempt : Attempt) → IsQuiet (reconcile g o attempt)
  unfolding reconcile
  reconcile-IsQuiet attempt = search (engine_rules, judge-IsQuiet) depth 16

  after_submission-IsQuiet :
      (failure : Option Error) (attempt : Attempt) (r : Result Error (Unit {0}))
      → IsQuiet (after_submission g o failure attempt r)
  unfolding after_submission
  after_submission-IsQuiet failure attempt (err e) = search engine_rules depth 16
  after_submission-IsQuiet failure attempt (ok u) =
      search (engine_rules, reconcile-IsQuiet) depth 16

  pub record_answer-IsQuiet :
      (attempt : Attempt) (answer : Result Error ℕ) → IsQuiet (record_answer g o attempt answer)
  unfolding record_answer
  record_answer-IsQuiet attempt answer = search (engine_rules, after_submission-IsQuiet) depth 16

  resume-IsQuiet : (attempt : Attempt) → IsQuiet (resume g o attempt)
  unfolding resume
  resume-IsQuiet attempt = search (engine_rules, finish-IsQuiet, reconcile-IsQuiet) depth 16

  pub resume_repair-IsQuiet : (id : ℕ) → IsQuiet (resume_repair g o id)
  unfolding resume_repair
  resume_repair-IsQuiet id = search (engine_rules, resume-IsQuiet) depth 16

  -- A successful update leaves the attempt's own state and request in its row.
  pub update_attempt-row :
      (s : g.Db) (attempt : Attempt) {t : g.Db}
      → 0 < attempt.job_id
      → 0 < attempt.number
      → update_attempt g s attempt ≡ (ok tt, t)
      → (a : Attempt) × (g.attempt_row t attempt.job_id attempt.number ≡ some a)
        × (a.state ≡ attempt.state)
        × (a.import_request ≡ attempt.import_request)
  unfolding update_attempt
  update_attempt-row s attempt {t} known numbered h =
      let (previous, job, u, read, busy, wrote, got, saved) =
        update_attempt_body-eq-ok g laws s attempt (transaction-eq-ok g s _ h) in
      let (i, n) =
        laws.attempt_row-key s attempt.job_id attempt.number
          (laws.first_attempt_lem s attempt.job_id attempt.number read known numbered) in
      (
        merge_attempt previous attempt,
        ground (
          arith,
          laws.save_attempt_lem s (merge_attempt previous attempt) wrote attempt.job_id
              attempt.number,
          (laws.save_job-attempts u (follow_attempt job attempt) saved).attempts attempt.job_id
              attempt.number,
        ),
        refl,
        refl,
      )
