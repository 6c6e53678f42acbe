-- ===== src/Repair/Disabled.antt =====
-- The switch that disables repairs (`advance` and `advanceJob` of internal/repair/scheduler.go).
use nix.Base.{
  ◌≡◌, refl, ok, Bool, true, false, not, ◌||◌, ◌&&◌, arith, sym, ap, if◌then◌else◌, str_eq,
}
use nix.Jobs.Model.{Job, is_importing, is_running, is_ready}
use nix.Jobs.Database.{Gorm, GormLaws, SameAttempts, transaction-keeps, no_value-eq-ok}
use nix.Jobs.Planning.{finish_planning, decide_answer}
use nix.Jobs.History.{modify_and_remember-eq-ok, planning_result, remember_planning}
use nix.Jobs.Model.{Service}
use nix.Repair.World.{Outside, World, Exec, pure}
use nix.Repair.Quiet.{IsQuiet, quiet_rules, Grows, Grows-refl, IsQuiet-pure}
use nix.Repair.Once.{run-resumes}
use nix.Repair.Scheduler.{plan, repair_if_ready, advance_due, advance_job, advance_idle}
use nix.Repair.Engine.{run}

module _ (g : Gorm) (laws : GormLaws g) (o : Outside) (name : Service) where
  remembered-SameAttempts :
      (fingerprinted : Bool) (s : g.Db) (job : Job) {t : g.Db}
      → (if fingerprinted then ok s else g.upsert_result s (planning_result job)) ≡ ok t
      → SameAttempts g s t
  remembered-SameAttempts true s job h =
      let same : s ≡ _ = ground arith in
      record { attempts = λ i n. ap (λ u. g.attempt_row u i n) (sym same) }
  remembered-SameAttempts false s job h = laws.upsert_result-attempts s (planning_result job) h

  remember_planning-SameAttempts :
      (s : g.Db) (job : Job) {t : g.Db} → remember_planning g s job ≡ ok t → SameAttempts g s t
  unfolding remember_planning
  remember_planning-SameAttempts s job h =
      remembered-SameAttempts (str_eq job.planning_fingerprint "") s job h

  finish_planning-Grows : (s : g.Db) (planned : Job) → Grows g s (finish_planning g s planned).1
  unfolding finish_planning
  finish_planning-Grows s planned =
      transaction-keeps g (Grows g s) s _
        (λ v t h.
          let (next, body) = no_value-eq-ok g _ h in
          let (job, u, got, decided, remembered, saved) =
            modify_and_remember-eq-ok g s planned.id (decide_answer planned) body in
          record {
            at = λ i n a row. (
              a,
              ground (
                arith,
                (remember_planning-SameAttempts s next remembered).attempts i n,
                (laws.save_job-attempts u next saved).attempts i n,
              ),
            );
          })
        (Grows-refl g s)

  plan-IsQuiet : (job : Job) → IsQuiet (plan g o name job)
  unfolding plan
  plan-IsQuiet job = record {
    at = λ w. record { submissions = refl; grows = finish_planning-Grows w.db _ };
  }

  -- A conditional has what each branch has under its test.
  if-cases :
      {A : Type 0} (P : A → Type 0) (b : Bool) (m n : A)
      → (b ≡ true → P m)
      → (b ≡ false → P n)
      → P (if b then m else n)
  if-cases P true m n p q = p refl
  if-cases P false m n p q = q refl

  and_never : (a b : Bool) → (a && (b && not true)) ≡ false
  and_never a b = ground arith

  repair_if_ready-disabled : (job : Job) → IsQuiet (repair_if_ready g o name job true)
  unfolding repair_if_ready
  repair_if_ready-disabled job =
      if-cases IsQuiet (is_ready job.state && (str_eq job.collection_error "" && not true)) _
        (pure tt)
        (λ e.
          absurd
            (ground (arith, e, and_never (is_ready job.state) (str_eq job.collection_error ""))))
        (λ e. IsQuiet-pure tt)

  advance_due-disabled : (job : Job) → IsQuiet (advance_due g o name job true)
  unfolding advance_due
  advance_due-disabled job = search (quiet_rules, plan-IsQuiet, repair_if_ready-disabled) depth 16

  advance_idle-disabled : (job : Job) → IsQuiet (advance_idle g o name job true)
  unfolding advance_idle
  advance_idle-disabled job = search (quiet_rules, advance_due-disabled) depth 16

  -- Where a database call answers as `GormLaws` says: while repairs are disabled, `advanceJob` on a
  -- job that is as the database has it makes no submission, whatever the clock, the planner and the
  -- service answer.
  pub advance_job-disabled :
      (job : Job) (w : World g o)
      → g.first_job w.db job.id ≡ ok job
      → (advance_job g o name job true w).1.submissions ≡ w.submissions
  unfolding advance_job
  advance_job-disabled job w got =
      if-cases (λ (m : Exec (World g o) (Unit {0})). (m w).1.submissions ≡ w.submissions)
        (is_importing job.state || is_running job.state) (run g o job.id)
        (advance_idle g o name job true)
        (λ busy. run-resumes g laws o job.id w job got (ground (arith, busy)))
        (λ idle. ((advance_idle-disabled job).at w).submissions)
