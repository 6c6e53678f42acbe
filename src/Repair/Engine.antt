-- ===== src/Repair/Engine.antt =====
-- pkgs/media-repair/internal/repair/engine.go: running, and resuming, one repair attempt.
use nix.Base.{
  ℕ, ◌*◌, String, not, Option, none, some, ◌∷◌, leb, ◌==◌, str_eq, str_append, Result, ok, err,
  if◌then◌else◌, ◌+◌, ◌||◌,
}
use nix.Jobs.Model.{
  Error, Job, Attempt, State, raw_nonempty, is_ready, is_running, is_importing, is_blocked_error,
  error_text, second,
}
use nix.Jobs.Database.{Gorm}
use nix.Jobs.Store.{start, update_attempt}
use nix.Repair.World.{
  Outside, World, Exec, PreparedImport, ImportStatus, ◌>>=◌, ◌>>◌, pure, give, outcome, on_db,
  reading, outside, asking, join_errors,
}

-- The attempt as `execute` saves it before the import is submitted, and after.
abbrev pub intent : Attempt → PreparedImport → ℕ → Attempt
intent attempt prepared at = record attempt {
  output_path = prepared.output_path;
  import_request = prepared.request;
  history_id_before = prepared.history_id_before;
  state = State.importing;
  import_started_at = at;
  updated_at = at;
}

abbrev pub submitted : Attempt → Result Error ℕ → Attempt
submitted attempt (ok command_id) = record attempt { command_id = command_id }
submitted attempt (err e) = record attempt {
  reason = str_append "import submission uncertain: " (error_text e);
}

abbrev pub finished : Attempt → State → String → ℕ → Attempt
finished attempt state reason at = record attempt {
  state = state;
  reason = reason;
  updated_at = at;
}

-- The branch of `reconcile` for a command that ended without its history, where `first` and
-- `second_reading` are the clock's answers; the first is used only if the end is new.
abbrev pub grace_period : ℕ
grace_period = 30 * second

abbrev pub wait_for_history : Attempt → String → ℕ → Attempt
wait_for_history attempt failure later =
    let waiting = record attempt { reason = "command finished; waiting for import history" } in
    if leb (attempt.import_terminal_at + grace_period) later
    then record waiting { state = State.failed; reason = failure }
    else waiting

abbrev pub import_ended : Attempt → ℕ → Attempt
import_ended attempt now =
    if attempt.import_terminal_at == 0 then record attempt { import_terminal_at = now } else attempt

abbrev pub error_of {ℓ} : {A : Type ℓ} → Result Error A → Option Error
error_of (ok a) = none
error_of (err e) = some e

module _ (g : Gorm) (o : Outside) where
  -- `finish`
  unfoldable pub finish : Attempt → State → String → Exec (World g o) (Unit {0})
  finish attempt state reason = do
    at ← asking o.now
    on_db (λ s. update_attempt g s (finished attempt state reason at))

  -- The clock is read only where the source reads it.
  unfoldable pub end_import : Attempt → Exec (World g o) Attempt
  end_import attempt =
      if attempt.import_terminal_at == 0
      then (do now ← asking o.now; pure (import_ended attempt now))
      else pure attempt

  -- What `reconcile` makes of the attempt.
  unfoldable pub judge : Attempt → Result Error ImportStatus → Exec (World g o) Attempt
  unfolding end_import
  judge attempt (err e) =
      pure (record attempt { reason = str_append "checking import: " (error_text e) })
  judge attempt (ok status) =
      if raw_nonempty status.receipt
      then pure
          (record attempt { state = State.imported; reason = ""; import_receipt = status.receipt })
      else if not (str_eq status.failure "")
      then (do
        ended ← end_import attempt
        later ← asking o.now
        pure (wait_for_history ended status.failure later))
      else if attempt.command_id == 0
      then pure (record attempt {
        reason = "import submission uncertain; checking history without resubmitting";
      })
      else pure attempt

  unfoldable pub reconcile : Attempt → Exec (World g o) (Unit {0})
  unfolding judge
  reconcile attempt = do
    checked ← outcome (outside (λ e. o.check_import e attempt))
    next ← judge attempt checked
    at ← asking o.now
    stored ← outcome (on_db (λ s. update_attempt g s (record next { updated_at = at })))
    give (join_errors (error_of checked) stored)

  -- `Adapter.Submit`, noted with the attempt's row at that moment.
  unfoldable pub submit_import : Attempt → World g o → Result Error ℕ × World g o
  submit_import attempt w = (
    (o.submit w.env attempt.import_request).0,
    record w {
      env = (o.submit w.env attempt.import_request).1;
      submissions =
          record {
            job_id = attempt.job_id;
            number = attempt.number;
            request = attempt.import_request;
            stored = g.attempt_row w.db attempt.job_id attempt.number;
          }
          ∷ w.submissions;
    },
  )

  -- The end of `execute`, once the answer to the submission was saved, or was not.
  unfoldable pub after_submission :
      Option Error → Attempt → Result Error (Unit {0}) → Exec (World g o) (Unit {0})
  unfolding reconcile
  after_submission failure attempt (err e) = give (join_errors failure (err e))
  after_submission failure attempt (ok saved) = do
    rest ← outcome (reconcile attempt)
    give (join_errors failure rest)

  -- `execute` from the answer to the submission on.
  unfoldable pub record_answer : Attempt → Result Error ℕ → Exec (World g o) (Unit {0})
  unfolding after_submission
  record_answer attempt answer = do
    at ← asking o.now
    let next = record (submitted attempt answer) { updated_at = at }
    saved ← outcome (on_db (λ s. update_attempt g s next))
    after_submission (error_of answer) next saved

  unfoldable pub import_prepared : Attempt → Exec (World g o) (Unit {0})
  unfolding submit_import record_answer
  import_prepared attempt = do
    answer ← outcome (submit_import attempt)
    record_answer attempt answer

  unfoldable pub execute_prepared : Attempt → PreparedImport → Exec (World g o) (Unit {0})
  unfolding import_prepared
  execute_prepared attempt prepared = do
    at ← asking o.now
    let next = intent attempt prepared at
    on_db (λ s. update_attempt g s next)
    import_prepared next

  unfoldable pub after_repair : Attempt → Result Error PreparedImport → Exec (World g o) (Unit {0})
  unfolding execute_prepared finish
  after_repair attempt (ok prepared) = execute_prepared attempt prepared
  after_repair attempt (err e) = do
    stored ←
        outcome (
          finish attempt (if is_blocked_error e then State.blocked else State.failed)
            (error_text e))
    give (join_errors (some e) stored)

  unfoldable pub execute : Job → Attempt → Exec (World g o) (Unit {0})
  unfolding after_repair
  execute job attempt = do
    prepared ← outcome (outside (λ e. o.repair e job attempt))
    after_repair attempt prepared

  unfoldable pub resume : Attempt → Exec (World g o) (Unit {0})
  unfolding finish reconcile
  resume attempt =
      if is_running attempt.state
      then finish attempt State.failed "repair interrupted before import; reconsider to retry"
      else reconcile attempt

  unfoldable pub begin_repair : ℕ → Job → Exec (World g o) (Unit {0})
  unfolding execute
  begin_repair id job = do
    at ← asking o.now
    attempt ← on_db (λ s. start g s id at)
    execute job attempt

  unfoldable pub resume_repair : ℕ → Exec (World g o) (Unit {0})
  unfolding resume
  resume_repair id = do attempt ← reading (λ s. g.last_attempt s id); resume attempt

  -- `Engine.Run`, on the job it read.
  unfoldable pub run_job : ℕ → Job → Exec (World g o) (Unit {0})
  unfolding begin_repair resume_repair
  run_job id job =
      if is_ready job.state
      then begin_repair id job
      else if is_running job.state || is_importing job.state
      then resume_repair id
      else pure tt

  unfoldable pub run : ℕ → Exec (World g o) (Unit {0})
  unfolding run_job
  run id = do job ← reading (λ s. g.first_job s id); run_job id job
