-- ===== src/Repair/Once.antt =====
-- The order of the writes and the submission in `Engine.Run` and `Engine.execute`
-- (internal/repair/engine.go).
use nix.Base.{
  ℕ, ◌≡◌, refl, ok, err, Result, some, List, [], ◌∷◌, All, All-map, Bool, true, false, ◌==◌, ◌&&◌,
  ◌<◌, inl, inr, arith, Bool-cases, subst, ◌≢◌, sym, if◌then◌else◌, ◌||◌,
}
use nix.Jobs.Model.{
  Error, Attempt, Job, State, is_ready, is_running, is_importing, is_blocked_error, error_text,
}
use nix.Jobs.Database.{Gorm, GormLaws, transaction-eq-ok}
use nix.Jobs.Store.{start, update_attempt}
use nix.Jobs.Consistency.{FewAttempts}
use nix.Jobs.Consistency.Repairs.{start_body-eq-ok, next_number_lem}
use nix.Repair.World.{Outside, World, Exec, Submission, PreparedImport, continue, pure}
use nix.Repair.Quiet.{Quiet, Grows, update_attempt-Grows, start-Grows}
use nix.Repair.Submissions.{
  finish-IsQuiet, record_answer-IsQuiet, resume_repair-IsQuiet, update_attempt-row,
}
use nix.Repair.Engine.{
  run, begin_repair, execute, after_repair, execute_prepared, import_prepared, submit_import,
  intent, run_job, resume_repair,
}

abbrev pub same_attempt : ℕ → ℕ → Submission → Bool
same_attempt i n s = (s.job_id == i) && (s.number == n)

abbrev pub Once : List Submission → Type 0
Once [] = Unit
Once (s ∷ older) =
    All (λ (t : Submission). same_attempt s.job_id s.number t ≡ false) older × Once older

-- The attempt's row, when its import was submitted, said that the import is being submitted, and with
-- which request.
pub record IsIntended (s : Submission) : Type 0 where
  pub row : Attempt
  pub stored : s.stored ≡ some row
  pub importing : row.state ≡ State.importing
  pub request : row.import_request ≡ s.request

abbrev pub Known : (g : Gorm) → g.Db → Submission → Type 0
Known g db s = (a : Attempt) × (g.attempt_row db s.job_id s.number ≡ some a)

-- An attempt that is not in the database has no submission.
unknown-Fresh :
    (g : Gorm) (db : g.Db) (i n : ℕ) (ss : List Submission)
    → ((a : Attempt) → g.attempt_row db i n ≢ some a)
    → All (Known g db) ss
    → All (λ (s : Submission). same_attempt i n s ≡ false) ss
unknown-Fresh g db i n [] unknown known = tt
unknown-Fresh g db i n (s ∷ ss) unknown known = (
  elim (Bool-cases (same_attempt i n s)) [
    | inl e ↦ absurd (unknown known.0.0 (ground (arith, known.0.1)))
    | inr e ↦ e
  ],
  unknown-Fresh g db i n ss unknown known.1,
)

module _ {g : Gorm} {o : Outside} where
  pub record IsSafe (w : World g o) : Type 0 where
    pub once : Once w.submissions
    pub known : All (Known g w.db) w.submissions
    pub intended : All IsIntended w.submissions

  pub Fresh : ℕ → ℕ → World g o → Type 0
  Fresh i n w = All (λ (s : Submission). same_attempt i n s ≡ false) w.submissions

  Quiet-IsSafe : {w v : World g o} → Quiet w v → IsSafe w → IsSafe v
  Quiet-IsSafe {w} {v} q safe = record {
    once = subst Once (sym q.submissions) safe.once;
    known =
        subst (All (Known g v.db)) (sym q.submissions)
          (All-map _ _ w.submissions (λ s k. q.grows.at s.job_id s.number k.0 k.1) safe.known);
    intended = subst (All IsIntended) (sym q.submissions) safe.intended;
  }

module _ (g : Gorm) (laws : GormLaws g) (o : Outside) where
  -- The attempt's own row, as it must be before the submission.
  record IsStoredIntent (db : g.Db) (attempt : Attempt) : Type 0 where
    row : Attempt
    stored : g.attempt_row db attempt.job_id attempt.number ≡ some row
    importing : row.state ≡ State.importing
    request : row.import_request ≡ attempt.import_request

  import_prepared-IsSafe :
      (attempt : Attempt) (w : World g o)
      → Fresh attempt.job_id attempt.number w
      → IsStoredIntent w.db attempt
      → IsSafe w
      → IsSafe (import_prepared g o attempt w).1
  unfolding import_prepared submit_import Fresh
  import_prepared-IsSafe attempt w fresh i safe =
      Quiet-IsSafe
        ((record_answer-IsQuiet g laws o attempt (submit_import g o attempt w).0).at
          (submit_import g o attempt w).1)
        (record {
          once = (fresh, safe.once);
          known = ((i.row, i.stored), safe.known);
          intended = (
            record { row = i.row; stored = i.stored; importing = i.importing; request = i.request },
            safe.intended,
          );
        })

  -- The submission after the intent was stored.
  stored-IsSafe :
      (next : Attempt) (w : World g o) (env : o.Env) (r : Result Error (Unit {0}) × g.Db)
      → update_attempt g w.db next ≡ r
      → 0 < next.job_id
      → 0 < next.number
      → next.state ≡ State.importing
      → Fresh next.job_id next.number w
      → IsSafe w
      → IsSafe
          (continue
            (λ (_ : Unit {0}). import_prepared g o next)
            r.0
            (record w { env = env; db = r.1 })).1
  unfolding Fresh
  stored-IsSafe next w env (ok u, t) e known numbered importing fresh safe =
      let (row, stored, state, request) = update_attempt-row g laws o w.db next known numbered e in
      let grows : Grows g w.db t =
        subst (λ r. Grows g w.db r.1) e (update_attempt-Grows g laws w.db next) in
      import_prepared-IsSafe next (record w { env = env; db = t }) fresh
        (record {
          row = row;
          stored = stored;
          importing = ground (arith, state, importing);
          request = request;
        })
        (Quiet-IsSafe (record { submissions = refl; grows = grows }) safe)
  stored-IsSafe next w env (err x, t) e known numbered importing fresh safe =
      let grows : Grows g w.db t =
        subst (λ r. Grows g w.db r.1) e (update_attempt-Grows g laws w.db next) in
      Quiet-IsSafe (record { submissions = refl; grows = grows }) safe

  after_repair-IsSafe :
      (attempt : Attempt) (r : Result Error PreparedImport) (w : World g o)
      → 0 < attempt.job_id
      → 0 < attempt.number
      → Fresh attempt.job_id attempt.number w
      → IsSafe w
      → IsSafe (after_repair g o attempt r w).1
  unfolding after_repair execute_prepared Fresh
  after_repair-IsSafe attempt (ok prepared) w known numbered fresh safe =
      stored-IsSafe (intent attempt prepared (o.now w.env).0) w (o.now w.env).1 _ refl known
        numbered refl fresh safe
  after_repair-IsSafe attempt (err e) w known numbered fresh safe =
      Quiet-IsSafe
        ((finish-IsQuiet g laws o attempt
            (if is_blocked_error e then State.blocked else State.failed) (error_text e)).at
          w)
        safe

  -- The repair of an attempt that `Start` answered, and that has no submission yet.
  started-IsSafe :
      (id at : ℕ) (job : Job) (w : World g o) (env : o.Env) (r : Result Error Attempt × g.Db)
      → start g w.db id at ≡ r
      → FewAttempts g w.db id
      → IsSafe w
      → IsSafe (continue (execute g o job) r.0 (record w { env = env; db = r.1 })).1
  unfolding start execute Fresh
  started-IsSafe id at job w env (ok attempt, t) e few safe =
      let (row, number, u, got, free, counted, made, saved, named) =
        start_body-eq-ok g laws w.db id at (transaction-eq-ok g w.db _ e) in
      let pos = laws.job_row-pos w.db id (laws.first_job_lem w.db id got) in
      let (numbered, largest) = next_number_lem g laws w.db id number pos few counted in
      let grows : Grows g w.db t =
        subst (λ r. Grows g w.db r.1) e (start-Grows g laws w.db id at) in
      let fresh : Fresh attempt.job_id attempt.number w =
        subst (λ (b : Attempt). Fresh b.job_id b.number w) (sym named)
          (unknown-Fresh g w.db id number w.submissions (λ a h. omega (arith, largest number a h))
            safe.known) in
      after_repair-IsSafe attempt (o.repair env job attempt).0
        (record w { env = (o.repair env job attempt).1; db = t }) (ground (arith, pos, named))
        (ground (arith, numbered, named)) fresh
        (Quiet-IsSafe (record { submissions = refl; grows = grows }) safe)
  started-IsSafe id at job w env (err x, t) e few safe =
      let grows : Grows g w.db t =
        subst (λ r. Grows g w.db r.1) e (start-Grows g laws w.db id at) in
      Quiet-IsSafe (record { submissions = refl; grows = grows }) safe

  begin_repair-IsSafe :
      (id : ℕ) (job : Job) (w : World g o)
      → FewAttempts g w.db id
      → IsSafe w
      → IsSafe (begin_repair g o id job w).1
  unfolding begin_repair
  begin_repair-IsSafe id job w few safe =
      started-IsSafe id (o.now w.env).0 job w (o.now w.env).1 _ refl few safe

  if-IsSafe :
      (b : Bool) (m n : Exec (World g o) (Unit {0})) (w : World g o)
      → IsSafe (m w).1
      → IsSafe (n w).1
      → IsSafe ((if b then m else n) w).1
  if-IsSafe true m n w p q = p
  if-IsSafe false m n w p q = q

  run_job-IsSafe :
      (id : ℕ) (r : Result Error Job) (w : World g o)
      → FewAttempts g w.db id
      → IsSafe w
      → IsSafe (continue (run_job g o id) r w).1
  unfolding run_job
  run_job-IsSafe id (err e) w few safe = safe
  run_job-IsSafe id (ok job) w few safe =
      if-IsSafe (is_ready job.state) (begin_repair g o id job)
        (if is_running job.state || is_importing job.state then resume_repair g o id else pure tt) w
        (begin_repair-IsSafe id job w few safe)
        (if-IsSafe (is_running job.state || is_importing job.state) (resume_repair g o id) (pure tt)
          w (Quiet-IsSafe ((resume_repair-IsQuiet g laws o id).at w) safe) safe)

  -- The submissions made so far stay safe, where a database call answers as `GormLaws` says and the
  -- job's attempts are fewer than a 64-bit number counts: after `Engine.Run` on any job, whatever
  -- fails on the way, no two submissions are for one attempt, each submission's attempt is in the
  -- database, and the attempt's row was importing, with the request submitted, when it was made.
  pub run-IsSafe :
      (id : ℕ) (w : World g o) → FewAttempts g w.db id → IsSafe w → IsSafe (run g o id w).1
  unfolding run
  run-IsSafe id w few safe = run_job-IsSafe id (g.first_job w.db id) w few safe

  busy-resumes :
      {A : Type 0} (state : State) (m n k : A)
      → (is_running state || is_importing state) ≡ true
      → (if is_ready state then m else if is_running state || is_importing state then n else k) ≡ n
  busy-resumes State.running m n k h = refl
  busy-resumes State.importing m n k h = refl
  busy-resumes State.observed m n k h = cc
  busy-resumes State.ready m n k h = cc
  busy-resumes State.imported m n k h = cc
  busy-resumes State.blocked m n k h = cc
  busy-resumes State.failed m n k h = cc
  busy-resumes State.removed m n k h = cc
  busy-resumes State.removing m n k h = cc

  run_job-resumes :
      (id : ℕ) (job : Job)
      → (is_running job.state || is_importing job.state) ≡ true
      → run_job g o id job ≡ resume_repair g o id
  unfolding run_job
  run_job-resumes id job busy = busy-resumes job.state _ (resume_repair g o id) _ busy

  -- Where a database call answers as `GormLaws` says: `Engine.Run` on a job that the database has
  -- as running or importing makes no submission, whatever its attempt and the service answer.
  pub run-resumes :
      (id : ℕ) (w : World g o) (job : Job)
      → g.first_job w.db id ≡ ok job
      → (is_running job.state || is_importing job.state) ≡ true
      → (run g o id w).1.submissions ≡ w.submissions
  unfolding run
  run-resumes id w job got busy =
      let kept : (resume_repair g o id w).1.submissions ≡ w.submissions =
        ((resume_repair-IsQuiet g laws o id).at w).submissions in
      subst (λ r. (continue (run_job g o id) r w).1.submissions ≡ w.submissions) (sym got)
        (subst (λ m. (m w).1.submissions ≡ w.submissions) (sym (run_job-resumes id job busy)) kept)
