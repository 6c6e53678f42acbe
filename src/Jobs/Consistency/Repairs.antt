-- ===== src/Jobs/Consistency/Repairs.antt =====
-- Starting and updating a repair attempt (`Start` and `UpdateAttempt` of internal/jobs/store.go), for
-- the agreement of jobs and attempts.
use nix.Base.{
  ℕ, ◌≡◌, some, ok, >>=-eq-ok, reject-eq-ok, not, ◌||◌, ◌<◌, ◌+◌, false, arith, Result,
  inc64-eq_of_lt, err, refl, ◌≢◌, true, sym, ◌∙◌, ap,
}
use nix.Jobs.Model.{
  Error, Job, Attempt, is_ready, is_no_action, conflict, not_found, removing, persisted, active,
}
use nix.Jobs.Database.{Gorm, GormLaws, transaction-keeps}
use nix.Jobs.Store.{
  start, start_body, update_attempt, update_attempt_body, next_number, started, set_running,
  merge_attempt, follow_attempt,
}
use nix.Jobs.Consistency.{is_repairing, IsConsistent, State, OwnsJob, FewAttempts, IsStored}
use nix.Jobs.Consistency.Writes.{PairWritten, pair-IsConsistent}

module _ (g : Gorm) (laws : GormLaws g) where
  open g use {
    Db, job_row, attempt_row, first_job, save_job, last_attempt, create_attempt, first_attempt,
    save_attempt,
  }

  -- The next number is positive, and no attempt has it or a larger one.
  pub next_number_lem :
      (s : Db) (id number : ℕ)
      → 0 < id
      → FewAttempts g s id
      → next_number (last_attempt s id) ≡ ok number
      → (0 < number) × ((m : ℕ) (b : Attempt) → attempt_row s id m ≡ some b → m < number)
  next_number_lem s id number pos few h = go (last_attempt s id) refl h
    where
      go :
          (r : Result Error Attempt)
          → last_attempt s id ≡ r
          → next_number r ≡ ok number
          → (0 < number) × ((m : ℕ) (b : Attempt) → attempt_row s id m ≡ some b → m < number)
      go (ok a) e h =
          let top = few a.number a (laws.last_attempt_lem s id e pos) in
          let next : number ≡ a.number + 1 = ground (arith, inc64-eq_of_lt a.number top) in
          (omega arith, λ m b r. omega (arith, laws.last_attempt-max s id e pos m r))
      go (err not_found) e h = (ground arith, λ m b r. cc (laws.last_attempt-none s id e pos m))
      go (err e') e h = ground arith

  -- A successful `Start` in its parts.
  pub start_body-eq-ok :
      (s : Db) (id at : ℕ) {attempt : Attempt} {t : Db}
      → start_body g s id at ≡ ok (attempt, t)
      → (job : Job) × (number : ℕ) × (u : Db) × (first_job s id ≡ ok job)
        × (not (is_ready job.state) || not (is_no_action job.pending_action) ≡ false)
        × (next_number (last_attempt s id) ≡ ok number)
        × (create_attempt s (started id number job.plan at) ≡ ok u)
        × (save_job u (set_running job at) ≡ ok t)
        × (attempt ≡ started id number job.plan at)
  unfolding start_body
  start_body-eq-ok s id at h =
      let (job, got, h1) = >>=-eq-ok (first_job s id) _ h in
      let (free, h2) =
        reject-eq-ok (not (is_ready job.state) || not (is_no_action job.pending_action)) conflict _
          h1 in
      let (number, counted, h3) = >>=-eq-ok (next_number (last_attempt s id)) _ h2 in
      let (u, made, h4) = >>=-eq-ok (create_attempt s (started id number job.plan at)) _ h3 in
      let (v, saved, h5) = >>=-eq-ok (save_job u (set_running job at)) _ h4 in
      (job, number, u, got, free, counted, made, ground arith, ground arith)

  start_body-IsConsistent :
      (s : Db) (id at : ℕ) (attempt : Attempt) (t : Db)
      → FewAttempts g s id
      → start_body g s id at ≡ ok (attempt, t)
      → IsConsistent g s
      → IsConsistent g t
  start_body-IsConsistent s id at attempt t few h c =
      let (job, number, u, got, free, counted, made, saved, _) = start_body-eq-ok s id at h in
      let row = laws.first_job_lem s id got in
      let named = laws.job_row-id s id row in
      let pos = laws.job_row-pos s id row in
      let (positive, largest) = next_number_lem s id number pos few counted in
      let jobs = laws.create_attempt-jobs s (started id number job.plan at) made in
      let attempts = laws.save_job-attempts u (set_running job at) saved in
      let pair : PairWritten g laws s t id number (persisted (set_running job at))
          (started id number job.plan at) =
        (record {
          jobs = λ i.
              ground (
                arith,
                laws.save_job_lem u (set_running job at) saved (rw named pos) i,
                jobs.jobs i,
              );
          attempts = λ i m. ground (
            arith,
            laws.create_attempt_lem s (started id number job.plan at) made i m,
            attempts.attempts i m,
          );
          agrees = refl;
          kept = λ bad. cc;
          waits = λ rep. ground arith;
          numbered = positive;
          latest = λ m b r. omega (arith, largest m b r);
          unfinished = λ m b r rep. absurd (
              ground (
                arith,
                (c.attempts_owned id m {a = b} r rep).stored,
                (c.attempts_owned id m {a = b} r rep).agrees,
                row,
              ));
        }) in
      pair-IsConsistent g laws pair c

  pub start-IsConsistent :
      (s : Db) (id at : ℕ)
      → FewAttempts g s id
      → IsConsistent g s
      → IsConsistent g (start g s id at).1
  unfolding start
  start-IsConsistent s id at few c =
      transaction-keeps g (IsConsistent g) s _
        (λ attempt t h. start_body-IsConsistent s id at attempt t few h c) c

  -- A successful `UpdateAttempt` in its parts.
  pub update_attempt_body-eq-ok :
      (s : Db) (attempt : Attempt) {v : Unit {0}} {t : Db}
      → update_attempt_body g s attempt ≡ ok (v, t)
      → (previous : Attempt) × (job : Job) × (u : Db) × (first_attempt s attempt.job_id
            attempt.number
          ≡ ok previous)
        × (active previous.state ≡ true)
        × (save_attempt s (merge_attempt previous attempt) ≡ ok u)
        × (first_job u attempt.job_id ≡ ok job)
        × (save_job u (follow_attempt job attempt) ≡ ok t)
  unfolding update_attempt_body
  update_attempt_body-eq-ok s attempt h =
      let (previous, read, h1) = >>=-eq-ok (first_attempt s attempt.job_id attempt.number) _ h in
      let (busy, h2) = reject-eq-ok (not (active previous.state)) conflict _ h1 in
      let (u, wrote, h3) = >>=-eq-ok (save_attempt s (merge_attempt previous attempt)) _ h2 in
      let (job, got, h4) = >>=-eq-ok (first_job u attempt.job_id) _ h3 in
      let (w, saved, h5) = >>=-eq-ok (save_job u (follow_attempt job attempt)) _ h4 in
      (previous, job, u, read, ground arith, wrote, got, ground arith)

  -- An unfinished attempt that `UpdateAttempt` can meet is under repair.
  active_attempt-is_repairing :
      (state : State) → active state ≡ true → state ≢ removing → is_repairing state ≡ true
  active_attempt-is_repairing State.removing h kept = absurd (kept refl)
  active_attempt-is_repairing state h kept = ground arith

  OwnsJob-state :
      {s : Db} {id n : ℕ} {state : State} {job : Job}
      → OwnsJob g s id n state
      → job_row s id ≡ some job
      → job.state ≡ state
  OwnsJob-state o row = ground (arith, o.stored, o.agrees)

  update_attempt_body-IsConsistent :
      (s : Db) (attempt : Attempt) (v : Unit {0}) (t : Db)
      → IsStored attempt
      → update_attempt_body g s attempt ≡ ok (v, t)
      → IsConsistent g s
      → IsConsistent g t
  update_attempt_body-IsConsistent s attempt v t known h c =
      let (previous, job, u, read, busy, wrote, got, saved) =
        update_attempt_body-eq-ok s attempt h in
      let stored =
        laws.first_attempt_lem s attempt.job_id attempt.number read known.job_known
          known.numbered in
      let (same_id, same_number) = laws.attempt_row-key s attempt.job_id attempt.number stored in
      let rep =
        active_attempt-is_repairing previous.state busy
          (c.attempts_kept attempt.job_id attempt.number {a = previous} stored) in
      let owner = c.attempts_owned attempt.job_id attempt.number {a = previous} stored rep in
      let row = laws.first_job_lem u attempt.job_id got in
      let named = laws.job_row-id u attempt.job_id row in
      let merged : Attempt = merge_attempt previous attempt in
      let next : Job = follow_attempt job attempt in
      let jobs = laws.save_attempt-jobs s merged wrote in
      let attempts = laws.save_job-attempts u next saved in
      let current = sym (jobs.jobs attempt.job_id) ∙ row in
      let before =
        c.removals_wait attempt.job_id {job = job} current
          (ap is_repairing (OwnsJob-state owner current) ∙ rep) in
      let pair : PairWritten g laws s t attempt.job_id attempt.number (persisted next) merged =
        record {
          jobs = λ i.
              ground
                (arith, laws.save_job_lem u next saved (rw named known.job_known) i, jobs.jobs i);
          attempts = λ i m.
              ground (arith, laws.save_attempt_lem s merged wrote i m, attempts.attempts i m);
          agrees = refl;
          kept = known.kept;
          waits = λ r. before;
          numbered = known.numbered;
          latest = λ m b r. owner.latest m {b = b} r;
          unfinished = λ m b r b_rep. omega (
            arith,
            owner.latest m {b = b} r,
            (c.attempts_owned attempt.job_id m {a = b} r b_rep).latest attempt.number {b = previous}
                stored,
          );
        } in
      pair-IsConsistent g laws pair c

  pub update_attempt-IsConsistent :
      (s : Db) (attempt : Attempt)
      → IsStored attempt
      → IsConsistent g s
      → IsConsistent g (update_attempt g s attempt).1
  unfolding update_attempt
  update_attempt-IsConsistent s attempt known c =
      transaction-keeps g (IsConsistent g) s _
        (λ v t h. update_attempt_body-IsConsistent s attempt v t known h c) c
