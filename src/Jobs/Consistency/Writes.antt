-- ===== src/Jobs/Consistency/Writes.antt =====
-- One lemma for each way in which the job store writes: which writes keep the agreement of jobs and
-- attempts.
use nix.Base.{
  ℕ, ◌≤◌, ◌<◌, ◌≡◌, ◌≢◌, sym, ◌∙◌, ap, ◌&&◌, inl, inr, true, false, some, arith, ◌==◌, ==_iff, ok,
  Bool-cases, if◌then◌else◌,
}
use nix.Jobs.Model.{Job, Attempt, State, PlanningResult, removing, persisted}
use nix.Jobs.Database.{Gorm, GormLaws, SameAttempts, SameJobs}
use nix.Jobs.Consistency.{is_repairing, IsConsistent, CurrentAttempt, OwnsJob, is_delete}

module _ (g : Gorm) (laws : GormLaws g) where
  open g use {Db, job_row, attempt_row, save_job, create_job, upsert_result}

  CurrentAttempt-keep :
      {s t : Db} {id : ℕ} {state : State}
      → SameAttempts g s t
      → CurrentAttempt g s id state
      → CurrentAttempt g t id state
  CurrentAttempt-keep {id} same c = record {
    number = c.number;
    attempt = c.attempt;
    stored = same.attempts id c.number ∙ c.stored;
    agrees = c.agrees;
  }

  OwnsJob-keep :
      {s t : Db} {id n : ℕ} {state : State}
      → SameAttempts g s t
      → job_row t id ≡ job_row s id
      → OwnsJob g s id n state
      → OwnsJob g t id n state
  OwnsJob-keep {id} same rows o = record {
    job = o.job;
    stored = rows ∙ o.stored;
    agrees = o.agrees;
    latest = λ m r. o.latest m (sym (same.attempts id m) ∙ r);
  }

  not_owned :
      {s : Db} {changed id n : ℕ} {state : State}
      → ((old : Job) → job_row s changed ≡ some old → is_repairing old.state ≡ false)
      → id ≡ changed
      → OwnsJob g s id n state
      → is_repairing state ≡ true
      → ⊥
  not_owned {s} before e o rep =
      cc (before o.job (ap (job_row s) (sym e) ∙ o.stored), ap is_repairing o.agrees, rep)

  -- One job's row is replaced, or created, and is repaired neither before nor after.
  change_job-IsConsistent :
      (s t : Db) (changed : ℕ) (new : Job)
      → ((i : ℕ) → job_row t i ≡ (if i == changed then some new else job_row s i))
      → SameAttempts g s t
      → ((old : Job) → job_row s changed ≡ some old → is_repairing old.state ≡ false)
      → is_repairing new.state ≡ false
      → IsConsistent g s
      → IsConsistent g t
  change_job-IsConsistent s t changed new rows same before after c = record {
    jobs_repaired = λ id {job} r rep. elim (Bool-cases (id == changed)) [
      | inl e ↦ absurd (ground (arith, rows id))
      | inr e ↦
          CurrentAttempt-keep same (c.jobs_repaired id {job = job} (ground (arith, rows id)) rep)
    ];
    attempts_owned = λ id n r rep. elim (Bool-cases (id == changed)) [
      | inl e ↦ absurd (
          not_owned before ((==_iff id changed).0 e)
            (c.attempts_owned id n (sym (same.attempts id n) ∙ r) rep) rep)
      | inr e ↦
          OwnsJob-keep same (ground (arith, rows id))
            (c.attempts_owned id n (sym (same.attempts id n) ∙ r) rep)
    ];
    attempts_kept = λ id n r. c.attempts_kept id n (sym (same.attempts id n) ∙ r);
    attempts_numbered = λ id n r. c.attempts_numbered id n (sym (same.attempts id n) ∙ r);
    removals_wait = λ id {job} r rep. elim (Bool-cases (id == changed)) [
      | inl e ↦ absurd (ground (arith, rows id))
      | inr e ↦ c.removals_wait id {job = job} (ground (arith, rows id)) rep
    ];
  }

  pub save_job-IsConsistent :
      (s : Db) (old new : Job) {t : Db}
      → save_job s new ≡ ok t
      → job_row s new.id ≡ some old
      → is_repairing old.state ≡ false
      → is_repairing new.state ≡ false
      → IsConsistent g s
      → IsConsistent g t
  save_job-IsConsistent s old new {t} saved row before after c =
      change_job-IsConsistent s t new.id (persisted new)
        (laws.save_job_lem s new saved (laws.job_row-pos s new.id row))
        (laws.save_job-attempts s new saved) (λ j r. ground (arith, row, r, before)) after c

  pub create_job-IsConsistent :
      (s : Db) (new : Job) {id : ℕ} {t : Db}
      → create_job s new ≡ ok (id, t)
      → is_repairing new.state ≡ false
      → IsConsistent g s
      → IsConsistent g t
  create_job-IsConsistent s new {id} {t} made after c =
      change_job-IsConsistent s t id (persisted (record new { id = id }))
        (laws.create_job_lem s new made) (laws.create_job-attempts s new made)
        (λ j r. cc (laws.create_job-fresh s new made)) after c

  -- A job's row is replaced by one in the same state, with the same pending action.
  touched_repaired :
      {s t : Db} {id : ℕ} (old new : Job)
      → SameAttempts g s t
      → job_row s id ≡ some old
      → new.state ≡ old.state
      → is_repairing new.state ≡ true
      → IsConsistent g s
      → CurrentAttempt g t id new.state
  touched_repaired {id} old new same row state rep c =
      let o = c.jobs_repaired id {job = old} row (ap is_repairing (sym state) ∙ rep) in
      record {
        number = o.number;
        attempt = o.attempt;
        stored = same.attempts id o.number ∙ o.stored;
        agrees = o.agrees ∙ sym state;
      }

  pub touch_job-IsConsistent :
      (s : Db) (old new : Job) {t : Db}
      → save_job s new ≡ ok t
      → job_row s new.id ≡ some old
      → new.state ≡ old.state
      → new.pending_action ≡ old.pending_action
      → IsConsistent g s
      → IsConsistent g t
  touch_job-IsConsistent s old new {t} saved row state pending c = record {
    jobs_repaired = λ id {job} r rep. elim (Bool-cases (id == new.id)) [
      | inl e ↦
          let named = (==_iff id new.id).0 e in
          let stored : some (persisted new) ≡ some job = ground (arith, rows id) in
          let is_job : job.state ≡ new.state = ground arith in
          let now =
            touched_repaired {id = id} old new same (ap (job_row s) named ∙ row) state
              (ap is_repairing (sym is_job) ∙ rep) c in
          record {
            number = now.number;
            attempt = now.attempt;
            stored = now.stored;
            agrees = now.agrees ∙ sym is_job;
          }
      | inr e ↦
          CurrentAttempt-keep same (c.jobs_repaired id {job = job} (ground (arith, rows id)) rep)
    ];
    attempts_owned = λ id n r rep. elim (Bool-cases (id == new.id)) [
      | inl e ↦
          let named = (==_iff id new.id).0 e in
          let o = c.attempts_owned id n (sym (same.attempts id n) ∙ r) rep in
          record {
            job = persisted new;
            stored = ground (arith, rows id);
            agrees = state ∙ (ground (arith, o.stored, row, ap (job_row s) named) ∙ o.agrees);
            latest = λ m q. o.latest m (sym (same.attempts id m) ∙ q);
          }
      | inr e ↦
          OwnsJob-keep same (ground (arith, rows id))
            (c.attempts_owned id n (sym (same.attempts id n) ∙ r) rep)
    ];
    attempts_kept = λ id n r. c.attempts_kept id n (sym (same.attempts id n) ∙ r);
    attempts_numbered = λ id n r. c.attempts_numbered id n (sym (same.attempts id n) ∙ r);
    removals_wait = λ id {job} r rep. elim (Bool-cases (id == new.id)) [
      | inl e ↦
          let stored : some (persisted new) ≡ some job = ground (arith, rows id) in
          let is_job : job.state ≡ old.state = ground arith in
          ap is_delete (ground arith)
          ∙ c.removals_wait new.id {job = old} row (ap is_repairing (sym is_job) ∙ rep)
      | inr e ↦ c.removals_wait id {job = job} (ground (arith, rows id)) rep
    ];
  }
    where
      rows : (i : ℕ) → job_row t i ≡ (if i == new.id then some (persisted new) else job_row s i)
      rows = laws.save_job_lem s new saved (laws.job_row-pos s new.id row)

      same : SameAttempts g s t
      same = laws.save_job-attempts s new saved

  -- Nothing but the planning history is written.
  pub upsert_result-IsConsistent :
      (s : Db) (p : PlanningResult) {t : Db}
      → upsert_result s p ≡ ok t
      → IsConsistent g s
      → IsConsistent g t
  upsert_result-IsConsistent s p {t} wrote c = record {
    jobs_repaired = λ id {job} r rep.
        CurrentAttempt-keep attempts (c.jobs_repaired id {job = job} (sym (jobs.jobs id) ∙ r) rep);
    attempts_owned = λ id n r rep.
        OwnsJob-keep attempts (jobs.jobs id)
          (c.attempts_owned id n (sym (attempts.attempts id n) ∙ r) rep);
    attempts_kept = λ id n r. c.attempts_kept id n (sym (attempts.attempts id n) ∙ r);
    attempts_numbered = λ id n r. c.attempts_numbered id n (sym (attempts.attempts id n) ∙ r);
    removals_wait = λ id {job} r rep. c.removals_wait id {job = job} (sym (jobs.jobs id) ∙ r) rep;
  }
    where
      jobs : SameJobs g s t
      jobs = laws.upsert_result-jobs s p wrote

      attempts : SameAttempts g s t
      attempts = laws.upsert_result-attempts s p wrote

  -- A job and its latest attempt are written together, in one state.
  pub record PairWritten (s t : Db) (id n : ℕ) (new : Job) (a : Attempt) : Type 0 where
    pub jobs : (i : ℕ) → job_row t i ≡ (if i == id then some new else job_row s i)
    pub attempts :
        (i m : ℕ)
        → attempt_row t i m ≡ (if (i == id) && (m == n) then some a else attempt_row s i m)
    pub agrees : a.state ≡ new.state
    pub kept : a.state ≢ removing
    pub waits : is_repairing new.state ≡ true → is_delete new.pending_action ≡ false
    pub numbered : 0 < n
    pub latest : (m : ℕ) (b : Attempt) → attempt_row s id m ≡ some b → m ≤ n
    pub unfinished :
        (m : ℕ) (b : Attempt) → attempt_row s id m ≡ some b → is_repairing b.state ≡ true → m ≡ n

  module _ {s t : Db} {id n : ℕ} {new : Job} {a : Attempt} (w : PairWritten s t id n new a) where
    pair_repaired :
        (i : ℕ) (job : Job)
        → job_row t i ≡ some job
        → is_repairing job.state ≡ true
        → IsConsistent g s
        → CurrentAttempt g t i job.state
    pair_repaired i job r rep c = elim (Bool-cases (i == id)) [
      | inl e ↦ record {
        number = n;
        attempt = a;
        stored = ground (arith, w.attempts i n);
        agrees = ground (arith, w.agrees, w.jobs i);
      }
      | inr e ↦
          let old = c.jobs_repaired i {job = job} (ground (arith, w.jobs i)) rep in
          record {
            number = old.number;
            attempt = old.attempt;
            stored = ground (arith, w.attempts i old.number, old.stored);
            agrees = old.agrees;
          }
    ]

    pair_latest : (m : ℕ) (b : Attempt) → attempt_row t id m ≡ some b → m ≤ n
    pair_latest m b r = elim (Bool-cases (m == n)) [
      | inl e ↦ ground arith
      | inr e ↦ w.latest m b (ground (arith, w.attempts id m))
    ]

    pair_owned :
        (i m : ℕ) (b : Attempt)
        → attempt_row t i m ≡ some b
        → is_repairing b.state ≡ true
        → IsConsistent g s
        → OwnsJob g t i m b.state
    pair_owned i m b r rep c = elim (Bool-cases (i == id)) [
      | inl e ↦ elim (Bool-cases (m == n)) [
        | inl f ↦ record {
          job = new;
          stored = ground (arith, w.jobs i);
          agrees = ground (arith, w.agrees, w.attempts i m);
          latest = λ k {b} q. ground (arith, pair_latest k b);
        }
        | inr f ↦ absurd (ground (arith, w.attempts i m, w.unfinished m b))
      ]
      | inr e ↦
          let old = c.attempts_owned i m {a = b} (ground (arith, w.attempts i m)) rep in
          record {
            job = old.job;
            stored = ground (arith, w.jobs i, old.stored);
            agrees = old.agrees;
            latest = λ k {b} q. old.latest k {b = b} (ground (arith, w.attempts i k));
          }
    ]

    pub pair-IsConsistent : IsConsistent g s → IsConsistent g t
    pair-IsConsistent c = record {
      jobs_repaired = λ i {job} r rep. pair_repaired i job r rep c;
      attempts_owned = λ i m {a = b} r rep. pair_owned i m b r rep c;
      attempts_kept = λ i m {a = b} r. elim (Bool-cases ((i == id) && (m == n))) [
        | inl e ↦ λ bad. w.kept (ground (arith, w.attempts i m))
        | inr e ↦ c.attempts_kept i m {a = b} (ground (arith, w.attempts i m))
      ];
      attempts_numbered = λ i m {a = b} r. elim (Bool-cases (m == n)) [
        | inl e ↦ ground (arith, w.numbered)
        | inr e ↦ c.attempts_numbered i m {a = b} (ground (arith, w.attempts i m))
      ];
      removals_wait = λ i {job} r rep. elim (Bool-cases (i == id)) [
        | inl e ↦ ground (arith, w.jobs i, w.waits)
        | inr e ↦ c.removals_wait i {job = job} (ground (arith, w.jobs i)) rep
      ];
    }
