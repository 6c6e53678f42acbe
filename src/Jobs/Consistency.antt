-- ===== src/Jobs/Consistency.antt =====
-- What it is that the job rows and their attempt rows of pkgs/media-repair/internal/jobs agree: the
-- predicates on a job database.
pub mod Writes
pub mod History
pub mod Operations
pub mod Reconciling
pub mod Observing
pub mod Repairs
use nix.Base.{ℕ, ◌≤◌, ◌<◌, ◌^◌, ◌+◌, ◌≡◌, ◌≢◌, Bool, true, false, some}
use nix.Jobs.Model.{Job, Attempt, State, removing, is_delete}
use nix.Jobs.Database.{Gorm}

-- The states in which an attempt is unfinished.
abbrev pub is_repairing : State → Bool
is_repairing State.running = true
is_repairing State.importing = true
is_repairing _ = false

-- The attempt that a caller hands over: one that was stored, and that removes nothing.
pub record IsStored (attempt : Attempt) : Type 0 where
  pub job_known : 0 < attempt.job_id
  pub numbered : 0 < attempt.number
  pub kept : attempt.state ≢ removing

module _ (g : Gorm) where
  open g use {Db, job_row, attempt_row}

  -- The unfinished attempt of a job.
  pub record CurrentAttempt (s : Db) (id : ℕ) (state : State) : Type 0 where
    pub number : ℕ
    pub attempt : Attempt
    pub stored : attempt_row s id number ≡ some attempt
    pub agrees : attempt.state ≡ state

  -- An unfinished attempt is its job's latest, and its job is in the same state.
  pub record OwnsJob (s : Db) (id n : ℕ) (state : State) : Type 0 where
    pub job : Job
    pub stored : job_row s id ≡ some job
    pub agrees : job.state ≡ state
    pub latest : (m : ℕ) {b : Attempt} → attempt_row s id m ≡ some b → m ≤ n

  pub record IsConsistent (s : Db) : Type 0 where
    pub jobs_repaired :
        (id : ℕ) {job : Job}
        → job_row s id ≡ some job
        → is_repairing job.state ≡ true
        → CurrentAttempt s id job.state
    pub attempts_owned :
        (id n : ℕ) {a : Attempt}
        → attempt_row s id n ≡ some a
        → is_repairing a.state ≡ true
        → OwnsJob s id n a.state
    pub attempts_kept : (id n : ℕ) {a : Attempt} → attempt_row s id n ≡ some a → a.state ≢ removing
    pub attempts_numbered : (id n : ℕ) {a : Attempt} → attempt_row s id n ≡ some a → 0 < n
    -- A job whose removal was requested is not under repair.
    pub removals_wait :
        (id : ℕ) {job : Job}
        → job_row s id ≡ some job
        → is_repairing job.state ≡ true
        → is_delete job.pending_action ≡ false

  -- The numbers of a job's attempts are far from the end of the counter.
  abbrev pub FewAttempts : Db → ℕ → Type 0
  FewAttempts s id = (n : ℕ) (a : Attempt) → attempt_row s id n ≡ some a → n + 1 < 2 ^ 64
