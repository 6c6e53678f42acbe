-- ===== src/Jobs/Database.antt =====
-- The job database as its clients use it: gorm over SQLite, which is not part of the repository.
-- `Gorm` lists the calls that internal/jobs makes on a transaction's database, and `GormLaws` what
-- the code relies on, in terms of the rows that a database holds. A call can fail at any time.
use nix.Base.{
  ℕ, ◌≤◌, ◌<◌, String, ◌≡◌, refl, arith, ◌>>=◌, Option, none, some, List, All, ◌==◌, str_eq, ◌&&◌,
  Result, ok, err, if◌then◌else◌, >>=-eq-ok, [], ◌∷◌, ◌≢◌,
}
use nix.Jobs.Model.{Error, not_found, Service, Job, Attempt, PlanningResult, persisted}

pub record Gorm : Type 1 where
  pub Db : Type 0
  -- tx.First(&job, id)
  pub first_job : Db → ℕ → Result Error Job
  -- tx.Where(&identity, "Service", "QueueID", "DownloadID").First(&job)
  pub first_by_identity : Db → Service → ℕ → String → Result Error Job
  -- tx.Where(&Job{Service: service}).Find(&jobs)
  pub find_jobs : Db → Service → Result Error (List Job)
  -- tx.Save(&job)
  pub save_job : Db → Job → Result Error Db
  -- tx.Create(&job), with the identifier that the database chose
  pub create_job : Db → Job → Result Error (ℕ × Db)
  -- tx.Where(&Attempt{JobID: id, Number: number}).First(&attempt)
  pub first_attempt : Db → ℕ → ℕ → Result Error Attempt
  -- tx.Where(&Attempt{JobID: id}).Order("number DESC").First(&attempt)
  pub last_attempt : Db → ℕ → Result Error Attempt
  pub create_attempt : Db → Attempt → Result Error Db
  pub save_attempt : Db → Attempt → Result Error Db
  -- tx.Where(&PlanningResult{...}, "JobID", "Fingerprint", "Revision").First(&result)
  pub first_result : Db → ℕ → String → ℕ → Result Error PlanningResult
  -- tx.Clauses(clause.OnConflict{UpdateAll: true}).Create(&result)
  pub upsert_result : Db → PlanningResult → Result Error Db
  -- the COMMIT at the end of a transaction
  pub commit : Db → Result Error (Unit {0})
  -- the rows of each table, by primary key
  pub job_row : Db → ℕ → Option Job
  pub attempt_row : Db → ℕ → ℕ → Option Attempt
  pub result_row : Db → ℕ → String → ℕ → Option PlanningResult

-- No two jobs of a list have one identifier.
abbrev pub IsDistinct : List Job → Type 0
IsDistinct [] = Unit
IsDistinct (j ∷ js) = All (λ (k : Job). k.id ≢ j.id) js × IsDistinct js

-- Two databases hold the same attempts.
pub record SameAttempts (g : Gorm) (s t : g.Db) : Type 0 where
  pub attempts : (i n : ℕ) → g.attempt_row t i n ≡ g.attempt_row s i n

pub record SameJobs (g : Gorm) (s t : g.Db) : Type 0 where
  pub jobs : (i : ℕ) → g.job_row t i ≡ g.job_row s i

-- A condition on a field that is zero is left out by gorm, so the laws about attempts ask for
-- positive keys.
pub record GormLaws (g : Gorm) : Type 0 where
  pub job_row-id : (s : g.Db) (i : ℕ) {j : Job} → g.job_row s i ≡ some j → j.id ≡ i
  pub job_row-pos : (s : g.Db) (i : ℕ) {j : Job} → g.job_row s i ≡ some j → 0 < i
  pub attempt_row-key :
      (s : g.Db) (i n : ℕ) {a : Attempt}
      → g.attempt_row s i n ≡ some a
      → (a.job_id ≡ i) × (a.number ≡ n)
  pub first_job_lem : (s : g.Db) (i : ℕ) {j : Job} → g.first_job s i ≡ ok j → g.job_row s i ≡ some j
  pub first_by_identity_lem :
      (s : g.Db) (v : Service) (q : ℕ) (d : String) {j : Job}
      → g.first_by_identity s v q d ≡ ok j
      → g.job_row s j.id ≡ some j
  pub find_jobs_lem :
      (s : g.Db) (v : Service) {js : List Job}
      → g.find_jobs s v ≡ ok js
      → All (λ (j : Job). g.job_row s j.id ≡ some j) js
  pub find_jobs-IsDistinct :
      (s : g.Db) (v : Service) {js : List Job} → g.find_jobs s v ≡ ok js → IsDistinct js
  pub save_job_lem :
      (s : g.Db) (j : Job) {t : g.Db}
      → g.save_job s j ≡ ok t
      → 0 < j.id
      → (i : ℕ) → g.job_row t i ≡ (if i == j.id then some (persisted j) else g.job_row s i)
  pub save_job-attempts :
      (s : g.Db) (j : Job) {t : g.Db} → g.save_job s j ≡ ok t → SameAttempts g s t
  pub create_job_lem :
      (s : g.Db) (j : Job) {new : ℕ} {t : g.Db}
      → g.create_job s j ≡ ok (new, t)
      → (i : ℕ)
      → g.job_row t i
        ≡ (if i == new then some (persisted (record j { id = new })) else g.job_row s i)
  pub create_job-fresh :
      (s : g.Db) (j : Job) {new : ℕ} {t : g.Db}
      → g.create_job s j ≡ ok (new, t)
      → g.job_row s new ≡ none
  pub create_job-attempts :
      (s : g.Db) (j : Job) {new : ℕ} {t : g.Db}
      → g.create_job s j ≡ ok (new, t)
      → SameAttempts g s t
  pub first_attempt_lem :
      (s : g.Db) (i n : ℕ) {a : Attempt}
      → g.first_attempt s i n ≡ ok a
      → 0 < i
      → 0 < n
      → g.attempt_row s i n ≡ some a
  pub last_attempt_lem :
      (s : g.Db) (i : ℕ) {a : Attempt}
      → g.last_attempt s i ≡ ok a
      → 0 < i
      → g.attempt_row s i a.number ≡ some a
  pub last_attempt-max :
      (s : g.Db) (i : ℕ) {a : Attempt}
      → g.last_attempt s i ≡ ok a
      → 0 < i
      → (n : ℕ) {b : Attempt} → g.attempt_row s i n ≡ some b
      → n ≤ a.number
  pub last_attempt-none :
      (s : g.Db) (i : ℕ)
      → g.last_attempt s i ≡ err not_found
      → 0 < i
      → (n : ℕ) → g.attempt_row s i n ≡ none
  pub create_attempt_lem :
      (s : g.Db) (a : Attempt) {t : g.Db}
      → g.create_attempt s a ≡ ok t
      → (i n : ℕ)
      → g.attempt_row t i n
        ≡ (if (i == a.job_id) && (n == a.number) then some a else g.attempt_row s i n)
  pub create_attempt-jobs :
      (s : g.Db) (a : Attempt) {t : g.Db} → g.create_attempt s a ≡ ok t → SameJobs g s t
  pub save_attempt_lem :
      (s : g.Db) (a : Attempt) {t : g.Db}
      → g.save_attempt s a ≡ ok t
      → (i n : ℕ)
      → g.attempt_row t i n
        ≡ (if (i == a.job_id) && (n == a.number) then some a else g.attempt_row s i n)
  pub save_attempt-jobs :
      (s : g.Db) (a : Attempt) {t : g.Db} → g.save_attempt s a ≡ ok t → SameJobs g s t
  pub first_result_lem :
      (s : g.Db) (i : ℕ) (f : String) (r : ℕ) {p : PlanningResult}
      → g.first_result s i f r ≡ ok p
      → g.result_row s i f r ≡ some p
  pub first_result-none :
      (s : g.Db) (i : ℕ) (f : String) (r : ℕ)
      → g.first_result s i f r ≡ err not_found
      → g.result_row s i f r ≡ none
  pub upsert_result_lem :
      (s : g.Db) (p : PlanningResult) {t : g.Db}
      → g.upsert_result s p ≡ ok t
      → (i : ℕ) (f : String) (r : ℕ)
      → g.result_row t i f r ≡ (
          if (i == p.job_id) && (str_eq f p.fingerprint && (r == p.revision))
          then some p
          else g.result_row s i f r)
  pub upsert_result-jobs :
      (s : g.Db) (p : PlanningResult) {t : g.Db} → g.upsert_result s p ≡ ok t → SameJobs g s t
  pub upsert_result-attempts :
      (s : g.Db) (p : PlanningResult) {t : g.Db} → g.upsert_result s p ≡ ok t → SameAttempts g s t

-- `store.db.Transaction(body)`: the body's writes are kept only if it returns nil and they commit.
module _ (g : Gorm) where
  open g use {Db}

  abbrev pub committed {ℓ} :
      {A : Type ℓ} → Db → A → Db → Result Error (Unit {0}) → Result Error A × Db
  committed s a t (ok _) = (ok a, t)
  committed s a t (err e) = (err e, s)

  abbrev pub transaction {ℓ} : {A : Type ℓ} → Db → Result Error (A × Db) → Result Error A × Db
  transaction s (ok (a, t)) = committed s a t (g.commit t)
  transaction s (err e) = (err e, s)

  -- `tx.First(&job, id)`, the guards and assignments of one operation, `tx.Save(&job)`.
  abbrev pub modify_job : Db → ℕ → (Job → Result Error Job) → Result Error (Job × Db)
  modify_job s id decide = do
    job ← g.first_job s id
    next ← decide job
    t ← g.save_job s next
    ok (next, t)

  -- A body that returns no value.
  abbrev pub no_value {ℓ} : {A : Type ℓ} → Result Error (A × Db) → Result Error (Unit {0} × Db)
  no_value (ok (a, t)) = ok (tt, t)
  no_value (err e) = err e

  pub no_value-eq-ok {ℓ} :
      {A : Type ℓ} (body : Result Error (A × Db)) {t : Db} {v : Unit {0}}
      → no_value body ≡ ok (v, t)
      → (a : A) × (body ≡ ok (a, t))
  no_value-eq-ok (ok (a, u)) h = (a, ground arith)
  no_value-eq-ok (err e) h = cc

  -- A successful operation in its parts.
  pub modify_job-eq-ok :
      (s : Db) (id : ℕ) (decide : Job → Result Error Job) {next : Job} {t : Db}
      → modify_job s id decide ≡ ok (next, t)
      → (job : Job) × (g.first_job s id ≡ ok job)
        × (decide job ≡ ok next)
        × (g.save_job s next ≡ ok t)
  modify_job-eq-ok s id decide h =
      let (job, got, h1) = >>=-eq-ok (g.first_job s id) _ h in
      let (next, decided, h2) = >>=-eq-ok (decide job) _ h1 in
      let (t, saved, h3) = >>=-eq-ok (g.save_job s next) _ h2 in
      (job, got, ground arith, ground arith)

  -- What a body keeps when it succeeds, its transaction keeps.
  pub transaction-keeps {ℓ κ} :
      {A : Type ℓ} (P : Db → Type κ) (s : Db) (body : Result Error (A × Db))
      → ((a : A) (t : Db) → body ≡ ok (a, t) → P t)
      → P s
      → P (transaction s body).1
  transaction-keeps P s (err e) keep p = p
  transaction-keeps P s (ok (a, t)) keep p = elim (g.commit t) as (λ r. P (committed s a t r).1) [
    | ok u ↦ keep a t refl
    | err e ↦ p
  ]

  -- A transaction that returns a value has run its body to the end.
  pub transaction-eq-ok {ℓ} :
      {A : Type ℓ} (s : Db) (body : Result Error (A × Db)) {a : A} {t : Db}
      → transaction s body ≡ (ok a, t)
      → body ≡ ok (a, t)
  transaction-eq-ok s (err e) h = ground arith
  transaction-eq-ok s (ok (b, u)) h = ground arith
