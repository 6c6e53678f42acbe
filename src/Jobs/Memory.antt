-- ===== src/Jobs/Memory.antt =====
-- A job database in memory that meets `GormLaws`, for the tests: its calls never fail but on a
-- missing row, and a row is addressed by its key.
pub mod Laws
use mathlib.Core.Option
use nix.Base.{
  ℕ, zero, suc, ◌≡◌, some, none, ok, err, refl, true, false, List, [], ◌∷◌, Option, ◌<◌, Bool,
  Result, ◌+◌, if◌then◌else◌, arith, String, ltb, ◌==◌, ◌&&◌, leb, str_eq,
}
use nix.Jobs.Model.{Job, Error, Attempt, PlanningResult, not_found, other, persisted, Service}
use nix.Jobs.Database.{Gorm, GormLaws, IsDistinct, SameAttempts, SameJobs}

pub record Memory : Type 0 where
  pub top : ℕ
  pub jobs : ℕ → Option Job
  pub last : ℕ → ℕ
  pub attempts : ℕ → ℕ → Option Attempt
  pub results : ℕ → String → ℕ → Option PlanningResult

abbrev within : ℕ → ℕ → Bool
within i top = ltb 0 i && leb i top

abbrev row : Memory → ℕ → Option Job
row s i = if within i s.top then Option.map (λ (j : Job). record j { id = i }) (s.jobs i) else none

abbrev attempt_at : Memory → ℕ → ℕ → Option Attempt
attempt_at s i n =
    if within n (s.last i)
    then Option.map (λ (a : Attempt). record a { job_id = i; number = n }) (s.attempts i n)
    else none

abbrev found {ℓ} : {A : Type ℓ} → Option A → Result Error A
found none = err not_found
found (some a) = ok a

abbrev same_service : Service → Service → Bool
same_service Service.radarr Service.radarr = true
same_service Service.lidarr Service.lidarr = true
same_service _ _ = false

abbrev push : (Job → Bool) → Option Job → List Job → List Job
push test none rest = rest
push test (some j) rest = if test j then j ∷ rest else rest

-- The rows with a property, from an identifier down.
abbrev listed : Memory → (Job → Bool) → ℕ → List Job
listed s test zero = []
listed s test (suc i) = push test (row s (suc i)) (listed s test i)

abbrev first_of_list : List Job → Result Error Job
first_of_list [] = err not_found
first_of_list (j ∷ rest) = ok j

abbrev identified : Service → ℕ → String → Job → Bool
identified v q d j = same_service j.service v && ((j.queue_id == q) && str_eq j.download_id d)

abbrev highest : Memory → ℕ → ℕ → Option Attempt
highest s i zero = none
highest s i (suc n) = elim (attempt_at s i (suc n)) [ none ↦ highest s i n | some a ↦ some a ]

abbrev with_job : Memory → Job → Memory
with_job s j = record s { jobs = λ i. if i == j.id then some (persisted j) else s.jobs i }

abbrev with_attempt : Memory → Attempt → ℕ → Memory
with_attempt s a top = record s {
  attempts = λ i n. if (i == a.job_id) && (n == a.number) then some a else s.attempts i n;
  last = λ i. if i == a.job_id then top else s.last i;
}

abbrev pub memory : Gorm
memory = record {
  Db = Memory;
  first_job = λ s i. found (row s i);
  first_by_identity = λ s v q d. first_of_list (listed s (identified v q d) s.top);
  find_jobs = λ s v. ok (listed s (λ (j : Job). same_service j.service v) s.top);
  save_job = λ s j. if within j.id s.top then ok (with_job s j) else err (other "no such row");
  create_job =
      λ s j. ok (s.top + 1, record (with_job s (record j { id = s.top + 1 })) { top = s.top + 1 });
  first_attempt = λ s i n. found (attempt_at s i n);
  last_attempt = λ s i. found (highest s i (s.last i));
  create_attempt = λ s a.
      if a.number == s.last a.job_id + 1
      then ok (with_attempt s a a.number)
      else err (other "number out of order");
  save_attempt = λ s a.
      if within a.number (s.last a.job_id)
      then ok (with_attempt s a (s.last a.job_id))
      else err (other "no such row");
  first_result = λ s i f r. found (s.results i f r);
  upsert_result = λ s p. ok (record s {
    results = λ i f r.
        if (i == p.job_id) && (str_eq f p.fingerprint && (r == p.revision))
        then some p
        else s.results i f r;
  });
  commit = λ s. ok tt;
  job_row = row;
  attempt_row = attempt_at;
  result_row = λ s i f r. s.results i f r;
}

abbrev pub no_rows : Memory
no_rows = record {
  top = 0;
  jobs = λ i. none;
  last = λ i. 0;
  attempts = λ i n. none;
  results = λ i f r. none;
}

row-id : (s : Memory) (i : ℕ) {j : Job} → row s i ≡ some j → j.id ≡ i
row-id s i h = ground arith

row-pos : (s : Memory) (i : ℕ) {j : Job} → row s i ≡ some j → 0 < i
row-pos s i h = ground arith

attempt_at-key :
    (s : Memory) (i n : ℕ) {a : Attempt}
    → attempt_at s i n ≡ some a
    → (a.job_id ≡ i) × (a.number ≡ n)
attempt_at-key s i n h = ground arith

with_job-row :
    (s : Memory) (j : Job)
    → within j.id s.top ≡ true
    → (i : ℕ) → row (with_job s j) i ≡ (if i == j.id then some (persisted j) else row s i)
with_job-row s j h i = ground arith

created-row :
    (s : Memory) (j : Job) (i : ℕ)
    → row (record (with_job s (record j { id = s.top + 1 })) { top = s.top + 1 }) i
      ≡ (if i == s.top + 1 then some (persisted (record j { id = s.top + 1 })) else row s i)
created-row s j i = ground arith

with_attempt-saved :
    (s : Memory) (a : Attempt)
    → within a.number (s.last a.job_id) ≡ true
    → (i n : ℕ)
    → attempt_at (with_attempt s a (s.last a.job_id)) i n
      ≡ (if (i == a.job_id) && (n == a.number) then some a else attempt_at s i n)
with_attempt-saved s a h i n = ground arith

with_attempt-created :
    (s : Memory) (a : Attempt)
    → a.number ≡ s.last a.job_id + 1
    → (i n : ℕ)
    → attempt_at (with_attempt s a a.number) i n
      ≡ (if (i == a.job_id) && (n == a.number) then some a else attempt_at s i n)
with_attempt-created s a h i n = ground arith
