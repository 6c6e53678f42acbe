-- ===== src/Jobs/Consistency/Reconciling.antt =====
-- `ReconcileQueue` of internal/jobs/planning.go, for the agreement of jobs and attempts.
use nix.Base.{
  ℕ, ◌≡◌, [], ◌∷◌, refl, none, some, ◌≢◌, Bool-cases, ◌⊎◌, List, ok, All, Option, false, not,
  >>=-eq-ok, map, subst, ◌<◌, inl, ◌&&◌, arith, ◌∙◌, inr, ap, ◌+◌, get_elem?,
}
use nix.Jobs.Model.{Job, Service, is_removed, active, is_imported}
use nix.Jobs.Queue.{QueueKey, queue_key, match_queue}
use nix.Jobs.Database.{Gorm, GormLaws, IsDistinct, transaction-keeps}
use nix.Jobs.Planning.{
  reconciled, reconcile_jobs, reconcile_queue, follow_queue, rebind, departed, rebound,
  save_if_changed,
}
use nix.Jobs.Consistency.{is_repairing, IsConsistent}
use nix.Jobs.Consistency.Writes.{save_job-IsConsistent, touch_job-IsConsistent}

-- What a reconciliation leaves of a job: under repair it stays as it is.
abbrev IsKept : Job → Job → Type 0
IsKept job next =
    (next.id ≡ job.id)
    × (((next.state ≡ job.state) × (next.pending_action ≡ job.pending_action))
        ⊎ ((is_repairing job.state ≡ false) × (is_repairing next.state ≡ false)))

departed-IsKept : (job : Job) (at : ℕ) → IsKept job (departed job at)
departed-IsKept job at = elim (Bool-cases (not (active job.state) && not (is_imported job.state))) [
  | inl e ↦ (ground arith, inr (ground arith, ground arith))
  | inr e ↦ (ground arith, inl (ground arith, ground arith))
]

rebound-IsKept : (job : Job) (key : QueueKey) → IsKept job (rebound job key)
rebound-IsKept job key = elim (Bool-cases (is_removed job.state)) [
  | inl e ↦ (ground arith, inr (ground arith, ground arith))
  | inr e ↦ (ground arith, inl (ground arith, ground arith))
]

rebind-IsKept :
    (previous : List QueueKey) (index : ℕ) (job : Job) (key : Option QueueKey) {next : Job}
    → rebind previous index job key ≡ ok (some next)
    → IsKept job next
rebind-IsKept previous index job none h = cc
rebind-IsKept previous index job (some key) {next} h =
    let (owner, found, h1) = >>=-eq-ok (match_queue key previous) _ h in
    let same : rebound job key ≡ next = ground arith in
    subst (λ n. IsKept job n) same (rebound-IsKept job key)

follow_queue-IsKept :
    (present previous : List QueueKey) (at index : ℕ) (job : Job) (matched : Option ℕ) {next : Job}
    → follow_queue present previous at index job matched ≡ ok (some next)
    → IsKept job next
follow_queue-IsKept present previous at index job none {next} h =
    let same : departed job at ≡ next = ground arith in
    subst (λ n. IsKept job n) same (departed-IsKept job at)
follow_queue-IsKept present previous at index job (some k) {next} h =
    rebind-IsKept previous index job (get_elem? present k) h

reconciled-IsKept :
    (present previous : List QueueKey) (at index : ℕ) (job : Job) {next : Job}
    → reconciled present previous at index job ≡ ok (some next)
    → IsKept job next
unfolding reconciled
reconciled-IsKept present previous at index job h =
    let (matched, found, h1) = >>=-eq-ok (match_queue (queue_key job) present) _ h in
    follow_queue-IsKept present previous at index job matched h1

module _ (g : Gorm) (laws : GormLaws g) where
  open g use {Db, job_row, save_job, find_jobs}

  abbrev AreCurrent : Db → List Job → Type 0
  AreCurrent s jobs = All (λ (j : Job). job_row s j.id ≡ some j) jobs

  -- Saving a row leaves the rows of the other jobs.
  save_job-AreCurrent :
      (s : Db) (new : Job) {t : Db} (jobs : List Job)
      → save_job s new ≡ ok t
      → 0 < new.id
      → All (λ (k : Job). k.id ≢ new.id) jobs
      → AreCurrent s jobs
      → AreCurrent t jobs
  save_job-AreCurrent s new [] saved pos apart rows = tt
  save_job-AreCurrent s new (j ∷ jobs) saved pos apart rows = (
    ground (arith, laws.save_job_lem s new saved pos j.id, apart.0, rows.0),
    save_job-AreCurrent s new jobs saved pos apart.1 rows.1,
  )

  -- One round of the loop.
  round_lem :
      (s : Db) (job : Job) (rest : List Job) (change : Option Job) {t : Db}
      → ((next : Job) → change ≡ some next → IsKept job next)
      → save_if_changed g s change ≡ ok t
      → AreCurrent s (job ∷ rest)
      → IsDistinct (job ∷ rest)
      → IsConsistent g s
      → IsConsistent g t × AreCurrent t rest
  round_lem s job rest none {t} kept saved rows apart c =
      let same : s ≡ t = ground arith in
      (subst (λ u. IsConsistent g u) same c, subst (λ u. AreCurrent u rest) same rows.1)
  round_lem s job rest (some next) {t} kept saved rows apart c =
      let (named, keeps) = kept next refl in
      let row = ap (job_row s) named ∙ rows.0 in
      let pos = laws.job_row-pos s next.id row in
      (
        elim keeps [
          | inl (state, pending) ↦
              touch_job-IsConsistent g laws s job next saved row state pending c
          | inr (before, after) ↦ save_job-IsConsistent g laws s job next saved row before after c
        ],
        save_job-AreCurrent s next rest saved pos (rw named apart.0) rows.1,
      )

  reconcile_jobs-IsConsistent :
      (present previous : List QueueKey) (at index : ℕ) (jobs : List Job) (s : Db) {t : Db}
      → reconcile_jobs g present previous at index jobs s ≡ ok t
      → AreCurrent s jobs
      → IsDistinct jobs
      → IsConsistent g s
      → IsConsistent g t
  unfolding reconcile_jobs
  reconcile_jobs-IsConsistent present previous at index [] s h rows apart c =
      subst (λ u. IsConsistent g u) (ground arith) c
  reconcile_jobs-IsConsistent present previous at index (job ∷ rest) s h rows apart c =
      let (change, decided, h1) = >>=-eq-ok (reconciled present previous at index job) _ h in
      let (u, saved, h2) = >>=-eq-ok (save_if_changed g s change) _ h1 in
      let (good, now) =
        round_lem s job rest change {t = u}
          (λ next e.
            reconciled-IsKept present previous at index job {next = next} (decided ∙ ap ok e))
          saved rows apart c in
      reconcile_jobs-IsConsistent present previous at (index + 1) rest u h2 now apart.1 good

  pub reconcile_queue-IsConsistent :
      (s : Db) (service : Service) (present : List QueueKey) (at : ℕ)
      → IsConsistent g s
      → IsConsistent g (reconcile_queue g s service present at).1
  unfolding reconcile_queue
  reconcile_queue-IsConsistent s service present at c =
      transaction-keeps g (IsConsistent g) s _
        (λ v t h.
          let (jobs, found, h1) = >>=-eq-ok (find_jobs s service) _ h in
          let (u, done, h2) =
            >>=-eq-ok (reconcile_jobs g present (map queue_key jobs) at 0 jobs s) _ h1 in
          subst (λ w. IsConsistent g w) (ground arith)
            (reconcile_jobs-IsConsistent present (map queue_key jobs) at 0 jobs s {t = u} done
              (laws.find_jobs_lem s service found) (laws.find_jobs-IsDistinct s service found) c))
        c
