-- ===== src/Repair/Quiet.antt =====
-- Calls of the repair engine that submit nothing and forget no attempt, one rule for each way in
-- which the engine's code is put together (internal/repair/engine.go).
use nix.Base.{
  ℕ, ◌≡◌, refl, ◌∙◌, some, Bool, true, false, Result, ok, err, if◌then◌else◌, ◌==◌, ◌&&◌,
  Bool-cases, inl, arith, inr,
}
use nix.Jobs.Model.{Error, Attempt}
use nix.Jobs.Database.{Gorm, GormLaws, SameAttempts, transaction-keeps}
use nix.Jobs.Store.{start, update_attempt, merge_attempt, started, set_running, follow_attempt}
use nix.Jobs.Consistency.Repairs.{start_body-eq-ok, update_attempt_body-eq-ok}
use nix.Repair.World.{
  Outside, World, ◌>>=◌, outcome, on_db, reading, outside, asking, pure, give, continue,
}

-- Every attempt is still there.
pub record Grows (g : Gorm) (s t : g.Db) : Type 0 where
  pub at :
      (i n : ℕ) (a : Attempt)
      → g.attempt_row s i n ≡ some a
      → (b : Attempt) × (g.attempt_row t i n ≡ some b)

pub Grows-refl : (g : Gorm) (s : g.Db) → Grows g s s
Grows-refl g s = record { at = λ i n a h. (a, h) }

Grows-trans : (g : Gorm) {s t u : g.Db} → Grows g s t → Grows g t u → Grows g s u
Grows-trans g p q = record { at = λ i n a h. let (b, k) = p.at i n a h in q.at i n b k }

module _ (g : Gorm) (laws : GormLaws g) where
  open g use {Db, attempt_row}

  written-Grows :
      (s u t : Db) (a : Attempt)
      → ((i n : ℕ)
          → attempt_row u i n
            ≡ (if (i == a.job_id) && (n == a.number) then some a else attempt_row s i n))
      → SameAttempts g u t
      → Grows g s t
  written-Grows s u t a rows same = record {
    at = λ i n old h. elim (Bool-cases ((i == a.job_id) && (n == a.number))) [
      | inl e ↦ (a, ground (arith, rows i n, same.attempts i n))
      | inr e ↦ (old, ground (arith, rows i n, same.attempts i n))
    ];
  }

  pub start-Grows : (s : Db) (id at : ℕ) → Grows g s (start g s id at).1
  unfolding start
  start-Grows s id at =
      transaction-keeps g (Grows g s) s _
        (λ attempt t h.
          let (job, number, u, got, free, counted, made, saved, _) =
            start_body-eq-ok g laws s id at h in
          written-Grows s u t (started id number job.plan at)
            (laws.create_attempt_lem s (started id number job.plan at) made)
            (laws.save_job-attempts u (set_running job at) saved))
        (Grows-refl g s)

  pub update_attempt-Grows : (s : Db) (attempt : Attempt) → Grows g s (update_attempt g s attempt).1
  unfolding update_attempt
  update_attempt-Grows s attempt =
      transaction-keeps g (Grows g s) s _
        (λ v t h.
          let (previous, job, u, read, busy, wrote, got, saved) =
            update_attempt_body-eq-ok g laws s attempt h in
          written-Grows s u t (merge_attempt previous attempt)
            (laws.save_attempt_lem s (merge_attempt previous attempt) wrote)
            (laws.save_job-attempts u (follow_attempt job attempt) saved))
        (Grows-refl g s)

module _ {g : Gorm} {o : Outside} where
  pub record Quiet (w v : World g o) : Type 0 where
    pub submissions : v.submissions ≡ w.submissions
    pub grows : Grows g w.db v.db

  pub record IsQuiet {ℓ} {A : Type ℓ} (m : World g o → Result Error A × World g o) : Type ℓ where
    pub at : (w : World g o) → Quiet w (m w).1

  Quiet-trans : {w v u : World g o} → Quiet w v → Quiet v u → Quiet w u
  Quiet-trans p q = record {
    submissions = q.submissions ∙ p.submissions;
    grows = Grows-trans g p.grows q.grows;
  }

  pub IsQuiet-give {ℓ} : {A : Type ℓ} (r : Result Error A) → IsQuiet (give r)
  IsQuiet-give r = record { at = λ w. record { submissions = refl; grows = Grows-refl g w.db } }

  pub IsQuiet-pure {ℓ} : {A : Type ℓ} (a : A) → IsQuiet (pure a)
  IsQuiet-pure a = record { at = λ w. record { submissions = refl; grows = Grows-refl g w.db } }

  pub IsQuiet-asking {ℓ} : {A : Type ℓ} (f : o.Env → A × o.Env) → IsQuiet (asking {g = g} {o = o} f)
  IsQuiet-asking f = record { at = λ w. record { submissions = refl; grows = Grows-refl g w.db } }

  pub IsQuiet-outside {ℓ} :
      {A : Type ℓ} (f : o.Env → Result Error A × o.Env) → IsQuiet (outside {g = g} {o = o} f)
  IsQuiet-outside f = record { at = λ w. record { submissions = refl; grows = Grows-refl g w.db } }

  pub IsQuiet-reading {ℓ} :
      {A : Type ℓ} (f : g.Db → Result Error A) → IsQuiet (reading {g = g} {o = o} f)
  IsQuiet-reading f = record { at = λ w. record { submissions = refl; grows = Grows-refl g w.db } }

  pub IsQuiet-on_db {ℓ} :
      {A : Type ℓ} (f : g.Db → Result Error A × g.Db)
      → ((s : g.Db) → Grows g s (f s).1)
      → IsQuiet (on_db {g = g} {o = o} f)
  IsQuiet-on_db f grows = record { at = λ w. record { submissions = refl; grows = grows w.db } }

  pub IsQuiet-outcome {ℓ} :
      {A : Type ℓ} (m : World g o → Result Error A × World g o) → IsQuiet m → IsQuiet (outcome m)
  IsQuiet-outcome m q = record { at = λ w. q.at w }

  IsQuiet-continue {ℓ κ} :
      {A : Type ℓ} {B : Type κ} (f : A → World g o → Result Error B × World g o)
      (r : Result Error A) (w v : World g o)
      → Quiet w v
      → ((a : A) → IsQuiet (f a))
      → Quiet w (continue f r v).1
  IsQuiet-continue f (ok a) w v q kf = Quiet-trans q ((kf a).at v)
  IsQuiet-continue f (err e) w v q kf = q

  pub IsQuiet-bind {ℓ κ} :
      {A : Type ℓ} {B : Type κ} (m : World g o → Result Error A × World g o)
      (f : A → World g o → Result Error B × World g o)
      → IsQuiet m
      → ((a : A) → IsQuiet (f a))
      → IsQuiet (m >>= f)
  IsQuiet-bind m f km kf = record { at = λ w. IsQuiet-continue f (m w).0 w (m w).1 (km.at w) kf }

  pub IsQuiet-if {ℓ} :
      {A : Type ℓ} (b : Bool) (m n : World g o → Result Error A × World g o)
      → IsQuiet m
      → IsQuiet n
      → IsQuiet (if b then m else n)
  IsQuiet-if true m n km kn = km
  IsQuiet-if false m n km kn = kn

pub ruleset quiet_rules = (
  IsQuiet-give, IsQuiet-pure, IsQuiet-asking, IsQuiet-outside, IsQuiet-reading, IsQuiet-on_db,
  IsQuiet-outcome, IsQuiet-bind, IsQuiet-if,
)
