-- ===== src/Repair/World.antt =====
-- What the repair engine and the scheduler act on: the job database, and what lies outside (the clock,
-- the `Adapter` and `Service` interfaces of internal/repair/engine.go and scheduler.go, and the
-- switch that disables repairs). A call of the outside may change it and may fail.
use nix.Base.{ℕ, String, Bool, Option, none, some, List, Result, ok, err}
use nix.Jobs.Model.{Error, joined, Job, Attempt, Raw}
use nix.Jobs.Queue.{QueueKey}
use nix.Jobs.Database.{Gorm}

pub record PreparedImport : Type 0 where
  pub output_path : String
  pub request : Raw
  pub history_id_before : ℕ

pub record ImportStatus : Type 0 where
  pub receipt : Raw
  pub failure : String

pub record Observation : Type 0 where
  pub jobs : List Job
  pub queue : List QueueKey
  pub complete : List QueueKey

pub record Decision : Type 0 where
  pub content : Raw
  pub repair : Bool
  pub reason : String

pub record Outside : Type 1 where
  pub Env : Type 0
  pub now : Env → ℕ × Env
  pub repair : Env → Job → Attempt → Result Error PreparedImport × Env
  pub submit : Env → Raw → Result Error ℕ × Env
  pub check_import : Env → Attempt → Result Error ImportStatus × Env
  pub observe : Env → List Job → Result Error Observation × Env
  pub plan : Env → Job → Result Error Decision × Env
  pub is_ready : Env → Job → Bool × Env
  pub remove : Env → Job → Result Error (Unit {0}) × Env
  pub disabled : Env → Result Error Bool × Env

-- One import submission: the attempt it was made for, the request, and the attempt's row at that
-- moment.
pub record Submission : Type 0 where
  pub job_id : ℕ
  pub number : ℕ
  pub request : Raw
  pub stored : Option Attempt

-- A call with errors on a state, which stays changed when the call fails.
abbrev pub Exec {ℓ κ} : Type ℓ → Type κ → Type (ℓ ⊔ κ)
Exec W A = W → Result Error A × W

abbrev pub continue {ℓ κ μ} :
    {W : Type ℓ} {A : Type κ} {B : Type μ}
    → (A → W → Result Error B × W)
    → Result Error A
    → W
    → Result Error B × W
continue f (ok a) w = f a w
continue f (err e) w = (err e, w)

infixl 5 ◌>>=◌ ◌>>◌
abbrev pub ◌>>=◌ {ℓ κ μ} :
    {W : Type ℓ} {A : Type κ} {B : Type μ}
    → (W → Result Error A × W)
    → (A → W → Result Error B × W)
    → W
    → Result Error B × W
◌>>=◌ m f w = continue f (m w).0 (m w).1

abbrev pub ◌>>◌ {ℓ μ} :
    {W : Type ℓ} {B : Type μ}
    → (W → Result Error (Unit {0}) × W)
    → (W → Result Error B × W)
    → W
    → Result Error B × W
◌>>◌ m k = m >>= λ _. k

abbrev pub pure {ℓ κ} : {W : Type ℓ} {A : Type κ} → A → W → Result Error A × W
pure a w = (ok a, w)

abbrev pub give {ℓ κ} : {W : Type ℓ} {A : Type κ} → Result Error A → W → Result Error A × W
give r w = (r, w)

-- The outcome of a call as a value, for code that goes on after an error.
abbrev pub outcome {ℓ κ} :
    {W : Type ℓ} {A : Type κ} → (W → Result Error A × W) → W → Result Error (Result Error A) × W
outcome m w = (ok (m w).0, (m w).1)

-- The submissions made so far are kept beside the program's own state.
pub record World (g : Gorm) (o : Outside) : Type 0 where
  pub db : g.Db
  pub env : o.Env
  pub submissions : List Submission

module _ {g : Gorm} {o : Outside} where
  abbrev pub on_db {ℓ} :
      {A : Type ℓ} → (g.Db → Result Error A × g.Db) → World g o → Result Error A × World g o
  on_db f w = ((f w.db).0, record w { db = (f w.db).1 })

  -- A call that only reads the database.
  abbrev pub reading {ℓ} :
      {A : Type ℓ} → (g.Db → Result Error A) → World g o → Result Error A × World g o
  reading f w = (f w.db, w)

  abbrev pub outside {ℓ} :
      {A : Type ℓ} → (o.Env → Result Error A × o.Env) → World g o → Result Error A × World g o
  outside f w = ((f w.env).0, record w { env = (f w.env).1 })

  abbrev pub asking {ℓ} :
      {A : Type ℓ} → (o.Env → A × o.Env) → World g o → Result Error A × World g o
  asking f w = (ok (f w.env).0, record w { env = (f w.env).1 })

-- errors.Join(first, second), whose value is the second call's.
abbrev pub join_errors {ℓ} : {A : Type ℓ} → Option Error → Result Error A → Result Error A
join_errors none r = r
join_errors (some e) (ok a) = err e
join_errors (some e) (err f) = err (joined e f)
