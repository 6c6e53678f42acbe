-- ===== src/Jobs/Model.antt =====
-- pkgs/media-repair/internal/jobs/store.go and planning_history.go: the rows of the job database.
-- A time is a number of nanoseconds since the zero time, which is 0. A `json.RawMessage` is `none`
-- when it is nil. An `int64` identifier is a number; a counter wraps at 64 bits.
use nix.Base.{ℕ, ◌*◌, String, Bool, true, false, Option, none, some, str_eq, str_append, ◌||◌}

pub data Error : Type 0 where
  not_found : Error  -- gorm.ErrRecordNotFound
  conflict : Error  -- ErrConflict
  ambiguous_queue : Error  -- the error of MatchQueue
  blocked : String → Error  -- *BlockedError
  other : String → Error  -- any other failure, with its text
  joined : Error → Error → Error  -- errors.Join

-- errors.Is(err, ErrConflict), which looks into joined errors.
unfoldable pub is_conflict : Error → Bool
is_conflict conflict = true
is_conflict (joined a b) = is_conflict a || is_conflict b
is_conflict _ = false

-- errors.As(err, &blocked) for a *BlockedError.
unfoldable pub is_blocked_error : Error → Bool
is_blocked_error (blocked reason) = true
is_blocked_error (joined a b) = is_blocked_error a || is_blocked_error b
is_blocked_error _ = false

-- err.Error()
unfoldable pub error_text : Error → String
error_text not_found = "record not found"
error_text conflict = "job changed or operation is not valid in its current state"
error_text ambiguous_queue =
    "download matches multiple queue entries; cannot follow changed queue ID"
error_text (blocked reason) = reason
error_text (other text) = text
error_text (joined a b) = str_append (error_text a) (str_append "\n" (error_text b))

pub data Service : Type 0 where
  radarr lidarr : Service

pub data State : Type 0 where
  observed ready running importing imported blocked failed removed removing : State

-- `Job.PendingAction` and the `action` argument: "", Reconsider, Delete or another text.
pub data Action : Type 0 where
  no_action reconsider delete : Action
  unknown_action : String → Action

abbrev pub Raw : Type 0
Raw = Option String

-- len(raw) != 0
abbrev pub raw_nonempty : Raw → Bool
raw_nonempty none = false
raw_nonempty (some text) = elim (str_eq text "") [ true ↦ false | false ↦ true ]

-- raw != nil
abbrev pub raw_present : Raw → Bool
raw_present none = false
raw_present (some text) = true

abbrev pub second : ℕ
second = 1000000000

abbrev pub minute : ℕ
minute = 60 * second

abbrev pub hour : ℕ
hour = 60 * minute

pub record Job : Type 0 where
  pub id : ℕ
  pub service : Service
  pub queue_id : ℕ
  pub download_id : String
  pub title : String
  pub source_fingerprint : String
  pub planning_fingerprint : String
  pub previous_planning_fingerprint : String  -- not stored
  pub planning_change : String  -- not stored
  pub stable_since : ℕ
  pub evidence : Raw
  pub collection_error : String
  pub plan : Raw
  pub guidance : String
  pub runtime_tolerance_ms : ℕ
  pub retry_at : ℕ
  pub planning_attempts : ℕ
  pub pending_action : Action
  pub revision : ℕ
  pub in_queue : Bool
  pub state : State
  pub reason : String
  pub updated_at : ℕ

pub record Attempt : Type 0 where
  pub job_id : ℕ
  pub number : ℕ
  pub state : State
  pub plan : Raw
  pub output_path : String
  pub import_request : Raw
  pub history_id_before : ℕ
  pub command_id : ℕ
  pub import_started_at : ℕ
  pub import_terminal_at : ℕ
  pub import_receipt : Raw
  pub reason : String
  pub started_at : ℕ
  pub updated_at : ℕ

pub record PlanningResult : Type 0 where
  pub job_id : ℕ
  pub fingerprint : String
  pub revision : ℕ
  pub complete : Bool
  pub attempts : ℕ
  pub retry_at : ℕ
  pub reason : String
  pub plan : Raw

-- What a row keeps of a job: the fields marked `gorm:"-"` are dropped.
abbrev pub persisted : Job → Job
persisted job = record job { previous_planning_fingerprint = ""; planning_change = "" }

abbrev pub active : State → Bool
active running = true
active importing = true
active removing = true
active _ = false

abbrev pub is_observed : State → Bool
is_observed observed = true
is_observed _ = false

abbrev pub is_ready : State → Bool
is_ready ready = true
is_ready _ = false

abbrev pub is_running : State → Bool
is_running running = true
is_running _ = false

abbrev pub is_importing : State → Bool
is_importing importing = true
is_importing _ = false

abbrev pub is_imported : State → Bool
is_imported imported = true
is_imported _ = false

abbrev pub is_blocked : State → Bool
is_blocked blocked = true
is_blocked _ = false

abbrev pub is_removed : State → Bool
is_removed removed = true
is_removed _ = false

pub State-discrete : Discrete State
State-discrete = hlevel

-- The equality test of two states.
abbrev pub same_state : State → State → Bool
same_state observed observed = true
same_state ready ready = true
same_state running running = true
same_state importing importing = true
same_state imported imported = true
same_state blocked blocked = true
same_state failed failed = true
same_state removed removed = true
same_state removing removing = true
same_state _ _ = false

abbrev pub is_reconsider : Action → Bool
is_reconsider reconsider = true
is_reconsider _ = false

abbrev pub is_delete : Action → Bool
is_delete delete = true
is_delete _ = false

abbrev pub is_no_action : Action → Bool
is_no_action no_action = true
is_no_action _ = false
