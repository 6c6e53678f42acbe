-- ===== src/Servarr/Command.antt =====
-- pkgs/media-repair/internal/servarr/command.go: the disposition of an import command.
use nix.Base.{ℕ, String, Bool, true, false, Result, ok, err}

pub data CommandStatus : Type 0 where
  queued started completed failed aborted cancelled orphaned : CommandStatus
  unknown_status : String → CommandStatus

-- `no_result` is the empty text.
pub data CommandResult : Type 0 where
  no_result unknown successful unsuccessful : CommandResult
  other_result : String → CommandResult

pub record Command : Type 0 where
  pub id : ℕ
  pub name : String
  pub message : String
  pub exception : String
  pub status : CommandStatus
  pub result : CommandResult

pub data Disposition : Type 0 where
  pending done broken : Disposition

pub data CommandError : Type 0 where
  active_result completed_result : CommandResult → CommandError
  bad_status : CommandStatus → CommandError

abbrev pub classify_active : CommandResult → Result CommandError Disposition
classify_active no_result = ok pending
classify_active unknown = ok pending
classify_active result = err (active_result result)

abbrev pub classify_completed : CommandResult → Bool → Result CommandError Disposition
classify_completed successful require_result = ok done
classify_completed unsuccessful require_result = ok broken
classify_completed no_result false = ok done
classify_completed result require_result = err (completed_result result)

-- `ClassifyImportCommand`
unfoldable pub classify : Command → Bool → Result CommandError Disposition
classify command require_result = elim command.status [
  | queued ↦ classify_active command.result
  | started ↦ classify_active command.result
  | completed ↦ classify_completed command.result require_result
  | failed ↦ ok broken
  | aborted ↦ ok broken
  | cancelled ↦ ok broken
  | orphaned ↦ ok broken
  | unknown_status text ↦ err (bad_status (unknown_status text))
]

abbrev pub is_terminal : Disposition → Bool
is_terminal pending = false
is_terminal done = true
is_terminal broken = true
