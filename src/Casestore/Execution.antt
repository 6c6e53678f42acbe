-- ===== src/Casestore/Execution.antt =====
-- pkgs/media-repair/internal/casestore/execution.go and import_confirmation.go: the record of a manual
-- import, its validation and its transitions. A time is a number and 0 is the zero time. The functions of
-- the packages strings and filepath are parameters.
use nix.Casestore.CaseId.{case_digest}
use nix.Base.{
  ℕ, ℤ, is_positive, is_negative, leb_int, same_int, String, Bool, true, false, not, ◌&&◌, ◌||◌,
  Option, none, some, ltb, ◌==◌, str_eq, Result, ok, err, ◌>>=◌, ◌>>◌, reject, if◌then◌else◌,
}

pub data Error : Type 0 where
  invalid_case_id unsupported_version incomplete_identity invalid_times : Error
  prepared_with_evidence requested_without_command requested_with_evidence : Error
  command_not_positive imported_without_evidence failed_with_evidence unknown_state : Error
  confirmation_ids confirmation_download confirmation_time confirmation_paths : Error
  confirmation_predates different_command cannot_request : Error
  confirmation_mismatch different_operation different_evidence cannot_import cannot_fail : Error
  negative_history no_time not_prepared time_backwards different_import : Error
  unauthorized unexpected_case : Error
  io : String → Error

pub record Platform : Type 0 where
  pub trim : String → String  -- strings.TrimSpace
  pub has_nul : String → Bool  -- strings.ContainsRune(_, '\x00')
  pub is_abs : String → Bool
  pub clean : String → String
  pub dir : String → String

pub data State : Type 0 where
  prepared requested imported failed : State
  other_state : String → State

pub record Fingerprint : Type 0 where
  pub device : ℕ
  pub inode : ℕ
  pub size_bytes : ℤ
  pub modified : ℤ

abbrev pub same_fingerprint : Fingerprint → Fingerprint → Bool
same_fingerprint a b =
    (a.device == b.device)
    && ((a.inode == b.inode)
        && (same_int a.size_bytes b.size_bytes && same_int a.modified b.modified))

-- `RadarrImportConfirmation`
pub record Confirmation : Type 0 where
  pub history_id : ℤ
  pub movie_file_id : ℤ
  pub movie_id : ℤ
  pub download_id : String
  pub occurred_at : ℕ
  pub dropped_path : String
  pub imported_path : String

abbrev pub same_confirmation : Confirmation → Confirmation → Bool
same_confirmation a b =
    same_int a.history_id b.history_id
    && (same_int a.movie_file_id b.movie_file_id
        && (same_int a.movie_id b.movie_id
            && (str_eq a.download_id b.download_id
                && ((a.occurred_at == b.occurred_at)
                    && (str_eq a.dropped_path b.dropped_path
                        && str_eq a.imported_path b.imported_path)))))

-- `ManualImportExecution`
pub record Execution : Type 0 where
  pub version : String
  pub case_id : String
  pub capability_id : String
  pub file_id : String
  pub expected_fingerprint : Fingerprint
  pub state : State
  pub history_id_before : ℤ
  pub prepared_at : ℕ
  pub updated_at : ℕ
  pub command_id : Option ℤ
  pub confirmation : Option Confirmation

-- `AuthorizedManualImport`, the fields that this package reads.
pub record Authorized : Type 0 where
  pub case_id : String
  pub capability_id : String
  pub file_id : String
  pub expected_fingerprint : Fingerprint
  pub movie_id : ℤ
  pub download_id : String
  pub path : String

abbrev pub version_v1 : String
version_v1 = "radarr-repair-manual-import/v1"

module _ (p : Platform) where
  -- `validExecutionPath`
  unfoldable pub valid_path : String → Bool
  valid_path path =
      not (str_eq path "")
      && (not (p.has_nul path)
          && (p.is_abs path && (str_eq (p.clean path) path && not (str_eq (p.dir path) path))))

  unfoldable pub validate_confirmation : Confirmation → Result Error (Unit {0})
  unfolding valid_path
  validate_confirmation c = do
    reject
        (not (is_positive c.history_id)
          || (not (is_positive c.movie_file_id) || not (is_positive c.movie_id)))
        confirmation_ids
    reject
        (str_eq c.download_id ""
          || (not (str_eq (p.trim c.download_id) c.download_id) || p.has_nul c.download_id))
        confirmation_download
    reject (c.occurred_at == 0) confirmation_time
    reject (not (valid_path c.dropped_path) || not (valid_path c.imported_path)) confirmation_paths
    ok tt

  abbrev pub known_case : Option String → Result Error String
  known_case none = err invalid_case_id
  known_case (some digest) = ok digest

  abbrev pub is_some {ℓ} : {A : Type ℓ} → Option A → Bool
  is_some none = false
  is_some (some a) = true

  -- record.CommandID != nil && *record.CommandID <= 0
  abbrev pub bad_command : Option ℤ → Bool
  bad_command none = false
  bad_command (some id) = not (is_positive id)

  -- record.CommandID == nil || *record.CommandID <= 0
  abbrev pub no_command : Option ℤ → Bool
  no_command none = true
  no_command (some id) = not (is_positive id)

  unfoldable pub validate_imported : ℤ → Option Confirmation → Result Error (Unit {0})
  unfolding validate_confirmation
  validate_imported before none = err imported_without_evidence
  validate_imported before (some c) = do
    validate_confirmation c
    reject (leb_int c.history_id before) confirmation_predates
    ok tt

  unfoldable pub validate_state :
      State → Option ℤ → ℤ → Option Confirmation → Result Error (Unit {0})
  unfolding validate_imported
  validate_state prepared command before confirmation =
      reject (is_some command || is_some confirmation) prepared_with_evidence
  validate_state requested command before confirmation = do
    reject (no_command command) requested_without_command
    reject (is_some confirmation) requested_with_evidence
  validate_state imported command before confirmation = do
    reject (bad_command command) command_not_positive
    validate_imported before confirmation
  validate_state failed command before confirmation = do
    reject (bad_command command) command_not_positive
    reject (is_some confirmation) failed_with_evidence
  validate_state (other_state text) command before confirmation = err unknown_state

  -- `validateManualImportExecution`
  unfoldable pub validate : Execution → Result Error (Unit {0})
  unfolding validate_state
  validate r = do
    reject (not (str_eq r.version version_v1)) unsupported_version
    digest ← known_case (case_digest r.case_id)
    reject
        (str_eq r.capability_id ""
          || (str_eq r.file_id ""
              || (not (is_positive r.expected_fingerprint.size_bytes)
                  || is_negative r.history_id_before)))
        incomplete_identity
    reject ((r.prepared_at == 0) || ((r.updated_at == 0) || ltb r.updated_at r.prepared_at))
        invalid_times
    validate_state r.state r.command_id r.history_id_before r.confirmation

-- `sameManualImport`
unfoldable pub same_import : Execution → Authorized → Bool
same_import r a =
    str_eq r.case_id a.case_id
    && (str_eq r.capability_id a.capability_id
        && (str_eq r.file_id a.file_id
            && same_fingerprint r.expected_fingerprint a.expected_fingerprint))

abbrev pub prepared_record : Authorized → ℤ → ℕ → Execution
prepared_record a before at = record {
  version = version_v1;
  case_id = a.case_id;
  capability_id = a.capability_id;
  file_id = a.file_id;
  expected_fingerprint = a.expected_fingerprint;
  state = prepared;
  history_id_before = before;
  prepared_at = at;
  updated_at = at;
  command_id = none;
  confirmation = none;
}

abbrev pub has_command : Option ℤ → ℤ → Bool
has_command none id = false
has_command (some old) id = same_int old id

abbrev pub has_confirmation : Option Confirmation → Confirmation → Bool
has_confirmation none c = false
has_confirmation (some old) c = same_confirmation old c

-- The transition functions: the new record, and whether it changed.
unfoldable pub request : ℤ → Execution → Result Error (Execution × Bool)
request id r = elim r.state [
  | prepared ↦ ok (record r { state = requested; command_id = some id }, true)
  | requested ↦ if has_command r.command_id id then ok (r, false) else err different_command
  | imported ↦ err cannot_request
  | failed ↦ err cannot_request
  | other_state text ↦ err cannot_request
]

abbrev pub import_first : Confirmation → Execution → Result Error (Execution × Bool)
import_first c r =
    if leb_int c.history_id r.history_id_before
    then err confirmation_predates
    else ok (record r { state = imported; confirmation = some c }, true)

unfoldable pub confirm : Authorized → Confirmation → Execution → Result Error (Execution × Bool)
unfolding same_import
confirm a c r = if not (same_import r a) then err different_operation else elim r.state [
  | prepared ↦ import_first c r
  | requested ↦ import_first c r
  | imported ↦ if has_confirmation r.confirmation c then ok (r, false) else err different_evidence
  | failed ↦ err cannot_import
  | other_state text ↦ err cannot_import
]

unfoldable pub fail : Execution → Result Error (Execution × Bool)
fail r = elim r.state [
  | prepared ↦ ok (record r { state = failed }, true)
  | requested ↦ ok (record r { state = failed }, true)
  | failed ↦ ok (r, false)
  | imported ↦ err cannot_fail
  | other_state text ↦ err cannot_fail
]
