-- ===== src/Casestore/Join.antt =====
-- pkgs/media-repair/internal/casestore/join_execution.go and join_import_execution.go: the record of a join of
-- files, and its validation. What the packages decisionpolicy, controller and joinverification say of an
-- authorization, an import command and a staged file, and the encoders of worker/contracts, are parameters. A
-- response of the worker is a success or a failure, as its encoder demands.
pub mod Imports
pub mod Validation
pub mod Changes
pub mod Store
pub mod Table
pub mod Preparing
mod Tests
use nix.Base.{
  ℕ, ℤ, is_positive, is_negative, leb_int, same_int, String, Bool, true, false, not, ◌&&◌, ◌||◌,
  Option, none, some, List, [], ◌∷◌, is_none, ltb, ◌==◌, str_eq, str_append, Result, ok, err, ◌>>=◌,
  ◌>>◌, reject, if◌then◌else◌,
}
use nix.Casestore.CaseId.{case_digest}
use nix.Casestore.Execution
use nix.Casestore.Execution.{Platform, Confirmation}

pub data JoinError : Type 0 where
  raised : String → JoinError
  confirmation_invalid : Execution.Error → JoinError
  invalid_case_id unsupported_version wrong_execution_id invalid_times prepared_with_evidence :
      JoinError
  no_stage no_failure unexpected_failure unknown_operation unexpected_import no_artifact : JoinError
  wrong_verification no_destination unexpected_destination inconsistent_failure unknown_state :
      JoinError
  no_import no_command unexpected_command no_confirmation wrong_confirmation : JoinError
  unexpected_confirmation invalid_import : JoinError
  unmatched_exchange no_authorization wrong_operation different_stage cannot_stage : JoinError
  different_publish cannot_publish wrong_artifact different_discard cannot_discard : JoinError
  different_import cannot_import different_command cannot_request predates : JoinError
  different_evidence cannot_confirm cannot_fail command_not_positive : JoinError
  no_time not_prepared unexpected_case moved_backwards different_join : JoinError

-- `JoinExecutionState`, a text in the file.
pub data JoinState : Type 0 where
  join_prepared artifact_ready artifact_discard_pending artifact_published : JoinState
  artifact_discarded join_failed import_prepared import_requested join_imported : JoinState
  import_failed : JoinState
  other_state : String → JoinState

-- `JoinArtifact`, `JoinPublishedArtifact`, `JoinFailure`
pub record Artifact : Type 0 where
  pub id : String
  pub fingerprint : String
  pub size_bytes : ℤ

pub record Published : Type 0 where
  pub root_id : String
  pub path_components : List String

pub record Failure : Type 0 where
  pub operation : String
  pub reason : String

abbrev pub same_texts : List String → List String → Bool
same_texts [] [] = true
same_texts (a ∷ more) (b ∷ others) = str_eq a b && same_texts more others
same_texts _ _ = false

abbrev pub same_artifact : Artifact → Artifact → Bool
same_artifact a b =
    str_eq a.id b.id && (str_eq a.fingerprint b.fingerprint && same_int a.size_bytes b.size_bytes)

abbrev pub same_failure : Failure → Failure → Bool
same_failure a b = str_eq a.operation b.operation && str_eq a.reason b.reason

-- reflect.DeepEqual on pointers
abbrev pub same_option {ℓ} : {A : Type ℓ} → (A → A → Bool) → Option A → Option A → Bool
same_option same none none = true
same_option same (some a) (some b) = same a b
same_option same _ _ = false

abbrev pub stage_operation : String
stage_operation = "stage_join_v1"

abbrev pub publish_operation : String
publish_operation = "publish_v1"

abbrev pub discard_operation : String
discard_operation = "discard_v1"

pub record JoinPlatform : Type 1 where
  pub platform : Platform
  -- decisionpolicy.AuthorizedJoin, and reflect.DeepEqual on it
  pub Authorized : Type 0
  pub case_id : Authorized → String
  pub same_authorized : Authorized → Authorized → Bool
  -- json.Marshal and SHA-256 of the domain and the authorization
  pub digest : String → Authorized → Result JoinError String
  -- controller.RadarrManualImportCommand
  pub Command : Type 0
  pub complete : Command → Bool
  pub same_command : Command → Command → Bool
  pub movie_id : Command → ℤ
  pub download_id : Command → String
  pub path : Command → String
  -- the encoders of worker/contracts, on the parts that the record has
  pub valid_authorized : Authorized → Result JoinError (Unit {0})
  pub valid_failure : String → String → Result JoinError (Unit {0})
  pub valid_published : Artifact → Published → Bool

abbrev pub version_v2 : String
version_v2 = "radarr-repair-join/v2"

abbrev pub join_domain : String
join_domain = "radarr-repair-join-execution-v2\0"

abbrev pub legacy_domain : String
legacy_domain = "radarr-repair-join-execution-v1\0"

abbrev pub bad_command : Option ℤ → Bool
bad_command none = false
bad_command (some id) = not (is_positive id)

abbrev pub is_complete : Artifact → Bool
is_complete a = not (str_eq a.id "") && (not (str_eq a.fingerprint "") && is_positive a.size_bytes)

-- `requireJoinArtifact`
abbrev pub is_rejected : List String → Bool
is_rejected [] = false
is_rejected (x ∷ xs) = true

abbrev pub same_bool : Bool → Bool → Bool
same_bool true b = b
same_bool false b = not b

abbrev pub confirmed : Result Execution.Error (Unit {0}) → Result JoinError (Unit {0})
confirmed (ok u) = ok u
confirmed (err e) = err (confirmation_invalid e)

abbrev pub is_import_prepared : JoinState → Bool
is_import_prepared import_prepared = true
is_import_prepared _ = false

abbrev pub is_prepared : JoinState → Bool
is_prepared join_prepared = true
is_prepared _ = false

module _ (p : JoinPlatform) where
  -- `JoinImport`
  pub record JoinImport : Type 0 where
    pub command : p.Command
    pub history_id_before : ℤ
    pub prepared_at : ℕ
    pub command_id : Option ℤ

  -- `JoinExecution`
  pub record JoinExecution : Type 0 where
    pub version : String
    pub execution_id : String
    pub authorization : p.Authorized
    pub state : JoinState
    pub prepared_at : ℕ
    pub updated_at : ℕ
    pub stage : Option (List String)
    pub artifact : Option Artifact
    pub publication : Option Published
    pub failure : Option Failure
    pub joined : Option JoinImport
    pub confirmation : Option Confirmation

  -- A transition's answer: the record, and whether it changed.
  abbrev pub Moved : Type 0
  Moved = Result JoinError (JoinExecution × Bool)
