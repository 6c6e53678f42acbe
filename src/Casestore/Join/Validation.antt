-- ===== src/Casestore/Join/Validation.antt =====
-- pkgs/media-repair/internal/casestore/join_execution.go and join_import_execution.go: the validation of a join's
-- record, which every read and write repeats.
use nix.Base.{
  ℕ, is_negative, leb_int, same_int, String, Bool, true, false, not, ◌&&◌, ◌||◌, Option, none, some,
  List, is_none, ltb, ◌==◌, str_eq, str_append, Result, ok, err, ◌>>=◌, ◌>>◌, reject, if◌then◌else◌,
}
use nix.Casestore.CaseId.{case_digest}
use nix.Casestore.Execution
use nix.Casestore.Execution.{Platform, Confirmation}
use nix.Casestore.Join.{
  JoinError, JoinState, JoinPlatform, JoinExecution, JoinImport, Artifact, Published, Failure,
  stage_operation, publish_operation, discard_operation, version_v2, join_domain, legacy_domain,
  bad_command, is_complete, is_rejected, same_bool, confirmed, is_import_prepared, is_prepared,
}

module _ (p : JoinPlatform) where
  -- `joinExecutionID`, `JoinExecutionID`, `legacyJoinExecutionID`; the domains end with a NUL character.
  unfoldable pub execution_id_in : String → p.Authorized → Result JoinError String
  execution_id_in domain authorized = do
    digest ← p.digest domain authorized
    ok (str_append "execution:" digest)

  -- `validateStoredJoinImport`
  unfoldable pub validate_import : JoinImport p → ℕ → ℕ → Result JoinError (Unit {0})
  validate_import i prepared_at updated_at =
      reject
        (not (p.complete i.command)
          || (is_negative i.history_id_before
              || (i.prepared_at == 0
                  || (ltb i.prepared_at prepared_at
                      || (ltb updated_at i.prepared_at || bad_command i.command_id)))))
        JoinError.invalid_import

  unfoldable pub require_publication :
      Bool → Artifact → Option Published → Result JoinError (Unit {0})
  require_publication true artifact none = err JoinError.no_destination
  require_publication true artifact (some published) =
      reject (not (p.valid_published artifact published)) JoinError.no_destination
  require_publication false artifact none = ok tt
  require_publication false artifact (some published) = err JoinError.unexpected_destination

  unfoldable pub require_artifact :
      Option Artifact → List String → Option Published → Bool → Bool → Result JoinError (Unit {0})
  unfolding require_publication
  require_artifact none rejections published rejected is_published = err JoinError.no_artifact
  require_artifact (some artifact) rejections published rejected is_published = do
    reject (not (is_complete artifact)) JoinError.no_artifact
    reject (not (same_bool (is_rejected rejections) rejected)) JoinError.wrong_verification
    require_publication is_published artifact published

  -- `requireJoinBeforeImport`
  unfoldable pub require_before_import :
      JoinExecution p → List String → Bool → Bool → Result JoinError (Unit {0})
  unfolding require_artifact
  require_before_import r rejections rejected is_published = do
    require_artifact r.artifact rejections r.publication rejected is_published
    reject (not (is_none r.joined) || not (is_none r.confirmation)) JoinError.unexpected_import

  -- `requireJoinImport`
  unfoldable pub require_confirmation :
      Bool → JoinImport p → Option Confirmation → Result JoinError (Unit {0})
  unfolding Execution.validate_confirmation
  require_confirmation true i none = err JoinError.no_confirmation
  require_confirmation true i (some c) = do
    confirmed (Execution.validate_confirmation p.platform c)
    reject
        (not (same_int c.movie_id (p.movie_id i.command))
          || (not (str_eq c.download_id (p.download_id i.command))
              || (not (str_eq c.dropped_path (p.path i.command))
                  || leb_int c.history_id i.history_id_before)))
        JoinError.wrong_confirmation
  require_confirmation false i none = ok tt
  require_confirmation false i (some c) = err JoinError.unexpected_confirmation

  unfoldable pub require_joined :
      JoinExecution p → Option (JoinImport p) → Bool → Bool → Result JoinError (Unit {0})
  unfolding validate_import require_confirmation
  require_joined r none command_required confirmation_required = err JoinError.no_import
  require_joined r (some i) command_required confirmation_required = do
    validate_import i r.prepared_at r.updated_at
    reject (command_required && is_none i.command_id) JoinError.no_command
    reject (is_import_prepared r.state && not (is_none i.command_id)) JoinError.unexpected_command
    require_confirmation confirmation_required i r.confirmation

  unfoldable pub require_import :
      JoinExecution p → List String → Bool → Bool → Result JoinError (Unit {0})
  unfolding require_artifact require_joined
  require_import r rejections command_required confirmation_required = do
    require_artifact r.artifact rejections r.publication false true
    require_joined r r.joined command_required confirmation_required

  -- `validateJoinFailure`, whose encoders know the reasons of three operations
  unfoldable pub validate_failure : Failure → Result JoinError (Unit {0})
  validate_failure f =
      if str_eq f.operation stage_operation
        || (str_eq f.operation publish_operation || str_eq f.operation discard_operation)
      then p.valid_failure f.operation f.reason
      else err JoinError.unknown_operation

  -- `validateJoinExecution`: a failed join, by its operation.
  unfoldable pub validate_failed :
      JoinExecution p → List String → Option Failure → Result JoinError (Unit {0})
  unfolding validate_failure require_before_import
  validate_failed r rejections none = err JoinError.no_failure
  validate_failed r rejections (some f) = do
    validate_failure f
    if str_eq f.operation stage_operation
        then reject
            (not (is_none r.artifact)
              || (not (is_none r.publication)
                  || (not (is_rejected rejections)
                      || (not (is_none r.joined) || not (is_none r.confirmation)))))
            JoinError.inconsistent_failure
        else if str_eq f.operation publish_operation
        then require_before_import r rejections false false
        else require_before_import r rejections true false

  unfoldable pub validate_staged : JoinExecution p → List String → Result JoinError (Unit {0})
  unfolding require_before_import require_import validate_failed
  validate_staged r rejections = elim r.state [
    | JoinState.join_prepared ↦ ok tt
    | JoinState.artifact_ready ↦ succeeded (require_before_import r rejections false false)
    | JoinState.artifact_discard_pending ↦ succeeded (require_before_import r rejections true false)
    | JoinState.artifact_discarded ↦ succeeded (require_before_import r rejections true false)
    | JoinState.artifact_published ↦ succeeded (require_before_import r rejections false true)
    | JoinState.import_prepared ↦ succeeded (require_import r rejections false false)
    | JoinState.import_requested ↦ succeeded (require_import r rejections true false)
    | JoinState.join_imported ↦ succeeded (require_import r rejections false true)
    | JoinState.import_failed ↦ succeeded (require_import r rejections true false)
    | JoinState.join_failed ↦ validate_failed r rejections r.failure
    | JoinState.other_state text ↦ succeeded (err JoinError.unknown_state)
  ]
    where
      succeeded : Result JoinError (Unit {0}) → Result JoinError (Unit {0})
      succeeded rest = do reject (not (is_none r.failure)) JoinError.unexpected_failure; rest

  unfoldable pub validate_stage :
      JoinExecution p → Option (List String) → Result JoinError (Unit {0})
  unfolding validate_staged
  validate_stage r none = err JoinError.no_stage
  validate_stage r (some rejections) = validate_staged r rejections

  -- `validateJoinExecution`
  unfoldable pub validate : JoinExecution p → Result JoinError (Unit {0})
  unfolding validate_stage execution_id_in case_digest
  validate r = do
    reject (not (str_eq r.version version_v2)) JoinError.unsupported_version
    reject (is_none (case_digest (p.case_id r.authorization))) JoinError.invalid_case_id
    p.valid_authorized r.authorization
    current ← execution_id_in join_domain r.authorization
    legacy ← execution_id_in legacy_domain r.authorization
    reject (not (str_eq r.execution_id current) && not (str_eq r.execution_id legacy))
        JoinError.wrong_execution_id
    reject (r.prepared_at == 0 || (r.updated_at == 0 || ltb r.updated_at r.prepared_at))
        JoinError.invalid_times
    if is_prepared r.state
        then reject
            (not (is_none r.stage)
              || (not (is_none r.artifact)
                  || (not (is_none r.publication)
                      || (not (is_none r.failure)
                          || (not (is_none r.joined) || not (is_none r.confirmation))))))
            JoinError.prepared_with_evidence
        else validate_stage r r.stage
