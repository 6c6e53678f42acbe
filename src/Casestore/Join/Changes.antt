-- ===== src/Casestore/Join/Changes.antt =====
-- pkgs/media-repair/internal/casestore/join_execution.go: the transitions of a join's record: what a call's function makes of the stored record, and whether it changed.
pub mod Replays
pub mod Progress
pub mod Steps
pub mod Sequences
use nix.Casestore.Join.Imports.{prepare_import, mark_requested, mark_imported, mark_failed}
use nix.Base.{
  ℕ, ℤ, leb_int, same_int, String, Bool, true, false, not, ◌&&◌, ◌||◌, Option, none, some, List, [],
  ◌∷◌, is_none, str_eq, Result, ok, err, ◌>>=◌, ◌>>◌, reject, if◌then◌else◌,
}
use nix.Casestore.Execution.{Confirmation, same_confirmation}
use nix.Casestore.Join.{
  is_prepared, JoinError, JoinState, JoinPlatform, JoinExecution, Moved, JoinImport, Artifact,
  Published, Failure, same_texts, same_artifact, same_failure, same_option, stage_operation,
  publish_operation, discard_operation, is_rejected,
}

-- A worker's answer: the artifact's identifier and fingerprint, or the reason of a failure.
pub data PublishResponse : Type 0 where
  succeeded : String → String → Published → PublishResponse
  failed : String → PublishResponse

pub data DiscardResponse : Type 0 where
  succeeded : String → String → DiscardResponse
  failed : String → DiscardResponse

pub data StageResponse : Type 0 where
  succeeded : Artifact → StageResponse
  failed : String → StageResponse

-- `joinverification.Validation`, as far as the record depends on it: whether it has an artifact to publish,
-- whether it has one to discard, and the reasons of its rejections.
pub record Verification : Type 0 where
  pub publishes : Bool
  pub discards : Bool
  pub reasons : List String

-- `Validation.Accepted`
unfoldable pub accepted : Verification → Bool
accepted v = v.publishes && (not v.discards && not (is_rejected v.reasons))

-- What `joinStageOutcome` answers.
pub record StageOutcome : Type 0 where
  pub state : JoinState
  pub stage : List String
  pub artifact : Option Artifact
  pub failure : Option Failure

-- `joinStageOutcome`
unfoldable pub stage_outcome : StageResponse → Verification → Result JoinError StageOutcome
unfolding accepted
stage_outcome (StageResponse.failed reason) v = ok (record {
  state = JoinState.join_failed;
  stage = v.reasons;
  artifact = none;
  failure = some (record { operation = stage_operation; reason = reason });
})
stage_outcome (StageResponse.succeeded artifact) v =
    if accepted v
    then ok (record {
      state = JoinState.artifact_ready;
      stage = v.reasons;
      artifact = some artifact;
      failure = none;
    })
    else if v.discards
    then ok (record {
      state = JoinState.artifact_discard_pending;
      stage = v.reasons;
      artifact = some artifact;
      failure = none;
    })
    else err JoinError.no_authorization

-- `publishedArtifactMatches`, `discardedArtifactMatches`
abbrev pub artifact_matches : Artifact → String → String → Bool
artifact_matches artifact id fingerprint =
    str_eq id artifact.id && str_eq fingerprint artifact.fingerprint

abbrev pub same_published : Published → Published → Bool
same_published a b = str_eq a.root_id b.root_id && same_texts a.path_components b.path_components

-- `publishedResultMatches`
abbrev pub published_matches :
    Option Artifact → Option Published → String → String → Published → Bool
published_matches (some artifact) (some stored) id fingerprint published =
    artifact_matches artifact id fingerprint && same_published published stored
published_matches _ _ id fingerprint published = false

abbrev pub discarded_matches : Option Artifact → String → String → Bool
discarded_matches none id fingerprint = false
discarded_matches (some artifact) id fingerprint = artifact_matches artifact id fingerprint

abbrev pub is_failed : JoinState → Bool
is_failed JoinState.join_failed = true
is_failed _ = false

-- `repeatedJoinFailure`
abbrev pub repeats : String → String → Option Failure → Bool
repeats operation reason none = false
repeats operation reason (some f) = str_eq f.operation operation && str_eq f.reason reason

module _ (p : JoinPlatform) where
  -- `RecordJoinStage`
  unfoldable pub same_stage : StageOutcome → JoinExecution p → Bool
  same_stage o r =
      same_option same_texts r.stage (some o.stage)
      && (same_option same_artifact r.artifact o.artifact
          && (not (is_failed o.state) || same_option same_failure r.failure o.failure))

  unfoldable pub record_stage : p.Authorized → String → StageOutcome → JoinExecution p → Moved p
  unfolding same_stage
  record_stage authorized execution_id o r =
      if not (p.same_authorized r.authorization authorized)
        || not (str_eq execution_id r.execution_id)
      then err JoinError.wrong_operation
      else if not (is_none r.stage)
      then (if same_stage o r then ok (r, false) else err JoinError.different_stage)
      else if not (is_prepared r.state)
      then err JoinError.cannot_stage
      else ok (
        record r {
          state = o.state;
          stage = some o.stage;
          artifact = o.artifact;
          failure = o.failure;
        },
        true,
      )

  -- `RecordJoinPublish`
  abbrev pub fails : JoinExecution p → String → String → JoinExecution p
  fails r operation reason = record r {
    state = JoinState.join_failed;
    failure = some (record { operation = operation; reason = reason });
  }

  unfoldable pub publish_ready : PublishResponse → Option Artifact → JoinExecution p → Moved p
  publish_ready response none r = err JoinError.cannot_publish
  publish_ready (PublishResponse.failed reason) (some artifact) r =
      ok (fails r publish_operation reason, true)
  publish_ready (PublishResponse.succeeded id fingerprint published) (some artifact) r =
      if not (artifact_matches artifact id fingerprint)
      then err JoinError.wrong_artifact
      else ok
          (record r { state = JoinState.artifact_published; publication = some published }, true)

  abbrev pub publish_again : PublishResponse → JoinExecution p → Moved p
  publish_again (PublishResponse.failed reason) r = err JoinError.different_publish
  publish_again (PublishResponse.succeeded id fingerprint published) r =
      if published_matches r.artifact r.publication id fingerprint published
      then ok (r, false)
      else err JoinError.different_publish

  abbrev pub publish_failed : PublishResponse → JoinExecution p → Moved p
  publish_failed (PublishResponse.failed reason) r =
      if repeats publish_operation reason r.failure
      then ok (r, false)
      else err JoinError.cannot_publish
  publish_failed (PublishResponse.succeeded id fingerprint published) r =
      err JoinError.cannot_publish

  unfoldable pub record_publish : PublishResponse → JoinExecution p → Moved p
  unfolding publish_ready
  record_publish response r = elim r.state [
    | JoinState.artifact_published ↦ publish_again response r
    | JoinState.join_failed ↦ publish_failed response r
    | JoinState.artifact_ready ↦ publish_ready response r.artifact r
    | _ ↦ err JoinError.cannot_publish
  ]

  -- `RecordJoinDiscard`
  unfoldable pub discard_pending : DiscardResponse → Option Artifact → JoinExecution p → Moved p
  discard_pending response none r = err JoinError.cannot_discard
  discard_pending (DiscardResponse.failed reason) (some artifact) r =
      ok (fails r discard_operation reason, true)
  discard_pending (DiscardResponse.succeeded id fingerprint) (some artifact) r =
      if not (artifact_matches artifact id fingerprint)
      then err JoinError.wrong_artifact
      else ok (record r { state = JoinState.artifact_discarded }, true)

  abbrev pub discard_again : DiscardResponse → JoinExecution p → Moved p
  discard_again (DiscardResponse.failed reason) r = err JoinError.different_discard
  discard_again (DiscardResponse.succeeded id fingerprint) r =
      if discarded_matches r.artifact id fingerprint
      then ok (r, false)
      else err JoinError.different_discard

  abbrev pub discard_failed : DiscardResponse → JoinExecution p → Moved p
  discard_failed (DiscardResponse.failed reason) r =
      if repeats discard_operation reason r.failure
      then ok (r, false)
      else err JoinError.cannot_discard
  discard_failed (DiscardResponse.succeeded id fingerprint) r = err JoinError.cannot_discard

  unfoldable pub record_discard : DiscardResponse → JoinExecution p → Moved p
  unfolding discard_pending
  record_discard response r = elim r.state [
    | JoinState.artifact_discarded ↦ discard_again response r
    | JoinState.join_failed ↦ discard_failed response r
    | JoinState.artifact_discard_pending ↦ discard_pending response r.artifact r
    | _ ↦ err JoinError.cannot_discard
  ]

  -- A change that `updateJoinExecution` is asked for.
  pub data Change : Type 0 where
    staging : p.Authorized → String → StageResponse → Verification → Change
    publishing : PublishResponse → Change
    discarding : DiscardResponse → Change
    preparing : p.Command → ℤ → ℕ → Change
    requesting : ℤ → Change
    importing : Confirmation → Change
    failing : Change

  unfoldable pub change : Change → JoinExecution p → Moved p
  unfolding stage_outcome record_stage record_publish record_discard prepare_import mark_requested
      mark_imported mark_failed
  change (staging authorized execution_id response v) r =
      stage_outcome response v >>= λ o. record_stage authorized execution_id o r
  change (publishing response) r = record_publish response r
  change (discarding response) r = record_discard response r
  change (preparing command before at) r = prepare_import p command before at r
  change (requesting id) r = mark_requested p id r
  change (importing c) r = mark_imported p c r
  change failing r = mark_failed p r
