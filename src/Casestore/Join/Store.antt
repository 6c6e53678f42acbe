-- ===== src/Casestore/Join/Store.antt =====
-- pkgs/media-repair/internal/casestore/join_execution.go and join_import_execution.go: the operations of `Store`
-- on the record of a join. The files, JSON, the checks against the stored case and decision, the encoders of
-- worker/contracts and the verification of a staged file are parameters.
use nix.Base.{
  ℕ, ℤ, is_positive, is_negative, String, Bool, true, false, not, ◌&&◌, ◌||◌, Option, none, some,
  List, [], ◌∷◌, ◌==◌, str_eq, Result, ok, err, ◌>>=◌, ◌>>◌, reject, if◌then◌else◌,
}
use nix.Durable
use nix.Durable.{Disk, Json, Codec, Keeping}
use nix.Casestore.CaseId.{case_digest}
use nix.Casestore.Execution
use nix.Casestore.Execution.{Confirmation}
use nix.Casestore.Join.Validation.{execution_id_in, validate}
use nix.Casestore.Join.{
  JoinError, JoinState, JoinPlatform, JoinExecution, join_domain, version_v2, confirmed,
}
use nix.Casestore.Join.Imports
use nix.Casestore.Join.Imports.{prepare_import}
use nix.Casestore.Join.Changes.{
  StageResponse, PublishResponse, DiscardResponse, Verification, stage_outcome, record_stage,
  record_publish, record_discard,
}

abbrev pub known_case : Option String → Result JoinError String
known_case none = err JoinError.invalid_case_id
known_case (some digest) = ok digest

-- `hasJoinRejection`
unfoldable pub has_reason : String → List String → Bool
has_reason wanted [] = false
has_reason wanted (reason ∷ rest) = str_eq reason wanted || has_reason wanted rest

pub record Worker (p : JoinPlatform) (Fs : Type 0) : Type 1 where
  pub StageRequest : Type 0
  pub request_execution : StageRequest → String
  pub encode_request : StageRequest → Result JoinError (Unit {0})
  pub encode_stage : StageResponse → Result JoinError (Unit {0})
  pub encode_publish : PublishResponse → Result JoinError (Unit {0})
  pub encode_discard : DiscardResponse → Result JoinError (Unit {0})
  pub verify : p.Authorized → StageRequest → StageResponse → Verification
  -- `validateJoinAuthorization`, and `validateJoinImportRequest` past its first test
  pub authorization : Fs → p.Authorized → Result JoinError (Unit {0})
  pub stored_case : Fs → String → p.Command → Result JoinError (Unit {0})

module _ (p : JoinPlatform) where
  -- `executionPath`, and what `updateJoinExecution` says
  abbrev pub keeping : Keeping JoinError (JoinExecution p)
  keeping = record {
    path = λ case_id. known_case (case_digest case_id);
    case_of = λ r. p.case_id r.authorization;
    updated_at = λ r. r.updated_at;
    stamp = λ r at. record r { updated_at = at };
    no_time = JoinError.no_time;
    not_prepared = JoinError.not_prepared;
    unexpected_case = JoinError.unexpected_case;
    moved_backwards = JoinError.moved_backwards;
  }

  -- `JoinExecutionNeedsRecheck`
  abbrev pub differs : Result JoinError String → String → Bool
  differs (err e) id = false
  differs (ok current) id = not (str_eq id current)

  abbrev pub is_discarded : JoinState → Bool
  is_discarded JoinState.artifact_discarded = true
  is_discarded _ = false

  unfoldable pub needs_recheck : JoinExecution p → Bool
  unfolding execution_id_in
  needs_recheck r =
      is_discarded r.state && differs (execution_id_in p join_domain r.authorization) r.execution_id

  abbrev pub prepared_record : String → p.Authorized → ℕ → JoinExecution p
  prepared_record id a at = record {
    version = version_v2;
    execution_id = id;
    authorization = a;
    state = JoinState.join_prepared;
    prepared_at = at;
    updated_at = at;
    stage = none;
    artifact = none;
    publication = none;
    failure = none;
    joined = none;
    confirmation = none;
  }

  module _ (d : Disk JoinError) (json : Json JoinError (JoinExecution p) d.Bytes)
      (w : Worker p d.Fs) where
    -- `EncodeJoinExecution`, `DecodeJoinExecution`
    abbrev pub codec : Codec JoinError (JoinExecution p) d.Bytes
    codec = record { validate = validate p; json = json }

    -- `readJoinExecution`, `writeJoinExecution`, `GetJoinExecution`
    unfoldable pub read_execution : d.Fs → String → Result JoinError (Option (JoinExecution p))
    unfolding Durable.read
    read_execution s path = Durable.read d codec s path

    unfoldable pub write_execution : d.Fs → String → JoinExecution p → Result JoinError d.Fs
    unfolding Durable.write
    write_execution s path r = Durable.write d codec s path r

    unfoldable pub get : d.Fs → String → Result JoinError (Option (JoinExecution p))
    unfolding Durable.get
    get s case_id = Durable.get d codec keeping s case_id

    abbrev pub Answer : Type 0
    Answer = Result JoinError (JoinExecution p × Bool × d.Fs)

    -- `PrepareJoin`
    unfoldable pub prepare_new : d.Fs → String → p.Authorized → ℕ → Answer
    unfolding write_execution execution_id_in
    prepare_new s path a at = do
      id ← execution_id_in p join_domain a
      t ← write_execution s path (prepared_record id a at)
      ok (prepared_record id a at, true, t)

    unfoldable pub prepare_found :
        d.Fs → String → p.Authorized → ℕ → Option (JoinExecution p) → Answer
    unfolding prepare_new needs_recheck
    prepare_found s path a at none = prepare_new s path a at
    prepare_found s path a at (some previous) =
        if not (p.same_authorized previous.authorization a)
        then err JoinError.different_join
        else if not (needs_recheck previous)
        then ok (previous, false, s)
        else prepare_new s path a at

    unfoldable pub prepare : d.Fs → p.Authorized → ℕ → Answer
    unfolding prepare_found read_execution
    prepare s a at = do
      reject (at == 0) JoinError.no_time
      path ← known_case (case_digest (p.case_id a))
      d.lock s
      w.authorization s a
      found ← read_execution s path
      prepare_found s path a at found

    -- `updateJoinExecution`
    unfoldable pub update :
        d.Fs → String → ℕ → (JoinExecution p → Result JoinError (JoinExecution p × Bool)) → Answer
    unfolding Durable.update
    update s case_id at change = Durable.update d codec keeping s case_id at change

    -- `RecordJoinStage`
    unfoldable pub stage : d.Fs → p.Authorized → w.StageRequest → StageResponse → ℕ → Answer
    unfolding update stage_outcome record_stage has_reason
    stage s a request response at = do
      w.encode_request request
      w.encode_stage response
      reject
          (has_reason "stage_request_not_authorized" (w.verify a request response).reasons
            || has_reason "stage_response_not_correlated" (w.verify a request response).reasons)
          JoinError.unmatched_exchange
      o ← stage_outcome response (w.verify a request response)
      update s (p.case_id a) at (record_stage p a (w.request_execution request) o)

    -- `RecordJoinPublish`, `RecordJoinDiscard`
    unfoldable pub publish : d.Fs → String → PublishResponse → ℕ → Answer
    unfolding update record_publish
    publish s case_id response at = do
      w.encode_publish response
      update s case_id at (record_publish p response)

    unfoldable pub discard : d.Fs → String → DiscardResponse → ℕ → Answer
    unfolding update record_discard
    discard s case_id response at = do
      w.encode_discard response
      update s case_id at (record_discard p response)

    -- `PrepareJoinImport`
    unfoldable pub prepare_joined : d.Fs → String → p.Command → ℤ → ℕ → Answer
    unfolding update prepare_import
    prepare_joined s case_id command before at = do
      reject (not (p.complete command) || is_negative before) JoinError.invalid_import
      w.stored_case s case_id command
      update s case_id at (prepare_import p command before at)

    -- `MarkJoinImportRequested`, `MarkJoinImported`, `MarkJoinImportFailed`
    unfoldable pub mark_requested : d.Fs → String → ℤ → ℕ → Answer
    unfolding update Imports.mark_requested
    mark_requested s case_id id at = do
      reject (not (is_positive id)) JoinError.command_not_positive
      update s case_id at (Imports.mark_requested p id)

    unfoldable pub mark_imported : d.Fs → String → Confirmation → ℕ → Answer
    unfolding update Imports.mark_imported Execution.validate_confirmation
    mark_imported s case_id c at = do
      confirmed (Execution.validate_confirmation p.platform c)
      update s case_id at (Imports.mark_imported p c)

    unfoldable pub mark_failed : d.Fs → String → ℕ → Answer
    unfolding update Imports.mark_failed
    mark_failed s case_id at = update s case_id at (Imports.mark_failed p)
