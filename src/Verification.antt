-- ===== src/Verification.antt =====
-- pkgs/media-repair/internal/joinverification/validator.go: whether a staged join is what was authorized. A probe's
-- evidence, its duration and the comparison of stream layouts (internal/controller), the encoders of
-- worker/contracts and the strict form of a fingerprint are parameters. Durations in milliseconds are not negative,
-- as the encoders demand, and a response of the worker is a success or a failure.
pub mod Acceptance
mod Tests
use nix.Base.{
  ℕ, ℤ, is_positive, same_int, ◌+◌, ◌-◌, String, Bool, true, false, not, ◌&&◌, ◌||◌, Option, none,
  some, List, [], ◌∷◌, ◌++◌, length, is_none, ltb, leb, ◌==◌, str_eq, if◌then◌else◌,
}

pub record Part : Type 0 where
  pub file_id : String
  pub fingerprint : String

-- What `controller.AssessProbeDuration` answers.
pub record Duration : Type 0 where
  pub conflict : Bool
  pub effective : Option ℕ

pub data Container : Type 0 where
  avi mkv mp4 : Container
  other_container : String → Container

-- `decisionpolicy.AuthorizedJoin`
pub record Authorized (Layout : Type 0) : Type 0 where
  pub case_id : String
  pub capability_id : String
  pub parts : List Part
  pub source_bytes : ℤ
  pub expected_duration : ℕ
  pub tolerance : ℕ
  pub container : Container
  pub layout : Layout

pub record Request : Type 0 where
  pub request_id : String
  pub execution_id : String
  pub case_id : String
  pub capability_id : String
  pub parts : List Part
  pub source_bytes : ℤ
  pub expected_duration : ℕ
  pub tolerance : ℕ
  pub stream_count : ℕ
  pub container : Container

pub record Success (Evidence : Type 0) : Type 0 where
  pub artifact_id : String
  pub artifact_fingerprint : String
  pub size_bytes : ℤ
  pub evidence : Evidence

-- A response, with the identifier of the request that it answers.
pub data Response (Evidence : Type 0) : Type 0 where
  succeeded : String → Success Evidence → Response Evidence
  stage_failed : String → Response Evidence

pub data Reason : Type 0 where
  invalid_stage_request stage_request_not_authorized invalid_stage_response : Reason
  stage_response_not_correlated failed artifact_size_mismatch duration_unavailable : Reason
  duration_outside_tolerance output_container_mismatch stream_layout_mismatch : Reason

-- `ArtifactReference`
pub record Reference : Type 0 where
  pub execution_id : String
  pub case_id : String
  pub capability_id : String
  pub artifact_id : String
  pub artifact_fingerprint : String

pub record Validation : Type 0 where
  pub publish : Option Reference
  pub discard : Option Reference
  pub rejections : List Reason

abbrev pub is_empty {ℓ} : {A : Type ℓ} → List A → Bool
is_empty [] = true
is_empty (x ∷ xs) = false

-- `Validation.Accepted`
unfoldable pub accepted : Validation → Bool
accepted v = not (is_none v.publish) && (is_none v.discard && is_empty v.rejections)

-- `reject`
abbrev pub reject : Validation → Reason → Validation
reject v reason = record v { rejections = v.rejections ++ (reason ∷ []) }

abbrev pub reject_if : Bool → Validation → Reason → Validation
reject_if test v reason = if test then reject v reason else v

-- `withinTolerance`
unfoldable pub within_tolerance : ℕ → ℕ → ℕ → Bool
within_tolerance actual expected tolerance =
    if ltb actual expected
    then leb (expected - actual) tolerance
    else leb (actual - expected) tolerance

abbrev pub has_name : String → List String → Bool
has_name wanted [] = false
has_name wanted (name ∷ rest) = str_eq name wanted || has_name wanted rest

-- `matchesContainer`
unfoldable pub matches_container : Container → List String → Bool
matches_container avi names = has_name "avi" names
matches_container mkv names = has_name "matroska" names
matches_container mp4 names = has_name "mp4" names
matches_container (other_container text) names = false

abbrev pub same_container : Container → Container → Bool
same_container avi avi = true
same_container mkv mkv = true
same_container mp4 mp4 = true
same_container (other_container a) (other_container b) = str_eq a b
same_container _ _ = false

abbrev pub same_part : Part → Part → Bool
same_part a b = str_eq a.file_id b.file_id && str_eq a.fingerprint b.fingerprint

-- the loop over the parts, which are as many
abbrev pub same_parts : List Part → List Part → Bool
same_parts (a ∷ more) (b ∷ others) = same_part a b && same_parts more others
same_parts _ _ = true

pub record Probe : Type 1 where
  pub Evidence : Type 0
  pub Layout : Type 0
  pub size_of : Evidence → Option ℤ
  pub names_of : Evidence → List String
  pub duration_of : Evidence → Duration
  pub stream_count : Layout → ℕ
  pub matches_layout : Layout → Evidence → Bool
  pub valid_request : Request → Bool
  pub valid_response : Response Evidence → Bool

module _ (p : Probe) where
  -- `requestMatchesAuthorization`
  unfoldable pub request_matches : Request → Authorized p.Layout → Bool
  request_matches r a =
      if not (str_eq r.case_id a.case_id)
        || (not (str_eq r.capability_id a.capability_id)
            || (not (same_int r.source_bytes a.source_bytes)
                || (not (r.expected_duration == a.expected_duration)
                    || (not (r.tolerance == a.tolerance)
                        || (not (r.stream_count == p.stream_count a.layout)
                            || (not (same_container r.container a.container)
                                || not (length r.parts == length a.parts)))))))
      then false
      else same_parts r.parts a.parts

  -- `ValidateOutput`
  abbrev pub size_differs : Option ℤ → ℤ → Bool
  size_differs none size = true
  size_differs (some n) size = not (is_positive n) || not (same_int n size)

  unfoldable pub duration_rejected : Duration → Authorized p.Layout → Validation → Validation
  unfolding within_tolerance
  duration_rejected m a v = if m.conflict then reject v duration_unavailable else elim m.effective [
    | none ↦ reject v duration_unavailable
    | some actual ↦
        reject_if (not (within_tolerance actual a.expected_duration a.tolerance)) v
          duration_outside_tolerance
  ]

  abbrev pub no_rejections : Validation
  no_rejections = record { publish = none; discard = none; rejections = [] }

  unfoldable pub validate_output : Authorized p.Layout → p.Evidence → ℤ → List Reason
  unfolding duration_rejected matches_container
  validate_output a e size =
      let v = reject_if (size_differs (p.size_of e) size) no_rejections artifact_size_mismatch in
      let v' = duration_rejected (p.duration_of e) a v in
      let v'' =
        reject_if (not (matches_container a.container (p.names_of e))) v'
          output_container_mismatch in
      let last = reject_if (not (p.matches_layout a.layout e)) v'' stream_layout_mismatch in
      last.rejections

  -- `ValidateStagedJoin`
  abbrev pub reference : Request → Success p.Evidence → Reference
  reference request success = record {
    execution_id = request.execution_id;
    case_id = request.case_id;
    capability_id = request.capability_id;
    artifact_id = success.artifact_id;
    artifact_fingerprint = success.artifact_fingerprint;
  }

  unfoldable pub validate_artifact :
      Authorized p.Layout → Request → Success p.Evidence → Validation → Validation
  unfolding validate_output
  validate_artifact a request success v =
      let all = v.rejections ++ validate_output a success.evidence success.size_bytes in
      if not (is_empty all)
      then record {
        publish = v.publish;
        discard = some (reference request success);
        rejections = all;
      }
      else record { publish = some (reference request success); discard = none; rejections = all }

  abbrev pub answers : Response p.Evidence → String
  answers (succeeded id success) = id
  answers (stage_failed id) = id

  abbrev pub validate_answer :
      Authorized p.Layout → Request → Response p.Evidence → Validation → Validation
  validate_answer a request (stage_failed id) v = reject v failed
  validate_answer a request (succeeded id success) v = validate_artifact a request success v

  unfoldable pub validate_staged_join :
      Authorized p.Layout → Request → Response p.Evidence → Validation
  unfolding request_matches validate_artifact
  validate_staged_join a request response =
      if not (p.valid_request request)
      then reject no_rejections invalid_stage_request
      else if not (p.valid_response response)
      then reject no_rejections invalid_stage_response
      else (let v =
            reject_if (not (request_matches request a)) no_rejections
              stage_request_not_authorized in
          let v' =
            reject_if (not (str_eq (answers response) request.request_id)) v
              stage_response_not_correlated in
          validate_answer a request response v')
