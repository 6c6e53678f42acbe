-- ===== src/Verification/Acceptance.antt =====
-- What an accepted staged join is (internal/joinverification/validator.go).
use nix.Base.{
  ℕ, ◌≡◌, refl, ◌∙◌, ◌+◌, Bool, true, false, not, ◌&&◌, Option, none, some, List, [], ◌∷◌, ◌++◌,
  leb, str_eq, arith,
}
use nix.Verification.{
  Probe, Authorized, Request, Response, Success, Validation, Reason, accepted, is_empty, reject_if,
  within_tolerance, matches_container, request_matches, size_differs, duration_rejected,
  no_rejections, validate_output, validate_artifact, validate_answer, validate_staged_join, answers,
}

-- A duration that differs by the tolerance at most.
abbrev pub is_near : Option ℕ → ℕ → ℕ → Bool
is_near none expected tolerance = false
is_near (some actual) expected tolerance =
    leb expected (actual + tolerance) && leb actual (expected + tolerance)

within_tolerance-near :
    (actual expected tolerance : ℕ)
    → within_tolerance actual expected tolerance ≡ is_near (some actual) expected tolerance
unfolding within_tolerance
within_tolerance-near actual expected tolerance = ground arith

module _ (p : Probe) where
  -- The staged file as the authorization describes it.
  abbrev pub is_expected : Authorized p.Layout → Success p.Evidence → Bool
  is_expected a success =
      not (size_differs p (p.size_of success.evidence) success.size_bytes)
      && (not (p.duration_of success.evidence).conflict
          && (is_near (p.duration_of success.evidence).effective a.expected_duration a.tolerance
              && (matches_container a.container (p.names_of success.evidence)
                  && p.matches_layout a.layout success.evidence)))

  abbrev pub is_answer : Authorized p.Layout → Response p.Evidence → Bool
  is_answer a (Response.stage_failed id) = false
  is_answer a (Response.succeeded id success) = is_expected a success

  is_empty-append : (xs ys : List Reason) → is_empty (xs ++ ys) ≡ (is_empty xs && is_empty ys)
  is_empty-append [] ys = refl
  is_empty-append (x ∷ xs) ys = refl

  reject_if-empty :
      (test : Bool) (v : Validation) (reason : Reason)
      → is_empty (reject_if test v reason).rejections ≡ (is_empty v.rejections && not test)
  reject_if-empty true v reason = ground (arith, is_empty-append v.rejections (reason ∷ []))
  reject_if-empty false v reason = ground arith

  duration-empty :
      (conflict : Bool) (effective : Option ℕ) (a : Authorized p.Layout) (v : Validation)
      → is_empty
          (duration_rejected p
            (record { conflict = conflict; effective = effective })
            a
            v).rejections
        ≡ (is_empty v.rejections
            && (not conflict && is_near effective a.expected_duration a.tolerance))
  unfolding duration_rejected
  duration-empty true effective a v =
      ground (arith, reject_if-empty true v Reason.duration_unavailable)
  duration-empty false none a v = ground (arith, reject_if-empty true v Reason.duration_unavailable)
  duration-empty false (some actual) a v =
      reject_if-empty (not (within_tolerance actual a.expected_duration a.tolerance)) v
        Reason.duration_outside_tolerance
      ∙ ground (arith, within_tolerance-near actual a.expected_duration a.tolerance)

  output-empty :
      (a : Authorized p.Layout) (success : Success p.Evidence)
      → is_empty (validate_output p a success.evidence success.size_bytes) ≡ is_expected a success
  unfolding validate_output
  output-empty a success =
      let e = success.evidence in
      let differs = size_differs p (p.size_of e) success.size_bytes in
      let fits = matches_container a.container (p.names_of e) in
      let m = p.duration_of e in
      let v = reject_if differs (no_rejections p) Reason.artifact_size_mismatch in
      let v' = duration_rejected p m a v in
      let v'' = reject_if (not fits) v' Reason.output_container_mismatch in
      let l1 = reject_if-empty differs (no_rejections p) Reason.artifact_size_mismatch in
      let l2 = duration-empty m.conflict m.effective a v in
      let l3 = reject_if-empty (not fits) v' Reason.output_container_mismatch in
      let l4 =
        reject_if-empty (not (p.matches_layout a.layout e)) v'' Reason.stream_layout_mismatch in
      ground (arith, l1, l2, l3, l4)

  artifact-accepted :
      (a : Authorized p.Layout) (request : Request) (success : Success p.Evidence) (v : Validation)
      → accepted (validate_artifact p a request success v)
        ≡ (is_empty v.rejections && is_expected a success)
  unfolding accepted validate_artifact
  artifact-accepted a request success v = ground (
    arith,
    is_empty-append v.rejections (validate_output p a success.evidence success.size_bytes),
    output-empty a success,
  )

  answer-accepted :
      (a : Authorized p.Layout) (request : Request) (response : Response p.Evidence)
      (v : Validation)
      → v.publish ≡ none
      → accepted (validate_answer p a request response v)
        ≡ (is_empty v.rejections && is_answer a response)
  unfolding accepted
  answer-accepted a request (Response.stage_failed id) v unpublished = ground (arith, unpublished)
  answer-accepted a request (Response.succeeded id success) v unpublished =
      artifact-accepted a request success v

  reject_if-publish :
      (test : Bool) (v : Validation) (reason : Reason)
      → (reject_if test v reason).publish ≡ v.publish
  reject_if-publish true v reason = refl
  reject_if-publish false v reason = refl

  -- A staged join is accepted exactly where everything agrees: the request and the response are valid, the
  -- request is the authorized one, the response answers it, the worker succeeded, and the file it staged
  -- has the size that was reported, a duration without conflict that is the expected one give or take the
  -- tolerance, the authorized container and the authorized streams.
  pub validate-accepted :
      (a : Authorized p.Layout) (request : Request) (response : Response p.Evidence)
      → accepted (validate_staged_join p a request response) ≡ (
          p.valid_request request
          && (p.valid_response response
              && (request_matches p request a
                  && (str_eq (answers p response) request.request_id && is_answer a response))))
  unfolding validate_staged_join accepted
  validate-accepted a request response =
      let wrong = not (request_matches p request a) in
      let other = not (str_eq (answers p response) request.request_id) in
      let v = reject_if wrong (no_rejections p) Reason.stage_request_not_authorized in
      let v' = reject_if other v Reason.stage_response_not_correlated in
      let l1 = reject_if-empty wrong (no_rejections p) Reason.stage_request_not_authorized in
      let l2 = reject_if-empty other v Reason.stage_response_not_correlated in
      let unpublished =
        reject_if-publish other v Reason.stage_response_not_correlated
        ∙ reject_if-publish wrong (no_rejections p) Reason.stage_request_not_authorized in
      let l3 = answer-accepted a request response v' unpublished in ground (arith, l1, l2, l3)
