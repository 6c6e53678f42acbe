-- ===== src/Casestore/Validation.antt =====
-- The transitions of a manual import's record against the validation that a write repeats
-- (internal/casestore/execution.go).
use nix.Casestore.CaseId.{case_digest}
use nix.Base.{
  ℕ, ℤ, ◌≡◌, refl, ok, ◌≤◌, Option, none, some, arith, is_positive, Bool, true, reject-eq-ok,
  >>=-eq-ok, not, ◌||◌, str_eq, ◌==◌, ltb, is_negative, subst,
}
use nix.Casestore.Execution.{
  Platform, Execution, Confirmation, State, validate, validate_state, request, version_v1,
  unsupported_version, known_case, incomplete_identity, invalid_times, unsupported_version,
  incomplete_identity, invalid_times,
}

module _ (p : Platform) where
  -- A transition under which the state's own rules still hold, at a time no earlier.
  moved-IsValid :
      (r : Execution) (state : State) (command : Option ℤ) (confirmation : Option Confirmation)
      (at : ℕ)
      → validate p r ≡ ok tt
      → r.updated_at ≤ at
      → (validate_state p r.state r.command_id r.history_id_before r.confirmation ≡ ok tt
          → validate_state p state command r.history_id_before confirmation ≡ ok tt)
      → validate p (record r {
        state = state;
        command_id = command;
        confirmation = confirmation;
        updated_at = at;
      })
        ≡ ok tt
  unfolding validate
  moved-IsValid r state command confirmation at valid later keeps =
      let (version, v1) =
        reject-eq-ok (not (str_eq r.version version_v1)) unsupported_version _ valid in
      let (digest, known, v2) = >>=-eq-ok (known_case p (case_digest r.case_id)) _ v1 in
      let (identity, v3) =
        reject-eq-ok
          (str_eq r.capability_id ""
            || (str_eq r.file_id ""
                || (not (is_positive r.expected_fingerprint.size_bytes)
                    || is_negative r.history_id_before)))
          incomplete_identity _ v2 in
      let (times, v4) =
        reject-eq-ok
          ((r.prepared_at == 0) || ((r.updated_at == 0) || ltb r.updated_at r.prepared_at))
          invalid_times _ v3 in
      ground (arith, version, known, identity, times, keeps v4, later)

  requested_from :
      (id : ℤ) (command : Option ℤ) (before : ℤ) (confirmation : Option Confirmation)
      → validate_state p State.prepared command before confirmation ≡ ok tt
      → is_positive id ≡ true
      → validate_state p State.requested (some id) before confirmation ≡ ok tt
  unfolding validate_state
  requested_from id command before none valid positive = ground (arith, positive)
  requested_from id none before (some c) valid positive = cc
  requested_from id (some n) before (some c) valid positive = cc

  -- A record that was requested is one that the validation accepts: where the command's number is
  -- positive and the time is not before the last update, `MarkManualImportRequested` on an accepted
  -- record leaves an accepted record, so that writing it cannot fail the validation.
  pub request-IsValid :
      (id : ℤ) (r : Execution) (at : ℕ) {next : Execution} {changed : Bool}
      → validate p r ≡ ok tt
      → is_positive id ≡ true
      → r.updated_at ≤ at
      → request id r ≡ ok (next, changed)
      → validate p (record next { updated_at = at }) ≡ ok tt
  unfolding request
  request-IsValid id r at {next} {changed} valid positive later h = go r.state refl
    where
      go : (s : State) → r.state ≡ s → validate p (record next { updated_at = at }) ≡ ok tt
      go State.prepared e = ground (
        arith,
        h,
        e,
        moved-IsValid r State.requested (some id) r.confirmation at valid later (λ v.
            requested_from id r.command_id r.history_id_before r.confirmation
              (subst
                (λ s. validate_state p s r.command_id r.history_id_before r.confirmation ≡ ok tt) e
                v)
              positive),
      )
      go State.requested e =
          ground (
            arith,
            h,
            e,
            moved-IsValid r r.state r.command_id r.confirmation at valid later (λ v. v),
          )
      go State.imported e = ground (arith, h, e)
      go State.failed e = ground (arith, h, e)
      go (State.other_state text) e = ground (arith, h, e)
