-- ===== src/Casestore/Join/Table.antt =====
-- The store of joins as a table from a case to its record (`Store` of internal/casestore/join_execution.go).
use nix.Base.{
  ℕ, ℤ, ◌≡◌, refl, ap, String, Bool, not, ◌||◌, Option, none, some, Result, ok, >>=-eq-ok,
  reject-eq-ok, arith, is_positive, is_negative,
}
use nix.Durable.{Disk, Json}
use nix.Durable.Laws.{DiskLaws, JsonLaws}
use nix.Durable.Refinement.{KeepingLaws, IsTransition, IsUpdate, update-IsUpdate}
use nix.Casestore.CaseId.{case_digest, case_digest-injective}
use nix.Casestore.Execution
use nix.Casestore.Execution.{Confirmation}
use nix.Casestore.Join.{JoinError, JoinPlatform, JoinExecution, confirmed}
use nix.Casestore.Join.Changes.{
  StageResponse, PublishResponse, DiscardResponse, Change, change, stage_outcome,
}
use nix.Casestore.Join.Changes.Steps.{change-IsStep}
use nix.Casestore.Join.Store
use nix.Casestore.Join.Store.{
  Worker, known_case, keeping, codec, update, stage, publish, discard, prepare_joined, has_reason,
}

known-eq-ok : (o : Option String) {digest : String} → known_case o ≡ ok digest → o ≡ some digest
known-eq-ok none h = cc
known-eq-ok (some d) h = ground (arith, h)

pub keeping-KeepingLaws : (p : JoinPlatform) → KeepingLaws (keeping p)
keeping-KeepingLaws p = record {
  path-injective = λ a b ha hb.
      case_digest-injective a b (known-eq-ok (case_digest a) ha) (known-eq-ok (case_digest b) hb);
  case_of-stamp = λ r at. refl;
}

pub change-IsTransition : (p : JoinPlatform) (c : Change p) → IsTransition (keeping p) (change p c)
change-IsTransition p c = record {
  keeps_case = λ previous h. ap (λ a. p.case_id a) (change-IsStep p c previous h).bound;
  reports = λ previous h. (change-IsStep p c previous h).same refl;
}

module _ (p : JoinPlatform) (d : Disk JoinError) (laws : DiskLaws d)
    (json : Json JoinError (JoinExecution p) d.Bytes) (honest : JsonLaws json)
    (w : Worker p d.Fs) where
  -- A call that changes a record that exists, with its case and its time.
  pub data Call : Type 0 where
    staged : p.Authorized → w.StageRequest → StageResponse → ℕ → Call
    published : String → PublishResponse → ℕ → Call
    discarded : String → DiscardResponse → ℕ → Call
    prepared : String → p.Command → ℤ → ℕ → Call
    requested : String → ℤ → ℕ → Call
    imported : String → Confirmation → ℕ → Call
    failed : String → ℕ → Call

  abbrev pub case_of : Call → String
  case_of (staged a request response at) = p.case_id a
  case_of (published case_id response at) = case_id
  case_of (discarded case_id response at) = case_id
  case_of (prepared case_id command before at) = case_id
  case_of (requested case_id id at) = case_id
  case_of (imported case_id c at) = case_id
  case_of (failed case_id at) = case_id

  abbrev pub time_of : Call → ℕ
  time_of (staged a request response at) = at
  time_of (published case_id response at) = at
  time_of (discarded case_id response at) = at
  time_of (prepared case_id command before at) = at
  time_of (requested case_id id at) = at
  time_of (imported case_id c at) = at
  time_of (failed case_id at) = at

  abbrev pub change_of : Call → Change p
  change_of (staged a request response at) =
      Change.staging a (w.request_execution request) response (w.verify a request response)
  change_of (published case_id response at) = Change.publishing response
  change_of (discarded case_id response at) = Change.discarding response
  change_of (prepared case_id command before at) = Change.preparing command before at
  change_of (requested case_id id at) = Change.requesting id
  change_of (imported case_id c at) = Change.importing c
  change_of (failed case_id at) = Change.failing

  unfoldable pub answer : d.Fs → Call → Result JoinError (JoinExecution p × Bool × d.Fs)
  answer s (staged a request response at) = stage p d json w s a request response at
  answer s (published case_id response at) = publish p d json w s case_id response at
  answer s (discarded case_id response at) = discard p d json w s case_id response at
  answer s (prepared case_id command before at) =
      prepare_joined p d json w s case_id command before at
  answer s (requested case_id id at) = Store.mark_requested p d json w s case_id id at
  answer s (imported case_id c at) = Store.mark_imported p d json w s case_id c at
  answer s (failed case_id at) = Store.mark_failed p d json w s case_id at

  -- What is left of a call once its arguments were accepted.
  answer-eq-ok :
      (s : d.Fs) (call : Call) {r : JoinExecution p} {changed : Bool} {t : d.Fs}
      → answer s call ≡ ok (r, changed, t)
      → update p d json w s (case_of call) (time_of call) (change p (change_of call))
        ≡ ok (r, changed, t)
  unfolding answer stage publish discard prepare_joined Store.mark_requested Store.mark_imported
      Store.mark_failed change
  answer-eq-ok s (staged a request response at) h =
      let (u, encoded, h1) = >>=-eq-ok (w.encode_request request) _ h in
      let (v, answered, h2) = >>=-eq-ok (w.encode_stage response) _ h1 in
      let (matches, h3) =
        reject-eq-ok
          (has_reason "stage_request_not_authorized" (w.verify a request response).reasons
            || has_reason "stage_response_not_correlated" (w.verify a request response).reasons)
          JoinError.unmatched_exchange _ h2 in
      let (o, outcome, h4) =
        >>=-eq-ok (stage_outcome response (w.verify a request response)) _ h3 in
      rw outcome h4
  answer-eq-ok s (published case_id response at) h = (>>=-eq-ok (w.encode_publish response) _ h).2
  answer-eq-ok s (discarded case_id response at) h = (>>=-eq-ok (w.encode_discard response) _ h).2
  answer-eq-ok s (prepared case_id command before at) h =
      let (complete, h1) =
        reject-eq-ok (not (p.complete command) || is_negative before) JoinError.invalid_import _
          h in
      let (u, stored, h2) = >>=-eq-ok (w.stored_case s case_id command) _ h1 in h2
  answer-eq-ok s (requested case_id id at) h =
      (reject-eq-ok (not (is_positive id)) JoinError.command_not_positive _ h).1
  answer-eq-ok s (imported case_id c at) h =
      let (u, valid, h1) =
        >>=-eq-ok (confirmed (Execution.validate_confirmation p.platform c)) _ h in
      h1
  answer-eq-ok s (failed case_id at) h = h

  -- The calls on files and JSON refine the join's state machine on a table of records: where the files and
  -- JSON keep their promises, a successful call that records a staged file, a publication or a discard, or
  -- prepares, requests, confirms or fails the import, found the case's record, moved it by the change of
  -- that call, answers the stamped result (or the old record, if nothing changed), sets the case to what it
  -- answers, and leaves every other case as it was.
  pub join-IsUpdate :
      (s : d.Fs) (call : Call) {r : JoinExecution p} {changed : Bool} {t : d.Fs}
      → answer s call ≡ ok (r, changed, t)
      → IsUpdate d
          (codec p d json w)
          (keeping p)
          s
          t
          (case_of call)
          (time_of call)
          (change p (change_of call))
          r
          changed
  unfolding update
  join-IsUpdate s call h =
      update-IsUpdate d laws (codec p d json w) honest (keeping p) (keeping-KeepingLaws p) s
        (case_of call) (time_of call) (change p (change_of call))
        (change-IsTransition p (change_of call)) (answer-eq-ok s call h)
