-- ===== src/Casestore/Join/Changes/Replays.antt =====
-- Changes of a join's record that are made again (internal/casestore/join_execution.go).
use nix.Base.{
  ℕ, ℤ, pos, negsuc, same_int, ◌≡◌, refl, String, Bool, true, false, not, ◌||◌, Option, none, some,
  List, [], ◌∷◌, str_eq, eq_refl, ==_refl, is_none, Result, ok, err, arith, Bool-cases, inl, inr,
  ◌>>=◌,
}
use nix.Casestore.Execution.{Confirmation, same_confirmation}
use nix.Casestore.Join.{
  JoinError, JoinPlatform, JoinExecution, JoinImport, Artifact, Failure, same_texts, same_artifact,
  same_failure, same_option,
}
use nix.Casestore.Join.Imports.{
  prepare_import, prepare_found, mark_requested, mark_imported, imported_found, mark_failed,
}
use nix.Casestore.Join.Changes.{
  PublishResponse, DiscardResponse, StageOutcome, Change, change, stage_outcome, record_stage,
  same_stage, record_publish, publish_ready, record_discard, discard_pending,
}

same_int_refl : (n : ℤ) → same_int n n ≡ true
same_int_refl (pos n) = ==_refl n
same_int_refl (negsuc n) = ==_refl n

same_texts_refl : (xs : List String) → same_texts xs xs ≡ true
same_texts_refl [] = refl
same_texts_refl (x ∷ xs) = rw (eq_refl x, same_texts_refl xs)

same_artifact_refl : (a : Option Artifact) → same_option same_artifact a a ≡ true
same_artifact_refl none = refl
same_artifact_refl (some a) = rw (eq_refl a.id, eq_refl a.fingerprint, same_int_refl a.size_bytes)

same_failure_refl : (f : Option Failure) → same_option same_failure f f ≡ true
same_failure_refl none = refl
same_failure_refl (some f) = rw (eq_refl f.operation, eq_refl f.reason)

same_confirmation_refl : (c : Confirmation) → same_confirmation c c ≡ true
same_confirmation_refl c = rw (
  same_int_refl c.history_id,
  same_int_refl c.movie_file_id,
  same_int_refl c.movie_id,
  eq_refl c.download_id,
  ==_refl c.occurred_at,
  eq_refl c.dropped_path,
  eq_refl c.imported_path,
)

-- reflect.DeepEqual compares by value.
pub record SameLaws (p : JoinPlatform) : Type 0 where
  pub same_authorized_refl : (a : p.Authorized) → p.same_authorized a a ≡ true
  pub same_authorized-eq : (a b : p.Authorized) → p.same_authorized a b ≡ true → a ≡ b
  pub same_command_refl : (c : p.Command) → p.same_command c c ≡ true

module _ (p : JoinPlatform) (laws : SameLaws p) where
  -- The record as `updateJoinExecution` stores it.
  abbrev pub stamp : JoinExecution p → ℕ → JoinExecution p
  stamp r at = record r { updated_at = at }

  abbrev Repeats :
      (JoinExecution p → Result JoinError (JoinExecution p × Bool)) → JoinExecution p → ℕ → Type 0
  Repeats f next at = f (stamp next at) ≡ ok (stamp next at, false)

  record_stage-Repeats :
      (a : p.Authorized) (id : String) (o : StageOutcome) (r : JoinExecution p)
      {next : JoinExecution p} (at : ℕ)
      → record_stage p a id o r ≡ ok (next, true)
      → Repeats (record_stage p a id o) next at
  unfolding record_stage same_stage
  record_stage-Repeats a id o r at h = elim (Bool-cases wrong) [
    | inl other ↦ absurd (ground (arith, rw other at h))
    | inr own ↦ elim (Bool-cases (not (is_none r.stage))) [
      | inl staged ↦ absurd (ground (arith, rw (own, staged) at h))
      | inr fresh ↦ ground (
        arith,
        rw (own, fresh) at h,
        own,
        same_texts_refl o.stage,
        same_artifact_refl o.artifact,
        same_failure_refl o.failure,
      )
    ]
  ]
    where
      wrong : Bool
      wrong = not (p.same_authorized r.authorization a) || not (str_eq id r.execution_id)

  publish_ready-Repeats :
      (response : PublishResponse) (a : Option Artifact) (r : JoinExecution p)
      {next : JoinExecution p} (at : ℕ)
      → r.artifact ≡ a
      → publish_ready p response a r ≡ ok (next, true)
      → Repeats (record_publish p response) next at
  unfolding publish_ready record_publish
  publish_ready-Repeats (PublishResponse.failed reason) none r at same h = cc
  publish_ready-Repeats (PublishResponse.succeeded id fingerprint published) none r at same h = cc
  publish_ready-Repeats (PublishResponse.failed reason) (some a) r at same h =
      ground (arith, h, eq_refl reason)
  publish_ready-Repeats (PublishResponse.succeeded id fingerprint published) (some a) r at same h =
      ground (arith, h, same, eq_refl published.root_id, same_texts_refl published.path_components)

  -- Only a ready artifact's record changes.
  record_publish-changed :
      (response : PublishResponse) (r : JoinExecution p) {next : JoinExecution p}
      → record_publish p response r ≡ ok (next, true)
      → publish_ready p response r.artifact r ≡ ok (next, true)
  unfolding record_publish
  record_publish-changed (PublishResponse.failed reason) r h = ground (arith, h)
  record_publish-changed (PublishResponse.succeeded id fingerprint published) r h =
      ground (arith, h)

  discard_pending-Repeats :
      (response : DiscardResponse) (a : Option Artifact) (r : JoinExecution p)
      {next : JoinExecution p} (at : ℕ)
      → r.artifact ≡ a
      → discard_pending p response a r ≡ ok (next, true)
      → Repeats (record_discard p response) next at
  unfolding discard_pending record_discard
  discard_pending-Repeats (DiscardResponse.failed reason) none r at same h = cc
  discard_pending-Repeats (DiscardResponse.succeeded id fingerprint) none r at same h = cc
  discard_pending-Repeats (DiscardResponse.failed reason) (some a) r at same h =
      ground (arith, h, eq_refl reason)
  discard_pending-Repeats (DiscardResponse.succeeded id fingerprint) (some a) r at same h =
      ground (arith, h, same)

  record_discard-changed :
      (response : DiscardResponse) (r : JoinExecution p) {next : JoinExecution p}
      → record_discard p response r ≡ ok (next, true)
      → discard_pending p response r.artifact r ≡ ok (next, true)
  unfolding record_discard
  record_discard-changed (DiscardResponse.failed reason) r h = ground (arith, h)
  record_discard-changed (DiscardResponse.succeeded id fingerprint) r h = ground (arith, h)

  prepare_found-Repeats :
      (command : p.Command) (before : ℤ) (time : ℕ) (i : Option (JoinImport p))
      (r : JoinExecution p) {next : JoinExecution p} (at : ℕ)
      → prepare_found p command before time i r ≡ ok (next, true)
      → Repeats (prepare_import p command before time) next at
  unfolding prepare_import prepare_found
  prepare_found-Repeats command before time none r at h =
      ground (arith, h, laws.same_command_refl command)
  prepare_found-Repeats command before time (some i) r at h = ground (arith, h)

  mark_requested-Repeats :
      (id : ℤ) (r : JoinExecution p) {next : JoinExecution p} (at : ℕ)
      → mark_requested p id r ≡ ok (next, true)
      → Repeats (mark_requested p id) next at
  unfolding mark_requested
  mark_requested-Repeats id r at h = ground (arith, h, same_int_refl id)

  imported_found-Repeats :
      (c : Confirmation) (i : Option (JoinImport p)) (r : JoinExecution p) {next : JoinExecution p}
      (at : ℕ)
      → r.joined ≡ i
      → imported_found p c i r ≡ ok (next, true)
      → Repeats (mark_imported p c) next at
  unfolding imported_found mark_imported
  imported_found-Repeats c none r at same h = cc
  imported_found-Repeats c (some i) r at same h = ground (arith, h, same, same_confirmation_refl c)

  mark_failed-Repeats :
      (r : JoinExecution p) {next : JoinExecution p} (at : ℕ)
      → mark_failed p r ≡ ok (next, true)
      → Repeats (mark_failed p) next at
  unfolding mark_failed
  mark_failed-Repeats r at h = ground (arith, h)

  staging-repeats :
      (a : p.Authorized) (id : String) (m : Result JoinError StageOutcome) (r : JoinExecution p)
      {next : JoinExecution p} (at : ℕ)
      → (m >>= λ o. record_stage p a id o r) ≡ ok (next, true)
      → (m >>= λ o. record_stage p a id o (stamp next at)) ≡ ok (stamp next at, false)
  staging-repeats a id (ok o) r at h = record_stage-Repeats a id o r at h
  staging-repeats a id (err e) r at h = cc

  -- A result may be recorded twice: where a value equals itself, a change that changed a join's record, be
  -- it a staged file, a publication, a discard, an import prepared, requested, confirmed or failed, is
  -- accepted again on the record it left, stored at any time, and then changes nothing.
  pub change-repeats :
      (c : Change p) (r : JoinExecution p) {next : JoinExecution p} (at : ℕ)
      → change p c r ≡ ok (next, true)
      → change p c (stamp next at) ≡ ok (stamp next at, false)
  unfolding change prepare_import mark_imported
  change-repeats (Change.staging a id response v) r at h =
      staging-repeats a id (stage_outcome response v) r at h
  change-repeats (Change.publishing response) r at h =
      publish_ready-Repeats response r.artifact r at refl (record_publish-changed response r h)
  change-repeats (Change.discarding response) r at h =
      discard_pending-Repeats response r.artifact r at refl (record_discard-changed response r h)
  change-repeats (Change.preparing command before time) r at h =
      prepare_found-Repeats command before time r.joined r at h
  change-repeats (Change.requesting id) r at h = mark_requested-Repeats id r at h
  change-repeats (Change.importing c) r at h = imported_found-Repeats c r.joined r at refl h
  change-repeats Change.failing r at h = mark_failed-Repeats r at h
