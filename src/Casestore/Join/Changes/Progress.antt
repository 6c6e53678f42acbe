-- ===== src/Casestore/Join/Changes/Progress.antt =====
-- How a join's record moves on (internal/casestore/join_execution.go).
use nix.Base.{
  ℕ, ◌≤◌, ◌<◌, ◌≡◌, ap, String, Bool, true, false, not, ◌||◌, Option, none, some, List, str_eq,
  is_none, Result, ok, err, ◌>>=◌, arith, Bool-cases, inl, inr, ◌⊎◌,
}
use nix.Casestore.Join.{
  is_prepared, JoinError, JoinState, JoinPlatform, JoinExecution, Artifact, is_rejected,
}
use nix.Casestore.Join.Changes.{
  StageResponse, PublishResponse, DiscardResponse, Verification, StageOutcome, stage_outcome,
  accepted, record_stage, record_publish, publish_ready, record_discard, discard_pending,
}

-- How far a join is.
abbrev pub rank : JoinState → ℕ
rank JoinState.join_prepared = 0
rank JoinState.artifact_ready = 1
rank JoinState.artifact_discard_pending = 1
rank JoinState.artifact_published = 2
rank JoinState.import_prepared = 3
rank JoinState.import_requested = 4
rank JoinState.join_imported = 5
rank JoinState.import_failed = 5
rank JoinState.artifact_discarded = 5
rank JoinState.join_failed = 5
rank (JoinState.other_state text) = 5

pub rank-le : (s : JoinState) → rank s ≤ 5
rank-le s = ground arith

-- A join that was published, or was to be.
abbrev pub is_published : JoinState → Bool
is_published JoinState.artifact_ready = true
is_published JoinState.artifact_published = true
is_published JoinState.import_prepared = true
is_published JoinState.import_requested = true
is_published JoinState.join_imported = true
is_published JoinState.import_failed = true
is_published _ = false

abbrev pub is_clean : Option (List String) → Bool
is_clean none = false
is_clean (some rejections) = not (is_rejected rejections)

module _ (p : JoinPlatform) where
  -- What a change does to a record: it moves it on, or leaves it; it keeps its authorization; and a record
  -- that is to be published has no rejections.
  pub record IsStep (r next : JoinExecution p) (changed : Bool) : Type 0 where
    pub on : changed ≡ true → rank r.state < rank next.state
    pub same : changed ≡ false → next ≡ r
    pub bound : next.authorization ≡ r.authorization
    pub clean :
        (is_published r.state ≡ true → is_clean r.stage ≡ true)
        → is_published next.state ≡ true
        → is_clean next.stage ≡ true

  outcome-rank :
      (response : StageResponse) (v : Verification) {o : StageOutcome}
      → stage_outcome response v ≡ ok o
      → (0 < rank o.state) × (is_published o.state ≡ true → is_rejected o.stage ≡ false)
  unfolding stage_outcome accepted
  outcome-rank (StageResponse.failed reason) v h = ground arith
  outcome-rank (StageResponse.succeeded artifact) v h = ground arith

  -- A stage is recorded on a prepared record, or was recorded.
  record_stage-eq-ok :
      (a : p.Authorized) (id : String) (o : StageOutcome) (r : JoinExecution p)
      {next : JoinExecution p} {changed : Bool}
      → record_stage p a id o r ≡ ok (next, changed)
      → ((changed ≡ false) × (next ≡ r))
        ⊎ ((changed ≡ true)
            × (r.state ≡ JoinState.join_prepared)
            × (next ≡ record r {
              state = o.state;
              stage = some o.stage;
              artifact = o.artifact;
              failure = o.failure;
            }))
  unfolding record_stage
  record_stage-eq-ok a id o r h = elim (Bool-cases wrong) [
    | inl other ↦ absurd (ground (arith, rw other at h))
    | inr own ↦ elim (Bool-cases (not (is_none r.stage))) [
      | inl staged ↦
          inl (ground (arith, rw (own, staged) at h), ground (arith, rw (own, staged) at h))
      | inr fresh ↦ elim (Bool-cases (not (is_prepared r.state))) [
        | inl moved ↦ absurd (ground (arith, rw (own, fresh, moved) at h))
        | inr prepared ↦ inr (
          ground (arith, rw (own, fresh, prepared) at h),
          ground (arith, prepared),
          ground (arith, rw (own, fresh, prepared) at h),
        )
      ]
    ]
  ]
    where
      wrong : Bool
      wrong = not (p.same_authorized r.authorization a) || not (str_eq id r.execution_id)

  record_stage-IsStep :
      (a : p.Authorized) (id : String) (o : StageOutcome) (r : JoinExecution p)
      {next : JoinExecution p} {changed : Bool}
      → 0 < rank o.state
      → (is_published o.state ≡ true → is_rejected o.stage ≡ false)
      → record_stage p a id o r ≡ ok (next, changed)
      → IsStep r next changed
  record_stage-IsStep a id o r on fine h = elim (record_stage-eq-ok a id o r h) [
    | inl (unchanged, same) ↦ record {
      on = λ e. ground (arith, unchanged, e);
      same = λ e. same;
      bound = ap (λ x. x.authorization) same;
      clean = λ k e. ground (arith, same, e, k);
    }
    | inr (moved, prepared, next_is) ↦ record {
      on = λ e. ground (arith, next_is, prepared, on);
      same = λ e. ground (arith, moved, e);
      bound = ap (λ x. x.authorization) next_is;
      clean = λ k e. ground (arith, next_is, e, fine);
    }
  ]

  publish_ready-IsStep :
      (response : PublishResponse) (a : Option Artifact) (r : JoinExecution p)
      {next : JoinExecution p} {changed : Bool}
      → r.state ≡ JoinState.artifact_ready
      → publish_ready p response a r ≡ ok (next, changed)
      → IsStep r next changed
  unfolding publish_ready
  publish_ready-IsStep response none r ready h = cc
  publish_ready-IsStep (PublishResponse.failed reason) (some a) r ready h = record {
    on = λ e. ground (arith, h, e, ready);
    same = λ e. ground (arith, h, e);
    bound = ground (arith, h);
    clean = λ k e. ground (arith, h, e, k, ready);
  }
  publish_ready-IsStep (PublishResponse.succeeded id fingerprint published) (some a) r ready h =
      record {
        on = λ e. ground (arith, h, e, ready);
        same = λ e. ground (arith, h, e);
        bound = ground (arith, h);
        clean = λ k e. ground (arith, h, e, k, ready);
      }

  still-IsStep :
      (r : JoinExecution p) {next : JoinExecution p} {changed : Bool}
      → changed ≡ false
      → next ≡ r
      → IsStep r next changed
  still-IsStep r unchanged same = record {
    on = λ e. ground (arith, unchanged, e);
    same = λ e. same;
    bound = ap (λ x. x.authorization) same;
    clean = λ k e. ground (arith, same, e, k);
  }

  pub record_publish-IsStep :
      (response : PublishResponse) (r : JoinExecution p) {next : JoinExecution p} {changed : Bool}
      → record_publish p response r ≡ ok (next, changed)
      → IsStep r next changed
  unfolding record_publish publish_ready
  record_publish-IsStep (PublishResponse.failed reason) r {next} {changed} h =
      elim (Bool-cases changed) [
        | inl moves ↦
            publish_ready-IsStep (PublishResponse.failed reason) r.artifact r
              (ground (arith, h, moves)) (ground (arith, h, moves))
        | inr no_change ↦ still-IsStep r no_change (ground (arith, h, no_change))
      ]
  record_publish-IsStep (PublishResponse.succeeded id fingerprint published) r {next} {changed} h =
      elim (Bool-cases changed) [
        | inl moves ↦
            publish_ready-IsStep (PublishResponse.succeeded id fingerprint published) r.artifact r
              (ground (arith, h, moves)) (ground (arith, h, moves))
        | inr no_change ↦ still-IsStep r no_change (ground (arith, h, no_change))
      ]

  discard_pending-IsStep :
      (response : DiscardResponse) (a : Option Artifact) (r : JoinExecution p)
      {next : JoinExecution p} {changed : Bool}
      → r.state ≡ JoinState.artifact_discard_pending
      → discard_pending p response a r ≡ ok (next, changed)
      → IsStep r next changed
  unfolding discard_pending
  discard_pending-IsStep response none r pending h = cc
  discard_pending-IsStep (DiscardResponse.failed reason) (some a) r pending h = record {
    on = λ e. ground (arith, h, e, pending);
    same = λ e. ground (arith, h, e);
    bound = ground (arith, h);
    clean = λ k e. ground (arith, h, e, k, pending);
  }
  discard_pending-IsStep (DiscardResponse.succeeded id fingerprint) (some a) r pending h = record {
    on = λ e. ground (arith, h, e, pending);
    same = λ e. ground (arith, h, e);
    bound = ground (arith, h);
    clean = λ k e. ground (arith, h, e, k, pending);
  }

  pub record_discard-IsStep :
      (response : DiscardResponse) (r : JoinExecution p) {next : JoinExecution p} {changed : Bool}
      → record_discard p response r ≡ ok (next, changed)
      → IsStep r next changed
  unfolding record_discard discard_pending
  record_discard-IsStep (DiscardResponse.failed reason) r {next} {changed} h =
      elim (Bool-cases changed) [
        | inl moves ↦
            discard_pending-IsStep (DiscardResponse.failed reason) r.artifact r
              (ground (arith, h, moves)) (ground (arith, h, moves))
        | inr no_change ↦ still-IsStep r no_change (ground (arith, h, no_change))
      ]
  record_discard-IsStep (DiscardResponse.succeeded id fingerprint) r {next} {changed} h =
      elim (Bool-cases changed) [
        | inl moves ↦
            discard_pending-IsStep (DiscardResponse.succeeded id fingerprint) r.artifact r
              (ground (arith, h, moves)) (ground (arith, h, moves))
        | inr no_change ↦ still-IsStep r no_change (ground (arith, h, no_change))
      ]

  pub staging-IsStep :
      (a : p.Authorized) (id : String) (response : StageResponse) (v : Verification)
      (m : Result JoinError StageOutcome) (r : JoinExecution p) {next : JoinExecution p}
      {changed : Bool}
      → stage_outcome response v ≡ m
      → (m >>= λ o. record_stage p a id o r) ≡ ok (next, changed)
      → IsStep r next changed
  staging-IsStep a id response v (err e) r same h = cc
  staging-IsStep a id response v (ok o) r same h =
      let (on, fine) = outcome-rank response v same in record_stage-IsStep a id o r on fine h
