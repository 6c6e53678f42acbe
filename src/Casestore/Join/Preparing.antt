-- ===== src/Casestore/Join/Preparing.antt =====
-- Preparing a join, for the first time or again (`PrepareJoin` of internal/casestore/join_execution.go).
use nix.Base.{
  ℕ, ◌≡◌, refl, ◌∙◌, ap, subst, String, Bool, true, false, not, ◌||◌, Option, none, some, str_eq,
  eq_refl, Result, ok, >>=-eq-ok, reject-eq-ok, arith, ◌==◌, Bool-cases, inl, inr,
}
use nix.Durable.{Disk, Json}
use nix.Durable.Laws.{DiskLaws, JsonLaws}
use nix.Durable.Refinement.{IsPut, write-IsPut, get-found}
use nix.Casestore.CaseId.{case_digest}
use nix.Casestore.Join.{JoinError, JoinPlatform, JoinExecution, is_prepared, join_domain}
use nix.Casestore.Join.Validation.{execution_id_in}
use nix.Casestore.Join.Changes.Replays.{SameLaws}
use nix.Casestore.Join.Store.{
  Worker, known_case, keeping, codec, prepare, prepare_found, prepare_new, prepared_record,
  read_execution, write_execution, needs_recheck,
}
use nix.Casestore.Join.Table.{keeping-KeepingLaws}

module _ (p : JoinPlatform) (same : SameLaws p) (d : Disk JoinError) (laws : DiskLaws d)
    (json : Json JoinError (JoinExecution p) d.Bytes) (honest : JsonLaws json)
    (w : Worker p d.Fs) where
  -- What a preparation leaves: the case's record is the one answered, it is of the authorized join, it does
  -- not wait for another verification, and it is prepared if the call changed it.
  pub record IsPreparation (s t : d.Fs) (a : p.Authorized) (r : JoinExecution p) (changed : Bool)
      : Type 0 where
    pub set : IsPut d (codec p d json w) (keeping p) s t (p.case_id a) r
    pub own : p.same_authorized r.authorization a ≡ true
    pub settled : needs_recheck p r ≡ false
    pub fresh : (not changed || is_prepared r.state) ≡ true

  prepare_new-IsPreparation :
      (s : d.Fs) (path : String) (a : p.Authorized) (at : ℕ) {r : JoinExecution p} {changed : Bool}
      {t : d.Fs}
      → known_case (case_digest (p.case_id a)) ≡ ok path
      → prepare_new p d json w s path a at ≡ ok (r, changed, t)
      → IsPreparation s t a r changed
  unfolding prepare_new write_execution needs_recheck
  prepare_new-IsPreparation s path a at {r} {changed} {t} named h =
      let (id, identified, h1) = >>=-eq-ok (execution_id_in p join_domain a) _ h in
      let fresh = prepared_record p id a at in
      let (u, written, ended) = >>=-eq-ok (write_execution p d json w s path fresh) _ h1 in
      let is_fresh : fresh ≡ r = ground (arith, ended) in
      let reached : u ≡ t = ground (arith, ended) in
      subst (λ x. IsPreparation s t a x changed) is_fresh
        (record {
          set =
              write-IsPut d laws (codec p d json w) honest (keeping p) (keeping-KeepingLaws p) s t
                (p.case_id a) path fresh named (eq_refl (p.case_id a))
                (written ∙ ap (λ x. ok x) reached);
          own = same.same_authorized_refl a;
          settled = refl;
          fresh = ground arith;
        })

  prepare_found-IsPreparation :
      (s : d.Fs) (path : String) (a : p.Authorized) (at : ℕ) (found : Option (JoinExecution p))
      {r : JoinExecution p} {changed : Bool} {t : d.Fs}
      → known_case (case_digest (p.case_id a)) ≡ ok path
      → read_execution p d json w s path ≡ ok found
      → prepare_found p d json w s path a at found ≡ ok (r, changed, t)
      → IsPreparation s t a r changed
  unfolding prepare_found read_execution
  prepare_found-IsPreparation s path a at none named was h =
      prepare_new-IsPreparation s path a at named h
  prepare_found-IsPreparation s path a at (some previous) {r} {changed} {t} named was h =
      elim (Bool-cases (p.same_authorized previous.authorization a)) [
        | inr other ↦ absurd (ground (arith, rw other at h))
        | inl own ↦ elim (Bool-cases (needs_recheck p previous)) [
          | inl again ↦ prepare_new-IsPreparation s path a at named (rw (own, again) at h)
          | inr settled ↦ kept own settled (rw (own, settled) at h)
        ]
      ]
    where
      kept :
          p.same_authorized previous.authorization a ≡ true
          → needs_recheck p previous ≡ false
          → ◌≡◌ {A = Result JoinError (JoinExecution p × Bool × d.Fs)}
              (ok (previous, false, s))
              (ok (r, changed, t))
          → IsPreparation s t a r changed
      kept own settled k =
          let is_previous : previous ≡ r = ground (arith, k) in
          let stays : s ≡ t = ground (arith, k) in
          let of_case =
            ap (λ x. str_eq (p.case_id x) (p.case_id a))
              (same.same_authorized-eq previous.authorization a own)
            ∙ eq_refl (p.case_id a) in
          let here =
            get-found d laws (codec p d json w) honest (keeping p) (keeping-KeepingLaws p) s
              (p.case_id a) previous named was of_case in
          subst (λ x. IsPreparation s t a x changed) is_previous
            (subst (λ u. IsPreparation s u a previous changed) stays
              (record {
                set = record { here = here; elsewhere = λ other differ. refl };
                own = own;
                settled = settled;
                fresh = ground (arith, k);
              }))

  -- A prepared join is the authorized one, and verified anew if that is due: where the files and JSON keep
  -- their promises and authorizations compare by value, after a successful `PrepareJoin` the case's record
  -- is the one answered, it is of the authorized join, it is not a discarded join under an identifier of
  -- an older version, it is in its first state if the call changed it, and every other case is as it was.
  pub prepare-IsPreparation :
      (s : d.Fs) (a : p.Authorized) (at : ℕ) {r : JoinExecution p} {changed : Bool} {t : d.Fs}
      → prepare p d json w s a at ≡ ok (r, changed, t)
      → IsPreparation s t a r changed
  unfolding prepare
  prepare-IsPreparation s a at h =
      let (timed, h1) = reject-eq-ok (at == 0) JoinError.no_time _ h in
      let (path, named, h2) = >>=-eq-ok (known_case (case_digest (p.case_id a))) _ h1 in
      let (u, locked, h3) = >>=-eq-ok (d.lock s) _ h2 in
      let (v, allowed, h4) = >>=-eq-ok (w.authorization s a) _ h3 in
      let (found, was, h5) = >>=-eq-ok (read_execution p d json w s path) _ h4 in
      prepare_found-IsPreparation s path a at found named was h5
