-- ===== src/Casestore/Table.antt =====
-- The store of manual imports as a table from a case to its record (`Store` of
-- internal/casestore/execution.go).
use nix.Base.{
  ℕ, ℤ, ◌≡◌, refl, ◌∙◌, ap, subst, String, Bool, true, false, not, ◌||◌, Option, none, some, str_eq,
  Result, ok, >>=-eq-ok, reject-eq-ok, arith, is_positive, is_negative, same_int, ◌==◌, eq_refl,
}
use nix.Durable.{Disk, Json}
use nix.Durable.Laws.{DiskLaws, JsonLaws}
use nix.Durable.Refinement.{
  KeepingLaws, IsTransition, IsPut, IsUpdate, update-IsUpdate, write-IsPut, get-found,
}
use nix.Casestore.CaseId.{case_digest, case_digest-injective}
use nix.Casestore.Execution.{
  Error, Platform, Execution, Authorized, Confirmation, request, confirm, fail, same_import,
  known_case, prepared_record, validate_confirmation, command_not_positive, confirmation_mismatch,
  negative_history, no_time,
}
use nix.Casestore.Store.{
  keeping, codec, update, get, mark_requested, mark_imported, mark_failed, prepare, prepare_new,
  read_execution, write_execution,
}
use nix.Casestore.Terminal.{Change, change}

known-eq-ok :
    (p : Platform) (o : Option String) {digest : String}
    → known_case p o ≡ ok digest
    → o ≡ some digest
known-eq-ok p none h = cc
known-eq-ok p (some d) h = ground (arith, h)

pub keeping-KeepingLaws : (p : Platform) → KeepingLaws (keeping p)
keeping-KeepingLaws p = record {
  path-injective = λ a b ha hb.
      case_digest-injective a b (known-eq-ok p (case_digest a) ha)
        (known-eq-ok p (case_digest b) hb);
  case_of-stamp = λ r at. refl;
}

change-keeps_case :
    (c : Change) (previous : Execution) {next : Execution} {changed : Bool}
    → change c previous ≡ ok (next, changed)
    → next.case_id ≡ previous.case_id
unfolding change request confirm fail
change-keeps_case (Change.requesting id) previous h = ground arith
change-keeps_case (Change.confirming a c) previous h = ground arith
change-keeps_case Change.failing previous h = ground arith

change-reports :
    (c : Change) (previous : Execution) {next : Execution}
    → change c previous ≡ ok (next, false)
    → next ≡ previous
unfolding change request confirm fail
change-reports (Change.requesting id) previous h = ground arith
change-reports (Change.confirming a c) previous h = ground arith
change-reports Change.failing previous h = ground arith

change-IsTransition : (p : Platform) (c : Change) → IsTransition (keeping p) (change c)
change-IsTransition p c = record {
  keeps_case = λ previous h. change-keeps_case c previous h;
  reports = λ previous h. change-reports c previous h;
}

-- A call that changes a record that exists, with its time.
pub data Call : Type 0 where
  requested : String → ℤ → ℕ → Call
  imported : Authorized → Confirmation → ℕ → Call
  failed : String → ℕ → Call

abbrev pub case_of : Call → String
case_of (requested case_id id at) = case_id
case_of (imported a c at) = a.case_id
case_of (failed case_id at) = case_id

abbrev pub time_of : Call → ℕ
time_of (requested case_id id at) = at
time_of (imported a c at) = at
time_of (failed case_id at) = at

abbrev pub change_of : Call → Change
change_of (requested case_id id at) = Change.requesting id
change_of (imported a c at) = Change.confirming a c
change_of (failed case_id at) = Change.failing

same_import-case :
    (r : Execution) (a : Authorized) → same_import r a ≡ true → str_eq r.case_id a.case_id ≡ true
unfolding same_import
same_import-case r a h = ground (arith, h)

module _ (p : Platform) (d : Disk Error) (laws : DiskLaws d) (json : Json Error Execution d.Bytes)
    (honest : JsonLaws json) (authorization : d.Fs → Authorized → Result Error (Unit {0})) where
  unfoldable pub answer : d.Fs → Call → Result Error (Execution × Bool × d.Fs)
  answer s (requested case_id id at) = mark_requested p d json authorization s case_id id at
  answer s (imported a c at) = mark_imported p d json authorization s a c at
  answer s (failed case_id at) = mark_failed p d json authorization s case_id at

  -- What is left of a call once its arguments were accepted.
  answer-eq-ok :
      (s : d.Fs) (call : Call) {r : Execution} {changed : Bool} {t : d.Fs}
      → answer s call ≡ ok (r, changed, t)
      → update p d json authorization s (case_of call) (time_of call) (change (change_of call))
        ≡ ok (r, changed, t)
  unfolding answer mark_requested mark_imported mark_failed change
  answer-eq-ok s (requested case_id id at) h =
      (reject-eq-ok (not (is_positive id)) command_not_positive _ h).1
  answer-eq-ok s (imported a c at) h =
      let (u, allowed, h1) = >>=-eq-ok (authorization s a) _ h in
      let (matches, h2) =
        reject-eq-ok
          (not (same_int c.movie_id a.movie_id)
            || (not (str_eq c.download_id a.download_id) || not (str_eq c.dropped_path a.path)))
          confirmation_mismatch _ h1 in
      let (v, valid, h3) = >>=-eq-ok (validate_confirmation p c) _ h2 in h3
  answer-eq-ok s (failed case_id at) h = h

  -- The calls on files and JSON refine the state machine on a table of records: where the files and JSON
  -- keep their promises, a successful `MarkManualImportRequested`, `MarkManualImportImported` or
  -- `MarkManualImportFailed` found the case's record, moved it by the transition of that call, answers the
  -- stamped result (or the old record, if nothing changed), sets the case to what it answers, and leaves
  -- every other case as it was.
  pub answer-IsUpdate :
      (s : d.Fs) (call : Call) {r : Execution} {changed : Bool} {t : d.Fs}
      → answer s call ≡ ok (r, changed, t)
      → IsUpdate d
          (codec p d json authorization)
          (keeping p)
          s
          t
          (case_of call)
          (time_of call)
          (change (change_of call))
          r
          changed
  unfolding update
  answer-IsUpdate s call h =
      update-IsUpdate d laws (codec p d json authorization) honest (keeping p)
        (keeping-KeepingLaws p) s (case_of call) (time_of call) (change (change_of call))
        (change-IsTransition p (change_of call)) (answer-eq-ok s call h)

  same_import_refl :
      (a : Authorized) (before : ℤ) (at : ℕ) → same_import (prepared_record a before at) a ≡ true
  unfolding same_import
  same_import_refl a before at =
      ground (arith, eq_refl a.case_id, eq_refl a.capability_id, eq_refl a.file_id)

  prepared-IsPut :
      (s : d.Fs) (path : String) (a : Authorized) (before : ℤ) (at : ℕ) (found : Option Execution)
      {r : Execution} {changed : Bool} {t : d.Fs}
      → known_case p (case_digest a.case_id) ≡ ok path
      → read_execution p d json authorization s path ≡ ok found
      → prepare_new p d json authorization s path a before at found ≡ ok (r, changed, t)
      → IsPut d (codec p d json authorization) (keeping p) s t a.case_id r
        × (same_import r a ≡ true)
  unfolding prepare_new read_execution write_execution
  prepared-IsPut s path a before at none {r} {changed} {t} named was h =
      let (u, written, ends) =
        >>=-eq-ok (write_execution p d json authorization s path (prepared_record a before at)) _
          h in
      let same : prepared_record a before at ≡ r = ground (arith, ends) in
      let reached : u ≡ t = ground (arith, ends) in
      (
        subst (λ x. IsPut d (codec p d json authorization) (keeping p) s t a.case_id x) same
            (write-IsPut d laws (codec p d json authorization) honest (keeping p)
              (keeping-KeepingLaws p) s t a.case_id path (prepared_record a before at) named
              (eq_refl a.case_id) (written ∙ ap (λ x. ok x) reached)),
        subst (λ x. same_import x a ≡ true) same (same_import_refl a before at),
      )
  prepared-IsPut s path a before at (some previous) {r} {changed} {t} named was h =
      let bound : same_import previous a ≡ true = ground (arith, h) in
      let same : previous ≡ r = ground (arith, h) in
      let stays : s ≡ t = ground (arith, h) in
      let here =
        get-found d laws (codec p d json authorization) honest (keeping p) (keeping-KeepingLaws p) s
          a.case_id previous named was (same_import-case previous a bound) in
      (
        subst (λ x. IsPut d (codec p d json authorization) (keeping p) s t a.case_id x) same
            (subst (λ u. IsPut d (codec p d json authorization) (keeping p) s u a.case_id previous)
              stays (record { here = here; elsewhere = λ other differ. refl })),
        subst (λ x. same_import x a ≡ true) same bound,
      )

  -- The record that `PrepareManualImport` answers is the one that is read afterwards: where the files and
  -- JSON keep their promises, after a successful preparation `GetManualImportExecution` returns the
  -- record answered, for the authorized import, and every other case is as it was.
  pub prepare-get :
      (s : d.Fs) (a : Authorized) (before : ℤ) (at : ℕ) (other : String) {r : Execution}
      {changed : Bool} {t : d.Fs}
      → prepare p d json authorization s a before at ≡ ok (r, changed, t)
      → str_eq other a.case_id ≡ false
      → (get p d json authorization t a.case_id ≡ ok (some r))
        × (same_import r a ≡ true)
        × (get p d json authorization t other ≡ get p d json authorization s other)
  unfolding prepare get
  prepare-get s a before at other h differ =
      let (known, h1) = reject-eq-ok (is_negative before) negative_history _ h in
      let (timed, h2) = reject-eq-ok (at == 0) no_time _ h1 in
      let (path, named, h3) = >>=-eq-ok (known_case p (case_digest a.case_id)) _ h2 in
      let (u, locked, h4) = >>=-eq-ok (d.lock s) _ h3 in
      let (v, allowed, h5) = >>=-eq-ok (authorization s a) _ h4 in
      let (found, was, h6) = >>=-eq-ok (read_execution p d json authorization s path) _ h5 in
      let (set, same) = prepared-IsPut s path a before at found named was h6 in
      (set.here, same, set.elsewhere other differ)
