-- ===== src/Casestore/Store.antt =====
-- pkgs/media-repair/internal/casestore/execution.go: the operations of `Store` on the record of a manual
-- import. The files, the JSON codec and the check of an authorization are parameters.
use nix.Base.{
  ℕ, ℤ, is_positive, is_negative, same_int, String, Bool, true, false, not, ◌||◌, Option, none,
  some, ◌==◌, str_eq, Result, ok, err, ◌>>=◌, ◌>>◌, reject, if◌then◌else◌,
}
use nix.Durable
use nix.Durable.{Disk, Json, Codec, Keeping}
use nix.Casestore.CaseId.{case_digest}
use nix.Casestore.Execution.{
  Error, Platform, Execution, Authorized, Confirmation, validate, validate_confirmation,
  same_import, prepared_record, request, confirm, fail, known_case, no_time, not_prepared,
  time_backwards, different_import, negative_history, confirmation_mismatch, command_not_positive,
  unexpected_case,
}

-- `executionPath`, within the store's directory, and what `updateManualImportExecution` says.
abbrev pub keeping : Platform → Keeping Error Execution
keeping p = record {
  path = λ case_id. known_case p (case_digest case_id);
  case_of = λ r. r.case_id;
  updated_at = λ r. r.updated_at;
  stamp = λ r at. record r { updated_at = at };
  no_time = no_time;
  not_prepared = not_prepared;
  unexpected_case = unexpected_case;
  moved_backwards = time_backwards;
}

module _ (p : Platform) (d : Disk Error) (json : Json Error Execution d.Bytes)
    (authorization : d.Fs → Authorized → Result Error (Unit {0})) where
  abbrev pub codec : Codec Error Execution d.Bytes
  codec = record { validate = validate p; json = json }

  -- `EncodeManualImportExecution`, `DecodeManualImportExecution`
  unfoldable pub encode : Execution → Result Error d.Bytes
  unfolding Durable.encode
  encode r = Durable.encode d codec r

  unfoldable pub decode : d.Bytes → Result Error Execution
  unfolding Durable.decode
  decode bytes = Durable.decode d codec bytes

  -- `readManualImportExecution`, `writeManualImportExecution`
  unfoldable pub read_execution : d.Fs → String → Result Error (Option Execution)
  unfolding Durable.read
  read_execution s path = Durable.read d codec s path

  unfoldable pub write_execution : d.Fs → String → Execution → Result Error d.Fs
  unfolding Durable.write
  write_execution s path r = Durable.write d codec s path r

  -- `GetManualImportExecution`
  unfoldable pub get : d.Fs → String → Result Error (Option Execution)
  unfolding Durable.get
  get s case_id = Durable.get d codec (keeping p) s case_id

  -- An operation answers a record, whether it changed, and the files.
  abbrev pub Answer : Type 0
  Answer = Result Error (Execution × Bool × d.Fs)

  unfoldable pub prepare_new : d.Fs → String → Authorized → ℤ → ℕ → Option Execution → Answer
  unfolding write_execution
  prepare_new s path a before at (some previous) =
      if same_import previous a then ok (previous, false, s) else err different_import
  prepare_new s path a before at none = do
    t ← write_execution s path (prepared_record a before at)
    ok (prepared_record a before at, true, t)

  -- `PrepareManualImport`
  unfoldable pub prepare : d.Fs → Authorized → ℤ → ℕ → Answer
  unfolding prepare_new read_execution
  prepare s a before at = do
    reject (is_negative before) negative_history
    reject (at == 0) no_time
    path ← known_case p (case_digest a.case_id)
    d.lock s
    authorization s a
    found ← read_execution s path
    prepare_new s path a before at found

  -- `updateManualImportExecution`
  unfoldable pub update : d.Fs → String → ℕ → (Execution → Result Error (Execution × Bool)) → Answer
  unfolding Durable.update
  update s case_id at change = Durable.update d codec (keeping p) s case_id at change

  -- `MarkManualImportRequested`, `MarkManualImportImported`, `MarkManualImportFailed`
  unfoldable pub mark_requested : d.Fs → String → ℤ → ℕ → Answer
  unfolding update
  mark_requested s case_id id at = do
    reject (not (is_positive id)) command_not_positive
    update s case_id at (request id)

  unfoldable pub mark_imported : d.Fs → Authorized → Confirmation → ℕ → Answer
  unfolding update
  mark_imported s a imported at = do
    authorization s a
    reject
        (not (same_int imported.movie_id a.movie_id)
          || (not (str_eq imported.download_id a.download_id)
              || not (str_eq imported.dropped_path a.path)))
        confirmation_mismatch
    validate_confirmation p imported
    update s a.case_id at (confirm a imported)

  unfoldable pub mark_failed : d.Fs → String → ℕ → Answer
  unfolding update
  mark_failed s case_id at = update s case_id at fail
