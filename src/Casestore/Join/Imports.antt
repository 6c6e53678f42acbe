-- ===== src/Casestore/Join/Imports.antt =====
-- pkgs/media-repair/internal/casestore/join_import_execution.go: the transitions of a join's record by its import.
use nix.Base.{
  ℕ, ℤ, leb_int, same_int, Bool, true, false, not, ◌&&◌, Option, none, some, str_eq, ok, err,
  if◌then◌else◌,
}
use nix.Casestore.Execution.{Confirmation, same_confirmation}
use nix.Casestore.Join.{JoinError, JoinState, JoinPlatform, JoinExecution, Moved, JoinImport}

module _ (p : JoinPlatform) where
  -- `PrepareJoinImport`
  abbrev pub is_published : JoinState → Bool
  is_published JoinState.artifact_published = true
  is_published _ = false

  unfoldable pub prepare_found :
      p.Command → ℤ → ℕ → Option (JoinImport p) → JoinExecution p → Moved p
  prepare_found command before at (some i) r =
      if p.same_command i.command command then ok (r, false) else err JoinError.different_import
  prepare_found command before at none r =
      if not (is_published r.state)
      then err JoinError.cannot_import
      else ok (
        record r {
          state = JoinState.import_prepared;
          joined = some (record {
            command = command;
            history_id_before = before;
            prepared_at = at;
            command_id = none;
          });
        },
        true,
      )

  unfoldable pub prepare_import : p.Command → ℤ → ℕ → JoinExecution p → Moved p
  unfolding prepare_found
  prepare_import command before at r = prepare_found command before at r.joined r

  -- `MarkJoinImportRequested`
  abbrev pub request_first : ℤ → Option (JoinImport p) → JoinExecution p → Moved p
  request_first id none r = err JoinError.no_import
  request_first id (some i) r = ok (
    record r {
      state = JoinState.import_requested;
      joined = some (record i { command_id = some id });
    },
    true,
  )

  abbrev pub has_command : ℤ → Option (JoinImport p) → Bool
  has_command id none = false
  has_command id (some i) = elim i.command_id [ none ↦ false | some old ↦ same_int old id ]

  unfoldable pub mark_requested : ℤ → JoinExecution p → Moved p
  mark_requested id r = elim r.state [
    | JoinState.import_prepared ↦ request_first id r.joined r
    | JoinState.import_requested ↦
        if has_command id r.joined then ok (r, false) else err JoinError.different_command
    | _ ↦ err JoinError.cannot_request
  ]

  -- `MarkJoinImported`
  abbrev pub import_first : Confirmation → JoinImport p → JoinExecution p → Moved p
  import_first c i r =
      if leb_int c.history_id i.history_id_before
      then err JoinError.predates
      else ok (record r { state = JoinState.join_imported; confirmation = some c }, true)

  abbrev pub has_confirmation : Confirmation → Option Confirmation → Bool
  has_confirmation c none = false
  has_confirmation c (some old) = same_confirmation old c

  abbrev pub of_file : Confirmation → JoinImport p → Bool
  of_file c i =
      same_int c.movie_id (p.movie_id i.command)
      && (str_eq c.download_id (p.download_id i.command)
          && str_eq c.dropped_path (p.path i.command))

  unfoldable pub imported_found : Confirmation → Option (JoinImport p) → JoinExecution p → Moved p
  imported_found c none r = err JoinError.wrong_confirmation
  imported_found c (some i) r =
      if not (of_file c i) then err JoinError.wrong_confirmation else elim r.state [
        | JoinState.import_prepared ↦ import_first c i r
        | JoinState.import_requested ↦ import_first c i r
        | JoinState.join_imported ↦
            if has_confirmation c r.confirmation
            then ok (r, false)
            else err JoinError.different_evidence
        | _ ↦ err JoinError.cannot_confirm
      ]

  unfoldable pub mark_imported : Confirmation → JoinExecution p → Moved p
  unfolding imported_found
  mark_imported c r = imported_found c r.joined r

  -- `MarkJoinImportFailed`
  unfoldable pub mark_failed : JoinExecution p → Moved p
  mark_failed r = elim r.state [
    | JoinState.import_requested ↦ ok (record r { state = JoinState.import_failed }, true)
    | JoinState.import_failed ↦ ok (r, false)
    | _ ↦ err JoinError.cannot_fail
  ]
