-- ===== src/Casestore/Join/Changes/Steps.antt =====
-- Every change of a join's record is a step on (internal/casestore/join_import_execution.go, join_execution.go).
use nix.Base.{ℕ, ℤ, ◌≡◌, refl, Bool, Option, none, some, ok, arith}
use nix.Casestore.Execution.{Confirmation}
use nix.Casestore.Join.{JoinPlatform, JoinExecution, JoinImport}
use nix.Casestore.Join.Imports.{
  prepare_import, prepare_found, mark_requested, mark_imported, imported_found, mark_failed,
}
use nix.Casestore.Join.Changes.{Change, change, stage_outcome}
use nix.Casestore.Join.Changes.Progress.{
  IsStep, record_publish-IsStep, record_discard-IsStep, staging-IsStep,
}

module _ (p : JoinPlatform) where
  prepare_found-IsStep :
      (command : p.Command) (before : ℤ) (time : ℕ) (i : Option (JoinImport p))
      (r : JoinExecution p) {next : JoinExecution p} {changed : Bool}
      → prepare_found p command before time i r ≡ ok (next, changed)
      → IsStep p r next changed
  unfolding prepare_found
  prepare_found-IsStep command before time none r h = record {
    on = λ e. ground (arith, h, e);
    same = λ e. ground (arith, h, e);
    bound = ground (arith, h);
    clean = λ k e. ground (arith, h, e, k);
  }
  prepare_found-IsStep command before time (some i) r h = record {
    on = λ e. ground (arith, h, e);
    same = λ e. ground (arith, h, e);
    bound = ground (arith, h);
    clean = λ k e. ground (arith, h, e, k);
  }

  mark_requested-IsStep :
      (id : ℤ) (r : JoinExecution p) {next : JoinExecution p} {changed : Bool}
      → mark_requested p id r ≡ ok (next, changed)
      → IsStep p r next changed
  unfolding mark_requested
  mark_requested-IsStep id r h = record {
    on = λ e. ground (arith, h, e);
    same = λ e. ground (arith, h, e);
    bound = ground (arith, h);
    clean = λ k e. ground (arith, h, e, k);
  }

  imported_found-IsStep :
      (c : Confirmation) (i : Option (JoinImport p)) (r : JoinExecution p) {next : JoinExecution p}
      {changed : Bool}
      → imported_found p c i r ≡ ok (next, changed)
      → IsStep p r next changed
  unfolding imported_found
  imported_found-IsStep c none r h = cc
  imported_found-IsStep c (some i) r h = record {
    on = λ e. ground (arith, h, e);
    same = λ e. ground (arith, h, e);
    bound = ground (arith, h);
    clean = λ k e. ground (arith, h, e, k);
  }

  mark_failed-IsStep :
      (r : JoinExecution p) {next : JoinExecution p} {changed : Bool}
      → mark_failed p r ≡ ok (next, changed)
      → IsStep p r next changed
  unfolding mark_failed
  mark_failed-IsStep r h = record {
    on = λ e. ground (arith, h, e);
    same = λ e. ground (arith, h, e);
    bound = ground (arith, h);
    clean = λ k e. ground (arith, h, e, k);
  }

  pub change-IsStep :
      (c : Change p) (r : JoinExecution p) {next : JoinExecution p} {changed : Bool}
      → change p c r ≡ ok (next, changed)
      → IsStep p r next changed
  unfolding change prepare_import mark_imported
  change-IsStep (Change.staging a id response v) r h =
      staging-IsStep p a id response v (stage_outcome response v) r refl h
  change-IsStep (Change.publishing response) r h = record_publish-IsStep p response r h
  change-IsStep (Change.discarding response) r h = record_discard-IsStep p response r h
  change-IsStep (Change.preparing command before time) r h =
      prepare_found-IsStep command before time r.joined r h
  change-IsStep (Change.requesting id) r h = mark_requested-IsStep id r h
  change-IsStep (Change.importing c) r h = imported_found-IsStep c r.joined r h
  change-IsStep Change.failing r h = mark_failed-IsStep r h
