-- ===== src/Servarr/Tests.antt =====
-- The theorems on following an import at concrete callbacks (internal/servarr/import_execution.go).
use nix.Base.{ℕ, ◌≡◌, ◌≤◌, ◌+◌, refl, none, some, ok, true, false, arith}
use nix.Servarr.Command.{CommandStatus, CommandResult, Disposition, classify}
use nix.Servarr.Import.{Dependencies, Flow, ImportState, run, follow, fail, prepared}
use nix.Servarr.Following.{run-posts, follow-ends}

-- Callbacks of an import whose command failed and whose history never shows it; an execution is its
-- state, and the environment is the clock.
abbrev failing : Dependencies
failing = record {
  Failure = Unit;
  Execution = ImportState;
  Env = ℕ;
  cancelled = λ e. none;
  state = λ x. ok x;
  command_id = λ x. some 42;
  submit = λ e. (ok 42, e);
  now = λ e. (e + 1, e + 1);
  confirm = λ e x. ((x, false, none), e);
  mark_requested = λ e x id at. ((ImportState.requested, none), e);
  mark_failed = λ e x at. ((ImportState.failed, none), e);
  read_command = λ e id. (
    ok (record {
      id = 42;
      name = "ManualImport";
      message = "";
      exception = "";
      status = CommandStatus.failed;
      result = CommandResult.no_result;
    }),
    e,
  );
  wait = λ e. (none, e + 1);
  require_completion_result = false;
}

abbrev flow : Flow failing
flow = record { env = 100; posts = 0 }

run-posts_example : (run failing 20 prepared true flow).1.posts ≤ 0 + 1
run-posts_example = run-posts failing 20 prepared true flow

follow-ends_example :
    (last : ℕ) × Unit {0}
    × (follow failing 12 ImportState.requested flow ≡ (
      some (fail failing ImportState.requested last).0,
      record { env = (fail failing ImportState.requested last).1; posts = 0 },
    ))
unfolding classify
follow-ends_example =
    follow-ends failing 42 ImportState.requested (λ e. Unit {0}) 12 flow
      (record {
        unconfirmed = λ e u. refl;
        asked = λ e u. tt;
        answered = λ e u. (_, Disposition.broken, refl, refl, refl);
        read = λ e u. tt;
        waited = λ e u. (refl, tt);
      })
      tt (omega arith) refl (omega arith)
