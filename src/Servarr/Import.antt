-- ===== src/Servarr/Import.antt =====
-- pkgs/media-repair/internal/servarr/import_execution.go: submitting a durable import and following it. The
-- callbacks of `ImportExecutionDependencies` are a parameter; the loop of `follow` runs on fuel, and
-- `none` means that it is still polling.
use nix.Base.{
  ℕ, zero, suc, Bool, true, false, Option, none, some, Result, ok, err, leb, ◌==◌, if◌then◌else◌,
}
use nix.Servarr.Command.{Command, CommandError, Disposition, classify, is_terminal}

pub data ImportState : Type 0 where
  prepared requested confirmed failed : ImportState
  other_state : ImportState

pub data FlowError (E : Type 0) : Type 0 where
  raised : E → FlowError E  -- an error of a callback
  joined : E → Option E → FlowError E
  uncertain : FlowError E → FlowError E  -- *SubmissionUncertainError with its cause
  unexplained : FlowError E  -- *SubmissionUncertainError with a nil cause
  unknown_state no_command_id zero_time : FlowError E
  bad_command : CommandError → FlowError E

-- The callbacks, the clock and the waiter. A command identifier is a number.
pub record Dependencies : Type 1 where
  pub Failure : Type 0
  pub Execution : Type 0
  pub Env : Type 0
  pub cancelled : Env → Option Failure
  pub state : Execution → Result Failure ImportState
  pub command_id : Execution → Option ℕ
  pub submit : Env → Result Failure ℕ × Env
  pub now : Env → ℕ × Env
  pub confirm : Env → Execution → (Execution × Bool × Option Failure) × Env
  pub mark_requested : Env → Execution → ℕ → ℕ → (Execution × Option Failure) × Env
  pub mark_failed : Env → Execution → ℕ → (Execution × Option Failure) × Env
  pub read_command : Env → ℕ → Result Failure Command × Env
  pub wait : Env → Option Failure × Env
  pub require_completion_result : Bool

abbrev pub terminal_confirmation_checks : ℕ
terminal_confirmation_checks = 12

abbrev pub raise : {E : Type 0} → Option E → Option (FlowError E)
raise none = none
raise (some e) = some (raised e)

abbrev pub uncertain_of : {E : Type 0} → Option (FlowError E) → FlowError E
uncertain_of none = unexplained
uncertain_of (some e) = uncertain e

module _ (d : Dependencies) where
  -- The number of POSTs made so far is kept beside the callbacks' own state.
  pub record Flow : Type 0 where
    pub env : d.Env
    pub posts : ℕ

  abbrev pub Answer : Type 0
  Answer = d.Execution × Option (FlowError d.Failure)

  -- `flow.now`
  abbrev pub clock : ℕ → Result (FlowError d.Failure) ℕ
  clock at = if at == 0 then err zero_time else ok at

  -- `flow.fail`
  abbrev pub mark_failure : d.Execution → Result (FlowError d.Failure) ℕ → d.Env → Answer × d.Env
  mark_failure execution (err e) env = ((execution, some e), env)
  mark_failure execution (ok at) env =
      let ((marked, failure), env') = d.mark_failed env execution at in
      ((marked, raise failure), env')

  unfoldable pub fail : d.Execution → d.Env → Answer × d.Env
  fail execution env = let (at, env') = d.now env in mark_failure execution (clock at) env'

  -- One turn of the loop of `follow`: it returns, or goes on with the number of terminal checks.
  pub data Turn : Type 0 where
    returned : Answer → Turn
    again : ℕ → Turn

  abbrev pub returning : Answer × d.Env → Turn × d.Env
  returning (answer, env) = (returned answer, env)

  abbrev pub after_wait : d.Execution → ℕ → Option d.Failure × d.Env → Turn × d.Env
  after_wait execution checks (none, env) = (again checks, env)
  after_wait execution checks (some e, env) = (returned (execution, some (raised e)), env)

  unfoldable pub count_check :
      d.Execution → ℕ → Result CommandError Disposition → d.Env → Turn × d.Env
  unfolding fail
  count_check execution checks (err e) env = (returned (execution, some (bad_command e)), env)
  count_check execution checks (ok disposition) env =
      if is_terminal disposition
      then (if leb terminal_confirmation_checks (suc checks)
          then returning (fail execution env)
          else after_wait execution (suc checks) (d.wait env))
      else after_wait execution 0 (d.wait env)

  abbrev pub after_read : d.Execution → ℕ → Result d.Failure Command × d.Env → Turn × d.Env
  after_read execution checks (err e, env) = (returned (execution, some (raised e)), env)
  after_read execution checks (ok command, env) =
      count_check execution checks (classify command d.require_completion_result) env

  abbrev pub after_confirm :
      d.Execution → ℕ → ℕ → (d.Execution × Bool × Option d.Failure) × d.Env → Turn × d.Env
  after_confirm execution id checks ((seen, found, some e), env) =
      (returned (seen, some (raised e)), env)
  after_confirm execution id checks ((seen, true, none), env) = (returned (seen, none), env)
  after_confirm execution id checks ((seen, false, none), env) =
      after_read execution checks (d.read_command env id)

  unfoldable pub turn : d.Execution → ℕ → ℕ → d.Env → Turn × d.Env
  unfolding count_check classify
  turn execution id checks env = after_confirm execution id checks (d.confirm env execution)

  unfoldable pub poll : ℕ → d.Execution → ℕ → ℕ → d.Env → Option Answer × d.Env
  unfolding turn
  poll zero execution id checks env = (none, env)
  poll (suc fuel) execution id checks env = elim (turn execution id checks env).0 [
    | returned answer ↦ (some answer, (turn execution id checks env).1)
    | again next ↦ poll fuel execution id next (turn execution id checks env).1
  ]

  abbrev pub follow_command : ℕ → d.Execution → Option ℕ → d.Env → Option Answer × d.Env
  follow_command fuel execution none env = (some (execution, some no_command_id), env)
  follow_command fuel execution (some id) env =
      if id == 0 then (some (execution, some no_command_id), env) else poll fuel execution id 0 env

  unfoldable pub follow : ℕ → d.Execution → Flow → Option Answer × Flow
  unfolding poll
  follow fuel execution w =
      let (answer, env) = follow_command fuel execution (d.command_id execution) w.env in
      (answer, record w { env = env })

  -- What `submit` and `resumePrepared` make of a confirmation, where `cause` is what they say when
  -- nothing was found.
  abbrev pub confirmed_or :
      d.Execution
      → (d.Execution × Bool × Option d.Failure)
      → (Option d.Failure → FlowError d.Failure)
      → Answer
  confirmed_or execution (found, true, failure) cause = (found, raise failure)
  confirmed_or execution (found, false, failure) cause = (execution, some (cause failure))

  unfoldable pub resume_prepared : d.Execution → Flow → Option Answer × Flow
  resume_prepared execution w =
      let (found, env) = d.confirm w.env execution in
      (
        some (confirmed_or execution found (λ failure. uncertain_of (raise failure))),
        record w { env = env },
      )

  unfoldable pub follow_requested :
      ℕ → (d.Execution × Option d.Failure) → Flow → Option Answer × Flow
  unfolding follow
  follow_requested fuel (marked, some e) w = (some (marked, some (uncertain (raised e))), w)
  follow_requested fuel (marked, none) w = follow fuel marked w

  unfoldable pub request_at :
      ℕ → d.Execution → ℕ → Result (FlowError d.Failure) ℕ → Flow → Option Answer × Flow
  unfolding follow_requested
  request_at fuel execution id (err e) w = (some (execution, some (uncertain e)), w)
  request_at fuel execution id (ok at) w =
      let (marked, env) = d.mark_requested w.env execution id at in
      follow_requested fuel marked (record w { env = env })

  unfoldable pub after_submit : ℕ → d.Execution → Result d.Failure ℕ → Flow → Option Answer × Flow
  unfolding request_at
  after_submit fuel execution (err e) w =
      let (found, env) = d.confirm w.env execution in
      (
        some (confirmed_or execution found (λ failure. uncertain (joined e failure))),
        record w { env = env },
      )
  after_submit fuel execution (ok id) w =
      let (at, env) = d.now w.env in
      request_at fuel execution id (clock at) (record w { env = env })

  unfoldable pub submit : ℕ → d.Execution → Flow → Option Answer × Flow
  unfolding after_submit
  submit fuel execution w =
      let (answer, env) = d.submit w.env in
      after_submit fuel execution answer (record w { env = env; posts = suc w.posts })

  unfoldable pub advance :
      ℕ → d.Execution → Bool → Result d.Failure ImportState → Flow → Option Answer × Flow
  unfolding submit resume_prepared follow
  advance fuel execution newly_prepared (err e) w = (some (execution, some (raised e)), w)
  advance fuel execution newly_prepared (ok confirmed) w = (some (execution, none), w)
  advance fuel execution newly_prepared (ok failed) w = (some (execution, none), w)
  advance fuel execution newly_prepared (ok requested) w = follow fuel execution w
  advance fuel execution newly_prepared (ok other_state) w =
      (some (execution, some unknown_state), w)
  advance fuel execution true (ok prepared) w = submit fuel execution w
  advance fuel execution false (ok prepared) w = resume_prepared execution w

  -- `Run`, whose context may be cancelled.
  abbrev pub unless_cancelled :
      Option d.Failure → Option Answer × Flow → Option Answer × Flow → Option Answer × Flow
  unless_cancelled (some e) stopped going = stopped
  unless_cancelled none stopped going = going

  unfoldable pub run : ℕ → d.Execution → Bool → Flow → Option Answer × Flow
  unfolding advance
  run fuel execution newly_prepared w =
      unless_cancelled (d.cancelled w.env) (some (execution, raise (d.cancelled w.env)), w)
        (advance fuel execution newly_prepared (d.state execution) w)
