-- ===== src/Planning/Runner.antt =====
-- pkgs/media-repair/internal/planning/runner.go: one pass of the planner over a case. The store, the planner
-- and the clock are a parameter, whose state is `Env`; a time is a number, and 0 the zero time. The planner's
-- calls are counted beside that state.
pub mod Calls
pub mod Owners
pub mod Settled
pub mod Repeats
use nix.Base.{
  ℕ, suc, ◌+◌, ◌-◌, String, Bool, true, false, not, ◌&&◌, Option, none, some, ltb, ◌==◌, str_eq,
  Result, ok, err, if◌then◌else◌,
}
use nix.Planning.Backoff.{Backoff, delay}

pub record Status : Type 0 where
  pub attempts : ℕ
  pub retry_after : Option ℕ
  pub decided : Bool

pub record Dependencies : Type 1 where
  pub Case : Type 0
  pub Decision : Type 0
  pub Failure : Type 0
  pub Problem : Type 0
  pub Env : Type 0
  pub cancelled : Env → Option Problem
  pub put_case : Env → Case → Result Problem Bool × Env
  pub get_status : Env → String → Result Problem (Option Status) × Env
  pub get_decision : Env → String → Result Problem Decision × Env
  pub put_failure : Env → String → Failure → ℕ → ℕ → Result Problem (Status × Bool) × Env
  pub put_decision : Env → String → Decision → ℕ → Result Problem (Status × Bool) × Env
  pub plan : Env → Case → Result Problem Decision × Env
  pub now : Env → ℕ × Env
  pub case_id : Case → String
  pub decision_case_id : Decision → String
  pub is_superseded : Case → Bool
  pub classify : Problem → Failure
  pub backoff : Backoff

-- `unset` is the zero value.
pub data Outcome : Type 0 where
  unset failed decided already_decided deferred superseded : Outcome

pub data RunnerError (P : Type 0) : Type 0 where
  raised : P → RunnerError P
  planner_failed : P → RunnerError P
  unstored_failure : P → P → RunnerError P
  no_case_id zero_clock wrong_case not_recorded : RunnerError P

module _ (d : Dependencies) where
  pub record World : Type 0 where
    pub env : d.Env
    pub plans : ℕ

  pub record Report : Type 0 where
    pub outcome : Outcome
    pub stored : Bool
    pub submitted : Bool
    pub decision : Option d.Decision
    pub failure : Option d.Failure
    pub duration : ℕ

  abbrev pub Answer : Type 0
  Answer = Report × Option (RunnerError d.Problem)

  abbrev pub nothing : Report
  nothing = record {
    outcome = unset;
    stored = false;
    submitted = false;
    decision = none;
    failure = none;
    duration = 0;
  }

  abbrev pub ends : Report → Outcome → Option (RunnerError d.Problem) → Answer
  ends report outcome problem = (record report { outcome = outcome }, problem)

  -- A decision is returned only for its own case.
  unfoldable pub return_decision : String → Report → Outcome → d.Decision → Answer
  return_decision case_id report outcome decision =
      if not (str_eq (d.decision_case_id decision) case_id)
      then ends report failed (some wrong_case)
      else ends (record report { decision = some decision }) outcome none

  abbrev pub loaded :
      String → Report → Outcome → Result d.Problem d.Decision × d.Env → Answer × d.Env
  loaded case_id report outcome (err e, env) = (ends report failed (some (raised e)), env)
  loaded case_id report outcome (ok decision, env) =
      (return_decision case_id report outcome decision, env)

  -- `loadPlanned`
  unfoldable pub load_planned : String → Report → Outcome → World → Answer × World
  unfolding return_decision
  load_planned case_id report outcome w =
      let (answer, env) = loaded case_id report outcome (d.get_decision w.env case_id) in
      (answer, record w { env = env })

  -- `Process` after the planner failed.
  abbrev pub failure_stored :
      Report → d.Problem → Result d.Problem (Status × Bool) × d.Env → Answer × d.Env
  failure_stored report problem (err e, env) =
      (ends report failed (some (unstored_failure problem e)), env)
  failure_stored report problem (ok stored, env) =
      (ends report failed (some (planner_failed problem)), env)

  abbrev pub prior_attempts : Option Status → ℕ
  prior_attempts none = 0
  prior_attempts (some status) = status.attempts

  unfoldable pub store_failure :
      String → Report → Option Status → d.Problem → ℕ → World → Answer × World
  unfolding delay
  store_failure case_id report previous problem at w =
      let retry = at + delay d.backoff (prior_attempts previous) in
      let kept = record report { failure = some (d.classify problem) } in
      let (answer, env) =
        failure_stored kept problem (d.put_failure w.env case_id (d.classify problem) at retry) in
      (answer, record w { env = env })

  -- `Process` after the planner answered.
  unfoldable pub decision_stored :
      String → Report → d.Decision → Result d.Problem (Status × Bool) → World → Answer × World
  unfolding load_planned
  decision_stored case_id report decision (err e) w = (ends report failed (some (raised e)), w)
  decision_stored case_id report decision (ok (status, true)) w =
      (ends (record report { decision = some decision }) decided none, w)
  decision_stored case_id report decision (ok (status, false)) w =
      if status.decided
      then load_planned case_id report already_decided w
      else (ends report failed (some not_recorded), w)

  unfoldable pub store_decision : String → Report → d.Decision → ℕ → World → Answer × World
  unfolding decision_stored
  store_decision case_id report decision at w =
      if not (str_eq (d.decision_case_id decision) case_id)
      then (ends report failed (some wrong_case), w)
      else (let (stored, env) = d.put_decision w.env case_id decision at in
          decision_stored case_id report decision stored (record w { env = env }))

  abbrev pub took : Report → ℕ → ℕ → Report
  took report started at = record report {
    duration = if ltb started at then at - started else report.duration;
  }

  unfoldable pub planned :
      String → Report → Option Status → ℕ → Result d.Problem d.Decision → ℕ → World → Answer × World
  unfolding store_failure store_decision
  planned case_id report previous started answer at w =
      if at == 0 then (ends report failed (some zero_clock), w) else elim answer [
        | err problem ↦ store_failure case_id (took report started at) previous problem at w
        | ok decision ↦ store_decision case_id (took report started at) decision at w
      ]

  -- `Process` from the planner's call on.
  unfoldable pub submit : d.Case → String → Report → Option Status → ℕ → World → Answer × World
  unfolding planned
  submit current case_id report previous started w =
      let (answer, env) = d.plan w.env current in
      let (at, env') = d.now env in
      planned case_id (record report { submitted = true }) previous started answer at
        (record w { env = env'; plans = suc w.plans })

  abbrev pub is_early : Option Status → ℕ → Bool
  is_early none now = false
  is_early (some status) now = elim status.retry_after [ none ↦ false | some retry ↦ ltb now retry ]

  abbrev pub is_decided : Option Status → Bool
  is_decided none = false
  is_decided (some status) = status.decided

  unfoldable pub consider :
      d.Case → String → Report → Result d.Problem (Option Status) → World → Answer × World
  unfolding submit load_planned
  consider current case_id report (err e) w = (ends report failed (some (raised e)), w)
  consider current case_id report (ok previous) w =
      if is_decided previous
      then load_planned case_id report already_decided w
      else (let (now, env) = d.now w.env in
          let next = record w { env = env } in
          if now == 0
          then (ends report failed (some zero_clock), next)
          else if is_early previous now
          then (ends report deferred none, next)
          else submit current case_id report previous now next)

  unfoldable pub process_stored : d.Case → Result d.Problem Bool → World → Answer × World
  unfolding consider
  process_stored current (err e) w = (ends nothing failed (some (raised e)), w)
  process_stored current (ok created) w =
      let report = record nothing { stored = created } in
      if d.is_superseded current
      then (ends report superseded none, w)
      else if str_eq (d.case_id current) ""
      then (ends report failed (some no_case_id), w)
      else (let (status, env) = d.get_status w.env (d.case_id current) in
          consider current (d.case_id current) report status (record w { env = env }))

  abbrev pub unless_cancelled : Option d.Problem → Answer × World → World → Answer × World
  unless_cancelled (some e) going w = ((nothing, some (raised e)), w)
  unless_cancelled none going w = going

  -- `Process`
  unfoldable pub process : d.Case → World → Answer × World
  unfolding process_stored
  process current w =
      let (created, env) = d.put_case w.env current in
      unless_cancelled (d.cancelled w.env) (process_stored current created (record w { env = env }))
        w
