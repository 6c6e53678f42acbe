-- ===== src/Planning/Runner/Settled.antt =====
-- The passes of `Process` over a case that is decided (internal/planning/runner.go).
use nix.Base.{
  ℕ, suc, ◌≡◌, ◌≢◌, refl, String, Bool, true, false, Option, none, some, ◌==◌, str_eq, Result, ok,
  err, if◌then◌else◌, arith,
}
use nix.Planning.Runner.{
  Dependencies, World, Report, RunnerError, ends, Answer, Status, Outcome, process, process_stored,
  consider, submit, planned, store_failure, store_decision, decision_stored, load_planned,
  return_decision, loaded, is_decided, unless_cancelled, nothing, took, failure_stored,
}

-- What the store of planning results promises: after it took a decision for a case, every status of the
-- case that can be read says so, and reading or storing the case does not change that.
pub record StatusLaws (d : Dependencies) : Type 1 where
  pub Settled : d.Env → String → Type 0
  pub put_decision-Settled :
      (e : d.Env) (case_id : String) (x : d.Decision) (at : ℕ) {status : Status}
      → (d.put_decision e case_id x at).0 ≡ ok (status, true)
      → Settled (d.put_decision e case_id x at).1 case_id
  pub get_status-decided :
      (e : d.Env) (case_id : String) {previous : Option Status}
      → Settled e case_id
      → (d.get_status e case_id).0 ≡ ok previous
      → is_decided d previous ≡ true
  pub get_status-Settled :
      (e : d.Env) (case_id : String)
      → Settled e case_id
      → Settled (d.get_status e case_id).1 case_id
  pub get_decision-Settled :
      (e : d.Env) (case_id : String)
      → Settled e case_id
      → Settled (d.get_decision e case_id).1 case_id
  pub put_case-Settled :
      (e : d.Env) (current : d.Case) (case_id : String)
      → Settled e case_id
      → Settled (d.put_case e current).1 case_id

module _ (d : Dependencies) (laws : StatusLaws d) where
  load_planned-undecided :
      (case_id : String) (report : Report d) (w : World d)
      → (load_planned d case_id report Outcome.already_decided w).0.0.outcome ≢ Outcome.decided
  unfolding load_planned return_decision
  load_planned-undecided case_id report w h = go (d.get_decision w.env case_id) h
    where
      go :
          (r : Result d.Problem d.Decision × d.Env)
          → (loaded d case_id report Outcome.already_decided r).0.0.outcome ≢ Outcome.decided
      go (err e, env) same = ground (arith, same)
      go (ok x, env) same = ground (arith, same)

  -- A pass that ends decided leaves the case settled.
  unfoldable pub Settles : String → Answer d × World d → Type 0
  Settles case_id m = m.0.0.outcome ≡ Outcome.decided → laws.Settled m.1.env case_id

  Settles-if :
      (case_id : String) (b : Bool) (x y : Answer d × World d)
      → Settles case_id x
      → Settles case_id y
      → Settles case_id (if b then x else y)
  Settles-if case_id true x y fx fy = fx
  Settles-if case_id false x y fx fy = fy

  Settles-failing :
      (case_id : String) (m : Answer d × World d)
      → m.0.0.outcome ≢ Outcome.decided
      → Settles case_id m
  unfolding Settles
  Settles-failing case_id m other same = absurd (other same)

  abbrev outcome_of : Answer d × d.Env → Outcome
  outcome_of m = m.0.0.outcome

  store_failure-Settles :
      (case_id : String) (report : Report d) (previous : Option Status) (problem : d.Problem)
      (at : ℕ) (w : World d)
      → Settles case_id (store_failure d case_id report previous problem at w)
  unfolding store_failure
  store_failure-Settles case_id report previous problem at w = Settles-failing case_id _ (go _)
    where
      go :
          (r : Result d.Problem (Status × Bool) × d.Env)
          → outcome_of
              (failure_stored d (record report { failure = some (d.classify problem) }) problem r)
            ≢ Outcome.decided
      go (err e, env) same = ground (arith, same)
      go (ok stored, env) same = ground (arith, same)

  decision_stored-Settles :
      (case_id : String) (report : Report d) (x : d.Decision) (r : Result d.Problem (Status × Bool))
      (w : World d)
      → ((status : Status) → r ≡ ok (status, true) → laws.Settled w.env case_id)
      → Settles case_id (decision_stored d case_id report x r w)
  unfolding decision_stored Settles
  decision_stored-Settles case_id report x (err e) w kept = λ h. absurd (ground (arith, h))
  decision_stored-Settles case_id report x (ok (status, true)) w kept = λ h. kept status refl
  decision_stored-Settles case_id report x (ok (status, false)) w kept =
      Settles-if case_id status.decided _ _
        (Settles-failing case_id (load_planned d case_id report Outcome.already_decided w)
          (load_planned-undecided case_id report w))
        (λ h. absurd (ground (arith, h)))

  store_decision-Settles :
      (case_id : String) (report : Report d) (x : d.Decision) (at : ℕ) (w : World d)
      → Settles case_id (store_decision d case_id report x at w)
  unfolding store_decision Settles
  store_decision-Settles case_id report x at w =
      Settles-if case_id _ (ends d report Outcome.failed (some RunnerError.wrong_case), w) _
        (λ h. absurd (ground (arith, h)))
        (decision_stored-Settles case_id report x (d.put_decision w.env case_id x at).0 _
          (λ status stored. laws.put_decision-Settled w.env case_id x at stored))

  planned-Settles :
      (case_id : String) (report : Report d) (previous : Option Status) (started : ℕ)
      (answer : Result d.Problem d.Decision) (at : ℕ) (w : World d)
      → Settles case_id (planned d case_id report previous started answer at w)
  unfolding planned Settles
  planned-Settles case_id report previous started (err problem) at w =
      Settles-if case_id (at == 0) _ _ (λ h. absurd (ground (arith, h)))
        (store_failure-Settles case_id (took d report started at) previous problem at w)
  planned-Settles case_id report previous started (ok x) at w =
      Settles-if case_id (at == 0) _ _ (λ h. absurd (ground (arith, h)))
        (store_decision-Settles case_id (took d report started at) x at w)

  submit-Settles :
      (current : d.Case) (case_id : String) (report : Report d) (previous : Option Status)
      (started : ℕ) (w : World d)
      → Settles case_id (submit d current case_id report previous started w)
  unfolding submit
  submit-Settles current case_id report previous started w =
      planned-Settles case_id (record report { submitted = true }) previous started
        (d.plan w.env current).0 (d.now (d.plan w.env current).1).0
        (record w { env = (d.now (d.plan w.env current).1).1; plans = suc w.plans })

  consider-Settles :
      (current : d.Case) (case_id : String) (report : Report d)
      (r : Result d.Problem (Option Status)) (w : World d)
      → Settles case_id (consider d current case_id report r w)
  unfolding consider Settles
  consider-Settles current case_id report (err e) w = λ h. absurd (ground (arith, h))
  consider-Settles current case_id report (ok previous) w =
      let next = record w { env = (d.now w.env).1 } in
      Settles-if case_id (is_decided d previous) _ _
        (Settles-failing case_id (load_planned d case_id report Outcome.already_decided w)
          (load_planned-undecided case_id report w))
        (Settles-if case_id _ (ends d report Outcome.failed (some RunnerError.zero_clock), next) _
          (λ h. absurd (ground (arith, h)))
          (Settles-if case_id _ (ends d report Outcome.deferred none, next) _
            (λ h. absurd (ground (arith, h)))
            (submit-Settles current case_id report previous (d.now w.env).0 next)))

  process_stored-Settles :
      (current : d.Case) (r : Result d.Problem Bool) (w : World d)
      → Settles (d.case_id current) (process_stored d current r w)
  unfolding process_stored Settles
  process_stored-Settles current (err e) w = λ h. absurd (ground (arith, h))
  process_stored-Settles current (ok created) w =
      let read = d.get_status w.env (d.case_id current) in
      let report = record (nothing d) { stored = created } in
      Settles-if (d.case_id current) (d.is_superseded current)
        (ends d report Outcome.superseded none, w) _ (λ h. absurd (ground (arith, h)))
        (Settles-if (d.case_id current) (str_eq (d.case_id current) "")
          (ends d report Outcome.failed (some RunnerError.no_case_id), w) _
          (λ h. absurd (ground (arith, h)))
          (consider-Settles current (d.case_id current) report read.0 (record w { env = read.1 })))

  pub process-Settles :
      (current : d.Case) (w : World d) → Settles (d.case_id current) (process d current w)
  unfolding process
  process-Settles current w = go (d.cancelled w.env) _ (
      process_stored-Settles current (d.put_case w.env current).0
        (record w { env = (d.put_case w.env current).1 }))
    where
      go :
          (c : Option d.Problem) (going : Answer d × World d)
          → Settles (d.case_id current) going
          → Settles (d.case_id current) (unless_cancelled d c going w)
      go none going fine = fine
      go (some e) going fine = Settles-failing (d.case_id current) _ (λ h. ground (arith, h))
