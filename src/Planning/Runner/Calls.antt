-- ===== src/Planning/Runner/Calls.antt =====
-- When `Process` calls the planner, and whose decision it returns (internal/planning/runner.go).
use nix.Base.{
  ℕ, suc, ◌≡◌, refl, ◌+◌, String, Bool, true, false, not, ◌&&◌, Option, none, some, ◌==◌, str_eq,
  Result, ok, err, if◌then◌else◌, arith, is_none,
}
use nix.Planning.Runner.{
  Dependencies, World, Report, Answer, Status, Outcome, process, process_stored, consider, submit,
  planned, store_failure, store_decision, decision_stored, load_planned, is_decided, is_early,
  unless_cancelled, nothing, took,
}

module _ (d : Dependencies) where
  -- Where a status that was read lets the planner be called: it says no decision, the clock works and is
  -- past the retry time.
  abbrev pub is_due : Result d.Problem (Option Status) → ℕ → Bool
  is_due (err e) now = false
  is_due (ok previous) now =
      not (is_decided d previous) && (not (now == 0) && not (is_early d previous now))

  abbrev pub is_ok {ℓ} : {A : Type ℓ} → Result d.Problem A → Bool
  is_ok (ok a) = true
  is_ok (err e) = false

  -- The status that a pass reads, and the clock that it reads after that.
  abbrev pub status_read : d.Case → World d → Result d.Problem (Option Status) × d.Env
  status_read current w = d.get_status (d.put_case w.env current).1 (d.case_id current)

  abbrev pub clock_read : d.Case → World d → ℕ
  clock_read current w = (d.now (status_read current w).1).0

  -- Where a pass may call the planner.
  abbrev pub may_plan : d.Case → World d → Bool
  may_plan current w =
      is_none (d.cancelled w.env)
      && (is_ok (d.put_case w.env current).0
          && (not (d.is_superseded current)
              && (not (str_eq (d.case_id current) "")
                  && is_due (status_read current w).0 (clock_read current w))))

  decision_stored-plans :
      (case_id : String) (report : Report d) (x : d.Decision) (r : Result d.Problem (Status × Bool))
      (w : World d)
      → (decision_stored d case_id report x r w).1.plans ≡ w.plans
  unfolding decision_stored load_planned
  decision_stored-plans case_id report x (err e) w = refl
  decision_stored-plans case_id report x (ok (status, true)) w = refl
  decision_stored-plans case_id report x (ok (status, false)) w = ground arith

  planned-plans :
      (case_id : String) (report : Report d) (previous : Option Status) (started : ℕ)
      (answer : Result d.Problem d.Decision) (at : ℕ) (w : World d)
      → (planned d case_id report previous started answer at w).1.plans ≡ w.plans
  unfolding planned store_failure store_decision
  planned-plans case_id report previous started (err e) at w = ground arith
  planned-plans case_id report previous started (ok x) at w =
      let env = (d.put_decision w.env case_id x at).1 in
      let r = (d.put_decision w.env case_id x at).0 in
      ground (
        arith,
        decision_stored-plans case_id (took d report started at) x r (record w { env = env }),
      )

  load_planned-plans :
      (case_id : String) (report : Report d) (outcome : Outcome) (w : World d)
      → (load_planned d case_id report outcome w).1.plans ≡ w.plans
  unfolding load_planned
  load_planned-plans case_id report outcome w = refl

  submit-plans :
      (current : d.Case) (case_id : String) (report : Report d) (previous : Option Status)
      (started : ℕ) (w : World d)
      → (submit d current case_id report previous started w).1.plans ≡ suc w.plans
  unfolding submit
  submit-plans current case_id report previous started w =
      let (answer, env) = d.plan w.env current in
      let (at, env') = d.now env in
      planned-plans case_id (record report { submitted = true }) previous started answer at
        (record w { env = env'; plans = suc w.plans })

  consider-plans :
      (current : d.Case) (case_id : String) (report : Report d)
      (r : Result d.Problem (Option Status)) (w : World d)
      → (consider d current case_id report r w).1.plans
        ≡ w.plans + (if is_due r (d.now w.env).0 then 1 else 0)
  unfolding consider
  consider-plans current case_id report (err e) w = omega arith
  consider-plans current case_id report (ok previous) w =
      let (now, env) = d.now w.env in
      ground (
        arith,
        load_planned-plans case_id report Outcome.already_decided w,
        submit-plans current case_id report previous now (record w { env = env }),
      )

  stored-plans :
      (current : d.Case) (r : Result d.Problem Bool) (w : World d)
      → (process_stored d current r w).1.plans
        ≡ w.plans
          + (if is_ok r
                && (not (d.is_superseded current)
                    && (not (str_eq (d.case_id current) "")
                        && is_due
                            (d.get_status w.env (d.case_id current)).0
                            (d.now (d.get_status w.env (d.case_id current)).1).0))
              then 1
              else 0)
  unfolding process_stored
  stored-plans current (err e) w = omega arith
  stored-plans current (ok created) w =
      let (status, env) = d.get_status w.env (d.case_id current) in
      ground (
        arith,
        consider-plans current (d.case_id current) (record (nothing d) { stored = created }) status
            (record w { env = env }),
      )

  -- A pass calls the planner exactly once where it may, and not at all elsewhere: the calls grow by one if
  -- the pass is not cancelled, the case is stored, current and named, its status can be read and says no
  -- decision, and the clock has a time past the retry time; otherwise they stay as they were.
  pub process-plans :
      (current : d.Case) (w : World d)
      → (process d current w).1.plans ≡ w.plans + (if may_plan current w then 1 else 0)
  unfolding process
  process-plans current w = go (d.cancelled w.env) _ _ (
      stored-plans current (d.put_case w.env current).0
        (record w { env = (d.put_case w.env current).1 }))
    where
      go :
          (c : Option d.Problem) (going : Answer d × World d) (b : Bool)
          → going.1.plans ≡ w.plans + (if b then 1 else 0)
          → (unless_cancelled d c going w).1.plans ≡ w.plans + (if is_none c && b then 1 else 0)
      go none going b h = h
      go (some e) going b h = omega arith
