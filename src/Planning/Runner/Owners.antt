-- ===== src/Planning/Runner/Owners.antt =====
-- Whose decision `Process` returns (internal/planning/runner.go).

use nix.Base.{
  ℕ, ◌≡◌, refl, String, Bool, true, false, not, Option, none, some, ◌==◌, str_eq, Result, ok, err,
  if◌then◌else◌, arith,
}
use nix.Planning.Runner.{
  Dependencies, World, Report, Answer, Status, Outcome, process, process_stored, consider, submit,
  planned, store_failure, store_decision, decision_stored, load_planned, return_decision,
  unless_cancelled, nothing, took, loaded, failed, is_decided, failure_stored, is_early, is_early,
}

module _ (d : Dependencies) where
  pub record OwnDecision (case_id : String) (report : Report d) : Type 0 where
    pub own :
        (x : d.Decision) → report.decision ≡ some x → str_eq (d.decision_case_id x) case_id ≡ true

  if-OwnDecision :
      (case_id : String) (b : Bool) (m n : Answer d × World d)
      → (b ≡ true → OwnDecision case_id m.0.0)
      → (b ≡ false → OwnDecision case_id n.0.0)
      → OwnDecision case_id (if b then m else n).0.0
  if-OwnDecision case_id true m n p q = p refl
  if-OwnDecision case_id false m n p q = q refl

  return_decision-OwnDecision :
      (case_id : String) (report : Report d) (outcome : Outcome) (x : d.Decision)
      → OwnDecision case_id report
      → OwnDecision case_id (return_decision d case_id report outcome x).0
  unfolding return_decision
  return_decision-OwnDecision case_id report outcome x k = record {
    own = λ y h. ground (arith, h, k.own y);
  }

  loaded-OwnDecision :
      (case_id : String) (report : Report d) (outcome : Outcome)
      (r : Result d.Problem d.Decision × d.Env)
      → OwnDecision case_id report
      → OwnDecision case_id (loaded d case_id report outcome r).0.0
  loaded-OwnDecision case_id report outcome (err e, env) k = record { own = λ y h. k.own y h }
  loaded-OwnDecision case_id report outcome (ok x, env) k =
      return_decision-OwnDecision case_id report outcome x k

  load_planned-OwnDecision :
      (case_id : String) (report : Report d) (outcome : Outcome) (w : World d)
      → OwnDecision case_id report
      → OwnDecision case_id (load_planned d case_id report outcome w).0.0
  unfolding load_planned
  load_planned-OwnDecision case_id report outcome w k =
      loaded-OwnDecision case_id report outcome (d.get_decision w.env case_id) k

  ended-OwnDecision :
      (case_id : String) (report : Report d) (outcome : Outcome)
      → OwnDecision case_id report
      → OwnDecision case_id (record report { outcome = outcome })
  ended-OwnDecision case_id report outcome k = record { own = λ y h. k.own y h }

  decision_stored-OwnDecision :
      (case_id : String) (report : Report d) (x : d.Decision) (r : Result d.Problem (Status × Bool))
      (w : World d)
      → str_eq (d.decision_case_id x) case_id ≡ true
      → OwnDecision case_id report
      → OwnDecision case_id (decision_stored d case_id report x r w).0.0
  unfolding decision_stored
  decision_stored-OwnDecision case_id report x (err e) w own k =
      ended-OwnDecision case_id report failed k
  decision_stored-OwnDecision case_id report x (ok (status, true)) w own k = record {
    own = λ y h. ground (arith, h, own);
  }
  decision_stored-OwnDecision case_id report x (ok (status, false)) w own k =
      if-OwnDecision case_id status.decided _ _
        (λ e. load_planned-OwnDecision case_id report Outcome.already_decided w k)
        (λ e. ended-OwnDecision case_id report failed k)

  store_decision-OwnDecision :
      (case_id : String) (report : Report d) (x : d.Decision) (at : ℕ) (w : World d)
      → OwnDecision case_id report
      → OwnDecision case_id (store_decision d case_id report x at w).0.0
  unfolding store_decision
  store_decision-OwnDecision case_id report x at w k =
      if-OwnDecision case_id (not (str_eq (d.decision_case_id x) case_id)) _ _
        (λ e. ended-OwnDecision case_id report failed k)
        (λ e.
          decision_stored-OwnDecision case_id report x (d.put_decision w.env case_id x at).0
            (record w { env = (d.put_decision w.env case_id x at).1 }) (ground (arith, e)) k)

  failure_stored-OwnDecision :
      (case_id : String) (report : Report d) (problem : d.Problem)
      (r : Result d.Problem (Status × Bool) × d.Env)
      → OwnDecision case_id report
      → OwnDecision case_id (failure_stored d report problem r).0.0
  failure_stored-OwnDecision case_id report problem (err e, env) k =
      ended-OwnDecision case_id report failed k
  failure_stored-OwnDecision case_id report problem (ok s, env) k =
      ended-OwnDecision case_id report failed k

  store_failure-OwnDecision :
      (case_id : String) (report : Report d) (previous : Option Status) (problem : d.Problem)
      (at : ℕ) (w : World d)
      → OwnDecision case_id report
      → OwnDecision case_id (store_failure d case_id report previous problem at w).0.0
  unfolding store_failure
  store_failure-OwnDecision case_id report previous problem at w k =
      failure_stored-OwnDecision case_id (record report { failure = some (d.classify problem) })
        problem _ (record { own = λ y h. k.own y h })

  planned-OwnDecision :
      (case_id : String) (report : Report d) (previous : Option Status) (started : ℕ)
      (answer : Result d.Problem d.Decision) (at : ℕ) (w : World d)
      → OwnDecision case_id report
      → OwnDecision case_id (planned d case_id report previous started answer at w).0.0
  unfolding planned
  planned-OwnDecision case_id report previous started (err e) at w k =
      if-OwnDecision case_id (at == 0) _ _ (λ z. ended-OwnDecision case_id report failed k)
        (λ z.
          store_failure-OwnDecision case_id (took d report started at) previous e at w
            (record { own = λ y h. k.own y h }))
  planned-OwnDecision case_id report previous started (ok x) at w k =
      if-OwnDecision case_id (at == 0) _ _ (λ z. ended-OwnDecision case_id report failed k)
        (λ z.
          store_decision-OwnDecision case_id (took d report started at) x at w
            (record { own = λ y h. k.own y h }))

  consider-OwnDecision :
      (current : d.Case) (case_id : String) (report : Report d)
      (r : Result d.Problem (Option Status)) (w : World d)
      → OwnDecision case_id report
      → OwnDecision case_id (consider d current case_id report r w).0.0
  unfolding consider submit
  consider-OwnDecision current case_id report (err e) w k =
      ended-OwnDecision case_id report failed k
  consider-OwnDecision current case_id report (ok previous) w k =
      if-OwnDecision case_id (is_decided d previous) _ _
        (λ z. load_planned-OwnDecision case_id report Outcome.already_decided w k)
        (λ z.
          if-OwnDecision case_id ((d.now w.env).0 == 0) _ _
            (λ y. ended-OwnDecision case_id report failed k)
            (λ y.
              if-OwnDecision case_id (is_early d previous (d.now w.env).0) _ _
                (λ x. ended-OwnDecision case_id report Outcome.deferred k)
                (λ x.
                  planned-OwnDecision case_id (record report { submitted = true }) previous
                    (d.now w.env).0 _ _ _ (record { own = λ y h. k.own y h }))))

  stored-OwnDecision :
      (current : d.Case) (r : Result d.Problem Bool) (w : World d)
      → OwnDecision (d.case_id current) (process_stored d current r w).0.0
  unfolding process_stored
  stored-OwnDecision current (err e) w = record { own = λ y h. cc }
  stored-OwnDecision current (ok created) w =
      let none_yet : OwnDecision (d.case_id current) (record (nothing d) { stored = created }) =
        record { own = λ y h. cc } in
      if-OwnDecision (d.case_id current) (d.is_superseded current) _ _
        (λ z. ended-OwnDecision (d.case_id current) _ Outcome.superseded none_yet)
        (λ z.
          if-OwnDecision (d.case_id current) (str_eq (d.case_id current) "") _ _
            (λ y. ended-OwnDecision (d.case_id current) _ failed none_yet)
            (λ y. consider-OwnDecision current (d.case_id current) _ _ _ none_yet))

  -- A pass never hands out another case's decision: whatever the store and the planner answer, a decision
  -- in the report of `Process` has the identifier of the case that was processed.
  pub process-OwnDecision :
      (current : d.Case) (w : World d) → OwnDecision (d.case_id current) (process d current w).0.0
  unfolding process
  process-OwnDecision current w = go (d.cancelled w.env)
    where
      going : Answer d × World d
      going =
          process_stored d current (d.put_case w.env current).0
            (record w { env = (d.put_case w.env current).1 })

      go :
          (c : Option d.Problem)
          → OwnDecision (d.case_id current) (unless_cancelled d c going w).0.0
      go none = stored-OwnDecision current _ _
      go (some e) = record { own = λ y h. cc }
