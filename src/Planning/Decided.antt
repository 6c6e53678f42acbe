-- ===== src/Planning/Decided.antt =====
-- The results of a case over several answers of the planner (`NextFailure` and `NextDecision` of
-- pkgs/media-repair/internal/planning/state_record.go).
use nix.Base.{
  ℕ, ◌≡◌, refl, ◌<◌, ◌+◌, ok, err, Result, String, Bool, true, List, [], ◌∷◌, Option, none, some,
  arith, ap, ◌∙◌, subst, sym,
}
use nix.Planning.Stored.{
  Error, StoredResult, Failure, Decisions, validate, next_failure, next_decision, has_decision,
  valid_failure, failed_result,
}

-- An answer of the planner for a case: a failure with its retry time, or a decision.
pub data Answer : Type 0 where
  failing : Failure → ℕ → ℕ → Answer
  deciding : String → ℕ → Answer

abbrev pub next : String → Answer → Option StoredResult → Result Error (StoredResult × Bool)
next case_id (failing failure at retry) previous = next_failure previous case_id failure at retry
next case_id (deciding decision at) previous = next_decision previous case_id decision at

-- What the store holds after one answer, and after several; a refused answer changes nothing.
abbrev pub kept : Option StoredResult → Result Error (StoredResult × Bool) → Option StoredResult
kept previous (err e) = previous
kept previous (ok (r, changed)) = some r

pub after_answers : String → List Answer → Option StoredResult → Option StoredResult
after_answers case_id [] previous = previous
after_answers case_id (a ∷ rest) previous =
    after_answers case_id rest (kept previous (next case_id a previous))

kept-decided :
    (case_id : String) (a : Answer) (r : StoredResult)
    → has_decision r ≡ true
    → kept (some r) (next case_id a (some r)) ≡ some r
unfolding next_failure next_decision
kept-decided case_id (failing failure at retry) r h = ground arith
kept-decided case_id (deciding decision at) r h = ground arith

-- A decision is terminal: once a case's stored result holds a decision, no sequence of failures and
-- decisions of the planner changes the result.
pub after_answers-decided :
    (case_id : String) (answers : List Answer) (r : StoredResult)
    → has_decision r ≡ true
    → after_answers case_id answers (some r) ≡ some r
unfolding after_answers
after_answers-decided case_id [] r h = refl
after_answers-decided case_id (a ∷ rest) r h =
    ap (after_answers case_id rest) (kept-decided case_id a r h)
    ∙ after_answers-decided case_id rest r h

failed_result-IsValid :
    (d : Decisions) (case_id : String) (attempts : ℕ) (failure : Failure) (at retry : ℕ)
    → d.matches case_id ≡ true
    → valid_failure failure ≡ true
    → 0 < at
    → at < retry
    → 0 < attempts
    → validate d (failed_result case_id attempts failure at retry) ≡ ok tt
unfolding validate
failed_result-IsValid d case_id attempts failure at retry known valid timed later counted =
    ground (arith, known, valid, timed, later, counted)

-- The result that `NextFailure` newly returns.
next_failure-new :
    (previous : Option StoredResult) (case_id : String) (failure : Failure) (at retry : ℕ)
    {r : StoredResult}
    → next_failure previous case_id failure at retry ≡ ok (r, true)
    → (attempts : ℕ) × (0 < attempts) × (r ≡ failed_result case_id attempts failure at retry)
unfolding next_failure
next_failure-new none case_id failure at retry h = (1, ground arith, ground (arith, h))
next_failure-new (some old) case_id failure at retry h =
    (old.attempts + 1, omega arith, ground (arith, h))

-- What `NextFailure` newly returns is a result that the store's validation accepts, where the case's
-- identifier has its pattern, the failure is valid, the attempt has a time and the retry is later, and
-- the attempts counted so far fit the counter.
pub next_failure-IsValid :
    (d : Decisions) (previous : Option StoredResult) (case_id : String) (failure : Failure)
    (at retry : ℕ) {r : StoredResult}
    → d.matches case_id ≡ true
    → valid_failure failure ≡ true
    → 0 < at
    → at < retry
    → next_failure previous case_id failure at retry ≡ ok (r, true)
    → validate d r ≡ ok tt
next_failure-IsValid d previous case_id failure at retry known valid timed later h =
    let (attempts, counted, same) = next_failure-new previous case_id failure at retry h in
    subst (λ r. validate d r ≡ ok tt) (sym same)
      (failed_result-IsValid d case_id attempts failure at retry known valid timed later counted)
