-- ===== src/Planning/Tests.antt =====
-- The theorems on planning results at concrete results (internal/planning).
use nix.Base.{◌≡◌, refl, none, some, ok, List, [], ◌∷◌, arith, true, min, ◌*◌, ◌^◌}
use nix.Planning.Stored.{
  Failure, FailureKind, Decisions, validate, next_failure, failed_result, decided_result,
}
use nix.Planning.Decided.{Answer, after_answers, after_answers-decided, next_failure-IsValid}
use nix.Base.{Option, String, ℕ, Bool, false, ◌+◌, ◌&&◌, str_eq, eq_iff, if◌then◌else◌}
use nix.Durable.{Disk}
use nix.Durable.Memory.{memory_disk, memory_disk-DiskLaws}
use nix.Casestore.CaseId.{case_digest, all_hex}
use nix.Planning.Cases
use nix.Planning.Cases.{CaseError, CaseCodec, observe}
use nix.Planning.Cases.Laws.{CaseLaws, IsKept, observe-IsKept}
use nix.Planning.Runner.{Status, Dependencies, World, process}
use nix.Planning.Runner.Calls.{process-plans}
use nix.Planning.Runner.Owners.{OwnDecision, process-OwnDecision}
use nix.Planning.Backoff.{delay, delay_lem}

abbrev any_case : Decisions
any_case = record { matches = λ s. true; validate_decision = λ s. ok ("case", s) }

abbrev timeout : Failure
timeout = record { kind = FailureKind.timeout; status_code = 0 }

abbrev answers : List Answer
answers = Answer.failing timeout 10 20 ∷ Answer.deciding "other" 30 ∷ []

after_answers-decided_example :
    after_answers "case" answers (some (decided_result "case" 2 "plan" 5))
    ≡ some (decided_result "case" 2 "plan" 5)
after_answers-decided_example =
    after_answers-decided "case" answers (decided_result "case" 2 "plan" 5) refl

next_failure-IsValid_example : validate any_case (failed_result "case" 1 timeout 10 20) ≡ ok tt
unfolding next_failure
next_failure-IsValid_example =
    next_failure-IsValid any_case none "case" timeout 10 20 refl refl (omega arith) (omega arith)
      refl

delay_lem_example : delay (record { initial = 5; maximum = 60 }) 3 ≡ min (5 * 2 ^ 3) 60
delay_lem_example = delay_lem (record { initial = 5; maximum = 60 }) 3

-- A planner that always answers, a store that takes every decision and a clock that ticks.
abbrev eager : Dependencies
eager = record {
  Case = String;
  Decision = String;
  Failure = Failure;
  Problem = String;
  Env = ℕ;
  cancelled = λ e. none;
  put_case = λ e current. (ok true, e);
  get_status = λ e case_id. (ok none, e);
  get_decision = λ e case_id. (ok case_id, e);
  put_failure = λ e case_id failure at retry.
      (ok (record { attempts = 1; retry_after = some retry; decided = false }, true), e);
  put_decision = λ e case_id decision at.
      (ok (record { attempts = 1; retry_after = none; decided = true }, true), e);
  plan = λ e current. (ok current, e);
  now = λ e. (e, e + 1);
  case_id = λ current. current;
  decision_case_id = λ decision. decision;
  is_superseded = λ current. false;
  classify = λ problem. timeout;
  backoff = record { initial = 5; maximum = 60 };
}

abbrev at_work : World eager
at_work = record { env = 10; plans = 0 }

process-plans_example : (process eager "case" at_work).1.plans ≡ 1
process-plans_example = process-plans eager "case" at_work

process-OwnDecision_example : OwnDecision eager "case" (process eager "case" at_work).0.0
process-OwnDecision_example = process-OwnDecision eager "case" at_work

abbrev status_of : Option String → String → Option Status
status_of none case_id = none
status_of (some known) case_id =
    if str_eq known case_id
    then some (record { attempts = 1; retry_after = none; decided = true })
    else none

-- A store that keeps the decisions it takes: the clock beside the case that is decided.
abbrev keeping : Dependencies
keeping = record eager {
  Env = ℕ × Option String;
  cancelled = λ e. none;
  put_case = λ e current. (ok true, e);
  get_status = λ e case_id. (ok (status_of e.1 case_id), e);
  get_decision = λ e case_id. (ok case_id, e);
  put_failure = λ e case_id failure at retry.
      (ok (record { attempts = 1; retry_after = some retry; decided = false }, true), e);
  put_decision = λ e case_id decision at.
      (ok (record { attempts = 1; retry_after = none; decided = true }, true), (e.0, some case_id));
  plan = λ e current. (ok current, e);
  now = λ e. (e.0, (e.0 + 1, e.1));
}

abbrev first_pass : World keeping
first_pass = record { env = (10, none); plans = 0 }

abbrev film_id : String
film_id = "sha256:0123456789abcdef0123456789abcdef0123456789abcdef0123456789abcdef"

-- A case with its evidence.
abbrev Film : Type 0
Film = String × String

abbrev files : Disk CaseError
files = memory_disk CaseError Film

abbrev same_film : Film → Film → Bool
same_film a b = str_eq a.0 b.0 && str_eq a.1 b.1

abbrev films : CaseCodec Film Film
films = record {
  case_id = λ r. r.0;
  encode = λ r. ok r;
  decode = λ r. ok r;
  same_identity = λ stored current. ok (str_eq stored.1 current.1);
  merge = λ stored current. ok current;
}

films-CaseLaws : CaseLaws same_film films
films-CaseLaws = record {
  decode-encode = λ r h. ground (arith, h);
  merge-case_id = λ stored current h k. ground (arith, h);
  same_bytes_lem = λ a b h. ground (arith, h, (eq_iff a.0 b.0).0, (eq_iff a.1 b.1).0);
}

abbrev one_film : files.Fs
one_film path =
    if str_eq path "0123456789abcdef0123456789abcdef0123456789abcdef0123456789abcdef"
    then some (film_id, "disc")
    else none

abbrev seen_films : List Film
seen_films = (film_id, "tape") ∷ ("other", "disc") ∷ (film_id, "disc") ∷ []

observe-IsKept_example :
    IsKept files
      (memory_disk-DiskLaws CaseError Film)
      same_film
      films
      films-CaseLaws
      one_film
      one_film
      (film_id, "disc")
      (record { created = false; updated = false })
unfolding observe case_digest all_hex
observe-IsKept_example =
    observe-IsKept files (memory_disk-DiskLaws CaseError Film) same_film films films-CaseLaws
      one_film (film_id, "disc") refl
