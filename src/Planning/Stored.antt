-- ===== src/Planning/Stored.antt =====
-- pkgs/media-repair/internal/planning/state_record.go and failure.go: a stored planning result. A time is a
-- number and 0 is the zero time. The decoder is a parameter of `Planning.Results`; the pattern of a case
-- identifier and the validation of a decision are parameters here.
use nix.Base.{
  ℕ, ◌+◌, ◌-◌, ◌^◌, String, Bool, true, false, not, ◌&&◌, Option, none, some, ltb, leb, ◌==◌,
  str_eq, Result, ok, err, ◌>>=◌, ◌>>◌, reject, if◌then◌else◌,
}

pub data Error : Type 0 where
  bad_case_id no_attempt no_time not_exactly_one retry_of_success undecidable : Error
  not_canonical wrong_case no_later_retry bad_failure overflow different_decision : Error
  case_missing unexpected_case bad_version empty_identity zero_clock not_recorded : Error
  planner_failed : Error
  io : String → Error
  both : Error → Error → Error

pub data FailureKind : Type 0 where
  unavailable timeout http invalid_result unexpected : FailureKind
  other_kind : String → FailureKind

pub record Failure : Type 0 where
  pub kind : FailureKind
  pub status_code : ℕ

-- A decision is a `json.RawMessage`, where "" is an empty one.
pub record StoredResult : Type 0 where
  pub version : String
  pub case_id : String
  pub attempts : ℕ
  pub attempted_at : ℕ
  pub retry_after : Option ℕ
  pub failure : Option Failure
  pub decision : String

abbrev pub result_version : String
result_version = "media-repair-planning/v1"

abbrev pub has_decision : StoredResult → Bool
has_decision r = not (str_eq r.decision "")

-- `ValidFailure`
abbrev pub valid_failure : Failure → Bool
valid_failure f = elim f.kind [
  | http ↦ leb 100 f.status_code && leb f.status_code 599
  | unavailable ↦ f.status_code == 0
  | timeout ↦ f.status_code == 0
  | invalid_result ↦ f.status_code == 0
  | unexpected ↦ f.status_code == 0
  | other_kind text ↦ false
]

abbrev pub is_some {ℓ} : {A : Type ℓ} → Option A → Bool
is_some none = false
is_some (some a) = true

abbrev pub is_later : Option ℕ → ℕ → Bool
is_later none at = false
is_later (some retry) at = ltb at retry

abbrev pub is_valid_failure : Option Failure → Bool
is_valid_failure none = false
is_valid_failure (some f) = valid_failure f

-- `DecisionValidator`: the case of a decision, and its canonical form.
pub record Decisions : Type 0 where
  pub matches : String → Bool
  pub validate_decision : String → Result Error (String × String)

module _ (d : Decisions) where
  unfoldable pub validate_success : StoredResult → Result Error (Unit {0})
  validate_success r = do
    reject (is_some r.retry_after) retry_of_success
    (case_id, canonical) ← d.validate_decision r.decision
    reject (not (str_eq r.decision canonical)) not_canonical
    reject (not (str_eq case_id r.case_id)) wrong_case
    ok tt

  abbrev pub validate_failure : StoredResult → Result Error (Unit {0})
  validate_failure r = do
    reject (not (is_later r.retry_after r.attempted_at)) no_later_retry
    reject (not (is_valid_failure r.failure)) bad_failure

  abbrev pub same_test : Bool → Bool → Bool
  same_test true b = b
  same_test false b = not b

  -- `validateStoredResult`
  unfoldable pub validate : StoredResult → Result Error (Unit {0})
  unfolding validate_success
  validate r = do
    reject (not (d.matches r.case_id)) bad_case_id
    reject (r.attempts == 0) no_attempt
    reject (r.attempted_at == 0) no_time
    reject (same_test (has_decision r) (is_some r.failure)) not_exactly_one
    if has_decision r then validate_success r else validate_failure r

-- `nextAttempts`
abbrev pub next_attempts : Option StoredResult → Result Error ℕ
next_attempts none = ok 1
next_attempts (some previous) =
    if previous.attempts == 2 ^ 64 - 1 then err overflow else ok (previous.attempts + 1)

abbrev pub failed_result : String → ℕ → Failure → ℕ → ℕ → StoredResult
failed_result case_id attempts failure attempted_at retry_after = record {
  version = result_version;
  case_id = case_id;
  attempts = attempts;
  attempted_at = attempted_at;
  retry_after = some retry_after;
  failure = some failure;
  decision = "";
}

abbrev pub decided_result : String → ℕ → String → ℕ → StoredResult
decided_result case_id attempts decision attempted_at = record {
  version = result_version;
  case_id = case_id;
  attempts = attempts;
  attempted_at = attempted_at;
  retry_after = none;
  failure = none;
  decision = decision;
}

-- The stored result, if it holds a decision.
abbrev pub decided : Option StoredResult → Option StoredResult
decided none = none
decided (some r) = if has_decision r then some r else none

-- `NextFailure`: the result, and whether it changed.
abbrev pub failure_unless :
    Option StoredResult
    → Option StoredResult
    → String
    → Failure
    → ℕ
    → ℕ
    → Result Error (StoredResult × Bool)
failure_unless (some old) previous case_id failure attempted_at retry_after = ok (old, false)
failure_unless none previous case_id failure attempted_at retry_after = do
  attempts ← next_attempts previous
  ok (failed_result case_id attempts failure attempted_at retry_after, true)

unfoldable pub next_failure :
    Option StoredResult → String → Failure → ℕ → ℕ → Result Error (StoredResult × Bool)
next_failure previous case_id failure attempted_at retry_after =
    failure_unless (decided previous) previous case_id failure attempted_at retry_after

-- `NextDecision`
abbrev pub decision_unless :
    Option StoredResult
    → Option StoredResult
    → String
    → String
    → ℕ
    → Result Error (StoredResult × Bool)
decision_unless (some old) previous case_id decision attempted_at =
    if str_eq old.decision decision then ok (old, false) else err different_decision
decision_unless none previous case_id decision attempted_at = do
  attempts ← next_attempts previous
  ok (decided_result case_id attempts decision attempted_at, true)

unfoldable pub next_decision :
    Option StoredResult → String → String → ℕ → Result Error (StoredResult × Bool)
next_decision previous case_id decision attempted_at =
    decision_unless (decided previous) previous case_id decision attempted_at
