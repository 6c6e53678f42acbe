-- ===== src/Planning/Results.antt =====
-- pkgs/media-repair/internal/planningstate/planning_results.go: the store of planning results. The files, the
-- JSON codec, the lock and the lookup of a case are parameters; a path is the case's own.
use nix.Base.{
  ℕ, String, Bool, true, false, not, Option, none, some, str_eq, Result, ok, err, ◌>>=◌, ◌>>◌,
  reject, if◌then◌else◌,
}
use nix.Planning.Stored.{
  Error, StoredResult, Failure, Decisions, validate, next_failure, next_decision, result_version,
  bad_case_id, bad_version, case_missing, unexpected_case,
}

pub record Files : Type 1 where
  pub Fs : Type 0
  pub Bytes : Type 0
  pub lock : Fs → Result Error (Unit {0})
  pub case_exists : Fs → String → Result Error Bool
  pub read_file : Fs → String → Result Error (Option Bytes)
  pub replace_file : Fs → String → Bytes → Result Error Fs
  pub marshal : StoredResult → Result Error Bytes
  pub unmarshal : Bytes → Result Error StoredResult
  -- the versions of older stores, which the decoder still reads
  pub is_known_version : String → Bool

module _ (d : Decisions) (f : Files) where
  -- `Path`
  abbrev pub path : String → Result Error String
  path case_id = if not (d.matches case_id) then err bad_case_id else ok case_id

  unfoldable pub encode : StoredResult → Result Error f.Bytes
  encode r = do
    reject (not (str_eq r.version result_version)) bad_version
    validate d r
    f.marshal r

  unfoldable pub decode : f.Bytes → Result Error StoredResult
  decode bytes = do
    r ← f.unmarshal bytes
    reject (not (f.is_known_version r.version)) bad_version
    validate d r
    ok r

  abbrev pub decoded : Option f.Bytes → Result Error (Option StoredResult)
  decoded none = ok none
  decoded (some bytes) = do r ← decode bytes; ok (some r)

  unfoldable pub read : f.Fs → String → Result Error (Option StoredResult)
  unfolding decode
  read s at = do bytes ← f.read_file s at; decoded bytes

  -- found && result.CaseID != caseID
  abbrev pub of_case : String → Option StoredResult → Result Error (Option StoredResult)
  of_case case_id none = ok none
  of_case case_id (some r) =
      if not (str_eq r.case_id case_id) then err unexpected_case else ok (some r)

  -- `Get`
  unfoldable pub get : f.Fs → String → Result Error (Option StoredResult)
  unfolding read
  get s case_id = do at ← path case_id; found ← read s at; of_case case_id found

  unfoldable pub save :
      f.Fs → String → StoredResult × Bool → Result Error (StoredResult × Bool × f.Fs)
  unfolding encode
  save s at (r, false) = ok (r, false, s)
  save s at (r, true) = do bytes ← encode r; t ← f.replace_file s at bytes; ok (r, true, t)

  -- `update`
  unfoldable pub update :
      f.Fs
      → String
      → (Option StoredResult → Result Error (StoredResult × Bool))
      → Result Error (StoredResult × Bool × f.Fs)
  unfolding save read
  update s case_id change = do
    at ← path case_id
    f.lock s
    exists ← f.case_exists s case_id
    reject (not exists) case_missing
    found ← read s at
    previous ← of_case case_id found
    changed ← change previous
    save s at changed

  unfoldable pub put_failure :
      f.Fs → String → Failure → ℕ → ℕ → Result Error (StoredResult × Bool × f.Fs)
  unfolding update next_failure
  put_failure s case_id failure attempted_at retry_after =
      update s case_id (λ previous. next_failure previous case_id failure attempted_at retry_after)

  unfoldable pub put_decision :
      f.Fs → String → String → ℕ → Result Error (StoredResult × Bool × f.Fs)
  unfolding update next_decision
  put_decision s case_id decision attempted_at =
      update s case_id (λ previous. next_decision previous case_id decision attempted_at)
