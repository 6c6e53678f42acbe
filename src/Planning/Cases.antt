-- ===== src/Planning/Cases.antt =====
-- pkgs/media-repair/internal/planningstate/cases.go: the store of planning cases. The files, the comparison of
-- bytes and the codec of a case are parameters; a path is the case's own digest within the directory.
pub mod Laws
pub mod Binding
use nix.Base.{
  String, Bool, true, false, not, Option, none, some, str_eq, Result, ok, err, ◌>>=◌, ◌>>◌, reject,
  if◌then◌else◌,
}
use nix.Durable.{Disk}
use nix.Casestore.CaseId.{case_digest}

pub data CaseError : Type 0 where
  raised : String → CaseError
  bad_case_id different_evidence unexpected_id : CaseError

pub record CaseCodec (Case Bytes : Type 0) : Type 0 where
  pub case_id : Case → String
  pub encode : Case → Result CaseError Bytes
  pub decode : Bytes → Result CaseError Case
  pub same_identity : Case → Case → Result CaseError Bool
  pub merge : Case → Case → Result CaseError Case

pub record Observation : Type 0 where
  pub created : Bool
  pub updated : Bool

module _ {Case : Type 0} (d : Disk CaseError) (same_bytes : d.Bytes → d.Bytes → Bool)
    (c : CaseCodec Case d.Bytes) where
  -- `path`
  abbrev pub known : Option String → Result CaseError String
  known none = err bad_case_id
  known (some digest) = ok digest

  unfoldable pub path : String → Result CaseError String
  path case_id = known (case_digest case_id)

  -- `validate`
  unfoldable pub validate : Case → Result CaseError String
  unfolding path
  validate r = do at ← path (c.case_id r); bytes ← c.encode r; ok (c.case_id r)

  -- `read`
  abbrev pub decoded : Option d.Bytes → Result CaseError (Option Case)
  decoded none = ok none
  decoded (some bytes) = do r ← c.decode bytes; ok (some r)

  unfoldable pub read : d.Fs → String → Result CaseError (Option Case)
  read s at = do bytes ← d.read_file s at; decoded bytes

  -- `Get`
  unfoldable pub checked : String → Option Case → Result CaseError (Option Case)
  unfolding validate
  checked case_id none = ok none
  checked case_id (some stored) = do
    stored_id ← validate stored
    reject (not (str_eq stored_id case_id)) unexpected_id
    ok (some stored)

  unfoldable pub get : d.Fs → String → Result CaseError (Option Case)
  unfolding read checked
  get s case_id = do at ← path case_id; found ← read s at; checked case_id found

  -- `Observe` on the files, before `after`.
  unfoldable pub wanted : Option Case → Case → Result CaseError Case
  wanted none current = ok current
  wanted (some stored) current = do
    same ← c.same_identity stored current
    reject (not same) different_evidence
    c.merge stored current

  abbrev pub replaced : Result CaseError d.Fs → Bool → Result CaseError (Observation × d.Fs)
  replaced (err e) created = err e
  replaced (ok t) created = ok (record { created = created; updated = true }, t)

  unfoldable pub keep :
      d.Fs → String → Option Case → d.Bytes → Result CaseError (Observation × d.Fs)
  keep s at none encoded = replaced (d.replace_file s at encoded) true
  keep s at (some stored) encoded = do
    stored_bytes ← c.encode stored
    if same_bytes stored_bytes encoded
        then ok (record { created = false; updated = false }, s)
        else replaced (d.replace_file s at encoded) false

  unfoldable pub store : d.Fs → Case → Result CaseError (Observation × d.Fs)
  unfolding validate read wanted keep
  store s current = do
    case_id ← validate current
    at ← path case_id
    d.lock s
    found ← read s at
    next ← wanted found current
    encoded ← c.encode next
    keep s at found encoded

  -- `Observe`, whose `after` runs on the files that were stored, still under the lock.
  abbrev pub After : Type 0
  After = Option (d.Fs → Result CaseError (Unit {0}) × d.Fs)

  abbrev pub answer_after :
      Observation → Result CaseError (Unit {0}) × d.Fs → Result CaseError Observation × d.Fs
  answer_after seen (err e, s) = (err e, s)
  answer_after seen (ok u, s) = (ok seen, s)

  abbrev pub run_after : After → Observation → d.Fs → Result CaseError Observation × d.Fs
  run_after none seen s = (ok seen, s)
  run_after (some after) seen s = answer_after seen (after s)

  abbrev pub observed :
      d.Fs → After → Result CaseError (Observation × d.Fs) → Result CaseError Observation × d.Fs
  observed s after (err e) = (err e, s)
  observed s after (ok (seen, t)) = run_after after seen t

  unfoldable pub observe : d.Fs → Case → After → Result CaseError Observation × d.Fs
  unfolding store
  observe s current after = observed s after (store s current)
