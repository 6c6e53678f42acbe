-- ===== src/Durable.antt =====
-- Records kept as validated JSON in private files, one file for each case: what the stores of
-- pkgs/media-repair/internal/casestore, queuefinalize and planningstate have in common. The files
-- (internal/privatefile and os) and encoding/json are parameters.
pub mod Laws
pub mod Refinement
pub mod Memory
use nix.Base.{
  ℕ, String, Bool, true, false, not, Option, none, some, ltb, ◌==◌, str_eq, Result, ok, err, ◌>>=◌,
  ◌>>◌, reject, if◌then◌else◌,
}

pub record Disk (E : Type 0) : Type 1 where
  pub Fs : Type 0
  pub Bytes : Type 0
  pub lock : Fs → Result E (Unit {0})
  -- os.ReadFile, where `none` is os.ErrNotExist
  pub read_file : Fs → String → Result E (Option Bytes)
  pub replace_file : Fs → String → Bytes → Result E Fs

-- json.Marshal and a strict json.Decoder that reads to the end.
pub record Json (E R Bytes : Type 0) : Type 0 where
  pub marshal : R → Result E Bytes
  pub unmarshal : Bytes → Result E R

-- A store validates each record that it writes or reads.
pub record Codec (E R Bytes : Type 0) : Type 0 where
  pub validate : R → Result E (Unit {0})
  pub json : Json E R Bytes

module _ {E R : Type 0} (d : Disk E) (c : Codec E R d.Bytes) where
  unfoldable pub encode : R → Result E d.Bytes
  encode r = do c.validate r; c.json.marshal r

  unfoldable pub decode : d.Bytes → Result E R
  decode bytes = do r ← c.json.unmarshal bytes; c.validate r; ok r

  abbrev pub decoded : Option d.Bytes → Result E (Option R)
  decoded none = ok none
  decoded (some bytes) = do r ← decode bytes; ok (some r)

  unfoldable pub read : d.Fs → String → Result E (Option R)
  unfolding decode
  read s path = do bytes ← d.read_file s path; decoded bytes

  unfoldable pub write : d.Fs → String → R → Result E d.Fs
  unfolding encode
  write s path r = do bytes ← encode r; d.replace_file s path bytes

-- How a store addresses and stamps its records, and its errors.
pub record Keeping (E R : Type 0) : Type 0 where
  pub path : String → Result E String
  pub case_of : R → String
  pub updated_at : R → ℕ
  pub stamp : R → ℕ → R
  pub no_time : E
  pub not_prepared : E
  pub unexpected_case : E
  pub moved_backwards : E

module _ {E R : Type 0} (d : Disk E) (c : Codec E R d.Bytes) (k : Keeping E R) where
  -- found && record.CaseID != caseID
  abbrev pub of_case : String → Option R → Result E (Option R)
  of_case case_id none = ok none
  of_case case_id (some r) =
      if not (str_eq (k.case_of r) case_id) then err k.unexpected_case else ok (some r)

  unfoldable pub get : d.Fs → String → Result E (Option R)
  unfolding read
  get s case_id = do path ← k.path case_id; found ← read d c s path; of_case case_id found

  -- An operation answers a record, whether it changed, and the files.
  abbrev pub Answer : Type 0
  Answer = Result E (R × Bool × d.Fs)

  unfoldable pub save_changed : d.Fs → String → ℕ → R × Bool → Answer
  unfolding write
  save_changed s path at (r, false) = ok (r, false, s)
  save_changed s path at (r, true) = do
    t ← write d c s path (k.stamp r at)
    ok (k.stamp r at, true, t)

  abbrev pub existing : Option R → Result E R
  existing none = err k.not_prepared
  existing (some r) = ok r

  -- The update of an existing record by a transition.
  unfoldable pub update : d.Fs → String → ℕ → (R → Result E (R × Bool)) → Answer
  unfolding save_changed read
  update s case_id at change = do
    reject (at == 0) k.no_time
    path ← k.path case_id
    d.lock s
    found ← read d c s path
    previous ← existing found
    reject (not (str_eq (k.case_of previous) case_id)) k.unexpected_case
    reject (ltb at (k.updated_at previous)) k.moved_backwards
    changed ← change previous
    save_changed s path at changed
