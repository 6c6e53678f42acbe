-- ===== src/Finalizer.antt =====
-- pkgs/media-repair/internal/queuefinalize/finalizer.go: removing completed entries from a service's queue,
-- each recorded before and after. Here the records and their store; the files, JSON, the listing of the
-- directory, strings.TrimSpace and the printed form of a number are parameters. A name stands for its path
-- in the directory, and a time is a number, 0 being the zero time.
pub mod Run
mod Entries
pub mod Removals
mod Bounds
mod Completing
mod Ended
mod Outcomes
mod Tests
mod Guarded
use Prim.Native.String.{len, slice}
use nix.Base.{
  ℕ, ◌+◌, ◌-◌, String, Bool, true, false, not, ◌&&◌, ◌||◌, Option, none, some, List, [], ◌∷◌, ltb,
  leb, ◌==◌, str_eq, str_append, Result, ok, err, ◌>>=◌, ◌>>◌, reject, if◌then◌else◌,
}
use nix.Durable
use nix.Durable.{Disk, Json, Codec}
use nix.Repair.Removal.{Entry, eligible}

pub data FinalizerError : Type 0 where
  raised : String → FinalizerError
  duplicate_id : ℕ → FinalizerError
  not_configured ineligible invalid_queue no_outcome bad_time changed_identity unavailable :
      FinalizerError
  invalid_record : FinalizerError

-- `State`, a text in the file.
pub data State : Type 0 where
  prepared completed : State
  unknown : String → State

abbrev pub is_prepared : State → Bool
is_prepared prepared = true
is_prepared _ = false

abbrev pub is_completed : State → Bool
is_completed completed = true
is_completed _ = false

-- `record`
pub record Record : Type 0 where
  pub version : String
  pub service : String
  pub entry : Entry
  pub state : State
  pub prepared_at : ℕ
  pub updated_at : ℕ

abbrev pub record_version : String
record_version = "servarr-queue-finalization/v1"

-- Go's `==` on entries.
unfoldable pub same_entry : Entry → Entry → Bool
same_entry a b =
    a.queue_id == b.queue_id
    && (str_eq a.download_id b.download_id
        && (a.subject_id == b.subject_id
            && (str_eq a.status b.status
                && str_eq a.tracked_download_status b.tracked_download_status)))

-- sort.Slice by the queue's identifier.
module _ {ℓ} {A : Type ℓ} (id : A → ℕ) where
  unfoldable pub insert : A → List A → List A
  insert x [] = x ∷ []
  insert x (y ∷ ys) = let rest = insert x ys in if ltb (id y) (id x) then y ∷ rest else x ∷ y ∷ ys

  unfoldable pub sort : List A → List A
  unfolding insert
  sort [] = []
  sort (x ∷ xs) = insert x (sort xs)

-- filepath.Ext(name) == ".json"
abbrev pub is_json : String → Bool
is_json name = leb 5 (len name) && str_eq (slice name (len name - 5) (len name)) ".json"

pub record Platform : Type 0 where
  pub service : String
  pub trim : String → String
  pub print : ℕ → String

module _ (p : Platform) where
  -- `store.validate`
  unfoldable pub validate : Record → Result FinalizerError (Unit {0})
  unfolding eligible
  validate r =
      reject
        (not (str_eq r.version record_version)
          || (not (str_eq r.service p.service)
              || (not (eligible p.trim r.entry)
                  || (r.prepared_at == 0
                      || (r.updated_at == 0
                          || (ltb r.updated_at r.prepared_at
                              || not (is_prepared r.state || is_completed r.state)))))))
        invalid_record

  -- `store.path`
  abbrev pub path : ℕ → String
  path queue_id = str_append (str_append "queue-" (p.print queue_id)) ".json"

  abbrev pub prepared_record : Entry → ℕ → Record
  prepared_record entry at = record {
    version = record_version;
    service = p.service;
    entry = entry;
    state = prepared;
    prepared_at = at;
    updated_at = at;
  }

  module _ (d : Disk FinalizerError) (json : Json FinalizerError Record d.Bytes)
      (read_dir : d.Fs → Result FinalizerError (List (String × Bool))) where
    abbrev pub codec : Codec FinalizerError Record d.Bytes
    codec = record { validate = validate; json = json }

    -- `store.readPath`, `store.read`, `store.write`
    unfoldable pub read_path : d.Fs → String → Result FinalizerError (Option Record)
    unfolding Durable.read
    read_path s name = Durable.read d codec s name

    unfoldable pub read : d.Fs → ℕ → Result FinalizerError (Option Record)
    unfolding read_path
    read s queue_id = read_path s (path queue_id)

    unfoldable pub write : d.Fs → Record → Result FinalizerError d.Fs
    unfolding Durable.write
    write s r = Durable.write d codec s (path r.entry.queue_id) r

    -- `store.prepare`
    unfoldable pub prepare_found : d.Fs → Entry → ℕ → Option Record → Result FinalizerError d.Fs
    unfolding write
    prepare_found s entry at none = write s (prepared_record entry at)
    prepare_found s entry at (some previous) =
        if not (same_entry previous.entry entry) then err changed_identity else ok s

    unfoldable pub prepare : d.Fs → Entry → ℕ → Result FinalizerError d.Fs
    unfolding prepare_found read
    prepare s entry at = do
      reject (at == 0) bad_time
      d.lock s
      found ← read s entry.queue_id
      prepare_found s entry at found

    -- `store.complete`
    unfoldable pub complete_found : d.Fs → Entry → ℕ → Option Record → Result FinalizerError d.Fs
    unfolding write
    complete_found s entry at none = err unavailable
    complete_found s entry at (some previous) =
        if not (same_entry previous.entry entry)
        then err unavailable
        else if is_completed previous.state
        then ok s
        else write s (record previous { state = completed; updated_at = at })

    unfoldable pub complete : d.Fs → Entry → ℕ → Result FinalizerError d.Fs
    unfolding complete_found read
    complete s entry at = do
      reject (at == 0) bad_time
      d.lock s
      found ← read s entry.queue_id
      complete_found s entry at found

    -- `store.list`
    abbrev pub keep_found : Option Record → List Record → List Record
    keep_found none records = records
    keep_found (some r) records = r ∷ records

    unfoldable pub read_all : d.Fs → List (String × Bool) → Result FinalizerError (List Record)
    unfolding read_path
    read_all s [] = ok []
    read_all s ((name, is_dir) ∷ rest) =
        let others = read_all s rest in
        if is_dir || not (is_json name)
        then others
        else (do found ← read_path s name; records ← others; ok (keep_found found records))

    unfoldable pub list_records : d.Fs → Result FinalizerError (List Record)
    unfolding read_all sort
    list_records s = do
      d.lock s
      names ← read_dir s
      records ← read_all s names
      ok (sort (λ r. r.entry.queue_id) records)
