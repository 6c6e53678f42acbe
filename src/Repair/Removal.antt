-- ===== src/Repair/Removal.antt =====
-- pkgs/media-repair/internal/repair/removal.go and import.go, with the test of
-- internal/queuefinalize/finalizer.go that a queue entry may be removed. The Servarr client, the library's
-- strings.TrimSpace and the printed form of a number are parameters.
use nix.Base.{
  ℕ, String, Bool, true, false, not, ◌&&◌, Option, none, some, List, [], ◌∷◌, get_elem?, map, ltb,
  str_eq, str_append, Result, ok, err, if◌then◌else◌,
}
use nix.Jobs.Model.{Error, other, Job}
use nix.Jobs.Queue.{QueueKey, queue_key, match_queue}
use nix.Servarr.Command.{Command, CommandError, Disposition, classify}
use nix.Repair.World.{ImportStatus, ◌>>=◌, ◌>>◌, pure, give}

pub record Entry : Type 0 where
  pub queue_id : ℕ
  pub download_id : String
  pub subject_id : ℕ
  pub status : String
  pub tracked_download_status : String

pub record QueueRemover : Type 1 where
  pub Env : Type 0
  pub removal_queue : Env → Result Error (List Entry) × Env
  pub finalize_queue : Env → ℕ → Result Error (Unit {0}) × Env

-- `Entry.Eligible`
unfoldable pub eligible : (String → String) → Entry → Bool
eligible trim entry =
    ltb 0 entry.queue_id
    && (not (str_eq (trim entry.download_id) "")
        && (str_eq (trim entry.download_id) entry.download_id
            && (ltb 0 entry.subject_id
                && (str_eq entry.status "completed"
                    && str_eq entry.tracked_download_status "warning"))))

abbrev pub entry_key : Entry → QueueKey
entry_key entry = record { queue_id = entry.queue_id; download_id = entry.download_id }

unfoldable pub is_present : String → List Entry → Bool
is_present id [] = false
is_present id (entry ∷ rest) = if str_eq entry.download_id id then true else is_present id rest

module _ (c : QueueRemover) (trim : String → String) where
  unfoldable pub confirm_removed : Job → c.Env → Result Error (Unit {0}) × c.Env
  unfolding is_present
  confirm_removed job = do
    remaining ← c.removal_queue
    if is_present job.download_id remaining
        then give (err (other "queue removal accepted but the item is still present"))
        else pure tt

  unfoldable pub remove_entry : Job → Option Entry → c.Env → Result Error (Unit {0}) × c.Env
  unfolding confirm_removed eligible
  remove_entry job none = pure tt
  remove_entry job (some entry) =
      if not (eligible trim entry)
      then give (err (other "queue identity or completion status changed; removal not performed"))
      else (do λ e. c.finalize_queue e entry.queue_id; confirm_removed job)

  -- The entry at the index that `MatchQueue` answered.
  abbrev pub selected : List Entry → Option ℕ → Option Entry
  selected entries none = none
  selected entries (some index) = get_elem? entries index

  unfoldable pub remove_tracking : Job → c.Env → Result Error (Unit {0}) × c.Env
  unfolding remove_entry match_queue
  remove_tracking job = do
    entries ← c.removal_queue
    index ← give (match_queue (queue_key job) (map entry_key entries))
    remove_entry job (selected entries index)

-- `CommandStatus`
abbrev pub status_of : (ℕ → String) → Command → Disposition → ImportStatus
status_of print command Disposition.pending = record { receipt = none; failure = "" }
status_of print command _ = record {
  receipt = none;
  failure =
      str_append (str_append "import command " (print command.id))
        (str_append " finished without matching import history: " command.message);
}

unfoldable pub command_status : (ℕ → String) → Command → Bool → Result CommandError ImportStatus
unfolding classify
command_status print command require_result = elim (classify command require_result) [
  | err e ↦ err e
  | ok disposition ↦ ok (status_of print command disposition)
]
