-- ===== src/Jobs/Queue.antt =====
-- pkgs/media-repair/internal/jobs/queue.go: finding a job's row in the download queue.
-- The index -1 of the source is `none`.
pub mod Match
use nix.Base.{
  ℕ, ◌+◌, String, Bool, true, false, not, ◌&&◌, Option, none, some, List, [], ◌∷◌, ltb, ◌==◌,
  str_eq, Result, ok, err, if◌then◌else◌,
}
use nix.Jobs.Model.{Job, Error, ambiguous_queue}

pub record QueueKey : Type 0 where
  pub queue_id : ℕ
  pub download_id : String

abbrev pub queue_key : Job → QueueKey
queue_key job = record { queue_id = job.queue_id; download_id = job.download_id }

-- candidate == wanted
abbrev pub same_key : QueueKey → QueueKey → Bool
same_key a b = (a.queue_id == b.queue_id) && str_eq a.download_id b.download_id

-- wanted.DownloadID != "" && candidate.DownloadID == wanted.DownloadID
abbrev pub same_download : QueueKey → QueueKey → Bool
same_download wanted candidate =
    not (str_eq wanted.download_id "") && str_eq candidate.download_id wanted.download_id

-- The loop of `MatchQueue`, from an index, with `match` and `count`.
unfoldable pub scan_queue : QueueKey → List QueueKey → ℕ → Option ℕ → ℕ → Result Error (Option ℕ)
scan_queue wanted [] index found count = if ltb 1 count then err ambiguous_queue else ok found
scan_queue wanted (candidate ∷ rest) index found count =
    if same_key candidate wanted
    then ok (some index)
    else scan_queue wanted rest (index + 1)
        (if same_download wanted candidate then some index else found)
        (if same_download wanted candidate then count + 1 else count)

unfoldable pub match_queue : QueueKey → List QueueKey → Result Error (Option ℕ)
unfolding scan_queue
match_queue wanted candidates = scan_queue wanted candidates 0 none 0
