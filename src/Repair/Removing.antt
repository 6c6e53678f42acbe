-- ===== src/Repair/Removing.antt =====
-- What a successful removal of a job's queue entry has checked (`RemoveTracking` of
-- internal/repair/removal.go).
use nix.Base.{
  ◌≡◌, refl, ok, err, Result, String, Bool, true, false, not, Option, some, List, ℕ, map,
  if◌then◌else◌, arith, subst,
}
use nix.Jobs.Model.{Error, Job}
use nix.Jobs.Queue.{match_queue, queue_key}
use nix.Repair.World.{continue, give}
use nix.Repair.Removal.{
  Entry, QueueRemover, eligible, entry_key, is_present, confirm_removed, remove_entry, selected,
  remove_tracking,
}

continue-eq-ok :
    {W A B : Type 0} (f : A → W → Result Error B × W) (r : Result Error A) (w : W) {b : B}
    → (continue f r w).0 ≡ ok b
    → (a : A) × (r ≡ ok a) × ((f a w).0 ≡ ok b)
continue-eq-ok f (ok a) w h = (a, refl, h)
continue-eq-ok f (err e) w h = cc

if-eq-ok :
    {W B : Type 0} (test : Bool) (e : Error) (m : W → Result Error B × W) (w : W) {b : B}
    → ((if test then give (err e) else m) w).0 ≡ ok b
    → (test ≡ false) × ((m w).0 ≡ ok b)
if-eq-ok true e m w h = cc
if-eq-ok false e m w h = (refl, h)

module _ (c : QueueRemover) (trim : String → String) where
  -- The entry may be removed, its removal was accepted, and the queue read afterwards has no entry of
  -- the job's download.
  pub record IsRemoved (job : Job) (entry : Entry) (e : c.Env) : Type 0 where
    pub remaining : List Entry
    pub allowed : eligible trim entry ≡ true
    pub accepted : (c.finalize_queue e entry.queue_id).0 ≡ ok tt
    pub read : (c.removal_queue (c.finalize_queue e entry.queue_id).1).0 ≡ ok remaining
    pub gone : is_present job.download_id remaining ≡ false

  confirm_removed-eq-ok :
      (job : Job) (e : c.Env)
      → (confirm_removed c trim job e).0 ≡ ok tt
      → (remaining : List Entry) × ((c.removal_queue e).0 ≡ ok remaining)
        × (is_present job.download_id remaining ≡ false)
  unfolding confirm_removed
  confirm_removed-eq-ok job e h =
      let (remaining, read, h1) = continue-eq-ok _ (c.removal_queue e).0 (c.removal_queue e).1 h in
      let (gone, h2) =
        if-eq-ok (is_present job.download_id remaining) _ _ (c.removal_queue e).1 h1 in
      (remaining, read, gone)

  remove_entry-IsRemoved :
      (job : Job) (entry : Entry) (e : c.Env)
      → (remove_entry c trim job (some entry) e).0 ≡ ok tt
      → IsRemoved job entry e
  unfolding remove_entry
  remove_entry-IsRemoved job entry e h =
      let (allowed, h1) = if-eq-ok (not (eligible trim entry)) _ _ e h in
      let (u, accepted, h2) =
        continue-eq-ok _ (c.finalize_queue e entry.queue_id).0 (c.finalize_queue e entry.queue_id).1
          h1 in
      let (remaining, read, gone) =
        confirm_removed-eq-ok job (c.finalize_queue e entry.queue_id).1 h2 in
      record {
        remaining = remaining;
        allowed = ground (arith, allowed);
        accepted = accepted;
        read = read;
        gone = gone;
      }

  -- A removal that succeeded found what it removed: the queue was read, `MatchQueue` answered, and if it
  -- chose an entry, that entry was eligible, the service accepted its removal, and the queue read
  -- afterwards has no entry of the job's download.
  pub remove_tracking-IsRemoved :
      (job : Job) (e : c.Env)
      → (remove_tracking c trim job e).0 ≡ ok tt
      → (entries : List Entry) × (index : Option ℕ) × ((c.removal_queue e).0 ≡ ok entries)
        × (match_queue (queue_key job) (map entry_key entries) ≡ ok index)
        × ((entry : Entry)
            → selected c trim entries index ≡ some entry
            → IsRemoved job entry (c.removal_queue e).1)
  unfolding remove_tracking
  remove_tracking-IsRemoved job e h =
      let (entries, read, h1) = continue-eq-ok _ (c.removal_queue e).0 (c.removal_queue e).1 h in
      let (index, found, h2) =
        continue-eq-ok _ (match_queue (queue_key job) (map entry_key entries)) (c.removal_queue e).1
          h1 in
      (
        entries,
        index,
        read,
        found,
        λ entry chosen.
            remove_entry-IsRemoved job entry (c.removal_queue e).1
              (subst (λ s. (remove_entry c trim job s (c.removal_queue e).1).0 ≡ ok tt) chosen h2),
      )
