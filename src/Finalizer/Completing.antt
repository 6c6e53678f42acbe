-- ===== src/Finalizer/Completing.antt =====
-- Completed records of the finalizer (internal/queuefinalize/finalizer.go).
use nix.Base.{
  ℕ, ◌≡◌, refl, sym, ap, subst, ◌∙◌, String, Bool, true, false, Option, none, some, List, Result,
  ok, >>=-eq-ok, reject-eq-ok, arith, Bool-cases, inl, inr, ◌==◌,
}
use nix.Durable.{Disk, Json}
use nix.Durable.Laws.{DiskLaws, JsonLaws, read-write_self}
use nix.Repair.Removal.{Entry}
use nix.Finalizer.{
  FinalizerError, Record, Platform, State, prepare, prepare_found, complete, complete_found, read,
  read_path, write, path, codec, same_entry, is_completed, bad_time,
}
use nix.Finalizer.Entries.{same_entry-eq}

module _ (p : Platform) (d : Disk FinalizerError) (laws : DiskLaws d)
    (json : Json FinalizerError Record d.Bytes) (honest : JsonLaws json)
    (read_dir : d.Fs → Result FinalizerError (List (String × Bool))) where
  -- The store's record of an entry is completed.
  pub record IsCompleted (s : d.Fs) (entry : Entry) : Type 0 where
    pub kept : Record
    pub found : read p d json read_dir s entry.queue_id ≡ ok (some kept)
    pub same : same_entry kept.entry entry ≡ true
    pub done : is_completed kept.state ≡ true

  found-IsCompleted :
      (s : d.Fs) (entry : Entry) (at : ℕ) (found : Option Record) {t : d.Fs}
      → read p d json read_dir s entry.queue_id ≡ ok found
      → complete_found p d json read_dir s entry at found ≡ ok t
      → IsCompleted t entry
  unfolding complete_found read read_path write
  found-IsCompleted s entry at none was h = cc
  found-IsCompleted s entry at (some previous) {t} was h =
      elim (Bool-cases (same_entry previous.entry entry)) [
        | inr other ↦ absurd (ground (arith, h, other))
        | inl same ↦ elim (Bool-cases (is_completed previous.state)) [
          | inl done ↦
              let stays : s ≡ t = ground (arith, h, same, done) in
              subst (λ u. IsCompleted u entry) stays
                (record { kept = previous; found = was; same = same; done = done })
          | inr pending ↦
              let next : Record = record previous { state = State.completed; updated_at = at } in
              let written : write p d json read_dir s next ≡ ok t =
                ground (arith, h, same, pending) in
              let id : previous.entry.queue_id ≡ entry.queue_id =
                ap (λ e. e.queue_id) (same_entry-eq previous.entry entry same) in
              record {
                kept = next;
                found =
                    ap (λ i. read p d json read_dir t i) (sym id)
                    ∙ read-write_self d laws (codec p d json read_dir) honest s
                        (path p previous.entry.queue_id) next written;
                same = same;
                done = refl;
              }
        ]
      ]

  -- A completed entry stays completed: where the files and JSON keep their promises, after a successful
  -- `complete` the store's record of the entry is completed, and preparing or completing the entry again,
  -- at any time and while the lock is free, succeeds and changes nothing.
  pub complete-IsCompleted :
      (s : d.Fs) (entry : Entry) (at later : ℕ) (u : Unit {0}) {t : d.Fs}
      → complete p d json read_dir s entry at ≡ ok t
      → (later == 0) ≡ false
      → d.lock t ≡ ok u
      → IsCompleted t entry
        × (complete p d json read_dir t entry later ≡ ok t)
        × (prepare p d json read_dir t entry later ≡ ok t)
  unfolding complete complete_found prepare prepare_found
  complete-IsCompleted s entry at later u h timely free =
      let (timed, h1) = reject-eq-ok (at == 0) bad_time _ h in
      let (v, locked, h2) = >>=-eq-ok (d.lock s) _ h1 in
      let (found, was, h3) = >>=-eq-ok (read p d json read_dir s entry.queue_id) _ h2 in
      let completed = found-IsCompleted s entry at found was h3 in
      (
        completed,
        rw (timely, free, completed.found, completed.same, completed.done),
        rw (timely, free, completed.found, completed.same),
      )
