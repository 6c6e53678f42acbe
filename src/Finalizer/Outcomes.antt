-- ===== src/Finalizer/Outcomes.antt =====
-- What `Finalize` answers about its candidate (internal/queuefinalize/finalizer.go).
use nix.Base.{
  ℕ, ◌≡◌, refl, ap, subst, ◌∙◌, String, Bool, true, false, Option, none, some, List, [], ◌∷◌,
  Result, ok, err, arith, Bool-cases, inl, inr, ◌==◌,
}
use nix.Durable.{Disk, Json}
use nix.Repair.Removal.{Entry, eligible}
use nix.Finalizer.{FinalizerError, Record, Platform, list_records}
use nix.Finalizer.Run
use nix.Finalizer.Run.{
  Service, World, Pass, Done, Outcome, run, finalize, judged, answered, lookup, lookup_outcome,
  by_id, all_eligible, Report,
}
use nix.Base.{sym, All, ◌≢◌, Result, subst}
use nix.Finalizer.{same_entry}
use nix.Finalizer.Entries.{
  same_entry-eq, same_entry_refl, by_id-All, by_id-All_back, lookup-All, lookup-none,
  lookup-queue_id, IsListed, All-IsListed,
}
use nix.Finalizer.Ended.{Calls, Ended, run_listed-Ended}

module _ (p : Platform) (d : Disk FinalizerError) (json : Json FinalizerError Record d.Bytes)
    (read_dir : d.Fs → Result FinalizerError (List (String × Bool))) (v : Service) where
  answered-outcome :
      (id : ℕ) (pass : Pass p d json read_dir v) (o : Outcome)
      → pass.problem ≡ none
      → lookup_outcome id pass.outcomes ≡ some o
      → answered p d json read_dir v id pass ≡ ok o
  unfolding answered
  answered-outcome id pass o fine found = rw (fine, found)

  finalize-answered :
      (candidate : Entry) (w : World p d json read_dir v)
      → eligible p.trim candidate ≡ true
      → (finalize p d json read_dir v candidate w).0
        ≡ answered p d json read_dir v candidate.queue_id
            (run p d json read_dir v (candidate ∷ []) 1 w)
  unfolding finalize
  finalize-answered candidate w allowed = rw allowed

  run-listed :
      (candidate : Entry) (w : World p d json read_dir v) (entries current : List Entry)
      → eligible p.trim candidate ≡ true
      → (v.read_queue w.env).0 ≡ ok entries
      → by_id [] entries ≡ ok current
      → run p d json read_dir v (candidate ∷ []) 1 w
        ≡ Run.run_listed p d json read_dir v current 1
            (candidate ∷ [])
            (list_records p d json read_dir w.fs)
            (record w { env = (v.read_queue w.env).1 })
  unfolding run all_eligible Run.run_current
  run-listed candidate w entries current allowed shown indexed =
      rw (allowed, shown, indexed, Run.run_current)

  -- What an outcome says of the queue.
  pub data IsTrue (candidate : Entry) (entries : List Entry) : Outcome → Type 0 where
    gone :
        All (λ e. (e.queue_id == candidate.queue_id) ≡ false) entries
        → IsTrue candidate entries Outcome.already_absent
    other :
        (entry : Entry)
        → IsListed entries entry
        → entry.queue_id ≡ candidate.queue_id
        → entry ≢ candidate
        → IsTrue candidate entries Outcome.identity_changed
    own : IsListed entries candidate → IsTrue candidate entries Outcome.finalized

  judged-IsTrue :
      (candidate : Entry) (entries current : List Entry) (found : Option Entry)
      → eligible p.trim candidate ≡ true
      → by_id [] entries ≡ ok current
      → lookup candidate.queue_id current ≡ found
      → IsTrue candidate entries (judged p d json read_dir v candidate found)
  unfolding judged
  judged-IsTrue candidate entries current none allowed indexed e =
      gone
        (by_id-All_back (λ x. (x.queue_id == candidate.queue_id) ≡ false) [] entries indexed
          (lookup-none candidate.queue_id current e)).1
  judged-IsTrue candidate entries current (some observed) allowed indexed e =
      elim (Bool-cases (same_entry observed candidate)) [
        | inl same ↦
            let equal = same_entry-eq observed candidate same in
            let fits : eligible p.trim observed ≡ true =
              ap (λ x. eligible p.trim x) equal ∙ allowed in
            rw (same, fits) (own (subst (IsListed entries) equal listed))
        | inr differ ↦ rw differ (
            other observed listed (lookup-queue_id candidate.queue_id current e) (λ equal.
              ground (
                arith,
                differ,
                ap (λ x. same_entry x candidate) equal ∙ same_entry_refl candidate,
              )))
      ]
    where
      listed : IsListed entries observed
      listed =
          lookup-All (IsListed entries) candidate.queue_id current
            (by_id-All (IsListed entries) [] entries tt (All-IsListed entries) indexed) e

  run-indexed :
      (candidate : Entry) (w : World p d json read_dir v) (entries : List Entry)
      → eligible p.trim candidate ≡ true
      → (v.read_queue w.env).0 ≡ ok entries
      → (run p d json read_dir v (candidate ∷ []) 1 w).problem ≡ none
      → (current : List Entry) × (by_id [] entries ≡ ok current)
  unfolding run all_eligible Run.run_current
  run-indexed candidate w entries allowed shown fine = go (by_id [] entries) refl
    where
      go :
          (r : Result FinalizerError (List Entry))
          → by_id [] entries ≡ r
          → (current : List Entry) × (by_id [] entries ≡ ok current)
      go (ok current) e = (current, e)
      go (err problem) e = absurd (ground (arith, rw (allowed, shown, e, Run.run_current) at fine))

  finalize-world :
      (candidate : Entry) (w : World p d json read_dir v)
      → eligible p.trim candidate ≡ true
      → (finalize p d json read_dir v candidate w).1
        ≡ (run p d json read_dir v (candidate ∷ []) 1 w).world
  unfolding finalize
  finalize-world candidate w allowed = rw allowed

  -- `Finalize` says what the queue says: for an eligible candidate whose queue can be read, if the pass
  -- meets no error then `Finalize` answers an outcome, which is already absent only if the queue has no
  -- entry of the candidate's identifier, identity changed only if the queue has a different entry of that
  -- identifier, and finalized only if the queue has the candidate itself; it made one call to remove an
  -- entry, with the candidate's identifier, if it answers finalized, and none otherwise.
  pub finalize-IsTrue :
      (candidate : Entry) (w : World p d json read_dir v) (entries : List Entry)
      → eligible p.trim candidate ≡ true
      → (v.read_queue w.env).0 ≡ ok entries
      → (run p d json read_dir v (candidate ∷ []) 1 w).problem ≡ none
      → (o : Outcome) × ((finalize p d json read_dir v candidate w).0 ≡ ok o)
        × IsTrue candidate entries o
        × Calls p d json read_dir v candidate.queue_id o w.removals
            (finalize p d json read_dir v candidate w).1.removals
  finalize-IsTrue candidate w entries allowed shown fine =
      let (current, indexed) = run-indexed candidate w entries allowed shown fine in
      let same = run-listed candidate w entries current allowed shown indexed in
      let o = judged p d json read_dir v candidate (lookup candidate.queue_id current) in
      let (outcome, calls) =
        subst (λ x. Ended p d json read_dir v candidate.queue_id o w.removals x) (sym same)
          (run_listed-Ended p d json read_dir v candidate current
            (list_records p d json read_dir w.fs) (record w { env = (v.read_queue w.env).1 })
            (subst (λ x. x.problem ≡ none) same fine)) in
      (
        o,
        finalize-answered candidate w allowed
            ∙ answered-outcome candidate.queue_id (run p d json read_dir v (candidate ∷ []) 1 w) o
                fine outcome,
        judged-IsTrue candidate entries current (lookup candidate.queue_id current) allowed indexed
            refl,
        subst (λ x. Calls p d json read_dir v candidate.queue_id o w.removals x.removals)
            (sym (finalize-world candidate w allowed)) calls,
      )
