-- ===== src/Finalizer/Guarded/Passes.antt =====
-- The finalizer's pass from its parts (internal/queuefinalize/finalizer.go).
use nix.Base.{
  ℕ, ◌≡◌, refl, sym, subst, String, Bool, true, not, ◌||◌, some, List, [], ◌∷◌, All, ltb, Result,
  ok, err, Bool-cases, inl, inr, is_none, ◌==◌,
}
use nix.Durable.{Disk, Json}
use nix.Durable.Laws.{DiskLaws, JsonLaws}
use nix.Repair.Removal.{Entry}
use nix.Finalizer.{FinalizerError, Record, Platform, list_records, sort}
use nix.Finalizer.Run
use nix.Finalizer.Run.{Service, World, Pass, Done, Outcome, run, lookup, by_id, all_eligible}
use nix.Finalizer.Entries.{contains, All-contains, All-sort, by_id-All, lookup-All}
use nix.Finalizer.Removals.{reconcile-kept}
use nix.Finalizer.Guarded.{IsGuarded, AllGuarded, finish_judged-AllGuarded, judged-finalized}

module _ (p : Platform) (d : Disk FinalizerError) (laws : DiskLaws d)
    (json : Json FinalizerError Record d.Bytes) (honest : JsonLaws json)
    (read_dir : d.Fs → Result FinalizerError (List (String × Bool))) (v : Service)
    (entries candidates : List Entry) where
  abbrev Guarded : World p d json read_dir v → Type 0
  Guarded w = AllGuarded p d laws json honest read_dir v entries candidates w

  module _ (current : List Entry) (indexed : by_id [] entries ≡ ok current) where
    lookup-contained :
        (id : ℕ) (observed : Entry)
        → lookup id current ≡ some observed
        → contains observed entries ≡ true
    lookup-contained id observed e =
        lookup-All (λ x. contains x entries ≡ true) id current
          (by_id-All (λ x. contains x entries ≡ true) [] entries tt (All-contains entries) indexed)
          e

    finish_all-AllGuarded :
        (limit : ℕ) (todo : List Entry) (pass : Pass p d json read_dir v)
        → All (λ e. contains e candidates ≡ true) todo
        → Guarded pass.world
        → Guarded (Run.finish_all p d json read_dir v current limit todo pass).world
    unfolding Run.finish_all Run.finish_one
    finish_all-AllGuarded limit [] pass given h = h
    finish_all-AllGuarded limit (c ∷ rest) pass given h =
        let next = Run.finish_one p d json read_dir v current c pass in
        let later = finish_all-AllGuarded limit rest next given.1 (
          finish_judged-AllGuarded p d laws json honest read_dir v entries candidates c _ pass
            given.0
            (λ e.
              judged-finalized p d laws json honest read_dir v entries candidates c
                (lookup c.queue_id current) (lookup-contained c.queue_id) e)
            h) in
        elim (Bool-cases (not (is_none pass.problem) || not (ltb pass.report.finalized limit))) [
          | inl over ↦ rw over h
          | inr going ↦ rw going later
        ]

    reconcile-Guarded :
        (records : List Record) (pass : Pass p d json read_dir v)
        → Guarded pass.world
        → Guarded (Run.reconcile p d json read_dir v current records pass).world
    reconcile-Guarded records pass h =
        subst (All _) (sym (reconcile-kept p d json read_dir v current records pass).0) h

    finish_candidates-Guarded :
        (limit : ℕ) (pass : Pass p d json read_dir v)
        → Guarded pass.world
        → Guarded (Run.finish_candidates p d json read_dir v current limit candidates pass).world
    unfolding Run.finish_candidates
    finish_candidates-Guarded limit pass h = elim (Bool-cases (not (is_none pass.problem))) [
      | inl over ↦ rw over h
      | inr going ↦ rw going (
          finish_all-AllGuarded limit (sort (λ e. e.queue_id) candidates) pass
            (All-sort (λ e. e.queue_id) (λ e. contains e candidates ≡ true) candidates
              (All-contains candidates))
            h)
    ]

    run_listed-Guarded :
        (limit : ℕ) (r : Result FinalizerError (List Record)) (w : World p d json read_dir v)
        → Guarded w
        → Guarded (Run.run_listed p d json read_dir v current limit candidates r w).world
    unfolding Run.run_listed
    run_listed-Guarded limit (err e) w h = h
    run_listed-Guarded limit (ok records) w h =
        finish_candidates-Guarded limit _ (reconcile-Guarded records _ h)

  run_current-Guarded :
      (limit : ℕ) (w : World p d json read_dir v)
      → Guarded w
      → Guarded (Run.run_current p d json read_dir v (ok entries) limit candidates w).world
  unfolding Run.run_current
  run_current-Guarded limit w h = go (by_id [] entries) refl
    where
      go :
          (r : Result FinalizerError (List Entry))
          → by_id [] entries ≡ r
          → Guarded (Run.run_current p d json read_dir v (ok entries) limit candidates w).world
      go (err e) indexed = rw (indexed, Run.run_current) h
      go (ok current) indexed =
          rw (indexed, Run.run_current)
            (run_listed-Guarded current indexed limit (list_records p d json read_dir w.fs) w h)

module _ (p : Platform) (d : Disk FinalizerError) (laws : DiskLaws d)
    (json : Json FinalizerError Record d.Bytes) (honest : JsonLaws json)
    (read_dir : d.Fs → Result FinalizerError (List (String × Bool))) (v : Service) where
  -- Whatever a pass removes it was given, saw and recorded: where the files and JSON keep their promises
  -- and the queue could be read, every call of a pass that removes an entry names a candidate that the
  -- queue showed with exactly the candidate's identity, eligible, and at the moment of the call the store
  -- holds a record of that entry.
  pub run-IsGuarded :
      (candidates : List Entry) (limit : ℕ) (w : World p d json read_dir v) (entries : List Entry)
      → (v.read_queue w.env).0 ≡ ok entries
      → w.removals ≡ []
      → All
          (IsGuarded p d laws json honest read_dir v entries candidates)
          (run p d json read_dir v candidates limit w).world.removals
  unfolding run
  run-IsGuarded candidates limit w entries shown fresh =
      let none_yet : All (IsGuarded p d laws json honest read_dir v entries candidates) w.removals =
        subst (All _) (sym fresh) tt in
      let ran =
        run_current-Guarded p d laws json honest read_dir v entries candidates limit
          (record w { env = (v.read_queue w.env).1 }) none_yet in
      elim (Bool-cases (limit == 0)) [
        | inl zero ↦ rw zero none_yet
        | inr some_limit ↦ elim (Bool-cases (all_eligible p.trim candidates)) [
          | inl all ↦ rw (some_limit, all, shown) ran
          | inr odd ↦ rw (some_limit, odd) none_yet
        ]
      ]
