-- ===== src/Finalizer/Removals.antt =====
-- How many calls remove an entry, and which steps make none (internal/queuefinalize/finalizer.go).
use nix.Base.{
  ℕ, ◌+◌, ◌≤◌, ◌≡◌, refl, ◌∙◌, String, Bool, not, ◌||◌, List, [], ◌∷◌, length, Result, ok, err,
  arith, Bool-cases, inl, inr, is_none,
}
use nix.Durable.{Disk, Json}
use nix.Repair.Removal.{Entry}
use nix.Finalizer.{FinalizerError, Record, Platform, is_prepared, complete}
use nix.Finalizer.Run
use nix.Finalizer.Run.{Service, World, Pass, Done, Outcome, run, lookup, by_id, all_eligible}

module _ (p : Platform) (d : Disk FinalizerError) (json : Json FinalizerError Record d.Bytes)
    (read_dir : d.Fs → Result FinalizerError (List (String × Bool))) (v : Service) where
  pub stored-removals :
      (operation : d.Fs → ℕ → Result FinalizerError d.Fs) (w : World p d json read_dir v)
      → (Run.stored p d json read_dir v operation w).1.removals ≡ w.removals
  stored-removals operation w = go (operation w.fs (v.now w.env).0)
    where
      go :
          (r : Result FinalizerError d.Fs)
          → (Run.saved p d json read_dir v (record w { env = (v.now w.env).1 }) r).1.removals
            ≡ w.removals
      go (err e) = refl
      go (ok t) = refl

  module _ (current : List Entry) where
    -- Reconciling removes nothing and finalizes nothing.
    reconcile_one-kept :
        (r : Record) (pass : Pass p d json read_dir v)
        → ((Run.reconcile_one p d json read_dir v current r pass).world.removals
            ≡ pass.world.removals)
          × ((Run.reconcile_one p d json read_dir v current r pass).report.finalized
              ≡ pass.report.finalized)
    unfolding Run.reconcile_one
    reconcile_one-kept r pass = elim (Bool-cases skipped) [
      | inl skips ↦ rw skips (refl, refl)
      | inr gone ↦ rw gone (
          go (Run.stored p d json read_dir v completing pass.world)
            (stored-removals completing pass.world))
    ]
      where
        skipped : Bool
        skipped = not (is_prepared r.state) || not (is_none (lookup r.entry.queue_id current))

        completing : d.Fs → ℕ → Result FinalizerError d.Fs
        completing s at = complete p d json read_dir s r.entry at

        go :
            (m : Done p d json read_dir v)
            → m.1.removals ≡ pass.world.removals
            → ((Run.reconciled_as p d json read_dir v pass m).world.removals ≡ pass.world.removals)
              × ((Run.reconciled_as p d json read_dir v pass m).report.finalized
                  ≡ pass.report.finalized)
        go (err e, w) h = (h, refl)
        go (ok u, w) h = (h, refl)

    pub reconcile-kept :
        (records : List Record) (pass : Pass p d json read_dir v)
        → ((Run.reconcile p d json read_dir v current records pass).world.removals
            ≡ pass.world.removals)
          × ((Run.reconcile p d json read_dir v current records pass).report.finalized
              ≡ pass.report.finalized)
    unfolding Run.reconcile
    reconcile-kept [] pass = (refl, refl)
    reconcile-kept (r ∷ rest) pass =
        let (removals, finalized) = reconcile_one-kept r pass in
        let (removals', finalized') =
          reconcile-kept rest (Run.reconcile_one p d json read_dir v current r pass) in
        elim (Bool-cases (not (is_none pass.problem))) [
          | inl over ↦ rw over (refl, refl)
          | inr going ↦ rw going (removals' ∙ removals, finalized' ∙ finalized)
        ]

  pub after-length :
      (m : Done p d json read_dir v) (next : World p d json read_dir v → Done p d json read_dir v)
      (k n : ℕ)
      → length m.1.removals ≤ n
      → ((w : World p d json read_dir v) → length (next w).1.removals ≤ length w.removals + k)
      → length (Run.after p d json read_dir v m next).1.removals ≤ n + k
  after-length (err e, w) next k n h g = omega arith
  after-length (ok u, w) next k n h g = omega (arith, g w)
