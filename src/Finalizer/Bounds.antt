-- ===== src/Finalizer/Bounds.antt =====
-- The limit of a pass of the finalizer (internal/queuefinalize/finalizer.go).
use nix.Base.{
  ℕ, ◌+◌, ◌≤◌, ◌≡◌, refl, ap, String, Bool, true, not, ◌||◌, none, List, [], ◌∷◌, length, ltb,
  Result, ok, err, arith, Bool-cases, inl, inr, is_none, ◌==◌,
}
use nix.Durable.{Disk, Json}
use nix.Repair.Removal.{Entry}
use nix.Finalizer.{FinalizerError, Record, Platform, complete, prepare, list_records, sort}
use nix.Finalizer.Run
use nix.Finalizer.Run.{Service, World, Pass, Done, Outcome, run, lookup, by_id, all_eligible}
use nix.Finalizer.Removals.{stored-removals, reconcile-kept, after-length}

module _ (p : Platform) (d : Disk FinalizerError) (json : Json FinalizerError Record d.Bytes)
    (read_dir : d.Fs → Result FinalizerError (List (String × Bool))) (v : Service) where
  remove_recorded-length :
      (candidate : Entry) (w : World p d json read_dir v)
      → length (Run.remove_recorded p d json read_dir v candidate w).1.removals
        ≤ length w.removals + 1
  unfolding Run.remove_recorded
  remove_recorded-length candidate w =
      let both =
        after-length p d json read_dir v (Run.stored p d json read_dir v preparing w)
          (Run.remove_call p d json read_dir v candidate.queue_id) 1 (length w.removals)
          (omega (arith, ap (λ xs. length xs) (stored-removals p d json read_dir v preparing w)))
          (λ u. omega arith) in
      let all =
        after-length p d json read_dir v
          (Run.after p d json read_dir v (Run.stored p d json read_dir v preparing w)
            (Run.remove_call p d json read_dir v candidate.queue_id))
          (Run.stored p d json read_dir v completing) 0 (length w.removals + 1) both
          (λ u.
            omega
              (arith, ap (λ xs. length xs) (stored-removals p d json read_dir v completing u))) in
      omega (arith, all)
    where
      preparing : d.Fs → ℕ → Result FinalizerError d.Fs
      preparing s at = prepare p d json read_dir s candidate at

      completing : d.Fs → ℕ → Result FinalizerError d.Fs
      completing s at = complete p d json read_dir s candidate at

  -- A candidate adds one call at most, and one to the count if it adds a call and nothing failed.
  record IsCounted (base : ℕ) (pass next : Pass p d json read_dir v) : Type 0 where
    grows : length next.world.removals ≤ length pass.world.removals + 1
    counted :
        is_none pass.problem ≡ true
        → length pass.world.removals ≤ base + pass.report.finalized
        → is_none next.problem ≡ true
        → length next.world.removals ≤ base + next.report.finalized

  finish_judged-IsCounted :
      (base : ℕ) (candidate : Entry) (o : Outcome) (pass : Pass p d json read_dir v)
      → IsCounted base pass (Run.finish_judged p d json read_dir v candidate o pass)
  unfolding Run.finish_judged
  finish_judged-IsCounted base candidate Outcome.already_absent pass = record {
    grows = omega arith;
    counted = λ a h b. h;
  }
  finish_judged-IsCounted base candidate Outcome.identity_changed pass = record {
    grows = omega arith;
    counted = λ a h b. h;
  }
  finish_judged-IsCounted base candidate Outcome.finalized pass =
      go (Run.remove_recorded p d json read_dir v candidate pass.world)
        (remove_recorded-length candidate pass.world)
    where
      go :
          (m : Done p d json read_dir v)
          → length m.1.removals ≤ length pass.world.removals + 1
          → IsCounted base pass (Run.finalized_as p d json read_dir v candidate pass m)
      go (err e, w) h = record { grows = h; counted = λ a k b. cc }
      go (ok u, w) h = record { grows = h; counted = λ a k b. omega (arith, h, k) }

  finish_all-length :
      (current : List Entry) (base limit : ℕ) (todo : List Entry) (pass : Pass p d json read_dir v)
      → (is_none pass.problem ≡ true → length pass.world.removals ≤ base + pass.report.finalized)
      → length pass.world.removals ≤ base + limit
      → length (Run.finish_all p d json read_dir v current limit todo pass).world.removals
        ≤ base + limit
  unfolding Run.finish_all Run.finish_one
  finish_all-length current base limit [] pass h g = g
  finish_all-length current base limit (c ∷ rest) pass h g =
      elim (Bool-cases (not (is_none pass.problem) || not (ltb pass.report.finalized limit))) [
        | inl over ↦ rw over g
        | inr going ↦
            let fine : is_none pass.problem ≡ true = ground (arith, going) in
            let room : pass.report.finalized + 1 ≤ limit = ground (arith, going) in
            let next = Run.finish_one p d json read_dir v current c pass in
            let step =
              finish_judged-IsCounted base c
                (Run.judged p d json read_dir v c (lookup c.queue_id current)) pass in
            let now = h fine in
            rw going (
              finish_all-length current base limit rest next (step.counted fine now)
                (omega (arith, step.grows, now, room)))
      ]

  run_listed-length :
      (current candidates : List Entry) (limit : ℕ) (r : Result FinalizerError (List Record))
      (w : World p d json read_dir v)
      → length (Run.run_listed p d json read_dir v current limit candidates r w).world.removals
        ≤ length w.removals + limit
  unfolding Run.run_listed Run.finish_candidates
  run_listed-length current candidates limit (err e) w = omega arith
  run_listed-length current candidates limit (ok records) w =
      let start : Pass p d json read_dir v = record {
        report = Run.nothing;
        outcomes = [];
        problem = none;
        world = w;
      } in
      let (removals, finalized) = reconcile-kept p d json read_dir v current records start in
      let same = ap (λ xs. length xs) removals in
      let pass = Run.reconcile p d json read_dir v current records start in
      elim (Bool-cases (not (is_none pass.problem))) [
        | inl over ↦ rw over (omega (arith, same))
        | inr going ↦ rw going (
            finish_all-length current (length w.removals) limit (sort (λ e. e.queue_id) candidates)
              pass (λ fine. omega (arith, same, finalized)) (omega (arith, same)))
      ]

  -- A pass removes no more than its limit: whatever the service, the files and the clock answer, a pass
  -- makes at most `limit` calls that remove an entry, those that fail included.
  pub run-removals_le :
      (candidates : List Entry) (limit : ℕ) (w : World p d json read_dir v)
      → length (run p d json read_dir v candidates limit w).world.removals
        ≤ length w.removals + limit
  unfolding run Run.run_current
  run-removals_le candidates limit w = elim (Bool-cases (limit == 0)) [
    | inl zero ↦ rw zero (omega arith)
    | inr some_limit ↦ elim (Bool-cases (all_eligible p.trim candidates)) [
      | inl all ↦ rw (some_limit, all) (reading (v.read_queue w.env).0)
      | inr odd ↦ rw (some_limit, odd) (omega arith)
    ]
  ]
    where
      next : World p d json read_dir v
      next = record w { env = (v.read_queue w.env).1 }

      indexed :
          (entries : List Entry) (r : Result FinalizerError (List Entry))
          → by_id [] entries ≡ r
          → length
              (Run.run_current p d json read_dir v
                (ok entries)
                limit
                candidates
                next).world.removals
            ≤ length w.removals + limit
      indexed entries (err e) same = rw (same, Run.run_current) (omega arith)
      indexed entries (ok current) same =
          rw (same, Run.run_current)
            (run_listed-length current candidates limit (list_records p d json read_dir w.fs) next)

      reading :
          (r : Result FinalizerError (List Entry))
          → length (Run.run_current p d json read_dir v r limit candidates next).world.removals
            ≤ length w.removals + limit
      reading (err e) = omega arith
      reading (ok entries) = indexed entries (by_id [] entries) refl
