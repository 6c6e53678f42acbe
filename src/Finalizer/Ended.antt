-- ===== src/Finalizer/Ended.antt =====
-- How a pass over one candidate ends: its outcome and its calls (internal/queuefinalize/finalizer.go).
use nix.Base.{
  ℕ, ◌≡◌, refl, ap, subst, ◌∙◌, String, Bool, true, false, not, ◌||◌, Option, none, some, List, [],
  ◌∷◌, ltb, Result, ok, err, arith, Bool-cases, inl, inr, is_none, ==_refl,
}
use nix.Durable.{Disk, Json}
use nix.Repair.Removal.{Entry}
use nix.Finalizer.{FinalizerError, Record, Platform, sort, insert}
use nix.Finalizer.Run
use nix.Finalizer.Run.{
  Service, World, Pass, Done, Outcome, run, finalize, judged, answered, lookup, lookup_outcome,
  by_id, all_eligible, Report,
}
use nix.Base.{sym, Result, subst}
use nix.Finalizer.{prepare, complete}
use nix.Finalizer.Removals.{reconcile-kept, stored-removals}

module _ (p : Platform) (d : Disk FinalizerError) (json : Json FinalizerError Record d.Bytes)
    (read_dir : d.Fs → Result FinalizerError (List (String × Bool))) (v : Service) where
  -- The calls that remove an entry, the last first: one more of the candidate's identifier where it is
  -- finalized, and none otherwise.
  abbrev pub Calls : ℕ → Outcome → List (ℕ × d.Fs) → List (ℕ × d.Fs) → Type 0
  Calls id Outcome.finalized before removals = (s : d.Fs) × (removals ≡ (id, s) ∷ before)
  Calls id _ before removals = removals ≡ before

  abbrev pub Ended : ℕ → Outcome → List (ℕ × d.Fs) → Pass p d json read_dir v → Type 0
  Ended id o before pass =
      (lookup_outcome id pass.outcomes ≡ some o) × Calls id o before pass.world.removals

  after-eq-ok :
      (m : Done p d json read_dir v) (next : World p d json read_dir v → Done p d json read_dir v)
      {u : Unit {0}} {w' : World p d json read_dir v}
      → Run.after p d json read_dir v m next ≡ (ok u, w')
      → (w1 : World p d json read_dir v) × (m ≡ (ok tt, w1)) × (next w1 ≡ (ok u, w'))
  after-eq-ok (err e, w) next h = absurd (ground (arith, h))
  after-eq-ok (ok tt, w) next h = (w, refl, h)

  remove_recorded-Calls :
      (candidate : Entry) (w : World p d json read_dir v) {u : Unit {0}}
      {w' : World p d json read_dir v}
      → Run.remove_recorded p d json read_dir v candidate w ≡ (ok u, w')
      → (s : d.Fs) × (w'.removals ≡ (candidate.queue_id, s) ∷ w.removals)
  unfolding Run.remove_recorded
  remove_recorded-Calls candidate w h =
      let (w2, removed, completed) =
        after-eq-ok
          (Run.after p d json read_dir v (Run.stored p d json read_dir v preparing w)
            (Run.remove_call p d json read_dir v candidate.queue_id))
          (Run.stored p d json read_dir v completing) h in
      let (w1, recorded, called) =
        after-eq-ok (Run.stored p d json read_dir v preparing w)
          (Run.remove_call p d json read_dir v candidate.queue_id) {u = tt} {w' = w2} removed in
      (
        w1.fs,
        ap (λ m. m.1.removals) (sym completed)
            ∙ stored-removals p d json read_dir v completing w2
            ∙ ap (λ m. m.1.removals) (sym called)
            ∙ ap (λ rs. (candidate.queue_id, w1.fs) ∷ rs)
                (ap (λ m. m.1.removals) (sym recorded)
                  ∙ stored-removals p d json read_dir v preparing w),
      )
    where
      preparing : d.Fs → ℕ → Result FinalizerError d.Fs
      preparing s at = prepare p d json read_dir s candidate at

      completing : d.Fs → ℕ → Result FinalizerError d.Fs
      completing s at = complete p d json read_dir s candidate at

  finish_judged-Ended :
      (candidate : Entry) (o : Outcome) (pass : Pass p d json read_dir v)
      → (Run.finish_judged p d json read_dir v candidate o pass).problem ≡ none
      → Ended candidate.queue_id o pass.world.removals
          (Run.finish_judged p d json read_dir v candidate o pass)
  unfolding Run.finish_judged
  finish_judged-Ended candidate Outcome.already_absent pass h =
      (rw (==_refl candidate.queue_id), refl)
  finish_judged-Ended candidate Outcome.identity_changed pass h =
      (rw (==_refl candidate.queue_id), refl)
  finish_judged-Ended candidate Outcome.finalized pass h =
      go (Run.remove_recorded p d json read_dir v candidate pass.world)
        (λ u w' done. remove_recorded-Calls candidate pass.world done) h
    where
      go :
          (m : Done p d json read_dir v)
          → ((u : Unit {0}) (w' : World p d json read_dir v)
              → m ≡ (ok u, w')
              → (s : d.Fs) × (w'.removals ≡ (candidate.queue_id, s) ∷ pass.world.removals))
          → (Run.finalized_as p d json read_dir v candidate pass m).problem ≡ none
          → Ended candidate.queue_id Outcome.finalized pass.world.removals
              (Run.finalized_as p d json read_dir v candidate pass m)
      go (err e, w) called k = absurd (ground (arith, k))
      go (ok u, w) called k = (rw (==_refl candidate.queue_id), called u w refl)

  module _ (candidate : Entry) (current : List Entry) where
    abbrev expected : Outcome
    expected = judged p d json read_dir v candidate (lookup candidate.queue_id current)

    finish_all-Ended :
        (pass : Pass p d json read_dir v)
        → pass.problem ≡ none
        → pass.report.finalized ≡ 0
        → (Run.finish_all p d json read_dir v current 1 (candidate ∷ []) pass).problem ≡ none
        → Ended candidate.queue_id expected pass.world.removals
            (Run.finish_all p d json read_dir v current 1 (candidate ∷ []) pass)
    unfolding Run.finish_all Run.finish_one
    finish_all-Ended pass fine first h =
        rw going (finish_judged-Ended candidate expected pass (rw going at h))
      where
        going : (not (is_none pass.problem) || not (ltb pass.report.finalized 1)) ≡ false
        going = rw (fine, first)

    is_none-eq : (o : Option FinalizerError) → is_none o ≡ true → o ≡ none
    is_none-eq none h = refl
    is_none-eq (some e) h = cc

    finish_candidates-Ended :
        (pass : Pass p d json read_dir v)
        → pass.report.finalized ≡ 0
        → (Run.finish_candidates p d json read_dir v current 1 (candidate ∷ []) pass).problem ≡ none
        → Ended candidate.queue_id expected pass.world.removals
            (Run.finish_candidates p d json read_dir v current 1 (candidate ∷ []) pass)
    unfolding Run.finish_candidates sort insert
    finish_candidates-Ended pass first h = elim (Bool-cases (not (is_none pass.problem))) [
      | inl over ↦
          let kept : pass.problem ≡ none = rw over at h in
          absurd (ground (arith, over, ap (λ o. is_none o) kept))
      | inr going ↦
          let same : Run.finish_candidates p d json read_dir v current 1 (candidate ∷ []) pass
              ≡ Run.finish_all p d json read_dir v current 1 (candidate ∷ []) pass =
            rw going in
          let ended =
            finish_all-Ended pass (is_none-eq pass.problem (ground (arith, going))) first
              (subst (λ x. x.problem ≡ none) same h) in
          subst (λ x. Ended candidate.queue_id expected pass.world.removals x) (sym same) ended
    ]

    pub run_listed-Ended :
        (r : Result FinalizerError (List Record)) (w : World p d json read_dir v)
        → (Run.run_listed p d json read_dir v current 1 (candidate ∷ []) r w).problem ≡ none
        → Ended candidate.queue_id expected w.removals
            (Run.run_listed p d json read_dir v current 1 (candidate ∷ []) r w)
    unfolding Run.run_listed
    run_listed-Ended (err e) w h = cc
    run_listed-Ended (ok records) w h =
        let start : Pass p d json read_dir v = record {
          report = Run.nothing;
          outcomes = [];
          problem = none;
          world = w;
        } in
        let (untouched, first) = reconcile-kept p d json read_dir v current records start in
        subst
          (λ rs.
            Ended candidate.queue_id expected rs
              (Run.run_listed p d json read_dir v current 1 (candidate ∷ []) (ok records) w))
          untouched
          (finish_candidates-Ended (Run.reconcile p d json read_dir v current records start) first
            h)
