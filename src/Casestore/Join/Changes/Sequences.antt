-- ===== src/Casestore/Join/Changes/Sequences.antt =====
-- Changes of a join's record, one after the other (internal/casestore/join_execution.go).
use nix.Base.{
  ℕ, ◌+◌, ◌≤◌, ◌≡◌, refl, ap, Bool, true, false, not, List, [], ◌∷◌, Result, ok, err, arith,
  if◌then◌else◌, Bool-cases, inl, inr, ◌||◌,
}
use nix.Casestore.Join.{JoinError, JoinState, JoinPlatform, JoinExecution}
use nix.Casestore.Join.Changes.{Change, change}
use nix.Casestore.Join.Changes.Steps.{change-IsStep}
use nix.Casestore.Join.Changes.Progress.{rank, rank-le, is_published, is_clean, IsStep}

module _ (p : JoinPlatform) where
  -- A refused change leaves the record.
  abbrev pub after : JoinExecution p → Result JoinError (JoinExecution p × Bool) → JoinExecution p
  after r (ok (next, changed)) = next
  after r (err e) = r

  abbrev pub count : Result JoinError (JoinExecution p × Bool) → ℕ
  count (ok (next, changed)) = if changed then 1 else 0
  count (err e) = 0

  pub after_changes : List (Change p) → JoinExecution p → JoinExecution p
  after_changes [] r = r
  after_changes (c ∷ cs) r = after_changes cs (after r (change p c r))

  -- How many of the changes change the record.
  pub changes : List (Change p) → JoinExecution p → ℕ
  changes [] r = 0
  changes (c ∷ cs) r = count (change p c r) + changes cs (after r (change p c r))

  count-rank :
      (r : JoinExecution p) (m : Result JoinError (JoinExecution p × Bool))
      → ((next : JoinExecution p) (changed : Bool)
          → m ≡ ok (next, changed)
          → IsStep p r next changed)
      → count m + rank r.state ≤ rank (after r m).state
  count-rank r (err e) steps = omega arith
  count-rank r (ok (next, true)) steps = omega (arith, (steps next true refl).on refl)
  count-rank r (ok (next, false)) steps =
      omega (arith, ap (λ x. rank x.state) ((steps next false refl).same refl))

  -- A join comes to an end: in any sequence of results, however often they are recorded and whatever they
  -- say, at most five change the record of a prepared join, and fewer the further the join is.
  pub changes-le : (cs : List (Change p)) (r : JoinExecution p) → changes cs r + rank r.state ≤ 5
  unfolding changes
  changes-le [] r = omega (arith, rank-le r.state)
  changes-le (c ∷ cs) r =
      let moved = count-rank r (change p c r) (λ next changed h. change-IsStep p c r h) in
      let rest = changes-le cs (after r (change p c r)) in omega (arith, moved, rest)

  -- A record that is to be published, is published or has an import had nothing to reject.
  abbrev pub is_verified : JoinExecution p → Bool
  is_verified r = not (is_published r.state) || is_clean r.stage

  after-verified :
      (r : JoinExecution p) (m : Result JoinError (JoinExecution p × Bool))
      → ((next : JoinExecution p) (changed : Bool)
          → m ≡ ok (next, changed)
          → IsStep p r next changed)
      → is_verified r ≡ true
      → is_verified (after r m) ≡ true
  after-verified r (err e) steps h = h
  after-verified r (ok (next, changed)) steps h =
      let step = steps next changed refl in
      elim (Bool-cases (is_published next.state)) [
        | inl out ↦ ground (arith, out, h, step.clean (λ e. ground (arith, h, e)) out)
        | inr kept ↦ ground (arith, kept)
      ]

  -- Only a verified file is published and imported: from a prepared join, after any sequence of results, a
  -- record that is to be published, is published or has an import holds the verification of its file, which
  -- found nothing to reject.
  pub after_changes-verified :
      (cs : List (Change p)) (r : JoinExecution p)
      → r.state ≡ JoinState.join_prepared
      → is_verified (after_changes cs r) ≡ true
  unfolding after_changes
  after_changes-verified cs r prepared = all cs r (ground (arith, prepared))
    where
      all :
          (todo : List (Change p)) (now : JoinExecution p)
          → is_verified now ≡ true
          → is_verified (after_changes todo now) ≡ true
      all [] now h = h
      all (c ∷ more) now h =
          all more (after now (change p c now))
            (after-verified now (change p c now) (λ next changed k. change-IsStep p c now k) h)
