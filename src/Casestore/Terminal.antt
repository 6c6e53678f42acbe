-- ===== src/Casestore/Terminal.antt =====
-- The states of a manual import's record (internal/casestore/execution.go) and what ends it.
use nix.Base.{ℤ, ◌≡◌, refl, ok, err, Result, Bool, true, false, List, [], ◌∷◌, arith, ap, ◌∙◌}
use nix.Casestore.Execution.{
  Error, Execution, Authorized, Confirmation, State, request, confirm, fail,
}

-- A change that `updateManualImportExecution` is asked for.
pub data Change : Type 0 where
  requesting : ℤ → Change
  confirming : Authorized → Confirmation → Change
  failing : Change

unfoldable pub change : Change → Execution → Result Error (Execution × Bool)
unfolding request confirm fail
change (requesting id) r = request id r
change (confirming a c) r = confirm a c r
change failing r = fail r

abbrev pub is_terminal : State → Bool
is_terminal State.imported = true
is_terminal State.failed = true
is_terminal _ = false

change-terminal :
    (c : Change) (r : Execution) {next : Execution} {changed : Bool}
    → is_terminal r.state ≡ true
    → change c r ≡ ok (next, changed)
    → next ≡ r
unfolding change request confirm fail
change-terminal (requesting id) r over h = ground arith
change-terminal (confirming a c) r over h = ground arith
change-terminal failing r over h = ground arith

-- Changes one after the other, each on what the last one left; a refused change leaves the record.
abbrev pub after : Execution → Result Error (Execution × Bool) → Execution
after r (ok (next, changed)) = next
after r (err e) = r

unfoldable pub after_changes : List Change → Execution → Execution
after_changes [] r = r
after_changes (c ∷ cs) r = after_changes cs (after r (change c r))

after-terminal :
    (r : Execution) (m : Result Error (Execution × Bool))
    → ((next : Execution) (changed : Bool) → m ≡ ok (next, changed) → next ≡ r)
    → after r m ≡ r
after-terminal r (ok (next, changed)) same = same next changed refl
after-terminal r (err e) same = refl

-- An import that ended stays as it ended: once its record says imported or failed, no sequence of
-- requests, confirmations and failures changes the record, whatever each of them answers.
pub after_changes-terminal :
    (cs : List Change) (r : Execution) → is_terminal r.state ≡ true → after_changes cs r ≡ r
unfolding after_changes
after_changes-terminal [] r over = refl
after_changes-terminal (c ∷ cs) r over =
    let same : after r (change c r) ≡ r =
      after-terminal r (change c r) (λ next changed h. change-terminal c r over h) in
    ap (after_changes cs) same ∙ after_changes-terminal cs r over
