-- ===== src/Casestore/Confirming.antt =====
-- Whose confirmation a manual import's record takes (internal/casestore/execution.go).
use nix.Base.{
  ℕ, ℤ, pos, negsuc, same_int, leb_int, ◌≡◌, refl, sym, ap, ◌∙◌, ok, err, Result, Bool, true, false,
  none, some, List, [], ◌∷◌, suc, get_elem?, arith, eq_iff, ==_iff, Bool-cases, inl, inr, ◌⊎◌,
}
use nix.Casestore.Execution.{
  Error, Execution, Authorized, Confirmation, State, Fingerprint, request, confirm, fail,
  same_import, same_fingerprint,
}
use nix.Casestore.Terminal.{
  Change, change, after, after_changes, after_changes-terminal, is_terminal,
}

same_int-eq : (a b : ℤ) → same_int a b ≡ true → a ≡ b
same_int-eq (pos m) (pos n) h = ap pos ((==_iff m n).0 h)
same_int-eq (negsuc m) (negsuc n) h = ap negsuc ((==_iff m n).0 h)
same_int-eq (pos m) (negsuc n) h = cc
same_int-eq (negsuc m) (pos n) h = cc

same_fingerprint-eq : (a b : Fingerprint) → same_fingerprint a b ≡ true → a ≡ b
same_fingerprint-eq a b h = ground (
  arith,
  h,
  (==_iff a.device b.device).0,
  (==_iff a.inode b.inode).0,
  same_int-eq a.size_bytes b.size_bytes,
  same_int-eq a.modified b.modified,
)

-- The authorized import that a record is of.
pub record IsOf (a : Authorized) (r : Execution) : Type 0 where
  pub case : a.case_id ≡ r.case_id
  pub capability : a.capability_id ≡ r.capability_id
  pub file : a.file_id ≡ r.file_id
  pub fingerprint : a.expected_fingerprint ≡ r.expected_fingerprint

same_import-IsOf : (r : Execution) (a : Authorized) → same_import r a ≡ true → IsOf a r
unfolding same_import
same_import-IsOf r a h = record {
  case = sym ((eq_iff r.case_id a.case_id).0 (ground (arith, h)));
  capability = sym ((eq_iff r.capability_id a.capability_id).0 (ground (arith, h)));
  file = sym ((eq_iff r.file_id a.file_id).0 (ground (arith, h)));
  fingerprint =
      sym (same_fingerprint-eq r.expected_fingerprint a.expected_fingerprint (ground (arith, h)));
}

-- A record that says the same of its import.
pub record IsSameImport (r next : Execution) : Type 0 where
  pub case : next.case_id ≡ r.case_id
  pub capability : next.capability_id ≡ r.capability_id
  pub file : next.file_id ≡ r.file_id
  pub fingerprint : next.expected_fingerprint ≡ r.expected_fingerprint
  pub before : next.history_id_before ≡ r.history_id_before

-- What a change does to a record without a confirmation: it gives it none, or it is the confirmation of
-- the record's own import, of a later event than those before the import.
pub record IsConfirming (c : Change) (r next : Execution) (confirmation : Confirmation)
    : Type 0 where
  pub authorized : Authorized
  pub asked : c ≡ Change.confirming authorized confirmation
  pub own : IsOf authorized r
  pub later : leb_int confirmation.history_id r.history_id_before ≡ false
  pub ended : next.state ≡ State.imported
  pub taken : next.confirmation ≡ some confirmation

request-IsSameImport :
    (id : ℤ) (r : Execution) {next : Execution} {changed : Bool}
    → request id r ≡ ok (next, changed)
    → IsSameImport r next × (next.confirmation ≡ r.confirmation)
unfolding request
request-IsSameImport id r h = (
  record {
    case = ground (arith, h);
    capability = ground (arith, h);
    file = ground (arith, h);
    fingerprint = ground (arith, h);
    before = ground (arith, h);
  },
  ground (arith, h),
)

fail-IsSameImport :
    (r : Execution) {next : Execution} {changed : Bool}
    → fail r ≡ ok (next, changed)
    → IsSameImport r next × (next.confirmation ≡ r.confirmation)
unfolding fail
fail-IsSameImport r h = (
  record {
    case = ground (arith, h);
    capability = ground (arith, h);
    file = ground (arith, h);
    fingerprint = ground (arith, h);
    before = ground (arith, h);
  },
  ground (arith, h),
)

confirm-IsConfirming :
    (a : Authorized) (c : Confirmation) (r : Execution) {next : Execution} {changed : Bool}
    → r.confirmation ≡ none
    → confirm a c r ≡ ok (next, changed)
    → IsConfirming (Change.confirming a c) r next c
unfolding confirm
confirm-IsConfirming a c r fresh h = elim (Bool-cases (same_import r a)) [
  | inr other ↦ absurd (ground (arith, rw other at h))
  | inl own ↦ record {
    authorized = a;
    asked = refl;
    own = same_import-IsOf r a own;
    later = ground (arith, rw own at h, fresh);
    ended = ground (arith, rw own at h, fresh);
    taken = ground (arith, rw own at h, fresh);
  }
]

change-IsConfirming :
    (x : Change) (r : Execution) {next : Execution} {changed : Bool}
    → r.confirmation ≡ none
    → change x r ≡ ok (next, changed)
    → (IsSameImport r next × (next.confirmation ≡ none))
      ⊎ ((c : Confirmation) × IsConfirming x r next c)
unfolding change
change-IsConfirming (Change.requesting id) r fresh h =
    let (same, kept) = request-IsSameImport id r h in inl (same, kept ∙ fresh)
change-IsConfirming (Change.confirming a c) r fresh h = inr (c, confirm-IsConfirming a c r fresh h)
change-IsConfirming Change.failing r fresh h =
    let (same, kept) = fail-IsSameImport r h in inl (same, kept ∙ fresh)

-- The change among those asked for that a record's confirmation came with.
pub record IsConfirmed (cs : List Change) (r : Execution) (c : Confirmation) : Type 0 where
  pub at : ℕ
  pub authorized : Authorized
  pub asked : get_elem? cs at ≡ some (Change.confirming authorized c)
  pub own : IsOf authorized r
  pub later : leb_int c.history_id r.history_id_before ≡ false

IsConfirmed-first :
    (x : Change) (cs : List Change) (r next : Execution) (c d : Confirmation)
    → IsConfirming x r next c
    → (after_changes cs next).confirmation ≡ some d
    → IsConfirmed (x ∷ cs) r d
IsConfirmed-first x cs r next c d is held =
    let over : is_terminal next.state ≡ true = ap is_terminal is.ended in
    let kept = after_changes-terminal cs next over in
    let same : c ≡ d = ground (arith, held, kept, is.taken) in
    record {
      at = 0;
      authorized = is.authorized;
      asked = ground (arith, is.asked, same);
      own = is.own;
      later = ap (λ e. leb_int e.history_id r.history_id_before) (sym same) ∙ is.later;
    }

IsConfirmed-later :
    (x : Change) (cs : List Change) (r next : Execution) (c : Confirmation)
    → IsSameImport r next
    → IsConfirmed cs next c
    → IsConfirmed (x ∷ cs) r c
IsConfirmed-later x cs r next c same is = record {
  at = suc is.at;
  authorized = is.authorized;
  asked = is.asked;
  own = record {
    case = is.own.case ∙ same.case;
    capability = is.own.capability ∙ same.capability;
    file = is.own.file ∙ same.file;
    fingerprint = is.own.fingerprint ∙ same.fingerprint;
  };
  later = ap (λ e. leb_int c.history_id e) (sym same.before) ∙ is.later;
}

-- A record without a confirmation gets one only of its own import: whatever requests, confirmations and
-- failures it is asked for, in any order and whatever each of them answers, the confirmation that it has
-- afterwards came with one of the confirmations asked for, which was for an import of the record's own
-- case, capability, file and fingerprint, and whose event is later than the history before the import.
pub after_changes-IsConfirmed :
    (cs : List Change) (r : Execution) {c : Confirmation}
    → r.confirmation ≡ none
    → (after_changes cs r).confirmation ≡ some c
    → IsConfirmed cs r c
unfolding after_changes
after_changes-IsConfirmed [] r fresh held = absurd (ground (arith, fresh, held))
after_changes-IsConfirmed (x ∷ cs) r {c} fresh held =
    go (λ next d fresh' ends. after_changes-IsConfirmed cs next {c = d} fresh' ends) (change x r)
      refl held
  where
    go :
        ((next : Execution) (d : Confirmation)
          → next.confirmation ≡ none
          → (after_changes cs next).confirmation ≡ some d
          → IsConfirmed cs next d)
        → (m : Result Error (Execution × Bool)) → change x r ≡ m
        → (after_changes cs (after r m)).confirmation ≡ some c
        → IsConfirmed (x ∷ cs) r c
    go rest (err e) was ends =
        IsConfirmed-later x cs r r c
          (record {
            case = refl;
            capability = refl;
            file = refl;
            fingerprint = refl;
            before = refl;
          })
          (rest r c fresh ends)
    go rest (ok (next, changed)) was ends = elim (change-IsConfirming x r fresh was) [
      | inl (same, none_yet) ↦ IsConfirmed-later x cs r next c same (rest next c none_yet ends)
      | inr (d, is) ↦ IsConfirmed-first x cs r next d c is ends
    ]
