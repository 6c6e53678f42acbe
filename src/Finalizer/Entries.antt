-- ===== src/Finalizer/Entries.antt =====
-- Entries in lists: what the sort, the index by identifier and the lookup keep (internal/queuefinalize).
use nix.Base.{
  ℕ, ◌≡◌, subst, Bool, true, false, not, ◌||◌, some, List, [], ◌∷◌, All, All-map, ltb, ◌==◌,
  ==_refl, ==_iff, eq_iff, eq_refl, is_none, ok, reject-eq-ok, arith, Bool-cases, inl, inr,
  get_elem?, ap, suc, none, sym, ◌∙◌, refl, sym, ap, ◌∙◌, ℕ, get_elem?, suc, none,
}
use nix.Repair.Removal.{Entry}
use nix.Finalizer.{same_entry, insert, sort, invalid_queue, duplicate_id}
use nix.Finalizer.Run.{lookup, by_id}

pub same_entry-eq : (a b : Entry) → same_entry a b ≡ true → a ≡ b
unfolding same_entry
same_entry-eq a b h = ground (
  arith,
  h,
  (eq_iff a.download_id b.download_id).0,
  (eq_iff a.status b.status).0,
  (eq_iff a.tracked_download_status b.tracked_download_status).0,
  (==_iff a.queue_id b.queue_id).0,
  (==_iff a.subject_id b.subject_id).0,
)

pub same_entry_refl : (a : Entry) → same_entry a a ≡ true
unfolding same_entry
same_entry_refl a = rw (
  ==_refl a.queue_id,
  eq_refl a.download_id,
  ==_refl a.subject_id,
  eq_refl a.status,
  eq_refl a.tracked_download_status,
)

abbrev pub contains : Entry → List Entry → Bool
contains entry [] = false
contains entry (x ∷ xs) = same_entry x entry || contains entry xs

pub All-contains : (xs : List Entry) → All (λ e. contains e xs ≡ true) xs
All-contains [] = tt
All-contains (x ∷ xs) = (
  ground (arith, same_entry_refl x),
  All-map (λ e. contains e xs ≡ true) (λ e. contains e (x ∷ xs) ≡ true) xs
      (λ e h. ground (arith, h)) (All-contains xs),
)

module _ {ℓ κ} {A : Type ℓ} (id : A → ℕ) (P : A → Type κ) where
  All-insert : (x : A) (xs : List A) → P x → All P xs → All P (insert id x xs)
  unfolding insert
  All-insert x [] p h = (p, tt)
  All-insert x (y ∷ ys) p h = elim (Bool-cases (ltb (id y) (id x))) [
    | inl later ↦ rw later (h.0, All-insert x ys p h.1)
    | inr earlier ↦ rw earlier (p, h)
  ]

  pub All-sort : (xs : List A) → All P xs → All P (sort id xs)
  unfolding sort
  All-sort [] h = tt
  All-sort (x ∷ xs) h = All-insert x (sort id xs) h.0 (All-sort xs h.1)

pub by_id-All {κ} :
    (P : Entry → Type κ) (seen entries : List Entry) {current : List Entry}
    → All P seen
    → All P entries
    → by_id seen entries ≡ ok current
    → All P current
unfolding by_id
by_id-All P seen [] h k e = subst (All P) (ground (arith, e)) h
by_id-All P seen (x ∷ xs) h k e =
    let (positive, e1) = reject-eq-ok (x.queue_id == 0) invalid_queue _ e in
    let (fresh, e2) =
      reject-eq-ok (not (is_none (lookup x.queue_id seen))) (duplicate_id x.queue_id) _ e1 in
    by_id-All P (x ∷ seen) xs (k.0, h) k.1 e2

pub lookup-All {κ} :
    (P : Entry → Type κ) (id : ℕ) (current : List Entry) {entry : Entry}
    → All P current
    → lookup id current ≡ some entry
    → P entry
lookup-All P id [] h e = cc
lookup-All P id (x ∷ xs) h e = elim (Bool-cases (x.queue_id == id)) [
  | inl same ↦ subst P (ground (arith, rw same at e)) h.0
  | inr other ↦ lookup-All P id xs h.1 (rw other at e)
]

-- What every indexed entry has, every entry of the queue has.
pub by_id-All_back {κ} :
    (P : Entry → Type κ) (seen entries : List Entry) {current : List Entry}
    → by_id seen entries ≡ ok current
    → All P current
    → All P seen × All P entries
unfolding by_id
by_id-All_back P seen [] e h = (subst (All P) (ground (arith, e)) h, tt)
by_id-All_back P seen (x ∷ xs) e h =
    let (positive, e1) = reject-eq-ok (x.queue_id == 0) invalid_queue _ e in
    let (fresh, e2) =
      reject-eq-ok (not (is_none (lookup x.queue_id seen))) (duplicate_id x.queue_id) _ e1 in
    let (before, rest) = by_id-All_back P (x ∷ seen) xs e2 h in (before.1, (before.0, rest))

pub lookup-none :
    (id : ℕ) (current : List Entry)
    → lookup id current ≡ none
    → All (λ e. (e.queue_id == id) ≡ false) current
lookup-none id [] e = tt
lookup-none id (x ∷ xs) e = elim (Bool-cases (x.queue_id == id)) [
  | inl same ↦ absurd (ground (arith, rw same at e))
  | inr other ↦ (other, lookup-none id xs (rw other at e))
]

pub lookup-queue_id :
    (id : ℕ) (current : List Entry) {entry : Entry}
    → lookup id current ≡ some entry
    → entry.queue_id ≡ id
lookup-queue_id id [] e = cc
lookup-queue_id id (x ∷ xs) {entry} e = elim (Bool-cases (x.queue_id == id)) [
  | inl same ↦
      let found : x ≡ entry = ground (arith, rw same at e) in
      ap (λ y. y.queue_id) (sym found) ∙ (==_iff x.queue_id id).0 same
  | inr other ↦ lookup-queue_id id xs (rw other at e)
]

-- The place of an entry in a list.
abbrev pub IsListed : List Entry → Entry → Type 0
IsListed entries entry = (i : ℕ) × (get_elem? entries i ≡ some entry)

pub All-IsListed : (entries : List Entry) → All (IsListed entries) entries
All-IsListed [] = tt
All-IsListed (x ∷ xs) = (
  (0, refl),
  All-map (IsListed xs) (IsListed (x ∷ xs)) xs (λ e h. (suc h.0, h.1)) (All-IsListed xs),
)
