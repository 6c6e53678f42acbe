-- ===== src/Jobs/Planning/Rebinding.antt =====
-- The queue rows of jobs after `ReconcileQueue` (internal/jobs/planning.go).
use nix.Base.{
  ℕ, ◌≡◌, ◌≢◌, refl, sym, some, none, List, [], ◌∷◌, ok, get_elem?, map, get_elem?-map, Option,
  true, arith, >>=-eq-ok, ◌∙◌, ap, inl, inr, ◌⊎◌, Bool-cases, ==_iff, ==_refl, eq_iff, eq_refl, ◌+◌,
  suc, zero,
}
use nix.Jobs.Model.{Job}
use nix.Jobs.Queue.{QueueKey, queue_key, match_queue, same_key}
use nix.Jobs.Queue.Match.{
  match_queue_lem, match_queue-in_range, exact_index, exact_index_lem, Follows,
}
use nix.Jobs.Planning.{reconciled, rebind, owned_by, rebound, departed, follow_queue}

same_key-eq : (a b : QueueKey) → same_key a b ≡ true → a ≡ b
same_key-eq a b h =
    ground (arith, h, (==_iff a.queue_id b.queue_id).0, (eq_iff a.download_id b.download_id).0)

same_key_refl : (a : QueueKey) → same_key a a ≡ true
same_key_refl a = rw (==_refl a.queue_id, eq_refl a.download_id)

-- A key that is in a list has an exact match there.
exact_index-found :
    (wanted : QueueKey) (cs : List QueueKey) (start j : ℕ)
    → get_elem? cs j ≡ some wanted
    → (o : ℕ) × (exact_index wanted cs start ≡ some o)
exact_index-found wanted [] start j h = cc
exact_index-found wanted (c ∷ rest) start zero h =
    let equal : c ≡ wanted = ground (arith, h) in
    (start, rw (ap (λ x. same_key x wanted) equal ∙ same_key_refl wanted))
exact_index-found wanted (c ∷ rest) start (suc j) h = elim (Bool-cases (same_key c wanted)) [
  | inl same ↦ (start, rw same)
  | inr differ ↦
      let (o, found) = exact_index-found wanted rest (start + 1) j h in (o, rw differ found)
]

-- `MatchQueue` of a key that is in the list answers an index of that key.
match_queue-own :
    (wanted : QueueKey) (cs : List QueueKey) (j i : ℕ)
    → get_elem? cs j ≡ some wanted
    → match_queue wanted cs ≡ ok (some i)
    → get_elem? cs i ≡ some wanted
match_queue-own wanted cs j i h found =
    let (o, exact) = exact_index-found wanted cs 0 j h in
    let same : o ≡ i = ground (arith, match_queue_lem wanted cs, exact, found) in
    let (k, c, at, here, equal) = exact_index_lem wanted cs 0 o exact in
    let index : k ≡ i = ground (arith, at, same) in
    ap (λ n. get_elem? cs n) (sym index) ∙ here ∙ ap (λ x. some x) (same_key-eq c wanted equal)

-- The job after a round.
abbrev pub after : Job → Option Job → Job
after job none = job
after job (some next) = next

-- A round leaves a job its key, or gives it that of a row that leads back to the job.
abbrev IsMoved : List QueueKey → ℕ → Job → Job → Type 0
IsMoved previous index job next =
    (queue_key next ≡ queue_key job) ⊎ (match_queue (queue_key next) previous ≡ ok (some index))

Follows-download : (wanted c : QueueKey) → Follows wanted c → c.download_id ≡ wanted.download_id
Follows-download wanted c (inl same) = ap (λ k. k.download_id) (same_key-eq c wanted same)
Follows-download wanted c (inr same) =
    (eq_iff c.download_id wanted.download_id).0 (ground (arith, same))

rebound-queue_key :
    (job : Job) (key : QueueKey)
    → key.download_id ≡ job.download_id
    → queue_key (rebound job key) ≡ key
rebound-queue_key job key same = ground (arith, same)

departed-queue_key : (job : Job) (at : ℕ) → queue_key (departed job at) ≡ queue_key job
departed-queue_key job at = ground arith

owned-eq : (owner : Option ℕ) (index : ℕ) → owned_by owner index ≡ true → owner ≡ some index
owned-eq none index h = cc
owned-eq (some k) index h = ground arith

rebind-IsMoved :
    (previous : List QueueKey) (index : ℕ) (job : Job) (key : QueueKey) (change : Option Job)
    → key.download_id ≡ job.download_id
    → rebind previous index job (some key) ≡ ok change
    → IsMoved previous index job (after job change)
rebind-IsMoved previous index job key none same h = inl refl
rebind-IsMoved previous index job key (some next) same h =
    let (owner, found, h1) = >>=-eq-ok (match_queue key previous) _ h in
    let owns = owned-eq owner index (ground (arith, h1)) in
    let is_next : rebound job key ≡ next = ground (arith, h1) in
    let named = ap (λ x. queue_key x) (sym is_next) ∙ rebound-queue_key job key same in
    inr (ap (λ k. match_queue k previous) named ∙ found ∙ ap (λ o. ok o) owns)

follow_queue-IsMoved :
    (present previous : List QueueKey) (at index : ℕ) (job : Job) (matched : Option ℕ)
    (change : Option Job)
    → match_queue (queue_key job) present ≡ ok matched
    → follow_queue present previous at index job matched ≡ ok change
    → IsMoved previous index job (after job change)
follow_queue-IsMoved present previous at index job none none found h = inl refl
follow_queue-IsMoved present previous at index job none (some next) found h =
    let is_next : departed job at ≡ next = ground (arith, h) in
    inl (ap (λ x. queue_key x) (sym is_next) ∙ departed-queue_key job at)
follow_queue-IsMoved present previous at index job (some k) change found h =
    let (key, row, follows) = match_queue-in_range (queue_key job) present k found in
    rebind-IsMoved previous index job key change (Follows-download (queue_key job) key follows)
      (rw row at h)

reconciled-IsMoved :
    (present previous : List QueueKey) (at index : ℕ) (job : Job) {change : Option Job}
    → reconciled present previous at index job ≡ ok change
    → IsMoved previous index job (after job change)
unfolding reconciled
reconciled-IsMoved present previous at index job {change} h =
    let (matched, found, h1) = >>=-eq-ok (match_queue (queue_key job) present) _ h in
    follow_queue-IsMoved present previous at index job matched change found h1

-- A row that leads to one job is not another's.
apart :
    (previous : List QueueKey) (i j : ℕ) (a : QueueKey) (key : QueueKey)
    → get_elem? previous i ≡ some a
    → get_elem? previous j ≡ some key
    → match_queue key previous ≡ ok (some i)
    → a ≡ key
apart previous i j a key here there found =
    let own = match_queue-own key previous j i there found in ground (arith, own, here)

moved-apart :
    (previous : List QueueKey) (i j : ℕ) (a b a' b' : Job)
    → get_elem? previous i ≡ some (queue_key a)
    → get_elem? previous j ≡ some (queue_key b)
    → i ≢ j
    → queue_key a ≢ queue_key b
    → IsMoved previous i a a'
    → IsMoved previous j b b'
    → queue_key a' ≢ queue_key b'
moved-apart previous i j a b a' b' here there differ keys (inl ka) (inl kb) same =
    keys (sym ka ∙ same ∙ kb)
moved-apart previous i j a b a' b' here there differ keys (inr fa) (inl kb) same =
    let of_b = same ∙ kb in
    let found = ap (λ k. match_queue k previous) (sym of_b) ∙ fa in
    keys (apart previous i j (queue_key a) (queue_key b) here there found)
moved-apart previous i j a b a' b' here there differ keys (inl ka) (inr fb) same =
    let of_a = sym same ∙ ka in
    let found = ap (λ k. match_queue k previous) (sym of_a) ∙ fb in
    keys (sym (apart previous j i (queue_key b) (queue_key a) there here found))
moved-apart previous i j a b a' b' here there differ keys (inr fa) (inr fb) same =
    let both = sym fa ∙ ap (λ k. match_queue k previous) same ∙ fb in differ (ground (arith, both))

-- Following the queue never merges two jobs: where two of the listed jobs have different keys, each of
-- them a queue entry's identifier and a download, and the rounds of `ReconcileQueue` for both succeed,
-- the two jobs have different keys afterwards, whether a round moved a job to another row, marked it as
-- gone or left it as it was.
pub reconciled-distinct :
    (jobs : List Job) (present : List QueueKey) (at i j : ℕ) (a b : Job) {x y : Option Job}
    → get_elem? jobs i ≡ some a
    → get_elem? jobs j ≡ some b
    → i ≢ j
    → queue_key a ≢ queue_key b
    → reconciled present (map queue_key jobs) at i a ≡ ok x
    → reconciled present (map queue_key jobs) at j b ≡ ok y
    → queue_key (after a x) ≢ queue_key (after b y)
reconciled-distinct jobs present at i j a b {x} {y} here there differ keys ha hb =
    moved-apart (map queue_key jobs) i j a b (after a x) (after b y)
      (get_elem?-map queue_key jobs i here) (get_elem?-map queue_key jobs j there) differ keys
      (reconciled-IsMoved present (map queue_key jobs) at i a ha)
      (reconciled-IsMoved present (map queue_key jobs) at j b hb)
