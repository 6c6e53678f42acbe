-- ===== src/Jobs/Queue/Match.antt =====
-- What `MatchQueue` of pkgs/media-repair/internal/jobs/queue.go finds: the reference search, and the
-- range of the index it returns.
use nix.Base.{
  ℕ, suc, ◌+◌, ◌<◌, ◌≡◌, refl, ◌⊎◌, inl, inr, true, Option, none, some, List, [], ◌∷◌, arith, ltb,
  get_elem?, Result, ok, err, Bool-cases, Option-cases, if◌then◌else◌,
}
use nix.Jobs.Model.{Error, ambiguous_queue}
use nix.Jobs.Queue.{QueueKey, same_key, same_download, scan_queue, match_queue}

-- The first index, from a start, of a candidate equal to the wanted key.
abbrev pub exact_index : QueueKey → List QueueKey → ℕ → Option ℕ
exact_index wanted [] index = none
exact_index wanted (candidate ∷ rest) index =
    if same_key candidate wanted then some index else exact_index wanted rest (index + 1)

-- The indices, from a start, of the candidates with the wanted download.
abbrev pub download_indices : QueueKey → List QueueKey → ℕ → List ℕ
download_indices wanted [] index = []
download_indices wanted (candidate ∷ rest) index =
    let more = download_indices wanted rest (index + 1) in
    if same_download wanted candidate then index ∷ more else more

-- A single candidate is followed, several are an error.
abbrev pub only : List ℕ → Result Error (Option ℕ)
only [] = ok none
only (i ∷ []) = ok (some i)
only (i ∷ j ∷ rest) = err ambiguous_queue

abbrev pub prefer : Option ℕ → Result Error (Option ℕ) → Result Error (Option ℕ)
prefer (some i) other = ok (some i)
prefer none other = other

-- The end of the loop, after more download matches.
settle : Option ℕ → ℕ → List ℕ → Result Error (Option ℕ)
settle found count [] = if ltb 1 count then err ambiguous_queue else ok found
settle found count (i ∷ rest) = settle (some i) (count + 1) rest

settle_many :
    (found : Option ℕ) (count : ℕ) (is : List ℕ)
    → 1 < count
    → settle found count is ≡ err ambiguous_queue
unfolding settle
settle_many found count [] h = ground arith
settle_many found count (i ∷ rest) h = settle_many (some i) (count + 1) rest (omega arith)

settle-eq-only : (is : List ℕ) → settle none 0 is ≡ only is
unfolding settle
settle-eq-only [] = refl
settle-eq-only (i ∷ []) = refl
settle-eq-only (i ∷ j ∷ rest) = settle_many (some j) 2 rest (omega arith)

scan_queue_lem :
    (wanted : QueueKey) (cs : List QueueKey) (index : ℕ) (found : Option ℕ) (count : ℕ)
    → scan_queue wanted cs index found count
      ≡ prefer (exact_index wanted cs index) (settle found count (download_indices wanted cs index))
unfolding scan_queue settle
scan_queue_lem wanted [] index found count = refl
scan_queue_lem wanted (c ∷ rest) index found count = ground (
  arith,
  scan_queue_lem wanted rest (index + 1) (some index) (count + 1),
  scan_queue_lem wanted rest (index + 1) found count,
)

-- `MatchQueue` returns the first candidate that equals the wanted key, whatever else matches;
-- without one it returns the only candidate of the same download, nothing if there is none, and an
-- error if there are several.
pub match_queue_lem :
    (wanted : QueueKey) (candidates : List QueueKey)
    → match_queue wanted candidates
      ≡ prefer (exact_index wanted candidates 0) (only (download_indices wanted candidates 0))
unfolding match_queue
match_queue_lem wanted candidates = ground (
  arith,
  scan_queue_lem wanted candidates 0 none 0,
  settle-eq-only (download_indices wanted candidates 0),
)

-- The candidate that a returned index points to.
abbrev pub Follows : QueueKey → QueueKey → Type 0
Follows wanted c = (same_key c wanted ≡ true) ⊎ (same_download wanted c ≡ true)

pub exact_index_lem :
    (wanted : QueueKey) (cs : List QueueKey) (start i : ℕ)
    → exact_index wanted cs start ≡ some i
    → (k : ℕ) × (c : QueueKey) × (i ≡ start + k)
      × (get_elem? cs k ≡ some c)
      × (same_key c wanted ≡ true)
exact_index_lem wanted [] start i h = cc
exact_index_lem wanted (c ∷ rest) start i h = elim (Bool-cases (same_key c wanted)) [
  | inl e ↦ (0, c, ground (arith, e), refl, e)
  | inr e ↦
      let (k, d, p, q, r) = exact_index_lem wanted rest (start + 1) i (ground arith) in
      (suc k, d, omega arith, q, r)
]

only_index :
    (wanted : QueueKey) (cs : List QueueKey) (start i : ℕ) (rest : List ℕ)
    → download_indices wanted cs start ≡ i ∷ rest
    → (k : ℕ) × (c : QueueKey) × (i ≡ start + k)
      × (get_elem? cs k ≡ some c)
      × (same_download wanted c ≡ true)
only_index wanted [] start i more h = cc
only_index wanted (c ∷ rest) start i more h = elim (Bool-cases (same_download wanted c)) [
  | inl e ↦ (0, c, ground (arith, e), refl, e)
  | inr e ↦
      let (k, d, p, q, r) = only_index wanted rest (start + 1) i more (ground arith) in
      (suc k, d, omega arith, q, r)
]

only-some : (is : List ℕ) (i : ℕ) → only is ≡ ok (some i) → is ≡ i ∷ []
only-some [] i h = cc
only-some (j ∷ []) i h = ground arith
only-some (j ∷ k ∷ rest) i h = cc

-- An index that `MatchQueue` returns is in range, and its candidate is the wanted key or has the
-- wanted download.
pub match_queue-in_range :
    (wanted : QueueKey) (candidates : List QueueKey) (i : ℕ)
    → match_queue wanted candidates ≡ ok (some i)
    → (c : QueueKey) × (get_elem? candidates i ≡ some c) × Follows wanted c
match_queue-in_range wanted cs i h = elim (Option-cases (exact_index wanted cs 0)) [
  | inl none_exact ↦
      let one : download_indices wanted cs 0 ≡ i ∷ [] =
        only-some _ i (ground (arith, match_queue_lem wanted cs)) in
      let (k, c, p, q, r) = only_index wanted cs 0 i [] one in
      (c, rw (← (at_start i k p)) at q, inr r)
  | inr (j, exact) ↦
      let same : j ≡ i = ground (arith, match_queue_lem wanted cs) in
      let (k, c, p, q, r) = exact_index_lem wanted cs 0 i (rw same at exact) in
      (c, rw (← (at_start i k p)) at q, inl r)
]
  where
    at_start : (i k : ℕ) → i ≡ 0 + k → i ≡ k
    at_start i k p = omega arith
