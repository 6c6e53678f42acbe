-- ===== src/Jobs/Memory/Laws.antt =====
-- The in-memory job database meets the laws of the job database.
use nix.Base.{
  ℕ, zero, suc, ◌≡◌, some, none, ok, err, refl, true, false, List, [], ◌∷◌, ◌<◌, ◌≤◌, ◌≢◌, All,
  Bool, Option-cases, arith, Option, subst, Bool-cases, All-map, inl, ap, inr, ◌∙◌, ◌==◌, ==_iff,
  if◌then◌else◌, sym, Result, ◌+◌, leb, ◌&&◌,
}
use nix.Jobs.Model.{Job, Error, Attempt, persisted}
use nix.Jobs.Database.{GormLaws, IsDistinct}
use nix.Jobs.Memory.{
  Memory, memory, row, attempt_at, found, listed, push, first_of_list, identified, highest,
  with_job, with_attempt, within, row-id, row-pos, attempt_at-key, with_job-row, created-row,
  with_attempt-saved, with_attempt-created, other,
}

found-eq-ok {ℓ} : {A : Type ℓ} (o : Option A) {a : A} → found o ≡ ok a → o ≡ some a
found-eq-ok none h = cc
found-eq-ok (some a) h = ground arith

found-eq-err {ℓ} : {A : Type ℓ} (o : Option A) {e : Error} → found o ≡ err e → o ≡ none
found-eq-err none h = refl
found-eq-err (some a) h = cc

abbrev AreRows : Memory → List Job → Type 0
AreRows s js = All (λ (j : Job). row s j.id ≡ some j) js

push-AreRows :
    (s : Memory) (test : Job → Bool) (i : ℕ) (o : Option Job) (js : List Job)
    → row s i ≡ o
    → AreRows s js
    → AreRows s (push test o js)
push-AreRows s test i none js e h = h
push-AreRows s test i (some j) js e h = elim (Bool-cases (test j)) [
  | inl t ↦ rw t (ap (row s) (row-id s i e) ∙ e, h)
  | inr t ↦ rw t h
]

listed-AreRows : (s : Memory) (test : Job → Bool) (i : ℕ) → AreRows s (listed s test i)
listed-AreRows s test zero = tt
listed-AreRows s test (suc i) =
    push-AreRows s test (suc i) (row s (suc i)) (listed s test i) refl (listed-AreRows s test i)

-- The identifiers of the listed rows are bounded by the place where the listing starts.
abbrev AreBelow : ℕ → List Job → Type 0
AreBelow n js = All (λ (j : Job). j.id ≤ n) js

push-AreBelow :
    (s : Memory) (test : Job → Bool) (i : ℕ) (o : Option Job) (js : List Job)
    → row s (suc i) ≡ o
    → AreBelow i js
    → AreBelow (suc i) (push test o js)
push-AreBelow s test i none js e h = All-map _ _ js (λ j le. omega arith) h
push-AreBelow s test i (some j) js e h =
    let below = All-map _ (λ (k : Job). k.id ≤ suc i) js (λ k le. omega arith) h in
    elim (Bool-cases (test j)) [
      | inl t ↦ rw t (omega (arith, row-id s (suc i) e), below)
      | inr t ↦ rw t below
    ]

listed-AreBelow : (s : Memory) (test : Job → Bool) (i : ℕ) → AreBelow i (listed s test i)
listed-AreBelow s test zero = tt
listed-AreBelow s test (suc i) =
    push-AreBelow s test i (row s (suc i)) (listed s test i) refl (listed-AreBelow s test i)

push-IsDistinct :
    (s : Memory) (test : Job → Bool) (i : ℕ) (o : Option Job) (js : List Job)
    → row s (suc i) ≡ o
    → AreBelow i js
    → IsDistinct js
    → IsDistinct (push test o js)
push-IsDistinct s test i none js e h d = d
push-IsDistinct s test i (some j) js e h d = elim (Bool-cases (test j)) [
  | inl t ↦ rw t (
    All-map _ (λ (k : Job). k.id ≢ j.id) js
        (λ k le same. absurd (omega (arith, row-id s (suc i) e))) h,
    d,
  )
  | inr t ↦ rw t d
]

listed-IsDistinct : (s : Memory) (test : Job → Bool) (i : ℕ) → IsDistinct (listed s test i)
listed-IsDistinct s test zero = tt
listed-IsDistinct s test (suc i) =
    push-IsDistinct s test i (row s (suc i)) (listed s test i) refl (listed-AreBelow s test i)
      (listed-IsDistinct s test i)

first_of_list-row :
    (s : Memory) (js : List Job) {j : Job}
    → AreRows s js
    → first_of_list js ≡ ok j
    → row s j.id ≡ some j
first_of_list-row s [] h e = cc
first_of_list-row s (k ∷ js) {j} h e =
    let same : k ≡ j = ground arith in subst (λ (x : Job). row s x.id ≡ some x) same h.0

highest-row :
    (s : Memory) (i n : ℕ) {a : Attempt} → highest s i n ≡ some a → attempt_at s i a.number ≡ some a
highest-row s i zero h = cc
highest-row s i (suc n) {a} h = elim (Option-cases (attempt_at s i (suc n))) [
  | inl e ↦ highest-row s i n (ground arith)
  | inr (b, e) ↦
      let same : b ≡ a = ground arith in
      let stored : attempt_at s i (suc n) ≡ some a = e ∙ ap some same in
      ap (attempt_at s i) (attempt_at-key s i (suc n) stored).1 ∙ stored
]

highest-max :
    (s : Memory) (i n : ℕ) {a b : Attempt} (m : ℕ)
    → highest s i n ≡ some a
    → m ≤ n
    → attempt_at s i m ≡ some b
    → m ≤ a.number
highest-max s i zero m h le stored = cc
highest-max s i (suc n) {a} {b} m h le stored = elim (Option-cases (attempt_at s i (suc n))) [
  | inl e ↦ highest-max s i n {a = a} {b = b} m (ground arith) (ground arith) stored
  | inr (c, e) ↦
      let same : c ≡ a = ground arith in
      omega (arith, (attempt_at-key s i (suc n) (e ∙ ap some same)).1)
]

highest-none : (s : Memory) (i n m : ℕ) → highest s i n ≡ none → m ≤ n → attempt_at s i m ≡ none
highest-none s i zero m h le = ground arith
highest-none s i (suc n) m h le = elim (Option-cases (attempt_at s i (suc n))) [
  | inl e ↦ elim (Bool-cases (m == suc n)) [
    | inl q ↦ ap (attempt_at s i) ((==_iff m (suc n)).0 q) ∙ e
    | inr q ↦ highest-none s i n m (ground arith) (ground arith)
  ]
  | inr (c, e) ↦ ground arith
]

-- Nothing is stored past the last number.
attempt_at-within : (s : Memory) (i n : ℕ) {a : Attempt} → attempt_at s i n ≡ some a → n ≤ s.last i
attempt_at-within s i n h = ground arith

guarded-eq-ok :
    (test : Bool) (a : Memory) (e : Error) {t : Memory}
    → (if test then ok a else err e) ≡ ok t
    → (test ≡ true) × (a ≡ t)
guarded-eq-ok true a e h = (refl, ground arith)
guarded-eq-ok false a e h = cc

pair-eq-ok :
    (n m : ℕ) (a t : Memory)
    → ◌≡◌ {A = Result Error (ℕ × Memory)} (ok (n, a)) (ok (m, t))
    → (n ≡ m) × (a ≡ t)
pair-eq-ok n m a t h = (ground arith, ground arith)

ok-eq-ok : (a t : Memory) → ◌≡◌ {A = Result Error Memory} (ok a) (ok t) → a ≡ t
ok-eq-ok a t h = ground arith

list-eq-ok : (a t : List Job) → ◌≡◌ {A = Result Error (List Job)} (ok a) (ok t) → a ≡ t
list-eq-ok a t h = ground arith

absent-past : (s : Memory) (i n : ℕ) → s.last i < n → attempt_at s i n ≡ none
absent-past s i n h = ground arith

absent-top : (s : Memory) → row s (s.top + 1) ≡ none
absent-top s = ground arith

pub memory_laws : GormLaws memory
memory_laws = record {
  job_row-id = row-id;
  job_row-pos = row-pos;
  attempt_row-key = attempt_at-key;
  first_job_lem = λ s i h. found-eq-ok (row s i) h;
  first_by_identity_lem = λ s v q d h.
      first_of_list-row s (listed s (identified v q d) s.top)
        (listed-AreRows s (identified v q d) s.top) h;
  find_jobs_lem =
      λ s v {js} h. subst (λ l. AreRows s l) (list-eq-ok _ js h) (listed-AreRows s _ s.top);
  find_jobs-IsDistinct =
      λ s v {js} h. subst IsDistinct (list-eq-ok _ js h) (listed-IsDistinct s _ s.top);
  save_job_lem = λ s j {t} h pos i.
      let (w, now) =
        guarded-eq-ok (within j.id s.top) (with_job s j) (other "no such row") {t = t} h in
      subst (λ (u : Memory). row u i ≡ (if i == j.id then some (persisted j) else row s i)) now
        (with_job-row s j w i);
  save_job-attempts = λ s j {t} h.
      let (w, now) =
        guarded-eq-ok (within j.id s.top) (with_job s j) (other "no such row") {t = t} h in
      record { attempts = λ i n. ap (λ (u : Memory). attempt_at u i n) (sym now) };
  create_job_lem = λ s j {new} {t} h i.
      let (named, now) = pair-eq-ok (s.top + 1) new _ t h in
      subst
        (λ (u : Memory).
          row u i ≡ (if i == new then some (persisted (record j { id = new })) else row s i))
        now (rw (← named) (created-row s j i));
  create_job-fresh = λ s j {new} {t} h.
      let (named, now) = pair-eq-ok (s.top + 1) new _ t h in ap (row s) (sym named) ∙ absent-top s;
  create_job-attempts = λ s j {new} {t} h.
      let (named, now) = pair-eq-ok (s.top + 1) new _ t h in
      record { attempts = λ i n. ap (λ (u : Memory). attempt_at u i n) (sym now) };
  first_attempt_lem = λ s i n h pi pn. found-eq-ok (attempt_at s i n) h;
  last_attempt_lem =
      λ s i h pos. highest-row s i (s.last i) (found-eq-ok (highest s i (s.last i)) h);
  last_attempt-max = λ s i {a} h pos n {b} stored.
      highest-max s i (s.last i) {a = a} {b = b} n (found-eq-ok (highest s i (s.last i)) h)
        (attempt_at-within s i n stored) stored;
  last_attempt-none = λ s i h pos n. elim (Bool-cases (leb n (s.last i))) [
    | inl le ↦
        highest-none s i (s.last i) n (found-eq-err (highest s i (s.last i)) h) (ground arith)
    | inr past ↦ absent-past s i n (ground arith)
  ];
  create_attempt_lem = λ s a {t} h i n.
      let (w, now) =
        guarded-eq-ok (a.number == s.last a.job_id + 1) (with_attempt s a a.number)
          (other "number out of order") {t = t} h in
      subst
        (λ (u : Memory).
          attempt_at u i n
          ≡ (if (i == a.job_id) && (n == a.number) then some a else attempt_at s i n))
        now (with_attempt-created s a ((==_iff a.number (s.last a.job_id + 1)).0 w) i n);
  create_attempt-jobs = λ s a {t} h.
      let (w, now) =
        guarded-eq-ok (a.number == s.last a.job_id + 1) (with_attempt s a a.number)
          (other "number out of order") {t = t} h in
      record { jobs = λ i. ap (λ (u : Memory). row u i) (sym now) };
  save_attempt_lem = λ s a {t} h i n.
      let (w, now) =
        guarded-eq-ok (within a.number (s.last a.job_id)) (with_attempt s a (s.last a.job_id))
          (other "no such row") {t = t} h in
      subst
        (λ (u : Memory).
          attempt_at u i n
          ≡ (if (i == a.job_id) && (n == a.number) then some a else attempt_at s i n))
        now (with_attempt-saved s a w i n);
  save_attempt-jobs = λ s a {t} h.
      let (w, now) =
        guarded-eq-ok (within a.number (s.last a.job_id)) (with_attempt s a (s.last a.job_id))
          (other "no such row") {t = t} h in
      record { jobs = λ i. ap (λ (u : Memory). row u i) (sym now) };
  first_result_lem = λ s i f r h. found-eq-ok (s.results i f r) h;
  first_result-none = λ s i f r h. found-eq-err (s.results i f r) h;
  upsert_result_lem =
      λ s p {t} h i f r. ap (λ (u : Memory). u.results i f r) (sym (ok-eq-ok _ t h));
  upsert_result-jobs =
      λ s p {t} h. record { jobs = λ i. ap (λ (u : Memory). row u i) (sym (ok-eq-ok _ t h)) };
  upsert_result-attempts = λ s p {t} h. record {
    attempts = λ i n. ap (λ (u : Memory). attempt_at u i n) (sym (ok-eq-ok _ t h));
  };
}
