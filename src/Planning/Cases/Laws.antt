-- ===== src/Planning/Cases/Laws.antt =====
-- What `Get` returns after `Observe` (internal/planningstate/cases.go).
use nix.Base.{
  ◌≡◌, refl, sym, ap, ◌∙◌, String, Bool, true, false, not, Option, none, some, str_eq, eq_refl,
  eq_iff, Result, ok, err, ◌>>=◌, >>=-eq-ok, reject-eq-ok, arith, inl, inr, Bool-cases, is_none,
}
use nix.Durable.{Disk}
use nix.Durable.Laws.{DiskLaws}
use nix.Casestore.CaseId.{case_digest, case_digest-injective}
use nix.Planning.Cases.{
  CaseError, CaseCodec, Observation, path, known, validate, read, checked, get, wanted, keep, store,
  replaced, observe, observed, different_evidence,
}

-- What a codec promises: a decoded encoding is the case, and a merged case keeps its identifier.
pub record CaseLaws {Case Bytes : Type 0} (same_bytes : Bytes → Bytes → Bool)
    (c : CaseCodec Case Bytes) : Type 0 where
  pub decode-encode : (r : Case) {bytes : Bytes} → c.encode r ≡ ok bytes → c.decode bytes ≡ ok r
  pub merge-case_id :
      (stored current : Case) {merged : Case}
      → c.merge stored current ≡ ok merged
      → c.same_identity stored current ≡ ok true
      → c.case_id merged ≡ c.case_id current
  pub same_bytes_lem : (a b : Bytes) → same_bytes a b ≡ true → a ≡ b

module _ {Case : Type 0} (d : Disk CaseError) (laws : DiskLaws d)
    (same_bytes : d.Bytes → d.Bytes → Bool) (c : CaseCodec Case d.Bytes)
    (honest : CaseLaws same_bytes c) where
  replaced-eq-ok :
      (m : Result CaseError d.Fs) (created : Bool) {seen : Observation} {t : d.Fs}
      → replaced d same_bytes c m created ≡ ok (seen, t)
      → m ≡ ok t
  replaced-eq-ok (err e) created h = cc
  replaced-eq-ok (ok u) created h = ground (arith, h)

  written-read :
      (s : d.Fs) (at : String) (next : Case) (bytes : d.Bytes) {t : d.Fs}
      → c.encode next ≡ ok bytes
      → d.replace_file s at bytes ≡ ok t
      → read d same_bytes c t at ≡ ok (some next)
  unfolding read
  written-read s at next bytes encoded written =
      let found = laws.read-replace s at bytes written at in
      let back = honest.decode-encode next encoded in ground (arith, found, back, eq_refl at)

  -- A case whose encoding is the one stored is the case stored.
  same-encoding :
      (stored next : Case) (old bytes : d.Bytes)
      → c.encode stored ≡ ok old
      → c.encode next ≡ ok bytes
      → same_bytes old bytes ≡ true
      → stored ≡ next
  same-encoding stored next old bytes was is same =
      let a = honest.decode-encode stored was in
      let b = honest.decode-encode next is in
      let joined = honest.same_bytes_lem old bytes same in
      let both : ◌≡◌ {A = Result CaseError Case} (ok stored) (ok next) =
        sym a ∙ ap (λ x. c.decode x) joined ∙ b in
      ground (arith, both)

  -- The case that `Observe` was to store is the one that is read.
  keep-read :
      (s : d.Fs) (at : String) (found : Option Case) (next : Case) (bytes : d.Bytes)
      {seen : Observation} {t : d.Fs}
      → read d same_bytes c s at ≡ ok found
      → c.encode next ≡ ok bytes
      → keep d same_bytes c s at found bytes ≡ ok (seen, t)
      → read d same_bytes c t at ≡ ok (some next)
  unfolding keep
  keep-read s at none next bytes was encoded h =
      written-read s at next bytes encoded (replaced-eq-ok _ true h)
  keep-read s at (some stored) next bytes was encoded h =
      let (old, old_encoded, h1) = >>=-eq-ok (c.encode stored) _ h in
      elim (Bool-cases (same_bytes old bytes)) [
        | inl same ↦
            let kept = same-encoding stored next old bytes old_encoded encoded same in
            ground (arith, was, kept, h1, same)
        | inr differ ↦
            written-read s at next bytes encoded (replaced-eq-ok _ false (rw differ at h1))
      ]

  -- The other files are as they were.
  written-other :
      (s : d.Fs) (at other : String) (bytes : d.Bytes) {t : d.Fs}
      → str_eq other at ≡ false
      → d.replace_file s at bytes ≡ ok t
      → read d same_bytes c t other ≡ read d same_bytes c s other
  unfolding read
  written-other s at other bytes apart written =
      let found = laws.read-replace s at bytes written other in ground (arith, found, apart)

  keep-read_other :
      (s : d.Fs) (at other : String) (found : Option Case) (bytes : d.Bytes) {seen : Observation}
      {t : d.Fs}
      → str_eq other at ≡ false
      → keep d same_bytes c s at found bytes ≡ ok (seen, t)
      → read d same_bytes c t other ≡ read d same_bytes c s other
  unfolding keep
  keep-read_other s at other none bytes apart h =
      written-other s at other bytes apart (replaced-eq-ok _ true h)
  keep-read_other s at other (some stored) bytes apart h =
      let (old, old_encoded, h1) = >>=-eq-ok (c.encode stored) _ h in
      elim (Bool-cases (same_bytes old bytes)) [
        | inl same ↦ ap (λ u. read d same_bytes c u other) (ground (arith, h1, same))
        | inr differ ↦
            written-other s at other bytes apart (replaced-eq-ok _ false (rw differ at h1))
      ]

  wanted-case_id :
      (found : Option Case) (current : Case) {next : Case}
      → wanted d same_bytes c found current ≡ ok next
      → c.case_id next ≡ c.case_id current
  unfolding wanted
  wanted-case_id none current h = ground (arith, h)
  wanted-case_id (some stored) current h =
      let (same, compared, h1) = >>=-eq-ok (c.same_identity stored current) _ h in
      let (is_same, merged) = reject-eq-ok (not same) different_evidence _ h1 in
      honest.merge-case_id stored current merged
        (compared ∙ ap (λ b. ok b) (ground (arith, is_same)))

  known-eq-ok :
      (o : Option String) {digest : String} → known d same_bytes c o ≡ ok digest → o ≡ some digest
  known-eq-ok none h = cc
  known-eq-ok (some x) h = ground (arith, h)

  path-injective :
      (a b : String) {at : String}
      → path d same_bytes c a ≡ ok at
      → path d same_bytes c b ≡ ok at
      → a ≡ b
  unfolding path
  path-injective a b ha hb =
      case_digest-injective a b (known-eq-ok (case_digest a) ha) (known-eq-ok (case_digest b) hb)

  apart :
      (a b : String) {p q : String}
      → path d same_bytes c a ≡ ok p
      → path d same_bytes c b ≡ ok q
      → str_eq a b ≡ false
      → str_eq p q ≡ false
  apart a b {p} {q} pa pb differ = elim (Bool-cases (str_eq p q)) [
    | inl same ↦
        let equal = path-injective a b pa (pb ∙ ap (λ x. ok x) (sym ((eq_iff p q).0 same))) in
        absurd (ground (arith, differ, (eq_iff a b).1 equal))
    | inr other ↦ other
  ]

  -- A successful store in its parts.
  store-eq-ok :
      (s : d.Fs) (current : Case) {seen : Observation} {t : d.Fs}
      → store d same_bytes c s current ≡ ok (seen, t)
      → (at : String) × (found : Option Case) × (next : Case) × (bytes : d.Bytes) × (path d
            same_bytes c
            (c.case_id current)
          ≡ ok at)
        × (read d same_bytes c s at ≡ ok found)
        × (wanted d same_bytes c found current ≡ ok next)
        × (c.encode next ≡ ok bytes)
        × (keep d same_bytes c s at found bytes ≡ ok (seen, t))
  unfolding store validate
  store-eq-ok s current h =
      let (id, valid, h1) = >>=-eq-ok (validate d same_bytes c current) _ h in
      let (at, named, h2) = >>=-eq-ok (path d same_bytes c (c.case_id current)) _ valid in
      let (bytes, encoded, ended) = >>=-eq-ok (c.encode current) _ h2 in
      let same : c.case_id current ≡ id = ground (arith, ended) in
      let (at', named', h3) = >>=-eq-ok (path d same_bytes c id) _ h1 in
      let (u, locked, h4) = >>=-eq-ok (d.lock s) _ h3 in
      let (found, was, h5) = >>=-eq-ok (read d same_bytes c s at') _ h4 in
      let (next, want, h6) = >>=-eq-ok (wanted d same_bytes c found current) _ h5 in
      let (bytes', encoded', h7) = >>=-eq-ok (c.encode next) _ h6 in
      (
        at',
        found,
        next,
        bytes',
        ap (λ x. path d same_bytes c x) same ∙ named',
        was,
        want,
        encoded',
        h7,
      )

  keep-created :
      (s : d.Fs) (at : String) (found : Option Case) (bytes : d.Bytes) {seen : Observation}
      {t : d.Fs}
      → keep d same_bytes c s at found bytes ≡ ok (seen, t)
      → seen.created ≡ is_none found
  unfolding keep
  keep-created s at none bytes h = ground arith
  keep-created s at (some stored) bytes h = ground arith

  get-read :
      (s : d.Fs) (case_id : String) {at : String} (r : Case) {bytes : d.Bytes}
      → path d same_bytes c case_id ≡ ok at
      → read d same_bytes c s at ≡ ok (some r)
      → c.case_id r ≡ case_id
      → c.encode r ≡ ok bytes
      → get d same_bytes c s case_id ≡ ok (some r)
  unfolding get validate checked
  get-read s case_id r named found own encoded =
      rw (named, found, own, named, encoded, eq_refl case_id)

  get-other :
      (s t : d.Fs) (case_id other : String) {at : String}
      → path d same_bytes c case_id ≡ ok at
      → ((q : String) → str_eq q at ≡ false → read d same_bytes c t q ≡ read d same_bytes c s q)
      → str_eq other case_id ≡ false
      → get d same_bytes c t other ≡ get d same_bytes c s other
  unfolding get
  get-other s t case_id other {at} named kept differ = go (path d same_bytes c other) refl
    where
      go :
          (r : Result CaseError String)
          → path d same_bytes c other ≡ r
          → (r >>= λ q. read d same_bytes c t q >>= checked d same_bytes c other)
            ≡ (r >>= λ q. read d same_bytes c s q >>= checked d same_bytes c other)
      go (err e) named_other = refl
      go (ok q) named_other =
          ap (λ m. m >>= checked d same_bytes c other)
            (kept q (apart other case_id named_other named differ))

  -- What a case's observation stored: `next` is the case itself, or its merge with the same case stored
  -- before, and a reader finds it; the other cases are as they were.
  pub record IsKept (s t : d.Fs) (current : Case) (seen : Observation) : Type 0 where
    pub at : String
    pub found : Option Case
    pub next : Case
    pub named : path d same_bytes c (c.case_id current) ≡ ok at
    pub was : read d same_bytes c s at ≡ ok found
    pub merged : wanted d same_bytes c found current ≡ ok next
    pub created : seen.created ≡ is_none found
    pub here : get d same_bytes c t (c.case_id current) ≡ ok (some next)
    pub elsewhere :
        (other : String)
        → str_eq other (c.case_id current) ≡ false
        → get d same_bytes c t other ≡ get d same_bytes c s other

  pub store-IsKept :
      (s : d.Fs) (current : Case) {seen : Observation} {t : d.Fs}
      → store d same_bytes c s current ≡ ok (seen, t)
      → IsKept s t current seen
  store-IsKept s current {seen} {t} h =
      let (at, found, next, bytes, named, was, want, encoded, kept) = store-eq-ok s current h in
      record {
        at = at;
        found = found;
        next = next;
        named = named;
        was = was;
        merged = want;
        created = keep-created s at found bytes kept;
        here =
            get-read t (c.case_id current) next named
              (keep-read s at found next bytes was encoded kept) (wanted-case_id found current want)
              encoded;
        elsewhere = λ other differ.
            get-other s t (c.case_id current) other named
              (λ q away. keep-read_other s at q found bytes away kept) differ;
      }

  observed-eq-ok :
      (s : d.Fs) (m : Result CaseError (Observation × d.Fs)) {seen : Observation} {t : d.Fs}
      → observed d same_bytes c s none m ≡ (ok seen, t)
      → m ≡ ok (seen, t)
  observed-eq-ok s (err e) h = cc
  observed-eq-ok s (ok (o, u)) h = ground (arith, h)

  -- What is observed is what is read: where the files and the codec keep their promises, a successful
  -- `Observe` with nothing to run after it stores the case, or its merge with the one stored before under
  -- its identifier, `Get` then returns exactly that case, the answer says whether it was new, and every
  -- other case reads as it did.
  pub observe-IsKept :
      (s : d.Fs) (current : Case) {seen : Observation} {t : d.Fs}
      → observe d same_bytes c s current none ≡ (ok seen, t)
      → IsKept s t current seen
  unfolding observe
  observe-IsKept s current h =
      store-IsKept s current (observed-eq-ok s (store d same_bytes c s current) h)
