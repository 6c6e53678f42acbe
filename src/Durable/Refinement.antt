-- ===== src/Durable/Refinement.antt =====
-- The operations of a store of durable records against their abstract view, a table from a case to its
-- record.
use nix.Base.{
  ℕ, ◌≡◌, refl, ◌∙◌, sym, ap, subst, String, Bool, true, false, not, Option, none, some, ltb, ◌==◌,
  str_eq, eq_iff, Result, ok, err, ◌>>=◌, >>=-eq-ok, reject-eq-ok, if◌then◌else◌, arith, Bool-cases,
  inl, inr,
}
use nix.Durable.{Disk, Codec, Keeping, read, write, get, update, of_case, save_changed, existing}
use nix.Durable.Laws.{DiskLaws, JsonLaws, read-write_self, read-write_other}

pub record KeepingLaws {E R : Type 0} (k : Keeping E R) : Type 0 where
  -- no two cases share a file
  pub path-injective :
      (a b : String) {path : String} → k.path a ≡ ok path → k.path b ≡ ok path → a ≡ b
  pub case_of-stamp : (r : R) (at : ℕ) → k.case_of (k.stamp r at) ≡ k.case_of r

-- A transition that keeps the record's case, and that leaves a record it reports as unchanged.
pub record IsTransition {E R : Type 0} (k : Keeping E R) (change : R → Result E (R × Bool))
    : Type 0 where
  pub keeps_case :
      (previous : R) {next : R} {changed : Bool}
      → change previous ≡ ok (next, changed)
      → k.case_of next ≡ k.case_of previous
  pub reports : (previous : R) {next : R} → change previous ≡ ok (next, false) → next ≡ previous

module _ {E R : Type 0} (d : Disk E) (c : Codec E R d.Bytes) (k : Keeping E R) where
  -- The table at two moments: at one case it says `r`, and elsewhere what it said.
  pub record IsPut (s t : d.Fs) (case_id : String) (r : R) : Type 0 where
    pub here : get d c k t case_id ≡ ok (some r)
    pub elsewhere :
        (other : String) → str_eq other case_id ≡ false → get d c k t other ≡ get d c k s other

  -- The abstract update: the table's record went through the transition and was stamped if it changed.
  pub record IsUpdate (s t : d.Fs) (case_id : String) (at : ℕ) (change : R → Result E (R × Bool))
      (r : R) (changed : Bool) : Type 0 where
    pub previous : R
    pub next : R
    pub was : get d c k s case_id ≡ ok (some previous)
    pub moved : change previous ≡ ok (next, changed)
    pub answered : r ≡ (if changed then k.stamp next at else previous)
    pub set : IsPut s t case_id r

module _ {E R : Type 0} (d : Disk E) (laws : DiskLaws d) (c : Codec E R d.Bytes)
    (honest : JsonLaws c.json) (k : Keeping E R) (keeping : KeepingLaws k) where
  -- A record found under its own case.
  pub get-found :
      (s : d.Fs) (case_id : String) {path : String} (r : R)
      → k.path case_id ≡ ok path
      → read d c s path ≡ ok (some r)
      → str_eq (k.case_of r) case_id ≡ true
      → get d c k s case_id ≡ ok (some r)
  unfolding get
  get-found s case_id r named found own = ground (arith, named, found, own)

  apart :
      (a b : String) {p q : String}
      → k.path a ≡ ok p
      → k.path b ≡ ok q
      → str_eq a b ≡ false
      → str_eq p q ≡ false
  apart a b {p} {q} pa pb differ = elim (Bool-cases (str_eq p q)) [
    | inl same ↦
        let joined : p ≡ q = (eq_iff p q).0 same in
        let equal : a ≡ b = keeping.path-injective a b pa (pb ∙ ap (λ x. ok x) (sym joined)) in
        absurd (ground (arith, differ, (eq_iff a b).1 equal))
    | inr other ↦ other
  ]

  get-other :
      (s t : d.Fs) (case_id other path : String)
      → k.path case_id ≡ ok path
      → ((q : String) → str_eq q path ≡ false → read d c t q ≡ read d c s q)
      → str_eq other case_id ≡ false
      → get d c k t other ≡ get d c k s other
  unfolding get
  get-other s t case_id other path named kept differ = go (k.path other) refl
    where
      go :
          (r : Result E String)
          → k.path other ≡ r
          → (r >>= λ q. read d c t q >>= of_case d c k other)
            ≡ (r >>= λ q. read d c s q >>= of_case d c k other)
      go (err e) named_other = refl
      go (ok q) named_other =
          ap (λ m. m >>= of_case d c k other)
            (kept q (apart other case_id named_other named differ))

  -- A write sets the record of its case.
  pub write-IsPut :
      (s t : d.Fs) (case_id path : String) (r : R)
      → k.path case_id ≡ ok path
      → str_eq (k.case_of r) case_id ≡ true
      → write d c s path r ≡ ok t
      → IsPut d c k s t case_id r
  write-IsPut s t case_id path r named own written = record {
    here = get-found t case_id r named (read-write_self d laws c honest s path r written) own;
    elsewhere = λ other differ.
        get-other s t case_id other path named
          (λ q away. read-write_other d laws c honest s path r q written away) differ;
  }

  existing-eq-ok : (found : Option R) {r : R} → existing d c k found ≡ ok r → found ≡ some r
  existing-eq-ok none h = cc
  existing-eq-ok (some r) h = ground (arith, h)

  -- A successful update in its parts.
  update-eq-ok :
      (s : d.Fs) (case_id : String) (at : ℕ) (change : R → Result E (R × Bool)) {r : R}
      {changed : Bool} {t : d.Fs}
      → update d c k s case_id at change ≡ ok (r, changed, t)
      → (path : String) × (previous : R) × (next : R) × (moved : Bool) × (k.path case_id ≡ ok path)
        × (read d c s path ≡ ok (some previous))
        × (str_eq (k.case_of previous) case_id ≡ true)
        × (change previous ≡ ok (next, moved))
        × (save_changed d c k s path at (next, moved) ≡ ok (r, changed, t))
  unfolding update
  update-eq-ok s case_id at change h =
      let (timed, h1) = reject-eq-ok (at == 0) k.no_time _ h in
      let (path, named, h2) = >>=-eq-ok (k.path case_id) _ h1 in
      let (u, locked, h3) = >>=-eq-ok (d.lock s) _ h2 in
      let (found, was, h4) = >>=-eq-ok (read d c s path) _ h3 in
      let (previous, exists, h5) = >>=-eq-ok (existing d c k found) _ h4 in
      let (own, h6) =
        reject-eq-ok (not (str_eq (k.case_of previous) case_id)) k.unexpected_case _ h5 in
      let (later, h7) = reject-eq-ok (ltb at (k.updated_at previous)) k.moved_backwards _ h6 in
      let ((next, moved), went, h8) = >>=-eq-ok (change previous) _ h7 in
      (
        path,
        previous,
        next,
        moved,
        named,
        was ∙ ap (λ x. ok x) (existing-eq-ok found exists),
        ground (arith, own),
        went,
        h8,
      )

  -- An update of the files is the abstract update of the table: where the files and the codec keep their
  -- promises, no two cases share a file, and the change keeps a record's case and reports whether it
  -- changed, a successful update found the case's record, moved it by the change, answers and sets the
  -- stamped result, or the old record if nothing changed, and leaves every other case as it was.
  pub update-IsUpdate :
      (s : d.Fs) (case_id : String) (at : ℕ) (change : R → Result E (R × Bool)) {r : R}
      {changed : Bool} {t : d.Fs}
      → IsTransition k change
      → update d c k s case_id at change ≡ ok (r, changed, t)
      → IsUpdate d c k s t case_id at change r changed
  unfolding save_changed
  update-IsUpdate s case_id at change {r} {changed} {t} transition h =
      let (path, previous, next, moved, named, was, own, went, saved) =
        update-eq-ok s case_id at change h in
      go path previous next moved named was own went saved
    where
      go :
          (path : String) (previous next : R) (moved : Bool)
          → k.path case_id ≡ ok path
          → read d c s path ≡ ok (some previous)
          → str_eq (k.case_of previous) case_id ≡ true
          → change previous ≡ ok (next, moved)
          → save_changed d c k s path at (next, moved) ≡ ok (r, changed, t)
          → IsUpdate d c k s t case_id at change r changed
      go path previous next false named was own went saved =
          let same : t ≡ s = ground (arith, saved) in
          let kept = transition.reports previous went in
          let found = get-found s case_id previous named was own in
          record {
            previous = previous;
            next = next;
            was = found;
            moved = went ∙ ap (λ b. ok (next, b)) (ground (arith, saved));
            answered = ground (arith, saved, kept);
            set =
                subst (λ u. IsPut d c k s u case_id r) (sym same)
                  (record {
                    here = found ∙ ap (λ x. ok (some x)) (ground (arith, saved, kept));
                    elsewhere = λ other differ. refl;
                  });
          }
      go path previous next true named was own went saved =
          let (u, written, ends) = >>=-eq-ok (write d c s path (k.stamp next at)) _ saved in
          let stamped : k.stamp next at ≡ r = ground (arith, ends) in
          let kept : str_eq (k.case_of (k.stamp next at)) case_id ≡ true =
            ap (λ x. str_eq x case_id)
              (keeping.case_of-stamp next at ∙ transition.keeps_case previous went)
            ∙ own in
          record {
            previous = previous;
            next = next;
            was = get-found s case_id previous named was own;
            moved = went ∙ ap (λ b. ok (next, b)) (ground (arith, ends));
            answered = ground (arith, ends);
            set =
                write-IsPut s t case_id path r named
                  (subst (λ x. str_eq (k.case_of x) case_id ≡ true) stamped kept)
                  (ground (arith, written, ends));
          }
