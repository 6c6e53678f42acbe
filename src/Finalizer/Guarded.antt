-- ===== src/Finalizer/Guarded.antt =====
-- What the finalizer's calls to remove an entry are about (internal/queuefinalize/finalizer.go).
pub mod Passes
use nix.Base.{
  ℕ, ◌≡◌, refl, ◌∙◌, sym, ap, subst, String, Bool, true, false, not, Option, none, some, List, [],
  ◌∷◌, All, Result, ok, err, >>=-eq-ok, reject-eq-ok, ◌==◌, if◌then◌else◌, arith, Bool-cases, inl,
  inr, is_none,
}
use nix.Durable.{Disk, Json}
use nix.Durable.Laws.{DiskLaws, JsonLaws, read-write_self}
use nix.Repair.Removal.{Entry, eligible}
use nix.Finalizer.{
  FinalizerError, Record, Platform, prepare, prepare_found, prepared_record, read, read_path, write,
  path, codec, same_entry, sort, bad_time, complete,
}
use nix.Finalizer.Run
use nix.Finalizer.Run.{Service, World, Pass, Done, Outcome, run, lookup, by_id}
use nix.Finalizer.Removals.{stored-removals}
use nix.Finalizer.Entries.{contains, same_entry-eq, All-contains, All-sort, by_id-All, lookup-All}

module _ (p : Platform) (d : Disk FinalizerError) (laws : DiskLaws d)
    (json : Json FinalizerError Record d.Bytes) (honest : JsonLaws json)
    (read_dir : d.Fs → Result FinalizerError (List (String × Bool))) where
  -- After `prepare` the store holds a record of the entry.
  found-recorded :
      (s : d.Fs) (entry : Entry) (at : ℕ) (found : Option Record) {t : d.Fs}
      → read p d json read_dir s entry.queue_id ≡ ok found
      → prepare_found p d json read_dir s entry at found ≡ ok t
      → (r : Record) × (read p d json read_dir t entry.queue_id ≡ ok (some r)) × (r.entry ≡ entry)
  unfolding prepare_found read read_path write
  found-recorded s entry at none was h = (
    prepared_record p entry at,
    read-write_self d laws (codec p d json read_dir) honest s (path p entry.queue_id)
        (prepared_record p entry at) h,
    refl,
  )
  found-recorded s entry at (some previous) was h = (
    previous,
    ap (λ u. read p d json read_dir u entry.queue_id) (ground (arith, h)) ∙ was,
    same_entry-eq previous.entry entry (ground (arith, h)),
  )

  pub prepare-recorded :
      (s : d.Fs) (entry : Entry) (at : ℕ) {t : d.Fs}
      → prepare p d json read_dir s entry at ≡ ok t
      → (r : Record) × (read p d json read_dir t entry.queue_id ≡ ok (some r)) × (r.entry ≡ entry)
  unfolding prepare
  prepare-recorded s entry at h =
      let (timed, h1) = reject-eq-ok (at == 0) bad_time _ h in
      let (u, locked, h2) = >>=-eq-ok (d.lock s) _ h1 in
      let (found, was, h3) = >>=-eq-ok (read p d json read_dir s entry.queue_id) _ h2 in
      found-recorded s entry at found was h3

  module _ (v : Service) (entries candidates : List Entry) where
    -- A call to remove an entry: it names a candidate, which the queue shows as it was given and eligible,
    -- and the store has a record of it.
    pub record IsGuarded (call : ℕ × d.Fs) : Type 0 where
      pub entry : Entry
      pub kept : Record
      pub named : entry.queue_id ≡ call.0
      pub given : contains entry candidates ≡ true
      pub shown : contains entry entries ≡ true
      pub allowed : eligible p.trim entry ≡ true
      pub recorded : read p d json read_dir call.1 entry.queue_id ≡ ok (some kept)
      pub same : kept.entry ≡ entry

    abbrev AllGuarded : World p d json read_dir v → Type 0
    AllGuarded w = All IsGuarded w.removals

    stored-ok :
        (operation : d.Fs → ℕ → Result FinalizerError d.Fs) (w : World p d json read_dir v)
        {u : Unit {0}} {w' : World p d json read_dir v}
        → Run.stored p d json read_dir v operation w ≡ (ok u, w')
        → (at : ℕ) × (operation w.fs at ≡ ok w'.fs)
    stored-ok operation w {u} {w'} h = ((v.now w.env).0, go (operation w.fs (v.now w.env).0) h)
      where
        go :
            (r : Result FinalizerError d.Fs)
            → Run.saved p d json read_dir v (record w { env = (v.now w.env).1 }) r ≡ (ok u, w')
            → r ≡ ok w'.fs
        go (err e) k = cc
        go (ok t) k = ground (arith, k)

    after-AllGuarded :
        (m : Done p d json read_dir v) (next : World p d json read_dir v → Done p d json read_dir v)
        → AllGuarded m.1
        → (m.0 ≡ ok tt → AllGuarded (next m.1).1)
        → AllGuarded (Run.after p d json read_dir v m next).1
    after-AllGuarded (err e, w) next h k = h
    after-AllGuarded (ok u, w) next h k = k refl

    -- The call to remove a candidate that was recorded.
    called-AllGuarded :
        (candidate : Entry) (w : World p d json read_dir v)
        → contains candidate candidates ≡ true
        → contains candidate entries ≡ true
        → eligible p.trim candidate ≡ true
        → (r : Record) × (read p d json read_dir w.fs candidate.queue_id ≡ ok (some r))
          × (r.entry ≡ candidate)
        → AllGuarded w
        → AllGuarded (Run.remove_call p d json read_dir v candidate.queue_id w).1
    called-AllGuarded candidate w given shown allowed (r, recorded, same) h = (
      record {
        entry = candidate;
        kept = r;
        named = refl;
        given = given;
        shown = shown;
        allowed = allowed;
        recorded = recorded;
        same = same;
      },
      h,
    )

    remove_recorded-AllGuarded :
        (candidate : Entry) (w : World p d json read_dir v)
        → contains candidate candidates ≡ true
        → contains candidate entries ≡ true
        → eligible p.trim candidate ≡ true
        → AllGuarded w
        → AllGuarded (Run.remove_recorded p d json read_dir v candidate w).1
    unfolding Run.remove_recorded
    remove_recorded-AllGuarded candidate w given shown allowed h =
        after-AllGuarded both (Run.stored p d json read_dir v completing) reached (λ removed.
          subst (All IsGuarded) (sym (stored-removals p d json read_dir v completing both.1))
            reached)
      where
        preparing : d.Fs → ℕ → Result FinalizerError d.Fs
        preparing s at = prepare p d json read_dir s candidate at

        completing : d.Fs → ℕ → Result FinalizerError d.Fs
        completing s at = complete p d json read_dir s candidate at

        prepared : Done p d json read_dir v
        prepared = Run.stored p d json read_dir v preparing w

        before : AllGuarded prepared.1
        before = subst (All IsGuarded) (sym (stored-removals p d json read_dir v preparing w)) h

        called :
            prepared.0 ≡ ok tt
            → AllGuarded (Run.remove_call p d json read_dir v candidate.queue_id prepared.1).1
        called went =
            let (at, stored) = stored-ok preparing w (ap (λ x. (x, prepared.1)) went) in
            called-AllGuarded candidate prepared.1 given shown allowed
              (prepare-recorded w.fs candidate at stored) before

        both : Done p d json read_dir v
        both =
            Run.after p d json read_dir v prepared
              (Run.remove_call p d json read_dir v candidate.queue_id)

        reached : AllGuarded both.1
        reached =
            after-AllGuarded prepared (Run.remove_call p d json read_dir v candidate.queue_id)
              before called

    pub finish_judged-AllGuarded :
        (candidate : Entry) (o : Outcome) (pass : Pass p d json read_dir v)
        → contains candidate candidates ≡ true
        → (o ≡ Outcome.finalized
            → (contains candidate entries ≡ true) × (eligible p.trim candidate ≡ true))
        → AllGuarded pass.world
        → AllGuarded (Run.finish_judged p d json read_dir v candidate o pass).world
    unfolding Run.finish_judged
    finish_judged-AllGuarded candidate Outcome.already_absent pass given k h = h
    finish_judged-AllGuarded candidate Outcome.identity_changed pass given k h = h
    finish_judged-AllGuarded candidate Outcome.finalized pass given k h =
        go (Run.remove_recorded p d json read_dir v candidate pass.world)
          (remove_recorded-AllGuarded candidate pass.world given (k refl).0 (k refl).1 h)
      where
        go :
            (m : Done p d json read_dir v)
            → AllGuarded m.1
            → AllGuarded (Run.finalized_as p d json read_dir v candidate pass m).world
        go (err e, w) q = q
        go (ok u, w) q = q

    pub judged-finalized :
        (candidate : Entry) (o : Option Entry)
        → ((observed : Entry) → o ≡ some observed → contains observed entries ≡ true)
        → Run.judged p d json read_dir v candidate o ≡ Outcome.finalized
        → (contains candidate entries ≡ true) × (eligible p.trim candidate ≡ true)
    unfolding Run.judged
    judged-finalized candidate none found e = cc
    judged-finalized candidate (some observed) found e =
        let same : observed ≡ candidate = same_entry-eq observed candidate (ground (arith, e)) in
        let allowed : eligible p.trim observed ≡ true = ground (arith, e) in
        (
          subst (λ x. contains x entries ≡ true) same (found observed refl),
          subst (λ x. eligible p.trim x ≡ true) same allowed,
        )
