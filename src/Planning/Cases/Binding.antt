-- ===== src/Planning/Cases/Binding.antt =====
-- The evidence that a case's identifier is bound to (internal/planningstate/cases.go).
use nix.Base.{◌≡◌, String, Bool, true, none, some, List, [], ◌∷◌, ok}
use nix.Durable.{Disk}
use nix.Durable.Laws.{DiskLaws}
use nix.Planning.Cases.{CaseError, CaseCodec, get, observe}
use nix.Planning.Cases.Laws.{CaseLaws}

-- That two cases have the same evidence is transitive, and a merge keeps the evidence of what was stored.
pub record IdentityLaws {Case Bytes : Type 0} (c : CaseCodec Case Bytes) : Type 0 where
  pub same_trans :
      (x y z : Case)
      → c.same_identity x y ≡ ok true
      → c.same_identity y z ≡ ok true
      → c.same_identity x z ≡ ok true
  pub same-merge :
      (stored current : Case) {merged : Case}
      → c.same_identity stored current ≡ ok true
      → c.merge stored current ≡ ok merged
      → c.same_identity stored merged ≡ ok true

module _ {Case : Type 0} (d : Disk CaseError) (laws : DiskLaws d)
    (same_bytes : d.Bytes → d.Bytes → Bool) (c : CaseCodec Case d.Bytes)
    (honest : CaseLaws same_bytes c) (identity : IdentityLaws c) where
  -- Observations one after the other, those that fail included.
  pub after_observed : List Case → d.Fs → d.Fs
  after_observed [] s = s
  after_observed (current ∷ rest) s = after_observed rest (observe d same_bytes c s current none).1

  -- The identifier has a case with the evidence of `bound`.
  pub record IsBound (s : d.Fs) (case_id : String) (bound : Case) : Type 0 where
    pub kept : Case
    pub found : get d same_bytes c s case_id ≡ ok (some kept)
    pub same : c.same_identity bound kept ≡ ok true
