-- ===== src/Casestore/CaseId.antt =====
-- `caseDigest` of pkgs/media-repair/internal/casestore/store.go: the digest in a case's identifier. A text is
-- UTF-8, so that a rune is a character.
use Prim.Native.Char.{Char, code}
use Prim.Native.String.{[], ◌∷◌, len, slice}
use text.Mathlib.Text.{starts_with}
use text.Mathlib.TextEquality.{starts_with_iff}
use text.Mathlib.TextPositions.{slice-append_right, len-append}
use nix.Base.{
  ◌≡◌, sym, ap, ◌∙◌, ◌+◌, String, Bool, true, not, ◌&&◌, ◌||◌, Option, none, some, leb, ◌==◌,
  str_append, if◌then◌else◌, arith,
}

abbrev pub is_hex : Char → Bool
is_hex c = (leb 48 (code c) && leb (code c) 57) || (leb 97 (code c) && leb (code c) 102)

unfoldable pub all_hex : String → Bool
all_hex [] = true
all_hex (c ∷ s) = is_hex c && all_hex s

abbrev pub prefix : String
prefix = "sha256:"

unfoldable pub case_digest : String → Option String
case_digest case_id =
    if not (starts_with case_id prefix) || not (len case_id == len prefix + 64)
    then none
    else if all_hex (slice case_id (len prefix) (len case_id))
    then some (slice case_id (len prefix) (len case_id))
    else none

-- The digest is what follows the prefix.
slice_after :
    (u : String) → slice (str_append prefix u) (len prefix) (len (str_append prefix u)) ≡ u
slice_after u =
    ap (λ n. slice (str_append prefix u) (len prefix) n) (len-append prefix u)
    ∙ slice-append_right prefix u

case_digest-eq_some :
    (case_id : String) {digest : String}
    → case_digest case_id ≡ some digest
    → case_id ≡ str_append prefix digest
unfolding case_digest
case_digest-eq_some case_id {digest} h =
    let begins : starts_with case_id prefix ≡ true = ground (arith, h) in
    let cut : slice case_id (len prefix) (len case_id) ≡ digest = ground (arith, h) in
    let (u, joined) = (starts_with_iff case_id prefix).0 begins in
    let rest : u ≡ digest =
      sym (slice_after u) ∙ ap (λ c. slice c (len prefix) (len c)) joined ∙ cut in
    sym joined ∙ ap (λ v. str_append prefix v) rest

-- No two cases have one digest, and so one file.
pub case_digest-injective :
    (a b : String) {digest : String}
    → case_digest a ≡ some digest
    → case_digest b ≡ some digest
    → a ≡ b
case_digest-injective a b ha hb = case_digest-eq_some a ha ∙ sym (case_digest-eq_some b hb)
