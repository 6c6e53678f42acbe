-- ===== src/Casestore/Tests.antt =====
-- The theorems on a manual import's record at a concrete import (internal/casestore/execution.go).
use nix.Casestore.CaseId.{case_digest, all_hex}
use nix.Base.{pos, ◌≡◌, refl, some, ok, List, [], ◌∷◌, arith, true, false, String, String}
use nix.Casestore.Execution.{
  Platform, Execution, Authorized, Confirmation, State, validate, request, confirm, same_import,
  prepared_record, validate_state,
}
use nix.Casestore.Terminal.{Change, after_changes, after_changes-terminal}
use nix.Casestore.Confirming.{IsConfirmed, after_changes-IsConfirmed}
use nix.Base.{Result, str_eq, if◌then◌else◌}
use nix.Durable.{Disk, Json}
use nix.Durable.Memory.{
  memory_disk, memory_disk-DiskLaws, memory_json, memory_json-JsonLaws, no_files,
}
use nix.Durable.Refinement.{IsUpdate}
use nix.Casestore.Execution.{Error}
use nix.Casestore.Store.{mark_requested, keeping, codec, prepare, get}
use nix.Casestore.Table.{Call, answer, answer-IsUpdate, prepare-get}
use nix.Casestore.Terminal.{change}
use nix.Casestore.Validation.{request-IsValid}

-- A platform on which every text is clean and every case identifier is known.
abbrev plain : Platform
plain = record {
  trim = λ s. s;
  has_nul = λ s. false;
  is_abs = λ s. true;
  clean = λ s. s;
  dir = λ s. "/";
}

abbrev film_id : String
film_id = "sha256:0123456789abcdef0123456789abcdef0123456789abcdef0123456789abcdef"

abbrev film : Authorized
film = record {
  case_id = film_id;
  capability_id = "capability";
  file_id = "file";
  expected_fingerprint = record { device = 1; inode = 2; size_bytes = pos 1000; modified = pos 5 };
  movie_id = pos 3;
  download_id = "abc";
  path = "/downloads/film";
}

abbrev seen : Confirmation
seen = record {
  history_id = pos 9;
  movie_file_id = pos 4;
  movie_id = pos 3;
  download_id = "abc";
  occurred_at = 20;
  dropped_path = "/downloads/film";
  imported_path = "/films/film";
}

abbrev new_record : Execution
new_record = prepared_record film (pos 5) 10

abbrev failed_record : Execution
failed_record = record new_record { state = State.failed }

-- The import of another file of the same case.
abbrev other_film : Authorized
other_film = record film { file_id = "other" }

abbrev changes : List Change
changes = Change.requesting (pos 42) ∷ Change.confirming film seen ∷ Change.failing ∷ []

after_changes-terminal_example : after_changes changes failed_record ≡ failed_record
after_changes-terminal_example = after_changes-terminal changes failed_record refl

abbrev confirming_changes : List Change
confirming_changes =
    Change.requesting (pos 42)
    ∷ Change.confirming other_film seen
    ∷ Change.confirming film seen
    ∷ Change.failing
    ∷ []

after_changes-IsConfirmed_example : IsConfirmed confirming_changes new_record seen
unfolding after_changes change request confirm same_import
after_changes-IsConfirmed_example =
    after_changes-IsConfirmed confirming_changes new_record refl refl

request-IsValid_example :
    validate plain
      (record new_record { state = State.requested; command_id = some (pos 42); updated_at = 11 })
    ≡ ok tt
unfolding validate validate_state request case_digest all_hex
request-IsValid_example =
    request-IsValid plain (pos 42) new_record 11 {changed = true} refl refl (omega arith) refl

abbrev files : Disk Error
files = memory_disk Error Execution

abbrev texts : Json Error Execution Execution
texts = memory_json Error Execution

abbrev allowed : files.Fs → Authorized → Result Error (Unit {0})
allowed s a = ok tt

abbrev with_record : Execution → files.Fs
with_record r path =
    if str_eq path "0123456789abcdef0123456789abcdef0123456789abcdef0123456789abcdef"
    then some r
    else no_files Error Execution path

abbrev requested_record : Execution
requested_record = record new_record {
  state = State.requested;
  command_id = some (pos 42);
  updated_at = 11;
}

answer-IsUpdate_example :
    IsUpdate files
      (codec plain files texts allowed)
      (keeping plain)
      (with_record new_record)
      (λ other.
        if str_eq other "0123456789abcdef0123456789abcdef0123456789abcdef0123456789abcdef"
        then some requested_record
        else with_record new_record other)
      film_id
      11
      (change (Change.requesting (pos 42)))
      requested_record
      true
unfolding answer case_digest all_hex mark_requested validate request
answer-IsUpdate_example =
    answer-IsUpdate plain files (memory_disk-DiskLaws Error Execution) texts
      (memory_json-JsonLaws Error Execution) allowed (with_record new_record)
      (Call.requested film_id (pos 42) 11) refl

prepare-get_example :
    (get plain files texts allowed (with_record new_record) film_id ≡ ok (some new_record))
    × (same_import new_record film ≡ true)
    × (get plain files texts allowed (with_record new_record) "other"
        ≡ get plain files texts allowed (no_files Error Execution) "other")
unfolding prepare case_digest all_hex validate
prepare-get_example =
    prepare-get plain files (memory_disk-DiskLaws Error Execution) texts
      (memory_json-JsonLaws Error Execution) allowed (no_files Error Execution) film (pos 5) 10
      "other" {r = new_record} {changed = true} refl refl
