-- ===== src/Casestore/Join/Tests.antt =====
-- The theorems on a join's record at a concrete join (internal/casestore/join_execution.go).
use nix.Base.{
  ◌≡◌, refl, ◌≤◌, ◌+◌, pos, some, ok, List, [], ◌∷◌, true, false, String, str_eq, str_append,
  eq_refl, eq_iff, if◌then◌else◌,
}
use nix.Durable.{Disk, Json}
use nix.Durable.Memory.{
  memory_disk, memory_disk-DiskLaws, memory_json, memory_json-JsonLaws, no_files,
}
use nix.Durable.Refinement.{IsUpdate}
use nix.Casestore.CaseId.{case_digest, all_hex}
use nix.Casestore.Join.Validation.{validate}
use nix.Casestore.Join.{JoinError, JoinState, JoinPlatform, JoinExecution, Artifact, Published}
use nix.Casestore.Join.Changes.{PublishResponse, StageResponse, Verification, Change, change}
use nix.Casestore.Join.Changes.Replays.{SameLaws, change-repeats}
use nix.Casestore.Join.Changes.Sequences.{
  changes, changes-le, after_changes, is_verified, after_changes-verified,
}
use nix.Casestore.Join.Store.{Worker, keeping, codec, prepared_record, publish}
use nix.Casestore.Join.Store.{prepare}
use nix.Casestore.Join.Preparing.{IsPreparation, prepare-IsPreparation}
use nix.Casestore.Join.Table.{Call, answer, join-IsUpdate}

-- Authorizations and import commands are texts, and everything is valid.
abbrev plain : JoinPlatform
plain = record {
  platform = record {
    trim = λ s. s;
    has_nul = λ s. false;
    is_abs = λ s. true;
    clean = λ s. s;
    dir = λ s. "/";
  };
  Authorized = String;
  case_id = λ a. a;
  same_authorized = str_eq;
  digest = λ domain a. ok (str_append domain a);
  Command = String;
  complete = λ c. true;
  same_command = str_eq;
  movie_id = λ c. pos 3;
  download_id = λ c. "abc";
  path = λ c. "/downloads/film";
  valid_authorized = λ a. ok tt;
  valid_failure = λ operation reason. ok tt;
  valid_published = λ artifact published. true;
}

plain-SameLaws : SameLaws plain
plain-SameLaws = record {
  same_authorized_refl = eq_refl;
  same_authorized-eq = λ a b. (eq_iff a b).0;
  same_command_refl = eq_refl;
}

abbrev digest : String
digest = "0123456789abcdef0123456789abcdef0123456789abcdef0123456789abcdef"

abbrev film : String
film = "sha256:0123456789abcdef0123456789abcdef0123456789abcdef0123456789abcdef"

abbrev joined_file : Artifact
joined_file = record { id = "file"; fingerprint = "print"; size_bytes = pos 1000 }

abbrev destination : Published
destination = record { root_id = "films"; path_components = "film.mkv" ∷ [] }

abbrev fine : Verification
fine = record { publishes = true; discards = false; reasons = [] }

abbrev execution : String
execution =
    "execution:radarr-repair-join-execution-v2\0sha256:0123456789abcdef0123456789abcdef0123456789abcdef0123456789abcdef"

abbrev new_record : JoinExecution plain
new_record = prepared_record plain execution film 10

abbrev ready_record : JoinExecution plain
ready_record = record new_record {
  state = JoinState.artifact_ready;
  stage = some [];
  artifact = some joined_file;
  updated_at = 11;
}

abbrev published_record : JoinExecution plain
published_record = record ready_record {
  state = JoinState.artifact_published;
  publication = some destination;
  updated_at = 12;
}

abbrev answered : PublishResponse
answered = PublishResponse.succeeded "file" "print" destination

abbrev results : List (Change plain)
results =
    Change.staging film execution (StageResponse.succeeded joined_file) fine
    ∷ Change.publishing answered
    ∷ Change.publishing answered
    ∷ Change.preparing "film" (pos 5) 13
    ∷ Change.requesting (pos 42)
    ∷ Change.failing
    ∷ []

change-repeats_example :
    change plain (Change.publishing answered) published_record ≡ ok (published_record, false)
unfolding change
change-repeats_example =
    change-repeats plain plain-SameLaws (Change.publishing answered) ready_record 12 refl

changes-le_example : changes plain results new_record + 0 ≤ 5
changes-le_example = changes-le plain results new_record

after_changes-verified_example : is_verified plain (after_changes plain results new_record) ≡ true
after_changes-verified_example = after_changes-verified plain results new_record refl

abbrev files : Disk JoinError
files = memory_disk JoinError (JoinExecution plain)

abbrev texts : Json JoinError (JoinExecution plain) (JoinExecution plain)
texts = memory_json JoinError (JoinExecution plain)

abbrev helpful : Worker plain files.Fs
helpful = record {
  StageRequest = String;
  request_execution = λ request. request;
  encode_request = λ request. ok tt;
  encode_stage = λ response. ok tt;
  encode_publish = λ response. ok tt;
  encode_discard = λ response. ok tt;
  verify = λ a request response. fine;
  authorization = λ s a. ok tt;
  stored_case = λ s case_id command. ok tt;
}

abbrev with_record : JoinExecution plain → files.Fs → files.Fs
with_record r s path = if str_eq path digest then some r else s path

abbrev one_ready : files.Fs
one_ready = with_record ready_record (no_files JoinError (JoinExecution plain))

join-IsUpdate_example :
    IsUpdate files
      (codec plain files texts helpful)
      (keeping plain)
      one_ready
      (with_record published_record one_ready)
      film
      12
      (change plain (Change.publishing answered))
      published_record
      true
unfolding answer case_digest all_hex publish validate
join-IsUpdate_example =
    join-IsUpdate plain files (memory_disk-DiskLaws JoinError (JoinExecution plain)) texts
      (memory_json-JsonLaws JoinError (JoinExecution plain)) helpful one_ready
      (Call.published film answered 12) refl

-- A join that was discarded under the identifier of an older version.
abbrev discarded_record : JoinExecution plain
discarded_record = record ready_record {
  execution_id =
      "execution:radarr-repair-join-execution-v1\0sha256:0123456789abcdef0123456789abcdef0123456789abcdef0123456789abcdef";
  state = JoinState.artifact_discarded;
  stage = some ("fingerprint_changed" ∷ []);
}

abbrev one_discarded : files.Fs
one_discarded = with_record discarded_record (no_files JoinError (JoinExecution plain))

prepare-IsPreparation_example :
    IsPreparation plain plain-SameLaws files
      (memory_disk-DiskLaws JoinError (JoinExecution plain))
      texts
      (memory_json-JsonLaws JoinError (JoinExecution plain))
      helpful
      one_discarded
      (with_record new_record one_discarded)
      film
      new_record
      true
unfolding prepare case_digest all_hex validate
prepare-IsPreparation_example =
    prepare-IsPreparation plain plain-SameLaws files
      (memory_disk-DiskLaws JoinError (JoinExecution plain)) texts
      (memory_json-JsonLaws JoinError (JoinExecution plain)) helpful one_discarded film 10 refl
