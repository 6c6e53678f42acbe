-- ===== src/Verification/Tests.antt =====
-- The theorem on staged joins at a concrete join (internal/joinverification/validator.go).
use nix.Base.{pos, ◌≡◌, true, false, some, List, [], ◌∷◌, ℕ}
use nix.Verification.{
  Probe, Authorized, Request, Response, Container, Part, accepted, validate_staged_join,
  request_matches, matches_container,
}
use nix.Verification.Acceptance.{validate-accepted}

-- Evidence is the length of the film.
abbrev plain : Probe
plain = record {
  Evidence = ℕ;
  Layout = ℕ;
  size_of = λ e. some (pos 1000);
  names_of = λ e. "matroska" ∷ "webm" ∷ [];
  duration_of = λ e. record { conflict = false; effective = some e };
  stream_count = λ layout. layout;
  matches_layout = λ layout e. true;
  valid_request = λ request. true;
  valid_response = λ response. true;
}

abbrev parts : List Part
parts =
    record { file_id = "one"; fingerprint = "f1" }
    ∷ record { file_id = "two"; fingerprint = "f2" }
    ∷ []

abbrev film : Authorized ℕ
film = record {
  case_id = "case";
  capability_id = "capability";
  parts = parts;
  source_bytes = pos 900;
  expected_duration = 5000;
  tolerance = 10;
  container = Container.mkv;
  layout = 2;
}

abbrev request : Request
request = record {
  request_id = "request";
  execution_id = "execution";
  case_id = "case";
  capability_id = "capability";
  parts = parts;
  source_bytes = pos 900;
  expected_duration = 5000;
  tolerance = 10;
  stream_count = 2;
  container = Container.mkv;
}

abbrev staged : ℕ → Response ℕ
staged length_of_film = Response.succeeded "request" (record {
  artifact_id = "file";
  artifact_fingerprint = "print";
  size_bytes = pos 1000;
  evidence = length_of_film;
})

validate-accepted_example : accepted (validate_staged_join plain film request (staged 4993)) ≡ true
unfolding request_matches matches_container
validate-accepted_example = validate-accepted plain film request (staged 4993)

too_long : accepted (validate_staged_join plain film request (staged 5011)) ≡ false
unfolding request_matches matches_container
too_long = validate-accepted plain film request (staged 5011)
