-- ===== src/Rollover/Tests.antt =====
-- An attempt with two phases, and runs on it.
use alpha_agent.Rollover.Build.{built_published}
use alpha_agent.Rollover.Order.{check_sequence-Chain}
use alpha_agent.Rollover.Start.{write_starts}
use alpha_agent.Rollover.Extend.{validated-Chain, write_extends}
use alpha_agent.Base.{
  ◌↔◌, ℕ, true, false, Option, none, some, [], ◌∷◌, String, str_eq, ◌≡◌, refl, if◌then◌else◌, arith,
  All,
}
use alpha_agent.Rollover.Schema.{
  collision, phase_of, Host, Phase, Document, Directory, valid, invalid, ◌>>=◌, refuse_if,
  or_refuse, prepared, outputs_published,
}
use alpha_agent.Json.{Json, Fields, obj, str, int, bool, null, field, end, get, get_field}
use alpha_agent.Rollover.Values.{
  is_backup, all_values, is_relative_path, split_path, same_keys, has_keys, only_keys, has_key,
  py_eq, as_number,
}
use alpha_agent.Rollover.Payload.{
  check_payload, check_prepared, check_followup, is_prepared_state, is_followup_state,
  is_output_hashes, time_of, boundary,
}
use alpha_agent.Rollover.Files.{
  build_attempt_payload, make_directory, write_attempt_phase, read_attempt_phase, new_entry,
  is_envelope, check_document, check_documents, check_place, check_sequence,
  validate_attempt_directory,
}
use alpha_agent.Rollover.Chain.{Chain, Step, IsBound}
use alpha_agent.Base.{is_lower_hex, length_text, all_chars, is_blank}
use alpha_agent.Rollover.Write.{write_again, refused_write, written, with_file}

abbrev digest : String
digest = "aaaaaaaaaaaaaaaaaaaaaaaaaaaaaaaaaaaaaaaaaaaaaaaaaaaaaaaaaaaaaaaa"

abbrev attempt : String
attempt = "bbbbbbbbbbbbbbbbbbbbbbbbbbbbbbbb"

moments : String → Option ℕ
moments s =
    if str_eq s "2026-01-01T00:00:00Z"
    then some 10
    else if str_eq s "2026-01-01T00:00:05Z"
    then some 15
    else none

abbrev host : Host
host = record {
  sha256 = λ _. digest;
  moment = moments;
  iso = λ _. "2026-01-01T00:00:00Z";
  whole = λ _. none;
}

abbrev hashes : Fields
hashes = field "proposal_archive" (str digest) (
    field "staged_trial" (str digest)
      (field "successor_proposal" (str digest) (field "trial_archive" (str digest) end)))

abbrev paths : Fields
paths = field "account" (str "data/account.json") (
    field "active_trial" (str "data/active.json") (
      field "predecessor_proposal" (str "data/old.json") (
        field "proposal_archive" (str "data/a.json") (
          field "staged_trial" (str "data/b.json") (
            field "successor_proposal" (str "data/c.json")
              (field "trial_archive" (str "data/d.json") end))))))

abbrev prepared_state : Fields
prepared_state = field "account_execution_registry_sha256" (str digest) (
    field "lineage" (obj end) (
      field "output_file_sha256" (obj hashes) (
        field "paths" (obj paths) (
          field "successor_proposal_id" (str "p") (
            field "successor_proposal_payload_sha256" (str digest) (
              field "successor_trial_file_sha256" (str digest) (
                field "successor_trial_id" (str "t")
                  (field "successor_trial_payload_sha256" (str digest) end))))))))

abbrev backup : Fields
backup = field "bytes" (int false 7) (
    field "files" (int false 1)
      (field "manifest_sha256" (str digest) (field "path" (str "backups/b1") end)))

abbrev payload :
    (phase time : String) (n : ℕ) (digest_of plan back : Json) (state : Fields) → Fields
payload phase time n digest_of plan back state = field "attempt_id" (str attempt) (
    field "attempt_schema_version" (str "forward-rollover-attempt.v1") (
      field "backup" back (
        field "boundary" boundary (
          field "phase" (str phase) (
            field "plan" plan (
              field "plan_sha256" (str digest) (
                field "prepared_payload_sha256" digest_of (
                  field "recorded_at" (str time) (
                    field "rollover_key" (str digest)
                      (field "sequence" (int false n) (field "state" (obj state) end)))))))))))

abbrev first_payload : Fields
first_payload =
    payload "prepared" "2026-01-01T00:00:00Z" 1 null (obj end) (obj backup) prepared_state

abbrev outputs_state : Fields
outputs_state = field "active_trial_file_sha256" (str digest) (
    field "output_file_sha256" (obj hashes)
      (field "recovered_after_process_interruption" (bool false) end))

abbrev second_payload : Fields
second_payload =
    payload "outputs_published" "2026-01-01T00:00:05Z" 2 (str digest) null null outputs_state

abbrev empty_directory : Directory
empty_directory = record {
  name = attempt;
  parent = "attempts";
  grandparent = digest;
  is_safe = true;
  is_missing = false;
  entries = [];
}

abbrev directory : Directory
directory = with_file host prepared first_payload empty_directory

first_valid : check_payload host first_payload ≡ valid prepared
unfolding check_payload check_prepared is_backup is_prepared_state is_output_hashes all_values
    is_relative_path split_path time_of same_keys has_keys only_keys has_key py_eq as_number
    phase_of get get_field is_lower_hex length_text all_chars is_blank ◌>>=◌ refuse_if or_refuse
    moments
first_valid = refl

second_valid : check_payload host second_payload ≡ valid outputs_published
unfolding check_payload check_followup is_followup_state is_output_hashes all_values time_of
    same_keys has_keys only_keys has_key py_eq as_number phase_of get get_field is_lower_hex
    length_text all_chars ◌>>=◌ refuse_if or_refuse moments
second_valid = refl

digest_hex : is_lower_hex 64 digest ≡ true
unfolding is_lower_hex length_text all_chars
digest_hex = refl

directory_valid :
    validate_attempt_directory host directory ≡ valid (written host prepared first_payload ∷ [])
unfolding validate_attempt_directory new_entry read_attempt_phase is_envelope check_place
    check_sequence check_documents check_document check_payload check_prepared is_backup
    is_prepared_state is_output_hashes all_values is_relative_path split_path time_of same_keys
    has_keys only_keys has_key py_eq as_number phase_of get get_field is_lower_hex length_text
    all_chars is_blank ◌>>=◌ refuse_if or_refuse moments
directory_valid = refl

-- A phase is published once.
write_again_example :
    (write_attempt_phase host empty_directory first_payload
      ≡ (valid (written host prepared first_payload), directory))
    × (write_attempt_phase host directory first_payload
        ≡ (valid (written host prepared first_payload), directory))
write_again_example =
    write_again host empty_directory prepared first_payload first_valid digest_hex refl refl

second-IsBound :
    IsBound (written host prepared first_payload) (written host outputs_published second_payload)
unfolding get get_field
second-IsBound = record {
  attempt_id = refl;
  rollover_key = refl;
  plan_sha256 = refl;
  digest = refl;
}

first_time : time_of host first_payload ≡ some 10
unfolding time_of get get_field moments
first_time = refl

second_time : time_of host second_payload ≡ some 15
unfolding time_of get get_field moments
second_time = refl

write_extends_example :
    (write_attempt_phase host directory second_payload ≡ (
      valid (written host outputs_published second_payload),
      with_file host outputs_published second_payload directory,
    ))
    × (validate_attempt_directory host (with_file host outputs_published second_payload directory)
        ≡ valid (
            written host prepared first_payload
            ∷ written host outputs_published second_payload
            ∷ []))
write_extends_example =
    write_extends host directory (written host prepared first_payload) [] outputs_published prepared
      second_payload 10 15 10 directory_valid first_time Chain.done second_valid digest_hex
      Step.publishes second-IsBound second_time (omega arith)

validated-Chain_example :
    (t : ℕ) × (r : Phase) × (v : ℕ) × (time_of host first_payload ≡ some t)
    × (prepared ≡ prepared)
    × Chain host (written host prepared first_payload) prepared t [] r v
    × All
        (λ (y : Document). get "attempt_id" (obj y.payload) ≡ some (str attempt))
        (written host prepared first_payload ∷ [])
validated-Chain_example =
    validated-Chain host directory (written host prepared first_payload) [] directory_valid

check_sequence-Chain_example :
    (check_sequence host
        (written host prepared first_payload)
        (written host prepared first_payload ∷ written host outputs_published second_payload ∷ [])
      ≡ valid tt)
    ↔ ((r : Phase) × (v : ℕ) × Chain host
          (written host prepared first_payload)
          prepared
          10
          (written host outputs_published second_payload ∷ [])
          r
          v)
check_sequence-Chain_example =
    check_sequence-Chain host (written host prepared first_payload)
      (written host outputs_published second_payload ∷ []) 10 first_valid refl first_time

other_collides :
    (write_attempt_phase host directory
      (payload "prepared" "2026-01-01T00:00:05Z" 1 null (obj end) (obj backup) prepared_state)).0
    ≡ invalid collision
unfolding write_attempt_phase new_entry read_attempt_phase is_envelope check_payload check_prepared
    is_backup is_prepared_state is_output_hashes all_values is_relative_path split_path time_of
    same_keys has_keys only_keys has_key py_eq as_number phase_of get get_field is_lower_hex
    length_text all_chars is_blank ◌>>=◌ refuse_if or_refuse moments
other_collides = refl

refused_write_example :
    (write_attempt_phase host directory
      (payload "prepared" "2026-01-01T00:00:05Z" 1 null (obj end) (obj backup) prepared_state)).1
    ≡ directory
refused_write_example =
    refused_write host directory
      (payload "prepared" "2026-01-01T00:00:05Z" 1 null (obj end) (obj backup) prepared_state)
      collision digest_hex other_collides

first_built :
    build_attempt_payload host attempt digest digest "prepared"
      (some 10)
      prepared_state
      null
      (obj end)
      (obj backup)
    ≡ valid first_payload
unfolding build_attempt_payload check_payload check_prepared is_backup is_prepared_state
    is_output_hashes all_values is_relative_path split_path time_of same_keys has_keys only_keys
    has_key py_eq as_number phase_of get get_field is_lower_hex length_text all_chars is_blank ◌>>=◌
    refuse_if or_refuse moments
first_built = refl

prepared_named : phase_of "prepared" ≡ some prepared
unfolding phase_of
prepared_named = refl

built_published_example :
    (write_attempt_phase host empty_directory first_payload
      ≡ (valid (written host prepared first_payload), directory))
    × (read_attempt_phase host (new_entry host prepared first_payload)
        ≡ valid (written host prepared first_payload))
built_published_example =
    built_published host empty_directory attempt digest digest "prepared" (some 10) prepared_state
      null (obj end) (obj backup) first_payload prepared first_built prepared_named digest_hex refl
      refl

abbrev no_directory : Directory
no_directory = record empty_directory { is_safe = false; is_missing = true }

first_plan : get "plan" (obj first_payload) ≡ some (obj end)
unfolding get get_field
first_plan = refl

first_plan_digest : get "plan_sha256" (obj first_payload) ≡ some (str digest)
unfolding get get_field
first_plan_digest = refl

first_attempt : get "attempt_id" (obj first_payload) ≡ some (str attempt)
unfolding get get_field
first_attempt = refl

first_key : get "rollover_key" (obj first_payload) ≡ some (str digest)
unfolding get get_field
first_key = refl

write_starts_example :
    (write_attempt_phase host no_directory first_payload ≡ (
      valid (written host prepared first_payload),
      with_file host prepared first_payload (make_directory no_directory),
    ))
    × (validate_attempt_directory host
          (with_file host prepared first_payload (make_directory no_directory))
        ≡ valid (written host prepared first_payload ∷ []))
write_starts_example =
    write_starts host no_directory first_payload (obj end) refl refl first_valid digest_hex
      first_plan first_plan_digest first_attempt refl first_key
