-- ===== src/Rollover/Payload.antt =====
-- `_validate_attempt_payload` and the validators that it calls, and Python's `==` on JSON values.
use alpha_agent.Rollover.Values.{
  is_relative_path, is_false, is_attempt_id, is_nonempty_text, all_values, is_bool, is_none_value,
  is_sha, is_backup, py_eq, fields_of, same_keys,
}
use alpha_agent.Rollover.Schema.{
  bad_timestamp, sequence, bad_payload, bad_backup, schema_version, or_refuse, bad_state,
  bad_schema, incomplete_prepared, bad_followup, refuse_if, phase_of, Host, Verdict, valid, Phase,
  prepared, outputs_published, active_swapped, verified, recovered_rolled_back, ◌>>=◌, ◌>>◌,
}
use alpha_agent.Base.{
  is_lower_hex, ℕ, ◌&&◌, ◌||◌, not, Bool, true, false, Option, none, some, List, [], ◌∷◌, String,
  str_eq, is_some, is_none,
}
use alpha_agent.Json.{Json, null, bool, int, float, str, arr, obj, Fields, end, field, get}

abbrev path_keys : List String
path_keys =
    "account" ∷ "active_trial" ∷ "predecessor_proposal" ∷ "proposal_archive" ∷ "staged_trial"
    ∷ "successor_proposal" ∷ "trial_archive" ∷ []

abbrev output_keys : List String
output_keys = "trial_archive" ∷ "proposal_archive" ∷ "successor_proposal" ∷ "staged_trial" ∷ []

abbrev prepared_keys : List String
prepared_keys =
    "paths" ∷ "output_file_sha256" ∷ "successor_proposal_payload_sha256" ∷ "successor_proposal_id"
    ∷ "successor_trial_file_sha256" ∷ "successor_trial_payload_sha256" ∷ "successor_trial_id"
    ∷ "lineage" ∷ "account_execution_registry_sha256" ∷ []

-- `_validate_output_hashes`, and the same test of the prepared state.
unfoldable pub is_output_hashes : Option Json → Bool
unfolding same_keys all_values is_lower_hex
is_output_hashes value = elim (fields_of value) [
  | none ↦ false
  | some r ↦ same_keys output_keys r && all_values (λ v. is_sha (some v)) r
]

abbrev is_paths : Option Json → Bool
is_paths value = elim (fields_of value) [
  | none ↦ false
  | some r ↦ same_keys path_keys r && all_values (λ v. is_relative_path (some v)) r
]

abbrev all_sha : List String → Fields → Bool
all_sha [] r = true
all_sha (k ∷ ks) r = is_sha (get k (obj r)) && all_sha ks r

-- `_validate_prepared_state`
unfoldable pub is_prepared_state : Fields → Bool
unfolding same_keys is_output_hashes get
is_prepared_state r =
    same_keys prepared_keys r
    && is_paths (get "paths" (obj r))
    && is_output_hashes (get "output_file_sha256" (obj r))
    && all_sha
        ("successor_proposal_payload_sha256" ∷ "successor_trial_file_sha256"
          ∷ "successor_trial_payload_sha256" ∷ "account_execution_registry_sha256" ∷ [])
        r
    && is_nonempty_text (get "successor_proposal_id" (obj r))
    && is_nonempty_text (get "successor_trial_id" (obj r))
    && is_some (fields_of (get "lineage" (obj r)))

abbrev is_text_value : String → Option Json → Bool
is_text_value t (some (str s)) = str_eq s t
is_text_value t _ = false

abbrev is_true_value : Option Json → Bool
is_true_value (some (bool true)) = true
is_true_value _ = false

-- `_validate_followup_state`
unfoldable pub is_followup_state : Phase → Fields → Bool
unfolding same_keys is_output_hashes get
is_followup_state prepared r = true
is_followup_state outputs_published r =
    same_keys
      ("output_file_sha256" ∷ "active_trial_file_sha256" ∷ "recovered_after_process_interruption"
        ∷ [])
      r
    && is_sha (get "active_trial_file_sha256" (obj r))
    && is_bool (get "recovered_after_process_interruption" (obj r))
    && is_output_hashes (get "output_file_sha256" (obj r))
is_followup_state active_swapped r =
    same_keys
      ("active_trial_file_sha256" ∷ "active_trial_payload_sha256"
        ∷ "recovered_after_process_interruption" ∷ [])
      r
    && all_sha ("active_trial_file_sha256" ∷ "active_trial_payload_sha256" ∷ []) r
    && is_bool (get "recovered_after_process_interruption" (obj r))
is_followup_state verified r =
    same_keys
      ("authority" ∷ "active_trial_file_sha256" ∷ "active_trial_payload_sha256"
        ∷ "account_file_sha256" ∷ "account_execution_registry_sha256" ∷ "backup_manifest_sha256"
        ∷ "paper_fill_recorded" ∷ "broker_order_sent" ∷ "recovered_after_process_interruption" ∷ [])
      r
    && is_text_value "successor" (get "authority" (obj r))
    && all_sha
        ("active_trial_file_sha256" ∷ "active_trial_payload_sha256" ∷ "account_file_sha256"
          ∷ "account_execution_registry_sha256" ∷ "backup_manifest_sha256" ∷ [])
        r
    && is_false (get "paper_fill_recorded" (obj r))
    && is_false (get "broker_order_sent" (obj r))
    && is_bool (get "recovered_after_process_interruption" (obj r))
is_followup_state recovered_rolled_back r =
    same_keys
      ("authority" ∷ "active_trial_file_sha256" ∷ "error_type" ∷ "outputs_removed"
        ∷ "account_file_sha256" ∷ "account_execution_registry_sha256" ∷ "backup_manifest_sha256"
        ∷ [])
      r
    && is_text_value "predecessor" (get "authority" (obj r))
    && all_sha
        ("active_trial_file_sha256" ∷ "account_file_sha256" ∷ "account_execution_registry_sha256"
          ∷ "backup_manifest_sha256" ∷ [])
        r
    && is_nonempty_text (get "error_type" (obj r))
    && is_true_value (get "outputs_removed" (obj r))

-- `_BOUNDARY`, in key order.
abbrev pub boundary : Json
boundary = obj (
    field "broker_order_sent" (bool false) (
      field "paper_account_mutation" (bool false) (
        field "paper_fill_recorded" (bool false) (
          field "predecessor_rewrite" (bool false) (field "retrospective_fill" (bool false) end)))))

-- `_PAYLOAD_FIELDS`
abbrev pub payload_keys : List String
payload_keys =
    "attempt_schema_version" ∷ "attempt_id" ∷ "rollover_key" ∷ "plan_sha256" ∷ "phase" ∷ "sequence"
    ∷ "recorded_at" ∷ "prepared_payload_sha256" ∷ "plan" ∷ "backup" ∷ "state" ∷ "boundary" ∷ []

abbrev pub equals : Host → Json → Option Json → Bool
equals h v none = false
equals h v (some w) = py_eq h w v

abbrev pub phase_value : Option Json → Option Phase
phase_value (some (str s)) = phase_of s
phase_value _ = none

-- `_parse_timestamp(payload["recorded_at"])`
unfoldable pub time_of : Host → Fields → Option ℕ
unfolding get
time_of h r = elim (get "recorded_at" (obj r)) [
  | none ↦ none
  | some v ↦ elim v [
    | str s ↦ h.moment s
    | null ↦ none
    | bool b ↦ none
    | int s n ↦ none
    | float t ↦ none
    | arr i ↦ none
    | obj o ↦ none
  ]
]

-- The branch of the prepared phase.
unfoldable pub check_prepared : Host → Fields → (state : Fields) → Verdict (Unit {0})
unfolding is_backup is_prepared_state
check_prepared h r state = do
  refuse_if (not (is_none_value (get "prepared_payload_sha256" (obj r)))) incomplete_prepared
  plan ← or_refuse (fields_of (get "plan" (obj r))) incomplete_prepared
  backup ← or_refuse (fields_of (get "backup" (obj r))) incomplete_prepared
  refuse_if (not (equals h (str (h.sha256 (obj plan))) (get "plan_sha256" (obj r))))
      incomplete_prepared
  refuse_if (not (is_backup backup)) bad_backup
  refuse_if (not (is_prepared_state state)) bad_state

-- The branch of the other phases.
unfoldable pub check_followup : Phase → Fields → (state : Fields) → Verdict (Unit {0})
unfolding is_followup_state
check_followup phase r state = do
  refuse_if
      (not (is_sha (get "prepared_payload_sha256" (obj r)))
        || not (is_none_value (get "plan" (obj r)))
        || not (is_none_value (get "backup" (obj r))))
      bad_followup
  refuse_if (not (is_followup_state phase state)) bad_state

abbrev check_phase : Host → Phase → Fields → Fields → Verdict (Unit {0})
check_phase h prepared r state = check_prepared h r state
check_phase h phase r state = check_followup phase r state

-- `_validate_attempt_payload`, with the phase that it found.
unfoldable pub check_payload : Host → Fields → Verdict Phase
unfolding same_keys get py_eq is_lower_hex time_of check_prepared check_followup phase_of
check_payload h r = do
  refuse_if (not (same_keys payload_keys r)) bad_schema
  refuse_if (not (equals h (str schema_version) (get "attempt_schema_version" (obj r)))) bad_payload
  phase ← or_refuse (phase_value (get "phase" (obj r))) bad_payload
  refuse_if (not (equals h (int false (sequence phase)) (get "sequence" (obj r)))) bad_payload
  refuse_if (not (is_attempt_id (get "attempt_id" (obj r)))) bad_payload
  refuse_if (not (is_sha (get "rollover_key" (obj r)))) bad_payload
  refuse_if (not (is_sha (get "plan_sha256" (obj r)))) bad_payload
  refuse_if (not (equals h boundary (get "boundary" (obj r)))) bad_payload
  state ← or_refuse (fields_of (get "state" (obj r))) bad_payload
  refuse_if (is_none (time_of h r)) bad_timestamp
  check_phase h phase r state
  valid phase
