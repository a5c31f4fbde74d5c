-- ===== src/Rollover/Files.antt =====
-- The files of an attempt: `build_attempt_payload`, `read_attempt_phase`, `write_attempt_phase` and
-- `validate_attempt_directory`.
use alpha_agent.Base.{
  exists, sort_by, ℕ, suc, ◌&&◌, ◌||◌, not, Bool, true, false, Option, none, some, List, [], ◌∷◌,
  ◌++◌, String, str_eq, if◌then◌else◌, ltb, leb,
}
use Prim.Native.String.{compare as compare_text}
use Prim.Native.Nat.{Ordering}
use alpha_agent.Base.{first}
use alpha_agent.Json.{Json, Fields, obj, str, int, field, end, get, is_text}
use alpha_agent.Rollover.Schema.{
  is_terminal, other_prepared, time_out_of_order, wrong_name, out_of_order, checksum_mismatch,
  bad_envelope, other_identity, not_prepared, sequence, after_terminal, wrong_path, no_active_swap,
  unsupported_file, no_outputs, unsafe_entry, unreadable_file, bad_timestamp, wrong_directory,
  repeated_phase, collision, bad_phase, unsafe_file, schema_version, another_plan, document_kind,
  refuse_if, unsafe_directory, or_refuse, Directory, Verdict, file_name, Phase, Document, Host,
  Entry, phase_of, ◌>>=◌, ◌>>◌, prepared, outputs_published, active_swapped, verified,
  recovered_rolled_back, valid, invalid,
}
use alpha_agent.Rollover.Values.{fields_of, is_sha, py_eq, same_keys}
use alpha_agent.Rollover.Payload.{boundary, time_of, equals, check_payload}

unfoldable pub build_attempt_payload :
    Host
    → (attempt_id rollover_key plan_sha256 phase : String) → (recorded_at : Option ℕ)
    → (state : Fields) → (prepared_payload_sha256 plan backup : Json) → Verdict Fields
build_attempt_payload h attempt_id rollover_key plan_sha256 phase recorded_at state digest plan
      backup =
    do
      p ← or_refuse (phase_of phase) bad_phase
      moment ← or_refuse recorded_at bad_timestamp
      let payload = field "attempt_id" (str attempt_id) (
          field "attempt_schema_version" (str schema_version) (
            field "backup" backup (
              field "boundary" boundary (
                field "phase" (str phase) (
                  field "plan" plan (
                    field "plan_sha256" (str plan_sha256) (
                      field "prepared_payload_sha256" digest (
                        field "recorded_at" (str (h.iso moment)) (
                          field "rollover_key" (str rollover_key) (
                            field "sequence" (int false (sequence p))
                              (field "state" (obj state) end)))))))))))
      _ ← check_payload h payload
      valid payload

abbrev pub envelope_keys : List String
envelope_keys = "document_kind" ∷ "schema_version" ∷ "payload_sha256" ∷ "payload" ∷ []

-- The test of the envelope's members, its payload apart.
unfoldable pub is_envelope : Fields → Bool
is_envelope e =
    same_keys envelope_keys e
    && is_text document_kind (get "document_kind" (obj e))
    && is_text schema_version (get "schema_version" (obj e))
    && is_sha (get "payload_sha256" (obj e))

unfoldable pub read_attempt_phase : Host → Entry → Verdict Document
read_attempt_phase h e = do
  refuse_if (not e.is_plain || not e.has_one_link) unsafe_file
  raw ← or_refuse e.content unreadable_file
  envelope ← or_refuse (fields_of (some raw)) bad_envelope
  refuse_if (not (is_envelope envelope)) bad_envelope
  payload ← or_refuse (fields_of (get "payload" (obj envelope))) bad_envelope
  phase ← check_payload h payload
  let actual = h.sha256 (obj payload)
  refuse_if (not (is_text actual (get "payload_sha256" (obj envelope)))) checksum_mismatch
  refuse_if (not (str_eq e.name (file_name phase))) wrong_name
  valid (record { file = e.name; phase = phase; payload = payload; payload_sha256 = actual })

-- The new file, whose text is the canonical JSON of the envelope.
unfoldable pub new_entry : Host → Phase → Fields → Entry
new_entry h phase payload = record {
  name = file_name phase;
  is_plain = true;
  has_one_link = true;
  content = some (
      obj (
        field "document_kind" (str document_kind) (
          field "payload" (obj payload) (
            field "payload_sha256" (str (h.sha256 (obj payload)))
              (field "schema_version" (str schema_version) end)))));
}

-- `existing.payload != normalized`
abbrev pub unless_other : Host → Fields → Document → Verdict Document
unless_other h payload existing =
    refuse_if (not (py_eq h (obj existing.payload) (obj payload))) collision >> valid existing

abbrev pub has_name : String → Entry → Bool
has_name n e = str_eq e.name n

abbrev pub publish : Host → Phase → Fields → Directory → Option Entry → Verdict Document × Directory
publish h phase payload d (some e) = (read_attempt_phase h e >>= unless_other h payload, d)
publish h phase payload d none =
    let e = new_entry h phase payload in
    (read_attempt_phase h e, record d { entries = d.entries ++ (e ∷ []) })

-- `directory.mkdir(mode=0o700, parents=True, exist_ok=True)`
abbrev pub make_directory : Directory → Directory
make_directory d =
    if not d.is_safe && d.is_missing
    then record d { is_safe = true; is_missing = false; entries = [] }
    else d

abbrev pub write_checked : Host → Directory → Fields → Verdict Phase → Verdict Document × Directory
write_checked h d payload (invalid p) = (invalid p, d)
write_checked h d payload (valid phase) =
    let made = make_directory d in
    if not made.is_safe
    then (invalid unsafe_directory, d)
    else publish h phase payload made (first (has_name (file_name phase)) made.entries)

-- The result with the directory that is left.
unfoldable pub write_attempt_phase : Host → Directory → Fields → Verdict Document × Directory
write_attempt_phase h d payload = write_checked h d payload (check_payload h payload)

-- `sorted(directory.iterdir())`, in the order of the names.
abbrev pub comes_first : Entry → Entry → Bool
comes_first a b = elim (compare_text a.name b.name) [ Ordering.gt ↦ false | _ ↦ true ]

abbrev pub is_allowed : Entry → Bool
is_allowed e =
    str_eq e.name "01-prepared.json"
    || str_eq e.name "02-outputs-published.json"
    || str_eq e.name "03-active-swapped.json"
    || str_eq e.name "04-verified.json"
    || str_eq e.name "04-recovered-rolled-back.json"

abbrev pub read_all : Host → List Entry → Verdict (List Document)
read_all h [] = valid []
read_all h (e ∷ es) = do d ← read_attempt_phase h e; ds ← read_all h es; valid (d ∷ ds)

abbrev pub same_phase : Phase → Phase → Bool
same_phase prepared prepared = true
same_phase outputs_published outputs_published = true
same_phase active_swapped active_swapped = true
same_phase verified verified = true
same_phase recovered_rolled_back recovered_rolled_back = true
same_phase _ _ = false

-- What the loop over the documents carries.
pub record Scan : Type 0 where
  pub seen : List Phase
  pub last_sequence : ℕ
  pub last_timestamp : Option ℕ
  pub terminal_seen : Bool

abbrev pub same_member : Host → String → Fields → Fields → Bool
same_member h k r s = elim (get k (obj s)) [ none ↦ false | some v ↦ equals h v (get k (obj r)) ]

abbrev pub is_earlier : ℕ → Option ℕ → Bool
is_earlier t none = false
is_earlier t (some last) = ltb t last

-- One round of the loop.
unfoldable pub check_document :
    Host → (start : Document) → (index : ℕ) → Document → Scan → Verdict Scan
check_document h start index d s = do
  refuse_if (exists (same_phase d.phase) s.seen) repeated_phase
  refuse_if s.terminal_seen after_terminal
  refuse_if
      (not (same_member h "attempt_id" d.payload start.payload)
        || not (same_member h "rollover_key" d.payload start.payload)
        || not (same_member h "plan_sha256" d.payload start.payload))
      other_identity
  refuse_if (leb (sequence d.phase) s.last_sequence) out_of_order
  t ← or_refuse (time_of h d.payload) bad_timestamp
  refuse_if (is_earlier t s.last_timestamp) time_out_of_order
  refuse_if
      (ltb 0 index
        && not
            (equals h (str start.payload_sha256) (get "prepared_payload_sha256" (obj d.payload))))
      other_prepared
  valid (record {
    seen = d.phase ∷ s.seen;
    last_sequence = sequence d.phase;
    last_timestamp = some t;
    terminal_seen = s.terminal_seen || is_terminal d.phase;
  })

unfoldable pub check_documents :
    Host → (start : Document) → (index : ℕ) → List Document → Scan → Verdict Scan
check_documents h start index [] s = valid s
check_documents h start index (d ∷ ds) s = do
  t ← check_document h start index d s
  check_documents h start (suc index) ds t

abbrev pub no_scan : Scan
no_scan = record { seen = []; last_sequence = 0; last_timestamp = none; terminal_seen = false }

-- The loop, and the two tests after it.
unfoldable pub check_sequence : Host → (start : Document) → List Document → Verdict (Unit {0})
check_sequence h start ds = do
  s ← check_documents h start 0 ds no_scan
  refuse_if
      (exists (same_phase active_swapped) s.seen
        && not (exists (same_phase outputs_published) s.seen))
      no_outputs
  refuse_if (exists (same_phase verified) s.seen && not (exists (same_phase active_swapped) s.seen))
      no_active_swap

abbrev pub first_prepared : List Document → Option Document
first_prepared [] = none
first_prepared (d ∷ ds) = if same_phase d.phase prepared then some d else none

-- The tests of the prepared document against the directory.
unfoldable pub check_place : Host → Directory → Document → Verdict (Unit {0})
check_place h d start = do
  plan ← or_refuse (get "plan" (obj start.payload)) another_plan
  refuse_if (not (equals h (str (h.sha256 plan)) (get "plan_sha256" (obj start.payload))))
      another_plan
  refuse_if (not (equals h (str d.name) (get "attempt_id" (obj start.payload)))) wrong_directory
  refuse_if
      (not (str_eq d.parent "attempts")
        || not (equals h (str d.grandparent) (get "rollover_key" (obj start.payload))))
      wrong_path

unfoldable pub validate_attempt_directory : Host → Directory → Verdict (List Document)
validate_attempt_directory h d = do
  refuse_if (not d.is_safe) unsafe_directory
  let children = sort_by comes_first d.entries
  refuse_if (exists (λ e. not e.is_plain) children) unsafe_entry
  refuse_if (exists (λ e. not (is_allowed e)) children) unsupported_file
  documents ← read_all h children
  start ← or_refuse (first_prepared documents) not_prepared
  check_place h d start
  check_sequence h start documents
  valid documents
