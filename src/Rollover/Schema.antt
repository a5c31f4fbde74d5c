-- ===== src/Rollover/Schema.antt =====
-- The phases, the documents and the files of a rollover attempt, and the refusals.
use alpha_agent.Base.{ℕ, Bool, true, false, Option, none, some, List, String, str_eq, if◌then◌else◌}
use alpha_agent.Json.{Json, Fields}

-- `PHASE_SEQUENCE`
pub data Phase : Type 0 where
  prepared outputs_published active_swapped verified recovered_rolled_back : Phase

abbrev pub sequence : Phase → ℕ
sequence prepared = 1
sequence outputs_published = 2
sequence active_swapped = 3
sequence verified = 4
sequence recovered_rolled_back = 4

abbrev pub phase_text : Phase → String
phase_text prepared = "prepared"
phase_text outputs_published = "outputs_published"
phase_text active_swapped = "active_swapped"
phase_text verified = "verified"
phase_text recovered_rolled_back = "recovered_rolled_back"

-- `phase in PHASE_SEQUENCE`, with the phase.
unfoldable pub phase_of : String → Option Phase
phase_of s =
    if str_eq s "prepared"
    then some prepared
    else if str_eq s "outputs_published"
    then some outputs_published
    else if str_eq s "active_swapped"
    then some active_swapped
    else if str_eq s "verified"
    then some verified
    else if str_eq s "recovered_rolled_back"
    then some recovered_rolled_back
    else none

-- `PHASE_FILENAMES`
abbrev pub file_name : Phase → String
file_name prepared = "01-prepared.json"
file_name outputs_published = "02-outputs-published.json"
file_name active_swapped = "03-active-swapped.json"
file_name verified = "04-verified.json"
file_name recovered_rolled_back = "04-recovered-rolled-back.json"

-- `TERMINAL_PHASES`
abbrev pub is_terminal : Phase → Bool
is_terminal verified = true
is_terminal recovered_rolled_back = true
is_terminal _ = false

abbrev pub schema_version : String
schema_version = "forward-rollover-attempt.v1"

abbrev pub document_kind : String
document_kind = "aios.forward-rollover-attempt"

-- What the journal takes from Python's library: the digest of a canonical text, the moment that an
-- ISO text with a timezone denotes, the text of a moment, and the integer that a float equals.
pub record Host : Type 0 where
  pub sha256 : Json → String
  pub moment : String → Option ℕ
  pub iso : ℕ → String
  pub whole : String → Option (Bool × ℕ)

-- The ValueErrors, one for each message.
pub data Problem : Type 0 where
  bad_phase bad_schema bad_payload bad_timestamp incomplete_prepared bad_followup : Problem
  bad_backup bad_state : Problem
  unsafe_file unreadable_file bad_envelope checksum_mismatch wrong_name : Problem
  collision unsafe_directory unsafe_entry unsupported_file : Problem
  not_prepared another_plan wrong_directory wrong_path : Problem
  repeated_phase after_terminal other_identity out_of_order time_out_of_order : Problem
  other_prepared no_outputs no_active_swap : Problem

pub data Verdict {ℓ} (A : Type ℓ) : Type ℓ where
  valid : A → Verdict A
  invalid : Problem → Verdict A

infixl 5 ◌>>=◌ ◌>>◌
unfoldable pub ◌>>=◌ : {A B : Type 0} → Verdict A → (A → Verdict B) → Verdict B
valid a >>= f = f a
invalid p >>= f = invalid p

abbrev pub ◌>>◌ : {B : Type 0} → Verdict (Unit {0}) → Verdict B → Verdict B
m >> k = m >>= λ _. k

unfoldable pub refuse_if : Bool → Problem → Verdict (Unit {0})
refuse_if true p = invalid p
refuse_if false p = valid tt

unfoldable pub or_refuse : {A : Type 0} → Option A → Problem → Verdict A
or_refuse none p = invalid p
or_refuse (some a) p = valid a

-- `RolloverAttemptDocument`; its `phase` is a property of the payload, which is read once here.
pub record Document : Type 0 where
  pub file : String
  pub phase : Phase
  pub payload : Fields
  pub payload_sha256 : String

-- A child of the attempt's directory. `is_plain` says that it is a file and no symbolic link;
-- `content` is `none` where it is no JSON text.
pub record Entry : Type 0 where
  pub name : String
  pub is_plain : Bool
  pub has_one_link : Bool
  pub content : Option Json

-- An attempt's directory with the names of the two directories above it; `is_safe` says that it
-- is a directory and no symbolic link, `is_missing` that nothing has its path. The entries stand
-- in the order of `iterdir`, which is any.
pub record Directory : Type 0 where
  pub name : String
  pub parent : String
  pub grandparent : String
  pub is_safe : Bool
  pub is_missing : Bool
  pub entries : List Entry
