-- ===== src/Alerts/Payload.antt =====
-- `_redact`, `_payload_json` and `_provider_response_json` of src/aios/alerts.py: what a payload
-- becomes before it is stored. `size` is the number of bytes of the canonical text that
-- `json.dumps` writes with its default ASCII escapes and the separators "," and ":".
use text.Mathlib.Text.{find?}
use alpha_agent.Base.{
  ℕ, zero, suc, ◌+◌, ◌/◌, ◌*◌, Bool, true, false, ◌&&◌, ◌||◌, Option, none, some, String, str_eq,
  code, ltb, leb, ◌==◌, if◌then◌else◌, is_some, length_text, lower, ◌≡◌, refl,
}
use alpha_agent.Json.{
  Json, null, bool, int, float, str, arr, obj, Items, nil, cons, Fields, end, field,
}

abbrev pub max_payload_bytes : ℕ
max_payload_bytes = 64 * 1024

-- `any(marker in key.lower() for marker in _SECRET_MARKERS)`
unfoldable pub is_secret : String → Bool
unfolding lower
is_secret key =
    let k = lower key in
    is_some (find? k "secret")
    || is_some (find? k "token")
    || is_some (find? k "password")
    || is_some (find? k "authorization")
    || is_some (find? k "cookie")
    || is_some (find? k "api_key")

unfoldable mutual
  pub redact : Json → Json
  redact (arr items) = arr (redact_items items)
  redact (obj fields) = obj (redact_fields fields)
  redact null = null
  redact (bool b) = bool b
  redact (int s n) = int s n
  redact (float t) = float t
  redact (str t) = str t

  pub redact_items : Items → Items
  redact_items nil = nil
  redact_items (cons x r) = cons (redact x) (redact_items r)

  pub redact_fields : Fields → Fields
  redact_fields end = end
  redact_fields (field k v r) =
      field k (if is_secret k then str "[REDACTED]" else redact v) (redact_fields r)

-- The decimal digits of a number, on fuel; `n` rounds are enough for `n`.
digits_from : ℕ → ℕ → ℕ
digits_from zero n = 1
digits_from (suc f) n = let rest = digits_from f (n / 10) in if ltb n 10 then 1 else 1 + rest

size_char : ℕ → ℕ
size_char c =
    if c == 34 || c == 92 || (leb 8 c && leb c 10) || c == 12 || c == 13
    then 2
    else if leb 32 c && leb c 126
    then 1
    else if ltb c 65536
    then 6
    else 12

size_chars : String → ℕ
size_chars String.[] = 0
size_chars (String.◌∷◌ c s) = size_char (code c) + size_chars s

unfoldable mutual
  unfolding digits_from size_char size_chars length_text

  pub size : Json → ℕ
  size null = 4
  size (bool true) = 4
  size (bool false) = 5
  size (int s n) = (if s then 1 else 0) + digits_from n n
  size (float t) = length_text t
  size (str t) = 2 + size_chars t
  size (arr items) = 1 + size_items items
  size (obj fields) = 1 + size_fields fields

  -- Each item is followed by a comma or by the closing bracket.
  pub size_items : Items → ℕ
  size_items nil = 1
  size_items (cons x nil) = size x + 1
  size_items (cons x (cons y r)) = size x + 1 + size_items (cons y r)

  pub size_fields : Fields → ℕ
  size_fields end = 1
  size_fields (field k v end) = 2 + size_chars k + 1 + size v + 1
  size_fields (field k v (field j w r)) =
      2 + size_chars k + 1 + size v + 1 + size_fields (field j w r)

unfoldable pub truncated : ℕ → Json
truncated n = obj (field "original_bytes" (int false n) (field "payload_truncated" (bool true) end))

-- `_payload_json`
unfoldable pub payload_json : Json → Json
unfolding truncated
payload_json payload =
    let sanitized = redact payload in
    let encoded = size sanitized in
    if ltb max_payload_bytes encoded then truncated encoded else sanitized

-- `SAFE_PROVIDER_RESPONSE_FIELDS`
is_safe_field : String → Bool
is_safe_field k =
    str_eq k "accepted"
    || str_eq k "channel"
    || str_eq k "delivery_phase"
    || str_eq k "external_delivery"
    || str_eq k "provider_state"
    || str_eq k "response_bytes"
    || str_eq k "response_sha256"
    || str_eq k "smtp_status_class"
    || str_eq k "status_code"

is_safe_scalar : Json → Bool
is_safe_scalar null = true
is_safe_scalar (bool b) = true
is_safe_scalar (int s n) = true
is_safe_scalar (str t) = true
is_safe_scalar (float t) = false
is_safe_scalar (arr items) = false
is_safe_scalar (obj fields) = false

all_safe : Fields → Bool
unfolding is_safe_field is_safe_scalar
all_safe end = true
all_safe (field k v r) = is_safe_field k && is_safe_scalar v && all_safe r

-- `_provider_response_json`; `none` is the ValueError of an unsafe response.
unfoldable pub provider_response_json : Fields → Option Json
unfolding all_safe payload_json
provider_response_json response =
    if all_safe response then some (payload_json (obj response)) else none

secrets_hidden :
    redact (obj (field "SMTP_Password" (str "x") (field "port" (int false 25) end)))
    ≡ obj (field "SMTP_Password" (str "[REDACTED]") (field "port" (int false 25) end))
unfolding redact is_secret lower
secrets_hidden = refl

sized : size (obj (field "a" (int false 120) (field "b" (str "x\"") end))) ≡ 19
unfolding size
sized = refl
