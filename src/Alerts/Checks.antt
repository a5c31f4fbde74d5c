-- ===== src/Alerts/Checks.antt =====
-- The validators of src/aios/alerts.py that every operation calls on its arguments.
use alpha_agent.Base.{
  not, Option, none, some, String, ltb, strip, is_blank, length_text, all_chars, lower,
  is_lower_hex, is_space,
}
use alpha_agent.Alerts.Ledger.{
  Tx, ◌>>◌, pure, raise_if, text_required, text_too_long, whitespace_in_channel, bad_fingerprint,
}

-- `_validate_bounded_text`, and `_validate_job_text`, which only rewords its message.
unfoldable pub check_text : String → Tx (Unit {0})
unfolding strip is_blank length_text
check_text value = do
  raise_if (is_blank (strip value)) text_required
  raise_if (ltb 4000 (length_text value)) text_too_long

unfoldable pub check_optional : Option String → Tx (Unit {0})
unfolding check_text
check_optional none = pure tt
check_optional (some value) = check_text value

-- `_validate_channel`
unfoldable pub check_channel : String → Tx (Unit {0})
unfolding check_text all_chars
check_channel channel = do
  check_text channel
  raise_if (not (all_chars (λ c. not (is_space c)) channel)) whitespace_in_channel

-- `value.strip().lower()`
unfoldable pub normalized : String → String
unfolding strip lower
normalized value = lower (strip value)

-- `_validate_config_fingerprint`
unfoldable pub check_fingerprint : String → Tx (Unit {0})
unfolding normalized is_lower_hex
check_fingerprint value = raise_if (not (is_lower_hex 64 (normalized value))) bad_fingerprint

unfoldable pub check_optional_fingerprint : Option String → Tx (Unit {0})
unfolding check_fingerprint
check_optional_fingerprint none = pure tt
check_optional_fingerprint (some value) = check_fingerprint value
