-- ===== src/Alerts/Outbox/Lookup.antt =====
-- `AlertStore._resolve_notification_id`: a full or unambiguous shortened reference.
use text.Mathlib.Text.{starts_with}
use alpha_agent.Base.{
  ℕ, Bool, not, ◌&&◌, ◌||◌, Option, none, some, List, [], ◌∷◌, String, str_eq, leb, ltb,
  if◌then◌else◌, strip, is_blank, select, sort_by, take, exists, length,
}
use alpha_agent.Alerts.Schema.{Message}
use alpha_agent.Alerts.Ledger.{
  Tx, ◌>>=◌, ◌>>◌, pure, raise_if, gets, or_raise, text_required, unknown_reference,
  ambiguous_reference,
}

abbrev matches : String → Message → Bool
matches value m = str_eq m.notification_id value || starts_with m.notification_id value

-- `CASE WHEN notification_id = ? THEN 0 ELSE 1 END`
abbrev exactness : String → Message → ℕ
exactness value m = if str_eq m.notification_id value then 0 else 1

-- At most two rows, an exact match first.
unfoldable pub reference_rows : String → List Message → List Message
reference_rows value outbox =
    take 2
      (sort_by (λ a b. leb (exactness value a) (exactness value b)) (select (matches value) outbox))

abbrev head_id : List Message → Option String
head_id [] = none
head_id (m ∷ r) = some m.notification_id

unfoldable pub resolve_notification_id : String → Tx String
unfolding strip is_blank reference_rows
resolve_notification_id reference = do
  let value = strip reference
  raise_if (is_blank value) text_required
  rows ← gets (λ l. reference_rows value l.outbox)
  found ← or_raise (head_id rows) unknown_reference
  raise_if (ltb 1 (length rows) && not (exists (λ m. str_eq m.notification_id value) rows))
      ambiguous_reference
  pure found
