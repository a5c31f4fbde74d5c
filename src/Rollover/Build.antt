-- ===== src/Rollover/Build.antt =====
-- A payload that `build_attempt_payload` builds is one that `write_attempt_phase` publishes.
use alpha_agent.Rollover.Verdicts.{valid_inj, verdict_inv, refuse_inv, option_inv}
use alpha_agent.Base.{ℕ, Option, some, String, ◌≡◌, sym, ap, ◌∙◌, exists, is_lower_hex}
use mathlib.Core.Bool.{true, false}
use alpha_agent.Json.{Json, Fields, obj, get, get_field}
use alpha_agent.Rollover.Schema.{Host, Phase, Directory, valid, phase_of, file_name}
use alpha_agent.Rollover.Payload.{check_payload, phase_value}
use alpha_agent.Rollover.Files.{
  build_attempt_payload, write_attempt_phase, read_attempt_phase, new_entry, has_name,
}
use alpha_agent.Rollover.Write.{read-new_entry, written, with_file, write_again}

some_phase : {p q : Phase} → some p ≡ some q → p ≡ q
some_phase e = cc

check_payload-phase :
    (h : Host) (r : Fields) {q : Phase}
    → check_payload h r ≡ valid q
    → phase_value (get "phase" (obj r)) ≡ some q
unfolding check_payload
check_payload-phase h r e =
    let a = refuse_inv _ _ _ e in
    let b = refuse_inv _ _ _ a.1 in
    let c = option_inv _ _ _ b.1 in
    let d = refuse_inv _ _ _ c.2 in
    let i = refuse_inv _ _ _ d.1 in
    let j = refuse_inv _ _ _ i.1 in
    let k = refuse_inv _ _ _ j.1 in
    let l = refuse_inv _ _ _ k.1 in
    let m = option_inv _ _ _ l.1 in
    let n = refuse_inv _ _ _ m.2 in let o = verdict_inv _ _ n.1 in c.1 ∙ ap some (valid_inj o.2)

-- The payload that is built passes the check with the phase that it was built for.
pub built_payload :
    (h : Host) (attempt_id rollover_key plan_sha256 phase : String) (recorded_at : Option ℕ)
    (state : Fields) (digest plan backup : Json) (x : Fields)
    → build_attempt_payload h attempt_id rollover_key plan_sha256 phase recorded_at state digest
        plan backup
      ≡ valid x
    → (q : Phase) × (phase_of phase ≡ some q) × (check_payload h x ≡ valid q)
unfolding build_attempt_payload get get_field
built_payload h attempt_id rollover_key plan_sha256 phase recorded_at state digest plan backup x e =
    let a = option_inv _ _ _ e in
    let b = option_inv _ _ _ a.2 in
    let c = verdict_inv _ _ b.2 in
    (c.0, check_payload-phase h _ c.1, ap (check_payload h) (sym (valid_inj c.2)) ∙ c.1)

-- A payload that was built is published in a safe directory that has no file of its phase, where its
-- digest is 64 lower-case hexadecimal digits, and the file reads back as that payload.
pub built_published :
    (h : Host) (d : Directory) (attempt_id rollover_key plan_sha256 phase : String)
    (recorded_at : Option ℕ) (state : Fields) (digest plan backup : Json) (x : Fields) (q : Phase)
    → build_attempt_payload h attempt_id rollover_key plan_sha256 phase recorded_at state digest
        plan backup
      ≡ valid x
    → phase_of phase ≡ some q
    → is_lower_hex 64 (h.sha256 (obj x)) ≡ true
    → d.is_safe ≡ true
    → exists (has_name (file_name q)) d.entries ≡ false
    → (write_attempt_phase h d x ≡ (valid (written h q x), with_file h q x d))
      × (read_attempt_phase h (new_entry h q x) ≡ valid (written h q x))
built_published h d attempt_id rollover_key plan_sha256 phase recorded_at state digest plan backup x
      q e f k s n =
    let a =
      built_payload h attempt_id rollover_key plan_sha256 phase recorded_at state digest plan backup
        x e in
    let c = a.2 ∙ ap valid (some_phase (sym a.1 ∙ f)) in
    ((write_again h d q x c k s n).0, read-new_entry h q x c k)
