-- ===== src/Rollover/Facts.antt =====
-- What a payload that `_validate_attempt_payload` accepts holds.
use alpha_agent.Rollover.Verdicts.{option_inv, refuse_inv}
use alpha_agent.Json.{str, Json}
use alpha_agent.Rollover.Values.{is_attempt_id, is_sha}
use alpha_agent.Rollover.Payload.{check_payload}
use alpha_agent.Base.{
  ℕ, not, Bool, true, false, Option, none, some, String, ◌≡◌, refl, arith, is_none,
}
use alpha_agent.Rollover.Schema.{Host, Phase, valid}
use alpha_agent.Json.{Fields, Json, obj, str, get}
use alpha_agent.Rollover.Payload.{check_payload, time_of}

pub record Facts (h : Host) (r : Fields) : Type 0 where
  pub attempt_id : (s : String) × (get "attempt_id" (obj r) ≡ some (str s))
  pub rollover_key : (s : String) × (get "rollover_key" (obj r) ≡ some (str s))
  pub plan_sha256 : (s : String) × (get "plan_sha256" (obj r) ≡ some (str s))
  pub moment : (t : ℕ) × (time_of h r ≡ some t)

is_attempt_id-text : (o : Option Json) → is_attempt_id o ≡ true → (s : String) × (o ≡ some (str s))
is_attempt_id-text (some (str s)) e = (s, refl)
is_attempt_id-text _ e = absurd cc

is_sha-text : (o : Option Json) → is_sha o ≡ true → (s : String) × (o ≡ some (str s))
is_sha-text (some (str s)) e = (s, refl)
is_sha-text _ e = absurd cc

pub not_inv : {b : Bool} → not b ≡ false → b ≡ true
not_inv {b} e = ground arith

is_none_inv : {A : Type 0} (o : Option A) → is_none o ≡ false → (a : A) × (o ≡ some a)
is_none_inv none e = absurd cc
is_none_inv (some a) e = (a, refl)

pub check_payload-Facts :
    (h : Host) (r : Fields) {q : Phase} → check_payload h r ≡ valid q → Facts h r
unfolding check_payload
check_payload-Facts h r e =
    let a = refuse_inv _ _ _ e in
    let b = refuse_inv _ _ _ a.1 in
    let c = option_inv _ _ _ b.1 in
    let d = refuse_inv _ _ _ c.2 in
    let i = refuse_inv _ _ _ d.1 in
    let j = refuse_inv _ _ _ i.1 in
    let k = refuse_inv _ _ _ j.1 in
    let l = refuse_inv _ _ _ k.1 in
    let m = option_inv _ _ _ l.1 in
    let n = refuse_inv _ _ _ m.2 in
    record {
      attempt_id = is_attempt_id-text _ (not_inv i.0);
      rollover_key = is_sha-text _ (not_inv j.0);
      plan_sha256 = is_sha-text _ (not_inv k.0);
      moment = is_none_inv (time_of h r) n.0;
    }
