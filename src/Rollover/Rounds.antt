-- ===== src/Rollover/Rounds.antt =====
-- The rounds of the loop of `validate_attempt_directory`: what an accepted document satisfies.
use alpha_agent.Rollover.Verdicts.{valid_inj, option_passes, option_inv, refuse_passes, refuse_inv}
use alpha_agent.Base.{
  eq_iff, eq_refl, exists, ◌∙◌, ℕ, suc, ◌&&◌, ◌||◌, not, Bool, true, false, Option, some, ◌∷◌,
  String, ◌≡◌, refl, sym, inl, inr, ltb, leb, arith, Option-cases,
}
use alpha_agent.Rollover.Schema.{is_terminal, sequence, Host, Document, valid}
use alpha_agent.Json.{Json, Fields, obj, str, get}
use alpha_agent.Rollover.Values.{as_number, py_eq}
use alpha_agent.Rollover.Payload.{time_of, equals}
use alpha_agent.Rollover.Files.{is_earlier, same_phase, Scan, check_document, same_member}
use alpha_agent.Rollover.Chain.{IsBound}
use alpha_agent.Rollover.Facts.{Facts}

pub equals-text :
    (h : Host) (x : String) (o : Option Json) → equals h (str x) o ≡ true → o ≡ some (str x)
unfolding py_eq as_number
equals-text h x (some (str s)) e = rw ((eq_iff s x).0 e) refl
equals-text h x (some (Json.float t)) e = elim (Option-cases (h.whole t)) [
  | inl k ↦ absurd (let c = rw k at e in cc)
  | inr (a, k) ↦ absurd (let c = rw k at e in cc)
]
equals-text h x (some (Json.bool true)) e = absurd cc
equals-text h x (some (Json.bool false)) e = absurd cc
equals-text h x _ e = absurd cc

text-equals :
    (h : Host) (x : String) {o : Option Json} → o ≡ some (str x) → equals h (str x) o ≡ true
unfolding py_eq
text-equals h x k = rw k (eq_refl x)

same_member-path :
    (h : Host) (k : String) (r s : Fields) {b : String}
    → get k (obj s) ≡ some (str b)
    → same_member h k r s ≡ true
    → get k (obj r) ≡ get k (obj s)
same_member-path h k r s {b} e m =
    equals-text h b (get k (obj r)) (rw (e, same_member) at m) ∙ sym e

path-same_member :
    (h : Host) (k : String) (r s : Fields) {b : String}
    → get k (obj s) ≡ some (str b)
    → get k (obj r) ≡ get k (obj s)
    → same_member h k r s ≡ true
path-same_member h k r s {b} e m = rw (e, same_member) (text-equals h b (m ∙ e))

-- The scan after a round.
abbrev pub after_round : Document → ℕ → Scan → Scan
after_round d t s = record {
  seen = d.phase ∷ s.seen;
  last_sequence = sequence d.phase;
  last_timestamp = some t;
  terminal_seen = s.terminal_seen || is_terminal d.phase;
}

-- A document that a round after the first accepts.
pub record Round (h : Host) (p d : Document) (s : Scan) (t : ℕ) : Type 0 where
  pub fresh : exists (same_phase d.phase) s.seen ≡ false
  pub live : s.terminal_seen ≡ false
  pub bound : IsBound p d
  pub above : leb (sequence d.phase) s.last_sequence ≡ false
  pub moment : time_of h d.payload ≡ some t
  pub in_time : is_earlier t s.last_timestamp ≡ false

three_inv :
    (a b c : Bool) → (not a || not b || not c) ≡ false → (a ≡ true) × (b ≡ true) × (c ≡ true)
three_inv true true true e = (refl, refl, refl)
three_inv false b c e = absurd cc
three_inv true false c e = absurd cc
three_inv true true false e = absurd cc

three_hold : (a b c : Bool) → a ≡ true → b ≡ true → c ≡ true → (not a || not b || not c) ≡ false
three_hold a b c x y z = rw (x, y, z) refl

indexed_inv : (i : ℕ) (x : Bool) → (ltb 0 (suc i) && not x) ≡ false → x ≡ true
indexed_inv i x e = ground arith

indexed_holds : (i : ℕ) (x : Bool) → x ≡ true → (ltb 0 (suc i) && not x) ≡ false
indexed_holds i x e = ground arith

pub check_document-Round :
    (h : Host) (p d : Document) (i : ℕ) (s : Scan) {s' : Scan}
    → Facts h p.payload
    → check_document h p (suc i) d s ≡ valid s'
    → (t : ℕ) × Round h p d s t × (s' ≡ after_round d t s)
unfolding check_document
check_document-Round h p d i s f e =
    let a = refuse_inv _ _ _ e in
    let b = refuse_inv _ _ _ a.1 in
    let c = refuse_inv _ _ _ b.1 in
    let j = refuse_inv _ _ _ c.1 in
    let k = option_inv _ _ _ j.1 in
    let l = refuse_inv _ _ _ k.2 in
    let m = refuse_inv _ _ _ l.1 in
    let ids = three_inv _ _ _ c.0 in
    (
      k.0,
      record {
        fresh = a.0;
        live = b.0;
        bound = record {
          attempt_id = same_member-path h "attempt_id" d.payload p.payload f.attempt_id.1 ids.0;
          rollover_key =
              same_member-path h "rollover_key" d.payload p.payload f.rollover_key.1 ids.1;
          plan_sha256 = same_member-path h "plan_sha256" d.payload p.payload f.plan_sha256.1 ids.2;
          digest = equals-text h p.payload_sha256 _ (indexed_inv i _ m.0);
        };
        above = j.0;
        moment = k.1;
        in_time = l.0;
      },
      sym (valid_inj m.1),
    )

pub Round-check_document :
    (h : Host) (p d : Document) (i : ℕ) (s : Scan) (t : ℕ)
    → Facts h p.payload
    → Round h p d s t
    → check_document h p (suc i) d s ≡ valid (after_round d t s)
unfolding check_document
Round-check_document h p d i s t f r = refuse_passes _ _ _ r.fresh (
    refuse_passes _ _ _ r.live (
      refuse_passes _ _ _ ids (
        refuse_passes _ _ _ r.above (
          option_passes _ _ _ r.moment
            (refuse_passes _ _ _ r.in_time (refuse_passes _ _ _ digest refl))))))
  where
    ids :
        (not (same_member h "attempt_id" d.payload p.payload)
          || not (same_member h "rollover_key" d.payload p.payload)
          || not (same_member h "plan_sha256" d.payload p.payload))
        ≡ false
    ids =
        three_hold _ _ _
          (path-same_member h "attempt_id" d.payload p.payload f.attempt_id.1 r.bound.attempt_id)
          (path-same_member h "rollover_key" d.payload p.payload f.rollover_key.1
            r.bound.rollover_key)
          (path-same_member h "plan_sha256" d.payload p.payload f.plan_sha256.1 r.bound.plan_sha256)

    digest :
        (ltb 0 (suc i)
          && not (equals h (str p.payload_sha256) (get "prepared_payload_sha256" (obj d.payload))))
        ≡ false
    digest = indexed_holds i _ (text-equals h p.payload_sha256 r.bound.digest)

pub own_identity :
    (h : Host) (p : Document)
    → Facts h p.payload
    → (not (same_member h "attempt_id" p.payload p.payload)
        || not (same_member h "rollover_key" p.payload p.payload)
        || not (same_member h "plan_sha256" p.payload p.payload))
      ≡ false
own_identity h p f =
    three_hold _ _ _ (path-same_member h "attempt_id" p.payload p.payload f.attempt_id.1 refl)
      (path-same_member h "rollover_key" p.payload p.payload f.rollover_key.1 refl)
      (path-same_member h "plan_sha256" p.payload p.payload f.plan_sha256.1 refl)
