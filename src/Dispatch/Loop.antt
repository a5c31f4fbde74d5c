-- ===== src/Dispatch/Loop.antt =====
-- One dispatch: what the loop over the claims completes and counts.
use alpha_agent.Alerts.Delivery.Settle.{completion-Ends, settle_delivery-Ends}
use alpha_agent.Alerts.Delivery.Lease.{claim_is_exclusive}
use alpha_agent.Alerts.Ends.{Ends, Ends-ok}
use alpha_agent.Base.{
  length, length-map, ℕ, ◌≤◌, true, false, List, [], ◌∷◌, map, ◌≡◌, refl, sym, ap, ◌∙◌, String, ◌⊎◌,
  inl, inr, arith, Bool-cases,
}
use alpha_agent.Json.{Json}
use alpha_agent.Alerts.Ledger.{Ledger, ok}
use alpha_agent.Alerts.Schema.{Message, Claim, Delivery, is_delivered}
use alpha_agent.Alerts.Outbox.Claim.{ClaimRequest, claim_notifications}
use alpha_agent.Alerts.Outbox.Complete.{
  Completion, should_retry, deliver, fail, complete_notification_delivery,
}
use alpha_agent.Dispatch.{
  Sent, accepted, rejected, crashed, Summary, completion_of, is_accepted, count, dispatch_claims,
  started_with, dispatch_notifications,
}
use alpha_agent.Dispatch.Trace.{
  Attempt, Completes, done, next, Adds, Leaves, Leaves-map, Leaves-commit,
}

-- A completion leaves its message delivered exactly when it reports a success.
completion-delivered :
    (c : Completion) (now : ℕ) (l : Ledger)
    → Ends (λ m _. is_delivered m.state ≡ c.succeeded) (complete_notification_delivery c now l)
completion-delivered c now l = completion-Ends Q c now l (λ response _.
    settle_delivery-Ends Q c response now l (λ d m e. unfold deliver in sym e)
      (λ d m e. failed response d m e (Bool-cases (should_retry c d))))
  where
    Q : Message → Ledger → Type 0
    Q m _ = is_delivered m.state ≡ c.succeeded

    failed :
        (response : Json) (d : Delivery) (m : Message)
        → c.succeeded ≡ false
        → (should_retry c d ≡ true) ⊎ (should_retry c d ≡ false)
        → Ends Q (fail c response now d m l)
    failed response d m e (inl k) = unfold fail in rw k (sym e)
    failed response d m e (inr k) = unfold fail in rw k (sym e)

completion_of-succeeded :
    (c : Claim) (sent : Sent) → (completion_of c sent).succeeded ≡ is_accepted sent
unfolding completion_of
completion_of-succeeded c (accepted i r) = refl
completion_of-succeeded c (rejected e f r) = refl
completion_of-succeeded c crashed = refl

-- One completion, counted, and then the rest.
Adds-next :
    (send : Message → Sent) (c : Claim) (m : Message) (s : Summary) (ps : List Attempt)
    (t : Summary)
    → is_delivered m.state ≡ is_accepted (send c.message)
    → Adds send (count (send c.message) m s) ps t
    → Adds send s ((c, m) ∷ ps) t
unfolding count
Adds-next send c m s ps t e h = elim (Bool-cases (is_accepted (send c.message))) [
  | inl k ↦ ground (arith, k, h.accepted_ones)
  | inr k ↦ ground (arith, k)
]

pub Adds-none : (send : Message → Sent) (s : Summary) → Adds send s [] s
Adds-none send s = record {
  accepted_ones = omega arith;
  delivered_ones = omega arith;
  refused_ones = omega arith;
  dead_ones = omega arith;
}

count-claimed : (sent : Sent) (m : Message) (s : Summary) → (count sent m s).claimed ≡ s.claimed
unfolding count
count-claimed sent m s = elim (Bool-cases (is_accepted sent)) [
  | inl e ↦ rw e refl
  | inr e ↦ rw e refl
]

-- What the loop over the claims leaves.
abbrev Completed : (Message → Sent) → ℕ → List Claim → Summary → Ledger → Summary → Ledger → Type 0
Completed send now claims s l t l' =
    (ps : List Attempt) × (map (λ p. p.0) ps ≡ claims)
    × Completes send now ps l l'
    × Adds send s ps t
    × (t.claimed ≡ s.claimed)

claims-Completed :
    (send : Message → Sent) (now : ℕ) (claims : List Claim) (s : Summary) (l : Ledger)
    → Leaves (Completed send now claims s l) (dispatch_claims send now claims s l)
unfolding dispatch_claims
claims-Completed send now [] s l = ([], refl, done, Adds-none send s, refl)
claims-Completed send now (c ∷ claims) s l =
    Leaves-commit (Completed send now (c ∷ claims) s l)
      (complete_notification_delivery (completion_of c (send c.message)) now)
      (λ m. dispatch_claims send now claims (count (send c.message) m s)) l
      λ m l1 e.
        Leaves-map (Completed send now claims (count (send c.message) m s) l1)
          (Completed send now (c ∷ claims) s l)
          (dispatch_claims send now claims (count (send c.message) m s) l1)
          (λ t l' k. (
            (c, m) ∷ k.0,
            ap (λ cs. c ∷ cs) k.1,
            next e k.2,
            Adds-next send c m s k.0 t (settled m l1 e) k.3,
            k.4 ∙ count-claimed (send c.message) m s,
          ))
          (claims-Completed send now claims (count (send c.message) m s) l1)
  where
    settled :
        (m : Message) (l1 : Ledger)
        → complete_notification_delivery (completion_of c (send c.message)) now l ≡ ok (m, l1)
        → is_delivered m.state ≡ is_accepted (send c.message)
    settled m l1 e =
        Ends-ok (λ x _. is_delivered x.state ≡ (completion_of c (send c.message)).succeeded)
          (complete_notification_delivery (completion_of c (send c.message)) now l)
          (completion-delivered (completion_of c (send c.message)) now l) e
        ∙ completion_of-succeeded c (send c.message)

-- What one dispatch did: the claim, the completions, and what its summary counts.
abbrev pub Dispatched :
    (ℕ → String) → (Message → Sent) → ClaimRequest → ℕ → Ledger → Summary → Ledger → Type 0
Dispatched u send a now l t l' =
    (ps : List Attempt) × (l1 : Ledger) × (claim_notifications u a now l
      ≡ ok (map (λ p. p.0) ps, l1))
    × Completes send now ps l1 l'
    × Adds send (started_with 0) ps t
    × (t.claimed ≡ length ps)
    × (length ps ≤ a.limit)

pub dispatch-Dispatched :
    (u : ℕ → String) (send : Message → Sent) (a : ClaimRequest) (now : ℕ) (l : Ledger)
    → Leaves (Dispatched u send a now l) (dispatch_notifications u send a now l)
unfolding dispatch_notifications
dispatch-Dispatched u send a now l =
    Leaves-commit (Dispatched u send a now l) (claim_notifications u a now)
      (λ claims. dispatch_claims send now claims (started_with (length claims))) l
      λ claims l1 e.
        Leaves-map (Completed send now claims (started_with (length claims)) l1)
          (Dispatched u send a now l)
          (dispatch_claims send now claims (started_with (length claims)) l1)
          (λ t l' k. (
            k.0,
            l1,
            e ∙ ap (λ cs. ok (cs, l1)) (sym k.1),
            k.2,
            record {
              accepted_ones = k.3.accepted_ones;
              delivered_ones = k.3.delivered_ones;
              refused_ones = k.3.refused_ones;
              dead_ones = k.3.dead_ones;
            },
            k.4 ∙ sym (size k.0 claims k.1),
            omega (arith, size k.0 claims k.1, (claim_is_exclusive u a now l claims l1 e).0),
          ))
          (claims-Completed send now claims (started_with (length claims)) l1)
  where
    size :
        (ps : List Attempt) (claims : List Claim)
        → map (λ p. p.0) ps ≡ claims
        → length ps ≡ length claims
    size ps claims e = sym (length-map (λ p. p.0) ps) ∙ ap length e
