-- ===== src/Alerts/Safety/Claim.antt =====
-- A claim is safe.
use alpha_agent.Alerts.Safety.Recover.{recover_expired-Advances}
use alpha_agent.Alerts.Safety.Checks.{check_claim-Safe, claim_scope-Safe, resolve_optional-Safe}
use Prim.Native.String.{◌++◌ as str_append}
use alpha_agent.Base.{
  inl, inr, Bool-cases, Option-cases, some, none, first, Option, ℕ, ◌+◌, ◌<◌, true, false, List, [],
  ◌∷◌, String, ◌≡◌, refl, All, All-update, All-map, All-zip, All-select, All-sort_by, All-take,
  ◌++◌, exists, select, select-holds, update, arith,
}
use alpha_agent.Alerts.Schema.{Delivery, Message, Claim, is_pending}
use alpha_agent.Alerts.Ledger.{pure, err, Result, Ledger, ok}
use alpha_agent.Alerts.Outbox.Recover.{max_attempts}
use alpha_agent.Alerts.Outbox.Claim.{
  insert_delivery, has_delivery_id, claim_notifications, ClaimRequest, ClaimScope, lease_message,
  is_pending_row, claim_row, record_claim, start_delivery, same_attempt, claim_rows, claim_due,
  candidates, is_due, comes_before,
}
use alpha_agent.Alerts.Safety.Rows.{Keeps-change, pending-not_delivered, lease_message-IsConsistent}
use alpha_agent.Alerts.Safety.Ids.{has_id, unique_rows}
use alpha_agent.Alerts.Safety.Advance.{
  Safe-modify, Post-assume, safe_rules, Safe, WellFormed, Post, Advances-refl, Advances-trans,
  Advances-same, Advances-update_where, Post-intro, Post-bind,
}

-- The lease that a round of the loop writes.
abbrev lease_of : (ℕ → String) → ClaimRequest → ℕ → Message → Ledger → Message → Message
lease_of u a now r l =
    lease_message (r.attempt_count + 1) (str_append "lease-" (u l.drawn)) (now + a.lease_seconds)

-- A successful end leaves the outbox.
abbrev Stays : {A : Type 0} → Ledger → Result (A × Ledger) → Type 0
Stays l (ok r) = r.1.outbox ≡ l.outbox
Stays l (err e) = Unit

Stays-ok :
    {A : Type 0} (l : Ledger) (r : Result (A × Ledger)) (a : A) (l' : Ledger)
    → Stays l r
    → r ≡ ok (a, l')
    → l'.outbox ≡ l.outbox
Stays-ok l (ok r) a l' h q = ground arith
Stays-ok l (err e) a l' h q = absurd (ground arith)

insert_delivery-Stays : (d : Delivery) (l : Ledger) → Stays l (insert_delivery d l)
unfolding insert_delivery
insert_delivery-Stays d l = elim (Bool-cases (exists (same_attempt d) l.deliveries)) [
  | inl e ↦ rw e tt
  | inr e ↦
      rw e (elim (Option-cases (first (has_delivery_id d.delivery_id) (l.deliveries ++ d ∷ []))) [
        | inl k ↦ rw k tt
        | inr (x, k) ↦ rw k refl
      ])
]

Stays-map :
    {A B : Type 0} (l : Ledger) (r : Result (A × Ledger)) (g : A → B)
    → Stays l r
    → Stays l (elim r [ ok p ↦ pure (g p.0) p.1 | err e ↦ err e ])
Stays-map l (ok p) g h = h
Stays-map l (err e) g h = tt

record_claim-Stays :
    (a : ClaimRequest) (now : ℕ) (token delivery_id : String) (found : Option Message)
    (claims : List Claim) (l : Ledger)
    → Stays l (record_claim a now token delivery_id found claims l)
unfolding record_claim
record_claim-Stays a now token delivery_id none claims l = refl
record_claim-Stays a now token delivery_id (some m) claims l =
    Stays-map l (insert_delivery (start_delivery a now m delivery_id) l)
      (λ d. claims ++ record { message = m; delivery = d; lease_token = token } ∷ [])
      (insert_delivery-Stays (start_delivery a now m delivery_id) l)

pub claim_row-outbox :
    (u : ℕ → String) (a : ClaimRequest) (now : ℕ) (r : Message) (claims : List Claim) (l : Ledger)
    (more : List Claim) (l' : Ledger)
    → claim_row u a now r claims l ≡ ok (more, l')
    → l'.outbox ≡ update (is_pending_row r.notification_id) (lease_of u a now r l) l.outbox
unfolding claim_row
claim_row-outbox u a now r claims l more l' h =
    Stays-ok written (claim_row u a now r claims l) more l'
      (record_claim-Stays a now (str_append "lease-" (u l.drawn))
        (str_append "delivery-" (u (l.drawn + 1)))
        (leased (first (is_pending_row r.notification_id) l.outbox)) claims written)
      h
  where
    written : Ledger
    written = record l {
      drawn = l.drawn + 1 + 1;
      outbox = update (is_pending_row r.notification_id) (lease_of u a now r l) l.outbox;
    }

    leased : Option Message → Option Message
    leased found = elim found [ none ↦ none | some m ↦ some (lease_of u a now r l m) ]

-- The pending rows with this row's identifier have had as many attempts as this row.
abbrev Current : Message → List Message → Type 0
Current r = All (λ m. is_pending_row r.notification_id m ≡ true → m.attempt_count ≡ r.attempt_count)

claim_row-Safe :
    (u : ℕ → String) (a : ClaimRequest) (now : ℕ) (r : Message) (claims : List Claim) (l : Ledger)
    → r.attempt_count < max_attempts
    → Current r l.outbox
    → Post l (claim_row u a now r claims l)
claim_row-Safe u a now r claims l lt h = Post-intro l (claim_row u a now r claims l) λ more l' e.
    let leased = record l {
      outbox = update (is_pending_row r.notification_id) (lease_of u a now r l) l.outbox;
    } in
    Advances-trans l leased l'
      (Advances-update_where
        (λ m. is_pending_row r.notification_id m ≡ true → m.attempt_count ≡ r.attempt_count)
        (is_pending_row r.notification_id) (lease_of u a now r l) l (λ m. refl)
        (λ m k t c. lease_message-IsConsistent _ _ _ m (ground arith) (omega arith) c)
        (λ m k t.
          Keeps-change m (lease_of u a now r l m) refl (omega (arith, k t))
            (pending-not_delivered m.state (ground arith)))
        h)
      (Advances-same leased l' (claim_row-outbox u a now r claims l more l' e))

Current-lease :
    (f : Message → Message) (r s : Message) (ms : List Message)
    → ((m : Message) → is_pending (f m).state ≡ false)
    → Current s ms
    → Current s (update (is_pending_row r.notification_id) f ms)
Current-lease f r s ms gone h =
    All-update (λ m. is_pending_row s.notification_id m ≡ true → m.attempt_count ≡ s.attempt_count)
      (is_pending_row r.notification_id) f ms (λ m _ _ t. absurd (ground (arith, gone m))) h

claim_rows-Safe :
    (u : ℕ → String) (a : ClaimRequest) (now : ℕ) (rows : List Message) (claims : List Claim)
    (l : Ledger)
    → All (λ r. (r.attempt_count < max_attempts) × Current r l.outbox) rows
    → Post l (claim_rows u a now rows claims l)
unfolding claim_rows
claim_rows-Safe u a now [] claims l h = Advances-refl l
claim_rows-Safe u a now (r ∷ rows) claims l h =
    Post-bind (claim_row u a now r claims) (λ more. claim_rows u a now rows more) l
      (claim_row-Safe u a now r claims l h.0.0 h.0.1)
      λ more l' e. claim_rows-Safe u a now rows more l' (
        All-map rows
          (λ s k. (
            k.0,
            rw (claim_row-outbox u a now r claims l more l' e)
                (Current-lease (lease_of u a now r l) r s l.outbox (λ m. refl) k.1),
          ))
          h.1)

candidates-Current :
    (now : ℕ) (scope : ClaimScope) (limit : ℕ) (l : Ledger)
    → WellFormed l
    → All
        (λ r. (r.attempt_count < max_attempts) × Current r l.outbox)
        (candidates now scope limit l.outbox)
unfolding candidates
candidates-Current now scope limit l w = All-take _ limit _ (
    All-sort_by (λ r. (r.attempt_count < max_attempts) × Current r l.outbox) comes_before _
      (All-map _ current (
        All-zip _ _ (select (is_due now scope l.outbox) l.outbox)
          (select-holds (is_due now scope l.outbox) l.outbox)
          (All-select _ (is_due now scope l.outbox) l.outbox (unique_rows l.outbox w.distinct)))))
  where
    current :
        (r : Message)
        → (is_due now scope l.outbox r ≡ true)
          × All (λ m. has_id r.notification_id m ≡ true → m ≡ r) l.outbox
        → (r.attempt_count < max_attempts) × Current r l.outbox
    current r h =
        (unfold is_due in ground arith, All-map l.outbox (λ m e t. rw (e (ground arith)) refl) h.1)

claim_due-Safe :
    (u : ℕ → String) (a : ClaimRequest) (now : ℕ) (scope : ClaimScope)
    → Safe (claim_due u a now scope)
unfolding claim_due
claim_due-Safe u a now scope l = Post-assume l (claim_due u a now scope l) λ w.
    claim_rows-Safe u a now (candidates now scope a.limit l.outbox) [] l
      (candidates-Current now scope a.limit l w)

pub claim_notifications-Safe :
    (u : ℕ → String) (a : ClaimRequest) (now : ℕ) → Safe (claim_notifications u a now)
unfolding claim_notifications
claim_notifications-Safe u a now =
    search
      (
        safe_rules, Safe-modify, check_claim-Safe, recover_expired-Advances, resolve_optional-Safe,
        claim_scope-Safe, claim_due-Safe,
      )
      depth 9
