-- ===== src/Alerts/Effects/Scope.antt =====
-- The scope of a claim under a route's configuration.
use alpha_agent.Alerts.Reads.{check_claim-Reads}
use alpha_agent.Alerts.Ends.{bind-ok, Ends, Reads}
use alpha_agent.Alerts.Checks.{normalized}
use alpha_agent.Base.{sym, ◌∙◌, ℕ, Option, some, String, ◌≡◌, refl, sym}
use alpha_agent.Alerts.Ledger.{Ledger, Result, ok, err, Tx, ◌>>=◌}
use alpha_agent.Alerts.Outbox.Claim.{
  route_scope, is_due, candidates, start_delivery, insert_delivery, record_claim, claim_row,
  claim_rows, ClaimRequest, claim_notifications, claim_scope, claim_due, check_claim,
  resolve_optional,
}
use alpha_agent.Alerts.Outbox.Recover.{recover_expired}

abbrev with_id : Option String → ClaimRequest → ClaimRequest
with_id i a = record a { notification_id = i }

bind-cong :
    {A B : Type 0} (m : Tx A) (f g : A → Tx B) (l : Ledger)
    → Reads m
    → ((a : A) → f a l ≡ g a l)
    → (m >>= f) l ≡ (m >>= g) l
bind-cong {A = A} m f g l r h = go (m l) (r l)
  where
    go :
        (x : Result (A × Ledger))
        → Ends (λ a l'. l' ≡ l) x
        → elim x [ ok r ↦ f r.0 r.1 | err e ↦ err e ] ≡ elim x [ ok r ↦ g r.0 r.1 | err e ↦ err e ]
    go (ok x) e = rw e (h x.0)
    go (err e) k = refl

-- What follows the resolution of the identifier does not read the identifier.
after_resolution :
    (u : ℕ → String) (a : ClaimRequest) (f : String) (i i' : String) (now : ℕ) (l : Ledger)
    (config : Option String)
    → config ≡ some f
    → resolve_optional (some i) l ≡ ok (some i', l)
    → (resolve_optional (some i) >>= λ resolved_id.
          claim_scope (with_id (some i) a) config a.test_config_fingerprint resolved_id >>= λ scope.
          claim_due u (with_id (some i) a) now scope)
        l
      ≡ (route_scope a (normalized f) >>= λ scope. claim_due u a now scope) l
unfolding claim_scope claim_due claim_rows claim_row record_claim insert_delivery start_delivery
    candidates is_due route_scope
after_resolution u a f i i' now l config e h =
    bind-ok (resolve_optional (some i))
      (λ resolved_id.
        claim_scope (with_id (some i) a) config a.test_config_fingerprint resolved_id >>= λ scope.
        claim_due u (with_id (some i) a) now scope)
      l h
    ∙ (rw e refl)

-- Two claims under a route's configuration that differ only in the identifier they ask for claim
-- the same messages, if both identifiers name messages of the outbox once expired leases are
-- recovered: the identifier does not restrict a claim under a configuration.
pub route_claim_ignores_id :
    (u : ℕ → String) (a : ClaimRequest) (f : String) (i j i' j' : String) (now : ℕ) (l : Ledger)
    → a.config_fingerprint ≡ some f
    → resolve_optional (some i) (recover_expired now l) ≡ ok (some i', recover_expired now l)
    → resolve_optional (some j) (recover_expired now l) ≡ ok (some j', recover_expired now l)
    → claim_notifications u (with_id (some i) a) now l
      ≡ claim_notifications u (with_id (some j) a) now l
unfolding claim_notifications check_claim
route_claim_ignores_id u a f i j i' j' now l e h k =
    bind-cong (check_claim (with_id (some i) a)) _ _ l (check_claim-Reads (with_id (some i) a)) λ _.
      after_resolution u a f i i' now (recover_expired now l) a.config_fingerprint e h
      ∙ sym (after_resolution u a f j j' now (recover_expired now l) a.config_fingerprint e k)
