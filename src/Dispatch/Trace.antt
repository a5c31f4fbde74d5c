-- ===== src/Dispatch/Trace.antt =====
-- What a pass did: the messages that it claimed, each with what its completion left.
use alpha_agent.Base.{tally, ℕ, ◌+◌, not, Bool, List, [], ◌∷◌, ◌++◌, map, String, ◌≡◌, refl}
use alpha_agent.Alerts.Ledger.{Ledger, Result, ok, err, Tx}
use alpha_agent.Alerts.Schema.{Message, Claim, is_delivered, is_dead_letter}
use alpha_agent.Alerts.Outbox.Claim.{ClaimRequest, claim_notifications}
use alpha_agent.Alerts.Outbox.Complete.{complete_notification_delivery}
use alpha_agent.Dispatch.{Sent, Summary, Run, commit, after, completion_of, is_accepted}

-- A claim, and its message as the completion left it.
abbrev pub Attempt : Type 0
Attempt = Claim × Message

-- The claims are completed one after the other, each with what the channel did with its message,
-- and each completion commits.
pub data Completes (send : Message → Sent) (now : ℕ) : List Attempt → Ledger → Ledger → Type 0 where
  done : {l : Ledger} → Completes send now [] l l
  next :
      {c : Claim} {m : Message} {ps : List Attempt} {l l1 l2 : Ledger}
      → complete_notification_delivery (completion_of c (send c.message)) now l ≡ ok (m, l1)
      → Completes send now ps l1 l2
      → Completes send now ((c, m) ∷ ps) l l2

-- Rounds of a claim that commits and the completions of what it handed out.
pub data Pass (u : ℕ → String) (send : Message → Sent) (a : ClaimRequest) (now : ℕ)
    : List Attempt → Ledger → Ledger → Type 0 where
  ended : {l : Ledger} → Pass u send a now [] l l
  round :
      {ps qs every : List Attempt} {l l1 l2 l3 : Ledger}
      → claim_notifications u a now l ≡ ok (map (λ p. p.0) ps, l1)
      → Completes send now ps l1 l2
      → Pass u send a now qs l2 l3
      → every ≡ ps ++ qs
      → Pass u send a now every l l3

-- The channel accepted the message; the message was left delivered, or as a dead letter.
abbrev pub was_accepted : (Message → Sent) → Attempt → Bool
was_accepted send p = is_accepted (send p.0.message)

abbrev pub left_delivered : Attempt → Bool
left_delivered p = is_delivered p.1.state

abbrev pub left_dead : Attempt → Bool
left_dead p = is_dead_letter p.1.state

-- `t` counts these attempts on top of `s`.
pub record Adds (send : Message → Sent) (s : Summary) (ps : List Attempt) (t : Summary)
    : Type 0 where
  pub accepted_ones : t.succeeded ≡ s.succeeded + tally (was_accepted send) ps
  pub delivered_ones : t.succeeded ≡ s.succeeded + tally left_delivered ps
  pub refused_ones : t.failed ≡ s.failed + tally (λ p. not (was_accepted send p)) ps
  pub dead_ones : t.dead_lettered ≡ s.dead_lettered + tally left_dead ps

-- What holds of the result and the ledger if the run ends without an exception.
abbrev pub Leaves : {A : Type 0} → (A → Ledger → Type 0) → Result A × Ledger → Type 0
Leaves Q r = elim r.0 [ ok a ↦ Q a r.1 | err e ↦ Unit ]

pub Leaves-map :
    {A : Type 0} (P Q : A → Ledger → Type 0) (r : Result A × Ledger)
    → ((a : A) (l : Ledger) → P a l → Q a l)
    → Leaves P r
    → Leaves Q r
Leaves-map P Q (ok a, l) f h = f a l h
Leaves-map P Q (err e, l) f h = tt

pub Leaves-after :
    {A B : Type 0} (P : A → Ledger → Type 0) (Q : B → Ledger → Type 0) (r : Result A × Ledger)
    (f : A → Run B)
    → Leaves P r
    → ((a : A) (l : Ledger) → P a l → Leaves Q (f a l))
    → Leaves Q (after r f)
Leaves-after P Q (ok a, l) f h k = k a l h
Leaves-after P Q (err e, l) f h k = tt

-- After a transaction, which is known to have committed.
pub Leaves-commit :
    {A B : Type 0} (Q : B → Ledger → Type 0) (m : Tx A) (f : A → Run B) (l : Ledger)
    → ((a : A) (l1 : Ledger) → m l ≡ ok (a, l1) → Leaves Q (f a l1))
    → Leaves Q (after (commit m l) f)
Leaves-commit {A} Q m f l h = go (m l) refl
  where
    go : (r : Result (A × Ledger)) → m l ≡ r → Leaves Q (after (commit (λ _. r) l) f)
    go (ok x) e = h x.0 x.1 e
    go (err x) e = tt
