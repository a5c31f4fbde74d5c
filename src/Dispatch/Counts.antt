-- ===== src/Dispatch/Counts.antt =====
-- What a pass over the due messages reports.
use alpha_agent.Base.{
  length, tally, tally-not, tally-apart, ℕ, ◌+◌, ◌≤◌, ◌&&◌, ◌||◌, not, Bool, true, false, Option,
  none, some, List, String, ◌≡◌, refl, inl, inr, ltb, arith, Bool-cases, is_none,
}
use alpha_agent.Alerts.Ledger.{Ledger, ok}
use alpha_agent.Alerts.Schema.{Message, MessageState, is_delivered, is_dead_letter}
use alpha_agent.Dispatch.{Sent, Summary, started_with, email_claim, dispatch_email_notifications}
use alpha_agent.Dispatch.Trace.{
  Attempt, Pass, Adds, was_accepted, left_delivered, left_dead, Leaves,
}
use alpha_agent.Dispatch.Rounds.{Stops, Ended, rounds-Ended}

-- The summary of these attempts.
pub record IsCountOf (send : Message → Sent) (ps : List Attempt) (t : Summary) : Type 0 where
  pub all_claimed : t.claimed ≡ length ps
  pub sent_or_failed : t.claimed ≡ t.succeeded + t.failed
  pub accepted_ones : t.succeeded ≡ tally (was_accepted send) ps
  pub delivered_ones : t.succeeded ≡ tally left_delivered ps
  pub refused_ones : t.failed ≡ tally (λ p. not (was_accepted send p)) ps
  pub dead_ones : t.dead_lettered ≡ tally left_dead ps
  pub dead_failed : t.dead_lettered ≤ t.failed

not_both : (s : MessageState) → is_delivered s ≡ true → is_dead_letter s ≡ false
not_both MessageState.delivered h = refl
not_both MessageState.held h = refl
not_both MessageState.pending h = refl
not_both MessageState.leased h = refl
not_both MessageState.dead_letter h = absurd (ground arith)

counted :
    (send : Message → Sent) (ps : List Attempt) (t : Summary)
    → Adds send (started_with 0) ps t
    → t.claimed ≡ length ps
    → IsCountOf send ps t
counted send ps t h e = record {
  all_claimed = e;
  sent_or_failed =
      omega (arith, e, h.accepted_ones, h.refused_ones, tally-not (was_accepted send) ps);
  accepted_ones = omega (arith, h.accepted_ones);
  delivered_ones = omega (arith, h.delivered_ones);
  refused_ones = omega (arith, h.refused_ones);
  dead_ones = omega (arith, h.dead_ones);
  dead_failed = omega (
    arith,
    h.accepted_ones,
    h.delivered_ones,
    h.refused_ones,
    h.dead_ones,
    tally-not (was_accepted send) ps,
    tally-apart left_delivered left_dead ps (λ p k. not_both p.1.state k),
  );
}

-- When a pass over the due messages ends without an exception, it ends by itself within a round for
-- each message of its limit, whatever the channel does. What it did is a sequence of claims that
-- commit, each followed by the completions of what it handed out, from the first ledger to the one
-- that is left. Its summary counts the messages that these claims handed out, no more than its limit;
-- as succeeded those that the channel accepted, which are as many as the completions left delivered;
-- as failed the others; and as dead letters, no more than the failures, those that the completions
-- left as such. It stops only where the limit is reached, where one message was asked for, or where
-- the next claim found none.
pub email_dispatch_counts :
    (u : ℕ → String) (send : Message → Sent) (fingerprint : String) (limit : ℕ)
    (notification_id : Option String) (require_enabled_route : Bool) (now : ℕ) (l : Ledger)
    (o : Option Summary) (l' : Ledger)
    → dispatch_email_notifications u send fingerprint limit notification_id require_enabled_route
        now l
      ≡ (ok o, l')
    → (t : Summary) × (ps : List Attempt) × (o ≡ some t)
      × Pass u send (email_claim notification_id require_enabled_route fingerprint) now ps l l'
      × IsCountOf send ps t
      × (t.claimed ≤ limit)
      × Stops u send
          (email_claim notification_id require_enabled_route fingerprint)
          now
          limit
          ps
          l
          l'
unfolding dispatch_email_notifications
email_dispatch_counts u send fingerprint limit i route now l o l' e = found o (rw e at ends)
  where
    found :
        (o : Option Summary)
        → Ended u send (email_claim i route fingerprint) now limit (started_with 0) l o l'
        → (t : Summary) × (ps : List Attempt) × (o ≡ some t)
          × Pass u send (email_claim i route fingerprint) now ps l l'
          × IsCountOf send ps t
          × (t.claimed ≤ limit)
          × Stops u send (email_claim i route fingerprint) now limit ps l l'
    found none h = absurd h
    found (some t) (ps, p, adds, size, room, stop) = (
      t,
      ps,
      refl,
      p,
      counted send ps t adds (omega (arith, size)),
      omega (arith, size, room),
      stop,
    )

    ends :
        Leaves
          (Ended u send (email_claim i route fingerprint) now limit (started_with 0) l)
          (dispatch_email_notifications u send fingerprint limit i route now l)
    ends = elim (Bool-cases (ltb limit 1 || ltb 100 limit)) [
      | inl k ↦ rw k tt
      | inr k ↦ rw k (elim (Bool-cases (not route && is_none i)) [
        | inl j ↦ rw j tt
        | inr j ↦ rw j (
            rounds-Ended u send (email_claim i route fingerprint) now limit limit (started_with 0) l
              refl (omega arith))
      ])
    ]
