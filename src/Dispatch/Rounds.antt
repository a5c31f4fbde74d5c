-- ===== src/Dispatch/Rounds.antt =====
-- The rounds of a pass over the due messages: what they did, and that they end.
use mathlib.Core.List.{append-nil}
use alpha_agent.Base.{
  length, length-append, tally-append, ℕ, zero, suc, ◌+◌, ◌-◌, ◌≤◌, ◌||◌, not, true, false, Option,
  none, some, List, [], ◌∷◌, ◌++◌, map, String, ◌≡◌, refl, sym, ap, ◌∙◌, ◌⊎◌, inl, inr,
  if◌then◌else◌, ◌==◌, arith, Bool-cases, is_some,
}
use alpha_agent.Alerts.Ledger.{Ledger, ok}
use alpha_agent.Alerts.Schema.{Message}
use alpha_agent.Alerts.Outbox.Claim.{ClaimRequest, claim_notifications}
use alpha_agent.Dispatch.{
  Sent, Summary, Run, started_with, dispatch_notifications, add_summary, email_rounds,
}
use alpha_agent.Dispatch.Trace.{
  Attempt, Completes, done, next, Pass, ended, round, Adds, was_accepted, left_delivered, left_dead,
  Leaves, Leaves-map, Leaves-after,
}
use alpha_agent.Dispatch.Loop.{Adds-none, Dispatched, dispatch-Dispatched}

-- Why a pass with this many messages to go stops: they are used up, one message was asked for, or
-- the claim after these attempts found none.
abbrev pub Stops :
    (ℕ → String)
    → (Message → Sent)
    → ClaimRequest
    → (now remaining : ℕ) → List Attempt
    → Ledger
    → Ledger
    → Type 0
Stops u send a now remaining ps l l' =
    (length ps ≡ remaining)
    ⊎ (is_some a.notification_id ≡ true)
    ⊎ ((l0 : Ledger) × Pass u send a now ps l l0 × (claim_notifications u a now l0 ≡ ok ([], l')))

-- What the rounds leave; they do not run out of fuel.
abbrev pub Ended :
    (ℕ → String)
    → (Message → Sent)
    → ClaimRequest
    → (now remaining : ℕ) → Summary
    → Ledger
    → Option Summary
    → Ledger
    → Type 0
Ended u send a now remaining total l none l' = ⊥
Ended u send a now remaining total l (some t) l' =
    (ps : List Attempt) × Pass u send a now ps l l'
    × Adds send total ps t
    × (t.claimed ≡ total.claimed + length ps)
    × (length ps ≤ remaining)
    × Stops u send a now remaining ps l l'

Adds-append :
    (send : Message → Sent) (total current t : Summary) (ps qs : List Attempt)
    → Adds send (started_with 0) ps current
    → Adds send (add_summary total current) qs t
    → Adds send total (ps ++ qs) t
Adds-append send total current t ps qs h k = record {
  accepted_ones =
      omega (arith, h.accepted_ones, k.accepted_ones, tally-append (was_accepted send) ps qs);
  delivered_ones =
      omega (arith, h.delivered_ones, k.delivered_ones, tally-append left_delivered ps qs);
  refused_ones = omega (
    arith,
    h.refused_ones,
    k.refused_ones,
    tally-append (λ (p : Attempt). not (was_accepted send p)) ps qs,
  );
  dead_ones = omega (arith, h.dead_ones, k.dead_ones, tally-append left_dead ps qs);
}

Completes-nothing :
    {send : Message → Sent} {now : ℕ} {ps : List Attempt} {l l' : Ledger}
    → Completes send now ps l l'
    → length ps ≡ 0
    → l ≡ l'
Completes-nothing done e = refl
Completes-nothing (next h r) e = absurd (omega (arith, e))

empty-of : (ps : List Attempt) → length ps ≡ 0 → ps ≡ []
empty-of [] e = refl
empty-of (p ∷ ps) e = absurd (omega (arith, e))

module _ (u : ℕ → String) (send : Message → Sent) (a : ClaimRequest) (now : ℕ) where
  -- A round, and the rounds after it.
  Ended-after :
      (remaining : ℕ) (total current : Summary) (l l2 : Ledger) (o : Option Summary) (l' : Ledger)
      → current.claimed ≤ remaining
      → Dispatched u send a now l current l2
      → Ended u send a now (remaining - current.claimed) (add_summary total current) l2 o l'
      → Ended u send a now remaining total l o l'
  Ended-after remaining total current l l2 none l' few d h = h
  Ended-after remaining total current l l2 (some t) l' few (ps, l1, claims, run, adds, size, room)
        h =
      (
        ps ++ h.0,
        before l' h.1,
        Adds-append send total current t ps h.0 adds h.2,
        omega (arith, h.3, size, length-append ps h.0),
        omega (arith, h.4, size, few, length-append ps h.0),
        stop h.5,
      )
    where
      before : (l0 : Ledger) → Pass u send a now h.0 l2 l0 → Pass u send a now (ps ++ h.0) l l0
      before l0 p = round claims run p refl

      stop :
          Stops u send a now (remaining - current.claimed) h.0 l2 l'
          → Stops u send a now remaining (ps ++ h.0) l l'
      stop (inl e) = inl (omega (arith, e, size, few, length-append ps h.0))
      stop (inr (inl e)) = inr (inl e)
      stop (inr (inr (l0, p, e))) = inr (inr (l0, before l0 p, e))

  -- The last round.
  Ended-last :
      (remaining : ℕ) (total current : Summary) (l l2 : Ledger)
      → current.claimed ≤ remaining
      → Dispatched u send a now l current l2
      → (current.claimed == 0 || is_some a.notification_id) ≡ true
      → Ended u send a now remaining total l (some (add_summary total current)) l2
  Ended-last remaining total current l l2 few (ps, l1, claims, run, adds, size, room) e = (
    ps,
    round claims run ended (sym (append-nil ps)),
    record {
      accepted_ones = omega (arith, adds.accepted_ones);
      delivered_ones = omega (arith, adds.delivered_ones);
      refused_ones = omega (arith, adds.refused_ones);
      dead_ones = omega (arith, adds.dead_ones);
    },
    omega (arith, size),
    omega (arith, size, few),
    elim (Bool-cases (is_some a.notification_id)) [
      | inl k ↦ inr (inl k)
      | inr k ↦
          let z : length ps ≡ 0 = omega (arith, size, none_claimed k) in
          inr (inr (l, (nothing z).0, (nothing z).1))
    ],
  )
    where
      none_claimed : is_some a.notification_id ≡ false → current.claimed ≡ 0
      none_claimed k = ground (arith, e, k)

      nothing :
          length ps ≡ 0 → Pass u send a now ps l l × (claim_notifications u a now l ≡ ok ([], l2))
      nothing z = (
        rw (empty-of ps z) ended,
        claims
            ∙ ap (λ qs. ok (map (λ (p : Attempt). p.0) qs, l1)) (empty-of ps z)
            ∙ ap (λ x. ok ([], x)) (Completes-nothing run z),
      )

  pub rounds-Ended :
      (fuel remaining : ℕ) (total : Summary) (l : Ledger)
      → a.limit ≡ 1
      → remaining ≤ fuel
      → Leaves
          (Ended u send a now remaining total l)
          (email_rounds u send a now fuel remaining total l)
  unfolding email_rounds
  rounds-Ended zero remaining total l one enough =
      rw (zero-is (omega (arith, enough)))
        ([], ended, Adds-none send total, omega arith, omega arith, inl (omega (arith, enough)))
    where
      zero-is : remaining ≡ 0 → (remaining == 0) ≡ true
      zero-is e = ground (arith, e)
  rounds-Ended (suc fuel) remaining total l one enough = elim (Bool-cases (remaining == 0)) [
    | inl e ↦ rw e ([], ended, Adds-none send total, omega arith, omega arith, inl (none-left e))
    | inr e ↦ rw e (
        Leaves-after (Dispatched u send a now l) (Ended u send a now remaining total l)
          (dispatch_notifications u send a now l) more (dispatch-Dispatched u send a now l)
          (λ current l2 d.
            rest (some-left e) (λ r t x k. rounds-Ended fuel r t x one k) current l2 d))
  ]
    where
      none-left : (remaining == 0) ≡ true → 0 ≡ remaining
      none-left e = ground (arith, e)

      some-left : (remaining == 0) ≡ false → 1 ≤ remaining
      some-left e = ground (arith, e)

      more : Summary → Run (Option Summary)
      more current =
          if current.claimed == 0 || is_some a.notification_id
          then (λ l'. (ok (some (add_summary total current)), l'))
          else email_rounds u send a now fuel (remaining - current.claimed)
              (add_summary total current)

      some-claimed :
          (current : Summary)
          → (current.claimed == 0 || is_some a.notification_id) ≡ false
          → 1 ≤ current.claimed
      some-claimed current e = ground (arith, e)

      rest :
          1 ≤ remaining
          → ((r : ℕ) (t : Summary) (x : Ledger)
              → r ≤ fuel
              → Leaves (Ended u send a now r t x) (email_rounds u send a now fuel r t x))
          → (current : Summary) (l2 : Ledger) → Dispatched u send a now l current l2
          → Leaves (Ended u send a now remaining total l) (more current l2)
      rest left again current l2 d =
          let few : current.claimed ≤ remaining = omega (arith, d.5, d.6, one, left) in
          elim (Bool-cases (current.claimed == 0 || is_some a.notification_id)) [
            | inl e ↦ rw e (Ended-last remaining total current l l2 few d e)
            | inr e ↦ rw e (
                Leaves-map
                  (Ended u send a now (remaining - current.claimed) (add_summary total current) l2)
                  (Ended u send a now remaining total l)
                  (email_rounds u send a now fuel (remaining - current.claimed)
                    (add_summary total current) l2)
                  (λ o l' h. Ended-after remaining total current l l2 o l' few d h)
                  (again (remaining - current.claimed) (add_summary total current) l2
                    (omega (arith, enough, some-claimed current e))))
          ]
