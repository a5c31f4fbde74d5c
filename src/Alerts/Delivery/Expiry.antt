-- ===== src/Alerts/Delivery/Expiry.antt =====
-- After `_recover_expired_notification_leases` no expired lease and no exhausted message is left.
use alpha_agent.Base.{
  ℕ, Bool, true, false, List, [], ◌∷◌, str_eq, eq_iff, eq_refl, ◌≡◌, refl, ◌∙◌, inl, inr, All,
  All-map, All-update_both, exists, exists-sort_by, select-exists, select, sort_by, arith, leb,
  Bool-cases,
}
use alpha_agent.Alerts.Schema.{Message}
use alpha_agent.Alerts.Ledger.{Ledger}
use alpha_agent.Alerts.Outbox.Recover.{
  expire_lease, exhaust, hold_unreached, is_exhausted, is_expired, expire_row, expire_rows,
  hold_unreachable, recover_expired, expiry,
}

abbrev names : Message → Message → Bool
names m r = str_eq r.notification_id m.notification_id

-- Every expired row is still to be treated.
abbrev Listed : ℕ → List Message → Message → Type 0
Listed now rows m = is_expired now m ≡ true → exists (names m) rows ≡ true

expire_row-Listed :
    (now : ℕ) (r : Message) (rows : List Message) (l : Ledger)
    → All (Listed now (r ∷ rows)) l.outbox
    → All (Listed now rows) (expire_row now r l).outbox
unfolding expire_row
expire_row-Listed now r rows l h =
    All-update_both (λ m. str_eq m.notification_id r.notification_id) (expire_lease now) l.outbox
      (λ m _ _ t. absurd (ground arith)) (λ m k e t. later m (k t) e) h
  where
    later :
        (m : Message)
        → exists (names m) (r ∷ rows) ≡ true
        → str_eq m.notification_id r.notification_id ≡ false
        → exists (names m) rows ≡ true
    later m k e = ground (
      arith,
      eq_iff m.notification_id r.notification_id,
      eq_iff r.notification_id m.notification_id,
    )

expire_rows-clears :
    (now : ℕ) (rows : List Message) (l : Ledger)
    → All (Listed now rows) l.outbox
    → All (λ m. is_expired now m ≡ false) (expire_rows now rows l).outbox
unfolding expire_rows
expire_rows-clears now [] l h = All-map l.outbox (λ m k. unlisted m k) h
  where
    unlisted : (m : Message) → Listed now [] m → is_expired now m ≡ false
    unlisted m k = elim (Bool-cases (is_expired now m)) [
      | inl e ↦ absurd (ground (arith, k e))
      | inr e ↦ e
    ]
expire_rows-clears now (r ∷ rows) l h =
    expire_rows-clears now rows (expire_row now r l) (expire_row-Listed now r rows l h)

expired-Listed :
    (now : ℕ) (ms : List Message)
    → All (Listed now (sort_by (λ a b. leb (expiry a) (expiry b)) (select (is_expired now) ms))) ms
expired-Listed now ms =
    All-map ms
      (λ m h t.
        exists-sort_by (names m) (λ a b. leb (expiry a) (expiry b)) (select (is_expired now) ms)
        ∙ h t)
      (select-exists (is_expired now) names (λ m. eq_refl m.notification_id) ms)

-- When leases are recovered at a time, no lease that has expired by that time is left in the
-- outbox, and no message that waits for an attempt has used up its attempts.
pub recover_expired_clears :
    (now : ℕ) (l : Ledger)
    → All
        (λ m. (is_expired now m ≡ false) × (is_exhausted m ≡ false))
        (recover_expired now l).outbox
unfolding recover_expired hold_unreachable
recover_expired_clears now l =
    All-update_both _ hold_unreached _ (λ m h _. (refl, refl)) (λ m h _. h)
      (All-update_both is_exhausted (exhaust now) _ (λ m h _. (refl, refl)) (λ m h e. (h, e))
        (expire_rows-clears now _ l (expired-Listed now l.outbox)))
