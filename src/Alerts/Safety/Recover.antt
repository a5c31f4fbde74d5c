-- ===== src/Alerts/Safety/Recover.antt =====
-- The recovery of expired leases and the holding of unreachable recoveries are safe.
use alpha_agent.Base.{
  ℕ, true, false, List, [], ◌∷◌, ◌≡◌, refl, All, All-update, All-map, All-zip, All-select,
  All-sort_by, select, select-holds, sort_by, update, arith, leb,
}
use alpha_agent.Alerts.Schema.{Message, is_pending, is_delivered}
use alpha_agent.Alerts.Ledger.{Ledger}
use alpha_agent.Alerts.Outbox.Recover.{
  expire_lease, exhaust, hold_unreached, is_exhausted, is_expired, is_unreachable, expire_row,
  expire_rows, hold_unreachable, recover_expired, expiry,
}
use alpha_agent.Alerts.Safety.Rows.{
  Keeps-change, pending-not_delivered, leased-not_delivered, expire_lease-IsConsistent,
  exhaust-IsConsistent, hold_unreached-IsConsistent,
}
use alpha_agent.Alerts.Safety.Ids.{has_id, unique_rows}
use alpha_agent.Alerts.Safety.Advance.{
  WellFormed, Advances, Advances-refl, Advances-trans, Advances-same, Advances-update,
  Advances-update_where,
}

-- No row with this row's identifier is delivered.
abbrev Undelivered : Message → List Message → Type 0
Undelivered r = All (λ m. has_id r.notification_id m ≡ true → is_delivered m.state ≡ false)

expire_row-Advances :
    (now : ℕ) (r : Message) (l : Ledger) → Undelivered r l.outbox → Advances l (expire_row now r l)
unfolding expire_row
expire_row-Advances now r l h =
    let l' = record l { outbox = update (has_id r.notification_id) (expire_lease now) l.outbox } in
    Advances-trans l l' (expire_row now r l)
      (Advances-update_where (λ m. has_id r.notification_id m ≡ true → is_delivered m.state ≡ false)
        (has_id r.notification_id) (expire_lease now) l (λ m. refl)
        (λ m _ _ c. expire_lease-IsConsistent now m c)
        (λ m u t. Keeps-change m (expire_lease now m) refl (omega arith) (u t)) h)
      (Advances-same l' (expire_row now r l) refl)

expire_rows-Advances :
    (now : ℕ) (rows : List Message) (l : Ledger)
    → All (λ r. Undelivered r l.outbox) rows
    → Advances l (expire_rows now rows l)
unfolding expire_rows
expire_rows-Advances now [] l h = Advances-refl l
expire_rows-Advances now (r ∷ rows) l h =
    Advances-trans l (expire_row now r l) (expire_rows now rows (expire_row now r l))
      (expire_row-Advances now r l h.0)
      (expire_rows-Advances now rows (expire_row now r l) (All-map rows still h.1))
  where
    still : (s : Message) → Undelivered s l.outbox → Undelivered s (expire_row now r l).outbox
    still s u =
        unfold expire_row in
        All-update (λ m. has_id s.notification_id m ≡ true → is_delivered m.state ≡ false)
          (has_id r.notification_id) (expire_lease now) l.outbox (λ m _ _ _. refl) u

expired-Undelivered :
    (now : ℕ) (l : Ledger)
    → WellFormed l
    → All
        (λ r. Undelivered r l.outbox)
        (sort_by (λ a b. leb (expiry a) (expiry b)) (select (is_expired now) l.outbox))
expired-Undelivered now l w =
    All-sort_by (λ r. Undelivered r l.outbox) _ _
      (All-map _ free (
        All-zip _ _ (select (is_expired now) l.outbox) (select-holds (is_expired now) l.outbox)
          (All-select _ (is_expired now) l.outbox (unique_rows l.outbox w.distinct))))
  where
    free :
        (r : Message)
        → (is_expired now r ≡ true) × All (λ m. has_id r.notification_id m ≡ true → m ≡ r) l.outbox
        → Undelivered r l.outbox
    free r h =
        All-map l.outbox (λ m e t. rw (e t) (leased-not_delivered r.state (ground arith))) h.1

pub hold_unreachable-Advances : (l : Ledger) → Advances l (hold_unreachable l)
unfolding hold_unreachable
hold_unreachable-Advances l =
    Advances-update (is_unreachable l.outbox) hold_unreached l (λ m. refl)
      (λ m t c. hold_unreached-IsConsistent m (waiting m t) c)
      (λ m t.
        Keeps-change m (hold_unreached m) refl (omega arith)
          (pending-not_delivered m.state (waiting m t)))
  where
    waiting : (m : Message) → is_unreachable l.outbox m ≡ true → is_pending m.state ≡ true
    waiting m t = ground arith

pub recover_expired-Advances : (now : ℕ) (l : Ledger) → Advances l (recover_expired now l)
unfolding recover_expired
recover_expired-Advances now l w =
    let rows = sort_by (λ a b. leb (expiry a) (expiry b)) (select (is_expired now) l.outbox) in
    let l' = expire_rows now rows l in
    let l'' = record l' { outbox = update is_exhausted (exhaust now) l'.outbox } in
    Advances-trans l l' (hold_unreachable l'')
      (expire_rows-Advances now rows l (expired-Undelivered now l w))
      (Advances-trans l' l'' (hold_unreachable l'')
        (Advances-update is_exhausted (exhaust now) l' (λ m. refl)
          (λ m t c. exhaust-IsConsistent now m (ground arith) c)
          (λ m t.
            Keeps-change m (exhaust now m) refl (omega arith)
              (pending-not_delivered m.state (ground arith))))
        (hold_unreachable-Advances l''))
      w
