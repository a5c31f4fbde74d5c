-- ===== src/Alerts/Delivery/Retry.antt =====
-- The delay before another attempt (`_notification_retry_at`).
use alpha_agent.Base.{ℕ, suc, zero, ◌*◌, ◌-◌, ◌^◌, ◌≤◌, min, ◌≡◌, arith}
use native.Mathlib.Nat.{pow-suc}
use alpha_agent.Alerts.Outbox.Complete.{retry_delay, retry_max_seconds, retry_base_seconds}

pow_pos : (n : ℕ) → 1 ≤ 2 ^ n
pow_pos zero = omega arith
pow_pos (suc n) = omega (arith, pow-suc 2 n, pow_pos n)

-- The delay is between one minute and one hour, whatever the number of the attempt, and from the
-- first attempt on the next delay is twice as long or, where that is more than an hour, one hour.
pub retry_delay_backoff :
    (n : ℕ)
    → (retry_base_seconds ≤ retry_delay n)
      × (retry_delay n ≤ retry_max_seconds)
      × (retry_delay (suc (suc n)) ≡ min (2 * retry_delay (suc n)) retry_max_seconds)
unfolding retry_delay
retry_delay_backoff n = (omega (arith, pow_pos (n - 1)), omega arith, twice)
  where
    before : suc n - 1 ≡ n
    before = omega arith

    after : suc (suc n) - 1 ≡ suc n
    after = omega arith

    twice : retry_delay (suc (suc n)) ≡ min (2 * retry_delay (suc n)) retry_max_seconds
    twice = rw (after, before) (omega (arith, pow-suc 2 n))
