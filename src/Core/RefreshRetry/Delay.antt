-- ===== src/Core/RefreshRetry/Delay.antt =====
-- Bounds of the retry delay.
use rakomi_js.Common.{ℕ, zero, suc, ◌≤◌, min, Option, none, some, ◌≡◌, ◌↔◌, arith}
use rakomi_js.Common.Int.{pos}
use rakomi_js.Common.Number.{Number, int}
use rakomi_js.Core.RefreshRetry.{max_refresh_retry_after_ms, refresh_retry_delay_ms}

-- There is a delay exactly for the first three attempts.
pub delay_budget :
    (attempt random : ℕ) (retry_after : Option Number)
    → (refresh_retry_delay_ms attempt retry_after random ≡ none) ↔ (3 ≤ attempt)
unfolding refresh_retry_delay_ms
delay_budget zero random r = ground arith
delay_budget (suc zero) random r = ground arith
delay_budget (suc (suc zero)) random r = ground arith
delay_budget (suc (suc (suc n))) random r = ground arith

-- Where there is a delay, a `Retry-After` of `n` milliseconds is waited out, up to the cap of two
-- minutes.
pub retry_after_honoured :
    (attempt random d n : ℕ)
    → refresh_retry_delay_ms attempt (some (int (pos n))) random ≡ some d
    → min n max_refresh_retry_after_ms ≤ d
unfolding refresh_retry_delay_ms
retry_after_honoured attempt random d n e = ground arith
