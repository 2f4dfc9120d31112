-- ===== src/Tests/Retry.antt =====
-- Refresh failures and retry delays of packages/sdk-core/src/oauth/refresh-retry.ts on concrete values.
use rakomi_js.Common.{
  ℕ, ◌+◌, ◌≤◌, ◌<◌, min, suc, zero, true, false, Option, none, some, ◌≡◌, ◌≢◌, ◌↔◌, ◌⊎◌, refl,
  if◌then◌else◌,
}
use rakomi_js.Common.Int.{pos}
use rakomi_js.Common.Number.{int}
use rakomi_js.Common.Text.{codes, text_eq, includes}
use rakomi_js.Core.AuthError.{AuthError, refresh_failed, RefreshReason}
use rakomi_js.Core.RefreshRetry.{
  status, is_definitive_refresh_rejection, is_refresh_retry_once_status, is_transient_status,
  names_definitive, refresh_with_one_immediate_retry, refresh_retry_once_trigger_of,
  is_settled_refresh_result, refresh_retry_delay_ms, max_refresh_retry_after_ms,
}
use rakomi_js.Core.RefreshRetry.Classes.{definitive_iff, retry_once_iff, trigger_not_settled}
use rakomi_js.Core.RefreshRetry.Once.{refresh_sends, retried_iff, certain_iff}
use rakomi_js.Core.RefreshRetry.Delay.{delay_budget, retry_after_honoured}

ends_session : is_definitive_refresh_rejection 400 (some (codes "invalid_grant")) ≡ true
unfolding is_definitive_refresh_rejection includes text_eq codes
ends_session = refl

proxy_refusal : is_definitive_refresh_rejection 403 none ≡ false
unfolding is_definitive_refresh_rejection
proxy_refusal = refl

rate_limited : is_definitive_refresh_rejection 429 (some (codes "invalid_grant")) ≡ false
unfolding is_definitive_refresh_rejection
rate_limited = refl

abbrev unauthorized : ℕ
unauthorized = 401

abbrev server_error : ℕ
server_error = 500

definitive_iff_run :
    ((is_definitive_refresh_rejection unauthorized none ≡ true) ↔ (
      (400 ≤ unauthorized)
      × (unauthorized < 500)
      × (unauthorized ≢ 408)
      × (unauthorized ≢ 429)
      × ((names_definitive none ≡ true) ⊎ (unauthorized ≡ 401))))
    × ((is_definitive_refresh_rejection unauthorized none ≡ false)
        ⊎ ((is_transient_status unauthorized ≡ false)
            × (is_refresh_retry_once_status unauthorized ≡ false)))
definitive_iff_run = definitive_iff unauthorized none

retry_once_iff_run :
    ((is_refresh_retry_once_status server_error ≡ true) ↔ (
      (500 ≤ server_error)
      × (server_error < 600)
      × (server_error ≢ 503)
      × ((server_error < 521) ⊎ (523 < server_error))))
    × ((is_refresh_retry_once_status server_error ≡ false)
        ⊎ (is_transient_status server_error ≡ true))
retry_once_iff_run = retry_once_iff server_error

abbrev bad_gateway : AuthError
bad_gateway = refresh_failed (record {
  reason = RefreshReason.network;
  message = codes "bad gateway";
  request_id = none;
  status = some 502;
  oauth_error = none;
  retry_after_ms = none;
})

is_trigger : refresh_retry_once_trigger_of (some bad_gateway) ≡ some (status 502)
unfolding refresh_retry_once_trigger_of
is_trigger = refl

trigger_not_settled_run : is_settled_refresh_result (some bad_gateway) ≡ false
trigger_not_settled_run = trigger_not_settled (some bad_gateway) (status 502) is_trigger

-- The first request fails, the second succeeds.
abbrev answer : ℕ → Option AuthError
answer zero = some bad_gateway
answer (suc n) = none

-- The number of requests sent so far, and the time; a request takes three seconds.
abbrev Env : Type 0
Env = ℕ × ℕ

abbrev send : Env → Option AuthError × Env
send w = (answer w.0, (suc w.0, w.1 + 3000))

abbrev now : Env → ℕ × Env
now w = (w.1, w)

abbrev start : Env
start = (0, 100)

recovers :
    (refresh_with_one_immediate_retry send now refresh_retry_once_trigger_of
      is_settled_refresh_result start).0
    ≡ record { result = none; uncertain_after = none; retried = true }
unfolding refresh_with_one_immediate_retry refresh_retry_once_trigger_of is_settled_refresh_result
recovers = refl

refresh_sends_run :
    let out =
      refresh_with_one_immediate_retry send now refresh_retry_once_trigger_of
        is_settled_refresh_result start in
    out.1.0 ≡ 0 + (if out.0.retried then 2 else 1)
refresh_sends_run =
    refresh_sends send now refresh_retry_once_trigger_of is_settled_refresh_result (λ w. w.0)
      (λ w. refl) (λ w. refl) start

retried_iff_run :
    ((refresh_with_one_immediate_retry send now refresh_retry_once_trigger_of
        is_settled_refresh_result start).0.retried
      ≡ true)
    ↔ ((refresh_retry_once_trigger_of (some bad_gateway) ≢ none) × (3100 ≤ 100 + 8000))
retried_iff_run = retried_iff send now refresh_retry_once_trigger_of is_settled_refresh_result start

certain_iff_run :
    let out =
      (refresh_with_one_immediate_retry send now refresh_retry_once_trigger_of
        is_settled_refresh_result start).0 in
    (out.uncertain_after ≡ none) ↔ (
      (refresh_retry_once_trigger_of (some bad_gateway) ≡ none)
      ⊎ ((out.retried ≡ true) × (is_settled_refresh_result out.result ≡ true)))
certain_iff_run = certain_iff send now refresh_retry_once_trigger_of is_settled_refresh_result start

hostile_delay : refresh_retry_delay_ms 0 (some (int (pos 9_999_999))) 0 ≡ some 120_000
unfolding refresh_retry_delay_ms
hostile_delay = refl

delay_budget_run : (refresh_retry_delay_ms 3 none 0 ≡ none) ↔ (3 ≤ 3)
delay_budget_run = delay_budget 3 0 none

retry_after_honoured_run : min 9_999_999 max_refresh_retry_after_ms ≤ 120_000
retry_after_honoured_run = retry_after_honoured 0 0 120_000 9_999_999 hostile_delay
