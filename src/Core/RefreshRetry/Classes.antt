-- ===== src/Core/RefreshRetry/Classes.antt =====
-- The classes of refresh failures do not overlap.
use rakomi_js.Common.{ℕ, ◌≤◌, ◌<◌, true, false, Option, none, some, ◌≡◌, ◌≢◌, ◌↔◌, ◌⊎◌, arith}
use rakomi_js.Common.Text.{Text}
use rakomi_js.Core.AuthError.{AuthError, refresh_failed}
use rakomi_js.Core.RefreshRetry.{
  is_transient_status, is_definitive_refresh_rejection, is_refresh_retry_once_status,
  names_definitive, RefreshRetryOnceTrigger, refresh_retry_once_trigger_of,
  is_settled_refresh_result,
}

-- A status ends the session exactly if it is a 4xx other than 408 and 429, and the server names the
-- grant or the client as invalid or the status is 401. No such status is transient or worth the
-- immediate retry.
pub definitive_iff :
    (s : ℕ) (e : Option Text)
    → ((is_definitive_refresh_rejection s e ≡ true) ↔ (
        (400 ≤ s) × (s < 500) × (s ≢ 408) × (s ≢ 429) × ((names_definitive e ≡ true) ⊎ (s ≡ 401))))
      × ((is_definitive_refresh_rejection s e ≡ false)
          ⊎ ((is_transient_status s ≡ false) × (is_refresh_retry_once_status s ≡ false)))
unfolding is_definitive_refresh_rejection is_refresh_retry_once_status is_transient_status
definitive_iff s e = (ground arith, ground arith)

-- The immediate retry is for a 5xx status of which the server may have rotated the token: all but
-- 503 and 521 to 523. Each such status is transient.
pub retry_once_iff :
    (s : ℕ)
    → ((is_refresh_retry_once_status s ≡ true)
        ↔ ((500 ≤ s) × (s < 600) × (s ≢ 503) × ((s < 521) ⊎ (523 < s))))
      × ((is_refresh_retry_once_status s ≡ false) ⊎ (is_transient_status s ≡ true))
unfolding is_refresh_retry_once_status is_transient_status
retry_once_iff s = (ground arith, ground arith)

-- A result that is worth the immediate retry is not settled.
pub trigger_not_settled :
    (r : Option AuthError) (t : RefreshRetryOnceTrigger)
    → refresh_retry_once_trigger_of r ≡ some t
    → is_settled_refresh_result r ≡ false
unfolding refresh_retry_once_trigger_of is_settled_refresh_result
trigger_not_settled (some (refresh_failed f)) t h = ground arith
trigger_not_settled none t h = ground arith
trigger_not_settled (some _) t h = ground arith
