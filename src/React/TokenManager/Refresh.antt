-- ===== src/React/TokenManager/Refresh.antt =====
-- `performRefresh` and `doRefresh`, cut at the two waits for other parties: the lock that the tabs
-- share, and the authorization server. What ends a refresh also resets `refreshPromise`.
use rakomi_js.Common.{ℕ, suc, Bool, true, false, Option, none, some, drop, if◌then◌else◌}
use rakomi_js.Common.Text.{Text, codes, starts_with, is_empty}
use rakomi_js.Core.AuthError.{
  AuthError, refresh_failed, RefreshFailure, RefreshReason, network_error, get_error_message,
  status_of, oauth_error_of, request_id_of,
}
use rakomi_js.Core.RefreshRetry.{refresh_retry_delay_ms}
use rakomi_js.Core.JwtDecode.{Platform}
use rakomi_js.React.TokenManager.State.{
  EventType, OAuthTokenResponse, AuthState, loading, signed_out_state, signed_in, TokenManager,
  logged, clear, set_tokens,
}

-- `cachedSnapshot.isLoaded === false || cachedSnapshot.isSignedIn === true`
abbrev is_settled_out : AuthState → Bool
is_settled_out (signed_out_state e) = true
is_settled_out _ = false

-- `!raw`
abbrev pub is_absent : Option Text → Bool
is_absent none = true
is_absent (some s) = is_empty s

abbrev ended : TokenManager → TokenManager
ended m = record m { refreshing = false }

-- `performRefresh`, up to the wait for the lock: it joins the refresh that is under way, ends at once
-- where storage has no refresh token, or asks for the lock.
unfoldable pub perform_refresh : TokenManager → TokenManager
perform_refresh m =
    if m.refreshing
    then m
    else if is_absent m.storage
    then ended (
        if is_settled_out m.cached_snapshot
        then m
        else record m { cached_snapshot = signed_out_state none })
    else logged EventType.refresh_started (record m { refreshing = true })

-- The end of the wait for the lock: the timeout, or the lock, with the item that storage has then
-- (another tab may have changed it).
pub data Lock : Type 0 where
  timed_out : Lock
  acquired : Option Text → Lock

-- From the lock to the request. The second component is the refresh token that is sent, if any.
unfoldable pub after_lock : Lock → TokenManager → TokenManager × Option Text
after_lock timed_out m = (ended (logged EventType.lock_timeout m), none)
after_lock (acquired none) m =
    (ended (logged EventType.lock_acquired (record m { storage = none })), none)
after_lock (acquired (some raw)) m =
    let locked = logged EventType.lock_acquired (record m { storage = some raw }) in
    if is_empty raw
    then (ended locked, none)
    else if starts_with raw (codes "v1:")
    then (locked, some (drop 3 raw))
    else (clear none locked, none)

-- What a refresh request ends with.
pub data Answer : Type 0 where
  tokens : OAuthTokenResponse → Answer
  failed : AuthError → Answer
  -- an exception with its message
  exception : Text → Answer

-- `isAuthError`
unfoldable pub is_auth_error : AuthError → Bool
is_auth_error (refresh_failed f) = elim f.reason [
  | RefreshReason.expired ↦ true
  | RefreshReason.revoked ↦ true
  | RefreshReason.network ↦ false
]
is_auth_error _ = false

-- `toTransientError`, which is always of the code `REFRESH_FAILED`
abbrev to_network : AuthError → RefreshFailure
to_network e = record {
  reason = RefreshReason.network;
  message = get_error_message e;
  request_id = request_id_of e;
  status = status_of e;
  oauth_error = oauth_error_of e;
  retry_after_ms = none;
}

unfoldable pub to_transient_error : AuthError → RefreshFailure
to_transient_error (refresh_failed f) = elim f.reason [
  | RefreshReason.network ↦ f
  | _ ↦ to_network (refresh_failed f)
]
to_transient_error e = to_network e

-- `surfaceRefreshError`
abbrev pub with_error : AuthError → Bool → AuthState → AuthState
with_error e expiring_soon loading = loading
with_error e expiring_soon (signed_out_state old) = signed_out_state (some e)
with_error e expiring_soon (signed_in s) = signed_in (record {
  user = s.user;
  session_id = s.session_id;
  error = some e;
  is_expiring_soon = expiring_soon;
})

abbrev surface_refresh_error : AuthError → TokenManager → TokenManager
surface_refresh_error e m = record m {
  cached_snapshot = with_error e m.is_expiring_soon m.cached_snapshot;
}

-- The two ends of `scheduleRetry`: the retries are used up, or one is set.
abbrev pub retry_in : AuthError → Option ℕ → TokenManager → TokenManager
retry_in e none m = surface_refresh_error e (
    logged EventType.refresh_failed
      (record m { refresh_attempts = 0; last_refresh_error = some e }))
retry_in e (some delay) m = surface_refresh_error e (
    logged EventType.network_retry (record m {
      refresh_attempts = suc m.refresh_attempts;
      last_refresh_error = some e;
      retry_timer = some delay;
    }))

-- `scheduleRetry`, with the random number of the delay
unfoldable pub schedule_retry : AuthError → ℕ → TokenManager → TokenManager
unfolding to_transient_error
schedule_retry error random m =
    let transient = to_transient_error error in
    retry_in (refresh_failed transient)
      (refresh_retry_delay_ms m.refresh_attempts transient.retry_after_ms random) m

module _ (platform : Platform) where
  -- `doRefresh` from the answer on, with the threshold of the expiry warning, the clock and the random
  -- number.
  unfoldable pub after_answer : ℕ → Answer → ℕ → ℕ → TokenManager → TokenManager
  unfolding schedule_retry
  after_answer threshold (tokens response) now random m = ended (
      set_tokens platform threshold response now (record (logged EventType.refresh_succeeded m) {
        refresh_attempts = 0;
        last_refresh_error = none;
      }))
  after_answer threshold (failed e) now random m = ended (
      if is_auth_error e
      then clear none (logged EventType.refresh_failed m)
      else schedule_retry e random (logged EventType.refresh_failed m))
  after_answer threshold (exception message) now random m =
      ended (schedule_retry (network_error message none) random (logged EventType.refresh_failed m))
