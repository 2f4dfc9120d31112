-- ===== src/React/TokenManager/Steps.antt =====
-- The histories of a tab: calls, timers, messages and answers, in any order. The histories include some
-- that the browser does not produce, such as an answer to a request that was not sent.
use rakomi_js.Common.{
  ℕ, Bool, true, false, not, Option, none, List, [], ◌∷◌, if◌then◌else◌, is_some,
}
use rakomi_js.Common.Number.{Number}
use rakomi_js.Common.Text.{Text}
use rakomi_js.Core.AuthError.{AuthError}
use rakomi_js.Core.JwtDecode.{Platform}
use rakomi_js.React.TokenManager.State.{
  EventType, TabSyncMessage, token_refreshed, signed_out, OAuthTokenResponse, loading,
  signed_out_state, TokenManager, logged, stop_auto_refresh, clear, clear_internal,
  set_signed_out_with_error, get_access_token, fire, remade, set_tokens,
}
use rakomi_js.React.TokenManager.Refresh.{
  is_absent, perform_refresh, Lock, after_lock, Answer, after_answer,
}

-- `restore` up to its wait
unfoldable pub restore : TokenManager → TokenManager
unfolding perform_refresh
restore m =
    let asked = logged EventType.restore_attempted m in
    if is_absent m.storage
    then record asked { cached_snapshot = signed_out_state none }
    else perform_refresh asked

-- `restore` from the result of the refresh on
unfoldable pub after_restore : Bool → TokenManager → TokenManager
after_restore true m = logged EventType.restore_succeeded m
after_restore false m = record (logged EventType.restore_failed m) {
  cached_snapshot = signed_out_state m.last_refresh_error;
}

-- The handler `offline`
abbrev go_offline : TokenManager → TokenManager
go_offline m = stop_auto_refresh (record m { is_offline = true })

-- The handler `online`
unfoldable pub go_online : TokenManager → TokenManager
unfolding perform_refresh
go_online m = perform_refresh (record m { is_offline = false })

-- The callback of the retry timer
unfoldable pub retry_fires : TokenManager → TokenManager
unfolding perform_refresh
retry_fires m =
    if m.is_offline
    then record m { retry_timer = none }
    else perform_refresh (record m { retry_timer = none })

pub data Event : Type 0 where
  -- a timer, a tab focus or a call of `getToken` asks for a refresh
  asks : Event
  locks : Lock → Event
  answers : Answer → ℕ → ℕ → Event
  restores : Event
  restore_ends : Bool → Event
  retries goes_offline goes_online signs_out : Event
  -- tokens from a sign-in, a code exchange or a change of the organization
  receives_tokens : OAuthTokenResponse → ℕ → Event
  sign_in_fails : AuthError → Event
  -- the expiry timer, with the time that its callback has captured
  warns : Number → ℕ → Event
  hears : TabSyncMessage → ℕ → Event

module _ (platform : Platform) (threshold : ℕ) where
  -- The handler that `setupTabSync` registers
  unfoldable pub on_message : TabSyncMessage → ℕ → TokenManager → TokenManager
  unfolding perform_refresh get_access_token clear_internal
  on_message signed_out now m = clear_internal none false (logged EventType.tab_sync_received m)
  on_message token_refreshed now m =
      let heard = logged EventType.tab_sync_received m in
      if not (is_some (get_access_token now m))
      then perform_refresh heard
      else if m.is_expiring_soon
      then record heard { is_expiring_soon = false; cached_snapshot = remade platform now false m }
      else heard

  unfoldable pub step : TokenManager → Event → TokenManager
  unfolding restore go_online retry_fires
  step m asks = perform_refresh m
  step m (locks lock) = (after_lock lock m).0
  step m (answers answer now random) = after_answer platform threshold answer now random m
  step m restores = restore m
  step m (restore_ends success) = after_restore success m
  step m retries = retry_fires m
  step m goes_offline = go_offline m
  step m goes_online = go_online m
  step m signs_out = clear none m
  step m (receives_tokens response now) = set_tokens platform threshold response now m
  step m (sign_in_fails e) = set_signed_out_with_error e m
  step m (warns effective now) = fire platform threshold effective now m
  step m (hears message now) = on_message message now m

  unfoldable pub run : TokenManager → List Event → TokenManager
  run m [] = m
  run m (e ∷ es) = run (step m e) es

-- A tab after the constructor; the session check runs if the provider sets a timeout.
abbrev pub initial : Option Text → Option Text → Bool → TokenManager
initial storage oauth_state session_check = record {
  storage = storage;
  oauth_state = oauth_state;
  access_token = none;
  expires_at = none;
  refreshing = false;
  refresh_attempts = 0;
  last_refresh_time = 0;
  last_refresh_error = none;
  refresh_timer = none;
  retry_timer = none;
  session_check = session_check;
  is_offline = false;
  expiry_timer = none;
  is_expiring_soon = false;
  max_lifetime_expires_at_ms = none;
  cached_snapshot = loading;
  event_log = [];
  sent = [];
}
