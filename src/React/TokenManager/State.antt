-- ===== src/React/TokenManager/State.antt =====
-- The fields of `TokenManager` and its methods that do not wait. Storage answers at once; the delegates
-- that a snapshot carries, the subscribers and the debounced inactivity times are left out.
use rakomi_js.Common.{
  ℕ, ◌+◌, ◌-◌, ◌*◌, ◌/◌, ◌^◌, min, max, Bool, true, false, not, ◌&&◌, Option, none, some, List, [],
  ◌∷◌, ◌++◌, ltb, leb, if◌then◌else◌,
}
use rakomi_js.Common.Int.{pos}
use rakomi_js.Common.Number.{Number, int}
use rakomi_js.Common.Text.{Text, codes, text_eq, is_empty}
use rakomi_js.Common.Json.{as_number}
use rakomi_js.Core.AuthError.{AuthError, sign_in_failed}
use rakomi_js.Core.Types.{UserResource}
use rakomi_js.Core.JwtDecode.{
  Platform, read, decode_jwt_payload, decode_user, decode_session, scaled, min_or,
}
use rakomi_js.Core.EventLog.{push}

-- The type of an entry of the log.
pub data EventType : Type 0 where
  session_mismatch token_received restore_attempted restore_succeeded restore_failed : EventType
  refresh_started refresh_failed refresh_succeeded lock_timeout lock_acquired : EventType
  network_retry tab_sync_received session_expiring_soon bfcache_restore : EventType

pub data TabSyncMessage : Type 0 where
  token_refreshed signed_out : TabSyncMessage

-- `expires_in` is a whole number of seconds.
pub record OAuthTokenResponse : Type 0 where
  pub access_token : Text
  pub expires_in : ℕ
  pub refresh_token : Option Text

pub record SignedIn : Type 0 where
  pub user : UserResource
  pub session_id : Text
  pub error : Option AuthError
  pub is_expiring_soon : Bool

-- `AuthState`
pub data AuthState : Type 0 where
  loading : AuthState
  signed_out_state : Option AuthError → AuthState
  signed_in : SignedIn → AuthState

-- The timer of the expiry warning, with the time that its callback has captured.
pub record ExpiryTimer : Type 0 where
  pub effective_expires_at : Number
  pub delay : ℕ

-- A timer is its delay in milliseconds. `storage` and `oauth_state` are the items that the tab keeps
-- under its two keys; `sent` are the signals to the other tabs, the newest first.
pub record TokenManager : Type 0 where
  pub storage : Option Text
  pub oauth_state : Option Text
  pub access_token : Option Text
  pub expires_at : Option ℕ
  pub refreshing : Bool
  pub refresh_attempts : ℕ
  pub last_refresh_time : ℕ
  pub last_refresh_error : Option AuthError
  pub refresh_timer : Option ℕ
  pub retry_timer : Option ℕ
  pub session_check : Bool
  pub is_offline : Bool
  pub expiry_timer : Option ExpiryTimer
  pub is_expiring_soon : Bool
  pub max_lifetime_expires_at_ms : Option Number
  pub cached_snapshot : AuthState
  pub event_log : List EventType
  pub sent : List TabSyncMessage

abbrev pub max_safe_timeout_ms : ℕ
max_safe_timeout_ms = 2 ^ 31 - 1

-- `refreshBuffer`; `Math.floor(expiresIn * 0.1)` in exact arithmetic
unfoldable pub refresh_buffer : ℕ → ℕ
refresh_buffer expires_in = max 10 (min 60 (expires_in / 10))

abbrev pub logged : EventType → TokenManager → TokenManager
logged e m = record m { event_log = push e m.event_log }

-- `stopAutoRefresh`
abbrev pub stop_auto_refresh : TokenManager → TokenManager
stop_auto_refresh m = record m { refresh_timer = none }

-- `startAutoRefresh`
unfoldable pub start_auto_refresh : ℕ → TokenManager → TokenManager
unfolding refresh_buffer
start_auto_refresh expires_in m =
    if m.is_offline
    then stop_auto_refresh m
    else record m { refresh_timer = some ((expires_in - refresh_buffer expires_in) * 1000) }

abbrev pub is_signed_in : AuthState → Bool
is_signed_in (signed_in s) = true
is_signed_in _ = false

-- `this.accessToken === null && this.cachedSnapshot.isSignedIn !== true`
abbrev pub was_signed_out : TokenManager → Bool
was_signed_out m = elim m.access_token [
  | none ↦ not (is_signed_in m.cached_snapshot)
  | some t ↦ false
]

-- `clearInternal`
unfoldable pub clear_internal : Option AuthError → Bool → TokenManager → TokenManager
clear_internal error broadcast m = record m {
  access_token = none;
  expires_at = none;
  refreshing = false;
  refresh_attempts = 0;
  last_refresh_error = none;
  refresh_timer = none;
  retry_timer = none;
  session_check = false;
  expiry_timer = none;
  is_expiring_soon = false;
  max_lifetime_expires_at_ms = none;
  storage = none;
  oauth_state = none;
  event_log = [];
  sent = if broadcast && not (was_signed_out m) then signed_out ∷ m.sent else m.sent;
  cached_snapshot = signed_out_state error;
}

-- `clear`
abbrev pub clear : Option AuthError → TokenManager → TokenManager
clear error m = clear_internal error true m

-- `setSignedOutWithError`
abbrev pub set_signed_out_with_error : AuthError → TokenManager → TokenManager
set_signed_out_with_error e m = record m { cached_snapshot = signed_out_state (some e) }

-- `getAccessToken`
unfoldable pub get_access_token : ℕ → TokenManager → Option Text
get_access_token now m = elim m.access_token [
  | none ↦ none
  | some token ↦ elim m.expires_at [
    | none ↦ none
    | some at ↦ if is_empty token then none else if leb at now then none else some token
  ]
]

-- `getValidToken` up to its answer (`some`) or its wait for a refresh (`none`)
unfoldable pub token_at_hand : ℕ → TokenManager → Option Text
token_at_hand now m = elim m.access_token [
  | none ↦ none
  | some token ↦ elim m.expires_at [
    | none ↦ none
    | some at ↦ if not (is_empty token) && ltb (now + 60_000) at then some token else none
  ]
]

-- The seconds up to a time; 0 for a time that is absent or past.
abbrev pub seconds_to : Option ℕ → ℕ → ℕ
seconds_to none now = 0
seconds_to (some at) now = (at - now) / 1000

-- The milliseconds from `until` to a time, or 0 where the time is not later. `min_or` gives no positive
-- infinity, and NaN is no JSON number.
abbrev milliseconds_after : Number → ℕ → ℕ
milliseconds_after (int (pos at)) until = at - until
milliseconds_after _ until = 0

-- `prevUserId !== null && newUserId !== null && prevUserId !== newUserId`
abbrev pub is_mismatch : Option Text → Option Text → Bool
is_mismatch (some prev) (some next) = not (text_eq prev next)
is_mismatch _ _ = false

abbrev pub stored : Option Text → Option Text → Option Text
stored none old = old
stored (some token) old = if is_empty token then old else some (codes "v1:" ++ token)

abbrev pub clamped : ℕ → ℕ
clamped expires_in = max 10 (min 86400 expires_in)

module _ (platform : Platform) where
  -- `makeSignedInSnapshot`
  unfoldable pub make_signed_in_snapshot : Text → ℕ → Bool → ℕ → AuthState
  make_signed_in_snapshot token expires_in expiring_soon now = elim (decode_user platform token) [
    | none ↦
        signed_out_state
          (some (sign_in_failed (codes "Invalid or missing required JWT claims") none))
    | some user ↦ elim (decode_session platform token expires_in now now now) [
      | none ↦
          signed_out_state
            (some (sign_in_failed (codes "Invalid or missing required JWT claims") none))
      | some session ↦ signed_in (record {
        user = user;
        session_id = session.id;
        error = none;
        is_expiring_soon = expiring_soon;
      })
    ]
  ]

  -- The snapshot made anew of the current token, where someone is signed in.
  abbrev pub remade : ℕ → Bool → TokenManager → AuthState
  remade now expiring_soon m = elim m.access_token [
    | none ↦ m.cached_snapshot
    | some token ↦
        if is_signed_in m.cached_snapshot && not (is_empty token)
        then make_signed_in_snapshot token (seconds_to m.expires_at now) expiring_soon now
        else m.cached_snapshot
  ]

  -- `fire` of `scheduleExpiryWarning`, with the threshold in milliseconds
  unfoldable pub fire : ℕ → Number → ℕ → TokenManager → TokenManager
  unfolding make_signed_in_snapshot
  fire threshold effective now m =
      let remaining = milliseconds_after effective (now + threshold) in
      if ltb 0 remaining
      then record m {
        expiry_timer = some (record {
          effective_expires_at = effective;
          delay = min remaining max_safe_timeout_ms;
        });
      }
      else record m {
        expiry_timer = none;
        is_expiring_soon = true;
        cached_snapshot = remade now true m;
        event_log = push session_expiring_soon m.event_log;
      }

  -- `scheduleExpiryWarning`; its two ways to a timer are the one of `fire`
  unfoldable pub schedule_expiry_warning : ℕ → ℕ → Option Number → ℕ → TokenManager → TokenManager
  unfolding fire
  schedule_expiry_warning threshold expires_at max_lifetime now m =
      fire threshold (min_or expires_at max_lifetime) now (record m { expiry_timer = none })

  abbrev pub user_id_of : Option Text → Option Text
  user_id_of none = none
  user_id_of (some token) = elim (decode_user platform token) [ none ↦ none | some u ↦ some u.id ]

  abbrev pub max_lifetime_of : Text → Option Number
  max_lifetime_of token = elim (decode_jwt_payload platform token) [
    | none ↦ none
    | some p ↦ scaled (as_number (read p "session_max_lifetime_exp"))
  ]

  -- The fields that `setTokens` writes before it starts the timers.
  unfoldable pub with_tokens : OAuthTokenResponse → ℕ → TokenManager → TokenManager
  unfolding make_signed_in_snapshot
  with_tokens response now m = record m {
    access_token = some response.access_token;
    expires_at = some (now + clamped response.expires_in * 1000);
    last_refresh_time = now;
    refresh_attempts = 0;
    max_lifetime_expires_at_ms = max_lifetime_of response.access_token;
    is_expiring_soon = false;
    storage = stored response.refresh_token m.storage;
    sent = token_refreshed ∷ m.sent;
    cached_snapshot =
        make_signed_in_snapshot response.access_token (clamped response.expires_in) false now;
  }

  -- `setTokens`
  unfoldable pub set_tokens : ℕ → OAuthTokenResponse → ℕ → TokenManager → TokenManager
  unfolding with_tokens start_auto_refresh schedule_expiry_warning
  set_tokens threshold response now m =
      if is_mismatch (user_id_of m.access_token) (user_id_of (some response.access_token))
      then clear none (logged session_mismatch m)
      else logged token_received (
          schedule_expiry_warning threshold (now + clamped response.expires_in * 1000)
            (max_lifetime_of response.access_token) now
            (start_auto_refresh (clamped response.expires_in) (with_tokens response now m)))
