-- ===== src/Node/Device.antt =====
-- packages/sdk/src/device.ts: the polling of the device authorization grant, with
-- `isTransientHttpStatus` and `parseRetryAfterSeconds` of errors.ts.
pub mod Waits
pub mod Polls
pub mod Approval
use rakomi_js.Common.{
  ℕ, zero, suc, ◌+◌, ◌-◌, ◌*◌, ◌/◌, ◌^◌, min, max, Bool, true, false, not, ◌&&◌, ◌||◌, Option, none,
  some, List, [], ◌∷◌, ltb, leb, ◌==◌, if◌then◌else◌, all, get_or, is_some,
}
use rakomi_js.Common.Int.{ℤ, pos, negsuc}
use rakomi_js.Common.Number.{Number}
use rakomi_js.Common.Text.{Text, codes, text_eq, trim, is_empty, is_digit, leading_number}
use rakomi_js.Common.Json.{Json, Fields, null, obj, end, get, as_text, as_number}
use rakomi_js.Common.Results.{Result, ok, err, thrown, ◌>>=◌}
use rakomi_js.Node.Errors.{
  SdkError, oauth_missing_client_id, oauth_invalid_client, oauth_invalid_grant,
  oauth_invalid_request, oauth_network_error, oauth_temporarily_unavailable,
  device_authorization_pending, device_authorization_slow_down, device_authorization_denied,
  device_authorization_expired, device_authorization_timeout, device_authorization_rate_limited,
}

abbrev pub await_max_iterations : ℕ
await_max_iterations = 2000

abbrev pub max_poll_interval_ms : ℕ
max_poll_interval_ms = 60_000

abbrev pub max_consecutive_transient_polls : ℕ
max_consecutive_transient_polls = 5

-- `isTransientHttpStatus`
unfoldable pub is_transient_http_status : ℕ → Bool
is_transient_http_status status = leb 500 status || status == 429 || status == 408

-- `Math.max(0, Math.ceil((at - now) / 1000))`
abbrev seconds_until : ℤ → ℕ → ℕ
seconds_until (pos at) now = (at - now + 999) / 1000
seconds_until (negsuc n) now = 0

-- `parseRetryAfterSeconds`; `date_parse` is `Date.parse`, whose NaN is `none`. Whole numbers are exact here.
unfoldable pub parse_retry_after_seconds : (Text → Option ℤ) → Option Text → ℕ → Option ℕ
parse_retry_after_seconds date_parse none now = none
parse_retry_after_seconds date_parse (some header) now =
    let value = trim header in
    if not (is_empty value) && all is_digit value
    then some (leading_number 0 value)
    else elim (date_parse value) [ none ↦ none | some at ↦ some (seconds_until at now) ]

abbrev fields_of : Json → Fields
fields_of (obj fs) = fs
fields_of _ = end

-- `typeof errorBody.error === 'string' ? errorBody.error : 'unknown'`
abbrev error_code : Json → Text
error_code body = get_or (as_text (get "error" (fields_of body))) (codes "unknown")

-- `mapStartError`; the property access on `null` throws
unfoldable pub map_start_error : Json → Result SdkError SdkError
map_start_error null = thrown
map_start_error body =
    let code = error_code body in
    if text_eq code (codes "invalid_client") || text_eq code (codes "unauthorized_client")
    then ok oauth_invalid_client
    else if text_eq code (codes "slow_down")
    then ok device_authorization_rate_limited
    else ok oauth_invalid_request

-- `mapPollError`; the property access on `null` throws
unfoldable pub map_poll_error : Json → Result SdkError SdkError
map_poll_error null = thrown
map_poll_error body =
    let code = error_code body in
    if text_eq code (codes "authorization_pending")
    then ok device_authorization_pending
    else if text_eq code (codes "slow_down")
    then ok device_authorization_slow_down
    else if text_eq code (codes "access_denied")
    then ok device_authorization_denied
    else if text_eq code (codes "expired_token")
    then ok device_authorization_expired
    else if text_eq code (codes "invalid_grant")
    then ok oauth_invalid_grant
    else if text_eq code (codes "invalid_client") || text_eq code (codes "unauthorized_client")
    then ok oauth_invalid_client
    else ok oauth_invalid_request

-- What `fetch` ends with. `body` is the value of `response.json()`, `none` where that throws; `now` is the
-- time at which the answer is read.
pub record Response : Type 0 where
  pub status : ℕ
  pub body : Option Json
  pub retry_after : Option Text
  pub now : ℕ

pub data Fetched : Type 0 where
  unreachable : Fetched
  answered : Response → Fetched

-- A mapped error as the result of a request.
abbrev failed_with : {A : Type 0} → Result SdkError SdkError → Result SdkError A
failed_with (ok e) = err e
failed_with (err e) = err e
failed_with thrown = thrown

-- `response.ok`
abbrev pub is_ok : ℕ → Bool
is_ok status = leb 200 status && leb status 299

-- The last check of `pollForDeviceToken`; the result is the parsed body.
abbrev token_response : Json → Result SdkError Fields
token_response null = thrown
token_response body =
    if is_some (as_text (get "access_token" (fields_of body)))
      && is_some (as_text (get "token_type" (fields_of body)))
    then ok (fields_of body)
    else err oauth_network_error

module _ (date_parse : Text → Option ℤ) where
  -- `pollForDeviceToken` from the end of `fetch` on
  polled : Fetched → Result SdkError Fields
  unfolding is_transient_http_status parse_retry_after_seconds map_poll_error
  polled unreachable = err oauth_network_error
  polled (answered r) =
      if is_transient_http_status r.status
      then err (
          oauth_temporarily_unavailable r.status
            (parse_retry_after_seconds date_parse r.retry_after r.now))
      else elim r.body [
        | none ↦ err oauth_network_error
        | some body ↦
            if is_ok r.status then token_response body else failed_with (map_poll_error body)
      ]

  -- `pollForDeviceToken`, with the end of `fetch`
  unfoldable pub poll_for_device_token : Text → Fetched → Result SdkError Fields
  unfolding polled
  poll_for_device_token client_id fetched =
      if is_empty client_id then err oauth_missing_client_id else polled fetched

-- `DeviceAuthorizationIssued`
pub record DeviceAuthorizationIssued : Type 0 where
  pub device_code : Text
  pub user_code : Text
  pub verification_uri : Text
  pub verification_uri_complete : Text
  pub expires_in : Number
  pub interval : Number

abbrev or_malformed : {A : Type 0} → Option A → Result SdkError A
or_malformed none = err oauth_network_error
or_malformed (some a) = ok a

-- The last checks of `startDeviceAuthorization`
unfoldable pub issued : Json → Result SdkError DeviceAuthorizationIssued
issued null = thrown
issued body = do
  device_code ← or_malformed (as_text (get "device_code" (fields_of body)))
  user_code ← or_malformed (as_text (get "user_code" (fields_of body)))
  verification_uri ← or_malformed (as_text (get "verification_uri" (fields_of body)))
  complete ← or_malformed (as_text (get "verification_uri_complete" (fields_of body)))
  expires_in ← or_malformed (as_number (get "expires_in" (fields_of body)))
  interval ← or_malformed (as_number (get "interval" (fields_of body)))
  ok (record {
    device_code = device_code;
    user_code = user_code;
    verification_uri = verification_uri;
    verification_uri_complete = complete;
    expires_in = expires_in;
    interval = interval;
  })

-- `startDeviceAuthorization`, with the end of `fetch`
unfoldable pub start_device_authorization :
    Text → Fetched → Result SdkError DeviceAuthorizationIssued
unfolding issued map_start_error
start_device_authorization client_id fetched =
    if is_empty client_id then err oauth_missing_client_id else elim fetched [
      | unreachable ↦ err oauth_network_error
      | answered r ↦ elim r.body [
        | none ↦ err oauth_network_error
        | some body ↦ if is_ok r.status then issued body else failed_with (map_start_error body)
      ]
    ]

-- The variables of the loop of `awaitDeviceTokens`.
pub record Polling : Type 0 where
  pub interval_ms : ℕ
  pub transient_failures : ℕ
  pub transient_wait_ms : Option ℕ

abbrev pub started : ℕ → Polling
started interval_seconds = record {
  interval_ms = max 1 interval_seconds * 1000;
  transient_failures = 0;
  transient_wait_ms = none;
}

-- `transientWaitMs ?? intervalMs`
abbrev pub wait_of : Polling → ℕ
wait_of s = get_or s.transient_wait_ms s.interval_ms

-- `transient`; `aborted` is read after the poll
abbrev pub is_transient : Bool → SdkError → Bool
is_transient aborted (oauth_temporarily_unavailable status after) = true
is_transient aborted oauth_network_error = not aborted
is_transient aborted _ = false

-- `(result.error.retry_after_seconds ?? 0) * 1000`
abbrev pub retry_after_ms_of : SdkError → ℕ
retry_after_ms_of (oauth_temporarily_unavailable status (some after)) = after * 1000
retry_after_ms_of _ = 0

-- The branch of a transient failure: the poll that is waited for next, or none after too many.
abbrev pub backed_off : SdkError → Polling → Option Polling
backed_off e s =
    let failures = suc s.transient_failures in
    if ltb max_consecutive_transient_polls failures
    then none
    else some (record {
      interval_ms = s.interval_ms;
      transient_failures = failures;
      transient_wait_ms =
          some
            (min (max (s.interval_ms * 2 ^ failures) (retry_after_ms_of e)) max_poll_interval_ms);
    })

-- The branches of the other errors.
abbrev pub told : SdkError → Polling → Option Polling
told device_authorization_pending s =
    some (record { interval_ms = s.interval_ms; transient_failures = 0; transient_wait_ms = none })
told device_authorization_slow_down s = some (record {
  interval_ms = min (s.interval_ms + 5000) max_poll_interval_ms;
  transient_failures = 0;
  transient_wait_ms = none;
})
told _ s = none

-- The loop's body after a poll that failed: how it goes on, or `none` where it returns the error.
unfoldable pub after_poll : Bool → SdkError → Polling → Option Polling
after_poll aborted e s = if is_transient aborted e then backed_off e s else told e s

-- The environment is a value of `W`: the clock, the signal, the passing of time and the server.
module _ {W : Type 0} (now : W → ℕ × W) (is_aborted : W → Bool) (sleep : ℕ → W → W)
    (poll : W → Result SdkError Fields × W) (deadline : ℕ) where
  -- The loop of `awaitDeviceTokens`, with the iterations that are left.
  unfoldable pub await_tokens : ℕ → Polling → W → Result SdkError Fields × W
  unfolding after_poll
  await_tokens zero s w = (err device_authorization_timeout, w)
  await_tokens (suc left) s w =
      if is_aborted w
      then (err device_authorization_timeout, w)
      else (let (time, w') = now w in
          if leb deadline time
          then (err device_authorization_timeout, w')
          else (let woken = sleep (wait_of s) w' in
              if is_aborted woken
              then (err device_authorization_timeout, woken)
              else (let (result, later) = poll woken in
                  elim result [
                    | ok tokens ↦ (ok tokens, later)
                    | thrown ↦ (thrown, later)
                    | err e ↦ elim (after_poll (is_aborted later) e s) [
                      | none ↦ (err e, later)
                      | some s' ↦ await_tokens left s' later
                    ]
                  ])))

-- `awaitDeviceTokens`; the client id is checked by every poll.
module _ {W : Type 0} (now : W → ℕ × W) (is_aborted : W → Bool) (sleep : ℕ → W → W)
    (poll : W → Result SdkError Fields × W) where
  unfoldable pub await_device_tokens : ℕ → ℕ → W → Result SdkError Fields × W
  unfolding await_tokens
  await_device_tokens interval_seconds timeout_ms w =
      let (begun, w') = now w in
      await_tokens now is_aborted sleep poll (begun + timeout_ms) await_max_iterations
        (started interval_seconds) w'
