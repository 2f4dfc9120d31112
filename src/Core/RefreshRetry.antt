-- ===== src/Core/RefreshRetry.antt =====
-- packages/sdk-core/src/oauth/refresh-retry.ts: which refresh failures end a session, which are
-- retried, and when.
pub mod Classes
pub mod Once
pub mod Delay
use rakomi_js.Common.{
  ℕ, ◌+◌, ◌*◌, ◌/◌, ◌^◌, min, max, Bool, true, false, not, ◌&&◌, ◌||◌, Option, none, some, List, [],
  ◌∷◌, ltb, leb, ◌==◌, if◌then◌else◌, get_elem?, is_some,
}
use rakomi_js.Common.Int.{pos, negsuc}
use rakomi_js.Common.Number.{Number, int}
use rakomi_js.Common.Text.{Text, codes, includes}
use rakomi_js.Core.AuthError.{AuthError, refresh_failed, RefreshReason, expired, revoked}

abbrev pub refresh_retry_base_delays_ms : List ℕ
refresh_retry_base_delays_ms = 2000 ∷ 8000 ∷ 30000 ∷ []

abbrev pub max_refresh_retry_after_ms : ℕ
max_refresh_retry_after_ms = 120_000

abbrev pub definitive_oauth_errors : List Text
definitive_oauth_errors =
    codes "invalid_grant"
    ∷ codes "invalid_client"
    ∷ codes "invalid_token"
    ∷ codes "unauthorized_client"
    ∷ codes "access_denied"
    ∷ []

-- `isTransientStatus`
unfoldable pub is_transient_status : ℕ → Bool
is_transient_status status = leb 500 status || status == 429 || status == 408

-- `oauthError !== undefined && DEFINITIVE_OAUTH_ERRORS.has(oauthError)`
abbrev pub names_definitive : Option Text → Bool
names_definitive none = false
names_definitive (some e) = includes definitive_oauth_errors e

-- `isDefinitiveRefreshRejection`
unfoldable pub is_definitive_refresh_rejection : ℕ → Option Text → Bool
unfolding is_transient_status
is_definitive_refresh_rejection status oauth_error =
    if ltb status 400 || leb 500 status || is_transient_status status
    then false
    else if names_definitive oauth_error
    then true
    else status == 401

-- `isRefreshRetryOnceStatus`
unfoldable pub is_refresh_retry_once_status : ℕ → Bool
is_refresh_retry_once_status status =
    if ltb status 500 || ltb 599 status
    then false
    else not (status == 503) && not (leb 521 status && leb status 523)

abbrev pub refresh_retry_once_deadline_ms : ℕ
refresh_retry_once_deadline_ms = 8000

pub data RefreshRetryOnceTrigger : Type 0 where
  status : ℕ → RefreshRetryOnceTrigger
  network : RefreshRetryOnceTrigger

pub record RefreshRetryOnceOutcome (R : Type 0) : Type 0 where
  pub result : R
  pub uncertain_after : Option RefreshRetryOnceTrigger
  pub retried : Bool

-- The environment of one refresh is a value of `W`: `send` makes a request in it and `now` reads the
-- clock, and each leaves the environment that follows.
module _ {W R : Type 0} (send : W → R × W) (now : W → ℕ × W)
    (retry_once_trigger : R → Option RefreshRetryOnceTrigger) (is_settled : R → Bool) where
  -- `refreshWithOneImmediateRetry` from the second request on
  resend : RefreshRetryOnceTrigger → W → RefreshRetryOnceOutcome R × W
  resend trigger w =
      let (second, w') = send w in
      (
        record {
          result = second;
          uncertain_after = if is_settled second then none else some trigger;
          retried = true;
        },
        w',
      )

  -- `refreshWithOneImmediateRetry`, from the answer to the first request on
  after_first : ℕ → R → Option RefreshRetryOnceTrigger → W → RefreshRetryOnceOutcome R × W
  unfolding resend
  after_first started_at first none w =
      (record { result = first; uncertain_after = none; retried = false }, w)
  after_first started_at first (some trigger) w =
      let (later, w') = now w in
      if ltb (started_at + refresh_retry_once_deadline_ms) later
      then (record { result = first; uncertain_after = some trigger; retried = false }, w')
      else resend trigger w'

  unfoldable pub refresh_with_one_immediate_retry : W → RefreshRetryOnceOutcome R × W
  unfolding after_first
  refresh_with_one_immediate_retry w =
      let (started_at, w') = now w in
      let (first, w'') = send w' in after_first started_at first (retry_once_trigger first) w''

-- A refresh result is `ok` or carries its error: `{ ok: true, … } | { ok: false, error }`.
unfoldable pub refresh_retry_once_trigger_of : Option AuthError → Option RefreshRetryOnceTrigger
unfolding is_refresh_retry_once_status
refresh_retry_once_trigger_of (some (refresh_failed f)) = elim f.reason [
  | RefreshReason.network ↦ elim f.status [
    | none ↦ some RefreshRetryOnceTrigger.network
    | some s ↦ if is_refresh_retry_once_status s then some (status s) else none
  ]
  | _ ↦ none
]
refresh_retry_once_trigger_of _ = none

unfoldable pub is_settled_refresh_result : Option AuthError → Bool
is_settled_refresh_result none = true
is_settled_refresh_result (some (refresh_failed f)) = elim f.reason [
  | revoked ↦ true
  | expired ↦ true
  | RefreshReason.network ↦ false
]
is_settled_refresh_result (some _) = false

-- A value of `random`, as its numerator over 2 ^ 32: `buf[0] / 0x1_0000_0000` of `defaultRandom`.
abbrev pub random_range : ℕ
random_range = 2 ^ 32

-- `defaultRandom` where the platform has no generator: 0.5
abbrev pub no_jitter : ℕ
no_jitter = 2 ^ 31

-- `Math.round(base * (1 - 0.2 + 2 * 0.2 * random))`, in exact arithmetic
unfoldable pub jittered : ℕ → ℕ → ℕ
jittered base random =
    let numerator = base * (8 * random_range + 4 * random) in
    let denominator = 10 * random_range in (2 * numerator + denominator) / (2 * denominator)

-- The delay with the server's `Retry-After`, which counts only when it is finite and positive.
abbrev with_retry_after : ℕ → Option Number → ℕ
with_retry_after delay (some (int (pos n))) =
    if n == 0 then delay else max delay (min n max_refresh_retry_after_ms)
with_retry_after delay _ = delay

-- `refreshRetryDelayMs`
unfoldable pub refresh_retry_delay_ms : ℕ → Option Number → ℕ → Option ℕ
unfolding jittered
refresh_retry_delay_ms attempt retry_after_ms random =
    elim (get_elem? refresh_retry_base_delays_ms attempt) [
      | none ↦ none
      | some base ↦ some (with_retry_after (jittered base random) retry_after_ms)
    ]
