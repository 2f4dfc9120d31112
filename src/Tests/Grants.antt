-- ===== src/Tests/Grants.antt =====
-- The polling of the device grant, logout tokens and publisher webhooks of packages/sdk/src.
use rakomi_js.Common.{
  ℕ, suc, ◌+◌, ◌*◌, ◌≤◌, ◌<◌, min, max, ◌==◌, Bool, true, false, none, some, List, [], ◌∷◌, ◌≡◌,
  ◌↔◌, refl, take, length, if◌then◌else◌, get_or,
}
use rakomi_js.Common.Int.{pos, ◌-ℤ◌}
use rakomi_js.Common.Number.{int}
use rakomi_js.Common.Text.{
  Text, codes, text_eq, text_eq_iff, trim, is_space, to_lower, includes, starts_with, split,
  leading_number,
}
use rakomi_js.Common.Json.{null, str, num, obj, Fields, field, end, get}
use rakomi_js.Common.Results.{Result, ok, err}
use rakomi_js.Node.Errors.{SdkError, device_authorization_pending, device_authorization_slow_down}
use rakomi_js.Node.Device.{
  Polling, started, wait_of, after_poll, max_poll_interval_ms, max_consecutive_transient_polls,
  await_device_tokens, await_max_iterations,
}
use rakomi_js.Node.Device.Waits.{slow_down_lengthens_iff, continue, waits_bounded}
use rakomi_js.Node.Device.Polls.{polls_bounded}
use rakomi_js.Node.Device.Approval
use rakomi_js.Node.SigningAlgorithms.{is_allowed_signing_algorithm}
use rakomi_js.Node.LogoutToken.{
  VerifyLogoutTokenOptions, LogoutTokenPayload, Services, tolerance_of, is_https, check_header,
  logout_events, check_claims, verify_logout_token,
}
use rakomi_js.Node.LogoutToken.Sound.{IsLogoutToken, verify_logout_token_iff}
use rakomi_js.Node.LogoutToken.Memo.{
  keys_of, use_all, recent, max_jwks_memo_entries, memo_refines_recency,
}
use rakomi_js.Node.Webhook.{
  get_header, parse_int, signature_entries, is_base64_shape, derive_key, verify_webhook,
  WebhookVerifyData,
}
use rakomi_js.Node.Webhook.Genuine.{IsGenuine, IsWithin}
use rakomi_js.Node.PublisherWebhook.{
  clamped, PublisherWebhookVerifyData, verify_publisher_webhook, publisher_default_tolerance,
  max_webhook_tolerance,
}
use rakomi_js.Node.PublisherWebhook.Genuine.{publisher_webhook_sound}
use rakomi_js.Tests.Webhooks
use rakomi_js.Tests.Webhooks.{thirty_two}

-- The server asks for an interval of 100 seconds, and then for a slower pace.
abbrev slowed : Polling
slowed = record { interval_ms = 60_000; transient_failures = 0; transient_wait_ms = none }

slows_down : after_poll false device_authorization_slow_down (started 100) ≡ some slowed
unfolding after_poll
slows_down = refl

slow_down_lengthens_iff_example :
    (((started 100).interval_ms < slowed.interval_ms)
      ↔ ((started 100).interval_ms < max_poll_interval_ms))
    × ((slowed.interval_ms < (started 100).interval_ms)
        ↔ (max_poll_interval_ms < (started 100).interval_ms))
    × ((started 100).interval_ms ≤ 55_000 → slowed.interval_ms ≡ (started 100).interval_ms + 5000)
slow_down_lengthens_iff_example = slow_down_lengthens_iff false (started 100) slowed slows_down

abbrev pending_polls : List (Bool × SdkError)
pending_polls = (false, device_authorization_pending) ∷ (false, device_authorization_slow_down) ∷ []

waits_longer :
    continue (started 5) pending_polls
    ≡ some (record { interval_ms = 10_000; transient_failures = 0; transient_wait_ms = none })
unfolding continue after_poll
waits_longer = refl

waits_bounded_example :
    let s : Polling = record {
      interval_ms = 10_000;
      transient_failures = 0;
      transient_wait_ms = none;
    } in
    (min (max 1 5 * 1000) max_poll_interval_ms ≤ wait_of s)
    × (wait_of s ≤ max (max 1 5 * 1000) max_poll_interval_ms)
    × (s.transient_failures ≤ max_consecutive_transient_polls)
waits_bounded_example =
    waits_bounded 5 pending_polls
      (record { interval_ms = 10_000; transient_failures = 0; transient_wait_ms = none })
      waits_longer

-- The environment counts the polls; the second one finds the approval.
abbrev tokens : Fields
tokens = field "access_token" (str (codes "t")) end

abbrev poll : ℕ → Result SdkError Fields × ℕ
poll w = (if w == 1 then ok tokens else err device_authorization_pending, suc w)

abbrev clock : ℕ → ℕ × ℕ
clock w = (0, w)

abbrev signal : ℕ → Bool
signal w = false

abbrev sleep : ℕ → ℕ → ℕ
sleep ms w = w

polls_bounded_example :
    (await_device_tokens clock signal sleep poll 5 60_000 0).1 ≤ 0 + await_max_iterations
polls_bounded_example =
    polls_bounded clock signal sleep poll (λ w. w) (λ w. refl) (λ w. refl) (λ ms w. refl) 5 60_000 0

abbrev header : Fields
header =
    field "alg" (str (codes "ES256"))
      (field "typ" (str (codes "Logout+JWT")) (field "kid" (str (codes "k1")) end))

abbrev logout_event : Fields
logout_event = field "http://schemas.openid.net/event/backchannel-logout" (obj end) end

abbrev payload : Fields
payload = field "aud" (str (codes "client")) (
    field "sub" (str (codes "u1")) (
      field "jti" (str (codes "j1")) (
        field "iat" (num (int (pos 1000)))
          (field "exp" (num (int (pos 1120))) (field "events" (obj logout_event) end)))))

abbrev services : Services
services = record {
  SigningKey = Text;
  url_protocol = λ url. some (codes "https:");
  decode_protected_header = λ t. some header;
  get_key = λ url issuer kid. ok (record { key = codes "key"; alg = codes "ES256" });
  jwt_verify = λ t key alg issuer audience tolerance. ok payload;
}

abbrev options : VerifyLogoutTokenOptions
options = record {
  issuer = none;
  jwks_url = none;
  audience = codes "client";
  clock_tolerance = none;
  expected_sid = none;
  expected_sub = some (codes "u1");
}

abbrev logout : LogoutTokenPayload
logout = record {
  iss = none;
  aud = codes "client";
  iat = int (pos 1000);
  exp = int (pos 1120);
  jti = codes "j1";
  events = logout_event;
  sub = some (codes "u1");
  sid = none;
}

logs_out : verify_logout_token services (codes "token") options ≡ ok logout
unfolding verify_logout_token tolerance_of is_https check_header check_claims logout_events get
    codes text_eq trim is_space to_lower includes is_allowed_signing_algorithm
logs_out = refl

verify_logout_token_iff_example : IsLogoutToken services (codes "token") options logout
verify_logout_token_iff_example =
    (verify_logout_token_iff services (codes "token") options logout).0 logs_out

abbrev uses : List (ℕ × Text)
uses = (1, codes "a") ∷ (2, codes "b") ∷ (3, codes "a") ∷ []

memo_refines_recency_example :
    keys_of (use_all [] uses) ≡ take max_jwks_memo_entries (recent [] uses)
memo_refines_recency_example = memo_refines_recency uses

abbrev secret : Text
secret = codes "rksec_abcdefghijklmnopqrstuvwxyz012345"

abbrev received : PublisherWebhookVerifyData
received = record {
  webhook_id = codes "w1";
  delivery_id = codes "w1";
  event_type = [];
  timestamp = pos 900;
  payload = null;
}

is_received :
    verify_publisher_webhook Webhooks.platform (codes "{}") Webhooks.headers secret none
    ≡ ok received
unfolding verify_publisher_webhook clamped verify_webhook get_header parse_int signature_entries
    derive_key codes text_eq starts_with trim is_space split to_lower leading_number ◌-ℤ◌
    is_base64_shape
is_received = refl

publisher_webhook_sound_example :
    (starts_with secret (codes "rksec_") ≡ true)
    × ((key : List ℕ) × (derive_key Webhooks.platform secret ≡ some key) × (length key ≡ 32))
    × ((inner : WebhookVerifyData) × IsGenuine Webhooks.platform
          (codes "{}")
          Webhooks.headers
          secret
          (clamped (get_or none publisher_default_tolerance))
          inner
        × (inner.payload ≡ received.payload)
        × (inner.webhook_id ≡ received.webhook_id))
    × IsWithin 1000 (pos max_webhook_tolerance) received.timestamp
publisher_webhook_sound_example =
    publisher_webhook_sound Webhooks.platform (λ a b. text_eq_iff a b) (codes "{}") Webhooks.headers
      secret none received is_received
