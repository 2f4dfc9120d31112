-- ===== src/Node/PublisherWebhook.antt =====
-- packages/sdk/src/verify-publisher-webhook.ts: the verification of a publisher's webhook, which stands on
-- that of verify-webhook.ts.
pub mod Genuine
use rakomi_js.Common.{ℕ, min, Bool, true, false, Option, none, some, if◌then◌else◌, get_or, []}
use rakomi_js.Common.Int.{ℤ, pos, negsuc}
use rakomi_js.Common.Number.{Number, int, pos_inf, neg_inf, nan}
use rakomi_js.Common.Text.{Text, codes, starts_with}
use rakomi_js.Common.Json.{Json}
use rakomi_js.Common.Results.{Result, ok, err, thrown, ◌>>=◌}
use rakomi_js.Node.Errors.{SdkError, webhook_invalid_secret}
use rakomi_js.Node.Webhook.{
  Platform, Headers, get_header, guard, ◌>>◌, WebhookVerifyData, verify_webhook,
}

abbrev pub publisher_default_tolerance : Number
publisher_default_tolerance = int (pos 300)

abbrev pub max_webhook_tolerance : ℕ
max_webhook_tolerance = 600

-- `Math.min(Math.max(0, rawTolerance), MAX_WEBHOOK_TOLERANCE)`
unfoldable pub clamped : Number → Number
clamped (int (pos n)) = int (pos (min n max_webhook_tolerance))
clamped (int (negsuc n)) = int (pos 0)
clamped pos_inf = int (pos max_webhook_tolerance)
clamped neg_inf = int (pos 0)
clamped nan = nan

-- `PublisherWebhookVerifyData`
pub record PublisherWebhookVerifyData : Type 0 where
  pub webhook_id : Text
  pub delivery_id : Text
  pub event_type : Text
  pub timestamp : ℤ
  pub payload : Json

-- `verifyPublisherWebhook`
unfoldable pub verify_publisher_webhook :
    Platform → Text → Headers → Text → Option Number → Result SdkError PublisherWebhookVerifyData
unfolding clamped
verify_publisher_webhook platform body headers secret tolerance = do
  guard (starts_with secret (codes "rksec_")) webhook_invalid_secret
  result ←
      verify_webhook platform body headers secret
        (clamped (get_or tolerance publisher_default_tolerance))
  ok (record {
    webhook_id = result.webhook_id;
    delivery_id = result.delivery_id;
    event_type = get_or (get_header headers (codes "x-rakomi-event")) [];
    timestamp = result.timestamp;
    payload = result.payload;
  })
