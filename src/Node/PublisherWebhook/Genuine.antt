-- ===== src/Node/PublisherWebhook/Genuine.antt =====
-- What an accepted publisher webhook guarantees.
use rakomi_js.Common.{ℕ, true, Option, some, List, ◌≡◌, ◌↔◌, inl, inr, arith, length, get_or}
use rakomi_js.Common.Int.{ℤ, pos}
use rakomi_js.Common.Number.{Number}
use rakomi_js.Common.Text.{Text, codes, starts_with}
use rakomi_js.Common.Results.{Result, ok, >>=-eq-ok}
use rakomi_js.Node.Errors.{SdkError}
use rakomi_js.Node.Webhook.{
  Platform, Headers, guard, verify_webhook, derive_key, WebhookVerifyData, replay_window,
}
use rakomi_js.Node.Webhook.Genuine.{
  IsGenuine, IsWithin, guard-eq-ok, verify_webhook_iff, derive_key_cases,
}
use rakomi_js.Node.PublisherWebhook.{
  publisher_default_tolerance, max_webhook_tolerance, clamped, PublisherWebhookVerifyData,
  verify_publisher_webhook,
}

clamped_window :
    (now : ℕ) (tolerance : Number) (time : ℤ)
    → IsWithin now (replay_window (clamped tolerance)) time
    → IsWithin now (pos max_webhook_tolerance) time
unfolding clamped
clamped_window now tolerance time h = ground arith

-- The result takes the fields of the webhook that was verified.
fields_of :
    (inner : WebhookVerifyData) (event_type : Text) (result : PublisherWebhookVerifyData)
    → ◌≡◌ {A = Result SdkError PublisherWebhookVerifyData}
        (ok (record {
          webhook_id = inner.webhook_id;
          delivery_id = inner.delivery_id;
          event_type = event_type;
          timestamp = inner.timestamp;
          payload = inner.payload;
        }))
        (ok result)
    → (inner.payload ≡ result.payload)
      × (inner.webhook_id ≡ result.webhook_id)
      × (inner.timestamp ≡ result.timestamp)
fields_of inner event_type result h = ground arith

module _ (platform : Platform) where
  full_key :
      (secret : Text) (key : List ℕ)
      → starts_with secret (codes "rksec_") ≡ true
      → derive_key platform secret ≡ some key
      → length key ≡ 32
  full_key secret key prefixed derived = elim ((derive_key_cases platform secret key derived).1) [
    | inl full ↦ full
    | inr (raw, no_whsec, no_rksec) ↦ absurd cc
  ]

  open platform use {timing_safe_equal, now_seconds}

  -- If `timingSafeEqual` decides the equality of bytes, an accepted publisher webhook has a secret
  -- with the prefix `rksec_` that gives a key of 32 bytes, it is genuine as a webhook of that secret, and
  -- its time is at most 600 seconds from the present, whatever tolerance the caller asks for.
  pub publisher_webhook_sound :
      ((a b : List ℕ) → (timing_safe_equal a b ≡ true) ↔ (a ≡ b))
      → (body : Text) (headers : Headers) (secret : Text) (tolerance : Option Number)
        (result : PublisherWebhookVerifyData)
      → verify_publisher_webhook platform body headers secret tolerance ≡ ok result
      → (starts_with secret (codes "rksec_") ≡ true)
        × ((key : List ℕ) × (derive_key platform secret ≡ some key) × (length key ≡ 32))
        × ((inner : WebhookVerifyData) × IsGenuine platform body headers secret
              (clamped (get_or tolerance publisher_default_tolerance))
              inner
            × (inner.payload ≡ result.payload)
            × (inner.webhook_id ≡ result.webhook_id))
        × IsWithin now_seconds (pos max_webhook_tolerance) result.timestamp
  unfolding verify_publisher_webhook
  publisher_webhook_sound decides body headers secret tolerance result h =
      let window = clamped (get_or tolerance publisher_default_tolerance) in
      let (u, prefixed, h1) = >>=-eq-ok (guard (starts_with secret (codes "rksec_")) _) _ h in
      let (inner, verified, made) =
        >>=-eq-ok (verify_webhook platform body headers secret window) _ h1 in
      let genuine =
        (verify_webhook_iff platform decides body headers secret window inner).0 verified in
      let starts = guard-eq-ok _ _ u prefixed in
      let (same_payload, same_id, same_time) = fields_of inner _ result made in
      (
        starts,
        (genuine.key, genuine.has_key, full_key secret genuine.key starts genuine.has_key),
        (inner, genuine, same_payload, same_id),
        rw same_time at (
            clamped_window now_seconds (get_or tolerance publisher_default_tolerance)
              inner.timestamp genuine.in_time),
      )
