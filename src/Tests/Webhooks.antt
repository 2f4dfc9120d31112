-- ===== src/Tests/Webhooks.antt =====
-- A webhook of packages/sdk/src/verify-webhook.ts whose codings keep a text as it is.
use rakomi_js.Common.{false, some, [], ◌∷◌, ◌≡◌, ◌⊎◌, refl, length}
use rakomi_js.Common.Int.{pos, ◌-ℤ◌}
use rakomi_js.Common.Number.{int, pos_inf}
use rakomi_js.Common.Text.{
  Text, codes, text_eq, text_eq_iff, starts_with, trim, is_space, is_empty, split, to_lower,
  leading_number,
}
use rakomi_js.Common.Json.{null}
use rakomi_js.Common.Results.{ok, err}
use rakomi_js.Node.Errors.{webhook_timestamp_too_old}
use rakomi_js.Node.Webhook.{
  Platform, Headers, one, many, get_header, parse_int, signature_entries, is_base64_shape,
  WebhookVerifyData, derive_key, verify_webhook,
}
use rakomi_js.Node.Webhook.Genuine.{IsGenuine, verify_webhook_iff, derive_key_cases}

abbrev pub thirty_two : Text
thirty_two = codes "abcdefghijklmnopqrstuvwxyz012345"

abbrev pub platform : Platform
platform = record {
  from_base64 = λ t. t;
  from_base64url = λ t. t;
  from_utf8 = λ t. t;
  hmac_sha256_base64 = λ key content. thirty_two;
  timing_safe_equal = λ a b. text_eq a b;
  json_parse = λ t. some null;
  now_seconds = 1000;
}

abbrev pub headers : Headers
headers =
    (codes "Webhook-Signature", some (one (codes "v0,x v1,abcdefghijklmnopqrstuvwxyz012345")))
    ∷ (codes "webhook-timestamp", some (many (codes " 900 " ∷ [])))
    ∷ (codes "webhook-id", some (one (codes "w1")))
    ∷ []

abbrev delivered : WebhookVerifyData
delivered = record {
  webhook_id = codes "w1";
  delivery_id = codes "w1";
  timestamp = pos 900;
  payload = null;
}

is_accepted : verify_webhook platform (codes "{}") headers (codes "secret") pos_inf ≡ ok delivered
unfolding verify_webhook get_header parse_int signature_entries derive_key codes text_eq starts_with
    trim is_space split to_lower leading_number ◌-ℤ◌
is_accepted = refl

-- A tolerance of 60 seconds refuses what a default of 300 accepts.
is_too_old :
    verify_webhook platform (codes "{}") headers (codes "secret") (int (pos 60))
    ≡ err (webhook_timestamp_too_old (int (pos 60)))
unfolding verify_webhook get_header parse_int signature_entries derive_key codes text_eq starts_with
    trim is_space split to_lower leading_number ◌-ℤ◌
is_too_old = refl

verify_webhook_iff_example :
    IsGenuine platform (codes "{}") headers (codes "secret") pos_inf delivered
verify_webhook_iff_example =
    (verify_webhook_iff platform (λ a b. text_eq_iff a b) (codes "{}") headers (codes "secret")
        pos_inf delivered).0
      is_accepted

is_key : derive_key platform (codes "whsec_abcdefghijklmnopqrstuvwxyz012345") ≡ some thirty_two
unfolding derive_key is_base64_shape codes text_eq starts_with trim is_space
is_key = refl

derive_key_cases_run :
    (is_empty (trim (codes "whsec_abcdefghijklmnopqrstuvwxyz012345")) ≡ false)
    × ((length thirty_two ≡ 32)
        ⊎ ((thirty_two ≡ codes "whsec_abcdefghijklmnopqrstuvwxyz012345")
            × (starts_with (codes "whsec_abcdefghijklmnopqrstuvwxyz012345") (codes "whsec_")
                ≡ false)
            × (starts_with (codes "whsec_abcdefghijklmnopqrstuvwxyz012345") (codes "rksec_")
                ≡ false)))
derive_key_cases_run =
    derive_key_cases platform (codes "whsec_abcdefghijklmnopqrstuvwxyz012345") thirty_two is_key
