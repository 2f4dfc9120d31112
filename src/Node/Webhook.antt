-- ===== src/Node/Webhook.antt =====
-- packages/sdk/src/verify-webhook.ts: the verification of a webhook's signature and time.
pub mod Genuine
use rakomi_js.Common.{
  ℕ, zero, suc, ◌+◌, Bool, true, false, not, ◌&&◌, ◌||◌, Option, none, some, List, [], ◌∷◌, ◌++◌,
  map, length, drop, any, keep, leb, ◌==◌, if◌then◌else◌, get_or,
}
use rakomi_js.Common.Int.{ℤ, pos, ltb_ℤ, neg, ◌-ℤ◌, sub_ℕ}
use rakomi_js.Common.Number.{Number, int}
use rakomi_js.Common.Text.{
  Text, codes, text_eq, to_lower, trim, is_empty, starts_with, split, starts_with_digit,
  leading_number,
}
use rakomi_js.Common.Json.{Json}
use rakomi_js.Common.Results.{Result, ok, err, thrown, ◌>>=◌}
use rakomi_js.Node.Errors.{
  SdkError, webhook_invalid_body, webhook_invalid_secret, webhook_invalid_signature,
  webhook_missing_header, webhook_timestamp_too_new, webhook_timestamp_too_old,
}

abbrev pub expected_key_length : ℕ
expected_key_length = 32

abbrev pub fallback_tolerance_seconds : ℤ
fallback_tolerance_seconds = pos 300

-- What node:crypto, `Buffer`, `JSON.parse` and the clock bring. A decoder of `Buffer.from` takes any
-- text; `none` of the parser is its exception.
pub record Platform : Type 0 where
  pub from_base64 : Text → List ℕ
  pub from_base64url : Text → List ℕ
  pub from_utf8 : Text → List ℕ
  pub hmac_sha256_base64 : List ℕ → Text → Text
  pub timing_safe_equal : List ℕ → List ℕ → Bool
  pub json_parse : Text → Option Json
  pub now_seconds : ℕ

pub data HeaderValue : Type 0 where
  one : Text → HeaderValue
  many : List Text → HeaderValue

-- An object's own properties, each with a name of its own. The value may be `undefined`.
abbrev pub Headers : Type 0
Headers = List (Text × Option HeaderValue)

abbrev exact : Text → Headers → Option HeaderValue
exact name [] = none
exact name (h ∷ hs) = if text_eq h.0 name then h.1 else exact name hs

abbrev folded : Text → Headers → Option HeaderValue
folded lower [] = none
folded lower (h ∷ hs) = if text_eq (to_lower h.0) lower then h.1 else folded lower hs

abbrev first_value : Option HeaderValue → Option Text
first_value none = none
first_value (some (one v)) = some (trim v)
first_value (some (many [])) = none
first_value (some (many (v ∷ vs))) = some (trim v)

-- `getHeader`, for a name whose letters are ASCII
unfoldable pub get_header : Headers → Text → Option Text
get_header headers name = elim (exact (to_lower name) headers) [
  | none ↦ first_value (folded (to_lower name) headers)
  | some v ↦ first_value (some v)
]

-- `/^[A-Za-z0-9+/]+={0,2}$/`
abbrev is_base64_unit : ℕ → Bool
is_base64_unit c =
    (leb b'A' c && leb c b'Z')
    || (leb b'a' c && leb c b'z')
    || (leb b'0' c && leb c b'9')
    || c == b'+'
    || c == b'/'

is_padding : ℕ → Text → Bool
is_padding n [] = true
is_padding zero (c ∷ s) = false
is_padding (suc n) (c ∷ s) = c == b'=' && is_padding n s

is_base64_tail : Text → Bool
is_base64_tail [] = true
is_base64_tail (c ∷ s) =
    let rest = is_base64_tail s in if is_base64_unit c then rest else is_padding 2 (c ∷ s)

unfoldable pub is_base64_shape : Text → Bool
unfolding is_base64_tail is_padding
is_base64_shape [] = false
is_base64_shape (c ∷ s) = is_base64_unit c && is_base64_tail s

abbrev of_key_length : List ℕ → Option (List ℕ)
of_key_length key = if length key == expected_key_length then some key else none

abbrev signed_number : Bool → Text → Option ℤ
signed_number negative s =
    if starts_with_digit s
    then some (if negative then sub_ℕ 0 (leading_number 0 s) else pos (leading_number 0 s))
    else none

-- `parseInt(s, 10)` on a trimmed text, in exact arithmetic; `none` is NaN
unfoldable pub parse_int : Text → Option ℤ
parse_int [] = none
parse_int (c ∷ s) =
    if c == b'-'
    then signed_number true s
    else if c == b'+'
    then signed_number false s
    else signed_number false (c ∷ s)

-- `Number.isFinite(tolerance) ? tolerance : FALLBACK_TOLERANCE_SECONDS`
abbrev pub replay_window : Number → ℤ
replay_window (int w) = w
replay_window _ = fallback_tolerance_seconds

-- `signature.split(' ').map((s) => s.trim()).filter(Boolean)`
unfoldable pub signature_entries : Text → List Text
signature_entries signature = keep (λ s. not (is_empty s)) (map trim (split b' ' signature))

-- A header's value that is there and not empty.
abbrev pub present : Option Text → Result SdkError Text
present none = err webhook_missing_header
present (some s) = if is_empty s then err webhook_missing_header else ok s

abbrev pub or_fail : {A : Type 0} → Option A → SdkError → Result SdkError A
or_fail none e = err e
or_fail (some a) e = ok a

abbrev pub guard : Bool → SdkError → Result SdkError (Unit {0})
guard true e = ok tt
guard false e = err e

infixl 5 ◌>>◌
abbrev pub ◌>>◌ {ℓ} :
    {B : Type ℓ} → Result SdkError (Unit {0}) → Result SdkError B → Result SdkError B
m >> k = m >>= λ _. k

pub record WebhookVerifyData : Type 0 where
  pub webhook_id : Text
  pub delivery_id : Text
  pub timestamp : ℤ
  pub payload : Json

module _ (platform : Platform) where
  open platform use {
    from_base64, from_base64url, from_utf8, hmac_sha256_base64, timing_safe_equal, json_parse,
    now_seconds,
  }

  -- `deriveKey`
  unfoldable pub derive_key : Text → Option (List ℕ)
  unfolding is_base64_shape
  derive_key secret =
      if is_empty (trim secret)
      then none
      else if starts_with secret (codes "whsec_")
      then (if is_base64_shape (drop 6 secret)
          then of_key_length (from_base64 (drop 6 secret))
          else none)
      else if starts_with secret (codes "rksec_")
      then of_key_length (from_base64url (drop 6 secret))
      else some (from_utf8 secret)

  -- One round of the loop over the signature's entries.
  abbrev pub matches : Text → Text → Bool
  matches expected entry =
      starts_with entry (codes "v1,")
      && length (from_base64 expected) == 32
      && length (from_base64 (drop 3 entry)) == 32
      && timing_safe_equal (from_base64 expected) (from_base64 (drop 3 entry))

  abbrev pub expected_signature : List ℕ → Text → Text → Text → Text
  expected_signature key webhook_id timestamp body =
      hmac_sha256_base64 key (webhook_id ++ b'.' ∷ timestamp ++ b'.' ∷ body)

  -- `verifyWebhook`, on a body that is a string
  unfoldable pub verify_webhook : Text → Headers → Text → Number → Result SdkError WebhookVerifyData
  unfolding get_header signature_entries derive_key
  verify_webhook body headers secret tolerance = do
    signature ← present (get_header headers (codes "webhook-signature"))
    timestamp_str ← present (get_header headers (codes "webhook-timestamp"))
    webhook_id ← present (get_header headers (codes "webhook-id"))
    timestamp ← or_fail (parse_int timestamp_str) webhook_missing_header
    guard (not (ltb_ℤ (replay_window tolerance) (pos now_seconds -ℤ timestamp)))
        (webhook_timestamp_too_old (int (replay_window tolerance)))
    guard (not (ltb_ℤ (pos now_seconds -ℤ timestamp) (neg (replay_window tolerance))))
        (webhook_timestamp_too_new (int (replay_window tolerance)))
    key ← or_fail (derive_key secret) webhook_invalid_secret
    guard
        (any (matches (expected_signature key webhook_id timestamp_str body))
          (signature_entries signature))
        webhook_invalid_signature
    payload ← or_fail (json_parse body) webhook_invalid_body
    ok (record {
      webhook_id = webhook_id;
      delivery_id = get_or (get_header headers (codes "x-rakomi-delivery-id")) webhook_id;
      timestamp = timestamp;
      payload = payload;
    })
