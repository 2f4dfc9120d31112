-- ===== src/Core/TokenEndpoint.antt =====
-- packages/sdk-core/src/oauth/errors.ts, `refreshAccessToken` of oauth/token-exchange.ts,
-- `parseRetryAfterMs` of passkeys/errors.ts and internal/request-id.ts: what an answer of the token
-- endpoint to a refresh means. The fields `error_description` and `request_id` of a body are read where they
-- are strings.
pub mod Outcomes
pub mod Exchange
use rakomi_js.Common.{
  ℕ, ◌-◌, ◌*◌, Bool, true, false, not, ◌&&◌, ◌||◌, Option, none, some, List, [], ◌∷◌, ◌++◌, drop,
  ltb, leb, ◌==◌, if◌then◌else◌, all, get_or,
}
use rakomi_js.Common.Int.{ℤ, pos, negsuc}
use rakomi_js.Common.Number.{Number, int}
use rakomi_js.Common.Text.{
  Text, codes, is_empty, is_digit, leading_number, starts_with, text_eq, trim,
}
use rakomi_js.Common.Decimal.{decimal}
use rakomi_js.Common.Json.{
  Json, Fields, null, num, str, obj, end, get, as_text, as_number, as_fields, equals_text,
  is_nullish,
}
use rakomi_js.Common.Results.{Result, ok, err, thrown}
use rakomi_js.Core.AuthError.{
  AuthError, refresh_failed, code_exchange_failed, RefreshReason, RefreshFailure,
}
use rakomi_js.Core.RefreshRetry.{
  RefreshRetryOnceTrigger, is_transient_status, is_definitive_refresh_rejection,
}

-- `typeof value === 'string' && value.length > 0 ? value : undefined`
abbrev pub nonempty_text : Option Json → Option Text
nonempty_text (some (str [])) = none
nonempty_text (some (str (c ∷ s))) = some (c ∷ s)
nonempty_text _ = none

-- The properties of a parsed body; a body that is no object has none of those that are read.
abbrev pub fields_of : Json → Fields
fields_of (obj fs) = fs
fields_of _ = end

-- The properties of `obj.error` where it is an object.
abbrev nested_error : Fields → Fields
nested_error fs = elim (get "error" fs) [ none ↦ end | some v ↦ fields_of v ]

-- `extractRequestId`
unfoldable pub extract_request_id : Json → Option Text
extract_request_id body = elim (nonempty_text (get "request_id" (fields_of body))) [
  | some id ↦ some id
  | none ↦ nonempty_text (get "request_id" (nested_error (fields_of body)))
]

abbrev failure :
    RefreshReason → Text → Option Text → Option ℕ → Option Text → Option Number → AuthError
failure reason message request_id status oauth_error retry_after_ms = refresh_failed (record {
  reason = reason;
  message = message;
  request_id = request_id;
  status = status;
  oauth_error = oauth_error;
  retry_after_ms = retry_after_ms;
})

pub data Context : Type 0 where
  exchange refresh : Context

-- `body.error_description ?? oauthError ?? …`
abbrev description_of : ℕ → Json → Option Text → Text
description_of status body oauth_error =
    get_or (as_text (get "error_description" (fields_of body)))
      (get_or oauth_error (codes "token endpoint returned HTTP " ++ decimal status))

-- `parseTokenEndpointError`
unfoldable pub parse_token_endpoint_error : ℕ → Json → Context → Option Number → AuthError
parse_token_endpoint_error status body context retry_after_ms =
    let oauth_error = nonempty_text (get "error" (fields_of body)) in
    let description = description_of status body oauth_error in
    let request_id = extract_request_id body in
    let rejected = code_exchange_failed description request_id (some status) oauth_error in
    elim context [
      | exchange ↦ rejected
      | refresh ↦
          if is_transient_status status
          then failure RefreshReason.network description request_id (some status) oauth_error
              retry_after_ms
          else if is_definitive_refresh_rejection status oauth_error
          then failure RefreshReason.revoked description request_id (some status) oauth_error none
          else rejected
    ]

-- `networkError`
abbrev pub transport_error : Text → AuthError
transport_error message = failure RefreshReason.network message none none none none

-- `unreadableRefreshResponseError`
abbrev pub unreadable_refresh_response_error : ℕ → Text → AuthError
unreadable_refresh_response_error status message =
    failure RefreshReason.revoked message none (some status) none none

-- `refreshOutcomeUnknownError`
unfoldable pub refresh_outcome_unknown_error : RefreshRetryOnceTrigger → AuthError
refresh_outcome_unknown_error RefreshRetryOnceTrigger.network =
    failure RefreshReason.revoked
      (codes
        "No response arrived from the token endpoint and a retry did not settle the refresh; sign in again")
      none none none none
refresh_outcome_unknown_error (RefreshRetryOnceTrigger.status s) =
    failure RefreshReason.revoked
      (codes "The token endpoint answered HTTP "
        ++ decimal s
        ++ codes " and a retry did not settle the refresh; sign in again")
      none (some s) none none

-- `delta > 0 ? delta : 0`, for `asDate - now`
abbrev until : ℤ → ℕ → ℕ
until (pos at) now = at - now
until (negsuc n) now = 0

-- `/^\d+$/.test(value)`
abbrev is_decimal : Text → Bool
is_decimal s = not (is_empty s) && all is_digit s

-- `parseRetryAfterMs`; `date_parse` is `Date.parse`, whose NaN is `none`. Whole numbers are exact here.
unfoldable pub parse_retry_after_ms : (Text → Option ℤ) → Option Text → ℕ → Option ℕ
parse_retry_after_ms date_parse none now = none
parse_retry_after_ms date_parse (some header) now =
    let value = trim header in
    if is_empty value
    then none
    else if is_decimal value
    then some (leading_number 0 value * 1000)
    else elim (date_parse value) [ none ↦ none | some at ↦ some (until at now) ]

-- A word character of a regular expression.
abbrev is_word : ℕ → Bool
is_word c = is_digit c || (leb 65 c && leb c 90) || (leb 97 c && leb c 122) || c == 95

-- The text up to the next quotation mark, if there is one.
up_to_quote : Text → Option Text
up_to_quote [] = none
up_to_quote (c ∷ s) =
    let rest = up_to_quote s in
    if c == 34 then some [] else elim rest [ none ↦ none | some t ↦ some (c ∷ t) ]

-- What `error="([^"]+)"` captures at this position.
captured : Text → Option Text
unfolding up_to_quote
captured s =
    if starts_with s (codes "error=\"")
    then elim (up_to_quote (drop 7 s)) [
      | none ↦ none
      | some [] ↦ none
      | some (c ∷ t) ↦ some (c ∷ t)
    ]
    else none

-- `/\berror="([^"]+)"/.exec(wwwAuth)?.[1]`; the first argument says whether a word character precedes.
unfoldable pub www_error : Bool → Text → Option Text
unfolding captured
www_error after_word [] = none
www_error after_word (c ∷ s) =
    let later = www_error (is_word c) s in
    if after_word then later else elim (captured (c ∷ s)) [ none ↦ later | some e ↦ some e ]

-- An answer over HTTP. `body` is the value of `response.json()`, `none` where that throws; `now` is the
-- time at which the answer is read.
pub record Response : Type 0 where
  pub status : ℕ
  pub body : Option Json
  pub www_authenticate : Text
  pub retry_after : Option Text
  pub dpop_nonce : Option Text
  pub now : ℕ

pub data Fetched : Type 0 where
  -- the exception's message
  failed : Text → Fetched
  answered : Response → Fetched

-- `OAuthTokenResponse`
pub record Tokens : Type 0 where
  pub access_token : Text
  pub expires_in : Number
  pub refresh_token : Option Text
  pub token_type : Option Text

-- The failures of `TokenExchangeResult`
pub record TokenFailure : Type 0 where
  pub error : AuthError
  pub dpop_nonce : Option Text
  pub dpop_proof_rejected : Bool

abbrev plain_failure : AuthError → TokenFailure
plain_failure e = record { error = e; dpop_nonce = none; dpop_proof_rejected = false }

-- `response.ok`
abbrev pub is_ok : ℕ → Bool
is_ok status = leb 200 status && leb status 299

-- `value ?? other` for a property and a capture
abbrev or_text : Option Json → Option Text → Option Json
or_text v other = if is_nullish v then elim other [ none ↦ none | some t ↦ some (str t) ] else v

abbrev nonempty : Option Text → Option Text
nonempty none = none
nonempty (some []) = none
nonempty (some (c ∷ s)) = some (c ∷ s)

abbrev pub as_retry_after : Option ℕ → Option Number
as_retry_after none = none
as_retry_after (some ms) = some (int (pos ms))

module _ (date_parse : Text → Option ℤ) where
  -- The branch `!response.ok`, with the parsed body; the property access on `null` throws.
  rejected : Response → Json → Result TokenFailure Tokens
  unfolding parse_token_endpoint_error parse_retry_after_ms www_error
  rejected r null = thrown
  rejected r parsed =
      let oauth_error =
        or_text (get "error" (fields_of parsed)) (www_error false r.www_authenticate) in
      if equals_text oauth_error (codes "use_dpop_nonce")
      then err (record {
        error = parse_token_endpoint_error r.status parsed refresh none;
        dpop_nonce = nonempty r.dpop_nonce;
        dpop_proof_rejected = false;
      })
      else if equals_text oauth_error (codes "invalid_dpop_proof")
      then err (record {
        error = parse_token_endpoint_error r.status parsed refresh none;
        dpop_nonce = none;
        dpop_proof_rejected = true;
      })
      else err (
          plain_failure (
            parse_token_endpoint_error r.status parsed refresh
              (as_retry_after (parse_retry_after_ms date_parse r.retry_after r.now))))

  -- The branch `response.ok`
  accepted : Response → Result TokenFailure Tokens
  accepted r = elim r.body [
    | none ↦ err (
        plain_failure
          (unreadable_refresh_response_error r.status (codes "token response not JSON")))
    | some parsed ↦ elim (as_text (get "access_token" (fields_of parsed))) [
      | none ↦ err (
          plain_failure
            (unreadable_refresh_response_error r.status (codes "malformed token response")))
      | some access_token ↦ elim (as_number (get "expires_in" (fields_of parsed))) [
        | none ↦ err (
            plain_failure
              (unreadable_refresh_response_error r.status (codes "malformed token response")))
        | some expires_in ↦ ok (record {
          access_token = access_token;
          expires_in = expires_in;
          refresh_token = as_text (get "refresh_token" (fields_of parsed));
          token_type = as_text (get "token_type" (fields_of parsed));
        })
      ]
    ]
  ]

  -- `refreshAccessToken` from the end of `fetch` on
  unfoldable pub refresh_access_token : Fetched → Result TokenFailure Tokens
  unfolding rejected accepted
  refresh_access_token (failed message) = err (plain_failure (transport_error message))
  refresh_access_token (answered r) =
      if is_ok r.status then accepted r else rejected r (get_or r.body (obj end))
