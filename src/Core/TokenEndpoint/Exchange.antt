-- ===== src/Core/TokenEndpoint/Exchange.antt =====
-- `exchangeAuthCode` of packages/sdk-core/src/oauth/token-exchange.ts: what an answer of the token endpoint to an
-- authorization code means.
use rakomi_js.Common.{
  ℕ, false, Option, none, some, ◌≡◌, arith, if◌then◌else◌, get_or, Bool-cases, inl, inr,
}
use rakomi_js.Common.Text.{Text, codes}
use rakomi_js.Common.Json.{Json, null, obj, end, get, as_text, as_number}
use rakomi_js.Common.Results.{Result, ok, err, thrown}
use rakomi_js.Core.AuthError.{AuthError, code_exchange_failed}
use rakomi_js.Core.RefreshRetry.{is_settled_refresh_result}
use rakomi_js.Core.TokenEndpoint.{
  Fetched, failed, answered, Tokens, is_ok, fields_of, exchange, parse_token_endpoint_error,
}

abbrev pub unusable : Text → AuthError
unusable message = code_exchange_failed message none none none

-- The branch `!response.ok`, with the parsed body; the property access on `null` throws.
unfoldable pub refused : ℕ → Json → Result AuthError Tokens
unfolding parse_token_endpoint_error
refused status null = thrown
refused status body = err (parse_token_endpoint_error status body exchange none)

-- The branch `response.ok`; a property of `null` is an exception, which is caught.
unfoldable pub granted : Option Json → Result AuthError Tokens
granted none = err (unusable (codes "token response not JSON"))
granted (some null) = err (unusable (codes "token response not JSON"))
granted (some body) = elim (as_text (get "access_token" (fields_of body))) [
  | none ↦ err (unusable (codes "malformed token response"))
  | some access_token ↦ elim (as_number (get "expires_in" (fields_of body))) [
    | none ↦ err (unusable (codes "malformed token response"))
    | some expires_in ↦ ok (record {
      access_token = access_token;
      expires_in = expires_in;
      refresh_token = as_text (get "refresh_token" (fields_of body));
      token_type = as_text (get "token_type" (fields_of body));
    })
  ]
]

-- `exchangeAuthCode` from the end of `fetch` on
unfoldable pub exchange_auth_code : Fetched → Result AuthError Tokens
unfolding refused granted
exchange_auth_code (failed message) = err (unusable message)
exchange_auth_code (answered r) =
    if is_ok r.status then granted r.body else refused r.status (get_or r.body (obj end))

refused-error :
    (status : ℕ) (body : Json) (e : AuthError)
    → refused status body ≡ err e
    → is_settled_refresh_result (some e) ≡ false
unfolding refused parse_token_endpoint_error is_settled_refresh_result
refused-error status null e h = ground arith
refused-error status body e h = ground arith

granted-error :
    (body : Option Json) (e : AuthError)
    → granted body ≡ err e
    → is_settled_refresh_result (some e) ≡ false
unfolding granted is_settled_refresh_result
granted-error body e h = ground arith

-- No error of a code exchange is one that ends a session.
exchange_keeps_session :
    (a : Fetched) (e : AuthError)
    → exchange_auth_code a ≡ err e
    → is_settled_refresh_result (some e) ≡ false
unfolding exchange_auth_code is_settled_refresh_result
exchange_keeps_session (failed message) e h = ground arith
exchange_keeps_session (answered r) e h = elim (Bool-cases (is_ok r.status)) [
  | inl good ↦ granted-error r.body e ground arith
  | inr bad ↦ refused-error r.status (get_or r.body (obj end)) e ground arith
]
