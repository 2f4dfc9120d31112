-- ===== src/Node/LogoutToken.antt =====
-- packages/sdk/src/verify-logout-token.ts: the verification of a back-channel logout token.
pub mod Memo
pub mod Sound
use Prim.Native.String.{String}
use text.Mathlib.Text.{◌==◌ as str_eq}
use rakomi_js.Common.{
  ℕ, min, Bool, true, false, not, ◌&&◌, ◌||◌, Option, none, some, if◌then◌else◌, is_some, get_or,
  [],
}
use rakomi_js.Common.Int.{pos, negsuc}
use rakomi_js.Common.Number.{Number, int}
use rakomi_js.Common.Text.{Text, codes, text_eq, to_lower, is_empty, trim}
use rakomi_js.Common.Json.{Json, str, Fields, get, as_text, as_items, as_number, as_fields}
use rakomi_js.Common.Results.{Result, ok, err, thrown, ◌>>=◌}
use rakomi_js.Node.Errors.{
  SdkError, token_expired, token_invalid_signature, token_malformed, token_invalid_algorithm,
  token_invalid_issuer, token_invalid_audience, token_not_yet_valid, logout_token_missing_claims,
  logout_token_missing_subject, logout_token_invalid_events, logout_token_nonce_present,
  logout_token_session_mismatch,
}
use rakomi_js.Node.SigningAlgorithms.{allowed_alg}
use rakomi_js.Node.JwksCache.{ResolvedKey}
use rakomi_js.Node.VerifyToken.{
  JoseError, jwt_expired, jws_signature_verification_failed, jwt_claim_validation_failed, other,
  guard, or_fail, typ_of, kid_of, ◌>>◌,
}

abbrev pub default_issuer : Text
default_issuer = codes "https://api.rakomi.com"

abbrev pub default_clock_tolerance : ℕ
default_clock_tolerance = 30

abbrev pub max_clock_tolerance : ℕ
max_clock_tolerance = 120

-- `mapLogoutTokenJoseError`
unfoldable pub map_logout_token_jose_error : JoseError → SdkError
map_logout_token_jose_error jwt_expired = token_expired
map_logout_token_jose_error jws_signature_verification_failed = token_invalid_signature
map_logout_token_jose_error (jwt_claim_validation_failed claim) =
    if str_eq claim "iss"
    then token_invalid_issuer
    else if str_eq claim "aud"
    then token_invalid_audience
    else if str_eq claim "nbf"
    then token_not_yet_valid
    else logout_token_missing_claims
map_logout_token_jose_error other = token_malformed

-- `VerifyLogoutTokenOptions`
pub record VerifyLogoutTokenOptions : Type 0 where
  pub issuer : Option Text
  pub jwks_url : Option Text
  pub audience : Text
  pub clock_tolerance : Option Number
  pub expected_sid : Option Text
  pub expected_sub : Option Text

-- `LogoutTokenPayload`
pub record LogoutTokenPayload : Type 0 where
  pub iss : Option Json
  pub aud : Text
  pub iat : Number
  pub exp : Number
  pub jti : Text
  pub events : Fields
  pub sub : Option Text
  pub sid : Option Text

-- What jose and the platform bring. `url_protocol` is `new URL(value).protocol`, with the exception
-- `none`; `get_key` asks the key cache of the given address or issuer; `jwt_verify` takes the token, the
-- key, the one allowed algorithm, the issuer, the audience and the tolerance, and the age limit of
-- 300 seconds is fixed.
pub record Services : Type 1 where
  pub SigningKey : Type 0
  pub url_protocol : Text → Option Text
  pub decode_protected_header : Text → Option Fields
  pub get_key : Option Text → Text → Option Text → Result SdkError (ResolvedKey SigningKey)
  pub jwt_verify : Text → SigningKey → Text → Text → Text → ℕ → Result JoseError Fields

-- The tolerance within its limits: the default where it is no finite number.
unfoldable pub tolerance_of : Option Number → ℕ
tolerance_of (some (int (pos n))) = min n max_clock_tolerance
tolerance_of (some (int (negsuc n))) = 0
tolerance_of _ = default_clock_tolerance

-- `isHttpsUrl`, with the parser's protocol
unfoldable pub is_https : Option Text → Bool
is_https none = false
is_https (some protocol) = text_eq protocol (codes "https:")

abbrev pub is_https_option : (Text → Option Text) → Option Text → Bool
is_https_option url_protocol none = true
is_https_option url_protocol (some url) = is_https (url_protocol url)

-- The checks of the header; the result is its algorithm and key id.
unfoldable pub check_header : Fields → Result SdkError (Text × Option Text)
check_header header = do
  alg ← or_fail (allowed_alg (get "alg" header)) token_invalid_algorithm
  guard (text_eq (typ_of (get "typ" header)) (codes "logout+jwt")) token_malformed
  kid ← or_fail (kid_of (get "kid" header)) token_malformed
  ok (alg, kid)

-- The object of `events`, where it has the member for a back-channel logout.
unfoldable pub logout_events : Option Json → Option Fields
logout_events events = elim (as_fields events) [
  | none ↦ none
  | some fs ↦
      if is_some (get "http://schemas.openid.net/event/backchannel-logout" fs)
      then some fs
      else none
]

-- `typeof jti === 'string' && jti.length > 0`
abbrev pub token_id : Option Json → Option Text
token_id v = elim (as_text v) [ none ↦ none | some s ↦ if is_empty s then none else some s ]

-- `expected === undefined || expected === found`
abbrev pub agrees : Option Text → Option Text → Bool
agrees none found = true
agrees (some expected) none = false
agrees (some expected) (some found) = text_eq expected found

-- From the verified claims to the result.
unfoldable pub check_claims : VerifyLogoutTokenOptions → Fields → Result SdkError LogoutTokenPayload
check_claims options payload = do
  guard (not (is_some (as_items (get "aud" payload)))) token_invalid_audience
  guard (not (is_some (get "nonce" payload))) logout_token_nonce_present
  events ← or_fail (logout_events (get "events" payload)) logout_token_invalid_events
  guard (is_some (as_text (get "sub" payload)) || is_some (as_text (get "sid" payload)))
      logout_token_missing_subject
  jti ← or_fail (token_id (get "jti" payload)) logout_token_missing_claims
  iat ← or_fail (as_number (get "iat" payload)) logout_token_missing_claims
  exp ← or_fail (as_number (get "exp" payload)) logout_token_missing_claims
  guard (agrees options.expected_sid (as_text (get "sid" payload))) logout_token_session_mismatch
  guard (agrees options.expected_sub (as_text (get "sub" payload))) logout_token_session_mismatch
  ok (record {
    iss = get "iss" payload;
    aud = options.audience;
    iat = iat;
    exp = exp;
    jti = jti;
    events = events;
    sub = as_text (get "sub" payload);
    sid = as_text (get "sid" payload);
  })

-- The `catch` of the whole verification, for an exception that is not jose's.
abbrev pub caught {ℓ} : {A : Type ℓ} → Result SdkError A → Result SdkError A
caught thrown = err token_malformed
caught r = r

-- The result of `jwtVerify`, with its exception mapped.
abbrev pub verified : Result JoseError Fields → Result SdkError Fields
verified (ok payload) = ok payload
verified (err e) = err (map_logout_token_jose_error e)
verified thrown = err token_malformed

module _ (services : Services) where
  open services use {SigningKey, url_protocol, decode_protected_header, get_key, jwt_verify}

  -- `verifyLogoutToken`
  unfoldable pub verify_logout_token :
      Text → VerifyLogoutTokenOptions → Result SdkError LogoutTokenPayload
  unfolding tolerance_of is_https check_header check_claims
  verify_logout_token token options = do
    guard (is_https (url_protocol (get_or options.issuer default_issuer))) token_invalid_issuer
    guard (is_https_option url_protocol options.jwks_url) token_malformed
    guard (not (is_empty (trim options.audience))) logout_token_missing_claims
    header ← or_fail (decode_protected_header token) token_malformed
    (alg, kid) ← check_header header
    resolved ← caught (get_key options.jwks_url (get_or options.issuer default_issuer) kid)
    guard (text_eq alg resolved.alg) token_invalid_algorithm
    payload ← verified (
        jwt_verify token resolved.key resolved.alg (get_or options.issuer default_issuer)
          options.audience (tolerance_of options.clock_tolerance))
    check_claims options payload
