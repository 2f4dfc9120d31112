-- ===== src/Node/VerifyToken.antt =====
-- `verifyTokenWithOptions` and `mapJoseError` of packages/sdk/src/verify-token.ts: the checks that
-- an access token passes, in the source's order.
pub mod Sound
use Prim.Native.String.{String}
use text.Mathlib.Text.{◌==◌ as str_eq}
use rakomi_js.Common.{
  ℕ, ◌+◌, Bool, true, false, not, ◌&&◌, ◌||◌, Option, none, some, List, [], ◌∷◌, ltb, leb, ◌==◌,
  if◌then◌else◌, all, is_some,
}
use rakomi_js.Common.Int.{pos}
use rakomi_js.Common.Number.{Number, int, num_lt}
use rakomi_js.Common.Text.{Text, codes, text_eq, to_lower, is_empty}
use rakomi_js.Common.Json.{
  Json, null, num, str, arr, Fields, get, is_nullish, is_true, is_truthy, as_text, as_items,
  equals_text,
}
use rakomi_js.Common.Results.{Result, ok, err, thrown, ◌>>=◌}
use rakomi_js.Node.Errors.{
  DpopProofRejectionReason, SdkError, token_revoked, token_expired, token_invalid_signature,
  token_malformed, token_invalid_algorithm, token_missing_claims, token_invalid_issuer,
  token_invalid_audience, token_not_yet_valid, token_tenant_mismatch, token_client_mismatch,
  auth_environment_mismatch, token_invalid_dpop_proof,
}
use rakomi_js.Node.SigningAlgorithms.{is_allowed_signing_algorithm, allowed_alg}
use rakomi_js.Node.JwksCache.{ResolvedKey}
use rakomi_js.Node.Dpop
use rakomi_js.Node.Dpop.{DpopVerifyOptions, enforce_dpop_binding}
use rakomi_js.Node.TokenPayload.{TokenPayload, map_payload}

-- The exceptions of `jwtVerify`, as `mapJoseError` tells them apart.
pub data JoseError : Type 0 where
  jwt_expired jws_signature_verification_failed : JoseError
  -- the claim that failed
  jwt_claim_validation_failed : String → JoseError
  other : JoseError

unfoldable pub map_jose_error : JoseError → SdkError
map_jose_error jwt_expired = token_expired
map_jose_error jws_signature_verification_failed = token_invalid_signature
map_jose_error (jwt_claim_validation_failed claim) =
    if str_eq claim "iss"
    then token_invalid_issuer
    else if str_eq claim "aud"
    then token_invalid_audience
    else if str_eq claim "nbf"
    then token_not_yet_valid
    else token_missing_claims
map_jose_error other = token_malformed

pub data TokenEnvironment : Type 0 where
  live test : TokenEnvironment

pub record VerifyTokenCoreOptions : Type 0 where
  pub issuer : Text
  pub audience : Text
  pub clock_tolerance : ℕ
  pub sdk_environment : Option TokenEnvironment
  pub strict_environment : Bool
  pub require_access_token_typ : Bool
  pub required_tenant_id : Option Text
  pub required_client_id : Option Text
  pub dpop : Option DpopVerifyOptions

-- What jose and the platform bring to the verification. `jwt_verify` takes the token, the key, the
-- one allowed algorithm, the issuer, the audience and the tolerance; the age limit of 3660 seconds is
-- fixed. The cache's methods enter through their results.
pub record Services : Type 1 where
  pub platform : Dpop.Platform
  pub SigningKey : Type 0
  pub get_key : Option Text → Result SdkError (ResolvedKey SigningKey)
  pub revocation_epoch : Option ℕ
  pub jwt_verify : Text → SigningKey → Text → Text → Text → ℕ → Result JoseError Fields
  pub iso_date : Number → Option Text

-- `if (!condition) return { ok: false, error }`
abbrev pub guard : Bool → SdkError → Result SdkError (Unit {0})
guard true e = ok tt
guard false e = err e

infixl 5 ◌>>◌
abbrev pub ◌>>◌ {ℓ} :
    {B : Type ℓ} → Result SdkError (Unit {0}) → Result SdkError B → Result SdkError B
m >> k = m >>= λ _. k

abbrev pub or_fail : {A : Type 0} → Option A → SdkError → Result SdkError A
or_fail none e = err e
or_fail (some a) e = ok a

-- `typ` of the header, in lower case, or the empty string
abbrev pub typ_of : Option Json → Text
typ_of (some (str typ)) = to_lower typ
typ_of _ = []

unfoldable pub is_access_token_typ : Option Json → Bool
is_access_token_typ v =
    text_eq (typ_of v) (codes "at+jwt") || text_eq (typ_of v) (codes "application/at+jwt")

-- The key id of the header: `none` when it is falsy, and `some none` for a value that is no string,
-- which is the id of no key.
abbrev pub kid_of : Option Json → Option (Option Text)
kid_of (some (str kid)) = if is_empty kid then none else some (some kid)
kid_of v = if is_truthy v then some none else none

-- The checks of the header; the result is its algorithm and key id.
unfoldable pub check_header : VerifyTokenCoreOptions → Fields → Result SdkError (Text × Option Text)
check_header options header = do
  alg ← or_fail (allowed_alg (get "alg" header)) token_invalid_algorithm
  guard (not options.require_access_token_typ || is_access_token_typ (get "typ" header))
      token_malformed
  kid ← or_fail (kid_of (get "kid" header)) token_malformed
  ok (alg, kid)

-- `required === undefined || claim === required`
abbrev pub matches_pin : Option Text → Option Json → Bool
matches_pin none claim = true
matches_pin (some required) claim = equals_text claim required

abbrev pub required_claims : List String
required_claims = "sub" ∷ "tenant_id" ∷ "iss" ∷ "aud" ∷ "exp" ∷ "iat" ∷ "jti" ∷ []

abbrev pub user_required_claims : List String
user_required_claims = "email" ∷ "sid" ∷ []

-- No claim of the list is absent or null.
unfoldable pub has_claims : List String → Fields → Bool
has_claims [] payload = true
has_claims (c ∷ cs) payload = not (is_nullish (get c payload)) && has_claims cs payload

-- `payload.iat < epoch`; jose has made sure that `iat` is a number
abbrev issued_before : Option Json → ℕ → Bool
issued_before none epoch = true
issued_before (some (num iat)) epoch = num_lt iat (int (pos epoch))
issued_before (some _) epoch = false

-- The epoch counts when it is positive and not in the future.
unfoldable pub is_revoked : Option ℕ → ℕ → Option Json → Bool
is_revoked none now iat = false
is_revoked (some epoch) now iat = ltb 0 epoch && leb epoch now && issued_before iat epoch

abbrev is_live : TokenEnvironment → Bool
is_live live = true
is_live test = false

abbrev same : Bool → Bool → Bool
same true b = b
same false b = not b

-- A token of the other environment, or in strict mode one that names no environment, is refused.
unfoldable pub is_environment : Option TokenEnvironment → Bool → Option Json → Bool
is_environment none strict claim = true
is_environment (some environment) strict claim =
    if is_truthy claim
    then same (is_live environment) (equals_text claim (codes "live"))
    else not strict

abbrev accepted_by_dpop : Option DpopProofRejectionReason → Result SdkError (Unit {0})
accepted_by_dpop none = ok tt
accepted_by_dpop (some reason) = err (token_invalid_dpop_proof reason)

-- The result of `jwtVerify`, with its exception mapped.
abbrev verified : Result JoseError Fields → Result SdkError Fields
verified (ok payload) = ok payload
verified (err e) = err (map_jose_error e)
verified thrown = err token_malformed

-- The checks of the verified claims, up to the mapping.
unfoldable pub check_claims :
    VerifyTokenCoreOptions → Option ℕ → ℕ → Fields → Result SdkError (Unit {0})
check_claims options epoch now payload = do
  guard (not (is_some (as_items (get "aud" payload)))) token_invalid_audience
  guard (matches_pin options.required_tenant_id (get "tenant_id" payload)) token_tenant_mismatch
  guard (matches_pin options.required_client_id (get "client_id" payload)) token_client_mismatch
  guard (has_claims required_claims payload) token_missing_claims
  guard (is_true (get "m2m" payload) || has_claims user_required_claims payload)
      token_missing_claims
  guard (not (is_revoked epoch now (get "iat" payload))) token_revoked
  guard (is_environment options.sdk_environment options.strict_environment (get "rkm_env" payload))
      auth_environment_mismatch

-- `verifyTokenWithOptions`, with one reading of the clock. An exception of `get_key` is one of the whole verification; an exception
-- after it is reported as a malformed token.
module _ (services : Services) where
  unfoldable pub verify_token_with_options :
      Text → VerifyTokenCoreOptions → Result SdkError TokenPayload
  verify_token_with_options token options = do
    header ← or_fail (services.platform.decode_protected_header token) token_malformed
    (alg, kid) ← check_header options header
    resolved ← services.get_key kid
    guard (text_eq alg resolved.alg) token_invalid_algorithm
    payload ← verified (
        services.jwt_verify token resolved.key resolved.alg options.issuer options.audience
          options.clock_tolerance)
    check_claims options services.revocation_epoch services.platform.now_seconds payload
    accepted_by_dpop (enforce_dpop_binding services.platform token payload options.dpop)
    or_fail (map_payload services.iso_date payload services.platform.now_seconds) token_malformed
