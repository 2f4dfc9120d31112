-- ===== src/Node/ResourceServer.antt =====
-- `verifyRakomiToken` of packages/sdk/src/resource-server.ts: the verification of an access token by a resource
-- server of its own. Its `isHttpsUrl` and its limits of the tolerance are those of verify-logout-token.ts.
pub mod Pinned
use rakomi_js.Common.{Bool, true, false, not, ◌||◌, Option, none, some, is_some, get_or}
use rakomi_js.Common.Number.{Number}
use rakomi_js.Common.Text.{Text, codes, is_empty, trim}
use rakomi_js.Common.Results.{Result, ok, err, thrown, ◌>>=◌}
use rakomi_js.Node.Errors.{SdkError, config_invalid_url, config_invalid_option, config_missing_pin}
use rakomi_js.Node.Dpop.{DpopVerifyOptions}
use rakomi_js.Node.TokenPayload.{TokenPayload}
use rakomi_js.Node.VerifyToken.{
  VerifyTokenCoreOptions, Services, guard, ◌>>◌, verify_token_with_options,
}
use rakomi_js.Node.LogoutToken.{default_issuer, tolerance_of, is_https, is_https_option, caught}

abbrev pub platform_audience : Text
platform_audience = codes "https://api.rakomi.com"

-- `VerifyRakomiTokenOptions`; an option that is null counts as absent.
pub record VerifyRakomiTokenOptions : Type 0 where
  pub issuer : Option Text
  pub jwks_url : Option Text
  pub clock_tolerance : Option Number
  pub audience : Option Text
  pub required_tenant_id : Option Text
  pub required_client_id : Option Text
  pub dpop : Option DpopVerifyOptions

-- Not: given, but blank.
abbrev pub is_named : Option Text → Bool
is_named none = true
is_named (some t) = not (is_empty (trim t))

abbrev pub issuer_of : VerifyRakomiTokenOptions → Text
issuer_of o = get_or o.issuer default_issuer

-- What the verification is asked for.
abbrev pub core_options : VerifyRakomiTokenOptions → VerifyTokenCoreOptions
core_options o = record {
  issuer = issuer_of o;
  audience = get_or o.audience platform_audience;
  clock_tolerance = tolerance_of o.clock_tolerance;
  sdk_environment = none;
  strict_environment = false;
  require_access_token_typ = true;
  required_tenant_id = o.required_tenant_id;
  required_client_id = o.required_client_id;
  dpop = o.dpop;
}

-- `services_of` gives the services with the key cache of a key document's URL, if any, and an issuer.
module _ (url_protocol : Text → Option Text) (services_of : Option Text → Text → Services) where
  -- `verifyRakomiToken`
  unfoldable pub verify_rakomi_token :
      Text → VerifyRakomiTokenOptions → Result SdkError TokenPayload
  unfolding is_https tolerance_of verify_token_with_options
  verify_rakomi_token token o = do
    guard (is_https (url_protocol (issuer_of o))) config_invalid_url
    guard (is_https_option url_protocol o.jwks_url) config_invalid_url
    guard (is_named o.audience) config_invalid_option
    guard (is_named o.required_tenant_id) config_invalid_option
    guard (is_named o.required_client_id) config_invalid_option
    guard (is_some o.audience || is_some o.required_tenant_id) config_missing_pin
    caught (verify_token_with_options (services_of o.jwks_url (issuer_of o)) token (core_options o))
