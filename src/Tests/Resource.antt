-- ===== src/Tests/Resource.antt =====
-- A resource server and the expected issuer of packages/sdk/src, with concrete services.
use rakomi_js.Common.{◌++◌, true, false, Option, none, some, ◌≡◌, refl, if◌then◌else◌}
use rakomi_js.Common.Text.{split, Text, codes, text_eq, trim, is_space, includes, to_lower}
use rakomi_js.Common.Json.{str, field, get}
use rakomi_js.Common.Results.{ok, err}
use rakomi_js.Node.Errors.{config_missing_pin}
use rakomi_js.Node.SigningAlgorithms.{is_allowed_signing_algorithm}
use rakomi_js.Node.ClaimGuards.{
  guard_acr, guard_org_id_or_role, guard_org_memberships, guard_public_metadata, guard_string_array,
  guard_subscription,
}
use rakomi_js.Node.CanonicalUrl.{canonicalize_url, collapse_path, lowercase_percent_hex}
use rakomi_js.Node.Dpop
use rakomi_js.Node.Dpop.{
  safe_equal, confirmation_jkt, check_proof, single_proof, check_jwk, allowed_members, only_members,
  has_members, is_paired, check_replay, in_iat_window, is_jti_shape, enforce_dpop_binding,
}
use rakomi_js.Node.TokenPayload.{map_payload, agent_of, payload_scopes}
use rakomi_js.Node.VerifyToken
use rakomi_js.Node.VerifyToken.{Services, verify_token_with_options, is_access_token_typ}
use rakomi_js.Node.LogoutToken.{is_https, tolerance_of}
use rakomi_js.Node.ResourceServer.{VerifyRakomiTokenOptions, verify_rakomi_token}
use rakomi_js.Node.ResourceServer.Pinned.{IsPinned, resource_server_sound}
use rakomi_js.Node.Issuer.{
  is_platform_host, ends_with, strip_trailing_slash, resolve_expected_issuer,
}
use rakomi_js.Node.Challenge.{
  ChallengeOptions, invalid_token, build_challenge, write_challenge_param, has_control_characters,
  escape_quoted_string, is_valid_scope_list, joined,
}
use rakomi_js.Node.Challenge.Quoting.{read_quoted, param_reads_back, challenge_has_no_controls}
use rakomi_js.Tests.Tokens.{
  token_header, proof_header, platform, services, request, machine_payload,
}

abbrev resource_services : Services
resource_services = record services {
  platform = record platform {
    decode_protected_header = λ t.
        if text_eq t (codes "token")
        then some (field "typ" (str (codes "at+jwt")) token_header)
        else some proof_header;
  };
}

abbrev https : Text → Option Text
https url = some (codes "https:")

abbrev pin : VerifyRakomiTokenOptions
pin = record {
  issuer = none;
  jwks_url = none;
  clock_tolerance = none;
  audience = none;
  required_tenant_id = some (codes "t1");
  required_client_id = none;
  dpop = some request;
}

token_pinned :
    verify_rakomi_token https (λ url issuer. resource_services) (codes "token") pin
    ≡ ok machine_payload
unfolding verify_rakomi_token is_https tolerance_of verify_token_with_options enforce_dpop_binding
    get confirmation_jkt codes check_proof single_proof trim is_space canonicalize_url text_eq
    Dpop.check_header includes check_jwk allowed_members only_members has_members is_paired
    Dpop.check_claims to_lower check_replay collapse_path in_iat_window is_jti_shape
    lowercase_percent_hex safe_equal is_allowed_signing_algorithm VerifyToken.check_header
    VerifyToken.check_claims VerifyToken.has_claims VerifyToken.is_revoked
    VerifyToken.is_environment map_payload guard_acr guard_org_id_or_role guard_org_memberships
    guard_public_metadata guard_string_array guard_subscription agent_of payload_scopes
    is_access_token_typ
token_pinned = refl

resource_server_sound_example :
    IsPinned https (λ url issuer. resource_services) (codes "token") pin machine_payload
resource_server_sound_example =
    resource_server_sound https (λ url issuer. resource_services) (codes "token") pin
      machine_payload token_pinned

-- Without an audience and a tenant, no token is looked at.
unpinned_refused :
    verify_rakomi_token https
      (λ url issuer. resource_services)
      (codes "token")
      (record pin { required_tenant_id = none })
    ≡ err config_missing_pin
unfolding verify_rakomi_token is_https text_eq codes
unpinned_refused = refl

-- A name that only ends with the platform's is not the platform's; a subdomain is.
platform_hosts :
    (is_platform_host (codes "evilrakomi.com") ≡ false)
    × (is_platform_host (codes "EU.rakomi.com") ≡ true)
    × (is_platform_host (codes "rakomi.com.attacker.test") ≡ false)
unfolding is_platform_host ends_with text_eq codes to_lower
platform_hosts = (refl, refl, refl)

own_issuer :
    resolve_expected_issuer (λ url. some (codes "auth.shop.test")) (codes "https://auth.shop.test/")
    ≡ codes "https://auth.shop.test"
unfolding resolve_expected_issuer is_platform_host ends_with strip_trailing_slash text_eq codes
    to_lower
own_issuer = refl

abbrev challenge_options : ChallengeOptions
challenge_options = record {
  resource_metadata_url = codes "https://a.test/m";
  scope = some (codes "read write");
  error = some invalid_token;
}

abbrev challenge : Text
challenge =
    codes
      "Bearer error=\"invalid_token\", resource_metadata=\"https://a.test/m\", scope=\"read write\""

challenge_built : build_challenge https challenge_options ≡ some challenge
unfolding split build_challenge is_https is_valid_scope_list write_challenge_param joined text_eq
    codes has_control_characters escape_quoted_string
challenge_built = refl

challenge_has_no_controls_example : has_control_characters challenge ≡ false
challenge_has_no_controls_example =
    challenge_has_no_controls https challenge_options challenge challenge_built

quote_written :
    write_challenge_param (codes "scope") (codes "a\"b") ≡ some (codes "scope=\"a\\\"b\"")
unfolding write_challenge_param codes has_control_characters escape_quoted_string
quote_written = refl

param_reads_back_example :
    (quoted : Text) × (codes "scope=\"a\\\"b\"" ++ codes ", x"
      ≡ codes "scope" ++ (codes "=\"" ++ quoted))
    × (read_quoted false quoted ≡ some (codes "a\"b", codes ", x"))
param_reads_back_example =
    param_reads_back (codes "scope") (codes "a\"b") (codes "scope=\"a\\\"b\"") (codes ", x")
      quote_written
