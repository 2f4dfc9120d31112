-- ===== src/Tests/Tokens.antt =====
-- The verification of a bound access token, with concrete services.
use rakomi_js.Common.{true, false, none, some, [], ◌≡◌, ◌↔◌, refl, if◌then◌else◌}
use rakomi_js.Common.Int.{pos}
use rakomi_js.Common.Number.{int}
use rakomi_js.Common.Text.{Text, codes, text_eq, trim, is_space, includes, to_lower}
use rakomi_js.Common.Json.{Json, num, str, obj, Fields, field, end, get}
use rakomi_js.Common.Results.{ok}
use rakomi_js.Node.Errors.{proof_required}
use rakomi_js.Node.SigningAlgorithms.{is_allowed_signing_algorithm}
use rakomi_js.Node.ClaimGuards.{
  guard_acr, guard_org_id_or_role, guard_org_memberships, guard_public_metadata, guard_string_array,
  guard_subscription,
}
use rakomi_js.Node.CanonicalUrl.Paths.{collapse_path_twice}
use rakomi_js.Node.CanonicalUrl.{canonicalize_url, collapse_path, lowercase_percent_hex}
use rakomi_js.Node.Dpop.{
  Platform, DpopVerifyOptions, one, safe_equal, confirmation_jkt, check_proof, single_proof,
  check_header, check_jwk, allowed_members, only_members, has_members, is_paired, check_claims,
  check_replay, in_iat_window, is_jti_shape, enforce_dpop_binding,
}
use rakomi_js.Node.Dpop.Equal.{safe_equal_iff}
use rakomi_js.Node.Dpop.Sound.{IsBoundBy, enforce_sound}
use rakomi_js.Node.TokenPayload.{TokenPayload, map_payload, agent_of, payload_scopes}
use rakomi_js.Node.VerifyToken
use rakomi_js.Node.VerifyToken.{VerifyTokenCoreOptions, Services, verify_token_with_options}
use rakomi_js.Node.VerifyToken.Sound.{IsVerified, verify_token_iff}

abbrev public_key : Fields
public_key = field "kty" (str (codes "EC")) (
    field "crv" (str (codes "P-256"))
      (field "x" (str (codes "xx")) (field "y" (str (codes "yy")) end)))

abbrev pub proof_header : Fields
proof_header =
    field "typ" (str (codes "dpop+jwt"))
      (field "alg" (str (codes "ES256")) (field "jwk" (obj public_key) end))

abbrev proof_claims : Fields
proof_claims = field "htm" (str (codes "GET")) (
    field "htu" (str (codes "https://api.test/items")) (
      field "iat" (num (int (pos 1000))) (
        field "jti" (str (codes "abcdefghijklmnopqrstuvwx"))
          (field "ath" (str (codes "hash")) end))))

abbrev pub token_header : Fields
token_header = field "alg" (str (codes "ES256")) (field "kid" (str (codes "k1")) end)

abbrev claims : Fields
claims = field "sub" (str (codes "u1")) (
    field "tenant_id" (str (codes "t1")) (
      field "iss" (str (codes "https://issuer")) (
        field "aud" (str (codes "app")) (
          field "exp" (num (int (pos 4600))) (
            field "iat" (num (int (pos 990))) (
              field "jti" (str (codes "j1")) (
                field "m2m" (Json.bool true)
                  (field "cnf" (obj (field "jkt" (str (codes "thumb")) end)) end))))))))

abbrev pub platform : Platform
platform = record {
  Key = Fields;
  decode_protected_header =
      λ t. if text_eq t (codes "token") then some token_header else some proof_header;
  import_jwk = λ jwk alg. some jwk;
  jwt_verify = λ proof key alg. if text_eq proof (codes "proof") then some proof_claims else none;
  sha256_base64url = λ t. codes "hash";
  calculate_jwk_thumbprint = λ jwk. some (codes "thumb");
  parse_url = λ t. some (record {
    protocol = codes "https:";
    hostname = codes "api.test";
    port = [];
    pathname = codes "/items";
  });
  now_seconds = 1010;
}

abbrev pub request : DpopVerifyOptions
request = record {
  proof = one (codes " proof ");
  method = codes "GET";
  url = codes "https://api.test/items?page=2";
  on_jti = some (λ jti jkt iat expires_at. some true);
}

abbrev options : VerifyTokenCoreOptions
options = record {
  issuer = codes "https://issuer";
  audience = codes "app";
  clock_tolerance = 5;
  sdk_environment = none;
  strict_environment = false;
  require_access_token_typ = false;
  required_tenant_id = some (codes "t1");
  required_client_id = none;
  dpop = some request;
}

abbrev pub services : Services
services = record {
  platform = platform;
  SigningKey = Text;
  get_key = λ kid. ok (record { key = codes "key"; alg = codes "ES256" });
  revocation_epoch = some 900;
  jwt_verify = λ t key alg issuer audience tolerance. ok claims;
  iso_date = λ seconds. some (codes "2026-01-01T00:00:00.000Z");
}

safe_equal_iff_run :
    (safe_equal (codes "hash") (codes "hush") ≡ true) ↔ (codes "hash" ≡ codes "hush")
safe_equal_iff_run = safe_equal_iff (codes "hash") (codes "hush")

proof_accepted : enforce_dpop_binding platform (codes "token") claims (some request) ≡ none
unfolding enforce_dpop_binding get confirmation_jkt codes check_proof single_proof trim is_space
    canonicalize_url text_eq check_header includes check_jwk allowed_members only_members
    has_members is_paired check_claims to_lower check_replay collapse_path in_iat_window
    is_jti_shape lowercase_percent_hex safe_equal
proof_accepted = refl

enforce_sound_example : IsBoundBy platform (codes "token") (get "cnf" claims) (some request)
unfolding get
enforce_sound_example =
    enforce_sound platform (codes "token") claims (some request) refl proof_accepted

-- What the claims above map to.
abbrev pub machine_payload : TokenPayload
machine_payload = record {
  user_id = some (str (codes "u1"));
  email = none;
  tenant_id = some (str (codes "t1"));
  session_id = none;
  iss = some (str (codes "https://issuer"));
  aud = some (str (codes "app"));
  exp = some (num (int (pos 4600)));
  iat = some (num (int (pos 990)));
  jti = some (str (codes "j1"));
  mfa_verified = none;
  mfa_verified_at = none;
  amr = none;
  acr = none;
  auth_time = none;
  roles = [];
  permissions = [];
  environment = none;
  public_metadata = none;
  is_minor = none;
  subscription = none;
  org_id = none;
  org_role = none;
  org_memberships = none;
  is_m2m = true;
  client_id = none;
  scopes = none;
  agent = none;
  session = none;
  token = none;
}

token_accepted : verify_token_with_options services (codes "token") options ≡ ok machine_payload
unfolding verify_token_with_options enforce_dpop_binding get confirmation_jkt codes check_proof
    single_proof trim is_space canonicalize_url text_eq check_header includes check_jwk
    allowed_members only_members has_members is_paired check_claims to_lower check_replay
    collapse_path in_iat_window is_jti_shape lowercase_percent_hex safe_equal
    is_allowed_signing_algorithm VerifyToken.check_header VerifyToken.check_claims
    VerifyToken.has_claims VerifyToken.is_revoked VerifyToken.is_environment map_payload guard_acr
    guard_org_id_or_role guard_org_memberships guard_public_metadata guard_string_array
    guard_subscription agent_of payload_scopes
token_accepted = refl

verify_token_iff_example : IsVerified services (codes "token") options machine_payload
verify_token_iff_example =
    (verify_token_iff services (codes "token") options machine_payload).0 token_accepted

missing_proof_refused :
    enforce_dpop_binding platform (codes "token") claims none ≡ some proof_required
unfolding enforce_dpop_binding confirmation_jkt get codes
missing_proof_refused = refl

collapse_path_twice_run :
    collapse_path (collapse_path (codes "//a///b/")) ≡ collapse_path (codes "//a///b/")
collapse_path_twice_run = collapse_path_twice (codes "//a///b/")
