-- ===== src/Node/Issuer.antt =====
-- packages/sdk/src/internal/issuer.ts, with `deriveDefaultIssuer` and `verifyToken` of verify-token.ts: the issuer
-- that a client expects, and its verification of an access token.
use rakomi_js.Common.{ℕ, Bool, true, false, ◌||◌, Option, none, some, [], ◌∷◌, ◌==◌, if◌then◌else◌}
use rakomi_js.Common.Text.{Text, codes, text_eq, to_lower, is_empty}
use rakomi_js.Common.Results.{Result}
use rakomi_js.Node.Errors.{SdkError}
use rakomi_js.Node.Dpop.{DpopVerifyOptions}
use rakomi_js.Node.TokenPayload.{TokenPayload}
use rakomi_js.Node.VerifyToken.{TokenEnvironment, Services, verify_token_with_options}

abbrev pub rakomi_platform_issuer : Text
rakomi_platform_issuer = codes "https://api.rakomi.com"

-- `stripTrailingSlash`
unfoldable pub strip_trailing_slash : Text → Text
strip_trailing_slash [] = []
strip_trailing_slash (c ∷ []) = if c == b'/' then [] else c ∷ []
strip_trailing_slash (c ∷ d ∷ s) = c ∷ strip_trailing_slash (d ∷ s)

-- `value.endsWith(suffix)`
unfoldable pub ends_with : Text → Text → Bool
ends_with [] suffix = is_empty suffix
ends_with (c ∷ s) suffix =
    let later = ends_with s suffix in if text_eq (c ∷ s) suffix then true else later

-- `isPlatformHost`
unfoldable pub is_platform_host : Text → Bool
unfolding ends_with
is_platform_host hostname =
    let lower = to_lower hostname in
    text_eq lower (codes "localhost")
    || text_eq lower (codes "127.0.0.1")
    || text_eq lower (codes "[::1]")
    || text_eq lower (codes "rakomi.com")
    || ends_with lower (codes ".rakomi.com")

-- `hostname` is that of the parsed URL, if it can be parsed.
module _ (hostname : Text → Option Text) where
  -- `resolveExpectedIssuer`
  unfoldable pub resolve_expected_issuer : Text → Text
  unfolding strip_trailing_slash is_platform_host
  resolve_expected_issuer base_url = elim (hostname base_url) [
    | none ↦ strip_trailing_slash base_url
    | some host ↦
        if is_platform_host host then rakomi_platform_issuer else strip_trailing_slash base_url
  ]

  -- `discoveryOriginFor`
  unfoldable pub discovery_origin_for : Text → Option Text → Option Text
  unfolding is_platform_host
  discovery_origin_for issuer none = none
  discovery_origin_for issuer (some base_url) = elim (hostname issuer) [
    | none ↦ none
    | some host ↦ elim (hostname base_url) [
      | none ↦ none
      | some base ↦ if is_platform_host host then some base_url else none
    ]
  ]

  -- `deriveDefaultIssuer`
  unfoldable pub derive_default_issuer : Option Text → Text
  unfolding resolve_expected_issuer
  derive_default_issuer none = rakomi_platform_issuer
  derive_default_issuer (some base_url) =
      if is_empty base_url then rakomi_platform_issuer else elim (hostname base_url) [
        | none ↦ rakomi_platform_issuer
        | some host ↦ resolve_expected_issuer base_url
      ]

  -- `verifyToken`
  unfoldable pub verify_token :
      Services
      → Text
      → ℕ
      → Option TokenEnvironment
      → Option Text
      → Option DpopVerifyOptions
      → Option Text
      → Bool
      → Result SdkError TokenPayload
  unfolding derive_default_issuer verify_token_with_options
  verify_token services token clock_tolerance sdk_environment base_url dpop issuer
        strict_environment =
      verify_token_with_options services token (record {
        issuer = elim issuer [ some given ↦ given | none ↦ derive_default_issuer base_url ];
        audience = rakomi_platform_issuer;
        clock_tolerance = clock_tolerance;
        sdk_environment = sdk_environment;
        strict_environment = strict_environment;
        require_access_token_typ = false;
        required_tenant_id = none;
        required_client_id = none;
        dpop = dpop;
      })
