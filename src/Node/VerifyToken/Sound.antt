-- ===== src/Node/VerifyToken/Sound.antt =====
-- When a token is accepted.
use rakomi_js.Common.{ℕ, Bool, true, false, Option, none, some, ◌≡◌, ◌↔◌, ◌⊎◌, sym, arith}
use rakomi_js.Common.Text.{Text, text_eq, text_eq_iff, text_eq_refl}
use rakomi_js.Common.Json.{str, Fields, get, is_true, as_items}
use rakomi_js.Common.Results.{Result, ok, >>=-eq-ok}
use rakomi_js.Node.Errors.{DpopProofRejectionReason, SdkError}
use rakomi_js.Node.SigningAlgorithms.{is_allowed_signing_algorithm}
use rakomi_js.Node.JwksCache.{ResolvedKey}
use rakomi_js.Node.Dpop.{enforce_dpop_binding}
use rakomi_js.Node.TokenPayload.{TokenPayload, map_payload}
use rakomi_js.Node.VerifyToken.{
  JoseError, VerifyTokenCoreOptions, Services, guard, or_fail, is_access_token_typ, kid_of,
  check_header, matches_pin, required_claims, user_required_claims, has_claims, is_revoked,
  is_environment, accepted_by_dpop, verified, check_claims, verify_token_with_options,
}

pub guard-eq-ok : (b : Bool) (e : SdkError) (u : Unit {0}) → guard b e ≡ ok u → b ≡ true
guard-eq-ok b e u h = ground arith

pub or_fail-eq-ok :
    {A : Type 0} (o : Option A) (e : SdkError) (a : A) → or_fail o e ≡ ok a → o ≡ some a
or_fail-eq-ok o e a h = ground arith

-- What is checked of the header.
pub record IsHeader (options : VerifyTokenCoreOptions) (header : Fields) (alg : Text)
    (kid : Option Text) : Type 0 where
  pub alg_claim : get "alg" header ≡ some (str alg)
  pub alg_allowed : is_allowed_signing_algorithm alg ≡ true
  pub typ_checked :
      (options.require_access_token_typ ≡ false) ⊎ (is_access_token_typ (get "typ" header) ≡ true)
  pub kid_claim : kid_of (get "kid" header) ≡ some kid

pub check_header_iff :
    (options : VerifyTokenCoreOptions) (header : Fields) (alg : Text) (kid : Option Text)
    → (check_header options header ≡ ok (alg, kid)) ↔ IsHeader options header alg kid
unfolding check_header
check_header_iff options header alg kid = (λ h. ground arith, λ h. ground arith)

-- What is checked of the claims.
pub record AreClaims (options : VerifyTokenCoreOptions) (epoch : Option ℕ) (now : ℕ)
    (payload : Fields) : Type 0 where
  pub single_audience : as_items (get "aud" payload) ≡ none
  pub tenant_pinned : matches_pin options.required_tenant_id (get "tenant_id" payload) ≡ true
  pub client_pinned : matches_pin options.required_client_id (get "client_id" payload) ≡ true
  pub claims_there : has_claims required_claims payload ≡ true
  pub user_claims_there :
      (is_true (get "m2m" payload) ≡ true) ⊎ (has_claims user_required_claims payload ≡ true)
  pub not_revoked : is_revoked epoch now (get "iat" payload) ≡ false
  pub same_environment :
      is_environment options.sdk_environment options.strict_environment (get "rkm_env" payload)
      ≡ true

pub check_claims_iff :
    (options : VerifyTokenCoreOptions) (epoch : Option ℕ) (now : ℕ) (payload : Fields)
    → (check_claims options epoch now payload ≡ ok tt) ↔ AreClaims options epoch now payload
unfolding check_claims
check_claims_iff options epoch now payload = (λ h. ground arith, λ h. ground arith)

module _ (services : Services) (token : Text) (options : VerifyTokenCoreOptions) where
  open services use {platform, SigningKey, get_key, revocation_epoch, jwt_verify, iso_date}

  -- The verification of a token, with all that was checked of it.
  pub record IsVerified (result : TokenPayload) : Type 0 where
    pub header : Fields
    pub alg : Text
    pub kid : Option Text
    pub key : ResolvedKey SigningKey
    pub payload : Fields
    pub decoded : platform.decode_protected_header token ≡ some header
    pub is_header : IsHeader options header alg kid
    pub key_found : get_key kid ≡ ok key
    pub key_alg : key.alg ≡ alg
    pub signed :
        jwt_verify token key.key key.alg options.issuer options.audience options.clock_tolerance
        ≡ ok payload
    pub are_claims : AreClaims options revocation_epoch platform.now_seconds payload
    pub possession : enforce_dpop_binding platform token payload options.dpop ≡ none
    pub mapped : map_payload iso_date payload platform.now_seconds ≡ some result

  verified-eq-ok : (r : Result JoseError Fields) (p : Fields) → verified r ≡ ok p → r ≡ ok p
  verified-eq-ok r p h = ground arith

  accepted-eq-none :
      (r : Option DpopProofRejectionReason) (u : Unit {0}) → accepted_by_dpop r ≡ ok u → r ≡ none
  accepted-eq-none r u h = ground arith

  verify_sound :
      (result : TokenPayload)
      → verify_token_with_options services token options ≡ ok result
      → IsVerified result
  unfolding verify_token_with_options
  verify_sound result h =
      let (header, decoded, h1) =
        >>=-eq-ok (or_fail (platform.decode_protected_header token) _) _ h in
      let (named, checked, h2) = >>=-eq-ok (check_header options header) _ h1 in
      let (key, found, h3) = >>=-eq-ok (get_key named.1) _ h2 in
      let (u3, alg_ok, h4) = >>=-eq-ok (guard (text_eq named.0 key.alg) _) _ h3 in
      let (payload, signed, h5) =
        >>=-eq-ok
          (verified (
            jwt_verify token key.key key.alg options.issuer options.audience
              options.clock_tolerance))
          _ h4 in
      let (u5, claims, h6) =
        >>=-eq-ok (check_claims options revocation_epoch platform.now_seconds payload) _ h5 in
      let (u6, dpop, h7) =
        >>=-eq-ok (accepted_by_dpop (enforce_dpop_binding platform token payload options.dpop)) _
          h6 in
      record {
        header = header;
        alg = named.0;
        kid = named.1;
        key = key;
        payload = payload;
        decoded = or_fail-eq-ok _ _ header decoded;
        is_header = (check_header_iff options header named.0 named.1).0 checked;
        key_found = found;
        key_alg = sym ((text_eq_iff named.0 key.alg).0 (guard-eq-ok _ _ u3 alg_ok));
        signed = verified-eq-ok _ payload signed;
        are_claims = (check_claims_iff options revocation_epoch _ payload).0 claims;
        possession = accepted-eq-none _ u6 dpop;
        mapped = or_fail-eq-ok _ _ result h7;
      }

  verify_complete :
      (result : TokenPayload)
      → IsVerified result
      → verify_token_with_options services token options ≡ ok result
  unfolding verify_token_with_options
  verify_complete result v = rw (
    v.decoded,
    (check_header_iff options v.header v.alg v.kid).1 v.is_header,
    v.key_found,
    v.key_alg,
    text_eq_refl v.alg,
    ← v.key_alg,
    v.signed,
    (check_claims_iff options revocation_epoch _ v.payload).1 v.are_claims,
    v.possession,
    v.mapped,
  )

  -- A token is accepted, with a payload, exactly if its header names an allowed algorithm, a key id
  -- and, where that is required, the type of an access token; the cache has a key under that id, for
  -- the same algorithm; jose verifies the token with that key, that algorithm and the expected issuer
  -- and audience; its claims pass every check (one audience, the pinned tenant and client, all
  -- required claims, not issued before the revocation epoch, the right environment); its proof of
  -- possession is in order; and the payload is the mapping of the verified claims.
  pub verify_token_iff :
      (result : TokenPayload)
      → (verify_token_with_options services token options ≡ ok result) ↔ IsVerified result
  verify_token_iff result = (verify_sound result, verify_complete result)
