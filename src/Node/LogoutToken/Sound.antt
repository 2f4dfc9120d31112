-- ===== src/Node/LogoutToken/Sound.antt =====
-- When a logout token is accepted.
use mathlib.Core.Path.{subst}
use rakomi_js.Common.{
  Bool, true, false, not, ◌||◌, Option, none, some, ◌≡◌, ◌≢◌, ◌↔◌, ◌⊎◌, refl, sym, arith, get_or,
  is_some,
}
use rakomi_js.Common.Number.{Number}
use rakomi_js.Common.Text.{Text, codes, text_eq, text_eq_iff, text_eq_refl, is_empty, trim}
use rakomi_js.Common.Json.{Json, str, num, Fields, get, as_text, as_items, as_number}
use rakomi_js.Common.Results.{Result, ok, err, thrown, >>=-eq-ok}
use rakomi_js.Node.Errors.{SdkError}
use rakomi_js.Node.SigningAlgorithms.{is_allowed_signing_algorithm}
use rakomi_js.Node.JwksCache.{ResolvedKey}
use rakomi_js.Node.VerifyToken.{JoseError, guard, or_fail, typ_of, kid_of}
use rakomi_js.Node.VerifyToken.Sound.{guard-eq-ok, or_fail-eq-ok}
use rakomi_js.Node.LogoutToken.{
  default_issuer, VerifyLogoutTokenOptions, LogoutTokenPayload, Services, tolerance_of, is_https,
  is_https_option, check_header, logout_events, token_id, agrees, check_claims, caught, verified,
  verify_logout_token,
}

-- What is checked of the header.
pub record IsHeader (header : Fields) (alg : Text) (kid : Option Text) : Type 0 where
  pub alg_claim : get "alg" header ≡ some (str alg)
  pub alg_allowed : is_allowed_signing_algorithm alg ≡ true
  pub typ : typ_of (get "typ" header) ≡ codes "logout+jwt"
  pub kid_claim : kid_of (get "kid" header) ≡ some kid

check_header_iff :
    (header : Fields) (alg : Text) (kid : Option Text)
    → (check_header header ≡ ok (alg, kid)) ↔ IsHeader header alg kid
unfolding check_header
check_header_iff header alg kid =
    let typ = text_eq_iff (typ_of (get "typ" header)) (codes "logout+jwt") in
    (λ h. ground (arith, typ), λ h. ground (arith, typ))

-- What is checked of the claims, and what the result takes from them.
pub record AreClaims (options : VerifyLogoutTokenOptions) (payload : Fields)
    (result : LogoutTokenPayload) : Type 0 where
  pub single_audience : as_items (get "aud" payload) ≡ none
  pub no_nonce : get "nonce" payload ≡ none
  pub is_logout : logout_events (get "events" payload) ≡ some result.events
  pub names_session : (result.sub ≢ none) ⊎ (result.sid ≢ none)
  pub jti_claim : token_id (get "jti" payload) ≡ some result.jti
  pub iat_claim : get "iat" payload ≡ some (num result.iat)
  pub exp_claim : get "exp" payload ≡ some (num result.exp)
  pub sid_expected : agrees options.expected_sid result.sid ≡ true
  pub sub_expected : agrees options.expected_sub result.sub ≡ true
  pub sub_claim : result.sub ≡ as_text (get "sub" payload)
  pub sid_claim : result.sid ≡ as_text (get "sid" payload)
  pub issuer_claim : result.iss ≡ get "iss" payload
  pub audience : result.aud ≡ options.audience

ok_injective :
    (a b : LogoutTokenPayload) → ◌≡◌ {A = Result SdkError LogoutTokenPayload} (ok a) (ok b) → a ≡ b
ok_injective a b h = cc

not_some {ℓ} : {A : Type ℓ} (o : Option A) → not (is_some o) ≡ true → o ≡ none
not_some o h = ground arith

as_number-some : (v : Option Json) (n : Number) → as_number v ≡ some n → v ≡ some (num n)
as_number-some v n h = ground arith

either_some : (a b : Option Text) → (is_some a || is_some b) ≡ true → (a ≢ none) ⊎ (b ≢ none)
either_some a b h = ground arith

check_claims_sound :
    (options : VerifyLogoutTokenOptions) (payload : Fields) (result : LogoutTokenPayload)
    → check_claims options payload ≡ ok result
    → AreClaims options payload result
unfolding check_claims
check_claims_sound options payload result h =
    let (u1, s1, h1) = >>=-eq-ok (guard (not (is_some (as_items (get "aud" payload)))) _) _ h in
    let (u2, s2, h2) = >>=-eq-ok (guard (not (is_some (get "nonce" payload))) _) _ h1 in
    let (events, s3, h3) = >>=-eq-ok (or_fail (logout_events (get "events" payload)) _) _ h2 in
    let (u4, s4, h4) =
      >>=-eq-ok
        (guard (is_some (as_text (get "sub" payload)) || is_some (as_text (get "sid" payload))) _) _
        h3 in
    let (jti, s5, h5) = >>=-eq-ok (or_fail (token_id (get "jti" payload)) _) _ h4 in
    let (iat, s6, h6) = >>=-eq-ok (or_fail (as_number (get "iat" payload)) _) _ h5 in
    let (exp, s7, h7) = >>=-eq-ok (or_fail (as_number (get "exp" payload)) _) _ h6 in
    let (u8, s8, h8) =
      >>=-eq-ok (guard (agrees options.expected_sid (as_text (get "sid" payload))) _) _ h7 in
    let (u9, s9, made) =
      >>=-eq-ok (guard (agrees options.expected_sub (as_text (get "sub" payload))) _) _ h8 in
    subst (AreClaims options payload) (ok_injective _ result made) (record {
      single_audience = not_some _ (guard-eq-ok _ _ u1 s1);
      no_nonce = not_some _ (guard-eq-ok _ _ u2 s2);
      is_logout = or_fail-eq-ok _ _ events s3;
      names_session = either_some _ _ (guard-eq-ok _ _ u4 s4);
      jti_claim = or_fail-eq-ok _ _ jti s5;
      iat_claim = as_number-some _ iat (or_fail-eq-ok _ _ iat s6);
      exp_claim = as_number-some _ exp (or_fail-eq-ok _ _ exp s7);
      sid_expected = guard-eq-ok _ _ u8 s8;
      sub_expected = guard-eq-ok _ _ u9 s9;
      sub_claim = refl;
      sid_claim = refl;
      issuer_claim = refl;
      audience = refl;
    })

check_claims_complete :
    (options : VerifyLogoutTokenOptions) (payload : Fields) (result : LogoutTokenPayload)
    → AreClaims options payload result
    → check_claims options payload ≡ ok result
unfolding check_claims
check_claims_complete options payload result c = ground arith

module _ (services : Services) (token : Text) (options : VerifyLogoutTokenOptions) where
  open services use {SigningKey, url_protocol, decode_protected_header, get_key, jwt_verify}

  abbrev issuer : Text
  issuer = get_or options.issuer default_issuer

  -- What a logout token is accepted for.
  pub record IsLogoutToken (result : LogoutTokenPayload) : Type 0 where
    pub header : Fields
    pub alg : Text
    pub kid : Option Text
    pub key : ResolvedKey SigningKey
    pub payload : Fields
    pub https_issuer : is_https (url_protocol issuer) ≡ true
    pub https_keys : is_https_option url_protocol options.jwks_url ≡ true
    pub audience_there : is_empty (trim options.audience) ≡ false
    pub decoded : decode_protected_header token ≡ some header
    pub is_header : IsHeader header alg kid
    pub key_found : get_key options.jwks_url issuer kid ≡ ok key
    pub key_alg : key.alg ≡ alg
    pub signed :
        jwt_verify token key.key key.alg issuer options.audience
          (tolerance_of options.clock_tolerance)
        ≡ ok payload
    pub are_claims : AreClaims options payload result

  verified-eq-ok : (r : Result JoseError Fields) (p : Fields) → verified r ≡ ok p → r ≡ ok p
  verified-eq-ok r p h = ground arith

  caught-eq-ok :
      (r : Result SdkError (ResolvedKey SigningKey)) (k : ResolvedKey SigningKey)
      → caught r ≡ ok k
      → r ≡ ok k
  caught-eq-ok (ok k') k h = h
  caught-eq-ok (err e) k h = h
  caught-eq-ok thrown k h = cc

  not-true : (b : Bool) → not b ≡ true → b ≡ false
  not-true b h = ground arith

  verify_logout_sound :
      (result : LogoutTokenPayload)
      → verify_logout_token services token options ≡ ok result
      → IsLogoutToken result
  unfolding verify_logout_token
  verify_logout_sound result h =
      let (u1, s1, h1) = >>=-eq-ok (guard (is_https (url_protocol issuer)) _) _ h in
      let (u2, s2, h2) = >>=-eq-ok (guard (is_https_option url_protocol options.jwks_url) _) _ h1 in
      let (u3, s3, h3) = >>=-eq-ok (guard (not (is_empty (trim options.audience))) _) _ h2 in
      let (header, s4, h4) = >>=-eq-ok (or_fail (decode_protected_header token) _) _ h3 in
      let (named, s5, h5) = >>=-eq-ok (check_header header) _ h4 in
      let (key, s6, h6) = >>=-eq-ok (caught (get_key options.jwks_url issuer named.1)) _ h5 in
      let (u7, s7, h7) = >>=-eq-ok (guard (text_eq named.0 key.alg) _) _ h6 in
      let (payload, s8, h8) =
        >>=-eq-ok
          (verified (
            jwt_verify token key.key key.alg issuer options.audience
              (tolerance_of options.clock_tolerance)))
          _ h7 in
      record {
        header = header;
        alg = named.0;
        kid = named.1;
        key = key;
        payload = payload;
        https_issuer = guard-eq-ok _ _ u1 s1;
        https_keys = guard-eq-ok _ _ u2 s2;
        audience_there = not-true _ (guard-eq-ok _ _ u3 s3);
        decoded = or_fail-eq-ok _ _ header s4;
        is_header = (check_header_iff header named.0 named.1).0 s5;
        key_found = caught-eq-ok _ key s6;
        key_alg = sym ((text_eq_iff named.0 key.alg).0 (guard-eq-ok _ _ u7 s7));
        signed = verified-eq-ok _ payload s8;
        are_claims = check_claims_sound options payload result h8;
      }

  verify_logout_complete :
      (result : LogoutTokenPayload)
      → IsLogoutToken result
      → verify_logout_token services token options ≡ ok result
  unfolding verify_logout_token
  verify_logout_complete result v =
      rw
        (
          v.https_issuer,
          v.https_keys,
          v.audience_there,
          v.decoded,
          (check_header_iff v.header v.alg v.kid).1 v.is_header,
          v.key_found,
          v.key_alg,
          text_eq_refl v.alg,
          ← v.key_alg,
          v.signed,
        )
        (check_claims_complete options v.payload result v.are_claims)

  -- A logout token is accepted with a result exactly if the issuer (and the key address, where one is
  -- given) is an https address, the audience is not blank, the header names an allowed algorithm, the
  -- type `logout+jwt` and a key of the issuer for that algorithm, jose verifies it with that key, and
  -- its claims have a single audience, no nonce, the logout event, a subject or a session, a token id,
  -- numeric times, and the expected session and subject where these are given; the result has these
  -- claims.
  pub verify_logout_token_iff :
      (result : LogoutTokenPayload)
      → (verify_logout_token services token options ≡ ok result) ↔ IsLogoutToken result
  verify_logout_token_iff result = (verify_logout_sound result, verify_logout_complete result)
