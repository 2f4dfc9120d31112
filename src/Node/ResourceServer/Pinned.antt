-- ===== src/Node/ResourceServer/Pinned.antt =====
-- What a resource server knows of an accepted token.
use rakomi_js.Common.{
  ℕ, true, false, Option, none, some, ◌||◌, is_some, ◌≡◌, ◌⊎◌, inl, inr, arith, Option-cases, ◌∙◌,
  ap,
}
use rakomi_js.Common.Number.{Number}
use rakomi_js.Common.Text.{Text, text_eq_iff}
use rakomi_js.Common.Json.{Json, str, Fields, get}
use rakomi_js.Common.Results.{Result, ok, >>=-eq-ok}
use rakomi_js.Node.Errors.{SdkError}
use rakomi_js.Node.TokenPayload.{TokenPayload, map_payload}
use rakomi_js.Node.VerifyToken.{
  Services, guard, is_access_token_typ, matches_pin, verify_token_with_options,
}
use rakomi_js.Node.VerifyToken.Sound.{IsVerified, verify_token_iff, guard-eq-ok}
use rakomi_js.Node.LogoutToken.{is_https, is_https_option, caught}
use rakomi_js.Node.ResourceServer.{
  VerifyRakomiTokenOptions, is_named, issuer_of, core_options, verify_rakomi_token,
}

map_payload-tenant :
    (iso_date : Number → Option Text) (payload : Fields) (now : ℕ) (result : TokenPayload)
    → map_payload iso_date payload now ≡ some result
    → result.tenant_id ≡ get "tenant_id" payload
unfolding map_payload
map_payload-tenant iso_date payload now result h = ground arith

pinned_claim :
    (tenant : Text) (claim : Option Json)
    → matches_pin (some tenant) claim ≡ true
    → claim ≡ some (str tenant)
pinned_claim tenant none h = absurd cc
pinned_claim tenant (some (str t)) h = ap (λ u. some (str u)) ((text_eq_iff t tenant).0 h)
pinned_claim tenant (some _) h = absurd cc

caught-eq-ok :
    (r : Result SdkError TokenPayload) (result : TokenPayload)
    → caught r ≡ ok result
    → r ≡ ok result
caught-eq-ok r result h = ground arith

typ_required :
    (typ : Option Json)
    → (true ≡ false) ⊎ (is_access_token_typ typ ≡ true)
    → is_access_token_typ typ ≡ true
typ_required typ h = ground arith

module _ (url_protocol : Text → Option Text) (services_of : Option Text → Text → Services)
    (token : Text) (o : VerifyRakomiTokenOptions) where
  abbrev services : Services
  services = services_of o.jwks_url (issuer_of o)

  -- What is known of an accepted token.
  pub record IsPinned (result : TokenPayload) : Type 0 where
    pub https_issuer : is_https (url_protocol (issuer_of o)) ≡ true
    pub verified : IsVerified services token (core_options o) result
    pub is_access_token : is_access_token_typ (get "typ" verified.header) ≡ true
    pub pinned :
        ((audience : Text) × (o.audience ≡ some audience))
        ⊎ ((tenant : Text) × (o.required_tenant_id ≡ some tenant)
            × (result.tenant_id ≡ some (str tenant)))

  pinned_by :
      (result : TokenPayload)
      → (is_some o.audience || is_some o.required_tenant_id) ≡ true
      → IsVerified services token (core_options o) result
      → ((audience : Text) × (o.audience ≡ some audience))
        ⊎ ((tenant : Text) × (o.required_tenant_id ≡ some tenant)
            × (result.tenant_id ≡ some (str tenant)))
  pinned_by result given v = elim (Option-cases o.audience) [
    | inr (audience, there) ↦ inl (audience, there)
    | inl absent ↦ elim (Option-cases o.required_tenant_id) [
      | inl missing ↦ absurd ground arith
      | inr (tenant, there) ↦ inr (
        tenant,
        there,
        map_payload-tenant services.iso_date v.payload services.platform.now_seconds result v.mapped
            ∙ pinned_claim tenant (get "tenant_id" v.payload)
                (rw there at v.are_claims.tenant_pinned),
      )
    ]
  ]

  -- If a resource server accepts a token, then the token passed every check of the verification, with
  -- an issuer over https and as an access token by its type; and the server has named an audience of its own,
  -- or it has named a tenant and the token is of that tenant.
  pub resource_server_sound :
      (result : TokenPayload)
      → verify_rakomi_token url_protocol services_of token o ≡ ok result
      → IsPinned result
  unfolding verify_rakomi_token
  resource_server_sound result h =
      let (u1, https, h1) = >>=-eq-ok (guard (is_https (url_protocol (issuer_of o))) _) _ h in
      let (u2, keys, h2) = >>=-eq-ok (guard (is_https_option url_protocol o.jwks_url) _) _ h1 in
      let (u3, named, h3) = >>=-eq-ok (guard (is_named o.audience) _) _ h2 in
      let (u4, named', h4) = >>=-eq-ok (guard (is_named o.required_tenant_id) _) _ h3 in
      let (u5, named'', h5) = >>=-eq-ok (guard (is_named o.required_client_id) _) _ h4 in
      let (u6, given, h6) =
        >>=-eq-ok (guard (is_some o.audience || is_some o.required_tenant_id) _) _ h5 in
      let v =
        (verify_token_iff services token (core_options o) result).0
          (caught-eq-ok (verify_token_with_options services token (core_options o)) result h6) in
      record {
        https_issuer = guard-eq-ok _ _ u1 https;
        verified = v;
        is_access_token = typ_required (get "typ" v.header) v.is_header.typ_checked;
        pinned = pinned_by result (guard-eq-ok _ _ u6 given) v;
      }
