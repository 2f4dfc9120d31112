-- ===== src/Node/Dpop/Sound.antt =====
-- A bound token is accepted only with a proof that passes every check of RFC 9449, section 4.3.
use Prim.Native.String.{String}
use rakomi_js.Common.{
  ◌+◌, ◌≤◌, Bool, true, false, not, Option, none, some, List, ◌≡◌, refl, ap, ◌∙◌, arith,
}
use rakomi_js.Common.Int.{ℤ, pos_part, neg_part}
use rakomi_js.Common.Text.{Text, codes, text_eq, text_eq_iff, includes, is_empty}
use rakomi_js.Common.Json.{
  Json, null, str, obj, Fields, get, keys, is_nullish, as_text, equals_text,
}
use rakomi_js.Common.Results.{Result, ok, err, thrown, >>=-eq-ok}
use rakomi_js.Node.Errors.{DpopProofRejectionReason, proof_required}
use rakomi_js.Node.CanonicalUrl.{canonicalize_url}
use rakomi_js.Node.Dpop.{
  Platform, DpopVerifyOptions, guard, or_reject, single_proof, dpop_proof_algs, allowed_members,
  only_members, has_members, is_paired, check_header, check_jwk, in_iat_window, finite_iat,
  is_jti_shape, safe_equal, is_htu, verified_payload, check_claims, check_replay, or_throw,
  check_proof, confirmation_jkt, enforce_dpop_binding, enforce_confirmation, enforce_claim,
  reason_of, expires_at,
}
use rakomi_js.Node.Dpop.Equal.{safe_equal_iff}

guard-eq-ok : (b : Bool) (r : DpopProofRejectionReason) (u : Unit {0}) → guard b r ≡ ok u → b ≡ true
guard-eq-ok b r u h = ground arith

not-eq-true : (b : Bool) → not b ≡ true → b ≡ false
not-eq-true b h = ground arith

or_reject-eq-ok :
    {A : Type 0} (o : Option A) (r : DpopProofRejectionReason) (a : A)
    → or_reject o r ≡ ok a
    → o ≡ some a
or_reject-eq-ok o r a h = ground arith

equals_text-eq-true : (v : Option Json) (t : Text) → equals_text v t ≡ true → v ≡ some (str t)
equals_text-eq-true (some (str s)) t h = ground (arith, text_eq_iff s t)
equals_text-eq-true none t h = cc
equals_text-eq-true (some _) t h = cc

-- The header names the type and an allowed algorithm, holds a key, and refers to no other key: neither by an id,
-- nor by a certificate or an address. It has no critical extensions.
pub record IsProofHeader (header : Fields) (alg : Text) (jwk : Fields) : Type 0 where
  pub typ : get "typ" header ≡ some (str (codes "dpop+jwt"))
  pub no_kid : get "kid" header ≡ none
  pub no_x5c : get "x5c" header ≡ none
  pub no_jku : get "jku" header ≡ none
  pub no_x5u : get "x5u" header ≡ none
  pub no_crit : get "crit" header ≡ none
  pub alg_claim : get "alg" header ≡ some (str alg)
  pub alg_allowed : includes dpop_proof_algs alg ≡ true
  pub jwk_claim : get "jwk" header ≡ some (obj jwk)

pub check_header_sound :
    (header : Fields) (alg : Text) (jwk : Fields)
    → check_header header ≡ ok (alg, jwk)
    → IsProofHeader header alg jwk
unfolding check_header
check_header_sound header alg jwk h =
    ground (arith, equals_text-eq-true (get "typ" header) (codes "dpop+jwt"))

-- The key record has exactly the public members of its type, and is of the type and curve that the
-- algorithm goes with.
pub record IsPublicKey (alg : Text) (jwk : Fields) : Type 0 where
  pub members : List String
  pub allowed : allowed_members (as_text (get "kty" jwk)) ≡ ok members
  pub no_other : only_members members (keys jwk) ≡ true
  pub all_there : has_members members jwk ≡ true
  pub kty : Text
  pub crv : Text
  pub kty_claim : as_text (get "kty" jwk) ≡ some kty
  pub crv_claim : as_text (get "crv" jwk) ≡ some crv
  pub paired : is_paired kty crv alg ≡ true

check_jwk_sound :
    (alg : Text) (jwk : Fields) (u : Unit {0}) → check_jwk alg jwk ≡ ok u → IsPublicKey alg jwk
unfolding check_jwk
check_jwk_sound alg jwk u h =
    let (members, allowed, h1) = >>=-eq-ok (allowed_members (as_text (get "kty" jwk))) _ h in
    let (u1, no_other, h2) = >>=-eq-ok (guard (only_members members (keys jwk)) _) _ h1 in
    let (u2, all_there, h3) = >>=-eq-ok (guard (has_members members jwk) _) _ h2 in
    let (kty, has_kty, h4) = >>=-eq-ok (or_reject (as_text (get "kty" jwk)) _) _ h3 in
    let (crv, has_crv, h5) = >>=-eq-ok (or_reject (as_text (get "crv" jwk)) _) _ h4 in
    record {
      members = members;
      allowed = allowed;
      no_other = guard-eq-ok _ _ u1 no_other;
      all_there = guard-eq-ok _ _ u2 all_there;
      kty = kty;
      crv = crv;
      kty_claim = or_reject-eq-ok _ _ kty has_kty;
      crv_claim = or_reject-eq-ok _ _ crv has_crv;
      paired = guard-eq-ok _ _ u h5;
    }

module _ (platform : Platform) where
  open platform use {
    decode_protected_header, sha256_base64url, calculate_jwk_thumbprint, parse_url, now_seconds,
  }

  -- The claims of a proof for the request: its method and URL, its time within the window, and the
  -- access token's hash.
  pub record IsProofFor (access_token method htu : Text) (payload : Fields) (jti : Text) (iat : ℤ)
      : Type 0 where
    pub method_claim : get "htm" payload ≡ some (str method)
    pub url_claim : is_htu platform htu (get "htu" payload) ≡ true
    pub iat_claim : finite_iat (get "iat" payload) ≡ some iat
    pub not_old : now_seconds + neg_part iat ≤ pos_part iat + 60
    pub not_early : pos_part iat ≤ now_seconds + neg_part iat + 5
    pub jti_claim : as_text (get "jti" payload) ≡ some jti
    pub jti_shape : is_jti_shape jti ≡ true
    pub token_hash : as_text (get "ath" payload) ≡ some (sha256_base64url access_token)

  window_bounds :
      (iat : ℤ)
      → in_iat_window now_seconds iat ≡ true
      → (now_seconds + neg_part iat ≤ pos_part iat + 60)
        × (pos_part iat ≤ now_seconds + neg_part iat + 5)
  unfolding in_iat_window
  window_bounds iat h = ground arith

  check_claims_sound :
      (access_token method htu : Text) (payload : Fields) (jti : Text) (iat : ℤ)
      → check_claims platform access_token method htu payload ≡ ok (jti, iat)
      → IsProofFor access_token method htu payload jti iat
  unfolding check_claims
  check_claims_sound access_token method htu payload jti iat h =
      let (u1, htm, h1) = >>=-eq-ok (guard (equals_text (get "htm" payload) method) _) _ h in
      let (u2, is_url, h2) = >>=-eq-ok (guard (is_htu platform htu (get "htu" payload)) _) _ h1 in
      let (at, has_iat, h3) = >>=-eq-ok (or_reject (finite_iat (get "iat" payload)) _) _ h2 in
      let (u4, window, h4) = >>=-eq-ok (guard (in_iat_window now_seconds at) _) _ h3 in
      let (id, has_jti, h5) = >>=-eq-ok (or_reject (as_text (get "jti" payload)) _) _ h4 in
      let (u6, shape, h6) = >>=-eq-ok (guard (is_jti_shape id) _) _ h5 in
      let (ath, has_ath, h7) = >>=-eq-ok (or_reject (as_text (get "ath" payload)) _) _ h6 in
      let (u8, hash, h8) =
        >>=-eq-ok (guard (safe_equal ath (sha256_base64url access_token)) _) _ h7 in
      let same_jti : id ≡ jti = cc in
      let same_iat : at ≡ iat = cc in
      let same_hash : ath ≡ sha256_base64url access_token =
        (safe_equal_iff ath _).0 (guard-eq-ok _ _ u8 hash) in
      let (not_old, not_early) = window_bounds at (guard-eq-ok _ _ u4 window) in
      record {
        method_claim = equals_text-eq-true _ _ (guard-eq-ok _ _ u1 htm);
        url_claim = guard-eq-ok _ _ u2 is_url;
        iat_claim = rw (← same_iat) (or_reject-eq-ok _ _ at has_iat);
        not_old = rw (← same_iat) not_old;
        not_early = rw (← same_iat) not_early;
        jti_claim = rw (← same_jti) (or_reject-eq-ok _ _ id has_jti);
        jti_shape = rw (← same_jti) (guard-eq-ok _ _ u6 shape);
        token_hash = rw (← same_hash) (or_reject-eq-ok _ _ ath has_ath);
      }

  -- The replay hook, where there is one, answered `true`.
  abbrev pub IsFresh : Option (Text → Text → ℤ → ℤ → Option Bool) → Text → Text → ℤ → Type 0
  IsFresh none jti jkt iat = Unit
  IsFresh (some on_jti) jti jkt iat = on_jti jti jkt iat (expires_at iat) ≡ some true

  -- The proof of a request, with all that was checked of it.
  pub record IsAcceptedProof (access_token cnf_jkt : Text) (options : DpopVerifyOptions)
      : Type 0 where
    pub proof : Text
    pub header : Fields
    pub alg : Text
    pub jwk : Fields
    pub htu : Text
    pub payload : Fields
    pub jti : Text
    pub iat : ℤ
    pub single : single_proof options.proof ≡ ok proof
    pub method_there : is_empty options.method ≡ false
    pub url_there : is_empty options.url ≡ false
    pub request_url : canonicalize_url parse_url options.url ≡ some htu
    pub decoded : decode_protected_header proof ≡ some header
    pub is_header : IsProofHeader header alg jwk
    pub is_key : IsPublicKey alg jwk
    pub signed : verified_payload platform proof alg jwk ≡ some payload
    pub is_proof : IsProofFor access_token options.method htu payload jti iat
    pub bound : calculate_jwk_thumbprint jwk ≡ some cnf_jkt
    pub not_replayed : IsFresh options.on_jti jti cnf_jkt iat

  check_replay_sound :
      (hook : Option (Text → Text → ℤ → ℤ → Option Bool)) (jti jkt cnf_jkt : Text) (iat : ℤ)
      (u : Unit {0})
      → check_replay platform hook jti jkt iat ≡ ok u
      → jkt ≡ cnf_jkt
      → IsFresh hook jti cnf_jkt iat
  unfolding check_replay
  check_replay_sound none jti jkt cnf_jkt iat u h same = tt
  check_replay_sound (some on_jti) jti jkt cnf_jkt iat u h same = rw (← same) (ground arith)

  or_throw-eq-ok : {A : Type 0} (o : Option A) (a : A) → or_throw platform o ≡ ok a → o ≡ some a
  or_throw-eq-ok o a h = ground arith

  check_proof_sound :
      (access_token cnf_jkt : Text) (options : DpopVerifyOptions) (u : Unit {0})
      → check_proof platform access_token cnf_jkt options ≡ ok u
      → IsAcceptedProof access_token cnf_jkt options
  unfolding check_proof
  check_proof_sound access_token cnf_jkt options u h =
      let (proof, single, h1) = >>=-eq-ok (single_proof options.proof) _ h in
      let (u1, method, h2) = >>=-eq-ok (guard (not (is_empty options.method)) _) _ h1 in
      let (u2, url, h3) = >>=-eq-ok (guard (not (is_empty options.url)) _) _ h2 in
      let (htu, canonical, h4) =
        >>=-eq-ok (or_reject (canonicalize_url parse_url options.url) _) _ h3 in
      let (header, decoded, h5) = >>=-eq-ok (or_reject (decode_protected_header proof) _) _ h4 in
      let (named, checked, h6) = >>=-eq-ok (check_header header) _ h5 in
      let (u6, key, h7) = >>=-eq-ok (check_jwk named.0 named.1) _ h6 in
      let (payload, signed, h8) =
        >>=-eq-ok (or_reject (verified_payload platform proof named.0 named.1) _) _ h7 in
      let (claims, is_proof, h9) =
        >>=-eq-ok (check_claims platform access_token options.method htu payload) _ h8 in
      let (jkt, thumb, h10) =
        >>=-eq-ok (or_throw platform (calculate_jwk_thumbprint named.1)) _ h9 in
      let (u10, same, replay) = >>=-eq-ok (guard (text_eq jkt cnf_jkt) _) _ h10 in
      let same_jkt : jkt ≡ cnf_jkt = (text_eq_iff jkt cnf_jkt).0 (guard-eq-ok _ _ u10 same) in
      record {
        proof = proof;
        header = header;
        alg = named.0;
        jwk = named.1;
        htu = htu;
        payload = payload;
        jti = claims.0;
        iat = claims.1;
        single = single;
        method_there = not-eq-true _ (guard-eq-ok _ _ u1 method);
        url_there = not-eq-true _ (guard-eq-ok _ _ u2 url);
        request_url = or_reject-eq-ok _ _ htu canonical;
        decoded = or_reject-eq-ok _ _ header decoded;
        is_header = check_header_sound header named.0 named.1 checked;
        is_key = check_jwk_sound named.0 named.1 u6 key;
        signed = or_reject-eq-ok _ _ payload signed;
        is_proof =
            check_claims_sound access_token options.method htu payload claims.0 claims.1 is_proof;
        bound = or_throw-eq-ok _ jkt thumb ∙ ap some same_jkt;
        not_replayed =
            check_replay_sound options.on_jti claims.0 jkt cnf_jkt claims.1 u replay same_jkt;
      }

  reason_of-eq-none :
      (r : Result DpopProofRejectionReason (Unit {0})) → reason_of platform r ≡ none → r ≡ ok tt
  reason_of-eq-none (ok u) h = refl
  reason_of-eq-none (err e) h = cc
  reason_of-eq-none thrown h = cc

  -- What an accepted confirmation comes with.
  pub record IsBoundBy (access_token : Text) (cnf : Option Json)
      (options : Option DpopVerifyOptions) : Type 0 where
    pub confirmation : Fields
    pub jkt : Text
    pub given : DpopVerifyOptions
    pub is_confirmation : cnf ≡ some (obj confirmation)
    pub names_key : get "jkt" confirmation ≡ some (str jkt)
    pub jkt_there : is_empty jkt ≡ false
    pub has_options : options ≡ some given
    pub accepted : IsAcceptedProof access_token jkt given

  confirmation_jkt-eq-ok :
      (cnf : Fields) (jkt : Text)
      → confirmation_jkt platform (obj cnf) ≡ ok jkt
      → (get "jkt" cnf ≡ some (str jkt)) × (is_empty jkt ≡ false)
  unfolding confirmation_jkt
  confirmation_jkt-eq-ok cnf jkt h = ground arith

  enforce_claim_sound :
      (access_token : Text) (cnf : Option Json) (options : Option DpopVerifyOptions)
      → is_nullish cnf ≡ false
      → enforce_claim platform access_token cnf options ≡ none
      → IsBoundBy access_token cnf options
  unfolding confirmation_jkt
  enforce_claim_sound access_token none options b h = cc
  enforce_claim_sound access_token (some null) options b h = cc
  enforce_claim_sound access_token (some (obj cnf)) options b h =
      let passed =
        reason_of-eq-none (enforce_confirmation platform access_token (obj cnf) options) h in
      let (jkt, confirmed, h1) = >>=-eq-ok (confirmation_jkt platform (obj cnf)) _ passed in
      let (given, there, h2) = >>=-eq-ok (or_reject options proof_required) _ h1 in
      record {
        confirmation = cnf;
        jkt = jkt;
        given = given;
        is_confirmation = refl;
        names_key = (confirmation_jkt-eq-ok cnf jkt confirmed).0;
        jkt_there = (confirmation_jkt-eq-ok cnf jkt confirmed).1;
        has_options = or_reject-eq-ok _ _ given there;
        accepted = check_proof_sound access_token jkt given tt h2;
      }
  enforce_claim_sound access_token (some _) options b h = cc

  -- A token whose payload confirms a key (`cnf` is there and not null) is accepted only with a proof:
  -- the confirmation is an object that names the key's thumbprint, the request has options, and the
  -- proof for that thumbprint passes every check of `IsAcceptedProof`.
  pub enforce_sound :
      (access_token : Text) (payload : Fields) (options : Option DpopVerifyOptions)
      → is_nullish (get "cnf" payload) ≡ false
      → enforce_dpop_binding platform access_token payload options ≡ none
      → IsBoundBy access_token (get "cnf" payload) options
  unfolding enforce_dpop_binding
  enforce_sound access_token payload options bound h =
      enforce_claim_sound access_token (get "cnf" payload) options bound h
