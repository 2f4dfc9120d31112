-- ===== src/Node/Dpop.antt =====
-- packages/sdk/src/verify-dpop-binding.ts: a token that names a key is
-- accepted only with a proof of possession of that key (RFC 9449).
pub mod Sound
pub mod Equal
use Prim.Native.String.{String}
use text.Mathlib.Text.{◌==◌ as str_eq}
use rakomi_js.Common.{
  ℕ, zero, suc, ◌+◌, bit_or, bit_xor, Bool, true, false, not, ◌&&◌, ◌||◌, Option, none, some, List,
  [], ◌∷◌, ◌++◌, length, any, leb, ltb, ◌==◌, if◌then◌else◌, is_some,
}
use rakomi_js.Common.Int.{ℤ, pos_part, neg_part, sub_ℕ}
use rakomi_js.Common.Number.{Number, int}
use rakomi_js.Common.Text.{Text, codes, text_eq, includes, is_empty, trim, to_lower}
use rakomi_js.Common.Json.{
  Json, null, num, str, obj, Fields, get, keys, is_nullish, as_text, as_fields, equals_text,
}
use rakomi_js.Common.Results.{Result, ok, err, thrown, ◌>>=◌}
use rakomi_js.Node.CanonicalUrl.{Url, canonicalize_url}
use rakomi_js.Node.Errors.{
  DpopProofRejectionReason, proof_required, request_context_missing, unsupported_confirmation,
  malformed, multi_header, typ_rejected, kid_forbidden, crit_rejected, alg_rejected,
  private_jwk_params, signature_invalid, htm_mismatch, htu_mismatch, iat_window, jti_invalid,
  ath_missing, ath_mismatch, jkt_mismatch, jti_replay, replay_check_unavailable,
}

abbrev pub dpop_iat_past_window_seconds : ℕ
dpop_iat_past_window_seconds = 60

abbrev pub dpop_iat_future_window_seconds : ℕ
dpop_iat_future_window_seconds = 5

-- What jose, Web Crypto, the URL parser and the clock bring. `none` is an exception.
pub record Platform : Type 1 where
  pub Key : Type 0
  pub decode_protected_header : Text → Option Fields
  pub import_jwk : Fields → Text → Option Key
  -- the payload of a proof whose signature by the key, under the algorithm, is valid
  pub jwt_verify : Text → Key → Text → Option Fields
  pub sha256_base64url : Text → Text
  pub calculate_jwk_thumbprint : Fields → Option Text
  pub parse_url : Text → Option Url
  pub now_seconds : ℕ

pub data ProofHeader : Type 0 where
  absent : ProofHeader
  one : Text → ProofHeader
  many : List Text → ProofHeader

-- The arguments of the replay hook are the proof's `jti`, its key's thumbprint, its `iat` and the time
-- at which it expires; `none` of the call is the hook's exception.
pub record DpopVerifyOptions : Type 0 where
  pub proof : ProofHeader
  pub method : Text
  pub url : Text
  pub on_jti : Option (Text → Text → ℤ → ℤ → Option Bool)

abbrev Check : Type 0 → Type 0
Check A = Result DpopProofRejectionReason A

-- `if (!condition) reject(reason)`
abbrev pub guard : Bool → DpopProofRejectionReason → Check (Unit {0})
guard true reason = ok tt
guard false reason = err reason

infixl 5 ◌>>◌
abbrev pub ◌>>◌ : {B : Type 0} → Check (Unit {0}) → Check B → Check B
m >> k = m >>= λ _. k

abbrev pub or_reject : {A : Type 0} → Option A → DpopProofRejectionReason → Check A
or_reject none reason = err reason
or_reject (some a) reason = ok a

-- `isJtiShape`, on a string
abbrev is_jti_unit : ℕ → Bool
is_jti_unit c =
    (leb 0x30 c && leb c 0x39)
    || (leb 0x41 c && leb c 0x5a)
    || (leb 0x61 c && leb c 0x7a)
    || c == 0x2d
    || c == 0x5f

abbrev all_units : Text → Bool
all_units [] = true
all_units (c ∷ s) = is_jti_unit c && all_units s

unfoldable pub is_jti_shape : Text → Bool
is_jti_shape value = leb 22 (length value) && leb (length value) 128 && all_units value

-- The loop of `safeEqual`, from a difference found so far.
difference : ℕ → Text → Text → ℕ
difference diff [] t = diff
difference diff (c ∷ s) [] = diff
difference diff (c ∷ s) (d ∷ t) = difference (bit_or diff (bit_xor c d)) s t

-- `safeEqual`
unfoldable pub safe_equal : Text → Text → Bool
unfolding difference
safe_equal a b = if length a == length b then difference 0 a b == 0 else false

abbrev pub contains_unit : ℕ → Text → Bool
contains_unit c [] = false
contains_unit c (d ∷ s) = d == c || contains_unit c s

abbrev checked_proof : Text → Check Text
checked_proof value =
    if is_empty (trim value)
    then err proof_required
    else if contains_unit b',' (trim value)
    then err multi_header
    else ok (trim value)

-- `singleProof`
unfoldable pub single_proof : ProofHeader → Check Text
single_proof absent = err proof_required
single_proof (one value) = checked_proof value
single_proof (many []) = err proof_required
single_proof (many (value ∷ [])) = checked_proof value
single_proof (many (value ∷ _ ∷ _)) = err multi_header

abbrev pub ec : Text
ec = codes "EC"

abbrev pub okp : Text
okp = codes "OKP"

-- The names that every object literal of the source inherits: `PUBLIC_JWK_MEMBERS[kty]` finds a value
-- under them that is no array, and the call of its `includes` throws.
abbrev inherited_names : List Text
inherited_names =
    codes "constructor"
    ∷ codes "__proto__"
    ∷ codes "toString"
    ∷ codes "toLocaleString"
    ∷ codes "valueOf"
    ∷ codes "hasOwnProperty"
    ∷ codes "isPrototypeOf"
    ∷ codes "propertyIsEnumerable"
    ∷ codes "__defineGetter__"
    ∷ codes "__defineSetter__"
    ∷ codes "__lookupGetter__"
    ∷ codes "__lookupSetter__"
    ∷ []

-- `PUBLIC_JWK_MEMBERS`
unfoldable pub allowed_members : Option Text → Check (List String)
allowed_members none = err alg_rejected
allowed_members (some kty) =
    if text_eq kty ec
    then ok ("kty" ∷ "crv" ∷ "x" ∷ "y" ∷ [])
    else if text_eq kty okp
    then ok ("kty" ∷ "crv" ∷ "x" ∷ [])
    else if includes inherited_names kty
    then thrown
    else err alg_rejected

abbrev pub is_member : List String → String → Bool
is_member [] name = false
is_member (m ∷ ms) name = str_eq m name || is_member ms name

-- `Object.keys(jwk)` are all allowed.
unfoldable pub only_members : List String → List String → Bool
only_members allowed [] = true
only_members allowed (k ∷ ks) = is_member allowed k && only_members allowed ks

-- Every allowed member is there, as a string.
unfoldable pub has_members : List String → Fields → Bool
has_members [] jwk = true
has_members (m ∷ ms) jwk = is_some (as_text (get m jwk)) && has_members ms jwk

-- `NATURAL_PAIRING[kty][crv] === alg`
unfoldable pub is_paired : Text → Text → Text → Bool
is_paired kty crv alg =
    (text_eq kty ec && text_eq crv (codes "P-256") && text_eq alg (codes "ES256"))
    || (text_eq kty okp && text_eq crv (codes "Ed25519") && text_eq alg (codes "EdDSA"))

abbrev pub dpop_proof_algs : List Text
dpop_proof_algs = codes "ES256" ∷ codes "EdDSA" ∷ []

-- The checks of the proof's header up to its key: the algorithm and the key record.
unfoldable pub check_header : Fields → Check (Text × Fields)
check_header header = do
  guard (equals_text (get "typ" header) (codes "dpop+jwt")) typ_rejected
  guard (not (is_some (get "kid" header))) kid_forbidden
  guard
      (not (is_some (get "x5c" header))
        && not (is_some (get "jku" header))
        && not (is_some (get "x5u" header)))
      malformed
  guard (not (is_some (get "crit" header))) crit_rejected
  alg ← or_reject (as_text (get "alg" header)) alg_rejected
  guard (includes dpop_proof_algs alg) alg_rejected
  jwk ← or_reject (as_fields (get "jwk" header)) malformed
  ok (alg, jwk)

-- The checks of the key record.
unfoldable pub check_jwk : Text → Fields → Check (Unit {0})
check_jwk alg jwk = do
  members ← allowed_members (as_text (get "kty" jwk))
  guard (only_members members (keys jwk)) private_jwk_params
  guard (has_members members jwk) malformed
  kty ← or_reject (as_text (get "kty" jwk)) malformed
  crv ← or_reject (as_text (get "crv" jwk)) malformed
  guard (is_paired kty crv alg) alg_rejected

-- `typeof iat === 'number' && Number.isFinite(iat)`
abbrev finite_iat : Option Json → Option ℤ
finite_iat (some (num (int iat))) = some iat
finite_iat _ = none

-- `skew <= 60 && skew >= -5`, for `skew = now - iat`
unfoldable pub in_iat_window : ℕ → ℤ → Bool
in_iat_window now iat =
    leb (now + neg_part iat) (pos_part iat + dpop_iat_past_window_seconds)
    && leb (pos_part iat) (now + neg_part iat + dpop_iat_future_window_seconds)

-- `iat + 60`
abbrev expires_at : ℤ → ℤ
expires_at iat = sub_ℕ (pos_part iat + dpop_iat_past_window_seconds) (neg_part iat)

module _ (platform : Platform) where
  open platform use {
    Key, decode_protected_header, import_jwk, jwt_verify, sha256_base64url,
    calculate_jwk_thumbprint, parse_url, now_seconds,
  }

  abbrev is_htu : Text → Option Json → Bool
  is_htu expected (some (str htu)) = elim (canonicalize_url parse_url htu) [
    | none ↦ false
    | some actual ↦ text_eq actual expected
  ]
  is_htu expected _ = false

  -- The payload of a proof whose signature is valid under the key of its own header.
  abbrev verified_payload : Text → Text → Fields → Option Fields
  verified_payload proof alg jwk = elim (import_jwk jwk alg) [
    | none ↦ none
    | some key ↦ jwt_verify proof key alg
  ]

  -- The checks of the proof's claims; the result is its `jti` and `iat`.
  unfoldable pub check_claims : Text → Text → Text → Fields → Check (Text × ℤ)
  check_claims access_token method expected_htu payload = do
    guard (equals_text (get "htm" payload) method) htm_mismatch
    guard (is_htu expected_htu (get "htu" payload)) htu_mismatch
    iat ← or_reject (finite_iat (get "iat" payload)) iat_window
    guard (in_iat_window now_seconds iat) iat_window
    jti ← or_reject (as_text (get "jti" payload)) jti_invalid
    guard (is_jti_shape jti) jti_invalid
    ath ← or_reject (as_text (get "ath" payload)) ath_missing
    guard (safe_equal ath (sha256_base64url access_token)) ath_mismatch
    ok (jti, iat)

  -- The replay hook must answer `true`.
  unfoldable pub check_replay :
      Option (Text → Text → ℤ → ℤ → Option Bool) → Text → Text → ℤ → Check (Unit {0})
  check_replay none jti jkt iat = ok tt
  check_replay (some on_jti) jti jkt iat = elim (on_jti jti jkt iat (expires_at iat)) [
    | none ↦ err replay_check_unavailable
    | some fresh ↦ guard fresh jti_replay
  ]

  abbrev or_throw : {A : Type 0} → Option A → Check A
  or_throw none = thrown
  or_throw (some a) = ok a

  -- `checkProof`
  unfoldable pub check_proof : Text → Text → DpopVerifyOptions → Check (Unit {0})
  check_proof access_token cnf_jkt options = do
    proof ← single_proof options.proof
    guard (not (is_empty options.method)) request_context_missing
    guard (not (is_empty options.url)) request_context_missing
    expected_htu ← or_reject (canonicalize_url parse_url options.url) request_context_missing
    header ← or_reject (decode_protected_header proof) malformed
    (alg, jwk) ← check_header header
    check_jwk alg jwk
    payload ← or_reject (verified_payload proof alg jwk) signature_invalid
    (jti, iat) ← check_claims access_token options.method expected_htu payload
    jkt ← or_throw (calculate_jwk_thumbprint jwk)
    guard (text_eq jkt cnf_jkt) jkt_mismatch
    check_replay options.on_jti jti jkt iat

  -- The thumbprint that the confirmation claim names.
  unfoldable pub confirmation_jkt : Json → Check Text
  confirmation_jkt (obj cnf) = elim (get "jkt" cnf) [
    | none ↦ err unsupported_confirmation
    | some (str jkt) ↦ if is_empty jkt then err malformed else ok jkt
    | some _ ↦ err malformed
  ]
  confirmation_jkt _ = err malformed

  -- The rejection reason of the result; an exception that is no rejection counts as `malformed`.
  abbrev reason_of : Check (Unit {0}) → Option DpopProofRejectionReason
  reason_of (ok _) = none
  reason_of (err reason) = some reason
  reason_of thrown = some malformed

  abbrev enforce_confirmation : Text → Json → Option DpopVerifyOptions → Check (Unit {0})
  enforce_confirmation access_token cnf options = do
    jkt ← confirmation_jkt cnf
    given ← or_reject options proof_required
    check_proof access_token jkt given

  abbrev enforce_claim :
      Text → Option Json → Option DpopVerifyOptions → Option DpopProofRejectionReason
  enforce_claim access_token none options = none
  enforce_claim access_token (some null) options = none
  enforce_claim access_token (some cnf) options =
      reason_of (enforce_confirmation access_token cnf options)

  -- `enforceDpopBinding`: `none` accepts the token
  unfoldable pub enforce_dpop_binding :
      Text → Fields → Option DpopVerifyOptions → Option DpopProofRejectionReason
  enforce_dpop_binding access_token payload options =
      enforce_claim access_token (get "cnf" payload) options
