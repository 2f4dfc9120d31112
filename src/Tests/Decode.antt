-- ===== src/Tests/Decode.antt =====
-- The token decoder of packages/sdk-core/src/jwt-decode.ts on concrete tokens.
use rakomi_js.Common.{◌<◌, true, false, none, some, [], ◌∷◌, ◌≡◌, refl, arith, length, All}
use rakomi_js.Common.Int.{pos}
use rakomi_js.Common.Number.{int}
use rakomi_js.Common.Text.{Text, codes, split}
use rakomi_js.Common.Json.{str, num, obj, Fields, field, end, get}
use rakomi_js.Core.Types.{UserResource, DecodedSession}
use rakomi_js.Core.Base64.{base64_to_bytes, padded, to_standard, decode_groups, group_bytes, lookup}
use rakomi_js.Core.Base64.RoundTrip.{base64_to_bytes-encode, encode as base64_encode}
use rakomi_js.Core.Utf8.{bytes_to_utf8}
use rakomi_js.Core.Utf8.RoundTrip.{bytes_to_utf8-encode, encode as utf8_encode, units}
use rakomi_js.Core.JwtDecode.{
  Platform, Payload, assign, read, decode_jwt_payload, decode_user, decode_session, required_text,
  raw_claims_of, is_denied, email_of, is_expired_claim, user_of_payload, max_token_length,
}
use rakomi_js.Core.JwtDecode.User.{IsDecodedFrom, decode_user-IsDecodedFrom, raw_claims_not_denied}
use rakomi_js.Core.JwtDecode.Session.{IsBounded, decode_session-IsBounded}

-- "hé" in UTF-8, and its encoding.
decodes_url_safe : base64_to_bytes none (codes "aMOp_w") ≡ some (104 ∷ 195 ∷ 169 ∷ 255 ∷ [])
unfolding base64_to_bytes padded to_standard decode_groups group_bytes lookup codes
decodes_url_safe = refl

base64_to_bytes-encode_example :
    base64_to_bytes none (base64_encode true (104 ∷ 195 ∷ 169 ∷ 255 ∷ []))
    ≡ some (104 ∷ 195 ∷ 169 ∷ 255 ∷ [])
base64_to_bytes-encode_example =
    base64_to_bytes-encode true (104 ∷ 195 ∷ 169 ∷ 255 ∷ []) (omega arith)

decodes_utf8 :
    bytes_to_utf8 (104 ∷ 195 ∷ 169 ∷ 240 ∷ 159 ∷ 152 ∷ 128 ∷ []) ≡ 104 ∷ 233 ∷ 0xd83d ∷ 0xde00 ∷ []
unfolding bytes_to_utf8
decodes_utf8 = refl

bytes_to_utf8-encode_example :
    bytes_to_utf8 (utf8_encode (104 ∷ 233 ∷ 0x1f600 ∷ [])) ≡ units (104 ∷ 233 ∷ 0x1f600 ∷ [])
bytes_to_utf8-encode_example = bytes_to_utf8-encode (104 ∷ 233 ∷ 0x1f600 ∷ []) (omega arith)

abbrev pub claims : Fields
claims = field "sub" (str (codes "u1")) (
    field "sid" (str (codes "s1")) (
      field "tenant_id" (str (codes "t1")) (
        field "email" (str (codes "a@b")) (
          field "session_max_lifetime_exp" (num (int (pos 50)))
            (field "constructor" (str (codes "x")) end)))))

-- A platform whose JSON parser gives the claims above for any text.
abbrev pub platform : Platform
platform = record { atob = none; text_decoder = none; json_parse = λ t. some (obj claims) }

abbrev pub token : Text
token = codes "aa.bb.cc"

abbrev pub user : UserResource
user = record {
  id = codes "u1";
  email = codes "a@b";
  tenant_id = codes "t1";
  roles = [];
  permissions = [];
  mfa_verified = none;
  mfa_verified_at = none;
  amr = none;
  acr = none;
  is_anonymous = none;
  raw_claims =
      ("sub", str (codes "u1"))
      ∷ ("sid", str (codes "s1"))
      ∷ ("tenant_id", str (codes "t1"))
      ∷ ("email", str (codes "a@b"))
      ∷ ("session_max_lifetime_exp", num (int (pos 50)))
      ∷ [];
}

pub is_user : decode_user platform token ≡ some user
unfolding decode_user decode_jwt_payload user_of_payload assign read required_text raw_claims_of
    email_of is_expired_claim split get codes base64_to_bytes bytes_to_utf8
is_user = refl

decode_user-IsDecodedFrom_example :
    (p : Payload) × (decode_jwt_payload platform token ≡ some p)
    × (length token < max_token_length)
    × (length (split b'.' token) ≡ 3)
    × IsDecodedFrom p user
decode_user-IsDecodedFrom_example = decode_user-IsDecodedFrom platform token user is_user

raw_claims_not_denied_run : All (λ claim. is_denied claim.0 ≡ false) (raw_claims_of claims)
raw_claims_not_denied_run = raw_claims_not_denied claims

-- The life limit, 50 seconds from the epoch, ends the session before the hour is over.
abbrev session : DecodedSession
session = record {
  id = codes "s1";
  user_id = codes "u1";
  tenant_id = codes "t1";
  expires_at = 3_610_000;
  last_active_at = int (pos 10_002);
  max_lifetime_expires_at = some (int (pos 50_000));
  effective_expires_at = int (pos 50_000);
  expires_in_seconds = 39;
}

is_session : decode_session platform token 3600 10_000 10_001 10_002 ≡ some session
unfolding decode_session decode_jwt_payload assign read required_text split get codes
    base64_to_bytes bytes_to_utf8
is_session = refl

decode_session-IsBounded_example :
    (p : Payload) × (decode_jwt_payload platform token ≡ some p)
    × IsBounded p session 3600 10_000 10_001
decode_session-IsBounded_example =
    decode_session-IsBounded platform token 3600 10_000 10_001 10_002 session (omega arith)
      is_session
