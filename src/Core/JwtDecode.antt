-- ===== src/Core/JwtDecode.antt =====
-- `decodeJwtPayload`, `decodeUser` and `decodeSession` of packages/sdk-core/src/jwt-decode.ts.
pub mod User
pub mod Session
use Prim.Native.String.{String}
use text.Mathlib.Text.{◌==◌ as str_eq}
use rakomi_js.Common.{
  ℕ, zero, suc, ◌+◌, ◌-◌, ◌*◌, ◌/◌, Bool, true, false, not, ◌&&◌, ◌||◌, Option, none, some, List,
  [], ◌∷◌, length, ltb, leb, ◌==◌, if◌then◌else◌, get_or,
}
use rakomi_js.Common.Options.{◌>>=◌}
use rakomi_js.Common.Int.{ℤ, pos, negsuc, leb_ℤ}
use rakomi_js.Common.Number.{Number, int, pos_inf, neg_inf, nan, num_lt, num_le}
use rakomi_js.Common.Text.{Text, codes, is_empty, split}
use rakomi_js.Common.Json.{
  Json, Items, bool, num, str, arr, obj, Fields, end, field, get, is_true, as_text, as_bool,
  as_number, as_items, texts,
}
use rakomi_js.Core.Types.{UserResource, DecodedSession}
use rakomi_js.Core.Base64.{base64_to_bytes}
use rakomi_js.Core.Utf8.{bytes_to_utf8}

-- What the platform brings: `atob` and `TextDecoder` where it has them, and `JSON.parse`, whose
-- exception is `none`.
pub record Platform : Type 0 where
  pub atob : Option (Text → Option (List ℕ))
  pub text_decoder : Option (List ℕ → Text)
  pub json_parse : Text → Option Json

-- The result of `Object.assign({}, json)`. A property named `__proto__` is not copied: the assignment
-- makes its value the prototype when that is an object, and a read falls back to the prototype.
pub record Payload : Type 0 where
  pub own : Fields
  pub inherited : Fields

without_proto : Fields → Fields
without_proto end = end
without_proto (field k v rest) =
    let kept = without_proto rest in if str_eq k "__proto__" then kept else field k v kept

proto_fields : Option Json → Fields
proto_fields (some (obj fs)) = fs
proto_fields _ = end

unfoldable pub assign : Fields → Payload
unfolding without_proto proto_fields
assign fs = record { own = without_proto fs; inherited = proto_fields (get "__proto__" fs) }

-- `payload[key]`
unfoldable pub read : Payload → String → Option Json
read p key = elim (get key p.own) [ none ↦ get key p.inherited | some v ↦ some v ]

abbrev pub max_token_length : ℕ
max_token_length = 8192

abbrev decoded_text : Platform → List ℕ → Text
decoded_text platform bytes = elim platform.text_decoder [
  | none ↦ bytes_to_utf8 bytes
  | some decode ↦ decode bytes
]

abbrev object_payload : Option Json → Option Payload
object_payload (some (obj fs)) = some (assign fs)
object_payload _ = none

abbrev decode_part : Platform → Text → Option Payload
decode_part platform part =
    if is_empty part then none else elim (base64_to_bytes platform.atob part) [
      | none ↦ none
      | some bytes ↦ object_payload (platform.json_parse (decoded_text platform bytes))
    ]

abbrev decode_parts : Platform → List Text → Option Payload
decode_parts platform (header ∷ part ∷ signature ∷ []) = decode_part platform part
decode_parts platform _ = none

-- `decodeJwtPayload`
unfoldable pub decode_jwt_payload : Platform → Text → Option Payload
decode_jwt_payload platform token =
    if leb max_token_length (length token) then none else decode_parts platform (split b'.' token)

-- `typeof value !== 'string' || !value` returns early; else the value.
unfoldable pub required_text : Option Json → Option Text
required_text (some (str s)) = if is_empty s then none else some s
required_text _ = none

abbrev pub is_denied : String → Bool
is_denied key = str_eq key "__proto__" || str_eq key "constructor" || str_eq key "prototype"

unfoldable pub raw_claims_of : Fields → List (String × Json)
raw_claims_of end = []
raw_claims_of (field k v rest) =
    let kept = raw_claims_of rest in if is_denied k then kept else (k, v) ∷ kept

abbrev texts_or_none : Option Items → Option (List Text)
texts_or_none none = none
texts_or_none (some vs) = some (texts vs)

-- The e-mail of the claims: an anonymous user may have none.
unfoldable pub email_of : Option Json → Bool → Option Text
unfolding required_text
email_of raw anonymous = elim (required_text raw) [
  | some email ↦ some email
  | none ↦ if anonymous then some [] else none
]

-- `typeof exp === 'number' && exp <= 0`
unfoldable pub is_expired_claim : Option Json → Bool
is_expired_claim (some (num n)) = num_le n (int (pos 0))
is_expired_claim _ = false

abbrev max_claim_length : ℕ
max_claim_length = 255

unfoldable pub user_of : Payload → Text → Text → Text → UserResource
user_of p sub tenant_id email = record {
  id = sub;
  email = email;
  tenant_id = tenant_id;
  roles = get_or (texts_or_none (as_items (read p "roles"))) [];
  permissions = get_or (texts_or_none (as_items (read p "permissions"))) [];
  mfa_verified = as_bool (read p "mfa_verified");
  mfa_verified_at = as_text (read p "mfa_verified_at");
  amr = texts_or_none (as_items (read p "amr"));
  acr = as_text (read p "acr");
  is_anonymous = if is_true (read p "is_anonymous") then some true else none;
  raw_claims = raw_claims_of p.own;
}

-- `decodeUser`, from the payload on
unfoldable pub user_of_payload : Payload → Option UserResource
unfolding user_of
user_of_payload p = do
  sub ← required_text (read p "sub")
  tenant_id ← required_text (read p "tenant_id")
  email ← email_of (read p "email") (is_true (read p "is_anonymous"))
  if ltb max_claim_length (length sub)
        || ltb max_claim_length (length email)
        || ltb max_claim_length (length tenant_id)
      then none
      else if is_expired_claim (read p "exp")
      then none
      else some (user_of p sub tenant_id email)

unfoldable pub decode_user : Platform → Text → Option UserResource
decode_user platform token = do p ← decode_jwt_payload platform token; user_of_payload p

-- `n * 1000`
abbrev thousandfold : Number → Number
thousandfold (int (pos n)) = int (pos (n * 1000))
thousandfold (int (negsuc n)) = int (negsuc (n * 1000 + 999))
thousandfold n = n

abbrev pub scaled : Option Number → Option Number
scaled none = none
scaled (some n) = some (thousandfold n)

-- `Math.min(a, b ?? Infinity)`
abbrev pub min_or : ℕ → Option Number → Number
min_or a none = int (pos a)
min_or a (some nan) = nan
min_or a (some b) = if num_lt b (int (pos a)) then b else int (pos a)

-- `Math.max(0, Math.floor((at - now) / 1000))`; the values that `min_or` leaves out are not compared
unfoldable pub seconds_left : Number → ℕ → ℕ
seconds_left (int (pos at)) now = (at - now) / 1000
seconds_left _ now = 0

abbrev last_active : Option Json → ℕ → Number
last_active (some (num iat)) now = thousandfold iat
last_active _ now = int (pos now)

unfoldable pub session_of : Payload → Text → Text → Text → ℕ → ℕ → ℕ → ℕ → DecodedSession
unfolding seconds_left
session_of p sub sid tenant_id expires_in now now' now'' =
    let max_lifetime : Option Number = scaled (as_number (read p "session_max_lifetime_exp")) in
    let effective : Number = min_or (now + expires_in * 1000) max_lifetime in
    record {
      id = sid;
      user_id = sub;
      tenant_id = tenant_id;
      expires_at = now + expires_in * 1000;
      last_active_at = last_active (read p "iat") now'';
      max_lifetime_expires_at = max_lifetime;
      effective_expires_at = effective;
      expires_in_seconds = seconds_left effective now';
    }

-- `decodeSession`; the clock is read up to three times, in this order
unfoldable pub decode_session : Platform → Text → ℕ → ℕ → ℕ → ℕ → Option DecodedSession
unfolding session_of
decode_session platform token expires_in now now' now'' = do
  p ← decode_jwt_payload platform token
  sub ← required_text (read p "sub")
  sid ← required_text (read p "sid")
  tenant_id ← required_text (read p "tenant_id")
  some (session_of p sub sid tenant_id expires_in now now' now'')
