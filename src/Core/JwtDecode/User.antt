-- ===== src/Core/JwtDecode/User.antt =====
-- What a decoded user says of the claims.
use rakomi_js.Common.{
  ◌≤◌, ◌<◌, Bool, true, false, Option, none, some, [], length, ltb, ◌≡◌, ◌≢◌, arith, All, ◌||◌,
  if◌then◌else◌,
}
use rakomi_js.Common.Options.{>>=-eq-some}
use rakomi_js.Common.Text.{Text, split}
use rakomi_js.Common.Json.{Json, str, Fields, end, field, is_true}
use rakomi_js.Core.Types.{UserResource}
use rakomi_js.Core.JwtDecode.{
  Platform, Payload, read, decode_jwt_payload, required_text, is_denied, raw_claims_of, email_of,
  is_expired_claim, user_of, user_of_payload, decode_user, max_token_length, max_claim_length,
}

-- A claim that is a string and not empty.
required_text-eq-some :
    (v : Option Json) (s : Text) → required_text v ≡ some s → (v ≡ some (str s)) × (s ≢ [])
unfolding required_text
required_text-eq-some v s h = ground arith

-- A user is decoded only from claims with a non-empty subject and tenant of at most 255 code units
-- each, with an e-mail of at most 255 that is empty only for an anonymous user, and whose expiry, if
-- it is a number, is positive; the user's id, tenant and e-mail are these claims.
pub record IsDecodedFrom (p : Payload) (u : UserResource) : Type 0 where
  pub subject : read p "sub" ≡ some (str u.id)
  pub subject_nonempty : u.id ≢ []
  pub tenant : read p "tenant_id" ≡ some (str u.tenant_id)
  pub tenant_nonempty : u.tenant_id ≢ []
  pub email_or_anonymous : u.email ≡ [] → is_true (read p "is_anonymous") ≡ true
  pub email_claim : u.email ≢ [] → read p "email" ≡ some (str u.email)
  pub id_length : length u.id ≤ max_claim_length
  pub email_length : length u.email ≤ max_claim_length
  pub tenant_length : length u.tenant_id ≤ max_claim_length
  pub not_expired : is_expired_claim (read p "exp") ≡ false

email_of-eq-some :
    (v : Option Json) (anonymous : Bool) (email : Text)
    → email_of v anonymous ≡ some email
    → (email ≡ [] → anonymous ≡ true) × (email ≢ [] → v ≡ some (str email))
unfolding email_of
email_of-eq-some v anonymous email h = ground arith

short_token :
    (platform : Platform) (token : Text) (p : Payload)
    → decode_jwt_payload platform token ≡ some p
    → length token < max_token_length
unfolding decode_jwt_payload
short_token platform token p h = ground arith

three_parts :
    (platform : Platform) (token : Text) (p : Payload)
    → decode_jwt_payload platform token ≡ some p
    → length (split b'.' token) ≡ 3
unfolding decode_jwt_payload
three_parts platform token p h = ground arith

-- The last tests of the decoder.
checked_user :
    (p : Payload) (sub tenant_id email : Text) (u : UserResource)
    → (if ltb max_claim_length (length sub)
          || ltb max_claim_length (length email)
          || ltb max_claim_length (length tenant_id)
        then none
        else if is_expired_claim (read p "exp")
        then none
        else some (user_of p sub tenant_id email))
      ≡ some u
    → (u ≡ user_of p sub tenant_id email)
      × (length sub ≤ max_claim_length)
      × (length email ≤ max_claim_length)
      × (length tenant_id ≤ max_claim_length)
      × (is_expired_claim (read p "exp") ≡ false)
checked_user p sub tenant_id email u h = ground arith

pub user_of_payload-IsDecodedFrom :
    (p : Payload) (u : UserResource) → user_of_payload p ≡ some u → IsDecodedFrom p u
unfolding user_of_payload
user_of_payload-IsDecodedFrom p u h =
    let (sub, is_sub, h1) = >>=-eq-some (required_text (read p "sub")) _ h in
    let (tenant, is_tenant, h2) = >>=-eq-some (required_text (read p "tenant_id")) _ h1 in
    let (email, is_email, h3) =
      >>=-eq-some (email_of (read p "email") (is_true (read p "is_anonymous"))) _ h2 in
    let (made, sub_len, email_len, tenant_len, unexpired) = checked_user p sub tenant email u h3 in
    let (s1, s2) = required_text-eq-some (read p "sub") sub is_sub in
    let (t1, t2) = required_text-eq-some (read p "tenant_id") tenant is_tenant in
    let (e1, e2) = email_of-eq-some (read p "email") _ email is_email in
    rw made (record {
      subject = s1;
      subject_nonempty = s2;
      tenant = t1;
      tenant_nonempty = t2;
      email_or_anonymous = e1;
      email_claim = e2;
      id_length = sub_len;
      email_length = email_len;
      tenant_length = tenant_len;
      not_expired = unexpired;
    })

-- Whatever the platform decodes, a user comes only from a token of fewer than 8192 code units in
-- three parts separated by full stops, and its fields satisfy `IsDecodedFrom` for the payload.
pub decode_user-IsDecodedFrom :
    (platform : Platform) (token : Text) (u : UserResource)
    → decode_user platform token ≡ some u
    → (p : Payload) × (decode_jwt_payload platform token ≡ some p)
      × (length token < max_token_length)
      × (length (split b'.' token) ≡ 3)
      × IsDecodedFrom p u
unfolding decode_user
decode_user-IsDecodedFrom platform token u h =
    let (p, decoded, made) = >>=-eq-some (decode_jwt_payload platform token) user_of_payload h in
    (
      p,
      decoded,
      short_token platform token p decoded,
      three_parts platform token p decoded,
      user_of_payload-IsDecodedFrom p u made,
    )

-- No claim under a name that could reach a prototype is handed to the application.
pub raw_claims_not_denied :
    (fs : Fields) → All (λ claim. is_denied claim.0 ≡ false) (raw_claims_of fs)
unfolding raw_claims_of
raw_claims_not_denied end = tt
raw_claims_not_denied (field k v rest) = ground (arith, raw_claims_not_denied rest)
