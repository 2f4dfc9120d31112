-- ===== src/Node/TokenPayload.antt =====
-- The mapping of verified claims to `TokenPayload` in packages/sdk/src/verify-token.ts. A claim that
-- the source casts with `as` is carried over as the JSON value that it is.
use rakomi_js.Common.{
  ℕ, ◌+◌, ◌-◌, Bool, true, false, not, Option, none, some, List, [], if◌then◌else◌, get_or, keep,
}
use rakomi_js.Common.Int.{pos, pos_part, neg_part}
use rakomi_js.Common.Number.{Number, int, pos_inf, neg_inf, nan, num_lt}
use rakomi_js.Common.Text.{Text, split, is_empty}
use rakomi_js.Common.Json.{
  Json, str, obj, Fields, get, is_true, is_truthy, is_nullish, as_text, as_bool, as_number,
}
use rakomi_js.Node.ClaimGuards.{
  NullableText, OrgMembership, Subscription, guard_string_array, guard_acr, guard_org_id_or_role,
  guard_org_memberships, guard_public_metadata, guard_subscription,
}

pub record SessionMetadata : Type 0 where
  pub expires_at : Text
  pub max_lifetime_expires_at : Option Text
  pub is_expiring_soon : Bool

-- `TokenMetadata.expiresIn`
pub record TokenMetadata : Type 0 where
  pub expires_in : Number

pub record Agent : Type 0 where
  pub client_id : Text
  pub scopes : List Text

pub record TokenPayload : Type 0 where
  pub user_id : Option Json
  pub email : Option Json
  pub tenant_id : Option Json
  pub session_id : Option Json
  pub iss : Option Json
  pub aud : Option Json
  pub exp : Option Json
  pub iat : Option Json
  pub jti : Option Json
  pub mfa_verified : Option Bool
  pub mfa_verified_at : Option Json
  pub amr : Option (List Text)
  pub acr : Option Text
  pub auth_time : Option Json
  pub roles : List Text
  pub permissions : List Text
  pub environment : Option Json
  pub public_metadata : Option Fields
  pub is_minor : Option Bool
  pub subscription : Option Subscription
  pub org_id : Option NullableText
  pub org_role : Option NullableText
  pub org_memberships : Option (List OrgMembership)
  pub is_m2m : Bool
  pub client_id : Option Json
  pub scopes : Option (List Text)
  pub agent : Option Agent
  pub session : Option SessionMetadata
  pub token : Option TokenMetadata

-- `...(value ? { key: value } : {})`
abbrev when_truthy : Option Json → Option Json
when_truthy v = if is_truthy v then v else none

-- `scope.split(' ').filter(Boolean)`
unfoldable pub scopes_of : Text → List Text
scopes_of scope = keep (λ s. not (is_empty s)) (split b' ' scope)

-- The `scopes` of the payload: `none` is the exception of calling `split` on a value that is truthy
-- and no string.
unfoldable pub payload_scopes : Option Json → Option (Option (List Text))
unfolding scopes_of
payload_scopes (some (str scope)) = some (if is_empty scope then none else some (scopes_of scope))
payload_scopes v = if is_truthy v then none else some none

abbrev text_or_empty : Option Text → List Text
text_or_empty none = []
text_or_empty (some scope) = scopes_of scope

-- The agent of `act`, present when `act.sub` is a string. An array has no `sub`.
unfoldable pub agent_of : Option Json → Option Json → Option Agent
unfolding scopes_of
agent_of (some (obj act)) scope = elim (as_text (get "sub" act)) [
  | none ↦ none
  | some sub ↦ some (record { client_id = sub; scopes = text_or_empty (as_text scope) })
]
agent_of _ scope = none

-- `Math.max(0, at - now)`
unfoldable pub seconds_until : Number → ℕ → Number
seconds_until (int at) now = int (pos (pos_part at - (now + neg_part at)))
seconds_until pos_inf now = pos_inf
seconds_until neg_inf now = int (pos 0)
seconds_until nan now = nan

-- `Math.min(a, b) < 300`, which is false when a side is NaN
abbrev min_below_300 : Number → Number → Bool
min_below_300 nan b = false
min_below_300 a nan = false
min_below_300 a b = if num_lt a b then num_lt a (int (pos 300)) else num_lt b (int (pos 300))

abbrev remaining : Option Number → ℕ → Number
remaining none now = pos_inf
remaining (some limit) now = seconds_until limit now

abbrev lifetime_text : Option Text → Bool → Text → SessionMetadata
lifetime_text limit soon expires = record {
  expires_at = expires;
  max_lifetime_expires_at = limit;
  is_expiring_soon = soon;
}

-- `new Date(seconds * 1000).toISOString()` of the platform; `none` is its exception, for a time out of
-- range.
module _ (iso_date : Number → Option Text) where
  abbrev lifetime_date : Option Number → Option (Option Text)
  lifetime_date none = some none
  lifetime_date (some limit) = elim (iso_date limit) [ none ↦ none | some t ↦ some (some t) ]

  -- The session and token metadata of a user token, from `exp` and the life limit.
  unfoldable pub metadata_of : Number → Option Number → ℕ → Option (SessionMetadata × TokenMetadata)
  metadata_of exp limit now = elim (iso_date exp) [
    | none ↦ none
    | some expires ↦ elim (lifetime_date limit) [
      | none ↦ none
      | some limit_text ↦ some (
        lifetime_text limit_text (min_below_300 (seconds_until exp now) (remaining limit now))
            expires,
        record { expires_in = seconds_until exp now },
      )
    ]
  ]

  -- jose accepts no `exp` but a number.
  abbrev user_metadata : Fields → ℕ → Option (Option (SessionMetadata × TokenMetadata))
  user_metadata payload now =
      if is_true (get "m2m" payload) then some none else elim (as_number (get "exp" payload)) [
        | none ↦ none
        | some exp ↦
            elim (metadata_of exp (as_number (get "session_max_lifetime_exp" payload)) now) [
              | none ↦ none
              | some m ↦ some (some m)
            ]
      ]

  abbrev guarded : {A : Type 0} → Option Json → (Option Json → Option A) → Option A
  guarded v guard = if is_truthy v then guard v else none

  abbrev mapped :
      Fields → Option (List Text) → Option (SessionMetadata × TokenMetadata) → TokenPayload
  mapped payload scopes metadata = record {
    user_id = get "sub" payload;
    email = when_truthy (get "email" payload);
    tenant_id = get "tenant_id" payload;
    session_id = when_truthy (get "sid" payload);
    iss = get "iss" payload;
    aud = get "aud" payload;
    exp = get "exp" payload;
    iat = get "iat" payload;
    jti = get "jti" payload;
    mfa_verified = if is_true (get "mfa_verified" payload) then some true else none;
    mfa_verified_at =
        if is_true (get "mfa_verified" payload) then get "mfa_verified_at" payload else none;
    amr = guard_string_array (get "amr" payload);
    acr = guarded (get "acr" payload) guard_acr;
    auth_time = if is_nullish (get "auth_time" payload) then none else get "auth_time" payload;
    roles = get_or (guard_string_array (get "roles" payload)) [];
    permissions = get_or (guard_string_array (get "permissions" payload)) [];
    environment = when_truthy (get "rkm_env" payload);
    public_metadata = guarded (get "public_metadata" payload) guard_public_metadata;
    is_minor = as_bool (get "is_minor" payload);
    subscription = guarded (get "subscription" payload) guard_subscription;
    org_id = guard_org_id_or_role (get "org_id" payload);
    org_role = guard_org_id_or_role (get "org_role" payload);
    org_memberships = guard_org_memberships (get "org_memberships" payload);
    is_m2m = is_true (get "m2m" payload);
    client_id = when_truthy (get "client_id" payload);
    scopes = scopes;
    agent = agent_of (get "act" payload) (get "scope" payload);
    session = elim metadata [ none ↦ none | some m ↦ some m.0 ];
    token = elim metadata [ none ↦ none | some m ↦ some m.1 ];
  }

  -- The payload that an accepted token gives; `none` is an exception of the mapping.
  unfoldable pub map_payload : Fields → ℕ → Option TokenPayload
  unfolding metadata_of payload_scopes agent_of
  map_payload payload now = elim (payload_scopes (get "scope" payload)) [
    | none ↦ none
    | some scopes ↦ elim (user_metadata payload now) [
      | none ↦ none
      | some metadata ↦ some (mapped payload scopes metadata)
    ]
  ]
