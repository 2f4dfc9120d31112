-- ===== src/Node/ClaimGuards.antt =====
-- packages/sdk/src/claim-guards.ts: shape checks of the optional claims. `undefined` is `none`.
use rakomi_js.Common.{Option, none, some, List, [], ◌∷◌}
use rakomi_js.Common.Options.{◌>>=◌}
use rakomi_js.Common.Text.{Text}
use rakomi_js.Common.Json.{
  Json, null, str, arr, obj, Items, nil, cons, Fields, get, as_text, as_fields, texts,
}

-- `string | null`
pub data NullableText : Type 0 where
  null_value : NullableText
  text : Text → NullableText

pub record OrgMembership : Type 0 where
  pub org_id : Text
  pub org_slug : Text
  pub org_role : Text
  -- absent, `null` or an object
  pub membership_public_metadata : Option (Option Fields)

pub record Subscription : Type 0 where
  pub plan_id : Text
  pub plan_name : Text
  pub status : Text
  pub current_period_end : NullableText

-- `guardStringArray`, which `guardRoles`, `guardPermissions` and `guardAmr` call
unfoldable pub guard_string_array : Option Json → Option (List Text)
guard_string_array (some (arr vs)) = some (texts vs)
guard_string_array _ = none

-- `guardAcr`
unfoldable pub guard_acr : Option Json → Option Text
guard_acr value = as_text value

-- `guardOrgIdOrRole`, which `guardOrgId` and `guardOrgRole` call
unfoldable pub guard_org_id_or_role : Option Json → Option NullableText
guard_org_id_or_role (some null) = some null_value
guard_org_id_or_role (some (str s)) = some (text s)
guard_org_id_or_role _ = none

-- The metadata of an entry: `none` drops the entry.
abbrev guard_meta : Option Json → Option (Option (Option Fields))
guard_meta none = some none
guard_meta (some null) = some (some none)
guard_meta (some (obj fs)) = some (some (some fs))
guard_meta (some _) = none

unfoldable pub guard_org_membership : Fields → Option OrgMembership
guard_org_membership entry = do
  org_id ← as_text (get "org_id" entry)
  org_slug ← as_text (get "org_slug" entry)
  org_role ← as_text (get "org_role" entry)
  meta ← guard_meta (get "membership_public_metadata" entry)
  some (record {
    org_id = org_id;
    org_slug = org_slug;
    org_role = org_role;
    membership_public_metadata = meta;
  })

abbrev add : Option OrgMembership → List OrgMembership → List OrgMembership
add none ms = ms
add (some m) ms = m ∷ ms

-- The loop of `guardOrgMemberships`. An array is an object to the source's test, but it has none of
-- the properties that an entry needs.
unfoldable pub org_memberships_of : Items → List OrgMembership
unfolding guard_org_membership
org_memberships_of nil = []
org_memberships_of (cons (obj entry) vs) = add (guard_org_membership entry) (org_memberships_of vs)
org_memberships_of (cons _ vs) = org_memberships_of vs

-- `guardOrgMemberships`
unfoldable pub guard_org_memberships : Option Json → Option (List OrgMembership)
guard_org_memberships (some (arr vs)) = some (org_memberships_of vs)
guard_org_memberships _ = none

-- `guardPublicMetadata`
unfoldable pub guard_public_metadata : Option Json → Option Fields
guard_public_metadata value = as_fields value

abbrev as_nullable : Option Json → Option NullableText
as_nullable (some null) = some null_value
as_nullable (some (str s)) = some (text s)
as_nullable _ = none

-- `guardSubscription`
unfoldable pub guard_subscription : Option Json → Option Subscription
guard_subscription value = do
  fs ← as_fields value
  plan_id ← as_text (get "plan_id" fs)
  plan_name ← as_text (get "plan_name" fs)
  status ← as_text (get "status" fs)
  current_period_end ← as_nullable (get "current_period_end" fs)
  some (record {
    plan_id = plan_id;
    plan_name = plan_name;
    status = status;
    current_period_end = current_period_end;
  })
