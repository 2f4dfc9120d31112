-- ===== src/Core/Types.antt =====
-- packages/sdk-core/src/types/auth.ts: the decoded user and session, and the states of the machine.
use Prim.Native.String.{String}
use rakomi_js.Common.{ℕ, Bool, Option, List}
use rakomi_js.Common.Number.{Number}
use rakomi_js.Common.Json.{Json}
use rakomi_js.Common.Text.{Text}

pub record UserResource : Type 0 where
  pub id : Text
  pub email : Text
  pub tenant_id : Text
  pub roles : List Text
  pub permissions : List Text
  pub mfa_verified : Option Bool
  pub mfa_verified_at : Option Text
  pub amr : Option (List Text)
  pub acr : Option Text
  pub is_anonymous : Option Bool
  pub raw_claims : List (String × Json)

-- `Omit<SessionResource, 'isExpiringSoon'>`. Times are milliseconds since the epoch.
pub record DecodedSession : Type 0 where
  pub id : Text
  pub user_id : Text
  pub tenant_id : Text
  pub expires_at : ℕ
  pub last_active_at : Number
  pub max_lifetime_expires_at : Option Number
  pub effective_expires_at : Number
  pub expires_in_seconds : ℕ

pub record SessionResource : Type 0 where
  pub decoded : DecodedSession
  pub open decoded use *
  pub is_expiring_soon : Bool

pub data AuthMachineState : Type 0 where
  idle authenticating awaiting_mfa authenticated refreshing offline_stale error : AuthMachineState
