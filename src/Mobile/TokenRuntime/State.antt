-- ===== src/Mobile/TokenRuntime/State.antt =====
-- The fields of `TokenRuntime` and its methods that do not wait. Secure storage answers at once and does
-- not fail to write or remove; the verification of access tokens is left out.
use rakomi_js.Common.{
  ℕ, ◌+◌, ◌*◌, min, max, Bool, true, false, not, Option, none, some, ◌++◌, leb, if◌then◌else◌,
}
use rakomi_js.Common.Int.{pos}
use rakomi_js.Common.Number.{Number, int}
use rakomi_js.Common.Text.{Text, codes, text_eq, is_empty}
use rakomi_js.Core.AuthError.{AuthError, sign_in_failed}
use rakomi_js.Core.Types.{UserResource, SessionResource}
use rakomi_js.Core.AuthMachine.{
  MachineSnapshot, MachineAction, refresh_success, refresh_revoked, sign_in_success, sign_out,
  reduce,
}
use rakomi_js.Core.JwtDecode.{Platform, decode_user, decode_session}
use rakomi_js.Core.TokenEndpoint.{Tokens}

-- `storage` is the item under the tenant's storage key; a timer is its delay in milliseconds.
pub record TokenRuntime : Type 0 where
  pub storage : Option Text
  pub access_token : Option Text
  pub expires_at_ms : Option ℕ
  pub current_user : Option UserResource
  pub current_session : Option SessionResource
  pub refreshing : Bool
  pub refresh_attempts : ℕ
  pub retry_timer : Option ℕ
  pub destroyed : Bool
  pub last_refresh_error : Option AuthError
  pub restore_pending : Bool
  pub machine : MachineSnapshot

-- `this.dispatch(action)`, which the provider gives to the reducer
unfoldable pub dispatch : MachineAction → TokenRuntime → TokenRuntime
dispatch action m = record m { machine = reduce m.machine action }

-- The last lines of `clear`
abbrev pub ending : Option AuthError → MachineAction
ending none = sign_out
ending (some e) = refresh_revoked e

-- `clear`
unfoldable pub clear : Option AuthError → TokenRuntime → TokenRuntime
unfolding dispatch
clear error m = dispatch (ending error) (record m {
  access_token = none;
  expires_at_ms = none;
  current_user = none;
  current_session = none;
  refreshing = false;
  refresh_attempts = 0;
  last_refresh_error = none;
  restore_pending = false;
  retry_timer = none;
  storage = none;
})

-- `destroy`
abbrev pub destroy : TokenRuntime → TokenRuntime
destroy m = record m { destroyed = true; retry_timer = none; refreshing = false }

-- `expires_in` of a token response: a whole number of seconds that is not negative.
abbrev pub seconds : Number → ℕ
seconds (int (pos n)) = n
seconds _ = 0

abbrev pub clamped_expires_in : ℕ → ℕ
clamped_expires_in n = max 10 (min 86400 n)

pub data Source : Type 0 where
  sign_in refresh restore : Source

-- `this.currentUser && this.currentUser.id !== user.id`
abbrev pub is_mismatch : Option UserResource → UserResource → Bool
is_mismatch none user = false
is_mismatch (some current) user = not (text_eq current.id user.id)

abbrev pub stored : Option Text → Option Text → Option Text
stored none old = old
stored (some token) old = if is_empty token then old else some (codes "v1:" ++ token)

-- The fields that `setTokens` writes.
abbrev pub with_tokens : Tokens → UserResource → SessionResource → ℕ → TokenRuntime → TokenRuntime
with_tokens response user session now m = record m {
  access_token = some response.access_token;
  expires_at_ms = some (now + clamped_expires_in (seconds response.expires_in) * 1000);
  refresh_attempts = 0;
  current_user = some user;
  current_session = some session;
  storage = stored response.refresh_token m.storage;
}

-- The action that `setTokens` ends with.
unfoldable pub announced : Source → UserResource → SessionResource → TokenRuntime → TokenRuntime
unfolding dispatch
announced refresh user session m = dispatch (refresh_success session) m
announced sign_in user session m = dispatch (sign_in_success user session) m
announced restore user session m = m

abbrev pub refused : Text → MachineAction
refused message = MachineAction.sign_in_failed (sign_in_failed message none)

module _ (platform : Platform) where
  -- `setTokens`, with the time of its one moment
  unfoldable pub set_tokens : Tokens → Source → ℕ → TokenRuntime → TokenRuntime
  unfolding clear dispatch announced
  set_tokens response source now m = elim (decode_user platform response.access_token) [
    | none ↦ dispatch (refused (codes "Invalid or missing JWT claims")) m
    | some user ↦
        if is_mismatch m.current_user user
        then clear (some (sign_in_failed (codes "session_mismatch on token set") none)) m
        else elim (decode_session platform response.access_token (seconds response.expires_in) now
            now now) [
              | none ↦ dispatch (refused (codes "Invalid session claims")) m
              | some decoded ↦
                  let session : SessionResource = record {
                    decoded = decoded;
                    is_expiring_soon = false;
                  } in
                  announced source user session (with_tokens response user session now m)
            ]
  ]

-- `getValidAccessToken`
unfoldable pub get_valid_access_token : ℕ → TokenRuntime → Option Text
get_valid_access_token now m = elim m.access_token [
  | none ↦ none
  | some token ↦ elim m.expires_at_ms [
    | none ↦ none
    | some at ↦ if is_empty token then none else if leb at (now + 60_000) then none else some token
  ]
]
