-- ===== src/Core/AuthMachine.antt =====
-- packages/sdk-core/src/auth-machine.ts: the auth state machine, a reducer without effects.
pub mod Invariant
pub mod Session
use rakomi_js.Common.{
  ℕ, Bool, true, false, Option, none, some, leb, ◌||◌, if◌then◌else◌, List, [], ◌∷◌,
}
use rakomi_js.Common.Text.{Text}
use rakomi_js.Core.AuthError.{AuthError}
use rakomi_js.Core.Types.{
  UserResource, SessionResource, AuthMachineState, idle, authenticating, awaiting_mfa,
  authenticated, refreshing, offline_stale,
}

pub record MachineSnapshot : Type 0 where
  pub state : AuthMachineState
  pub user : Option UserResource
  pub session : Option SessionResource
  pub error : Option AuthError
  pub challenge_token : Option Text
  pub challenge_acr : Option Text

pub data MachineAction : Type 0 where
  init : MachineAction
  restore_success : UserResource → SessionResource → MachineAction
  restore_failed : MachineAction
  sign_in_start : MachineAction
  sign_in_success : UserResource → SessionResource → MachineAction
  -- challengeToken, expiresIn, requiredAcr
  mfa_required : Text → ℕ → Option Text → MachineAction
  mfa_verified : UserResource → SessionResource → MachineAction
  sign_in_failed : AuthError → MachineAction
  refresh_start : MachineAction
  refresh_success : SessionResource → MachineAction
  refresh_network_error : AuthError → MachineAction
  refresh_revoked : AuthError → MachineAction
  go_offline_stale : MachineAction
  back_online : MachineAction
  sign_out : MachineAction

-- A literal that names four fields; the challenge fields are absent.
abbrev plain :
    AuthMachineState
    → Option UserResource
    → Option SessionResource
    → Option AuthError
    → MachineSnapshot
plain state user session error = record {
  state = state;
  user = user;
  session = session;
  error = error;
  challenge_token = none;
  challenge_acr = none;
}

abbrev pub initial_snapshot : MachineSnapshot
initial_snapshot = plain idle none none none

abbrev is_authenticated : AuthMachineState → Bool
is_authenticated authenticated = true
is_authenticated _ = false

abbrev is_refreshing : AuthMachineState → Bool
is_refreshing refreshing = true
is_refreshing _ = false

abbrev is_offline_stale : AuthMachineState → Bool
is_offline_stale offline_stale = true
is_offline_stale _ = false

unfoldable pub reduce : MachineSnapshot → MachineAction → MachineSnapshot
reduce s init = initial_snapshot
reduce s (restore_success user session) = plain authenticated (some user) (some session) none
reduce s restore_failed = plain idle none none none
reduce s sign_in_start = record s { state = authenticating; error = none }
reduce s (sign_in_success user session) = plain authenticated (some user) (some session) none
reduce s (mfa_verified user session) = plain authenticated (some user) (some session) none
reduce s (mfa_required token expires_in acr) = record s {
  state = awaiting_mfa;
  challenge_token = some token;
  challenge_acr = acr;
  error = none;
}
reduce s (sign_in_failed e) = plain AuthMachineState.error none none (some e)
reduce s refresh_start =
    if is_authenticated s.state || is_offline_stale s.state
    then record s { state = refreshing; error = none }
    else s
reduce s (refresh_success session) = record s {
  state = authenticated;
  session = some session;
  error = none;
}
reduce s (refresh_network_error e) = record s { state = authenticated; error = some e }
reduce s (refresh_revoked e) = plain idle none none (some e)
reduce s go_offline_stale =
    if is_authenticated s.state || is_refreshing s.state
    then record s { state = offline_stale }
    else s
reduce s back_online = record s {
  state = if is_offline_stale s.state then authenticated else s.state;
}
reduce s sign_out = initial_snapshot

-- `isSignedIn`
unfoldable pub is_signed_in : MachineSnapshot → Bool
is_signed_in s = is_authenticated s.state || is_refreshing s.state || is_offline_stale s.state

-- `shouldRefresh`; the source's default threshold is 60 seconds
unfoldable pub should_refresh : Option SessionResource → ℕ → Bool
should_refresh none threshold = false
should_refresh (some session) threshold = leb session.expires_in_seconds threshold

-- Folding the reducer over the actions that a runtime dispatches.
unfoldable pub reduce_all : MachineSnapshot → List MachineAction → MachineSnapshot
reduce_all s [] = s
reduce_all s (a ∷ as') = reduce_all (reduce s a) as'
