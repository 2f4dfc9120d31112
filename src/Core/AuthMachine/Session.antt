-- ===== src/Core/AuthMachine/Session.antt =====
-- Which actions keep a user signed in.
use rakomi_js.Common.{Bool, true, false, List, [], ◌∷◌, ◌≡◌, ◌↔◌, refl, arith}
use rakomi_js.Core.AuthMachine.{
  MachineSnapshot, MachineAction, init, restore_failed, sign_in_start, mfa_required, sign_in_failed,
  refresh_start, refresh_success, refresh_network_error, refresh_revoked, go_offline_stale,
  back_online, sign_out, reduce, is_signed_in, reduce_all,
}

-- The actions of a background refresh and of the connection: none of them is the user's.
abbrev pub is_background : MachineAction → Bool
is_background refresh_start = true
is_background (refresh_success session) = true
is_background (refresh_network_error e) = true
is_background go_offline_stale = true
is_background back_online = true
is_background _ = false

abbrev pub AllBackground : List MachineAction → Type 0
AllBackground [] = Unit
AllBackground (a ∷ as') = (is_background a ≡ true) × AllBackground as'

background_is_signed_in :
    (s : MachineSnapshot) (a : MachineAction)
    → is_background a ≡ true
    → is_signed_in s ≡ true
    → (is_signed_in (reduce s a) ≡ true) × ((reduce s a).user ≡ s.user)
unfolding reduce is_signed_in
background_is_signed_in s refresh_start b h = ground arith
background_is_signed_in s _ b h = ground arith

-- However refreshes start, succeed or fail for want of a network, and however the connection comes
-- and goes, a signed-in snapshot stays signed in and keeps its user.
pub background_keeps_user :
    (s : MachineSnapshot) (actions : List MachineAction)
    → AllBackground actions
    → is_signed_in s ≡ true
    → (is_signed_in (reduce_all s actions) ≡ true) × ((reduce_all s actions).user ≡ s.user)
unfolding reduce_all
background_keeps_user s [] b h = (h, refl)
background_keeps_user s (a ∷ as') b h =
    let (still, same) = background_is_signed_in s a b.0 h in
    let (stays, kept) = background_keeps_user (reduce s a) as' b.1 still in
    (stays, ground (arith, kept, same))

-- The actions that end a session or replace it by an unfinished sign-in.
abbrev pub ends_session : MachineAction → Bool
ends_session init = true
ends_session restore_failed = true
ends_session sign_in_start = true
ends_session (mfa_required token expires_in acr) = true
ends_session (sign_in_failed e) = true
ends_session (refresh_revoked e) = true
ends_session sign_out = true
ends_session _ = false

-- A signed-in snapshot stops being signed in exactly by the actions that end a session or replace
-- it by an unfinished sign-in: `INIT`, `RESTORE_FAILED`, `SIGN_IN_START`, `MFA_REQUIRED`,
-- `SIGN_IN_FAILED`, `REFRESH_REVOKED` and `SIGN_OUT`.
pub reduce-is_signed_in_iff :
    (s : MachineSnapshot) (a : MachineAction)
    → is_signed_in s ≡ true
    → (is_signed_in (reduce s a) ≡ false) ↔ (ends_session a ≡ true)
unfolding reduce is_signed_in
reduce-is_signed_in_iff s init h = ground arith
reduce-is_signed_in_iff s _ h = ground arith
