-- ===== src/Core/AuthMachine/Invariant.antt =====
-- What every snapshot that the machine reaches satisfies, if the outcome of a refresh is dispatched only while the
-- machine is refreshing; and what a late outcome does.
use rakomi_js.Common.{true, none, List, [], ◌∷◌, ◌≡◌, ◌≢◌, refl, arith}
use rakomi_js.Core.AuthError.{AuthError}
use rakomi_js.Core.Types.{AuthMachineState, awaiting_mfa, refreshing}
use rakomi_js.Core.AuthMachine.{
  MachineSnapshot, MachineAction, refresh_success, refresh_network_error, initial_snapshot, reduce,
  is_signed_in, reduce_all,
}

-- A signed-in snapshot has a user and a session, a pending MFA challenge has its token, and the
-- state `error` has its error.
pub record IsConsistent (s : MachineSnapshot) : Type 0 where
  pub has_user : is_signed_in s ≡ true → s.user ≢ none
  pub has_session : is_signed_in s ≡ true → s.session ≢ none
  pub has_challenge : s.state ≡ awaiting_mfa → s.challenge_token ≢ none
  pub has_error : s.state ≡ AuthMachineState.error → s.error ≢ none

-- The outcome of a refresh is dispatched only while the machine is refreshing.
abbrev pub InOrder : MachineSnapshot → MachineAction → Type 0
InOrder s (refresh_success session) = s.state ≡ refreshing
InOrder s (refresh_network_error e) = s.state ≡ refreshing
InOrder s _ = Unit

abbrev pub AllInOrder : MachineSnapshot → List MachineAction → Type 0
AllInOrder s [] = Unit
AllInOrder s (a ∷ as') = InOrder s a × AllInOrder (reduce s a) as'

pub reduce-IsConsistent :
    (s : MachineSnapshot) (a : MachineAction)
    → IsConsistent s
    → InOrder s a
    → IsConsistent (reduce s a)
unfolding reduce is_signed_in
reduce-IsConsistent s (refresh_success session) h o = ground arith
reduce-IsConsistent s _ h o = ground arith

-- From a consistent snapshot, any list of actions in which the outcome of a refresh comes only
-- while the machine is refreshing ends in a consistent snapshot: signed in means that there are a
-- user and a session, a pending challenge has its token, and the state `error` has an error.
pub reduce_all-IsConsistent :
    (s : MachineSnapshot) (actions : List MachineAction)
    → IsConsistent s
    → AllInOrder s actions
    → IsConsistent (reduce_all s actions)
unfolding reduce_all
reduce_all-IsConsistent s [] h o = h
reduce_all-IsConsistent s (a ∷ as') h o =
    reduce_all-IsConsistent (reduce s a) as' (reduce-IsConsistent s a h o.0) o.1

pub initial_snapshot-IsConsistent : IsConsistent initial_snapshot
unfolding is_signed_in
initial_snapshot-IsConsistent = ground arith

-- A network failure of a refresh that arrives when nobody is signed in (its sign-out came first)
-- makes the snapshot signed in with no user: the reducer does not check the state it comes from.
pub late_refresh_signs_in :
    (s : MachineSnapshot) (e : AuthError)
    → s.user ≡ none
    → (is_signed_in (reduce s (refresh_network_error e)) ≡ true)
      × ((reduce s (refresh_network_error e)).user ≡ none)
      × (¬ IsConsistent (reduce s (refresh_network_error e)))
unfolding reduce is_signed_in
late_refresh_signs_in s e h = (refl, h, λ c. c.has_user refl h)
