-- ===== src/Mobile/TokenRuntime/Steps.antt =====
-- The histories of an app: calls, timers, connection changes and answers, in any order, with the dispatches
-- of packages/react-native/src/context.tsx. They include some that the platform does not produce, such as an
-- answer to a request that was not sent.
use rakomi_js.Common.{
  ℕ, Bool, true, false, Option, none, some, List, [], ◌∷◌, if◌then◌else◌, is_some,
}
use rakomi_js.Common.Text.{Text, codes}
use rakomi_js.Core.AuthError.{csrf_mismatch}
use rakomi_js.Core.AuthMachine.{
  MachineAction, restore_success, restore_failed, refresh_start, go_offline_stale, back_online,
  initial_snapshot,
}
use rakomi_js.Core.JwtDecode.{Platform}
use rakomi_js.Core.TokenEndpoint.{Tokens}
use rakomi_js.Mobile.TokenRuntime.State.{
  TokenRuntime, dispatch, clear, destroy, sign_in, set_tokens, get_valid_access_token,
}
use rakomi_js.Mobile.TokenRuntime.Refresh.{perform_refresh, Gate, after_gate, Answer, after_answer}

-- A new runtime over what storage holds, before `restore`.
abbrev pub initial : Option Text → TokenRuntime
initial storage = record {
  storage = storage;
  access_token = none;
  expires_at_ms = none;
  current_user = none;
  current_session = none;
  refreshing = false;
  refresh_attempts = 0;
  retry_timer = none;
  destroyed = false;
  last_refresh_error = none;
  restore_pending = false;
  machine = initial_snapshot;
}

-- `restore` from the result of the refresh on
unfoldable pub after_restore : Bool → TokenRuntime → TokenRuntime
unfolding dispatch
after_restore false m = dispatch restore_failed m
after_restore true m = elim m.current_user [
  | none ↦ dispatch restore_failed m
  | some user ↦ elim m.current_session [
    | none ↦ dispatch restore_failed m
    | some session ↦ dispatch (restore_success user session) m
  ]
]

-- `refreshOnForeground` up to its wait
unfoldable pub refresh_on_foreground : TokenRuntime → TokenRuntime
unfolding dispatch perform_refresh
refresh_on_foreground m =
    if m.refreshing
    then m
    else if m.restore_pending
    then perform_refresh m
    else if is_some m.current_user
    then perform_refresh (dispatch refresh_start m)
    else m

-- `getToken` up to its answer or its wait
unfoldable pub ask : ℕ → TokenRuntime → TokenRuntime
unfolding get_valid_access_token perform_refresh
ask now m = if is_some (get_valid_access_token now m) then m else perform_refresh m

pub data Event : Type 0 where
  asks : ℕ → Event
  restores foregrounds retries goes_offline goes_online signs_out destroys : Event
  restore_ends : Bool → Event
  -- `duringRestore`, the gate, and whether storage can be read
  gates : Bool → Gate → Bool → Event
  -- `duringRestore`, the answer, the time and the random number of a delay
  answers : Bool → Answer → ℕ → ℕ → Event
  -- `submitOAuthTokens` with a nonce that is accepted, or that is not
  submits : Tokens → ℕ → Event
  refuses_nonce : Event

module _ (platform : Platform) where
  unfoldable pub step : TokenRuntime → Event → TokenRuntime
  unfolding ask perform_refresh refresh_on_foreground dispatch clear after_restore after_gate
      after_answer
  step m (asks now) = ask now m
  step m restores = perform_refresh m
  step m foregrounds = refresh_on_foreground m
  step m retries = perform_refresh (record m { retry_timer = none })
  step m goes_offline = dispatch go_offline_stale m
  step m goes_online = refresh_on_foreground (dispatch back_online m)
  step m signs_out = clear none m
  step m destroys = destroy m
  step m (restore_ends success) = after_restore success m
  step m (gates during_restore gate readable) = (after_gate during_restore gate readable m).0
  step m (answers during_restore answer now random) =
      after_answer platform during_restore answer now random m
  step m (submits tokens now) = set_tokens platform tokens sign_in now m
  step m refuses_nonce =
      dispatch
        (MachineAction.sign_in_failed
          (csrf_mismatch (codes "Submit nonce missing or expired") none))
        m

  unfoldable pub run : TokenRuntime → List Event → TokenRuntime
  unfolding step
  run m [] = m
  run m (e ∷ es) = run (step m e) es
