-- ===== src/Mobile/TokenRuntime/Refresh.antt =====
-- `performRefresh` and `doRefresh`, cut at the waits for the biometric gate and for the authorization
-- server. `during_restore` is the option that the running refresh has captured. What ends a refresh also
-- resets `refreshInFlight`.
use rakomi_js.Common.{ℕ, suc, Bool, true, false, ◌||◌, Option, none, some, drop, if◌then◌else◌}
use rakomi_js.Common.Text.{Text, codes, starts_with, is_empty}
use rakomi_js.Common.Results.{Result, ok, err, thrown}
use rakomi_js.Core.AuthError.{
  AuthError, refresh_failed, RefreshFailure, RefreshReason, get_error_message, status_of,
  oauth_error_of, request_id_of,
}
use rakomi_js.Core.AuthMachine.{
  MachineAction, restore_success, refresh_network_error, go_offline_stale,
}
use rakomi_js.Core.JwtDecode.{Platform}
use rakomi_js.Core.RefreshRetry.{RefreshRetryOnceOutcome, refresh_retry_delay_ms}
use rakomi_js.Core.TokenEndpoint.{Tokens, TokenFailure, refresh_outcome_unknown_error}
use rakomi_js.Mobile.DpopRefresh.{
  DpopRefreshError, network, dpop_prover_unavailable, DpopRefreshResult,
}
use rakomi_js.Mobile.TokenRuntime.State.{
  TokenRuntime, dispatch, clear, refresh, restore, set_tokens,
}

abbrev pub ended : TokenRuntime → TokenRuntime
ended m = record m { refreshing = false }

-- `performRefresh` up to the biometric gate: it joins the refresh under way, or starts one unless the
-- runtime is destroyed.
unfoldable pub perform_refresh : TokenRuntime → TokenRuntime
perform_refresh m = if m.refreshing || m.destroyed then m else record m { refreshing = true }

-- The end of the wait for the biometric gate.
pub data Gate : Type 0 where
  -- not enabled, or passed
  open_gate : Gate
  unavailable locked_out not_enrolled dismissed : Gate

abbrev pub revoked_error : Text → AuthError
revoked_error message = refresh_failed (record {
  reason = RefreshReason.revoked;
  message = message;
  request_id = none;
  status = none;
  oauth_error = none;
  retry_after_ms = none;
})

abbrev kept_or_cleared : Bool → Text → TokenRuntime → TokenRuntime
kept_or_cleared during_restore message m =
    ended (if during_restore then m else clear (some (revoked_error message)) m)

-- From the item that storage gives, if any: the second component is the refresh token that is sent.
unfoldable pub after_read : Option Text → TokenRuntime → TokenRuntime × Option Text
after_read none m = (ended m, none)
after_read (some raw) m =
    if is_empty raw
    then (ended m, none)
    else if starts_with raw (codes "v1:")
    then (m, some (drop 3 raw))
    else (ended (record m { storage = none }), none)

-- From the biometric gate to the request; `readable` says that storage's `getItem` does not throw.
unfoldable pub after_gate : Bool → Gate → Bool → TokenRuntime → TokenRuntime × Option Text
unfolding clear after_read
after_gate during_restore open_gate readable m = after_read (if readable then m.storage else none) m
after_gate during_restore unavailable readable m =
    (kept_or_cleared during_restore (codes "Biometric unavailable") m, none)
after_gate during_restore locked_out readable m =
    (kept_or_cleared during_restore (codes "Biometric lockout") m, none)
after_gate during_restore not_enrolled readable m =
    (kept_or_cleared during_restore (codes "Biometric not_enrolled") m, none)
after_gate during_restore dismissed readable m = (ended m, none)

-- `isAuthError`
unfoldable pub is_auth_error : AuthError → Bool
is_auth_error (refresh_failed f) = elim f.reason [
  | RefreshReason.expired ↦ true
  | RefreshReason.revoked ↦ true
  | RefreshReason.network ↦ false
]
is_auth_error _ = false

-- `toTransientError`, which is always of the code `REFRESH_FAILED`
abbrev to_network : AuthError → RefreshFailure
to_network e = record {
  reason = RefreshReason.network;
  message = get_error_message e;
  request_id = request_id_of e;
  status = status_of e;
  oauth_error = oauth_error_of e;
  retry_after_ms = none;
}

unfoldable pub to_transient_error : AuthError → RefreshFailure
to_transient_error (refresh_failed f) = elim f.reason [
  | RefreshReason.network ↦ f
  | _ ↦ to_network (refresh_failed f)
]
to_transient_error e = to_network e

-- `this.dispatch` unless a restore is pending
unfoldable pub dispatch_unless : Bool → MachineAction → TokenRuntime → TokenRuntime
unfolding dispatch
dispatch_unless restoring action m = if restoring then m else dispatch action m

-- The two ends of `scheduleRetry`: the retries are used up, or one is set.
unfoldable pub retry_in : AuthError → Option ℕ → TokenRuntime → TokenRuntime
unfolding dispatch_unless
retry_in e none m = dispatch_unless m.restore_pending go_offline_stale (
    dispatch_unless m.restore_pending (refresh_network_error e) (record m { refresh_attempts = 0 }))
retry_in e (some delay) m = record (dispatch_unless m.restore_pending (refresh_network_error e) m) {
  refresh_attempts = suc m.refresh_attempts;
  retry_timer = some delay;
}

-- `scheduleRetry`, with the random number of the delay
unfoldable pub schedule_retry : AuthError → Bool → ℕ → TokenRuntime → TokenRuntime
unfolding to_transient_error retry_in
schedule_retry error during_restore random m =
    let transient = to_transient_error error in
    let noted = record m {
      last_refresh_error = some (refresh_failed transient);
      restore_pending = if during_restore then true else m.restore_pending;
    } in
    retry_in (refresh_failed transient)
      (refresh_retry_delay_ms m.refresh_attempts transient.retry_after_ms random) noted

-- `error.cause ?? …`
abbrev pub cause_of : DpopRefreshError → AuthError
cause_of e = elim e.cause [
  | some cause ↦ cause
  | none ↦ refresh_failed (record {
    reason = RefreshReason.network;
    message = e.message;
    request_id = none;
    status = none;
    oauth_error = none;
    retry_after_ms = none;
  })
]

-- `handleDpopRefreshFailure`
unfoldable pub handle_dpop_refresh_failure :
    DpopRefreshError → Bool → ℕ → TokenRuntime → TokenRuntime
unfolding schedule_retry clear
handle_dpop_refresh_failure e during_restore random m = elim e.class [
  | network ↦ schedule_retry (cause_of e) during_restore random m
  | dpop_prover_unavailable ↦ m
  | _ ↦ clear (some (revoked_error e.message)) m
]

-- What the requests of a refresh end with: without a key, or with the key that the session is bound to.
pub data Answer : Type 0 where
  bearer : RefreshRetryOnceOutcome (Result TokenFailure Tokens) → Answer
  dpop : DpopRefreshResult → Answer

-- `outcome.uncertainAfter !== undefined ? … : outcome.result`
abbrev pub result_of :
    RefreshRetryOnceOutcome (Result TokenFailure Tokens) → Result AuthError Tokens
result_of outcome = elim outcome.uncertain_after [
  | some trigger ↦ err (refresh_outcome_unknown_error trigger)
  | none ↦ elim outcome.result [ ok tokens ↦ ok tokens | err f ↦ err f.error | thrown ↦ thrown ]
]

-- The last lines of `completeRefresh`
unfoldable pub resumed : Bool → TokenRuntime → TokenRuntime
unfolding dispatch
resumed resumed_restore m = elim m.current_user [
  | none ↦ m
  | some user ↦ elim m.current_session [
    | none ↦ m
    | some session ↦ if resumed_restore then dispatch (restore_success user session) m else m
  ]
]

module _ (platform : Platform) where
  -- `completeRefresh`
  unfoldable pub complete_refresh : Tokens → Bool → ℕ → TokenRuntime → TokenRuntime
  unfolding resumed
  complete_refresh tokens during_restore now m = resumed m.restore_pending (
      set_tokens platform tokens (if during_restore || m.restore_pending then restore else refresh)
        now (record m { restore_pending = false; refresh_attempts = 0; last_refresh_error = none }))

  -- The end of a refresh without a key
  unfoldable pub after_result : Bool → Result AuthError Tokens → ℕ → ℕ → TokenRuntime → TokenRuntime
  unfolding complete_refresh clear schedule_retry
  after_result during_restore (ok tokens) now random m =
      complete_refresh tokens during_restore now m
  after_result during_restore (err e) now random m =
      if is_auth_error e then clear (some e) m else schedule_retry e during_restore random m
  after_result during_restore thrown now random m = m

  -- The end of a refresh with a key
  unfoldable pub after_dpop : Bool → DpopRefreshResult → ℕ → ℕ → TokenRuntime → TokenRuntime
  unfolding complete_refresh handle_dpop_refresh_failure
  after_dpop during_restore (ok (tokens, attached)) now random m =
      complete_refresh tokens during_restore now m
  after_dpop during_restore (err e) now random m =
      handle_dpop_refresh_failure e during_restore random m
  after_dpop during_restore thrown now random m = m

  -- `doRefresh` from the answer on
  unfoldable pub after_answer : Bool → Answer → ℕ → ℕ → TokenRuntime → TokenRuntime
  unfolding after_result after_dpop
  after_answer during_restore (bearer outcome) now random m =
      ended (after_result during_restore (result_of outcome) now random m)
  after_answer during_restore (dpop result) now random m =
      ended (after_dpop during_restore result now random m)
