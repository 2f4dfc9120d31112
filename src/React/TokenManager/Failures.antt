-- ===== src/React/TokenManager/Failures.antt =====
-- What a refresh that fails leaves.
use rakomi_js.Common.{
  ℕ, ◌≤◌, suc, Bool, true, false, not, Option, none, some, List, [], ◌∷◌, ◌≡◌, ◌≢◌, ◌⊎◌, inl, inr,
  refl, arith,
}
use rakomi_js.Common.Text.{Text}
use rakomi_js.Common.Number.{Number}
use rakomi_js.Core.Types.{UserResource}
use rakomi_js.Core.JwtDecode.{Platform}
use rakomi_js.Core.AuthError.{AuthError, network_error}
use rakomi_js.Core.RefreshRetry.{refresh_retry_delay_ms}
use rakomi_js.Core.RefreshRetry.Delay.{delay_budget}
use rakomi_js.React.TokenManager.State.{
  EventType, token_refreshed, signed_out, OAuthTokenResponse, logged, AuthState, loading,
  signed_out_state, signed_in, TokenManager, clear_internal, set_tokens, fire,
}
use rakomi_js.React.TokenManager.Refresh.{
  Lock, timed_out, acquired, Answer, tokens, failed, exception, is_auth_error, to_transient_error,
  schedule_retry, retry_in, with_error, after_lock, after_answer, perform_refresh,
}
use rakomi_js.React.TokenManager.Steps.{
  Event, asks, locks, answers, restores, restore_ends, retries, goes_offline, goes_online,
  signs_out, receives_tokens, sign_in_fails, warns, hears, restore, after_restore, go_online,
  retry_fires, on_message, step, run,
}

-- The user and the session of a snapshot.
abbrev pub who : AuthState → Option (UserResource × Text)
who (signed_in s) = some (s.user, s.session_id)
who _ = none

-- The answer is a failure that does not end the session.
abbrev pub is_transient : Answer → Bool
is_transient (tokens response) = false
is_transient (failed e) = not (is_auth_error e)
is_transient (exception message) = true

module _ (platform : Platform) (threshold : ℕ) where
  -- A refresh that is refused because the refresh token is expired or revoked leaves the tab
  -- exactly as a sign-out of it does.
  pub definitive_signs_out :
      (m : TokenManager) (e : AuthError) (now random : ℕ)
      → is_auth_error e ≡ true
      → step platform threshold m (answers (failed e) now random)
        ≡ step platform threshold m signs_out
  unfolding step after_answer clear_internal
  definitive_signs_out m e now random h = rw h refl

  abbrev pub IsSameSession : TokenManager → TokenManager → Type 0
  IsSameSession m m' =
      (m'.storage ≡ m.storage)
      × (m'.access_token ≡ m.access_token)
      × (m'.expires_at ≡ m.expires_at)
      × (m'.sent ≡ m.sent)
      × (who m'.cached_snapshot ≡ who m.cached_snapshot)
      × (m'.last_refresh_error ≢ none)

  who-with_error : (e : AuthError) (b : Bool) (s : AuthState) → who (with_error e b s) ≡ who s
  who-with_error e b loading = refl
  who-with_error e b (signed_out_state old) = refl
  who-with_error e b (signed_in s) = refl

  retry_in_keeps :
      (e : AuthError) (d : Option ℕ) (m : TokenManager) → IsSameSession m (retry_in e d m)
  retry_in_keeps e none m =
      (refl, refl, refl, refl, who-with_error e m.is_expiring_soon m.cached_snapshot, λ h. cc)
  retry_in_keeps e (some d) m =
      (refl, refl, refl, refl, who-with_error e m.is_expiring_soon m.cached_snapshot, λ h. cc)

  -- If the server's answer to a refresh is an error, but not that the refresh token is expired or revoked, or
  -- the request ends with an exception, then the session is kept: the stored refresh token, the access token and its expiry, who is signed in and in
  -- which session stay as they are, nothing is sent to the other tabs, and the error is there to be
  -- read.
  pub transient_keeps_session :
      (m : TokenManager) (answer : Answer) (now random : ℕ)
      → is_transient answer ≡ true
      → IsSameSession m (step platform threshold m (answers answer now random))
  unfolding step after_answer schedule_retry
  transient_keeps_session m (tokens response) now random h = cc
  transient_keeps_session m (failed e) now random h =
      let goes_on : is_auth_error e ≡ false = ground arith in
      rw goes_on (retry_in_keeps _ _ (logged EventType.refresh_failed m))
  transient_keeps_session m (exception message) now random h =
      retry_in_keeps _ _ (logged EventType.refresh_failed m)

  fire_attempts :
      (effective : Number) (now : ℕ) (m : TokenManager)
      → (fire platform threshold effective now m).refresh_attempts ≡ m.refresh_attempts
  unfolding fire
  fire_attempts effective now m = ground arith

  set_tokens_attempts :
      (response : OAuthTokenResponse) (now : ℕ) (m : TokenManager)
      → (set_tokens platform threshold response now m).refresh_attempts ≡ 0
  unfolding set_tokens clear_internal
  set_tokens_attempts response now m = ground arith

  retry_in_attempts :
      (e : AuthError) (d : Option ℕ) (m : TokenManager)
      → (d ≡ none) ⊎ (suc m.refresh_attempts ≤ 3)
      → (retry_in e d m).refresh_attempts ≤ 3
  retry_in_attempts e none m h = omega arith
  retry_in_attempts e (some d) m (inl h) = cc
  retry_in_attempts e (some d) m (inr h) = h

  schedule_retry_attempts :
      (e : AuthError) (random : ℕ) (m : TokenManager)
      → m.refresh_attempts ≤ 3
      → (schedule_retry e random m).refresh_attempts ≤ 3
  unfolding schedule_retry
  schedule_retry_attempts e random m h =
      let after = (to_transient_error e).retry_after_ms in
      retry_in_attempts _ (refresh_retry_delay_ms m.refresh_attempts after random) m
        (ground (arith, delay_budget m.refresh_attempts random after))

  after_answer_attempts :
      (answer : Answer) (now random : ℕ) (m : TokenManager)
      → m.refresh_attempts ≤ 3
      → (after_answer platform threshold answer now random m).refresh_attempts ≤ 3
  unfolding after_answer clear_internal
  after_answer_attempts (tokens response) now random m h =
      let succeeded = record (logged EventType.refresh_succeeded m) {
        refresh_attempts = 0;
        last_refresh_error = none;
      } in
      omega (arith, set_tokens_attempts response now succeeded)
  after_answer_attempts (failed e) now random m h =
      ground (arith, schedule_retry_attempts e random (logged EventType.refresh_failed m) h)
  after_answer_attempts (exception message) now random m h =
      schedule_retry_attempts (network_error message none) random
        (logged EventType.refresh_failed m) h

  perform_refresh_attempts :
      (m : TokenManager) → (perform_refresh m).refresh_attempts ≡ m.refresh_attempts
  unfolding perform_refresh
  perform_refresh_attempts m = ground arith

  after_lock_attempts :
      (lock : Lock) (m : TokenManager)
      → m.refresh_attempts ≤ 3
      → (after_lock lock m).0.refresh_attempts ≤ 3
  unfolding after_lock clear_internal
  after_lock_attempts timed_out m h = h
  after_lock_attempts (acquired none) m h = h
  after_lock_attempts (acquired (some raw)) m h = ground arith

  step_attempts :
      (m : TokenManager) (e : Event)
      → m.refresh_attempts ≤ 3
      → (step platform threshold m e).refresh_attempts ≤ 3
  unfolding step restore after_restore go_online retry_fires on_message clear_internal
  step_attempts m asks h = omega (arith, perform_refresh_attempts m)
  step_attempts m (locks lock) h = after_lock_attempts lock m h
  step_attempts m (answers answer now random) h = after_answer_attempts answer now random m h
  step_attempts m restores h =
      ground (arith, perform_refresh_attempts (logged EventType.restore_attempted m))
  step_attempts m (restore_ends true) h = h
  step_attempts m (restore_ends false) h = h
  step_attempts m retries h =
      ground (arith, perform_refresh_attempts (record m { retry_timer = none }))
  step_attempts m goes_offline h = h
  step_attempts m goes_online h =
      omega (arith, perform_refresh_attempts (record m { is_offline = false }))
  step_attempts m signs_out h = omega arith
  step_attempts m (receives_tokens response now) h =
      omega (arith, set_tokens_attempts response now m)
  step_attempts m (sign_in_fails e) h = h
  step_attempts m (warns effective now) h = omega (arith, fire_attempts effective now m)
  step_attempts m (hears signed_out now) h = omega arith
  step_attempts m (hears token_refreshed now) h =
      ground (arith, perform_refresh_attempts (logged EventType.tab_sync_received m))

  -- If at most three retries are counted at the start, at most three are at the end of any history.
  pub retries_bounded :
      (m : TokenManager) (es : List Event)
      → m.refresh_attempts ≤ 3
      → (run platform threshold m es).refresh_attempts ≤ 3
  unfolding run
  retries_bounded m [] h = h
  retries_bounded m (e ∷ es) h =
      retries_bounded (step platform threshold m e) es (step_attempts m e h)
