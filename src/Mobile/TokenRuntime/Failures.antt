-- ===== src/Mobile/TokenRuntime/Failures.antt =====
-- What a refresh that fails leaves.
use rakomi_js.Common.{ℕ, Bool, true, false, none, some, ◌≡◌, ◌≢◌, refl, arith}
use rakomi_js.Common.Results.{Result, err}
use rakomi_js.Core.AuthError.{AuthError}
use rakomi_js.Core.AuthMachine.{reduce, is_signed_in, initial_snapshot}
use rakomi_js.Core.JwtDecode.{Platform}
use rakomi_js.Core.RefreshRetry.{RefreshRetryOnceOutcome}
use rakomi_js.Core.TokenEndpoint.{Tokens, TokenFailure}
use rakomi_js.Mobile.TokenRuntime.State.{TokenRuntime, dispatch, clear}
use rakomi_js.Mobile.TokenRuntime.Refresh.{
  bearer, after_answer, after_result, result_of, is_auth_error, schedule_retry, retry_in,
  dispatch_unless,
}
use rakomi_js.Mobile.TokenRuntime.Steps.{signs_out, answers, step}

-- The tokens, the user and the session of the runtime are those of another.
abbrev pub IsSameSession : TokenRuntime → TokenRuntime → Type 0
IsSameSession m m' =
    (m'.storage ≡ m.storage)
    × (m'.access_token ≡ m.access_token)
    × (m'.expires_at_ms ≡ m.expires_at_ms)
    × (m'.current_user ≡ m.current_user)
    × (m'.current_session ≡ m.current_session)

-- The session stays, the app stays signed in with its user, and an error is kept.
abbrev pub IsKept : TokenRuntime → TokenRuntime → Type 0
IsKept m m' =
    IsSameSession m m'
    × (is_signed_in m'.machine ≡ true)
    × (m'.machine.user ≡ m.machine.user)
    × (m'.last_refresh_error ≢ none)

schedule_retry-IsKept :
    (e : AuthError) (b : Bool) (random : ℕ) (m : TokenRuntime)
    → is_signed_in m.machine ≡ true
    → IsKept m (schedule_retry e b random m)
unfolding schedule_retry retry_in dispatch_unless dispatch reduce is_signed_in
schedule_retry-IsKept e b random m signed = ground arith

module _ (platform : Platform) where
  -- If the requests of a refresh without a key (of a session that is not bound by DPoP) end with an error
  -- that does not end the session while the app is signed in, then the stored refresh token, the access token, the user and the session stay, the machine stays
  -- signed in with its user, and an error is kept for `getToken`.
  pub runtime_keeps_session :
      (m : TokenRuntime) (during_restore : Bool)
      (outcome : RefreshRetryOnceOutcome (Result TokenFailure Tokens)) (e : AuthError)
      (now random : ℕ)
      → result_of outcome ≡ err e
      → is_auth_error e ≡ false
      → is_signed_in m.machine ≡ true
      → IsKept m (step platform m (answers during_restore (bearer outcome) now random))
  unfolding step after_answer after_result
  runtime_keeps_session m during_restore outcome e now random failed transient signed =
      rw (failed, transient) (schedule_retry-IsKept e during_restore random m signed)

  -- If the requests of a refresh without a key end with an error that ends the session, then nothing of the session is
  -- left: the runtime is that of a sign-out, except that the machine keeps the error.
  pub runtime_signs_out :
      (m : TokenRuntime) (during_restore : Bool)
      (outcome : RefreshRetryOnceOutcome (Result TokenFailure Tokens)) (e : AuthError)
      (now random : ℕ)
      → result_of outcome ≡ err e
      → is_auth_error e ≡ true
      → let out = step platform m signs_out in
        (out.storage ≡ none)
        × (out.current_user ≡ none)
        × (out.machine ≡ initial_snapshot)
        × (step platform m (answers during_restore (bearer outcome) now random)
            ≡ record out { machine = record initial_snapshot { error = some e } })
  unfolding step after_answer after_result clear dispatch reduce
  runtime_signs_out m during_restore outcome e now random failed definitive =
      (refl, refl, refl, rw (failed, definitive) refl)
