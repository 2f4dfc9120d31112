-- ===== src/React/TokenManager/Erasure.antt =====
-- What a sign-out leaves, and what can come after it.
use rakomi_js.Common.{ℕ, Bool, true, false, none, some, ◌++◌, ◌≡◌, refl, arith, ap, ◌∙◌, ◌+◌, ◌*◌}
use rakomi_js.Common.Number.{Number}
use rakomi_js.Common.Text.{Text, codes, is_empty}
use rakomi_js.Core.Types.{UserResource, DecodedSession}
use rakomi_js.Core.JwtDecode.{Platform, decode_user, decode_session, min_or}
use rakomi_js.React.TokenManager.State.{
  EventType, logged, max_lifetime_of, signed_out, OAuthTokenResponse, TokenManager, clear_internal,
  is_signed_in, make_signed_in_snapshot, set_tokens, schedule_expiry_warning, fire, seconds_to,
  clamped,
}
use rakomi_js.React.TokenManager.Refresh.{tokens, after_answer}
use rakomi_js.React.TokenManager.Warning.{fire_keeps, ready, ready_shows, ready_storage}
use rakomi_js.React.TokenManager.Steps.{answers, signs_out, hears, on_message, step}

module _ (platform : Platform) (threshold : ℕ) where
  -- A tab that signs out a second time stays exactly as it is, and sends nothing. A tab that hears of a
  -- sign-out in another tab signs out and sends nothing, then or at a sign-out of its own: signals do
  -- not echo between tabs.
  pub sign_out_once :
      (m : TokenManager) (now : ℕ)
      → let out = step platform threshold m signs_out in
        let heard = step platform threshold m (hears signed_out now) in
        (step platform threshold out signs_out ≡ out)
        × (heard ≡ record out { sent = m.sent })
        × (step platform threshold heard signs_out ≡ heard)
  unfolding step on_message
  sign_out_once m now = (refl, refl, refl)

  make_signed_in_snapshot-is_signed_in :
      (token : Text) (u : UserResource) (s : DecodedSession) (e e' now now' : ℕ) (soon : Bool)
      → decode_user platform token ≡ some u
      → decode_session platform token e now now now ≡ some s
      → is_signed_in (make_signed_in_snapshot platform token e' soon now') ≡ true
  unfolding make_signed_in_snapshot decode_session
  make_signed_in_snapshot-is_signed_in token u s e e' now now' soon du ds = ground arith

  fire-is_signed_in :
      (effective : Number) (now : ℕ) (m : TokenManager) (token : Text)
      → ((e n : ℕ) (b : Bool) → is_signed_in (make_signed_in_snapshot platform token e b n) ≡ true)
      → m.access_token ≡ some token
      → is_signed_in m.cached_snapshot ≡ true
      → is_signed_in (fire platform threshold effective now m).cached_snapshot ≡ true
  unfolding fire
  fire-is_signed_in effective now m token decodes h k =
      ground (arith, decodes (seconds_to m.expires_at now) now true)

  set_tokens_signs_in :
      (m : TokenManager) (response : OAuthTokenResponse) (refresh_token : Text) (now : ℕ)
      → m.access_token ≡ none
      → ((e n : ℕ) (b : Bool)
          → is_signed_in (make_signed_in_snapshot platform response.access_token e b n) ≡ true)
      → response.refresh_token ≡ some refresh_token
      → is_empty refresh_token ≡ false
      → let m' = set_tokens platform threshold response now m in
        (m'.access_token ≡ some response.access_token)
        × (m'.storage ≡ some (codes "v1:" ++ refresh_token))
        × (is_signed_in m'.cached_snapshot ≡ true)
  unfolding set_tokens schedule_expiry_warning
  set_tokens_signs_in m response refresh_token now none_before decodes r ne =
      let (token, shown) = ready_shows platform threshold response now m in
      let stored' = ready_storage platform threshold response refresh_token now m r ne in
      let tab = ready platform threshold response now m in
      let effective =
        min_or (now + clamped response.expires_in * 1000)
          (max_lifetime_of platform response.access_token) in
      let (same_token, same_storage) = fire_keeps platform threshold effective now tab in
      let still =
        fire-is_signed_in effective now tab response.access_token decodes token
          (ap is_signed_in shown ∙ decodes (clamped response.expires_in) now false) in
      rw none_before (same_token ∙ token, same_storage ∙ stored', still)

  -- A sign-out is undone by the answer of a refresh that comes after it: when tokens arrive whose
  -- access token decodes to a user and a session, with a refresh token, the tab holds the access
  -- token, the refresh token is in storage, and someone is signed in.
  pub late_answer_signs_in :
      (m : TokenManager) (response : OAuthTokenResponse) (refresh_token : Text) (now random : ℕ)
      (u : UserResource) (s : DecodedSession)
      → decode_user platform response.access_token ≡ some u
      → decode_session platform response.access_token (clamped response.expires_in) now now now
        ≡ some s
      → response.refresh_token ≡ some refresh_token
      → is_empty refresh_token ≡ false
      → let late =
          step platform threshold
            (step platform threshold m signs_out)
            (answers (tokens response) now random) in
        (late.access_token ≡ some response.access_token)
        × (late.storage ≡ some (codes "v1:" ++ refresh_token))
        × (is_signed_in late.cached_snapshot ≡ true)
  unfolding step after_answer clear_internal
  late_answer_signs_in m response refresh_token now random u s du ds r ne =
      set_tokens_signs_in
        (record (logged EventType.refresh_succeeded (clear_internal none true m)) {
          refresh_attempts = 0;
          last_refresh_error = none;
        })
        response refresh_token now refl
        (λ e n b. make_signed_in_snapshot-is_signed_in response.access_token u s _ e now n b du ds)
        r ne
