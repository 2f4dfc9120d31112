-- ===== src/React/TokenManager/Continuity.antt =====
-- A tab does not pass from one user to another without a sign-out in between.
use rakomi_js.Common.{
  ℕ, ◌+◌, ◌*◌, Bool, true, false, not, Option, none, some, List, [], ◌∷◌, ◌≡◌, ◌⊎◌, inl, inr, refl,
  sym, ap, ◌∙◌, arith, Option-cases, Bool-cases, is_some,
}
use rakomi_js.Common.Text.{Text, codes, starts_with, is_empty, text_eq_iff, text_eq_refl}
use rakomi_js.Common.Number.{Number}
use rakomi_js.Core.AuthError.{AuthError, refresh_failed, network_error}
use rakomi_js.Core.JwtDecode.{Platform, min_or}
use rakomi_js.Core.RefreshRetry.{refresh_retry_delay_ms}
use rakomi_js.React.TokenManager.State.{
  EventType, token_refreshed, signed_out, OAuthTokenResponse, AuthState, loading, signed_out_state,
  signed_in, TokenManager, logged, clear_internal, make_signed_in_snapshot, remade, fire,
  user_id_of, is_mismatch, get_access_token, set_tokens, schedule_expiry_warning, clamped,
  max_lifetime_of, seconds_to,
}
use rakomi_js.React.TokenManager.Refresh.{
  Lock, timed_out, acquired, Answer, tokens, failed, exception, to_transient_error, schedule_retry,
  retry_in, with_error, after_lock, after_answer, perform_refresh, is_auth_error,
}
use rakomi_js.React.TokenManager.Warning.{fire_keeps, ready, ready_shows}
use rakomi_js.React.TokenManager.Steps.{
  Event, asks, locks, answers, restores, restore_ends, retries, goes_offline, goes_online,
  signs_out, receives_tokens, sign_in_fails, warns, hears, restore, after_restore, go_online,
  retry_fires, on_message, step, run, initial,
}

-- The id of the user that a snapshot shows as signed in.
abbrev pub shown_user : AuthState → Option Text
shown_user (signed_in s) = some s.user.id
shown_user _ = none

module _ (platform : Platform) (threshold : ℕ) where
  -- The user that is shown is the one of the access token.
  abbrev pub IsCoherent : TokenManager → Type 0
  IsCoherent m =
      (shown_user m.cached_snapshot ≡ none)
      ⊎ (shown_user m.cached_snapshot ≡ user_id_of platform m.access_token)

  -- A step keeps the access token's user, or ends with nobody signed in.
  abbrev Continues : TokenManager → TokenManager → Type 0
  Continues m m' =
      (shown_user m'.cached_snapshot ≡ none)
      ⊎ ((shown_user m'.cached_snapshot ≡ user_id_of platform m'.access_token)
          × (is_mismatch (user_id_of platform m.access_token) (user_id_of platform m'.access_token)
              ≡ false))

  is_mismatch_refl : (o : Option Text) → is_mismatch o o ≡ false
  is_mismatch_refl none = refl
  is_mismatch_refl (some a) = ground (arith, text_eq_refl a)

  -- A step that leaves the access token and shows the same user, or nobody.
  unchanged :
      (m m' : TokenManager)
      → m'.access_token ≡ m.access_token
      → (shown_user m'.cached_snapshot ≡ none)
        ⊎ (shown_user m'.cached_snapshot ≡ shown_user m.cached_snapshot)
        ⊎ (shown_user m'.cached_snapshot ≡ user_id_of platform m'.access_token)
      → IsCoherent m
      → Continues m m'
  unchanged m m' same shown h =
      let kept : is_mismatch (user_id_of platform m.access_token)
            (user_id_of platform m'.access_token)
          ≡ false =
        rw same (is_mismatch_refl (user_id_of platform m.access_token)) in
      let users : user_id_of platform m'.access_token ≡ user_id_of platform m.access_token =
        ap (user_id_of platform) same in
      go shown h kept users
    where
      go :
          (shown_user m'.cached_snapshot ≡ none)
            ⊎ (shown_user m'.cached_snapshot ≡ shown_user m.cached_snapshot)
            ⊎ (shown_user m'.cached_snapshot ≡ user_id_of platform m'.access_token)
          → IsCoherent m
          → is_mismatch (user_id_of platform m.access_token) (user_id_of platform m'.access_token)
            ≡ false
          → user_id_of platform m'.access_token ≡ user_id_of platform m.access_token
          → Continues m m'
      go (inl out) k kept users = inl out
      go (inr (inl old)) (inl out) kept users = inl (old ∙ out)
      go (inr (inl old)) (inr shows) kept users = inr (old ∙ shows ∙ sym users, kept)
      go (inr (inr new)) k kept users = inr (new, kept)

  make_signed_in_snapshot_shows :
      (token : Text) (e now : ℕ) (soon : Bool)
      → let s = make_signed_in_snapshot platform token e soon now in
        (shown_user s ≡ none) ⊎ (shown_user s ≡ user_id_of platform (some token))
  unfolding make_signed_in_snapshot
  make_signed_in_snapshot_shows token e now soon = ground arith

  remade_shows :
      (now : ℕ) (soon : Bool) (m : TokenManager)
      → let s = remade platform now soon m in
        (shown_user s ≡ none)
        ⊎ (shown_user s ≡ shown_user m.cached_snapshot)
        ⊎ (shown_user s ≡ user_id_of platform m.access_token)
  remade_shows now soon m = elim (Option-cases m.access_token) [
    | inl missing ↦ rw (missing, remade) (inr (inl refl))
    | inr (token, found) ↦
        ground
          (arith, found, make_signed_in_snapshot_shows token (seconds_to m.expires_at now) now soon)
  ]

  fire-Continues :
      (effective : Number) (now : ℕ) (m : TokenManager)
      → IsCoherent m
      → Continues m (fire platform threshold effective now m)
  unfolding fire
  fire-Continues effective now m h =
      unchanged m (fire platform threshold effective now m) (ground arith)
        (ground (arith, remade_shows now true m)) h

  ready-IsCoherent :
      (response : OAuthTokenResponse) (now : ℕ) (m : TokenManager)
      → IsCoherent (ready platform threshold response now m)
  ready-IsCoherent response now m =
      let (token, shown) = ready_shows platform threshold response now m in
      rw (token, shown)
        (make_signed_in_snapshot_shows response.access_token (clamped response.expires_in) now
          false)

  warned-Continues :
      (response : OAuthTokenResponse) (effective : Number) (now : ℕ) (m m' : TokenManager)
      → is_mismatch
          (user_id_of platform m.access_token)
          (user_id_of platform (some response.access_token))
        ≡ false
      → m'.access_token ≡ some response.access_token
      → IsCoherent m'
      → Continues m m'
  warned-Continues response effective now m m' same token (inl out) = inl out
  warned-Continues response effective now m m' same token (inr shows) = inr (shows, rw token same)

  Continues-IsCoherent : (m m' : TokenManager) → Continues m m' → IsCoherent m'
  Continues-IsCoherent m m' (inl out) = inl out
  Continues-IsCoherent m m' (inr (shows, same)) = inr shows

  set_tokens-Continues :
      (response : OAuthTokenResponse) (now : ℕ) (m : TokenManager)
      → Continues m (set_tokens platform threshold response now m)
  unfolding set_tokens clear_internal schedule_expiry_warning
  set_tokens-Continues response now m =
      elim (Bool-cases (
        is_mismatch (user_id_of platform m.access_token)
          (user_id_of platform (some response.access_token)))) [
            | inl differs ↦ rw differs (inl refl)
            | inr same ↦
                let effective =
                  min_or (now + clamped response.expires_in * 1000)
                    (max_lifetime_of platform response.access_token) in
                let tab = ready platform threshold response now m in
                let fired = fire platform threshold effective now tab in
                let coherent : IsCoherent fired =
                  Continues-IsCoherent tab fired
                    (fire-Continues effective now tab (ready-IsCoherent response now m)) in
                rw same (
                  warned-Continues response effective now m (logged EventType.token_received fired)
                    same
                    ((fire_keeps platform threshold effective now tab).0
                      ∙ (ready_shows platform threshold response now m).0)
                    coherent)
          ]

  shown-with_error :
      (e : AuthError) (b : Bool) (s : AuthState) → shown_user (with_error e b s) ≡ shown_user s
  shown-with_error e b loading = refl
  shown-with_error e b (signed_out_state old) = refl
  shown-with_error e b (signed_in s) = refl

  retry_in-Continues :
      (e : AuthError) (d : Option ℕ) (m m' : TokenManager)
      → m'.access_token ≡ m.access_token
      → m'.cached_snapshot ≡ m.cached_snapshot
      → m'.is_expiring_soon ≡ m.is_expiring_soon
      → IsCoherent m
      → Continues m (retry_in e d m')
  retry_in-Continues e none m m' t s b h =
      unchanged m (retry_in e none m') t
        (inr (inl (shown-with_error e m'.is_expiring_soon m'.cached_snapshot ∙ ap shown_user s))) h
  retry_in-Continues e (some d) m m' t s b h =
      unchanged m (retry_in e (some d) m') t
        (inr (inl (shown-with_error e m'.is_expiring_soon m'.cached_snapshot ∙ ap shown_user s))) h

  after_answer-Continues :
      (answer : Answer) (now random : ℕ) (m : TokenManager)
      → IsCoherent m
      → Continues m (after_answer platform threshold answer now random m)
  unfolding after_answer schedule_retry clear_internal
  after_answer-Continues (tokens response) now random m h =
      set_tokens-Continues response now (record (logged EventType.refresh_succeeded m) {
        refresh_attempts = 0;
        last_refresh_error = none;
      })
  after_answer-Continues (exception message) now random m h =
      let transient = to_transient_error (network_error message none) in
      retry_in-Continues (refresh_failed transient)
        (refresh_retry_delay_ms m.refresh_attempts transient.retry_after_ms random) m
        (logged EventType.refresh_failed m) refl refl refl h
  after_answer-Continues (failed e) now random m h = elim (Bool-cases (is_auth_error e)) [
    | inl definitive ↦ rw definitive (inl refl)
    | inr transient ↦ rw transient (
        retry_in-Continues (refresh_failed (to_transient_error e))
          (refresh_retry_delay_ms m.refresh_attempts (to_transient_error e).retry_after_ms random) m
          (logged EventType.refresh_failed m) refl refl refl h)
  ]

  perform_refresh-Continues :
      (m m' : TokenManager)
      → IsCoherent m
      → m'.access_token ≡ m.access_token
      → m'.cached_snapshot ≡ m.cached_snapshot
      → Continues m (perform_refresh m')
  unfolding perform_refresh
  perform_refresh-Continues m m' h t s =
      unchanged m (perform_refresh m') (ground arith) (ground arith) h

  after_lock-Continues :
      (lock : Lock) (m : TokenManager) → IsCoherent m → Continues m (after_lock lock m).0
  unfolding after_lock clear_internal
  after_lock-Continues timed_out m h = unchanged m m refl (inr (inl refl)) h
  after_lock-Continues (acquired none) m h = unchanged m m refl (inr (inl refl)) h
  after_lock-Continues (acquired (some raw)) m h = elim (Bool-cases (is_empty raw)) [
    | inl empty ↦ rw empty (unchanged m m refl (inr (inl refl)) h)
    | inr full ↦ elim (Bool-cases (starts_with raw (codes "v1:"))) [
      | inl known ↦ rw (full, known) (unchanged m m refl (inr (inl refl)) h)
      | inr unknown ↦ rw (full, unknown) (inl refl)
    ]
  ]

  restore-Continues : (m : TokenManager) → IsCoherent m → Continues m (restore m)
  unfolding restore perform_refresh
  restore-Continues m h = unchanged m (restore m) (ground arith) (ground arith) h

  retry_fires-Continues : (m : TokenManager) → IsCoherent m → Continues m (retry_fires m)
  unfolding retry_fires perform_refresh
  retry_fires-Continues m h = unchanged m (retry_fires m) (ground arith) (ground arith) h

  step-Continues :
      (m : TokenManager) (e : Event) → IsCoherent m → Continues m (step platform threshold m e)
  unfolding step restore after_restore go_online retry_fires on_message clear_internal
  step-Continues m asks h = perform_refresh-Continues m m h refl refl
  step-Continues m (locks lock) h = after_lock-Continues lock m h
  step-Continues m (answers answer now random) h = after_answer-Continues answer now random m h
  step-Continues m restores h = restore-Continues m h
  step-Continues m (restore_ends true) h = unchanged m m refl (inr (inl refl)) h
  step-Continues m (restore_ends false) h = inl refl
  step-Continues m retries h = retry_fires-Continues m h
  step-Continues m goes_offline h = unchanged m m refl (inr (inl refl)) h
  step-Continues m goes_online h =
      perform_refresh-Continues m (record m { is_offline = false }) h refl refl
  step-Continues m signs_out h = inl refl
  step-Continues m (receives_tokens response now) h = set_tokens-Continues response now m
  step-Continues m (sign_in_fails e) h = inl refl
  step-Continues m (warns effective now) h = fire-Continues effective now m h
  step-Continues m (hears signed_out now) h = inl refl
  step-Continues m (hears token_refreshed now) h =
      elim (Bool-cases (not (is_some (get_access_token now m)))) [
        | inl missing ↦
            rw missing
              (perform_refresh-Continues m (logged EventType.tab_sync_received m) h refl refl)
        | inr there ↦ elim (Bool-cases m.is_expiring_soon) [
          | inl soon ↦
              rw (there, soon)
                (unchanged m (record m { cached_snapshot = remade platform now false m }) refl
                  (remade_shows now false m) h)
          | inr late ↦ rw (there, late) (unchanged m m refl (inr (inl refl)) h)
        ]
      ]

  run-IsCoherent :
      (m : TokenManager) (es : List Event) → IsCoherent m → IsCoherent (run platform threshold m es)
  unfolding run
  run-IsCoherent m [] h = h
  run-IsCoherent m (e ∷ es) h =
      run-IsCoherent (step platform threshold m e) es
        (Continues-IsCoherent m (step platform threshold m e) (step-Continues m e h))

  same_user :
      (m m' : TokenManager) (a b : Text)
      → IsCoherent m
      → Continues m m'
      → shown_user m.cached_snapshot ≡ some a
      → shown_user m'.cached_snapshot ≡ some b
      → a ≡ b
  same_user m m' a b (inl out) k shows shows' = absurd (none_shown out shows)
    where
      none_shown : {o : Option Text} → o ≡ none → o ≡ some a → ⊥
      none_shown e e' = cc
  same_user m m' a b (inr coherent) (inl out) shows shows' = ground arith
  same_user m m' a b (inr coherent) (inr (coherent', same)) shows shows' =
      ground (arith, text_eq_iff a b)

  -- Over any history of a tab that starts with nobody signed in, each step leaves the user who is
  -- signed in the same, or nobody is signed in before or after it: a refresh, a sign-in or a change of the
  -- organization never replaces one user by another.
  pub user_continuity :
      (storage oauth_state : Option Text) (session_check : Bool) (es : List Event) (e : Event)
      (a b : Text)
      → shown_user
          (run platform threshold (initial storage oauth_state session_check) es).cached_snapshot
        ≡ some a
      → shown_user
          (step platform threshold
            (run platform threshold (initial storage oauth_state session_check) es)
            e).cached_snapshot
        ≡ some b
      → a ≡ b
  user_continuity storage oauth_state session_check es e a b shows shows' =
      let coherent = run-IsCoherent (initial storage oauth_state session_check) es (inl refl) in
      let m = run platform threshold (initial storage oauth_state session_check) es in
      same_user m (step platform threshold m e) a b coherent (step-Continues m e coherent) shows
        shows'
