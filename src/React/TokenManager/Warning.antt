-- ===== src/React/TokenManager/Warning.antt =====
-- The last steps of `setTokens`: the tab that it has when it schedules the expiry warning, and what the
-- warning leaves alone.
use rakomi_js.Common.{ℕ, false, none, some, ◌++◌, ◌≡◌, arith}
use rakomi_js.Common.Number.{Number}
use rakomi_js.Common.Text.{Text, codes, is_empty}
use rakomi_js.Core.JwtDecode.{Platform}
use rakomi_js.React.TokenManager.State.{
  OAuthTokenResponse, TokenManager, make_signed_in_snapshot, with_tokens, start_auto_refresh, fire,
  clamped,
}

module _ (platform : Platform) (threshold : ℕ) where
  -- The warning's timer keeps the tokens.
  pub fire_keeps :
      (effective : Number) (now : ℕ) (m : TokenManager)
      → let m' = fire platform threshold effective now m in
        (m'.access_token ≡ m.access_token) × (m'.storage ≡ m.storage)
  unfolding fire
  fire_keeps effective now m = ground arith

  -- The tab as `setTokens` has it when it schedules the warning.
  abbrev pub ready : OAuthTokenResponse → ℕ → TokenManager → TokenManager
  ready response now m =
      record (start_auto_refresh (clamped response.expires_in)
        (with_tokens platform response now m)) { expiry_timer = none }

  pub ready_shows :
      (response : OAuthTokenResponse) (now : ℕ) (m : TokenManager)
      → ((ready response now m).access_token ≡ some response.access_token)
        × ((ready response now m).cached_snapshot
            ≡ make_signed_in_snapshot platform response.access_token
                (clamped response.expires_in)
                false
                now)
  unfolding with_tokens start_auto_refresh
  ready_shows response now m = ground arith

  pub ready_storage :
      (response : OAuthTokenResponse) (refresh_token : Text) (now : ℕ) (m : TokenManager)
      → response.refresh_token ≡ some refresh_token
      → is_empty refresh_token ≡ false
      → (ready response now m).storage ≡ some (codes "v1:" ++ refresh_token)
  unfolding with_tokens start_auto_refresh
  ready_storage response refresh_token now m r ne = ground arith
