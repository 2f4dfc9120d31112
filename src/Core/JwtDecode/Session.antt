-- ===== src/Core/JwtDecode/Session.antt =====
-- How long a decoded session lasts.
use mathlib.Core.Path.{subst}
use rakomi_js.Common.{sym, ℕ, ◌+◌, ◌*◌, ◌≤◌, some, ◌≡◌, refl, arith, ◌⊎◌}
use rakomi_js.Common.Options.{>>=-eq-some}
use rakomi_js.Common.Int.{pos}
use rakomi_js.Common.Number.{int}
use rakomi_js.Common.Text.{Text}
use rakomi_js.Common.Json.{num}
use rakomi_js.Core.Types.{DecodedSession}
use rakomi_js.Core.JwtDecode.{
  Platform, Payload, read, decode_jwt_payload, required_text, session_of, decode_session,
}

-- The bounds of a session from a payload: the seconds that are left fit in the server's `expires_in` and, when
-- the claim `session_max_lifetime_exp` limits the session's life to a time (in seconds from the epoch on), before
-- that time, which the session has in milliseconds.
pub record IsBounded (p : Payload) (s : DecodedSession) (expires_in now now' : ℕ) : Type 0 where
  pub expiry : s.expires_at ≡ now + expires_in * 1000
  pub within_expiry : s.expires_in_seconds ≤ expires_in
  pub within_lifetime :
      (limit : ℕ)
      → read p "session_max_lifetime_exp" ≡ some (num (int (pos limit)))
      → (s.max_lifetime_expires_at ≡ some (int (pos (limit * 1000))))
        × ((s.expires_in_seconds ≡ 0) ⊎ (now' + s.expires_in_seconds * 1000 ≤ limit * 1000))

session_of-IsBounded :
    (p : Payload) (sub sid tenant_id : Text) (expires_in now now' now'' : ℕ)
    → now ≤ now'
    → IsBounded p (session_of p sub sid tenant_id expires_in now now' now'') expires_in now now'
unfolding session_of
session_of-IsBounded p sub sid tenant_id expires_in now now' now'' h = record {
  expiry = refl;
  within_expiry = ground arith;
  within_lifetime = λ limit e. ground arith;
}

-- When the clock does not run backwards between its readings, a decoded session ends at the server's
-- `expires_in` after the first reading, and its remaining seconds exceed neither `expires_in` nor
-- what is left until the token's claim `session_max_lifetime_exp`, where that is a time in seconds.
pub decode_session-IsBounded :
    (platform : Platform) (token : Text) (expires_in now now' now'' : ℕ) (s : DecodedSession)
    → now ≤ now'
    → decode_session platform token expires_in now now' now'' ≡ some s
    → (p : Payload) × (decode_jwt_payload platform token ≡ some p)
      × IsBounded p s expires_in now now'
unfolding decode_session
decode_session-IsBounded platform token expires_in now now' now'' s h e =
    let (p, decoded, h1) = >>=-eq-some (decode_jwt_payload platform token) _ e in
    let (sub, _, h2) = >>=-eq-some (required_text (read p "sub")) _ h1 in
    let (sid, _, h3) = >>=-eq-some (required_text (read p "sid")) _ h2 in
    let (tenant, _, h4) = >>=-eq-some (required_text (read p "tenant_id")) _ h3 in
    let made : s ≡ session_of p sub sid tenant expires_in now now' now'' = ground arith in
    (
      p,
      decoded,
      subst (λ t. IsBounded p t expires_in now now') (sym made)
          (session_of-IsBounded p sub sid tenant expires_in now now' now'' h),
    )
