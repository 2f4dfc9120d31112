-- ===== src/Tests/Tab.antt =====
-- A browser tab of packages/react/src/token-manager.ts that signs in, refreshes and signs out; the
-- event log and the permission checks on short lists.
use rakomi_js.Common.{
  ℕ, ◌-◌, ◌≤◌, true, false, none, some, List, [], ◌∷◌, ◌++◌, ◌≡◌, ◌↔◌, refl, arith, drop, length,
}
use rakomi_js.Common.Int.{pos}
use rakomi_js.Common.Number.{int}
use rakomi_js.Common.Text.{codes, split, text_eq}
use rakomi_js.Common.Json.{get}
use rakomi_js.Core.Types.{DecodedSession}
use rakomi_js.Core.AuthError.{AuthError, refresh_failed, RefreshReason}
use rakomi_js.Core.Base64.{base64_to_bytes}
use rakomi_js.Core.Utf8.{bytes_to_utf8}
use rakomi_js.Core.JwtDecode.{
  decode_user, decode_session, decode_jwt_payload, assign, read, required_text, user_of_payload,
  raw_claims_of, email_of, is_expired_claim,
}
use rakomi_js.Core.EventLog.{push_all, push_all-empty, max_events}
use rakomi_js.Core.Rbac.{has_permission}
use rakomi_js.Core.Rbac.Wildcard.{IsGranted, has_permission_iff}
use rakomi_js.React.TokenManager.State.{
  signed_out, OAuthTokenResponse, TokenManager, is_signed_in, make_signed_in_snapshot, with_tokens,
  set_tokens, start_auto_refresh, schedule_expiry_warning, fire,
}
use rakomi_js.React.TokenManager.Refresh.{tokens, failed, exception, is_auth_error, after_answer}
use rakomi_js.React.TokenManager.Steps.{
  Event, answers, receives_tokens, signs_out, hears, step, run, initial,
}
use rakomi_js.React.TokenManager.Erasure.{sign_out_once, late_answer_signs_in}
use rakomi_js.React.TokenManager.Failures.{
  definitive_signs_out, transient_keeps_session, IsSameSession, retries_bounded,
}
use rakomi_js.React.TokenManager.Continuity.{shown_user, user_continuity}
use rakomi_js.Tests.Decode.{platform, token, user, is_user}

abbrev five_minutes : ℕ
five_minutes = 300_000

abbrev response : OAuthTokenResponse
response = record { access_token = token; expires_in = 3600; refresh_token = some (codes "r1") }

abbrev new_tab : TokenManager
new_tab = initial none none false

abbrev sign_in : List Event
sign_in = receives_tokens response 5000 ∷ []

abbrev signed_in_tab : TokenManager
signed_in_tab = run platform five_minutes new_tab sign_in

abbrev refused : AuthError
refused = refresh_failed (record {
  reason = RefreshReason.revoked;
  message = codes "invalid grant";
  request_id = none;
  status = some 400;
  oauth_error = some (codes "invalid_grant");
  retry_after_ms = none;
})

shows_user : shown_user signed_in_tab.cached_snapshot ≡ some (codes "u1")
unfolding run step set_tokens with_tokens start_auto_refresh schedule_expiry_warning fire
    make_signed_in_snapshot decode_user decode_session decode_jwt_payload user_of_payload assign
    read required_text raw_claims_of email_of is_expired_claim split get codes base64_to_bytes
    bytes_to_utf8
shows_user = refl

shows_user_again :
    shown_user
      (step platform five_minutes signed_in_tab (answers (tokens response) 6000 0)).cached_snapshot
    ≡ some (codes "u1")
unfolding run step after_answer set_tokens with_tokens start_auto_refresh schedule_expiry_warning
    fire make_signed_in_snapshot decode_user decode_session decode_jwt_payload user_of_payload
    assign read required_text raw_claims_of email_of is_expired_claim split get codes
    base64_to_bytes bytes_to_utf8 text_eq
shows_user_again = refl

user_continuity_example : codes "u1" ≡ codes "u1"
user_continuity_example =
    user_continuity platform five_minutes none none false sign_in (answers (tokens response) 6000 0)
      (codes "u1") (codes "u1") shows_user shows_user_again

sign_out_once_run :
    let out = step platform five_minutes signed_in_tab signs_out in
    let heard = step platform five_minutes signed_in_tab (hears signed_out 7000) in
    (step platform five_minutes out signs_out ≡ out)
    × (heard ≡ record out { sent = signed_in_tab.sent })
    × (step platform five_minutes heard signs_out ≡ heard)
sign_out_once_run = sign_out_once platform five_minutes signed_in_tab 7000

definitive_signs_out_run :
    step platform five_minutes signed_in_tab (answers (failed refused) 7000 0)
    ≡ step platform five_minutes signed_in_tab signs_out
unfolding is_auth_error
definitive_signs_out_run =
    definitive_signs_out platform five_minutes signed_in_tab refused 7000 0 refl

transient_keeps_session_example :
    IsSameSession platform five_minutes signed_in_tab
      (step platform five_minutes signed_in_tab (answers (exception (codes "offline")) 7000 0))
transient_keeps_session_example =
    transient_keeps_session platform five_minutes signed_in_tab (exception (codes "offline")) 7000 0
      refl

abbrev four_failures : List Event
four_failures =
    answers (exception (codes "offline")) 7000 0
    ∷ answers (exception (codes "offline")) 10_000 0
    ∷ answers (exception (codes "offline")) 20_000 0
    ∷ answers (exception (codes "offline")) 60_000 0
    ∷ []

retries_bounded_run : (run platform five_minutes new_tab four_failures).refresh_attempts ≤ 3
retries_bounded_run = retries_bounded platform five_minutes new_tab four_failures (omega arith)

abbrev pub session : DecodedSession
session = record {
  id = codes "s1";
  user_id = codes "u1";
  tenant_id = codes "t1";
  expires_at = 3_609_000;
  last_active_at = int (pos 9000);
  max_lifetime_expires_at = some (int (pos 50_000));
  effective_expires_at = int (pos 50_000);
  expires_in_seconds = 41;
}

pub is_session : decode_session platform token 3600 9000 9000 9000 ≡ some session
unfolding decode_session decode_jwt_payload assign read required_text split get codes
    base64_to_bytes bytes_to_utf8
is_session = refl

late_answer_signs_in_example :
    let late =
      step platform five_minutes
        (step platform five_minutes signed_in_tab signs_out)
        (answers (tokens response) 9000 0) in
    (late.access_token ≡ some token)
    × (late.storage ≡ some (codes "v1:" ++ codes "r1"))
    × (is_signed_in late.cached_snapshot ≡ true)
unfolding codes
late_answer_signs_in_example =
    late_answer_signs_in platform five_minutes signed_in_tab response (codes "r1") 9000 0 user
      session is_user is_session refl refl

abbrev three : List ℕ
three = 1 ∷ 2 ∷ 3 ∷ []

push_all-empty_run : push_all three [] ≡ drop (length three - max_events) three
push_all-empty_run = push_all-empty three

has_permission_iff_example :
    (has_permission (codes "posts:*" ∷ []) (codes "posts:read") ≡ true)
    ↔ IsGranted (codes "posts:*" ∷ []) (codes "posts:read")
has_permission_iff_example = has_permission_iff (codes "posts:*" ∷ []) (codes "posts:read")
