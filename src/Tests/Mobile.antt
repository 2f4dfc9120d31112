-- ===== src/Tests/Mobile.antt =====
-- The runtime of a React Native app that signs in, refreshes and signs out.
use rakomi_js.Common.{◌≤◌, true, false, none, some, List, [], ◌∷◌, ◌≡◌, refl}
use rakomi_js.Common.Int.{pos}
use rakomi_js.Common.Number.{int}
use rakomi_js.Common.Text.{codes, split, text_eq}
use rakomi_js.Common.Json.{get}
use rakomi_js.Common.Results.{Result, ok, err}
use rakomi_js.Core.AuthError.{AuthError, refresh_failed, RefreshReason}
use rakomi_js.Core.AuthMachine.{reduce, is_signed_in}
use rakomi_js.Core.Base64.{base64_to_bytes}
use rakomi_js.Core.Utf8.{bytes_to_utf8}
use rakomi_js.Core.JwtDecode.{
  decode_user, decode_session, decode_jwt_payload, assign, read, required_text, user_of_payload,
  raw_claims_of, email_of, is_expired_claim,
}
use rakomi_js.Core.RefreshRetry.{RefreshRetryOnceOutcome}
use rakomi_js.Core.TokenEndpoint.{Tokens, TokenFailure}
use rakomi_js.Mobile.SubmitNonces
use rakomi_js.Mobile.SubmitNonces.{
  Call, begins, submits, issued, taken, consume_nonce, set, gc_expired_nonces, evict,
  begin_auth_flow, has, delete, nonce_single_use,
}
use rakomi_js.Mobile.SubmitNonces.Fresh.{IssuedWithin, nonce_fresh}
use rakomi_js.Mobile.TokenRuntime.State.{TokenRuntime, dispatch, set_tokens, announced}
use rakomi_js.Mobile.TokenRuntime.Refresh.{
  bearer, is_auth_error, after_answer, after_result, complete_refresh, resumed,
}
use rakomi_js.Mobile.TokenRuntime.Steps.{submits as submits_tokens, answers, step, run, initial}
use rakomi_js.Mobile.TokenRuntime.Continuity.{user_id, step_keeps_user}
use rakomi_js.Mobile.TokenRuntime.Coherence.{IsCoherent, shows_own_user}
use rakomi_js.Mobile.TokenRuntime.Failures.{IsKept, runtime_keeps_session}
use rakomi_js.Tests.Decode.{platform, token}

abbrev calls : List Call
calls = begins (codes "n1") 0 0 ∷ submits (codes "n1") 5 ∷ submits (codes "n1") 6 ∷ []

is_taken_once : taken (codes "n1") [] calls ≡ 1
unfolding taken SubmitNonces.step begin_auth_flow consume_nonce set gc_expired_nonces evict has
    delete codes text_eq
is_taken_once = refl

nonce_single_use_example : taken (codes "n1") [] calls ≤ issued (codes "n1") calls
nonce_single_use_example = nonce_single_use (codes "n1") calls

is_accepted :
    (consume_nonce (codes "n1") 5 (SubmitNonces.run [] (begins (codes "n1") 0 0 ∷ []))).0 ≡ true
unfolding SubmitNonces.run SubmitNonces.step begin_auth_flow consume_nonce set gc_expired_nonces
    evict has delete codes text_eq
is_accepted = refl

nonce_fresh_example : IssuedWithin (codes "n1") 5 (begins (codes "n1") 0 0 ∷ [])
nonce_fresh_example = nonce_fresh (codes "n1") 5 (begins (codes "n1") 0 0 ∷ []) is_accepted

abbrev response : Tokens
response = record {
  access_token = token;
  expires_in = int (pos 3600);
  refresh_token = some (codes "r1");
  token_type = none;
}

abbrev signed_in : TokenRuntime
signed_in = run platform (initial none) (submits_tokens response 5000 ∷ [])

abbrev success : RefreshRetryOnceOutcome (Result TokenFailure Tokens)
success = record { result = ok response; uncertain_after = none; retried = false }

abbrev outage : AuthError
outage = refresh_failed (record {
  reason = RefreshReason.network;
  message = codes "unavailable";
  request_id = none;
  status = some 503;
  oauth_error = none;
  retry_after_ms = none;
})

abbrev failure : RefreshRetryOnceOutcome (Result TokenFailure Tokens)
failure = record {
  result = err (record { error = outage; dpop_nonce = none; dpop_proof_rejected = false });
  uncertain_after = none;
  retried = false;
}

has_user : user_id signed_in ≡ some (codes "u1")
unfolding run step set_tokens announced dispatch decode_user decode_session decode_jwt_payload
    user_of_payload assign read required_text raw_claims_of email_of is_expired_claim split get
    codes base64_to_bytes bytes_to_utf8
has_user = refl

has_user_again :
    user_id (step platform signed_in (answers false (bearer success) 6000 0)) ≡ some (codes "u1")
unfolding run step after_answer after_result complete_refresh resumed set_tokens announced dispatch
    decode_user decode_session decode_jwt_payload user_of_payload assign read required_text
    raw_claims_of email_of is_expired_claim split get codes base64_to_bytes bytes_to_utf8 text_eq
has_user_again = refl

step_keeps_user_example : codes "u1" ≡ codes "u1"
step_keeps_user_example =
    step_keeps_user platform signed_in (answers false (bearer success) 6000 0) (codes "u1")
      (codes "u1") has_user has_user_again

shows_own_user_example : IsCoherent (
    run platform
      (initial none)
      (submits_tokens response 5000 ∷ answers false (bearer success) 6000 0 ∷ []))
shows_own_user_example =
    shows_own_user platform none
      (submits_tokens response 5000 ∷ answers false (bearer success) 6000 0 ∷ [])

shows_signed_in : is_signed_in signed_in.machine ≡ true
unfolding run step set_tokens announced dispatch reduce is_signed_in decode_user decode_session
    decode_jwt_payload user_of_payload assign read required_text raw_claims_of email_of
    is_expired_claim split get codes base64_to_bytes bytes_to_utf8
shows_signed_in = refl

runtime_keeps_session_example :
    IsKept signed_in (step platform signed_in (answers false (bearer failure) 7000 0))
unfolding is_auth_error
runtime_keeps_session_example =
    runtime_keeps_session platform signed_in false failure outage 7000 0 refl refl shows_signed_in
