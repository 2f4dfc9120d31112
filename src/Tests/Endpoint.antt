-- ===== src/Tests/Endpoint.antt =====
-- Answers of the token endpoint to a refresh, and a refresh with a bound key.
use rakomi_js.Common.{ℕ, true, false, Option, none, some, ◌≡◌, ◌↔◌, refl}
use rakomi_js.Common.Int.{ℤ}
use rakomi_js.Common.Decimal.{decimal}
use rakomi_js.Common.Text.{Text, codes, text_eq}
use rakomi_js.Common.Json.{null, obj, end, get}
use rakomi_js.Common.Results.{Result, ok, err, thrown}
use rakomi_js.Core.AuthError.{refresh_failed, RefreshReason, AuthError, get_error_message}
use rakomi_js.Core.RefreshRetry.{
  is_transient_status, is_definitive_refresh_rejection, is_settled_refresh_result,
  refresh_retry_once_trigger_of, is_refresh_retry_once_status, refresh_with_one_immediate_retry,
}
use rakomi_js.Core.TokenEndpoint.{
  Response, Fetched, answered, TokenFailure, refresh_access_token, is_ok,
  parse_token_endpoint_error, extract_request_id, www_error, parse_retry_after_ms,
}
use rakomi_js.Core.TokenEndpoint.Outcomes.{IsFinal, refresh_ends_session_iff, refresh_throws_iff}
use rakomi_js.Mobile.DpopRefresh.{
  DpopSession, DpopRefreshError, network, refresh_with_dpop, refresh_with_dpop_once, map_failure,
  is_auth_error, retry_once_trigger, is_settled,
}
use rakomi_js.Mobile.DpopRefresh.Proofs.{network_keeps_token, bound_sends_proofs}

abbrev never : Text → Option ℤ
never t = none

abbrev null_rejection : Response
null_rejection = record {
  status = 500;
  body = some null;
  www_authenticate = codes "";
  retry_after = none;
  dpop_nonce = none;
  now = 0;
}

refresh_throws_iff_example : (refresh_access_token never (answered null_rejection) ≡ thrown) ↔ (
    (r : Response) × (answered null_rejection ≡ answered r)
    × (is_ok r.status ≡ false)
    × (r.body ≡ some null))
refresh_throws_iff_example = refresh_throws_iff never (answered null_rejection)

abbrev unauthorized : Response
unauthorized = record null_rejection { status = 401; body = some (obj end) }

abbrev unavailable : Response
unavailable = record null_rejection { status = 503; body = some (obj end) }

abbrev refusal : TokenFailure
refusal = record {
  error = refresh_failed (record {
    reason = RefreshReason.revoked;
    message = codes "token endpoint returned HTTP 401";
    request_id = none;
    status = some 401;
    oauth_error = none;
    retry_after_ms = none;
  });
  dpop_nonce = none;
  dpop_proof_rejected = false;
}

refuses : refresh_access_token never (answered unauthorized) ≡ err refusal
unfolding refresh_access_token parse_token_endpoint_error extract_request_id www_error
    parse_retry_after_ms get codes decimal is_transient_status is_definitive_refresh_rejection
    text_eq
refuses = refl

refresh_ends_session_iff_example :
    (is_settled_refresh_result (some refusal.error) ≡ true) ↔ IsFinal (answered unauthorized)
refresh_ends_session_iff_example =
    refresh_ends_session_iff never (answered unauthorized) refusal refuses

-- The prover signs everything, and the server is unavailable; or it is, but accepts nothing without a proof.
abbrev prove : Option Text → ℕ → Result Text Text × ℕ
prove challenge w = (ok (codes "proof"), w)

abbrev fetch : Option Text → ℕ → Fetched × ℕ
fetch proof w = (answered unavailable, w)

abbrev fetch_bound : Option Text → ℕ → Fetched × ℕ
fetch_bound none w = (answered unauthorized, w)
fetch_bound (some proof) w = (answered unavailable, w)

abbrev clock : ℕ → ℕ × ℕ
clock w = (w, w)

abbrev bound : DpopSession
bound = record {
  bound = true;
  downgraded = false;
  downgrade_notified = false;
  bound_jkt = some (codes "jkt");
  downgrades = 0;
}

bound_sends_proofs_example :
    refresh_with_dpop never prove fetch clock (codes "jkt") (bound, 0)
    ≡ refresh_with_dpop never prove fetch_bound clock (codes "jkt") (bound, 0)
bound_sends_proofs_example =
    bound_sends_proofs never prove fetch fetch_bound clock (codes "jkt") (λ proof w. refl) bound 0
      refl

abbrev outage : AuthError
outage = refresh_failed (record {
  reason = RefreshReason.network;
  message = codes "token endpoint returned HTTP 503";
  request_id = none;
  status = some 503;
  oauth_error = none;
  retry_after_ms = none;
})

abbrev outage_error : DpopRefreshError
outage_error = record {
  class = network;
  message = codes "token endpoint returned HTTP 503";
  cause = some outage;
}

is_unavailable :
    (refresh_with_dpop never prove fetch clock (codes "jkt") (bound, 0)).0 ≡ err outage_error
unfolding refresh_with_dpop refresh_with_one_immediate_retry refresh_access_token
    parse_token_endpoint_error extract_request_id www_error parse_retry_after_ms get codes decimal
    is_transient_status is_definitive_refresh_rejection text_eq map_failure is_auth_error
    retry_once_trigger is_settled refresh_retry_once_trigger_of is_refresh_retry_once_status
    get_error_message
is_unavailable = refl

network_keeps_token_example :
    (refresh_with_dpop never prove fetch clock (codes "jkt") (bound, 0)
      ≡ refresh_with_dpop_once never prove fetch clock (codes "jkt") (bound, (clock 0).1))
    × (refresh_retry_once_trigger_of (some outage) ≡ none)
network_keeps_token_example =
    network_keeps_token never prove fetch clock (codes "jkt") bound 0 outage_error outage
      is_unavailable refl refl
