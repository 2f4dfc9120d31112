-- ===== src/Node/Errors.antt =====
-- The errors of packages/sdk/src/errors.ts that the modelled functions return, by their constructors'
-- names; messages, suggestions and links are left out.
use rakomi_js.Common.{ℕ, Option}
use rakomi_js.Common.Number.{Number}

-- `DpopProofRejectionReason` of packages/sdk/src/types.ts
pub data DpopProofRejectionReason : Type 0 where
  proof_required scheme_downgrade scheme_mismatch request_context_missing : DpopProofRejectionReason
  unsupported_confirmation malformed multi_header typ_rejected : DpopProofRejectionReason
  kid_forbidden crit_rejected alg_rejected private_jwk_params : DpopProofRejectionReason
  signature_invalid htm_mismatch htu_mismatch iat_window : DpopProofRejectionReason
  jti_invalid ath_missing ath_mismatch jkt_mismatch : DpopProofRejectionReason
  jti_replay replay_check_unavailable : DpopProofRejectionReason

pub data SdkError : Type 0 where
  token_revoked token_expired token_invalid_signature token_malformed : SdkError
  token_invalid_algorithm token_missing_claims token_invalid_issuer : SdkError
  token_invalid_audience token_not_yet_valid token_tenant_mismatch : SdkError
  token_client_mismatch auth_environment_mismatch : SdkError
  token_invalid_dpop_proof : DpopProofRejectionReason → SdkError
  jwks_fetch_failed jwks_invalid_response jwks_no_matching_key : SdkError
  webhook_invalid_body webhook_invalid_secret webhook_invalid_signature : SdkError
  webhook_missing_header : SdkError
  -- the replay window in seconds
  webhook_timestamp_too_new webhook_timestamp_too_old : Number → SdkError
  logout_token_missing_claims logout_token_missing_subject logout_token_invalid_events : SdkError
  logout_token_nonce_present logout_token_session_mismatch : SdkError
  oauth_missing_client_id oauth_invalid_client oauth_invalid_grant : SdkError
  oauth_invalid_request oauth_network_error : SdkError
  -- the status and the seconds of `Retry-After`
  oauth_temporarily_unavailable : ℕ → Option ℕ → SdkError
  device_authorization_pending device_authorization_slow_down device_authorization_denied : SdkError
  device_authorization_expired device_authorization_timeout : SdkError
  device_authorization_rate_limited : SdkError
  config_invalid_url config_invalid_option config_missing_pin : SdkError
