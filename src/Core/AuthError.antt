-- ===== src/Core/AuthError.antt =====
-- packages/sdk-core/src/types/auth-error.ts. A TypeScript union becomes a data type; an optional
-- field is an `Option`.
use rakomi_js.Common.{ℕ, Option, none}
use rakomi_js.Common.Number.{Number}
use rakomi_js.Common.Text.{Text}

pub data RefreshReason : Type 0 where
  expired revoked network : RefreshReason

-- The fields of the variant `REFRESH_FAILED`.
pub record RefreshFailure : Type 0 where
  pub reason : RefreshReason
  pub message : Text
  pub request_id : Option Text
  pub status : Option ℕ
  pub oauth_error : Option Text
  pub retry_after_ms : Option Number

pub data AuthError : Type 0 where
  refresh_failed : RefreshFailure → AuthError
  -- oauthError, description, requestId
  oauth_callback_error : Text → Text → Option Text → AuthError
  -- reason, appealUrl, requestId
  tenant_suspended : Text → Option Text → Option Text → AuthError
  csrf_mismatch : Text → Option Text → AuthError
  -- message, requestId, status, oauthError
  code_exchange_failed : Text → Option Text → Option ℕ → Option Text → AuthError
  sign_in_failed : Text → Option Text → AuthError
  invalid_config : Text → Option Text → AuthError
  network_error : Text → Option Text → AuthError
  provider_error : Text → Option Text → AuthError

-- `getErrorMessage`; the last return of the source is for a variant that the type does not have
unfoldable pub get_error_message : AuthError → Text
get_error_message (refresh_failed f) = f.message
get_error_message (oauth_callback_error oauth_error description request_id) = description
get_error_message (tenant_suspended reason appeal_url request_id) = reason
get_error_message (csrf_mismatch message request_id) = message
get_error_message (code_exchange_failed message request_id status oauth_error) = message
get_error_message (sign_in_failed message request_id) = message
get_error_message (invalid_config message request_id) = message
get_error_message (network_error message request_id) = message
get_error_message (provider_error message request_id) = message

-- `error.requestId`
unfoldable pub request_id_of : AuthError → Option Text
request_id_of (refresh_failed f) = f.request_id
request_id_of (oauth_callback_error oauth_error description request_id) = request_id
request_id_of (tenant_suspended reason appeal_url request_id) = request_id
request_id_of (csrf_mismatch message request_id) = request_id
request_id_of (code_exchange_failed message request_id status oauth_error) = request_id
request_id_of (sign_in_failed message request_id) = request_id
request_id_of (invalid_config message request_id) = request_id
request_id_of (network_error message request_id) = request_id
request_id_of (provider_error message request_id) = request_id

-- `'status' in error ? error.status : undefined`
unfoldable pub status_of : AuthError → Option ℕ
status_of (refresh_failed f) = f.status
status_of (code_exchange_failed message request_id status oauth_error) = status
status_of _ = none

-- `'oauthError' in error ? error.oauthError : undefined`
unfoldable pub oauth_error_of : AuthError → Option Text
oauth_error_of (refresh_failed f) = f.oauth_error
oauth_error_of (oauth_callback_error oauth_error description request_id) = Option.some oauth_error
oauth_error_of (code_exchange_failed message request_id status oauth_error) = oauth_error
oauth_error_of _ = none
