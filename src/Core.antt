-- ===== src/Core.antt =====
-- packages/sdk-core/src: the platform-neutral core that the web and React Native SDKs share.
pub mod AuthError
pub mod Types
pub mod AuthMachine
pub mod RefreshRetry
pub mod Base64
pub mod Utf8
pub mod JwtDecode
pub mod TokenEndpoint
pub mod EventLog
pub mod Rbac
