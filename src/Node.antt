-- ===== src/Node.antt =====
-- packages/sdk/src: the server-side SDK, @rakomi/node.
pub mod Errors
pub mod SigningAlgorithms
pub mod JwksCache
pub mod ClaimGuards
pub mod CanonicalUrl
pub mod Dpop
pub mod TokenPayload
pub mod VerifyToken
pub mod Webhook
pub mod LogoutToken
pub mod PublisherWebhook
pub mod Device
pub mod ResourceServer
pub mod Issuer
pub mod Challenge
pub mod ResourceMetadata
