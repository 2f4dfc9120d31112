-- ===== src/React.antt =====
-- packages/react/src.
pub mod TokenManager
