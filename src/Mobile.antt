-- ===== src/Mobile.antt =====
-- packages/react-native/src: the runtime of a React Native app.
pub mod SubmitNonces
pub mod DpopRefresh
pub mod TokenRuntime
