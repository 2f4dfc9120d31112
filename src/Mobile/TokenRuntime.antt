-- ===== src/Mobile/TokenRuntime.antt =====
-- `TokenRuntime` of packages/react-native/src/internal/token-runtime.ts, with the machine of
-- packages/sdk-core/src/auth-machine.ts that it drives. `State` has the fields and the methods that do not
-- wait; `Refresh` has the refresh, cut at its waits; `Steps` has the histories of an app.
pub mod State
pub mod Refresh
pub mod Steps
pub mod Cases
pub mod Failures
pub mod Continuity
pub mod Coherence
pub mod Late
