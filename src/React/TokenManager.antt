-- ===== src/React/TokenManager.antt =====
-- packages/react/src/token-manager.ts: the tokens of a browser tab. `State` has the fields of the class
-- and the methods that do not wait; `Refresh` has the refresh, cut at its waits; `Steps` has the
-- histories of a tab.
pub mod State
pub mod Refresh
pub mod Steps
pub mod Warning
pub mod Erasure
pub mod Failures
pub mod Continuity
