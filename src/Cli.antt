-- ===== src/Cli.antt =====
-- packages/cli/src: the command line tool.
pub mod RefreshLock
pub mod TokenRefresh
pub mod TomlConfig
