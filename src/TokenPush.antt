-- ===== src/TokenPush.antt =====
-- cmd/token-push: the command that sets up the services and leads them through the workers.
pub mod Run
pub mod Schedds
pub mod Configuration
pub mod Timeouts
