-- ===== src/GitServer/Hooks.antt =====
-- git-server/src/hooks: the pre-receive and post-receive hooks that git-http-backend runs.
pub mod CertStatus
pub mod Types
pub mod Signer
pub mod Updates
pub mod PreReceive
pub mod Delegates
pub mod PostReceive
