-- ===== src/HttpApi.antt =====
-- The HTTP API: http-api/src.
pub mod Error
pub mod Auth
pub mod Sessions
pub mod Pages
pub mod Head
pub mod Commits
pub mod Changeset
pub mod Projects
pub mod Fingerprints
pub mod Browse
pub mod Aliases
pub mod Source
pub mod Remotes
pub mod Cobs
pub mod AxumExtra
pub mod Routes
pub mod Reply
pub mod Server
pub mod Programs
