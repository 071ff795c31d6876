-- ===== src/GitServer.antt =====
-- The crate git-server: the HTTP front end of git-http-backend, and the hooks that it runs.
pub mod Error
pub mod RefName
pub mod Hooks
pub mod Context
pub mod Alias
pub mod Response
pub mod Handler
pub mod Storage
pub mod Config
pub mod Body
pub mod Start
pub mod Programs
pub mod Push
pub mod Server
