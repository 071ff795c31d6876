-- ===== src/Extern.antt =====
-- What the services use of code that is not in this repository, as interfaces.
pub mod Peers
pub mod Identity
pub mod Monorepo
pub mod Vars
pub mod Process
pub mod Backend
pub mod Api
pub mod Transaction
pub mod GitConfig
pub mod Surf
pub mod Cobs
pub mod Keystore
pub mod Axum
