-- ===== src/Checks.antt =====
-- A small world in which the interfaces are met, and the theorems and tests at it.
pub mod Toy
mod PreReceive
mod Push
mod PostReceive
mod Input
pub mod Server
pub mod Start
pub mod Jobs
pub mod Web
mod Replies
mod Runs
pub mod Surf
mod Browse
mod Delegates
mod Setup
pub mod Api
pub mod Sessions
mod Storage
