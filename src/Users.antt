-- ===== src/Users.antt =====
-- src/app/services/user_service.rs: the users, in a database with a cache in front of it.
pub mod User
pub mod Store
pub mod Service
pub mod Coherence
pub mod Table
pub mod Refine
pub mod Calls
pub mod Race
pub mod Login
pub mod Handlers
pub mod Endpoints
mod Memory
mod Examples
mod Requests
