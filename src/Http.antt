-- ===== src/Http.antt =====
-- src/app/http: what the endpoints share.
pub mod Pagination
pub mod Pages
pub mod Security
pub mod Logs
pub mod Auth
pub mod Identity
pub mod Observe
mod Examples
mod Handshakes
