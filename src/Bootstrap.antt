-- ===== src/Bootstrap.antt =====
-- src/bootstrap: what runs beside the server from its start.
pub mod Logger
pub mod Cleanup
mod Examples
