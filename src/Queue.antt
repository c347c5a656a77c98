-- ===== src/Queue.antt =====
-- src/infra/queue: jobs, the in-memory backend, the dispatcher and the worker.
pub mod Job
pub mod Channel
pub mod Database
pub mod Dispatcher
pub mod Worker
pub mod Routing
mod Examples
