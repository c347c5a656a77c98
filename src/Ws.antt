-- ===== src/Ws.antt =====
-- src/infra/ws and src/app/ws: the WebSocket hub, its sessions, the policy and the cluster bridge.
pub mod Message
pub mod Hub
pub mod Publish
pub mod Policy
pub mod Session
pub mod Cluster
mod Examples
mod Trials
