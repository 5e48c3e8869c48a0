-- ===== src/Controller.antt =====
-- application.rs, `ApplicationController`: what the user sees of a session, how sessions start, are
-- watched, restarted and torn down.
pub mod Status
pub mod Services
pub mod Children
pub mod Session
pub mod Teardown
pub mod Starting
pub mod Proving
pub mod Rollback
pub mod Requests
pub mod Connect
pub mod ConnectTun
pub mod Reconnect
pub mod Monitor
pub mod MonitorProof
pub mod Rows
pub mod Coherence
pub mod Steps
pub mod Cleanup
pub mod Retrying
pub mod Resuming
pub mod Refusing
pub mod Readiness
pub mod Reproving
pub mod Wiring
pub mod Samples
mod Examples
