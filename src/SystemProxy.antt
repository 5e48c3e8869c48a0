-- ===== src/SystemProxy.antt =====
-- src-tauri/src/system_proxy.rs: the session's ownership of the Windows proxy settings.
pub mod Snapshot
pub mod Journal
pub mod Platform
pub mod Manager
pub mod Cleanup
pub mod FetchProxy
