-- ===== src/Tasks.antt =====
-- The worker's task handlers, internal/tasks, and the identities of internal/vulnerability.
pub mod Severity
pub mod World
pub mod Effects
pub mod Policy
pub mod Vulnerability
pub mod Email
pub mod Notify
pub mod Breach
pub mod Link
pub mod Scan
pub mod ThreatNotify
pub mod Fetch
pub mod Sync
pub mod Mail
pub mod Scheduler
