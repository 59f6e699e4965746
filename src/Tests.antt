-- ===== src/Tests.antt =====
-- Concrete inputs on which the theorems apply.
mod Access
mod Matching
mod Client
mod Manifests
mod Worker
mod Requests
mod Stream
mod Sync
mod Outputs
mod Deliveries
