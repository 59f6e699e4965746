-- ===== src/Threats/Manifest.antt =====
-- internal/threats/manifest.go: inventory rows from manifests and lockfiles.
pub mod Result
pub mod Row
pub mod Npm
pub mod GoMod
pub mod Requirements
pub mod CargoLock
pub mod Sort
pub mod Parse
