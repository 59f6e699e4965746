-- ===== src/Threats.antt =====
-- Threat intelligence, internal/threats: manifests, advisories, the KEV catalog and the matcher.
pub mod Records
pub mod Advisory
pub mod Ecosystem
pub mod Kev
pub mod Runtime
pub mod Version
pub mod Matcher
pub mod Manifest
pub mod Osv
