-- ===== src/Http.antt =====
-- What the HTTP side checks of a request: internal/pagination and internal/middleware.
pub mod Ownership
pub mod Pagination
pub mod RateLimit
