-- ===== src/Service.antt =====
-- The application services, internal/service.
pub mod Documents
pub mod Users
pub mod Auth
