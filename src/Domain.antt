-- ===== src/Domain.antt =====
-- The domain layer, internal/domain: its data and the interfaces that the services use.
pub mod Document
pub mod User
