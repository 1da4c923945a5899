-- ===== src/Infra.antt =====
-- The infrastructure layer, internal/infra: the adapters between the domain and the servers.
pub mod Mysql
pub mod Redis
pub mod Minio
pub mod Kafka
pub mod Clients
