-- ===== src/Memory.antt =====
-- Servers in memory, which do what the interfaces to GORM, Redis, MinIO and Kafka ask for: they
-- show that the hypotheses can be met, and run the model in tests.
mod Table
mod Servers
pub mod Tests
mod Witnesses
mod Worker
mod Users
mod Jwt
mod Auth
mod RoundTrip
mod Requests
mod Web
mod Routes
mod Replies
mod Wired
mod Steps
mod Races
mod Processes
mod Shared
