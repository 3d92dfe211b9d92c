-- ===== src/Dataplane.antt =====
-- pkg/dataplane/postgres_store.go: the control store over PostgreSQL.
pub mod Tables
pub mod Faults
pub mod Prepaid
pub mod Keys
pub mod Providers
pub mod Usage
pub mod Store
mod Tests
