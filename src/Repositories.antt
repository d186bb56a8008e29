-- ===== src/Repositories.antt =====
-- internal/infrastructure/mariadb/repositories: each method is an action that runs the
-- statements on the tables of the world.
pub mod Operations
pub mod Jobs
pub mod Attempts
pub mod Transfers
pub mod Chunks
pub mod Idempotency
pub mod Events
pub mod Nodes
pub mod Heartbeats
pub mod Posts
