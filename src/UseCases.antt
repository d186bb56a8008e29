-- ===== src/UseCases.antt =====
-- internal/application/operations: the use cases that the HTTP handlers call.
pub mod Create
pub mod Cancel
pub mod Retry
pub mod Query
pub mod Upload
pub mod Dispatch
pub mod List
