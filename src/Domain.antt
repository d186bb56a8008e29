-- ===== src/Domain.antt =====
-- The domain packages: internal/domain/operation, job, node, event and result.
pub mod Json
pub mod Operation
pub mod Text
pub mod Transition
pub mod Job
pub mod Node
pub mod Event
