-- ===== src/Orchestrator.antt =====
-- The orchestrator (orchestrator/sdlc_orchestrator): it hands the work items of a project from role to
-- role, and keeps the assignments and the runs of the agents in a database.
pub mod Statuses
pub mod Items
pub mod Response
pub mod Repair
pub mod Reconciler
pub mod Snapshot
pub mod Cycle
pub mod Database
pub mod Transitions
pub mod Tests
