-- ===== src/Rail.antt =====
-- src/rail-class.js, src/rail-schema.js: the orchestrator. `Records` has the artifacts and the
-- action record, `Interface` what the orchestrator takes from its connector and its clock, `Session`
-- the calls on one action, and the other modules its methods by phase.
pub mod Records
pub mod Interface
pub mod Session
pub mod Encode
pub mod Validate
pub mod Lifecycle
pub mod Admission
pub mod Preflight
pub mod Permit
pub mod Execution
pub mod Evidence
pub mod Outcome
pub mod Remedy
pub mod World
pub mod Export
pub mod Guards
pub mod Receipts
pub mod Proposals
pub mod Stable
pub mod History
