-- ===== src/Recovery.antt =====
-- src/recovery-preflight.js: a drill of the remedy on a fixture, signed as an attestation, and its
-- verification by replay. `Encode` has the digested objects, `Contract` the checks of a contract,
-- `Grade` the qualification, `Attest` the attestation, `Drill` the run and `Verify` the verifier.
pub mod Encode
pub mod Contract
pub mod Grade
pub mod Attest
pub mod Drill
pub mod Verify
pub mod Qualified
