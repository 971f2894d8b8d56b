-- ===== src/Rail/Interface.antt =====
-- What the orchestrator is given: the connector, the clock, the runtime and its own settings. `E` is
-- the state of everything outside the orchestrator; a call may change it, also when it throws.
use consequence_rail.Base.{ℕ, Bool, String, Option, List}
use consequence_rail.Canonical.{Runtime}
use consequence_rail.Errors.{Result}
use consequence_rail.Signing.{Signer, Keys}
use consequence_rail.Rail.Records.{
  Proposal, Request, Commitment, RecourseStatus, ConnectorResult, Reservation, Evidence,
  RecoveryBundle, RecoveryVerification,
}

-- The faults that a call may ask the synthetic connectors to inject.
pub data Fault : Type 0 where
  none duplicate lost_response_before_commit lost_response_after_commit remedy_failure : Fault
  stale_evidence : Fault
  remedy_lost_response_before_commit remedy_lost_response_after_commit : Fault
  post_remedy_stale_evidence post_remedy_false_evidence : Fault

pub record Capabilities : Type 0 where
  pub connector : String
  pub exclusive_credential_custody : Bool
  pub actions : List String
  pub remedies : List String
  pub connector_signing_key_id : String

-- A call into the outside, which returns or throws.
abbrev pub Call : Type 0 → Type 0 → Type 0
Call E A = E → Result A × E

pub record Connector (E : Type 0) : Type 0 where
  pub capabilities : Call E Capabilities
  pub reserve_recourse : Proposal → Request → Call E Commitment
  pub recourse_status : String → Call E RecourseStatus
  pub release_recourse : String → Call E (Unit {0})
  pub execute : Proposal → String → Fault → Call E ConnectorResult
  pub status : String → Call E ConnectorResult
  pub observe : Proposal → Fault → String → Call E Evidence
  pub remediate : Proposal → Reservation → String → Fault → Call E ConnectorResult
  pub remedy_status : String → Call E ConnectorResult

-- The constructor's settings. `verify_recovery_preflight` is recovery-preflight.js's
-- `verifyRecoveryPreflight` with the trusted recovery keys; a time is given where it must be current.
pub record Rail (E : Type 0) : Type 0 where
  pub runtime : Runtime
  pub signer : Signer
  pub connector : Connector E
  pub now : E → ℕ × E
  pub connector_trusted_keys : Keys
  pub require_recovery_preflight : Bool
  pub verify_recovery_preflight : RecoveryBundle → Option ℕ → Result RecoveryVerification
  pub measure_recovery_implementation : Option (E → String → Result String)
  pub max_actions : ℕ
