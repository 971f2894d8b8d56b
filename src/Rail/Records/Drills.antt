-- ===== src/Rail/Records/Drills.antt =====
-- The values of src/recovery-preflight.js: the contract of a drill, its trace, its signed attestation
-- and the bundle of them. The fields of the contract's `scope` and `recourse` stand beside the others.
use consequence_rail.Base.{ℕ, Bool, String, Option, List}
use consequence_rail.Json.{Json}
use consequence_rail.Signing.{Signature}
use consequence_rail.Rail.Records.Kinds.{ActionType, AssuranceMode, RemedyKind}

pub data RecoveryClass : Type 0 where
  exact compensation containment escalation : RecoveryClass

pub data Fidelity : Type 0 where
  synthetic staging production_like : Fidelity

pub data Qualification : Type 0 where
  qualified_exact review_compensated not_qualified not_testable_local : Qualification

-- `fault`, `procedure` and `oracle` of a contract.
pub record DrillStep : Type 0 where
  pub kind : String
  pub version : String
  pub parameters : Json

pub record Fixture : Type 0 where
  pub adapter : String
  pub adapter_version : String
  pub adapter_implementation_digest : String
  pub checkpoint_digest : String
  pub fidelity : Fidelity
  pub configuration : Json

pub record RecoveryContract : Type 0 where
  pub schema_version : String
  pub contract_id : String
  pub action_digest : String
  pub action_class : ActionType
  pub connector : String
  pub resource_type : String
  pub assurance_mode : AssuranceMode
  pub parameters_digest : String
  pub postcondition_digest : String
  pub evidence_plan_digest : String
  pub kind : RemedyKind
  pub capability : String
  pub implementation_digest : String
  pub reservation_digest : String
  pub capability_reference_digest : String
  pub connector_commitment_digest : String
  pub recovery_class : RecoveryClass
  pub fixture : Fixture
  pub fault : DrillStep
  pub procedure : DrillStep
  pub oracle : DrillStep
  pub issued_at : ℕ
  pub expires_at : ℕ
  pub max_attestation_age_seconds : ℕ

-- A state that was not captured is `null`.
pub record Trace : Type 0 where
  pub adapter_id : String
  pub adapter_version : String
  pub adapter_implementation_digest : String
  pub local_testable : Bool
  pub checkpoint_reference_digest : Json
  pub baseline_state : Json
  pub checkpoint_state : Json
  pub damaged_state : Json
  pub recovered_state : Json
  pub fault_observed : Bool
  pub recovery_attempted : Bool
  pub oracle_satisfied : Bool
  pub notes : List String

-- The part of an attestation that the verifier derives again.
pub record AttestationCore : Type 0 where
  pub schema_version : String
  pub contract_digest : String
  pub coverage_digest : String
  pub adapter_digest : String
  pub trace_digest : String
  pub fixture_digest : String
  pub checkpoint_digest : String
  pub fault_digest : String
  pub damaged_state_digest : Option String
  pub procedure_digest : String
  pub oracle_digest : String
  pub recovered_state_digest : Option String
  pub recovery_class : RecoveryClass
  pub fixture_fidelity : Fidelity
  pub qualification : Qualification
  pub drilled_at : ℕ
  pub expires_at : ℕ
  pub limitations : List String

pub record Attestation : Type 0 where
  pub core : AttestationCore
  pub attestation_id : String
  pub signature : Signature

pub record TrustHint : Type 0 where
  pub key_id : String
  pub public_key_pem : String
  pub warning : String

-- RecoveryDrillBundle
pub record RecoveryBundle : Type 0 where
  pub schema_version : String
  pub recovery_contract : RecoveryContract
  pub trace : Trace
  pub drill_attestation : Attestation
  pub trust_hint : TrustHint

-- What `verifyRecoveryPreflight` returns.
pub record RecoveryVerification : Type 0 where
  pub freshness_checked : Bool
  pub qualification : String
  pub contract_digest : String
  pub coverage_digest : String
  pub attestation_digest : String
  pub expires_at : ℕ
  pub trusted_key_id : String
