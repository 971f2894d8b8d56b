-- ===== src/Rail/Records.antt =====
-- The values of rail-class.js: inputs, signed artifacts and the action record. A field set that
-- `assertExactFields` closes is a record; numbers that `assertSafeInteger` admits are naturals, and
-- a timestamp is its number of milliseconds.
mod Drills
mod Kinds
use consequence_rail.Base.{ℕ, Bool, String, Option, List}
use consequence_rail.Json.{Json}
use consequence_rail.Signing.{Signature}
use consequence_rail.State.{State, Outcome}
use consequence_rail.Postconditions.{Postcondition}
pub use Drills.*
pub use Kinds.*

pub record Subject : Type 0 where
  pub type : String
  pub id : String

pub record Target : Type 0 where
  pub connector : String
  pub resource_type : String
  pub resource_id : String

pub record EvidencePlan : Type 0 where
  pub source : String
  pub max_age_seconds : ℕ

-- ActionProposal
pub record Proposal : Type 0 where
  pub schema_version : ProposalVersion
  pub action_type : ActionType
  pub subject : Subject
  pub target : Target
  pub parameters : Parameters
  pub idempotency_key : String
  pub requested_at : ℕ
  pub expires_at : ℕ
  pub assurance_mode : AssuranceMode
  pub postcondition : Postcondition
  pub evidence_plan : EvidencePlan

-- AuthorizationDecision; an absent field is `none`.
pub record Decision : Type 0 where
  pub allow : Bool
  pub policy_id : String
  pub policy_digest : String
  pub evaluation_input_digest : Option String
  pub require_recovery_preflight : Option Bool

pub record Authorization : Type 0 where
  pub allow : Bool
  pub policy_id : String
  pub policy_digest : String
  pub evaluation_input_digest : Option String
  pub require_recovery_preflight : Bool
  pub decided_at : ℕ

-- The remedy scope field: `max_amount_minor` or `max_quantity`.
pub data Scope : Type 0 where
  max_amount_minor : ℕ → Scope
  max_quantity : ℕ → Scope

-- RecourseReservation request
pub record Request : Type 0 where
  pub action_digest : String
  pub kind : RemedyKind
  pub connector : String
  pub capability : String
  pub capability_reference : String
  pub expires_at : ℕ
  pub remedy_window_seconds : ℕ
  pub max_attempts : ℕ
  pub idempotency_key : String
  pub scope : Scope

pub data RecourseState : Type 0 where
  active expired released consumed unknown : RecourseState

pub record RecourseStatus : Type 0 where
  pub reservation_token : String
  pub status : RecourseState

-- ConnectorRecourseCommitment
pub record Commitment : Type 0 where
  pub schema_version : String
  pub reservation_token : String
  pub action_digest : String
  pub connector : String
  pub capability : String
  pub kind : RemedyKind
  pub expires_at : ℕ
  pub max_attempts : ℕ
  pub scope : Scope
  pub reserved_at : ℕ
  pub status : RecourseState
  pub signature : Signature

-- RecourseReservation, as signed; `reservation_id` is derived from the fields above it.
pub record Reservation : Type 0 where
  pub action_digest : String
  pub kind : RemedyKind
  pub connector : String
  pub capability : String
  pub capability_reference_digest : String
  pub expires_at : ℕ
  pub remedy_window_seconds : ℕ
  pub max_attempts : ℕ
  pub scope : Scope
  pub idempotency_key_digest : String
  pub connector_commitment : Commitment
  pub reservation_id : String
  pub reserved_at : ℕ
  pub signature : Signature

-- ActionPermit
pub record Permit : Type 0 where
  pub permit_id : String
  pub action_id : String
  pub action_digest : String
  pub recourse_reservation_digest : String
  pub assurance_mode : AssuranceMode
  pub bypass_possible : Bool
  pub jti : String
  pub issued_at : ℕ
  pub expires_at : ℕ
  pub max_uses : ℕ
  pub signature : Signature

-- OutcomeEvidence, as a connector reports it.
pub record Evidence : Type 0 where
  pub schema_version : String
  pub action_digest : String
  pub source : String
  pub resource : Subject
  pub observed_at : ℕ
  pub facts : Json

-- The evidence with its evaluation, as `acceptEvidence` signs it.
pub record Accepted : Type 0 where
  pub evidence : Evidence
  pub satisfied : Bool
  pub evaluation : Json
  pub post_remedy : Bool
  pub signature : Signature

pub data ResultStatus : Type 0 where
  executed no_effect unknown remediated failed no_change : ResultStatus

-- What `execute`, `status`, `remediate` and `remedyStatus` of a connector answer.
pub record ConnectorResult : Type 0 where
  pub status : ResultStatus
  pub idempotency_key : String
  pub external_id : Option String

-- SettlementReceipt; the constant texts are left out.
pub record Receipt : Type 0 where
  pub version : ProposalVersion
  pub receipt_id : String
  pub action_id : String
  pub action_digest : String
  pub recourse_reservation_digest : String
  pub connector_recourse_commitment_digest : String
  pub recourse_final_status : RecourseState
  pub action_permit_digest : String
  pub assurance_mode : AssuranceMode
  pub bypass_possible : Bool
  pub outcome : Outcome
  pub postcondition_satisfied : Bool
  pub evidence_digests : List String
  pub event_chain_head : String
  pub closed_at : ℕ
  pub signature : Signature

-- The reservation with its digest, and the permit with its digest, as the methods set them.
pub record Reserved : Type 0 where
  pub reservation : Reservation
  pub reservation_digest : String
  pub remedy_idempotency_key : String

pub record Permitted : Type 0 where
  pub permit : Permit
  pub permit_digest : String

-- The entry of `this.actions`. A field that is not set yet is `none`.
pub record ActionRecord : Type 0 where
  pub action_id : String
  pub action_digest : String
  pub proposal : Proposal
  pub state : State
  pub permit_uses : ℕ
  pub remedy_attempts : ℕ
  pub evidence : List Accepted
  pub receipt : Option Receipt
  pub authorization : Option Authorization
  pub recovery_preflight : Option (RecoveryBundle × RecoveryVerification)
  pub reserved : Option Reserved
  pub permitted : Option Permitted
  pub execution : Option ConnectorResult
  pub remedy_result : Option ConnectorResult
  pub recourse_status_recorded : Option RecourseStatus
