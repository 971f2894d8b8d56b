-- ===== src/Recovery/Contract.antt =====
-- `validateRecoveryContract`. The record types carry the field sets and the enumerations, except that a
-- contract's assurance mode may not be observed.
use consequence_rail.Base.{Bool, true, false, ◌&&◌, str_eq, ltb}
use consequence_rail.Json.{Json, obj}
use consequence_rail.Errors.{Result, assert}
use consequence_rail.Rail.Records.{
  AssuranceMode, enforced, cooperative, observed, DrillStep, Fixture, RecoveryContract,
}
use consequence_rail.Rail.Validate.{non_empty, is_digest, max_duration_seconds, in_bounds}

-- `assertObject`
abbrev is_object : Json → Bool
is_object (obj fields) = true
is_object _ = false

abbrev is_drillable : AssuranceMode → Bool
is_drillable enforced = true
is_drillable cooperative = true
is_drillable observed = false

-- `validateOperation`
abbrev is_step : DrillStep → Bool
is_step s = non_empty s.kind && non_empty s.version && is_object s.parameters

abbrev is_fixture : Fixture → Bool
is_fixture f =
    non_empty f.adapter
    && non_empty f.adapter_version
    && is_digest f.adapter_implementation_digest
    && is_digest f.checkpoint_digest
    && is_object f.configuration

abbrev has_scope : RecoveryContract → Bool
has_scope c =
    non_empty c.connector
    && non_empty c.resource_type
    && is_drillable c.assurance_mode
    && is_digest c.parameters_digest
    && is_digest c.postcondition_digest
    && is_digest c.evidence_plan_digest

abbrev has_recourse : RecoveryContract → Bool
has_recourse c =
    non_empty c.capability
    && is_digest c.implementation_digest
    && is_digest c.reservation_digest
    && is_digest c.capability_reference_digest
    && is_digest c.connector_commitment_digest

-- The contract's window and the age of its attestations.
abbrev pub has_window : RecoveryContract → Bool
has_window c =
    ltb c.issued_at c.expires_at && in_bounds 1 max_duration_seconds c.max_attestation_age_seconds

-- Whether `validateRecoveryContract` returns; every refusal has the code RECOVERY_CONTRACT_INVALID.
unfoldable pub is_valid : RecoveryContract → Bool
is_valid c =
    str_eq c.schema_version "consequence-rail/recovery-contract/v0.1"
    && non_empty c.contract_id
    && is_digest c.action_digest
    && has_scope c
    && has_recourse c
    && is_fixture c.fixture
    && is_step c.fault
    && is_step c.procedure
    && is_step c.oracle
    && has_window c

unfoldable pub validate_recovery_contract : RecoveryContract → Result (Unit {0})
validate_recovery_contract c = assert (is_valid c) "RECOVERY_CONTRACT_INVALID"
