-- ===== src/Rail/Validate.antt =====
-- The validators of rail-class.js and rail-schema.js. What a record type fixes already (the field
-- sets, the enumerations, integers and timestamps) is not tested again.
use Prim.Native.Nat.{◌^◌, ◌/◌}
use consequence_rail.Base.{
  ℕ, ◌+◌, ◌-◌, ◌*◌, Bool, true, false, not, ◌&&◌, String, str_eq, none, some, List, [], ◌∷◌, leb,
  ltb, ◌==◌, length, every, any_of,
}
use consequence_rail.Json.{obj, Fields}
use consequence_rail.Canonical.{Runtime, representable, code_units}
use consequence_rail.Errors.{Result, ok, err, rail_error, assert, ◌>>◌}
use consequence_rail.Signing.{is_base64url}
use consequence_rail.Postconditions.{evaluate_postcondition, missing_paths}
use consequence_rail.Rail.Records.{
  ProposalVersion, version_2, ActionType, refund, email, allocation, Parameters, refund_parameters,
  email_parameters, allocation_parameters, Proposal, Decision, Request, RemedyKind, reverse,
  compensate, escalate, Scope, max_amount_minor, max_quantity, Commitment, RecourseState, Evidence,
  ActionRecord, ConnectorResult, ResultStatus,
}
use consequence_rail.Rail.Interface.{Fault, Capabilities}
use consequence_rail.Rail.Encode.{proposal_json}

abbrev pub max_safe_integer : ℕ
max_safe_integer = 2 ^ 53 - 1

-- `MAX_DURATION_SECONDS`
abbrev pub max_duration_seconds : ℕ
max_duration_seconds = max_safe_integer / 1000

abbrev pub non_empty : String → Bool
non_empty s = not (str_eq s "")

-- `assertNonEmptyString(value)`
abbrev pub assert_non_empty : String → Result (Unit {0})
assert_non_empty s = assert (non_empty s) "SCHEMA_INVALID"

-- `assertSafeInteger(value, { min, max })`
unfoldable pub in_bounds : ℕ → ℕ → ℕ → Bool
in_bounds low high n = leb low n && leb n high

-- `isExpired(iso, now)`
unfoldable pub is_expired : ℕ → ℕ → Bool
is_expired expiry now = leb expiry now

-- `proposalAdmitsActionType`
unfoldable pub admits : ProposalVersion → ActionType → Bool
admits version_2 allocation = false
admits _ _ = true

-- `/^[A-Z]{3}$/.test(currency)`
unfoldable pub is_currency : String → Bool
unfolding code_units
is_currency s =
    let us = code_units s in (length us == 3) && every (λ u. leb b'A' u && leb u b'Z') us

-- The parameters of the declared action type.
unfoldable pub check_parameters : ActionType → Parameters → Result (Unit {0})
unfolding in_bounds is_currency
check_parameters allocation (allocation_parameters sku quantity) = do
  assert_non_empty sku
  assert (in_bounds 1 max_safe_integer quantity) "SCHEMA_INVALID"
check_parameters refund (refund_parameters amount currency) = do
  assert (in_bounds 1 max_safe_integer amount) "SCHEMA_INVALID"
  assert (is_currency currency) "SCHEMA_INVALID"
check_parameters email (email_parameters recipient subject) = do
  assert_non_empty recipient
  assert_non_empty subject
check_parameters _ _ = err (rail_error "SCHEMA_INVALID")

module _ (rt : Runtime) where
  -- `validateProposal`, up to its reading of the clock.
  unfoldable pub check_proposal : Proposal → Result (Unit {0})
  unfolding admits
  check_proposal p = do
    assert (admits p.schema_version p.action_type) "SCHEMA_INVALID"
    assert_non_empty p.subject.type
    assert_non_empty p.subject.id
    assert_non_empty p.target.connector
    assert_non_empty p.target.resource_type
    assert_non_empty p.target.resource_id
    assert_non_empty p.idempotency_key
    assert (ltb p.requested_at p.expires_at) "SCHEMA_INVALID"

  abbrev pub discard {ℓ} : {A : Type ℓ} → Result A → Result (Unit {0})
  discard (ok a) = ok tt
  discard (err e) = err e

  -- `validateProposal`, from its reading of the clock.
  unfoldable pub check_proposal_at : ℕ → Proposal → Result (Unit {0})
  unfolding is_expired in_bounds check_parameters
  check_proposal_at now p = do
    assert (not (is_expired p.expires_at now)) "ACTION_EXPIRED"
    assert_non_empty p.evidence_plan.source
    assert (in_bounds 1 max_duration_seconds p.evidence_plan.max_age_seconds) "SCHEMA_INVALID"
    discard (evaluate_postcondition rt p.postcondition (obj Fields.end))
    check_parameters p.action_type p.parameters
    assert (representable (proposal_json rt p)) "CANONICALIZATION_FAILED"

-- `assertDigest(value)`
abbrev pub is_digest : String → Bool
is_digest s = is_base64url 43 s

-- The checks of `authorize` on the decision.
unfoldable pub check_decision : Decision → Result (Unit {0})
check_decision d = do
  assert_non_empty d.policy_id
  assert (is_digest d.policy_digest) "SCHEMA_INVALID"
  assert (elim d.evaluation_input_digest [ none ↦ true | some s ↦ is_digest s ]) "SCHEMA_INVALID"

-- Whether the request carries the scope field of the action type: `recourseScopeField`.
unfoldable pub has_scope_field : ActionType → Scope → Bool
has_scope_field allocation (max_quantity n) = true
has_scope_field allocation (max_amount_minor n) = false
has_scope_field _ (max_amount_minor n) = true
has_scope_field _ (max_quantity n) = false

abbrev pub scope_value : Scope → ℕ
scope_value (max_amount_minor n) = n
scope_value (max_quantity n) = n

-- The scope covers the effect; a comparison with an absent field is false.
unfoldable pub covers : Parameters → Scope → Bool
covers (allocation_parameters sku quantity) (max_quantity n) = leb quantity n
covers (refund_parameters amount currency) (max_amount_minor n) = leb amount n
covers (email_parameters recipient subject) scope = true
covers _ _ = false

-- `validateReservation`, up to its call of the connector.
unfoldable pub check_request : ActionRecord → Request → Result (Unit {0})
unfolding has_scope_field
check_request r q = do
  assert (has_scope_field r.proposal.action_type q.scope) "RECOURSE_INVALID"
  assert (is_digest q.action_digest) "RECOURSE_INVALID"
  assert (str_eq q.action_digest r.action_digest) "RECOURSE_INVALID"
  assert (str_eq q.connector r.proposal.target.connector) "RECOURSE_INVALID"

-- `connectorCapabilities`: the texts that must not be empty.
unfoldable pub check_capabilities : Capabilities → Result (Unit {0})
check_capabilities c = do
  assert (non_empty c.connector) "RECOURSE_INVALID"
  assert (non_empty c.connector_signing_key_id) "RECOURSE_INVALID"

-- `validateReservation`, from the capabilities to its reading of the clock.
unfoldable pub check_request_with : Capabilities → Request → Result (Unit {0})
unfolding in_bounds
check_request_with c q = do
  assert (str_eq c.connector q.connector && any_of (λ s. str_eq s q.capability) c.remedies)
      "RECOURSE_INVALID"
  assert (in_bounds 1 max_safe_integer q.max_attempts) "RECOURSE_INVALID"
  assert (non_empty q.capability_reference) "RECOURSE_INVALID"
  assert (in_bounds 0 max_duration_seconds q.remedy_window_seconds) "RECOURSE_INVALID"
  assert (in_bounds 0 max_safe_integer (scope_value q.scope)) "RECOURSE_INVALID"
  assert (non_empty q.idempotency_key) "RECOURSE_INVALID"

-- `validateReservation`, from its reading of the clock.
unfoldable pub check_request_at : ℕ → ActionRecord → Request → Result (Unit {0})
unfolding is_expired covers
check_request_at now r q = do
  assert (not (is_expired q.expires_at now)) "RECOURSE_EXPIRED"
  assert (leb (r.proposal.expires_at + q.remedy_window_seconds * 1000) q.expires_at)
      "RECOURSE_WINDOW_TOO_SHORT"
  assert (covers r.proposal.parameters q.scope) "RECOURSE_INVALID"

abbrev pub same_kind : RemedyKind → RemedyKind → Bool
same_kind reverse reverse = true
same_kind compensate compensate = true
same_kind escalate escalate = true
same_kind _ _ = false

abbrev pub same_scope : Scope → Scope → Bool
same_scope (max_amount_minor m) (max_amount_minor n) = m == n
same_scope (max_quantity m) (max_quantity n) = m == n
same_scope _ _ = false

abbrev pub is_active : RecourseState → Bool
is_active RecourseState.active = true
is_active _ = false

-- `validateConnectorCommitment`
unfoldable pub check_commitment : ActionRecord → Request → Commitment → Result (Unit {0})
unfolding has_scope_field
check_commitment r q c = do
  assert (has_scope_field r.proposal.action_type c.scope) "RECOURSE_COMMITMENT_INVALID"
  assert (str_eq c.schema_version "consequence-rail/connector-recourse-commitment/v0.1")
      "RECOURSE_COMMITMENT_INVALID"
  assert (is_active c.status && non_empty c.reservation_token) "RECOURSE_COMMITMENT_INVALID"
  assert (str_eq c.action_digest q.action_digest) "RECOURSE_COMMITMENT_INVALID"
  assert (str_eq c.connector q.connector) "RECOURSE_COMMITMENT_INVALID"
  assert (str_eq c.capability q.capability) "RECOURSE_COMMITMENT_INVALID"
  assert (same_kind c.kind q.kind) "RECOURSE_COMMITMENT_INVALID"
  assert (c.expires_at == q.expires_at) "RECOURSE_COMMITMENT_INVALID"
  assert (c.max_attempts == q.max_attempts) "RECOURSE_COMMITMENT_INVALID"
  assert (same_scope c.scope q.scope) "RECOURSE_COMMITMENT_INVALID"
  assert (str_eq c.action_digest r.action_digest) "RECOURSE_COMMITMENT_INVALID"

module _ (rt : Runtime) where
  abbrev none_missing {ℓ} : {A : Type ℓ} → List A → Bool
  none_missing [] = true
  none_missing (x ∷ xs) = false

  -- `validateEvidence`, up to its reading of the clock.
  unfoldable pub check_evidence : ActionRecord → Evidence → Result (Unit {0})
  check_evidence r e = do
    assert (str_eq e.schema_version "consequence-rail/outcome-evidence/v0.1")
        "EVIDENCE_SCHEMA_INVALID"
    assert (is_digest e.action_digest) "EVIDENCE_SCHEMA_INVALID"
    assert (str_eq e.action_digest r.action_digest) "EVIDENCE_ACTION_MISMATCH"
    assert (str_eq e.source r.proposal.evidence_plan.source) "EVIDENCE_SOURCE_UNTRUSTED"
    assert
        (str_eq e.resource.type r.proposal.target.resource_type
          && str_eq e.resource.id r.proposal.target.resource_id)
        "EVIDENCE_RESOURCE_MISMATCH"
    assert (elim e.facts [ obj fs ↦ true | _ ↦ false ]) "EVIDENCE_SCHEMA_INVALID"
    assert (representable e.facts) "CANONICALIZATION_FAILED"
    assert (none_missing (missing_paths rt r.proposal.postcondition.clauses e.facts))
        "EVIDENCE_FACT_MISSING"

-- `validateEvidence`, from its reading of the clock.
unfoldable pub check_evidence_at : ℕ → ActionRecord → Evidence → Result (Unit {0})
check_evidence_at now r e = do
  assert (leb e.observed_at now) "EVIDENCE_FROM_FUTURE"
  assert (leb (now - e.observed_at) (r.proposal.evidence_plan.max_age_seconds * 1000))
      "EVIDENCE_STALE"

-- `assertConnectorResult`: the key and the admitted statuses.
unfoldable pub check_result :
    (ResultStatus → Bool) → String → String → ConnectorResult → Result (Unit {0})
check_result admitted code key result = do
  assert (str_eq result.idempotency_key key) code
  assert (admitted result.status) code

-- EXECUTION_RESULTS, EXECUTION_STATUSES, REMEDY_RESULTS, REMEDY_STATUSES
abbrev pub execution_results : ResultStatus → Bool
execution_results ResultStatus.executed = true
execution_results _ = false

abbrev pub execution_statuses : ResultStatus → Bool
execution_statuses ResultStatus.executed = true
execution_statuses ResultStatus.no_effect = true
execution_statuses ResultStatus.unknown = true
execution_statuses _ = false

abbrev pub remedy_results : ResultStatus → Bool
remedy_results ResultStatus.remediated = true
remedy_results ResultStatus.failed = true
remedy_results ResultStatus.no_effect = true
remedy_results ResultStatus.no_change = true
remedy_results _ = false

abbrev pub remedy_statuses : ResultStatus → Bool
remedy_statuses ResultStatus.executed = false
remedy_statuses _ = true

-- EXECUTION_FAULTS, EVIDENCE_FAULTS, REMEDIATION_FAULTS, REMEDY_EVIDENCE_FAULTS
abbrev pub execution_faults : Fault → Bool
execution_faults Fault.none = true
execution_faults Fault.duplicate = true
execution_faults Fault.lost_response_before_commit = true
execution_faults Fault.lost_response_after_commit = true
execution_faults Fault.remedy_failure = true
execution_faults _ = false

abbrev pub evidence_faults : Fault → Bool
evidence_faults Fault.none = true
evidence_faults Fault.stale_evidence = true
evidence_faults _ = false

abbrev pub remediation_faults : Fault → Bool
remediation_faults Fault.none = true
remediation_faults Fault.remedy_failure = true
remediation_faults Fault.remedy_lost_response_before_commit = true
remediation_faults Fault.remedy_lost_response_after_commit = true
remediation_faults Fault.post_remedy_stale_evidence = true
remediation_faults Fault.post_remedy_false_evidence = true
remediation_faults _ = false

abbrev pub remedy_evidence_faults : Fault → Bool
remedy_evidence_faults Fault.none = true
remedy_evidence_faults Fault.post_remedy_stale_evidence = true
remedy_evidence_faults Fault.post_remedy_false_evidence = true
remedy_evidence_faults _ = false
