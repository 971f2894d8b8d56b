-- ===== src/Verify/Bundle.antt =====
-- src/verify.js: the settlement bundle and `verifyBundle`'s checks of its integrity. The field sets and
-- types that bundle-validation.js checks are carried by the records.
pub mod Pinned
use consequence_rail.Base.{
  ℕ, ◌+◌, Bool, true, false, not, ◌&&◌, ◌||◌, String, str_eq, Option, none, some, List, [], ◌∷◌,
  leb, last?, map, is_some,
}
use consequence_rail.Json.{Json, str, object}
use consequence_rail.Canonical.{Runtime, digest}
use consequence_rail.Errors.{Result, ok, err, rail_error, assert_each, ◌>>=◌, ◌>>◌}
use consequence_rail.Signing.{Keys, verify_artifact}
use consequence_rail.State.{Outcome, settled, compensated, disputed}
use consequence_rail.EventStore.{Event, ChainSummary, verify_event_chain}
use consequence_rail.Rail.Records.{
  ProposalVersion, version_1, version_2, ActionType, AssuranceMode, enforced, cooperative, observed,
  Proposal, Reservation, Permit, Accepted, Receipt,
}
use consequence_rail.Rail.Encode.{
  action_type_text, proposal_json, commitment_body, commitment_json, reservation_body,
  reservation_json, permit_body, permit_json, accepted_body, accepted_json, receipt_body,
  settlement_reason, outcome_text,
}
use consequence_rail.Verify.{field_is}

pub data Profile : Type 0 where
  receipt_profile audit_profile : Profile

pub record ActionSummary : Type 0 where
  pub action_id : String
  pub action_digest : String
  pub action_type : ActionType
  pub resource_id_digest : String
  pub proposal : Option Proposal

pub record Bundle : Type 0 where
  pub version : ProposalVersion
  pub profile : Profile
  pub action : ActionSummary
  pub recourse_reservation : Reservation
  pub action_permit : Permit
  pub evidence_manifest : List String
  pub outcome_evidence : List Accepted
  pub settlement_receipt : Receipt
  pub events : List Event

abbrev pub same_version : ProposalVersion → ProposalVersion → Bool
same_version version_1 version_1 = true
same_version version_2 version_2 = true
same_version _ _ = false

abbrev pub same_mode : AssuranceMode → AssuranceMode → Bool
same_mode enforced enforced = true
same_mode cooperative cooperative = true
same_mode observed observed = true
same_mode _ _ = false

abbrev pub same_flag : Bool → Bool → Bool
same_flag true b = b
same_flag false b = not b

-- `JSON.stringify(a) === JSON.stringify(b)` on arrays of texts.
unfoldable pub same_texts : List String → List String → Bool
same_texts [] [] = true
same_texts (s ∷ ss) (t ∷ ts) = str_eq s t && same_texts ss ts
same_texts _ _ = false

abbrev pub is_nil : List Accepted → Bool
is_nil [] = true
is_nil _ = false

-- `receipt.event_chain_head === chain.chain_head`
abbrev pub is_head : String → Option String → Bool
is_head head none = false
is_head head (some h) = str_eq head h

-- The largest lag of a receipt's close time, `LEGACY_CLOSE_TIME_LAG_MS`.
abbrev legacy_close_time_lag : ℕ
legacy_close_time_lag = 1000

abbrev pub is_undisputed : Outcome → Bool
is_undisputed disputed = false
is_undisputed _ = true

module _ (rt : Runtime) where
  unfoldable pub verify_evidence : Keys → List Accepted → Result (Unit {0})
  verify_evidence keys [] = ok tt
  verify_evidence keys (e ∷ es) =
      verify_artifact rt (accepted_body rt e) e.signature keys >> verify_evidence keys es

  -- The signatures of the artifacts, in their order.
  abbrev pub verify_signatures : Keys → Keys → Bundle → Result (Unit {0})
  verify_signatures keys connector_keys b =
      let r = b.recourse_reservation in
      let c = r.connector_commitment in
      verify_artifact rt (reservation_body rt r) r.signature keys
      >> verify_artifact rt (commitment_body rt c) c.signature connector_keys
      >> verify_artifact rt (permit_body rt b.action_permit) b.action_permit.signature keys
      >> verify_evidence keys b.outcome_evidence
      >> verify_artifact rt (receipt_body rt b.settlement_receipt) b.settlement_receipt.signature
          keys

  abbrev pub binds_permit : Bundle → Bool
  binds_permit b =
      let p = b.action_permit in
      str_eq p.action_id b.action.action_id
      && str_eq p.action_digest b.action.action_digest
      && str_eq p.recourse_reservation_digest
          (digest rt (reservation_json rt b.recourse_reservation))

  abbrev pub binds_receipt : Bundle → Bool
  binds_receipt b =
      let r = b.settlement_receipt in
      str_eq r.action_id b.action.action_id
      && str_eq r.action_digest b.action.action_digest
      && str_eq r.action_permit_digest (digest rt (permit_json rt b.action_permit))
      && str_eq r.recourse_reservation_digest
          (digest rt (reservation_json rt b.recourse_reservation))
      && str_eq r.connector_recourse_commitment_digest
          (digest rt (commitment_json rt b.recourse_reservation.connector_commitment))
      && same_texts r.evidence_digests b.evidence_manifest

  abbrev pub evidence_digests_of : List Accepted → List String
  evidence_digests_of = map (λ e. digest rt (accepted_json rt e))

  -- The evidence and the proposal that the profile asks for.
  abbrev pub fits_profile : Profile → Bundle → Bool
  fits_profile audit_profile b =
      same_texts b.evidence_manifest (evidence_digests_of b.outcome_evidence)
  fits_profile receipt_profile b = is_nil b.outcome_evidence && not (is_some b.action.proposal)

  abbrev pub discloses_assurance : Bundle → Bool
  discloses_assurance b =
      same_mode b.settlement_receipt.assurance_mode b.action_permit.assurance_mode
      && same_flag b.settlement_receipt.bypass_possible b.action_permit.bypass_possible

  -- The unsigned action summary, against the first event.
  abbrev pub begins_with_action : ActionSummary → List Event → Bool
  begins_with_action a [] = false
  begins_with_action a (e ∷ es) =
      str_eq e.event_type "ACTION_PROPOSED"
      && field_is "action_digest" e.payload a.action_digest
      && field_is "action_type" e.payload (action_type_text a.action_type)

  abbrev pub includes_proposal : Option Proposal → Bundle → Bool
  includes_proposal none b = true
  includes_proposal (some p) b =
      same_version p.schema_version b.version
      && str_eq (digest rt (proposal_json rt p)) b.action.action_digest

  -- The last event is the transition to CLOSED, signed with the receipt's outcome.
  abbrev pub ends_closed : Outcome → Option Event → Bool
  ends_closed o none = false
  ends_closed o (some e) =
      str_eq e.event_type "STATE_TRANSITION"
      && field_is "to_state" e.payload "CLOSED"
      && field_is "reason_code" e.payload (settlement_reason o)
      && field_is "details_digest" e.payload
          (digest rt (object (("outcome", str (outcome_text o)) ∷ [])))

  abbrev close_lags : Receipt → Option Event → Bool
  close_lags r none = false
  close_lags r (some e) =
      leb e.recorded_at r.closed_at && leb r.closed_at (e.recorded_at + legacy_close_time_lag)

  abbrev pub closes_in_time : Profile → Bundle → Bool
  closes_in_time audit_profile b = true
  closes_in_time receipt_profile b = close_lags b.settlement_receipt (last? b.events)

  -- `integrityAssert` on the bindings among the artifacts, once the chain and the signatures are checked.
  unfoldable pub check_bindings : Bundle → Option String → Result (Unit {0})
  check_bindings b head = assert_each "BUNDLE_TAMPERED" (
      same_version b.settlement_receipt.version b.version
      ∷ binds_permit b
      ∷ binds_receipt b
      ∷ fits_profile b.profile b
      ∷ is_head b.settlement_receipt.event_chain_head head
      ∷ discloses_assurance b
      ∷ begins_with_action b.action b.events
      ∷ includes_proposal b.action.proposal b
      ∷ ends_closed b.settlement_receipt.outcome (last? b.events)
      ∷ same_flag b.settlement_receipt.postcondition_satisfied
          (is_undisputed b.settlement_receipt.outcome)
      ∷ closes_in_time b.profile b
      ∷ [])

  -- `verifyBundle` without the lifecycle semantics.
  unfoldable pub verify_integrity : Keys → Keys → Bundle → Result (ChainSummary rt)
  verify_integrity keys connector_keys b = verify_event_chain rt keys b.events >>= λ chain.
      verify_signatures keys connector_keys b >> check_bindings b chain.chain_head >> ok chain
