-- ===== src/Rail/Export.antt =====
-- rail-class.js: `exportBundle`. The trust hint is left out; no check reads it.
use consequence_rail.Base.{Option, none, some, List, [], map}
use consequence_rail.Json.{str}
use consequence_rail.Canonical.{Runtime, digest}
use consequence_rail.Errors.{Result, ok, err, rail_error, foreign}
use consequence_rail.EventStore.{Event}
use consequence_rail.Rail.Records.{Proposal, Accepted, Receipt, Reserved, Permitted, ActionRecord}
use consequence_rail.Rail.Encode.{accepted_json}
use consequence_rail.Verify.Bundle.{Profile, audit_profile, receipt_profile, Bundle}

abbrev proposal_for : Profile → Proposal → Option Proposal
proposal_for audit_profile p = some p
proposal_for receipt_profile p = none

abbrev evidence_for : Profile → List Accepted → List Accepted
evidence_for audit_profile evidence = evidence
evidence_for receipt_profile evidence = []

module _ (rt : Runtime) where
  abbrev bundle_of : Profile → ActionRecord → List Event → Reserved → Permitted → Receipt → Bundle
  bundle_of profile r events reserved permitted receipt = record {
    version = r.proposal.schema_version;
    profile = profile;
    action = record {
      action_id = r.action_id;
      action_digest = r.action_digest;
      action_type = r.proposal.action_type;
      resource_id_digest = digest rt (str r.proposal.target.resource_id);
      proposal = proposal_for profile r.proposal;
    };
    recourse_reservation = reserved.reservation;
    action_permit = permitted.permit;
    evidence_manifest = map (λ a. digest rt (accepted_json rt a)) r.evidence;
    outcome_evidence = evidence_for profile r.evidence;
    settlement_receipt = receipt;
    events = events;
  }

  -- An action with a receipt has its reservation and its permit.
  abbrev with_artifacts :
      Profile
      → ActionRecord
      → List Event
      → Option Reserved
      → Option Permitted
      → Receipt
      → Result Bundle
  with_artifacts profile r events (some reserved) (some permitted) receipt =
      ok (bundle_of profile r events reserved permitted receipt)
  with_artifacts profile r events _ _ receipt = err foreign

  abbrev with_receipt : Profile → ActionRecord → List Event → Option Receipt → Result Bundle
  with_receipt profile r events none = err (rail_error "RECEIPT_NOT_AVAILABLE")
  with_receipt profile r events (some receipt) =
      with_artifacts profile r events r.reserved r.permitted receipt

  -- `exportBundle(actionId, { profile })`, on the action's record and its events.
  unfoldable pub export_bundle : Profile → ActionRecord → List Event → Result Bundle
  export_bundle profile r events = with_receipt profile r events r.receipt
