-- ===== src/Verify/Semantics.antt =====
-- src/verify.js: `verifySemantics` on an audit bundle, and `verifyBundle` with it.
pub mod Settled
use consequence_rail.Base.{
  ℕ, ◌+◌, ◌-◌, ◌*◌, Bool, true, false, not, ◌&&◌, ◌||◌, String, str_eq, Option, none, some, List,
  [], ◌∷◌, leb, ltb, ◌==◌, length, last?, keep, any_of, find_first, if◌then◌else◌, is_some,
}
use consequence_rail.Json.{Json, obj, own, str, bool}
use consequence_rail.Canonical.{Runtime, digest}
use consequence_rail.Errors.{Result, ok, err, rail_error, assert, assert_each, ◌>>=◌, ◌>>◌}
use consequence_rail.Signing.{Keys}
use consequence_rail.State.{
  State, executing, breached, inconclusive, review_required, remedy_failed, remedy_inconclusive,
  satisfied, remediated, code_of_state, same, includes, Outcome, settled, compensated, disputed,
}
use consequence_rail.EventStore.{Event, ChainSummary}
use consequence_rail.Postconditions.{Verdict, evaluate_postcondition, missing_paths}
use consequence_rail.Rail.Records.{
  ActionType, AssuranceMode, enforced, cooperative, observed, Parameters, refund_parameters,
  allocation_parameters, Proposal, RecourseState, Commitment, Reservation, Permit, Accepted,
  Receipt,
}
use consequence_rail.Rail.Encode.{
  action_type_text, proposal_json, commitment_json, accepted_json, verdict_json, recourse_text,
}
use consequence_rail.Rail.Validate.{has_scope_field, covers, same_kind, same_scope, is_active}
use consequence_rail.Verify.{field_is, semantic, replay_states, derive_outcome, state_before}
use consequence_rail.Verify.Bundle.{
  Profile, audit_profile, receipt_profile, Bundle, ActionSummary, same_flag, is_undisputed,
  verify_integrity,
}

abbrev pub is_audit : Profile → Bool
is_audit audit_profile = true
is_audit receipt_profile = false

abbrev pub same_outcome : Outcome → Outcome → Bool
same_outcome settled settled = true
same_outcome compensated compensated = true
same_outcome disputed disputed = true
same_outcome _ _ = false

abbrev is_permitted_mode : AssuranceMode → Bool
is_permitted_mode observed = false
is_permitted_mode _ = true

abbrev is_enforced : AssuranceMode → Bool
is_enforced enforced = true
is_enforced _ = false

-- The state of a `find` or a `stateBeforeEvent` is the named one.
abbrev pub is_state : State → Option String → Bool
is_state s none = false
is_state s (some text) = str_eq text (code_of_state s)

-- `evidence.facts?.key === text`
abbrev reports : String → String → Json → Bool
reports key text facts = field_is key facts text

abbrev reports_effect : Parameters → Json → Bool
reports_effect (refund_parameters amount currency) facts = reports "currency" currency facts
reports_effect (allocation_parameters sku quantity) facts = reports "sku" sku facts
reports_effect _ facts = true

abbrev is_empty : {A : Type 0} → List A → Bool
is_empty [] = true
is_empty (x ∷ xs) = false

-- `payload.key === flag`
abbrev flag_of : Option Json → Bool → Bool
flag_of (some (bool b)) flag = same_flag b flag
flag_of _ flag = false

unfoldable pub flag_is : String → Json → Bool → Bool
unfolding own
flag_is key (obj fields) flag = flag_of (own key fields) flag
flag_is key _ flag = false

abbrev pub acceptance_event : Bool → String
acceptance_event true = "REMEDY_EVIDENCE_ACCEPTED"
acceptance_event false = "EVIDENCE_ACCEPTED"

abbrev acceptance_state : Bool → State
acceptance_state true = State.remedy_verifying
acceptance_state false = State.verifying

-- An element of `evaluations`: whether its phase is "post-remedy", and whether it is satisfied.
abbrev pub Phased : Type 0
Phased = Bool × Bool

-- The states of a disputed lifecycle.
abbrev unresolved : List State
unresolved = inconclusive ∷ review_required ∷ remedy_failed ∷ remedy_inconclusive ∷ []

-- Whether the evidence and the states support the outcome.
unfoldable pub supports : Outcome → List Phased → List State → Bool
unfolding includes
supports settled found states =
    any_of (λ (f : Phased). not f.0 && f.1) found && not (includes breached states)
supports compensated found states =
    any_of (λ (f : Phased). not f.0 && not f.1) found && any_of (λ (f : Phased). f.0 && f.1) found
supports disputed found states = any_of (λ s. includes s unresolved) states

-- `expectedTerminalStates[expectedOutcome]`
abbrev terminal_states : Outcome → List State
terminal_states settled = satisfied ∷ []
terminal_states compensated = remediated ∷ []
terminal_states disputed = inconclusive ∷ remedy_inconclusive ∷ review_required ∷ remedy_failed ∷ []

abbrev is_finalization : Event → Bool
is_finalization e =
    str_eq e.event_type "RECOURSE_FINALIZED" || str_eq e.event_type "RECOURSE_STATUS_RECORDED"

abbrev is_final : Option Event → Bool
is_final none = false
is_final (some e) = is_finalization e

abbrev finalization_event : RecourseState → String
finalization_event RecourseState.active = "RECOURSE_STATUS_RECORDED"
finalization_event _ = "RECOURSE_FINALIZED"

abbrev is_known : RecourseState → Bool
is_known RecourseState.unknown = false
is_known _ = true

-- `events.at(-2)`
abbrev pub second_last? : List Event → Option Event
second_last? [] = none
second_last? (e ∷ []) = none
second_last? (e ∷ f ∷ []) = some e
second_last? (e ∷ f ∷ g ∷ es) = second_last? (f ∷ g ∷ es)

abbrev is_execution : Event → Bool
is_execution e = str_eq e.event_type "STATE_TRANSITION" && field_is "to_state" e.payload "EXECUTING"

abbrev executed_within : Permit → Option Event → Bool
executed_within p none = false
executed_within p (some e) = leb p.issued_at e.recorded_at && ltb e.recorded_at p.expires_at

abbrev closed_at_end : Receipt → Option Event → Bool
closed_at_end r none = false
closed_at_end r (some e) = e.recorded_at == r.closed_at

pub record SemanticVerification : Type 0 where
  pub derived_outcome : Outcome
  pub evidence_count : ℕ

module _ (rt : Runtime) where
  -- The commitment, the reservation and the permit, before the replay.
  abbrev pub recourse_fits : Bundle → Proposal → List Bool
  recourse_fits b p =
      let r = b.recourse_reservation in
      let c = r.connector_commitment in
      let permit = b.action_permit in
      str_eq r.action_digest b.action.action_digest
      ∷ str_eq c.action_digest b.action.action_digest
      ∷ (has_scope_field b.action.action_type c.scope
          && has_scope_field b.action.action_type r.scope)
      ∷ str_eq c.connector r.connector
      ∷ str_eq c.capability r.capability
      ∷ same_kind c.kind r.kind
      ∷ (c.expires_at == r.expires_at)
      ∷ (c.max_attempts == r.max_attempts)
      ∷ same_scope c.scope r.scope
      ∷ is_active c.status
      ∷ leb c.reserved_at permit.issued_at
      ∷ leb (permit.expires_at + r.remedy_window_seconds * 1000) r.expires_at
      ∷ (str_eq (action_type_text b.action.action_type) (action_type_text p.action_type)
          && str_eq b.action.resource_id_digest (digest rt (str p.target.resource_id)))
      ∷ str_eq p.target.connector r.connector
      ∷ (covers p.parameters r.scope && covers p.parameters c.scope)
      ∷ ((permit.max_uses == 1) && is_permitted_mode permit.assurance_mode)
      ∷ same_flag permit.bypass_possible (not (is_enforced permit.assurance_mode))
      ∷ []

  -- The permit and the receipt, against the replayed lifecycle.
  abbrev pub lifecycle_fits : Bundle → Proposal → List State → Outcome → List Bool
  lifecycle_fits b p states outcome =
      let permit = b.action_permit in
      same_outcome b.settlement_receipt.outcome outcome
      ∷ same_flag b.settlement_receipt.postcondition_satisfied (is_undisputed outcome)
      ∷ executed_within permit (find_first is_execution b.events)
      ∷ (permit.expires_at == p.expires_at)
      ∷ (leb p.requested_at permit.issued_at && ltb permit.issued_at p.expires_at)
      ∷ (length (keep (same executing) states) == 1)
      ∷ []

  abbrev accepts : Accepted → Event → Bool
  accepts a e =
      str_eq e.event_type (acceptance_event a.post_remedy)
      && field_is "evidence_digest" e.payload (digest rt (accepted_json rt a))

  -- The evidence, against the proposal.
  abbrev evidence_fits : Accepted → Proposal → List Bool
  evidence_fits a p =
      str_eq a.evidence.action_digest (digest rt (proposal_json rt p))
      ∷ str_eq a.evidence.source p.evidence_plan.source
      ∷ (str_eq a.evidence.resource.type p.target.resource_type
          && str_eq a.evidence.resource.id p.target.resource_id)
      ∷ reports_effect p.parameters a.evidence.facts
      ∷ is_empty (missing_paths rt p.postcondition.clauses a.evidence.facts)
      ∷ []

  -- The acceptance event, against the history.
  abbrev acceptance_fits : Accepted → Proposal → List Event → Event → List Bool
  acceptance_fits a p events e =
      is_state (acceptance_state a.post_remedy) (state_before events e.sequence "PROPOSED")
      ∷ (leb a.evidence.observed_at e.recorded_at
          && leb e.recorded_at (a.evidence.observed_at + p.evidence_plan.max_age_seconds * 1000))
      ∷ []

  abbrev with_acceptance : Accepted → Proposal → List Event → Option Event → Result Phased
  with_acceptance a p events none = err (rail_error "SEMANTIC_INVALID")
  with_acceptance a p events (some e) =
      assert_each "SEMANTIC_INVALID" (acceptance_fits a p events e)
      >> evaluate_postcondition rt p.postcondition a.evidence.facts
      >>= λ verdict.
          assert_each "SEMANTIC_INVALID" (
            str_eq (digest rt (verdict_json rt verdict)) (digest rt a.evaluation)
            ∷ flag_is "satisfied" e.payload verdict.satisfied
            ∷ [])
          >> ok (a.post_remedy, verdict.satisfied)

  -- `verifyEvidenceSemantics(evidence, proposal, events)`
  unfoldable pub verify_evidence_semantics : Accepted → Proposal → List Event → Result Phased
  verify_evidence_semantics a p events =
      assert_each "SEMANTIC_INVALID" (evidence_fits a p)
      >> with_acceptance a p events (find_first (accepts a) events)

  unfoldable pub verify_all_evidence : List Accepted → Proposal → List Event → Result (List Phased)
  verify_all_evidence [] p events = ok []
  verify_all_evidence (a ∷ rest) p events = verify_evidence_semantics a p events >>= λ phased.
      verify_all_evidence rest p events >>= λ others. ok (phased ∷ others)

  -- The single finalization of the recourse, against the receipt.
  abbrev pub finalization_fits : Bundle → Outcome → List Event → List Bool
  finalization_fits b outcome (e ∷ []) =
      let r = b.settlement_receipt in
      (field_is "status" e.payload (recourse_text r.recourse_final_status)
        && field_is "connector_commitment_digest" e.payload
            (digest rt (commitment_json rt b.recourse_reservation.connector_commitment)))
      ∷ is_final (second_last? b.events)
      ∷ str_eq e.event_type (finalization_event r.recourse_final_status)
      ∷ any_of (λ s. is_state s (state_before b.events e.sequence "PROPOSED"))
          (terminal_states outcome)
      ∷ []
  finalization_fits b outcome _ = false ∷ []

  unfoldable pub check_finalization : Bundle → Outcome → Result (Unit {0})
  check_finalization b outcome =
      assert (is_known b.settlement_receipt.recourse_final_status) "SEMANTIC_INVALID"
      >> assert_each "SEMANTIC_INVALID"
          (finalization_fits b outcome (keep is_finalization b.events))
      >> assert (closed_at_end b.settlement_receipt (last? b.events)) "SEMANTIC_INVALID"

  abbrev pub semantics_of : Bundle → Proposal → Result SemanticVerification
  semantics_of b p =
      assert_each "SEMANTIC_INVALID" (recourse_fits b p)
      >> replay_states b.events b.action.action_id b.action.action_digest
      >>= λ states. derive_outcome states >>= λ outcome.
          assert_each "SEMANTIC_INVALID" (lifecycle_fits b p states outcome)
          >> verify_all_evidence b.outcome_evidence p b.events
          >>= λ found.
              assert (supports outcome found states) "SEMANTIC_INVALID"
              >> check_finalization b outcome
              >> ok (record { derived_outcome = outcome; evidence_count = length found })

  abbrev with_proposal : Option Proposal → Bundle → Result SemanticVerification
  with_proposal none b = err (rail_error "SEMANTIC_INVALID")
  with_proposal (some p) b = semantics_of b p

  -- `verifySemantics(bundle)`
  unfoldable pub verify_semantics : Bundle → Result SemanticVerification
  verify_semantics b =
      assert (is_audit b.profile) "SEMANTIC_INVALID" >> with_proposal b.action.proposal b

  -- `verifyBundle(bundle, { trustedKeys, trustedConnectorKeys, requireSemantics: true })`
  unfoldable pub verify_bundle :
      Keys → Keys → Bundle → Result (ChainSummary rt × SemanticVerification)
  verify_bundle keys connector_keys b = verify_integrity rt keys connector_keys b >>= λ chain.
      verify_semantics b >>= λ semantics. ok (chain, semantics)
