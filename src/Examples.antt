-- ===== src/Examples.antt =====
-- A concrete run: a refund that is proposed, authorized, covered by recourse, executed and verified, on
-- a runtime whose primitives are written out. The environment is a clock that ticks at every reading.
pub mod Bundles
pub mod Connectors
pub mod Inputs
pub mod Preflight
pub mod Witnesses
use consequence_rail.Base.{
  ℕ, ◌+◌, ◌≡◌, refl, Bool, true, false, String, Option, none, some, List, [], ◌∷◌, take, lookup,
  insert, String-discrete, Dict,
}
use consequence_rail.Canonical.{
  code_units, string_units, key_before, representable, insert_key, join_fields, canonical_json,
  digest, copy_json, copy_items, copy_fields, write, write_items, write_fields,
}
use consequence_rail.EventStore.{next_event, append, check_event, check_events}
use consequence_rail.Json.{own, Json-discrete}
use consequence_rail.Postconditions.{
  leb_ℤ, holds, split_path, own_item, resolve_path, missing_paths, check_clause, evaluate_clauses,
  evaluate_postcondition,
}
use consequence_rail.Rail.Admission.{
  authorize, validate_reservation, accept_commitment, reserve_recourse,
}
use consequence_rail.Rail.Encode.{
  proposal_json, commitment_body, commitment_json, reservation_seed, reservation_body,
  reservation_json, permit_body, permit_json, verdict_json, accepted_body, accepted_json,
  receipt_body,
}
use consequence_rail.Rail.Evidence.{
  validate_evidence, accept_evidence, reject_evidence, fail_closed,
}
use consequence_rail.Rail.Execution.{
  is_definite_refusal, need_permitted, consume_permit, consume_from, check_candidate, spend_permit,
  run_execution, refuse_execution, doubt_execution, handle_execution_error, execute, settle_status,
  reconcile,
}
use consequence_rail.Rail.Lifecycle.{
  assert_state, need_reserved, read_recourse_status, release_if, record_recourse, finalize_with,
  finalize_recourse, issue_receipt, close, expire, expire_and_throw, assert_not_expired,
  connector_capabilities,
}
use consequence_rail.Rail.Outcome.{
  and_then, observe_or_close, handle_evidence_error, accept_or_close, settle, breach, conclude,
  record_outcome, verify_outcome,
}
use consequence_rail.Rail.Permit.{
  revoke, demand_active_recourse, grant_permit, preflight_gate, issue_permit,
}
use consequence_rail.Rail.Preflight.{
  measured_digest, recovery_implementation_digest, assert_recovery_binding,
  accept_recovery_qualification, current_time, check_accepted_preflight, recheck_preflight,
}
use consequence_rail.Rail.Remedy.{
  review, remedy_has_failed, observe_remedy, record_remedy_outcome, verify_remedy_outcome,
  run_remedy, conflict, doubt_remedy, handle_remedy_error, conclude_remedy, attempt_remedy,
  remediate_by, remediate_with, remediate_in_time, remediate, settle_remedy_status,
  reconcile_remedy,
}
use consequence_rail.Rail.Session.{
  Session, pure, throw, lift, gets, call, peek, attempt, ◌>>=◌, assign, write_event, append_event,
  set_state, commit_transition, transition,
}
use consequence_rail.Rail.Validate.{
  in_bounds, is_expired, admits, is_currency, check_parameters, check_proposal, check_proposal_at,
  check_decision, has_scope_field, covers, check_request, check_capabilities, check_request_with,
  check_request_at, check_commitment, check_evidence, check_evidence_at, check_result,
}
use consequence_rail.Rail.World.{register, guarded, propose, on_action, run, perform, perform_all}
use consequence_rail.Signing.{is_base64url, sign_artifact, check_key, verify_artifact}
use consequence_rail.State.{same, includes, successors, allowed, receipt_outcome}
use consequence_rail.Verify.{
  text_field, field_is, named_successor, replay_transition, replay_event, replay_events,
  begins_with, replay_states, derive_outcome,
}
use consequence_rail.Verify.Replay.{IsAscending}
use consequence_rail.Canonical.{Runtime}
use consequence_rail.Json.{Json, str, object}
use consequence_rail.Errors.{ok}
use consequence_rail.Signing.{Signer, Signature, Keys}
use consequence_rail.State.{State}
use consequence_rail.Postconditions.{Operator, Clause, Postcondition}
use consequence_rail.Rail.Records.{
  ProposalVersion, ActionType, AssuranceMode, Parameters, Proposal, Decision, RemedyKind, Scope,
  Request, RecourseState, RecourseStatus, Commitment, Reservation, Evidence, ResultStatus,
  ConnectorResult, ActionRecord, RecoveryBundle, RecoveryVerification,
}
use consequence_rail.Rail.Interface.{Fault, Capabilities, Connector, Rail}
use consequence_rail.Rail.Stable.Commands.{session_of}
use consequence_rail.Rail.World.{World, Command, Call, empty_world, new_record}

abbrev pub digest_text : String
digest_text = "AAAAAAAAAAAAAAAAAAAAAAAAAAAAAAAAAAAAAAAAAAA"

abbrev pub signature_text : String
signature_text =
    "AAAAAAAAAAAAAAAAAAAAAAAAAAAAAAAAAAAAAAAAAAAAAAAAAAAAAAAAAAAAAAAAAAAAAAAAAAAAAAAAAAAAAA"

abbrev pub runtime : Runtime
runtime = record {
  stringify_text = λ s. s;
  stringify_number = λ n. "0";
  sha256 = λ s. digest_text;
  crypto_sign = λ key message. signature_text;
  crypto_verify = λ key message value. true;
  to_iso = λ t. "";
  recode_base64url = λ s. s;
}

abbrev pub signer : Signer
signer = record { kid = "rail"; private_key = "k"; public_key = "p"; public_key_pem = "" }

abbrev pub keys : Keys
keys = ("rail", "p") ∷ []

abbrev pub connector_signature : Signature
connector_signature = record { algorithm = "Ed25519"; key_id = "c"; value = signature_text }

abbrev pub commitment : Request → Commitment
commitment q = record {
  schema_version = "consequence-rail/connector-recourse-commitment/v0.1";
  reservation_token = "token";
  action_digest = q.action_digest;
  connector = q.connector;
  capability = q.capability;
  kind = q.kind;
  expires_at = q.expires_at;
  max_attempts = q.max_attempts;
  scope = q.scope;
  reserved_at = 0;
  status = RecourseState.active;
  signature = connector_signature;
}

abbrev pub evidence : ℕ → Proposal → String → Evidence
evidence now p d = record {
  schema_version = "consequence-rail/outcome-evidence/v0.1";
  action_digest = d;
  source = p.evidence_plan.source;
  resource = record { type = p.target.resource_type; id = p.target.resource_id };
  observed_at = now;
  facts = object (("status", str "refunded") ∷ ("currency", str "EUR") ∷ []);
}

abbrev pub connector : Connector ℕ
connector = record {
  capabilities = λ t. (
    ok (record {
      connector = "bank";
      exclusive_credential_custody = true;
      actions = "refund" ∷ [];
      remedies = "reversal" ∷ [];
      connector_signing_key_id = "c";
    }),
    t,
  );
  reserve_recourse = λ p q t. (ok (commitment q), t);
  recourse_status =
      λ token t. (ok (record { reservation_token = token; status = RecourseState.active }), t);
  release_recourse = λ token t. (ok tt, t);
  execute = λ p key fault t. (
    ok (record { status = ResultStatus.executed; idempotency_key = key; external_id = some "x" }),
    t,
  );
  status = λ key t. (
    ok (record { status = ResultStatus.executed; idempotency_key = key; external_id = some "x" }),
    t,
  );
  observe = λ p fault d t. (ok (evidence t p d), t);
  remediate = λ p v key fault t. (
    ok (record { status = ResultStatus.remediated; idempotency_key = key; external_id = none }),
    t,
  );
  remedy_status = λ key t. (
    ok (record { status = ResultStatus.remediated; idempotency_key = key; external_id = none }),
    t,
  );
}

abbrev pub rail : Rail ℕ
rail = record {
  runtime = runtime;
  signer = signer;
  connector = connector;
  now = λ t. (t, t + 1);
  connector_trusted_keys = ("c", "q") ∷ [];
  require_recovery_preflight = false;
  verify_recovery_preflight = λ b now. ok (record {
    freshness_checked = true;
    qualification = "QUALIFIED_EXACT";
    contract_digest = "";
    coverage_digest = "";
    attestation_digest = "";
    expires_at = 0;
    trusted_key_id = "";
  });
  measure_recovery_implementation = none;
  max_actions = 2;
}

abbrev pub proposal : Proposal
proposal = record {
  schema_version = ProposalVersion.version_2;
  action_type = ActionType.refund;
  subject = record { type = "agent"; id = "a" };
  target = record { connector = "bank"; resource_type = "order"; resource_id = "o" };
  parameters = Parameters.refund_parameters 500 "EUR";
  idempotency_key = "key";
  requested_at = 0;
  expires_at = 1_000;
  assurance_mode = AssuranceMode.enforced;
  postcondition = record {
    clauses = record { path = "status"; op = Operator.eq; value = str "refunded" } ∷ [];
  };
  evidence_plan = record { source = "ledger"; max_age_seconds = 60 };
}

abbrev pub decision : Decision
decision = record {
  allow = true;
  policy_id = "policy";
  policy_digest = digest_text;
  evaluation_input_digest = none;
  require_recovery_preflight = none;
}

abbrev pub request : Request
request = record {
  action_digest = digest_text;
  kind = RemedyKind.reverse;
  connector = "bank";
  capability = "reversal";
  capability_reference = "ref";
  expires_at = 5_000;
  remedy_window_seconds = 1;
  max_attempts = 1;
  idempotency_key = "remedy";
  scope = Scope.max_amount_minor 500;
}

abbrev pub action_id : String
action_id = "act_AAAAAAAAAAAAAAAAAAAA"

abbrev pub calls : List Call
calls =
    Call.proposes proposal
    ∷ Call.commands action_id (Command.authorizes decision)
    ∷ Call.commands action_id (Command.reserves request)
    ∷ Call.commands action_id Command.permits
    ∷ Call.commands action_id (Command.executes Fault.none none)
    ∷ Call.commands action_id (Command.verifies Fault.none)
    ∷ []

-- The store after a sequence of calls. Opening this opens every method.
unfoldable pub store_after : List Call → World ℕ
unfolding code_units string_units key_before representable insert_key join_fields canonical_json
    digest copy_json copy_items copy_fields write write_items write_fields next_event append
    check_event check_events own Json-discrete leb_ℤ holds split_path own_item resolve_path
    missing_paths check_clause evaluate_clauses evaluate_postcondition authorize
    validate_reservation accept_commitment reserve_recourse proposal_json commitment_body
    commitment_json reservation_seed reservation_body reservation_json permit_body permit_json
    verdict_json accepted_body accepted_json receipt_body validate_evidence accept_evidence
    reject_evidence fail_closed is_definite_refusal need_permitted consume_permit consume_from
    check_candidate spend_permit run_execution refuse_execution doubt_execution
    handle_execution_error execute settle_status reconcile assert_state need_reserved
    read_recourse_status release_if record_recourse finalize_with finalize_recourse issue_receipt
    close expire expire_and_throw assert_not_expired connector_capabilities and_then
    observe_or_close handle_evidence_error accept_or_close settle breach conclude record_outcome
    verify_outcome revoke demand_active_recourse grant_permit preflight_gate issue_permit
    measured_digest recovery_implementation_digest assert_recovery_binding
    accept_recovery_qualification current_time check_accepted_preflight recheck_preflight review
    remedy_has_failed observe_remedy record_remedy_outcome verify_remedy_outcome run_remedy conflict
    doubt_remedy handle_remedy_error conclude_remedy attempt_remedy remediate_by remediate_with
    remediate_in_time remediate settle_remedy_status reconcile_remedy pure throw lift gets call peek
    attempt ◌>>=◌ assign write_event append_event set_state commit_transition transition in_bounds
    is_expired admits is_currency check_parameters check_proposal check_proposal_at check_decision
    has_scope_field covers check_request check_capabilities check_request_with check_request_at
    check_commitment check_evidence check_evidence_at check_result register guarded propose
    on_action run perform perform_all is_base64url sign_artifact check_key verify_artifact same
    includes successors allowed receipt_outcome text_field field_is named_successor
    replay_transition replay_event replay_events begins_with replay_states derive_outcome
    IsAscending lookup insert String-discrete
store_after cs = perform_all rail cs (empty_world rail 1)

abbrev pub record_or : Option ActionRecord → ActionRecord → ActionRecord
record_or none s = s
record_or (some r) s = r

abbrev pub final_world : World ℕ
final_world = perform_all rail calls (empty_world rail 1)

-- The record of the action at the end.
abbrev pub final_record : ActionRecord
final_record = record_or (lookup action_id final_world.actions) (new_record rail "" proposal)

-- The session of the action once its permit is issued.
abbrev pub permitted_world : World ℕ
permitted_world = perform_all rail (take 4 calls) (empty_world rail 1)

abbrev pub permitted_session : Session ℕ
permitted_session =
    session_of permitted_world action_id
      (record_or (lookup action_id permitted_world.actions) (new_record rail "" proposal))

abbrev executed_world : World ℕ
executed_world = perform_all rail (take 5 calls) (empty_world rail 1)

abbrev executed_record : ActionRecord
executed_record = record_or (lookup action_id executed_world.actions) (new_record rail "" proposal)

-- The session in which a satisfied action is about to be closed.
abbrev pub satisfied_session : Session ℕ
satisfied_session =
    session_of executed_world action_id (record executed_record { state = State.satisfied })
