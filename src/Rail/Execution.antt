-- ===== src/Rail/Execution.antt =====
-- rail-class.js: `execute` and `reconcile`, each cut at its `await` of the connector.
use consequence_rail.Base.{
  ◌+◌, Bool, true, ◌||◌, String, str_eq, Option, none, some, [], ◌∷◌, ◌==◌, if◌then◌else◌,
}
use consequence_rail.Json.{Json, str, nat, object}
use consequence_rail.Canonical.{digest}
use consequence_rail.Errors.{Thrown, rail_error, foreign, has_code}
use consequence_rail.Signing.{verify_artifact}
use consequence_rail.State.{permitted, executing, executed, failed, unknown, review_required}
use consequence_rail.Rail.Records.{ActionRecord, Proposal, Permitted, ConnectorResult, ResultStatus}
use consequence_rail.Rail.Interface.{Rail, Fault}
use consequence_rail.Rail.Encode.{proposal_json, permit_body}
use consequence_rail.Rail.Validate.{check_result, execution_results, execution_statuses}
use consequence_rail.Rail.Preflight.{recheck_preflight}
use consequence_rail.Rail.Permit.{demand_active_recourse}
use consequence_rail.Rail.Session.{
  Method, throw, lift, call, require, get_record, assign, transition, attempt, ◌>>=◌, ◌>>◌,
}
use consequence_rail.Rail.Lifecycle.{
  assert_state, assert_not_expired, need_reserved, finalize_recourse, close, present,
}

-- `isDefiniteExecutionRefusal(error)`
unfoldable pub is_definite_refusal : Thrown → Bool
is_definite_refusal e = has_code "IDEMPOTENCY_CONFLICT" e || has_code "INVENTORY_INSUFFICIENT" e

abbrev pub code_of : Thrown → String
code_of (rail_error c) = c
code_of foreign = ""

abbrev pub or_key : Option String → String → String
or_key none key = key
or_key (some reference) key = reference

module _ {E : Type 0} (rail : Rail E) where
  abbrev pub key_details : String → Json
  key_details key = object (("idempotency_key_digest", str (digest rail.runtime (str key))) ∷ [])

  abbrev pub reference_details : ConnectorResult → Json
  reference_details result = object (
      (
        "external_reference_digest",
        str (digest rail.runtime (str (or_key result.external_id result.idempotency_key))),
      )
      ∷ [])

  unfoldable pub need_permitted : Method E Permitted
  need_permitted = do r ← get_record; lift (present r.permitted)

  -- The last check of the recourse, and the consumption.
  unfoldable pub spend_permit : ActionRecord → Permitted → Method E (Unit {0})
  spend_permit r permit = do
    demand_active_recourse rail
    transition rail executing "PERMIT_CONSUMED" (
        object (
          ("permit_digest", str permit.permit_digest)
          ∷ ("use_number", nat (r.permit_uses + 1))
          ∷ []))
    assign (λ a. record a { permit_uses = r.permit_uses + 1 })

  -- The checks of the candidate against the record.
  unfoldable pub check_candidate : Proposal → ActionRecord → Permitted → Method E (Unit {0})
  check_candidate candidate r permit = do
    lift (
        verify_artifact rail.runtime (permit_body rail.runtime permit.permit)
          permit.permit.signature ((rail.signer.kid, rail.signer.public_key) ∷ []))
    recheck_preflight rail true r.recovery_preflight
    require (str_eq (digest rail.runtime (proposal_json rail.runtime candidate)) r.action_digest)
        "DIGEST_MISMATCH"

  -- `execute`, from the record to the consumption of the permit.
  unfoldable pub consume_from : Proposal → ActionRecord → Method E (Unit {0})
  consume_from candidate r = do
    require (r.permit_uses == 0) "PERMIT_USED"
    assert_state rail permitted
    permit ← need_permitted
    assert_not_expired rail permit.permit.expires_at "PERMIT_EXPIRED"
    reserved ← need_reserved rail
    assert_not_expired rail reserved.reservation.expires_at "RECOURSE_EXPIRED"
    check_candidate candidate r permit
    spend_permit r permit

  -- `execute`, up to the consumption of the permit.
  unfoldable pub consume_permit : Proposal → Method E (Unit {0})
  consume_permit candidate = do r ← get_record; consume_from candidate r

  -- The `try` block of `execute`.
  unfoldable pub run_execution : Fault → Method E (Unit {0})
  run_execution fault = do
    r ← get_record
    let key = r.proposal.idempotency_key
    result ← call (rail.connector.execute r.proposal key fault)
    lift (check_result execution_results "CONNECTOR_RESULT_INVALID" key result)
    transition rail executed "CONNECTOR_EXECUTED" (reference_details result)
    assign (λ a. record a { execution = some result })

  unfoldable pub refuse_execution : Thrown → Method E (Unit {0})
  refuse_execution e = do
    r ← get_record
    transition rail failed (code_of e) (key_details r.proposal.idempotency_key)
    finalize_recourse rail true (code_of e)
    throw e

  unfoldable pub doubt_execution : Method E (Unit {0})
  doubt_execution = do
    r ← get_record
    transition rail unknown "EXECUTION_AMBIGUOUS" (key_details r.proposal.idempotency_key)
    assign (λ a. record a {
      execution = some (record {
        status = ResultStatus.unknown;
        idempotency_key = r.proposal.idempotency_key;
        external_id = none;
      });
    })

  -- The `catch` block of `execute`.
  unfoldable pub handle_execution_error : Thrown → Method E (Unit {0})
  handle_execution_error e = if is_definite_refusal e then refuse_execution e else doubt_execution

  -- `execute(actionId, { fault, proposalOverride })`
  unfoldable pub execute : Fault → Option Proposal → Method E (Unit {0})
  execute fault override = do
    r ← get_record
    consume_permit (elim override [ none ↦ r.proposal | some p ↦ p ])
    attempt (run_execution fault) handle_execution_error

  -- `reconcile`, past its call of the connector.
  unfoldable pub settle_status : ConnectorResult → ResultStatus → Method E (Unit {0})
  settle_status result ResultStatus.executed = do
    transition rail executed "STATUS_CONFIRMED_EXECUTED" (reference_details result)
    assign (λ a. record a { execution = some result })
  settle_status result ResultStatus.no_effect = do
    transition rail failed "STATUS_CONFIRMED_NO_EFFECT" (key_details result.idempotency_key)
    finalize_recourse rail true "STATUS_CONFIRMED_NO_EFFECT"
    assign (λ a. record a { execution = some result })
  settle_status result _ = do
    transition rail review_required "STATUS_UNRESOLVED" (object [])
    close rail
    assign (λ a. record a { execution = some result })

  -- `reconcile(actionId)`
  unfoldable pub reconcile : Method E (Unit {0})
  reconcile = do
    assert_state rail unknown
    r ← get_record
    let key = r.proposal.idempotency_key
    result ← call (rail.connector.status key)
    lift (check_result execution_statuses "RECONCILIATION_INVALID" key result)
    settle_status result result.status
