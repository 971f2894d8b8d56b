-- ===== src/Rail/Remedy.antt =====
-- rail-class.js: `remediate`, `reconcileRemedy` and `verifyRemedyOutcome`.
use consequence_rail.Base.{◌+◌, Bool, true, false, String, none, some, [], ◌∷◌, ltb, if◌then◌else◌}
use consequence_rail.Json.{Json, bool, str, nat, object}
use consequence_rail.Canonical.{digest}
use consequence_rail.Errors.{Thrown, has_code}
use consequence_rail.State.{
  remedy_due, remediating, remedy_verifying, remedy_failed, remedy_unknown, remediated,
  remedy_inconclusive, review_required,
}
use consequence_rail.Rail.Records.{
  Accepted, Reserved, RemedyKind, escalate, RecourseStatus, ConnectorResult, ResultStatus,
}
use consequence_rail.Rail.Interface.{Rail, Fault}
use consequence_rail.Rail.Encode.{accepted_json, result_json, result_text, recourse_text, kind_text}
use consequence_rail.Rail.Validate.{is_expired, check_result, remedy_results, remedy_statuses}
use consequence_rail.Rail.Preflight.{recheck_preflight}
use consequence_rail.Rail.Evidence.{validate_evidence, accept_evidence, push_evidence}
use consequence_rail.Rail.Outcome.{and_then, keep_going, give_up, handle_evidence_error}
use consequence_rail.Rail.Session.{
  Method, pure, throw, lift, call, require, get_record, assign, clock_now, append_event, transition,
  attempt, ◌>>=◌, ◌>>◌,
}
use consequence_rail.Rail.Lifecycle.{
  assert_state, need_reserved, read_recourse_status, close, is_status_active,
}

abbrev pub is_automatic : RemedyKind → Bool
is_automatic escalate = false
is_automatic _ = true

module _ {E : Type 0} (rail : Rail E) where
  -- The action goes to review and closes.
  unfoldable pub review : String → Json → Method E (Unit {0})
  review reason details = do transition rail review_required reason details; close rail

  -- The remedy failed, and the action closes.
  unfoldable pub remedy_has_failed : String → Json → Method E (Unit {0})
  remedy_has_failed reason details = do transition rail remedy_failed reason details; close rail

  unfoldable pub observe_remedy : Fault → Method E Accepted
  observe_remedy fault = do
    r ← get_record
    evidence ← call (rail.connector.observe r.proposal fault r.action_digest)
    validate_evidence rail evidence
    accept_evidence rail true evidence

  unfoldable pub record_remedy_outcome : Accepted → Method E (Unit {0})
  record_remedy_outcome a = do
    let evidence_digest = digest rail.runtime (accepted_json rail.runtime a)
    append_event rail "REMEDY_EVIDENCE_ACCEPTED" "rail"
        (object (("evidence_digest", str evidence_digest) ∷ ("satisfied", bool a.satisfied) ∷ []))
    push_evidence rail a
    transition rail (if a.satisfied then remediated else remedy_inconclusive)
        (if a.satisfied then "REMEDY_VERIFIED" else "REMEDY_POSTCONDITION_UNRESOLVED")
        (object (("evidence_digest", str evidence_digest) ∷ []))
    close rail

  -- `verifyRemedyOutcome(record, { fault })`
  unfoldable pub verify_remedy_outcome : Fault → Method E (Unit {0})
  verify_remedy_outcome fault = do
    assert_state rail remedy_verifying
    accepted ←
        attempt (keep_going (observe_remedy fault))
          (λ e. give_up (handle_evidence_error rail true e))
    and_then record_remedy_outcome accepted

  -- The `try` block of `remediate`.
  unfoldable pub run_remedy : Reserved → Fault → Method E ConnectorResult
  run_remedy reserved fault = do
    r ← get_record
    let key = reserved.remedy_idempotency_key
    result ← call (rail.connector.remediate r.proposal reserved.reservation key fault)
    lift (check_result remedy_results "CONNECTOR_RESULT_INVALID" key result)
    assign (λ a. record a { remedy_result = some result })
    pure result

  abbrev pub key_digest_details : Reserved → Json
  key_digest_details reserved =
      object (("idempotency_key_digest", str reserved.reservation.idempotency_key_digest) ∷ [])

  unfoldable pub conflict : Reserved → Thrown → Method E (Unit {0})
  conflict reserved e = do
    remedy_has_failed "IDEMPOTENCY_CONFLICT" (key_digest_details reserved)
    throw e

  unfoldable pub doubt_remedy : Reserved → Method E (Unit {0})
  doubt_remedy reserved = do
    transition rail remedy_unknown "REMEDY_EXECUTION_AMBIGUOUS" (key_digest_details reserved)
    assign (λ a. record a {
      remedy_result = some (record {
        status = ResultStatus.unknown;
        idempotency_key = reserved.remedy_idempotency_key;
        external_id = none;
      });
    })

  -- The `catch` block of `remediate`.
  unfoldable pub handle_remedy_error : Reserved → Thrown → Method E (Unit {0})
  handle_remedy_error reserved e =
      if has_code "IDEMPOTENCY_CONFLICT" e then conflict reserved e else doubt_remedy reserved

  -- `remediate`, past its `try` statement.
  unfoldable pub conclude_remedy : Fault → ConnectorResult → ResultStatus → Method E (Unit {0})
  conclude_remedy fault result ResultStatus.remediated = do
    transition rail remedy_verifying "REMEDY_EXECUTION_CONFIRMED" (
        object
          (("result_digest", str (digest rail.runtime (result_json rail.runtime result))) ∷ []))
    verify_remedy_outcome fault
  conclude_remedy fault result status =
      remedy_has_failed "REMEDY_CONNECTOR_FAILED"
        (object (("result", str (result_text status)) ∷ []))

  -- The attempt itself: the event, the count, the connector and what came of it.
  unfoldable pub attempt_remedy : Fault → Reserved → Method E (Unit {0})
  attempt_remedy fault reserved = do
    r ← get_record
    require (ltb r.remedy_attempts reserved.reservation.max_attempts) "REMEDY_ATTEMPTS_EXHAUSTED"
    recheck_preflight rail false r.recovery_preflight
    transition rail remediating "REMEDY_STARTED" (
        object (
          ("attempt", nat (r.remedy_attempts + 1))
          ∷ ("reservation_digest", str reserved.reservation_digest)
          ∷ []))
    assign (λ a. record a { remedy_attempts = r.remedy_attempts + 1 })
    result ←
        attempt (keep_going (run_remedy reserved fault))
          (λ e. give_up (handle_remedy_error reserved e))
    and_then (λ (x : ConnectorResult). conclude_remedy fault x x.status) result

  -- The gates on the kind of remedy.
  unfoldable pub remediate_by : Fault → Reserved → Bool → Method E (Unit {0})
  remediate_by fault reserved false =
      review "REMEDY_REQUIRES_CHILD_ACTION"
        (object (("kind", str (kind_text reserved.reservation.kind)) ∷ []))
  remediate_by fault reserved true = attempt_remedy fault reserved

  unfoldable pub remediate_with : Fault → Reserved → RecourseStatus → Bool → Method E (Unit {0})
  remediate_with fault reserved status false =
      review "RECOURSE_NOT_ACTIVE"
        (object (("recourse_status", str (recourse_text status.status)) ∷ []))
  remediate_with fault reserved status true =
      remediate_by fault reserved (is_automatic reserved.reservation.kind)

  unfoldable pub remediate_in_time : Fault → Reserved → Bool → Method E (Unit {0})
  remediate_in_time fault reserved true = review "RECOURSE_EXPIRED" (object [])
  remediate_in_time fault reserved false = do
    status ← read_recourse_status rail
    remediate_with fault reserved status (is_status_active status.status)

  -- `remediate(actionId, { fault })`
  unfoldable pub remediate : Fault → Method E (Unit {0})
  remediate fault = do
    assert_state rail remedy_due
    reserved ← need_reserved rail
    now ← clock_now rail
    remediate_in_time fault reserved (is_expired reserved.reservation.expires_at now)

  -- `reconcileRemedy`, past its call of the connector.
  unfoldable pub settle_remedy_status :
      Fault → Reserved → ConnectorResult → ResultStatus → Method E (Unit {0})
  settle_remedy_status fault reserved result ResultStatus.remediated = do
    transition rail remedy_verifying "REMEDY_STATUS_CONFIRMED" (
        object
          (("result_digest", str (digest rail.runtime (result_json rail.runtime result))) ∷ []))
    assign (λ a. record a { remedy_result = some result })
    verify_remedy_outcome fault
  settle_remedy_status fault reserved result ResultStatus.no_effect = do
    remedy_has_failed "REMEDY_STATUS_CONFIRMED_NO_EFFECT"
        (object (("result", str "no_effect") ∷ []))
    assign (λ a. record a { remedy_result = some result })
  settle_remedy_status fault reserved result ResultStatus.failed = do
    remedy_has_failed "REMEDY_STATUS_CONFIRMED_NO_EFFECT" (object (("result", str "failed") ∷ []))
    assign (λ a. record a { remedy_result = some result })
  settle_remedy_status fault reserved result _ = do
    review "REMEDY_STATUS_UNRESOLVED" (key_digest_details reserved)
    assign (λ a. record a { remedy_result = some result })

  -- `reconcileRemedy(actionId, { evidenceFault })`
  unfoldable pub reconcile_remedy : Fault → Method E (Unit {0})
  reconcile_remedy fault = do
    assert_state rail remedy_unknown
    reserved ← need_reserved rail
    let key = reserved.remedy_idempotency_key
    result ← call (rail.connector.remedy_status key)
    lift (check_result remedy_statuses "RECONCILIATION_INVALID" key result)
    settle_remedy_status fault reserved result result.status
