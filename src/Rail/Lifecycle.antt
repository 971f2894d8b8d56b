-- ===== src/Rail/Lifecycle.antt =====
-- The helpers of rail-class.js that the methods share: state and expiry guards, the status of the
-- reserved recourse and its final record, and `close` with the receipt.
use Prim.Native.String.{slice, ◌++◌}
use consequence_rail.Base.{
  ℕ, Bool, true, false, not, String, str_eq, Option, none, some, List, [], ◌∷◌, map, last?,
  if◌then◌else◌,
}
use consequence_rail.Json.{Json, str, object, text_or_null}
use consequence_rail.Canonical.{digest}
use consequence_rail.Errors.{foreign, rail_error, Result, ok, err}
use consequence_rail.Signing.{Signature, sign_artifact}
use consequence_rail.State.{
  State, expired, closed, Outcome, disputed, same, allowed, receipt_outcome,
}
use consequence_rail.EventStore.{Event, last_hash}
use consequence_rail.Rail.Records.{
  AssuranceMode, enforced, ActionRecord, Reserved, Permitted, RecourseState, RecourseStatus,
  Receipt,
}
use consequence_rail.Rail.Interface.{Rail, Capabilities}
use consequence_rail.Rail.Encode.{
  commitment_json, accepted_json, receipt_body, recourse_text, outcome_text, settlement_reason,
}
use consequence_rail.Rail.Validate.{is_expired, check_capabilities}
use consequence_rail.Rail.Session.{
  Method, pure, throw, lift, gets, call, require, get_record, assign, clock_now, append_event,
  transition, ◌>>=◌, ◌>>◌,
}

-- A field of an absent object: the language throws a TypeError.
abbrev pub present {ℓ} : {A : Type ℓ} → Option A → Result A
present none = err foreign
present (some a) = ok a

abbrev pub is_enforced : AssuranceMode → Bool
is_enforced enforced = true
is_enforced _ = false

abbrev pub is_disputed : Outcome → Bool
is_disputed disputed = true
is_disputed _ = false

-- `RECEIPT_RECOURSE_STATUSES.has(status)`
abbrev pub receipt_supports : RecourseState → Bool
receipt_supports RecourseState.unknown = false
receipt_supports _ = true

abbrev pub is_status_active : RecourseState → Bool
is_status_active RecourseState.active = true
is_status_active _ = false

abbrev pub no_signature : Signature
no_signature = record { algorithm = ""; key_id = ""; value = "" }

abbrev pub short : ℕ → String → String
short n s = slice s 0 n

abbrev pub or_empty : Option String → String
or_empty none = ""
or_empty (some s) = s

abbrev pub time_of : Option Event → ℕ
time_of none = 0
time_of (some e) = e.recorded_at

module _ {E : Type 0} (rail : Rail E) where
  -- `assertState(record, expected)`
  unfoldable pub assert_state : State → Method E (Unit {0})
  assert_state expected = do r ← get_record; require (same r.state expected) "ILLEGAL_TRANSITION"

  unfoldable pub need_reserved : Method E Reserved
  need_reserved = do r ← get_record; lift (present r.reserved)

  -- `readRecourseStatus(record)`
  unfoldable pub read_recourse_status : Method E RecourseStatus
  read_recourse_status = do
    reserved ← need_reserved
    let token = reserved.reservation.connector_commitment.reservation_token
    status ← call (rail.connector.recourse_status token)
    require (str_eq status.reservation_token token) "RECOURSE_STATUS_INVALID"
    pure status

  -- The payload of the recourse event.
  abbrev pub recourse_payload : Reserved → RecourseStatus → String → Json
  recourse_payload reserved status reason = object (
      (
        "connector_commitment_digest",
        str (
            digest rail.runtime
              (commitment_json rail.runtime reserved.reservation.connector_commitment)),
      )
      ∷ ("status", str (recourse_text status.status))
      ∷ ("reason", str reason)
      ∷ [])

  abbrev pub recourse_event : RecourseState → String
  recourse_event RecourseState.active = "RECOURSE_STATUS_RECORDED"
  recourse_event _ = "RECOURSE_FINALIZED"

  unfoldable pub release_if : Bool → String → Method E (Unit {0})
  release_if true token = call (rail.connector.release_recourse token)
  release_if false token = pure tt

  -- The part of `finalizeRecourse` past its early returns.
  unfoldable pub record_recourse : Bool → String → Reserved → Method E (Option RecourseStatus)
  record_recourse release reason reserved = do
    release_if release reserved.reservation.connector_commitment.reservation_token
    status ← read_recourse_status
    append_event rail (recourse_event status.status) "connector"
        (recourse_payload reserved status reason)
    assign (λ r. record r { recourse_status_recorded = some status })
    pure (some status)

  unfoldable pub finalize_with :
      Bool → String → Option Reserved → Option RecourseStatus → Method E (Option RecourseStatus)
  finalize_with release reason none recorded = pure none
  finalize_with release reason (some reserved) (some status) = pure (some status)
  finalize_with release reason (some reserved) none = record_recourse release reason reserved

  -- `finalizeRecourse(record, { release, reason })`
  unfoldable pub finalize_recourse : Bool → String → Method E (Option RecourseStatus)
  finalize_recourse release reason = do
    r ← get_record
    finalize_with release reason r.reserved r.recourse_status_recorded

  -- The receipt over the closed log, before it is signed.
  abbrev pub unsigned_receipt :
      Outcome → RecourseStatus → Reserved → Permitted → ActionRecord → List Event → Receipt
  unsigned_receipt outcome status reserved permitted r es =
      let rt = rail.runtime in
      let head = last_hash rt (last? es) in
      record {
        version = r.proposal.schema_version;
        receipt_id =
            "receipt_"
            ++ short 20 (
                digest rt (
                  object (
                    ("action_id", str r.action_id)
                    ∷ ("event_chain_head", text_or_null head)
                    ∷ [])));
        action_id = r.action_id;
        action_digest = r.action_digest;
        recourse_reservation_digest = reserved.reservation_digest;
        connector_recourse_commitment_digest =
            digest rt (commitment_json rt reserved.reservation.connector_commitment);
        recourse_final_status = status.status;
        action_permit_digest = permitted.permit_digest;
        assurance_mode = r.proposal.assurance_mode;
        bypass_possible = not (is_enforced r.proposal.assurance_mode);
        outcome = outcome;
        postcondition_satisfied = not (is_disputed outcome);
        evidence_digests = map (λ a. digest rt (accepted_json rt a)) r.evidence;
        event_chain_head = or_empty head;
        closed_at = time_of (last? es);
        signature = no_signature;
      }

  abbrev pub sign_receipt : Receipt → Receipt
  sign_receipt receipt = record receipt {
    signature = sign_artifact rail.runtime (receipt_body rail.runtime receipt) rail.signer;
  }

  -- The last step of `close`: the receipt on the record.
  unfoldable pub issue_receipt : Outcome → RecourseStatus → Method E (Unit {0})
  issue_receipt outcome status = do
    reserved ← need_reserved
    permitted ← gets (λ r es. r.permitted)
    permit ← lift (present permitted)
    receipt ← gets (λ r es. sign_receipt (unsigned_receipt outcome status reserved permit r es))
    assign (λ r. record r { receipt = some receipt })

  -- `close(record)`
  unfoldable pub close : Method E (Unit {0})
  close = do
    r ← get_record
    outcome ← lift (elim (receipt_outcome r.state) [
      | none ↦ err (rail_error "ILLEGAL_TRANSITION")
      | some o ↦ ok o
    ])
    final ← finalize_recourse (not (is_disputed outcome)) (settlement_reason outcome)
    status ← lift (present final)
    require (receipt_supports status.status) "RECEIPT_UNSUPPORTED"
    transition rail closed (settlement_reason outcome)
        (object (("outcome", str (outcome_text outcome)) ∷ []))
    issue_receipt outcome status

  -- `assertNotExpired(expiry, record, code)`: the action expires where it may, and the call throws.
  unfoldable pub expire : String → Bool → Method E (Unit {0})
  expire code false = pure tt
  expire code true = do
    transition rail expired code (object [])
    finalize_recourse true code
    pure tt

  unfoldable pub expire_and_throw : String → Method E (Unit {0})
  expire_and_throw code = do
    r ← get_record
    expire code (allowed r.state expired)
    throw (rail_error code)

  unfoldable pub assert_not_expired : ℕ → String → Method E (Unit {0})
  assert_not_expired expiry code = do
    now ← clock_now rail
    if is_expired expiry now then expire_and_throw code else pure tt

  -- `connectorCapabilities()`
  unfoldable pub connector_capabilities : Method E Capabilities
  connector_capabilities = do
    c ← call rail.connector.capabilities
    lift (check_capabilities c)
    pure c
