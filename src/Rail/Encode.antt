-- ===== src/Rail/Encode.antt =====
-- The object literals of rail-class.js that are digested or signed, field by field, and the texts of
-- the enumerations.
use consequence_rail.Base.{ℕ, true, String, none, some, List, [], ◌∷◌, ◌++◌, map, if◌then◌else◌}
use consequence_rail.Json.{Json, null, bool, str, nat, object, array, text_or_null}
use consequence_rail.Canonical.{Runtime}
use consequence_rail.Signing.{signature_json}
use consequence_rail.State.{Outcome, settled, compensated, disputed}
use consequence_rail.Postconditions.{Clause, Postcondition, Evaluation, Verdict, operator_text}
use consequence_rail.Rail.Records.{
  ProposalVersion, version_1, version_2, ActionType, refund, email, allocation, AssuranceMode,
  enforced, cooperative, observed, Parameters, refund_parameters, email_parameters,
  allocation_parameters, Proposal, EvidencePlan, RemedyKind, reverse, compensate, escalate, Scope,
  max_amount_minor, max_quantity, RecourseState, Commitment, Reservation, Permit, Accepted,
  ConnectorResult, ResultStatus, Receipt,
}

abbrev pub action_type_text : ActionType → String
action_type_text refund = "demo.refund.issue/v1"
action_type_text email = "demo.email.send/v1"
action_type_text allocation = "demo.inventory.allocate/v1"

abbrev pub mode_text : AssuranceMode → String
mode_text enforced = "enforced"
mode_text cooperative = "cooperative"
mode_text observed = "observed"

abbrev pub kind_text : RemedyKind → String
kind_text reverse = "reverse"
kind_text compensate = "compensate"
kind_text escalate = "escalate"

abbrev pub recourse_text : RecourseState → String
recourse_text RecourseState.active = "active"
recourse_text RecourseState.expired = "expired"
recourse_text RecourseState.released = "released"
recourse_text RecourseState.consumed = "consumed"
recourse_text RecourseState.unknown = "unknown"

abbrev pub result_text : ResultStatus → String
result_text ResultStatus.executed = "executed"
result_text ResultStatus.no_effect = "no_effect"
result_text ResultStatus.unknown = "unknown"
result_text ResultStatus.remediated = "remediated"
result_text ResultStatus.failed = "failed"
result_text ResultStatus.no_change = "no_change"

abbrev pub outcome_text : Outcome → String
outcome_text settled = "settled"
outcome_text compensated = "compensated"
outcome_text disputed = "disputed"

-- `SETTLEMENT_${outcome.toUpperCase()}`
abbrev pub settlement_reason : Outcome → String
settlement_reason settled = "SETTLEMENT_SETTLED"
settlement_reason compensated = "SETTLEMENT_COMPENSATED"
settlement_reason disputed = "SETTLEMENT_DISPUTED"

abbrev pub version_text : ProposalVersion → String
version_text version_1 = "consequence-rail/action-proposal/v0.1"
version_text version_2 = "consequence-rail/action-proposal/v0.2"

abbrev pub receipt_version : ProposalVersion → String
receipt_version version_1 = "consequence-rail/settlement-receipt/v0.1"
receipt_version version_2 = "consequence-rail/settlement-receipt/v0.2"

abbrev clause_json : Clause → Json
clause_json c =
    object (("path", str c.path) ∷ ("op", str (operator_text c.op)) ∷ ("value", c.value) ∷ [])

abbrev pub postcondition_json : Postcondition → Json
postcondition_json p =
    object (("op", str "all") ∷ ("clauses", array (map clause_json p.clauses)) ∷ [])

abbrev pub parameters_json : Parameters → Json
parameters_json (refund_parameters amount currency) =
    object (("amount_minor", nat amount) ∷ ("currency", str currency) ∷ [])
parameters_json (email_parameters recipient subject) =
    object (("recipient_id", str recipient) ∷ ("subject", str subject) ∷ [])
parameters_json (allocation_parameters sku quantity) =
    object (("sku", str sku) ∷ ("quantity", nat quantity) ∷ [])

abbrev pub evidence_plan_json : EvidencePlan → Json
evidence_plan_json e =
    object (("source", str e.source) ∷ ("max_age_seconds", nat e.max_age_seconds) ∷ [])

abbrev pub scope_field : Scope → String × Json
scope_field (max_amount_minor n) = ("max_amount_minor", nat n)
scope_field (max_quantity n) = ("max_quantity", nat n)

module _ (rt : Runtime) where
  abbrev pub time_json : ℕ → Json
  time_json t = str (rt.to_iso t)

  unfoldable pub proposal_json : Proposal → Json
  proposal_json p = object (
      ("schema_version", str (version_text p.schema_version))
      ∷ ("action_type", str (action_type_text p.action_type))
      ∷ ("subject", object (("type", str p.subject.type) ∷ ("id", str p.subject.id) ∷ []))
      ∷ (
        "target",
        object (
            ("connector", str p.target.connector)
            ∷ ("resource_type", str p.target.resource_type)
            ∷ ("resource_id", str p.target.resource_id)
            ∷ []),
      )
      ∷ ("parameters", parameters_json p.parameters)
      ∷ ("idempotency_key", str p.idempotency_key)
      ∷ ("requested_at", time_json p.requested_at)
      ∷ ("expires_at", time_json p.expires_at)
      ∷ ("assurance_mode", str (mode_text p.assurance_mode))
      ∷ ("postcondition", postcondition_json p.postcondition)
      ∷ ("evidence_plan", evidence_plan_json p.evidence_plan)
      ∷ [])

  abbrev commitment_fields : Commitment → List (String × Json)
  commitment_fields c =
      ("schema_version", str c.schema_version)
      ∷ ("reservation_token", str c.reservation_token)
      ∷ ("action_digest", str c.action_digest)
      ∷ ("connector", str c.connector)
      ∷ ("capability", str c.capability)
      ∷ ("kind", str (kind_text c.kind))
      ∷ ("expires_at", time_json c.expires_at)
      ∷ ("max_attempts", nat c.max_attempts)
      ∷ scope_field c.scope
      ∷ ("reserved_at", time_json c.reserved_at)
      ∷ ("status", str (recourse_text c.status))
      ∷ []

  unfoldable pub commitment_body : Commitment → Json
  commitment_body c = object (commitment_fields c)

  unfoldable pub commitment_json : Commitment → Json
  commitment_json c = object (commitment_fields c ++ ("signature", signature_json c.signature) ∷ [])

  abbrev reservation_core : Reservation → List (String × Json)
  reservation_core r =
      ("action_digest", str r.action_digest)
      ∷ ("kind", str (kind_text r.kind))
      ∷ ("connector", str r.connector)
      ∷ ("capability", str r.capability)
      ∷ ("capability_reference_digest", str r.capability_reference_digest)
      ∷ ("expires_at", time_json r.expires_at)
      ∷ ("remedy_window_seconds", nat r.remedy_window_seconds)
      ∷ ("max_attempts", nat r.max_attempts)
      ∷ scope_field r.scope
      ∷ ("idempotency_key_digest", str r.idempotency_key_digest)
      ∷ ("connector_commitment", commitment_json r.connector_commitment)
      ∷ []

  -- The object `reservation`, whose digest names the reservation.
  unfoldable pub reservation_seed : Reservation → Json
  reservation_seed r = object (reservation_core r)

  abbrev reservation_fields : Reservation → List (String × Json)
  reservation_fields r =
      reservation_core r
      ++ ("schema_version", str "consequence-rail/recourse-reservation/v0.1")
        ∷ ("reservation_id", str r.reservation_id)
        ∷ ("reserved_at", time_json r.reserved_at)
        ∷ []

  unfoldable pub reservation_body : Reservation → Json
  reservation_body r = object (reservation_fields r)

  unfoldable pub reservation_json : Reservation → Json
  reservation_json r =
      object (reservation_fields r ++ ("signature", signature_json r.signature) ∷ [])

  abbrev permit_fields : Permit → List (String × Json)
  permit_fields p =
      ("schema_version", str "consequence-rail/action-permit/v0.1")
      ∷ ("permit_id", str p.permit_id)
      ∷ ("action_id", str p.action_id)
      ∷ ("action_digest", str p.action_digest)
      ∷ ("recourse_reservation_digest", str p.recourse_reservation_digest)
      ∷ ("assurance_mode", str (mode_text p.assurance_mode))
      ∷ ("bypass_possible", bool p.bypass_possible)
      ∷ ("gated", bool true)
      ∷ ("jti", str p.jti)
      ∷ ("issued_at", time_json p.issued_at)
      ∷ ("expires_at", time_json p.expires_at)
      ∷ ("max_uses", nat p.max_uses)
      ∷ []

  unfoldable pub permit_body : Permit → Json
  permit_body p = object (permit_fields p)

  unfoldable pub permit_json : Permit → Json
  permit_json p = object (permit_fields p ++ ("signature", signature_json p.signature) ∷ [])

  -- An absent actual value is not a JSON value; `none` then.
  abbrev evaluation_json : Evaluation rt → Json
  evaluation_json e = object (
      ("path", str e.clause.path)
      ∷ ("operator", str (operator_text e.clause.op))
      ∷ ("expected", e.clause.value)
      ∷ ("actual", elim e.actual [ none ↦ null | some v ↦ v ])
      ∷ ("satisfied", bool e.satisfied)
      ∷ [])

  unfoldable pub verdict_json : Verdict rt → Json
  verdict_json v = object (
      ("satisfied", bool v.satisfied)
      ∷ ("evaluations", array (map evaluation_json v.evaluations))
      ∷ [])

  abbrev accepted_fields : Accepted → List (String × Json)
  accepted_fields a =
      ("schema_version", str a.evidence.schema_version)
      ∷ ("action_digest", str a.evidence.action_digest)
      ∷ ("source", str a.evidence.source)
      ∷ (
        "resource",
        object (("type", str a.evidence.resource.type) ∷ ("id", str a.evidence.resource.id) ∷ []),
      )
      ∷ ("observed_at", time_json a.evidence.observed_at)
      ∷ ("facts", a.evidence.facts)
      ∷ ("evaluation", a.evaluation)
      ∷ ("captured_by", str "consequence-rail")
      ∷ (if a.post_remedy then ("phase", str "post-remedy") ∷ [] else [])

  unfoldable pub accepted_body : Accepted → Json
  accepted_body a = object (accepted_fields a)

  unfoldable pub accepted_json : Accepted → Json
  accepted_json a = object (accepted_fields a ++ ("signature", signature_json a.signature) ∷ [])

  -- A connector's result.
  abbrev pub result_json : ConnectorResult → Json
  result_json r = object (
      ("status", str (result_text r.status))
      ∷ ("external_id", text_or_null r.external_id)
      ∷ ("idempotency_key", str r.idempotency_key)
      ∷ [])

  abbrev version_fields : ProposalVersion → List (String × Json)
  version_fields version_1 = []
  version_fields version_2 = ("proposal_schema_version", str (version_text version_2)) ∷ []

  -- `receiptBody`, the last four constant texts included.
  unfoldable pub receipt_body : Receipt → Json
  receipt_body r = object (
      ("schema_version", str (receipt_version r.version)) ∷ version_fields r.version
      ++ ("receipt_id", str r.receipt_id)
        ∷ ("action_id", str r.action_id)
        ∷ ("action_digest", str r.action_digest)
        ∷ ("recourse_reservation_digest", str r.recourse_reservation_digest)
        ∷ ("connector_recourse_commitment_digest", str r.connector_recourse_commitment_digest)
        ∷ ("recourse_final_status", str (recourse_text r.recourse_final_status))
        ∷ ("action_permit_digest", str r.action_permit_digest)
        ∷ ("assurance_mode", str (mode_text r.assurance_mode))
        ∷ ("bypass_possible", bool r.bypass_possible)
        ∷ ("gated", bool true)
        ∷ ("outcome", str (outcome_text r.outcome))
        ∷ (
          "configured_postcondition_result",
          str (if r.postcondition_satisfied then "satisfied" else "unresolved"),
        )
        ∷ ("evidence_digests", array (map str r.evidence_digests))
        ∷ ("event_chain_head", str r.event_chain_head)
        ∷ ("closed_at", time_json r.closed_at)
        ∷ (
          "technical_claim",
          str "The configured postcondition was evaluated against declared evidence sources.",
        )
        ∷ (
          "limitations",
          array (
              str "Signatures establish integrity and provenance, not truth or causality."
              ∷ str
                  "Settlement is a technical protocol status, not a legal or financial determination."
              ∷ str "Recovery is not guaranteed."
              ∷ []),
        )
        ∷ [])
