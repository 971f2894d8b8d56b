-- ===== src/Rail/Evidence.antt =====
-- rail-class.js: `validateEvidence`, `acceptEvidence` and `failClosedEvidenceObservation`.
use consequence_rail.Base.{
  Bool, true, false, ◌&&◌, String, [], ◌∷◌, ◌++◌, every, is_some, if◌then◌else◌,
}
use consequence_rail.Json.{str, object}
use consequence_rail.Canonical.{representable}
use consequence_rail.Signing.{Signature, sign_artifact}
use consequence_rail.State.{State, inconclusive, remedy_inconclusive}
use consequence_rail.Postconditions.{Evaluation, Verdict, evaluate_postcondition}
use consequence_rail.Rail.Records.{Evidence, Accepted}
use consequence_rail.Rail.Interface.{Rail}
use consequence_rail.Rail.Encode.{verdict_json, accepted_body, accepted_json}
use consequence_rail.Rail.Validate.{check_evidence, check_evidence_at}
use consequence_rail.Rail.Session.{
  Method, pure, lift, require, get_record, assign, clock_now, append_event, transition, ◌>>=◌, ◌>>◌,
}
use consequence_rail.Rail.Lifecycle.{close}

module _ {E : Type 0} (rail : Rail E) where
  -- `validateEvidence(record, input)`
  unfoldable pub validate_evidence : Evidence → Method E (Unit {0})
  validate_evidence e = do
    r ← get_record
    lift (check_evidence rail.runtime r e)
    now ← clock_now rail
    lift (check_evidence_at now r e)

  -- Every clause has an actual value: an absent one is not canonical JSON.
  abbrev pub all_found : Verdict rail.runtime → Bool
  all_found v = every (λ (e : Evaluation rail.runtime). is_some e.actual) v.evaluations

  abbrev pub no_signature : Signature
  no_signature = record { algorithm = ""; key_id = ""; value = "" }

  abbrev pub sign_accepted : Accepted → Accepted
  sign_accepted a = record a {
    signature = sign_artifact rail.runtime (accepted_body rail.runtime a) rail.signer;
  }

  -- `acceptEvidence(record, evidence, phase)`
  unfoldable pub accept_evidence : Bool → Evidence → Method E Accepted
  accept_evidence post_remedy e = do
    r ← get_record
    verdict ← lift (evaluate_postcondition rail.runtime r.proposal.postcondition e.facts)
    let accepted : Accepted = sign_accepted (record {
      evidence = e;
      satisfied = verdict.satisfied;
      evaluation = verdict_json rail.runtime verdict;
      post_remedy = post_remedy;
      signature = no_signature;
    })
    require (all_found verdict && representable (accepted_json rail.runtime accepted))
        "EVIDENCE_UNREPRESENTABLE"
    pure accepted

  abbrev pub rejected_event : Bool → String
  rejected_event true = "REMEDY_EVIDENCE_REJECTED"
  rejected_event false = "EVIDENCE_REJECTED"

  abbrev pub inconclusive_state : Bool → State
  inconclusive_state true = remedy_inconclusive
  inconclusive_state false = inconclusive

  -- Evidence is refused with a code: the action closes as disputed.
  unfoldable pub reject_evidence : Bool → String → Method E (Unit {0})
  reject_evidence remedy code = do
    append_event rail (rejected_event remedy) "rail" (object (("code", str code) ∷ []))
    transition rail (inconclusive_state remedy) code (object [])
    close rail

  -- `failClosedEvidenceObservation(record, phase)`
  unfoldable pub fail_closed : Bool → Method E (Unit {0})
  fail_closed remedy =
      reject_evidence remedy
        (if remedy then "REMEDY_EVIDENCE_UNAVAILABLE" else "EVIDENCE_UNAVAILABLE")

  -- `record.evidence.push(accepted)`
  abbrev pub push_evidence : Accepted → Method E (Unit {0})
  push_evidence a = assign (λ r. record r { evidence = r.evidence ++ a ∷ [] })
