-- ===== src/Rail/Outcome.antt =====
-- rail-class.js: `verifyOutcome`.
use consequence_rail.Base.{Bool, false, Option, none, some, [], ◌∷◌, if◌then◌else◌}
use consequence_rail.Json.{Json, bool, str, object}
use consequence_rail.Canonical.{digest}
use consequence_rail.Errors.{Thrown, is_evidence_error}
use consequence_rail.State.{executed, verifying, satisfied, breached, remedy_due}
use consequence_rail.Rail.Records.{Evidence, Accepted}
use consequence_rail.Rail.Interface.{Rail, Fault}
use consequence_rail.Rail.Encode.{accepted_json}
use consequence_rail.Rail.Execution.{code_of}
use consequence_rail.Rail.Evidence.{
  validate_evidence, accept_evidence, reject_evidence, fail_closed, push_evidence,
}
use consequence_rail.Rail.Session.{
  Method, pure, call, get_record, append_event, transition, attempt, ◌>>=◌, ◌>>◌,
}
use consequence_rail.Rail.Lifecycle.{assert_state, close, need_reserved}

module _ {E A : Type 0} where
  -- What follows a `try` block: its value, or nothing where the handler has closed the action.
  unfoldable pub and_then : (A → Method E (Unit {0})) → Option A → Method E (Unit {0})
  and_then f none = pure tt
  and_then f (some a) = f a

  abbrev pub keep_going : Method E A → Method E (Option A)
  keep_going m = do a ← m; pure (some a)

  abbrev pub give_up : Method E (Unit {0}) → Method E (Option A)
  give_up m = do m; pure none

module _ {E : Type 0} (rail : Rail E) where
  unfoldable pub observe_or_close : Fault → Method E (Option Evidence)
  observe_or_close fault = do
    r ← get_record
    attempt (keep_going (call (rail.connector.observe r.proposal fault r.action_digest)))
        (λ e. give_up (fail_closed rail false))

  -- The `catch` of the validation.
  unfoldable pub handle_evidence_error : Bool → Thrown → Method E (Unit {0})
  handle_evidence_error remedy e =
      if is_evidence_error e
      then reject_evidence rail remedy (code_of e)
      else fail_closed rail remedy

  unfoldable pub accept_or_close : Evidence → Method E (Option Accepted)
  accept_or_close evidence =
      attempt (keep_going (do validate_evidence rail evidence; accept_evidence rail false evidence))
        (λ e. give_up (handle_evidence_error false e))

  abbrev pub evidence_details : Accepted → Json
  evidence_details a =
      object (("evidence_digest", str (digest rail.runtime (accepted_json rail.runtime a))) ∷ [])

  unfoldable pub settle : Accepted → Method E (Unit {0})
  settle a = do transition rail satisfied "POSTCONDITION_SATISFIED" (evidence_details a); close rail

  unfoldable pub breach : Accepted → Method E (Unit {0})
  breach a = do
    transition rail breached "POSTCONDITION_BREACHED" (evidence_details a)
    reserved ← need_reserved rail
    transition rail remedy_due "RESERVED_REMEDY_DUE"
        (object (("reservation_digest", str reserved.reservation_digest) ∷ []))

  -- The verdict on the action, once its evidence is accepted.
  unfoldable pub conclude : Accepted → Method E (Unit {0})
  conclude a = if a.satisfied then settle a else breach a

  unfoldable pub record_outcome : Accepted → Method E (Unit {0})
  record_outcome a = do
    append_event rail "EVIDENCE_ACCEPTED" "rail" (
        object (
          ("evidence_digest", str (digest rail.runtime (accepted_json rail.runtime a)))
          ∷ ("source", str a.evidence.source)
          ∷ ("satisfied", bool a.satisfied)
          ∷ []))
    push_evidence rail a
    conclude a

  -- `verifyOutcome(actionId, { fault })`
  unfoldable pub verify_outcome : Fault → Method E (Unit {0})
  verify_outcome fault = do
    assert_state rail executed
    transition rail verifying "OUTCOME_VERIFICATION_STARTED" (object [])
    evidence ← observe_or_close fault
    and_then (λ e. accept_or_close e >>= and_then record_outcome) evidence
