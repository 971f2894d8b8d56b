-- ===== src/Rail/Stable/Verification.antt =====
-- Evidence, and `verifyOutcome`.
use consequence_rail.Base.{Bool, true, false, Option, none, some, String, ◌≡◌, refl}
use consequence_rail.Errors.{Thrown}
use consequence_rail.Rail.Records.{Evidence, Accepted}
use consequence_rail.Rail.Interface.{Rail, Fault}
use consequence_rail.Rail.Session.{Session, Method}
use consequence_rail.Rail.Session.Keeps.{Stable, Keeps}
use consequence_rail.Rail.Stable.{shared_rules}
use consequence_rail.Rail.Session.Keeps.{is_transition_type}
use consequence_rail.Rail.Evidence.{
  validate_evidence, accept_evidence, reject_evidence, fail_closed, rejected_event,
}
use consequence_rail.Rail.Outcome.{
  and_then, observe_or_close, handle_evidence_error, accept_or_close, settle, breach, conclude,
  record_outcome, verify_outcome,
}

module _ {E A : Type 0} {P : Session E → Type 0} where
  pub and_then-Keeps :
      (f : A → Method E (Unit {0})) (o : Option A)
      → ((a : A) → Keeps P (f a))
      → Keeps P (and_then f o)
  unfolding and_then
  and_then-Keeps f none k = search shared_rules
  and_then-Keeps f (some a) k = k a

module _ {E : Type 0} {rail : Rail E} {P : Session E → Type 0} (stable : Stable rail P) where
  rejected_event-plain : (b : Bool) → is_transition_type (rejected_event rail b) ≡ false
  rejected_event-plain true = refl
  rejected_event-plain false = refl

  pub validate_evidence-Keeps : (e : Evidence) → Keeps P (validate_evidence rail e)
  unfolding validate_evidence
  validate_evidence-Keeps e = search shared_rules depth 14

  pub accept_evidence-Keeps : (b : Bool) (e : Evidence) → Keeps P (accept_evidence rail b e)
  unfolding accept_evidence
  accept_evidence-Keeps b e = search shared_rules depth 14

  reject_evidence-Keeps : (b : Bool) (code : String) → Keeps P (reject_evidence rail b code)
  unfolding reject_evidence
  reject_evidence-Keeps b code = search (shared_rules, rejected_event-plain) depth 14

  fail_closed-Keeps : (b : Bool) → Keeps P (fail_closed rail b)
  unfolding fail_closed
  fail_closed-Keeps b = search (shared_rules, reject_evidence-Keeps) depth 14

  observe_or_close-Keeps : (f : Fault) → Keeps P (observe_or_close rail f)
  unfolding observe_or_close
  observe_or_close-Keeps f = search (shared_rules, fail_closed-Keeps) depth 14

  pub handle_evidence_error-Keeps :
      (b : Bool) (e : Thrown) → Keeps P (handle_evidence_error rail b e)
  unfolding handle_evidence_error
  handle_evidence_error-Keeps b e =
      search (shared_rules, fail_closed-Keeps, reject_evidence-Keeps) depth 14

  accept_or_close-Keeps : (e : Evidence) → Keeps P (accept_or_close rail e)
  unfolding accept_or_close
  accept_or_close-Keeps e =
      search
        (shared_rules, validate_evidence-Keeps, accept_evidence-Keeps, handle_evidence_error-Keeps)
        depth 14

  settle-Keeps : (a : Accepted) → Keeps P (settle rail a)
  unfolding settle
  settle-Keeps a = search shared_rules depth 14

  breach-Keeps : (a : Accepted) → Keeps P (breach rail a)
  unfolding breach
  breach-Keeps a = search shared_rules depth 14

  conclude-Keeps : (a : Accepted) → Keeps P (conclude rail a)
  unfolding conclude
  conclude-Keeps a = search (shared_rules, settle-Keeps, breach-Keeps) depth 14

  record_outcome-Keeps : (a : Accepted) → Keeps P (record_outcome rail a)
  unfolding record_outcome
  record_outcome-Keeps a = search (shared_rules, conclude-Keeps) depth 14

  pub verify_outcome-Keeps : (f : Fault) → Keeps P (verify_outcome rail f)
  unfolding verify_outcome
  verify_outcome-Keeps f =
      search
        (
          shared_rules, observe_or_close-Keeps, and_then-Keeps, accept_or_close-Keeps,
          record_outcome-Keeps,
        )
        depth 14
