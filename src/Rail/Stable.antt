-- ===== src/Rail/Stable.antt =====
-- Every method of the orchestrator keeps every stable predicate: the shared helpers here, the methods
-- below.
pub mod Admission
pub mod Execution
pub mod Verification
pub mod Remedy
pub mod Commands
pub mod Calls
use consequence_rail.State.{Outcome}
use consequence_rail.Base.{ℕ, Bool, true, false, ◌≡◌, refl, Option, none, some, String}
use consequence_rail.Rail.Records.{
  Decision, Request, Commitment, Reserved, RecourseState, RecourseStatus, Permitted, Authorization,
}
use consequence_rail.Rail.Interface.{Rail, Fault}
use consequence_rail.Rail.Session.{Session, Method, ◌>>=◌, ◌>>◌}
use consequence_rail.Rail.Session.Keeps.{
  Stable, Keeps, Keeps-call, Keeps-assign, Keeps-event, Keeps-transition, keeps_rules, Keeps-pure,
  is_transition_type,
}
use consequence_rail.Rail.Lifecycle.{
  assert_state, need_reserved, read_recourse_status, release_if, record_recourse, finalize_with,
  finalize_recourse, issue_receipt, close, expire, expire_and_throw, assert_not_expired,
  recourse_event, connector_capabilities, present,
}

module _ {E : Type 0} {rail : Rail E} {P : Session E → Type 0} (stable : Stable rail P) where
  pub assert_state-Keeps : (s : _) → Keeps P (assert_state rail s)
  unfolding assert_state
  assert_state-Keeps s = search keeps_rules

  pub need_reserved-Keeps : Keeps P (need_reserved rail)
  unfolding need_reserved
  need_reserved-Keeps = search keeps_rules

  pub read_recourse_status-Keeps : Keeps P (read_recourse_status rail)
  unfolding read_recourse_status
  read_recourse_status-Keeps = search (keeps_rules, need_reserved-Keeps, Keeps-call stable)

  release_if-Keeps : (b : Bool) (t : String) → Keeps P (release_if rail b t)
  unfolding release_if
  release_if-Keeps true t = search (keeps_rules, Keeps-call stable)
  release_if-Keeps false t = search keeps_rules

  recourse_event-plain : (s : RecourseState) → is_transition_type (recourse_event rail s) ≡ false
  recourse_event-plain RecourseState.active = refl
  recourse_event-plain _ = refl

  record_recourse-Keeps :
      (b : Bool) (reason : String) (r : Reserved) → Keeps P (record_recourse rail b reason r)
  unfolding record_recourse
  record_recourse-Keeps b reason r =
      search
        (
          keeps_rules,
          release_if-Keeps,
          read_recourse_status-Keeps,
          Keeps-event stable,
          Keeps-assign stable,
          recourse_event-plain,
        )
        depth 12

  finalize_with-Keeps :
      (b : Bool) (reason : String) (o : Option Reserved) (t : Option RecourseStatus)
      → Keeps P (finalize_with rail b reason o t)
  unfolding finalize_with
  finalize_with-Keeps b reason none t = search keeps_rules
  finalize_with-Keeps b reason (some r) (some t) = search keeps_rules
  finalize_with-Keeps b reason (some r) none = record_recourse-Keeps b reason r

  pub finalize_recourse-Keeps :
      (b : Bool) (reason : String) → Keeps P (finalize_recourse rail b reason)
  unfolding finalize_recourse
  finalize_recourse-Keeps b reason = search (keeps_rules, finalize_with-Keeps)

  issue_receipt-Keeps : (o : Outcome) (t : RecourseStatus) → Keeps P (issue_receipt rail o t)
  unfolding issue_receipt
  issue_receipt-Keeps o t = search (keeps_rules, need_reserved-Keeps, Keeps-assign stable) depth 12

  pub close-Keeps : Keeps P (close rail)
  unfolding close
  close-Keeps =
      search (keeps_rules, finalize_recourse-Keeps, Keeps-transition stable, issue_receipt-Keeps)
        depth 14

  expire-Keeps : (code : String) (b : Bool) → Keeps P (expire rail code b)
  unfolding expire
  expire-Keeps code false = search keeps_rules
  expire-Keeps code true = search (keeps_rules, finalize_recourse-Keeps, Keeps-transition stable)

  expire_and_throw-Keeps : (code : String) → Keeps P (expire_and_throw rail code)
  unfolding expire_and_throw
  expire_and_throw-Keeps code = search (keeps_rules, expire-Keeps)

  pub assert_not_expired-Keeps : (t : ℕ) (code : String) → Keeps P (assert_not_expired rail t code)
  unfolding assert_not_expired
  assert_not_expired-Keeps t code = search (keeps_rules, Keeps-call stable, expire_and_throw-Keeps)

  pub connector_capabilities-Keeps : Keeps P (connector_capabilities rail)
  unfolding connector_capabilities
  connector_capabilities-Keeps = search (keeps_rules, Keeps-call stable)

pub ruleset shared_rules = (
  keeps_rules, Keeps-call, Keeps-assign, Keeps-event, Keeps-transition, assert_state-Keeps,
  need_reserved-Keeps, read_recourse_status-Keeps, finalize_recourse-Keeps, close-Keeps,
  assert_not_expired-Keeps, connector_capabilities-Keeps,
)
