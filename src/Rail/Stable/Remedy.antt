-- ===== src/Rail/Stable/Remedy.antt =====
-- `remediate`, `reconcileRemedy` and `verifyRemedyOutcome`.
use consequence_rail.Base.{Bool, true, false, String}
use consequence_rail.Json.{Json}
use consequence_rail.Errors.{Thrown}
use consequence_rail.Rail.Records.{
  Reserved, RecourseStatus, Accepted, ConnectorResult, ResultStatus,
}
use consequence_rail.Rail.Interface.{Rail, Fault}
use consequence_rail.Rail.Session.{Session}
use consequence_rail.Rail.Session.Keeps.{Stable, Keeps}
use consequence_rail.Rail.Stable.{shared_rules}
use consequence_rail.Rail.Stable.Admission.{recheck_preflight-Keeps}
use consequence_rail.Rail.Stable.Verification.{
  and_then-Keeps, validate_evidence-Keeps, accept_evidence-Keeps, handle_evidence_error-Keeps,
}
use consequence_rail.Rail.Remedy.{
  review, remedy_has_failed, observe_remedy, record_remedy_outcome, verify_remedy_outcome,
  run_remedy, conflict, doubt_remedy, handle_remedy_error, conclude_remedy, attempt_remedy,
  remediate_by, remediate_with, remediate_in_time, remediate, settle_remedy_status,
  reconcile_remedy,
}

module _ {E : Type 0} {rail : Rail E} {P : Session E → Type 0} (stable : Stable rail P) where
  review-Keeps : (reason : String) (d : Json) → Keeps P (review rail reason d)
  unfolding review
  review-Keeps reason d = search shared_rules depth 14

  remedy_has_failed-Keeps : (reason : String) (d : Json) → Keeps P (remedy_has_failed rail reason d)
  unfolding remedy_has_failed
  remedy_has_failed-Keeps reason d = search shared_rules depth 14

  observe_remedy-Keeps : (f : Fault) → Keeps P (observe_remedy rail f)
  unfolding observe_remedy
  observe_remedy-Keeps f =
      search (shared_rules, validate_evidence-Keeps, accept_evidence-Keeps) depth 14

  record_remedy_outcome-Keeps : (a : Accepted) → Keeps P (record_remedy_outcome rail a)
  unfolding record_remedy_outcome
  record_remedy_outcome-Keeps a = search shared_rules depth 14

  verify_remedy_outcome-Keeps : (f : Fault) → Keeps P (verify_remedy_outcome rail f)
  unfolding verify_remedy_outcome
  verify_remedy_outcome-Keeps f =
      search
        (
          shared_rules, observe_remedy-Keeps, handle_evidence_error-Keeps, and_then-Keeps,
          record_remedy_outcome-Keeps,
        )
        depth 14

  run_remedy-Keeps : (v : Reserved) (f : Fault) → Keeps P (run_remedy rail v f)
  unfolding run_remedy
  run_remedy-Keeps v f = search shared_rules depth 14

  conflict-Keeps : (v : Reserved) (e : Thrown) → Keeps P (conflict rail v e)
  unfolding conflict
  conflict-Keeps v e = search (shared_rules, remedy_has_failed-Keeps) depth 14

  doubt_remedy-Keeps : (v : Reserved) → Keeps P (doubt_remedy rail v)
  unfolding doubt_remedy
  doubt_remedy-Keeps v = search shared_rules depth 14

  handle_remedy_error-Keeps : (v : Reserved) (e : Thrown) → Keeps P (handle_remedy_error rail v e)
  unfolding handle_remedy_error
  handle_remedy_error-Keeps v e = search (shared_rules, conflict-Keeps, doubt_remedy-Keeps) depth 14

  conclude_remedy-Keeps :
      (f : Fault) (x : ConnectorResult) (t : ResultStatus) → Keeps P (conclude_remedy rail f x t)
  unfolding conclude_remedy
  conclude_remedy-Keeps f x ResultStatus.remediated =
      search (shared_rules, verify_remedy_outcome-Keeps)
  conclude_remedy-Keeps f x _ = search (shared_rules, remedy_has_failed-Keeps)

  attempt_remedy-Keeps : (f : Fault) (v : Reserved) → Keeps P (attempt_remedy rail f v)
  unfolding attempt_remedy
  attempt_remedy-Keeps f v =
      search
        (
          shared_rules, recheck_preflight-Keeps, run_remedy-Keeps, handle_remedy_error-Keeps,
          and_then-Keeps, conclude_remedy-Keeps,
        )
        depth 20

  remediate_by-Keeps : (f : Fault) (v : Reserved) (b : Bool) → Keeps P (remediate_by rail f v b)
  unfolding remediate_by
  remediate_by-Keeps f v false = search review-Keeps
  remediate_by-Keeps f v true = search attempt_remedy-Keeps

  remediate_with-Keeps :
      (f : Fault) (v : Reserved) (t : RecourseStatus) (b : Bool)
      → Keeps P (remediate_with rail f v t b)
  unfolding remediate_with
  remediate_with-Keeps f v t false = search review-Keeps
  remediate_with-Keeps f v t true = search remediate_by-Keeps

  remediate_in_time-Keeps :
      (f : Fault) (v : Reserved) (b : Bool) → Keeps P (remediate_in_time rail f v b)
  unfolding remediate_in_time
  remediate_in_time-Keeps f v true = search review-Keeps
  remediate_in_time-Keeps f v false = search (shared_rules, remediate_with-Keeps)

  pub remediate-Keeps : (f : Fault) → Keeps P (remediate rail f)
  unfolding remediate
  remediate-Keeps f = search (shared_rules, remediate_in_time-Keeps) depth 14

  settle_remedy_status-Keeps :
      (f : Fault) (v : Reserved) (x : ConnectorResult) (t : ResultStatus)
      → Keeps P (settle_remedy_status rail f v x t)
  unfolding settle_remedy_status
  settle_remedy_status-Keeps f v x ResultStatus.remediated =
      search (shared_rules, verify_remedy_outcome-Keeps)
  settle_remedy_status-Keeps f v x ResultStatus.no_effect =
      search (shared_rules, remedy_has_failed-Keeps)
  settle_remedy_status-Keeps f v x ResultStatus.failed =
      search (shared_rules, remedy_has_failed-Keeps)
  settle_remedy_status-Keeps f v x _ = search (shared_rules, review-Keeps)

  pub reconcile_remedy-Keeps : (f : Fault) → Keeps P (reconcile_remedy rail f)
  unfolding reconcile_remedy
  reconcile_remedy-Keeps f = search (shared_rules, settle_remedy_status-Keeps) depth 14
