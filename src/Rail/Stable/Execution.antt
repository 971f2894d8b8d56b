-- ===== src/Rail/Stable/Execution.antt =====
-- `execute` and `reconcile`.
use consequence_rail.Base.{Option}
use consequence_rail.Errors.{Thrown}
use consequence_rail.Rail.Records.{ActionRecord, Permitted, Proposal, ConnectorResult, ResultStatus}
use consequence_rail.Rail.Interface.{Rail, Fault}
use consequence_rail.Rail.Session.{Session}
use consequence_rail.Rail.Session.Keeps.{Stable, Keeps}
use consequence_rail.Rail.Stable.{shared_rules}
use consequence_rail.Rail.Stable.Admission.{recheck_preflight-Keeps, demand_active_recourse-Keeps}
use consequence_rail.Rail.Execution.{
  need_permitted, spend_permit, check_candidate, consume_from, consume_permit, run_execution,
  refuse_execution, doubt_execution, handle_execution_error, execute, settle_status, reconcile,
}

module _ {E : Type 0} {rail : Rail E} {P : Session E → Type 0} (stable : Stable rail P) where
  need_permitted-Keeps : Keeps P (need_permitted rail)
  unfolding need_permitted
  need_permitted-Keeps = search shared_rules depth 14

  spend_permit-Keeps : (r : ActionRecord) (p : Permitted) → Keeps P (spend_permit rail r p)
  unfolding spend_permit
  spend_permit-Keeps r p = search (shared_rules, demand_active_recourse-Keeps) depth 14

  check_candidate-Keeps :
      (c : Proposal) (r : ActionRecord) (p : Permitted) → Keeps P (check_candidate rail c r p)
  unfolding check_candidate
  check_candidate-Keeps c r p = search (shared_rules, recheck_preflight-Keeps) depth 14

  consume_from-Keeps : (c : Proposal) (r : ActionRecord) → Keeps P (consume_from rail c r)
  unfolding consume_from
  consume_from-Keeps c r =
      search (shared_rules, need_permitted-Keeps, check_candidate-Keeps, spend_permit-Keeps) depth
        20

  consume_permit-Keeps : (c : Proposal) → Keeps P (consume_permit rail c)
  unfolding consume_permit
  consume_permit-Keeps c = search (shared_rules, consume_from-Keeps)

  run_execution-Keeps : (f : Fault) → Keeps P (run_execution rail f)
  unfolding run_execution
  run_execution-Keeps f = search shared_rules depth 14

  refuse_execution-Keeps : (e : Thrown) → Keeps P (refuse_execution rail e)
  unfolding refuse_execution
  refuse_execution-Keeps e = search shared_rules depth 14

  doubt_execution-Keeps : Keeps P (doubt_execution rail)
  unfolding doubt_execution
  doubt_execution-Keeps = search shared_rules depth 14

  handle_execution_error-Keeps : (e : Thrown) → Keeps P (handle_execution_error rail e)
  unfolding handle_execution_error
  handle_execution_error-Keeps e =
      search (shared_rules, refuse_execution-Keeps, doubt_execution-Keeps) depth 14

  pub execute-Keeps : (f : Fault) (o : Option Proposal) → Keeps P (execute rail f o)
  unfolding execute
  execute-Keeps f o =
      search (shared_rules, consume_permit-Keeps, run_execution-Keeps, handle_execution_error-Keeps)
        depth 14

  settle_status-Keeps : (x : ConnectorResult) (t : ResultStatus) → Keeps P (settle_status rail x t)
  unfolding settle_status
  settle_status-Keeps x ResultStatus.executed = search shared_rules depth 12
  settle_status-Keeps x ResultStatus.no_effect = search shared_rules depth 12
  settle_status-Keeps x _ = search shared_rules depth 12

  pub reconcile-Keeps : Keeps P (reconcile rail)
  unfolding reconcile
  reconcile-Keeps = search (shared_rules, settle_status-Keeps) depth 14
