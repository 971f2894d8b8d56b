-- ===== src/Rail/World.antt =====
-- rail-class.js: the map of actions, `propose`, `get` and the public methods on an action id.
use Prim.Native.String.{◌++◌}
use consequence_rail.Base.{
  Bool, true, false, not, String, Option, none, some, List, [], ◌∷◌, ltb, length, Dict, lookup,
  insert, contains,
}
use consequence_rail.Json.{Json, str, object}
use consequence_rail.Canonical.{digest}
use consequence_rail.Errors.{rail_error, Result, ok, err, assert}
use consequence_rail.State.{proposed}
use consequence_rail.EventStore.{Event, append}
use consequence_rail.Rail.Records.{Proposal, Decision, Request, RecoveryBundle, ActionRecord}
use consequence_rail.Rail.Interface.{Rail, Fault}
use consequence_rail.Rail.Encode.{proposal_json, action_type_text, mode_text}
use consequence_rail.Rail.Validate.{
  check_proposal, check_proposal_at, execution_faults, evidence_faults, remediation_faults,
  remedy_evidence_faults,
}
use consequence_rail.Rail.Session.{Session, Method}
use consequence_rail.Rail.Lifecycle.{short}
use consequence_rail.Rail.Admission.{authorize, reserve_recourse}
use consequence_rail.Rail.Preflight.{accept_recovery_qualification}
use consequence_rail.Rail.Permit.{issue_permit}
use consequence_rail.Rail.Execution.{execute, reconcile}
use consequence_rail.Rail.Outcome.{verify_outcome}
use consequence_rail.Rail.Remedy.{remediate, reconcile_remedy}

-- `this.actions`, the event store's `byAction`, and the outside.
pub record World (E : Type 0) : Type 0 where
  pub env : E
  pub actions : Dict ActionRecord
  pub by_action : Dict (List Event)

abbrev pub or_nil : Option (List Event) → List Event
or_nil none = []
or_nil (some es) = es

-- `eventStore.forAction(id)`
abbrev pub log_of : {E : Type 0} → String → World E → List Event
log_of id w = or_nil (lookup id w.by_action)

-- What a call on an action leaves behind.
abbrev pub store : {E : Type 0} → String → Session E → World E → World E
store id s w = record {
  env = s.env;
  actions = insert id s.action w.actions;
  by_action = insert id s.events w.by_action;
}

-- The calls of the public interface, with what their options have to be.
pub data Command : Type 0 where
  authorizes : Decision → Command
  reserves : Request → Command
  qualifies : RecoveryBundle → Command
  permits : Command
  executes : Fault → Option Proposal → Command
  reconciles : Command
  verifies : Fault → Command
  remediates : Fault → Command
  reconciles_remedy : Fault → Command

module _ {E : Type 0} (rail : Rail E) where
  -- The record that `propose` registers.
  abbrev pub new_record : String → Proposal → ActionRecord
  new_record action_digest p = record {
    action_id = "act_" ++ short 20 action_digest;
    action_digest = action_digest;
    proposal = p;
    state = proposed;
    permit_uses = 0;
    remedy_attempts = 0;
    evidence = [];
    receipt = none;
    authorization = none;
    recovery_preflight = none;
    reserved = none;
    permitted = none;
    execution = none;
    remedy_result = none;
    recourse_status_recorded = none;
  }

  abbrev pub proposed_payload : ActionRecord → Json
  proposed_payload r = object (
      ("state", str "PROPOSED")
      ∷ ("action_digest", str r.action_digest)
      ∷ ("action_type", str (action_type_text r.proposal.action_type))
      ∷ ("assurance_mode", str (mode_text r.proposal.assurance_mode))
      ∷ [])

  -- The registration: the event, with its own reading of the clock, then the record.
  unfoldable pub register : ActionRecord → World E → World E
  register r w =
      let (now, env) = rail.now w.env in
      let events = or_nil (lookup r.action_id w.by_action) in
      store r.action_id
        (record {
          env = env;
          action = r;
          events =
              append rail.runtime rail.signer events r.action_id "ACTION_PROPOSED" "rail" now
                (proposed_payload r);
        })
        w

  unfoldable pub guarded :
      Result (Unit {0}) → World E → (World E → Result String × World E) → Result String × World E
  guarded (ok tt) w k = k w
  guarded (err e) w k = (err e, w)

  -- `propose(input)`; it returns the action's id.
  unfoldable pub propose : Proposal → World E → Result String × World E
  propose p w =
      guarded (assert (ltb (length w.actions) rail.max_actions) "ACTION_CAPACITY_REACHED") w λ w₁.
        guarded (check_proposal rail.runtime p) w₁ λ w₂.
          let (now, env) = rail.now w₂.env in
          guarded (check_proposal_at rail.runtime now p) (record w₂ { env = env })
            λ w₃.
              let r = new_record (digest rail.runtime (proposal_json rail.runtime p)) p in
              guarded (assert (not (contains r.action_id w₃.actions)) "ACTION_EXISTS") w₃
                λ w₄. (ok r.action_id, register r w₄)

  abbrev pub run_on :
      {A : Type 0} → Method E A → String → Option ActionRecord → World E → Result A × World E
  run_on m id none w = (err (rail_error "ACTION_NOT_FOUND"), w)
  run_on m id (some r) w =
      let (result, s) =
        m (record { env = w.env; action = r; events = or_nil (lookup id w.by_action) }) in
      (result, store id s w)

  -- `get(actionId)`, and a method on the action that it finds.
  unfoldable pub on_action : {A : Type 0} → String → Method E A → World E → Result A × World E
  on_action id m w = run_on m id (lookup id w.actions) w

  abbrev pub with_fault :
      Bool → Method E (Unit {0}) → String → World E → Result (Unit {0}) × World E
  with_fault true m id w = on_action id m w
  with_fault false m id w = (err (rail_error "SCHEMA_INVALID"), w)

  -- One call on an action. The options are checked before the action is looked up.
  unfoldable pub run : Command → String → World E → Result (Unit {0}) × World E
  run (authorizes d) id w = on_action id (authorize rail d) w
  run (reserves q) id w = on_action id (reserve_recourse rail q) w
  run (qualifies b) id w = on_action id (accept_recovery_qualification rail b) w
  run permits id w = on_action id (issue_permit rail) w
  run (executes f p) id w = with_fault (execution_faults f) (execute rail f p) id w
  run reconciles id w = on_action id (reconcile rail) w
  run (verifies f) id w = with_fault (evidence_faults f) (verify_outcome rail f) id w
  run (remediates f) id w = with_fault (remediation_faults f) (remediate rail f) id w
  run (reconciles_remedy f) id w =
      with_fault (remedy_evidence_faults f) (reconcile_remedy rail f) id w

-- A call of the public interface: a proposal, or a command on an action.
pub data Call : Type 0 where
  proposes : Proposal → Call
  commands : String → Command → Call

module _ {E : Type 0} (rail : Rail E) where
  unfoldable pub perform : Call → World E → World E
  perform (proposes p) w = (propose rail p w).1
  perform (commands id c) w = (run rail c id w).1

  -- A sequence of calls, whatever each of them returns or throws.
  unfoldable pub perform_all : List Call → World E → World E
  perform_all [] w = w
  perform_all (c ∷ cs) w = perform_all cs (perform c w)

  abbrev pub empty_world : E → World E
  empty_world env = record { env = env; actions = []; by_action = [] }
