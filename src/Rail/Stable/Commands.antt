-- ===== src/Rail/Stable/Commands.antt =====
-- The public calls on the whole store of actions: what holds of a proposed action and is stable
-- holds of every action after every sequence of calls.
use consequence_rail.Base.{
  Bool, true, false, ◌≡◌, refl, subst, Option, none, some, String, str_eq, lookup,
  lookup-insert_same, lookup-insert_other, Bool-cases, inl, inr,
}
use consequence_rail.Rail.Records.{ActionRecord}
use consequence_rail.Rail.Interface.{Rail}
use consequence_rail.Rail.Session.{Session, Method}
use consequence_rail.Rail.Session.Keeps.{Stable, Keeps}
use consequence_rail.Rail.Validate.{
  execution_faults, evidence_faults, remediation_faults, remedy_evidence_faults,
}
use consequence_rail.Rail.World.{
  World, Command, authorizes, reserves, qualifies, permits, executes, reconciles, verifies,
  remediates, reconciles_remedy, on_action, run, run_on, or_nil, store, with_fault,
}
use consequence_rail.Rail.Stable.Admission.{
  authorize-Keeps, reserve_recourse-Keeps, accept_recovery_qualification-Keeps, issue_permit-Keeps,
}
use consequence_rail.Rail.Stable.Execution.{execute-Keeps, reconcile-Keeps}
use consequence_rail.Rail.Stable.Verification.{verify_outcome-Keeps}
use consequence_rail.Rail.Stable.Remedy.{remediate-Keeps, reconcile_remedy-Keeps}

-- The session that a call on an action starts from.
abbrev pub session_of : {E : Type 0} → World E → String → ActionRecord → Session E
session_of w id r = record { env = w.env; action = r; events = or_nil (lookup id w.by_action) }

-- `P` holds of every action in the store, and an action that was never proposed has no events.
pub record Everywhere {E : Type 0} (P : Session E → Type 0) (w : World E) : Type 0 where
  pub each : (id : String) (r : ActionRecord) → lookup id w.actions ≡ some r → P (session_of w id r)
  pub registered : (id : String) → lookup id w.actions ≡ none → lookup id w.by_action ≡ none

module _ {E : Type 0} {rail : Rail E} {P : Session E → Type 0} (stable : Stable rail P) where
  store-holds :
      (id : String) (s : Session E) (w : World E)
      → P s
      → Everywhere P w
      → (j : String) (r : ActionRecord) → lookup j (store id s w).actions ≡ some r
      → P (session_of (store id s w) j r)
  store-holds id s w p h j r e = elim (Bool-cases (str_eq id j)) [
    | inl same ↦
        let found : s.action ≡ r = cc (lookup-insert_same id j s.action w.actions same) in
        rw (lookup-insert_same id j s.events w.by_action same)
          (subst (λ a. P (record s { action = a })) found p)
    | inr other ↦ rw (lookup-insert_other id j s.events w.by_action other) (
        stable.outside (session_of w j r) s.env
          (h.each j r (cc (lookup-insert_other id j s.action w.actions other))))
  ]

  store-registered :
      (id : String) (s : Session E) (w : World E)
      → Everywhere P w
      → (j : String) → lookup j (store id s w).actions ≡ none
      → lookup j (store id s w).by_action ≡ none
  store-registered id s w h j e = elim (Bool-cases (str_eq id j)) [
    | inl same ↦ cc (lookup-insert_same id j s.action w.actions same)
    | inr other ↦
        rw (lookup-insert_other id j s.events w.by_action other)
          (h.registered j (cc (lookup-insert_other id j s.action w.actions other)))
  ]

  pub store-Keeps :
      (id : String) (s : Session E) (w : World E)
      → P s
      → Everywhere P w
      → Everywhere P (store id s w)
  store-Keeps id s w p h = record {
    each = store-holds id s w p h;
    registered = store-registered id s w h;
  }

  run_on-Keeps :
      {A : Type 0} (m : Method E A)
      → Keeps P m
      → (id : String) (o : Option ActionRecord) (w : World E) → lookup id w.actions ≡ o
      → Everywhere P w
      → Everywhere P (run_on rail m id o w).1
  run_on-Keeps m km id none w e h = h
  run_on-Keeps m km id (some r) w e h =
      store-Keeps id _ w (km.at (session_of w id r) (h.each id r e)) h

  on_action-Keeps :
      {A : Type 0} (m : Method E A)
      → Keeps P m
      → (id : String) (w : World E) → Everywhere P w
      → Everywhere P (on_action rail id m w).1
  unfolding on_action
  on_action-Keeps m km id w h = run_on-Keeps m km id _ w refl h

  with_fault-Keeps :
      (b : Bool) (m : Method E (Unit {0}))
      → Keeps P m
      → (id : String) (w : World E) → Everywhere P w
      → Everywhere P (with_fault rail b m id w).1
  with_fault-Keeps true m km id w h = on_action-Keeps m km id w h
  with_fault-Keeps false m km id w h = h

  pub run-Keeps :
      (c : Command) (id : String) (w : World E) → Everywhere P w → Everywhere P (run rail c id w).1
  unfolding run
  run-Keeps (authorizes d) id w h = on_action-Keeps _ (authorize-Keeps stable d) id w h
  run-Keeps (reserves q) id w h = on_action-Keeps _ (reserve_recourse-Keeps stable q) id w h
  run-Keeps (qualifies b) id w h =
      on_action-Keeps _ (accept_recovery_qualification-Keeps stable b) id w h
  run-Keeps permits id w h = on_action-Keeps _ (issue_permit-Keeps stable) id w h
  run-Keeps (executes f p) id w h =
      with_fault-Keeps (execution_faults f) _ (execute-Keeps stable f p) id w h
  run-Keeps reconciles id w h = on_action-Keeps _ (reconcile-Keeps stable) id w h
  run-Keeps (verifies f) id w h =
      with_fault-Keeps (evidence_faults f) _ (verify_outcome-Keeps stable f) id w h
  run-Keeps (remediates f) id w h =
      with_fault-Keeps (remediation_faults f) _ (remediate-Keeps stable f) id w h
  run-Keeps (reconciles_remedy f) id w h =
      with_fault-Keeps (remedy_evidence_faults f) _ (reconcile_remedy-Keeps stable f) id w h
