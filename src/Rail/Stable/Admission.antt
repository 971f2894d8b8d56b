-- ===== src/Rail/Stable/Admission.antt =====
-- `authorize`, `reserveRecourse`, the recovery preflight and `issuePermit`.
use consequence_rail.Base.{Bool, true, false, Option, none, some, String}
use consequence_rail.Errors.{Result}
use consequence_rail.Rail.Records.{
  Decision, Request, Commitment, Reserved, RecourseStatus, Authorization, RecoveryBundle,
  RecoveryContract, RecoveryVerification,
}
use consequence_rail.Rail.Interface.{Rail}
use consequence_rail.Rail.Session.{Session}
use consequence_rail.Rail.Session.Keeps.{Stable, Keeps}
use consequence_rail.Rail.Stable.{shared_rules}
use consequence_rail.Rail.Admission.{
  authorize, validate_reservation, accept_commitment, reserve_recourse,
}
use consequence_rail.Rail.Preflight.{
  measured_digest, recovery_implementation_digest, assert_recovery_binding,
  accept_recovery_qualification, current_time, check_accepted_preflight, recheck_preflight,
}
use consequence_rail.Rail.Permit.{
  revoke, demand_active_recourse, grant_permit, preflight_gate, issue_permit,
}

module _ {E : Type 0} {rail : Rail E} {P : Session E → Type 0} (stable : Stable rail P) where
  pub authorize-Keeps : (d : Decision) → Keeps P (authorize rail d)
  unfolding authorize
  authorize-Keeps d = search shared_rules depth 14

  validate_reservation-Keeps : (q : Request) → Keeps P (validate_reservation rail q)
  unfolding validate_reservation
  validate_reservation-Keeps q = search shared_rules depth 14

  accept_commitment-Keeps : (q : Request) (c : Commitment) → Keeps P (accept_commitment rail q c)
  unfolding accept_commitment
  accept_commitment-Keeps q c = search shared_rules depth 14

  pub reserve_recourse-Keeps : (q : Request) → Keeps P (reserve_recourse rail q)
  unfolding reserve_recourse
  reserve_recourse-Keeps q =
      search (shared_rules, validate_reservation-Keeps, accept_commitment-Keeps) depth 14

  measured_digest-Keeps :
      (o : Option (E → String → Result String)) (v : Reserved) (code : String)
      → Keeps P (measured_digest rail o v code)
  unfolding measured_digest
  measured_digest-Keeps none v code = search shared_rules
  measured_digest-Keeps (some m) v code = search shared_rules

  implementation_digest-Keeps :
      (v : Reserved) (code : String) → Keeps P (recovery_implementation_digest rail v code)
  unfolding recovery_implementation_digest
  implementation_digest-Keeps v code = search (shared_rules, measured_digest-Keeps)

  assert_recovery_binding-Keeps :
      (c : RecoveryContract) (code : String) → Keeps P (assert_recovery_binding rail c code)
  unfolding assert_recovery_binding
  assert_recovery_binding-Keeps c code = search (shared_rules, implementation_digest-Keeps) depth 14

  pub accept_recovery_qualification-Keeps :
      (b : RecoveryBundle) → Keeps P (accept_recovery_qualification rail b)
  unfolding accept_recovery_qualification
  accept_recovery_qualification-Keeps b =
      search (shared_rules, assert_recovery_binding-Keeps) depth 16

  current_time-Keeps : (b : Bool) → Keeps P (current_time rail b)
  unfolding current_time
  current_time-Keeps true = search shared_rules
  current_time-Keeps false = search shared_rules

  check_accepted_preflight-Keeps :
      (b : Bool) (o : Option (RecoveryBundle × RecoveryVerification))
      → Keeps P (check_accepted_preflight rail b o)
  unfolding check_accepted_preflight
  check_accepted_preflight-Keeps b none = search shared_rules
  check_accepted_preflight-Keeps b (some (bundle, accepted)) =
      search (shared_rules, current_time-Keeps, assert_recovery_binding-Keeps) depth 12

  pub recheck_preflight-Keeps :
      (b : Bool) (o : Option (RecoveryBundle × RecoveryVerification))
      → Keeps P (recheck_preflight rail b o)
  unfolding recheck_preflight
  recheck_preflight-Keeps b none = search shared_rules
  recheck_preflight-Keeps b (some a) = check_accepted_preflight-Keeps b (some a)

  revoke-Keeps : (t : RecourseStatus) → Keeps P (revoke rail t)
  unfolding revoke
  revoke-Keeps t = search shared_rules depth 12

  pub demand_active_recourse-Keeps : Keeps P (demand_active_recourse rail)
  unfolding demand_active_recourse
  demand_active_recourse-Keeps = search (shared_rules, revoke-Keeps) depth 12

  grant_permit-Keeps : (a : Authorization) → Keeps P (grant_permit rail a)
  unfolding grant_permit
  grant_permit-Keeps a = search shared_rules depth 14

  preflight_gate-Keeps : (b : Bool) → Keeps P (preflight_gate rail b)
  unfolding preflight_gate
  preflight_gate-Keeps false = search shared_rules
  preflight_gate-Keeps true = search (shared_rules, check_accepted_preflight-Keeps)

  pub issue_permit-Keeps : Keeps P (issue_permit rail)
  unfolding issue_permit
  issue_permit-Keeps =
      search (shared_rules, demand_active_recourse-Keeps, preflight_gate-Keeps, grant_permit-Keeps)
        depth 20
