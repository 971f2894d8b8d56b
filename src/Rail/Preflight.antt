-- ===== src/Rail/Preflight.antt =====
-- rail-class.js: the recovery preflight. `acceptRecoveryQualification`, and the checks of an accepted
-- preflight before a permit, an execution or a remedy.
use consequence_rail.Base.{ℕ, Bool, true, false, ◌&&◌, String, str_eq, Option, none, some, [], ◌∷◌}
use consequence_rail.Json.{str, object}
use consequence_rail.Canonical.{digest}
use consequence_rail.Errors.{rail_error, Result, ok, err}
use consequence_rail.Signing.{verify_artifact}
use consequence_rail.State.{recourse_reserved}
use consequence_rail.Rail.Records.{
  ActionRecord, Reserved, RecoveryBundle, RecoveryContract, RecoveryVerification,
}
use consequence_rail.Rail.Interface.{Rail}
use consequence_rail.Rail.Encode.{
  action_type_text, mode_text, parameters_json, postcondition_json, evidence_plan_json,
  commitment_body, commitment_json, reservation_body, reservation_json,
}
use consequence_rail.Rail.Validate.{is_digest, same_kind}
use consequence_rail.Rail.Session.{
  Method, pure, throw, lift, peek, require, get_record, assign, clock_now, append_event, ◌>>=◌,
  ◌>>◌,
}
use consequence_rail.Rail.Lifecycle.{assert_state, need_reserved}

module _ {E : Type 0} (rail : Rail E) where
  -- The `catch` of `recoveryImplementationDigest`.
  abbrev pub as_code : String → Result String → Result String
  as_code code (ok d) = ok d
  as_code code (err e) = err (rail_error code)

  unfoldable pub measured_digest :
      Option (E → String → Result String) → Reserved → String → Method E String
  measured_digest none reserved code = throw (rail_error code)
  measured_digest (some measure) reserved code = do
    d ← peek (λ env. as_code code (measure env reserved.reservation.capability))
    require (is_digest d) code
    pure d

  -- `recoveryImplementationDigest(record, code)`
  unfoldable pub recovery_implementation_digest : Reserved → String → Method E String
  recovery_implementation_digest reserved code =
      measured_digest rail.measure_recovery_implementation reserved code

  -- The comparison of `assertRecoveryBinding`.
  abbrev pub binds : Reserved → String → RecoveryContract → Bool
  binds reserved implementation contract =
      let rt = rail.runtime in
      let v = reserved.reservation in
      let actual = digest rt (reservation_json rt v) in
      str_eq actual reserved.reservation_digest
      && same_kind contract.kind v.kind
      && str_eq contract.capability v.capability
      && str_eq contract.reservation_digest actual
      && str_eq contract.capability_reference_digest v.capability_reference_digest
      && str_eq contract.connector_commitment_digest
          (digest rt (commitment_json rt v.connector_commitment))
      && str_eq contract.implementation_digest implementation

  -- `assertRecoveryBinding(record, contract, code)`
  unfoldable pub assert_recovery_binding : RecoveryContract → String → Method E (Unit {0})
  assert_recovery_binding contract code = do
    reserved ← need_reserved rail
    lift (
        verify_artifact rail.runtime (reservation_body rail.runtime reserved.reservation)
          reserved.reservation.signature ((rail.signer.kid, rail.signer.public_key) ∷ []))
    lift (
        verify_artifact rail.runtime
          (commitment_body rail.runtime reserved.reservation.connector_commitment)
          reserved.reservation.connector_commitment.signature rail.connector_trusted_keys)
    implementation ← recovery_implementation_digest reserved code
    require (binds reserved implementation contract) code

  -- The contract covers the action's envelope.
  abbrev pub covers_action : ActionRecord → RecoveryContract → Bool
  covers_action r c =
      let rt = rail.runtime in
      str_eq c.action_digest r.action_digest
      && str_eq (action_type_text c.action_class) (action_type_text r.proposal.action_type)
      && str_eq c.connector r.proposal.target.connector
      && str_eq c.resource_type r.proposal.target.resource_type
      && str_eq (mode_text c.assurance_mode) (mode_text r.proposal.assurance_mode)
      && str_eq c.parameters_digest (digest rt (parameters_json r.proposal.parameters))
      && str_eq c.postcondition_digest (digest rt (postcondition_json r.proposal.postcondition))
      && str_eq c.evidence_plan_digest (digest rt (evidence_plan_json r.proposal.evidence_plan))

  -- `acceptRecoveryQualification(actionId, bundle)`
  unfoldable pub accept_recovery_qualification : RecoveryBundle → Method E (Unit {0})
  accept_recovery_qualification bundle = do
    assert_state rail recourse_reserved
    now ← clock_now rail
    verification ← lift (rail.verify_recovery_preflight bundle (some now))
    require (str_eq verification.qualification "QUALIFIED_EXACT") "RECOVERY_PREFLIGHT_NOT_QUALIFIED"
    r ← get_record
    require (covers_action r bundle.recovery_contract) "RECOVERY_COVERAGE_MISMATCH"
    assert_recovery_binding bundle.recovery_contract "RECOVERY_COVERAGE_MISMATCH"
    append_event rail "RECOVERY_PREFLIGHT_ACCEPTED" "recovery-preflight" (
        object (
          ("attestation_digest", str verification.attestation_digest)
          ∷ ("coverage_digest", str verification.coverage_digest)
          ∷ ("qualification", str verification.qualification)
          ∷ ("expires_at", str (rail.runtime.to_iso verification.expires_at))
          ∷ []))
    assign (λ a. record a { recovery_preflight = some (bundle, verification) })

  -- `requireCurrent ? this.clock.now() : null`
  unfoldable pub current_time : Bool → Method E (Option ℕ)
  current_time true = do now ← clock_now rail; pure (some now)
  current_time false = pure none

  -- `assertAcceptedRecoveryPreflight(record, { requireCurrent })`, on the accepted pair.
  unfoldable pub check_accepted_preflight :
      Bool → Option (RecoveryBundle × RecoveryVerification) → Method E (Unit {0})
  check_accepted_preflight require_current none = throw (rail_error "RECOVERY_PREFLIGHT_REQUIRED")
  check_accepted_preflight require_current (some (bundle, accepted)) = do
    now ← current_time require_current
    verification ← lift (rail.verify_recovery_preflight bundle now)
    require
        (str_eq verification.qualification "QUALIFIED_EXACT"
          && str_eq verification.attestation_digest accepted.attestation_digest)
        "RECOVERY_PREFLIGHT_NOT_QUALIFIED"
    assert_recovery_binding bundle.recovery_contract "RECOVERY_PREFLIGHT_NOT_QUALIFIED"

  -- `if (record.recovery_preflight) this.assertAcceptedRecoveryPreflight(…)`
  unfoldable pub recheck_preflight :
      Bool → Option (RecoveryBundle × RecoveryVerification) → Method E (Unit {0})
  recheck_preflight require_current none = pure tt
  recheck_preflight require_current (some accepted) =
      check_accepted_preflight require_current (some accepted)
