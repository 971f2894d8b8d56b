-- ===== src/Rail/Permit.antt =====
-- rail-class.js: `issuePermit`.
use Prim.Native.String.{◌++◌}
use consequence_rail.Base.{
  Bool, true, false, not, ◌||◌, String, Option, some, List, [], ◌∷◌, if◌then◌else◌,
}
use consequence_rail.Json.{Json, bool, str, object}
use consequence_rail.Canonical.{digest}
use consequence_rail.Errors.{rail_error}
use consequence_rail.Signing.{Signature, sign_artifact}
use consequence_rail.State.{recourse_reserved, revoked, permitted}
use consequence_rail.Rail.Records.{
  Permit, Authorization, RecourseStatus, RecoveryVerification, RecoveryBundle,
}
use consequence_rail.Rail.Interface.{Rail}
use consequence_rail.Rail.Encode.{permit_body, permit_json, mode_text, recourse_text}
use consequence_rail.Rail.Preflight.{check_accepted_preflight}
use consequence_rail.Rail.Session.{
  Method, pure, throw, lift, require, get_record, assign, clock_now, transition, ◌>>=◌, ◌>>◌,
}
use consequence_rail.Rail.Lifecycle.{
  assert_state, assert_not_expired, connector_capabilities, read_recourse_status, need_reserved,
  finalize_recourse, present, short, is_enforced, is_status_active,
}

module _ {E : Type 0} (rail : Rail E) where
  -- The recourse is gone: the action is revoked, the reservation released, and the call throws.
  unfoldable pub revoke : RecourseStatus → Method E (Unit {0})
  revoke status = do
    transition rail revoked "CONNECTOR_RECOURSE_NOT_ACTIVE"
        (object (("recourse_status", str (recourse_text status.status)) ∷ []))
    finalize_recourse rail true "CONNECTOR_RECOURSE_NOT_ACTIVE"
    throw (rail_error "RECOURSE_NOT_ACTIVE")

  -- The recourse is read again, and has to be active.
  unfoldable pub demand_active_recourse : Method E (Unit {0})
  demand_active_recourse = do
    status ← read_recourse_status rail
    if is_status_active status.status then pure tt else revoke status

  abbrev pub no_signature : Signature
  no_signature = record { algorithm = ""; key_id = ""; value = "" }

  abbrev pub sign_permit : Permit → Permit
  sign_permit p = record p {
    signature = sign_artifact rail.runtime (permit_body rail.runtime p) rail.signer;
  }

  abbrev pub attestation_field :
      Bool → Option (RecoveryBundle × RecoveryVerification) → List (String × Json)
  attestation_field true (some (bundle, v)) =
      ("recovery_preflight_attestation_digest", str v.attestation_digest) ∷ []
  attestation_field _ _ = []

  -- The permit itself, once every gate is passed.
  unfoldable pub grant_permit : Authorization → Method E (Unit {0})
  grant_permit authorization = do
    r ← get_record
    reserved ← need_reserved rail
    now ← clock_now rail
    let permit : Permit = sign_permit (record {
      permit_id = "permit_" ++ short 20 r.action_digest;
      action_id = r.action_id;
      action_digest = r.action_digest;
      recourse_reservation_digest = reserved.reservation_digest;
      assurance_mode = r.proposal.assurance_mode;
      bypass_possible = not (is_enforced r.proposal.assurance_mode);
      jti =
          "jti_"
          ++ short 20 (
              digest rail.runtime (
                object (
                  ("action_id", str r.action_id)
                  ∷ ("reservation_digest", str reserved.reservation_digest)
                  ∷ [])));
      issued_at = now;
      expires_at = r.proposal.expires_at;
      max_uses = 1;
      signature = no_signature;
    })
    let permit_digest = digest rail.runtime (permit_json rail.runtime permit)
    transition rail permitted "PERMIT_ISSUED" (
        object (
          ("permit_digest", str permit_digest)
          ∷ ("assurance_mode", str (mode_text r.proposal.assurance_mode))
          ∷ ("bypass_possible", bool permit.bypass_possible)
          ∷ attestation_field authorization.require_recovery_preflight r.recovery_preflight))
    assign (λ a. record a {
      permitted = some (record { permit = permit; permit_digest = permit_digest });
    })

  unfoldable pub preflight_gate : Bool → Method E (Unit {0})
  preflight_gate false = pure tt
  preflight_gate true = do r ← get_record; check_accepted_preflight rail true r.recovery_preflight

  -- `issuePermit(actionId)`
  unfoldable pub issue_permit : Method E (Unit {0})
  issue_permit = do
    assert_state rail recourse_reserved
    r ← get_record
    assert_not_expired rail r.proposal.expires_at "ACTION_EXPIRED"
    reserved ← need_reserved rail
    assert_not_expired rail reserved.reservation.expires_at "RECOURSE_EXPIRED"
    c ← connector_capabilities rail
    require (not (is_enforced r.proposal.assurance_mode) || c.exclusive_credential_custody)
        "ASSURANCE_UNSUPPORTED"
    demand_active_recourse
    authorization ← lift (present r.authorization)
    preflight_gate authorization.require_recovery_preflight
    grant_permit authorization
