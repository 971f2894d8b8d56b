-- ===== src/Rail/Admission.antt =====
-- rail-class.js: `authorize` and `reserveRecourse`. (`propose` is in `World`.)
use Prim.Native.String.{◌++◌}
use consequence_rail.Base.{
  Bool, true, false, not, ◌||◌, String, Option, none, some, [], ◌∷◌, if◌then◌else◌,
}
use consequence_rail.Json.{Json, str, object}
use consequence_rail.Canonical.{digest}
use consequence_rail.Signing.{Signature, sign_artifact, verify_artifact}
use consequence_rail.State.{authorized, denied, proposed, recourse_reserved}
use consequence_rail.Rail.Records.{
  AssuranceMode, observed, Decision, Authorization, Request, Commitment, Reservation,
}
use consequence_rail.Rail.Interface.{Rail}
use consequence_rail.Rail.Encode.{
  kind_text, commitment_body, commitment_json, reservation_seed, reservation_body, reservation_json,
}
use consequence_rail.Rail.Validate.{
  check_decision, check_request, check_request_with, check_request_at, check_commitment,
}
use consequence_rail.Rail.Session.{
  Method, lift, call, require, get_record, assign, clock_now, transition, ◌>>=◌, ◌>>◌,
}
use consequence_rail.Rail.Lifecycle.{assert_state, connector_capabilities, short}

abbrev pub is_true : Option Bool → Bool
is_true none = false
is_true (some b) = b

abbrev pub is_observed : AssuranceMode → Bool
is_observed observed = true
is_observed _ = false

module _ {E : Type 0} (rail : Rail E) where
  -- The details of both verdicts.
  abbrev pub policy_details : Decision → Json
  policy_details d =
      object (("policy_id", str d.policy_id) ∷ ("policy_digest", str d.policy_digest) ∷ [])

  -- `authorize(actionId, decision)`
  unfoldable pub authorize : Decision → Method E (Unit {0})
  authorize d = do
    assert_state rail proposed
    lift (check_decision d)
    now ← clock_now rail
    let authorization : Authorization = record {
      allow = d.allow;
      policy_id = d.policy_id;
      policy_digest = d.policy_digest;
      evaluation_input_digest = d.evaluation_input_digest;
      require_recovery_preflight =
          rail.require_recovery_preflight || is_true d.require_recovery_preflight;
      decided_at = now;
    }
    transition rail (if d.allow then authorized else denied)
        (if d.allow then "POLICY_ALLOWED" else "POLICY_DENIED") (policy_details d)
    assign (λ r. record r { authorization = some authorization })

  abbrev pub no_signature : Signature
  no_signature = record { algorithm = ""; key_id = ""; value = "" }

  -- The reservation that is signed: its id from the digest of its first fields.
  abbrev pub seal_reservation : Reservation → Reservation
  seal_reservation seed =
      let rt = rail.runtime in
      let named = record seed {
        reservation_id = "rr_" ++ short 20 (digest rt (reservation_seed rt seed));
      } in
      record named { signature = sign_artifact rt (reservation_body rt named) rail.signer }

  -- `validateReservation(record, input)`
  unfoldable pub validate_reservation : Request → Method E (Unit {0})
  validate_reservation q = do
    r ← get_record
    lift (check_request r q)
    c ← connector_capabilities rail
    lift (check_request_with c q)
    now ← clock_now rail
    lift (check_request_at now r q)

  abbrev pub reservation_details : Reservation → String → Json
  reservation_details v reservation_digest = object (
      ("reservation_digest", str reservation_digest)
      ∷ ("remedy_kind", str (kind_text v.kind))
      ∷ ("capability", str v.capability)
      ∷ (
        "connector_commitment_digest",
        str (digest rail.runtime (commitment_json rail.runtime v.connector_commitment)),
      )
      ∷ [])

  -- The part of `reserveRecourse` once the connector has committed itself.
  unfoldable pub accept_commitment : Request → Commitment → Method E (Unit {0})
  accept_commitment q c = do
    r ← get_record
    lift (
        verify_artifact rail.runtime (commitment_body rail.runtime c) c.signature
          rail.connector_trusted_keys)
    lift (check_commitment r q c)
    now ← clock_now rail
    let reservation : Reservation = seal_reservation (record {
      action_digest = q.action_digest;
      kind = q.kind;
      connector = q.connector;
      capability = q.capability;
      capability_reference_digest = digest rail.runtime (str q.capability_reference);
      expires_at = q.expires_at;
      remedy_window_seconds = q.remedy_window_seconds;
      max_attempts = q.max_attempts;
      scope = q.scope;
      idempotency_key_digest = digest rail.runtime (str q.idempotency_key);
      connector_commitment = c;
      reservation_id = "";
      reserved_at = now;
      signature = no_signature;
    })
    let reservation_digest = digest rail.runtime (reservation_json rail.runtime reservation)
    transition rail recourse_reserved "RECOURSE_VERIFIED"
        (reservation_details reservation reservation_digest)
    assign (λ r. record r {
      reserved = some (record {
        reservation = reservation;
        reservation_digest = reservation_digest;
        remedy_idempotency_key = q.idempotency_key;
      });
    })

  -- `reserveRecourse(actionId, input)`
  unfoldable pub reserve_recourse : Request → Method E (Unit {0})
  reserve_recourse q = do
    r ← get_record
    assert_state rail authorized
    require (not (is_observed r.proposal.assurance_mode)) "MODE_NOT_EXECUTABLE"
    validate_reservation q
    c ← call (rail.connector.reserve_recourse r.proposal q)
    accept_commitment q c
