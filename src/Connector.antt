-- ===== src/Connector.antt =====
-- What the two synthetic connectors share (src/mock-refund-connector.js, src/mock-inventory-connector.js
-- has the same text): results bound to idempotency keys, and the recourse that is held for an action.
pub mod Idempotency
pub mod Recourse
use Prim.Native.String.{◌++◌}
use consequence_rail.Base.{
  ℕ, suc, Bool, true, false, ◌&&◌, String, str_eq, Option, none, some, List, [], ◌∷◌, leb, Dict,
  lookup, insert, contains, if◌then◌else◌,
}
use consequence_rail.Json.{Json, str, nat, object}
use consequence_rail.Canonical.{Runtime, digest}
use consequence_rail.Errors.{Thrown, rail_error, foreign, Result, ok, err}
use consequence_rail.Signing.{Signer, Signature, sign_artifact}
use consequence_rail.Rail.Records.{
  Proposal, Request, Scope, Commitment, RecourseState, RecourseStatus, ConnectorResult,
  ResultStatus,
}
use consequence_rail.Rail.Interface.{Fault}
use consequence_rail.Rail.Encode.{proposal_json, commitment_body, scope_field}
use consequence_rail.Rail.Lifecycle.{short}
use consequence_rail.Rail.Validate.{max_safe_integer}

abbrev pub outcome : ResultStatus → String → Option String → ConnectorResult
outcome status key id = record { status = status; idempotency_key = key; external_id = id }

-- A pair of maps: `executions` with `executionActionDigests`, or the same of the remedies.
pub record Bindings : Type 0 where
  pub digests : Dict String
  pub results : Dict ConnectorResult

abbrev pub no_bindings : Bindings
no_bindings = record { digests = []; results = [] }

abbrev pub bound_to : Option String → String → Bool
bound_to none d = true
bound_to (some e) d = str_eq e d

-- `rejectForeignIdempotency`: whether the key is free or bound to this action.
unfoldable pub admits_key : Bindings → String → String → Bool
admits_key b key d = bound_to (lookup key b.digests) d

-- `rememberExecution` and `rememberRemedy`, after their check of the key.
abbrev pub remember : String → String → ConnectorResult → Bindings → Bindings
remember key d result b = record {
  digests = insert key d b.digests;
  results = insert key result b.results;
}

abbrev pub recorded : Option ConnectorResult → Result ConnectorResult
recorded none = err foreign
recorded (some result) = ok result

abbrev pub replay : String → Bool → Bindings → Result ConnectorResult
replay key false b = err (rail_error "IDEMPOTENCY_CONFLICT")
replay key true b = recorded (lookup key b.results)

abbrev pub or_unknown : String → Option ConnectorResult → ConnectorResult
or_unknown key none = outcome ResultStatus.unknown key none
or_unknown key (some result) = result

-- `status(key)` and `remedyStatus(key)`
unfoldable pub status_of : String → Bindings → ConnectorResult
status_of key b = or_unknown key (lookup key b.results)

-- What follows a digest of a proposal, which throws for a proposal beyond the limits of canonical JSON.
abbrev pub digested {ℓ} : {A : Type ℓ} → Bool → Result A → Result A
digested true result = result
digested false result = err (rail_error "CANONICALIZATION_FAILED")

-- A call under an idempotency key: what is bound to it, or the body. The Boolean tells whether the
-- proposal has a digest.
unfoldable pub once :
    {S : Type 0}
    → (S → Bindings)
    → String
    → String
    → Bool
    → (S → Result ConnectorResult × S)
    → S
    → Result ConnectorResult × S
unfolding admits_key
once bindings key d fits body s =
    if contains key (bindings s).digests
    then (digested fits (replay key (admits_key (bindings s) key d) (bindings s)), s)
    else body s

-- Whether `Number.isSafeInteger(n) && n >= 1`.
abbrev pub is_counted : ℕ → Bool
is_counted n = leb 1 n && leb n max_safe_integer

-- The faults that `execute` and `remediate` ask for.
abbrev pub is_doubling : Fault → Bool
is_doubling Fault.duplicate = true
is_doubling Fault.remedy_failure = true
is_doubling _ = false

abbrev pub is_lost_before : Fault → Bool
is_lost_before Fault.lost_response_before_commit = true
is_lost_before _ = false

abbrev pub is_lost_after : Fault → Bool
is_lost_after Fault.lost_response_after_commit = true
is_lost_after _ = false

abbrev pub is_stale : Fault → Bool
is_stale Fault.stale_evidence = true
is_stale Fault.post_remedy_stale_evidence = true
is_stale _ = false

abbrev pub is_false_evidence : Fault → Bool
is_false_evidence Fault.post_remedy_false_evidence = true
is_false_evidence _ = false

abbrev pub remedy_fails : Fault → Bool
remedy_fails Fault.remedy_failure = true
remedy_fails _ = false

abbrev pub remedy_lost_before : Fault → Bool
remedy_lost_before Fault.remedy_lost_response_before_commit = true
remedy_lost_before _ = false

abbrev pub remedy_lost_after : Fault → Bool
remedy_lost_after Fault.remedy_lost_response_after_commit = true
remedy_lost_after _ = false

-- A reservation that the connector holds: the expiry of its commitment, and its status.
pub record Held : Type 0 where
  pub expires_at : ℕ
  pub status : RecourseState

abbrev pub is_active : RecourseState → Bool
is_active RecourseState.active = true
is_active _ = false

-- Whether a reading of the clock is made.
abbrev pub held_active : Option Held → Bool
held_active none = false
held_active (some h) = is_active h.status

abbrev pub status_text : String → Option Held → RecourseStatus
status_text token none = record { reservation_token = token; status = RecourseState.unknown }
status_text token (some h) = record { reservation_token = token; status = h.status }

abbrev pub set_status : String → RecourseState → Option Held → Dict Held → Dict Held
set_status token status none held = held
set_status token status (some h) held = insert token (record h { status = status }) held

-- The part of `recourseStatus` that marks an active reservation as expired.
unfoldable pub expire_at : ℕ → String → Option Held → Dict Held → Dict Held
expire_at now token none held = held
expire_at now token (some h) held =
    if is_active h.status
    then if leb h.expires_at now
      then insert token (record h { status = RecourseState.expired }) held
      else held
    else held

-- `releaseRecourse(token)`
unfoldable pub release : String → Option Held → Dict Held → Dict Held
release token none held = held
release token (some h) held =
    if is_active h.status
    then insert token (record h { status = RecourseState.released }) held
    else held

module _ (rt : Runtime) (signer : Signer) where
  -- `reservationToken`
  unfoldable pub token_of : Request → String
  token_of q =
      "rsv_"
      ++ short 24 (
          digest rt (
            object (
              ("action_digest", str q.action_digest)
              ∷ ("capability", str q.capability)
              ∷ ("expires_at", str (rt.to_iso q.expires_at))
              ∷ scope_field q.scope
              ∷ [])))

  abbrev no_signature : Signature
  no_signature = record { algorithm = ""; key_id = ""; value = "" }

  abbrev sign_commitment : Commitment → Commitment
  sign_commitment c = record c { signature = sign_artifact rt (commitment_body rt c) signer }

  -- The commitment of `reserveRecourse`, under the connector's own name.
  unfoldable pub commit : String → Request → ℕ → Commitment
  unfolding token_of
  commit connector q now = sign_commitment (record {
    schema_version = "consequence-rail/connector-recourse-commitment/v0.1";
    reservation_token = token_of q;
    action_digest = q.action_digest;
    connector = connector;
    capability = q.capability;
    kind = q.kind;
    expires_at = q.expires_at;
    max_attempts = q.max_attempts;
    scope = q.scope;
    reserved_at = now;
    status = RecourseState.active;
    signature = no_signature;
  })
