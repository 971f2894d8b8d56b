-- ===== src/Recovery/Verify.antt =====
-- `verifyRecoveryPreflight`. A time is given where `requireCurrent` is set.
pub mod Accepted
pub mod RoundTrip
pub mod Window
use consequence_rail.Base.{
  ℕ, Bool, true, false, ◌&&◌, String, str_eq, Option, none, some, leb, ltb, is_some, decided,
}
use consequence_rail.Json.{Json, nat, object, Json-discrete}
use consequence_rail.Canonical.{Runtime, digest, representable}
use consequence_rail.Signing.{Keys, verify_artifact}
use consequence_rail.Errors.{Result, ok, err, assert, ◌>>=◌, ◌>>◌}
use consequence_rail.Rail.Records.{
  RecoveryContract, Trace, TrustHint, AttestationCore, Attestation, RecoveryBundle,
  RecoveryVerification,
}
use consequence_rail.Rail.Validate.{non_empty}
use consequence_rail.Recovery.Contract.{validate_recovery_contract}
use consequence_rail.Recovery.Encode.{
  core_fields, attestation_body, attestation_json, bundle_json, qualification_text,
}
use consequence_rail.Recovery.Attest.{in_window, derived_core, attestation_id_of}

abbrev pub hint_present : TrustHint → Bool
hint_present h = non_empty h.key_id && non_empty h.public_key_pem && non_empty h.warning

-- The trace names the contract's adapter.
abbrev pub is_adapter_of : RecoveryContract → Trace → Bool
is_adapter_of c t =
    str_eq t.adapter_id c.fixture.adapter
    && str_eq t.adapter_version c.fixture.adapter_version
    && str_eq t.adapter_implementation_digest c.fixture.adapter_implementation_digest

-- The fields of a core as they are compared; a time stands as its number.
unfoldable pub compared : AttestationCore → Json
compared a = object (core_fields nat a)

-- `JSON.stringify(attestation[field]) === JSON.stringify(expected)` for every field of the core.
unfoldable pub same_core : AttestationCore → AttestationCore → Bool
unfolding Json-discrete compared
same_core a b = decided (Json-discrete (compared a) (compared b))

abbrev pub check_current : Option ℕ → AttestationCore → Result (Unit {0})
check_current none a = ok tt
check_current (some now) a =
    assert (leb a.drilled_at now && ltb now a.expires_at) "RECOVERY_ATTESTATION_EXPIRED"

module _ (rt : Runtime) where
  -- The returned object.
  abbrev pub verification_of : Bool → Attestation → RecoveryVerification
  verification_of fresh a = record {
    freshness_checked = fresh;
    qualification = qualification_text a.core.qualification;
    contract_digest = a.core.contract_digest;
    coverage_digest = a.core.coverage_digest;
    attestation_digest = digest rt (attestation_json rt a);
    expires_at = a.core.expires_at;
    trusted_key_id = a.signature.key_id;
  }

  -- The identifier is the one of the derived core.
  abbrev pub is_named_after : RecoveryContract → Trace → Attestation → Bool
  is_named_after c t a =
      str_eq a.attestation_id (attestation_id_of rt (derived_core rt c t a.core.drilled_at))

  -- The checks of the attestation against what the contract and the trace give.
  unfoldable pub check_replay : RecoveryContract → Trace → Attestation → Result (Unit {0})
  check_replay c t a =
      assert (is_adapter_of c t) "RECOVERY_BUNDLE_INVALID"
      >> assert (in_window c a.core.drilled_at) "RECOVERY_BUNDLE_INVALID"
      >> assert (same_core a.core (derived_core rt c t a.core.drilled_at)) "RECOVERY_BUNDLE_INVALID"
      >> assert (is_named_after c t a) "RECOVERY_BUNDLE_INVALID"

  -- Whether `deepClone(bundle)` returns.
  unfoldable pub is_limited : RecoveryBundle → Bool
  is_limited b = representable (bundle_json rt b)

  -- The size of the bundle, its version, its contract and its trust hint.
  abbrev pub check_shape : RecoveryBundle → Result (Unit {0})
  check_shape b =
      assert (is_limited b) "CANONICALIZATION_FAILED"
      >> assert (str_eq b.schema_version "consequence-rail/recovery-drill-bundle/v0.1")
          "RECOVERY_BUNDLE_INVALID"
      >> validate_recovery_contract b.recovery_contract
      >> assert (hint_present b.trust_hint) "RECOVERY_BUNDLE_INVALID"

  abbrev pub check_signature : Keys → Attestation → Result (Unit {0})
  check_signature keys a =
      verify_artifact rt (attestation_body rt a.core a.attestation_id) a.signature keys

  -- `verifyRecoveryPreflight(bundle, { trustedKeys, now, requireCurrent })`
  unfoldable pub verify_recovery_preflight :
      Keys → RecoveryBundle → Option ℕ → Result RecoveryVerification
  verify_recovery_preflight keys b now =
      check_shape b
      >> check_signature keys b.drill_attestation
      >> check_replay b.recovery_contract b.trace b.drill_attestation
      >> check_current now b.drill_attestation.core
      >> ok (verification_of (is_some now) b.drill_attestation)
