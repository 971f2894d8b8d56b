-- ===== src/Recovery/Verify/RoundTrip.antt =====
-- The verifier accepts what the runner makes.
use text.Mathlib.TextPositions.{eq_refl}
use consequence_rail.Base.{ℕ, ◌≡◌, refl, true, Option, is_some, decided_complete}
use consequence_rail.Json.{Json-discrete}
use consequence_rail.Canonical.{Runtime}
use consequence_rail.Signing.{Signer, Keys}
use consequence_rail.Signing.RoundTrip.{IsTrusted, verify_artifact-sign_artifact}
use consequence_rail.Errors.{ok}
use consequence_rail.Rail.Records.{RecoveryContract, Trace, AttestationCore}
use consequence_rail.Rail.Validate.{non_empty}
use consequence_rail.Recovery.Contract.{is_valid, validate_recovery_contract}
use consequence_rail.Recovery.Encode.{attestation_body}
use consequence_rail.Recovery.Attest.{
  in_window, derived_core, attestation_id_of, attest, bundle_of, build_attestation_core,
}
use consequence_rail.Recovery.Verify.{
  compared, same_core, is_adapter_of, check_current, check_replay, verification_of, is_limited,
  verify_recovery_preflight,
}

same_core_self : (a : AttestationCore) → same_core a a ≡ true
unfolding same_core
same_core_self a = decided_complete (Json-discrete (compared a) (compared a)) refl

module _ (rt : Runtime) where
  -- What a drill has checked before it is sealed.
  pub record IsDrilled (c : RecoveryContract) (t : Trace) (time : ℕ) (signer : Signer)
      : Type 0 where
    pub valid : is_valid c ≡ true
    pub window : in_window c time ≡ true
    pub adapter : is_adapter_of c t ≡ true
    pub named : non_empty signer.kid ≡ true

  module _ {signer : Signer} {keys : Keys} (trust : IsTrusted rt signer keys)
      (with_pem : non_empty signer.public_key_pem ≡ true) where
    check_replay-attest :
        (c : RecoveryContract) (t : Trace) (time : ℕ)
        → IsDrilled c t time signer
        → check_replay rt c t (attest rt c t time signer) ≡ ok tt
    unfolding check_replay attest build_attestation_core
    check_replay-attest c t time d =
        rw
          (
            d.adapter,
            d.window,
            same_core_self (derived_core rt c t time),
            eq_refl (attestation_id_of rt (derived_core rt c t time)),
          )
          refl

    pub verify-bundle_of :
        (c : RecoveryContract) (t : Trace) (time : ℕ) (now : Option ℕ)
        → IsDrilled c t time signer
        → is_limited rt (bundle_of rt c t time signer) ≡ true
        → check_current now (derived_core rt c t time) ≡ ok tt
        → verify_recovery_preflight rt keys (bundle_of rt c t time signer) now
          ≡ ok (verification_of rt (is_some now) (attest rt c t time signer))
    unfolding verify_recovery_preflight bundle_of validate_recovery_contract
    verify-bundle_of c t time now d limited current =
        rw
          (
            limited,
            d.valid,
            d.named,
            with_pem,
            verify_artifact-sign_artifact rt trust (
                attestation_body rt (derived_core rt c t time)
                  (attestation_id_of rt (derived_core rt c t time))),
            check_replay-attest c t time d,
            current,
          )
          refl
