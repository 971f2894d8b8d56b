-- ===== src/Recovery/Verify/Window.antt =====
-- The times of an accepted bundle.
use consequence_rail.Base.{
  ℕ, ◌+◌, ◌*◌, ◌≤◌, ◌<◌, ◌≡◌, ◌∙◌, sym, ap, subst, arith, some, leb→le, ltb→lt, &&-true,
}
use consequence_rail.Canonical.{Runtime}
use consequence_rail.Signing.{Keys}
use consequence_rail.Errors.{ok, assert-ok}
use consequence_rail.Rail.Records.{RecoveryContract, RecoveryBundle, RecoveryVerification}
use consequence_rail.Recovery.Attest.{expected_expiry, build_attestation_core}
use consequence_rail.Recovery.Verify.{verify_recovery_preflight}
use consequence_rail.Recovery.Verify.Accepted.{verify-IsReplayed}

expiry-bounds :
    (c : RecoveryContract) (drilled_at : ℕ)
    → (expected_expiry c drilled_at ≤ c.expires_at)
      × (expected_expiry c drilled_at ≤ drilled_at + c.max_attestation_age_seconds * 1000)
unfolding expected_expiry
expiry-bounds c drilled_at =
    let age_expiry = drilled_at + c.max_attestation_age_seconds * 1000 in ground arith

module _ (rt : Runtime) (keys : Keys) (b : RecoveryBundle) where
  -- The verification is current at a time: the drill was made before it and within the contract's
  -- window, and what is reported to expire later expires with the contract and with the drill's age.
  pub record IsCurrent (now : ℕ) (v : RecoveryVerification) : Type 0 where
    pub issued : b.recovery_contract.issued_at ≤ b.drill_attestation.core.drilled_at
    pub drilled : b.drill_attestation.core.drilled_at ≤ now
    pub unexpired : now < v.expires_at
    pub by_contract : v.expires_at ≤ b.recovery_contract.expires_at
    pub by_age :
        v.expires_at
        ≤ b.drill_attestation.core.drilled_at
          + b.recovery_contract.max_attestation_age_seconds * 1000

  -- Where a bundle is accepted as current at a time, the drill lies between the contract's issue and
  -- that time, and the time is before the reported expiry, which is neither later than the contract's
  -- own nor than the drill plus the contract's maximal age.
  pub verify_recovery_preflight-IsCurrent :
      (now : ℕ) (v : RecoveryVerification)
      → verify_recovery_preflight rt keys b (some now) ≡ ok v
      → IsCurrent now v
  unfolding build_attestation_core
  verify_recovery_preflight-IsCurrent now v h =
      let r = verify-IsReplayed rt keys b (some now) v h in
      let c = b.recovery_contract in
      let core = b.drill_attestation.core in
      let (after_issue, before_end) = &&-true _ _ r.window in
      let (after_drill, before_expiry) =
        &&-true _ _ (assert-ok _ "RECOVERY_ATTESTATION_EXPIRED" r.current) in
      let reported = ap (λ (w : RecoveryVerification). w.expires_at) r.returned in
      let (within_contract, within_age) = expiry-bounds c core.drilled_at in
      record {
        issued = leb→le _ _ after_issue;
        drilled = leb→le _ _ after_drill;
        unexpired = subst (λ t. now < t) reported (ltb→lt now core.expires_at before_expiry);
        by_contract =
            subst (λ t. t ≤ c.expires_at) (sym r.same.expiries ∙ reported) within_contract;
        by_age =
            subst (λ t. t ≤ core.drilled_at + c.max_attestation_age_seconds * 1000)
              (sym r.same.expiries ∙ reported) within_age;
      }
