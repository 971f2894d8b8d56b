-- ===== src/Recovery/Drill/Synthetic.antt =====
-- Fixtures that are not synthetic.
use consequence_rail.Base.{ℕ, ◌≡◌, refl, ap, subst, Bool, true, false, ◌&&◌, String}
use consequence_rail.Canonical.{Runtime}
use consequence_rail.Signing.{Signer}
use consequence_rail.Errors.{Result, ok, err}
use consequence_rail.Rail.Records.{RecoveryContract, not_testable_local, RecoveryBundle}
use consequence_rail.Recovery.Grade.{is_synthetic, derive_qualification, grade}
use consequence_rail.Recovery.Attest.{bundle_of, attest, build_attestation_core}
use consequence_rail.Recovery.Drill.{
  Adapter, RawTrace, run_recovery_preflight, admit, admitted, timed, normalize_trace, normalize_by,
  measured_digest, or_empty, sealed, not_executed,
}
use consequence_rail.Recovery.Drill.Outcomes.{run_recovery_preflight-IsSealed}

grade-remote : (local b c r k : Bool) → grade (local && false) b c r k ≡ not_testable_local
unfolding grade
grade-remote true b c r k = refl
grade-remote false b c r k = refl

module _ {E : Type 0} (rt : Runtime) (now : E → ℕ × E) where
  abbrev altered : Adapter E → (RecoveryContract → E → Result RawTrace × E) → String → Adapter E
  altered a other measurement = record a { run = other; measured = measurement }

  measured_digest-altered :
      (c : RecoveryContract) (a : Adapter E) (other : RecoveryContract → E → Result RawTrace × E)
      (measurement : String)
      → is_synthetic c.fixture.fidelity ≡ false
      → measured_digest rt now c (altered a other measurement) ≡ measured_digest rt now c a
  measured_digest-altered c a other measurement remote = rw remote refl

  normalize_by-altered :
      (x : Bool) (a : Adapter E) (d : String) (r : RawTrace)
      (other : RecoveryContract → E → Result RawTrace × E) (measurement : String)
      → normalize_by rt now x (altered a other measurement) d r ≡ normalize_by rt now x a d r
  normalize_by-altered true a d r other measurement = refl
  normalize_by-altered false a d r other measurement = refl

  normalize_trace-altered :
      (c : RecoveryContract) (a : Adapter E) (r : RawTrace)
      (other : RecoveryContract → E → Result RawTrace × E) (measurement : String)
      → is_synthetic c.fixture.fidelity ≡ false
      → normalize_trace rt now
          (altered a other measurement)
          (or_empty (measured_digest rt now c (altered a other measurement)))
          r
        ≡ normalize_trace rt now a (or_empty (measured_digest rt now c a)) r
  unfolding normalize_trace
  normalize_trace-altered c a r other measurement remote =
      rw (measured_digest-altered c a other measurement remote)
        (normalize_by-altered _ a _ r other measurement)

  timed-altered :
      (x : Bool) (c : RecoveryContract) (a : Adapter E) (signer : Signer) (time : ℕ) (e : E)
      (other : RecoveryContract → E → Result RawTrace × E) (measurement : String)
      → is_synthetic c.fixture.fidelity ≡ false
      → timed rt now x c (altered a other measurement) signer time e
        ≡ timed rt now x c a signer time e
  timed-altered true c a signer time e other measurement remote = rw remote (
      ap (λ o. (sealed rt now c signer time o, e))
        (normalize_trace-altered c a (not_executed rt now a) other measurement remote))
  timed-altered false c a signer time e other measurement remote = refl

  admitted-altered :
      (m : Result (Unit {0})) (c : RecoveryContract) (a : Adapter E) (signer : Signer) (e : E)
      (other : RecoveryContract → E → Result RawTrace × E) (measurement : String)
      → is_synthetic c.fixture.fidelity ≡ false
      → admitted rt now m c (altered a other measurement) signer e ≡ admitted rt now m c a signer e
  admitted-altered (err x) c a signer e other measurement remote = refl
  admitted-altered (ok done) c a signer e other measurement remote =
      timed-altered _ c a signer _ _ other measurement remote

  admit-altered :
      (c : RecoveryContract) (a : Adapter E) (signer : Signer)
      (other : RecoveryContract → E → Result RawTrace × E) (measurement : String)
      → is_synthetic c.fixture.fidelity ≡ false
      → admit rt now c (altered a other measurement) signer ≡ admit rt now c a signer
  admit-altered c a signer other measurement remote = rw remote refl

  -- A drill whose fixture is not synthetic runs no adapter: the returned bundle, the error and the
  -- outside are the same whatever the adapter's callable does and whatever its measurement gives.
  pub run_recovery_preflight-never_drills :
      (c : RecoveryContract) (a : Adapter E) (signer : Signer) (e : E)
      (other : RecoveryContract → E → Result RawTrace × E) (measurement : String)
      → is_synthetic c.fixture.fidelity ≡ false
      → run_recovery_preflight rt now c (record a { run = other; measured = measurement }) signer e
        ≡ run_recovery_preflight rt now c a signer e
  unfolding run_recovery_preflight
  run_recovery_preflight-never_drills c a signer e other measurement remote =
      rw (admit-altered c a signer other measurement remote)
        (admitted-altered (admit rt now c a signer) c a signer e other measurement remote)

  -- A bundle that is returned for such a fixture is qualified NOT_TESTABLE_LOCAL.
  pub run_recovery_preflight-remote :
      (c : RecoveryContract) (a : Adapter E) (signer : Signer) (e : E) (b : RecoveryBundle)
      (after : E)
      → is_synthetic c.fixture.fidelity ≡ false
      → run_recovery_preflight rt now c a signer e ≡ (ok b, after)
      → b.drill_attestation.core.qualification ≡ not_testable_local
  unfolding bundle_of attest build_attestation_core derive_qualification
  run_recovery_preflight-remote c a signer e b after remote h =
      let s = run_recovery_preflight-IsSealed rt now c a signer e b after h in
      subst (λ (x : RecoveryBundle). x.drill_attestation.core.qualification ≡ not_testable_local)
        s.made (rw remote (grade-remote s.trace.local_testable _ _ _ _))
