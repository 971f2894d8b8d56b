-- ===== src/Recovery/Drill/Outcomes.antt =====
-- What `runRecoveryPreflight` returns, and that it drills synthetic fixtures only.
use consequence_rail.Base.{
  ℕ, ◌≤◌, ◌<◌, ◌≡◌, refl, sym, ap, subst, arith, Bool, true, false, not, ◌&&◌, ◌||◌, &&-true,
  String, str_eq, Option, none, some, leb, ltb, if◌then◌else◌,
}
use consequence_rail.Canonical.{Runtime}
use consequence_rail.Signing.{Signer, Keys}
use consequence_rail.Signing.RoundTrip.{IsTrusted}
use consequence_rail.Errors.{Result, ok, err, assert, ◌>>◌, >>-eq-ok, assert-ok, ok_inj}
use consequence_rail.Rail.Guards.{err≢ok}
use consequence_rail.Rail.Records.{RecoveryContract, Trace, RecoveryBundle, AttestationCore}
use consequence_rail.Rail.Validate.{non_empty}
use consequence_rail.Recovery.Contract.{is_valid, validate_recovery_contract}
use consequence_rail.Recovery.Grade.{is_synthetic}
use consequence_rail.Recovery.Attest.{in_window, bundle_of, attest}
use consequence_rail.Recovery.Verify.{
  is_adapter_of, check_current, verification_of, is_limited, verify_recovery_preflight,
}
use consequence_rail.Recovery.Verify.RoundTrip.{IsDrilled, verify-bundle_of}
use consequence_rail.Recovery.Drill.{
  Adapter, RawTrace, matches, admit, measured_digest, registered_measurement, or_empty, is_measured,
  normalize_trace, normalize_by, with_identity, sealed, graded, timed, admitted,
  run_recovery_preflight,
}

both : (a b : Bool) → a ≡ true → b ≡ true → (a && b) ≡ true
both true b h k = k
both false b h k = cc

module _ {E : Type 0} (rt : Runtime) (now : E → ℕ × E) where
  -- A bundle that a drill of the contract sealed.
  pub record IsSealed (c : RecoveryContract) (signer : Signer) (b : RecoveryBundle) : Type 0 where
    pub trace : Trace
    pub time : ℕ
    pub drilled : IsDrilled rt c trace time signer
    pub made : bundle_of rt c trace time signer ≡ b

  -- The checks before the drill.
  record IsAdmitted (c : RecoveryContract) (a : Adapter E) (signer : Signer) : Type 0 where
    valid : is_valid c ≡ true
    named : non_empty signer.kid ≡ true
    matched : matches rt now c a ≡ true

  admit-IsAdmitted :
      (c : RecoveryContract) (a : Adapter E) (signer : Signer)
      → admit rt now c a signer ≡ ok tt
      → IsAdmitted c a signer
  unfolding validate_recovery_contract
  admit-IsAdmitted c a signer h =
      let contract = assert (is_valid c) "RECOVERY_CONTRACT_INVALID" in
      let name = assert (non_empty signer.kid) "RECOVERY_CONFIG_INVALID" in
      let adapter = assert (matches rt now c a) "RECOVERY_ADAPTER_MISMATCH" in
      let (before, matched) = >>-eq-ok (contract >> name) adapter h in
      let (valid, named) = >>-eq-ok contract name before in
      record {
        valid = assert-ok _ "RECOVERY_CONTRACT_INVALID" valid;
        named = assert-ok _ "RECOVERY_CONFIG_INVALID" named;
        matched = assert-ok _ "RECOVERY_ADAPTER_MISMATCH" matched;
      }

  measured_is :
      (d : String) (o : Option String)
      → is_measured rt now d o ≡ true
      → str_eq (or_empty o) d ≡ true
  measured_is d none h = cc
  measured_is d (some e) h = h

  -- An admitted adapter's measured digest is the contract's.
  implementation-matches :
      (c : RecoveryContract) (a : Adapter E)
      → matches rt now c a ≡ true
      → str_eq (or_empty (measured_digest rt now c a)) c.fixture.adapter_implementation_digest
        ≡ true
  implementation-matches c a h =
      let (declared_fits, measured_fits) = &&-true _ _ h in
      let (_, declared) = &&-true _ _ declared_fits in
      by_fidelity (is_synthetic c.fixture.fidelity) declared measured_fits
    where
      by_fidelity :
          (b : Bool)
          → str_eq a.implementation_digest c.fixture.adapter_implementation_digest ≡ true
          → (not b
              || is_measured rt now c.fixture.adapter_implementation_digest
                  (if b then registered_measurement rt now a else some a.implementation_digest))
            ≡ true
          → str_eq
              (or_empty
                (if b then registered_measurement rt now a else some a.implementation_digest))
              c.fixture.adapter_implementation_digest
            ≡ true
      by_fidelity true declared measured =
          measured_is c.fixture.adapter_implementation_digest (registered_measurement rt now a)
            measured
      by_fidelity false declared measured = declared

  normalized :
      (x : Bool) (c : RecoveryContract) (a : Adapter E) (d : String) (r : RawTrace) (t : Trace)
      → normalize_by rt now x a d r ≡ ok t
      → with_identity rt now a d r ≡ t
  normalized true c a d r t h = ok_inj h
  normalized false c a d r t h = absurd (err≢ok h)

  sealed-IsSealed :
      (c : RecoveryContract) (a : Adapter E) (signer : Signer) (time : ℕ) (r : RawTrace)
      (o : Result Trace) (b : RecoveryBundle)
      → IsAdmitted c a signer
      → in_window c time ≡ true
      → normalize_trace rt now a (or_empty (measured_digest rt now c a)) r ≡ o
      → sealed rt now c signer time o ≡ ok b
      → IsSealed c signer b
  unfolding normalize_trace
  sealed-IsSealed c a signer time r (err e) b k w n h = absurd (err≢ok h)
  sealed-IsSealed c a signer time r (ok t) b k w n h =
      let (declared_fits, _) = &&-true _ _ k.matched in
      let (identity, _) = &&-true _ _ declared_fits in
      record {
        trace = t;
        time = time;
        drilled = record {
          valid = k.valid;
          window = w;
          adapter =
              subst (λ u. is_adapter_of c u ≡ true)
                (normalized _ c a (or_empty (measured_digest rt now c a)) r t n)
                (both _ _ identity (implementation-matches c a k.matched));
          named = k.named;
        };
        made = ok_inj h;
      }

  graded-IsSealed :
      (c : RecoveryContract) (a : Adapter E) (signer : Signer) (time : ℕ)
      (drill : Result RawTrace × E) (b : RecoveryBundle) (after : E)
      → IsAdmitted c a signer
      → in_window c time ≡ true
      → graded rt now c a signer time drill ≡ (ok b, after)
      → IsSealed c signer b
  graded-IsSealed c a signer time (err e, s) b after k w h = absurd (err≢ok (ap (λ y. y.0) h))
  graded-IsSealed c a signer time (ok r, s) b after k w h =
      sealed-IsSealed c a signer time r _ b k w refl (ap (λ y. y.0) h)

  timed-IsSealed :
      (x : Bool) (c : RecoveryContract) (a : Adapter E) (signer : Signer) (time : ℕ) (e : E)
      (b : RecoveryBundle) (after : E)
      → IsAdmitted c a signer
      → in_window c time ≡ x
      → timed rt now x c a signer time e ≡ (ok b, after)
      → IsSealed c signer b
  timed-IsSealed true c a signer time e b after k w h =
      graded-IsSealed c a signer time _ b after k w h
  timed-IsSealed false c a signer time e b after k w h = absurd (err≢ok (ap (λ y. y.0) h))

  admitted-IsSealed :
      (m : Result (Unit {0})) (c : RecoveryContract) (a : Adapter E) (signer : Signer) (e : E)
      (b : RecoveryBundle) (after : E)
      → admit rt now c a signer ≡ m
      → admitted rt now m c a signer e ≡ (ok b, after)
      → IsSealed c signer b
  admitted-IsSealed (err x) c a signer e b after k h = absurd (err≢ok (ap (λ y. y.0) h))
  admitted-IsSealed (ok done) c a signer e b after k h =
      timed-IsSealed _ c a signer _ _ b after (admit-IsAdmitted c a signer k) refl h

  pub run_recovery_preflight-IsSealed :
      (c : RecoveryContract) (a : Adapter E) (signer : Signer) (e : E) (b : RecoveryBundle)
      (after : E)
      → run_recovery_preflight rt now c a signer e ≡ (ok b, after)
      → IsSealed c signer b
  unfolding run_recovery_preflight
  run_recovery_preflight-IsSealed c a signer e b after h =
      admitted-IsSealed _ c a signer e b after refl h

  current :
      (core : AttestationCore) (at : ℕ)
      → core.drilled_at ≤ at
      → at < core.expires_at
      → check_current (some at) core ≡ ok tt
  current core at begun unexpired =
      rw (lemma_le core.drilled_at at begun, lemma_lt at core.expires_at unexpired) refl
    where
      lemma_le : (m n : ℕ) → m ≤ n → leb m n ≡ true
      lemma_le m n h = ground arith

      lemma_lt : (m n : ℕ) → m < n → ltb m n ≡ true
      lemma_lt m n h = ground arith

  verify-sealed :
      (c : RecoveryContract) (signer : Signer) (b : RecoveryBundle) (keys : Keys) (at : ℕ)
      → IsSealed c signer b
      → IsTrusted rt signer keys
      → non_empty signer.public_key_pem ≡ true
      → is_limited rt b ≡ true
      → check_current (some at) b.drill_attestation.core ≡ ok tt
      → verify_recovery_preflight rt keys b (some at)
        ≡ ok (verification_of rt true b.drill_attestation)
  unfolding bundle_of attest
  verify-sealed c signer b keys at s trust pem limited h =
      subst
        (λ (x : RecoveryBundle).
          verify_recovery_preflight rt keys x (some at)
          ≡ ok (verification_of rt true x.drill_attestation))
        s.made
        (verify-bundle_of rt trust pem c s.trace s.time (some at) s.drilled
          (subst (λ (x : RecoveryBundle). is_limited rt x ≡ true) (sym s.made) limited)
          (subst (λ (x : RecoveryBundle). check_current (some at) x.drill_attestation.core ≡ ok tt)
            (sym s.made) h))

  -- A bundle that `runRecoveryPreflight` returned is accepted by `verifyRecoveryPreflight` at every time
  -- from the drill to the attestation's expiry, where the verifier's keys have the signer's, the
  -- signer's PEM text is not empty and the bundle is within the limits of `deepClone`; the verification reports what the attestation has.
  pub verify_recovery_preflight-run :
      (c : RecoveryContract) (a : Adapter E) (signer : Signer) (e : E) (b : RecoveryBundle)
      (after : E) (keys : Keys) (at : ℕ)
      → run_recovery_preflight rt now c a signer e ≡ (ok b, after)
      → IsTrusted rt signer keys
      → non_empty signer.public_key_pem ≡ true
      → is_limited rt b ≡ true
      → b.drill_attestation.core.drilled_at ≤ at
      → at < b.drill_attestation.core.expires_at
      → verify_recovery_preflight rt keys b (some at)
        ≡ ok (verification_of rt true b.drill_attestation)
  verify_recovery_preflight-run c a signer e b after keys at h trust pem limited begun unexpired =
      let s = run_recovery_preflight-IsSealed c a signer e b after h in
      verify-sealed c signer b keys at s trust pem limited
        (current b.drill_attestation.core at begun unexpired)
