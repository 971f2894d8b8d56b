-- ===== src/Recovery/Qualified.antt =====
-- The orchestrator with this verifier: what it has checked of an accepted drill when it consumes the
-- permit (`assertAcceptedRecoveryPreflight` in src/rail-class.js).
use consequence_rail.Base.{
  ℕ, ◌≡◌, ◌∙◌, sym, ap, subst, true, ◌&&◌, &&-true, str_eq, eq_iff, Option, some, ◌==◌,
}
use consequence_rail.Errors.{Result, ok, ok_inj}
use consequence_rail.Signing.{Keys}
use consequence_rail.State.{permitted}
use consequence_rail.Rail.Records.{
  Proposal, ActionRecord, Permitted, RecoveryBundle, RecoveryVerification,
}
use consequence_rail.Rail.Interface.{Rail}
use consequence_rail.Rail.Session.{Session, lift, require, ◌>>=◌}
use consequence_rail.Rail.Lifecycle.{assert_state, assert_not_expired, need_reserved}
use consequence_rail.Rail.Preflight.{current_time, check_accepted_preflight, recheck_preflight}
use consequence_rail.Rail.Execution.{consume_permit, consume_from, check_candidate, need_permitted}
use consequence_rail.Rail.Guards.{
  >>=-ok, require-ok, assert_state-ok, need_permitted-ok, need_reserved-ok, assert_not_expired-ok,
  started,
}
use consequence_rail.Recovery.Grade.Exact.{IsExactDrill}
use consequence_rail.Recovery.Verify.{verify_recovery_preflight}
use consequence_rail.Recovery.Verify.Accepted.{verify_recovery_preflight-IsExactDrill}
use consequence_rail.Recovery.Verify.Window.{IsCurrent, verify_recovery_preflight-IsCurrent}

module _ {E : Type 0} (rail : Rail E) where
  value-ok : {A : Type 0} (r : Result A) (a : A) (s u : Session E) → lift r s ≡ (ok a, u) → r ≡ ok a
  unfolding lift
  value-ok r a s u h = ap (λ x. x.0) h

  current_time-ok :
      (o : Option ℕ) (s u : Session E)
      → current_time rail true s ≡ (ok o, u)
      → o ≡ some (rail.now s.env).0
  unfolding current_time ◌>>=◌
  current_time-ok o s u h = sym (ok_inj (ap (λ x. x.0) h))

  lift-session :
      {A : Type 0} (r : Result A) (a : A) (s u : Session E) → lift r s ≡ (ok a, u) → s ≡ u
  unfolding lift
  lift-session r a s u h = ap (λ x. x.1) h

  -- The clock after the two expiries are tested.
  abbrev clock_after : Session E → E
  clock_after s = (rail.now (rail.now s.env).1).1

  -- The third reading of the clock.
  abbrev pub third_reading : Session E → ℕ
  third_reading s = (rail.now (clock_after s)).0

  clock-after :
      (s u1 u2 u3 u4 u5 u6 : Session E)
      → s ≡ u1
      → u1 ≡ u2
      → u2 ≡ u3
      → u4 ≡ record u3 { env = (rail.now u3.env).1 }
      → u4 ≡ u5
      → u6 ≡ record u5 { env = (rail.now u5.env).1 }
      → u6.env ≡ clock_after s
  clock-after s u1 u2 u3 u4 u5 u6 e1 e2 e3 e4 e5 e6 =
      ap (λ (x : Session E). x.env) e6
      ∙ ap (λ (x : Session E). (rail.now x.env).1) (sym e5 ∙ e4)
      ∙ ap (λ (x : Session E). (rail.now (rail.now x.env).1).1) (sym (e1 ∙ e2 ∙ e3))

  -- The call reached the checks of the candidate.
  reached :
      (c : Proposal) (s t : Session E)
      → consume_from rail c s.action s ≡ (ok tt, t)
      → (p : Permitted) × (u v : Session E) × (u.env ≡ clock_after s)
        × (check_candidate rail c s.action p u ≡ (ok tt, v))
  unfolding consume_from
  reached c s t h =
      let r = s.action in
      let (_, u1, m1, h1) = >>=-ok (require (r.permit_uses == 0) "PERMIT_USED") _ s tt t h in
      let (_, u2, m2, h2) = >>=-ok (assert_state rail permitted) _ u1 tt t h1 in
      let (permit, u3, m3, h3) = >>=-ok (need_permitted rail) _ u2 tt t h2 in
      let (_, u4, m4, h4) =
        >>=-ok (assert_not_expired rail permit.permit.expires_at "PERMIT_EXPIRED") _ u3 tt t h3 in
      let (reserved, u5, m5, h5) = >>=-ok (need_reserved rail) _ u4 tt t h4 in
      let (_, u6, m6, h6) =
        >>=-ok (assert_not_expired rail reserved.reservation.expires_at "RECOURSE_EXPIRED") _ u5 tt
          t h5 in
      let (_, u7, m7, _) = >>=-ok (check_candidate rail c r permit) _ u6 tt t h6 in
      (
        permit,
        u6,
        u7,
        clock-after s u1 u2 u3 u4 u5 u6 (require-ok (r.permit_uses == 0) "PERMIT_USED" s u1 m1).1
            (assert_state-ok rail permitted u1 u2 m2).1 (need_permitted-ok rail u2 u3 permit m3).1
            (assert_not_expired-ok rail permit.permit.expires_at "PERMIT_EXPIRED" u3 u4 m4).1
            (need_reserved-ok rail u4 u5 reserved m5).1
            (assert_not_expired-ok rail reserved.reservation.expires_at "RECOURSE_EXPIRED" u5 u6
              m6).1,
        m7,
      )

  rechecked :
      (c : Proposal) (r : ActionRecord) (p : Permitted) (s t : Session E)
      → check_candidate rail c r p s ≡ (ok tt, t)
      → (u v : Session E) × (u.env ≡ s.env)
        × (recheck_preflight rail true r.recovery_preflight u ≡ (ok tt, v))
  unfolding check_candidate
  rechecked c r p s t h =
      let (done, u1, m1, h1) = >>=-ok (lift _) _ s tt t h in
      let (_, u2, m2, _) = >>=-ok (recheck_preflight rail true r.recovery_preflight) _ u1 tt t h1 in
      (u1, u2, sym (ap (λ (x : Session E). x.env) (lift-session _ done s u1 m1)), m2)

  -- The verifier was asked at a reading of the clock, and its answer is exact.
  verified :
      (b : RecoveryBundle) (accepted : RecoveryVerification) (s t : Session E)
      → recheck_preflight rail true (some (b, accepted)) s ≡ (ok tt, t)
      → (v : RecoveryVerification) × (rail.verify_recovery_preflight b (some (rail.now s.env).0)
          ≡ ok v)
        × (v.qualification ≡ "QUALIFIED_EXACT")
        × (v.attestation_digest ≡ accepted.attestation_digest)
  unfolding recheck_preflight check_accepted_preflight
  verified b accepted s t h =
      let (o, u1, m1, h1) = >>=-ok (current_time rail true) _ s tt t h in
      let (v, u2, m2, h2) = >>=-ok (lift (rail.verify_recovery_preflight b o)) _ u1 tt t h1 in
      let exact =
        str_eq v.qualification "QUALIFIED_EXACT"
        && str_eq v.attestation_digest accepted.attestation_digest in
      let (_, u3, m3, _) = >>=-ok (require exact "RECOVERY_PREFLIGHT_NOT_QUALIFIED") _ u2 tt t h2 in
      let (is_exact, same) =
        &&-true _ _ (require-ok exact "RECOVERY_PREFLIGHT_NOT_QUALIFIED" u2 u3 m3).0 in
      (
        v,
        subst (λ x. rail.verify_recovery_preflight b x ≡ ok v) (current_time-ok o s u1 m1)
            (value-ok (rail.verify_recovery_preflight b o) v u1 u2 m2),
        (eq_iff v.qualification "QUALIFIED_EXACT").0 is_exact,
        (eq_iff v.attestation_digest accepted.attestation_digest).0 same,
      )

  -- The drill is exact, and the verifier's answer at this time is current and has the attestation that
  -- was accepted.
  pub record IsCovered (keys : Keys) (at : ℕ) (b : RecoveryBundle) (accepted : RecoveryVerification)
      : Type 0 where
    pub drill : IsExactDrill rail.runtime b.recovery_contract b.trace
    pub verification : RecoveryVerification
    pub answered : verify_recovery_preflight rail.runtime keys b (some at) ≡ ok verification
    pub current : IsCurrent rail.runtime keys b at verification
    pub attested : verification.attestation_digest ≡ accepted.attestation_digest

  -- Where the orchestrator verifies drills by verifyRecoveryPreflight and an action has an accepted
  -- drill, a permit is consumed only if the drill is exact and, at the third reading of the clock, the
  -- verifier accepts it as current with the attestation digest that was accepted.
  pub consume_permit-IsCovered :
      (keys : Keys) (c : Proposal) (b : RecoveryBundle) (accepted : RecoveryVerification)
      (s t : Session E)
      → ((d : RecoveryBundle) (o : Option ℕ)
          → rail.verify_recovery_preflight d o ≡ verify_recovery_preflight rail.runtime keys d o)
      → s.action.recovery_preflight ≡ some (b, accepted)
      → consume_permit rail c s ≡ (ok tt, t)
      → IsCovered keys (third_reading s) b accepted
  consume_permit-IsCovered keys c b accepted s t same_verifier has_drill h =
      let (p, u, v, clock, checked) = reached c s t (started rail c s t h) in
      let (w, x, kept, again) = rechecked c s.action p u v checked in
      let (found, verifies, exact, attested) =
        verified b accepted w x
          (subst (λ o. recheck_preflight rail true o w ≡ (ok tt, x)) has_drill again) in
      let at = third_reading s in
      let answered : verify_recovery_preflight rail.runtime keys b (some at) ≡ ok found =
        sym (same_verifier b (some at))
        ∙ subst (λ e. rail.verify_recovery_preflight b (some (rail.now e).0) ≡ ok found)
            (kept ∙ clock) verifies in
      record {
        drill =
            verify_recovery_preflight-IsExactDrill rail.runtime keys b (some at) found answered
              exact;
        verification = found;
        answered = answered;
        current = verify_recovery_preflight-IsCurrent rail.runtime keys b at found answered;
        attested = attested;
      }
