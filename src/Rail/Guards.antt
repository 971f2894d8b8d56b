-- ===== src/Rail/Guards.antt =====
-- What a method has checked where it returns: the guards of `execute`.
use consequence_rail.Base.{
  ℕ, ◌<◌, ◌≡◌, refl, sym, ap, subst, ◌∙◌, Bool, true, false, String, Option, none, some, [], ◌∷◌,
  leb, ◌==◌, ==_iff, eq_iff, arith, if◌then◌else◌,
}
use consequence_rail.Canonical.{digest}
use consequence_rail.Errors.{Thrown, rail_error, Result, ok, err, ok_inj}
use consequence_rail.Signing.{verify_artifact}
use consequence_rail.State.{State, permitted, same}
use consequence_rail.State.Order.{same_sound}
use consequence_rail.Rail.Records.{Proposal, ActionRecord, Permitted, Reserved}
use consequence_rail.Rail.Interface.{Rail}
use consequence_rail.Rail.Encode.{proposal_json, permit_body}
use consequence_rail.Rail.Validate.{is_expired}
use consequence_rail.Rail.Preflight.{recheck_preflight}
use consequence_rail.Rail.Session.{
  Session, Method, pure, throw, lift, gets, call, require, go_on, ◌>>=◌,
}
use consequence_rail.Rail.Lifecycle.{
  assert_state, assert_not_expired, expire_and_throw, need_reserved, present,
}
use consequence_rail.Rail.Execution.{need_permitted, consume_permit, consume_from, check_candidate}

later : (t now : ℕ) → leb t now ≡ false → now < t
later t now h = ground arith

pub err≢ok : {A : Type 0} {e : Thrown} {a : A} → ¬ (err e ≡ ok a)
err≢ok h = cc

module _ {E A B : Type 0} where
  go_on-ok :
      (r : Result A) (f : A → Method E B) (s : Session E) (b : B) (t : Session E)
      → go_on r f s ≡ (ok b, t)
      → (a : A) × (r ≡ ok a) × (f a s ≡ (ok b, t))
  go_on-ok (ok a) f s b t h = (a, refl, h)
  go_on-ok (err e) f s b t h = cc

  -- A block that returned: its first call returned, and then the rest did.
  pub >>=-ok :
      (m : Method E A) (f : A → Method E B) (s : Session E) (b : B) (t : Session E)
      → (m >>= f) s ≡ (ok b, t)
      → (a : A) × (u : Session E) × (m s ≡ (ok a, u)) × (f a u ≡ (ok b, t))
  unfolding ◌>>=◌
  >>=-ok m f s b t h =
      let (r, u) = m s in
      let (a, e, rest) = go_on-ok r f u b t h in (a, u, ap (λ x. (x, u)) e, rest)

module _ {E : Type 0} where
  pub require-ok :
      (b : Bool) (code : String) (s u : Session E)
      → require b code s ≡ (ok tt, u)
      → (b ≡ true) × (s ≡ u)
  unfolding lift
  require-ok true code s u h = (refl, ap (λ x. x.1) h)
  require-ok false code s u h = cc

  pub present-ok :
      {A : Type 0} (o : Option A) (a : A) (s u : Session E)
      → lift (present o) s ≡ (ok a, u)
      → (o ≡ some a) × (s ≡ u)
  unfolding lift
  present-ok none a s u h = absurd (err≢ok (ap (λ x. x.0) h))
  present-ok (some b) a s u h = (ap some (ok_inj (ap (λ x. x.0) h)), ap (λ x. x.1) h)

  pub lift-ok : (r : Result (Unit {0})) (s u : Session E) → lift r s ≡ (ok tt, u) → r ≡ ok tt
  unfolding lift
  lift-ok r s u h = ap (λ x. x.0) h

module _ {E : Type 0} (rail : Rail E) where
  pub assert_state-ok :
      (x : State) (s u : Session E)
      → assert_state rail x s ≡ (ok tt, u)
      → (s.action.state ≡ x) × (s ≡ u)
  unfolding assert_state ◌>>=◌ gets
  assert_state-ok x s u h =
      let (e, k) = require-ok (same s.action.state x) "ILLEGAL_TRANSITION" s u h in
      (same_sound s.action.state x e, k)

  expire_and_throw-fails :
      (code : String) (s u : Session E) → ¬ (expire_and_throw rail code s ≡ (ok tt, u))
  unfolding expire_and_throw throw
  expire_and_throw-fails code s u h =
      let (_, _, _, rest) = >>=-ok _ _ s tt u h in
      let (_, v, _, thrown) = >>=-ok _ (λ done. throw (rail_error code)) _ tt u rest in
      err≢ok (ap (λ x. x.0) thrown)

  unexpired :
      (b : Bool) (code : String) (s u : Session E)
      → (if b then expire_and_throw rail code else pure tt) s ≡ (ok tt, u)
      → (b ≡ false) × (u ≡ s)
  unfolding pure
  unexpired true code s u h = absurd (expire_and_throw-fails code s u h)
  unexpired false code s u h = (refl, sym (ap (λ x. x.1) h))

  -- The call that found no expiry has read the clock, and nothing else.
  pub assert_not_expired-ok :
      (t : ℕ) (code : String) (s u : Session E)
      → assert_not_expired rail t code s ≡ (ok tt, u)
      → ((rail.now s.env).0 < t) × (u ≡ record s { env = (rail.now s.env).1 })
  unfolding assert_not_expired ◌>>=◌ call is_expired
  assert_not_expired-ok t code s u h =
      let (now, env) = rail.now s.env in
      let (open_, same_session) = unexpired (leb t now) code (record s { env = env }) u h in
      (later t now open_, same_session)

  pub need_permitted-ok :
      (s u : Session E) (p : Permitted)
      → need_permitted rail s ≡ (ok p, u)
      → (s.action.permitted ≡ some p) × (s ≡ u)
  unfolding need_permitted ◌>>=◌ gets lift
  need_permitted-ok s u p h = present-ok s.action.permitted p s u h

  pub need_reserved-ok :
      (s u : Session E) (v : Reserved)
      → need_reserved rail s ≡ (ok v, u)
      → (s.action.reserved ≡ some v) × (s ≡ u)
  unfolding need_reserved ◌>>=◌ gets lift
  need_reserved-ok s u v h = present-ok s.action.reserved v s u h

  -- What `execute` has checked of an action and its candidate when it consumes the permit.
  pub record IsCleared (c : Proposal) (s : Session E) : Type 0 where
    pub permitted_state : s.action.state ≡ permitted
    pub unused : s.action.permit_uses ≡ 0
    pub bound : digest rail.runtime (proposal_json rail.runtime c) ≡ s.action.action_digest
    pub permit : Permitted
    pub issued : s.action.permitted ≡ some permit
    pub current : (rail.now s.env).0 < permit.permit.expires_at
    pub signed :
        verify_artifact rail.runtime
          (permit_body rail.runtime permit.permit)
          permit.permit.signature
          ((rail.signer.kid, rail.signer.public_key) ∷ [])
        ≡ ok tt
    pub reserved : Reserved
    pub secured : s.action.reserved ≡ some reserved
    pub covered : (rail.now (rail.now s.env).1).0 < reserved.reservation.expires_at

  pub started :
      (c : Proposal) (s t : Session E)
      → consume_permit rail c s ≡ (ok tt, t)
      → consume_from rail c s.action s ≡ (ok tt, t)
  unfolding consume_permit ◌>>=◌ gets
  started c s t h = h

  check_candidate-ok :
      (c : Proposal) (r : ActionRecord) (p : Permitted) (s t : Session E)
      → check_candidate rail c r p s ≡ (ok tt, t)
      → (verify_artifact rail.runtime
            (permit_body rail.runtime p.permit)
            p.permit.signature
            ((rail.signer.kid, rail.signer.public_key) ∷ [])
          ≡ ok tt)
        × (digest rail.runtime (proposal_json rail.runtime c) ≡ r.action_digest)
  unfolding check_candidate
  check_candidate-ok c r p s t h =
      let (_, u1, m1, h1) = >>=-ok (lift _) _ s tt t h in
      let (_, u2, m2, h2) =
        >>=-ok (recheck_preflight rail true r.recovery_preflight) _ u1 tt t h1 in
      let (e, _) = require-ok _ "DIGEST_MISMATCH" u2 t h2 in
      (lift-ok _ s u1 m1, (eq_iff _ r.action_digest).0 e)

  -- The checks were made on sessions that differ from the first one in the clock only.
  assemble :
      (c : Proposal) (s u1 u2 u3 u4 u5 : Session E) (p : Permitted) (v : Reserved)
      → s ≡ u1
      → u1 ≡ u2
      → u2 ≡ u3
      → u4 ≡ record u3 { env = (rail.now u3.env).1 }
      → u4 ≡ u5
      → s.action.permit_uses ≡ 0
      → u1.action.state ≡ permitted
      → digest rail.runtime (proposal_json rail.runtime c) ≡ s.action.action_digest
      → u2.action.permitted ≡ some p
      → (rail.now u3.env).0 < p.permit.expires_at
      → verify_artifact rail.runtime
          (permit_body rail.runtime p.permit)
          p.permit.signature
          ((rail.signer.kid, rail.signer.public_key) ∷ [])
        ≡ ok tt
      → u4.action.reserved ≡ some v
      → (rail.now u5.env).0 < v.reservation.expires_at
      → IsCleared c s
  assemble c s u1 u2 u3 u4 u5 p v e1 e2 e3 e4 e5 unused in_state bound issued current signed secured
        covered =
      let e13 = e1 ∙ e2 ∙ e3 in
      let clock : u5.env ≡ (rail.now s.env).1 =
        ap (λ (x : Session E). x.env) (sym e5 ∙ e4)
        ∙ ap (λ (x : Session E). (rail.now x.env).1) (sym e13) in
      record {
        permitted_state = ap (λ (x : Session E). x.action.state) e1 ∙ in_state;
        unused = unused;
        bound = bound;
        permit = p;
        issued = ap (λ (x : Session E). x.action.permitted) (e1 ∙ e2) ∙ issued;
        current =
            subst (λ (x : Session E). (rail.now x.env).0 < p.permit.expires_at) (sym e13) current;
        signed = signed;
        reserved = v;
        secured =
            ap (λ (x : Session E). x.action.reserved) e13
            ∙ ap (λ (x : Session E). x.action.reserved) (sym e4)
            ∙ secured;
        covered = subst (λ x. (rail.now x).0 < v.reservation.expires_at) clock covered;
      }

  -- Where the permit is consumed, the action is in `PERMITTED` and its permit has never been used, the
  -- candidate's digest is the authorized one, the permit is present, unexpired and signed by the rail,
  -- and the reserved recourse is present and unexpired.
  pub consume_permit-IsCleared :
      (c : Proposal) (s t : Session E) → consume_permit rail c s ≡ (ok tt, t) → IsCleared c s
  unfolding consume_from
  consume_permit-IsCleared c s t h =
      let r = s.action in
      let (_, u1, m1, h1) =
        >>=-ok (require (r.permit_uses == 0) "PERMIT_USED") _ s tt t (started c s t h) in
      let (unused, e1) = require-ok (r.permit_uses == 0) "PERMIT_USED" s u1 m1 in
      let (_, u2, m2, h2) = >>=-ok (assert_state rail permitted) _ u1 tt t h1 in
      let (in_state, e2) = assert_state-ok permitted u1 u2 m2 in
      let (permit, u3, m3, h3) = >>=-ok (need_permitted rail) _ u2 tt t h2 in
      let (issued, e3) = need_permitted-ok u2 u3 permit m3 in
      let (_, u4, m4, h4) =
        >>=-ok (assert_not_expired rail permit.permit.expires_at "PERMIT_EXPIRED") _ u3 tt t h3 in
      let (current, e4) =
        assert_not_expired-ok permit.permit.expires_at "PERMIT_EXPIRED" u3 u4 m4 in
      let (reserved, u5, m5, h5) = >>=-ok (need_reserved rail) _ u4 tt t h4 in
      let (secured, e5) = need_reserved-ok u4 u5 reserved m5 in
      let (_, u6, m6, h6) =
        >>=-ok (assert_not_expired rail reserved.reservation.expires_at "RECOURSE_EXPIRED") _ u5 tt
          t h5 in
      let (covered, e6) =
        assert_not_expired-ok reserved.reservation.expires_at "RECOURSE_EXPIRED" u5 u6 m6 in
      let (_, u7, m7, h7) = >>=-ok (check_candidate rail c r permit) _ u6 tt t h6 in
      let (signed, bound) = check_candidate-ok c r permit u6 u7 m7 in
      assemble c s u1 u2 u3 u4 u5 permit reserved e1 e2 e3 e4 e5 ((==_iff r.permit_uses 0).0 unused)
        in_state bound issued current signed secured covered
