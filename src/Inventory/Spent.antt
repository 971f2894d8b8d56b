-- ===== src/Inventory/Spent.antt =====
-- A reservation under which `remediate` released an allocation.
use consequence_rail.Base.{
  ℕ, ◌≡◌, ◌≢◌, refl, subst, sym, ◌∙◌, Bool, true, false, String, Option, none, some, lookup,
  contains,
}
use consequence_rail.Canonical.{Runtime}
use consequence_rail.Signing.{Signer}
use consequence_rail.Errors.{Result, rail_error, err}
use consequence_rail.Rail.Records.{Proposal, Reservation, ConnectorResult, ResultStatus}
use consequence_rail.Rail.Interface.{Fault}
use consequence_rail.Connector.{
  Bindings, outcome, remember, status_of, held_active, remedy_lost_before, remedy_fails,
}
use consequence_rail.Connector.Idempotency.{remember-IsBound, status_of-bound, once-free}
use consequence_rail.Connector.Recourse.{consumed-ends}
use consequence_rail.Inventory.{
  Allocation, Stock, action_digest, undo, remedy_by, remedy_held, remediate, fits, remedy_if,
}

module _ {C : Type 0} (rt : Runtime) (signer : Signer) (now : C → ℕ × C) where
  abbrev Spends : String → String → Stock C → Type 0
  Spends token key t =
      (status_of key t.remedies).status ≡ ResultStatus.remediated
      → held_active (lookup token t.recourse) ≡ false

  otherwise :
      (status : ResultStatus) (p : Proposal) (key : String) (b : Bindings) {P : Type 0}
      → status ≢ ResultStatus.remediated
      → (status_of key
          (remember key (action_digest rt signer now p) (outcome status key none) b)).status
        ≡ ResultStatus.remediated
      → P
  otherwise status p key b other h =
      let x = outcome status key none in
      let d = action_digest rt signer now p in
      absurd (
        other (
          subst (λ (y : ConnectorResult). y.status ≡ ResultStatus.remediated)
            (status_of-bound key d x (remember key d x b) (remember-IsBound key d x b)) h))

  undo-Spends :
      (p : Proposal) (token key : String) (fault : Fault) (o : Option Allocation) (s : Stock C)
      → Spends token key (undo rt signer now p token key fault o s).1
  undo-Spends p token key fault none s = otherwise ResultStatus.failed p key s.remedies (λ e. cc)
  undo-Spends p token key fault (some a) s =
      λ h. consumed-ends token (lookup token s.recourse) s.recourse refl

  remedy_by-Spends :
      (b c : Bool) (p : Proposal) (token key : String) (fault : Fault) (s : Stock C)
      → Spends token key (remedy_by rt signer now b c p token key fault s).1
  remedy_by-Spends true c p token key fault s =
      otherwise ResultStatus.no_effect p key s.remedies (λ e. cc)
  remedy_by-Spends false true p token key fault s =
      otherwise ResultStatus.failed p key s.remedies (λ e. cc)
  remedy_by-Spends false false p token key fault s = undo-Spends p token key fault _ s

  remedy_held-Spends :
      (b : Bool) (p : Proposal) (token key : String) (fault : Fault) (s : Stock C)
      → held_active (lookup token s.recourse) ≡ b
      → Spends token key (remedy_held rt signer now b p token key fault s).1
  remedy_held-Spends true p token key fault s e =
      remedy_by-Spends (remedy_lost_before fault) (remedy_fails fault) p token key fault s
  remedy_held-Spends false p token key fault s e = λ h. e

  refused_if :
      (b : Bool) (p : Proposal) (token key : String) (fault : Fault) (s : Stock C)
      → held_active (lookup token s.recourse) ≡ false
      → remedy_if rt signer now b p token key fault s ≡ (err (rail_error "RECOURSE_NOT_ACTIVE"), s)
  refused_if true p token key fault s e = rw e refl
  refused_if false p token key fault s e = rw e refl

  -- Where a call of `remediate` under a free key, of a proposal within the limits of a digest, is
  -- reported as "remediated", whether it returned or its response was lost, a call made directly after
  -- it for the same reservation under another free key, for any proposal and with any fault, throws
  -- RECOURSE_NOT_ACTIVE and changes nothing.
  pub remediate-once :
      (p q : Proposal) (r : Reservation) (key other : String) (f g : Fault) (s : Stock C)
      → fits rt signer now p ≡ true
      → contains key s.remedies.digests ≡ false
      → (status_of key (remediate rt signer now p r key f s).1.remedies).status
        ≡ ResultStatus.remediated
      → contains other (remediate rt signer now p r key f s).1.remedies.digests ≡ false
      → remediate rt signer now q r other g (remediate rt signer now p r key f s).1
        ≡ (err (rail_error "RECOURSE_NOT_ACTIVE"), (remediate rt signer now p r key f s).1)
  unfolding remediate
  remediate-once p q r key other f g s sized free done free' =
      let token = r.connector_commitment.reservation_token in
      let t = (remediate rt signer now p r key f s).1 in
      once-free (λ (u : Stock C). u.remedies) other (action_digest rt signer now q)
        (fits rt signer now q) (remedy_if rt signer now (fits rt signer now q) q token other g) t
        free'
      ∙ refused_if (fits rt signer now q) q token other g t (
          subst (λ (y : Result ConnectorResult × Stock C). Spends token key y.1)
            (sym (
              once-free (λ (u : Stock C). u.remedies) key (action_digest rt signer now p)
                (fits rt signer now p)
                (remedy_if rt signer now (fits rt signer now p) p token key f) s free))
            (rw sized (remedy_held-Spends _ p token key f s refl)) done)
