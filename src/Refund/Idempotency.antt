-- ===== src/Refund/Idempotency.antt =====
-- `execute` and `remediate` under one idempotency key.
use consequence_rail.Base.{
  ℕ, ◌≡◌, refl, subst, sym, Bool, true, false, String, Option, none, some, if◌then◌else◌,
}
use consequence_rail.Canonical.{Runtime}
use consequence_rail.Signing.{Signer}
use consequence_rail.Errors.{Result, ok, err, rail_error, foreign}
use consequence_rail.Rail.Records.{Proposal, Parameters, Reservation, ConnectorResult, ResultStatus}
use consequence_rail.Rail.Interface.{Fault}
use consequence_rail.Connector.{
  Bindings, outcome, is_lost_before, is_lost_after, is_doubling, remedy_lost_before,
  remedy_lost_after, remedy_fails,
}
use consequence_rail.Connector.Idempotency.{
  IsBound, remember-IsBound, Binds, Settles, Binds-Settles, once-IsBound, once-bound,
}
use consequence_rail.Refund.{
  Refund, Ledger, action_digest, remember_execution, create_refund, issue, respond, settle_refund,
  execute_new, execute_refund, void, void_duplicate, remedy_by, remedy_held, remediate, fits,
  unsettled, execute_undigested, execute_by, undigested_remedy, remedy_if,
}

module _ {C : Type 0} (rt : Runtime) (signer : Signer) (now : C → ℕ × C) where
  issue-executions :
      (p : Proposal) (b : Bool) (n : ℕ) (c r : String) (s : Ledger C)
      → (issue rt signer now p b n c r s).1.executions ≡ s.executions
  issue-executions p true n c r s = refl
  issue-executions p false n c r s = refl

  pub create_refund-executions :
      (p : Proposal) (q : Parameters) (r : String) (s : Ledger C)
      → (create_refund rt signer now p q r s).1.executions ≡ s.executions
  unfolding create_refund
  create_refund-executions p (Parameters.refund_parameters n c) r s = issue-executions p _ n c r s
  create_refund-executions p (Parameters.email_parameters a b) r s = refl
  create_refund-executions p (Parameters.allocation_parameters a b) r s = refl

  abbrev executions_of : Ledger C → Bindings
  executions_of t = t.executions

  abbrev remedies_of : Ledger C → Bindings
  remedies_of t = t.remedies

  abbrev IsKnown : Proposal → String → ConnectorResult → Bindings → Type 0
  IsKnown p key x b = IsBound key (action_digest rt signer now p) x b

  respond-Binds :
      (b : Bool) (f : Ledger C → Bindings) (key d : String) (x : ConnectorResult) (s : Ledger C)
      → IsBound key d x (f s)
      → Binds f key d (respond rt signer now b x, s)
  respond-Binds true f key d x s h = tt
  respond-Binds false f key d x s h = h

  pub doubled-IsKnown :
      (b : Bool) (p : Proposal) (key r : String) (x : ConnectorResult) (s : Ledger C)
      → IsKnown p key x s.executions
      → IsKnown p key x
          (if b then (create_refund rt signer now p p.parameters r s).1 else s).executions
  doubled-IsKnown true p key r x s h =
      subst (IsKnown p key x) (sym (create_refund-executions p p.parameters r s)) h
  doubled-IsKnown false p key r x s h = h

  settle_refund-Binds :
      (p : Proposal) (key : String) (fault : Fault) (created : Result Refund × Ledger C)
      → Binds executions_of key
          (action_digest rt signer now p)
          (settle_refund rt signer now p key fault created)
  unfolding settle_refund
  settle_refund-Binds p key fault (err e, s) = tt
  settle_refund-Binds p key fault (ok r, s) =
      let x = outcome ResultStatus.executed key (some r.refund_id) in
      respond-Binds (is_lost_after fault) executions_of key (action_digest rt signer now p) x _ (
        doubled-IsKnown (is_doubling fault) p key _ x (remember_execution rt signer now key p x s)
          (remember-IsBound key (action_digest rt signer now p) x s.executions))

  execute_new-Binds :
      (p : Proposal) (key : String) (fault : Fault) (b : Bool) (s : Ledger C)
      → Binds executions_of key
          (action_digest rt signer now p)
          (execute_new rt signer now p key fault b s)
  execute_new-Binds p key fault true s = tt
  execute_new-Binds p key fault false s = settle_refund-Binds p key fault _

  unsettled-Settles :
      (b : Bool) (p : Proposal) (key : String) (created : Result Refund × Ledger C)
      → Settles executions_of key
          (action_digest rt signer now p)
          b
          (unsettled rt signer now created)
  unsettled-Settles b p key (err e, s) = tt
  unsettled-Settles b p key (ok a, s) = tt

  execute_undigested-Settles :
      (b lost : Bool) (p : Proposal) (key : String) (s : Ledger C)
      → Settles executions_of key
          (action_digest rt signer now p)
          b
          (execute_undigested rt signer now p key lost s)
  execute_undigested-Settles b true p key s = tt
  execute_undigested-Settles b false p key s = unsettled-Settles b p key _

  execute_by-Settles :
      (b : Bool) (p : Proposal) (key : String) (fault : Fault) (s : Ledger C)
      → Settles executions_of key
          (action_digest rt signer now p)
          b
          (execute_by rt signer now b p key fault s)
  execute_by-Settles true p key fault s =
      Binds-Settles executions_of key (action_digest rt signer now p) true _ refl
        (execute_new-Binds p key fault (is_lost_before fault) s)
  execute_by-Settles false p key fault s =
      execute_undigested-Settles false (is_lost_before fault) p key s

  -- Where a call of `execute` returned, the same call again, under any fault, returns the same result
  -- and leaves the ledger as it is: no second refund.
  pub execute_refund-again :
      (p : Proposal) (key : String) (f g : Fault) (x : ConnectorResult) (s t : Ledger C)
      → execute_refund rt signer now p key f s ≡ (ok x, t)
      → execute_refund rt signer now p key g t ≡ (ok x, t)
  unfolding execute_refund
  execute_refund-again p key f g x s t h =
      let d = action_digest rt signer now p in
      let b = fits rt signer now p in
      let (sized, bound) =
        once-IsBound executions_of key d b (execute_by rt signer now b p key f) x s t
          (execute_by-Settles b p key f s) h in
      once-bound executions_of key d b (execute_by rt signer now b p key g) x t sized bound

  void-Binds :
      (b : Bool) (p : Proposal) (token key : String) (fault : Fault) (o : Option Refund)
      (s : Ledger C)
      → Binds remedies_of key
          (action_digest rt signer now p)
          (void rt signer now b p token key fault o s)
  void-Binds true p token key fault none s = remember-IsBound key _ _ s.remedies
  void-Binds false p token key fault none s = remember-IsBound key _ _ s.remedies
  void-Binds false p token key fault (some r) s = remember-IsBound key _ _ s.remedies
  void-Binds true p token key fault (some r) s =
      respond-Binds (remedy_lost_after fault) remedies_of key _ _ _
        (remember-IsBound key _ _ s.remedies)

  void_duplicate-Binds :
      (b : Bool) (p : Proposal) (token key : String) (fault : Fault) (s : Ledger C)
      → Binds remedies_of key
          (action_digest rt signer now p)
          (void_duplicate rt signer now b p token key fault s)
  void_duplicate-Binds true p token key fault s = void-Binds _ p token key fault _ s
  void_duplicate-Binds false p token key fault s = tt

  remedy_by-Binds :
      (b c : Bool) (p : Proposal) (r : Reservation) (key : String) (fault : Fault) (s : Ledger C)
      → Binds remedies_of key
          (action_digest rt signer now p)
          (remedy_by rt signer now b c p r key fault s)
  remedy_by-Binds true c p r key fault s = tt
  remedy_by-Binds false true p r key fault s = remember-IsBound key _ _ s.remedies
  remedy_by-Binds false false p r key fault s = void_duplicate-Binds _ p _ key fault s

  remedy_held-Binds :
      (b : Bool) (p : Proposal) (r : Reservation) (key : String) (fault : Fault) (s : Ledger C)
      → Binds remedies_of key
          (action_digest rt signer now p)
          (remedy_held rt signer now b p r key fault s)
  remedy_held-Binds true p r key fault s =
      remedy_by-Binds (remedy_lost_before fault) (remedy_fails fault) p r key fault s
  remedy_held-Binds false p r key fault s = tt

  undigested_remedy-Settles :
      (b : Bool) (key d : String) (s : Ledger C) (y : Result ConnectorResult × Ledger C)
      → Settles remedies_of key d b (undigested_remedy rt signer now s y)
  undigested_remedy-Settles b key d s (ok x, t) = tt
  undigested_remedy-Settles b key d s (err (rail_error c), t) = tt
  undigested_remedy-Settles b key d s (err foreign, t) = tt

  remedy_if-Settles :
      (b : Bool) (p : Proposal) (r : Reservation) (key : String) (fault : Fault) (s : Ledger C)
      → Settles remedies_of key
          (action_digest rt signer now p)
          b
          (remedy_if rt signer now b p r key fault s)
  remedy_if-Settles true p r key fault s =
      Binds-Settles remedies_of key (action_digest rt signer now p) true _ refl
        (remedy_held-Binds _ p r key fault s)
  remedy_if-Settles false p r key fault s = undigested_remedy-Settles false key _ s _

  -- Where a call of `remediate` returned, the same call again, under any fault, returns the same
  -- result and leaves the ledger as it is: nothing is voided twice.
  pub remediate-again :
      (p : Proposal) (r : Reservation) (key : String) (f g : Fault) (x : ConnectorResult)
      (s t : Ledger C)
      → remediate rt signer now p r key f s ≡ (ok x, t)
      → remediate rt signer now p r key g t ≡ (ok x, t)
  unfolding remediate
  remediate-again p r key f g x s t h =
      let d = action_digest rt signer now p in
      let b = fits rt signer now p in
      let (sized, bound) =
        once-IsBound remedies_of key d b (remedy_if rt signer now b p r key f) x s t
          (remedy_if-Settles b p r key f s) h in
      once-bound remedies_of key d b (remedy_if rt signer now b p r key g) x t sized bound
