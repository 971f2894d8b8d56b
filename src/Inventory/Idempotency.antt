-- ===== src/Inventory/Idempotency.antt =====
-- `execute` and `remediate` under one idempotency key.
use consequence_rail.Base.{ℕ, ◌≡◌, refl, subst, sym, Bool, true, false, String, Option, none, some}
use consequence_rail.Canonical.{Runtime}
use consequence_rail.Signing.{Signer}
use consequence_rail.Errors.{Result, ok, err, rail_error, foreign}
use consequence_rail.Rail.Records.{Proposal, Parameters, Reservation, ConnectorResult}
use consequence_rail.Rail.Interface.{Fault}
use consequence_rail.Connector.{
  Bindings, is_lost_before, is_lost_after, is_doubling, remedy_lost_before, remedy_lost_after,
  remedy_fails, is_counted,
}
use consequence_rail.Connector.Idempotency.{
  IsBound, remember-IsBound, Binds, Settles, Binds-Settles, once-IsBound, once-bound,
}
use consequence_rail.Inventory.{
  Stock, Allocation, draw, draw_positive, create_allocation, respond, after_duplicate, duplicate_if,
  settle_allocation, execute_new, execute, undo, remedy_by, remedy_held, remediate, action_digest,
  record_allocation, fits, enlist, unsettled, execute_undigested, execute_by, undigested_remedy,
  remedy_if,
}

module _ {C : Type 0} (rt : Runtime) (signer : Signer) (now : C → ℕ × C) where
  create_allocation-executions :
      (p : Proposal) (q : Parameters) (suffix : String) (s : Stock C)
      → (create_allocation rt signer now p q suffix s).1.executions ≡ s.executions
  unfolding create_allocation
  create_allocation-executions p (Parameters.allocation_parameters sku n) suffix s =
      positive (is_counted n)
    where
      enlisted :
          (b : Bool) (t : Stock C)
          → (enlist rt signer now b p sku n suffix t).1.executions ≡ t.executions
      enlisted true t = refl
      enlisted false t = refl

      drawn : (b : Bool) → (draw rt signer now p sku n suffix b s).1.executions ≡ s.executions
      drawn true = enlisted _ _
      drawn false = refl

      positive :
          (b : Bool) → (draw_positive rt signer now p sku n suffix b s).1.executions ≡ s.executions
      positive true = drawn _
      positive false = refl
  create_allocation-executions p (Parameters.refund_parameters n c) suffix s = refl
  create_allocation-executions p (Parameters.email_parameters a b) suffix s = refl

  abbrev executions_of : Stock C → Bindings
  executions_of t = t.executions

  abbrev remedies_of : Stock C → Bindings
  remedies_of t = t.remedies

  abbrev IsKnown : Proposal → String → ConnectorResult → Bindings → Type 0
  IsKnown p key x b = IsBound key (action_digest rt signer now p) x b

  respond-Binds :
      (b : Bool) (f : Stock C → Bindings) (key d : String) (x : ConnectorResult) (s : Stock C)
      → IsBound key d x (f s)
      → Binds f key d (respond rt signer now b x, s)
  respond-Binds true f key d x s h = tt
  respond-Binds false f key d x s h = h

  after_duplicate-Binds :
      (p : Proposal) (key : String) (fault : Fault) (x : ConnectorResult)
      (created : Result Allocation × Stock C)
      → IsKnown p key x created.1.executions
      → Binds executions_of key
          (action_digest rt signer now p)
          (after_duplicate rt signer now key fault x created)
  unfolding after_duplicate
  after_duplicate-Binds p key fault x (err e, s) h = tt
  after_duplicate-Binds p key fault x (ok a, s) h =
      respond-Binds (is_lost_after fault) executions_of key (action_digest rt signer now p) x
        (record_allocation rt signer now key a.allocation_id s) h

  duplicate_if-Binds :
      (b : Bool) (p : Proposal) (key : String) (fault : Fault) (x : ConnectorResult) (s : Stock C)
      → IsKnown p key x s.executions
      → Binds executions_of key
          (action_digest rt signer now p)
          (duplicate_if rt signer now b p key fault x s)
  duplicate_if-Binds true p key fault x s h =
      after_duplicate-Binds p key fault x _
        (subst (IsKnown p key x) (sym (create_allocation-executions p p.parameters _ s)) h)
  duplicate_if-Binds false p key fault x s h =
      respond-Binds (is_lost_after fault) executions_of key _ x s h

  settle_allocation-Binds :
      (p : Proposal) (key : String) (fault : Fault) (created : Result Allocation × Stock C)
      → Binds executions_of key
          (action_digest rt signer now p)
          (settle_allocation rt signer now p key fault created)
  unfolding settle_allocation
  settle_allocation-Binds p key fault (err e, s) = tt
  settle_allocation-Binds p key fault (ok a, s) =
      duplicate_if-Binds (is_doubling fault) p key fault _ _ (remember-IsBound key _ _ s.executions)

  execute_new-Binds :
      (p : Proposal) (key : String) (fault : Fault) (b : Bool) (s : Stock C)
      → Binds executions_of key
          (action_digest rt signer now p)
          (execute_new rt signer now p key fault b s)
  execute_new-Binds p key fault true s = tt
  execute_new-Binds p key fault false s = settle_allocation-Binds p key fault _

  unsettled-Settles :
      (b : Bool) (p : Proposal) (key : String) (created : Result Allocation × Stock C)
      → Settles executions_of key
          (action_digest rt signer now p)
          b
          (unsettled rt signer now key created)
  unsettled-Settles b p key (err e, s) = tt
  unsettled-Settles b p key (ok a, s) = tt

  execute_undigested-Settles :
      (b lost : Bool) (p : Proposal) (key : String) (s : Stock C)
      → Settles executions_of key
          (action_digest rt signer now p)
          b
          (execute_undigested rt signer now p key lost s)
  execute_undigested-Settles b true p key s = tt
  execute_undigested-Settles b false p key s = unsettled-Settles b p key _

  execute_by-Settles :
      (b : Bool) (p : Proposal) (key : String) (fault : Fault) (s : Stock C)
      → Settles executions_of key
          (action_digest rt signer now p)
          b
          (execute_by rt signer now b p key fault s)
  execute_by-Settles true p key fault s =
      Binds-Settles executions_of key (action_digest rt signer now p) true _ refl
        (execute_new-Binds p key fault (is_lost_before fault) s)
  execute_by-Settles false p key fault s =
      execute_undigested-Settles false (is_lost_before fault) p key s

  -- Where a call of `execute` returned, the same call again, under any fault, returns the same result
  -- and leaves the warehouse as it is: no second allocation.
  pub execute-again :
      (p : Proposal) (key : String) (f g : Fault) (x : ConnectorResult) (s t : Stock C)
      → execute rt signer now p key f s ≡ (ok x, t)
      → execute rt signer now p key g t ≡ (ok x, t)
  unfolding execute
  execute-again p key f g x s t h =
      let d = action_digest rt signer now p in
      let b = fits rt signer now p in
      let (sized, bound) =
        once-IsBound executions_of key d b (execute_by rt signer now b p key f) x s t
          (execute_by-Settles b p key f s) h in
      once-bound executions_of key d b (execute_by rt signer now b p key g) x t sized bound

  undo-Binds :
      (p : Proposal) (token key : String) (fault : Fault) (o : Option Allocation) (s : Stock C)
      → Binds remedies_of key
          (action_digest rt signer now p)
          (undo rt signer now p token key fault o s)
  undo-Binds p token key fault none s = remember-IsBound key _ _ s.remedies
  undo-Binds p token key fault (some a) s =
      respond-Binds (remedy_lost_after fault) remedies_of key _ _ _
        (remember-IsBound key _ _ s.remedies)

  remedy_by-Binds :
      (b c : Bool) (p : Proposal) (token key : String) (fault : Fault) (s : Stock C)
      → Binds remedies_of key
          (action_digest rt signer now p)
          (remedy_by rt signer now b c p token key fault s)
  remedy_by-Binds true c p token key fault s = tt
  remedy_by-Binds false true p token key fault s = remember-IsBound key _ _ s.remedies
  remedy_by-Binds false false p token key fault s = undo-Binds p token key fault _ s

  remedy_held-Binds :
      (b : Bool) (p : Proposal) (token key : String) (fault : Fault) (s : Stock C)
      → Binds remedies_of key
          (action_digest rt signer now p)
          (remedy_held rt signer now b p token key fault s)
  remedy_held-Binds true p token key fault s =
      remedy_by-Binds (remedy_lost_before fault) (remedy_fails fault) p token key fault s
  remedy_held-Binds false p token key fault s = tt

  undigested_remedy-Settles :
      (b : Bool) (key d : String) (s : Stock C) (y : Result ConnectorResult × Stock C)
      → Settles remedies_of key d b (undigested_remedy rt signer now s y)
  undigested_remedy-Settles b key d s (ok x, t) = tt
  undigested_remedy-Settles b key d s (err (rail_error c), t) = tt
  undigested_remedy-Settles b key d s (err foreign, t) = tt

  remedy_if-Settles :
      (b : Bool) (p : Proposal) (token key : String) (fault : Fault) (s : Stock C)
      → Settles remedies_of key
          (action_digest rt signer now p)
          b
          (remedy_if rt signer now b p token key fault s)
  remedy_if-Settles true p token key fault s =
      Binds-Settles remedies_of key (action_digest rt signer now p) true _ refl
        (remedy_held-Binds _ p token key fault s)
  remedy_if-Settles false p token key fault s = undigested_remedy-Settles false key _ s _

  -- Where a call of `remediate` returned, the same call again, under any fault, returns the same
  -- result and leaves the warehouse as it is: nothing is released twice.
  pub remediate-again :
      (p : Proposal) (r : Reservation) (key : String) (f g : Fault) (x : ConnectorResult)
      (s t : Stock C)
      → remediate rt signer now p r key f s ≡ (ok x, t)
      → remediate rt signer now p r key g t ≡ (ok x, t)
  unfolding remediate
  remediate-again p r key f g x s t h =
      let d = action_digest rt signer now p in
      let b = fits rt signer now p in
      let token = r.connector_commitment.reservation_token in
      let (sized, bound) =
        once-IsBound remedies_of key d b (remedy_if rt signer now b p token key f) x s t
          (remedy_if-Settles b p token key f s) h in
      once-bound remedies_of key d b (remedy_if rt signer now b p token key g) x t sized bound
