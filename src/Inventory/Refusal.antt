-- ===== src/Inventory/Refusal.antt =====
-- Calls of `execute` that throw a RailError.
use consequence_rail.Base.{
  ℕ, suc, ◌+◌, ◌-◌, ◌≡◌, refl, subst, arith, Bool, true, false, ◌&&◌, String, Option, none, some,
  [], ◌∷◌, leb, length, length-append, contains, insert, lookup-insert_self, if◌then◌else◌,
}
use consequence_rail.Base.{Dict, ◌≤◌, ◌<◌}
use consequence_rail.Connector.Idempotency.{once-free}
use Prim.Native.String.{◌++◌}
use consequence_rail.Canonical.{Runtime}
use consequence_rail.Signing.{Signer}
use consequence_rail.Errors.{rail_error, foreign, Result, ok, err}
use consequence_rail.Rail.Records.{
  Proposal, Parameters, allocation_parameters, ConnectorResult, ResultStatus,
}
use consequence_rail.Rail.Interface.{Fault}
use consequence_rail.Connector.{
  outcome, Bindings, is_doubling, is_lost_before, is_lost_after, once, replay, admits_key, recorded,
  status_of, digested, is_counted,
}
use consequence_rail.Inventory.{
  Stock, Allocation, on_hand, draw, draw_positive, create_allocation, after_duplicate,
  settle_allocation, execute_new, execute, action_digest, respond, remember_execution,
  record_allocation, fits, is_named, enlist, unsettled, execute_undigested, execute_by,
}
use consequence_rail.Rail.Validate.{max_safe_integer}

doubling-not_lost : (f : Fault) → is_doubling f ≡ true → is_lost_before f ≡ false
doubling-not_lost Fault.lost_response_before_commit h = cc
doubling-not_lost Fault.none h = refl
doubling-not_lost Fault.duplicate h = refl
doubling-not_lost Fault.lost_response_after_commit h = refl
doubling-not_lost Fault.remedy_failure h = refl
doubling-not_lost Fault.stale_evidence h = refl
doubling-not_lost Fault.remedy_lost_response_before_commit h = refl
doubling-not_lost Fault.remedy_lost_response_after_commit h = refl
doubling-not_lost Fault.post_remedy_stale_evidence h = refl
doubling-not_lost Fault.post_remedy_false_evidence h = refl

module _ {C : Type 0} (rt : Runtime) (signer : Signer) (now : C → ℕ × C) where
  -- Nothing is changed by what throws a RailError other than CANONICALIZATION_FAILED.
  abbrev Clean : {A : Type 0} → Stock C → Result A × Stock C → Type 0
  Clean s (err (rail_error c), t) = ¬ (c ≡ "CANONICALIZATION_FAILED") → t ≡ s
  Clean s (err foreign, t) = Unit
  Clean s (ok x, t) = Unit

  create_allocation-Clean :
      (p : Proposal) (q : Parameters) (suffix : String) (s : Stock C)
      → Clean s (create_allocation rt signer now p q suffix s)
  unfolding create_allocation
  create_allocation-Clean p (Parameters.allocation_parameters sku n) suffix s =
      positive (is_counted n)
    where
      enlisted : (b : Bool) (t : Stock C) → Clean s (enlist rt signer now b p sku n suffix t)
      enlisted true t = tt
      enlisted false t = λ apart. absurd (apart refl)

      drawn : (b : Bool) → Clean s (draw rt signer now p sku n suffix b s)
      drawn true = enlisted _ _
      drawn false = λ apart. refl

      positive : (b : Bool) → Clean s (draw_positive rt signer now p sku n suffix b s)
      positive true = drawn _
      positive false = λ apart. refl
  create_allocation-Clean p (Parameters.refund_parameters n c) suffix s = λ apart. refl
  create_allocation-Clean p (Parameters.email_parameters a b) suffix s = λ apart. refl

  respond-Clean :
      (b : Bool) (x : ConnectorResult) (s t : Stock C) → Clean s (respond rt signer now b x, t)
  respond-Clean true x s t = tt
  respond-Clean false x s t = tt

  settle_allocation-Clean :
      (p : Proposal) (key : String) (fault : Fault) (s : Stock C)
      (created : Result Allocation × Stock C)
      → is_doubling fault ≡ false
      → Clean s created
      → Clean s (settle_allocation rt signer now p key fault created)
  unfolding settle_allocation
  settle_allocation-Clean p key fault s (err (rail_error c), t) single h = h
  settle_allocation-Clean p key fault s (err foreign, t) single h = tt
  settle_allocation-Clean p key fault s (ok a, t) single h =
      rw single (respond-Clean (is_lost_after fault) _ s _)

  execute_new-Clean :
      (b : Bool) (p : Proposal) (key : String) (fault : Fault) (s : Stock C)
      → is_doubling fault ≡ false
      → Clean s (execute_new rt signer now p key fault b s)
  execute_new-Clean true p key fault s single = tt
  execute_new-Clean false p key fault s single =
      settle_allocation-Clean p key fault s _ single
        (create_allocation-Clean p p.parameters (key ++ ":primary") s)

  recorded-Clean : (o : Option ConnectorResult) (s : Stock C) → Clean s (recorded o, s)
  recorded-Clean none s = tt
  recorded-Clean (some x) s = tt

  replay-Clean :
      (key : String) (b : Bool) (bindings : Bindings) (s : Stock C)
      → Clean s (replay key b bindings, s)
  replay-Clean key true bindings s = recorded-Clean _ s
  replay-Clean key false bindings s = λ apart. refl

  digested-Clean :
      (b : Bool) (y : Result ConnectorResult) (s : Stock C)
      → Clean s (y, s)
      → Clean s (digested b y, s)
  digested-Clean true y s h = h
  digested-Clean false y s h = λ apart. refl

  unsettled-Clean :
      (key : String) (s : Stock C) (created : Result Allocation × Stock C)
      → Clean s created
      → Clean s (unsettled rt signer now key created)
  unsettled-Clean key s (err (rail_error c), t) h = h
  unsettled-Clean key s (err foreign, t) h = tt
  unsettled-Clean key s (ok a, t) h = λ apart. absurd (apart refl)

  execute_by-Clean :
      (b : Bool) (p : Proposal) (key : String) (fault : Fault) (s : Stock C)
      → is_doubling fault ≡ false
      → Clean s (execute_by rt signer now b p key fault s)
  execute_by-Clean true p key fault s single =
      execute_new-Clean (is_lost_before fault) p key fault s single
  execute_by-Clean false p key fault s single = by_loss (is_lost_before fault)
    where
      by_loss : (lost : Bool) → Clean s (execute_undigested rt signer now p key lost s)
      by_loss true = λ apart. refl
      by_loss false =
          unsettled-Clean key s _ (create_allocation-Clean p p.parameters (key ++ ":primary") s)

  once-Clean :
      (f : Stock C → Bindings) (key d : String) (fit : Bool)
      (body : Stock C → Result ConnectorResult × Stock C) (s : Stock C)
      → Clean s (body s)
      → Clean s (once f key d fit body s)
  unfolding once
  once-Clean f key d fit body s h = by_case (contains key (f s).digests)
    where
      by_case :
          (b : Bool)
          → Clean s
              (if b then (digested fit (replay key (admits_key (f s) key d) (f s)), s) else body s)
      by_case true = digested-Clean fit _ s (replay-Clean key (admits_key (f s) key d) (f s) s)
      by_case false = h

  -- Where no second allocation is injected, a call of `execute` that throws a RailError other than
  -- CANONICALIZATION_FAILED, such as INVENTORY_INSUFFICIENT or IDEMPOTENCY_CONFLICT, leaves the whole
  -- warehouse as it was.
  pub execute-refuses :
      (p : Proposal) (key c : String) (fault : Fault) (s t : Stock C)
      → is_doubling fault ≡ false
      → ¬ (c ≡ "CANONICALIZATION_FAILED")
      → execute rt signer now p key fault s ≡ (err (rail_error c), t)
      → t ≡ s
  unfolding execute
  execute-refuses p key c fault s t single apart h =
      let b = fits rt signer now p in
      subst (Clean s) h
        (once-Clean (λ (u : Stock C). u.executions) key (action_digest rt signer now p) b
          (execute_by rt signer now b p key fault) s (execute_by-Clean b p key fault s single))
        apart

  -- A call that threw after it had made an allocation and bound the key to it.
  pub record IsRefusedLate (key : String) (s : Stock C) (y : Result ConnectorResult × Stock C)
      : Type 0 where
    pub thrown : y.0 ≡ err (rail_error "INVENTORY_INSUFFICIENT")
    pub allocated : length y.1.allocations ≡ suc (length s.allocations)
    pub reported : (status_of key y.1.executions).status ≡ ResultStatus.executed

  create_allocation-fits :
      (p : Proposal) (q : Parameters) (sku : String) (n : ℕ) (suffix : String) (s : Stock C)
      → q ≡ allocation_parameters sku n
      → is_counted n ≡ true
      → leb n (on_hand sku s.inventory) ≡ true
      → create_allocation rt signer now p q suffix s ≡ draw rt signer now p sku n suffix true s
  unfolding create_allocation
  create_allocation-fits p q sku n suffix s declared h k = rw (declared, h, k) refl

  create_allocation-exceeds :
      (p : Proposal) (q : Parameters) (sku : String) (n : ℕ) (suffix : String) (s : Stock C)
      → q ≡ allocation_parameters sku n
      → is_counted n ≡ true
      → leb n (on_hand sku s.inventory) ≡ false
      → create_allocation rt signer now p q suffix s
        ≡ (err (rail_error "INVENTORY_INSUFFICIENT"), s)
  unfolding create_allocation
  create_allocation-exceeds p q sku n suffix s declared h k = rw (declared, h, k) refl

  duplicate-IsRefusedLate :
      (p : Proposal) (key sku : String) (n : ℕ) (fault : Fault) (a : Allocation) (s t : Stock C)
      → is_doubling fault ≡ true
      → p.parameters ≡ allocation_parameters sku n
      → is_counted n ≡ true
      → leb n (on_hand sku t.inventory) ≡ false
      → length t.allocations ≡ suc (length s.allocations)
      → IsRefusedLate key s (settle_allocation rt signer now p key fault (ok a, t))
  unfolding settle_allocation after_duplicate status_of
  duplicate-IsRefusedLate p key sku n fault a s t double declared h k grew =
      let result = outcome ResultStatus.executed key (some a.allocation_id) in
      let recorded_once =
        remember_execution rt signer now key p result
          (record_allocation rt signer now key a.allocation_id t) in
      rw
        (
          double,
          create_allocation-exceeds p p.parameters sku n (key ++ ":duplicate") recorded_once
              declared h k,
        )
        (record {
          thrown = refl;
          allocated = grew;
          reported = rw (lookup-insert_self key _ t.executions.results) refl;
        })

  on_hand-after : (sku : String) (n : ℕ) (m : Dict ℕ) → on_hand sku (insert sku n m) ≡ n
  unfolding on_hand
  on_hand-after sku n m = rw (lookup-insert_self sku n m) refl

  -- Where a second allocation is injected and the declared quantity, a positive safe integer, is on hand
  -- once but not twice, and the proposal and the name of the first allocation are within the limits of
  -- a digest, a call of `execute` under a free key throws INVENTORY_INSUFFICIENT after it made the first
  -- allocation, and `status` reports "executed" for the key.
  pub execute-refuses_late :
      (p : Proposal) (key sku : String) (n : ℕ) (fault : Fault) (s : Stock C)
      → is_doubling fault ≡ true
      → contains key s.executions.digests ≡ false
      → p.parameters ≡ allocation_parameters sku n
      → fits rt signer now p ≡ true
      → is_named rt signer now p (key ++ ":primary") ≡ true
      → 1 ≤ n
      → n ≤ max_safe_integer
      → n ≤ on_hand sku s.inventory
      → on_hand sku s.inventory < n + n
      → IsRefusedLate key s (execute rt signer now p key fault s)
  unfolding execute
  execute-refuses_late p key sku n fault s double free declared sized named positive safe once_fits
        twice_not =
      rw
        (
          once-free (λ (t : Stock C). t.executions) key (action_digest rt signer now p)
              (fits rt signer now p) (execute_by rt signer now (fits rt signer now p) p key fault) s
              free,
          sized,
          doubling-not_lost fault double,
          create_allocation-fits p p.parameters sku n (key ++ ":primary") s declared at_least_one
              enough,
          named,
        )
        (duplicate-IsRefusedLate p key sku n fault _ s _ double declared at_least_one exceeds
          (omega (arith, length-append s.allocations (_ ∷ []))))
    where
      both_ways : (m : ℕ) → n ≤ m → (leb 1 n && leb n m) ≡ true
      both_ways m h = ground arith

      at_least_one : is_counted n ≡ true
      at_least_one = both_ways max_safe_integer safe

      enough : leb n (on_hand sku s.inventory) ≡ true
      enough = ground arith

      exceeds : leb n (on_hand sku (insert sku (on_hand sku s.inventory - n) s.inventory)) ≡ false
      exceeds = rw (on_hand-after sku (on_hand sku s.inventory - n) s.inventory) (ground arith)
