-- ===== src/Inventory/Conservation/Operations.antt =====
-- The connector's methods, in any sequence.
use consequence_rail.Base.{
  ℕ, ◌+◌, ◌≡◌, refl, arith, Bool, true, false, String, List, [], ◌∷◌, leb, leb→le, ◌∙◌, All,
}
use consequence_rail.Canonical.{Runtime}
use consequence_rail.Signing.{Signer}
use consequence_rail.Errors.{Result, ok, err}
use consequence_rail.Rail.Records.{Proposal, Parameters, Request, Reservation, ConnectorResult}
use consequence_rail.Rail.Interface.{Fault}
use consequence_rail.Connector.{is_doubling, is_lost_before, is_counted}
use consequence_rail.Connector.Idempotency.{once-keeps}
use consequence_rail.Inventory.{
  Stock, Allocation, on_hand, draw, draw_positive, create_allocation, new_allocation,
  after_duplicate, duplicate_if, settle_allocation, execute_new, execute, reserve_recourse,
  reserve_by, recourse_status, status_at, release_recourse, observe, remediate, action_digest, fits,
  is_named, unsettled, execute_undigested, execute_by,
}
use Prim.Native.String.{◌++◌}
use consequence_rail.Inventory.Remedy.{
  FreesAtMostOne, untouched, freed_own, remediate-FreesAtMostOne,
}
use consequence_rail.Inventory.Conservation.{
  allocated, allocated-append, draw-conserves, return-conserves, free_first-conserves,
}

-- The stock of a SKU, on hand and allocated.
abbrev pub level : {C : Type 0} → String → Stock C → ℕ
level sku s = on_hand sku s.inventory + allocated sku s.allocations

-- A call of one of the connector's methods.
pub data Operation : Type 0 where
  reserve : Proposal → Request → Operation
  inquire : String → Operation
  release : String → Operation
  runs : Proposal → String → Fault → Operation
  look : Proposal → Fault → String → Operation
  undo : Proposal → Reservation → String → Fault → Operation

module _ {C : Type 0} (rt : Runtime) (signer : Signer) (now : C → ℕ × C) where
  unfoldable pub operate : Operation → Stock C → Stock C
  operate (reserve p q) s = (reserve_recourse rt signer now p q s).1
  operate (inquire token) s = (recourse_status rt signer now token s).1
  operate (release token) s = (release_recourse rt signer now token s).1
  operate (runs p key fault) s = (execute rt signer now p key fault s).1
  operate (look p fault d) s = (observe rt signer now p fault d s).1
  operate (undo p r key fault) s = (remediate rt signer now p r key fault s).1

  unfoldable pub operate_all : List Operation → Stock C → Stock C
  operate_all [] s = s
  operate_all (o ∷ os) s = operate_all os (operate o s)

  -- The texts that the allocations of a call are named after have digests.
  abbrev pub IsNamed : Proposal → String → Type 0
  IsNamed p key =
      (is_named rt signer now p (key ++ ":primary") ≡ true)
      × (is_named rt signer now p (key ++ ":duplicate") ≡ true)

  abbrev pub IsNameable : Operation → Type 0
  IsNameable (runs p key fault) = IsNamed p key
  IsNameable _ = Unit

  abbrev SameLevel : String → ℕ → Stock C → Type 0
  SameLevel sku n s = level sku s ≡ n

  draw-SameLevel :
      (sku : String) (n : ℕ) (p : Proposal) (k : String) (q : ℕ) (suffix : String) (b : Bool)
      (s : Stock C)
      → leb q (on_hand k s.inventory) ≡ b
      → is_named rt signer now p suffix ≡ true
      → SameLevel sku n s
      → SameLevel sku n (draw rt signer now p k q suffix b s).1
  draw-SameLevel sku n p k q suffix false s e named h = h
  draw-SameLevel sku n p k q suffix true s e named h =
      let a = new_allocation rt signer now p k q suffix in
      rw named (
        omega (
          arith,
          h,
          allocated-append sku s.allocations (a ∷ []),
          draw-conserves sku a s.inventory refl (leb→le q (on_hand k s.inventory) e),
        ))

  create_allocation-SameLevel :
      (sku : String) (n : ℕ) (p : Proposal) (q : Parameters) (suffix : String) (s : Stock C)
      → is_named rt signer now p suffix ≡ true
      → SameLevel sku n s
      → SameLevel sku n (create_allocation rt signer now p q suffix s).1
  unfolding create_allocation
  create_allocation-SameLevel sku n p (Parameters.allocation_parameters k q) suffix s named h =
      positive (is_counted q)
    where
      positive : (b : Bool) → SameLevel sku n (draw_positive rt signer now p k q suffix b s).1
      positive true = draw-SameLevel sku n p k q suffix _ s refl named h
      positive false = h
  create_allocation-SameLevel sku n p (Parameters.refund_parameters a c) suffix s named h = h
  create_allocation-SameLevel sku n p (Parameters.email_parameters a b) suffix s named h = h

  after_duplicate-SameLevel :
      (sku : String) (n : ℕ) (key : String) (fault : Fault) (x : ConnectorResult)
      (created : Result Allocation × Stock C)
      → SameLevel sku n created.1
      → SameLevel sku n (after_duplicate rt signer now key fault x created).1
  unfolding after_duplicate
  after_duplicate-SameLevel sku n key fault x (err e, s) h = h
  after_duplicate-SameLevel sku n key fault x (ok a, s) h = h

  duplicate_if-SameLevel :
      (sku : String) (n : ℕ) (b : Bool) (p : Proposal) (key : String) (fault : Fault)
      (x : ConnectorResult) (s : Stock C)
      → is_named rt signer now p (key ++ ":duplicate") ≡ true
      → SameLevel sku n s
      → SameLevel sku n (duplicate_if rt signer now b p key fault x s).1
  duplicate_if-SameLevel sku n true p key fault x s named h =
      after_duplicate-SameLevel sku n key fault x _
        (create_allocation-SameLevel sku n p p.parameters _ s named h)
  duplicate_if-SameLevel sku n false p key fault x s named h = h

  settle_allocation-SameLevel :
      (sku : String) (n : ℕ) (p : Proposal) (key : String) (fault : Fault)
      (created : Result Allocation × Stock C)
      → is_named rt signer now p (key ++ ":duplicate") ≡ true
      → SameLevel sku n created.1
      → SameLevel sku n (settle_allocation rt signer now p key fault created).1
  unfolding settle_allocation
  settle_allocation-SameLevel sku n p key fault (err e, s) named h = h
  settle_allocation-SameLevel sku n p key fault (ok a, s) named h =
      duplicate_if-SameLevel sku n (is_doubling fault) p key fault _ _ named h

  execute_new-SameLevel :
      (sku : String) (n : ℕ) (p : Proposal) (key : String) (fault : Fault) (b : Bool) (s : Stock C)
      → IsNamed p key
      → SameLevel sku n s
      → SameLevel sku n (execute_new rt signer now p key fault b s).1
  execute_new-SameLevel sku n p key fault true s named h = h
  execute_new-SameLevel sku n p key fault false s named h =
      settle_allocation-SameLevel sku n p key fault _ named.1
        (create_allocation-SameLevel sku n p p.parameters _ s named.0 h)

  unsettled-SameLevel :
      (sku : String) (n : ℕ) (key : String) (created : Result Allocation × Stock C)
      → SameLevel sku n created.1
      → SameLevel sku n (unsettled rt signer now key created).1
  unsettled-SameLevel sku n key (err e, s) h = h
  unsettled-SameLevel sku n key (ok a, s) h = h

  undigested-SameLevel :
      (sku : String) (n : ℕ) (p : Proposal) (key : String) (lost : Bool) (s : Stock C)
      → IsNamed p key
      → SameLevel sku n s
      → SameLevel sku n (execute_undigested rt signer now p key lost s).1
  undigested-SameLevel sku n p key true s named h = h
  undigested-SameLevel sku n p key false s named h =
      unsettled-SameLevel sku n key _
        (create_allocation-SameLevel sku n p p.parameters _ s named.0 h)

  execute_by-SameLevel :
      (sku : String) (n : ℕ) (b : Bool) (p : Proposal) (key : String) (fault : Fault) (s : Stock C)
      → IsNamed p key
      → SameLevel sku n s
      → SameLevel sku n (execute_by rt signer now b p key fault s).1
  execute_by-SameLevel sku n true p key fault s named h =
      execute_new-SameLevel sku n p key fault (is_lost_before fault) s named h
  execute_by-SameLevel sku n false p key fault s named h =
      undigested-SameLevel sku n p key (is_lost_before fault) s named h

  bounded-SameLevel :
      (sku : String) (p : Proposal) (token : String) (s t : Stock C)
      → FreesAtMostOne rt signer now p token s t
      → SameLevel sku (level sku s) t
  bounded-SameLevel sku p token s t (untouched a i) = rw (a, i) refl
  bounded-SameLevel sku p token s t (freed_own a own held same_allocations same_stock) =
      rw (same_allocations, same_stock)
        (omega (
          arith,
          free_first-conserves sku a.allocation_id a s.allocations own.found,
          return-conserves sku a s.inventory own.active,
        ))

  reserve-SameLevel :
      (sku : String) (n : ℕ) (b c : Bool) (q : Request) (s : Stock C)
      → SameLevel sku n s
      → SameLevel sku n (reserve_by rt signer now b c q s).1
  reserve-SameLevel sku n true true q s h = h
  reserve-SameLevel sku n true false q s h = h
  reserve-SameLevel sku n false c q s h = h

  inquire-SameLevel :
      (sku : String) (n : ℕ) (b : Bool) (token : String) (s : Stock C)
      → SameLevel sku n s
      → SameLevel sku n (status_at rt signer now b token s).1
  inquire-SameLevel sku n true token s h = h
  inquire-SameLevel sku n false token s h = h

  operate-SameLevel :
      (sku : String) (o : Operation) (s : Stock C)
      → IsNameable o
      → level sku (operate o s) ≡ level sku s
  unfolding operate reserve_recourse execute recourse_status release_recourse observe
  operate-SameLevel sku (reserve p q) s named = reserve-SameLevel sku (level sku s) _ _ q s refl
  operate-SameLevel sku (inquire token) s named = inquire-SameLevel sku (level sku s) _ token s refl
  operate-SameLevel sku (release token) s named = refl
  operate-SameLevel sku (runs p key fault) s named =
      let b = fits rt signer now p in
      once-keeps (λ (t : Stock C). t.executions) key (action_digest rt signer now p) b
        (SameLevel sku (level sku s)) (execute_by rt signer now b p key fault) s refl
        (execute_by-SameLevel sku (level sku s) b p key fault s named refl)
  operate-SameLevel sku (look p fault d) s named = refl
  operate-SameLevel sku (undo p r key fault) s named =
      bounded-SameLevel sku p r.connector_commitment.reservation_token s _
        (remediate-FreesAtMostOne rt signer now p r key fault s)

  -- Under any sequence of calls of the connector's methods, with any faults, returned or thrown, where
  -- the texts that allocations are named after are within the limits of a digest, the quantity on hand
  -- and the quantity of the live allocations add up to the same number for each SKU: nothing is
  -- allocated that was not on hand, and nothing is given back twice.
  pub operate_all-conserves :
      (sku : String) (os : List Operation) (s : Stock C)
      → All IsNameable os
      → level sku (operate_all os s) ≡ level sku s
  unfolding operate_all
  operate_all-conserves sku [] s named = refl
  operate_all-conserves sku (o ∷ os) s (named, later) =
      operate_all-conserves sku os (operate o s) later ∙ operate-SameLevel sku o s named
