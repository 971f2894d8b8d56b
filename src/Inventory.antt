-- ===== src/Inventory.antt =====
-- src/mock-inventory-connector.js: the synthetic warehouse. `execute` allocates stock to an order, and
-- `remediate` releases an allocation. The clock is a state of its own.
pub mod Conservation
pub mod Idempotency
pub mod Refusal
pub mod Remedy
pub mod Spent
use Prim.Native.String.{◌++◌}
use mathlib.Core.List.{◌++◌ as append}
use consequence_rail.Base.{
  ℕ, ◌+◌, ◌-◌, ◌*◌, Bool, true, false, ◌&&◌, String, str_eq, Option, none, some, List, [], ◌∷◌, ltb,
  leb, length, last?, get_elem?, keep, map, find_first, Dict, lookup, insert, if◌then◌else◌,
}
use consequence_rail.Json.{Json, str, nat, object}
use consequence_rail.Canonical.{Runtime, digest, representable}
use consequence_rail.Errors.{Thrown, rail_error, foreign, Result, ok, err}
use consequence_rail.Signing.{Signer, Keys}
use consequence_rail.Rail.Records.{
  Proposal, Parameters, allocation_parameters, ActionType, allocation, Request, Scope, max_quantity,
  ConnectorResult, ResultStatus, RecourseState, RecourseStatus, Commitment, Reservation, Evidence,
}
use consequence_rail.Rail.Interface.{Fault, Capabilities, Connector}
use consequence_rail.Rail.Encode.{proposal_json}
use consequence_rail.Rail.Lifecycle.{short}
use consequence_rail.Connector.{
  Bindings, Held, outcome, remember, once, status_of, status_text, expire_at, release, held_active,
  is_active, set_status, commit, is_doubling, is_lost_before, is_lost_after, is_stale,
  is_false_evidence, is_counted, remedy_fails, remedy_lost_before, remedy_lost_after,
}

pub data AllocationStatus : Type 0 where
  live freed : AllocationStatus

pub record Allocation : Type 0 where
  pub allocation_id : String
  pub order_id : String
  pub sku : String
  pub quantity : ℕ
  pub status : AllocationStatus

-- `allocation.status === "active"`
abbrev pub is_live : AllocationStatus → Bool
is_live live = true
is_live freed = false

-- The connector's fields; `tracked` is `executionAllocations`.
pub record Stock (C : Type 0) : Type 0 where
  pub clock : C
  pub exclusive_credential_custody : Bool
  pub allocations : List Allocation
  pub inventory : Dict ℕ
  pub tracked : Dict (List String)
  pub recourse : Dict Held
  pub executions : Bindings
  pub remedies : Bindings

abbrev count_of : Option ℕ → ℕ
count_of none = 0
count_of (some n) = n

-- `this.inventory.get(sku) ?? 0`
unfoldable pub on_hand : String → Dict ℕ → ℕ
on_hand sku inventory = count_of (lookup sku inventory)

abbrev ids_of : Option (List String) → List String
ids_of none = []
ids_of (some ids) = ids

-- `this.executionAllocations.get(idempotencyKey) ?? []`
abbrev pub tracked_under : String → Dict (List String) → List String
tracked_under key tracked = ids_of (lookup key tracked)

-- `allocation.status = "released"` on the object that `find` gives.
unfoldable pub free_first : String → List Allocation → List Allocation
free_first id [] = []
free_first id (a ∷ rest) =
    if str_eq a.allocation_id id then record a { status = freed } ∷ rest else a ∷ free_first id rest

abbrev pub has_id : String → Allocation → Bool
has_id id a = str_eq a.allocation_id id

abbrev pub serves : String → Allocation → Bool
serves order a = str_eq a.order_id order && is_live a.status

-- `active` in `observe`
abbrev pub live_for : String → List Allocation → List Allocation
live_for order = keep (λ (a : Allocation). str_eq a.order_id order && is_live a.status)

abbrev with_candidate : String → Option Allocation → List Allocation → List Allocation
with_candidate order none rest = rest
with_candidate order (some a) rest =
    if is_live a.status && str_eq a.order_id order then a ∷ rest else rest

-- `candidates` in `remediate`
unfoldable pub candidates : String → List String → List Allocation → List Allocation
candidates order [] allocations = []
candidates order (id ∷ ids) allocations =
    with_candidate order (find_first (has_id id) allocations) (candidates order ids allocations)

-- `bound` in `remediate`
abbrev pub chosen : List Allocation → Option Allocation
chosen found = if ltb 1 (length found) then last? found else get_elem? found 0

abbrev pub total : List Allocation → ℕ
total [] = 0
total (a ∷ rest) = a.quantity + total rest

abbrev declared_sku : Parameters → String
declared_sku (allocation_parameters sku quantity) = sku
declared_sku _ = ""

abbrev declared_quantity : Parameters → ℕ
declared_quantity (allocation_parameters sku quantity) = quantity
declared_quantity _ = 0

module _ {C : Type 0} (rt : Runtime) (signer : Signer) (now : C → ℕ × C) where
  abbrev pub action_digest : Proposal → String
  action_digest p = digest rt (proposal_json rt p)

  -- Whether the proposal has a digest.
  unfoldable pub fits : Proposal → Bool
  fits p = representable (proposal_json rt p)

  abbrev new_allocation : Proposal → String → ℕ → String → Allocation
  new_allocation p sku quantity suffix = record {
    allocation_id =
        "alloc_" ++ short 20 (digest rt (str (p.target.resource_id ++ (":" ++ suffix))));
    order_id = p.target.resource_id;
    sku = sku;
    quantity = quantity;
    status = live;
  }

  -- Whether the text that an allocation is named after has a digest.
  unfoldable pub is_named : Proposal → String → Bool
  is_named p suffix = representable (str (p.target.resource_id ++ (":" ++ suffix)))

  -- `createAllocation`, once the quantity is taken from the stock.
  abbrev pub enlist : Bool → Proposal → String → ℕ → String → Stock C → Result Allocation × Stock C
  enlist false p sku quantity suffix s = (err (rail_error "CANONICALIZATION_FAILED"), s)
  enlist true p sku quantity suffix s =
      let a = new_allocation p sku quantity suffix in
      (ok a, record s { allocations = append s.allocations (a ∷ []) })

  -- `createAllocation`, once the quantity is tested against the stock.
  abbrev pub draw : Proposal → String → ℕ → String → Bool → Stock C → Result Allocation × Stock C
  draw p sku quantity suffix false s = (err (rail_error "INVENTORY_INSUFFICIENT"), s)
  draw p sku quantity suffix true s =
      enlist (is_named p suffix) p sku quantity suffix
        (record s { inventory = insert sku (on_hand sku s.inventory - quantity) s.inventory })

  abbrev pub draw_positive :
      Proposal → String → ℕ → String → Bool → Stock C → Result Allocation × Stock C
  draw_positive p sku quantity suffix false s = (err (rail_error "INVENTORY_QUANTITY_INVALID"), s)
  draw_positive p sku quantity suffix true s =
      draw p sku quantity suffix (leb quantity (on_hand sku s.inventory)) s

  -- `createAllocation(proposal, suffix)`
  unfoldable pub create_allocation :
      Proposal → Parameters → String → Stock C → Result Allocation × Stock C
  create_allocation p (allocation_parameters sku quantity) suffix s =
      draw_positive p sku quantity suffix (is_counted quantity) s
  create_allocation p _ suffix s = (err (rail_error "INVENTORY_QUANTITY_INVALID"), s)

  -- `recordAllocation(idempotencyKey, allocationId)`
  abbrev pub record_allocation : String → String → Stock C → Stock C
  record_allocation key id s = record s {
    tracked = insert key (append (tracked_under key s.tracked) (id ∷ [])) s.tracked;
  }

  abbrev pub remember_execution : String → Proposal → ConnectorResult → Stock C → Stock C
  remember_execution key p result s = record s {
    executions = remember key (action_digest p) result s.executions;
  }

  abbrev pub remember_remedy : String → Proposal → ConnectorResult → Stock C → Stock C
  remember_remedy key p result s = record s {
    remedies = remember key (action_digest p) result s.remedies;
  }

  abbrev pub respond : Bool → ConnectorResult → Result ConnectorResult
  respond lost result = if lost then err foreign else ok result

  -- The end of `execute`, after the allocation of the duplicate fault.
  unfoldable pub after_duplicate :
      String
      → Fault
      → ConnectorResult
      → Result Allocation × Stock C
      → Result ConnectorResult × Stock C
  after_duplicate key fault result (err e, s) = (err e, s)
  after_duplicate key fault result (ok a, s) =
      (respond (is_lost_after fault) result, record_allocation key a.allocation_id s)

  abbrev pub duplicate_if :
      Bool
      → Proposal
      → String
      → Fault
      → ConnectorResult
      → Stock C
      → Result ConnectorResult × Stock C
  duplicate_if true p key fault result s =
      after_duplicate key fault result (create_allocation p p.parameters (key ++ ":duplicate") s)
  duplicate_if false p key fault result s = (respond (is_lost_after fault) result, s)

  -- `execute`, once the primary allocation is created.
  unfoldable pub settle_allocation :
      Proposal → String → Fault → Result Allocation × Stock C → Result ConnectorResult × Stock C
  settle_allocation p key fault (err e, s) = (err e, s)
  settle_allocation p key fault (ok a, s) =
      let result = outcome ResultStatus.executed key (some a.allocation_id) in
      duplicate_if (is_doubling fault) p key fault result
        (remember_execution key p result (record_allocation key a.allocation_id s))

  abbrev pub execute_new :
      Proposal → String → Fault → Bool → Stock C → Result ConnectorResult × Stock C
  execute_new p key fault true s =
      (err foreign, remember_execution key p (outcome ResultStatus.no_effect key none) s)
  execute_new p key fault false s =
      settle_allocation p key fault (create_allocation p p.parameters (key ++ ":primary") s)

  -- `execute` of a proposal that has no digest: `rememberExecution` throws, after the primary
  -- allocation.
  abbrev pub unsettled : String → Result Allocation × Stock C → Result ConnectorResult × Stock C
  unsettled key (err e, s) = (err e, s)
  unsettled key (ok a, s) =
      (err (rail_error "CANONICALIZATION_FAILED"), record_allocation key a.allocation_id s)

  abbrev pub execute_undigested :
      Proposal → String → Bool → Stock C → Result ConnectorResult × Stock C
  execute_undigested p key true s = (err (rail_error "CANONICALIZATION_FAILED"), s)
  execute_undigested p key false s =
      unsettled key (create_allocation p p.parameters (key ++ ":primary") s)

  abbrev pub execute_by :
      Bool → Proposal → String → Fault → Stock C → Result ConnectorResult × Stock C
  execute_by true p key fault s = execute_new p key fault (is_lost_before fault) s
  execute_by false p key fault s = execute_undigested p key (is_lost_before fault) s

  -- `execute(proposal, idempotencyKey, fault)`
  unfoldable pub execute : Proposal → String → Fault → Stock C → Result ConnectorResult × Stock C
  execute p key fault s =
      once (λ (t : Stock C). t.executions) key (action_digest p) (fits p)
        (execute_by (fits p) p key fault) s

  -- `status(idempotencyKey)` and `remedyStatus(idempotencyKey)`
  unfoldable pub status : String → Stock C → Result ConnectorResult × Stock C
  status key s = (ok (status_of key s.executions), s)

  unfoldable pub remedy_status : String → Stock C → Result ConnectorResult × Stock C
  remedy_status key s = (ok (status_of key s.remedies), s)

  -- `reserveRecourse`, past its guards.
  abbrev pub hold : Request → Stock C → Result Commitment × Stock C
  hold q s =
      let (time, clock) = now s.clock in
      let c = commit rt signer "mock-inventory-service" q time in
      (
        ok c,
        record s {
          clock = clock;
          recourse =
              insert c.reservation_token
                (record { expires_at = c.expires_at; status = RecourseState.active }) s.recourse;
        },
      )

  abbrev offers : Request → Bool
  offers q = str_eq q.capability "release-allocation" && str_eq q.connector "mock-inventory-service"

  abbrev is_allocation : ActionType → Bool
  is_allocation allocation = true
  is_allocation _ = false

  -- Whether the scope covers the declared quantity; another scope or another kind of parameters has
  -- no integer quantity.
  abbrev pub suffices : Scope → Parameters → Bool
  suffices (max_quantity m) (allocation_parameters sku quantity) = leb quantity m
  suffices _ _ = false

  abbrev pub reserve_by : Bool → Bool → Request → Stock C → Result Commitment × Stock C
  reserve_by false covered q s = (err (rail_error "RECOURSE_UNAVAILABLE"), s)
  reserve_by true false q s = (err (rail_error "RECOURSE_SCOPE_INSUFFICIENT"), s)
  reserve_by true true q s = hold q s

  -- `reserveRecourse(proposal, request)`
  unfoldable pub reserve_recourse : Proposal → Request → Stock C → Result Commitment × Stock C
  reserve_recourse p q s =
      reserve_by (offers q && is_allocation p.action_type) (suffices q.scope p.parameters) q s

  -- `recourseStatus`: the clock is read only for an active reservation.
  abbrev pub status_at : Bool → String → Stock C → Result RecourseStatus × Stock C
  status_at false token s = (ok (status_text token (lookup token s.recourse)), s)
  status_at true token s =
      let (time, clock) = now s.clock in
      let held = expire_at time token (lookup token s.recourse) s.recourse in
      (ok (status_text token (lookup token held)), record s { clock = clock; recourse = held })

  unfoldable pub recourse_status : String → Stock C → Result RecourseStatus × Stock C
  recourse_status token s = status_at (held_active (lookup token s.recourse)) token s

  unfoldable pub release_recourse : String → Stock C → Result (Unit {0}) × Stock C
  release_recourse token s =
      (ok tt, record s { recourse = release token (lookup token s.recourse) s.recourse })

  -- The offset of a false observation. A proposal that the orchestrator admits here declares a SKU and
  -- a quantity.
  abbrev false_offset : Fault → ℕ
  false_offset fault = if is_false_evidence fault then 1 else 0

  abbrev pub facts : Proposal → Fault → Stock C → Json
  facts p fault s =
      let active = live_for p.target.resource_id s.allocations in
      object (
        ("allocation_count", nat (length active + false_offset fault))
        ∷ (
          "allocated_quantity",
          nat (total active + false_offset fault * declared_quantity p.parameters),
        )
        ∷ ("inventory_on_hand", nat (on_hand (declared_sku p.parameters) s.inventory))
        ∷ ("sku", str (declared_sku p.parameters))
        ∷ [])

  -- `observe(proposal, options)`; the clock is past the first hour of its epoch.
  unfoldable pub observe : Proposal → Fault → String → Stock C → Result Evidence × Stock C
  observe p fault d s =
      let (time, clock) = now s.clock in
      (
        ok (record {
          schema_version = "consequence-rail/outcome-evidence/v0.1";
          action_digest = d;
          source = "mock-inventory-service";
          resource = record { type = "order"; id = p.target.resource_id };
          observed_at = if is_stale fault then time - 3600000 else time;
          facts = facts p fault s;
        }),
        record s { clock = clock },
      )

  -- `remediate`, once the allocation to release is chosen.
  abbrev pub undo :
      Proposal
      → String
      → String
      → Fault
      → Option Allocation
      → Stock C
      → Result ConnectorResult × Stock C
  undo p token key fault none s =
      let result = outcome ResultStatus.failed key none in
      (ok result, remember_remedy key p result s)
  undo p token key fault (some a) s =
      let result = outcome ResultStatus.remediated key (some a.allocation_id) in
      (
        respond (remedy_lost_after fault) result,
        record s {
          allocations = free_first a.allocation_id s.allocations;
          inventory = insert a.sku (on_hand a.sku s.inventory + a.quantity) s.inventory;
          remedies = remember key (action_digest p) result s.remedies;
          recourse = set_status token RecourseState.consumed (lookup token s.recourse) s.recourse;
        },
      )

  abbrev pub bound : Proposal → Stock C → Option Allocation
  bound p s =
      chosen
        (candidates p.target.resource_id (tracked_under p.idempotency_key s.tracked) s.allocations)

  abbrev pub remedy_by :
      Bool → Bool → Proposal → String → String → Fault → Stock C → Result ConnectorResult × Stock C
  remedy_by true fails p token key fault s =
      (err foreign, remember_remedy key p (outcome ResultStatus.no_effect key none) s)
  remedy_by false true p token key fault s =
      let result = outcome ResultStatus.failed key none in
      (ok result, remember_remedy key p result s)
  remedy_by false false p token key fault s = undo p token key fault (bound p s) s

  abbrev pub remedy_held :
      Bool → Proposal → String → String → Fault → Stock C → Result ConnectorResult × Stock C
  remedy_held false p token key fault s = (err (rail_error "RECOURSE_NOT_ACTIVE"), s)
  remedy_held true p token key fault s =
      remedy_by (remedy_lost_before fault) (remedy_fails fault) p token key fault s

  -- `remediate`, under a free key.
  abbrev pub remedy_new :
      Proposal → String → String → Fault → Stock C → Result ConnectorResult × Stock C
  remedy_new p token key fault s =
      remedy_held (held_active (lookup token s.recourse)) p token key fault s

  -- What `remediate` leaves where the digest of its proposal throws in `rememberRemedy`: the effects
  -- before that call. A RailError of the digesting run is thrown before it.
  abbrev pub undigested_remedy :
      Stock C → Result ConnectorResult × Stock C → Result ConnectorResult × Stock C
  undigested_remedy s (err (rail_error code), t) = (err (rail_error code), t)
  undigested_remedy s (err foreign, t) = (
    err (rail_error "CANONICALIZATION_FAILED"),
    record t { remedies = s.remedies; recourse = s.recourse },
  )
  undigested_remedy s (ok result, t) = (
    err (rail_error "CANONICALIZATION_FAILED"),
    record t { remedies = s.remedies; recourse = s.recourse },
  )

  abbrev pub remedy_if :
      Bool → Proposal → String → String → Fault → Stock C → Result ConnectorResult × Stock C
  remedy_if true p token key fault s = remedy_new p token key fault s
  remedy_if false p token key fault s = undigested_remedy s (remedy_new p token key fault s)

  -- `remediate(proposal, reservation, idempotencyKey, fault)`
  unfoldable pub remediate :
      Proposal → Reservation → String → Fault → Stock C → Result ConnectorResult × Stock C
  remediate p r key fault s =
      once (λ (t : Stock C). t.remedies) key (action_digest p) (fits p)
        (remedy_if (fits p) p r.connector_commitment.reservation_token key fault) s

  unfoldable pub capabilities : Stock C → Result Capabilities × Stock C
  capabilities s = (
    ok (record {
      connector = "mock-inventory-service";
      exclusive_credential_custody = s.exclusive_credential_custody;
      actions = "demo.inventory.allocate/v1" ∷ [];
      remedies = "release-allocation" ∷ [];
      connector_signing_key_id = signer.kid;
    }),
    s,
  )

  abbrev pub trusted_keys : Keys
  trusted_keys = (signer.kid, signer.public_key) ∷ []

  -- The connector that the orchestrator is given.
  abbrev pub connector : Connector (Stock C)
  connector = record {
    capabilities = capabilities;
    reserve_recourse = reserve_recourse;
    recourse_status = recourse_status;
    release_recourse = release_recourse;
    execute = execute;
    status = status;
    observe = observe;
    remediate = remediate;
    remedy_status = remedy_status;
  }
