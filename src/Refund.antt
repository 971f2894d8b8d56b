-- ===== src/Refund.antt =====
-- src/mock-refund-connector.js: the refund processor's ledger. An effect is bound to the idempotency
-- key of the call that made it. The clock is a state of its own.
pub mod Idempotency
pub mod Remedy
pub mod Restored
pub mod Status
use Prim.Native.String.{◌++◌}
use mathlib.Core.List.{◌++◌ as append}
use consequence_rail.Base.{
  ℕ, suc, ◌+◌, ◌-◌, ◌*◌, Bool, true, false, not, ◌&&◌, String, str_eq, Option, none, some, List, [],
  ◌∷◌, leb, length, last?, keep, any_of, is_some, Dict, lookup, insert, if◌then◌else◌,
}
use consequence_rail.Json.{Json, str, nat, object, pos}
use consequence_rail.Canonical.{Runtime, digest, representable}
use consequence_rail.Errors.{rail_error, foreign, Result, ok, err}
use consequence_rail.Signing.{Signer, Keys}
use consequence_rail.Rail.Records.{
  Proposal, Parameters, refund_parameters, ActionType, Request, Scope, max_amount_minor,
  ConnectorResult, ResultStatus, RecourseState, RecourseStatus, Commitment, Reservation, Evidence,
}
use consequence_rail.Rail.Interface.{Fault, Capabilities, Connector}
use consequence_rail.Rail.Encode.{proposal_json}
use consequence_rail.Connector.{
  Bindings, Held, outcome, remember, once, status_of, status_text, expire_at, release, held_active,
  set_status, commit, is_doubling, is_lost_before, is_lost_after, is_stale, is_false_evidence,
  remedy_fails, is_counted, remedy_lost_before, remedy_lost_after,
}

pub record Refund : Type 0 where
  pub refund_id : String
  pub order_id : String
  pub amount_minor : ℕ
  pub currency : String
  pub voided_at : Option ℕ
  pub created_at : ℕ
  pub synthetic_reference : String
  pub execution_key : String

-- `refund.status === "active"`: a voided refund has the time at which it was voided.
abbrev pub is_unvoided : Refund → Bool
is_unvoided r = not (is_some r.voided_at)

pub record Ledger (C : Type 0) : Type 0 where
  pub clock : C
  pub exclusive_credential_custody : Bool
  pub refunds : List Refund
  pub recourse : Dict Held
  pub executions : Bindings
  pub remedies : Bindings

-- `active` in `observe`
abbrev pub active_for : String → List Refund → List Refund
active_for order = keep (λ (r : Refund). str_eq r.order_id order && is_unvoided r)

abbrev pub total : List Refund → ℕ
total [] = 0
total (r ∷ rest) = r.amount_minor + total rest

-- The filter of `active` in `remediate`
abbrev pub is_own : Proposal → Refund → Bool
is_own p r =
    str_eq r.order_id p.target.resource_id
    && (is_unvoided r && str_eq r.execution_key p.idempotency_key)

-- `active.at(-1)` of a filter, voided in place.
unfoldable pub void_last : (Refund → Bool) → ℕ → List Refund → List Refund
void_last test time [] = []
void_last test time (r ∷ rest) =
    let later = void_last test time rest in
    if any_of test rest
    then r ∷ later
    else if test r
    then record r { voided_at = some time } ∷ rest
    else r ∷ rest

abbrev declared_amount : Parameters → ℕ
declared_amount (refund_parameters amount currency) = amount
declared_amount _ = 0

abbrev declared_currency : Parameters → String
declared_currency (refund_parameters amount currency) = currency
declared_currency _ = ""

module _ {C : Type 0} (rt : Runtime) (signer : Signer) (now : C → ℕ × C) where
  abbrev pub action_digest : Proposal → String
  action_digest p = digest rt (proposal_json rt p)

  abbrev pub remember_execution : String → Proposal → ConnectorResult → Ledger C → Ledger C
  remember_execution key p result s = record s {
    executions = remember key (action_digest p) result s.executions;
  }

  abbrev pub remember_remedy : String → Proposal → ConnectorResult → Ledger C → Ledger C
  remember_remedy key p result s = record s {
    remedies = remember key (action_digest p) result s.remedies;
  }

  -- Whether the proposal has a digest.
  unfoldable pub fits : Proposal → Bool
  fits p = representable (proposal_json rt p)

  abbrev new_refund : Proposal → ℕ → String → String → ℕ → ℕ → Refund
  new_refund p amount currency reference count time = record {
    refund_id = "rf_" ++ rt.stringify_number (pos (suc count));
    order_id = p.target.resource_id;
    amount_minor = amount;
    currency = currency;
    voided_at = none;
    created_at = time;
    synthetic_reference = reference;
    execution_key = p.idempotency_key;
  }

  abbrev pub issue : Proposal → Bool → ℕ → String → String → Ledger C → Result Refund × Ledger C
  issue p false amount currency reference s = (err (rail_error "REFUND_AMOUNT_INVALID"), s)
  issue p true amount currency reference s =
      let (time, clock) = now s.clock in
      let refund = new_refund p amount currency reference (length s.refunds) time in
      (ok refund, record s { clock = clock; refunds = append s.refunds (refund ∷ []) })

  -- `createRefund(proposal, suffix)`
  unfoldable pub create_refund :
      Proposal → Parameters → String → Ledger C → Result Refund × Ledger C
  create_refund p (refund_parameters amount currency) reference s =
      issue p (is_counted amount) amount currency reference s
  create_refund p _ reference s = (err (rail_error "REFUND_AMOUNT_INVALID"), s)

  abbrev pub respond : Bool → ConnectorResult → Result ConnectorResult
  respond lost result = if lost then err foreign else ok result

  -- `execute`, once the refund is created. The second refund has the amount of the first, so its
  -- creation does not throw.
  unfoldable pub settle_refund :
      Proposal → String → Fault → Result Refund × Ledger C → Result ConnectorResult × Ledger C
  unfolding create_refund
  settle_refund p key fault (err e, s) = (err e, s)
  settle_refund p key fault (ok refund, s) =
      let result = outcome ResultStatus.executed key (some refund.refund_id) in
      let s' = remember_execution key p result s in
      let s'' =
        if is_doubling fault
        then (create_refund p p.parameters (key ++ ":duplicate") s').1
        else s' in
      (respond (is_lost_after fault) result, s'')

  abbrev pub execute_new :
      Proposal → String → Fault → Bool → Ledger C → Result ConnectorResult × Ledger C
  execute_new p key fault true s =
      (err foreign, remember_execution key p (outcome ResultStatus.no_effect key none) s)
  execute_new p key fault false s =
      settle_refund p key fault (create_refund p p.parameters (key ++ ":primary") s)

  -- `execute` of a proposal that has no digest: `rememberExecution` throws, after the primary refund.
  abbrev pub unsettled : Result Refund × Ledger C → Result ConnectorResult × Ledger C
  unsettled (err e, s) = (err e, s)
  unsettled (ok refund, s) = (err (rail_error "CANONICALIZATION_FAILED"), s)

  abbrev pub execute_undigested :
      Proposal → String → Bool → Ledger C → Result ConnectorResult × Ledger C
  execute_undigested p key true s = (err (rail_error "CANONICALIZATION_FAILED"), s)
  execute_undigested p key false s = unsettled (create_refund p p.parameters (key ++ ":primary") s)

  abbrev pub execute_by :
      Bool → Proposal → String → Fault → Ledger C → Result ConnectorResult × Ledger C
  execute_by true p key fault s = execute_new p key fault (is_lost_before fault) s
  execute_by false p key fault s = execute_undigested p key (is_lost_before fault) s

  -- `execute(proposal, idempotencyKey, fault)`
  unfoldable pub execute_refund :
      Proposal → String → Fault → Ledger C → Result ConnectorResult × Ledger C
  execute_refund p key fault s =
      once (λ (t : Ledger C). t.executions) key (action_digest p) (fits p)
        (execute_by (fits p) p key fault) s

  -- `status(idempotencyKey)` and `remedyStatus(idempotencyKey)`
  unfoldable pub execution_status : String → Ledger C → Result ConnectorResult × Ledger C
  execution_status key s = (ok (status_of key s.executions), s)

  unfoldable pub remedy_status : String → Ledger C → Result ConnectorResult × Ledger C
  remedy_status key s = (ok (status_of key s.remedies), s)

  -- `reserveRecourse`, past its guards.
  abbrev pub hold : Request → Ledger C → Result Commitment × Ledger C
  hold q s =
      let (time, clock) = now s.clock in
      let c = commit rt signer "mock-refund-processor" q time in
      (
        ok c,
        record s {
          clock = clock;
          recourse =
              insert c.reservation_token
                (record { expires_at = c.expires_at; status = RecourseState.active }) s.recourse;
        },
      )

  abbrev offers : Request → Bool
  offers q =
      str_eq q.capability "void-duplicate-refund" && str_eq q.connector "mock-refund-processor"

  abbrev is_refund : ActionType → Bool
  is_refund ActionType.refund = true
  is_refund _ = false

  -- Whether the scope covers the declared amount; another scope or another kind of parameters has no
  -- integer minor amount.
  abbrev pub suffices : Scope → Parameters → Bool
  suffices (max_amount_minor m) (refund_parameters amount currency) = leb amount m
  suffices _ _ = false

  abbrev pub reserve_by : Bool → Bool → Request → Ledger C → Result Commitment × Ledger C
  reserve_by false covered q s = (err (rail_error "RECOURSE_UNAVAILABLE"), s)
  reserve_by true false q s = (err (rail_error "RECOURSE_SCOPE_INSUFFICIENT"), s)
  reserve_by true true q s = hold q s

  -- `reserveRecourse(proposal, request)`
  unfoldable pub reserve_recourse : Proposal → Request → Ledger C → Result Commitment × Ledger C
  reserve_recourse p q s =
      reserve_by (offers q && is_refund p.action_type) (suffices q.scope p.parameters) q s

  -- `recourseStatus`: the clock is read only for an active reservation.
  abbrev pub status_at : Bool → String → Ledger C → Result RecourseStatus × Ledger C
  status_at false token s = (ok (status_text token (lookup token s.recourse)), s)
  status_at true token s =
      let (time, clock) = now s.clock in
      let held = expire_at time token (lookup token s.recourse) s.recourse in
      (ok (status_text token (lookup token held)), record s { clock = clock; recourse = held })

  unfoldable pub recourse_status : String → Ledger C → Result RecourseStatus × Ledger C
  recourse_status token s = status_at (held_active (lookup token s.recourse)) token s

  unfoldable pub release_recourse : String → Ledger C → Result (Unit {0}) × Ledger C
  release_recourse token s =
      (ok tt, record s { recourse = release token (lookup token s.recourse) s.recourse })

  -- The offset of a false observation. A proposal that the orchestrator admits here declares an amount
  -- and a currency.
  abbrev false_offset : Fault → ℕ
  false_offset fault = if is_false_evidence fault then 1 else 0

  abbrev pub facts : Proposal → Fault → Ledger C → Json
  facts p fault s =
      let active = active_for p.target.resource_id s.refunds in
      object (
        ("active_refund_count", nat (length active + false_offset fault))
        ∷ (
          "net_refunded_minor",
          nat (total active + false_offset fault * declared_amount p.parameters),
        )
        ∷ ("currency", str (declared_currency p.parameters))
        ∷ [])

  -- `observe(proposal, options)`; the clock is past the first hour of its epoch.
  unfoldable pub observe : Proposal → Fault → String → Ledger C → Result Evidence × Ledger C
  observe p fault d s =
      let (time, clock) = now s.clock in
      (
        ok (record {
          schema_version = "consequence-rail/outcome-evidence/v0.1";
          action_digest = d;
          source = "mock-refund-processor";
          resource = record { type = "order"; id = p.target.resource_id };
          observed_at = if is_stale fault then time - 3600000 else time;
          facts = facts p fault s;
        }),
        record s { clock = clock },
      )

  -- The end of `remediate`: whether there are two refunds to choose from, and the last of them.
  abbrev pub void :
      Bool
      → Proposal
      → String
      → String
      → Fault
      → Option Refund
      → Ledger C
      → Result ConnectorResult × Ledger C
  void true p token key fault (some r) s =
      let (time, clock) = now s.clock in
      let result = outcome ResultStatus.remediated key (some r.refund_id) in
      (
        respond (remedy_lost_after fault) result,
        record s {
          clock = clock;
          refunds = void_last (is_own p) time s.refunds;
          remedies = remember key (action_digest p) result s.remedies;
          recourse = set_status token RecourseState.consumed (lookup token s.recourse) s.recourse;
        },
      )
  void _ p token key fault _ s =
      let result = outcome ResultStatus.no_change key none in
      (ok result, remember_remedy key p result s)

  abbrev pub void_duplicate :
      Bool → Proposal → String → String → Fault → Ledger C → Result ConnectorResult × Ledger C
  void_duplicate false p token key fault s = (err (rail_error "REMEDY_UNSUPPORTED"), s)
  void_duplicate true p token key fault s =
      let active = keep (is_own p) s.refunds in
      void (leb 2 (length active)) p token key fault (last? active) s

  abbrev pub remedy_by :
      Bool
      → Bool
      → Proposal
      → Reservation
      → String
      → Fault
      → Ledger C
      → Result ConnectorResult × Ledger C
  remedy_by true fails p r key fault s =
      (err foreign, remember_remedy key p (outcome ResultStatus.no_effect key none) s)
  remedy_by false true p r key fault s =
      let result = outcome ResultStatus.failed key none in
      (ok result, remember_remedy key p result s)
  remedy_by false false p r key fault s =
      void_duplicate (str_eq r.capability "void-duplicate-refund") p
        r.connector_commitment.reservation_token key fault s

  abbrev pub remedy_held :
      Bool → Proposal → Reservation → String → Fault → Ledger C → Result ConnectorResult × Ledger C
  remedy_held false p r key fault s = (err (rail_error "RECOURSE_NOT_ACTIVE"), s)
  remedy_held true p r key fault s =
      remedy_by (remedy_lost_before fault) (remedy_fails fault) p r key fault s

  -- `remediate`, under a free key.
  abbrev pub remedy_new :
      Proposal → Reservation → String → Fault → Ledger C → Result ConnectorResult × Ledger C
  remedy_new p r key fault s =
      remedy_held (held_active (lookup r.connector_commitment.reservation_token s.recourse)) p r key
        fault s

  -- What `remediate` leaves where the digest of its proposal throws in `rememberRemedy`: the effects
  -- before that call. A RailError of the digesting run is thrown before it.
  abbrev pub undigested_remedy :
      Ledger C → Result ConnectorResult × Ledger C → Result ConnectorResult × Ledger C
  undigested_remedy s (err (rail_error code), t) = (err (rail_error code), t)
  undigested_remedy s (err foreign, t) = (
    err (rail_error "CANONICALIZATION_FAILED"),
    record t { remedies = s.remedies; recourse = s.recourse },
  )
  undigested_remedy s (ok result, t) = (
    err (rail_error "CANONICALIZATION_FAILED"),
    record t { remedies = s.remedies; recourse = s.recourse },
  )

  abbrev pub remedy_if :
      Bool → Proposal → Reservation → String → Fault → Ledger C → Result ConnectorResult × Ledger C
  remedy_if true p r key fault s = remedy_new p r key fault s
  remedy_if false p r key fault s = undigested_remedy s (remedy_new p r key fault s)

  -- `remediate(proposal, reservation, idempotencyKey, fault)`
  unfoldable pub remediate :
      Proposal → Reservation → String → Fault → Ledger C → Result ConnectorResult × Ledger C
  remediate p r key fault s =
      once (λ (t : Ledger C). t.remedies) key (action_digest p) (fits p)
        (remedy_if (fits p) p r key fault) s

  unfoldable pub capabilities : Ledger C → Result Capabilities × Ledger C
  capabilities s = (
    ok (record {
      connector = "mock-refund-processor";
      exclusive_credential_custody = s.exclusive_credential_custody;
      actions = "demo.refund.issue/v1" ∷ [];
      remedies = "void-duplicate-refund" ∷ [];
      connector_signing_key_id = signer.kid;
    }),
    s,
  )

  abbrev pub trusted_keys : Keys
  trusted_keys = (signer.kid, signer.public_key) ∷ []

  -- The connector that the orchestrator is given.
  abbrev pub connector : Connector (Ledger C)
  connector = record {
    capabilities = capabilities;
    reserve_recourse = reserve_recourse;
    recourse_status = recourse_status;
    release_recourse = release_recourse;
    execute = execute_refund;
    status = execution_status;
    observe = observe;
    remediate = remediate;
    remedy_status = remedy_status;
  }
