-- ===== src/Examples/Connectors.antt =====
-- The connectors' theorems at concrete runs: an allocation that is doubled and remedied, and a refund
-- that is doubled and voided.
use consequence_rail.Base.{apart_of_test, leb→le, ℕ, ◌+◌, true, ◌≡◌, refl, arith, some, [], ◌∷◌}
use consequence_rail.Errors.{rail_error, ok, err}
use consequence_rail.Canonical.{Runtime}
use consequence_rail.Rail.Records.{
  Proposal, Parameters, ActionType, ConnectorResult, ResultStatus, RecourseState, Reservation,
  RemedyKind, Scope,
}
use consequence_rail.Rail.Interface.{Fault}
use consequence_rail.Connector.{no_bindings, status_of, once}
use consequence_rail.Refund.{Ledger, create_refund, settle_refund, execute_refund, void_last}
use consequence_rail.Refund as Refund
use consequence_rail.Refund.Status.{IsTruthful, execute_refund-IsTruthful}
use consequence_rail.Refund.Idempotency.{execute_refund-again}
use consequence_rail.Refund.Restored.{new_ledger, declares, remediate-restores}
use consequence_rail.Refund.Remedy.{VoidsAtMostOne, remediate-VoidsAtMostOne}
use consequence_rail.Rail.Validate.{max_safe_integer}
use consequence_rail.Inventory.{
  fits, is_named, Stock, on_hand, free_first, candidates, create_allocation, after_duplicate,
  settle_allocation, execute, remediate,
}
use consequence_rail.Inventory.Conservation.Operations.{
  Operation, level, operate_all, operate_all-conserves,
}
use consequence_rail.Inventory.Idempotency.{execute-again, remediate-again}
use consequence_rail.Inventory.Refusal.{IsRefusedLate, execute-refuses, execute-refuses_late}
use consequence_rail.Inventory.Remedy.{FreesAtMostOne, remediate-FreesAtMostOne}
use consequence_rail.Inventory.Spent.{remediate-once}
use consequence_rail.Examples.{
  runtime, signer, proposal, commitment, request, digest_text, connector_signature, store_after,
}

-- The clock ticks at every reading.
abbrev tick : ℕ → ℕ × ℕ
tick t = (t, t + 1)

abbrev no_refunds : Ledger ℕ
no_refunds = record {
  clock = 0;
  exclusive_credential_custody = true;
  refunds = [];
  recourse = ("token", record { expires_at = 100; status = RecourseState.active }) ∷ [];
  executions = no_bindings;
  remedies = no_bindings;
}

abbrev executed_once : Ledger ℕ
executed_once = (execute_refund runtime signer tick proposal "key" Fault.duplicate no_refunds).1

abbrev executed_result : ConnectorResult
executed_result = record {
  status = ResultStatus.executed;
  idempotency_key = "key";
  external_id = some "rf_0";
}

execute_refund-again_example :
    execute_refund runtime signer tick proposal "key" Fault.none executed_once
    ≡ (ok executed_result, executed_once)
unfolding store_after execute_refund once settle_refund Refund.fits
execute_refund-again_example =
    execute_refund-again runtime signer tick proposal "key" Fault.duplicate Fault.none
      executed_result no_refunds executed_once refl

execute_refund-IsTruthful_example :
    IsTruthful runtime signer tick "key" no_refunds
      (execute_refund runtime signer tick proposal "key" Fault.lost_response_after_commit
        no_refunds).1
unfolding store_after Refund.fits
execute_refund-IsTruthful_example =
    execute_refund-IsTruthful runtime signer tick proposal "key" Fault.lost_response_after_commit
      no_refunds refl refl refl

abbrev reservation : Reservation
reservation = record {
  action_digest = digest_text;
  kind = RemedyKind.reverse;
  connector = "bank";
  capability = "void-duplicate-refund";
  capability_reference_digest = digest_text;
  expires_at = 100;
  remedy_window_seconds = 60;
  max_attempts = 1;
  scope = Scope.max_amount_minor 500;
  idempotency_key_digest = digest_text;
  connector_commitment = commitment request;
  reservation_id = "res";
  reserved_at = 0;
  signature = connector_signature;
}

remediate-VoidsAtMostOne_example :
    VoidsAtMostOne runtime signer tick proposal "token" executed_once
      (Refund.remediate runtime signer tick proposal reservation "remedy" Fault.none
        executed_once).1
remediate-VoidsAtMostOne_example =
    remediate-VoidsAtMostOne runtime signer tick proposal reservation "remedy" Fault.none
      executed_once

remediate-restores_example :
    Refund.facts runtime signer tick
      (declares runtime signer tick proposal 7 "USD")
      Fault.none
      (Refund.remediate runtime signer tick
        (declares runtime signer tick proposal 7 "USD")
        reservation
        "remedy"
        Fault.none
        (execute_refund runtime signer tick
          (declares runtime signer tick proposal 7 "USD")
          "key"
          Fault.duplicate
          (new_ledger 0 no_refunds.recourse)).1).1
    ≡ Refund.facts runtime signer tick
        (declares runtime signer tick proposal 7 "USD")
        Fault.none
        (execute_refund runtime signer tick
          (declares runtime signer tick proposal 7 "USD")
          "key"
          Fault.none
          (new_ledger 0 no_refunds.recourse)).1
unfolding store_after
remediate-restores_example =
    remediate-restores runtime signer tick proposal 7 "USD" "key" "remedy" reservation Fault.none 0
      no_refunds.recourse refl refl refl

-- A runtime whose digests tell the allocations apart.
abbrev plain : Runtime
plain = record runtime { sha256 = λ s. s }

abbrev order : Proposal
order = record proposal {
  action_type = ActionType.allocation;
  parameters = Parameters.allocation_parameters "sku_demo_1" 4;
}

-- A warehouse with so many items, and an active reservation.
abbrev shelf : ℕ → Stock ℕ
shelf n = record {
  clock = 0;
  exclusive_credential_custody = true;
  allocations = [];
  inventory = ("sku_demo_1", n) ∷ [];
  tracked = [];
  recourse = ("token", record { expires_at = 100; status = RecourseState.active }) ∷ [];
  executions = no_bindings;
  remedies = no_bindings;
}

abbrev doubled : Stock ℕ
doubled = (execute plain signer tick order "key" Fault.duplicate (shelf 25)).1

abbrev allocated_result : ConnectorResult
allocated_result = record {
  status = ResultStatus.executed;
  idempotency_key = "key";
  external_id = some "alloc_o:key:primary";
}

doubled_on_hand : on_hand "sku_demo_1" doubled.inventory ≡ 17
unfolding store_after execute once settle_allocation after_duplicate create_allocation on_hand fits
    is_named
doubled_on_hand = refl

execute-again_example :
    execute plain signer tick order "key" Fault.none doubled ≡ (ok allocated_result, doubled)
unfolding store_after execute once settle_allocation after_duplicate create_allocation on_hand fits
    is_named
execute-again_example =
    execute-again plain signer tick order "key" Fault.duplicate Fault.none allocated_result
      (shelf 25) doubled refl

abbrev remedied : Stock ℕ
remedied = (remediate plain signer tick order reservation "remedy" Fault.none doubled).1

remedied_on_hand : on_hand "sku_demo_1" remedied.inventory ≡ 21
unfolding store_after execute once settle_allocation after_duplicate create_allocation on_hand fits
    is_named remediate candidates free_first
remedied_on_hand = refl

abbrev freed_result : ConnectorResult
freed_result = record {
  status = ResultStatus.remediated;
  idempotency_key = "remedy";
  external_id = some "alloc_o:key:duplicate";
}

remediate-again_example :
    remediate plain signer tick order reservation "remedy" Fault.remedy_failure remedied
    ≡ (ok freed_result, remedied)
unfolding store_after execute once settle_allocation after_duplicate create_allocation on_hand fits
    is_named remediate candidates free_first
remediate-again_example =
    remediate-again plain signer tick order reservation "remedy" Fault.none Fault.remedy_failure
      freed_result doubled remedied refl

remediate-FreesAtMostOne_example : FreesAtMostOne plain signer tick order "token" doubled remedied
remediate-FreesAtMostOne_example =
    remediate-FreesAtMostOne plain signer tick order reservation "remedy" Fault.none doubled

remediate-once_example :
    remediate plain signer tick order reservation "again" Fault.none remedied
    ≡ (err (rail_error "RECOURSE_NOT_ACTIVE"), remedied)
unfolding store_after execute once settle_allocation after_duplicate create_allocation on_hand fits
    is_named remediate candidates free_first status_of
remediate-once_example =
    remediate-once plain signer tick order order reservation "remedy" "again" Fault.none Fault.none
      doubled refl refl refl refl

operate_all-conserves_example :
    level "sku_demo_1" (
      operate_all plain signer tick
        (Operation.runs order "key" Fault.duplicate
          ∷ Operation.undo order reservation "remedy" Fault.none
          ∷ [])
        (shelf 25))
    ≡ level "sku_demo_1" (shelf 25)
unfolding store_after is_named
operate_all-conserves_example =
    operate_all-conserves plain signer tick "sku_demo_1"
      (Operation.runs order "key" Fault.duplicate
        ∷ Operation.undo order reservation "remedy" Fault.none
        ∷ [])
      (shelf 25) ((refl, refl), (tt, tt))

execute-refuses_example : (execute plain signer tick order "key" Fault.none (shelf 3)).1 ≡ shelf 3
unfolding store_after execute once settle_allocation after_duplicate create_allocation on_hand fits
    is_named
execute-refuses_example =
    execute-refuses plain signer tick order "key" "INVENTORY_INSUFFICIENT" Fault.none (shelf 3)
      (execute plain signer tick order "key" Fault.none (shelf 3)).1 refl (apart_of_test _ _ refl)
      refl

execute-refuses_late_example :
    IsRefusedLate plain signer tick "key"
      (shelf 6)
      (execute plain signer tick order "key" Fault.duplicate (shelf 6))
unfolding store_after on_hand fits is_named
execute-refuses_late_example =
    execute-refuses_late plain signer tick order "key" "sku_demo_1" 4 Fault.duplicate (shelf 6) refl
      refl refl refl refl (omega arith) (leb→le 4 max_safe_integer refl) (omega arith) (omega arith)
