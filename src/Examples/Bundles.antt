-- ===== src/Examples/Bundles.antt =====
-- The bundle of the concrete run: it is exported, and the verifier accepts it.
use mathlib.Core.Bool.{true≢false}
use consequence_rail.Signing.{Keys}
use consequence_rail.Base.{
  ℕ, Bool, true, false, sym, ◌≡◌, ◌⊎◌, refl, arith, some, List, [], ◌∷◌, length, lookup, take, map,
  ◌-◌,
}
use consequence_rail.Errors.{Result, rail_error, ok, err, assert_each}
use consequence_rail.State.{Outcome}
use consequence_rail.EventStore.{Event, ChainSummary, verify_event_chain}
use consequence_rail.EventStore.Checkpoint.{Collision, normal_event}
use consequence_rail.Rail.Export.{export_bundle}
use consequence_rail.Rail.World.{log_of, World, perform_all, empty_world, new_record}
use consequence_rail.Verify.{state_before}
use consequence_rail.Verify.Bundle.{
  Bundle, Profile, same_texts, verify_evidence, check_bindings, verify_integrity,
}
use consequence_rail.Verify.Bundle.Pinned.{IsSamePast, verify_integrity-IsSamePast}
use consequence_rail.Verify.Checkpoint.{ChainCheckpoint, verify_chain_checkpoint, verify_by_profile}
use consequence_rail.Verify.Checkpoint.Extended.{verify_chain_checkpoint-extends}
use consequence_rail.Json.{object, str}
use consequence_rail.Rail.Interface.{Rail}
use consequence_rail.Rail.Records.{ActionRecord}
use consequence_rail.Verify.Semantics.{
  SemanticVerification, supports, flag_is, verify_evidence_semantics, verify_all_evidence,
  check_finalization, verify_semantics, verify_bundle,
}
use consequence_rail.Verify.Semantics.Settled.{IsMet, verify_bundle-IsMet}
use consequence_rail.Examples.{
  runtime, rail, keys, proposal, action_id, digest_text, connector, evidence, calls, record_or,
  final_world, final_record, store_after,
}

abbrev returned : {A : Type 0} → Result A → Bool
returned (ok a) = true
returned (err e) = false

abbrev value_of : {A : Type 0} (r : Result A) → returned r ≡ true → A
value_of (ok a) h = a
value_of (err e) h = absurd (true≢false (sym h))

abbrev bundle : Bundle
unfolding store_after export_bundle
bundle =
    value_of
      (export_bundle runtime Profile.audit_profile final_record (log_of action_id final_world)) refl

abbrev connector_keys : Keys
connector_keys = ("c", "q") ∷ []

abbrev verification : ChainSummary runtime × SemanticVerification
verification = (
  record { event_count = length bundle.events; chain_head = some digest_text },
  record { derived_outcome = Outcome.settled; evidence_count = 1 },
)

accepted : verify_bundle runtime keys connector_keys bundle ≡ ok verification
unfolding store_after export_bundle verify_bundle verify_integrity verify_event_chain
    verify_evidence check_bindings same_texts assert_each verify_semantics verify_all_evidence
    verify_evidence_semantics check_finalization supports flag_is state_before
accepted = refl

-- The same run with evidence that does not report the refund's currency: the orchestrator settles the
-- action, and the verifier refuses its bundle.
abbrev quiet_rail : Rail ℕ
quiet_rail = record rail {
  connector = record connector {
    observe = λ p fault d t.
        (ok (record (evidence t p d) { facts = object (("status", str "refunded") ∷ []) }), t);
  };
}

abbrev quiet_world : World ℕ
quiet_world = perform_all quiet_rail calls (empty_world quiet_rail 1)

abbrev quiet_record : ActionRecord
quiet_record = record_or (lookup action_id quiet_world.actions) (new_record quiet_rail "" proposal)

abbrev quiet_bundle : Bundle
unfolding store_after export_bundle
quiet_bundle =
    value_of
      (export_bundle runtime Profile.audit_profile quiet_record (log_of action_id quiet_world)) refl

quiet_settled : quiet_bundle.settlement_receipt.outcome ≡ Outcome.settled
unfolding store_after export_bundle
quiet_settled = refl

quiet_intact :
    verify_integrity runtime keys connector_keys quiet_bundle
    ≡ ok (record { event_count = length quiet_bundle.events; chain_head = some digest_text })
unfolding store_after export_bundle verify_bundle verify_integrity verify_event_chain
    verify_evidence check_bindings same_texts assert_each verify_semantics verify_all_evidence
    verify_evidence_semantics check_finalization supports flag_is state_before
quiet_intact = refl

quiet_refused :
    verify_bundle runtime keys connector_keys quiet_bundle ≡ err (rail_error "SEMANTIC_INVALID")
unfolding store_after export_bundle verify_bundle verify_integrity verify_event_chain
    verify_evidence check_bindings same_texts assert_each verify_semantics verify_all_evidence
    verify_evidence_semantics check_finalization supports flag_is state_before
quiet_refused = refl

verify_bundle-IsMet_example : IsMet runtime bundle proposal
unfolding store_after export_bundle
verify_bundle-IsMet_example =
    verify_bundle-IsMet runtime keys connector_keys bundle proposal verification accepted refl refl

intact : verify_integrity runtime keys connector_keys bundle ≡ ok verification.0
unfolding store_after export_bundle verify_bundle verify_integrity verify_event_chain
    verify_evidence check_bindings same_texts assert_each verify_semantics verify_all_evidence
    verify_evidence_semantics check_finalization supports flag_is state_before
intact = refl

verify_integrity-IsSamePast_example : IsSamePast runtime bundle bundle ⊎ Collision runtime
verify_integrity-IsSamePast_example =
    verify_integrity-IsSamePast runtime keys connector_keys keys connector_keys bundle bundle
      verification.0 verification.0 intact intact refl refl

abbrev checkpoint : ChainCheckpoint
checkpoint = record { event_count = 3; event_chain_head = digest_text }

abbrev recorded_history : List Event
recorded_history = take 3 bundle.events

verify_chain_checkpoint-extends_example :
    (map (normal_event runtime) (take (length recorded_history) bundle.events)
      ≡ map (normal_event runtime) recorded_history)
    ⊎ Collision runtime
unfolding store_after export_bundle verify_bundle verify_integrity verify_event_chain
    verify_evidence check_bindings same_texts assert_each verify_semantics verify_all_evidence
    verify_evidence_semantics check_finalization supports flag_is state_before
    verify_chain_checkpoint verify_by_profile
verify_chain_checkpoint-extends_example =
    verify_chain_checkpoint-extends runtime keys connector_keys keys bundle checkpoint
      (record {
        event_count = 3;
        event_chain_head = digest_text;
        events_after_checkpoint = length bundle.events - 3;
      })
      action_id recorded_history refl refl refl (omega arith)
