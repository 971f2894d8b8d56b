-- ===== src/Examples/Witnesses.antt =====
-- The theorems at the concrete run.
use consequence_rail.Base.{
  ℕ, ◌≡◌, ◌↔◌, ◌⊎◌, ◌≤◌, ◌<◌, refl, arith, Bool, ◌&&◌, &&-true, leb, leb→le, true, false, Option,
  some, map, String, List, [], ◌∷◌, All, length, take,
}
use consequence_rail.Errors.{Result, ok, err}
use consequence_rail.State.{State, closed, Outcome, receipt_outcome, includes, allowed}
use consequence_rail.State.Order.{rank, rank-lt}
use consequence_rail.Json.{Json, str, object}
use consequence_rail.Signing.RoundTrip.{IsTrusted}
use consequence_rail.EventStore.{Event}
use consequence_rail.Signing.{signature_json, sign_artifact}
use consequence_rail.Signing.Artifact.{sign_value, verify_value, with_signature, without_signature}
use consequence_rail.Signing.Signed.{bare, checked, verify_value-sign_value}
use consequence_rail.EventStore.Append.{IsChain}
use consequence_rail.EventStore.Checkpoint.{Collision, normal_event, checkpoint_pins_history}
use consequence_rail.Postconditions.{evaluate_postcondition, Verdict}
use consequence_rail.Postconditions.Meaning.{Meets, evaluate_postcondition_iff}
use consequence_rail.Verify.{begins_with, derive_outcome, Replayed}
use consequence_rail.Verify.Replay.{IsAscending}
use consequence_rail.Verify.Derive.{derive_outcome-replay_states}
use consequence_rail.Verify.Climb.{count, replay_events-once}
use consequence_rail.Rail.World.{log_of}
use consequence_rail.Rail.History.Chain.{perform_all-IsChain}
use consequence_rail.Rail.History.Replay.{ReplaysTo, perform_all-ReplaysTo}
use consequence_rail.Rail.History.Closed.{IsVerified, perform_all-IsVerified}
use consequence_rail.Rail.Execution.{consume_permit}
use consequence_rail.Rail.Guards.{IsCleared, consume_permit-IsCleared}
use consequence_rail.Rail.Lifecycle.{close}
use consequence_rail.Rail.Receipts.{IsReceipted, close-IsReceipted}
use mathlib.Core.Bool.{true≢false}
use consequence_rail.Base.{◌≢◌, ap, ◌==◌}
use consequence_rail.Json.{Fields, obj}
use consequence_rail.Canonical.{code_units, canonical_json}
use consequence_rail.Canonical.Order.{canonical_json_comm}
use consequence_rail.Rail.World.{World, propose, empty_world}
use consequence_rail.Rail.Proposals.{IsProposed, propose-IsProposed}
use consequence_rail.Examples.{
  satisfied_session, permitted_session, runtime, signer, keys, rail, proposal, calls, action_id,
  final_world, final_record, store_after,
}

abbrev final_log : List Event
final_log = log_of action_id final_world

signer-IsTrusted : IsTrusted runtime signer keys
unfolding store_after
signer-IsTrusted = record {
  named = refl;
  known = refl;
  shaped = λ m. refl;
  canonical = λ m. refl;
  accepted = λ m. refl;
}

ascends : ℕ → List Event → Bool
ascends t [] = true
ascends t (e ∷ es) = leb t e.recorded_at && ascends e.recorded_at es

ascends_sound : (t : ℕ) (es : List Event) → ascends t es ≡ true → IsAscending t es
unfolding ascends IsAscending
ascends_sound t [] h = tt
ascends_sound t (e ∷ es) h =
    let (one, others) = &&-true (leb t e.recorded_at) _ h in
    (leb→le t e.recorded_at one, ascends_sound e.recorded_at es others)

final_log-IsAscending : IsAscending 0 final_log
unfolding store_after ascends
final_log-IsAscending = ascends_sound 0 final_log refl

perform_all-ReplaysTo_example :
    (begins_with final_record.action_digest final_log ≡ true)
    × ReplaysTo final_record.action_id final_log final_record.state
unfolding store_after
perform_all-ReplaysTo_example =
    perform_all-ReplaysTo rail calls 1 action_id final_record refl final_log-IsAscending

perform_all-IsChain_example : IsChain runtime keys final_record.action_id final_log
unfolding store_after
perform_all-IsChain_example =
    perform_all-IsChain rail keys signer-IsTrusted calls 1 action_id final_record refl

perform_all-IsVerified_example :
    IsVerified final_record.action_id final_record.action_digest final_log
unfolding store_after
perform_all-IsVerified_example =
    perform_all-IsVerified rail calls 1 action_id final_record refl final_log-IsAscending refl

abbrev final_states : List State
final_states =
    State.proposed ∷ State.authorized ∷ State.recourse_reserved ∷ State.permitted ∷ State.executing
    ∷ State.executed ∷ State.verifying ∷ State.satisfied ∷ State.closed ∷ []

derive_outcome-replay_states_example :
    (s : State) × (o : Outcome) × (includes s final_states ≡ true)
    × (receipt_outcome s ≡ some o)
    × (derive_outcome final_states ≡ ok o)
unfolding store_after
derive_outcome-replay_states_example =
    derive_outcome-replay_states final_log final_record.action_id final_record.action_digest
      final_states refl

abbrev final_replay : Replayed
final_replay = record { current = closed; previous_recorded_at = 21; states = final_states }

replay_events-once_example : ((s : State) → count s final_states ≤ 1) × (length final_states ≤ 15)
unfolding store_after
replay_events-once_example = replay_events-once final_record.action_id final_log final_replay refl

abbrev short_log : List Event
short_log = take 2 final_log

abbrev hash_text : Option String
hash_text = some "AAAAAAAAAAAAAAAAAAAAAAAAAAAAAAAAAAAAAAAAAAA"

checkpoint_pins_history_example :
    (map (normal_event runtime) (take 2 final_log) ≡ map (normal_event runtime) short_log)
    ⊎ Collision runtime
unfolding store_after
checkpoint_pins_history_example =
    checkpoint_pins_history runtime keys keys action_id action_id final_log short_log hash_text
      hash_text refl refl (omega arith) refl

abbrev facts : Json
facts = object (("status", str "refunded") ∷ [])

abbrev verdict_of : Result (Verdict runtime) → Verdict runtime
verdict_of (ok v) = v
verdict_of (err e) = record { satisfied = false; evaluations = [] }

abbrev verdict : Verdict runtime
verdict = verdict_of (evaluate_postcondition runtime proposal.postcondition facts)

evaluate_postcondition_iff_example :
    (verdict.satisfied ≡ true) ↔ All (Meets runtime facts) proposal.postcondition.clauses
unfolding store_after
evaluate_postcondition_iff_example =
    evaluate_postcondition_iff runtime facts proposal.postcondition verdict refl

abbrev signed_facts : Json
signed_facts = object (
    ("status", str "refunded")
    ∷ ("signature", signature_json (sign_artifact runtime facts signer))
    ∷ [])

verify_value-sign_value_example :
    (verify_value runtime signed_facts keys ≡ ok (checked runtime signer-IsTrusted signed_facts))
    × (bare signed_facts ≡ facts)
unfolding store_after sign_value with_signature without_signature
verify_value-sign_value_example =
    verify_value-sign_value runtime signer-IsTrusted facts signed_facts refl refl

rank-lt_example : rank State.remedy_unknown < rank State.remedy_verifying
unfolding allowed
rank-lt_example = rank-lt State.remedy_unknown State.remedy_verifying refl

consume_permit-IsCleared_example : IsCleared rail proposal permitted_session
unfolding store_after
consume_permit-IsCleared_example =
    consume_permit-IsCleared rail proposal permitted_session
      (consume_permit rail proposal permitted_session).1 refl

close-IsReceipted_example :
    (o : Outcome) × (receipt_outcome State.satisfied ≡ some o)
    × ((close rail satisfied_session).1.action.state ≡ closed)
    × IsReceipted rail o (close rail satisfied_session).1
unfolding store_after
close-IsReceipted_example =
    close-IsReceipted rail satisfied_session (close rail satisfied_session).1 refl

abbrev empty : World ℕ
empty = empty_world rail 1

propose-IsProposed_example :
    IsProposed rail proposal empty action_id (propose rail proposal empty).1
unfolding store_after
propose-IsProposed_example =
    propose-IsProposed rail proposal empty action_id (propose rail proposal empty).1 refl

keys_apart : code_units "amount" ≢ code_units "currency"
unfolding store_after
keys_apart e = true≢false (ap (λ us. length us == 6) e)

canonical_json_comm_example :
    canonical_json runtime
      (obj (Fields.field "amount" (str "5") (Fields.field "currency" (str "EUR") Fields.end)))
    ≡ canonical_json runtime
        (obj (Fields.field "currency" (str "EUR") (Fields.field "amount" (str "5") Fields.end)))
canonical_json_comm_example =
    canonical_json_comm "amount" "currency" keys_apart runtime (str "5") (str "EUR") Fields.end
