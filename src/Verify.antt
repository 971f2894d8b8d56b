-- ===== src/Verify.antt =====
-- src/verify.js: the replay of the lifecycle from the events of a bundle, and the outcome that
-- follows from it.
pub mod Bundle
pub mod Replay
pub mod Semantics
pub mod Steps
pub mod Checkpoint
pub mod Climb
pub mod Derive
use consequence_rail.Base.{
  ℕ, Bool, true, false, ◌&&◌, ◌||◌, String, str_eq, Option, none, some, List, [], ◌∷◌, ◌++◌, leb,
  ◌==◌, find_first, any_of, if◌then◌else◌,
}
use consequence_rail.Json.{Json, str, obj, own}
use consequence_rail.Errors.{Result, ok, err, rail_error, assert, ◌>>=◌, ◌>>◌}
use consequence_rail.State.{
  State, proposed, closed, remediated, satisfied, inconclusive, review_required, remedy_failed,
  remedy_inconclusive, code_of_state, same, includes, successors, Outcome, settled, compensated,
  disputed,
}
use consequence_rail.EventStore.{Event}

abbrev pub text_of : Option Json → Option String
text_of (some (str s)) = some s
text_of _ = none

-- `payload.key`, where it is a text.
unfoldable pub text_field : String → Json → Option String
unfolding own
text_field key (obj fields) = text_of (own key fields)
text_field key _ = none

-- `payload.key === text`
unfoldable pub field_is : String → Json → String → Bool
unfolding text_field
field_is key payload text = elim (text_field key payload) [ none ↦ false | some s ↦ str_eq s text ]

-- The permitted successor that `payload.to_state` names.
unfoldable pub named_successor : State → Json → Option State
unfolding successors field_is
named_successor current payload =
    find_first (λ t. field_is "to_state" payload (code_of_state t)) (successors current)

-- The variables of the loop of `replayStates`.
pub record Replayed : Type 0 where
  pub current : State
  pub previous_recorded_at : ℕ
  pub states : List State

abbrev pub semantic : Bool → Result (Unit {0})
semantic b = assert b "SEMANTIC_INVALID"

abbrev pub enter : Replayed → Option State → Result Replayed
enter r none = err (rail_error "SEMANTIC_INVALID")
enter r (some next) = ok (record r { current = next; states = r.states ++ next ∷ [] })

-- The part of a round past `continue`.
unfoldable pub replay_transition : Json → Replayed → Result Replayed
unfolding named_successor
replay_transition payload r = do
  semantic (field_is "from_state" payload (code_of_state r.current))
  enter r (named_successor r.current payload)

-- One round of the loop of `replayStates`.
unfoldable pub replay_event : String → Event → Replayed → Result Replayed
unfolding replay_transition
replay_event action_id e r = do
  semantic (str_eq e.action_id action_id)
  semantic (leb r.previous_recorded_at e.recorded_at)
  let timed = record r { previous_recorded_at = e.recorded_at }
  if str_eq e.event_type "STATE_TRANSITION" then replay_transition e.payload timed else ok timed

unfoldable pub replay_events : String → List Event → Replayed → Result Replayed
unfolding replay_event
replay_events action_id [] r = ok r
replay_events action_id (e ∷ es) r = do
  r' ← replay_event action_id e r
  replay_events action_id es r'

abbrev pub at_proposed : Replayed
at_proposed = record { current = proposed; previous_recorded_at = 0; states = proposed ∷ [] }

-- The history begins with the action.
unfoldable pub begins_with : String → List Event → Bool
unfolding field_is
begins_with action_digest [] = false
begins_with action_digest (e ∷ es) =
    str_eq e.event_type "ACTION_PROPOSED"
    && field_is "state" e.payload "PROPOSED"
    && field_is "action_digest" e.payload action_digest

-- `replayStates(events, action)`
unfoldable pub replay_states : List Event → String → String → Result (List State)
unfolding replay_events begins_with same
replay_states events action_id action_digest = do
  semantic (begins_with action_digest events)
  r ← replay_events action_id events at_proposed
  semantic (same r.current closed)
  ok r.states

-- `deriveOutcome(states)`
unfoldable pub derive_outcome : List State → Result Outcome
unfolding includes
derive_outcome states =
    if includes remediated states
    then ok compensated
    else if includes satisfied states
    then ok settled
    else if any_of
        (λ s.
          includes s (inconclusive ∷ review_required ∷ remedy_failed ∷ remedy_inconclusive ∷ []))
        states
    then ok disputed
    else err (rail_error "SEMANTIC_INVALID")

-- `stateBeforeEvent(events, targetSequence)`, from a state.
unfoldable pub state_before : List Event → ℕ → String → Option String
unfolding text_field
state_before [] target state = none
state_before (e ∷ es) target state =
    let next =
      if str_eq e.event_type "STATE_TRANSITION"
      then elim (text_field "to_state" e.payload) [ none ↦ "" | some s ↦ s ]
      else state in
    let rest = state_before es target next in if e.sequence == target then some state else rest
