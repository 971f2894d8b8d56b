-- ===== src/Rail/History/Closed.antt =====
-- A closed action's log passes the verifier's replay.
use consequence_rail.Base.{◌≡◌, refl, true, ◌∙◌, some, String, List, lookup}
use consequence_rail.Errors.{ok}
use consequence_rail.State.{State, closed, Outcome}
use consequence_rail.EventStore.{Event}
use consequence_rail.Verify.{begins_with, replay_states, derive_outcome}
use consequence_rail.Verify.Replay.{IsAscending}
use consequence_rail.Verify.Derive.{derive_outcome-replay_states}
use consequence_rail.Rail.Records.{ActionRecord}
use consequence_rail.Rail.Interface.{Rail}
use consequence_rail.Rail.World.{Call, perform_all, empty_world, log_of}
use consequence_rail.Rail.History.Replay.{ReplaysTo, perform_all-ReplaysTo}

-- The verifier replays a log to its end and derives an outcome.
pub record IsVerified (action_id digest : String) (es : List Event) : Type 0 where
  pub states : List State
  pub outcome : Outcome
  pub replayed : replay_states es action_id digest ≡ ok states
  pub derived : derive_outcome states ≡ ok outcome

replay_states-of :
    (es : List Event) (id digest : String) (s : State)
    → begins_with digest es ≡ true
    → (h : ReplaysTo id es s) → s ≡ closed
    → replay_states es id digest ≡ ok h.replayed.states
unfolding replay_states
replay_states-of es id digest s begun h e = rw (begun, h.accepted, h.reached ∙ e) refl

-- After any sequence of calls from the empty store, whatever each of them returned or threw, where an
-- action is closed and the times of its events do not go back, `replayStates` accepts its log and
-- `deriveOutcome` finds an outcome in it.
pub perform_all-IsVerified :
    {E : Type 0} (rail : Rail E) (cs : List Call) (env : E) (id : String) (r : ActionRecord)
    → lookup id (perform_all rail cs (empty_world rail env)).actions ≡ some r
    → IsAscending 0 (log_of id (perform_all rail cs (empty_world rail env)))
    → r.state ≡ closed
    → IsVerified r.action_id r.action_digest
        (log_of id (perform_all rail cs (empty_world rail env)))
perform_all-IsVerified rail cs env id r e up shut =
    let (begun, h) = perform_all-ReplaysTo rail cs env id r e up in
    let replay = replay_states-of _ r.action_id r.action_digest r.state begun h shut in
    let (s, o, _, _, derived) =
      derive_outcome-replay_states _ r.action_id r.action_digest _ replay in
    record { states = h.replayed.states; outcome = o; replayed = replay; derived = derived }
