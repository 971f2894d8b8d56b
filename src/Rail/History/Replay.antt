-- ===== src/Rail/History/Replay.antt =====
-- The log of every action replays to the state of its record.
use text.Mathlib.TextPositions.{eq_refl}
use consequence_rail.Base.{
  ℕ, ◌≡◌, refl, true, false, some, String, str_eq, List, [], ◌∷◌, ◌++◌, lookup, eq_iff,
}
use consequence_rail.Errors.{ok}
use consequence_rail.State.{State, proposed, allowed, code_of_state}
use consequence_rail.EventStore.{Event, append}
use consequence_rail.Verify.{
  Replayed, at_proposed, replay_events, begins_with, text_field, field_is,
}
use consequence_rail.Verify.Replay.{
  IsAscending, IsAscending-init, replay_events-append, replay_events-time, replay_event-plain,
  replay_event-transition,
}
use consequence_rail.Rail.Records.{ActionRecord, Proposal}
use consequence_rail.Rail.Interface.{Rail}
use consequence_rail.Rail.Session.{Session}
use consequence_rail.Rail.Session.Keeps.{Stable, is_transition_type}
use consequence_rail.Rail.World.{Call, perform_all, empty_world, log_of, new_record}
use consequence_rail.Rail.Stable.Calls.{founding, perform_all-Everywhere}
use consequence_rail.Rail.Stable.Commands.{Everywhere}

-- The replay of a log ends in a state.
pub record ReplaysTo (action_id : String) (es : List Event) (s : State) : Type 0 where
  pub replayed : Replayed
  pub accepted : replay_events action_id es at_proposed ≡ ok replayed
  pub reached : replayed.current ≡ s

-- The log begins with the action, and replays to a state if its times ascend.
pub record IsHistory (r : ActionRecord) (es : List Event) : Type 0 where
  pub begun : begins_with r.action_digest es ≡ true
  pub replays : IsAscending 0 es → ReplaysTo r.action_id es r.state

begins_with-append :
    (d : String) (es fs : List Event) → begins_with d es ≡ true → begins_with d (es ++ fs) ≡ true
unfolding begins_with
begins_with-append d [] fs h = cc
begins_with-append d (e ∷ es) fs h = h

module _ (id : String) (es : List Event) (e : Event) (mine : e.action_id ≡ id)
    (up : IsAscending 0 (es ++ e ∷ [])) where
  own_id : str_eq e.action_id id ≡ true
  own_id = (eq_iff e.action_id id).1 mine

  ReplaysTo-plain :
      (s : State)
      → is_transition_type e.event_type ≡ false
      → ReplaysTo id es s
      → ReplaysTo id (es ++ e ∷ []) s
  ReplaysTo-plain s plain h =
      let le = replay_events-time id es e at_proposed h.replayed h.accepted up in
      record {
        replayed = record h.replayed { previous_recorded_at = e.recorded_at };
        accepted =
            replay_events-append id es e at_proposed h.replayed _ h.accepted
              (replay_event-plain id e h.replayed own_id le plain);
        reached = h.reached;
      }

  ReplaysTo-transition :
      (s t : State)
      → is_transition_type e.event_type ≡ true
      → allowed s t ≡ true
      → text_field "from_state" e.payload ≡ some (code_of_state s)
      → text_field "to_state" e.payload ≡ some (code_of_state t)
      → ReplaysTo id es s
      → ReplaysTo id (es ++ e ∷ []) t
  ReplaysTo-transition s t moves legal from to h =
      let le = replay_events-time id es e at_proposed h.replayed h.accepted up in
      record {
        replayed = record {
          current = t;
          previous_recorded_at = e.recorded_at;
          states = h.replayed.states ++ t ∷ [];
        };
        accepted = replay_events-append id es e at_proposed h.replayed _ h.accepted (
            replay_event-transition id e h.replayed t own_id le moves (rw h.reached legal)
              (rw h.reached from) to);
        reached = refl;
      }

module _ {E : Type 0} (rail : Rail E) where
  abbrev Replayable : Session E → Type 0
  Replayable s = IsHistory s.action s.events

  Replayable-Stable : Stable rail Replayable
  unfolding append text_field
  Replayable-Stable = record {
    outside = λ s e h. h;
    field = λ s f h. record { begun = h.begun; replays = h.replays };
    event = λ s event_type actor payload now plain h. record {
      begun = begins_with-append s.action.action_digest s.events _ h.begun;
      replays = λ up.
          ReplaysTo-plain s.action.action_id s.events _ refl up s.action.state plain
            (h.replays (IsAscending-init 0 s.events _ up));
    };
    step = λ s next reason details now legal h. record {
      begun = begins_with-append s.action.action_digest s.events _ h.begun;
      replays = λ up.
          ReplaysTo-transition s.action.action_id s.events _ refl up s.action.state next refl legal
            refl refl (h.replays (IsAscending-init 0 s.events _ up));
    };
  }

  founding-IsHistory :
      (env : E) (d : String) (p : Proposal) (now : ℕ) → Replayable (founding rail env d p now)
  unfolding append begins_with field_is replay_events
  founding-IsHistory env d p now = record {
    begun = eq_refl d;
    replays = λ up.
        ReplaysTo-plain (new_record rail d p).action_id [] _ refl up proposed refl
          (record { replayed = at_proposed; accepted = refl; reached = refl });
  }

  pub perform_all-IsHistory :
      (cs : List Call) (env : E)
      → Everywhere Replayable (perform_all rail cs (empty_world rail env))
  perform_all-IsHistory cs env = perform_all-Everywhere Replayable-Stable founding-IsHistory cs env

  -- After any sequence of calls from the empty store, whatever each of them returned or threw, the
  -- log of every action begins with that action, and where the times of its events do not go back,
  -- the loop of `replayStates` accepts every event and ends in the state that the record has.
  pub perform_all-ReplaysTo :
      (cs : List Call) (env : E) (id : String) (r : ActionRecord)
      → lookup id (perform_all rail cs (empty_world rail env)).actions ≡ some r
      → IsAscending 0 (log_of id (perform_all rail cs (empty_world rail env)))
      → (begins_with r.action_digest (log_of id (perform_all rail cs (empty_world rail env)))
          ≡ true)
        × ReplaysTo r.action_id (log_of id (perform_all rail cs (empty_world rail env))) r.state
  perform_all-ReplaysTo cs env id r e up =
      let h = (perform_all-IsHistory cs env).each id r e in (h.begun, h.replays up)
