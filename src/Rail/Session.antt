-- ===== src/Rail/Session.antt =====
-- A method of `ConsequenceRail` on one action: a computation on the outside, the action record and
-- the action's events. What was written before a throw stays written. The calls of the event store
-- and of `transition` and `assert` are here, since every method is made of them.
pub mod Keeps
use consequence_rail.Base.{ℕ, Bool, true, false, String, Option, none, some, List, [], ◌∷◌}
use consequence_rail.Json.{Json, str, object}
use consequence_rail.Canonical.{digest}
use consequence_rail.Errors.{Thrown, rail_error, Result, ok, err, assert}
use consequence_rail.State.{State, code_of_state, allowed}
use consequence_rail.EventStore.{Event, append}
use consequence_rail.Rail.Records.{ActionRecord}
use consequence_rail.Rail.Interface.{Rail, Call}

pub record Session (E : Type 0) : Type 0 where
  pub env : E
  pub action : ActionRecord
  pub events : List Event

-- The fields that no assignment writes stay: the state, the id, the digest and the proposal.
abbrev pub with_fields : (ActionRecord → ActionRecord) → ActionRecord → ActionRecord
with_fields f a = record (f a) {
  action_id = a.action_id;
  action_digest = a.action_digest;
  proposal = a.proposal;
  state = a.state;
}

abbrev pub Method : Type 0 → Type 0 → Type 0
Method E A = Session E → Result A × Session E

module _ {E : Type 0} {A : Type 0} where
  unfoldable pub pure : A → Method E A
  pure a s = (ok a, s)

  unfoldable pub throw : Thrown → Method E A
  throw e s = (err e, s)

  unfoldable pub lift : Result A → Method E A
  lift r s = (r, s)

  -- A read of the record, the events or both.
  unfoldable pub gets : (ActionRecord → List Event → A) → Method E A
  gets f s = (ok (f s.action s.events), s)

  -- A call of the connector.
  unfoldable pub call : Call E A → Method E A
  call f s = let (r, env) = f s.env in (r, record s { env = env })

  -- A look at the outside that leaves it alone.
  unfoldable pub peek : (E → Result A) → Method E A
  peek f s = (f s.env, s)

  abbrev pub recover : Result A → (Thrown → Method E A) → Method E A
  recover (ok a) handler s = (ok a, s)
  recover (err e) handler s = handler e s

  -- `try { … } catch (error) { … }`
  unfoldable pub attempt : Method E A → (Thrown → Method E A) → Method E A
  unfolding pure throw lift
  attempt m handler s = let (r, s') = m s in recover r handler s'

module _ {E A B : Type 0} where
  abbrev pub go_on : Result A → (A → Method E B) → Method E B
  go_on (ok a) f s = f a s
  go_on (err e) f s = (err e, s)

  infixl 5 ◌>>=◌ ◌>>◌
  -- Opening this opens the actions above.
  unfoldable pub ◌>>=◌ : Method E A → (A → Method E B) → Method E B
  unfolding pure throw lift gets call peek attempt
  ◌>>=◌ m f s = let (r, s') = m s in go_on r f s'

  abbrev pub ◌>>◌ : Method E A → Method E B → Method E B
  m >> n = m >>= λ _. n

module _ {E : Type 0} where
  -- `record.field = value`, for the other fields.
  unfoldable pub assign : (ActionRecord → ActionRecord) → Method E (Unit {0})
  assign f s = (ok tt, record s { action = with_fields f s.action })

  abbrev pub require : Bool → String → Method E (Unit {0})
  require b code = lift (assert b code)

  abbrev pub get_record : Method E ActionRecord
  get_record = gets (λ r es. r)

  module _ (rail : Rail E) where
    -- `this.clock.now()`
    abbrev pub clock_now : Method E ℕ
    clock_now = call (λ e. let (t, e') = rail.now e in (ok t, e'))

    unfoldable pub write_event : String → String → Json → ℕ → Method E (Unit {0})
    write_event event_type actor payload now s = (
      ok tt,
      record s {
        events =
            append rail.runtime rail.signer s.events s.action.action_id event_type actor now
              payload;
      },
    )

    -- `this.eventStore.append(record.action_id, eventType, actor, payload)`
    unfoldable pub append_event : String → String → Json → Method E (Unit {0})
    unfolding write_event ◌>>=◌
    append_event event_type actor payload = do
      now ← clock_now
      write_event event_type actor payload now

    -- The payload of a STATE_TRANSITION event.
    abbrev pub transition_payload : State → State → String → Json → Json
    transition_payload from to reason details = object (
        ("from_state", str (code_of_state from))
        ∷ ("to_state", str (code_of_state to))
        ∷ ("reason_code", str reason)
        ∷ ("details_digest", str (digest rail.runtime details))
        ∷ [])

    unfoldable pub set_state : State → Method E (Unit {0})
    set_state next s = (ok tt, record s { action = record s.action { state = next } })

    -- The event first, then the state.
    unfoldable pub commit_transition : State → State → String → Json → Method E (Unit {0})
    unfolding append_event set_state
    commit_transition from next reason details = do
      append_event "STATE_TRANSITION" "rail" (transition_payload from next reason details)
      set_state next

    -- `transition(record, nextState, reasonCode, details)`
    unfoldable pub transition : State → String → Json → Method E (Unit {0})
    unfolding commit_transition
    transition next reason details = do
      r ← get_record
      require (allowed r.state next) "ILLEGAL_TRANSITION"
      commit_transition r.state next reason details
