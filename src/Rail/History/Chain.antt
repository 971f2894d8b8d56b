-- ===== src/Rail/History/Chain.antt =====
-- The log of every action is a chain that `verifyEventChain` accepts.
use consequence_rail.Base.{◌≡◌, some, String, List, lookup}
use consequence_rail.Signing.{Keys}
use consequence_rail.Signing.RoundTrip.{IsTrusted}
use consequence_rail.EventStore.Append.{IsChain, append-IsChain, nil-IsChain}
use consequence_rail.Rail.Records.{ActionRecord}
use consequence_rail.Rail.Interface.{Rail}
use consequence_rail.Rail.Session.{Session}
use consequence_rail.Rail.Session.Keeps.{Stable}
use consequence_rail.Rail.World.{Call, perform_all, empty_world, log_of}
use consequence_rail.Rail.Stable.Calls.{perform_all-Everywhere}

module _ {E : Type 0} (rail : Rail E) (keys : Keys) where
  abbrev Chained : Session E → Type 0
  Chained s = IsChain rail.runtime keys s.action.action_id s.events

  module _ (trust : IsTrusted rail.runtime rail.signer keys) where
    Chained-Stable : Stable rail Chained
    Chained-Stable = record {
      outside = λ s e h. h;
      field = λ s f h. h;
      event = λ s event_type actor payload now plain h.
          append-IsChain rail.runtime trust s.events s.action.action_id event_type actor now payload
            h;
      step = λ s next reason details now legal h.
          append-IsChain rail.runtime trust s.events s.action.action_id _ _ now _ h;
    }

    -- Under a trusted signing key, after any sequence of calls from the empty store, whatever each of
    -- them returned or threw, the verifier's loop accepts the log of every action under that
    -- action's id, from position 0, and ends in the hash of its last event.
    pub perform_all-IsChain :
        (cs : List Call) (env : E) (id : String) (r : ActionRecord)
        → lookup id (perform_all rail cs (empty_world rail env)).actions ≡ some r
        → IsChain rail.runtime keys r.action_id
            (log_of id (perform_all rail cs (empty_world rail env)))
    perform_all-IsChain cs env =
        (perform_all-Everywhere Chained-Stable
          (λ e d p now.
            append-IsChain rail.runtime trust _ _ _ _ now _ (nil-IsChain rail.runtime keys _))
          cs env).each
