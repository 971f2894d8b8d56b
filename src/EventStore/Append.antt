-- ===== src/EventStore/Append.antt =====
-- `append` keeps a chain that `verifyEventChain` accepts.
use consequence_rail.Base.{ℕ, ◌≡◌, refl, String, none, List, [], ◌∷◌, length, last?, last?-append}
use native.Mathlib.Nat.{add-zero}
use consequence_rail.Json.{Json}
use consequence_rail.Canonical.{Runtime}
use consequence_rail.Errors.{ok}
use consequence_rail.Signing.{Signer, Keys}
use consequence_rail.Signing.RoundTrip.{IsTrusted, verify_artifact-sign_artifact}
use consequence_rail.EventStore.{
  Event, last_hash, next_event, append, check_event, check_events, unsigned_json,
}
use consequence_rail.EventStore.Chain.{check_events-append, check_event_complete}

-- What one call of `append` is given, beside the action.
pub record Entry : Type 0 where
  pub event_type : String
  pub actor : String
  pub recorded_at : ℕ
  pub payload : Json

module _ (rt : Runtime) where
  -- The events after a sequence of calls.
  unfoldable pub append_all : Signer → String → List Event → List Entry → List Event
  append_all signer action_id events [] = events
  append_all signer action_id events (x ∷ xs) =
      append_all signer action_id
        (append rt signer events action_id x.event_type x.actor x.recorded_at x.payload) xs

  -- The chain of an action: accepted under its id, with its last hash for a head.
  abbrev pub IsChain : Keys → String → List Event → Type 0
  IsChain keys action_id es =
      check_events rt keys action_id 0 none es ≡ ok (last_hash rt (last? es))

  module _ {signer : Signer} {keys : Keys} (trust : IsTrusted rt signer keys) where
    check_event-next_event :
        (es : List Event) (action_id event_type actor : String) (now : ℕ) (payload : Json)
        → check_event rt keys action_id
            (length es)
            (last_hash rt (last? es))
            (next_event rt signer es action_id event_type actor now payload)
          ≡ ok tt
    unfolding check_event next_event
    check_event-next_event es action_id event_type actor now payload =
        let e = next_event rt signer es action_id event_type actor now payload in
        check_event_complete rt keys action_id (length es) (last_hash rt (last? es)) e (record {
          action = refl;
          position = refl;
          linked = refl;
          signed = verify_artifact-sign_artifact rt trust (unsigned_json rt e);
          hashed = refl;
        })

    pub append-IsChain :
        (es : List Event) (action_id event_type actor : String) (now : ℕ) (payload : Json)
        → IsChain keys action_id es
        → IsChain keys action_id (append rt signer es action_id event_type actor now payload)
    unfolding append
    append-IsChain es action_id event_type actor now payload chain =
        let e = next_event rt signer es action_id event_type actor now payload in
        rw (last?-append es e) (
          check_events-append rt keys action_id 0 none _ es e chain (
            rw (add-zero (length es))
              (check_event-next_event es action_id event_type actor now payload)))

  pub nil-IsChain : (keys : Keys) (action_id : String) → IsChain keys action_id []
  unfolding check_events
  nil-IsChain keys action_id = refl
