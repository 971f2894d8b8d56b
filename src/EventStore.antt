-- ===== src/EventStore.antt =====
-- src/event-store.js: the events of one action, `append` with its hash chain, and
-- `verifyEventChain`. A time is the number of milliseconds from the first representable date.
pub mod Chain
pub mod Append
pub mod Checkpoint
use consequence_rail.Base.{
  ℕ, suc, ◌+◌, Bool, true, false, ◌&&◌, String, str_eq, Option, none, some, List, [], ◌∷◌, ◌++◌,
  ◌==◌, length, last?, if◌then◌else◌,
}
use consequence_rail.Json.{Json, str, nat, object, text_or_null}
use consequence_rail.Canonical.{Runtime, digest}
use consequence_rail.Errors.{Result, ok, err, rail_error, Thrown, has_code, assert, ◌>>=◌, ◌>>◌}
use consequence_rail.Signing.{
  Signer, Signature, Keys, signature_json, sign_artifact, verify_artifact,
}

pub record Event : Type 0 where
  pub action_id : String
  pub sequence : ℕ
  pub previous_hash : Option String
  pub event_type : String
  pub actor : String
  pub recorded_at : ℕ
  pub payload : Json
  pub signature : Signature
  pub event_hash : String

module _ (rt : Runtime) where
  -- The event without its signature and its hash.
  abbrev pub unsigned_fields : Event → List (String × Json)
  unsigned_fields e =
      ("schema_version", str "consequence-rail/event/v0.1")
      ∷ ("action_id", str e.action_id)
      ∷ ("sequence", nat e.sequence)
      ∷ ("previous_hash", text_or_null e.previous_hash)
      ∷ ("event_type", str e.event_type)
      ∷ ("actor", str e.actor)
      ∷ ("recorded_at", str (rt.to_iso e.recorded_at))
      ∷ ("payload", e.payload)
      ∷ []

  abbrev pub unsigned_json : Event → Json
  unsigned_json e = object (unsigned_fields e)

  -- The signed event, without its hash.
  abbrev pub signed_json : Event → Json
  signed_json e = object (unsigned_fields e ++ ("signature", signature_json e.signature) ∷ [])

  -- The signature and the hash are put in once the rest is known.
  abbrev seal : Signer → Event → Event
  seal signer e =
      let signed = record e { signature = sign_artifact rt (unsigned_json e) signer } in
      record signed { event_hash = digest rt (signed_json signed) }

  abbrev pub last_hash : Option Event → Option String
  last_hash none = none
  last_hash (some e) = some e.event_hash

  abbrev unsealed : Signature
  unsealed = record { algorithm = ""; key_id = ""; value = "" }

  -- The event that `append` adds.
  unfoldable pub next_event : Signer → List Event → String → String → String → ℕ → Json → Event
  next_event signer events action_id event_type actor now payload = seal signer (record {
    action_id = action_id;
    sequence = length events;
    previous_hash = last_hash (last? events);
    event_type = event_type;
    actor = actor;
    recorded_at = now;
    payload = payload;
    signature = unsealed;
    event_hash = "";
  })

  -- `MemoryEventStore.append` on the events of one action.
  unfoldable pub append : Signer → List Event → String → String → String → ℕ → Json → List Event
  unfolding next_event
  append signer events action_id event_type actor now payload =
      events ++ next_event signer events action_id event_type actor now payload ∷ []

  abbrev same_hash : Option String → Option String → Bool
  same_hash none none = true
  same_hash (some s) (some t) = str_eq s t
  same_hash _ _ = false

  -- The `catch` around `verifyArtifact`: an untrusted key is passed on.
  abbrev pub as_tampered : Result (Unit {0}) → Result (Unit {0})
  as_tampered (ok u) = ok u
  as_tampered (err e) =
      if has_code "UNTRUSTED_KEY" e then err e else err (rail_error "BUNDLE_TAMPERED")

  -- One round of the loop of `verifyEventChain`.
  unfoldable pub check_event : Keys → String → ℕ → Option String → Event → Result (Unit {0})
  check_event keys action_id index previous_hash e = do
    assert (str_eq e.action_id action_id) "BUNDLE_TAMPERED"
    assert (e.sequence == index && same_hash e.previous_hash previous_hash) "BUNDLE_TAMPERED"
    as_tampered (verify_artifact rt (unsigned_json e) e.signature keys)
    assert (str_eq e.event_hash (digest rt (signed_json e))) "BUNDLE_TAMPERED"

  -- The loop, from an index and the hash before it.
  unfoldable pub check_events :
      Keys → String → ℕ → Option String → List Event → Result (Option String)
  unfolding check_event
  check_events keys action_id index previous_hash [] = ok previous_hash
  check_events keys action_id index previous_hash (e ∷ es) = do
    check_event keys action_id index previous_hash e
    check_events keys action_id (suc index) (some e.event_hash) es

  pub record ChainSummary : Type 0 where
    pub event_count : ℕ
    pub chain_head : Option String

  abbrev pub first_action : List Event → String
  first_action [] = ""
  first_action (e ∷ es) = e.action_id

  -- `verifyEventChain`
  unfoldable pub verify_event_chain : Keys → List Event → Result ChainSummary
  unfolding check_events
  verify_event_chain keys events = do
    head ← check_events keys (first_action events) 0 none events
    ok (record { event_count = length events; chain_head = head })
