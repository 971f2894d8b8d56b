-- ===== src/Verify/Checkpoint.antt =====
-- src/verify.js: the timeline of a bundle, and a checkpoint that was recorded outside of it. The text
-- of a checkpoint is parsed already: its count is positive and its head a digest.
pub mod Extended
use consequence_rail.Base.{
  ℕ, ◌-◌, Bool, true, false, ◌&&◌, String, str_eq, Option, none, some, List, [], ◌∷◌, leb, length,
  get_elem?, map, if◌then◌else◌,
}
use consequence_rail.Json.{Json}
use consequence_rail.Canonical.{Runtime, digest}
use consequence_rail.Errors.{Result, ok, err, rail_error, assert, ◌>>=◌, ◌>>◌}
use consequence_rail.Signing.{Keys}
use consequence_rail.EventStore.{Event, ChainSummary}
use consequence_rail.Verify.{text_field}
use consequence_rail.Verify.Bundle.{
  Bundle, Profile, audit_profile, receipt_profile, verify_integrity,
}
use consequence_rail.Verify.Semantics.{SemanticVerification, verify_semantics}
use consequence_rail.Rail.Validate.{is_digest}

pub record ChainCheckpoint : Type 0 where
  pub event_count : ℕ
  pub event_chain_head : String

pub record Extension : Type 0 where
  pub event_count : ℕ
  pub event_chain_head : String
  pub events_after_checkpoint : ℕ

-- The fields of a STATE_TRANSITION in the timeline.
pub record Step : Type 0 where
  pub from_state : Option String
  pub to_state : Option String
  pub reason_code : Option String

pub record TimelineEntry : Type 0 where
  pub sequence : ℕ
  pub event_type : String
  pub actor : String
  pub recorded_at : ℕ
  pub payload_digest : String
  pub step : Option Step

-- `events[count - 1].event_hash === head`
abbrev pub has_hash : String → Option Event → Bool
has_hash head none = false
has_hash head (some e) = str_eq e.event_hash head

abbrev step_of : Json → Step
step_of payload = record {
  from_state = text_field "from_state" payload;
  to_state = text_field "to_state" payload;
  reason_code = text_field "reason_code" payload;
}

module _ (rt : Runtime) where
  -- The semantics of an audit bundle; none are asked of a receipt profile.
  abbrev pub semantics_for : Profile → Bundle → Result (Option SemanticVerification)
  semantics_for audit_profile b = verify_semantics rt b >>= λ s. ok (some s)
  semantics_for receipt_profile b = ok none

  -- `verifyBundle` with `requireSemantics: bundle.profile === "audit"`.
  unfoldable pub verify_by_profile :
      Keys → Keys → Bundle → Result (ChainSummary rt × Option SemanticVerification)
  verify_by_profile keys connector_keys b = verify_integrity rt keys connector_keys b >>= λ chain.
      semantics_for b.profile b >>= λ semantics. ok (chain, semantics)

  abbrev entry_of : Event → TimelineEntry
  entry_of e = record {
    sequence = e.sequence;
    event_type = e.event_type;
    actor = e.actor;
    recorded_at = e.recorded_at;
    payload_digest = digest rt e.payload;
    step = if str_eq e.event_type "STATE_TRANSITION" then some (step_of e.payload) else none;
  }

  -- `verifyBundleTimeline(bundle, options)`
  unfoldable pub verify_bundle_timeline :
      Keys
      → Keys
      → Bundle
      → Result ((ChainSummary rt × Option SemanticVerification) × List TimelineEntry)
  verify_bundle_timeline keys connector_keys b =
      verify_by_profile keys connector_keys b >>= λ verification.
      ok (verification, map entry_of b.events)

  abbrev pub extends : ChainCheckpoint → List Event → Bool
  extends c events =
      leb c.event_count (length events)
      && has_hash c.event_chain_head (get_elem? events (c.event_count - 1))

  -- `verifyChainCheckpoint(bundle, checkpoint, options)`, on a checkpoint that is parsed.
  unfoldable pub verify_chain_checkpoint : Keys → Keys → Bundle → ChainCheckpoint → Result Extension
  verify_chain_checkpoint keys connector_keys b c =
      verify_by_profile keys connector_keys b >>= λ verification.
      assert (extends c b.events) "CHECKPOINT_MISMATCH"
      >> ok (record {
        event_count = c.event_count;
        event_chain_head = c.event_chain_head;
        events_after_checkpoint = length b.events - c.event_count;
      })
