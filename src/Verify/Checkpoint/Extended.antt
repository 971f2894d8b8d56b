-- ===== src/Verify/Checkpoint/Extended.antt =====
-- A bundle that extends a recorded checkpoint.
use consequence_rail.Base.{
  ℕ, suc, zero, ◌-◌, ◌≤◌, ◌≡◌, ◌⊎◌, ap, subst, arith, true, &&-true, String, eq_iff, Option, none,
  some, List, [], ◌∷◌, leb→le, length, get_elem?, take, map,
}
use consequence_rail.Canonical.{Runtime}
use consequence_rail.Errors.{ok, assert, assert-ok, >>-eq-ok, >>=-eq-ok}
use consequence_rail.Signing.{Keys}
use consequence_rail.EventStore.{Event, check_events, first_action}
use consequence_rail.EventStore.Chain.{hash_before}
use consequence_rail.EventStore.Checkpoint.{Collision, checkpoint_pins_history, normal_event}
use consequence_rail.Verify.Bundle.{Bundle, verify_integrity}
use consequence_rail.Verify.Bundle.Pinned.{verify_integrity-IsIntact}
use consequence_rail.Verify.Checkpoint.{
  ChainCheckpoint, Extension, extends, has_hash, verify_by_profile, verify_chain_checkpoint,
}

hash_before-has_hash :
    (head : String) (p : Option String) (m : ℕ) (es : List Event)
    → has_hash head (get_elem? es m) ≡ true
    → hash_before p (suc m) es ≡ some head
hash_before-has_hash head p m [] h = cc
hash_before-has_hash head p zero (e ∷ es) h = ap some ((eq_iff e.event_hash head).0 h)
hash_before-has_hash head p (suc m) (e ∷ es) h =
    hash_before-has_hash head (some e.event_hash) m es h

module _ (rt : Runtime) where
  -- `recorded` is a non-empty history that was accepted at some earlier time, under any keys, and the
  -- checkpoint has its number of events and its head. A bundle that verifyChainCheckpoint accepts for
  -- that checkpoint begins with the recorded events, as signed and up to the order of keys, or two JSON
  -- values are in hand that differ in more than the order of keys and have one digest.
  pub verify_chain_checkpoint-extends :
      (keys connector_keys keys' : Keys) (b : Bundle) (c : ChainCheckpoint) (x : Extension)
      (a' : String) (recorded : List Event)
      → verify_chain_checkpoint rt keys connector_keys b c ≡ ok x
      → check_events rt keys' a' 0 none recorded ≡ ok (some c.event_chain_head)
      → length recorded ≡ c.event_count
      → 1 ≤ c.event_count
      → (map (normal_event rt) (take (length recorded) b.events) ≡ map (normal_event rt) recorded)
        ⊎ Collision rt
  unfolding verify_chain_checkpoint verify_by_profile
  verify_chain_checkpoint-extends keys connector_keys keys' b c x a' recorded h past counted
        some_events =
      let (verification, verified, rest) =
        >>=-eq-ok (verify_by_profile rt keys connector_keys b) _ h in
      let (chain, intact, _) = >>=-eq-ok (verify_integrity rt keys connector_keys b) _ verified in
      let v = verify_integrity-IsIntact rt keys connector_keys b chain intact in
      let extending = assert (extends rt c b.events) "CHECKPOINT_MISMATCH" in
      let (fits, hashed) =
        &&-true _ _ (assert-ok _ "CHECKPOINT_MISMATCH" (>>-eq-ok extending (ok _) rest).0) in
      let enough = leb→le c.event_count (length b.events) fits in
      let before : hash_before none (suc (c.event_count - 1)) b.events ≡ some c.event_chain_head =
        hash_before-has_hash c.event_chain_head none (c.event_count - 1) b.events hashed in
      let position : suc (c.event_count - 1) ≡ length recorded =
        omega (arith, counted, some_events) in
      checkpoint_pins_history rt keys keys' (first_action rt b.events) a' b.events recorded v.head
        (some c.event_chain_head) v.chain past (omega (arith, enough, counted))
        (subst (λ n. hash_before none n b.events ≡ some c.event_chain_head) position before)
