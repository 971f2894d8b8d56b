-- ===== src/EventStore/Chain.antt =====
-- What an accepted chain is: the head it reports, and that it is accepted piece by piece.
use consequence_rail.Base.{
  ℕ, zero, suc, ◌+◌, ◌≡◌, refl, ap, true, ◌&&◌, String, str_eq, ◌==◌, Option, none, some, List, [],
  ◌∷◌, ◌++◌, arith, length, last?, take, eq_iff, ==_iff, &&-true,
}
use native.Mathlib.Nat.{zero-add}
use text.Mathlib.TextPositions.{eq_refl}
use consequence_rail.Canonical.{Runtime, digest}
use consequence_rail.Errors.{Result, ok, err, assert, assert-ok, >>-eq-ok}
use consequence_rail.Signing.{Keys, verify_artifact}
use consequence_rail.EventStore.{
  Event, last_hash, check_event, check_events, same_hash, as_tampered, unsigned_json, signed_json,
}

-- The hash that the event at position `n` must name, `p` being the one before the list.
abbrev pub hash_before : Option String → ℕ → List Event → Option String
hash_before p zero es = p
hash_before p (suc n) [] = p
hash_before p (suc n) (e ∷ es) = hash_before (some e.event_hash) n es

-- What the loop of `verifyEventChain` demands of one event.
pub record IsLinked (rt : Runtime) (keys : Keys) (action_id : String) (i : ℕ) (p : Option String)
    (e : Event) : Type 0 where
  pub action : e.action_id ≡ action_id
  pub position : e.sequence ≡ i
  pub linked : e.previous_hash ≡ p
  pub signed : verify_artifact rt (unsigned_json rt e) e.signature keys ≡ ok tt
  pub hashed : e.event_hash ≡ digest rt (signed_json rt e)

module _ (rt : Runtime) where
  same_hash_refl : (h : Option String) → same_hash rt h h ≡ true
  same_hash_refl none = refl
  same_hash_refl (some s) = eq_refl s

  same_hash→eq : (h k : Option String) → same_hash rt h k ≡ true → h ≡ k
  same_hash→eq none none e = refl
  same_hash→eq (some s) (some t) e = ap some ((eq_iff s t).0 e)
  same_hash→eq none (some t) e = cc
  same_hash→eq (some s) none e = cc

  as_tampered-ok : (r : Result (Unit {0})) → as_tampered rt r ≡ ok tt → r ≡ ok tt
  as_tampered-ok (ok tt) e = refl
  as_tampered-ok (err x) e = ground arith

module _ (rt : Runtime) (keys : Keys) (action_id : String) where
  pub check_event_complete :
      (i : ℕ) (p : Option String) (e : Event)
      → IsLinked rt keys action_id i p e
      → check_event rt keys action_id i p e ≡ ok tt
  unfolding check_event
  check_event_complete i p e v = rw (
    v.signed,
    v.hashed,
    eq_refl (digest rt (signed_json rt e)),
    v.action,
    eq_refl action_id,
    v.position,
    (==_iff i i).1 refl,
    v.linked,
    same_hash_refl rt p,
  )

  pub check_event_sound :
      (i : ℕ) (p : Option String) (e : Event)
      → check_event rt keys action_id i p e ≡ ok tt
      → IsLinked rt keys action_id i p e
  unfolding check_event
  check_event_sound i p e h =
      let (named, h₁) = >>-eq-ok (assert (str_eq e.action_id action_id) "BUNDLE_TAMPERED") _ h in
      let (placed, h₂) =
        >>-eq-ok (assert (e.sequence == i && same_hash rt e.previous_hash p) "BUNDLE_TAMPERED") _
          h₁ in
      let (verified, hashed) =
        >>-eq-ok (as_tampered rt (verify_artifact rt (unsigned_json rt e) e.signature keys)) _ h₂ in
      record {
        action = (eq_iff _ _).0 (assert-ok _ _ named);
        position = (==_iff _ _).0 (&&-true _ _ (assert-ok _ _ placed)).0;
        linked = same_hash→eq rt e.previous_hash p (&&-true _ _ (assert-ok _ _ placed)).1;
        signed = as_tampered-ok rt _ verified;
        hashed = (eq_iff _ _).0 (assert-ok _ "BUNDLE_TAMPERED" hashed);
      }

  -- Accepting a list is accepting its first `n` events, with the head there.
  pub check_events-take :
      (n i : ℕ) (p h : Option String) (es : List Event)
      → check_events rt keys action_id i p es ≡ ok h
      → check_events rt keys action_id i p (take n es) ≡ ok (hash_before p n es)
  unfolding check_events
  check_events-take zero i p h es ch = refl
  check_events-take (suc n) i p h [] ch = refl
  check_events-take (suc n) i p h (e ∷ es) ch =
      let (first, rest) = >>-eq-ok (check_event rt keys action_id i p e) _ ch in
      rw first (check_events-take n (suc i) (some e.event_hash) h es rest)

  pub check_events-append :
      (i : ℕ) (p h : Option String) (es : List Event) (e : Event)
      → check_events rt keys action_id i p es ≡ ok h
      → check_event rt keys action_id (length es + i) h e ≡ ok tt
      → check_events rt keys action_id i p (es ++ e ∷ []) ≡ ok (some e.event_hash)
  unfolding check_events
  check_events-append i p h [] e ch next =
      let at_head : check_event rt keys action_id i p e ≡ ok tt =
        cc (next, ap (λ t. check_event rt keys action_id t h e) (zero-add i), ch) in
      rw at_head
  check_events-append i p h (x ∷ es) e ch next =
      let (first, rest) = >>-eq-ok (check_event rt keys action_id i p x) _ ch in
      let shift : length (x ∷ es) + i ≡ length es + suc i = omega arith in
      rw first (check_events-append (suc i) (some x.event_hash) h es e rest (rw shift at next))

  pub check_events-head :
      (i : ℕ) (p h : Option String) (e : Event) (es : List Event)
      → check_events rt keys action_id i p (e ∷ es) ≡ ok h
      → h ≡ last_hash rt (last? (e ∷ es))
  unfolding check_events
  check_events-head i p h e [] ch = cc (>>-eq-ok (check_event rt keys action_id i p e) _ ch).1
  check_events-head i p h e (x ∷ es) ch =
      check_events-head (suc i) (some e.event_hash) h x es
        (>>-eq-ok (check_event rt keys action_id i p e) _ ch).1
