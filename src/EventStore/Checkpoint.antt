-- ===== src/EventStore/Checkpoint.antt =====
-- A hash chain pins its history: two accepted chains of one length and one head are the same signed
-- events up to the order of keys, or two JSON values that differ in more than that order and have one
-- digest are in hand.
use consequence_rail.Base.{
  ℕ, suc, ◌≤◌, ◌≡◌, refl, sym, ap, ◌∙◌, ◌⊎◌, inl, inr, String, Option, none, some, List, [], ◌∷◌,
  map, arith, length, length-take_of_le, take,
}
use consequence_rail.Json.{Json, Json-discrete, obj, own, text_or_null}
use consequence_rail.Canonical.{Runtime, digest, code_units, key_before, units_before}
use consequence_rail.Canonical.Normal.{normal, insert_field}
use consequence_rail.Errors.{ok, >>-eq-ok}
use consequence_rail.Signing.{Keys}
use consequence_rail.EventStore.{Event, check_event, check_events, signed_json}
use consequence_rail.EventStore.Chain.{IsLinked, hash_before, check_event_sound, check_events-take}

module _ (rt : Runtime) where
  -- Two values with one digest that differ in more than the order of keys.
  pub record Collision : Type 0 where
    pub left : Json
    pub right : Json
    pub differ : ¬ (normal left ≡ normal right)
    pub agree : digest rt left ≡ digest rt right

  abbrev previous_of : Json → Option Json
  previous_of (obj fs) = own "previous_hash" fs
  previous_of _ = none

  text_or_null_inj : (h k : Option String) → text_or_null h ≡ text_or_null k → h ≡ k
  text_or_null_inj none none e = refl
  text_or_null_inj (some s) (some t) e = cc
  text_or_null_inj none (some t) e = cc
  text_or_null_inj (some s) none e = cc

  -- A signed event, up to the order of keys.
  abbrev pub normal_event : Event → Json
  normal_event e = normal (signed_json rt e)

  previous_of-normal_event :
      (e : Event) → previous_of (normal_event e) ≡ some (normal (text_or_null e.previous_hash))
  unfolding own normal insert_field key_before units_before code_units
  previous_of-normal_event e = refl

  normal-text_or_null : (o : Option String) → normal (text_or_null o) ≡ text_or_null o
  unfolding normal
  normal-text_or_null none = refl
  normal-text_or_null (some s) = refl

  previous_hash-normal_event :
      (e f : Event) → normal_event e ≡ normal_event f → e.previous_hash ≡ f.previous_hash
  previous_hash-normal_event e f same = text_or_null_inj e.previous_hash f.previous_hash (
      cc (
        ap {B = Option Json} previous_of same,
        previous_of-normal_event e,
        previous_of-normal_event f,
        normal-text_or_null e.previous_hash,
        normal-text_or_null f.previous_hash,
      ))

  -- One step back: the hashes of two accepted events agree.
  same_or_collision :
      (keys keys' : Keys) (a a' : String) (i i' : ℕ) (p p' : Option String) (e f : Event)
      → IsLinked rt keys a i p e
      → IsLinked rt keys' a' i' p' f
      → e.event_hash ≡ f.event_hash
      → ((normal_event e ≡ normal_event f) × (p ≡ p')) ⊎ Collision
  same_or_collision keys keys' a a' i i' p p' e f v w same =
      elim (Json-discrete (normal_event e) (normal_event f)) [
        | yes one ↦ inl (one, sym v.linked ∙ previous_hash-normal_event e f one ∙ w.linked)
        | no two ↦ inr (record {
          left = signed_json rt e;
          right = signed_json rt f;
          differ = two;
          agree = sym v.hashed ∙ same ∙ w.hashed;
        })
      ]

  module _ (keys keys' : Keys) (a a' : String) where
    -- Induction from the end: the tails agree, so the hashes before them do.
    pub same_events :
        (i i' : ℕ) (p p' h h' : Option String) (es fs : List Event)
        → length es ≡ length fs
        → check_events rt keys a i p es ≡ ok h
        → check_events rt keys' a' i' p' fs ≡ ok h'
        → h ≡ h'
        → ((map normal_event es ≡ map normal_event fs) × (p ≡ p')) ⊎ Collision
    unfolding check_events
    same_events i i' p p' h h' [] [] n c d e = inl (refl, cc)
    same_events i i' p p' h h' [] (f ∷ fs) n c d e = absurd (omega arith)
    same_events i i' p p' h h' (x ∷ es) [] n c d e = absurd (omega arith)
    same_events i i' p p' h h' (x ∷ es) (f ∷ fs) n c d e =
        let (first, rest) = >>-eq-ok (check_event rt keys a i p x) _ c in
        let (first', rest') = >>-eq-ok (check_event rt keys' a' i' p' f) _ d in
        elim (same_events (suc i) (suc i') (some x.event_hash) (some f.event_hash) h h' es fs
          (omega arith) rest rest' e) [
            | inr found ↦ inr found
            | inl (tails, hashes) ↦
                elim (same_or_collision keys keys' a a' i i' p p' x f
                  (check_event_sound rt keys a i p x first)
                  (check_event_sound rt keys' a' i' p' f first') (cc hashes)) [
                    | inr found ↦ inr found
                    | inl (one, before) ↦ inl (cc, before)
                  ]
          ]

    -- `recorded` is a history accepted at some earlier time, `es` the events that a bundle brings
    -- now. If the bundle's chain has the recorded head at the recorded count, then its first events
    -- are the recorded ones, as signed and up to the order of keys, or two JSON values are in hand that
    -- differ in more than the order of keys and have one digest.
    pub checkpoint_pins_history :
        (es recorded : List Event) (h h' : Option String)
        → check_events rt keys a 0 none es ≡ ok h
        → check_events rt keys' a' 0 none recorded ≡ ok h'
        → length recorded ≤ length es
        → hash_before none (length recorded) es ≡ h'
        → (map normal_event (take (length recorded) es) ≡ map normal_event recorded) ⊎ Collision
    checkpoint_pins_history es recorded h h' c d n e =
        elim (same_events 0 0 none none _ h' (take (length recorded) es) recorded
          (length-take_of_le (length recorded) es n)
          (check_events-take rt keys a (length recorded) 0 none h es c) d e) [
            | inl (same, _) ↦ inl same
            | inr found ↦ inr found
          ]
