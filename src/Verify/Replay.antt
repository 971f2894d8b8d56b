-- ===== src/Verify/Replay.antt =====
-- The replay of a log that grows by one event.
use mathlib.Core.Bool.{true≢false}
use text.Mathlib.TextPositions.{eq_refl}
use consequence_rail.Base.{
  ℕ, ◌≤◌, ◌≡◌, refl, sym, ap, subst, ◌∙◌, arith, Bool, true, false, ◌||◌, String, str_eq, Option,
  none, some, List, [], ◌∷◌, ◌++◌, leb, eq_iff, find_first, Bool-cases, inl, inr, if◌then◌else◌,
  decided_sound,
}
use consequence_rail.Json.{Json}
use consequence_rail.Errors.{ok, >>-eq-ok, >>=-eq-ok, ok_inj}
use consequence_rail.State.{
  State, code_of_state, same, includes, allowed, successors, State-discrete,
}
use consequence_rail.EventStore.{Event}
use consequence_rail.Verify.{
  Replayed, field_is, text_field, named_successor, enter, replay_transition, replay_event,
  replay_events, semantic,
}

all_states : List State
all_states =
    State.proposed ∷ State.authorized ∷ State.denied ∷ State.expired ∷ State.revoked
    ∷ State.recourse_reserved ∷ State.permitted ∷ State.executing ∷ State.executed ∷ State.failed
    ∷ State.unknown ∷ State.verifying ∷ State.satisfied ∷ State.breached ∷ State.inconclusive
    ∷ State.remedy_due ∷ State.remediating ∷ State.remedy_verifying ∷ State.remedy_failed
    ∷ State.remedy_unknown ∷ State.remediated ∷ State.remedy_inconclusive ∷ State.review_required
    ∷ State.closed ∷ []

-- The state that a name names.
abbrev decode : String → Option State
unfolding all_states
decode text = find_first (λ s. str_eq text (code_of_state s)) all_states

decode-code_of_state : (s : State) → decode (code_of_state s) ≡ some s
unfolding decode
decode-code_of_state State.proposed = refl
decode-code_of_state State.authorized = refl
decode-code_of_state State.denied = refl
decode-code_of_state State.expired = refl
decode-code_of_state State.revoked = refl
decode-code_of_state State.recourse_reserved = refl
decode-code_of_state State.permitted = refl
decode-code_of_state State.executing = refl
decode-code_of_state State.executed = refl
decode-code_of_state State.failed = refl
decode-code_of_state State.unknown = refl
decode-code_of_state State.verifying = refl
decode-code_of_state State.satisfied = refl
decode-code_of_state State.breached = refl
decode-code_of_state State.inconclusive = refl
decode-code_of_state State.remedy_due = refl
decode-code_of_state State.remediating = refl
decode-code_of_state State.remedy_verifying = refl
decode-code_of_state State.remedy_failed = refl
decode-code_of_state State.remedy_unknown = refl
decode-code_of_state State.remediated = refl
decode-code_of_state State.remedy_inconclusive = refl
decode-code_of_state State.review_required = refl
decode-code_of_state State.closed = refl

pub code_of_state_inj : (s t : State) → code_of_state s ≡ code_of_state t → s ≡ t
code_of_state_inj s t e =
    let same_decoded = ap decode e in
    cc (decode-code_of_state s, decode-code_of_state t, same_decoded)

same_sound : (s t : State) → same s t ≡ true → s ≡ t
unfolding same
same_sound s t h = decided_sound (State-discrete s t) h

leb_of_le : (a b : ℕ) → a ≤ b → leb a b ≡ true
leb_of_le a b h = ground arith

or_right : (a b : Bool) → a ≡ false → (a || b) ≡ true → b ≡ true
or_right true b e h = cc
or_right false b e h = h

find_named :
    (t : State) (ts : List State)
    → includes t ts ≡ true
    → find_first (λ u. str_eq (code_of_state t) (code_of_state u)) ts ≡ some t
unfolding includes
find_named t [] h = cc
find_named t (u ∷ us) h = elim (Bool-cases (str_eq (code_of_state t) (code_of_state u))) [
  | inl e ↦ rw e (ap some (sym (code_of_state_inj t u ((eq_iff _ _).0 e))))
  | inr n ↦
      let different : same t u ≡ false = elim (Bool-cases (same t u)) [
        | inr d ↦ d
        | inl d ↦
            let one = same_sound t u d in
            absurd (true≢false ((sym ((eq_iff _ _).1 (ap code_of_state one))) ∙ n))
      ] in
      rw n (find_named t us (or_right (same t u) _ different h))
]

field_is-of_text :
    (key text value : String) (payload : Json)
    → text_field key payload ≡ some value
    → field_is key payload text ≡ str_eq value text
unfolding field_is
field_is-of_text key text value payload e = rw (e, field_is) refl

named_successor_complete :
    (s t : State) (payload : Json)
    → allowed s t ≡ true
    → text_field "to_state" payload ≡ some (code_of_state t)
    → named_successor s payload ≡ some t
unfolding named_successor allowed
named_successor_complete s t payload h e =
    subst (λ p. find_first p (successors s) ≡ some t)
      (λ i u. sym (field_is-of_text "to_state" (code_of_state u) (code_of_state t) payload e) i)
      (find_named t (successors s) h)

-- A permitted transition, as it is written in a payload, is replayed.
pub replay_transition_complete :
    (r : Replayed) (t : State) (payload : Json)
    → allowed r.current t ≡ true
    → text_field "from_state" payload ≡ some (code_of_state r.current)
    → text_field "to_state" payload ≡ some (code_of_state t)
    → replay_transition payload r ≡ ok (record r { current = t; states = r.states ++ t ∷ [] })
unfolding replay_transition
replay_transition_complete r t payload h from to =
    rw
      (
        field_is-of_text "from_state" (code_of_state r.current) (code_of_state r.current) payload
            from,
        eq_refl (code_of_state r.current),
        named_successor_complete r.current t payload h to,
      )
      refl

-- The times of the events do not go back.
unfoldable pub IsAscending : ℕ → List Event → Type 0
IsAscending t [] = Unit
IsAscending t (e ∷ es) = (t ≤ e.recorded_at) × IsAscending e.recorded_at es

pub IsAscending-init :
    (t : ℕ) (es : List Event) (e : Event) → IsAscending t (es ++ e ∷ []) → IsAscending t es
unfolding IsAscending
IsAscending-init t [] e h = tt
IsAscending-init t (x ∷ es) e (h, hs) = (h, IsAscending-init x.recorded_at es e hs)

module _ (action_id : String) where
  pub replay_events-append :
      (es : List Event) (e : Event) (r r' r'' : Replayed)
      → replay_events action_id es r ≡ ok r'
      → replay_event action_id e r' ≡ ok r''
      → replay_events action_id (es ++ e ∷ []) r ≡ ok r''
  unfolding replay_events
  replay_events-append [] e r r' r'' h k = rw (ap (replay_event action_id e) (ok_inj h), k) refl
  replay_events-append (x ∷ es) e r r' r'' h k =
      let (a, first, rest) = >>=-eq-ok (replay_event action_id x r) _ h in
      rw first (replay_events-append es e a r' r'' rest k)

  enter-time :
      (r : Replayed) (o : Option State) (r' : Replayed)
      → enter r o ≡ ok r'
      → r'.previous_recorded_at ≡ r.previous_recorded_at
  enter-time r none r' h = cc
  enter-time r (some t) r' h = sym (ap (λ (x : Replayed). x.previous_recorded_at) (ok_inj h))

  replay_transition-time :
      (payload : Json) (r r' : Replayed)
      → replay_transition payload r ≡ ok r'
      → r'.previous_recorded_at ≡ r.previous_recorded_at
  unfolding replay_transition
  replay_transition-time payload r r' h =
      let (_, rest) = >>-eq-ok (semantic _) _ h in
      enter-time r (named_successor r.current payload) r' rest

  replay_if-time :
      (b : Bool) (payload : Json) (r r' : Replayed)
      → (if b then replay_transition payload r else ok r) ≡ ok r'
      → r'.previous_recorded_at ≡ r.previous_recorded_at
  replay_if-time true payload r r' h = replay_transition-time payload r r' h
  replay_if-time false payload r r' h =
      sym (ap (λ (x : Replayed). x.previous_recorded_at) (ok_inj h))

  replay_event-time :
      (e : Event) (r r' : Replayed)
      → replay_event action_id e r ≡ ok r'
      → r'.previous_recorded_at ≡ e.recorded_at
  unfolding replay_event
  replay_event-time e r r' h =
      let (_, timely) = >>-eq-ok (semantic (str_eq e.action_id action_id)) _ h in
      let (_, rest) = >>-eq-ok (semantic (leb r.previous_recorded_at e.recorded_at)) _ timely in
      replay_if-time (str_eq e.event_type "STATE_TRANSITION") e.payload
        (record r { previous_recorded_at = e.recorded_at }) r' rest

  -- The loop has read the last time, which the next event does not precede.
  pub replay_events-time :
      (es : List Event) (e : Event) (r r' : Replayed)
      → replay_events action_id es r ≡ ok r'
      → IsAscending r.previous_recorded_at (es ++ e ∷ [])
      → r'.previous_recorded_at ≤ e.recorded_at
  unfolding replay_events IsAscending
  replay_events-time [] e r r' h (le, _) =
      subst (λ (x : Replayed). x.previous_recorded_at ≤ e.recorded_at) (ok_inj h) le
  replay_events-time (x ∷ es) e r r' h (le, up) =
      let (a, first, rest) = >>=-eq-ok (replay_event action_id x r) _ h in
      replay_events-time es e a r' rest
        (subst (λ t. IsAscending t (es ++ e ∷ [])) (sym (replay_event-time x r a first)) up)

  -- An event that is no transition changes the time only.
  pub replay_event-plain :
      (e : Event) (r : Replayed)
      → str_eq e.action_id action_id ≡ true
      → r.previous_recorded_at ≤ e.recorded_at
      → str_eq e.event_type "STATE_TRANSITION" ≡ false
      → replay_event action_id e r ≡ ok (record r { previous_recorded_at = e.recorded_at })
  unfolding replay_event
  replay_event-plain e r own le plain =
      rw (own, leb_of_le r.previous_recorded_at e.recorded_at le, plain) refl

  -- A permitted transition is entered.
  pub replay_event-transition :
      (e : Event) (r : Replayed) (t : State)
      → str_eq e.action_id action_id ≡ true
      → r.previous_recorded_at ≤ e.recorded_at
      → str_eq e.event_type "STATE_TRANSITION" ≡ true
      → allowed r.current t ≡ true
      → text_field "from_state" e.payload ≡ some (code_of_state r.current)
      → text_field "to_state" e.payload ≡ some (code_of_state t)
      → replay_event action_id e r
        ≡ ok (record {
          current = t;
          previous_recorded_at = e.recorded_at;
          states = r.states ++ t ∷ [];
        })
  unfolding replay_event
  replay_event-transition e r t own le moves h from to =
      rw (own, leb_of_le r.previous_recorded_at e.recorded_at le, moves)
        (replay_transition_complete (record r { previous_recorded_at = e.recorded_at }) t e.payload
          h from to)
