-- ===== src/Verify/Steps.antt =====
-- Induction on a replay that returned: what a new time and an entered state keep.
use consequence_rail.Base.{
  ℕ, ◌≡◌, refl, subst, arith, Bool, true, false, String, str_eq, Option, none, some, List, [], ◌∷◌,
  ◌++◌, leb, if◌then◌else◌, find_first, decided_complete,
}
use consequence_rail.Json.{Json}
use consequence_rail.Errors.{ok, >>-eq-ok, >>=-eq-ok, ok_inj}
use consequence_rail.State.{State, same, includes, allowed, successors, State-discrete}
use consequence_rail.EventStore.{Event}
use consequence_rail.Verify.{
  Replayed, enter, named_successor, replay_transition, replay_event, replay_events, semantic,
}

pub same_refl : (s : State) → same s s ≡ true
unfolding same
same_refl s = decided_complete (State-discrete s s) refl

find_first-includes :
    (p : State → Bool) (ts : List State) (t : State)
    → find_first p ts ≡ some t
    → includes t ts ≡ true
unfolding includes
find_first-includes p [] t h = cc
find_first-includes p (u ∷ us) t h = ground (arith, find_first-includes p us t, same_refl t)

module _ (Q : Replayed → Type 0)
    (time : (r : Replayed) (now : ℕ) → Q r → Q (record r { previous_recorded_at = now }))
    (step : (r : Replayed) (t : State)
      → allowed r.current t ≡ true
      → Q r
      → Q (record r { current = t; states = r.states ++ t ∷ [] })) where
  enter_named-Keeps :
      (r r' : Replayed) (o : Option State)
      → ((t : State) → o ≡ some t → allowed r.current t ≡ true)
      → enter r o ≡ ok r'
      → Q r
      → Q r'
  enter_named-Keeps r r' none legal h f = cc
  enter_named-Keeps r r' (some t) legal h f = subst Q (ok_inj h) (step r t (legal t refl) f)

  replay_transition-Keeps :
      (payload : Json) (r r' : Replayed) → replay_transition payload r ≡ ok r' → Q r → Q r'
  unfolding replay_transition named_successor allowed
  replay_transition-Keeps payload r r' h f =
      let (_, rest) = >>-eq-ok (semantic _) _ h in
      enter_named-Keeps r r' (named_successor r.current payload)
        (λ t e. find_first-includes _ (successors r.current) t e) rest f

  replay_if-Keeps :
      (b : Bool) (payload : Json) (r r' : Replayed)
      → (if b then replay_transition payload r else ok r) ≡ ok r'
      → Q r
      → Q r'
  replay_if-Keeps true payload r r' h f = replay_transition-Keeps payload r r' h f
  replay_if-Keeps false payload r r' h f = subst Q (ok_inj h) f

  replay_event-Keeps :
      (id : String) (e : Event) (r r' : Replayed) → replay_event id e r ≡ ok r' → Q r → Q r'
  unfolding replay_event
  replay_event-Keeps id e r r' h f =
      let (_, timely) = >>-eq-ok (semantic (str_eq e.action_id id)) _ h in
      let (_, rest) = >>-eq-ok (semantic (leb r.previous_recorded_at e.recorded_at)) _ timely in
      replay_if-Keeps (str_eq e.event_type "STATE_TRANSITION") e.payload
        (record r { previous_recorded_at = e.recorded_at }) r' rest (time r e.recorded_at f)

  pub replay_events-induction :
      (id : String) (es : List Event) (r r' : Replayed) → replay_events id es r ≡ ok r' → Q r → Q r'
  unfolding replay_events
  replay_events-induction id [] r r' h f = subst Q (ok_inj h) f
  replay_events-induction id (e ∷ es) r r' h f =
      let (a, first, rest) = >>=-eq-ok (replay_event id e r) _ h in
      replay_events-induction id es a r' rest (replay_event-Keeps id e r a first f)
