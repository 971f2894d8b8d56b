-- ===== src/Verify/Derive.antt =====
-- `deriveOutcome` after `replayStates`: an accepted lifecycle has one outcome.
use mathlib.Core.Bool.{true≢false}
use consequence_rail.Base.{
  decided_sound, ℕ, ◌≡◌, refl, sym, ap, subst, ◌∙◌, arith, Bool, true, false, ◌||◌, String, Option,
  none, some, List, [], ◌∷◌, ◌++◌, any_of, is_some,
}
use consequence_rail.Errors.{
  Thrown, rail_error, Result, ok, err, assert-ok, >>-eq-ok, >>=-eq-ok, ok_inj,
}
use consequence_rail.State.{
  State, remediated, satisfied, inconclusive, review_required, remedy_failed, remedy_inconclusive,
  closed, Outcome, receipt_outcome, same, includes, allowed, State-discrete,
}
use consequence_rail.EventStore.{Event}
use consequence_rail.Verify.Steps.{same_refl, replay_events-induction}
use consequence_rail.Verify.{
  Replayed, at_proposed, replay_events, replay_states, derive_outcome, semantic,
}

abbrev is_disputing : State → Bool
is_disputing s =
    includes s (inconclusive ∷ review_required ∷ remedy_failed ∷ remedy_inconclusive ∷ [])

abbrev pick : Bool → Bool → Bool → Result Outcome
pick true b c = ok Outcome.compensated
pick false true c = ok Outcome.settled
pick false false true = ok Outcome.disputed
pick false false false = err (rail_error "SEMANTIC_INVALID")

derive_outcome-pick :
    (states : List State)
    → derive_outcome states
      ≡ pick (includes remediated states) (includes satisfied states) (any_of is_disputing states)
unfolding derive_outcome
derive_outcome-pick states = ground arith

-- What a receipt says of a state, as a result.
abbrev outcome_of : Option Outcome → Result Outcome
outcome_of none = err (rail_error "SEMANTIC_INVALID")
outcome_of (some o) = ok o

pub includes-append :
    (s t : State) (states : List State)
    → includes s (states ++ t ∷ []) ≡ (includes s states || same s t)
unfolding includes
includes-append s t [] = ground arith
includes-append s t (x ∷ xs) = ground (arith, includes-append s t xs)

any_of-append :
    (t : State) (states : List State)
    → any_of is_disputing (states ++ t ∷ []) ≡ (any_of is_disputing states || is_disputing t)
any_of-append t [] = ground arith
any_of-append t (x ∷ xs) = ground (arith, any_of-append t xs)

pick-alone :
    (t : State)
    → pick (same remediated t) (same satisfied t) (is_disputing t) ≡ outcome_of (receipt_outcome t)
unfolding includes receipt_outcome
pick-alone t = ground arith

-- `CLOSED` follows the states with an outcome, and only those.
closed_follows_outcome :
    (s t : State) → allowed s t ≡ true → same t closed ≡ is_some (receipt_outcome s)
unfolding allowed receipt_outcome
closed_follows_outcome s t h = ground arith

open_before : (s t : State) → allowed s t ≡ true → same s closed ≡ false
unfolding allowed
open_before s t h = ground arith

same_closed : (t : State) → same t closed ≡ true → t ≡ closed
unfolding same
same_closed t h = decided_sound (State-discrete t closed) h

-- The states that the loop has gathered, and what follows from them.
record Follows (r : Replayed) : Type 0 where
  here : includes r.current r.states ≡ true
  ongoing :
      same r.current closed ≡ false
      → derive_outcome r.states ≡ outcome_of (receipt_outcome r.current)
  ended :
      same r.current closed ≡ true
      → (s : State) × (o : Outcome) × (includes s r.states ≡ true)
        × (receipt_outcome s ≡ some o)
        × (derive_outcome r.states ≡ ok o)

pick-err :
    (a b c : Bool) (e : Thrown) → pick a b c ≡ err e → (a ≡ false) × (b ≡ false) × (c ≡ false)
pick-err true b c e h = cc
pick-err false true c e h = cc
pick-err false false true e h = cc
pick-err false false false e h = (refl, refl, refl)

-- No outcome yet: the next state decides.
derive_outcome-decided :
    (t : State) (states : List State) (e : Thrown)
    → derive_outcome states ≡ err e
    → derive_outcome (states ++ t ∷ []) ≡ outcome_of (receipt_outcome t)
derive_outcome-decided t states e h =
    let (a, b, c) = pick-err _ _ _ e (sym (derive_outcome-pick states) ∙ h) in
    derive_outcome-pick (states ++ t ∷ [])
    ∙ rw
        (
          includes-append remediated t states,
          includes-append satisfied t states,
          any_of-append t states,
          a,
          b,
          c,
        )
        (pick-alone t)

-- The last step adds nothing.
derive_outcome-closed :
    (states : List State) → derive_outcome (states ++ closed ∷ []) ≡ derive_outcome states
unfolding includes
derive_outcome-closed states =
    rw
      (
        derive_outcome-pick (states ++ closed ∷ []),
        derive_outcome-pick states,
        includes-append remediated closed states,
        includes-append satisfied closed states,
        any_of-append closed states,
      )
      (ground arith)

includes-append_last : (t : State) (states : List State) → includes t (states ++ t ∷ []) ≡ true
includes-append_last t states = rw (includes-append t t states, same_refl t) (ground arith)

includes-append_left :
    (s t : State) (states : List State)
    → includes s states ≡ true
    → includes s (states ++ t ∷ []) ≡ true
includes-append_left s t states h = rw (includes-append s t states, h) refl

module _ (r : Replayed) (t : State) (legal : allowed r.current t ≡ true) (f : Follows r) where
  abbrev entered : Replayed
  entered = record r { current = t; states = r.states ++ t ∷ [] }

  derived : derive_outcome r.states ≡ outcome_of (receipt_outcome r.current)
  derived = f.ongoing (open_before r.current t legal)

  enter_by : (o : Option Outcome) → receipt_outcome r.current ≡ o → Follows entered
  enter_by none e = record {
    here = includes-append_last t r.states;
    ongoing = λ n. derive_outcome-decided t r.states _ (derived ∙ ap outcome_of e);
    ended = λ shut.
        absurd (true≢false (sym shut ∙ closed_follows_outcome r.current t legal ∙ ap is_some e));
  }
  enter_by (some o) e = record {
    here = includes-append_last t r.states;
    ongoing = λ n.
        absurd (true≢false (sym (closed_follows_outcome r.current t legal ∙ ap is_some e) ∙ n));
    ended = λ shut. (
      r.current,
      o,
      includes-append_left r.current t r.states f.here,
      e,
      rw (same_closed t shut, derive_outcome-closed r.states, derived, e) refl,
    );
  }

  enter-Follows : Follows entered
  enter-Follows = enter_by (receipt_outcome r.current) refl

timed-Follows :
    (r : Replayed) (now : ℕ) → Follows r → Follows (record r { previous_recorded_at = now })
timed-Follows r now f = record { here = f.here; ongoing = f.ongoing; ended = f.ended }

at_proposed-Follows : Follows at_proposed
unfolding includes derive_outcome receipt_outcome
at_proposed-Follows = record { here = refl; ongoing = λ h. refl; ended = λ h. cc }

-- Where `replayStates` returns the states of a history, `deriveOutcome` returns an outcome, which is
-- the one that a receipt issued in one of these states carries.
pub derive_outcome-replay_states :
    (es : List Event) (id d : String) (states : List State)
    → replay_states es id d ≡ ok states
    → (s : State) × (o : Outcome) × (includes s states ≡ true)
      × (receipt_outcome s ≡ some o)
      × (derive_outcome states ≡ ok o)
unfolding replay_states
derive_outcome-replay_states es id d states h =
    let (_, after) = >>-eq-ok (semantic _) _ h in
    let (r, run, rest) = >>=-eq-ok (replay_events id es at_proposed) _ after in
    let (shut, last) = >>-eq-ok (semantic (same r.current closed)) _ rest in
    let f =
      replay_events-induction Follows timed-Follows enter-Follows id es at_proposed r run
        at_proposed-Follows in
    subst
      (λ xs.
        (s : State) × (o : Outcome) × (includes s xs ≡ true)
        × (receipt_outcome s ≡ some o)
        × (derive_outcome xs ≡ ok o))
      (ok_inj last) (f.ended (assert-ok _ "SEMANTIC_INVALID" shut))
