-- ===== src/Verify/Climb.antt =====
-- An accepted lifecycle climbs: no state is entered twice, so a permit is consumed at most once.
use consequence_rail.Base.{
  ℕ, suc, ◌+◌, ◌≤◌, ◌<◌, ◌≡◌, refl, sym, ◌∙◌, arith, true, false, String, List, [], ◌∷◌, ◌++◌,
  length, length-append, Bool-cases, inl, inr, if◌then◌else◌,
}
use consequence_rail.Errors.{ok}
use consequence_rail.State.{State, same, includes, allowed}
use consequence_rail.State.Order.{same_sound, rank, rank-lt}
use consequence_rail.EventStore.{Event}
use consequence_rail.Verify.{Replayed, at_proposed, replay_events}
use consequence_rail.Verify.Derive.{includes-append}
use consequence_rail.Verify.Steps.{replay_events-induction}

-- How often a state is entered.
abbrev pub count : State → List State → ℕ
count s [] = 0
count s (t ∷ ts) = let rest = count s ts in if same s t then suc rest else rest

count-append :
    (s t : State) (ts : List State)
    → count s (ts ++ t ∷ []) ≡ count s ts + (if same s t then 1 else 0)
count-append s t [] = ground arith
count-append s t (u ∷ us) = ground (arith, count-append s t us)

count-absent : (s : State) (ts : List State) → includes s ts ≡ false → count s ts ≡ 0
unfolding includes
count-absent s [] h = refl
count-absent s (t ∷ ts) h = ground (arith, count-absent s ts)

rank_le : (s : State) → rank s ≤ 14
rank_le s = ground arith

record Climbs (r : Replayed) : Type 0 where
  below : (s : State) → includes s r.states ≡ true → rank s ≤ rank r.current
  once : (s : State) → count s r.states ≤ 1
  few : length r.states ≤ suc (rank r.current)

module _ (r : Replayed) (t : State) (legal : allowed r.current t ≡ true) (c : Climbs r) where
  abbrev entered : Replayed
  entered = record r { current = t; states = r.states ++ t ∷ [] }

  climb : rank r.current < rank t
  climb = rank-lt r.current t legal

  fresh : includes t r.states ≡ false
  fresh = elim (Bool-cases (includes t r.states)) [
    | inr n ↦ n
    | inl i ↦ absurd (omega (arith, c.below t i, climb))
  ]

  below_entered : (s : State) → includes s entered.states ≡ true → rank s ≤ rank t
  below_entered s i = elim (Bool-cases (same s t)) [
    | inl e ↦ rw (same_sound s t e) (omega arith)
    | inr n ↦
        let earlier : includes s r.states ≡ true =
          grind (arith, sym (includes-append s t r.states) ∙ i, n) in
        omega (arith, c.below s earlier, climb)
  ]

  once_entered : (s : State) → count s entered.states ≤ 1
  once_entered s = elim (Bool-cases (same s t)) [
    | inl e ↦
        let new : includes s r.states ≡ false = rw (same_sound s t e) fresh in
        rw (count-append s t r.states, e, count-absent s r.states new) (omega arith)
    | inr n ↦ rw (count-append s t r.states, n) (omega (arith, c.once s))
  ]

  enter-Climbs : Climbs entered
  enter-Climbs = record {
    below = below_entered;
    once = once_entered;
    few = omega (arith, length-append r.states (t ∷ []), c.few, climb);
  }

timed-Climbs :
    (r : Replayed) (now : ℕ) → Climbs r → Climbs (record r { previous_recorded_at = now })
timed-Climbs r now c = record { below = c.below; once = c.once; few = c.few }

at_proposed-Climbs : Climbs at_proposed
unfolding includes
at_proposed-Climbs = record {
  below = λ s i. ground (arith, same_sound s State.proposed);
  once = λ s. ground arith;
  few = omega arith;
}

-- In a replay that accepts every event from `PROPOSED`, no state is entered twice and at most 15
-- states are visited. With `EXECUTING` for the state: a permit is consumed at most once.
pub replay_events-once :
    (id : String) (es : List Event) (r : Replayed)
    → replay_events id es at_proposed ≡ ok r
    → ((s : State) → count s r.states ≤ 1) × (length r.states ≤ 15)
replay_events-once id es r h =
    let c =
      replay_events-induction Climbs timed-Climbs enter-Climbs id es at_proposed r h
        at_proposed-Climbs in
    (c.once, omega (arith, c.few, rank_le r.current))
