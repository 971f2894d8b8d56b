-- ===== src/State/Order.antt =====
-- The transition table has no cycle: every transition climbs a rank.
use consequence_rail.Base.{decided_sound, ℕ, ◌<◌, ◌≡◌, true, arith}
use consequence_rail.State.{
  same, State-discrete, State, proposed, authorized, recourse_reserved, permitted, executing,
  executed, unknown, verifying, breached, remedy_due, remediating, remedy_verifying, remedy_unknown,
  closed, allowed,
}

-- How far a state lies along the lifecycle.
abbrev pub rank : State → ℕ
rank proposed = 0
rank authorized = 1
rank recourse_reserved = 2
rank permitted = 3
rank executing = 4
rank unknown = 5
rank executed = 6
rank verifying = 7
rank breached = 8
rank remedy_due = 9
rank remediating = 10
rank remedy_unknown = 11
rank remedy_verifying = 12
rank closed = 14
rank _ = 13

-- Every transition that the table permits leads to a state of a higher rank.
pub rank-lt : (s t : State) → allowed s t ≡ true → rank s < rank t
unfolding allowed
rank-lt proposed t h = ground arith
rank-lt _ t h = ground arith

pub same_sound : (s t : State) → same s t ≡ true → s ≡ t
unfolding same
same_sound s t h = decided_sound (State-discrete s t) h
