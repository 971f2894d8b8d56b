-- ===== src/State.antt =====
-- src/rail-state.js: the states of an action, the transition table and the outcome that a receipt
-- carries. An enumeration of the source's state names; `ALLOWED_TRANSITIONS[s] ?? []` is `successors`.
pub mod Order
use consequence_rail.Base.{Bool, false, ◌||◌, decided, Option, none, some, List, [], ◌∷◌, String}

pub data State : Type 0 where
  proposed authorized denied expired revoked recourse_reserved permitted : State
  executing executed failed unknown verifying satisfied breached inconclusive : State
  remedy_due remediating remedy_verifying remedy_failed remedy_unknown : State
  remediated remedy_inconclusive review_required closed : State

-- The name of a state.
abbrev pub code_of_state : State → String
code_of_state proposed = "PROPOSED"
code_of_state authorized = "AUTHORIZED"
code_of_state denied = "DENIED"
code_of_state expired = "EXPIRED"
code_of_state revoked = "REVOKED"
code_of_state recourse_reserved = "RECOURSE_RESERVED"
code_of_state permitted = "PERMITTED"
code_of_state executing = "EXECUTING"
code_of_state executed = "EXECUTED"
code_of_state failed = "FAILED"
code_of_state unknown = "UNKNOWN"
code_of_state verifying = "VERIFYING"
code_of_state satisfied = "SATISFIED"
code_of_state breached = "BREACHED"
code_of_state inconclusive = "INCONCLUSIVE"
code_of_state remedy_due = "REMEDY_DUE"
code_of_state remediating = "REMEDIATING"
code_of_state remedy_verifying = "REMEDY_VERIFYING"
code_of_state remedy_failed = "REMEDY_FAILED"
code_of_state remedy_unknown = "REMEDY_UNKNOWN"
code_of_state remediated = "REMEDIATED"
code_of_state remedy_inconclusive = "REMEDY_INCONCLUSIVE"
code_of_state review_required = "REVIEW_REQUIRED"
code_of_state closed = "CLOSED"

pub State-discrete : Discrete State
State-discrete = hlevel

-- `state === other`
unfoldable pub same : State → State → Bool
unfolding State-discrete
same s t = decided (State-discrete s t)

-- `states.includes(state)`
unfoldable pub includes : State → List State → Bool
unfolding same
includes s [] = false
includes s (t ∷ ts) = same s t || includes s ts

-- `ALLOWED_TRANSITIONS`
unfoldable pub successors : State → List State
successors proposed = authorized ∷ denied ∷ []
successors authorized = expired ∷ revoked ∷ recourse_reserved ∷ []
successors recourse_reserved = expired ∷ revoked ∷ permitted ∷ []
successors permitted = expired ∷ revoked ∷ executing ∷ []
successors executing = executed ∷ failed ∷ unknown ∷ []
successors unknown = executed ∷ failed ∷ review_required ∷ []
successors executed = verifying ∷ []
successors verifying = satisfied ∷ breached ∷ inconclusive ∷ []
successors breached = remedy_due ∷ []
successors remedy_due = remediating ∷ review_required ∷ []
successors remediating = remedy_verifying ∷ remedy_failed ∷ remedy_unknown ∷ []
successors remedy_unknown = remedy_verifying ∷ remedy_failed ∷ review_required ∷ []
successors remedy_verifying = remediated ∷ remedy_failed ∷ remedy_inconclusive ∷ []
successors satisfied = closed ∷ []
successors remediated = closed ∷ []
successors inconclusive = closed ∷ []
successors remedy_inconclusive = closed ∷ []
successors review_required = closed ∷ []
successors remedy_failed = closed ∷ []
successors _ = []

-- `(ALLOWED_TRANSITIONS[from] ?? []).includes(to)`
unfoldable pub allowed : State → State → Bool
unfolding includes successors
allowed from to = includes to (successors from)

pub data Outcome : Type 0 where
  settled compensated disputed : Outcome

-- `RECEIPT_OUTCOME_BY_STATE`
unfoldable pub receipt_outcome : State → Option Outcome
receipt_outcome satisfied = some settled
receipt_outcome remediated = some compensated
receipt_outcome inconclusive = some disputed
receipt_outcome remedy_inconclusive = some disputed
receipt_outcome review_required = some disputed
receipt_outcome remedy_failed = some disputed
receipt_outcome _ = none
