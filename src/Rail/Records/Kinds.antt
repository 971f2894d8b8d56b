-- ===== src/Rail/Records/Kinds.antt =====
-- The enumerations of src/rail-schema.js and src/rail-state.js, and an action's parameters.
use consequence_rail.Base.{ℕ, String}

pub data ProposalVersion : Type 0 where
  version_1 version_2 : ProposalVersion

pub data ActionType : Type 0 where
  refund email allocation : ActionType

pub data AssuranceMode : Type 0 where
  enforced cooperative observed : AssuranceMode

pub data Parameters : Type 0 where
  refund_parameters : (amount_minor : ℕ) (currency : String) → Parameters
  email_parameters : (recipient_id subject : String) → Parameters
  allocation_parameters : (sku : String) (quantity : ℕ) → Parameters

pub data RemedyKind : Type 0 where
  reverse compensate escalate : RemedyKind
