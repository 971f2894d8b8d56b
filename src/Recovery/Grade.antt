-- ===== src/Recovery/Grade.antt =====
-- `deriveQualification`
pub mod Exact
use consequence_rail.Base.{ℕ, Bool, true, false, not, ◌&&◌, String, str_eq, decided, ◌≡◌, refl}
use consequence_rail.Json.{Json, null, str}
use consequence_rail.Canonical.{Runtime, digest}
use consequence_rail.Rail.Records.{
  RecoveryClass, exact, compensation, Fidelity, synthetic, Qualification, qualified_exact,
  review_compensated, not_qualified, not_testable_local, RecoveryContract, Trace,
}

-- `state !== null`
abbrev pub is_captured : Json → Bool
is_captured null = false
is_captured _ = true

-- `value === text`
abbrev pub is_text : String → Json → Bool
is_text s (str t) = str_eq t s
is_text s _ = false

abbrev pub is_synthetic : Fidelity → Bool
is_synthetic synthetic = true
is_synthetic _ = false

abbrev pub is_exact : RecoveryClass → Bool
is_exact exact = true
is_exact _ = false

abbrev is_compensation : RecoveryClass → Bool
is_compensation compensation = true
is_compensation _ = false

abbrev pub grade_exact : Bool → Qualification
grade_exact true = qualified_exact
grade_exact false = not_qualified

abbrev pub grade_other : Bool → Qualification
grade_other true = review_compensated
grade_other false = not_testable_local

abbrev pub grade_by_class : Bool → Bool → Bool → Qualification
grade_by_class true restored compensated = grade_exact restored
grade_by_class false restored compensated = grade_other compensated

abbrev pub grade_drilled : Bool → Bool → Bool → Bool → Qualification
grade_drilled true by_state restored compensated = grade_by_class by_state restored compensated
grade_drilled false by_state restored compensated = not_qualified

-- The early returns of `deriveQualification`, in their order.
unfoldable pub grade : Bool → Bool → Bool → Bool → Bool → Qualification
grade true drilled by_state restored compensated =
    grade_drilled drilled by_state restored compensated
grade false drilled by_state restored compensated = not_testable_local

module _ (rt : Runtime) (c : RecoveryContract) (t : Trace) where
  abbrev pub is_local : Bool
  is_local = t.local_testable && is_synthetic c.fixture.fidelity

  abbrev pub checkpoint_intact : Bool
  checkpoint_intact =
      is_captured t.baseline_state
      && is_captured t.checkpoint_state
      && is_text c.fixture.checkpoint_digest t.checkpoint_reference_digest
      && str_eq (digest rt t.baseline_state) c.fixture.checkpoint_digest
      && str_eq (digest rt t.checkpoint_state) c.fixture.checkpoint_digest

  abbrev pub fault_observed : Bool
  fault_observed =
      t.fault_observed
      && is_captured t.baseline_state
      && is_captured t.damaged_state
      && not (str_eq (digest rt t.baseline_state) (digest rt t.damaged_state))

  abbrev pub state_restored : Bool
  state_restored =
      t.oracle_satisfied
      && is_captured t.recovered_state
      && str_eq (digest rt t.baseline_state) (digest rt t.recovered_state)

  unfoldable pub derive_qualification : Qualification
  derive_qualification =
      grade is_local (checkpoint_intact && fault_observed && t.recovery_attempted)
        (is_exact c.recovery_class && str_eq c.oracle.kind "exact-state-digest") state_restored
        (is_compensation c.recovery_class && t.oracle_satisfied)
