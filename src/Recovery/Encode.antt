-- ===== src/Recovery/Encode.antt =====
-- The object literals of recovery-preflight.js that are digested or signed, and the texts of its
-- enumerations.
use consequence_rail.Base.{ℕ, String, List, [], ◌∷◌, map}
use consequence_rail.Json.{Json, str, bool, nat, object, array, text_or_null}
use consequence_rail.Canonical.{Runtime}
use consequence_rail.Signing.{signature_json}
use consequence_rail.Rail.Records.{
  RecoveryBundle, RecoveryClass, exact, compensation, containment, escalation, Fidelity, synthetic,
  staging, production_like, Qualification, qualified_exact, review_compensated, not_qualified,
  not_testable_local, DrillStep, Fixture, RecoveryContract, Trace, AttestationCore, Attestation,
}
use consequence_rail.Rail.Encode.{action_type_text, mode_text, kind_text}

abbrev pub class_text : RecoveryClass → String
class_text exact = "exact"
class_text compensation = "compensation"
class_text containment = "containment"
class_text escalation = "escalation"

abbrev pub fidelity_text : Fidelity → String
fidelity_text synthetic = "synthetic"
fidelity_text staging = "staging"
fidelity_text production_like = "production-like"

abbrev pub qualification_text : Qualification → String
qualification_text qualified_exact = "QUALIFIED_EXACT"
qualification_text review_compensated = "REVIEW_COMPENSATED"
qualification_text not_qualified = "NOT_QUALIFIED"
qualification_text not_testable_local = "NOT_TESTABLE_LOCAL"

unfoldable pub step_json : DrillStep → Json
step_json s =
    object (("kind", str s.kind) ∷ ("version", str s.version) ∷ ("parameters", s.parameters) ∷ [])

unfoldable pub fixture_json : Fixture → Json
fixture_json f = object (
    ("adapter", str f.adapter)
    ∷ ("adapter_version", str f.adapter_version)
    ∷ ("adapter_implementation_digest", str f.adapter_implementation_digest)
    ∷ ("checkpoint_digest", str f.checkpoint_digest)
    ∷ ("fidelity", str (fidelity_text f.fidelity))
    ∷ ("configuration", f.configuration)
    ∷ [])

abbrev scope_json : RecoveryContract → Json
scope_json c = object (
    ("connector", str c.connector)
    ∷ ("resource_type", str c.resource_type)
    ∷ ("assurance_mode", str (mode_text c.assurance_mode))
    ∷ ("parameters_digest", str c.parameters_digest)
    ∷ ("postcondition_digest", str c.postcondition_digest)
    ∷ ("evidence_plan_digest", str c.evidence_plan_digest)
    ∷ [])

abbrev recourse_json : RecoveryContract → Json
recourse_json c = object (
    ("kind", str (kind_text c.kind))
    ∷ ("capability", str c.capability)
    ∷ ("implementation_digest", str c.implementation_digest)
    ∷ ("reservation_digest", str c.reservation_digest)
    ∷ ("capability_reference_digest", str c.capability_reference_digest)
    ∷ ("connector_commitment_digest", str c.connector_commitment_digest)
    ∷ [])

-- `recoveryCoverage(contract)`
unfoldable pub recovery_coverage : RecoveryContract → Json
recovery_coverage c = object (
    ("action_digest", str c.action_digest)
    ∷ ("action_class", str (action_type_text c.action_class))
    ∷ ("recourse", recourse_json c)
    ∷ ("scope", scope_json c)
    ∷ (
      "fixture",
      object (
          ("adapter", str c.fixture.adapter)
          ∷ ("adapter_version", str c.fixture.adapter_version)
          ∷ ("adapter_implementation_digest", str c.fixture.adapter_implementation_digest)
          ∷ ("checkpoint_digest", str c.fixture.checkpoint_digest)
          ∷ []),
    )
    ∷ [])

unfoldable pub trace_json : Trace → Json
trace_json t = object (
    ("adapter_id", str t.adapter_id)
    ∷ ("adapter_version", str t.adapter_version)
    ∷ ("adapter_implementation_digest", str t.adapter_implementation_digest)
    ∷ ("local_testable", bool t.local_testable)
    ∷ ("checkpoint_reference_digest", t.checkpoint_reference_digest)
    ∷ ("baseline_state", t.baseline_state)
    ∷ ("checkpoint_state", t.checkpoint_state)
    ∷ ("damaged_state", t.damaged_state)
    ∷ ("recovered_state", t.recovered_state)
    ∷ ("fault_observed", bool t.fault_observed)
    ∷ ("recovery_attempted", bool t.recovery_attempted)
    ∷ ("oracle_satisfied", bool t.oracle_satisfied)
    ∷ ("notes", array (map str t.notes))
    ∷ [])

-- The fields of an attestation that the verifier compares, the times written by a function.
abbrev pub core_fields : (ℕ → Json) → AttestationCore → List (String × Json)
core_fields time a =
    ("schema_version", str a.schema_version)
    ∷ ("contract_digest", str a.contract_digest)
    ∷ ("coverage_digest", str a.coverage_digest)
    ∷ ("adapter_digest", str a.adapter_digest)
    ∷ ("trace_digest", str a.trace_digest)
    ∷ ("fixture_digest", str a.fixture_digest)
    ∷ ("checkpoint_digest", str a.checkpoint_digest)
    ∷ ("fault_digest", str a.fault_digest)
    ∷ ("damaged_state_digest", text_or_null a.damaged_state_digest)
    ∷ ("procedure_digest", str a.procedure_digest)
    ∷ ("oracle_digest", str a.oracle_digest)
    ∷ ("recovered_state_digest", text_or_null a.recovered_state_digest)
    ∷ ("recovery_class", str (class_text a.recovery_class))
    ∷ ("fixture_fidelity", str (fidelity_text a.fixture_fidelity))
    ∷ ("qualification", str (qualification_text a.qualification))
    ∷ ("drilled_at", time a.drilled_at)
    ∷ ("expires_at", time a.expires_at)
    ∷ ("limitations", array (map str a.limitations))
    ∷ []

module _ (rt : Runtime) where
  abbrev time_json : ℕ → Json
  time_json t = str (rt.to_iso t)

  unfoldable pub contract_json : RecoveryContract → Json
  contract_json c = object (
      ("schema_version", str c.schema_version)
      ∷ ("contract_id", str c.contract_id)
      ∷ ("action_digest", str c.action_digest)
      ∷ ("action_class", str (action_type_text c.action_class))
      ∷ ("scope", scope_json c)
      ∷ ("recourse", recourse_json c)
      ∷ ("recovery_class", str (class_text c.recovery_class))
      ∷ ("fixture", fixture_json c.fixture)
      ∷ ("fault", step_json c.fault)
      ∷ ("procedure", step_json c.procedure)
      ∷ ("oracle", step_json c.oracle)
      ∷ ("issued_at", time_json c.issued_at)
      ∷ ("expires_at", time_json c.expires_at)
      ∷ ("max_attestation_age_seconds", nat c.max_attestation_age_seconds)
      ∷ [])

  -- What `digest(core)` and the signature cover: the core, and the core with its identifier.
  unfoldable pub core_json : AttestationCore → Json
  core_json a = object (core_fields time_json a)

  unfoldable pub attestation_body : AttestationCore → String → Json
  attestation_body a id = object (("attestation_id", str id) ∷ core_fields time_json a)

  unfoldable pub attestation_json : Attestation → Json
  attestation_json a = object (
      ("signature", signature_json a.signature)
      ∷ ("attestation_id", str a.attestation_id)
      ∷ core_fields time_json a.core)

  -- The whole bundle, as it is copied before it is read.
  unfoldable pub bundle_json : RecoveryBundle → Json
  unfolding contract_json attestation_json
  bundle_json b = object (
      ("schema_version", str b.schema_version)
      ∷ ("recovery_contract", contract_json b.recovery_contract)
      ∷ ("trace", trace_json b.trace)
      ∷ ("drill_attestation", attestation_json b.drill_attestation)
      ∷ (
        "trust_hint",
        object (
            ("key_id", str b.trust_hint.key_id)
            ∷ ("public_key_pem", str b.trust_hint.public_key_pem)
            ∷ ("warning", str b.trust_hint.warning)
            ∷ []),
      )
      ∷ [])
