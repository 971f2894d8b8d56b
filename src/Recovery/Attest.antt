-- ===== src/Recovery/Attest.antt =====
-- `expectedExpiry`, `buildAttestationCore` and the signed attestation with its bundle.
use Prim.Native.String.{◌++◌}
use consequence_rail.Base.{
  ℕ, ◌+◌, ◌*◌, Bool, true, false, ◌&&◌, String, Option, none, some, List, [], ◌∷◌, leb, ltb,
  if◌then◌else◌,
}
use consequence_rail.Json.{Json}
use consequence_rail.Canonical.{Runtime, digest}
use consequence_rail.Signing.{Signer, sign_artifact}
use consequence_rail.Rail.Records.{
  RecoveryContract, Trace, Qualification, AttestationCore, Attestation, RecoveryBundle,
}
use consequence_rail.Rail.Lifecycle.{short}
use consequence_rail.Recovery.Encode.{
  contract_json, recovery_coverage, trace_json, fixture_json, step_json, core_json,
  attestation_body,
}
use consequence_rail.Recovery.Grade.{is_captured, derive_qualification}

-- `LIMITATIONS`
abbrev limitations : List String
limitations =
    "Qualification is limited to the pinned fixture, adapter, fault, procedure and oracle."
    ∷ "Synthetic or staging evidence does not establish production recoverability."
    ∷ "Signatures establish integrity and provenance, not the truth of the drill environment." ∷ []

-- `expectedExpiry(contract, drilledAt)`
unfoldable pub expected_expiry : RecoveryContract → ℕ → ℕ
expected_expiry c drilled_at =
    let age_expiry = drilled_at + c.max_attestation_age_seconds * 1000 in
    if leb age_expiry c.expires_at then age_expiry else c.expires_at

-- Whether a drill at that time is within the contract's window.
abbrev pub in_window : RecoveryContract → ℕ → Bool
in_window c time = leb c.issued_at time && ltb time c.expires_at

module _ (rt : Runtime) where
  abbrev digest_if : Bool → Json → Option String
  digest_if true state = some (digest rt state)
  digest_if false state = none

  -- `state === null ? null : digest(state)`
  abbrev pub state_digest : Json → Option String
  state_digest state = digest_if (is_captured state) state

  -- `buildAttestationCore(contract, trace, qualification, drilledAt)`
  unfoldable pub build_attestation_core :
      RecoveryContract → Trace → Qualification → ℕ → AttestationCore
  build_attestation_core c t qualification drilled_at = record {
    schema_version = "consequence-rail/recovery-drill-attestation/v0.1";
    contract_digest = digest rt (contract_json rt c);
    coverage_digest = digest rt (recovery_coverage c);
    adapter_digest = c.fixture.adapter_implementation_digest;
    trace_digest = digest rt (trace_json t);
    fixture_digest = digest rt (fixture_json c.fixture);
    checkpoint_digest = c.fixture.checkpoint_digest;
    fault_digest = digest rt (step_json c.fault);
    damaged_state_digest = state_digest t.damaged_state;
    procedure_digest = digest rt (step_json c.procedure);
    oracle_digest = digest rt (step_json c.oracle);
    recovered_state_digest = state_digest t.recovered_state;
    recovery_class = c.recovery_class;
    fixture_fidelity = c.fixture.fidelity;
    qualification = qualification;
    drilled_at = drilled_at;
    expires_at = expected_expiry c drilled_at;
    limitations = limitations;
  }

  -- `rda_${digest(core).slice(0, 20)}`
  unfoldable pub attestation_id_of : AttestationCore → String
  attestation_id_of core = "rda_" ++ short 20 (digest rt (core_json rt core))

  -- The core that the runner and the verifier derive from a contract and a trace.
  abbrev pub derived_core : RecoveryContract → Trace → ℕ → AttestationCore
  derived_core c t drilled_at = build_attestation_core c t (derive_qualification rt c t) drilled_at

  unfoldable pub attest : RecoveryContract → Trace → ℕ → Signer → Attestation
  attest c t drilled_at signer =
      let core = derived_core c t drilled_at in
      record {
        core = core;
        attestation_id = attestation_id_of core;
        signature = sign_artifact rt (attestation_body rt core (attestation_id_of core)) signer;
      }

  -- The end of `runRecoveryPreflight`.
  unfoldable pub bundle_of : RecoveryContract → Trace → ℕ → Signer → RecoveryBundle
  unfolding attest
  bundle_of c t drilled_at signer = record {
    schema_version = "consequence-rail/recovery-drill-bundle/v0.1";
    recovery_contract = c;
    trace = t;
    drill_attestation = attest c t drilled_at signer;
    trust_hint = record {
      key_id = signer.kid;
      public_key_pem = signer.public_key_pem;
      warning = "An embedded key is not trusted automatically.";
    };
  }
