-- ===== src/Examples/Preflight.antt =====
-- A recovery drill at a concrete run: a fixture whose state is "one", a fault that makes it "two" and a
-- remedy that brings "one" back.
use consequence_rail.Base.{
  ℕ, ◌+◌, ◌≡◌, refl, arith, true, false, String, none, some, [], ◌∷◌, str_eq, if◌then◌else◌,
}
use consequence_rail.Errors.{ok, err, foreign}
use consequence_rail.Json.{str, object, null}
use consequence_rail.Canonical.{Runtime}
use consequence_rail.Signing.{Signer}
use consequence_rail.Signing.RoundTrip.{IsTrusted}
use consequence_rail.Rail.Records.{
  ActionType, AssuranceMode, RemedyKind, RecoveryClass, Fidelity, Qualification, DrillStep,
  RecoveryContract, RecoveryBundle, RecoveryVerification,
}
use consequence_rail.Recovery.Contract.{is_valid, validate_recovery_contract}
use consequence_rail.Recovery.Grade.{grade, derive_qualification}
use consequence_rail.Recovery.Grade.Exact.{IsExactDrill}
use consequence_rail.Recovery.Attest.{expected_expiry, build_attestation_core, attest, bundle_of}
use consequence_rail.Recovery.Drill.{Adapter, normalize_trace, run_recovery_preflight}
use consequence_rail.Recovery.Drill.Outcomes.{verify_recovery_preflight-run}
use consequence_rail.Recovery.Drill.Synthetic.{
  run_recovery_preflight-never_drills, run_recovery_preflight-remote,
}
use consequence_rail.Recovery.Verify.{verification_of, verify_recovery_preflight}
use consequence_rail.Recovery.Verify.Accepted.{
  IsDerived, verify_recovery_preflight-IsExactDrill, verify_recovery_preflight-IsDerived,
}
use consequence_rail.Recovery.Verify.Window.{IsCurrent, verify_recovery_preflight-IsCurrent}
use consequence_rail.Rail.Interface.{Rail}
use consequence_rail.Rail.Session.{Session}
use consequence_rail.Rail.Execution.{consume_permit}
use consequence_rail.Recovery.Qualified.{IsCovered, third_reading, consume_permit-IsCovered}
use consequence_rail.Recovery.Attest.{attestation_id_of}
use consequence_rail.Recovery.Encode.{
  attestation_body, attestation_json, contract_json, step_json, fixture_json, recovery_coverage,
  trace_json, core_json, bundle_json,
}
use consequence_rail.Recovery.Grade.{grade, derive_qualification}
use consequence_rail.Recovery.Verify.{compared, same_core, check_replay, is_limited}
use consequence_rail.Examples.{
  rail, permitted_session, proposal, runtime, signer, keys, digest_text, store_after,
}

-- A runtime that tells the damaged state from all else.
abbrev drill_runtime : Runtime
drill_runtime = record runtime {
  sha256 =
      λ s. if str_eq s "two" then "BBBBBBBBBBBBBBBBBBBBBBBBBBBBBBBBBBBBBBBBBBB" else digest_text;
}

abbrev drill_signer : Signer
drill_signer = record signer { public_key_pem = "pem" }

drill_signer-IsTrusted : IsTrusted drill_runtime drill_signer keys
unfolding store_after
drill_signer-IsTrusted = record {
  named = refl;
  known = refl;
  shaped = λ m. refl;
  canonical = λ m. refl;
  accepted = λ m. refl;
}

abbrev step : String → DrillStep
step kind = record { kind = kind; version = "1"; parameters = object [] }

abbrev contract : RecoveryContract
contract = record {
  schema_version = "consequence-rail/recovery-contract/v0.1";
  contract_id = "contract";
  action_digest = digest_text;
  action_class = ActionType.refund;
  connector = "bank";
  resource_type = "order";
  assurance_mode = AssuranceMode.enforced;
  parameters_digest = digest_text;
  postcondition_digest = digest_text;
  evidence_plan_digest = digest_text;
  kind = RemedyKind.reverse;
  capability = "reversal";
  implementation_digest = digest_text;
  reservation_digest = digest_text;
  capability_reference_digest = digest_text;
  connector_commitment_digest = digest_text;
  recovery_class = RecoveryClass.exact;
  fixture = record {
    adapter = "mock-refund-recovery";
    adapter_version = "1";
    adapter_implementation_digest = digest_text;
    checkpoint_digest = digest_text;
    fidelity = Fidelity.synthetic;
    configuration = object [];
  };
  fault = step "fault";
  procedure = step "procedure";
  oracle = step "exact-state-digest";
  issued_at = 0;
  expires_at = 100000;
  max_attestation_age_seconds = 60;
}

abbrev adapter : Adapter ℕ
adapter = record {
  id = "mock-refund-recovery";
  version = "1";
  implementation_digest = digest_text;
  measured = digest_text;
  run = λ c t. (
    ok (record {
      adapter_id = none;
      adapter_version = none;
      adapter_implementation_digest = none;
      local_testable = true;
      checkpoint_reference_digest = str digest_text;
      baseline_state = str "one";
      checkpoint_state = str "one";
      damaged_state = str "two";
      recovered_state = str "one";
      fault_observed = true;
      recovery_attempted = true;
      oracle_satisfied = true;
      notes = [];
    }),
    t,
  );
}

abbrev tick : ℕ → ℕ × ℕ
tick t = (t, t + 1)

-- The bundle of the drill at time 5.
abbrev bundle : RecoveryBundle
bundle =
    bundle_of drill_runtime contract
      (record {
        adapter_id = "mock-refund-recovery";
        adapter_version = "1";
        adapter_implementation_digest = digest_text;
        local_testable = true;
        checkpoint_reference_digest = str digest_text;
        baseline_state = str "one";
        checkpoint_state = str "one";
        damaged_state = str "two";
        recovered_state = str "one";
        fault_observed = true;
        recovery_attempted = true;
        oracle_satisfied = true;
        notes = [];
      })
      5 drill_signer

drilled : run_recovery_preflight drill_runtime tick contract adapter drill_signer 5 ≡ (ok bundle, 6)
unfolding store_after run_recovery_preflight is_valid validate_recovery_contract normalize_trace
drilled = refl

limited-bundle : is_limited drill_runtime bundle ≡ true
unfolding store_after bundle_of attest build_attestation_core expected_expiry derive_qualification
    grade is_limited bundle_json attestation_json contract_json step_json fixture_json trace_json
    recovery_coverage core_json attestation_id_of
limited-bundle = refl

accepted :
    verify_recovery_preflight drill_runtime keys bundle (some 10)
    ≡ ok (verification_of drill_runtime true bundle.drill_attestation)
unfolding store_after bundle_of attest build_attestation_core expected_expiry
accepted =
    verify_recovery_preflight-run drill_runtime tick contract adapter drill_signer 5 bundle 6 keys
      10 drilled drill_signer-IsTrusted refl limited-bundle (omega arith) (omega arith)

verify_recovery_preflight-run_example :
    verify_recovery_preflight drill_runtime keys bundle (some 10)
    ≡ ok (verification_of drill_runtime true bundle.drill_attestation)
unfolding store_after bundle_of attest build_attestation_core expected_expiry
verify_recovery_preflight-run_example =
    verify_recovery_preflight-run drill_runtime tick contract adapter drill_signer 5 bundle 6 keys
      10 drilled drill_signer-IsTrusted refl limited-bundle (omega arith) (omega arith)

abbrev verification : RecoveryVerification
verification = verification_of drill_runtime true bundle.drill_attestation

verify_recovery_preflight-IsExactDrill_example :
    IsExactDrill drill_runtime bundle.recovery_contract bundle.trace
unfolding store_after bundle_of attest build_attestation_core derive_qualification grade
verify_recovery_preflight-IsExactDrill_example =
    verify_recovery_preflight-IsExactDrill drill_runtime keys bundle (some 10) verification accepted
      refl

verify_recovery_preflight-IsDerived_example : IsDerived drill_runtime keys bundle verification
verify_recovery_preflight-IsDerived_example =
    verify_recovery_preflight-IsDerived drill_runtime keys bundle (some 10) verification accepted

verify_recovery_preflight-IsCurrent_example : IsCurrent drill_runtime keys bundle 10 verification
verify_recovery_preflight-IsCurrent_example =
    verify_recovery_preflight-IsCurrent drill_runtime keys bundle 10 verification accepted

-- The same contract for a staging fixture.
abbrev staged : RecoveryContract
staged = record contract { fixture = record contract.fixture { fidelity = Fidelity.staging } }

run_recovery_preflight-never_drills_example :
    run_recovery_preflight drill_runtime tick staged
      (record adapter { run = λ c t. (err foreign, 0); measured = "" })
      drill_signer
      5
    ≡ run_recovery_preflight drill_runtime tick staged adapter drill_signer 5
run_recovery_preflight-never_drills_example =
    run_recovery_preflight-never_drills drill_runtime tick staged adapter drill_signer 5
      (λ c t. (err foreign, 0)) "" refl

abbrev staged_bundle : RecoveryBundle
staged_bundle =
    bundle_of drill_runtime staged
      (record {
        adapter_id = "mock-refund-recovery";
        adapter_version = "1";
        adapter_implementation_digest = digest_text;
        local_testable = false;
        checkpoint_reference_digest = null;
        baseline_state = null;
        checkpoint_state = null;
        damaged_state = null;
        recovered_state = null;
        fault_observed = false;
        recovery_attempted = false;
        oracle_satisfied = false;
        notes = "NON_SYNTHETIC_FIXTURE_NOT_EXECUTED" ∷ [];
      })
      5 drill_signer

run_recovery_preflight-remote_example :
    staged_bundle.drill_attestation.core.qualification ≡ Qualification.not_testable_local
unfolding store_after run_recovery_preflight is_valid validate_recovery_contract normalize_trace
run_recovery_preflight-remote_example =
    run_recovery_preflight-remote drill_runtime tick staged adapter drill_signer 5 staged_bundle 6
      refl refl

-- The orchestrator with this verifier, and the permitted action with the accepted drill.
abbrev drill_rail : Rail ℕ
drill_rail = record rail {
  runtime = drill_runtime;
  verify_recovery_preflight = verify_recovery_preflight drill_runtime keys;
  measure_recovery_implementation = some (λ e capability. ok digest_text);
}

abbrev covered_session : Session ℕ
covered_session = record permitted_session {
  action = record permitted_session.action { recovery_preflight = some (bundle, verification) };
}

consume_permit-IsCovered_example :
    IsCovered drill_rail keys (third_reading drill_rail covered_session) bundle verification
unfolding store_after bundle_of attest build_attestation_core expected_expiry derive_qualification
    grade is_valid validate_recovery_contract verify_recovery_preflight check_replay same_core
    compared attestation_body attestation_json contract_json step_json fixture_json
    recovery_coverage trace_json attestation_id_of core_json is_limited bundle_json
consume_permit-IsCovered_example =
    consume_permit-IsCovered drill_rail keys proposal bundle verification covered_session
      (consume_permit drill_rail proposal covered_session).1 (λ d o. refl) refl refl
