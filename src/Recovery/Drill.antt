-- ===== src/Recovery/Drill.antt =====
-- `runRecoveryPreflight`. The clock and the adapter are functions on a state of the outside.
pub mod Outcomes
pub mod Synthetic
use consequence_rail.Base.{
  ℕ, Bool, true, false, not, ◌&&◌, ◌||◌, String, str_eq, Option, none, some, List, [], ◌∷◌,
  if◌then◌else◌,
}
use consequence_rail.Json.{Json, null}
use consequence_rail.Canonical.{Runtime}
use consequence_rail.Signing.{Signer}
use consequence_rail.Errors.{rail_error, Result, ok, err, assert, ◌>>=◌, ◌>>◌}
use consequence_rail.Rail.Records.{RecoveryContract, Trace, RecoveryBundle}
use consequence_rail.Rail.Validate.{non_empty}
use consequence_rail.Recovery.Contract.{validate_recovery_contract}
use consequence_rail.Recovery.Grade.{is_synthetic}
use consequence_rail.Recovery.Attest.{in_window, bundle_of}

-- What an adapter reports: a trace in which its identity may be left out.
pub record RawTrace : Type 0 where
  pub adapter_id : Option String
  pub adapter_version : Option String
  pub adapter_implementation_digest : Option String
  pub local_testable : Bool
  pub checkpoint_reference_digest : Json
  pub baseline_state : Json
  pub checkpoint_state : Json
  pub damaged_state : Json
  pub recovered_state : Json
  pub fault_observed : Bool
  pub recovery_attempted : Bool
  pub oracle_satisfied : Bool
  pub notes : List String

-- A drill adapter. `measured` is what the registered measurement of mock-refund-recovery-adapter.js
-- gives for its `run`.
pub record Adapter (E : Type 0) : Type 0 where
  pub id : String
  pub version : String
  pub implementation_digest : String
  pub measured : String
  pub run : RecoveryContract → E → Result RawTrace × E

abbrev or_empty : Option String → String
or_empty none = ""
or_empty (some d) = d

-- An identity field of a raw trace, where it is present.
abbrev agrees : String → Option String → Bool
agrees expected none = true
agrees expected (some given) = str_eq given expected

module _ {E : Type 0} (rt : Runtime) (now : E → ℕ × E) where
  -- Only the registered adapter has a measurement.
  abbrev registered_measurement : Adapter E → Option String
  registered_measurement a = if str_eq a.id "mock-refund-recovery" then some a.measured else none

  -- `measuredAdapterDigest`
  abbrev pub measured_digest : RecoveryContract → Adapter E → Option String
  measured_digest c a =
      if is_synthetic c.fixture.fidelity
      then registered_measurement a
      else some a.implementation_digest

  abbrev is_measured : String → Option String → Bool
  is_measured d none = false
  is_measured d (some e) = str_eq e d

  -- The check of the adapter against the contract's fixture.
  abbrev pub matches : RecoveryContract → Adapter E → Bool
  matches c a =
      str_eq a.id c.fixture.adapter
      && str_eq a.version c.fixture.adapter_version
      && str_eq a.implementation_digest c.fixture.adapter_implementation_digest
      && (not (is_synthetic c.fixture.fidelity)
          || is_measured c.fixture.adapter_implementation_digest (measured_digest c a))

  -- The checks before the clock is read. `normalizeSigner` is the check of the key id here.
  abbrev pub admit : RecoveryContract → Adapter E → Signer → Result (Unit {0})
  admit c a signer =
      validate_recovery_contract c
      >> assert (non_empty signer.kid) "RECOVERY_CONFIG_INVALID"
      >> assert (matches c a) "RECOVERY_ADAPTER_MISMATCH"

  abbrev identity_agrees : Adapter E → String → RawTrace → Bool
  identity_agrees a implementation r =
      agrees a.id r.adapter_id
      && agrees a.version r.adapter_version
      && agrees implementation r.adapter_implementation_digest

  abbrev with_identity : Adapter E → String → RawTrace → Trace
  with_identity a implementation r = record {
    adapter_id = a.id;
    adapter_version = a.version;
    adapter_implementation_digest = implementation;
    local_testable = r.local_testable;
    checkpoint_reference_digest = r.checkpoint_reference_digest;
    baseline_state = r.baseline_state;
    checkpoint_state = r.checkpoint_state;
    damaged_state = r.damaged_state;
    recovered_state = r.recovered_state;
    fault_observed = r.fault_observed;
    recovery_attempted = r.recovery_attempted;
    oracle_satisfied = r.oracle_satisfied;
    notes = r.notes;
  }

  -- `normalizeTrace(rawTrace, measuredAdapter)`
  abbrev pub normalize_by : Bool → Adapter E → String → RawTrace → Result Trace
  normalize_by true a implementation r = ok (with_identity a implementation r)
  normalize_by false a implementation r = err (rail_error "RECOVERY_DRILL_INVALID")

  unfoldable pub normalize_trace : Adapter E → String → RawTrace → Result Trace
  normalize_trace a implementation r =
      normalize_by (identity_agrees a implementation r) a implementation r

  -- The trace of a fixture that is not synthetic, for which no adapter is run.
  abbrev pub not_executed : Adapter E → RawTrace
  not_executed a = record {
    adapter_id = some a.id;
    adapter_version = some a.version;
    adapter_implementation_digest = none;
    local_testable = false;
    checkpoint_reference_digest = null;
    baseline_state = null;
    checkpoint_state = null;
    damaged_state = null;
    recovered_state = null;
    fault_observed = false;
    recovery_attempted = false;
    oracle_satisfied = false;
    notes = "NON_SYNTHETIC_FIXTURE_NOT_EXECUTED" ∷ [];
  }

  abbrev pub raw_trace : Bool → RecoveryContract → Adapter E → E → Result RawTrace × E
  raw_trace true c a e = a.run c e
  raw_trace false c a e = (ok (not_executed a), e)

  abbrev pub sealed : RecoveryContract → Signer → ℕ → Result Trace → Result RecoveryBundle
  sealed c signer time (err thrown) = err thrown
  sealed c signer time (ok trace) = ok (bundle_of rt c trace time signer)

  abbrev pub graded :
      RecoveryContract → Adapter E → Signer → ℕ → Result RawTrace × E → Result RecoveryBundle × E
  graded c a signer time (err thrown, e) = (err thrown, e)
  graded c a signer time (ok raw, e) =
      (sealed c signer time (normalize_trace a (or_empty (measured_digest c a)) raw), e)

  abbrev pub timed :
      Bool → RecoveryContract → Adapter E → Signer → ℕ → E → Result RecoveryBundle × E
  timed false c a signer time e = (err (rail_error "RECOVERY_CONTRACT_EXPIRED"), e)
  timed true c a signer time e =
      graded c a signer time (raw_trace (is_synthetic c.fixture.fidelity) c a e)

  abbrev pub admitted :
      Result (Unit {0}) → RecoveryContract → Adapter E → Signer → E → Result RecoveryBundle × E
  admitted (err thrown) c a signer e = (err thrown, e)
  admitted (ok done) c a signer e =
      let (time, after) = now e in timed (in_window c time) c a signer time after

  -- `runRecoveryPreflight({ contract, adapter, signer, clock })`
  unfoldable pub run_recovery_preflight :
      RecoveryContract → Adapter E → Signer → E → Result RecoveryBundle × E
  run_recovery_preflight c a signer e = admitted (admit c a signer) c a signer e
