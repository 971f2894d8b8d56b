-- ===== src/Recovery/Verify/Accepted.antt =====
-- What an accepted bundle says: its attestation is the one that its own contract and trace give.
use consequence_rail.Base.{
  ℕ, ◌≡◌, ◌∙◌, refl, sym, ap, Bool, true, String, Option, none, some, is_some, decided_sound,
  str_eq,
}
use consequence_rail.Json.{Json, obj, num, pos, str, own, Json-discrete}
use consequence_rail.Canonical.{Runtime, digest}
use consequence_rail.Signing.{Keys}
use consequence_rail.Errors.{Result, ok, ◌>>◌, assert, >>-eq-ok, assert-ok, ok_inj}
use consequence_rail.Rail.Records.{
  RecoveryContract, Qualification, qualified_exact, review_compensated, not_qualified,
  not_testable_local, AttestationCore, RecoveryBundle, RecoveryVerification,
}
use consequence_rail.Recovery.Contract.{is_valid, validate_recovery_contract}
use consequence_rail.Recovery.Encode.{contract_json, recovery_coverage, qualification_text}
use consequence_rail.Recovery.Grade.{derive_qualification}
use consequence_rail.Recovery.Grade.Exact.{IsExactDrill, derive_qualification-IsExactDrill}
use consequence_rail.Recovery.Attest.{in_window, derived_core, build_attestation_core}
use consequence_rail.Recovery.Verify.{
  compared, same_core, check_current, verification_of, check_replay, is_adapter_of, is_named_after,
  check_shape, check_signature, hint_present, is_limited, verify_recovery_preflight,
}

abbrev text_of : Option Json → String
text_of (some (str s)) = s
text_of _ = ""

abbrev number_of : Option Json → ℕ
number_of (some (num (pos n))) = n
number_of _ = 0

abbrev value_at : String → Json → Option Json
value_at k (obj fs) = own k fs
value_at k _ = none

-- The fields of a core that the returned verification has.
pub record IsSameCore (a b : AttestationCore) : Type 0 where
  contracts : a.contract_digest ≡ b.contract_digest
  coverages : a.coverage_digest ≡ b.coverage_digest
  grades : qualification_text a.qualification ≡ qualification_text b.qualification
  pub expiries : a.expires_at ≡ b.expires_at

same_core-IsSameCore : (a b : AttestationCore) → same_core a b ≡ true → IsSameCore a b
unfolding same_core compared own
same_core-IsSameCore a b h =
    let e = decided_sound (Json-discrete (compared a) (compared b)) h in
    record {
      contracts = ap (λ j. text_of (value_at "contract_digest" j)) e;
      coverages = ap (λ j. text_of (value_at "coverage_digest" j)) e;
      grades = ap (λ j. text_of (value_at "qualification" j)) e;
      expiries = ap (λ j. number_of (value_at "expires_at" j)) e;
    }

exact_by_text : (q : Qualification) → qualification_text q ≡ "QUALIFIED_EXACT" → q ≡ qualified_exact
exact_by_text qualified_exact h = refl
exact_by_text review_compensated h = cc
exact_by_text not_qualified h = cc
exact_by_text not_testable_local h = cc

module _ (rt : Runtime) (keys : Keys) (b : RecoveryBundle) where
  abbrev core : AttestationCore
  core = b.drill_attestation.core

  abbrev its_contract : RecoveryContract
  its_contract = b.recovery_contract

  -- What a returned verification rests on.
  pub record IsReplayed (now : Option ℕ) (v : RecoveryVerification) : Type 0 where
    pub valid : is_valid its_contract ≡ true
    pub window : in_window its_contract core.drilled_at ≡ true
    pub same : IsSameCore core (derived_core rt its_contract b.trace core.drilled_at)
    pub current : check_current now core ≡ ok tt
    pub returned : verification_of rt (is_some now) b.drill_attestation ≡ v

  abbrev invalid : Bool → Result (Unit {0})
  invalid test = assert test "RECOVERY_BUNDLE_INVALID"

  abbrev its_core : AttestationCore
  its_core = derived_core rt its_contract b.trace core.drilled_at

  replay-holds :
      check_replay rt its_contract b.trace b.drill_attestation ≡ ok tt
      → (in_window its_contract core.drilled_at ≡ true) × (same_core core its_core ≡ true)
  unfolding check_replay
  replay-holds h =
      let adapters = invalid (is_adapter_of its_contract b.trace) in
      let windows = invalid (in_window its_contract core.drilled_at) in
      let cores = invalid (same_core core its_core) in
      let names = invalid (is_named_after rt its_contract b.trace b.drill_attestation) in
      let (before_name, _) = >>-eq-ok (adapters >> windows >> cores) names h in
      let (before_core, same) = >>-eq-ok (adapters >> windows) cores before_name in
      let (_, window) = >>-eq-ok adapters windows before_core in
      (assert-ok _ "RECOVERY_BUNDLE_INVALID" window, assert-ok _ "RECOVERY_BUNDLE_INVALID" same)

  shape-valid : check_shape rt b ≡ ok tt → is_valid its_contract ≡ true
  unfolding validate_recovery_contract
  shape-valid h =
      let size = assert (is_limited rt b) "CANONICALIZATION_FAILED" in
      let version =
        invalid (str_eq b.schema_version "consequence-rail/recovery-drill-bundle/v0.1") in
      let contract = assert (is_valid its_contract) "RECOVERY_CONTRACT_INVALID" in
      let (before_hint, _) =
        >>-eq-ok (size >> version >> contract) (invalid (hint_present b.trust_hint)) h in
      assert-ok _ "RECOVERY_CONTRACT_INVALID" (>>-eq-ok (size >> version) contract before_hint).1

  pub verify-IsReplayed :
      (now : Option ℕ) (v : RecoveryVerification)
      → verify_recovery_preflight rt keys b now ≡ ok v
      → IsReplayed now v
  unfolding verify_recovery_preflight
  verify-IsReplayed now v h =
      let shape = check_shape rt b in
      let signature = check_signature rt keys b.drill_attestation in
      let replay = check_replay rt its_contract b.trace b.drill_attestation in
      let time = check_current now core in
      let (checked, returned) =
        >>-eq-ok (shape >> signature >> replay >> time)
          (ok (verification_of rt (is_some now) b.drill_attestation)) h in
      let (replayed, current) = >>-eq-ok (shape >> signature >> replay) time checked in
      let (signed, derived) = >>-eq-ok (shape >> signature) replay replayed in
      record {
        valid = shape-valid (>>-eq-ok shape signature signed).0;
        window = (replay-holds derived).0;
        same = same_core-IsSameCore core its_core (replay-holds derived).1;
        current = current;
        returned = ok_inj returned;
      }

  -- A bundle that is accepted as exact, under any keys and at any time, has a local drill on a
  -- synthetic fixture: the drill's fault changed the state that the contract pins, and the remedy
  -- brought back a state with the pinned digest.
  pub verify_recovery_preflight-IsExactDrill :
      (now : Option ℕ) (v : RecoveryVerification)
      → verify_recovery_preflight rt keys b now ≡ ok v
      → v.qualification ≡ "QUALIFIED_EXACT"
      → IsExactDrill rt b.recovery_contract b.trace
  unfolding build_attestation_core
  verify_recovery_preflight-IsExactDrill now v h exact =
      let r = verify-IsReplayed now v h in
      derive_qualification-IsExactDrill rt its_contract b.trace (
        exact_by_text (derive_qualification rt its_contract b.trace) (
          sym r.same.grades
          ∙ ap (λ (w : RecoveryVerification). w.qualification) r.returned
          ∙ exact))

  -- What the verification reports, in terms of the bundle's contract and trace.
  pub record IsDerived (v : RecoveryVerification) : Type 0 where
    pub contract : v.contract_digest ≡ digest rt (contract_json rt its_contract)
    pub coverage : v.coverage_digest ≡ digest rt (recovery_coverage its_contract)
    pub grade : v.qualification ≡ qualification_text (derive_qualification rt its_contract b.trace)

  -- An accepted bundle's reported digests and qualification are those of its own contract and trace,
  -- whatever its attestation says.
  pub verify_recovery_preflight-IsDerived :
      (now : Option ℕ) (v : RecoveryVerification)
      → verify_recovery_preflight rt keys b now ≡ ok v
      → IsDerived v
  unfolding build_attestation_core
  verify_recovery_preflight-IsDerived now v h =
      let r = verify-IsReplayed now v h in
      record {
        contract =
            ap (λ (w : RecoveryVerification). w.contract_digest) (sym r.returned)
            ∙ r.same.contracts;
        coverage =
            ap (λ (w : RecoveryVerification). w.coverage_digest) (sym r.returned)
            ∙ r.same.coverages;
        grade = ap (λ (w : RecoveryVerification). w.qualification) (sym r.returned) ∙ r.same.grades;
      }
