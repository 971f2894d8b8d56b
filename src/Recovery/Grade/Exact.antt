-- ===== src/Recovery/Grade/Exact.antt =====
-- What an exact qualification says of the contract and the trace.
use consequence_rail.Base.{
  Bool, true, false, not, &&-true, ◌≡◌, ◌≢◌, ◌∙◌, refl, sym, String, str_eq, eq_iff,
}
use consequence_rail.Canonical.{Runtime, digest}
use consequence_rail.Rail.Records.{
  Fidelity, synthetic, staging, production_like, qualified_exact, RecoveryContract, Trace,
}
use consequence_rail.Recovery.Grade.{grade, derive_qualification, is_synthetic}

grade-exact :
    (a b c r k : Bool)
    → grade a b c r k ≡ qualified_exact
    → (a ≡ true) × (b ≡ true) × (c ≡ true) × (r ≡ true)
unfolding grade
grade-exact true true true true k h = (refl, refl, refl, refl)
grade-exact true true true false k h = cc
grade-exact true true false r true h = cc
grade-exact true true false r false h = cc
grade-exact true false c r k h = cc
grade-exact false b c r k h = cc

is_synthetic_sound : (f : Fidelity) → is_synthetic f ≡ true → f ≡ synthetic
is_synthetic_sound synthetic h = refl
is_synthetic_sound staging h = cc
is_synthetic_sound production_like h = cc

apart : (s t : String) → not (str_eq s t) ≡ true → s ≢ t
apart s t h e = cc (h, (eq_iff s t).1 e)

module _ (rt : Runtime) (c : RecoveryContract) (t : Trace) where
  -- The drill was local and synthetic, its fault changed the state that the contract pins, and the
  -- recovered state has the pinned digest again.
  pub record IsExactDrill : Type 0 where
    pub ran_locally : t.local_testable ≡ true
    pub fidelity : c.fixture.fidelity ≡ synthetic
    pub baseline : digest rt t.baseline_state ≡ c.fixture.checkpoint_digest
    pub checkpoint : digest rt t.checkpoint_state ≡ c.fixture.checkpoint_digest
    pub damaged : digest rt t.damaged_state ≢ c.fixture.checkpoint_digest
    pub attempted : t.recovery_attempted ≡ true
    pub satisfied : t.oracle_satisfied ≡ true
    pub recovered : digest rt t.recovered_state ≡ c.fixture.checkpoint_digest

  -- Only such a drill is qualified as exact.
  pub derive_qualification-IsExactDrill :
      derive_qualification rt c t ≡ qualified_exact → IsExactDrill
  unfolding derive_qualification
  derive_qualification-IsExactDrill h =
      let (is_here, drilled, by_state, restored) = grade-exact _ _ _ _ _ h in
      let (intact_observed, attempted) = &&-true _ _ drilled in
      let (intact, observed) = &&-true _ _ intact_observed in
      let (before_checkpoint, checkpoint) = &&-true _ _ intact in
      let (before_baseline, baseline) = &&-true _ _ before_checkpoint in
      let (satisfied_captured, recovered) = &&-true _ _ restored in
      let its_baseline =
        (eq_iff (digest rt t.baseline_state) c.fixture.checkpoint_digest).0 baseline in
      record {
        ran_locally = (&&-true _ _ is_here).0;
        fidelity = is_synthetic_sound c.fixture.fidelity (&&-true _ _ is_here).1;
        baseline = its_baseline;
        checkpoint =
            (eq_iff (digest rt t.checkpoint_state) c.fixture.checkpoint_digest).0 checkpoint;
        damaged = λ same. apart _ _ (&&-true _ _ observed).1 (its_baseline ∙ sym same);
        attempted = attempted;
        satisfied = (&&-true _ _ satisfied_captured).0;
        recovered =
            sym ((eq_iff (digest rt t.baseline_state) (digest rt t.recovered_state)).0 recovered)
            ∙ its_baseline;
      }
