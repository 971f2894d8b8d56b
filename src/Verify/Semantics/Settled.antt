-- ===== src/Verify/Semantics/Settled.antt =====
-- What an accepted audit bundle says of an outcome that is not disputed.
use mathlib.Core.Bool.{true≢false}
use mathlib.Core.List.{Memᴰ}
use consequence_rail.Base.{
  ◌≡◌, ◌∙◌, inl, inr, refl, sym, ap, subst, Bool, true, false, not, ◌&&◌, ◌||◌, &&-true, eq_iff,
  Option, none, some, List, [], ◌∷◌, any_of, find_first, Bool-cases,
}
use consequence_rail.Canonical.{Runtime, digest}
use consequence_rail.Errors.{
  ok, assert, assert_each, assert_each-ok, assert-ok, ok_inj, ◌>>◌, >>-eq-ok, >>=-eq-ok,
}
use consequence_rail.Signing.{Keys}
use consequence_rail.State.{State, Outcome, settled, compensated, disputed}
use consequence_rail.EventStore.{Event, ChainSummary}
use consequence_rail.Postconditions.{Verdict, evaluate_postcondition}
use consequence_rail.Rail.Guards.{err≢ok}
use consequence_rail.Rail.Records.{Proposal, Accepted}
use consequence_rail.Rail.Encode.{proposal_json}
use consequence_rail.Verify.{replay_states, derive_outcome}
use consequence_rail.Verify.Bundle.{Bundle, is_undisputed, verify_integrity}
use consequence_rail.Verify.Semantics.{
  Phased, SemanticVerification, is_audit, same_outcome, supports, recourse_fits, lifecycle_fits,
  evidence_fits, acceptance_fits, accepts, with_acceptance, verify_evidence_semantics,
  verify_all_evidence, check_finalization, semantics_of, with_proposal, verify_semantics,
  verify_bundle,
}

same_outcome_sound : (o p : Outcome) → same_outcome o p ≡ true → o ≡ p
same_outcome_sound settled settled h = refl
same_outcome_sound compensated compensated h = refl
same_outcome_sound disputed disputed h = refl
same_outcome_sound settled compensated h = cc
same_outcome_sound settled disputed h = cc
same_outcome_sound compensated settled h = cc
same_outcome_sound compensated disputed h = cc
same_outcome_sound disputed settled h = cc
same_outcome_sound disputed compensated h = cc

any_satisfied :
    (p : Phased → Bool) (found : List Phased)
    → ((f : Phased) → p f ≡ true → f.1 ≡ true)
    → any_of p found ≡ true
    → any_of (λ (f : Phased). f.1) found ≡ true
any_satisfied p [] imp h = cc
any_satisfied p (f ∷ fs) imp h = by_case (p f) f.1 (imp f) (any_satisfied p fs imp) h
  where
    by_case :
        (b c : Bool)
        → (b ≡ true → c ≡ true)
        → (any_of p fs ≡ true → any_of (λ (g : Phased). g.1) fs ≡ true)
        → (b || any_of p fs) ≡ true
        → (c || any_of (λ (g : Phased). g.1) fs) ≡ true
    by_case true true i below e = refl
    by_case true false i below e = cc (i refl)
    by_case false true i below e = refl
    by_case false false i below e = below e

supports-satisfied :
    (o : Outcome) (found : List Phased) (states : List State)
    → is_undisputed o ≡ true
    → supports o found states ≡ true
    → any_of (λ (f : Phased). f.1) found ≡ true
unfolding supports
supports-satisfied settled found states u h =
    any_satisfied (λ (f : Phased). not f.0 && f.1) found (λ f e. (&&-true _ _ e).1)
      (&&-true _ _ h).0
supports-satisfied compensated found states u h =
    any_satisfied (λ (f : Phased). f.0 && f.1) found (λ f e. (&&-true _ _ e).1) (&&-true _ _ h).1
supports-satisfied disputed found states u h = cc

module _ (rt : Runtime) where
  -- Evidence of a bundle that is bound to the proposal and satisfies its postcondition.
  pub record IsMet (b : Bundle) (p : Proposal) : Type 0 where
    pub evidence : Accepted
    pub included : Memᴰ evidence b.outcome_evidence
    pub bound : evidence.evidence.action_digest ≡ digest rt (proposal_json rt p)
    pub verdict : Verdict rt
    pub evaluated : evaluate_postcondition rt p.postcondition evidence.evidence.facts ≡ ok verdict
    pub satisfied : verdict.satisfied ≡ true

  -- One piece of evidence that passed.
  record HasPassed (a : Accepted) (p : Proposal) (f : Phased) : Type 0 where
    bound : a.evidence.action_digest ≡ digest rt (proposal_json rt p)
    verdict : Verdict rt
    evaluated : evaluate_postcondition rt p.postcondition a.evidence.facts ≡ ok verdict
    graded : verdict.satisfied ≡ f.1

  with_acceptance-evaluated :
      (a : Accepted) (p : Proposal) (events : List Event) (o : Option Event) (f : Phased)
      → with_acceptance rt a p events o ≡ ok f
      → (v : Verdict rt) × (evaluate_postcondition rt p.postcondition a.evidence.facts ≡ ok v)
        × (v.satisfied ≡ f.1)
  with_acceptance-evaluated a p events none f h = absurd (err≢ok h)
  with_acceptance-evaluated a p events (some e) f h =
      let fits = assert_each "SEMANTIC_INVALID" (acceptance_fits rt a p events e) in
      let (v, evaluated, rest) =
        >>=-eq-ok (fits >> evaluate_postcondition rt p.postcondition a.evidence.facts) _ h in
      let (_, found) =
        >>-eq-ok fits (evaluate_postcondition rt p.postcondition a.evidence.facts) evaluated in
      (
        v,
        found,
        ap (λ (g : Phased). g.1) (ok_inj (>>-eq-ok _ (ok (a.post_remedy, v.satisfied)) rest).1),
      )

  verify_evidence_semantics-HasPassed :
      (a : Accepted) (p : Proposal) (events : List Event) (f : Phased)
      → verify_evidence_semantics rt a p events ≡ ok f
      → HasPassed a p f
  unfolding verify_evidence_semantics
  verify_evidence_semantics-HasPassed a p events f h =
      let accepting = with_acceptance rt a p events (find_first (accepts rt a) events) in
      let (fits, accepted) =
        >>-eq-ok (assert_each "SEMANTIC_INVALID" (evidence_fits rt a p)) accepting h in
      let (v, evaluated, graded) = with_acceptance-evaluated a p events _ f accepted in
      record {
        bound = (eq_iff _ _).0 (assert_each-ok "SEMANTIC_INVALID" (evidence_fits rt a p) fits).0;
        verdict = v;
        evaluated = evaluated;
        graded = graded;
      }

  -- A satisfied element of `evaluations` comes from evidence of the bundle.
  verify_all_evidence-satisfied :
      (all : List Accepted) (p : Proposal) (events : List Event) (found : List Phased)
      → verify_all_evidence rt all p events ≡ ok found
      → any_of (λ (f : Phased). f.1) found ≡ true
      → (a : Accepted) × (f : Phased) × Memᴰ a all × HasPassed a p f × (f.1 ≡ true)
  unfolding verify_all_evidence
  verify_all_evidence-satisfied [] p events found h s =
      absurd (true≢false (sym s ∙ ap (any_of (λ (f : Phased). f.1)) (sym (ok_inj h))))
  verify_all_evidence-satisfied (a ∷ rest) p events found h s =
      let (f, passed, tail) = >>=-eq-ok (verify_evidence_semantics rt a p events) _ h in
      let (others, checked, made) = >>=-eq-ok (verify_all_evidence rt rest p events) _ tail in
      let one_of : any_of (λ (g : Phased). g.1) (f ∷ others) ≡ true =
        ap (any_of (λ (g : Phased). g.1)) (ok_inj made) ∙ s in
      elim (Bool-cases f.1) [
        | inl yes_here ↦ (
          a,
          f,
          Memᴰ.head refl,
          verify_evidence_semantics-HasPassed a p events f passed,
          yes_here,
        )
        | inr not_here ↦
            let later =
              subst (λ b. (b || any_of (λ (g : Phased). g.1) others) ≡ true) not_here one_of in
            let (b, g, member, found_there, sat) =
              verify_all_evidence-satisfied rest p events others checked later in
            (b, g, Memᴰ.tail member, found_there, sat)
      ]

  semantics_of-IsMet :
      (b : Bundle) (p : Proposal) (x : SemanticVerification)
      → semantics_of rt b p ≡ ok x
      → is_undisputed b.settlement_receipt.outcome ≡ true
      → IsMet b p
  semantics_of-IsMet b p x h undisputed =
      let recourse = assert_each "SEMANTIC_INVALID" (recourse_fits rt b p) in
      let replay = replay_states b.events b.action.action_id b.action.action_digest in
      let (states, _, h1) = >>=-eq-ok (recourse >> replay) _ h in
      let (outcome, _, h2) = >>=-eq-ok (derive_outcome states) _ h1 in
      let lifecycle = assert_each "SEMANTIC_INVALID" (lifecycle_fits rt b p states outcome) in
      let evidence = verify_all_evidence rt b.outcome_evidence p b.events in
      let (found, checked, h3) = >>=-eq-ok (lifecycle >> evidence) _ h2 in
      let (fits, graded) = >>-eq-ok lifecycle evidence checked in
      let supported = assert (supports outcome found states) "SEMANTIC_INVALID" in
      let finalized = check_finalization rt b outcome in
      let (ends, _) = >>-eq-ok (supported >> finalized) (ok _) h3 in
      let backed = assert-ok _ "SEMANTIC_INVALID" (>>-eq-ok supported finalized ends).0 in
      let same =
        same_outcome_sound b.settlement_receipt.outcome outcome
          (assert_each-ok "SEMANTIC_INVALID" (lifecycle_fits rt b p states outcome) fits).0 in
      let some_satisfied =
        supports-satisfied outcome found states
          (subst (λ o. is_undisputed o ≡ true) same undisputed) backed in
      let (a, f, member, passed, holds) =
        verify_all_evidence-satisfied b.outcome_evidence p b.events found graded some_satisfied in
      record {
        evidence = a;
        included = member;
        bound = passed.bound;
        verdict = passed.verdict;
        evaluated = passed.evaluated;
        satisfied = passed.graded ∙ holds;
      }

  with_proposal-IsMet :
      (o : Option Proposal) (b : Bundle) (p : Proposal) (x : SemanticVerification)
      → with_proposal rt o b ≡ ok x
      → o ≡ some p
      → is_undisputed b.settlement_receipt.outcome ≡ true
      → IsMet b p
  with_proposal-IsMet none b p x h e u = cc
  with_proposal-IsMet (some q) b p x h e u =
      semantics_of-IsMet b p x (subst (λ r. semantics_of rt b r ≡ ok x) (cc e) h) u

  -- An audit bundle that verifyBundle accepts with its semantics, under any keys, and whose receipt is
  -- settled or compensated, includes evidence that is bound to its proposal and satisfies the
  -- proposal's postcondition.
  pub verify_bundle-IsMet :
      (keys connector_keys : Keys) (b : Bundle) (p : Proposal)
      (x : ChainSummary rt × SemanticVerification)
      → verify_bundle rt keys connector_keys b ≡ ok x
      → b.action.proposal ≡ some p
      → is_undisputed b.settlement_receipt.outcome ≡ true
      → IsMet b p
  unfolding verify_bundle verify_semantics
  verify_bundle-IsMet keys connector_keys b p x h included undisputed =
      let (chain, _, h1) = >>=-eq-ok (verify_integrity rt keys connector_keys b) _ h in
      let (semantics, checked, _) = >>=-eq-ok (verify_semantics rt b) _ h1 in
      let audit = assert (is_audit b.profile) "SEMANTIC_INVALID" in
      let (_, replayed) = >>-eq-ok audit (with_proposal rt b.action.proposal b) checked in
      with_proposal-IsMet b.action.proposal b p semantics replayed included undisputed
