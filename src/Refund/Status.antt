-- ===== src/Refund/Status.antt =====
-- What `status` says after a first call of `execute`, whether that call returned or threw.
use consequence_rail.Base.{
  ℕ, ◌≤◌, ◌<◌, ◌≡◌, ◌≢◌, refl, ap, arith, Bool, true, false, String, none, some, [], ◌∷◌, length,
  length-append, lookup, contains, lookup-insert_self, if◌then◌else◌,
}
use consequence_rail.Canonical.{Runtime}
use consequence_rail.Errors.{Result, ok, err}
use consequence_rail.Rail.Records.{Proposal, Parameters, ConnectorResult, ResultStatus}
use consequence_rail.Rail.Interface.{Fault}
use consequence_rail.Signing.{Signer}
use consequence_rail.Connector.{
  outcome, is_counted, is_doubling, is_lost_before, or_unknown, status_of,
}
use consequence_rail.Connector.Idempotency.{remember-IsBound, once-free}
use consequence_rail.Refund.{
  Refund, Ledger, action_digest, remember_execution, create_refund, issue, settle_refund,
  execute_refund, execute_new, fits, execute_by,
}
use consequence_rail.Refund.Idempotency.{doubled-IsKnown}

module _ {C : Type 0} (rt : Runtime) (signer : Signer) (now : C → ℕ × C) where
  -- The status of a key, against the refunds before and after.
  pub data IsTruthful (key : String) (s t : Ledger C) : Type 0 where
    took_effect :
        (status_of key t.executions).status ≡ ResultStatus.executed
        → length s.refunds < length t.refunds
        → IsTruthful key s t
    had_none :
        (status_of key t.executions).status ≢ ResultStatus.executed
        → t.refunds ≡ s.refunds
        → IsTruthful key s t

  issue-grows :
      (q : Proposal) (b : Bool) (n : ℕ) (c r : String) (s : Ledger C)
      → length s.refunds ≤ length (issue rt signer now q b n c r s).1.refunds
  issue-grows q true n c r s = omega (arith, length-append s.refunds (_ ∷ []))
  issue-grows q false n c r s = omega arith

  create_refund-grows :
      (q : Proposal) (ps : Parameters) (r : String) (s : Ledger C)
      → length s.refunds ≤ length (create_refund rt signer now q ps r s).1.refunds
  unfolding create_refund
  create_refund-grows q (Parameters.refund_parameters n c) r s =
      issue-grows q (is_counted n) n c r s
  create_refund-grows q (Parameters.email_parameters a b) r s = omega arith
  create_refund-grows q (Parameters.allocation_parameters a b) r s = omega arith

  -- A refund was created, or nothing was.
  abbrev Started : String → Ledger C → Result Refund × Ledger C → Type 0
  Started key s (ok r, u) = length s.refunds < length u.refunds
  Started key s (err e, u) = (u.refunds ≡ s.refunds) × (lookup key u.executions.results ≡ none)

  issue-Started :
      (q : Proposal) (key : String) (b : Bool) (n : ℕ) (c r : String) (s : Ledger C)
      → lookup key s.executions.results ≡ none
      → Started key s (issue rt signer now q b n c r s)
  issue-Started q key true n c r s fresh = omega (arith, length-append s.refunds (_ ∷ []))
  issue-Started q key false n c r s fresh = (refl, fresh)

  create_refund-Started :
      (q : Proposal) (ps : Parameters) (key r : String) (s : Ledger C)
      → lookup key s.executions.results ≡ none
      → Started key s (create_refund rt signer now q ps r s)
  unfolding create_refund
  create_refund-Started q (Parameters.refund_parameters n c) key r s fresh =
      issue-Started q key (is_counted n) n c r s fresh
  create_refund-Started q (Parameters.email_parameters a b) key r s fresh = (refl, fresh)
  create_refund-Started q (Parameters.allocation_parameters a b) key r s fresh = (refl, fresh)

  longer_either_way :
      (b : Bool) (n : ℕ) (u v : Ledger C)
      → n < length u.refunds
      → length u.refunds ≤ length v.refunds
      → n < length (if b then v else u).refunds
  longer_either_way true n u v h k = omega (arith, h, k)
  longer_either_way false n u v h k = h

  settle_refund-IsTruthful :
      (p : Proposal) (key : String) (f : Fault) (s : Ledger C) (created : Result Refund × Ledger C)
      → Started key s created
      → IsTruthful key s (settle_refund rt signer now p key f created).1
  unfolding settle_refund status_of
  settle_refund-IsTruthful p key f s (err e, u) (same_refunds, fresh) =
      had_none (λ h. cc) same_refunds
  settle_refund-IsTruthful p key f s (ok r, u) grew =
      let y = outcome ResultStatus.executed key (some r.refund_id) in
      let u' = remember_execution rt signer now key p y u in
      let bound =
        doubled-IsKnown rt signer now (is_doubling f) p key _ y u'
          (remember-IsBound key (action_digest rt signer now p) y u.executions) in
      took_effect (ap (λ (x : ConnectorResult). x.status) (ap (or_unknown key) bound.result)) (
        longer_either_way (is_doubling f) (length s.refunds) u' _ grew
          (create_refund-grows p p.parameters _ u'))

  execute_new-IsTruthful :
      (p : Proposal) (key : String) (f : Fault) (b : Bool) (s : Ledger C)
      → lookup key s.executions.results ≡ none
      → IsTruthful key s (execute_new rt signer now p key f b s).1
  unfolding status_of
  execute_new-IsTruthful p key f true s fresh =
      had_none
        (λ h. cc (
          ap (λ (x : ConnectorResult). x.status)
            (ap (or_unknown key) (lookup-insert_self key _ s.executions.results))))
        refl
  execute_new-IsTruthful p key f false s fresh =
      settle_refund-IsTruthful p key f s _ (create_refund-Started p p.parameters key _ s fresh)

  -- After a first call of `execute` under a key, of a proposal within the limits of a digest, whatever
  -- fault was injected and whether the call returned or threw, `status` reports "executed" where a refund was created, and otherwise it
  -- reports something else and the refunds are as before.
  pub execute_refund-IsTruthful :
      (p : Proposal) (key : String) (f : Fault) (s : Ledger C)
      → fits rt signer now p ≡ true
      → contains key s.executions.digests ≡ false
      → lookup key s.executions.results ≡ none
      → IsTruthful key s (execute_refund rt signer now p key f s).1
  unfolding execute_refund
  execute_refund-IsTruthful p key f s sized free fresh =
      rw
        (
          once-free (λ (t : Ledger C). t.executions) key (action_digest rt signer now p)
              (fits rt signer now p) (execute_by rt signer now (fits rt signer now p) p key f) s
              free,
          sized,
        )
        (execute_new-IsTruthful p key f (is_lost_before f) s fresh)
