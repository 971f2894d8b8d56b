-- ===== src/Refund/Restored.antt =====
-- A refund that is doubled and then remedied, against one that was made once.
use text.Mathlib.TextPositions.{eq_refl}
use Prim.Native.String.{◌++◌}
use consequence_rail.Base.{
  Bool, false, inl, inr, Bool-cases, length, ◌≤◌, arith, ◌∙◌, ℕ, ◌≡◌, refl, true, String, some, [],
  ◌∷◌, leb, Dict, lookup, str_eq,
}
use consequence_rail.Errors.{ok}
use consequence_rail.Canonical.{Runtime}
use consequence_rail.Signing.{Signer}
use consequence_rail.Rail.Records.{Proposal, refund_parameters, Reservation, ResultStatus}
use consequence_rail.Rail.Interface.{Fault}
use consequence_rail.Refund.Remedy.{few_untouched, remediate-VoidsAtMostOne}
use consequence_rail.Connector.{is_counted, outcome, Held, no_bindings, held_active, once}
use consequence_rail.Refund.{
  fits, Refund, Ledger, create_refund, settle_refund, execute_refund, remediate, facts, void_last,
  is_own, issue, new_refund, remember_execution,
}

-- A connector that was just made, and has these reservations.
abbrev pub new_ledger : {C : Type 0} → C → Dict Held → Ledger C
new_ledger c held = record {
  clock = c;
  exclusive_credential_custody = true;
  refunds = [];
  recourse = held;
  executions = no_bindings;
  remedies = no_bindings;
}

module _ {C : Type 0} (rt : Runtime) (signer : Signer) (now : C → ℕ × C) where
  abbrev pub declares : Proposal → ℕ → String → Proposal
  declares p n c = record p { parameters = refund_parameters n c }

  -- The first refund of a new connector, and the one after it.
  abbrev first_refund : Proposal → ℕ → String → String → C → Refund
  first_refund p n c key e =
      new_refund rt signer now (declares p n c) n c (key ++ ":primary") 0 (now e).0

  abbrev second_refund : Proposal → ℕ → String → String → C → Refund
  second_refund p n c key e =
      new_refund rt signer now (declares p n c) n c (key ++ ":duplicate") 1 (now (now e).1).0

  once_executed :
      (p : Proposal) (n : ℕ) (c key : String) (e : C) (held : Dict Held)
      → is_counted n ≡ true
      → fits rt signer now (declares p n c) ≡ true
      → (execute_refund rt signer now (declares p n c) key Fault.none (new_ledger e held)).1.refunds
        ≡ first_refund p n c key e ∷ []
  unfolding execute_refund once settle_refund create_refund lookup
  once_executed p n c key e held positive sized = rw (sized, positive) refl

  abbrev doubled : Proposal → ℕ → String → String → C → Dict Held → Ledger C
  doubled p n c key e held =
      let q = declares p n c in
      let made =
        remember_execution rt signer now key q
          (outcome ResultStatus.executed key (some (first_refund p n c key e).refund_id))
          (new_ledger e held) in
      record made {
        clock = (now (now e).1).1;
        refunds = first_refund p n c key e ∷ second_refund p n c key e ∷ [];
      }

  settle_doubled :
      (p : Proposal) (n : ℕ) (c key : String) (r : Refund) (s : Ledger C)
      → is_counted n ≡ true
      → (settle_refund rt signer now (declares p n c) key Fault.duplicate (ok r, s)).1
        ≡ (issue rt signer now (declares p n c) true n c (key ++ ":duplicate") (
            remember_execution rt signer now key
              (declares p n c)
              (outcome ResultStatus.executed key (some r.refund_id))
              s)).1
  unfolding settle_refund create_refund
  settle_doubled p n c key r s positive = rw positive refl

  twice_executed :
      (p : Proposal) (n : ℕ) (c key : String) (e : C) (held : Dict Held)
      → is_counted n ≡ true
      → fits rt signer now (declares p n c) ≡ true
      → (execute_refund rt signer now (declares p n c) key Fault.duplicate (new_ledger e held)).1
        ≡ doubled p n c key e held
  unfolding execute_refund once create_refund lookup
  twice_executed p n c key e held positive sized =
      rw (sized, positive) (settle_doubled p n c key (first_refund p n c key e) _ positive)

  void_last-doubled :
      (p : Proposal) (n : ℕ) (c key : String) (e : C) (time : ℕ)
      → void_last
          (is_own (declares p n c))
          time
          (first_refund p n c key e ∷ second_refund p n c key e ∷ [])
        ≡ first_refund p n c key e
          ∷ record (second_refund p n c key e) { voided_at = some time }
          ∷ []
  unfolding void_last
  void_last-doubled p n c key e time =
      rw (eq_refl p.target.resource_id, eq_refl p.idempotency_key) refl

  remedied :
      (p : Proposal) (n : ℕ) (c key remedy : String) (r : Reservation) (e : C) (held : Dict Held)
      → held_active (lookup r.connector_commitment.reservation_token held) ≡ true
      → str_eq r.capability "void-duplicate-refund" ≡ true
      → fits rt signer now (declares p n c) ≡ true
      → (remediate rt signer now
          (declares p n c)
          r
          remedy
          Fault.none
          (doubled p n c key e held)).1.refunds
        ≡ first_refund p n c key e
          ∷ record (second_refund p n c key e) { voided_at = some (now (now (now e).1).1).0 }
          ∷ []
  unfolding remediate once lookup
  remedied p n c key remedy r e held on capable sized =
      rw (sized, on, capable, eq_refl p.target.resource_id, eq_refl p.idempotency_key)
        (void_last-doubled p n c key e (now (now (now e).1).1).0)

  facts-twice :
      (p : Proposal) (n : ℕ) (c key : String) (fault : Fault) (e : C) (time : ℕ) (s t : Ledger C)
      → s.refunds
        ≡ first_refund p n c key e
          ∷ record (second_refund p n c key e) { voided_at = some time }
          ∷ []
      → t.refunds ≡ first_refund p n c key e ∷ []
      → facts rt signer now (declares p n c) fault s ≡ facts rt signer now (declares p n c) fault t
  facts-twice p n c key fault e time s t remedied_refunds once_refunds =
      rw (remedied_refunds, once_refunds, eq_refl p.target.resource_id) refl

  facts-same :
      (q : Proposal) (fault : Fault) (s t : Ledger C)
      → s.refunds ≡ t.refunds
      → facts rt signer now q fault s ≡ facts rt signer now q fault t
  facts-same q fault s t same = rw same refl

  abbrev twice : Proposal → ℕ → String → String → C → Dict Held → Ledger C
  twice p n c key e held =
      (execute_refund rt signer now (declares p n c) key Fault.duplicate (new_ledger e held)).1

  abbrev one : Proposal → ℕ → String → String → C → Dict Held → Ledger C
  one p n c key e held =
      (execute_refund rt signer now (declares p n c) key Fault.none (new_ledger e held)).1

  -- Both calls leave the same refunds, of which there is at most one.
  abbrev Few : Ledger C → Ledger C → Type 0
  Few s t = (s.refunds ≡ t.refunds) × (length s.refunds ≤ 1)

  -- An amount that is no safe integer is refused, twice as well as once.
  uncounted :
      (p : Proposal) (n : ℕ) (c key : String) (e : C) (held : Dict Held) (b : Bool)
      → is_counted n ≡ false
      → fits rt signer now (declares p n c) ≡ b
      → Few
          (execute_refund rt signer now (declares p n c) key Fault.duplicate (new_ledger e held)).1
          (execute_refund rt signer now (declares p n c) key Fault.none (new_ledger e held)).1
  unfolding execute_refund once settle_refund create_refund lookup
  uncounted p n c key e held true refused sized = rw (sized, refused) (refl, omega arith)
  uncounted p n c key e held false refused sized = rw (sized, refused) (refl, omega arith)

  -- A proposal without a digest is given one refund in either case.
  undigested :
      (p : Proposal) (n : ℕ) (c key : String) (e : C) (held : Dict Held)
      → is_counted n ≡ true
      → fits rt signer now (declares p n c) ≡ false
      → Few
          (execute_refund rt signer now (declares p n c) key Fault.duplicate (new_ledger e held)).1
          (execute_refund rt signer now (declares p n c) key Fault.none (new_ledger e held)).1
  unfolding execute_refund once settle_refund create_refund lookup
  undigested p n c key e held positive sized = rw (sized, positive) (refl, omega arith)

  Few-restores :
      (q : Proposal) (remedy : String) (r : Reservation) (fault : Fault) (s t : Ledger C)
      → Few s t
      → facts rt signer now q fault (remediate rt signer now q r remedy Fault.none s).1
        ≡ facts rt signer now q fault t
  Few-restores q remedy r fault s t (same, few) =
      facts-same q fault (remediate rt signer now q r remedy Fault.none s).1 t (
        few_untouched rt signer now q r.connector_commitment.reservation_token s
          (remediate rt signer now q r remedy Fault.none s).1 few
          (remediate-VoidsAtMostOne rt signer now q r remedy Fault.none s)
        ∙ same)

  both-restore :
      (p : Proposal) (n : ℕ) (c key remedy : String) (r : Reservation) (fault : Fault) (e : C)
      (held : Dict Held)
      → is_counted n ≡ true
      → fits rt signer now (declares p n c) ≡ true
      → held_active (lookup r.connector_commitment.reservation_token held) ≡ true
      → str_eq r.capability "void-duplicate-refund" ≡ true
      → facts rt signer now
          (declares p n c)
          fault
          (remediate rt signer now
            (declares p n c)
            r
            remedy
            Fault.none
            (execute_refund rt signer now
              (declares p n c)
              key
              Fault.duplicate
              (new_ledger e held)).1).1
        ≡ facts rt signer now
            (declares p n c)
            fault
            (execute_refund rt signer now (declares p n c) key Fault.none (new_ledger e held)).1
  both-restore p n c key remedy r fault e held positive sized on capable =
      rw (twice_executed p n c key e held positive sized) (
        facts-twice p n c key fault e (now (now (now e).1).1).0
          (remediate rt signer now (declares p n c) r remedy Fault.none
            (doubled p n c key e held)).1
          (execute_refund rt signer now (declares p n c) key Fault.none (new_ledger e held)).1
          (remedied p n c key remedy r e held on capable sized)
          (once_executed p n c key e held positive sized))

  -- On a new connector and a positive amount, a refund that the duplicate fault doubled and that was
  -- then remedied, under an active reservation of the capability to void duplicates, is observed like a
  -- refund that was made once without a fault, under any fault of the observation.
  pub remediate-restores :
      (p : Proposal) (n : ℕ) (c key remedy : String) (r : Reservation) (fault : Fault) (e : C)
      (held : Dict Held)
      → leb 1 n ≡ true
      → held_active (lookup r.connector_commitment.reservation_token held) ≡ true
      → str_eq r.capability "void-duplicate-refund" ≡ true
      → facts rt signer now
          (declares p n c)
          fault
          (remediate rt signer now
            (declares p n c)
            r
            remedy
            Fault.none
            (execute_refund rt signer now
              (declares p n c)
              key
              Fault.duplicate
              (new_ledger e held)).1).1
        ≡ facts rt signer now
            (declares p n c)
            fault
            (execute_refund rt signer now (declares p n c) key Fault.none (new_ledger e held)).1
  remediate-restores p n c key remedy r fault e held positive on capable =
      elim (Bool-cases (is_counted n)) [
        | inr refused ↦
            Few-restores (declares p n c) remedy r fault (twice p n c key e held)
              (one p n c key e held) (uncounted p n c key e held _ refused refl)
        | inl counted ↦ elim (Bool-cases (fits rt signer now (declares p n c))) [
          | inr unsized ↦
              Few-restores (declares p n c) remedy r fault (twice p n c key e held)
                (one p n c key e held) (undigested p n c key e held counted unsized)
          | inl sized ↦ both-restore p n c key remedy r fault e held counted sized on capable
        ]
      ]
