-- ===== src/Refund/Remedy.antt =====
-- The refund that `remediate` voids.
use consequence_rail.Base.{
  ℕ, suc, ◌≡◌, ◌≤◌, refl, arith, Bool, true, false, ◌&&◌, ◌||◌, String, Option, none, some, List,
  [], ◌∷◌, leb, leb→le, str_eq, length, length-keep-le, last?, keep, any_of, lookup, if◌then◌else◌,
}
use consequence_rail.Canonical.{Runtime}
use consequence_rail.Signing.{Signer}
use consequence_rail.Rail.Records.{Proposal, Reservation, ConnectorResult}
use consequence_rail.Rail.Interface.{Fault}
use consequence_rail.Connector.{held_active, remedy_lost_before, remedy_fails}
use consequence_rail.Connector.Idempotency.{once-keeps}
use consequence_rail.Refund.{
  Refund, Ledger, is_own, void_last, void, void_duplicate, remedy_by, remedy_held, remedy_new,
  remediate, fits, undigested_remedy, remedy_if,
}
use consequence_rail.Errors.{Result, ok, err, rail_error, foreign}

-- Two lists that differ in one refund, which the test holds of and which is voided in the second.
pub data VoidsOne (test : Refund → Bool) : List Refund → List Refund → Type 0 where
  voids_here :
      {r : Refund} {rest : List Refund} {time : ℕ}
      → test r ≡ true
      → VoidsOne test (r ∷ rest) (record r { voided_at = some time } ∷ rest)
  voids_later :
      {r : Refund} {rest rest' : List Refund}
      → VoidsOne test rest rest'
      → VoidsOne test (r ∷ rest) (r ∷ rest')

void_last-VoidsOne :
    (test : Refund → Bool) (time : ℕ) (rs : List Refund)
    → any_of test rs ≡ true
    → VoidsOne test rs (void_last test time rs)
unfolding void_last
void_last-VoidsOne test time [] h = cc
void_last-VoidsOne test time (r ∷ rest) h =
    by_case (any_of test rest) (test r) refl h (void_last-VoidsOne test time rest)
  where
    by_case :
        (b c : Bool)
        → test r ≡ c
        → (c || b) ≡ true
        → (b ≡ true → VoidsOne test rest (void_last test time rest))
        → VoidsOne test (r ∷ rest) (
            if b
            then r ∷ void_last test time rest
            else if c
            then record r { voided_at = some time } ∷ rest
            else r ∷ rest)
    by_case true c e h below = voids_later (below refl)
    by_case false true e h below = voids_here e
    by_case false false e h below = cc

any_of-keep :
    (test : Refund → Bool) (rs : List Refund) → 1 ≤ length (keep test rs) → any_of test rs ≡ true
any_of-keep test [] h = elim h [ ]
any_of-keep test (r ∷ rest) h = by_case (test r) (any_of-keep test rest) h
  where
    by_case :
        (b : Bool)
        → (1 ≤ length (keep test rest) → any_of test rest ≡ true)
        → 1 ≤ length (if b then r ∷ keep test rest else keep test rest)
        → (b || any_of test rest) ≡ true
    by_case true below h = refl
    by_case false below h = below h

-- A voided refund is no longer the action's own.
voided-not_own :
    (p : Proposal) (r : Refund) (time : ℕ) → is_own p (record r { voided_at = some time }) ≡ false
voided-not_own p r time = by_case (str_eq r.order_id p.target.resource_id)
  where
    by_case : (b : Bool) → (b && (false && str_eq r.execution_key p.idempotency_key)) ≡ false
    by_case true = refl
    by_case false = refl

length-VoidsOne :
    (p : Proposal) (rs ts : List Refund)
    → VoidsOne (is_own p) rs ts
    → suc (length (keep (is_own p) ts)) ≡ length (keep (is_own p) rs)
length-VoidsOne p [] ts h = elim h [ ]
length-VoidsOne p (r ∷ rest) ts (voids_here {time = time} e) = rw (voided-not_own p r time, e) refl
length-VoidsOne p (r ∷ rest) ts (voids_later {rest' = rest'} h) =
    by_case (is_own p r) (length-VoidsOne p rest rest' h)
  where
    by_case :
        (b : Bool)
        → suc (length (keep (is_own p) rest')) ≡ length (keep (is_own p) rest)
        → suc (length (if b then r ∷ keep (is_own p) rest' else keep (is_own p) rest'))
          ≡ length (if b then r ∷ keep (is_own p) rest else keep (is_own p) rest)
    by_case true below = omega (arith, below)
    by_case false below = below

module _ {C : Type 0} (rt : Runtime) (signer : Signer) (now : C → ℕ × C) where
  -- The refunds after a call of `remediate`, for the reservation of a token.
  pub data VoidsAtMostOne (p : Proposal) (token : String) (s t : Ledger C) : Type 0 where
    untouched : t.refunds ≡ s.refunds → VoidsAtMostOne p token s t
    voided_own :
        held_active (lookup token s.recourse) ≡ true
        → VoidsOne (is_own p) s.refunds t.refunds
        → 1 ≤ length (keep (is_own p) t.refunds)
        → VoidsAtMostOne p token s t

  void-VoidsAtMostOne :
      (b : Bool) (p : Proposal) (token key : String) (fault : Fault) (o : Option Refund)
      (s : Ledger C)
      → held_active (lookup token s.recourse) ≡ true
      → leb 2 (length (keep (is_own p) s.refunds)) ≡ b
      → VoidsAtMostOne p token s (void rt signer now b p token key fault o s).1
  void-VoidsAtMostOne true p token key fault none s held e = untouched refl
  void-VoidsAtMostOne false p token key fault none s held e = untouched refl
  void-VoidsAtMostOne false p token key fault (some r) s held e = untouched refl
  void-VoidsAtMostOne true p token key fault (some r) s held e =
      let time = (now s.clock).0 in
      let two = leb→le 2 (length (keep (is_own p) s.refunds)) e in
      let one =
        void_last-VoidsOne (is_own p) time s.refunds
          (any_of-keep (is_own p) s.refunds (omega (arith, two))) in
      voided_own held one
        (omega (arith, two, length-VoidsOne p s.refunds (void_last (is_own p) time s.refunds) one))

  void_duplicate-VoidsAtMostOne :
      (b : Bool) (p : Proposal) (token key : String) (fault : Fault) (s : Ledger C)
      → held_active (lookup token s.recourse) ≡ true
      → VoidsAtMostOne p token s (void_duplicate rt signer now b p token key fault s).1
  void_duplicate-VoidsAtMostOne true p token key fault s held =
      void-VoidsAtMostOne (leb 2 (length (keep (is_own p) s.refunds))) p token key fault
        (last? (keep (is_own p) s.refunds)) s held refl
  void_duplicate-VoidsAtMostOne false p token key fault s held = untouched refl

  remedy_by-VoidsAtMostOne :
      (b c : Bool) (p : Proposal) (r : Reservation) (key : String) (fault : Fault) (s : Ledger C)
      → held_active (lookup r.connector_commitment.reservation_token s.recourse) ≡ true
      → VoidsAtMostOne p r.connector_commitment.reservation_token s
          (remedy_by rt signer now b c p r key fault s).1
  remedy_by-VoidsAtMostOne true c p r key fault s held = untouched refl
  remedy_by-VoidsAtMostOne false true p r key fault s held = untouched refl
  remedy_by-VoidsAtMostOne false false p r key fault s held =
      void_duplicate-VoidsAtMostOne _ p r.connector_commitment.reservation_token key fault s held

  remedy_held-VoidsAtMostOne :
      (b : Bool) (p : Proposal) (r : Reservation) (key : String) (fault : Fault) (s : Ledger C)
      → held_active (lookup r.connector_commitment.reservation_token s.recourse) ≡ b
      → VoidsAtMostOne p r.connector_commitment.reservation_token s
          (remedy_held rt signer now b p r key fault s).1
  remedy_held-VoidsAtMostOne true p r key fault s held =
      remedy_by-VoidsAtMostOne (remedy_lost_before fault) (remedy_fails fault) p r key fault s held
  remedy_held-VoidsAtMostOne false p r key fault s held = untouched refl

  undigested-VoidsAtMostOne :
      (p : Proposal) (token : String) (s : Ledger C) (y : Result ConnectorResult × Ledger C)
      → VoidsAtMostOne p token s y.1
      → VoidsAtMostOne p token s (undigested_remedy rt signer now s y).1
  undigested-VoidsAtMostOne p token s (err (rail_error c), t) h = h
  undigested-VoidsAtMostOne p token s (err foreign, t) (untouched same) = untouched same
  undigested-VoidsAtMostOne p token s (err foreign, t) (voided_own held one left) =
      voided_own held one left
  undigested-VoidsAtMostOne p token s (ok x, t) (untouched same) = untouched same
  undigested-VoidsAtMostOne p token s (ok x, t) (voided_own held one left) =
      voided_own held one left

  remedy_if-VoidsAtMostOne :
      (b : Bool) (p : Proposal) (r : Reservation) (key : String) (fault : Fault) (s : Ledger C)
      → VoidsAtMostOne p r.connector_commitment.reservation_token s
          (remedy_if rt signer now b p r key fault s).1
  remedy_if-VoidsAtMostOne true p r key fault s = remedy_held-VoidsAtMostOne _ p r key fault s refl
  remedy_if-VoidsAtMostOne false p r key fault s =
      undigested-VoidsAtMostOne p r.connector_commitment.reservation_token s
        (remedy_new rt signer now p r key fault s)
        (remedy_held-VoidsAtMostOne _ p r key fault s refl)

  -- Where there is at most one refund, none is voided.
  pub few_untouched :
      (p : Proposal) (token : String) (s t : Ledger C)
      → length s.refunds ≤ 1
      → VoidsAtMostOne p token s t
      → t.refunds ≡ s.refunds
  few_untouched p token s t few (untouched same) = same
  few_untouched p token s t few (voided_own held one left) = absurd (
      omega (
        arith,
        few,
        left,
        length-VoidsOne p s.refunds t.refunds one,
        length-keep-le (is_own p) s.refunds,
      ))

  -- Whatever fault is injected and whether the call returns or throws, `remediate` leaves the refunds
  -- as they are, or voids one: while the reservation was active, a refund on the proposal's order that
  -- was made under the proposal's own idempotency key and was not voided. All other refunds stay as
  -- they are, and at least one such refund is left.
  pub remediate-VoidsAtMostOne :
      (p : Proposal) (r : Reservation) (key : String) (fault : Fault) (s : Ledger C)
      → VoidsAtMostOne p r.connector_commitment.reservation_token s
          (remediate rt signer now p r key fault s).1
  unfolding remediate
  remediate-VoidsAtMostOne p r key fault s =
      once-keeps _ key _ (fits rt signer now p)
        (VoidsAtMostOne p r.connector_commitment.reservation_token s)
        (remedy_if rt signer now (fits rt signer now p) p r key fault) s (untouched refl)
        (remedy_if-VoidsAtMostOne _ p r key fault s)
