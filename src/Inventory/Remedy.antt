-- ===== src/Inventory/Remedy.antt =====
-- The allocation that `remediate` chooses.
use mathlib.Core.List.{Memᴰ}
use consequence_rail.Base.{
  ℕ, ◌≡◌, refl, subst, sym, Bool, true, false, ◌&&◌, &&-true, String, Option, none, some, List, [],
  ◌∷◌, str_eq, ltb, length, last?, get_elem?, find_first, All, eq_iff, lookup, insert, ◌+◌,
  if◌then◌else◌,
}
use consequence_rail.Canonical.{Runtime}
use consequence_rail.Signing.{Signer}
use consequence_rail.Rail.Records.{Proposal, Reservation, ConnectorResult}
use consequence_rail.Rail.Interface.{Fault}
use consequence_rail.Connector.{held_active, remedy_lost_before, remedy_fails}
use consequence_rail.Connector.Idempotency.{once-keeps}
use consequence_rail.Inventory.{
  Allocation, Stock, is_live, has_id, candidates, with_candidate, chosen, free_first, on_hand,
  tracked_under, undo, bound, remedy_by, remedy_held, remedy_new, remediate, fits,
  undigested_remedy, remedy_if,
}
use consequence_rail.Errors.{Result, ok, err, rail_error, foreign}

-- An allocation that was recorded under the key and is live for the order, as `find` gives it.
pub record IsFreeable (order : String) (ids : List String) (all : List Allocation) (a : Allocation)
    : Type 0 where
  pub recorded : Memᴰ a.allocation_id ids
  pub found : find_first (has_id a.allocation_id) all ≡ some a
  pub active : is_live a.status ≡ true
  pub same_order : str_eq a.order_id order ≡ true

widen :
    (order id : String) (ids : List String) (all found : List Allocation)
    → All (IsFreeable order ids all) found
    → All (IsFreeable order (id ∷ ids) all) found
widen order id ids all [] h = tt
widen order id ids all (a ∷ found) (first, rest) = (
  record {
    recorded = Memᴰ.tail first.recorded;
    found = first.found;
    active = first.active;
    same_order = first.same_order;
  },
  widen order id ids all found rest,
)

find_first-holds :
    (p : Allocation → Bool) (xs : List Allocation) (a : Allocation)
    → find_first p xs ≡ some a
    → p a ≡ true
find_first-holds p [] a h = cc
find_first-holds p (x ∷ xs) a h = by_case (p x) refl (find_first-holds p xs a) h
  where
    by_case :
        (b : Bool)
        → p x ≡ b
        → (find_first p xs ≡ some a → p a ≡ true)
        → (if b then some x else find_first p xs) ≡ some a
        → p a ≡ true
    by_case true e below h = cc
    by_case false e below h = below h

with_candidate-IsFreeable :
    (order id : String) (ids : List String) (all : List Allocation) (o : Option Allocation)
    (rest : List Allocation)
    → find_first (has_id id) all ≡ o
    → All (IsFreeable order (id ∷ ids) all) rest
    → All (IsFreeable order (id ∷ ids) all) (with_candidate order o rest)
with_candidate-IsFreeable order id ids all none rest e h = h
with_candidate-IsFreeable order id ids all (some a) rest e h =
    by_case (is_live a.status && str_eq a.order_id order) refl
  where
    its_id : a.allocation_id ≡ id
    its_id = (eq_iff a.allocation_id id).0 (find_first-holds (has_id id) all a e)

    by_case :
        (b : Bool)
        → (is_live a.status && str_eq a.order_id order) ≡ b
        → All (IsFreeable order (id ∷ ids) all) (if b then a ∷ rest else rest)
    by_case true t = (
      record {
        recorded = subst (λ i. Memᴰ i (id ∷ ids)) (sym its_id) (Memᴰ.head refl);
        found = subst (λ i. find_first (has_id i) all ≡ some a) (sym its_id) e;
        active = (&&-true (is_live a.status) (str_eq a.order_id order) t).0;
        same_order = (&&-true (is_live a.status) (str_eq a.order_id order) t).1;
      },
      h,
    )
    by_case false t = h

pub candidates-IsFreeable :
    (order : String) (ids : List String) (all : List Allocation)
    → All (IsFreeable order ids all) (candidates order ids all)
unfolding candidates
candidates-IsFreeable order [] all = tt
candidates-IsFreeable order (id ∷ ids) all =
    with_candidate-IsFreeable order id ids all _ _ refl
      (widen order id ids all _ (candidates-IsFreeable order ids all))

some_inj : {a b : Allocation} → some a ≡ some b → a ≡ b
some_inj e = cc

All-head? :
    (P : Allocation → Type 0) (xs : List Allocation) (a : Allocation)
    → All P xs
    → get_elem? xs 0 ≡ some a
    → P a
All-head? P [] a h e = cc
All-head? P (x ∷ xs) a (p, rest) e = subst P (some_inj e) p

All-last? :
    (P : Allocation → Type 0) (xs : List Allocation) (a : Allocation)
    → All P xs
    → last? xs ≡ some a
    → P a
All-last? P [] a h e = cc
All-last? P (x ∷ []) a (p, rest) e = subst P (some_inj e) p
All-last? P (x ∷ y ∷ xs) a (p, rest) e = All-last? P (y ∷ xs) a rest e

pub chosen-holds :
    (P : Allocation → Type 0) (xs : List Allocation) (a : Allocation)
    → All P xs
    → chosen xs ≡ some a
    → P a
chosen-holds P xs a h e = by_case (ltb 1 (length xs)) e
  where
    by_case : (b : Bool) → (if b then last? xs else get_elem? xs 0) ≡ some a → P a
    by_case true e = All-last? P xs a h e
    by_case false e = All-head? P xs a h e

module _ {C : Type 0} (rt : Runtime) (signer : Signer) (now : C → ℕ × C) where
  -- The allocations and the stock after a call of `remediate`, for the reservation of a token.
  pub data FreesAtMostOne (p : Proposal) (token : String) (s t : Stock C) : Type 0 where
    untouched :
        t.allocations ≡ s.allocations → t.inventory ≡ s.inventory → FreesAtMostOne p token s t
    freed_own :
        (a : Allocation)
        → IsFreeable p.target.resource_id
            (tracked_under p.idempotency_key s.tracked)
            s.allocations
            a
        → held_active (lookup token s.recourse) ≡ true
        → t.allocations ≡ free_first a.allocation_id s.allocations
        → t.inventory ≡ insert a.sku (on_hand a.sku s.inventory + a.quantity) s.inventory
        → FreesAtMostOne p token s t

  undo-FreesAtMostOne :
      (p : Proposal) (token key : String) (fault : Fault) (o : Option Allocation) (s : Stock C)
      → held_active (lookup token s.recourse) ≡ true
      → bound rt signer now p s ≡ o
      → FreesAtMostOne p token s (undo rt signer now p token key fault o s).1
  undo-FreesAtMostOne p token key fault none s held e = untouched refl refl
  undo-FreesAtMostOne p token key fault (some a) s held e =
      freed_own a
        (chosen-holds
          (IsFreeable p.target.resource_id (tracked_under p.idempotency_key s.tracked)
            s.allocations)
          _ a
          (candidates-IsFreeable p.target.resource_id (tracked_under p.idempotency_key s.tracked)
            s.allocations)
          e)
        held refl refl

  remedy_by-FreesAtMostOne :
      (b c : Bool) (p : Proposal) (token key : String) (fault : Fault) (s : Stock C)
      → held_active (lookup token s.recourse) ≡ true
      → FreesAtMostOne p token s (remedy_by rt signer now b c p token key fault s).1
  remedy_by-FreesAtMostOne true c p token key fault s held = untouched refl refl
  remedy_by-FreesAtMostOne false true p token key fault s held = untouched refl refl
  remedy_by-FreesAtMostOne false false p token key fault s held =
      undo-FreesAtMostOne p token key fault _ s held refl

  remedy_held-FreesAtMostOne :
      (b : Bool) (p : Proposal) (token key : String) (fault : Fault) (s : Stock C)
      → held_active (lookup token s.recourse) ≡ b
      → FreesAtMostOne p token s (remedy_held rt signer now b p token key fault s).1
  remedy_held-FreesAtMostOne true p token key fault s held =
      remedy_by-FreesAtMostOne (remedy_lost_before fault) (remedy_fails fault) p token key fault s
        held
  remedy_held-FreesAtMostOne false p token key fault s held = untouched refl refl

  undigested-FreesAtMostOne :
      (p : Proposal) (token : String) (s : Stock C) (y : Result ConnectorResult × Stock C)
      → FreesAtMostOne p token s y.1
      → FreesAtMostOne p token s (undigested_remedy rt signer now s y).1
  undigested-FreesAtMostOne p token s (err (rail_error c), t) h = h
  undigested-FreesAtMostOne p token s (err foreign, t) (untouched a i) = untouched a i
  undigested-FreesAtMostOne p token s (err foreign, t) (freed_own a own held all i) =
      freed_own a own held all i
  undigested-FreesAtMostOne p token s (ok x, t) (untouched a i) = untouched a i
  undigested-FreesAtMostOne p token s (ok x, t) (freed_own a own held all i) =
      freed_own a own held all i

  remedy_if-FreesAtMostOne :
      (b : Bool) (p : Proposal) (token key : String) (fault : Fault) (s : Stock C)
      → FreesAtMostOne p token s (remedy_if rt signer now b p token key fault s).1
  remedy_if-FreesAtMostOne true p token key fault s =
      remedy_held-FreesAtMostOne _ p token key fault s refl
  remedy_if-FreesAtMostOne false p token key fault s =
      undigested-FreesAtMostOne p token s (remedy_new rt signer now p token key fault s)
        (remedy_held-FreesAtMostOne _ p token key fault s refl)

  -- Whatever fault is injected and whether the call returns or throws, `remediate` leaves the
  -- allocations and the stock as they are, or releases one allocation: one that `execute` recorded
  -- under the proposal's own idempotency key, that was live and for the proposal's order, while the
  -- reservation was active; its quantity goes back to the stock of its SKU, and nothing else changes.
  pub remediate-FreesAtMostOne :
      (p : Proposal) (r : Reservation) (key : String) (fault : Fault) (s : Stock C)
      → FreesAtMostOne p r.connector_commitment.reservation_token s
          (remediate rt signer now p r key fault s).1
  unfolding remediate
  remediate-FreesAtMostOne p r key fault s =
      let token = r.connector_commitment.reservation_token in
      once-keeps _ key _ (fits rt signer now p) (FreesAtMostOne p token s)
        (remedy_if rt signer now (fits rt signer now p) p token key fault) s (untouched refl refl)
        (remedy_if-FreesAtMostOne _ p token key fault s)
